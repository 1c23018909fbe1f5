-- ===== src/Mock/Search.antt =====
-- Services that show two handles: the first has no device path, and the path of the second is one node.
use fwupd_efi.Base.{
  ℕ, ◌+◌, ◌-◌, ◌≤◌, ◌<◌, ◌≡◌, ◌==◌, [], ◌∷◌, Option, none, some, refl, arith, if◌then◌else◌,
}
use mathlib.Core.Path.{subst}
use fwupd_efi.Memory.{Buffer}
use fwupd_efi.Efi.{success, unsupported, dp_node_length, dp_is_end, dp_type, dp_subtype}
use fwupd_efi.Firmware.Services.{Services}
use fwupd_efi.Firmware.Sound.{Sound}
use fwupd_efi.DevicePath.Spec.{PathIn, node, end_node}
use fwupd_efi.OpenFile.Device.{Shows}
use fwupd_efi.Mock.Boot.{booting, booting-Sound}

-- A hardware node and an end node.
abbrev device_byte : ℕ → ℕ
device_byte j =
    if j == 0
    then 1
    else if j == 2
    then 4
    else if j == 4
    then 127
    else if j == 5
    then 255
    else if j == 6
    then 4
    else 0

-- The same with a file node before the end.
abbrev file_byte : ℕ → ℕ
file_byte j =
    if j == 0
    then 1
    else if j == 2
    then 4
    else if j == 4
    then 4
    else if j == 5
    then 4
    else if j == 6
    then 4
    else if j == 8
    then 127
    else if j == 9
    then 255
    else if j == 10
    then 4
    else 0

abbrev pub path_of_file : Buffer
path_of_file = record { addr = 12288; size = 12; byte = file_byte }

abbrev pub path_of_device : Buffer
path_of_device = record { addr = 8192; size = 8; byte = device_byte }

abbrev pub searching : Services
searching = record booting {
  locate_handle_buffer =
      λ s guid. (record { status = success; handles = 3 ∷ 5 ∷ []; pool = 20480 }, s);
  handle_protocol = λ s handle guid.
      (record { status = if handle == 3 then unsupported else success; handle = handle }, s);
  device_path_of = λ s iface. path_of_device;
  duplicate_device_path = λ s path off.
      (some (record { addr = 16384; size = path.size - off; byte = λ j. path.byte (off + j) }), s);
  match_device_paths = λ s path off other. (off == 0, s);
}

device_path : PathIn path_of_device 0
unfolding dp_node_length dp_is_end dp_type dp_subtype
device_path =
    (8, node {k = 4} (omega arith) refl (end_node (omega arith) refl refl) refl, omega arith)

pub file_path : PathIn path_of_file 0
unfolding dp_node_length dp_is_end dp_type dp_subtype
file_path = (
  12,
  node {k = 8} (omega arith) refl
      (node {k = 4} (omega arith) refl (end_node (omega arith) refl refl) refl) refl,
  omega arith,
)

abbrev IsCopy : Buffer → ℕ → ℕ → Option Buffer → Type 0
IsCopy path off n none = Unit {0}
IsCopy path off n (some b) = (n ≤ b.size) × ((j : ℕ) → j < n → b.byte j ≡ path.byte (off + j))

pub searching-Sound : Sound searching
searching-Sound = record {
  lawful = record {
    stored_fits = booting-Sound.lawful.stored_fits;
    none_stored = booting-Sound.lawful.none_stored;
    pool_size = booting-Sound.lawful.pool_size;
  };
  pool_left = booting-Sound.pool_left;
  pages_fit = booting-Sound.pages_fit;
  read_fits = booting-Sound.read_fits;
  read_bytes = booting-Sound.read_bytes;
  shim_debug_small = booting-Sound.shim_debug_small;
  located = λ s guid path off p. p;
  shown_path = λ s iface. device_path;
  duplicated = λ s path off n b p h e. subst (IsCopy path off n) e (omega (arith, h), λ j l. refl);
}

pub searching-Shows : Shows searching
searching-Shows = record {
  listed = record { status = success; handles = 3 ∷ 5 ∷ []; pool = 20480 };
  interface =
      λ handle. record { status = if handle == 3 then unsupported else success; handle = handle };
  path = λ iface. path_of_device;
  matches = λ path off other. off == 0;
  listed_same = λ s. refl;
  interface_same = λ s handle. refl;
  path_same = λ s iface. refl;
  matches_same = λ s path off other. refl;
  whole = λ iface. device_path;
}
