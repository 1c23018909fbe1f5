-- ===== src/Mock.antt =====
-- Services for tests: one update variable, `fw`, and one file of 100 bytes that is its capsule. The
-- state counts the names that were enumerated.
pub mod Store
pub mod Library
pub mod Boot
pub mod Search
pub mod Display
use fwupd_efi.Base.{
  ℕ, ◌+◌, Bool, true, false, [], none, some, ◌≤◌, ◌<◌, ◌≡◌, ◌≢◌, inl, inr, refl, arith, Bool-cases,
}
use mathlib.Core.Path.{subst, sym}
use fwupd_efi.Memory.{Buffer}
use fwupd_efi.Base.{◌==◌, ◌&&◌, ◌^◌, leb, ltb, same, codes, if◌then◌else◌}
use fwupd_efi.Efi.{
  Name, Guid, success, not_found, buffer_too_small, unsupported, fwupdate_guid, efi_error,
  success-efi_error,
}
use fwupd_efi.Firmware.Lawful.{Lawful, Enumerates}
use fwupd_efi.Firmware.Services.{Services, VariableReply, NextReply, cold}
use fwupd_efi.Firmware.Monad.{World}
use fwupd_efi.Common.File.{IsFile}
use fwupd_efi.Base.{◌-◌}

-- `FWUP_UPDATE_INFO` with the attempt bit, and a path of a file node, `abcd`, and an end node.
abbrev pub info_byte : ℕ → ℕ
info_byte j =
    if j == 48
    then 1
    else if j == 52
    then 4
    else if j == 53
    then 4
    else if j == 54
    then 14
    else if j == 56
    then 97
    else if j == 58
    then 98
    else if j == 60
    then 99
    else if j == 62
    then 100
    else if j == 66
    then 127
    else if j == 67
    then 255
    else if j == 68
    then 4
    else 0

-- A capsule header: its own size and the image size.
abbrev pub file_byte : ℕ → ℕ
file_byte j = if j == 16 then 28 else if j == 24 then 100 else 0

abbrev pub fw : Name
fw = codes "fw"

abbrev pub no_bytes : ℕ → ℕ
no_bytes j = 0

abbrev variable : Name → ℕ → Bool → VariableReply
variable name size held =
    if same name fw
    then (if held && leb 70 size
        then record { status = success; attrs = 7; size = 70; bytes = info_byte }
        else record { status = buffer_too_small; attrs = 7; size = 70; bytes = no_bytes })
    else record { status = not_found; attrs = 0; size = 0; bytes = no_bytes }

abbrev next : Name → Guid → NextReply
next name guid =
    if same name fw
    then record { status = not_found; name = name; vendor = guid }
    else record { status = success; name = fw; vendor = fwupdate_guid }

abbrev pub services : Services
services = record {
  State = ℕ;
  pointer_size = 8;
  get_variable = λ s name guid size buf. (variable name size buf, s);
  set_variable = λ s name guid attrs bytes. (success, s);
  get_next_variable_name = λ s size name guid. (next name guid, s + 1);
  get_time = λ s. (record { status = success; time = λ j. 9 }, s);
  query_capsule_capabilities =
      λ s capsules count. (record { status = success; max_size = 4096; reset = cold }, s);
  update_capsule = λ s capsules count blocks. (success, s);
  reset_system = λ s type status. s;
  stall = λ s n. s;
  allocate_pages =
      λ s type pages addr. (record { status = success; memory = 4096; byte = no_bytes }, s);
  free_pages = λ s addr pages. (success, s);
  locate_device_path =
      λ s guid path off. (record { status = success; offset = off; device = 7 }, s);
  locate_handle_buffer = λ s guid. (record { status = not_found; handles = []; pool = 0 }, s);
  handle_protocol = λ s handle guid. (record { status = success; handle = 8 }, s);
  open_protocol = λ s handle guid agent. (record { status = unsupported; handle = 0 }, s);
  open_volume = λ s drive. (record { status = success; handle = 9 }, s);
  open_file = λ s root name. (record { status = success; handle = 10 }, s);
  read = λ s fh size. (record { status = success; size = 100; bytes = file_byte }, s);
  close = λ s fh. s;
  device_path_of = λ s iface. record { addr = 0; size = 0; byte = no_bytes };
  gop_mode = λ s iface. 0;
  allocate_pool = λ s size. (
    if ltb size (2 ^ 63) then some (record { addr = 16; size = size; byte = no_bytes }) else none,
    s,
  );
  allocate_zero_pool = λ s size. (some 32, s);
  free_pool = λ s addr. s;
  str_duplicate = λ s name. (some (record { addr = 48; units = name }), s);
  duplicate_device_path = λ s path off. (none, s);
  device_path_to_str = λ s path off. ([], s);
  match_device_paths = λ s path off other. (false, s);
  locate_handle = λ s guid. (record { status = not_found; handles = []; pool = 0 }, s);
  vpool_print = λ s fmt args. (some (record { addr = 64; units = codes fmt }), s);
  pool_print = λ s fmt func tmp. (some (record { addr = 80; units = tmp }), s);
  print = λ s units. s;
}

abbrev pub start : World ℕ
start = record { fw = 0; debugging = false; once = true; trace = [] }

-- The name `fw` is the last one.
abbrev pub rank : Name → Guid → ℕ
rank name vendor = if same name fw then 0 else 1

stored_fits :
    (name : Name) (size : ℕ)
    → efi_error (variable name size true).status ≡ false
    → (variable name size true).size ≤ size
unfolding efi_error
stored_fits name size h = ground arith

none_stored :
    (name : Name) (size : ℕ)
    → efi_error (variable name size false).status ≡ false
    → (variable name size false).size ≡ 0
unfolding efi_error
none_stored name size h = ground arith

pool_size :
    (s size : ℕ) (b : Buffer)
    → (services.allocate_pool s size).0 ≡ some b
    → (b.size ≡ size) × (size < 2 ^ 63)
pool_size s size b h = (ground arith, ground arith)

pub services-Lawful : Lawful services
services-Lawful = record {
  stored_fits = λ s name guid size. stored_fits name size;
  none_stored = λ s name guid size. none_stored name size;
  pool_size = pool_size;
}

last_name :
    (name : Name) (vendor : Guid)
    → same name fw ≡ true
    → (efi_error (next name vendor).status ≡ true) × ((next name vendor).status ≢ buffer_too_small)
unfolding efi_error
last_name name vendor h = (ground arith, λ e. ground arith)

rank_fw : rank fw fwupdate_guid ≡ 0
unfolding same
rank_fw = refl

first_name :
    (name : Name) (vendor : Guid)
    → same name fw ≡ false
    → rank (next name vendor).name (next name vendor).vendor < rank name vendor
first_name name vendor h =
    subst (λ r. rank r.name r.vendor < rank name vendor) (sym goes_to_fw) (ground (arith, rank_fw))
  where
    goes_to_fw : next name vendor ≡ record { status = success; name = fw; vendor = fwupdate_guid }
    goes_to_fw = ground arith

pub services-Enumerates : Enumerates services rank 1024
services-Enumerates s name vendor = elim (Bool-cases (same name fw)) [
  | inl t ↦ inl (last_name name vendor t)
  | inr f ↦ inr (first_name name vendor f)
]

-- A `Read` of the file of 100 bytes, of which `s` were read.
abbrev read_size : ℕ → ℕ → ℕ
read_size s n = if leb (s + n) 100 then n else 100 - s

-- Services whose state says how far the file was read.
abbrev pub reading : Services
reading = record services {
  read = λ s fh n. (
    record { status = success; size = read_size s n; bytes = λ j. file_byte (s + j) },
    s + read_size s n,
  );
}

pub reading-IsFile : IsFile reading 10 (λ s. s) file_byte 100
reading-IsFile = record {
  wide = refl;
  read_ok = λ s n. success-efi_error;
  read_all = λ s n h. ground arith;
  read_rest = λ s n h. ground arith;
  read_bytes = λ s n j h. refl;
  read_on = λ s n. refl;
  pages_ok = λ s type n addr. success-efi_error;
  pages_apart = λ s type n addr. refl;
  freed_apart = λ s addr n. refl;
}
