-- ===== src/Firmware/Sound.antt =====
-- What a whole run of the program relies on of the firmware: documented behaviour, and that memory for
-- small blocks does not run out.
use fwupd_efi.Base.{ℕ, ◌+◌, ◌≤◌, ◌<◌, ◌^◌, ◌≡◌, false, true, none, some, codes}
use fwupd_efi.Memory.{Buffer}
use fwupd_efi.Efi.{efi_error, Guid, shim_lock_guid}
use fwupd_efi.Firmware.Services.{Services, AllocateType}
use fwupd_efi.Firmware.Lawful.{Lawful}
use fwupd_efi.DevicePath.Spec.{PathAt, PathIn}

pub record Sound (F : Services) : Type 0 where
  pub lawful : Lawful F
  -- `AllocateZeroPool` has a page. `AllocatePages` has less than a quarter of the address space.
  pub pool_left :
      (s : F.State) (size : ℕ) → size ≤ 4096 → (F.allocate_zero_pool s size).0 ≡ none → ⊥
  pub pages_fit :
      (s : F.State) (type : AllocateType) (n addr : ℕ)
      → efi_error (F.allocate_pages s type n addr).0.status ≡ false
      → n < 2 ^ 50
  -- `Read` gives no more than was asked for, and it gives bytes.
  pub read_fits :
      (s : F.State) (fh n : ℕ)
      → efi_error (F.read s fh n).0.status ≡ false
      → (F.read s fh n).0.size ≤ n
  pub read_bytes :
      (s : F.State) (fh n : ℕ)
      → efi_error (F.read s fh n).0.status ≡ false
      → (j : ℕ) → j < (F.read s fh n).0.size
      → (F.read s fh n).0.bytes j < 256
  -- shim's variable SHIM_DEBUG has at most eight bytes.
  pub shim_debug_small :
      (s : F.State) → (F.get_variable s (codes "SHIM_DEBUG") shim_lock_guid 1 true).0.size ≤ 8
  -- `LocateDevicePath` leaves the pointer at a node of the path that it was given; a handle's device
  -- path is one; and a duplicate has the bytes of the path.
  pub located :
      (s : F.State) (guid : Guid) (path : Buffer) (off : ℕ)
      → PathIn path off
      → PathIn path (F.locate_device_path s guid path off).0.offset
  pub shown_path : (s : F.State) (iface : ℕ) → PathIn (F.device_path_of s iface) 0
  pub duplicated :
      (s : F.State) (path : Buffer) (off n : ℕ) (b : Buffer)
      → PathAt path.byte off n
      → off + n ≤ path.size
      → (F.duplicate_device_path s path off).0 ≡ some b
      → (n ≤ b.size) × ((j : ℕ) → j < n → b.byte j ≡ path.byte (off + j))
