-- ===== src/Firmware/Lawful.antt =====
-- What the program relies on of the firmware's services, where it reads variables.
use fwupd_efi.Base.{ℕ, ◌≤◌, ◌<◌, ◌^◌, ◌≡◌, ◌≢◌, ◌⊎◌, true, false, some}
use fwupd_efi.Memory.{Buffer}
use fwupd_efi.Efi.{Name, Guid, efi_error, buffer_too_small}
use fwupd_efi.Firmware.Services.{Services}

-- `GetVariable` stores no more bytes than it was told to have room for, and none where the pointer is
-- NULL; memory from the pool has the size that was asked for, and is less than half of the address
-- space.
pub record Lawful (F : Services) : Type 0 where
  pub stored_fits :
      (s : F.State) (name : Name) (guid : Guid) (size : ℕ)
      → efi_error (F.get_variable s name guid size true).0.status ≡ false
      → (F.get_variable s name guid size true).0.size ≤ size
  pub none_stored :
      (s : F.State) (name : Name) (guid : Guid) (size : ℕ)
      → efi_error (F.get_variable s name guid size false).0.status ≡ false
      → (F.get_variable s name guid size false).0.size ≡ 0
  pub pool_size :
      (s : F.State) (size : ℕ) (b : Buffer)
      → (F.allocate_pool s size).0 ≡ some b
      → (b.size ≡ size) × (size < 2 ^ 63)

-- `GetNextVariableName` comes to an end: a name has a rank, the number of names that may follow it,
-- and the next one, or the name that is left where the buffer was too small, has a smaller rank.
abbrev pub Enumerates : (F : Services) → (Name → Guid → ℕ) → ℕ → Type 0
Enumerates F rank size =
    (s : F.State) (name : Name) (vendor : Guid)
    → ((efi_error (F.get_next_variable_name s size name vendor).0.status ≡ true)
        × ((F.get_next_variable_name s size name vendor).0.status ≢ buffer_too_small))
      ⊎ (rank (F.get_next_variable_name s size name vendor).0.name
            (F.get_next_variable_name s size name vendor).0.vendor
          < rank name vendor)
