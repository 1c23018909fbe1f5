-- ===== src/Update/Hang.antt =====
-- The enumeration of the variables has no bound of its own.
use fwupd_efi.Base.{ℕ, zero, suc, ◌≡◌, List, refl}
use fwupd_efi.Efi.{Name, Guid, buffer_too_small}
use fwupd_efi.Firmware.Services.{Services}
use fwupd_efi.Firmware.Monad.{World, fault, no_fuel, call, ◌>>=◌, fail}
use fwupd_efi.Firmware.Calls.{get_next_variable_name}
use fwupd_efi.Update.{Update, gnvn_buf_size, populate_loop}

module _ (F : Services)
    (too_small : (s : F.State) (name : Name) (vendor : Guid)
      → (F.get_next_variable_name s gnvn_buf_size name vendor).0.status ≡ buffer_too_small) where
  -- Over firmware that answers `GetNextVariableName` by `EFI_BUFFER_TOO_SMALL` each time, the loop of
  -- `fwup_populate_update_table` does not end: no number of rounds is enough.
  pub populate_loop-no_fuel :
      (fuel : ℕ) (name : Name) (vendor : Guid) (updates : List Update) (w : World F.State)
      → populate_loop F fuel name vendor updates w ≡ fault no_fuel
  unfolding populate_loop get_next_variable_name call ◌>>=◌ fail
  populate_loop-no_fuel zero name vendor updates w = refl
  populate_loop-no_fuel (suc fuel) name vendor updates w =
      simp (too_small w.fw name vendor, populate_loop-no_fuel fuel)
