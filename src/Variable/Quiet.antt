-- ===== src/Variable/Quiet.antt =====
-- The functions of efi/fwup-efi.c make no commit.
use fwupd_efi.Base.{ℕ, List, Option}
use fwupd_efi.Memory.{Buffer}
use fwupd_efi.Efi.{Name, Guid}
use fwupd_efi.Firmware.Services.{Services}
use fwupd_efi.Firmware.Monad.{Event}
use fwupd_efi.Firmware.Keeps.{Keeps, Committed}
use fwupd_efi.Firmware.Quiet.{
  get_variable_call-Quiet, set_variable_call-Quiet, allocate_pool-Quiet, free_pool-Quiet,
}
use fwupd_efi.Variable.{set_variable, cleanup_free}
use fwupd_efi.Variable.Keeps.{ReadKeeps, set_variable-Keeps, cleanup_free-Keeps}

module _ (F : Services) {t : List Event} where
  pub quiet_reading : ReadKeeps F (Committed t)
  quiet_reading = record {
    getting = get_variable_call-Quiet F;
    allocating = allocate_pool-Quiet F;
    freeing = free_pool-Quiet F;
  }

  pub set_variable-Quiet :
      (name : Name) (guid : Guid) (bytes : List ℕ) (attrs : ℕ)
      → Keeps (Committed t) (set_variable F name guid bytes attrs)
  set_variable-Quiet name guid bytes attrs =
      set_variable-Keeps F name guid bytes attrs (set_variable_call-Quiet F name guid)

  pub cleanup_free-Quiet : (b : Option Buffer) → Keeps (Committed t) (cleanup_free F b)
  cleanup_free-Quiet = cleanup_free-Keeps F quiet_reading
