-- ===== src/Update/Quiet.antt =====
-- Reading the update variables makes no commit.
use fwupd_efi.Base.{ℕ, zero, suc, List, Option}
use fwupd_efi.Memory.{Buffer}
use fwupd_efi.Efi.{Name, Guid}
use fwupd_efi.Firmware.Services.{Services, Text}
use fwupd_efi.Firmware.Monad.{Event}
use fwupd_efi.Firmware.Keeps.{Keeps, Committed}
use fwupd_efi.Firmware.Quiet.{str_duplicate-Quiet}
use fwupd_efi.Update.Keeps.{populate_update_info-Keeps, free_name-Keeps, free_info-Keeps}
use fwupd_efi.Debug.Quiet.{quiet_log, quiet_logging, delete_variable-Quiet}
use fwupd_efi.Common.Quiet.{malloc0-Quiet, time-Quiet}
use fwupd_efi.Update.{
  Update, populate_update_info, free_name, free_info, update_table_free, keep_attempt, take_update,
  visit, populate_loop, populate_update_table,
}

module _ (F : Services) {t : List Event} where
  populate_update_info-Quiet :
      (name : Name) (out : Update) → Keeps (Committed t) (populate_update_info F name out)
  populate_update_info-Quiet =
      populate_update_info-Keeps F (quiet_logging F) (str_duplicate-Quiet F)

  free_name-Quiet : (n : Option Text) → Keeps (Committed t) (free_name F n)
  free_name-Quiet = free_name-Keeps F (quiet_logging F)

  free_info-Quiet : (b : Option Buffer) → Keeps (Committed t) (free_info F b)
  free_info-Quiet = free_info-Keeps F (quiet_logging F)

  update_table_free-Quiet : (u : Update) → Keeps (Committed t) (update_table_free F u)
  unfolding update_table_free
  update_table_free-Quiet u = search (quiet_log, free_name-Quiet, free_info-Quiet) depth 10

  keep_attempt-Quiet : (u : Update) → Keeps (Committed t) (keep_attempt F u)
  unfolding keep_attempt
  keep_attempt-Quiet u = search (quiet_log, time-Quiet F, update_table_free-Quiet) depth 10

  take_update-Quiet : (name : Name) → Keeps (Committed t) (take_update F name)
  unfolding take_update
  take_update-Quiet name =
      search
        (
          quiet_log,
          malloc0-Quiet F,
          delete_variable-Quiet F,
          populate_update_info-Quiet,
          update_table_free-Quiet,
          keep_attempt-Quiet,
        )
        depth 10

  visit-Quiet :
      (name : Name) (vendor : Guid) (updates : List Update)
      → Keeps (Committed t) (visit F name vendor updates)
  unfolding visit
  visit-Quiet name vendor updates = search (quiet_log, take_update-Quiet) depth 10

  populate_loop-Quiet :
      (fuel : ℕ) (name : Name) (vendor : Guid) (updates : List Update)
      → Keeps (Committed t) (populate_loop F fuel name vendor updates)
  unfolding populate_loop
  populate_loop-Quiet zero name vendor updates = search quiet_log depth 10
  populate_loop-Quiet (suc fuel) name vendor updates =
      search (quiet_log, visit-Quiet, populate_loop-Quiet fuel) depth 10

  pub populate_update_table-Quiet : (fuel : ℕ) → Keeps (Committed t) (populate_update_table F fuel)
  unfolding populate_update_table
  populate_update_table-Quiet fuel =
      search (quiet_log, malloc0-Quiet F, populate_loop-Quiet) depth 10
