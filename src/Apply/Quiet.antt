-- ===== src/Apply/Quiet.antt =====
-- Making a capsule and writing the statuses back make no commit.
use fwupd_efi.Base.{ℕ, List, [], ◌∷◌, Bool, String}
use fwupd_efi.Memory.{Buffer}
use fwupd_efi.Efi.{efi_error}
use fwupd_efi.Firmware.Services.{Services, Arg}
use fwupd_efi.Firmware.Monad.{Event}
use fwupd_efi.Firmware.Keeps.{Keeps, Keeps-bind, Keeps-if, Keeps-on_option, Committed}
use fwupd_efi.Debug.Quiet.{quiet_log}
use fwupd_efi.Variable.Quiet.{set_variable-Quiet}
use fwupd_efi.Common.Quiet.{read_file-Quiet}
use fwupd_efi.Capsule.Quiet.{check_gop_for_ux_capsule-Quiet}
use fwupd_efi.Update.{Update}
use fwupd_efi.OpenFile.Quiet.{open_file-Quiet}
use fwupd_efi.Apply.{warn, complete_ux, make_capsule, add_update_capsule, set_update_statuses}

module _ (F : Services) (fixed : Bool) {t : List Event} where
  pub warn-Quiet : (fmt : String) (args : List Arg) → Keeps (Committed t) (warn F fixed fmt args)
  unfolding warn
  warn-Quiet fmt args = search quiet_log depth 10

  complete_ux-Quiet :
      (loaded_image : ℕ) (update_info : Buffer) (capsule : Buffer) (fsize : ℕ)
      → Keeps (Committed t) (complete_ux F fixed loaded_image update_info capsule fsize)
  unfolding complete_ux
  complete_ux-Quiet loaded_image update_info capsule fsize =
      search (quiet_log, check_gop_for_ux_capsule-Quiet) depth 10

  make_capsule-Quiet :
      (loaded_image : ℕ) (update_info : Buffer) (fbuf : Buffer) (fsize : ℕ)
      → Keeps (Committed t) (make_capsule F fixed loaded_image update_info fbuf fsize)
  unfolding make_capsule
  make_capsule-Quiet loaded_image update_info fbuf fsize =
      search (quiet_log, warn-Quiet, complete_ux-Quiet) depth 10

  pub add_update_capsule-Quiet :
      (update : Update) (loaded_image : ℕ)
      → Keeps (Committed t) (add_update_capsule F fixed update loaded_image)
  unfolding add_update_capsule
  add_update_capsule-Quiet update loaded_image =
      search (quiet_log, open_file-Quiet, read_file-Quiet, make_capsule-Quiet) depth 10

module _ (F : Services) {t : List Event} where
  pub set_update_statuses-Quiet :
      (updates : List Update) → Keeps (Committed t) (set_update_statuses F updates)
  unfolding set_update_statuses
  set_update_statuses-Quiet [] = search quiet_log
  set_update_statuses-Quiet (u ∷ updates) = Keeps-on_option u.name _ _ (search quiet_log) λ name.
      Keeps-bind _ _ (search quiet_log) λ update_info. Keeps-bind _ _ (search quiet_log) λ _.
        Keeps-bind _ _ (search set_variable-Quiet)
          λ rc. Keeps-if (efi_error rc) _ _ (search quiet_log) (set_update_statuses-Quiet updates)
