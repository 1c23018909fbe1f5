-- ===== src/Capsule/Quiet.antt =====
-- The checks of a capsule make no commit.
use fwupd_efi.Base.{ℕ, List, [], ◌∷◌}
use fwupd_efi.Memory.{Buffer}
use fwupd_efi.Efi.{efi_error}
use fwupd_efi.Firmware.Services.{Services}
use fwupd_efi.Firmware.Monad.{Event}
use fwupd_efi.Firmware.Keeps.{Keeps, Keeps-bind, Keeps-if, Committed}
use fwupd_efi.Debug.Quiet.{quiet_log}
use fwupd_efi.Capsule.{gop_loop, get_gop_mode, ux_mode_set, check_gop_for_ux_capsule}

module _ (F : Services) {t : List Event} where
  gop_loop-Quiet :
      (loaded_image : ℕ) (handles : List ℕ) → Keeps (Committed t) (gop_loop F loaded_image handles)
  unfolding gop_loop
  gop_loop-Quiet loaded_image [] = search quiet_log depth 10
  gop_loop-Quiet loaded_image (handle ∷ handles) = Keeps-bind _ _ (search quiet_log) (λ r.
      Keeps-if (efi_error r.status) _ _ (gop_loop-Quiet loaded_image handles) (search quiet_log))

  pub get_gop_mode-Quiet : (loaded_image : ℕ) → Keeps (Committed t) (get_gop_mode F loaded_image)
  unfolding get_gop_mode
  get_gop_mode-Quiet loaded_image = search (quiet_log, gop_loop-Quiet) depth 10

  ux_mode_set-Quiet :
      (capsule : Buffer) (header_size : ℕ) (mode : ℕ)
      → Keeps (Committed t) (ux_mode_set F capsule header_size mode)
  unfolding ux_mode_set
  ux_mode_set-Quiet capsule header_size mode = search quiet_log depth 10

  pub check_gop_for_ux_capsule-Quiet :
      (loaded_image : ℕ) (capsule : Buffer) (fsize : ℕ)
      → Keeps (Committed t) (check_gop_for_ux_capsule F loaded_image capsule fsize)
  unfolding check_gop_for_ux_capsule
  check_gop_for_ux_capsule-Quiet loaded_image capsule fsize =
      search (quiet_log, get_gop_mode-Quiet, ux_mode_set-Quiet) depth 10
