-- ===== src/Debug/Quiet.antt =====
-- Logging makes no commit, and so neither do the functions that log.
use fwupd_efi.Base.{ℕ, List, Bool, String}
use fwupd_efi.Efi.{Name, Guid, fwupdate_guid}
use fwupd_efi.Firmware.Services.{Services, Arg}
use fwupd_efi.Firmware.Monad.{Event, modify}
use fwupd_efi.Firmware.Keeps.{Keeps, Committed}
use fwupd_efi.Firmware.Quiet.{
  quiet_calls, set_variable_call-Quiet, vpool_print-Quiet, pool_print-Quiet, print-Quiet,
}
use fwupd_efi.Variable.{Level}
use fwupd_efi.Variable.Quiet.{quiet_reading}
use fwupd_efi.Debug.{
  log_name, debug_get_enabled, debug_set_enabled, clear_once, fwup_log, delete_variable,
  get_variable, malloc,
}
use fwupd_efi.Debug.Keeps.{
  LogKeeps, LogCalls, log_keeps, delete_variable-Keeps, get_variable-Keeps, malloc-Keeps,
  debug_get_enabled-Keeps,
}

module _ (F : Services) {t : List Event} where
  clear_once-Quiet : Keeps (Committed t) (clear_once F)
  unfolding clear_once modify
  clear_once-Quiet = record { at = λ w h. h }

  quiet_log_calls : LogCalls F (Committed t)
  quiet_log_calls = record {
    reading = quiet_reading F;
    writing = set_variable_call-Quiet F log_name fwupdate_guid;
    formatting = vpool_print-Quiet F;
    joining = pool_print-Quiet F;
    printing = print-Quiet F;
    clearing = clear_once-Quiet;
  }

  pub quiet_logging : LogKeeps F (Committed t)
  quiet_logging = log_keeps F quiet_log_calls

  pub debug_get_enabled-Quiet : Keeps (Committed t) (debug_get_enabled F)
  debug_get_enabled-Quiet = debug_get_enabled-Keeps F quiet_log_calls

  pub debug_set_enabled-Quiet : (b : Bool) → Keeps (Committed t) (debug_set_enabled F b)
  unfolding debug_set_enabled modify
  debug_set_enabled-Quiet b = record { at = λ w h. h }

  pub fwup_log-Quiet :
      (level : Level) (func fmt : String) (args : List Arg)
      → Keeps (Committed t) (fwup_log F level func fmt args)
  fwup_log-Quiet = quiet_logging.logging

  pub delete_variable-Quiet :
      (name : Name) (guid : Guid) → Keeps (Committed t) (delete_variable F name guid)
  delete_variable-Quiet name guid =
      delete_variable-Keeps F quiet_logging name guid (set_variable_call-Quiet F name guid)

  pub get_variable-Quiet :
      (name : Name) (guid : Guid) → Keeps (Committed t) (get_variable F name guid)
  get_variable-Quiet = get_variable-Keeps F quiet_logging

  pub malloc-Quiet : (size : ℕ) → Keeps (Committed t) (malloc F size)
  malloc-Quiet = malloc-Keeps F quiet_logging

pub ruleset quiet_log = (quiet_calls, fwup_log-Quiet)
