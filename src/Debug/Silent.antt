-- ===== src/Debug/Silent.antt =====
-- While debugging is off, a message goes to the screen alone.
use fwupd_efi.Base.{◌≡◌, Bool, false, sym, String, List}
use mathlib.Core.Path.{subst}
use fwupd_efi.Efi.{Name}
use fwupd_efi.Firmware.Services.{Services, Arg, Text}
use fwupd_efi.Firmware.Monad.{World, M, gets, ◌>>=◌}
use fwupd_efi.Firmware.Calls.{vpool_print, print}
use fwupd_efi.Firmware.Keeps.{Keeps, keeps_rules, After}
use fwupd_efi.Variable.{Level, debug, info, warning, last, Logger}
use fwupd_efi.Variable.Keeps.{ReadKeeps, LoggerKeeps}
use fwupd_efi.Debug.{debug_get_enabled, log_screen, log_text, log_body, log_fuel, fwup_log}
use fwupd_efi.Debug.Keeps.{LogKeeps}

-- The calls of a message to the screen keep `P`, and debugging is off where `P` holds.
pub record Silent (F : Services) (P : World F.State → Type 0) : Type 0 where
  pub reading : ReadKeeps F P
  pub formatting : (fmt : String) (args : List Arg) → Keeps P (vpool_print F fmt args)
  pub printing : (units : Name) → Keeps P (print F units)
  pub off : (w : World F.State) → P w → w.debugging ≡ false

module _ (F : Services) {P : World F.State → Type 0} (c : Silent F P) where
  off-bind :
      {A : Type 0} (f : Bool → M (World F.State) A)
      → Keeps P (f false)
      → Keeps P (debug_get_enabled F >>= f)
  unfolding debug_get_enabled gets ◌>>=◌
  off-bind f k = record { at = λ w h. subst (λ b. After P (f b w)) (sym (c.off w h)) (k.at w h) }

  log_screen-Keeps : (level : Level) (tmp : Text) → Keeps P (log_screen F level tmp)
  unfolding log_screen
  log_screen-Keeps debug tmp = search keeps_rules
  log_screen-Keeps info tmp = c.printing _
  log_screen-Keeps warning tmp = c.printing _
  log_screen-Keeps last tmp = c.printing _

  log_text-Keeps :
      (log : Logger F) (level : Level) (func : String) (tmp : Text)
      → Keeps P (log_text F log level func tmp)
  unfolding log_text
  log_text-Keeps log level func tmp =
      off-bind _ (search (keeps_rules, log_screen-Keeps, c.reading.freeing))

  log_body-Keeps : (log : Logger F) → LoggerKeeps F P (log_body F log)
  unfolding log_body
  log_body-Keeps log level func fmt args =
      search (keeps_rules, c.formatting, c.printing, log_text-Keeps) depth 8

  pub silent_logging : LogKeeps F P
  unfolding fwup_log log_fuel
  silent_logging = record { reading = c.reading; logging = log_body-Keeps (log_fuel F 1) }
