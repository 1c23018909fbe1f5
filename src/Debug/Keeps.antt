-- ===== src/Debug/Keeps.antt =====
-- What logging keeps, if its calls keep it; and so what the functions keep that log.
use fwupd_efi.Base.{ℕ, zero, suc, List, String}
use fwupd_efi.Efi.{Name, Guid, fwupdate_guid}
use fwupd_efi.Firmware.Services.{Services, Arg, Text}
use fwupd_efi.Firmware.Monad.{World}
use fwupd_efi.Firmware.Calls.{vpool_print, pool_print, print}
use fwupd_efi.Firmware.Keeps.{Keeps, keeps_rules, Keeps-bind, Keeps-if}
use fwupd_efi.Variable.{Level, debug, info, warning, last, Logger, set_variable}
use fwupd_efi.Variable.Keeps.{
  ReadKeeps, WriteKeeps, LoggerKeeps, set_variable-Keeps, delete_variable_with-Keeps,
  get_variable_with-Keeps, malloc_with-Keeps,
}
use fwupd_efi.Debug.{
  log_name, debug_get_enabled, get_once, clear_once, efivar_append, log_debugging, log_screen,
  log_text, log_body, log_fuel, fwup_log, delete_variable, get_variable, malloc,
}

-- The calls that logging makes keep `P`, and so does the end of `once`.
pub record LogCalls (F : Services) (P : World F.State → Type 0) : Type 0 where
  pub reading : ReadKeeps F P
  pub writing : WriteKeeps F P log_name fwupdate_guid
  pub formatting : (fmt : String) (args : List Arg) → Keeps P (vpool_print F fmt args)
  pub joining : (fmt func : String) (tmp : Name) → Keeps P (pool_print F fmt func tmp)
  pub printing : (units : Name) → Keeps P (print F units)
  pub clearing : Keeps P (clear_once F)

module _ (F : Services) {P : World F.State → Type 0} (c : LogCalls F P) where
  pub debug_get_enabled-Keeps : Keeps P (debug_get_enabled F)
  unfolding debug_get_enabled
  debug_get_enabled-Keeps = search keeps_rules

  get_once-Keeps : Keeps P (get_once F)
  unfolding get_once
  get_once-Keeps = search keeps_rules

  log_set-Keeps :
      (bytes : List ℕ) (attrs : ℕ) → Keeps P (set_variable F log_name fwupdate_guid bytes attrs)
  log_set-Keeps bytes attrs = set_variable-Keeps F log_name fwupdate_guid bytes attrs c.writing

  clear_once-Keeps : Keeps P (clear_once F)
  clear_once-Keeps = c.clearing

  efivar_append-Keeps :
      (log : Logger F) (out1 : Name) → LoggerKeeps F P log → Keeps P (efivar_append F log out1)
  unfolding efivar_append
  efivar_append-Keeps log out1 q = Keeps-bind _ _ get_once-Keeps λ once.
      Keeps-if once _ _
        (Keeps-bind _ _ clear_once-Keeps λ _.
          Keeps-bind _ _
            (delete_variable_with-Keeps F c.reading log q log_name fwupdate_guid c.writing)
            λ _. search (keeps_rules, log_set-Keeps))
        (search (keeps_rules, log_set-Keeps))

  log_debugging-Keeps :
      (log : Logger F) (func : String) (tmp : Text)
      → LoggerKeeps F P log
      → Keeps P (log_debugging F log func tmp)
  unfolding log_debugging
  log_debugging-Keeps log func tmp q =
      search (keeps_rules, c.joining, c.printing, c.reading.freeing, efivar_append-Keeps) depth 8

  log_screen-Keeps : (level : Level) (tmp : Text) → Keeps P (log_screen F level tmp)
  unfolding log_screen
  log_screen-Keeps debug tmp = search keeps_rules
  log_screen-Keeps info tmp = c.printing _
  log_screen-Keeps warning tmp = c.printing _
  log_screen-Keeps last tmp = c.printing _

  log_text-Keeps :
      (log : Logger F) (level : Level) (func : String) (tmp : Text)
      → LoggerKeeps F P log
      → Keeps P (log_text F log level func tmp)
  unfolding log_text
  log_text-Keeps log level func tmp q =
      search
        (
          keeps_rules, debug_get_enabled-Keeps, log_debugging-Keeps, log_screen-Keeps,
          c.reading.freeing,
        )
        depth 8

  log_body-Keeps : (log : Logger F) → LoggerKeeps F P log → LoggerKeeps F P (log_body F log)
  unfolding log_body
  log_body-Keeps log q level func fmt args =
      search (keeps_rules, c.formatting, c.printing, log_text-Keeps) depth 8

  log_fuel-Keeps : (n : ℕ) → LoggerKeeps F P (log_fuel F n)
  unfolding log_fuel
  log_fuel-Keeps zero level func fmt args = search keeps_rules
  log_fuel-Keeps (suc n) level func fmt args =
      log_body-Keeps (log_fuel F n) (log_fuel-Keeps n) level func fmt args

  log_calls-Keeps : LoggerKeeps F P (fwup_log F)
  unfolding fwup_log
  log_calls-Keeps level func fmt args = log_fuel-Keeps 2 level func fmt args

-- Reading and logging keep `P`.
pub record LogKeeps (F : Services) (P : World F.State → Type 0) : Type 0 where
  pub reading : ReadKeeps F P
  pub logging : LoggerKeeps F P (fwup_log F)

pub log_keeps : (F : Services) {P : World F.State → Type 0} → LogCalls F P → LogKeeps F P
log_keeps F c = record { reading = c.reading; logging = log_calls-Keeps F c }

module _ (F : Services) {P : World F.State → Type 0} (c : LogKeeps F P) where
  pub delete_variable-Keeps :
      (name : Name) (guid : Guid) → WriteKeeps F P name guid → Keeps P (delete_variable F name guid)
  unfolding delete_variable
  delete_variable-Keeps name guid k =
      delete_variable_with-Keeps F c.reading (fwup_log F) c.logging name guid k

  pub get_variable-Keeps : (name : Name) (guid : Guid) → Keeps P (get_variable F name guid)
  unfolding get_variable
  get_variable-Keeps name guid =
      get_variable_with-Keeps F c.reading (fwup_log F) c.logging name guid

  pub malloc-Keeps : (size : ℕ) → Keeps P (malloc F size)
  unfolding malloc
  malloc-Keeps size = malloc_with-Keeps F c.reading (fwup_log F) c.logging size
