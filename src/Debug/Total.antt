-- ===== src/Debug/Total.antt =====
-- `fwup_log` always returns: its calls of itself through `fwup_delete_variable` end.
use fwupd_efi.Base.{ℕ, List, Bool, true, false, ◌≡◌, refl, Option, none, some, String}
use fwupd_efi.Efi.{Name, Guid}
use fwupd_efi.Firmware.Services.{Services, Arg, Text}
use fwupd_efi.Firmware.Monad.{World, modify, gets, M, Checked, value, fault, ◌>>=◌}
use fwupd_efi.Firmware.Calls.{
  vpool_print, pool_print, print, free_pool, get_variable_call, set_variable_call, allocated,
}
use fwupd_efi.Firmware.Total.{
  Total, Any, safe_rules, Safe-bind, Safe-if, Returns, Total-bind, Total-if,
}
use fwupd_efi.Variable.{
  Level, debug, info, warning, last, Logger, delete_after, delete_variable_with, set_variable,
}
use fwupd_efi.Debug.{
  debug_get_enabled, get_once, clear_once, efivar_append, log_debugging, log_screen, log_text,
  log_body, log_fuel, fwup_log,
}

abbrev IsFalse : Bool → Type 0
IsFalse b = b ≡ false

abbrev IsSafeLogger : (F : Services) → (Bool → Type 0) → Logger F → Type 0
IsSafeLogger F O log =
    (level : Level) (func fmt : String) (args : List Arg) → Total O (log level func fmt args) Any

module _ (F : Services) {O : Bool → Type 0} where
  print-Safe : (units : Name) → Total O (print F units) Any
  unfolding print
  print-Safe units = search safe_rules

  pub free_pool-Safe : (p : ℕ) → Total O (free_pool F p) Any
  unfolding free_pool
  free_pool-Safe p = search safe_rules

  pub allocated-Safe : {A : Type 0} (addr : A → ℕ) (o : Option A) → Total O (allocated F addr o) Any
  unfolding allocated
  allocated-Safe addr none = search safe_rules
  allocated-Safe addr (some b) = search safe_rules

  vpool_print-Safe : (fmt : String) (args : List Arg) → Total O (vpool_print F fmt args) Any
  unfolding vpool_print
  vpool_print-Safe fmt args = search (safe_rules, allocated-Safe)

  pool_print-Safe : (fmt func : String) (tmp : Name) → Total O (pool_print F fmt func tmp) Any
  unfolding pool_print
  pool_print-Safe fmt func tmp = search (safe_rules, allocated-Safe)

  set_variable_call-Safe :
      (name : Name) (guid : Guid) (attrs : ℕ) (bytes : List ℕ)
      → Total O (set_variable_call F name guid attrs bytes) Any
  unfolding set_variable_call
  set_variable_call-Safe name guid attrs bytes = search safe_rules

  pub set_variable-Safe :
      (name : Name) (guid : Guid) (bytes : List ℕ) (attrs : ℕ)
      → Total O (set_variable F name guid bytes attrs) Any
  unfolding set_variable
  set_variable-Safe name guid bytes attrs = search set_variable_call-Safe

  pub get_variable_call-Safe :
      (name : Name) (guid : Guid) (size : ℕ) (buf : Bool)
      → Total O (get_variable_call F name guid size buf) Any
  unfolding get_variable_call
  get_variable_call-Safe name guid size buf = search safe_rules

  delete_after-Safe :
      (log : Logger F) (name : Name) (guid : Guid) (rc attrs : ℕ)
      → IsSafeLogger F O log
      → Total O (delete_after F log name guid rc attrs) Any
  unfolding delete_after
  delete_after-Safe log name guid rc attrs q = search (safe_rules, set_variable_call-Safe) depth 8

  pub delete_variable_with-Safe :
      (log : Logger F) (name : Name) (guid : Guid)
      → IsSafeLogger F O log
      → Total O (delete_variable_with F log name guid) Any
  unfolding delete_variable_with
  delete_variable_with-Safe log name guid q =
      search (safe_rules, get_variable_call-Safe, delete_after-Safe)

  log_screen-Safe : (level : Level) (tmp : Text) → Total O (log_screen F level tmp) Any
  unfolding log_screen
  log_screen-Safe debug tmp = search safe_rules
  log_screen-Safe info tmp = search print-Safe
  log_screen-Safe warning tmp = search print-Safe
  log_screen-Safe last tmp = search print-Safe

  pub debug_get_enabled-Safe : Total O (debug_get_enabled F) Any
  unfolding debug_get_enabled
  debug_get_enabled-Safe = search safe_rules

  -- `fwup_log` returns if appending to the debug log does.
  module _ (log : Logger F) (appends : (out : Name) → Total O (efivar_append F log out) Any) where
    log_debugging-Safe : (func : String) (tmp : Text) → Total O (log_debugging F log func tmp) Any
    unfolding log_debugging
    log_debugging-Safe func tmp =
        search (safe_rules, pool_print-Safe, print-Safe, free_pool-Safe) depth 8

    log_text-Safe :
        (level : Level) (func : String) (tmp : Text) → Total O (log_text F log level func tmp) Any
    unfolding log_text
    log_text-Safe level func tmp =
        search
          (safe_rules, debug_get_enabled-Safe, log_debugging-Safe, log_screen-Safe, free_pool-Safe)
          depth 8

    log_body-Safe : IsSafeLogger F O (log_body F log)
    unfolding log_body
    log_body-Safe level func fmt args =
        search (safe_rules, vpool_print-Safe, print-Safe, log_text-Safe) depth 8

contrary : {b : Bool} → b ≡ true → b ≡ false → ⊥
contrary t e = cc

weaken-Returns :
    {S A : Type 0} (c : Checked (A × World S)) → Returns IsFalse Any c → Returns Any Any c
weaken-Returns (value (a, w)) h = (tt, tt)
weaken-Returns (fault e) h = absurd h

module _ (F : Services) where
  get_once-later : Total IsFalse (get_once F) IsFalse
  unfolding get_once gets
  get_once-later = record { at = λ w h. (h, h) }

  get_once-Safe : Total Any (get_once F) Any
  unfolding get_once
  get_once-Safe = search safe_rules

  clear-bind :
      (m : M (World F.State) (Unit {0}))
      → Total IsFalse m Any
      → Total Any (clear_once F >>= λ _. m) Any
  unfolding clear_once modify ◌>>=◌
  clear-bind m k = record {
    at = λ w h. weaken-Returns (m (record w { once = false })) (k.at _ refl);
  }

  -- Once `once` is cleared, appending does not come back to the logger.
  append_later-Safe : (log : Logger F) (out : Name) → Total IsFalse (efivar_append F log out) Any
  unfolding efivar_append
  append_later-Safe log out = Total-bind _ _ (get_once-later) λ once e.
      Total-if once _ _ (λ t. absurd (contrary t e)) (λ _. search (safe_rules, set_variable-Safe))

  append_first-Safe :
      (log : Logger F) (out : Name)
      → IsSafeLogger F IsFalse log
      → Total Any (efivar_append F log out) Any
  unfolding efivar_append
  append_first-Safe log out q = Safe-bind _ _ (get_once-Safe) λ once.
      Safe-if once _ _
        (clear-bind _ (search (safe_rules, delete_variable_with-Safe, set_variable-Safe)))
        (search (safe_rules, set_variable-Safe))

  log_once-Safe : IsSafeLogger F IsFalse (log_fuel F 1)
  unfolding log_fuel
  log_once-Safe = log_body-Safe F (log_fuel F 0) (append_later-Safe (log_fuel F 0))

  -- From any world, with any services and any message, `fwup_log` returns.
  pub fwup_log-Safe :
      (level : Level) (func fmt : String) (args : List Arg)
      → Total Any (fwup_log F level func fmt args) Any
  unfolding fwup_log log_fuel
  fwup_log-Safe =
      log_body-Safe F (log_fuel F 1) (λ out. append_first-Safe (log_fuel F 1) out log_once-Safe)
