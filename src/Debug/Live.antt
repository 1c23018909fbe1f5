-- ===== src/Debug/Live.antt =====
-- `fwup_log` leaves the pool memory as it was, and `fwup_get_variable` leaves the variable's buffer.
use fwupd_efi.Base.{ℕ, zero, suc, List, [], ◌∷◌, String}
use fwupd_efi.Efi.{Name, Guid}
use fwupd_efi.Firmware.Services.{Services, Arg, Text}
use fwupd_efi.Firmware.Monad.{modify}
use fwupd_efi.Firmware.Keeps.{Keeps, keeps_rules}
use fwupd_efi.Firmware.Leads.{Leads, Leads-bind, Leads-step, Leads-keep}
use fwupd_efi.Firmware.Reaches.{Reaches, Reaches-Keeps, Reaches-post}
use fwupd_efi.Debug.Total.{fwup_log-Safe}
use fwupd_efi.Firmware.Live.{
  Holding, Leads-Keeps, Holding-on_option, holding_calls, print-Holding, vpool_print-Holding,
  pool_print-Holding, free_pool-Holding,
}
use fwupd_efi.Variable.{
  Level, debug, info, warning, last, Logger, set_variable, delete_after, delete_variable_with,
}
use fwupd_efi.Debug.{
  debug_get_enabled, get_once, clear_once, efivar_append, log_debugging, log_screen, log_text,
  log_body, log_fuel, fwup_log,
}

abbrev pub LogsHolding : (F : Services) → Logger F → Type 0
LogsHolding F log =
    (xs : List ℕ) (level : Level) (func fmt : String) (args : List Arg)
    → Keeps (Holding xs) (log level func fmt args)

module _ (F : Services) where
  module _ (log : Logger F) (q : LogsHolding F log) {xs : List ℕ} where
    delete_after-Holding :
        (name : Name) (guid : Guid) (rc attrs : ℕ)
        → Keeps (Holding xs) (delete_after F log name guid rc attrs)
    unfolding delete_after
    delete_after-Holding name guid rc attrs = search (holding_calls, q) depth 8

    pub delete_variable_with-Holding :
        (name : Name) (guid : Guid) → Keeps (Holding xs) (delete_variable_with F log name guid)
    unfolding delete_variable_with
    delete_variable_with-Holding name guid = search (holding_calls, delete_after-Holding)

    clear_once-Holding : Keeps (Holding xs) (clear_once F)
    unfolding clear_once modify
    clear_once-Holding = record { at = λ w h. h }

    get_once-Holding : Keeps (Holding xs) (get_once F)
    unfolding get_once
    get_once-Holding = search keeps_rules

    debug_get_enabled-Holding : Keeps (Holding xs) (debug_get_enabled F)
    unfolding debug_get_enabled
    debug_get_enabled-Holding = search keeps_rules

    efivar_append-Holding : (out : Name) → Keeps (Holding xs) (efivar_append F log out)
    unfolding efivar_append set_variable
    efivar_append-Holding out =
        search (holding_calls, clear_once-Holding, get_once-Holding, delete_variable_with-Holding)
          depth 10

    log_screen-Holding : (level : Level) (tmp : Text) → Keeps (Holding xs) (log_screen F level tmp)
    unfolding log_screen
    log_screen-Holding debug tmp = search keeps_rules
    log_screen-Holding info tmp = print-Holding F _
    log_screen-Holding warning tmp = print-Holding F _
    log_screen-Holding last tmp = print-Holding F _

  module _ (log : Logger F) (q : LogsHolding F log) {xs : List ℕ} where
    log_debugging-Holding :
        (func : String) (tmp : Text) → Keeps (Holding xs) (log_debugging F log func tmp)
    unfolding log_debugging
    log_debugging-Holding func tmp = Leads-Keeps _ (
        Leads-bind _ _ (pool_print-Holding F _ _ _) λ out1.
          Holding-on_option _ out1 _ _ (Leads-keep _ (print-Holding F _) λ _ w h. h) λ out.
            Leads-step _ _ (print-Holding F _) λ _.
              Leads-step _ _ (efivar_append-Holding log q out.units)
                λ _. free_pool-Holding F [] _ out.addr)

  module _ (log : Logger F) (q : LogsHolding F log) {xs : List ℕ} where
    log_text-Holding :
        (level : Level) (func : String) (tmp : Text)
        → Leads (Holding (tmp.addr ∷ xs)) (log_text F log level func tmp) (λ _. Holding xs)
    unfolding log_text
    log_text-Holding level func tmp = Leads-step _ _ (debug_get_enabled-Holding log q) λ debugging.
        Leads-step _ _ (search (keeps_rules, log_debugging-Holding log q, log_screen-Holding log q))
          λ _. free_pool-Holding F [] _ tmp.addr

  log_body-Holding : (log : Logger F) → LogsHolding F log → LogsHolding F (log_body F log)
  unfolding log_body
  log_body-Holding log q xs level func fmt args = Leads-Keeps _ (
      Leads-bind _ _ (vpool_print-Holding F fmt args) λ tmp.
        Holding-on_option _ tmp _ _ (Leads-keep _ (print-Holding F _) λ _ w h. h)
          λ t. log_text-Holding log q level func t)

  log_fuel-Holding : (n : ℕ) → LogsHolding F (log_fuel F n)
  unfolding log_fuel
  log_fuel-Holding zero xs level func fmt args = search keeps_rules
  log_fuel-Holding (suc n) xs level func fmt args =
      log_body-Holding (log_fuel F n) (log_fuel-Holding n) xs level func fmt args

  pub fwup_log-Holding : LogsHolding F (fwup_log F)
  unfolding fwup_log
  fwup_log-Holding xs level func fmt args = log_fuel-Holding 2 xs level func fmt args

  -- Over any services and from any live blocks of pool memory, `fwup_log` returns without a fault, and
  -- the same blocks are live afterwards: what it allocates it frees, and it frees nothing else.
  pub fwup_log-Reaches :
      (xs : List ℕ) (level : Level) (func fmt : String) (args : List Arg)
      → Reaches (Holding xs) (fwup_log F level func fmt args) (λ _. Holding xs)
  fwup_log-Reaches xs level func fmt args =
      Reaches-post _ (λ _ w h. h.1)
        (Reaches-Keeps _ (fwup_log-Safe F level func fmt args)
          (fwup_log-Holding xs level func fmt args))
