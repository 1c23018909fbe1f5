-- ===== src/Debug.antt =====
-- efi/fwup-debug.c: messages go to the screen and, while debugging, to a UEFI variable.
pub mod Quiet
pub mod Keeps
pub mod States
pub mod Silent
pub mod Total
pub mod Live
use Prim.Native.Nat.{bit_or}
use fwupd_efi.Base.{ℕ, zero, suc, ◌%◌, ◌/◌, Bool, true, false, List, [], ◌∷◌, ◌++◌, codes, String}
use fwupd_efi.Base.{Option, none, some, if◌then◌else◌}
use fwupd_efi.Efi.{Name, Guid, Result, fwupdate_guid}
use fwupd_efi.Memory.{Buffer}
use fwupd_efi.Firmware.Services.{Services, Arg, Text}
use fwupd_efi.Firmware.Monad.{M, World, pure, fail, no_fuel, gets, modify, on_option, ◌>>=◌, ◌>>◌}
use fwupd_efi.Firmware.Calls.{W, vpool_print, pool_print, print, free_pool}
use fwupd_efi.Variable.{Level, debug, info, warning, last, Variable, Logger}
use fwupd_efi.Variable.{set_variable, delete_variable_with, get_variable_with, malloc_with}

-- The bytes of a string without its final NUL: `StrSize(s) - sizeof(CHAR16)` of them.
abbrev pub units_bytes : Name → List ℕ
units_bytes [] = []
units_bytes (c ∷ s) = c % 256 ∷ c / 256 % 256 ∷ units_bytes s

-- `EFI_VARIABLE_NON_VOLATILE | EFI_VARIABLE_BOOTSERVICE_ACCESS | EFI_VARIABLE_RUNTIME_ACCESS`
abbrev pub log_attrs : ℕ
log_attrs = bit_or 1 (bit_or 2 4)

abbrev pub append_write : ℕ
append_write = 0x40

abbrev pub log_name : Name
log_name = codes "FWUPDATE_DEBUG_LOG"

abbrev alloc_failed : Name
alloc_failed = codes "fwupdate: Allocation for debug log failed!" ++ 10 ∷ []

module _ (F : Services) where
  -- `fwup_debug_get_enabled`, `fwup_debug_set_enabled`, and the static variable `once`
  unfoldable pub debug_get_enabled : M (W F) Bool
  debug_get_enabled = gets (λ w. w.debugging)

  unfoldable pub debug_set_enabled : Bool → M (W F) (Unit {0})
  debug_set_enabled b = modify (λ w. record w { debugging = b })

  unfoldable pub get_once : M (W F) Bool
  get_once = gets (λ w. w.once)

  unfoldable pub clear_once : M (W F) (Unit {0})
  clear_once = modify (λ w. record w { once = false })

  -- `fwupd_debug_efivar_append`
  unfoldable pub efivar_append : Logger F → Name → M (W F) (Unit {0})
  efivar_append log out1 = do
    once ← get_once
    if once
        then (do
          clear_once
          _ ← delete_variable_with F log log_name fwupdate_guid
          _ ← set_variable F log_name fwupdate_guid (units_bytes out1) log_attrs
          pure tt)
        else (do
          _ ←
              set_variable F log_name fwupdate_guid (units_bytes out1)
                (bit_or log_attrs append_write)
          pure tt)

  -- The branch of `fwup_log` while debugging.
  unfoldable pub log_debugging : Logger F → String → Text → M (W F) (Unit {0})
  log_debugging log func tmp = do
    out1 ← pool_print F "%a:%d:%a(): %s\n" func tmp.units
    on_option out1 (print F alloc_failed)
        (λ out. do print F out.units; efivar_append log out.units; free_pool F out.addr)

  -- The `switch` of `fwup_log`.
  unfoldable pub log_screen : Level → Text → M (W F) (Unit {0})
  log_screen debug tmp = pure tt
  log_screen warning tmp = print F (codes "WARNING: " ++ tmp.units ++ 10 ∷ [])
  log_screen _ tmp = print F (tmp.units ++ 10 ∷ [])

  unfoldable pub log_text : Logger F → Level → String → Text → M (W F) (Unit {0})
  log_text log level func tmp = do
    debugging ← debug_get_enabled
    if debugging then log_debugging log func tmp else log_screen level tmp
    free_pool F tmp.addr

  -- The body of `fwup_log`, whose calls of itself through `fwup_delete_variable` go to `log`.
  unfoldable pub log_body : Logger F → Logger F
  log_body log level func fmt args = do
    tmp ← vpool_print F fmt args
    on_option tmp (print F alloc_failed) (λ t. log_text log level func t)

  -- `fwup_log`, with `n` levels of calls of itself.
  unfoldable pub log_fuel : ℕ → Logger F
  log_fuel zero level func fmt args = fail no_fuel
  log_fuel (suc n) level func fmt args = log_body (log_fuel n) level func fmt args

  -- The only call of `fwup_log` below itself comes after `once = FALSE`, so two levels are enough.
  unfoldable pub fwup_log : Logger F
  fwup_log = log_fuel 2

  unfoldable pub delete_variable : Name → Guid → M (W F) ℕ
  delete_variable = delete_variable_with F fwup_log

  unfoldable pub get_variable : Name → Guid → M (W F) (Result Variable)
  get_variable = get_variable_with F fwup_log

  unfoldable pub malloc : ℕ → M (W F) (Option Buffer)
  malloc = malloc_with F fwup_log
