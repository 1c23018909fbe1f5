-- ===== src/Variable.antt =====
-- efi/fwup-efi.c: UEFI variables are read, written and deleted. `delete_variable` and `fwup_log` call
-- one another, so the functions here that log take the logger as an argument; `Debug` ties the knot.
pub mod Quiet
pub mod Keeps
pub mod Total
pub mod Readable
pub mod Shown
pub mod Copy
pub mod Logged
pub mod Reads
pub mod Writes
pub mod Map
pub mod Live
use fwupd_efi.Base.{ℕ, Bool, true, false, List, [], ◌∷◌, Option, none, some, String, ◌==◌, codes}
use fwupd_efi.Base.{if◌then◌else◌}
use fwupd_efi.Memory.{Buffer, blit}
use fwupd_efi.Efi.{Name, Guid, Result, ok, err, efi_error, success, not_found}
use fwupd_efi.Efi.{buffer_too_small, invalid_parameter, out_of_resources}
use fwupd_efi.Firmware.Services.{Services, Arg, str, num}
use fwupd_efi.Firmware.Monad.{M, pure, on_option, on_result, ◌>>=◌, ◌>>◌}
use fwupd_efi.Firmware.Calls.{W, get_variable_call, set_variable_call, allocate_pool, free_pool}

-- `FwupLogLevel`
pub data Level : Type 0 where
  debug info warning last : Level

-- What `fwup_get_variable` stores through its pointers.
pub record Variable : Type 0 where
  pub buf : Option Buffer
  pub size : ℕ
  pub attrs : ℕ

module _ (F : Services) where
  abbrev pub Logger : Type 0
  Logger = Level → String → String → List Arg → M (W F) (Unit {0})

  -- `fwup_set_variable`; the bytes are `data[0..size)`.
  unfoldable pub set_variable : Name → Guid → List ℕ → ℕ → M (W F) ℕ
  set_variable name guid bytes attrs = set_variable_call F name guid attrs bytes

  -- `fwup_malloc`
  unfoldable pub malloc_with : Logger → ℕ → M (W F) (Option Buffer)
  malloc_with log size = do
    addr ← allocate_pool F size
    on_option addr (do log warning "fwup_malloc" "Could not allocate %d" (num size ∷ []); pure none)
        (λ b. pure (some b))

  -- What `fwup_delete_variable` does with the status of `GetVariable`.
  unfoldable pub delete_after : Logger → Name → Guid → ℕ → ℕ → M (W F) ℕ
  delete_after log name guid rc attrs =
      if efi_error rc
      then (if rc == not_found
          then (do
            log debug "fwup_delete_variable" "Not deleting variable '%s' as not found"
                (str name ∷ [])
            pure success)
          else (do
            log debug "fwup_delete_variable" "Could not get variable '%s' for delete: %r"
                (str name ∷ num rc ∷ [])
            pure rc))
      else set_variable_call F name guid attrs []

  -- `fwup_delete_variable`
  unfoldable pub delete_variable_with : Logger → Name → Guid → M (W F) ℕ
  delete_variable_with log name guid = do
    r ← get_variable_call F name guid 0 false
    delete_after log name guid r.status r.attrs

  -- `_cleanup_free`
  unfoldable pub cleanup_free : Option Buffer → M (W F) (Unit {0})
  cleanup_free none = pure tt
  cleanup_free (some b) = free_pool F b.addr

  -- The buffer after the firmware wrote the variable's bytes into it.
  abbrev pub filled : Option Buffer → ℕ → (ℕ → ℕ) → Option Buffer
  filled none size bytes = none
  filled (some b) size bytes = some (record b { byte = blit b.byte 0 size bytes })

  abbrev pub is_some : {A : Type 0} → Option A → Bool
  is_some none = false
  is_some (some _) = true

  -- The second `GetVariable`, into the buffer.
  unfoldable pub get_into : Logger → Name → Guid → Option Buffer → ℕ → M (W F) (Result Variable)
  get_into log name guid buf size = do
    r ← get_variable_call F name guid size (is_some buf)
    if efi_error r.status
        then (do
          log warning "fwup_get_variable" "Could not get variable '%s': %r"
              (str name ∷ num r.status ∷ [])
          cleanup_free buf
          pure (err r.status))
        else pure (ok (record { buf = filled buf r.size r.bytes; size = r.size; attrs = r.attrs }))

  unfoldable pub get_after_malloc :
      Logger → Name → Guid → ℕ → Option Buffer → M (W F) (Result Variable)
  get_after_malloc log name guid size none = pure (err out_of_resources)
  get_after_malloc log name guid size (some b) = get_into log name guid (some b) size

  -- What `fwup_get_variable` does with the status of the first `GetVariable`.
  unfoldable pub get_after : Logger → Name → Guid → ℕ → ℕ → M (W F) (Result Variable)
  get_after log name guid rc size =
      if efi_error rc
      then (if rc == buffer_too_small
          then (do buf ← malloc_with log size; get_after_malloc log name guid size buf)
          else (if rc == not_found then get_into log name guid none size else (do
            log debug "fwup_get_variable" "Could not get variable '%s': %r" (str name ∷ num rc ∷ [])
            pure (err rc))))
      else (do
        log debug "fwup_get_variable" "GetVariable(%s) succeeded with size=0" (str name ∷ [])
        pure (err invalid_parameter))

  -- `fwup_get_variable`
  unfoldable pub get_variable_with : Logger → Name → Guid → M (W F) (Result Variable)
  get_variable_with log name guid = do
    r ← get_variable_call F name guid 0 false
    get_after log name guid r.status r.size
