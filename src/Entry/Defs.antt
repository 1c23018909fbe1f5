-- ===== src/Entry/Defs.antt =====
-- `efi_main` of efi/fwupdate.c, and the hook that turns debugging on.
use fwupd_efi.Base.{ℕ, zero, suc, ◌+◌, ◌*◌, Bool, true, ◌||◌, not, List, [], ◌∷◌, ◌++◌}
use fwupd_efi.Base.{Option, none, some, String, ◌==◌, codes, length, if◌then◌else◌}
use fwupd_efi.Memory.{Buffer, blit, get64}
use fwupd_efi.Efi.{
  Guid, Name, Result, ok, err, efi_error, success, invalid_parameter, out_of_resources,
  fwupdate_guid, shim_lock_guid,
}
use fwupd_efi.Firmware.Services.{Services, Arg, num, guid, Block, Capsule}
use fwupd_efi.Firmware.Monad.{M, pure, on_option, on_result, deref, bounds, ◌>>=◌, ◌>>◌}
use fwupd_efi.Firmware.Calls.{W, get_variable_call, reset_system, free_pool}
use fwupd_efi.Variable.{warning, debug, info, cleanup_free}
use fwupd_efi.Debug.{fwup_log, debug_get_enabled, debug_set_enabled}
use fwupd_efi.Common.{malloc0, malloc_raw, msleep}
use fwupd_efi.Capsule.{cbd_set_terminator}
use fwupd_efi.Update.{Update, populate_update_table, max_updates}
use fwupd_efi.Apply.{seconds, info_guid_of, add_update_capsule, apply_capsules, set_update_statuses}

-- What the loop over the updates has made: `rc` is the status of its last round.
pub record Built : Type 0 where
  pub capsules : List Capsule
  pub cbd : ℕ → Block
  pub rc : ℕ

-- The descriptors that lie in memory, of sixteen bytes each.
abbrev pub blocks_in : (ℕ → ℕ) → ℕ → Block
blocks_in m j = record { length = get64 m (16 * j); pointer = get64 m (16 * j + 8) }

abbrev pub blocks_at : (ℕ → Block) → ℕ → ℕ → List Block
blocks_at cbd i zero = []
blocks_at cbd i (suc n) = cbd i ∷ blocks_at cbd (i + 1) n

module _ (F : Services) (fixed : Bool) where
  unfoldable pub say : String → List Arg → M (W F) (Unit {0})
  say fmt args = fwup_log F info "efi_main" fmt args

  unfoldable pub warn : String → List Arg → M (W F) (Unit {0})
  warn fmt args = fwup_log F warning "efi_main" fmt args

  -- `GetVariable` into the eight bytes of `data`: the status, `data_size` and `data` afterwards.
  unfoldable pub get_data : Name → Guid → ℕ → (ℕ → ℕ) → M (W F) (ℕ × ℕ × (ℕ → ℕ))
  get_data name vendor data_size data' = do
    r ← get_variable_call F name vendor data_size true
    if efi_error r.status then pure (r.status, r.size, data') else (do
      bounds (record { addr = 0; size = 8; byte = data' }) 0 r.size
      pure (r.status, r.size, blit data' 0 r.size r.bytes))

  -- `fwup_debug_hook`, whose `x` is 0. The second call gets the `data_size` that the first one left.
  unfoldable pub debug_hook : M (W F) (Unit {0})
  debug_hook = do
    (rc, data_size, data') ← get_data (codes "SHIM_DEBUG") shim_lock_guid 1 (λ _. 0)
    if efi_error rc || not (get64 data' 0 == 1)
        then (do
          (rc2, _, data2) ← get_data (codes "FWUPDATE_VERBOSE") fwupdate_guid data_size data'
          if efi_error rc2 || not (get64 data2 0 == 1) then pure tt else debug_set_enabled F true)
        else (do
          debug_set_enabled F true
          fwup_log F info "fwup_debug_hook" "add-symbol-file fwupdate.efi.debug %p -s .data %p" [])

  -- Step 2: the loop over the updates. `j` is the number of capsules. The array `capsules` may be
  -- NULL, since its allocation is not tested.
  unfoldable pub build_capsules : ℕ → Option Buffer → List Update → Built → M (W F) Built
  build_capsules image array [] b = pure b
  build_capsules image array (u ∷ updates) b = do
    fwup_log F debug "efi_main" "Adding new capsule" []
    r ← add_update_capsule F fixed u image
    on_result r
        (λ rc. do
          update_info ← deref u.info
          warn "Could not add capsule with guid %g for update: %r"
              (guid (info_guid_of update_info) ∷ num rc ∷ [])
          build_capsules image array updates (record b { rc = rc }))
        (λ (capsule, block). do
          _ ← deref array
          build_capsules image array updates (record {
            capsules = b.capsules ++ capsule ∷ [];
            cbd = λ i. if i == length b.capsules then block else b.cbd i;
            rc = success;
          }))

  -- Steps 4 and 5.
  unfoldable pub apply_and_reset : Built → M (W F) ℕ
  apply_and_reset b = do
    let n = length b.capsules
    (reset, rc) ← apply_capsules F b.capsules (blocks_at b.cbd 0 (n + 1)) n
    if efi_error rc then warn "Could not apply capsules: %r" (num rc ∷ []) else pure tt
    say "Reset System" []
    msleep F (5 * seconds)
    enabled ← debug_get_enabled F
    if enabled then msleep F (30 * seconds) else pure tt
    reset_system F reset success
    pure rc

  -- What follows step 2.
  unfoldable pub finish : List Update → Built → M (W F) ℕ
  finish updates b =
      if length b.capsules == 0
      then (do warn "Could not build update list: %r\n" (num b.rc ∷ []); pure b.rc)
      else (do
        let n = length b.capsules
        fwup_log F debug "efi_main" "n_updates: %d" (num n ∷ [])
        rc ← set_update_statuses F updates
        if efi_error rc
            then (do warn "Could not set update status: %r" (num rc ∷ []); pure rc)
            else apply_and_reset (record b { cbd = cbd_set_terminator b.cbd n }))

  unfoldable pub build_and_finish : ℕ → List Update → Option Buffer → Option Buffer → M (W F) ℕ
  build_and_finish image updates array none = pure out_of_resources
  build_and_finish image updates array (some cbd) = do
    b ←
        build_capsules image array updates
          (record { capsules = []; cbd = blocks_in cbd.byte; rc = success })
    finish updates b

  -- Step 2 on.
  unfoldable pub process : ℕ → List Update → M (W F) ℕ
  process image updates = do
    let n = length updates
    array ← malloc0 F (8 * (n + 1))
    cbd ← malloc_raw F (16 * (n + 1))
    rc ← build_and_finish image updates array cbd
    cleanup_free F array
    pure rc

  -- What `efi_main` does with the table.
  unfoldable pub with_table : ℕ → Result (List Update) → M (W F) ℕ
  with_table image (err rc) = do warn "Could not find updates: %r" (num rc ∷ []); pure rc
  with_table image (ok []) = do
    warn "No updates to process, exiting in 10 seconds." []
    msleep F (10 * seconds)
    pure invalid_parameter
  with_table image (ok (u ∷ updates)) = process image (u ∷ updates)

  -- `efi_main`; the fuel bounds the enumeration of the variables.
  unfoldable pub efi_main : ℕ → ℕ → M (W F) ℕ
  efi_main fuel image = do
    debug_hook
    say "fwupd-efi version" []
    table ← malloc0 F (8 * max_updates)
    on_option table (pure out_of_resources) (λ p. do
      r ← populate_update_table F fuel
      rc ← with_table image r
      free_pool F p.addr
      pure rc)
