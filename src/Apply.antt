-- ===== src/Apply.antt =====
-- The middle of efi/fwupdate.c: one update becomes a capsule, the statuses are written back, and the
-- capsules are applied.
pub mod Quiet
pub mod Statuses
pub mod Valid
pub mod Total
use Prim.Native.Nat.{bit_or}
use fwupd_efi.Base.{ℕ, zero, suc, ◌+◌, ◌*◌, Bool, true, false, ◌&&◌, not, List, [], ◌∷◌, ◌++◌}
use fwupd_efi.Base.{Option, none, some, String, ◌==◌, ltb, codes, same, length, if◌then◌else◌}
use fwupd_efi.Memory.{Buffer, get32, put32, bytes_at}
use fwupd_efi.Efi.{
  Guid, Name, Result, ok, err, efi_error, success, invalid_parameter, unsupported, out_of_resources,
  fwupdate_guid, ux_capsule_guid, shim_lock_guid, guid_eq, info_guid, info_sizeof,
  info_capsule_flags, info_dp, capsule_sizeof, capsule_flags, capsule_image_size,
}
use fwupd_efi.Firmware.Services.{
  Services, Arg, num, guid, str, Text, Block, Capsule, ResetType, cold, warm, shutdown, QueryReply,
  VariableReply,
}
use fwupd_efi.Firmware.Monad.{M, pure, on_option, on_result, deref, bounds, ◌>>=◌, ◌>>◌}
use fwupd_efi.Firmware.Calls.{
  W, get_variable_call, query_capsule_capabilities, update_capsule, reset_system, close_file,
  free_pool,
}
use fwupd_efi.Variable.{warning, debug, info, set_variable, cleanup_free}
use fwupd_efi.Debug.{fwup_log, debug_get_enabled, debug_set_enabled}
use fwupd_efi.Common.{malloc0, malloc_raw, msleep, read_file}
use fwupd_efi.Capsule.{validate_capsule_size, check_gop_for_ux_capsule, cbd_set_terminator}
use fwupd_efi.Update.{Update, populate_update_table, max_updates}
use fwupd_efi.OpenFile.{open_file}

abbrev pub seconds : ℕ
seconds = 1000000

-- `CAPSULE_FLAGS_PERSIST_ACROSS_RESET`, `CAPSULE_FLAGS_INITIATE_RESET`
abbrev pub persist_across_reset : ℕ
persist_across_reset = 0x00010000

abbrev pub initiate_reset : ℕ
initiate_reset = 0x00040000

-- The GUID in an update info.
abbrev pub info_guid_of : Buffer → Guid
info_guid_of info' = bytes_at info'.byte info_guid 16

-- The capsule's flags after they were set, for a build where `fixed` says whether the target is one
-- of aarch64 and riscv64.
unfoldable pub set_flags : Bool → Buffer → (ℕ → ℕ) → ℕ → ℕ
set_flags fixed update_info m =
    let flags = get32 m capsule_flags in
    let wanted = get32 update_info.byte info_capsule_flags in
    if flags == 0 && not (guid_eq (info_guid_of update_info) ux_capsule_guid)
    then put32 m capsule_flags (
        bit_or flags
          (if fixed then wanted else bit_or (bit_or wanted persist_across_reset) initiate_reset))
    else m

-- The numbers of `EFI_RESET_TYPE`.
abbrev pub reset_code : ResetType → ℕ
reset_code cold = 0
reset_code warm = 1
reset_code shutdown = 2

module _ (F : Services) (fixed : Bool) where
  unfoldable pub warn : String → List Arg → M (W F) (Unit {0})
  warn fmt args = fwup_log F warning "fwup_add_update_capsule" fmt args

  -- The UX capsule is completed; any other stays as it is.
  unfoldable pub complete_ux : ℕ → Buffer → Buffer → ℕ → M (W F) (Result Buffer)
  complete_ux loaded_image update_info capsule fsize =
      if guid_eq (info_guid_of update_info) ux_capsule_guid
      then (do
        fwup_log F debug "fwup_add_update_capsule" "Checking GOP for ux capsule" []
        r ← check_gop_for_ux_capsule F loaded_image capsule fsize
        on_result r (λ _. pure (err unsupported)) (λ b. pure (ok b)))
      else pure (ok capsule)

  -- The file that was read becomes a capsule and its block descriptor.
  unfoldable pub make_capsule : ℕ → Buffer → Buffer → ℕ → M (W F) (Result (Capsule × Block))
  make_capsule loaded_image update_info fbuf fsize =
      if ltb fsize capsule_sizeof
      then (do warn "Invalid capsule size %d" (num fsize ∷ []); pure (err invalid_parameter))
      else (do
        fwup_log F debug "fwup_add_update_capsule" "Read file; %d bytes" (num fsize ∷ [])
        fwup_log F debug "fwup_add_update_capsule" "updates guid: %g"
            (guid (info_guid_of update_info) ∷ [])
        bounds fbuf 0 capsule_sizeof
        fwup_log F debug "fwup_add_update_capsule" "File guid: %g"
            (guid (bytes_at fbuf.byte 0 16) ∷ [])
        if efi_error (validate_capsule_size fbuf.byte fsize)
            then (do
              warn "Invalid capsule image size %u for file size %d"
                  (num (get32 fbuf.byte capsule_image_size) ∷ num fsize ∷ [])
              pure (err invalid_parameter))
            else (do
              r ←
                  complete_ux loaded_image update_info
                    (record fbuf { byte = set_flags fixed update_info fbuf.byte }) fsize
              on_result r (λ rc. pure (err rc))
                  (λ b.
                    pure
                      (ok (record { image = b }, record { length = fsize; pointer = fbuf.addr })))))

  -- `fwup_add_update_capsule`
  unfoldable pub add_update_capsule : Update → ℕ → M (W F) (Result (Capsule × Block))
  add_update_capsule update loaded_image = do
    update_info ← deref update.info
    bounds update_info 0 info_sizeof
    r ← open_file F update_info info_dp
    on_result r (λ rc. pure (err rc))
        (λ fh. do
          content ← read_file F fh
          on_result content (λ rc. pure (err rc))
              (λ (fbuf, fsize). do
                close_file F fh
                make_capsule loaded_image update_info fbuf fsize))

module _ (F : Services) where
  -- `fwup_apply_capsules`: the reset type and the status.
  unfoldable pub apply_capsules : List Capsule → List Block → ℕ → M (W F) (ResetType × ℕ)
  apply_capsules capsules cbd num_updates = do
    q ← query_capsule_capabilities F capsules num_updates
    if q.status == success
        then fwup_log F debug "fwup_apply_capsules" "QueryCapsuleCapabilities: %r max: %ld reset:%d"
            (num q.status ∷ num q.max_size ∷ num (reset_code q.reset) ∷ [])
        else fwup_log F warning "fwup_apply_capsules"
            "QueryCapsuleCapabilities failed, assuming EfiResetWarm: %r" (num q.status ∷ [])
    let reset = if q.status == success then q.reset else warm
    fwup_log F debug "fwup_apply_capsules" "Capsules: %d" (num num_updates ∷ [])
    msleep F (1 * seconds)
    rc ← update_capsule F capsules num_updates cbd
    if efi_error rc
        then (do
          fwup_log F warning "fwup_apply_capsules" "Could not apply capsule update: %r"
              (num rc ∷ [])
          pure (reset, rc))
        else pure (reset, success)

  -- The loop of `fwup_set_update_statuses` over the entries of the table, which is NULL behind them.
  unfoldable pub set_update_statuses : List Update → M (W F) ℕ
  set_update_statuses [] = pure success
  set_update_statuses (u ∷ updates) = on_option u.name (pure success) (λ name. do
    update_info ← deref u.info
    bounds update_info 0 u.size
    rc ← set_variable F name.units fwupdate_guid (bytes_at update_info.byte 0 u.size) u.attrs
    (if (efi_error rc)
        then (do
          fwup_log F warning "fwup_set_update_statuses"
              "Could not update variable status for '%s': %r" (str name.units ∷ num rc ∷ [])
          pure rc)
        else (set_update_statuses updates)))
