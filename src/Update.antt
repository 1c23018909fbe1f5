-- ===== src/Update.antt =====
-- The update variables in efi/fwupdate.c: one is read and validated, all are enumerated, and the
-- statuses are written back.
pub mod Keeps
pub mod Quiet
pub mod Hang
pub mod Fits
pub mod Valid
pub mod Live
pub mod Frees
pub mod Rounds
pub mod Visits
pub mod Leaks
pub mod Accepted
pub mod Table
pub mod Ends
use Prim.Native.Nat.{bit_and}
use fwupd_efi.Base.{ℕ, zero, suc, ◌+◌, ◌-◌, ◌*◌, ◌%◌, ◌^◌, Bool, true, false, ◌||◌, not}
use fwupd_efi.Base.{
  List, [], ◌∷◌, ◌++◌, Option, none, some, String, ◌==◌, ltb, leb, same, codes, length,
}
use fwupd_efi.Base.{if◌then◌else◌}
use fwupd_efi.Base.Int.{ℤ, pos, negsuc, ltb_ℤ, to_intn, pos_part, neg_part}
use fwupd_efi.Memory.{Buffer, get32, put32, bytes_at}
use fwupd_efi.Efi.{
  Name, Guid, Result, ok, err, efi_error, success, not_found, buffer_too_small, invalid_parameter,
  out_of_resources, empty_guid, fwupdate_guid, guid_eq, info_sizeof, info_status, info_dp,
  info_time_attempted, attempt_update, attempted, dp_sizeof,
}
use fwupd_efi.Firmware.Services.{Services, Arg, num, int, str, Text}
use fwupd_efi.Firmware.Monad.{
  M, pure, on_option, on_result, lift, deref, bounds, fail, no_fuel, ◌>>=◌, ◌>>◌,
}
use fwupd_efi.Firmware.Calls.{
  W, get_next_variable_name, str_duplicate, allocate_zero_pool, free_pool,
}
use fwupd_efi.Variable.{Variable, warning, debug, set_variable, cleanup_free}
use fwupd_efi.Debug.{fwup_log, get_variable, delete_variable}
use fwupd_efi.DevicePath.{dp_size}
use fwupd_efi.Common.{malloc0, time}

abbrev pub gnvn_buf_size : ℕ
gnvn_buf_size = 1024

abbrev pub max_updates : ℕ
max_updates = 128

-- `FWUP_UPDATE_TABLE`; `at` is its own address.
pub record Update : Type 0 where
  pub at : ℕ
  pub name : Option Text
  pub attrs : ℕ
  pub size : ℕ
  pub info : Option Buffer

abbrev pub name_verbose : Name
name_verbose = codes "FWUPDATE_VERBOSE"

abbrev pub name_debug_log : Name
name_debug_log = codes "FWUPDATE_DEBUG_LOG"

-- UINTN subtraction.
abbrev pub sub64 : ℕ → ℕ → ℕ
sub64 a b = (a + 2 ^ 64 - b) % 2 ^ 64

-- The two tests of the size in `fwup_populate_update_info`.
unfoldable pub too_small : ℕ → Bool
too_small info_size = ltb info_size info_sizeof

unfoldable pub no_room : ℕ → Bool
no_room info_size = leb (sub64 info_size dp_sizeof) info_sizeof

abbrev pub same_ℤ : ℤ → ℤ → Bool
same_ℤ a b = pos_part a + neg_part b == pos_part b + neg_part a

-- `sz < 0 || is > (INTN)info_size || is != sz`, where `is` is the room for the device path.
unfoldable pub bad_path : ℕ → ℤ → ℤ → Bool
bad_path info_size is sz = ltb_ℤ sz (pos 0) || ltb_ℤ (to_intn info_size) is || not (same_ℤ is sz)

module _ (F : Services) where
  unfoldable pub warn : String → List Arg → M (W F) (Unit {0})
  warn fmt args = fwup_log F warning "fwup_populate_update_info" fmt args

  -- The variable is accepted: the table entry takes the buffer over, and the name is copied.
  unfoldable pub fill_update : Name → Update → Variable → M (W F) (Update × ℕ)
  fill_update name out v = do
    copy ← str_duplicate F name
    let filled = record out { info = v.buf; size = v.size; attrs = v.attrs; name = copy }
    on_option copy
        (do
          warn "Could not allocate %d" (num (2 * length name + 2) ∷ [])
          pure (filled, out_of_resources))
        (λ _. pure (filled, success))

  -- A rejected variable's buffer is freed.
  unfoldable pub reject : Update → Variable → M (W F) (Update × ℕ)
  reject out v = do cleanup_free F v.buf; pure (out, invalid_parameter)

  -- The validation of `fwup_populate_update_info`, on the variable that was read.
  unfoldable pub check_info : Name → Update → Variable → M (W F) (Update × ℕ)
  check_info name out v =
      if too_small v.size
      then (do warn "Update '%s' is too small" (str name ∷ []); reject out v)
      else (if no_room v.size
          then (do
            warn "Update '%s' is malformed, and cannot hold a file path" (str name ∷ [])
            reject out v)
          else (if ltb_ℤ (to_intn v.size) (pos info_dp)
              then (do
                warn
                    "Update '%s' has an invalid file path, device path offset is %d, but total size is %d"
                    (str name ∷ num info_dp ∷ num v.size ∷ [])
                reject out v)
              else (do
                hdr ← deref v.buf
                let is = to_intn (sub64 v.size info_dp)
                sz ← lift (dp_size hdr info_dp is)
                if bad_path v.size is sz
                    then (do
                      warn
                          "Update '%s' has an invalid file path, update info size: %d dp size: %d size for dp: %d"
                          (str name ∷ num v.size ∷ int sz ∷ int is ∷ [])
                      reject out v)
                    else fill_update name out v)))

  -- `fwup_populate_update_info`: the entry as it is afterwards, and the status.
  unfoldable pub populate_update_info : Name → Update → M (W F) (Update × ℕ)
  populate_update_info name out = do
    r ← get_variable F name fwupdate_guid
    on_result r (λ rc. pure (out, rc)) (λ v. check_info name out v)

  unfoldable pub free_name : Option Text → M (W F) (Unit {0})
  free_name none = free_pool F 0
  free_name (some t) = free_pool F t.addr

  unfoldable pub free_info : Option Buffer → M (W F) (Unit {0})
  free_info none = free_pool F 0
  free_info (some b) = free_pool F b.addr

  -- `fwup_update_table_free`; address 0 is NULL.
  unfoldable pub update_table_free : Update → M (W F) (Unit {0})
  update_table_free u = do free_info u.info; free_name u.name; free_pool F u.at

  -- `update->info->status & FWUPDATE_ATTEMPT_UPDATE`, and what follows of one round: the entry if it
  -- goes into the table.
  unfoldable pub keep_attempt : Update → M (W F) (Option Update)
  keep_attempt u = do
    info ← deref u.info
    bounds info info_status 4
    if bit_and (get32 info.byte info_status) attempt_update == 0
        then (do update_table_free u; pure none)
        else (do
          timed ← time F info info_time_attempted
          let stamped = record timed { byte = put32 timed.byte info_status attempted }
          pure (some (record u { info = some stamped })))

  -- One update variable of `fwup_populate_update_table`: an error ends the enumeration.
  unfoldable pub take_update : Name → M (W F) (Result (Option Update))
  take_update name = do
    fwup_log F debug "fwup_populate_update_table" "Found update %s" (str name ∷ [])
    p ← malloc0 F 32
    on_option p (pure (err out_of_resources)) (λ b. do
      (u, rc) ←
          populate_update_info name
            (record { at = b.addr; name = none; attrs = 0; size = 0; info = none })
      if efi_error rc
          then (do
            _ ← delete_variable F name fwupdate_guid
            fwup_log F warning "fwup_populate_update_table"
                "Could not populate update info for '%s'" (str name ∷ [])
            update_table_free u
            pure (err rc))
          else (do r ← keep_attempt u; pure (ok r)))

  -- What a round does with a variable whose name was returned: `none` to go on.
  unfoldable pub visit : Name → Guid → List Update → M (W F) (Result (List Update))
  visit name vendor updates =
      if not (guid_eq vendor fwupdate_guid)
      then pure (ok updates)
      else (if same name name_verbose || same name name_debug_log
          then pure (ok updates)
          else (if leb max_updates (length updates)
              then (do
                fwup_log F warning "fwup_populate_update_table" "Ignoring update %s" (str name ∷ [])
                pure (ok updates))
              else (do
                r ← take_update name
                on_result r (λ rc. pure (err rc))
                    (λ kept.
                      on_option kept (pure (ok updates)) (λ u. pure (ok (updates ++ u ∷ [])))))))

  -- `while (1)`: the buffer with the last name and the last GUID are the loop's state, beside the
  -- table so far.
  unfoldable pub populate_loop : ℕ → Name → Guid → List Update → M (W F) (Result (List Update))
  populate_loop zero name vendor updates = fail no_fuel
  populate_loop (suc fuel) name vendor updates = do
    r ← get_next_variable_name F gnvn_buf_size name vendor
    if r.status == not_found
        then pure (ok updates)
        else (if r.status == buffer_too_small
            then populate_loop fuel r.name r.vendor updates
            else (if efi_error r.status
                then (do
                  fwup_log F warning "fwup_populate_update_table" "Could not get variable name: %r"
                      (num r.status ∷ [])
                  pure (err r.status))
                else (do
                  v ← visit r.name r.vendor updates
                  on_result v (λ rc. pure (err rc)) (λ us. populate_loop fuel r.name r.vendor us))))

  -- `fwup_populate_update_table`
  unfoldable pub populate_update_table : ℕ → M (W F) (Result (List Update))
  populate_update_table fuel = do
    p ← malloc0 F (gnvn_buf_size * 2)
    on_option p (pure (err out_of_resources))
        (λ b. do r ← populate_loop fuel [] empty_guid []; free_pool F b.addr; pure r)
