-- ===== src/Selftest/Variables.antt =====
-- Groups 6 and 7 of efi/fwup-selftest.c: `fwup_delete_variable` and `fwup_get_variable`.
use fwupd_efi.Base.{ℕ, false, not, List, [], ◌∷◌, codes, same, length, ◌==◌, Option, none}
use fwupd_efi.Memory.{Buffer, byte_of, bytes_at}
use fwupd_efi.Efi.{
  success, not_found, unsupported, buffer_too_small, fwupdate_guid, Result, ok, err,
}
use fwupd_efi.Firmware.Monad.{M, deref, gets, fail, assertion, bounds, on_result, ◌>>=◌, ◌>>◌}
use fwupd_efi.Firmware.Calls.{W, free_pool}
use fwupd_efi.Variable.{Variable, is_some}
use fwupd_efi.Debug.{delete_variable, get_variable}
use fwupd_efi.Harness.{Libc}
use fwupd_efi.Selftest.{assert, status_of, test_services, mock_init, set_mock}

abbrev pub four_bytes : List ℕ
four_bytes = 1 ∷ 2 ∷ 3 ∷ 4 ∷ []

-- The local `buf`, which is NULL before the call and written only on success.
abbrev pub buf_of : Result Variable → Option Buffer
buf_of (ok v) = v.buf
buf_of (err rc) = none

module _ (L : Libc) where
  -- `mock_var_status = …`
  unfoldable pub set_status : ℕ → M (W (test_services L)) (Unit {0})
  set_status rc = set_mock L (λ v. record v { status = rc })

  unfoldable pub test_delete_variable_exists : M (W (test_services L)) (Unit {0})
  test_delete_variable_exists = do
    mock_init L
    set_status buffer_too_small
    set_mock L (λ v. record v { set_called = false })
    rc ← delete_variable (test_services L) (codes "test") fwupdate_guid
    assert (rc == buffer_too_small)
    called ← gets (λ w. w.fw.0.set_called)
    assert (not called)

  unfoldable pub test_delete_variable_not_found : M (W (test_services L)) (Unit {0})
  test_delete_variable_not_found = do
    mock_init L
    set_status not_found
    rc ← delete_variable (test_services L) (codes "test") fwupdate_guid
    assert (rc == success)

  unfoldable pub test_delete_variable_other_error : M (W (test_services L)) (Unit {0})
  test_delete_variable_other_error = do
    mock_init L
    set_status unsupported
    rc ← delete_variable (test_services L) (codes "test") fwupdate_guid
    assert (rc == unsupported)

  unfoldable pub check_copy : Variable → M (W (test_services L)) (Unit {0})
  check_copy v = do
    assert (v.size == length four_bytes)
    assert (v.attrs == 1)
    buf ← deref v.buf
    bounds buf 0 4
    assert (same (bytes_at buf.byte 0 4) four_bytes)
    free_pool (test_services L) buf.addr

  unfoldable pub test_get_variable_success : M (W (test_services L)) (Unit {0})
  test_get_variable_success = do
    mock_init L
    set_mock L (λ v. record v { bytes = byte_of four_bytes; size = 4; attrs = 1; status = success })
    r ← get_variable (test_services L) (codes "test") fwupdate_guid
    assert (status_of r == success)
    on_result r (λ rc. fail assertion) check_copy

  unfoldable pub test_get_variable_not_found : M (W (test_services L)) (Unit {0})
  test_get_variable_not_found = do
    mock_init L
    set_status not_found
    r ← get_variable (test_services L) (codes "test") fwupdate_guid
    assert (status_of r == not_found)
    assert (not (is_some (test_services L) (buf_of r)))
