-- ===== src/Selftest/Info.antt =====
-- Group 4 of efi/fwup-selftest.c: the validation in `fwup_populate_update_info`.
use Prim.Native.Nat.{bit_or}
use fwupd_efi.Base.{ℕ, ◌+◌, ◌-◌, codes, ◌==◌}
use fwupd_efi.Efi.{success, not_found, efi_error, info_sizeof, info_dp, dp_sizeof}
use fwupd_efi.Firmware.Monad.{M, deref, bounds, ◌>>=◌, ◌>>◌}
use fwupd_efi.Firmware.Calls.{W}
use fwupd_efi.Variable.{cleanup_free, is_some}
use fwupd_efi.Update.{Update, populate_update_info, free_info, free_name}
use fwupd_efi.Harness.{Libc, no_byte}
use fwupd_efi.Harness.FuzzUpdateInfo.{zero_update}
use fwupd_efi.Selftest.{
  assert, test_services, mock_init, set_mock, calloc, build_dp_end, build_dp_node,
}
use fwupd_efi.Selftest.Variables.{set_status}

module _ (L : Libc) where
  -- The variable that the mock holds: its bytes, its size, and success.
  unfoldable pub set_info : (ℕ → ℕ) → ℕ → M (W (test_services L)) (Unit {0})
  set_info m n = set_mock L (λ v. record v { bytes = m; size = n; status = success })

  unfoldable pub populate_test : M (W (test_services L)) (Update × ℕ)
  populate_test = populate_update_info (test_services L) (codes "test") zero_update

  unfoldable pub test_populate_info_too_small : M (W (test_services L)) (Unit {0})
  test_populate_info_too_small = do
    mock_init L
    set_info no_byte (info_sizeof - 1)
    (out, rc) ← populate_test
    assert (efi_error rc)

  unfoldable pub test_populate_info_no_room_for_dp : M (W (test_services L)) (Unit {0})
  test_populate_info_no_room_for_dp = do
    mock_init L
    set_info no_byte info_sizeof
    (out, rc) ← populate_test
    assert (efi_error rc)

  abbrev pub total : ℕ
  total = info_sizeof + dp_sizeof + 4

  unfoldable pub test_populate_info_valid : M (W (test_services L)) (Unit {0})
  test_populate_info_valid = do
    mock_init L
    o ← calloc L 1 total
    buf ← deref o
    bounds buf info_dp (total - info_dp)
    let dp_space = total - info_dp
    let node = build_dp_node buf.byte info_dp 0x01 0x01 (dp_space - 4)
    set_info (build_dp_end node (info_dp + dp_space - 4)) total
    set_mock L (λ v. record v { attrs = bit_or 1 2 })
    (out, rc) ← populate_test
    assert (rc == success)
    assert (is_some (test_services L) out.info)
    assert (is_some (test_services L) out.name)
    assert (out.size == total)
    free_info (test_services L) out.info
    free_name (test_services L) out.name
    cleanup_free (test_services L) o

  unfoldable pub test_populate_info_dp_size_mismatch : M (W (test_services L)) (Unit {0})
  test_populate_info_dp_size_mismatch = do
    mock_init L
    o ← calloc L 1 (info_dp + 8)
    buf ← deref o
    bounds buf info_dp 4
    set_info (build_dp_end buf.byte info_dp) (info_dp + 8)
    (out, rc) ← populate_test
    assert (efi_error rc)
    cleanup_free (test_services L) o

  unfoldable pub test_populate_info_variable_not_found : M (W (test_services L)) (Unit {0})
  test_populate_info_variable_not_found = do
    mock_init L
    set_status L not_found
    (out, rc) ← populate_test
    assert (rc == not_found)
