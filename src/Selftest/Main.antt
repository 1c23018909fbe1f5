-- ===== src/Selftest/Main.antt =====
-- `main` of efi/fwup-selftest.c, which runs the tests and compares two counters. What it prints is
-- left out.
use fwupd_efi.Base.{ℕ, ◌+◌, List, [], ◌∷◌, ◌==◌, if◌then◌else◌}
use fwupd_efi.Firmware.Monad.{M, pure, ◌>>=◌, ◌>>◌}
use fwupd_efi.Firmware.Calls.{W}
use fwupd_efi.Harness.{Libc}
use fwupd_efi.Selftest.{test_services}
use fwupd_efi.Selftest.Paths
use fwupd_efi.Selftest.Checksum
use fwupd_efi.Selftest.Gop
use fwupd_efi.Selftest.Info
use fwupd_efi.Selftest.Sizes
use fwupd_efi.Selftest.Variables

-- `RUN_TEST` for each test; the counters `tests_run` and `tests_passed` are the loop's state.
unfoldable pub run_tests : {W : Type 0} → List (M W (Unit {0})) → ℕ → ℕ → M W (ℕ × ℕ)
run_tests [] tests_run tests_passed = pure (tests_run, tests_passed)
run_tests (test ∷ tests) tests_run tests_passed = do
  test
  run_tests tests (tests_run + 1) (tests_passed + 1)

module _ (L : Libc) (stack : ℕ → ℕ) where
  abbrev pub tests : List (M (W (test_services L)) (Unit {0}))
  tests =
      Paths.test_dp_size_single_end_node stack
      ∷ Paths.test_dp_size_multiple_nodes stack
      ∷ Paths.test_dp_size_limit_too_small stack
      ∷ Paths.test_dp_size_node_exceeds_limit stack
      ∷ Paths.test_dp_size_exact_fit stack
      ∷ Paths.test_dp_size_zero_limit stack
      ∷ Paths.test_dp_size_zero_length_node stack
      ∷ Checksum.test_checksum_zeroes
      ∷ Checksum.test_checksum_known_values
      ∷ Checksum.test_checksum_idempotent
      ∷ Gop.test_gop_headersize_too_small L
      ∷ Gop.test_gop_capsule_image_size_less_than_header L
      ∷ Gop.test_gop_ux_payload_too_small L
      ∷ Gop.test_gop_fsize_too_small L
      ∷ Gop.test_gop_headersize_exact_boundary L
      ∷ Gop.test_gop_headersize_one_past L
      ∷ Info.test_populate_info_too_small L
      ∷ Info.test_populate_info_no_room_for_dp L
      ∷ Info.test_populate_info_valid L
      ∷ Info.test_populate_info_dp_size_mismatch L
      ∷ Info.test_populate_info_variable_not_found L
      ∷ Sizes.test_capsule_image_size_exceeds_file L
      ∷ Sizes.test_capsule_image_size_too_small L
      ∷ Sizes.test_capsule_file_too_small L
      ∷ Sizes.test_capsule_image_size_valid L
      ∷ Variables.test_delete_variable_exists L
      ∷ Variables.test_delete_variable_not_found L
      ∷ Variables.test_delete_variable_other_error L
      ∷ Variables.test_get_variable_success L
      ∷ Variables.test_get_variable_not_found L
      ∷ Sizes.test_cbd_terminator_position L
      ∷ []

  -- `main`
  unfoldable pub main : M (W (test_services L)) ℕ
  main = do
    (tests_run, tests_passed) ← run_tests tests 0 0
    pure (if tests_passed == tests_run then 0 else 1)
