-- ===== src/Selftest/Gop.antt =====
-- Group 3 of efi/fwup-selftest.c: the sizes that `fwup_check_gop_for_ux_capsule` tests.
use fwupd_efi.Base.{ℕ, ◌+◌, ◌-◌, ◌==◌}
use fwupd_efi.Memory.{Buffer, put32}
use fwupd_efi.Efi.{
  invalid_parameter, unsupported, capsule_sizeof, capsule_header_size, capsule_image_size,
  ux_sizeof,
}
use fwupd_efi.Firmware.Monad.{M, deref, bounds, ◌>>=◌, ◌>>◌}
use fwupd_efi.Firmware.Calls.{W}
use fwupd_efi.Variable.{cleanup_free}
use fwupd_efi.Capsule.{check_gop_for_ux_capsule}
use fwupd_efi.Harness.{Libc, no_byte}
use fwupd_efi.Selftest.{assert, status_of, test_services, mock_init, calloc}
use fwupd_efi.Selftest.Paths.{stack_buffer}

module _ (L : Libc) where
  -- The sizes are written to the header of a file of zeros, and the status of the check is compared.
  unfoldable pub assert_gop : Buffer → ℕ → ℕ → ℕ → ℕ → M (W (test_services L)) (Unit {0})
  assert_gop buf header_size image_size fsize expected = do
    bounds buf 0 capsule_sizeof
    let sized = put32 buf.byte capsule_header_size header_size
    rc ←
        check_gop_for_ux_capsule (test_services L) 0
          (record buf { byte = put32 sized capsule_image_size image_size }) fsize
    assert (status_of rc == expected)

  unfoldable pub test_gop_headersize_too_small : M (W (test_services L)) (Unit {0})
  test_gop_headersize_too_small = do
    mock_init L
    assert_gop (stack_buffer 256 no_byte) (capsule_sizeof - 1) 256 256 invalid_parameter

  unfoldable pub test_gop_capsule_image_size_less_than_header : M (W (test_services L)) (Unit {0})
  test_gop_capsule_image_size_less_than_header = do
    mock_init L
    assert_gop (stack_buffer 256 no_byte) capsule_sizeof (capsule_sizeof - 1) 256 invalid_parameter

  unfoldable pub test_gop_ux_payload_too_small : M (W (test_services L)) (Unit {0})
  test_gop_ux_payload_too_small = do
    mock_init L
    assert_gop (stack_buffer 256 no_byte) capsule_sizeof (capsule_sizeof + ux_sizeof - 1) 256
        invalid_parameter

  -- The tests whose file lies in memory of its own.
  unfoldable pub assert_gop_file : ℕ → ℕ → ℕ → ℕ → M (W (test_services L)) (Unit {0})
  assert_gop_file fsize header_size image_size expected = do
    o ← calloc L 1 fsize
    buf ← deref o
    assert_gop buf header_size image_size fsize expected
    cleanup_free (test_services L) o

  unfoldable pub test_gop_fsize_too_small : M (W (test_services L)) (Unit {0})
  test_gop_fsize_too_small = do
    mock_init L
    assert_gop_file (capsule_sizeof + ux_sizeof - 1) capsule_sizeof (capsule_sizeof + ux_sizeof)
        invalid_parameter

  unfoldable pub test_gop_headersize_exact_boundary : M (W (test_services L)) (Unit {0})
  test_gop_headersize_exact_boundary = do
    mock_init L
    assert_gop_file (capsule_sizeof + ux_sizeof) capsule_sizeof (capsule_sizeof + ux_sizeof)
        unsupported

  unfoldable pub test_gop_headersize_one_past : M (W (test_services L)) (Unit {0})
  test_gop_headersize_one_past = do
    mock_init L
    assert_gop_file (capsule_sizeof + ux_sizeof) (capsule_sizeof + 1) (capsule_sizeof + ux_sizeof)
        invalid_parameter
