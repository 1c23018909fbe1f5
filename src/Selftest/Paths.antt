-- ===== src/Selftest/Paths.antt =====
-- Group 1 of efi/fwup-selftest.c: `fwup_dp_size`. A buffer on the stack starts with any bytes.
use fwupd_efi.Base.{ℕ}
use fwupd_efi.Base.Int.{ℤ, pos, negsuc}
use fwupd_efi.Memory.{Buffer}
use fwupd_efi.Firmware.Monad.{M, lift, ◌>>=◌}
use fwupd_efi.DevicePath.{dp_size}
use fwupd_efi.Update.{same_ℤ}
use fwupd_efi.Selftest.{assert, build_dp_end, build_dp_node}

-- `UINT8 buf[size]` after the writes
abbrev pub stack_buffer : ℕ → (ℕ → ℕ) → Buffer
stack_buffer size bytes = record { addr = 0; size = size; byte = bytes }

module _ {W : Type 0} (stack : ℕ → ℕ) where
  -- `INTN sz = fwup_dp_size(…); assert(sz == …)`
  unfoldable pub assert_dp_size : Buffer → ℤ → ℤ → M W (Unit {0})
  assert_dp_size buf limit expected = do
    sz ← lift (dp_size buf 0 limit)
    assert (same_ℤ sz expected)

  unfoldable pub test_dp_size_single_end_node : M W (Unit {0})
  test_dp_size_single_end_node =
      assert_dp_size (stack_buffer 4 (build_dp_end stack 0)) (pos 100) (pos 4)

  unfoldable pub test_dp_size_multiple_nodes : M W (Unit {0})
  test_dp_size_multiple_nodes =
      let first = build_dp_node stack 0 0x01 0x01 8 in
      let second = build_dp_node first 8 0x02 0x01 6 in
      assert_dp_size (stack_buffer 18 (build_dp_end second 14)) (pos 100) (pos 18)

  unfoldable pub test_dp_size_limit_too_small : M W (Unit {0})
  test_dp_size_limit_too_small =
      assert_dp_size (stack_buffer 4 (build_dp_end stack 0)) (pos 3) (negsuc 0)

  unfoldable pub test_dp_size_node_exceeds_limit : M W (Unit {0})
  test_dp_size_node_exceeds_limit =
      assert_dp_size (stack_buffer 12 (build_dp_end (build_dp_node stack 0 0x01 0x01 8) 8)) (pos 6)
        (negsuc 0)

  unfoldable pub test_dp_size_exact_fit : M W (Unit {0})
  test_dp_size_exact_fit = assert_dp_size (stack_buffer 4 (build_dp_end stack 0)) (pos 4) (pos 4)

  unfoldable pub test_dp_size_zero_limit : M W (Unit {0})
  test_dp_size_zero_limit =
      assert_dp_size (stack_buffer 4 (build_dp_end stack 0)) (pos 0) (negsuc 0)

  unfoldable pub test_dp_size_zero_length_node : M W (Unit {0})
  test_dp_size_zero_length_node =
      assert_dp_size (stack_buffer 8 (build_dp_end (build_dp_node stack 0 0x01 0x01 0) 4)) (pos 100)
        (negsuc 0)
