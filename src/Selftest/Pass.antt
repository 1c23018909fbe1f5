-- ===== src/Selftest/Pass.antt =====
-- The tests of device paths and checksums pass, by computation.
use fwupd_efi.Base.{ℕ}
use fwupd_efi.Firmware.Monad.{M, pure, lift, ◌>>=◌}
use fwupd_efi.Firmware.Reaches.{Reaches}
use fwupd_efi.Efi.{dp_node_length, dp_is_end, dp_type, dp_subtype}
use fwupd_efi.DevicePath.{dp_size}
use fwupd_efi.Capsule.{update_ux_checksum, checksum_loop}
use fwupd_efi.Selftest.{assert}
use fwupd_efi.Selftest.Paths.{
  assert_dp_size, test_dp_size_single_end_node, test_dp_size_multiple_nodes,
  test_dp_size_limit_too_small, test_dp_size_node_exceeds_limit, test_dp_size_exact_fit,
  test_dp_size_zero_limit, test_dp_size_zero_length_node,
}
use fwupd_efi.Selftest.Checksum.{
  sum_bytes, test_checksum_zeroes, test_checksum_known_values, test_checksum_idempotent,
}

-- A test passes from every world with `P`, and leaves it so.
abbrev pub Passes : {W : Type 0} → (W → Type 0) → M W (Unit {0}) → Type 0
Passes P test = Reaches P test (λ _. P)

module _ {W : Type 0} (P : W → Type 0) where
  pub paths-Passes :
      (stack : ℕ → ℕ)
      → Passes P (test_dp_size_single_end_node stack)
        × Passes P (test_dp_size_multiple_nodes stack)
        × Passes P (test_dp_size_limit_too_small stack)
        × Passes P (test_dp_size_node_exceeds_limit stack)
        × Passes P (test_dp_size_exact_fit stack)
        × Passes P (test_dp_size_zero_limit stack)
        × Passes P (test_dp_size_zero_length_node stack)
  unfolding test_dp_size_single_end_node test_dp_size_multiple_nodes test_dp_size_limit_too_small
      test_dp_size_node_exceeds_limit test_dp_size_exact_fit test_dp_size_zero_limit
      test_dp_size_zero_length_node assert_dp_size dp_size dp_is_end dp_node_length dp_type
      dp_subtype assert ◌>>=◌ lift pure
  paths-Passes stack = (
    record { at = λ w h. h },
    record { at = λ w h. h },
    record { at = λ w h. h },
    record { at = λ w h. h },
    record { at = λ w h. h },
    record { at = λ w h. h },
    record { at = λ w h. h },
  )

  pub checksum-Passes :
      Passes P test_checksum_zeroes
      × Passes P test_checksum_known_values
      × Passes P test_checksum_idempotent
  unfolding test_checksum_zeroes test_checksum_known_values test_checksum_idempotent
      update_ux_checksum checksum_loop sum_bytes assert ◌>>=◌ pure
  checksum-Passes = (record { at = λ w h. h }, record { at = λ w h. h }, record { at = λ w h. h })
