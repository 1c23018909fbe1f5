-- ===== src/Selftest/Checksum.antt =====
-- Group 2 of efi/fwup-selftest.c: `fwup_update_ux_capsule_checksum`.
use fwupd_efi.Base.{ℕ, zero, suc, ◌+◌, ◌%◌, ◌^◌, not, ◌==◌}
use fwupd_efi.Memory.{poke, put32}
use fwupd_efi.Efi.{ux_sizeof, ux_checksum, ux_mode}
use fwupd_efi.Firmware.Monad.{M, ◌>>◌}
use fwupd_efi.Capsule.{update_ux_checksum}
use fwupd_efi.Harness.{no_byte}
use fwupd_efi.Selftest.{assert}

-- The other fields of `UX_CAPSULE_HEADER`
abbrev ux_version : ℕ
ux_version = 0

abbrev ux_image_type : ℕ
ux_image_type = 2

abbrev ux_x_offset : ℕ
ux_x_offset = 8

abbrev ux_y_offset : ℕ
ux_y_offset = 12

-- The loop of the test, over the bytes from `buf[i]` on.
unfoldable pub sum_bytes : ℕ → (ℕ → ℕ) → ℕ → ℕ → ℕ
sum_bytes zero buf i expected = expected
sum_bytes (suc n) buf i expected = sum_bytes n buf (i + 1) ((expected + buf i) % 2 ^ 8)

module _ {W : Type 0} where
  unfoldable pub test_checksum_zeroes : M W (Unit {0})
  test_checksum_zeroes = assert (update_ux_checksum no_byte 0 ux_checksum == 0)

  unfoldable pub test_checksum_known_values : M W (Unit {0})
  test_checksum_known_values = do
    let set = poke (poke no_byte ux_version 1) ux_image_type 2
    let hdr = put32 (put32 (put32 set ux_mode 3) ux_x_offset 100) ux_y_offset 200
    let summed = update_ux_checksum hdr 0
    let saved = summed ux_checksum
    assert (not (saved == 0))
    let expected = sum_bytes ux_sizeof (poke summed ux_checksum 0) 0 0
    assert (saved == expected)

  unfoldable pub test_checksum_idempotent : M W (Unit {0})
  test_checksum_idempotent = do
    let set = put32 (poke no_byte ux_version 5) ux_mode 42
    let hdr = put32 (put32 set ux_x_offset 10) ux_y_offset 20
    let once = update_ux_checksum hdr 0
    assert (update_ux_checksum once 0 ux_checksum == once ux_checksum)
