-- ===== src/Selftest/Sizes.antt =====
-- Groups 5 and 8 of efi/fwup-selftest.c: `fwup_validate_capsule_size` and `fwup_cbd_set_terminator`.
use fwupd_efi.Base.{ℕ, ◌+◌, ◌-◌, ◌*◌, Bool, not, ◌==◌, if◌then◌else◌}
use fwupd_efi.Memory.{put32}
use fwupd_efi.Efi.{efi_error, capsule_sizeof, capsule_image_size}
use fwupd_efi.Firmware.Services.{Block}
use fwupd_efi.Firmware.Monad.{M, deref, bounds, ◌>>=◌, ◌>>◌}
use fwupd_efi.Firmware.Calls.{W}
use fwupd_efi.Variable.{cleanup_free}
use fwupd_efi.Capsule.{validate_capsule_size, cbd_set_terminator}
use fwupd_efi.Entry.{blocks_in}
use fwupd_efi.Harness.{Libc}
use fwupd_efi.Selftest.{assert, test_services, calloc}

module _ (L : Libc) where
  -- A file of `size` zeros whose header gets an image size, and the test of it at `fsize`.
  unfoldable pub assert_size : ℕ → ℕ → ℕ → (ℕ → Bool) → M (W (test_services L)) (Unit {0})
  assert_size size image_size fsize test = do
    o ← calloc L 1 size
    fbuf ← deref o
    bounds fbuf capsule_image_size 4
    assert (test (validate_capsule_size (put32 fbuf.byte capsule_image_size image_size) fsize))
    cleanup_free (test_services L) o

  unfoldable pub test_capsule_image_size_exceeds_file : M (W (test_services L)) (Unit {0})
  test_capsule_image_size_exceeds_file = assert_size 64 (64 + 1) 64 efi_error

  unfoldable pub test_capsule_image_size_too_small : M (W (test_services L)) (Unit {0})
  test_capsule_image_size_too_small = assert_size 128 (capsule_sizeof - 1) 128 efi_error

  unfoldable pub test_capsule_file_too_small : M (W (test_services L)) (Unit {0})
  test_capsule_file_too_small =
      assert_size capsule_sizeof capsule_sizeof (capsule_sizeof - 1) efi_error

  unfoldable pub test_capsule_image_size_valid : M (W (test_services L)) (Unit {0})
  test_capsule_image_size_valid = assert_size 128 128 128 (λ rc. not (efi_error rc))

  -- `cbd[i] = …`
  abbrev set_block : (ℕ → Block) → ℕ → ℕ → ℕ → ℕ → Block
  set_block cbd i length pointer j =
      if j == i then record { length = length; pointer = pointer } else cbd j

  unfoldable pub test_cbd_terminator_position : M (W (test_services L)) (Unit {0})
  test_cbd_terminator_position = do
    o ← calloc L (4 + 1) 16
    b ← deref o
    bounds b 0 (3 * 16)
    let set = set_block (set_block (blocks_in b.byte) 0 100 0x1000) 1 200 0x2000
    let cbd = cbd_set_terminator (set_block set 2 999 0xdead) 2
    assert ((cbd 2).length == 0)
    assert ((cbd 2).pointer == 0)
    assert ((cbd 0).length == 100)
    assert ((cbd 1).length == 200)
    cleanup_free (test_services L) o
