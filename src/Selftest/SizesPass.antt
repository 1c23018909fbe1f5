-- ===== src/Selftest/SizesPass.antt =====
-- The tests of sizes and of the terminator pass.
use fwupd_efi.Base.{ℕ, ◌≤◌, ◌≡◌, refl, arith, Bool, true, not}
use fwupd_efi.Memory.{put32}
use fwupd_efi.Efi.{efi_error, capsule_image_size}
use fwupd_efi.Firmware.Reaches.{Reaches-bind, Reaches-bounds, Reaches-deref}
use fwupd_efi.Capsule.{validate_capsule_size, cbd_set_terminator}
use fwupd_efi.Harness.{Libc, no_byte}
use fwupd_efi.Selftest.Pass.{Passes}
use fwupd_efi.Selftest.Ready.{
  IsRoomy, Ready, assert-Passes, calloc-then, calloc-Ready, cleanup-Ready,
}
use fwupd_efi.Selftest.Sizes.{
  assert_size, test_capsule_image_size_exceeds_file, test_capsule_image_size_too_small,
  test_capsule_file_too_small, test_capsule_image_size_valid, test_cbd_terminator_position,
}

module _ (L : Libc) (roomy : IsRoomy L) where
  assert_size-Passes :
      (size image_size fsize : ℕ) (test : ℕ → Bool)
      → 28 ≤ size
      → size ≤ 4096
      → test (validate_capsule_size (put32 no_byte capsule_image_size image_size) fsize) ≡ true
      → Passes (Ready L) (assert_size L size image_size fsize test)
  unfolding assert_size
  assert_size-Passes size image_size fsize test h k e =
      calloc-then L roomy 1 size _ (omega (arith, k)) (calloc-Ready L 1 size) λ addr.
        Reaches-deref _ _ _ refl (
          Reaches-bind _ _ (Reaches-bounds _ capsule_image_size 4 (omega (arith, h)))
            λ _. Reaches-bind _ _ (assert-Passes _ e) λ _. cleanup-Ready L _)

  pub sizes-Passes :
      Passes (Ready L) (test_capsule_image_size_exceeds_file L)
      × Passes (Ready L) (test_capsule_image_size_too_small L)
      × Passes (Ready L) (test_capsule_file_too_small L)
      × Passes (Ready L) (test_capsule_image_size_valid L)
  unfolding test_capsule_image_size_exceeds_file test_capsule_image_size_too_small
      test_capsule_file_too_small test_capsule_image_size_valid validate_capsule_size efi_error
  sizes-Passes = (
    assert_size-Passes 64 65 64 efi_error (omega arith) (omega arith) refl,
    assert_size-Passes 128 27 128 efi_error (omega arith) (omega arith) refl,
    assert_size-Passes 28 28 27 efi_error (omega arith) (omega arith) refl,
    assert_size-Passes 128 128 128 (λ rc. not (efi_error rc)) (omega arith) (omega arith) refl,
  )

  pub terminator-Passes : Passes (Ready L) (test_cbd_terminator_position L)
  unfolding test_cbd_terminator_position cbd_set_terminator
  terminator-Passes = calloc-then L roomy 5 16 _ (omega arith) (calloc-Ready L 5 16) λ addr.
      Reaches-deref _ _ _ refl (
        Reaches-bind _ _ (Reaches-bounds _ 0 48 (omega arith)) λ _.
          Reaches-bind _ _ (assert-Passes _ refl) λ _. Reaches-bind _ _ (assert-Passes _ refl) λ _.
            Reaches-bind _ _ (assert-Passes _ refl)
              λ _. Reaches-bind _ _ (assert-Passes _ refl) λ _. cleanup-Ready L _)
