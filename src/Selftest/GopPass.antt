-- ===== src/Selftest/GopPass.antt =====
-- The tests of `fwup_check_gop_for_ux_capsule` pass.
use fwupd_efi.Base.{ℕ, ◌*◌, ◌≤◌, ◌≡◌, refl, ap, ◌∙◌, arith, true, ◌==◌, ==_iff, if◌then◌else◌}
use fwupd_efi.Memory.{put32}
use fwupd_efi.Efi.{
  capsule_sizeof, capsule_header_size, capsule_image_size, graphics_output_protocol,
  invalid_parameter, unsupported, Result, err,
}
use fwupd_efi.Firmware.Monad.{call}
use fwupd_efi.Firmware.Calls.{locate_handle}
use fwupd_efi.Firmware.Keeps.{Keeps}
use fwupd_efi.Firmware.Reaches.{Reaches, Reaches-bind, Reaches-bounds, Reaches-deref, Reaches-given}
use fwupd_efi.Variable.Reads.{not_found-efi_error}
use fwupd_efi.Capsule.{bad_header_size}
use fwupd_efi.Capsule.Gop.{check_gop_for_ux_capsule-none_found}
use fwupd_efi.Harness.{Libc, no_byte}
use fwupd_efi.Selftest.{MockVars, initial_vars, test_services, status_of}
use fwupd_efi.Selftest.Pass.{Passes}
use fwupd_efi.Selftest.Paths.{stack_buffer}
use fwupd_efi.Selftest.Ready.{
  IsRoomy, Ready, With, assert-Passes, calloc-then, calloc-With, cleanup-Ready, With-logging,
  mock_init-With, Ready-again,
}
use fwupd_efi.Selftest.Gop.{
  assert_gop, assert_gop_file, test_gop_headersize_too_small,
  test_gop_capsule_image_size_less_than_header, test_gop_ux_payload_too_small,
  test_gop_fsize_too_small, test_gop_headersize_exact_boundary, test_gop_headersize_one_past,
}

-- The header of zeros with its two sizes.
abbrev sized : ℕ → ℕ → ℕ → ℕ
sized header_size image_size =
    put32 (put32 no_byte capsule_header_size header_size) capsule_image_size image_size

same_status :
    {A : Type 0} {r : Result A} {rc expected : ℕ}
    → r ≡ err rc
    → rc ≡ expected
    → (status_of r == expected) ≡ true
same_status {r = r} {rc} {expected} e f = ((==_iff (status_of r) expected).1) (ap status_of e ∙ f)

module _ (L : Libc) where
  locating :
      (v : MockVars) → Keeps (With L v) (locate_handle (test_services L) graphics_output_protocol)
  unfolding locate_handle call
  locating v = record { at = λ w h. h }

  assert_gop-Passes :
      (v : MockVars) (addr size header_size image_size fsize expected : ℕ)
      → 28 ≤ size
      → (if bad_header_size (sized header_size image_size) fsize
          then invalid_parameter
          else unsupported)
        ≡ expected
      → Passes (With L v) (
          assert_gop L
            (record { addr = addr; size = size; byte = no_byte })
            header_size
            image_size
            fsize
            expected)
  unfolding assert_gop
  assert_gop-Passes v addr size header_size image_size fsize expected h e =
      Reaches-bind _ _ (Reaches-bounds _ 0 capsule_sizeof (omega (arith, h))) λ _.
        Reaches-bind _ _
          (check_gop_for_ux_capsule-none_found (test_services L) 0 (λ s. not_found-efi_error)
            (With-logging L v) (locating v) _ fsize h)
          λ r. Reaches-given _ (λ w t. t) λ f. assert-Passes _ (same_status f e)

  on_stack :
      (header_size image_size expected : ℕ)
      → (if bad_header_size (sized header_size image_size) 256
          then invalid_parameter
          else unsupported)
        ≡ expected
      → Reaches
          (With L initial_vars)
          (assert_gop L (stack_buffer 256 no_byte) header_size image_size 256 expected)
          (λ _. Ready L)
  on_stack header_size image_size expected e =
      Ready-again L _
        (assert_gop-Passes initial_vars 0 256 header_size image_size 256 expected (omega arith) e)

  on_file :
      IsRoomy L
      → (fsize header_size image_size expected : ℕ) → 28 ≤ fsize
      → fsize ≤ 4096
      → (if bad_header_size (sized header_size image_size) fsize
          then invalid_parameter
          else unsupported)
        ≡ expected
      → Reaches
          (With L initial_vars)
          (assert_gop_file L fsize header_size image_size expected)
          (λ _. Ready L)
  unfolding assert_gop_file
  on_file roomy fsize header_size image_size expected h k e =
      calloc-then L roomy 1 fsize _ (omega (arith, k)) (calloc-With L initial_vars 1 fsize) λ addr.
        Reaches-deref _ _ _ refl (
          Reaches-bind _ _
            (Ready-again L _ (
              assert_gop-Passes initial_vars addr (1 * fsize) header_size image_size fsize expected
                (omega (arith, h)) e))
            λ _. cleanup-Ready L _)

  pub gop-Passes :
      IsRoomy L
      → Passes (Ready L) (test_gop_headersize_too_small L)
        × Passes (Ready L) (test_gop_capsule_image_size_less_than_header L)
        × Passes (Ready L) (test_gop_ux_payload_too_small L)
        × Passes (Ready L) (test_gop_fsize_too_small L)
        × Passes (Ready L) (test_gop_headersize_exact_boundary L)
        × Passes (Ready L) (test_gop_headersize_one_past L)
  unfolding test_gop_headersize_too_small test_gop_capsule_image_size_less_than_header
      test_gop_ux_payload_too_small test_gop_fsize_too_small test_gop_headersize_exact_boundary
      test_gop_headersize_one_past bad_header_size
  gop-Passes roomy = (
    Reaches-bind _ _ (mock_init-With L) (λ _. on_stack 27 256 invalid_parameter refl),
    Reaches-bind _ _ (mock_init-With L) (λ _. on_stack 28 27 invalid_parameter refl),
    Reaches-bind _ _ (mock_init-With L) (λ _. on_stack 28 43 invalid_parameter refl),
    Reaches-bind _ _ (mock_init-With L)
        (λ _. on_file roomy 43 28 44 invalid_parameter (omega arith) (omega arith) refl),
    Reaches-bind _ _ (mock_init-With L)
        (λ _. on_file roomy 44 28 44 unsupported (omega arith) (omega arith) refl),
    Reaches-bind _ _ (mock_init-With L)
        (λ _. on_file roomy 44 29 44 invalid_parameter (omega arith) (omega arith) refl),
  )
