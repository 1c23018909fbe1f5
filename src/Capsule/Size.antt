-- ===== src/Capsule/Size.antt =====
-- The size checks of a capsule: what passes them, and that completing a UX capsule leaves the header
-- as it was.
use fwupd_efi.Base.{ℕ, ◌+◌, ◌^◌, ◌≤◌, ◌<◌, ◌≡◌, ◌∙◌, ◌↔◌, inl, arith, false}
use fwupd_efi.Memory.{get32, put32, bytes32}
use fwupd_efi.Memory.Laws.{blit_outside}
use fwupd_efi.Capsule.Checksum.{update_ux_checksum_lem}
use fwupd_efi.Efi.{
  efi_error, capsule_sizeof, capsule_image_size, capsule_header_size, ux_sizeof, ux_mode,
}
use fwupd_efi.Capsule.{validate_capsule_size, bad_header_size, update_ux_checksum}

-- `fwup_validate_capsule_size` succeeds exactly if the image size covers the capsule header and lies
-- in the file, and is an error otherwise.
pub validate_capsule_size_iff :
    (m : ℕ → ℕ) (fsize : ℕ)
    → (efi_error (validate_capsule_size m fsize) ≡ false)
      ↔ ((capsule_sizeof ≤ get32 m capsule_image_size) × (get32 m capsule_image_size ≤ fsize))
unfolding validate_capsule_size efi_error
validate_capsule_size_iff m fsize = (λ h. ground arith, λ h. ground arith)

-- For sizes of 32 bits in the header, the four tests of `fwup_check_gop_for_ux_capsule` pass exactly
-- if the UX header lies, behind a whole capsule header, within the image and the file.
pub bad_header_size_iff :
    (m : ℕ → ℕ) (fsize : ℕ)
    → get32 m capsule_header_size < 2 ^ 32
    → get32 m capsule_image_size < 2 ^ 32
    → (bad_header_size m fsize ≡ false) ↔ (
        (capsule_sizeof ≤ get32 m capsule_header_size)
        × (get32 m capsule_header_size + ux_sizeof ≤ get32 m capsule_image_size)
        × (get32 m capsule_header_size + ux_sizeof ≤ fsize))
unfolding bad_header_size
bad_header_size_iff m fsize h k = (λ e. ground arith, λ e. ground arith)

pub bad_header_size_ge :
    (m : ℕ → ℕ) (fsize : ℕ)
    → bad_header_size m fsize ≡ false
    → capsule_sizeof ≤ get32 m capsule_header_size
unfolding bad_header_size
bad_header_size_ge m fsize h = ground arith

-- What completing the UX header at `off` leaves of the bytes before it.
ux_before :
    (m : ℕ → ℕ) (off mode j : ℕ)
    → j < off
    → update_ux_checksum (put32 m (off + ux_mode) mode) off j ≡ m j
ux_before m off mode j h =
    (update_ux_checksum_lem (put32 m (off + ux_mode) mode) off).0 j (omega arith)
    ∙ blit_outside m (off + ux_mode) 4 (bytes32 mode) j (inl (omega arith))

pub ux-image_size :
    (m : ℕ → ℕ) (off mode : ℕ)
    → capsule_sizeof ≤ off
    → get32 (update_ux_checksum (put32 m (off + ux_mode) mode) off) capsule_image_size
      ≡ get32 m capsule_image_size
ux-image_size m off mode h = omega (
  arith,
  ux_before m off mode 24 (omega arith),
  ux_before m off mode 25 (omega arith),
  ux_before m off mode 26 (omega arith),
  ux_before m off mode 27 (omega arith),
)
