-- ===== src/Capsule/Mode.antt =====
-- `fwup_check_gop_for_ux_capsule` where the firmware's answers about its displays stay the same.
use fwupd_efi.Base.{
  ◌↔◌, Bool, ℕ, zero, suc, ◌+◌, ◌-◌, ◌^◌, ◌≤◌, ◌<◌, ◌≡◌, ◌≢◌, ◌∙◌, ◌⊎◌, ap, sym, refl, arith, true,
  false, ◌∷◌, none, some, ◌%◌,
}
use mathlib.Core.Path.{subst}
use fwupd_efi.Memory.{Buffer, get32, put32, bytes32, bytes_at}
use fwupd_efi.Memory.Laws.{blit_outside, blit_inside}
use fwupd_efi.Efi.{
  Result, ok, err, invalid_parameter, unsupported, capsule_sizeof, capsule_header_size,
  capsule_image_size, ux_sizeof, ux_mode, ux_checksum,
}
use fwupd_efi.Firmware.Services.{Services}
use fwupd_efi.Firmware.Total.{
  Total, Any, Total-bind, Total-pure, Total-if, Total-bounds, Total-on_result,
}
use fwupd_efi.Debug.Total.{fwup_log-Safe}
use fwupd_efi.Capsule.{bad_header_size, update_ux_checksum, ux_mode_set, check_gop_for_ux_capsule}
use fwupd_efi.Capsule.Size.{bad_header_size_iff}
use fwupd_efi.Capsule.Checksum.{total, update_ux_checksum_lem}
use fwupd_efi.Capsule.Display.{ShowsDisplay, ShownMode, mode_of, get_gop_mode-ShownMode}

-- A UX header lies, behind a whole capsule header, within the image and the file.
pub record HasUx (m : ℕ → ℕ) (fsize : ℕ) : Type 0 where
  pub whole_header : capsule_sizeof ≤ get32 m capsule_header_size
  pub in_image : get32 m capsule_header_size + ux_sizeof ≤ get32 m capsule_image_size
  pub in_file : get32 m capsule_header_size + ux_sizeof ≤ fsize

-- The UX header at `off` has the mode and the checksum of its other bytes, and nothing else changed.
pub record IsCompleted (b : Buffer) (off mode : ℕ) (c : Buffer) : Type 0 where
  pub same_addr : c.addr ≡ b.addr
  pub same_size : c.size ≡ b.size
  pub mode_put : (j : ℕ) → j < 4 → c.byte (off + ux_mode + j) ≡ bytes32 mode j
  pub checksum_put :
      c.byte (off + ux_checksum) ≡ (c.byte off + total (bytes_at c.byte (off + 2) 14)) % 256
  pub other_bytes :
      (j : ℕ)
      → j ≢ off + ux_checksum
      → (j < off + ux_mode) ⊎ (off + ux_mode + 4 ≤ j)
      → c.byte j ≡ b.byte j

contrary : {c : Bool} → c ≡ true → c ≡ false → ⊥
contrary t f = cc

bytes_at-same :
    (k m : ℕ → ℕ) (i n : ℕ) → ((j : ℕ) → i ≤ j → k j ≡ m j) → bytes_at k i n ≡ bytes_at m i n
bytes_at-same k m i zero h = refl
bytes_at-same k m i (suc n) h =
    ap (◌∷ bytes_at k (i + 1) n) (h i (omega arith))
    ∙ ap (m i ∷◌) (bytes_at-same k m (i + 1) n (λ j l. h j (omega arith)))

update_ux_checksum-IsCompleted :
    (b : Buffer) (off mode : ℕ)
    → IsCompleted b off mode
        (record b { byte = update_ux_checksum (put32 b.byte (off + ux_mode) mode) off })
update_ux_checksum-IsCompleted b off mode =
    let put = put32 b.byte (off + ux_mode) mode in
    let (keeps, sum) = update_ux_checksum_lem put off in
    record {
      same_addr = refl;
      same_size = refl;
      mode_put = λ j l.
          keeps (off + ux_mode + j) (λ e. absurd (omega (arith, e)))
          ∙ blit_inside b.byte (off + ux_mode) 4 (bytes32 mode) (off + ux_mode + j) (omega arith)
              (omega (arith, l))
          ∙ ap (bytes32 mode) {x = (off + ux_mode + j) - (off + ux_mode)} {y = j} (omega arith);
      checksum_put =
          sum
          ∙ ap (λ v. (v + total (bytes_at put (off + 2) 14)) % 256)
              (sym (keeps off (λ e. absurd (omega (arith, e)))))
          ∙ ap (λ l. (update_ux_checksum put off off + total l) % 256)
              (sym (
                bytes_at-same (update_ux_checksum put off) put (off + 2) 14
                  (λ j l. keeps j (λ e. absurd (omega (arith, l, e))))));
      other_bytes = λ j n o. keeps j n ∙ blit_outside b.byte (off + ux_mode) 4 (bytes32 mode) j o;
    }

module _ {F : Services} {image : ℕ} (shows : ShowsDisplay F image) where
  -- What comes of the capsule in `b`.
  pub data Completion (b : Buffer) (fsize : ℕ) : Result Buffer → Type 0 where
    bad_size : (HasUx b.byte fsize → ⊥) → Completion b fsize (err invalid_parameter)
    no_mode : HasUx b.byte fsize → ShownMode shows none → Completion b fsize (err unsupported)
    has_mode :
        {mode : ℕ} {c : Buffer}
        → HasUx b.byte fsize
        → ShownMode shows (some mode)
        → IsCompleted b (get32 b.byte capsule_header_size) mode c
        → Completion b fsize (ok c)

  header-HasUx :
      (b : Buffer) (fsize : ℕ)
      → (bad_header_size b.byte fsize ≡ false) ↔ (
          (capsule_sizeof ≤ get32 b.byte capsule_header_size)
          × (get32 b.byte capsule_header_size + ux_sizeof ≤ get32 b.byte capsule_image_size)
          × (get32 b.byte capsule_header_size + ux_sizeof ≤ fsize))
      → (bad_header_size b.byte fsize ≡ false)
      → HasUx b.byte fsize
  header-HasUx b fsize (k, l) f =
      let (h, i, j) = k f in record { whole_header = h; in_image = i; in_file = j }

  mode_set-Completion :
      (b : Buffer) (fsize mode : ℕ)
      → fsize ≤ b.size
      → HasUx b.byte fsize
      → ShownMode shows (some mode)
      → Total Any (ux_mode_set F b (get32 b.byte capsule_header_size) mode) (Completion b fsize)
  unfolding ux_mode_set
  mode_set-Completion b fsize mode l h m =
      Total-bind _ _ (Total-bounds b _ ux_sizeof (omega (arith, h.in_file, l)))
        λ _ _. Total-pure _ (has_mode h m (update_ux_checksum-IsCompleted b _ mode))

  -- Over firmware whose answers about its displays stay the same, and for a file of `fsize` bytes in a
  -- buffer that starts with a capsule header, whose sizes are below 2^32, `fwup_check_gop_for_ux_capsule` returns
  -- without a fault. It returns `EFI_INVALID_PARAMETER` if no UX header lies, behind a whole capsule
  -- header, within the image and the file; else `EFI_UNSUPPORTED` if no handle is given that can be
  -- opened; and else success, where the UX header has got the mode behind the first such handle and the
  -- checksum of its other bytes, and no other byte has changed.
  pub check_gop_for_ux_capsule-Completion :
      (b : Buffer) (fsize : ℕ)
      → capsule_sizeof ≤ fsize
      → fsize ≤ b.size
      → get32 b.byte capsule_header_size < 2 ^ 32
      → get32 b.byte capsule_image_size < 2 ^ 32
      → Total Any (check_gop_for_ux_capsule F image b fsize) (Completion b fsize)
  unfolding check_gop_for_ux_capsule
  check_gop_for_ux_capsule-Completion b fsize h k m n =
      let sizes = bad_header_size_iff b.byte fsize m n in
      Total-bind _ _ (Total-bounds b 0 capsule_sizeof (omega arith)) λ _ _.
        Total-if (bad_header_size b.byte fsize) _ _
          (λ t. Total-bind _ _ (fwup_log-Safe F _ _ _ _) λ _ _.
            Total-pure _
              (bad_size λ x. contrary t (sizes.1 (x.whole_header, x.in_image, x.in_file))))
          λ f. Total-bind _ _ (get_gop_mode-ShownMode shows) λ r s.
            Total-on_result r _ _
              (λ rc e. Total-pure _ (
                no_mode (header-HasUx b fsize sizes f)
                  (subst (λ q. ShownMode shows (mode_of q)) e s)))
              λ mode e.
                mode_set-Completion b fsize mode k (header-HasUx b fsize sizes f)
                  (subst (λ q. ShownMode shows (mode_of q)) e s)
