-- ===== src/Update/Fits.antt =====
-- The tests of sizes in `fwup_populate_update_info`, against the device path in the variable.
use fwupd_efi.Base.{
  ℕ, ◌-◌, ◌^◌, ◌≤◌, ◌<◌, ◌≡◌, ◌≢◌, inl, inr, arith, true, false, ap, sym, ◌∙◌, Bool-cases,
}
use mathlib.Core.Path.{subst}
use fwupd_efi.Base.Int.{ℤ, pos, negsuc, to_intn, to_intn-small, ltb_ℤ}
use fwupd_efi.Memory.{Buffer}
use fwupd_efi.Efi.{info_dp}
use fwupd_efi.Firmware.Monad.{value}
use fwupd_efi.DevicePath.{dp_size}
use fwupd_efi.DevicePath.Spec.{PathAt}
use fwupd_efi.DevicePath.Size.{dp_size_iff, dp_size-total}
use fwupd_efi.Update.{sub64, too_small, no_room, bad_path}

-- The room for the path.
pub room :
    (size : ℕ) → 52 ≤ size → size < 2 ^ 63 → to_intn (sub64 size info_dp) ≡ pos (size - info_dp)
room size h k = ap to_intn (omega arith) ∙ to_intn-small (size - info_dp) (omega arith)

bad_path-pos :
    (size n : ℕ)
    → size < 2 ^ 63
    → 52 ≤ size
    → bad_path size (pos (size - info_dp)) (pos n) ≡ false
    → n ≡ size - info_dp
unfolding bad_path
bad_path-pos size n h k e = ground arith

good_path :
    (size : ℕ) → size < 2 ^ 63 → bad_path size (pos (size - info_dp)) (pos (size - info_dp)) ≡ false
unfolding bad_path
good_path size h = ground arith

bad_path-negsuc : (size : ℕ) (is : ℤ) → bad_path size is (negsuc 0) ≡ true
unfolding bad_path
bad_path-negsuc size is = ground arith

-- What the tests on the length of the path say of it.
pub data Tested (b : Buffer) (size : ℕ) (is : ℤ) : Type 0 where
  fits :
      dp_size b info_dp is ≡ value is
      → bad_path size is is ≡ false
      → PathAt b.byte info_dp (size - info_dp)
      → Tested b size is
  misfits :
      (sz : ℤ)
      → dp_size b info_dp is ≡ value sz
      → bad_path size is sz ≡ true
      → (PathAt b.byte info_dp (size - info_dp) → ⊥)
      → Tested b size is

misfit :
    (b : Buffer) (size n : ℕ)
    → size ≤ b.size
    → 52 ≤ size
    → dp_size b info_dp (pos (size - info_dp)) ≡ value (pos n)
    → n ≢ size - info_dp
    → PathAt b.byte info_dp (size - info_dp)
    → ⊥
misfit b size n h k e d p = d (
    value-pos (
      sym e
      ∙ (dp_size_iff b info_dp (size - info_dp) (omega arith) (size - info_dp)).1 (p, omega arith)))
  where
    value-pos : {i j : ℕ} → value (pos i) ≡ value (pos j) → i ≡ j
    value-pos q = ground arith

pub tested :
    (b : Buffer) (size : ℕ)
    → size ≤ b.size
    → 60 < size
    → size < 2 ^ 63
    → Tested b size (pos (size - info_dp))
tested b size h l k = elim (dp_size-total b info_dp (size - info_dp) (omega arith)) [
  | inr e ↦ misfits (negsuc 0) e (bad_path-negsuc size _) λ p. fault_path (
      sym e
      ∙ (dp_size_iff b info_dp (size - info_dp) (omega arith) (size - info_dp)).1 (p, omega arith))
  | inl (n, e) ↦ elim (Bool-cases (bad_path size (pos (size - info_dp)) (pos n))) [
    | inl t ↦ misfits (pos n) e t (
        misfit b size n h (omega arith) e λ q.
          differs
            (sym t ∙ ap (λ m. bad_path size (pos (size - info_dp)) (pos m)) q ∙ good_path size k))
    | inr f ↦ whole n e (bad_path-pos size n k (omega arith) f)
  ]
]
  where
    fault_path : {m : ℕ} → value (negsuc 0) ≡ value (pos m) → ⊥
    fault_path q = cc

    differs : true ≡ false → ⊥
    differs q = cc

    whole :
        (n : ℕ)
        → dp_size b info_dp (pos (size - info_dp)) ≡ value (pos n)
        → n ≡ size - info_dp
        → Tested b size (pos (size - info_dp))
    whole n e q = fits (e ∙ ap (λ m. value (pos m)) q) (good_path size k) (
        subst (λ m. PathAt b.byte info_dp m) q
          ((dp_size_iff b info_dp (size - info_dp) (omega arith) n).0 e).0)

pub too_small-large : (size : ℕ) → too_small size ≡ true → 60 < size → ⊥
unfolding too_small
too_small-large size h k = ground arith

pub no_room-large :
    (size : ℕ) → size < 2 ^ 63 → too_small size ≡ false → no_room size ≡ true → 60 < size → ⊥
unfolding too_small no_room
no_room-large size l h e k = ground arith

pub large : (size : ℕ) → size < 2 ^ 63 → too_small size ≡ false → no_room size ≡ false → 60 < size
unfolding too_small no_room
large size l h k = ground arith

pub dp_room : (size : ℕ) → size < 2 ^ 63 → 60 < size → ltb_ℤ (to_intn size) (pos info_dp) ≡ true → ⊥
dp_room size h k e = ground arith
