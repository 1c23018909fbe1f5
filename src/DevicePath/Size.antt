-- ===== src/DevicePath/Size.antt =====
-- `fwup_dp_size` against `PathAt`.
use fwupd_efi.Base.{
  ℕ, zero, suc, ◌+◌, ◌-◌, ◌≤◌, ◌<◌, ◌≡◌, ◌⊎◌, ◌↔◌, inl, inr, arith, Bool-cases, true, false, refl,
  sym, ap, ◌∙◌,
}
use native.Mathlib.Nat.{add_assoc}
use mathlib.Core.Path.{subst}
use fwupd_efi.Base.Int.{ℤ, pos, negsuc}
use fwupd_efi.Memory.{Buffer}
use fwupd_efi.Efi.{dp_node_length, dp_is_end}
use fwupd_efi.Firmware.Monad.{Checked, value}
use fwupd_efi.DevicePath.{dp_loop, dp_size}
use fwupd_efi.DevicePath.Spec.{PathAt, end_node, node, PathAt-first, PathAt-rest, PathAt-unique}

-- What the loop returns when the limit lies in the buffer: the length of a path that fits, or -1
-- where there is none.
data Outcome (m : ℕ → ℕ) (dp l ret : ℕ) : Checked ℤ → Type 0 where
  found :
      {n : ℕ} {r : Checked ℤ}
      → PathAt m dp n
      → n ≤ l
      → r ≡ value (pos (ret + n))
      → Outcome m dp l ret r
  none_fits :
      {r : Checked ℤ}
      → ((n : ℕ) → PathAt m dp n → n ≤ l → ⊥)
      → r ≡ value (negsuc 0)
      → Outcome m dp l ret r

-- A node fits the limit, or the loop gives up at it.
fits : (l len : ℕ) → ((l < 4) ⊎ ((len < 4) ⊎ (l < len))) ⊎ ((4 ≤ l) × (4 ≤ len) × (len ≤ l))
fits l len = grind arith

no_path : {l len n : ℕ} → (l < 4) ⊎ ((len < 4) ⊎ (l < len)) → (4 ≤ len) × (len ≤ n) → n ≤ l → ⊥
no_path bad first h = omega arith

extend_found :
    {m : ℕ → ℕ} {dp l ret : ℕ} {r : Checked ℤ}
    → 4 ≤ dp_node_length m dp
    → dp_node_length m dp ≤ l
    → dp_is_end m dp ≡ false
    → Outcome m (dp + dp_node_length m dp) (l - dp_node_length m dp) (ret + dp_node_length m dp) r
    → Outcome m dp l ret r
extend_found {m} {dp} {ret = ret} h5 h6 e (found {n = n} p h q) =
    found (node h5 e p refl) (omega arith)
      (q ∙ ap (λ k. value (pos k)) (add_assoc ret (dp_node_length m dp) n))
extend_found h5 h6 e (none_fits no_rest q) =
    none_fits (λ n p h. let (k, p', h') = PathAt-rest e p in no_rest k p' (omega arith)) q

extend :
    {m : ℕ → ℕ} (dp l ret : ℕ) {r s : Checked ℤ}
    → 4 ≤ dp_node_length m dp
    → dp_node_length m dp ≤ l
    → dp_is_end m dp ≡ false
    → r ≡ s
    → Outcome m (dp + dp_node_length m dp) (l - dp_node_length m dp) (ret + dp_node_length m dp) s
    → Outcome m dp l ret r
extend {m} dp l ret h5 h6 e q o = subst (Outcome m dp l ret) (sym q) (extend_found h5 h6 e o)

module _ (b : Buffer) where
  dp_loop-end :
      (fuel dp l ret : ℕ)
      → dp + l ≤ b.size
      → 4 ≤ l
      → 4 ≤ dp_node_length b.byte dp
      → dp_node_length b.byte dp ≤ l
      → dp_is_end b.byte dp ≡ true
      → dp_loop (suc fuel) b dp (pos l) (pos ret) ≡ value (pos (ret + dp_node_length b.byte dp))
  unfolding dp_loop
  dp_loop-end fuel dp l ret hb h4 h5 h6 he = ground arith

  dp_loop-next :
      (fuel dp l ret : ℕ)
      → dp + l ≤ b.size
      → 4 ≤ l
      → 4 ≤ dp_node_length b.byte dp
      → dp_node_length b.byte dp ≤ l
      → dp_is_end b.byte dp ≡ false
      → dp_loop (suc fuel) b dp (pos l) (pos ret)
        ≡ dp_loop fuel b
            (dp + dp_node_length b.byte dp)
            (pos (l - dp_node_length b.byte dp))
            (pos (ret + dp_node_length b.byte dp))
  unfolding dp_loop
  dp_loop-next fuel dp l ret hb h4 h5 h6 he = ground arith

  dp_loop-reject :
      (fuel dp l ret : ℕ)
      → dp + l ≤ b.size
      → (l < 4) ⊎ ((dp_node_length b.byte dp < 4) ⊎ (l < dp_node_length b.byte dp))
      → dp_loop (suc fuel) b dp (pos l) (pos ret) ≡ value (negsuc 0)
  unfolding dp_loop
  dp_loop-reject fuel dp l ret hb h = ground arith

  dp_loop-Outcome :
      (fuel dp l ret : ℕ)
      → dp + l ≤ b.size
      → l < fuel
      → Outcome b.byte dp l ret (dp_loop fuel b dp (pos l) (pos ret))
  dp_loop-Outcome zero dp l ret hb hf = elim hf [ ]
  dp_loop-Outcome (suc fuel) dp l ret hb hf = elim (fits l (dp_node_length b.byte dp)) [
    | inl bad ↦
        none_fits (λ n p h. no_path bad (PathAt-first p) h) (dp_loop-reject fuel dp l ret hb bad)
    | inr (h4, h5, h6) ↦ elim (Bool-cases (dp_is_end b.byte dp)) [
      | inl e ↦ found (end_node h5 e refl) h6 (dp_loop-end fuel dp l ret hb h4 h5 h6 e)
      | inr e ↦ extend dp l ret h5 h6 e (dp_loop-next fuel dp l ret hb h4 h5 h6 e) (
          dp_loop-Outcome fuel (dp + dp_node_length b.byte dp) (l - dp_node_length b.byte dp)
            (ret + dp_node_length b.byte dp) (omega arith) (omega arith))
    ]
  ]

  dp_size-Outcome : (dp l : ℕ) → dp + l ≤ b.size → Outcome b.byte dp l 0 (dp_size b dp (pos l))
  unfolding dp_size
  dp_size-Outcome dp l h = dp_loop-Outcome (suc l) dp l 0 h (omega arith)

found-n : {n k : ℕ} → value (pos (0 + n)) ≡ value (pos k) → n ≡ k
found-n h = ground arith

Outcome-iff :
    {m : ℕ → ℕ} {dp l : ℕ} {r : Checked ℤ} (n : ℕ)
    → Outcome m dp l 0 r
    → (r ≡ value (pos n)) ↔ (PathAt m dp n × (n ≤ l))
Outcome-iff {m} {dp} {l} n (found {n = k} p h q) = (
  (λ e. let e' : k ≡ n = found-n (sym q ∙ e) in (subst (PathAt m dp) e' p, omega arith)),
  λ t. let e' : k ≡ n = PathAt-unique p t.0 in q ∙ ap (λ j. value (pos j)) (omega arith),
)
Outcome-iff n (none_fits none_at q) = ((λ e. cc), λ t. absurd (none_at n t.0 t.1))

Outcome-total :
    {m : ℕ → ℕ} {dp l : ℕ} {r : Checked ℤ}
    → Outcome m dp l 0 r
    → ((n : ℕ) × (r ≡ value (pos n))) ⊎ (r ≡ value (negsuc 0))
Outcome-total (found {n = k} p h q) = inl (0 + k, q)
Outcome-total (none_fits none_at q) = inr q

module _ (b : Buffer) (dp l : ℕ) (h : dp + l ≤ b.size) where
  -- For `limit` bytes that lie in the buffer, `fwup_dp_size` returns `n` exactly if a device path of
  -- `n` bytes, its end node included, starts at `dp` and `n` is within the limit.
  pub dp_size_iff :
      (n : ℕ) → (dp_size b dp (pos l) ≡ value (pos n)) ↔ (PathAt b.byte dp n × (n ≤ l))
  dp_size_iff n = Outcome-iff n (dp_size-Outcome b dp l h)

  -- For `limit` bytes that lie in the buffer, `fwup_dp_size` ends, reads nothing outside the buffer,
  -- and returns a length that is not negative, or -1.
  pub dp_size-total :
      ((n : ℕ) × (dp_size b dp (pos l) ≡ value (pos n))) ⊎ (dp_size b dp (pos l) ≡ value (negsuc 0))
  dp_size-total = Outcome-total (dp_size-Outcome b dp l h)
