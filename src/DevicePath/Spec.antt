-- ===== src/DevicePath/Spec.antt =====
-- What a device path is: nodes of at least four bytes, each followed by the next, up to the first
-- end node.
use fwupd_efi.Base.{ℕ, ◌+◌, ◌≤◌, ◌≡◌, ◌∙◌, sym, true, false, arith}
use mathlib.Core.Path.{subst}
use fwupd_efi.Memory.{Buffer}
use fwupd_efi.Efi.{dp_node_length, dp_is_end, dp_type, dp_subtype}

-- From offset `dp` on, the memory holds a device path of `n` bytes.
pub data PathAt (m : ℕ → ℕ) : ℕ → ℕ → Type 0 where
  end_node :
      {dp n : ℕ}
      → 4 ≤ dp_node_length m dp
      → dp_is_end m dp ≡ true
      → n ≡ dp_node_length m dp
      → PathAt m dp n
  node :
      {dp k n : ℕ}
      → 4 ≤ dp_node_length m dp
      → dp_is_end m dp ≡ false
      → PathAt m (dp + dp_node_length m dp) k
      → n ≡ dp_node_length m dp + k
      → PathAt m dp n

pub PathAt-four_le : {m : ℕ → ℕ} {dp n : ℕ} → PathAt m dp n → 4 ≤ n
PathAt-four_le (end_node l e h) = omega arith
PathAt-four_le (node l e p h) = omega arith

-- The first node of a path, and what follows it.
pub PathAt-first :
    {m : ℕ → ℕ} {dp n : ℕ} → PathAt m dp n → (4 ≤ dp_node_length m dp) × (dp_node_length m dp ≤ n)
PathAt-first (end_node l e h) = omega arith
PathAt-first (node l e p h) = omega arith

pub PathAt-at_end :
    {m : ℕ → ℕ} {dp n : ℕ} → dp_is_end m dp ≡ true → PathAt m dp n → n ≡ dp_node_length m dp
PathAt-at_end t (end_node l e h) = h
PathAt-at_end t (node l e p h) = cc

pub PathAt-rest :
    {m : ℕ → ℕ} {dp n : ℕ}
    → dp_is_end m dp ≡ false
    → PathAt m dp n
    → (k : ℕ) × PathAt m (dp + dp_node_length m dp) k × (n ≡ dp_node_length m dp + k)
PathAt-rest t (end_node l e h) = cc
PathAt-rest t (node {k = k} l e p h) = (k, p, h)

-- The length of a path is determined by the memory.
pub PathAt-unique : {m : ℕ → ℕ} {dp n k : ℕ} → PathAt m dp n → PathAt m dp k → n ≡ k
PathAt-unique (end_node l e h) q = h ∙ sym (PathAt-at_end e q)
PathAt-unique (node l e p h) q =
    let (k', q', h') = PathAt-rest e q in omega (arith, PathAt-unique p q')

nodes_agree :
    (m k : ℕ → ℕ) (dp : ℕ)
    → ((j : ℕ) → dp ≤ j → k j ≡ m j)
    → (dp_node_length k dp ≡ dp_node_length m dp) × (dp_is_end k dp ≡ dp_is_end m dp)
unfolding dp_node_length dp_is_end dp_type dp_subtype
nodes_agree m k dp h = (
  simp (h (dp + 2) (omega arith), h (dp + 2 + 1) (omega arith)),
  simp (h dp (omega arith), h (dp + 1) (omega arith)),
)

-- A path depends on no byte before it.
pub PathAt-agree :
    {m : ℕ → ℕ} (k : ℕ → ℕ) {dp n : ℕ}
    → ((j : ℕ) → dp ≤ j → k j ≡ m j)
    → PathAt m dp n
    → PathAt k dp n
PathAt-agree {m} k {dp} h (end_node l e q) =
    let a = nodes_agree m k dp h in end_node (omega arith) (a.1 ∙ e) (omega arith)
PathAt-agree {m} k {dp} h (node {k = r} l e p q) =
    let a = nodes_agree m k dp h in
    node (omega arith) (a.1 ∙ e)
      (subst (λ d. PathAt k (dp + d) r) (sym a.0) (PathAt-agree k (λ j i. h j (omega arith)) p))
      (omega arith)

-- A device path lies in the buffer from `off` on.
abbrev pub PathIn : Buffer → ℕ → Type 0
PathIn b off = (n : ℕ) × PathAt b.byte off n × (off + n ≤ b.size)

-- The node at `x` is one of the path from `dp` on, before its end.
pub data NodeOf (m : ℕ → ℕ) : ℕ → ℕ → Type 0 where
  first_node : {dp : ℕ} → dp_is_end m dp ≡ false → NodeOf m dp dp
  later_node :
      {dp x : ℕ} → dp_is_end m dp ≡ false → NodeOf m (dp + dp_node_length m dp) x → NodeOf m dp x

pub NodeOf-le : {m : ℕ → ℕ} {dp x : ℕ} → NodeOf m dp x → dp ≤ x
NodeOf-le (first_node f) = omega arith
NodeOf-le (later_node f n) = omega (arith, NodeOf-le n)
