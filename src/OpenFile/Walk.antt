-- ===== src/OpenFile/Walk.antt =====
-- The walk of `fwup_search_file` over a copy of a device path, and the steps on the path itself.
use fwupd_efi.Base.{
  ℕ, zero, suc, ◌+◌, ◌≤◌, ◌<◌, ◌≡◌, ◌∙◌, ap, arith, true, false, Bool-cases, inl, inr,
}
use fwupd_efi.Memory.{Buffer}
use fwupd_efi.Efi.{dp_node_length, dp_is_end, dp_is_file, dp_type, dp_subtype}
use fwupd_efi.Firmware.Monad.{Checked, value}
use fwupd_efi.DevicePath.Spec.{
  PathAt, PathIn, end_node, node, NodeOf, first_node, later_node, NodeOf-le,
}
use fwupd_efi.OpenFile.{Found, file_node, path_end, find_file_node, skip_nodes}
use fwupd_efi.OpenFile.Path.{find-at_end, find-at_file, find-next, skip-none, skip-one}

-- From `e` on, `k` holds the `n` bytes that `m` holds from `dp` on.
abbrev pub IsCopied : (ℕ → ℕ) → (ℕ → ℕ) → ℕ → ℕ → ℕ → Type 0
IsCopied k m e dp n = (j i : ℕ) → dp ≤ i → i < dp + n → j + dp ≡ i + e → k j ≡ m i

-- A node that was copied is the same node.
record SameNode (k m : ℕ → ℕ) (e dp : ℕ) : Type 0 where
  same_length : dp_node_length k e ≡ dp_node_length m dp
  same_end : dp_is_end k e ≡ dp_is_end m dp
  same_file : dp_is_file k e ≡ dp_is_file m dp

copied-SameNode : (k m : ℕ → ℕ) (e dp n : ℕ) → 4 ≤ n → IsCopied k m e dp n → SameNode k m e dp
unfolding dp_node_length dp_is_end dp_is_file dp_type dp_subtype
copied-SameNode k m e dp n h c = record {
  same_length = simp (byte2, byte3);
  same_end = simp (byte0, byte1);
  same_file = simp (byte0, byte1);
}
  where
    byte0 : k e ≡ m dp
    byte0 = c e dp (omega arith) (omega arith) (omega arith)

    byte1 : k (e + 1) ≡ m (dp + 1)
    byte1 = c (e + 1) (dp + 1) (omega arith) (omega arith) (omega arith)

    byte2 : k (e + 2) ≡ m (dp + 2)
    byte2 = c (e + 2) (dp + 2) (omega arith) (omega arith) (omega arith)

    byte3 : k (e + 2 + 1) ≡ m (dp + 2 + 1)
    byte3 = c (e + 2 + 1) (dp + 2 + 1) (omega arith) (omega arith) (omega arith)

-- The first file node of the path is at `rest`, and at `off` in the copy, which starts at `e`.
pub record FirstFile (file : Buffer) (dp e off rest : ℕ) : Type 0 where
  pub same_place : off + dp ≡ rest + e
  pub on_path : NodeOf file.byte dp rest
  pub is_file : dp_is_file file.byte rest ≡ true
  pub is_first : (x : ℕ) → NodeOf file.byte dp x → x < rest → dp_is_file file.byte x ≡ false

-- What the walk over the copy finds: a file node to which the counted steps lead on the path itself,
-- where a part of the path starts, or the end.
pub data Walked (file : Buffer) (dp e count : ℕ) (r : Checked Found) : Type 0 where
  to_file :
      (off k rest : ℕ)
      → r ≡ value (file_node off (count + k))
      → skip_nodes k file dp ≡ value rest
      → PathIn file rest
      → FirstFile file dp e off rest
      → Walked file dp e count r
  to_end :
      r ≡ value path_end
      → ((x : ℕ) → NodeOf file.byte dp x → dp_is_file file.byte x ≡ false)
      → Walked file dp e count r

module _ (file copy : Buffer) where
  -- The first node is a file node, or the first one of the rest of the path is meant.
  here-FirstFile :
      (dp e : ℕ)
      → dp_is_end file.byte dp ≡ false
      → dp_is_file file.byte dp ≡ true
      → FirstFile file dp e e dp
  here-FirstFile dp e t f = record {
    same_place = omega arith;
    on_path = first_node t;
    is_file = f;
    is_first = λ x n l. absurd (omega (arith, NodeOf-le n, l));
  }

  not_first :
      (dp rest x : ℕ)
      → dp_is_file file.byte dp ≡ false
      → ((y : ℕ)
          → NodeOf file.byte (dp + dp_node_length file.byte dp) y
          → y < rest
          → dp_is_file file.byte y ≡ false)
      → NodeOf file.byte dp x
      → x < rest
      → dp_is_file file.byte x ≡ false
  not_first dp rest x f k (first_node t) l = f
  not_first dp rest x f k (later_node t n) l = k x n l

  no_file :
      (dp : ℕ)
      → dp_is_file file.byte dp ≡ false
      → ((x : ℕ)
          → NodeOf file.byte (dp + dp_node_length file.byte dp) x
          → dp_is_file file.byte x ≡ false)
      → (x : ℕ) → NodeOf file.byte dp x
      → dp_is_file file.byte x ≡ false
  no_file dp f k x (first_node t) = f
  no_file dp f k x (later_node t n) = k x n

  no_node :
      (dp : ℕ)
      → dp_is_end file.byte dp ≡ true
      → (x : ℕ) → NodeOf file.byte dp x
      → dp_is_file file.byte x ≡ false
  no_node dp t x (first_node f) = cc
  no_node dp t x (later_node f n) = cc

  later-FirstFile :
      {off rest : ℕ} (dp e n : ℕ)
      → dp_is_end file.byte dp ≡ false
      → dp_is_file file.byte dp ≡ false
      → n ≡ dp_node_length file.byte dp
      → FirstFile file (dp + dp_node_length file.byte dp) (e + n) off rest
      → FirstFile file dp e off rest
  later-FirstFile {off} {rest} dp e n t f q k = record {
    same_place = omega (arith, k.same_place, q);
    on_path = later_node t k.on_path;
    is_file = k.is_file;
    is_first = λ x m l. not_first dp rest x f k.is_first m l;
  }

  step :
      {r s : Checked Found} (dp e n count : ℕ)
      → dp + 4 ≤ file.size
      → dp_is_end file.byte dp ≡ false
      → dp_is_file file.byte dp ≡ false
      → n ≡ dp_node_length file.byte dp
      → r ≡ s
      → Walked file (dp + dp_node_length file.byte dp) (e + n) (count + 1) s
      → Walked file dp e count r
  step dp e n count h t f l q (to_file off k rest g i p d) =
      to_file off (suc k) rest (q ∙ g ∙ ap (λ c. value (file_node off c)) (omega arith))
        (skip-one file k dp h ∙ i) p (later-FirstFile dp e n t f l d)
  step dp e n count h t f l q (to_end g k) = to_end (q ∙ g) (no_file dp f k)

  pub find_file_node-Walked :
      (fuel dp e n count : ℕ)
      → PathAt file.byte dp n
      → dp + n ≤ file.size
      → e + n ≤ copy.size
      → IsCopied copy.byte file.byte e dp n
      → n < fuel
      → Walked file dp e count (find_file_node fuel copy e count)
  find_file_node-Walked zero dp e n count p h i c l = elim l [ ]
  find_file_node-Walked (suc fuel) dp e n count (end_node h4 t q) h i c l =
      let s = copied-SameNode copy.byte file.byte e dp n (omega (arith, h4, q)) c in
      to_end (find-at_end copy fuel e count (omega (arith, h4, q, i)) (s.same_end ∙ t))
        (no_node dp t)
  find_file_node-Walked (suc fuel) dp e n count (node {k = m} h4 t p q) h i c l =
      let s = copied-SameNode copy.byte file.byte e dp n (omega (arith, h4, q)) c in
      elim (Bool-cases (dp_is_file file.byte dp)) [
        | inl f ↦
            to_file e 0 dp
              (find-at_file copy fuel e count (omega (arith, h4, q, i)) (s.same_end ∙ t)
                (s.same_file ∙ f))
              (skip-none file dp) (n, node h4 t p q, h) (here-FirstFile dp e t f)
        | inr f ↦
            step dp e (dp_node_length copy.byte e) count (omega (arith, h4, q, h)) t f s.same_length
              (find-next copy fuel e count (omega (arith, h4, q, i)) (s.same_end ∙ t)
                (s.same_file ∙ f))
              (find_file_node-Walked fuel (dp + dp_node_length file.byte dp)
                (e + dp_node_length copy.byte e) m (count + 1) p (omega (arith, q, h))
                (omega (arith, q, i, s.same_length))
                (λ j i a b d.
                  c j i (omega (arith, a)) (omega (arith, b, q)) (omega (arith, d, s.same_length)))
                (omega (arith, l, q, h4)))
      ]
