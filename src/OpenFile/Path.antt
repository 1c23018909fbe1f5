-- ===== src/OpenFile/Path.antt =====
-- The walk of `fwup_search_file` to the file node, and the size of the name in it.
use fwupd_efi.Base.{
  ℕ, zero, suc, ◌+◌, ◌*◌, ◌-◌, ◌/◌, ◌^◌, ◌≤◌, ◌<◌, ◌≡◌, ◌↔◌, ◌∙◌, ap, refl, arith, true, false,
  Bool-cases, inl, inr,
}
use fwupd_efi.Memory.{Buffer, get16}
use fwupd_efi.Efi.{dp_node_length, dp_is_end, dp_is_file}
use fwupd_efi.Firmware.Monad.{Checked, value}
use fwupd_efi.DevicePath.Spec.{PathAt, end_node, node}
use fwupd_efi.OpenFile.{
  Found, file_node, path_end, find_file_node, skip_nodes, filename_size, bad_filename_size,
  path_fuel,
}

-- What the walk finds on a path of `n` bytes from `dp` on, with `count` nodes before it: a whole file
-- node, which the loop over the original path reaches too, or the end.
pub data FoundAt (b : Buffer) (dp n count : ℕ) (r : Checked Found) : Type 0 where
  file_at :
      (off k : ℕ)
      → r ≡ value (file_node off (count + k))
      → skip_nodes k b dp ≡ value off
      → dp_is_file b.byte off ≡ true
      → off + dp_node_length b.byte off ≤ dp + n
      → FoundAt b dp n count r
  no_file : r ≡ value path_end → FoundAt b dp n count r

module _ (b : Buffer) where
  pub find-at_end :
      (fuel dp count : ℕ)
      → dp + 4 ≤ b.size
      → dp_is_end b.byte dp ≡ true
      → find_file_node (suc fuel) b dp count ≡ value path_end
  unfolding find_file_node
  find-at_end fuel dp count h e = ground arith

  pub find-at_file :
      (fuel dp count : ℕ)
      → dp + 4 ≤ b.size
      → dp_is_end b.byte dp ≡ false
      → dp_is_file b.byte dp ≡ true
      → find_file_node (suc fuel) b dp count ≡ value (file_node dp (count + 0))
  unfolding find_file_node
  find-at_file fuel dp count h e f = ground arith

  pub find-next :
      (fuel dp count : ℕ)
      → dp + 4 ≤ b.size
      → dp_is_end b.byte dp ≡ false
      → dp_is_file b.byte dp ≡ false
      → find_file_node (suc fuel) b dp count
        ≡ find_file_node fuel b (dp + dp_node_length b.byte dp) (count + 1)
  unfolding find_file_node
  find-next fuel dp count h e f = ground arith

  pub skip-none : (dp : ℕ) → skip_nodes 0 b dp ≡ value dp
  unfolding skip_nodes
  skip-none dp = refl

  pub skip-one :
      (k dp : ℕ)
      → dp + 4 ≤ b.size
      → skip_nodes (suc k) b dp ≡ skip_nodes k b (dp + dp_node_length b.byte dp)
  unfolding skip_nodes
  skip-one k dp h = ground arith

  extend :
      {r s : Checked Found} (dp n m count : ℕ)
      → dp + 4 ≤ b.size
      → n ≡ dp_node_length b.byte dp + m
      → r ≡ s
      → FoundAt b (dp + dp_node_length b.byte dp) m (count + 1) s
      → FoundAt b dp n count r
  extend dp n m count h e q (file_at off k f g t l) =
      file_at off (suc k) (q ∙ f ∙ ap (λ c. value (file_node off c)) (omega arith))
        (skip-one k dp h ∙ g) t (omega arith)
  extend dp n m count h e q (no_file f) = no_file (q ∙ f)

  find_file_node-FoundAt :
      (fuel dp n count : ℕ)
      → PathAt b.byte dp n
      → dp + n ≤ b.size
      → n < fuel
      → FoundAt b dp n count (find_file_node fuel b dp count)
  find_file_node-FoundAt zero dp n count p h l = elim l [ ]
  find_file_node-FoundAt (suc fuel) dp n count (end_node h4 e q) h l =
      no_file (find-at_end fuel dp count (omega arith) e)
  find_file_node-FoundAt (suc fuel) dp n count (node {k = m} h4 e p q) h l =
      elim (Bool-cases (dp_is_file b.byte dp)) [
        | inl f ↦
            file_at dp 0 (find-at_file fuel dp count (omega arith) e f) (skip-none dp) f
              (omega arith)
        | inr f ↦ extend dp n m count (omega arith) q (find-next fuel dp count (omega arith) e f) (
            find_file_node-FoundAt fuel (dp + dp_node_length b.byte dp) m (count + 1) p
              (omega arith) (omega arith))
      ]

-- On a device path that lies in the copied buffer, the walk of `fwup_search_file` ends within its
-- fuel and reads nothing outside the buffer. It finds the end of the path, or a file node that lies
-- in the path as a whole, and then going on by the counted nodes leads to the same node.
pub find_file_node-total :
    (b : Buffer) (n : ℕ)
    → PathAt b.byte 0 n
    → n ≤ b.size
    → FoundAt b 0 n 0 (find_file_node (path_fuel b) b 0 0)
find_file_node-total b n p h =
    find_file_node-FoundAt b (path_fuel b) 0 n 0 p (omega arith) (omega arith)

-- For a length field of sixteen bits, `fwup_open_file` accepts the size of the file name exactly if
-- the node holds from 4 to 1024 whole units behind its header; a node shorter than its header is
-- rejected.
pub bad_filename_size_iff :
    (m : ℕ → ℕ) (dp : ℕ)
    → get16 m (dp + 2) < 2 ^ 16
    → (bad_filename_size (filename_size m dp) ≡ false)
      ↔ ((n : ℕ) × (get16 m (dp + 2) ≡ 4 + 2 * n) × (4 ≤ n) × (n ≤ 1024))
unfolding bad_filename_size filename_size
bad_filename_size_iff m dp h = (
  (λ e. ((get16 m (dp + 2) - 4) / 2, ground arith, ground arith, ground arith)),
  λ (n, e, l, u). ground arith,
)
