-- ===== src/Selftest/ValidPass.antt =====
-- The test of a valid variable passes.
use fwupd_efi.Base.{
  ℕ, zero, suc, ◌+◌, ◌*◌, ◌<◌, ◌≡◌, refl, ap, arith, true, Option, none, some, codes, ◌==◌,
}
use mathlib.Core.Path.{subst}
use fwupd_efi.Memory.{Buffer, bytes_at}
use fwupd_efi.Efi.{Name, success, dp_node_length, dp_is_end, dp_type, dp_subtype}
use fwupd_efi.DevicePath.Spec.{PathAt, end_node, node}
use fwupd_efi.Firmware.Services.{Services}
use fwupd_efi.Firmware.Monad.{M, World, ◌>>◌}
use fwupd_efi.Firmware.Reaches.{
  Reaches, Reaches-bind, Reaches-given, Reaches-post, Reaches-deref, Reaches-bounds, Reaches-Keeps,
  Reaches-then,
}
use fwupd_efi.Variable.{cleanup_free, is_some}
use fwupd_efi.Update.{Update, free_info, free_name}
use fwupd_efi.Update.Keeps.{free_info-Keeps, free_name-Keeps}
use fwupd_efi.Update.Table.{free_info-Safe, free_name-Safe}
use fwupd_efi.Update.Valid.{HoldsPath, Outcome, CanFailCopy, accepted, no_memory, rejected}
use fwupd_efi.Harness.{Libc, no_byte, copied}
use fwupd_efi.Harness.FuzzUpdateInfo.{zero_update}
use fwupd_efi.Selftest.{
  MockVars, initial_vars, TestState, test_services, assert, build_dp_end, build_dp_node,
}
use fwupd_efi.Selftest.Pass.{Passes}
use fwupd_efi.Selftest.Ready.{
  IsRoomy, Ready, With, assert-Passes, calloc-then, calloc-With, cleanup-Ready, With-logging,
  mock_init-With, set_mock-With, Ready-again,
}
use fwupd_efi.Selftest.VariablesPass.{equal_test}
use fwupd_efi.Selftest.Populated.{Checked, populate-Checked}
use fwupd_efi.Selftest.InfoPass.{held_info}
use fwupd_efi.Selftest.Info.{set_info, populate_test, test_populate_info_valid, total}

-- Memory with the same bytes.
same_byte :
    (m k : ℕ → ℕ) (n off : ℕ)
    → bytes_at m off n ≡ bytes_at k off n
    → (j i : ℕ) → j < n
    → i ≡ off + j
    → m i ≡ k i
same_byte m k zero off e j i h q = absurd (omega (arith, h))
same_byte m k (suc n) off e zero i h q =
    let first : m off ≡ k off = cc in
    let at : off ≡ i = omega (arith, q) in subst (λ i. m i ≡ k i) at first
same_byte m k (suc n) off e (suc j) i h q =
    let rest : bytes_at m (off + 1) n ≡ bytes_at k (off + 1) n = cc in
    same_byte m k n (off + 1) rest j i (omega (arith, h)) (omega (arith, q))

-- The variable of the test.
abbrev valid_bytes : ℕ → ℕ
valid_bytes = build_dp_end (build_dp_node no_byte 52 0x01 0x01 8) 60

end_path : (k : ℕ → ℕ) → ((j : ℕ) → j < 64 → k j ≡ valid_bytes j) → PathAt k 60 4
unfolding dp_node_length dp_is_end dp_type dp_subtype
end_path k h = end_node (omega (arith, k62, k63)) (simp (k60, k61)) (omega (arith, k62, k63))
  where
    k60 : k 60 ≡ 127
    k60 = h 60 (omega arith)

    k61 : k 61 ≡ 255
    k61 = h 61 (omega arith)

    k62 : k 62 ≡ 4
    k62 = h 62 (omega arith)

    k63 : k 63 ≡ 0
    k63 = h 63 (omega arith)

valid_path : (k : ℕ → ℕ) → ((j : ℕ) → j < 64 → k j ≡ valid_bytes j) → PathAt k 52 12
unfolding dp_node_length dp_is_end dp_type dp_subtype
valid_path k h =
    node {k = 4} (omega (arith, k54, k55)) (simp (k52, k53))
      (subst (λ i. PathAt k i 4) next (end_path k h)) (omega (arith, k54, k55))
  where
    k52 : k 52 ≡ 1
    k52 = h 52 (omega arith)

    k53 : k 53 ≡ 1
    k53 = h 53 (omega arith)

    k54 : k 54 ≡ 8
    k54 = h 54 (omega arith)

    k55 : k 55 ≡ 0
    k55 = h 55 (omega arith)

    next : 60 ≡ 52 + dp_node_length k 52
    next = omega (arith, k54, k55)

not_copied : (name : Name) (o : Option Buffer) → copied name o ≡ none → o ≡ none
not_copied name none e = refl
not_copied name (some b) e = ground arith

module _ (L : Libc) (roomy : IsRoomy L) where
  abbrev F : Services
  F = test_services L

  abbrev valid : MockVars
  valid = record (held_info L roomy valid_bytes 64) { attrs = 3 }

  copy_given : CanFailCopy F (codes "test") → ⊥
  copy_given (s, e) =
      roomy.malloc_some s.1.1 (5 * L.wchar_size) (omega (arith, roomy.wchar_small))
        (not_copied (codes "test") _ e)

  -- What the test finds in the entry.
  record Valid (p : Update × ℕ) : Type 0 where
    was_success : p.1 ≡ success
    has_info : is_some F p.0.info ≡ true
    has_name : is_some F p.0.name ≡ true
    has_size : p.0.size ≡ 64

  checked-Valid : (p : Update × ℕ) → Checked L roomy valid p → Valid p
  checked-Valid p c = by_outcome p c.outcome
    where
      holds : HoldsPath c.buffer 64
      holds = record {
        large = omega arith;
        path =
            valid_path c.buffer.byte
              (λ j h. same_byte c.buffer.byte valid_bytes 64 0 c.bytes j j h (omega arith));
      }

      by_outcome :
          (p : Update × ℕ)
          → Outcome
              (CanFailCopy F (codes "test"))
              (record { buf = some c.buffer; size = 64; attrs = c.attrs })
              c.buffer
              zero_update
              p
          → Valid p
      by_outcome p (accepted k t e) = record {
        was_success = refl;
        has_info = ap (is_some F) k.info_taken;
        has_name = ap (is_some F) e;
        has_size = k.size_taken;
      }
      by_outcome p (no_memory k e d) = absurd (copy_given d)
      by_outcome p (rejected n) = absurd (n holds)

  -- What the test asserts of the entry, and that it frees the entry and the buffer.
  abbrev tail : Option Buffer → Update × ℕ → M (World (TestState L)) (Unit {0})
  tail o p =
      assert (p.1 == success)
      >> (assert (is_some F p.0.info)
          >> (assert (is_some F p.0.name)
              >> (assert (p.0.size == total L)
                  >> (free_info F p.0.info >> (free_name F p.0.name >> cleanup_free F o)))))

  tail-Passes :
      (o : Option Buffer) (p : Update × ℕ)
      → Valid p
      → Reaches (With L valid) (tail o p) (λ _. Ready L)
  tail-Passes o p k = Reaches-bind _ _ (assert-Passes _ (equal_test k.was_success)) λ _.
      Reaches-bind _ _ (assert-Passes _ k.has_info) λ _.
        Reaches-bind _ _ (assert-Passes _ k.has_name) λ _.
          Reaches-bind _ _ (assert-Passes _ (equal_test k.has_size)) λ _.
            Reaches-then _ _ (free_info-Safe F p.0.info)
              (free_info-Keeps F (With-logging L valid) p.0.info)
              λ _.
                Reaches-bind _ _
                  (Ready-again L _ (
                    Reaches-post _ (λ a w h. h.1)
                      (Reaches-Keeps _ (free_name-Safe F p.0.name)
                        (free_name-Keeps F (With-logging L valid) p.0.name))))
                  λ _. cleanup-Ready L o

  pub valid-Passes : Passes (Ready L) (test_populate_info_valid L)
  unfolding test_populate_info_valid populate_test set_info
  valid-Passes = Reaches-bind _ _ (mock_init-With L) λ _.
      calloc-then L roomy 1 64 _ (omega arith) (calloc-With L initial_vars 1 64) λ addr.
        Reaches-deref _ _ _ refl (
          Reaches-bind _ _ (Reaches-bounds _ 52 12 (omega arith)) λ _.
            Reaches-bind _ _ (set_mock-With L initial_vars _) λ _.
              Reaches-bind _ _ (set_mock-With L (held_info L roomy valid_bytes 64) _) λ _.
                Reaches-bind _ _ (populate-Checked L roomy valid refl (omega arith))
                  λ p. Reaches-given _ (λ w k. k) λ c. tail-Passes _ p (checked-Valid p c))
