-- ===== src/Selftest/GetPass.antt =====
-- The tests of `fwup_get_variable` pass.
use fwupd_efi.Base.{
  ℕ, ◌≤◌, ◌≡◌, refl, sym, ap, ◌∙◌, arith, not, true, none, some, length, same, codes, ◌==◌,
}
use mathlib.Core.Path.{subst}
use fwupd_efi.Memory.{bytes_at, byte_of}
use fwupd_efi.Efi.{success, not_found, fwupdate_guid, Result, ok, err}
use fwupd_efi.Firmware.Calls.{free_pool}
use fwupd_efi.Firmware.Monad.{fail, assertion, on_result, ◌>>=◌}
use fwupd_efi.Firmware.Store.{Stored}
use fwupd_efi.Firmware.Reaches.{
  Reaches-bind, Reaches-given, Reaches-post, Reaches-deref, Reaches-bounds, Reaches-Keeps,
}
use fwupd_efi.Debug.Total.{free_pool-Safe}
use fwupd_efi.Variable.{Variable, is_some}
use fwupd_efi.Variable.Copy.{Reads, IsCopy, CanFail}
use fwupd_efi.Harness.{Libc}
use fwupd_efi.Selftest.{assert, MockVars, initial_vars, test_services, status_of}
use fwupd_efi.Selftest.Pass.{Passes}
use fwupd_efi.Selftest.Ready.{
  IsRoomy, Ready, With, assert-Passes, With-logging, mock_init-With, set_mock-With, Ready-again,
}
use fwupd_efi.Selftest.Readable.{mock_get-Reads, stored}
use fwupd_efi.Selftest.Variables.{
  check_copy, test_get_variable_success, test_get_variable_not_found, four_bytes, buf_of,
}
use fwupd_efi.Selftest.VariablesPass.{with_status, set_status-With, equal_test}

module _ (L : Libc) (roomy : IsRoomy L) where
  no_failure : (size : ℕ) → size ≤ 4096 → CanFail (test_services L) size → ⊥
  no_failure size h (s, e) = roomy.malloc_some s.1.1 size h e

  -- What is there is read, since memory does not run out.
  pub was_read :
      (x : Stored) (r : Result Variable)
      → length x.bytes ≤ 4096
      → Reads (test_services L) (some x) r
      → (v : Variable) × (r ≡ ok v) × IsCopy x v
  was_read x (ok v) h k = (v, refl, k)
  was_read x (err rc) h k = absurd (no_failure (length x.bytes) h k.1)

  abbrev four : MockVars
  four = record initial_vars { bytes = byte_of four_bytes; size = 4; attrs = 1; status = success }

  free-With : (addr : ℕ) → Passes (With L four) (free_pool (test_services L) addr)
  free-With addr =
      Reaches-post _ (λ a w h. h.1)
        (Reaches-Keeps _ (free_pool-Safe (test_services L) addr)
          ((With-logging L four).reading.freeing addr))

  same_four : same four_bytes four_bytes ≡ true
  unfolding same
  same_four = refl

  copied-Passes : (v : Variable) → IsCopy (stored four) v → Passes (With L four) (check_copy L v)
  unfolding check_copy
  copied-Passes v c = Reaches-bind _ _ (assert-Passes _ (equal_test c.size)) λ _.
      Reaches-bind _ _ (assert-Passes _ (equal_test c.attrs)) λ _. Reaches-deref _ _ _ c.in_buffer (
        Reaches-bind _ _ (Reaches-bounds c.buffer 0 4 (omega (arith, c.room, c.size))) λ _.
          Reaches-bind _ _ (assert-Passes _ (ap (λ b. same b four_bytes) four_copied ∙ same_four))
            λ _. free-With c.buffer.addr)
    where
      four_copied : bytes_at c.buffer.byte 0 4 ≡ four_bytes
      four_copied = subst (λ n. bytes_at c.buffer.byte 0 n ≡ four_bytes) c.size c.bytes

  pub get-Passes :
      Passes (Ready L) (test_get_variable_success L)
      × Passes (Ready L) (test_get_variable_not_found L)
  unfolding test_get_variable_success test_get_variable_not_found
  get-Passes = (
    Reaches-bind _ _ (mock_init-With L) (λ _. Reaches-bind _ _ (set_mock-With L initial_vars _) λ _.
        Ready-again L _ (
          Reaches-bind _ _
            (mock_get-Reads L (codes "test") fwupdate_guid roomy.malloc_size four
              (some (stored four)) (refl, refl))
            λ r.
              Reaches-given _ (λ w h. h) λ k. found r (was_read (stored four) r (omega arith) k))),
    Reaches-bind _ _ (mock_init-With L) (λ _. Reaches-bind _ _ (set_status-With L not_found) λ _.
        Ready-again L _ (
          Reaches-bind _ _
            (mock_get-Reads L (codes "test") fwupdate_guid roomy.malloc_size (with_status not_found)
              none refl)
            λ r. Reaches-given _ (λ w h. h) λ k. absent r k)),
  )
    where
      found :
          (r : Result Variable)
          → ((v : Variable) × (r ≡ ok v) × IsCopy (stored four) v)
          → Passes (With L four) (
              assert (status_of r == success) >>= λ _.
              on_result r (λ rc. fail assertion) (check_copy L))
      found r (v, e, c) =
          subst
            (λ r. Passes (With L four) (
              assert (status_of r == success) >>= λ _.
              on_result r (λ rc. fail assertion) (check_copy L)))
            (sym e) (Reaches-bind _ _ (assert-Passes _ refl) λ _. copied-Passes v c)

      absent :
          (r : Result Variable)
          → Reads (test_services L) none r
          → Passes (With L (with_status not_found)) (
              assert (status_of r == not_found) >>= λ _.
              assert (not (is_some (test_services L) (buf_of r))))
      absent (ok v) k = absurd k
      absent (err rc) k =
          Reaches-bind _ _ (assert-Passes _ (equal_test k)) λ _. assert-Passes _ refl
