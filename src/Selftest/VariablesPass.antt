-- ===== src/Selftest/VariablesPass.antt =====
-- The tests of `fwup_delete_variable` and `fwup_get_variable` pass.
use fwupd_efi.Base.{ℕ, ◌≡◌, refl, sym, ap, ◌∙◌, true, false, not, codes, ◌==◌, ==_iff}
use mathlib.Core.Path.{subst}
use fwupd_efi.Efi.{success, not_found, unsupported, buffer_too_small, fwupdate_guid, efi_error}
use fwupd_efi.Firmware.Monad.{World, gets, ◌>>=◌}
use fwupd_efi.Firmware.Reaches.{Reaches, Reaches-bind, Reaches-pure, Reaches-given}
use fwupd_efi.Debug.{fwup_log, delete_variable}
use fwupd_efi.Variable.{delete_after, delete_variable_with}
use fwupd_efi.Variable.Logged.{log-then}
use fwupd_efi.Harness.{Libc}
use fwupd_efi.Firmware.Services.{Services}
use fwupd_efi.Selftest.{mock_init}
use fwupd_efi.Selftest.{MockVars, TestState, initial_vars, test_services, mock_get_variable, assert}
use fwupd_efi.Selftest.Pass.{Passes}
use fwupd_efi.Selftest.Ready.{
  Ready, With, assert-Passes, With-logging, mock_init-With, set_mock-With, Ready-again,
}
use fwupd_efi.Selftest.Readable.{mock_reply}
use fwupd_efi.Selftest.Variables.{
  set_status, test_delete_variable_exists, test_delete_variable_not_found,
  test_delete_variable_other_error,
}

abbrev pub with_status : ℕ → MockVars
with_status rc = record initial_vars { status = rc }

pub equal_test : {a b : ℕ} → a ≡ b → (a == b) ≡ true
equal_test {a} {b} e = (==_iff a b).1 e

module _ (L : Libc) where
  abbrev F : Services
  F = test_services L

  pub set_status-With :
      (rc : ℕ) → Reaches (With L initial_vars) (set_status L rc) (λ _. With L (with_status rc))
  unfolding set_status
  set_status-With rc = set_mock-With L initial_vars _

  -- What `fwup_delete_variable` returns for the mock's status.
  abbrev Deleted : ℕ → ℕ → ℕ → World (TestState L) → Type 0
  Deleted status expected rc w = (rc ≡ expected) × With L (with_status status) w

  abbrev AfterReply : ℕ → ℕ → Type 0
  AfterReply status expected =
      Reaches (With L (with_status status))
        (delete_after F (fwup_log F) (codes "test") fwupdate_guid status 0)
        (Deleted status expected)

  after_exists : AfterReply buffer_too_small buffer_too_small
  unfolding delete_after efi_error
  after_exists = log-then F (With-logging L _) _ _ _ _ _ (Reaches-pure _ λ w h. (refl, h))

  after_not_found : AfterReply not_found success
  unfolding delete_after efi_error
  after_not_found = log-then F (With-logging L _) _ _ _ _ _ (Reaches-pure _ λ w h. (refl, h))

  after_other : AfterReply unsupported unsupported
  unfolding delete_after efi_error
  after_other = log-then F (With-logging L _) _ _ _ _ _ (Reaches-pure _ λ w h. (refl, h))

  deletes :
      (status expected : ℕ)
      → (mock_get_variable (with_status status) 0 false).status ≡ status
      → (mock_get_variable (with_status status) 0 false).attrs ≡ 0
      → AfterReply status expected
      → Reaches
          (With L (with_status status))
          (delete_variable F (codes "test") fwupdate_guid)
          (Deleted status expected)
  unfolding delete_variable delete_variable_with
  deletes status expected e f k =
      Reaches-bind _ _ (mock_reply L (codes "test") fwupdate_guid (with_status status) 0 false) λ r.
        Reaches-given _ (λ w h. h)
          λ g.
            subst
              (λ n.
                Reaches (With L (with_status status))
                  (delete_after F (fwup_log F) (codes "test") fwupdate_guid n r.attrs)
                  (Deleted status expected))
              (sym (ap (λ r. r.status) g ∙ e))
              (subst
                (λ n.
                  Reaches (With L (with_status status))
                    (delete_after F (fwup_log F) (codes "test") fwupdate_guid status n)
                    (Deleted status expected))
                (sym (ap (λ r. r.attrs) g ∙ f)) k)

  not_called :
      (status : ℕ)
      → Reaches
          (With L (with_status status))
          (gets (λ w. w.fw.0.set_called))
          (λ b w. (b ≡ false) × With L (with_status status) w)
  unfolding gets
  not_called status = record { at = λ w h. (ap (λ v. v.set_called) h.0, h) }

  pub delete-Passes :
      Passes (Ready L) (test_delete_variable_exists L)
      × Passes (Ready L) (test_delete_variable_not_found L)
      × Passes (Ready L) (test_delete_variable_other_error L)
  unfolding test_delete_variable_exists test_delete_variable_not_found
      test_delete_variable_other_error
  delete-Passes = (
    Reaches-bind _ _ (mock_init-With L) (λ _.
        Reaches-bind _ _ (set_status-With buffer_too_small) λ _.
          Reaches-bind _ _ (set_mock-With L (with_status buffer_too_small) _) λ _.
            Reaches-bind _ _ (deletes buffer_too_small buffer_too_small refl refl after_exists)
              λ rc.
                Reaches-given _ (λ w h. h)
                  λ e. Reaches-bind _ _ (assert-Passes _ (equal_test e)) λ _.
                    Reaches-bind _ _ (not_called buffer_too_small) λ called.
                      Reaches-given _ (λ w h. h) λ f. Ready-again L _ (assert-Passes _ (ap not f))),
    deleted not_found success refl refl after_not_found,
    deleted unsupported unsupported refl refl after_other,
  )
    where
      deleted :
          (status expected : ℕ)
          → (mock_get_variable (with_status status) 0 false).status ≡ status
          → (mock_get_variable (with_status status) 0 false).attrs ≡ 0
          → AfterReply status expected
          → Passes (Ready L) (
              mock_init L >>= λ _. set_status L status >>= λ _.
              delete_variable F (codes "test") fwupdate_guid >>= λ rc. assert (rc == expected))
      deleted status expected e f k = Reaches-bind _ _ (mock_init-With L) λ _.
          Reaches-bind _ _ (set_status-With status) λ _.
            Reaches-bind _ _ (deletes status expected e f k)
              λ rc. Reaches-given _ (λ w h. h) λ e. Ready-again L _ (assert-Passes _ (equal_test e))
