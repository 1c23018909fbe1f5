-- ===== src/Selftest/InfoPass.antt =====
-- The tests of `fwup_populate_update_info` whose variable is not valid pass.
use fwupd_efi.Base.{ℕ, ◌≤◌, ◌≡◌, refl, arith, none, codes, ◌==◌}
use fwupd_efi.Efi.{success, not_found, efi_error, fwupdate_guid, Result, ok, err}
use fwupd_efi.Firmware.Services.{Services}
use fwupd_efi.Firmware.Monad.{pure, on_result, ◌>>=◌}
use fwupd_efi.Firmware.Reaches.{
  Reaches, Reaches-bind, Reaches-pure, Reaches-given, Reaches-deref, Reaches-bounds,
}
use fwupd_efi.Variable.{Variable}
use fwupd_efi.Variable.Copy.{Reads}
use fwupd_efi.Update.{check_info, populate_update_info}
use fwupd_efi.Harness.{Libc, no_byte}
use fwupd_efi.Harness.FuzzUpdateInfo.{zero_update}
use fwupd_efi.Selftest.{MockVars, initial_vars, test_services, assert, build_dp_end}
use fwupd_efi.Selftest.Pass.{Passes}
use fwupd_efi.Selftest.Ready.{
  IsRoomy, Ready, With, assert-Passes, calloc-then, calloc-With, cleanup-Ready, mock_init-With,
  set_mock-With, Ready-again,
}
use fwupd_efi.Selftest.Readable.{mock_get-Reads}
use fwupd_efi.Selftest.VariablesPass.{with_status, set_status-With, equal_test}
use fwupd_efi.Selftest.Info.{
  set_info, populate_test, test_populate_info_too_small, test_populate_info_no_room_for_dp,
  test_populate_info_dp_size_mismatch, test_populate_info_variable_not_found,
}
use fwupd_efi.Selftest.Populated.{populate-Checked, small_error}

module _ (L : Libc) (roomy : IsRoomy L) where
  abbrev F : Services
  F = test_services L

  abbrev pub held_info : (ℕ → ℕ) → ℕ → MockVars
  held_info m n = record initial_vars { bytes = m; size = n; status = success }

  populate-refused :
      (m : ℕ → ℕ) (n : ℕ)
      → n ≤ 60
      → Reaches
          (With L initial_vars)
          (set_info L m n >>= λ _. populate_test L >>= λ p. assert (efi_error p.1))
          (λ _. Ready L)
  unfolding set_info populate_test
  populate-refused m n h = Reaches-bind _ _ (set_mock-With L initial_vars _) λ _. Ready-again L _ (
      Reaches-bind _ _ (populate-Checked L roomy (held_info m n) refl (omega (arith, h))) λ p.
        Reaches-given _ (λ w k. k) λ c. assert-Passes _ (small_error L roomy (held_info m n) p h c))

  -- Nothing is read.
  populate_absent :
      Reaches
        (With L (with_status not_found))
        (populate_update_info F (codes "test") zero_update)
        (λ p w. (p.1 ≡ not_found) × With L (with_status not_found) w)
  unfolding populate_update_info
  populate_absent =
      Reaches-bind _ _
        (mock_get-Reads L (codes "test") fwupdate_guid roomy.malloc_size (with_status not_found)
          none refl)
        λ r. Reaches-given _ (λ w k. k) λ k. absent r k
    where
      absent :
          (r : Result Variable)
          → Reads F none r
          → Reaches
              (With L (with_status not_found))
              (on_result r
                (λ rc. pure (zero_update, rc))
                (λ x. check_info F (codes "test") zero_update x))
              (λ p w. (p.1 ≡ not_found) × With L (with_status not_found) w)
      absent (ok x) k = absurd k
      absent (err rc) k = Reaches-pure _ λ w h. (k, h)

  pub info-Passes :
      Passes (Ready L) (test_populate_info_too_small L)
      × Passes (Ready L) (test_populate_info_no_room_for_dp L)
      × Passes (Ready L) (test_populate_info_dp_size_mismatch L)
      × Passes (Ready L) (test_populate_info_variable_not_found L)
  unfolding test_populate_info_too_small test_populate_info_no_room_for_dp
      test_populate_info_dp_size_mismatch test_populate_info_variable_not_found populate_test
      set_info
  info-Passes = (
    Reaches-bind _ _ (mock_init-With L) (λ _. populate-refused no_byte 55 (omega arith)),
    Reaches-bind _ _ (mock_init-With L) (λ _. populate-refused no_byte 56 (omega arith)),
    Reaches-bind _ _ (mock_init-With L) (λ _.
        calloc-then L roomy 1 60 _ (omega arith) (calloc-With L initial_vars 1 60) λ addr.
          Reaches-deref _ _ _ refl (
            Reaches-bind _ _ (Reaches-bounds _ 52 4 (omega arith)) λ _.
              Reaches-bind _ _ (set_mock-With L initial_vars _) λ _.
                Reaches-bind _ _
                  (populate-Checked L roomy (held_info (build_dp_end no_byte 52) 60) refl
                    (omega arith))
                  λ p.
                    Reaches-given _ (λ w k. k)
                      λ c.
                        Reaches-bind _ _
                          (Ready-again L _ (
                            assert-Passes _ (
                              small_error L roomy (held_info (build_dp_end no_byte 52) 60) p
                                (omega arith) c)))
                          λ _. cleanup-Ready L _)),
    Reaches-bind _ _ (mock_init-With L)
        (λ _. Reaches-bind _ _ (set_status-With L not_found) λ _. Ready-again L _ (absent_test)),
  )
    where
      absent_test :
          Passes
            (With L (with_status not_found))
            (populate_test L >>= λ p. assert (p.1 == not_found))
      absent_test =
          Reaches-bind _ _ populate_absent
            λ p. Reaches-given _ (λ w k. k) λ e. assert-Passes _ (equal_test e)
