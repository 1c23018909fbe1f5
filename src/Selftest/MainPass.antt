-- ===== src/Selftest/MainPass.antt =====
-- The self tests pass: `main` returns 0.
use fwupd_efi.Base.{ℕ, ◌+◌, ◌≡◌, refl, List, [], ◌∷◌, if◌then◌else◌, ap}
use fwupd_efi.Firmware.Monad.{M}
use fwupd_efi.Firmware.Reaches.{Reaches, Reaches-bind, Reaches-pure, Reaches-given}
use fwupd_efi.Harness.{Libc}
use fwupd_efi.Selftest.Pass.{Passes, paths-Passes, checksum-Passes}
use fwupd_efi.Selftest.Ready.{IsRoomy, Ready}
use fwupd_efi.Selftest.SizesPass.{sizes-Passes, terminator-Passes}
use fwupd_efi.Selftest.GopPass.{gop-Passes}
use fwupd_efi.Selftest.VariablesPass.{delete-Passes, equal_test}
use fwupd_efi.Selftest.GetPass.{get-Passes}
use fwupd_efi.Selftest.InfoPass.{info-Passes}
use fwupd_efi.Selftest.ValidPass.{valid-Passes}
use fwupd_efi.Selftest.Main.{run_tests, tests, main}

-- Each of the tests passes.
data AllPass {W : Type 0} (P : W → Type 0) : List (M W (Unit {0})) → Type 0 where
  nothing_left : AllPass P []
  ◌&◌ :
      {test : M W (Unit {0})} {tests : List (M W (Unit {0}))}
      → Passes P test
      → AllPass P tests
      → AllPass P (test ∷ tests)

infixr 5 ◌&◌
-- Both counters go up with each test.
run_tests_same :
    {W : Type 0} {P : W → Type 0} (tests : List (M W (Unit {0}))) (k : ℕ)
    → AllPass P tests
    → Reaches P (run_tests tests k k) (λ r w. (r.1 ≡ r.0) × P w)
unfolding run_tests
run_tests_same [] k nothing_left = Reaches-pure _ λ w p. (refl, p)
run_tests_same (test ∷ tests) k (h & rest) =
    Reaches-bind _ _ h λ _. run_tests_same tests (k + 1) rest

-- From a state where debugging is off and no service was called whose pointer is NULL, and with a C
-- library that has memory for blocks of up to a page and wide characters of up to eight bytes, `main`
-- of the self tests returns 0, whatever the stack held: no assertion fails, nothing is read or written
-- out of bounds, and still no service was called whose pointer is NULL.
pub main-Passes :
    (L : Libc)
    → IsRoomy L
    → (stack : ℕ → ℕ) → Reaches (Ready L) (main L stack) (λ rc w. (rc ≡ 0) × Ready L w)
unfolding main
main-Passes L roomy stack = Reaches-bind _ _ (run_tests_same (tests L stack) 0 all) λ r.
    Reaches-given _ (λ w h. h)
      λ e. Reaches-pure _ λ w h. (ap (λ b. if b then 0 else 1) (equal_test e), h)
  where
    all : AllPass (Ready L) (tests L stack)
    all =
        let (p1, p2, p3, p4, p5, p6, p7) = paths-Passes (Ready L) stack in
        let (c1, c2, c3) = checksum-Passes (Ready L) in
        let (g1, g2, g3, g4, g5, g6) = gop-Passes L roomy in
        let (i1, i2, i4, i5) = info-Passes L roomy in
        let (s1, s2, s3, s4) = sizes-Passes L roomy in
        let (d1, d2, d3) = delete-Passes L in
        let (v1, v2) = get-Passes L roomy in
        p1
        & p2
        & p3
        & p4
        & p5
        & p6
        & p7
        & c1
        & c2
        & c3
        & g1
        & g2
        & g3
        & g4
        & g5
        & g6
        & i1
        & i2
        & valid-Passes L roomy
        & i4
        & i5
        & s1
        & s2
        & s3
        & s4
        & d1
        & d2
        & d3
        & v1
        & v2
        & terminator-Passes L roomy
        & nothing_left
