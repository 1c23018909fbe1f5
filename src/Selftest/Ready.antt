-- ===== src/Selftest/Ready.antt =====
-- The worlds in which the tests run, and what the steps of a test leave of them.
use fwupd_efi.Base.{ℕ, ◌*◌, ◌≤◌, ◌≡◌, refl, ap, Bool, true, false, arith, Option, none, some}
use mathlib.Core.Path.{subst, sym}
use fwupd_efi.Memory.{Buffer}
use fwupd_efi.Firmware.Monad.{M, World, call, pure, ◌>>=◌}
use fwupd_efi.Firmware.Keeps.{Keeps}
use fwupd_efi.Firmware.Total.{Total, Any, Total-bind, Total-call, Total-pure}
use fwupd_efi.Firmware.Reaches.{
  Reaches, Reaches-bind, Reaches-call, Reaches-pure, Reaches-given, Reaches-post, Reaches-Keeps,
}
use fwupd_efi.Debug.States.{Spares, spares_reading, vpool_print-Keeps, print-Keeps}
use fwupd_efi.Debug.Keeps.{LogKeeps}
use fwupd_efi.Debug.Silent.{silent_logging}
use fwupd_efi.Variable.{cleanup_free}
use fwupd_efi.Variable.Total.{cleanup_free-Safe}
use fwupd_efi.Variable.Keeps.{cleanup_free-Keeps}
use fwupd_efi.Harness.{Libc, no_byte}
use fwupd_efi.Harness.Safe.{IsMalloc}
use fwupd_efi.Selftest.{
  MockVars, TestState, initial_vars, zeroed, assert, test_services, mock_init, set_mock, calloc,
}
use fwupd_efi.Selftest.Pass.{Passes}

-- The C library has memory for blocks of up to a page, and its wide characters are small.
pub record IsRoomy (L : Libc) : Type 0 where
  pub wchar_small : L.wchar_size ≤ 8
  pub malloc_size : IsMalloc L
  pub malloc_some : (s : L.State) (size : ℕ) → size ≤ 4096 → (L.malloc s size).0 ≡ none → ⊥
  pub calloc_some :
      (s : L.State) (count size : ℕ) → count * size ≤ 4096 → (L.calloc s count size).0 ≡ none → ⊥

-- No service was called whose pointer is NULL, and debugging is off.
abbrev pub Ready : (L : Libc) → World (TestState L) → Type 0
Ready L w = (w.fw.1.0 ≡ false) × (w.debugging ≡ false)

-- The mock's static variables are `v` too.
abbrev pub With : (L : Libc) → MockVars → World (TestState L) → Type 0
With L v w = (w.fw.0 ≡ v) × (w.fw.1.0 ≡ false) × (w.debugging ≡ false)

pub assert-Passes : {W : Type 0} {P : W → Type 0} (b : Bool) → b ≡ true → Passes P (assert b)
unfolding assert
assert-Passes true e = Reaches-pure _ λ w h. h
assert-Passes false e = ground arith

module _ (L : Libc) where
  pub mock_init-With : Reaches (Ready L) (mock_init L) (λ _. With L initial_vars)
  unfolding mock_init
  mock_init-With = Reaches-call _ λ w h. (refl, h.0, h.1)

  pub set_mock-With :
      (v : MockVars) (f : MockVars → MockVars)
      → Reaches (With L v) (set_mock L f) (λ _. With L (f v))
  unfolding set_mock
  set_mock-With v f = Reaches-call _ λ w h. (ap f h.0, h.1, h.2)

  with_spared :
      (v : MockVars) (d : Bool)
      → Spares (test_services L) (λ s. (s.0 ≡ v) × (s.1.0 ≡ false) × (d ≡ false))
  with_spared v d = record {
    getting = λ s name guid size room h. h;
    allocating = λ s size h. h;
    freeing = λ s addr h. h;
    formatting = λ s fmt args h. h;
    joining = λ s fmt func tmp h. h;
    printing = λ s units h. h;
  }

  pub With-logging : (v : MockVars) → LogKeeps (test_services L) (With L v)
  With-logging v = silent_logging (test_services L) (record {
    reading =
        spares_reading (test_services L) (λ s d. (s.0 ≡ v) × (s.1.0 ≡ false) × (d ≡ false))
          (with_spared v);
    formatting =
        vpool_print-Keeps (test_services L) (λ s d. (s.0 ≡ v) × (s.1.0 ≡ false) × (d ≡ false))
          (with_spared v);
    printing =
        print-Keeps (test_services L) (λ s d. (s.0 ≡ v) × (s.1.0 ≡ false) × (d ≡ false))
          (with_spared v);
    off = λ w h. h.2;
  })

  -- A test that left the mock's variables in some state.
  pub Ready-again :
      {v : MockVars} (m : M (World (TestState L)) (Unit {0}))
      → Reaches (With L v) m (λ _. With L v)
      → Reaches (With L v) m (λ _. Ready L)
  Ready-again m k = Reaches-post m (λ a w h. (h.1, h.2)) k

  ready_spared : (d : Bool) → Spares (test_services L) (λ s. (s.1.0 ≡ false) × (d ≡ false))
  ready_spared d = record {
    getting = λ s name guid size room h. h;
    allocating = λ s size h. h;
    freeing = λ s addr h. h;
    formatting = λ s fmt args h. h;
    joining = λ s fmt func tmp h. h;
    printing = λ s units h. h;
  }

  pub cleanup-Ready : (o : Option Buffer) → Passes (Ready L) (cleanup_free (test_services L) o)
  cleanup-Ready o =
      Reaches-post _ (λ a w h. h.1)
        (Reaches-Keeps _ (cleanup_free-Safe (test_services L) o) (
          cleanup_free-Keeps (test_services L)
            (spares_reading (test_services L) (λ s d. (s.1.0 ≡ false) × (d ≡ false)) ready_spared)
            o))

  -- Memory from `calloc`.
  abbrev Gives : ℕ → Option Buffer → Type 0
  Gives size o = (addr : ℕ) × (o ≡ some (record { addr = addr; size = size; byte = no_byte }))

  given : (size : ℕ) (o : Option ℕ) → (o ≡ none → ⊥) → Gives size (zeroed size o)
  given size none n = absurd (n refl)
  given size (some addr) n = (addr, refl)

  calloc-Gives :
      IsRoomy L
      → (count size : ℕ) → count * size ≤ 4096
      → Total Any (calloc L count size) (Gives (count * size))
  unfolding calloc
  calloc-Gives roomy count size h =
      Total-bind {Q = λ r. Gives (count * size) (zeroed (count * size) r)} _ _
        (Total-call _ λ s. given (count * size) _ (roomy.calloc_some s.1.1 count size h))
        λ r g. Total-pure _ g

  pub calloc-With : (v : MockVars) (count size : ℕ) → Keeps (With L v) (calloc L count size)
  unfolding calloc call ◌>>=◌ pure
  calloc-With v count size = record { at = λ w h. h }

  pub calloc-Ready : (count size : ℕ) → Keeps (Ready L) (calloc L count size)
  unfolding calloc call ◌>>=◌ pure
  calloc-Ready count size = record { at = λ w h. h }

  module _ (roomy : IsRoomy L) {P : World (TestState L) → Type 0} {A : Type 0}
      {R : A → World (TestState L) → Type 0} where
    pub calloc-then :
        (count size : ℕ) (f : Option Buffer → M (World (TestState L)) A)
        → count * size ≤ 4096
        → Keeps P (calloc L count size)
        → ((addr : ℕ)
            → Reaches P (f (some (record { addr = addr; size = count * size; byte = no_byte }))) R)
        → Reaches P (calloc L count size >>= f) R
    calloc-then count size f h k l =
        Reaches-bind _ _ (Reaches-Keeps _ (calloc-Gives roomy count size h) k)
          λ o. Reaches-given _ (λ w t. t) λ g. subst (λ o. Reaches P (f o) R) (sym g.1) (l g.0)
