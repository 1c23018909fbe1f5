-- ===== src/Selftest/Readable.antt =====
-- The mock's variable can be read, and what it answers.
use fwupd_efi.Base.{
  ℕ, zero, suc, ◌+◌, ◌≡◌, refl, sym, ap, ◌∙◌, ◌≤◌, arith, Bool, true, false, Option, none, some,
  length,
}
use mathlib.Core.Path.{subst}
use fwupd_efi.Memory.{bytes_at}
use fwupd_efi.Efi.{Name, Guid, success, not_found, buffer_too_small}
use fwupd_efi.Firmware.Services.{Services, VariableReply}
use fwupd_efi.Firmware.Monad.{World, M}
use fwupd_efi.Firmware.Calls.{get_variable_call}
use fwupd_efi.Firmware.Keeps.{Keeps, After}
use fwupd_efi.Firmware.Monad.{Checked, value, fault}
use fwupd_efi.Firmware.Reaches.{Reaches, Reaches-call, Reaches-from, Reaches-post}
use fwupd_efi.Firmware.Store.{Stored, TooSmall, Given}
use fwupd_efi.Debug.{get_variable}
use fwupd_efi.Debug.Keeps.{LogKeeps}
use fwupd_efi.Variable.Copy.{Reads}
use fwupd_efi.Variable.Readable.{Readable}
use fwupd_efi.Variable.Reads.{readable-Reads}
use fwupd_efi.Harness.{Libc, no_byte}
use fwupd_efi.Selftest.{MockVars, TestState, test_services, mock_get_variable}
use fwupd_efi.Harness.Safe.{IsMalloc}
use fwupd_efi.Selftest.Ready.{With, With-logging}

pub length-bytes_at : (m : ℕ → ℕ) (off n : ℕ) → length (bytes_at m off n) ≡ n
length-bytes_at m off zero = refl
length-bytes_at m off (suc n) = omega (arith, length-bytes_at m (off + 1) n)

-- What the mock's variable is.
abbrev pub stored : MockVars → Stored
stored v = record { attrs = v.attrs; bytes = bytes_at v.bytes 0 v.size }

abbrev pub Holds : MockVars → Option Stored → Type 0
Holds v none = v.status ≡ not_found
Holds v (some x) = (v.status ≡ success) × (x ≡ stored v)

abbrev Shows : (L : Libc) → MockVars → Option Stored → World (TestState L) → Type 0
Shows L v o w = Holds v o × With L v w

and-After :
    {W A : Type 0} (C : Type 0) (P : W → Type 0) (c : Checked (A × W))
    → C
    → After P c
    → After (λ w. C × P w) c
and-After C P (value (a, w)) x h = (x, h)
and-After C P (fault e) x h = tt

Keeps-and :
    {W A : Type 0} (C : Type 0) (P : W → Type 0) (m : M W A) → Keeps P m → Keeps (λ w. C × P w) m
Keeps-and C P m k = record { at = λ w h. and-After C P (m w) h.0 (k.at w h.1) }

and_logging :
    (F : Services) (C : Type 0) {P : World F.State → Type 0}
    → LogKeeps F P
    → LogKeeps F (λ w. C × P w)
and_logging F C c = record {
  reading = record {
    getting = λ name guid size room. Keeps-and C _ _ (c.reading.getting name guid size room);
    allocating = λ size. Keeps-and C _ _ (c.reading.allocating size);
    freeing = λ p. Keeps-and C _ _ (c.reading.freeing p);
  };
  logging = λ level func fmt args. Keeps-and C _ _ (c.logging level func fmt args);
}

missing :
    (v : MockVars) (size : ℕ) (room : Bool)
    → v.status ≡ not_found
    → (mock_get_variable v size room).status ≡ not_found
missing v size room e = ground arith

told : MockVars → VariableReply
told v = record { status = buffer_too_small; attrs = v.attrs; size = v.size; bytes = no_byte }

full : MockVars → VariableReply
full v = record { status = success; attrs = v.attrs; size = v.size; bytes = v.bytes }

reply-told : (v : MockVars) → v.status ≡ success → mock_get_variable v 0 false ≡ told v
unfolding told
reply-told v e = ground arith

reply-full :
    (v : MockVars) (n : ℕ) → v.status ≡ success → v.size ≤ n → mock_get_variable v n true ≡ full v
unfolding full
reply-full v n e h = ground arith

too_small : (v : MockVars) → v.status ≡ success → TooSmall (stored v) (mock_get_variable v 0 false)
unfolding told
too_small v e =
    subst (TooSmall (stored v)) (sym (reply-told v e))
      (record { status = refl; size = sym (length-bytes_at v.bytes 0 v.size) })

fits :
    (v : MockVars)
    → v.status ≡ success
    → Given (stored v) (mock_get_variable v (length (bytes_at v.bytes 0 v.size)) true)
unfolding full
fits v e =
    subst (Given (stored v))
      (sym (reply-full v _ e (omega (arith, length-bytes_at v.bytes 0 v.size))))
      (record {
        status = refl;
        size = sym (length-bytes_at v.bytes 0 v.size);
        attrs = refl;
        bytes = refl;
      })

module _ (L : Libc) (name : Name) (guid : Guid) where
  -- The reply of the mock.
  pub mock_reply :
      (v : MockVars) (size : ℕ) (room : Bool)
      → Reaches
          (With L v)
          (get_variable_call (test_services L) name guid size room)
          (λ r w. (r ≡ mock_get_variable v size room) × With L v w)
  unfolding get_variable_call
  mock_reply v size room = Reaches-call _ λ w h. (ap (λ u. mock_get_variable u size room) h.0, h)

  mock_readable : IsMalloc L → (v : MockVars) → Readable (test_services L) name guid (Shows L v)
  mock_readable malloc v = record {
    missing = λ w size room h.
        ap (λ u. (mock_get_variable u size room).status) h.1.0 ∙ missing v size room h.0;
    too_small = λ w x h.
        subst (λ u. TooSmall x (mock_get_variable u 0 false)) (sym h.1.0)
          (subst (λ y. TooSmall y (mock_get_variable v 0 false)) (sym h.0.1) (too_small v h.0.0));
    fits = λ w x h.
        subst (λ u. Given x (mock_get_variable u (length x.bytes) true)) (sym h.1.0)
          (subst (λ y. Given y (mock_get_variable v (length y.bytes) true)) (sym h.0.1)
            (fits v h.0.0));
    room = λ s size b e. omega (arith, (malloc s.1.1 size b e).0);
    logs = λ o. and_logging (test_services L) (Holds v o) (With-logging L v);
  }

  pub mock_get-Reads :
      IsMalloc L
      → (v : MockVars) (o : Option Stored) → Holds v o
      → Reaches
          (With L v)
          (get_variable (test_services L) name guid)
          (λ r w. Reads (test_services L) o r × With L v w)
  mock_get-Reads malloc v o h =
      Reaches-from _ (λ w k. (h, k))
        (Reaches-post _ (λ r w k. (k.0, k.1.1))
          (readable-Reads (test_services L) name guid (mock_readable malloc v) o))
