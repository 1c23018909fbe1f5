-- ===== src/Firmware/Keeps.antt =====
-- What a program's steps leave as it was: one rule for each way to build a step, and for each call.
-- A step that faults keeps everything.
use fwupd_efi.Base.{
  ℕ, ◌≡◌, refl, Bool, true, false, List, [], ◌∷◌, Option, none, some, if◌then◌else◌, leb, ◌+◌,
}
use mathlib.Core.Path.{subst, sym}
use fwupd_efi.Memory.{Buffer}
use fwupd_efi.Efi.{Result, ok, err}
use fwupd_efi.Firmware.Monad.{
  M, Checked, value, fault, Fault, World, Event, pure, fail, lift, call, bounds, deref, gets, ◌>>=◌,
  on_option, on_result, capsules_updated, system_reset,
}

abbrev pub After : {W A : Type 0} → (W → Type 0) → Checked (A × W) → Type 0
After P (value (a, w)) = P w
After P (fault e) = Unit {0}

pub record Keeps {W A : Type 0} (P : W → Type 0) (m : M W A) : Type 0 where
  pub at : (w : W) → P w → After P (m w)

lift-After : {W A : Type 0} (P : W → Type 0) (c : Checked A) (w : W) → P w → After P (lift c w)
unfolding lift
lift-After P (value a) w h = h
lift-After P (fault e) w h = tt

bounds-After :
    {W : Type 0} (P : W → Type 0) (b : Bool) (w : W)
    → P w
    → After P (if b then value (tt {0}, w) else fault Fault.out_of_bounds)
bounds-After P true w h = h
bounds-After P false w h = tt

module _ {W : Type 0} {P : W → Type 0} where
  module _ {A : Type 0} where
    pub Keeps-pure : (a : A) → Keeps P (pure a)
    unfolding pure
    Keeps-pure a = record { at = λ w h. h }

    pub Keeps-fail : (e : Fault) → Keeps P (fail {A = A} e)
    unfolding fail
    Keeps-fail e = record { at = λ w h. tt }

    pub Keeps-lift : (c : Checked A) → Keeps P (lift c)
    Keeps-lift c = record { at = lift-After P c }

    pub Keeps-deref : (o : Option A) → Keeps P (deref o)
    unfolding deref
    Keeps-deref none = record { at = λ w h. tt }
    Keeps-deref (some a) = record { at = λ w h. h }

    pub Keeps-gets : (f : W → A) → Keeps P (gets f)
    unfolding gets
    Keeps-gets f = record { at = λ w h. h }

    pub Keeps-if : (b : Bool) (m n : M W A) → Keeps P m → Keeps P n → Keeps P (if b then m else n)
    Keeps-if true m n k l = k
    Keeps-if false m n k l = l

  pub Keeps-bounds : (b : Buffer) (off n : ℕ) → Keeps P (bounds b off n)
  unfolding bounds
  Keeps-bounds b off n = record { at = λ w h. bounds-After P (leb (off + n) b.size) w h }

  module _ {A B : Type 0} where
    bind-After :
        (f : A → M W B) (c : Checked (A × W))
        → ((a : A) → Keeps P (f a))
        → After P c
        → After P (elim c [ value (a, w') ↦ f a w' | fault e ↦ fault e ])
    bind-After f (value (a, w)) k h = (k a).at w h
    bind-After f (fault e) k h = tt

    pub Keeps-bind :
        (m : M W A) (f : A → M W B) → Keeps P m → ((a : A) → Keeps P (f a)) → Keeps P (m >>= f)
    unfolding ◌>>=◌
    Keeps-bind m f k l = record { at = λ w h. bind-After f (m w) l (k.at w h) }

    pub Keeps-on_option :
        (o : Option A) (m : M W B) (f : A → M W B)
        → Keeps P m
        → ((a : A) → Keeps P (f a))
        → Keeps P (on_option o m f)
    Keeps-on_option none m f k l = k
    Keeps-on_option (some a) m f k l = l a

    pub Keeps-on_result :
        (r : Result A) (g : ℕ → M W B) (f : A → M W B)
        → ((rc : ℕ) → Keeps P (g rc))
        → ((a : A) → Keeps P (f a))
        → Keeps P (on_result r g f)
    Keeps-on_result (err rc) g f k l = k rc
    Keeps-on_result (ok a) g f k l = l a

pub ruleset keeps_rules = (
  Keeps-pure, Keeps-fail, Keeps-lift, Keeps-deref, Keeps-gets, Keeps-if, Keeps-bounds, Keeps-bind,
  Keeps-on_option, Keeps-on_result,
)

-- The calls that hand the updates to the firmware and that end the program.
abbrev pub commits : List Event → List Event
commits [] = []
commits (capsules_updated c n b rc ∷ t) = capsules_updated c n b rc ∷ commits t
commits (system_reset r rc ∷ t) = system_reset r rc ∷ commits t
commits (_ ∷ t) = commits t

-- No capsule was handed over and no reset made since the world had the commits `t`.
abbrev pub Committed : {S : Type 0} → List Event → World S → Type 0
Committed t w = commits w.trace ≡ t

module _ {S : Type 0} {t : List Event} where
  pub Committed-call : {A : Type 0} (f : S → A × S) → Keeps (Committed t) (call f)
  unfolding call
  Committed-call f = record { at = λ w h. h }

  After-commits :
      {A : Type 0} (K : List Event → Type 0) (c : Checked (A × World S))
      → K t
      → After (Committed t) c
      → After (λ w. K (commits w.trace)) c
  After-commits K (value (a, w)) k h = subst K (sym h) k
  After-commits K (fault e) k h = tt

-- A step that keeps the commits keeps all that is said of them.
pub Keeps-commits :
    {S A : Type 0} (K : List Event → Type 0) (m : M (World S) A)
    → ((t : List Event) → Keeps (Committed t) m)
    → Keeps (λ w. K (commits w.trace)) m
Keeps-commits K m k = record {
  at = λ w h. After-commits K (m w) h ((k (commits w.trace)).at w refl);
}

all-After :
    {W A I : Type 0} (P : I → W → Type 0) (c : Checked (A × W))
    → ((i : I) → After (P i) c)
    → After (λ w. (i : I) → P i w) c
all-After P (value (a, w)) k = k
all-After P (fault e) k = tt

-- A step that keeps each of many predicates keeps them all.
pub Keeps-all :
    {W A I : Type 0} (P : I → W → Type 0) (m : M W A)
    → ((i : I) → Keeps (P i) m)
    → Keeps (λ w. (i : I) → P i w) m
Keeps-all P m k = record { at = λ w h. all-After P (m w) (λ i. (k i).at w (h i)) }
