-- ===== src/Firmware/Total.antt =====
-- Steps that do not fault: from any world whose `once` is in `O`, a step returns a result with `Q` and
-- a world whose `once` is in `O`. (`once` alone decides how deep the calls of `fwup_log` go.)
use fwupd_efi.Base.{
  ℕ, ◌+◌, ◌≤◌, ◌≡◌, refl, arith, Bool, true, false, Option, none, some, if◌then◌else◌,
}
use mathlib.Core.Path.{subst, sym}
use fwupd_efi.Memory.{Buffer}
use fwupd_efi.Efi.{Result, ok, err, efi_error}
use fwupd_efi.Firmware.Monad.{
  M, Checked, value, fault, World, Event, pure, lift, call, emit, bounds, gets, deref, ◌>>=◌,
  on_option, on_result,
}

abbrev pub Returns :
    {S A : Type 0} → (Bool → Type 0) → (A → Type 0) → Checked (A × World S) → Type 0
Returns O Q (value (a, w)) = O w.once × Q a
Returns O Q (fault e) = ⊥

pub record Total {S A : Type 0} (O : Bool → Type 0) (m : M (World S) A) (Q : A → Type 0)
    : Type 0 where
  pub at : (w : World S) → O w.once → Returns O Q (m w)

abbrev pub Any {ℓ} : {A : Type ℓ} → A → Type 0
Any _ = Unit {0}

-- A result, or an error.
abbrev pub Succeeds : {A : Type 0} → Result A → Type 0
Succeeds (ok a) = Unit {0}
Succeeds (err rc) = efi_error rc ≡ true

-- A pointer that is not NULL.
abbrev pub IsThere : {A : Type 0} → Option A → Type 0
IsThere {A} o = (a : A) × (o ≡ some a)

bind-Returns :
    {S A B : Type 0} {O : Bool → Type 0} {Q : A → Type 0} {R : B → Type 0} (f : A → M (World S) B)
    (c : Checked (A × World S))
    → ((a : A) → Q a → Total O (f a) R)
    → Returns O Q c
    → Returns O R (elim c [ value (a, w') ↦ f a w' | fault e ↦ fault e ])
bind-Returns f (value (a, w)) k h = (k a h.1).at w h.0
bind-Returns f (fault e) k h = absurd h

module _ {S A B : Type 0} {O : Bool → Type 0} {R : B → Type 0} where
  pub Total-bind :
      {Q : A → Type 0} (m : M (World S) A) (f : A → M (World S) B)
      → Total O m Q
      → ((a : A) → Q a → Total O (f a) R)
      → Total O (m >>= f) R
  unfolding ◌>>=◌
  Total-bind m f k l = record { at = λ w h. bind-Returns f (m w) l (k.at w h) }

  pub Total-on_option :
      (o : Option A) (m : M (World S) B) (f : A → M (World S) B)
      → (o ≡ none → Total O m R)
      → ((a : A) → o ≡ some a → Total O (f a) R)
      → Total O (on_option o m f) R
  Total-on_option none m f k l = k refl
  Total-on_option (some a) m f k l = l a refl

  pub Total-on_result :
      (r : Result A) (g : ℕ → M (World S) B) (f : A → M (World S) B)
      → ((rc : ℕ) → r ≡ err rc → Total O (g rc) R)
      → ((a : A) → r ≡ ok a → Total O (f a) R)
      → Total O (on_result r g f) R
  Total-on_result (err rc) g f k l = k rc refl
  Total-on_result (ok a) g f k l = l a refl

post-Returns :
    {S A : Type 0} (O : Bool → Type 0) {Q R : A → Type 0} (c : Checked (A × World S))
    → ((a : A) → Q a → R a)
    → Returns O Q c
    → Returns O R c
post-Returns O (value (a, w)) k h = (h.0, k a h.1)
post-Returns O (fault e) k h = absurd h

pub Total-post :
    {S A : Type 0} {O : Bool → Type 0} {Q R : A → Type 0} (m : M (World S) A)
    → Total O m Q
    → ((a : A) → Q a → R a)
    → Total O m R
Total-post m k l = record { at = λ w h. post-Returns _ (m w) l (k.at w h) }

pub Total-deref :
    {S A : Type 0} {O : Bool → Type 0} (o : Option A) (a : A)
    → o ≡ some a
    → Total {S = S} O (deref o) (λ c. c ≡ a)
unfolding deref
Total-deref none a e = cc
Total-deref (some c) a e = record { at = λ w h. (h, ground arith) }

-- A pointer that is not NULL is followed.
pub deref-bind :
    {S A B : Type 0} {O : Bool → Type 0} {R : B → Type 0} (a : A) (f : A → M (World S) B)
    → Total O (f a) R
    → Total O (deref (some a) >>= f) R
unfolding deref ◌>>=◌
deref-bind a f k = record { at = λ w h. k.at w h }

module _ {S A : Type 0} {O : Bool → Type 0} {Q : A → Type 0} where
  pub Total-pure : (a : A) → Q a → Total {S = S} O (pure a) Q
  unfolding pure
  Total-pure a q = record { at = λ w h. (h, q) }

  pub Total-call : (f : S → A × S) → ((s : S) → Q (f s).0) → Total O (call f) Q
  unfolding call
  Total-call f q = record { at = λ w h. (h, q w.fw) }

  pub Total-if :
      (b : Bool) (m n : M (World S) A)
      → (b ≡ true → Total O m Q)
      → (b ≡ false → Total O n Q)
      → Total O (if b then m else n) Q
  Total-if true m n k l = k refl
  Total-if false m n k l = l refl

  lift_value-Total : (a : A) → Q a → Total {S = S} O (lift (value a)) Q
  unfolding lift
  lift_value-Total a q = record { at = λ w h. (h, q) }

  pub Total-lift : (c : Checked A) (a : A) → c ≡ value a → Q a → Total {S = S} O (lift c) Q
  Total-lift c a e q = subst (λ d. Total {S = S} O (lift d) Q) (sym e) (lift_value-Total a q)

module _ {S : Type 0} {O : Bool → Type 0} where
  pub Total-emit : (e : Event) → Total {S = S} O (emit e) Any
  unfolding emit
  Total-emit e = record { at = λ w h. (h, tt) }

  pub Total-bounds :
      (b : Buffer) (off n : ℕ) → off + n ≤ b.size → Total {S = S} O (bounds b off n) Any
  unfolding bounds
  Total-bounds b off n h = record { at = λ w o. ground arith }

-- Where nothing is asked of the result.
module _ {S A B : Type 0} {O : Bool → Type 0} where
  pub Safe-bind :
      (m : M (World S) A) (f : A → M (World S) B)
      → Total O m Any
      → ((a : A) → Total O (f a) Any)
      → Total O (m >>= f) Any
  Safe-bind m f k l = Total-bind m f k (λ a _. l a)

  pub Safe-on_option :
      (o : Option A) (m : M (World S) B) (f : A → M (World S) B)
      → Total O m Any
      → ((a : A) → Total O (f a) Any)
      → Total O (on_option o m f) Any
  Safe-on_option o m f k l = Total-on_option o m f (λ _. k) (λ a _. l a)

module _ {S A : Type 0} {O : Bool → Type 0} where
  pub Safe-pure : (a : A) → Total {S = S} O (pure a) Any
  Safe-pure a = Total-pure a tt

  pub Safe-call : (f : S → A × S) → Total O (call f) Any
  Safe-call f = Total-call f (λ s. tt)

  pub Safe-gets : (f : World S → A) → Total O (gets f) Any
  unfolding gets
  Safe-gets f = record { at = λ w h. (h, tt) }

  pub Safe-if :
      (b : Bool) (m n : M (World S) A)
      → Total O m Any
      → Total O n Any
      → Total O (if b then m else n) Any
  Safe-if b m n k l = Total-if b m n (λ _. k) (λ _. l)

pub ruleset safe_rules =
    (Safe-pure, Safe-call, Safe-gets, Safe-if, Safe-bind, Safe-on_option, Total-emit)
