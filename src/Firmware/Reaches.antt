-- ===== src/Firmware/Reaches.antt =====
-- What a step reaches: from a world with `P` it returns, and result and world have `Q`.
use fwupd_efi.Base.{
  ℕ, ◌+◌, ◌≤◌, ◌≡◌, Bool, true, false, ◌∷◌, refl, arith, if◌then◌else◌, Option, some, sym,
}
use mathlib.Core.Path.{subst}
use fwupd_efi.Memory.{Buffer}
use fwupd_efi.Firmware.Keeps.{Keeps, After}
use fwupd_efi.Firmware.Leads.{Leads, Ends}
use fwupd_efi.Firmware.Total.{Total, Any, Returns}
use fwupd_efi.Firmware.Monad.{
  M, Checked, value, fault, World, Event, pure, call, emit, bounds, ◌>>=◌, deref, on_option,
}

abbrev pub Arrives : {W A : Type 0} → (A → W → Type 0) → Checked (A × W) → Type 0
Arrives Q (value (a, w)) = Q a w
Arrives Q (fault e) = ⊥

pub record Reaches {W A : Type 0} (P : W → Type 0) (m : M W A) (Q : A → W → Type 0) : Type 0 where
  pub at : (w : W) → P w → Arrives Q (m w)

bind-Arrives :
    {W A B : Type 0} {Q : A → W → Type 0} {R : B → W → Type 0} (f : A → M W B) (c : Checked (A × W))
    → ((a : A) → Reaches (Q a) (f a) R)
    → Arrives Q c
    → Arrives R (elim c [ value (a, w') ↦ f a w' | fault e ↦ fault e ])
bind-Arrives f (value (a, w)) k h = (k a).at w h
bind-Arrives f (fault e) k h = absurd h

pub Reaches-bind :
    {W A B : Type 0} {P : W → Type 0} {Q : A → W → Type 0} {R : B → W → Type 0} (m : M W A)
    (f : A → M W B)
    → Reaches P m Q
    → ((a : A) → Reaches (Q a) (f a) R)
    → Reaches P (m >>= f) R
unfolding ◌>>=◌
Reaches-bind m f k l = record { at = λ w h. bind-Arrives f (m w) l (k.at w h) }

module _ {W A : Type 0} {P : W → Type 0} {Q : A → W → Type 0} where
  pub Reaches-pure : (a : A) → ((w : W) → P w → Q a w) → Reaches P (pure a) Q
  unfolding pure
  Reaches-pure a k = record { at = k }

  pub Reaches-if :
      (b : Bool) (m n : M W A)
      → (b ≡ true → Reaches P m Q)
      → (b ≡ false → Reaches P n Q)
      → Reaches P (if b then m else n) Q
  Reaches-if true m n k l = k refl
  Reaches-if false m n k l = l refl

  -- What the precondition says of other things than the world is taken out of it.
  pub Reaches-given :
      {X : Type 0} {R : W → Type 0} (m : M W A)
      → ((w : W) → P w → X × R w)
      → (X → Reaches R m Q)
      → Reaches P m Q
  Reaches-given m g k = record { at = λ w h. let (x, r) = g w h in (k x).at w r }

module _ {S : Type 0} {P : World S → Type 0} where
  pub Reaches-call :
      {A : Type 0} {Q : A → World S → Type 0} (f : S → A × S)
      → ((w : World S) → P w → Q (f w.fw).0 (record w { fw = (f w.fw).1 }))
      → Reaches P (call f) Q
  unfolding call
  Reaches-call f k = record { at = k }

  pub Reaches-emit :
      {Q : Unit {0} → World S → Type 0} (e : Event)
      → ((w : World S) → P w → Q tt (record w { trace = e ∷ w.trace }))
      → Reaches P (emit e) Q
  unfolding emit
  Reaches-emit e k = record { at = k }

  pub Reaches-bounds :
      (b : Buffer) (off n : ℕ) → off + n ≤ b.size → Reaches P (bounds b off n) (λ _. P)
  unfolding bounds
  Reaches-bounds b off n h = record { at = λ w o. ground arith }

pub Reaches-from :
    {W A : Type 0} {P R : W → Type 0} {Q : A → W → Type 0} (m : M W A)
    → ((w : W) → P w → R w)
    → Reaches R m Q
    → Reaches P m Q
Reaches-from m g k = record { at = λ w h. k.at w (g w h) }

keep-Arrives :
    {S A : Type 0} (P : World S → Type 0) (Q : A → Type 0) (c : Checked (A × World S))
    → Returns Any Q c
    → After P c
    → Arrives (λ a w. Q a × P w) c
keep-Arrives P Q (value (a, w)) h k = (h.1, k)
keep-Arrives P Q (fault e) h k = absurd h

-- A step that returns and keeps `P`.
pub Reaches-Keeps :
    {S A : Type 0} {P : World S → Type 0} {Q : A → Type 0} (m : M (World S) A)
    → Total Any m Q
    → Keeps P m
    → Reaches P m (λ a w. Q a × P w)
Reaches-Keeps m t k = record { at = λ w h. keep-Arrives _ _ (m w) (t.at w tt) (k.at w h) }

-- A step of which only that is used.
pub Reaches-then :
    {S A B : Type 0} {P : World S → Type 0} {R : B → World S → Type 0} (m : M (World S) A)
    (f : A → M (World S) B)
    → Total Any m Any
    → Keeps P m
    → ((a : A) → Reaches P (f a) R)
    → Reaches P (m >>= f) R
Reaches-then m f t k l =
    Reaches-bind m f (Reaches-Keeps m t k) λ a. Reaches-from (f a) (λ w h. h.1) (l a)

-- A pointer that is known not to be NULL.
module _ {S A B : Type 0} {P : World S → Type 0} {R : B → World S → Type 0} where
  deref_value :
      (a : A) (f : A → M (World S) B) → Reaches P (f a) R → Reaches P (deref (some a) >>= f) R
  unfolding deref ◌>>=◌
  deref_value a f k = record { at = λ w h. k.at w h }

  pub Reaches-deref :
      (o : Option A) (a : A) (f : A → M (World S) B)
      → o ≡ some a
      → Reaches P (f a) R
      → Reaches P (deref o >>= f) R
  Reaches-deref o a f e k = subst (λ p. Reaches P (deref p >>= f) R) (sym e) (deref_value a f k)

  pub Reaches-on_some :
      (o : Option A) (a : A) (m : M (World S) B) (f : A → M (World S) B)
      → o ≡ some a
      → Reaches P (f a) R
      → Reaches P (on_option o m f) R
  Reaches-on_some o a m f e k = subst (λ p. Reaches P (on_option p m f) R) (sym e) k

post-Arrives :
    {W A : Type 0} {Q R : A → W → Type 0} (c : Checked (A × W))
    → ((a : A) (w : W) → Q a w → R a w)
    → Arrives Q c
    → Arrives R c
post-Arrives (value (a, w)) k h = k a w h
post-Arrives (fault e) k h = absurd h

pub Reaches-post :
    {W A : Type 0} {P : W → Type 0} {Q R : A → W → Type 0} (m : M W A)
    → ((a : A) (w : W) → Q a w → R a w)
    → Reaches P m Q
    → Reaches P m R
Reaches-post m k l = record { at = λ w h. post-Arrives (m w) k (l.at w h) }

lead-Arrives :
    {S A : Type 0} (Q : A → Type 0) (R : A → World S → Type 0) (c : Checked (A × World S))
    → Returns Any Q c
    → Ends R c
    → Arrives (λ a w. Q a × R a w) c
lead-Arrives Q R (value (a, w)) h k = (h.1, k)
lead-Arrives Q R (fault e) h k = absurd h

both-Ends :
    {S A : Type 0} (Q : A → Type 0) (R : A → World S → Type 0) (c : Checked (A × World S))
    → Returns Any Q c
    → Ends R c
    → Ends (λ a w. Q a × R a w) c
both-Ends Q R (value (a, w)) h k = (h.1, k)
both-Ends Q R (fault e) h k = tt

pub Leads-Total :
    {S A : Type 0} {P : World S → Type 0} {Q : A → Type 0} {R : A → World S → Type 0}
    (m : M (World S) A)
    → Total Any m Q
    → Leads P m R
    → Leads P m (λ a w. Q a × R a w)
Leads-Total m t k = record { at = λ w h. both-Ends _ _ (m w) (t.at w tt) (k.at w h) }

-- A step that returns, with what it leads to.
pub Reaches-Leads :
    {S A : Type 0} {P : World S → Type 0} {Q : A → Type 0} {R : A → World S → Type 0}
    (m : M (World S) A)
    → Total Any m Q
    → Leads P m R
    → Reaches P m (λ a w. Q a × R a w)
Reaches-Leads m t k = record { at = λ w h. lead-Arrives _ _ (m w) (t.at w tt) (k.at w h) }
