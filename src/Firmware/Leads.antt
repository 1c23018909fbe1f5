-- ===== src/Firmware/Leads.antt =====
-- What a program's step leads to: from a world with `P`, a result and a world with `Q`, unless the
-- step faults.
use fwupd_efi.Base.{ℕ, ◌≡◌, refl, Bool, true, false, Option, none, some, if◌then◌else◌, ◌∷◌}
use fwupd_efi.Efi.{Result, ok, err}
use fwupd_efi.Firmware.Monad.{
  M, Checked, value, fault, pure, World, Event, emit, ◌>>=◌, on_option, on_result,
}
use fwupd_efi.Firmware.Keeps.{Keeps, After}

abbrev pub Ends : {W A : Type 0} → (A → W → Type 0) → Checked (A × W) → Type 0
Ends Q (value (a, w)) = Q a w
Ends Q (fault e) = Unit {0}

pub record Leads {W A : Type 0} (P : W → Type 0) (m : M W A) (Q : A → W → Type 0) : Type 0 where
  pub at : (w : W) → P w → Ends Q (m w)

bind-Ends :
    {W A B : Type 0} {Q : A → W → Type 0} {R : B → W → Type 0} (f : A → M W B) (c : Checked (A × W))
    → ((a : A) → Leads (Q a) (f a) R)
    → Ends Q c
    → Ends R (elim c [ value (a, w') ↦ f a w' | fault e ↦ fault e ])
bind-Ends f (value (a, w)) k h = (k a).at w h
bind-Ends f (fault e) k h = tt

bind-After :
    {W A B : Type 0} {P : W → Type 0} {R : B → W → Type 0} (f : A → M W B) (c : Checked (A × W))
    → ((a : A) → Leads P (f a) R)
    → After P c
    → Ends R (elim c [ value (a, w') ↦ f a w' | fault e ↦ fault e ])
bind-After f (value (a, w)) k h = (k a).at w h
bind-After f (fault e) k h = tt

keep-Ends :
    {W A : Type 0} {P : W → Type 0} {Q : A → W → Type 0} (c : Checked (A × W))
    → ((a : A) (w : W) → P w → Q a w)
    → After P c
    → Ends Q c
keep-Ends (value (a, w)) k h = k a w h
keep-Ends (fault e) k h = tt

module _ {W A B : Type 0} {P : W → Type 0} {R : B → W → Type 0} where
  -- A step with a result of its own.
  pub Leads-bind :
      {Q : A → W → Type 0} (m : M W A) (f : A → M W B)
      → Leads P m Q
      → ((a : A) → Leads (Q a) (f a) R)
      → Leads P (m >>= f) R
  unfolding ◌>>=◌
  Leads-bind m f k l = record { at = λ w h. bind-Ends f (m w) l (k.at w h) }

  -- A step that only keeps what holds.
  pub Leads-step :
      (m : M W A) (f : A → M W B) → Keeps P m → ((a : A) → Leads P (f a) R) → Leads P (m >>= f) R
  unfolding ◌>>=◌
  Leads-step m f k l = record { at = λ w h. bind-After f (m w) l (k.at w h) }

  pub Leads-on_option :
      (o : Option A) (m : M W B) (f : A → M W B)
      → Leads P m R
      → ((a : A) → Leads P (f a) R)
      → Leads P (on_option o m f) R
  Leads-on_option none m f k l = k
  Leads-on_option (some a) m f k l = l a

  pub Leads-on_result :
      (r : Result A) (g : ℕ → M W B) (f : A → M W B)
      → ((rc : ℕ) → Leads P (g rc) R)
      → ((a : A) → Leads P (f a) R)
      → Leads P (on_result r g f) R
  Leads-on_result (err rc) g f k l = k rc
  Leads-on_result (ok a) g f k l = l a

  -- The same with a fact about the result.
  pub Leads-on_result_given :
      (V : Result A → Type 0) (r : Result A) (g : ℕ → M W B) (f : A → M W B)
      → V r
      → ((rc : ℕ) → V (err rc) → Leads P (g rc) R)
      → ((a : A) → V (ok a) → Leads P (f a) R)
      → Leads P (on_result r g f) R
  Leads-on_result_given V (err rc) g f v k l = k rc v
  Leads-on_result_given V (ok a) g f v k l = l a v

module _ {W A : Type 0} {P : W → Type 0} {Q : A → W → Type 0} where
  pub Leads-pure : (a : A) → ((w : W) → P w → Q a w) → Leads P (pure a) Q
  unfolding pure
  Leads-pure a k = record { at = k }

  pub Leads-keep : (m : M W A) → Keeps P m → ((a : A) (w : W) → P w → Q a w) → Leads P m Q
  Leads-keep m k l = record { at = λ w h. keep-Ends (m w) l (k.at w h) }

  pub Leads-from : {R : W → Type 0} (m : M W A) → ((w : W) → P w → R w) → Leads R m Q → Leads P m Q
  Leads-from m g k = record { at = λ w h. k.at w (g w h) }

  pub Leads-if :
      (b : Bool) (m n : M W A)
      → (b ≡ true → Leads P m Q)
      → (b ≡ false → Leads P n Q)
      → Leads P (if b then m else n) Q
  Leads-if true m n k l = k refl
  Leads-if false m n k l = l refl

post-Ends :
    {W A : Type 0} {Q R : A → W → Type 0} (c : Checked (A × W))
    → ((a : A) (w : W) → Q a w → R a w)
    → Ends Q c
    → Ends R c
post-Ends (value (a, w)) k h = k a w h
post-Ends (fault e) k h = tt

pub Leads-post :
    {W A : Type 0} {P : W → Type 0} {Q R : A → W → Type 0} (m : M W A)
    → Leads P m Q
    → ((a : A) (w : W) → Q a w → R a w)
    → Leads P m R
Leads-post m k l = record { at = λ w h. post-Ends (m w) l (k.at w h) }

-- A value beside what holds of the world is taken out of the precondition.
module _ {W A X : Type 0} {P : X → W → Type 0} {Q : A → W → Type 0} where
  pub Leads-given : (m : M W A) → ((x : X) → Leads (P x) m Q) → Leads (λ w. (x : X) × P x w) m Q
  Leads-given m k = record { at = λ w h. (k h.0).at w h.1 }

pub Leads-emit :
    {S : Type 0} {P Q : World S → Type 0} (e : Event)
    → ((w : World S) → P w → Q (record w { trace = e ∷ w.trace }))
    → Leads P (emit e) (λ _. Q)
unfolding emit
Leads-emit e k = record { at = k }

-- A step's own run: it was taken from a world with `P`.
abbrev pub RanFrom : {W A : Type 0} → (W → Type 0) → M W A → A → W → Type 0
RanFrom {W} P m a w = (v : W) × P v × (m v ≡ value (a, w))

run-Ends :
    {W A : Type 0} (P : W → Type 0) (Q : A → W → Type 0) (m : M W A) (v : W) (c : Checked (A × W))
    → m v ≡ c
    → P v
    → Ends Q c
    → Ends (λ a w. RanFrom P m a w × Q a w) c
run-Ends P Q m v (value (a, w)) e p q = ((v, p, e), q)
run-Ends P Q m v (fault f) e p q = tt

-- What a step leads to from fewer worlds, with the run itself.
pub Leads-run :
    {W A : Type 0} {P R : W → Type 0} {Q : A → W → Type 0} (m : M W A)
    → ((w : W) → P w → R w)
    → Leads R m Q
    → Leads P m (λ a w. RanFrom P m a w × Q a w)
Leads-run m g k = record { at = λ w h. run-Ends _ _ m w (m w) refl h (k.at w (g w h)) }
