-- ===== src/Firmware/Monad.antt =====
-- The monad of the program's steps: the world is threaded, and a step may fault.
use fwupd_efi.Base.{ℕ, ◌+◌, Bool, List, ◌∷◌, Option, none, some, leb, if◌then◌else◌}
use fwupd_efi.Memory.{Buffer}
use fwupd_efi.Efi.{Name, Guid, Result, ok, err}
use fwupd_efi.Firmware.Services.{ResetType, Capsule, Block}

-- What C leaves undefined, the end of a loop's fuel, and an `assert` that fails.
pub data Fault : Type 0 where
  null_pointer out_of_bounds no_fuel assertion : Fault

pub data Checked (A : Type 0) : Type 0 where
  value : A → Checked A
  fault : Fault → Checked A

-- Calls that others can see, with their status where it is one.
pub data Event : Type 0 where
  variable_set : Name → Guid → ℕ → List ℕ → ℕ → Event
  pages_allocated pages_freed : ℕ → ℕ → Event
  pool_allocated pool_freed : ℕ → Event
  printed : Name → Event
  stalled : ℕ → Event
  file_opened file_closed : ℕ → Event
  capsules_updated : List Capsule → ℕ → List Block → ℕ → Event
  system_reset : ResetType → ℕ → Event

-- `debugging` and `once` are the static variables of efi/fwup-debug.c.
pub record World (S : Type 0) : Type 0 where
  pub fw : S
  pub debugging : Bool
  pub once : Bool
  pub trace : List Event

abbrev pub M : Type 0 → Type 0 → Type 0
M W A = W → Checked (A × W)

unfoldable pub pure : {W A : Type 0} → A → M W A
pure a w = value (a, w)

unfoldable pub fail : {W A : Type 0} → Fault → M W A
fail e w = fault e

-- A computation on memory alone.
unfoldable pub lift : {W A : Type 0} → Checked A → M W A
lift c w = elim c [ value a ↦ value (a, w) | fault e ↦ fault e ]

-- A call of the firmware.
unfoldable pub call : {S A : Type 0} → (S → A × S) → M (World S) A
call f w = let (a, s) = f w.fw in value (a, record w { fw = s })

unfoldable pub emit : {S : Type 0} → Event → M (World S) (Unit {0})
emit e w = value (tt, record w { trace = e ∷ w.trace })

-- An access to `n` bytes from `off` on.
unfoldable pub bounds : {W : Type 0} → Buffer → ℕ → ℕ → M W (Unit {0})
bounds b off n w = if leb (off + n) b.size then value (tt, w) else fault out_of_bounds

-- A pointer is followed.
unfoldable pub deref : {W A : Type 0} → Option A → M W A
deref none w = fault null_pointer
deref (some a) w = value (a, w)

-- The static variables, and any other part of the world.
unfoldable pub gets : {W A : Type 0} → (W → A) → M W A
gets f w = value (f w, w)

unfoldable pub modify : {W : Type 0} → (W → W) → M W (Unit {0})
modify f w = value (tt, f w)

infixl 5 ◌>>=◌ ◌>>◌
unfoldable pub ◌>>=◌ : {W A B : Type 0} → M W A → (A → M W B) → M W B
unfolding pure fail lift call emit bounds deref gets modify
◌>>=◌ m f w = elim (m w) [ value (a, w') ↦ f a w' | fault e ↦ fault e ]

abbrev pub ◌>>◌ : {W B : Type 0} → M W (Unit {0}) → M W B → M W B
m >> k = m >>= λ _. k

-- To go on by what an option or a status holds.
abbrev pub on_option : {W A B : Type 0} → Option A → M W B → (A → M W B) → M W B
on_option none m f = m
on_option (some a) m f = f a

abbrev pub on_result : {W A B : Type 0} → Result A → (ℕ → M W B) → (A → M W B) → M W B
on_result (err rc) g f = g rc
on_result (ok a) g f = f a
