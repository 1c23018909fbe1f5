-- ===== src/Firmware/Live.antt =====
-- The blocks of pool memory that are live: what a trace of calls allocated and did not free.
use fwupd_efi.Base.{
  ℕ, ◌≡◌, refl, Bool, true, false, Option, none, some, List, [], ◌∷◌, ◌++◌, String,
}
use fwupd_efi.Efi.{Name, Guid}
use fwupd_efi.Firmware.Services.{Services, Arg}
use fwupd_efi.Firmware.Monad.{
  M, Checked, value, fault, World, Event, call, emit, on_option, pool_allocated, pool_freed,
}
use fwupd_efi.Firmware.Calls.{
  get_variable_call, set_variable_call, get_next_variable_name, get_time, allocated, allocate_pool,
  allocate_zero_pool, zeroed, free_pool, str_duplicate, vpool_print, pool_print, print,
}
use fwupd_efi.Firmware.Keeps.{Keeps, After, Keeps-bind, Keeps-pure, keeps_rules}
use fwupd_efi.Firmware.Leads.{Leads, Ends, Leads-bind, Leads-step, Leads-pure, Leads-emit}

abbrev is_pool : Event → Bool
is_pool (pool_allocated a) = true
is_pool (pool_freed a) = true
is_pool _ = false

-- The trace, newest call first, leaves the blocks at the addresses live. A block is freed only if it is
-- live, and address 0 is NULL.
pub data Live : List Event → List ℕ → Type 0 where
  nothing_yet : Live [] []
  block_allocated :
      {t : List Event} {xs : List ℕ} (a : ℕ) → Live t xs → Live (pool_allocated a ∷ t) (a ∷ xs)
  block_freed :
      {t : List Event} (xs ys : List ℕ) (a : ℕ)
      → Live t (xs ++ a ∷ ys)
      → Live (pool_freed a ∷ t) (xs ++ ys)
  null_freed : {t : List Event} {xs : List ℕ} → Live t xs → Live (pool_freed 0 ∷ t) xs
  other_call :
      {t : List Event} {xs : List ℕ} (e : Event) → is_pool e ≡ false → Live t xs → Live (e ∷ t) xs

-- The world in which these blocks are live.
abbrev pub Holding : {S : Type 0} → List ℕ → World S → Type 0
Holding xs w = Live w.trace xs

-- The address of a block, if there is one.
abbrev pub block : {A : Type 0} → (A → ℕ) → Option A → List ℕ
block addr none = []
block addr (some a) = addr a ∷ []

Ends-After : {W A : Type 0} (P : W → Type 0) (c : Checked (A × W)) → Ends (λ _. P) c → After P c
Ends-After P (value (a, w)) h = h
Ends-After P (fault e) h = tt

pub Leads-Keeps : {W A : Type 0} {P : W → Type 0} (m : M W A) → Leads P m (λ _. P) → Keeps P m
Leads-Keeps m k = record { at = λ w h. Ends-After _ (m w) (k.at w h) }

module _ {S A B : Type 0} {xs : List ℕ} {R : B → World S → Type 0} where
  -- A block that may not be there.
  pub Holding-on_option :
      (addr : A → ℕ) (o : Option A) (m : M (World S) B) (f : A → M (World S) B)
      → Leads (Holding xs) m R
      → ((a : A) → Leads (Holding (addr a ∷ xs)) (f a) R)
      → Leads (Holding (block addr o ++ xs)) (on_option o m f) R
  Holding-on_option addr none m f k l = k
  Holding-on_option addr (some a) m f k l = l a

module _ {S : Type 0} {xs : List ℕ} where
  pub Holding-call : {A : Type 0} (f : S → A × S) → Keeps (Holding {S = S} xs) (call f)
  unfolding call
  Holding-call f = record { at = λ w h. h }

  pub Holding-emit : (e : Event) → is_pool e ≡ false → Keeps (Holding {S = S} xs) (emit e)
  unfolding emit
  Holding-emit e q = record { at = λ w h. other_call e q h }

module _ (F : Services) {xs : List ℕ} where
  pub get_variable_call-Holding :
      (name : Name) (guid : Guid) (size : ℕ) (room : Bool)
      → Keeps (Holding xs) (get_variable_call F name guid size room)
  unfolding get_variable_call
  get_variable_call-Holding name guid size room = Holding-call _

  pub get_time-Holding : Keeps (Holding xs) (get_time F)
  unfolding get_time
  get_time-Holding = Holding-call _

  pub next_name-Holding :
      (size : ℕ) (name : Name) (guid : Guid)
      → Keeps (Holding xs) (get_next_variable_name F size name guid)
  unfolding get_next_variable_name
  next_name-Holding size name guid = Holding-call _

  pub set_variable_call-Holding :
      (name : Name) (guid : Guid) (attrs : ℕ) (bytes : List ℕ)
      → Keeps (Holding xs) (set_variable_call F name guid attrs bytes)
  unfolding set_variable_call
  set_variable_call-Holding name guid attrs bytes =
      Keeps-bind _ _ (Holding-call _) λ rc. Keeps-bind _ _ (Holding-emit _ refl) λ _. Keeps-pure rc

  pub print-Holding : (units : Name) → Keeps (Holding xs) (print F units)
  unfolding print
  print-Holding units = Keeps-bind _ _ (Holding-call _) λ _. Holding-emit _ refl

  -- Memory that is allocated is live.
  allocated-Holding :
      {A : Type 0} (addr : A → ℕ) (o : Option A)
      → Leads (Holding xs) (allocated F addr o) (λ r. Holding (block addr r ++ xs))
  unfolding allocated
  allocated-Holding addr none = Leads-pure none λ w h. h
  allocated-Holding addr (some a) =
      Leads-bind {Q = λ _. Holding (addr a ∷ xs)} _ _
        (Leads-emit _ λ w h. block_allocated (addr a) h) λ _. Leads-pure (some a) λ w h. h

  pub allocate_pool-Holding :
      (size : ℕ)
      → Leads (Holding xs) (allocate_pool F size) (λ r. Holding (block (λ b. b.addr) r ++ xs))
  unfolding allocate_pool
  allocate_pool-Holding size = Leads-step _ _ (Holding-call _) λ r. allocated-Holding _ r

  pub allocate_zero_pool-Holding :
      (size : ℕ)
      → Leads (Holding xs) (allocate_zero_pool F size) (λ r. Holding (block (λ b. b.addr) r ++ xs))
  unfolding allocate_zero_pool
  allocate_zero_pool-Holding size =
      Leads-step _ _ (Holding-call _) λ r. allocated-Holding _ (zeroed F size r)

  pub str_duplicate-Holding :
      (name : Name)
      → Leads (Holding xs) (str_duplicate F name) (λ r. Holding (block (λ t. t.addr) r ++ xs))
  unfolding str_duplicate
  str_duplicate-Holding name = Leads-step _ _ (Holding-call _) λ r. allocated-Holding _ r

  pub vpool_print-Holding :
      (fmt : String) (args : List Arg)
      → Leads (Holding xs) (vpool_print F fmt args) (λ r. Holding (block (λ t. t.addr) r ++ xs))
  unfolding vpool_print
  vpool_print-Holding fmt args = Leads-step _ _ (Holding-call _) λ r. allocated-Holding _ r

  pub pool_print-Holding :
      (fmt func : String) (tmp : Name)
      → Leads (Holding xs) (pool_print F fmt func tmp) (λ r. Holding (block (λ t. t.addr) r ++ xs))
  unfolding pool_print
  pool_print-Holding fmt func tmp = Leads-step _ _ (Holding-call _) λ r. allocated-Holding _ r

  pub free_null-Holding : Keeps (Holding xs) (free_pool F 0)
  unfolding free_pool
  free_null-Holding =
      Leads-Keeps _ (Leads-step _ _ (Holding-call _) λ _. Leads-emit _ λ w h. null_freed h)

-- A live block is freed, among others.
pub free_pool-Holding :
    (F : Services) (ys xs : List ℕ) (a : ℕ)
    → Leads (Holding (ys ++ a ∷ xs)) (free_pool F a) (λ _. Holding (ys ++ xs))
unfolding free_pool
free_pool-Holding F ys xs a =
    Leads-step _ _ (Holding-call _) λ _. Leads-emit _ λ w h. block_freed ys xs a h

pub ruleset holding_calls =
    (keeps_rules, get_variable_call-Holding, set_variable_call-Holding, print-Holding)
