-- ===== src/Firmware/Paged.antt =====
-- The pages of memory that a trace of calls allocated and did not free.
use fwupd_efi.Base.{
  ℕ, ◌≡◌, ap, sym, refl, Bool, true, false, if◌then◌else◌, Option, none, some, List, [], ◌∷◌, ◌++◌,
  String,
}
use mathlib.Core.Path.{subst}
use fwupd_efi.Efi.{Name, Guid, efi_error}
use fwupd_efi.Firmware.Services.{Services, Arg, AllocateType, PagesReply}
use fwupd_efi.Firmware.Monad.{
  World, Event, call, emit, pages_allocated, pages_freed, pool_allocated, pool_freed, variable_set,
  printed,
}
use fwupd_efi.Firmware.Calls.{
  get_variable_call, set_variable_call, allocated, allocate_pool, free_pool, vpool_print,
  pool_print, print, read_call, allocate_pages, free_pages,
}
use fwupd_efi.Firmware.Keeps.{Keeps, keeps_rules}
use fwupd_efi.Firmware.Leads.{Leads, Leads-bind, Leads-step, Leads-pure, Leads-if, Leads-emit}

abbrev is_paging : Event → Bool
is_paging (pages_allocated a n) = true
is_paging (pages_freed a n) = true
is_paging _ = false

-- The trace, newest call first, leaves ranges of pages: each is an address and the number of pages that
-- was allocated there. A range is freed only as a whole, and only if it is there.
pub data LivePages : List Event → List (ℕ × ℕ) → Type 0 where
  nothing_yet : LivePages [] []
  range_allocated :
      {t : List Event} {xs : List (ℕ × ℕ)} (a n : ℕ)
      → LivePages t xs
      → LivePages (pages_allocated a n ∷ t) ((a, n) ∷ xs)
  range_freed :
      {t : List Event} (xs ys : List (ℕ × ℕ)) (a n : ℕ)
      → LivePages t (xs ++ (a, n) ∷ ys)
      → LivePages (pages_freed a n ∷ t) (xs ++ ys)
  other_call :
      {t : List Event} {xs : List (ℕ × ℕ)} (e : Event)
      → is_paging e ≡ false
      → LivePages t xs
      → LivePages (e ∷ t) xs

-- The world in which these ranges are live.
abbrev pub Paged : {S : Type 0} → List (ℕ × ℕ) → World S → Type 0
Paged xs w = LivePages w.trace xs

module _ {S : Type 0} {xs : List (ℕ × ℕ)} where
  call-Paged : {A : Type 0} (f : S → A × S) → Keeps (Paged {S = S} xs) (call f)
  unfolding call
  call-Paged f = record { at = λ w h. h }

  emit-Paged : (e : Event) → is_paging e ≡ false → Keeps (Paged {S = S} xs) (emit e)
  unfolding emit
  emit-Paged e q = record { at = λ w h. other_call e q h }

  variable_set-Paged :
      (a : Name) (b : Guid) (c : ℕ) (d : List ℕ) (e : ℕ)
      → Keeps (Paged {S = S} xs) (emit (variable_set a b c d e))
  variable_set-Paged a b c d e = emit-Paged _ refl

  pool_allocated-Paged : (a : ℕ) → Keeps (Paged {S = S} xs) (emit (pool_allocated a))
  pool_allocated-Paged a = emit-Paged _ refl

  pool_freed-Paged : (a : ℕ) → Keeps (Paged {S = S} xs) (emit (pool_freed a))
  pool_freed-Paged a = emit-Paged _ refl

  printed-Paged : (a : Name) → Keeps (Paged {S = S} xs) (emit (printed a))
  printed-Paged a = emit-Paged _ refl

ruleset paged_steps = (
  keeps_rules, call-Paged, variable_set-Paged, pool_allocated-Paged, pool_freed-Paged,
  printed-Paged,
)

-- What a successful reply gives.
abbrev pub granted : ℕ → PagesReply → List (ℕ × ℕ)
granted n r = if efi_error r.status then [] else (r.memory, n) ∷ []

module _ (F : Services) {xs : List (ℕ × ℕ)} where
  allocated-Paged :
      {A : Type 0} (addr : A → ℕ) (o : Option A) → Keeps (Paged xs) (allocated F addr o)
  unfolding allocated
  allocated-Paged addr none = search paged_steps
  allocated-Paged addr (some b) = search paged_steps

  pub get_variable_call-Paged :
      (name : Name) (guid : Guid) (size : ℕ) (buf : Bool)
      → Keeps (Paged xs) (get_variable_call F name guid size buf)
  unfolding get_variable_call
  get_variable_call-Paged name guid size buf = search paged_steps

  pub set_variable_call-Paged :
      (name : Name) (guid : Guid) (attrs : ℕ) (bytes : List ℕ)
      → Keeps (Paged xs) (set_variable_call F name guid attrs bytes)
  unfolding set_variable_call
  set_variable_call-Paged name guid attrs bytes = search paged_steps

  pub allocate_pool-Paged : (size : ℕ) → Keeps (Paged xs) (allocate_pool F size)
  unfolding allocate_pool
  allocate_pool-Paged size = search (paged_steps, allocated-Paged)

  pub free_pool-Paged : (p : ℕ) → Keeps (Paged xs) (free_pool F p)
  unfolding free_pool
  free_pool-Paged p = search paged_steps

  pub vpool_print-Paged :
      (fmt : String) (args : List Arg) → Keeps (Paged xs) (vpool_print F fmt args)
  unfolding vpool_print
  vpool_print-Paged fmt args = search (paged_steps, allocated-Paged)

  pub pool_print-Paged :
      (fmt func : String) (tmp : Name) → Keeps (Paged xs) (pool_print F fmt func tmp)
  unfolding pool_print
  pool_print-Paged fmt func tmp = search (paged_steps, allocated-Paged)

  pub print-Paged : (units : Name) → Keeps (Paged xs) (print F units)
  unfolding print
  print-Paged units = search paged_steps

  pub read_call-Paged : (fh size : ℕ) → Keeps (Paged xs) (read_call F fh size)
  unfolding read_call
  read_call-Paged fh size = search paged_steps

  pub granted_none : (n : ℕ) (r : PagesReply) → efi_error r.status ≡ true → granted n r ++ xs ≡ xs
  granted_none n r t = ap (λ b. (if b then [] else (r.memory, n) ∷ []) ++ xs) t

  pub granted_some :
      (n : ℕ) (r : PagesReply) → efi_error r.status ≡ false → granted n r ++ xs ≡ (r.memory, n) ∷ xs
  granted_some n r f = ap (λ b. (if b then [] else (r.memory, n) ∷ []) ++ xs) f

  pub allocate_pages-Paged :
      (type : AllocateType) (n addr : ℕ)
      → Leads (Paged xs) (allocate_pages F type n addr) (λ r. Paged (granted n r ++ xs))
  unfolding allocate_pages
  allocate_pages-Paged type n addr = Leads-step _ _ (call-Paged _) λ r.
      Leads-bind {Q = λ _. Paged (granted n r ++ xs)} _ _
        (Leads-if (efi_error r.status) _ _
          (λ t. Leads-pure tt λ w h. subst (λ ys. Paged ys w) (sym (granted_none n r t)) h)
          (λ f.
            Leads-emit _
              λ w h. subst (LivePages _) (sym (granted_some n r f)) (range_allocated r.memory n h)))
        λ _. Leads-pure r λ w h. h

pub free_pages-Paged :
    (F : Services) (ys xs : List (ℕ × ℕ)) (a n : ℕ)
    → Leads (Paged (ys ++ (a, n) ∷ xs)) (free_pages F a n) (λ _. Paged (ys ++ xs))
unfolding free_pages
free_pages-Paged F ys xs a n = Leads-step _ _ (call-Paged _) λ rc.
    Leads-bind {Q = λ _. Paged (ys ++ xs)} _ _ (Leads-emit _ λ w h. range_freed ys xs a n h)
      λ _. Leads-pure rc λ w h. h
