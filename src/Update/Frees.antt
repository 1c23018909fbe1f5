-- ===== src/Update/Frees.antt =====
-- The blocks of the table's entries: how they are allocated, put together and freed.
use fwupd_efi.Base.{ℕ, ◌≡◌, ◌∙◌, ap, sym, refl, Option, none, some, List, [], ◌∷◌, ◌++◌}
use mathlib.Core.List.{append_assoc}
use fwupd_efi.Memory.{Buffer}
use fwupd_efi.Firmware.Services.{Services, Text}
use fwupd_efi.Firmware.Monad.{World, deref}
use fwupd_efi.Firmware.Keeps.{Keeps-bounds}
use fwupd_efi.Firmware.Leads.{Leads, Leads-bind, Leads-step, Leads-pure, Leads-keep}
use fwupd_efi.Firmware.Live.{
  Holding, block, Holding-on_option, get_time-Holding, allocate_zero_pool-Holding,
  free_pool-Holding, free_null-Holding,
}
use fwupd_efi.Debug.Live.{fwup_log-Holding}
use fwupd_efi.Common.{malloc0, time}
use fwupd_efi.Update.{Update, free_name, free_info, update_table_free}
use fwupd_efi.Update.Live.{owned, held_by}

held_by-append :
    (us : List Update) (u : Update) (xs : List ℕ)
    → held_by (us ++ u ∷ []) xs ≡ owned u (held_by us xs)
held_by-append [] u xs = refl
held_by-append (v ∷ us) u xs = held_by-append us u (owned v xs)

owned-append : (u : Update) (xs ys : List ℕ) → owned u (xs ++ ys) ≡ owned u xs ++ ys
owned-append u xs ys =
    ap (block (λ t. t.addr) u.name ++◌)
      (sym (append_assoc (block (λ b. b.addr) u.info) (u.at ∷ xs) ys))
    ∙ sym (append_assoc (block (λ t. t.addr) u.name) (block (λ b. b.addr) u.info ++ u.at ∷ xs) ys)

held_by-split : (us : List Update) (xs : List ℕ) → held_by us xs ≡ held_by us [] ++ xs
held_by-split [] xs = refl
held_by-split (u ∷ us) xs =
    held_by-split us (owned u xs)
    ∙ ap (held_by us [] ++◌) (owned-append u [] xs)
    ∙ sym (append_assoc (held_by us []) (owned u []) xs)
    ∙ ap (◌++ xs) (sym (held_by-split us (owned u [])))

pub held_by-append-split :
    (us : List Update) (u : Update) (xs : List ℕ)
    → held_by (us ++ u ∷ []) [] ++ xs ≡ owned u (held_by us [] ++ xs)
held_by-append-split us u xs =
    ap (◌++ xs) (held_by-append us u []) ∙ sym (owned-append u (held_by us []) xs)

module _ {S A : Type 0} {P : World S → Type 0} where
  pub deref-same : (o : Option A) → Leads P (deref o) (λ a w. (o ≡ some a) × P w)
  unfolding deref
  deref-same none = record { at = λ w h. tt }
  deref-same (some a) = record { at = λ w h. (refl, h) }

module _ (F : Services) where
  pub malloc0-Holding :
      (xs : List ℕ) (size : ℕ)
      → Leads (Holding xs) (malloc0 F size) (λ r. Holding (block (λ b. b.addr) r ++ xs))
  unfolding malloc0
  malloc0-Holding xs size = Leads-bind _ _ (allocate_zero_pool-Holding F size) λ o.
      Holding-on_option (λ b. b.addr) o _ _
        (Leads-step _ _ (fwup_log-Holding F xs _ _ _ _) λ _. Leads-pure none λ w h. h)
        (λ b. Leads-pure (some b) λ w h. h)

  free_name-Holding :
      (xs : List ℕ) (o : Option Text)
      → Leads (Holding (block (λ t. t.addr) o ++ xs)) (free_name F o) (λ _. Holding xs)
  unfolding free_name
  free_name-Holding xs none = Leads-keep _ (free_null-Holding F) λ _ w h. h
  free_name-Holding xs (some t) = free_pool-Holding F [] xs t.addr

  free_info-Holding :
      (ys xs : List ℕ) (o : Option Buffer)
      → Leads
          (Holding (ys ++ (block (λ b. b.addr) o ++ xs)))
          (free_info F o)
          (λ _. Holding (ys ++ xs))
  unfolding free_info
  free_info-Holding ys xs none = Leads-keep _ (free_null-Holding F) λ _ w h. h
  free_info-Holding ys xs (some b) = free_pool-Holding F ys xs b.addr

  pub table_free-Holding :
      (xs : List ℕ) (u : Update)
      → Leads (Holding (owned u xs)) (update_table_free F u) (λ _. Holding xs)
  unfolding update_table_free
  table_free-Holding xs u =
      Leads-bind _ _ (free_info-Holding (block (λ t. t.addr) u.name) (u.at ∷ xs) u.info) λ _.
        Leads-bind _ _ (free_name-Holding (u.at ∷ xs) u.name) λ _. free_pool-Holding F [] xs u.at

  pub time-same :
      (xs : List ℕ) (b : Buffer) (off : ℕ)
      → Leads (Holding xs) (time F b off) (λ c w. (c.addr ≡ b.addr) × Holding xs w)
  unfolding time
  time-same xs b off =
      Leads-step _ _ (Keeps-bounds _ _ _)
        λ _. Leads-step _ _ (get_time-Holding F) λ r. Leads-pure _ λ w h. (refl, h)
