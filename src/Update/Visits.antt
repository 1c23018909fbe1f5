-- ===== src/Update/Visits.antt =====
-- What one round of the table's loop leaves of pool memory.
use fwupd_efi.Base.{
  if◌then◌else◌, ℕ, ◌∙◌, ap, sym, Option, none, some, List, [], ◌∷◌, ◌++◌, length, leb, not, same,
  ◌==◌, ◌||◌,
}
use Prim.Native.Nat.{bit_and}
use mathlib.Core.Path.{subst}
use fwupd_efi.Memory.{get32}
use fwupd_efi.Efi.{
  Name, Guid, Result, ok, err, efi_error, fwupdate_guid, guid_eq, info_status, info_time_attempted,
  attempt_update,
}
use fwupd_efi.Firmware.Services.{Services, str}
use fwupd_efi.Firmware.Monad.{◌>>=◌, World, pure, on_option, on_result, ◌>>◌}
use fwupd_efi.Firmware.Keeps.{Keeps-bounds}
use fwupd_efi.Firmware.Leads.{
  Leads, Leads-bind, Leads-step, Leads-pure, Leads-if, Leads-given, Leads-from,
}
use fwupd_efi.Firmware.Live.{Holding, block, Holding-on_option}
use fwupd_efi.Variable.Live.{delete_variable-Holding}
use fwupd_efi.Debug.{fwup_log, delete_variable}
use fwupd_efi.Variable.{warning}
use fwupd_efi.Debug.Live.{fwup_log-Holding}
use fwupd_efi.Update.{
  Update, max_updates, name_verbose, name_debug_log, update_table_free, keep_attempt, take_update,
  visit,
}
use fwupd_efi.Update.Live.{Parts, parts, owned, held_by, populate_info-Parts}
use fwupd_efi.Update.Frees.{
  held_by-append-split, deref-same, malloc0-Holding, table_free-Holding, time-same,
}

abbrev kept : Option Update → List ℕ → List ℕ
kept none xs = xs
kept (some u) xs = owned u xs

abbrev taken : Result (Option Update) → List ℕ → List ℕ
taken (err rc) xs = xs
taken (ok o) xs = kept o xs

-- A round adds the blocks of the entry that it adds to the table.
abbrev pub HoldsRound :
    {S : Type 0} → List ℕ → List Update → Result (List Update) → World S → Type 0
HoldsRound xs us (ok vs) w = Holding (held_by vs [] ++ xs) w
HoldsRound xs us (err rc) w = Holding (held_by us [] ++ xs) w

module _ (F : Services) where
  keep_attempt-Holding :
      (xs : List ℕ) (u : Update)
      → Leads (Holding (owned u xs)) (keep_attempt F u) (λ r. Holding (kept r xs))
  unfolding keep_attempt
  keep_attempt-Holding xs u = Leads-bind _ _ (deref-same u.info) λ b. Leads-given _ λ e.
      Leads-step _ _ (Keeps-bounds _ _ _) λ _.
        Leads-if (bit_and (get32 b.byte info_status) attempt_update == 0) _ _
          (λ _. Leads-bind _ _ (table_free-Holding F xs u) λ _. Leads-pure none λ w h. h)
          (λ _. Leads-bind _ _ (time-same F _ b info_time_attempted) λ c. Leads-given _ λ f.
            Leads-pure _ λ w h.
              subst (λ ys. Holding ys w)
                (ap (λ i. block (λ t. t.addr) u.name ++ (block (λ d. d.addr) i ++ u.at ∷ xs)) e
                  ∙ ap (λ a. block (λ t. t.addr) u.name ++ a ∷ u.at ∷ xs) (sym f))
                h)

  populated :
      (xs : List ℕ) (name : Name) (u : Update) (rc : ℕ)
      → Leads
          (Holding (owned u xs))
          (if efi_error rc
            then (do
              _ ← delete_variable F name fwupdate_guid
              fwup_log F warning "fwup_populate_update_table"
                  "Could not populate update info for '%s'"
                  (str name ∷ [])
              update_table_free F u
              pure (err rc))
            else (do r ← keep_attempt F u; pure (ok r)))
          (λ r. Holding (taken r xs))
  populated xs name u rc =
      Leads-if (efi_error rc) _ _
        (λ _. Leads-step _ _ (delete_variable-Holding F _ name fwupdate_guid) λ _.
          Leads-step _ _ (fwup_log-Holding F _ _ _ _ _)
            λ _. Leads-bind _ _ (table_free-Holding F xs u) λ _. Leads-pure (err rc) λ w h. h)
        λ _. Leads-bind _ _ (keep_attempt-Holding xs u) λ r. Leads-pure (ok r) λ w h. h

  take_update-Holding :
      (xs : List ℕ) (name : Name)
      → Leads (Holding xs) (take_update F name) (λ r. Holding (taken r xs))
  unfolding take_update
  take_update-Holding xs name = Leads-step _ _ (fwup_log-Holding F xs _ _ _ _) λ _.
      Leads-bind _ _ (malloc0-Holding F xs 32) λ p.
        Holding-on_option (λ b. b.addr) p _ _ (Leads-pure _ λ w h. h)
          λ b.
            Leads-bind {Q = Parts F (b.addr ∷ xs) b.addr name} _ _
              (populate_info-Parts F (b.addr ∷ xs) b.addr name)
              λ r.
                Leads-from _ (λ w h. subst (λ a. Holding (parts r.0 (a ∷ xs)) w) (sym h.0) h.1)
                  (populated xs name r.0 r.1)

  pub visit-Holding :
      (xs : List ℕ) (name : Name) (vendor : Guid) (us : List Update)
      → Leads (Holding (held_by us [] ++ xs)) (visit F name vendor us) (HoldsRound xs us)
  unfolding visit
  visit-Holding xs name vendor us =
      Leads-if (not (guid_eq vendor fwupdate_guid)) _ _ (λ _. Leads-pure _ λ w h. h)
        λ _.
          Leads-if (same name name_verbose || same name name_debug_log) _ _
            (λ _. Leads-pure _ λ w h. h)
            λ _.
              Leads-if (leb max_updates (length us)) _ _
                (λ _. Leads-step _ _ (fwup_log-Holding F _ _ _ _ _) λ _. Leads-pure _ λ w h. h)
                (λ _. Leads-bind _ _ (take_update-Holding _ name) λ r. added r)
    where
      added :
          (r : Result (Option Update))
          → Leads
              (Holding {S = F.State} (taken r (held_by us [] ++ xs)))
              (on_result r
                (λ rc. pure (err rc))
                (λ kept. on_option kept (pure (ok us)) (λ u. pure (ok (us ++ u ∷ [])))))
              (HoldsRound xs us)
      added (err rc) = Leads-pure _ λ w h. h
      added (ok none) = Leads-pure _ λ w h. h
      added (ok (some u)) =
          Leads-pure _ λ w h. subst (λ ys. Holding ys w) (sym (held_by-append-split us u xs)) h
