-- ===== src/Update/Leaks.antt =====
-- The table and pool memory: each entry holds its own blocks, and all else is freed.
use fwupd_efi.Base.{
  false, ◌*◌, ◌<◌, ◌≡◌, refl, ℕ, zero, suc, ◌∙◌, ap, sym, Option, none, some, List, [], ◌∷◌, ◌++◌,
  ◌==◌,
}
use mathlib.Core.Path.{subst}
use fwupd_efi.Memory.{Buffer}
use fwupd_efi.Common.{malloc0}
use fwupd_efi.Efi.{
  Name, Guid, Result, ok, err, efi_error, not_found, buffer_too_small, empty_guid, out_of_resources,
}
use fwupd_efi.Firmware.Services.{Services, NextReply}
use fwupd_efi.Firmware.Calls.{free_pool, get_next_variable_name}
use fwupd_efi.Firmware.Monad.{M, fail, value, ◌>>=◌, World, pure, on_option, on_result, ◌>>◌}
use fwupd_efi.Firmware.Keeps.{Keeps}
use fwupd_efi.Firmware.Leads.{
  Leads, Leads-bind, Leads-step, Leads-pure, Leads-if, Leads-given, Leads-from, Leads-run, RanFrom,
  Leads-keep,
}
use fwupd_efi.Firmware.Lawful.{Lawful, Enumerates}
use fwupd_efi.Firmware.Reaches.{Reaches, Reaches-Leads}
use fwupd_efi.Update.Table.{IsTableResult}
use fwupd_efi.Update.Ends.{populate_update_table-IsTable}
use fwupd_efi.Firmware.Live.{Holding, block, next_name-Holding, free_pool-Holding}
use fwupd_efi.Debug.Live.{fwup_log-Holding}
use fwupd_efi.Update.{gnvn_buf_size, Update, visit, populate_loop, populate_update_table}
use fwupd_efi.Update.Live.{held_by}
use fwupd_efi.Update.Rounds.{
  Head, Rounds, no_round, one_more, name_too_long, visited, Stops, names_ended, next_failed,
  visit_failed, Collected, no_buffer, after_rounds, Collected-same,
}
use fwupd_efi.Update.Frees.{malloc0-Holding}
use fwupd_efi.Update.Visits.{HoldsRound, visit-Holding}

-- A table's entries hold their blocks; after an error those that were collected still do.
abbrev pub HoldsTable :
    (F : Services) → World F.State → List ℕ → Result (List Update) → World F.State → Type 0
HoldsTable F v xs (ok us) w = Holding (held_by us [] ++ xs) w
HoldsTable F v xs (err rc) w =
    (us : List Update) × Collected F v (err rc) us × Holding (held_by us [] ++ xs) w

module _ (F : Services) where
  module _ (start : Head F) (xs : List ℕ) where
    -- The loop's head, with the blocks of the table so far.
    abbrev AtHead : Name → Guid → List Update → World F.State → Type 0
    AtHead name vendor us w =
        Rounds start (record { name = name; vendor = vendor; updates = us; world = w })
        × Holding (held_by us [] ++ xs) w

    abbrev Stopped : List Update → Result (List Update) → Type 0
    Stopped us r = (s : Head F) × (s.updates ≡ us) × Rounds start s × Stops s r

    abbrev Left : Result (List Update) → World F.State → Type 0
    Left r w = (us : List Update) × Stopped us r × Holding (held_by us [] ++ xs) w

    stop :
        {P : World F.State → Type 0} (us : List Update) (r : Result (List Update))
        (m : M (World F.State) (Unit {0}))
        → Keeps (Holding (held_by us [] ++ xs)) m
        → ((w : World F.State) → P w → Stopped us r × Holding (held_by us [] ++ xs) w)
        → Leads P (do m; pure r) Left
    stop us r m k g =
        Leads-from _ g (Leads-given _ λ x. Leads-step _ _ k λ _. Leads-pure r λ w h. (us, x, h))

    -- The world after the call for the next name, and after the visit of that name.
    abbrev AtName : Name → Guid → List Update → NextReply → World F.State → Type 0
    AtName name vendor us r w =
        RanFrom (AtHead name vendor us) (get_next_variable_name F gnvn_buf_size name vendor) r w
        × Holding (held_by us [] ++ xs) w

    after_visit :
        (name : Name) (vendor : Guid) (us : List Update) (r : NextReply)
        → efi_error r.status ≡ false
        → (next : List Update → M (World F.State) (Result (List Update))) (v : Result (List Update))
        → ((vs : List Update) → Leads (AtHead r.name r.vendor vs) (next vs) Left)
        → Leads
            (λ w.
              RanFrom (AtName name vendor us r) (visit F r.name r.vendor us) v w
              × HoldsRound xs us v w)
            (on_result v (λ rc. pure (err rc)) next)
            Left
    after_visit name vendor us r f next (err rc) k =
        Leads-pure (err rc)
          λ w ((u, ((v, (rs, i), e), j), g), h). (us, (_, refl, rs, visit_failed e f g), h)
    after_visit name vendor us r f next (ok vs) k =
        Leads-from _ (λ w ((u, ((v, (rs, i), e), j), g), h). (one_more rs (visited e f g), h))
          (k vs)

    loop-Left :
        (fuel : ℕ) (name : Name) (vendor : Guid) (us : List Update)
        → Leads (AtHead name vendor us) (populate_loop F fuel name vendor us) Left
    unfolding populate_loop fail
    loop-Left zero name vendor us = record { at = λ w h. tt }
    loop-Left (suc fuel) name vendor us =
        Leads-bind _ _
          (Leads-run {P = AtHead name vendor us} _ (λ w h. h.1)
            (Leads-keep _ (next_name-Holding F _ _ _) λ _ w h. h))
          λ r.
            Leads-if (r.status == not_found) _ _
              (λ t. Leads-pure _ λ w ((v, (rs, i), e), h). (us, (_, refl, rs, names_ended e t), h))
              λ n.
                Leads-if (r.status == buffer_too_small) _ _
                  (λ t.
                    Leads-from _ (λ w ((v, (rs, i), e), h). (one_more rs (name_too_long e t), h))
                      (loop-Left fuel r.name r.vendor us))
                  λ m.
                    Leads-if (efi_error r.status) _ _
                      (λ t.
                        stop us (err r.status) _ (fwup_log-Holding F _ _ _ _ _)
                          λ w ((v, (rs, i), e), h). ((_, refl, rs, next_failed e n m t), h))
                      λ f.
                        Leads-bind _ _
                          (Leads-run _ (λ w h. h.1) (visit-Holding F xs r.name r.vendor us))
                          λ v. after_visit name vendor us r f _ v (loop-Left fuel r.name r.vendor)

  -- What the loop leaves, when the buffer for the names is freed.
  module _ (v : World F.State) (xs : List ℕ) where
    abbrev Start : World F.State → Head F
    Start w = record { name = []; vendor = empty_guid; updates = []; world = w }

    collected :
        (r : Result (List Update)) (us : List Update) (u : World F.State)
        → Collected F v r us
        → Holding (held_by us [] ++ xs) u
        → HoldsTable F v xs r u
    collected (err rc) us u c h = (us, c, h)
    collected (ok vs) us u c h = subst (λ l. Holding (held_by l [] ++ xs) u) (Collected-same c) h

    collect :
        (b : Buffer) (w : World F.State) (us : List Update) (r : Result (List Update))
        → malloc0 F (gnvn_buf_size * 2) v ≡ value (some b, w)
        → Stopped (Start w) (b.addr ∷ xs) us r
        → Collected F v r us
    collect b w us r e (s, q, rs, k) = subst (Collected F v r) q (after_rounds e rs k)

    free_buffer :
        (b : Buffer) (w : World F.State) (r : Result (List Update))
        → malloc0 F (gnvn_buf_size * 2) v ≡ value (some b, w)
        → Leads
            (Left (Start w) (b.addr ∷ xs) r)
            (free_pool F b.addr >>= λ _. pure r)
            (HoldsTable F v xs)
    free_buffer b w r e =
        Leads-from _ (λ u (us, x, h). (us, (x, h)))
          (Leads-given _ λ us. Leads-given _ λ x.
            Leads-bind _ _ (free_pool-Holding F (held_by us []) xs b.addr)
              λ _. Leads-pure r λ u h. collected r us u (collect b w us r e x) h)

    after_malloc :
        (fuel : ℕ) (p : Option Buffer)
        → Leads
            (λ w.
              RanFrom (λ u. (u ≡ v) × Holding xs u) (malloc0 F (gnvn_buf_size * 2)) p w
              × Holding (block (λ b. b.addr) p ++ xs) w)
            (on_option p
              (pure (err out_of_resources))
              (λ b. do r ← populate_loop F fuel [] empty_guid []; free_pool F b.addr; pure r))
            (HoldsTable F v xs)
    after_malloc fuel none =
        Leads-pure _ λ w ((u, (q, i), e), h).
          ([], no_buffer (ap (malloc0 F (gnvn_buf_size * 2)) (sym q) ∙ e), h)
    after_malloc fuel (some b) = record {
      at = λ w ((u, (q, i), e), h).
          (started w (ap (malloc0 F (gnvn_buf_size * 2)) (sym q) ∙ e)).at w (no_round, h);
    }
      where
        started :
            (w : World F.State)
            → malloc0 F (gnvn_buf_size * 2) v ≡ value (some b, w)
            → Leads
                (AtHead (Start w) (b.addr ∷ xs) [] empty_guid [])
                (do r ← populate_loop F fuel [] empty_guid []; free_pool F b.addr; pure r)
                (HoldsTable F v xs)
        started w e =
            Leads-bind _ _ (loop-Left (Start w) (b.addr ∷ xs) fuel [] empty_guid [])
              λ r. free_buffer b w r e

    populate_update_table-HoldsTable :
        (fuel : ℕ)
        → Leads (λ w. (w ≡ v) × Holding xs w) (populate_update_table F fuel) (HoldsTable F v xs)
    unfolding populate_update_table
    populate_update_table-HoldsTable fuel =
        Leads-bind _ _ (Leads-run _ (λ w h. h.1) (malloc0-Holding F xs _)) λ p. after_malloc fuel p

  -- Over lawful services whose enumeration of names ends, with more rounds than the rank of the empty
  -- name and from any world and any blocks of pool memory that are live there,
  -- `fwup_populate_update_table` returns without a fault. Where it succeeds, its result is a table, and
  -- beside the blocks that were live exactly the name, the variable and the entry of each update in the
  -- table are. With an error exactly those of the entries are that the rounds before the failing one have
  -- collected, and none if there was no buffer for the names.
  pub populate_update_table-Reaches :
      (lawful : Lawful F) (rank : Name → Guid → ℕ)
      → Enumerates F rank gnvn_buf_size
      → (fuel : ℕ) → rank [] empty_guid < fuel
      → (v : World F.State) (xs : List ℕ)
      → Reaches
          (λ w. (w ≡ v) × Holding xs w)
          (populate_update_table F fuel)
          (λ r w. IsTableResult r × HoldsTable F v xs r w)
  populate_update_table-Reaches lawful rank ends fuel h v xs =
      Reaches-Leads _ (populate_update_table-IsTable F lawful rank ends fuel h)
        (populate_update_table-HoldsTable v xs fuel)
