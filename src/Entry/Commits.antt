-- ===== src/Entry/Commits.antt =====
-- `UpdateCapsule` and `ResetSystem`, as `efi_main` calls them.
use fwupd_efi.Base.{ℕ, ◌+◌, ◌≡◌, ◌≢◌, ◌∙◌, ap, Bool}
use fwupd_efi.Base.{List, [], ◌∷◌, ◌++◌, arith, length, if◌then◌else◌}
use fwupd_efi.Efi.{efi_error, success}
use fwupd_efi.Firmware.Services.{Services, Capsule, Block, ResetType}
use fwupd_efi.Firmware.Monad.{World, Event, capsules_updated, system_reset}
use fwupd_efi.Firmware.Calls.{update_capsule, reset_system}
use fwupd_efi.Firmware.Keeps.{Keeps-if, Committed, Committed-call, commits}
use fwupd_efi.Firmware.Leads.{
  Leads, Leads-step, Leads-bind, Leads-pure, Leads-if, Leads-given, Leads-emit,
}
use fwupd_efi.Debug.Quiet.{quiet_log, debug_get_enabled-Quiet}
use fwupd_efi.Common.Quiet.{msleep-Quiet}
use fwupd_efi.Apply.{apply_capsules}
use fwupd_efi.Entry.Defs.{Built, blocks_at, apply_and_reset}
use fwupd_efi.Entry.Blocks.{AllValid, terminator}
use fwupd_efi.Entry.Built.{warn-Quiet, say-Quiet}

-- Of the commits `now`, newest first: after `t`, capsules that are all valid with their descriptors were handed over once,
-- at least one of them, with a terminating descriptor behind the last; after that the system was
-- reset, and nothing else was committed.
-- What was returned is the status of that call.
pub record Handed (t : List Event) (result : ℕ) (now : List Event) : Type 0 where
  pub capsules : List Capsule
  pub blocks : List Block
  pub reset : ResetType
  pub rc : ℕ
  pub status : result ≡ (if efi_error rc then rc else success)
  pub some_capsule : length capsules ≢ 0
  pub all_valid : AllValid capsules blocks
  pub committed :
      now
      ≡ system_reset reset success
        ∷ capsules_updated capsules (length capsules) (blocks ++ terminator ∷ []) rc
        ∷ t

-- The call of `UpdateCapsule` that returned `rc`.
abbrev Called : {S : Type 0} → List Event → List Capsule → ℕ → List Block → ℕ → ℕ → World S → Type 0
Called t cs n bs result rc w =
    (result ≡ (if efi_error rc then rc else success))
    × Committed (capsules_updated cs n bs rc ∷ t) w

module _ (F : Services) {t : List Event} where
  update_capsule-commits :
      (cs : List Capsule) (n : ℕ) (bs : List Block)
      → Leads
          (Committed t)
          (update_capsule F cs n bs)
          (λ rc. Committed (capsules_updated cs n bs rc ∷ t))
  unfolding update_capsule
  update_capsule-commits cs n bs = Leads-step _ _ (Committed-call _) λ rc.
      Leads-bind _ _
        (Leads-emit {Q = Committed (capsules_updated cs n bs rc ∷ t)} _
          λ w c. ap (λ l. capsules_updated cs n bs rc ∷ l) c)
        λ _. Leads-pure rc λ w c. c

  reset_system-commits :
      (r : ResetType) (rc : ℕ)
      → Leads (Committed t) (reset_system F r rc) (λ _. Committed (system_reset r rc ∷ t))
  unfolding reset_system
  reset_system-commits r rc =
      Leads-step _ _ (Committed-call _) λ _. Leads-emit _ λ w c. ap (λ l. system_reset r rc ∷ l) c

module _ (F : Services) {t : List Event} where
  apply_capsules-commits :
      (cs : List Capsule) (bs : List Block) (n : ℕ)
      → Leads (Committed t) (apply_capsules F cs bs n) (λ r w. (rc : ℕ) × Called t cs n bs r.1 rc w)
  unfolding apply_capsules
  apply_capsules-commits cs bs n = Leads-step _ _ (search quiet_log) λ q.
      Leads-step _ _ (search quiet_log) λ _. Leads-step _ _ (search quiet_log) λ _.
        Leads-step _ _ (search msleep-Quiet) λ _.
          Leads-bind _ _ (update_capsule-commits F cs n bs) λ rc.
            Leads-if (efi_error rc) _ _
              (λ e.
                Leads-step _ _ (search quiet_log) λ _. Leads-pure _ λ w c. (rc, (ground arith, c)))
              (λ e. Leads-pure _ λ w c. (rc, (ground arith, c)))

  module _ (fixed : Bool) where
    pub apply_and_reset-Handed :
        (b : Built) (bs : List Block)
        → length b.capsules ≢ 0
        → AllValid b.capsules bs
        → blocks_at b.cbd 0 (length b.capsules + 1) ≡ bs ++ terminator ∷ []
        → Leads (Committed t) (apply_and_reset F fixed b) (λ rc w. Handed t rc (commits w.trace))
    unfolding apply_and_reset
    apply_and_reset-Handed b bs h v e =
        Leads-bind _ _ (apply_capsules-commits b.capsules _ (length b.capsules)) λ r.
          Leads-given
            {P = Called t b.capsules (length b.capsules) (blocks_at b.cbd 0 (length b.capsules + 1))
              r.1}
            _
            λ rc.
              Leads-given
                {P = λ _. Committed (
                  capsules_updated b.capsules (length b.capsules)
                    (blocks_at b.cbd 0 (length b.capsules + 1)) rc
                  ∷ t)}
                _
                λ status.
                  Leads-step _ _
                    (Keeps-if (efi_error r.1) _ _ (search (warn-Quiet F fixed)) (search quiet_log))
                    λ _. Leads-step _ _ (search (say-Quiet F fixed)) λ _.
                      Leads-step _ _ (search msleep-Quiet) λ _.
                        Leads-step _ _ (search debug_get_enabled-Quiet) λ enabled.
                          Leads-step _ _
                            (Keeps-if enabled _ _ (search msleep-Quiet) (search quiet_log))
                            λ _. Leads-bind _ _ (reset_system-commits F r.0 success) λ _.
                              Leads-pure _ λ w c. record {
                                capsules = b.capsules;
                                blocks = bs;
                                reset = r.0;
                                rc = rc;
                                status = status;
                                some_capsule = h;
                                all_valid = v;
                                committed =
                                    c
                                    ∙ ap
                                        (λ l.
                                          system_reset r.0 success
                                          ∷ capsules_updated b.capsules (length b.capsules) l rc
                                          ∷ t)
                                        e;
                              }
