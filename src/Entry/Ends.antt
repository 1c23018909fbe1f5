-- ===== src/Entry/Ends.antt =====
-- `efi_main` over sound firmware: it returns, and its status tells what it did.
use fwupd_efi.Base.{
  String, ℕ, ◌<◌, ◌≡◌, ◌⊎◌, inl, inr, arith, Bool, true, Option, none, some, List, [], ◌∷◌, length,
  ◌==◌,
}
use fwupd_efi.Memory.{Buffer}
use fwupd_efi.Efi.{
  Name, Guid, Result, ok, err, efi_error, out_of_resources, empty_guid, invalid_parameter-efi_error,
  out_of_resources-efi_error,
}
use fwupd_efi.Firmware.Services.{Services, Arg}
use fwupd_efi.Firmware.Monad.{Event, M, World, pure, on_option, ◌>>=◌, ◌>>◌}
use fwupd_efi.Firmware.Calls.{free_pool}
use fwupd_efi.Firmware.Keeps.{Committed, commits, Keeps-commits}
use fwupd_efi.Firmware.Total.{IsThere}
use fwupd_efi.Firmware.Reaches.{
  Reaches, Reaches-Leads, Reaches-bind, Reaches-pure, Reaches-if, Reaches-given, Reaches-Keeps,
  Reaches-then, Reaches-post,
}
use fwupd_efi.Firmware.Lawful.{Enumerates}
use fwupd_efi.Firmware.Sound.{Sound}
use fwupd_efi.Debug.Quiet.{quiet_log, fwup_log-Quiet}
use fwupd_efi.Debug.Total.{fwup_log-Safe, free_pool-Safe}
use fwupd_efi.Variable.{cleanup_free}
use fwupd_efi.Variable.Quiet.{cleanup_free-Quiet}
use fwupd_efi.Variable.Total.{cleanup_free-Safe}
use fwupd_efi.Common.Quiet.{malloc0-Quiet, malloc_raw-Quiet, msleep-Quiet}
use fwupd_efi.Common.Raw.{malloc_raw-Safe}
use fwupd_efi.OpenFile.Total.{malloc0-IsThere}
use fwupd_efi.Update.{Update, gnvn_buf_size, populate_update_table}
use fwupd_efi.Update.Quiet.{populate_update_table-Quiet}
use fwupd_efi.Update.Table.{AreEntries, IsTable, IsTableResult, malloc0-Safe}
use fwupd_efi.Update.Ends.{populate_update_table-IsTable}
use fwupd_efi.Apply.Quiet.{set_update_statuses-Quiet}
use fwupd_efi.Apply.Total.{set_update_statuses-Safe, msleep-Safe}
use fwupd_efi.Entry.Defs.{Built, warn, finish, build_and_finish, process, with_table, efi_main}
use fwupd_efi.Entry.Built.{
  IsBuilt, replaced-AllValid, terminated, warn-Quiet, say-Quiet, build_capsules-IsBuilt,
}
use fwupd_efi.Entry.Commits.{Handed, apply_and_reset-Handed}
use fwupd_efi.Entry.Handed.{debug_hook-Quiet}
use fwupd_efi.Entry.Total.{
  IsTried, say-Safe, warn-Safe, debug_hook-Safe, apply_and_reset-Safe, build_capsules-IsTried,
}

-- An error and nothing handed over, or capsules handed over and a reset.
abbrev pub FailedOrHanded : List Event → ℕ → List Event → Type 0
FailedOrHanded t result now = ((efi_error result ≡ true) × (now ≡ t)) ⊎ Handed t result now

module _ (F : Services) (fixed : Bool) (t : List Event) where
  abbrev Outcome : M (World F.State) ℕ → Type 0
  Outcome m = Reaches (Committed t) m (λ rc w. FailedOrHanded t rc (commits w.trace))

  fails : (rc : ℕ) → efi_error rc ≡ true → Outcome (pure rc)
  fails rc e = Reaches-pure rc λ w c. inl (e, c)

  warn_fails :
      (fmt : String) (args : List Arg) (rc : ℕ)
      → efi_error rc ≡ true
      → Outcome (warn F fixed fmt args >> pure rc)
  warn_fails fmt args rc e =
      Reaches-then _ _ (warn-Safe F fixed fmt args) (warn-Quiet F fixed fmt args) λ _. fails rc e

  finish-Outcome :
      (us : List Update) (b : Built)
      → AreEntries us
      → IsTried b
      → IsBuilt b
      → Outcome (finish F fixed us b)
  unfolding finish
  finish-Outcome us b h tried v =
      Reaches-if (length b.capsules == 0) _ _ (λ e. warn_fails _ _ b.rc (tried (ground arith)))
        λ f. Reaches-then _ _ (fwup_log-Safe F _ _ _ _) (fwup_log-Quiet F _ _ _ _) λ _.
          Reaches-then _ _ (set_update_statuses-Safe F us h) (set_update_statuses-Quiet F us) λ rc.
            Reaches-if (efi_error rc) _ _ (λ e. warn_fails _ _ rc e)
              λ _.
                Reaches-post _ (λ rc w k. inr k.1)
                  (Reaches-Leads _ (apply_and_reset-Safe F fixed _) (
                    apply_and_reset-Handed F fixed _ _ (ground arith) (replaced-AllValid b v)
                      (terminated b.cbd (length b.capsules))))

  module _ (sound : Sound F) where
    build_and_finish-Outcome :
        (image : ℕ) (u : Update) (us : List Update) (array cbd : Option Buffer)
        → AreEntries (u ∷ us)
        → IsThere array
        → Outcome (build_and_finish F fixed image (u ∷ us) array cbd)
    unfolding build_and_finish
    build_and_finish-Outcome image u us array none h there = fails _ out_of_resources-efi_error
    build_and_finish-Outcome image u us array (some cbd) h there =
        Reaches-bind _ _
          (Reaches-Leads _
            (build_capsules-IsTried F fixed sound image array there (u ∷ us) _ h
              (λ e. ground arith))
            (build_capsules-IsBuilt F fixed image array (u ∷ us) _ tt))
          λ b.
            Reaches-given _ (λ w k. ((k.0, k.1.0), k.1.1))
              λ (tried, v). finish-Outcome (u ∷ us) b h tried v

    process-Outcome :
        (image : ℕ) (u : Update) (us : List Update)
        → IsTable (u ∷ us)
        → Outcome (process F fixed image (u ∷ us))
    unfolding process
    process-Outcome image u us h =
        Reaches-bind _ _
          (Reaches-Keeps _ (malloc0-IsThere F sound _ (omega (arith, h.room))) (malloc0-Quiet F _))
          λ array.
            Reaches-given _ (λ w k. k)
              λ there. Reaches-then _ _ (malloc_raw-Safe F sound _) (malloc_raw-Quiet F _) λ cbd.
                Reaches-bind _ _ (build_and_finish-Outcome image u us array cbd h.entries there)
                  λ rc.
                    Reaches-then _ _ (cleanup_free-Safe F array)
                      (Keeps-commits (FailedOrHanded t rc) (cleanup_free F array)
                        λ t'. cleanup_free-Quiet F array)
                      λ _. Reaches-pure rc λ w k. k

    with_table-Outcome :
        (image : ℕ) (r : Result (List Update))
        → IsTableResult r
        → Outcome (with_table F fixed image r)
    unfolding with_table
    with_table-Outcome image (err rc) h = warn_fails _ _ rc h
    with_table-Outcome image (ok []) h =
        Reaches-then _ _ (warn-Safe F fixed _ _) (warn-Quiet F fixed _ _) λ _.
          Reaches-then _ _ (msleep-Safe F _) (msleep-Quiet F _)
            λ _. fails _ invalid_parameter-efi_error
    with_table-Outcome image (ok (u ∷ us)) h = process-Outcome image u us h

    -- Over sound firmware whose enumeration of names ends, and with more rounds than the rank of the
    -- empty name, `efi_main` returns without a fault. Either its status is an error and it made no call
    -- of `UpdateCapsule` and of `ResetSystem`; or it made one of `UpdateCapsule`, with at least one
    -- capsule, each valid with its descriptor, and a terminator behind the descriptors, and after it one
    -- of `ResetSystem`, and its status is that of `UpdateCapsule` if that is an error, and else success.
    pub efi_main-FailedOrHanded :
        (rank : Name → Guid → ℕ)
        → Enumerates F rank gnvn_buf_size
        → (fuel : ℕ) → rank [] empty_guid < fuel
        → (image : ℕ)
        → Reaches
            (Committed t)
            (efi_main F fixed fuel image)
            (λ rc w. FailedOrHanded t rc (commits w.trace))
    unfolding efi_main
    efi_main-FailedOrHanded rank enumerates fuel h image =
        Reaches-then _ _ (debug_hook-Safe F fixed sound) (debug_hook-Quiet F fixed) λ _.
          Reaches-then _ _ (say-Safe F fixed _ _) (say-Quiet F fixed _ _)
            λ _. Reaches-then _ _ (malloc0-Safe F _) (malloc0-Quiet F _) λ table. go_on table
      where
        go_on :
            (table : Option Buffer)
            → Outcome (
                on_option table (pure out_of_resources) (λ p. populate_update_table F fuel >>= λ r.
                with_table F fixed image r >>= λ rc. free_pool F p.addr >> pure rc))
        go_on none = fails _ out_of_resources-efi_error
        go_on (some p) =
            Reaches-bind _ _
              (Reaches-Keeps _ (populate_update_table-IsTable F sound.lawful rank enumerates fuel h)
                (populate_update_table-Quiet F fuel))
              λ r.
                Reaches-given _ (λ w k. k)
                  λ k. Reaches-bind _ _ (with_table-Outcome image r k) λ rc.
                    Reaches-then _ _ (free_pool-Safe F p.addr)
                      (Keeps-commits (FailedOrHanded t rc) (free_pool F p.addr)
                        λ t'. search quiet_log)
                      λ _. Reaches-pure rc λ w k. k
