-- ===== src/Entry/Handed.antt =====
-- What `efi_main` hands to the firmware, over any services.
use fwupd_efi.Base.{ℕ, ◌≡◌, ◌⊎◌, inl, inr, Bool, Option, none, some}
use fwupd_efi.Base.{List, [], ◌∷◌, arith, length, ◌==◌}
use fwupd_efi.Memory.{Buffer}
use fwupd_efi.Efi.{Name, Guid, Result, ok, err, efi_error}
use fwupd_efi.Firmware.Services.{Services}
use fwupd_efi.Firmware.Monad.{Event}
use fwupd_efi.Firmware.Calls.{free_pool}
use fwupd_efi.Firmware.Keeps.{Keeps, Keeps-commits, Committed, commits}
use fwupd_efi.Firmware.Leads.{
  Leads, Leads-step, Leads-bind, Leads-pure, Leads-if, Leads-given, Leads-on_option, Leads-post,
}
use fwupd_efi.Variable.{cleanup_free}
use fwupd_efi.Variable.Quiet.{cleanup_free-Quiet}
use fwupd_efi.Debug.Quiet.{quiet_log, debug_set_enabled-Quiet}
use fwupd_efi.Common.Quiet.{malloc0-Quiet, malloc_raw-Quiet, msleep-Quiet}
use fwupd_efi.Capsule.{cbd_set_terminator}
use fwupd_efi.Update.{Update}
use fwupd_efi.Update.Quiet.{populate_update_table-Quiet}
use fwupd_efi.Apply.Quiet.{set_update_statuses-Quiet}
use fwupd_efi.Entry.Defs.{
  Built, get_data, debug_hook, finish, build_and_finish, process, with_table, efi_main,
}
use fwupd_efi.Entry.Built.{
  IsBuilt, replaced-AllValid, terminated, warn-Quiet, say-Quiet, build_capsules-IsBuilt,
}
use fwupd_efi.Entry.Commits.{Handed, apply_and_reset-Handed}

-- The program made no commit after `t`, or it handed capsules over and reset the system.
abbrev pub NoneOrHanded : List Event → ℕ → List Event → Type 0
NoneOrHanded t result now = (now ≡ t) ⊎ Handed t result now

module _ (F : Services) {t : List Event} where
  module _ (fixed : Bool) where
    finish-Handed :
        (updates : List Update) (b : Built)
        → IsBuilt b
        → Leads
            (Committed t)
            (finish F fixed updates b)
            (λ rc w. NoneOrHanded t rc (commits w.trace))
    unfolding finish
    finish-Handed updates b v =
        Leads-if (length b.capsules == 0) _ _
          (λ _. Leads-step _ _ (search (warn-Quiet F fixed)) λ _. Leads-pure _ λ w c. inl c)
          (λ h. Leads-step _ _ (search quiet_log) λ _.
            Leads-step _ _ (search set_update_statuses-Quiet) λ rc.
              Leads-if (efi_error rc) _ _
                (λ _. Leads-step _ _ (search (warn-Quiet F fixed)) λ _. Leads-pure _ λ w c. inl c)
                (λ _.
                  Leads-post _
                    (apply_and_reset-Handed F fixed
                      (record b { cbd = cbd_set_terminator b.cbd (length b.capsules) }) _
                      (ground arith) (replaced-AllValid b v) (terminated b.cbd (length b.capsules)))
                    λ _ w d. inr d))

    build_and_finish-Handed :
        (image : ℕ) (updates : List Update) (array cbd : Option Buffer)
        → Leads
            (Committed t)
            (build_and_finish F fixed image updates array cbd)
            (λ rc w. NoneOrHanded t rc (commits w.trace))
    unfolding build_and_finish
    build_and_finish-Handed image updates array none = Leads-pure _ λ w c. inl c
    build_and_finish-Handed image updates array (some cbd) =
        Leads-bind _ _ (build_capsules-IsBuilt F fixed image array updates _ tt)
          λ b. Leads-given _ λ v. finish-Handed updates b v

    process-Handed :
        (image : ℕ) (updates : List Update)
        → Leads
            (Committed t)
            (process F fixed image updates)
            (λ rc w. NoneOrHanded t rc (commits w.trace))
    unfolding process
    process-Handed image updates = Leads-step _ _ (search malloc0-Quiet) λ array.
        Leads-step _ _ (search malloc_raw-Quiet) λ cbd.
          Leads-bind _ _ (build_and_finish-Handed image updates array cbd) λ rc.
            Leads-step _ _
              (Keeps-commits (NoneOrHanded t rc) (cleanup_free F array)
                λ t'. cleanup_free-Quiet F array)
              λ _. Leads-pure _ λ w d. d

    with_table-Handed :
        (image : ℕ) (r : Result (List Update))
        → Leads
            (Committed t)
            (with_table F fixed image r)
            (λ rc w. NoneOrHanded t rc (commits w.trace))
    unfolding with_table
    with_table-Handed image (err rc) =
        Leads-step _ _ (search (warn-Quiet F fixed)) λ _. Leads-pure _ λ w c. inl c
    with_table-Handed image (ok []) =
        Leads-step _ _ (search (warn-Quiet F fixed))
          λ _. Leads-step _ _ (search msleep-Quiet) λ _. Leads-pure _ λ w c. inl c
    with_table-Handed image (ok (u ∷ updates)) = process-Handed image (u ∷ updates)

    get_data-Quiet :
        (name : Name) (vendor : Guid) (size : ℕ) (buf : ℕ → ℕ)
        → Keeps (Committed t) (get_data F fixed name vendor size buf)
    unfolding get_data
    get_data-Quiet name vendor size buf = search quiet_log

    pub debug_hook-Quiet : Keeps (Committed t) (debug_hook F fixed)
    unfolding debug_hook
    debug_hook-Quiet = search (quiet_log, get_data-Quiet, debug_set_enabled-Quiet) depth 10

    -- Over any services and in any number of rounds, a run of `efi_main` that returns has made no
    -- call of `UpdateCapsule` and of `ResetSystem`, or it has made one of `UpdateCapsule` and after
    -- it one of `ResetSystem`: the first with at least one capsule, and with their number, each with
    -- an image size that covers the header and that its descriptor, which points at it, holds, and
    -- with a terminator behind the descriptors. In the second case it returned the status of
    -- `UpdateCapsule` if that is an error, and else success.
    pub efi_main-Handed :
        (fuel image : ℕ)
        → Leads
            (Committed t)
            (efi_main F fixed fuel image)
            (λ rc w. NoneOrHanded t rc (commits w.trace))
    unfolding efi_main
    efi_main-Handed fuel image = Leads-step _ _ debug_hook-Quiet λ _.
        Leads-step _ _ (search (say-Quiet F fixed)) λ _.
          Leads-step _ _ (search malloc0-Quiet) λ table.
            Leads-on_option table _ _ (Leads-pure _ λ w c. inl c) λ p.
              Leads-step _ _ (search populate_update_table-Quiet) λ r.
                Leads-bind _ _ (with_table-Handed image r) λ rc.
                  Leads-step _ _
                    (Keeps-commits (NoneOrHanded t rc) (free_pool F p.addr) λ t'. search quiet_log)
                    λ _. Leads-pure _ λ w d. d
