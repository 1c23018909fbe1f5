-- ===== src/Entry/Total.antt =====
-- The steps of `efi_main` over sound firmware return.
use fwupd_efi.Base.{
  ℕ, ◌≤◌, ◌≡◌, refl, arith, Bool, true, false, Option, List, [], ◌∷◌, ◌++◌, length, length-append,
  ◌==◌, ◌||◌, not, codes, String,
}
use mathlib.Core.Path.{subst}
use fwupd_efi.Memory.{Buffer, get64}
use fwupd_efi.Efi.{Name, Guid, efi_error, success, fwupdate_guid}
use fwupd_efi.Firmware.Services.{Services, Arg, ResetType}
use fwupd_efi.Firmware.Monad.{modify}
use fwupd_efi.Firmware.Calls.{get_variable_call, reset_system}
use fwupd_efi.Firmware.Total.{
  Total, Any, Succeeds, IsThere, Total-bind, Total-pure, Total-if, Total-on_result, Total-call,
  Total-deref, Total-bounds, safe_rules,
}
use fwupd_efi.Firmware.Sound.{Sound}
use fwupd_efi.Debug.{debug_set_enabled}
use fwupd_efi.Debug.Total.{fwup_log-Safe, debug_get_enabled-Safe}
use fwupd_efi.Update.{Update}
use fwupd_efi.Update.Table.{AreEntries}
use fwupd_efi.Apply.Total.{add_update_capsule-Succeeds, apply_capsules-Safe, msleep-Safe}
use fwupd_efi.Entry.Defs.{Built, say, warn, get_data, debug_hook, build_capsules, apply_and_reset}

-- No capsule without a status that says why.
abbrev pub IsTried : Built → Type 0
IsTried b = length b.capsules ≡ 0 → efi_error b.rc ≡ true

grown : {A : Type 0} (xs : List A) (x : A) → length (xs ++ x ∷ []) ≡ 0 → ⊥
grown xs x e = grind (arith, length-append xs (x ∷ []))

module _ (F : Services) (fixed : Bool) where
  pub say-Safe : (fmt : String) (args : List Arg) → Total Any (say F fixed fmt args) Any
  unfolding say
  say-Safe fmt args = fwup_log-Safe F _ _ _ _

  pub warn-Safe : (fmt : String) (args : List Arg) → Total Any (warn F fixed fmt args) Any
  unfolding warn
  warn-Safe fmt args = fwup_log-Safe F _ _ _ _

  debug_set_enabled-Safe : (b : Bool) → Total Any (debug_set_enabled F b) Any
  unfolding debug_set_enabled modify
  debug_set_enabled-Safe b = record { at = λ w h. (tt, tt) }

  reset_system-Safe : (type : ResetType) (status : ℕ) → Total Any (reset_system F type status) Any
  unfolding reset_system
  reset_system-Safe type status = search safe_rules

  -- What `data_size` holds afterwards.
  get_data-leaves :
      (K : ℕ → Type 0) (name : Name) (vendor : Guid) (size : ℕ) (data' : ℕ → ℕ)
      → ((s : F.State) → K (F.get_variable s name vendor size true).0.size)
      → ((s : F.State)
          → efi_error (F.get_variable s name vendor size true).0.status ≡ false
          → (F.get_variable s name vendor size true).0.size ≤ 8)
      → Total Any (get_data F fixed name vendor size data') (λ r. K r.1)
  unfolding get_data get_variable_call
  get_data-leaves K name vendor size data' k h =
      Total-bind {Q = λ r. K r.size × (efi_error r.status ≡ false → r.size ≤ 8)} _ _
        (Total-call _ λ s. (k s, h s))
        λ r (l, m).
          Total-if (efi_error r.status) _ _ (λ _. Total-pure _ l)
            λ f. Total-bind _ _ (Total-bounds _ 0 r.size (omega (arith, m f))) λ _ _. Total-pure _ l

  -- Where shim's variable is no larger than its eight bytes, the debug hook returns without a fault.
  pub debug_hook-Safe : Sound F → Total Any (debug_hook F fixed) Any
  unfolding debug_hook
  debug_hook-Safe sound =
      Total-bind _ _
        (get_data-leaves (λ n. n ≤ 8) _ _ 1 _ sound.shim_debug_small
          λ s _. sound.shim_debug_small s)
        λ (rc, data_size, data') h.
          Total-if (efi_error rc || not (get64 data' 0 == 1)) _ _
            (λ _.
              Total-bind _ _
                (get_data-leaves Any (codes "FWUPDATE_VERBOSE") fwupdate_guid data_size data'
                  (λ s. tt) λ s f. omega (arith, h, sound.lawful.stored_fits s _ _ data_size f))
                λ (rc2, size2, data2) _.
                  Total-if (efi_error rc2 || not (get64 data2 0 == 1)) _ _ (λ _. Total-pure tt tt)
                    (λ _. debug_set_enabled-Safe true))
            (λ _. Total-bind _ _ (debug_set_enabled-Safe true) λ _ _. fwup_log-Safe F _ _ _ _)

  pub apply_and_reset-Safe : (b : Built) → Total Any (apply_and_reset F fixed b) Any
  unfolding apply_and_reset
  apply_and_reset-Safe b = Total-bind _ _ (apply_capsules-Safe F _ _ _) λ (reset, rc) _.
      Total-bind _ _ (Total-if (efi_error rc) _ _ (λ _. warn-Safe _ _) (λ _. Total-pure tt tt))
        λ _ _. Total-bind _ _ (say-Safe _ _) λ _ _. Total-bind _ _ (msleep-Safe F _) λ _ _.
          Total-bind _ _ (debug_get_enabled-Safe F) λ enabled _.
            Total-bind _ _ (Total-if enabled _ _ (λ _. msleep-Safe F _) (λ _. Total-pure tt tt))
              λ _ _. Total-bind _ _ (reset_system-Safe reset success) λ _ _. Total-pure rc tt

  module _ (sound : Sound F) (image : ℕ) (array : Option Buffer) (there : IsThere array) where
    pub build_capsules-IsTried :
        (us : List Update) (b : Built)
        → AreEntries us
        → (us ≡ [] → IsTried b)
        → Total Any (build_capsules F fixed image array us b) IsTried
    unfolding build_capsules
    build_capsules-IsTried [] b h t = Total-pure b (t refl)
    build_capsules-IsTried (u ∷ us) b (e, h) t = Total-bind _ _ (fwup_log-Safe F _ _ _ _) λ _ _.
        Total-bind _ _ (add_update_capsule-Succeeds F fixed sound u image e) λ r k.
          Total-on_result r _ _
            (λ rc q. Total-bind _ _ (Total-deref u.info e.valid.buffer e.valid.has_info) λ _ _.
              Total-bind _ _ (warn-Safe _ _)
                λ _ _. build_capsules-IsTried us _ h λ _ _. subst Succeeds q k)
            (λ (capsule, block) _.
              Total-bind _ _ (Total-deref array there.0 there.1)
                λ _ _. build_capsules-IsTried us _ h λ _ z. absurd (grown b.capsules capsule z))
