-- ===== src/Apply/Total.antt =====
-- `fwup_add_update_capsule`, `fwup_set_update_statuses` and `fwup_apply_capsules` over sound firmware.
use fwupd_efi.Base.{ℕ, ◌+◌, ◌-◌, ◌≤◌, ◌<◌, ◌^◌, ◌≡◌, sym, ap, arith, ltb, Bool, true, List, [], ◌∷◌}
use mathlib.Core.Path.{subst}
use fwupd_efi.Memory.{Buffer, get32}
use fwupd_efi.Efi.{
  Result, ok, err, efi_error, success, unsupported, invalid_parameter, unsupported-efi_error,
  invalid_parameter-efi_error, ux_capsule_guid, guid_eq, info_sizeof, info_dp, capsule_sizeof,
  capsule_image_size, capsule_header_size,
}
use fwupd_efi.Firmware.Services.{Services, Block, Capsule}
use fwupd_efi.Firmware.Calls.{query_capsule_capabilities, update_capsule, close_file, stall}
use fwupd_efi.Firmware.Total.{
  Total, Any, Succeeds, Total-bind, Total-pure, Total-if, Total-on_option, Total-on_result,
  Total-deref, Total-bounds, safe_rules,
}
use fwupd_efi.Firmware.Sound.{Sound}
use fwupd_efi.DevicePath.Spec.{PathIn}
use fwupd_efi.Debug.Total.{fwup_log-Safe, set_variable-Safe}
use fwupd_efi.Common.{msleep}
use fwupd_efi.Common.Total.{HasBytes, IsRead, read_file-IsRead}
use fwupd_efi.Capsule.{validate_capsule_size}
use fwupd_efi.Capsule.Gop.{check_gop_for_ux_capsule-GopResult}
use fwupd_efi.OpenFile.Total.{open_file-Succeeds}
use fwupd_efi.Update.{Update}
use fwupd_efi.Update.Table.{IsEntry, AreEntries}
use fwupd_efi.Apply.{
  info_guid_of, set_flags, warn, complete_ux, make_capsule, add_update_capsule, apply_capsules,
  set_update_statuses,
}

-- A field of four bytes.
get32-less : (m : ℕ → ℕ) (i n : ℕ) → ((j : ℕ) → j < n → m j < 256) → i + 4 ≤ n → get32 m i < 2 ^ 32
get32-less m i n h k = omega (
  arith,
  h i (omega (arith, k)),
  h (i + 1) (omega (arith, k)),
  h (i + 2) (omega (arith, k)),
  h (i + 3) (omega (arith, k)),
)

-- The flags lie apart from the sizes.
set_flags-header_size :
    (fixed : Bool) (info : Buffer) (m : ℕ → ℕ)
    → get32 (set_flags fixed info m) capsule_header_size ≡ get32 m capsule_header_size
unfolding set_flags
set_flags-header_size fixed info m = ground arith

set_flags-image_size :
    (fixed : Bool) (info : Buffer) (m : ℕ → ℕ)
    → get32 (set_flags fixed info m) capsule_image_size ≡ get32 m capsule_image_size
unfolding set_flags
set_flags-image_size fixed info m = ground arith

failed : {A : Type 0} (r : Result A) (rc : ℕ) → r ≡ err rc → Succeeds r → efi_error rc ≡ true
failed r rc e k = subst Succeeds e k

module _ (F : Services) (fixed : Bool) where
  module _ (image : ℕ) (info fbuf : Buffer) (fsize : ℕ) (h : fsize ≤ fbuf.size)
      (k : HasBytes fbuf fsize) where
    complete_ux-Succeeds :
        capsule_sizeof ≤ fsize
        → Total Any
            (complete_ux F fixed image info
              (record fbuf { byte = set_flags fixed info fbuf.byte })
              fsize)
            Succeeds
    unfolding complete_ux
    complete_ux-Succeeds l =
        Total-if (guid_eq (info_guid_of info) ux_capsule_guid) _ _
          (λ _. Total-bind _ _ (fwup_log-Safe F _ _ _ _) λ _ _.
            Total-bind _ _
              (check_gop_for_ux_capsule-GopResult F image _ fsize l h
                (omega (
                  arith,
                  set_flags-header_size fixed info fbuf.byte,
                  get32-less fbuf.byte capsule_header_size fsize k (omega (arith, l)),
                ))
                (omega (
                  arith,
                  set_flags-image_size fixed info fbuf.byte,
                  get32-less fbuf.byte capsule_image_size fsize k (omega (arith, l)),
                )))
              λ r _.
                Total-on_result r _ _ (λ rc _. Total-pure (err unsupported) unsupported-efi_error)
                  (λ b _. Total-pure (ok b) tt))
          (λ _. Total-pure (ok _) tt)

    make_capsule-Succeeds : Total Any (make_capsule F fixed image info fbuf fsize) Succeeds
    unfolding make_capsule warn
    make_capsule-Succeeds =
        Total-if (ltb fsize capsule_sizeof) _ _
          (λ _.
            Total-bind _ _ (fwup_log-Safe F _ _ _ _)
              λ _ _. Total-pure (err invalid_parameter) invalid_parameter-efi_error)
          λ l. Total-bind _ _ (fwup_log-Safe F _ _ _ _) λ _ _.
            Total-bind _ _ (fwup_log-Safe F _ _ _ _) λ _ _.
              Total-bind _ _ (Total-bounds fbuf 0 capsule_sizeof (ground (arith, l, h))) λ _ _.
                Total-bind _ _ (fwup_log-Safe F _ _ _ _) λ _ _.
                  Total-if (efi_error (validate_capsule_size fbuf.byte fsize)) _ _
                    (λ _.
                      Total-bind _ _ (fwup_log-Safe F _ _ _ _)
                        λ _ _. Total-pure (err invalid_parameter) invalid_parameter-efi_error)
                    λ _. Total-bind _ _ (complete_ux-Succeeds (ground (arith, l))) λ r k.
                      Total-on_result r _ _ (λ rc e. Total-pure (err rc) (failed r rc e k))
                        (λ b _. Total-pure (ok _) tt)

  close_file-Safe : (fh : ℕ) → Total Any (close_file F fh) Any
  unfolding close_file
  close_file-Safe fh = search safe_rules

  module _ (sound : Sound F) where
    -- Over sound firmware, and for an entry of the table, `fwup_add_update_capsule` returns without a
    -- fault, and without a capsule its status is an error.
    pub add_update_capsule-Succeeds :
        (u : Update) (image : ℕ)
        → IsEntry u
        → Total Any (add_update_capsule F fixed u image) Succeeds
    unfolding add_update_capsule
    add_update_capsule-Succeeds u image e =
        let i = e.valid in
        Total-bind _ _ (Total-deref u.info i.buffer i.has_info) λ b q.
          let same : b.size ≡ i.buffer.size = ap (λ x. x.size) q in
          Total-bind _ _
            (Total-bounds b 0 info_sizeof (omega (arith, same, i.size_fits, i.holds.large)))
            λ _ _.
              Total-bind _ _
                (open_file-Succeeds F sound b info_dp (
                  subst (λ c. PathIn c info_dp) (sym q)
                    (u.size - info_dp, i.holds.path, omega (arith, i.size_fits, i.holds.large))))
                λ r q.
                  Total-on_result r _ _ (λ rc f. Total-pure (err rc) (subst Succeeds f q))
                    λ fh _. Total-bind _ _ (read_file-IsRead F sound fh) λ content k.
                      Total-on_result content _ _ (λ rc f. Total-pure (err rc) (subst IsRead f k))
                        λ (fbuf, fsize) f.
                          let (l, m) = subst IsRead f k in
                          Total-bind _ _ (close_file-Safe fh)
                            λ _ _. make_capsule-Succeeds image b fbuf fsize l m

module _ (F : Services) where
  -- Over any services, and for the entries of the table, `fwup_set_update_statuses` returns without a
  -- fault.
  pub set_update_statuses-Safe :
      (us : List Update) → AreEntries us → Total Any (set_update_statuses F us) Any
  unfolding set_update_statuses
  set_update_statuses-Safe [] h = Total-pure success tt
  set_update_statuses-Safe (u ∷ us) (e, h) =
      let i = e.valid in
      Total-on_option u.name _ _ (λ _. Total-pure success tt)
        λ name _. Total-bind _ _ (Total-deref u.info i.buffer i.has_info) λ b q.
          let same : b.size ≡ i.buffer.size = ap (λ x. x.size) q in
          Total-bind _ _ (Total-bounds b 0 u.size (omega (arith, same, i.size_fits))) λ _ _.
            Total-bind _ _ (set_variable-Safe F _ _ _ _) λ rc _.
              Total-if (efi_error rc) _ _
                (λ _. Total-bind _ _ (fwup_log-Safe F _ _ _ _) λ _ _. Total-pure rc tt)
                (λ _. set_update_statuses-Safe us h)

  pub msleep-Safe : (msecs : ℕ) → Total Any (msleep F msecs) Any
  unfolding msleep stall
  msleep-Safe msecs = search safe_rules

  query-Safe :
      (capsules : List Capsule) (n : ℕ) → Total Any (query_capsule_capabilities F capsules n) Any
  unfolding query_capsule_capabilities
  query-Safe capsules n = search safe_rules

  update-Safe :
      (capsules : List Capsule) (n : ℕ) (cbd : List Block)
      → Total Any (update_capsule F capsules n cbd) Any
  unfolding update_capsule
  update-Safe capsules n cbd = search safe_rules depth 8

  pub apply_capsules-Safe :
      (capsules : List Capsule) (cbd : List Block) (n : ℕ)
      → Total Any (apply_capsules F capsules cbd n) Any
  unfolding apply_capsules
  apply_capsules-Safe capsules cbd n =
      search (safe_rules, query-Safe, fwup_log-Safe, msleep-Safe, update-Safe) depth 30
