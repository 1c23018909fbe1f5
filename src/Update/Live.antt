-- ===== src/Update/Live.antt =====
-- What `fwup_populate_update_table` leaves of pool memory.
use fwupd_efi.Base.{String, ℕ, ◌+◌, ◌*◌, ◌≡◌, refl, Option, none, some, List, [], ◌∷◌, ◌++◌, length}
use fwupd_efi.Base.Int.{pos, to_intn, ltb_ℤ}
use fwupd_efi.Efi.{success, Name, Result, ok, err, fwupdate_guid, info_dp, out_of_resources}
use fwupd_efi.Firmware.Services.{Services, Text, Arg, num}
use fwupd_efi.Firmware.Monad.{World, pure, on_option, on_result, ◌>>◌}
use fwupd_efi.Firmware.Keeps.{Keeps, Keeps-lift, Keeps-deref}
use fwupd_efi.Firmware.Leads.{Leads, Leads-bind, Leads-step, Leads-pure, Leads-if}
use fwupd_efi.Firmware.Live.{Holding, block, str_duplicate-Holding}
use fwupd_efi.Variable.{Variable}
use fwupd_efi.Variable.Live.{got, cleanup_free-Holding, get_variable-Holding}
use fwupd_efi.Debug.Live.{fwup_log-Holding}
use fwupd_efi.Update.{
  Update, too_small, no_room, bad_path, warn, fill_update, reject, check_info, populate_update_info,
}

-- The blocks of an entry's name and variable, on top of others.
abbrev pub parts : Update → List ℕ → List ℕ
parts u xs = block (λ t. t.addr) u.name ++ (block (λ b. b.addr) u.info ++ xs)

-- And of the entry itself.
abbrev pub owned : Update → List ℕ → List ℕ
owned u xs = parts u (u.at ∷ xs)

abbrev pub held_by : List Update → List ℕ → List ℕ
held_by [] xs = xs
held_by (u ∷ us) xs = held_by us (owned u xs)

-- An entry that holds nothing yet.
abbrev pub fresh : ℕ → Update
fresh at = record { at = at; name = none; attrs = 0; size = 0; info = none }

module _ (F : Services) (xs : List ℕ) where
  warn-Holding : (fmt : String) (args : List Arg) → Keeps (Holding xs) (warn F fmt args)
  unfolding warn
  warn-Holding fmt args = fwup_log-Holding F xs _ _ _ _

module _ (F : Services) (xs : List ℕ) (at : ℕ) (name : Name) where
  abbrev pub Parts : Update × ℕ → World F.State → Type 0
  Parts p w = (p.0.at ≡ at) × Holding (parts p.0 xs) w

  reject-Parts :
      (v : Variable)
      → Leads (Holding (block (λ b. b.addr) v.buf ++ xs)) (reject F (fresh at) v) Parts
  unfolding reject
  reject-Parts v =
      Leads-bind _ _ (cleanup_free-Holding F xs v.buf) λ _. Leads-pure _ λ w h. (refl, h)

  refuse-Parts :
      (v : Variable) (fmt : String) (args : List Arg)
      → Leads
          (Holding (block (λ b. b.addr) v.buf ++ xs))
          (warn F fmt args >> reject F (fresh at) v)
          Parts
  refuse-Parts v fmt args = Leads-step _ _ (warn-Holding F _ fmt args) λ _. reject-Parts v

  fill-Parts :
      (v : Variable)
      → Leads (Holding (block (λ b. b.addr) v.buf ++ xs)) (fill_update F name (fresh at) v) Parts
  unfolding fill_update
  fill-Parts v = Leads-bind _ _ (str_duplicate-Holding F name) λ copy. filled copy
    where
      filled :
          (copy : Option Text)
          → Leads
              (Holding (block (λ t. t.addr) copy ++ (block (λ b. b.addr) v.buf ++ xs)))
              (on_option copy
                (warn F "Could not allocate %d" (num (2 * length name + 2) ∷ [])
                  >> pure (
                    record (fresh at) { info = v.buf; size = v.size; attrs = v.attrs; name = copy },
                    out_of_resources,
                  ))
                (λ _. pure (
                  record (fresh at) { info = v.buf; size = v.size; attrs = v.attrs; name = copy },
                  success,
                )))
              Parts
      filled none = Leads-step _ _ (warn-Holding F _ _ _) λ _. Leads-pure _ λ w h. (refl, h)
      filled (some t) = Leads-pure _ λ w h. (refl, h)

  check_info-Parts :
      (v : Variable)
      → Leads (Holding (block (λ b. b.addr) v.buf ++ xs)) (check_info F name (fresh at) v) Parts
  unfolding check_info
  check_info-Parts v =
      Leads-if (too_small v.size) _ _ (λ _. refuse-Parts v _ _)
        λ _.
          Leads-if (no_room v.size) _ _ (λ _. refuse-Parts v _ _)
            λ _.
              Leads-if (ltb_ℤ (to_intn v.size) (pos info_dp)) _ _ (λ _. refuse-Parts v _ _)
                λ _. Leads-step _ _ (Keeps-deref v.buf) λ hdr. Leads-step _ _ (Keeps-lift _) λ sz.
                  Leads-if (bad_path v.size _ sz) _ _ (λ _. refuse-Parts v _ _) λ _. fill-Parts v

  pub populate_info-Parts : Leads (Holding xs) (populate_update_info F name (fresh at)) Parts
  unfolding populate_update_info
  populate_info-Parts = Leads-bind _ _ (get_variable-Holding F xs name fwupdate_guid) λ r. on_read r
    where
      on_read :
          (r : Result Variable)
          → Leads
              (Holding (got r ++ xs))
              (on_result r (λ rc. pure (fresh at, rc)) (λ v. check_info F name (fresh at) v))
              Parts
      on_read (err rc) = Leads-pure _ λ w h. (refl, h)
      on_read (ok v) = check_info-Parts v
