-- ===== src/Update/Table.antt =====
-- The entries that `fwup_populate_update_table` makes, over lawful services.
use Prim.Native.Nat.{bit_and}
use fwupd_efi.Base.{
  ℕ, ◌≤◌, ◌<◌, ◌≡◌, refl, arith, true, false, Option, none, some, sym, ◌∙◌, String, List, [], ◌∷◌,
  ◌++◌, length, length-append, ◌==◌, ◌||◌, not, leb, same,
}
use mathlib.Core.Path.{subst}
use fwupd_efi.Memory.{Buffer, get32, put32}
use fwupd_efi.Memory.Laws.{get32-put32}
use fwupd_efi.Efi.{
  Name, Guid, Result, ok, err, efi_error, out_of_resources, out_of_resources-efi_error, info_dp,
  info_status, info_time_attempted, attempted, attempt_update, guid_eq, fwupdate_guid,
}
use fwupd_efi.Firmware.Services.{Services, Text, Arg}
use fwupd_efi.Firmware.Monad.{pure, on_option}
use fwupd_efi.Firmware.Lawful.{Lawful}
use fwupd_efi.Firmware.Calls.{get_time, allocate_zero_pool}
use fwupd_efi.Firmware.Total.{
  Total, Any, Total-bind, Total-pure, Total-if, Total-on_option, Total-on_result, Total-deref,
  Total-bounds, Total-call, safe_rules,
}
use fwupd_efi.Debug.{fwup_log, delete_variable}
use fwupd_efi.Debug.Total.{fwup_log-Safe, free_pool-Safe, allocated-Safe, delete_variable_with-Safe}
use fwupd_efi.Common.{malloc0, time}
use fwupd_efi.DevicePath.Spec.{PathAt-agree}
use fwupd_efi.Variable.{Level}
use fwupd_efi.Update.{
  Update, max_updates, name_verbose, name_debug_log, free_name, free_info, update_table_free,
  keep_attempt, take_update, visit,
}
use fwupd_efi.Update.Accepted.{IsInfo, populate_update_info-IfAccepted}

-- An entry of the table: its status says that the update was attempted.
pub record IsEntry (u : Update) : Type 0 where
  pub valid : IsInfo u
  pub stamped : get32 valid.buffer.byte info_status ≡ attempted

abbrev IsKept : Option Update → Type 0
IsKept none = Unit {0}
IsKept (some u) = IsEntry u

abbrev pub AreEntries : List Update → Type 0
AreEntries [] = Unit {0}
AreEntries (u ∷ us) = IsEntry u × AreEntries us

-- The table: as many entries as there is room for, and each as it should be.
pub record IsTable (us : List Update) : Type 0 where
  pub room : length us ≤ max_updates
  pub entries : AreEntries us

abbrev pub IsTableResult : Result (List Update) → Type 0
IsTableResult (ok us) = IsTable us
IsTableResult (err rc) = efi_error rc ≡ true

AreEntries-append :
    (us : List Update) (u : Update) → AreEntries us → IsEntry u → AreEntries (us ++ u ∷ [])
AreEntries-append [] u h k = (k, tt)
AreEntries-append (v ∷ us) u h k = (h.0, AreEntries-append us u h.1 k)

-- What `fwup_time` leaves of the variable: all that is behind the time.
record SameRest (b c : Buffer) : Type 0 where
  same_size : c.size ≡ b.size
  same_rest : (j : ℕ) → 48 ≤ j → c.byte j ≡ b.byte j

put_status : (m : ℕ → ℕ) (j : ℕ) → info_dp ≤ j → put32 m info_status attempted j ≡ m j
put_status m j h = ground arith

-- The entry with the time and the status written.
stamp :
    {u : Update} (i : IsInfo u) (c : Buffer)
    → SameRest i.buffer c
    → IsEntry (record u { info = some (record c { byte = put32 c.byte info_status attempted }) })
stamp {u} i c h = record {
  valid = record {
    buffer = record c { byte = put32 c.byte info_status attempted };
    text = i.text;
    has_info = refl;
    has_name = i.has_name;
    size_fits = omega (arith, i.size_fits, h.same_size);
    holds = record {
      large = i.holds.large;
      path =
          PathAt-agree _ (λ j k. put_status c.byte j k ∙ h.same_rest j (omega arith)) i.holds.path;
    };
  };
  stamped = get32-put32 c.byte info_status attempted (omega arith);
}

buffer_size : {u : Update} (i : IsInfo u) (b : Buffer) → b ≡ i.buffer → 60 < b.size
buffer_size i b e = subst (λ c. 60 < c.size) (sym e) (omega (arith, i.size_fits, i.holds.large))

abbrev IsTaken : Result (Option Update) → Type 0
IsTaken (ok o) = IsKept o
IsTaken (err rc) = efi_error rc ≡ true

fits :
    (us : List Update) (u : Update)
    → leb max_updates (length us) ≡ false
    → length (us ++ u ∷ []) ≤ max_updates
fits us u f = grind (arith, length-append us (u ∷ []))

module _ (F : Services) where
  time-SameRest : (b : Buffer) → 48 ≤ b.size → Total Any (time F b info_time_attempted) (SameRest b)
  unfolding time get_time
  time-SameRest b h = Total-bind _ _ (Total-bounds b info_time_attempted 16 (omega arith)) λ _ _.
      Total-bind {Q = Any} _ _ (Total-call _ λ _. tt)
        λ r _. Total-pure _ (record { same_size = refl; same_rest = λ j k. ground arith })

  pub free_name-Safe : (o : Option Text) → Total Any (free_name F o) Any
  unfolding free_name
  free_name-Safe none = search free_pool-Safe
  free_name-Safe (some t) = search free_pool-Safe

  pub free_info-Safe : (o : Option Buffer) → Total Any (free_info F o) Any
  unfolding free_info
  free_info-Safe none = search free_pool-Safe
  free_info-Safe (some b) = search free_pool-Safe

  table_free-Safe : (u : Update) → Total Any (update_table_free F u) Any
  unfolding update_table_free
  table_free-Safe u = search (safe_rules, free_name-Safe, free_info-Safe, free_pool-Safe)

  keep_attempt-IsKept : (u : Update) → IsInfo u → Total Any (keep_attempt F u) IsKept
  unfolding keep_attempt
  keep_attempt-IsKept u i = Total-bind _ _ (Total-deref u.info i.buffer i.has_info) λ b e.
      Total-bind _ _ (Total-bounds b info_status 4 (omega (arith, buffer_size i b e))) λ _ _.
        Total-if (bit_and (get32 b.byte info_status) attempt_update == 0) _ _
          (λ _. Total-bind _ _ (table_free-Safe u) λ _ _. Total-pure none tt)
          (λ _.
            Total-bind _ _ (time-SameRest b (omega (arith, buffer_size i b e)))
              λ c r. Total-pure (some _) (stamp i c (subst (λ d. SameRest d c) e r)))

  pub malloc0-Safe : (size : ℕ) → Total Any (malloc0 F size) Any
  unfolding malloc0 allocate_zero_pool
  malloc0-Safe size = search (safe_rules, allocated-Safe, fwup_log-Safe F) depth 8

  delete-Safe : (name : Name) (guid : Guid) → Total Any (delete_variable F name guid) Any
  unfolding delete_variable
  delete-Safe name guid = delete_variable_with-Safe F (fwup_log F) name guid (fwup_log-Safe F)

  log-Safe :
      (level : Level) (func fmt : String) (args : List Arg)
      → Total Any (fwup_log F level func fmt args) Any
  log-Safe = fwup_log-Safe F

  module _ (lawful : Lawful F) where
    take_update-IsTaken : (name : Name) → Total Any (take_update F name) IsTaken
    unfolding take_update
    take_update-IsTaken name = Total-bind _ _ (log-Safe _ _ _ _) λ _ _.
        Total-bind _ _ (malloc0-Safe 32) λ p _.
          Total-on_option p _ _ (λ _. Total-pure (err out_of_resources) out_of_resources-efi_error)
            λ b _. Total-bind _ _ (populate_update_info-IfAccepted F lawful name _) λ r h.
              Total-if (efi_error r.1) _ _
                (λ t. Total-bind _ _ (delete-Safe _ _) λ _ _.
                  Total-bind _ _ (log-Safe _ _ _ _)
                    λ _ _. Total-bind _ _ (table_free-Safe r.0) λ _ _. Total-pure (err r.1) t)
                (λ f. Total-bind _ _ (keep_attempt-IsKept r.0 (h f)) λ o k. Total-pure (ok o) k)

    pub visit-IsTable :
        (name : Name) (vendor : Guid) (us : List Update)
        → IsTable us
        → Total Any (visit F name vendor us) IsTableResult
    unfolding visit
    visit-IsTable name vendor us h =
        Total-if (not (guid_eq vendor fwupdate_guid)) _ _ (λ _. Total-pure (ok us) h)
          λ _.
            Total-if (same name name_verbose || same name name_debug_log) _ _
              (λ _. Total-pure (ok us) h)
              λ _.
                Total-if (leb max_updates (length us)) _ _
                  (λ _. Total-bind _ _ (log-Safe _ _ _ _) λ _ _. Total-pure (ok us) h)
                  λ f. Total-bind _ _ (take_update-IsTaken name) λ r k.
                    Total-on_result r _ _ (λ rc e. Total-pure (err rc) (subst IsTaken e k))
                      (λ o e. added us o h f (subst IsTaken e k))
      where
        added :
            (us : List Update) (o : Option Update)
            → IsTable us
            → leb max_updates (length us) ≡ false
            → IsKept o
            → Total {S = F.State} Any
                (on_option o (pure (ok us)) (λ u. pure (ok (us ++ u ∷ []))))
                IsTableResult
        added us none t f k = Total-pure (ok us) t
        added us (some u) t f k =
            Total-pure (ok (us ++ u ∷ []))
              (record { room = fits us u f; entries = AreEntries-append us u t.entries k })
