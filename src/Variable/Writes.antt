-- ===== src/Variable/Writes.antt =====
-- `fwup_set_variable` and `fwup_delete_variable` over a store of variables.
use fwupd_efi.Base.{
  ℕ, ◌<◌, ◌≡◌, refl, sym, ◌∙◌, Bool, true, false, Option, none, some, length, if◌then◌else◌,
}
use mathlib.Core.Path.{subst}
use fwupd_efi.Efi.{fwupdate_guid, Name, Guid, efi_error, success, not_found, buffer_too_small}
use fwupd_efi.Firmware.Services.{Services}
use fwupd_efi.Firmware.Monad.{pure, ◌>>=◌}
use fwupd_efi.Firmware.Calls.{set_variable_call}
use fwupd_efi.Firmware.Reaches.{
  Reaches, Reaches-bind, Reaches-pure, Reaches-given, Reaches-call, Reaches-emit,
}
use fwupd_efi.Firmware.Store.{Stored, IsStore, same_variable, is_plain}
use fwupd_efi.Debug.{log_name, fwup_log, get_variable, delete_variable}
use fwupd_efi.Variable.{delete_variable_with, delete_after, set_variable}
use fwupd_efi.Variable.Copy.{Reads}
use fwupd_efi.Variable.Logged.{log-then}
use fwupd_efi.Variable.Reads.{get_variable-Reads, call_missing, call_size}
use fwupd_efi.Variable.Shown.{Shows, shown_readable, shown_logging}

-- What a variable holds after `SetVariable` returned `rc`.
abbrev pub after_set : Option Stored → Stored → ℕ → Option Stored
after_set o v rc = if efi_error rc then o else some v

-- `EFI_SUCCESS` if the variable is not there, and else `EFI_BUFFER_TOO_SMALL`.
abbrev pub delete_status : Option Stored → ℕ
delete_status none = success
delete_status (some v) = buffer_too_small

pub equals_if :
    {A : Type 0} (b : Bool) {x y z : A}
    → (b ≡ true → z ≡ x)
    → (b ≡ false → z ≡ y)
    → z ≡ (if b then x else y)
equals_if true k l = k refl
equals_if false k l = l refl

module _ (F : Services) {shown : F.State → Name → Guid → Option Stored} (store : IsStore F shown)
    (name : Name) (guid : Guid) where
  -- `fwup_set_variable` makes the variable hold the data and the attributes, if `SetVariable` succeeds,
  -- and else leaves it as it was. (The data are not empty, the attributes give some access and do not
  -- append.)
  pub set_variable-after_set :
      (o : Option Stored) (v : Stored)
      → is_plain v.attrs ≡ true
      → 0 < length v.bytes
      → Reaches
          (Shows F shown name guid o)
          (set_variable F name guid v.bytes v.attrs)
          (λ rc w. Shows F shown name guid (after_set o v rc) w)
  unfolding set_variable set_variable_call
  set_variable-after_set o v p n =
      Reaches-bind _ _
        (Reaches-call _ λ w h.
          equals_if (efi_error (F.set_variable w.fw name guid v.attrs v.bytes).0)
            (λ t. store.set_failed w.fw name guid v.attrs v.bytes t ∙ h)
            (λ f. store.set_stored w.fw name guid v.attrs v.bytes p n f))
        λ rc.
          Reaches-bind {Q = λ _. Shows F shown name guid (after_set o v rc)} _ _
            (Reaches-emit _ λ w h. h) λ _. Reaches-pure _ λ w h. h

  module _ (apart : same_variable log_name fwupdate_guid name guid ≡ false) where
    -- What `fwup_set_variable` wrote, `fwup_get_variable` reads: the data and the attributes that were
    -- set if the first one succeeded, and else what was there before. (For any variable but the debug
    -- log; memory may run out.)
    pub get_variable-set_variable :
        (o : Option Stored) (v : Stored)
        → is_plain v.attrs ≡ true
        → 0 < length v.bytes
        → Reaches
            (Shows F shown name guid o)
            (set_variable F name guid v.bytes v.attrs >>= λ rc.
              get_variable F name guid >>= λ r. pure (rc, r))
            (λ (rc, r) w. Reads F (after_set o v rc) r)
    get_variable-set_variable o v p n = Reaches-bind _ _ (set_variable-after_set o v p n) λ rc.
        Reaches-bind _ _ (get_variable-Reads F store name guid apart (after_set o v rc))
          λ r. Reaches-pure _ λ w h. h.0

    delete_missing :
        (attrs : ℕ)
        → Reaches
            (Shows F shown name guid none)
            (delete_after F (fwup_log F) name guid not_found attrs)
            (λ rc w. (rc ≡ success) × Shows F shown name guid none w)
    unfolding delete_after efi_error
    delete_missing attrs =
        log-then F (shown_logging F store name guid none apart) _ _ _ _ _
          (Reaches-pure _ λ w h. (refl, h))

    delete_data :
        (v : Stored) (attrs : ℕ)
        → Reaches
            (Shows F shown name guid (some v))
            (delete_after F (fwup_log F) name guid buffer_too_small attrs)
            (λ rc w. (rc ≡ buffer_too_small) × Shows F shown name guid (some v) w)
    unfolding delete_after efi_error
    delete_data v attrs =
        log-then F (shown_logging F store name guid (some v) apart) _ _ _ _ _
          (Reaches-pure _ λ w h. (refl, h))

    -- What follows a reply whose status is known.
    delete_as :
        (o : Option Stored) (rc attrs : ℕ) {e : ℕ}
        → rc ≡ e
        → Reaches
            (Shows F shown name guid o)
            (delete_after F (fwup_log F) name guid e attrs)
            (λ rc w. (rc ≡ delete_status o) × Shows F shown name guid o w)
        → Reaches
            (Shows F shown name guid o)
            (delete_after F (fwup_log F) name guid rc attrs)
            (λ rc w. (rc ≡ delete_status o) × Shows F shown name guid o w)
    delete_as o rc attrs e k =
        subst
          (λ rc.
            Reaches (Shows F shown name guid o) (delete_after F (fwup_log F) name guid rc attrs)
              (λ rc w. (rc ≡ delete_status o) × Shows F shown name guid o w))
          (sym e) k

    -- For any variable but the debug log, `fwup_delete_variable` returns `EFI_SUCCESS` where the
    -- variable is not there, and `EFI_BUFFER_TOO_SMALL` where it is; it leaves it there in both cases.
    pub delete_variable-Shows :
        (o : Option Stored)
        → Reaches
            (Shows F shown name guid o)
            (delete_variable F name guid)
            (λ rc w. (rc ≡ delete_status o) × Shows F shown name guid o w)
    unfolding delete_variable delete_variable_with
    delete_variable-Shows none =
        Reaches-bind _ _ (call_missing F name guid (shown_readable F store name guid apart) 0 false)
          λ r.
            Reaches-given _ (λ w h. h)
              λ e. delete_as none r.status r.attrs e (delete_missing r.attrs)
    delete_variable-Shows (some v) =
        Reaches-bind _ _ (call_size F name guid (shown_readable F store name guid apart) v) λ r.
          Reaches-given _ (λ w h. h)
            λ t. delete_as (some v) r.status r.attrs t.status (delete_data v r.attrs)
