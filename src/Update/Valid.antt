-- ===== src/Update/Valid.antt =====
-- The validation of a variable in `fwup_populate_update_info`, on every branch.
use fwupd_efi.Base.{
  ℕ, ◌-◌, ◌^◌, ◌≤◌, ◌<◌, ◌≡◌, refl, arith, Bool, true, false, Option, none, some, ap, sym, ◌∙◌,
  String, if◌then◌else◌, List, [], ◌∷◌,
}
use mathlib.Core.Path.{subst}
use fwupd_efi.Base.Int.{pos, to_intn, ltb_ℤ}
use fwupd_efi.Memory.{Buffer}
use fwupd_efi.Efi.{Name, success, invalid_parameter, out_of_resources, info_dp}
use fwupd_efi.Firmware.Services.{Services, Text, Arg, str, num, int}
use fwupd_efi.Firmware.Monad.{lift, ◌>>=◌, ◌>>◌}
use fwupd_efi.Firmware.Calls.{allocated, str_duplicate}
use fwupd_efi.Firmware.Total.{
  Total-call, Total-emit, Total, Any, Total-bind, Total-pure, Total-if, Total-lift, Total-on_option,
  safe_rules, deref-bind,
}
use fwupd_efi.Debug.Total.{fwup_log-Safe, free_pool-Safe}
use fwupd_efi.Variable.{Variable, cleanup_free}
use fwupd_efi.DevicePath.{dp_size}
use fwupd_efi.DevicePath.Spec.{PathAt}
use fwupd_efi.Update.{
  Update, sub64, too_small, no_room, bad_path, warn, reject, fill_update, check_info,
}
use fwupd_efi.Update.Fits.{
  Tested, fits, misfits, room, tested, too_small-large, no_room-large, large, dp_room,
}

-- A device path of more than eight bytes fills the variable from the end of the other fields on.
pub record HoldsPath (b : Buffer) (size : ℕ) : Type 0 where
  pub large : 60 < size
  pub path : PathAt b.byte info_dp (size - info_dp)

-- The table entry takes over what the variable holds.
pub record Taken (v : Variable) (b : Buffer) (u : Update) : Type 0 where
  pub holds : HoldsPath b v.size
  pub info_taken : u.info ≡ some b
  pub size_taken : u.size ≡ v.size
  pub attrs_taken : u.attrs ≡ v.attrs

-- `StrDuplicate` gives no copy of the name in some state.
abbrev pub CanFailCopy : Services → Name → Type 0
CanFailCopy F name = (s : F.State) × ((F.str_duplicate s name).0 ≡ none)

-- What the validation of a variable in the buffer `b` comes to: it is accepted with a copy of its name,
-- or there was no memory for the copy, which is said by `D`, or it holds no path of more than eight
-- bytes and the entry stays as it was.
pub data Outcome (D : Type 0) (v : Variable) (b : Buffer) (out : Update) : Update × ℕ → Type 0 where
  accepted :
      {u : Update} → Taken v b u → (t : Text) → u.name ≡ some t → Outcome D v b out (u, success)
  no_memory :
      {u : Update} → Taken v b u → u.name ≡ none → D → Outcome D v b out (u, out_of_resources)
  rejected : (HoldsPath b v.size → ⊥) → Outcome D v b out (out, invalid_parameter)

pub contrary : {c : Bool} → c ≡ true → c ≡ false → ⊥
contrary t f = cc

module _ (F : Services) (name : Name) (out : Update) where
  pub warn-Safe : (fmt : String) (args : List Arg) → Total Any (warn F fmt args) Any
  unfolding warn
  warn-Safe fmt args = fwup_log-Safe F _ _ _ _

  copied :
      (o : Option Text)
      → (o ≡ none → CanFailCopy F name)
      → Total Any (allocated F (λ t. t.addr) o) (λ r. r ≡ none → CanFailCopy F name)
  unfolding allocated
  copied none k = Total-pure _ k
  copied (some t) k = Total-bind _ _ (Total-emit _) λ _ _. Total-pure (some t) λ e. ground arith

  str_duplicate-CanFailCopy : Total Any (str_duplicate F name) (λ o. o ≡ none → CanFailCopy F name)
  unfolding str_duplicate
  str_duplicate-CanFailCopy =
      Total-bind {Q = λ o. o ≡ none → CanFailCopy F name} _ _ (Total-call _ λ s e. (s, e))
        λ o k. copied o k

  cleanup_free-Safe : (o : Option Buffer) → Total Any (cleanup_free F o) Any
  unfolding cleanup_free
  cleanup_free-Safe none = search safe_rules
  cleanup_free-Safe (some b) = search free_pool-Safe

  reject-Outcome :
      (v : Variable) (b : Buffer)
      → (HoldsPath b v.size → ⊥)
      → Total Any (reject F out v) (Outcome (CanFailCopy F name) v b out)
  unfolding reject
  reject-Outcome v b h = Total-bind _ _ (cleanup_free-Safe v.buf) λ _ _. Total-pure _ (rejected h)

  -- A warning and then the rejection.
  refuse :
      (v : Variable) (b : Buffer) (fmt : String) (args : List Arg)
      → (HoldsPath b v.size → ⊥)
      → Total Any (warn F fmt args >> reject F out v) (Outcome (CanFailCopy F name) v b out)
  refuse v b fmt args h = Total-bind _ _ (warn-Safe fmt args) λ _ _. reject-Outcome v b h

  module _ (b : Buffer) (size attrs : ℕ) where
    abbrev held : Variable
    held = record { buf = some b; size = size; attrs = attrs }

    fill-Outcome :
        HoldsPath b size
        → Total Any (fill_update F name out held) (Outcome (CanFailCopy F name) held b out)
    unfolding fill_update
    fill-Outcome h = Total-bind _ _ str_duplicate-CanFailCopy λ copy d.
        Total-on_option copy _ _
          (λ e. Total-bind _ _ (warn-Safe _ _) λ _ _. Total-pure _ (
            no_memory
              (record { holds = h; info_taken = refl; size_taken = refl; attrs_taken = refl }) e
              (d e)))
          (λ t e. Total-pure _ (
            accepted
              (record { holds = h; info_taken = refl; size_taken = refl; attrs_taken = refl }) t e))

    path-Outcome :
        60 < size
        → Tested b size (to_intn (sub64 size info_dp))
        → Total Any
            (lift (dp_size b info_dp (to_intn (sub64 size info_dp))) >>= λ sz.
              if bad_path size (to_intn (sub64 size info_dp)) sz
              then (warn F
                    "Update '%s' has an invalid file path, update info size: %d dp size: %d size for dp: %d"
                    (str name ∷ num size ∷ int sz ∷ int (to_intn (sub64 size info_dp)) ∷ [])
                  >> reject F out held)
              else fill_update F name out held)
            (Outcome (CanFailCopy F name) held b out)
    path-Outcome h (fits e f p) =
        Total-bind {Q = λ sz. sz ≡ to_intn (sub64 size info_dp)} _ _ (Total-lift _ _ e refl) λ sz q.
          Total-if _ _ _
            (λ t. absurd (contrary t (ap (bad_path size (to_intn (sub64 size info_dp))) q ∙ f)))
            (λ _. fill-Outcome (record { large = h; path = p }))
    path-Outcome h (misfits s e f n) =
        Total-bind {Q = λ sz. sz ≡ s} _ _ (Total-lift _ _ e refl) λ sz q.
          Total-if _ _ _ (λ _. refuse held b _ _ λ p. n p.path)
            (λ t.
              absurd (contrary f (sym (ap (bad_path size (to_intn (sub64 size info_dp))) q) ∙ t)))

    -- For a variable of `size` bytes, less than 2^63, in a buffer `b` of at least that size, the
    -- validation in `fwup_populate_update_info` returns without a fault. It accepts the variable, the
    -- entry taking over buffer, size and attributes, if the variable has more than 60 bytes, a device
    -- path fills it from its offset 52 on, and a copy of the name was allocated; it reports
    -- `EFI_OUT_OF_RESOURCES`, the entry taking over the same, if only the copy failed; and it reports
    -- `EFI_INVALID_PARAMETER` with the entry as it was if the variable has at most 60 bytes or no
    -- device path fills it from there on.
    pub check_info-Outcome :
        size ≤ b.size
        → size < 2 ^ 63
        → Total Any (check_info F name out held) (Outcome (CanFailCopy F name) held b out)
    unfolding check_info
    check_info-Outcome h k =
        Total-if (too_small size) _ _ (λ t. refuse held b _ _ λ p. too_small-large size t p.large)
          λ f.
            Total-if (no_room size) _ _
              (λ t. refuse held b _ _ λ p. no_room-large size k f t p.large)
              λ g.
                Total-if (ltb_ℤ (to_intn size) (pos info_dp)) _ _
                  (λ t. absurd (dp_room size k (large size k f g) t))
                  λ _. deref-bind b _ (
                    path-Outcome (large size k f g) (
                      subst (Tested b size) (sym (room size (omega (arith, large size k f g)) k))
                        (tested b size h (large size k f g) k)))
