-- ===== src/Variable/Reads.antt =====
-- `fwup_get_variable`, `fwup_set_variable` and `fwup_delete_variable` over a store of variables.
use fwupd_efi.Base.{◌≤◌, ℕ, ◌≡◌, refl, sym, ap, Bool, true, false, Option, none, some, length}
use mathlib.Core.Path.{subst}
use fwupd_efi.Memory.{Buffer}
use fwupd_efi.Efi.{
  Name, Guid, Result, efi_error, success, success-efi_error, not_found, buffer_too_small,
  fwupdate_guid,
}
use fwupd_efi.Firmware.Services.{Services}
use fwupd_efi.Firmware.Monad.{call, World}
use fwupd_efi.Firmware.Calls.{get_variable_call}
use fwupd_efi.Firmware.Reaches.{
  Reaches-Keeps, Reaches, Reaches-bind, Reaches-pure, Reaches-if, Reaches-given, Reaches-call,
}
use fwupd_efi.Firmware.Store.{Stored, IsStore, TooSmall, Given, same_variable}
use fwupd_efi.Debug.{log_name, fwup_log, get_variable}
use fwupd_efi.Variable.Total.{malloc_with-Allocated}
use fwupd_efi.Variable.Keeps.{malloc_with-Keeps}
use fwupd_efi.Variable.{Variable, get_into, get_after_malloc, get_after, get_variable_with}
use fwupd_efi.Variable.Copy.{Reads, Allocated, filled-IsCopy}
use fwupd_efi.Variable.Logged.{log-then, cleanup-then}
use fwupd_efi.Debug.Keeps.{LogKeeps}
use fwupd_efi.Variable.Readable.{Readable}
use fwupd_efi.Variable.Shown.{Shows, shown_readable}

pub not_found-efi_error : efi_error not_found ≡ true
unfolding efi_error
not_found-efi_error = refl

pub too_small-efi_error : efi_error buffer_too_small ≡ true
unfolding efi_error
too_small-efi_error = refl

-- A status that is an error does not pass the test for one.
no_error : {rc : ℕ} (e : ℕ) → rc ≡ e → efi_error e ≡ true → efi_error rc ≡ false → ⊥
no_error e h k f = cc (ap efi_error h, k, f)

no_success : {rc : ℕ} → rc ≡ success → efi_error rc ≡ true → ⊥
no_success h t = cc (ap efi_error h, t, success-efi_error)

module _ (F : Services) (name : Name) (guid : Guid) {p : Option Stored → World F.State → Type 0}
    (readable : Readable F name guid p) where
  abbrev Here : Option Stored → World F.State → Type 0
  Here = p

  pub logging : (o : Option Stored) → LogKeeps F (Here o)
  logging = readable.logs

  -- The replies of `GetVariable`.
  pub call_missing :
      (size : ℕ) (room : Bool)
      → Reaches
          (Here none)
          (get_variable_call F name guid size room)
          (λ r w. (r.status ≡ not_found) × Here none w)
  unfolding get_variable_call call
  call_missing size room = Reaches-call _ λ w h.
      (readable.missing w size room h, ((logging none).reading.getting name guid size room).at w h)

  pub call_size :
      (v : Stored)
      → Reaches
          (Here (some v))
          (get_variable_call F name guid 0 false)
          (λ r w. TooSmall v r × Here (some v) w)
  unfolding get_variable_call call
  call_size v = Reaches-call _ λ w h.
      (readable.too_small w v h, ((logging (some v)).reading.getting name guid 0 false).at w h)

  call_data :
      (v : Stored)
      → Reaches
          (Here (some v))
          (get_variable_call F name guid (length v.bytes) true)
          (λ r w. Given v r × Here (some v) w)
  unfolding get_variable_call call
  call_data v = Reaches-call _ λ w h. (
    readable.fits w v h,
    ((logging (some v)).reading.getting name guid (length v.bytes) true).at w h,
  )

  abbrev ReadsKept : Option Stored → Result Variable → World F.State → Type 0
  ReadsKept o r w = Reads F o r × Here o w

  into_missing :
      (size : ℕ)
      → Reaches (Here none) (get_into F (fwup_log F) name guid none size) (ReadsKept none)
  unfolding get_into
  into_missing size = Reaches-bind _ _ (call_missing size false) λ r.
      Reaches-given _ (λ w h. h)
        λ e.
          Reaches-if (efi_error r.status) _ _
            (λ _.
              log-then F (logging none) _ _ _ _ _
                (cleanup-then F (logging none) none _ (Reaches-pure _ λ w h. (e, h))))
            (λ f. absurd (no_error not_found e not_found-efi_error f))

  after_missing :
      (size : ℕ)
      → Reaches (Here none) (get_after F (fwup_log F) name guid not_found size) (ReadsKept none)
  unfolding get_after efi_error
  after_missing size = into_missing size

  read_missing : Reaches (Here none) (get_variable F name guid) (ReadsKept none)
  unfolding get_variable get_variable_with
  read_missing = Reaches-bind _ _ (call_missing 0 false) λ r.
      Reaches-given _ (λ w h. h)
        λ e.
          subst
            (λ rc.
              Reaches (Here none) (get_after F (fwup_log F) name guid rc r.size) (ReadsKept none))
            (sym e) (after_missing r.size)

  into_data :
      (v : Stored) (b : Buffer)
      → length v.bytes ≤ b.size
      → Reaches
          (Here (some v))
          (get_into F (fwup_log F) name guid (some b) (length v.bytes))
          (ReadsKept (some v))
  unfolding get_into
  into_data v b h = Reaches-bind _ _ (call_data v) λ r.
      Reaches-given _ (λ w h. h)
        λ g.
          Reaches-if (efi_error r.status) _ _ (λ t. absurd (no_success g.status t))
            (λ _. Reaches-pure _ λ w k. (filled-IsCopy F v b r g h, k))

  after_malloc :
      (v : Stored) (o : Option Buffer)
      → Allocated F (length v.bytes) o
      → Reaches
          (Here (some v))
          (get_after_malloc F (fwup_log F) name guid (length v.bytes) o)
          (ReadsKept (some v))
  unfolding get_after_malloc
  after_malloc v none k = Reaches-pure _ λ w h. ((refl, k), h)
  after_malloc v (some b) k = into_data v b k

  after_size :
      (v : Stored)
      → Reaches
          (Here (some v))
          (get_after F (fwup_log F) name guid buffer_too_small (length v.bytes))
          (ReadsKept (some v))
  unfolding get_after efi_error
  after_size v =
      Reaches-bind _ _
        (Reaches-Keeps _ (malloc_with-Allocated F readable.room (length v.bytes)) (
          malloc_with-Keeps F (logging (some v)).reading (fwup_log F) (logging (some v)).logging _))
        λ o. Reaches-given _ (λ w h. h) λ k. after_malloc v o k

  read_data : (v : Stored) → Reaches (Here (some v)) (get_variable F name guid) (ReadsKept (some v))
  unfolding get_variable get_variable_with
  read_data v = Reaches-bind _ _ (call_size v) λ r.
      Reaches-given _ (λ w h. h)
        λ t.
          subst
            (λ n.
              Reaches (Here (some v)) (get_after F (fwup_log F) name guid r.status n)
                (ReadsKept (some v)))
            (sym t.size)
            (subst
              (λ rc.
                Reaches (Here (some v)) (get_after F (fwup_log F) name guid rc (length v.bytes))
                  (ReadsKept (some v)))
              (sym t.status) (after_size v))

  pub readable-Reads :
      (o : Option Stored) → Reaches (Here o) (get_variable F name guid) (ReadsKept o)
  readable-Reads none = read_missing
  readable-Reads (some v) = read_data v

module _ (F : Services) {shown : F.State → Name → Guid → Option Stored} (store : IsStore F shown)
    (name : Name) (guid : Guid)
    (apart : same_variable log_name fwupdate_guid name guid ≡ false) where
  -- For any variable but the debug log, over a store of variables, `fwup_get_variable` returns without
  -- a fault and leaves the variable as it was; its result is `EFI_NOT_FOUND` if the variable is not
  -- there, and else a buffer of the variable's data, their size and the attributes, or
  -- `EFI_OUT_OF_RESOURCES`, only if `AllocatePool` can fail for that size.
  pub get_variable-Reads :
      (o : Option Stored)
      → Reaches
          (Shows F shown name guid o)
          (get_variable F name guid)
          (λ r w. Reads F o r × Shows F shown name guid o w)
  get_variable-Reads = readable-Reads F name guid (shown_readable F store name guid apart)
