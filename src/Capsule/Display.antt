-- ===== src/Capsule/Display.antt =====
-- `fwup_get_gop_mode` where the firmware's answers about its displays stay the same.
use fwupd_efi.Base.{
  ℕ, ◌≡◌, ◌≢◌, ◌∙◌, ap, sym, arith, true, false, List, [], ◌∷◌, Option, none, some, ◌==◌,
}
use mathlib.Core.Path.{subst}
use fwupd_efi.Efi.{Result, ok, err, efi_error, unsupported, graphics_output_protocol}
use fwupd_efi.Firmware.Services.{Services, HandleReply, HandlesReply}
use fwupd_efi.Firmware.Calls.{locate_handle, open_protocol, gop_mode}
use fwupd_efi.Firmware.Total.{Total, Any, Total-bind, Total-pure, Total-if, Total-call, Total-post}
use fwupd_efi.Capsule.{gop_loop, get_gop_mode}

-- What the firmware answers about its displays, at all times: the handles, what opening one gives, and
-- the mode behind an interface.
pub record ShowsDisplay (F : Services) (image : ℕ) : Type 0 where
  pub listed : HandlesReply
  pub opened : ℕ → HandleReply
  pub mode : ℕ → ℕ
  pub listed_same : (s : F.State) → (F.locate_handle s graphics_output_protocol).0 ≡ listed
  pub opened_same :
      (s : F.State) (h : ℕ) → (F.open_protocol s h graphics_output_protocol image).0 ≡ opened h
  pub mode_same : (s : F.State) (i : ℕ) → F.gop_mode s i ≡ mode i

not_zero : (n : ℕ) → (n == 0) ≡ false → n ≡ 0 → ⊥
not_zero n f e = ground arith

-- The mode in a result, if there is one.
abbrev pub mode_of : Result ℕ → Option ℕ
mode_of (ok mode) = some mode
mode_of (err rc) = none

module _ {F : Services} {image : ℕ} (shows : ShowsDisplay F image) where
  -- The mode behind the first handle that can be opened, if one can.
  pub data FirstMode : List ℕ → Option ℕ → Type 0 where
    no_handle : FirstMode [] none
    this_handle :
        {h : ℕ} {hs : List ℕ}
        → efi_error (shows.opened h).status ≡ false
        → FirstMode (h ∷ hs) (some (shows.mode (shows.opened h).handle))
    later_handle :
        {h : ℕ} {hs : List ℕ} {o : Option ℕ}
        → efi_error (shows.opened h).status ≡ true
        → FirstMode hs o
        → FirstMode (h ∷ hs) o

  -- The mode that is shown: none if the handles are not given.
  pub data ShownMode : Option ℕ → Type 0 where
    not_located : efi_error shows.listed.status ≡ true → ShownMode none
    no_list : shows.listed.pool ≡ 0 → ShownMode none
    located :
        {o : Option ℕ}
        → efi_error shows.listed.status ≡ false
        → shows.listed.pool ≢ 0
        → FirstMode shows.listed.handles o
        → ShownMode o

  opened-same :
      (h : ℕ)
      → Total Any (open_protocol F h graphics_output_protocol image) (λ r. shows.opened h ≡ r)
  unfolding open_protocol
  opened-same h = Total-call _ λ s. sym (shows.opened_same s h)

  mode-same : (i : ℕ) → Total Any (gop_mode F i) (λ m. shows.mode i ≡ m)
  unfolding gop_mode
  mode-same i = Total-call _ λ s. sym (shows.mode_same s i)

  listed-same : Total Any (locate_handle F graphics_output_protocol) (λ r. shows.listed ≡ r)
  unfolding locate_handle
  listed-same = Total-call _ λ s. sym (shows.listed_same s)

  gop_loop-FirstMode :
      (hs : List ℕ) → Total Any (gop_loop F image hs) (λ r. FirstMode hs (mode_of r))
  unfolding gop_loop
  gop_loop-FirstMode [] = Total-pure (err unsupported) no_handle
  gop_loop-FirstMode (h ∷ hs) = Total-bind _ _ (opened-same h) λ r e.
      Total-if (efi_error r.status) _ _
        (λ t.
          Total-post _ (gop_loop-FirstMode hs)
            λ o k. later_handle (ap (λ q. efi_error q.status) e ∙ t) k)
        λ f. Total-bind _ _ (mode-same r.handle) λ mode m. Total-pure (ok mode) (
          subst (λ v. FirstMode (h ∷ hs) (some v)) (ap (λ q. shows.mode q.handle) e ∙ m)
            (this_handle (ap (λ q. efi_error q.status) e ∙ f)))

  pub get_gop_mode-ShownMode : Total Any (get_gop_mode F image) (λ r. ShownMode (mode_of r))
  unfolding get_gop_mode
  get_gop_mode-ShownMode = Total-bind _ _ listed-same λ r e.
      Total-if (efi_error r.status) _ _
        (λ t. Total-pure (err r.status) (not_located (ap (λ l. efi_error l.status) e ∙ t)))
        λ f.
          Total-if (r.pool == 0) _ _
            (λ z. Total-pure (err unsupported) (no_list (ap (λ l. l.pool) e ∙ ground (arith, z))))
            λ z. Total-post _ (gop_loop-FirstMode r.handles) λ o k.
              located (ap (λ l. efi_error l.status) e ∙ f)
                (λ p. not_zero r.pool z (sym (ap (λ l. l.pool) e) ∙ p))
                (subst (λ l. FirstMode l.handles (mode_of o)) (sym e) k)
