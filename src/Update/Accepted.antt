-- ===== src/Update/Accepted.antt =====
-- What `fwup_populate_update_info` accepts, over lawful services.
use fwupd_efi.Base.{ℕ, ◌≤◌, ◌≡◌, inl, inr, arith, false, some, sym}
use mathlib.Core.Path.{subst}
use fwupd_efi.Memory.{Buffer}
use fwupd_efi.Efi.{Name, ok, efi_error, invalid_parameter, out_of_resources, fwupdate_guid}
use fwupd_efi.Firmware.Services.{Services, Text}
use fwupd_efi.Firmware.Lawful.{Lawful}
use fwupd_efi.Firmware.Total.{
  Total, Any, Total-bind, Total-pure, Total-if, Total-on_result, Total-post,
}
use fwupd_efi.Variable.{Variable}
use fwupd_efi.Variable.Total.{IsHeld, HeldIn, get_variable-IsHeld, cleanup_free-Safe}
use fwupd_efi.Update.{Update, too_small, reject, check_info, populate_update_info}
use fwupd_efi.Update.Valid.{
  HoldsPath, Outcome, accepted, no_memory, rejected, check_info-Outcome, warn-Safe, contrary,
}

-- A table entry with its variable, which a device path fills.
pub record IsInfo (u : Update) : Type 0 where
  pub buffer : Buffer
  pub text : Text
  pub has_info : u.info ≡ some buffer
  pub has_name : u.name ≡ some text
  pub size_fits : u.size ≤ buffer.size
  pub holds : HoldsPath buffer u.size

abbrev pub IfAccepted : Update × ℕ → Type 0
IfAccepted (u, rc) = efi_error rc ≡ false → IsInfo u

resources : efi_error out_of_resources ≡ false → ⊥
unfolding efi_error
resources h = cc

invalid : efi_error invalid_parameter ≡ false → ⊥
unfolding efi_error
invalid h = cc

Outcome-IfAccepted :
    {D : Type 0} {v : Variable} {b : Buffer} {out : Update} (p : Update × ℕ)
    → v.size ≤ b.size
    → Outcome D v b out p
    → IfAccepted p
Outcome-IfAccepted {D} {v} {b} p h (accepted {u = u} k t e) = λ _. record {
  buffer = b;
  text = t;
  has_info = k.info_taken;
  has_name = e;
  size_fits = omega (arith, k.size_taken);
  holds = subst (HoldsPath b) (sym k.size_taken) k.holds;
}
Outcome-IfAccepted p h (no_memory k e d) = λ f. absurd (resources f)
Outcome-IfAccepted p h (rejected n) = λ f. absurd (invalid f)

zero-too_small : (n : ℕ) → n ≡ 0 → too_small n ≡ false → ⊥
unfolding too_small
zero-too_small n h k = ground arith

module _ (F : Services) where
  reject-IfAccepted : (out : Update) (v : Variable) → Total Any (reject F out v) IfAccepted
  unfolding reject
  reject-IfAccepted out v =
      Total-bind _ _ (cleanup_free-Safe F v.buf) λ _ _. Total-pure _ λ f. absurd (invalid f)

  check_empty :
      (name : Name) (out : Update) (v : Variable)
      → v.size ≡ 0
      → Total Any (check_info F name out v) IfAccepted
  unfolding check_info
  check_empty name out v h =
      Total-if (too_small v.size) _ _
        (λ _. Total-bind _ _ (warn-Safe F name out _ _) λ _ _. reject-IfAccepted out v)
        (λ f. absurd (zero-too_small v.size h f))

  check_held :
      (name : Name) (out : Update) (v : Variable) (b : Buffer)
      → HeldIn b v
      → Total Any (check_info F name out v) IfAccepted
  check_held name out v b h =
      subst
        (λ o.
          Total Any (check_info F name out (record { buf = o; size = v.size; attrs = v.attrs }))
            IfAccepted)
        (sym h.in_buffer)
        (Total-post _ (check_info-Outcome F name out b v.size v.attrs h.size_fits h.size_small)
          λ p o. Outcome-IfAccepted p h.size_fits o)

  check_info-IfAccepted :
      (name : Name) (out : Update) (v : Variable)
      → IsHeld (ok v)
      → Total Any (check_info F name out v) IfAccepted
  check_info-IfAccepted name out v (inl e) = check_empty name out v e
  check_info-IfAccepted name out v (inr (b, h)) = check_held name out v b h

  -- Over lawful services and for any name, `fwup_populate_update_info` returns without a fault, and
  -- where its status is no error the entry has a name and a buffer, which holds as many bytes as the
  -- entry says and a device path from its offset up to the last of them.
  pub populate_update_info-IfAccepted :
      Lawful F
      → (name : Name) (out : Update) → Total Any (populate_update_info F name out) IfAccepted
  unfolding populate_update_info
  populate_update_info-IfAccepted lawful name out =
      Total-bind _ _ (get_variable-IsHeld F lawful name fwupdate_guid) λ r h.
        Total-on_result r _ _ (λ rc e. Total-pure _ λ f. absurd (contrary (subst IsHeld e h) f))
          (λ v e. check_info-IfAccepted name out v (subst IsHeld e h))
