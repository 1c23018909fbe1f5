-- ===== src/Selftest/Populated.antt =====
-- What `fwup_populate_update_info` comes to on the variable of the mock.
use fwupd_efi.Base.{ℕ, ◌≤◌, ◌≡◌, refl, sym, ◌∙◌, arith, true, false, some, codes}
use mathlib.Core.Path.{subst}
use fwupd_efi.Memory.{Buffer, bytes_at}
use fwupd_efi.Efi.{
  success, invalid_parameter, out_of_resources, efi_error, fwupdate_guid, Result, ok,
}
use fwupd_efi.Firmware.Services.{Services}
use fwupd_efi.Firmware.Monad.{pure, on_result}
use fwupd_efi.Firmware.Keeps.{Keeps}
use fwupd_efi.Firmware.Total.{Total, Any, Total-post}
use fwupd_efi.Firmware.Reaches.{Reaches, Reaches-bind, Reaches-given, Reaches-Keeps}
use fwupd_efi.Debug.States.{str_duplicate-Keeps}
use fwupd_efi.Variable.{Variable}
use fwupd_efi.Variable.Copy.{IsCopy}
use fwupd_efi.Update.{Update, check_info, populate_update_info}
use fwupd_efi.Update.Keeps.{check_info-Keeps}
use fwupd_efi.Update.Valid.{Outcome, CanFailCopy, accepted, no_memory, rejected, check_info-Outcome}
use fwupd_efi.Harness.{Libc}
use fwupd_efi.Harness.FuzzUpdateInfo.{zero_update}
use fwupd_efi.Selftest.{MockVars, test_services}
use fwupd_efi.Selftest.Ready.{IsRoomy, With, With-logging}
use fwupd_efi.Selftest.Readable.{mock_get-Reads, stored, length-bytes_at}
use fwupd_efi.Selftest.GetPass.{was_read}

resources : efi_error out_of_resources ≡ true
unfolding efi_error
resources = refl

invalid : efi_error invalid_parameter ≡ true
unfolding efi_error
invalid = refl

module _ (L : Libc) (roomy : IsRoomy L) where
  abbrev F : Services
  F = test_services L

  checking-Keeps :
      (v : MockVars) (r : Variable) → Keeps (With L v) (check_info F (codes "test") zero_update r)
  checking-Keeps v r =
      check_info-Keeps F (With-logging L v)
        (str_duplicate-Keeps F (λ s d. (s.0 ≡ v) × (s.1.0 ≡ false) × (d ≡ false)) (λ d s name h. h))
        (codes "test") zero_update r

  -- The entry and the status, for a variable that was read into a buffer.
  pub record Checked (v : MockVars) (p : Update × ℕ) : Type 0 where
    pub buffer : Buffer
    pub bytes : bytes_at buffer.byte 0 v.size ≡ bytes_at v.bytes 0 v.size
    pub attrs : ℕ
    pub outcome :
        Outcome
          (CanFailCopy F (codes "test"))
          (record { buf = some buffer; size = v.size; attrs = attrs })
          buffer
          zero_update
          p

  checked :
      (v : MockVars) (x : Variable)
      → IsCopy (stored v) x
      → x.size ≡ v.size
      → v.size ≤ 4096
      → Total Any (check_info F (codes "test") zero_update x) (Checked v)
  checked v x c e h =
      subst (λ y. Total Any (check_info F (codes "test") zero_update y) (Checked v)) held
        (Total-post _
          (check_info-Outcome F (codes "test") zero_update c.buffer v.size x.attrs
            (omega (arith, c.room, e)) (omega (arith, h)))
          λ p o. record { buffer = c.buffer; bytes = same_bytes; attrs = x.attrs; outcome = o })
    where
      held : record { buf = some c.buffer; size = v.size; attrs = x.attrs } ≡ x
      held = cc (c.in_buffer, e)

      same_bytes : bytes_at c.buffer.byte 0 v.size ≡ bytes_at v.bytes 0 v.size
      same_bytes = subst (λ n. bytes_at c.buffer.byte 0 n ≡ bytes_at v.bytes 0 v.size) e c.bytes

  pub populate-Checked :
      (v : MockVars)
      → v.status ≡ success
      → v.size ≤ 4096
      → Reaches
          (With L v)
          (populate_update_info F (codes "test") zero_update)
          (λ p w. Checked v p × With L v w)
  unfolding populate_update_info
  populate-Checked v e h =
      Reaches-bind _ _
        (mock_get-Reads L (codes "test") fwupdate_guid roomy.malloc_size v (some (stored v))
          (e, refl))
        λ r.
          Reaches-given _ (λ w k. k)
            λ k.
              go_on r (
                was_read L roomy (stored v) r (omega (arith, length-bytes_at v.bytes 0 v.size, h))
                  k)
    where
      go_on :
          (r : Result Variable)
          → ((x : Variable) × (r ≡ ok x) × IsCopy (stored v) x)
          → Reaches
              (With L v)
              (on_result r
                (λ rc. pure (zero_update, rc))
                (λ x. check_info F (codes "test") zero_update x))
              (λ p w. Checked v p × With L v w)
      go_on r (x, q, c) =
          subst
            (λ r.
              Reaches (With L v)
                (on_result r (λ rc. pure (zero_update, rc))
                  (λ x. check_info F (codes "test") zero_update x))
                (λ p w. Checked v p × With L v w))
            (sym q)
            (Reaches-Keeps _ (checked v x c (c.size ∙ length-bytes_at v.bytes 0 v.size) h)
              (checking-Keeps v x))

  -- A variable of at most sixty bytes is refused.
  pub small_error :
      (v : MockVars) (p : Update × ℕ) → v.size ≤ 60 → Checked v p → efi_error p.1 ≡ true
  small_error v p h c = refused p c.outcome
    where
      refused :
          (p : Update × ℕ)
          → Outcome
              (CanFailCopy F (codes "test"))
              (record { buf = some c.buffer; size = v.size; attrs = c.attrs })
              c.buffer
              zero_update
              p
          → efi_error p.1 ≡ true
      refused p (accepted k t e) = absurd (omega (arith, k.holds.large, h))
      refused p (no_memory k e d) = resources
      refused p (rejected n) = invalid
