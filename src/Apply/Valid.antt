-- ===== src/Apply/Valid.antt =====
-- A capsule that `fwup_add_update_capsule` accepts was validated against the file.
use fwupd_efi.Base.{ℕ, ◌≤◌, ◌≡◌, refl, Bool, List, arith, ltb, sym}
use fwupd_efi.Memory.{Buffer, get32}
use fwupd_efi.Efi.{
  Result, ok, err, efi_error, capsule_sizeof, capsule_image_size, guid_eq, ux_capsule_guid,
  unsupported,
}
use fwupd_efi.Firmware.Services.{Services, Capsule, Block}
use fwupd_efi.Firmware.Monad.{Event, pure, on_result}
use fwupd_efi.Firmware.Calls.{W}
use fwupd_efi.Firmware.Keeps.{Committed}
use fwupd_efi.Firmware.Leads.{
  Leads, Leads-step, Leads-bind, Leads-pure, Leads-if, Leads-given, Leads-on_result,
}
use fwupd_efi.Debug.Quiet.{quiet_log}
use fwupd_efi.Capsule.{
  validate_capsule_size, check_gop_for_ux_capsule, ux_mode_set, bad_header_size,
}
use fwupd_efi.Capsule.Quiet.{get_gop_mode-Quiet}
use fwupd_efi.Capsule.Size.{validate_capsule_size_iff, ux-image_size, bad_header_size_ge}
use fwupd_efi.Apply.{add_update_capsule, make_capsule, complete_ux, set_flags, info_guid_of}
use fwupd_efi.Update.{Update}
use fwupd_efi.OpenFile.Quiet.{open_file-Quiet}
use fwupd_efi.Common.Quiet.{read_file-Quiet}
use fwupd_efi.Apply.Quiet.{warn-Quiet}

-- The image size lies between the header's size and the file's, and the descriptor is of the file.
pub record IsValidCapsule (c : Capsule) (b : Block) : Type 0 where
  pub header_fits : capsule_sizeof ≤ get32 c.image.byte capsule_image_size
  pub image_fits : get32 c.image.byte capsule_image_size ≤ b.length
  pub points_at : b.pointer ≡ c.image.addr

abbrev pub IsValidResult : Result (Capsule × Block) → Type 0
IsValidResult (ok (c, b)) = IsValidCapsule c b
IsValidResult (err rc) = Unit {0}

-- The image size of a capsule is the same in two buffers.
record SameSize (a b : Buffer) : Type 0 where
  size_kept : get32 b.byte capsule_image_size ≡ get32 a.byte capsule_image_size
  addr_kept : b.addr ≡ a.addr

abbrev KeepsSize : Buffer → Result Buffer → Type 0
KeepsSize a (ok b) = SameSize a b
KeepsSize a (err rc) = Unit {0}

set_flags-size :
    (fixed : Bool) (info : Buffer) (m : ℕ → ℕ)
    → get32 (set_flags fixed info m) capsule_image_size ≡ get32 m capsule_image_size
unfolding set_flags
set_flags-size fixed info m = ground arith

-- The file's buffer with the capsule's flags set.
abbrev flagged : Bool → Buffer → Buffer → Buffer
flagged fixed info fbuf = record fbuf { byte = set_flags fixed info fbuf.byte }

module _ (F : Services) {t : List Event} where
  ux_mode_set-KeepsSize :
      (a : Buffer) (off mode : ℕ)
      → capsule_sizeof ≤ off
      → Leads (Committed t) (ux_mode_set F a off mode) (λ r w. KeepsSize a r × Committed t w)
  unfolding ux_mode_set
  ux_mode_set-KeepsSize a off mode h = Leads-step _ _ (search quiet_log) λ _.
      Leads-pure _
        λ w c. (record { size_kept = ux-image_size a.byte off mode h; addr_kept = refl }, c)

  check_gop-KeepsSize :
      (image : ℕ) (a : Buffer) (fsize : ℕ)
      → Leads
          (Committed t)
          (check_gop_for_ux_capsule F image a fsize)
          (λ r w. KeepsSize a r × Committed t w)
  unfolding check_gop_for_ux_capsule
  check_gop-KeepsSize image a fsize = Leads-step _ _ (search quiet_log) λ _.
      Leads-if (bad_header_size a.byte fsize) _ _
        (λ _. Leads-step _ _ (search quiet_log) λ _. Leads-pure _ λ w c. (tt, c))
        (λ fits. Leads-step _ _ (get_gop_mode-Quiet F image) λ rc.
          Leads-on_result rc _ _ (λ _. Leads-pure _ λ w c. (tt, c))
            (λ mode. ux_mode_set-KeepsSize a _ mode (bad_header_size_ge a.byte fsize fits)))

  unsupported-KeepsSize :
      (a : Buffer) (r : Result Buffer)
      → KeepsSize a r
      → Leads
          (Committed t)
          (on_result r (λ _. pure {W = W F} (err unsupported)) (λ b. pure (ok b)))
          (λ s w. KeepsSize a s × Committed t w)
  unsupported-KeepsSize a (ok b) k = Leads-pure _ λ w c. (k, c)
  unsupported-KeepsSize a (err rc) k = Leads-pure _ λ w c. (tt, c)

  module _ (fixed : Bool) where
    complete_ux-KeepsSize :
        (image : ℕ) (info a : Buffer) (fsize : ℕ)
        → Leads
            (Committed t)
            (complete_ux F fixed image info a fsize)
            (λ r w. KeepsSize a r × Committed t w)
    unfolding complete_ux
    complete_ux-KeepsSize image info a fsize =
        Leads-if (guid_eq (info_guid_of info) ux_capsule_guid) _ _
          (λ _. Leads-step _ _ (search quiet_log) λ _.
            Leads-bind _ _ (check_gop-KeepsSize image a fsize)
              λ r. Leads-given _ λ k. unsupported-KeepsSize a r k)
          (λ _. Leads-pure _ λ w c. (record { size_kept = refl; addr_kept = refl }, c))

    -- The last step of `make_capsule`, on what `complete_ux` returns.
    wrap-IsValidResult :
        (a : Buffer) (fsize : ℕ) (r : Result Buffer)
        → capsule_sizeof ≤ get32 a.byte capsule_image_size
        → get32 a.byte capsule_image_size ≤ fsize
        → KeepsSize a r
        → Leads
            (Committed t)
            (on_result r
              (λ rc. pure {W = W F} (err rc))
              (λ b. pure (ok (record { image = b }, record { length = fsize; pointer = a.addr }))))
            (λ s w. IsValidResult s × Committed t w)
    wrap-IsValidResult a fsize (ok b) h1 h2 k = Leads-pure _ λ w c. (
      record { header_fits = omega arith; image_fits = omega arith; points_at = sym k.addr_kept },
      c,
    )
    wrap-IsValidResult a fsize (err rc) h1 h2 k = Leads-pure _ λ w c. (tt, c)

    make_capsule-IsValidResult :
        (image : ℕ) (info fbuf : Buffer) (fsize : ℕ)
        → Leads
            (Committed t)
            (make_capsule F fixed image info fbuf fsize)
            (λ r w. IsValidResult r × Committed t w)
    unfolding make_capsule
    make_capsule-IsValidResult image info fbuf fsize =
        Leads-if (ltb fsize capsule_sizeof) _ _
          (λ _. Leads-step _ _ (search warn-Quiet) λ _. Leads-pure _ λ w c. (tt, c))
          (λ _. Leads-step _ _ (search quiet_log) λ _. Leads-step _ _ (search quiet_log) λ _.
            Leads-step _ _ (search quiet_log) λ _. Leads-step _ _ (search quiet_log) λ _.
              Leads-if (efi_error (validate_capsule_size fbuf.byte fsize)) _ _
                (λ _. Leads-step _ _ (search warn-Quiet) λ _. Leads-pure _ λ w c. (tt, c))
                (λ valid.
                  Leads-bind _ _ (complete_ux-KeepsSize image info (flagged fixed info fbuf) fsize)
                    λ r. Leads-given _ λ k.
                      let sizes = (validate_capsule_size_iff fbuf.byte fsize).0 valid in
                      let same_size = set_flags-size fixed info fbuf.byte in
                      wrap-IsValidResult (flagged fixed info fbuf) fsize r (omega arith)
                        (omega arith) k))

    -- Where `fwup_add_update_capsule` returns a capsule and a block descriptor, the image size in
    -- the capsule's header is at least the header's size and at most the length in the descriptor,
    -- the descriptor points at the capsule, and no capsule was handed over and no reset made.
    pub add_update_capsule-IsValidResult :
        (u : Update) (image : ℕ)
        → Leads
            (Committed t)
            (add_update_capsule F fixed u image)
            (λ r w. IsValidResult r × Committed t w)
    unfolding add_update_capsule
    add_update_capsule-IsValidResult u image = Leads-step _ _ (search quiet_log) λ info.
        Leads-step _ _ (search quiet_log) λ _. Leads-step _ _ (search open_file-Quiet) λ r.
          Leads-on_result r _ _ (λ rc. Leads-pure _ λ w c. (tt, c))
            λ fh. Leads-step _ _ (search read_file-Quiet) λ content.
              Leads-on_result content _ _ (λ rc. Leads-pure _ λ w c. (tt, c))
                λ x.
                  Leads-step _ _ (search quiet_log)
                    λ _. make_capsule-IsValidResult image info x.0 x.1
