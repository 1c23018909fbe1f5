-- ===== src/Capsule/Gop.antt =====
-- `fwup_check_gop_for_ux_capsule` on every branch.
use fwupd_efi.Base.{
  ℕ, ◌+◌, ◌^◌, ◌≤◌, ◌<◌, ◌≡◌, refl, arith, Bool, true, false, List, [], ◌∷◌, if◌then◌else◌,
}
use fwupd_efi.Memory.{Buffer, get32, put32}
use fwupd_efi.Efi.{
  Result, ok, err, efi_error, invalid_parameter, unsupported, capsule_sizeof, capsule_header_size,
  capsule_image_size, ux_sizeof, ux_mode, graphics_output_protocol,
}
use fwupd_efi.Firmware.Services.{Services}
use fwupd_efi.Firmware.Monad.{World}
use fwupd_efi.Firmware.Calls.{locate_handle, open_protocol, gop_mode}
use fwupd_efi.Firmware.Total.{
  Total, Any, Total-bind, Total-pure, Total-if, Total-call, Total-bounds, Total-on_result,
  safe_rules, Safe-if,
}
use fwupd_efi.Firmware.Monad.{M, on_result}
use fwupd_efi.Firmware.Keeps.{Keeps}
use fwupd_efi.Debug.Keeps.{LogKeeps}
use fwupd_efi.Firmware.Reaches.{
  Reaches, Reaches-Keeps, Reaches-bind, Reaches-given, Reaches-if, Reaches-pure, Reaches-bounds,
  Reaches-then,
}
use fwupd_efi.Debug.Total.{fwup_log-Safe}
use fwupd_efi.Capsule.{
  bad_header_size, update_ux_checksum, gop_loop, get_gop_mode, ux_mode_set,
  check_gop_for_ux_capsule,
}
use fwupd_efi.Capsule.Size.{bad_header_size_iff}

contrary : {c : Bool} → c ≡ true → c ≡ false → ⊥
contrary t f = cc

-- The capsule with the mode and the checksum in its UX header.
abbrev pub completed : Buffer → ℕ → Buffer
completed b mode =
    let off = get32 b.byte capsule_header_size in
    record b { byte = update_ux_checksum (put32 b.byte (off + ux_mode) mode) off }

-- What comes of the capsule.
pub data GopResult (b : Buffer) (fsize : ℕ) : Result Buffer → Type 0 where
  bad_size : bad_header_size b.byte fsize ≡ true → GopResult b fsize (err invalid_parameter)
  no_mode : bad_header_size b.byte fsize ≡ false → GopResult b fsize (err unsupported)
  has_mode :
      (mode : ℕ) → bad_header_size b.byte fsize ≡ false → GopResult b fsize (ok (completed b mode))

module _ (F : Services) (loaded_image : ℕ) where
  open_protocol-Safe :
      (handle : ℕ) → Total Any (open_protocol F handle graphics_output_protocol loaded_image) Any
  unfolding open_protocol
  open_protocol-Safe handle = search safe_rules

  gop_mode-Safe : (iface : ℕ) → Total Any (gop_mode F iface) Any
  unfolding gop_mode
  gop_mode-Safe iface = search safe_rules

  locate_handle-Safe : Total Any (locate_handle F graphics_output_protocol) Any
  unfolding locate_handle
  locate_handle-Safe = search safe_rules

  gop_loop-Safe : (handles : List ℕ) → Total Any (gop_loop F loaded_image handles) Any
  unfolding gop_loop
  gop_loop-Safe [] = search safe_rules
  gop_loop-Safe (h ∷ hs) = Total-bind _ _ (open_protocol-Safe h) λ r _.
      Safe-if (efi_error r.status) _ _ (gop_loop-Safe hs) (search (safe_rules, gop_mode-Safe))

  get_gop_mode-Safe : Total Any (get_gop_mode F loaded_image) Any
  unfolding get_gop_mode
  get_gop_mode-Safe = search (safe_rules, locate_handle-Safe, gop_loop-Safe) depth 8

  mode_set :
      (b : Buffer) (fsize mode : ℕ)
      → bad_header_size b.byte fsize ≡ false
      → get32 b.byte capsule_header_size + ux_sizeof ≤ b.size
      → Total Any (ux_mode_set F b (get32 b.byte capsule_header_size) mode) (GopResult b fsize)
  unfolding ux_mode_set
  mode_set b fsize mode f h =
      Total-bind _ _ (Total-bounds b _ ux_sizeof h) λ _ _. Total-pure _ (has_mode mode f)

  -- For a file of `fsize` bytes in memory that starts with a capsule header,
  -- `fwup_check_gop_for_ux_capsule` touches no byte outside the file and returns: `EFI_INVALID_PARAMETER` exactly if the sizes in the header are bad; else
  -- `EFI_UNSUPPORTED`, or success with the mode and the checksum in the UX header and no other byte
  -- changed. (The sizes are read as 32 bits.)
  pub check_gop_for_ux_capsule-GopResult :
      (b : Buffer) (fsize : ℕ)
      → capsule_sizeof ≤ fsize
      → fsize ≤ b.size
      → get32 b.byte capsule_header_size < 2 ^ 32
      → get32 b.byte capsule_image_size < 2 ^ 32
      → Total Any (check_gop_for_ux_capsule F loaded_image b fsize) (GopResult b fsize)
  unfolding check_gop_for_ux_capsule
  check_gop_for_ux_capsule-GopResult b fsize h k m n =
      Total-bind _ _ (Total-bounds b 0 capsule_sizeof (omega arith)) λ _ _.
        Total-if (bad_header_size b.byte fsize) _ _
          (λ t. Total-bind _ _ (fwup_log-Safe F _ _ _ _) λ _ _. Total-pure _ (bad_size t))
          λ f. Total-bind _ _ get_gop_mode-Safe λ r _.
            Total-on_result r _ _ (λ rc e. Total-pure _ (no_mode f))
              (λ mode e.
                mode_set b fsize mode f
                  (omega (arith, ((bad_header_size_iff b.byte fsize m n).0 f).2, k)))

  -- Where no handle is found, and what the calls of logging and `LocateHandle` keep.
  module _
      (none_found : (s : F.State)
        → efi_error (F.locate_handle s graphics_output_protocol).0.status ≡ true)
      {P : World F.State → Type 0} (c : LogKeeps F P)
      (locating : Keeps P (locate_handle F graphics_output_protocol)) where
    not_located :
        Total Any (locate_handle F graphics_output_protocol) (λ r. efi_error r.status ≡ true)
    unfolding locate_handle
    not_located = Total-call _ none_found

    abbrev IsErr : Result ℕ → Type 0
    IsErr r = (mode : ℕ) → r ≡ ok mode → ⊥

    no_gop_mode : Reaches P (get_gop_mode F loaded_image) (λ r w. IsErr r × P w)
    unfolding get_gop_mode
    no_gop_mode = Reaches-bind _ _ (Reaches-Keeps _ not_located locating) λ r.
        Reaches-given _ (λ w h. h)
          λ t.
            Reaches-if (efi_error r.status) _ _
              (λ _. Reaches-pure _ λ w h. (λ mode e. ground arith, h)) (λ f. absurd (contrary t f))

    on_error :
        (r : Result ℕ) (g : M (World F.State) (Result Buffer))
        (f : ℕ → M (World F.State) (Result Buffer)) {R : Result Buffer → World F.State → Type 0}
        → IsErr r
        → Reaches P g R
        → Reaches P (on_result r (λ _. g) f) R
    on_error (ok mode) g f n k = absurd (n mode refl)
    on_error (err rc) g f n k = k

    -- Where no handle is found, the status says what the sizes in the header are.
    pub check_gop_for_ux_capsule-none_found :
        (b : Buffer) (fsize : ℕ)
        → capsule_sizeof ≤ b.size
        → Reaches P (check_gop_for_ux_capsule F loaded_image b fsize) (λ r w.
          (r ≡ err (if bad_header_size b.byte fsize then invalid_parameter else unsupported)) × P w)
    unfolding check_gop_for_ux_capsule
    check_gop_for_ux_capsule-none_found b fsize h =
        Reaches-bind _ _ (Reaches-bounds b 0 capsule_sizeof (omega (arith, h))) λ _.
          Reaches-if (bad_header_size b.byte fsize) _ _
            (λ t.
              Reaches-then _ _ (fwup_log-Safe F _ _ _ _) (c.logging _ _ _ _)
                λ _. Reaches-pure _ λ w k. (cc t, k))
            (λ f. Reaches-bind _ _ no_gop_mode λ r.
              Reaches-given _ (λ w k. k) λ n. on_error r _ _ n (Reaches-pure _ λ w k. (cc f, k)))
