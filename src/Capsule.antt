-- ===== src/Capsule.antt =====
-- The capsule part of efi/fwupdate.c: size checks, the flags, the UX capsule's header, the block
-- descriptors.
pub mod Quiet
pub mod Size
pub mod Checksum
pub mod Gop
pub mod Display
pub mod Mode
use Prim.Native.Nat.{bit_or}
use fwupd_efi.Base.{ℕ, zero, suc, ◌+◌, ◌-◌, ◌%◌, ◌^◌, Bool, true, false, ◌||◌, ◌&&◌, List, [], ◌∷◌}
use fwupd_efi.Base.{Option, none, some, String, ◌==◌, ltb, leb, if◌then◌else◌}
use fwupd_efi.Memory.{Buffer, poke, get32, put32}
use fwupd_efi.Efi.{
  Result, ok, err, efi_error, success, invalid_parameter, unsupported, capsule_sizeof,
  capsule_header_size, capsule_image_size, ux_sizeof, ux_checksum, ux_mode,
  graphics_output_protocol,
}
use fwupd_efi.Firmware.Services.{Services, Arg, num, HandlesReply, HandleReply, Block}
use fwupd_efi.Firmware.Monad.{M, pure, on_option, on_result, bounds, ◌>>=◌, ◌>>◌}
use fwupd_efi.Firmware.Calls.{W, locate_handle, open_protocol, gop_mode}
use fwupd_efi.Variable.{warning}
use fwupd_efi.Debug.{fwup_log}

-- `sum` over `buf[i], …` of the loop in `fwup_update_ux_capsule_checksum`, for `n` rounds.
unfoldable pub checksum_loop : ℕ → (ℕ → ℕ) → ℕ → ℕ → ℕ
checksum_loop zero m i sum = sum
checksum_loop (suc n) m i sum = checksum_loop n m (i + 1) ((sum + m i) % 256)

-- `fwup_update_ux_capsule_checksum`, of the header at `off`
unfoldable pub update_ux_checksum : (ℕ → ℕ) → ℕ → ℕ → ℕ
unfolding checksum_loop
update_ux_checksum m off =
    let cleared = poke m (off + ux_checksum) 0 in
    poke cleared (off + ux_checksum) (checksum_loop ux_sizeof cleared off 0)

-- `fwup_validate_capsule_size`
unfoldable pub validate_capsule_size : (ℕ → ℕ) → ℕ → ℕ
validate_capsule_size m fsize =
    let image_size = get32 m capsule_image_size in
    if ltb image_size capsule_sizeof || ltb fsize image_size then invalid_parameter else success

-- The four tests of `fwup_check_gop_for_ux_capsule`. The sizes are `UINT32`, and the arithmetic on
-- them with `sizeof` is in 64 bits.
unfoldable pub bad_header_size : (ℕ → ℕ) → ℕ → Bool
bad_header_size m fsize =
    let header_size = get32 m capsule_header_size in
    let image_size = get32 m capsule_image_size in
    ltb header_size capsule_sizeof
    || ltb image_size header_size
    || ltb ((image_size + 2 ^ 32 - header_size) % 2 ^ 32) ux_sizeof
    || ltb fsize ((header_size + ux_sizeof) % 2 ^ 64)

-- `fwup_cbd_set_terminator`
unfoldable pub cbd_set_terminator : (ℕ → Block) → ℕ → ℕ → Block
cbd_set_terminator cbd index j = if j == index then record { length = 0; pointer = 0 } else cbd j

module _ (F : Services) where
  -- The loop of `fwup_get_gop_mode` over the handles.
  unfoldable pub gop_loop : ℕ → List ℕ → M (W F) (Result ℕ)
  gop_loop loaded_image [] = pure (err unsupported)
  gop_loop loaded_image (handle ∷ handles) = do
    r ← open_protocol F handle graphics_output_protocol loaded_image
    (if (efi_error r.status)
        then (gop_loop loaded_image handles)
        else (do mode ← gop_mode F r.handle; pure (ok mode)))

  -- `fwup_get_gop_mode`; a `num_handles` of 0 is the empty list, on which the loop ends as the test
  -- before it does.
  unfoldable pub get_gop_mode : ℕ → M (W F) (Result ℕ)
  get_gop_mode loaded_image = do
    r ← locate_handle F graphics_output_protocol
    if efi_error r.status
        then pure (err r.status)
        else if r.pool == 0
        then pure (err unsupported)
        else gop_loop loaded_image r.handles

  -- The UX capsule's payload header gets the mode and its checksum.
  unfoldable pub ux_mode_set : Buffer → ℕ → ℕ → M (W F) (Result Buffer)
  ux_mode_set capsule header_size mode = do
    bounds capsule header_size ux_sizeof
    pure (
        ok (record capsule {
          byte = update_ux_checksum (put32 capsule.byte (header_size + ux_mode) mode) header_size;
        }))

  -- `fwup_check_gop_for_ux_capsule`; the capsule comes back as it is in memory afterwards.
  unfoldable pub check_gop_for_ux_capsule : ℕ → Buffer → ℕ → M (W F) (Result Buffer)
  check_gop_for_ux_capsule loaded_image capsule fsize = do
    bounds capsule 0 capsule_sizeof
    let header_size = get32 capsule.byte capsule_header_size
    if bad_header_size capsule.byte fsize
        then (do
          fwup_log F warning "fwup_check_gop_for_ux_capsule" "Invalid capsule header size %u"
              (num header_size ∷ [])
          pure (err invalid_parameter))
        else (do
          rc ← get_gop_mode loaded_image
          on_result rc (λ _. pure (err unsupported)) (λ mode. ux_mode_set capsule header_size mode))
