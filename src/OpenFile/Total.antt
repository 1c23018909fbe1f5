-- ===== src/OpenFile/Total.antt =====
-- `fwup_open_file` over sound firmware.
use fwupd_efi.Base.{ℕ, ◌+◌, ◌≤◌, ◌≡◌, refl, arith, false, Option, none, some, not}
use mathlib.Core.Path.{subst}
use fwupd_efi.Memory.{Buffer}
use fwupd_efi.Efi.{
  err, unsupported, invalid_parameter, unsupported-efi_error, invalid_parameter-efi_error,
  dp_node_length, dp_is_file,
}
use fwupd_efi.Firmware.Services.{Services}
use fwupd_efi.Firmware.Calls.{allocate_zero_pool, zeroed}
use fwupd_efi.Firmware.Total.{
  Total, Any, Succeeds, IsThere, Total-bind, Total-pure, Total-if, Total-on_option, Total-on_result,
  Total-bounds, Total-call, Total-deref,
}
use fwupd_efi.Firmware.Sound.{Sound}
use fwupd_efi.DevicePath.Spec.{PathAt, PathIn, PathAt-first, PathAt-four_le}
use fwupd_efi.Common.{malloc0}
use fwupd_efi.Debug.Total.{free_pool-Safe}
use fwupd_efi.OpenFile.{filename_size, bad_filename_size, copy_filename, open_node, open_file}
use fwupd_efi.OpenFile.Calls.{log_fails, allocated-same, open_on-Succeeds}
use fwupd_efi.OpenFile.Search.{IsLocated, locate-IsLocated}

accepted_size : {sz : ℕ} → bad_filename_size sz ≡ false → sz ≤ 2048
unfolding bad_filename_size
accepted_size f = ground arith

size_within :
    (file : Buffer) (dp n : ℕ)
    → PathAt file.byte dp n
    → dp + n ≤ file.size
    → dp + 4 + filename_size file.byte dp ≤ file.size
unfolding filename_size dp_node_length
size_within file dp n p h = let (a, b) = PathAt-first p in omega (arith, a, b, h)

module _ (F : Services) where
  module _ (sound : Sound F) where
    -- Memory of up to a page is there.
    zeroed-IsThere : (size : ℕ) (r : Option ℕ) → (r ≡ none → ⊥) → IsThere (zeroed F size r)
    zeroed-IsThere size none n = absurd (n refl)
    zeroed-IsThere size (some addr) n = (_, refl)

    allocate_zero_pool-IsThere :
        (size : ℕ) → size ≤ 4096 → Total Any (allocate_zero_pool F size) IsThere
    unfolding allocate_zero_pool
    allocate_zero_pool-IsThere size h =
        Total-bind {Q = λ r. IsThere (zeroed F size r)} _ _
          (Total-call _ λ s. zeroed-IsThere size _ (sound.pool_left s size h))
          λ r t. allocated-same F _ _ t

    pub malloc0-IsThere : (size : ℕ) → size ≤ 4096 → Total Any (malloc0 F size) IsThere
    unfolding malloc0
    malloc0-IsThere size h =
        Total-bind _ _ (allocate_zero_pool-IsThere size h)
          λ o (b, e). Total-on_option o _ _ (λ n. cc (n, e)) (λ c f. Total-pure _ (c, refl))

    copy_filename-Safe :
        (file : Buffer) (dp sz : ℕ)
        → sz ≤ 2048
        → dp + 4 + sz ≤ file.size
        → Total Any (copy_filename F file dp sz) Any
    unfolding copy_filename
    copy_filename-Safe file dp sz h k =
        Total-bind _ _ (malloc0-IsThere (sz + 2) (omega (arith, h))) λ o (b, e).
          Total-bind _ _ (Total-deref o b e)
            λ _ _. Total-bind _ _ (Total-bounds file (dp + 4) sz k) λ _ _. Total-pure _ tt

    open_node-Succeeds :
        (file : Buffer) (dp device : ℕ)
        → PathIn file dp
        → Total Any (open_node F file dp device) Succeeds
    unfolding open_node
    open_node-Succeeds file dp device (n, p, h) =
        Total-bind _ _ (Total-bounds file dp 4 (omega (arith, h, PathAt-four_le p))) λ _ _.
          Total-if (not (dp_is_file file.byte dp)) _ _
            (λ _. log_fails F _ _ _ _ unsupported unsupported-efi_error)
            λ _.
              Total-if (bad_filename_size (filename_size file.byte dp)) _ _
                (λ _. log_fails F _ _ _ _ invalid_parameter invalid_parameter-efi_error)
                λ f.
                  Total-bind _ _
                    (copy_filename-Safe file dp (filename_size file.byte dp) (accepted_size f)
                      (size_within file dp n p h))
                    λ name _.
                      Total-bind _ _ (open_on-Succeeds F device _)
                        λ r k. Total-bind _ _ (free_pool-Safe F _) λ _ _. Total-pure r k

    -- On a device path in a buffer, over sound firmware, `fwup_open_file` returns without a fault, and
    -- without a handle its status is an error.
    pub open_file-Succeeds :
        (file : Buffer) (dp : ℕ) → PathIn file dp → Total Any (open_file F file dp) Succeeds
    unfolding open_file
    open_file-Succeeds file dp h = Total-bind _ _ (locate-IsLocated F sound file dp h) λ r k.
        Total-on_result r _ _ (λ rc e. Total-pure (err rc) (subst (IsLocated file) e k))
          (λ (rest, device) e. open_node-Succeeds file rest device (subst (IsLocated file) e k))
