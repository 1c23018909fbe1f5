-- ===== src/Common/Raw.antt =====
-- `fwup_malloc_raw` and `fwup_free_raw` over sound firmware.
use fwupd_efi.Base.{ℕ, ◌^◌, ◌<◌, ◌≡◌, arith, false, Option, none, some, ◌==◌, ◌&&◌, ltb}
use fwupd_efi.Memory.{Buffer}
use fwupd_efi.Efi.{efi_error}
use fwupd_efi.Firmware.Services.{Services, PagesReply, AllocateType}
use fwupd_efi.Firmware.Calls.{allocate_pages, free_pages}
use fwupd_efi.Firmware.Total.{
  Total, Any, Total-bind, Total-pure, Total-if, Total-call, Total-post, safe_rules,
}
use fwupd_efi.Firmware.Sound.{Sound}
use fwupd_efi.Debug.Total.{fwup_log-Safe}
use fwupd_efi.Common.{page_count, raw_after, malloc_raw, free_raw}

module _ (F : Services) where
  pub free_raw-Safe : (addr size : ℕ) → Total Any (free_raw F addr size) Any
  unfolding free_raw free_pages
  free_raw-Safe addr size = search safe_rules depth 8

  -- The pages that were allocated, which are less than a quarter of the address space.
  abbrev pub Allocates : ℕ → Option Buffer → Type 0
  Allocates size o = (b : Buffer) → o ≡ some b → (b.size ≡ size) × (size < 2 ^ 62)

  few_pages : (size : ℕ) → page_count size < 2 ^ 50 → size < 2 ^ 62
  unfolding page_count
  few_pages size h = ground (arith, h)

  raw_after-Allocates :
      (size : ℕ) (r : PagesReply)
      → (efi_error r.status ≡ false → size < 2 ^ 62)
      → Total Any (raw_after F size r) (Allocates size)
  unfolding raw_after free_pages
  raw_after-Allocates size r h =
      Total-if (efi_error r.status) _ _
        (λ _. Total-bind _ _ (fwup_log-Safe F _ _ _ _) λ _ _. Total-pure none λ b e. cc e)
        λ f.
          Total-if (F.pointer_size == 4 && ltb 0xffffffff r.memory) _ _
            (λ _.
              Total-bind {Q = Any} _ _ (search safe_rules depth 8)
                λ _ _. Total-bind _ _ (fwup_log-Safe F _ _ _ _) λ _ _. Total-pure none λ b e. cc e)
            (λ _. Total-pure (some _) λ b e. (ground arith, h f))

  module _ (sound : Sound F) where
    allocate_pages-fit :
        (type : AllocateType) (n addr : ℕ)
        → Total Any (allocate_pages F type n addr) (λ r. efi_error r.status ≡ false → n < 2 ^ 50)
    unfolding allocate_pages
    allocate_pages-fit type n addr =
        Total-bind {Q = λ r. efi_error r.status ≡ false → n < 2 ^ 50} _ _
          (Total-call _ λ s e. sound.pages_fit s type n addr e)
          λ r h. Total-bind {Q = Any} _ _ (search safe_rules) λ _ _. Total-pure r h

    pub malloc_raw-Allocates : (size : ℕ) → Total Any (malloc_raw F size) (Allocates size)
    unfolding malloc_raw
    malloc_raw-Allocates size =
        Total-bind _ _ (allocate_pages-fit _ _ _)
          λ r h. raw_after-Allocates size r λ f. few_pages size (h f)

    pub malloc_raw-Safe : (size : ℕ) → Total Any (malloc_raw F size) Any
    malloc_raw-Safe size = Total-post _ (malloc_raw-Allocates size) λ o a. tt
