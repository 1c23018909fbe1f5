-- ===== src/Common/Pages.antt =====
-- The number of pages of an allocation.
use fwupd_efi.Base.{ℕ, ◌*◌, ◌≤◌, arith}
use fwupd_efi.Common.{page_count}

-- The pages that `fwup_malloc_raw` allocates and `fwup_free_raw` frees for `size` bytes hold them,
-- and no smaller number of pages does.
pub page_count-least :
    (size : ℕ) → (size ≤ page_count size * 4096) × ((n : ℕ) → size ≤ n * 4096 → page_count size ≤ n)
unfolding page_count
page_count-least size = (ground arith, λ n h. ground arith)
