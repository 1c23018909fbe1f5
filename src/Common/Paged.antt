-- ===== src/Common/Paged.antt =====
-- The pages that `fwup_malloc_raw` allocates and `fwup_free_raw` frees.
use fwupd_efi.Base.{ℕ, ◌≡◌, Option, none, some, List, [], ◌∷◌, ◌++◌, String, ◌==◌, ◌&&◌, ltb}
use mathlib.Core.Path.{subst}
use fwupd_efi.Memory.{Buffer}
use fwupd_efi.Efi.{efi_error, fwupdate_guid}
use fwupd_efi.Firmware.Services.{Services, Arg, PagesReply}
use fwupd_efi.Firmware.Monad.{modify}
use fwupd_efi.Firmware.Keeps.{Keeps}
use fwupd_efi.Firmware.Leads.{Leads, Leads-bind, Leads-step, Leads-pure, Leads-if, Leads-from}
use fwupd_efi.Firmware.Paged.{
  Paged, granted, granted_none, granted_some, allocate_pages-Paged, free_pages-Paged,
  get_variable_call-Paged, set_variable_call-Paged, allocate_pool-Paged, free_pool-Paged,
  vpool_print-Paged, pool_print-Paged, print-Paged,
}
use fwupd_efi.Variable.{Level}
use fwupd_efi.Debug.{fwup_log, clear_once, log_name}
use fwupd_efi.Debug.Keeps.{LogCalls, log_keeps}
use fwupd_efi.Common.{page_count, raw_after, malloc_raw, free_raw}

-- The pages of a buffer, if there is one.
abbrev pub pages : Option Buffer → List (ℕ × ℕ)
pages none = []
pages (some b) = (b.addr, page_count b.size) ∷ []

module _ (F : Services) where
  clear_once-Paged : {xs : List (ℕ × ℕ)} → Keeps (Paged xs) (clear_once F)
  unfolding clear_once modify
  clear_once-Paged = record { at = λ w h. h }

  log_calls-Paged : {xs : List (ℕ × ℕ)} → LogCalls F (Paged xs)
  log_calls-Paged = record {
    reading = record {
      getting = get_variable_call-Paged F;
      allocating = allocate_pool-Paged F;
      freeing = free_pool-Paged F;
    };
    writing = set_variable_call-Paged F log_name fwupdate_guid;
    formatting = vpool_print-Paged F;
    joining = pool_print-Paged F;
    printing = print-Paged F;
    clearing = clear_once-Paged;
  }

  pub fwup_log-Paged :
      {xs : List (ℕ × ℕ)} (level : Level) (func fmt : String) (args : List Arg)
      → Keeps (Paged xs) (fwup_log F level func fmt args)
  fwup_log-Paged = (log_keeps F log_calls-Paged).logging

  raw_after-Paged :
      (xs : List (ℕ × ℕ)) (size : ℕ) (r : PagesReply)
      → Leads
          (Paged (granted (page_count size) r ++ xs))
          (raw_after F size r)
          (λ o. Paged (pages o ++ xs))
  unfolding raw_after
  raw_after-Paged xs size r =
      Leads-if (efi_error r.status) _ _
        (λ t.
          Leads-from _ (λ w h. subst (λ ys. Paged ys w) (granted_none F _ r t) h)
            (Leads-step _ _ (fwup_log-Paged _ _ _ _) λ _. Leads-pure none λ w h. h))
        λ f.
          Leads-from _ (λ w h. subst (λ ys. Paged ys w) (granted_some F _ r f) h)
            (Leads-if (F.pointer_size == 4 && ltb 0xffffffff r.memory) _ _
              (λ _.
                Leads-bind _ _ (free_pages-Paged F [] xs r.memory (page_count size))
                  λ _. Leads-step _ _ (fwup_log-Paged _ _ _ _) λ _. Leads-pure none λ w h. h)
              λ _. Leads-pure (some _) λ w h. h)

  pub malloc_raw-Paged :
      (xs : List (ℕ × ℕ)) (size : ℕ)
      → Leads (Paged xs) (malloc_raw F size) (λ o. Paged (pages o ++ xs))
  unfolding malloc_raw
  malloc_raw-Paged xs size =
      Leads-bind _ _ (allocate_pages-Paged F _ _ _) λ r. raw_after-Paged xs size r

  pub free_raw-Paged :
      (ys xs : List (ℕ × ℕ)) (b : Buffer) (n : ℕ)
      → b.size ≡ n
      → Leads (Paged (ys ++ (pages (some b) ++ xs))) (free_raw F b.addr n) (λ _. Paged (ys ++ xs))
  unfolding free_raw
  free_raw-Paged ys xs b n e =
      Leads-from _ (λ w h. subst (λ k. Paged (ys ++ (b.addr, page_count k) ∷ xs) w) e h)
        (free_pages-Paged F ys xs b.addr (page_count n))
