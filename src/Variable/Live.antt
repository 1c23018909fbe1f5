-- ===== src/Variable/Live.antt =====
-- What `fwup_get_variable` leaves of pool memory, over any services.
use fwupd_efi.Base.{ℕ, Option, none, some, List, [], ◌++◌, ◌==◌}
use fwupd_efi.Firmware.Monad.{pure}
use fwupd_efi.Memory.{Buffer}
use fwupd_efi.Efi.{Name, Guid, Result, ok, err, efi_error, not_found, buffer_too_small}
use fwupd_efi.Firmware.Services.{Services}
use fwupd_efi.Firmware.Keeps.{Keeps}
use fwupd_efi.Firmware.Leads.{Leads, Leads-bind, Leads-step, Leads-pure, Leads-if}
use fwupd_efi.Firmware.Lawful.{Lawful}
use fwupd_efi.Firmware.Reaches.{Reaches, Reaches-Leads}
use fwupd_efi.Variable.Total.{IsHeld, get_variable-IsHeld}
use fwupd_efi.Firmware.Live.{
  Holding, block, Holding-on_option, get_variable_call-Holding, allocate_pool-Holding,
  free_pool-Holding,
}
use fwupd_efi.Variable.{
  Variable, malloc_with, cleanup_free, get_into, get_after_malloc, get_after, get_variable_with,
  filled,
}
use fwupd_efi.Debug.{fwup_log, get_variable, delete_variable}
use fwupd_efi.Debug.Live.{fwup_log-Holding, delete_variable_with-Holding}

-- The block that the caller gets, if any.
abbrev pub got : Result Variable → List ℕ
got (ok v) = block (λ b. b.addr) v.buf
got (err rc) = []

module _ (F : Services) (xs : List ℕ) where
  pub cleanup_free-Holding :
      (o : Option Buffer)
      → Leads (Holding (block (λ b. b.addr) o ++ xs)) (cleanup_free F o) (λ _. Holding xs)
  unfolding cleanup_free
  cleanup_free-Holding none = Leads-pure _ λ w h. h
  cleanup_free-Holding (some b) = free_pool-Holding F [] xs b.addr

  pub delete_variable-Holding :
      (name : Name) (guid : Guid) → Keeps (Holding xs) (delete_variable F name guid)
  unfolding delete_variable
  delete_variable-Holding name guid =
      delete_variable_with-Holding F (fwup_log F) (fwup_log-Holding F) name guid

  malloc-Holding :
      (size : ℕ)
      → Leads
          (Holding xs)
          (malloc_with F (fwup_log F) size)
          (λ r. Holding (block (λ b. b.addr) r ++ xs))
  unfolding malloc_with
  malloc-Holding size = Leads-bind _ _ (allocate_pool-Holding F size) λ o.
      Holding-on_option (λ b. b.addr) o _ _
        (Leads-step _ _ (fwup_log-Holding F xs _ _ _ _) λ _. Leads-pure none λ w h. h)
        (λ b. Leads-pure (some b) λ w h. h)

  module _ (name : Name) (guid : Guid) where
    got_into :
        (o : Option Buffer) (size attrs : ℕ) (bytes : ℕ → ℕ)
        → Leads
            (Holding {S = F.State} (block (λ b. b.addr) o ++ xs))
            (pure (ok (record { buf = filled F o size bytes; size = size; attrs = attrs })))
            (λ r. Holding (got r ++ xs))
    got_into none size attrs bytes = Leads-pure _ λ w h. h
    got_into (some b) size attrs bytes = Leads-pure _ λ w h. h

    get_into-Holding :
        (o : Option Buffer) (size : ℕ)
        → Leads
            (Holding (block (λ b. b.addr) o ++ xs))
            (get_into F (fwup_log F) name guid o size)
            (λ r. Holding (got r ++ xs))
    unfolding get_into
    get_into-Holding o size = Leads-step _ _ (get_variable_call-Holding F name guid size _) λ r.
        Leads-if (efi_error r.status) _ _
          (λ _.
            Leads-step _ _ (fwup_log-Holding F _ _ _ _ _)
              λ _. Leads-bind _ _ (cleanup_free-Holding o) λ _. Leads-pure (err r.status) λ w h. h)
          (λ _. got_into o r.size r.attrs r.bytes)

    malloced-Holding :
        (size : ℕ) (o : Option Buffer)
        → Leads
            (Holding (block (λ b. b.addr) o ++ xs))
            (get_after_malloc F (fwup_log F) name guid size o)
            (λ r. Holding (got r ++ xs))
    unfolding get_after_malloc
    malloced-Holding size none = Leads-pure _ λ w h. h
    malloced-Holding size (some b) = get_into-Holding (some b) size

    get_after-Holding :
        (rc size : ℕ)
        → Leads
            (Holding xs)
            (get_after F (fwup_log F) name guid rc size)
            (λ r. Holding (got r ++ xs))
    unfolding get_after
    get_after-Holding rc size =
        Leads-if (efi_error rc) _ _
          (λ _.
            Leads-if (rc == buffer_too_small) _ _
              (λ _. Leads-bind _ _ (malloc-Holding size) λ o. malloced-Holding size o)
              (λ _.
                Leads-if (rc == not_found) _ _ (λ _. get_into-Holding none size)
                  (λ _.
                    Leads-step _ _ (fwup_log-Holding F _ _ _ _ _)
                      λ _. Leads-pure (err rc) λ w h. h)))
          (λ _. Leads-step _ _ (fwup_log-Holding F _ _ _ _ _) λ _. Leads-pure (err _) λ w h. h)

    pub get_variable-Holding :
        Leads (Holding xs) (get_variable F name guid) (λ r. Holding (got r ++ xs))
    unfolding get_variable get_variable_with
    get_variable-Holding =
        Leads-step _ _ (get_variable_call-Holding F name guid 0 _)
          λ r. get_after-Holding r.status r.size

    -- Over lawful services and from any live blocks of pool memory, `fwup_get_variable` returns without
    -- a fault. With an error the same blocks are live afterwards; with success so is the buffer of the
    -- variable, if it has one, and the buffer is as large as the size that is reported, or that size is 0.
    pub get_variable-Reaches :
        Lawful F
        → Reaches
            (Holding xs)
            (get_variable F name guid)
            (λ r w. IsHeld r × Holding (got r ++ xs) w)
    get_variable-Reaches lawful =
        Reaches-Leads _ (get_variable-IsHeld F lawful name guid) get_variable-Holding
