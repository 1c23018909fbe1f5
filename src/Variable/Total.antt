-- ===== src/Variable/Total.antt =====
-- `fwup_get_variable` over lawful services.
use fwupd_efi.Base.{
  ℕ, ◌^◌, ◌≤◌, ◌<◌, ◌≡◌, ◌⊎◌, inl, inr, refl, arith, true, false, Option, none, some, ◌==◌, List,
  String,
}
use mathlib.Core.Path.{subst}
use fwupd_efi.Memory.{Buffer, blit}
use fwupd_efi.Efi.{
  Name, Guid, Result, ok, err, efi_error, buffer_too_small, not_found, out_of_resources,
  invalid_parameter,
}
use fwupd_efi.Firmware.Services.{Services, Arg, VariableReply}
use fwupd_efi.Firmware.Lawful.{Lawful}
use fwupd_efi.Firmware.Calls.{get_variable_call, allocate_pool, allocated}
use fwupd_efi.Firmware.Total.{
  Total, Any, Total-bind, Total-pure, Total-if, Total-call, Total-on_option, Total-emit, safe_rules,
}
use fwupd_efi.Debug.Total.{fwup_log-Safe, free_pool-Safe, get_variable_call-Safe}
use fwupd_efi.Debug.{fwup_log, get_variable}
use fwupd_efi.Variable.Copy.{Allocated, HasRoom}
use fwupd_efi.Variable.{
  Variable, Level, filled, cleanup_free, malloc_with, get_into, get_after_malloc, get_after,
  get_variable_with,
}

-- The buffer holds what the size says, or there is nothing to hold.
pub record HeldIn (b : Buffer) (v : Variable) : Type 0 where
  pub in_buffer : v.buf ≡ some b
  pub size_fits : v.size ≤ b.size
  pub size_small : v.size < 2 ^ 63

abbrev pub IsHeld : Result Variable → Type 0
IsHeld (ok v) = (v.size ≡ 0) ⊎ ((b : Buffer) × HeldIn b v)
IsHeld (err rc) = efi_error rc ≡ true

abbrev pub HasSize : ℕ → Option Buffer → Type 0
HasSize size none = Unit {0}
HasSize size (some b) = (b.size ≡ size) × (size < 2 ^ 63)

resources : efi_error out_of_resources ≡ true
unfolding efi_error
resources = refl

invalid : efi_error invalid_parameter ≡ true
unfolding efi_error
invalid = refl

module _ (F : Services) where
  pub cleanup_free-Safe : (o : Option Buffer) → Total Any (cleanup_free F o) Any
  unfolding cleanup_free
  cleanup_free-Safe none = search safe_rules
  cleanup_free-Safe (some b) = search free_pool-Safe

  log-Safe :
      (level : Level) (func fmt : String) (args : List Arg)
      → Total Any (fwup_log F level func fmt args) Any
  log-Safe = fwup_log-Safe F

  -- Memory of the size asked for, or none.
  module _ (room : HasRoom F) (size : ℕ) where
    pool-Allocated :
        (s : F.State) (o : Option Buffer) → (F.allocate_pool s size).0 ≡ o → Allocated F size o
    pool-Allocated s none e = (s, e)
    pool-Allocated s (some b) e = room s size b e

    allocated-Allocated :
        (o : Option Buffer)
        → Allocated F size o
        → Total Any (allocated F (λ b. b.addr) o) (Allocated F size)
    unfolding allocated
    allocated-Allocated none h = Total-pure _ h
    allocated-Allocated (some b) h = Total-bind _ _ (Total-emit _) λ _ _. Total-pure _ h

    allocate_pool-Allocated : Total Any (allocate_pool F size) (Allocated F size)
    unfolding allocate_pool
    allocate_pool-Allocated =
        Total-bind {Q = Allocated F size} _ _ (Total-call _ λ s. pool-Allocated s _ refl)
          λ o h. allocated-Allocated o h

    pub malloc_with-Allocated : Total Any (malloc_with F (fwup_log F) size) (Allocated F size)
    unfolding malloc_with
    malloc_with-Allocated = Total-bind _ _ allocate_pool-Allocated λ o h.
        Total-on_option o _ _
          (λ e.
            Total-bind _ _ (log-Safe _ _ _ _) λ _ _. Total-pure _ (subst (Allocated F size) e h))
          (λ b e. Total-pure _ (subst (Allocated F size) e h))

  module _ (lawful : Lawful F) where
    allocated-HasSize :
        (size : ℕ) (o : Option Buffer)
        → HasSize size o
        → Total Any (allocated F (λ b. b.addr) o) (HasSize size)
    unfolding allocated
    allocated-HasSize size none h = Total-pure _ h
    allocated-HasSize size (some b) h = Total-bind _ _ (Total-emit _) λ _ _. Total-pure _ h

    pool-HasSize :
        (s : F.State) (size : ℕ) (o : Option Buffer)
        → (F.allocate_pool s size).0 ≡ o
        → HasSize size o
    pool-HasSize s size none e = tt
    pool-HasSize s size (some b) e = lawful.pool_size s size b e

    pub allocate_pool-HasSize : (size : ℕ) → Total Any (allocate_pool F size) (HasSize size)
    unfolding allocate_pool
    allocate_pool-HasSize size =
        Total-bind {Q = HasSize size} _ _ (Total-call _ λ s. pool-HasSize s size _ refl)
          λ o h. allocated-HasSize size o h

    malloc-HasSize : (size : ℕ) → Total Any (malloc_with F (fwup_log F) size) (HasSize size)
    unfolding malloc_with
    malloc-HasSize size = Total-bind _ _ (allocate_pool-HasSize size) λ o h.
        Total-on_option o _ _ (λ _. Total-bind _ _ (log-Safe _ _ _ _) λ _ _. Total-pure _ tt)
          (λ b e. Total-pure _ (subst (HasSize size) e h))

    -- The second `GetVariable`, without a buffer and with one.
    stored-none :
        (name : Name) (guid : Guid) (size : ℕ)
        → Total Any
            (get_variable_call F name guid size false)
            (λ r. efi_error r.status ≡ false → r.size ≡ 0)
    unfolding get_variable_call
    stored-none name guid size = Total-call _ λ s. lawful.none_stored s name guid size

    stored-some :
        (name : Name) (guid : Guid) (size : ℕ)
        → Total Any
            (get_variable_call F name guid size true)
            (λ r. efi_error r.status ≡ false → r.size ≤ size)
    unfolding get_variable_call
    stored-some name guid size = Total-call _ λ s. lawful.stored_fits s name guid size

    stored-IsHeld :
        (b : Buffer) (size : ℕ) (r : VariableReply)
        → HasSize size (some b)
        → r.size ≤ size
        → IsHeld
            (ok (record { buf = filled F (some b) r.size r.bytes; size = r.size; attrs = r.attrs }))
    stored-IsHeld b size r h k = inr (
      record b { byte = blit b.byte 0 r.size r.bytes },
      record { in_buffer = refl; size_fits = omega arith; size_small = omega arith },
    )

    get_into-IsHeld :
        (name : Name) (guid : Guid) (o : Option Buffer) (size : ℕ)
        → HasSize size o
        → Total Any (get_into F (fwup_log F) name guid o size) IsHeld
    unfolding get_into
    get_into-IsHeld name guid none size h = Total-bind _ _ (stored-none name guid size) λ r q.
        Total-if (efi_error r.status) _ _
          (λ t.
            Total-bind _ _ (log-Safe _ _ _ _)
              λ _ _. Total-bind _ _ (cleanup_free-Safe none) λ _ _. Total-pure _ t)
          (λ f. Total-pure _ (inl (q f)))
    get_into-IsHeld name guid (some b) size h = Total-bind _ _ (stored-some name guid size) λ r q.
        Total-if (efi_error r.status) _ _
          (λ t.
            Total-bind _ _ (log-Safe _ _ _ _)
              λ _ _. Total-bind _ _ (cleanup_free-Safe (some b)) λ _ _. Total-pure _ t)
          (λ f. Total-pure _ (stored-IsHeld b size r h (q f)))

    malloced-IsHeld :
        (name : Name) (guid : Guid) (size : ℕ) (o : Option Buffer)
        → HasSize size o
        → Total Any (get_after_malloc F (fwup_log F) name guid size o) IsHeld
    unfolding get_after_malloc
    malloced-IsHeld name guid size none h = Total-pure _ resources
    malloced-IsHeld name guid size (some b) h = get_into-IsHeld name guid (some b) size h

    get_after-IsHeld :
        (name : Name) (guid : Guid) (rc size : ℕ)
        → Total Any (get_after F (fwup_log F) name guid rc size) IsHeld
    unfolding get_after
    get_after-IsHeld name guid rc size =
        Total-if (efi_error rc) _ _
          (λ t.
            Total-if (rc == buffer_too_small) _ _
              (λ _. Total-bind _ _ (malloc-HasSize size) λ o h. malloced-IsHeld name guid size o h)
              (λ _.
                Total-if (rc == not_found) _ _ (λ _. get_into-IsHeld name guid none size tt)
                  (λ _. Total-bind _ _ (log-Safe _ _ _ _) λ _ _. Total-pure _ t)))
          (λ _. Total-bind _ _ (log-Safe _ _ _ _) λ _ _. Total-pure _ invalid)

    -- Over lawful services, `fwup_get_variable` returns without a fault, and its status is an error,
    -- or the buffer is as large as the size that it reports, or that size is 0.
    pub get_variable-IsHeld :
        (name : Name) (guid : Guid) → Total Any (get_variable F name guid) IsHeld
    unfolding get_variable get_variable_with
    get_variable-IsHeld name guid =
        Total-bind _ _ (get_variable_call-Safe F name guid 0 false)
          λ r _. get_after-IsHeld name guid r.status r.size
