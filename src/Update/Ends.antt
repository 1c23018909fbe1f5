-- ===== src/Update/Ends.antt =====
-- The enumeration of `fwup_populate_update_table` ends where the firmware's names do.
use fwupd_efi.Base.{ℕ, zero, suc, ◌<◌, ◌≡◌, ◌≢◌, ◌⊎◌, inl, inr, arith, true, false, List, [], ◌==◌}
use mathlib.Core.Path.{subst}
use fwupd_efi.Efi.{
  Name, Guid, ok, err, efi_error, buffer_too_small, not_found, out_of_resources,
  out_of_resources-efi_error, empty_guid,
}
use fwupd_efi.Firmware.Services.{Services, NextReply}
use fwupd_efi.Firmware.Lawful.{Lawful, Enumerates}
use fwupd_efi.Firmware.Calls.{get_next_variable_name}
use fwupd_efi.Firmware.Total.{
  Total, Any, Total-bind, Total-pure, Total-if, Total-on_option, Total-on_result, Total-call,
}
use fwupd_efi.Debug.Total.{fwup_log-Safe, free_pool-Safe}
use fwupd_efi.Update.{Update, gnvn_buf_size, populate_loop, populate_update_table}
use fwupd_efi.Update.Table.{IsTable, IsTableResult, visit-IsTable, malloc0-Safe}

-- The reply ends the enumeration, or what follows has a smaller rank.
abbrev Goes : (Name → Guid → ℕ) → ℕ → NextReply → Type 0
Goes rank n r =
    ((efi_error r.status ≡ true) × (r.status ≢ buffer_too_small)) ⊎ (rank r.name r.vendor < n)

is_too_small : (rc : ℕ) → rc ≢ buffer_too_small → (rc == buffer_too_small) ≡ true → ⊥
is_too_small rc h k = ground arith

module _ (F : Services) (lawful : Lawful F) (rank : Name → Guid → ℕ)
    (ends : Enumerates F rank gnvn_buf_size) where
  next-Goes :
      (name : Name) (vendor : Guid)
      → Total Any
          (get_next_variable_name F gnvn_buf_size name vendor)
          (Goes rank (rank name vendor))
  unfolding get_next_variable_name
  next-Goes name vendor = Total-call _ λ s. ends s name vendor

  small-Goes :
      {n : ℕ} (r : NextReply)
      → Goes rank n r
      → (r.status == buffer_too_small) ≡ true
      → rank r.name r.vendor < n
  small-Goes r (inl h) t = absurd (is_too_small r.status h.1 t)
  small-Goes r (inr h) t = h

  success-Goes :
      {n : ℕ} (r : NextReply)
      → Goes rank n r
      → efi_error r.status ≡ false
      → rank r.name r.vendor < n
  success-Goes r (inl h) f = cc
  success-Goes r (inr h) f = h

  populate_loop-IsTable :
      (fuel : ℕ) (name : Name) (vendor : Guid) (us : List Update)
      → rank name vendor < fuel
      → IsTable us
      → Total Any (populate_loop F fuel name vendor us) IsTableResult
  unfolding populate_loop
  populate_loop-IsTable zero name vendor us h t = elim h [ ]
  populate_loop-IsTable (suc fuel) name vendor us h t =
      Total-bind _ _ (next-Goes name vendor) λ r g.
        Total-if (r.status == not_found) _ _ (λ _. Total-pure (ok us) t)
          λ _.
            Total-if (r.status == buffer_too_small) _ _
              (λ e.
                populate_loop-IsTable fuel r.name r.vendor us (omega (arith, small-Goes r g e)) t)
              λ _.
                Total-if (efi_error r.status) _ _
                  (λ t. Total-bind _ _ (fwup_log-Safe F _ _ _ _) λ _ _. Total-pure (err r.status) t)
                  λ f. Total-bind _ _ (visit-IsTable F lawful r.name r.vendor us t) λ v k.
                    Total-on_result v _ _ (λ rc e. Total-pure (err rc) (subst IsTableResult e k))
                      (λ vs e.
                        populate_loop-IsTable fuel r.name r.vendor vs
                          (omega (arith, success-Goes r g f)) (subst IsTableResult e k))

  -- Over lawful services whose enumeration of names ends, and with more rounds than the rank of the
  -- empty name, `fwup_populate_update_table` returns without a fault. Without a table its status is an
  -- error; where it succeeds, the table has at most 128 entries, and each has a name and a whole variable in memory, which a device path
  -- fills from its offset on and whose status says that the update was attempted.
  pub populate_update_table-IsTable :
      (fuel : ℕ)
      → rank [] empty_guid < fuel
      → Total Any (populate_update_table F fuel) IsTableResult
  unfolding populate_update_table
  populate_update_table-IsTable fuel h = Total-bind _ _ (malloc0-Safe F _) λ p _.
      Total-on_option p _ _ (λ _. Total-pure (err out_of_resources) out_of_resources-efi_error)
        λ b _.
          Total-bind _ _
            (populate_loop-IsTable fuel [] empty_guid [] h
              (record { room = omega arith; entries = tt }))
            λ r k. Total-bind _ _ (free_pool-Safe F _) λ _ _. Total-pure r k
