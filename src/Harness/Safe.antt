-- ===== src/Harness/Safe.antt =====
-- The fuzz targets return for every input, without a fault and without a call of a service that they
-- left NULL.
use fwupd_efi.Base.{
  ℕ, ◌^◌, ◌≤◌, ◌<◌, ◌≡◌, refl, arith, Bool, true, false, List, Option, none, some, length, ltb,
  if◌then◌else◌,
}
use fwupd_efi.Memory.{Buffer}
use fwupd_efi.Efi.{efi_error, capsule_sizeof, not_found, graphics_output_protocol}
use fwupd_efi.Firmware.Services.{Services}
use fwupd_efi.Firmware.Monad.{M, World, call, on_option, pure, ◌>>=◌}
use fwupd_efi.Firmware.Calls.{locate_handle, free_pool}
use fwupd_efi.Firmware.Keeps.{Keeps, keeps_rules}
use fwupd_efi.Firmware.Total.{Total, Any, Total-post, safe_rules}
use fwupd_efi.Firmware.Reaches.{
  Reaches, Reaches-Keeps, Reaches-bind, Reaches-if, Reaches-pure, Reaches-bounds, Reaches-given,
  Reaches-from, Reaches-then,
}
use fwupd_efi.Firmware.Lawful.{Lawful}
use fwupd_efi.Debug.States.{Spares, spares_logging, str_duplicate-Keeps}
use fwupd_efi.Debug.Keeps.{LogKeeps}
use fwupd_efi.Variable.Total.{HasSize, allocate_pool-HasSize}
use fwupd_efi.Debug.Total.{free_pool-Safe}
use fwupd_efi.Update.Table.{free_info-Safe, free_name-Safe}
use fwupd_efi.Update.{Update, free_info, free_name}
use fwupd_efi.Update.Keeps.{populate_update_info-Keeps, free_info-Keeps, free_name-Keeps}
use fwupd_efi.Update.Accepted.{populate_update_info-IfAccepted}
use fwupd_efi.Variable.Reads.{not_found-efi_error, too_small-efi_error}
use fwupd_efi.Capsule.Gop.{check_gop_for_ux_capsule-none_found}
use fwupd_efi.Harness.{Libc, HarnessState}
use fwupd_efi.Harness.FuzzCapsule
use fwupd_efi.Harness.FuzzUpdateInfo

-- `malloc` gives as many bytes as were asked for, and less than half of the address space.
abbrev pub IsMalloc : Libc → Type 0
IsMalloc L =
    (s : L.State) (size : ℕ) (b : Buffer)
    → (L.malloc s size).0 ≡ some b
    → (b.size ≡ size) × (size < 2 ^ 63)

-- No service was called whose pointer is NULL.
abbrev pub NoNullCall : (L : Libc) → World (HarnessState L) → Type 0
NoNullCall L w = w.fw.0 ≡ false

contrary : {c : Bool} → c ≡ true → c ≡ false → ⊥
contrary t f = cc

module _ (L : Libc) where
  capsule_spared : Spares (FuzzCapsule.fuzz_services L) (λ s. s.0 ≡ false)
  capsule_spared = record {
    getting = λ s name guid size room h. h;
    allocating = λ s size h. h;
    freeing = λ s addr h. h;
    formatting = λ s fmt args h. h;
    joining = λ s fmt func tmp h. h;
    printing = λ s units h. h;
  }

  capsule_logging : LogKeeps (FuzzCapsule.fuzz_services L) (NoNullCall L)
  capsule_logging =
      spares_logging (FuzzCapsule.fuzz_services L) (λ s d. s.0 ≡ false) (λ d. capsule_spared)
        λ d s attrs bytes h. h

  capsule_locating :
      Keeps (NoNullCall L) (locate_handle (FuzzCapsule.fuzz_services L) graphics_output_protocol)
  unfolding locate_handle call
  capsule_locating = record { at = λ w h. h }

  none_located : (s : HarnessState L) → efi_error not_found ≡ true
  unfolding efi_error
  none_located s = refl

  capsule-Lawful : IsMalloc L → Lawful (FuzzCapsule.fuzz_services L)
  capsule-Lawful malloc = record {
    stored_fits = λ s name guid size f. absurd (contrary not_found-efi_error f);
    none_stored = λ s name guid size f. absurd (contrary not_found-efi_error f);
    pool_size = λ s size b e. malloc s.1 size b e;
  }

  abbrev Done : ℕ → World (HarnessState L) → Type 0
  Done rc w = (rc ≡ 0) × NoNullCall L w

  return_0 : Reaches (NoNullCall L) (pure 0) Done
  return_0 = Reaches-pure _ λ w h. (refl, h)

  free-then :
      (addr : ℕ) (m : M (World (HarnessState L)) ℕ)
      → Reaches (NoNullCall L) m Done
      → Reaches (NoNullCall L) (free_pool (FuzzCapsule.fuzz_services L) addr >>= λ _. m) Done
  free-then addr m k =
      Reaches-then _ _ (free_pool-Safe (FuzzCapsule.fuzz_services L) addr)
        (capsule_logging.reading.freeing addr) λ _. k

  -- With the buffer that `malloc` gave, or without one.
  with_buffer :
      (size : ℕ) (f : Buffer → M (World (HarnessState L)) ℕ) (o : Option Buffer)
      → HasSize size o
      → ((b : Buffer) → b.size ≡ size → Reaches (NoNullCall L) (f b) Done)
      → Reaches (NoNullCall L) (on_option o (pure 0) f) Done
  with_buffer size f none h k = return_0
  with_buffer size f (some b) h k = k b h.0

  -- For every input of bytes and every C library whose `malloc` gives what was asked for, the fuzz
  -- target for capsules returns 0, without a fault and without a call of a service that it left NULL.
  pub fuzz_capsule-Safe :
      IsMalloc L
      → (input : List ℕ)
      → Reaches
          (NoNullCall L)
          (FuzzCapsule.fuzz_one_input L input)
          (λ rc w. (rc ≡ 0) × NoNullCall L w)
  unfolding FuzzCapsule.fuzz_one_input
  fuzz_capsule-Safe malloc input =
      Reaches-if (ltb (length input) capsule_sizeof) _ _ (λ _. return_0)
        λ f.
          Reaches-bind _ _
            (Reaches-Keeps _
              (allocate_pool-HasSize (FuzzCapsule.fuzz_services L) (capsule-Lawful malloc)
                (length input))
              (capsule_logging.reading.allocating (length input)))
            λ o.
              Reaches-given _ (λ w h. h)
                λ h. with_buffer (length input) _ o h λ b e.
                  Reaches-bind _ _ (Reaches-bounds b 0 (length input) (omega (arith, e))) λ _.
                    Reaches-bind _ _
                      (check_gop_for_ux_capsule-none_found (FuzzCapsule.fuzz_services L) 0
                        none_located capsule_logging capsule_locating _ _ (large b e f))
                      λ r. Reaches-from _ (λ w k. k.1) (free-then b.addr _ return_0)
    where
      large :
          (b : Buffer)
          → b.size ≡ length input
          → ltb (length input) capsule_sizeof ≡ false
          → capsule_sizeof ≤ b.size
      large b e f = ground arith

module _ (L : Libc) (malloc : IsMalloc L) (input : List ℕ) where
  abbrev F : Services
  F = FuzzUpdateInfo.fuzz_services L input

  info_spared : Spares F (λ s. s.0 ≡ false)
  info_spared = record {
    getting = λ s name guid size room h. h;
    allocating = λ s size h. h;
    freeing = λ s addr h. h;
    formatting = λ s fmt args h. h;
    joining = λ s fmt func tmp h. h;
    printing = λ s units h. h;
  }

  info_logging : LogKeeps F (NoNullCall L)
  info_logging = spares_logging F (λ s d. s.0 ≡ false) (λ d. info_spared) λ d s attrs bytes h. h

  fits :
      (s : HarnessState L) (size : ℕ)
      → efi_error (FuzzUpdateInfo.fuzz_get_variable L input s size true).0.status ≡ false
      → (FuzzUpdateInfo.fuzz_get_variable L input s size true).0.size ≤ size
  unfolding efi_error
  fits s size f = ground arith

  info-Lawful : Lawful F
  info-Lawful = record {
    stored_fits = λ s name guid size. fits s size;
    none_stored = λ s name guid size f. absurd (contrary too_small-efi_error f);
    pool_size = λ s size b e. malloc s.1 size b e;
  }

  free_entry-Safe :
      (u : Update) (rc : ℕ)
      → Total Any
          (if efi_error rc then pure tt else (free_info F u.info >>= λ _. free_name F u.name))
          Any
  free_entry-Safe u rc = search (safe_rules, free_info-Safe F, free_name-Safe F)

  free_entry-Keeps :
      (u : Update) (rc : ℕ)
      → Keeps
          (NoNullCall L)
          (if efi_error rc then pure tt else (free_info F u.info >>= λ _. free_name F u.name))
  free_entry-Keeps u rc =
      search (keeps_rules, free_info-Keeps F info_logging, free_name-Keeps F info_logging)

  -- For every input of bytes and every C library whose `malloc` gives what was asked for, the fuzz
  -- target for update variables returns 0, without a fault and without a call of a service that it
  -- left NULL.
  pub fuzz_update_info-Safe :
      Reaches
        (NoNullCall L)
        (FuzzUpdateInfo.fuzz_one_input L input)
        (λ rc w. (rc ≡ 0) × NoNullCall L w)
  unfolding FuzzUpdateInfo.fuzz_one_input
  fuzz_update_info-Safe =
      Reaches-then _ _ (Total-post _ (populate_update_info-IfAccepted F info-Lawful _ _) λ _ _. tt)
        (populate_update_info-Keeps F info_logging
          (str_duplicate-Keeps F (λ s d. s.0 ≡ false) (λ d s name h. h)) _ _)
        λ p.
          Reaches-then _ _ (free_entry-Safe p.0 p.1) (free_entry-Keeps p.0 p.1)
            λ _. Reaches-pure _ λ w h. (refl, h)
