-- ===== src/Entry/Overflow.antt =====
-- The second `GetVariable` of `fwup_debug_hook` may write past `data`.
use fwupd_efi.Base.{
  ℕ, ◌+◌, ◌≤◌, ◌<◌, ◌≡◌, ◌∙◌, ap, refl, arith, Bool, true, false, Option, some, length, codes, ◌||◌,
  not, ◌==◌, if◌then◌else◌,
}
use fwupd_efi.Memory.{Buffer, get64}
use fwupd_efi.Efi.{Name, Guid, efi_error, success-efi_error, fwupdate_guid, shim_lock_guid}
use fwupd_efi.Firmware.Services.{Services}
use fwupd_efi.Firmware.Monad.{
  M, Fault, value, fault, out_of_bounds, World, ◌>>=◌, call, bounds, pure,
}
use fwupd_efi.Firmware.Calls.{get_variable_call}
use fwupd_efi.Firmware.Store.{Stored, IsStore}
use fwupd_efi.Variable.Reads.{too_small-efi_error}
use fwupd_efi.Entry.Defs.{get_data, debug_hook}

-- A step that faults in a world.
record Faults {W A : Type 0} (w : W) (m : M W A) (e : Fault) : Type 0 where
  at : m w ≡ fault e

module _ {W A : Type 0} {w : W} {x : Fault} where
  Faults-first : {B : Type 0} (m : M W A) (f : A → M W B) → Faults w m x → Faults w (m >>= f) x
  unfolding ◌>>=◌
  Faults-first m f k = record {
    at = ap (λ c. elim c [ value (a, w') ↦ f a w' | fault e ↦ fault e ]) k.at;
  }

  Faults-then :
      {B : Type 0} (m : M W A) (f : A → M W B) (a : A) (w' : W)
      → m w ≡ value (a, w')
      → Faults w' (f a) x
      → Faults w (m >>= f) x
  unfolding ◌>>=◌
  Faults-then m f a w' e k = record {
    at = ap (λ c. elim c [ value (a, w') ↦ f a w' | fault e ↦ fault e ]) e ∙ k.at;
  }

  Faults-if_true :
      (c : Bool) (m n : M W A) → c ≡ true → Faults w m x → Faults w (if c then m else n) x
  Faults-if_true true m n e k = k
  Faults-if_true false m n e k = cc

  Faults-if_false :
      (c : Bool) (m n : M W A) → c ≡ false → Faults w n x → Faults w (if c then m else n) x
  Faults-if_false true m n e k = cc
  Faults-if_false false m n e k = k

Faults-bounds :
    {W : Type 0} {w : W} (b : Buffer) (off n : ℕ)
    → b.size < off + n
    → Faults w (bounds b off n) out_of_bounds
unfolding bounds
Faults-bounds b off n h = record { at = ground arith }

module _ (F : Services) (fixed : Bool) where
  get_data-failed :
      (w : World F.State) (name : Name) (vendor : Guid) (size : ℕ) (data' : ℕ → ℕ)
      → efi_error (F.get_variable w.fw name vendor size true).0.status ≡ true
      → get_data F fixed name vendor size data' w
        ≡ value (
          (
            (F.get_variable w.fw name vendor size true).0.status,
            (F.get_variable w.fw name vendor size true).0.size,
            data',
          ),
          record w { fw = (F.get_variable w.fw name vendor size true).1 },
        )
  unfolding get_data get_variable_call ◌>>=◌ call pure
  get_data-failed w name vendor size data' e = ground arith

  get_data-overflow :
      (w : World F.State) (name : Name) (vendor : Guid) (size : ℕ) (data' : ℕ → ℕ)
      → efi_error (F.get_variable w.fw name vendor size true).0.status ≡ false
      → 8 < (F.get_variable w.fw name vendor size true).0.size
      → Faults w (get_data F fixed name vendor size data') out_of_bounds
  unfolding get_data get_variable_call call
  get_data-overflow w name vendor size data' e h =
      Faults-then _ _ (F.get_variable w.fw name vendor size true).0 _ refl
        (Faults-if_false _ _ _ e (Faults-first _ _ (Faults-bounds _ 0 _ (omega (arith, h)))))

  -- Over a store where SHIM_DEBUG holds more than one byte, and FWUPDATE_VERBOSE more than eight but no
  -- more than SHIM_DEBUG, `fwup_debug_hook` writes past the eight bytes of `data`.
  pub debug_hook-out_of_bounds :
      (shown : F.State → Name → Guid → Option Stored)
      → IsStore F shown
      → (w : World F.State) (v u : Stored) → shown w.fw (codes "SHIM_DEBUG") shim_lock_guid ≡ some v
      → shown w.fw (codes "FWUPDATE_VERBOSE") fwupdate_guid ≡ some u
      → 1 < length v.bytes
      → 8 < length u.bytes
      → length u.bytes ≤ length v.bytes
      → debug_hook F fixed w ≡ fault out_of_bounds
  unfolding debug_hook
  debug_hook-out_of_bounds shown store w v u s t h k l =
      let small = store.too_small w.fw _ _ 1 true v s h in
      let later = (F.get_variable w.fw (codes "SHIM_DEBUG") shim_lock_guid 1 true).1 in
      let size = (F.get_variable w.fw (codes "SHIM_DEBUG") shim_lock_guid 1 true).0.size in
      let given =
        store.fits later (codes "FWUPDATE_VERBOSE") fwupdate_guid size u
          (store.get_apart w.fw _ _ _ _ _ _ ∙ t) (omega (arith, small.size, l)) in
      let e : efi_error (F.get_variable w.fw (codes "SHIM_DEBUG") shim_lock_guid 1 true).0.status
          ≡ true =
        ap efi_error small.status ∙ too_small-efi_error in
      let second : efi_error
            (F.get_variable later (codes "FWUPDATE_VERBOSE") fwupdate_guid size true).0.status
          ≡ false =
        ap efi_error given.status ∙ success-efi_error in
      let or_true : (efi_error
              (F.get_variable w.fw (codes "SHIM_DEBUG") shim_lock_guid 1 true).0.status
            || not (get64 (λ _. 0) 0 == 1))
          ≡ true =
        ground (arith, e) in
      (Faults-then _ _ _ _ (get_data-failed w (codes "SHIM_DEBUG") shim_lock_guid 1 (λ _. 0) e) (
        Faults-if_true _ _ _ or_true (
          Faults-first _ _ (
            get_data-overflow (record w { fw = later }) (codes "FWUPDATE_VERBOSE") fwupdate_guid
              size (λ _. 0) second (omega (arith, given.size, k)))))).at
