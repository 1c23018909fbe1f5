-- ===== src/Mock/Store.antt =====
-- Services for tests whose state is a map of variables. A variable without data is not there.
use fwupd_efi.Base.{
  same, Bool-cases, inl, inr, ℕ, ◌<◌, ◌≤◌, ◌≡◌, refl, Bool, true, false, ◌&&◌, Option, none, some,
  List, [], ◌∷◌, length, leb, ltb, arith, if◌then◌else◌, ◌∙◌, ap,
}
use mathlib.Core.Path.{subst, sym}
use fwupd_efi.Memory.{Buffer, byte_of}
use fwupd_efi.Memory.Laws.{bytes_at-byte_of}
use fwupd_efi.Efi.{
  Name, Guid, success, not_found, buffer_too_small, unsupported, efi_error, success-efi_error,
}
use fwupd_efi.Firmware.Services.{Services, VariableReply}
use fwupd_efi.Firmware.Store.{Stored, IsStore, is_plain, same_variable, TooSmall, Given}
use fwupd_efi.Firmware.Beside.{beside}
use fwupd_efi.Variable.Map.{Map, put}
use fwupd_efi.Mock.{services, no_bytes}

abbrev with_data : Option Stored → Option Stored
with_data none = none
with_data (some v) = if ltb 0 (length v.bytes) then some v else none

abbrev pub shown : Map → Map
shown m name guid = with_data (m name guid)

abbrev told : Stored → VariableReply
told v = record {
  status = buffer_too_small;
  attrs = v.attrs;
  size = length v.bytes;
  bytes = no_bytes;
}

abbrev given : Stored → VariableReply
given v = record {
  status = success;
  attrs = v.attrs;
  size = length v.bytes;
  bytes = byte_of v.bytes;
}

abbrev reply : Option Stored → ℕ → Bool → VariableReply
reply none size room = record { status = not_found; attrs = 0; size = 0; bytes = no_bytes }
reply (some v) size room = if room && leb (length v.bytes) size then given v else told v

abbrev write : Map → Name → Guid → ℕ → List ℕ → ℕ × Map
write m name guid attrs bytes =
    if is_plain attrs
    then (success, put m name guid (record { attrs = attrs; bytes = bytes }))
    else (unsupported, m)

abbrev pub storing : Services
storing = record (beside Map services) {
  get_variable = λ p name guid size room. (reply (shown p.0 name guid) size room, p);
  set_variable =
      λ p name guid attrs bytes. let r = write p.0 name guid attrs bytes in (r.0, (r.1, p.1));
}

missing :
    (o : Option Stored) (size : ℕ) (room : Bool) → o ≡ none → (reply o size room).status ≡ not_found
missing none size room e = refl
missing (some v) size room e = ground arith

chosen : (b : Bool) (u v : Stored) → (if b then some u else none) ≡ some v → (b ≡ true) × (u ≡ v)
chosen true u v e = (refl, cc e)
chosen false u v e = ground arith

holds_data : (o : Option Stored) (v : Stored) → with_data o ≡ some v → 0 < length v.bytes
holds_data none v e = ground arith
holds_data (some u) v e =
    let (t, p) = chosen (ltb 0 (length u.bytes)) u v e in
    subst (λ x. 0 < length x.bytes) p (positive t)
  where
    positive : ltb 0 (length u.bytes) ≡ true → 0 < length u.bytes
    positive t = ground arith

reply-told :
    (v : Stored) (size : ℕ) (room : Bool)
    → size < length v.bytes
    → reply (some v) size room ≡ told v
reply-told v size room h = ground arith

reply-given : (v : Stored) (size : ℕ) → length v.bytes ≤ size → reply (some v) size true ≡ given v
reply-given v size h = ground arith

too_small :
    (o : Option Stored) (size : ℕ) (room : Bool) (v : Stored)
    → o ≡ some v
    → size < length v.bytes
    → TooSmall v (reply o size room)
too_small o size room v e h =
    subst (TooSmall v) (sym (ap (λ o. reply o size room) e ∙ reply-told v size room h))
      (record { status = refl; size = refl })

fits :
    (o : Option Stored) (size : ℕ) (v : Stored)
    → o ≡ some v
    → length v.bytes ≤ size
    → Given v (reply o size true)
fits o size v e h =
    subst (Given v) (sym (ap (λ o. reply o size true) e ∙ reply-given v size h))
      (record { status = refl; size = refl; attrs = refl; bytes = bytes_at-byte_of v.bytes })

write_plain :
    (m : Map) (name : Name) (guid : Guid) (attrs : ℕ) (bytes : List ℕ)
    → is_plain attrs ≡ true
    → write m name guid attrs bytes
      ≡ (success, put m name guid (record { attrs = attrs; bytes = bytes }))
write_plain m name guid attrs bytes p = cc p

write_other :
    (m : Map) (name : Name) (guid : Guid) (attrs : ℕ) (bytes : List ℕ)
    → is_plain attrs ≡ false
    → write m name guid attrs bytes ≡ (unsupported, m)
write_other m name guid attrs bytes p = cc p

same_refl : (xs : List ℕ) → same xs xs ≡ true
unfolding same
same_refl [] = refl
same_refl (x ∷ xs) = ground (arith, same_refl xs)

put_here : (m : Map) (name : Name) (guid : Guid) (v : Stored) → put m name guid v name guid ≡ some v
put_here m name guid v = cc (same_refl name, same_refl guid)

put_apart :
    (m : Map) (name : Name) (guid : Guid) (v : Stored) (name' : Name) (guid' : Guid)
    → same_variable name guid name' guid' ≡ false
    → put m name guid v name' guid' ≡ m name' guid'
put_apart m name guid v name' guid' f = cc f

data_kept : (v : Stored) → 0 < length v.bytes → with_data (some v) ≡ some v
data_kept v n = ground arith

set_stored :
    (m : Map) (name : Name) (guid : Guid) (attrs : ℕ) (bytes : List ℕ)
    → is_plain attrs ≡ true
    → 0 < length bytes
    → shown (write m name guid attrs bytes).1 name guid
      ≡ some (record { attrs = attrs; bytes = bytes })
set_stored m name guid attrs bytes p n =
    ap (λ r. shown r.1 name guid) (write_plain m name guid attrs bytes p)
    ∙ ap with_data (put_here m name guid _)
    ∙ data_kept _ n

set_failed :
    (m : Map) (name : Name) (guid : Guid) (attrs : ℕ) (bytes : List ℕ)
    → efi_error (write m name guid attrs bytes).0 ≡ true
    → shown (write m name guid attrs bytes).1 name guid ≡ shown m name guid
set_failed m name guid attrs bytes t = elim (Bool-cases (is_plain attrs)) [
  | inl p ↦ absurd (no_failure (ap (λ r. r.0) (write_plain m name guid attrs bytes p)))
  | inr q ↦ ap (λ r. shown r.1 name guid) (write_other m name guid attrs bytes q)
]
  where
    no_failure : (write m name guid attrs bytes).0 ≡ success → ⊥
    no_failure e = cc (ap efi_error e, t, success-efi_error)

set_apart :
    (m : Map) (name : Name) (guid : Guid) (attrs : ℕ) (bytes : List ℕ) (name' : Name) (guid' : Guid)
    → same_variable name guid name' guid' ≡ false
    → shown (write m name guid attrs bytes).1 name' guid' ≡ shown m name' guid'
set_apart m name guid attrs bytes name' guid' f = elim (Bool-cases (is_plain attrs)) [
  | inl p ↦
      ap (λ r. shown r.1 name' guid') (write_plain m name guid attrs bytes p)
      ∙ ap with_data (put_apart m name guid _ name' guid' f)
  | inr q ↦ ap (λ r. shown r.1 name' guid') (write_other m name guid attrs bytes q)
]

pool_room : (s size : ℕ) (b : Buffer) → (services.allocate_pool s size).0 ≡ some b → size ≤ b.size
pool_room s size b e = ground arith

pub storing-IsStore : IsStore storing (λ p. shown p.0)
storing-IsStore = record {
  missing = λ p name guid size room. missing (shown p.0 name guid) size room;
  holds_data = λ p name guid. holds_data (p.0 name guid);
  too_small = λ p name guid size room v. too_small (shown p.0 name guid) size room v;
  fits = λ p name guid size v. fits (shown p.0 name guid) size v;
  set_stored = λ p name guid attrs bytes h n f. set_stored p.0 name guid attrs bytes h n;
  set_failed = λ p name guid attrs bytes. set_failed p.0 name guid attrs bytes;
  set_apart = λ p name guid attrs bytes. set_apart p.0 name guid attrs bytes;
  get_apart = λ p name guid size room name' guid'. refl;
  allocate_apart = λ p size name guid. refl;
  free_apart = λ p addr name guid. refl;
  format_apart = λ p fmt args name guid. refl;
  join_apart = λ p fmt func tmp name guid. refl;
  pool_room = λ p size b. pool_room p.1 size b;
  print_apart = λ p units name guid. refl;
}
