-- ===== src/Firmware/Store.antt =====
-- A specification of the firmware's variables: a map from names to stored values, which `GetVariable`
-- reads, `SetVariable` writes, and the pool and the console leave alone.
use Prim.Native.Nat.{bit_and}
use fwupd_efi.Base.{
  ℕ, ◌≡◌, ◌<◌, ◌≤◌, ◌&&◌, not, Bool, true, false, List, Option, none, some, String,
}
use fwupd_efi.Base.{same, length, ◌==◌}
use fwupd_efi.Memory.{bytes_at, Buffer}
use fwupd_efi.Efi.{Name, Guid, efi_error, success, not_found, buffer_too_small}
use fwupd_efi.Firmware.Services.{Services, Arg, VariableReply}

-- A variable's attributes and its data.
pub record Stored : Type 0 where
  pub attrs : ℕ
  pub bytes : List ℕ

abbrev pub same_variable : Name → Guid → Name → Guid → Bool
same_variable name guid name' guid' = same name name' && same guid guid'

-- The replies of `GetVariable` for a variable that is there.
pub record TooSmall (v : Stored) (r : VariableReply) : Type 0 where
  pub status : r.status ≡ buffer_too_small
  pub size : r.size ≡ length v.bytes

pub record Given (v : Stored) (r : VariableReply) : Type 0 where
  pub status : r.status ≡ success
  pub size : r.size ≡ length v.bytes
  pub attrs : r.attrs ≡ v.attrs
  pub bytes : bytes_at r.bytes 0 r.size ≡ v.bytes

-- The attributes with which `SetVariable` stores the data as they are: some access to the variable is
-- given (`EFI_VARIABLE_BOOTSERVICE_ACCESS` or `EFI_VARIABLE_RUNTIME_ACCESS`), and nothing is appended.
unfoldable pub is_plain : ℕ → Bool
is_plain attrs = not (bit_and attrs 6 == 0) && bit_and attrs 0x40 == 0

-- `shown s name guid` is what the variable holds in the state `s`.
pub record IsStore (F : Services) (shown : F.State → Name → Guid → Option Stored) : Type 0 where
  -- the variable that is read: `GetVariable` tells the size if the data do not fit, and else gives them
  pub missing :
      (s : F.State) (name : Name) (guid : Guid) (size : ℕ) (room : Bool)
      → shown s name guid ≡ none
      → (F.get_variable s name guid size room).0.status ≡ not_found
  pub holds_data :
      (s : F.State) (name : Name) (guid : Guid) (v : Stored)
      → shown s name guid ≡ some v
      → 0 < length v.bytes
  pub too_small :
      (s : F.State) (name : Name) (guid : Guid) (size : ℕ) (room : Bool) (v : Stored)
      → shown s name guid ≡ some v
      → size < length v.bytes
      → TooSmall v (F.get_variable s name guid size room).0
  pub fits :
      (s : F.State) (name : Name) (guid : Guid) (size : ℕ) (v : Stored)
      → shown s name guid ≡ some v
      → length v.bytes ≤ size
      → Given v (F.get_variable s name guid size true).0
  -- the variable that is written
  pub set_stored :
      (s : F.State) (name : Name) (guid : Guid) (attrs : ℕ) (bytes : List ℕ)
      → is_plain attrs ≡ true
      → 0 < length bytes
      → efi_error (F.set_variable s name guid attrs bytes).0 ≡ false
      → shown (F.set_variable s name guid attrs bytes).1 name guid
        ≡ some (record { attrs = attrs; bytes = bytes })
  pub set_failed :
      (s : F.State) (name : Name) (guid : Guid) (attrs : ℕ) (bytes : List ℕ)
      → efi_error (F.set_variable s name guid attrs bytes).0 ≡ true
      → shown (F.set_variable s name guid attrs bytes).1 name guid ≡ shown s name guid
  -- all that stays as it was
  pub set_apart :
      (s : F.State) (name : Name) (guid : Guid) (attrs : ℕ) (bytes : List ℕ) (name' : Name)
      (guid' : Guid)
      → same_variable name guid name' guid' ≡ false
      → shown (F.set_variable s name guid attrs bytes).1 name' guid' ≡ shown s name' guid'
  pub get_apart :
      (s : F.State) (name : Name) (guid : Guid) (size : ℕ) (room : Bool) (name' : Name)
      (guid' : Guid)
      → shown (F.get_variable s name guid size room).1 name' guid' ≡ shown s name' guid'
  pub allocate_apart :
      (s : F.State) (size : ℕ) (name : Name) (guid : Guid)
      → shown (F.allocate_pool s size).1 name guid ≡ shown s name guid
  pub free_apart :
      (s : F.State) (addr : ℕ) (name : Name) (guid : Guid)
      → shown (F.free_pool s addr) name guid ≡ shown s name guid
  pub format_apart :
      (s : F.State) (fmt : String) (args : List Arg) (name : Name) (guid : Guid)
      → shown (F.vpool_print s fmt args).1 name guid ≡ shown s name guid
  pub join_apart :
      (s : F.State) (fmt func : String) (tmp : Name) (name : Name) (guid : Guid)
      → shown (F.pool_print s fmt func tmp).1 name guid ≡ shown s name guid
  pub print_apart :
      (s : F.State) (units : Name) (name : Name) (guid : Guid)
      → shown (F.print s units) name guid ≡ shown s name guid
  -- Memory from the pool has at least the size that was asked for.
  pub pool_room :
      (s : F.State) (size : ℕ) (b : Buffer) → (F.allocate_pool s size).0 ≡ some b → size ≤ b.size
