-- ===== src/Variable/Keeps.antt =====
-- What the functions of efi/fwup-efi.c keep, if the logger and the calls that they make keep it.
use fwupd_efi.Base.{ℕ, Bool, List, Option, none, some, String}
use fwupd_efi.Memory.{Buffer}
use fwupd_efi.Efi.{Name, Guid}
use fwupd_efi.Firmware.Services.{Services, Arg}
use fwupd_efi.Firmware.Monad.{World}
use fwupd_efi.Firmware.Calls.{get_variable_call, set_variable_call, allocate_pool, free_pool}
use fwupd_efi.Firmware.Keeps.{Keeps, keeps_rules}
use fwupd_efi.Variable.{
  Level, Logger, set_variable, malloc_with, delete_after, delete_variable_with, cleanup_free,
  get_into, get_after_malloc, get_after, get_variable_with,
}

-- The calls on variables and memory keep `P`, whatever their arguments; those that write a variable
-- are left out.
pub record ReadKeeps (F : Services) (P : World F.State → Type 0) : Type 0 where
  pub getting :
      (name : Name) (guid : Guid) (size : ℕ) (buf : Bool)
      → Keeps P (get_variable_call F name guid size buf)
  pub allocating : (size : ℕ) → Keeps P (allocate_pool F size)
  pub freeing : (p : ℕ) → Keeps P (free_pool F p)

-- Writing the one variable keeps `P`.
abbrev pub WriteKeeps : (F : Services) → (World F.State → Type 0) → Name → Guid → Type 0
WriteKeeps F P name guid =
    (attrs : ℕ) (bytes : List ℕ) → Keeps P (set_variable_call F name guid attrs bytes)

abbrev pub LoggerKeeps : (F : Services) → (World F.State → Type 0) → Logger F → Type 0
LoggerKeeps F P log =
    (level : Level) (func fmt : String) (args : List Arg) → Keeps P (log level func fmt args)

module _ (F : Services) {P : World F.State → Type 0} where
  pub set_variable-Keeps :
      (name : Name) (guid : Guid) (bytes : List ℕ) (attrs : ℕ)
      → WriteKeeps F P name guid
      → Keeps P (set_variable F name guid bytes attrs)
  unfolding set_variable
  set_variable-Keeps name guid bytes attrs k = k attrs bytes

module _ (F : Services) {P : World F.State → Type 0} (c : ReadKeeps F P) where
  pub cleanup_free-Keeps : (b : Option Buffer) → Keeps P (cleanup_free F b)
  unfolding cleanup_free
  cleanup_free-Keeps none = search keeps_rules
  cleanup_free-Keeps (some b) = c.freeing b.addr

module _ (F : Services) {P : World F.State → Type 0} (c : ReadKeeps F P) (log : Logger F)
    (q : LoggerKeeps F P log) where
  pub malloc_with-Keeps : (size : ℕ) → Keeps P (malloc_with F log size)
  unfolding malloc_with
  malloc_with-Keeps size = search (keeps_rules, c.allocating)

  delete_after-Keeps :
      (name : Name) (guid : Guid) (rc attrs : ℕ)
      → WriteKeeps F P name guid
      → Keeps P (delete_after F log name guid rc attrs)
  unfolding delete_after
  delete_after-Keeps name guid rc attrs k = search keeps_rules

  pub delete_variable_with-Keeps :
      (name : Name) (guid : Guid)
      → WriteKeeps F P name guid
      → Keeps P (delete_variable_with F log name guid)
  unfolding delete_variable_with
  delete_variable_with-Keeps name guid k = search (keeps_rules, c.getting, delete_after-Keeps)

  get_into-Keeps :
      (name : Name) (guid : Guid) (buf : Option Buffer) (size : ℕ)
      → Keeps P (get_into F log name guid buf size)
  unfolding get_into
  get_into-Keeps name guid buf size = search (keeps_rules, c.getting, cleanup_free-Keeps F c)

  get_after_malloc-Keeps :
      (name : Name) (guid : Guid) (size : ℕ) (buf : Option Buffer)
      → Keeps P (get_after_malloc F log name guid size buf)
  unfolding get_after_malloc
  get_after_malloc-Keeps name guid size none = search keeps_rules
  get_after_malloc-Keeps name guid size (some b) = search get_into-Keeps

  get_after-Keeps :
      (name : Name) (guid : Guid) (rc size : ℕ) → Keeps P (get_after F log name guid rc size)
  unfolding get_after
  get_after-Keeps name guid rc size =
      search (keeps_rules, malloc_with-Keeps, get_into-Keeps, get_after_malloc-Keeps) depth 8

  pub get_variable_with-Keeps :
      (name : Name) (guid : Guid) → Keeps P (get_variable_with F log name guid)
  unfolding get_variable_with
  get_variable_with-Keeps name guid = search (keeps_rules, c.getting, get_after-Keeps)
