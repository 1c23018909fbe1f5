-- ===== src/Debug/States.antt =====
-- What is said of the services' state alone, and the calls of logging and of memory leave alone, is
-- kept by the functions that read variables and log.
use fwupd_efi.Base.{ℕ, Bool, List, Option, none, some, String}
use fwupd_efi.Efi.{Name, Guid, fwupdate_guid}
use fwupd_efi.Firmware.Services.{Services, Arg}
use fwupd_efi.Firmware.Monad.{World, Event, call, emit, modify}
use fwupd_efi.Firmware.Calls.{
  allocated, get_variable_call, set_variable_call, allocate_pool, free_pool, str_duplicate,
  vpool_print, pool_print, print,
}
use fwupd_efi.Firmware.Keeps.{Keeps, keeps_rules, Keeps-bind}
use fwupd_efi.Variable.Keeps.{ReadKeeps, WriteKeeps}
use fwupd_efi.Debug.{log_name, clear_once}
use fwupd_efi.Debug.Keeps.{LogKeeps, log_keeps}

pub record Spares (F : Services) (p : F.State → Type 0) : Type 0 where
  pub getting :
      (s : F.State) (name : Name) (guid : Guid) (size : ℕ) (room : Bool)
      → p s
      → p (F.get_variable s name guid size room).1
  pub allocating : (s : F.State) (size : ℕ) → p s → p (F.allocate_pool s size).1
  pub freeing : (s : F.State) (addr : ℕ) → p s → p (F.free_pool s addr)
  pub formatting :
      (s : F.State) (fmt : String) (args : List Arg) → p s → p (F.vpool_print s fmt args).1
  pub joining :
      (s : F.State) (fmt func : String) (tmp : Name) → p s → p (F.pool_print s fmt func tmp).1
  pub printing : (s : F.State) (units : Name) → p s → p (F.print s units)

abbrev pub SetSpares : (F : Services) → (F.State → Type 0) → Name → Guid → Type 0
SetSpares F p name guid =
    (s : F.State) (attrs : ℕ) (bytes : List ℕ) → p s → p (F.set_variable s name guid attrs bytes).1

-- `p` speaks of whether debugging is on too.
module _ (F : Services) (p : F.State → Bool → Type 0) where
  abbrev Here : World F.State → Type 0
  Here w = p w.fw w.debugging

  state_call-Keeps :
      {A : Type 0} (f : F.State → A × F.State)
      → ((s : F.State) (d : Bool) → p s d → p (f s).1 d)
      → Keeps Here (call f)
  unfolding call
  state_call-Keeps f k = record { at = λ w h. k w.fw w.debugging h }

  state_emit-Keeps : (e : Event) → Keeps Here (emit e)
  unfolding emit
  state_emit-Keeps e = record { at = λ w h. h }

  allocated-Keeps : {A : Type 0} (addr : A → ℕ) (r : Option A) → Keeps Here (allocated F addr r)
  unfolding allocated
  allocated-Keeps addr none = search keeps_rules
  allocated-Keeps addr (some a) = Keeps-bind _ _ (state_emit-Keeps _) λ _. search keeps_rules

  pub str_duplicate-Keeps :
      ((d : Bool) (s : F.State) (name : Name) → p s d → p (F.str_duplicate s name).1 d)
      → (name : Name) → Keeps Here (str_duplicate F name)
  unfolding str_duplicate
  str_duplicate-Keeps k name =
      Keeps-bind _ _ (state_call-Keeps _ λ s d. k d s name) λ r. allocated-Keeps _ r

  set_variable_call-Keeps :
      (name : Name) (guid : Guid)
      → ((d : Bool) → SetSpares F (λ s. p s d) name guid)
      → WriteKeeps F Here name guid
  unfolding set_variable_call
  set_variable_call-Keeps name guid k attrs bytes =
      Keeps-bind _ _ (state_call-Keeps _ λ s d. k d s attrs bytes)
        λ rc. Keeps-bind _ _ (state_emit-Keeps _) λ _. search keeps_rules

  clear_once-Keeps : Keeps Here (clear_once F)
  unfolding clear_once modify
  clear_once-Keeps = record { at = λ w h. h }

  module _ (c : (d : Bool) → Spares F (λ s. p s d)) where
    get_variable_call-Keeps :
        (name : Name) (guid : Guid) (size : ℕ) (room : Bool)
        → Keeps Here (get_variable_call F name guid size room)
    unfolding get_variable_call
    get_variable_call-Keeps name guid size room =
        state_call-Keeps _ λ s d. (c d).getting s name guid size room

    allocate_pool-Keeps : (size : ℕ) → Keeps Here (allocate_pool F size)
    unfolding allocate_pool
    allocate_pool-Keeps size =
        Keeps-bind _ _ (state_call-Keeps _ λ s d. (c d).allocating s size) λ r. allocated-Keeps _ r

    free_pool-Keeps : (addr : ℕ) → Keeps Here (free_pool F addr)
    unfolding free_pool
    free_pool-Keeps addr =
        Keeps-bind _ _ (state_call-Keeps _ λ s d. (c d).freeing s addr) λ _. state_emit-Keeps _

    pub vpool_print-Keeps : (fmt : String) (args : List Arg) → Keeps Here (vpool_print F fmt args)
    unfolding vpool_print
    vpool_print-Keeps fmt args =
        Keeps-bind _ _ (state_call-Keeps _ λ s d. (c d).formatting s fmt args)
          λ r. allocated-Keeps _ r

    pool_print-Keeps : (fmt func : String) (tmp : Name) → Keeps Here (pool_print F fmt func tmp)
    unfolding pool_print
    pool_print-Keeps fmt func tmp =
        Keeps-bind _ _ (state_call-Keeps _ λ s d. (c d).joining s fmt func tmp)
          λ r. allocated-Keeps _ r

    pub print-Keeps : (units : Name) → Keeps Here (print F units)
    unfolding print
    print-Keeps units =
        Keeps-bind _ _ (state_call-Keeps _ λ s d. (c d).printing s units) λ _. state_emit-Keeps _

    pub spares_reading : ReadKeeps F Here
    spares_reading = record {
      getting = get_variable_call-Keeps;
      allocating = allocate_pool-Keeps;
      freeing = free_pool-Keeps;
    }

    pub spares_logging :
        ((d : Bool) → SetSpares F (λ s. p s d) log_name fwupdate_guid) → LogKeeps F Here
    spares_logging k = log_keeps F (record {
      reading = spares_reading;
      writing = set_variable_call-Keeps log_name fwupdate_guid k;
      formatting = vpool_print-Keeps;
      joining = pool_print-Keeps;
      printing = print-Keeps;
      clearing = clear_once-Keeps;
    })
