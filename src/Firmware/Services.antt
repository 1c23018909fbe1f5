-- ===== src/Firmware/Services.antt =====
-- The UEFI services and gnu-efi functions that the program calls, over an unknown state. A reply
-- holds what a call returns and what it writes through its pointers.
use fwupd_efi.Base.{ℕ, Bool, List, Option, String}
use fwupd_efi.Base.Int.{ℤ}
use fwupd_efi.Memory.{Buffer}
use fwupd_efi.Efi.{Name, Guid}

-- `bytes` are the first `size` bytes of the caller's buffer afterwards, if the call wrote any.
pub record VariableReply : Type 0 where
  pub status : ℕ
  pub attrs : ℕ
  pub size : ℕ
  pub bytes : ℕ → ℕ

pub record NextReply : Type 0 where
  pub status : ℕ
  pub name : Name
  pub vendor : Guid

pub record TimeReply : Type 0 where
  pub status : ℕ
  pub time : ℕ → ℕ

pub record PagesReply : Type 0 where
  pub status : ℕ
  pub memory : ℕ
  pub byte : ℕ → ℕ

pub record FileReply : Type 0 where
  pub status : ℕ
  pub size : ℕ
  pub bytes : ℕ → ℕ

-- `pool` is the address of the array of handles.
pub record HandlesReply : Type 0 where
  pub status : ℕ
  pub handles : List ℕ
  pub pool : ℕ

-- A status with a handle or an interface pointer.
pub record HandleReply : Type 0 where
  pub status : ℕ
  pub handle : ℕ

-- `offset` is where the pointer to the device path stands afterwards, in the same path.
pub record LocateReply : Type 0 where
  pub status : ℕ
  pub offset : ℕ
  pub device : ℕ

-- `EFI_RESET_TYPE`
pub data ResetType : Type 0 where
  cold warm shutdown : ResetType

-- `reset` is what `*reset_type` holds after the call.
pub record QueryReply : Type 0 where
  pub status : ℕ
  pub max_size : ℕ
  pub reset : ResetType

-- `EFI_ALLOCATE_TYPE`
pub data AllocateType : Type 0 where
  any_pages max_address : AllocateType

-- `EFI_CAPSULE_BLOCK_DESCRIPTOR`; `pointer` is the union of two addresses.
pub record Block : Type 0 where
  pub length : ℕ
  pub pointer : ℕ

-- A capsule in memory; the pointer that the program passes is `image.addr`.
pub record Capsule : Type 0 where
  pub image : Buffer

-- A string in pool memory.
pub record Text : Type 0 where
  pub addr : ℕ
  pub units : Name

-- The arguments of a format string.
pub data Arg : Type 0 where
  num : ℕ → Arg
  int : ℤ → Arg
  str : Name → Arg
  guid : Guid → Arg

pub record Services : Type 1 where
  pub State : Type 0
  -- `sizeof(VOID *)` of the build
  pub pointer_size : ℕ
  -- runtime services; a `Bool` says whether the buffer pointer is not NULL
  pub get_variable : State → Name → Guid → ℕ → Bool → VariableReply × State
  pub set_variable : State → Name → Guid → ℕ → List ℕ → ℕ × State
  pub get_next_variable_name : State → ℕ → Name → Guid → NextReply × State
  pub get_time : State → TimeReply × State
  pub query_capsule_capabilities : State → List Capsule → ℕ → QueryReply × State
  pub update_capsule : State → List Capsule → ℕ → List Block → ℕ × State
  pub reset_system : State → ResetType → ℕ → State
  -- boot services
  pub stall : State → ℕ → State
  pub allocate_pages : State → AllocateType → ℕ → ℕ → PagesReply × State
  pub free_pages : State → ℕ → ℕ → ℕ × State
  pub locate_device_path : State → Guid → Buffer → ℕ → LocateReply × State
  pub locate_handle_buffer : State → Guid → HandlesReply × State
  pub handle_protocol : State → ℕ → Guid → HandleReply × State
  pub open_protocol : State → ℕ → Guid → ℕ → HandleReply × State
  -- file protocol
  pub open_volume : State → ℕ → HandleReply × State
  pub open_file : State → ℕ → Name → HandleReply × State
  pub read : State → ℕ → ℕ → FileReply × State
  pub close : State → ℕ → State
  -- memory behind an interface pointer: the device path of a handle, and `gop->Mode->Mode`
  pub device_path_of : State → ℕ → Buffer
  pub gop_mode : State → ℕ → ℕ
  -- gnu-efi
  pub allocate_pool : State → ℕ → Option Buffer × State
  pub allocate_zero_pool : State → ℕ → Option ℕ × State
  pub free_pool : State → ℕ → State
  pub str_duplicate : State → Name → Option Text × State
  pub duplicate_device_path : State → Buffer → ℕ → Option Buffer × State
  pub device_path_to_str : State → Buffer → ℕ → Name × State
  pub match_device_paths : State → Buffer → ℕ → Buffer → Bool × State
  pub locate_handle : State → Guid → HandlesReply × State
  pub vpool_print : State → String → List Arg → Option Text × State
  pub pool_print : State → String → String → Name → Option Text × State
  pub print : State → Name → State
