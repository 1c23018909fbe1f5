-- ===== src/Harness.antt =====
-- The surroundings of the self tests and the fuzz targets: efi/efi-mock.h, which stands for gnu-efi,
-- over a C library, and the mock services of efi/efi-mock-funcs.h.
pub mod FuzzCapsule
pub mod FuzzUpdateInfo
pub mod Safe
use fwupd_efi.Base.{
  List, ℕ, ◌+◌, ◌*◌, Bool, true, false, [], Option, none, some, String, codes, length, ◌==◌,
}
use fwupd_efi.Base.{if◌then◌else◌}
use fwupd_efi.Memory.{Buffer}
use fwupd_efi.Efi.{Name, Guid, success, out_of_resources, not_found}
use fwupd_efi.Firmware.Beside.{inner, inner_step}
use fwupd_efi.Firmware.Services.{
  Services, TimeReply, PagesReply, HandlesReply, HandleReply, AllocateType, Text, cold, Arg,
  ResetType,
}

-- The C library's memory. `calloc` gives zeros, so that only the address is left open.
pub record Libc : Type 1 where
  pub State : Type 0
  -- `sizeof(wchar_t)`
  pub wchar_size : ℕ
  pub malloc : State → ℕ → Option Buffer × State
  pub calloc : State → ℕ → ℕ → Option ℕ × State
  pub free : State → ℕ → State

-- The state of the services: whether one was called whose pointer `mock_bs` or `mock_rt` leaves NULL,
-- beside the state of the library.
abbrev pub HarnessState : Libc → Type 0
HarnessState L = Bool × L.State

-- A call of a pointer that is NULL. What it would reply does not matter.
abbrev pub unset : {S A : Type 0} → A → Bool × S → A × (Bool × S)
unset a p = (a, (true, p.1))

abbrev pub no_byte : ℕ → ℕ
no_byte j = 0

abbrev pub no_buffer : Buffer
no_buffer = record { addr = 0; size = 0; byte = no_byte }

abbrev pub no_handle : HandleReply
no_handle = record { status = success; handle = 0 }

abbrev pub no_handles : HandlesReply
no_handles = record { status = not_found; handles = []; pool = 0 }

-- `StrDuplicate` after `malloc`
abbrev pub copied : Name → Option Buffer → Option Text
copied name none = none
copied name (some b) = some (record { addr = b.addr; units = name })

-- `mock_allocate_pages` after `calloc`
abbrev paged : ℕ → Option ℕ → PagesReply
paged memory none = record { status = out_of_resources; memory = memory; byte = no_byte }
paged memory (some p) = record { status = success; memory = p; byte = no_byte }

module _ (L : Libc) where
  -- `StrDuplicate` of a string that is not NULL
  abbrev pub str_duplicate : HarnessState L → Name → Option Text × HarnessState L
  str_duplicate p name =
      let r = inner (λ s. L.malloc s ((length name + 1) * L.wchar_size)) p in (copied name r.0, r.1)

  -- `AllocatePool`, `AllocateZeroPool`, `FreePool`
  abbrev pub allocate_pool : HarnessState L → ℕ → Option Buffer × HarnessState L
  allocate_pool p size = inner (λ s. L.malloc s size) p

  abbrev pub allocate_zero_pool : HarnessState L → ℕ → Option ℕ × HarnessState L
  allocate_zero_pool p size = inner (λ s. L.calloc s 1 size) p

  abbrev pub free_pool : HarnessState L → ℕ → HarnessState L
  free_pool p addr = inner_step (λ s. L.free s addr) p

  -- `Print` prints nothing, and the texts that `VPoolPrint` and `PoolPrint` make are always the same.
  abbrev pub print : HarnessState L → Name → HarnessState L
  print p units = p

  abbrev pub vpool_print : HarnessState L → String → List Arg → Option Text × HarnessState L
  vpool_print p fmt args = str_duplicate p (codes "<mock>")

  abbrev pub pool_print : HarnessState L → String → String → Name → Option Text × HarnessState L
  pool_print p fmt func tmp = str_duplicate p (codes "<mock>")

  -- `LibLocateHandle`, `LibMatchDevicePaths`, `DuplicateDevicePath`, `DevicePathToStr`
  abbrev pub lib_locate_handle : HarnessState L → Guid → HandlesReply × HarnessState L
  lib_locate_handle p guid = (no_handles, p)

  abbrev pub lib_match_device_paths : HarnessState L → Buffer → ℕ → Buffer → Bool × HarnessState L
  lib_match_device_paths p path off other = (false, p)

  abbrev pub duplicate_device_path : HarnessState L → Buffer → ℕ → Option Buffer × HarnessState L
  duplicate_device_path p path off = (none, p)

  abbrev pub device_path_to_str : HarnessState L → Buffer → ℕ → Name × HarnessState L
  device_path_to_str p path off = (codes "<mock-dp>", p)

  abbrev pub mock_allocate_pages :
      HarnessState L → AllocateType → ℕ → ℕ → PagesReply × HarnessState L
  mock_allocate_pages p type pages memory =
      let r = inner (λ s. L.calloc s pages 4096) p in (paged memory r.0, r.1)

  abbrev pub mock_free_pages : HarnessState L → ℕ → ℕ → ℕ × HarnessState L
  mock_free_pages p memory pages = (success, inner_step (λ s. L.free s memory) p)

  -- The status that `mock_stall` returns is not used.
  abbrev pub mock_stall : HarnessState L → ℕ → HarnessState L
  mock_stall p microseconds = p

  abbrev pub mock_reset_system : HarnessState L → ResetType → ℕ → HarnessState L
  mock_reset_system p type status = p

  -- `EFI_TIME` of 2024-01-01, all else 0
  abbrev pub mock_get_time : HarnessState L → TimeReply × HarnessState L
  mock_get_time p = (
    record {
      status = success;
      time = λ j.
          if j == 0
          then 232
          else if j == 1
          then 7
          else if j == 2
          then 1
          else if j == 3
          then 1
          else 0;
    },
    p,
  )

  -- gnu-efi's functions as efi/efi-mock.h defines them, and no service.
  abbrev pub unset_services : Services
  unset_services = record {
    State = HarnessState L;
    pointer_size = 8;
    get_variable = λ p name guid size room.
        unset (record { status = success; attrs = 0; size = 0; bytes = no_byte }) p;
    set_variable = λ p name guid attrs bytes. unset success p;
    get_next_variable_name =
        λ p size name guid. unset (record { status = success; name = []; vendor = [] }) p;
    get_time = λ p. unset (record { status = success; time = no_byte }) p;
    query_capsule_capabilities =
        λ p capsules count. unset (record { status = success; max_size = 0; reset = cold }) p;
    update_capsule = λ p capsules count blocks. unset success p;
    reset_system = λ p type status. (unset success p).1;
    stall = λ p n. (unset success p).1;
    allocate_pages =
        λ p type pages addr. unset (record { status = success; memory = 0; byte = no_byte }) p;
    free_pages = λ p addr pages. unset success p;
    locate_device_path =
        λ p guid path off. unset (record { status = success; offset = 0; device = 0 }) p;
    locate_handle_buffer = λ p guid. unset no_handles p;
    handle_protocol = λ p handle guid. unset no_handle p;
    open_protocol = λ p handle guid agent. unset no_handle p;
    open_volume = λ p drive. unset no_handle p;
    open_file = λ p root name. unset no_handle p;
    read = λ p fh size. unset (record { status = success; size = 0; bytes = no_byte }) p;
    close = λ p fh. (unset success p).1;
    device_path_of = λ p iface. no_buffer;
    gop_mode = λ p iface. 0;
    allocate_pool = allocate_pool;
    allocate_zero_pool = allocate_zero_pool;
    free_pool = free_pool;
    str_duplicate = str_duplicate;
    duplicate_device_path = duplicate_device_path;
    device_path_to_str = device_path_to_str;
    match_device_paths = lib_match_device_paths;
    locate_handle = lib_locate_handle;
    vpool_print = vpool_print;
    pool_print = pool_print;
    print = print;
  }

  -- The services that every harness sets: those of efi/efi-mock-funcs.h.
  abbrev pub mock_services : Services
  mock_services = record unset_services {
    get_time = mock_get_time;
    reset_system = mock_reset_system;
    stall = mock_stall;
    allocate_pages = mock_allocate_pages;
    free_pages = mock_free_pages;
  }
