-- ===== src/Firmware/Calls.antt =====
-- The calls of the services as steps of the program. Those that others can see are put on the trace.
use fwupd_efi.Base.{ℕ, Bool, List, Option, none, some, String}
use fwupd_efi.Memory.{Buffer}
use fwupd_efi.Efi.{Name, Guid, efi_error}
use fwupd_efi.Base.{if◌then◌else◌}
use fwupd_efi.Firmware.Services.{
  Services, VariableReply, NextReply, TimeReply, PagesReply, FileReply, HandlesReply, HandleReply,
  LocateReply, QueryReply, ResetType, AllocateType, Capsule, Block, Text, Arg,
}
use fwupd_efi.Firmware.Monad.{
  World, M, call, emit, pure, ◌>>=◌, ◌>>◌, variable_set, pages_allocated, pages_freed,
  pool_allocated, pool_freed, printed, stalled, file_opened, file_closed, capsules_updated,
  system_reset,
}

module _ (F : Services) where
  abbrev pub W : Type 0
  W = World F.State

  unfoldable pub get_variable_call : Name → Guid → ℕ → Bool → M W VariableReply
  get_variable_call name guid size data' = call (λ s. F.get_variable s name guid size data')

  unfoldable pub set_variable_call : Name → Guid → ℕ → List ℕ → M W ℕ
  set_variable_call name guid attrs bytes = do
    rc ← call (λ s. F.set_variable s name guid attrs bytes)
    emit (variable_set name guid attrs bytes rc)
    pure rc

  unfoldable pub get_next_variable_name : ℕ → Name → Guid → M W NextReply
  get_next_variable_name size name guid = call (λ s. F.get_next_variable_name s size name guid)

  unfoldable pub get_time : M W TimeReply
  get_time = call F.get_time

  unfoldable pub query_capsule_capabilities : List Capsule → ℕ → M W QueryReply
  query_capsule_capabilities capsules count =
      call (λ s. F.query_capsule_capabilities s capsules count)

  unfoldable pub update_capsule : List Capsule → ℕ → List Block → M W ℕ
  update_capsule capsules count blocks = do
    rc ← call (λ s. F.update_capsule s capsules count blocks)
    emit (capsules_updated capsules count blocks rc)
    pure rc

  unfoldable pub reset_system : ResetType → ℕ → M W (Unit {0})
  reset_system type status = do
    call (λ s. (tt, F.reset_system s type status))
    emit (system_reset type status)

  unfoldable pub stall : ℕ → M W (Unit {0})
  stall n = do call (λ s. (tt, F.stall s n)); emit (stalled n)

  unfoldable pub allocate_pages : AllocateType → ℕ → ℕ → M W PagesReply
  allocate_pages type pages addr = do
    r ← call (λ s. F.allocate_pages s type pages addr)
    if efi_error r.status then pure tt else emit (pages_allocated r.memory pages)
    pure r

  unfoldable pub free_pages : ℕ → ℕ → M W ℕ
  free_pages addr pages = do
    rc ← call (λ s. F.free_pages s addr pages)
    emit (pages_freed addr pages)
    pure rc

  unfoldable pub locate_device_path : Guid → Buffer → ℕ → M W LocateReply
  locate_device_path guid path off = call (λ s. F.locate_device_path s guid path off)

  unfoldable pub locate_handle_buffer : Guid → M W HandlesReply
  locate_handle_buffer guid = call (λ s. F.locate_handle_buffer s guid)

  unfoldable pub handle_protocol : ℕ → Guid → M W HandleReply
  handle_protocol handle guid = call (λ s. F.handle_protocol s handle guid)

  unfoldable pub open_protocol : ℕ → Guid → ℕ → M W HandleReply
  open_protocol handle guid agent = call (λ s. F.open_protocol s handle guid agent)

  unfoldable pub open_volume : ℕ → M W HandleReply
  open_volume drive = call (λ s. F.open_volume s drive)

  unfoldable pub open_file_call : ℕ → Name → M W HandleReply
  open_file_call root filename = do
    r ← call (λ s. F.open_file s root filename)
    if efi_error r.status then pure tt else emit (file_opened r.handle)
    pure r

  unfoldable pub read_call : ℕ → ℕ → M W FileReply
  read_call fh size = call (λ s. F.read s fh size)

  unfoldable pub close_file : ℕ → M W (Unit {0})
  close_file fh = do call (λ s. (tt, F.close s fh)); emit (file_closed fh)

  -- Memory that the firmware shows behind an interface pointer.
  unfoldable pub device_path_of : ℕ → M W Buffer
  device_path_of iface = call (λ s. (F.device_path_of s iface, s))

  unfoldable pub gop_mode : ℕ → M W ℕ
  gop_mode iface = call (λ s. (F.gop_mode s iface, s))

  unfoldable pub allocated : {A : Type 0} → (A → ℕ) → Option A → M W (Option A)
  allocated addr none = pure none
  allocated addr (some b) = do emit (pool_allocated (addr b)); pure (some b)

  unfoldable pub allocate_pool : ℕ → M W (Option Buffer)
  allocate_pool size = do r ← call (λ s. F.allocate_pool s size); allocated (λ b. b.addr) r

  abbrev pub zeroed : ℕ → Option ℕ → Option Buffer
  zeroed size none = none
  zeroed size (some addr) = some (record { addr = addr; size = size; byte = λ _. 0 })

  unfoldable pub allocate_zero_pool : ℕ → M W (Option Buffer)
  allocate_zero_pool size = do
    r ← call (λ s. F.allocate_zero_pool s size)
    allocated (λ b. b.addr) (zeroed size r)

  unfoldable pub free_pool : ℕ → M W (Unit {0})
  free_pool addr = do call (λ s. (tt, F.free_pool s addr)); emit (pool_freed addr)

  unfoldable pub str_duplicate : Name → M W (Option Text)
  str_duplicate name = do r ← call (λ s. F.str_duplicate s name); allocated (λ t. t.addr) r

  unfoldable pub duplicate_device_path : Buffer → ℕ → M W (Option Buffer)
  duplicate_device_path path off = do
    r ← call (λ s. F.duplicate_device_path s path off)
    allocated (λ b. b.addr) r

  unfoldable pub device_path_to_str : Buffer → ℕ → M W Name
  device_path_to_str path off = call (λ s. F.device_path_to_str s path off)

  unfoldable pub match_device_paths : Buffer → ℕ → Buffer → M W Bool
  match_device_paths path off other = call (λ s. F.match_device_paths s path off other)

  unfoldable pub locate_handle : Guid → M W HandlesReply
  locate_handle guid = call (λ s. F.locate_handle s guid)

  unfoldable pub vpool_print : String → List Arg → M W (Option Text)
  vpool_print fmt args = do r ← call (λ s. F.vpool_print s fmt args); allocated (λ t. t.addr) r

  unfoldable pub pool_print : String → String → Name → M W (Option Text)
  pool_print fmt func tmp = do
    r ← call (λ s. F.pool_print s fmt func tmp)
    allocated (λ t. t.addr) r

  unfoldable pub print : Name → M W (Unit {0})
  print units = do call (λ s. (tt, F.print s units)); emit (printed units)
