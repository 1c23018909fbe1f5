-- ===== src/Firmware/Beside.antt =====
-- Services beside which some state of its own is kept: that of static variables, or of a test's store.
use fwupd_efi.Firmware.Services.{Services}

-- A call of the inner services.
abbrev pub inner : {T S A : Type 0} → (S → A × S) → T × S → A × (T × S)
inner f p = ((f p.1).0, (p.0, (f p.1).1))

abbrev pub inner_step : {T S : Type 0} → (S → S) → T × S → T × S
inner_step f p = (p.0, f p.1)

abbrev pub beside : Type 0 → Services → Services
beside T B = record {
  State = T × B.State;
  pointer_size = B.pointer_size;
  get_variable = λ p name guid size room. inner (λ s. B.get_variable s name guid size room) p;
  set_variable = λ p name guid attrs bytes. inner (λ s. B.set_variable s name guid attrs bytes) p;
  get_next_variable_name =
      λ p size name guid. inner (λ s. B.get_next_variable_name s size name guid) p;
  get_time = λ p. inner B.get_time p;
  query_capsule_capabilities =
      λ p capsules count. inner (λ s. B.query_capsule_capabilities s capsules count) p;
  update_capsule =
      λ p capsules count blocks. inner (λ s. B.update_capsule s capsules count blocks) p;
  reset_system = λ p type status. inner_step (λ s. B.reset_system s type status) p;
  stall = λ p n. inner_step (λ s. B.stall s n) p;
  allocate_pages = λ p type pages addr. inner (λ s. B.allocate_pages s type pages addr) p;
  free_pages = λ p addr pages. inner (λ s. B.free_pages s addr pages) p;
  locate_device_path = λ p guid path off. inner (λ s. B.locate_device_path s guid path off) p;
  locate_handle_buffer = λ p guid. inner (λ s. B.locate_handle_buffer s guid) p;
  handle_protocol = λ p handle guid. inner (λ s. B.handle_protocol s handle guid) p;
  open_protocol = λ p handle guid agent. inner (λ s. B.open_protocol s handle guid agent) p;
  open_volume = λ p drive. inner (λ s. B.open_volume s drive) p;
  open_file = λ p root name. inner (λ s. B.open_file s root name) p;
  read = λ p fh size. inner (λ s. B.read s fh size) p;
  close = λ p fh. inner_step (λ s. B.close s fh) p;
  device_path_of = λ p iface. B.device_path_of p.1 iface;
  gop_mode = λ p iface. B.gop_mode p.1 iface;
  allocate_pool = λ p size. inner (λ s. B.allocate_pool s size) p;
  allocate_zero_pool = λ p size. inner (λ s. B.allocate_zero_pool s size) p;
  free_pool = λ p addr. inner_step (λ s. B.free_pool s addr) p;
  str_duplicate = λ p name. inner (λ s. B.str_duplicate s name) p;
  duplicate_device_path = λ p path off. inner (λ s. B.duplicate_device_path s path off) p;
  device_path_to_str = λ p path off. inner (λ s. B.device_path_to_str s path off) p;
  match_device_paths = λ p path off other. inner (λ s. B.match_device_paths s path off other) p;
  locate_handle = λ p guid. inner (λ s. B.locate_handle s guid) p;
  vpool_print = λ p fmt args. inner (λ s. B.vpool_print s fmt args) p;
  pool_print = λ p fmt func tmp. inner (λ s. B.pool_print s fmt func tmp) p;
  print = λ p units. inner_step (λ s. B.print s units) p;
}
