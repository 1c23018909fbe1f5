-- ===== src/Firmware/Quiet.antt =====
-- Every call but `UpdateCapsule` and `ResetSystem` leaves the commits as they were.
use fwupd_efi.Base.{ℕ, ◌≡◌, refl, Bool, List, ◌∷◌, ◌∙◌, Option, none, some, String}
use fwupd_efi.Memory.{Buffer}
use fwupd_efi.Efi.{Name, Guid}
use fwupd_efi.Firmware.Services.{Services, AllocateType, Capsule, Arg}
use fwupd_efi.Firmware.Monad.{
  Event, emit, variable_set, pages_allocated, pages_freed, pool_allocated, pool_freed, printed,
  stalled, file_opened, file_closed,
}
use fwupd_efi.Firmware.Calls.{
  allocated, get_variable_call, set_variable_call, get_next_variable_name, get_time,
  query_capsule_capabilities, stall, allocate_pages, free_pages, locate_device_path,
  locate_handle_buffer, handle_protocol, open_protocol, open_volume, open_file_call, read_call,
  close_file, device_path_of, gop_mode, allocate_pool, allocate_zero_pool, free_pool, str_duplicate,
  duplicate_device_path, device_path_to_str, match_device_paths, locate_handle, vpool_print,
  pool_print, print,
}
use fwupd_efi.Firmware.Keeps.{Keeps, keeps_rules, Committed, Committed-call, commits}

abbrev IsQuiet : Event → Type 0
IsQuiet e = (t : List Event) → commits (e ∷ t) ≡ commits t

module _ {S : Type 0} {t : List Event} where
  emit-Quiet : (e : Event) → IsQuiet e → Keeps (Committed {S = S} t) (emit e)
  unfolding emit
  emit-Quiet e q = record { at = λ w h. q w.trace ∙ h }

  variable_set-Quiet :
      (a : Name) (b : Guid) (c : ℕ) (d : List ℕ) (e : ℕ)
      → Keeps (Committed {S = S} t) (emit (variable_set a b c d e))
  variable_set-Quiet a b c d e = emit-Quiet _ (λ t. refl)

  pages_allocated-Quiet : (a : ℕ) (b : ℕ) → Keeps (Committed {S = S} t) (emit (pages_allocated a b))
  pages_allocated-Quiet a b = emit-Quiet _ (λ t. refl)

  pages_freed-Quiet : (a : ℕ) (b : ℕ) → Keeps (Committed {S = S} t) (emit (pages_freed a b))
  pages_freed-Quiet a b = emit-Quiet _ (λ t. refl)

  pool_allocated-Quiet : (a : ℕ) → Keeps (Committed {S = S} t) (emit (pool_allocated a))
  pool_allocated-Quiet a = emit-Quiet _ (λ t. refl)

  pool_freed-Quiet : (a : ℕ) → Keeps (Committed {S = S} t) (emit (pool_freed a))
  pool_freed-Quiet a = emit-Quiet _ (λ t. refl)

  printed-Quiet : (a : Name) → Keeps (Committed {S = S} t) (emit (printed a))
  printed-Quiet a = emit-Quiet _ (λ t. refl)

  stalled-Quiet : (a : ℕ) → Keeps (Committed {S = S} t) (emit (stalled a))
  stalled-Quiet a = emit-Quiet _ (λ t. refl)

  file_opened-Quiet : (a : ℕ) → Keeps (Committed {S = S} t) (emit (file_opened a))
  file_opened-Quiet a = emit-Quiet _ (λ t. refl)

  file_closed-Quiet : (a : ℕ) → Keeps (Committed {S = S} t) (emit (file_closed a))
  file_closed-Quiet a = emit-Quiet _ (λ t. refl)

ruleset quiet_steps = (
  keeps_rules, Committed-call, variable_set-Quiet, pages_allocated-Quiet, pages_freed-Quiet,
  pool_allocated-Quiet, pool_freed-Quiet, printed-Quiet, stalled-Quiet, file_opened-Quiet,
  file_closed-Quiet,
)

module _ (F : Services) {t : List Event} where
  allocated-Quiet :
      {A : Type 0} (addr : A → ℕ) (o : Option A) → Keeps (Committed t) (allocated F addr o)
  unfolding allocated
  allocated-Quiet addr none = search quiet_steps
  allocated-Quiet addr (some b) = search quiet_steps

  pub get_variable_call-Quiet :
      (name : Name) (guid : Guid) (size : ℕ) (buf : Bool)
      → Keeps (Committed t) (get_variable_call F name guid size buf)
  unfolding get_variable_call
  get_variable_call-Quiet name guid size buf = search quiet_steps

  pub set_variable_call-Quiet :
      (name : Name) (guid : Guid) (attrs : ℕ) (bytes : List ℕ)
      → Keeps (Committed t) (set_variable_call F name guid attrs bytes)
  unfolding set_variable_call
  set_variable_call-Quiet name guid attrs bytes = search quiet_steps

  pub get_next_variable_name-Quiet :
      (size : ℕ) (name : Name) (guid : Guid)
      → Keeps (Committed t) (get_next_variable_name F size name guid)
  unfolding get_next_variable_name
  get_next_variable_name-Quiet size name guid = search quiet_steps

  pub get_time-Quiet : Keeps (Committed t) (get_time F)
  unfolding get_time
  get_time-Quiet = search quiet_steps

  pub query_capsule_capabilities-Quiet :
      (capsules : List Capsule) (count : ℕ)
      → Keeps (Committed t) (query_capsule_capabilities F capsules count)
  unfolding query_capsule_capabilities
  query_capsule_capabilities-Quiet capsules count = search quiet_steps

  pub stall-Quiet : (n : ℕ) → Keeps (Committed t) (stall F n)
  unfolding stall
  stall-Quiet n = search quiet_steps

  pub allocate_pages-Quiet :
      (type : AllocateType) (pages : ℕ) (addr : ℕ)
      → Keeps (Committed t) (allocate_pages F type pages addr)
  unfolding allocate_pages
  allocate_pages-Quiet type pages addr = search quiet_steps

  pub free_pages-Quiet : (addr : ℕ) (pages : ℕ) → Keeps (Committed t) (free_pages F addr pages)
  unfolding free_pages
  free_pages-Quiet addr pages = search quiet_steps

  pub locate_device_path-Quiet :
      (guid : Guid) (path : Buffer) (off : ℕ)
      → Keeps (Committed t) (locate_device_path F guid path off)
  unfolding locate_device_path
  locate_device_path-Quiet guid path off = search quiet_steps

  pub locate_handle_buffer-Quiet : (guid : Guid) → Keeps (Committed t) (locate_handle_buffer F guid)
  unfolding locate_handle_buffer
  locate_handle_buffer-Quiet guid = search quiet_steps

  pub handle_protocol-Quiet :
      (handle : ℕ) (guid : Guid) → Keeps (Committed t) (handle_protocol F handle guid)
  unfolding handle_protocol
  handle_protocol-Quiet handle guid = search quiet_steps

  pub open_protocol-Quiet :
      (handle : ℕ) (guid : Guid) (agent : ℕ)
      → Keeps (Committed t) (open_protocol F handle guid agent)
  unfolding open_protocol
  open_protocol-Quiet handle guid agent = search quiet_steps

  pub open_volume-Quiet : (drive : ℕ) → Keeps (Committed t) (open_volume F drive)
  unfolding open_volume
  open_volume-Quiet drive = search quiet_steps

  pub open_file_call-Quiet :
      (root : ℕ) (filename : Name) → Keeps (Committed t) (open_file_call F root filename)
  unfolding open_file_call
  open_file_call-Quiet root filename = search quiet_steps

  pub read_call-Quiet : (fh : ℕ) (size : ℕ) → Keeps (Committed t) (read_call F fh size)
  unfolding read_call
  read_call-Quiet fh size = search quiet_steps

  pub close_file-Quiet : (fh : ℕ) → Keeps (Committed t) (close_file F fh)
  unfolding close_file
  close_file-Quiet fh = search quiet_steps

  pub device_path_of-Quiet : (iface : ℕ) → Keeps (Committed t) (device_path_of F iface)
  unfolding device_path_of
  device_path_of-Quiet iface = search quiet_steps

  pub gop_mode-Quiet : (iface : ℕ) → Keeps (Committed t) (gop_mode F iface)
  unfolding gop_mode
  gop_mode-Quiet iface = search quiet_steps

  pub allocate_pool-Quiet : (size : ℕ) → Keeps (Committed t) (allocate_pool F size)
  unfolding allocate_pool
  allocate_pool-Quiet size = search (quiet_steps, allocated-Quiet)

  pub allocate_zero_pool-Quiet : (size : ℕ) → Keeps (Committed t) (allocate_zero_pool F size)
  unfolding allocate_zero_pool
  allocate_zero_pool-Quiet size = search (quiet_steps, allocated-Quiet)

  pub free_pool-Quiet : (addr : ℕ) → Keeps (Committed t) (free_pool F addr)
  unfolding free_pool
  free_pool-Quiet addr = search quiet_steps

  pub str_duplicate-Quiet : (name : Name) → Keeps (Committed t) (str_duplicate F name)
  unfolding str_duplicate
  str_duplicate-Quiet name = search (quiet_steps, allocated-Quiet)

  pub duplicate_device_path-Quiet :
      (path : Buffer) (off : ℕ) → Keeps (Committed t) (duplicate_device_path F path off)
  unfolding duplicate_device_path
  duplicate_device_path-Quiet path off = search (quiet_steps, allocated-Quiet)

  pub device_path_to_str-Quiet :
      (path : Buffer) (off : ℕ) → Keeps (Committed t) (device_path_to_str F path off)
  unfolding device_path_to_str
  device_path_to_str-Quiet path off = search quiet_steps

  pub match_device_paths-Quiet :
      (path : Buffer) (off : ℕ) (other : Buffer)
      → Keeps (Committed t) (match_device_paths F path off other)
  unfolding match_device_paths
  match_device_paths-Quiet path off other = search quiet_steps

  pub locate_handle-Quiet : (guid : Guid) → Keeps (Committed t) (locate_handle F guid)
  unfolding locate_handle
  locate_handle-Quiet guid = search quiet_steps

  pub vpool_print-Quiet :
      (fmt : String) (args : List Arg) → Keeps (Committed t) (vpool_print F fmt args)
  unfolding vpool_print
  vpool_print-Quiet fmt args = search (quiet_steps, allocated-Quiet)

  pub pool_print-Quiet :
      (fmt : String) (func : String) (tmp : Name) → Keeps (Committed t) (pool_print F fmt func tmp)
  unfolding pool_print
  pool_print-Quiet fmt func tmp = search (quiet_steps, allocated-Quiet)

  pub print-Quiet : (units : Name) → Keeps (Committed t) (print F units)
  unfolding print
  print-Quiet units = search quiet_steps

pub ruleset quiet_calls = (
  keeps_rules, get_variable_call-Quiet, set_variable_call-Quiet, get_next_variable_name-Quiet,
  get_time-Quiet, query_capsule_capabilities-Quiet, stall-Quiet, allocate_pages-Quiet,
  free_pages-Quiet, locate_device_path-Quiet, locate_handle_buffer-Quiet, handle_protocol-Quiet,
  open_protocol-Quiet, open_volume-Quiet, open_file_call-Quiet, read_call-Quiet, close_file-Quiet,
  device_path_of-Quiet, gop_mode-Quiet, allocate_pool-Quiet, allocate_zero_pool-Quiet,
  free_pool-Quiet, str_duplicate-Quiet, duplicate_device_path-Quiet, device_path_to_str-Quiet,
  match_device_paths-Quiet, locate_handle-Quiet, vpool_print-Quiet, pool_print-Quiet, print-Quiet,
)
