-- ===== src/Tests.antt =====
-- Runs of whole functions over the test services.
use fwupd_efi.Base.{ℕ, suc, ◌≡◌, refl, false, List, [], ◌∷◌, same}
use fwupd_efi.Efi.{
  efi_error, dp_type, dp_subtype, dp_node_length, dp_is_end, dp_is_file, set_dp_end,
}
use fwupd_efi.Variable.{
  set_variable, malloc_with, delete_after, delete_variable_with, cleanup_free, get_into,
  get_after_malloc, get_after, get_variable_with,
}
use fwupd_efi.Debug.{
  debug_get_enabled, debug_set_enabled, get_once, clear_once, efivar_append, log_debugging,
  log_screen, log_text, log_body, log_fuel, fwup_log, delete_variable, get_variable, malloc,
}
use fwupd_efi.Common.{
  page_count, msleep, malloc0, raw_after, malloc_raw, free_raw, time, read_block, read_blocks,
  move_blocks, read_loop, read_file,
}
use fwupd_efi.Capsule.{
  checksum_loop, update_ux_checksum, validate_capsule_size, bad_header_size, cbd_set_terminator,
  gop_loop, get_gop_mode, ux_mode_set, check_gop_for_ux_capsule,
}
use fwupd_efi.Update.{
  too_small, no_room, bad_path, warn as warn_update, fill_update, reject, check_info,
  populate_update_info, free_name, free_info, update_table_free, keep_attempt, take_update, visit,
  populate_loop, populate_update_table,
}
use fwupd_efi.OpenFile.{
  find_file_node, skip_nodes, filename_size, bad_filename_size, match_path, matched, search_devices,
  search_from, search_copy, free_devices, search_file, locate, open_on, copy_filename, open_node,
  open_file,
}
use fwupd_efi.Apply.{
  set_flags, warn as warn_apply, complete_ux, make_capsule, add_update_capsule, apply_capsules,
  set_update_statuses,
}
use fwupd_efi.Entry.{
  say, warn as warn_entry, get_data, debug_hook, build_capsules, apply_and_reset, finish,
  build_and_finish, process, with_table, efi_main,
}
use fwupd_efi.DevicePath.{dp_size}
use fwupd_efi.Firmware.Calls.{
  get_variable_call, set_variable_call, get_next_variable_name, get_time,
  query_capsule_capabilities, update_capsule, reset_system, stall, allocate_pages, free_pages,
  locate_device_path, locate_handle_buffer, handle_protocol, open_protocol, open_volume,
  open_file_call, read_call, close_file, device_path_of, gop_mode, allocated, allocate_pool,
  allocate_zero_pool, free_pool, str_duplicate, duplicate_device_path, device_path_to_str,
  match_device_paths, locate_handle, vpool_print, pool_print, print,
}
use fwupd_efi.Firmware.Monad.{pure, fail, lift, call, emit, bounds, deref, gets, modify, ◌>>=◌}
use fwupd_efi.Efi.{success}
use fwupd_efi.Firmware.Monad.{M, World, Checked, value, fault, Fault, Event}
use fwupd_efi.Firmware.Keeps.{commits}
use fwupd_efi.Mock.{services, start}

-- A run, with every definition of the program open.
unfoldable pub run : {A : Type 0} → M (World ℕ) A → World ℕ → Checked (A × World ℕ)
unfolding efi_error dp_type dp_subtype dp_node_length dp_is_end dp_is_file set_dp_end set_variable
    malloc_with delete_after delete_variable_with cleanup_free get_into get_after_malloc get_after
    get_variable_with debug_get_enabled debug_set_enabled get_once clear_once efivar_append
    log_debugging log_screen log_text log_body log_fuel fwup_log delete_variable get_variable malloc
    page_count msleep malloc0 raw_after malloc_raw free_raw time read_block read_blocks move_blocks
    read_loop read_file checksum_loop update_ux_checksum validate_capsule_size bad_header_size
    cbd_set_terminator gop_loop get_gop_mode ux_mode_set check_gop_for_ux_capsule too_small no_room
    bad_path warn_update fill_update reject check_info populate_update_info free_name free_info
    update_table_free keep_attempt take_update visit populate_loop populate_update_table
    find_file_node skip_nodes filename_size bad_filename_size match_path matched search_devices
    search_from search_copy free_devices search_file locate open_on copy_filename open_node
    open_file set_flags warn_apply complete_ux make_capsule add_update_capsule apply_capsules
    set_update_statuses say warn_entry get_data debug_hook build_capsules apply_and_reset finish
    build_and_finish process with_table efi_main dp_size get_variable_call set_variable_call
    get_next_variable_name get_time query_capsule_capabilities update_capsule reset_system stall
    allocate_pages free_pages locate_device_path locate_handle_buffer handle_protocol open_protocol
    open_volume open_file_call read_call close_file device_path_of gop_mode allocated allocate_pool
    allocate_zero_pool free_pool str_duplicate duplicate_device_path device_path_to_str
    match_device_paths locate_handle vpool_print pool_print print pure fail lift call emit bounds
    deref gets modify ◌>>=◌ same
run m w = m w

-- What a run returns, and the commits that it made.
data Seen : Type 0 where
  returned : ℕ → ℕ → Seen
  faulted : Fault → Seen

count : List Event → ℕ
count [] = 0
count (e ∷ es) = suc (count es)

seen : Checked (ℕ × World ℕ) → Seen
seen (value (rc, w)) = returned rc (count (commits w.trace))
seen (fault e) = faulted e

efi_main_runs : seen (run (efi_main services false 2 0) start) ≡ returned success 2
unfolding run seen count
efi_main_runs = refl
