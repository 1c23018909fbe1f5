-- ===== src/OpenFile.antt =====
-- `fwup_search_file` and `fwup_open_file` of efi/fwupdate.c: from a device path to an open file.
pub mod Quiet
pub mod Path
pub mod Walk
pub mod Calls
pub mod Search
pub mod Device
pub mod Finds
pub mod Total
use fwupd_efi.Base.{ℕ, zero, suc, ◌+◌, ◌-◌, ◌*◌, ◌/◌, ◌%◌, ◌^◌, Bool, true, false, ◌||◌, not}
use fwupd_efi.Base.{List, [], ◌∷◌, Option, none, some, String, ◌==◌, ltb, leb, if◌then◌else◌}
use fwupd_efi.Memory.{Buffer, blit, get16}
use fwupd_efi.Efi.{
  Name, Result, ok, err, efi_error, invalid_parameter, unsupported, dp_node_length, dp_is_end,
  dp_is_file, set_dp_end, simple_file_system_protocol, device_path_protocol,
}
use fwupd_efi.Firmware.Services.{Services, Arg, num, str, HandlesReply, HandleReply, LocateReply}
use fwupd_efi.Firmware.Monad.{
  M, Checked, value, fault, out_of_bounds, pure, on_option, on_result, lift, deref, bounds, fail,
  no_fuel, ◌>>=◌, ◌>>◌,
}
use fwupd_efi.Firmware.Calls.{
  W, locate_device_path, locate_handle_buffer, handle_protocol, open_volume, open_file_call,
  free_pool, duplicate_device_path, device_path_to_str, match_device_paths, device_path_of,
}
use fwupd_efi.Variable.{warning, debug, cleanup_free}
use fwupd_efi.Debug.{fwup_log}
use fwupd_efi.Common.{malloc0}

-- What the walk over the copied path finds: the offset of the file node and the nodes before it.
pub data Found : Type 0 where
  file_node : ℕ → ℕ → Found
  path_end : Found

-- The first loop of `fwup_search_file`. A node of length 0 would keep it where it is, for ever.
unfoldable pub find_file_node : ℕ → Buffer → ℕ → ℕ → Checked Found
find_file_node zero b dp count = fault no_fuel
find_file_node (suc fuel) b dp count =
    let rest = find_file_node fuel b (dp + dp_node_length b.byte dp) (count + 1) in
    if leb (dp + 4) b.size
    then (if dp_is_end b.byte dp
        then value path_end
        else if dp_is_file b.byte dp
        then value (file_node dp count)
        else rest)
    else fault out_of_bounds

-- `for (j = 0; j < count; j++) *file_dp = NextDevicePathNode(*file_dp);`
unfoldable pub skip_nodes : ℕ → Buffer → ℕ → Checked ℕ
skip_nodes zero b dp = value dp
skip_nodes (suc count) b dp =
    let rest = skip_nodes count b (dp + dp_node_length b.byte dp) in
    if leb (dp + 4) b.size then rest else fault out_of_bounds

abbrev pub devpath_max_size : ℕ
devpath_max_size = 1024

-- `sz16` less the node's header, as a `UINTN`.
unfoldable pub filename_size : (ℕ → ℕ) → ℕ → ℕ
filename_size m dp = (get16 m (dp + 2) + 2 ^ 64 - 4) % 2 ^ 64

unfoldable pub bad_filename_size : ℕ → Bool
bad_filename_size sz = leb sz 6 || not (sz % 2 == 0) || ltb (devpath_max_size * 2) sz

-- A NUL-terminated string of at most `n` units.
abbrev pub units_at : ℕ → (ℕ → ℕ) → ℕ → Name
units_at zero m i = []
units_at (suc n) m i =
    let rest = units_at n m (i + 2) in if get16 m i == 0 then [] else get16 m i ∷ rest

-- Each node that is not of length 0 leaves a smaller rest.
abbrev pub path_fuel : Buffer → ℕ
path_fuel b = b.size + 1

module _ (F : Services) where
  -- `while (!IsDevicePathEnd(path))`, over the device path of one handle: whether a suffix of it
  -- matches.
  unfoldable pub match_path : ℕ → Buffer → ℕ → Buffer → M (W F) Bool
  match_path zero path off parent = fail no_fuel
  match_path (suc fuel) path off parent = do
    bounds path off 4
    if dp_is_end path.byte off then pure false else (do
      a ← device_path_to_str F parent 0
      b ← device_path_to_str F path off
      fwup_log F debug "fwup_search_file" "Comparing: %s and %s" (str a ∷ str b ∷ [])
      same_path ← match_device_paths F path off parent
      (if same_path
          then (pure true)
          else (match_path fuel path (off + dp_node_length path.byte off) parent)))

  -- `*fh = devices[i]` and the advance of `*file_dp`.
  unfoldable pub matched : Buffer → ℕ → ℕ → ℕ → M (W F) (Result (ℕ × ℕ))
  matched file dp count device = do
    rest ← lift (skip_nodes count file dp)
    s ← device_path_to_str F file rest
    fwup_log F debug "fwup_search_file" "Match up! Returning %s" (str s ∷ [])
    pure (ok (rest, device))

  -- The loop over the handles.
  unfoldable pub search_devices : List ℕ → Buffer → ℕ → Buffer → ℕ → M (W F) (Result (ℕ × ℕ))
  search_devices [] file dp parent count = do
    s ← device_path_to_str F file dp
    fwup_log F warning "fwup_search_file" "Failed to find '%s' DevicePath" (str s ∷ [])
    pure (err unsupported)
  search_devices (device ∷ devices) file dp parent count = do
    r ← handle_protocol F device device_path_protocol
    (if (efi_error r.status) then (search_devices devices file dp parent count) else (do
      path ← device_path_of F r.handle
      s ← device_path_to_str F path 0
      fwup_log F debug "fwup_search_file" "Device supporting SFSP: %s" (str s ∷ [])
      hit ← match_path (path_fuel path) path 0 parent
      (if hit
          then (matched file dp count device)
          else (search_devices devices file dp parent count))))

  -- The search with the copied path, which is cut at the file node.
  unfoldable pub search_from : List ℕ → Buffer → ℕ → Buffer → Found → M (W F) (Result (ℕ × ℕ))
  search_from devices file dp parent path_end = pure (err invalid_parameter)
  search_from devices file dp parent (file_node off count) = do
    let cut = record parent { byte = set_dp_end parent.byte off }
    s ← device_path_to_str F cut 0
    fwup_log F debug "fwup_search_file" "Device Path prepared: %s" (str s ∷ [])
    search_devices devices file dp cut count

  unfoldable pub search_copy : List ℕ → Buffer → ℕ → Option Buffer → M (W F) (Result (ℕ × ℕ))
  search_copy devices file dp none = pure (err invalid_parameter)
  search_copy devices file dp (some parent) = do
    f ← lift (find_file_node (path_fuel parent) parent 0 0)
    search_from devices file dp parent f

  unfoldable pub free_devices : ℕ → M (W F) (Unit {0})
  free_devices p = if p == 0 then pure tt else free_pool F p

  -- `fwup_search_file`, where the cleanup runs in the reverse order of the declarations: the offset of the rest of the path, and the device.
  unfoldable pub search_file : Buffer → ℕ → M (W F) (Result (ℕ × ℕ))
  search_file file dp = do
    r ← locate_handle_buffer F simple_file_system_protocol
    if efi_error r.status
        then (do
          fwup_log F warning "fwup_search_file" "Could not find handles" []
          free_devices r.pool
          pure (err r.status))
        else (do
          s ← device_path_to_str F file dp
          fwup_log F debug "fwup_search_file" "Searching Device Path: %s..." (str s ∷ [])
          parent ← duplicate_device_path F file dp
          out ← search_copy r.handles file dp parent
          free_devices r.pool
          cleanup_free F parent
          pure out)

  -- `LocateDevicePath`, or else the search.
  unfoldable pub locate : Buffer → ℕ → M (W F) (Result (ℕ × ℕ))
  locate file dp = do
    r ← locate_device_path F simple_file_system_protocol file dp
    if efi_error r.status
        then (do
          out ← search_file file r.offset
          on_result out
              (λ rc. do
                fwup_log F warning "fwup_open_file" "Could not locate device handle: %r"
                    (num rc ∷ [])
                pure (err rc))
              (λ found. pure (ok found)))
        else pure (ok (r.offset, r.device))

  -- From the device to the file, once the file name is known.
  unfoldable pub open_on : ℕ → Name → M (W F) (Result ℕ)
  open_on device filename = do
    drive ← handle_protocol F device simple_file_system_protocol
    if efi_error drive.status
        then (do
          fwup_log F warning "fwup_open_file" "Could not open device interface: %r"
              (num drive.status ∷ [])
          pure (err drive.status))
        else (do
          fwup_log F debug "fwup_open_file" "Found device" []
          root ← open_volume F drive.handle
          if efi_error root.status
              then (do
                fwup_log F warning "fwup_open_file" "Could not open volume: %r"
                    (num root.status ∷ [])
                pure (err root.status))
              else (do
                fwup_log F debug "fwup_open_file" "Found volume" []
                fh ← open_file_call F root.handle filename
                if efi_error fh.status
                    then (do
                      fwup_log F warning "fwup_open_file" "Could not open file '%s': %r"
                          (str filename ∷ num fh.status ∷ [])
                      pure (err fh.status))
                    else (do
                      fwup_log F debug "fwup_open_file" "Found file" []
                      pure (ok fh.handle))))

  -- The copy of the file name; the result of the allocation is not tested before it is used.
  unfoldable pub copy_filename : Buffer → ℕ → ℕ → M (W F) Buffer
  copy_filename file dp sz = do
    p ← malloc0 F (sz + 2)
    filename ← deref p
    bounds file (dp + 4) sz
    pure (record filename { byte = blit filename.byte 0 sz (λ j. file.byte (dp + 4 + j)) })

  -- The second half of `fwup_open_file`: the file node at `dp`.
  unfoldable pub open_node : Buffer → ℕ → ℕ → M (W F) (Result ℕ)
  open_node file dp device = do
    bounds file dp 4
    if not (dp_is_file file.byte dp)
        then (do
          fwup_log F warning "fwup_open_file" "Could not find appropriate device" []
          pure (err unsupported))
        else (let sz = filename_size file.byte dp in
            if bad_filename_size sz
            then (do
              fwup_log F warning "fwup_open_file" "Invalid file device path of size %d"
                  (num sz ∷ [])
              pure (err invalid_parameter))
            else (do
              filename ← copy_filename file dp sz
              r ← open_on device (units_at (filename.size / 2) filename.byte 0)
              free_pool F filename.addr
              pure r))

  -- `fwup_open_file`
  unfoldable pub open_file : Buffer → ℕ → M (W F) (Result ℕ)
  open_file file dp = do
    r ← locate file dp
    on_result r (λ rc. pure (err rc)) (λ (rest, device). open_node file rest device)
