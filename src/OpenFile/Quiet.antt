-- ===== src/OpenFile/Quiet.antt =====
-- Opening a file makes no commit.
use fwupd_efi.Base.{ℕ, zero, suc, ◌+◌, List, [], ◌∷◌, Option, none, some}
use fwupd_efi.Memory.{Buffer}
use fwupd_efi.Efi.{Name, efi_error, dp_is_end, dp_node_length}
use fwupd_efi.Firmware.Services.{Services}
use fwupd_efi.Firmware.Monad.{Event}
use fwupd_efi.Firmware.Keeps.{Keeps, Keeps-bind, Keeps-if, Committed}
use fwupd_efi.Debug.Quiet.{quiet_log}
use fwupd_efi.Common.Quiet.{malloc0-Quiet}
use fwupd_efi.Variable.Quiet.{cleanup_free-Quiet}
use fwupd_efi.OpenFile.{
  Found, file_node, path_end, path_fuel, match_path, matched, search_devices, search_from,
  search_copy, free_devices, search_file, locate, open_on, copy_filename, open_node, open_file,
}

module _ (F : Services) {t : List Event} where
  match_path-Quiet :
      (fuel : ℕ) (path : Buffer) (off : ℕ) (parent : Buffer)
      → Keeps (Committed t) (match_path F fuel path off parent)
  unfolding match_path
  match_path-Quiet zero path off parent = search quiet_log depth 10
  match_path-Quiet (suc fuel) path off parent = Keeps-bind _ _ (search quiet_log) λ _.
      Keeps-if (dp_is_end path.byte off) _ _ (search quiet_log) (
        Keeps-bind _ _ (search quiet_log) λ a. Keeps-bind _ _ (search quiet_log) λ b.
          Keeps-bind _ _ (search quiet_log) λ _. Keeps-bind _ _ (search quiet_log) λ same_path.
            Keeps-if same_path _ _ (search quiet_log)
              (match_path-Quiet fuel path (off + dp_node_length path.byte off) parent))

  matched-Quiet :
      (file : Buffer) (dp : ℕ) (count : ℕ) (device : ℕ)
      → Keeps (Committed t) (matched F file dp count device)
  unfolding matched
  matched-Quiet file dp count device = search quiet_log depth 10

  search_devices-Quiet :
      (devices : List ℕ) (file : Buffer) (dp : ℕ) (parent : Buffer) (count : ℕ)
      → Keeps (Committed t) (search_devices F devices file dp parent count)
  unfolding search_devices
  search_devices-Quiet [] file dp parent count = search quiet_log depth 10
  search_devices-Quiet (device ∷ devices) file dp parent count =
      Keeps-bind _ _ (search quiet_log) λ r.
        Keeps-if (efi_error r.status) _ _ (search_devices-Quiet devices file dp parent count) (
          Keeps-bind _ _ (search quiet_log) λ path. Keeps-bind _ _ (search quiet_log) λ s.
            Keeps-bind _ _ (search quiet_log) λ _.
              Keeps-bind _ _ (match_path-Quiet (path_fuel path) path 0 parent) λ hit.
                Keeps-if hit _ _ (matched-Quiet file dp count device)
                  (search_devices-Quiet devices file dp parent count))

  search_from-Quiet :
      (devices : List ℕ) (file : Buffer) (dp : ℕ) (parent : Buffer) (f : Found)
      → Keeps (Committed t) (search_from F devices file dp parent f)
  unfolding search_from
  search_from-Quiet devices file dp parent path_end = search quiet_log depth 10
  search_from-Quiet devices file dp parent (file_node off count) =
      search (quiet_log, search_devices-Quiet) depth 10

  search_copy-Quiet :
      (devices : List ℕ) (file : Buffer) (dp : ℕ) (parent : Option Buffer)
      → Keeps (Committed t) (search_copy F devices file dp parent)
  unfolding search_copy
  search_copy-Quiet devices file dp none = search quiet_log depth 10
  search_copy-Quiet devices file dp (some parent) = search (quiet_log, search_from-Quiet) depth 10

  free_devices-Quiet : (p : ℕ) → Keeps (Committed t) (free_devices F p)
  unfolding free_devices
  free_devices-Quiet p = search quiet_log depth 10

  search_file-Quiet : (file : Buffer) (dp : ℕ) → Keeps (Committed t) (search_file F file dp)
  unfolding search_file
  search_file-Quiet file dp =
      search (quiet_log, search_copy-Quiet, free_devices-Quiet, cleanup_free-Quiet) depth 10

  locate-Quiet : (file : Buffer) (dp : ℕ) → Keeps (Committed t) (locate F file dp)
  unfolding locate
  locate-Quiet file dp = search (quiet_log, search_file-Quiet) depth 10

  open_on-Quiet : (device : ℕ) (filename : Name) → Keeps (Committed t) (open_on F device filename)
  unfolding open_on
  open_on-Quiet device filename = search quiet_log depth 10

  copy_filename-Quiet :
      (file : Buffer) (dp : ℕ) (sz : ℕ) → Keeps (Committed t) (copy_filename F file dp sz)
  unfolding copy_filename
  copy_filename-Quiet file dp sz = search (quiet_log, malloc0-Quiet F) depth 10

  open_node-Quiet :
      (file : Buffer) (dp : ℕ) (device : ℕ) → Keeps (Committed t) (open_node F file dp device)
  unfolding open_node
  open_node-Quiet file dp device = search (quiet_log, open_on-Quiet, copy_filename-Quiet) depth 10

  pub open_file-Quiet : (file : Buffer) (dp : ℕ) → Keeps (Committed t) (open_file F file dp)
  unfolding open_file
  open_file-Quiet file dp = search (quiet_log, locate-Quiet, open_node-Quiet) depth 10
