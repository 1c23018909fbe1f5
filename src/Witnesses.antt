-- ===== src/Witnesses.antt =====
-- The theorems of the library at concrete inputs: the test services of `Mock`, their variable and
-- their file.
mod Store
mod Harness
mod Boot
mod Live
mod Search
use fwupd_efi.Base.{ℕ, ◌≡◌, refl, false, [], ◌∷◌, same}
use fwupd_efi.Efi.{efi_error, dp_type, dp_subtype, dp_node_length, dp_is_end}
use fwupd_efi.Debug.{fwup_log, delete_variable, get_variable}
use fwupd_efi.Common.{page_count, read_file}
use fwupd_efi.Capsule.{update_ux_checksum, validate_capsule_size, bad_header_size}
use fwupd_efi.Update.{check_info, populate_update_info, populate_loop, populate_update_table}
use fwupd_efi.OpenFile.{find_file_node, filename_size, bad_filename_size}
use fwupd_efi.Apply.{add_update_capsule}
use fwupd_efi.Entry.{efi_main}
use fwupd_efi.DevicePath.{dp_size}
use fwupd_efi.Firmware.Monad.{value, fault}
use fwupd_efi.Firmware.Keeps.{commits}
use fwupd_efi.Mock.{services, start, info_byte, file_byte}
use fwupd_efi.Base.{◌≤◌, ◌+◌, ◌%◌, ◌⊎◌, ◌↔◌, ◌≢◌, some, arith}
use fwupd_efi.Base.Int.{pos, negsuc}
use fwupd_efi.Memory.{Buffer, get32, bytes_at}
use fwupd_efi.Efi.{capsule_sizeof, capsule_image_size, capsule_header_size, ux_sizeof, ux_checksum}
use fwupd_efi.Firmware.Leads.{Leads}
use fwupd_efi.Firmware.Keeps.{Committed}
use fwupd_efi.Firmware.Total.{Total, Any}
use fwupd_efi.Variable.{warning}
use fwupd_efi.DevicePath.Spec.{PathAt}
use fwupd_efi.DevicePath.Size.{dp_size_iff, dp_size-total}
use fwupd_efi.Debug.Total.{fwup_log-Safe}
use fwupd_efi.Capsule.Size.{validate_capsule_size_iff, bad_header_size_iff}
use fwupd_efi.Capsule.Checksum.{update_ux_checksum_lem, update_ux_checksum_idem, total}
use fwupd_efi.Update.{Update}
use fwupd_efi.Base.{◌*◌, none}
use fwupd_efi.Memory.{get16}
use fwupd_efi.Efi.{fwupdate_guid, empty_guid, buffer_too_small}
use fwupd_efi.Firmware.Services.{Services}
use fwupd_efi.Firmware.Monad.{no_fuel}
use fwupd_efi.Mock.{fw, rank, services-Lawful, services-Enumerates}
use fwupd_efi.OpenFile.{path_fuel}
use fwupd_efi.OpenFile.Path.{FoundAt, find_file_node-total, bad_filename_size_iff}
use fwupd_efi.Update.Valid.{Outcome, CanFailCopy, check_info-Outcome}
use fwupd_efi.Update.Accepted.{IfAccepted, populate_update_info-IfAccepted}
use fwupd_efi.Update.Table.{IsTableResult}
use fwupd_efi.Update.Ends.{populate_update_table-IsTable}
use fwupd_efi.Update.Hang.{populate_loop-no_fuel}
use fwupd_efi.Common.Whole.{IsWhole, read_file-IsWhole}
use fwupd_efi.Firmware.Reaches.{Reaches}
use fwupd_efi.Mock.{reading, reading-IsFile}
use fwupd_efi.Common.Pages.{page_count-least}
use fwupd_efi.Variable.Total.{IsHeld, get_variable-IsHeld}
use fwupd_efi.Apply.Valid.{IsValidResult, add_update_capsule-IsValidResult}
use fwupd_efi.Entry.Handed.{NoneOrHanded, efi_main-Handed}

-- The theorems at the test services, the test variable and the test file.
abbrev info_buffer : Buffer
info_buffer = record { addr = 16; size = 70; byte = info_byte }

abbrev update : Update
update = record {
  at = 32;
  name = some (record { addr = 48; units = 102 ∷ 119 ∷ [] });
  attrs = 7;
  size = 70;
  info = some info_buffer;
}

efi_main-Handed_example :
    Leads
      (Committed [])
      (efi_main services false 2 0)
      (λ rc w. NoneOrHanded [] rc (commits w.trace))
efi_main-Handed_example = efi_main-Handed services false 2 0

add_update_capsule-IsValidResult_example :
    Leads
      (Committed [])
      (add_update_capsule services false update 0)
      (λ r w. IsValidResult r × Committed [] w)
add_update_capsule-IsValidResult_example = add_update_capsule-IsValidResult services false update 0

dp_size_iff_example :
    (dp_size info_buffer 52 (pos 18) ≡ value (pos 18)) ↔ (PathAt info_byte 52 18 × (18 ≤ 18))
dp_size_iff_example = dp_size_iff info_buffer 52 18 (omega arith) 18

dp_size-total_example :
    ((n : ℕ) × (dp_size info_buffer 52 (pos 18) ≡ value (pos n)))
    ⊎ (dp_size info_buffer 52 (pos 18) ≡ value (negsuc 0))
dp_size-total_example = dp_size-total info_buffer 52 18 (omega arith)

fwup_log-Safe_example : Total Any (fwup_log services warning "f" "m" []) Any
fwup_log-Safe_example = fwup_log-Safe services warning "f" "m" []

validate_capsule_size_iff_example : (efi_error (validate_capsule_size file_byte 100) ≡ false) ↔ (
    (capsule_sizeof ≤ get32 file_byte capsule_image_size)
    × (get32 file_byte capsule_image_size ≤ 100))
validate_capsule_size_iff_example = validate_capsule_size_iff file_byte 100

bad_header_size_iff_example : (bad_header_size file_byte 100 ≡ false) ↔ (
    (capsule_sizeof ≤ get32 file_byte capsule_header_size)
    × (get32 file_byte capsule_header_size + ux_sizeof ≤ get32 file_byte capsule_image_size)
    × (get32 file_byte capsule_header_size + ux_sizeof ≤ 100))
bad_header_size_iff_example = bad_header_size_iff file_byte 100 (omega arith) (omega arith)

update_ux_checksum_lem_example :
    ((j : ℕ) → j ≢ 28 + ux_checksum → update_ux_checksum info_byte 28 j ≡ info_byte j)
    × (update_ux_checksum info_byte 28 (28 + ux_checksum)
        ≡ (info_byte 28 + total (bytes_at info_byte (28 + 2) 14)) % 256)
update_ux_checksum_lem_example = update_ux_checksum_lem info_byte 28

update_ux_checksum_idem_example :
    update_ux_checksum (update_ux_checksum info_byte 28) 28 ≡ update_ux_checksum info_byte 28
update_ux_checksum_idem_example = update_ux_checksum_idem info_byte 28

-- The path of the test variable alone, which is a path of 18 bytes.
abbrev path_buffer : Buffer
path_buffer = record { addr = 16; size = 18; byte = λ j. info_byte (52 + j) }

path_buffer_runs : dp_size path_buffer 0 (pos 18) ≡ value (pos 18)
unfolding dp_size dp_is_end dp_type dp_subtype dp_node_length
path_buffer_runs = refl

path_buffer-PathAt : PathAt path_buffer.byte 0 18
path_buffer-PathAt = ((dp_size_iff path_buffer 0 18 (omega arith) 18).0 path_buffer_runs).0

find_file_node-total_example :
    FoundAt path_buffer 0 18 0 (find_file_node (path_fuel path_buffer) path_buffer 0 0)
find_file_node-total_example = find_file_node-total path_buffer 18 path_buffer-PathAt (omega arith)

bad_filename_size_iff_example :
    (bad_filename_size (filename_size path_buffer.byte 0) ≡ false)
    ↔ ((n : ℕ) × (get16 path_buffer.byte (0 + 2) ≡ 4 + 2 * n) × (4 ≤ n) × (n ≤ 1024))
bad_filename_size_iff_example = bad_filename_size_iff path_buffer.byte 0 (omega arith)

abbrev empty_entry : Update
empty_entry = record { at = 32; name = none; attrs = 0; size = 0; info = none }

check_info-Outcome_example :
    Total Any
      (check_info services fw empty_entry (record { buf = some info_buffer; size = 70; attrs = 7 }))
      (Outcome
        (CanFailCopy services fw)
        (record { buf = some info_buffer; size = 70; attrs = 7 })
        info_buffer
        empty_entry)
check_info-Outcome_example =
    check_info-Outcome services fw empty_entry info_buffer 70 7 (omega arith) (omega arith)

get_variable-IsHeld_example : Total Any (get_variable services fw fwupdate_guid) IsHeld
get_variable-IsHeld_example = get_variable-IsHeld services services-Lawful fw fwupdate_guid

populate_update_info-IfAccepted_example :
    Total Any (populate_update_info services fw empty_entry) IfAccepted
populate_update_info-IfAccepted_example =
    populate_update_info-IfAccepted services services-Lawful fw empty_entry

populate_update_table-IsTable_example : Total Any (populate_update_table services 2) IsTableResult
unfolding same
populate_update_table-IsTable_example =
    populate_update_table-IsTable services services-Lawful rank services-Enumerates 2 (omega arith)

-- Firmware that never gets a name into the buffer.
abbrev stuck : Services
stuck = record services {
  get_next_variable_name =
      λ s size name guid. (record { status = buffer_too_small; name = name; vendor = guid }, s);
}

populate_loop-no_fuel_example : populate_loop stuck 1000 [] empty_guid [] start ≡ fault no_fuel
populate_loop-no_fuel_example =
    populate_loop-no_fuel stuck (λ s name vendor. refl) 1000 [] empty_guid [] start

page_count-least_example :
    (5000 ≤ page_count 5000 * 4096) × ((n : ℕ) → 5000 ≤ n * 4096 → page_count 5000 ≤ n)
page_count-least_example = page_count-least 5000

read_file-IsWhole_example :
    Reaches (λ w. w.fw ≡ 0) (read_file reading 10) (λ a _. IsWhole file_byte 100 a)
read_file-IsWhole_example =
    read_file-IsWhole reading 10 (λ s. s) file_byte 100 reading-IsFile (omega arith)
