-- ===== src/Witnesses/Store.antt =====
-- The theorems on variables at the services of `Mock.Store`.
use fwupd_efi.Base.{◌≡◌, refl, false, true, none, some, [], ◌∷◌, same, arith}
use fwupd_efi.Memory.{byte_of}
use fwupd_efi.Efi.{fwupdate_guid}
use fwupd_efi.Firmware.Monad.{◌>>=◌, pure}
use fwupd_efi.Firmware.Reaches.{Reaches}
use fwupd_efi.Firmware.Store.{Stored, same_variable, is_plain}
use fwupd_efi.Debug.{log_name, get_variable, delete_variable}
use fwupd_efi.Variable.{set_variable}
use fwupd_efi.Variable.Copy.{Reads}
use fwupd_efi.Variable.Reads.{get_variable-Reads}
use fwupd_efi.Variable.Writes.{
  after_set, delete_status, get_variable-set_variable, delete_variable-Shows,
}
use fwupd_efi.Variable.Shown.{Shows}
use fwupd_efi.Variable.Map.{Map, IsShown}
use fwupd_efi.Update.{Update}
use fwupd_efi.Apply.{set_update_statuses}
use fwupd_efi.Apply.Statuses.{Entry, IsEntry, Written, set_update_statuses-Written}
use fwupd_efi.Mock.{fw}
use fwupd_efi.Mock.Store.{storing, shown, storing-IsStore}

abbrev three_bytes : Stored
three_bytes = record { attrs = 7; bytes = 1 ∷ 2 ∷ 3 ∷ [] }

fw_apart : same_variable log_name fwupdate_guid fw fwupdate_guid ≡ false
unfolding same
fw_apart = refl

is_plain_7 : is_plain 7 ≡ true
unfolding is_plain
is_plain_7 = refl

get_variable-Reads_example :
    Reaches
      (Shows storing (λ p. shown p.0) fw fwupdate_guid (some three_bytes))
      (get_variable storing fw fwupdate_guid)
      (λ r w.
        Reads storing (some three_bytes) r
        × Shows storing (λ p. shown p.0) fw fwupdate_guid (some three_bytes) w)
get_variable-Reads_example =
    get_variable-Reads storing storing-IsStore fw fwupdate_guid fw_apart (some three_bytes)

get_variable-set_variable_example :
    Reaches
      (Shows storing (λ p. shown p.0) fw fwupdate_guid none)
      (set_variable storing fw fwupdate_guid (1 ∷ 2 ∷ 3 ∷ []) 7 >>= λ rc.
        get_variable storing fw fwupdate_guid >>= λ r. pure (rc, r))
      (λ (rc, r) w. Reads storing (after_set none three_bytes rc) r)
get_variable-set_variable_example =
    get_variable-set_variable storing storing-IsStore fw fwupdate_guid fw_apart none three_bytes
      is_plain_7 (omega arith)

delete_variable-Shows_example :
    Reaches
      (Shows storing (λ p. shown p.0) fw fwupdate_guid (some three_bytes))
      (delete_variable storing fw fwupdate_guid)
      (λ rc w.
        (rc ≡ delete_status (some three_bytes))
        × Shows storing (λ p. shown p.0) fw fwupdate_guid (some three_bytes) w)
delete_variable-Shows_example =
    delete_variable-Shows storing storing-IsStore fw fwupdate_guid fw_apart (some three_bytes)

abbrev entry_update : Update
entry_update = record {
  at = 32;
  name = some (record { addr = 48; units = fw });
  attrs = 7;
  size = 3;
  info = some (record { addr = 16; size = 3; byte = byte_of (1 ∷ 2 ∷ 3 ∷ []) });
}

abbrev entry : Entry
entry = record { name = fw; content = three_bytes }

entry-IsEntry : IsEntry entry_update entry
entry-IsEntry = record {
  text = record { addr = 48; units = fw };
  named = refl;
  units = refl;
  buffer = record { addr = 16; size = 3; byte = byte_of (1 ∷ 2 ∷ 3 ∷ []) };
  held = refl;
  in_buffer = omega arith;
  attrs = refl;
  bytes = refl;
  plain = is_plain_7;
  some_bytes = omega arith;
}

abbrev no_variables : Map
no_variables name guid = none

set_update_statuses-Written_example :
    Reaches
      (IsShown storing (λ p. shown p.0) no_variables)
      (set_update_statuses storing (entry_update ∷ []))
      (λ rc w. Written storing (λ p. shown p.0) no_variables (entry ∷ []) rc w)
set_update_statuses-Written_example =
    set_update_statuses-Written storing storing-IsStore no_variables (entry_update ∷ [])
      (entry ∷ []) (entry-IsEntry, tt)
