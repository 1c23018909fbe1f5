-- ===== src/Witnesses/Boot.antt =====
-- The theorems on a whole run at concrete inputs.
use fwupd_efi.Base.{ℕ, ◌≡◌, refl, arith, true, false, some, [], ◌∷◌, same}
use fwupd_efi.Memory.{Buffer, put32}
use fwupd_efi.Efi.{dp_node_length, dp_is_end, dp_type, dp_subtype, info_status, attempted}
use fwupd_efi.DevicePath.Spec.{PathAt, node, end_node}
use fwupd_efi.Firmware.Keeps.{Committed, commits}
use fwupd_efi.Firmware.Monad.{World, fault, out_of_bounds}
use fwupd_efi.Firmware.Reaches.{Reaches}
use fwupd_efi.Firmware.Total.{Total, Any, Succeeds}
use fwupd_efi.Firmware.Store.{Stored}
use fwupd_efi.Common.{read_file}
use fwupd_efi.Common.Total.{IsRead, read_file-IsRead}
use fwupd_efi.OpenFile.{open_file}
use fwupd_efi.OpenFile.Total.{open_file-Succeeds}
use fwupd_efi.Update.{Update}
use fwupd_efi.Update.Table.{IsEntry}
use fwupd_efi.Apply.{add_update_capsule}
use fwupd_efi.Apply.Total.{add_update_capsule-Succeeds}
use fwupd_efi.Entry.{efi_main, debug_hook}
use fwupd_efi.Entry.Ends.{FailedOrHanded, efi_main-FailedOrHanded}
use fwupd_efi.Entry.Overflow.{debug_hook-out_of_bounds}
use fwupd_efi.Mock.{info_byte, rank, fw}
use fwupd_efi.Mock.Boot.{booting, booting-Sound, booting-Enumerates}
use fwupd_efi.Mock.Store.{storing, shown, storing-IsStore}

efi_main-FailedOrHanded_example :
    Reaches
      (Committed [])
      (efi_main booting false 2 0)
      (λ rc w. FailedOrHanded [] rc (commits w.trace))
unfolding same
efi_main-FailedOrHanded_example =
    efi_main-FailedOrHanded booting false [] booting-Sound rank booting-Enumerates 2 (omega arith) 0

read_file-IsRead_example : Total Any (read_file booting 10) IsRead
read_file-IsRead_example = read_file-IsRead booting booting-Sound 10

abbrev stamped_byte : ℕ → ℕ
stamped_byte = put32 info_byte info_status attempted

abbrev stamped_buffer : Buffer
stamped_buffer = record { addr = 16; size = 70; byte = stamped_byte }

stamped_path : PathAt stamped_byte 52 18
unfolding dp_node_length dp_is_end dp_type dp_subtype
stamped_path = node {k = 4} (omega arith) refl (end_node (omega arith) refl refl) refl

open_file-Succeeds_example : Total Any (open_file booting stamped_buffer 52) Succeeds
open_file-Succeeds_example =
    open_file-Succeeds booting booting-Sound stamped_buffer 52 (18, stamped_path, omega arith)

abbrev stamped : Update
stamped = record {
  at = 32;
  name = some (record { addr = 48; units = fw });
  attrs = 7;
  size = 70;
  info = some stamped_buffer;
}

stamped-IsEntry : IsEntry stamped
stamped-IsEntry = record {
  valid = record {
    buffer = stamped_buffer;
    text = record { addr = 48; units = fw };
    has_info = refl;
    has_name = refl;
    size_fits = omega arith;
    holds = record { large = omega arith; path = stamped_path };
  };
  stamped = refl;
}

add_update_capsule-Succeeds_example :
    Total Any (add_update_capsule booting false stamped 0) Succeeds
add_update_capsule-Succeeds_example =
    add_update_capsule-Succeeds booting false booting-Sound stamped 0 stamped-IsEntry

abbrev nine_bytes : Stored
nine_bytes = record { attrs = 7; bytes = 0 ∷ 0 ∷ 0 ∷ 0 ∷ 0 ∷ 0 ∷ 0 ∷ 0 ∷ 0 ∷ [] }

abbrev all_nine : World storing.State
all_nine = record {
  fw = (λ name guid. some nine_bytes, 0);
  debugging = false;
  once = true;
  trace = [];
}

debug_hook-out_of_bounds_example : debug_hook storing false all_nine ≡ fault out_of_bounds
debug_hook-out_of_bounds_example =
    debug_hook-out_of_bounds storing false (λ p. shown p.0) storing-IsStore all_nine nine_bytes
      nine_bytes refl refl (omega arith) (omega arith) (omega arith)
