-- ===== src/Witnesses/Live.antt =====
-- The theorems on live pool memory at concrete inputs.
use fwupd_efi.Base.{◌≡◌, false, true, arith, [], ◌∷◌, ◌++◌, same}
use fwupd_efi.Efi.{fwupdate_guid}
use fwupd_efi.Firmware.Paged.{Paged}
use fwupd_efi.Common.{read_file}
use fwupd_efi.Common.Total.{IsRead}
use fwupd_efi.Common.Leaks.{Left, read_file-Left}
use fwupd_efi.Firmware.Live.{Holding}
use fwupd_efi.Firmware.Monad.{World, pool_allocated}
use fwupd_efi.Firmware.Reaches.{Reaches}
use fwupd_efi.Firmware.Services.{num}
use fwupd_efi.Variable.{warning}
use fwupd_efi.Variable.Total.{IsHeld}
use fwupd_efi.Variable.Live.{got, get_variable-Reaches}
use fwupd_efi.Debug.{fwup_log, get_variable}
use fwupd_efi.Debug.Live.{fwup_log-Reaches}
use fwupd_efi.Update.{populate_update_table}
use fwupd_efi.Update.Table.{IsTableResult}
use fwupd_efi.Update.Leaks.{HoldsTable, populate_update_table-Reaches}
use fwupd_efi.Mock.{rank, fw}
use fwupd_efi.Mock.Boot.{booting, booting-Sound, booting-Enumerates}

fwup_log-Reaches_example :
    Reaches
      (Holding (7 ∷ []))
      (fwup_log booting warning "main" "status %d" (num 5 ∷ []))
      (λ _. Holding (7 ∷ []))
fwup_log-Reaches_example = fwup_log-Reaches booting (7 ∷ []) warning "main" "status %d" (num 5 ∷ [])

get_variable-Reaches_example :
    Reaches
      (Holding (7 ∷ []))
      (get_variable booting fw fwupdate_guid)
      (λ r w. IsHeld r × Holding (got r ++ 7 ∷ []) w)
get_variable-Reaches_example =
    get_variable-Reaches booting (7 ∷ []) fw fwupdate_guid booting-Sound.lawful

-- A world in which one block is live.
abbrev one_block : World booting.State
one_block = record { fw = 0; debugging = false; once = true; trace = pool_allocated 7 ∷ [] }

populate_update_table-Reaches_example :
    Reaches
      (λ w. (w ≡ one_block) × Holding (7 ∷ []) w)
      (populate_update_table booting 2)
      (λ r w. IsTableResult r × HoldsTable booting one_block (7 ∷ []) r w)
unfolding same
populate_update_table-Reaches_example =
    populate_update_table-Reaches booting booting-Sound.lawful rank booting-Enumerates 2
      (omega arith) one_block (7 ∷ [])

read_file-Left_example :
    Reaches
      (Paged ((4096, 2) ∷ []))
      (read_file booting 10)
      (λ r w. IsRead r × Left ((4096, 2) ∷ []) r w)
read_file-Left_example = read_file-Left booting ((4096, 2) ∷ []) 10 booting-Sound
