-- ===== src/Variable/Readable.antt =====
-- A variable that can be read: what `GetVariable` answers while the services' state says what it holds.
use fwupd_efi.Base.{ℕ, ◌≡◌, Bool, true, false, Option, none, some, length}
use fwupd_efi.Efi.{Name, Guid, not_found}
use fwupd_efi.Firmware.Services.{Services}
use fwupd_efi.Firmware.Store.{Stored, TooSmall, Given}
use fwupd_efi.Firmware.Monad.{World}
use fwupd_efi.Variable.Copy.{HasRoom}
use fwupd_efi.Debug.Keeps.{LogKeeps}

-- `p o w` says that the variable holds `o` in the world `w`.
pub record Readable (F : Services) (name : Name) (guid : Guid)
    (p : Option Stored → World F.State → Type 0) : Type 0 where
  pub missing :
      (w : World F.State) (size : ℕ) (room : Bool)
      → p none w
      → (F.get_variable w.fw name guid size room).0.status ≡ not_found
  pub too_small :
      (w : World F.State) (v : Stored)
      → p (some v) w
      → TooSmall v (F.get_variable w.fw name guid 0 false).0
  pub fits :
      (w : World F.State) (v : Stored)
      → p (some v) w
      → Given v (F.get_variable w.fw name guid (length v.bytes) true).0
  pub room : HasRoom F
  -- Reading, memory and logging leave the variable as it is.
  pub logs : (o : Option Stored) → LogKeeps F (p o)
