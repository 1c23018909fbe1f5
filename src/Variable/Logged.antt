-- ===== src/Variable/Logged.antt =====
-- Steps after which what logging keeps still holds: logging itself, and freeing a buffer.
use fwupd_efi.Base.{String, Option, List}
use fwupd_efi.Memory.{Buffer}
use fwupd_efi.Firmware.Services.{Services, Arg}
use fwupd_efi.Firmware.Monad.{M, World, ◌>>=◌}
use fwupd_efi.Firmware.Reaches.{Reaches, Reaches-then}
use fwupd_efi.Debug.{fwup_log}
use fwupd_efi.Debug.Total.{fwup_log-Safe}
use fwupd_efi.Debug.Keeps.{LogKeeps}
use fwupd_efi.Variable.Total.{cleanup_free-Safe}
use fwupd_efi.Variable.Keeps.{cleanup_free-Keeps}
use fwupd_efi.Variable.{Level, cleanup_free}

module _ (F : Services) {P : World F.State → Type 0} (c : LogKeeps F P) {A : Type 0}
    {R : A → World F.State → Type 0} where
  pub log-then :
      (level : Level) (func fmt : String) (args : List Arg) (m : M (World F.State) A)
      → Reaches P m R
      → Reaches P (fwup_log F level func fmt args >>= λ _. m) R
  log-then level func fmt args m k =
      Reaches-then _ _ (fwup_log-Safe F level func fmt args) (c.logging level func fmt args) λ _. k

  pub cleanup-then :
      (b : Option Buffer) (m : M (World F.State) A)
      → Reaches P m R
      → Reaches P (cleanup_free F b >>= λ _. m) R
  cleanup-then b m k =
      Reaches-then _ _ (cleanup_free-Safe F b) (cleanup_free-Keeps F c.reading b) λ _. k
