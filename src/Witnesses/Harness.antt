-- ===== src/Witnesses/Harness.antt =====
-- The theorems on the fuzz targets and on the UX capsule at concrete inputs.
use fwupd_efi.Base.{◌≡◌, [], ◌∷◌, arith}
use fwupd_efi.Memory.{Buffer}
use fwupd_efi.Firmware.Reaches.{Reaches}
use fwupd_efi.Firmware.Total.{Total, Any}
use fwupd_efi.Capsule.{check_gop_for_ux_capsule}
use fwupd_efi.Capsule.Mode.{Completion, check_gop_for_ux_capsule-Completion}
use fwupd_efi.Mock.Display.{displaying, displaying-ShowsDisplay}
use fwupd_efi.Harness.FuzzCapsule
use fwupd_efi.Harness.FuzzUpdateInfo
use fwupd_efi.Harness.Safe.{NoNullCall, fuzz_capsule-Safe, fuzz_update_info-Safe}
use fwupd_efi.Mock.{file_byte}
use fwupd_efi.Mock.Library.{library, library-IsMalloc, library-IsRoomy}
use fwupd_efi.Selftest.Main.{main}
use fwupd_efi.Selftest.MainPass.{main-Passes}
use fwupd_efi.Selftest.Ready.{Ready}

abbrev file_buffer : Buffer
file_buffer = record { addr = 4096; size = 100; byte = file_byte }

check_gop_for_ux_capsule-Completion_example :
    Total Any
      (check_gop_for_ux_capsule displaying 0 file_buffer 100)
      (Completion displaying-ShowsDisplay file_buffer 100)
check_gop_for_ux_capsule-Completion_example =
    check_gop_for_ux_capsule-Completion displaying-ShowsDisplay file_buffer 100 (omega arith)
      (omega arith) (omega arith) (omega arith)

fuzz_capsule-Safe_example :
    Reaches
      (NoNullCall library)
      (FuzzCapsule.fuzz_one_input library (1 ∷ 2 ∷ 3 ∷ []))
      (λ rc w. (rc ≡ 0) × NoNullCall library w)
fuzz_capsule-Safe_example = fuzz_capsule-Safe library library-IsMalloc (1 ∷ 2 ∷ 3 ∷ [])

fuzz_update_info-Safe_example :
    Reaches
      (NoNullCall library)
      (FuzzUpdateInfo.fuzz_one_input library (1 ∷ 2 ∷ 3 ∷ []))
      (λ rc w. (rc ≡ 0) × NoNullCall library w)
fuzz_update_info-Safe_example = fuzz_update_info-Safe library library-IsMalloc (1 ∷ 2 ∷ 3 ∷ [])

main-Passes_example :
    Reaches (Ready library) (main library file_byte) (λ rc w. (rc ≡ 0) × Ready library w)
main-Passes_example = main-Passes library library-IsRoomy file_byte
