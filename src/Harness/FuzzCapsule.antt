-- ===== src/Harness/FuzzCapsule.antt =====
-- efi/fwup-fuzz-capsule.c: the fuzz target for the sizes in a capsule's header.
use fwupd_efi.Base.{ℕ, List, length, ltb, if◌then◌else◌}
use fwupd_efi.Memory.{blit, byte_of}
use fwupd_efi.Efi.{Name, Guid, success, not_found, capsule_sizeof}
use fwupd_efi.Firmware.Services.{Services, VariableReply, NextReply, HandlesReply}
use fwupd_efi.Firmware.Monad.{M, pure, on_option, bounds, ◌>>=◌, ◌>>◌}
use fwupd_efi.Firmware.Calls.{W, allocate_pool, free_pool}
use fwupd_efi.Capsule.{check_gop_for_ux_capsule}
use fwupd_efi.Harness.{Libc, HarnessState, mock_services, no_byte, no_handles}

module _ (L : Libc) where
  abbrev fuzz_locate_handle_buffer : HarnessState L → Guid → HandlesReply × HarnessState L
  fuzz_locate_handle_buffer p guid = (no_handles, p)

  abbrev fuzz_get_variable : HarnessState L → ℕ → VariableReply × HarnessState L
  fuzz_get_variable p size =
      (record { status = not_found; attrs = 0; size = size; bytes = no_byte }, p)

  abbrev fuzz_get_next_variable_name : HarnessState L → Name → Guid → NextReply × HarnessState L
  fuzz_get_next_variable_name p name vendor =
      (record { status = not_found; name = name; vendor = vendor }, p)

  abbrev fuzz_set_variable : HarnessState L → ℕ × HarnessState L
  fuzz_set_variable p = (success, p)

  -- The services that the target sets.
  abbrev pub fuzz_services : Services
  fuzz_services = record (mock_services L) {
    locate_handle_buffer = fuzz_locate_handle_buffer;
    get_variable = λ p name guid size room. fuzz_get_variable p size;
    get_next_variable_name = λ p size name vendor. fuzz_get_next_variable_name p name vendor;
    set_variable = λ p name guid attrs bytes. fuzz_set_variable p;
  }

  -- `LLVMFuzzerTestOneInput`, of the bytes `input`
  unfoldable pub fuzz_one_input : List ℕ → M (W fuzz_services) ℕ
  fuzz_one_input input = if ltb (length input) capsule_sizeof then pure 0 else (do
    buf ← allocate_pool fuzz_services (length input)
    on_option buf (pure 0) (λ b. do
      bounds b 0 (length input)
      _ ←
          check_gop_for_ux_capsule fuzz_services 0
            (record b { byte = blit b.byte 0 (length input) (byte_of input) }) (length input)
      free_pool fuzz_services b.addr
      pure 0))
