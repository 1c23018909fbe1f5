-- ===== src/Harness/FuzzUpdateInfo.antt =====
-- efi/fwup-fuzz-update-info.c: the fuzz target for the validation of an update variable.
use Prim.Native.Nat.{bit_or}
use fwupd_efi.Base.{ℕ, Bool, ◌&&◌, List, none, length, leb, codes, if◌then◌else◌}
use fwupd_efi.Memory.{byte_of}
use fwupd_efi.Efi.{Name, Guid, success, not_found, buffer_too_small, efi_error}
use fwupd_efi.Firmware.Services.{Services, VariableReply, NextReply}
use fwupd_efi.Firmware.Monad.{M, pure, ◌>>=◌, ◌>>◌}
use fwupd_efi.Firmware.Calls.{W}
use fwupd_efi.Update.{Update, populate_update_info, free_info, free_name}
use fwupd_efi.Harness.{Libc, HarnessState, mock_services, no_byte}

-- An entry of the table that `memset` cleared.
abbrev pub zero_update : Update
zero_update = record { at = 0; name = none; attrs = 0; size = 0; info = none }

-- The attributes of every variable.
abbrev fuzz_attrs : ℕ
fuzz_attrs = bit_or 1 2

-- `fuzz_data` and `fuzz_size` are set before the first call and not again: `input` stands for both.
module _ (L : Libc) (input : List ℕ) where
  abbrev pub fuzz_get_variable : HarnessState L → ℕ → Bool → VariableReply × HarnessState L
  fuzz_get_variable p size room = (
    if room && leb (length input) size
        then record {
          status = success;
          attrs = fuzz_attrs;
          size = length input;
          bytes = byte_of input;
        }
        else record {
          status = buffer_too_small;
          attrs = fuzz_attrs;
          size = length input;
          bytes = no_byte;
        },
    p,
  )

  abbrev fuzz_get_next_variable_name : HarnessState L → Name → Guid → NextReply × HarnessState L
  fuzz_get_next_variable_name p name vendor =
      (record { status = not_found; name = name; vendor = vendor }, p)

  abbrev fuzz_set_variable : HarnessState L → ℕ × HarnessState L
  fuzz_set_variable p = (success, p)

  -- The services that the target sets.
  abbrev pub fuzz_services : Services
  fuzz_services = record (mock_services L) {
    get_variable = λ p name guid size room. fuzz_get_variable p size room;
    get_next_variable_name = λ p size name vendor. fuzz_get_next_variable_name p name vendor;
    set_variable = λ p name guid attrs bytes. fuzz_set_variable p;
  }

  -- `LLVMFuzzerTestOneInput`
  unfoldable pub fuzz_one_input : M (W fuzz_services) ℕ
  fuzz_one_input = do
    (out, rc) ← populate_update_info fuzz_services (codes "fuzz") zero_update
    if efi_error rc
        then pure tt
        else (do free_info fuzz_services out.info; free_name fuzz_services out.name)
    pure 0
