-- ===== src/Selftest.antt =====
-- efi/fwup-selftest.c: the mock services of the self tests, and the helpers of the tests.
pub mod Paths
pub mod Checksum
pub mod Gop
pub mod Sizes
pub mod Variables
pub mod Info
pub mod Main
pub mod Pass
pub mod Ready
pub mod SizesPass
pub mod GopPass
pub mod Readable
pub mod VariablesPass
pub mod GetPass
pub mod Populated
pub mod InfoPass
pub mod ValidPass
pub mod MainPass
use fwupd_efi.Base.{
  Option, none, some, ◌*◌, ℕ, ◌+◌, ◌/◌, ◌%◌, Bool, true, false, ◌||◌, not, length, ltb, ◌==◌,
  if◌then◌else◌,
}
use fwupd_efi.Memory.{poke, Buffer}
use fwupd_efi.Efi.{Name, Guid, success, not_found, unsupported, buffer_too_small, Result, ok, err}
use fwupd_efi.Firmware.Beside.{beside, inner}
use fwupd_efi.Firmware.Services.{
  Services, VariableReply, NextReply, LocateReply, HandleReply, HandlesReply, QueryReply, warm,
}
use fwupd_efi.Firmware.Monad.{M, pure, fail, assertion, ◌>>=◌, call}
use fwupd_efi.Firmware.Calls.{W}
use fwupd_efi.Harness.{Libc, HarnessState, mock_services, no_byte, no_handles}

-- The static variables `mock_var_…` and `mock_set_variable_…`. The bytes are those at `mock_var_data`.
pub record MockVars : Type 0 where
  pub bytes : ℕ → ℕ
  pub size : ℕ
  pub attrs : ℕ
  pub status : ℕ
  pub set_called : Bool
  pub set_size : ℕ

abbrev pub TestState : Libc → Type 0
TestState L = MockVars × HarnessState L

-- What `mock_init` sets them to.
abbrev pub initial_vars : MockVars
initial_vars = record {
  bytes = no_byte;
  size = 0;
  attrs = 0;
  status = not_found;
  set_called = false;
  set_size = 0;
}

abbrev pub mock_get_variable : MockVars → ℕ → Bool → VariableReply
mock_get_variable v size room =
    if not (v.status == success)
    then record { status = v.status; attrs = 0; size = size; bytes = no_byte }
    else if not room || ltb size v.size
    then record { status = buffer_too_small; attrs = v.attrs; size = v.size; bytes = no_byte }
    else record { status = success; attrs = v.attrs; size = v.size; bytes = v.bytes }

abbrev mock_set_variable : MockVars → ℕ → MockVars
mock_set_variable v data_size = record v { set_called = true; set_size = data_size }

abbrev mock_get_next_variable_name : Name → Guid → NextReply
mock_get_next_variable_name name vendor = record {
  status = not_found;
  name = name;
  vendor = vendor;
}

abbrev mock_locate_device_path : ℕ → LocateReply
mock_locate_device_path off = record { status = not_found; offset = off; device = 0 }

abbrev mock_handle_protocol : HandleReply
mock_handle_protocol = record { status = unsupported; handle = 0 }

abbrev mock_locate_handle_buffer : HandlesReply
mock_locate_handle_buffer = no_handles

abbrev mock_open_protocol : HandleReply
mock_open_protocol = record { status = unsupported; handle = 0 }

abbrev mock_query_capsule_caps : QueryReply
mock_query_capsule_caps = record { status = success; max_size = 0x1000000; reset = warm }

abbrev mock_update_capsule : ℕ
mock_update_capsule = success

-- A write of one byte, and of a device-path node.
abbrev pub build_dp_end : (ℕ → ℕ) → ℕ → ℕ → ℕ
build_dp_end m i = poke (poke (poke (poke m i 0x7f) (i + 1) 0xff) (i + 2) 4) (i + 3) 0

abbrev pub build_dp_node : (ℕ → ℕ) → ℕ → ℕ → ℕ → ℕ → ℕ → ℕ
build_dp_node m i type subtype length =
    poke (poke (poke (poke m i type) (i + 1) subtype) (i + 2) (length % 256)) (i + 3) (length / 256)

-- The status of a result.
abbrev pub status_of : {A : Type 0} → Result A → ℕ
status_of (ok a) = success
status_of (err rc) = rc

-- `assert`
unfoldable pub assert : {W : Type 0} → Bool → M W (Unit {0})
assert true = pure tt
assert false = fail assertion

-- The memory that `calloc` gives.
abbrev pub zeroed : ℕ → Option ℕ → Option Buffer
zeroed size none = none
zeroed size (some addr) = some (record { addr = addr; size = size; byte = no_byte })

module _ (L : Libc) where
  -- The services that `mock_init` sets.
  abbrev pub test_services : Services
  test_services = record (beside MockVars (mock_services L)) {
    locate_device_path = λ p guid path off. (mock_locate_device_path off, p);
    handle_protocol = λ p handle guid. (mock_handle_protocol, p);
    locate_handle_buffer = λ p guid. (mock_locate_handle_buffer, p);
    open_protocol = λ p handle guid agent. (mock_open_protocol, p);
    get_variable = λ p name guid size room. (mock_get_variable p.0 size room, p);
    get_next_variable_name = λ p size name vendor. (mock_get_next_variable_name name vendor, p);
    set_variable =
        λ p name guid attrs bytes. (success, (mock_set_variable p.0 (length bytes), p.1));
    query_capsule_capabilities = λ p capsules count. (mock_query_capsule_caps, p);
    update_capsule = λ p capsules count blocks. (mock_update_capsule, p);
  }

  -- `mock_init`, and the assignments to the static variables.
  unfoldable pub mock_init : M (W test_services) (Unit {0})
  mock_init = call λ p. (tt, (initial_vars, p.1))

  unfoldable pub set_mock : (MockVars → MockVars) → M (W test_services) (Unit {0})
  set_mock f = call λ p. (tt, (f p.0, p.1))

  -- `calloc`
  unfoldable pub calloc : ℕ → ℕ → M (W test_services) (Option Buffer)
  calloc count size = do
    r ← call λ p. inner (inner (λ s. L.calloc s count size)) p
    pure (zeroed (count * size) r)
