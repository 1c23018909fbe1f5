-- ===== src/Efi.antt =====
-- The UEFI vocabulary of efi/efi-mock.h and efi/fwup-efi.h: status codes, GUIDs, the packed
-- structures by the offsets of their fields, and the device-path macros. The structures are those of
-- a 64-bit build. A GUID is its sixteen bytes in memory order, as `CompareGuid` reads them.
use fwupd_efi.Base.{
  ℕ, ◌+◌, ◌/◌, ◌%◌, ◌≡◌, refl, Bool, true, false, List, [], ◌∷◌, same, ◌==◌, ◌&&◌, arith,
}
use fwupd_efi.Base.Int.{ltb_ℤ, to_intn, pos}
use fwupd_efi.Memory.{poke, get16}

abbrev pub Name : Type 0
Name = List ℕ

abbrev pub Guid : Type 0
Guid = List ℕ

-- `EFIERR(a)`
abbrev pub efi_err : ℕ → ℕ
efi_err a = 0x8000000000000000 + a

abbrev pub success : ℕ
success = 0

abbrev pub invalid_parameter : ℕ
invalid_parameter = efi_err 2

abbrev pub unsupported : ℕ
unsupported = efi_err 3

abbrev pub buffer_too_small : ℕ
buffer_too_small = efi_err 5

abbrev pub out_of_resources : ℕ
out_of_resources = efi_err 9

abbrev pub not_found : ℕ
not_found = efi_err 14

-- `EFI_ERROR`: the status, read as a signed word, is negative.
unfoldable pub efi_error : ℕ → Bool
efi_error rc = ltb_ℤ (to_intn rc) (pos 0)

-- Exit codes of the functions that return an `EFI_STATUS` beside a value.
pub data Result (A : Type 0) : Type 0 where
  ok : A → Result A
  err : ℕ → Result A

-- `EFI_GUID`: the first three fields are little-endian numbers.
abbrev pub guid_of : ℕ → ℕ → ℕ → List ℕ → Guid
guid_of d1 d2 d3 d4 =
    d1 % 256
    ∷ d1 / 256 % 256
    ∷ d1 / 65536 % 256
    ∷ d1 / 16777216
    ∷ d2 % 256
    ∷ d2 / 256
    ∷ d3 % 256
    ∷ d3 / 256
    ∷ d4

abbrev pub empty_guid : Guid
empty_guid = guid_of 0 0 0 (0 ∷ 0 ∷ 0 ∷ 0 ∷ 0 ∷ 0 ∷ 0 ∷ 0 ∷ [])

abbrev pub fwupdate_guid : Guid
fwupdate_guid =
    guid_of 0x0abba7dc 0xe516 0x4167 (0xbb ∷ 0xf5 ∷ 0x4d ∷ 0x9d ∷ 0x1c ∷ 0x73 ∷ 0x94 ∷ 0x16 ∷ [])

abbrev pub ux_capsule_guid : Guid
ux_capsule_guid =
    guid_of 0x3b8c8162 0x188c 0x46a4 (0xae ∷ 0xc9 ∷ 0xbe ∷ 0x43 ∷ 0xf1 ∷ 0xd6 ∷ 0x56 ∷ 0x97 ∷ [])

abbrev pub shim_lock_guid : Guid
shim_lock_guid =
    guid_of 0x605dab50 0xe046 0x4300 (0xab ∷ 0xb6 ∷ 0x3d ∷ 0xd8 ∷ 0x10 ∷ 0xdd ∷ 0x8b ∷ 0x23 ∷ [])

abbrev pub simple_file_system_protocol : Guid
simple_file_system_protocol =
    guid_of 0x964e5b22 0x6459 0x11d2 (0x8e ∷ 0x39 ∷ 0x00 ∷ 0xa0 ∷ 0xc9 ∷ 0x69 ∷ 0x72 ∷ 0x3b ∷ [])

abbrev pub device_path_protocol : Guid
device_path_protocol =
    guid_of 0x09576e91 0x6d3f 0x11d2 (0x8e ∷ 0x39 ∷ 0x00 ∷ 0xa0 ∷ 0xc9 ∷ 0x69 ∷ 0x72 ∷ 0x3b ∷ [])

abbrev pub graphics_output_protocol : Guid
graphics_output_protocol =
    guid_of 0x9042a9de 0x23dc 0x4a38 (0x96 ∷ 0xfb ∷ 0x7a ∷ 0xde ∷ 0xd0 ∷ 0x80 ∷ 0x51 ∷ 0x6a ∷ [])

-- `CompareGuid(a, b) == 0`
abbrev pub guid_eq : Guid → Guid → Bool
guid_eq = same

-- `FWUP_UPDATE_INFO`: `sizeof` and the offsets of the fields that the program uses.
abbrev pub info_sizeof : ℕ
info_sizeof = 56

abbrev pub info_guid : ℕ
info_guid = 4

abbrev pub info_capsule_flags : ℕ
info_capsule_flags = 20

abbrev pub info_time_attempted : ℕ
info_time_attempted = 32

abbrev pub info_status : ℕ
info_status = 48

abbrev pub info_dp : ℕ
info_dp = 52

abbrev pub attempt_update : ℕ
attempt_update = 1

abbrev pub attempted : ℕ
attempted = 2

-- `EFI_CAPSULE_HEADER`
abbrev pub capsule_sizeof : ℕ
capsule_sizeof = 28

abbrev pub capsule_header_size : ℕ
capsule_header_size = 16

abbrev pub capsule_flags : ℕ
capsule_flags = 20

abbrev pub capsule_image_size : ℕ
capsule_image_size = 24

-- `UX_CAPSULE_HEADER`
abbrev pub ux_sizeof : ℕ
ux_sizeof = 16

abbrev pub ux_checksum : ℕ
ux_checksum = 1

abbrev pub ux_mode : ℕ
ux_mode = 4

-- `sizeof(EFI_DEVICE_PATH)`, the header of a device-path node
abbrev pub dp_sizeof : ℕ
dp_sizeof = 4

-- The device-path macros, at a node that starts at `i`.
unfoldable pub dp_type : (ℕ → ℕ) → ℕ → ℕ
dp_type m i = m i % 128

unfoldable pub dp_subtype : (ℕ → ℕ) → ℕ → ℕ
dp_subtype m i = m (i + 1)

-- `DevicePathNodeLength` puts two bytes together by `|`, which for bytes is the sum.
unfoldable pub dp_node_length : (ℕ → ℕ) → ℕ → ℕ
dp_node_length m i = get16 m (i + 2)

-- `IsDevicePathEnd`
unfoldable pub dp_is_end : (ℕ → ℕ) → ℕ → Bool
unfolding dp_type dp_subtype
dp_is_end m i = dp_type m i == 0x7f && dp_subtype m i == 0xff

-- `DevicePathType(dp) == MEDIA_DEVICE_PATH && DevicePathSubType(dp) == MEDIA_FILEPATH_DP`
unfoldable pub dp_is_file : (ℕ → ℕ) → ℕ → Bool
unfolding dp_type dp_subtype
dp_is_file m i = dp_type m i == 0x04 && dp_subtype m i == 0x04

-- `SetDevicePathEndNode`
unfoldable pub set_dp_end : (ℕ → ℕ) → ℕ → ℕ → ℕ
set_dp_end m i = poke (poke (poke (poke m i 0x7f) (i + 1) 0xff) (i + 2) 4) (i + 3) 0

pub dp_is_end-dp_is_file : (m : ℕ → ℕ) (i : ℕ) → dp_is_file m i ≡ true → dp_is_end m i ≡ false
unfolding dp_is_file dp_is_end
dp_is_end-dp_is_file m i h = ground arith

pub success-efi_error : efi_error success ≡ false
unfolding efi_error
success-efi_error = refl

pub invalid_parameter-efi_error : efi_error invalid_parameter ≡ true
unfolding efi_error
invalid_parameter-efi_error = refl

pub unsupported-efi_error : efi_error unsupported ≡ true
unfolding efi_error
unsupported-efi_error = refl

pub out_of_resources-efi_error : efi_error out_of_resources ≡ true
unfolding efi_error
out_of_resources-efi_error = refl
