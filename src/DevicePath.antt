-- ===== src/DevicePath.antt =====
-- `fwup_dp_size` of efi/fwupdate.c: the length of a device path in a variable, within a limit.
pub mod Spec
pub mod Size
use fwupd_efi.Base.{ℕ, zero, suc, ◌+◌, Bool, ◌||◌, leb, ltb, if◌then◌else◌}
use fwupd_efi.Base.Int.{ℤ, pos, negsuc, pos_part, neg_part, ◌+ℤ◌, ◌-ℤ◌, ltb_ℤ}
use fwupd_efi.Memory.{Buffer}
use fwupd_efi.Efi.{dp_node_length, dp_is_end}
use fwupd_efi.Firmware.Monad.{Checked, value, fault, out_of_bounds, no_fuel}

-- The loop, with the node's offset in the buffer for the pointer `dp`. Each node's four header bytes
-- must lie in the buffer, or reading them is a fault.
dp_loop : ℕ → Buffer → ℕ → ℤ → ℤ → Checked ℤ
dp_loop zero b dp limit ret = fault no_fuel
dp_loop (suc fuel) b dp limit ret =
    let nodelen = dp_node_length b.byte dp in
    let rest = dp_loop fuel b (dp + nodelen) (limit -ℤ pos nodelen) (ret +ℤ pos nodelen) in
    if ltb_ℤ limit (pos 4)
    then value (negsuc 0)
    else if leb (dp + 4) b.size
    then (if ltb nodelen 4 || ltb_ℤ limit (pos nodelen)
        then value (negsuc 0)
        else if dp_is_end b.byte dp
        then value (ret +ℤ pos nodelen)
        else rest)
    else fault out_of_bounds

-- Every round takes at least four bytes off the limit.
unfoldable pub dp_size : Buffer → ℕ → ℤ → Checked ℤ
unfolding dp_loop
dp_size b dp limit = dp_loop (suc (pos_part limit)) b dp limit (pos 0)
