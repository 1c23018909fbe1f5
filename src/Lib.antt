-- ===== src/Lib.antt =====
-- Verification of the fwupd EFI binary (efi/), the program that the firmware boots to install the
-- updates that fwupd left in UEFI variables: it enumerates the variables, validates them, reads the
-- capsule files that they name, hands the capsules to the firmware, and resets the machine.
--
-- The parts, from the bottom up, with the code that each models:
-- - Base: library names, Boolean tests, signed integers.
-- - Memory, Efi: buffers and their bytes; status codes, GUIDs, offsets of the packed structures and
--   the device-path macros (efi/efi-mock.h, efi/fwup-efi.h).
-- - Firmware: the calls of the firmware and of gnu-efi, as a record that everything takes as a
--   parameter; the monad of the program's steps; and ways to reason about a program: Keeps (a
--   predicate on the world is kept), Leads (what holds when a run returns), Total and Reaches (a run
--   returns, from worlds with a predicate), and Quiet (the calls that hand nothing to the firmware).
--   Firmware.Lawful, Firmware.Sound and Firmware.Store say what theorems rely on of the services, from
--   the UEFI specification: Firmware.Sound for a whole run, with memory that lasts for small blocks; in
--   Firmware.Store the variables are a map, which the services keep.
-- - Variable: efi/fwup-efi.c, where fwup_get_variable is `get_variable_with`, fwup_set_variable is
--   `set_variable` and fwup_delete_variable is `delete_variable_with`.
-- - Debug: efi/fwup-debug.c, where fwup_log is `fwup_log`; fwup_log and fwup_delete_variable call one
--   another, and the knot is tied here.
-- - Common: efi/fwup-common.c, pages, pool memory, time, and fwup_read_file as `read_file`.
-- - DevicePath: fwup_dp_size of efi/fwupdate.c; DevicePath.Spec says what a device path is.
-- - Update: fwup_populate_update_info and fwup_populate_update_table of efi/fwupdate.c.
-- - OpenFile: fwup_search_file and fwup_open_file of efi/fwupdate.c.
-- - Capsule: the checks of a capsule, the UX capsule's header and the terminator, of efi/fwupdate.c.
-- - Apply: fwup_add_update_capsule, fwup_apply_capsules and fwup_set_update_statuses.
-- - Entry: fwup_debug_hook and efi_main.
-- - Harness: efi/efi-mock.h and efi/efi-mock-funcs.h, which surround the code in the self tests and
--   the fuzz targets, over a C library; and the targets of efi/fwup-fuzz-capsule.c and
--   efi/fwup-fuzz-update-info.c. A call of a service that a target leaves NULL sets a flag.
-- - Selftest: efi/fwup-selftest.c, its mock services and their static variables, every test, and main
--   with its two counters. A failed assert is a fault.
-- - Mock, Tests, Witnesses: services to run the program on, a run, and the theorems at concrete inputs.
--
-- How the code is modelled. A function is a function into the monad `M`: it threads a world, which
-- holds the state of the services, the static variables of efi/fwup-debug.c, and a trace of the calls
-- that others can see, newest first, which the program does not read. A run returns a value or
-- faults: by following a NULL pointer, by an access outside a buffer, by an assert of a self test
-- that fails, or by running out of fuel. Out parameters are results. The build is the one for 64
-- bits, except that the width of a pointer is a field of the services where fwup_malloc_raw tests it,
-- and the argument `fixed` of a function says whether the target is one of aarch64 and riscv64. A
-- GUID is its sixteen bytes; a string is the list of its units without the NUL; bytes are numbers,
-- and those of a length are put together by a sum. Of a message the format, the function's name and
-- the arguments are kept, not the file and line. Cleanup attributes are written out at the ends of
-- their scopes.
--
-- Fuel. fwup_dp_size has one round more than the limit, and each round takes four bytes off it.
-- fwup_log has two levels, since it calls itself only through fwup_delete_variable, which it calls
-- once. fwup_read_file has 43 rounds of doubling, after which the size of the buffer is no number of
-- 64 bits. A walk over a device path has one round more than the buffer's size, since a node of
-- length 0 would keep the code in its place. The enumeration of the variables takes its fuel as an
-- argument, since the code has no bound there: firmware that goes on returning names, or that goes on
-- answering EFI_BUFFER_TOO_SMALL, keeps it going; one round more than the names that may follow the
-- empty one is enough.
--
-- Not modelled: the firmware, gnu-efi and the C library, which are parameters; the pool memory
-- of the strings that DevicePathToStr of gnu-efi allocates, which are given by their units alone; what
-- the self tests print; start-up code, linker scripts, and the scripts of the build.
pub mod Base
pub mod Memory
pub mod Efi
pub mod Firmware
pub mod Variable
pub mod Debug
pub mod DevicePath
pub mod Common
pub mod Capsule
pub mod Update
pub mod OpenFile
pub mod Apply
pub mod Entry
pub mod Harness
pub mod Selftest
pub mod Mock
mod Tests
mod Witnesses
