-- ===== src/Firmware.antt =====
-- What surrounds the program: the boot and runtime services and the gnu-efi functions that it calls,
-- as a parameter (`Services`); the monad of the program's steps (`Monad`); and its calls (`Calls`).
pub mod Services
pub mod Monad
pub mod Calls
pub mod Keeps
pub mod Leads
pub mod Live
pub mod Paged
pub mod Total
pub mod Reaches
pub mod Lawful
pub mod Sound
pub mod Store
pub mod Beside
pub mod Quiet
