-- ===== src/Entry.antt =====
-- `efi_main`: its definitions (`Defs`), and what it hands to the firmware.
mod Defs
pub mod Blocks
pub mod Built
pub mod Commits
pub mod Handed
pub mod Total
pub mod Ends
pub mod Overflow
unfoldable pub use Defs.*
