-- ===== src/Utils.antt =====
-- ext3u-utils/utils, the commands uls, urm and ustats.
pub mod Mode
pub mod Listing
pub mod Command
pub mod Mounts
pub mod Urm
pub mod Recover
pub mod Config
pub mod Main
mod Tests
