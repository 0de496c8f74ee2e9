-- ===== src/Undel.antt =====
-- ext3u/undel.c and undel.h, the undelete list of the ext3u file system.
pub mod Skip
pub mod Hash
pub mod Path
pub mod Layout
pub mod Ring
pub mod Disk
pub mod Copy
pub mod Super
pub mod Links
pub mod Search
pub mod Room
pub mod Save
pub mod Ioctl
pub mod Restore
pub mod Vfs
pub mod Target
pub mod Create
pub mod Urm
pub mod Dispatch
pub mod Samples
mod Tests
mod ListTests
mod SaveTests
