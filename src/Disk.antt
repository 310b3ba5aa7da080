-- ===== src/Disk.antt =====
-- exercise6/minix_usr/virtual_disk/fs.c: a virtual disk in one file, with a directory of one level and
-- files in consecutive blocks.
pub mod Defs
pub mod Scan
pub mod Blocks
pub mod Lookup
pub mod Invariant
pub mod Store
pub mod View
pub mod History
pub mod Outcome
pub mod Map
mod Examples
