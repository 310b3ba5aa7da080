-- ===== src/Alloc.antt =====
-- mem_management/minix_exercise5_completed/minix_usr/src/mm/alloc.c: the hole table, with its two
-- linked lists in the slots of one array, and the operations that take and give memory.
pub mod Table
pub mod Chain
pub mod Edit
pub mod Merge
pub mod Release
pub mod Space
pub mod Bite
pub mod Take
pub mod Worst
pub mod Carve
pub mod Mm
pub mod Swapin
pub mod Memory
pub mod Policy
pub mod RoundTrip
pub mod HoleMap
mod Examples
