-- ===== src/Semafors.antt =====
-- The bounded buffers with semaphores of semafors/: items, buffers, threads and their interleavings.
pub mod Defs
pub mod Window
pub mod Roles
pub mod Fits
pub mod Totals
pub mod Counts
pub mod Inv
pub mod Progress
pub mod Safety
mod Examples
