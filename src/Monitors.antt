-- ===== src/Monitors.antt =====
-- The bounded buffers with monitors of monitors/: the monitor, its threads and their interleavings.
pub mod Defs
pub mod Roles
pub mod Puts
pub mod Wakes
pub mod Gets
pub mod Signals
pub mod Inv
pub mod Safety
pub mod Progress
mod Examples
