-- ===== src/System.antt =====
-- The system task of kernel/system.c: processes that end, and the end of their signals.
pub mod Defs
pub mod Loop
pub mod Leave
pub mod Exit
pub mod Endsig
mod Examples
