-- ===== src/Clock.antt =====
-- The clock task of the MINIX kernel in kernel/clock.c.
pub mod Defs
pub mod Alarms
pub mod Fire
pub mod Loop
pub mod Due
pub mod Ticks
mod Examples
