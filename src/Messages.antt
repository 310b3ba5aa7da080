-- ===== src/Messages.antt =====
-- The messages, interrupts and kernel signals of the MINIX kernel in kernel/proc.c and kernel/system.c.
pub mod Defs
pub mod Calls
pub mod Interrupts
pub mod Pigeons
pub mod Path
pub mod Queues
pub mod Joined
pub mod Runs
pub mod Block
pub mod Deliver
pub mod Send
pub mod Left
pub mod Search
pub mod Same
pub mod Accept
pub mod Tell
pub mod Inform
pub mod Wait
pub mod Receive
pub mod Examples
pub mod Signals
