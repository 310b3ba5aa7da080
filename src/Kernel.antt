-- ===== src/Kernel.antt =====
-- The scheduler of the MINIX kernel in kernel/proc.c, with its three groups of user processes.
pub mod Defs
pub mod Sched
pub mod Chain
pub mod Pick
pub mod Estimate
pub mod Insert
pub mod Rotate
pub mod Enqueue
pub mod Remove
pub mod Unready
pub mod Serving
pub mod UnreadyFrom
pub mod Servers
pub mod ReadyQueues
pub mod Total
pub mod Aging
pub mod KeepFlags
mod Examples
