-- ===== src/Lib.antt =====
-- Verification of the C programs of the repository SOI-laboratoria-2025Z: exercises in operating systems.
--
-- The parts and the files that model them:
--
-- Alloc models mem_management/minix_exercise5_completed/minix_usr/src/mm/alloc.c, the memory
-- allocator of MINIX with first fit and worst fit. Alloc/Table is the hole table, whose
-- `struct hole *` pointers are slot numbers (0 is NIL_HOLE), with `del_slot`, `merge`, `free_mem`
-- and the loops of `alloc_mem`. Alloc/Mm and Alloc/Swapin add the other static variables and the
-- fields of `mproc` that the swapper uses. Alloc/Chain, Edit, Merge, Release, Bite, Take and Worst
-- show that the pointer code does to the table what short functions do to a list of cells;
-- Alloc/Space and Carve say what these do to the free memory; Alloc/Memory, Policy, RoundTrip and
-- HoleMap hold the results. `phys_clicks` is a 32-bit unsigned number. NR_PROCS, LOW_USER, NO_MEM and
-- CLICK_SHIFT come from headers outside the repository and are the record `Config`. Walks along the
-- hole list have NR_HOLES + 1 rounds, which is enough since no slot stands twice in the two lists;
-- the loops over the processes have NR_PROCS + 1 rounds.
--
-- Disk models exercise6/minix_usr/virtual_disk/fs.c, a file system in one file. Disk/Defs holds the
-- super block and the commands, each of which loads the super block and saves it, so that the state
-- between commands is the super block and the data area of the disk file; Disk/Map is `show_map` and
-- Disk/History the dispatch of `main`. Names are the bytes before the end of a C string. Disk/Scan is
-- about the search for free blocks, Blocks about the blocks and bytes of files, Lookup about the
-- directory, Invariant about what commands keep, and Store, View and Outcome about copying and
-- deleting. All loops of fs.c are structural. Failures of the C library other than a missing source or
-- disk are left out.
--
-- Semafors models semafors/: the buffers of buffer.c, the semaphores of my_semaphore.c, the items of
-- produce_making.c and the seven threads of main.c. Semafors/Defs has a buffer with its semaphores and
-- its producer as a `Station`, the three consumers as `cook`, and one step for each call of a thread;
-- a `Run` interleaves the threads in any order, which is what the scheduler of the system may do.
-- Window is about the ring buffer, Roles and Fits about the semaphores of one buffer, Totals, Counts and Inv
-- about all of them together, and Safety and Progress hold the results. The four producers are one
-- function of the kind of item, and the three consumers one of the filling. The sleeps and the end of
-- `main` are left out.
--
-- Monitors models monitors/, the same exercise with monitors: monitor.c, produce_making.c and main.c.
-- Monitors/Defs has one step for each statement of `monitor_put` and `monitor_get`, on the ring buffer of
-- Semafors/Defs, whose code monitor.c has too; an `Action` is a statement of a thread, a signal with the
-- consumer that it wakes, or a wake-up without a signal. Roles, Puts, Wakes, Gets and Signals are about one monitor, Inv
-- about all of them together with Semafors/Totals and Counts, and Safety and Progress hold the results.
--
-- Kernel models the scheduler of minix_exercise2_completed/minix_usr/src/kernel/proc.c and proc.h.
-- Kernel/Defs has the process table, whose `struct proc *` pointers are slot numbers (0 is
-- NIL_PROC), the queues TASK_Q, SERVER_Q, USER_Q and those of the three groups, and `pick_proc`;
-- Kernel/Sched has `ready`, `unready`, `sched`, aging and `handle_clock_tick`. Walks along a queue
-- have one round more than there are processes. Chain and Pick are about the next process,
-- Estimate and Insert about the shortest-job-first queue of group 3, Rotate and Enqueue about the
-- queues of groups 1 and 2, Remove and Unready about taking a process out of a group's queue,
-- Aging about the waits of group 2, Serving and Servers about SERVER_Q, UnreadyFrom, ReadyQueues and Total about `ready` and `unready` of any process;
-- KeepFlags says that all of it leaves `p_flags` alone.
--
-- Messages models the rest of proc.c, and `cause_sig` and `inform` of kernel/system.c. Messages/Defs has the
-- fields of the process table for messages, apart from those of Kernel/Defs, and the messages in the memory
-- of each process; buffers at different addresses are taken as disjoint. Messages/Calls has `sys_call`,
-- `mini_send` and `mini_rec`, and Messages/Interrupts `interrupt`, `unhold` and `cause_sig`. Process numbers stand as slots, since the table of
-- `pproc_addr` is set up outside of the repository; the layout of a message, ANY, the numbers of MM, FS and
-- HARDWARE, CLICK_SHIFT and MESS_SIZE are the record `Config`. Loops along caller queues and senders have
-- NR_TASKS + NR_PROCS + 1 rounds. Pigeons and Path are about the processes that send to each other, Queues,
-- Joined and Left about the caller queues, Runs about the calls of the scheduler, Block, Deliver, Accept, Tell, Inform
-- and Wait about the parts of the calls, and Send and Receive hold the results. `CopyMess` is taken as the C version of
-- `cp_mess` in proc.c, which stands under M68000, since the INTEL one that the macro calls is outside of the
-- repository. Elsewhere the INTEL branches are followed. Interrupts that come between the steps of one kernel function are left out.
--
-- Clock models kernel/clock.c. Clock/Defs has its variables, the calls of `clock_task`, `clock_handler`, which
-- runs on each tick, and a pass of `syn_alrm_task`; it uses `cause_sig`, `mini_send` and `interrupt` of
-- Messages and `sched` and `handle_clock_tick` of Kernel. The functions of tasks that an alarm calls are the
-- parameter `call_function`; they change nothing of the clock task. Times in ticks are 32-bit longs: numbers
-- below 2 ^ 32 that wrap around, which `rank` puts into the order of signed numbers. Alarms is about setting an
-- alarm, Fire, Loop and Due about the loop over the alarms that are due, and Ticks about the time of day. The
-- hardware timer with `init_clock`, `clock_stop` and the `milli_` functions, the terminal and the printer
-- are left out.
--
-- Setgroup models `do_setgroup` of minix_exercise2_completed/minix_usr/src/mm/misc.c and the `do_setgroup` of
-- kernel/system.c that it calls. Outcome is about the results of the call, and Stays about the queues
-- of the scheduler after it. The other calls of misc.c are not modelled.
--
-- System models `do_xit`, `do_kill` and `do_endsig` of kernel/system.c on the state of Clock with the times of
-- children. Loop and Leave are about the loop that takes a process out of the caller queue in which it waits,
-- Exit about `do_xit`, and Endsig about `do_endsig`. Assertions are taken as switched on. The loops have NR_TASKS + NR_PROCS + 1
-- rounds, as those of Messages. The calls of the system task that copy memory, set up processes or trace
-- them are not modelled.
pub mod Base
pub mod Alloc
pub mod Clock
pub mod Disk
pub mod Kernel
pub mod Messages
pub mod Monitors
pub mod Semafors
pub mod Setgroup
pub mod System
