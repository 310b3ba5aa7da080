-- ===== src/Messages/Signals.antt =====
-- A process table in which MM waits for a message while a user process has a signal, of which it is told.
use soi_laboratoria_2025z.Base.{true, false, List, [], ◌∷◌, ◌==◌, if◌then◌else◌}
use soi_laboratoria_2025z.Kernel.Defs.{
  Ptr, nil_proc, ppri_task, ppri_server, ppri_user, QueueId, task_q, server_q, user_q, g1, g2, g3,
  State,
}
use soi_laboratoria_2025z.Kernel.ReadyQueues.{ReadyQueues}
use soi_laboratoria_2025z.Messages.Defs.{Kernel}
use soi_laboratoria_2025z.Messages.Examples.{flags, process, talk_of, queue_of, kernel_of}

-- MM runs, FS waits, and the user process has a pending signal.
abbrev mm_runs : State
mm_runs = record {
  proc = λ p.
      if p == 4
      then process ppri_user 1 (record (flags false false) { pending = true })
      else if p == 3
      then process ppri_server 0 (flags false true)
      else if p == 2
      then process ppri_server 0 (flags false false)
      else process ppri_task 0 (flags false false);
  queue = λ q. elim q [
    | task_q ↦ queue_of nil_proc
    | server_q ↦ queue_of 2
    | user_q ↦ queue_of nil_proc
    | g1 ↦ queue_of nil_proc
    | g2 ↦ queue_of nil_proc
    | g3 ↦ queue_of nil_proc
  ];
  proc_ptr = 2;
  bill_ptr = 4;
  idle = 1;
  switching = false;
  aging_counter = 0;
}

abbrev signalled : Kernel
signalled =
    record (kernel_of mm_runs (λ p.
      if p == 4 then record (talk_of nil_proc 0) { p_pending = 9 ∷ [] } else talk_of nil_proc 0)) {
        sig_procs = 1;
      }

abbrev only_mm : QueueId → List Ptr
only_mm q = elim q [ task_q ↦ [] | server_q ↦ 2 ∷ [] | user_q ↦ [] | g1 ↦ [] | g2 ↦ [] | g3 ↦ [] ]
