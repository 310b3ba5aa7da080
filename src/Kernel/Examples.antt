-- ===== src/Kernel/Examples.antt =====
-- Runs of the scheduler of kernel/proc.c, and the theorems at concrete process tables.
use soi_laboratoria_2025z.Base.{
  ℕ, ◌≡◌, refl, inl, true, false, [], ◌∷◌, ◌++◌, arith, ◌==◌, if◌then◌else◌, Returns,
}
use soi_laboratoria_2025z.Kernel.Defs.{
  nil_proc, ppri_user, Flags, Proc, Queue, task_q, server_q, user_q, g1, g2, g3, State, pick_proc,
}
use soi_laboratoria_2025z.Kernel.Sched.{update_aging_for_group2, unready_from_group, ready}
use soi_laboratoria_2025z.Kernel.Pick.{Picked, pick_proc-Picked}
use soi_laboratoria_2025z.Kernel.Sched.{sched}
use soi_laboratoria_2025z.Kernel.Remove.{without}
use soi_laboratoria_2025z.Kernel.Unready.{unready_from_group-InQueue}
use soi_laboratoria_2025z.Kernel.Aging.{
  Aged, AllGrow, WaitsBounded, update_aging_for_group2-AllGrow,
}
use soi_laboratoria_2025z.Kernel.Chain.{Chain}
use soi_laboratoria_2025z.Kernel.Rotate.{sched-rotates}
use soi_laboratoria_2025z.Kernel.Enqueue.{InQueue, fifo_queue, ready-InQueue}
use soi_laboratoria_2025z.Kernel.Estimate.{insert_sorted}
use soi_laboratoria_2025z.Kernel.Insert.{SortedQueue, ready-SortedQueue}

abbrev no_flags : Flags
no_flags = record {
  no_map = false;
  sending = false;
  receiving = false;
  pending = false;
  sig_pending = false;
  p_stop = false;
}

abbrev user_proc : (next group estimate wait : ℕ) → Proc
user_proc next group estimate wait = record {
  p_priority = ppri_user;
  p_flags = no_flags;
  stack_ok = true;
  p_nextready = next;
  sched_group = group;
  cpu_estimate = estimate;
  wait_ticks = wait;
  rr_counter = 0;
}

abbrev empty_queue : Queue
empty_queue = record { head = nil_proc; tail = nil_proc }

-- Processes 1 and 2 in group 2, which have waited 10 and 30 ticks; 3 and 4 in group 3.
abbrev four_users : State
four_users = record {
  proc = λ p.
      if p == 1
      then user_proc 2 2 0 10
      else if p == 2
      then user_proc 0 2 0 30
      else if p == 3
      then user_proc 0 3 50 0
      else user_proc 0 3 20 0;
  queue = λ q. elim q [
    | task_q ↦ empty_queue
    | server_q ↦ empty_queue
    | user_q ↦ empty_queue
    | g1 ↦ empty_queue
    | g2 ↦ record { head = 1; tail = 2 }
    | g3 ↦ record { head = 3; tail = 3 }
  ];
  proc_ptr = 5;
  bill_ptr = 5;
  idle = 5;
  switching = false;
  aging_counter = 0;
}

pick_proc-Picked_example :
    Returns (λ _ s'. Picked four_users (1 ∷ 2 ∷ []) s') (pick_proc 3 four_users)
pick_proc-Picked_example =
    pick_proc-Picked four_users 3 (1 ∷ 2 ∷ []) (refl, (λ h. cc), (refl, (λ h. cc), refl))
      (omega arith)

ready-SortedQueue_example :
    Returns
      (λ _ s'. SortedQueue s' (insert_sorted four_users.proc 4 (3 ∷ [])))
      (ready 2 4 four_users)
ready-SortedQueue_example =
    ready-SortedQueue four_users 2 4 (3 ∷ []) (λ h. cc) refl refl
      ((refl, (λ h. cc), refl), (tt, tt)) (tt, tt) ((λ h. cc), tt) (omega arith)

-- Processes 1 and 2 in group 1, of which 1 runs, and 3 in no queue.
abbrev two_rounds : State
two_rounds = record {
  proc = λ p.
      if p == 1 then user_proc 2 1 0 0 else if p == 2 then user_proc 0 1 0 0 else user_proc 0 1 0 0;
  queue = λ q. elim q [
    | task_q ↦ empty_queue
    | server_q ↦ empty_queue
    | user_q ↦ empty_queue
    | g1 ↦ record { head = 1; tail = 2 }
    | g2 ↦ empty_queue
    | g3 ↦ empty_queue
  ];
  proc_ptr = 1;
  bill_ptr = 1;
  idle = 5;
  switching = false;
  aging_counter = 0;
}

sched-rotates_example :
    Returns
      (λ _ s'.
        Chain s'.proc (s'.queue g1).head (2 ∷ ([] ++ (1 ∷ [])))
        × ((s'.queue g1).tail ≡ 1)
        × (s'.proc_ptr ≡ 2)
        × (s'.bill_ptr ≡ 2)
        × ((s'.proc 1).rr_counter ≡ 0))
      (sched 4 two_rounds)
sched-rotates_example =
    sched-rotates two_rounds 4 1 2 [] refl refl refl (refl, (λ h. cc), (refl, (λ h. cc), refl))
      (((λ h. cc), tt), (tt, tt)) refl refl refl

ready-InQueue_example :
    Returns
      (λ _ s'. InQueue s' (fifo_queue (two_rounds.proc 3).sched_group) ((1 ∷ 2 ∷ []) ++ (3 ∷ [])))
      (ready 4 3 two_rounds)
ready-InQueue_example =
    ready-InQueue two_rounds 4 3 (1 ∷ 2 ∷ []) (λ h. cc) refl (inl refl)
      ((refl, (λ h. cc), (refl, (λ h. cc), refl)), refl) (((λ h. cc), tt), (tt, tt))
      ((λ h. cc), ((λ h. cc), tt))

unready_from_group-InQueue_example :
    Returns (λ _ s'. InQueue s' g1 (without 2 (1 ∷ 2 ∷ []))) (unready_from_group 4 2 g1 two_rounds)
unready_from_group-InQueue_example =
    unready_from_group-InQueue two_rounds 4 2 g1 (1 ∷ 2 ∷ []) (λ h. cc)
      ((refl, (λ h. cc), (refl, (λ h. cc), refl)), refl) (((λ h. cc), tt), (tt, tt)) (omega arith)

four_users-WaitsBounded : WaitsBounded four_users
four_users-WaitsBounded a = ground arith

update_aging_for_group2-AllGrow_example :
    Returns
      (λ _ s'. Aged four_users s' × AllGrow four_users s' (1 ∷ 2 ∷ []))
      (update_aging_for_group2 5 four_users)
update_aging_for_group2-AllGrow_example =
    update_aging_for_group2-AllGrow four_users 5 (1 ∷ 2 ∷ [])
      (refl, (λ h. cc), (refl, (λ h. cc), refl)) (omega arith) four_users-WaitsBounded
