-- ===== src/Setgroup/Examples.antt =====
-- `do_setgroup` at three user processes behind two tasks.
use soi_laboratoria_2025z.Base.{
  ℕ, ◌≡◌, refl, true, false, List, [], ◌∷◌, arith, ◌==◌, if◌then◌else◌, ok, Returns,
}
use soi_laboratoria_2025z.Kernel.Defs.{
  nil_proc, ppri_task, ppri_user, Priority, Flags, Proc, task_q, server_q, user_q, g1, g2, g3,
  State,
}
use soi_laboratoria_2025z.Setgroup.{MmProc, esrch, is_accepted, kernel_setgroup, do_setgroup}
use soi_laboratoria_2025z.Setgroup.Outcome.{SetOutcome, do_setgroup-Outcome}
use soi_laboratoria_2025z.Setgroup.Stays.{Lost, kernel_setgroup-Lost}

abbrev no_flags : Flags
no_flags = record {
  no_map = false;
  sending = false;
  receiving = false;
  pending = false;
  sig_pending = false;
  p_stop = false;
}

abbrev a_proc : Priority → (next group : ℕ) → Proc
a_proc priority next group = record {
  p_priority = priority;
  p_flags = no_flags;
  stack_ok = true;
  p_nextready = next;
  sched_group = group;
  cpu_estimate = 100;
  wait_ticks = 0;
  rr_counter = 0;
}

-- Processes 3 and 4 are ready in group 1 and process 5 in group 2; the task 1 runs.
abbrev three_users : State
three_users = record {
  proc = λ p.
      if p == 3
      then a_proc ppri_user 4 1
      else if p == 4
      then a_proc ppri_user nil_proc 1
      else if p == 5
      then a_proc ppri_user nil_proc 2
      else a_proc ppri_task nil_proc 0;
  queue = λ q. elim q [
    | task_q ↦ record { head = 1; tail = 1 }
    | server_q ↦ record { head = nil_proc; tail = nil_proc }
    | user_q ↦ record { head = nil_proc; tail = nil_proc }
    | g1 ↦ record { head = 3; tail = 4 }
    | g2 ↦ record { head = 5; tail = 5 }
    | g3 ↦ record { head = nil_proc; tail = nil_proc }
  ];
  proc_ptr = 1;
  bill_ptr = 1;
  idle = 2;
  switching = false;
  aging_counter = 0;
}

abbrev mm_table : List MmProc
mm_table =
    record { mp_pid = 1; mp_sched_group = 1 }
    ∷ record { mp_pid = 12; mp_sched_group = 1 }
    ∷ record { mp_pid = 14; mp_sched_group = 2 }
    ∷ []

unknown_pid : do_setgroup 2 0 13 3 40 mm_table three_users ≡ ok (esrch, mm_table) three_users
unfolding do_setgroup
unknown_pid = refl

do_setgroup-Outcome_example :
    Returns
      (SetOutcome 2 0 12 3 40 mm_table three_users)
      (do_setgroup 2 0 12 3 40 mm_table three_users)
do_setgroup-Outcome_example = do_setgroup-Outcome 2 0 12 3 40 mm_table three_users

accepted : is_accepted 2 0 ≡ true
unfolding is_accepted
accepted = refl

kernel_setgroup-Lost_example :
    Returns (Lost 3 4 1 2 (3 ∷ 4 ∷ [])) (kernel_setgroup 4 2 0 three_users)
kernel_setgroup-Lost_example =
    kernel_setgroup-Lost three_users 3 4 2 0 (3 ∷ 4 ∷ []) (5 ∷ []) (λ h. cc) refl accepted (λ h. cc)
      ((refl, (λ h. cc), (refl, (λ h. cc), refl)), refl) ((refl, (λ h. cc), refl), refl)
      ((λ h. cc), tt) (omega arith)
