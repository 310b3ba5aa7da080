-- ===== src/Messages/Examples.antt =====
-- A process table with a user process, MM and FS, and the theorems on messages at it.
use soi_laboratoria_2025z.Base.{
  ℕ, ◌≡◌, inl, inr, refl, Bool, true, false, List, [], ◌∷◌, arith, ◌==◌, if◌then◌else◌, ok,
  Bool-cases,
}
use soi_laboratoria_2025z.Kernel.Defs.{
  Ptr, nil_proc, ppri_task, ppri_server, ppri_user, Priority, Flags, Proc, Queue, task_q, server_q,
  user_q, g1, g2, g3, State,
}
use soi_laboratoria_2025z.Messages.Defs.{Talk, Kernel, Config, is_locked}
use soi_laboratoria_2025z.Messages.Path.{SendPath, NoCycle, member, is_locked-decides}
use soi_laboratoria_2025z.Messages.Queues.{Callers}

-- Slot 1 is HARDWARE, 2 is MM, 3 is FS and 4 a user process of group 1.
abbrev pub small : Config
small = record {
  procs = 4;
  tasks = 1;
  any = 31439;
  hardware = 1;
  mm = 2;
  fs = 3;
  hard_int = 2;
  ksig = 60;
  click = 256;
  mess_size = 36;
  gap_messages = false;
}

abbrev pub flags : (sending receiving : Bool) → Flags
flags s r = record {
  no_map = false;
  sending = s;
  receiving = r;
  pending = false;
  sig_pending = false;
  p_stop = false;
}

abbrev pub process : Priority → (group : ℕ) → Flags → Proc
process pri group f = record {
  p_priority = pri;
  p_flags = f;
  stack_ok = true;
  p_nextready = nil_proc;
  sched_group = group;
  cpu_estimate = 0;
  wait_ticks = 0;
  rr_counter = 0;
}

abbrev pub talk_of : (callerq sendto : ℕ) → Talk
talk_of q d = record {
  p_int_blocked = false;
  p_int_held = false;
  p_nextheld = nil_proc;
  p_callerq = q;
  p_sendlink = nil_proc;
  p_messbuf = 512;
  p_getfrom = 0;
  p_sendto = d;
  p_pending = [];
  p_pendcount = 0;
  data_vir = 0;
  data_len = 16;
  stack_vir = 16;
  stack_len = 4;
}

abbrev pub queue_of : Ptr → Queue
queue_of p = record { head = p; tail = p }

-- The process `running` runs; the flags of FS and of the user process are given.
abbrev pub sched_of : (running : ℕ) → (fs_flags user_flags : Flags) → State
sched_of running f u = record {
  proc = λ p.
      if p == 4
      then process ppri_user 1 u
      else if p == 3
      then process ppri_server 0 f
      else if p == 2
      then process ppri_server 0 (flags false true)
      else process ppri_task 0 (flags false false);
  queue = λ q. elim q [
    | task_q ↦ queue_of nil_proc
    | server_q ↦ queue_of (if running == 3 then 3 else nil_proc)
    | user_q ↦ queue_of nil_proc
    | g1 ↦ queue_of (if running == 4 then 4 else nil_proc)
    | g2 ↦ queue_of nil_proc
    | g3 ↦ queue_of nil_proc
  ];
  proc_ptr = running;
  bill_ptr = 4;
  idle = 1;
  switching = false;
  aging_counter = 0;
}

abbrev pub kernel_of : State → (Ptr → Talk) → Kernel
kernel_of s t = record {
  sched = s;
  talk = t;
  memory = λ p a. record { m_source = 0; m_type = p; m_body = a ∷ [] };
  held_head = nil_proc;
  held_tail = nil_proc;
  reentered = false;
  sig_procs = 0;
}

-- The user process runs, and FS is busy.
abbrev calling : Kernel
calling = kernel_of (sched_of 4 (flags false false) (flags false false)) (λ p. talk_of nil_proc 0)

-- The user process is blocked sending to FS, which runs.
abbrev blocked : Kernel
blocked =
    kernel_of (sched_of 3 (flags false false) (flags true false)) (λ p.
      if p == 3 then talk_of 4 0 else if p == 4 then talk_of nil_proc 3 else talk_of nil_proc 0)

abbrev only_fs : Ptr → List Ptr
only_fs d = if d == 3 then 4 ∷ [] else []

blocked-Callers : Callers small blocked only_fs
blocked-Callers = record {
  links = λ d t. elim (Bool-cases (d == 3)) [
    | inl e ↦ let h : d ≡ 3 = ground arith in rw h (refl, (omega arith, omega arith), refl)
    | inr n ↦ rw n (elim (Bool-cases (d == 4)) [ inl e ↦ rw e refl | inr m ↦ rw m refl ])
  ];
  once = λ d t. elim (Bool-cases (d == 3)) [ inl e ↦ rw e (tt, tt) | inr n ↦ rw n tt ];
  sends = λ d x t. elim (Bool-cases (d == 3)) [
    | inl e ↦
        let h : d ≡ 3 = ground arith in
        rw h (λ i. elim i [ inl g ↦ rw g (refl, refl) | inr none ↦ absurd none ])
    | inr n ↦ rw n (λ i. absurd i)
  ];
  waits = λ x t s. let h : x ≡ 4 = ground (arith, s) in rw h (inl refl);
}

blocked-NoCycle : NoCycle small blocked
blocked-NoCycle p t = elim (Bool-cases (p == 4)) [
  | inl e ↦
      let h : p ≡ 4 = ground arith in (3 ∷ [], rw h (refl, refl, (omega arith, omega arith), refl))
  | inr n ↦ ([], ground (arith, n))
]

is_locked-decides_example :
    (qs : List Ptr) × SendPath small blocked 4 qs
    × (is_locked small 5 2 4 blocked ≡ ok (member 2 qs) blocked)
is_locked-decides_example =
    is_locked-decides small blocked 2 4 blocked-NoCycle (omega arith, omega arith)
