-- ===== src/Clock/Examples.antt =====
-- The clock of kernel/clock.c at a small process table.
use soi_laboratoria_2025z.Base.{
  ℕ, ◌+◌, ◌-◌, ◌/◌, ◌%◌, ◌≡◌, ◌≢◌, inr, refl, true, false, [], ◌∷◌, arith, ◌==◌, if◌then◌else◌, ok,
  and_then, Returns,
}
use soi_laboratoria_2025z.Kernel.Defs.{Ptr, nil_proc, ppri_task, Proc, Flags}
use soi_laboratoria_2025z.Messages.Defs.{Kernel, Talk}
use soi_laboratoria_2025z.Clock.Defs.{
  Clock, Setting, signal, alarm_task, rank, common_setalarm, check_alarms, do_get_time, do_set_time,
  time_mod,
}
use soi_laboratoria_2025z.Clock.Alarms.{AlarmAt, IsNext, common_setalarm-IsNext}
use soi_laboratoria_2025z.Clock.Fire.{with_alarms}
use soi_laboratoria_2025z.Clock.Loop.{due, still_set, fire_all}
use soi_laboratoria_2025z.Clock.Due.{check_alarms-fires}
use soi_laboratoria_2025z.Clock.Ticks.{do_set_time-do_get_time}

abbrev flags : Flags
flags = record {
  no_map = false;
  sending = false;
  receiving = false;
  pending = false;
  sig_pending = false;
  p_stop = false;
}

abbrev a_task : Proc
a_task = record {
  p_priority = ppri_task;
  p_flags = flags;
  stack_ok = true;
  p_nextready = nil_proc;
  sched_group = 0;
  cpu_estimate = 0;
  wait_ticks = 0;
  rr_counter = 0;
}

abbrev quiet : Talk
quiet = record {
  p_int_blocked = false;
  p_int_held = false;
  p_nextheld = nil_proc;
  p_callerq = nil_proc;
  p_sendlink = nil_proc;
  p_messbuf = 0;
  p_getfrom = 0;
  p_sendto = 0;
  p_pending = [];
  p_pendcount = 0;
  data_vir = 0;
  data_len = 16;
  stack_vir = 16;
  stack_len = 4;
}

abbrev kernel : Kernel
kernel = record {
  sched = record {
    proc = λ p. a_task;
    queue = λ q. record { head = nil_proc; tail = nil_proc };
    proc_ptr = 1;
    bill_ptr = 1;
    idle = 1;
    switching = false;
    aging_counter = 0;
  };
  talk = λ p. quiet;
  memory = λ p a. record { m_source = 0; m_type = 0; m_body = [] };
  held_head = nil_proc;
  held_tail = nil_proc;
  reentered = false;
  sig_procs = 0;
}

abbrev setting : Setting
setting = record {
  config = record {
    procs = 3;
    tasks = 1;
    any = 31439;
    hardware = 1;
    mm = 2;
    fs = 3;
    hard_int = 2;
    ksig = 60;
    click = 256;
    mess_size = 36;
    gap_messages = false;
  };
  long_max = 2147483647;
  hz = 60;
  sched_rate = 6;
  sigalrm = 14;
  clock = 1;
  syn_alrm_task = 1;
  inform_ptr = 0;
  mess_ptr = 64;
  call_function = λ a. ok tt;
}

-- Slot 2 has an alarm at 100, with `cause_alarm`, and slot 3 one at 500; 200 ticks have gone.
abbrev two_alarms : Clock
two_alarms = record {
  kernel = kernel;
  alarm = λ p. if p == 2 then 100 else if p == 3 then 500 else 0;
  user_time = λ p. 0;
  sys_time = λ p. 0;
  realtime = 200;
  boot_time = 1000;
  next_alarm = 100;
  watchdog_proc = 0;
  watch_dog = λ p. alarm_task;
  syn_al_alive = true;
  syn_table = λ p. false;
  pending_ticks = 0;
  sched_ticks = 6;
  prev_ptr = 1;
  lost_ticks = 0;
}

two_alarms-IsNext : IsNext setting two_alarms.alarm 100
unfolding rank
two_alarms-IsNext = record {
  bounded = omega arith;
  at_most = λ p t set. ground (arith, set);
  attained = inr (2, (omega arith, omega arith), (λ h. omega (arith, h)), refl);
}

-- Only slot 2 is due.
two_alarms_due : due two_alarms.alarm 200 3 1 ≡ 2 ∷ []
unfolding due rank
two_alarms_due = refl

common_setalarm-IsNext_example :
    Returns
      (λ _ s'.
        AlarmAt 200 40 (s'.alarm 3)
        × ((p : Ptr) → p ≢ 3 → s'.alarm p ≡ two_alarms.alarm p)
        × (s'.watch_dog 3 ≡ signal)
        × IsNext setting s'.alarm s'.next_alarm)
      (common_setalarm setting 3 40 signal two_alarms)
common_setalarm-IsNext_example = common_setalarm-IsNext setting two_alarms 3 40 signal

check_alarms-fires_example :
    (still : Ptr → ℕ) × (next : ℕ) × (check_alarms setting two_alarms
      ≡ and_then
          (fire_all setting (due two_alarms.alarm 200 3 1) two_alarms)
          (λ _ t. ok tt (with_alarms still next 200 t)))
    × ((p : Ptr) → still p ≡ still_set two_alarms.alarm 200 3 1 p)
    × IsNext setting still next
check_alarms-fires_example = check_alarms-fires setting two_alarms two_alarms-IsNext

do_set_time-do_get_time_example :
    Returns
      (λ _ s'.
        do_get_time setting (record s' { realtime = 200 + 90 })
        ≡ (7000 + ((200 + 90) / 60 - 200 / 60)) % time_mod)
      (do_set_time setting 7000 two_alarms)
do_set_time-do_get_time_example = do_set_time-do_get_time setting two_alarms 7000 90
