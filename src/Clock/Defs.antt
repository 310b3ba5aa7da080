-- ===== src/Clock/Defs.antt =====
-- The variables of kernel/clock.c and its functions. Counts of ticks are natural numbers: the ticks since boot
-- stay below LONG_MAX for more than a year. Alarms are `long` numbers, set by a `long` number of ticks that
-- may be negative or too large, and are added and compared as C does. Times in seconds are 32-bit numbers.
use soi_laboratoria_2025z.Base.{
  ℕ, zero, suc, ℤ, pos, minus, ◌+◌, ◌-◌, ◌/◌, ◌%◌, ◌^◌, Bool, true, false, not, ◌&&◌, ◌||◌, ltb,
  leb, ◌==◌, if◌then◌else◌, List, [], ◌∷◌, ok, panic, fault, out_of_fuel, Run, Cmd, pure, ◌>>=◌,
  ◌>>◌,
}
use soi_laboratoria_2025z.Kernel.Defs.{Ptr, nil_proc, ppri_task, Proc, user_q}
use soi_laboratoria_2025z.Kernel.Sched.{sched, locked, handle_clock_tick}
use soi_laboratoria_2025z.Messages.Defs.{Kernel, Config, on_sched}
use soi_laboratoria_2025z.Messages.Calls.{mini_send}
use soi_laboratoria_2025z.Messages.Interrupts.{cause_sig, interrupt}

-- What is called when an alarm goes off: nothing, so that the process gets a signal, `cause_alarm`, or
-- a function of a task, named by its address.
pub data Watchdog : Type 0 where
  signal alarm_task : Watchdog
  task_function : (address : ℕ) → Watchdog

-- `alarm`, `user_time` and `sys_time` are the fields `p_alarm`, `user_time` and `sys_time` of the process
-- table; `watch_dog` and `syn_table` are indexed by slots.
pub record Clock : Type 0 where
  pub kernel : Kernel
  pub alarm : Ptr → ℕ
  pub user_time : Ptr → ℕ
  pub sys_time : Ptr → ℕ
  pub realtime : ℕ
  pub boot_time : ℕ
  pub next_alarm : ℕ
  pub watchdog_proc : Ptr
  pub watch_dog : Ptr → Watchdog
  pub syn_al_alive : Bool
  pub syn_table : Ptr → Bool
  pub pending_ticks : ℕ
  pub sched_ticks : ℕ
  pub prev_ptr : Ptr
  pub lost_ticks : ℕ

-- LONG_MAX, HZ, SCHED_RATE and SIGALRM; the slots of CLOCK and SYN_ALRM_TASK; the addresses of the message
-- of `inform` and of that of `cause_alarm`; and the functions of the tasks, which are outside of the clock
-- task and change nothing of it.
pub record Setting : Type 0 where
  pub config : Config
  pub long_max : ℕ
  pub hz : ℕ
  pub sched_rate : ℕ
  pub sigalrm : ℕ
  pub clock : Ptr
  pub syn_alrm_task : Ptr
  pub inform_ptr : ℕ
  pub mess_ptr : ℕ
  pub call_function : ℕ → Cmd Kernel (Unit {0})

-- `time_t` is a 32-bit number.
abbrev pub time_mod : ℕ
time_mod = 2 ^ 32

unfoldable pub put_kernel : {A : Type 0} → Clock → Run Kernel A → Run Clock A
put_kernel s (ok a k) = ok a (record s { kernel = k })
put_kernel s panic = panic
put_kernel s fault = fault
put_kernel s out_of_fuel = out_of_fuel

unfoldable pub on_kernel : {A : Type 0} → Cmd Kernel A → Cmd Clock A
unfolding put_kernel
on_kernel m s = put_kernel s (m s.kernel)

unfoldable pub at_slot : {A : Type 0} → (Ptr → A) → Ptr → A → Ptr → A
at_slot t p v a = if a == p then v else t a

-- A `long` stands as its remainder modulo 2 ^ 32, so that a negative one is above 2 ^ 31. The order of two
-- of them is that of their ranks.
abbrev pub long_mod : ℕ
long_mod = 2 ^ 32

unfoldable pub rank : ℕ → ℕ
rank n = (n + 2 ^ 31) % 2 ^ 32

-- The earliest of `next` and the alarms of the last `n` slots, from `rp` on.
unfoldable pub earliest : (alarm : Ptr → ℕ) → (next n : ℕ) → (rp : Ptr) → ℕ
earliest alarm next zero rp = next
earliest alarm next (suc n) rp =
    earliest alarm
      (if not (alarm rp == 0) && ltb (rank (alarm rp)) (rank next) then alarm rp else next) n
      (suc rp)

unfoldable pub common_setalarm :
    Setting → (rp : Ptr) → (delta_ticks : ℕ) → Watchdog → Cmd Clock (Unit {0})
unfolding at_slot earliest
common_setalarm g rp delta function s =
    let alarm = at_slot s.alarm rp (if delta == 0 then 0 else (s.realtime + delta) % long_mod) in
    ok tt (record s {
      alarm = alarm;
      watch_dog = at_slot s.watch_dog rp function;
      next_alarm = earliest alarm g.long_max g.config.procs 1;
    })

-- `(p_alarm-realtime+(HZ-1)) / HZ` of the sum as a `long`, rounded towards 0, as C does.
unfoldable pub seconds_to : (hz alarm now : ℕ) → ℤ
seconds_to hz alarm now =
    let ticks = (alarm + (long_mod - now % long_mod) + (hz - 1)) % long_mod in
    if ltb ticks (2 ^ 31) then pos (ticks / hz) else minus ((long_mod - ticks) / hz)

-- The seconds until the alarm of a process, as the two calls report them; a number below 0 for an alarm
-- that is long overdue.
abbrev pub seconds_left : Setting → Clock → Ptr → ℤ
seconds_left g s rp = if s.alarm rp == 0 then pos 0 else seconds_to g.hz (s.alarm rp) s.realtime

unfoldable pub is_task : Proc → Bool
is_task p = elim p.p_priority [ ppri_task ↦ true | _ ↦ false ]

unfoldable pub do_setalarm : Setting → (rp : Ptr) → (delta_ticks : ℕ) → Watchdog → Cmd Clock ℤ
unfolding common_setalarm is_task
do_setalarm g rp delta function s =
    (do
      common_setalarm g rp delta (if is_task (s.kernel.sched.proc rp) then function else signal)
      pure (seconds_left g s rp))
      s

unfoldable pub do_setsyn_alrm : Setting → (rp : Ptr) → (delta_ticks : ℕ) → Cmd Clock ℤ
unfolding common_setalarm
do_setsyn_alrm g rp delta s =
    (do common_setalarm g rp delta alarm_task; pure (seconds_left g s rp)) s

-- The synchronous alarm task is woken by a message when it sleeps.
unfoldable pub cause_alarm : Setting → Cmd Clock (Unit {0})
unfolding at_slot on_kernel mini_send
cause_alarm g s =
    (do
      (λ t. ok tt (record t { syn_table = at_slot t.syn_table t.watchdog_proc true }))
      if s.syn_al_alive
          then pure tt
          else do on_kernel (mini_send g.config g.clock g.syn_alrm_task g.mess_ptr); pure tt)
      s

-- What happens when the alarm of `rp` goes off.
unfoldable pub fire : Setting → (rp : Ptr) → Cmd Clock (Unit {0})
unfolding on_kernel cause_alarm cause_sig
fire g rp s = elim (s.watch_dog rp) [
  | signal ↦ on_kernel (cause_sig g.config g.inform_ptr rp g.sigalrm) s
  | alarm_task ↦ cause_alarm g (record s { watchdog_proc = rp })
  | task_function a ↦ on_kernel (g.call_function a) (record s { watchdog_proc = rp })
]

unfoldable pub clear_alarm : Ptr → Cmd Clock (Unit {0})
unfolding at_slot
clear_alarm rp s = ok tt (record s { alarm = at_slot s.alarm rp 0 })

unfoldable pub note_next : Ptr → Cmd Clock (Unit {0})
note_next rp s = ok tt (record s {
  next_alarm =
      if not (s.alarm rp == 0) && ltb (rank (s.alarm rp)) (rank s.next_alarm)
      then s.alarm rp
      else s.next_alarm;
})

-- The loop of `do_clocktick` over the alarms of the last `n` slots, from `rp` on.
unfoldable pub alarm_loop : Setting → (n : ℕ) → (rp : Ptr) → Cmd Clock (Unit {0})
unfolding fire clear_alarm note_next
alarm_loop g zero rp = pure tt
alarm_loop g (suc n) rp = do
  (λ s.
      (if not (s.alarm rp == 0) && leb (rank (s.alarm rp)) (rank s.realtime)
          then fire g rp >> clear_alarm rp
          else pure tt)
        s)
  note_next rp
  alarm_loop g n (suc rp)

unfoldable pub check_alarms : Setting → Cmd Clock (Unit {0})
unfolding alarm_loop
check_alarms g s =
    if leb (rank s.next_alarm) (rank s.realtime)
    then alarm_loop g g.config.procs 1 (record s { next_alarm = g.long_max })
    else ok tt s

-- The end of a quantum: `sched_ticks` and `prev_ptr` begin again.
unfoldable pub new_quantum : Setting → Cmd Clock (Unit {0})
new_quantum g s =
    ok tt (record s { sched_ticks = g.sched_rate; prev_ptr = s.kernel.sched.bill_ptr })

-- `--sched_ticks`, and what is done when it becomes 0; it is at least 1 before.
unfoldable pub count_down : (at_zero : Cmd Clock (Unit {0})) → Cmd Clock (Unit {0})
count_down at_zero s =
    let t : Clock = record s { sched_ticks = s.sched_ticks - 1 } in
    if t.sched_ticks == 0 then at_zero t else ok tt t

unfoldable pub end_quantum : Setting → Cmd Clock (Unit {0})
unfolding on_kernel on_sched sched locked new_quantum
end_quantum g s =
    (do
      (if s.kernel.sched.bill_ptr == s.prev_ptr
          then on_kernel (on_sched (locked (sched (suc g.config.procs))))
          else pure tt)
      new_quantum g)
      s

unfoldable pub do_clocktick : Setting → Cmd Clock (Unit {0})
unfolding check_alarms count_down end_quantum
do_clocktick g = check_alarms g >> count_down (end_quantum g)

abbrev pub get_uptime : Clock → ℕ
get_uptime s = s.realtime + s.pending_ticks

unfoldable pub do_get_time : Setting → Clock → ℕ
do_get_time g s = (s.boot_time + s.realtime / g.hz) % time_mod

unfoldable pub do_set_time : Setting → (new_time : ℕ) → Cmd Clock (Unit {0})
do_set_time g new s =
    ok tt (record s { boot_time = (new + (time_mod - (s.realtime / g.hz) % time_mod)) % time_mod })

-- The six messages of the clock task.
pub data Request : Type 0 where
  hard_int get_uptime_call get_time : Request
  set_time : (new_time : ℕ) → Request
  set_alarm : (rp : Ptr) (delta_ticks : ℕ) (function : Watchdog) → Request
  set_sync_al : (rp : Ptr) (delta_ticks : ℕ) → Request

-- What the reply holds.
pub data Answer : Type 0 where
  no_reply just_ok : Answer
  new_time_is : ℕ → Answer
  seconds_left_is : ℤ → Answer

unfoldable pub transfer_ticks : Cmd Clock (Unit {0})
transfer_ticks s = ok tt (record s { realtime = s.realtime + s.pending_ticks; pending_ticks = 0 })

-- The work of `clock_task` between the receipt of a message and the reply.
unfoldable pub clock_call : Setting → Request → Cmd Clock Answer
unfolding transfer_ticks do_clocktick do_get_time do_set_time do_setalarm do_setsyn_alrm
clock_call g r = do
  transfer_ticks
  elim r [
    | hard_int ↦ do_clocktick g >> pure no_reply
    | get_uptime_call ↦ λ s. ok (new_time_is s.realtime) s
    | get_time ↦ λ s. ok (new_time_is (do_get_time g s)) s
    | set_time n ↦ do_set_time g n >> pure just_ok
    | set_alarm rp delta function ↦ do
      left ← do_setalarm g rp delta function
      pure (seconds_left_is left)
    | set_sync_al rp delta ↦ do left ← do_setsyn_alrm g rp delta; pure (seconds_left_is left)
  ]

-- The time of the process that was interrupted, or of HARDWARE in a nested interrupt.
abbrev pub charged : Setting → Clock → Ptr
charged g s = if s.kernel.reentered then g.config.hardware else s.kernel.sched.proc_ptr

unfoldable pub account : Setting → Cmd Clock (Unit {0})
unfolding at_slot
account g s =
    let rp = charged g s in
    let ticks = s.lost_ticks + 1 in
    let bill = s.kernel.sched.bill_ptr in
    ok tt (record s {
      lost_ticks = 0;
      user_time = at_slot s.user_time rp (s.user_time rp + ticks);
      sys_time =
          if not (rp == bill) && not (rp == s.kernel.sched.idle)
          then at_slot s.sys_time bill (s.sys_time bill + ticks)
          else s.sys_time;
      pending_ticks = s.pending_ticks + ticks;
    })

-- The clock task has work: an alarm, or a process to be scheduled.
unfoldable pub has_work : Clock → Bool
has_work s =
    leb (rank s.next_alarm) (rank (get_uptime s))
    || ((s.sched_ticks == 1)
        && ((s.kernel.sched.bill_ptr == s.prev_ptr)
            && not ((s.kernel.sched.queue user_q).head == nil_proc)))

-- `clock_handler`, but for the calls of the terminal and the printer.
unfoldable pub clock_handler : Setting → Cmd Clock (Unit {0})
unfolding account on_kernel on_sched handle_clock_tick interrupt has_work count_down new_quantum
clock_handler g = do
  account g
  on_kernel (on_sched (handle_clock_tick g.config.procs))
  (λ s.
      (if has_work s then on_kernel (interrupt g.config g.clock) else count_down (new_quantum g)) s)

-- One pass of `syn_alrm_task` over the table, from `rp` on: the processes that get a CLOCK_INT message.
unfoldable pub syn_pass : (n : ℕ) → (rp : Ptr) → Clock → List Ptr × Clock
unfolding at_slot
syn_pass zero rp s = ([], s)
syn_pass (suc n) rp s =
    let hit = s.syn_table rp in
    let (sent, t) =
      syn_pass n (suc rp)
        (if hit then record s { syn_table = at_slot s.syn_table rp false } else s) in
    (if hit then rp ∷ sent else sent, t)
