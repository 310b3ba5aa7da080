-- ===== src/Kernel/Sched.antt =====
-- `ready`, `unready`, `sched` and the clock's entry into the scheduler, of kernel/proc.c.
use soi_laboratoria_2025z.Base.{
  ℕ, zero, suc, ◌+◌, Bool, true, false, ◌&&◌, ◌||◌, ltb, leb, ◌==◌, if◌then◌else◌, ok, panic,
  out_of_fuel, Cmd, pure, ◌>>=◌, ◌>>◌,
}
use soi_laboratoria_2025z.Kernel.Defs.{
  Ptr, nil_proc, ppri_none, ppri_task, ppri_server, ppri_user, ppri_idle, Proc, QueueId, task_q,
  server_q, user_q, g1, g2, g3, State, rr_quantum, max_wait_ticks, aging_tick, is_user, in_group,
  load, store, set_next, get_queue, put_queue, get_proc_ptr, set_proc_ptr, pick_proc, enqueue,
  seek_estimate,
}

-- The new tail of group 3 when `rp` is its last process.
unfoldable pub tail_if_last : Ptr → Cmd State (Unit {0})
unfolding load get_queue put_queue
tail_if_last rp = do
  p ← load rp
  q ← get_queue g3
  if p.p_nextready == nil_proc then put_queue g3 (record q { tail = rp }) else pure tt

-- Case 3 of `ready_with_group`: shortest job first.
unfoldable pub insert_by_estimate : (fuel : ℕ) → Ptr → Cmd State (Unit {0})
unfolding load get_queue put_queue set_next seek_estimate tail_if_last
insert_by_estimate fuel rp = do
  q ← get_queue g3
  p ← load rp
  prev ← seek_estimate fuel p.cpu_estimate nil_proc q.head
  (if prev == nil_proc
      then (do set_next rp q.head; put_queue g3 (record q { head = rp }))
      else do b ← load prev; set_next rp b.p_nextready; set_next prev rp)
  tail_if_last rp

unfoldable pub ready_with_group : (fuel : ℕ) → Ptr → Cmd State (Unit {0})
unfolding load enqueue insert_by_estimate
ready_with_group fuel rp = do
  p ← load rp
  if p.sched_group == 1
      then enqueue g1 rp
      else if p.sched_group == 2
      then enqueue g2 rp
      else if p.sched_group == 3
      then insert_by_estimate fuel rp
      else pure tt

-- A fresh task runs next when no other is ready.
unfoldable pub ready_task : Ptr → Cmd State (Unit {0})
unfolding get_queue set_proc_ptr enqueue
ready_task rp = do
  q ← get_queue task_q
  (if q.head == nil_proc then set_proc_ptr rp else pure tt)
  enqueue task_q rp

-- A user process of no group goes to the front of USER_Q.
unfoldable pub ready_front : Ptr → Cmd State (Unit {0})
unfolding get_queue put_queue set_next
ready_front rp = do
  q ← get_queue user_q
  set_next rp q.head
  put_queue user_q (record { head = rp; tail = if q.head == nil_proc then rp else q.tail })

unfoldable pub ready : (fuel : ℕ) → Ptr → Cmd State (Unit {0})
unfolding load ready_task enqueue ready_with_group ready_front
ready fuel rp = do
  p ← load rp
  elim p.p_priority [
    | ppri_task ↦ ready_task rp
    | ppri_server ↦ enqueue server_q rp
    | ppri_user ↦ if in_group p then ready_with_group fuel rp else ready_front rp
    | ppri_none ↦ ready_front rp
    | ppri_idle ↦ ready_front rp
  ]

-- The search for the process before `rp`, from `xp` on, and the removal of `rp` behind it.
unfoldable pub unlink : (fuel : ℕ) → (rp xp : Ptr) → QueueId → Cmd State (Unit {0})
unfolding load set_next get_queue put_queue
unlink zero rp xp q = λ _. out_of_fuel
unlink (suc fuel) rp xp q = do
  x ← load xp
  if x.p_nextready == rp
      then (do
        r ← load rp
        set_next xp r.p_nextready
        old ← get_queue q
        if old.tail == rp then put_queue q (record old { tail = xp }) else pure tt)
      else if x.p_nextready == nil_proc
      then pure tt
      else unlink fuel rp x.p_nextready q

unfoldable pub unready_from_group : (fuel : ℕ) → Ptr → QueueId → Cmd State (Unit {0})
unfolding load get_queue put_queue unlink
unready_from_group fuel rp q = do
  old ← get_queue q
  if old.head == nil_proc
      then pure tt
      else if old.head == rp
      then (do
        r ← load rp
        put_queue q (record {
          head = r.p_nextready;
          tail = if r.p_nextready == nil_proc then nil_proc else old.tail;
        }))
      else unlink fuel rp old.head q

-- `if (rp == proc_ptr) pick_proc();`
unfoldable pub pick_if_running : (fuel : ℕ) → Ptr → Cmd State (Unit {0})
unfolding get_proc_ptr pick_proc
pick_if_running fuel rp = do
  running ← get_proc_ptr
  if rp == running then pick_proc fuel else pure tt

-- TASK_Q, SERVER_Q and USER_Q; `always` says that the removal of the head picks another process even
-- when it was not running.
unfoldable pub unready_from : (fuel : ℕ) → (always : Bool) → Ptr → QueueId → Cmd State (Unit {0})
unfolding load get_queue put_queue unlink pick_proc pick_if_running
unready_from fuel always rp q = do
  old ← get_queue q
  if old.head == nil_proc
      then pure tt
      else if old.head == rp
      then (do
        r ← load rp
        put_queue q (record old { head = r.p_nextready })
        if always then pick_proc fuel else pick_if_running fuel rp)
      else unlink fuel rp old.head q

abbrev pub group_queue : ℕ → QueueId
group_queue n = if n == 1 then g1 else if n == 2 then g2 else if n == 3 then g3 else user_q

unfoldable pub unready : (fuel : ℕ) → Ptr → Cmd State (Unit {0})
unfolding load unready_from unready_from_group pick_if_running
unready fuel rp = do
  p ← load rp
  elim p.p_priority [
    | ppri_task ↦ if p.stack_ok then unready_from fuel false rp task_q else (λ _. panic)
    | ppri_server ↦ unready_from fuel true rp server_q
    | ppri_user ↦
        if in_group p
        then unready_from_group fuel rp (group_queue p.sched_group) >> pick_if_running fuel rp
        else unready_from fuel true rp user_q
    | ppri_none ↦ unready_from fuel true rp user_q
    | ppri_idle ↦ unready_from fuel true rp user_q
  ]

-- One tick more of waiting, up to MAX_WAIT_TICKS.
abbrev pub aged : Proc → Proc
aged p = record p {
  wait_ticks = if ltb max_wait_ticks (suc p.wait_ticks) then max_wait_ticks else suc p.wait_ticks;
}

unfoldable pub age_queue : (fuel : ℕ) → Ptr → Cmd State (Unit {0})
unfolding load store get_proc_ptr
age_queue zero rp = λ _. out_of_fuel
age_queue (suc fuel) rp = if rp == nil_proc then pure tt else do
  p ← load rp
  running ← get_proc_ptr
  (if rp == running then pure tt else store rp (aged p))
  age_queue fuel p.p_nextready

-- The processes of group 2 that wait for a message, among the last `n` of the table.
unfoldable pub age_blocked : (n : ℕ) → (rp : Ptr) → Cmd State (Unit {0})
unfolding load store is_user
age_blocked zero rp = pure tt
age_blocked (suc n) rp = do
  p ← load rp
  (if is_user p && (p.sched_group == 2 && (p.p_flags.sending || p.p_flags.receiving))
      then store rp (aged p)
      else pure tt)
  age_blocked n (suc rp)

-- `procs` is NR_TASKS + NR_PROCS.
unfoldable pub update_aging_for_group2 : (procs : ℕ) → Cmd State (Unit {0})
unfolding get_queue age_queue age_blocked
update_aging_for_group2 procs = do
  q ← get_queue g2
  age_queue (suc procs) q.head
  age_blocked procs 1

-- The rotation of `sched` for a running process of group 1, whose queue begins with `q.head`.
unfoldable pub rotate_group1 : (fuel : ℕ) → (current : Ptr) → Cmd State (Unit {0})
unfolding load store set_next get_queue put_queue pick_proc
rotate_group1 fuel current = do
  q ← get_queue g1
  if q.head == nil_proc then pure tt else do
    h ← load q.head
    if h.p_nextready == nil_proc then pure tt else do
      (if q.tail == current then pure tt else set_next q.tail current)
      c ← load current
      store current (record c { p_nextready = nil_proc; rr_counter = 0 })
      put_queue g1 (record { head = h.p_nextready; tail = current })
      pick_proc fuel

unfoldable pub rotate_user : (fuel : ℕ) → Cmd State (Unit {0})
unfolding load set_next get_queue put_queue pick_proc
rotate_user fuel = do
  q ← get_queue user_q
  if q.head == nil_proc then pure tt else do
    set_next q.tail q.head
    h ← load q.head
    put_queue user_q (record { head = h.p_nextready; tail = q.head })
    set_next q.head nil_proc
    pick_proc fuel

unfoldable pub sched : (fuel : ℕ) → Cmd State (Unit {0})
unfolding load get_proc_ptr rotate_group1 rotate_user is_user
sched fuel = do
  current ← get_proc_ptr
  p ← load current
  if is_user p && p.sched_group == 1 then rotate_group1 fuel current else rotate_user fuel

unfoldable pub set_switching : Bool → Cmd State (Unit {0})
set_switching b s = ok tt (record s { switching = b })

-- `lock_sched`, `lock_ready`, `lock_unready` and `lock_pick_proc` around what they call.
unfoldable pub locked : Cmd State (Unit {0}) → Cmd State (Unit {0})
unfolding set_switching
locked body = do set_switching true; body; set_switching false

unfoldable pub count_quantum : (fuel : ℕ) → Cmd State (Unit {0})
unfolding load store get_proc_ptr sched locked is_user
count_quantum fuel = do
  rp ← get_proc_ptr
  p ← load rp
  if is_user p && p.sched_group == 1
      then if leb rr_quantum (p.rr_counter + 1)
        then store rp (record p { rr_counter = 0 }) >> locked (sched fuel)
        else store rp (record p { rr_counter = p.rr_counter + 1 })
      else pure tt

unfoldable pub count_aging : (procs : ℕ) → Cmd State (Unit {0})
unfolding update_aging_for_group2
count_aging procs s =
    if leb aging_tick (s.aging_counter + 1)
    then (update_aging_for_group2 procs >> (λ t. ok tt (record t { aging_counter = 0 }))) s
    else ok tt (record s { aging_counter = s.aging_counter + 1 })

unfoldable pub handle_clock_tick : (procs : ℕ) → Cmd State (Unit {0})
unfolding count_quantum count_aging
handle_clock_tick procs = count_quantum (suc procs) >> count_aging procs
