-- ===== src/Kernel/Defs.antt =====
-- The process table and the ready queues of kernel/proc.c, and the functions on them. A `struct proc *`
-- is a number: NIL_PROC is 0, and `&proc[i]` is i + 1.
use soi_laboratoria_2025z.Base.{
  ℕ, zero, suc, Bool, true, false, not, ◌&&◌, ltb, ◌==◌, if◌then◌else◌, ok, fault, out_of_fuel, Cmd,
  pure, ◌>>=◌, ◌>>◌,
}

abbrev pub Ptr : Type 0
Ptr = ℕ

abbrev pub nil_proc : Ptr
nil_proc = 0

-- PPRI_NONE, PPRI_TASK, PPRI_SERVER, PPRI_USER and PPRI_IDLE
pub data Priority : Type 0 where
  ppri_none ppri_task ppri_server ppri_user ppri_idle : Priority

-- The bits of `p_flags`.
pub record Flags : Type 0 where
  pub no_map : Bool
  pub sending : Bool
  pub receiving : Bool
  pub pending : Bool
  pub sig_pending : Bool
  pub p_stop : Bool

-- The fields that scheduling uses. `stack_ok` says that the word at `p_stguard` is STACK_GUARD.
pub record Proc : Type 0 where
  pub p_priority : Priority
  pub p_flags : Flags
  pub stack_ok : Bool
  pub p_nextready : Ptr
  pub sched_group : ℕ
  pub cpu_estimate : ℕ
  pub wait_ticks : ℕ
  pub rr_counter : ℕ

-- TASK_Q, SERVER_Q, USER_Q and the queues of the three groups
pub data QueueId : Type 0 where
  task_q server_q user_q g1 g2 g3 : QueueId

pub record Queue : Type 0 where
  pub head : Ptr
  pub tail : Ptr

unfoldable pub same_queue : QueueId → QueueId → Bool
same_queue task_q task_q = true
same_queue server_q server_q = true
same_queue user_q user_q = true
same_queue g1 g1 = true
same_queue g2 g2 = true
same_queue g3 g3 = true
same_queue _ _ = false

-- `idle` is `proc_addr(IDLE)`.
pub record State : Type 0 where
  pub proc : Ptr → Proc
  pub queue : QueueId → Queue
  pub proc_ptr : Ptr
  pub bill_ptr : Ptr
  pub idle : Ptr
  pub switching : Bool
  pub aging_counter : ℕ

abbrev pub rr_quantum : ℕ
rr_quantum = 3

abbrev pub max_wait_ticks : ℕ
max_wait_ticks = 1000

abbrev pub aging_tick : ℕ
aging_tick = 5

unfoldable pub is_user : Proc → Bool
is_user p = elim p.p_priority [
  | ppri_none ↦ false
  | ppri_task ↦ false
  | ppri_server ↦ false
  | ppri_user ↦ true
  | ppri_idle ↦ false
]

abbrev pub in_group : Proc → Bool
in_group p = is_user p && (ltb 0 p.sched_group && ltb p.sched_group 4)

-- `*p`; a null pointer is a fault.
unfoldable pub load : Ptr → Cmd State Proc
load p s = if p == nil_proc then fault else ok (s.proc p) s

unfoldable pub write : (Ptr → Proc) → Ptr → Proc → Ptr → Proc
write t p v a = if a == p then v else t a

unfoldable pub store : Ptr → Proc → Cmd State (Unit {0})
unfolding write
store p v s = if p == nil_proc then fault else ok tt (record s { proc = write s.proc p v })

unfoldable pub set_next : Ptr → Ptr → Cmd State (Unit {0})
unfolding load store
set_next p q = do v ← load p; store p (record v { p_nextready = q })

unfoldable pub get_queue : QueueId → Cmd State Queue
get_queue q s = ok (s.queue q) s

unfoldable pub put_queue : QueueId → Queue → Cmd State (Unit {0})
unfolding same_queue
put_queue q v s = ok tt (record s { queue = λ j. if same_queue j q then v else s.queue j })

unfoldable pub get_proc_ptr : Cmd State Ptr
get_proc_ptr s = ok s.proc_ptr s

unfoldable pub set_proc_ptr : Ptr → Cmd State (Unit {0})
set_proc_ptr p s = ok tt (record s { proc_ptr = p })

-- `proc_ptr = p; bill_ptr = p;`
unfoldable pub run_and_bill : Ptr → Cmd State (Unit {0})
run_and_bill p s = ok tt (record s { proc_ptr = p; bill_ptr = p })

-- The walk of `pick_proc` along group 2 for the process that has waited longest.
unfoldable pub longest_wait : (fuel : ℕ) → (rp current : Ptr) → Cmd State Ptr
unfolding load
longest_wait zero rp current = λ _. out_of_fuel
longest_wait (suc fuel) rp current = if current == nil_proc then pure rp else do
  c ← load current
  r ← load rp
  longest_wait fuel (if ltb r.wait_ticks c.wait_ticks then current else rp) c.p_nextready

-- `rp->wait_ticks = 0`
unfoldable pub reset_wait : Ptr → Cmd State (Unit {0})
unfolding load store
reset_wait p = do v ← load p; store p (record v { wait_ticks = 0 })

unfoldable pub pick_group2 : (fuel : ℕ) → Ptr → Cmd State (Unit {0})
unfolding longest_wait run_and_bill reset_wait
pick_group2 fuel head = do rp ← longest_wait fuel head head; run_and_bill rp; reset_wait rp

unfoldable pub run_idle : Cmd State (Unit {0})
run_idle s = ok tt (record s { proc_ptr = s.idle; bill_ptr = s.idle })

-- The end of `pick_proc`, below group 2.
unfoldable pub pick_last : Cmd State (Unit {0})
unfolding get_queue run_and_bill run_idle
pick_last = do
  three ← get_queue g3
  user ← get_queue user_q
  if not (three.head == nil_proc)
      then run_and_bill three.head
      else if not (user.head == nil_proc)
      then run_and_bill user.head
      else run_idle

unfoldable pub pick_user : (fuel : ℕ) → Cmd State (Unit {0})
unfolding get_queue run_and_bill pick_group2 pick_last
pick_user fuel = do
  one ← get_queue g1
  two ← get_queue g2
  if not (one.head == nil_proc)
      then run_and_bill one.head
      else if not (two.head == nil_proc)
      then pick_group2 fuel two.head
      else pick_last

-- `fuel` bounds the walk along group 2; one more than the number of processes is enough.
unfoldable pub pick_proc : (fuel : ℕ) → Cmd State (Unit {0})
unfolding get_queue set_proc_ptr pick_user
pick_proc fuel = do
  task ← get_queue task_q
  server ← get_queue server_q
  if not (task.head == nil_proc)
      then set_proc_ptr task.head
      else if not (server.head == nil_proc)
      then set_proc_ptr server.head
      else pick_user fuel

-- Put `rp` at the end of a queue.
unfoldable pub enqueue : QueueId → Ptr → Cmd State (Unit {0})
unfolding get_queue put_queue set_next
enqueue q rp = do
  old ← get_queue q
  if old.head == nil_proc
      then put_queue q (record { head = rp; tail = rp })
      else do set_next old.tail rp; put_queue q (record old { tail = rp })
  set_next rp nil_proc

-- The search for the place in group 3, by `cpu_estimate`: the last `prev`.
unfoldable pub seek_estimate : (fuel estimate : ℕ) → (prev current : Ptr) → Cmd State Ptr
unfolding load
seek_estimate zero estimate prev current = λ _. out_of_fuel
seek_estimate (suc fuel) estimate prev current = if current == nil_proc then pure prev else do
  c ← load current
  if ltb c.cpu_estimate estimate
      then seek_estimate fuel estimate current c.p_nextready
      else pure prev
