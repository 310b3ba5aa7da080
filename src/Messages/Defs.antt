-- ===== src/Messages/Defs.antt =====
-- The fields of the process table that kernel/proc.c uses for messages, and the small functions on them.
-- A process number n stands here as n + NR_TASKS + 1, which is the number of its slot: `proc_addr` and
-- `proc_number` leave it as it is, and 0 is NIL_PROC, or a number below -NR_TASKS.
use soi_laboratoria_2025z.Base.{
  ℕ, zero, suc, ◌+◌, ◌-◌, ◌/◌, ◌%◌, ◌^◌, Bool, true, false, not, ◌&&◌, ◌||◌, ltb, leb, ◌==◌,
  if◌then◌else◌, List, ok, panic, fault, out_of_fuel, Cmd, pure, ◌>>=◌,
}
use soi_laboratoria_2025z.Kernel.Defs.{Ptr, nil_proc, Flags, Proc, State}

pub record Message : Type 0 where
  pub m_source : ℕ
  pub m_type : ℕ
  pub m_body : List ℕ

-- The fields that messages use, beside `p_flags`, and of `p_map` the data and the stack segment.
-- `p_messbuf` is an address in the memory of the process.
pub record Talk : Type 0 where
  pub p_int_blocked : Bool
  pub p_int_held : Bool
  pub p_nextheld : Ptr
  pub p_callerq : Ptr
  pub p_sendlink : Ptr
  pub p_messbuf : ℕ
  pub p_getfrom : ℕ
  pub p_sendto : ℕ
  pub p_pending : List ℕ
  pub p_pendcount : ℕ
  pub data_vir : ℕ
  pub data_len : ℕ
  pub stack_vir : ℕ
  pub stack_len : ℕ

-- `struct proc` is `sched.proc` and `talk` together; `memory` holds the messages at the addresses of each
-- process; `reentered` says that `k_reenter` is not 0.
pub record Kernel : Type 0 where
  pub sched : State
  pub talk : Ptr → Talk
  pub memory : Ptr → ℕ → Message
  pub held_head : Ptr
  pub held_tail : Ptr
  pub reentered : Bool
  pub sig_procs : ℕ

-- Constants of headers and of the configuration: `procs` is NR_TASKS + NR_PROCS and `tasks` NR_TASKS; the
-- process numbers ANY, HARDWARE, MM_PROC_NR and FS_PROC_NR; HARD_INT and KSIG; 2 ^ CLICK_SHIFT and
-- MESS_SIZE; `gap_messages` says that ALLOW_GAP_MESSAGES is not 0.
pub record Config : Type 0 where
  pub procs : ℕ
  pub tasks : ℕ
  pub any : ℕ
  pub hardware : ℕ
  pub mm : ℕ
  pub fs : ℕ
  pub hard_int : ℕ
  pub ksig : ℕ
  pub click : ℕ
  pub mess_size : ℕ
  pub gap_messages : Bool

-- `vir_bytes` is a 32-bit unsigned number.
abbrev pub vir_mod : ℕ
vir_mod = 2 ^ 32

unfoldable pub is_sys_number : Config → ℕ → Bool
is_sys_number c n = (n == c.fs) || (n == c.mm)

-- `isoksrc_dest`
unfoldable pub is_ok_source : Config → ℕ → Bool
is_ok_source c n = (ltb 0 n && leb n c.procs) || (n == c.any)

unfoldable pub is_rx_hardware : Config → ℕ → Bool
is_rx_hardware c n = (n == c.any) || (n == c.hardware)

-- `p_flags == 0`
unfoldable pub is_runnable : Flags → Bool
is_runnable f =
    not (f.no_map || (f.sending || (f.receiving || (f.pending || (f.sig_pending || f.p_stop)))))

-- A call of the scheduler.
unfoldable pub on_sched : {A : Type 0} → Cmd State A → Cmd Kernel A
on_sched m k = elim (m k.sched) [
  | ok a s ↦ ok a (record k { sched = s })
  | panic ↦ panic
  | fault ↦ fault
  | out_of_fuel ↦ out_of_fuel
]

-- `*p`: a pointer outside of the table is a fault.
unfoldable pub load_talk : Config → Ptr → Cmd Kernel Talk
load_talk c p k = if ltb 0 p && leb p c.procs then ok (k.talk p) k else fault

unfoldable pub write_talk : (Ptr → Talk) → Ptr → Talk → Ptr → Talk
write_talk t p v a = if a == p then v else t a

unfoldable pub store_talk : Config → Ptr → Talk → Cmd Kernel (Unit {0})
unfolding write_talk
store_talk c p v k =
    if ltb 0 p && leb p c.procs then ok tt (record k { talk = write_talk k.talk p v }) else fault

unfoldable pub load_proc : Config → Ptr → Cmd Kernel Proc
load_proc c p k = if ltb 0 p && leb p c.procs then ok (k.sched.proc p) k else fault

unfoldable pub put_flags : (Ptr → Proc) → Ptr → Flags → Ptr → Proc
put_flags t p f a = if a == p then record (t p) { p_flags = f } else t a

unfoldable pub store_flags : Config → Ptr → Flags → Cmd Kernel (Unit {0})
unfolding put_flags
store_flags c p f k =
    if ltb 0 p && leb p c.procs
    then ok tt (record k { sched = record (k.sched) { proc = put_flags k.sched.proc p f } })
    else fault

unfoldable pub put_message : Ptr → ℕ → Message → Cmd Kernel (Unit {0})
put_message p a m k =
    ok tt (record k { memory = λ q b. if (q == p) && (b == a) then m else k.memory q b })

-- `cp_mess`: the message at `src_m` of `src_p`, with its source, to `dst_m` of `dst_p`. This is the C version, of
-- M68000; the one for INTEL is outside of the repository.
unfoldable pub cp_mess : (src src_p src_m dst_p dst_m : ℕ) → Cmd Kernel (Unit {0})
unfolding put_message
cp_mess src src_p src_m dst_p dst_m k =
    put_message dst_p dst_m (record (k.memory src_p src_m) { m_source = src }) k

-- What a call gives back: OK, E_BAD_SRC, E_NO_PERM, E_BAD_DEST, EFAULT or ELOCKED.
pub data Reply : Type 0 where
  done e_bad_src e_no_perm e_bad_dest efault elocked : Reply

-- The message buffer is not in the segments of the sender.
unfoldable pub is_outside : Config → Talk → (m_ptr : ℕ) → Bool
is_outside c t vb =
    let vlo = vb / c.click in
    let vhi = ((vb + c.mess_size - 1) % vir_mod) / c.click in
    if c.gap_messages
    then ltb vlo t.data_vir || (ltb vhi vlo || leb ((t.stack_vir + t.stack_len) % vir_mod) vhi)
    else ltb vhi vlo || leb t.data_len ((vhi + vir_mod - t.data_vir) % vir_mod)

-- The loop over those who send to each other, from `next` on: does it come to `caller`?
unfoldable pub comes_to : Config → (fuel : ℕ) → (caller next : Ptr) → Cmd Kernel Bool
unfolding load_proc load_talk
comes_to c zero caller next = λ _. out_of_fuel
comes_to c (suc fuel) caller next = if next == caller then pure true else do
  p ← load_proc c next
  t ← load_talk c next
  if p.p_flags.sending then comes_to c fuel caller t.p_sendto else pure false

-- The check of `mini_send` for a deadlock.
unfoldable pub is_locked : Config → (fuel : ℕ) → (caller dest : Ptr) → Cmd Kernel Bool
unfolding load_proc load_talk comes_to
is_locked c fuel caller dest = do
  p ← load_proc c dest
  t ← load_talk c dest
  if p.p_flags.sending then comes_to c fuel caller t.p_sendto else pure false

-- The last process of a caller queue, from `next` on.
unfoldable pub last_caller : Config → (fuel : ℕ) → (next : Ptr) → Cmd Kernel Ptr
unfolding load_talk
last_caller c zero next = λ _. out_of_fuel
last_caller c (suc fuel) next = do
  t ← load_talk c next
  if t.p_sendlink == nil_proc then pure next else last_caller c fuel t.p_sendlink

-- The search of `mini_rec` along the caller queue, from `sender` on: the process before the first that
-- is acceptable, and this one, or NIL_PROC.
unfoldable pub find_sender :
    Config → (fuel src : ℕ) → (previous sender : Ptr) → Cmd Kernel (Ptr × Ptr)
unfolding load_talk
find_sender c zero src previous sender = λ _. out_of_fuel
find_sender c (suc fuel) src previous sender =
    if sender == nil_proc
    then pure (previous, nil_proc)
    else if (src == c.any) || (src == sender)
    then pure (previous, sender)
    else do t ← load_talk c sender; find_sender c fuel src sender t.p_sendlink
