-- ===== src/Messages/Calls.antt =====
-- `mini_send`, `mini_rec` and `sys_call` of kernel/proc.c, and `inform` of kernel/system.c.
use soi_laboratoria_2025z.Base.{
  ℕ, zero, suc, ◌-◌, Bool, true, false, not, ◌&&◌, ◌||◌, ltb, ◌==◌, if◌then◌else◌, [], ◌∷◌, ok,
  panic, Cmd, pure, ◌>>=◌, ◌>>◌,
}
use soi_laboratoria_2025z.Kernel.Defs.{
  Ptr, nil_proc, Flags, Proc, ppri_none, ppri_task, ppri_server, ppri_user, ppri_idle, State,
  is_user, pick_proc,
}
use soi_laboratoria_2025z.Kernel.Sched.{ready, unready, set_switching, locked}
use soi_laboratoria_2025z.Messages.Defs.{
  Talk, Kernel, Config, is_sys_number, is_ok_source, is_rx_hardware, is_runnable, on_sched,
  load_talk, store_talk, load_proc, store_flags, put_message, cp_mess, Reply, done, e_bad_src,
  e_no_perm, e_bad_dest, efault, elocked, is_outside, is_locked, last_caller, find_sender,
}

unfoldable pub is_empty : Proc → Bool
is_empty p = elim p.p_priority [
  | ppri_none ↦ true
  | ppri_task ↦ false
  | ppri_server ↦ false
  | ppri_user ↦ false
  | ppri_idle ↦ false
]

-- `if (p->p_flags == 0) ready(p);`, and the same with `unready`.
unfoldable pub if_runnable : Config → Ptr → Cmd State (Unit {0}) → Cmd Kernel (Unit {0})
unfolding load_proc on_sched
if_runnable c p m = do v ← load_proc c p; if is_runnable v.p_flags then on_sched m else pure tt

-- The destination waits for this message.
unfoldable pub is_waiting : Config → (caller : Ptr) → Flags → Talk → Bool
is_waiting c caller f t =
    (f.receiving && not f.sending) && ((t.p_getfrom == c.any) || (t.p_getfrom == caller))

unfoldable pub deliver : Config → (caller dest : Ptr) → (m_ptr : ℕ) → Cmd Kernel (Unit {0})
unfolding load_talk load_proc cp_mess store_flags if_runnable
deliver c caller dest m_ptr = do
  t ← load_talk c dest
  cp_mess caller caller m_ptr dest t.p_messbuf
  p ← load_proc c dest
  store_flags c dest (record (p.p_flags) { receiving = false })
  if_runnable c dest (ready (suc c.procs) dest)

-- The caller goes behind the processes that wait for `dest`.
unfoldable pub queue_caller : Config → (caller dest : Ptr) → Cmd Kernel (Unit {0})
unfolding load_talk store_talk last_caller
queue_caller c caller dest = do
  d ← load_talk c dest
  (if d.p_callerq == nil_proc then store_talk c dest (record d { p_callerq = caller }) else do
    last ← last_caller c (suc c.procs) d.p_callerq
    l ← load_talk c last
    store_talk c last (record l { p_sendlink = caller }))
  t ← load_talk c caller
  store_talk c caller (record t { p_sendlink = nil_proc })

unfoldable pub block_caller : Config → (caller dest : Ptr) → (m_ptr : ℕ) → Cmd Kernel (Unit {0})
unfolding load_talk store_talk load_proc store_flags if_runnable queue_caller
block_caller c caller dest m_ptr = do
  t ← load_talk c caller
  store_talk c caller (record t { p_messbuf = m_ptr })
  if_runnable c caller (unready (suc c.procs) caller)
  p ← load_proc c caller
  store_flags c caller (record (p.p_flags) { sending = true })
  u ← load_talk c caller
  store_talk c caller (record u { p_sendto = dest })
  queue_caller c caller dest

-- `mini_send` after its tests of the parameters.
unfoldable pub send_message : Config → (caller dest : Ptr) → (m_ptr : ℕ) → Cmd Kernel Reply
unfolding load_talk load_proc is_locked is_waiting deliver block_caller
send_message c caller dest m_ptr = do
  cycle ← is_locked c (suc c.procs) caller dest
  if cycle then pure elocked else do
    p ← load_proc c dest
    t ← load_talk c dest
    (if is_waiting c caller p.p_flags t
        then deliver c caller dest m_ptr
        else block_caller c caller dest m_ptr)
    pure done

unfoldable pub mini_send : Config → (caller dest : Ptr) → (m_ptr : ℕ) → Cmd Kernel Reply
unfolding load_talk load_proc is_sys_number is_user is_empty is_outside send_message
mini_send c caller dest m_ptr = do
  p ← load_proc c caller
  if is_user p && not (is_sys_number c dest) then pure e_bad_dest else do
    d ← load_proc c dest
    if is_empty d then pure e_bad_dest else do
      t ← load_talk c caller
      if is_outside c t m_ptr then pure efault else send_message c caller dest m_ptr

unfoldable pub lock_mini_send : Config → (caller dest : Ptr) → (m_ptr : ℕ) → Cmd Kernel Reply
unfolding on_sched mini_send set_switching
lock_mini_send c caller dest m_ptr = do
  on_sched (set_switching true)
  result ← mini_send c caller dest m_ptr
  on_sched (set_switching false)
  pure result

unfoldable pub count_informed : Cmd Kernel (Unit {0})
count_informed k = ok tt (record k { sig_procs = k.sig_procs - 1 })

-- `inform` for the process `rp`: `m` is the message at the address `m_ptr` of HARDWARE.
unfoldable pub inform_of : Config → (m_ptr : ℕ) → Ptr → Cmd Kernel (Unit {0})
unfolding load_talk store_talk load_proc store_flags put_message lock_mini_send count_informed
    on_sched pick_proc locked
inform_of c m_ptr rp = do
  t ← load_talk c rp
  put_message c.hardware m_ptr
      (record { m_source = c.hardware; m_type = c.ksig; m_body = rp ∷ t.p_pending })
  count_informed
  result ← lock_mini_send c c.hardware c.mm m_ptr
  elim result [
    | done ↦ do
      u ← load_talk c rp
      store_talk c rp (record u { p_pending = [] })
      p ← load_proc c rp
      store_flags c rp (record (p.p_flags) { pending = false })
      on_sched (locked (pick_proc (suc c.procs)))
    | _ ↦ λ _. panic
  ]

-- The search for a process with pending signals among the last `n` of the table, from `rp` on.
unfoldable pub inform_from : Config → (m_ptr n : ℕ) → (rp : Ptr) → Cmd Kernel (Unit {0})
unfolding load_proc inform_of
inform_from c m_ptr zero rp = pure tt
inform_from c m_ptr (suc n) rp = do
  p ← load_proc c rp
  if p.p_flags.pending then inform_of c m_ptr rp else inform_from c m_ptr n (suc rp)

unfoldable pub inform : Config → (m_ptr : ℕ) → Cmd Kernel (Unit {0})
unfolding inform_from
inform c m_ptr = inform_from c m_ptr (c.procs - c.tasks) (suc c.tasks)

-- The sender found by `mini_rec` leaves the queue behind `previous`.
unfoldable pub leave_queue : Config → (caller previous sender : Ptr) → Cmd Kernel (Unit {0})
unfolding load_talk store_talk
leave_queue c caller previous sender = do
  t ← load_talk c caller
  s ← load_talk c sender
  if sender == t.p_callerq then store_talk c caller (record t { p_callerq = s.p_sendlink }) else do
    p ← load_talk c previous
    store_talk c previous (record p { p_sendlink = s.p_sendlink })

unfoldable pub accept : Config → (caller previous sender : Ptr) → (m_ptr : ℕ) → Cmd Kernel Reply
unfolding load_talk load_proc store_flags cp_mess leave_queue if_runnable
accept c caller previous sender m_ptr = do
  s ← load_talk c sender
  cp_mess sender sender s.p_messbuf caller m_ptr
  leave_queue c caller previous sender
  p ← load_proc c sender
  store_flags c sender (record (p.p_flags) { sending = false })
  if_runnable c sender (ready (suc c.procs) sender)
  pure done

-- The end of `mini_rec`: the caller waits for a message.
unfoldable pub wait_message :
    Config → (inform_ptr : ℕ) → (caller : Ptr) → (src m_ptr : ℕ) → Cmd Kernel Reply
unfolding load_talk store_talk load_proc store_flags if_runnable inform
wait_message c inform_ptr caller src m_ptr = do
  t ← load_talk c caller
  store_talk c caller (record t { p_getfrom = src; p_messbuf = m_ptr })
  if_runnable c caller (unready (suc c.procs) caller)
  p ← load_proc c caller
  store_flags c caller (record (p.p_flags) { receiving = true })
  (λ k.
      if ltb 0 k.sig_procs && ((caller == c.mm) && (src == c.any))
      then inform c inform_ptr k
      else ok tt k)
  pure done

-- A message from HARDWARE into the buffer of `rp`, and no interrupt is blocked any more.
unfoldable pub take_interrupt : Config → (rp : Ptr) → (m_ptr : ℕ) → Cmd Kernel (Unit {0})
unfolding load_talk store_talk put_message
take_interrupt c rp m_ptr = do
  (λ k.
      put_message rp m_ptr
        (record (k.memory rp m_ptr) { m_source = c.hardware; m_type = c.hard_int }) k)
  t ← load_talk c rp
  store_talk c rp (record t { p_int_blocked = false })

unfoldable pub mini_rec :
    Config → (inform_ptr : ℕ) → (caller : Ptr) → (src m_ptr : ℕ) → Cmd Kernel Reply
unfolding load_talk load_proc find_sender accept wait_message take_interrupt is_rx_hardware
mini_rec c inform_ptr caller src m_ptr = do
  p ← load_proc c caller
  t ← load_talk c caller
  if p.p_flags.sending then wait_message c inform_ptr caller src m_ptr else do
    (previous, sender) ← find_sender c (suc c.procs) src nil_proc t.p_callerq
    if not (sender == nil_proc)
        then accept c caller previous sender m_ptr
        else if t.p_int_blocked && is_rx_hardware c src
        then take_interrupt c caller m_ptr >> pure done
        else wait_message c inform_ptr caller src m_ptr

-- SEND, RECEIVE and BOTH
pub data Function : Type 0 where
  send receive both : Function

unfoldable pub is_both : Function → Bool
is_both send = false
is_both receive = false
is_both both = true

-- `mini_rec` after the sending half of BOTH.
unfoldable pub then_receive : Reply → Cmd Kernel Reply → Cmd Kernel Reply
then_receive done m = m
then_receive r m = pure r

-- `inform_ptr` is the address of the message `m` of system.c.
unfoldable pub sys_call :
    Config → (inform_ptr : ℕ) → Function → (src_dest m_ptr : ℕ) → Cmd Kernel Reply
unfolding is_ok_source load_proc is_user is_both mini_send mini_rec then_receive
sys_call c inform_ptr function src_dest m_ptr =
    if not (is_ok_source c src_dest) then pure e_bad_src else (λ k.
      let rp = k.sched.proc_ptr in
      (do
        p ← load_proc c rp
        if is_user p && not (is_both function) then pure e_no_perm else elim function [
          | send ↦ mini_send c rp src_dest m_ptr
          | receive ↦ mini_rec c inform_ptr rp src_dest m_ptr
          | both ↦ do
            n ← mini_send c rp src_dest m_ptr
            then_receive n (mini_rec c inform_ptr rp src_dest m_ptr)
        ])
        k)
