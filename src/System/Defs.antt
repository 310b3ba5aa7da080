-- ===== src/System/Defs.antt =====
-- `do_xit`, `do_kill` and `do_endsig` of kernel/system.c. Process numbers stand as slots, as in Messages. The
-- assertions are taken as switched on: one that fails is a panic. The names of processes are left out.
use soi_laboratoria_2025z.Base.{
  ℕ, zero, suc, ◌+◌, ◌-◌, false, ◌==◌, if◌then◌else◌, [], ok, panic, fault, out_of_fuel, Run, Cmd,
  pure, ◌>>=◌, ◌>>◌,
}
use soi_laboratoria_2025z.Kernel.Defs.{Ptr, nil_proc, ppri_none, Flags, is_user, write}
use soi_laboratoria_2025z.Kernel.Sched.{ready, unready, locked}
use soi_laboratoria_2025z.Messages.Defs.{
  Kernel, Config, load_talk, store_talk, load_proc, store_flags, is_runnable, on_sched,
}
use soi_laboratoria_2025z.Messages.Calls.{is_empty}
use soi_laboratoria_2025z.Messages.Interrupts.{cause_sig}
use soi_laboratoria_2025z.Clock.Defs.{Clock, at_slot, on_kernel}

-- The variables of the clock task with the times of the children, which are fields of the process table.
pub record System : Type 0 where
  pub clock : Clock
  pub child_utime : Ptr → ℕ
  pub child_stime : Ptr → ℕ

unfoldable pub put_clock : {A : Type 0} → System → Run Clock A → Run System A
put_clock s (ok a c) = ok a (record s { clock = c })
put_clock s panic = panic
put_clock s fault = fault
put_clock s out_of_fuel = out_of_fuel

unfoldable pub in_kernel : {A : Type 0} → Cmd Kernel A → Cmd System A
unfolding put_clock on_kernel
in_kernel m s = put_clock s (on_kernel m s.clock)

-- The inner loop of `do_xit`: the process `rc` is taken out of a caller queue behind `np`.
unfoldable pub leave_middle : Config → (fuel : ℕ) → (rc np : Ptr) → Cmd Kernel (Unit {0})
unfolding load_talk store_talk
leave_middle c zero rc np = λ _. out_of_fuel
leave_middle c (suc fuel) rc np = do
  t ← load_talk c np
  if t.p_sendlink == nil_proc
      then pure tt
      else if t.p_sendlink == rc
      then (do r ← load_talk c rc; store_talk c np (record t { p_sendlink = r.p_sendlink }))
      else leave_middle c fuel rc t.p_sendlink

-- The loop of `do_xit` over the caller queues of the last `n` slots, from `rp` on. It goes on after
-- the process has been taken out of the middle of a queue.
unfoldable pub leave_queues : Config → (n : ℕ) → (rc rp : Ptr) → Cmd Kernel (Unit {0})
unfolding load_talk store_talk leave_middle
leave_queues c zero rc rp = pure tt
leave_queues c (suc n) rc rp =
    let rest = leave_queues c n rc (suc rp) in
    do
      t ← load_talk c rp
      if t.p_callerq == nil_proc
          then rest
          else if t.p_callerq == rc
          then (do r ← load_talk c rc; store_talk c rp (record t { p_callerq = r.p_sendlink }))
          else leave_middle c (suc c.procs) rc t.p_callerq >> rest

abbrev pub no_flags : Flags
no_flags = record {
  no_map = false;
  sending = false;
  receiving = false;
  pending = false;
  sig_pending = false;
  p_stop = false;
}

-- The end of `do_xit`.
unfoldable pub end_process : Config → (rc : Ptr) → Cmd Kernel (Unit {0})
unfolding load_talk store_talk load_proc write
end_process c rc = do
  p ← load_proc c rc
  t ← load_talk c rc
  store_talk c rc (record t { p_pending = []; p_pendcount = 0 })
  λ k. ok tt (record k {
    sig_procs = if p.p_flags.pending then k.sig_procs - 1 else k.sig_procs;
    sched = record (k.sched) {
      proc = write k.sched.proc rc (record p { p_flags = no_flags; p_priority = ppri_none });
    };
  })

-- What `do_xit` does to the queues of the scheduler and to the messages.
unfoldable pub exit_process : Config → (rc : Ptr) → Cmd Kernel (Unit {0})
unfolding load_proc is_runnable on_sched locked unready leave_queues end_process
exit_process c rc = do
  p ← load_proc c rc
  (if is_runnable p.p_flags then on_sched (locked (unready (suc c.procs) rc)) else pure tt)
  p ← load_proc c rc
  (if p.p_flags.sending then leave_queues c c.procs rc 1 else pure tt)
  end_process c rc

unfoldable pub assert_user : Config → Ptr → Cmd Kernel (Unit {0})
unfolding load_proc is_user
assert_user c p = do q ← load_proc c p; if is_user q then pure tt else λ _. panic

-- The times of the child `rc` go to its parent, and its alarm is turned off.
unfoldable pub count_child : (rp rc : Ptr) → Cmd System (Unit {0})
unfolding at_slot
count_child rp rc s = ok tt (record s {
  child_utime =
      at_slot s.child_utime rp (s.child_utime rp + (s.clock.user_time rc + s.child_utime rc));
  child_stime =
      at_slot s.child_stime rp (s.child_stime rp + (s.clock.sys_time rc + s.child_stime rc));
  clock = record (s.clock) { alarm = at_slot s.clock.alarm rc 0 };
})

unfoldable pub do_xit : Config → (parent rc : Ptr) → Cmd System (Unit {0})
unfolding in_kernel assert_user count_child exit_process
do_xit c parent rc = do
  in_kernel (assert_user c parent)
  in_kernel (assert_user c rc)
  count_child parent rc
  in_kernel (exit_process c rc)

unfoldable pub do_kill :
    Config → (inform_ptr : ℕ) → (pr : Ptr) → (sig_nr : ℕ) → Cmd Kernel (Unit {0})
unfolding assert_user cause_sig
do_kill c inform_ptr pr sig_nr = do assert_user c pr; cause_sig c inform_ptr pr sig_nr

-- OK or E_BAD_PROC.
pub data EndReply : Type 0 where
  signal_done e_bad_proc : EndReply

-- The process goes on when no signal to it is left.
unfoldable pub end_signals : Config → (rp : Ptr) → Cmd Kernel (Unit {0})
unfolding load_proc store_flags is_runnable on_sched locked ready
end_signals c rp = do
  p ← load_proc c rp
  store_flags c rp (record (p.p_flags) { sig_pending = false })
  q ← load_proc c rp
  if is_runnable q.p_flags then on_sched (locked (ready (suc c.procs) rp)) else pure tt

unfoldable pub do_endsig : Config → (rp : Ptr) → Cmd Kernel EndReply
unfolding load_proc load_talk store_talk is_empty assert_user end_signals
do_endsig c rp = do
  p ← load_proc c rp
  if is_empty p then pure e_bad_proc else do
    assert_user c rp
    t ← load_talk c rp
    if t.p_pendcount == 0 then pure signal_done else do
      store_talk c rp (record t { p_pendcount = t.p_pendcount - 1 })
      (if (t.p_pendcount - 1) == 0 then end_signals c rp else pure tt)
      pure signal_done
