-- ===== src/System/Endsig.antt =====
-- `do_endsig` of kernel/system.c for the last signal of a process.
use soi_laboratoria_2025z.Base.{
  ℕ, zero, suc, Bool, leb, ltb, ◌&&◌, ◌≡◌, ◌≢◌, ◌⊎◌, refl, sym, subst, ◌∙◌, true, false, List, [],
  ◌∷◌, ◌++◌, arith, ◌==◌, ok, panic, fault, out_of_fuel, Run, Returns, returns, mono,
}
use soi_laboratoria_2025z.Kernel.Defs.{Ptr, ppri_user, State, QueueId, is_user}
use soi_laboratoria_2025z.Kernel.Sched.{ready, locked}
use soi_laboratoria_2025z.Kernel.Chain.{Chain-kept}
use soi_laboratoria_2025z.Kernel.KeepFlags.{ready-RunKeeps}
use soi_laboratoria_2025z.Kernel.Estimate.{Fresh, Once}
use soi_laboratoria_2025z.Kernel.Enqueue.{InQueue, fifo_queue, ready-InQueue}
use soi_laboratoria_2025z.Messages.Defs.{
  Kernel, Config, load_talk, store_talk, load_proc, store_flags, put_flags, write_talk, is_runnable,
  on_sched,
}
use soi_laboratoria_2025z.Messages.Calls.{is_empty}
use soi_laboratoria_2025z.Messages.Runs.{locked-Returns, on_sched-Returns, with_flags}
use soi_laboratoria_2025z.Messages.Path.{InTable}
use soi_laboratoria_2025z.System.Defs.{EndReply, signal_done, assert_user, end_signals, do_endsig}

-- The state with a new count and, when that is 0, without SIG_PENDING.
abbrev pub counted : Kernel → (rp : Ptr) → (n : ℕ) → Kernel
counted k rp n = record k { talk = write_talk k.talk rp (record (k.talk rp) { p_pendcount = n }) }

abbrev unblocked : State → (rp : Ptr) → State
unblocked s rp = record s {
  proc = put_flags s.proc rp (record ((s.proc rp).p_flags) { sig_pending = false });
}

module _ (c : Config) (k : Kernel) (rp : Ptr) (t : InTable c rp)
    (user : (k.sched.proc rp).p_priority ≡ ppri_user) where
  do_endsig-more :
      (n : ℕ)
      → (k.talk rp).p_pendcount ≡ suc (suc n)
      → do_endsig c rp k ≡ ok signal_done (counted k rp (suc n))
  unfolding do_endsig load_proc load_talk store_talk is_empty assert_user is_user
  do_endsig-more n h = ground (arith, t.0, t.1, user, h)

  do_endsig-last :
      (k' : Kernel)
      → (k.talk rp).p_pendcount ≡ 1
      → end_signals c rp (counted k rp 0) ≡ ok tt k'
      → do_endsig c rp k ≡ ok signal_done k'
  unfolding do_endsig load_proc load_talk store_talk is_empty assert_user is_user
  do_endsig-last k' h e = ground (arith, t.0, t.1, user, h, e)

unblocked_flags :
    (s : State) (rp : Ptr)
    → ((unblocked s rp).proc rp).p_flags ≡ record ((s.proc rp).p_flags) { sig_pending = false }
unfolding put_flags
unblocked_flags s rp = let h : (rp == rp) ≡ true = ground arith in rw h refl

end_signals-ready :
    (c : Config) (k : Kernel) (rp : Ptr)
    → InTable c rp
    → is_runnable (record ((k.sched.proc rp).p_flags) { sig_pending = false }) ≡ true
    → end_signals c rp k
      ≡ on_sched (locked (ready (suc c.procs) rp)) (record k { sched = unblocked k.sched rp })
unfolding end_signals load_proc store_flags
end_signals-ready c k rp t r =
    let e : ltb 0 rp && leb rp c.procs ≡ true = ground (arith, t.0, t.1) in
    rw (e, e, e, unblocked_flags k.sched rp, r) refl

module _ (s : State) (rp : Ptr) where
  unblocked_next : (a : Ptr) → ((unblocked s rp).proc a).p_nextready ≡ (s.proc a).p_nextready
  unfolding put_flags
  unblocked_next a = ground arith

  unblocked_group : ((unblocked s rp).proc rp).sched_group ≡ (s.proc rp).sched_group
  unfolding put_flags
  unblocked_group = ground arith

  unblocked_priority : ((unblocked s rp).proc rp).p_priority ≡ (s.proc rp).p_priority
  unfolding put_flags
  unblocked_priority = ground arith

-- Another value of `switching` leaves the queues as they are.
switching-InQueue :
    (s : State) (b : Bool) (q : QueueId) (xs : List Ptr)
    → InQueue s q xs
    → InQueue (record s { switching = b }) q xs
switching-InQueue s b q [] h = h
switching-InQueue s b q (x ∷ xs) h = h

unblocked-InQueue :
    (s : State) (rp : Ptr) (q : QueueId) (xs : List Ptr)
    → InQueue s q xs
    → InQueue (unblocked s rp) q xs
unblocked-InQueue s rp q [] h = h
unblocked-InQueue s rp q (x ∷ xs) h = (
  Chain-kept s.proc (unblocked s rp).proc (unblocked_next s rp) (s.queue q).head (x ∷ xs) h.0,
  h.1,
)

-- What `do_endsig` leaves when `n` signals are left, and `xs` was the queue of the group.
pub data SignalEnded (k : Kernel) (rp : Ptr) (n : ℕ) (xs : List Ptr)
    : EndReply → Kernel → Type 0 where
  last_signal :
      {k' : Kernel}
      → n ≡ 0
      → (k'.talk rp).p_pendcount ≡ 0
      → is_runnable (k'.sched.proc rp).p_flags ≡ true
      → InQueue k'.sched (fifo_queue (k.sched.proc rp).sched_group) (xs ++ (rp ∷ []))
      → SignalEnded k rp n xs signal_done k'
  more_signals : n ≢ 0 → SignalEnded k rp n xs signal_done (counted k rp n)

counted_pendcount : (k : Kernel) (rp n : ℕ) → ((counted k rp n).talk rp).p_pendcount ≡ n
unfolding write_talk
counted_pendcount k rp n = ground arith

-- The process with its last signal handled goes into the queue of its group.
last_signal-SignalEnded :
    (c : Config) (k : Kernel) (rp : Ptr) (xs : List Ptr)
    → InTable c rp
    → (k.sched.proc rp).p_priority ≡ ppri_user
    → ((k.sched.proc rp).sched_group ≡ 1) ⊎ ((k.sched.proc rp).sched_group ≡ 2)
    → is_runnable (record ((k.sched.proc rp).p_flags) { sig_pending = false }) ≡ true
    → InQueue k.sched (fifo_queue (k.sched.proc rp).sched_group) xs
    → Once xs
    → Fresh rp xs
    → Returns
        (λ _ k'.
          ((k'.talk rp).p_pendcount ≡ 0)
          × (is_runnable (k'.sched.proc rp).p_flags ≡ true)
          × InQueue k'.sched (fifo_queue (k.sched.proc rp).sched_group) (xs ++ (rp ∷ [])))
        (end_signals c rp (counted k rp 0))
last_signal-SignalEnded c k rp xs t user group runs h o f =
    let s : State = record (unblocked k.sched rp) { switching = true } in
    let g : (s.proc rp).sched_group ≡ (k.sched.proc rp).sched_group = unblocked_group k.sched rp in
    let q = fifo_queue (k.sched.proc rp).sched_group in
    let queued : InQueue s q xs =
      switching-InQueue (unblocked k.sched rp) true q xs (unblocked-InQueue k.sched rp q xs h) in
    let run : Returns (λ _ s'. InQueue s' q (xs ++ (rp ∷ []))) (ready (suc c.procs) rp s) =
      subst
        (λ n.
          Returns (λ _ s'. InQueue s' (fifo_queue n) (xs ++ (rp ∷ []))) (ready (suc c.procs) rp s))
        g
        (ready-InQueue s (suc c.procs) rp xs (λ e. omega (arith, e, t.0))
          (unblocked_priority k.sched rp ∙ user) (subst (λ n. (n ≡ 1) ⊎ (n ≡ 2)) (sym g) group)
          (subst (λ n. InQueue s (fifo_queue n) xs) (sym g) queued) o f) in
    rw (end_signals-ready c (counted k rp 0) rp t runs) (
      mono
        (on_sched-Returns (locked (ready (suc c.procs) rp))
          (record (counted k rp 0) { sched = unblocked k.sched rp })
          (locked-Returns (ready (suc c.procs) rp) (unblocked k.sched rp)
            (with_flags s (ready (suc c.procs) rp s) run (ready-RunKeeps (suc c.procs) rp s))))
        (λ _ k' (s1, (s2, (in_queue, same), e2), e1).
          rw (e1, e2)
            (
              counted_pendcount k rp 0,
              rw (same rp, unblocked_flags k.sched rp) runs,
              switching-InQueue s2 false q (xs ++ (rp ∷ [])) in_queue,
            )))

-- `do_endsig` for a user process of group 1 or 2 with signals that MM is not done with always returns OK, and
-- one signal less is left. As long as signals are left nothing else changes. After the last one a process
-- that only this signal kept from running can run again, and is at the end of the queue of its group,
-- behind the same processes as before.
pub do_endsig-SignalEnded :
    (c : Config) (k : Kernel) (rp : Ptr) (n : ℕ) (xs : List Ptr)
    → InTable c rp
    → (k.sched.proc rp).p_priority ≡ ppri_user
    → ((k.sched.proc rp).sched_group ≡ 1) ⊎ ((k.sched.proc rp).sched_group ≡ 2)
    → is_runnable (record ((k.sched.proc rp).p_flags) { sig_pending = false }) ≡ true
    → InQueue k.sched (fifo_queue (k.sched.proc rp).sched_group) xs
    → Once xs
    → Fresh rp xs
    → (k.talk rp).p_pendcount ≡ suc n
    → Returns (SignalEnded k rp n xs) (do_endsig c rp k)
do_endsig-SignalEnded c k rp zero xs t user group runs h o f one =
    by_run (end_signals c rp (counted k rp 0)) refl
      (last_signal-SignalEnded c k rp xs t user group runs h o f)
  where
    by_run :
        (r : Run Kernel (Unit {0}))
        → end_signals c rp (counted k rp 0) ≡ r
        → Returns
            (λ _ k'.
              ((k'.talk rp).p_pendcount ≡ 0)
              × (is_runnable (k'.sched.proc rp).p_flags ≡ true)
              × InQueue k'.sched (fifo_queue (k.sched.proc rp).sched_group) (xs ++ (rp ∷ [])))
            r
        → Returns (SignalEnded k rp zero xs) (do_endsig c rp k)
    by_run (ok a k') e (returns (count, free, in_queue)) =
        rw (do_endsig-last c k rp t user k' one e) (returns (last_signal refl count free in_queue))
    by_run panic e r = elim r [ ]
    by_run fault e r = elim r [ ]
    by_run out_of_fuel e r = elim r [ ]
do_endsig-SignalEnded c k rp (suc n) xs t user group runs h o f more =
    rw (do_endsig-more c k rp t user n more) (returns (more_signals (λ e. omega (arith, e))))
