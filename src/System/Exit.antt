-- ===== src/System/Exit.antt =====
-- The result of `do_xit` in kernel/system.c for a process that a signal has killed while it was sending.
use soi_laboratoria_2025z.Base.{
  ◌+◌, ◌-◌, ◌≡◌, ◌≢◌, inl, inr, refl, sym, subst, ap, true, false, List, [], ◌∷◌, ◌++◌, arith,
  if◌then◌else◌, ok, Returns, returns,
}
use soi_laboratoria_2025z.Kernel.Defs.{Ptr, ppri_none, is_user, write}
use soi_laboratoria_2025z.Kernel.Chain.{In}
use soi_laboratoria_2025z.Kernel.Estimate.{Once}
use soi_laboratoria_2025z.Kernel.Rotate.{last_of, last_of-In}
use soi_laboratoria_2025z.Messages.Defs.{
  Talk, Kernel, Config, load_talk, store_talk, load_proc, write_talk, is_runnable,
}
use soi_laboratoria_2025z.Messages.Path.{InTable, is_sending, SendPath, NoCycle}
use soi_laboratoria_2025z.Messages.Queues.{Links, Links-frame, Callers}
use soi_laboratoria_2025z.Messages.Left.{
  with_list, Left, Links-without, Left-Callers, Left-NoCycle, In-front,
}
use soi_laboratoria_2025z.Clock.Defs.{at_slot, put_kernel, on_kernel}
use soi_laboratoria_2025z.System.Defs.{
  System, put_clock, in_kernel, no_flags, leave_queues, end_process, exit_process, assert_user,
  count_child, do_xit,
}
use soi_laboratoria_2025z.System.Loop.{bypassed, beheaded}
use soi_laboratoria_2025z.System.Leave.{gone, leave_queues-gone}

-- The table of messages after `end_process`.
abbrev cleared : (Ptr → Talk) → (rc : Ptr) → Ptr → Talk
cleared t rc = write_talk t rc (record (t rc) { p_pending = []; p_pendcount = 0 })

abbrev exited : Kernel → (Ptr → Talk) → (rc : Ptr) → Kernel
exited k t rc = record k {
  talk = cleared t rc;
  sig_procs = if (k.sched.proc rc).p_flags.pending then k.sig_procs - 1 else k.sig_procs;
  sched = record (k.sched) {
    proc =
        write k.sched.proc rc
          (record (k.sched.proc rc) { p_flags = no_flags; p_priority = ppri_none });
  };
}

exit_process-exited :
    (c : Config) (k : Kernel) (rc : Ptr) (t : Ptr → Talk)
    → InTable c rc
    → is_sending k rc ≡ true
    → leave_queues c c.procs rc 1 k ≡ ok tt (record k { talk = t })
    → exit_process c rc k ≡ ok tt (exited k t rc)
unfolding exit_process end_process load_proc load_talk store_talk is_runnable
exit_process-exited c k rc t u h e = ground (arith, u.0, u.1, h, e)

module _ (k : Kernel) (t : Ptr → Talk) (rc : Ptr) where
  exited_rc : is_sending (exited k t rc) rc ≡ false
  unfolding write
  exited_rc = ground arith

  exited_other : (y : Ptr) → y ≢ rc → (exited k t rc).sched.proc y ≡ k.sched.proc y
  unfolding write
  exited_other y n = ground arith

module _ (c : Config) (k : Kernel) (rc d : Ptr) (after : List Ptr) where
  exited-Left :
      (before : List Ptr)
      → Once (before ++ (rc ∷ after))
      → Links c k.talk (k.talk d).p_callerq (before ++ (rc ∷ after))
      → Left c k
          (before ++ (rc ∷ after))
          (before ++ after)
          d
          rc
          (exited k (gone k.talk rc d before) rc)
  unfolding write_talk
  exited-Left [] o h =
      let t : Ptr → Talk = cleared (beheaded k.talk rc d) rc in
      let at : (t d).p_callerq ≡ (k.talk rc).p_sendlink = ground arith in
      record {
        sending_x = exited_rc k (beheaded k.talk rc d) rc;
        sending_other =
            λ y n. ap (λ p. p.p_flags.sending) (exited_other k (beheaded k.talk rc d) rc y n);
        sendto = λ y. ground arith;
        queue =
            subst (λ p. Links c t p after) (sym at)
              (Links-frame c k.talk t (k.talk rc).p_sendlink after (λ y i. ground arith) h.2);
        queue_other = λ e n. ground arith;
        link_other = λ y i. ground arith;
      }
  exited-Left (y ∷ ys) o h =
      let t : Ptr → Talk = cleared (bypassed k.talk rc (last_of y ys)) rc in
      let same : (t d).p_callerq ≡ (k.talk d).p_callerq = ground arith in
      record {
        sending_x = exited_rc k (bypassed k.talk rc (last_of y ys)) rc;
        sending_other = λ z n.
            ap (λ p. p.p_flags.sending) (exited_other k (bypassed k.talk rc (last_of y ys)) rc z n);
        sendto = λ z. ground arith;
        queue =
            subst (λ p. Links c t p ((y ∷ ys) ++ after)) (sym same)
              (Links-without c k.talk t (k.talk d).p_callerq y rc ys after o (ground arith)
                (λ z n. ground arith) h);
        queue_other = λ e n. ground arith;
        link_other = λ z i.
            let n : z ≢ last_of y ys = λ e. i (
              subst (λ w. In w ((y ∷ ys) ++ (rc ∷ after))) (sym e)
                (In-front (last_of y ys) (y ∷ ys) (rc ∷ after) (last_of-In y ys))) in
            ground (arith, n);
      }

-- A list with the place of one of its processes.
record Split (x : Ptr) (xs : List Ptr) : Type 0 where
  before : List Ptr
  after : List Ptr
  split : xs ≡ before ++ (x ∷ after)

In-Split : (x : Ptr) (xs : List Ptr) → In x xs → Split x xs
In-Split x [] i = absurd i
In-Split x (y ∷ ys) (inl e) = record { before = []; after = ys; split = ap (λ z. z ∷ ys) (sym e) }
In-Split x (y ∷ ys) (inr i) =
    let r = In-Split x ys i in
    record { before = y ∷ r.before; after = r.after; split = ap (◌∷◌ y) r.split }

-- The process `rc` has ended: it has left the queue it was in, and its slot is empty.
pub record Ended (c : Config) (s : System) (lists : Ptr → List Ptr) (parent rc : Ptr) (s' : System)
    : Type 0 where
  pub before : List Ptr
  pub after : List Ptr
  pub split : lists (s.clock.kernel.talk rc).p_sendto ≡ before ++ (rc ∷ after)
  pub callers :
      Callers c s'.clock.kernel
        (with_list lists (s.clock.kernel.talk rc).p_sendto (before ++ after))
  pub no_cycle : NoCycle c s'.clock.kernel
  pub priority : (s'.clock.kernel.sched.proc rc).p_priority ≡ ppri_none
  pub flags : (s'.clock.kernel.sched.proc rc).p_flags ≡ no_flags
  pub others : (p : Ptr) → p ≢ rc → s'.clock.kernel.sched.proc p ≡ s.clock.kernel.sched.proc p
  pub alarm : s'.clock.alarm rc ≡ 0
  pub user_time :
      s'.child_utime parent ≡ s.child_utime parent + (s.clock.user_time rc + s.child_utime rc)
  pub sys_time :
      s'.child_stime parent ≡ s.child_stime parent + (s.clock.sys_time rc + s.child_stime rc)

-- The state after `count_child`, and with another state of the kernel.
abbrev counted : System → (parent rc : Ptr) → System
counted s parent rc = record s {
  child_utime =
      at_slot s.child_utime parent
        (s.child_utime parent + (s.clock.user_time rc + s.child_utime rc));
  child_stime =
      at_slot s.child_stime parent
        (s.child_stime parent + (s.clock.sys_time rc + s.child_stime rc));
  clock = record (s.clock) { alarm = at_slot s.clock.alarm rc 0 };
}

abbrev with_kernel : System → Kernel → System
with_kernel s k = record s { clock = record (s.clock) { kernel = k } }

assert_user_holds :
    (c : Config) (k : Kernel) (p : Ptr)
    → InTable c p
    → is_user (k.sched.proc p) ≡ true
    → assert_user c p k ≡ ok tt k
unfolding assert_user load_proc
assert_user_holds c k p t h = ground (arith, t.0, t.1, h)

do_xit-step :
    (c : Config) (s : System) (parent rc : Ptr) (k' : Kernel)
    → assert_user c parent s.clock.kernel ≡ ok tt s.clock.kernel
    → assert_user c rc s.clock.kernel ≡ ok tt s.clock.kernel
    → exit_process c rc s.clock.kernel ≡ ok tt k'
    → do_xit c parent rc s ≡ ok tt (with_kernel (counted s parent rc) k')
unfolding do_xit in_kernel put_clock on_kernel put_kernel count_child
do_xit-step c s parent rc k' h g e = rw (h, g, e) refl

SendPath-InTable :
    (c : Config) (k : Kernel) (p : Ptr) (qs : List Ptr)
    → SendPath c k p qs
    → is_sending k p ≡ true
    → InTable c (k.talk p).p_sendto
SendPath-InTable c k p [] h s = cc
SendPath-InTable c k p (x ∷ xs) h s = rw h.1 h.2

-- `do_xit` for a user process that is blocked while sending, as it is when a signal kills it, always
-- returns. The process leaves the queue in which it stood, where the others keep their order; the caller queues
-- hold again exactly the processes that are blocked sending, and no processes send to each other in a circle.
-- The slot is empty, no other slot changes its scheduling or its flags, the alarm is off, and the times of
-- the process and of its children are added to those of the children of its parent.
pub do_xit-Ended :
    (c : Config) (s : System) (lists : Ptr → List Ptr) (parent rc : Ptr)
    → InTable c parent
    → InTable c rc
    → is_user (s.clock.kernel.sched.proc parent) ≡ true
    → is_user (s.clock.kernel.sched.proc rc) ≡ true
    → is_sending s.clock.kernel rc ≡ true
    → Callers c s.clock.kernel lists
    → NoCycle c s.clock.kernel
    → Returns (λ _ s'. Ended c s lists parent rc s') (do_xit c parent rc s)
unfolding write at_slot
do_xit-Ended c s lists parent rc v u a b sends q all =
    let k = s.clock.kernel in
    let d = (k.talk rc).p_sendto in
    let (path, sent) = all rc u in
    let at : InTable c d = SendPath-InTable c k rc path sent sends in
    let r = In-Split rc (lists d) (q.waits rc u sends) in
    let t : Ptr → Talk = gone k.talk rc d r.before in
    let left : Left c k (lists d) (r.before ++ r.after) d rc (exited k t rc) =
      subst (λ xs. Left c k xs (r.before ++ r.after) d rc (exited k t rc)) (sym r.split)
        (exited-Left c k rc d r.after r.before (rw r.split at (q.once d at))
          (rw r.split at (q.links d at))) in
    let loop : leave_queues c c.procs rc 1 k ≡ ok tt (record k { talk = t }) =
      leave_queues-gone c k lists q rc d u at r.after r.before c.procs 1 r.split (omega arith)
        (omega (arith, at.0)) (omega (arith, at.1)) (omega arith) in
    rw
      (do_xit-step c s parent rc (exited k t rc) (assert_user_holds c k parent v a)
        (assert_user_holds c k rc u b) (exit_process-exited c k rc t u sends loop))
      (returns (record {
        before = r.before;
        after = r.after;
        split = r.split;
        callers = Left-Callers c k (exited k t rc) lists d rc r.before r.after at q r.split left;
        no_cycle =
            Left-NoCycle c k (exited k t rc) lists d rc r.before r.after at q r.split left all;
        priority = ground arith;
        flags = ground arith;
        others = λ p n. exited_other k t rc p n;
        alarm = ground arith;
        user_time = ground arith;
        sys_time = ground arith;
      }))
