-- ===== src/Setgroup/Stays.antt =====
-- `do_setgroup` of kernel/system.c moves no process: a ready process stays in the queue of its old group.
use soi_laboratoria_2025z.Base.{
  ℕ, zero, suc, ◌<◌, ◌≡◌, ◌≢◌, refl, sym, ◌∙◌, true, false, List, [], ◌∷◌, length, ◌==◌, arith,
  subst, ok, Returns, returns,
}
use soi_laboratoria_2025z.Kernel.Defs.{
  Ptr, nil_proc, Proc, State, QueueId, ppri_user, is_user, in_group, get_proc_ptr, load, write,
}
use soi_laboratoria_2025z.Kernel.Sched.{
  unlink, unready_from_group, group_queue, unready, pick_if_running,
}
use soi_laboratoria_2025z.Kernel.Chain.{Chain, Chain-kept}
use soi_laboratoria_2025z.Kernel.Estimate.{Fresh}
use soi_laboratoria_2025z.Kernel.Enqueue.{InQueue}
use soi_laboratoria_2025z.Kernel.Remove.{unlink_missing, unlink_step}
use soi_laboratoria_2025z.Kernel.Unready.{unready_empty, unready_behind}
use soi_laboratoria_2025z.Setgroup.{Reply, done, kernel_setgroup, is_accepted}
use soi_laboratoria_2025z.Setgroup.Outcome.{in_new_group, kernel_setgroup_user}

module _ (s : State) (rp group estimate : ℕ) where
  in_new_group_next :
      (a : Ptr) → ((in_new_group s rp group estimate).proc a).p_nextready ≡ (s.proc a).p_nextready
  unfolding write
  in_new_group_next a = ground arith

  in_new_group-InQueue :
      (q : QueueId) (xs : List Ptr)
      → InQueue s q xs
      → InQueue (in_new_group s rp group estimate) q xs
  in_new_group-InQueue q [] h = h
  in_new_group-InQueue q (x ∷ xs) h = (
    Chain-kept s.proc (in_new_group s rp group estimate).proc in_new_group_next (s.queue q).head
        (x ∷ xs) h.0,
    h.1,
  )

module _ (s : State) (rp : Ptr) (q : QueueId) (rne : rp ≢ nil_proc) where
  unlink_passes :
      (ys : List Ptr) (fuel : ℕ) (x : Ptr)
      → Chain s.proc x (x ∷ ys)
      → Fresh rp ys
      → length ys < fuel
      → unlink fuel rp x q s ≡ ok tt s
  unlink_passes ys zero x c f lt = absurd (omega arith)
  unlink_passes [] (suc fuel) x c f lt = unlink_missing s fuel rp x q c.1 rne c.2
  unlink_passes (y ∷ ys) (suc fuel) x c f lt =
      rw
        (
          unlink_step s fuel rp x q c.1 rne (λ h. c.2.1 (sym c.2.0 ∙ h)) (λ h. f.0 (sym h ∙ c.2.0)),
          c.2.0,
        )
        (unlink_passes ys fuel y (refl, c.2.1, c.2.2) f.1 (omega arith))

  -- `unready_from_group` does nothing to a queue without the process.
  unready_from_group-passes :
      (ys : List Ptr) (fuel : ℕ)
      → InQueue s q ys
      → Fresh rp ys
      → length ys < fuel
      → unready_from_group fuel rp q s ≡ ok tt s
  unready_from_group-passes [] fuel h f lt = unready_empty s fuel rp q rne h
  unready_from_group-passes (y ∷ ys) fuel h f lt =
      rw
        (
          unready_behind s fuel rp q rne (λ n. h.0.1 (sym h.0.0 ∙ n)) (λ n. f.0 (sym n ∙ h.0.0)),
          h.0.0,
        )
        (unlink_passes ys fuel y (refl, h.0.1, h.0.2) f.1 (omega arith))

-- `rp` is in the group `group` now, the queue of its old group `old` still holds `xs`, and `unready` of `rp`
-- leaves everything as it is.
pub data Lost (fuel : ℕ) (rp : Ptr) (old group : ℕ) (xs : List Ptr) : Reply → State → Type 0 where
  lost :
      {s : State}
      → (s.proc rp).sched_group ≡ group
      → InQueue s (group_queue old) xs
      → unready fuel rp s ≡ ok tt s
      → Lost fuel rp old group xs done s

module _ (s : State) (fuel : ℕ) (rp : Ptr) (rne : rp ≢ nil_proc) where
  unready_user :
      (s.proc rp).p_priority ≡ ppri_user
      → in_group (s.proc rp) ≡ true
      → s.proc_ptr ≢ rp
      → unready_from_group fuel rp (group_queue (s.proc rp).sched_group) s ≡ ok tt s
      → unready fuel rp s ≡ ok tt s
  unfolding unready load pick_if_running get_proc_ptr
  unready_user u g r h =
      let e : (rp == 0) ≡ false = ground (arith, rne) in
      let o : (rp == s.proc_ptr) ≡ false = ground (arith, r) in rw (e, u, g, h, o) refl

is_user_of : (p : Proc) → p.p_priority ≡ ppri_user → is_user p ≡ true
unfolding is_user
is_user_of p h = rw h refl

accepted-in_group :
    (p : Proc) (group estimate : ℕ)
    → is_user p ≡ true
    → p.sched_group ≡ group
    → is_accepted group estimate ≡ true
    → in_group p ≡ true
unfolding is_accepted
accepted-in_group p group estimate u e a = rw (u, e) (ground arith)

module _ (s : State) (rp group estimate : ℕ) where
  in_new_group_group : ((in_new_group s rp group estimate).proc rp).sched_group ≡ group
  unfolding write
  in_new_group_group = ground arith

  in_new_group_priority :
      ((in_new_group s rp group estimate).proc rp).p_priority ≡ (s.proc rp).p_priority
  unfolding write
  in_new_group_priority = ground arith

-- `do_setgroup` of the kernel moves no process to another queue. When a user process that is not running is
-- put into another group whose queue it is not in, the call returns OK, the queue of the
-- old group holds the same processes as before, the process among them when it was ready, and
-- an `unready` of the process leaves the whole state as it is, so that it stays in that queue.
pub kernel_setgroup-Lost :
    (s : State) (fuel : ℕ) (rp : Ptr) (group estimate : ℕ) (xs ys : List Ptr)
    → rp ≢ nil_proc
    → (s.proc rp).p_priority ≡ ppri_user
    → is_accepted group estimate ≡ true
    → s.proc_ptr ≢ rp
    → InQueue s (group_queue (s.proc rp).sched_group) xs
    → InQueue s (group_queue group) ys
    → Fresh rp ys
    → length ys < fuel
    → Returns (Lost fuel rp (s.proc rp).sched_group group xs) (kernel_setgroup rp group estimate s)
kernel_setgroup-Lost s fuel rp group estimate xs ys rne u a r hx hy f lt =
    let s' = in_new_group s rp group estimate in
    let now : (s'.proc rp).sched_group ≡ group = in_new_group_group s rp group estimate in
    let user : (s'.proc rp).p_priority ≡ ppri_user =
      in_new_group_priority s rp group estimate ∙ u in
    let member : in_group (s'.proc rp) ≡ true =
      accepted-in_group (s'.proc rp) group estimate (is_user_of (s'.proc rp) user) now a in
    let missed : unready_from_group fuel rp (group_queue group) s' ≡ ok tt s' =
      unready_from_group-passes s' rp (group_queue group) rne ys fuel
        (in_new_group-InQueue s rp group estimate (group_queue group) ys hy) f lt in
    rw (kernel_setgroup_user s rp group estimate rne (is_user_of (s.proc rp) u)) (
      returns (
        lost now
          (in_new_group-InQueue s rp group estimate (group_queue (s.proc rp).sched_group) xs hx)
          (unready_user s' fuel rp rne user member r (
            subst (λ g. unready_from_group fuel rp (group_queue g) s' ≡ ok tt s') (sym now)
              missed))))
