-- ===== src/Kernel/UnreadyFrom.antt =====
-- The cases of `unready` of kernel/proc.c in TASK_Q, SERVER_Q and USER_Q.
use soi_laboratoria_2025z.Base.{
  ℕ, ◌≡◌, ◌≢◌, refl, Bool, true, false, arith, ◌==◌, if◌then◌else◌, ok,
}
use soi_laboratoria_2025z.Kernel.Defs.{Ptr, nil_proc, State, QueueId, same_queue, load, pick_proc}
use soi_laboratoria_2025z.Kernel.Sched.{unlink, unready_from, pick_if_running}

module _ (s : State) (n : ℕ) (rp : Ptr) (ne : rp ≢ nil_proc) where
  abbrev pub headless : QueueId → State
  headless q = record s {
    queue = λ j.
        if same_queue j q then record (s.queue q) { head = (s.proc rp).p_nextready } else s.queue j;
  }

  pub unready_from_empty :
      (always : Bool) (q : QueueId)
      → (s.queue q).head ≡ nil_proc
      → unready_from n always rp q s ≡ ok tt s
  unfolding unready_from
  unready_from_empty always q h = ground (arith, h)

  pub unready_from_head :
      (always : Bool) (q : QueueId)
      → (s.queue q).head ≡ rp
      → unready_from n always rp q s
        ≡ (if always then pick_proc n (headless q) else pick_if_running n rp (headless q))
  unfolding unready_from load
  unready_from_head true q h =
      let e : (rp == 0) ≡ false = ground (arith, ne) in
      let f : (rp == rp) ≡ true = ground arith in rw (h, e, f, e) refl
  unready_from_head false q h =
      let e : (rp == 0) ≡ false = ground (arith, ne) in
      let f : (rp == rp) ≡ true = ground arith in rw (h, e, f, e) refl

  pub unready_from_behind :
      (always : Bool) (q : QueueId)
      → (s.queue q).head ≢ nil_proc
      → (s.queue q).head ≢ rp
      → unready_from n always rp q s ≡ unlink n rp (s.queue q).head q s
  unfolding unready_from
  unready_from_behind always q h g = ground (arith, h, g)
