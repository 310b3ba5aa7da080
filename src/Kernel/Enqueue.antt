-- ===== src/Kernel/Enqueue.antt =====
-- `ready` of kernel/proc.c for user processes of groups 1 and 2, whose queues are first come, first served.
use soi_laboratoria_2025z.Base.{
  ℕ, ◌≡◌, ◌≢◌, ◌⊎◌, inl, inr, refl, sym, ◌∙◌, true, List, [], ◌∷◌, ◌++◌, arith, ◌==◌, if◌then◌else◌,
  ok, Returns, returns,
}
use soi_laboratoria_2025z.Kernel.Defs.{
  Ptr, nil_proc, Proc, State, Queue, QueueId, task_q, server_q, user_q, g1, g2, g3, ppri_user,
  write, same_queue, is_user, enqueue,
}
use soi_laboratoria_2025z.Kernel.Sched.{ready, ready_with_group}
use soi_laboratoria_2025z.Kernel.Chain.{Chain}
use soi_laboratoria_2025z.Kernel.Estimate.{Fresh, Once, Fresh-In}
use soi_laboratoria_2025z.Kernel.Rotate.{last_of, last_of-In, last_of_ne, append-Chain}

pub same_queue_refl : (q : QueueId) → same_queue q q ≡ true
unfolding same_queue
same_queue_refl task_q = refl
same_queue_refl server_q = refl
same_queue_refl user_q = refl
same_queue_refl g1 = refl
same_queue_refl g2 = refl
same_queue_refl g3 = refl

last_of-append : (x : Ptr) (xs : List Ptr) (rp : Ptr) → last_of x (xs ++ (rp ∷ [])) ≡ rp
last_of-append x [] rp = refl
last_of-append x (y ∷ ys) rp = last_of-append y ys rp

-- The processes of a queue, with its tail at the last of them.
abbrev pub InQueue : State → QueueId → List Ptr → Type 0
InQueue s q [] = (s.queue q).head ≡ nil_proc
InQueue s q (x ∷ xs) = Chain s.proc (s.queue q).head (x ∷ xs) × ((s.queue q).tail ≡ last_of x xs)

-- The table after `rp` has gone behind `l`.
appended : (Ptr → Proc) → (l rp : Ptr) → Ptr → Proc
appended t l rp =
    write (write t l (record (t l) { p_nextready = rp })) rp
      (record (t rp) { p_nextready = nil_proc })

module _ (t : Ptr → Proc) (l rp : Ptr) (apart : l ≢ rp) where
  appended_next : (appended t l rp l).p_nextready ≡ rp
  unfolding appended write
  appended_next = ground arith

  appended_end : (appended t l rp rp).p_nextready ≡ nil_proc
  unfolding appended write
  appended_end = ground arith

  appended_other : (a : Ptr) → a ≢ l → a ≢ rp → (appended t l rp a).p_nextready ≡ (t a).p_nextready
  unfolding appended write
  appended_other a h g = ground arith

abbrev with_queue : State → QueueId → (Ptr → Proc) → Queue → State
with_queue s q t v = record s { proc = t; queue = λ j. if same_queue j q then v else s.queue j }

module _ (s : State) (q : QueueId) (rp : Ptr) (ne : rp ≢ nil_proc) where
  enqueue_first :
      (s.queue q).head ≡ nil_proc
      → enqueue q rp s
        ≡ ok tt (
            with_queue s q
              (write s.proc rp (record (s.proc rp) { p_nextready = nil_proc }))
              (record { head = rp; tail = rp }))
  unfolding enqueue
  enqueue_first h = ground arith

  enqueue_behind :
      (l : Ptr)
      → (s.queue q).head ≢ nil_proc
      → (s.queue q).tail ≡ l
      → l ≢ nil_proc
      → l ≢ rp
      → enqueue q rp s
        ≡ ok tt
            (with_queue s q (appended s.proc l rp) (record { head = (s.queue q).head; tail = rp }))
  unfolding enqueue appended
  enqueue_behind l h e a b = ground arith

  alone :
      (write s.proc rp (record (s.proc rp) { p_nextready = nil_proc }) rp).p_nextready ≡ nil_proc
  unfolding write
  alone = ground arith

  pub enqueue-InQueue :
      (xs : List Ptr)
      → InQueue s q xs
      → Once xs
      → Fresh rp xs
      → Returns (λ _ s'. InQueue s' q (xs ++ (rp ∷ []))) (enqueue q rp s)
  enqueue-InQueue [] h o f =
      rw (enqueue_first h) (returns (rw (same_queue_refl q) ((refl, ne, alone), refl)))
  enqueue-InQueue (x ∷ xs) h o f =
      let l = last_of x xs in
      let apart : l ≢ rp = Fresh-In rp l (x ∷ xs) f (last_of-In x xs) in
      let l_ne : l ≢ nil_proc = last_of_ne s.proc (s.queue q).head x xs h.0 in
      rw (enqueue_behind l (λ e. h.0.1 (sym h.0.0 ∙ e)) h.1 l_ne apart) (
        returns (
          rw (same_queue_refl q) (
            append-Chain s.proc (appended s.proc l rp) rp (s.queue q).head x xs ne h.0 o f
                (appended_next s.proc l rp apart) (appended_end s.proc l rp apart)
                (appended_other s.proc l rp apart),
            sym (last_of-append x xs rp),
          )))

-- The queues of groups 1 and 2.
abbrev pub fifo_queue : (group : ℕ) → QueueId
fifo_queue n = if n == 1 then g1 else g2

ready_of_fifo :
    (s : State) (fuel : ℕ) (rp : Ptr)
    → rp ≢ nil_proc
    → (s.proc rp).p_priority ≡ ppri_user
    → ((s.proc rp).sched_group ≡ 1) ⊎ ((s.proc rp).sched_group ≡ 2)
    → ready fuel rp s ≡ enqueue (fifo_queue (s.proc rp).sched_group) rp s
unfolding ready ready_with_group is_user
ready_of_fifo s fuel rp ne user (inl one) = ground (arith, user, one)
ready_of_fifo s fuel rp ne user (inr two) = ground (arith, user, two)

-- `ready` of a user process of group 1 or 2 that is not in its queue returns with the process at the end of
-- that queue, behind the same processes as before, and the tail of the queue at it.
pub ready-InQueue :
    (s : State) (fuel : ℕ) (rp : Ptr) (xs : List Ptr)
    → rp ≢ nil_proc
    → (s.proc rp).p_priority ≡ ppri_user
    → ((s.proc rp).sched_group ≡ 1) ⊎ ((s.proc rp).sched_group ≡ 2)
    → InQueue s (fifo_queue (s.proc rp).sched_group) xs
    → Once xs
    → Fresh rp xs
    → Returns
        (λ _ s'. InQueue s' (fifo_queue (s.proc rp).sched_group) (xs ++ (rp ∷ [])))
        (ready fuel rp s)
ready-InQueue s fuel rp xs ne user group h o f =
    rw (ready_of_fifo s fuel rp ne user group)
      (enqueue-InQueue s (fifo_queue (s.proc rp).sched_group) rp ne xs h o f)
