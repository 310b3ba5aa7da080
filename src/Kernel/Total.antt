-- ===== src/Kernel/Total.antt =====
-- `ready` and `unready` of kernel/proc.c return when the ready queues are linked as they should be.
use soi_laboratoria_2025z.Base.{
  ℕ, ◌<◌, ◌≡◌, ◌≢◌, inl, inr, refl, sym, subst, ◌∙◌, Bool, true, false, List, [], ◌∷◌, arith, ◌==◌,
  if◌then◌else◌, Bool-cases, ok, length, Returns, returns, mono, bind, ap,
}
use soi_laboratoria_2025z.Kernel.Defs.{
  Ptr, nil_proc, Priority, ppri_none, ppri_task, ppri_server, ppri_user, ppri_idle, State, QueueId,
  task_q, server_q, user_q, g1, g2, g3, same_queue, in_group, load, pick_proc, enqueue,
}
use soi_laboratoria_2025z.Kernel.Sched.{
  ready, ready_task, ready_with_group, ready_front, insert_by_estimate, unready_from,
  unready_from_group, pick_if_running, group_queue, unready,
}
use soi_laboratoria_2025z.Kernel.Chain.{In}
use soi_laboratoria_2025z.Kernel.Estimate.{
  Fresh, Once, Fresh-In, seek_list, seek_estimate-run, seek_list-In,
}
use soi_laboratoria_2025z.Kernel.Insert.{
  tail_if_last-HasHead, insert_front, insert_behind, In-Chain,
}
use soi_laboratoria_2025z.Kernel.Enqueue.{InQueue, enqueue-InQueue}
use soi_laboratoria_2025z.Kernel.Remove.{without}
use soi_laboratoria_2025z.Kernel.Unready.{
  same_or, unlink-Unlinked, unready_empty, unready_head, unready_behind, without_head,
  unready_from_group-InQueue,
}
use soi_laboratoria_2025z.Kernel.Serving.{Chain-frame, length-without, fresh_apart}
use soi_laboratoria_2025z.Kernel.UnreadyFrom.{
  headless, unready_from_empty, unready_from_head, unready_from_behind,
}
use soi_laboratoria_2025z.Kernel.ReadyQueues.{
  ReadyQueues, InQueue-Chain, HasTwo, is_g2, pick_proc-Returns, pick_if_running-Returns,
}

module _ (s : State) (n : ℕ) (queues : QueueId → List Ptr) (r : ReadyQueues s n queues) (rp : Ptr)
    (ne : rp ≢ nil_proc) where
  two_of : HasTwo n s
  two_of = (queues g2, InQueue-Chain s g2 (queues g2) (r.holds g2), r.short g2)

  picked-Returns :
      (always : Bool) (s' : State)
      → HasTwo n s'
      → Returns (λ _ _. Unit {0}) (if always then pick_proc n s' else pick_if_running n rp s')
  picked-Returns true s' two = pick_proc-Returns n s' two
  picked-Returns false s' two = pick_if_running-Returns n rp s' two

  unready_from-Returns :
      (always : Bool) (q : QueueId)
      → same_queue g2 q ≡ false
      → (xs : List Ptr) → InQueue s q xs
      → Once xs
      → length xs < n
      → Returns (λ _ _. Unit {0}) (unready_from n always rp q s)
  unready_from-Returns always q other [] h o lt =
      rw (unready_from_empty s n rp ne always q h) (returns tt)
  unready_from-Returns always q other (x ∷ xs) h o lt =
      let two : HasTwo n (headless s n rp ne q) = rw other two_of in
      elim (same_or x rp) [
        | inl e ↦
            rw (unready_from_head s n rp ne always q (h.0.0 ∙ e))
              (picked-Returns always (headless s n rp ne q) two)
        | inr m ↦
            rw
              (
                unready_from_behind s n rp ne always q (λ z. h.0.1 (sym h.0.0 ∙ z))
                    (λ z. m (sym h.0.0 ∙ z)),
                h.0.0,
              )
              (mono
                (unlink-Unlinked s rp q ne xs n x (refl, h.0.1, h.0.2) o h.1 (omega (arith, lt)))
                (λ _ _ _. tt))
      ]

  -- The queue of group 2 after a removal from another queue.
  other_group-HasTwo :
      (q : QueueId)
      → same_queue g2 q ≡ false
      → (xs : List Ptr) → xs ≡ queues q
      → InQueue s q xs
      → Once xs
      → length xs < n
      → Returns (λ _ s'. HasTwo n s') (unready_from_group n rp q s)
  unfolding two_of
  other_group-HasTwo q other [] at h o lt = rw (unready_empty s n rp q ne h) (returns two_of)
  other_group-HasTwo q other (x ∷ xs) at h o lt = elim (same_or x rp) [
    | inl e ↦
        let two : HasTwo n (without_head s q rp) = rw other two_of in
        rw (unready_head s n rp q ne (h.0.0 ∙ e)) (returns two)
    | inr m ↦
        rw (unready_behind s n rp q ne (λ z. h.0.1 (sym h.0.0 ∙ z)) (λ z. m (sym h.0.0 ∙ z)), h.0.0)
          (mono (unlink-Unlinked s rp q ne xs n x (refl, h.0.1, h.0.2) o h.1 (omega (arith, lt)))
            (λ _ s' (chain, kept, head, tail, others, pri). (
              queues g2,
              rw (others g2 other) (
                  Chain-frame s.proc s'.proc (s.queue g2).head (queues g2)
                    (λ a i.
                      ap (λ p. p.p_nextready)
                        (kept a (
                          fresh_apart a (x ∷ xs)
                            (λ j. r.apart g2 q other a i (subst (λ zs. In a zs) at j)))))
                    two_of.1),
              r.short g2,
            )))
  ]

  unready_from_group-HasTwo :
      (q : QueueId) → Returns (λ _ s'. HasTwo n s') (unready_from_group n rp q s)
  unready_from_group-HasTwo q = elim (is_g2 q) [
    | inl e ↦ rw e (
        mono
          (unready_from_group-InQueue s n rp g2 (queues g2) ne (r.holds g2) (r.once g2)
            (r.short g2))
          (λ _ s' h. (
            without rp (queues g2),
            InQueue-Chain s' g2 (without rp (queues g2)) h,
            omega (arith, length-without rp (queues g2), r.short g2),
          )))
    | inr other ↦ other_group-HasTwo q other (queues q) refl (r.holds q) (r.once q) (r.short q)
  ]

  unready_of :
      (pri : Priority)
      → (s.proc rp).p_priority ≡ pri
      → (pri ≡ ppri_task → (s.proc rp).stack_ok ≡ true)
      → Returns (λ _ _. Unit {0}) (unready n rp s)
  unfolding unready load same_queue
  unready_of ppri_task e sound =
      let d : (rp == 0) ≡ false = ground (arith, ne) in
      rw (d, e, sound refl)
        (unready_from-Returns false task_q refl (queues task_q) (r.holds task_q) (r.once task_q)
          (r.short task_q))
  unready_of ppri_server e sound =
      let d : (rp == 0) ≡ false = ground (arith, ne) in
      rw (d, e)
        (unready_from-Returns true server_q refl (queues server_q) (r.holds server_q)
          (r.once server_q) (r.short server_q))
  unready_of ppri_user e sound =
      let d : (rp == 0) ≡ false = ground (arith, ne) in
      elim (Bool-cases (in_group (s.proc rp))) [
        | inl grouped ↦
            rw (d, e, grouped)
              (bind (unready_from_group-HasTwo (group_queue (s.proc rp).sched_group))
                (λ _ s' two. pick_if_running-Returns n rp s' two))
        | inr free ↦
            rw (d, e, free)
              (unready_from-Returns true user_q refl (queues user_q) (r.holds user_q)
                (r.once user_q) (r.short user_q))
      ]
  unready_of ppri_none e sound =
      let d : (rp == 0) ≡ false = ground (arith, ne) in
      rw (d, e)
        (unready_from-Returns true user_q refl (queues user_q) (r.holds user_q) (r.once user_q)
          (r.short user_q))
  unready_of ppri_idle e sound =
      let d : (rp == 0) ≡ false = ground (arith, ne) in
      rw (d, e)
        (unready_from-Returns true user_q refl (queues user_q) (r.holds user_q) (r.once user_q)
          (r.short user_q))

  -- `unready` returns, when the stack of a task is sound.
  pub unready-Returns :
      ((s.proc rp).p_priority ≡ ppri_task → (s.proc rp).stack_ok ≡ true)
      → Returns (λ _ _. Unit {0}) (unready n rp s)
  unready-Returns sound = unready_of (s.proc rp).p_priority refl sound

  module _ (out : (q : QueueId) → In rp (queues q) → ⊥) where
    fresh : (q : QueueId) → Fresh rp (queues q)
    fresh q = fresh_apart rp (queues q) (out q)

    enqueue-Returns : (q : QueueId) → Returns (λ _ _. Unit {0}) (enqueue q rp s)
    enqueue-Returns q =
        mono (enqueue-InQueue s q rp ne (queues q) (r.holds q) (r.once q) (fresh q)) (λ _ _ _. tt)

    ready_task-Returns : Returns (λ _ _. Unit {0}) (ready_task rp s)
    unfolding ready_task
    ready_task-Returns = elim (Bool-cases ((s.queue task_q).head == nil_proc)) [
      | inl first ↦ rw first (
          mono
            (enqueue-InQueue (record s { proc_ptr = rp }) task_q rp ne (queues task_q)
              (r.holds task_q) (r.once task_q) (fresh task_q))
            (λ _ _ _. tt))
      | inr more ↦ rw more (enqueue-Returns task_q)
    ]

    ready_front-Returns : Returns (λ _ _. Unit {0}) (ready_front rp s)
    unfolding ready_front
    ready_front-Returns = let d : (rp == 0) ≡ false = ground (arith, ne) in rw (d, d) (returns tt)

    insert-Returns : Returns (λ _ _. Unit {0}) (insert_by_estimate n rp s)
    insert-Returns =
        let e = (s.proc rp).cpu_estimate in
        let chain = InQueue-Chain s g3 (queues g3) (r.holds g3) in
        let run =
          seek_estimate-run s (queues g3) n e nil_proc (s.queue g3).head chain (r.short g3) in
        elim (seek_list-In s.proc e nil_proc (queues g3)) [
          | inl front ↦
              rw (insert_front s n rp ne (run ∙ ap (λ x. ok x s) front))
                (mono (tail_if_last-HasHead _ rp ne) (λ _ _ _. tt))
          | inr i ↦
              let q = seek_list s.proc e nil_proc (queues g3) in
              rw
                (insert_behind s n rp ne q (In-Chain s.proc (s.queue g3).head q (queues g3) chain i)
                  (Fresh-In rp q (queues g3) (fresh g3) i) run)
                (mono (tail_if_last-HasHead _ rp ne) (λ _ _ _. tt))
        ]

    ready_with_group-Returns : Returns (λ _ _. Unit {0}) (ready_with_group n rp s)
    unfolding ready_with_group load
    ready_with_group-Returns =
        let d : (rp == 0) ≡ false = ground (arith, ne) in
        let g = (s.proc rp).sched_group in
        rw d (elim (Bool-cases (g == 1)) [
          | inl one ↦ rw one (enqueue-Returns g1)
          | inr x ↦ rw x (elim (Bool-cases (g == 2)) [
            | inl two ↦ rw two (enqueue-Returns g2)
            | inr y ↦ rw y (elim (Bool-cases (g == 3)) [
              | inl three ↦ rw three insert-Returns
              | inr z ↦ rw z (returns tt)
            ])
          ])
        ])

    ready_of :
        (pri : Priority) → (s.proc rp).p_priority ≡ pri → Returns (λ _ _. Unit {0}) (ready n rp s)
    unfolding ready load
    ready_of ppri_task e =
        let d : (rp == 0) ≡ false = ground (arith, ne) in rw (d, e) ready_task-Returns
    ready_of ppri_server e =
        let d : (rp == 0) ≡ false = ground (arith, ne) in rw (d, e) (enqueue-Returns server_q)
    ready_of ppri_user e =
        let d : (rp == 0) ≡ false = ground (arith, ne) in
        elim (Bool-cases (in_group (s.proc rp))) [
          | inl grouped ↦ rw (d, e, grouped) ready_with_group-Returns
          | inr free ↦ rw (d, e, free) ready_front-Returns
        ]
    ready_of ppri_none e =
        let d : (rp == 0) ≡ false = ground (arith, ne) in rw (d, e) ready_front-Returns
    ready_of ppri_idle e =
        let d : (rp == 0) ≡ false = ground (arith, ne) in rw (d, e) ready_front-Returns

    -- `ready` of a process that is in no ready queue returns.
    pub ready-Returns : Returns (λ _ _. Unit {0}) (ready n rp s)
    ready-Returns = ready_of (s.proc rp).p_priority refl
