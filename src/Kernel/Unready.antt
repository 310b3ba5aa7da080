-- ===== src/Kernel/Unready.antt =====
-- The result of `unready_from_group` of kernel/proc.c.
use soi_laboratoria_2025z.Base.{
  ℕ, zero, suc, ◌<◌, ◌≡◌, ◌≢◌, ◌⊎◌, inl, inr, refl, sym, ◌∙◌, false, List, [], ◌∷◌, arith, ◌==◌,
  if◌then◌else◌, Bool-cases, ok, length, Returns, returns, mono,
}
use soi_laboratoria_2025z.Kernel.Defs.{Ptr, nil_proc, State, QueueId, same_queue}
use soi_laboratoria_2025z.Kernel.Sched.{unlink, unready_from_group}
use soi_laboratoria_2025z.Kernel.Chain.{Chain}
use soi_laboratoria_2025z.Kernel.Estimate.{Once}
use soi_laboratoria_2025z.Kernel.Rotate.{last_of}
use soi_laboratoria_2025z.Kernel.Enqueue.{InQueue, same_queue_refl}
use soi_laboratoria_2025z.Kernel.Remove.{
  without, without_here, without_there, without_nil, unlink_missing, unlink_step, unlink_found,
  Unlinked,
}

pub same_or : (p r : Ptr) → (p ≡ r) ⊎ (p ≢ r)
same_or p r = elim (Bool-cases (p == r)) [
  | inl e ↦ inl (ground arith)
  | inr e ↦ inr (λ h. ground arith)
]

module _ (s : State) (rp : Ptr) (q : QueueId) (rne : rp ≢ nil_proc) where
  Unlinked-behind :
      (x y : Ptr) (ys : List Ptr)
      → Chain s.proc x (x ∷ y ∷ ys)
      → Once (x ∷ y ∷ ys)
      → y ≢ rp
      → (s' : State) → Unlinked s q rp y ys s'
      → Unlinked s q rp x (y ∷ ys) s'
  Unlinked-behind x y ys c o yr s' (chain, kept, head, tail, others, pri) =
      rw (without_there rp y ys yr)
        ((refl, c.1, rw (kept x o.0, c.2.0) chain), (λ a f. kept a f.1), head, tail, others, pri)

  pub unlink-Unlinked :
      (xs : List Ptr) (fuel : ℕ) (x : Ptr)
      → Chain s.proc x (x ∷ xs)
      → Once (x ∷ xs)
      → (s.queue q).tail ≡ last_of x xs
      → length xs < fuel
      → Returns (λ _ s'. Unlinked s q rp x xs s') (unlink fuel rp x q s)
  unlink-Unlinked xs zero x c o last lt = absurd (omega arith)
  unlink-Unlinked [] (suc fuel) x c o last lt =
      rw (unlink_missing s fuel rp x q c.1 rne c.2, without_nil rp)
        (returns ((refl, c.1, c.2), (λ a f. refl), refl, last, (λ j n. refl), (λ a. refl)))
  unlink-Unlinked (y ∷ ys) (suc fuel) x c o last lt = elim (same_or y rp) [
    | inl e ↦ rw e (unlink_found s rp q rne fuel x ys (rw e at c) (rw e at o) (rw e at last))
    | inr yr ↦
        rw
          (
            unlink_step s fuel rp x q c.1 rne (λ h. c.2.1 (sym c.2.0 ∙ h))
                (λ h. yr (sym c.2.0 ∙ h)),
            c.2.0,
          )
          (mono (unlink-Unlinked ys fuel y (refl, c.2.1, c.2.2) o.1 last (omega arith))
            (λ _ s' u. Unlinked-behind x y ys c o yr s' u))
  ]

abbrev pub without_head : State → QueueId → Ptr → State
without_head s q rp = record s {
  queue = λ j.
      if same_queue j q
      then record {
        head = (s.proc rp).p_nextready;
        tail = if (s.proc rp).p_nextready == nil_proc then nil_proc else (s.queue q).tail;
      }
      else s.queue j;
}

module _ (s : State) (fuel : ℕ) (rp : Ptr) (q : QueueId) (rne : rp ≢ nil_proc) where
  pub unready_empty : (s.queue q).head ≡ nil_proc → unready_from_group fuel rp q s ≡ ok tt s
  unfolding unready_from_group
  unready_empty h = ground arith

  pub unready_head :
      (s.queue q).head ≡ rp → unready_from_group fuel rp q s ≡ ok tt (without_head s q rp)
  unfolding unready_from_group
  unready_head h = ground arith

  pub unready_behind :
      (s.queue q).head ≢ nil_proc
      → (s.queue q).head ≢ rp
      → unready_from_group fuel rp q s ≡ unlink fuel rp (s.queue q).head q s
  unfolding unready_from_group
  unready_behind h g = ground arith

  without_head-InQueue :
      (xs : List Ptr)
      → Chain s.proc (s.proc rp).p_nextready xs
      → (s.queue q).tail ≡ last_of rp xs
      → InQueue (without_head s q rp) q xs
  without_head-InQueue [] c last = rw (same_queue_refl q) c
  without_head-InQueue (y ∷ ys) c last =
      let more : ((s.proc rp).p_nextready == nil_proc) ≡ false = rw c.0 (ground (arith, c.1)) in
      rw (same_queue_refl q, more) (c, last)

-- `unready_from_group` with a queue of the processes `xs`, its tail at the last of them, and fuel above
-- its length returns with the same processes in the queue in the same order but for `rp`, which is taken
-- out wherever it stands, and the tail at the last of them; when `rp` is not there the queue stays.
pub unready_from_group-InQueue :
    (s : State) (fuel : ℕ) (rp : Ptr) (q : QueueId) (xs : List Ptr)
    → rp ≢ nil_proc
    → InQueue s q xs
    → Once xs
    → length xs < fuel
    → Returns (λ _ s'. InQueue s' q (without rp xs)) (unready_from_group fuel rp q s)
unready_from_group-InQueue s fuel rp q [] rne h o lt =
    rw (unready_empty s fuel rp q rne h, without_nil rp) (returns h)
unready_from_group-InQueue s fuel rp q (x ∷ xs) rne h o lt = elim (same_or x rp) [
  | inl e ↦
      rw (unready_head s fuel rp q rne (h.0.0 ∙ e), without_here rp x xs e)
        (returns (without_head-InQueue s fuel rp q rne xs (rw e at h.0.2) (rw e at h.1)))
  | inr xr ↦
      rw
        (
          unready_behind s fuel rp q rne (λ n. h.0.1 (sym h.0.0 ∙ n)) (λ n. xr (sym h.0.0 ∙ n)),
          h.0.0,
        )
        (mono (unlink-Unlinked s rp q rne xs fuel x (refl, h.0.1, h.0.2) o h.1 (omega arith))
          (λ _ s' (chain, kept, head, tail, others, pri).
            rw (without_there rp x xs xr) (rw (head, h.0.0) chain, tail)))
]
