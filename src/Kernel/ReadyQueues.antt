-- ===== src/Kernel/ReadyQueues.antt =====
-- The six ready queues of kernel/proc.c together, and `pick_proc` with them.
use soi_laboratoria_2025z.Base.{
  ℕ, ◌<◌, ◌≡◌, ◌⊎◌, inl, inr, refl, false, List, [], ◌∷◌, ◌==◌, Bool-cases, length, Returns,
  returns, mono,
}
use soi_laboratoria_2025z.Kernel.Defs.{
  Ptr, State, QueueId, task_q, server_q, user_q, g1, g2, g3, same_queue, pick_proc,
}
use soi_laboratoria_2025z.Kernel.Sched.{pick_if_running}
use soi_laboratoria_2025z.Kernel.Chain.{Chain, In}
use soi_laboratoria_2025z.Kernel.Estimate.{Once}
use soi_laboratoria_2025z.Kernel.Pick.{pick_proc-Picked}
use soi_laboratoria_2025z.Kernel.Enqueue.{InQueue}
use soi_laboratoria_2025z.Kernel.Serving.{Serving, InQueue-kept}

-- The ready queues hold the processes that `queues` lists, fewer than `n` in each and none of them twice.
pub record ReadyQueues (s : State) (n : ℕ) (queues : QueueId → List Ptr) : Type 0 where
  pub holds : (q : QueueId) → InQueue s q (queues q)
  pub once : (q : QueueId) → Once (queues q)
  pub short : (q : QueueId) → length (queues q) < n
  pub apart :
      (p q : QueueId) → same_queue p q ≡ false → (x : Ptr) → In x (queues p) → In x (queues q) → ⊥

pub InQueue-Chain :
    (s : State) (q : QueueId) (xs : List Ptr) → InQueue s q xs → Chain s.proc (s.queue q).head xs
InQueue-Chain s q [] h = h
InQueue-Chain s q (x ∷ xs) h = h.0

-- A step that changes no queue and no link.
pub ReadyQueues-kept :
    (s s' : State) (n : ℕ) (queues : QueueId → List Ptr)
    → ((q : QueueId) → s'.queue q ≡ s.queue q)
    → ((a : Ptr) → (s'.proc a).p_nextready ≡ (s.proc a).p_nextready)
    → ReadyQueues s n queues
    → ReadyQueues s' n queues
ReadyQueues-kept s s' n queues e same r = record {
  holds = λ q. InQueue-kept s s' q (queues q) (e q) same (r.holds q);
  once = r.once;
  short = r.short;
  apart = r.apart;
}

pub ReadyQueues-Serving :
    (s : State) (n : ℕ) (queues : QueueId → List Ptr) (rp : Ptr)
    → ReadyQueues s n queues
    → (In rp (queues g2) → ⊥)
    → Serving s n rp (queues server_q) (queues g2)
unfolding same_queue
ReadyQueues-Serving s n queues rp r out = record {
  serves = r.holds server_q;
  once = r.once server_q;
  short = r.short server_q;
  two = InQueue-Chain s g2 (queues g2) (r.holds g2);
  two_short = r.short g2;
  apart = r.apart server_q g2 refl;
  out = out;
}

-- The queue of group 2 can be followed to its end.
abbrev pub HasTwo : ℕ → State → Type 0
HasTwo n s = (twos : List Ptr) × Chain s.proc (s.queue g2).head twos × (length twos < n)

pub is_g2 : (q : QueueId) → (q ≡ g2) ⊎ (same_queue g2 q ≡ false)
unfolding same_queue
is_g2 task_q = inr refl
is_g2 server_q = inr refl
is_g2 user_q = inr refl
is_g2 g1 = inr refl
is_g2 g2 = inl refl
is_g2 g3 = inr refl

pub pick_proc-Returns : (n : ℕ) (s : State) → HasTwo n s → Returns (λ _ _. Unit {0}) (pick_proc n s)
pick_proc-Returns n s (twos, two, short) = mono (pick_proc-Picked s n twos two short) (λ _ _ _. tt)

pub pick_if_running-Returns :
    (n : ℕ) (rp : Ptr) (s : State) → HasTwo n s → Returns (λ _ _. Unit {0}) (pick_if_running n rp s)
unfolding pick_if_running
pick_if_running-Returns n rp s h = elim (Bool-cases (rp == s.proc_ptr)) [
  | inl e ↦ rw e (pick_proc-Returns n s h)
  | inr e ↦ rw e (returns tt)
]
