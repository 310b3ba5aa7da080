-- ===== src/Kernel/Serving.antt =====
-- The queue SERVER_Q and that of group 2 in kernel/proc.c while a server is made unready and ready again.
use soi_laboratoria_2025z.Base.{
  ℕ, ◌≤◌, ◌<◌, ◌≡◌, inl, inr, refl, false, List, [], ◌∷◌, arith, length, Returns, mono,
}
use soi_laboratoria_2025z.Kernel.Defs.{
  Ptr, Proc, State, QueueId, server_q, g2, same_queue, write, pick_proc,
}
use soi_laboratoria_2025z.Kernel.Chain.{Chain, Chain-kept, In}
use soi_laboratoria_2025z.Kernel.Estimate.{Fresh, Once}
use soi_laboratoria_2025z.Kernel.Pick.{
  Picked, task, server, group1, group2, group3, user, idles, pick_proc-Picked,
}
use soi_laboratoria_2025z.Kernel.Enqueue.{InQueue}
use soi_laboratoria_2025z.Kernel.Remove.{without, without_here, without_there, without_nil}
use soi_laboratoria_2025z.Kernel.Unready.{same_or}

-- `servers` is SERVER_Q and `twos` the queue of group 2, which have no process in common, and `rp` is not in
-- the second; each has fewer than `n` processes.
pub record Serving (s : State) (n : ℕ) (rp : Ptr) (servers twos : List Ptr) : Type 0 where
  pub serves : InQueue s server_q servers
  pub once : Once servers
  pub short : length servers < n
  pub two : Chain s.proc (s.queue g2).head twos
  pub two_short : length twos < n
  pub apart : (x : Ptr) → In x servers → In x twos → ⊥
  pub out : In rp twos → ⊥

pub Chain-frame :
    (t u : Ptr → Proc) (p : Ptr) (xs : List Ptr)
    → ((a : Ptr) → In a xs → (u a).p_nextready ≡ (t a).p_nextready)
    → Chain t p xs
    → Chain u p xs
Chain-frame t u p [] same h = h
Chain-frame t u p (x ∷ xs) same h = (
  h.0,
  h.1,
  rw (same x (inl refl)) (Chain-frame t u (t x).p_nextready xs (λ a i. same a (inr i)) h.2),
)

pub InQueue-kept :
    (s s' : State) (q : QueueId) (xs : List Ptr)
    → s'.queue q ≡ s.queue q
    → ((a : Ptr) → (s'.proc a).p_nextready ≡ (s.proc a).p_nextready)
    → InQueue s q xs
    → InQueue s' q xs
InQueue-kept s s' q [] e same h = rw e h
InQueue-kept s s' q (x ∷ xs) e same h =
    (rw e (Chain-kept s.proc s'.proc same (s.queue q).head (x ∷ xs) h.0), rw e h.1)

-- A step that changes no queue and no link.
pub Serving-kept :
    (s s' : State) (n : ℕ) (rp : Ptr) (servers twos : List Ptr)
    → ((q : QueueId) → s'.queue q ≡ s.queue q)
    → ((a : Ptr) → (s'.proc a).p_nextready ≡ (s.proc a).p_nextready)
    → Serving s n rp servers twos
    → Serving s' n rp servers twos
Serving-kept s s' n rp servers twos e same h = record {
  serves = InQueue-kept s s' server_q servers (e server_q) same h.serves;
  once = h.once;
  short = h.short;
  two = rw (e g2) (Chain-kept s.proc s'.proc same (s.queue g2).head twos h.two);
  two_short = h.two_short;
  apart = h.apart;
  out = h.out;
}

Picked-queue :
    (s : State) (twos : List Ptr) (s' : State)
    → Picked s twos s'
    → (q : QueueId) → s'.queue q ≡ s.queue q
Picked-queue s twos s' (task h) q = refl
Picked-queue s twos s' (server t h) q = refl
Picked-queue s twos s' (group1 t v h) q = refl
Picked-queue s twos s' (group2 p t v o i w) q = refl
Picked-queue s twos s' (group3 t v o e h) q = refl
Picked-queue s twos s' (user t v o e g h) q = refl
Picked-queue s twos s' (idles t v o e g h) q = refl

Picked-next :
    (s : State) (twos : List Ptr) (s' : State)
    → Picked s twos s'
    → (a : Ptr) → (s'.proc a).p_nextready ≡ (s.proc a).p_nextready
unfolding write
Picked-next s twos s' (task h) a = refl
Picked-next s twos s' (server t h) a = refl
Picked-next s twos s' (group1 t v h) a = refl
Picked-next s twos s' (group2 p t v o i w) a = ground arith
Picked-next s twos s' (group3 t v o e h) a = refl
Picked-next s twos s' (user t v o e g h) a = refl
Picked-next s twos s' (idles t v o e g h) a = refl

Picked-priority :
    (s : State) (twos : List Ptr) (s' : State)
    → Picked s twos s'
    → (a : Ptr) → (s'.proc a).p_priority ≡ (s.proc a).p_priority
unfolding write
Picked-priority s twos s' (task h) a = refl
Picked-priority s twos s' (server t h) a = refl
Picked-priority s twos s' (group1 t v h) a = refl
Picked-priority s twos s' (group2 p t v o i w) a = ground arith
Picked-priority s twos s' (group3 t v o e h) a = refl
Picked-priority s twos s' (user t v o e g h) a = refl
Picked-priority s twos s' (idles t v o e g h) a = refl

abbrev pub SamePriority : State → State → Type 0
SamePriority s s' = (a : Ptr) → (s'.proc a).p_priority ≡ (s.proc a).p_priority

pub pick_proc-Serving :
    (s : State) (n : ℕ) (rp : Ptr) (servers twos : List Ptr)
    → Serving s n rp servers twos
    → Returns (λ _ s'. Serving s' n rp servers twos × SamePriority s s') (pick_proc n s)
pick_proc-Serving s n rp servers twos h =
    mono (pick_proc-Picked s n twos h.two h.two_short) (λ _ s' p. (
      Serving-kept s s' n rp servers twos (Picked-queue s twos s' p) (Picked-next s twos s' p) h,
      Picked-priority s twos s' p,
    ))

pub In-without : (rp y : Ptr) (xs : List Ptr) → In y (without rp xs) → In y xs
In-without rp y [] = rw (without_nil rp) (λ i. i)
In-without rp y (x ∷ xs) = elim (same_or x rp) [
  | inl e ↦ rw (without_here rp x xs e) (λ i. inr i)
  | inr n ↦
      rw (without_there rp x xs n)
        (λ i. elim i [ inl g ↦ inl g | inr j ↦ inr (In-without rp y xs j) ])
]

Fresh-without : (rp a : Ptr) (xs : List Ptr) → Fresh a xs → Fresh a (without rp xs)
Fresh-without rp a [] f = rw (without_nil rp) tt
Fresh-without rp a (x ∷ xs) f = elim (same_or x rp) [
  | inl e ↦ rw (without_here rp x xs e) f.1
  | inr n ↦ rw (without_there rp x xs n) (f.0, Fresh-without rp a xs f.1)
]

pub Once-without : (rp : Ptr) (xs : List Ptr) → Once xs → Once (without rp xs)
Once-without rp [] o = rw (without_nil rp) tt
Once-without rp (x ∷ xs) o = elim (same_or x rp) [
  | inl e ↦ rw (without_here rp x xs e) o.1
  | inr n ↦ rw (without_there rp x xs n) (Fresh-without rp x xs o.0, Once-without rp xs o.1)
]

pub length-without : (rp : Ptr) (xs : List Ptr) → length (without rp xs) ≤ length xs
length-without rp [] = rw (without_nil rp) (omega arith)
length-without rp (x ∷ xs) = elim (same_or x rp) [
  | inl e ↦ rw (without_here rp x xs e) (omega arith)
  | inr n ↦ rw (without_there rp x xs n) (omega (arith, length-without rp xs))
]

pub two_other : same_queue g2 server_q ≡ false
unfolding same_queue
two_other = refl

pub fresh_apart : (p : Ptr) (qs : List Ptr) → (In p qs → ⊥) → Fresh p qs
fresh_apart p [] h = tt
fresh_apart p (q ∷ qs) h = ((λ e. h (inl e)), fresh_apart p qs (λ i. h (inr i)))
