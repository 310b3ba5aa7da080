-- ===== src/Kernel/Aging.antt =====
-- Aging of group 2 in kernel/proc.c: waits grow, and stay within MAX_WAIT_TICKS.
use soi_laboratoria_2025z.Base.{
  ℕ, zero, suc, ◌≤◌, ◌<◌, ◌≡◌, ◌≢◌, ◌⊎◌, inl, inr, refl, ◌∙◌, Bool, true, false, ◌&&◌, ◌||◌, List,
  [], ◌∷◌, arith, ◌==◌, Bool-cases, ok, length, Returns, returns, bind, mono,
}
use soi_laboratoria_2025z.Kernel.Defs.{
  Ptr, nil_proc, Proc, State, g2, write, get_queue, is_user, max_wait_ticks,
}
use soi_laboratoria_2025z.Kernel.Sched.{aged, age_queue, age_blocked, update_aging_for_group2}
use soi_laboratoria_2025z.Kernel.Chain.{Chain}

-- No process has waited longer than the maximum.
abbrev pub WaitsBounded : State → Type 0
WaitsBounded s = (a : Ptr) → (s.proc a).wait_ticks ≤ max_wait_ticks

-- `s'` comes from `s` by aging: waits grow and stay bounded, and the queues are the same.
pub record Aged (s s' : State) : Type 0 where
  pub bounded : WaitsBounded s'
  pub grown : (a : Ptr) → (s.proc a).wait_ticks ≤ (s'.proc a).wait_ticks
  pub next : (a : Ptr) → (s'.proc a).p_nextready ≡ (s.proc a).p_nextready
  pub running : s'.proc_ptr ≡ s.proc_ptr

Aged-refl : (s : State) → WaitsBounded s → Aged s s
Aged-refl s b = record { bounded = b; grown = λ a. omega arith; next = λ a. refl; running = refl }

Aged-trans : (s u v : State) → Aged s u → Aged u v → Aged s v
Aged-trans s u v h g = record {
  bounded = g.bounded;
  grown = λ a. omega (arith, h.grown a, g.grown a);
  next = λ a. g.next a ∙ h.next a;
  running = g.running ∙ h.running;
}

-- One process more aged.
abbrev one_aged : State → Ptr → State
one_aged s x = record s { proc = write s.proc x (aged (s.proc x)) }

one_aged-Aged : (s : State) (x : Ptr) → WaitsBounded s → Aged s (one_aged s x)
unfolding write
one_aged-Aged s x b = record {
  bounded = λ a. ground (arith, b a, b x);
  grown = λ a. ground (arith, b a, b x);
  next = λ a. ground arith;
  running = refl;
}

-- The wait of `x` has grown, unless it is at its maximum.
abbrev pub Grows : State → State → Ptr → Type 0
Grows s s' x =
    ((s.proc x).wait_ticks < (s'.proc x).wait_ticks) ⊎ ((s'.proc x).wait_ticks ≡ max_wait_ticks)

one_aged-Grows : (s : State) (x : Ptr) → WaitsBounded s → Grows s (one_aged s x) x
unfolding write
one_aged-Grows s x b = ground (arith, b x)

module _ (s : State) (fuel : ℕ) (x : Ptr) (ne : x ≢ nil_proc) where
  age_queue_running :
      x ≡ s.proc_ptr → age_queue (suc fuel) x s ≡ age_queue fuel (s.proc x).p_nextready s
  unfolding age_queue
  age_queue_running h = ground arith

  age_queue_waiting :
      x ≢ s.proc_ptr
      → age_queue (suc fuel) x s ≡ age_queue fuel (s.proc x).p_nextready (one_aged s x)
  unfolding age_queue
  age_queue_waiting h = ground arith

age_queue_end : (s : State) (fuel : ℕ) → age_queue (suc fuel) nil_proc s ≡ ok tt s
unfolding age_queue
age_queue_end s fuel = ground arith

Chain-Aged :
    (s s' : State) (p : Ptr) (xs : List Ptr) → Aged s s' → Chain s.proc p xs → Chain s'.proc p xs
Chain-Aged s s' p [] h c = c
Chain-Aged s s' p (x ∷ xs) h c =
    (c.0, c.1, rw (h.next x) (Chain-Aged s s' (s.proc x).p_nextready xs h c.2))

-- Every process of the list but the running one has waited longer than before, up to the maximum.
abbrev pub AllGrow : State → State → List Ptr → Type 0
AllGrow s s' [] = Unit
AllGrow s s' (x ∷ xs) = ((x ≡ s.proc_ptr) ⊎ Grows s s' x) × AllGrow s s' xs

Grows-trans : (s u v : State) (x : Ptr) → Grows s u x → Aged u v → Grows s v x
Grows-trans s u v x g h = ground (arith, h.grown x, h.bounded x)

AllGrow-trans : (s u v : State) (xs : List Ptr) → Aged s u → AllGrow u v xs → AllGrow s v xs
AllGrow-trans s u v [] h g = tt
AllGrow-trans s u v (x ∷ xs) h g = (sooner g.0, AllGrow-trans s u v xs h g.1)
  where
    sooner : (x ≡ u.proc_ptr) ⊎ Grows u v x → (x ≡ s.proc_ptr) ⊎ Grows s v x
    sooner (inl e) = inl (e ∙ h.running)
    sooner (inr (inl lt)) = inr (inl (omega (arith, h.grown x)))
    sooner (inr (inr at)) = inr (inr at)

same_or : (p r : Ptr) → (p ≡ r) ⊎ (p ≢ r)
same_or p r = elim (Bool-cases (p == r)) [
  | inl e ↦ inl (ground arith)
  | inr e ↦ inr (λ h. ground arith)
]

age_queue-AllGrow :
    (xs : List Ptr) (fuel : ℕ) (s : State) (cur : Ptr)
    → Chain s.proc cur xs
    → WaitsBounded s
    → length xs < fuel
    → Returns (λ _ s'. Aged s s' × AllGrow s s' xs) (age_queue fuel cur s)
age_queue-AllGrow xs zero s cur c b lt = absurd (omega arith)
age_queue-AllGrow [] (suc fuel) s cur c b lt =
    rw (c, age_queue_end s fuel) (returns (Aged-refl s b, tt))
age_queue-AllGrow (x ∷ xs) (suc fuel) s cur c b lt = elim (same_or x s.proc_ptr) [
  | inl e ↦
      rw (c.0, age_queue_running s fuel x c.1 e)
        (mono (age_queue-AllGrow xs fuel s (s.proc x).p_nextready c.2 b (omega arith))
          (λ _ s' (h, g). (h, (inl e, g))))
  | inr ne ↦
      let one = one_aged-Aged s x b in
      rw (c.0, age_queue_waiting s fuel x c.1 ne)
        (mono
          (age_queue-AllGrow xs fuel (one_aged s x) (s.proc x).p_nextready
            (Chain-Aged s (one_aged s x) (s.proc x).p_nextready xs one c.2) one.bounded
            (omega arith))
          (λ _ s' (h, g). (
            Aged-trans s (one_aged s x) s' one h,
            (
              inr (Grows-trans s (one_aged s x) s' x (one_aged-Grows s x b) h),
              AllGrow-trans s (one_aged s x) s' xs one g,
            ),
          )))
]

blocked_in_group2 : Proc → Bool
blocked_in_group2 p =
    is_user p && (p.sched_group == 2 && (p.p_flags.sending || p.p_flags.receiving))

module _ (s : State) (n : ℕ) (rp : Ptr) (ne : rp ≢ nil_proc) where
  age_blocked_hit :
      blocked_in_group2 (s.proc rp) ≡ true
      → age_blocked (suc n) rp s ≡ age_blocked n (suc rp) (one_aged s rp)
  unfolding age_blocked blocked_in_group2
  age_blocked_hit h = ground (arith, h)

  age_blocked_miss :
      blocked_in_group2 (s.proc rp) ≡ false → age_blocked (suc n) rp s ≡ age_blocked n (suc rp) s
  unfolding age_blocked blocked_in_group2
  age_blocked_miss h = ground (arith, h)

age_blocked-Aged :
    (n : ℕ) (rp : Ptr) (s : State)
    → rp ≢ nil_proc
    → WaitsBounded s
    → Returns (λ _ s'. Aged s s') (age_blocked n rp s)
unfolding age_blocked
age_blocked-Aged zero rp s ne b = returns (Aged-refl s b)
age_blocked-Aged (suc n) rp s ne b = elim (Bool-cases (blocked_in_group2 (s.proc rp))) [
  | inl hit ↦
      let one = one_aged-Aged s rp b in
      rw (age_blocked_hit s n rp ne hit) (
        mono (age_blocked-Aged n (suc rp) (one_aged s rp) (λ h. absurd (omega arith)) one.bounded)
          (λ _ s' h. Aged-trans s (one_aged s rp) s' one h))
  | inr miss ↦
      rw (age_blocked_miss s n rp ne miss)
        (age_blocked-Aged n (suc rp) s (λ h. absurd (omega arith)) b)
]

-- With `xs` as the queue of group 2, at most as long as the process table, and no wait above
-- MAX_WAIT_TICKS, `update_aging_for_group2` returns; no wait has shrunk or come above the maximum, and
-- every process of the queue that is not running has waited longer than before or is at the maximum.
pub update_aging_for_group2-AllGrow :
    (s : State) (procs : ℕ) (xs : List Ptr)
    → Chain s.proc (s.queue g2).head xs
    → length xs ≤ procs
    → WaitsBounded s
    → Returns (λ _ s'. Aged s s' × AllGrow s s' xs) (update_aging_for_group2 procs s)
unfolding update_aging_for_group2 get_queue
update_aging_for_group2-AllGrow s procs xs c le b =
    bind (age_queue-AllGrow xs (suc procs) s (s.queue g2).head c b (omega arith)) (λ _ u (h, g).
      mono (age_blocked-Aged procs 1 u (λ z. absurd (omega arith)) h.bounded)
        (λ _ s' k. (Aged-trans s u s' h k, later u s' k xs g)))
  where
    later : (u v : State) → Aged u v → (ys : List Ptr) → AllGrow s u ys → AllGrow s v ys
    later u v k [] g = tt
    later u v k (y ∷ ys) (inl e, g) = (inl e, later u v k ys g)
    later u v k (y ∷ ys) (inr r, g) = (inr (Grows-trans s u v y r k), later u v k ys g)
