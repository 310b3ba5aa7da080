-- ===== src/Semafors/Progress.antt =====
-- Some thread of semafors/main.c can always go on: the waits on semaphores never form a deadlock.
use soi_laboratoria_2025z.Base.{
  ℕ, zero, suc, ◌<◌, ◌≡◌, ◌≢◌, ◌⊎◌, inl, inr, refl, Bool, true, false, Option, none, some, List, [],
  ◌∷◌, arith, Bool-cases,
}
use soi_laboratoria_2025z.Semafors.Defs.{
  Kind, dough, filling, Filling, meat, cheese, cabbage, Item, Producer, produce, down_empty,
  down_mutex, push, up_mutex, up_full, Consumer, down_full, take_mutex, pop, give_mutex, up_empty,
  make_pierogi, needs, kind_of, Got, Station, Event, Step, blocked, crashed, moved, down, Kitchen,
  Thread, producer_of, consumer_of, step, producer_step, consumer_step, produced_at, consumed_at,
  pushed_item, popped_item, start, Run, buffer_push, buffer_pop, Buffer,
}
use soi_laboratoria_2025z.Semafors.Roles.{
  locks, owes_full, took_empty, holds, took_full, owes_empty,
}
use soi_laboratoria_2025z.Semafors.Totals.{total-zero}
use soi_laboratoria_2025z.Semafors.Inv.{Inv, Run-Inv}

abbrev pub is_blocked : {A : Type 0} → Step A → Bool
is_blocked blocked = true
is_blocked crashed = false
is_blocked (moved e a) = false

down-blocked : {A : Type 0} (sem : ℕ) (next : ℕ → A) → is_blocked (down sem next) ≡ true → sem ≡ 0
unfolding down
down-blocked zero next h = refl
down-blocked (suc n) next h = cc

pushed_item_goes :
    (k : Kind) (s : Station) (item : Item) (o : Option Buffer)
    → is_blocked (pushed_item k s item o) ≢ true
unfolding pushed_item
pushed_item_goes k s item none h = cc
pushed_item_goes k s item (some b) h = cc

popped_item_goes :
    (k : Kind) (s : Station) (g : Got) (o : Option (Item × Buffer))
    → is_blocked (popped_item k s g o) ≢ true
unfolding popped_item
popped_item_goes k s g none h = cc
popped_item_goes k s g (some (item, b)) h = cc

-- A producer waits at `empty`, or at the mutex.
producer_waits :
    (k : Kind) (s : Station) (q : Producer)
    → is_blocked (producer_step k s q) ≡ true
    → (locks q ≡ 0) × (owes_full q ≡ 0) × (((took_empty q ≡ 0) × (s.empty ≡ 0)) ⊎ (s.mutex ≡ 0))
unfolding producer_step
producer_waits k s produce h = cc
producer_waits k s (down_empty item) h = (refl, refl, inl (refl, down-blocked s.empty _ h))
producer_waits k s (down_mutex item) h = (refl, refl, inr (down-blocked s.mutex _ h))
producer_waits k s (push item) h = absurd (pushed_item_goes k s item (buffer_push s.buffer item) h)
producer_waits k s up_mutex h = cc
producer_waits k s up_full h = cc

-- A consumer waits at `full`, or at the mutex.
consumer_waits :
    (f : Filling) (s : Station) (c : Consumer)
    → is_blocked (consumer_step f s c) ≡ true
    → (holds c ≡ 0) × (owes_empty c ≡ 0) × (((took_full c ≡ 0) × (s.full ≡ 0)) ⊎ (s.mutex ≡ 0))
unfolding consumer_step
consumer_waits f s (down_full g) h = (refl, refl, inl (refl, down-blocked s.full _ h))
consumer_waits f s (take_mutex g) h = (refl, refl, inr (down-blocked s.mutex _ h))
consumer_waits f s (pop g) h = absurd (popped_item_goes (kind_of f g) s g (buffer_pop s.buffer) h)
consumer_waits f s (give_mutex g item) h = cc
consumer_waits f s (up_empty g item) h = cc
consumer_waits f s (make_pierogi d x) h = cc

abbrev pub all_threads : List Thread
all_threads =
    producer_of dough
    ∷ producer_of (filling meat)
    ∷ producer_of (filling cheese)
    ∷ producer_of (filling cabbage)
    ∷ consumer_of meat
    ∷ consumer_of cheese
    ∷ consumer_of cabbage
    ∷ []

abbrev pub AllTrue : {A : Type 0} → (A → Bool) → List A → Type 0
AllTrue p [] = Unit
AllTrue p (t ∷ ts) = (p t ≡ true) × AllTrue p ts

pub find_false :
    {A : Type 0} (p : A → Bool) (ts : List A) → ((t : A) × (p t ≡ false)) ⊎ AllTrue p ts
find_false p [] = inr tt
find_false p (t ∷ ts) = elim (Bool-cases (p t)) [
  | inl waits ↦ elim (find_false p ts) [ inl found ↦ inl found | inr all ↦ inr (waits, all) ]
  | inr goes ↦ inl (t, goes)
]

pub every_thread : (p : Thread → Bool) → AllTrue p all_threads → (t : Thread) → p t ≡ true
every_thread p h (producer_of dough) = h.0
every_thread p h (producer_of (filling meat)) = h.1.0
every_thread p h (producer_of (filling cheese)) = h.1.1.0
every_thread p h (producer_of (filling cabbage)) = h.1.1.1.0
every_thread p h (consumer_of meat) = h.1.1.1.1.0
every_thread p h (consumer_of cheese) = h.1.1.1.1.1.0
every_thread p h (consumer_of cabbage) = h.1.1.1.1.1.1.0

produced_at-blocked :
    (k : Kind) (s : Kitchen) (r : Step Station)
    → is_blocked (produced_at k s r) ≡ true
    → is_blocked r ≡ true
unfolding produced_at
produced_at-blocked k s blocked h = refl
produced_at-blocked k s crashed h = h
produced_at-blocked k s (moved e x) h = cc

consumed_at-blocked :
    (f : Filling) (k : Kind) (s : Kitchen) (r : Step (Consumer × Station))
    → is_blocked (consumed_at f k s r) ≡ true
    → is_blocked r ≡ true
unfolding consumed_at
consumed_at-blocked f k s blocked h = refl
consumed_at-blocked f k s crashed h = h
consumed_at-blocked f k s (moved e (c, x)) h = cc

module _ (n : ℕ) (s : Kitchen) (es : List Event) (pos : 0 < n) (i : Inv n s es)
    (stuck : (t : Thread) → is_blocked (step t s) ≡ true) where
  producer_stuck :
      (k : Kind)
      → (locks (s.station k).producer ≡ 0)
        × (owes_full (s.station k).producer ≡ 0)
        × (((took_empty (s.station k).producer ≡ 0) × ((s.station k).empty ≡ 0))
            ⊎ ((s.station k).mutex ≡ 0))
  unfolding step
  producer_stuck k = producer_waits k (s.station k) (s.station k).producer (
      produced_at-blocked k s (producer_step k (s.station k) (s.station k).producer)
        (stuck (producer_of k)))

  consumer_stuck :
      (f : Filling)
      → (holds (s.cook f) ≡ 0)
        × (owes_empty (s.cook f) ≡ 0)
        × (((took_full (s.cook f) ≡ 0) × ((s.station (needs f (s.cook f))).full ≡ 0))
            ⊎ ((s.station (needs f (s.cook f))).mutex ≡ 0))
  unfolding step
  consumer_stuck f = consumer_waits f (s.station (needs f (s.cook f))) (s.cook f) (
      consumed_at-blocked f (needs f (s.cook f)) s
        (consumer_step f (s.station (needs f (s.cook f))) (s.cook f)) (stuck (consumer_of f)))

  mutex_free : (k : Kind) → (s.station k).mutex ≡ 1
  mutex_free k = omega (
    arith,
    (i.fits k).mutex,
    (producer_stuck k).0,
    total-zero needs k holds s.cook (λ f. (consumer_stuck f).0),
  )

  no_full : (f : Filling) → (took_full (s.cook f) ≡ 0) × ((s.station (needs f (s.cook f))).full ≡ 0)
  no_full f = elim (consumer_stuck f).2 [
    | inl h ↦ h
    | inr h ↦ absurd (omega (arith, h, mutex_free (needs f (s.cook f))))
  ]

  no_empty : (k : Kind) → (took_empty (s.station k).producer ≡ 0) × ((s.station k).empty ≡ 0)
  no_empty k = elim (producer_stuck k).2 [
    | inl h ↦ h
    | inr h ↦ absurd (omega (arith, h, mutex_free k))
  ]

  no_deadlock : ⊥
  no_deadlock =
      let k = needs meat (s.cook meat) in
      omega (
        arith,
        (i.fits k).full,
        (i.fits k).empty,
        (no_full meat).1,
        (no_empty k).0,
        (no_empty k).1,
        (producer_stuck k).1,
        total-zero needs k took_full s.cook (λ f. (no_full f).0),
        total-zero needs k owes_empty s.cook (λ f. (consumer_stuck f).1),
        pos,
      )

-- After every run with buffers of at least one place, some thread can make its next step.
pub Run-moves :
    (n : ℕ) (x : Item) (s : Kitchen) (es : List Event)
    → 0 < n
    → Run (start n x) s es
    → (t : Thread) × (step t s ≢ blocked)
Run-moves n x s es pos r = elim (find_false (λ t. is_blocked (step t s)) all_threads) [
  | inl (t, free) ↦ (t, λ h. cc)
  | inr all ↦
      absurd (
        no_deadlock n s es pos (Run-Inv n x s es r) (every_thread (λ t. is_blocked (step t s)) all))
]
