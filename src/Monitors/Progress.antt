-- ===== src/Monitors/Progress.antt =====
-- Some thread of monitors/main.c can always go on: no signal is lost, so that the waits on conditions and
-- mutexes never form a deadlock.
use soi_laboratoria_2025z.Base.{
  ℕ, zero, suc, ◌<◌, ◌≤◌, ◌≡◌, ◌≢◌, ◌⊎◌, inl, inr, refl, Bool, true, Option, none, some, List, [],
  ◌∷◌, arith, Bool-cases, ◌==◌,
}
use soi_laboratoria_2025z.Semafors.Defs.{
  Kind, same_kind, Filling, meat, cheese, cabbage, Item, Got, Buffer, buffer_push, buffer_pop,
  kind_of, Event, Step, blocked, crashed, moved, Thread, producer_of, consumer_of,
}
use soi_laboratoria_2025z.Semafors.Totals.{
  weight, total, total-zero, weight-total, weight_here, same_kind_eq,
}
use soi_laboratoria_2025z.Semafors.Progress.{
  is_blocked, all_threads, AllTrue, find_false, every_thread,
}
use soi_laboratoria_2025z.Monitors.Defs.{
  Producer, produce, lock_put, test_put, wait_full, relock_put, put, signal_put, unlock_put,
  Consumer, lock_get, test_get, wait_empty, relock_get, get, signal_get, unlock_get, make_pierogi,
  Station, Kitchen, waits, needs, locking, put_item, got_item, signal_nobody, producer_step,
  consumer_step, signal_step, produced_at, consumed_at, run, signal, step, start, Run,
}
use soi_laboratoria_2025z.Monitors.Roles.{
  locks, at_signal, waits_full, role, holding, awake, signalling,
}
use soi_laboratoria_2025z.Monitors.Inv.{Inv, Run-Inv}

locking-blocked :
    {A : Type 0} (lock : ℕ) (next : A) → is_blocked (locking lock next) ≡ true → 1 ≤ lock
unfolding locking
locking-blocked zero next h = cc
locking-blocked (suc n) next h = omega arith

put_item_goes :
    (k : Kind) (s : Station) (item : Item) (o : Option Buffer)
    → is_blocked (put_item k s item o) ≢ true
unfolding put_item
put_item_goes k s item none h = cc
put_item_goes k s item (some b) h = cc

got_item_goes :
    (k : Kind) (s : Station) (g : Got) (o : Option (Item × Buffer))
    → is_blocked (got_item k s g o) ≢ true
unfolding got_item
got_item_goes k s g none h = cc
got_item_goes k s g (some (item, b)) h = cc

signal_nobody-blocked : (w : ℕ) (s : Station) → is_blocked (signal_nobody w s) ≡ true → 1 ≤ w
unfolding signal_nobody
signal_nobody-blocked zero s h = cc
signal_nobody-blocked (suc w) s h = omega arith

-- A producer waits for room or at the mutex, or is to signal a consumer that waits.
abbrev ProducerWaits : ℕ → Station → Producer → Type 0
ProducerWaits w s q =
    ((locks q ≡ 0) × (at_signal q ≡ 0) × ((waits_full q ≡ 1) ⊎ (1 ≤ s.monitor.lock)))
    ⊎ ((q ≡ signal_put) × (1 ≤ w))

producer_waits :
    (k : Kind) (w : ℕ) (s : Station) (q : Producer)
    → is_blocked (producer_step k w s q) ≡ true
    → ProducerWaits w s q
unfolding producer_step
producer_waits k w s produce h = cc
producer_waits k w s (lock_put item) h = inl (refl, refl, inr (locking-blocked s.monitor.lock _ h))
producer_waits k w s (test_put item) h =
    elim (Bool-cases (s.monitor.count == s.monitor.ring.capacity)) [ inl full ↦ cc | inr less ↦ cc ]
producer_waits k w s (wait_full item) h = inl (refl, refl, inl refl)
producer_waits k w s (relock_put item) h =
    inl (refl, refl, inr (locking-blocked s.monitor.lock _ h))
producer_waits k w s (put item) h =
    absurd (put_item_goes k s item (buffer_push s.monitor.ring item) h)
producer_waits k w s signal_put h = inr (refl, signal_nobody-blocked w s h)
producer_waits k w s unlock_put h = cc

-- A consumer waits for an item, or at the mutex.
abbrev ConsumerWaits : Station → Consumer → Type 0
ConsumerWaits s c =
    (role holding c ≡ 0)
    × (role signalling c ≡ 0)
    × (((waits c ≡ 1) × (role awake c ≡ 0)) ⊎ (1 ≤ s.monitor.lock))

consumer_waits :
    (f : Filling) (s : Station) (c : Consumer)
    → is_blocked (consumer_step f s c) ≡ true
    → ConsumerWaits s c
unfolding consumer_step
consumer_waits f s (lock_get g) h = (refl, refl, inr (locking-blocked s.monitor.lock _ h))
consumer_waits f s (test_get g) h = elim (Bool-cases (s.monitor.count == 0)) [
  | inl empty ↦ cc
  | inr left ↦ cc
]
consumer_waits f s (wait_empty g) h = (refl, refl, inl (refl, refl))
consumer_waits f s (relock_get g) h = (refl, refl, inr (locking-blocked s.monitor.lock _ h))
consumer_waits f s (get g) h =
    absurd (got_item_goes (kind_of f g) s g (buffer_pop s.monitor.ring) h)
consumer_waits f s (signal_get g item) h = cc
consumer_waits f s (unlock_get g item) h = cc
consumer_waits f s (make_pierogi d x) h = cc

-- A consumer that a producer about to signal cannot wake does not wait.
signal_put-blocked :
    (s : Station) (c : Consumer) → is_blocked (signal_step s signal_put c) ≡ true → waits c ≡ 0
unfolding signal_step
signal_put-blocked s (lock_get g) h = refl
signal_put-blocked s (test_get g) h = refl
signal_put-blocked s (wait_empty g) h = cc
signal_put-blocked s (relock_get g) h = refl
signal_put-blocked s (get g) h = refl
signal_put-blocked s (signal_get g x) h = refl
signal_put-blocked s (unlock_get g x) h = refl
signal_put-blocked s (make_pierogi d x) h = refl

signal_blocked :
    (s : Station) (q : Producer) (c : Consumer)
    → q ≡ signal_put
    → is_blocked (signal_step s q c) ≡ true
    → waits c ≡ 0
signal_blocked s q c e h = signal_put-blocked s c (rw e at h)

produced_at-blocked :
    (k : Kind) (s : Kitchen) (r : Step Station)
    → is_blocked (produced_at k s r) ≡ true
    → is_blocked r ≡ true
unfolding produced_at
produced_at-blocked k s blocked h = refl
produced_at-blocked k s crashed h = h
produced_at-blocked k s (moved e x) h = cc

consumed_at-blocked :
    (f : Filling) (k : Kind) (s : Kitchen) (r : Step (Consumer × Station))
    → is_blocked (consumed_at f k s r) ≡ true
    → is_blocked r ≡ true
unfolding consumed_at
consumed_at-blocked f k s blocked h = refl
consumed_at-blocked f k s crashed h = h
consumed_at-blocked f k s (moved e (c, x)) h = cc

module _ (n : ℕ) (s : Kitchen) (es : List Event) (pos : 0 < n) (i : Inv n s es)
    (stuck : (t : Thread) → is_blocked (step (run t) s) ≡ true)
    (unsignalled : (f : Filling) → is_blocked (step (signal f) s) ≡ true) where
  no_signal :
      (k : Kind) (f : Filling)
      → (s.station k).producer ≡ signal_put
      → weight needs k waits f (s.cook f) ≡ 0
  unfolding step weight
  no_signal k f at = elim (Bool-cases (same_kind k (needs f (s.cook f)))) [
    | inl hit ↦ rw hit (
        signal_blocked (s.station (needs f (s.cook f))) (s.station (needs f (s.cook f))).producer
          (s.cook f) (rw (← same_kind_eq k (needs f (s.cook f)) hit) at)
          (consumed_at-blocked f (needs f (s.cook f)) s _ (unsignalled f)))
    | inr miss ↦ rw miss refl
  ]

  producer_stuck :
      (k : Kind)
      → (locks (s.station k).producer ≡ 0)
        × (at_signal (s.station k).producer ≡ 0)
        × ((waits_full (s.station k).producer ≡ 1) ⊎ (1 ≤ (s.station k).monitor.lock))
  unfolding step total
  producer_stuck k =
      elim (producer_waits k (total needs k waits s.cook) (s.station k) (s.station k).producer
        (produced_at-blocked k s _ (stuck (producer_of k)))) [
          | inl h ↦ h
          | inr h ↦ absurd (
              omega
                (arith, h.1, no_signal k meat h.0, no_signal k cheese h.0, no_signal k cabbage h.0))
        ]

  consumer_stuck : (f : Filling) → ConsumerWaits (s.station (needs f (s.cook f))) (s.cook f)
  unfolding step
  consumer_stuck f =
      consumer_waits f (s.station (needs f (s.cook f))) (s.cook f)
        (consumed_at-blocked f (needs f (s.cook f)) s _ (stuck (consumer_of f)))

  mutex_free : (k : Kind) → (s.station k).monitor.lock ≡ 0
  mutex_free k = omega (
    arith,
    (i.fits k).lock,
    (producer_stuck k).0,
    total-zero needs k (role holding) s.cook (λ f. (consumer_stuck f).0),
  )

  all_wait : (f : Filling) → (waits (s.cook f) ≡ 1) × (role awake (s.cook f) ≡ 0)
  all_wait f = elim (consumer_stuck f).2 [
    | inl h ↦ h
    | inr h ↦ absurd (omega (arith, h, mutex_free (needs f (s.cook f))))
  ]

  producer_full : (k : Kind) → waits_full (s.station k).producer ≡ 1
  producer_full k = elim (producer_stuck k).2 [
    | inl h ↦ h
    | inr h ↦ absurd (omega (arith, h, mutex_free k))
  ]

  no_deadlock : ⊥
  no_deadlock =
      let k = needs meat (s.cook meat) in
      let none_inside : (s.station k).monitor.count ≡ 0 = elim (i.fits k).empty [
        | inl h ↦ absurd (
            omega (
              arith,
              h,
              (all_wait meat).0,
              weight-total needs k waits s.cook meat,
              weight_here needs k waits meat (s.cook meat) refl,
            ))
        | inr h ↦ omega (
          arith,
          h,
          (producer_stuck k).1,
          total-zero needs k (role awake) s.cook (λ f. (all_wait f).1),
        )
      ] in
      elim (i.fits k).full [
        | inl h ↦ omega (arith, h, producer_full k)
        | inr h ↦ omega (
          arith,
          h,
          none_inside,
          pos,
          total-zero needs k (role signalling) s.cook (λ f. (consumer_stuck f).1),
        )
      ]

abbrev all_signals : List Filling
all_signals = meat ∷ cheese ∷ cabbage ∷ []

every_signal : (p : Filling → Bool) → AllTrue p all_signals → (f : Filling) → p f ≡ true
every_signal p h meat = h.0
every_signal p h cheese = h.1.0
every_signal p h cabbage = h.1.1.0

-- After every run with buffers of at least one place, some thread can execute its next statement, or the
-- producer of some monitor can signal a consumer that waits there: no wake-up without a signal is needed.
pub Run-goes_on :
    (n : ℕ) (x : Item) (s : Kitchen) (es : List Event)
    → 0 < n
    → Run (start n x) s es
    → ((t : Thread) × (step (run t) s ≢ blocked)) ⊎ ((f : Filling) × (step (signal f) s ≢ blocked))
Run-goes_on n x s es pos r = elim (find_false (λ t. is_blocked (step (run t) s)) all_threads) [
  | inl (t, free) ↦ inl (t, λ h. cc)
  | inr all ↦ elim (find_false (λ f. is_blocked (step (signal f) s)) all_signals) [
    | inl (f, free) ↦ inr (f, λ h. cc)
    | inr quiet ↦ absurd (
        no_deadlock n s es pos (Run-Inv n x s es r)
          (every_thread (λ t. is_blocked (step (run t) s)) all)
          (every_signal (λ f. is_blocked (step (signal f) s)) quiet))
  ]
]
