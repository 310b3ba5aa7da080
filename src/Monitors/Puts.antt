-- ===== src/Monitors/Puts.antt =====
-- The steps of a producer of monitors/main.c keep its monitor in accord with its threads.
use soi_laboratoria_2025z.Base.{ℕ, zero, suc, ◌≡◌, inl, inr, refl, arith, Bool-cases, ◌==◌}
use soi_laboratoria_2025z.Semafors.Defs.{Kind, Item, Event, silent}
use soi_laboratoria_2025z.Semafors.Window.{buffer_push-Window, init_buffer-Window}
use soi_laboratoria_2025z.Semafors.Roles.{Good, quiet, put as put_event}
use soi_laboratoria_2025z.Monitors.Defs.{
  Producer, produce, lock_put, test_put, wait_full, relock_put, put, signal_put, unlock_put,
  Station, producer_step, locking, put_item, signal_nobody, wake_producer, first_station,
}
use soi_laboratoria_2025z.Monitors.Roles.{Role, holding, getting, waiting, Fits, After}

pub locking-Good :
    {A : Type 0} (Q : Event → A → Type 0) (lock : ℕ) (next : A)
    → (lock ≡ 0 → Q silent next)
    → Good Q (locking lock next)
unfolding locking
locking-Good Q zero next h = h refl
locking-Good Q (suc n) next h = tt

signal_nobody-Good :
    (Q : Event → Station → Type 0) (w : ℕ) (s : Station)
    → (w ≡ 0 → Q silent (record s { producer = unlock_put }))
    → Good Q (signal_nobody w s)
unfolding signal_nobody
signal_nobody-Good Q zero s h = h refl
signal_nobody-Good Q (suc n) s h = tt

module _ (n : ℕ) (k : Kind) (s : Station) (h : Role → ℕ) (pu po : ℕ) where
  pub producer_step-After :
      (q : Producer)
      → Fits n k s q h pu po
      → Good (After n k h pu po) (producer_step k (h waiting) s q)
  unfolding producer_step put_item
  producer_step-After produce f =
      let e : s.global_counter ≡ pu = omega (arith, f.counter) in
      (
        pu,
        po,
        quiet,
        record {
          lock = f.lock;
          single = f.single;
          count = f.count;
          room = f.room;
          inside = f.inside;
          full = f.full;
          empty = f.empty;
          counter = omega (arith, f.counter);
          next = rw e refl;
          window = f.window;
        },
      )
  producer_step-After (lock_put item) f = locking-Good (After n k h pu po) s.monitor.lock _ (λ free.
      (
        pu,
        po,
        quiet,
        record {
          lock = omega (arith, f.lock);
          single = omega arith;
          count = f.count;
          room = f.room;
          inside = f.inside;
          full = f.full;
          empty = f.empty;
          counter = f.counter;
          next = f.next;
          window = f.window;
        },
      ))
  producer_step-After (test_put item) f =
      elim (Bool-cases (s.monitor.count == s.monitor.ring.capacity)) [
        | inl at_capacity ↦ rw at_capacity (
          pu,
          po,
          quiet,
          record {
            lock = omega (arith, f.lock, f.single);
            single = omega arith;
            count = f.count;
            room = f.room;
            inside = f.inside;
            full = inr (ground (arith, f.window.capacity));
            empty = f.empty;
            counter = f.counter;
            next = f.next;
            window = f.window;
          },
        )
        | inr less ↦ rw less (
          pu,
          po,
          quiet,
          record {
            lock = f.lock;
            single = f.single;
            count = f.count;
            room = ground (arith, f.window.capacity, f.room);
            inside = f.inside;
            full = f.full;
            empty = f.empty;
            counter = f.counter;
            next = f.next;
            window = f.window;
          },
        )
      ]
  producer_step-After (wait_full item) f = tt
  producer_step-After (relock_put item) f =
      locking-Good (After n k h pu po) s.monitor.lock _ (λ free. (
        pu,
        po,
        quiet,
        record {
          lock = omega (arith, f.lock);
          single = omega arith;
          count = f.count;
          room = f.room;
          inside = f.inside;
          full = f.full;
          empty = f.empty;
          counter = f.counter;
          next = f.next;
          window = f.window;
        },
      ))
  producer_step-After (put item) f =
      let (b, run, w) =
        buffer_push-Window n k s.monitor.ring pu po f.window (omega (arith, f.count))
          (omega (arith, f.count, f.room)) in
      rw (f.next, run)
        (
          suc pu,
          po,
          put_event (omega (arith, f.count, f.room)),
          record {
            lock = f.lock;
            single = f.single;
            count = omega (arith, f.count);
            room = omega (arith, f.room);
            inside = omega (arith, f.inside);
            full = inl refl;
            empty = elim f.empty [ inl e ↦ inl e | inr le ↦ inr (omega arith) ];
            counter = omega (arith, f.counter);
            next = tt;
            window = w;
          },
        )
  producer_step-After signal_put f =
      signal_nobody-Good (After n k h pu po) (h waiting) s (λ none_waits. (
        pu,
        po,
        quiet,
        record {
          lock = f.lock;
          single = f.single;
          count = f.count;
          room = f.room;
          inside = f.inside;
          full = f.full;
          empty = inl none_waits;
          counter = f.counter;
          next = f.next;
          window = f.window;
        },
      ))
  producer_step-After unlock_put f = (
    pu,
    po,
    quiet,
    record {
      lock = omega (arith, f.lock, f.single);
      single = omega arith;
      count = f.count;
      room = f.room;
      inside = f.inside;
      full = f.full;
      empty = f.empty;
      counter = f.counter;
      next = f.next;
      window = f.window;
    },
  )

  pub wake_producer-After :
      (q : Producer) → Fits n k s q h pu po → Good (After n k h pu po) (wake_producer s q)
  unfolding wake_producer
  wake_producer-After produce f = tt
  wake_producer-After (lock_put item) f = tt
  wake_producer-After (test_put item) f = tt
  wake_producer-After (wait_full item) f = (
    pu,
    po,
    quiet,
    record {
      lock = f.lock;
      single = f.single;
      count = f.count;
      room = f.room;
      inside = f.inside;
      full = inl refl;
      empty = f.empty;
      counter = f.counter;
      next = f.next;
      window = f.window;
    },
  )
  wake_producer-After (relock_put item) f = tt
  wake_producer-After (put item) f = tt
  wake_producer-After signal_put f = tt
  wake_producer-After unlock_put f = tt

pub first_station-Fits :
    (n : ℕ) (k : Kind) (x : Item) (h : Role → ℕ)
    → ((r : Role) → h r ≡ 0)
    → Fits n k (first_station n x) produce h 0 0
first_station-Fits n k x h none = record {
  lock = omega (arith, none holding);
  single = omega arith;
  count = omega arith;
  room = omega arith;
  inside = omega (arith, none getting);
  full = inl refl;
  empty = inl (none waiting);
  counter = omega arith;
  next = tt;
  window = init_buffer-Window n k x;
}
