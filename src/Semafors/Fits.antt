-- ===== src/Semafors/Fits.antt =====
-- The steps of the threads of semafors/main.c at one buffer keep its semaphores in accord with it.
use soi_laboratoria_2025z.Base.{ℕ, zero, suc, ◌+◌, ◌≡◌, inl, inr, refl, arith}
use soi_laboratoria_2025z.Semafors.Defs.{
  Kind, Filling, Item, Producer, produce, down_empty, down_mutex, push, up_mutex, up_full, nothing,
  filled, Consumer, down_full, take_mutex, pop, give_mutex, up_empty, make_pierogi, Station, Event,
  silent, down, producer_step, consumer_step, needs, kind_of, pushed_item, popped_item,
  first_station,
}
use soi_laboratoria_2025z.Semafors.Window.{
  buffer_push-Window, buffer_pop-Window, init_buffer-Window,
}
use soi_laboratoria_2025z.Semafors.Roles.{
  took_full, holds, owes_empty, Fits, Good, After, Holds, AfterTake, quiet, put, serve, take,
}

down-Good :
    {A : Type 0} (Q : Event → A → Type 0) (sem : ℕ) (next : ℕ → A)
    → ((n : ℕ) → sem ≡ suc n → Q silent (next n))
    → Good Q (down sem next)
unfolding down
down-Good Q zero next h = tt
down-Good Q (suc n) next h = h n refl

module _ (n : ℕ) (k : Kind) (s : Station) (h t o pu po : ℕ) where
  pub producer_step-After :
      (q : Producer) → Fits n k s q h t o pu po → Good (After n k h t o pu po) (producer_step k s q)
  unfolding producer_step pushed_item
  producer_step-After produce f =
      let e : s.global_counter ≡ pu = omega (arith, f.counter) in
      (
        pu,
        po,
        quiet,
        record {
          mutex = f.mutex;
          full = f.full;
          empty = f.empty;
          counter = omega (arith, f.counter);
          next = rw e refl;
          window = f.window;
        },
      )
  producer_step-After (down_empty item) f = down-Good (After n k h t o pu po) s.empty _ (λ m e. (
    pu,
    po,
    quiet,
    record {
      mutex = f.mutex;
      full = f.full;
      empty = omega (arith, f.empty);
      counter = f.counter;
      next = f.next;
      window = f.window;
    },
  ))
  producer_step-After (down_mutex item) f = down-Good (After n k h t o pu po) s.mutex _ (λ m e. (
    pu,
    po,
    quiet,
    record {
      mutex = omega (arith, f.mutex);
      full = f.full;
      empty = f.empty;
      counter = f.counter;
      next = f.next;
      window = f.window;
    },
  ))
  producer_step-After (push item) f =
      let (b, run, w) =
        buffer_push-Window n k s.buffer pu po f.window (omega (arith, f.full))
          (omega (arith, f.empty)) in
      rw (f.next, run)
        (
          suc pu,
          po,
          put (omega (arith, f.empty)),
          record {
            mutex = f.mutex;
            full = omega (arith, f.full);
            empty = omega (arith, f.empty);
            counter = omega (arith, f.counter);
            next = tt;
            window = w;
          },
        )
  producer_step-After up_mutex f = (
    pu,
    po,
    quiet,
    record {
      mutex = omega (arith, f.mutex);
      full = f.full;
      empty = f.empty;
      counter = f.counter;
      next = tt;
      window = f.window;
    },
  )
  producer_step-After up_full f = (
    pu,
    po,
    quiet,
    record {
      mutex = f.mutex;
      full = omega (arith, f.full);
      empty = f.empty;
      counter = f.counter;
      next = tt;
      window = f.window;
    },
  )

module _ (n : ℕ) (f : Filling) (s : Station) (h t o pu po : ℕ) where
  pub consumer_step-AfterTake :
      (c : Consumer)
      → Holds f c
      → Fits n (needs f c) s s.producer (h + holds c) (t + took_full c) (o + owes_empty c) pu po
      → Good (AfterTake n (needs f c) f h t o pu po) (consumer_step f s c)
  unfolding consumer_step popped_item
  consumer_step-AfterTake (down_full g) own i =
      down-Good (AfterTake n (kind_of f g) f h t o pu po) s.full _ (λ m e. (
        own,
        inl refl,
        (
          pu,
          po,
          quiet,
          record {
            mutex = i.mutex;
            full = omega (arith, i.full);
            empty = i.empty;
            counter = i.counter;
            next = i.next;
            window = i.window;
          },
        ),
      ))
  consumer_step-AfterTake (take_mutex g) own i =
      down-Good (AfterTake n (kind_of f g) f h t o pu po) s.mutex _ (λ m e. (
        own,
        inl refl,
        (
          pu,
          po,
          quiet,
          record {
            mutex = omega (arith, i.mutex);
            full = i.full;
            empty = i.empty;
            counter = i.counter;
            next = i.next;
            window = i.window;
          },
        ),
      ))
  consumer_step-AfterTake (pop g) own i =
      let (b, run, w) =
        buffer_pop-Window n (kind_of f g) s.buffer pu po i.window (omega (arith, i.full))
          (omega (arith, i.empty)) in
      rw run (
        (own, refl),
        inl refl,
        (
          pu,
          suc po,
          take (omega (arith, i.full)),
          record {
            mutex = i.mutex;
            full = omega (arith, i.full);
            empty = omega (arith, i.empty);
            counter = i.counter;
            next = i.next;
            window = w;
          },
        ),
      )
  consumer_step-AfterTake (give_mutex g item) own i = (
    own,
    inl refl,
    (
      pu,
      po,
      quiet,
      record {
        mutex = omega (arith, i.mutex);
        full = i.full;
        empty = i.empty;
        counter = i.counter;
        next = i.next;
        window = i.window;
      },
    ),
  )
  consumer_step-AfterTake (up_empty nothing item) own i = (
    own.1,
    inr (refl, refl, refl),
    (
      pu,
      po,
      quiet,
      record {
        mutex = i.mutex;
        full = i.full;
        empty = omega (arith, i.empty);
        counter = i.counter;
        next = i.next;
        window = i.window;
      },
    ),
  )
  consumer_step-AfterTake (up_empty (filled x) item) own i = (
    (own.1, own.0),
    inr (refl, refl, refl),
    (
      pu,
      po,
      quiet,
      record {
        mutex = i.mutex;
        full = i.full;
        empty = omega (arith, i.empty);
        counter = i.counter;
        next = i.next;
        window = i.window;
      },
    ),
  )
  consumer_step-AfterTake (make_pierogi d x) own i =
      (tt, inr (refl, refl, refl), (pu, po, serve f own.0 own.1, i))

pub first_station-Fits :
    (n : ℕ) (k : Kind) (x : Item) → Fits n k (first_station n x) produce 0 0 0 0 0
first_station-Fits n k x = record {
  mutex = omega arith;
  full = omega arith;
  empty = omega arith;
  counter = omega arith;
  next = tt;
  window = init_buffer-Window n k x;
}
