-- ===== src/Monitors/Gets.antt =====
-- The steps of a consumer of monitors/main.c keep the monitor in accord with its threads.
use soi_laboratoria_2025z.Base.{ℕ, suc, ◌+◌, ◌≤◌, ◌≡◌, inl, inr, refl, arith, Bool-cases, ◌==◌}
use soi_laboratoria_2025z.Semafors.Defs.{Filling, Item, Got, nothing, filled, kind_of}
use soi_laboratoria_2025z.Semafors.Window.{buffer_pop-Window}
use soi_laboratoria_2025z.Semafors.Roles.{Good, quiet, serve, take}
use soi_laboratoria_2025z.Monitors.Defs.{
  Consumer, lock_get, test_get, wait_empty, relock_get, get, signal_get, unlock_get, make_pierogi,
  needs, Station, consumer_step, got_item,
}
use soi_laboratoria_2025z.Monitors.Roles.{
  Role, holding, getting, awake, waiting, signalling, role, Fits, Holds, AfterTake,
}
use soi_laboratoria_2025z.Monitors.Wakes.{woken-Woken}
use soi_laboratoria_2025z.Monitors.Puts.{locking-Good}

-- A consumer that has not yet called `monitor_get`, or makes a pierog, counts nowhere.
pub lock_get-idle : (g : Got) (r : Role) → role r (lock_get g) ≡ 0
lock_get-idle g holding = refl
lock_get-idle g getting = refl
lock_get-idle g awake = refl
lock_get-idle g waiting = refl
lock_get-idle g signalling = refl

make_pierogi-idle : (d x : Item) (r : Role) → role r (make_pierogi d x) ≡ 0
make_pierogi-idle d x holding = refl
make_pierogi-idle d x getting = refl
make_pierogi-idle d x awake = refl
make_pierogi-idle d x waiting = refl
make_pierogi-idle d x signalling = refl

module _ (n : ℕ) (f : Filling) (s : Station) (h : Role → ℕ) (pu po : ℕ)
    (le : h getting ≤ h holding) where
  pub consumer_step-AfterTake :
      (c : Consumer)
      → Holds f c
      → Fits n (needs f c) s s.producer (λ r. h r + role r c) pu po
      → Good (AfterTake n (needs f c) f h pu po) (consumer_step f s c)
  unfolding consumer_step got_item
  consumer_step-AfterTake (lock_get g) own i =
      locking-Good (AfterTake n (kind_of f g) f h pu po) s.monitor.lock _ (λ free. (
        own,
        inl refl,
        (
          pu,
          po,
          quiet,
          record {
            lock = omega (arith, i.lock);
            single = omega arith;
            count = i.count;
            room = i.room;
            inside = omega (arith, i.inside);
            full = i.full;
            empty = elim i.empty [ inl e ↦ inl e | inr le' ↦ inr (omega arith) ];
            counter = i.counter;
            next = i.next;
            window = i.window;
          },
        ),
      ))
  consumer_step-AfterTake (test_get g) own i = elim (Bool-cases (s.monitor.count == 0)) [
    | inl none ↦ rw none (
      own,
      inl refl,
      (
        pu,
        po,
        quiet,
        record {
          lock = omega (arith, i.lock, i.single);
          single = omega arith;
          count = i.count;
          room = i.room;
          inside = i.inside;
          full = i.full;
          empty = inr (ground arith);
          counter = i.counter;
          next = i.next;
          window = i.window;
        },
      ),
    )
    | inr some ↦ rw some (
      own,
      inl refl,
      (
        pu,
        po,
        quiet,
        record {
          lock = i.lock;
          single = i.single;
          count = i.count;
          room = i.room;
          inside = ground (arith, i.lock, i.single, le);
          full = i.full;
          empty = i.empty;
          counter = i.counter;
          next = i.next;
          window = i.window;
        },
      ),
    )
  ]
  consumer_step-AfterTake (wait_empty g) own i = tt
  consumer_step-AfterTake (relock_get g) own i =
      locking-Good (AfterTake n (kind_of f g) f h pu po) s.monitor.lock _ (λ free. (
        own,
        inl refl,
        (
          pu,
          po,
          quiet,
          record {
            lock = omega (arith, i.lock);
            single = omega arith;
            count = i.count;
            room = i.room;
            inside = omega (arith, i.inside);
            full = i.full;
            empty = elim i.empty [ inl e ↦ inl e | inr le' ↦ inr (omega arith) ];
            counter = i.counter;
            next = i.next;
            window = i.window;
          },
        ),
      ))
  consumer_step-AfterTake (get g) own i =
      let (b, run, w) =
        buffer_pop-Window n (kind_of f g) s.monitor.ring pu po i.window
          (omega (arith, i.count, i.inside)) (omega (arith, i.count, i.room)) in
      rw run (
        (own, refl),
        inl refl,
        (
          pu,
          suc po,
          take (omega (arith, i.count, i.inside)),
          record {
            lock = i.lock;
            single = i.single;
            count = omega (arith, i.count, i.inside);
            room = omega (arith, i.room);
            inside = omega (arith, i.lock, i.single, le, i.inside);
            full = elim i.full [ inl e ↦ inl e | inr le' ↦ inr (omega arith) ];
            empty = elim i.empty [ inl e ↦ inl e | inr le' ↦ inr (omega arith) ];
            counter = i.counter;
            next = i.next;
            window = w;
          },
        ),
      )
  consumer_step-AfterTake (signal_get g item) own i =
      let w = woken-Woken (kind_of f g) pu s.producer in
      (
        own,
        inl refl,
        (
          pu,
          po,
          quiet,
          record {
            lock = omega (arith, i.lock, w.same_locks);
            single = i.single;
            count = i.count;
            room = omega (arith, i.room, w.same_at_put);
            inside = i.inside;
            full = inl w.awake_now;
            empty = elim i.empty [
              | inl e ↦ inl e
              | inr le' ↦ inr (omega (arith, w.same_at_signal))
            ];
            counter = omega (arith, i.counter, w.same_has_item);
            next = w.same_next i.next;
            window = i.window;
          },
        ),
      )
  consumer_step-AfterTake (unlock_get nothing item) own i = (
    own.1,
    inr (lock_get-idle (filled item)),
    (
      pu,
      po,
      quiet,
      record {
        lock = omega (arith, i.lock, i.single);
        single = omega arith;
        count = i.count;
        room = i.room;
        inside = i.inside;
        full = i.full;
        empty = i.empty;
        counter = i.counter;
        next = i.next;
        window = i.window;
      },
    ),
  )
  consumer_step-AfterTake (unlock_get (filled x) item) own i = (
    (own.1, own.0),
    inr (make_pierogi-idle item x),
    (
      pu,
      po,
      quiet,
      record {
        lock = omega (arith, i.lock, i.single);
        single = omega arith;
        count = i.count;
        room = i.room;
        inside = i.inside;
        full = i.full;
        empty = i.empty;
        counter = i.counter;
        next = i.next;
        window = i.window;
      },
    ),
  )
  consumer_step-AfterTake (make_pierogi d x) own i = (
    tt,
    inr (lock_get-idle nothing),
    (
      pu,
      po,
      serve f own.0 own.1,
      record {
        lock = i.lock;
        single = i.single;
        count = i.count;
        room = i.room;
        inside = i.inside;
        full = i.full;
        empty = i.empty;
        counter = i.counter;
        next = i.next;
        window = i.window;
      },
    ),
  )
