-- ===== src/Monitors/Signals.antt =====
-- The signals and the wake-ups of monitors/monitor.c keep the monitor in accord with its threads.
use soi_laboratoria_2025z.Base.{ℕ, ◌+◌, ◌≤◌, inl, inr, refl, arith}
use soi_laboratoria_2025z.Semafors.Defs.{Filling}
use soi_laboratoria_2025z.Semafors.Roles.{Good, quiet}
use soi_laboratoria_2025z.Monitors.Defs.{
  Producer, produce, lock_put, test_put, wait_full, relock_put, put, signal_put, unlock_put,
  Consumer, lock_get, test_get, wait_empty, relock_get, get, signal_get, unlock_get, make_pierogi,
  needs, Station, signal_step, wake_step,
}
use soi_laboratoria_2025z.Monitors.Roles.{Role, holding, getting, role, Fits, Holds, AfterTake}

module _ (n : ℕ) (f : Filling) (s : Station) (h : Role → ℕ) (pu po : ℕ)
    (le : h getting ≤ h holding) where
  pub signal_step-AfterTake :
      (q : Producer) (c : Consumer)
      → Holds f c
      → Fits n (needs f c) s q (λ r. h r + role r c) pu po
      → Good (AfterTake n (needs f c) f h pu po) (signal_step s q c)
  unfolding signal_step
  signal_step-AfterTake signal_put (wait_empty g) own i = (
    own,
    inl refl,
    (
      pu,
      po,
      quiet,
      record {
        lock = i.lock;
        single = i.single;
        count = i.count;
        room = i.room;
        inside = i.inside;
        full = i.full;
        empty = elim i.empty [ inl e ↦ absurd (omega arith) | inr le' ↦ inr (omega arith) ];
        counter = i.counter;
        next = i.next;
        window = i.window;
      },
    ),
  )
  signal_step-AfterTake signal_put (lock_get g) own i = tt
  signal_step-AfterTake signal_put (test_get g) own i = tt
  signal_step-AfterTake signal_put (relock_get g) own i = tt
  signal_step-AfterTake signal_put (get g) own i = tt
  signal_step-AfterTake signal_put (signal_get g x) own i = tt
  signal_step-AfterTake signal_put (unlock_get g x) own i = tt
  signal_step-AfterTake signal_put (make_pierogi d x) own i = tt
  signal_step-AfterTake produce c own i = tt
  signal_step-AfterTake (lock_put x) c own i = tt
  signal_step-AfterTake (test_put x) c own i = tt
  signal_step-AfterTake (wait_full x) c own i = tt
  signal_step-AfterTake (relock_put x) c own i = tt
  signal_step-AfterTake (put x) c own i = tt
  signal_step-AfterTake unlock_put c own i = tt

  pub wake_step-AfterTake :
      (c : Consumer)
      → Holds f c
      → Fits n (needs f c) s s.producer (λ r. h r + role r c) pu po
      → Good (AfterTake n (needs f c) f h pu po) (wake_step s c)
  unfolding wake_step
  wake_step-AfterTake (wait_empty g) own i = (
    own,
    inl refl,
    (
      pu,
      po,
      quiet,
      record {
        lock = i.lock;
        single = i.single;
        count = i.count;
        room = i.room;
        inside = i.inside;
        full = i.full;
        empty = elim i.empty [ inl e ↦ absurd (omega arith) | inr le' ↦ inr (omega arith) ];
        counter = i.counter;
        next = i.next;
        window = i.window;
      },
    ),
  )
  wake_step-AfterTake (lock_get g) own i = tt
  wake_step-AfterTake (test_get g) own i = tt
  wake_step-AfterTake (relock_get g) own i = tt
  wake_step-AfterTake (get g) own i = tt
  wake_step-AfterTake (signal_get g x) own i = tt
  wake_step-AfterTake (unlock_get g x) own i = tt
  wake_step-AfterTake (make_pierogi d x) own i = tt
