-- ===== src/Monitors/Wakes.antt =====
-- The producer that a consumer of monitors/main.c wakes.
use soi_laboratoria_2025z.Base.{ℕ, ◌≡◌, refl}
use soi_laboratoria_2025z.Semafors.Defs.{Kind}
use soi_laboratoria_2025z.Monitors.Defs.{
  Producer, produce, lock_put, test_put, wait_full, relock_put, put, signal_put, unlock_put, woken,
}
use soi_laboratoria_2025z.Monitors.Roles.{locks, at_put, at_signal, waits_full, has_item, NextItem}

-- A producer that is woken no longer waits, and is otherwise what it was.
pub record Woken (k : Kind) (pu : ℕ) (q q' : Producer) : Type 0 where
  pub same_locks : locks q' ≡ locks q
  pub same_at_put : at_put q' ≡ at_put q
  pub same_at_signal : at_signal q' ≡ at_signal q
  pub same_has_item : has_item q' ≡ has_item q
  pub awake_now : waits_full q' ≡ 0
  pub same_next : NextItem k pu q → NextItem k pu q'

pub woken-Woken : (k : Kind) (pu : ℕ) (q : Producer) → Woken k pu q (woken q)
woken-Woken k pu produce = record {
  same_locks = refl;
  same_at_put = refl;
  same_at_signal = refl;
  same_has_item = refl;
  awake_now = refl;
  same_next = λ h. h;
}
woken-Woken k pu (lock_put x) = record {
  same_locks = refl;
  same_at_put = refl;
  same_at_signal = refl;
  same_has_item = refl;
  awake_now = refl;
  same_next = λ h. h;
}
woken-Woken k pu (test_put x) = record {
  same_locks = refl;
  same_at_put = refl;
  same_at_signal = refl;
  same_has_item = refl;
  awake_now = refl;
  same_next = λ h. h;
}
woken-Woken k pu (wait_full x) = record {
  same_locks = refl;
  same_at_put = refl;
  same_at_signal = refl;
  same_has_item = refl;
  awake_now = refl;
  same_next = λ h. h;
}
woken-Woken k pu (relock_put x) = record {
  same_locks = refl;
  same_at_put = refl;
  same_at_signal = refl;
  same_has_item = refl;
  awake_now = refl;
  same_next = λ h. h;
}
woken-Woken k pu (put x) = record {
  same_locks = refl;
  same_at_put = refl;
  same_at_signal = refl;
  same_has_item = refl;
  awake_now = refl;
  same_next = λ h. h;
}
woken-Woken k pu signal_put = record {
  same_locks = refl;
  same_at_put = refl;
  same_at_signal = refl;
  same_has_item = refl;
  awake_now = refl;
  same_next = λ h. h;
}
woken-Woken k pu unlock_put = record {
  same_locks = refl;
  same_at_put = refl;
  same_at_signal = refl;
  same_has_item = refl;
  awake_now = refl;
  same_next = λ h. h;
}
