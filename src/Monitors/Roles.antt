-- ===== src/Monitors/Roles.antt =====
-- A monitor of monitors/main.c against what its threads have done.
use soi_laboratoria_2025z.Base.{ℕ, ◌+◌, ◌≤◌, ◌≡◌, ◌⊎◌}
use soi_laboratoria_2025z.Semafors.Defs.{
  Kind, Filling, produced, letter, dough, filling, Event, kind_of,
}
use soi_laboratoria_2025z.Semafors.Window.{Window}
use soi_laboratoria_2025z.Semafors.Roles.{Advance, HasFilling}
use soi_laboratoria_2025z.Monitors.Defs.{
  Producer, lock_put, test_put, wait_full, relock_put, put, signal_put, unlock_put, Consumer,
  lock_get, test_get, wait_empty, relock_get, get, signal_get, unlock_get, make_pierogi, waits,
  Station, needs,
}

-- How many items a producer has: made and not put into the buffer.
abbrev pub has_item : Producer → ℕ
has_item (lock_put item) = 1
has_item (test_put item) = 1
has_item (wait_full item) = 1
has_item (relock_put item) = 1
has_item (put item) = 1
has_item _ = 0

-- 1 when the producer has the mutex.
abbrev pub locks : Producer → ℕ
locks (test_put item) = 1
locks (put item) = 1
locks signal_put = 1
locks unlock_put = 1
locks _ = 0

abbrev pub at_put : Producer → ℕ
at_put (put item) = 1
at_put _ = 0

abbrev pub at_signal : Producer → ℕ
at_signal signal_put = 1
at_signal _ = 0

abbrev pub waits_full : Producer → ℕ
waits_full (wait_full item) = 1
waits_full _ = 0

-- The item of a producer is the next of its kind.
abbrev pub NextItem : Kind → ℕ → Producer → Type 0
NextItem k pu (lock_put item) = item ≡ produced k pu
NextItem k pu (test_put item) = item ≡ produced k pu
NextItem k pu (wait_full item) = item ≡ produced k pu
NextItem k pu (relock_put item) = item ≡ produced k pu
NextItem k pu (put item) = item ≡ produced k pu
NextItem k pu _ = Unit

-- What a consumer counts for at its monitor: it has the mutex, is about to take, is on its way to take
-- after a test or a wake-up, waits, or is about to signal.
pub data Role : Type 0 where
  holding getting awake waiting signalling : Role

abbrev pub role : Role → Consumer → ℕ
role holding (test_get g) = 1
role holding (get g) = 1
role holding (signal_get g item) = 1
role holding (unlock_get g item) = 1
role getting (get g) = 1
role awake (relock_get g) = 1
role awake (test_get g) = 1
role awake (get g) = 1
role waiting c = waits c
role signalling (signal_get g item) = 1
role _ _ = 0

-- A station after `pu` puts and `po` gets, its producer at `q`, while the consumers at its monitor count
-- `h r` in the role `r`. A producer waits for room only while the buffer is full up to the consumers that
-- are about to signal; a consumer waits only while each item inside has a consumer on its way or a signal.
pub record Fits (n : ℕ) (k : Kind) (s : Station) (q : Producer) (h : Role → ℕ) (pu po : ℕ)
    : Type 0 where
  pub lock : s.monitor.lock ≡ locks q + h holding
  pub single : s.monitor.lock ≤ 1
  pub count : s.monitor.count + po ≡ pu
  pub room : at_put q + s.monitor.count ≤ n
  pub inside : h getting ≤ s.monitor.count
  pub full : (waits_full q ≡ 0) ⊎ (n ≤ s.monitor.count + h signalling)
  pub empty : (h waiting ≡ 0) ⊎ (s.monitor.count ≤ h awake + at_signal q)
  pub counter : s.global_counter ≡ pu + has_item q
  pub next : NextItem k pu q
  pub window : Window n k s.monitor.ring pu po

abbrev pub After : (n : ℕ) (k : Kind) (h : Role → ℕ) (pu po : ℕ) → Event → Station → Type 0
After n k h pu po e s =
    (pu' : ℕ) × (po' : ℕ) × Advance n k pu po e pu' po' × Fits n k s s.producer h pu' po'

-- The items that a consumer holds are of the kinds that it took.
abbrev pub Holds : Filling → Consumer → Type 0
Holds f (lock_get g) = HasFilling f g
Holds f (test_get g) = HasFilling f g
Holds f (wait_empty g) = HasFilling f g
Holds f (relock_get g) = HasFilling f g
Holds f (get g) = HasFilling f g
Holds f (signal_get g item) = HasFilling f g × (item.type ≡ letter (kind_of f g))
Holds f (unlock_get g item) = HasFilling f g × (item.type ≡ letter (kind_of f g))
Holds f (make_pierogi d x) = (d.type ≡ letter dough) × (x.type ≡ letter (filling f))

-- The consumer is still at the station, or counts nowhere.
abbrev pub Settled : Kind → Filling → Consumer → Type 0
Settled k f c = (k ≡ needs f c) ⊎ ((r : Role) → role r c ≡ 0)

-- What a consumer of `f` leaves, with the other consumers at its station counted by `h`.
abbrev pub AfterTake :
    (n : ℕ) (k : Kind) (f : Filling) (h : Role → ℕ) (pu po : ℕ)
    → Event
    → Consumer × Station
    → Type 0
AfterTake n k f h pu po e (c, s) =
    Holds f c
    × Settled k f c
    × ((pu' : ℕ) × (po' : ℕ) × Advance n k pu po e pu' po'
        × Fits n k s s.producer (λ r. h r + role r c) pu' po')
