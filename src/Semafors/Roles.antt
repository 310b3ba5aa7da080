-- ===== src/Semafors/Roles.antt =====
-- The semaphores of one buffer of semafors/main.c against what its threads have done.
use soi_laboratoria_2025z.Base.{ℕ, suc, ◌+◌, ◌<◌, ◌≡◌, ◌⊎◌}
use soi_laboratoria_2025z.Semafors.Defs.{
  Kind, dough, filling, Filling, Item, produced, Producer, down_empty, down_mutex, push, up_mutex,
  up_full, Got, nothing, filled, Consumer, down_full, take_mutex, pop, give_mutex, up_empty,
  make_pierogi, Station, Event, silent, pushed, popped, made, Step, blocked, crashed, moved, needs,
  kind_of, letter,
}
use soi_laboratoria_2025z.Semafors.Window.{Window}

-- How many items a producer has: made and not put into the buffer.
abbrev pub has_item : Producer → ℕ
has_item (down_empty item) = 1
has_item (down_mutex item) = 1
has_item (push item) = 1
has_item _ = 0

abbrev pub took_empty : Producer → ℕ
took_empty (down_mutex item) = 1
took_empty (push item) = 1
took_empty _ = 0

abbrev pub locks : Producer → ℕ
locks (push item) = 1
locks up_mutex = 1
locks _ = 0

abbrev pub owes_full : Producer → ℕ
owes_full up_mutex = 1
owes_full up_full = 1
owes_full _ = 0

-- The item of a producer is the next of its kind.
abbrev pub NextItem : Kind → ℕ → Producer → Type 0
NextItem k pu (down_empty item) = item ≡ produced k pu
NextItem k pu (down_mutex item) = item ≡ produced k pu
NextItem k pu (push item) = item ≡ produced k pu
NextItem k pu _ = Unit

abbrev pub took_full : Consumer → ℕ
took_full (take_mutex g) = 1
took_full (pop g) = 1
took_full _ = 0

abbrev pub holds : Consumer → ℕ
holds (pop g) = 1
holds (give_mutex g item) = 1
holds _ = 0

abbrev pub owes_empty : Consumer → ℕ
owes_empty (give_mutex g item) = 1
owes_empty (up_empty g item) = 1
owes_empty _ = 0

-- A station after `pu` pushes and `po` pops, its producer at `q`, while the consumers at its buffer hold
-- `h` times the mutex, have taken `t` of `full` that they have not popped, and owe `o` to `empty`.
pub record Fits (n : ℕ) (k : Kind) (s : Station) (q : Producer) (h t o pu po : ℕ) : Type 0 where
  pub mutex : s.mutex + locks q + h ≡ 1
  pub full : s.full + owes_full q + t + po ≡ pu
  pub empty : s.empty + took_empty q + o + pu ≡ n + po
  pub counter : s.global_counter ≡ pu + has_item q
  pub next : NextItem k pu q
  pub window : Window n k s.buffer pu po

-- The numbers of pushes and pops after an event.
pub data Advance (n : ℕ) (k : Kind) (pu po : ℕ) : Event → ℕ → ℕ → Type 0 where
  quiet : Advance n k pu po silent pu po
  put : pu < n + po → Advance n k pu po (pushed k (produced k pu)) (suc pu) po
  serve :
      {d x : Item} (f : Filling)
      → d.type ≡ letter dough
      → x.type ≡ letter (filling f)
      → Advance n k pu po (made d x) pu po
  take : po < pu → Advance n k pu po (popped k (produced k po)) pu (suc po)

-- A step that waits or is made, with what then holds, and does not crash.
abbrev pub Good : {A : Type 0} → (Event → A → Type 0) → Step A → Type 0
Good Q blocked = Unit
Good Q crashed = ⊥
Good Q (moved e a) = Q e a

abbrev pub After : (n : ℕ) (k : Kind) (h t o pu po : ℕ) → Event → Station → Type 0
After n k h t o pu po e s =
    (pu' : ℕ) × (po' : ℕ) × Advance n k pu po e pu' po' × Fits n k s s.producer h t o pu' po'

-- The items that a consumer holds are of the kinds that it took.
abbrev pub HasFilling : Filling → Got → Type 0
HasFilling f nothing = Unit
HasFilling f (filled x) = x.type ≡ letter (filling f)

abbrev pub Holds : Filling → Consumer → Type 0
Holds f (down_full g) = HasFilling f g
Holds f (take_mutex g) = HasFilling f g
Holds f (pop g) = HasFilling f g
Holds f (give_mutex g item) = HasFilling f g × (item.type ≡ letter (kind_of f g))
Holds f (up_empty g item) = HasFilling f g × (item.type ≡ letter (kind_of f g))
Holds f (make_pierogi d x) = (d.type ≡ letter dough) × (x.type ≡ letter (filling f))

-- The consumer is still at the station, or counts nowhere.
abbrev pub Settled : Kind → Filling → Consumer → Type 0
Settled k f c = (k ≡ needs f c) ⊎ ((holds c ≡ 0) × (took_full c ≡ 0) × (owes_empty c ≡ 0))

-- What a consumer of `f` leaves, with the other consumers at its station counted by `h`, `t` and `o`.
abbrev pub AfterTake :
    (n : ℕ) (k : Kind) (f : Filling) (h t o pu po : ℕ) → Event → Consumer × Station → Type 0
AfterTake n k f h t o pu po e (c, s) =
    Holds f c
    × Settled k f c
    × ((pu' : ℕ) × (po' : ℕ) × Advance n k pu po e pu' po'
        × Fits n k s s.producer (h + holds c) (t + took_full c) (o + owes_empty c) pu' po')
