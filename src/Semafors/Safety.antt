-- ===== src/Semafors/Safety.antt =====
-- Mutual exclusion at the buffers of semafors/main.c, accesses inside of the arrays, and the order of items.
use soi_laboratoria_2025z.Base.{ℕ, ◌≤◌, ◌≡◌, ◌≢◌, sym, ap, ◌∙◌, List, [], ◌∷◌, arith}
use soi_laboratoria_2025z.Semafors.Defs.{
  Kind, Filling, Item, needs, Event, Step, blocked, crashed, moved, Kitchen, Thread, producer_of,
  consumer_of, step, start, Run, stop, then_step,
}
use soi_laboratoria_2025z.Semafors.Roles.{locks, holds, Good}
use soi_laboratoria_2025z.Semafors.Totals.{total, weight, weight-total, total-one, same_kind_refl}
use soi_laboratoria_2025z.Semafors.Counts.{Ordered}
use soi_laboratoria_2025z.Semafors.Inv.{Inv, Run-Inv, step-Inv}

-- The thread has passed `down(&mutex)` of this buffer, and not yet `up(&mutex)`.
abbrev pub InSection : Thread → Kind → Kitchen → Type 0
InSection (producer_of j) k s = (j ≡ k) × (locks (s.station k).producer ≡ 1)
InSection (consumer_of f) k s = (needs f (s.cook f) ≡ k) × (holds (s.cook f) ≡ 1)

weight-InSection :
    (k : Kind) (f : Filling) (s : Kitchen)
    → InSection (consumer_of f) k s
    → weight needs k holds f (s.cook f) ≡ 1
unfolding weight
weight-InSection k f s h = rw (h.0, same_kind_refl k) h.1

consumer_counts :
    (k : Kind) (s : Kitchen) (f : Filling)
    → InSection (consumer_of f) k s
    → 1 ≤ total needs k holds s.cook
consumer_counts k s f h =
    omega (arith, weight-InSection k f s h, weight-total needs k holds s.cook f)

one_thread :
    (n : ℕ) (s : Kitchen) (es : List Event) (k : Kind) (t u : Thread)
    → Inv n s es
    → InSection t k s
    → InSection u k s
    → t ≡ u
one_thread n s es k (producer_of j) (producer_of l) i a b = ap producer_of (a.0 ∙ sym b.0)
one_thread n s es k (producer_of j) (consumer_of f) i a b =
    absurd (omega (arith, (i.fits k).mutex, a.1, consumer_counts k s f b))
one_thread n s es k (consumer_of f) (producer_of j) i a b =
    absurd (omega (arith, (i.fits k).mutex, b.1, consumer_counts k s f a))
one_thread n s es k (consumer_of f) (consumer_of g) i a b = ap consumer_of (
    total-one needs k holds s.cook f g (omega (arith, (i.fits k).mutex)) (weight-InSection k f s a)
      (weight-InSection k g s b))

-- After every run of the threads, two threads that are both between `down` and `up` of the mutex of one
-- buffer are the same thread.
pub Run-exclusive :
    (n : ℕ) (x : Item) (s : Kitchen) (es : List Event) (k : Kind) (t u : Thread)
    → Run (start n x) s es
    → InSection t k s
    → InSection u k s
    → t ≡ u
Run-exclusive n x s es k t u r a b = one_thread n s es k t u (Run-Inv n x s es r) a b

pub Good-crashed : {A : Type 0} (Q : Event → A → Type 0) (r : Step A) → Good Q r → r ≢ crashed
Good-crashed Q blocked g h = cc
Good-crashed Q crashed g h = absurd g
Good-crashed Q (moved e a) g h = cc

-- After every run, no thread reads or writes outside of the array of a buffer at its next step, whatever
-- the size of the buffers is, zero included.
pub Run-never_crashed :
    (n : ℕ) (x : Item) (s : Kitchen) (es : List Event) (t : Thread)
    → Run (start n x) s es
    → step t s ≢ crashed
Run-never_crashed n x s es t r =
    Good-crashed (λ e s'. Ordered n es e × Inv n s' (e ∷ es)) (step t s)
      (step-Inv n s es (Run-Inv n x s es r) t)

-- Each event of a run, the last first, is `Ordered` after those before it.
abbrev pub AllOrdered : ℕ → List Event → Type 0
AllOrdered n [] = Unit
AllOrdered n (e ∷ es) = Ordered n es e × AllOrdered n es

-- In every run each buffer is a bounded queue: the items put into it are those produced, with the ids 0,
-- 1, 2 and so on, they are put in only while fewer than `n` are inside, and those taken out are the same
-- in the same order, taken only when one is inside; every pierog is made of dough and a filling.
pub Run-AllOrdered :
    (n : ℕ) (x : Item) (s : Kitchen) (es : List Event) → Run (start n x) s es → AllOrdered n es
Run-AllOrdered n x _ _ stop = tt
Run-AllOrdered n x s _ (then_step {s = s1} {es = es} {e = e} t r h) =
    ((rw h at (step-Inv n s1 es (Run-Inv n x s1 es r) t)).0, Run-AllOrdered n x s1 es r)
