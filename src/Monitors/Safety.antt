-- ===== src/Monitors/Safety.antt =====
-- Mutual exclusion in the monitors of monitors/main.c, accesses inside of the arrays, and the order of
-- items.
use soi_laboratoria_2025z.Base.{ℕ, ◌≤◌, ◌≡◌, ◌≢◌, sym, ap, ◌∙◌, List, ◌∷◌, arith}
use soi_laboratoria_2025z.Semafors.Defs.{
  Kind, Filling, Item, Event, Thread, producer_of, consumer_of, crashed,
}
use soi_laboratoria_2025z.Semafors.Totals.{weight, total, weight-total, total-one, same_kind_refl}
use soi_laboratoria_2025z.Semafors.Counts.{Ordered}
use soi_laboratoria_2025z.Semafors.Safety.{AllOrdered, Good-crashed}
use soi_laboratoria_2025z.Monitors.Defs.{needs, Kitchen, Action, step, start, Run, stop, then_step}
use soi_laboratoria_2025z.Monitors.Roles.{locks, role, holding}
use soi_laboratoria_2025z.Monitors.Inv.{Inv, Run-Inv, step-Inv}

-- The thread has the mutex of this monitor: it has returned from `pthread_mutex_lock` or from
-- `pthread_cond_wait` and has neither waited nor unlocked since.
abbrev pub InMonitor : Thread → Kind → Kitchen → Type 0
InMonitor (producer_of j) k s = (j ≡ k) × (locks (s.station k).producer ≡ 1)
InMonitor (consumer_of f) k s = (needs f (s.cook f) ≡ k) × (role holding (s.cook f) ≡ 1)

weight-InMonitor :
    (k : Kind) (f : Filling) (s : Kitchen)
    → InMonitor (consumer_of f) k s
    → weight needs k (role holding) f (s.cook f) ≡ 1
unfolding weight
weight-InMonitor k f s h = rw (h.0, same_kind_refl k) h.1

consumer_counts :
    (k : Kind) (s : Kitchen) (f : Filling)
    → InMonitor (consumer_of f) k s
    → 1 ≤ total needs k (role holding) s.cook
consumer_counts k s f h =
    omega (arith, weight-InMonitor k f s h, weight-total needs k (role holding) s.cook f)

one_thread :
    (n : ℕ) (s : Kitchen) (es : List Event) (k : Kind) (t u : Thread)
    → Inv n s es
    → InMonitor t k s
    → InMonitor u k s
    → t ≡ u
one_thread n s es k (producer_of j) (producer_of l) i a b = ap producer_of (a.0 ∙ sym b.0)
one_thread n s es k (producer_of j) (consumer_of f) i a b =
    absurd (omega (arith, (i.fits k).lock, (i.fits k).single, a.1, consumer_counts k s f b))
one_thread n s es k (consumer_of f) (producer_of j) i a b =
    absurd (omega (arith, (i.fits k).lock, (i.fits k).single, b.1, consumer_counts k s f a))
one_thread n s es k (consumer_of f) (consumer_of g) i a b = ap consumer_of (
    total-one needs k (role holding) s.cook f g (omega (arith, (i.fits k).lock, (i.fits k).single))
      (weight-InMonitor k f s a) (weight-InMonitor k g s b))

-- After every run of the threads, with signals to any waiting consumer and wake-ups without a signal, two
-- threads that both have the mutex of one monitor are the same thread.
pub Run-one_inside :
    (n : ℕ) (x : Item) (s : Kitchen) (es : List Event) (k : Kind) (t u : Thread)
    → Run (start n x) s es
    → InMonitor t k s
    → InMonitor u k s
    → t ≡ u
Run-one_inside n x s es k t u r a b = one_thread n s es k t u (Run-Inv n x s es r) a b

-- After every run, no thread reads or writes outside of the array of a monitor at its next step, whatever
-- the size of the buffers is, zero included.
pub Run-inside_arrays :
    (n : ℕ) (x : Item) (s : Kitchen) (es : List Event) (a : Action)
    → Run (start n x) s es
    → step a s ≢ crashed
Run-inside_arrays n x s es a r =
    Good-crashed (λ e s'. Ordered n es e × Inv n s' (e ∷ es)) (step a s)
      (step-Inv n s es (Run-Inv n x s es r) a)

-- In every run, wake-ups without a signal included, each monitor is a bounded queue: the items put into it
-- are those produced, with the ids 0, 1, 2 and so on, they are put in only while fewer than `n` are inside,
-- and those taken out are the same in the same order, taken only when one is inside; every pierog is made
-- of dough and a filling.
pub Run-in_order :
    (n : ℕ) (x : Item) (s : Kitchen) (es : List Event) → Run (start n x) s es → AllOrdered n es
Run-in_order n x _ _ stop = tt
Run-in_order n x s _ (then_step {s = s1} {es = es} {e = e} a r h) =
    ((rw h at (step-Inv n s1 es (Run-Inv n x s1 es r) a)).0, Run-in_order n x s1 es r)
