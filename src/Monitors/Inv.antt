-- ===== src/Monitors/Inv.antt =====
-- What holds of every state that the threads of monitors/main.c reach, in whatever order they run, are
-- signalled and wake.
use soi_laboratoria_2025z.Base.{
  ℕ, ◌+◌, ◌≤◌, ◌≡◌, refl, sym, subst, fun_ext, ◌⊎◌, inl, inr, List, [], ◌∷◌, arith, Bool-cases,
}
use soi_laboratoria_2025z.Semafors.Defs.{
  Kind, Filling, same_kind, Item, Event, Step, blocked, crashed, moved, producer_of, consumer_of,
  set_station, set_cook, nothing,
}
use soi_laboratoria_2025z.Semafors.Roles.{Good}
use soi_laboratoria_2025z.Semafors.Totals.{
  same_kind_eq, total, total-zero, others, others-le, set_station_here, set_station_other,
  set_cook-holds, total_here, total_moved, total_others,
}
use soi_laboratoria_2025z.Semafors.Counts.{
  pushes, pops, Advance-counts, Advance-others, Ordered, Advance-Ordered,
}
use soi_laboratoria_2025z.Monitors.Defs.{
  Consumer, lock_get, test_get, wait_empty, relock_get, get, signal_get, unlock_get, make_pierogi,
  needs, Station, Kitchen, Action, run, signal, wake, step, produced_at, consumed_at, start, Run,
  stop, then_step,
}
use soi_laboratoria_2025z.Monitors.Roles.{
  Role, holding, getting, role, Fits, After, AfterTake, Holds, Settled,
}
use soi_laboratoria_2025z.Monitors.Puts.{
  producer_step-After, wake_producer-After, first_station-Fits,
}
use soi_laboratoria_2025z.Monitors.Gets.{lock_get-idle, consumer_step-AfterTake}
use soi_laboratoria_2025z.Monitors.Signals.{signal_step-AfterTake, wake_step-AfterTake}

-- What the three consumers count at a monitor, in each role.
abbrev pub counts : Kind → (Filling → Consumer) → Role → ℕ
counts k cook r = total needs k (role r) cook

-- What the others than the consumer of `f` count.
abbrev pub other_counts : Kind → (Filling → Consumer) → Filling → Role → ℕ
other_counts k cook f r = others needs k (role r) cook f

-- `Fits` of a state after a run, at a kind.
abbrev pub FitsAt : (n : ℕ) → Kitchen → List Event → Kind → Type 0
FitsAt n s es k =
    Fits n k (s.station k) (s.station k).producer (counts k s.cook) (pushes k es) (pops k es)

pub record Inv (n : ℕ) (s : Kitchen) (es : List Event) : Type 0 where
  pub fits : (k : Kind) → FitsAt n s es k
  pub own : (f : Filling) → Holds f (s.cook f)

getting-holding : (c : Consumer) → role getting c ≤ role holding c
getting-holding (lock_get g) = omega arith
getting-holding (test_get g) = omega arith
getting-holding (wait_empty g) = omega arith
getting-holding (relock_get g) = omega arith
getting-holding (get g) = omega arith
getting-holding (signal_get g x) = omega arith
getting-holding (unlock_get g x) = omega arith
getting-holding (make_pierogi d x) = omega arith

Settled-role :
    (k : Kind) (f : Filling) (c : Consumer) (r : Role)
    → Settled k f c
    → (k ≡ needs f c) ⊎ (role r c ≡ 0)
Settled-role k f c r (inl h) = inl h
Settled-role k f c r (inr h) = inr (h r)

module _ (n : ℕ) (s : Kitchen) (es : List Event) (i : Inv n s es) where
  produced-Inv :
      (k : Kind) (e : Event) (x : Station)
      → After n k (counts k s.cook) (pushes k es) (pops k es) e x
      → Inv n (record s { station = set_station k x s.station }) (e ∷ es)
  produced-Inv k e x (pu, po, a, f) =
      let here : FitsAt n (record s { station = set_station k x s.station }) (e ∷ es) k =
        rw
          (
            set_station_here k x s.station,
            (Advance-counts n k es e pu po a).0,
            (Advance-counts n k es e pu po a).1,
          )
          f in
      record {
        fits = λ j. elim (Bool-cases (same_kind j k)) [
          | inl hit ↦ rw (same_kind_eq j k hit) here
          | inr miss ↦
              let apart = Advance-others n j k es e (pushes k es) (pops k es) pu po miss a in
              rw (set_station_other j k x s.station miss, apart.0, apart.1) (i.fits j)
        ];
        own = i.own;
      }

  -- The state of the monitor that the consumer of `f` needs, with what it counts itself apart.
  needed-Fits :
      (f : Filling)
      → Fits n
          (needs f (s.cook f))
          (s.station (needs f (s.cook f)))
          (s.station (needs f (s.cook f))).producer
          (λ r. other_counts (needs f (s.cook f)) s.cook f r + role r (s.cook f))
          (pushes (needs f (s.cook f)) es)
          (pops (needs f (s.cook f)) es)
  needed-Fits f =
      let k = needs f (s.cook f) in
      subst (λ h. Fits n k (s.station k) (s.station k).producer h (pushes k es) (pops k es))
        (fun_ext (λ r. total_here needs k (role r) s.cook f refl)) (i.fits k)

  consumed-Inv :
      (f : Filling) (k : Kind) (e : Event) (c : Consumer) (x : Station)
      → k ≡ needs f (s.cook f)
      → AfterTake n k f (other_counts k s.cook f) (pushes k es) (pops k es) e (c, x)
      → Inv n (record { station = set_station k x s.station; cook = set_cook f c s.cook }) (e ∷ es)
  consumed-Inv f k e c x at (own, to, (pu, po, a, fit)) =
      let s' : Kitchen = record {
        station = set_station k x s.station;
        cook = set_cook f c s.cook;
      } in
      let here : FitsAt n s' (e ∷ es) k =
        rw
          (
            set_station_here k x s.station,
            (Advance-counts n k es e pu po a).0,
            (Advance-counts n k es e pu po a).1,
          )
          (subst (λ h. Fits n k x x.producer h pu po)
            (fun_ext (λ r. sym (total_moved needs k (role r) s.cook f c (Settled-role k f c r to))))
            fit) in
      record {
        fits = λ j. elim (Bool-cases (same_kind j k)) [
          | inl hit ↦ rw (same_kind_eq j k hit) here
          | inr miss ↦
              let apart = Advance-others n j k es e (pushes k es) (pops k es) pu po miss a in
              rw (set_station_other j k x s.station miss, apart.0, apart.1)
                (subst
                  (λ h. Fits n j (s.station j) (s.station j).producer h (pushes j es) (pops j es))
                  (fun_ext (λ r.
                    sym (
                      total_others needs j k (role r) s.cook f c miss at
                        (Settled-role k f c r to))))
                  (i.fits j))
        ];
        own = set_cook-holds Holds f c s.cook i.own own;
      }

  produced_at-Inv :
      (k : Kind) (r : Step Station)
      → Good (After n k (counts k s.cook) (pushes k es) (pops k es)) r
      → Good (λ e s'. Ordered n es e × Inv n s' (e ∷ es)) (produced_at k s r)
  unfolding produced_at
  produced_at-Inv k blocked g = tt
  produced_at-Inv k crashed g = g
  produced_at-Inv k (moved e x) (pu, po, a, fit) =
      (Advance-Ordered n k es e pu po a, produced-Inv k e x (pu, po, a, fit))

  consumed_at-Inv :
      (f : Filling) (r : Step (Consumer × Station))
      → Good
          (AfterTake n
            (needs f (s.cook f))
            f
            (other_counts (needs f (s.cook f)) s.cook f)
            (pushes (needs f (s.cook f)) es)
            (pops (needs f (s.cook f)) es))
          r
      → Good (λ e s'. Ordered n es e × Inv n s' (e ∷ es)) (consumed_at f (needs f (s.cook f)) s r)
  unfolding consumed_at
  consumed_at-Inv f blocked g = tt
  consumed_at-Inv f crashed g = g
  consumed_at-Inv f (moved e (c, x)) (own, to, (pu, po, a, fit)) = (
    Advance-Ordered n (needs f (s.cook f)) es e pu po a,
    consumed-Inv f (needs f (s.cook f)) e c x refl (own, to, (pu, po, a, fit)),
  )

  -- Every action waits or happens, and what it leaves fits.
  pub step-Inv : (a : Action) → Good (λ e s'. Ordered n es e × Inv n s' (e ∷ es)) (step a s)
  unfolding step
  step-Inv (run (producer_of k)) = produced_at-Inv k _ (
      producer_step-After n k (s.station k) (counts k s.cook) (pushes k es) (pops k es)
        (s.station k).producer (i.fits k))
  step-Inv (wake (producer_of k)) = produced_at-Inv k _ (
      wake_producer-After n k (s.station k) (counts k s.cook) (pushes k es) (pops k es)
        (s.station k).producer (i.fits k))
  step-Inv (run (consumer_of f)) =
      let k = needs f (s.cook f) in
      consumed_at-Inv f _ (
        consumer_step-AfterTake n f (s.station k) (other_counts k s.cook f) (pushes k es)
          (pops k es) (others-le needs k (role getting) (role holding) s.cook f getting-holding)
          (s.cook f) (i.own f) (needed-Fits f))
  step-Inv (wake (consumer_of f)) =
      let k = needs f (s.cook f) in
      consumed_at-Inv f _ (
        wake_step-AfterTake n f (s.station k) (other_counts k s.cook f) (pushes k es) (pops k es)
          (others-le needs k (role getting) (role holding) s.cook f getting-holding) (s.cook f)
          (i.own f) (needed-Fits f))
  step-Inv (signal f) =
      let k = needs f (s.cook f) in
      consumed_at-Inv f _ (
        signal_step-AfterTake n f (s.station k) (other_counts k s.cook f) (pushes k es) (pops k es)
          (others-le needs k (role getting) (role holding) s.cook f getting-holding)
          (s.station k).producer (s.cook f) (i.own f) (needed-Fits f))

counts_start : (k : Kind) (r : Role) → counts k (λ _. lock_get nothing) r ≡ 0
counts_start k r =
    total-zero needs k (role r) (λ _. lock_get nothing) (λ f. lock_get-idle nothing r)

start-Inv : (n : ℕ) (x : Item) → Inv n (start n x) []
unfolding pushes pops
start-Inv n x = record {
  fits = λ k. first_station-Fits n k x (counts k (λ _. lock_get nothing)) (counts_start k);
  own = λ f. tt;
}

-- `Inv` holds after every run from the state in which `main` starts the threads.
pub Run-Inv : (n : ℕ) (x : Item) (s : Kitchen) (es : List Event) → Run (start n x) s es → Inv n s es
Run-Inv n x _ _ stop = start-Inv n x
Run-Inv n x s _ (then_step {s = s1} {es = es} {e = e} a r h) =
    (rw h at (step-Inv n s1 es (Run-Inv n x s1 es r) a)).1
