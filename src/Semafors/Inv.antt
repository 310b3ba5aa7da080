-- ===== src/Semafors/Inv.antt =====
-- What holds of every state that the threads of semafors/main.c reach, in whatever order they run.
use soi_laboratoria_2025z.Base.{ℕ, ◌+◌, ◌≡◌, refl, ◌⊎◌, inl, inr, List, [], ◌∷◌, arith, Bool-cases}
use soi_laboratoria_2025z.Semafors.Defs.{
  Kind, Filling, meat, cheese, cabbage, same_kind, Item, Consumer, needs, Station, Event, Step,
  blocked, crashed, moved, Kitchen, Thread, producer_of, consumer_of, step, producer_step,
  consumer_step, produced_at, consumed_at, set_station, set_cook, start, Run, stop, then_step,
  down_full, nothing,
}
use soi_laboratoria_2025z.Semafors.Roles.{
  Fits, Good, After, AfterTake, Holds, holds, took_full, owes_empty, Settled,
}
use soi_laboratoria_2025z.Semafors.Fits.{
  producer_step-After, consumer_step-AfterTake, first_station-Fits,
}
use soi_laboratoria_2025z.Semafors.Totals.{
  same_kind_eq, weight, weight_idle, total, others, set_station_here, set_station_other,
  set_cook-holds, total_here, total_moved, total_others,
}
use soi_laboratoria_2025z.Semafors.Counts.{
  pushes, pops, Advance-counts, Advance-others, Ordered, Advance-Ordered,
}

-- `Fits` of a state after a run, at a kind.
abbrev pub FitsAt : (n : ℕ) → Kitchen → List Event → Kind → Type 0
FitsAt n s es k =
    Fits n k (s.station k) (s.station k).producer (total needs k holds s.cook)
      (total needs k took_full s.cook) (total needs k owes_empty s.cook) (pushes k es) (pops k es)

pub record Inv (n : ℕ) (s : Kitchen) (es : List Event) : Type 0 where
  pub fits : (k : Kind) → FitsAt n s es k
  pub own : (f : Filling) → Holds f (s.cook f)

module _ (n : ℕ) (s : Kitchen) (es : List Event) (i : Inv n s es) where
  produced-Inv :
      (k : Kind) (e : Event) (x : Station)
      → After n k
          (total needs k holds s.cook)
          (total needs k took_full s.cook)
          (total needs k owes_empty s.cook)
          (pushes k es)
          (pops k es)
          e
          x
      → Inv n (record s { station = set_station k x s.station }) (e ∷ es)
  produced-Inv k e x (pu, po, a, f) =
      let here : FitsAt n (record s { station = set_station k x s.station }) (e ∷ es) k =
        rw
          (
            set_station_here k x s.station,
            (Advance-counts n k es e pu po a).0,
            (Advance-counts n k es e pu po a).1,
          )
          f in
      record {
        fits = λ j. elim (Bool-cases (same_kind j k)) [
          | inl hit ↦ rw (same_kind_eq j k hit) here
          | inr miss ↦
              let apart = Advance-others n j k es e (pushes k es) (pops k es) pu po miss a in
              rw (set_station_other j k x s.station miss, apart.0, apart.1) (i.fits j)
        ];
        own = i.own;
      }

  -- The state of the station that the consumer of `f` needs, as `consumer_step-AfterTake` takes it.
  needed-Fits :
      (f : Filling)
      → Fits n
          (needs f (s.cook f))
          (s.station (needs f (s.cook f)))
          (s.station (needs f (s.cook f))).producer
          (others needs (needs f (s.cook f)) holds s.cook f + holds (s.cook f))
          (others needs (needs f (s.cook f)) took_full s.cook f + took_full (s.cook f))
          (others needs (needs f (s.cook f)) owes_empty s.cook f + owes_empty (s.cook f))
          (pushes (needs f (s.cook f)) es)
          (pops (needs f (s.cook f)) es)
  needed-Fits f =
      let k = needs f (s.cook f) in
      rw
        (
          ← total_here needs k holds s.cook f refl,
          ← total_here needs k took_full s.cook f refl,
          ← total_here needs k owes_empty s.cook f refl,
        )
        (i.fits k)

  consumed-Inv :
      (f : Filling) (k : Kind) (e : Event) (c : Consumer) (x : Station)
      → k ≡ needs f (s.cook f)
      → AfterTake n k f
          (others needs k holds s.cook f)
          (others needs k took_full s.cook f)
          (others needs k owes_empty s.cook f)
          (pushes k es)
          (pops k es)
          e
          (c, x)
      → Inv n (record { station = set_station k x s.station; cook = set_cook f c s.cook }) (e ∷ es)
  consumed-Inv f k e c x at (own, to, (pu, po, a, fit)) =
      let s' : Kitchen = record {
        station = set_station k x s.station;
        cook = set_cook f c s.cook;
      } in
      let here : FitsAt n s' (e ∷ es) k =
        rw
          (
            set_station_here k x s.station,
            (Advance-counts n k es e pu po a).0,
            (Advance-counts n k es e pu po a).1,
            total_moved needs k holds s.cook f c (role0 to),
            total_moved needs k took_full s.cook f c (role1 to),
            total_moved needs k owes_empty s.cook f c (role2 to),
          )
          fit in
      record {
        fits = λ j. elim (Bool-cases (same_kind j k)) [
          | inl hit ↦ rw (same_kind_eq j k hit) here
          | inr miss ↦
              let apart = Advance-others n j k es e (pushes k es) (pops k es) pu po miss a in
              rw
                (
                  set_station_other j k x s.station miss,
                  apart.0,
                  apart.1,
                  total_others needs j k holds s.cook f c miss at (role0 to),
                  total_others needs j k took_full s.cook f c miss at (role1 to),
                  total_others needs j k owes_empty s.cook f c miss at (role2 to),
                )
                (i.fits j)
        ];
        own = set_cook-holds Holds f c s.cook i.own own;
      }
    where
      role0 : Settled k f c → (k ≡ needs f c) ⊎ (holds c ≡ 0)
      role0 (inl h) = inl h
      role0 (inr h) = inr h.0

      role1 : Settled k f c → (k ≡ needs f c) ⊎ (took_full c ≡ 0)
      role1 (inl h) = inl h
      role1 (inr h) = inr h.1

      role2 : Settled k f c → (k ≡ needs f c) ⊎ (owes_empty c ≡ 0)
      role2 (inl h) = inl h
      role2 (inr h) = inr h.2

  -- Every thread waits or moves on, and what it leaves fits.
  pub step-Inv : (t : Thread) → Good (λ e s'. Ordered n es e × Inv n s' (e ∷ es)) (step t s)
  unfolding step produced_at consumed_at
  step-Inv (producer_of k) = lift (producer_step k (s.station k) (s.station k).producer) (
      producer_step-After n k (s.station k) (total needs k holds s.cook)
        (total needs k took_full s.cook) (total needs k owes_empty s.cook) (pushes k es) (pops k es)
        (s.station k).producer (i.fits k))
    where
      lift :
          (r : Step Station)
          → Good
              (After n k
                (total needs k holds s.cook)
                (total needs k took_full s.cook)
                (total needs k owes_empty s.cook)
                (pushes k es)
                (pops k es))
              r
          → Good (λ e s'. Ordered n es e × Inv n s' (e ∷ es)) (produced_at k s r)
      lift blocked g = tt
      lift crashed g = g
      lift (moved e x) (pu, po, a, fit) =
          (Advance-Ordered n k es e pu po a, produced-Inv k e x (pu, po, a, fit))
  step-Inv (consumer_of f) = lift (consumer_step f (s.station (needs f (s.cook f))) (s.cook f)) (
      consumer_step-AfterTake n f (s.station (needs f (s.cook f)))
        (others needs (needs f (s.cook f)) holds s.cook f)
        (others needs (needs f (s.cook f)) took_full s.cook f)
        (others needs (needs f (s.cook f)) owes_empty s.cook f) (pushes (needs f (s.cook f)) es)
        (pops (needs f (s.cook f)) es) (s.cook f) (i.own f) (needed-Fits f))
    where
      lift :
          (r : Step (Consumer × Station))
          → Good
              (AfterTake n
                (needs f (s.cook f))
                f
                (others needs (needs f (s.cook f)) holds s.cook f)
                (others needs (needs f (s.cook f)) took_full s.cook f)
                (others needs (needs f (s.cook f)) owes_empty s.cook f)
                (pushes (needs f (s.cook f)) es)
                (pops (needs f (s.cook f)) es))
              r
          → Good
              (λ e s'. Ordered n es e × Inv n s' (e ∷ es))
              (consumed_at f (needs f (s.cook f)) s r)
      lift blocked g = tt
      lift crashed g = g
      lift (moved e (c, x)) (own, to, (pu, po, a, fit)) = (
        Advance-Ordered n (needs f (s.cook f)) es e pu po a,
        consumed-Inv f (needs f (s.cook f)) e c x refl (own, to, (pu, po, a, fit)),
      )

total_start :
    (k : Kind) (r : Consumer → ℕ)
    → r (down_full nothing) ≡ 0
    → total needs k r (λ _. down_full nothing) ≡ 0
unfolding total
total_start k r h = omega (
  arith,
  weight_idle needs k r meat (down_full nothing) h,
  weight_idle needs k r cheese (down_full nothing) h,
  weight_idle needs k r cabbage (down_full nothing) h,
)

start-Inv : (n : ℕ) (x : Item) → Inv n (start n x) []
unfolding total weight pushes pops
start-Inv n x = record {
  fits = λ k. rw (total_start k holds refl) (first_station-Fits n k x);
  own = λ f. tt;
}

-- `Inv` holds after every run from the state in which `main` starts the threads.
pub Run-Inv : (n : ℕ) (x : Item) (s : Kitchen) (es : List Event) → Run (start n x) s es → Inv n s es
Run-Inv n x _ _ stop = start-Inv n x
Run-Inv n x s _ (then_step {s = s1} {es = es} {e = e} t r h) =
    (rw h at (step-Inv n s1 es (Run-Inv n x s1 es r) t)).1
