-- ===== src/Semafors/Counts.antt =====
-- Counting the events of a run of semafors/main.c, and what the counts say.
use soi_laboratoria_2025z.Base.{ℕ, suc, ◌+◌, ◌<◌, ◌≡◌, refl, false, List, [], ◌∷◌, if◌then◌else◌}
use soi_laboratoria_2025z.Semafors.Defs.{
  Kind, dough, filling, Filling, same_kind, letter, produced, Event, silent, pushed, popped, made,
}
use soi_laboratoria_2025z.Semafors.Roles.{Advance, quiet, put, serve, take}
use soi_laboratoria_2025z.Semafors.Totals.{same_kind_refl}

-- The number of items of kind `k` put into its buffer by the events of a run.
unfoldable pub pushes : Kind → List Event → ℕ
pushes k [] = 0
pushes k (pushed j item ∷ es) = if same_kind k j then suc (pushes k es) else pushes k es
pushes k (silent ∷ es) = pushes k es
pushes k (popped j item ∷ es) = pushes k es
pushes k (made d x ∷ es) = pushes k es

-- The number taken out.
unfoldable pub pops : Kind → List Event → ℕ
pops k [] = 0
pops k (popped j item ∷ es) = if same_kind k j then suc (pops k es) else pops k es
pops k (silent ∷ es) = pops k es
pops k (pushed j item ∷ es) = pops k es
pops k (made d x ∷ es) = pops k es

pub Advance-counts :
    (n : ℕ) (k : Kind) (es : List Event) (e : Event) (pu po : ℕ)
    → Advance n k (pushes k es) (pops k es) e pu po
    → (pushes k (e ∷ es) ≡ pu) × (pops k (e ∷ es) ≡ po)
unfolding pushes pops
Advance-counts n k es _ _ _ quiet = (refl, refl)
Advance-counts n k es _ _ _ (put _) = (rw (same_kind_refl k) refl, refl)
Advance-counts n k es _ _ _ (serve _ _ _) = (refl, refl)
Advance-counts n k es _ _ _ (take _) = (refl, rw (same_kind_refl k) refl)

pub Advance-others :
    (n : ℕ) (j k : Kind) (es : List Event) (e : Event) (u v pu po : ℕ)
    → same_kind j k ≡ false
    → Advance n k u v e pu po
    → (pushes j (e ∷ es) ≡ pushes j es) × (pops j (e ∷ es) ≡ pops j es)
unfolding pushes pops
Advance-others n j k es _ u v _ _ h quiet = (refl, refl)
Advance-others n j k es _ u v _ _ h (put _) = (rw h refl, refl)
Advance-others n j k es _ u v _ _ h (serve _ _ _) = (refl, refl)
Advance-others n j k es _ u v _ _ h (take _) = (refl, rw h refl)

-- What an event says, after the events `es`: items go into a buffer of `n` places when there is room and
-- come out of it when there is one, in the order in which they were produced; a pierog is made of dough
-- and a filling.
abbrev pub Ordered : ℕ → List Event → Event → Type 0
Ordered n es silent = Unit
Ordered n es (pushed k item) = (item ≡ produced k (pushes k es)) × (pushes k es < n + pops k es)
Ordered n es (popped k item) = (item ≡ produced k (pops k es)) × (pops k es < pushes k es)
Ordered n es (made d x) = (d.type ≡ letter dough) × ((f : Filling) × (x.type ≡ letter (filling f)))

pub Advance-Ordered :
    (n : ℕ) (k : Kind) (es : List Event) (e : Event) (pu po : ℕ)
    → Advance n k (pushes k es) (pops k es) e pu po
    → Ordered n es e
Advance-Ordered n k es _ _ _ quiet = tt
Advance-Ordered n k es _ _ _ (put h) = (refl, h)
Advance-Ordered n k es _ _ _ (serve f d x) = (d, (f, x))
Advance-Ordered n k es _ _ _ (take h) = (refl, h)
