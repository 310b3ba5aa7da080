-- ===== src/Semafors/Totals.antt =====
-- Sums over the three consumers of pierogi, each counted at the buffer that it needs, for the consumers of
-- semafors/main.c and of monitors/main.c.
use soi_laboratoria_2025z.Base.{
  ℕ, ◌+◌, ◌≤◌, ◌≡◌, refl, sym, ap, ◌∙◌, true, false, ◌⊎◌, inl, inr, arith, if◌then◌else◌,
  Bool-cases,
}
use soi_laboratoria_2025z.Semafors.Defs.{
  Kind, dough, filling, Filling, meat, cheese, cabbage, same_filling, same_kind, set_station,
  set_cook,
}

same_filling_refl : (f : Filling) → same_filling f f ≡ true
unfolding same_filling
same_filling_refl meat = refl
same_filling_refl cheese = refl
same_filling_refl cabbage = refl

same_filling_eq : (f g : Filling) → same_filling f g ≡ true → f ≡ g
unfolding same_filling
same_filling_eq meat meat h = refl
same_filling_eq meat cheese h = cc
same_filling_eq meat cabbage h = cc
same_filling_eq cheese meat h = cc
same_filling_eq cheese cheese h = refl
same_filling_eq cheese cabbage h = cc
same_filling_eq cabbage meat h = cc
same_filling_eq cabbage cheese h = cc
same_filling_eq cabbage cabbage h = refl

pub same_kind_refl : (k : Kind) → same_kind k k ≡ true
unfolding same_kind
same_kind_refl dough = refl
same_kind_refl (filling f) = same_filling_refl f

pub same_kind_eq : (j k : Kind) → same_kind j k ≡ true → j ≡ k
unfolding same_kind
same_kind_eq dough dough h = refl
same_kind_eq dough (filling f) h = cc
same_kind_eq (filling f) dough h = cc
same_kind_eq (filling f) (filling g) h = ap filling (same_filling_eq f g h)

-- What the consumer of `f` counts at station `k`.
unfoldable pub weight : {C : Type 0} → (Filling → C → Kind) → Kind → (C → ℕ) → Filling → C → ℕ
weight needs k r f c = if same_kind k (needs f c) then r c else 0

-- What the three consumers count at station `k`.
unfoldable pub total : {C : Type 0} → (Filling → C → Kind) → Kind → (C → ℕ) → (Filling → C) → ℕ
total needs k r cook =
    weight needs k r meat (cook meat)
    + weight needs k r cheese (cook cheese)
    + weight needs k r cabbage (cook cabbage)

-- What the others count.
unfoldable pub others :
    {C : Type 0} → (Filling → C → Kind) → Kind → (C → ℕ) → (Filling → C) → Filling → ℕ
others needs k r cook meat =
    weight needs k r cheese (cook cheese) + weight needs k r cabbage (cook cabbage)
others needs k r cook cheese =
    weight needs k r meat (cook meat) + weight needs k r cabbage (cook cabbage)
others needs k r cook cabbage =
    weight needs k r meat (cook meat) + weight needs k r cheese (cook cheese)

pub total-others :
    {C : Type 0} (needs : Filling → C → Kind) (k : Kind) (r : C → ℕ) (cook : Filling → C)
    (f : Filling)
    → total needs k r cook ≡ others needs k r cook f + weight needs k r f (cook f)
unfolding total others
total-others needs k r cook meat = omega arith
total-others needs k r cook cheese = omega arith
total-others needs k r cook cabbage = omega arith

pub total-set_cook :
    {C : Type 0} (needs : Filling → C → Kind) (k : Kind) (r : C → ℕ) (cook : Filling → C)
    (f : Filling) (c : C)
    → total needs k r (set_cook f c cook) ≡ others needs k r cook f + weight needs k r f c
unfolding set_cook same_filling total others
total-set_cook needs k r cook meat c = omega arith
total-set_cook needs k r cook cheese c = omega arith
total-set_cook needs k r cook cabbage c = omega arith

pub set_station_here : {A : Type 0} (k : Kind) (x : A) (at : Kind → A) → set_station k x at k ≡ x
unfolding set_station
set_station_here k x at = rw (same_kind_refl k) refl

pub set_station_other :
    {A : Type 0} (j k : Kind) (x : A) (at : Kind → A)
    → same_kind j k ≡ false
    → set_station k x at j ≡ at j
unfolding set_station
set_station_other j k x at h = rw h refl

pub set_cook-holds :
    {C : Type 0} (P : Filling → C → Type 0) (f : Filling) (c : C) (cook : Filling → C)
    → ((g : Filling) → P g (cook g))
    → P f c
    → (g : Filling) → P g (set_cook f c cook g)
unfolding set_cook
set_cook-holds P f c cook all one g = elim (Bool-cases (same_filling g f)) [
  | inl hit ↦ rw (hit, same_filling_eq g f hit) one
  | inr miss ↦ rw miss (all g)
]

weight-le :
    {C : Type 0} (needs : Filling → C → Kind) (k : Kind) (q r : C → ℕ) (f : Filling) (c : C)
    → q c ≤ r c
    → weight needs k q f c ≤ weight needs k r f c
unfolding weight
weight-le needs k q r f c h = ground arith

pub others-le :
    {C : Type 0} (needs : Filling → C → Kind) (k : Kind) (q r : C → ℕ) (cook : Filling → C)
    (f : Filling)
    → ((c : C) → q c ≤ r c)
    → others needs k q cook f ≤ others needs k r cook f
unfolding others
others-le needs k q r cook meat h = omega (
  arith,
  weight-le needs k q r cheese (cook cheese) (h (cook cheese)),
  weight-le needs k q r cabbage (cook cabbage) (h (cook cabbage)),
)
others-le needs k q r cook cheese h = omega (
  arith,
  weight-le needs k q r meat (cook meat) (h (cook meat)),
  weight-le needs k q r cabbage (cook cabbage) (h (cook cabbage)),
)
others-le needs k q r cook cabbage h = omega (
  arith,
  weight-le needs k q r meat (cook meat) (h (cook meat)),
  weight-le needs k q r cheese (cook cheese) (h (cook cheese)),
)

pub weight_here :
    {C : Type 0} (needs : Filling → C → Kind) (k : Kind) (r : C → ℕ) (f : Filling) (c : C)
    → k ≡ needs f c
    → weight needs k r f c ≡ r c
unfolding weight
weight_here needs k r f c h = rw (h, same_kind_refl (needs f c)) refl

pub weight_elsewhere :
    {C : Type 0} (needs : Filling → C → Kind) (k : Kind) (r : C → ℕ) (f : Filling) (c : C)
    → same_kind k (needs f c) ≡ false
    → weight needs k r f c ≡ 0
unfolding weight
weight_elsewhere needs k r f c h = rw h refl

pub weight_idle :
    {C : Type 0} (needs : Filling → C → Kind) (k : Kind) (r : C → ℕ) (f : Filling) (c : C)
    → r c ≡ 0
    → weight needs k r f c ≡ 0
unfolding weight
weight_idle needs k r f c h = rw h (ground arith)

pub total_here :
    {C : Type 0} (needs : Filling → C → Kind) (k : Kind) (r : C → ℕ) (cook : Filling → C)
    (f : Filling)
    → k ≡ needs f (cook f)
    → total needs k r cook ≡ others needs k r cook f + r (cook f)
total_here needs k r cook f h =
    total-others needs k r cook f
    ∙ ap (◌+◌ (others needs k r cook f)) (weight_here needs k r f (cook f) h)

-- A consumer that moves changes the count of the station it was at, and of no other.
pub total_moved :
    {C : Type 0} (needs : Filling → C → Kind) (k : Kind) (r : C → ℕ) (cook : Filling → C)
    (f : Filling) (c : C)
    → (k ≡ needs f c) ⊎ (r c ≡ 0)
    → total needs k r (set_cook f c cook) ≡ others needs k r cook f + r c
total_moved needs k r cook f c (inl h) =
    total-set_cook needs k r cook f c
    ∙ ap (◌+◌ (others needs k r cook f)) (weight_here needs k r f c h)
total_moved needs k r cook f c (inr h) =
    total-set_cook needs k r cook f c
    ∙ ap (◌+◌ (others needs k r cook f)) (weight_idle needs k r f c h ∙ sym h)

pub total_others :
    {C : Type 0} (needs : Filling → C → Kind) (j k : Kind) (r : C → ℕ) (cook : Filling → C)
    (f : Filling) (c : C)
    → same_kind j k ≡ false
    → k ≡ needs f (cook f)
    → (k ≡ needs f c) ⊎ (r c ≡ 0)
    → total needs j r (set_cook f c cook) ≡ total needs j r cook
total_others needs j k r cook f c miss at to =
    total-set_cook needs j r cook f c
    ∙ ap (◌+◌ (others needs j r cook f))
        (gone to ∙ sym (weight_elsewhere needs j r f (cook f) (rw at at miss)))
    ∙ sym (total-others needs j r cook f)
  where
    gone : (k ≡ needs f c) ⊎ (r c ≡ 0) → weight needs j r f c ≡ 0
    gone (inl h) = weight_elsewhere needs j r f c (rw h at miss)
    gone (inr h) = weight_idle needs j r f c h

pub weight-total :
    {C : Type 0} (needs : Filling → C → Kind) (k : Kind) (r : C → ℕ) (cook : Filling → C)
    (f : Filling)
    → weight needs k r f (cook f) ≤ total needs k r cook
unfolding total
weight-total needs k r cook meat = omega arith
weight-total needs k r cook cheese = omega arith
weight-total needs k r cook cabbage = omega arith

pub total-zero :
    {C : Type 0} (needs : Filling → C → Kind) (k : Kind) (r : C → ℕ) (cook : Filling → C)
    → ((f : Filling) → r (cook f) ≡ 0)
    → total needs k r cook ≡ 0
unfolding total
total-zero needs k r cook h = omega (
  arith,
  weight_idle needs k r meat (cook meat) (h meat),
  weight_idle needs k r cheese (cook cheese) (h cheese),
  weight_idle needs k r cabbage (cook cabbage) (h cabbage),
)

-- Two consumers that both count, where the count is one at most, are the same.
pub total-one :
    {C : Type 0} (needs : Filling → C → Kind) (k : Kind) (r : C → ℕ) (cook : Filling → C)
    (f g : Filling)
    → total needs k r cook ≤ 1
    → weight needs k r f (cook f) ≡ 1
    → weight needs k r g (cook g) ≡ 1
    → f ≡ g
unfolding total
total-one needs k r cook meat meat le a b = refl
total-one needs k r cook meat cheese le a b = absurd (omega arith)
total-one needs k r cook meat cabbage le a b = absurd (omega arith)
total-one needs k r cook cheese meat le a b = absurd (omega arith)
total-one needs k r cook cheese cheese le a b = refl
total-one needs k r cook cheese cabbage le a b = absurd (omega arith)
total-one needs k r cook cabbage meat le a b = absurd (omega arith)
total-one needs k r cook cabbage cheese le a b = absurd (omega arith)
total-one needs k r cook cabbage cabbage le a b = refl
