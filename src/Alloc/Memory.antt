-- ===== src/Alloc/Memory.antt =====
-- What `free_mem` and the two ways to allocate promise about the free memory, over the table itself.
use soi_laboratoria_2025z.Base.{
  ℕ, suc, ◌+◌, ◌≤◌, ◌<◌, ◌≡◌, ◌≢◌, refl, ◌⊎◌, inl, inr, ◌||◌, Option, none, some, [], ◌∷◌, ◌++◌,
  arith, length, Returns, mono,
}
use soi_laboratoria_2025z.Alloc.Table.{nil_hole, clicks_mod, Table, free_mem, first_fit, worst_fit}
use soi_laboratoria_2025z.Alloc.Chain.{Cells, Holds}
use soi_laboratoria_2025z.Alloc.Merge.{Left, recount}
use soi_laboratoria_2025z.Alloc.Release.{released, free_mem-Left}
use soi_laboratoria_2025z.Alloc.Space.{
  Spaced, Apart, in_block, covers, released-Spaced, released-covers,
}
use soi_laboratoria_2025z.Alloc.Take.{bitten, fit, fitted, first_fit-Left}
use soi_laboratoria_2025z.Alloc.Worst.{Longest, Worst, no_fit, widest, worst_fit-Worst}
use soi_laboratoria_2025z.Alloc.Carve.{Carved, bitten-Carved, TooSmall, FirstFit, fit-FirstFit}

-- A table of `nr` slots whose hole list `xs` is in order: the invariant of alloc.c.
pub record View (nr : ℕ) (t : Table) : Type 0 where
  pub xs : Cells
  pub fs : Cells
  pub holds : Holds t xs fs
  pub spaced : Spaced 0 xs
  pub count : length xs + length fs ≡ nr

-- The holes of a table after a call that left `xs`.
view : (nr : ℕ) (xs : Cells) (t : Table) → Left nr xs t → Spaced 0 xs → View nr t
view nr xs t w s = record { xs = xs; fs = w.fs; holds = w.holds; spaced = s; count = w.count }

abbrev pub Freed : (nr base clicks : ℕ) → Cells → Unit {0} → Table → Type 0
Freed nr base clicks xs _ t' =
    (w : View nr t') × ((a : ℕ) → covers a w.xs ≡ (in_block base clicks a || covers a xs))

-- A block that is disjoint from the holes is given back while a slot is free: `free_mem` returns, the
-- hole list stays in order with no two holes touching, every slot is still on one of the two lists,
-- and a click is free afterwards exactly when it was free before or lies in the block.
pub free_mem-frees :
    (nr base clicks : ℕ) (t : Table) (v : View nr t)
    → 0 < clicks
    → base + clicks < clicks_mod
    → Apart base clicks v.xs
    → t.free_slots ≢ nil_hole
    → Returns (Freed nr base clicks v.xs) (free_mem (suc nr) base clicks t)
unfolding view
free_mem-frees nr base clicks t v pos fits apart slot = go v.fs v.holds v.count
  where
    go :
        (fs : Cells)
        → Holds t v.xs fs
        → length v.xs + length fs ≡ nr
        → Returns (Freed nr base clicks v.xs) (free_mem (suc nr) base clicks t)
    go [] h n = absurd (slot h.slots)
    go ((r, b, l) ∷ fs) h n =
        mono (free_mem-Left t (suc nr) base clicks r b l fs (omega arith) v.xs h (omega arith))
          (λ _ t' w. (
            view nr (released (r, base, clicks) v.xs) t' (rw n at w)
                (released-Spaced 0 r base clicks v.xs v.spaced apart (omega arith) pos fits),
            λ a. released-covers 0 r base clicks a v.xs v.spaced apart (omega arith) pos fits,
          ))

-- The block at `base` is carved out of the holes `xs`, and the rest of the table is in order.
abbrev pub Taken : (nr clicks base : ℕ) → Cells → Table → Type 0
Taken nr clicks base xs t' = (w : View nr t') × Carved 0 clicks base xs w.xs

carve_view :
    (nr clicks base : ℕ) (xs us : Cells) (p l : ℕ) (ws : Cells) (t' : Table)
    → xs ≡ us ++ (p, base, l) ∷ ws
    → Spaced 0 xs
    → clicks ≤ l
    → Left nr (us ++ bitten (p, base, l) clicks ws) t'
    → Taken nr clicks base xs t'
unfolding view
carve_view nr clicks base xs us p l ws t' split s big w =
    let c = bitten-Carved 0 us p base l clicks ws (rw split at s) big in
    (view nr (us ++ bitten (p, base, l) clicks ws) t' w c.spaced, rw split c)

-- What worst fit promises: the table is as it was and no hole is long enough, or the block comes from
-- a hole that is at least as long as every other.
abbrev pub WorstTaken : (nr clicks : ℕ) → Table → Cells → Option ℕ → Table → Type 0
WorstTaken nr clicks t xs none t' = (t' ≡ t) × Longest clicks 0 xs
WorstTaken nr clicks t xs (some base) t' =
    (p : ℕ) × (l : ℕ) × (us : Cells) × (ws : Cells) × (xs ≡ us ++ (p, base, l) ∷ ws)
    × (clicks ≤ l)
    × Longest clicks l xs
    × Taken nr clicks base xs t'

pub worst_fit-takes :
    (nr clicks : ℕ) (t : Table) (v : View nr t)
    → Returns (WorstTaken nr clicks t v.xs) (worst_fit (suc nr) clicks t)
worst_fit-takes nr clicks t v =
    mono (worst_fit-Worst t (suc nr) clicks v.xs v.fs v.holds (omega (arith, v.count)))
      (λ o t' w. go w)
  where
    go :
        {o : Option ℕ} {t' : Table}
        → Worst clicks (length v.xs + length v.fs) t v.xs o t'
        → WorstTaken nr clicks t v.xs o t'
    go (no_fit h) = (refl, h)
    go (widest us p b l ws {t'} split big longest w) = (
      p,
      l,
      us,
      ws,
      split,
      big,
      longest,
      carve_view nr clicks b v.xs us p l ws t' split v.spaced big (rw v.count at w),
    )

-- What first fit below `swap_base` promises.
abbrev pub FirstTaken : (nr swap_base clicks : ℕ) → Cells → Option ℕ → Table → Type 0
FirstTaken nr swap_base clicks xs none t' =
    (w : View nr t') × (w.xs ≡ xs) × TooSmall swap_base clicks xs
FirstTaken nr swap_base clicks xs (some base) t' =
    ((out : Cells) × FirstFit swap_base clicks xs base out) × Taken nr clicks base xs t'

pub first_fit-takes :
    (nr swap_base clicks : ℕ) (t : Table) (v : View nr t)
    → Returns
        (FirstTaken nr swap_base clicks v.xs)
        (first_fit (suc nr) swap_base clicks nil_hole t.hole_head t)
unfolding view
first_fit-takes nr sb clicks t v =
    mono
      (first_fit-Left sb clicks (suc nr) t [] v.xs v.fs nil_hole t.hole_head v.holds v.holds.chain
        refl (omega (arith, v.count)))
      (λ o t' w. go o t' (fit-FirstFit 0 sb clicks v.xs v.spaced) w.0 w.1)
  where
    go :
        (o : Option ℕ) (t' : Table)
        → ((fit sb clicks v.xs ≡ none) × (fitted sb clicks v.xs ≡ v.xs) × TooSmall sb clicks v.xs)
          ⊎ ((base : ℕ) × (fit sb clicks v.xs ≡ some base)
              × FirstFit sb clicks v.xs base (fitted sb clicks v.xs))
        → o ≡ fit sb clicks v.xs
        → Left (0 + length v.xs + length v.fs) (fitted sb clicks v.xs) t'
        → FirstTaken nr sb clicks v.xs o t'
    go o t' (inl (e, same, small)) q w =
        rw (q, e)
          (
            view nr v.xs t' (rw same at (recount nr (omega (arith, v.count)) w)) v.spaced,
            refl,
            small,
          )
    go o t' (inr (base, e, f)) q w =
        rw (q, e)
          (
            (fitted sb clicks v.xs, f),
            carve_view nr clicks base v.xs f.us f.p f.l f.ws t' f.split v.spaced f.big
                (rw f.result at (recount nr (omega (arith, v.count)) w)),
          )
