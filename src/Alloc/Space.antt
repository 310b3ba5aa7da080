-- ===== src/Alloc/Space.antt =====
-- The memory that a hole list describes, and what `free_mem` of alloc.c does to it.
use soi_laboratoria_2025z.Base.{
  ℕ, suc, ◌+◌, ◌%◌, ◌≤◌, ◌<◌, ◌≡◌, refl, ◌⊎◌, Bool, false, ◌&&◌, ◌||◌, [], ◌∷◌, arith, leb, ltb,
}
use soi_laboratoria_2025z.Alloc.Table.{clicks_mod}
use soi_laboratoria_2025z.Alloc.Chain.{Cell, Cells}
use soi_laboratoria_2025z.Alloc.Merge.{merged_last, merged}
use soi_laboratoria_2025z.Alloc.Release.{behind, released}

-- Holes in increasing order from `lo` on, not empty, none touching the next.
abbrev pub Spaced : ℕ → Cells → Type 0
Spaced lo [] = Unit
Spaced lo ((p, b, l) ∷ xs) = (lo ≤ b) × (0 < l) × (b + l < clicks_mod) × Spaced (suc (b + l)) xs

-- The block from `base` on shares no click with a hole.
abbrev pub Apart : (base clicks : ℕ) → Cells → Type 0
Apart base clicks [] = Unit
Apart base clicks ((p, b, l) ∷ xs) = ((base + clicks ≤ b) ⊎ (b + l ≤ base)) × Apart base clicks xs

abbrev pub in_block : (base clicks a : ℕ) → Bool
in_block base clicks a = leb base a && ltb a (base + clicks)

-- Click `a` is free.
abbrev pub covers : ℕ → Cells → Bool
covers a [] = false
covers a ((p, b, l) ∷ xs) = in_block b l a || covers a xs

-- The first of two holes may touch the second until they are merged.
abbrev Loose : ℕ → Cell → Cells → Type 0
Loose lo (p, b, l) zs = (lo ≤ b) × (0 < l) × (b + l < clicks_mod) × Spaced (b + l) zs

merged_last-Spaced : (lo : ℕ) (y : Cell) (zs : Cells) → Loose lo y zs → Spaced lo (merged_last y zs)
unfolding merged_last
merged_last-Spaced lo (p, b, l) [] h = h
merged_last-Spaced lo (p, b, l) ((q, c, m) ∷ zs) h = ground arith

merged_last-covers :
    (lo a : ℕ) (y : Cell) (zs : Cells)
    → Loose lo y zs
    → covers a (merged_last y zs) ≡ covers a (y ∷ zs)
unfolding merged_last
merged_last-covers lo a (p, b, l) [] h = refl
merged_last-covers lo a (p, b, l) ((q, c, m) ∷ zs) h = ground arith

abbrev Looser : ℕ → Cell → Cells → Type 0
Looser lo (p, b, l) [] = (lo ≤ b) × (0 < l) × (b + l < clicks_mod)
Looser lo (p, b, l) (z ∷ ws) = (lo ≤ b) × (0 < l) × (b + l < clicks_mod) × Loose (b + l) z ws

merged-Spaced : (lo : ℕ) (y : Cell) (zs : Cells) → Looser lo y zs → Spaced lo (merged y zs)
unfolding merged
merged-Spaced lo (p, b, l) [] h = (h.0, h.1, h.2, tt)
merged-Spaced lo (p, b, l) ((q, c, m) ∷ ws) h = ground (
  arith,
  merged_last-Spaced lo (p, b, (l + m) % clicks_mod) ws,
  merged_last-Spaced (suc (b + l)) (q, c, m) ws,
)

merged-covers :
    (lo a : ℕ) (y : Cell) (zs : Cells) → Looser lo y zs → covers a (merged y zs) ≡ covers a (y ∷ zs)
unfolding merged
merged-covers lo a (p, b, l) [] h = refl
merged-covers lo a (p, b, l) ((q, c, m) ∷ ws) h = ground (
  arith,
  merged_last-covers lo a (p, b, (l + m) % clicks_mod) ws,
  merged_last-covers (suc (b + l)) a (q, c, m) ws,
)

behind-Spaced :
    (lo r b n : ℕ) (y : Cell) (ys : Cells)
    → Spaced lo (y ∷ ys)
    → Apart b n (y ∷ ys)
    → y.1 < b
    → 0 < n
    → b + n < clicks_mod
    → Spaced lo (behind (r, b, n) y ys)
unfolding behind
behind-Spaced lo r b n (p, c, m) [] s h lt pos fits =
    merged-Spaced lo (p, c, m) ((r, b, n) ∷ []) (ground arith)
behind-Spaced lo r b n (p, c, m) ((q, d, k) ∷ ws) s h lt pos fits = ground (
  arith,
  merged-Spaced lo (p, c, m) ((r, b, n) ∷ (q, d, k) ∷ ws),
  behind-Spaced (suc (c + m)) r b n (q, d, k) ws s.3 h.1,
)

behind-covers :
    (lo r b n a : ℕ) (y : Cell) (ys : Cells)
    → Spaced lo (y ∷ ys)
    → Apart b n (y ∷ ys)
    → y.1 < b
    → 0 < n
    → b + n < clicks_mod
    → covers a (behind (r, b, n) y ys) ≡ (in_block b n a || covers a (y ∷ ys))
unfolding behind
behind-covers lo r b n a (p, c, m) [] s h lt pos fits =
    ground (arith, merged-covers lo a (p, c, m) ((r, b, n) ∷ []))
behind-covers lo r b n a (p, c, m) ((q, d, k) ∷ ws) s h lt pos fits = ground (
  arith,
  merged-covers lo a (p, c, m) ((r, b, n) ∷ (q, d, k) ∷ ws),
  behind-covers (suc (c + m)) r b n a (q, d, k) ws s.3 h.1,
)

pub released-Spaced :
    (lo r b n : ℕ) (xs : Cells)
    → Spaced lo xs
    → Apart b n xs
    → lo ≤ b
    → 0 < n
    → b + n < clicks_mod
    → Spaced lo (released (r, b, n) xs)
unfolding released
released-Spaced lo r b n [] s h low pos fits = merged-Spaced lo (r, b, n) [] (low, pos, fits)
released-Spaced lo r b n ((q, c, m) ∷ ys) s h low pos fits =
    ground
      (arith, merged-Spaced lo (r, b, n) ((q, c, m) ∷ ys), behind-Spaced lo r b n (q, c, m) ys s h)

pub released-covers :
    (lo r b n a : ℕ) (xs : Cells)
    → Spaced lo xs
    → Apart b n xs
    → lo ≤ b
    → 0 < n
    → b + n < clicks_mod
    → covers a (released (r, b, n) xs) ≡ (in_block b n a || covers a xs)
unfolding released
released-covers lo r b n a [] s h low pos fits = merged-covers lo a (r, b, n) [] (low, pos, fits)
released-covers lo r b n a ((q, c, m) ∷ ys) s h low pos fits = ground (
  arith,
  merged-covers lo a (r, b, n) ((q, c, m) ∷ ys),
  behind-covers lo r b n a (q, c, m) ys s h,
)
