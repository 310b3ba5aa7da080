-- ===== src/Alloc/Carve.antt =====
-- What taking clicks from the front of one hole does to the free memory, and which hole first fit
-- takes.
use soi_laboratoria_2025z.Base.{
  length, ℕ, suc, ◌+◌, ◌≤◌, ◌<◌, ◌≡◌, refl, ap, ◌⊎◌, inl, inr, not, true, ◌&&◌, none, some, [], ◌∷◌,
  ◌++◌, arith, leb, Bool-cases,
}
use soi_laboratoria_2025z.Alloc.Chain.{Cells}
use soi_laboratoria_2025z.Alloc.Space.{Spaced, in_block, covers}
use soi_laboratoria_2025z.Alloc.Take.{bitten, fit, fitted}

Spaced-weaken : (lo k : ℕ) (xs : Cells) → lo ≤ k → Spaced k xs → Spaced lo xs
Spaced-weaken lo k [] h s = tt
Spaced-weaken lo k ((p, b, l) ∷ xs) h s = (omega arith, s.1, s.2, s.3)

covers-le : (lo a : ℕ) (xs : Cells) → Spaced lo xs → covers a xs ≡ true → lo ≤ a
covers-le lo a [] s h = cc
covers-le lo a ((p, b, l) ∷ xs) s h = ground (arith, covers-le (suc (b + l)) a xs s.3)

bitten-Spaced :
    (lo p b l clicks : ℕ) (zs : Cells)
    → Spaced lo ((p, b, l) ∷ zs)
    → clicks ≤ l
    → Spaced lo (bitten (p, b, l) clicks zs)
unfolding bitten
bitten-Spaced lo p b l clicks zs s h =
    ground (arith, Spaced-weaken lo (suc (b + l)) zs, Spaced-weaken (suc (b + l)) (suc (b + l)) zs)

bitten-covers :
    (lo p b l clicks a : ℕ) (zs : Cells)
    → Spaced lo ((p, b, l) ∷ zs)
    → clicks ≤ l
    → covers a (bitten (p, b, l) clicks zs)
      ≡ (not (in_block b clicks a) && covers a ((p, b, l) ∷ zs))
unfolding bitten
bitten-covers lo p b l clicks a zs s h = ground (arith, covers-le (suc (b + l)) a zs s.3)

bitten-length :
    (p b l clicks : ℕ) (ws : Cells) → length (bitten (p, b, l) clicks ws) ≤ suc (length ws)
unfolding bitten
bitten-length p b l clicks ws = ground arith

-- The block of `clicks` at `base` is cut out of `xs`: it was free, and the rest stays as it was.
pub record Carved (lo clicks base : ℕ) (xs out : Cells) : Type 0 where
  pub spaced : Spaced lo out
  pub was_free : (a : ℕ) → in_block base clicks a ≡ true → covers a xs ≡ true
  pub rest : (a : ℕ) → covers a out ≡ (not (in_block base clicks a) && covers a xs)
  pub fewer : length out ≤ length xs

pub bitten-Carved :
    (lo : ℕ) (us : Cells) (p b l clicks : ℕ) (ws : Cells)
    → Spaced lo (us ++ (p, b, l) ∷ ws)
    → clicks ≤ l
    → Carved lo clicks b (us ++ (p, b, l) ∷ ws) (us ++ bitten (p, b, l) clicks ws)
bitten-Carved lo [] p b l clicks ws s h = record {
  spaced = bitten-Spaced lo p b l clicks ws s h;
  was_free = λ a k. ground arith;
  rest = λ a. bitten-covers lo p b l clicks a ws s h;
  fewer = bitten-length p b l clicks ws;
}
bitten-Carved lo ((q, c, m) ∷ us) p b l clicks ws s h =
    let ih = bitten-Carved (suc (c + m)) us p b l clicks ws s.3 h in
    let above = covers-le (suc (c + m)) b (us ++ (p, b, l) ∷ ws) s.3 in
    record {
      spaced = (s.0, s.1, s.2, ih.spaced);
      was_free = λ a k. ground (arith, ih.was_free a);
      rest = λ a.
          ground
            (arith, ih.rest a, ih.was_free a, covers-le (suc (c + m)) a (us ++ (p, b, l) ∷ ws) s.3);
      fewer = omega (arith, ih.fewer);
    }

-- No hole below `swap_base` is long enough.
abbrev pub TooSmall : (swap_base clicks : ℕ) → Cells → Type 0
TooSmall swap_base clicks [] = Unit
TooSmall swap_base clicks ((p, b, l) ∷ xs) =
    (b < swap_base → l < clicks) × TooSmall swap_base clicks xs

TooSmall-above :
    (lo swap_base clicks : ℕ) (xs : Cells)
    → Spaced lo xs
    → swap_base ≤ lo
    → TooSmall swap_base clicks xs
TooSmall-above lo swap_base clicks [] s h = tt
TooSmall-above lo swap_base clicks ((p, b, l) ∷ xs) s h =
    (λ q. absurd (omega arith), TooSmall-above (suc (b + l)) swap_base clicks xs s.3 (omega arith))

-- First fit finds nothing: `TooSmall`, and the list stays. Or it carves the first hole that fits.
pub record FirstFit (swap_base clicks : ℕ) (xs : Cells) (base : ℕ) (out : Cells) : Type 0 where
  pub us : Cells
  pub p : ℕ
  pub l : ℕ
  pub ws : Cells
  pub split : xs ≡ us ++ (p, base, l) ∷ ws
  pub result : out ≡ us ++ bitten (p, base, l) clicks ws
  pub big : clicks ≤ l
  pub low : base < swap_base
  pub earlier : TooSmall swap_base clicks us

pub fit-FirstFit :
    (lo swap_base clicks : ℕ) (xs : Cells)
    → Spaced lo xs
    → ((fit swap_base clicks xs ≡ none)
        × (fitted swap_base clicks xs ≡ xs)
        × TooSmall swap_base clicks xs)
      ⊎ ((base : ℕ) × (fit swap_base clicks xs ≡ some base)
          × FirstFit swap_base clicks xs base (fitted swap_base clicks xs))
unfolding fit fitted
fit-FirstFit lo sb clicks [] s = inl (refl, refl, tt)
fit-FirstFit lo sb clicks ((p, b, l) ∷ xs) s = elim (Bool-cases (leb sb b)) [
  | inl high ↦ inl (
    rw high,
    rw high,
    (λ q. absurd (ground arith), TooSmall-above (suc (b + l)) sb clicks xs s.3 (ground arith)),
  )
  | inr low ↦ elim (Bool-cases (leb clicks l)) [
    | inl big ↦ inr (
      b,
      rw (low, big),
      record {
        us = [];
        p = p;
        l = l;
        ws = xs;
        split = refl;
        result = rw (low, big);
        big = ground arith;
        low = ground arith;
        earlier = tt;
      },
    )
    | inr small ↦ elim (fit-FirstFit (suc (b + l)) sb clicks xs s.3) [
      | inl (e, f, small') ↦
          inl
            (rw (low, small) e, rw (low, small) (ap (◌∷◌ (p, b, l)) f), (λ q. ground arith, small'))
      | inr (base, e, v) ↦ inr (
        base,
        rw (low, small) e,
        record {
          us = (p, b, l) ∷ v.us;
          p = v.p;
          l = v.l;
          ws = v.ws;
          split = ap (◌∷◌ (p, b, l)) v.split;
          result = rw (low, small) (ap (◌∷◌ (p, b, l)) v.result);
          big = v.big;
          low = v.low;
          earlier = (λ q. ground arith, v.earlier);
        },
      )
    ]
  ]
]

pub TooSmall-FirstFit :
    (swap_base clicks base : ℕ) (xs out : Cells)
    → TooSmall swap_base clicks xs
    → FirstFit swap_base clicks xs base out
    → ⊥
TooSmall-FirstFit sb clicks base xs out small f = go f.us (rw f.split at small)
  where
    go : (us : Cells) → TooSmall sb clicks (us ++ (f.p, base, f.l) ∷ f.ws) → ⊥
    go [] h = omega (arith, h.0 f.low, f.big)
    go (u ∷ us) h = go us h.1
