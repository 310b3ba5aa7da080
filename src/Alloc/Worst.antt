-- ===== src/Alloc/Worst.antt =====
-- The worst-fit branch of `alloc_mem` of alloc.c.
use mathlib.Core.List.{append_assoc, append-nil}
use soi_laboratoria_2025z.Base.{
  ℕ, zero, suc, ◌+◌, ◌≤◌, ◌<◌, ◌≡◌, ◌≢◌, refl, ◌∙◌, ap, ◌⊎◌, inl, inr, ◌&&◌, Option, none, some, ok,
  and_then, pure, [], ◌∷◌, ◌++◌, arith, leb, ltb, Bool-cases, length, length-append, Returns,
  returns, bind,
}
use soi_laboratoria_2025z.Alloc.Table.{
  Ptr, nil_hole, Table, Best, no_best, better, worst_loop, worst_fit, bite,
}
use soi_laboratoria_2025z.Alloc.Chain.{Cells, Seg, Holds}
use soi_laboratoria_2025z.Alloc.Merge.{Left, recount, Holds-At}
use soi_laboratoria_2025z.Alloc.Bite.{last_ptr, last_ptr-append}
use soi_laboratoria_2025z.Alloc.Take.{bitten, bite-Left}

-- The fold that the loop computes.
best : ℕ → Ptr → Cells → Best → Best
best clicks prev [] acc = acc
best clicks prev ((p, b, l) ∷ zs) acc = best clicks p zs (better clicks prev p l acc)

worst_loop-best :
    (u : Table) (fuel clicks prev h : ℕ) (zs : Cells) (acc : Best)
    → Seg u.hole h zs nil_hole
    → length zs < fuel
    → worst_loop fuel clicks prev h acc u ≡ ok (best clicks prev zs acc) u
unfolding worst_loop best
worst_loop-best u zero clicks prev h zs acc s k = absurd (omega arith)
worst_loop-best u (suc fuel) clicks prev h [] acc s k = ground arith
worst_loop-best u (suc fuel) clicks prev h ((p, b, l) ∷ zs) acc s k =
    ground
      (arith, worst_loop-best u fuel clicks p (u.hole p).h_next zs (better clicks prev p l acc) s.4)

-- Every hole that is big enough is at most `m` long.
abbrev pub Longest : (clicks m : ℕ) → Cells → Type 0
Longest clicks m [] = Unit
Longest clicks m ((p, b, l) ∷ xs) = (clicks ≤ l → l ≤ m) × Longest clicks m xs

Longest-mono : (clicks m k : ℕ) (xs : Cells) → m ≤ k → Longest clicks m xs → Longest clicks k xs
Longest-mono clicks m k [] h s = tt
Longest-mono clicks m k ((p, b, l) ∷ xs) h s =
    (λ q. omega (arith, s.0 q), Longest-mono clicks m k xs h s.1)

Longest-append :
    (clicks m : ℕ) (xs ys : Cells)
    → Longest clicks m xs
    → Longest clicks m ys
    → Longest clicks m (xs ++ ys)
Longest-append clicks m [] ys s t = t
Longest-append clicks m ((p, b, l) ∷ xs) ys s t = (s.0, Longest-append clicks m xs ys s.1 t)

-- Where the best hole of `ys` stands.
record Place (clicks : ℕ) (ys : Cells) (acc : Best) : Type 0 where
  us : Cells
  p : ℕ
  b : ℕ
  l : ℕ
  ws : Cells
  split : ys ≡ us ++ (p, b, l) ∷ ws
  is : acc ≡ record { best_h = p; best_prev = last_ptr nil_hole us; max_len = l }
  big : clicks ≤ l

record Found (clicks : ℕ) (ys : Cells) (acc : Best) : Type 0 where
  longest : Longest clicks acc.max_len ys
  place : (acc ≡ no_best) ⊎ Place clicks ys acc

Found-next :
    (clicks : ℕ) (ys : Cells) (p b l : ℕ) (acc : Best)
    → Found clicks ys acc
    → Found clicks (ys ++ (p, b, l) ∷ []) (better clicks (last_ptr nil_hole ys) p l acc)
Found-next clicks ys p b l acc v = elim (Bool-cases (leb clicks l && ltb acc.max_len l)) [
  | inl more ↦ rw more (record {
    longest =
        Longest-append clicks l ys ((p, b, l) ∷ [])
          (Longest-mono clicks acc.max_len l ys (ground arith) v.longest) (λ q. omega arith, tt);
    place = inr (record {
      us = ys;
      p = p;
      b = b;
      l = l;
      ws = [];
      split = refl;
      is = refl;
      big = ground arith;
    });
  })
  | inr less ↦ rw less (record {
    longest =
        Longest-append clicks acc.max_len ys ((p, b, l) ∷ []) v.longest (λ q. ground arith, tt);
    place = elim v.place [
      | inl e ↦ inl e
      | inr pl ↦ inr (record {
        us = pl.us;
        p = pl.p;
        b = pl.b;
        l = pl.l;
        ws = pl.ws ++ (p, b, l) ∷ [];
        split = rw pl.split (append_assoc pl.us ((pl.p, pl.b, pl.l) ∷ pl.ws) ((p, b, l) ∷ []));
        is = pl.is;
        big = pl.big;
      })
    ];
  })
]

Found-best :
    (clicks : ℕ) (ys zs : Cells) (acc : Best)
    → Found clicks ys acc
    → Found clicks (ys ++ zs) (best clicks (last_ptr nil_hole ys) zs acc)
unfolding best
Found-best clicks ys [] acc v = rw (append-nil ys) v
Found-best clicks ys ((p, b, l) ∷ zs) acc v =
    rw (append_assoc ys ((p, b, l) ∷ []) zs, last_ptr-append nil_hole p b l ys) at
      (Found-best clicks (ys ++ (p, b, l) ∷ []) zs (better clicks (last_ptr nil_hole ys) p l acc)
        (Found-next clicks ys p b l acc v))

-- What worst fit does to the hole list `xs`.
pub data Worst (clicks n : ℕ) (t : Table) (xs : Cells) : Option ℕ → Table → Type 0 where
  no_fit : Longest clicks 0 xs → Worst clicks n t xs none t
  widest :
      (us : Cells) (p b l : ℕ) (ws : Cells) {t' : Table}
      → xs ≡ us ++ (p, b, l) ∷ ws
      → clicks ≤ l
      → Longest clicks l xs
      → Left n (us ++ bitten (p, b, l) clicks ws) t'
      → Worst clicks n t xs (some b) t'

worst_fit-none :
    (t : Table) (fuel clicks : ℕ)
    → worst_loop fuel clicks nil_hole t.hole_head no_best t ≡ ok no_best t
    → worst_fit fuel clicks t ≡ ok none t
unfolding worst_fit
worst_fit-none t fuel clicks e = ground arith

worst_fit-bite :
    (t : Table) (fuel clicks : ℕ) (acc : Best)
    → worst_loop fuel clicks nil_hole t.hole_head no_best t ≡ ok acc t
    → acc.best_h ≢ nil_hole
    → worst_fit fuel clicks t
      ≡ and_then (bite acc.best_prev acc.best_h clicks t) (λ base. pure (some base))
unfolding worst_fit
worst_fit-bite t fuel clicks acc e ne = ground arith

pub worst_fit-Worst :
    (t : Table) (fuel clicks : ℕ) (xs fs : Cells)
    → Holds t xs fs
    → length xs < fuel
    → Returns (Worst clicks (length xs + length fs) t xs) (worst_fit fuel clicks t)
worst_fit-Worst t fuel clicks xs fs v h = elim found.place [
  | inl e ↦
      rw (worst_fit-none t fuel clicks (loop ∙ ap (λ a. ok a t) e))
        (returns (no_fit (rw e at found.longest)))
  | inr pl ↦ bitten_at pl
]
  where
    acc : Best
    acc = best clicks nil_hole xs no_best

    loop : worst_loop fuel clicks nil_hole t.hole_head no_best t ≡ ok acc t
    loop = worst_loop-best t fuel clicks nil_hole t.hole_head xs no_best v.chain h

    found : Found clicks xs acc
    found = Found-best clicks [] xs no_best (record { longest = tt; place = inl refl })

    bitten_at :
        Place clicks xs acc
        → Returns (Worst clicks (length xs + length fs) t xs) (worst_fit fuel clicks t)
    bitten_at pl =
        let v' = rw pl.split at v in
        let e = loop ∙ ap (λ a. ok a t) pl.is in
        let len : length xs ≡ length pl.us + suc (length pl.ws) =
          ap length pl.split ∙ length-append pl.us ((pl.p, pl.b, pl.l) ∷ pl.ws) in
        rw
          (worst_fit-bite t fuel clicks
            (record { best_h = pl.p; best_prev = last_ptr nil_hole pl.us; max_len = pl.l }) e
            (Holds-At pl.us pl.p pl.b pl.l pl.ws v').not_nil)
          (bind (bite-Left t pl.us (last_ptr nil_hole pl.us) pl.p pl.b pl.l clicks pl.ws fs v' refl)
            (λ a t' w. returns (
              rw w.0 (
                widest pl.us pl.p pl.b pl.l pl.ws pl.split pl.big (rw pl.is at found.longest)
                  (recount _ (omega arith) w.1)))))
