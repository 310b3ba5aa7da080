-- ===== src/Alloc/Merge.antt =====
-- `merge` of alloc.c on the list of cells, and the refinement by the pointer code.
use mathlib.Core.List.{append_assoc}
use soi_laboratoria_2025z.Base.{
  ℕ, ◌+◌, ◌%◌, ◌≡◌, ◌≢◌, refl, ◌∙◌, inl, inr, true, false, ok, and_then, [], ◌∷◌, ◌++◌, arith, ◌==◌,
  if◌then◌else◌, Bool-cases, length, length-append, Returns, returns, bind, mono,
}
use soi_laboratoria_2025z.Alloc.Table.{
  Ptr, nil_hole, clicks_mod, Table, touches, absorb, merge_last, merge,
}
use soi_laboratoria_2025z.Alloc.Chain.{Cell, Cells, occ-append, Seg-append, Seg-split, Holds}
use soi_laboratoria_2025z.Alloc.Edit.{At, absorb-At}

-- What the second half of `merge`, and all of it, leave of a cell and the cells behind it.
unfoldable pub merged_last : Cell → Cells → Cells
merged_last (p, b, l) [] = (p, b, l) ∷ []
merged_last (p, b, l) ((q, c, m) ∷ zs) =
    if (b + l) % clicks_mod == c
    then (p, b, (l + m) % clicks_mod) ∷ zs
    else (p, b, l) ∷ (q, c, m) ∷ zs

unfoldable pub merged : Cell → Cells → Cells
unfolding merged_last
merged (p, b, l) [] = (p, b, l) ∷ []
merged (p, b, l) ((q, c, m) ∷ zs) =
    if (b + l) % clicks_mod == c
    then merged_last (p, b, (l + m) % clicks_mod) zs
    else (p, b, l) ∷ merged_last (q, c, m) zs

-- The hole list is `xs` after the call, and no slot was lost: `n` of them are in the two lists.
pub record Left (n : ℕ) (xs : Cells) (t : Table) : Type 0 where
  pub fs : Cells
  pub holds : Holds t xs fs
  pub count : length xs + length fs ≡ n

pub At-Holds :
    {t : Table} {ys zs fs : Cells} (c : Cell) → At t ys c zs fs → Holds t (ys ++ c ∷ zs) fs
At-Holds {t} {ys} {zs} {fs} (p, b, l) v = record {
  chain =
      Seg-append t.hole nil_hole t.hole_head p ys ((p, b, l) ∷ zs) v.before
        (refl, v.not_nil, v.base, v.len, v.after);
  slots = v.slots;
  once = λ a. omega (arith, v.once a, occ-append a ys ((p, b, l) ∷ zs));
}

pub Holds-At :
    {t : Table} {fs : Cells} (ys : Cells) (p b l : ℕ) (zs : Cells)
    → Holds t (ys ++ (p, b, l) ∷ zs) fs
    → At t ys (p, b, l) zs fs
Holds-At {t} {fs} ys p b l zs v =
    let (m, u, w) = Seg-split t.hole nil_hole t.hole_head ys ((p, b, l) ∷ zs) v.chain in
    record {
      before = rw (← w.0) u;
      not_nil = w.1;
      base = w.2;
      len = w.3;
      after = w.4;
      slots = v.slots;
      once = λ a. omega (arith, v.once a, occ-append a ys ((p, b, l) ∷ zs));
    }

pub At-next :
    {t : Table} {ys zs fs : Cells} (p b l q c m : ℕ)
    → At t ys (p, b, l) ((q, c, m) ∷ zs) fs
    → At t (ys ++ (p, b, l) ∷ []) (q, c, m) zs fs
At-next {t} {ys} {zs} {fs} p b l q c m v =
    Holds-At (ys ++ (p, b, l) ∷ []) q c m zs
      (rw (append_assoc ys ((p, b, l) ∷ []) ((q, c, m) ∷ zs)) (At-Holds (p, b, l) v))

At-Left :
    {t : Table} {ys zs fs : Cells} (c : Cell)
    → At t ys c zs fs
    → Left (length ys + length (c ∷ zs) + length fs) (ys ++ c ∷ zs) t
At-Left {ys} {zs} {fs} c v = record {
  fs = fs;
  holds = At-Holds c v;
  count = omega (arith, length-append ys (c ∷ zs));
}

module _ (t : Table) (p : Ptr) (np : p ≢ nil_hole) where
  merge_last-stop : (t.hole p).h_next ≡ nil_hole → merge_last p t ≡ ok tt t
  unfolding merge_last
  merge_last-stop e = ground arith

  merge-stop : (t.hole p).h_next ≡ nil_hole → merge p t ≡ ok tt t
  unfolding merge
  merge-stop e = ground arith

  module _ (q : Ptr) (nq : q ≢ nil_hole) (e : (t.hole p).h_next ≡ q) where
    merge_last-join : touches (t.hole p) (t.hole q) ≡ true → merge_last p t ≡ absorb p q t
    unfolding merge_last
    merge_last-join j = ground arith

    merge_last-keep : touches (t.hole p) (t.hole q) ≡ false → merge_last p t ≡ ok tt t
    unfolding merge_last
    merge_last-keep j = ground arith

    merge-join :
        touches (t.hole p) (t.hole q) ≡ true
        → merge p t ≡ and_then (absorb p q t) (λ _. merge_last p)
    unfolding merge
    merge-join j = ground arith

    merge-keep : touches (t.hole p) (t.hole q) ≡ false → merge p t ≡ merge_last q t
    unfolding merge
    merge-keep j = ground arith

pub recount : {n : ℕ} (k : ℕ) {xs : Cells} {t : Table} → n ≡ k → Left n xs t → Left k xs t
recount k e r = record { fs = r.fs; holds = r.holds; count = r.count ∙ e }

abbrev pub LeftBy : Cells → Cells → Cells → Cells → Unit {0} → Table → Type 0
LeftBy ys zs fs out _ t' = Left (length ys + length zs + length fs) (ys ++ out) t'

pub merge_last-Left :
    (t : Table) (ys : Cells) (p b l : ℕ) (zs fs : Cells)
    → At t ys (p, b, l) zs fs
    → Returns (LeftBy ys ((p, b, l) ∷ zs) fs (merged_last (p, b, l) zs)) (merge_last p t)
unfolding merged_last
merge_last-Left t ys p b l [] fs v =
    rw (merge_last-stop t p v.not_nil v.after) (returns (At-Left (p, b, l) v))
merge_last-Left t ys p b l ((q, c, m) ∷ zs) fs v = elim (Bool-cases ((b + l) % clicks_mod == c)) [
  | inl join ↦
      rw (merge_last-join t p v.not_nil q nq v.after.0 (rw (v.base, v.len, v.after.2) join), join)
        (mono (absorb-At t ys p b l q c m zs fs v) (λ _ t' w. shorter w))
  | inr keep ↦
      rw (merge_last-keep t p v.not_nil q nq v.after.0 (rw (v.base, v.len, v.after.2) keep), keep)
        (returns (At-Left (p, b, l) v))
]
  where
    nq : q ≢ nil_hole
    nq = v.after.1

    shorter :
        {t' : Table}
        → At t' ys (p, b, (l + m) % clicks_mod) zs ((q, c, m) ∷ fs)
        → Left
            (length ys + length ((p, b, l) ∷ (q, c, m) ∷ zs) + length fs)
            (ys ++ (p, b, (l + m) % clicks_mod) ∷ zs)
            t'
    shorter w = record {
      fs = (q, c, m) ∷ fs;
      holds = At-Holds (p, b, (l + m) % clicks_mod) w;
      count = omega (arith, length-append ys ((p, b, (l + m) % clicks_mod) ∷ zs));
    }

-- A cell goes over from the front part to the rest.
pub regroup :
    {n k : ℕ} {t : Table} (ys : Cells) (c : Cell) (out : Cells)
    → Left n ((ys ++ c ∷ []) ++ out) t
    → n ≡ k
    → Left k (ys ++ c ∷ out) t
regroup ys c out r e = record {
  fs = r.fs;
  holds = rw (← append_assoc ys (c ∷ []) out) r.holds;
  count = rw (← append_assoc ys (c ∷ []) out) (r.count ∙ e);
}

-- `merge` puts the merged cells in the place of the cell and those behind it.
pub merge-Left :
    (t : Table) (ys : Cells) (p b l : ℕ) (zs fs : Cells)
    → At t ys (p, b, l) zs fs
    → Returns (LeftBy ys ((p, b, l) ∷ zs) fs (merged (p, b, l) zs)) (merge p t)
unfolding merged
merge-Left t ys p b l [] fs v =
    rw (merge-stop t p v.not_nil v.after) (returns (At-Left (p, b, l) v))
merge-Left t ys p b l ((q, c, m) ∷ zs) fs v = elim (Bool-cases ((b + l) % clicks_mod == c)) [
  | inl join ↦
      rw (merge-join t p v.not_nil q nq v.after.0 (rw (v.base, v.len, v.after.2) join), join)
        (bind (absorb-At t ys p b l q c m zs fs v) (λ _ t' w.
          mono (merge_last-Left t' ys p b ((l + m) % clicks_mod) zs ((q, c, m) ∷ fs) w)
            (λ _ t'' r. recount _ (omega arith) r)))
  | inr keep ↦
      rw (merge-keep t p v.not_nil q nq v.after.0 (rw (v.base, v.len, v.after.2) keep), keep)
        (mono (merge_last-Left t (ys ++ (p, b, l) ∷ []) q c m zs fs (At-next p b l q c m v))
          (λ _ t' r.
            regroup ys (p, b, l) (merged_last (q, c, m) zs) r
              (omega (arith, length-append ys ((p, b, l) ∷ [])))))
]
  where
    nq : q ≢ nil_hole
    nq = v.after.1
