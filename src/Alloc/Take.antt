-- ===== src/Alloc/Take.antt =====
-- How `alloc_mem` of alloc.c takes memory from the hole list: the bite, first fit and worst fit.
use mathlib.Core.List.{append_assoc}
use soi_laboratoria_2025z.Base.{
  ℕ, zero, suc, ◌+◌, ◌-◌, ◌%◌, ◌<◌, ◌≡◌, ◌≢◌, refl, sym, ap, inl, inr, true, false, Option, none,
  some, ok, and_then, pure, [], ◌∷◌, ◌++◌, arith, leb, ◌==◌, if◌then◌else◌, Bool-cases, length,
  length-append, Returns, returns, bind, mono,
}
use soi_laboratoria_2025z.Alloc.Table.{
  Ptr, nil_hole, clicks_mod, Table, write, del_slot, bite, first_fit,
}
use soi_laboratoria_2025z.Alloc.Chain.{Cell, Cells, occ, Seg, frame, Holds}
use soi_laboratoria_2025z.Alloc.Edit.{At}
use soi_laboratoria_2025z.Alloc.Merge.{Left, regroup, At-Holds, Holds-At}
use soi_laboratoria_2025z.Alloc.Bite.{last_ptr, last_ptr-append, del_slot-Holds}

-- What is left of a hole, before the holes behind it.
unfoldable pub bitten : Cell → ℕ → Cells → Cells
bitten (p, b, l) clicks zs =
    if l - clicks == 0 then zs else (p, (b + clicks) % clicks_mod, l - clicks) ∷ zs

abbrev sized : Table → (p b l : ℕ) → Table
sized t p b l = record t { hole = write t.hole p (record (t.hole p) { h_base = b; h_len = l }) }

sized-At :
    (t : Table) (ys : Cells) (p b l c m : ℕ) (zs fs : Cells)
    → At t ys (p, b, l) zs fs
    → At (sized t p c m) ys (p, c, m) zs fs
unfolding write occ
sized-At t ys p b l c m zs fs v = record {
  before = spared t.hole_head p ys (ground (arith, v.once p)) v.before;
  not_nil = v.not_nil;
  base = ground arith;
  len = ground arith;
  after = rw same_next (spared (t.hole p).h_next nil_hole zs (ground (arith, v.once p)) v.after);
  slots = spared t.free_slots nil_hole fs (ground (arith, v.once p)) v.slots;
  once = v.once;
}
  where
    same_next : ((sized t p c m).hole p).h_next ≡ (t.hole p).h_next
    same_next = ground arith

    spared :
        (from to : Ptr) (ws : Cells)
        → occ p ws ≡ 0
        → Seg t.hole from ws to
        → Seg (sized t p c m).hole from ws to
    spared from to ws o s = frame t.hole to (sized t p c m).hole from ws (λ a k. ground arith) s

module _ (t : Table) (prev p b l clicks : ℕ) (np : p ≢ nil_hole) (e : (t.hole p).h_base ≡ b)
    (f : (t.hole p).h_len ≡ l) where
  bite-gone :
      (l - clicks == 0) ≡ true
      → bite prev p clicks t
        ≡ and_then
            (del_slot prev p (sized t p ((b + clicks) % clicks_mod) (l - clicks)))
            (λ _. pure b)
  unfolding bite
  bite-gone h = ground arith

  bite-stays :
      (l - clicks == 0) ≡ false
      → bite prev p clicks t ≡ ok b (sized t p ((b + clicks) % clicks_mod) (l - clicks))
  unfolding bite
  bite-stays h = ground arith

pub bite-Left :
    (t : Table) (ys : Cells) (prev p b l clicks : ℕ) (zs fs : Cells)
    → Holds t (ys ++ (p, b, l) ∷ zs) fs
    → prev ≡ last_ptr nil_hole ys
    → Returns
        (λ a t'.
          (a ≡ b)
          × Left (length ys + suc (length zs) + length fs) (ys ++ bitten (p, b, l) clicks zs) t')
        (bite prev p clicks t)
unfolding bitten
bite-Left t ys prev p b l clicks zs fs v e =
    let c = (b + clicks) % clicks_mod in
    let at = Holds-At ys p b l zs v in
    let at' = sized-At t ys p b l c (l - clicks) zs fs at in
    elim (Bool-cases (l - clicks == 0)) [
      | inl gone ↦
          rw (bite-gone t prev p b l clicks at.not_nil at.base at.len gone, gone)
            (bind
              (del_slot-Holds (sized t p c (l - clicks)) ys prev p c (l - clicks) zs fs
                (At-Holds (p, c, l - clicks) at') e)
              (λ _ t' w. returns (
                refl,
                record {
                  fs = (p, c, l - clicks) ∷ fs;
                  holds = w;
                  count = omega (arith, length-append ys zs);
                },
              )))
      | inr stays ↦
          rw (bite-stays t prev p b l clicks at.not_nil at.base at.len stays, stays)
            (returns (
              refl,
              record {
                fs = fs;
                holds = At-Holds (p, c, l - clicks) at';
                count = omega (arith, length-append ys ((p, c, l - clicks) ∷ zs));
              },
            ))
    ]

-- First fit among the holes below `swap_base`: the base of the block, and the holes left.
unfoldable pub fit : (swap_base clicks : ℕ) → Cells → Option ℕ
fit swap_base clicks [] = none
fit swap_base clicks ((p, b, l) ∷ zs) =
    if leb swap_base b then none else if leb clicks l then some b else fit swap_base clicks zs

unfoldable pub fitted : (swap_base clicks : ℕ) → Cells → Cells
fitted swap_base clicks [] = []
fitted swap_base clicks ((p, b, l) ∷ zs) =
    if leb swap_base b
    then (p, b, l) ∷ zs
    else if leb clicks l
    then bitten (p, b, l) clicks zs
    else (p, b, l) ∷ fitted swap_base clicks zs

first_fit-end :
    (t : Table) (fuel sb clicks prev : ℕ)
    → first_fit (suc fuel) sb clicks prev nil_hole t ≡ ok none t
unfolding first_fit
first_fit-end t fuel sb clicks prev = refl

module _ (t : Table) (fuel sb clicks prev p b l : ℕ) (np : p ≢ nil_hole) (e : (t.hole p).h_base ≡ b)
    (f : (t.hole p).h_len ≡ l) where
  first_fit-limit : leb sb b ≡ true → first_fit (suc fuel) sb clicks prev p t ≡ ok none t
  unfolding first_fit
  first_fit-limit h = ground arith

  first_fit-take :
      leb sb b ≡ false
      → leb clicks l ≡ true
      → first_fit (suc fuel) sb clicks prev p t
        ≡ and_then (bite prev p clicks t) (λ base. pure (some base))
  unfolding first_fit
  first_fit-take h k = ground arith

  first_fit-pass :
      leb sb b ≡ false
      → leb clicks l ≡ false
      → first_fit (suc fuel) sb clicks prev p t ≡ first_fit fuel sb clicks p (t.hole p).h_next t
  unfolding first_fit
  first_fit-pass h k = ground arith

-- The outcome of a search that started at the cells `zs` behind `ys`.
abbrev pub Search : Cells → Cells → Cells → Option ℕ → Cells → Option ℕ → Table → Type 0
Search ys zs fs o out o' t' = (o' ≡ o) × Left (length ys + length zs + length fs) (ys ++ out) t'

module _ (sb clicks : ℕ) where
  pub first_fit-Left :
      (fuel : ℕ) (t : Table) (ys zs fs : Cells) (prev hp : Ptr)
      → Holds t (ys ++ zs) fs
      → Seg t.hole hp zs nil_hole
      → prev ≡ last_ptr nil_hole ys
      → length zs < fuel
      → Returns
          (Search ys zs fs (fit sb clicks zs) (fitted sb clicks zs))
          (first_fit fuel sb clicks prev hp t)
  unfolding fit fitted
  first_fit-Left zero t ys zs fs prev hp v s e h = absurd (omega arith)
  first_fit-Left (suc fuel) t ys [] fs prev hp v s e h =
      rw (s, first_fit-end t fuel sb clicks prev)
        (returns (refl, record { fs = fs; holds = v; count = omega (arith, length-append ys []) }))
  first_fit-Left (suc fuel) t ys ((p, b, l) ∷ zs) fs prev hp v s e h =
      rw s.0 (elim (Bool-cases (leb sb b)) [
        | inl limit ↦
            rw (first_fit-limit t fuel sb clicks prev p b l s.1 s.2 s.3 limit, limit)
              (returns (
                refl,
                record {
                  fs = fs;
                  holds = v;
                  count = omega (arith, length-append ys ((p, b, l) ∷ zs));
                },
              ))
        | inr low ↦ elim (Bool-cases (leb clicks l)) [
          | inl big ↦
              rw (first_fit-take t fuel sb clicks prev p b l s.1 s.2 s.3 low big, low, big)
                (bind (bite-Left t ys prev p b l clicks zs fs v e)
                  (λ a t' w. returns (ap some w.0, w.1)))
          | inr small ↦
              rw (first_fit-pass t fuel sb clicks prev p b l s.1 s.2 s.3 low small, low, small)
                (mono
                  (first_fit-Left fuel t (ys ++ (p, b, l) ∷ []) zs fs p (t.hole p).h_next
                    (rw (append_assoc ys ((p, b, l) ∷ []) zs) v) s.4
                    (sym (last_ptr-append nil_hole p b l ys)) (omega arith))
                  (λ o t' w. (
                    w.0,
                    regroup ys (p, b, l) (fitted sb clicks zs) w.1
                        (omega (arith, length-append ys ((p, b, l) ∷ []))),
                  )))
        ]
      ])
