-- ===== src/Alloc/Bite.antt =====
-- `del_slot` of alloc.c, and the step of `alloc_mem` that takes clicks from the front of a hole.
use mathlib.Core.List.{append_assoc}
use soi_laboratoria_2025z.Base.{
  ℕ, ◌≡◌, ◌≢◌, refl, sym, ◌⊎◌, inl, inr, ok, [], ◌∷◌, ◌++◌, arith, Returns, returns, mono,
}
use soi_laboratoria_2025z.Alloc.Table.{Ptr, nil_hole, Table, write, del_slot}
use soi_laboratoria_2025z.Alloc.Chain.{Cells, occ, Seg, frame, Holds}
use soi_laboratoria_2025z.Alloc.Edit.{At, q-apart, q-not_head, Dropped-At}
use soi_laboratoria_2025z.Alloc.Merge.{At-Holds, Holds-At}

-- The entry just ahead of what follows `ys`.
abbrev pub last_ptr : Ptr → Cells → Ptr
last_ptr p [] = p
last_ptr p ((q, _, _) ∷ ys) = last_ptr q ys

pub last_ptr-append : (p q b l : ℕ) (ys : Cells) → last_ptr p (ys ++ (q, b, l) ∷ []) ≡ q
last_ptr-append p q b l [] = refl
last_ptr-append p q b l ((r, _, _) ∷ ys) = last_ptr-append r q b l ys

-- A list is empty, or ends in a cell.
snoc_cases :
    (p : Ptr) (ys : Cells)
    → ((ys ≡ []) × (last_ptr p ys ≡ p))
      ⊎ ((us : Cells) × (q : ℕ) × (b : ℕ) × (l : ℕ) × (ys ≡ us ++ (q, b, l) ∷ [])
          × (last_ptr p ys ≡ q))
snoc_cases p [] = inl (refl, refl)
snoc_cases p ((q, b, l) ∷ ys) = elim (snoc_cases q ys) [
  | inl (e, f) ↦ inr ([], q, b, l, rw e, f)
  | inr (us, r, c, m, e, f) ↦ inr ((q, b, l) ∷ us, r, c, m, rw e, f)
]

abbrev unlinked_first : Table → Ptr → Table
unlinked_first t q = record t {
  hole = write t.hole q (record (t.hole q) { h_next = t.free_slots });
  hole_head = (t.hole q).h_next;
  free_slots = q;
}

abbrev unlinked : Table → (p q : Ptr) → Table
unlinked t p q = record t {
  hole =
      write (write t.hole p (record (t.hole p) { h_next = (t.hole q).h_next })) q
        (record (t.hole q) { h_next = t.free_slots });
  free_slots = q;
}

del_slot-first :
    (t : Table) (p q : Ptr)
    → q ≢ nil_hole
    → q ≡ t.hole_head
    → del_slot p q t ≡ ok tt (unlinked_first t q)
unfolding del_slot write
del_slot-first t p q nq e = ground arith

del_slot-inner :
    (t : Table) (p q : Ptr)
    → p ≢ nil_hole
    → q ≢ nil_hole
    → q ≢ p
    → q ≢ t.hole_head
    → del_slot p q t ≡ ok tt (unlinked t p q)
unfolding del_slot write
del_slot-inner t p q np nq ne hd = ground arith

-- The first hole leaves the list.
del_slot-first-Holds :
    (t : Table) (prev q c m : ℕ) (zs fs : Cells)
    → Holds t ((q, c, m) ∷ zs) fs
    → Returns (λ _ t'. Holds t' zs ((q, c, m) ∷ fs)) (del_slot prev q t)
unfolding write occ
del_slot-first-Holds t prev q c m zs fs v = rw (del_slot-first t prev q v.chain.1 (sym v.chain.0)) (
    returns (record {
      chain = spared (t.hole q).h_next nil_hole zs (ground (arith, v.once q)) v.chain.4;
      slots = (
        refl,
        v.chain.1,
        ground (arith, v.chain.2),
        ground (arith, v.chain.3),
        rw to_free (spared t.free_slots nil_hole fs (ground (arith, v.once q)) v.slots),
      );
      once = λ a. ground (arith, v.once a);
    }))
  where
    to_free : ((unlinked_first t q).hole q).h_next ≡ t.free_slots
    to_free = ground arith

    spared :
        (from to : Ptr) (ws : Cells)
        → occ q ws ≡ 0
        → Seg t.hole from ws to
        → Seg (unlinked_first t q).hole from ws to
    spared from to ws o s =
        frame t.hole to (unlinked_first t q).hole from ws (λ a k. ground arith) s

-- A hole behind another leaves the list.
del_slot-At :
    (t : Table) (ys : Cells) (p b l q c m : ℕ) (zs fs : Cells)
    → At t ys (p, b, l) ((q, c, m) ∷ zs) fs
    → Returns (λ _ t'. At t' ys (p, b, l) zs ((q, c, m) ∷ fs)) (del_slot p q t)
unfolding write
del_slot-At t ys p b l q c m zs fs v =
    let apart : q ≢ p = (q-apart t ys p b l q c m zs fs v).1 in
    rw
      (del_slot-inner t p q v.not_nil (q-apart t ys p b l q c m zs fs v).0 apart
        (q-not_head t ys p b l q c m zs fs v))
      (returns (
        Dropped-At t ys p b l q c m zs fs v (unlinked t p q) b l (record {
          head = refl;
          free = refl;
          base_p = ground (arith, v.base);
          len_p = ground (arith, v.len);
          next_p = ground arith;
          base_q = ground arith;
          len_q = ground arith;
          next_q = ground arith;
          same = λ a ne ne'. ground arith;
        })))

-- `del_slot` takes the hole `q` out of the list, and frees its slot.
pub del_slot-Holds :
    (t : Table) (ys : Cells) (prev q c m : ℕ) (zs fs : Cells)
    → Holds t (ys ++ (q, c, m) ∷ zs) fs
    → prev ≡ last_ptr nil_hole ys
    → Returns (λ _ t'. Holds t' (ys ++ zs) ((q, c, m) ∷ fs)) (del_slot prev q t)
del_slot-Holds t ys prev q c m zs fs v e = elim (snoc_cases nil_hole ys) [
  | inl (none, _) ↦ rw none (del_slot-first-Holds t prev q c m zs fs (rw none at v))
  | inr (us, p, b, l, split, last) ↦
      rw (e, last)
        (mono
          (del_slot-At t us p b l q c m zs fs (
            Holds-At us p b l ((q, c, m) ∷ zs)
              (rw (← append_assoc us ((p, b, l) ∷ []) ((q, c, m) ∷ zs)) (rw split at v))))
          (λ _ t' w. rw (split, append_assoc us ((p, b, l) ∷ []) zs) (At-Holds (p, b, l) w)))
]
