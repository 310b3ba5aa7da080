-- ===== src/Alloc/Chain.antt =====
-- The linked lists of the hole table as lists of cells: a slot, and the base and length it holds.
use soi_laboratoria_2025z.Base.{
  ℕ, ◌+◌, ◌≤◌, ◌≡◌, refl, ◌≢◌, List, [], ◌∷◌, ◌++◌, arith, ◌==◌, if◌then◌else◌,
}
use soi_laboratoria_2025z.Alloc.Table.{Ptr, nil_hole, Hole, Table}

abbrev pub Cell : Type 0
Cell = Ptr × ℕ × ℕ

abbrev pub Cells : Type 0
Cells = List Cell

-- How often a slot stands in a list.
unfoldable pub occ : Ptr → Cells → ℕ
occ a [] = 0
occ a ((p, _, _) ∷ xs) = (if a == p then 1 else 0) + occ a xs

pub occ-append : (a : Ptr) (xs ys : Cells) → occ a (xs ++ ys) ≡ occ a xs + occ a ys
unfolding occ
occ-append a [] ys = omega arith
occ-append a (x ∷ xs) ys = omega (arith, occ-append a xs ys)

-- From `p` the `h_next` pointers lead through the cells to `stop`.
abbrev pub Seg : (Ptr → Hole) → Ptr → Cells → Ptr → Type 0
Seg h p [] stop = p ≡ stop
Seg h p ((q, b, l) ∷ xs) stop =
    (p ≡ q) × (q ≢ nil_hole) × ((h q).h_base ≡ b) × ((h q).h_len ≡ l) × Seg h (h q).h_next xs stop

module _ (h : Ptr → Hole) (stop : Ptr) where
  -- A change outside its own slots leaves a segment alone.
  pub frame :
      (g : Ptr → Hole) (p : Ptr) (xs : Cells)
      → ((a : Ptr) → occ a xs ≢ 0 → g a ≡ h a)
      → Seg h p xs stop
      → Seg g p xs stop
  unfolding occ
  frame g p [] same s = s
  frame g p ((q, b, l) ∷ xs) same s =
      let e : g q ≡ h q = same q (ground arith) in
      let rest = frame g (h q).h_next xs (λ a o. same a (omega arith)) s.4 in
      (s.0, s.1, rw e s.2, rw e s.3, rw e rest)

  pub Seg-append :
      (p m : Ptr) (xs ys : Cells) → Seg h p xs m → Seg h m ys stop → Seg h p (xs ++ ys) stop
  Seg-append p m [] ys s t = rw s t
  Seg-append p m ((q, b, l) ∷ xs) ys s t =
      (s.0, s.1, s.2, s.3, Seg-append (h q).h_next m xs ys s.4 t)

  pub Seg-split :
      (p : Ptr) (xs ys : Cells)
      → Seg h p (xs ++ ys) stop
      → (m : Ptr) × Seg h p xs m × Seg h m ys stop
  Seg-split p [] ys s = (p, refl, s)
  Seg-split p ((q, b, l) ∷ xs) ys s =
      let (m, u, v) = Seg-split (h q).h_next xs ys s.4 in (m, (s.0, s.1, s.2, s.3, u), v)

-- The table holds the hole list `xs` and the free slots `fs`, and no slot stands twice.
pub record Holds (t : Table) (xs fs : Cells) : Type 0 where
  pub chain : Seg t.hole t.hole_head xs nil_hole
  pub slots : Seg t.hole t.free_slots fs nil_hole
  pub once : (a : Ptr) → occ a xs + occ a fs ≤ 1
