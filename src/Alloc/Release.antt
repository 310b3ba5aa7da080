-- ===== src/Alloc/Release.antt =====
-- `free_mem` of alloc.c on the list of cells, and the refinement by the pointer code.
use soi_laboratoria_2025z.Base.{
  ℕ, zero, suc, ◌+◌, ◌<◌, ◌≡◌, ◌≢◌, refl, ap, ◌∙◌, inl, inr, true, false, ok, panic, and_then, [],
  ◌∷◌, ◌++◌, arith, leb, ltb, if◌then◌else◌, Bool-cases, length, length-append, Returns, mono,
}
use soi_laboratoria_2025z.Alloc.Table.{Ptr, nil_hole, Table, write, seek, merge, link, free_mem}
use soi_laboratoria_2025z.Alloc.Chain.{Cell, Cells, occ, Seg, frame, Holds}
use soi_laboratoria_2025z.Alloc.Edit.{At}
use soi_laboratoria_2025z.Alloc.Merge.{merged, Left, LeftBy, recount, Holds-At, merge-Left}

-- The block `x` put into the hole list, joined with what it touches; `behind` has passed `y`.
unfoldable pub behind : Cell → Cell → Cells → Cells
behind x y [] = merged y (x ∷ [])
behind (r, b, n) y ((q, c, m) ∷ zs) =
    if leb b c then merged y ((r, b, n) ∷ (q, c, m) ∷ zs) else y ∷ behind (r, b, n) (q, c, m) zs

unfoldable pub released : Cell → Cells → Cells
unfolding behind
released x [] = merged x []
released (r, b, n) ((q, c, m) ∷ zs) =
    if leb b c then merged (r, b, n) ((q, c, m) ∷ zs) else behind (r, b, n) (q, c, m) zs

-- Where the walk stops.
stop_at : ℕ → Ptr → Cells → Ptr
stop_at base prev [] = prev
stop_at base prev ((q, c, m) ∷ zs) = if ltb c base then stop_at base q zs else prev

seek-stop_at :
    (u : Table) (fuel base prev hp : ℕ) (zs : Cells)
    → Seg u.hole hp zs nil_hole
    → length zs < fuel
    → seek fuel base prev hp u ≡ ok (stop_at base prev zs) u
unfolding seek stop_at
seek-stop_at u zero base prev hp zs s h = absurd (omega arith)
seek-stop_at u (suc fuel) base prev hp [] s h = ground arith
seek-stop_at u (suc fuel) base prev hp ((q, c, m) ∷ zs) s h =
    ground (arith, seek-stop_at u fuel base q (u.hole q).h_next zs s.4)

-- The cell behind which the block goes.
spot :
    (r b n : ℕ) (y : Cell) (ys : Cells)
    → (us : Cells) × (c : Cell) × (zs : Cells) × (y ∷ ys ≡ us ++ c ∷ zs)
      × (behind (r, b, n) y ys ≡ us ++ merged c ((r, b, n) ∷ zs))
      × (stop_at b y.0 ys ≡ c.0)
unfolding behind stop_at
spot r b n y [] = ([], y, [], refl, refl, refl)
spot r b n y ((q, c, m) ∷ zs) = elim (Bool-cases (leb b c)) [
  | inl early ↦ ([], y, (q, c, m) ∷ zs, refl, rw early, ground arith)
  | inr late ↦
      let (us, d, ws, e, f, g) = spot r b n (q, c, m) zs in
      (y ∷ us, d, ws, ap (◌∷◌ y) e, rw late (ap (◌∷◌ y) f), ground arith)
]

-- The table once the slot `r` is taken off the free slots and filled in.
abbrev taken : Table → (r base clicks : ℕ) → Table
taken t r base clicks = record t {
  hole = write t.hole r (record (t.hole r) { h_base = base; h_len = clicks });
  free_slots = (t.hole r).h_next;
}

abbrev put_first : Table → (r base clicks : ℕ) → Table
put_first t r base clicks = record (taken t r base clicks) {
  hole =
      write (taken t r base clicks).hole r
        (record ((taken t r base clicks).hole r) { h_next = t.hole_head });
  hole_head = r;
}

abbrev put_behind : Table → (p r base clicks : ℕ) → Table
put_behind t p r base clicks =
    let u = taken t r base clicks in
    let g = write u.hole r (record (u.hole r) { h_next = (u.hole p).h_next }) in
    record u { hole = write g p (record (g p) { h_next = r }) }

module _ (t : Table) (fuel r base clicks : ℕ) (nr : r ≢ nil_hole) (nc : clicks ≢ 0)
    (fr : t.free_slots ≡ r) where
  free_mem-nil :
      t.hole_head ≡ nil_hole → free_mem fuel base clicks t ≡ merge r (put_first t r base clicks)
  unfolding free_mem write
  free_mem-nil e = ground arith

  link-merge :
      (p : Ptr)
      → p ≢ nil_hole
      → p ≢ r
      → link r p (taken t r base clicks) ≡ merge p (put_behind t p r base clicks)
  unfolding link write
  link-merge p np ne' = ground arith

  module _ (hh : t.hole_head ≢ nil_hole) (ne : t.hole_head ≢ r) where
    free_mem-first :
        leb base (t.hole t.hole_head).h_base ≡ true
        → free_mem fuel base clicks t ≡ merge r (put_first t r base clicks)
    unfolding free_mem write
    free_mem-first e = ground arith

    free_mem-later :
        leb base (t.hole t.hole_head).h_base ≡ false
        → free_mem fuel base clicks t
          ≡ and_then (seek fuel base nil_hole t.hole_head (taken t r base clicks)) (link r)
    unfolding free_mem write
    free_mem-later e = ground arith

  module _ (b l : ℕ) (fs : Cells) where
    put_first-At :
        (xs : Cells)
        → Holds t xs ((r, b, l) ∷ fs)
        → At (put_first t r base clicks) [] (r, base, clicks) xs fs
    unfolding write occ
    put_first-At xs v = record {
      before = refl;
      not_nil = nr;
      base = ground arith;
      len = ground arith;
      after = rw to_head (spared t.hole_head nil_hole xs (ground (arith, v.once r)) v.chain);
      slots = spared (t.hole r).h_next nil_hole fs (ground (arith, v.once r)) v.slots.4;
      once = λ a. ground (arith, v.once a);
    }
      where
        to_head : ((put_first t r base clicks).hole r).h_next ≡ t.hole_head
        to_head = ground arith

        spared :
            (from to : Ptr) (zs : Cells)
            → occ r zs ≡ 0
            → Seg t.hole from zs to
            → Seg (put_first t r base clicks).hole from zs to
        spared from to zs o s =
            frame t.hole to (put_first t r base clicks).hole from zs (λ a k. ground arith) s

    put_behind-At :
        (ys : Cells) (p pb pl : ℕ) (zs : Cells)
        → At t ys (p, pb, pl) zs ((r, b, l) ∷ fs)
        → At (put_behind t p r base clicks) ys (p, pb, pl) ((r, base, clicks) ∷ zs) fs
    unfolding write occ
    put_behind-At ys p pb pl zs v = record {
      before =
          spared t.hole_head p ys (ground (arith, v.once r)) (ground (arith, v.once p)) v.before;
      not_nil = v.not_nil;
      base = ground (arith, v.base, apart);
      len = ground (arith, v.len, apart);
      after = (
        ground arith,
        nr,
        ground arith,
        ground arith,
        rw to_next (
            spared (t.hole p).h_next nil_hole zs (ground (arith, v.once r))
              (ground (arith, v.once p)) v.after),
      );
      slots =
          spared (t.hole r).h_next nil_hole fs (ground (arith, v.once r)) (ground (arith, v.once p))
            v.slots.4;
      once = λ a. ground (arith, v.once a);
    }
      where
        apart : p ≢ r
        apart = ground (arith, v.once p)

        to_next : ((put_behind t p r base clicks).hole r).h_next ≡ (t.hole p).h_next
        to_next = ground (arith, apart)

        spared :
            (from to : Ptr) (ws : Cells)
            → occ r ws ≡ 0
            → occ p ws ≡ 0
            → Seg t.hole from ws to
            → Seg (put_behind t p r base clicks).hole from ws to
        spared from to ws o o' s =
            frame t.hole to (put_behind t p r base clicks).hole from ws (λ a k. ground arith) s

head-not_nil :
    (t : Table) (y : Cell) (ys fs : Cells) (r b l : ℕ)
    → Holds t (y ∷ ys) ((r, b, l) ∷ fs)
    → (t.hole_head ≢ nil_hole) × (t.hole_head ≢ r) × ((t.hole t.hole_head).h_base ≡ y.1)
unfolding occ
head-not_nil t (q, c, m) ys fs r b l v = ground (arith, v.chain.0, v.chain.1, v.chain.2, v.once q)

module _ (t : Table) (fuel base clicks r b l : ℕ) (fs : Cells) (nc : clicks ≢ 0) where
  link-Left :
      (us : Cells) (p pb pl : ℕ) (zs : Cells)
      → t.free_slots ≡ r
      → r ≢ nil_hole
      → At t us (p, pb, pl) zs ((r, b, l) ∷ fs)
      → Returns
          (LeftBy us
            ((p, pb, pl) ∷ (r, base, clicks) ∷ zs)
            fs
            (merged (p, pb, pl) ((r, base, clicks) ∷ zs)))
          (link r p (taken t r base clicks))
  unfolding occ
  link-Left us p pb pl zs fr nr at =
      let apart : p ≢ r = ground (arith, at.once p) in
      rw (link-merge t fuel r base clicks nr nc fr p at.not_nil apart) (
        merge-Left (put_behind t p r base clicks) us p pb pl ((r, base, clicks) ∷ zs) fs
          (put_behind-At t fuel r base clicks nr nc fr b l fs us p pb pl zs at))

  later-Left :
      (y : Cell) (ys : Cells)
      → Holds t (y ∷ ys) ((r, b, l) ∷ fs)
      → leb base y.1 ≡ false
      → length (y ∷ ys) < fuel
      → Returns
          (λ _ t'. Left (length (y ∷ ys) + suc (length fs)) (behind (r, base, clicks) y ys) t')
          (free_mem fuel base clicks t)
  unfolding write occ stop_at
  later-Left (q, c, m) ys v late h =
      let (us, (p, pb, pl), zs, split, result, last) = spot r base clicks (q, c, m) ys in
      let (hh, hr, hb) = head-not_nil t (q, c, m) ys fs r b l v in
      let at = Holds-At us p pb pl zs (rw split at v) in
      let chain : Seg (taken t r base clicks).hole t.hole_head ((q, c, m) ∷ ys) nil_hole =
        frame t.hole nil_hole (taken t r base clicks).hole t.hole_head ((q, c, m) ∷ ys)
          (λ a k. ground (arith, v.once a)) v.chain in
      let stop : stop_at base nil_hole ((q, c, m) ∷ ys) ≡ p = ground arith in
      let len : length ((q, c, m) ∷ ys) ≡ length us + suc (length zs) =
        ap length split ∙ length-append us ((p, pb, pl) ∷ zs) in
      rw
        (
          free_mem-later t fuel r base clicks v.slots.1 nc v.slots.0 hh hr (rw hb late),
          seek-stop_at (taken t r base clicks) fuel base nil_hole t.hole_head ((q, c, m) ∷ ys) chain
              h,
          stop,
          result,
        )
        (mono (link-Left us p pb pl zs v.slots.0 v.slots.1 at)
          (λ _ t' w. recount _ (omega arith) w))

  -- `free_mem` returns when a slot is free, and leaves the block in the hole list.
  pub free_mem-Left :
      (xs : Cells)
      → Holds t xs ((r, b, l) ∷ fs)
      → length xs < fuel
      → Returns
          (λ _ t'. Left (length xs + suc (length fs)) (released (r, base, clicks) xs) t')
          (free_mem fuel base clicks t)
  unfolding released
  free_mem-Left [] v h = rw (free_mem-nil t fuel r base clicks v.slots.1 nc v.slots.0 v.chain) (
      mono
        (merge-Left (put_first t r base clicks) [] r base clicks [] fs
          (put_first-At t fuel r base clicks v.slots.1 nc v.slots.0 b l fs [] v))
        (λ _ t' w. recount _ (omega arith) w))
  free_mem-Left ((q, c, m) ∷ ys) v h =
      let (hh, hr, hb) = head-not_nil t (q, c, m) ys fs r b l v in
      elim (Bool-cases (leb base c)) [
        | inl early ↦
            rw
              (
                free_mem-first t fuel r base clicks v.slots.1 nc v.slots.0 hh hr (rw hb early),
                early,
              )
              (mono
                (merge-Left (put_first t r base clicks) [] r base clicks ((q, c, m) ∷ ys) fs (
                  put_first-At t fuel r base clicks v.slots.1 nc v.slots.0 b l fs ((q, c, m) ∷ ys)
                    v))
                (λ _ t' w. recount _ (omega arith) w))
        | inr late ↦ rw late (later-Left (q, c, m) ys v late h)
      ]

-- With no slot free the kernel panics, unless nothing is given back.
pub free_mem-panic :
    (t : Table) (fuel base clicks : ℕ)
    → clicks ≢ 0
    → t.free_slots ≡ nil_hole
    → free_mem fuel base clicks t ≡ panic
unfolding free_mem
free_mem-panic t fuel base clicks nc e = ground arith
