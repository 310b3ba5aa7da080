-- ===== src/Alloc/Edit.antt =====
-- What `del_slot`, `absorb`, `bite` and `merge` do to the hole list, seen from the cell they work at.
use soi_laboratoria_2025z.Base.{
  ℕ, ◌+◌, ◌%◌, ◌≤◌, ◌≡◌, refl, ◌∙◌, ◌≢◌, [], ◌∷◌, arith, ok, Returns, returns,
}
use soi_laboratoria_2025z.Alloc.Table.{Ptr, nil_hole, clicks_mod, Hole, Table, write, absorb}
use soi_laboratoria_2025z.Alloc.Chain.{Cell, Cells, occ, Seg, frame}

-- The hole list is `ys`, the cell `c`, and `zs`.
pub record At (t : Table) (ys : Cells) (c : Cell) (zs fs : Cells) : Type 0 where
  pub before : Seg t.hole t.hole_head ys c.0
  pub not_nil : c.0 ≢ nil_hole
  pub base : (t.hole c.0).h_base ≡ c.1
  pub len : (t.hole c.0).h_len ≡ c.2
  pub after : Seg t.hole (t.hole c.0).h_next zs nil_hole
  pub slots : Seg t.hole t.free_slots fs nil_hole
  pub once : (a : Ptr) → occ a ys + occ a (c ∷ zs) + occ a fs ≤ 1

abbrev absorbed : (p q : Ptr) → Table → Table
absorbed p q t =
    let v : Hole = record (t.hole p) {
      h_len = ((t.hole p).h_len + (t.hole q).h_len) % clicks_mod;
    } in
    record t {
      hole =
          write (write (write t.hole p v) p (record v { h_next = (t.hole q).h_next })) q
            (record (t.hole q) { h_next = t.free_slots });
      free_slots = q;
    }

absorb-ok :
    (t : Table) (p q : Ptr)
    → p ≢ nil_hole
    → q ≢ nil_hole
    → q ≢ p
    → q ≢ t.hole_head
    → absorb p q t ≡ ok tt (absorbed p q t)
unfolding absorb write
absorb-ok t p q hp hq ne hd = ground arith

pub head-ne :
    (h : Ptr → Hole) (head p q : Ptr) (ys : Cells)
    → Seg h head ys p
    → occ q ys ≡ 0
    → q ≢ p
    → q ≢ head
unfolding occ
head-ne h head p q [] s o ne = ground arith
head-ne h head p q (y ∷ ys) s o ne = ground arith

-- The table `u` differs from `t` in two cells: `q` has gone to the free slots, and `p` points past it.
pub record Dropped (t u : Table) (p b l q : ℕ) : Type 0 where
  pub head : u.hole_head ≡ t.hole_head
  pub free : u.free_slots ≡ q
  pub base_p : (u.hole p).h_base ≡ b
  pub len_p : (u.hole p).h_len ≡ l
  pub next_p : (u.hole p).h_next ≡ (t.hole q).h_next
  pub base_q : (u.hole q).h_base ≡ (t.hole q).h_base
  pub len_q : (u.hole q).h_len ≡ (t.hole q).h_len
  pub next_q : (u.hole q).h_next ≡ t.free_slots
  pub same : (a : Ptr) → a ≢ p → a ≢ q → u.hole a ≡ t.hole a

module _ (t : Table) (ys : Cells) (p b l q c m : ℕ) (zs fs : Cells)
    (v : At t ys (p, b, l) ((q, c, m) ∷ zs) fs) where
  open v use {before, not_nil, after, slots, once}

  pub q-apart :
      (q ≢ nil_hole)
      × (q ≢ p)
      × (occ q ys ≡ 0)
      × (occ q zs ≡ 0)
      × (occ q fs ≡ 0)
      × (occ p ys ≡ 0)
      × (occ p zs ≡ 0)
      × (occ p fs ≡ 0)
  unfolding occ
  q-apart = ground (arith, once p, once q)

  pub q-not_head : q ≢ t.hole_head
  q-not_head = head-ne t.hole t.hole_head p q ys before q-apart.2 q-apart.1

  pub Dropped-At :
      (u : Table) (b' l' : ℕ) → Dropped t u p b' l' q → At u ys (p, b', l') zs ((q, c, m) ∷ fs)
  unfolding occ
  Dropped-At u b' l' d =
      let (nq, ne, oqy, oqz, oqf, opy, opz, opf) = q-apart in
      record {
        before = rw d.head (spared t.hole_head p ys opy oqy before);
        not_nil = not_nil;
        base = d.base_p;
        len = d.len_p;
        after = rw d.next_p (spared (t.hole q).h_next nil_hole zs opz oqz after.4);
        slots = (
          d.free,
          nq,
          d.base_q ∙ after.2,
          d.len_q ∙ after.3,
          rw d.next_q (spared t.free_slots nil_hole fs opf oqf slots),
        );
        once = λ a. ground (arith, once a);
      }
    where
      spared :
          (from to : Ptr) (xs : Cells)
          → occ p xs ≡ 0
          → occ q xs ≡ 0
          → Seg t.hole from xs to
          → Seg u.hole from xs to
      spared from to xs op oq s =
          frame t.hole to u.hole from xs (λ a o. d.same a (ground arith) (ground arith)) s

  pub absorb-At :
      Returns (λ _ t'. At t' ys (p, b, (l + m) % clicks_mod) zs ((q, c, m) ∷ fs)) (absorb p q t)
  unfolding write
  absorb-At = rw (absorb-ok t p q not_nil q-apart.0 q-apart.1 q-not_head) (
      returns (
        Dropped-At (absorbed p q t) b ((l + m) % clicks_mod) (record {
          head = refl;
          free = refl;
          base_p = ground (arith, q-apart.1, v.base);
          len_p = ground (arith, q-apart.1, v.len, after.3);
          next_p = ground (arith, q-apart.1);
          base_q = ground (arith, q-apart.1);
          len_q = ground (arith, q-apart.1);
          next_q = ground (arith, q-apart.1);
          same = λ a ne ne'. ground arith;
        })))
