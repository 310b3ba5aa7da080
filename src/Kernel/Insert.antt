-- ===== src/Kernel/Insert.antt =====
-- `ready` of kernel/proc.c for a user process of group 3.
use soi_laboratoria_2025z.Base.{
  ℕ, ◌<◌, ◌≡◌, ◌≢◌, inl, inr, refl, sym, ap, ◌∙◌, true, false, List, [], ◌∷◌, arith, ltb, ◌==◌,
  if◌then◌else◌, Bool-cases, ok, length, Returns, returns, mono,
}
use soi_laboratoria_2025z.Kernel.Defs.{
  Ptr, nil_proc, Proc, State, g3, ppri_user, write, seek_estimate, same_queue, is_user,
}
use soi_laboratoria_2025z.Kernel.Sched.{insert_by_estimate, tail_if_last, ready, ready_with_group}
use soi_laboratoria_2025z.Kernel.Chain.{Chain, In}
use soi_laboratoria_2025z.Kernel.Estimate.{
  Fresh, Once, AtLeast, Sorted, insert_sorted, seek_list, seek_estimate-run, seek_list-In,
  seek_list_below, seek_list_above, seek_list-end, insert_sorted_below, insert_sorted_above,
  insert_sorted-end, linked, linked_estimate, Sorted-insert_sorted, behind-Chain, Fresh-In,
}

-- The table and the head of the queue of group 3 are those of `t` and `p`.
abbrev HasHead : (Ptr → Proc) → Ptr → State → Type 0
HasHead t p s = (s.proc ≡ t) × ((s.queue g3).head ≡ p)

pub tail_if_last-HasHead :
    (s : State) (rp : Ptr)
    → rp ≢ nil_proc
    → Returns (λ _ s'. HasHead s.proc (s.queue g3).head s') (tail_if_last rp s)
unfolding tail_if_last
tail_if_last-HasHead s rp ne = elim (Bool-cases ((s.proc rp).p_nextready == nil_proc)) [
  | inl last ↦ rw (not_nil, last) (returns (refl, refl))
  | inr more ↦ rw (not_nil, more) (returns (refl, refl))
]
  where
    not_nil : (rp == nil_proc) ≡ false
    not_nil = ground arith

-- `rp` as the head of group 3.
abbrev with_head : State → (Ptr → Proc) → Ptr → State
with_head s t p = record s {
  proc = t;
  queue = λ j. if same_queue j g3 then record (s.queue g3) { head = p } else s.queue j;
}

module _ (s : State) (fuel : ℕ) (rp : Ptr) (ne : rp ≢ nil_proc) where
  pub insert_front :
      seek_estimate fuel (s.proc rp).cpu_estimate nil_proc (s.queue g3).head s ≡ ok nil_proc s
      → insert_by_estimate fuel rp s
        ≡ tail_if_last rp (
            with_head s
              (write s.proc rp (record (s.proc rp) { p_nextready = (s.queue g3).head }))
              rp)
  unfolding insert_by_estimate
  insert_front run = ground (arith, run)

  pub insert_behind :
      (q : Ptr)
      → q ≢ nil_proc
      → q ≢ rp
      → seek_estimate fuel (s.proc rp).cpu_estimate nil_proc (s.queue g3).head s ≡ ok q s
      → insert_by_estimate fuel rp s ≡ tail_if_last rp (record s { proc = linked s.proc rp q })
  unfolding insert_by_estimate linked
  insert_behind q qn qr run = ground (arith, run)

Sorted-linked :
    (t t' : Ptr → Proc)
    → ((a : Ptr) → (t' a).cpu_estimate ≡ (t a).cpu_estimate)
    → (xs : List Ptr) → Sorted t xs
    → Sorted t' xs
Sorted-linked t t' same [] h = tt
Sorted-linked t t' same (x ∷ xs) h = (rest xs h.0, Sorted-linked t t' same xs h.1)
  where
    rest : (ys : List Ptr) → AtLeast t (t x).cpu_estimate ys → AtLeast t' (t' x).cpu_estimate ys
    rest [] g = tt
    rest (y ∷ ys) g = (omega (arith, g.0, same x, same y), rest ys g.1)

write-at : (t : Ptr → Proc) (p : Ptr) (v : Proc) → write t p v p ≡ v
unfolding write
write-at t p v = ground arith

write-other : (t : Ptr → Proc) (p a : Ptr) (v : Proc) → p ≢ a → write t p v a ≡ t a
unfolding write
write-other t p a v h = ground arith

write_estimate :
    (t : Ptr → Proc) (p q a : Ptr)
    → (write t p (record (t p) { p_nextready = q }) a).cpu_estimate ≡ (t a).cpu_estimate
unfolding write
write_estimate t p q a = ground arith

pub In-Chain : (t : Ptr → Proc) (p r : Ptr) (xs : List Ptr) → Chain t p xs → In r xs → r ≢ nil_proc
In-Chain t p r [] c i = absurd i
In-Chain t p r (x ∷ xs) c (inl e) = λ h. c.1 (sym e ∙ h)
In-Chain t p r (x ∷ xs) c (inr i) = In-Chain t (t x).p_nextready r xs c.2 i

-- What `ready` leaves of group 3.
abbrev pub SortedQueue : State → List Ptr → Type 0
SortedQueue s xs = Chain s.proc (s.queue g3).head xs × Sorted s.proc xs

module _ (s : State) (fuel : ℕ) (rp : Ptr) (ne : rp ≢ nil_proc) where
  front-Chain :
      (xs : List Ptr)
      → Chain s.proc (s.queue g3).head xs
      → Fresh rp xs
      → Chain
          (write s.proc rp (record (s.proc rp) { p_nextready = (s.queue g3).head }))
          rp
          (rp ∷ xs)
  front-Chain xs c f = (refl, ne, rw here (kept (s.queue g3).head xs c f))
    where
      t' : Ptr → Proc
      t' = write s.proc rp (record (s.proc rp) { p_nextready = (s.queue g3).head })

      p_next : Proc → Ptr
      p_next v = v.p_nextready

      here : (t' rp).p_nextready ≡ (s.queue g3).head
      here = ap p_next (write-at s.proc rp (record (s.proc rp) { p_nextready = (s.queue g3).head }))

      kept : (p : Ptr) (ys : List Ptr) → Chain s.proc p ys → Fresh rp ys → Chain t' p ys
      kept p [] d g = d
      kept p (y ∷ ys) d g = (
        d.0,
        d.1,
        rw (write-other s.proc rp y (record (s.proc rp) { p_nextready = (s.queue g3).head }) g.0)
            (kept (s.proc y).p_nextready ys d.2 g.1),
      )

  HasHead-Sorted :
      (t : Ptr → Proc) (p : Ptr) (xs : List Ptr)
      → Chain t p xs
      → Sorted t xs
      → (s' : State) → HasHead t p s'
      → SortedQueue s' xs
  HasHead-Sorted t p xs c o s' h = rw (h.0, h.1) (c, o)

  Sorted-new :
      (t : Ptr → Proc) (xs : List Ptr)
      → ((a : Ptr) → (t a).cpu_estimate ≡ (s.proc a).cpu_estimate)
      → Sorted s.proc xs
      → Sorted t (insert_sorted s.proc rp xs)
  Sorted-new t xs same h =
      Sorted-linked s.proc t same (insert_sorted s.proc rp xs) (Sorted-insert_sorted s.proc rp xs h)

  as_front :
      (xs : List Ptr)
      → insert_sorted s.proc rp xs ≡ rp ∷ xs
      → seek_list s.proc (s.proc rp).cpu_estimate nil_proc xs ≡ nil_proc
      → Chain s.proc (s.queue g3).head xs
      → Fresh rp xs
      → Sorted s.proc xs
      → length xs < fuel
      → Returns (λ _ s'. SortedQueue s' (insert_sorted s.proc rp xs)) (insert_by_estimate fuel rp s)
  unfolding same_queue
  as_front xs at nothing c f h lt =
      let n = (s.proc rp).cpu_estimate in
      let t : Ptr → Proc =
        write s.proc rp (record (s.proc rp) { p_nextready = (s.queue g3).head }) in
      rw
        (insert_front s fuel rp ne (
          seek_estimate-run s xs fuel n nil_proc (s.queue g3).head c lt ∙ ap (λ q. ok q s) nothing))
        (mono (tail_if_last-HasHead (with_head s t rp) rp ne) (λ _ s' hh.
          HasHead-Sorted t rp (insert_sorted s.proc rp xs) (rw at (front-Chain xs c f))
            (Sorted-new t xs (λ a. write_estimate s.proc rp (s.queue g3).head a) h) s' hh))

  as_behind :
      (x : Ptr) (xs : List Ptr)
      → ltb (s.proc x).cpu_estimate (s.proc rp).cpu_estimate ≡ true
      → Chain s.proc (s.queue g3).head (x ∷ xs)
      → Once (x ∷ xs)
      → Fresh rp (x ∷ xs)
      → Sorted s.proc (x ∷ xs)
      → length (x ∷ xs) < fuel
      → Returns
          (λ _ s'. SortedQueue s' (insert_sorted s.proc rp (x ∷ xs)))
          (insert_by_estimate fuel rp s)
  as_behind x xs below c o f h lt =
      let n = (s.proc rp).cpu_estimate in
      let q = seek_list s.proc n x xs in
      let place : In q (x ∷ xs) = seek_list-In s.proc n x xs in
      rw
        (insert_behind s fuel rp ne q (In-Chain s.proc (s.queue g3).head q (x ∷ xs) c place)
          (Fresh-In rp q (x ∷ xs) f place)
          (seek_estimate-run s (x ∷ xs) fuel n nil_proc (s.queue g3).head c lt
            ∙ ap (λ r. ok r s) (seek_list_below s.proc n nil_proc x xs below)))
        (mono (tail_if_last-HasHead (record s { proc = linked s.proc rp q }) rp ne) (λ _ s' hh.
          HasHead-Sorted (linked s.proc rp q) (s.queue g3).head (insert_sorted s.proc rp (x ∷ xs))
            (rw (insert_sorted_below s.proc rp x xs below) (
              c.0,
              c.1,
              behind-Chain s.proc rp x (s.proc x).p_nextready xs ne f.0 f.1 o.0 o.1 refl c.2,
            ))
            (Sorted-new (linked s.proc rp q) (x ∷ xs) (linked_estimate s.proc rp q) h) s' hh))

  insert_by_estimate-Sorted :
      (xs : List Ptr)
      → Chain s.proc (s.queue g3).head xs
      → Once xs
      → Fresh rp xs
      → Sorted s.proc xs
      → length xs < fuel
      → Returns (λ _ s'. SortedQueue s' (insert_sorted s.proc rp xs)) (insert_by_estimate fuel rp s)
  insert_by_estimate-Sorted [] c o f h lt =
      as_front [] (insert_sorted-end s.proc rp)
        (seek_list-end s.proc (s.proc rp).cpu_estimate nil_proc) c f h lt
  insert_by_estimate-Sorted (x ∷ xs) c o f h lt =
      elim (Bool-cases (ltb (s.proc x).cpu_estimate (s.proc rp).cpu_estimate)) [
        | inl below ↦ as_behind x xs below c o f h lt
        | inr above ↦
            as_front (x ∷ xs) (insert_sorted_above s.proc rp x xs above)
              (seek_list_above s.proc (s.proc rp).cpu_estimate nil_proc x xs above) c f h lt
      ]

ready_of_group3 :
    (s : State) (fuel : ℕ) (rp : Ptr)
    → rp ≢ nil_proc
    → (s.proc rp).p_priority ≡ ppri_user
    → (s.proc rp).sched_group ≡ 3
    → ready fuel rp s ≡ insert_by_estimate fuel rp s
unfolding ready ready_with_group is_user
ready_of_group3 s fuel rp ne user three = ground (arith, user, three)

-- `ready` of a user process of group 3 that is not in the queue, with fuel above the length of the queue,
-- returns, and the queue of group 3, sorted by `cpu_estimate` before, is sorted after: it is the one before
-- with `rp` put in front of the first process whose estimate is not below its own.
pub ready-SortedQueue :
    (s : State) (fuel : ℕ) (rp : Ptr) (xs : List Ptr)
    → rp ≢ nil_proc
    → (s.proc rp).p_priority ≡ ppri_user
    → (s.proc rp).sched_group ≡ 3
    → SortedQueue s xs
    → Once xs
    → Fresh rp xs
    → length xs < fuel
    → Returns (λ _ s'. SortedQueue s' (insert_sorted s.proc rp xs)) (ready fuel rp s)
ready-SortedQueue s fuel rp xs ne user three q o f lt =
    rw (ready_of_group3 s fuel rp ne user three)
      (insert_by_estimate-Sorted s fuel rp ne xs q.0 o f q.1 lt)
