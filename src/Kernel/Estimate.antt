-- ===== src/Kernel/Estimate.antt =====
-- Shortest job first: the queue of group 3 of kernel/proc.c stays sorted by `cpu_estimate`.
use mathlib.Core.Path.{subst}
use soi_laboratoria_2025z.Base.{
  ℕ, zero, suc, ◌≤◌, ◌<◌, ◌≡◌, ◌≢◌, ◌⊎◌, inl, inr, refl, sym, ap, ◌∙◌, true, false, List, [], ◌∷◌,
  arith, ltb, if◌then◌else◌, Bool-cases, ok, length,
}
use soi_laboratoria_2025z.Kernel.Defs.{Ptr, nil_proc, Proc, State, write, seek_estimate}
use soi_laboratoria_2025z.Kernel.Chain.{Chain, In}

-- `a` is not in the list.
abbrev pub Fresh : Ptr → List Ptr → Type 0
Fresh a [] = Unit
Fresh a (x ∷ xs) = (a ≢ x) × Fresh a xs

-- No process stands twice in the list.
abbrev pub Once : List Ptr → Type 0
Once [] = Unit
Once (x ∷ xs) = Fresh x xs × Once xs

abbrev pub AtLeast : (Ptr → Proc) → ℕ → List Ptr → Type 0
AtLeast t n [] = Unit
AtLeast t n (x ∷ xs) = (n ≤ (t x).cpu_estimate) × AtLeast t n xs

-- The list is sorted by `cpu_estimate`.
abbrev pub Sorted : (Ptr → Proc) → List Ptr → Type 0
Sorted t [] = Unit
Sorted t (x ∷ xs) = AtLeast t (t x).cpu_estimate xs × Sorted t xs

-- `rp` before the first process with an estimate that is not below its own.
unfoldable pub insert_sorted : (Ptr → Proc) → Ptr → List Ptr → List Ptr
insert_sorted t rp [] = rp ∷ []
insert_sorted t rp (x ∷ xs) =
    let rest = insert_sorted t rp xs in
    if ltb (t x).cpu_estimate (t rp).cpu_estimate then x ∷ rest else rp ∷ x ∷ xs

-- The last process with an estimate below `n` at the front of the list.
pub seek_list : (Ptr → Proc) → ℕ → Ptr → List Ptr → Ptr
seek_list t n prev [] = prev
seek_list t n prev (x ∷ xs) =
    let rest = seek_list t n x xs in if ltb (t x).cpu_estimate n then rest else prev

seek_estimate-end :
    (s : State) (fuel n : ℕ) (prev : Ptr) → seek_estimate (suc fuel) n prev nil_proc s ≡ ok prev s
unfolding seek_estimate
seek_estimate-end s fuel n prev = ground arith

seek_estimate-step :
    (s : State) (fuel n : ℕ) (prev x : Ptr)
    → x ≢ nil_proc
    → seek_estimate (suc fuel) n prev x s ≡ (
        if ltb (s.proc x).cpu_estimate n
        then seek_estimate fuel n x (s.proc x).p_nextready s
        else ok prev s)
unfolding seek_estimate
seek_estimate-step s fuel n prev x h = ground arith

pub seek_estimate-run :
    (s : State) (xs : List Ptr) (fuel n : ℕ) (prev cur : Ptr)
    → Chain s.proc cur xs
    → length xs < fuel
    → seek_estimate fuel n prev cur s ≡ ok (seek_list s.proc n prev xs) s
unfolding seek_list
seek_estimate-run s xs zero n prev cur c lt = absurd (omega arith)
seek_estimate-run s [] (suc fuel) n prev cur c lt = rw c (seek_estimate-end s fuel n prev)
seek_estimate-run s (x ∷ xs) (suc fuel) n prev cur c lt =
    rw (c.0, seek_estimate-step s fuel n prev x c.1)
      (elim (Bool-cases (ltb (s.proc x).cpu_estimate n)) [
        | inl below ↦
            rw (below, seek_estimate-run s xs fuel n x (s.proc x).p_nextready c.2 (omega arith))
              refl
        | inr above ↦ rw above refl
      ])

module _ (t : Ptr → Proc) (n : ℕ) (prev x : Ptr) (xs : List Ptr) where
  pub seek_list_below :
      ltb (t x).cpu_estimate n ≡ true → seek_list t n prev (x ∷ xs) ≡ seek_list t n x xs
  unfolding seek_list
  seek_list_below h = rw h refl

  pub seek_list_above : ltb (t x).cpu_estimate n ≡ false → seek_list t n prev (x ∷ xs) ≡ prev
  unfolding seek_list
  seek_list_above h = rw h refl

module _ (t : Ptr → Proc) (rp x : Ptr) (xs : List Ptr) where
  pub insert_sorted_below :
      ltb (t x).cpu_estimate (t rp).cpu_estimate ≡ true
      → insert_sorted t rp (x ∷ xs) ≡ x ∷ insert_sorted t rp xs
  unfolding insert_sorted
  insert_sorted_below h = rw h refl

  pub insert_sorted_above :
      ltb (t x).cpu_estimate (t rp).cpu_estimate ≡ false → insert_sorted t rp (x ∷ xs) ≡ rp ∷ x ∷ xs
  unfolding insert_sorted
  insert_sorted_above h = rw h refl

pub seek_list-end : (t : Ptr → Proc) (n : ℕ) (prev : Ptr) → seek_list t n prev [] ≡ prev
unfolding seek_list
seek_list-end t n prev = refl

pub insert_sorted-end : (t : Ptr → Proc) (rp : Ptr) → insert_sorted t rp [] ≡ rp ∷ []
unfolding insert_sorted
insert_sorted-end t rp = refl

pub seek_list-In :
    (t : Ptr → Proc) (n : ℕ) (prev : Ptr) (xs : List Ptr)
    → (seek_list t n prev xs ≡ prev) ⊎ In (seek_list t n prev xs) xs
seek_list-In t n prev [] = inl (seek_list-end t n prev)
seek_list-In t n prev (x ∷ xs) = elim (Bool-cases (ltb (t x).cpu_estimate n)) [
  | inl below ↦
      subst (λ r. (r ≡ prev) ⊎ In r (x ∷ xs)) (sym (seek_list_below t n prev x xs below))
        (inr (later (seek_list t n x xs) (seek_list-In t n x xs)))
  | inr above ↦ rw (seek_list_above t n prev x xs above) (inl refl)
]
  where
    later : (r : Ptr) → (r ≡ x) ⊎ In r xs → In r (x ∷ xs)
    later r h = h

pub Fresh-In : (a r : Ptr) (xs : List Ptr) → Fresh a xs → In r xs → r ≢ a
Fresh-In a r [] f i = absurd i
Fresh-In a r (x ∷ xs) f (inl e) = λ h. f.0 (sym h ∙ e)
Fresh-In a r (x ∷ xs) f (inr i) = Fresh-In a r xs f.1 i

-- The table after `rp` is linked in behind `q`.
unfoldable pub linked : (Ptr → Proc) → (rp q : Ptr) → Ptr → Proc
linked t rp q =
    write (write t rp (record (t rp) { p_nextready = (t q).p_nextready })) q
      (record (t q) { p_nextready = rp })

linked-other : (t : Ptr → Proc) (rp q a : Ptr) → a ≢ rp → a ≢ q → linked t rp q a ≡ t a
unfolding write linked
linked-other t rp q a h g = ground arith

linked-new :
    (t : Ptr → Proc) (rp q : Ptr) → rp ≢ q → (linked t rp q rp).p_nextready ≡ (t q).p_nextready
unfolding write linked
linked-new t rp q h = ground arith

linked-at : (t : Ptr → Proc) (rp q : Ptr) → (linked t rp q q).p_nextready ≡ rp
unfolding write linked
linked-at t rp q = ground arith

pub linked-Chain :
    (t : Ptr → Proc) (rp q p : Ptr) (xs : List Ptr)
    → Fresh rp xs
    → Fresh q xs
    → Chain t p xs
    → Chain (linked t rp q) p xs
linked-Chain t rp q p [] f g c = c
linked-Chain t rp q p (x ∷ xs) f g c = (
  c.0,
  c.1,
  rw (linked-other t rp q x (λ e. f.0 (sym e)) (λ e. g.0 (sym e)))
      (linked-Chain t rp q (t x).p_nextready xs f.1 g.1 c.2),
)

pub behind-Chain :
    (t : Ptr → Proc) (rp prev p : Ptr) (xs : List Ptr)
    → rp ≢ nil_proc
    → rp ≢ prev
    → Fresh rp xs
    → Fresh prev xs
    → Once xs
    → (t prev).p_nextready ≡ p
    → Chain t p xs
    → Chain
        (linked t rp (seek_list t (t rp).cpu_estimate prev xs))
        (linked t rp (seek_list t (t rp).cpu_estimate prev xs) prev).p_nextready
        (insert_sorted t rp xs)
behind-Chain t rp prev p [] ne np f g o e c =
    rw (seek_list-end t (t rp).cpu_estimate prev, insert_sorted-end t rp)
      (linked-at t rp prev, ne, linked-new t rp prev np ∙ e ∙ c)
behind-Chain t rp prev p (x ∷ xs) ne np f g o e c =
    elim (Bool-cases (ltb (t x).cpu_estimate (t rp).cpu_estimate)) [
      | inl below ↦
          rw
            (
              seek_list_below t (t rp).cpu_estimate prev x xs below,
              insert_sorted_below t rp x xs below,
            )
            (
              ap p_next (
                    linked-other t rp (seek_list t (t rp).cpu_estimate x xs) prev (λ h. np (sym h))
                      (λ h.
                        Fresh-In prev (seek_list t (t rp).cpu_estimate x xs) (x ∷ xs) g
                          (found (seek_list t (t rp).cpu_estimate x xs)
                            (seek_list-In t (t rp).cpu_estimate x xs))
                          (sym h)))
                  ∙ e
                  ∙ c.0,
              c.1,
              behind-Chain t rp x (t x).p_nextready xs ne f.0 f.1 o.0 o.1 refl c.2,
            )
      | inr above ↦
          rw
            (
              seek_list_above t (t rp).cpu_estimate prev x xs above,
              insert_sorted_above t rp x xs above,
            )
            (
              linked-at t rp prev,
              ne,
              rw (linked-new t rp prev np, e) (linked-Chain t rp prev p (x ∷ xs) f g c),
            )
    ]
  where
    found : (r : Ptr) → (r ≡ x) ⊎ In r xs → In r (x ∷ xs)
    found r h = h

    p_next : Proc → Ptr
    p_next v = v.p_nextready

AtLeast-le : (t : Ptr → Proc) (m n : ℕ) (xs : List Ptr) → m ≤ n → AtLeast t n xs → AtLeast t m xs
AtLeast-le t m n [] h a = tt
AtLeast-le t m n (x ∷ xs) h a = (omega (arith, a.0), AtLeast-le t m n xs h a.1)

AtLeast-insert_sorted :
    (t : Ptr → Proc) (rp : Ptr) (m : ℕ) (xs : List Ptr)
    → m ≤ (t rp).cpu_estimate
    → AtLeast t m xs
    → AtLeast t m (insert_sorted t rp xs)
AtLeast-insert_sorted t rp m [] h a = rw (insert_sorted-end t rp) (h, tt)
AtLeast-insert_sorted t rp m (x ∷ xs) h a =
    elim (Bool-cases (ltb (t x).cpu_estimate (t rp).cpu_estimate)) [
      | inl below ↦
          rw (insert_sorted_below t rp x xs below) (a.0, AtLeast-insert_sorted t rp m xs h a.1)
      | inr above ↦ rw (insert_sorted_above t rp x xs above) (h, a)
    ]

pub Sorted-insert_sorted :
    (t : Ptr → Proc) (rp : Ptr) (xs : List Ptr) → Sorted t xs → Sorted t (insert_sorted t rp xs)
Sorted-insert_sorted t rp [] s = rw (insert_sorted-end t rp) (tt, tt)
Sorted-insert_sorted t rp (x ∷ xs) s =
    elim (Bool-cases (ltb (t x).cpu_estimate (t rp).cpu_estimate)) [
      | inl below ↦ rw (insert_sorted_below t rp x xs below) (
        AtLeast-insert_sorted t rp (t x).cpu_estimate xs (ground arith) s.0,
        Sorted-insert_sorted t rp xs s.1,
      )
      | inr above ↦ rw (insert_sorted_above t rp x xs above) (
        (ground arith, AtLeast-le t (t rp).cpu_estimate (t x).cpu_estimate xs (ground arith) s.0),
        s,
      )
    ]

pub linked_estimate :
    (t : Ptr → Proc) (rp q a : Ptr) → (linked t rp q a).cpu_estimate ≡ (t a).cpu_estimate
unfolding linked write
linked_estimate t rp q a = ground arith
