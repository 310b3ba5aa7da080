-- ===== src/Kernel/Chain.antt =====
-- Chains of ready processes in kernel/proc.c, and the walk along one for the longest wait.
use soi_laboratoria_2025z.Base.{
  ℕ, zero, suc, ◌≤◌, ◌<◌, ◌≡◌, ◌≢◌, ◌⊎◌, inl, inr, refl, List, [], ◌∷◌, arith, ltb, if◌then◌else◌,
  Bool-cases, ok, length,
}
use soi_laboratoria_2025z.Kernel.Defs.{Ptr, nil_proc, Proc, State, longest_wait}

-- The processes `xs` follow each other by `p_nextready` from `p` on, and no other.
abbrev pub Chain : (Ptr → Proc) → Ptr → List Ptr → Type 0
Chain t p [] = p ≡ nil_proc
Chain t p (x ∷ xs) = (p ≡ x) × (x ≢ nil_proc) × Chain t (t x).p_nextready xs

abbrev pub In : Ptr → List Ptr → Type 0
In p [] = ⊥
In p (x ∷ xs) = (p ≡ x) ⊎ In p xs

-- No process of the list has waited longer than `w`.
abbrev pub Waits : (Ptr → Proc) → ℕ → List Ptr → Type 0
Waits t w [] = Unit
Waits t w (x ∷ xs) = ((t x).wait_ticks ≤ w) × Waits t w xs

longest_wait-step :
    (s : State) (fuel : ℕ) (rp x : Ptr)
    → rp ≢ nil_proc
    → x ≢ nil_proc
    → longest_wait (suc fuel) rp x s
      ≡ longest_wait fuel
          (if ltb (s.proc rp).wait_ticks (s.proc x).wait_ticks then x else rp)
          (s.proc x).p_nextready
          s
unfolding longest_wait
longest_wait-step s fuel rp x h g = ground arith

longest_wait-end :
    (s : State) (fuel : ℕ) (rp : Ptr) → longest_wait (suc fuel) rp nil_proc s ≡ ok rp s
unfolding longest_wait
longest_wait-end s fuel rp = ground arith

-- The walk returns `rp` or a process of the chain, and none of them has waited longer.
pub longest_wait-result :
    (s : State) (xs : List Ptr) (fuel : ℕ) (rp cur : Ptr)
    → Chain s.proc cur xs
    → rp ≢ nil_proc
    → length xs < fuel
    → (r : Ptr) × (longest_wait fuel rp cur s ≡ ok r s)
      × (r ≢ nil_proc)
      × ((r ≡ rp) ⊎ In r xs)
      × ((s.proc rp).wait_ticks ≤ (s.proc r).wait_ticks)
      × Waits s.proc (s.proc r).wait_ticks xs
longest_wait-result s xs zero rp cur c h lt = absurd (omega arith)
longest_wait-result s [] (suc fuel) rp cur c h lt =
    (rp, rw c (longest_wait-end s fuel rp), h, inl refl, omega arith, tt)
longest_wait-result s (x ∷ xs) (suc fuel) rp cur c h lt =
    elim (Bool-cases (ltb (s.proc rp).wait_ticks (s.proc x).wait_ticks)) [
      | inl longer ↦
          let (r, run, ne, place, le, all) =
            longest_wait-result s xs fuel x (s.proc x).p_nextready c.2 c.1 (omega arith) in
          (
            r,
            rw (c.0, longest_wait-step s fuel rp x h c.1, longer) run,
            ne,
            inr (flat r xs place),
            ground arith,
            (le, all),
          )
      | inr shorter ↦
          let (r, run, ne, place, le, all) =
            longest_wait-result s xs fuel rp (s.proc x).p_nextready c.2 h (omega arith) in
          (
            r,
            rw (c.0, longest_wait-step s fuel rp x h c.1, shorter) run,
            ne,
            later place,
            le,
            (ground arith, all),
          )
    ]
  where
    later : {r : Ptr} → (r ≡ rp) ⊎ In r xs → (r ≡ rp) ⊎ In r (x ∷ xs)
    later (inl e) = inl e
    later (inr e) = inr (inr e)

    flat : (r : Ptr) (ys : List Ptr) → (r ≡ x) ⊎ In r ys → In r (x ∷ ys)
    flat r ys h = h

-- A chain in a table with the same links.
pub Chain-kept :
    (t u : Ptr → Proc)
    → ((a : Ptr) → (u a).p_nextready ≡ (t a).p_nextready)
    → (p : Ptr) (xs : List Ptr) → Chain t p xs
    → Chain u p xs
Chain-kept t u same p [] c = c
Chain-kept t u same p (x ∷ xs) c =
    (c.0, c.1, rw (same x) (Chain-kept t u same (t x).p_nextready xs c.2))
