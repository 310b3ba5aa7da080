-- ===== src/Alloc/Policy.antt =====
-- `alloc_mem` of alloc.c under its two policies, over the whole state of the memory manager.
use soi_laboratoria_2025z.Base.{
  ℕ, zero, suc, ◌+◌, ◌-◌, ◌*◌, ◌≤◌, ◌<◌, ◌≡◌, refl, ◌⊎◌, inl, inr, true, false, Option, none, some,
  ok, Run, Cmd, arith, ltb, if◌then◌else◌, is_pos, Returns, returns, bind, and_then, pure, ◌>>=◌,
}
use soi_laboratoria_2025z.Alloc.Table.{nil_hole, Table, first_fit, worst_fit}
use soi_laboratoria_2025z.Alloc.Chain.{Cells}
use soi_laboratoria_2025z.Alloc.Carve.{TooSmall, TooSmall-FirstFit}
use soi_laboratoria_2025z.Alloc.Mm.{
  Config, Mm, lifted, lift, or_else, candidate, next_proc, swap_out_loop, swap_out, alloc_loop,
  alloc_mem, rounds,
}
use soi_laboratoria_2025z.Alloc.Memory.{
  View, WorstTaken, FirstTaken, worst_fit-takes, first_fit-takes,
}

-- Only the hole table differs.
abbrev pub SameButTable : Mm → Mm → Type 0
SameButTable s s' = s' ≡ record s { table = s'.table }

lifted-Returns :
    {A : Type 0} {P : A → Table → Type 0} (s : Mm) {r : Run Table A}
    → Returns P r
    → Returns (λ a s'. P a s'.table × SameButTable s s') (lifted s r)
unfolding lifted
lifted-Returns s (returns p) = returns (p, refl)

pub lift-Returns :
    {A : Type 0} {P : A → Table → Type 0} (m : Cmd Table A) (s : Mm)
    → Returns P (m s.table)
    → Returns (λ a s'. P a s'.table × SameButTable s s') (lift m s)
unfolding lift
lift-Returns m s r = lifted-Returns s r

module _ (k : Config) (s : Mm) (clicks : ℕ) where
  alloc_mem-worst :
      is_pos s.wf_mode 1 ≡ true
      → alloc_mem k clicks s
        ≡ and_then (lift (worst_fit (rounds k) clicks) s) (λ o. or_else o pure (pure k.no_mem))
  unfolding alloc_mem
  alloc_mem-worst e = rw e

  alloc_mem-first :
      is_pos s.wf_mode 1 ≡ false → alloc_mem k clicks s ≡ alloc_loop k (suc k.nr_procs) clicks s
  unfolding alloc_mem
  alloc_mem-first e = rw e

-- Worst fit at the level of `alloc_mem`: NO_MEM stands for the failure.
abbrev pub WorstPolicy : Config → ℕ → Mm → Cells → ℕ → Mm → Type 0
WorstPolicy k clicks s xs base s' =
    SameButTable s s'
    × (((base ≡ k.no_mem) × WorstTaken (2 * k.nr_procs) clicks s.table xs none s'.table)
        ⊎ WorstTaken (2 * k.nr_procs) clicks s.table xs (some base) s'.table)

-- In worst-fit mode `alloc_mem` returns. It takes the block from a hole that is long enough and at
-- least as long as every other that is, and carves it out of the free memory; or it returns NO_MEM,
-- no hole of a positive length is long enough, and nothing has changed.
pub alloc_mem-widest :
    (k : Config) (clicks : ℕ) (s : Mm) (v : View (2 * k.nr_procs) s.table)
    → is_pos s.wf_mode 1 ≡ true
    → Returns (WorstPolicy k clicks s v.xs) (alloc_mem k clicks s)
alloc_mem-widest k clicks s v mode = rw (alloc_mem-worst k s clicks mode) (
    bind
      (lift-Returns (worst_fit (rounds k) clicks) s
        (worst_fit-takes (2 * k.nr_procs) clicks s.table v))
      go)
  where
    go :
        (o : Option ℕ) (s' : Mm)
        → WorstTaken (2 * k.nr_procs) clicks s.table v.xs o s'.table × SameButTable s s'
        → Returns (WorstPolicy k clicks s v.xs) (or_else o pure (pure k.no_mem) s')
    go none s' w = returns (w.1, inl (refl, w.0))
    go (some base) s' w = returns (w.1, inr w.0)

-- What `alloc_mem` does when first fit finds nothing.
abbrev or_swap : Config → (fuel clicks : ℕ) → Cmd Mm ℕ
or_swap k fuel clicks =
    swap_out k >>= λ more. if more then alloc_loop k fuel clicks else pure k.no_mem

alloc_loop-first :
    (k : Config) (fuel clicks : ℕ) (s : Mm)
    → alloc_loop k (suc fuel) clicks s
      ≡ and_then
          (lift (first_fit (rounds k) s.swap_base clicks nil_hole s.table.hole_head) s)
          (λ o. or_else o pure (or_swap k fuel clicks))
unfolding alloc_loop
alloc_loop-first k fuel clicks s = refl

abbrev pub FirstPolicy : Config → ℕ → Mm → Cells → ℕ → Mm → Type 0
FirstPolicy k clicks s xs base s' =
    SameButTable s s' × FirstTaken (2 * k.nr_procs) s.swap_base clicks xs (some base) s'.table

-- Outside worst-fit mode, when a hole below `swap_base` is long enough, `alloc_mem` returns: it takes
-- the first such hole, carves the block out of the free memory, and swaps nothing out.
pub alloc_mem-first_fit :
    (k : Config) (clicks : ℕ) (s : Mm) (v : View (2 * k.nr_procs) s.table)
    → is_pos s.wf_mode 1 ≡ false
    → ¬ TooSmall s.swap_base clicks v.xs
    → Returns (FirstPolicy k clicks s v.xs) (alloc_mem k clicks s)
alloc_mem-first_fit k clicks s v mode some_fits =
    rw (alloc_mem-first k s clicks mode, alloc_loop-first k k.nr_procs clicks s)
      (bind
        (lift-Returns (first_fit (rounds k) s.swap_base clicks nil_hole s.table.hole_head) s
          (first_fit-takes (2 * k.nr_procs) s.swap_base clicks s.table v))
        go)
  where
    go :
        (o : Option ℕ) (s' : Mm)
        → FirstTaken (2 * k.nr_procs) s.swap_base clicks v.xs o s'.table × SameButTable s s'
        → Returns (FirstPolicy k clicks s v.xs) (or_else o pure (or_swap k k.nr_procs clicks) s')
    go none s' w = absurd (some_fits w.0.2)
    go (some base) s' w = returns (w.1, w.0)

module _ (k : Config) (s : Mm) (none_waits : (i : ℕ) → candidate (s.mproc i).flags ≡ false)
    (from : k.low_user ≤ s.outswap) (to : s.outswap < k.nr_procs) where
  -- The slots that the loop has still to look at.
  ahead : ℕ → ℕ
  ahead r = if ltb r s.outswap then s.outswap - r else (k.nr_procs - r) + (s.outswap - k.low_user)

  swap_out_loop-false :
      (fuel r : ℕ)
      → k.low_user ≤ r
      → r < k.nr_procs
      → ahead r < fuel
      → swap_out_loop k fuel r s ≡ ok false s
  unfolding swap_out_loop ahead
  swap_out_loop-false zero r lo hi h = absurd (omega arith)
  swap_out_loop-false (suc fuel) r lo hi h =
      ground (arith, none_waits (next_proc k r), swap_out_loop-false fuel (next_proc k r))

  swap_out-false : swap_out k s ≡ ok false s
  unfolding swap_out ahead
  swap_out-false = swap_out_loop-false (suc k.nr_procs) s.outswap from to (ground arith)

or_swap-no_mem :
    (k : Config) (s : Mm) (fuel clicks : ℕ)
    → swap_out k s ≡ ok false s
    → or_swap k fuel clicks s ≡ ok k.no_mem s
or_swap-no_mem k s fuel clicks e = rw e

abbrev pub Exhausted : Config → Mm → Cells → ℕ → Mm → Type 0
Exhausted k s xs base s' =
    (base ≡ k.no_mem) × SameButTable s s' × ((w : View (2 * k.nr_procs) s'.table) × (w.xs ≡ xs))

-- Outside worst-fit mode, when no hole below `swap_base` is long enough and no process may be swapped
-- out, the loops of `alloc_mem` and `swap_out` end, and `alloc_mem` returns NO_MEM with the hole list
-- and all other state as before.
pub alloc_mem-no_mem :
    (k : Config) (clicks : ℕ) (s : Mm) (v : View (2 * k.nr_procs) s.table)
    → is_pos s.wf_mode 1 ≡ false
    → TooSmall s.swap_base clicks v.xs
    → ((i : ℕ) → candidate (s.mproc i).flags ≡ false)
    → k.low_user ≤ s.outswap
    → s.outswap < k.nr_procs
    → Returns (Exhausted k s v.xs) (alloc_mem k clicks s)
alloc_mem-no_mem k clicks s v mode small none_waits lo hi =
    rw (alloc_mem-first k s clicks mode, alloc_loop-first k k.nr_procs clicks s)
      (bind
        (lift-Returns (first_fit (rounds k) s.swap_base clicks nil_hole s.table.hole_head) s
          (first_fit-takes (2 * k.nr_procs) s.swap_base clicks s.table v))
        go)
  where
    go :
        (o : Option ℕ) (s' : Mm)
        → FirstTaken (2 * k.nr_procs) s.swap_base clicks v.xs o s'.table × SameButTable s s'
        → Returns (Exhausted k s v.xs) (or_else o pure (or_swap k k.nr_procs clicks) s')
    go none s' w =
        let idle : (i : ℕ) → candidate (s'.mproc i).flags ≡ false = rw (w.1) none_waits in
        let ends = swap_out-false k s' idle (rw w.1 lo) (rw w.1 hi) in
        rw (or_swap-no_mem k s' k.nr_procs clicks ends) (returns (refl, w.1, (w.0.0, w.0.1)))
    go (some base) s' w =
        absurd (TooSmall-FirstFit s.swap_base clicks base v.xs w.0.0.0 small w.0.0.1)
