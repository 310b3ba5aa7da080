-- ===== src/Alloc/Examples.antt =====
-- The theorems on alloc.c at a table of four slots with the holes 10..14 and 20..27.
use soi_laboratoria_2025z.Base.{
  ℕ, zero, suc, ◌≤◌, ◌≡◌, refl, false, some, [], ◌∷◌, arith, ok, fault, ◌==◌, if◌then◌else◌, pos,
  Run, Returns,
}
use soi_laboratoria_2025z.Alloc.Table.{Hole, Table, write, free_mem}
use soi_laboratoria_2025z.Alloc.Chain.{Cells, occ, Holds}
use soi_laboratoria_2025z.Alloc.Space.{Spaced}
use soi_laboratoria_2025z.Alloc.Mm.{Config, Flags, Mproc, Mm, alloc_mem}
use soi_laboratoria_2025z.Alloc.Swapin.{hole_map, drop_swap}
use soi_laboratoria_2025z.Alloc.Memory.{View, Freed, free_mem-frees}
use soi_laboratoria_2025z.Alloc.Policy.{
  WorstPolicy, FirstPolicy, Exhausted, alloc_mem-widest, alloc_mem-first_fit, alloc_mem-no_mem,
}
use soi_laboratoria_2025z.Alloc.RoundTrip.{alloc_mem-in_swap}
use soi_laboratoria_2025z.Alloc.HoleMap.{pairs, listed, MapFits, hole_map-pairs, drop_swap-fault}

abbrev entry : ℕ → ℕ → ℕ → Hole
entry n b l = record { h_next = n; h_base = b; h_len = l }

abbrev two_holes : Table
two_holes = record {
  hole = λ p.
      if p == 1
      then entry 2 10 5
      else if p == 2
      then entry 0 20 8
      else if p == 3
      then entry 4 0 0
      else entry 0 0 0;
  hole_head = 1;
  free_slots = 3;
}

abbrev two_cells : Cells
two_cells = (1, 10, 5) ∷ (2, 20, 8) ∷ []

two_cells-Holds : Holds two_holes two_cells ((3, 0, 0) ∷ (4, 0, 0) ∷ [])
unfolding occ
two_cells-Holds = record {
  chain = (refl, omega arith, refl, refl, (refl, omega arith, refl, refl, refl));
  slots = (refl, omega arith, refl, refl, (refl, omega arith, refl, refl, refl));
  once = λ a. ground arith;
}

two_cells-Spaced : Spaced 0 two_cells
two_cells-Spaced = omega arith

abbrev two_view : View 4 two_holes
two_view = record {
  xs = two_cells;
  fs = (3, 0, 0) ∷ (4, 0, 0) ∷ [];
  holds = two_cells-Holds;
  spaced = two_cells-Spaced;
  count = refl;
}

-- The block between the two holes joins them.
free_mem-frees_example : Returns (Freed 4 15 5 two_cells) (free_mem 5 15 5 two_holes)
free_mem-frees_example =
    free_mem-frees 4 15 5 two_holes two_view (omega arith) (omega arith) (omega arith) (omega arith)

-- What the hole list of a table is, from the head on.
walk : ℕ → ℕ → Table → Cells
walk zero p t = []
walk (suc n) p t =
    let rest = walk n (t.hole p).h_next t in
    if p == 0 then [] else (p, (t.hole p).h_base, (t.hole p).h_len) ∷ rest

holes_after : Run Table (Unit {0}) → Cells
unfolding walk
holes_after (ok _ t) = walk 5 t.hole_head t
holes_after _ = []

free_mem_joins : holes_after (free_mem 5 15 5 two_holes) ≡ (1, 10, 18) ∷ []
unfolding holes_after free_mem write
free_mem_joins = refl

abbrev config : Config
config = record { nr_procs = 2; low_user = 0; no_mem = 0; click_shift = 12 }

abbrev idle_flags : Flags
idle_flags = record {
  paused = false;
  waiting = false;
  sigsuspended = false;
  traced = false;
  reply = false;
  onswap = false;
  swapin = false;
}

abbrev idle_proc : Mproc
idle_proc = record {
  flags = idle_flags;
  d_phys = 0;
  d_vir = 0;
  s_phys = 0;
  s_vir = 0;
  s_len = 0;
  mp_swapq = 0;
}

-- The manager with the mode `m` and the swap area from `base` on.
abbrev manager : ℕ → ℕ → Mm
manager m base = record {
  table = two_holes;
  wf_mode = pos m;
  swap_open = false;
  swap_offset = 0;
  swap_base = base;
  swap_maxsize = 0;
  in_queue = 0;
  outswap = 0;
  mproc = λ _. idle_proc;
  calls = [];
}

base_of : Run Mm ℕ → ℕ
base_of (ok a _) = a
base_of _ = 1000

alloc_mem_worst : base_of (alloc_mem config 3 (manager 1 100)) ≡ 20
unfolding base_of alloc_mem write
alloc_mem_worst = refl

alloc_mem_first : base_of (alloc_mem config 3 (manager 0 100)) ≡ 10
unfolding base_of alloc_mem write
alloc_mem_first = refl

alloc_mem-widest_example :
    Returns (WorstPolicy config 3 (manager 1 100) two_cells) (alloc_mem config 3 (manager 1 100))
alloc_mem-widest_example = alloc_mem-widest config 3 (manager 1 100) two_view refl

alloc_mem-first_fit_example :
    Returns (FirstPolicy config 3 (manager 0 100) two_cells) (alloc_mem config 3 (manager 0 100))
alloc_mem-first_fit_example =
    alloc_mem-first_fit config 3 (manager 0 100) two_view refl (λ h. omega arith)

alloc_mem-no_mem_example :
    Returns (Exhausted config (manager 0 100) two_cells) (alloc_mem config 9 (manager 0 100))
alloc_mem-no_mem_example =
    alloc_mem-no_mem config 9 (manager 0 100) two_view refl (omega arith) (λ i. refl) (omega arith)
      (omega arith)

alloc_mem-in_swap_example : Returns (λ base _. 20 ≤ base) (alloc_mem config 6 (manager 1 20))
alloc_mem-in_swap_example =
    alloc_mem-in_swap config 6 (manager 1 20) two_view refl (omega arith) (λ h. omega arith)

hole_map-pairs_example :
    (hole_map 5 (pos 24) two_holes ≡ ok (some (5 ∷ 10 ∷ 8 ∷ 20 ∷ 0 ∷ 0 ∷ [], 2)) two_holes)
    × MapFits 24 (5 ∷ 10 ∷ 8 ∷ 20 ∷ 0 ∷ 0 ∷ []) 2
unfolding pairs listed
hole_map-pairs_example = hole_map-pairs 4 24 two_holes two_view

abbrev one_hole : Table
one_hole = record { hole = λ p. entry 0 50 9; hole_head = 1; free_slots = 0 }

one_cell-Holds : Holds one_hole ((1, 50, 9) ∷ []) []
unfolding occ
one_cell-Holds = record {
  chain = (refl, omega arith, refl, refl, refl);
  slots = refl;
  once = λ a. ground arith;
}

one_cell-Spaced : Spaced 0 ((1, 50, 9) ∷ [])
one_cell-Spaced = omega arith

drop_swap-fault_example : drop_swap 3 40 0 1 one_hole ≡ fault
drop_swap-fault_example =
    drop_swap-fault 1 2 40 1 50 9 0 one_hole
      (record {
        xs = (1, 50, 9) ∷ [];
        fs = [];
        holds = one_cell-Holds;
        spaced = one_cell-Spaced;
        count = refl;
      })
      refl (omega arith)
