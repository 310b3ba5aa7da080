-- ===== src/Alloc/RoundTrip.antt =====
-- Memory of alloc.c taken and given back, and where worst fit may take it from.
use soi_laboratoria_2025z.Base.{
  ℕ, ◌*◌, ◌≤◌, ◌≡◌, inl, inr, true, false, [], ◌∷◌, ◌++◌, arith, ltb, Bool-cases, is_pos, Returns,
  mono, ◌⊎◌,
}
use soi_laboratoria_2025z.Alloc.Table.{Table}
use soi_laboratoria_2025z.Alloc.Chain.{Cells}
use soi_laboratoria_2025z.Alloc.Space.{covers}
use soi_laboratoria_2025z.Alloc.Worst.{Longest}
use soi_laboratoria_2025z.Alloc.Carve.{TooSmall}
use soi_laboratoria_2025z.Alloc.Mm.{Config, Mm, alloc_mem}
use soi_laboratoria_2025z.Alloc.Memory.{View}
use soi_laboratoria_2025z.Alloc.Policy.{alloc_mem-widest}

abbrev pub SameFree : (nr : ℕ) → Cells → Unit {0} → Table → Type 0
SameFree nr xs _ t' = (z : View nr t') × ((a : ℕ) → covers a z.xs ≡ covers a xs)

-- Some hole is long enough for `clicks`, by the policy of `wf_mode`.
abbrev pub Fits : Mm → (clicks : ℕ) → Cells → Type 0
Fits s clicks xs =
    ((is_pos s.wf_mode 1 ≡ true) × (¬ Longest clicks 0 xs))
    ⊎ ((is_pos s.wf_mode 1 ≡ false) × (¬ TooSmall s.swap_base clicks xs))

TooSmall-at :
    (swap_base clicks p base l : ℕ) (us ws : Cells)
    → TooSmall swap_base clicks (us ++ (p, base, l) ∷ ws)
    → clicks ≤ l
    → swap_base ≤ base
TooSmall-at sb clicks p base l [] ws h k = elim (Bool-cases (ltb base sb)) [
  | inl low ↦ absurd (omega (arith, h.0 (ground arith)))
  | inr high ↦ ground arith
]
TooSmall-at sb clicks p base l (u ∷ us) ws h k = TooSmall-at sb clicks p base l us ws h.1 k

-- Worst fit does not stop at `swap_base`: when only holes of the swap area are long enough, where
-- first fit would swap a process out or fail, `alloc_mem` returns an address in the swap area.
pub alloc_mem-in_swap :
    (k : Config) (clicks : ℕ) (s : Mm) (v : View (2 * k.nr_procs) s.table)
    → is_pos s.wf_mode 1 ≡ true
    → TooSmall s.swap_base clicks v.xs
    → ¬ Longest clicks 0 v.xs
    → Returns (λ base _. s.swap_base ≤ base) (alloc_mem k clicks s)
alloc_mem-in_swap k clicks s v mode small some_fits =
    mono (alloc_mem-widest k clicks s v mode) (λ base s' w. elim w.1 [
      | inl (_, kept) ↦ absurd (some_fits kept.1)
      | inr (p, l, us, ws, split, big, _, _) ↦
          TooSmall-at s.swap_base clicks p base l us ws (rw split at small) big
    ])
