-- ===== src/Alloc/HoleMap.antt =====
-- `do_hole_map` of alloc.c, and the removal of the swap area by `swap_off`.
use soi_laboratoria_2025z.Base.{
  ℕ, zero, suc, ◌+◌, ◌-◌, ◌*◌, ◌/◌, ◌≤◌, ◌<◌, ◌≡◌, refl, some, List, [], ◌∷◌, ◌++◌, arith, ltb,
  if◌then◌else◌, length, length-append, pos, ok, fault,
}
use soi_laboratoria_2025z.Alloc.Table.{nil_hole, Table, Ptr, write}
use soi_laboratoria_2025z.Alloc.Chain.{Cells, Seg}
use soi_laboratoria_2025z.Alloc.Swapin.{map_loop, hole_map, drop_swap}
use soi_laboratoria_2025z.Alloc.Memory.{View}

-- Length and base of the first `room` holes, and how many these are.
unfoldable pub pairs : ℕ → Cells → List ℕ
pairs zero xs = []
pairs (suc room) [] = []
pairs (suc room) ((p, b, l) ∷ xs) = l ∷ b ∷ pairs room xs

unfoldable pub listed : ℕ → Cells → ℕ
listed zero xs = 0
listed (suc room) [] = 0
listed (suc room) (x ∷ xs) = suc (listed room xs)

length-pairs :
    (room : ℕ) (xs : Cells)
    → (length (pairs room xs) ≡ 2 * listed room xs) × (listed room xs ≤ room)
unfolding pairs listed
length-pairs zero xs = (refl, omega arith)
length-pairs (suc room) [] = (refl, omega arith)
length-pairs (suc room) (x ∷ xs) = omega (arith, length-pairs room xs)

map_loop-pairs :
    (t : Table) (fuel limit count room : ℕ) (h : Ptr) (xs : Cells)
    → Seg t.hole h xs nil_hole
    → length xs < fuel
    → room ≡ limit - suc count
    → map_loop fuel limit count h t ≡ ok (pairs room xs, count + listed room xs) t
unfolding map_loop pairs listed
map_loop-pairs t zero limit count room h xs s k e = absurd (omega arith)
map_loop-pairs t (suc fuel) limit count zero h [] s k e = ground arith
map_loop-pairs t (suc fuel) limit count (suc room) h [] s k e = ground arith
map_loop-pairs t (suc fuel) limit count zero h ((p, b, l) ∷ xs) s k e = ground arith
map_loop-pairs t (suc fuel) limit count (suc room) h ((p, b, l) ∷ xs) s k e =
    ground (arith, map_loop-pairs t fuel limit (suc count) room (t.hole p).h_next xs s.4)

-- `limit - 1`
abbrev pub room_for : ℕ → ℕ
room_for n = (if ltb (n / 8) 512 then n / 8 else 512) - 1

abbrev pub MapFits : (n : ℕ) → List ℕ → ℕ → Type 0
MapFits n words count =
    (length words ≡ 2 * count + 2)
    × (length words ≤ 1024)
    × (8 ≤ n → 4 * length words ≤ n)
    × (n < 8 → n < 4 * length words)

-- `do_hole_map` with a buffer of `n` bytes returns and changes nothing. It reports the length and base
-- of the first holes, as many as fit, in the order of the list, and then a pair of zeros. The words fit
-- its own buffer of 1024, and the caller's when that has room for one pair; in a smaller one, even of
-- size 0, the pair of zeros is written past its end.
pub hole_map-pairs :
    (nr n : ℕ) (t : Table) (v : View nr t)
    → (hole_map (suc nr) (pos n) t
        ≡ ok (some (pairs (room_for n) v.xs ++ 0 ∷ 0 ∷ [], listed (room_for n) v.xs)) t)
      × MapFits n (pairs (room_for n) v.xs ++ 0 ∷ 0 ∷ []) (listed (room_for n) v.xs)
unfolding hole_map
hole_map-pairs nr n t v = (
  ground (arith, loop, v.count),
  ground
      (arith, length-pairs (room_for n) v.xs, length-append (pairs (room_for n) v.xs) (0 ∷ 0 ∷ [])),
)
  where
    loop :
        map_loop (suc nr) (if ltb (n / 8) 512 then n / 8 else 512) 0 t.hole_head t
        ≡ ok (pairs (room_for n) v.xs, 0 + listed (room_for n) v.xs) t
    loop =
        map_loop-pairs t (suc nr) (if ltb (n / 8) 512 then n / 8 else 512) 0 (room_for n)
          t.hole_head v.xs v.holds.chain (omega (arith, v.count)) (omega arith)

-- When the only hole left is one of the swap area, the last loop of `swap_off` removes it, and then
-- follows the null pointer that has become the head of the list.
pub drop_swap-fault :
    (nr fuel swap_base p b l : ℕ) (prev : Ptr) (t : Table) (v : View nr t)
    → v.xs ≡ (p, b, l) ∷ []
    → swap_base ≤ b
    → drop_swap (suc fuel) swap_base prev t.hole_head t ≡ fault
unfolding drop_swap write
drop_swap-fault nr fuel sb p b l prev t v only high =
    let c : Seg t.hole t.hole_head ((p, b, l) ∷ []) nil_hole = rw only at v.holds.chain in
    ground (arith, c.0, c.1, c.2, c.4)
