-- ===== src/Disk/Blocks.antt =====
-- The blocks that the directory of fs.c occupies, and the bytes that a file reads and writes.
use soi_laboratoria_2025z.Base.{
  ℕ, zero, suc, ◌+◌, ◌-◌, ◌*◌, ◌≤◌, ◌<◌, ◌≡◌, refl, ap, ◌∙◌, Bool, true, false, ◌&&◌, ◌||◌, ◌⊎◌,
  inl, inr, List, [], ◌∷◌, arith, leb, ltb, ◌==◌, if◌then◌else◌, length, Bool-cases,
}
use soi_laboratoria_2025z.Disk.Defs.{
  Entry, Directory, block_size, needed_blocks, mark, block_map, buffer, write_at, read_at,
}
use soi_laboratoria_2025z.Disk.Scan.{Free}

abbrev pub blocks_of : Entry → ℕ
blocks_of e = needed_blocks e.size_bytes

-- A used entry holds block `i`.
abbrev pub has_block : Entry → ℕ → Bool
has_block e i = e.used && (leb e.start_block i && ltb i (e.start_block + blocks_of e))

abbrev pub occupied : Directory → ℕ → Bool
occupied [] i = false
occupied (e ∷ es) i = has_block e i || occupied es i

mark_lem :
    (len start : ℕ) (m : ℕ → Bool) (i : ℕ)
    → mark len start m i ≡ (m i || (leb start i && ltb i (start + len)))
unfolding mark
mark_lem zero start m i = ground arith
mark_lem (suc len) start m i =
    ground (arith, mark_lem len (suc start) (λ j. if j == start then true else m j) i)

-- The map that `copy_to_virtual` builds marks the blocks in use.
pub block_map-occupied :
    (es : Directory) (m : ℕ → Bool) (i : ℕ) → block_map es m i ≡ (m i || occupied es i)
unfolding block_map
block_map-occupied [] m i = ground arith
block_map-occupied (e ∷ es) m i = elim (Bool-cases e.used) [
  | inl u ↦ rw u (
      ground (
        arith,
        block_map-occupied es (mark (blocks_of e) e.start_block m) i,
        mark_lem (blocks_of e) e.start_block m i,
      ))
  | inr u ↦ rw u (ground (arith, block_map-occupied es m i))
]

-- Blocks `s` to `s + n` lie beside every file.
abbrev pub Clear : (s n : ℕ) → Directory → Type 0
Clear s n [] = Unit
Clear s n (e ∷ es) =
    (e.used ≡ true → (s + n ≤ e.start_block) ⊎ (e.start_block + blocks_of e ≤ s)) × Clear s n es

-- Every file lies among the first `bc` blocks, and is not empty.
abbrev pub Inside : ℕ → Directory → Type 0
Inside bc [] = Unit
Inside bc (e ∷ es) =
    (e.used ≡ true → (0 < e.size_bytes) × (e.start_block + blocks_of e ≤ bc)) × Inside bc es

pub Clear-Free :
    (bc s n : ℕ) (es : Directory) → 0 < n → Inside bc es → Free (occupied es) s n → Clear s n es
Clear-Free bc s n [] pos ins f = tt
Clear-Free bc s n (e ∷ es) pos ins f = (
  λ u. ground (arith, f s, f e.start_block, ins.0 u),
  Clear-Free bc s n es pos ins.1 (λ j lo hi. ground (arith, f j)),
)

pub read_at-same :
    (b c : ℕ → ℕ) (off n : ℕ)
    → ((i : ℕ) → off ≤ i → i < off + n → b i ≡ c i)
    → read_at b off n ≡ read_at c off n
unfolding read_at
read_at-same b c off zero h = refl
read_at-same b c off (suc n) h =
    rw (h off (omega arith) (omega arith))
      (ap (◌∷◌ (c off)) (read_at-same b c (suc off) n (λ i lo hi. h i (omega arith) (omega arith))))

read_at-buffer : (off : ℕ) (bs : List ℕ) → read_at (λ i. buffer bs (i - off)) off (length bs) ≡ bs
unfolding read_at buffer
read_at-buffer off [] = refl
read_at-buffer off (b ∷ bs) =
    let here : off - off ≡ 0 = omega arith in
    rw here (
      ap (◌∷◌ b) (
        read_at-same (λ i. buffer (b ∷ bs) (i - off)) (λ i. buffer bs (i - suc off)) (suc off)
          (length bs) (λ i lo hi. later i lo)
        ∙ read_at-buffer (suc off) bs))
  where
    later : (i : ℕ) → suc off ≤ i → buffer (b ∷ bs) (i - off) ≡ buffer bs (i - suc off)
    later i lo = let e : i - off ≡ suc (i - suc off) = omega arith in rw e

-- What was written is read back.
pub read_at-write_at :
    (b : ℕ → ℕ) (off n : ℕ) (bs : List ℕ)
    → length bs ≤ n
    → read_at (write_at b off n (buffer bs)) off (length bs) ≡ bs
unfolding write_at
read_at-write_at b off n bs h =
    read_at-same (write_at b off n (buffer bs)) (λ i. buffer bs (i - off)) off (length bs)
      (λ i lo hi. ground arith)
    ∙ read_at-buffer off bs

-- A write elsewhere is not seen.
pub read_at-write_apart :
    (b src : ℕ → ℕ) (off n at k : ℕ)
    → (off + n ≤ at) ⊎ (at + k ≤ off)
    → read_at (write_at b off n src) at k ≡ read_at b at k
unfolding write_at
read_at-write_apart b src off n at k h =
    read_at-same (write_at b off n src) b at k (λ i lo hi. ground arith)

pub size-le_blocks : (n : ℕ) → n ≤ needed_blocks n * block_size
size-le_blocks n = omega arith
