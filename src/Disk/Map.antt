-- ===== src/Disk/Map.antt =====
-- `show_map` of fs.c: the rows that it prints are the blocks of the disk, in order.
use soi_laboratoria_2025z.Base.{
  ℕ, ◌+◌, ◌-◌, ◌*◌, ◌≤◌, ◌<◌, ◌≡◌, refl, sym, Bool, true, false, ◌&&◌, ◌||◌, ◌⊎◌, inl, inr, List,
  [], ◌∷◌, arith, leb, ltb, if◌then◌else◌, Bool-cases,
}
use soi_laboratoria_2025z.Disk.Defs.{
  Entry, Directory, Name, Disk, block_size, needed_blocks, list_dir,
}
use soi_laboratoria_2025z.Disk.Blocks.{blocks_of, has_block, occupied, Clear, Inside}
use soi_laboratoria_2025z.Disk.Invariant.{NoOverlap, IsDisk}

-- A row of the map: free blocks, or a file with its blocks and the bytes that it leaves in the last.
pub data Row : Type 0 where
  free_row : (block free_blocks : ℕ) → Row
  file_row : (block blocks : ℕ) (name : Name) (internal_frag : ℕ) → Row

-- `qsort` by `compare_entries`.
unfoldable pub insert_entry : Entry → Directory → Directory
insert_entry e [] = e ∷ []
insert_entry e (f ∷ fs) =
    let rest = insert_entry e fs in if leb e.start_block f.start_block then e ∷ f ∷ fs else f ∷ rest

unfoldable pub sort_entries : Directory → Directory
unfolding insert_entry
sort_entries [] = []
sort_entries (e ∷ es) = insert_entry e (sort_entries es)

unfoldable pub entry_row : Entry → Row
entry_row e =
    file_row e.start_block (needed_blocks e.size_bytes) e.name
      (needed_blocks e.size_bytes * block_size - e.size_bytes)

unfoldable pub map_rows : (current_block block_count : ℕ) → Directory → List Row
unfolding entry_row
map_rows current block_count [] =
    if ltb current block_count then free_row current (block_count - current) ∷ [] else []
map_rows current block_count (e ∷ es) =
    let rest = map_rows (e.start_block + needed_blocks e.size_bytes) block_count es in
    if ltb current e.start_block
    then free_row current (e.start_block - current) ∷ entry_row e ∷ rest
    else entry_row e ∷ rest

unfoldable pub show_map : Disk → List Row
unfolding map_rows sort_entries list_dir
show_map d = map_rows 0 d.sb.block_count (sort_entries (list_dir d.sb.directory))

-- Each row is not empty and begins where the one before ended, from block `c` to block `n`.
abbrev pub Tiles : (c n : ℕ) → List Row → Type 0
Tiles c n [] = c ≡ n
Tiles c n (free_row b k ∷ rows) = (b ≡ c) × (0 < k) × Tiles (c + k) n rows
Tiles c n (file_row b k x frag ∷ rows) = (b ≡ c) × (0 < k) × Tiles (c + k) n rows

-- Block `i` is in the row of a file.
unfoldable pub in_file_row : List Row → ℕ → Bool
in_file_row [] i = false
in_file_row (free_row b k ∷ rows) i = in_file_row rows i
in_file_row (file_row b k x frag ∷ rows) i = (leb b i && ltb i (b + k)) || in_file_row rows i

-- Used files one after another, from block `c` to block `n`.
abbrev Laid : (c n : ℕ) → Directory → Type 0
Laid c n [] = c ≤ n
Laid c n (e ∷ es) =
    (e.used ≡ true)
    × (c ≤ e.start_block)
    × (0 < e.size_bytes)
    × Laid (e.start_block + blocks_of e) n es

Laid-le : (c n : ℕ) (es : Directory) → Laid c n es → c ≤ n
Laid-le c n [] h = h
Laid-le c n (e ∷ es) h = omega (arith, h.1, Laid-le (e.start_block + blocks_of e) n es h.3)

insert_entry-Laid :
    (c n : ℕ) (e : Entry) (es : Directory)
    → e.used ≡ true
    → c ≤ e.start_block
    → 0 < e.size_bytes
    → e.start_block + blocks_of e ≤ n
    → Clear e.start_block (blocks_of e) es
    → Laid c n es
    → Laid c n (insert_entry e es)
unfolding insert_entry
insert_entry-Laid c n e [] u lo pos hi cl l = (u, lo, pos, hi)
insert_entry-Laid c n e (f ∷ es) u lo pos hi cl l =
    elim (Bool-cases (leb e.start_block f.start_block)) [
      | inl before ↦ rw before (u, lo, pos, (l.0, ground (arith, cl.0 l.0), l.2, l.3))
      | inr after ↦ rw after (
        l.0,
        l.1,
        l.2,
        insert_entry-Laid (f.start_block + blocks_of f) n e es u (ground (arith, cl.0 l.0)) pos hi
            cl.1 l.3,
      )
    ]

insert_entry-Clear :
    (s n : ℕ) (e : Entry) (es : Directory)
    → (s + n ≤ e.start_block) ⊎ (e.start_block + blocks_of e ≤ s)
    → Clear s n es
    → Clear s n (insert_entry e es)
unfolding insert_entry
insert_entry-Clear s n e [] h c = (λ _. h, tt)
insert_entry-Clear s n e (f ∷ es) h c = elim (Bool-cases (leb e.start_block f.start_block)) [
  | inl before ↦ rw before (λ _. h, c)
  | inr after ↦ rw after (c.0, insert_entry-Clear s n e es h c.1)
]

insert_entry-occupied :
    (e : Entry) (es : Directory) (i : ℕ)
    → occupied (insert_entry e es) i ≡ (has_block e i || occupied es i)
unfolding insert_entry
insert_entry-occupied e [] i = refl
insert_entry-occupied e (f ∷ es) i = elim (Bool-cases (leb e.start_block f.start_block)) [
  | inl before ↦ rw before refl
  | inr after ↦ rw (after, insert_entry-occupied e es i) (ground arith)
]

-- The used entries, sorted.
abbrev sorted_dir : Directory → Directory
sorted_dir es = sort_entries (list_dir es)

sorted_dir-unused :
    (e : Entry) (es : Directory) → e.used ≡ false → sorted_dir (e ∷ es) ≡ sorted_dir es
unfolding list_dir
sorted_dir-unused e es u = rw u refl

sorted_dir-used :
    (e : Entry) (es : Directory)
    → e.used ≡ true
    → sorted_dir (e ∷ es) ≡ insert_entry e (sorted_dir es)
unfolding list_dir sort_entries
sorted_dir-used e es u = rw u refl

sorted_dir-Clear : (s n : ℕ) (es : Directory) → Clear s n es → Clear s n (sorted_dir es)
unfolding sort_entries list_dir
sorted_dir-Clear s n [] c = tt
sorted_dir-Clear s n (e ∷ es) c = elim (Bool-cases e.used) [
  | inl u ↦
      rw (sorted_dir-used e es u)
        (insert_entry-Clear s n e (sorted_dir es) (c.0 u) (sorted_dir-Clear s n es c.1))
  | inr u ↦ rw (sorted_dir-unused e es u) (sorted_dir-Clear s n es c.1)
]

sorted_dir-Laid : (n : ℕ) (es : Directory) → Inside n es → NoOverlap es → Laid 0 n (sorted_dir es)
unfolding sort_entries list_dir
sorted_dir-Laid n [] h o = omega arith
sorted_dir-Laid n (e ∷ es) h o = elim (Bool-cases e.used) [
  | inl u ↦ rw (sorted_dir-used e es u) (
      insert_entry-Laid 0 n e (sorted_dir es) u (omega arith) (h.0 u).0 (h.0 u).1
        (sorted_dir-Clear e.start_block (blocks_of e) es (o.0 u)) (sorted_dir-Laid n es h.1 o.1))
  | inr u ↦ rw (sorted_dir-unused e es u) (sorted_dir-Laid n es h.1 o.1)
]

sorted_dir-occupied : (es : Directory) (i : ℕ) → occupied (sorted_dir es) i ≡ occupied es i
unfolding sort_entries list_dir
sorted_dir-occupied [] i = refl
sorted_dir-occupied (e ∷ es) i = elim (Bool-cases e.used) [
  | inl u ↦
      rw
        (
          sorted_dir-used e es u,
          insert_entry-occupied e (sorted_dir es) i,
          sorted_dir-occupied es i,
        )
        refl
  | inr u ↦ rw (sorted_dir-unused e es u, sorted_dir-occupied es i, u) refl
]

map_rows-Tiles : (c n : ℕ) (es : Directory) → Laid c n es → Tiles c n (map_rows c n es)
unfolding map_rows
map_rows-Tiles c n [] l = elim (Bool-cases (ltb c n)) [
  | inl more ↦ rw more (refl, ground arith, ground arith)
  | inr done ↦ rw done (ground arith)
]
map_rows-Tiles c n (e ∷ es) l =
    let next = map_rows-Tiles (e.start_block + blocks_of e) n es l.3 in
    elim (Bool-cases (ltb c e.start_block)) [
      | inl gap ↦
          let at_start : c + (e.start_block - c) ≡ e.start_block = ground arith in
          rw gap (refl, ground arith, rw at_start (refl, omega (arith, l.2), next))
      | inr close ↦
          let at_start : c ≡ e.start_block = ground (arith, l.1) in
          rw close (sym at_start, omega (arith, l.2), rw at_start next)
    ]

map_rows-in_file_row :
    (c n : ℕ) (es : Directory) (i : ℕ)
    → Laid c n es
    → in_file_row (map_rows c n es) i ≡ occupied es i
unfolding map_rows in_file_row entry_row
map_rows-in_file_row c n [] i l = ground arith
map_rows-in_file_row c n (e ∷ es) i l =
    ground (arith, l.0, map_rows-in_file_row (e.start_block + blocks_of e) n es i l.3)

-- On a disk whose files lie apart, the rows of `show_map` cover its blocks from the first to the last
-- without a gap or an overlap, and a block is in the row of a file exactly when a file occupies it.
pub show_map-Tiles :
    (d : Disk)
    → IsDisk d
    → Tiles 0 d.sb.block_count (show_map d)
      × ((i : ℕ) → in_file_row (show_map d) i ≡ occupied d.sb.directory i)
unfolding show_map
show_map-Tiles d h =
    let laid = sorted_dir-Laid d.sb.block_count d.sb.directory h.inside h.apart in
    (
      map_rows-Tiles 0 d.sb.block_count (sorted_dir d.sb.directory) laid,
      λ i.
          rw (map_rows-in_file_row 0 d.sb.block_count (sorted_dir d.sb.directory) i laid)
            (sorted_dir-occupied d.sb.directory i),
    )
