-- ===== src/Disk/Invariant.antt =====
-- What holds of every disk of fs.c: the files lie inside it and share no block, and names are unique.
use soi_laboratoria_2025z.Base.{
  ℕ, zero, suc, ◌+◌, ◌≤◌, ◌<◌, ◌≡◌, true, false, ◌⊎◌, inl, inr, [], ◌∷◌, arith, set, Bool-cases,
}
use soi_laboratoria_2025z.Disk.Defs.{Name, same_name, Entry, Directory, Disk, blanks, free_entry}
use soi_laboratoria_2025z.Disk.Blocks.{blocks_of, Clear, Inside}
use soi_laboratoria_2025z.Disk.Lookup.{same_name_refl, same_name_eq, Unused, NoName, UniqueNames}

-- No used entry of `es` shares a block with `e`.
abbrev pub NoOverlap : Directory → Type 0
NoOverlap [] = Unit
NoOverlap (e ∷ es) = (e.used ≡ true → Clear e.start_block (blocks_of e) es) × NoOverlap es

pub record IsDisk (d : Disk) : Type 0 where
  pub inside : Inside d.sb.block_count d.sb.directory
  pub apart : NoOverlap d.sb.directory
  pub names : UniqueNames d.sb.directory

pub Inside-set :
    (bc : ℕ) (es : Directory) (i : ℕ) (new : Entry)
    → Inside bc es
    → (0 < new.size_bytes) × (new.start_block + blocks_of new ≤ bc)
    → Inside bc (set es i new)
Inside-set bc [] i new h f = tt
Inside-set bc (e ∷ es) zero new h f = (λ _. f, h.1)
Inside-set bc (e ∷ es) (suc i) new h f = (h.0, Inside-set bc es i new h.1 f)

Clear-set :
    (s n : ℕ) (es : Directory) (i : ℕ) (new : Entry)
    → Clear s n es
    → (s + n ≤ new.start_block) ⊎ (new.start_block + blocks_of new ≤ s)
    → Clear s n (set es i new)
Clear-set s n [] i new h f = tt
Clear-set s n (e ∷ es) zero new h f = (λ _. f, h.1)
Clear-set s n (e ∷ es) (suc i) new h f = (h.0, Clear-set s n es i new h.1 f)

pub NoOverlap-set :
    (es : Directory) (i : ℕ) (new : Entry)
    → Unused es i
    → NoOverlap es
    → Clear new.start_block (blocks_of new) es
    → NoOverlap (set es i new)
NoOverlap-set [] i new u h c = tt
NoOverlap-set (e ∷ es) zero new u h c = (λ _. c.1, h.1)
NoOverlap-set (e ∷ es) (suc i) new u h c = (
  λ used. Clear-set e.start_block (blocks_of e) es i new (h.0 used) (ground (arith, c.0 used)),
  NoOverlap-set es i new u h.1 c.1,
)

NoName-set :
    (x : Name) (es : Directory) (i : ℕ) (new : Entry)
    → NoName x es
    → same_name new.name x ≡ false
    → NoName x (set es i new)
NoName-set x [] i new h s = tt
NoName-set x (e ∷ es) zero new h s = (λ _. s, h.1)
NoName-set x (e ∷ es) (suc i) new h s = (h.0, NoName-set x es i new h.1 s)

same_name_sym : (x y : Name) → same_name x y ≡ false → same_name y x ≡ false
same_name_sym x y h = elim (Bool-cases (same_name y x)) [
  | inl hit ↦ absurd (cc (same_name_eq y x hit, same_name_refl x))
  | inr miss ↦ miss
]

pub UniqueNames-set :
    (es : Directory) (i : ℕ) (new : Entry)
    → Unused es i
    → UniqueNames es
    → NoName new.name es
    → UniqueNames (set es i new)
UniqueNames-set [] i new u h c = tt
UniqueNames-set (e ∷ es) zero new u h c = (λ _. c.1, h.1)
UniqueNames-set (e ∷ es) (suc i) new u h c = (
  λ used. NoName-set e.name es i new (h.0 used) (same_name_sym e.name new.name (c.0 used)),
  UniqueNames-set es i new u h.1 c.1,
)

-- A deletion keeps each of the three.
Clear-free_entry : (s n i : ℕ) (es : Directory) → Clear s n es → Clear s n (free_entry i es)
unfolding free_entry
Clear-free_entry s n i [] h = tt
Clear-free_entry s n zero (e ∷ es) h = (λ u. cc, h.1)
Clear-free_entry s n (suc i) (e ∷ es) h = (h.0, Clear-free_entry s n i es h.1)

NoName-free_entry : (x : Name) (i : ℕ) (es : Directory) → NoName x es → NoName x (free_entry i es)
unfolding free_entry
NoName-free_entry x i [] h = tt
NoName-free_entry x zero (e ∷ es) h = (λ u. cc, h.1)
NoName-free_entry x (suc i) (e ∷ es) h = (h.0, NoName-free_entry x i es h.1)

pub free_entry-keeps :
    (bc i : ℕ) (es : Directory)
    → Inside bc es
    → NoOverlap es
    → UniqueNames es
    → Inside bc (free_entry i es) × NoOverlap (free_entry i es) × UniqueNames (free_entry i es)
unfolding free_entry
free_entry-keeps bc i [] a b c = (tt, tt, tt)
free_entry-keeps bc zero (e ∷ es) a b c =
    ((λ u. absurd (cc), a.1), (λ u. absurd (cc), b.1), (λ u. absurd (cc), c.1))
free_entry-keeps bc (suc i) (e ∷ es) a b c =
    let (x, y, z) = free_entry-keeps bc i es a.1 b.1 c.1 in
    (
      (a.0, x),
      (λ u. Clear-free_entry e.start_block (blocks_of e) i es (b.0 u), y),
      (λ u. NoName-free_entry e.name i es (c.0 u), z),
    )

pub blanks-IsDisk :
    (bc n : ℕ) → Inside bc (blanks n) × NoOverlap (blanks n) × UniqueNames (blanks n)
unfolding blanks
blanks-IsDisk bc zero = (tt, tt, tt)
blanks-IsDisk bc (suc n) =
    let (x, y, z) = blanks-IsDisk bc n in
    ((λ u. absurd (cc), x), (λ u. absurd (cc), y), (λ u. absurd (cc), z))
