-- ===== src/Disk/Lookup.antt =====
-- The file of a name in the directory of fs.c, and how the commands change it.
use soi_laboratoria_2025z.Base.{
  ℕ, zero, suc, ◌≡◌, refl, true, false, ◌&&◌, inl, inr, Option, none, some, [], ◌∷◌, arith,
  if◌then◌else◌, Bool-cases, get_elem?, set,
}
use soi_laboratoria_2025z.Disk.Defs.{
  Name, same_name, Entry, Directory, Disk, find_used, find_free, free_entry, content_of,
  copy_from_virtual,
}

pub same_name_refl : (x : Name) → same_name x x ≡ true
unfolding same_name
same_name_refl [] = refl
same_name_refl (a ∷ x) = ground (arith, same_name_refl x)

pub same_name_eq : (x y : Name) → same_name x y ≡ true → x ≡ y
unfolding same_name
same_name_eq [] [] h = refl
same_name_eq [] (b ∷ y) h = cc
same_name_eq (a ∷ x) [] h = cc
same_name_eq (a ∷ x) (b ∷ y) h = ground (arith, same_name_eq x y)

-- The first used entry of the name.
unfoldable pub lookup_file : Name → Directory → Option Entry
lookup_file x [] = none
lookup_file x (e ∷ es) = if e.used && same_name e.name x then some e else lookup_file x es

-- The entry at an index is not in use.
abbrev pub Unused : Directory → ℕ → Type 0
Unused [] i = ⊥
Unused (e ∷ es) zero = e.used ≡ false
Unused (e ∷ es) (suc i) = Unused es i

pub find_free-Unused : (es : Directory) (i : ℕ) → find_free es ≡ some i → Unused es i
unfolding find_free
find_free-Unused [] i h = cc
find_free-Unused (e ∷ es) zero h = ground arith
find_free-Unused (e ∷ es) (suc i) h = find_free-Unused es i (ground arith)

-- With the index of `find_used` the directory gives `lookup_file`.
abbrev entry_at : Directory → Option ℕ → Option Entry
entry_at es none = none
entry_at es (some i) = get_elem? es i

entry_at-find_used : (x : Name) (es : Directory) → entry_at es (find_used x es) ≡ lookup_file x es
unfolding find_used lookup_file
entry_at-find_used x [] = refl
entry_at-find_used x (e ∷ es) = elim (Bool-cases (e.used && same_name e.name x)) [
  | inl hit ↦ rw hit
  | inr miss ↦ rw miss (ground (arith, entry_at-find_used x es))
]

pub copy_from_virtual-lookup_file :
    (d : Disk) (x : Name) → copy_from_virtual d x ≡ content_of d (lookup_file x d.sb.directory)
unfolding copy_from_virtual
copy_from_virtual-lookup_file d x = ground (arith, entry_at-find_used x d.sb.directory)

module _ (x : Name) (new : Entry) (used : new.used ≡ true) where
  pub lookup_file-set_self :
      (es : Directory) (i : ℕ)
      → Unused es i
      → lookup_file x es ≡ none
      → same_name new.name x ≡ true
      → lookup_file x (set es i new) ≡ some new
  unfolding lookup_file
  lookup_file-set_self [] i u h s = absurd u
  lookup_file-set_self (e ∷ es) zero u h s = ground arith
  lookup_file-set_self (e ∷ es) (suc i) u h s = ground (arith, lookup_file-set_self es i u)

  pub lookup_file-set_other :
      (es : Directory) (i : ℕ)
      → Unused es i
      → same_name new.name x ≡ false
      → lookup_file x (set es i new) ≡ lookup_file x es
  unfolding lookup_file
  lookup_file-set_other [] i u s = absurd u
  lookup_file-set_other (e ∷ es) zero u s = ground arith
  lookup_file-set_other (e ∷ es) (suc i) u s = ground (arith, lookup_file-set_other es i u s)

-- No two used entries have one name.
abbrev pub NoName : Name → Directory → Type 0
NoName x [] = Unit
NoName x (e ∷ es) = (e.used ≡ true → same_name e.name x ≡ false) × NoName x es

abbrev pub UniqueNames : Directory → Type 0
UniqueNames [] = Unit
UniqueNames (e ∷ es) = (e.used ≡ true → NoName e.name es) × UniqueNames es

pub NoName-lookup_file : (x : Name) (es : Directory) → NoName x es → lookup_file x es ≡ none
unfolding lookup_file
NoName-lookup_file x [] h = refl
NoName-lookup_file x (e ∷ es) h = ground (arith, h.0, NoName-lookup_file x es h.1)

pub lookup_file-NoName : (x : Name) (es : Directory) → lookup_file x es ≡ none → NoName x es
unfolding lookup_file
lookup_file-NoName x [] h = tt
lookup_file-NoName x (e ∷ es) h = (λ u. ground arith, lookup_file-NoName x es (ground arith))

found_first :
    (x : Name) (e : Entry) (es : Directory)
    → find_used x (e ∷ es) ≡ some 0
    → (e.used ≡ true) × (same_name e.name x ≡ true)
unfolding find_used
found_first x e es h = ground arith

-- After a deletion the name is gone.
pub lookup_file-free_self :
    (x : Name) (es : Directory) (i : ℕ)
    → UniqueNames es
    → find_used x es ≡ some i
    → lookup_file x (free_entry i es) ≡ none
unfolding lookup_file find_used free_entry
lookup_file-free_self x [] i q h = cc
lookup_file-free_self x (e ∷ es) zero q h =
    let (u, hit) = found_first x e es h in
    NoName-lookup_file x es (rw (same_name_eq e.name x hit) at (q.0 u))
lookup_file-free_self x (e ∷ es) (suc i) q h = ground (arith, lookup_file-free_self x es i q.1)

pub lookup_file-free_other :
    (x y : Name) (es : Directory) (i : ℕ)
    → find_used x es ≡ some i
    → same_name x y ≡ false
    → lookup_file y (free_entry i es) ≡ lookup_file y es
unfolding lookup_file find_used free_entry
lookup_file-free_other x y [] i h s = refl
lookup_file-free_other x y (e ∷ es) zero h s =
    let (u, hit) = found_first x e es h in
    let miss : same_name e.name y ≡ false = rw (same_name_eq e.name x hit) s in ground (arith, miss)
lookup_file-free_other x y (e ∷ es) (suc i) h s = ground (arith, lookup_file-free_other x y es i)

pub find_used-lookup : (x : Name) (es : Directory) → find_used x es ≡ none → lookup_file x es ≡ none
unfolding find_used lookup_file
find_used-lookup x [] h = refl
find_used-lookup x (e ∷ es) h = ground (arith, find_used-lookup x es)
