-- ===== src/Disk/Outcome.antt =====
-- What each result of `copy_to_virtual` of fs.c says of the disk that it was given.
use soi_laboratoria_2025z.Base.{
  ℕ, ◌+◌, ◌≤◌, ◌<◌, ◌≡◌, ◌≢◌, refl, Bool, true, ◌⊎◌, inl, inr, Option, none, some, List, [], ◌∷◌,
  arith, length, ◌==◌, Bool-cases,
}
use soi_laboratoria_2025z.Disk.Defs.{
  Name, Directory, Disk, needed_blocks, find_used, find_free, find_place, CopyIn, exists, no_source,
  catalogue_full, no_space, saved, copy_to_virtual,
}
use soi_laboratoria_2025z.Disk.Scan.{Free, FirstPlace}
use soi_laboratoria_2025z.Disk.Blocks.{occupied}
use soi_laboratoria_2025z.Disk.Lookup.{lookup_file, find_used-lookup}
use soi_laboratoria_2025z.Disk.Store.{
  find_place-ScanResult, found-FirstPlace, CopyRun, was_there, not_opened, full, crowded, stored,
  copy_to_virtual-CopyRun,
}

-- Every entry of the directory is in use.
abbrev pub AllUsed : Directory → Type 0
AllUsed [] = Unit
AllUsed (e ∷ es) = (e.used ≡ true) × AllUsed es

find_free-AllUsed : (es : Directory) → find_free es ≡ none → AllUsed es
unfolding find_free
find_free-AllUsed [] h = tt
find_free-AllUsed (e ∷ es) h = (ground arith, find_free-AllUsed es (ground arith))

lookup_file-found : (x : Name) (es : Directory) → lookup_file x es ≡ none → find_used x es ≡ none
unfolding lookup_file find_used
lookup_file-found x [] h = refl
lookup_file-found x (e ∷ es) h = ground (arith, lookup_file-found x es)

-- Some `need` consecutive blocks are free.
abbrev pub Room : (ℕ → Bool) → (n need : ℕ) → Type 0
Room m n need = (s : ℕ) × (s + need ≤ n) × Free m s need

abbrev pub Outcome : Disk → Option (List ℕ) → Name → CopyIn → Type 0
Outcome d source dest exists = lookup_file dest d.sb.directory ≢ none
Outcome d source dest no_source = (lookup_file dest d.sb.directory ≡ none) × (source ≡ none)
Outcome d source dest catalogue_full =
    (lookup_file dest d.sb.directory ≡ none) × (source ≢ none) × AllUsed d.sb.directory
Outcome d source dest no_space =
    (lookup_file dest d.sb.directory ≡ none)
    × (content : List ℕ) × (source ≡ some content)
    × ((length content ≡ 0)
        ⊎ (¬ Room (occupied d.sb.directory) d.sb.block_count (needed_blocks (length content))))
Outcome d source dest (saved start) =
    (lookup_file dest d.sb.directory ≡ none)
    × (content : List ℕ) × (source ≡ some content)
    × FirstPlace (occupied d.sb.directory) d.sb.block_count (needed_blocks (length content)) start

crowded-NoRoom :
    (d : Disk) (content : List ℕ)
    → find_place d content ≡ none
    → (length content ≡ 0)
      ⊎ (¬ Room (occupied d.sb.directory) d.sb.block_count (needed_blocks (length content)))
crowded-NoRoom d content e = elim (Bool-cases (length content == 0)) [
  | inl z ↦ inl (ground arith)
  | inr pos ↦
      let some_byte : 0 < needed_blocks (length content) = ground arith in
      let none_fits = rw e at (find_place-ScanResult d content some_byte) in
      inr (λ r. none_fits r.0 r.1 r.2)
]

-- The result of `copy_to_virtual` says what the disk was: `exists`, that a file of the name was there;
-- otherwise there was none, and `no_source`, that the source cannot be opened; `catalogue_full`, that all
-- entries of the directory are in use; `no_space`, that the source is empty or no run of free blocks is
-- long enough; `saved`, that the block given is the first from which enough blocks are free.
pub copy_to_virtual-Outcome :
    (d : Disk) (source : Option (List ℕ)) (dest : Name)
    → Outcome d source dest (copy_to_virtual d source dest).0
copy_to_virtual-Outcome d source dest =
    by_run (copy_to_virtual d source dest).0 (copy_to_virtual d source dest).1
      (copy_to_virtual-CopyRun d source dest)
  where
    by_run : (r : CopyIn) (d' : Disk) → CopyRun d source dest r d' → Outcome d source dest r
    by_run _ _ (was_there u) = λ h. u (lookup_file-found dest d.sb.directory h)
    by_run _ _ (not_opened u s) = (find_used-lookup dest d.sb.directory u, s)
    by_run _ _ (full c s u f) = (
      find_used-lookup dest d.sb.directory u,
      λ n. absurd (cc),
      find_free-AllUsed d.sb.directory f,
    )
    by_run _ _ (crowded c s u p) =
        (find_used-lookup dest d.sb.directory u, c, s, crowded-NoRoom d c p)
    by_run _ _ (stored c i start s u f p) =
        (find_used-lookup dest d.sb.directory u, c, s, found-FirstPlace d c start p)
