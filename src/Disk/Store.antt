-- ===== src/Disk/Store.antt =====
-- What `copy_to_virtual` and `delete_file` of fs.c do to a disk and to what is read from it.
use mathlib.Core.Path.{fun_ext}
use soi_laboratoria_2025z.Base.{
  ℕ, zero, suc, ◌≤◌, ◌<◌, ◌≡◌, ◌≢◌, refl, ap, false, inl, inr, Option, none, some, List, [], ◌∷◌,
  arith, ◌==◌, length, Bool-cases,
}
use soi_laboratoria_2025z.Disk.Defs.{
  Name, Disk, stored_name, needed_blocks, find_used, find_free, find_place, block_map, save_file,
  CopyIn, exists, no_source, catalogue_full, no_space, saved, copy_to_virtual, store_file,
  place_file, open_source,
}
use soi_laboratoria_2025z.Disk.Scan.{FirstPlace, ScanResult, scan-FirstPlace, scan-none_of_zero}
use soi_laboratoria_2025z.Disk.Blocks.{occupied, block_map-occupied, Clear, Clear-Free}
use soi_laboratoria_2025z.Disk.Invariant.{IsDisk}

pub stored_name-short : (n : ℕ) (x : Name) → length x ≤ n → stored_name n x ≡ x
unfolding stored_name
stored_name-short zero [] h = refl
stored_name-short zero (a ∷ x) h = absurd (omega arith)
stored_name-short (suc n) [] h = refl
stored_name-short (suc n) (a ∷ x) h = ap (◌∷◌ a) (stored_name-short n x (omega arith))

-- The place that `copy_to_virtual` finds, on the blocks in use.
pub find_place-ScanResult :
    (d : Disk) (content : List ℕ)
    → 0 < needed_blocks (length content)
    → ScanResult
        (occupied d.sb.directory)
        d.sb.block_count
        (needed_blocks (length content))
        (find_place d content)
unfolding find_place
find_place-ScanResult d content pos =
    rw (fun_ext (block_map-occupied d.sb.directory (λ _. false))) (
      scan-FirstPlace (occupied d.sb.directory) d.sb.block_count (needed_blocks (length content))
        pos)

-- The branches of `copy_to_virtual`, with the conditions under which each is taken.
pub data CopyRun (d : Disk) (source : Option (List ℕ)) (dest : Name) : CopyIn → Disk → Type 0 where
  was_there : find_used dest d.sb.directory ≢ none → CopyRun d source dest exists d
  not_opened :
      find_used dest d.sb.directory ≡ none → source ≡ none → CopyRun d source dest no_source d
  full :
      (content : List ℕ)
      → source ≡ some content
      → find_used dest d.sb.directory ≡ none
      → find_free d.sb.directory ≡ none
      → CopyRun d source dest catalogue_full d
  crowded :
      (content : List ℕ)
      → source ≡ some content
      → find_used dest d.sb.directory ≡ none
      → find_place d content ≡ none
      → CopyRun d source dest no_space d
  stored :
      (content : List ℕ) (i start : ℕ)
      → source ≡ some content
      → find_used dest d.sb.directory ≡ none
      → find_free d.sb.directory ≡ some i
      → find_place d content ≡ some start
      → CopyRun d source dest (saved start) (save_file d i start dest content)

pub copy_to_virtual-CopyRun :
    (d : Disk) (source : Option (List ℕ)) (dest : Name)
    → CopyRun d source dest (copy_to_virtual d source dest).0 (copy_to_virtual d source dest).1
unfolding copy_to_virtual open_source store_file place_file
copy_to_virtual-CopyRun d source dest = found (find_used dest d.sb.directory) refl source refl
  where
    placed :
        (content : List ℕ) (i : ℕ) (o : Option ℕ)
        → source ≡ some content
        → find_used dest d.sb.directory ≡ none
        → find_free d.sb.directory ≡ some i
        → find_place d content ≡ o
        → CopyRun d source dest (place_file d i dest content o).0 (place_file d i dest content o).1
    placed content i none s u f e = crowded content s u e
    placed content i (some start) s u f e = stored content i start s u f e

    slot :
        (content : List ℕ) (o : Option ℕ)
        → source ≡ some content
        → find_used dest d.sb.directory ≡ none
        → find_free d.sb.directory ≡ o
        → CopyRun d source dest (store_file d dest content o).0 (store_file d dest content o).1
    slot content none s u f = full content s u f
    slot content (some i) s u f = placed content i (find_place d content) s u f refl

    found :
        (o : Option ℕ)
        → find_used dest d.sb.directory ≡ o
        → (src : Option (List ℕ)) → source ≡ src
        → CopyRun d source dest
            (elim o as (λ _. CopyIn × Disk) [
              | some _ ↦ (exists, d)
              | none ↦ open_source d dest src
            ]).0
            (elim o as (λ _. CopyIn × Disk) [
              | some _ ↦ (exists, d)
              | none ↦ open_source d dest src
            ]).1
    found (some j) e src s = was_there (λ h. cc)
    found none e none s = not_opened e s
    found none e (some content) s = slot content (find_free d.sb.directory) s e refl

pub find_place-some :
    (d : Disk) (content : List ℕ) (start : ℕ)
    → find_place d content ≡ some start
    → 0 < needed_blocks (length content)
unfolding find_place
find_place-some d content start e = elim (Bool-cases (0 == needed_blocks (length content))) [
  | inl z ↦
      let n : 0 ≡ needed_blocks (length content) = ground arith in
      let none_found : find_place d content ≡ none =
        rw (← n) (scan-none_of_zero (block_map d.sb.directory (λ _. false)) d.sb.block_count 0 0) in
      absurd (cc)
  | inr pos ↦ ground arith
]

-- The place found is the first that fits, and is beside every file.
pub found-FirstPlace :
    (d : Disk) (content : List ℕ) (start : ℕ)
    → find_place d content ≡ some start
    → FirstPlace (occupied d.sb.directory) d.sb.block_count (needed_blocks (length content)) start
found-FirstPlace d content start e =
    rw e at (find_place-ScanResult d content (find_place-some d content start e))

pub found-Clear :
    (d : Disk) (content : List ℕ) (start : ℕ)
    → IsDisk d
    → find_place d content ≡ some start
    → Clear start (needed_blocks (length content)) d.sb.directory
found-Clear d content start h e =
    Clear-Free d.sb.block_count start (needed_blocks (length content)) d.sb.directory
      (find_place-some d content start e) h.inside (found-FirstPlace d content start e).free
