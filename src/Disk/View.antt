-- ===== src/Disk/View.antt =====
-- The files of a disk of fs.c as `copy_from_virtual` gives them, and how the commands change them.
use soi_laboratoria_2025z.Base.{
  ℕ, ◌+◌, ◌*◌, ◌≤◌, ◌≡◌, refl, sym, ap, Bool, true, false, ◌&&◌, ◌⊎◌, inl, inr, Option, none, some,
  List, [], ◌∷◌, arith, length, Bool-cases, if◌then◌else◌,
}
use soi_laboratoria_2025z.Disk.Defs.{
  Name, same_name, Entry, Directory, Disk, stored_name, needed_blocks, block_size, free_entry,
  find_used, find_free, find_place, save_file, CopyIn, saved, buffer, copy_to_virtual,
  copy_from_virtual, delete_file, content_of, with_directory,
}
use soi_laboratoria_2025z.Disk.Blocks.{
  blocks_of, Clear, read_at-write_at, read_at-write_apart, size-le_blocks,
}
use soi_laboratoria_2025z.Disk.Lookup.{
  same_name_eq, lookup_file, find_free-Unused, copy_from_virtual-lookup_file, lookup_file-set_self,
  lookup_file-set_other, lookup_file-free_self, lookup_file-free_other, find_used-lookup,
}
use soi_laboratoria_2025z.Disk.Invariant.{IsDisk}
use soi_laboratoria_2025z.Disk.Store.{
  stored_name-short, found-Clear, CopyRun, was_there, not_opened, full, crowded, stored,
  copy_to_virtual-CopyRun,
}

lookup_file-Clear :
    (s n : ℕ) (y : Name) (es : Directory) (e : Entry)
    → Clear s n es
    → lookup_file y es ≡ some e
    → (s + n ≤ e.start_block) ⊎ (e.start_block + blocks_of e ≤ s)
unfolding lookup_file
lookup_file-Clear s n y [] e c h = absurd (cc)
lookup_file-Clear s n y (f ∷ es) e c h = elim (Bool-cases (f.used && same_name f.name y)) [
  | inl hit ↦ let same : f ≡ e = ground arith in rw (← same) (c.0 (ground arith))
  | inr miss ↦ lookup_file-Clear s n y es e c.1 (rw miss at h)
]

module _ (d : Disk) (i start : ℕ) (dest : Name) (content : List ℕ) where
  content_of-stored :
      content_of (save_file d i start dest content) (
        some (record {
          name = stored_name 31 dest;
          start_block = start;
          size_bytes = length content;
          used = true;
        }))
      ≡ some content
  unfolding content_of save_file
  content_of-stored = ap some (
      read_at-write_at d.bytes (start * block_size) (needed_blocks (length content) * block_size)
        content (size-le_blocks (length content)))

  content_of-kept :
      (y : Name)
      → Clear start (needed_blocks (length content)) d.sb.directory
      → (o : Option Entry) → lookup_file y d.sb.directory ≡ o
      → content_of (save_file d i start dest content) o ≡ content_of d o
  unfolding content_of save_file
  content_of-kept y c none e = refl
  content_of-kept y c (some f) e = ap some (
      read_at-write_apart d.bytes (buffer content) (start * block_size)
        (needed_blocks (length content) * block_size) (f.start_block * block_size) f.size_bytes
        (ground (
          arith,
          lookup_file-Clear start (needed_blocks (length content)) y d.sb.directory f c e,
          size-le_blocks f.size_bytes,
        )))

view-stored :
    (d : Disk) (i start : ℕ) (dest : Name) (content : List ℕ) (y : Name)
    → IsDisk d
    → length dest ≤ 31
    → find_used dest d.sb.directory ≡ none
    → find_free d.sb.directory ≡ some i
    → find_place d content ≡ some start
    → copy_from_virtual (save_file d i start dest content) y
      ≡ (if same_name dest y then some content else copy_from_virtual d y)
unfolding save_file
view-stored d i start dest content y h short absent slot place =
    elim (Bool-cases (same_name dest y)) [
      | inl hit ↦
          rw
            (
              hit,
              copy_from_virtual-lookup_file (save_file d i start dest content) y,
              lookup_file-set_self y new refl d.sb.directory i
                  (find_free-Unused d.sb.directory i slot)
                  (rw (← same_name_eq dest y hit) (find_used-lookup dest d.sb.directory absent))
                  (rw named hit),
            )
            (content_of-stored d i start dest content)
      | inr miss ↦
          rw
            (
              miss,
              copy_from_virtual-lookup_file (save_file d i start dest content) y,
              lookup_file-set_other y new refl d.sb.directory i
                  (find_free-Unused d.sb.directory i slot) (rw named miss),
              copy_from_virtual-lookup_file d y,
            )
            (content_of-kept d i start dest content y (found-Clear d content start h place)
              (lookup_file y d.sb.directory) refl)
    ]
  where
    named : stored_name 31 dest ≡ dest
    named = stored_name-short 31 dest short

    new : Entry
    new = record {
      name = stored_name 31 dest;
      start_block = start;
      size_bytes = length content;
      used = true;
    }

-- The files after `copy_to_virtual`: those before, and the new one when the result is `saved`.
abbrev pub files_after :
    CopyIn → (dest : Name) → List ℕ → (Name → Option (List ℕ)) → Name → Option (List ℕ)
files_after (saved start) dest content files y = if same_name dest y then some content else files y
files_after _ dest content files y = files y

-- After `copy_to_virtual` of a readable source to a name of at most 31 bytes, on a disk whose files lie
-- apart, `copy_from_virtual` returns the new content under the new name when the result is `saved` and
-- what it returned before under every other name; on every other result, what it returned before.
pub copy_to_virtual-files_after :
    (d : Disk) (content : List ℕ) (dest y : Name)
    → IsDisk d
    → length dest ≤ 31
    → copy_from_virtual (copy_to_virtual d (some content) dest).1 y
      ≡ files_after (copy_to_virtual d (some content) dest).0 dest content (copy_from_virtual d) y
copy_to_virtual-files_after d content dest y h short =
    by_run (copy_to_virtual d (some content) dest).0 (copy_to_virtual d (some content) dest).1
      (copy_to_virtual-CopyRun d (some content) dest)
  where
    by_run :
        (r : CopyIn) (d' : Disk)
        → CopyRun d (some content) dest r d'
        → copy_from_virtual d' y ≡ files_after r dest content (copy_from_virtual d) y
    by_run _ _ (was_there _) = refl
    by_run _ _ (not_opened _ _) = refl
    by_run _ _ (full _ _ _ _) = refl
    by_run _ _ (crowded _ _ _ _) = refl
    by_run _ _ (stored c i start s u f p) =
        let same : content ≡ c = ground arith in
        rw same (view-stored d i start dest c y h short u f p)

content_of-with_directory :
    (d : Disk) (es : Directory) (o : Option Entry)
    → content_of (with_directory d es) o ≡ content_of d o
unfolding content_of
content_of-with_directory d es none = refl
content_of-with_directory d es (some e) = refl

content_of-none : (d : Disk) → content_of d none ≡ none
unfolding content_of
content_of-none d = refl

delete_file-found :
    (d : Disk) (x y : Name) (i : ℕ)
    → IsDisk d
    → find_used x d.sb.directory ≡ some i
    → copy_from_virtual (with_directory d (free_entry i d.sb.directory)) y
      ≡ (if same_name x y then none else copy_from_virtual d y)
delete_file-found d x y i h e =
    rw
      (
        copy_from_virtual-lookup_file (with_directory d (free_entry i d.sb.directory)) y,
        content_of-with_directory d (free_entry i d.sb.directory)
            (lookup_file y (free_entry i d.sb.directory)),
      )
      (elim (Bool-cases (same_name x y)) [
        | inl hit ↦
            rw (hit, ← same_name_eq x y hit, lookup_file-free_self x d.sb.directory i h.names e)
              (content_of-none d)
        | inr miss ↦
            rw (miss, lookup_file-free_other x y d.sb.directory i e miss)
              (sym (copy_from_virtual-lookup_file d y))
      ])

delete_file-absent :
    (d : Disk) (x y : Name)
    → find_used x d.sb.directory ≡ none
    → copy_from_virtual d y ≡ (if same_name x y then none else copy_from_virtual d y)
unfolding content_of
delete_file-absent d x y e = elim (Bool-cases (same_name x y)) [
  | inl hit ↦
      rw
        (
          hit,
          copy_from_virtual-lookup_file d y,
          ← same_name_eq x y hit,
          find_used-lookup x d.sb.directory e,
        )
        refl
  | inr miss ↦ rw miss refl
]

-- After `delete_file`, on a disk whose files lie apart, `copy_from_virtual` finds nothing under the name
-- deleted and returns what it did before under every other, whether or not the file was there.
pub delete_file-copy_from_virtual :
    (d : Disk) (x y : Name)
    → IsDisk d
    → copy_from_virtual (delete_file d x).1 y
      ≡ (if same_name x y then none else copy_from_virtual d y)
unfolding delete_file
delete_file-copy_from_virtual d x y h = found (find_used x d.sb.directory) refl
  where
    found :
        (o : Option ℕ)
        → find_used x d.sb.directory ≡ o
        → copy_from_virtual
            (elim o as (λ _. Bool × Disk) [
              | none ↦ (false, d)
              | some i ↦ (true, with_directory d (free_entry i d.sb.directory))
            ]).1
            y
          ≡ (if same_name x y then none else copy_from_virtual d y)
    found none e = delete_file-absent d x y e
    found (some i) e = delete_file-found d x y i h e
