-- ===== src/Disk/Defs.antt =====
-- The disk file, its super block, and the commands of fs.c. Each command is a process of its own that
-- loads the super block, so the state between commands is the content of the disk file.
use soi_laboratoria_2025z.Base.{
  ℕ, zero, suc, ◌+◌, ◌-◌, ◌*◌, ◌/◌, Bool, true, false, not, ◌&&◌, Option, none, some, List, [], ◌∷◌,
  length, get_elem?, set, leb, ltb, ◌==◌, if◌then◌else◌,
}

abbrev pub disk_size : ℕ
disk_size = 102400

abbrev pub block_size : ℕ
block_size = 1024

abbrev pub max_files : ℕ
max_files = 32

-- `sizeof(super_block_t)` with an `int` of 4 bytes: two numbers, and 32 entries of 44 bytes.
abbrev pub super_size : ℕ
super_size = 1416

-- The bytes of a C string up to its end.
abbrev pub Name : Type 0
Name = List ℕ

-- `strcmp(a, b) == 0`
unfoldable pub same_name : Name → Name → Bool
same_name [] [] = true
same_name (a ∷ x) (b ∷ y) = a == b && same_name x y
same_name _ _ = false

-- `strncpy(field, name, 31)` into a field of 32 bytes whose last byte is 0.
unfoldable pub stored_name : ℕ → Name → Name
stored_name zero x = []
stored_name (suc n) [] = []
stored_name (suc n) (a ∷ x) = a ∷ stored_name n x

pub record Entry : Type 0 where
  pub name : Name
  pub start_block : ℕ
  pub size_bytes : ℕ
  pub used : Bool

abbrev pub Directory : Type 0
Directory = List Entry

pub record SuperBlock : Type 0 where
  pub total_size : ℕ
  pub block_count : ℕ
  pub directory : Directory

-- The bytes of the data area, by their offset in it.
pub record Disk : Type 0 where
  pub sb : SuperBlock
  pub bytes : ℕ → ℕ

abbrev pub needed_blocks : ℕ → ℕ
needed_blocks bytes = (bytes + block_size - 1) / block_size

abbrev pub blank : Entry
blank = record { name = []; start_block = 0; size_bytes = 0; used = false }

unfoldable pub blanks : ℕ → Directory
blanks zero = []
blanks (suc n) = blank ∷ blanks n

unfoldable pub create_disk : Disk
unfolding blanks
create_disk = record {
  sb = record {
    total_size = disk_size;
    block_count = (disk_size - super_size) / block_size;
    directory = blanks max_files;
  };
  bytes = λ _. 0;
}

-- The first used entry with this name, by its index.
unfoldable pub find_used : Name → Directory → Option ℕ
unfolding same_name
find_used x [] = none
find_used x (e ∷ es) =
    let rest = find_used x es in
    if e.used && same_name e.name x
    then some 0
    else elim rest [ none ↦ none | some i ↦ some (suc i) ]

-- The first entry that is not used.
unfoldable pub find_free : Directory → Option ℕ
find_free [] = none
find_free (e ∷ es) =
    let rest = find_free es in
    if e.used then elim rest [ none ↦ none | some i ↦ some (suc i) ] else some 0

-- `for (k = 0; k < len; k++) map[start + k] = 1;`
unfoldable pub mark : ℕ → ℕ → (ℕ → Bool) → ℕ → Bool
mark zero start m = m
mark (suc len) start m = mark len (suc start) (λ i. if i == start then true else m i)

unfoldable pub block_map : Directory → (ℕ → Bool) → ℕ → Bool
unfolding mark
block_map [] m = m
block_map (e ∷ es) m =
    block_map es (if e.used then mark (needed_blocks e.size_bytes) e.start_block m else m)

-- The search for `need` consecutive free blocks among `n` from `i` on, `streak` free ones behind.
unfoldable pub scan : (n i streak need : ℕ) → (ℕ → Bool) → Option ℕ
scan zero i streak need m = none
scan (suc n) i streak need m =
    let next = if m i then 0 else suc streak in
    elim (not (m i) && next == need) [
      | true ↦ some (suc i - need)
      | false ↦ scan n (suc i) next need m
    ]

-- A byte of the zeroed buffer into which the source was read.
unfoldable pub buffer : List ℕ → ℕ → ℕ
buffer [] j = 0
buffer (b ∷ bs) zero = b
buffer (b ∷ bs) (suc j) = buffer bs j

-- `fwrite` of `len` bytes at `offset`.
unfoldable pub write_at : (ℕ → ℕ) → (offset len : ℕ) → (ℕ → ℕ) → ℕ → ℕ
write_at bytes offset len src i =
    if leb offset i && ltb i (offset + len) then src (i - offset) else bytes i

-- `fread` of `len` bytes at `offset`.
unfoldable pub read_at : (ℕ → ℕ) → (offset len : ℕ) → List ℕ
read_at bytes offset zero = []
read_at bytes offset (suc len) = bytes offset ∷ read_at bytes (suc offset) len

pub data CopyIn : Type 0 where
  exists no_source catalogue_full no_space : CopyIn
  saved : (start_block : ℕ) → CopyIn

abbrev pub with_directory : Disk → Directory → Disk
with_directory d dir = record d { sb = record (d.sb) { directory = dir } }

-- The end of `copy_to_virtual`, once a place is found.
unfoldable pub save_file : Disk → (dir_idx start : ℕ) → Name → List ℕ → Disk
unfolding write_at buffer stored_name
save_file d dir_idx start dest content =
    record (with_directory d (
      set d.sb.directory dir_idx (record {
        name = stored_name 31 dest;
        start_block = start;
        size_bytes = length content;
        used = true;
      }))) {
        bytes =
            write_at d.bytes (start * block_size) (needed_blocks (length content) * block_size)
              (buffer content);
      }

-- `copy_to_virtual`; the source is `none` when it cannot be opened.
unfoldable pub place_file : Disk → (dir_idx : ℕ) → Name → List ℕ → Option ℕ → CopyIn × Disk
place_file d dir_idx dest content none = (no_space, d)
place_file d dir_idx dest content (some start) =
    (saved start, save_file d dir_idx start dest content)

unfoldable pub find_place : Disk → List ℕ → Option ℕ
unfolding scan block_map
find_place d content =
    scan d.sb.block_count 0 0 (needed_blocks (length content))
      (block_map d.sb.directory (λ _. false))

unfoldable pub store_file : Disk → Name → List ℕ → Option ℕ → CopyIn × Disk
unfolding place_file find_place save_file
store_file d dest content none = (catalogue_full, d)
store_file d dest content (some dir_idx) = place_file d dir_idx dest content (find_place d content)

unfoldable pub open_source : Disk → Name → Option (List ℕ) → CopyIn × Disk
unfolding store_file find_free
open_source d dest none = (no_source, d)
open_source d dest (some content) = store_file d dest content (find_free d.sb.directory)

unfoldable pub copy_to_virtual :
    Disk → (source : Option (List ℕ)) → (dest_name : Name) → CopyIn × Disk
unfolding find_used open_source
copy_to_virtual d source dest = elim (find_used dest d.sb.directory) [
  | some _ ↦ (exists, d)
  | none ↦ open_source d dest source
]

-- The bytes of the file at an index of the directory.
unfoldable pub content_of : Disk → Option Entry → Option (List ℕ)
unfolding read_at
content_of d none = none
content_of d (some e) = some (read_at d.bytes (e.start_block * block_size) e.size_bytes)

-- `copy_from_virtual`, up to the copy on the local disk.
unfoldable pub copy_from_virtual : Disk → (src_name : Name) → Option (List ℕ)
unfolding find_used content_of
copy_from_virtual d src = elim (find_used src d.sb.directory) [
  | none ↦ none
  | some idx ↦ content_of d (get_elem? d.sb.directory idx)
]

-- `sb.directory[i].used = 0`
unfoldable pub free_entry : ℕ → Directory → Directory
free_entry i [] = []
free_entry zero (e ∷ es) = record e { used = false } ∷ es
free_entry (suc i) (e ∷ es) = e ∷ free_entry i es

-- The result says whether the file was found.
unfoldable pub delete_file : Disk → Name → Bool × Disk
unfolding find_used free_entry
delete_file d x = elim (find_used x d.sb.directory) [
  | none ↦ (false, d)
  | some i ↦ (true, with_directory d (free_entry i d.sb.directory))
]

-- The used entries, in the order of the directory.
unfoldable pub list_dir : Directory → Directory
list_dir [] = []
list_dir (e ∷ es) = let rest = list_dir es in if e.used then e ∷ rest else rest
