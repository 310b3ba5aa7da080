-- ===== src/Disk/History.antt =====
-- The commands of fs.c one after another, from no disk: what holds of every disk they leave.
use soi_laboratoria_2025z.Base.{
  ℕ, ◌≤◌, ◌<◌, ◌≡◌, Bool, true, false, Option, none, some, List, [], ◌∷◌, arith, length,
}
use soi_laboratoria_2025z.Disk.Defs.{
  Name, Entry, Disk, needed_blocks, create_disk, max_files, free_entry, find_used, find_free,
  find_place, save_file, CopyIn, copy_to_virtual, delete_file, stored_name, with_directory,
}
use soi_laboratoria_2025z.Disk.Lookup.{find_used-lookup, find_free-Unused, lookup_file-NoName}
use soi_laboratoria_2025z.Disk.Invariant.{
  IsDisk, Inside-set, NoOverlap-set, UniqueNames-set, free_entry-keeps, blanks-IsDisk,
}
use soi_laboratoria_2025z.Disk.Store.{
  stored_name-short, find_place-some, found-FirstPlace, found-Clear, CopyRun, was_there, not_opened,
  full, crowded, stored, copy_to_virtual-CopyRun,
}

-- A command line that `main` accepts, with what the command reads outside of the disk.
pub data Command : Type 0 where
  create remove show_list show_map_of : Command
  copy_in : (source : Option (List ℕ)) (dest : Name) → Command
  copy_out : (src : Name) → Command
  delete : (x : Name) → Command

-- The dispatch of `main` and its effect on the file of the disk, which is `none` when there is none.
unfoldable pub run_command : Option Disk → Command → Option Disk
unfolding copy_to_virtual delete_file create_disk
run_command o create = some create_disk
run_command o remove = none
run_command none _ = none
run_command (some d) (copy_in source dest) = some (copy_to_virtual d source dest).1
run_command (some d) (delete x) = some (delete_file d x).1
run_command (some d) _ = some d

unfoldable pub run_commands : Option Disk → List Command → Option Disk
unfolding run_command
run_commands o [] = o
run_commands o (c ∷ cs) = run_commands (run_command o c) cs

abbrev pub AnyDisk : Option Disk → Type 0
AnyDisk none = Unit
AnyDisk (some d) = IsDisk d

-- The names given to `-cp` fit the field of the directory.
abbrev pub ShortNames : List Command → Type 0
ShortNames [] = Unit
ShortNames (copy_in source dest ∷ cs) = (length dest ≤ 31) × ShortNames cs
ShortNames (_ ∷ cs) = ShortNames cs

size-pos : (content : List ℕ) → 0 < needed_blocks (length content) → 0 < length content
size-pos content h = omega arith

save_file-IsDisk :
    (d : Disk) (i start : ℕ) (dest : Name) (content : List ℕ)
    → IsDisk d
    → length dest ≤ 31
    → find_used dest d.sb.directory ≡ none
    → find_free d.sb.directory ≡ some i
    → find_place d content ≡ some start
    → IsDisk (save_file d i start dest content)
unfolding save_file
save_file-IsDisk d i start dest content h short absent slot place =
    let unused = find_free-Unused d.sb.directory i slot in
    record {
      inside = Inside-set d.sb.block_count d.sb.directory i new h.inside (
        size-pos content (find_place-some d content start place),
        (found-FirstPlace d content start place).within,
      );
      apart =
          NoOverlap-set d.sb.directory i new unused h.apart (found-Clear d content start h place);
      names = UniqueNames-set d.sb.directory i new unused h.names (
          rw (stored_name-short 31 dest short)
            (lookup_file-NoName dest d.sb.directory (find_used-lookup dest d.sb.directory absent)));
    }
  where
    new : Entry
    new = record {
      name = stored_name 31 dest;
      start_block = start;
      size_bytes = length content;
      used = true;
    }

copy_to_virtual-IsDisk :
    (d : Disk) (source : Option (List ℕ)) (dest : Name)
    → IsDisk d
    → length dest ≤ 31
    → IsDisk (copy_to_virtual d source dest).1
copy_to_virtual-IsDisk d source dest h short =
    by_run (copy_to_virtual d source dest).0 (copy_to_virtual d source dest).1
      (copy_to_virtual-CopyRun d source dest)
  where
    by_run : (r : CopyIn) (d' : Disk) → CopyRun d source dest r d' → IsDisk d'
    by_run _ _ (was_there _) = h
    by_run _ _ (not_opened _ _) = h
    by_run _ _ (full _ _ _ _) = h
    by_run _ _ (crowded _ _ _ _) = h
    by_run _ _ (stored c i start s u f p) = save_file-IsDisk d i start dest c h short u f p

free_entry-IsDisk :
    (d : Disk) (i : ℕ) → IsDisk d → IsDisk (with_directory d (free_entry i d.sb.directory))
free_entry-IsDisk d i h =
    let (a, b, c) = free_entry-keeps d.sb.block_count i d.sb.directory h.inside h.apart h.names in
    record { inside = a; apart = b; names = c }

delete_file-IsDisk : (d : Disk) (x : Name) → IsDisk d → IsDisk (delete_file d x).1
unfolding delete_file
delete_file-IsDisk d x h = found (find_used x d.sb.directory)
  where
    found :
        (o : Option ℕ)
        → IsDisk
            (elim o as (λ _. Bool × Disk) [
              | none ↦ (false, d)
              | some i ↦ (true, with_directory d (free_entry i d.sb.directory))
            ]).1
    found none = h
    found (some i) = free_entry-IsDisk d i h

create_disk-IsDisk : IsDisk create_disk
unfolding create_disk
create_disk-IsDisk =
    let (a, b, c) = blanks-IsDisk create_disk.sb.block_count max_files in
    record { inside = a; apart = b; names = c }

run_command-AnyDisk :
    (o : Option Disk) (c : Command) → AnyDisk o → ShortNames (c ∷ []) → AnyDisk (run_command o c)
unfolding run_command
run_command-AnyDisk o create h s = create_disk-IsDisk
run_command-AnyDisk o remove h s = tt
run_command-AnyDisk none show_list h s = tt
run_command-AnyDisk none show_map_of h s = tt
run_command-AnyDisk none (copy_in source dest) h s = tt
run_command-AnyDisk none (copy_out src) h s = tt
run_command-AnyDisk none (delete x) h s = tt
run_command-AnyDisk (some d) show_list h s = h
run_command-AnyDisk (some d) show_map_of h s = h
run_command-AnyDisk (some d) (copy_in source dest) h s = copy_to_virtual-IsDisk d source dest h s.0
run_command-AnyDisk (some d) (copy_out src) h s = h
run_command-AnyDisk (some d) (delete x) h s = delete_file-IsDisk d x h

ShortNames-head :
    (c : Command) (cs : List Command) → ShortNames (c ∷ cs) → ShortNames (c ∷ []) × ShortNames cs
ShortNames-head create cs h = (tt, h)
ShortNames-head remove cs h = (tt, h)
ShortNames-head show_list cs h = (tt, h)
ShortNames-head show_map_of cs h = (tt, h)
ShortNames-head (copy_in source dest) cs h = ((h.0, tt), h.1)
ShortNames-head (copy_out src) cs h = (tt, h)
ShortNames-head (delete x) cs h = (tt, h)

pub run_commands-keeps :
    (o : Option Disk) (cs : List Command) → AnyDisk o → ShortNames cs → AnyDisk (run_commands o cs)
unfolding run_commands
run_commands-keeps o [] h s = h
run_commands-keeps o (c ∷ cs) h s =
    let (one, rest) = ShortNames-head c cs s in
    run_commands-keeps (run_command o c) cs (run_command-AnyDisk o c h one) rest

-- Whatever commands are given, starting without a disk and with names of at most 31 bytes for the files
-- copied in, a disk that is left has its files inside its blocks, no block in two files and no name twice.
pub run_commands-AnyDisk : (cs : List Command) → ShortNames cs → AnyDisk (run_commands none cs)
run_commands-AnyDisk cs s = run_commands-keeps none cs tt s
