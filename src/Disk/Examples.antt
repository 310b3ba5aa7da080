-- ===== src/Disk/Examples.antt =====
-- Runs of the commands of fs.c, and the theorems at concrete disks.
use soi_laboratoria_2025z.Base.{
  ℕ, ◌≡◌, refl, true, none, some, List, [], ◌∷◌, arith, ltb, if◌then◌else◌,
}
use soi_laboratoria_2025z.Disk.Defs.{
  same_name, Disk, blank, no_space, saved, copy_to_virtual, copy_from_virtual, delete_file,
  find_place, store_file, place_file, open_source,
}
use soi_laboratoria_2025z.Disk.Blocks.{occupied}
use soi_laboratoria_2025z.Disk.Invariant.{IsDisk}
use soi_laboratoria_2025z.Disk.View.{
  files_after, copy_to_virtual-files_after, delete_file-copy_from_virtual,
}
use soi_laboratoria_2025z.Disk.Outcome.{Outcome, copy_to_virtual-Outcome}
use soi_laboratoria_2025z.Disk.History.{
  Command, create, copy_in, delete, run_commands, AnyDisk, run_commands-AnyDisk,
}
use soi_laboratoria_2025z.Disk.Map.{
  free_row, file_row, show_map, Tiles, in_file_row, show_map-Tiles,
}

-- A disk of four blocks with a file in the second.
abbrev one_file : Disk
one_file = record {
  sb = record {
    total_size = 5512;
    block_count = 4;
    directory =
        record { name = 97 ∷ []; start_block = 1; size_bytes = 2; used = true }
        ∷ blank
        ∷ blank
        ∷ [];
  };
  bytes = λ i. if ltb i 1025 then 7 else 8;
}

one_file-IsDisk : IsDisk one_file
one_file-IsDisk = record {
  inside = (λ _. (omega arith, omega arith), (λ u. absurd (cc), (λ u. absurd (cc), tt)));
  apart = (
    λ _. ((λ u. absurd (cc)), ((λ u. absurd (cc)), tt)),
    (λ u. absurd (cc), (λ u. absurd (cc), tt)),
  );
  names = (
    λ _. ((λ u. absurd (cc)), ((λ u. absurd (cc)), tt)),
    (λ u. absurd (cc), (λ u. absurd (cc), tt)),
  );
}

copied_in : (copy_to_virtual one_file (some (5 ∷ 6 ∷ [])) (98 ∷ [])).0 ≡ saved 0
unfolding copy_to_virtual open_source store_file find_place place_file
copied_in = refl

read_back :
    copy_from_virtual (copy_to_virtual one_file (some (5 ∷ 6 ∷ [])) (98 ∷ [])).1 (98 ∷ [])
    ≡ some (5 ∷ 6 ∷ [])
unfolding copy_to_virtual copy_from_virtual open_source store_file find_place place_file
read_back = refl

-- A file of no bytes is refused, on a disk that is almost empty.
empty_refused : (copy_to_virtual one_file (some []) (98 ∷ [])).0 ≡ no_space
unfolding copy_to_virtual open_source store_file find_place place_file
empty_refused = refl

map_shown : show_map one_file ≡ free_row 0 1 ∷ file_row 1 1 (97 ∷ []) 1022 ∷ free_row 2 2 ∷ []
unfolding show_map
map_shown = refl

copy_to_virtual-files_after_example :
    copy_from_virtual (copy_to_virtual one_file (some (5 ∷ 6 ∷ [])) (98 ∷ [])).1 (97 ∷ [])
    ≡ files_after
        (copy_to_virtual one_file (some (5 ∷ 6 ∷ [])) (98 ∷ [])).0
        (98 ∷ [])
        (5 ∷ 6 ∷ [])
        (copy_from_virtual one_file)
        (97 ∷ [])
copy_to_virtual-files_after_example =
    copy_to_virtual-files_after one_file (5 ∷ 6 ∷ []) (98 ∷ []) (97 ∷ []) one_file-IsDisk
      (omega arith)

delete_file-copy_from_virtual_example :
    copy_from_virtual (delete_file one_file (97 ∷ [])).1 (97 ∷ [])
    ≡ (if same_name (97 ∷ []) (97 ∷ []) then none else copy_from_virtual one_file (97 ∷ []))
delete_file-copy_from_virtual_example =
    delete_file-copy_from_virtual one_file (97 ∷ []) (97 ∷ []) one_file-IsDisk

copy_to_virtual-Outcome_example :
    Outcome one_file
      (some (5 ∷ 6 ∷ []))
      (98 ∷ [])
      (copy_to_virtual one_file (some (5 ∷ 6 ∷ [])) (98 ∷ [])).0
copy_to_virtual-Outcome_example = copy_to_virtual-Outcome one_file (some (5 ∷ 6 ∷ [])) (98 ∷ [])

abbrev session : List Command
session =
    create
    ∷ copy_in (some (1 ∷ 2 ∷ [])) (97 ∷ [])
    ∷ copy_in (some (3 ∷ [])) (98 ∷ [])
    ∷ delete (97 ∷ [])
    ∷ copy_in (some (4 ∷ [])) (99 ∷ [])
    ∷ []

run_commands-AnyDisk_example : AnyDisk (run_commands none session)
run_commands-AnyDisk_example =
    run_commands-AnyDisk session (omega arith, (omega arith, (omega arith, tt)))

show_map-Tiles_example :
    Tiles 0 one_file.sb.block_count (show_map one_file)
    × ((i : ℕ) → in_file_row (show_map one_file) i ≡ occupied one_file.sb.directory i)
show_map-Tiles_example = show_map-Tiles one_file one_file-IsDisk
