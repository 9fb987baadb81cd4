-- ===== src/Scenarios/Drops.antt =====
-- A dropped folder that is read in two batches, and durations as a dictionary writes them.
use gothrough.Base.{
  ◌*◌, ◌≤◌, ◌<◌, ◌⊎◌, ◌≡◌, refl, true, none, some, List, [], ◌∷◌, ◌++◌, All, Text, codes,
  starts_with, arith,
}
use gothrough.Base.Decimal.{decimal}
use gothrough.Messages.{Leaf, plain}
use gothrough.Upload.Types.{File, uploading}
use gothrough.Upload.FileKey.{get_upload_path}
use gothrough.Upload.Snapshot.{ViewItem}
use gothrough.Dropped.{
  given, file_entry, directory_entry, Batches, drained, batch, no_more, DataTransfer, visit,
  sources, collect_dropped_files, collect, take_sources, take_source,
}
use gothrough.Dropped.Leaves.{source_leaves, gather, collect_dropped_files-gather}
use gothrough.Dropped.Below.{visit-directory_IsBelow}
use gothrough.Durations.{format_elapsed, format_eta}
use gothrough.Durations.Parts.{Elapsed, format_elapsed-Elapsed, Remaining, format_eta-Remaining}
use gothrough.Queue.State.{is_success}
use gothrough.UploadPage.Row.{progress, progress_full}

abbrev a_file : Text → File
a_file name = record {
  name = name;
  size = 5;
  last_modified = 7;
  webkit_relative_path = [];
  dropped_path = none;
}

abbrev in_folder : Text → File
in_folder name = record (a_file name) { dropped_path = some (codes "photos/" ++ name) }

abbrev two_batches : Batches Text
two_batches =
    batch (file_entry (codes "a.jpg") (given (a_file (codes "a.jpg")))) no_more
      (batch (file_entry (codes "b.jpg") (given (a_file (codes "b.jpg")))) no_more drained)

abbrev drop : DataTransfer Text
drop = record {
  items = some (
      record { kind = codes "string"; entry = none; file = none }
      ∷ record {
        kind = codes "file";
        entry = some (directory_entry (codes "photos") two_batches);
        file = none;
      }
      ∷ []);
  files = [];
}

collect_dropped_files-gather_example :
    collect_dropped_files drop
    ≡ (elim (sources drop) [ [] ↦ given [] | s ∷ rest ↦ gather (source_leaves (s ∷ rest)) [] ])
collect_dropped_files-gather_example = collect_dropped_files-gather drop

both_collected :
    collect_dropped_files drop ≡ given (in_folder (codes "a.jpg") ∷ in_folder (codes "b.jpg") ∷ [])
unfolding collect_dropped_files visit collect sources take_sources take_source
both_collected = refl

photos_visited :
    visit (directory_entry (codes "photos") two_batches) [] []
    ≡ given (in_folder (codes "a.jpg") ∷ in_folder (codes "b.jpg") ∷ [])
unfolding visit
photos_visited = refl

visit-directory_IsBelow_example :
    All
      (λ (f : File). starts_with (get_upload_path f) (([] ++ codes "photos") ++ codes "/") ≡ true)
      (in_folder (codes "a.jpg") ∷ in_folder (codes "b.jpg") ∷ [])
visit-directory_IsBelow_example =
    visit-directory_IsBelow (codes "photos") [] two_batches
      (in_folder (codes "a.jpg") ∷ in_folder (codes "b.jpg") ∷ []) photos_visited

-- A dictionary that writes the number and the end of the key.
abbrev leaf_text : List (Text × Leaf) → Text
leaf_text ((_, Leaf.number n) ∷ _) = decimal n
leaf_text ((_, Leaf.text s) ∷ _) = s
leaf_text [] = []

abbrev dictionary : Text → List (Text × Leaf) → Text
dictionary key values = leaf_text values ++ key

format_elapsed-Elapsed_example : Elapsed dictionary 3725678 (format_elapsed dictionary 3725678)
format_elapsed-Elapsed_example = format_elapsed-Elapsed dictionary 3725678

format_eta-Remaining_example :
    Remaining dictionary 1000000 1500 (format_eta dictionary 1000000 1500)
format_eta-Remaining_example = format_eta-Remaining dictionary 1000000 1500 (omega arith)

abbrev a_row : ViewItem
a_row = record {
  file = a_file (codes "a.jpg");
  state = uploading;
  speed = 3;
  saved_filename = [];
  loaded_bytes = 2;
  error = plain [];
  elapsed_ms = none;
  session = none;
}

progress_full_example :
    (progress a_row ≤ 100)
    × (progress a_row ≡ 100
        → (is_success a_row.state ≡ true)
          ⊎ ((0 < a_row.file.size) × (199 * a_row.file.size ≤ 200 * a_row.loaded_bytes)))
progress_full_example = progress_full a_row
