-- ===== src/Scenarios/Lists.antt =====
-- A list of 45 files in three pages, and the snapshot of an item that has made progress.
use gothrough.Base.{
  ℕ, ◌+◌, ◌≤◌, ◌<◌, ◌%◌, ◌/◌, ◌≡◌, Bool, true, false, none, some, List, [], get_elem?, replicate,
  arith, text_eq, text_eq→eq, codes, ap,
}
use native.Mathlib.Decide.{ℕ_discrete}
use gothrough.Messages.{Message, plain}
use gothrough.Upload.Types.{File, UploadItem, uploading}
use gothrough.Upload.Snapshot.{
  Shows, take_snapshot, create_upload_snapshot, create_upload_snapshot-Shows,
}
use gothrough.Queue.Actions.{fresh_item}
use gothrough.Pages.{
  page_size, page_files, get_elem?-page_files, first_page, shown_pages, total_pages, current_page,
  shown_pages_bounds,
}

abbrev many : List ℕ
many = replicate 45 7

get_elem?-page_files_example :
    get_elem? (page_files (41 / page_size + 1) many) (41 % page_size) ≡ get_elem? many 41
get_elem?-page_files_example = get_elem?-page_files many 41 (omega arith)

shown_pages_bounds_example :
    (1 ≤ first_page 9 45)
    × (first_page 9 45 + shown_pages 45 ≤ total_pages 45 + 1)
    × (first_page 9 45 ≤ current_page 9 45)
    × (current_page 9 45 < first_page 9 45 + shown_pages 45)
shown_pages_bounds_example = shown_pages_bounds 9 45 (omega arith)

abbrev notes : File
notes = record {
  name = codes "notes.txt";
  size = 5;
  last_modified = 7;
  webkit_relative_path = [];
  dropped_path = none;
}

File-discrete : Discrete File
File-discrete = hlevel (ℕ_discrete)

abbrev same_file : File → File → Bool
same_file a b = elim (File-discrete a b) [ yes _ ↦ true | no _ ↦ false ]

same_file→eq : (a b : File) → same_file a b ≡ true → a ≡ b
same_file→eq a b h =
    elim (File-discrete a b) as (λ d. elim d [ yes _ ↦ true | no _ ↦ false ] ≡ true → a ≡ b) [
      | yes p ↦ λ _. p
      | no _ ↦ λ q. cc
    ]
      h

-- Messages that are texts.
abbrev same_message : Message → Message → Bool
same_message (plain s) (plain t) = text_eq s t
same_message _ _ = false

same_message→eq : (a b : Message) → same_message a b ≡ true → a ≡ b
same_message→eq (plain s) (plain t) h = ap plain (text_eq→eq s t h)
same_message→eq _ _ h = cc

abbrev under_way : UploadItem
under_way = record (fresh_item notes) { state = uploading; speed = 3; loaded_bytes = 2 }

create_upload_snapshot-Shows_example :
    Shows
      (create_upload_snapshot same_file same_message under_way
        (some (take_snapshot same_file same_message (fresh_item notes))))
      under_way
create_upload_snapshot-Shows_example =
    create_upload_snapshot-Shows same_file same_message same_file→eq same_message→eq under_way
      (some (take_snapshot same_file same_message (fresh_item notes)))
