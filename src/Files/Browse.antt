-- ===== src/Files/Browse.antt =====
-- What the page shows of a directory, or of a search, and in which order.
use Prim.Native.Nat.{compare, Ordering}
use gothrough.Base.{
  ℕ, Bool, true, false, ◌&&◌, ◌||◌, not, List, [], ◌∷◌, ◌++◌, map, keep, length, drop,
  if◌then◌else◌, Text, starts_with, is_empty, codes,
}
use gothrough.Files.Paths.{slash}
use gothrough.Files.Folders.{folders}

-- UploadedFile
pub record Listed : Type 0 where
  pub name : Text
  pub size : ℕ
  pub size_display : Text
  pub mtime : Text

pub record BrowserEntry : Type 0 where
  pub file : Listed
  pub folder : Bool
  pub label : Text

-- `String.prototype.includes`
abbrev pub includes_text : Text → Text → Bool
includes_text [] t = starts_with [] t
includes_text (c ∷ s) t = starts_with (c ∷ s) t || includes_text s t

abbrev pub holds_slash : Text → Bool
holds_slash s = includes_text s (slash ∷ [])

abbrev pub prefix_of : Text → Text
prefix_of directory = if is_empty directory then [] else directory ++ (slash ∷ [])

-- Directly below the directory of the prefix.
abbrev pub stands_below : Text → Text → Bool
stands_below prefix name = starts_with name prefix && not (holds_slash (drop (length prefix) name))

abbrev pub file_entry : Text → Listed → BrowserEntry
file_entry label file = record { file = file; folder = false; label = label }

abbrev pub folder_entry : Text → Text → BrowserEntry
folder_entry prefix name = record {
  file = record { name = name; size = 0; size_display = codes "—"; mtime = [] };
  folder = true;
  label = drop (length prefix) name;
}

abbrev pub names_of : List Listed → List Text
names_of = map (λ (file : Listed). file.name)

abbrev pub file_entries : Text → List Listed → List BrowserEntry
file_entries prefix files =
    map (λ (file : Listed). file_entry (drop (length prefix) file.name) file)
      (keep (λ (file : Listed). stands_below prefix file.name) files)

abbrev pub folder_entries : Text → List Text → List BrowserEntry
folder_entries prefix paths = map (folder_entry prefix) (keep (stands_below prefix) paths)

-- The entries of a directory, files first as they come.
unfoldable pub directory_entries : Text → List Listed → List BrowserEntry
directory_entries prefix files =
    file_entries prefix files ++ folder_entries prefix (folders (names_of files))

pub data SortField : Type 0 where
  by_mtime by_size by_name : SortField

abbrev pub is_name : SortField → Bool
is_name by_name = true
is_name _ = false

abbrev pub flip : Ordering → Ordering
flip Ordering.lt = Ordering.gt
flip Ordering.eq = Ordering.eq
flip Ordering.gt = Ordering.lt

-- `a || b` of comparisons
abbrev pub or_else : Ordering → Ordering → Ordering
or_else Ordering.eq o = o
or_else o _ = o

-- `fold` is toLocaleLowerCase, `numeric` and `plain` are localeCompare with and without the page's
-- language and its option, and `timestamp` is timestampValue.
module _ (fold : Text → Text) (numeric plain : Text → Text → Ordering) (timestamp : Text → ℕ) where
  -- The entries of a search for a keyword.
  unfoldable pub search_entries : Text → List Listed → List BrowserEntry
  search_entries keyword files =
      map (λ (file : Listed). file_entry file.name file)
        (keep (λ (file : Listed). includes_text (fold file.name) keyword) files)

  unfoldable pub compare_field : SortField → BrowserEntry → BrowserEntry → Ordering
  compare_field by_size a b = compare a.file.size b.file.size
  compare_field by_name a b = numeric a.label b.label
  compare_field by_mtime a b = compare (timestamp a.file.mtime) (timestamp b.file.mtime)

  -- The comparison of `files.sort`; `up` is the direction.
  unfoldable pub compare_entries : SortField → Bool → BrowserEntry → BrowserEntry → Ordering
  compare_entries field up a b =
      if a.folder && not b.folder
      then Ordering.lt
      else if b.folder && not a.folder
      then Ordering.gt
      else if a.folder && not (is_name field)
      then numeric a.label b.label
      else or_else (if up then compare_field field a b else flip (compare_field field a b))
          (plain a.file.name b.file.name)

  -- `sort` is Array.prototype.sort.
  module _
      (sort : (BrowserEntry → BrowserEntry → Ordering)
        → List BrowserEntry
        → List BrowserEntry) where
    unfoldable pub filtered : Text → Text → SortField → Bool → List Listed → List BrowserEntry
    filtered keyword directory field up files = sort (compare_entries field up) (
        if is_empty keyword
        then directory_entries (prefix_of directory) files
        else search_entries keyword files)
