-- ===== src/Dropped.antt =====
-- utils/droppedFiles.ts collectDroppedFiles: the files of a drop, with those of its directories.
pub mod Leaves
pub mod Below
use gothrough.Base.{
  ◌≡◌, Bool, true, false, Option, none, some, List, [], ◌∷◌, ◌++◌, keep, if◌then◌else◌, Text,
  text_eq, codes,
}
use gothrough.Upload.Types.{File}

-- A promise that has settled.
pub data Settled {ℓ κ} (E : Type ℓ) (A : Type κ) : Type (ℓ ⊔ κ) where
  refused_with : E → Settled E A
  given : A → Settled E A

abbrev pub and_then {ℓ κ μ} :
    {E : Type ℓ} {A : Type κ} {B : Type μ} → Settled E A → (A → Settled E B) → Settled E B
and_then (refused_with e) f = refused_with e
and_then (given a) f = f a

-- The browser's entries: a file settles as it is opened; a directory answers readEntries by one
-- batch after another, until it rejects or answers an empty batch; some are neither.
mutual
  pub data FileSystemEntry (E : Type 0) : Type 0 where
    file_entry : Text → Settled E File → FileSystemEntry E
    directory_entry : Text → Batches E → FileSystemEntry E
    other_entry : Text → FileSystemEntry E

  pub data Batches (E : Type 0) : Type 0 where
    drained : Batches E
    refused : E → Batches E
    batch : FileSystemEntry E → Siblings E → Batches E → Batches E

  pub data Siblings (E : Type 0) : Type 0 where
    no_more : Siblings E
    sibling : FileSystemEntry E → Siblings E → Siblings E

pub record TransferItem (E : Type 0) : Type 0 where
  pub kind : Text
  pub entry : Option (FileSystemEntry E)
  pub file : Option File

-- `items` may be missing.
pub record DataTransfer (E : Type 0) : Type 0 where
  pub items : Option (List (TransferItem E))
  pub files : List File

module _ {E : Type 0} where
  -- `relativePaths.set(file, path)` and `files.push(file)`
  abbrev pub push_file : Text → List File → Settled E File → Settled E (List File)
  push_file path files (refused_with e) = refused_with e
  push_file path files (given file) =
      given (files ++ (record file { dropped_path = some path } ∷ []))

  unfoldable mutual
    pub visit : FileSystemEntry E → Text → List File → Settled E (List File)
    visit (file_entry name opened) parent files = push_file (parent ++ name) files opened
    visit (directory_entry name batches) parent files =
        visit_batches batches ((parent ++ name) ++ codes "/") files
    visit (other_entry name) parent files = given files

    pub visit_batches : Batches E → Text → List File → Settled E (List File)
    visit_batches drained path files = given files
    visit_batches (refused e) path files = refused_with e
    visit_batches (batch child children rest) path files =
        and_then (and_then (visit child path files) (λ fs. visit_siblings children path fs))
          (λ fs. visit_batches rest path fs)

    pub visit_siblings : Siblings E → Text → List File → Settled E (List File)
    visit_siblings no_more path files = given files
    visit_siblings (sibling child children) path files =
        and_then (visit child path files) (λ fs. visit_siblings children path fs)

  abbrev pub items_of : Option (List (TransferItem E)) → List (TransferItem E)
  items_of none = []
  items_of (some items) = items

  unfoldable pub sources : DataTransfer E → List (TransferItem E)
  sources data' =
      keep (λ (item : TransferItem E). text_eq item.kind (codes "file")) (items_of data'.items)

  unfoldable pub take_source :
      Option (FileSystemEntry E) → Option File → List File → Settled E (List File)
  take_source (some entry) file files = visit entry [] files
  take_source none (some file) files = given (files ++ (file ∷ []))
  take_source none none files = given files

  unfoldable pub take_sources : List (TransferItem E) → List File → Settled E (List File)
  take_sources [] files = given files
  take_sources (s ∷ rest) files =
      and_then (take_source s.entry s.file files) (λ fs. take_sources rest fs)

  unfoldable pub collect : List (TransferItem E) → List File → Settled E (List File)
  collect [] fallback = given fallback
  collect (s ∷ rest) fallback = take_sources (s ∷ rest) []

  unfoldable pub collect_dropped_files : DataTransfer E → Settled E (List File)
  collect_dropped_files data' = collect (sources data') data'.files
