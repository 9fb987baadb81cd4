-- ===== src/Dropped/Leaves.antt =====
-- A drop as one list of files, and what is collected from it.
use gothrough.Base.{◌≡◌, refl, sym, ap, ◌∙◌, Option, none, some, List, [], ◌∷◌, ◌++◌, Text, codes}
use gothrough.Upload.Types.{File}
use gothrough.Dropped.{
  Settled, refused_with, given, and_then, FileSystemEntry, file_entry, directory_entry, other_entry,
  Batches, drained, refused, batch, Siblings, no_more, sibling, TransferItem, DataTransfer, visit,
  visit_batches, visit_siblings, sources, take_source, take_sources, collect, collect_dropped_files,
}

module _ {E : Type 0} where
  -- The files below an entry in the order of the tree, each with its path; a directory that
  -- refuses stands for one that cannot be opened.
  unfoldable mutual
    pub leaves : FileSystemEntry E → Text → List (Settled E File)
    leaves (file_entry name (refused_with e)) parent = refused_with e ∷ []
    leaves (file_entry name (given file)) parent =
        given (record file { dropped_path = some (parent ++ name) }) ∷ []
    leaves (directory_entry name batches) parent =
        leaves_of_batches batches ((parent ++ name) ++ codes "/")
    leaves (other_entry name) parent = []

    pub leaves_of_batches : Batches E → Text → List (Settled E File)
    leaves_of_batches drained path = []
    leaves_of_batches (refused e) path = refused_with e ∷ []
    leaves_of_batches (batch child children rest) path =
        leaves child path ++ (leaves_of_siblings children path ++ leaves_of_batches rest path)

    pub leaves_of_siblings : Siblings E → Text → List (Settled E File)
    leaves_of_siblings no_more path = []
    leaves_of_siblings (sibling child children) path =
        leaves child path ++ leaves_of_siblings children path

  abbrev pub leaves_of_source : Option (FileSystemEntry E) → Option File → List (Settled E File)
  leaves_of_source (some entry) file = leaves entry []
  leaves_of_source none (some file) = given file ∷ []
  leaves_of_source none none = []

  abbrev pub source_leaves : List (TransferItem E) → List (Settled E File)
  source_leaves [] = []
  source_leaves (s ∷ rest) = leaves_of_source s.entry s.file ++ source_leaves rest

  -- All of the files, or the first failure.
  abbrev pub gather : List (Settled E File) → List File → Settled E (List File)
  gather [] files = given files
  gather (refused_with e ∷ rest) files = refused_with e
  gather (given file ∷ rest) files = gather rest (files ++ (file ∷ []))

  gather-append :
      (xs ys : List (Settled E File)) (files : List File)
      → gather (xs ++ ys) files ≡ and_then (gather xs files) (gather ys)
  gather-append [] ys files = refl
  gather-append (refused_with e ∷ xs) ys files = refl
  gather-append (given f ∷ xs) ys files = gather-append xs ys (files ++ (f ∷ []))

  and_then_congr :
      {A : Type 0} (o : Settled E A) (f g : A → Settled E (List File))
      → ((a : A) → f a ≡ g a)
      → and_then o f ≡ and_then o g
  and_then_congr (refused_with e) f g h = refl
  and_then_congr (given a) f g h = h a

  and_then_assoc :
      (o : Settled E (List File)) (f g : List File → Settled E (List File))
      → and_then (and_then o f) g ≡ and_then o (λ a. and_then (f a) g)
  and_then_assoc (refused_with e) f g = refl
  and_then_assoc (given a) f g = refl

  -- Two visits one after the other gather what stands in their lists, one after the other.
  in_turn :
      (xs ys : List (Settled E File)) (files : List File) (o : Settled E (List File))
      (f : List File → Settled E (List File))
      → o ≡ gather xs files
      → ((fs : List File) → f fs ≡ gather ys fs)
      → and_then o f ≡ gather (xs ++ ys) files
  in_turn xs ys files o f h k =
      ap (λ x. and_then x f) h
      ∙ and_then_congr (gather xs files) f (gather ys) k
      ∙ sym (gather-append xs ys files)

  mutual
    unfolding visit visit_batches visit_siblings leaves leaves_of_batches leaves_of_siblings

    pub visit-gather :
        (entry : FileSystemEntry E) (parent : Text) (files : List File)
        → visit entry parent files ≡ gather (leaves entry parent) files
    visit-gather (file_entry name (refused_with e)) parent files = refl
    visit-gather (file_entry name (given file)) parent files = refl
    visit-gather (directory_entry name batches) parent files =
        visit_batches-gather batches ((parent ++ name) ++ codes "/") files
    visit-gather (other_entry name) parent files = refl

    visit_batches-gather :
        (b : Batches E) (path : Text) (files : List File)
        → visit_batches b path files ≡ gather (leaves_of_batches b path) files
    visit_batches-gather drained path files = refl
    visit_batches-gather (refused e) path files = refl
    visit_batches-gather (batch child children rest) path files =
        and_then_assoc (visit child path files) (λ fs. visit_siblings children path fs)
          (λ fs. visit_batches rest path fs)
        ∙ in_turn (leaves child path)
            (leaves_of_siblings children path ++ leaves_of_batches rest path) files
            (visit child path files) _ (visit-gather child path files)
            (λ fs.
              in_turn (leaves_of_siblings children path) (leaves_of_batches rest path) fs
                (visit_siblings children path fs) _ (visit_siblings-gather children path fs)
                (λ gs. visit_batches-gather rest path gs))

    visit_siblings-gather :
        (c : Siblings E) (path : Text) (files : List File)
        → visit_siblings c path files ≡ gather (leaves_of_siblings c path) files
    visit_siblings-gather no_more path files = refl
    visit_siblings-gather (sibling child children) path files =
        in_turn (leaves child path) (leaves_of_siblings children path) files
          (visit child path files) _ (visit-gather child path files)
          (λ fs. visit_siblings-gather children path fs)

  take_source-gather :
      (entry : Option (FileSystemEntry E)) (file : Option File) (files : List File)
      → take_source entry file files ≡ gather (leaves_of_source entry file) files
  unfolding take_source
  take_source-gather (some entry) file files = visit-gather entry [] files
  take_source-gather none (some file) files = refl
  take_source-gather none none files = refl

  take_sources-gather :
      (items : List (TransferItem E)) (files : List File)
      → take_sources items files ≡ gather (source_leaves items) files
  unfolding take_sources
  take_sources-gather [] files = refl
  take_sources-gather (s ∷ rest) files =
      in_turn (leaves_of_source s.entry s.file) (source_leaves rest) files _ _
        (take_source-gather s.entry s.file files) (λ fs. take_sources-gather rest fs)

  -- Whatever is dropped: where nothing of it is a file, all of `files` is collected; else what is
  -- collected is every file of every item in order, those of a directory in the order of its tree
  -- and with their paths, however the directories were split into batches; and the collection
  -- fails exactly where one of them cannot be read, with the first such failure.
  pub collect_dropped_files-gather :
      (data' : DataTransfer E)
      → collect_dropped_files data' ≡ (elim (sources data') [
        | [] ↦ given data'.files
        | s ∷ rest ↦ gather (source_leaves (s ∷ rest)) []
      ])
  unfolding collect_dropped_files collect
  collect_dropped_files-gather data' = by_sources (sources data')
    where
      by_sources :
          (items : List (TransferItem E))
          → collect items data'.files ≡ (elim items [
            | [] ↦ given data'.files
            | s ∷ rest ↦ gather (source_leaves (s ∷ rest)) []
          ])
      by_sources [] = refl
      by_sources (s ∷ rest) = take_sources-gather (s ∷ rest) []
