-- ===== src/Scenarios/Directories.antt =====
-- A list with folders, and a page of it whose poll finds nothing new.
use Prim.Native.Nat.{compare, Ordering}
use gothrough.Base.{
  ◌≡◌, refl, Bool, true, false, ◌||◌, Option, none, some, List, [], ◌∷◌, any, if◌then◌else◌, length,
  arith, Text, codes,
}
use gothrough.Messages.{plain}
use gothrough.Remote
use gothrough.Remote.{
  cancel, set_error, cancel_background, on_resolved, find_flight, resolved, finish, accept, release,
  abort_flights, land, announce, open_request, refresh, mount,
}
use gothrough.Listing.{
  Response, respond, answered, conditional_get, sent_with, load, reload, to_answer,
}
use gothrough.Listing.Honesty.{IsTagged, IsHonest}
use gothrough.Files.Folders.{has, folders, directory}
use gothrough.Files.Folders.Members.{is_above, has-folders}
use gothrough.Files.Folders.Nearest.{NearestFolder, directory-NearestFolder}
use gothrough.Files.Browse.{
  Listed, BrowserEntry, by_name, by_size, compare_entries, prefix_of, filtered,
}
use gothrough.Files.Order.{IsOrder, compare-IsOrder, compare_entries-IsOrder}
use gothrough.Files.Reach.{shows_way, misfits, filtered_reaches, filtered_fits}
use gothrough.Files.Deletion
use gothrough.Files.Deletion.{
  FileList, FilesPage, opened, PageEvent, run, handle_delete, ask_delete, auto_refresh,
  stop_background,
}
use gothrough.Files.Deletion.Validator.{run-opened-IsTagged}

abbrev names : List Text
names = codes "a/b/c.txt" ∷ codes "a/d.txt" ∷ codes "e.txt" ∷ []

has-folders_example : has (codes "a/b") (folders names) ≡ any (is_above (codes "a/b")) names
has-folders_example = has-folders (codes "a/b") names

directory-NearestFolder_example :
    NearestFolder (folders names) (codes "a/b/x/y") (directory (folders names) (codes "a/b/x/y"))
directory-NearestFolder_example = directory-NearestFolder (folders names) (codes "a/b/x/y")

abbrev listed : Text → Listed
listed name = record { name = name; size = 1; size_display = codes "1 B"; mtime = [] }

abbrev shown_files : List Listed
shown_files = listed (codes "a/b/c.txt") ∷ listed (codes "a/d.txt") ∷ listed (codes "e.txt") ∷ []

-- A sort by insertion.
abbrev is_after : Ordering → Bool
is_after Ordering.gt = true
is_after _ = false

abbrev insert :
    (BrowserEntry → BrowserEntry → Ordering) → BrowserEntry → List BrowserEntry → List BrowserEntry
insert c x [] = x ∷ []
insert c x (y ∷ ys) = let rest = insert c x ys in if is_after (c x y) then y ∷ rest else x ∷ y ∷ ys

abbrev insertion_sort :
    (BrowserEntry → BrowserEntry → Ordering) → List BrowserEntry → List BrowserEntry
insertion_sort c [] = []
insertion_sort c (x ∷ xs) = insert c x (insertion_sort c xs)

any-insert :
    (c : BrowserEntry → BrowserEntry → Ordering) (x : BrowserEntry) (ys : List BrowserEntry)
    (P : BrowserEntry → Bool)
    → any P (insert c x ys) ≡ (P x || any P ys)
any-insert c x [] P = refl
any-insert c x (y ∷ ys) P = ground (arith, any-insert c x ys P)

any-insertion_sort :
    (c : BrowserEntry → BrowserEntry → Ordering) (xs : List BrowserEntry) (P : BrowserEntry → Bool)
    → any P (insertion_sort c xs) ≡ any P xs
any-insertion_sort c [] P = refl
any-insertion_sort c (x ∷ xs) P =
    ground (arith, any-insert c x (insertion_sort c xs) P, any-insertion_sort c xs P)

abbrev compare_texts : Text → Text → Ordering
compare_texts s t = compare (length s) (length t)

compare_texts-IsOrder : IsOrder compare_texts
compare_texts-IsOrder = record {
  flipped = λ a b. compare-IsOrder.flipped (length a) (length b);
  chained = λ a b d. compare-IsOrder.chained (length a) (length b) (length d);
}

filtered_reaches_example :
    any (shows_way (codes "a/b/c.txt")) (
      filtered
        (λ s. s)
        compare_texts
        compare_texts
        length
        insertion_sort
        []
        (codes "a")
        by_name
        true
        shown_files)
    ≡ true
filtered_reaches_example =
    filtered_reaches (λ s. s) compare_texts compare_texts length insertion_sort any-insertion_sort
      (codes "a") by_name true shown_files (codes "a/b/c.txt") refl refl

filtered_fits_example :
    any (misfits (prefix_of (codes "a")) shown_files) (
      filtered
        (λ s. s)
        compare_texts
        compare_texts
        length
        insertion_sort
        []
        (codes "a")
        by_name
        true
        shown_files)
    ≡ false
filtered_fits_example =
    filtered_fits (λ s. s) compare_texts compare_texts length insertion_sort any-insertion_sort
      (codes "a") by_name true shown_files

-- A server that has given out one list, under one etag.
abbrev the_list : Option FileList
the_list = some (record { files = shown_files; total_size_display = codes "3 B" })

abbrev TheTag : Text → Option FileList → Type 0
TheTag e l = (e ≡ codes "v1") × (l ≡ the_list)

abbrev full_answer : Response (Option FileList)
full_answer = record { status = 200; etag = some (codes "v1"); body = the_list }

abbrev not_changed : Response (Option FileList)
not_changed = record { status = 304; etag = none; body = none }

abbrev history : List (PageEvent Unit)
history =
    PageEvent.list_answers 0 full_answer (plain [])
    ∷ PageEvent.polls
    ∷ PageEvent.list_answers 1 not_changed (plain [])
    ∷ PageEvent.asks (codes "e.txt")
    ∷ PageEvent.deletes (codes "e.txt")
    ∷ []

full_answer-IsHonest : (sent : Option Text) → IsHonest TheTag sent full_answer
full_answer-IsHonest sent = record {
  full = λ _. (refl, refl);
  unchanged = λ e. absurd (ground arith);
}

not_changed-IsHonest : (sent : Option Text) → IsHonest TheTag sent not_changed
not_changed-IsHonest sent = record {
  full = λ e. absurd (ground arith);
  unchanged = λ _ a e e' p q t. absurd (ground arith);
}

run-opened-IsTagged_example :
    IsTagged TheTag
      (run (opened (codes "a") none) history).listing.remote.validator
      (run (opened (codes "a") none) history).listing.remote.data'
run-opened-IsTagged_example =
    run-opened-IsTagged TheTag (codes "a") none history
      (full_answer-IsHonest _, (tt, (not_changed-IsHonest _, (tt, (tt, tt)))))

-- The poll keeps the list, the validator goes out with it, and the deletion cancels what is sent.
history_run : (run (opened (codes "a") none) history).listing.remote.data' ≡ the_list
unfolding run Deletion.step handle_delete ask_delete auto_refresh stop_background respond answered
    conditional_get sent_with load reload to_answer Remote.step cancel set_error cancel_background
    on_resolved find_flight resolved finish accept release abort_flights land announce open_request
    refresh mount
history_run = refl

compare_entries-IsOrder_example :
    IsOrder (compare_entries (λ s. s) compare_texts compare_texts length by_size false)
    × ((a b : BrowserEntry)
        → a.folder ≡ true
        → b.folder ≡ false
        → compare_entries (λ s. s) compare_texts compare_texts length by_size false a b
          ≡ Ordering.lt)
compare_entries-IsOrder_example =
    compare_entries-IsOrder (λ s. s) compare_texts compare_texts length compare_texts-IsOrder
      compare_texts-IsOrder by_size false
