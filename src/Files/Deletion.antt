-- ===== src/Files/Deletion.antt =====
-- The file list as a page: its list and its disk usage, deletion, and what the user looks at.
pub mod Validator
use gothrough.Base.{
  ℕ, ◌≡◌, Bool, true, false, ◌&&◌, ◌||◌, not, Option, none, some, is_some, List, [], ◌∷◌, keep,
  if◌then◌else◌, Text, text_eq, codes,
}
use gothrough.Messages.{Message, plain, message, end, entry, as_value, Value}
use gothrough.Remote
use gothrough.Remote.{Remote, RemoteEvent}
use gothrough.Listing.{
  Listing, Response, opening, load, respond, mutate, cancel_load, cancel_poll, show_error,
  fail_load, leave, enter,
}
use gothrough.Files.Browse.{Listed}

-- FileListData
pub record FileList : Type 0 where
  pub files : List Listed
  pub total_size_display : Text

-- `deleteInProgress` is held while the deletion is awaited, and then while the lists are reloaded.
pub data DeletionStage : Type 0 where
  acting : Text → DeletionStage
  reloading : DeletionStage

-- `requested` is the directory of the address, and `Disk` what getDiskInfo answers.
pub record FilesPage (Disk : Type 0) : Type 0 where
  pub listing : Listing (Option FileList)
  pub disk : Remote (Option Disk)
  pub notice : Message
  pub query : Text
  pub page : ℕ
  pub requested : Text
  pub confirming : Option Text
  pub deleting : Option Text
  pub previewing : Option Text
  pub operation : Option DeletionStage

abbrev pub is_asked : Text → Option Text → Bool
is_asked name none = false
is_asked name (some asked) = text_eq asked name

abbrev pub without : Text → Option FileList → Option FileList
without name none = none
without name (some l) =
    some (record l { files = keep (λ (file : Listed). not (text_eq file.name name)) l.files })

module _ {Disk : Type 0} where
  -- The page once its effects have run; `previewing` is the name of a draft that was kept.
  abbrev pub opened : Text → Option Text → FilesPage Disk
  opened requested preserved = record {
    listing = enter (opening none);
    disk = Remote.step (Remote.initial none) RemoteEvent.mounts;
    notice = plain [];
    query = [];
    page = 1;
    requested = requested;
    confirming = none;
    deleting = none;
    previewing = preserved;
    operation = none;
  }

  abbrev pub is_mounted : FilesPage Disk → Bool
  is_mounted p = p.listing.remote.mounted

  -- handleDelete up to the await of its request
  unfoldable pub handle_delete : Text → FilesPage Disk → FilesPage Disk
  handle_delete name p =
      if is_some p.operation || not (is_asked name p.confirming) then p else record p {
        operation = some (acting name);
        deleting = some name;
        notice = plain [];
        listing = cancel_load (show_error (plain []) p.listing);
        disk = Remote.step p.disk RemoteEvent.cancels;
      }

  pub refresh_all : FilesPage Disk → FilesPage Disk
  refresh_all p = record p {
    listing = load false p.listing;
    disk = Remote.step p.disk (RemoteEvent.refreshes false);
  }

  -- The finally block of handleDelete
  abbrev pub finish_delete : FilesPage Disk → FilesPage Disk
  finish_delete p = record p {
    operation = none;
    deleting = if is_mounted p then none else p.deleting;
  }

  -- The request has succeeded, up to the await of the reload; or the page is gone.
  pub deleted : Option DeletionStage → FilesPage Disk → FilesPage Disk
  deleted (some (acting name)) p =
      if is_mounted p
      then record (refresh_all (record p {
        listing = mutate (without name) p.listing;
        confirming = none;
        notice = message (codes "files.deleted") (entry (codes "name") (Value.text name) end);
      })) { operation = some reloading }
      else finish_delete p
  deleted _ p = p

  pub delete_failed : Option DeletionStage → Message → FilesPage Disk → FilesPage Disk
  delete_failed (some (acting name)) error p = finish_delete (
      if is_mounted p
      then record p {
        listing =
            show_error
              (message (codes "files.deleteFailed") (
                entry (codes "name") (Value.text name)
                  (entry (codes "error") (as_value error) end)))
              p.listing;
      }
      else p)
  delete_failed _ error p = p

  pub reload_settled : Option DeletionStage → FilesPage Disk → FilesPage Disk
  reload_settled (some reloading) p = finish_delete p
  reload_settled _ p = p

  -- autoRefresh and autoRefreshDisk, where no text is selected
  unfoldable pub auto_refresh : FilesPage Disk → FilesPage Disk
  auto_refresh p = if is_some p.operation then p else record p { listing = load true p.listing }

  pub auto_refresh_disk : FilesPage Disk → FilesPage Disk
  auto_refresh_disk p =
      if is_some p.operation
      then p
      else record p { disk = Remote.step p.disk (RemoteEvent.refreshes true) }

  -- The button is disabled during a deletion.
  unfoldable pub manual_refresh : FilesPage Disk → FilesPage Disk
  manual_refresh p = if is_some p.deleting then p else refresh_all (record p { confirming = none })

  pub refresh_after_edit : FilesPage Disk → FilesPage Disk
  refresh_after_edit p = refresh_all (record p { listing = mutate (λ files. files) p.listing })

  unfoldable pub stop_background : FilesPage Disk → FilesPage Disk
  stop_background p = record p {
    listing = cancel_poll p.listing;
    disk = Remote.step p.disk RemoteEvent.cancels_background;
  }

  pub open_directory : Text → FilesPage Disk → FilesPage Disk
  open_directory name p =
      if is_some p.operation
      then p
      else record p { query = []; page = 1; confirming = none; requested = name }

  -- The row's buttons: to ask for a deletion, which is disabled during one, and to preview.
  unfoldable pub ask_delete : Text → FilesPage Disk → FilesPage Disk
  ask_delete name p =
      if is_some p.deleting then p else record (stop_background p) { confirming = some name }

  pub preview : Text → FilesPage Disk → FilesPage Disk
  preview name p = record (stop_background p) { previewing = some name }

  abbrev pub keep_file : FilesPage Disk → FilesPage Disk
  keep_file p = record p { confirming = none }

  abbrev pub close_preview : FilesPage Disk → FilesPage Disk
  close_preview p = record p { previewing = none }

  abbrev pub search : Text → FilesPage Disk → FilesPage Disk
  search query p = record p { query = query; page = 1; confirming = none }

  abbrev pub turn_page : ℕ → FilesPage Disk → FilesPage Disk
  turn_page n p = record p { page = n; confirming = none }

pub data PageEvent (Disk : Type 0) : Type 0 where
  deletes opens asks previews searches : Text → PageEvent Disk
  deletion_succeeds reload_ends polls polls_disk refreshes edited keeps closes leaves :
      PageEvent Disk
  deletion_fails : Message → PageEvent Disk
  turns : ℕ → PageEvent Disk
  list_answers : ℕ → Response (Option FileList) → Message → PageEvent Disk
  list_fails : ℕ → Message → PageEvent Disk
  disk_settles : RemoteEvent (Option Disk) → PageEvent Disk

module _ {Disk : Type 0} where
  unfoldable pub step : FilesPage Disk → PageEvent Disk → FilesPage Disk
  step p (deletes name) = handle_delete name p
  step p (opens name) = open_directory name p
  step p (asks name) = ask_delete name p
  step p (previews name) = preview name p
  step p (searches query) = search query p
  step p deletion_succeeds = deleted p.operation p
  step p reload_ends = reload_settled p.operation p
  step p polls = auto_refresh p
  step p polls_disk = auto_refresh_disk p
  step p refreshes = manual_refresh p
  step p edited = refresh_after_edit p
  step p keeps = keep_file p
  step p closes = close_preview p
  step p leaves = record p {
    listing = leave p.listing;
    disk = Remote.step p.disk RemoteEvent.unmounts;
  }
  step p (deletion_fails error) = delete_failed p.operation error p
  step p (turns n) = turn_page n p
  step p (list_answers id r failure) = record p { listing = respond id r failure p.listing }
  step p (list_fails id failure) = record p { listing = fail_load id failure p.listing }
  step p (disk_settles e) = record p { disk = Remote.step p.disk e }

  unfoldable pub run : FilesPage Disk → List (PageEvent Disk) → FilesPage Disk
  run p [] = p
  run p (e ∷ es) = run (step p e) es
