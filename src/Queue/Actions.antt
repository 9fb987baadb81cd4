-- ===== src/Queue/Actions.antt =====
-- What the user does to the queue: select, pause, resume, cancel, reset, remove.
use gothrough.Base.{
  ℕ, suc, ◌-◌, Bool, true, false, ◌&&◌, not, Option, none, some, List, [], ◌∷◌, ◌++◌, map, any,
  is_some, if◌then◌else◌, Text, text_eq, codes,
}
use gothrough.Messages.{Message, plain, message, end}
use gothrough.Elapsed.{Clock, resume}
use gothrough.Upload.Types.{pending, canceling, File, UploadItem, UploadController}
use gothrough.Upload.FileKey.{get_file_key}
use gothrough.Queue.State.{
  Entry, Tone, tone_success, tone_error, StatusMessage, UploadRun, Queue, key_of, pause_clock,
  refresh_file_list,
}

-- cleanupSession of engine.ts: the request that it makes; its failure is ignored.
unfoldable pub cleanup_requests : UploadItem → List Text → List Text
cleanup_requests item requests = elim item.session [
  | none ↦ requests
  | some s ↦ s.session_id ∷ requests
]

-- stopItem of engine.ts
unfoldable pub stop_item : UploadItem → UploadItem
stop_item item = elim item.upload_controller [
  | none ↦ item
  | some c ↦ record item { upload_controller = some (record { cancelled = true; aborted = true }) }
]

abbrev pub fresh_item : File → UploadItem
fresh_item file = record {
  file = file;
  state = pending;
  error = plain [];
  session = none;
  completion_pending = false;
  speed = 0;
  saved_filename = [];
  upload_controller = none;
  inflight_bytes = [];
  confirmed_chunks = [];
  confirmed_bytes = 0;
  transferred_bytes = 0;
  loaded_bytes = 0;
  elapsed_ms = none;
}

abbrev pub has_key : Text → List Text → Bool
has_key k = any (text_eq k)

-- The loop of handleSelection, with its set `keys`, and the number of the next object.
unfoldable pub select_files : List File → List Text → ℕ → List Entry
select_files [] keys n = []
select_files (file ∷ files) keys n =
    let key = get_file_key file in
    let taken = select_files files (key ∷ keys) (suc n) in
    let skipped = select_files files keys n in
    if has_key key keys
    then skipped
    else record { id = n; item = fresh_item file; clock = none } ∷ taken

abbrev pub advance : List Entry → ℕ → ℕ
advance [] n = n
advance (e ∷ es) n = advance es (suc n)

unfoldable pub handle_selection : List File → ℕ → Queue → Queue
handle_selection files now q =
    let added = select_files files (map key_of q.entries) q.next_id in
    record (refresh_file_list now
      (record q { entries = q.entries ++ added; next_id = advance added q.next_id })) {
        status = none;
      }

abbrev pub set_status : Text → Tone → Option StatusMessage
set_status key tone = some (record { text = message key end; tone = tone })

-- handleDrop up to its await
unfoldable pub begin_drop : Queue → Queue
begin_drop q = record q { reading_drops = suc q.reading_drops; status = none }

-- handleDrop once collectDroppedFiles has resolved, or rejected with a message that holds the
-- browser's text; the finally block counts the drop off.
unfoldable pub finish_drop : Queue → Queue
finish_drop q = if q.mounted then record q { reading_drops = q.reading_drops - 1 } else q

unfoldable pub take_drop : List File → ℕ → Queue → Queue
take_drop files now q =
    let t = handle_selection files now q in
    if not q.mounted then q else elim files [
      | [] ↦ record t { status = set_status (codes "upload.emptyFolder") tone_error }
      | _ ∷ _ ↦ t
    ]

unfoldable pub fail_drop : Message → Queue → Queue
fail_drop failure q =
    if q.mounted
    then record q { status = some (record { text = failure; tone = tone_error }) }
    else q

-- The clock and the speed of an item that is being uploaded, while all are paused.
abbrev pub pause_entry : ℕ → Entry → Entry
pause_entry now e =
    if is_some e.item.upload_controller
    then record e { clock = pause_clock now e.clock; item = record e.item { speed = 0 } }
    else e

unfoldable pub pause_all : ℕ → Queue → Queue
pause_all now q = refresh_file_list now (record q {
  queue_clock = pause_clock now q.queue_clock;
  global_paused = true;
  entries = map (pause_entry now) q.entries;
})

abbrev pub resume_clock : ℕ → Option Clock → Option Clock
resume_clock now none = none
resume_clock now (some c) = some (resume now c)

abbrev pub is_live : Option UploadController → Bool
is_live none = false
is_live (some c) = not c.cancelled

abbrev pub resume_entry : ℕ → Entry → Entry
resume_entry now e =
    if is_live e.item.upload_controller then record e { clock = resume_clock now e.clock } else e

abbrev pub run_live : Option UploadRun → Bool
run_live none = false
run_live (some r) = not r.cancelled

-- setGlobalPaused(false) also wakes the workers, whose turns are events of their own.
unfoldable pub resume_all : ℕ → Queue → Queue
resume_all now q = refresh_file_list now (record q {
  queue_clock = if run_live q.run then resume_clock now q.queue_clock else q.queue_clock;
  global_paused = false;
  entries = map (resume_entry now) q.entries;
})

abbrev pub cancel_run : Option UploadRun → Option UploadRun
cancel_run none = none
cancel_run (some r) = some (record r { cancelled = true })

abbrev pub cancel_item : UploadItem → UploadItem
cancel_item item =
    if is_some item.upload_controller then record item { state = canceling; speed = 0 } else item

abbrev pub cancel_entry : ℕ → Entry → Entry
cancel_entry now e = record e {
  clock = pause_clock now e.clock;
  item = cancel_item (stop_item e.item);
}

unfoldable pub cancel_all : ℕ → Queue → Queue
cancel_all now q = refresh_file_list now (record q {
  queue_clock = pause_clock now q.queue_clock;
  canceling = true;
  run = cancel_run q.run;
  entries = map (cancel_entry now) q.entries;
  global_paused = false;
  status = set_status (codes "upload.canceling") tone_success;
})

-- The cleanups of resetAll: an item whose publication is pending gives up its session.
unfoldable pub reset_requests : List Entry → List Text → List Text
reset_requests [] requests = requests
reset_requests (e ∷ es) requests =
    reset_requests es
      (if e.item.completion_pending then cleanup_requests e.item requests else requests)

unfoldable pub reset_all : ℕ → Queue → Queue
reset_all now q =
    if is_some q.run
    then q
    else refresh_file_list now (record q {
      cancel_requests = reset_requests q.entries q.cancel_requests;
      entries = [];
      queue_clock = none;
      queue_elapsed = none;
      global_paused = false;
      status = none;
    })

-- findIndex and the item there
unfoldable pub find_key : Text → List Entry → Option Entry
find_key key [] = none
find_key key (e ∷ es) = if text_eq (key_of e) key then some e else find_key key es

-- splice(index, 1) at the index of findIndex
unfoldable pub remove_key : Text → List Entry → List Entry
remove_key key [] = []
remove_key key (e ∷ es) = if text_eq (key_of e) key then es else e ∷ remove_key key es

unfoldable pub remove_found : Text → ℕ → Option Entry → Queue → Queue
remove_found key now none q = q
remove_found key now (some e) q = refresh_file_list now (record q {
  entries = remove_key key q.entries;
  cancel_requests =
      if e.item.completion_pending && not (is_some e.item.upload_controller)
      then cleanup_requests e.item q.cancel_requests
      else q.cancel_requests;
})

unfoldable pub remove_item : Text → ℕ → Queue → Queue
remove_item key now q = remove_found key now (find_key key q.entries) q
