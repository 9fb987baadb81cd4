-- ===== src/Upload/Engine/Protocol.antt =====
-- transferFile: its body from one await to the next, and the events that it waits for.
use gothrough.Base.{
  ℕ, zero, suc, ◌+◌, ◌-◌, ◌/◌, Bool, true, false, ◌&&◌, not, Option, none, some, List, [], ◌∷◌,
  get_elem?, replicate, every, ltb, ◌==◌, if◌then◌else◌, Text, is_empty,
}
use gothrough.Messages.{plain}
use gothrough.Upload.Types.{
  UploadState, uploading, completing, success, initializing, UploadSession, UploadItem,
  UploadController, chunk_size_fallback, max_concurrent_uploads,
}
use gothrough.Upload.FileKey.{or_text}
use gothrough.Upload.Retry.{HttpError}
use gothrough.Upload.Progress.{recalc_loaded_bytes}
use gothrough.Upload.Engine.State.{
  Failure, upload_cancelled, invalid_config, request, Phase, unstarted, entering, sending, delaying,
  holding, resending, returned, thrown, Main, transferring, resumed, done, threw, Transfer,
  is_inactive, put_worker, put_state, put_main,
}
use gothrough.Upload.Engine.Workers.{
  wait_for_resume, loop_top, take_chunk, on_progress, on_sent, on_send_failed, on_delay_over,
}

-- A number of a JSON response: missing, at least 0, or below 0. The server sends integers.
pub data JsonInteger : Type 0 where
  absent below_zero : JsonInteger
  whole : ℕ → JsonInteger

pub record InitUploadResponse : Type 0 where
  pub session_id : Text
  pub total_chunks : JsonInteger
  pub chunk_size : JsonInteger
  pub final_filename : Text

abbrev pub whole_or_zero : JsonInteger → ℕ
whole_or_zero (whole n) = n
whole_or_zero _ = 0

abbrev pub is_whole : JsonInteger → Bool
is_whole (whole n) = true
is_whole _ = false

-- `data.chunk_size || CHUNK_SIZE`; a size below 0 stays invalid, as 0 does.
abbrev pub chunk_size_of : JsonInteger → ℕ
chunk_size_of absent = chunk_size_fallback
chunk_size_of (whole zero) = chunk_size_fallback
chunk_size_of (whole (suc n)) = suc n
chunk_size_of below_zero = 0

-- Math.ceil(size / chunk), at a chunk above 0
unfoldable pub chunk_count : ℕ → ℕ → ℕ
chunk_count size chunk = (size + (chunk - 1)) / chunk

-- The session of a response; an invalid number is kept as 0, and then refused.
abbrev pub session_of : InitUploadResponse → UploadSession
session_of data' = record {
  session_id = data'.session_id;
  total_chunks = whole_or_zero data'.total_chunks;
  chunk_size = chunk_size_of data'.chunk_size;
  received_chunks = 0;
  final_filename = data'.final_filename;
}

-- The negation of the test that throws the configuration error.
unfoldable pub is_valid_config : InitUploadResponse → ℕ → Bool
is_valid_config data' size =
    not (is_empty data'.session_id)
    && (is_whole data'.total_chunks
        && (ltb 0 (chunk_size_of data'.chunk_size)
            && whole_or_zero data'.total_chunks
              == chunk_count size (chunk_size_of data'.chunk_size)))

-- finishSession up to the request
unfoldable pub finish_session : Transfer → Transfer
finish_session s = if is_inactive s then put_main (threw upload_cancelled) s else record s {
  item = record s.item { state = completing; speed = 0; completion_pending = true };
  main = Main.completing;
}

-- waitForResume in the body of transferFile
unfoldable pub main_wait : Transfer → Transfer
main_wait s =
    if is_inactive s
    then put_main (threw upload_cancelled) s
    else if s.paused
    then record s {
      item = record s.item { state = UploadState.paused; speed = 0 };
      main = Main.waiting;
    }
    else record s { item = put_state uploading s.item; main = resumed }

abbrev pub no_session : UploadSession
no_session = record {
  session_id = [];
  total_chunks = 0;
  chunk_size = 0;
  received_chunks = 0;
  final_filename = [];
}

-- `item.completionPending && item.session`
abbrev pub confirming : UploadItem → Option UploadSession
confirming item = if item.completion_pending then item.session else none

-- The item as an upload from the start leaves it before initUpload.
abbrev pub reset_item : UploadItem → UploadItem
reset_item item = record item {
  state = initializing;
  error = plain [];
  speed = 0;
  session = none;
  saved_filename = [];
  inflight_bytes = [];
  confirmed_chunks = [];
  confirmed_bytes = 0;
  transferred_bytes = 0;
  loaded_bytes = 0;
}

abbrev pub opened : UploadItem → UploadSession → UploadController → Bool → Bool → Transfer
opened item session controller stopped paused' = record {
  item = item;
  session = session;
  controller = controller;
  stopped = stopped;
  paused = paused';
  next_chunk_index = 0;
  last_paint = 0;
  failure = none;
  workers = [];
  main = Main.initializing;
}

-- transferFile up to its first await
unfoldable pub begin : UploadItem → UploadController → Bool → Bool → Transfer
begin item controller stopped paused' = elim (confirming item) [
  | none ↦ opened (reset_item item) no_session controller stopped paused'
  | some session ↦ finish_session (
      opened (record item { state = completing; error = plain []; speed = 0 }) session controller
        stopped paused')
]

-- `Array.from({ length }, worker)` calls the workers in turn.
unfoldable pub start_workers : ℕ → ℕ → Transfer → Transfer
start_workers zero k s = s
start_workers (suc n) k s = start_workers n (suc k) (loop_top k s)

-- What follows initUpload; the variables that the workers share start anew.
unfoldable pub on_initialized : InitUploadResponse → Transfer → Transfer
on_initialized data' s =
    let session = session_of data' in
    let item = record s.item { session = some session; saved_filename = data'.final_filename } in
    let t = record s {
      item = item;
      session = session;
      next_chunk_index = 0;
      last_paint = 0;
      failure = none;
      workers = replicate max_concurrent_uploads unstarted;
    } in
    if is_inactive t
    then put_main (threw upload_cancelled) t
    else if is_valid_config data' item.file.size
    then start_workers max_concurrent_uploads 0 (put_main transferring t)
    else put_main (threw invalid_config) t

abbrev pub is_ended : Phase → Bool
is_ended returned = true
is_ended thrown = true
is_ended _ = false

-- What follows Promise.allSettled, by `transfer.failure`.
unfoldable pub after_workers : Option Failure → Transfer → Transfer
after_workers (some e) s = put_main (threw e) s
after_workers none s = if is_inactive s then put_main (threw upload_cancelled) s else main_wait s

-- What follows completeUpload.
unfoldable pub on_completed : Text → Transfer → Transfer
on_completed saved s = if is_inactive s then put_main (threw upload_cancelled) s else record s {
  item = recalc_loaded_bytes (record s.item {
    completion_pending = false;
    state = success;
    saved_filename = or_text saved s.item.saved_filename;
    inflight_bytes = [];
  });
  main = done;
}

pub data Event : Type 0 where
  -- the control object and stopItem
  set_stopped : Bool → Event
  set_paused : Bool → Event
  stop_item : Event
  initialized : InitUploadResponse → Event
  init_failed : HttpError → Event
  -- waitForChange of a worker resolves; the turn behind its waitForResume runs
  woken : ℕ → Event
  turn : ℕ → Event
  -- axios reports `loaded` of `total` bytes at a time
  progress : ℕ → ℕ → ℕ → ℕ → Event
  sent : ℕ → Event
  send_failed : ℕ → HttpError → ℕ → Event
  delay_over : ℕ → Event
  settled : Event
  main_woken : Event
  main_turn : Event
  completed : Text → Event
  complete_failed : HttpError → Event

-- A worker's turns, by where it stands; any other event does not concern it.
unfoldable pub on_woken : ℕ → Option Phase → Transfer → Transfer
on_woken k (some Phase.waiting) s = wait_for_resume k Phase.waiting entering s
on_woken k (some (holding i r)) s = wait_for_resume k (holding i r) (resending i r) s
on_woken k _ s = s

unfoldable pub on_turn : ℕ → Option Phase → Transfer → Transfer
on_turn k (some entering) s = take_chunk k s
on_turn k (some (resending i r)) s = put_worker k (sending i 0 r) s
on_turn k _ s = s

unfoldable pub at_progress : ℕ → ℕ → ℕ → ℕ → Option Phase → Transfer → Transfer
at_progress k loaded total now (some (sending i a r)) s = on_progress k i a r loaded total now s
at_progress k loaded total now _ s = s

unfoldable pub at_sent : ℕ → Option Phase → Transfer → Transfer
at_sent k (some (sending i a r)) s = on_sent k i a s
at_sent k _ s = s

unfoldable pub at_failed :
    (Text → Option ℕ) → ℕ → HttpError → ℕ → Option Phase → Transfer → Transfer
at_failed date_parse k e now (some (sending i a r)) s = on_send_failed date_parse k i r e now s
at_failed date_parse k e now _ s = s

unfoldable pub at_delay_over : ℕ → Option Phase → Transfer → Transfer
at_delay_over k (some (delaying i r)) s = on_delay_over k i r s
at_delay_over k _ s = s

-- The body's turns, by where it stands.
unfoldable pub main_step : Main → Event → Transfer → Transfer
main_step Main.initializing (initialized data') s = on_initialized data' s
main_step Main.initializing (init_failed e) s = put_main (threw (request e)) s
main_step transferring settled s = if every is_ended s.workers then after_workers s.failure s else s
main_step Main.waiting main_woken s = main_wait s
main_step resumed main_turn s = finish_session s
main_step Main.completing (completed saved) s = on_completed saved s
main_step Main.completing (complete_failed e) s = put_main (threw (request e)) s
main_step _ _ s = s

-- One turn of the event loop that concerns this transfer.
unfoldable pub step : (Text → Option ℕ) → Transfer → Event → Transfer
step date_parse s (set_stopped b) = record s { stopped = b }
step date_parse s (set_paused b) = record s { paused = b }
step date_parse s stop_item = record s { controller = record { cancelled = true; aborted = true } }
step date_parse s (woken k) = on_woken k (get_elem? s.workers k) s
step date_parse s (turn k) = on_turn k (get_elem? s.workers k) s
step date_parse s (progress k loaded total now) =
    at_progress k loaded total now (get_elem? s.workers k) s
step date_parse s (sent k) = at_sent k (get_elem? s.workers k) s
step date_parse s (send_failed k e now) = at_failed date_parse k e now (get_elem? s.workers k) s
step date_parse s (delay_over k) = at_delay_over k (get_elem? s.workers k) s
step date_parse s e = main_step s.main e s

unfoldable pub run : (Text → Option ℕ) → Transfer → List Event → Transfer
run date_parse s [] = s
run date_parse s (e ∷ es) = run date_parse (step date_parse s e) es
