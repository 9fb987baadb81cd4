-- ===== src/Upload/Engine/Workers.antt =====
-- The turns of a worker of transferFile: each function runs from one await to the next.
use gothrough.Base.{
  ℕ, suc, ◌+◌, ◌-◌, ◌*◌, ◌/◌, true, ◌||◌, Option, none, some, length, set, min, max, ltb, leb,
  if◌then◌else◌, Text,
}
use gothrough.Upload.Types.{UploadState, uploading, UploadItem, progress_refresh_interval}
use gothrough.Upload.Retry.{HttpError, is_canceled_error, upload_retry_delay}
use gothrough.Upload.Progress.{confirm_chunk, recalc_loaded_bytes, map_set, map_delete}
use gothrough.Upload.Engine.State.{
  Failure, upload_cancelled, abort_reason, request, Phase, waiting, entering, sending, delaying,
  holding, resending, returned, thrown, Transfer, is_inactive, put_worker, or_else, chunk_bytes,
}

-- The worker's catch block: the first failure is kept, and the others are told to stop.
unfoldable pub throw : ℕ → Failure → Transfer → Transfer
throw k e s = record s {
  failure = or_else s.failure e;
  controller = record s.controller { aborted = true };
  workers = set s.workers k thrown;
}

-- waitForResume: `park` is where it waits while paused, and `go` the turn after it.
unfoldable pub wait_for_resume : ℕ → Phase → Phase → Transfer → Transfer
wait_for_resume k park go s =
    if is_inactive s
    then throw k upload_cancelled s
    else if s.paused
    then record s {
      item = record s.item { state = UploadState.paused; speed = 0 };
      workers = set s.workers k park;
    }
    else record s { item = record s.item { state = uploading }; workers = set s.workers k go }

-- The test of the while loop, and the turn up to the first await of its body.
unfoldable pub loop_top : ℕ → Transfer → Transfer
loop_top k s =
    if ltb s.next_chunk_index s.session.total_chunks
    then wait_for_resume k waiting entering s
    else put_worker k returned s

-- From `checkActive()` behind waitForResume to the first `send()`.
unfoldable pub take_chunk : ℕ → Transfer → Transfer
take_chunk k s =
    if is_inactive s
    then throw k upload_cancelled s
    else if leb s.session.total_chunks s.next_chunk_index
    then put_worker k returned s
    else record s {
      next_chunk_index = s.next_chunk_index + 1;
      workers = set s.workers k (sending s.next_chunk_index 0 0);
    }

-- The bytes of the current chunk.
abbrev pub bytes_of : Transfer → ℕ → ℕ
bytes_of s index = chunk_bytes s.item.file.size s.session.chunk_size index

-- onProgress: the share that axios reports, rounded down to whole bytes and cut to the chunk.
abbrev pub reported : ℕ → ℕ → ℕ → ℕ
reported size loaded total = min size (if ltb 0 total then loaded * size / total else loaded)

-- `recordTransferred` on the item, and the new `attempt.loaded`.
abbrev pub record_transferred : ℕ → ℕ → UploadItem → UploadItem
record_transferred attempt loaded item = record item {
  transferred_bytes = item.transferred_bytes + (loaded - attempt);
}

unfoldable pub on_progress : ℕ → ℕ → ℕ → ℕ → ℕ → ℕ → ℕ → Transfer → Transfer
on_progress k index attempt retry loaded total now s =
    let bytes = reported (bytes_of s index) loaded total in
    let moved = record_transferred attempt bytes s.item in
    let item = record moved { inflight_bytes = map_set index bytes moved.inflight_bytes } in
    let paint = leb progress_refresh_interval (now - s.last_paint) in
    if is_inactive s then s else record s {
      item = if paint then recalc_loaded_bytes item else item;
      last_paint = if paint then now else s.last_paint;
      workers = set s.workers k (sending index (max attempt bytes) retry);
    }

-- The statements behind the retry loop: the chunk is acknowledged, and the loop goes round.
unfoldable pub acknowledge : ℕ → ℕ → UploadItem → UploadItem
acknowledge index bytes item =
    confirm_chunk (record item { inflight_bytes = map_delete index item.inflight_bytes }) index
      bytes

unfoldable pub confirm : ℕ → ℕ → Transfer → Transfer
confirm index attempt s =
    let bytes = bytes_of s index in
    let item = acknowledge index bytes (record_transferred attempt bytes s.item) in
    let session = record s.session { received_chunks = length item.confirmed_chunks } in
    record s {
      item = recalc_loaded_bytes (record item { session = some session });
      session = session;
    }

unfoldable pub on_sent : ℕ → ℕ → ℕ → Transfer → Transfer
on_sent k index attempt s =
    if is_inactive s
    then throw k upload_cancelled s
    else if s.controller.aborted
    then put_worker k returned s
    else loop_top k (confirm index attempt s)

-- The catch block of the retry loop, at the delay that uploadRetryDelay returns.
unfoldable pub retry_after_delay : ℕ → ℕ → ℕ → HttpError → Option ℕ → Transfer → Transfer
retry_after_delay k index retry e none s = throw k (request e) s
retry_after_delay k index retry e (some delay) s = record s {
  item = record s.item { inflight_bytes = map_delete index s.item.inflight_bytes };
  workers = set s.workers k (delaying index (suc retry));
}

unfoldable pub on_send_failed : (Text → Option ℕ) → ℕ → ℕ → ℕ → HttpError → ℕ → Transfer → Transfer
on_send_failed date_parse k index retry e now s =
    if s.stopped || (is_canceled_error e || s.controller.aborted)
    then throw k (request e) s
    else retry_after_delay k index retry e (upload_retry_delay date_parse e retry now) s

-- waitForRetry rejects where the signal is aborted, and else goes on to waitForResume.
unfoldable pub on_delay_over : ℕ → ℕ → ℕ → Transfer → Transfer
on_delay_over k index retry s =
    if s.controller.aborted
    then throw k abort_reason s
    else wait_for_resume k (holding index retry) (resending index retry) s
