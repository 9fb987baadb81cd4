-- ===== src/Queue/Run.antt =====
-- startUploads, its workers, and uploadFileChunked around the engine's transferFile.
use gothrough.Base.{
  ℕ, zero, suc, Bool, true, false, ◌&&◌, ◌||◌, not, Option, none, some, List, [], ◌∷◌, every, set,
  replicate, is_some, ◌==◌, if◌then◌else◌, Text, text_eq, codes,
}
use gothrough.Messages.{Message, Value, end, entry, number, message, as_value}
use gothrough.Elapsed.{new_clock, resume}
use gothrough.Errors.{get_error_body, api_error_descriptor}
use gothrough.Upload.Types.{pending, error, UploadItem, UploadController, max_concurrent_files}
use gothrough.Upload.Retry.{HttpError, other_error, HttpResponse}
use gothrough.Upload.Engine.State.{Failure, upload_cancelled, invalid_config, abort_reason, request}
use gothrough.Upload.Engine.Protocol.{begin}
use gothrough.Queue.State.{
  Entry, tone_success, tone_error, StatusMessage, Slot, unstarted, parked, finished, busy, cleaning,
  UploadRun, Queue, key_of, pause_clock, refresh_file_list, is_pending, is_error,
}
use gothrough.Queue.Actions.{cleanup_requests, set_status}

abbrev pub matches_key : Option Text → Entry → Bool
matches_key none e = true
matches_key (some key) e = text_eq (key_of e) key

-- The filter of startUploads: pending or failed, and of the key that is asked for.
unfoldable pub pick_pending : Option Text → List Entry → List ℕ
pick_pending key [] = []
pick_pending key (e ∷ es) =
    let rest = pick_pending key es in
    if (is_pending e.item.state || is_error e.item.state) && matches_key key e
    then e.id ∷ rest
    else rest

unfoldable pub update_entry : ℕ → (Entry → Entry) → List Entry → List Entry
update_entry id f [] = []
update_entry id f (e ∷ es) = if e.id == id then f e ∷ es else e ∷ update_entry id f es

unfoldable pub includes : ℕ → List Entry → Bool
includes id [] = false
includes id (e ∷ es) = e.id == id || includes id es

abbrev pub put_slot : ℕ → Slot → UploadRun → UploadRun
put_slot k slot r = record r { slots = set r.slots k slot }

abbrev pub new_controller : UploadController
new_controller = record { cancelled = false; aborted = false }

-- uploadFileChunked and transferFile up to their first await.
abbrev pub start_item : Bool → UploadItem → UploadItem
start_item paused item =
    (begin (record item { upload_controller = some new_controller }) new_controller false
      paused).item

abbrev pub start_entry : ℕ → Bool → Entry → Entry
start_entry now paused e = record e {
  clock = some (resume now new_clock);
  item = start_item paused e.item;
}

-- transferFile repaints by `onChange` before its first await.
abbrev pub start_upload : ℕ → ℕ → ℕ → UploadRun → Queue → Queue
start_upload k id now r q = refresh_file_list now (record q {
  run = some (put_slot k (busy id) r);
  entries = update_entry id (start_entry now q.global_paused) q.entries;
})

-- The loop of a worker over what remains, up to its next await; removed items are passed over.
unfoldable pub worker_loop : ℕ → ℕ → UploadRun → List ℕ → Queue → Queue
worker_loop k now r [] q = record q {
  run = some (put_slot k finished (record r { remaining = [] }));
}
worker_loop k now r (id ∷ rest) q =
    let here = record r { remaining = id ∷ rest } in
    let passed = worker_loop k now r rest q in
    if r.cancelled || not q.mounted
    then record q { run = some (put_slot k finished here) }
    else if q.global_paused
    then record q { run = some (put_slot k parked here) }
    else if includes id q.entries
    then start_upload k id now (record r { remaining = rest }) q
    else passed

unfoldable pub turn_worker : ℕ → ℕ → Option UploadRun → Queue → Queue
turn_worker k now none q = q
turn_worker k now (some r) q = worker_loop k now r r.remaining q

unfoldable pub start_workers : ℕ → ℕ → ℕ → Queue → Queue
start_workers zero k now q = q
start_workers (suc n) k now q = start_workers n (suc k) now (turn_worker k now q.run q)

-- startUploads with what it filters out.
unfoldable pub start_run : List ℕ → ℕ → Queue → Queue
start_run [] now q = q
start_run (id ∷ ids) now q = start_workers max_concurrent_files 0 now (record q {
  run = some (record {
    cancelled = false;
    remaining = id ∷ ids;
    slots = replicate max_concurrent_files unstarted;
  });
  queue_clock = some (resume now new_clock);
  queue_elapsed = some 0;
  running = true;
  global_paused = false;
  status = none;
})

unfoldable pub start_uploads : Option Text → ℕ → Queue → Queue
start_uploads key now q = if is_some q.run then q else start_run (pick_pending key q.entries) now q

abbrev pub run_cancelled : Option UploadRun → Bool
run_cancelled none = false
run_cancelled (some r) = r.cancelled

abbrev pub controller_cancelled : Option UploadController → Bool
controller_cancelled none = false
controller_cancelled (some c) = c.cancelled

-- isStopped of uploadFileChunked, of an item object that may have been removed.
unfoldable pub is_stopped : ℕ → UploadItem → Queue → Bool
is_stopped id item q =
    run_cancelled q.run
    || (controller_cancelled item.upload_controller
        || (not q.mounted || not (includes id q.entries)))

-- The catch block before its await.
unfoldable pub catch_upload : ℕ → ℕ → ℕ → UploadItem → UploadRun → Queue → Queue
catch_upload k id now item r q = record q {
  run = some (put_slot k (cleaning id) r);
  entries =
      update_entry id (λ e. record e { clock = pause_clock now e.clock; item = item }) q.entries;
  cancel_requests =
      if item.completion_pending
      then q.cancel_requests
      else cleanup_requests item q.cancel_requests;
}

-- What the catch block does to an item whose publication is not pending.
abbrev pub drop_session : UploadItem → UploadItem
drop_session item =
    if item.completion_pending then item else record item { session = none; loaded_bytes = 0 }

module _ (exists : Text → Bool) (reason : Text) where
  -- The failure as the error object that it is; `reason` is the abort signal's text.
  unfoldable pub as_error : Failure → HttpError
  as_error upload_cancelled = other_error (codes "Upload cancelled")
  as_error invalid_config = other_error (codes "服务端返回的分块配置无效")
  as_error abort_reason = other_error reason
  as_error (request e) = e

  abbrev pub missing_of : Option HttpResponse → Option ℕ
  missing_of none = none
  missing_of (some response) = response.missing_chunks

  unfoldable pub describe_missing : Option ℕ → HttpError → Message
  describe_missing (some n) e =
      message (codes "upload.missingChunks") (entry (codes "count") (number n) end)
  describe_missing none e = api_error_descriptor exists e

  unfoldable pub failure_message : UploadItem → Failure → Message
  failure_message item e =
      if item.completion_pending
      then message (codes "upload.confirmationPending") end
      else describe_missing (missing_of (get_error_body (as_error e))) (as_error e)

  -- The item after the catch and finally blocks.
  unfoldable pub settle_failed : Bool → Failure → UploadItem → UploadItem
  settle_failed stopped e item =
      let dropped = drop_session item in
      let closed = record dropped { inflight_bytes = []; speed = 0; upload_controller = none } in
      if stopped
      then record closed { state = pending }
      else record closed { state = error; error = failure_message item e }

  abbrev pub failed_status : UploadItem → Failure → Option StatusMessage
  failed_status item e = some (record {
    text = message (codes "upload.failed") (
        entry (codes "name") (Value.text item.file.name)
          (entry (codes "error") (as_value (failure_message item e)) end));
    tone = tone_error;
  })

  -- The rest of the catch block, the finally block, and the worker's next turn.
  unfoldable pub settle_upload : ℕ → ℕ → ℕ → UploadItem → Failure → Queue → Queue
  settle_upload k id now item e q =
      let stopped = is_stopped id item q in
      let t = refresh_file_list now (record q {
        entries =
            update_entry id
              (λ x. record x {
                clock = pause_clock now x.clock;
                item = settle_failed stopped e item;
              })
              q.entries;
        status = if stopped || not q.mounted then q.status else failed_status item e;
      }) in
      turn_worker k now t.run t

-- transferFile returned: the finally block and the worker's next turn.
abbrev pub settle_done : UploadItem → UploadItem
settle_done item = record item { speed = 0; upload_controller = none }

unfoldable pub finish_upload : ℕ → ℕ → ℕ → UploadItem → Queue → Queue
finish_upload k id now item q =
    let t = refresh_file_list now (record q {
      entries =
          update_entry id
            (λ x. record x { clock = pause_clock now x.clock; item = settle_done item }) q.entries;
    }) in
    turn_worker k now t.run t

-- The item as the engine has changed it, where it repaints.
unfoldable pub change_upload : ℕ → ℕ → UploadItem → Queue → Queue
change_upload id now item q =
    refresh_file_list now
      (record q { entries = update_entry id (λ x. record x { item = item }) q.entries })

abbrev pub is_finished : Slot → Bool
is_finished finished = true
is_finished _ = false

-- The finally block of startUploads, once every worker has returned.
unfoldable pub end_run : ℕ → UploadRun → Queue → Queue
end_run now r q =
    let t = refresh_file_list now (record q { queue_clock = pause_clock now q.queue_clock }) in
    let quiet = record t {
      run = none;
      running = if q.mounted then false else q.running;
      canceling = if q.mounted then false else q.canceling;
      status =
          if q.mounted && r.cancelled
          then set_status (codes "upload.canceled") tone_success
          else q.status;
    } in
    if every is_finished r.slots then quiet else q
