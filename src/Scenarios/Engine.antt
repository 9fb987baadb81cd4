-- ===== src/Scenarios/Engine.antt =====
-- A file of five bytes in two chunks, sent by three workers; and files whose keys agree.
use gothrough.Base.{
  ℕ, ◌+◌, ◌≤◌, ◌<◌, ◌≡◌, refl, true, false, Option, none, some, List, [], ◌∷◌, count, bit, is_some,
  sum_below, ltb, arith, Text, codes,
}
use gothrough.Base.Decimal.{number_from}
use gothrough.Messages.{plain}
use gothrough.Upload.Types.{pending, File, UploadItem, UploadController}
use gothrough.Upload.FileKey.{get_upload_path, get_file_key, get_file_key-injective}
use gothrough.Upload.Progress.{confirm_chunk, recalc_loaded_bytes, map_set, map_delete}
use gothrough.Upload.Retry.{
  axios_error, HttpResponse, upload_retry_delay, retry_wait, is_transient, backoff,
}
use gothrough.Upload.Retry.Bounds.{IsTransient, upload_retry_delay_bounds}
use gothrough.Upload.Engine.State.{Main, Transfer, chunk_bytes, is_inactive}
use gothrough.Upload.Engine.Workers.{
  wait_for_resume, loop_top, take_chunk, on_progress, acknowledge, confirm, on_sent,
}
use gothrough.Upload.Engine.Protocol.{
  InitUploadResponse, whole, Event, initialized, turn, progress, sent, settled, main_turn,
  completed, stop_item, chunk_count, is_valid_config, finish_session, main_wait, begin,
  start_workers, on_initialized, after_workers, on_turn, at_progress, at_sent, main_step, step, run,
}
use gothrough.Upload.Engine.Ledger.{held}
use gothrough.Upload.Engine.Steps.{step-Inv, run-Inv, begin-Inv}
use gothrough.Upload.Engine.Invariant.{Inv}
use gothrough.Upload.Engine.Chunks.{chunks_cover, chunk_bytes_bounds}
use gothrough.Upload.Engine.Completion.{is_past, publish-needs-every_chunk, chunk-in-one_place}
use gothrough.Upload.Engine.Halting.{Frozen, step-Frozen}
use gothrough.Upload.Engine.Forward.{Forward, run-Forward}

abbrev no_dates : Text → Option ℕ
no_dates _ = none

abbrev small_file : File
small_file = record {
  name = codes "a.txt";
  size = 5;
  last_modified = 7;
  webkit_relative_path = [];
  dropped_path = none;
}

abbrev fresh_item : UploadItem
fresh_item = record {
  file = small_file;
  state = pending;
  error = plain [];
  session = none;
  completion_pending = false;
  speed = 0;
  saved_filename = [];
  upload_controller = none;
  inflight_bytes = [];
  confirmed_chunks = [];
  confirmed_bytes = 0;
  transferred_bytes = 0;
  loaded_bytes = 0;
  elapsed_ms = none;
}

abbrev live_controller : UploadController
live_controller = record { cancelled = false; aborted = false }

abbrev two_chunks : InitUploadResponse
two_chunks = record {
  session_id = codes "s1";
  total_chunks = whole 2;
  chunk_size = whole 3;
  final_filename = codes "a.txt";
}

-- The second chunk is acknowledged before the first.
abbrev to_the_end : List Event
to_the_end =
    initialized two_chunks
    ∷ turn 0
    ∷ turn 1
    ∷ turn 2
    ∷ progress 0 1 3 200
    ∷ sent 1
    ∷ sent 0
    ∷ settled
    ∷ main_turn
    ∷ []

abbrev started : Transfer
started = begin fresh_item live_controller false false

ends_completing : (run no_dates started to_the_end).main ≡ Main.completing
unfolding run step begin on_initialized is_valid_config chunk_count start_workers loop_top
    wait_for_resume on_turn take_chunk at_progress on_progress at_sent on_sent confirm acknowledge
    confirm_chunk recalc_loaded_bytes chunk_bytes map_set map_delete main_step after_workers
    main_wait finish_session
ends_completing = refl

confirms_both : (run no_dates started to_the_end).item.confirmed_chunks ≡ 1 ∷ 0 ∷ []
unfolding run step begin on_initialized is_valid_config chunk_count start_workers loop_top
    wait_for_resume on_turn take_chunk at_progress on_progress at_sent on_sent confirm acknowledge
    confirm_chunk recalc_loaded_bytes chunk_bytes map_set map_delete main_step after_workers
    main_wait finish_session
confirms_both = refl

is_past_completing : {m : Main} → m ≡ Main.completing → is_past m ≡ true
is_past_completing e = ground (arith)

publish-needs-every_chunk_example :
    let t = run no_dates started to_the_end in
    ((i : ℕ) → count i t.item.confirmed_chunks ≡ bit (ltb i t.session.total_chunks))
    × (t.item.confirmed_bytes ≡ t.item.file.size)
publish-needs-every_chunk_example =
    publish-needs-every_chunk no_dates fresh_item live_controller false false refl to_the_end
      (is_past_completing ends_completing)

chunk-in-one_place_example :
    let t = run no_dates started to_the_end in
    ((i : ℕ) → held i t.workers + count i t.item.confirmed_chunks ≤ bit (ltb i t.next_chunk_index))
    × (t.next_chunk_index ≤ t.session.total_chunks)
    × (t.item.loaded_bytes ≤ t.item.file.size)
chunk-in-one_place_example =
    chunk-in-one_place no_dates fresh_item live_controller false false refl to_the_end

-- The user stops the transfer while two chunks are under way.
abbrev interrupted : Transfer
interrupted = run no_dates started (initialized two_chunks ∷ turn 0 ∷ turn 1 ∷ stop_item ∷ [])

interrupted_inactive : is_inactive interrupted ≡ true
unfolding run step begin on_initialized is_valid_config chunk_count start_workers loop_top
    wait_for_resume on_turn take_chunk main_step
interrupted_inactive = refl

step-Frozen_example : Frozen interrupted (step no_dates interrupted (sent 0))
step-Frozen_example = step-Frozen no_dates interrupted (sent 0) interrupted_inactive

-- A transfer whose session has just been opened.
abbrev session_open : Transfer
session_open = run no_dates started (initialized two_chunks ∷ [])

-- A transfer that only has to be confirmed: all bytes of its session were sent before.
abbrev sent_item : UploadItem
sent_item = record fresh_item {
  session = some (record {
    session_id = codes "s1";
    total_chunks = 2;
    chunk_size = 3;
    received_chunks = 2;
    final_filename = codes "a.txt";
  });
  completion_pending = true;
  confirmed_chunks = 1 ∷ 0 ∷ [];
  confirmed_bytes = 5;
  transferred_bytes = 5;
  loaded_bytes = 5;
}

abbrev to_confirm : Transfer
to_confirm = begin sent_item live_controller false false

to_confirm_within : to_confirm.item.loaded_bytes ≤ to_confirm.item.file.size
unfolding begin finish_session main_wait
to_confirm_within = omega arith

to_confirm_open : is_some to_confirm.item.session ≡ true
unfolding begin finish_session main_wait
to_confirm_open = refl

run-Forward_example : Forward to_confirm (run no_dates to_confirm (completed (codes "a.txt") ∷ []))
run-Forward_example =
    run-Forward no_dates to_confirm (completed (codes "a.txt") ∷ []) to_confirm_within
      to_confirm_open

chunks_cover_example : sum_below (chunk_bytes 5 3) (chunk_count 5 3) ≡ 5
chunks_cover_example = chunks_cover 5 3 (omega arith)

chunk_bytes_bounds_example :
    (0 < chunk_bytes 5 3 0)
    × (chunk_bytes 5 3 0 ≤ 3)
    × (0 + 1 < chunk_count 5 3 → chunk_bytes 5 3 0 ≡ 3)
chunk_bytes_bounds_example =
    chunk_bytes_bounds 5 3 0 (omega arith) (unfold chunk_count in omega arith)

-- The same file, dropped inside a folder of its own name.
abbrev dropped_file : File
dropped_file = record small_file { dropped_path = some (codes "a.txt") }

same_key : get_file_key small_file ≡ get_file_key dropped_file
unfolding get_file_key get_upload_path
same_key = refl

get_file_key-injective_example :
    (get_upload_path small_file ≡ get_upload_path dropped_file)
    × (small_file.size ≡ dropped_file.size)
    × (small_file.last_modified ≡ dropped_file.last_modified)
get_file_key-injective_example = get_file_key-injective small_file dropped_file same_key

abbrev busy_response : HttpResponse
busy_response = record {
  status = 503;
  data_code = none;
  data_error = none;
  missing_chunks = none;
  retry_after = some (codes "7");
}

busy_delay :
    upload_retry_delay no_dates (axios_error none false (some busy_response) []) 1 0 ≡ some 7000
unfolding upload_retry_delay retry_wait is_transient backoff number_from
busy_delay = refl

upload_retry_delay_bounds_example :
    (1 < 2)
    × (IsTransient (axios_error none false (some busy_response) []))
    × (backoff 1 ≤ 7000)
    × (7000 ≤ 60000)
upload_retry_delay_bounds_example =
    upload_retry_delay_bounds no_dates (axios_error none false (some busy_response) []) 1 0 7000
      busy_delay

step-Inv_example : Inv (step no_dates session_open (turn 1))
step-Inv_example = step-Inv no_dates session_open (turn 1) (
    run-Inv no_dates started (initialized two_chunks ∷ [])
      (begin-Inv fresh_item live_controller false false refl))
