-- ===== src/Queue/State.antt =====
-- The refs and the React state of useUploadQueue, and the counts that it shows.
use gothrough.Base.{
  ℕ, Bool, true, false, ◌&&◌, ◌||◌, not, Option, none, some, List, [], map, any, length, is_some,
  bit, sum_of, ◌==◌, if◌then◌else◌, Text,
}
use gothrough.Messages.{Message}
use gothrough.Elapsed.{Clock, pause, read}
use gothrough.Upload.Types.{UploadState, pending, uploading, success, error, UploadItem}
use gothrough.Upload.FileKey.{get_file_key}

-- An item object, known by `id`, with the clock that `clocksRef` holds for it.
pub record Entry : Type 0 where
  pub id : ℕ
  pub item : UploadItem
  pub clock : Option Clock

pub data Tone : Type 0 where
  tone_success tone_error : Tone

pub record StatusMessage : Type 0 where
  pub text : Message
  pub tone : Tone

-- Where a worker of a run stands: in waitForChange, in transferFile, in cleanupSession after a
-- failure, or returned.
pub data Slot : Type 0 where
  unstarted parked finished : Slot
  busy : ℕ → Slot
  cleaning : ℕ → Slot

-- `remaining` is `pending` from `nextFileIndex` on.
pub record UploadRun : Type 0 where
  pub cancelled : Bool
  pub remaining : List ℕ
  pub slots : List Slot

-- What an item had transferred at a time.
pub record Sample : Type 0 where
  pub bytes : ℕ
  pub time : ℕ

-- `samples` is what the timer of the speeds holds while it runs, by the numbers of the items;
-- `cancel_requests` are the sessions that cancelUpload was called with, newest first.
pub record Queue : Type 0 where
  pub entries : List Entry
  pub next_id : ℕ
  pub global_paused : Bool
  pub mounted : Bool
  pub run : Option UploadRun
  pub running : Bool
  pub canceling : Bool
  pub status : Option StatusMessage
  pub queue_clock : Option Clock
  pub queue_elapsed : Option ℕ
  pub reading_drops : ℕ
  pub cancel_requests : List Text
  pub samples : Option (List (ℕ × Sample))

-- The state before anything is selected.
abbrev pub empty_queue : Queue
empty_queue = record {
  entries = [];
  next_id = 0;
  global_paused = false;
  mounted = true;
  run = none;
  running = false;
  canceling = false;
  status = none;
  queue_clock = none;
  queue_elapsed = none;
  reading_drops = 0;
  cancel_requests = [];
  samples = none;
}

abbrev pub key_of : Entry → Text
key_of e = get_file_key e.item.file

abbrev pub put_entry : (UploadItem → UploadItem) → Entry → Entry
put_entry f e = record e { item = f e.item }

abbrev pub pause_clock : ℕ → Option Clock → Option Clock
pause_clock now none = none
pause_clock now (some c) = some (pause now c)

-- refreshFileList: what the clocks show goes to the items and to the queue.
abbrev pub shown_ms : ℕ → Option Clock → Option ℕ → Option ℕ
shown_ms now none before = before
shown_ms now (some c) before = some (read now c)

abbrev pub show_elapsed : ℕ → Entry → Entry
show_elapsed now e = record e {
  item = record e.item { elapsed_ms = shown_ms now e.clock e.item.elapsed_ms };
}

unfoldable pub refresh_file_list : ℕ → Queue → Queue
refresh_file_list now q =
    if q.mounted
    then record q {
      entries = map (show_elapsed now) q.entries;
      queue_elapsed = shown_ms now q.queue_clock q.queue_elapsed;
    }
    else q

abbrev pub is_pending : UploadState → Bool
is_pending pending = true
is_pending _ = false

abbrev pub is_success : UploadState → Bool
is_success success = true
is_success _ = false

abbrev pub is_error : UploadState → Bool
is_error error = true
is_error _ = false

abbrev pub is_uploading : UploadState → Bool
is_uploading uploading = true
is_uploading _ = false

abbrev pub count_items : (UploadState → Bool) → List Entry → ℕ
count_items p = sum_of (λ (e : Entry). bit (p e.item.state))

unfoldable pub pending_count : Queue → ℕ
pending_count q = count_items is_pending q.entries

unfoldable pub success_count : Queue → ℕ
success_count q = count_items is_success q.entries

unfoldable pub error_count : Queue → ℕ
error_count q = count_items is_error q.entries

unfoldable pub total_speed : Queue → ℕ
total_speed q =
    sum_of
      (λ (e : Entry). if is_uploading e.item.state && not q.global_paused then e.item.speed else 0)
      q.entries

unfoldable pub has_unfinished : Queue → Bool
has_unfinished q = q.running || not (success_count q == length q.entries)

-- warnBeforeUnload prevents the default where this holds.
unfoldable pub warns_before_unload : Queue → Bool
warns_before_unload q =
    has_unfinished q
    && (is_some q.run || any (λ (e : Entry). not (is_success e.item.state)) q.entries)
