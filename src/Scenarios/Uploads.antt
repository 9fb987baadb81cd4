-- ===== src/Scenarios/Uploads.antt =====
-- A queue of two files, of which one is selected twice, that is started and cancelled.
use gothrough.Base.{
  ◌≡◌, refl, Bool, true, false, none, some, List, [], ◌∷◌, arith, Text, codes, if◌then◌else◌,
}
use gothrough.Base.Decimal.{decimal}
use gothrough.Upload.Types.{File}
use gothrough.Upload.FileKey.{get_file_key, get_upload_path}
use gothrough.Queue.State.{Queue, empty_queue, UploadRun, busy, refresh_file_list}
use gothrough.Queue.Actions.{handle_selection, select_files, cancel_all, stop_item}
use gothrough.Queue.Run.{
  start_uploads, start_run, start_workers, turn_worker, worker_loop, pick_pending, includes,
  update_entry,
}
use gothrough.Queue.Machine.{selects, starts, cancels, resumes, step}
use gothrough.Queue.Invariant.{QueueInv, step-QueueInv}
use gothrough.Queue.Cancellation.{OptWinding, step-Winding}
use gothrough.Queue.Keys.{key_count, selects_key, handle_selection-key_count}

abbrev named : Text → File
named name = record {
  name = name;
  size = 5;
  last_modified = 7;
  webkit_relative_path = [];
  dropped_path = none;
}

abbrev two_files : List File
two_files = named (codes "a") ∷ named (codes "b") ∷ named (codes "a") ∷ []

handle_selection-key_count_example :
    key_count (get_file_key (named (codes "a"))) (handle_selection two_files 0 empty_queue).entries
    ≡ (if selects_key (get_file_key (named (codes "a"))) two_files
        then 1
        else key_count (get_file_key (named (codes "a"))) empty_queue.entries)
handle_selection-key_count_example =
    handle_selection-key_count (get_file_key (named (codes "a"))) two_files 0 empty_queue
      (λ k. omega arith)

abbrev knows_nothing : Text → Bool
knows_nothing _ = false

abbrev reason : Text
reason = codes "aborted"

empty_queue-QueueInv : QueueInv empty_queue
empty_queue-QueueInv = record {
  ids = record { once = λ i. omega arith; fresh = λ i le. refl };
  run = tt;
}

abbrev selected : Queue
selected = step knows_nothing reason empty_queue (selects two_files 0)

step-QueueInv_example : QueueInv (step knows_nothing reason selected (starts none 5))
step-QueueInv_example =
    step-QueueInv knows_nothing reason selected (starts none 5)
      (step-QueueInv knows_nothing reason empty_queue (selects two_files 0) empty_queue-QueueInv)

abbrev cancelled : Queue
cancelled =
    step knows_nothing reason (step knows_nothing reason selected (starts none 5)) (cancels 6)

abbrev two_busy : UploadRun
two_busy = record { cancelled = true; remaining = []; slots = busy 0 ∷ busy 1 ∷ [] }

cancelled-run : cancelled.run ≡ some two_busy
unfolding step handle_selection select_files start_uploads start_run start_workers turn_worker
    worker_loop pick_pending includes update_entry cancel_all refresh_file_list get_file_key
    get_upload_path stop_item decimal
cancelled-run = refl

step-Winding_example : OptWinding two_busy (step knows_nothing reason cancelled (resumes 7)).run
step-Winding_example =
    step-Winding knows_nothing reason cancelled (resumes 7) two_busy cancelled-run refl
