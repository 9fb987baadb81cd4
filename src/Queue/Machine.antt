-- ===== src/Queue/Machine.antt =====
-- The queue as a machine: the user's actions, the turns of the workers, and the page's lifetime.
use gothrough.Base.{ℕ, Bool, false, Option, none, some, List, map, get_elem?, Text}
use gothrough.Messages.{Message}
use gothrough.Upload.Types.{File, UploadItem}
use gothrough.Upload.Engine.State.{Failure}
use gothrough.Queue.State.{put_entry, Slot, parked, busy, cleaning, UploadRun, Queue}
use gothrough.Queue.Actions.{
  stop_item, cancel_run, handle_selection, begin_drop, finish_drop, take_drop, fail_drop, pause_all,
  resume_all, cancel_all, reset_all, remove_item,
}
use gothrough.Queue.Speed.{watch_speed, tick_speed}
use gothrough.Queue.Run.{
  start_uploads, turn_worker, catch_upload, settle_upload, finish_upload, change_upload, end_run,
}

-- The cleanup of the effect with no dependency on what changes.
unfoldable pub unmount : Queue → Queue
unmount q = record q {
  mounted = false;
  samples = none;
  run = cancel_run q.run;
  entries = map (put_entry stop_item) q.entries;
}

-- `item` is the item object as it stands when the event comes, and `now` the time.
pub data QueueEvent : Type 0 where
  selects : List File → ℕ → QueueEvent
  drops drop_ends unmounts : QueueEvent
  drop_read : List File → ℕ → QueueEvent
  drop_fails : Message → QueueEvent
  starts : Option Text → ℕ → QueueEvent
  pauses resumes cancels resets ends watches ticks : ℕ → QueueEvent
  removes : Text → ℕ → QueueEvent
  -- a worker that waits is woken; its transfer fails, has its session cleaned up, changes its item,
  -- or succeeds
  woken : ℕ → ℕ → QueueEvent
  fails cleaned : ℕ → ℕ → UploadItem → Failure → QueueEvent
  changes succeeds : ℕ → ℕ → UploadItem → QueueEvent

abbrev pub slot_at : ℕ → Option UploadRun → Option Slot
slot_at k none = none
slot_at k (some r) = get_elem? r.slots k

unfoldable pub on_woken : ℕ → ℕ → Option Slot → Queue → Queue
on_woken k now (some parked) q = turn_worker k now q.run q
on_woken k now _ q = q

unfoldable pub catch_in_run : ℕ → ℕ → ℕ → UploadItem → Option UploadRun → Queue → Queue
catch_in_run k id now item none q = q
catch_in_run k id now item (some r) q = catch_upload k id now item r q

unfoldable pub on_failed : ℕ → ℕ → UploadItem → Option Slot → Queue → Queue
on_failed k now item (some (busy id)) q = catch_in_run k id now item q.run q
on_failed k now item _ q = q

unfoldable pub on_succeeded : ℕ → ℕ → UploadItem → Option Slot → Queue → Queue
on_succeeded k now item (some (busy id)) q = finish_upload k id now item q
on_succeeded k now item _ q = q

unfoldable pub on_changed : ℕ → UploadItem → Option Slot → Queue → Queue
on_changed now item (some (busy id)) q = change_upload id now item q
on_changed now item _ q = q

unfoldable pub on_end : ℕ → Option UploadRun → Queue → Queue
on_end now none q = q
on_end now (some r) q = end_run now r q

module _ (exists : Text → Bool) (reason : Text) where
  unfoldable pub on_cleaned : ℕ → ℕ → UploadItem → Failure → Option Slot → Queue → Queue
  on_cleaned k now item e (some (cleaning id)) q = settle_upload exists reason k id now item e q
  on_cleaned k now item e _ q = q

  unfoldable pub step : Queue → QueueEvent → Queue
  step q (selects files now) = handle_selection files now q
  step q drops = begin_drop q
  step q drop_ends = finish_drop q
  step q unmounts = unmount q
  step q (drop_read files now) = take_drop files now q
  step q (drop_fails m) = fail_drop m q
  step q (starts key now) = start_uploads key now q
  step q (pauses now) = pause_all now q
  step q (resumes now) = resume_all now q
  step q (cancels now) = cancel_all now q
  step q (watches now) = watch_speed now q
  step q (ticks now) = tick_speed now q.samples q
  step q (resets now) = reset_all now q
  step q (ends now) = on_end now q.run q
  step q (removes key now) = remove_item key now q
  step q (woken k now) = on_woken k now (slot_at k q.run) q
  step q (fails k now item e) = on_failed k now item (slot_at k q.run) q
  step q (cleaned k now item e) = on_cleaned k now item e (slot_at k q.run) q
  step q (changes k now item) = on_changed now item (slot_at k q.run) q
  step q (succeeds k now item) = on_succeeded k now item (slot_at k q.run) q
