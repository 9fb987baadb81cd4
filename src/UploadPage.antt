-- ===== src/UploadPage.antt =====
-- pages/Upload/UploadPage.tsx and UploadFileRow.tsx: what is drawn of the queue, and which of its
-- actions the buttons offer.
pub mod Row
pub mod Agreement
pub mod Buttons
use gothrough.Base.{
  ℕ, suc, ◌≡◌, Bool, true, false, ◌&&◌, ◌||◌, not, Option, none, some, is_some, List, [], ◌∷◌,
  length, if◌then◌else◌, ◌==◌, ltb, Text,
}
use gothrough.Upload.Types.{UploadState, canceling, error}
use gothrough.Queue.State.{Entry, Queue, pending_count, error_count, success_count, is_error}
use gothrough.Queue.Actions.{find_key}
use gothrough.Queue.Machine as Machine
use gothrough.Queue.Machine.{QueueEvent, starts, pauses, resumes, cancels, resets, removes}

-- The buttons above the list; `ready` holds whether the one that starts is enabled.
pub data Controls : Type 0 where
  absent winding stopped going again : Controls
  ready : Bool → Controls

unfoldable pub controls : Queue → Controls
controls q =
    if length q.entries == 0
    then absent
    else if q.running
    then if q.canceling then winding else if q.global_paused then stopped else going
    else if ltb 0 (pending_count q) || ltb 0 (error_count q)
    then ready (q.reading_drops == 0)
    else if ltb 0 (success_count q)
    then again
    else absent

abbrev pub is_canceling : UploadState → Bool
is_canceling canceling = true
is_canceling _ = false

-- The row of a key: its remove button is disabled while it is being cancelled, and its retry button
-- is drawn after a failure and disabled during a run.
abbrev pub can_remove : Option Entry → Bool
can_remove none = false
can_remove (some e) = not (is_canceling e.item.state)

abbrev pub can_retry : Bool → Option Entry → Bool
can_retry running none = false
can_retry running (some e) = is_error e.item.state && not running

abbrev pub offers_start : Controls → Bool
offers_start (ready enabled) = enabled
offers_start _ = false

abbrev pub offers_pause : Controls → Bool
offers_pause going = true
offers_pause _ = false

abbrev pub offers_resume : Controls → Bool
offers_resume stopped = true
offers_resume _ = false

abbrev pub offers_cancel : Controls → Bool
offers_cancel going = true
offers_cancel stopped = true
offers_cancel _ = false

abbrev pub offers_reset : Controls → Bool
offers_reset again = true
offers_reset _ = false

-- Whether the page lets an event come: the user's come by its buttons, all others of themselves.
unfoldable pub is_offered : Queue → QueueEvent → Bool
is_offered q (starts none now) = offers_start (controls q)
is_offered q (starts (some key) now) = can_retry q.running (find_key key q.entries)
is_offered q (pauses now) = offers_pause (controls q)
is_offered q (resumes now) = offers_resume (controls q)
is_offered q (cancels now) = offers_cancel (controls q)
is_offered q (resets now) = offers_reset (controls q)
is_offered q (removes key now) = can_remove (find_key key q.entries)
is_offered q _ = true

module _ (exists : Text → Bool) (reason : Text) where
  unfoldable pub step : Queue → QueueEvent → Queue
  step q e = if is_offered q e then Machine.step exists reason q e else q

  unfoldable pub run : Queue → List QueueEvent → Queue
  run q [] = q
  run q (e ∷ es) = run (step q e) es
