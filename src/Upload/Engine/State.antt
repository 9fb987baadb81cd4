-- ===== src/Upload/Engine/State.antt =====
-- The state of one call of transferFile: where its workers and its own body wait, the variables
-- that they share, and what the control object and the abort signal say.
use gothrough.Base.{ℕ, ◌+◌, ◌-◌, ◌*◌, Bool, ◌||◌, Option, none, some, List, set, min}
use gothrough.Upload.Types.{UploadState, UploadSession, UploadItem, UploadController}
use gothrough.Upload.Retry.{HttpError}

-- What is thrown: `new Error("Upload cancelled")`, the configuration error, the reason of the
-- abort signal, or the failure of a request.
pub data Failure : Type 0 where
  upload_cancelled invalid_config abort_reason : Failure
  request : HttpError → Failure

-- Where a worker stands between two turns of the event loop.
pub data Phase : Type 0 where
  -- Array.from has not called it yet
  unstarted : Phase
  -- in waitForResume at the top of the loop, awaiting waitForChange
  waiting : Phase
  -- waitForResume has returned; the turn that takes a chunk is due
  entering : Phase
  -- awaiting `send()`: the chunk's index, `attempt.loaded` and `retry`
  sending : ℕ → ℕ → ℕ → Phase
  -- awaiting waitForRetry before the retry of that number
  delaying : ℕ → ℕ → Phase
  -- in waitForResume after the delay, awaiting waitForChange
  holding : ℕ → ℕ → Phase
  -- that waitForResume has returned; the turn that sends again is due
  resending : ℕ → ℕ → Phase
  returned : Phase
  thrown : Phase

-- Where the body of transferFile stands.
pub data Main : Type 0 where
  -- awaiting initUpload
  initializing : Main
  -- awaiting Promise.allSettled
  transferring : Main
  -- in the last waitForResume, awaiting waitForChange
  waiting : Main
  -- that waitForResume has returned; finishSession is due
  resumed : Main
  -- awaiting completeUpload
  completing : Main
  done : Main
  threw : Failure → Main

-- `session` is the object that `item.session` refers to; `next_chunk_index`, `last_paint` and
-- `failure` are the fields of `transfer`; `stopped` and `paused` are what `control.isStopped()`
-- and `control.isPaused()` return. `control.onChange` repaints and changes nothing here.
pub record Transfer : Type 0 where
  pub item : UploadItem
  pub session : UploadSession
  pub controller : UploadController
  pub stopped : Bool
  pub paused : Bool
  pub next_chunk_index : ℕ
  pub last_paint : ℕ
  pub failure : Option Failure
  pub workers : List Phase
  pub main : Main

-- checkActive throws where this holds.
abbrev pub is_inactive : Transfer → Bool
is_inactive s = s.stopped || s.controller.aborted

abbrev pub put_worker : ℕ → Phase → Transfer → Transfer
put_worker k p s = record s { workers = set s.workers k p }

abbrev pub put_item : UploadItem → Transfer → Transfer
put_item item s = record s { item = item }

abbrev pub put_main : Main → Transfer → Transfer
put_main m s = record s { main = m }

abbrev pub put_state : UploadState → UploadItem → UploadItem
put_state state item = record item { state = state }

abbrev pub or_else : Option Failure → Failure → Option Failure
or_else none e = some e
or_else (some f) e = some f

-- The size of `item.file.slice(index * chunkSize, min((index + 1) * chunkSize, size))`.
unfoldable pub chunk_bytes : ℕ → ℕ → ℕ → ℕ
chunk_bytes size chunk index = min ((index + 1) * chunk) size - index * chunk
