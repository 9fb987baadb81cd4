-- ===== src/Scenarios/Client.antt =====
-- A stopwatch, failures, a lost answer to a publication, and a page that reloads and polls.
use gothrough.Base.{
  ℕ, ◌≡◌, refl, Bool, true, false, Option, none, some, List, [], ◌∷◌, arith, Text, text_eq, codes,
  ◌==◌, if◌then◌else◌,
}
use gothrough.Messages.{plain}
use gothrough.Elapsed.{
  new_clock, read, Press, resumes, pauses, press_all, running_time, read-press_all,
}
use gothrough.Errors.{api_error_descriptor}
use gothrough.Errors.Grounds.{IsGrounded, api_error_descriptor-IsGrounded}
use gothrough.Upload.Retry.{HttpError, axios_error}
use gothrough.Upload.Complete.{
  PostReply, published, refused, status_failed, World, IsEarned, complete_upload,
  complete_upload-IsEarned,
}
use gothrough.Remote.{
  Remote, RemoteEvent, Answer, mounts, refreshes, resolves, rejects, initial, cancel,
}
use gothrough.Remote.Invariant.{run-initial-Inv}
use gothrough.Remote.Staleness.{Unchanged, step_stale, cancel_silences}
use gothrough.Remote
use gothrough.AutoRefresh
use gothrough.AutoRefresh.{CycleEvent, timer_fires, settles, visibility_changes, run-begin-Inv}

abbrev three_presses : List (Press × ℕ)
three_presses = (resumes, 3) ∷ (resumes, 5) ∷ (pauses, 9) ∷ []

read-press_all_example :
    read 12 (press_all three_presses new_clock) ≡ running_time false 0 three_presses 12
read-press_all_example = read-press_all three_presses 0 12 (omega arith)

abbrev disk_full : HttpError
disk_full =
    axios_error none false
      (some (record {
        status = 507;
        data_code = some (codes "disk_full");
        data_error = some (codes "no space left");
        missing_chunks = none;
        retry_after = none;
      }))
      (codes "Request failed")

abbrev knows_disk_full : Text → Bool
knows_disk_full = text_eq (codes "errors.disk_full")

api_error_descriptor-IsGrounded_example :
    IsGrounded knows_disk_full disk_full (api_error_descriptor knows_disk_full disk_full)
api_error_descriptor-IsGrounded_example = api_error_descriptor-IsGrounded knows_disk_full disk_full

abbrev no_dates : Text → Option ℕ
no_dates _ = none

abbrev connection_lost : HttpError
connection_lost = axios_error (some (codes "ERR_NETWORK")) false none (codes "Network Error")

abbrev first_lost : ℕ → PostReply
first_lost i =
    if i == 0
    then refused connection_lost
    else published (record { saved_filename = codes "a.txt" })

-- The first answer is lost and its status too; the second request is answered.
abbrev lost_answer : World
lost_answer = record {
  post = first_lost;
  status = λ _. status_failed;
  aborted_at_catch = λ _. false;
  aborted_at_status = λ _. false;
  aborted_in_wait = λ _. false;
  now = λ _. 0;
}

complete_upload-IsEarned_example :
    IsEarned no_dates lost_answer 3 (complete_upload no_dates lost_answer 3 0)
complete_upload-IsEarned_example = complete_upload-IsEarned no_dates lost_answer 0

-- The page is mounted, and reloaded before its first answer.
abbrev reloaded : List (RemoteEvent ℕ)
reloaded = mounts ∷ refreshes false ∷ []

abbrev answer : ℕ → Answer ℕ
answer n = record { result = some n; commit = some (some (codes "v")) }

run-initial-Inv_example :
    Remote.Invariant.Inv (Remote.run (initial 0) (resolves 0 (answer 9) ∷ reloaded))
run-initial-Inv_example = run-initial-Inv 0 (resolves 0 (answer 9) ∷ reloaded)

step_stale_example :
    Unchanged
      (Remote.run (initial 0) reloaded)
      (Remote.step (Remote.run (initial 0) reloaded) (resolves 0 (answer 9)))
unfolding Remote.run Remote.step Remote.mount Remote.refresh Remote.open_request Remote.announce
step_stale_example =
    step_stale (Remote.run (initial 0) reloaded) (resolves 0 (answer 9)) 0
      (run-initial-Inv 0 reloaded) (λ h. ground arith) refl

abbrev late : List (RemoteEvent ℕ)
late = resolves 1 (answer 9) ∷ rejects 0 (plain []) ∷ []

cancel_silences_example :
    Unchanged
      (cancel (Remote.run (initial 0) reloaded))
      (Remote.run (cancel (Remote.run (initial 0) reloaded)) late)
cancel_silences_example =
    cancel_silences (Remote.run (initial 0) reloaded) late (run-initial-Inv 0 reloaded)
      (tt, (tt, tt))

-- A tick whose refresh is outrun by the page's being hidden and shown again.
abbrev outrun : List CycleEvent
outrun = timer_fires ∷ visibility_changes true ∷ visibility_changes false ∷ settles 1 ∷ []

run-begin-Inv_example : AutoRefresh.Inv (AutoRefresh.run (AutoRefresh.begin false) outrun)
run-begin-Inv_example = run-begin-Inv false outrun
