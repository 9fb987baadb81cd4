-- ===== src/Queue/Cancellation.antt =====
-- A run that is cancelled winds down.
use gothrough.Base.{
  ℕ, ◌≤◌, ◌≡◌, refl, sym, ap, ◌∙◌, Bool, true, ◌||◌, not, Option, none, some, List, [], ◌∷◌,
  get_elem?, sum_of, sum_of-set, every, is_some, if_intro, arith, Text,
}
use mathlib.Core.Path.{subst}
use mathlib.Core.Bool.{true≢false}
use gothrough.Upload.Types.{File, UploadItem}
use gothrough.Upload.Engine.State.{Failure}
use gothrough.Queue.State.{
  Entry, Slot, unstarted, parked, finished, busy, cleaning, UploadRun, Queue, Sample,
  refresh_file_list,
}
use gothrough.Queue.Actions.{
  cancel_run, handle_selection, begin_drop, finish_drop, take_drop, fail_drop, pause_all,
  resume_all, cancel_all, reset_all, remove_item, remove_found, find_key,
}
use gothrough.Queue.Run.{
  change_upload, start_uploads, put_slot, worker_loop, turn_worker, catch_upload, settle_upload,
  finish_upload, end_run, is_finished,
}
use gothrough.Queue.Speed.{watch_speed, tick_speed, has_to_show, sampled}
use gothrough.Queue.Machine.{
  changes, on_changed, QueueEvent, selects, drops, drop_ends, unmounts, drop_read, drop_fails,
  starts, watches, ticks, pauses, resumes, cancels, resets, ends, removes, woken, fails, cleaned,
  succeeds, unmount, slot_at, on_woken, catch_in_run, on_failed, on_succeeded, on_end, on_cleaned,
  step,
}

abbrev pub is_busy : Slot → ℕ
is_busy (busy id) = 1
is_busy _ = 0

-- How many workers of the run transfer a file.
abbrev pub busy_workers : UploadRun → ℕ
busy_workers r = sum_of is_busy r.slots

-- The run `after` comes of the cancelled run `before` without taking another file.
pub record Winding (before after : UploadRun) : Type 0 where
  pub cancelled : after.cancelled ≡ true
  pub busy : busy_workers after ≤ busy_workers before

abbrev pub OptWinding : UploadRun → Option UploadRun → Type 0
OptWinding before none = Unit
OptWinding before (some after) = Winding before after

put_slot-Winding :
    (k : ℕ) (slot old : Slot) (rest : List ℕ) (r : UploadRun)
    → get_elem? r.slots k ≡ some old
    → is_busy slot ≡ 0
    → r.cancelled ≡ true
    → Winding r (put_slot k slot (record r { remaining = rest }))
put_slot-Winding k slot old rest r at idle c = record {
  cancelled = c;
  busy = omega (arith, sum_of-set is_busy r.slots k old slot at, idle);
}

worker_loop-Winding :
    (k now : ℕ) (r : UploadRun) (rest : List ℕ) (q : Queue) (old : Slot)
    → get_elem? r.slots k ≡ some old
    → r.cancelled ≡ true
    → OptWinding r (worker_loop k now r rest q).run
unfolding worker_loop
worker_loop-Winding k now r [] q old at c = put_slot-Winding k finished old [] r at refl c
worker_loop-Winding k now r (id ∷ rest) q old at c =
    if_intro (λ (t : Queue). OptWinding r t.run) (r.cancelled || not q.mounted) _ _
      (λ _. put_slot-Winding k finished old (id ∷ rest) r at refl c)
      (λ going. absurd (true≢false (sym (ap (λ b. b || not q.mounted) c) ∙ going)))

-- A queue whose run is the cancelled run `r`.
record IsCancelled (r : UploadRun) (q : Queue) : Type 0 where
  at : q.run ≡ some r
  cancelled : r.cancelled ≡ true

IsCancelled-Winding : (r : UploadRun) (q : Queue) → IsCancelled r q → OptWinding r q.run
IsCancelled-Winding r q h =
    subst (OptWinding r) (sym h.at) (record { cancelled = h.cancelled; busy = omega arith })

cancel_run-Winding :
    (r : UploadRun) (run : Option UploadRun) → OptWinding r run → OptWinding r (cancel_run run)
cancel_run-Winding r none h = h
cancel_run-Winding r (some after) h = record { cancelled = refl; busy = h.busy }

refresh_file_list-Winding :
    (r : UploadRun) (now : ℕ) (q : Queue)
    → OptWinding r q.run
    → OptWinding r (refresh_file_list now q).run
unfolding refresh_file_list
refresh_file_list-Winding r now q h =
    if_intro (λ (t : Queue). OptWinding r t.run) q.mounted _ _ (λ _. h) (λ _. h)

tick_speed-Winding :
    (now : ℕ) (o : Option (List (ℕ × Sample))) (r : UploadRun) (q : Queue)
    → OptWinding r q.run
    → OptWinding r (tick_speed now o q).run
unfolding tick_speed
tick_speed-Winding now none r q h = h
tick_speed-Winding now (some samples) r q h =
    if_intro (λ (t : Queue). OptWinding r t.run) (has_to_show now samples q) _ _
      (λ _. refresh_file_list-Winding r now (sampled now samples q) h) (λ _. h)

refresh_file_list-run : (now : ℕ) (q : Queue) → (refresh_file_list now q).run ≡ q.run
unfolding refresh_file_list
refresh_file_list-run now q =
    if_intro (λ (t : Queue). t.run ≡ q.run) q.mounted _ _ (λ _. refl) (λ _. refl)

turn_worker-Winding :
    (k now : ℕ) (r : UploadRun) (run : Option UploadRun) (q : Queue) (old : Slot)
    → run ≡ some r
    → slot_at k (some r) ≡ some old
    → r.cancelled ≡ true
    → OptWinding r (turn_worker k now run q).run
unfolding turn_worker
turn_worker-Winding k now r run q old e at c =
    rw e (worker_loop-Winding k now r r.remaining q old at c)

-- The events that do not move a worker leave the run, or cancel it.
start_uploads-Winding :
    (key : Option Text) (now : ℕ) (r : UploadRun) (q : Queue)
    → IsCancelled r q
    → OptWinding r (start_uploads key now q).run
unfolding start_uploads
start_uploads-Winding key now r q h =
    if_intro (λ (t : Queue). OptWinding r t.run) (is_some q.run) _ _
      (λ _. IsCancelled-Winding r q h) (λ idle. absurd (true≢false (sym (ap is_some h.at) ∙ idle)))

take_drop-Winding :
    (files : List File) (now : ℕ) (r : UploadRun) (q : Queue)
    → OptWinding r q.run
    → OptWinding r (take_drop files now q).run
unfolding take_drop handle_selection
take_drop-Winding [] now r q h =
    if_intro (λ (t : Queue). OptWinding r t.run) (not q.mounted) _ _ (λ _. h)
      (λ _. refresh_file_list-Winding r now _ h)
take_drop-Winding (file ∷ files) now r q h =
    if_intro (λ (t : Queue). OptWinding r t.run) (not q.mounted) _ _ (λ _. h)
      (λ _. refresh_file_list-Winding r now _ h)

reset_all-Winding :
    (now : ℕ) (r : UploadRun) (q : Queue) → OptWinding r q.run → OptWinding r (reset_all now q).run
unfolding reset_all
reset_all-Winding now r q h =
    if_intro (λ (t : Queue). OptWinding r t.run) (is_some q.run) _ _ (λ _. h)
      (λ _. refresh_file_list-Winding r now _ h)

remove_found-Winding :
    (key : Text) (now : ℕ) (found : Option Entry) (r : UploadRun) (q : Queue)
    → OptWinding r q.run
    → OptWinding r (remove_found key now found q).run
unfolding remove_found
remove_found-Winding key now none r q h = h
remove_found-Winding key now (some e) r q h = refresh_file_list-Winding r now _ h

on_end-Winding :
    (now : ℕ) (r : UploadRun) (run : Option UploadRun) (q : Queue)
    → OptWinding r q.run
    → OptWinding r (on_end now run q).run
unfolding on_end end_run
on_end-Winding now r none q h = h
on_end-Winding now r (some s) q h =
    if_intro (λ (t : Queue). OptWinding r t.run) (every is_finished s.slots) _ _ (λ _. tt) (λ _. h)

on_woken-Winding :
    (k now : ℕ) (r : UploadRun) (slot : Option Slot) (q : Queue)
    → slot_at k (some r) ≡ slot
    → IsCancelled r q
    → OptWinding r (on_woken k now slot q).run
unfolding on_woken
on_woken-Winding k now r none q at h = IsCancelled-Winding r q h
on_woken-Winding k now r (some unstarted) q at h = IsCancelled-Winding r q h
on_woken-Winding k now r (some parked) q at h =
    turn_worker-Winding k now r q.run q parked h.at at h.cancelled
on_woken-Winding k now r (some finished) q at h = IsCancelled-Winding r q h
on_woken-Winding k now r (some (busy id)) q at h = IsCancelled-Winding r q h
on_woken-Winding k now r (some (cleaning id)) q at h = IsCancelled-Winding r q h

catch_in_run-Winding :
    (k id now : ℕ) (item : UploadItem) (r : UploadRun) (run : Option UploadRun) (q : Queue)
    → run ≡ some r
    → slot_at k (some r) ≡ some (busy id)
    → r.cancelled ≡ true
    → OptWinding r (catch_in_run k id now item run q).run
unfolding catch_in_run catch_upload
catch_in_run-Winding k id now item r run q e at c =
    rw e (put_slot-Winding k (cleaning id) (busy id) r.remaining r at refl c)

on_failed-Winding :
    (k now : ℕ) (item : UploadItem) (r : UploadRun) (slot : Option Slot) (q : Queue)
    → slot_at k (some r) ≡ slot
    → IsCancelled r q
    → OptWinding r (on_failed k now item slot q).run
unfolding on_failed
on_failed-Winding k now item r none q at h = IsCancelled-Winding r q h
on_failed-Winding k now item r (some unstarted) q at h = IsCancelled-Winding r q h
on_failed-Winding k now item r (some parked) q at h = IsCancelled-Winding r q h
on_failed-Winding k now item r (some finished) q at h = IsCancelled-Winding r q h
on_failed-Winding k now item r (some (busy id)) q at h =
    catch_in_run-Winding k id now item r q.run q h.at at h.cancelled
on_failed-Winding k now item r (some (cleaning id)) q at h = IsCancelled-Winding r q h

on_changed-Winding :
    (now : ℕ) (item : UploadItem) (r : UploadRun) (slot : Option Slot) (q : Queue)
    → OptWinding r q.run
    → OptWinding r (on_changed now item slot q).run
unfolding on_changed change_upload
on_changed-Winding now item r none q h = h
on_changed-Winding now item r (some unstarted) q h = h
on_changed-Winding now item r (some parked) q h = h
on_changed-Winding now item r (some finished) q h = h
on_changed-Winding now item r (some (busy id)) q h = refresh_file_list-Winding r now _ h
on_changed-Winding now item r (some (cleaning id)) q h = h

on_succeeded-Winding :
    (k now : ℕ) (item : UploadItem) (r : UploadRun) (slot : Option Slot) (q : Queue)
    → slot_at k (some r) ≡ slot
    → IsCancelled r q
    → OptWinding r (on_succeeded k now item slot q).run
unfolding on_succeeded finish_upload
on_succeeded-Winding k now item r none q at h = IsCancelled-Winding r q h
on_succeeded-Winding k now item r (some unstarted) q at h = IsCancelled-Winding r q h
on_succeeded-Winding k now item r (some parked) q at h = IsCancelled-Winding r q h
on_succeeded-Winding k now item r (some finished) q at h = IsCancelled-Winding r q h
on_succeeded-Winding k now item r (some (busy id)) q at h =
    turn_worker-Winding k now r _ _ (busy id) (refresh_file_list-run now _ ∙ h.at) at h.cancelled
on_succeeded-Winding k now item r (some (cleaning id)) q at h = IsCancelled-Winding r q h

module _ (exists : Text → Bool) (reason : Text) where
  on_cleaned-Winding :
      (k now : ℕ) (item : UploadItem) (e : Failure) (r : UploadRun) (slot : Option Slot) (q : Queue)
      → slot_at k (some r) ≡ slot
      → IsCancelled r q
      → OptWinding r (on_cleaned exists reason k now item e slot q).run
  unfolding on_cleaned settle_upload
  on_cleaned-Winding k now item e r none q at h = IsCancelled-Winding r q h
  on_cleaned-Winding k now item e r (some unstarted) q at h = IsCancelled-Winding r q h
  on_cleaned-Winding k now item e r (some parked) q at h = IsCancelled-Winding r q h
  on_cleaned-Winding k now item e r (some finished) q at h = IsCancelled-Winding r q h
  on_cleaned-Winding k now item e r (some (busy id)) q at h = IsCancelled-Winding r q h
  on_cleaned-Winding k now item e r (some (cleaning id)) q at h =
      turn_worker-Winding k now r _ _ (cleaning id) (refresh_file_list-run now _ ∙ h.at) at
        h.cancelled

  -- While the run is cancelled, no event makes another worker transfer a file, whether the user
  -- selects, starts, resumes or retries; the run stays cancelled until it has ended.
  pub step-Winding :
      (q : Queue) (event : QueueEvent) (r : UploadRun)
      → q.run ≡ some r
      → r.cancelled ≡ true
      → OptWinding r (step exists reason q event).run
  unfolding step watch_speed begin_drop finish_drop fail_drop handle_selection pause_all resume_all
      cancel_all remove_item unmount
  step-Winding q event r at c =
      let h : IsCancelled r q = record { at = at; cancelled = c } in
      let same = IsCancelled-Winding r q h in
      elim event as (λ ev. OptWinding r (step exists reason q ev).run) [
        | selects files now ↦ refresh_file_list-Winding r now _ same
        | drops ↦ same
        | drop_ends ↦
            if_intro (λ (t : Queue). OptWinding r t.run) q.mounted _ _ (λ _. same) (λ _. same)
        | unmounts ↦ cancel_run-Winding r q.run same
        | drop_read files now ↦ take_drop-Winding files now r q same
        | drop_fails m ↦
            if_intro (λ (t : Queue). OptWinding r t.run) q.mounted _ _ (λ _. same) (λ _. same)
        | starts key now ↦ start_uploads-Winding key now r q h
        | pauses now ↦ refresh_file_list-Winding r now _ same
        | resumes now ↦ refresh_file_list-Winding r now _ same
        | cancels now ↦ refresh_file_list-Winding r now _ (cancel_run-Winding r q.run same)
        | watches now ↦
            if_intro (λ (t : Queue). OptWinding r t.run)
              (not q.running || (q.global_paused || q.canceling)) _ _ (λ _. same) (λ _. same)
        | ticks now ↦ tick_speed-Winding now q.samples r q same
        | resets now ↦ reset_all-Winding now r q same
        | ends now ↦ on_end-Winding now r q.run q same
        | removes key now ↦ remove_found-Winding key now (find_key key q.entries) r q same
        | woken k now ↦ on_woken-Winding k now r (slot_at k q.run) q (ap (slot_at k) (sym at)) h
        | fails k now item e ↦
            on_failed-Winding k now item r (slot_at k q.run) q (ap (slot_at k) (sym at)) h
        | cleaned k now item e ↦
            on_cleaned-Winding k now item e r (slot_at k q.run) q (ap (slot_at k) (sym at)) h
        | changes k now item ↦ on_changed-Winding now item r (slot_at k q.run) q same
        | succeeds k now item ↦
            on_succeeded-Winding k now item r (slot_at k q.run) q (ap (slot_at k) (sym at)) h
      ]
