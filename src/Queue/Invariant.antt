-- ===== src/Queue/Invariant.antt =====
-- The account of the files that the workers take, kept by every event of the queue.
use gothrough.Base.{
  ◌||◌, ℕ, zero, suc, ◌<◌, ◌≡◌, refl, Bool, not, Option, none, some, List, [], ◌∷◌, length,
  get_elem?, every, is_some, if_intro, arith, Text,
}
use mathlib.Core.Path.{subst}
use gothrough.Messages.{Message}
use gothrough.Upload.Types.{File, UploadItem, max_concurrent_files}
use gothrough.Upload.Engine.State.{Failure}
use gothrough.Queue.State.{
  Sample, Entry, put_entry, Slot, unstarted, parked, finished, busy, cleaning, UploadRun, Queue,
  refresh_file_list, pause_clock,
}
use gothrough.Queue.Actions.{
  stop_item, cancel_run, handle_selection, begin_drop, finish_drop, take_drop, fail_drop,
  pause_entry, resume_entry, is_live, cancel_entry, pause_all, resume_all, cancel_all, reset_all,
  remove_item, remove_found, find_key,
}
use gothrough.Queue.Run.{
  start_uploads, pick_pending, turn_worker, catch_upload, settle_upload, finish_upload,
  change_upload, end_run, is_finished,
}
use gothrough.Queue.Speed.{watch_speed, tick_speed, has_to_show, sampled, put_speed}
use gothrough.Queue.Machine.{
  QueueEvent, selects, drops, drop_ends, unmounts, drop_read, drop_fails, starts, watches, ticks,
  pauses, resumes, cancels, resets, ends, removes, woken, fails, cleaned, succeeds, unmount,
  slot_at, on_woken, catch_in_run, on_failed, on_succeeded, on_end, on_cleaned, step, changes,
  on_changed,
}
use gothrough.Queue.Slots.{
  OptRunInv, refresh_file_list-OptRunInv, turn_worker-RunInv, start_run-RunInv, catch_upload-RunInv,
  count-pick_pending_le,
}
use gothrough.Queue.Numbers.{
  QueueIdInv, IdInv-map, IdInv-update_entry, IdInv-remove_key, refresh_file_list-IdInv,
  turn_worker-IdInv, start_run-IdInv, handle_selection-IdInv,
}

-- The item objects have distinct numbers, and the run takes each of its files once.
pub record QueueInv (q : Queue) : Type 0 where
  pub ids : QueueIdInv q
  pub run : OptRunInv q.run

QueueInv-refresh : (now : ℕ) (q : Queue) → QueueInv q → QueueInv (refresh_file_list now q)
QueueInv-refresh now q h = record {
  ids = refresh_file_list-IdInv now q h.ids;
  run = refresh_file_list-OptRunInv now q h.run;
}

cancel_run-OptRunInv : (run : Option UploadRun) → OptRunInv run → OptRunInv (cancel_run run)
cancel_run-OptRunInv none h = h
cancel_run-OptRunInv (some r) h = record { two = h.two; single = h.single }

get_elem?-some_lt : (xs : List Slot) (k : ℕ) (a : Slot) → get_elem? xs k ≡ some a → k < length xs
get_elem?-some_lt [] k a h = ground arith
get_elem?-some_lt (x ∷ xs) zero a h = omega arith
get_elem?-some_lt (x ∷ xs) (suc k) a h = omega (arith, get_elem?-some_lt xs k a h)

slot_at-lt :
    (k : ℕ) (run : Option UploadRun) (s : Slot)
    → OptRunInv run
    → slot_at k run ≡ some s
    → k < max_concurrent_files
slot_at-lt k none s h at = ground arith
slot_at-lt k (some r) s h at = omega (arith, h.two, get_elem?-some_lt r.slots k s at)

turn_worker-QueueInv :
    (k now : ℕ) (q : Queue)
    → k < max_concurrent_files
    → QueueInv q
    → QueueInv (turn_worker k now q.run q)
turn_worker-QueueInv k now q below h = record {
  ids = turn_worker-IdInv k now q.run q h.ids;
  run = turn_worker-RunInv k now q.run q below h.run refl;
}

-- The user's actions.
handle_selection-QueueInv :
    (files : List File) (now : ℕ) (q : Queue) → QueueInv q → QueueInv (handle_selection files now q)
unfolding handle_selection
handle_selection-QueueInv files now q h = record {
  ids = handle_selection-IdInv files now q h.ids;
  run = refresh_file_list-OptRunInv now _ h.run;
}

take_drop-QueueInv :
    (files : List File) (now : ℕ) (q : Queue) → QueueInv q → QueueInv (take_drop files now q)
unfolding take_drop
take_drop-QueueInv [] now q h =
    if_intro QueueInv (not q.mounted) _ _ (λ _. h)
      (λ _. let t = handle_selection-QueueInv [] now q h in record { ids = t.ids; run = t.run })
take_drop-QueueInv (file ∷ files) now q h =
    if_intro QueueInv (not q.mounted) _ _ (λ _. h)
      (λ _. handle_selection-QueueInv (file ∷ files) now q h)

start_uploads-QueueInv :
    (key : Option Text) (now : ℕ) (q : Queue) → QueueInv q → QueueInv (start_uploads key now q)
unfolding start_uploads
start_uploads-QueueInv key now q h =
    if_intro QueueInv (is_some q.run) _ _ (λ _. h)
      (λ _. record {
        ids = start_run-IdInv (pick_pending key q.entries) now q h.ids;
        run =
            start_run-RunInv (pick_pending key q.entries) now q h.run
              (λ i. omega (arith, count-pick_pending_le key i q.entries, h.ids.once i));
      })

pause_entry-id : (now : ℕ) (e : Entry) → (pause_entry now e).id ≡ e.id
pause_entry-id now e =
    if_intro (λ (x : Entry). x.id ≡ e.id) (is_some e.item.upload_controller) _ _ (λ _. refl)
      (λ _. refl)

resume_entry-id : (now : ℕ) (e : Entry) → (resume_entry now e).id ≡ e.id
resume_entry-id now e =
    if_intro (λ (x : Entry). x.id ≡ e.id) (is_live e.item.upload_controller) _ _ (λ _. refl)
      (λ _. refl)

pause_all-QueueInv : (now : ℕ) (q : Queue) → QueueInv q → QueueInv (pause_all now q)
unfolding pause_all
pause_all-QueueInv now q h = QueueInv-refresh now _ (record {
  ids = IdInv-map (pause_entry now) q.entries q.next_id (pause_entry-id now) h.ids;
  run = h.run;
})

watch_speed-QueueInv : (now : ℕ) (q : Queue) → QueueInv q → QueueInv (watch_speed now q)
unfolding watch_speed
watch_speed-QueueInv now q h =
    if_intro QueueInv (not q.running || (q.global_paused || q.canceling)) _ _
      (λ _. record { ids = h.ids; run = h.run }) (λ _. record { ids = h.ids; run = h.run })

tick_speed-QueueInv :
    (now : ℕ) (o : Option (List (ℕ × Sample))) (q : Queue)
    → QueueInv q
    → QueueInv (tick_speed now o q)
unfolding tick_speed
tick_speed-QueueInv now none q h = h
tick_speed-QueueInv now (some samples) q h =
    let t : QueueInv (sampled now samples q) = record {
      ids = IdInv-map (put_speed now q.global_paused samples) q.entries q.next_id (λ e. refl) h.ids;
      run = h.run;
    } in
    if_intro QueueInv (has_to_show now samples q) _ _
      (λ _. QueueInv-refresh now (sampled now samples q) t) (λ _. t)

resume_all-QueueInv : (now : ℕ) (q : Queue) → QueueInv q → QueueInv (resume_all now q)
unfolding resume_all
resume_all-QueueInv now q h = QueueInv-refresh now _ (record {
  ids = IdInv-map (resume_entry now) q.entries q.next_id (resume_entry-id now) h.ids;
  run = h.run;
})

cancel_all-QueueInv : (now : ℕ) (q : Queue) → QueueInv q → QueueInv (cancel_all now q)
unfolding cancel_all
cancel_all-QueueInv now q h = QueueInv-refresh now _ (record {
  ids = IdInv-map (cancel_entry now) q.entries q.next_id (λ e. refl) h.ids;
  run = cancel_run-OptRunInv q.run h.run;
})

reset_all-QueueInv : (now : ℕ) (q : Queue) → QueueInv q → QueueInv (reset_all now q)
unfolding reset_all
reset_all-QueueInv now q h =
    if_intro QueueInv (is_some q.run) _ _ (λ _. h)
      (λ _.
        QueueInv-refresh now _
          (record { ids = record { once = λ i. omega arith; fresh = λ i le. refl }; run = h.run }))

remove_found-QueueInv :
    (key : Text) (now : ℕ) (found : Option Entry) (q : Queue)
    → QueueInv q
    → QueueInv (remove_found key now found q)
unfolding remove_found
remove_found-QueueInv key now none q h = h
remove_found-QueueInv key now (some e) q h =
    QueueInv-refresh now _
      (record { ids = IdInv-remove_key key q.entries q.next_id h.ids; run = h.run })

remove_item-QueueInv :
    (key : Text) (now : ℕ) (q : Queue) → QueueInv q → QueueInv (remove_item key now q)
unfolding remove_item
remove_item-QueueInv key now q h = remove_found-QueueInv key now (find_key key q.entries) q h

begin_drop-QueueInv : (q : Queue) → QueueInv q → QueueInv (begin_drop q)
unfolding begin_drop
begin_drop-QueueInv q h = record { ids = h.ids; run = h.run }

fail_drop-QueueInv : (m : Message) (q : Queue) → QueueInv q → QueueInv (fail_drop m q)
unfolding fail_drop
fail_drop-QueueInv m q h =
    if_intro QueueInv q.mounted _ _ (λ _. record { ids = h.ids; run = h.run }) (λ _. h)

finish_drop-QueueInv : (q : Queue) → QueueInv q → QueueInv (finish_drop q)
unfolding finish_drop
finish_drop-QueueInv q h =
    if_intro QueueInv q.mounted _ _ (λ _. record { ids = h.ids; run = h.run }) (λ _. h)

unmount-QueueInv : (q : Queue) → QueueInv q → QueueInv (unmount q)
unfolding unmount
unmount-QueueInv q h = record {
  ids = IdInv-map (put_entry stop_item) q.entries q.next_id (λ e. refl) h.ids;
  run = cancel_run-OptRunInv q.run h.run;
}

-- The turns of the workers.
on_woken-QueueInv :
    (k now : ℕ) (slot : Option Slot) (q : Queue)
    → slot_at k q.run ≡ slot
    → QueueInv q
    → QueueInv (on_woken k now slot q)
unfolding on_woken
on_woken-QueueInv k now none q at h = h
on_woken-QueueInv k now (some unstarted) q at h = h
on_woken-QueueInv k now (some parked) q at h =
    turn_worker-QueueInv k now q (slot_at-lt k q.run parked h.run at) h
on_woken-QueueInv k now (some finished) q at h = h
on_woken-QueueInv k now (some (busy id)) q at h = h
on_woken-QueueInv k now (some (cleaning id)) q at h = h

catch_upload-IdInv :
    (k id now : ℕ) (item : UploadItem) (r : UploadRun) (q : Queue)
    → QueueIdInv q
    → QueueIdInv (catch_upload k id now item r q)
unfolding catch_upload
catch_upload-IdInv k id now item r q h = IdInv-update_entry id _ q.entries q.next_id (λ e. refl) h

catch_in_run-QueueInv :
    (k id now : ℕ) (item : UploadItem) (run : Option UploadRun) (q : Queue)
    → slot_at k run ≡ some (busy id)
    → q.run ≡ run
    → QueueInv q
    → QueueInv (catch_in_run k id now item run q)
unfolding catch_in_run
catch_in_run-QueueInv k id now item none q at e h = h
catch_in_run-QueueInv k id now item (some r) q at e h = record {
  ids = catch_upload-IdInv k id now item r q h.ids;
  run = catch_upload-RunInv k id now item r q at (subst OptRunInv e h.run);
}

on_failed-QueueInv :
    (k now : ℕ) (item : UploadItem) (slot : Option Slot) (q : Queue)
    → slot_at k q.run ≡ slot
    → QueueInv q
    → QueueInv (on_failed k now item slot q)
unfolding on_failed
on_failed-QueueInv k now item none q at h = h
on_failed-QueueInv k now item (some unstarted) q at h = h
on_failed-QueueInv k now item (some parked) q at h = h
on_failed-QueueInv k now item (some finished) q at h = h
on_failed-QueueInv k now item (some (busy id)) q at h =
    catch_in_run-QueueInv k id now item q.run q at refl h
on_failed-QueueInv k now item (some (cleaning id)) q at h = h

finish_upload-QueueInv :
    (k id now : ℕ) (item : UploadItem) (q : Queue)
    → k < max_concurrent_files
    → QueueInv q
    → QueueInv (finish_upload k id now item q)
unfolding finish_upload
finish_upload-QueueInv k id now item q below h = turn_worker-QueueInv k now _ below (
    QueueInv-refresh now _
      (record { ids = IdInv-update_entry id _ q.entries q.next_id (λ e. refl) h.ids; run = h.run }))

on_succeeded-QueueInv :
    (k now : ℕ) (item : UploadItem) (slot : Option Slot) (q : Queue)
    → slot_at k q.run ≡ slot
    → QueueInv q
    → QueueInv (on_succeeded k now item slot q)
unfolding on_succeeded
on_succeeded-QueueInv k now item none q at h = h
on_succeeded-QueueInv k now item (some unstarted) q at h = h
on_succeeded-QueueInv k now item (some parked) q at h = h
on_succeeded-QueueInv k now item (some finished) q at h = h
on_succeeded-QueueInv k now item (some (busy id)) q at h =
    finish_upload-QueueInv k id now item q (slot_at-lt k q.run (busy id) h.run at) h
on_succeeded-QueueInv k now item (some (cleaning id)) q at h = h

change_upload-QueueInv :
    (id now : ℕ) (item : UploadItem) (q : Queue)
    → QueueInv q
    → QueueInv (change_upload id now item q)
unfolding change_upload
change_upload-QueueInv id now item q h =
    QueueInv-refresh now _
      (record { ids = IdInv-update_entry id _ q.entries q.next_id (λ e. refl) h.ids; run = h.run })

on_changed-QueueInv :
    (now : ℕ) (item : UploadItem) (slot : Option Slot) (q : Queue)
    → QueueInv q
    → QueueInv (on_changed now item slot q)
unfolding on_changed
on_changed-QueueInv now item none q h = h
on_changed-QueueInv now item (some unstarted) q h = h
on_changed-QueueInv now item (some parked) q h = h
on_changed-QueueInv now item (some finished) q h = h
on_changed-QueueInv now item (some (busy id)) q h = change_upload-QueueInv id now item q h
on_changed-QueueInv now item (some (cleaning id)) q h = h

on_end-QueueInv :
    (now : ℕ) (run : Option UploadRun) (q : Queue) → QueueInv q → QueueInv (on_end now run q)
unfolding on_end end_run
on_end-QueueInv now none q h = h
on_end-QueueInv now (some r) q h =
    if_intro QueueInv (every is_finished r.slots) _ _
      (λ _.
        let t =
          QueueInv-refresh now (record q { queue_clock = pause_clock now q.queue_clock })
            (record { ids = h.ids; run = h.run }) in
        record { ids = t.ids; run = tt })
      (λ _. h)

module _ (exists : Text → Bool) (reason : Text) where
  settle_upload-QueueInv :
      (k id now : ℕ) (item : UploadItem) (e : Failure) (q : Queue)
      → k < max_concurrent_files
      → QueueInv q
      → QueueInv (settle_upload exists reason k id now item e q)
  unfolding settle_upload
  settle_upload-QueueInv k id now item e q below h = turn_worker-QueueInv k now _ below (
      QueueInv-refresh now _ (record {
        ids = IdInv-update_entry id _ q.entries q.next_id (λ x. refl) h.ids;
        run = h.run;
      }))

  on_cleaned-QueueInv :
      (k now : ℕ) (item : UploadItem) (e : Failure) (slot : Option Slot) (q : Queue)
      → slot_at k q.run ≡ slot
      → QueueInv q
      → QueueInv (on_cleaned exists reason k now item e slot q)
  unfolding on_cleaned
  on_cleaned-QueueInv k now item e none q at h = h
  on_cleaned-QueueInv k now item e (some unstarted) q at h = h
  on_cleaned-QueueInv k now item e (some parked) q at h = h
  on_cleaned-QueueInv k now item e (some finished) q at h = h
  on_cleaned-QueueInv k now item e (some (busy id)) q at h = h
  on_cleaned-QueueInv k now item e (some (cleaning id)) q at h =
      settle_upload-QueueInv k id now item e q (slot_at-lt k q.run (cleaning id) h.run at) h

  -- Every event of the queue keeps the numbers of its item objects distinct, and keeps a run to
  -- two workers that hold each file of the run at most once between them and what is left to come.
  pub step-QueueInv :
      (q : Queue) (event : QueueEvent) → QueueInv q → QueueInv (step exists reason q event)
  unfolding step
  step-QueueInv q (selects files now) h = handle_selection-QueueInv files now q h
  step-QueueInv q drops h = begin_drop-QueueInv q h
  step-QueueInv q drop_ends h = finish_drop-QueueInv q h
  step-QueueInv q unmounts h = unmount-QueueInv q h
  step-QueueInv q (drop_read files now) h = take_drop-QueueInv files now q h
  step-QueueInv q (drop_fails m) h = fail_drop-QueueInv m q h
  step-QueueInv q (starts key now) h = start_uploads-QueueInv key now q h
  step-QueueInv q (pauses now) h = pause_all-QueueInv now q h
  step-QueueInv q (resumes now) h = resume_all-QueueInv now q h
  step-QueueInv q (cancels now) h = cancel_all-QueueInv now q h
  step-QueueInv q (watches now) h = watch_speed-QueueInv now q h
  step-QueueInv q (ticks now) h = tick_speed-QueueInv now q.samples q h
  step-QueueInv q (resets now) h = reset_all-QueueInv now q h
  step-QueueInv q (ends now) h = on_end-QueueInv now q.run q h
  step-QueueInv q (removes key now) h = remove_item-QueueInv key now q h
  step-QueueInv q (woken k now) h = on_woken-QueueInv k now (slot_at k q.run) q refl h
  step-QueueInv q (fails k now item e) h = on_failed-QueueInv k now item (slot_at k q.run) q refl h
  step-QueueInv q (cleaned k now item e) h =
      on_cleaned-QueueInv k now item e (slot_at k q.run) q refl h
  step-QueueInv q (changes k now item) h = on_changed-QueueInv now item (slot_at k q.run) q h
  step-QueueInv q (succeeds k now item) h =
      on_succeeded-QueueInv k now item (slot_at k q.run) q refl h
