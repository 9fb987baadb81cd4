-- ===== src/UploadPage/Buttons.antt =====
-- What the buttons promise.
use mathlib.Core.Path.{subst}
use gothrough.Base.{
  ℕ, zero, suc, ◌≡◌, refl, sym, ap, ◌∙◌, Bool, true, false, ◌&&◌, ◌||◌, not, Option, none, some,
  is_some, List, [], ◌∷◌, if_intro, if◌then◌else◌, ltb, arith, Text, is_empty, text_eq, Bool-cases,
  inl, inr,
}
use gothrough.Upload.Engine.State.{upload_cancelled}
use gothrough.Queue.State.{
  Entry, UploadRun, Queue, empty_queue, refresh_file_list, is_pending, is_error, count_items,
  pending_count, error_count, key_of,
}
use gothrough.Queue.Actions.{
  begin_drop, finish_drop, fail_drop, pause_all, resume_all, remove_item, find_key,
}
use gothrough.Queue.Run.{
  pick_pending, start_workers, start_run, start_uploads, worker_loop, turn_worker, includes,
}
use gothrough.Queue.Speed.{watch_speed}
use gothrough.Queue.Machine as Machine
use gothrough.Queue.Machine.{
  changes, QueueEvent, selects, drops, drop_ends, unmounts, drop_read, drop_fails, starts, watches,
  ticks, pauses, resumes, cancels, resets, ends, removes, woken, fails, cleaned, succeeds, unmount,
  slot_at, on_end,
}
use gothrough.UploadPage.{controls, is_offered, can_retry, step, run}
use gothrough.UploadPage.Agreement.{
  Agrees, refresh-Agrees, start_uploads-Agrees, cancel_all-Agrees, end_run-Agrees,
  handle_selection-Agrees, take_drop-Agrees, reset_all-Agrees, remove_found-Agrees, on_slot-Agrees,
  tick_speed-Agrees, on_woken-Agrees,
}

-- There is a run, before and after a turn of its workers.
refresh-run : (now : ℕ) (q : Queue) → (refresh_file_list now q).run ≡ q.run
unfolding refresh_file_list
refresh-run now q = if_intro (λ (t : Queue). t.run ≡ q.run) q.mounted _ _ (λ _. refl) (λ _. refl)

worker_loop-run :
    (k now : ℕ) (r : UploadRun) (rest : List ℕ) (q : Queue)
    → is_some (worker_loop k now r rest q).run ≡ true
unfolding worker_loop
worker_loop-run k now r [] q = refl
worker_loop-run k now r (id ∷ rest) q =
    if_intro IsRun (r.cancelled || not q.mounted) _ _ (λ _. refl)
      (λ _.
        if_intro IsRun q.global_paused _ _ (λ _. refl)
          (λ _.
            if_intro IsRun (includes id q.entries) _ _ (λ _. ap is_some (refresh-run now _))
              (λ _. worker_loop-run k now r rest q)))
  where
    IsRun : Queue → Type 0
    IsRun t = is_some t.run ≡ true

turn_worker-run :
    (k now : ℕ) (o : Option UploadRun) (q : Queue)
    → is_some q.run ≡ true
    → is_some (turn_worker k now o q).run ≡ true
unfolding turn_worker
turn_worker-run k now none q h = h
turn_worker-run k now (some r) q h = worker_loop-run k now r r.remaining q

start_workers-run :
    (n k now : ℕ) (q : Queue) → is_some q.run ≡ true → is_some (start_workers n k now q).run ≡ true
unfolding start_workers
start_workers-run zero k now q h = h
start_workers-run (suc n) k now q h =
    start_workers-run n (suc k) now (turn_worker k now q.run q) (turn_worker-run k now q.run q h)

start_run-run :
    (ids : List ℕ) (now : ℕ) (q : Queue)
    → is_empty ids ≡ false
    → is_some (start_run ids now q).run ≡ true
unfolding start_run
start_run-run [] now q h = cc
start_run-run (id ∷ ids) now q h = start_workers-run 2 0 now _ refl

-- Something is picked where anything waits or has failed.
pick_all_full :
    (es : List Entry)
    → (ltb 0 (count_items is_pending es) || ltb 0 (count_items is_error es)) ≡ true
    → is_empty (pick_pending none es) ≡ false
unfolding pick_pending
pick_all_full [] h = ground arith
pick_all_full (e ∷ es) h =
    if_intro (λ ids. is_empty ids ≡ false)
      ((is_pending e.item.state || is_error e.item.state) && true) _ _ (λ _. refl)
      (λ idle. pick_all_full es (ground arith))

pick_key_full :
    (key : Text) (es : List Entry) (running : Bool)
    → can_retry running (find_key key es) ≡ true
    → is_empty (pick_pending (some key) es) ≡ false
unfolding pick_pending find_key
pick_key_full key [] running h = ground arith
pick_key_full key (e ∷ es) running h =
    if_intro (λ ids. is_empty ids ≡ false)
      ((is_pending e.item.state || is_error e.item.state) && text_eq (key_of e) key) _ _ (λ _. refl)
      (λ idle. elim (Bool-cases (text_eq (key_of e) key)) [
        | inl same ↦ absurd (ground (arith, retried same))
        | inr other ↦
            pick_key_full key es running (
              subst (λ b. can_retry running (if b then some e else find_key key es) ≡ true) other h)
      ])
  where
    retried : text_eq (key_of e) key ≡ true → (is_error e.item.state && not running) ≡ true
    retried same =
        subst (λ b. can_retry running (if b then some e else find_key key es) ≡ true) same h

retry_idle : (running : Bool) (o : Option Entry) → can_retry running o ≡ true → running ≡ false
retry_idle running none h = cc
retry_idle running (some e) h = ground arith

offered_start :
    (q : Queue) (key : Option Text) (now : ℕ)
    → is_offered q (starts key now) ≡ true
    → (q.running ≡ false) × (is_empty (pick_pending key q.entries) ≡ false)
unfolding is_offered controls pending_count error_count
offered_start q none now h = (ground arith, pick_all_full q.entries (ground arith))
offered_start q (some key) now h =
    (retry_idle q.running (find_key key q.entries) h, pick_key_full key q.entries q.running h)

module _ (exists : Text → Bool) (reason : Text) where
  offered-Agrees :
      (q : Queue) (e : QueueEvent)
      → is_offered q e ≡ true
      → Agrees q
      → Agrees (Machine.step exists reason q e)
  unfolding Machine.step is_offered watch_speed begin_drop finish_drop fail_drop unmount pause_all
      resume_all remove_item on_end
  offered-Agrees q (selects files now) on h = handle_selection-Agrees files now q h
  offered-Agrees q drops on h = record { shown = h.shown; ending = h.ending }
  offered-Agrees q drop_ends on h =
      if_intro Agrees q.mounted _ _ (λ _. record { shown = h.shown; ending = h.ending }) (λ _. h)
  offered-Agrees q unmounts on h = record { shown = λ m. cc; ending = λ m. cc }
  offered-Agrees q (drop_read files now) on h = take_drop-Agrees files now q h
  offered-Agrees q (drop_fails m) on h =
      if_intro Agrees q.mounted _ _ (λ _. record { shown = h.shown; ending = h.ending }) (λ _. h)
  offered-Agrees q (starts key now) on h = start_uploads-Agrees key now q h
  offered-Agrees q (pauses now) on h =
      refresh-Agrees now _ (record { shown = h.shown; ending = h.ending })
  offered-Agrees q (resumes now) on h =
      refresh-Agrees now _ (record { shown = h.shown; ending = h.ending })
  offered-Agrees q (cancels now) on h = cancel_all-Agrees now q on h
  offered-Agrees q (watches now) on h =
      if_intro Agrees (not q.running || (q.global_paused || q.canceling)) _ _
        (λ _. record { shown = h.shown; ending = h.ending })
        (λ _. record { shown = h.shown; ending = h.ending })
  offered-Agrees q (ticks now) on h = tick_speed-Agrees now q.samples q h
  offered-Agrees q (resets now) on h = reset_all-Agrees now q h
  offered-Agrees q (ends now) on h = by_run q.run
    where
      by_run : (o : Option UploadRun) → Agrees (on_end now o q)
      by_run none = h
      by_run (some r) = end_run-Agrees now r q h
  offered-Agrees q (removes key now) on h = remove_found-Agrees key now (find_key key q.entries) q h
  offered-Agrees q (woken k now) on h = on_woken-Agrees k now (slot_at k q.run) q h
  offered-Agrees q (fails k now item e) on h =
      (on_slot-Agrees exists reason k now item e (slot_at k q.run) q h).0
  offered-Agrees q (cleaned k now item e) on h =
      (on_slot-Agrees exists reason k now item e (slot_at k q.run) q h).1.1.1
  offered-Agrees q (changes k now item) on h =
      (on_slot-Agrees exists reason k now item upload_cancelled (slot_at k q.run) q h).1.1.0
  offered-Agrees q (succeeds k now item) on h =
      (on_slot-Agrees exists reason k now item upload_cancelled (slot_at k q.run) q h).1.0

  pub step-Agrees : (q : Queue) (e : QueueEvent) → Agrees q → Agrees (step exists reason q e)
  unfolding step
  step-Agrees q e h = if_intro Agrees (is_offered q e) _ _ (λ on. offered-Agrees q e on h) (λ _. h)

  -- In every history of the page from an empty queue, in which the user's actions come by the
  -- buttons that it offers: while the page is there, it shows a run exactly while there is one, and
  -- that everything is being cancelled exactly while that run is cancelled.
  pub run-empty_Agrees : (es : List QueueEvent) → Agrees (run exists reason empty_queue es)
  unfolding run
  run-empty_Agrees es = later empty_queue es (record { shown = λ m. refl; ending = λ m. refl })
    where
      later : (q : Queue) (rest : List QueueEvent) → Agrees q → Agrees (run exists reason q rest)
      later q [] h = h
      later q (e ∷ rest) h = later (step exists reason q e) rest (step-Agrees q e h)

  -- While a page that is there agrees with its queue, pressing the button that starts, or that of a
  -- row that retries, wherever it is offered and enabled, begins a run where there was none.
  pub press_start-run :
      (q : Queue) (key : Option Text) (now : ℕ)
      → Agrees q
      → q.mounted ≡ true
      → is_offered q (starts key now) ≡ true
      → (is_some q.run ≡ false) × (is_some (step exists reason q (starts key now)).run ≡ true)
  unfolding step Machine.step start_uploads
  press_start-run q key now h m on =
      let (idle, full) = offered_start q key now on in
      let free = sym (h.shown m) ∙ idle in
      (free, rw (on, free) (start_run-run (pick_pending key q.entries) now q full))
