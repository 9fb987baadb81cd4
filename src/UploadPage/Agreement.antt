-- ===== src/UploadPage/Agreement.antt =====
-- The page shows a run exactly while there is one, and that it is cancelled exactly while it is.
use gothrough.Base.{
  ℕ, zero, suc, ◌≡◌, refl, sym, ap, ◌∙◌, Bool, true, false, ◌||◌, not, Option, none, some, is_some,
  List, [], ◌∷◌, if_intro, every, if◌then◌else◌, arith, Text,
}
use gothrough.Upload.Types.{File, UploadItem}
use gothrough.Upload.Engine.State.{Failure}
use gothrough.Queue.State.{
  Entry, Slot, unstarted, parked, finished, busy, cleaning, UploadRun, Queue, Sample,
  refresh_file_list, pause_clock,
}
use gothrough.Queue.Actions.{
  cancel_run, handle_selection, take_drop, cancel_all, reset_all, remove_found,
}
use gothrough.Queue.Speed.{tick_speed, has_to_show, sampled}
use gothrough.Queue.Run.{
  run_cancelled, pick_pending, start_workers, start_run, change_upload, start_uploads, worker_loop,
  turn_worker, catch_upload, settle_upload, finish_upload, end_run, is_finished, includes, put_slot,
}
use gothrough.Queue.Machine.{
  on_changed, on_woken, catch_in_run, on_failed, on_succeeded, on_cleaned,
}
use gothrough.UploadPage.{controls, offers_cancel}

-- What the page draws agrees with the run, and what the queue knows of the page.
pub record Agrees (q : Queue) : Type 0 where
  pub shown : q.mounted ≡ true → q.running ≡ is_some q.run
  pub ending : q.mounted ≡ true → q.canceling ≡ run_cancelled q.run

-- `t` shows what `q` shows, of a run that is as far.
record Same (q t : Queue) : Type 0 where
  mounted : t.mounted ≡ q.mounted
  running : t.running ≡ q.running
  canceling : t.canceling ≡ q.canceling
  is_run : is_some t.run ≡ is_some q.run
  cancelled : run_cancelled t.run ≡ run_cancelled q.run

Agrees-Same : (q t : Queue) → Same q t → Agrees q → Agrees t
Agrees-Same q t s h = record {
  shown = λ m. s.running ∙ h.shown (sym s.mounted ∙ m) ∙ sym s.is_run;
  ending = λ m. s.canceling ∙ h.ending (sym s.mounted ∙ m) ∙ sym s.cancelled;
}

pub refresh-Agrees : (now : ℕ) (q : Queue) → Agrees q → Agrees (refresh_file_list now q)
unfolding refresh_file_list
refresh-Agrees now q h =
    if_intro Agrees q.mounted _ _ (λ _. record { shown = h.shown; ending = h.ending }) (λ _. h)

-- A run that another takes the place of, as far as the page shows it.
put_run-Agrees :
    (q : Queue) (r' r : UploadRun)
    → q.run ≡ some r
    → r'.cancelled ≡ r.cancelled
    → Agrees q
    → Agrees (record q { run = some r' })
put_run-Agrees q r' r e c h =
    Agrees-Same q (record q { run = some r' })
      (record {
        mounted = refl;
        running = refl;
        canceling = refl;
        is_run = sym (ap is_some e);
        cancelled = c ∙ sym (ap run_cancelled e);
      })
      h

refresh-mounted : (now : ℕ) (q : Queue) → (refresh_file_list now q).mounted ≡ q.mounted
unfolding refresh_file_list
refresh-mounted now q =
    if_intro (λ (t : Queue). t.mounted ≡ q.mounted) q.mounted _ _ (λ _. refl) (λ _. refl)

worker_loop-Agrees :
    (k now : ℕ) (r : UploadRun) (rest : List ℕ) (q : Queue)
    → q.run ≡ some r
    → Agrees q
    → Agrees (worker_loop k now r rest q)
unfolding worker_loop
worker_loop-Agrees k now r [] q e h =
    put_run-Agrees q (put_slot k finished (record r { remaining = [] })) r e refl h
worker_loop-Agrees k now r (id ∷ rest) q e h =
    if_intro Agrees (r.cancelled || not q.mounted) _ _
      (λ _. put_run-Agrees q (put_slot k finished (record r { remaining = id ∷ rest })) r e refl h)
      (λ _.
        if_intro Agrees q.global_paused _ _
          (λ _.
            put_run-Agrees q (put_slot k parked (record r { remaining = id ∷ rest })) r e refl h)
          (λ _.
            if_intro Agrees (includes id q.entries) _ _
              (λ _. refresh-Agrees now _ (
                Agrees-Same
                  (record q { run = some (put_slot k (busy id) (record r { remaining = rest })) }) _
                  (record {
                    mounted = refl;
                    running = refl;
                    canceling = refl;
                    is_run = refl;
                    cancelled = refl;
                  })
                  (put_run-Agrees q (put_slot k (busy id) (record r { remaining = rest })) r e refl
                    h)))
              (λ _. worker_loop-Agrees k now r rest q e h)))

turn_worker-Agrees : (k now : ℕ) (q : Queue) → Agrees q → Agrees (turn_worker k now q.run q)
unfolding turn_worker
turn_worker-Agrees k now q h = by_run q.run refl
  where
    by_run : (o : Option UploadRun) → q.run ≡ o → Agrees (turn_worker k now o q)
    by_run none e = h
    by_run (some r) e = worker_loop-Agrees k now r r.remaining q e h

pub start_workers-Agrees : (n k now : ℕ) (q : Queue) → Agrees q → Agrees (start_workers n k now q)
unfolding start_workers
start_workers-Agrees zero k now q h = h
start_workers-Agrees (suc n) k now q h =
    start_workers-Agrees n (suc k) now (turn_worker k now q.run q) (turn_worker-Agrees k now q h)

start_run-Agrees :
    (ids : List ℕ) (now : ℕ) (q : Queue) → q.run ≡ none → Agrees q → Agrees (start_run ids now q)
unfolding start_run
start_run-Agrees [] now q e h = h
start_run-Agrees (id ∷ ids) now q e h =
    start_workers-Agrees 2 0 now _
      (record { shown = λ m. refl; ending = λ m. h.ending m ∙ ap run_cancelled e })

pub start_uploads-Agrees :
    (key : Option Text) (now : ℕ) (q : Queue) → Agrees q → Agrees (start_uploads key now q)
unfolding start_uploads
start_uploads-Agrees key now q h =
    if_intro Agrees (is_some q.run) _ _ (λ _. h)
      (λ free. start_run-Agrees (pick_pending key q.entries) now q (no_run q.run free) h)
  where
    no_run : (o : Option UploadRun) → is_some o ≡ false → o ≡ none
    no_run none e = refl
    no_run (some r) e = cc

pub cancel_all-Agrees :
    (now : ℕ) (q : Queue) → offers_cancel (controls q) ≡ true → Agrees q → Agrees (cancel_all now q)
unfolding cancel_all controls
cancel_all-Agrees now q on h = refresh-Agrees now _ (record {
  shown = λ m. h.shown m ∙ sym (same q.run);
  ending = λ m. sym (cut q.run (sym (h.shown m) ∙ ground arith));
})
  where
    same : (o : Option UploadRun) → is_some (cancel_run o) ≡ is_some o
    same none = refl
    same (some r) = refl

    cut : (o : Option UploadRun) → is_some o ≡ true → run_cancelled (cancel_run o) ≡ true
    cut none e = cc
    cut (some r) e = refl

pub end_run-Agrees : (now : ℕ) (r : UploadRun) (q : Queue) → Agrees q → Agrees (end_run now r q)
unfolding end_run
end_run-Agrees now r q h =
    if_intro Agrees (every is_finished r.slots) _ _
      (λ _. record {
        shown =
            λ m. ap (λ b. if b then false else q.running) (sym (refresh-mounted now paused) ∙ m);
        ending =
            λ m. ap (λ b. if b then false else q.canceling) (sym (refresh-mounted now paused) ∙ m);
      })
      (λ _. h)
  where
    paused : Queue
    paused = record q { queue_clock = pause_clock now q.queue_clock }

-- The other operations change neither the run nor what is shown of it.
pub handle_selection-Agrees :
    (files : List File) (now : ℕ) (q : Queue) → Agrees q → Agrees (handle_selection files now q)
unfolding handle_selection
handle_selection-Agrees files now q h =
    let t = refresh-Agrees now _ (record { shown = h.shown; ending = h.ending }) in
    record { shown = t.shown; ending = t.ending }

pub take_drop-Agrees :
    (files : List File) (now : ℕ) (q : Queue) → Agrees q → Agrees (take_drop files now q)
unfolding take_drop
take_drop-Agrees [] now q h =
    if_intro Agrees (not q.mounted) _ _ (λ _. h)
      (λ _.
        let t = handle_selection-Agrees [] now q h in record { shown = t.shown; ending = t.ending })
take_drop-Agrees (file ∷ files) now q h =
    if_intro Agrees (not q.mounted) _ _ (λ _. h)
      (λ _. handle_selection-Agrees (file ∷ files) now q h)

pub tick_speed-Agrees :
    (now : ℕ) (o : Option (List (ℕ × Sample))) (q : Queue) → Agrees q → Agrees (tick_speed now o q)
unfolding tick_speed
tick_speed-Agrees now none q h = h
tick_speed-Agrees now (some samples) q h =
    if_intro Agrees (has_to_show now samples q) _ _
      (λ _.
        refresh-Agrees now (sampled now samples q) (record { shown = h.shown; ending = h.ending }))
      (λ _. record { shown = h.shown; ending = h.ending })

pub reset_all-Agrees : (now : ℕ) (q : Queue) → Agrees q → Agrees (reset_all now q)
unfolding reset_all
reset_all-Agrees now q h =
    if_intro Agrees (is_some q.run) _ _ (λ _. h)
      (λ _. refresh-Agrees now _ (record { shown = h.shown; ending = h.ending }))

pub remove_found-Agrees :
    (key : Text) (now : ℕ) (found : Option Entry) (q : Queue)
    → Agrees q
    → Agrees (remove_found key now found q)
unfolding remove_found
remove_found-Agrees key now none q h = h
remove_found-Agrees key now (some e) q h =
    refresh-Agrees now _ (record { shown = h.shown; ending = h.ending })

catch_in_run-Agrees :
    (k id now : ℕ) (item : UploadItem) (o : Option UploadRun) (q : Queue)
    → q.run ≡ o
    → Agrees q
    → Agrees (catch_in_run k id now item o q)
unfolding catch_in_run catch_upload
catch_in_run-Agrees k id now item none q e h = h
catch_in_run-Agrees k id now item (some r) q e h =
    let t = put_run-Agrees q (put_slot k (cleaning id) r) r e refl h in
    record { shown = t.shown; ending = t.ending }

pub on_woken-Agrees :
    (k now : ℕ) (slot : Option Slot) (q : Queue) → Agrees q → Agrees (on_woken k now slot q)
unfolding on_woken
on_woken-Agrees k now (some parked) q h = turn_worker-Agrees k now q h
on_woken-Agrees k now none q h = h
on_woken-Agrees k now (some unstarted) q h = h
on_woken-Agrees k now (some finished) q h = h
on_woken-Agrees k now (some (busy id)) q h = h
on_woken-Agrees k now (some (cleaning id)) q h = h

module _ (exists : Text → Bool) (reason : Text) where
  pub on_slot-Agrees :
      (k now : ℕ) (item : UploadItem) (e : Failure) (slot : Option Slot) (q : Queue)
      → Agrees q
      → Agrees (on_failed k now item slot q)
        × (Agrees (on_succeeded k now item slot q)
            × (Agrees (on_changed now item slot q)
                × Agrees (on_cleaned exists reason k now item e slot q)))
  unfolding on_failed on_succeeded on_changed on_cleaned settle_upload finish_upload change_upload
  on_slot-Agrees k now item e none q h = (h, (h, (h, h)))
  on_slot-Agrees k now item e (some unstarted) q h = (h, (h, (h, h)))
  on_slot-Agrees k now item e (some finished) q h = (h, (h, (h, h)))
  on_slot-Agrees k now item e (some parked) q h = (h, (h, (h, h)))
  on_slot-Agrees k now item e (some (busy id)) q h = (
    catch_in_run-Agrees k id now item q.run q refl h,
    (
      turn_worker-Agrees k now _
          (refresh-Agrees now _ (record { shown = h.shown; ending = h.ending })),
      (refresh-Agrees now _ (record { shown = h.shown; ending = h.ending }), h),
    ),
  )
  on_slot-Agrees k now item e (some (cleaning id)) q h = (
    h,
    (
      h,
      (
        h,
        turn_worker-Agrees k now _
            (refresh-Agrees now _ (record { shown = h.shown; ending = h.ending })),
      ),
    ),
  )
