-- ===== src/Upload/Engine/Steps.antt =====
-- Every event keeps the invariant of Upload/Engine/Invariant.
use gothrough.Base.{
  ℕ, zero, suc, ◌+◌, ◌≤◌, ◌<◌, ◌≡◌, refl, sym, ap, ◌∙◌, ◌≢◌, ◌⊎◌, inl, inr, Bool, true, false,
  Option, none, some, List, [], ◌∷◌, length, get_elem?, get_elem?-set_ne, replicate, every, is_some,
  sum_of, count, All, All-get, if_intro, arith, ltb, Text,
}
use gothrough.Upload.Types.{UploadItem, UploadController, max_concurrent_uploads}
use gothrough.Upload.Retry.{HttpError}
use gothrough.Upload.Progress.{recalc_loaded_bytes}
use gothrough.Upload.Engine.State.{
  Failure, upload_cancelled, Phase, unstarted, entering, sending, delaying, holding, resending,
  Main, transferring, resumed, threw, Transfer, is_inactive, put_main,
}
use gothrough.Upload.Engine.Workers.{throw, wait_for_resume, loop_top}
use gothrough.Upload.Engine.Protocol.{
  InitUploadResponse, Event, set_stopped, set_paused, stop_item, initialized, init_failed, woken,
  turn, progress, sent, send_failed, delay_over, settled, main_woken, main_turn, completed,
  complete_failed, is_ended, chunk_count, chunk_size_of, whole_or_zero, is_valid_config,
  finish_session, main_wait, confirming, begin, start_workers, on_initialized, after_workers,
  on_completed, on_woken, on_turn, at_progress, at_sent, at_failed, at_delay_over, main_step, step,
  run,
}
use gothrough.Upload.Engine.Ledger.{Ledger, Fits, held}
use gothrough.Upload.Engine.Invariant.{Inv, Stage, is_configured}
use gothrough.Upload.Engine.Turns.{
  wait_live-Inv, put_live-Inv, loop_live-Inv, take_chunk-Inv, on_progress-Inv, on_sent-Inv,
  on_send_failed-Inv, on_delay_over-Inv,
}

module _ (s : Transfer) (v : Inv s) (k : ℕ) where
  on_woken-Inv : (o : Option Phase) → get_elem? s.workers k ≡ o → Inv (on_woken k o s)
  unfolding on_woken
  on_woken-Inv (some Phase.waiting) at =
      wait_live-Inv s v k _ at refl Phase.waiting entering (λ _. refl) (λ _. refl) tt tt
  on_woken-Inv (some (holding i r)) at =
      let fits = All-get _ s.workers k (holding i r) v.ledger.fits at in
      wait_live-Inv s v k _ at refl (holding i r) (resending i r) (λ _. refl) (λ _. refl) fits fits
  on_woken-Inv none at = v
  on_woken-Inv (some unstarted) at = v
  on_woken-Inv (some _) at = v

  on_turn-Inv : (o : Option Phase) → get_elem? s.workers k ≡ o → Inv (on_turn k o s)
  unfolding on_turn
  on_turn-Inv (some entering) at = take_chunk-Inv s v k at
  on_turn-Inv (some (resending i r)) at =
      put_live-Inv s v k _ at refl (sending i 0 r) (λ _. refl)
        (All-get _ s.workers k (resending i r) v.ledger.fits at)
  on_turn-Inv none at = v
  on_turn-Inv (some unstarted) at = v
  on_turn-Inv (some _) at = v

  at_progress-Inv :
      (loaded total now : ℕ) (o : Option Phase)
      → get_elem? s.workers k ≡ o
      → Inv (at_progress k loaded total now o s)
  unfolding at_progress
  at_progress-Inv loaded total now (some (sending i a r)) at =
      on_progress-Inv s v k i a r at loaded total now
  at_progress-Inv loaded total now none at = v
  at_progress-Inv loaded total now (some unstarted) at = v
  at_progress-Inv loaded total now (some _) at = v

  at_sent-Inv : (o : Option Phase) → get_elem? s.workers k ≡ o → Inv (at_sent k o s)
  unfolding at_sent
  at_sent-Inv (some (sending i a r)) at = on_sent-Inv s v k i a r at
  at_sent-Inv none at = v
  at_sent-Inv (some unstarted) at = v
  at_sent-Inv (some _) at = v

  at_failed-Inv :
      (date_parse : Text → Option ℕ) (e : HttpError) (now : ℕ) (o : Option Phase)
      → get_elem? s.workers k ≡ o
      → Inv (at_failed date_parse k e now o s)
  unfolding at_failed
  at_failed-Inv date_parse e now (some (sending i a r)) at =
      on_send_failed-Inv s v k i a r at date_parse e now
  at_failed-Inv date_parse e now none at = v
  at_failed-Inv date_parse e now (some unstarted) at = v
  at_failed-Inv date_parse e now (some _) at = v

  at_delay_over-Inv : (o : Option Phase) → get_elem? s.workers k ≡ o → Inv (at_delay_over k o s)
  unfolding at_delay_over
  at_delay_over-Inv (some (delaying i r)) at = on_delay_over-Inv s v k i r at
  at_delay_over-Inv none at = v
  at_delay_over-Inv (some unstarted) at = v
  at_delay_over-Inv (some _) at = v

-- The other workers stay where they are while one goes round its loop.
loop_top_workers :
    (k j : ℕ) (s : Transfer) → k ≢ j → get_elem? (loop_top k s).workers j ≡ get_elem? s.workers j
unfolding loop_top wait_for_resume throw
loop_top_workers k j s ne =
    if_intro P (ltb s.next_chunk_index s.session.total_chunks) _ _
      (λ _.
        if_intro P (is_inactive s) _ _ (λ _. get_elem?-set_ne s.workers k j _ ne)
          (λ _.
            if_intro P s.paused _ _ (λ _. get_elem?-set_ne s.workers k j _ ne)
              (λ _. get_elem?-set_ne s.workers k j _ ne)))
      (λ _. get_elem?-set_ne s.workers k j _ ne)
  where
    P : Transfer → Type 0
    P t = get_elem? t.workers j ≡ get_elem? s.workers j

start_workers-Inv :
    (n k : ℕ) (s : Transfer)
    → Inv s
    → ((j : ℕ) → k ≤ j → j < k + n → get_elem? s.workers j ≡ some unstarted)
    → Inv (start_workers n k s)
unfolding start_workers
start_workers-Inv zero k s v h = v
start_workers-Inv (suc n) k s v h =
    start_workers-Inv n (suc k) (loop_top k s)
      (loop_live-Inv s v k unstarted (h k (omega arith) (omega arith)) refl (λ _. refl))
      (λ j lo hi.
        loop_top_workers k j s (λ e. absurd (omega arith)) ∙ h j (omega arith) (omega arith))

unstarted_at :
    (j : ℕ)
    → 0 ≤ j
    → j < 0 + max_concurrent_uploads
    → get_elem? (replicate max_concurrent_uploads unstarted) j ≡ some unstarted
unstarted_at zero lo hi = refl
unstarted_at (suc zero) lo hi = refl
unstarted_at (suc (suc zero)) lo hi = refl
unstarted_at (suc (suc (suc j))) lo hi = absurd (omega arith)

-- A ledger on which nothing has happened yet.
blank :
    (weight : ℕ → ℕ) (total : ℕ) (ws : List Phase) (c : List ℕ) (b : ℕ)
    → ((i : ℕ) → held i ws ≡ 0)
    → All (Fits total 0 false) ws
    → (total ≡ 0) ⊎ (0 < length ws)
    → c ≡ []
    → b ≡ 0
    → Ledger weight total 0 false ws c b
blank weight total ws c b idle f staff ec eb = record {
  capped = omega arith;
  once = λ i. omega (arith, idle i, ap (count i) ec);
  exact = λ h i. ground (arith, idle i, ap (count i) ec);
  summed = eb ∙ sym (ap (sum_of weight) ec);
  fits = f;
  staffed = staff;
}

valid_config_sound :
    (data' : InitUploadResponse) (size : ℕ)
    → is_valid_config data' size ≡ true
    → (0 < chunk_size_of data'.chunk_size)
      × (whole_or_zero data'.total_chunks ≡ chunk_count size (chunk_size_of data'.chunk_size))
unfolding is_valid_config
valid_config_sound data' size h = ground arith

module _ (s : Transfer) (v : Inv s) where
  on_initialized-Inv :
      (data' : InitUploadResponse)
      → s.item.confirmed_chunks ≡ []
      → s.item.confirmed_bytes ≡ 0
      → Inv (on_initialized data' s)
  unfolding on_initialized
  on_initialized-Inv data' ec eb =
      if_intro Inv (is_inactive s) _ _
        (λ _. record {
          ledger = blank _ _ _ _ _ (λ _. refl) (tt, (tt, (tt, tt))) (inr (omega arith)) ec eb;
          loaded = v.loaded;
          configured = λ h. cc;
          stage = tt;
        })
        (λ _.
          if_intro Inv (is_valid_config data' s.item.file.size) _ _
            (λ good.
              start_workers-Inv max_concurrent_uploads 0 _
                (record {
                  ledger =
                      blank _ _ _ _ _ (λ _. refl) (tt, (tt, (tt, tt))) (inr (omega arith)) ec eb;
                  loaded = v.loaded;
                  configured = λ _. valid_config_sound data' s.item.file.size good;
                  stage = tt;
                })
                unstarted_at)
            (λ _. record {
              ledger = blank _ _ _ _ _ (λ _. refl) (tt, (tt, (tt, tt))) (inr (omega arith)) ec eb;
              loaded = v.loaded;
              configured = λ h. cc;
              stage = tt;
            }))

  threw-Inv : (e : Failure) → Inv (put_main (threw e) s)
  threw-Inv e = record { ledger = v.ledger; loaded = v.loaded; configured = λ h. cc; stage = tt }

  module _ (calm : (is_some s.failure ≡ false) × (every is_ended s.workers ≡ true))
      (conf : (0 < s.session.chunk_size)
        × (s.session.total_chunks ≡ chunk_count s.item.file.size s.session.chunk_size)) where
    finish_session-Inv : Inv (finish_session s)
    unfolding finish_session
    finish_session-Inv =
        if_intro Inv (is_inactive s) _ _ (λ _. threw-Inv upload_cancelled)
          (λ _. record {
            ledger = v.ledger;
            loaded = v.loaded;
            configured = λ _. conf;
            stage = calm;
          })

    main_wait-Inv : Inv (main_wait s)
    unfolding main_wait
    main_wait-Inv =
        if_intro Inv (is_inactive s) _ _ (λ _. threw-Inv upload_cancelled)
          (λ _.
            if_intro Inv s.paused _ _
              (λ _. record {
                ledger = v.ledger;
                loaded = v.loaded;
                configured = λ _. conf;
                stage = calm;
              })
              (λ _. record {
                ledger = v.ledger;
                loaded = v.loaded;
                configured = λ _. conf;
                stage = calm;
              }))

    on_completed-Inv : (saved : Text) → Inv (on_completed saved s)
    unfolding on_completed recalc_loaded_bytes
    on_completed-Inv saved =
        if_intro Inv (is_inactive s) _ _ (λ _. threw-Inv upload_cancelled)
          (λ _. record {
            ledger = v.ledger;
            loaded = omega arith;
            configured = λ _. conf;
            stage = calm;
          })

  after_workers-Inv :
      (o : Option Failure)
      → s.failure ≡ o
      → every is_ended s.workers ≡ true
      → (0 < s.session.chunk_size)
        × (s.session.total_chunks ≡ chunk_count s.item.file.size s.session.chunk_size)
      → Inv (after_workers o s)
  unfolding after_workers
  after_workers-Inv none e ended conf =
      if_intro Inv (is_inactive s) _ _ (λ _. threw-Inv upload_cancelled)
        (λ _. main_wait-Inv (ap is_some e, ended) conf)
  after_workers-Inv (some x) e ended conf = threw-Inv x

  main_step-Inv :
      (m : Main) (e : Event)
      → Stage m (is_some s.failure) s.workers s.item.confirmed_chunks s.item.confirmed_bytes
      → (is_configured m ≡ true
          → (0 < s.session.chunk_size)
            × (s.session.total_chunks ≡ chunk_count s.item.file.size s.session.chunk_size))
      → Inv (main_step m e s)
  unfolding main_step
  main_step-Inv Main.initializing (initialized data') st conf = on_initialized-Inv data' st.1 st.2
  main_step-Inv Main.initializing (init_failed e) st conf = threw-Inv _
  main_step-Inv transferring settled st conf =
      if_intro Inv (every is_ended s.workers) _ _
        (λ h. after_workers-Inv s.failure refl h (conf refl)) (λ _. v)
  main_step-Inv Main.waiting main_woken st conf = main_wait-Inv st (conf refl)
  main_step-Inv resumed main_turn st conf = finish_session-Inv st (conf refl)
  main_step-Inv Main.completing (completed saved) st conf = on_completed-Inv st (conf refl) saved
  main_step-Inv Main.completing (complete_failed e) st conf = threw-Inv _
  main_step-Inv _ _ st conf = v

-- Every turn of the event loop keeps the account of the chunks, the bound on the displayed bytes,
-- and what the place of the transfer's body tells of its workers.
pub step-Inv :
    (date_parse : Text → Option ℕ) (s : Transfer) (e : Event) → Inv s → Inv (step date_parse s e)
unfolding step
step-Inv date_parse s (set_stopped b) v = record {
  ledger = v.ledger;
  loaded = v.loaded;
  configured = v.configured;
  stage = v.stage;
}
step-Inv date_parse s (set_paused b) v = record {
  ledger = v.ledger;
  loaded = v.loaded;
  configured = v.configured;
  stage = v.stage;
}
step-Inv date_parse s stop_item v = record {
  ledger = v.ledger;
  loaded = v.loaded;
  configured = v.configured;
  stage = v.stage;
}
step-Inv date_parse s (woken k) v = on_woken-Inv s v k _ refl
step-Inv date_parse s (turn k) v = on_turn-Inv s v k _ refl
step-Inv date_parse s (progress k loaded total now) v =
    at_progress-Inv s v k loaded total now _ refl
step-Inv date_parse s (sent k) v = at_sent-Inv s v k _ refl
step-Inv date_parse s (send_failed k e now) v = at_failed-Inv s v k date_parse e now _ refl
step-Inv date_parse s (delay_over k) v = at_delay_over-Inv s v k _ refl
step-Inv date_parse s (initialized data') v = main_step-Inv s v s.main _ v.stage v.configured
step-Inv date_parse s e v = main_step-Inv s v s.main e v.stage v.configured

pub run-Inv :
    (date_parse : Text → Option ℕ) (s : Transfer) (es : List Event)
    → Inv s
    → Inv (run date_parse s es)
unfolding run
run-Inv date_parse s [] v = v
run-Inv date_parse s (e ∷ es) v =
    run-Inv date_parse (step date_parse s e) es (step-Inv date_parse s e v)

-- A transfer that starts afresh satisfies the invariant.
pub begin-Inv :
    (item : UploadItem) (controller : UploadController) (stopped paused' : Bool)
    → confirming item ≡ none
    → Inv (begin item controller stopped paused')
unfolding begin
begin-Inv item controller stopped paused' h =
    rw (h, begin)
      (record {
        ledger = blank _ 0 [] [] 0 (λ _. refl) tt (inl refl) refl refl;
        loaded = omega arith;
        configured = λ h. cc;
        stage = (refl, refl, refl);
      })
