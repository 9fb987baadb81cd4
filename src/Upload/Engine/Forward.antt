-- ===== src/Upload/Engine/Forward.antt =====
-- The displayed progress of a transfer, and what a worker's failure does to the others.
use mathlib.Core.Path.{subst}
use gothrough.Base.{
  ℕ, zero, suc, ◌-◌, ◌≤◌, ◌≡◌, refl, inl, inr, true, Option, some, List, [], ◌∷◌, is_some, if_intro,
  arith, leb, Text, Option-cases, Bool-cases,
}
use gothrough.Upload.Types.{UploadItem, progress_refresh_interval}
use gothrough.Upload.Progress.{recalc_loaded_bytes, confirm_chunk}
use gothrough.Upload.Progress.Bounds.{recalc_loaded_bytes-ge, recalc_loaded_bytes-le}
use gothrough.Upload.Retry.{HttpError, upload_retry_delay}
use gothrough.Upload.Engine.State.{
  Phase, sending, Main, resumed, transferring, Transfer, is_inactive,
}
use gothrough.Upload.Engine.Workers.{
  throw, wait_for_resume, loop_top, take_chunk, on_progress, acknowledge, confirm, on_sent,
  retry_after_delay, on_send_failed, on_delay_over,
}
use gothrough.Upload.Engine.Protocol.{
  InitUploadResponse, Event, set_stopped, set_paused, stop_item, initialized, init_failed, woken,
  turn, progress, sent, send_failed, delay_over, settled, main_woken, main_turn, completed,
  complete_failed, finish_session, main_wait, is_valid_config, on_initialized, start_workers,
  after_workers, on_completed, on_woken, on_turn, at_progress, at_sent, at_failed, at_delay_over,
  main_step, step, run,
}

-- Against `s`: the progress is no lower, within the file, and the item keeps a session.
pub record Forward (s t : Transfer) : Type 0 where
  pub no_lower : s.item.loaded_bytes ≤ t.item.loaded_bytes
  pub within : t.item.loaded_bytes ≤ t.item.file.size
  pub session_kept : is_some t.item.session ≡ true

module _ (s : Transfer) (small : s.item.loaded_bytes ≤ s.item.file.size)
    (open' : is_some s.item.session ≡ true) where
  Forward-refl : Forward s s
  Forward-refl = record { no_lower = omega arith; within = small; session_kept = open' }

  recalc-session : (item : UploadItem) → (recalc_loaded_bytes item).session ≡ item.session
  unfolding recalc_loaded_bytes
  recalc-session item = refl

  recalc-file_size : (item : UploadItem) → item.file.size ≡ (recalc_loaded_bytes item).file.size
  unfolding recalc_loaded_bytes
  recalc-file_size item = refl

  recalc-Forward :
      (item : UploadItem)
      → item.loaded_bytes ≡ s.item.loaded_bytes
      → item.file.size ≡ s.item.file.size
      → is_some item.session ≡ true
      → (s.item.loaded_bytes ≤ (recalc_loaded_bytes item).loaded_bytes)
        × ((recalc_loaded_bytes item).loaded_bytes ≤ (recalc_loaded_bytes item).file.size)
        × (is_some (recalc_loaded_bytes item).session ≡ true)
  recalc-Forward item same size has = elim (Option-cases item.session) [
    | inl e ↦ absurd (ground arith)
    | inr (x, e) ↦ (
      omega (arith, recalc_loaded_bytes-ge item x e (omega arith)),
      subst (λ n. (recalc_loaded_bytes item).loaded_bytes ≤ n) (recalc-file_size item)
          (recalc_loaded_bytes-le item),
      rw (recalc-session item) has,
    )
  ]

  on_woken-Forward : (k : ℕ) (o : Option Phase) → Forward s (on_woken k o s)
  unfolding on_woken wait_for_resume throw
  on_woken-Forward k o = ground arith

  on_turn-Forward : (k : ℕ) (o : Option Phase) → Forward s (on_turn k o s)
  unfolding on_turn take_chunk throw
  on_turn-Forward k o = ground arith

  at_progress-Forward :
      (k loaded total now : ℕ) (o : Option Phase) → Forward s (at_progress k loaded total now o s)
  unfolding at_progress on_progress
  at_progress-Forward k loaded total now (some (sending i a r)) =
      if_intro (Forward s) (is_inactive s) _ _ (λ _. Forward-refl)
        (λ _. elim (Bool-cases (leb progress_refresh_interval (now - s.last_paint))) [
          | inl p ↦
              let (ge, fits, kept) = recalc-Forward _ refl refl open' in
              rw p (record { no_lower = ge; within = fits; session_kept = kept })
          | inr p ↦ rw p (record { no_lower = omega arith; within = small; session_kept = open' })
        ])
  at_progress-Forward k loaded total now _ = Forward-refl

  loop_top-Forward : (k : ℕ) (t : Transfer) → Forward s t → Forward s (loop_top k t)
  unfolding loop_top wait_for_resume throw
  loop_top-Forward k t f = ground arith

  confirm_chunk_keeps :
      (item : UploadItem) (i b : ℕ)
      → ((confirm_chunk item i b).loaded_bytes ≡ item.loaded_bytes)
        × ((confirm_chunk item i b).file.size ≡ item.file.size)
  unfolding confirm_chunk
  confirm_chunk_keeps item i b = ground arith

  confirm-Forward : (i a : ℕ) → Forward s (confirm i a s)
  unfolding confirm acknowledge
  confirm-Forward i a =
      let (same, size) = confirm_chunk_keeps _ i _ in
      let (ge, fits, kept) = recalc-Forward _ same size refl in
      record { no_lower = ge; within = fits; session_kept = kept }

  at_sent-Forward : (k : ℕ) (o : Option Phase) → Forward s (at_sent k o s)
  unfolding at_sent on_sent throw
  at_sent-Forward k (some (sending i a r)) =
      ground (arith, loop_top-Forward k (confirm i a s) (confirm-Forward i a))
  at_sent-Forward k _ = Forward-refl

  retry_after_delay-Forward :
      (k i r : ℕ) (e : HttpError) (o : Option ℕ) → Forward s (retry_after_delay k i r e o s)
  unfolding retry_after_delay throw
  retry_after_delay-Forward k i r e o = ground arith

  at_failed-Forward :
      (date_parse : Text → Option ℕ) (k : ℕ) (e : HttpError) (now : ℕ) (o : Option Phase)
      → Forward s (at_failed date_parse k e now o s)
  unfolding at_failed on_send_failed throw
  at_failed-Forward date_parse k e now (some (sending i a r)) =
      ground (arith, retry_after_delay-Forward k i r e (upload_retry_delay date_parse e r now))
  at_failed-Forward date_parse k e now _ = Forward-refl

  at_delay_over-Forward : (k : ℕ) (o : Option Phase) → Forward s (at_delay_over k o s)
  unfolding at_delay_over on_delay_over wait_for_resume throw
  at_delay_over-Forward k o = ground arith

  start_workers-Forward : (n k : ℕ) (t : Transfer) → Forward s t → Forward s (start_workers n k t)
  unfolding start_workers
  start_workers-Forward zero k t f = f
  start_workers-Forward (suc n) k t f =
      start_workers-Forward n (suc k) (loop_top k t) (loop_top-Forward k t f)

  on_initialized-Forward : (data' : InitUploadResponse) → Forward s (on_initialized data' s)
  unfolding on_initialized
  on_initialized-Forward data' =
      if_intro (Forward s) (is_inactive s) _ _
        (λ _. record { no_lower = omega arith; within = small; session_kept = refl })
        (λ _.
          if_intro (Forward s) (is_valid_config data' s.item.file.size) _ _
            (λ _.
              start_workers-Forward _ 0 _
                (record { no_lower = omega arith; within = small; session_kept = refl }))
            (λ _. record { no_lower = omega arith; within = small; session_kept = refl }))

  main_step-Forward : (m : Main) (e : Event) → Forward s (main_step m e s)
  unfolding main_step finish_session main_wait after_workers on_completed recalc_loaded_bytes
  main_step-Forward Main.initializing (initialized data') = on_initialized-Forward data'
  main_step-Forward Main.initializing (init_failed e) = ground arith
  main_step-Forward transferring settled = ground arith
  main_step-Forward Main.waiting main_woken = ground arith
  main_step-Forward resumed main_turn = ground arith
  main_step-Forward Main.completing (completed saved) = ground arith
  main_step-Forward Main.completing (complete_failed e) = ground arith
  main_step-Forward _ _ = Forward-refl

step-Forward :
    (date_parse : Text → Option ℕ) (s : Transfer) (e : Event)
    → s.item.loaded_bytes ≤ s.item.file.size
    → is_some s.item.session ≡ true
    → Forward s (step date_parse s e)
unfolding step
step-Forward date_parse s (set_stopped b) h o = ground arith
step-Forward date_parse s (set_paused b) h o = ground arith
step-Forward date_parse s stop_item h o = ground arith
step-Forward date_parse s (woken k) h o = on_woken-Forward s h o k _
step-Forward date_parse s (turn k) h o = on_turn-Forward s h o k _
step-Forward date_parse s (progress k loaded total now) h o =
    at_progress-Forward s h o k loaded total now _
step-Forward date_parse s (sent k) h o = at_sent-Forward s h o k _
step-Forward date_parse s (send_failed k e now) h o = at_failed-Forward s h o date_parse k e now _
step-Forward date_parse s (delay_over k) h o = at_delay_over-Forward s h o k _
step-Forward date_parse s (initialized data') h o = main_step-Forward s h o s.main _
step-Forward date_parse s e h o = main_step-Forward s h o s.main e

-- From any state with an open session whose displayed bytes are within the file, no sequence of
-- events lowers the displayed bytes or takes them past the file, and the item keeps a session.
pub run-Forward :
    (date_parse : Text → Option ℕ) (s : Transfer) (es : List Event)
    → s.item.loaded_bytes ≤ s.item.file.size
    → is_some s.item.session ≡ true
    → Forward s (run date_parse s es)
unfolding run
run-Forward date_parse s [] v o = Forward-refl s v o
run-Forward date_parse s (e ∷ es) v o =
    let first = step-Forward date_parse s e v o in
    let later = run-Forward date_parse (step date_parse s e) es first.within first.session_kept in
    record {
      no_lower = omega (arith, first.no_lower, later.no_lower);
      within = later.within;
      session_kept = later.session_kept;
    }
