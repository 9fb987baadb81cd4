-- ===== src/Upload/Engine/Halting.antt =====
-- What a transfer does once it is stopped or one of its workers has failed.
use gothrough.Base.{ℕ, ◌≤◌, ◌≡◌, refl, true, Option, some, arith, Text}
use gothrough.Upload.Retry.{HttpError, upload_retry_delay}
use gothrough.Upload.Engine.State.{
  Phase, sending, Main, resumed, transferring, done, Transfer, is_inactive,
}
use gothrough.Upload.Engine.Workers.{
  throw, wait_for_resume, take_chunk, on_progress, on_sent, retry_after_delay, on_send_failed,
  on_delay_over,
}
use gothrough.Upload.Engine.Protocol.{
  Event, set_stopped, set_paused, stop_item, initialized, init_failed, woken, turn, progress, sent,
  send_failed, delay_over, settled, main_woken, main_turn, completed, complete_failed,
  finish_session, main_wait, on_initialized, after_workers, on_completed, on_woken, on_turn,
  at_progress, at_sent, at_failed, at_delay_over, main_step, step,
}

-- Against `s`: no chunk more is handed out or acknowledged, and nothing is published.
pub record Frozen (s t : Transfer) : Type 0 where
  pub no_chunk : t.next_chunk_index ≤ s.next_chunk_index
  pub no_receipt : t.item.confirmed_chunks ≡ s.item.confirmed_chunks
  pub no_publication : t.main ≡ Main.completing → s.main ≡ Main.completing
  pub no_success : t.main ≡ done → s.main ≡ done

module _ (s : Transfer) (still : is_inactive s ≡ true) where
  Frozen-refl : Frozen s s
  Frozen-refl = record {
    no_chunk = omega arith;
    no_receipt = refl;
    no_publication = λ h. h;
    no_success = λ h. h;
  }

  on_woken-Frozen : (k : ℕ) (o : Option Phase) → Frozen s (on_woken k o s)
  unfolding on_woken wait_for_resume throw
  on_woken-Frozen k o = ground arith

  on_turn-Frozen : (k : ℕ) (o : Option Phase) → Frozen s (on_turn k o s)
  unfolding on_turn take_chunk throw
  on_turn-Frozen k o = ground arith

  at_progress-Frozen :
      (k loaded total now : ℕ) (o : Option Phase) → Frozen s (at_progress k loaded total now o s)
  unfolding at_progress on_progress
  at_progress-Frozen k loaded total now o = ground arith

  at_sent-Frozen : (k : ℕ) (o : Option Phase) → Frozen s (at_sent k o s)
  unfolding at_sent on_sent throw
  at_sent-Frozen k o = ground arith

  retry_after_delay-Frozen :
      (k i r : ℕ) (e : HttpError) (o : Option ℕ) → Frozen s (retry_after_delay k i r e o s)
  unfolding retry_after_delay throw
  retry_after_delay-Frozen k i r e o = ground arith

  at_failed-Frozen :
      (date_parse : Text → Option ℕ) (k : ℕ) (e : HttpError) (now : ℕ) (o : Option Phase)
      → Frozen s (at_failed date_parse k e now o s)
  unfolding at_failed on_send_failed throw
  at_failed-Frozen date_parse k e now (some (sending i a r)) =
      ground (arith, retry_after_delay-Frozen k i r e (upload_retry_delay date_parse e r now))
  at_failed-Frozen date_parse k e now _ = Frozen-refl

  at_delay_over-Frozen : (k : ℕ) (o : Option Phase) → Frozen s (at_delay_over k o s)
  unfolding at_delay_over on_delay_over wait_for_resume throw
  at_delay_over-Frozen k o = ground arith

  main_step-Frozen : (m : Main) (e : Event) → s.main ≡ m → Frozen s (main_step m e s)
  unfolding main_step finish_session main_wait on_initialized after_workers on_completed
  main_step-Frozen Main.initializing (initialized data') h = ground arith
  main_step-Frozen Main.initializing (init_failed e) h = ground arith
  main_step-Frozen transferring settled h = ground arith
  main_step-Frozen Main.waiting main_woken h = ground arith
  main_step-Frozen resumed main_turn h = ground arith
  main_step-Frozen Main.completing (completed saved) h = ground arith
  main_step-Frozen Main.completing (complete_failed e) h = ground arith
  main_step-Frozen _ _ h = Frozen-refl

-- Once the transfer is stopped or its signal aborted, no event takes another chunk, counts an
-- acknowledgement, asks for the publication, or reports success.
pub step-Frozen :
    (date_parse : Text → Option ℕ) (s : Transfer) (e : Event)
    → is_inactive s ≡ true
    → Frozen s (step date_parse s e)
unfolding step
step-Frozen date_parse s (set_stopped b) h = ground arith
step-Frozen date_parse s (set_paused b) h = ground arith
step-Frozen date_parse s stop_item h = ground arith
step-Frozen date_parse s (woken k) h = on_woken-Frozen s h k _
step-Frozen date_parse s (turn k) h = on_turn-Frozen s h k _
step-Frozen date_parse s (progress k loaded total now) h =
    at_progress-Frozen s h k loaded total now _
step-Frozen date_parse s (sent k) h = at_sent-Frozen s h k _
step-Frozen date_parse s (send_failed k e now) h = at_failed-Frozen s h date_parse k e now _
step-Frozen date_parse s (delay_over k) h = at_delay_over-Frozen s h k _
step-Frozen date_parse s (initialized data') h = main_step-Frozen s h s.main _ refl
step-Frozen date_parse s e h = main_step-Frozen s h s.main e refl
