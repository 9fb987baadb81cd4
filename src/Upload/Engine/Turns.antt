-- ===== src/Upload/Engine/Turns.antt =====
-- Every turn of a worker keeps the invariant of Upload/Engine/Invariant.
use gothrough.Base.{
  ℕ, ◌-◌, ◌≤◌, ◌<◌, ◌≡◌, refl, inl, inr, false, ◌||◌, Option, none, some, get_elem?, is_some, leb,
  contains, contains-count, All-get, Bool-cases, if_intro, arith, Text,
}
use gothrough.Upload.Types.{progress_refresh_interval}
use gothrough.Upload.Retry.{HttpError, is_canceled_error, upload_retry_delay, upload_retry_delay-lt}
use gothrough.Upload.Progress.{confirm_chunk, recalc_loaded_bytes}
use gothrough.Upload.Progress.Bounds.{recalc_loaded_bytes-le}
use gothrough.Upload.Engine.State.{
  Failure, upload_cancelled, abort_reason, request, Phase, entering, sending, delaying, holding,
  resending, returned, thrown, Transfer, is_inactive, put_worker,
}
use gothrough.Upload.Engine.Workers.{
  throw, wait_for_resume, loop_top, take_chunk, on_progress, acknowledge, confirm, on_sent,
  retry_after_delay, on_send_failed, on_delay_over,
}
use gothrough.Upload.Engine.Protocol.{is_ended}
use gothrough.Upload.Engine.Ledger.{
  Fits, carries, Ledger-move, Ledger-fail, Ledger-throw, Ledger-take, Ledger-confirm, Ledger-fresh,
}
use gothrough.Upload.Engine.Invariant.{
  Inv, live-working, working-Stage, throw-Inv, wait_for_resume-Inv, loop_top-Inv,
}

module _ (s : Transfer) (v : Inv s) (k : ℕ) where
  module _ (p : Phase) (at : get_elem? s.workers k ≡ some p) (live : is_ended p ≡ false) where
    -- A live worker may throw, or wait with what it holds.
    pub throw_live-Inv : (e : Failure) → Inv (throw k e s)
    throw_live-Inv e =
        throw-Inv s k v.loaded (live-working v k p at live) v.configured e
          (Ledger-throw v.ledger k p at)

    pub wait_live-Inv :
        (park go : Phase)
        → ((i : ℕ) → carries i park ≡ carries i p)
        → ((i : ℕ) → carries i go ≡ carries i p)
        → Fits s.session.total_chunks s.next_chunk_index (is_some s.failure) park
        → Fits s.session.total_chunks s.next_chunk_index (is_some s.failure) go
        → Inv (wait_for_resume k park go s)
    wait_live-Inv park go cp cg fp fg =
        wait_for_resume-Inv s k v.loaded (live-working v k p at live) v.configured park go
          (Ledger-move v.ledger k p park at cp fp) (Ledger-move v.ledger k p go at cg fg)
          (Ledger-throw v.ledger k p at)

    pub loop_live-Inv : ((i : ℕ) → carries i p ≡ 0) → Inv (loop_top k s)
    loop_live-Inv free =
        loop_top-Inv s k v.loaded (live-working v k p at live) v.configured
          (λ q none' f. Ledger-move v.ledger k p q at (λ i. omega (arith, none' i, free i)) f)
          (Ledger-throw v.ledger k p at)

    -- It may also go on in another phase with the same chunk.
    pub put_live-Inv :
        (q : Phase)
        → ((i : ℕ) → carries i q ≡ carries i p)
        → Fits s.session.total_chunks s.next_chunk_index (is_some s.failure) q
        → Inv (put_worker k q s)
    put_live-Inv q same f = record {
      ledger = Ledger-move v.ledger k p q at same f;
      loaded = v.loaded;
      configured = v.configured;
      stage = working-Stage s.main _ _ _ _ (live-working v k p at live);
    }

  pub take_chunk-Inv : get_elem? s.workers k ≡ some entering → Inv (take_chunk k s)
  unfolding take_chunk
  take_chunk-Inv at =
      if_intro Inv (is_inactive s) _ _ (λ stop. throw_live-Inv entering at refl upload_cancelled)
        (λ on.
          if_intro Inv (leb s.session.total_chunks s.next_chunk_index) _ _
            (λ over. put_live-Inv entering at refl returned (λ i. refl) (ground arith))
            (λ more. record {
              ledger = Ledger-take v.ledger k entering at (λ i. refl) (ground arith);
              loaded = v.loaded;
              configured = v.configured;
              stage = working-Stage s.main _ _ _ _ (live-working v k entering at refl);
            }))

  module _ (i a r : ℕ) (at : get_elem? s.workers k ≡ some (sending i a r)) where
    retry_fits : r ≤ 2
    retry_fits = All-get _ s.workers k (sending i a r) v.ledger.fits at

    pub on_progress-Inv : (loaded total now : ℕ) → Inv (on_progress k i a r loaded total now s)
    unfolding on_progress recalc_loaded_bytes
    on_progress-Inv loaded total now = elim (Bool-cases (is_inactive s)) [
      | inl stop ↦ rw stop v
      | inr on ↦ elim (Bool-cases (leb progress_refresh_interval (now - s.last_paint))) [
        | inl paint ↦
            rw (on, paint)
              (record {
                ledger = Ledger-move v.ledger k (sending i a r) _ at (λ j. refl) retry_fits;
                loaded = recalc_loaded_bytes-le _;
                configured = v.configured;
                stage = working-Stage s.main _ _ _ _ (live-working v k _ at refl);
              })
        | inr no_paint ↦
            rw (on, no_paint)
              (record {
                ledger = Ledger-move v.ledger k (sending i a r) _ at (λ j. refl) retry_fits;
                loaded = v.loaded;
                configured = v.configured;
                stage = working-Stage s.main _ _ _ _ (live-working v k _ at refl);
              })
      ]
    ]

    not_confirmed : contains i s.item.confirmed_chunks ≡ false
    not_confirmed = elim (Bool-cases (contains i s.item.confirmed_chunks)) [
      | inl old ↦ absurd (
          ground (
            arith,
            contains-count i s.item.confirmed_chunks old,
            Ledger-fresh v.ledger k i (sending i a r) at (ground arith),
          ))
      | inr new ↦ new
    ]

    confirm-loop-Inv : Inv (loop_top k (confirm i a s))
    unfolding confirm acknowledge confirm_chunk recalc_loaded_bytes
    confirm-loop-Inv = rw not_confirmed (
        loop_top-Inv _ k (recalc_loaded_bytes-le _) (live-working v k _ at refl) v.configured
          (λ q free f. Ledger-confirm v.ledger k i (sending i a r) q at (λ j. refl) free f)
          (Ledger-confirm (Ledger-fail v.ledger) k i (sending i a r) thrown at (λ j. refl)
            (λ j. refl) refl))

    pub on_sent-Inv : Inv (on_sent k i a s)
    unfolding on_sent
    on_sent-Inv =
        if_intro Inv (is_inactive s) _ _ (λ stop. throw_live-Inv _ at refl upload_cancelled)
          (λ on.
            if_intro Inv s.controller.aborted _ _ (λ gone. absurd (ground arith))
              (λ here. confirm-loop-Inv))

    retry_after_delay-Inv :
        (e : HttpError) (o : Option ℕ)
        → ((d : ℕ) → o ≡ some d → r < 2)
        → Inv (retry_after_delay k i r e o s)
    unfolding retry_after_delay
    retry_after_delay-Inv e none h = throw_live-Inv _ at refl (request e)
    retry_after_delay-Inv e (some d) h = record {
      ledger = Ledger-move v.ledger k (sending i a r) _ at (λ j. refl) (omega (arith, h d refl));
      loaded = v.loaded;
      configured = v.configured;
      stage = working-Stage s.main _ _ _ _ (live-working v k _ at refl);
    }

    pub on_send_failed-Inv :
        (date_parse : Text → Option ℕ) (e : HttpError) (now : ℕ)
        → Inv (on_send_failed date_parse k i r e now s)
    unfolding on_send_failed
    on_send_failed-Inv date_parse e now =
        if_intro Inv (s.stopped || (is_canceled_error e || s.controller.aborted)) _ _
          (λ stop. throw_live-Inv _ at refl (request e))
          (λ on.
            retry_after_delay-Inv e (upload_retry_delay date_parse e r now)
              (λ d. upload_retry_delay-lt date_parse e r now d))

  pub on_delay_over-Inv :
      (i r : ℕ) → get_elem? s.workers k ≡ some (delaying i r) → Inv (on_delay_over k i r s)
  unfolding on_delay_over
  on_delay_over-Inv i r at =
      let fits = All-get _ s.workers k (delaying i r) v.ledger.fits at in
      if_intro Inv s.controller.aborted _ _ (λ gone. throw_live-Inv _ at refl abort_reason)
        (λ here.
          wait_live-Inv _ at refl (holding i r) (resending i r) (λ j. refl) (λ j. refl) fits fits)
