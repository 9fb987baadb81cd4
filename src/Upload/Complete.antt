-- ===== src/Upload/Complete.antt =====
-- services/upload.ts completeUpload: the request that publishes a file, with its confirmation.
use gothrough.Base.{
  ℕ, zero, suc, ◌+◌, ◌≤◌, ◌<◌, ◌≡◌, refl, Bool, true, ◌||◌, not, Option, none, some, is_some,
  if◌then◌else◌, if_intro, arith, Text,
}
use gothrough.Upload.Retry.{HttpError, upload_retry_delay, upload_retry_delay-lt}

-- What the code reads of a CompleteUploadResponse.
pub record CompleteResponse : Type 0 where
  pub saved_filename : Text

pub data PostReply : Type 0 where
  published : CompleteResponse → PostReply
  refused : HttpError → PostReply

-- The answer to the status request: whether its status is 'success', or a failure.
pub data StatusReply : Type 0 where
  status_success : CompleteResponse → StatusReply
  status_other : StatusReply
  status_failed : StatusReply

-- What the server, the clock and the user do in each round of the loop: the signal as the code
-- reads it in the catch block and after the status request, and whether it aborts the wait.
pub record World : Type 0 where
  pub post : ℕ → PostReply
  pub status : ℕ → StatusReply
  pub aborted_at_catch : ℕ → Bool
  pub aborted_at_status : ℕ → Bool
  pub aborted_in_wait : ℕ → Bool
  pub now : ℕ → ℕ

pub data Outcome : Type 0 where
  returned : CompleteResponse → Outcome
  threw : HttpError → Outcome
  threw_reason : Outcome
  out_of_fuel : Outcome

module _ (date_parse : Text → Option ℕ) (w : World) where
  -- What follows the status request without success; `rest` is the next round.
  pub after_status : ℕ → HttpError → Outcome → Outcome
  after_status retry e rest =
      if w.aborted_at_status retry
      then threw e
      else if is_some (upload_retry_delay date_parse e retry (w.now retry))
      then (if w.aborted_in_wait retry then threw_reason else rest)
      else threw e

  pub confirm_publication : ℕ → HttpError → StatusReply → Outcome → Outcome
  confirm_publication retry e (status_success r) rest = returned r
  confirm_publication retry e status_other rest = after_status retry e rest
  confirm_publication retry e status_failed rest = after_status retry e rest

  pub after_post : ℕ → PostReply → Outcome → Outcome
  after_post retry (published r) rest = returned r
  after_post retry (refused e) rest =
      if w.aborted_at_catch retry || not (is_some (upload_retry_delay date_parse e 0 (w.now retry)))
      then threw e
      else confirm_publication retry e (w.status retry) rest

  -- The loop, from round `retry` on.
  pub complete_upload : ℕ → ℕ → Outcome
  complete_upload zero retry = out_of_fuel
  complete_upload (suc fuel) retry =
      let rest = complete_upload fuel (suc retry) in after_post retry (w.post retry) rest

  -- What an outcome rests on: a reply of the server, a failure of a request to publish, or the
  -- user, in one of the rounds before `last`.
  pub data IsEarned (last : ℕ) : Outcome → Type 0 where
    by_post :
        (r : CompleteResponse) (i : ℕ)
        → i < last
        → w.post i ≡ published r
        → IsEarned last (returned r)
    by_status :
        (r : CompleteResponse) (i : ℕ)
        → i < last
        → w.status i ≡ status_success r
        → IsEarned last (returned r)
    by_failure : (e : HttpError) (i : ℕ) → i < last → w.post i ≡ refused e → IsEarned last (threw e)
    by_user : (i : ℕ) → i < last → w.aborted_in_wait i ≡ true → IsEarned last threw_reason

  module _ (last retry : ℕ) (e : HttpError) (rest : Outcome) (lt : retry < last)
      (post : w.post retry ≡ refused e) (more : retry < 2 → IsEarned last rest) where
    after_status-IsEarned : IsEarned last (after_status retry e rest)
    unfolding after_status
    after_status-IsEarned =
        if_intro (IsEarned last) (w.aborted_at_status retry) _ _ (λ _. by_failure e retry lt post)
          (λ _.
            if_intro (IsEarned last) (is_some (upload_retry_delay date_parse e retry (w.now retry)))
              _ _
              (λ again.
                if_intro (IsEarned last) (w.aborted_in_wait retry) _ _ (by_user retry lt) (λ _.
                  more (small (upload_retry_delay date_parse e retry (w.now retry)) refl again)))
              (λ _. by_failure e retry lt post))
      where
        small :
            (o : Option ℕ)
            → upload_retry_delay date_parse e retry (w.now retry) ≡ o
            → is_some o ≡ true
            → retry < 2
        small none q h = cc
        small (some d) q h = upload_retry_delay-lt date_parse e retry (w.now retry) d q

    confirm_publication-IsEarned :
        (s : StatusReply) → w.status retry ≡ s → IsEarned last (confirm_publication retry e s rest)
    unfolding confirm_publication
    confirm_publication-IsEarned (status_success r) q = by_status r retry lt q
    confirm_publication-IsEarned status_other q = after_status-IsEarned
    confirm_publication-IsEarned status_failed q = after_status-IsEarned

  after_post-IsEarned :
      (last retry : ℕ) (p : PostReply) (rest : Outcome)
      → retry < last
      → w.post retry ≡ p
      → (retry < 2 → IsEarned last rest)
      → IsEarned last (after_post retry p rest)
  unfolding after_post
  after_post-IsEarned last retry (published r) rest lt q more = by_post r retry lt q
  after_post-IsEarned last retry (refused e) rest lt q more =
      if_intro (IsEarned last)
        (w.aborted_at_catch retry
          || not (is_some (upload_retry_delay date_parse e 0 (w.now retry))))
        _ _ (λ _. by_failure e retry lt q)
        (λ _. confirm_publication-IsEarned last retry e rest lt q more (w.status retry) refl)

  from_round :
      (fuel retry : ℕ) → retry < 3 → 3 ≤ fuel + retry → IsEarned 3 (complete_upload fuel retry)
  unfolding complete_upload
  from_round zero retry lt h = absurd (omega arith)
  from_round (suc fuel) retry lt h =
      after_post-IsEarned 3 retry (w.post retry) (complete_upload fuel (suc retry)) lt refl
        (λ small. from_round fuel (suc retry) (omega arith) (omega arith))

  -- The loop ends within three rounds. It returns only what the server answered, to a request to
  -- publish or to the status request of a round, and it throws only what a request to publish
  -- failed with, or the reason of the user's abort: a lost answer is never taken for a success,
  -- and a failed status request never hides the original failure.
  pub complete_upload-IsEarned : (fuel : ℕ) → IsEarned 3 (complete_upload (fuel + 3) 0)
  complete_upload-IsEarned fuel = from_round (fuel + 3) 0 (omega arith) (omega arith)
