-- ===== src/Clipboard/Meanwhile.antt =====
-- While a mutation is awaited, every other event leaves the records and the operation as they are.
use gothrough.Base.{
  ◌≡◌, ◌||◌, arith, if◌then◌else◌, refl, sym, ◌∙◌, Bool, Option, none, some, is_some, List,
  if_intro, Text,
}
use mathlib.Core.Bool.{true≢false}
use gothrough.Remote
use gothrough.Remote.{
  Remote, Answer, RemoteEvent, resolves, rejects, cancels, sets_error, sets_data, sets_validator,
  initial, set_error, cancel, cancel_background, is_background,
}
use gothrough.Clipboard.{
  Clip, Mutation, publishing, removing, clearing, Operation, acting, reloading, Board,
  start_mutation, reload_done, publish, auto_refresh, manual_refresh, type_text, BoardEvent,
  publishes, clears, polls, refreshes, unmounts, removes, types, succeeds, fails, list_resolves,
  list_rejects, reloaded, step, ImageFile, publishing_image, can_publish_image, copy, copied,
  copy_failed, release_copy, ask_all, choose_image, stop_poll, copies, copy_succeeds, copy_fails,
  previews, asks, asks_all, keeps, keeps_all, closes_copy, closes_preview, chooses, settings_settle,
}
use gothrough.Clipboard.Mutations.{BoardInv, not_held, resolves-Unchanged, rejects-Unchanged}

stop_poll-clips : (b : Board) → (stop_poll b).remote.data' ≡ b.remote.data'
unfolding cancel_background
stop_poll-clips b =
    if_intro (λ (s : Remote (List Clip)). s.data' ≡ b.remote.data') (is_background b.remote.request)
      _ _ (λ _. refl) (λ _. refl)

-- Every event but the outcome of the action that is awaited.
abbrev pub IsOther : BoardEvent → Type 0
IsOther (succeeds clip) = ⊥
IsOther (fails failure) = ⊥
IsOther _ = Unit

-- The operation and the records are as they were.
pub record Same (b t : Board) : Type 0 where
  pub operation : t.operation ≡ b.operation
  pub clips : t.remote.data' ≡ b.remote.data'

Same-refl : (b : Board) → Same b b
Same-refl b = record { operation = refl; clips = refl }

start_mutation_held :
    (n : Mutation) (op : Operation) (b : Board)
    → b.operation ≡ some op
    → Same b (start_mutation n b)
unfolding start_mutation
start_mutation_held n op b at =
    if_intro (Same b) (is_some b.operation) _ _ (λ _. Same-refl b)
      (λ free. absurd (not_held b.operation op free at))

publish_held :
    (publishable : Text → Bool) (op : Operation) (b : Board)
    → b.operation ≡ some op
    → Same b (publish publishable b)
unfolding publish
publish_held publishable op b at = by_image b.image_file
  where
    by_image :
        (o : Option ImageFile)
        → Same b (elim o [
          | some file ↦
              if can_publish_image file b.image_settings.data'
              then start_mutation publishing_image b
              else b
          | none ↦ if publishable b.text then start_mutation publishing b else b
        ])
    by_image (some file) =
        if_intro (Same b) (can_publish_image file b.image_settings.data') _ _
          (λ _. start_mutation_held publishing_image op b at) (λ _. Same-refl b)
    by_image none =
        if_intro (Same b) (publishable b.text) _ _ (λ _. start_mutation_held publishing op b at)
          (λ _. Same-refl b)

copied-Same : (o : Option Clip) (b : Board) → Same b (copied o b)
unfolding copied
copied-Same none b = Same-refl b
copied-Same (some clip) b =
    if_intro (λ (t : Board). Same b (release_copy t)) b.remote.mounted _ _
      (λ _. record { operation = refl; clips = refl })
      (λ _. record { operation = refl; clips = refl })

copy_failed-Same : (o : Option Clip) (b : Board) → Same b (copy_failed o b)
unfolding copy_failed
copy_failed-Same none b = Same-refl b
copy_failed-Same (some clip) b =
    if_intro (λ (t : Board). Same b (release_copy t)) b.remote.mounted _ _
      (λ _. record { operation = refl; clips = refl })
      (λ _. record { operation = refl; clips = refl })

reload_done_acting :
    (m : Mutation) (o : Option Operation) (b : Board)
    → o ≡ some (acting m)
    → Same b (reload_done o b)
unfolding reload_done
reload_done_acting m none b at = cc
reload_done_acting m (some reloading) b at = cc
reload_done_acting m (some (acting n)) b at = Same-refl b

module _ (publishable : Text → Bool) where
  pub step-Same :
      (m : Mutation) (b : Board) (e : BoardEvent)
      → BoardInv b
      → b.operation ≡ some (acting m)
      → IsOther e
      → Same b (step publishable b e)
  unfolding step copy ask_all choose_image auto_refresh manual_refresh type_text Remote.unmount
  step-Same m b publishes h at other = publish_held publishable (acting m) b at
  step-Same m b clears h at other = start_mutation_held clearing (acting m) b at
  step-Same m b polls h at other =
      if_intro (Same b) (is_some b.operation || is_some b.copy_in_progress) _ _ (λ _. Same-refl b)
        (λ free. absurd (not_held b.operation (acting m) (ground arith) at))
  step-Same m b refreshes h at other =
      if_intro (Same b) b.busy _ _ (λ _. Same-refl b)
        (λ free. absurd (true≢false (sym (h.idle m at).1 ∙ free)))
  step-Same m b reloaded h at other = reload_done_acting m b.operation b at
  step-Same m b unmounts h at other = record { operation = refl; clips = refl }
  step-Same m b (removes id) h at other = start_mutation_held (removing id) (acting m) b at
  step-Same m b (types text) h at other =
      if_intro (Same b) b.busy _ _ (λ _. Same-refl b)
        (λ _. record { operation = refl; clips = refl })
  step-Same m b (succeeds clip) h at other = absurd other
  step-Same m b (fails failure) h at other = absurd other
  step-Same m b (copies clip) h at other =
      if_intro (Same b) (is_some b.copy_in_progress) _ _ (λ _. Same-refl b)
        (λ _. record { operation = refl; clips = stop_poll-clips b })
  step-Same m b copy_succeeds h at other = copied-Same b.copy_in_progress b
  step-Same m b copy_fails h at other = copy_failed-Same b.copy_in_progress b
  step-Same m b (previews clip) h at other = record { operation = refl; clips = stop_poll-clips b }
  step-Same m b (asks id) h at other = record { operation = refl; clips = stop_poll-clips b }
  step-Same m b asks_all h at other =
      if_intro (Same b) _ _ _ (λ _. Same-refl b)
        (λ _. record { operation = refl; clips = stop_poll-clips b })
  step-Same m b keeps h at other = record { operation = refl; clips = refl }
  step-Same m b keeps_all h at other = record { operation = refl; clips = refl }
  step-Same m b closes_copy h at other = record { operation = refl; clips = refl }
  step-Same m b closes_preview h at other = record { operation = refl; clips = refl }
  step-Same m b (chooses file) h at other =
      if_intro (Same b) b.busy _ _ (λ _. Same-refl b)
        (λ _. record { operation = refl; clips = refl })
  step-Same m b (settings_settle e) h at other = record { operation = refl; clips = refl }
  step-Same m b (list_resolves id a) h at other = record {
    operation = refl;
    clips = (resolves-Unchanged b id a h (h.idle m at).0).same_data;
  }
  step-Same m b (list_rejects id n) h at other = record {
    operation = refl;
    clips = (rejects-Unchanged b id n h (h.idle m at).0).same_data;
  }
