-- ===== src/Clipboard/Mutations.antt =====
-- While a mutation is awaited, no answer that lists the records changes what the page shows.
use gothrough.Base.{
  ℕ, ◌≡◌, ◌||◌, arith, if◌then◌else◌, refl, sym, ◌∙◌, Bool, true, false, Option, none, some,
  is_some, List, [], ◌∷◌, take, if_intro, Text,
}
use mathlib.Core.Path.{subst}
use mathlib.Core.Bool.{true≢false}
use gothrough.Messages.{Message, plain}
use gothrough.Remote
use gothrough.Remote.{
  Remote, Answer, RemoteEvent, resolves, rejects, cancels, sets_error, sets_data, sets_validator,
  initial, set_error, cancel, cancel_background, is_background,
}
use gothrough.Remote.Invariant
use gothrough.Remote.Staleness.{Unchanged, step_stale}
use gothrough.Clipboard.{
  Clip, Mutation, publishing, removing, clearing, Operation, acting, reloading, Board,
  start_mutation, without, on_success, forget_validator, mutation_done, release_operation,
  mutation_failed, reload_done, publish, auto_refresh, manual_refresh, type_text, BoardEvent,
  max_entries, publishes, clears, polls, refreshes, unmounts, removes, types, succeeds, fails,
  list_resolves, list_rejects, reloaded, step, ImageFile, publishing_image, can_publish_image, copy,
  copied, copy_failed, release_copy, ask_all, choose_image, stop_poll, copies, copy_succeeds,
  copy_fails, previews, asks, asks_all, keeps, keeps_all, closes_copy, closes_preview, chooses,
  settings_settle,
}

-- While an action is awaited, no list is, and the page is busy.
pub record BoardInv (b : Board) : Type 0 where
  pub remote : Remote.Invariant.Inv b.remote
  pub idle :
      (m : Mutation) → b.operation ≡ some (acting m) → (b.remote.request ≡ none) × (b.busy ≡ true)

pub not_held : (o : Option Operation) (op : Operation) → is_some o ≡ false → o ≡ some op → ⊥
not_held none op h e = cc
not_held (some x) op h e = cc

-- The events of the remote data that the page makes.
pub then_Inv :
    (s : Remote (List Clip)) (e : RemoteEvent (List Clip))
    → Remote.Invariant.Inv s
    → Remote.Invariant.Inv (Remote.step s e)
then_Inv s e h = Remote.Invariant.step-Inv s e h

start_mutation-BoardInv : (m : Mutation) (b : Board) → BoardInv b → BoardInv (start_mutation m b)
unfolding start_mutation Remote.step set_error cancel
start_mutation-BoardInv m b h =
    if_intro BoardInv (is_some b.operation) _ _ (λ _. h)
      (λ _. record {
        remote =
            then_Inv (cancel b.remote) (sets_error (plain [])) (then_Inv b.remote cancels h.remote);
        idle = λ _ _. (refl, refl);
      })

publish-BoardInv : (ok : Text → Bool) (b : Board) → BoardInv b → BoardInv (publish ok b)
unfolding publish
publish-BoardInv ok b h = by_image b.image_file
  where
    by_image :
        (o : Option ImageFile)
        → BoardInv (elim o [
          | some file ↦
              if can_publish_image file b.image_settings.data'
              then start_mutation publishing_image b
              else b
          | none ↦ if ok b.text then start_mutation publishing b else b
        ])
    by_image (some file) =
        if_intro BoardInv (can_publish_image file b.image_settings.data') _ _
          (λ _. start_mutation-BoardInv publishing_image b h) (λ _. h)
    by_image none =
        if_intro BoardInv (ok b.text) _ _ (λ _. start_mutation-BoardInv publishing b h) (λ _. h)

auto_refresh-BoardInv : (b : Board) → BoardInv b → BoardInv (auto_refresh b)
unfolding auto_refresh Remote.step
auto_refresh-BoardInv b h =
    if_intro BoardInv (is_some b.operation || is_some b.copy_in_progress) _ _ (λ _. h)
      (λ free. record {
        remote = then_Inv b.remote (RemoteEvent.refreshes true) h.remote;
        idle = λ m e. absurd (not_held b.operation (acting m) (ground arith) e);
      })

manual_refresh-BoardInv : (b : Board) → BoardInv b → BoardInv (manual_refresh b)
unfolding manual_refresh Remote.step
manual_refresh-BoardInv b h =
    if_intro BoardInv b.busy _ _ (λ _. h)
      (λ free. record {
        remote = then_Inv b.remote (RemoteEvent.refreshes false) h.remote;
        idle = λ m e. absurd (true≢false (sym (h.idle m e).1 ∙ free));
      })

type_text-BoardInv : (text : Text) (b : Board) → BoardInv b → BoardInv (type_text text b)
unfolding type_text
type_text-BoardInv text b h =
    if_intro BoardInv b.busy _ _ (λ _. h) (λ _. record { remote = h.remote; idle = h.idle })

reload_done-BoardInv : (o : Option Operation) (b : Board) → BoardInv b → BoardInv (reload_done o b)
unfolding reload_done
reload_done-BoardInv none b h = h
reload_done-BoardInv (some reloading) b h = record { remote = h.remote; idle = λ m e. cc }
reload_done-BoardInv (some (acting m)) b h = h

mutation_failed-BoardInv :
    (o : Option Operation) (failure : Message) (b : Board)
    → BoardInv b
    → BoardInv (mutation_failed o failure b)
unfolding mutation_failed Remote.step
mutation_failed-BoardInv none failure b h = h
mutation_failed-BoardInv (some reloading) failure b h = h
mutation_failed-BoardInv (some (acting m)) failure b h =
    if_intro (λ (t : Board). BoardInv (release_operation t)) b.remote.mounted _ _
      (λ _. record { remote = then_Inv b.remote (sets_error failure) h.remote; idle = λ n e. cc })
      (λ _. record { remote = h.remote; idle = λ n e. cc })

-- What a mutation makes of the records that are shown.
pub effect : Mutation → Clip → List Clip → List Clip
effect publishing clip clips = take max_entries (clip ∷ clips)
effect publishing_image clip clips = take max_entries (clip ∷ clips)
effect (removing id) clip clips = without id clips
effect clearing clip clips = []

pub on_success-remote :
    (m : Mutation) (clip : Clip) (b : Board)
    → (on_success m clip b).remote ≡ record b.remote { data' = effect m clip b.remote.data' }
unfolding on_success effect
on_success-remote publishing clip b = refl
on_success-remote publishing_image clip b = refl
on_success-remote (removing id) clip b = refl
on_success-remote clearing clip b = refl

mutation_done-BoardInv :
    (o : Option Operation) (clip : Clip) (b : Board)
    → BoardInv b
    → BoardInv (mutation_done o clip b)
unfolding mutation_done Remote.step
mutation_done-BoardInv none clip b h = h
mutation_done-BoardInv (some reloading) clip b h = h
mutation_done-BoardInv (some (acting m)) clip b h =
    if_intro BoardInv b.remote.mounted _ _
      (λ _. record {
        remote =
            then_Inv (on_success m clip (forget_validator b)).remote (RemoteEvent.refreshes false) (
              subst (λ (s : Remote (List Clip)). Remote.Invariant.Inv s)
                (sym (on_success-remote m clip (forget_validator b)))
                (then_Inv (forget_validator b).remote (sets_data (effect m clip b.remote.data'))
                  (then_Inv b.remote (sets_validator none) h.remote)));
        idle = λ n e. cc;
      })
      (λ _. record { remote = h.remote; idle = λ n e. cc })

-- An answer that lists the records, while none is awaited.
list_answer-BoardInv :
    (e : RemoteEvent (List Clip)) (b : Board)
    → ((b.remote.request ≡ none) → (Remote.step b.remote e).request ≡ none)
    → BoardInv b
    → BoardInv (record b { remote = Remote.step b.remote e })
list_answer-BoardInv e b same h = record {
  remote = then_Inv b.remote e h.remote;
  idle = λ m at. (same (h.idle m at).0, (h.idle m at).1);
}

pub resolves-Unchanged :
    (b : Board) (id : ℕ) (a : Answer (List Clip))
    → BoardInv b
    → b.remote.request ≡ none
    → Unchanged b.remote (Remote.step b.remote (resolves id a))
resolves-Unchanged b id a h idle =
    step_stale b.remote (resolves id a) id h.remote (rw idle (λ x. x)) refl

pub rejects-Unchanged :
    (b : Board) (id : ℕ) (m : Message)
    → BoardInv b
    → b.remote.request ≡ none
    → Unchanged b.remote (Remote.step b.remote (rejects id m))
rejects-Unchanged b id m h idle =
    step_stale b.remote (rejects id m) id h.remote (rw idle (λ x. x)) refl

-- The clicks that stop a poll, of which there is none while a mutation is awaited.
stop_poll-BoardInv : (b : Board) → BoardInv b → BoardInv (stop_poll b)
unfolding Remote.step cancel_background
stop_poll-BoardInv b h = record {
  remote = then_Inv b.remote RemoteEvent.cancels_background h.remote;
  idle = λ m at. (
    if_intro (λ (s : Remote (List Clip)). s.request ≡ none) (is_background b.remote.request) _ _
        (λ _. refl) (λ _. (h.idle m at).0),
    (h.idle m at).1,
  );
}

copy-BoardInv : (clip : Clip) (b : Board) → BoardInv b → BoardInv (copy clip b)
unfolding copy
copy-BoardInv clip b h =
    if_intro BoardInv (is_some b.copy_in_progress) _ _ (λ _. h)
      (λ _. let t = stop_poll-BoardInv b h in record { remote = t.remote; idle = t.idle })

copied-BoardInv : (o : Option Clip) (b : Board) → BoardInv b → BoardInv (copied o b)
unfolding copied
copied-BoardInv none b h = h
copied-BoardInv (some clip) b h =
    if_intro (λ (t : Board). BoardInv (release_copy t)) b.remote.mounted _ _
      (λ _. record { remote = h.remote; idle = h.idle })
      (λ _. record { remote = h.remote; idle = h.idle })

copy_failed-BoardInv : (o : Option Clip) (b : Board) → BoardInv b → BoardInv (copy_failed o b)
unfolding copy_failed
copy_failed-BoardInv none b h = h
copy_failed-BoardInv (some clip) b h =
    if_intro (λ (t : Board). BoardInv (release_copy t)) b.remote.mounted _ _
      (λ _. record { remote = h.remote; idle = h.idle })
      (λ _. record { remote = h.remote; idle = h.idle })

ask_all-BoardInv : (b : Board) → BoardInv b → BoardInv (ask_all b)
unfolding ask_all
ask_all-BoardInv b h =
    if_intro BoardInv _ _ _ (λ _. h)
      (λ _. let t = stop_poll-BoardInv b h in record { remote = t.remote; idle = t.idle })

choose_image-BoardInv :
    (file : Option ImageFile) (b : Board) → BoardInv b → BoardInv (choose_image file b)
unfolding choose_image
choose_image-BoardInv file b h =
    if_intro BoardInv b.busy _ _ (λ _. h) (λ _. record { remote = h.remote; idle = h.idle })

unmount-BoardInv :
    (b : Board)
    → BoardInv b
    → BoardInv (record b {
      remote = Remote.unmount b.remote;
      image_settings = Remote.unmount b.image_settings;
    })
unfolding Remote.step Remote.unmount
unmount-BoardInv b h = record {
  remote = then_Inv b.remote RemoteEvent.unmounts h.remote;
  idle = λ m at. (refl, (h.idle m at).1);
}

module _ (publishable : Text → Bool) where
  pub step-BoardInv : (b : Board) (e : BoardEvent) → BoardInv b → BoardInv (step publishable b e)
  unfolding step
  step-BoardInv b publishes h = publish-BoardInv publishable b h
  step-BoardInv b clears h = start_mutation-BoardInv clearing b h
  step-BoardInv b polls h = auto_refresh-BoardInv b h
  step-BoardInv b refreshes h = manual_refresh-BoardInv b h
  step-BoardInv b reloaded h = reload_done-BoardInv b.operation b h
  step-BoardInv b unmounts h = unmount-BoardInv b h
  step-BoardInv b (removes id) h = start_mutation-BoardInv (removing id) b h
  step-BoardInv b (types text) h = type_text-BoardInv text b h
  step-BoardInv b (succeeds clip) h = mutation_done-BoardInv b.operation clip b h
  step-BoardInv b (fails failure) h = mutation_failed-BoardInv b.operation failure b h
  step-BoardInv b (copies clip) h = copy-BoardInv clip b h
  step-BoardInv b copy_succeeds h = copied-BoardInv b.copy_in_progress b h
  step-BoardInv b copy_fails h = copy_failed-BoardInv b.copy_in_progress b h
  step-BoardInv b (previews clip) h =
      let t = stop_poll-BoardInv b h in record { remote = t.remote; idle = t.idle }
  step-BoardInv b (asks id) h =
      let t = stop_poll-BoardInv b h in record { remote = t.remote; idle = t.idle }
  step-BoardInv b asks_all h = ask_all-BoardInv b h
  step-BoardInv b keeps h = record { remote = h.remote; idle = h.idle }
  step-BoardInv b keeps_all h = record { remote = h.remote; idle = h.idle }
  step-BoardInv b closes_copy h = record { remote = h.remote; idle = h.idle }
  step-BoardInv b closes_preview h = record { remote = h.remote; idle = h.idle }
  step-BoardInv b (chooses file) h = choose_image-BoardInv file b h
  step-BoardInv b (settings_settle e) h = record { remote = h.remote; idle = h.idle }
  step-BoardInv b (list_resolves id a) h =
      list_answer-BoardInv (resolves id a) b (λ q. (resolves-Unchanged b id a h q).same_request ∙ q)
        h
  step-BoardInv b (list_rejects id m) h =
      list_answer-BoardInv (rejects id m) b (λ q. (rejects-Unchanged b id m h q).same_request ∙ q) h
