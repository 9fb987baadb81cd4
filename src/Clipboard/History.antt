-- ===== src/Clipboard/History.antt =====
-- What a mutation makes of the records, whatever happens while it is awaited.
use gothrough.Base.{
  ◌≡◌, refl, ap, ◌∙◌, Bool, true, false, not, Option, some, List, [], ◌∷◌, All, if_intro, Text,
}
use gothrough.Remote.{Remote, initial, refresh, open_request, announce}
use gothrough.Remote.Invariant.{run-initial-Inv}
use gothrough.Remote
use gothrough.Clipboard.{
  Clip, Mutation, Operation, acting, Board, mutation_done, on_success, forget_validator, BoardEvent,
  succeeds, step, run, opened,
}
use gothrough.Clipboard.Mutations.{BoardInv, effect, on_success-remote, step-BoardInv}
use gothrough.Clipboard.Meanwhile.{IsOther, Same, step-Same}

refresh-data : (s : Remote (List Clip)) → (refresh false s).data' ≡ s.data'
unfolding refresh announce open_request
refresh-data s =
    if_intro (λ (t : Remote (List Clip)). t.data' ≡ s.data') (not s.mounted) _ _ (λ _. refl)
      (λ _. refl)

mutation_done-clips :
    (o : Option Operation) (m : Mutation) (clip : Clip) (b : Board)
    → o ≡ some (acting m)
    → b.remote.mounted ≡ true
    → (mutation_done o clip b).remote.data' ≡ effect m clip b.remote.data'
unfolding mutation_done
mutation_done-clips o m clip b at here = rw at (
    if_intro (λ (t : Board). t.remote.data' ≡ effect m clip b.remote.data') b.remote.mounted _ _
      (λ _.
        refresh-data (on_success m clip (forget_validator b)).remote
        ∙ ap (λ (s : Remote (List Clip)). s.data') (on_success-remote m clip (forget_validator b)))
      (λ gone. cc))

pub opened-BoardInv : BoardInv opened
unfolding Remote.run
opened-BoardInv = record { remote = run-initial-Inv [] (Remote.mounts ∷ []); idle = λ m e. cc }

module _ (publishable : Text → Bool) where
  run-Same :
      (m : Mutation) (b : Board) (es : List BoardEvent)
      → BoardInv b
      → b.operation ≡ some (acting m)
      → All IsOther es
      → Same b (run publishable b es)
  unfolding run
  run-Same m b [] h at other = record { operation = refl; clips = refl }
  run-Same m b (e ∷ es) h at other =
      let first = step-Same publishable m b e h at other.0 in
      let rest =
        run-Same m (step publishable b e) es (step-BoardInv publishable b e h)
          (first.operation ∙ at) other.1 in
      record { operation = rest.operation ∙ first.operation; clips = rest.clips ∙ first.clips }

  -- Whatever comes while a mutation is awaited (polls, reloads, late answers to earlier lists,
  -- copies and their outcomes, choices of images, other clicks), once it succeeds on a page that is
  -- still there the records shown are those that were shown when it began, with its own effect: a
  -- record that was removed stays removed.
  pub succeeds-effect :
      (m : Mutation) (clip : Clip) (b : Board) (es : List BoardEvent)
      → BoardInv b
      → b.operation ≡ some (acting m)
      → All IsOther es
      → (run publishable b es).remote.mounted ≡ true
      → (step publishable (run publishable b es) (succeeds clip)).remote.data'
        ≡ effect m clip b.remote.data'
  unfolding step
  succeeds-effect m clip b es h at other here =
      let same = run-Same m b es h at other in
      mutation_done-clips (run publishable b es).operation m clip (run publishable b es)
        (same.operation ∙ at) here
      ∙ ap (effect m clip) same.clips
