-- ===== src/Remote/Staleness.antt =====
-- Answers of requests that are no longer current do not reach the page.
use gothrough.Base.{
  ℕ, ◌≡◌, refl, ◌∙◌, inl, inr, Bool, true, false, ◌&&◌, not, Option, none, some, List, [], ◌∷◌, All,
  Bool-cases, arith, ◌==◌,
}
use gothrough.Messages.{Message}
use gothrough.Remote.{
  Request, Flight, Remote, Answer, RemoteEvent, resolves, rejects, find_flight, release, cancel,
  finish, resolved, rejected, on_resolved, on_rejected, step, run,
}
use gothrough.Remote.Invariant.{HasId, Placed, Inv, find_flight-Placed, step-Inv, cancel-Inv}

-- What the page shows, and the validator that its next poll sends, are the same.
pub record Unchanged {ℓ} {A : Type ℓ} (s t : Remote A) : Type ℓ where
  pub same_data : t.data' ≡ s.data'
  pub same_validator : t.validator ≡ s.validator
  pub same_action_error : t.action_error ≡ s.action_error
  pub same_load_error : t.load_error ≡ s.load_error
  pub same_background_error : t.background_error ≡ s.background_error
  pub same_loading : t.loading ≡ s.loading
  pub same_request : t.request ≡ s.request

Unchanged-refl {ℓ} : {A : Type ℓ} (s : Remote A) → Unchanged s s
Unchanged-refl s = record {
  same_data = refl;
  same_validator = refl;
  same_action_error = refl;
  same_load_error = refl;
  same_background_error = refl;
  same_loading = refl;
  same_request = refl;
}

-- A placed flight that is not current is aborted.
aborted_of_stale :
    (o : Option Request) (next : ℕ) (f : Flight)
    → Placed o next f
    → (¬ HasId f.id o)
    → f.aborted ≡ true
aborted_of_stale o next f (lt, inl (a, n)) stale = a
aborted_of_stale none next f (lt, inr (a, e)) stale = cc
aborted_of_stale (some r) next f (lt, inr (a, e)) stale = absurd (stale (ground arith))

release_stale : (id : ℕ) (o : Option Request) → (¬ HasId id o) → release id o ≡ o
unfolding release
release_stale id none h = refl
release_stale id (some r) h = elim (Bool-cases (r.id == id)) [
  | inl same ↦ absurd (h (ground arith))
  | inr other ↦ rw other
]

module _ {ℓ} {A : Type ℓ} (s : Remote A) (f : Flight) (gone : f.aborted ≡ true)
    (stale : ¬ HasId f.id s.request) where
  off : (b : Bool) → b && not f.aborted ≡ false
  off b = ground arith

  finish_stale : Unchanged s (finish f s)
  unfolding finish
  finish_stale = record {
    same_data = refl;
    same_validator = refl;
    same_action_error = refl;
    same_load_error = refl;
    same_background_error = refl;
    same_loading = ground arith;
    same_request = release_stale f.id s.request stale;
  }

  resolved_stale : (a : Answer A) → Unchanged s (resolved f a s)
  unfolding resolved
  resolved_stale a = simp (off s.mounted) finish_stale

  rejected_stale : (m : Message) → Unchanged s (rejected f m s)
  unfolding rejected
  rejected_stale m = simp (off s.mounted) finish_stale

module _ {ℓ} {A : Type ℓ} (s : Remote A) (v : Inv s) (id : ℕ) (stale : ¬ HasId id s.request) where
  on_resolved_stale :
      (o : Option Flight) (a : Answer A)
      → find_flight id s.flights ≡ o
      → Unchanged s (on_resolved o a s)
  unfolding on_resolved
  on_resolved_stale none a e = Unchanged-refl s
  on_resolved_stale (some f) a e =
      let (p, same) = find_flight-Placed s.request s.next_id id s.flights f v.placed e in
      let gone : ¬ HasId f.id s.request = rw same stale in
      resolved_stale s f (aborted_of_stale s.request s.next_id f p gone) gone a

  on_rejected_stale :
      (o : Option Flight) (m : Message)
      → find_flight id s.flights ≡ o
      → Unchanged s (on_rejected o m s)
  unfolding on_rejected
  on_rejected_stale none m e = Unchanged-refl s
  on_rejected_stale (some f) m e =
      let (p, same) = find_flight-Placed s.request s.next_id id s.flights f v.placed e in
      let gone : ¬ HasId f.id s.request = rw same stale in
      rejected_stale s f (aborted_of_stale s.request s.next_id f p gone) gone m

-- The number that an event settles; other events settle none.
abbrev pub Settles {ℓ} : {A : Type ℓ} → ℕ → RemoteEvent A → Type 0
Settles id (resolves j a) = j ≡ id
Settles id (rejects j m) = j ≡ id
Settles id _ = ⊥

-- Only the latest request can update the page: whatever a load answers, or fails with, that is
-- not the current request, the data, the validator, the errors and the loading sign stay.
pub step_stale {ℓ} :
    {A : Type ℓ} (s : Remote A) (e : RemoteEvent A) (id : ℕ)
    → Inv s
    → (¬ HasId id s.request)
    → Settles id e
    → Unchanged s (step s e)
unfolding step
step_stale s (resolves j a) id v stale e =
    on_resolved_stale s v j (rw e stale) (find_flight j s.flights) a refl
step_stale s (rejects j m) id v stale e =
    on_rejected_stale s v j (rw e stale) (find_flight j s.flights) m refl
step_stale s _ id v stale e = absurd e

abbrev pub IsSettling {ℓ} : {A : Type ℓ} → RemoteEvent A → Type 0
IsSettling (resolves j a) = Unit
IsSettling (rejects j m) = Unit
IsSettling _ = ⊥

Settles-some {ℓ} : {A : Type ℓ} (e : RemoteEvent A) → IsSettling e → (id : ℕ) × Settles id e
Settles-some (resolves j a) h = (j, refl)
Settles-some (rejects j m) h = (j, refl)
Settles-some _ h = absurd h

Unchanged-trans {ℓ} :
    {A : Type ℓ} (s t u : Remote A) → Unchanged s t → Unchanged t u → Unchanged s u
Unchanged-trans s t u h k = record {
  same_data = k.same_data ∙ h.same_data;
  same_validator = k.same_validator ∙ h.same_validator;
  same_action_error = k.same_action_error ∙ h.same_action_error;
  same_load_error = k.same_load_error ∙ h.same_load_error;
  same_background_error = k.same_background_error ∙ h.same_background_error;
  same_loading = k.same_loading ∙ h.same_loading;
  same_request = k.same_request ∙ h.same_request;
}

idle-Unchanged {ℓ} :
    {A : Type ℓ} (s : Remote A) (es : List (RemoteEvent A))
    → Inv s
    → s.request ≡ none
    → All IsSettling es
    → Unchanged s (run s es)
unfolding run
idle-Unchanged s [] v idle h = Unchanged-refl s
idle-Unchanged s (e ∷ es) v idle h =
    let (id, settled) = Settles-some e h.0 in
    let first = step_stale s e id v (rw idle (λ x. x)) settled in
    Unchanged-trans s (step s e) (run (step s e) es) first
      (idle-Unchanged (step s e) es (step-Inv s e v) (first.same_request ∙ idle) h.1)

-- After `cancel`, which the pages call before every mutation, no answer and no failure of any
-- request made before it reaches the page, in whatever order they come.
pub cancel_silences {ℓ} :
    {A : Type ℓ} (s : Remote A) (es : List (RemoteEvent A))
    → Inv s
    → All IsSettling es
    → Unchanged (cancel s) (run (cancel s) es)
unfolding cancel
cancel_silences s es v h = idle-Unchanged (cancel s) es (cancel-Inv s v) refl h
