-- ===== src/Remote/Acceptance.antt =====
-- What an answer does to the page: nothing, or it is the current request's and is accepted whole.
use gothrough.Base.{
  ℕ, ◌≡◌, refl, sym, ap, ◌∙◌, ◌⊎◌, inl, inr, Bool, true, false, Option, none, some, Bool-cases,
  arith, ◌==◌, if_intro,
}
use mathlib.Core.Path.{subst}
use mathlib.Core.Bool.{true≢false}
use gothrough.Messages.{Message}
use gothrough.Remote.{
  Request, Flight, Remote, Answer, resolves, rejects, find_flight, release, or_keep, finish,
  is_accepted, accept, reject, resolved, rejected, on_resolved, on_rejected, step,
}
use gothrough.Remote.Invariant.{HasId, Placed, Inv, find_flight-Placed}
use gothrough.Remote.Staleness.{Unchanged, step_stale}

release_self : (id : ℕ) (b : Bool) → release id (some (record { id = id; background = b })) ≡ none
unfolding release
release_self id b = ground arith

release-cases : (id : ℕ) (o : Option Request) → (release id o ≡ o) ⊎ (release id o ≡ none)
unfolding release
release-cases id none = inl refl
release-cases id (some r) =
    if_intro (λ o. (o ≡ some r) ⊎ (o ≡ none)) (r.id == id) _ _ (λ _. inr refl) (λ _. inl refl)

HasId-cases : (id : ℕ) (o : Option Request) → HasId id o ⊎ (¬ HasId id o)
HasId-cases id none = inr (λ x. x)
HasId-cases id (some r) = elim (Bool-cases (r.id == id)) [
  | inl same ↦ inl (ground arith)
  | inr other ↦ inr (λ e. ground arith)
]

module _ {ℓ} {A : Type ℓ} where
  pub record Accepted (s : Remote A) (id : ℕ) (a : Answer A) (t : Remote A) : Type ℓ where
    pub background : Bool
    pub at : s.request ≡ some (record { id = id; background = background })
    pub released : t.request ≡ none
    pub taken : t.data' ≡ or_keep a.result s.data'
    pub committed : t.validator ≡ or_keep a.commit s.validator

  -- The request is as it was, or there is none; the data and the validator are as they were.
  pub record Kept (s t : Remote A) : Type ℓ where
    pub request : (t.request ≡ s.request) ⊎ (t.request ≡ none)
    pub same_data : t.data' ≡ s.data'
    pub same_validator : t.validator ≡ s.validator

  Kept-Unchanged : (s t : Remote A) → Unchanged s t → Kept s t
  Kept-Unchanged s t u = record {
    request = inl u.same_request;
    same_data = u.same_data;
    same_validator = u.same_validator;
  }

  mounted_of : (s : Remote A) (r : Request) → Inv s → s.request ≡ some r → s.mounted ≡ true
  mounted_of s r v at = elim (Bool-cases s.mounted) [
    | inl m ↦ m
    | inr m ↦ absurd (some_none s.request (v.unmounted m) at)
  ]
    where
      some_none : (o : Option Request) → o ≡ none → o ≡ some r → ⊥
      some_none o p q = cc

  resolved-Accepted :
      (s : Remote A) (f : Flight) (a : Answer A)
      → Inv s
      → f.aborted ≡ false
      → s.request ≡ some (record { id = f.id; background = f.background })
      → Accepted s f.id a (resolved f a s)
  unfolding resolved finish accept
  resolved-Accepted s f a v live at =
      if_intro (λ t. Accepted s f.id a (finish f t)) (is_accepted f s) _ _
        (λ _. record {
          background = f.background;
          at = at;
          released = ap (release f.id) at ∙ release_self f.id f.background;
          taken = refl;
          committed = refl;
        })
        (λ no. absurd (true≢false (sym (ground (arith, mounted_of s _ v at)) ∙ no)))

  live_Accepted :
      (s : Remote A) (f : Flight) (a : Answer A)
      → Inv s
      → Placed s.request s.next_id f
      → HasId f.id s.request
      → Accepted s f.id a (resolved f a s)
  live_Accepted s f a v (lt, inl (gone, other)) h = absurd (other h)
  live_Accepted s f a v (lt, inr (live, at)) h = resolved-Accepted s f a v live at

  reject-Kept :
      (b : Bool) (m : Message) (f : Flight) (s : Remote A) → Kept s (finish f (reject b m s))
  unfolding reject finish
  reject-Kept true m f s = record {
    request = release-cases f.id s.request;
    same_data = refl;
    same_validator = refl;
  }
  reject-Kept false m f s = record {
    request = release-cases f.id s.request;
    same_data = refl;
    same_validator = refl;
  }

  on_rejected-Kept : (s : Remote A) (m : Message) (o : Option Flight) → Kept s (on_rejected o m s)
  unfolding on_rejected rejected finish
  on_rejected-Kept s m none = record { request = inl refl; same_data = refl; same_validator = refl }
  on_rejected-Kept s m (some f) =
      if_intro (λ (t : Remote A). Kept s (finish f t)) (is_accepted f s) _ _
        (λ _. reject-Kept f.background m f s)
        (λ _. record {
          request = release-cases f.id s.request;
          same_data = refl;
          same_validator = refl;
        })

  on_resolved-cases :
      (s : Remote A) (id : ℕ) (a : Answer A) (o : Option Flight)
      → Inv s
      → find_flight id s.flights ≡ o
      → HasId id s.request
      → Kept s (on_resolved o a s) ⊎ Accepted s id a (on_resolved o a s)
  unfolding on_resolved
  on_resolved-cases s id a none v e h = inl (
      Kept-Unchanged s s (record {
        same_data = refl;
        same_validator = refl;
        same_action_error = refl;
        same_load_error = refl;
        same_background_error = refl;
        same_loading = refl;
        same_request = refl;
      }))
  on_resolved-cases s id a (some f) v e h =
      let (p, same) = find_flight-Placed s.request s.next_id id s.flights f v.placed e in
      inr (subst (λ n. Accepted s n a (resolved f a s)) same (live_Accepted s f a v p (rw same h)))

  -- An answer of the current request is accepted whole; any other leaves the page as it is.
  pub resolves-cases :
      (s : Remote A) (id : ℕ) (a : Answer A)
      → Inv s
      → Kept s (step s (resolves id a)) ⊎ Accepted s id a (step s (resolves id a))
  unfolding step
  resolves-cases s id a v = elim (HasId-cases id s.request) [
    | inl here ↦ on_resolved-cases s id a (find_flight id s.flights) v refl here
    | inr stale ↦
        inl
          (Kept-Unchanged s (step s (resolves id a)) (step_stale s (resolves id a) id v stale refl))
  ]

  pub rejects-Kept : (s : Remote A) (id : ℕ) (m : Message) → Kept s (step s (rejects id m))
  unfolding step
  rejects-Kept s id m = on_rejected-Kept s m (find_flight id s.flights)
