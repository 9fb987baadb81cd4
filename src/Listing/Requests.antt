-- ===== src/Listing/Requests.antt =====
-- The handlers that send requests, cancel them, or change the data keep the validator true.
use gothrough.Base.{
  ℕ, ◌≡◌, refl, sym, ap, ◌∙◌, inl, inr, Bool, true, false, ◌&&◌, ◌||◌, not, Option, none, some,
  is_some, List, [], ◌∷◌, if_intro, arith, Text,
}
use mathlib.Core.Path.{subst}
use gothrough.Messages.{Message}
use gothrough.Remote
use gothrough.Remote.{
  Request, Remote, RemoteEvent, mount, unmount, refresh, announce, open_request, cancel,
  cancel_background, set_error, is_background, initial,
}
use gothrough.Remote.Invariant
use gothrough.Remote.Invariant.{run-initial-Inv}
use gothrough.Remote.Acceptance.{Kept, rejects-Kept}
use gothrough.Listing.{
  Listing, sent_with, to_send, opening, reload, load, put_remote, mutate, cancel_load, cancel_poll,
  show_error, fail_load, leave, enter,
}
use gothrough.Listing.Honesty.{IsTagged, SentFor, Inv, Inv-Kept}

sent_with_self :
    (id : ℕ) (v : Option Text) (m : List (ℕ × Option Text)) → sent_with id ((id, v) ∷ m) ≡ v
unfolding sent_with
sent_with_self id v m = ground arith

module _ {ℓ} {A : Type ℓ} where
  -- A refresh that is not refused opens a request, and leaves data and validator.
  record Opens (background : Bool) (s t : Remote A) : Type ℓ where
    request : t.request ≡ some (record { id = s.next_id; background = background })
    same_data : t.data' ≡ s.data'
    same_validator : t.validator ≡ s.validator

  announce-Opens :
      (background : Bool) (s : Remote A)
      → Opens background s (announce background (open_request background s))
  unfolding announce open_request
  announce-Opens true s = record { request = refl; same_data = refl; same_validator = refl }
  announce-Opens false s = record { request = refl; same_data = refl; same_validator = refl }

  refresh-Opens :
      (background : Bool) (s : Remote A)
      → (not s.mounted || background && is_some s.request) ≡ false
      → Opens background s (refresh background s)
  unfolding refresh
  refresh-Opens background s h =
      if_intro (Opens background s) (not s.mounted) _ _ (λ off. absurd (ground arith))
        (λ on.
          if_intro (Opens background s) (background && is_some s.request) _ _
            (λ held. absurd (ground arith)) (λ _. announce-Opens background s))

module _ {ℓ} {A : Type ℓ} (Tagged : Text → A → Type 0) where
  Inv-Opens :
      (background : Bool) (l : Listing A) (s : Remote A)
      → Remote.Invariant.Inv s
      → Opens background l.remote s
      → IsTagged Tagged l.remote.validator l.remote.data'
      → Inv Tagged (record {
        remote = s;
        sent = (l.remote.next_id, to_send background l.remote.validator) ∷ l.sent;
      })
  Inv-Opens background l s v o tagged = record {
    remote = v;
    tagged =
        subst (λ w. IsTagged Tagged w s.data') (sym o.same_validator)
          (subst (IsTagged Tagged l.remote.validator) (sym o.same_data) tagged);
    matched =
        subst
          (λ q.
            SentFor Tagged q s.validator
              ((l.remote.next_id, to_send background l.remote.validator) ∷ l.sent))
          (sym o.request)
          (sent_with_self l.remote.next_id (to_send background l.remote.validator) l.sent
            ∙ ap (to_send background) (sym o.same_validator));
  }

  pub load-Inv : (background : Bool) (l : Listing A) → Inv Tagged l → Inv Tagged (load background l)
  unfolding load reload Remote.step
  load-Inv background l h =
      if_intro (Inv Tagged) (not l.remote.mounted || background && is_some l.remote.request) _ _
        (λ _. h)
        (λ go.
          Inv-Opens background l _
            (Remote.Invariant.step-Inv l.remote (RemoteEvent.refreshes background) h.remote)
            (refresh-Opens background l.remote go) h.tagged)

  pub enter-Inv : (l : Listing A) → Inv Tagged l → Inv Tagged (enter l)
  unfolding Remote.step mount
  enter-Inv l h =
      Inv-Opens false (put_remote l (record l.remote { mounted = true })) _
        (Remote.Invariant.step-Inv l.remote RemoteEvent.mounts h.remote)
        (refresh-Opens false (record l.remote { mounted = true }) refl) h.tagged

  pub cancel_load-Inv : (l : Listing A) → Inv Tagged l → Inv Tagged (cancel_load l)
  unfolding Remote.step cancel
  cancel_load-Inv l h =
      Inv-Kept Tagged l _ (Remote.Invariant.step-Inv l.remote RemoteEvent.cancels h.remote)
        (record { request = inr refl; same_data = refl; same_validator = refl }) h

  pub cancel_poll-Inv : (l : Listing A) → Inv Tagged l → Inv Tagged (cancel_poll l)
  unfolding Remote.step cancel_background
  cancel_poll-Inv l h =
      Inv-Kept Tagged l _
        (Remote.Invariant.step-Inv l.remote RemoteEvent.cancels_background h.remote)
        (if_intro (Kept l.remote) (is_background l.remote.request) _ _
          (λ _. record { request = inr refl; same_data = refl; same_validator = refl })
          (λ _. record { request = inl refl; same_data = refl; same_validator = refl }))
        h

  pub show_error-Inv : (m : Message) (l : Listing A) → Inv Tagged l → Inv Tagged (show_error m l)
  unfolding Remote.step set_error
  show_error-Inv m l h =
      Inv-Kept Tagged l _ (Remote.Invariant.step-Inv l.remote (RemoteEvent.sets_error m) h.remote)
        (record { request = inl refl; same_data = refl; same_validator = refl }) h

  pub fail_load-Inv :
      (id : ℕ) (m : Message) (l : Listing A) → Inv Tagged l → Inv Tagged (fail_load id m l)
  fail_load-Inv id m l h =
      Inv-Kept Tagged l _ (Remote.Invariant.step-Inv l.remote (RemoteEvent.rejects id m) h.remote)
        (rejects-Kept l.remote id m) h

  pub leave-Inv : (l : Listing A) → Inv Tagged l → Inv Tagged (leave l)
  unfolding Remote.step unmount
  leave-Inv l h =
      Inv-Kept Tagged l _ (Remote.Invariant.step-Inv l.remote RemoteEvent.unmounts h.remote)
        (record { request = inr refl; same_data = refl; same_validator = refl }) h

  -- While no poll is current the page may change its data, and forgets the validator.
  SentFor-forgotten :
      (o : Option Request) (v : Option Text) (sent : List (ℕ × Option Text))
      → is_background o ≡ false
      → SentFor Tagged o v sent
      → SentFor Tagged o none sent
  SentFor-forgotten none v sent b h = tt
  SentFor-forgotten (some r) v sent b h =
      h ∙ ap (λ x. to_send x v) b ∙ ap (λ x. to_send x none) (sym b)

  pub mutate-Inv :
      (f : A → A) (l : Listing A)
      → is_background l.remote.request ≡ false
      → Inv Tagged l
      → Inv Tagged (mutate f l)
  unfolding mutate Remote.step
  mutate-Inv f l b h = record {
    remote =
        Remote.Invariant.step-Inv (record l.remote { data' = f l.remote.data' })
          (RemoteEvent.sets_validator none)
          (Remote.Invariant.step-Inv l.remote (RemoteEvent.sets_data (f l.remote.data')) h.remote);
    tagged = tt;
    matched = SentFor-forgotten l.remote.request l.remote.validator l.sent b h.matched;
  }

  pub opening-Inv : (a : A) → Inv Tagged (opening a)
  unfolding Remote.run
  opening-Inv a = record { remote = run-initial-Inv a []; tagged = tt; matched = tt }

  -- A reload from the page itself is no poll.
  pub load-NoPoll :
      (l : Listing A)
      → is_background l.remote.request ≡ false
      → is_background (load false l).remote.request ≡ false
  unfolding load reload Remote.step
  load-NoPoll l h =
      if_intro (λ (m : Listing A). is_background m.remote.request ≡ false)
        (not l.remote.mounted || false && is_some l.remote.request) _ _ (λ _. h)
        (λ go. ap is_background (Opens.request (refresh-Opens false l.remote go)))

  unmounted-NoPoll :
      (l : Listing A)
      → Remote.Invariant.Inv l.remote
      → l.remote.mounted ≡ false
      → is_background l.remote.request ≡ false
  unmounted-NoPoll l v off = ap is_background (v.unmounted off)

  -- Forgetting the validator is safe where a reload follows at once, which takes the poll's place.
  pub forget-load-Inv : (l : Listing A) → Inv Tagged l → Inv Tagged (load false (mutate (λ a. a) l))
  unfolding load reload mutate Remote.step
  forget-load-Inv l h =
      if_intro (Inv Tagged) (not l.remote.mounted || false && is_some l.remote.request) _ _
        (λ off. mutate-Inv (λ a. a) l (unmounted-NoPoll l h.remote (ground arith)) h)
        (λ go.
          Inv-Opens false (mutate (λ a. a) l) _
            (Remote.Invariant.step-Inv (mutate (λ a. a) l).remote (RemoteEvent.refreshes false) (
              Remote.Invariant.step-Inv (record l.remote { data' = l.remote.data' })
                (RemoteEvent.sets_validator none)
                (Remote.Invariant.step-Inv l.remote (RemoteEvent.sets_data l.remote.data')
                  h.remote)))
            (refresh-Opens false (mutate (λ a. a) l).remote go) tt)
