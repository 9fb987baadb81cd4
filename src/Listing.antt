-- ===== src/Listing.antt =====
-- services/conditional.ts with the loaders of the pages: a list that is polled with its validator.
pub mod Honesty
pub mod Requests
use gothrough.Base.{
  ℕ, ◌≡◌, Bool, true, false, ◌&&◌, ◌||◌, not, Option, none, some, is_some, List, [], ◌∷◌,
  if◌then◌else◌, ◌==◌, ltb, leb, Text, is_empty,
}
use gothrough.Messages.{Message}
use gothrough.Remote
use gothrough.Remote.{
  Remote, Answer, RemoteEvent, resolves, rejects, refreshes, cancels, cancels_background, mounts,
  unmounts, sets_error, initial,
}

-- A response as the browser's HTTP client reports it, with its etag header.
pub record Response {ℓ} (A : Type ℓ) : Type ℓ where
  pub status : ℕ
  pub etag : Option Text
  pub body : A

pub data ConditionalResult {ℓ} (A : Type ℓ) : Type ℓ where
  not_modified : Option Text → ConditionalResult A
  modified : A → Option Text → ConditionalResult A

-- An etag is sent where it is a text that is not empty.
abbrev pub is_sent : Option Text → Bool
is_sent none = false
is_sent (some e) = not (is_empty e)

-- `nextEtag ?? etag`
abbrev pub or_sent : Option Text → Option Text → Option Text
or_sent none sent = sent
or_sent (some e) sent = some e

abbrev pub is_valid_status : Option Text → ℕ → Bool
is_valid_status sent status = (leb 200 status && ltb status 300) || (status == 304 && is_sent sent)

module _ {ℓ} {A : Type ℓ} where
  -- conditionalGet; the client rejects where validateStatus refuses.
  unfoldable pub conditional_get : Option Text → Response A → Option (ConditionalResult A)
  conditional_get sent r =
      if not (is_valid_status sent r.status)
      then none
      else if r.status == 304
      then some (not_modified (or_sent r.etag sent))
      else some (modified r.body r.etag)

  -- listFiles and loadFiles, and listClipboard and loadEntries: `onAccepted` keeps the etag.
  unfoldable pub to_answer : ConditionalResult A → Answer A
  to_answer (not_modified etag) = record { result = none; commit = some etag }
  to_answer (modified a etag) = record { result = some a; commit = some etag }

-- `sent` holds the etag that each request was sent with, newest first.
pub record Listing {ℓ} (A : Type ℓ) : Type ℓ where
  pub remote : Remote A
  pub sent : List (ℕ × Option Text)

unfoldable pub sent_with : ℕ → List (ℕ × Option Text) → Option Text
sent_with id [] = none
sent_with id ((j, v) ∷ m) = if j == id then v else sent_with id m

-- `context?.background ? etag.current : undefined`
abbrev pub to_send : Bool → Option Text → Option Text
to_send true v = v
to_send false v = none

module _ {ℓ} {A : Type ℓ} where
  abbrev pub opening : A → Listing A
  opening a = record { remote = initial a; sent = [] }

  -- refresh, with the loader's request
  unfoldable pub reload : Bool → Listing A → Listing A
  reload background l = record {
    remote = Remote.step l.remote (refreshes background);
    sent = (l.remote.next_id, to_send background l.remote.validator) ∷ l.sent;
  }

  unfoldable pub load : Bool → Listing A → Listing A
  load background l =
      if not l.remote.mounted || background && is_some l.remote.request
      then l
      else reload background l

  abbrev pub put_remote : Listing A → Remote A → Listing A
  put_remote l s = record l { remote = s }

  unfoldable pub answered : ℕ → Message → Option (ConditionalResult A) → Listing A → Listing A
  answered id failure none l = put_remote l (Remote.step l.remote (rejects id failure))
  answered id failure (some result) l =
      put_remote l (Remote.step l.remote (resolves id (to_answer result)))

  -- A response to a request; `failure` is the message where its status is refused.
  unfoldable pub respond : ℕ → Response A → Message → Listing A → Listing A
  respond id r failure l = answered id failure (conditional_get (sent_with id l.sent) r) l

  -- The page changes its data after a mutation, and forgets the validator.
  unfoldable pub mutate : (A → A) → Listing A → Listing A
  mutate f l = put_remote l (record l.remote { data' = f l.remote.data'; validator = none })

  -- The other handlers of the remote data, which send no request.
  abbrev pub cancel_load : Listing A → Listing A
  cancel_load l = put_remote l (Remote.step l.remote cancels)

  abbrev pub cancel_poll : Listing A → Listing A
  cancel_poll l = put_remote l (Remote.step l.remote cancels_background)

  abbrev pub show_error : Message → Listing A → Listing A
  show_error m l = put_remote l (Remote.step l.remote (sets_error m))

  abbrev pub fail_load : ℕ → Message → Listing A → Listing A
  fail_load id m l = put_remote l (Remote.step l.remote (rejects id m))

  abbrev pub leave : Listing A → Listing A
  leave l = put_remote l (Remote.step l.remote unmounts)

  -- The effect that mounts the page sends the first request.
  abbrev pub enter : Listing A → Listing A
  enter l = record {
    remote = Remote.step l.remote mounts;
    sent = (l.remote.next_id, none) ∷ l.sent;
  }
