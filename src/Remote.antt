-- ===== src/Remote.antt =====
-- hooks/useRemoteData.ts: data that is loaded, reloaded and polled, where only the latest request
-- may update the page.
pub mod Invariant
pub mod Staleness
pub mod Acceptance
use gothrough.Base.{
  ℕ, suc, ◌+◌, ◌≡◌, Bool, true, false, ◌&&◌, not, Option, none, some, List, [], ◌∷◌, map, keep,
  is_some, ◌==◌, if◌then◌else◌, Text,
}
use gothrough.Messages.{Message, plain}

-- An AbortController is known by the number of its request.
pub record Request : Type 0 where
  pub id : ℕ
  pub background : Bool

-- A call of `load` that has not settled: its controller's signal is `aborted`.
pub record Flight : Type 0 where
  pub id : ℕ
  pub background : Bool
  pub aborted : Bool

-- `validator` is what the pages keep in `etag.current` and change in `onAccepted`.
pub record Remote {ℓ} (A : Type ℓ) : Type ℓ where
  pub data' : A
  pub loading : Bool
  pub action_error : Message
  pub load_error : Message
  pub background_error : Message
  pub mounted : Bool
  pub request : Option Request
  pub flights : List Flight
  pub next_id : ℕ
  pub validator : Option Text

-- What a load resolves to: NOT_MODIFIED is none. `commit` is the validator that an accepted
-- answer writes, where its load registered one.
pub record Answer {ℓ} (A : Type ℓ) : Type ℓ where
  pub result : Option A
  pub commit : Option (Option Text)

abbrev pub no_message : Message
no_message = plain []

abbrev pub signal : ℕ → Flight → Flight
signal id f = if f.id == id then record f { aborted = true } else f

-- `request.current?.controller.abort()`
unfoldable pub abort_flights : Option Request → List Flight → List Flight
abort_flights none fs = fs
abort_flights (some r) fs = map (signal r.id) fs

abbrev pub is_background : Option Request → Bool
is_background none = false
is_background (some r) = r.background

abbrev pub is_foreground : Option Request → Bool
is_foreground none = false
is_foreground (some r) = not r.background

unfoldable pub find_flight : ℕ → List Flight → Option Flight
find_flight id [] = none
find_flight id (f ∷ fs) = if f.id == id then some f else find_flight id fs

unfoldable pub land : ℕ → List Flight → List Flight
land id fs = keep (λ (f : Flight). not (f.id == id)) fs

-- `if (request.current?.controller === controller) request.current = null`
unfoldable pub release : ℕ → Option Request → Option Request
release id none = none
release id (some r) = if r.id == id then none else some r

abbrev pub or_keep {κ} : {B : Type κ} → Option B → B → B
or_keep none b = b
or_keep (some c) b = c

module _ {ℓ} {A : Type ℓ} where
  -- The state before the first effect runs.
  abbrev pub initial : A → Remote A
  initial a = record {
    data' = a;
    loading = true;
    action_error = no_message;
    load_error = no_message;
    background_error = no_message;
    mounted = false;
    request = none;
    flights = [];
    next_id = 0;
    validator = none;
  }

  unfoldable pub set_error : Message → Remote A → Remote A
  set_error m s = record s { action_error = m; load_error = no_message }

  unfoldable pub cancel : Remote A → Remote A
  cancel s = record s {
    flights = abort_flights s.request s.flights;
    request = none;
    loading = if s.mounted then false else s.loading;
  }

  unfoldable pub cancel_background : Remote A → Remote A
  cancel_background s =
      if is_background s.request
      then record s { flights = abort_flights s.request s.flights; request = none }
      else s

  -- A new request, in place of the current one.
  unfoldable pub open_request : Bool → Remote A → Remote A
  open_request background s = record s {
    flights =
        record { id = s.next_id; background = background; aborted = false }
        ∷ abort_flights s.request s.flights;
    request = some (record { id = s.next_id; background = background });
    next_id = suc s.next_id;
  }

  unfoldable pub announce : Bool → Remote A → Remote A
  announce true s = s
  announce false s = record s {
    loading = true;
    action_error = no_message;
    load_error = no_message;
    background_error = no_message;
  }

  -- refresh, up to the call of `load`
  unfoldable pub refresh : Bool → Remote A → Remote A
  refresh background s =
      if not s.mounted
      then s
      else if background && is_some s.request
      then s
      else announce background (open_request background s)

  -- The finally block of a request.
  unfoldable pub finish : Flight → Remote A → Remote A
  finish f s = record s {
    flights = land f.id s.flights;
    request = release f.id s.request;
    loading = if not f.background && (s.mounted && not f.aborted) then false else s.loading;
  }

  abbrev pub is_accepted : Flight → Remote A → Bool
  is_accepted f s = s.mounted && not f.aborted

  -- The page takes over an accepted answer.
  unfoldable pub accept : Answer A → Remote A → Remote A
  accept a s = record s {
    data' = or_keep a.result s.data';
    validator = or_keep a.commit s.validator;
    load_error = no_message;
    background_error = no_message;
  }

  pub reject : Bool → Message → Remote A → Remote A
  reject true m s = record s { background_error = m }
  reject false m s = record s { load_error = m }

  -- A load that resolves or rejects; the error comes as the message made of it.
  unfoldable pub resolved : Flight → Answer A → Remote A → Remote A
  resolved f a s = finish f (if is_accepted f s then accept a s else s)

  pub rejected : Flight → Message → Remote A → Remote A
  rejected f m s = finish f (if is_accepted f s then reject f.background m s else s)

  unfoldable pub on_resolved : Option Flight → Answer A → Remote A → Remote A
  on_resolved none a s = s
  on_resolved (some f) a s = resolved f a s

  pub on_rejected : Option Flight → Message → Remote A → Remote A
  on_rejected none m s = s
  on_rejected (some f) m s = rejected f m s

  unfoldable pub mount : Remote A → Remote A
  mount s = refresh false (record s { mounted = true })

  unfoldable pub unmount : Remote A → Remote A
  unmount s = record s {
    mounted = false;
    flights = abort_flights s.request s.flights;
    request = none;
  }

pub data RemoteEvent {ℓ} (A : Type ℓ) : Type ℓ where
  mounts unmounts cancels cancels_background : RemoteEvent A
  refreshes : Bool → RemoteEvent A
  sets_error : Message → RemoteEvent A
  -- the page changes the data itself, after a mutation
  sets_data : A → RemoteEvent A
  sets_validator : Option Text → RemoteEvent A
  resolves : ℕ → Answer A → RemoteEvent A
  rejects : ℕ → Message → RemoteEvent A

module _ {ℓ} {A : Type ℓ} where
  unfoldable pub step : Remote A → RemoteEvent A → Remote A
  step s mounts = mount s
  step s unmounts = unmount s
  step s cancels = cancel s
  step s cancels_background = cancel_background s
  step s (refreshes background) = refresh background s
  step s (sets_error m) = set_error m s
  step s (sets_data a) = record s { data' = a }
  step s (sets_validator v) = record s { validator = v }
  step s (resolves id a) = on_resolved (find_flight id s.flights) a s
  step s (rejects id m) = on_rejected (find_flight id s.flights) m s

  unfoldable pub run : Remote A → List (RemoteEvent A) → Remote A
  run s [] = s
  run s (e ∷ es) = run (step s e) es
