-- ===== src/Remote/Invariant.antt =====
-- Every load in flight but the current one has been aborted; and the page shows that it is loading
-- exactly while a foreground request is current.
use gothrough.Base.{
  ℕ, suc, ◌<◌, ◌≡◌, refl, ◌⊎◌, inl, inr, Bool, true, false, ◌&&◌, not, Option, none, some, List, [],
  ◌∷◌, All, All-map, if_intro, Bool-cases, is_some, ◌==◌, arith, if◌then◌else◌,
}
use gothrough.Messages.{Message}
use gothrough.Remote.{
  Request, Flight, Remote, Answer, RemoteEvent, mounts, unmounts, cancels, cancels_background,
  refreshes, sets_error, sets_data, sets_validator, resolves, rejects, signal, abort_flights,
  is_background, is_foreground, find_flight, land, release, initial, set_error, cancel,
  cancel_background, open_request, announce, refresh, finish, is_accepted, accept, reject, resolved,
  rejected, on_resolved, on_rejected, mount, unmount, step, run,
}

-- The number of the current request is `id`.
abbrev pub HasId : ℕ → Option Request → Type 0
HasId id none = ⊥
HasId id (some r) = r.id ≡ id

-- A flight is aborted and not current, or live and the current request.
abbrev pub Placed : Option Request → ℕ → Flight → Type 0
Placed request next f =
    (f.id < next)
    × (((f.aborted ≡ true) × (¬ HasId f.id request))
        ⊎ ((f.aborted ≡ false)
            × (request ≡ some (record { id = f.id; background = f.background }))))

pub record Inv {ℓ} {A : Type ℓ} (s : Remote A) : Type 0 where
  pub placed : All (Placed s.request s.next_id) s.flights
  pub shown : s.mounted ≡ true → s.loading ≡ is_foreground s.request
  pub unmounted : s.mounted ≡ false → s.request ≡ none

signal-Placed :
    (r : Request) (next : ℕ) (f : Flight)
    → Placed (some r) next f
    → Placed none next (signal r.id f)
signal-Placed r next f (lt, inl (a, n)) = ground arith
signal-Placed r next f (lt, inr (a, e)) = ground arith

abort_flights-Placed :
    (o : Option Request) (next : ℕ) (fs : List Flight)
    → All (Placed o next) fs
    → All (Placed none next) (abort_flights o fs)
unfolding abort_flights
abort_flights-Placed none next fs h = h
abort_flights-Placed (some r) next [] h = tt
abort_flights-Placed (some r) next (f ∷ fs) h =
    (signal-Placed r next f h.0, abort_flights-Placed (some r) next fs h.1)

open-Placed :
    (next : ℕ) (background : Bool) (f : Flight)
    → Placed none next f
    → Placed (some (record { id = next; background = background })) (suc next) f
open-Placed next background f (lt, inl (a, n)) = (omega arith, inl (a, λ e. omega arith))
open-Placed next background f (lt, inr (a, e)) = cc

release-Placed :
    (o : Option Request) (next id : ℕ) (f : Flight)
    → (f.id == id) ≡ false
    → Placed o next f
    → Placed (release id o) next f
unfolding release
release-Placed none next id f other h = h
release-Placed (some r) next id f other (lt, inl (a, n)) =
    if_intro (λ o. Placed o next f) (r.id == id) _ _ (λ _. (lt, inl (a, λ e. e)))
      (λ _. (lt, inl (a, n)))
release-Placed (some r) next id f other (lt, inr (a, e)) =
    if_intro (λ o. Placed o next f) (r.id == id) _ _ (λ same. absurd (ground arith))
      (λ _. (lt, inr (a, e)))

land-Placed :
    (o : Option Request) (next id : ℕ) (fs : List Flight)
    → All (Placed o next) fs
    → All (Placed (release id o) next) (land id fs)
unfolding land
land-Placed o next id [] h = tt
land-Placed o next id (f ∷ fs) h = elim (Bool-cases (f.id == id)) [
  | inl same ↦ rw same (land-Placed o next id fs h.1)
  | inr other ↦ rw other ((release-Placed o next id f other h.0, land-Placed o next id fs h.1))
]

-- The flight that is found stands in the list, so it is placed, and has the number asked for.
pub find_flight-Placed :
    (o : Option Request) (next id : ℕ) (fs : List Flight) (f : Flight)
    → All (Placed o next) fs
    → find_flight id fs ≡ some f
    → Placed o next f × (f.id ≡ id)
unfolding find_flight
find_flight-Placed o next id [] f h e = cc
find_flight-Placed o next id (g ∷ fs) f h e = elim (Bool-cases (g.id == id)) [
  | inl same ↦ ground (arith, same)
  | inr other ↦ find_flight-Placed o next id fs f h.1 (ground arith)
]

module _ {ℓ} {A : Type ℓ} where
  pub cancel-Inv : (s : Remote A) → Inv s → Inv (cancel s)
  unfolding cancel
  cancel-Inv s v = record {
    placed = abort_flights-Placed s.request s.next_id s.flights v.placed;
    shown = λ m. ground (arith, v.shown m);
    unmounted = λ m. refl;
  }

  cancel_background-Inv : (s : Remote A) → Inv s → Inv (cancel_background s)
  unfolding cancel_background
  cancel_background-Inv s v =
      if_intro Inv (is_background s.request) _ _
        (λ b. record {
          placed = abort_flights-Placed s.request s.next_id s.flights v.placed;
          shown = λ m. ground (arith, v.shown m);
          unmounted = λ m. refl;
        })
        (λ _. v)

  open_foreground-Inv :
      (s : Remote A)
      → All (Placed s.request s.next_id) s.flights
      → s.mounted ≡ true
      → Inv (announce false (open_request false s))
  unfolding announce open_request
  open_foreground-Inv s placed m = record {
    placed = (
      (omega arith, inr (refl, refl)),
      All-map (Placed none s.next_id) _ _ (open-Placed s.next_id false)
          (abort_flights-Placed s.request s.next_id s.flights placed),
    );
    shown = λ m. refl;
    unmounted = λ u. cc;
  }

  open_background-Inv :
      (s : Remote A)
      → Inv s
      → s.mounted ≡ true
      → s.request ≡ none
      → Inv (announce true (open_request true s))
  unfolding announce open_request
  open_background-Inv s v m idle = record {
    placed = (
      (omega arith, inr (refl, refl)),
      All-map (Placed none s.next_id) _ _ (open-Placed s.next_id true)
          (abort_flights-Placed s.request s.next_id s.flights v.placed),
    );
    shown = λ m. ground (arith, v.shown m, idle);
    unmounted = λ u. cc;
  }

  open-announce-Inv :
      (s : Remote A) (background : Bool)
      → Inv s
      → s.mounted ≡ true
      → background && is_some s.request ≡ false
      → Inv (announce background (open_request background s))
  open-announce-Inv s true v m idle = open_background-Inv s v m (ground arith)
  open-announce-Inv s false v m idle = open_foreground-Inv s v.placed m

  refresh-Inv : (background : Bool) (s : Remote A) → Inv s → Inv (refresh background s)
  unfolding refresh
  refresh-Inv background s v =
      if_intro Inv (not s.mounted) _ _ (λ _. v)
        (λ m.
          if_intro Inv (background && is_some s.request) _ _ (λ _. v)
            (λ idle. open-announce-Inv s background v (ground arith) idle))

  mount-Inv : (s : Remote A) → Inv s → Inv (mount s)
  unfolding mount refresh
  mount-Inv s v = open_foreground-Inv (record s { mounted = true }) v.placed refl

  unmount-Inv : (s : Remote A) → Inv s → Inv (unmount s)
  unfolding unmount
  unmount-Inv s v = record {
    placed = abort_flights-Placed s.request s.next_id s.flights v.placed;
    shown = λ m. cc;
    unmounted = λ m. refl;
  }

-- After the finally block of a placed flight the page still shows what is current.
shown_after :
    (o : Option Request) (next : ℕ) (f : Flight) (loading : Bool)
    → Placed o next f
    → loading ≡ is_foreground o
    → (if not f.background && (true && not f.aborted) then false else loading)
      ≡ is_foreground (release f.id o)
unfolding release
shown_after none next f loading (lt, inl (a, n)) h = ground arith
shown_after none next f loading (lt, inr (a, e)) h = cc
shown_after (some r) next f loading (lt, inl (a, n)) h = elim (Bool-cases (r.id == f.id)) [
  | inl same ↦ absurd (n (ground arith))
  | inr other ↦ ground arith
]
shown_after (some r) next f loading (lt, inr (a, e)) h = ground arith

release-none : (id : ℕ) (o : Option Request) → o ≡ none → release id o ≡ none
unfolding release
release-none id none e = refl
release-none id (some r) e = cc

module _ {ℓ} {A : Type ℓ} where
  -- The finally block of a flight that was placed.
  finish-Inv : (f : Flight) (s : Remote A) → Inv s → Placed s.request s.next_id f → Inv (finish f s)
  unfolding finish
  finish-Inv f s v p = record {
    placed = land-Placed s.request s.next_id f.id s.flights v.placed;
    shown = λ m. rw m (shown_after s.request s.next_id f s.loading p (v.shown m));
    unmounted = λ m. release-none f.id s.request (v.unmounted m);
  }

  accept-Inv : (a : Answer A) (s : Remote A) → Inv s → Inv (accept a s)
  unfolding accept
  accept-Inv a s v = record { placed = v.placed; shown = v.shown; unmounted = v.unmounted }

  reject-Inv :
      (background : Bool) (m : Message) (s : Remote A) → Inv s → Inv (reject background m s)
  unfolding reject
  reject-Inv true m s v = record { placed = v.placed; shown = v.shown; unmounted = v.unmounted }
  reject-Inv false m s v = record { placed = v.placed; shown = v.shown; unmounted = v.unmounted }

  resolved-Inv :
      (f : Flight) (a : Answer A) (s : Remote A)
      → Inv s
      → Placed s.request s.next_id f
      → Inv (resolved f a s)
  unfolding resolved
  resolved-Inv f a s v p = elim (Bool-cases (is_accepted f s)) [
    | inl y ↦ simp y (finish-Inv f (accept a s) (accept-Inv a s v) (unfold accept in p))
    | inr n ↦ simp n (finish-Inv f s v p)
  ]

  rejected-Inv :
      (f : Flight) (m : Message) (s : Remote A)
      → Inv s
      → Placed s.request s.next_id f
      → Inv (rejected f m s)
  unfolding rejected
  rejected-Inv f m s v p = elim (Bool-cases (is_accepted f s)) [
    | inl y ↦ simp y (
        finish-Inv f (reject f.background m s) (reject-Inv f.background m s v)
          (placed_reject f.background p))
    | inr n ↦ simp n (finish-Inv f s v p)
  ]
    where
      placed_reject :
          (b : Bool)
          → Placed s.request s.next_id f
          → Placed (reject b m s).request (reject b m s).next_id f
      placed_reject true h = unfold reject in h
      placed_reject false h = unfold reject in h

  on_resolved-Inv :
      (id : ℕ) (o : Option Flight) (a : Answer A) (s : Remote A)
      → Inv s
      → find_flight id s.flights ≡ o
      → Inv (on_resolved o a s)
  unfolding on_resolved
  on_resolved-Inv id none a s v e = v
  on_resolved-Inv id (some f) a s v e =
      resolved-Inv f a s v (find_flight-Placed s.request s.next_id id s.flights f v.placed e).0

  on_rejected-Inv :
      (id : ℕ) (o : Option Flight) (m : Message) (s : Remote A)
      → Inv s
      → find_flight id s.flights ≡ o
      → Inv (on_rejected o m s)
  unfolding on_rejected
  on_rejected-Inv id none m s v e = v
  on_rejected-Inv id (some f) m s v e =
      rejected-Inv f m s v (find_flight-Placed s.request s.next_id id s.flights f v.placed e).0

  pub step-Inv : (s : Remote A) (e : RemoteEvent A) → Inv s → Inv (step s e)
  unfolding step set_error
  step-Inv s mounts v = mount-Inv s v
  step-Inv s unmounts v = unmount-Inv s v
  step-Inv s cancels v = cancel-Inv s v
  step-Inv s cancels_background v = cancel_background-Inv s v
  step-Inv s (refreshes background) v = refresh-Inv background s v
  step-Inv s (sets_error m) v = record {
    placed = v.placed;
    shown = v.shown;
    unmounted = v.unmounted;
  }
  step-Inv s (sets_data a) v = record {
    placed = v.placed;
    shown = v.shown;
    unmounted = v.unmounted;
  }
  step-Inv s (sets_validator t) v = record {
    placed = v.placed;
    shown = v.shown;
    unmounted = v.unmounted;
  }
  step-Inv s (resolves id a) v = on_resolved-Inv id _ a s v refl
  step-Inv s (rejects id m) v = on_rejected-Inv id _ m s v refl

  run-Inv : (s : Remote A) (es : List (RemoteEvent A)) → Inv s → Inv (run s es)
  unfolding run
  run-Inv s [] v = v
  run-Inv s (e ∷ es) v = run-Inv (step s e) es (step-Inv s e v)

  -- Whatever is mounted, reloaded, polled, cancelled or answered, in any order: of the loads in
  -- flight all but the current one have been aborted, the page shows that it is loading exactly
  -- while a foreground request is current, and an unmounted page has no current request.
  pub run-initial-Inv : (a : A) (es : List (RemoteEvent A)) → Inv (run (initial a) es)
  run-initial-Inv a es =
      run-Inv (initial a) es (record { placed = tt; shown = λ m. cc; unmounted = λ m. refl })
