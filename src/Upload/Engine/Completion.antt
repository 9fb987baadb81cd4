-- ===== src/Upload/Engine/Completion.antt =====
-- What the invariant says of a transfer that asks the server to publish its file.
use gothrough.Base.{
  ℕ, ◌+◌, ◌≤◌, ◌<◌, ◌≡◌, refl, ap, ◌∙◌, inl, inr, Bool, true, false, Option, none, List, [], ◌∷◌,
  length, every, is_some, All, sum_below, count, bit, ltb, arith, Text,
}
use gothrough.Upload.Types.{UploadItem, UploadController}
use gothrough.Upload.Engine.State.{Phase, returned, thrown, Main, resumed, done, Transfer}
use gothrough.Upload.Engine.Workers.{bytes_of}
use gothrough.Upload.Engine.Protocol.{Event, is_ended, confirming, begin, run}
use gothrough.Upload.Engine.Ledger.{Fits, held}
use gothrough.Upload.Engine.Invariant.{LedgerOf, Inv, Stage, is_configured}
use gothrough.Upload.Engine.Steps.{run-Inv, begin-Inv}
use gothrough.Upload.Engine.Chunks.{chunks_cover, sum_of-sum_below}

-- The body is past Promise.allSettled and has not thrown.
abbrev pub is_past : Main → Bool
is_past Main.waiting = true
is_past resumed = true
is_past Main.completing = true
is_past done = true
is_past _ = false

-- Workers that have all ended hold no chunk.
held-ended : (i : ℕ) (ws : List Phase) → every is_ended ws ≡ true → held i ws ≡ 0
held-ended i [] h = refl
held-ended i (returned ∷ ws) h = omega (arith, held-ended i ws h)
held-ended i (thrown ∷ ws) h = omega (arith, held-ended i ws h)
held-ended i (_ ∷ ws) h = cc

-- A first worker that ended without a failure found no chunk left.
none_left :
    (total next : ℕ) (ws : List Phase)
    → 0 < length ws
    → every is_ended ws ≡ true
    → All (Fits total next false) ws
    → total ≤ next
none_left total next [] h e f = elim h [ ]
none_left total next (returned ∷ ws) h e f = f.0
none_left total next (thrown ∷ ws) h e f = cc f.0
none_left total next (_ ∷ ws) h e f = cc

module _ (s : Transfer) (v : Inv s) (no_failure : is_some s.failure ≡ false)
    (ended : every is_ended s.workers ≡ true) where
  ledger : LedgerOf s false s.workers
  ledger = rw no_failure at v.ledger

  all_taken : s.session.total_chunks ≤ s.next_chunk_index
  all_taken = elim v.ledger.staffed [
    | inl e ↦ omega arith
    | inr h ↦ none_left _ _ s.workers h ended ledger.fits
  ]

  pub all_confirmed : (i : ℕ) → count i s.item.confirmed_chunks ≡ bit (ltb i s.session.total_chunks)
  all_confirmed i =
      let e : s.next_chunk_index ≡ s.session.total_chunks =
        omega (arith, all_taken, v.ledger.capped) in
      ground (arith, ledger.exact refl i, held-ended i s.workers ended)

past_facts :
    (m : Main) (failed : Bool) (ws : List Phase) (c : List ℕ) (b : ℕ)
    → is_past m ≡ true
    → Stage m failed ws c b
    → (failed ≡ false) × (every is_ended ws ≡ true) × (is_configured m ≡ true)
past_facts Main.waiting failed ws c b h st = (st.0, st.1, refl)
past_facts resumed failed ws c b h st = (st.0, st.1, refl)
past_facts Main.completing failed ws c b h st = (st.0, st.1, refl)
past_facts done failed ws c b h st = (st.0, st.1, refl)
past_facts _ failed ws c b h st = cc

module _ (date_parse : Text → Option ℕ) (item : UploadItem) (controller : UploadController)
    (stopped paused : Bool) (fresh : confirming item ≡ none) (es : List Event) where
  reached : Inv (run date_parse (begin item controller stopped paused) es)
  reached = run-Inv date_parse _ es (begin-Inv item controller stopped paused fresh)

  -- Whatever the server and the user do, a transfer that started afresh and has reached the
  -- publication of its file has had each chunk of the session acknowledged, once, no other
  -- number, and the acknowledged bytes are those of the whole file.
  pub publish-needs-every_chunk :
      let t = run date_parse (begin item controller stopped paused) es in
      is_past t.main ≡ true
      → ((i : ℕ) → count i t.item.confirmed_chunks ≡ bit (ltb i t.session.total_chunks))
        × (t.item.confirmed_bytes ≡ t.item.file.size)
  publish-needs-every_chunk h =
      let t = run date_parse (begin item controller stopped paused) es in
      let v = reached in
      let (calm, ended, good) = past_facts t.main _ t.workers _ _ h v.stage in
      let each = all_confirmed t v calm ended in
      let numbers = v.configured good in
      (
        each,
        v.ledger.summed
            ∙ sum_of-sum_below (bytes_of t) t.session.total_chunks t.item.confirmed_chunks each
            ∙ ap (sum_below (bytes_of t)) numbers.1
            ∙ chunks_cover t.item.file.size t.session.chunk_size numbers.0,
      )

  -- At no time do two workers send the same chunk, nor does one send an acknowledged chunk, and
  -- only chunks that were handed out are sent or acknowledged; the displayed bytes stay within
  -- the file.
  pub chunk-in-one_place :
      let t = run date_parse (begin item controller stopped paused) es in
      ((i : ℕ)
        → held i t.workers + count i t.item.confirmed_chunks ≤ bit (ltb i t.next_chunk_index))
      × (t.next_chunk_index ≤ t.session.total_chunks)
      × (t.item.loaded_bytes ≤ t.item.file.size)
  chunk-in-one_place = (reached.ledger.once, reached.ledger.capped, reached.loaded)
