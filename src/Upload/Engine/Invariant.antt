-- ===== src/Upload/Engine/Invariant.antt =====
-- What holds of a transfer between two turns of the event loop, and why each turn keeps it.
use gothrough.Base.{
  ℕ, zero, suc, ◌≤◌, ◌<◌, ◌≡◌, refl, Bool, true, false, Option, none, some, List, [], ◌∷◌,
  get_elem?, set, every, is_some, ltb, if_intro, arith,
}
use gothrough.Upload.Engine.State.{
  Failure, upload_cancelled, Phase, waiting, entering, returned, thrown, Main, transferring, threw,
  Transfer, is_inactive, or_else,
}
use gothrough.Upload.Engine.Workers.{bytes_of, throw, wait_for_resume, loop_top}
use gothrough.Upload.Engine.Protocol.{is_ended, chunk_count}
use gothrough.Upload.Engine.Ledger.{Ledger, Fits, carries}

abbrev pub LedgerOf : Transfer → Bool → List Phase → Type 0
LedgerOf s failed workers =
    Ledger (bytes_of s) s.session.total_chunks s.next_chunk_index failed workers
      s.item.confirmed_chunks s.item.confirmed_bytes

-- What the body's place tells: before initUpload answers nothing has happened, and past
-- Promise.allSettled every worker has ended and none has failed.
abbrev pub Stage : Main → Bool → List Phase → List ℕ → ℕ → Type 0
Stage Main.initializing failed workers confirmed bytes =
    (workers ≡ []) × (confirmed ≡ []) × (bytes ≡ 0)
Stage transferring failed workers confirmed bytes = Unit
Stage (threw e) failed workers confirmed bytes = Unit
Stage _ failed workers confirmed bytes = (failed ≡ false) × (every is_ended workers ≡ true)

abbrev pub is_working : Main → Bool
is_working transferring = true
is_working (threw e) = true
is_working _ = false

-- From Promise.allSettled on, unless it has thrown, the session's numbers have been checked.
abbrev pub is_configured : Main → Bool
is_configured Main.initializing = false
is_configured (threw e) = false
is_configured _ = true

abbrev pub Configured : Transfer → Type 0
Configured s =
    is_configured s.main ≡ true
    → (0 < s.session.chunk_size)
      × (s.session.total_chunks ≡ chunk_count s.item.file.size s.session.chunk_size)

pub record Inv (s : Transfer) : Type 0 where
  pub ledger : LedgerOf s (is_some s.failure) s.workers
  pub loaded : s.item.loaded_bytes ≤ s.item.file.size
  pub configured : Configured s
  pub stage :
      Stage s.main (is_some s.failure) s.workers s.item.confirmed_chunks s.item.confirmed_bytes

is_some-or_else : (f : Option Failure) (e : Failure) → is_some (or_else f e) ≡ true
is_some-or_else none e = refl
is_some-or_else (some _) e = refl

-- A list with a worker that has not ended has not ended.
every-is_ended :
    (ws : List Phase) (k : ℕ) (p : Phase)
    → get_elem? ws k ≡ some p
    → is_ended p ≡ false
    → every is_ended ws ≡ false
every-is_ended [] k p e h = cc
every-is_ended (w ∷ ws) zero p e h = ground arith
every-is_ended (w ∷ ws) (suc k) p e h = ground (arith, every-is_ended ws k p e h)

-- While a worker is live, the body still awaits the workers.
Stage-live :
    (m : Main) (failed : Bool) (ws : List Phase) (c : List ℕ) (b k : ℕ) (p : Phase)
    → Stage m failed ws c b
    → get_elem? ws k ≡ some p
    → is_ended p ≡ false
    → is_working m ≡ true
Stage-live Main.initializing failed [] c b k p st e h = cc
Stage-live Main.initializing failed (w ∷ ws) c b k p st e h = cc st.0
Stage-live transferring failed ws c b k p st e h = refl
Stage-live (threw x) failed ws c b k p st e h = refl
Stage-live _ failed ws c b k p st e h = cc (st.1, every-is_ended ws k p e h)

pub live-working :
    {s : Transfer} (v : Inv s) (k : ℕ) (p : Phase)
    → get_elem? s.workers k ≡ some p
    → is_ended p ≡ false
    → is_working s.main ≡ true
live-working {s} v k p e h = Stage-live s.main _ s.workers _ _ k p v.stage e h

-- There the stage says nothing.
pub working-Stage :
    (m : Main) (failed : Bool) (ws : List Phase) (c : List ℕ) (b : ℕ)
    → is_working m ≡ true
    → Stage m failed ws c b
working-Stage Main.initializing failed ws c b h = cc
working-Stage transferring failed ws c b h = tt
working-Stage (threw x) failed ws c b h = tt
working-Stage _ failed ws c b h = cc

module _ (s : Transfer) (k : ℕ) (small : s.item.loaded_bytes ≤ s.item.file.size)
    (now : is_working s.main ≡ true) (conf : Configured s) where
  pub throw-Inv : (e : Failure) → LedgerOf s true (set s.workers k thrown) → Inv (throw k e s)
  unfolding throw
  throw-Inv e L = record {
    ledger = rw (is_some-or_else s.failure e) L;
    loaded = small;
    configured = conf;
    stage = working-Stage s.main _ _ _ _ now;
  }

  pub wait_for_resume-Inv :
      (park go : Phase)
      → LedgerOf s (is_some s.failure) (set s.workers k park)
      → LedgerOf s (is_some s.failure) (set s.workers k go)
      → LedgerOf s true (set s.workers k thrown)
      → Inv (wait_for_resume k park go s)
  unfolding wait_for_resume
  wait_for_resume-Inv park go at_park at_go at_throw =
      if_intro Inv (is_inactive s) _ _ (λ stop. throw-Inv upload_cancelled at_throw)
        (λ on.
          if_intro Inv s.paused _ _
            (λ p. record {
              ledger = at_park;
              loaded = small;
              configured = conf;
              stage = working-Stage s.main _ _ _ _ now;
            })
            (λ p. record {
              ledger = at_go;
              loaded = small;
              configured = conf;
              stage = working-Stage s.main _ _ _ _ now;
            }))

  pub loop_top-Inv :
      ((q : Phase)
        → ((i : ℕ) → carries i q ≡ 0)
        → Fits s.session.total_chunks s.next_chunk_index (is_some s.failure) q
        → LedgerOf s (is_some s.failure) (set s.workers k q))
      → LedgerOf s true (set s.workers k thrown)
      → Inv (loop_top k s)
  unfolding loop_top
  loop_top-Inv next at_throw =
      if_intro Inv (ltb s.next_chunk_index s.session.total_chunks) _ _
        (λ more.
          wait_for_resume-Inv waiting entering (next waiting (λ _. refl) tt)
            (next entering (λ _. refl) tt) at_throw)
        (λ over. record {
          ledger = next returned (λ _. refl) (ground arith);
          loaded = small;
          configured = conf;
          stage = working-Stage s.main _ _ _ _ now;
        })
