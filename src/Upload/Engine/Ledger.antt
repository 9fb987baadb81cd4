-- ===== src/Upload/Engine/Ledger.antt =====
-- The account of a transfer's chunks: which are handed out, which a worker holds, which are
-- acknowledged, and what that means for each worker's phase.
use gothrough.Base.{
  ℕ, ◌+◌, ◌≤◌, ◌<◌, ◌≡◌, refl, ◌⊎◌, inl, inr, Bool, true, false, some, List, [], ◌∷◌, ◌++◌, length,
  length-set, get_elem?, set, All, All-set, All-map, sum_of, sum_of-set, sum_of-append, count, bit,
  ltb, ◌==◌, arith,
}
use gothrough.Upload.Engine.State.{
  Phase, unstarted, waiting, entering, sending, delaying, holding, resending, returned, thrown,
}

-- 1 if the phase is at work on chunk `i`.
abbrev pub carries : ℕ → Phase → ℕ
carries i (sending j a r) = bit (j == i)
carries i (delaying j r) = bit (j == i)
carries i (holding j r) = bit (j == i)
carries i (resending j r) = bit (j == i)
carries i _ = 0

-- How many workers are at work on chunk `i`.
abbrev pub held : ℕ → List Phase → ℕ
held i = sum_of (carries i)

-- What a phase tells: a returned worker found no chunk left, a thrown one left a failure, and no
-- attempt is the fourth.
abbrev pub Fits : ℕ → ℕ → Bool → Phase → Type 0
Fits total next failed returned = total ≤ next
Fits total next failed thrown = failed ≡ true
Fits total next failed (sending j a r) = r ≤ 2
Fits total next failed (delaying j r) = r ≤ 2
Fits total next failed (holding j r) = r ≤ 2
Fits total next failed (resending j r) = r ≤ 2
Fits total next failed _ = Unit

-- `weight` gives the bytes of a chunk; where there are chunks, there is a worker.
pub record Ledger (weight : ℕ → ℕ) (total next : ℕ) (failed : Bool) (workers : List Phase)
    (confirmed : List ℕ) (bytes : ℕ) : Type 0 where
  pub capped : next ≤ total
  pub once : (i : ℕ) → held i workers + count i confirmed ≤ bit (ltb i next)
  pub exact : failed ≡ false → (i : ℕ) → held i workers + count i confirmed ≡ bit (ltb i next)
  pub summed : bytes ≡ sum_of weight confirmed
  pub fits : All (Fits total next failed) workers
  pub staffed : (total ≡ 0) ⊎ (0 < length workers)

Fits-mono :
    (total next next' : ℕ) (failed failed' : Bool) (p : Phase)
    → next ≤ next'
    → (failed ≡ true → failed' ≡ true)
    → Fits total next failed p
    → Fits total next' failed' p
Fits-mono total next next' failed failed' unstarted le imp h = tt
Fits-mono total next next' failed failed' waiting le imp h = tt
Fits-mono total next next' failed failed' entering le imp h = tt
Fits-mono total next next' failed failed' (sending j a r) le imp h = h
Fits-mono total next next' failed failed' (delaying j r) le imp h = h
Fits-mono total next next' failed failed' (holding j r) le imp h = h
Fits-mono total next next' failed failed' (resending j r) le imp h = h
Fits-mono total next next' failed failed' returned le imp h = omega arith
Fits-mono total next next' failed failed' thrown le imp h = imp h

staffed_after :
    {total : ℕ} (ws : List Phase) (k : ℕ) (p : Phase)
    → (total ≡ 0) ⊎ (0 < length ws)
    → (total ≡ 0) ⊎ (0 < length (set ws k p))
staffed_after ws k p (inl e) = inl e
staffed_after ws k p (inr h) = inr (omega (arith, length-set ws k p))

module _ {weight : ℕ → ℕ} {total next : ℕ} {failed : Bool} {workers : List Phase}
    {confirmed : List ℕ} {bytes : ℕ}
    (L : Ledger weight total next failed workers confirmed bytes) where
  -- A worker goes on with the chunk that it had, or with none where it had none.
  pub Ledger-move :
      (k : ℕ) (p q : Phase)
      → get_elem? workers k ≡ some p
      → ((i : ℕ) → carries i q ≡ carries i p)
      → Fits total next failed q
      → Ledger weight total next failed (set workers k q) confirmed bytes
  Ledger-move k p q e same f = record {
    capped = L.capped;
    once = λ i. omega (arith, sum_of-set (carries i) workers k p q e, same i, L.once i);
    exact = λ h i. omega (arith, sum_of-set (carries i) workers k p q e, same i, L.exact h i);
    summed = L.summed;
    fits = All-set (Fits total next failed) workers k q L.fits f;
    staffed = staffed_after workers k q L.staffed;
  }

  -- The same account, once some worker has failed.
  pub Ledger-fail : Ledger weight total next true workers confirmed bytes
  Ledger-fail = record {
    capped = L.capped;
    once = L.once;
    exact = λ h i. cc;
    summed = L.summed;
    fits =
        All-map (Fits total next failed) (Fits total next true) workers
          (λ p. Fits-mono total next next failed true p (omega arith) (λ _. refl)) L.fits;
    staffed = L.staffed;
  }

  -- A worker throws, and its chunk is lost.
  pub Ledger-throw :
      (k : ℕ) (p : Phase)
      → get_elem? workers k ≡ some p
      → Ledger weight total next true (set workers k thrown) confirmed bytes
  Ledger-throw k p e = record {
    capped = L.capped;
    once = λ i. omega (arith, sum_of-set (carries i) workers k p thrown e, L.once i);
    exact = λ h i. cc;
    summed = L.summed;
    fits = All-set (Fits total next true) workers k thrown Ledger-fail.fits refl;
    staffed = staffed_after workers k thrown L.staffed;
  }

  -- A worker with no chunk takes the next one.
  pub Ledger-take :
      (k : ℕ) (p : Phase)
      → get_elem? workers k ≡ some p
      → ((i : ℕ) → carries i p ≡ 0)
      → next < total
      → Ledger weight total (next + 1) failed (set workers k (sending next 0 0)) confirmed bytes
  Ledger-take k p e free h = record {
    capped = omega arith;
    once = λ i.
        ground (arith, sum_of-set (carries i) workers k p (sending next 0 0) e, free i, L.once i);
    exact = λ n i.
        ground
          (arith, sum_of-set (carries i) workers k p (sending next 0 0) e, free i, L.exact n i);
    summed = L.summed;
    fits =
        All-set (Fits total (next + 1) failed) workers k (sending next 0 0)
          (All-map (Fits total next failed) (Fits total (next + 1) failed) workers
            (λ p. Fits-mono total next (next + 1) failed failed p (omega arith) (λ f. f)) L.fits)
          (omega arith);
    staffed = staffed_after workers k (sending next 0 0) L.staffed;
  }

  -- A worker's chunk is acknowledged, and the worker is left with none.
  pub Ledger-confirm :
      (k j : ℕ) (p q : Phase)
      → get_elem? workers k ≡ some p
      → ((i : ℕ) → carries i p ≡ bit (j == i))
      → ((i : ℕ) → carries i q ≡ 0)
      → Fits total next failed q
      → Ledger weight total next failed (set workers k q) (confirmed ++ (j ∷ [])) (bytes + weight j)
  Ledger-confirm k j p q e had free f = record {
    capped = L.capped;
    once = λ i. omega (
      arith,
      sum_of-set (carries i) workers k p q e,
      had i,
      free i,
      L.once i,
      sum_of-append (λ c. bit (c == i)) confirmed (j ∷ []),
    );
    exact = λ n i. omega (
      arith,
      sum_of-set (carries i) workers k p q e,
      had i,
      free i,
      L.exact n i,
      sum_of-append (λ c. bit (c == i)) confirmed (j ∷ []),
    );
    summed = omega (arith, L.summed, sum_of-append weight confirmed (j ∷ []));
    fits = All-set (Fits total next failed) workers k q L.fits f;
    staffed = staffed_after workers k q L.staffed;
  }

  -- A chunk that a worker holds is not acknowledged yet.
  pub Ledger-fresh :
      (k j : ℕ) (p : Phase) → get_elem? workers k ≡ some p → carries j p ≡ 1 → count j confirmed ≡ 0
  Ledger-fresh k j p e c = ground (arith, L.once j, sum_of-set (carries j) workers k p returned e)
