-- ===== src/AutoRefresh.antt =====
-- hooks/useAutoRefresh.ts: polling that waits for each refresh and pauses while the page is hidden.
use gothrough.Base.{
  ℕ, suc, ◌+◌, ◌-◌, ◌≤◌, ◌≡◌, refl, inl, inr, Bool, true, false, ◌&&◌, ◌||◌, not, List, [], ◌∷◌,
  keep, contains, bit, ltb, ◌==◌, if◌then◌else◌, All, if_intro, Bool-cases, ==_iff, sym, ◌∙◌, arith,
}

-- `timers` counts the armed timers, of which `cycle.timer` is the last; `calls` are the refreshes
-- that have not settled, by the number `current` of their tick; `hidden` is the document's
-- visibility; `cancels` and `refreshes` count the calls of `cancel` and of `refresh`.
pub record Cycle : Type 0 where
  pub disposed : Bool
  pub timers : ℕ
  pub sequence : ℕ
  pub running : Bool
  pub hidden : Bool
  pub calls : List ℕ
  pub cancels : ℕ
  pub refreshes : ℕ

pub stop : Cycle → Cycle
stop c = record c {
  timers = c.timers - 1;
  sequence = suc c.sequence;
  running = false;
  cancels = suc c.cancels;
}

pub schedule : Cycle → Cycle
schedule c = if not c.disposed && not c.hidden then record c { timers = suc c.timers } else c

-- tick, up to the call of `refresh`
pub tick : Cycle → Cycle
tick c = if c.disposed || (c.running || c.hidden) then c else record c {
  running = true;
  sequence = suc c.sequence;
  calls = suc c.sequence ∷ c.calls;
  refreshes = suc c.refreshes;
}

-- The finally block of the tick numbered `current`.
pub settle : ℕ → Cycle → Cycle
settle current c =
    let left = record c { calls = keep (λ n. not (n == current)) c.calls } in
    if not c.disposed && current == c.sequence
    then schedule (record left { running = false })
    else left

unfoldable pub on_visibility_change : Bool → Cycle → Cycle
on_visibility_change hidden c =
    let stopped = stop (record c { hidden = hidden }) in if hidden then stopped else tick stopped

-- The effect's cleanup; the listener goes with it.
unfoldable pub dispose : Cycle → Cycle
dispose c = stop (record c { disposed = true })

-- The effect of a page that is enabled, up to its first timer.
unfoldable pub begin : Bool → Cycle
begin hidden = schedule (record {
  disposed = false;
  timers = 0;
  sequence = 0;
  running = false;
  hidden = hidden;
  calls = [];
  cancels = 0;
  refreshes = 0;
})

pub data CycleEvent : Type 0 where
  timer_fires disposes : CycleEvent
  settles : ℕ → CycleEvent
  visibility_changes : Bool → CycleEvent

unfoldable pub step : Cycle → CycleEvent → Cycle
step c timer_fires = if ltb 0 c.timers then tick (record c { timers = c.timers - 1 }) else c
step c disposes = if c.disposed then c else dispose c
step c (settles n) = if contains n c.calls then settle n c else c
step c (visibility_changes hidden) = if c.disposed then c else on_visibility_change hidden c

unfoldable pub run : Cycle → List CycleEvent → Cycle
run c [] = c
run c (e ∷ es) = run (step c e) es

-- While the page is visible and the effect lives, either one timer is armed or one refresh is
-- awaited, and else neither; the tick of the last number has not settled exactly while its refresh
-- is awaited.
pub record Inv (c : Cycle) : Type 0 where
  pub one : c.timers + bit c.running ≡ bit (not c.disposed && not c.hidden)
  pub awaited : contains c.sequence c.calls ≡ c.running
  pub earlier : All (λ n. n ≤ c.sequence) c.calls

-- Nothing is armed or awaited.
record IsIdle (c : Cycle) : Type 0 where
  no_timer : c.timers ≡ 0
  not_running : c.running ≡ false
  none_current : contains c.sequence c.calls ≡ false
  all_earlier : All (λ n. n ≤ c.sequence) c.calls

contains-next : (s : ℕ) (xs : List ℕ) → All (λ n. n ≤ s) xs → contains (suc s) xs ≡ false
contains-next s [] h = refl
contains-next s (x ∷ xs) h = ground (arith, contains-next s xs h.1)

contains-keep_self : (n : ℕ) (xs : List ℕ) → contains n (keep (λ m. not (m == n)) xs) ≡ false
contains-keep_self n [] = refl
contains-keep_self n (x ∷ xs) = ground (arith, contains-keep_self n xs)

contains-keep :
    (s n : ℕ) (xs : List ℕ)
    → (n == s) ≡ false
    → contains s (keep (λ m. not (m == n)) xs) ≡ contains s xs
contains-keep s n [] ne = refl
contains-keep s n (x ∷ xs) ne = ground (arith, contains-keep s n xs ne)

All-keep : (s : ℕ) (p : ℕ → Bool) (xs : List ℕ) → All (λ n. n ≤ s) xs → All (λ n. n ≤ s) (keep p xs)
All-keep s p [] h = tt
All-keep s p (x ∷ xs) h =
    if_intro (All (λ n. n ≤ s)) (p x) _ _ (λ _. (h.0, All-keep s p xs h.1))
      (λ _. All-keep s p xs h.1)

All-later : (s : ℕ) (xs : List ℕ) → All (λ n. n ≤ s) xs → All (λ n. n ≤ suc s) xs
All-later s [] h = tt
All-later s (x ∷ xs) h = (omega arith, All-later s xs h.1)

stop-IsIdle : (c : Cycle) → c.timers ≤ 1 → All (λ n. n ≤ c.sequence) c.calls → IsIdle (stop c)
unfolding stop
stop-IsIdle c few earlier = record {
  no_timer = omega arith;
  not_running = refl;
  none_current = contains-next c.sequence c.calls earlier;
  all_earlier = All-later c.sequence c.calls earlier;
}

idle-Inv : (c : Cycle) → IsIdle c → not c.disposed && not c.hidden ≡ false → Inv c
idle-Inv c v off = record {
  one = ground (arith, v.no_timer, v.not_running);
  awaited = v.none_current ∙ sym v.not_running;
  earlier = v.all_earlier;
}

tick-Inv : (c : Cycle) → IsIdle c → Inv (tick c)
unfolding tick
tick-Inv c v =
    if_intro Inv (c.disposed || (c.running || c.hidden)) _ _
      (λ off. record {
        one = ground (arith, v.no_timer, v.not_running);
        awaited = v.none_current ∙ sym v.not_running;
        earlier = v.all_earlier;
      })
      (λ on. record {
        one = ground (arith, v.no_timer, v.not_running);
        awaited = ground arith;
        earlier = (omega arith, All-later c.sequence c.calls v.all_earlier);
      })

settle_last-Inv :
    (c : Cycle)
    → Inv c
    → c.running ≡ true
    → Inv
        (schedule (record c { calls = keep (λ n. not (n == c.sequence)) c.calls; running = false }))
unfolding schedule
settle_last-Inv c v r =
    if_intro Inv (not c.disposed && not c.hidden) _ _
      (λ on. record {
        one = ground (arith, v.one);
        awaited = contains-keep_self c.sequence c.calls;
        earlier = All-keep c.sequence _ c.calls v.earlier;
      })
      (λ off. record {
        one = ground (arith, v.one);
        awaited = contains-keep_self c.sequence c.calls;
        earlier = All-keep c.sequence _ c.calls v.earlier;
      })

settle-Inv : (n : ℕ) (c : Cycle) → contains n c.calls ≡ true → Inv c → Inv (settle n c)
unfolding settle
settle-Inv n c here v =
    if_intro Inv (not c.disposed && n == c.sequence) _ _
      (λ last.
        let same : n ≡ c.sequence = ground arith in
        let here' : contains c.sequence c.calls ≡ true = rw (← same) here in
        rw same (settle_last-Inv c v (sym v.awaited ∙ here')))
      (λ other. record {
        one = v.one;
        awaited = still other;
        earlier = All-keep c.sequence _ c.calls v.earlier;
      })
  where
    still :
        not c.disposed && n == c.sequence ≡ false
        → contains c.sequence (keep (λ m. not (m == n)) c.calls) ≡ c.running
    still other = elim (Bool-cases (n == c.sequence)) [
      | inl same ↦
          let e : n ≡ c.sequence = (==_iff n c.sequence).0 same in
          rw e (contains-keep_self c.sequence c.calls ∙ ground (arith, v.one, same))
      | inr differs ↦ contains-keep c.sequence n c.calls differs ∙ v.awaited
    ]

step-Inv : (c : Cycle) (e : CycleEvent) → Inv c → Inv (step c e)
unfolding step
step-Inv c timer_fires v =
    if_intro Inv (ltb 0 c.timers) _ _
      (λ h. tick-Inv _ (record {
        no_timer = ground (arith, v.one);
        not_running = ground (arith, v.one);
        none_current = ground (arith, v.one, v.awaited);
        all_earlier = v.earlier;
      }))
      (λ _. v)
step-Inv c disposes v =
    if_intro Inv c.disposed _ _ (λ _. v)
      (λ _.
        unfold dispose in
        idle-Inv _ (stop-IsIdle (record c { disposed = true }) (ground (arith, v.one)) v.earlier)
          (unfold stop in refl))
step-Inv c (settles n) v = if_intro Inv (contains n c.calls) _ _ (λ h. settle-Inv n c h v) (λ _. v)
step-Inv c (visibility_changes hidden) v =
    if_intro Inv c.disposed _ _ (λ _. v)
      (λ _.
        unfold on_visibility_change in
        let idle = stop-IsIdle (record c { hidden = hidden }) (ground (arith, v.one)) v.earlier in
        if_intro Inv hidden _ _ (λ h. idle-Inv _ idle (unfold stop in ground arith))
          (λ _. tick-Inv _ idle))

run-Inv : (c : Cycle) (es : List CycleEvent) → Inv c → Inv (run c es)
unfolding run
run-Inv c [] v = v
run-Inv c (e ∷ es) v = run-Inv (step c e) es (step-Inv c e v)

-- In every history polling neither doubles nor stalls: while the page is visible and the effect
-- lives, exactly one of a timer and an awaited refresh is there, and there is neither while the
-- page is hidden or once the effect is disposed of.
pub run-begin-Inv : (hidden : Bool) (es : List CycleEvent) → Inv (run (begin hidden) es)
unfolding begin schedule
run-begin-Inv true es = run-Inv _ es (record { one = refl; awaited = refl; earlier = tt })
run-begin-Inv false es = run-Inv _ es (record { one = refl; awaited = refl; earlier = tt })
