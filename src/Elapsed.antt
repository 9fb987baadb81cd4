-- ===== src/Elapsed.antt =====
-- utils/elapsed.ts: a stopwatch that can be paused.
use gothrough.Base.{
  ℕ, ◌+◌, ◌-◌, ◌≤◌, ◌≡◌, Bool, true, false, Option, none, some, List, [], ◌∷◌, is_some, arith,
}

pub record Clock : Type 0 where
  pub elapsed : ℕ
  pub since : Option ℕ

-- createElapsedClock
abbrev pub new_clock : Clock
new_clock = record { elapsed = 0; since = none }

-- `now` is performance.now().
abbrev pub or_now : Option ℕ → ℕ → ℕ
or_now none now = now
or_now (some t) now = t

pub resume : ℕ → Clock → Clock
resume now c = record c { since = some (or_now c.since now) }

abbrev pub running_for : Option ℕ → ℕ → ℕ
running_for none now = 0
running_for (some t) now = now - t

pub pause : ℕ → Clock → Clock
pause now c = record c { elapsed = c.elapsed + running_for c.since now; since = none }

pub read : ℕ → Clock → ℕ
read now c = c.elapsed + running_for c.since now

pub data Press : Type 0 where
  resumes pauses : Press

pub press : Press → ℕ → Clock → Clock
press resumes now c = resume now c
press pauses now c = pause now c

pub press_all : List (Press × ℕ) → Clock → Clock
press_all [] c = c
press_all ((p, now) ∷ ps) c = press_all ps (press p now c)

abbrev starts : Press → Bool
starts resumes = true
starts pauses = false

abbrev interval : Bool → ℕ → ℕ → ℕ
interval true from to = to - from
interval false from to = 0

-- The specification: the time from `last` to `now` during which the last press was a resume.
pub running_time : Bool → ℕ → List (Press × ℕ) → ℕ → ℕ
running_time on last [] now = interval on last now
running_time on last ((p, t) ∷ ps) now = interval on last t + running_time (starts p) t ps now

-- The presses come in order of time, from `last` to `now`.
abbrev pub InOrder : ℕ → List (Press × ℕ) → ℕ → Type 0
InOrder last [] now = last ≤ now
InOrder last ((p, t) ∷ ps) now = (last ≤ t) × InOrder t ps now

last-le : (last : ℕ) (ps : List (Press × ℕ)) (now : ℕ) → InOrder last ps now → last ≤ now
last-le last [] now h = h
last-le last ((p, t) ∷ ps) now h = omega (arith, last-le t ps now h.1)

-- A clock that runs since `t` shows at `last` what had run before.
read-press_all_from :
    (ps : List (Press × ℕ)) (c : Clock) (last now : ℕ)
    → or_now c.since last ≤ last
    → InOrder last ps now
    → read now (press_all ps c) ≡ read last c + running_time (is_some c.since) last ps now
unfolding read press_all running_time press resume pause
read-press_all_from [] c last now since h = ground arith
read-press_all_from ((resumes, t) ∷ ps) c last now since h =
    ground
      (arith, read-press_all_from ps (resume t c) t now (ground arith) h.1, last-le t ps now h.1)
read-press_all_from ((pauses, t) ∷ ps) c last now since h =
    ground
      (arith, read-press_all_from ps (pause t c) t now (ground arith) h.1, last-le t ps now h.1)

-- However often it is resumed and paused, in any order, the stopwatch shows the time for which
-- the last press was a resume: repeated presses of one kind change nothing.
pub read-press_all :
    (ps : List (Press × ℕ)) (start now : ℕ)
    → InOrder start ps now
    → read now (press_all ps new_clock) ≡ running_time false start ps now
unfolding read
read-press_all ps start now h =
    omega (arith, read-press_all_from ps new_clock start now (omega arith) h)
