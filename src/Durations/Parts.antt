-- ===== src/Durations/Parts.antt =====
-- Hours, minutes and seconds that are written add up to the time that is shown.
use native.Mathlib.Nat.{mul_comm, lt-div-mul-add, div-lt_iff_lt-mul}
use mathlib.Core.Path.{subst}
use gothrough.Base.{
  trim_end, ℕ, zero, suc, ◌+◌, ◌-◌, ◌*◌, ◌/◌, ◌%◌, ◌<◌, ◌≤◌, ◌≡◌, refl, true, false, ◌||◌, List, [],
  ◌∷◌, Bool-cases, inl, inr, ◌++◌, if◌then◌else◌, ◌==◌, ltb, not, Text, arith, if_intro,
}
use gothrough.Base.Decimal.{decimal_below_ten, decimal_below_hundred}
use gothrough.Messages.{Leaf}
use gothrough.Durations.{
  one_decimal, hours_text, minutes_text, seconds_text, format_elapsed, ceil_div, format_seconds,
  format_eta,
}

nonzero : (n : ℕ) → (suc n == 0) ≡ false
nonzero n = ground arith

ceil_div_enough : (n d : ℕ) → 0 < d → n ≤ d * ceil_div n d
ceil_div_enough n d h =
    omega (arith, lt-div-mul-add {a = n + (d - 1)} {b = d} h, mul_comm d (ceil_div n d))

ceil_div_least : (n d k : ℕ) → 0 < d → n ≤ d * k → ceil_div n d ≤ k
ceil_div_least n d k h le = omega (
  arith,
  (div-lt_iff_lt-mul {k = d} {x = n + (d - 1)} {y = k + 1} h).1 (omega (arith, mul_comm d k)),
)

-- The digits of tenths of a second below 600: the seconds, a point and one tenth.
abbrev pub second_digits : ℕ → Text
second_digits s =
    if ltb s 100
    then (s / 10 + 48) ∷ b'.' ∷ (s % 10 + 48) ∷ []
    else (s / 100 + 48) ∷ (s / 10 % 10 + 48) ∷ b'.' ∷ (s % 10 + 48) ∷ []

one_decimal_digits : (s : ℕ) → s < 600 → one_decimal s ≡ second_digits s
one_decimal_digits s h = elim (Bool-cases (ltb s 100)) [
  | inl small ↦
      rw
        (small, decimal_below_ten (s / 10) (ground arith), decimal_below_ten (s % 10) (omega arith))
        refl
  | inr large ↦
      rw
        (
          large,
          hundreds,
          decimal_below_hundred (s / 10) (ground arith) (omega arith),
          decimal_below_ten (s % 10) (omega arith),
        )
        refl
]
  where
    hundreds : s / 100 ≡ s / 10 / 10
    hundreds = omega arith

module _ (t : Text → List (Text × Leaf) → Text) where
  -- Hours and minutes are left out where they and all before them are zero.
  abbrev pub write_elapsed : ℕ → ℕ → ℕ → Text
  write_elapsed zero zero s = seconds_text t (Leaf.text (second_digits s))
  write_elapsed zero (suc m) s =
      minutes_text t (suc m) ++ seconds_text t (Leaf.text (second_digits s))
  write_elapsed (suc h) m s =
      hours_text t (suc h) ++ (minutes_text t m ++ seconds_text t (Leaf.text (second_digits s)))

  pub record Elapsed (milliseconds : ℕ) (shown : Text) : Type 0 where
    pub hours : ℕ
    pub minutes : ℕ
    pub tenths : ℕ
    pub minutes_fit : minutes < 60
    pub tenths_fit : tenths < 600
    pub below : 100 * (36000 * hours + (600 * minutes + tenths)) ≤ milliseconds
    pub above : milliseconds < 100 * (36000 * hours + (600 * minutes + tenths)) + 100
    pub written : shown ≡ write_elapsed hours minutes tenths

  -- Every number of milliseconds is written as hours, minutes below 60 and tenths of a second below
  -- 600 that add up to it, rounded down to a tenth; the seconds in one digit or two, and after a
  -- point the one digit of the tenth.
  pub format_elapsed-Elapsed :
      (milliseconds : ℕ) → Elapsed milliseconds (format_elapsed t milliseconds)
  unfolding format_elapsed
  format_elapsed-Elapsed n = record {
    hours = n / 100 / 36000;
    minutes = (n / 100 / 600) % 60;
    tenths = (n / 100) % 600;
    minutes_fit = omega arith;
    tenths_fit = omega arith;
    below = omega arith;
    above = omega arith;
    written = write (n / 100 / 36000) ((n / 100 / 600) % 60) ((n / 100) % 600) (omega arith);
  }
    where
      write :
          (h m s : ℕ)
          → s < 600
          → (if not (h == 0) then hours_text t h else [])
              ++ ((if not (h == 0) || not (m == 0) then minutes_text t m else [])
                  ++ seconds_text t (Leaf.text (one_decimal s)))
            ≡ write_elapsed h m s
      write zero zero s d = rw (one_decimal_digits s d) refl
      write zero (suc m) s d = rw (nonzero m, one_decimal_digits s d) refl
      write (suc h) m s d = rw (nonzero h, one_decimal_digits s d) refl

  -- From an hour on, the seconds are left out.
  abbrev pub write_eta : ℕ → ℕ → ℕ → Text
  write_eta zero zero s = seconds_text t (Leaf.number s)
  write_eta zero (suc m) s = minutes_text t (suc m) ++ seconds_text t (Leaf.number s)
  write_eta (suc h) m s = trim_end (hours_text t (suc h) ++ minutes_text t m)

  pub record Remaining (bytes speed : ℕ) (shown : Text) : Type 0 where
    pub hours : ℕ
    pub minutes : ℕ
    pub seconds : ℕ
    pub minutes_fit : minutes < 60
    pub seconds_fit : seconds < 60
    pub enough : bytes ≤ speed * (3600 * hours + (60 * minutes + seconds))
    pub least : (n : ℕ) → bytes ≤ speed * n → 3600 * hours + (60 * minutes + seconds) ≤ n
    pub written : shown ≡ write_eta hours minutes seconds

  write_seconds :
      (h m s secs : ℕ)
      → m < 60
      → s < 60
      → secs ≡ 3600 * h + (60 * m + s)
      → format_seconds t secs ≡ write_eta h m s
  unfolding format_seconds
  write_seconds zero zero s secs p q e = rw (short, the_seconds) refl
    where
      short : ltb secs 60 ≡ true
      short = ground arith

      the_seconds : secs ≡ s
      the_seconds = omega arith
  write_seconds zero (suc m) s secs p q e = rw (short, long, whole, rest) refl
    where
      short : ltb secs 60 ≡ false
      short = ground arith

      long : ltb secs 3600 ≡ true
      long = ground arith

      whole : secs / 60 ≡ suc m
      whole = omega arith

      rest : secs % 60 ≡ s
      rest = omega arith
  write_seconds (suc h) m s secs p q e = rw (short, long, whole, rest) refl
    where
      short : ltb secs 60 ≡ false
      short = ground arith

      long : ltb secs 3600 ≡ false
      long = ground arith

      whole : secs / 3600 ≡ suc h
      whole = omega arith

      rest : secs % 3600 / 60 ≡ m
      rest = omega arith

  -- At a speed above zero, the remaining time is written from hours, minutes below 60 and seconds
  -- below 60 that together are the least whole number of seconds in which that speed moves the
  -- remaining bytes.
  pub format_eta-Remaining :
      (bytes speed : ℕ) → 0 < speed → Remaining bytes speed (format_eta t bytes speed)
  unfolding format_eta
  format_eta-Remaining bytes speed h =
      let secs = ceil_div bytes speed in
      record {
        hours = secs / 3600;
        minutes = secs % 3600 / 60;
        seconds = secs % 60;
        minutes_fit = omega arith;
        seconds_fit = omega arith;
        enough = subst (λ n. bytes ≤ speed * n) (parts secs) (ceil_div_enough bytes speed h);
        least = λ n le. subst (λ k. k ≤ n) (parts secs) (ceil_div_least bytes speed n h le);
        written =
            if_intro (λ x. x ≡ write_eta (secs / 3600) (secs % 3600 / 60) (secs % 60)) (speed == 0)
              _ _ (λ z. absurd (ground arith))
              (λ _.
                write_seconds (secs / 3600) (secs % 3600 / 60) (secs % 60) secs (omega arith)
                  (omega arith) (parts secs));
      }
    where
      parts : (n : ℕ) → n ≡ 3600 * (n / 3600) + (60 * (n % 3600 / 60) + n % 60)
      parts n = omega arith
