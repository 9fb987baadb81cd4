-- ===== src/Durations.antt =====
-- utils/format.ts formatElapsed and formatETA: durations as the dictionary writes them.
pub mod Parts
use gothrough.Base.{
  trim_end, ℕ, zero, suc, ◌+◌, ◌-◌, ◌*◌, ◌/◌, ◌%◌, Bool, true, false, ◌||◌, List, [], ◌∷◌, ◌++◌,
  if◌then◌else◌, ◌==◌, ltb, not, any, Text, codes,
}
use gothrough.Base.Decimal.{decimal}
use gothrough.Messages.{Leaf}

-- `toFixed(1)` of a number of tenths over ten
abbrev pub one_decimal : ℕ → Text
one_decimal tenths = decimal (tenths / 10) ++ (b'.' ∷ decimal (tenths % 10))

-- `Math.ceil` of a quotient
abbrev pub ceil_div : ℕ → ℕ → ℕ
ceil_div n d = (n + (d - 1)) / d

-- `t` is the dictionary's; times are whole milliseconds and sizes whole bytes.
module _ (t : Text → List (Text × Leaf) → Text) where
  abbrev pub hours_text : ℕ → Text
  hours_text n = t (codes "duration.hours") ((codes "hours", Leaf.number n) ∷ [])

  abbrev pub minutes_text : ℕ → Text
  minutes_text n = t (codes "duration.minutes") ((codes "minutes", Leaf.number n) ∷ [])

  abbrev pub seconds_text : Leaf → Text
  seconds_text n = t (codes "duration.seconds") ((codes "seconds", n) ∷ [])

  pub format_elapsed : ℕ → Text
  format_elapsed milliseconds =
      let tenths = milliseconds / 100 in
      let minutes = (tenths / 600) % 60 in
      let hours = tenths / 36000 in
      (if not (hours == 0) then hours_text hours else [])
      ++ ((if not (hours == 0) || not (minutes == 0) then minutes_text minutes else [])
          ++ seconds_text (Leaf.text (one_decimal (tenths % 600))))

  pub format_seconds : ℕ → Text
  format_seconds secs =
      if ltb secs 60
      then seconds_text (Leaf.number secs)
      else if ltb secs 3600
      then minutes_text (secs / 60) ++ seconds_text (Leaf.number (secs % 60))
      else trim_end (hours_text (secs / 3600) ++ minutes_text ((secs % 3600) / 60))

  pub format_eta : ℕ → ℕ → Text
  format_eta remaining_bytes bytes_per_sec =
      if bytes_per_sec == 0
      then codes "--"
      else format_seconds (ceil_div remaining_bytes bytes_per_sec)
