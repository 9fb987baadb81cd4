-- ===== src/UploadPage/Row.antt =====
-- pages/Upload/UploadFileRow.tsx: the progress and the remaining time of an item.
use native.Mathlib.Nat.{div-mul-le_self, le-div_iff_mul-le}
use gothrough.Base.{
  ℕ, ◌+◌, ◌-◌, ◌*◌, ◌/◌, ◌≤◌, ◌<◌, min, ◌≡◌, ◌⊎◌, inl, inr, true, ◌&&◌, List, [], if◌then◌else◌,
  ◌==◌, ltb, Text, arith, Bool-cases,
}
use gothrough.Messages.{Leaf}
use gothrough.Upload.Snapshot.{ViewItem}
use gothrough.Queue.State.{is_success, is_uploading}
use gothrough.Durations.{format_eta}

-- `Math.round` of a percentage: half of it rounds up. The quotient is the exact one.
pub round_percent : ℕ → ℕ → ℕ
round_percent part whole = (200 * part + whole) / (2 * whole)

pub progress : ViewItem → ℕ
progress item =
    if is_success item.state
    then 100
    else if item.file.size == 0
    then 0
    else min 100 (round_percent item.loaded_bytes item.file.size)

unfoldable pub eta : (Text → List (Text × Leaf) → Text) → ViewItem → Text
eta t item =
    if is_uploading item.state && ltb 0 item.speed
    then format_eta t (item.file.size - item.loaded_bytes) item.speed
    else []

round_percent_mono : (a b w : ℕ) → 0 < w → a ≤ b → round_percent a w ≤ round_percent b w
unfolding round_percent
round_percent_mono a b w h le =
    (le-div_iff_mul-le {k = 2 * w} {x = (200 * a + w) / (2 * w)} {y = 200 * b + w} (omega arith)).1
      (omega (arith, div-mul-le_self (200 * a + w) (2 * w)))

round_percent_full : (a w : ℕ) → 0 < w → 100 ≤ round_percent a w → 199 * w ≤ 200 * a
unfolding round_percent
round_percent_full a w h le =
    omega (arith, (le-div_iff_mul-le {k = 2 * w} {x = 100} {y = 200 * a + w} (omega arith)).0 le)

-- Where more of an item is loaded and nothing else differs, its bar is no shorter.
pub progress_mono :
    (item : ViewItem) (loaded : ℕ)
    → item.loaded_bytes ≤ loaded
    → progress item ≤ progress (record item { loaded_bytes = loaded })
unfolding progress
progress_mono item loaded le = elim (Bool-cases (item.file.size == 0)) [
  | inl z ↦ rw z (ground arith)
  | inr n ↦
      ground (arith, round_percent_mono item.loaded_bytes loaded item.file.size (ground arith) le)
]

-- A bar is full only where the upload has succeeded, or at least 99.5 percent of the file is loaded;
-- no bar goes beyond 100, and the bar of a file without bytes is empty until it has succeeded.
pub progress_full :
    (item : ViewItem)
    → (progress item ≤ 100)
      × (progress item ≡ 100
          → (is_success item.state ≡ true)
            ⊎ ((0 < item.file.size) × (199 * item.file.size ≤ 200 * item.loaded_bytes)))
unfolding progress
progress_full item = elim (Bool-cases (item.file.size == 0)) [
  | inl z ↦ ground arith
  | inr n ↦ ground (arith, round_percent_full item.loaded_bytes item.file.size (ground arith))
]
