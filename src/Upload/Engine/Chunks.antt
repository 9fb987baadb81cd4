-- ===== src/Upload/Engine/Chunks.antt =====
-- How the slices of transferFile cut a file.
use mathlib.Core.Path.{ap₂}
use native.Mathlib.Nat.{div-add-mod, mod-lt, mul-div-le}
use gothrough.Base.{
  ℕ, zero, suc, ◌+◌, ◌-◌, ◌*◌, ◌/◌, ◌≤◌, ◌<◌, ◌≡◌, refl, sym, ap, ◌∙◌, List, [], ◌∷◌, min, sum_of,
  sum_below, count, bit, ltb, ◌==◌, ==_iff, All, Bool-cases, inl, inr, arith,
}
use gothrough.Upload.Engine.State.{chunk_bytes}
use gothrough.Upload.Engine.Protocol.{chunk_count}

-- The first `n` slices hold the first `n * chunk` bytes, or the whole file.
chunk_prefix : (size chunk n : ℕ) → sum_below (chunk_bytes size chunk) n ≡ min (n * chunk) size
unfolding chunk_bytes
chunk_prefix size chunk zero = omega arith
chunk_prefix size chunk (suc n) = omega (arith, chunk_prefix size chunk n)

chunk_count_covers : (size chunk : ℕ) → 0 < chunk → size ≤ chunk_count size chunk * chunk
unfolding chunk_count
chunk_count_covers size chunk h =
    omega (arith, div-add-mod (size + (chunk - 1)) chunk, mod-lt (size + (chunk - 1)) h)

-- Together the slices hold every byte of the file once.
pub chunks_cover :
    (size chunk : ℕ)
    → 0 < chunk
    → sum_below (chunk_bytes size chunk) (chunk_count size chunk) ≡ size
chunks_cover size chunk h =
    omega (arith, chunk_prefix size chunk (chunk_count size chunk), chunk_count_covers size chunk h)

-- No slice but the last is short, and none is empty.
pub chunk_bytes_bounds :
    (size chunk i : ℕ)
    → 0 < chunk
    → i < chunk_count size chunk
    → (0 < chunk_bytes size chunk i)
      × (chunk_bytes size chunk i ≤ chunk)
      × (i + 1 < chunk_count size chunk → chunk_bytes size chunk i ≡ chunk)
unfolding chunk_bytes chunk_count
chunk_bytes_bounds size chunk i h lt =
    let room : chunk * (i + 1) ≤ chunk * ((size + (chunk - 1)) / chunk) = grind arith in
    let most = mul-div-le (size + (chunk - 1)) chunk in
    (omega arith, omega arith, λ more. later more)
  where
    later : i + 1 < (size + (chunk - 1)) / chunk → min ((i + 1) * chunk) size - i * chunk ≡ chunk
    later more =
        let room : chunk * (i + 1 + 1) ≤ chunk * ((size + (chunk - 1)) / chunk) = grind arith in
        let most = mul-div-le (size + (chunk - 1)) chunk in omega arith

sum_below-add : (f g : ℕ → ℕ) (n : ℕ) → sum_below (λ i. f i + g i) n ≡ sum_below f n + sum_below g n
sum_below-add f g zero = refl
sum_below-add f g (suc n) = omega (arith, sum_below-add f g n)

sum_below-eq : (f g : ℕ → ℕ) (n : ℕ) → ((i : ℕ) → i < n → f i ≡ g i) → sum_below f n ≡ sum_below g n
sum_below-eq f g zero h = refl
sum_below-eq f g (suc n) h =
    omega (arith, h n (omega arith), sum_below-eq f g n (λ i lt. h i (omega arith)))

sum_below_out : (w : ℕ → ℕ) (x n : ℕ) → n ≤ x → sum_below (λ i. bit (x == i) * w i) n ≡ 0
sum_below_out w x zero h = refl
sum_below_out w x (suc n) h = ground (arith, sum_below_out w x n)

sum_below_at : (w : ℕ → ℕ) (x n : ℕ) → x < n → sum_below (λ i. bit (x == i) * w i) n ≡ w x
sum_below_at w x zero h = absurd (omega arith)
sum_below_at w x (suc n) h = elim (Bool-cases (x == n)) [
  | inl here ↦ ground (arith, sum_below_out w x n, ap w ((==_iff x n).0 here))
  | inr there ↦ ground (arith, sum_below_at w x n)
]

-- The weight of a list of numbers below `n`, counted by number.
sum_below-count :
    (w : ℕ → ℕ) (n : ℕ) (xs : List ℕ)
    → All (λ x. x < n) xs
    → sum_below (λ i. count i xs * w i) n ≡ sum_of w xs
sum_below-count w n [] h = sum_below_zero n
  where
    sum_below_zero : (m : ℕ) → sum_below (λ i. 0 * w i) m ≡ 0
    sum_below_zero zero = refl
    sum_below_zero (suc m) = omega (arith, sum_below_zero m)
sum_below-count w n (x ∷ xs) h =
    sum_below-eq (λ i. count i (x ∷ xs) * w i) (λ i. bit (x == i) * w i + count i xs * w i) n
      (λ i lt. omega arith)
    ∙ sum_below-add (λ i. bit (x == i) * w i) (λ i. count i xs * w i) n
    ∙ ap₂ ◌+◌ (sum_below_at w x n h.0) (sum_below-count w n xs h.1)

All-below : (n : ℕ) (xs : List ℕ) → ((i : ℕ) → 0 < count i xs → i < n) → All (λ x. x < n) xs
All-below n [] h = tt
All-below n (x ∷ xs) h = (h x (ground arith), All-below n xs (λ i c. h i (omega arith)))

-- A list that holds each number below `n` once, and no other, weighs what those numbers weigh.
pub sum_of-sum_below :
    (w : ℕ → ℕ) (n : ℕ) (xs : List ℕ)
    → ((i : ℕ) → count i xs ≡ bit (ltb i n))
    → sum_of w xs ≡ sum_below w n
sum_of-sum_below w n xs h =
    sym (sum_below-count w n xs (All-below n xs (λ i c. ground (arith, h i))))
    ∙ sum_below-eq (λ i. count i xs * w i) w n (λ i lt. ground (arith, h i))
