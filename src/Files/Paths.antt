-- ===== src/Files/Paths.antt =====
-- Paths as the page takes them apart and puts them together: `split('/')`, `join('/')`, `slice`.
use gothrough.Base.{
  ℕ, zero, suc, ◌<◌, ◌≡◌, refl, ap, ◌∙◌, false, List, [], ◌∷◌, ◌++◌, length, take, All, if_intro,
  if◌then◌else◌, ◌==◌, Text, arith,
}

abbrev pub slash : ℕ
slash = b'/'

abbrev pub push_head : ℕ → List Text → List Text
push_head c [] = (c ∷ []) ∷ []
push_head c (p ∷ ps) = (c ∷ p) ∷ ps

unfoldable pub split : Text → List Text
split [] = [] ∷ []
split (c ∷ s) = let parts = split s in if c == slash then [] ∷ parts else push_head c parts

unfoldable pub join : List Text → Text
join [] = []
join (p ∷ []) = p
join (p ∷ q ∷ ps) = p ++ (slash ∷ join (q ∷ ps))

-- `slice(0, -1)`
pub init {ℓ} : {A : Type ℓ} → List A → List A
init [] = []
init (x ∷ []) = []
init (x ∷ y ∷ xs) = x ∷ init (y ∷ xs)

pub parent : Text → Text
parent path = join (init (split path))

abbrev pub IsPart : Text → Type 0
IsPart = All (λ c. (c == slash) ≡ false)

abbrev pub IsFilled {ℓ} : {A : Type ℓ} → List A → Type 0
IsFilled [] = ⊥
IsFilled (x ∷ xs) = Unit

pub split-IsFilled : (s : Text) → IsFilled (split s)
unfolding split
split-IsFilled [] = tt
split-IsFilled (c ∷ s) =
    if_intro (λ (ps : List Text). IsFilled ps) (c == slash) _ _ (λ _. tt)
      (λ _. push_head-IsFilled (split s))
  where
    push_head-IsFilled : (ps : List Text) → IsFilled (push_head c ps)
    push_head-IsFilled [] = tt
    push_head-IsFilled (p ∷ ps) = tt

push_head-IsPart :
    (c : ℕ) (ps : List Text) → (c == slash) ≡ false → All IsPart ps → All IsPart (push_head c ps)
push_head-IsPart c [] h all = ((h, tt), tt)
push_head-IsPart c (p ∷ ps) h all = ((h, all.0), all.1)

-- No part holds a slash.
pub split-IsPart : (s : Text) → All IsPart (split s)
unfolding split
split-IsPart [] = (tt, tt)
split-IsPart (c ∷ s) =
    if_intro (All IsPart) (c == slash) _ _ (λ _. (tt, split-IsPart s))
      (λ h. push_head-IsPart c (split s) h (split-IsPart s))

pub join-push_head : (c : ℕ) (ps : List Text) → IsFilled ps → join (push_head c ps) ≡ c ∷ join ps
unfolding join
join-push_head c [] h = absurd h
join-push_head c (p ∷ []) h = refl
join-push_head c (p ∷ q ∷ ps) h = refl

pub join-nil_cons : (ps : List Text) → IsFilled ps → join ([] ∷ ps) ≡ slash ∷ join ps
unfolding join
join-nil_cons [] h = absurd h
join-nil_cons (p ∷ ps) h = refl

-- Putting the parts of a path together gives the path back.
pub join-split : (s : Text) → join (split s) ≡ s
unfolding split
join-split [] = unfold join in refl
join-split (c ∷ s) =
    if_intro (λ ps. join ps ≡ c ∷ s) (c == slash) _ _
      (λ h. join-nil_cons (split s) (split-IsFilled s) ∙ ground (arith, join-split s))
      (λ h. join-push_head c (split s) (split-IsFilled s) ∙ ap (λ t. c ∷ t) (join-split s))

split-append_slash : (p s : Text) → IsPart p → split (p ++ (slash ∷ s)) ≡ p ∷ split s
unfolding split
split-append_slash [] s h = refl
split-append_slash (c ∷ p) s h = rw (h.0, split-append_slash p s h.1) refl

split_part : (p : Text) → IsPart p → split p ≡ p ∷ []
unfolding split
split_part [] h = refl
split_part (c ∷ p) h = rw (h.0, split_part p h.1) refl

-- Parts without a slash are the parts of the path that they make.
pub split-join : (ps : List Text) → IsFilled ps → All IsPart ps → split (join ps) ≡ ps
unfolding join
split-join [] f h = absurd f
split-join (p ∷ []) f h = split_part p h.0
split-join (p ∷ q ∷ ps) f h =
    split-append_slash p (join (q ∷ ps)) h.0 ∙ ap (λ xs. p ∷ xs) (split-join (q ∷ ps) tt h.1)

pub All-take {ℓ κ} :
    {A : Type ℓ} (P : A → Type κ) (k : ℕ) (xs : List A) → All P xs → All P (take k xs)
All-take P zero xs h = tt
All-take P (suc k) [] h = tt
All-take P (suc k) (x ∷ xs) h = (h.0, All-take P k xs h.1)

init-take {ℓ} :
    {A : Type ℓ} (k : ℕ) (xs : List A) → k < length xs → init (take (suc k) xs) ≡ take k xs
unfolding init
init-take k [] h = absurd (omega arith)
init-take zero (x ∷ xs) h = refl
init-take (suc k) (x ∷ []) h = absurd (omega arith)
init-take (suc k) (x ∷ y ∷ xs) h = ap (λ ys. x ∷ ys) (init-take k (y ∷ xs) (omega arith))

take-IsFilled {ℓ} : {A : Type ℓ} (k : ℕ) (xs : List A) → IsFilled xs → IsFilled (take (suc k) xs)
take-IsFilled k [] h = absurd h
take-IsFilled k (x ∷ xs) h = tt

-- The directory above a leading part of a path is the leading part that is one shorter.
pub parent-join-take :
    (k : ℕ) (ps : List Text)
    → k < length ps
    → All IsPart ps
    → parent (join (take (suc k) ps)) ≡ join (take k ps)
unfolding parent
parent-join-take k [] h parts = absurd (omega arith)
parent-join-take k (p ∷ ps) h parts =
    ap (λ qs. join (init qs))
      (split-join (take (suc k) (p ∷ ps)) tt (All-take IsPart (suc k) (p ∷ ps) parts))
    ∙ ap join (init-take k (p ∷ ps) h)

pub take-length {ℓ} : {A : Type ℓ} (xs : List A) → take (length xs) xs ≡ xs
take-length [] = refl
take-length (x ∷ xs) = ap (λ ys. x ∷ ys) (take-length xs)
