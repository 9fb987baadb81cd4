-- ===== src/Pages.antt =====
-- pages/Files/FilesPage.tsx: the pages that a list of files is shown in, and the buttons for them.
use gothrough.Base.{
  ℕ, zero, suc, ◌+◌, ◌-◌, ◌*◌, ◌/◌, ◌%◌, ◌≤◌, ◌<◌, min, max, ◌≡◌, refl, ap, ◌∙◌, List, [], ◌∷◌,
  length, get_elem?, take, drop, arith,
}

abbrev pub page_size : ℕ
page_size = 20

-- Math.ceil of the quotient
pub total_pages : ℕ → ℕ
total_pages n = max 1 ((n + (page_size - 1)) / page_size)

pub current_page : ℕ → ℕ → ℕ
current_page page n = min page (total_pages n)

-- `filtered.slice((currentPage - 1) * PAGE_SIZE, currentPage * PAGE_SIZE)`
pub page_files {ℓ} : {A : Type ℓ} → ℕ → List A → List A
page_files page xs =
    let current = current_page page (length xs) in
    drop ((current - 1) * page_size) (take (current * page_size) xs)

-- A difference below 0 is cut off at 0, which the maximum with 1 does not tell apart.
pub first_page : ℕ → ℕ → ℕ
first_page page n = max 1 (min (current_page page n - 3) (total_pages n - 6))

pub shown_pages : ℕ → ℕ
shown_pages n = min 7 (total_pages n)

get_elem?-drop {ℓ} :
    {A : Type ℓ} (n : ℕ) (xs : List A) (i : ℕ) → get_elem? (drop n xs) i ≡ get_elem? xs (n + i)
get_elem?-drop zero xs i = ap (get_elem? xs) (omega arith)
get_elem?-drop (suc n) [] i = refl
get_elem?-drop (suc n) (x ∷ xs) i =
    get_elem?-drop n xs i ∙ ap (get_elem? (x ∷ xs)) {x = suc (n + i)} {y = suc n + i} (omega arith)

get_elem?-take {ℓ} :
    {A : Type ℓ} (n : ℕ) (xs : List A) (i : ℕ) → i < n → get_elem? (take n xs) i ≡ get_elem? xs i
get_elem?-take zero xs i h = absurd (omega arith)
get_elem?-take (suc n) [] i h = refl
get_elem?-take (suc n) (x ∷ xs) zero h = refl
get_elem?-take (suc n) (x ∷ xs) (suc i) h = get_elem?-take n xs i (omega arith)

-- The page of a file of the list exists.
current_page_of {ℓ} :
    {A : Type ℓ} (xs : List A) (k : ℕ)
    → k < length xs
    → current_page (k / page_size + 1) (length xs) ≡ k / page_size + 1
unfolding current_page total_pages
current_page_of xs k h = ground arith

-- Each file of the list stands on the page of its number, at its place there.
pub get_elem?-page_files {ℓ} :
    {A : Type ℓ} (xs : List A) (k : ℕ)
    → k < length xs
    → get_elem? (page_files (k / page_size + 1) xs) (k % page_size) ≡ get_elem? xs k
unfolding page_files
get_elem?-page_files xs k h =
    let c = current_page (k / page_size + 1) (length xs) in
    let at = current_page_of xs k h in
    get_elem?-drop ((c - 1) * page_size) (take (c * page_size) xs) (k % page_size)
    ∙ ap (get_elem? (take (c * page_size) xs)) (omega (arith, at))
    ∙ get_elem?-take (c * page_size) xs k (omega (arith, at))

-- The buttons lead to pages that exist, and the current page is among them.
pub shown_pages_bounds :
    (page n : ℕ)
    → 1 ≤ page
    → (1 ≤ first_page page n)
      × (first_page page n + shown_pages n ≤ total_pages n + 1)
      × (first_page page n ≤ current_page page n)
      × (current_page page n < first_page page n + shown_pages n)
unfolding first_page shown_pages current_page total_pages
shown_pages_bounds page n h = (ground arith, ground arith, ground arith, ground arith)
