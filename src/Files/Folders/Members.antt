-- ===== src/Files/Folders/Members.antt =====
-- The folders that the page collects are those above the files.
use gothrough.Base.{
  ℕ, zero, suc, ◌-◌, ◌≤◌, ◌≡◌, refl, ap, ◌∙◌, inl, inr, Bool, true, false, ◌&&◌, ◌||◌, List, [],
  ◌∷◌, ◌++◌, length, take, any, if_intro, ◌==◌, Text, text_eq, text_eq→eq, starts_with, arith,
  Bool-cases,
}
use gothrough.Files.Paths.{
  slash, push_head, split, join, IsFilled, split-IsFilled, join-push_head, join-nil_cons,
}
use gothrough.Files.Folders.{has, add, add_parents, add_name, folders_from, folders}

-- Where the leading parts of a path are met.
abbrev any_at : (ℕ → Text) → Text → ℕ → ℕ → Bool
any_at J p zero i = false
any_at J p (suc n) i = text_eq p (J i) || any_at J p n (suc i)

has-append : (p q : Text) (set : List Text) → has p (set ++ (q ∷ [])) ≡ (has p set || text_eq p q)
has-append p q [] = ground arith
has-append p q (x ∷ set) = ground (arith, has-append p q set)

text_eq_both : (p q : Text) → text_eq p q ≡ true → (set : List Text) → has p set ≡ has q set
text_eq_both p q e set = ap (λ t. has t set) (text_eq→eq p q e)

has-add : (p q : Text) (set : List Text) → has p (add q set) ≡ (has p set || text_eq p q)
has-add p q set =
    if_intro (λ s. has p s ≡ (has p set || text_eq p q)) (has q set) _ _
      (λ old. elim (Bool-cases (text_eq p q)) [
        | inl same ↦ ground (arith, text_eq_both p q same set)
        | inr other ↦ ground arith
      ])
      (λ new. has-append p q set)

has-add_parents :
    (p : Text) (n i : ℕ) (parts set : List Text)
    → has p (add_parents n i parts set) ≡ (has p set || any_at (λ j. join (take j parts)) p n i)
unfolding add_parents
has-add_parents p zero i parts set = ground arith
has-add_parents p (suc n) i parts set =
    has-add_parents p n (suc i) parts (add (join (take i parts)) set)
    ∙ ground (arith, has-add p (join (take i parts)) set)

module _ (J K : ℕ → Text) (c : ℕ) where
  any_at_nil : (n i : ℕ) → ((j : ℕ) → i ≤ j → J j ≡ c ∷ K j) → any_at J [] n i ≡ false
  any_at_nil zero i h = refl
  any_at_nil (suc n) i h = rw (h i (omega arith)) (any_at_nil n (suc i) (λ j le. h j (omega arith)))

  any_at_cons :
      (d : ℕ) (p : Text) (n i : ℕ)
      → ((j : ℕ) → i ≤ j → J j ≡ c ∷ K j)
      → any_at J (d ∷ p) n i ≡ (d == c && any_at K p n i)
  any_at_cons d p zero i h = ground arith
  any_at_cons d p (suc n) i h =
      rw (h i (omega arith)) (ground (arith, any_at_cons d p n (suc i) (λ j le. h j (omega arith))))

any_at-suc :
    (J : ℕ → Text) (p : Text) (n i : ℕ) → any_at J p n (suc i) ≡ any_at (λ j. J (suc j)) p n i
any_at-suc J p zero i = refl
any_at-suc J p (suc n) i = ap (λ b. text_eq p (J (suc i)) || b) (any_at-suc J p n (suc i))

-- Whether `p` is a proper leading part of a path with the given parts.
abbrev leads : Text → List Text → Bool
leads p parts = any_at (λ j. join (take j parts)) p (length parts - 1) 1

join-take-slash :
    (ps : List Text) (j : ℕ)
    → IsFilled ps
    → 1 ≤ j
    → join (take (suc j) ([] ∷ ps)) ≡ slash ∷ join (take j ps)
join-take-slash ps zero f h = absurd (omega arith)
join-take-slash [] (suc j) f h = absurd f
join-take-slash (q ∷ qs) (suc j) f h = join-nil_cons (q ∷ take j qs) tt

join-take_push :
    (c : ℕ) (ps : List Text) (j : ℕ)
    → IsFilled ps
    → 1 ≤ j
    → join (take j (push_head c ps)) ≡ c ∷ join (take j ps)
join-take_push c ps zero f h = absurd (omega arith)
join-take_push c [] (suc j) f h = absurd f
join-take_push c (q ∷ qs) (suc j) f h = join-push_head c (q ∷ take j qs) tt

leads_slash :
    (p : Text) (ps : List Text)
    → IsFilled ps
    → leads p ([] ∷ ps)
      ≡ (text_eq p [] || any_at (λ j. join (take (suc j) ([] ∷ ps))) p (length ps - 1) 1)
unfolding join
leads_slash p [] f = absurd f
leads_slash p (q ∷ qs) f =
    ap (λ n. any_at (λ j. join (take j ([] ∷ q ∷ qs))) p n 1) {x = suc (suc (length qs)) - 1}
      {y = suc (length qs)} (omega arith)
    ∙ ap (λ b. text_eq p [] || b)
        (any_at-suc (λ j. join (take j ([] ∷ q ∷ qs))) p (length qs) 1
          ∙ ap (λ n. any_at (λ j. join (take (suc j) ([] ∷ q ∷ qs))) p n 1) {x = length qs}
              {y = suc (length qs) - 1} (omega arith))

length-push_head : (c : ℕ) (ps : List Text) → IsFilled ps → length (push_head c ps) ≡ length ps
length-push_head c [] f = absurd f
length-push_head c (p ∷ ps) f = refl

leads-split : (p s : Text) → leads p (split s) ≡ starts_with s (p ++ (slash ∷ []))
unfolding split
leads-split [] [] = refl
leads-split (d ∷ p) [] = refl
leads-split [] (c ∷ s) =
    if_intro (λ parts. leads [] parts ≡ starts_with (c ∷ s) (slash ∷ [])) (c == slash) _ _
      (λ h. leads_slash [] (split s) (split-IsFilled s) ∙ ground arith)
      (λ h.
        any_at_nil (λ j. join (take j (push_head c (split s)))) (λ j. join (take j (split s))) c _ 1
          (λ j le. join-take_push c (split s) j (split-IsFilled s) le)
        ∙ ground arith)
leads-split (d ∷ p) (c ∷ s) =
    if_intro (λ parts. leads (d ∷ p) parts ≡ starts_with (c ∷ s) (d ∷ (p ++ (slash ∷ []))))
      (c == slash) _ _
      (λ h.
        leads_slash (d ∷ p) (split s) (split-IsFilled s)
        ∙ any_at_cons (λ j. join (take (suc j) ([] ∷ split s))) (λ j. join (take j (split s))) slash
            d p _ 1 (λ j le. join-take-slash (split s) j (split-IsFilled s) le)
        ∙ ground (arith, leads-split p s))
      (λ h.
        ap (λ n. any_at (λ j. join (take j (push_head c (split s)))) (d ∷ p) (n - 1) 1)
          (length-push_head c (split s) (split-IsFilled s))
        ∙ any_at_cons (λ j. join (take j (push_head c (split s)))) (λ j. join (take j (split s))) c
            d p _ 1 (λ j le. join-take_push c (split s) j (split-IsFilled s) le)
        ∙ ground (arith, leads-split p s))

-- Whether a file's name has the path as a directory above it.
abbrev pub is_above : Text → Text → Bool
is_above p name = starts_with name (p ++ (slash ∷ []))

has-folders_from :
    (p : Text) (names set : List Text)
    → has p (folders_from names set) ≡ (has p set || any (is_above p) names)
unfolding folders_from add_name
has-folders_from p [] set = ground arith
has-folders_from p (name ∷ names) set =
    has-folders_from p names (add_name name set)
    ∙ ground
        (arith, has-add_parents p (length (split name) - 1) 1 (split name) set, leads-split p name)

-- The folders are exactly the paths under which, with a slash, some file's name goes on.
pub has-folders : (p : Text) (names : List Text) → has p (folders names) ≡ any (is_above p) names
unfolding folders
has-folders p names = has-folders_from p names []
