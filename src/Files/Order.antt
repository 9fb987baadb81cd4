-- ===== src/Files/Order.antt =====
-- The comparison that the list is sorted by is consistent, as Array.prototype.sort asks for.
use Prim.Native.Nat.{compare, Ordering, lt, eq, gt}
use mathlib.Core.Path.{subst}
use gothrough.Base.{
  ℕ, ◌≡◌, refl, sym, ap, ◌∙◌, ◌≢◌, Bool, true, false, ◌&&◌, not, if◌then◌else◌, arith, Text,
}
use gothrough.Files.Browse.{
  BrowserEntry, SortField, by_mtime, by_size, by_name, is_name, flip, or_else, compare_field,
  compare_entries,
}

-- A total preorder by comparisons: the other way round it is flipped, and it is transitive.
pub record IsOrder {ℓ} {A : Type ℓ} (c : A → A → Ordering) : Type ℓ where
  pub flipped : (a b : A) → c b a ≡ flip (c a b)
  pub chained : (a b d : A) → c a b ≢ gt → c b d ≢ gt → c a d ≢ gt

flip-or_else : (o p : Ordering) → flip (or_else o p) ≡ or_else (flip o) (flip p)
flip-or_else lt p = refl
flip-or_else eq p = refl
flip-or_else gt p = refl

-- The chain of a comparison with a second one, from the chains of both.
chain :
    (o₁ o₂ o₃ p₁ p₂ p₃ : Ordering)
    → (o₁ ≢ gt → o₂ ≢ gt → o₃ ≢ gt)
    → (o₂ ≢ gt → flip o₃ ≢ gt → flip o₁ ≢ gt)
    → (flip o₃ ≢ gt → o₁ ≢ gt → flip o₂ ≢ gt)
    → (p₁ ≢ gt → p₂ ≢ gt → p₃ ≢ gt)
    → or_else o₁ p₁ ≢ gt
    → or_else o₂ p₂ ≢ gt
    → or_else o₃ p₃ ≢ gt
chain lt o₂ lt p₁ p₂ p₃ a b c k p q = λ e. cc
chain eq o₂ lt p₁ p₂ p₃ a b c k p q = λ e. cc
chain gt o₂ o₃ p₁ p₂ p₃ a b c k p q = absurd (p refl)
chain lt lt eq p₁ p₂ p₃ a b c k p q = absurd (b q (λ e. cc) refl)
chain lt eq eq p₁ p₂ p₃ a b c k p q = absurd (b (λ e. cc) (λ e. cc) refl)
chain lt gt eq p₁ p₂ p₃ a b c k p q = absurd (q refl)
chain eq lt eq p₁ p₂ p₃ a b c k p q = absurd (c (λ e. cc) (λ e. cc) refl)
chain eq eq eq p₁ p₂ p₃ a b c k p q = k p q
chain eq gt eq p₁ p₂ p₃ a b c k p q = absurd (q refl)
chain lt lt gt p₁ p₂ p₃ a b c k p q = absurd (a (λ e. cc) (λ e. cc) refl)
chain lt eq gt p₁ p₂ p₃ a b c k p q = absurd (a (λ e. cc) (λ e. cc) refl)
chain lt gt gt p₁ p₂ p₃ a b c k p q = absurd (q refl)
chain eq lt gt p₁ p₂ p₃ a b c k p q = absurd (a (λ e. cc) (λ e. cc) refl)
chain eq eq gt p₁ p₂ p₃ a b c k p q = absurd (a (λ e. cc) (λ e. cc) refl)
chain eq gt gt p₁ p₂ p₃ a b c k p q = absurd (q refl)

pub compare-IsOrder : IsOrder compare
compare-IsOrder = record { flipped = λ a b. ground arith; chained = λ a b d h k. ground arith }

module _ {ℓ} {A : Type ℓ} where
  IsOrder-congr : (c d : A → A → Ordering) → ((a b : A) → c a b ≡ d a b) → IsOrder d → IsOrder c
  IsOrder-congr c d e h = record {
    flipped = λ a b. e b a ∙ h.flipped a b ∙ ap flip (sym (e a b));
    chained = λ x y z p q.
        subst (λ o. o ≢ gt) (sym (e x z))
          (h.chained x y z (subst (λ o. o ≢ gt) (e x y) p) (subst (λ o. o ≢ gt) (e y z) q));
  }

  reverse-IsOrder : (c : A → A → Ordering) → IsOrder c → IsOrder (λ a b. flip (c a b))
  reverse-IsOrder c h = record {
    flipped = λ a b. ap flip (h.flipped a b);
    chained = λ a b d p q.
        subst (λ o. o ≢ gt) (h.flipped a d)
          (h.chained d b a (subst (λ o. o ≢ gt) (sym (h.flipped b d)) q)
            (subst (λ o. o ≢ gt) (sym (h.flipped a b)) p));
  }

  key-IsOrder {κ} :
      {B : Type κ} (f : A → B) (c : B → B → Ordering) → IsOrder c → IsOrder (λ a b. c (f a) (f b))
  key-IsOrder f c h = record {
    flipped = λ a b. h.flipped (f a) (f b);
    chained = λ a b d. h.chained (f a) (f b) (f d);
  }

  -- One comparison where another finds no difference.
  then-IsOrder :
      (c d : A → A → Ordering) → IsOrder c → IsOrder d → IsOrder (λ a b. or_else (c a b) (d a b))
  then-IsOrder c d h k = record {
    flipped = λ a b.
        ap (λ o. or_else o (d b a)) (h.flipped a b)
        ∙ ap (or_else (flip (c a b))) (k.flipped a b)
        ∙ sym (flip-or_else (c a b) (d a b));
    chained = λ x y z p q.
        chain (c x y) (c y z) (c x z) (d x y) (d y z) (d x z) (h.chained x y z)
          (λ a b e.
            h.chained y z x a (subst (λ o. o ≢ gt) (sym (h.flipped x z)) b) (h.flipped x y ∙ e))
          (λ a b e.
            h.chained z x y (subst (λ o. o ≢ gt) (sym (h.flipped x z)) a) b (h.flipped y z ∙ e))
          (k.chained x y z) p q;
  }

  -- Two classes, of which the first comes before the second, with a comparison in each.
  abbrev by_class : (A → Bool) → (A → A → Ordering) → (A → A → Ordering) → A → A → Ordering
  by_class f c d a b =
      if f a && not (f b) then lt else if f b && not (f a) then gt else if f a then c a b else d a b

  by_class-IsOrder :
      (f : A → Bool) (c d : A → A → Ordering) → IsOrder c → IsOrder d → IsOrder (by_class f c d)
  by_class-IsOrder f c d h k = record {
    flipped = λ a b. ground (arith, h.flipped a b, k.flipped a b);
    chained = λ x y z p q. ground (arith, h.chained x y z, k.chained x y z);
  }

module _ (fold : Text → Text) (numeric plain : Text → Text → Ordering) (timestamp : Text → ℕ)
    (numeric-IsOrder : IsOrder numeric) (plain-IsOrder : IsOrder plain) where
  field-IsOrder : (field : SortField) → IsOrder (compare_field fold numeric plain timestamp field)
  unfolding compare_field
  field-IsOrder by_size = key-IsOrder (λ (e : BrowserEntry). e.file.size) compare compare-IsOrder
  field-IsOrder by_name = key-IsOrder (λ (e : BrowserEntry). e.label) numeric numeric-IsOrder
  field-IsOrder by_mtime =
      key-IsOrder (λ (e : BrowserEntry). timestamp e.file.mtime) compare compare-IsOrder

  -- The comparison in the asked direction, and then by name.
  abbrev in_direction : SortField → Bool → BrowserEntry → BrowserEntry → Ordering
  in_direction field up a b =
      or_else
        (if up
          then compare_field fold numeric plain timestamp field a b
          else flip (compare_field fold numeric plain timestamp field a b))
        (plain a.file.name b.file.name)

  by_plain : IsOrder (λ (a b : BrowserEntry). plain a.file.name b.file.name)
  by_plain = key-IsOrder (λ (e : BrowserEntry). e.file.name) plain plain-IsOrder

  in_direction-IsOrder : (field : SortField) (up : Bool) → IsOrder (in_direction field up)
  in_direction-IsOrder field true = then-IsOrder _ _ (field-IsOrder field) by_plain
  in_direction-IsOrder field false =
      then-IsOrder _ _ (reverse-IsOrder _ (field-IsOrder field)) by_plain

  -- Folders by label, unless the sort is by name.
  abbrev among_folders : SortField → Bool → BrowserEntry → BrowserEntry → Ordering
  among_folders field up a b =
      if is_name field then in_direction field up a b else numeric a.label b.label

  among_folders-IsOrder : (field : SortField) (up : Bool) → IsOrder (among_folders field up)
  among_folders-IsOrder by_name up = in_direction-IsOrder by_name up
  among_folders-IsOrder by_size up =
      key-IsOrder (λ (e : BrowserEntry). e.label) numeric numeric-IsOrder
  among_folders-IsOrder by_mtime up =
      key-IsOrder (λ (e : BrowserEntry). e.label) numeric numeric-IsOrder

  compare_entries-by_class :
      (field : SortField) (up : Bool) (a b : BrowserEntry)
      → compare_entries fold numeric plain timestamp field up a b
        ≡ by_class
            (λ (e : BrowserEntry). e.folder)
            (among_folders field up)
            (in_direction field up)
            a
            b
  unfolding compare_entries
  compare_entries-by_class field up a b = ground arith

  -- Where the comparisons of texts are consistent, as localeCompare is, so is the comparison that
  -- the page sorts by, for every field and direction: comparing the other way round gives the
  -- opposite, what is not after and not after again is not after; and a folder comes before a file.
  pub compare_entries-IsOrder :
      (field : SortField) (up : Bool)
      → IsOrder (compare_entries fold numeric plain timestamp field up)
        × ((a b : BrowserEntry)
            → a.folder ≡ true
            → b.folder ≡ false
            → compare_entries fold numeric plain timestamp field up a b ≡ lt)
  unfolding compare_entries
  compare_entries-IsOrder field up = (
    IsOrder-congr _ _ (compare_entries-by_class field up) (
        by_class-IsOrder (λ (e : BrowserEntry). e.folder) (among_folders field up)
          (in_direction field up) (among_folders-IsOrder field up) (in_direction-IsOrder field up)),
    λ a b h k. rw (h, k) refl,
  )
