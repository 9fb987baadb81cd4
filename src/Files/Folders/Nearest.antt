-- ===== src/Files/Folders/Nearest.antt =====
-- The loop that looks for the directory to show, and where it ends.
use gothrough.Base.{
  ℕ, zero, suc, ◌≤◌, ◌<◌, ◌≡◌, refl, ap, sym, ◌∙◌, ◌⊎◌, inl, inr, Bool, true, false, ◌||◌, List, [],
  ◌∷◌, length, take, if_intro, Text, is_empty, arith,
}
use mathlib.Core.Path.{subst}
use gothrough.Files.Paths.{split, join, split-IsPart, join-split, parent-join-take, take-length}
use gothrough.Files.Folders.{has, climb, directory}

-- The directory that is shown of a path: it is a leading part of the path; it is the root or a
-- folder; and no longer leading part is a folder.
pub record NearestFolder (set : List Text) (requested shown : Text) : Type 0 where
  pub kept : ℕ
  pub within : kept ≤ length (split requested)
  pub leading : shown ≡ join (take kept (split requested))
  pub present : (shown ≡ []) ⊎ (has shown set ≡ true)
  pub nearest :
      (k : ℕ)
      → kept < k
      → k ≤ length (split requested)
      → has (join (take k (split requested))) set ≡ false

is_empty→eq : (t : Text) → is_empty t ≡ true → t ≡ []
is_empty→eq [] h = refl
is_empty→eq (c ∷ t) h = cc

or_true : (a b : Bool) → (a || b) ≡ true → (a ≡ true) ⊎ (b ≡ true)
or_true true b h = inl refl
or_true false b h = inr h

or_false : (a b : Bool) → (a || b) ≡ false → b ≡ false
or_false true b h = cc
or_false false b h = h

eq_or_above : (k j : ℕ) → k < j → (j ≡ suc k) ⊎ (suc k < j)
eq_or_above k j h = ground arith

module _ (set : List Text) (requested : Text) where
  abbrev part_of : ℕ → Text
  part_of k = join (take k (split requested))

  climb-NearestFolder :
      (fuel k : ℕ)
      → k ≤ fuel
      → k ≤ length (split requested)
      → ((j : ℕ) → k < j → j ≤ length (split requested) → has (part_of j) set ≡ false)
      → NearestFolder set requested (climb fuel set (part_of k))
  unfolding climb join
  climb-NearestFolder zero zero le within far = record {
    kept = 0;
    within = within;
    leading = refl;
    present = inl refl;
    nearest = far;
  }
  climb-NearestFolder zero (suc k) le within far = absurd (omega arith)
  climb-NearestFolder (suc fuel) zero le within far = record {
    kept = 0;
    within = within;
    leading = refl;
    present = inl refl;
    nearest = far;
  }
  climb-NearestFolder (suc fuel) (suc k) le within far =
      if_intro (NearestFolder set requested)
        (is_empty (part_of (suc k)) || has (part_of (suc k)) set) _ _
        (λ stop. record {
          kept = suc k;
          within = within;
          leading = refl;
          present = elim (or_true (is_empty (part_of (suc k))) (has (part_of (suc k)) set) stop) [
            | inl e ↦ inl (is_empty→eq (part_of (suc k)) e)
            | inr e ↦ inr e
          ];
          nearest = far;
        })
        (λ go.
          subst (λ above. NearestFolder set requested (climb fuel set above))
            (sym (parent-join-take k (split requested) (omega arith) (split-IsPart requested)))
            (climb-NearestFolder fuel k (omega arith) (omega arith) (λ j lt top.
              elim (eq_or_above k j lt) [
                | inl here ↦
                    rw here (or_false (is_empty (part_of (suc k))) (has (part_of (suc k)) set) go)
                | inr above ↦ far j above top
              ])))

-- The loop ends, at the nearest directory above the requested path that still is a folder, or at
-- the root: the folders that it passes over are gone.
pub directory-NearestFolder :
    (set : List Text) (requested : Text) → NearestFolder set requested (directory set requested)
unfolding directory
directory-NearestFolder set requested =
    subst (λ t. NearestFolder set requested (climb (length (split requested)) set t))
      (ap join (take-length (split requested)) ∙ join-split requested)
      (climb-NearestFolder set requested (length (split requested)) (length (split requested))
        (omega arith) (omega arith) (λ j lt top. absurd (omega arith)))
