-- ===== src/Files/Texts.antt =====
-- Texts that go on under a directory, and tests on lists.
use gothrough.Base.{
  ◌≡◌, refl, ap, ◌∙◌, inl, inr, Bool, true, false, ◌&&◌, ◌||◌, List, [], ◌∷◌, ◌++◌, map, keep, any,
  length, drop, if◌then◌else◌, ◌==◌, Text, starts_with, arith, Bool-cases,
}
use mathlib.Core.List.{append_assoc}
use gothrough.Files.Paths.{slash}
use gothrough.Files.Folders.Members.{is_above}
use gothrough.Files.Browse.{holds_slash, stands_below}

module _ {ℓ} {A : Type ℓ} where
  pub any-append : (P : A → Bool) (xs ys : List A) → any P (xs ++ ys) ≡ (any P xs || any P ys)
  any-append P [] ys = refl
  any-append P (x ∷ xs) ys = ground (arith, any-append P xs ys)

  pub any-keep : (P Q : A → Bool) (xs : List A) → any P (keep Q xs) ≡ any (λ x. Q x && P x) xs
  any-keep P Q [] = refl
  any-keep P Q (x ∷ xs) = ground (arith, any-keep P Q xs)

  pub any_mono :
      (P Q : A → Bool) (xs : List A)
      → ((x : A) → P x ≡ true → Q x ≡ true)
      → any P xs ≡ true
      → any Q xs ≡ true
  any_mono P Q [] f h = h
  any_mono P Q (x ∷ xs) f h = elim (Bool-cases (P x)) [
    | inl p ↦ ground (arith, f x)
    | inr n ↦ ground (arith, any_mono P Q xs f)
  ]

  pub any_none : (P : A → Bool) (xs : List A) → ((x : A) → P x ≡ false) → any P xs ≡ false
  any_none P [] f = refl
  any_none P (x ∷ xs) f = ground (arith, f x, any_none P xs f)

pub any-map {ℓ κ} :
    {A : Type ℓ} {B : Type κ} (P : B → Bool) (f : A → B) (xs : List A)
    → any P (map f xs) ≡ any (λ x. P (f x)) xs
any-map P f [] = refl
any-map P f (x ∷ xs) = ap (λ b. P (f x) || b) (any-map P f xs)

-- A text with the given beginning.
pub starts_with→append : (s t : Text) → starts_with s t ≡ true → s ≡ t ++ drop (length t) s
starts_with→append s [] h = refl
starts_with→append [] (b ∷ t) h = cc
starts_with→append (a ∷ s) (b ∷ t) h = ground (arith, starts_with→append s t)

pub starts_with-append : (p s t : Text) → starts_with (p ++ s) (p ++ t) ≡ starts_with s t
starts_with-append [] s t = refl
starts_with-append (c ∷ p) s t = ground (arith, starts_with-append p s t)

pub starts_with_self : (p s : Text) → starts_with (p ++ s) p ≡ true
starts_with_self [] [] = refl
starts_with_self [] (c ∷ s) = refl
starts_with_self (c ∷ p) s = ground (arith, starts_with_self p s)

pub drop-append : (p s : Text) → drop (length p) (p ++ s) ≡ s
drop-append [] s = refl
drop-append (c ∷ p) s = drop-append p s

-- The part of a text before its first slash.
pub before : Text → Text
before [] = []
before (c ∷ s) = if c == slash then [] else c ∷ before s

pub not-holds_slash-before : (s : Text) → holds_slash (before s) ≡ false
unfolding before
not-holds_slash-before [] = refl
not-holds_slash-before (c ∷ s) = ground (arith, not-holds_slash-before s)

pub starts_with-before :
    (s : Text) → holds_slash s ≡ true → starts_with s (before s ++ (slash ∷ [])) ≡ true
unfolding before
starts_with-before [] h = cc
starts_with-before (c ∷ s) h = ground (arith, starts_with-before s)

abbrev pub below : Text → Text → Text
below prefix name = prefix ++ before (drop (length prefix) name)

pub stands_below-below : (prefix name : Text) → stands_below prefix (below prefix name) ≡ true
stands_below-below prefix name = ground (
  arith,
  starts_with_self prefix (before (drop (length prefix) name)),
  ap holds_slash (drop-append prefix (before (drop (length prefix) name))),
  not-holds_slash-before (drop (length prefix) name),
)

pub is_above-below :
    (prefix name : Text)
    → starts_with name prefix ≡ true
    → holds_slash (drop (length prefix) name) ≡ true
    → is_above (below prefix name) name ≡ true
is_above-below prefix name h k =
    let rest = drop (length prefix) name in
    ap (λ n. is_above (below prefix name) n) (starts_with→append name prefix h)
    ∙ ap (starts_with (prefix ++ rest)) (append_assoc prefix (before rest) (slash ∷ []))
    ∙ starts_with-append prefix rest (before rest ++ (slash ∷ []))
    ∙ starts_with-before rest k
