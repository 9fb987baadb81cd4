-- ===== src/Preview/Facts.antt =====
-- What holds of a preview at all times, and what its parts say of each other.
use gothrough.Base.{
  ◌≡◌, refl, sym, ◌∙◌, inl, inr, Bool, true, false, ◌&&◌, ◌||◌, not, Option, none, some, is_some,
  Text, text_eq, text_eq_refl, Bool-cases, arith,
}
use mathlib.Core.Path.{subst}
use mathlib.Core.Bool.{true≢false}
use mathlib.Core.Option.{some-injective}
use gothrough.Preview.{Info, Draft, Action, Preview, is_text_of, is_dirty}

-- The shared draft is the text that is edited, on the version that it was begun from.
abbrev pub IsKept : Text → Option Info → Text → Option Draft → Type 0
IsKept name none text shared = Unit
IsKept name (some i) text shared = shared ≡ some (record { name = name; info = i; text = text })

-- What a save in flight has sent is what the editor shows.
abbrev pub OnSaving : Option (Text × Info) → Bool → Bool → Text → Option Info → Type 0
OnSaving none editing reloading draft info = Unit
OnSaving (some (t, i)) editing reloading draft info =
    (editing ≡ true) × (reloading ≡ false) × (draft ≡ t) × (info ≡ some i)

abbrev pub IsFresh : Preview → Type 0
IsFresh s =
    (s.editing ≡ false) × (s.info ≡ none) × (s.reloading ≡ false) × (s.pending_action ≡ none)

pub record Inv (name : Text) (s : Preview) : Type 0 where
  pub kept : s.gone ≡ false → is_dirty s ≡ true → IsKept name s.info s.draft s.shared
  pub on_saving : OnSaving s.saving s.editing s.reloading s.draft s.info
  pub fresh : s.loading ≡ true → IsFresh s

pub idle_from_editing :
    (sv : Option (Text × Info)) (e r : Bool) (d : Text) (i : Option Info)
    → OnSaving sv e r d i
    → e ≡ false
    → sv ≡ none
idle_from_editing none e r d i h q = refl
idle_from_editing (some (t, b)) e r d i h q = cc

pub idle_from_reloading :
    (sv : Option (Text × Info)) (e r : Bool) (d : Text) (i : Option Info)
    → OnSaving sv e r d i
    → r ≡ true
    → sv ≡ none
idle_from_reloading none e r d i h q = refl
idle_from_reloading (some (t, b)) e r d i h q = cc

pub OnSaving-none :
    (sv : Option (Text × Info)) (e r : Bool) (d : Text) (i : Option Info)
    → sv ≡ none
    → OnSaving sv e r d i
OnSaving-none sv e r d i q = rw q tt

pub idle_from_busy : (sv : Option (Text × Info)) (r : Bool) → (is_some sv || r) ≡ false → sv ≡ none
idle_from_busy none r h = refl
idle_from_busy (some x) r h = cc

pub none_not_some : (o : Option Info) (i : Info) → o ≡ none → o ≡ some i → ⊥
none_not_some o i p q = cc

pub text_of_self : (o : Option Info) (i : Info) → o ≡ some i → is_text_of o i.text ≡ true
text_of_self o i e = rw e (text_eq_refl i.text)

pub pending_not_fresh : (o : Option Action) (a : Action) → o ≡ none → o ≡ some a → ⊥
pending_not_fresh o a p q = cc

pub some_not_none : (o : Option (Text × Info)) (x : Text × Info) → o ≡ some x → o ≡ none → ⊥
some_not_none o x p q = cc

pub not_shown : (o : Option Info) → o ≡ none → is_some o ≡ true → ⊥
not_shown none p q = cc
not_shown (some i) p q = cc

pub and_left : (a b : Bool) → (a && b) ≡ true → a ≡ true
and_left a b h = ground arith

pub is_reloading : (r g : Bool) → (not r || g) ≡ false → r ≡ true
is_reloading r g h = ground arith

pub and_right : (a b : Bool) → (a && b) ≡ true → b ≡ true
and_right a b h = ground arith

pub dirty_text :
    (o : Option Info) (i : Info) (text : Text) (on : Bool)
    → o ≡ some i
    → (on && not (is_text_of o text)) ≡ true
    → not (text_eq text i.text) ≡ true
dirty_text none i text on e d = cc
dirty_text (some j) i text on e d =
    subst (λ (k : Info). not (text_eq text k.text) ≡ true) (some-injective _ _ e)
      (and_right on (not (text_eq text j.text)) d)

-- A fresh preview is not dirty.
pub fresh_clean : (s : Preview) → IsFresh s → is_dirty s ≡ false
fresh_clean s f = rw f.0 refl

pub not_loading : (name : Text) (s : Preview) → Inv name s → is_dirty s ≡ true → s.loading ≡ false
not_loading name s h d = elim (Bool-cases s.loading) [
  | inl l ↦ absurd (true≢false (sym d ∙ fresh_clean s (h.fresh l)))
  | inr l ↦ l
]
