-- ===== src/Files/Folders.antt =====
-- The folders that the listed files lie in, and the directory that is shown.
pub mod Members
pub mod Nearest
use gothrough.Base.{
  ℕ, zero, suc, ◌-◌, ◌≤◌, ◌<◌, ◌≡◌, refl, ap, sym, ◌∙◌, ◌⊎◌, inl, inr, Bool, true, false, ◌&&◌,
  ◌||◌, List, [], ◌∷◌, ◌++◌, length, take, any, if_intro, if◌then◌else◌, ◌==◌, Text, text_eq,
  text_eq→eq, starts_with, is_empty, arith, Bool-cases,
}
use mathlib.Core.Path.{subst}
use gothrough.Files.Paths.{
  slash, push_head, split, join, parent, IsFilled, split-IsFilled, split-IsPart, join-push_head,
  join-nil_cons, join-split, parent-join-take, take-length,
}

-- A `Set` of texts, in the order in which they came.
abbrev pub has : Text → List Text → Bool
has p = any (text_eq p)

abbrev pub add : Text → List Text → List Text
add p set = if has p set then set else set ++ (p ∷ [])

-- The inner loop: the leading parts from `index` on, `n` of them.
pub add_parents : ℕ → ℕ → List Text → List Text → List Text
add_parents zero index parts set = set
add_parents (suc n) index parts set =
    add_parents n (suc index) parts (add (join (take index parts)) set)

pub add_name : Text → List Text → List Text
add_name name set = add_parents (length (split name) - 1) 1 (split name) set

-- The outer loop, over the names of the files.
pub folders_from : List Text → List Text → List Text
folders_from [] set = set
folders_from (name ∷ names) set = folders_from names (add_name name set)

pub folders : List Text → List Text
folders names = folders_from names []

-- The `while` loop of `directory`; each round takes a part off, so the parts are fuel enough.
pub climb : ℕ → List Text → Text → Text
climb zero set current = current
climb (suc fuel) set current =
    let above = climb fuel set (parent current) in
    if is_empty current || has current set then current else above

pub directory : List Text → Text → Text
directory set requested = climb (length (split requested)) set requested
