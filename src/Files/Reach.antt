-- ===== src/Files/Reach.antt =====
-- Every file below the directory that is shown is shown, or lies in a folder that is.
use Prim.Native.Nat.{Ordering}
use mathlib.Core.Path.{subst}
use gothrough.Base.{
  ℕ, ◌≡◌, refl, ap, ◌∙◌, inl, inr, Bool, true, false, ◌&&◌, not, List, [], ◌∷◌, ◌++◌, map, keep,
  any, length, drop, if◌then◌else◌, Text, text_eq, text_eq→eq, text_eq_refl, starts_with, arith,
  Bool-cases,
}
use gothrough.Files.Folders.{folders, has}
use gothrough.Files.Folders.Members.{is_above, has-folders}
use gothrough.Files.Browse.{
  Listed, BrowserEntry, holds_slash, prefix_of, stands_below, file_entries, folder_entries,
  file_entry, folder_entry, names_of, directory_entries, SortField, compare_entries, filtered,
}
use gothrough.Files.Texts.{
  any-append, any-keep, any_mono, any-map, starts_with→append, below, stands_below-below,
  is_above-below,
}

-- An entry that is the file, or a folder that the file lies in.
abbrev pub shows_way : Text → BrowserEntry → Bool
shows_way name e = if e.folder then is_above e.file.name name else text_eq e.file.name name

abbrev pub is_listed : Text → List Listed → Bool
is_listed name = any (λ (f : Listed). text_eq f.name name)

module _ (prefix name : Text) (files : List Listed) (listed : is_listed name files ≡ true)
    (under : starts_with name prefix ≡ true) where
  way_by_file :
      holds_slash (drop (length prefix) name) ≡ false
      → any (shows_way name) (
          map
            (λ (f : Listed). file_entry (drop (length prefix) f.name) f)
            (keep (λ (f : Listed). stands_below prefix f.name) files))
        ≡ true
  way_by_file h =
      any-map (shows_way name) (λ (f : Listed). file_entry (drop (length prefix) f.name) f) _
      ∙ any-keep (λ (f : Listed). text_eq f.name name) (λ (f : Listed). stands_below prefix f.name)
          files
      ∙ any_mono (λ (f : Listed). text_eq f.name name)
          (λ (f : Listed). stands_below prefix f.name && text_eq f.name name) files
          (λ f e. ground (arith, ap (stands_below prefix) (text_eq→eq f.name name e), under, h))
          listed

  has-above : (p : Text) → is_above p name ≡ true → has p (folders (names_of files)) ≡ true
  has-above p h =
      has-folders p (names_of files)
      ∙ any-map (is_above p) (λ (f : Listed). f.name) files
      ∙ any_mono (λ (f : Listed). text_eq f.name name) (λ (f : Listed). is_above p f.name) files
          (λ f e. ap (is_above p) (text_eq→eq f.name name e) ∙ h) listed

  way_by_folder :
      holds_slash (drop (length prefix) name) ≡ true
      → any
          (shows_way name)
          (map (folder_entry prefix) (keep (stands_below prefix) (folders (names_of files))))
        ≡ true
  way_by_folder h =
      any-map (shows_way name) (folder_entry prefix) _
      ∙ any-keep (λ q. is_above q name) (stands_below prefix) (folders (names_of files))
      ∙ any_mono (text_eq (below prefix name)) (λ q. stands_below prefix q && is_above q name)
          (folders (names_of files))
          (λ q e.
            subst (λ r. (stands_below prefix r && is_above r name) ≡ true)
              (text_eq→eq (below prefix name) q e)
              (ground (arith, stands_below-below prefix name, is_above-below prefix name under h)))
          (has-above (below prefix name) (is_above-below prefix name under h))

  directory_entries-way : any (shows_way name) (directory_entries prefix files) ≡ true
  unfolding directory_entries
  directory_entries-way =
      any-append (shows_way name) (file_entries prefix files)
        (folder_entries prefix (folders (names_of files)))
      ∙ (elim (Bool-cases (holds_slash (drop (length prefix) name))) [
        | inl deep ↦ ground (arith, way_by_folder deep)
        | inr direct ↦ ground (arith, way_by_file direct)
      ])

-- An entry's label is its name without the directory, and stands directly in it; its name is that
-- of a listed file, or of a folder.
abbrev pub is_fitting : Text → List Listed → BrowserEntry → Bool
is_fitting prefix files e =
    text_eq e.file.name (prefix ++ e.label)
    && (not (holds_slash e.label)
        && (if e.folder
            then has e.file.name (folders (names_of files))
            else is_listed e.file.name files))

abbrev pub misfits : Text → List Listed → BrowserEntry → Bool
misfits prefix files e = not (is_fitting prefix files e)

module _ {ℓ} {A : Type ℓ} (E : A → A → Bool) (same : (x : A) → E x x ≡ true) (all : List A) where
  -- Each member of a list is like a member of the list.
  any_self_from :
      (xs : List A)
      → ((x : A) → any (E x) xs ≡ true → any (E x) all ≡ true)
      → any (λ x. not (any (E x) all)) xs ≡ false
  any_self_from [] h = refl
  any_self_from (x ∷ xs) h =
      ground (arith, h x, same x, any_self_from xs (λ y m. h y (ground (arith, m))))

  any_self : any (λ x. not (any (E x) all)) all ≡ false
  any_self = any_self_from all (λ x m. m)

any_anti {ℓ} :
    {A : Type ℓ} (P Q : A → Bool) (xs : List A)
    → ((x : A) → P x ≡ false → Q x ≡ false)
    → any P xs ≡ false
    → any Q xs ≡ false
any_anti P Q [] f h = refl
any_anti P Q (x ∷ xs) f h = ground (arith, f x, any_anti P Q xs f)

fits_below :
    (prefix name : Text)
    → stands_below prefix name ≡ true
    → text_eq name (prefix ++ drop (length prefix) name) ≡ true
fits_below prefix name h =
    subst (λ t. text_eq name t ≡ true) (starts_with→append name prefix (ground (arith, h)))
      (text_eq_refl name)

module _ (prefix : Text) (files : List Listed) where
  file_entries_fit : any (misfits prefix files) (file_entries prefix files) ≡ false
  file_entries_fit =
      any-map (misfits prefix files) (λ (f : Listed). file_entry (drop (length prefix) f.name) f) _
      ∙ any-keep (λ (f : Listed). misfits prefix files (file_entry (drop (length prefix) f.name) f))
          (λ (f : Listed). stands_below prefix f.name) files
      ∙ any_anti (λ (f : Listed). not (is_listed f.name files)) _ files
          (λ f listed. ground (arith, listed, fits_below prefix f.name))
          (any_self (λ (f g : Listed). text_eq g.name f.name) (λ f. text_eq_refl f.name) files)

  folder_entries_fit :
      any (misfits prefix files) (folder_entries prefix (folders (names_of files))) ≡ false
  folder_entries_fit =
      any-map (misfits prefix files) (folder_entry prefix) _
      ∙ any-keep (λ p. misfits prefix files (folder_entry prefix p)) (stands_below prefix)
          (folders (names_of files))
      ∙ any_anti (λ p. not (has p (folders (names_of files)))) _ (folders (names_of files))
          (λ p listed. ground (arith, listed, fits_below prefix p))
          (any_self text_eq text_eq_refl (folders (names_of files)))

  directory_entries_fit : any (misfits prefix files) (directory_entries prefix files) ≡ false
  unfolding directory_entries
  directory_entries_fit =
      any-append (misfits prefix files) (file_entries prefix files)
        (folder_entries prefix (folders (names_of files)))
      ∙ ground (arith, file_entries_fit, folder_entries_fit)

-- Array.prototype.sort keeps the members, whatever the comparison.
module _ (fold : Text → Text) (numeric plain : Text → Text → Ordering) (timestamp : Text → ℕ)
    (sort : (BrowserEntry → BrowserEntry → Ordering) → List BrowserEntry → List BrowserEntry)
    (sort-any : (c : BrowserEntry → BrowserEntry → Ordering) (xs : List BrowserEntry)
        (P : BrowserEntry → Bool)
      → any P (sort c xs) ≡ any P xs) where
  -- In a directory, and without a search, each listed file below it is shown itself or lies in a
  -- folder that is shown.
  pub filtered_reaches :
      (directory : Text) (field : SortField) (up : Bool) (files : List Listed) (name : Text)
      → is_listed name files ≡ true
      → starts_with name (prefix_of directory) ≡ true
      → any
          (shows_way name)
          (filtered fold numeric plain timestamp sort [] directory field up files)
        ≡ true
  unfolding filtered
  filtered_reaches directory field up files name listed under =
      sort-any (compare_entries fold numeric plain timestamp field up)
        (directory_entries (prefix_of directory) files) (shows_way name)
      ∙ directory_entries-way (prefix_of directory) name files listed under

  -- In a directory, and without a search, each entry that is shown has as its label what its name
  -- adds to the directory, which holds no slash; its name is a listed file's, or a folder's.
  pub filtered_fits :
      (directory : Text) (field : SortField) (up : Bool) (files : List Listed)
      → any
          (misfits (prefix_of directory) files)
          (filtered fold numeric plain timestamp sort [] directory field up files)
        ≡ false
  unfolding filtered
  filtered_fits directory field up files =
      sort-any (compare_entries fold numeric plain timestamp field up)
        (directory_entries (prefix_of directory) files) (misfits (prefix_of directory) files)
      ∙ directory_entries_fit (prefix_of directory) files
