-- ===== src/Upload/FileKey.antt =====
-- utils/droppedFiles.ts getUploadPath and utils/upload.ts getFileKey.
use mathlib.Core.List.{append_assoc}
use gothrough.Base.{
  ℕ, ◌≡◌, refl, sym, ap, ◌∙◌, none, some, [], ◌∷◌, ◌++◌, All, Text, is_empty, if◌then◌else◌, arith,
}
use gothrough.Base.Decimal.{decimal, IsDigit, number_from, number_from-decimal, decimal-IsDigit}
use gothrough.Upload.Types.{File}

-- `a || b` on texts: the empty text is falsy.
abbrev pub or_text : Text → Text → Text
or_text a b = if is_empty a then b else a

unfoldable pub get_upload_path : File → Text
get_upload_path file = elim file.dropped_path [
  | none ↦ or_text file.webkit_relative_path file.name
  | some path ↦ or_text path (or_text file.webkit_relative_path file.name)
]

-- `${getUploadPath(file)}-${file.size}-${file.lastModified}`
unfoldable pub get_file_key : File → Text
get_file_key file =
    get_upload_path file ++ (b'-' ∷ (decimal file.size ++ (b'-' ∷ decimal file.last_modified)))

-- Digits hold no dash.
no_dash : (t u v : Text) → All IsDigit u → u ≡ t ++ (b'-' ∷ v) → ⊥
no_dash [] [] v hu e = cc
no_dash [] (c ∷ u) v hu e = ground arith
no_dash (b ∷ t) [] v hu e = cc
no_dash (b ∷ t) (c ∷ u) v hu e = no_dash t u v hu.1 (ground arith)

-- Texts that end in a dash and digits are split at that dash in one way.
last_dash :
    (s t u v : Text)
    → All IsDigit u
    → All IsDigit v
    → s ++ (b'-' ∷ u) ≡ t ++ (b'-' ∷ v)
    → (s ≡ t) × (u ≡ v)
last_dash [] [] u v hu hv e = (refl, ground arith)
last_dash [] (b ∷ t) u v hu hv e = absurd (no_dash t u v hu (ground arith))
last_dash (a ∷ s) [] u v hu hv e = absurd (no_dash s v u hv (ground arith))
last_dash (a ∷ s) (b ∷ t) u v hu hv e = ground (arith, last_dash s t u v hu hv)

decimal-injective : (m n : ℕ) → decimal m ≡ decimal n → m ≡ n
decimal-injective m n e = sym (number_from-decimal m) ∙ ap (number_from 0) e ∙ number_from-decimal n

-- Two files with one key have the same path, size and modification time.
pub get_file_key-injective :
    (f g : File)
    → get_file_key f ≡ get_file_key g
    → (get_upload_path f ≡ get_upload_path g)
      × (f.size ≡ g.size)
      × (f.last_modified ≡ g.last_modified)
unfolding get_file_key
get_file_key-injective f g e =
    (front.0, decimal-injective _ _ front.1, decimal-injective _ _ back.1)
  where
    head_of : File → Text
    head_of h = get_upload_path h ++ (b'-' ∷ decimal h.size)

    regroup :
        (h : File)
        → get_upload_path h ++ (b'-' ∷ (decimal h.size ++ (b'-' ∷ decimal h.last_modified)))
          ≡ head_of h ++ (b'-' ∷ decimal h.last_modified)
    regroup h =
        sym (
          append_assoc (get_upload_path h) (b'-' ∷ decimal h.size) (b'-' ∷ decimal h.last_modified))

    back : (head_of f ≡ head_of g) × (decimal f.last_modified ≡ decimal g.last_modified)
    back =
        last_dash (head_of f) (head_of g) (decimal f.last_modified) (decimal g.last_modified)
          (decimal-IsDigit f.last_modified) (decimal-IsDigit g.last_modified)
          (sym (regroup f) ∙ e ∙ regroup g)

    front : (get_upload_path f ≡ get_upload_path g) × (decimal f.size ≡ decimal g.size)
    front =
        last_dash (get_upload_path f) (get_upload_path g) (decimal f.size) (decimal g.size)
          (decimal-IsDigit f.size) (decimal-IsDigit g.size) back.0
