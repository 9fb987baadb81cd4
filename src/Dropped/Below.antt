-- ===== src/Dropped/Below.antt =====
-- Every file of a dropped directory keeps its place below that directory.
use mathlib.Core.Path.{subst}
use gothrough.Base.{
  ◌≡◌, refl, sym, ◌∙◌, true, false, some, List, [], ◌∷◌, ◌++◌, All, Text, codes, is_empty,
  starts_with, arith, if_intro,
}
use gothrough.Upload.Types.{File}
use gothrough.Upload.FileKey.{get_upload_path}
use gothrough.Dropped.{
  Settled, refused_with, given, FileSystemEntry, file_entry, directory_entry, other_entry, Batches,
  drained, refused, batch, Siblings, no_more, sibling, visit,
}
use gothrough.Dropped.Leaves.{leaves, leaves_of_batches, leaves_of_siblings, gather, visit-gather}

given-injective :
    {E : Type 0} (a b : List File) → Path (Settled E (List File)) (given a) (given b) → a ≡ b
given-injective a b e = cc

starts_with_refl : (s : Text) → starts_with s s ≡ true
starts_with_refl [] = refl
starts_with_refl (c ∷ s) = ground (arith, starts_with_refl s)

starts_with_append : (s t q : Text) → starts_with s q ≡ true → starts_with (s ++ t) q ≡ true
starts_with_append s t [] h = refl
starts_with_append [] t (c ∷ q) h = ground arith
starts_with_append (d ∷ s) t (c ∷ q) h = ground (arith, starts_with_append s t q)

nonempty : (s q : Text) → is_empty q ≡ false → starts_with s q ≡ true → is_empty s ≡ true → ⊥
nonempty s [] full h e = cc
nonempty [] (c ∷ q) full h e = cc
nonempty (d ∷ s) (c ∷ q) full h e = cc

All-append {ℓ κ} :
    {A : Type ℓ} (P : A → Type κ) (xs ys : List A) → All P xs → All P ys → All P (xs ++ ys)
All-append P [] ys h k = k
All-append P (x ∷ xs) ys h k = (h.0, All-append P xs ys h.1 k)

slash_full : (s : Text) → is_empty (s ++ codes "/") ≡ false
slash_full [] = refl
slash_full (c ∷ s) = refl

module _ (q : Text) (full : is_empty q ≡ false) where
  abbrev IsBelow : File → Type 0
  IsBelow f = starts_with (get_upload_path f) q ≡ true

  leaf-IsBelow :
      (name parent : Text) (f : File)
      → starts_with parent q ≡ true
      → IsBelow (record f { dropped_path = some (parent ++ name) })
  unfolding get_upload_path
  leaf-IsBelow name parent f h =
      let long = starts_with_append parent name q h in
      if_intro (λ t. starts_with t q ≡ true) (is_empty (parent ++ name)) _ _
        (λ e. absurd (nonempty (parent ++ name) q full long e)) (λ _. long)

module _ {E : Type 0} where
  abbrev HoldsOf : (File → Type 0) → Settled E File → Type 0
  HoldsOf P (refused_with e) = Unit
  HoldsOf P (given f) = P f

  gather-All :
      (P : File → Type 0) (xs : List (Settled E File)) (files result : List File)
      → All (HoldsOf P) xs
      → All P files
      → gather xs files ≡ given result
      → All P result
  gather-All P [] files result h k e = subst (All P) (given-injective files result e) k
  gather-All P (refused_with e' ∷ xs) files result h k e = cc
  gather-All P (given f ∷ xs) files result h k e =
      gather-All P xs (files ++ (f ∷ [])) result h.1 (All-append P files (f ∷ []) k (h.0, tt)) e

  module _ (q : Text) (full : is_empty q ≡ false) where
    mutual
      unfolding leaves leaves_of_batches leaves_of_siblings

      leaves-IsBelow :
          (entry : FileSystemEntry E) (parent : Text)
          → starts_with parent q ≡ true
          → All (HoldsOf (IsBelow q full)) (leaves entry parent)
      leaves-IsBelow (file_entry name (refused_with e)) parent h = (tt, tt)
      leaves-IsBelow (file_entry name (given f)) parent h =
          (leaf-IsBelow q full name parent f h, tt)
      leaves-IsBelow (directory_entry name b) parent h =
          batches-IsBelow b ((parent ++ name) ++ codes "/")
            (starts_with_append (parent ++ name) (codes "/") q (starts_with_append parent name q h))
      leaves-IsBelow (other_entry name) parent h = tt

      batches-IsBelow :
          (b : Batches E) (path : Text)
          → starts_with path q ≡ true
          → All (HoldsOf (IsBelow q full)) (leaves_of_batches b path)
      batches-IsBelow drained path h = tt
      batches-IsBelow (refused e) path h = (tt, tt)
      batches-IsBelow (batch child children rest) path h =
          All-append (HoldsOf (IsBelow q full)) (leaves child path) _ (leaves-IsBelow child path h)
            (All-append (HoldsOf (IsBelow q full)) (leaves_of_siblings children path) _
              (siblings-IsBelow children path h) (batches-IsBelow rest path h))

      siblings-IsBelow :
          (c : Siblings E) (path : Text)
          → starts_with path q ≡ true
          → All (HoldsOf (IsBelow q full)) (leaves_of_siblings c path)
      siblings-IsBelow no_more path h = tt
      siblings-IsBelow (sibling child children) path h =
          All-append (HoldsOf (IsBelow q full)) (leaves child path) _ (leaves-IsBelow child path h)
            (siblings-IsBelow children path h)

  -- Where a dropped directory is collected, every file that it brings is uploaded under a path that
  -- begins with the path of that directory and a slash.
  pub visit-directory_IsBelow :
      (name parent : Text) (batches : Batches E) (files : List File)
      → visit (directory_entry name batches) parent [] ≡ given files
      → All
          (λ (f : File). starts_with (get_upload_path f) ((parent ++ name) ++ codes "/") ≡ true)
          files
  unfolding leaves leaves_of_batches leaves_of_siblings
  visit-directory_IsBelow name parent batches files e =
      let q = (parent ++ name) ++ codes "/" in
      gather-All (IsBelow q (slash_full (parent ++ name))) (leaves_of_batches batches q) [] files
        (batches-IsBelow q (slash_full (parent ++ name)) batches q (starts_with_refl q)) tt
        (sym (visit-gather (directory_entry name batches) parent []) ∙ e)
