-- ===== src/Queue/Keys.antt =====
-- What a selection does to the queue: the files it adds, by their keys.
use gothrough.Base.{
  ℕ, suc, ◌+◌, ◌≤◌, ◌≡◌, refl, ap, ◌∙◌, Bool, true, false, List, [], ◌∷◌, ◌++◌, map, any, sum_of,
  sum_of-append, bit, if_intro, if◌then◌else◌, arith, Text, text_eq, text_eq→eq, inl, inr,
  Bool-cases,
}
use gothrough.Upload.Types.{File}
use gothrough.Upload.FileKey.{get_file_key}
use gothrough.Queue.State.{Entry, Queue, key_of, refresh_file_list, show_elapsed}
use gothrough.Queue.Actions.{select_files, handle_selection, has_key}

-- How many entries have the key.
abbrev pub key_count : Text → List Entry → ℕ
key_count k = sum_of (λ (e : Entry). bit (text_eq k (key_of e)))

abbrev pub selects_key : Text → List File → Bool
selects_key k = any (λ file. text_eq k (get_file_key file))

key_count-show_elapsed :
    (k : Text) (now : ℕ) (es : List Entry)
    → key_count k (map (show_elapsed now) es) ≡ key_count k es
key_count-show_elapsed k now [] = refl
key_count-show_elapsed k now (e ∷ es) =
    ap (λ n. bit (text_eq k (key_of e)) + n) (key_count-show_elapsed k now es)

key_count-refresh_file_list :
    (k : Text) (now : ℕ) (q : Queue)
    → key_count k (refresh_file_list now q).entries ≡ key_count k q.entries
unfolding refresh_file_list
key_count-refresh_file_list k now q =
    if_intro (λ (t : Queue). key_count k t.entries ≡ key_count k q.entries) q.mounted _ _
      (λ _. key_count-show_elapsed k now q.entries) (λ _. refl)

-- The keys of the entries, as handleSelection's set holds them.
has_key-key_count :
    (k : Text) (es : List Entry) → has_key k (map key_of es) ≡ true → 1 ≤ key_count k es
has_key-key_count k [] h = ground arith
has_key-key_count k (e ∷ es) h = ground (arith, has_key-key_count k es)

key_count-has_key :
    (k : Text) (es : List Entry) → has_key k (map key_of es) ≡ false → key_count k es ≡ 0
key_count-has_key k [] h = refl
key_count-has_key k (e ∷ es) h = ground (arith, key_count-has_key k es)

has_key-eq :
    (k key : Text) (keys : List Text) → text_eq k key ≡ true → has_key k keys ≡ has_key key keys
has_key-eq k key keys h = ap (λ t. has_key t keys) (text_eq→eq k key h)

select_files-old :
    (k : Text) (files : List File) (keys : List Text) (n : ℕ)
    → has_key k keys ≡ true
    → key_count k (select_files files keys n) ≡ 0
unfolding select_files
select_files-old k [] keys n h = refl
select_files-old k (file ∷ files) keys n h =
    if_intro (λ es. key_count k es ≡ 0) (has_key (get_file_key file) keys) _ _
      (λ _. select_files-old k files keys n h)
      (λ new. ground (
        arith,
        select_files-old k files (get_file_key file ∷ keys) (suc n),
        has_key-eq k (get_file_key file) keys,
      ))

select_files-once :
    (k : Text) (files : List File) (keys : List Text) (n : ℕ)
    → key_count k (select_files files keys n) ≤ 1
unfolding select_files
select_files-once k [] keys n = omega arith
select_files-once k (file ∷ files) keys n =
    if_intro (λ es. key_count k es ≤ 1) (has_key (get_file_key file) keys) _ _
      (λ _. select_files-once k files keys n)
      (λ new. ground (
        arith,
        select_files-old k files (get_file_key file ∷ keys) (suc n),
        select_files-once k files (get_file_key file ∷ keys) (suc n),
      ))

select_files-all :
    (k : Text) (files : List File) (keys : List Text) (n : ℕ)
    → selects_key k files ≡ true
    → 1 ≤ bit (has_key k keys) + key_count k (select_files files keys n)
unfolding select_files
select_files-all k [] keys n h = ground arith
select_files-all k (file ∷ files) keys n h =
    if_intro (λ es. 1 ≤ bit (has_key k keys) + key_count k es) (has_key (get_file_key file) keys) _
      _
      (λ old.
        ground (arith, select_files-all k files keys n, has_key-eq k (get_file_key file) keys))
      (λ new. ground (arith, select_files-all k files (get_file_key file ∷ keys) (suc n)))

select_files-other :
    (k : Text) (files : List File) (keys : List Text) (n : ℕ)
    → selects_key k files ≡ false
    → key_count k (select_files files keys n) ≡ 0
unfolding select_files
select_files-other k [] keys n h = refl
select_files-other k (file ∷ files) keys n h =
    if_intro (λ es. key_count k es ≡ 0) (has_key (get_file_key file) keys) _ _
      (λ old. ground (arith, select_files-other k files keys n))
      (λ new. ground (arith, select_files-other k files (get_file_key file ∷ keys) (suc n)))

abbrev pub IsDistinct : List Entry → Type 0
IsDistinct es = (k : Text) → key_count k es ≤ 1

append_selected-key_count :
    (k : Text) (files : List File) (es : List Entry) (n : ℕ)
    → key_count k es ≤ 1
    → key_count k (es ++ select_files files (map key_of es) n)
      ≡ (if selects_key k files then 1 else key_count k es)
append_selected-key_count k files es n one =
    let added = select_files files (map key_of es) n in
    let total = sum_of-append (λ (e : Entry). bit (text_eq k (key_of e))) es added in
    elim (Bool-cases (selects_key k files)) [
      | inr unasked ↦
          rw unasked (omega (arith, total, select_files-other k files (map key_of es) n unasked))
      | inl asked ↦ rw asked (elim (Bool-cases (has_key k (map key_of es))) [
        | inl old ↦ omega (
          arith,
          total,
          one,
          has_key-key_count k es old,
          select_files-old k files (map key_of es) n old,
        )
        | inr new ↦ ground (
          arith,
          total,
          key_count-has_key k es new,
          select_files-once k files (map key_of es) n,
          select_files-all k files (map key_of es) n asked,
        )
      ])
    ]

-- After a selection, in a queue without two files of one key, each key that was selected stands
-- once, whether it was there or not and however often it was selected; the others as before.
pub handle_selection-key_count :
    (k : Text) (files : List File) (now : ℕ) (q : Queue)
    → IsDistinct q.entries
    → key_count k (handle_selection files now q).entries
      ≡ (if selects_key k files then 1 else key_count k q.entries)
unfolding handle_selection
handle_selection-key_count k files now q h =
    key_count-refresh_file_list k now _
    ∙ append_selected-key_count k files q.entries q.next_id (h k)
