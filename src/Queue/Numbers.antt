-- ===== src/Queue/Numbers.antt =====
-- The item objects of the queue have distinct numbers, all below the next one.
use gothrough.Base.{
  ℕ, zero, suc, ◌≤◌, ◌≡◌, refl, ◌||◌, not, Option, none, some, List, [], ◌∷◌, ◌++◌, map,
  sum_of-append, bit, if_intro, ◌==◌, arith, Text, text_eq, ◌⊎◌, inl, inr, ◌<◌,
}
use gothrough.Upload.Types.{File}
use gothrough.Upload.FileKey.{get_file_key}
use gothrough.Queue.State.{Entry, UploadRun, Queue, key_of, refresh_file_list, show_elapsed}
use gothrough.Queue.Actions.{select_files, advance, handle_selection, has_key, remove_key}
use gothrough.Queue.Run.{
  update_entry, includes, start_entry, worker_loop, turn_worker, start_workers, start_run,
}
use gothrough.Queue.Slots.{entry_count}

le_or_gt : (a b : ℕ) → (a ≤ b) ⊎ (b < a)
le_or_gt a b = ground arith

pub record IdInv (es : List Entry) (n : ℕ) : Type 0 where
  pub once : (i : ℕ) → entry_count i es ≤ 1
  pub fresh : (i : ℕ) → n ≤ i → entry_count i es ≡ 0

abbrev pub QueueIdInv : Queue → Type 0
QueueIdInv q = IdInv q.entries q.next_id

pub entry_count-map :
    (i : ℕ) (f : Entry → Entry) (es : List Entry)
    → ((e : Entry) → (f e).id ≡ e.id)
    → entry_count i (map f es) ≡ entry_count i es
entry_count-map i f [] h = refl
entry_count-map i f (e ∷ es) h = rw (h e, entry_count-map i f es h) refl

pub entry_count-update_entry :
    (i id : ℕ) (f : Entry → Entry) (es : List Entry)
    → ((e : Entry) → (f e).id ≡ e.id)
    → entry_count i (update_entry id f es) ≡ entry_count i es
unfolding update_entry
entry_count-update_entry i id f [] h = refl
entry_count-update_entry i id f (e ∷ es) h =
    if_intro (λ xs. entry_count i xs ≡ entry_count i (e ∷ es)) (e.id == id) _ _
      (λ h₂. rw (h e) refl) (λ h₂. rw (entry_count-update_entry i id f es h) refl)

-- What holds of the old numbers holds where no number is more frequent.
pub IdInv-le :
    (es fs : List Entry) (n : ℕ)
    → ((i : ℕ) → entry_count i fs ≤ entry_count i es)
    → IdInv es n
    → IdInv fs n
IdInv-le es fs n h inv = record {
  once = λ i. omega (arith, h i, inv.once i);
  fresh = λ i le. omega (arith, h i, inv.fresh i le);
}

pub IdInv-map :
    (f : Entry → Entry) (es : List Entry) (n : ℕ)
    → ((e : Entry) → (f e).id ≡ e.id)
    → IdInv es n
    → IdInv (map f es) n
IdInv-map f es n h = IdInv-le es (map f es) n (λ i. omega (arith, entry_count-map i f es h))

pub IdInv-update_entry :
    (id : ℕ) (f : Entry → Entry) (es : List Entry) (n : ℕ)
    → ((e : Entry) → (f e).id ≡ e.id)
    → IdInv es n
    → IdInv (update_entry id f es) n
IdInv-update_entry id f es n h =
    IdInv-le es (update_entry id f es) n (λ i. omega (arith, entry_count-update_entry i id f es h))

pub refresh_file_list-IdInv :
    (now : ℕ) (q : Queue) → QueueIdInv q → QueueIdInv (refresh_file_list now q)
unfolding refresh_file_list
refresh_file_list-IdInv now q h =
    if_intro QueueIdInv q.mounted _ _
      (λ on. IdInv-map (show_elapsed now) q.entries q.next_id (λ e. refl) h) (λ off. h)

worker_loop-IdInv :
    (k now : ℕ) (r : UploadRun) (rest : List ℕ) (q : Queue)
    → QueueIdInv q
    → QueueIdInv (worker_loop k now r rest q)
unfolding worker_loop
worker_loop-IdInv k now r [] q h = h
worker_loop-IdInv k now r (id ∷ rest) q h =
    if_intro QueueIdInv (r.cancelled || not q.mounted) _ _ (λ _. h)
      (λ _.
        if_intro QueueIdInv q.global_paused _ _ (λ _. h)
          (λ _.
            if_intro QueueIdInv (includes id q.entries) _ _
              (λ _. refresh_file_list-IdInv now _ (
                IdInv-update_entry id (start_entry now q.global_paused) q.entries q.next_id
                  (λ e. refl) h))
              (λ _. worker_loop-IdInv k now r rest q h)))

pub turn_worker-IdInv :
    (k now : ℕ) (run : Option UploadRun) (q : Queue)
    → QueueIdInv q
    → QueueIdInv (turn_worker k now run q)
unfolding turn_worker
turn_worker-IdInv k now none q h = h
turn_worker-IdInv k now (some r) q h = worker_loop-IdInv k now r r.remaining q h

start_workers-IdInv :
    (n k now : ℕ) (q : Queue) → QueueIdInv q → QueueIdInv (start_workers n k now q)
unfolding start_workers
start_workers-IdInv zero k now q h = h
start_workers-IdInv (suc n) k now q h =
    start_workers-IdInv n (suc k) now _ (turn_worker-IdInv k now q.run q h)

pub start_run-IdInv :
    (ids : List ℕ) (now : ℕ) (q : Queue) → QueueIdInv q → QueueIdInv (start_run ids now q)
unfolding start_run
start_run-IdInv [] now q h = h
start_run-IdInv (id ∷ ids) now q h = start_workers-IdInv _ 0 now _ h

-- The files that are selected get the numbers from `n` on, each once.
advance-le : (es : List Entry) (n : ℕ) → n ≤ advance es n
advance-le [] n = omega arith
advance-le (e ∷ es) n = omega (arith, advance-le es (suc n))

record NewIds (n : ℕ) (es : List Entry) : Type 0 where
  once : (i : ℕ) → entry_count i es ≤ 1
  from : (i : ℕ) → suc i ≤ n → entry_count i es ≡ 0
  upto : (i : ℕ) → advance es n ≤ i → entry_count i es ≡ 0

NewIds-cons :
    (n : ℕ) (e : Entry) (es : List Entry) → e.id ≡ n → NewIds (suc n) es → NewIds n (e ∷ es)
NewIds-cons n e es at h = record {
  once = λ i. ground (arith, h.once i, h.from i);
  from = λ i le. ground (arith, h.from i);
  upto = λ i le. ground (arith, h.upto i, advance-le es (suc n));
}

select_files-NewIds :
    (files : List File) (keys : List Text) (n : ℕ) → NewIds n (select_files files keys n)
unfolding select_files
select_files-NewIds [] keys n = record {
  once = λ i. omega arith;
  from = λ i le. refl;
  upto = λ i le. refl;
}
select_files-NewIds (file ∷ files) keys n =
    if_intro (NewIds n) (has_key (get_file_key file) keys) _ _
      (λ _. select_files-NewIds files keys n)
      (λ _. NewIds-cons n _ _ refl (select_files-NewIds files (get_file_key file ∷ keys) (suc n)))

IdInv-append :
    (es added : List Entry) (n : ℕ)
    → IdInv es n
    → NewIds n added
    → IdInv (es ++ added) (advance added n)
IdInv-append es added n h new = record {
  once = λ i. elim (le_or_gt n i) [
    | inl le ↦
        omega
          (arith, sum_of-append (λ (e : Entry). bit (e.id == i)) es added, h.fresh i le, new.once i)
    | inr gt ↦
        omega
          (arith, sum_of-append (λ (e : Entry). bit (e.id == i)) es added, h.once i, new.from i gt)
  ];
  fresh = λ i le. omega (
    arith,
    sum_of-append (λ (e : Entry). bit (e.id == i)) es added,
    h.fresh i (omega (arith, advance-le added n)),
    new.upto i le,
  );
}

pub handle_selection-IdInv :
    (files : List File) (now : ℕ) (q : Queue)
    → QueueIdInv q
    → QueueIdInv (handle_selection files now q)
unfolding handle_selection
handle_selection-IdInv files now q h = refresh_file_list-IdInv now _ (
    IdInv-append q.entries _ q.next_id h
      (select_files-NewIds files (map key_of q.entries) q.next_id))

entry_count-remove_key_le :
    (i : ℕ) (key : Text) (es : List Entry) → entry_count i (remove_key key es) ≤ entry_count i es
unfolding remove_key
entry_count-remove_key_le i key [] = omega arith
entry_count-remove_key_le i key (e ∷ es) =
    if_intro (λ xs. entry_count i xs ≤ entry_count i (e ∷ es)) (text_eq (key_of e) key) _ _
      (λ _. omega arith) (λ _. omega (arith, entry_count-remove_key_le i key es))

pub IdInv-remove_key :
    (key : Text) (es : List Entry) (n : ℕ) → IdInv es n → IdInv (remove_key key es) n
IdInv-remove_key key es n =
    IdInv-le es (remove_key key es) n (λ i. entry_count-remove_key_le i key es)
