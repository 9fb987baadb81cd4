-- ===== src/Queue/Slots.antt =====
-- Which files the workers of a run take: each at most once, and at most two at a time.
use gothrough.Base.{
  ℕ, zero, suc, ◌+◌, ◌≤◌, ◌<◌, ◌≡◌, refl, ◌∙◌, ◌||◌, ◌&&◌, not, Option, none, some, List, [], ◌∷◌,
  length, length-set, get_elem?, sum_of, sum_of-set, count, bit, if_intro, ◌==◌, arith, Text,
}
use gothrough.Upload.Types.{UploadItem, max_concurrent_files}
use gothrough.Queue.State.{
  Entry, Slot, parked, finished, busy, cleaning, UploadRun, Queue, is_pending, is_error,
  refresh_file_list,
}
use gothrough.Queue.Run.{
  pick_pending, matches_key, includes, put_slot, worker_loop, turn_worker, start_workers, start_run,
  catch_upload,
}

abbrev pub slot_carries : ℕ → Slot → ℕ
slot_carries i (busy id) = bit (id == i)
slot_carries i (cleaning id) = bit (id == i)
slot_carries i _ = 0

-- How often a file of the run is still to come or under way.
abbrev pub open_count : ℕ → UploadRun → ℕ
open_count i r = count i r.remaining + sum_of (slot_carries i) r.slots

-- How many entries have the number `i`.
abbrev pub entry_count : ℕ → List Entry → ℕ
entry_count i = sum_of (λ (e : Entry). bit (e.id == i))

pub record RunInv (r : UploadRun) : Type 0 where
  pub two : length r.slots ≡ max_concurrent_files
  pub single : (i : ℕ) → open_count i r ≤ 1

abbrev pub OptRunInv : Option UploadRun → Type 0
OptRunInv none = Unit
OptRunInv (some r) = RunInv r

-- A worker's place is written, and what is left to come.
put_slot-RunInv :
    (k : ℕ) (slot old : Slot) (rest : List ℕ) (r : UploadRun)
    → get_elem? r.slots k ≡ some old
    → length r.slots ≡ max_concurrent_files
    → ((i : ℕ)
        → count i rest + sum_of (slot_carries i) r.slots + slot_carries i slot
          ≤ 1 + slot_carries i old)
    → RunInv (put_slot k slot (record r { remaining = rest }))
put_slot-RunInv k slot old rest r at two one = record {
  two = length-set r.slots k slot ∙ two;
  single = λ i. omega (arith, sum_of-set (slot_carries i) r.slots k old slot at, one i);
}

pub refresh_file_list-OptRunInv :
    (now : ℕ) (q : Queue) → OptRunInv q.run → OptRunInv (refresh_file_list now q).run
unfolding refresh_file_list
refresh_file_list-OptRunInv now q h =
    if_intro (λ (t : Queue). OptRunInv t.run) q.mounted _ _ (λ _. h) (λ _. h)

-- A worker that holds nothing, or has let go of what it held, goes round its loop.
worker_loop-RunInv :
    (k now : ℕ) (r : UploadRun) (rest : List ℕ) (q : Queue) (old : Slot)
    → get_elem? r.slots k ≡ some old
    → length r.slots ≡ max_concurrent_files
    → ((i : ℕ) → count i rest + sum_of (slot_carries i) r.slots ≤ 1 + slot_carries i old)
    → OptRunInv (worker_loop k now r rest q).run
unfolding worker_loop
worker_loop-RunInv k now r [] q old at two one =
    put_slot-RunInv k finished old [] r at two (λ i. omega (arith, one i))
worker_loop-RunInv k now r (id ∷ rest) q old at two one =
    if_intro (λ (t : Queue). OptRunInv t.run) (r.cancelled || not q.mounted) _ _
      (λ h. put_slot-RunInv k finished old (id ∷ rest) r at two (λ i. omega (arith, one i)))
      (λ h.
        if_intro (λ (t : Queue). OptRunInv t.run) q.global_paused _ _
          (λ h₂. put_slot-RunInv k parked old (id ∷ rest) r at two (λ i. omega (arith, one i)))
          (λ h₂.
            if_intro (λ (t : Queue). OptRunInv t.run) (includes id q.entries) _ _
              (λ h₃.
                refresh_file_list-OptRunInv now _
                  (put_slot-RunInv k (busy id) old rest r at two (λ i. omega (arith, one i))))
              (λ h₃. worker_loop-RunInv k now r rest q old at two (λ i. omega (arith, one i)))))

get_elem?-lt : (xs : List Slot) (k : ℕ) → k < length xs → (a : Slot) × (get_elem? xs k ≡ some a)
get_elem?-lt [] k h = elim h [ ]
get_elem?-lt (x ∷ xs) zero h = (x, refl)
get_elem?-lt (x ∷ xs) (suc k) h = get_elem?-lt xs k (omega arith)

-- A turn of one of the two workers.
pub turn_worker-RunInv :
    (k now : ℕ) (run : Option UploadRun) (q : Queue)
    → k < max_concurrent_files
    → OptRunInv run
    → q.run ≡ run
    → OptRunInv (turn_worker k now run q).run
unfolding turn_worker
turn_worker-RunInv k now none q below h e = rw e tt
turn_worker-RunInv k now (some r) q below h e =
    let at = get_elem?-lt r.slots k (omega (arith, h.two)) in
    worker_loop-RunInv k now r r.remaining q at.0 at.1 h.two (λ i. omega (arith, h.single i))

pub start_workers-RunInv :
    (n k now : ℕ) (q : Queue)
    → n + k ≤ max_concurrent_files
    → OptRunInv q.run
    → OptRunInv (start_workers n k now q).run
unfolding start_workers
start_workers-RunInv zero k now q below h = h
start_workers-RunInv (suc n) k now q below h =
    start_workers-RunInv n (suc k) now (turn_worker k now q.run q) (omega arith)
      (turn_worker-RunInv k now q.run q (omega arith) h refl)

-- The files that a run starts with are among the entries.
pub count-pick_pending_le :
    (key : Option Text) (i : ℕ) (es : List Entry) → count i (pick_pending key es) ≤ entry_count i es
unfolding pick_pending
count-pick_pending_le key i [] = omega arith
count-pick_pending_le key i (e ∷ es) =
    if_intro (λ ids. count i ids ≤ entry_count i (e ∷ es))
      ((is_pending e.item.state || is_error e.item.state) && matches_key key e) _ _
      (λ h. omega (arith, count-pick_pending_le key i es))
      (λ h. omega (arith, count-pick_pending_le key i es))

pub start_run-RunInv :
    (ids : List ℕ) (now : ℕ) (q : Queue)
    → OptRunInv q.run
    → ((i : ℕ) → count i ids ≤ 1)
    → OptRunInv (start_run ids now q).run
unfolding start_run
start_run-RunInv [] now q h one = h
start_run-RunInv (id ∷ ids) now q h one =
    start_workers-RunInv max_concurrent_files 0 now _ (omega arith)
      (record { two = refl; single = λ i. omega (arith, one i) })

-- A file whose worker is done or has failed keeps its worker's place until the worker goes on.
pub catch_upload-RunInv :
    (k id now : ℕ) (item : UploadItem) (r : UploadRun) (q : Queue)
    → get_elem? r.slots k ≡ some (busy id)
    → RunInv r
    → OptRunInv (catch_upload k id now item r q).run
unfolding catch_upload
catch_upload-RunInv k id now item r q at h =
    put_slot-RunInv k (cleaning id) (busy id) r.remaining r at h.two
      (λ i. omega (arith, h.single i))
