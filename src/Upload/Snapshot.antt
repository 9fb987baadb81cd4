-- ===== src/Upload/Snapshot.antt =====
-- utils/upload.ts createUploadSnapshot: what is drawn of an item, kept while it has not changed.
use gothrough.Base.{
  ℕ, ◌≡◌, refl, ap, Bool, true, false, ◌&&◌, Option, none, some, if_intro, if◌then◌else◌, ◌==◌,
  arith, Text, text_eq, text_eq→eq,
}
use gothrough.Messages.{Message}
use gothrough.Upload.Types.{UploadState, UploadState-discrete, File, UploadSession, UploadItem}

-- UploadViewItem
pub record ViewItem : Type 0 where
  pub file : File
  pub state : UploadState
  pub speed : ℕ
  pub saved_filename : Text
  pub loaded_bytes : ℕ
  pub error : Message
  pub elapsed_ms : Option ℕ
  pub session : Option UploadSession

abbrev decided {ℓ} : {A : Type ℓ} → Dec A → Bool
decided (yes _) = true
decided (no _) = false

abbrev state_eq : UploadState → UploadState → Bool
state_eq a b = decided (UploadState-discrete a b)

abbrev elapsed_eq : Option ℕ → Option ℕ → Bool
elapsed_eq none none = true
elapsed_eq (some a) (some b) = a == b
elapsed_eq _ _ = false

-- The tests of `session?.sessionId` and `session?.receivedChunks`.
abbrev session_eq : Option UploadSession → Option UploadSession → Bool
session_eq none none = true
session_eq (some a) (some b) =
    text_eq a.session_id b.session_id && a.received_chunks == b.received_chunks
session_eq _ _ = false

-- What the snapshot shows of a session's progress.
abbrev pub progress_of : Option UploadSession → Option (Text × ℕ)
progress_of none = none
progress_of (some s) = some (s.session_id, s.received_chunks)

-- The snapshot shows the item.
pub record Shows (view : ViewItem) (item : UploadItem) : Type 0 where
  pub file : view.file ≡ item.file
  pub state : view.state ≡ item.state
  pub speed : view.speed ≡ item.speed
  pub saved_filename : view.saved_filename ≡ item.saved_filename
  pub loaded_bytes : view.loaded_bytes ≡ item.loaded_bytes
  pub error : view.error ≡ item.error
  pub elapsed_ms : view.elapsed_ms ≡ item.elapsed_ms
  pub session : progress_of view.session ≡ progress_of item.session

state_eq→eq : (a b : UploadState) → state_eq a b ≡ true → a ≡ b
state_eq→eq a b h =
    elim (UploadState-discrete a b) as (λ d. decided d ≡ true → a ≡ b) [
      | yes p ↦ λ _. p
      | no _ ↦ λ q. cc
    ]
      h

elapsed_eq→eq : (a b : Option ℕ) → elapsed_eq a b ≡ true → a ≡ b
elapsed_eq→eq none none h = refl
elapsed_eq→eq none (some b) h = cc
elapsed_eq→eq (some a) none h = cc
elapsed_eq→eq (some a) (some b) h = ap some (ground arith)

same_progress :
    (a b : Text) (m n : ℕ) → a ≡ b → m ≡ n → ◌≡◌ {A = Option (Text × ℕ)} (some (a, m)) (some (b, n))
same_progress a b m n p q = cc

session_eq→eq : (a b : Option UploadSession) → session_eq a b ≡ true → progress_of a ≡ progress_of b
session_eq→eq none none h = refl
session_eq→eq none (some b) h = cc
session_eq→eq (some a) none h = cc
session_eq→eq (some a) (some b) h =
    same_progress a.session_id b.session_id a.received_chunks b.received_chunks
      (text_eq→eq a.session_id b.session_id (ground arith)) (ground arith)

-- `same_file` and `same_message` compare objects, or texts: `===`
module _ (same_file : File → File → Bool) (same_message : Message → Message → Bool) where
  pub is_current : ViewItem → UploadItem → Bool
  is_current view item =
      same_file view.file item.file
      && (state_eq view.state item.state
          && (view.speed == item.speed
              && (text_eq view.saved_filename item.saved_filename
                  && (view.loaded_bytes == item.loaded_bytes
                      && (same_message view.error item.error
                          && (elapsed_eq view.elapsed_ms item.elapsed_ms
                              && session_eq view.session item.session))))))

  abbrev pub take_snapshot : UploadItem → ViewItem
  take_snapshot item = record {
    file = item.file;
    state = item.state;
    speed = item.speed;
    saved_filename = item.saved_filename;
    loaded_bytes = item.loaded_bytes;
    error = item.error;
    elapsed_ms = item.elapsed_ms;
    session = item.session;
  }

  pub create_upload_snapshot : UploadItem → Option ViewItem → ViewItem
  create_upload_snapshot item none = take_snapshot item
  create_upload_snapshot item (some previous) =
      if is_current previous item then previous else take_snapshot item

  module _ (file_sound : (a b : File) → same_file a b ≡ true → a ≡ b)
      (message_sound : (a b : Message) → same_message a b ≡ true → a ≡ b) where
    is_current-Shows :
        (view : ViewItem) (item : UploadItem) → is_current view item ≡ true → Shows view item
    unfolding is_current
    is_current-Shows view item h = record {
      file = file_sound _ _ (ground arith);
      state = state_eq→eq _ _ (ground arith);
      speed = ground arith;
      saved_filename = text_eq→eq _ _ (ground arith);
      loaded_bytes = ground arith;
      error = message_sound _ _ (ground arith);
      elapsed_ms = elapsed_eq→eq _ _ (ground arith);
      session = session_eq→eq _ _ (ground arith);
    }

    take_snapshot-Shows : (item : UploadItem) → Shows (take_snapshot item) item
    take_snapshot-Shows item = record {
      file = refl;
      state = refl;
      speed = refl;
      saved_filename = refl;
      loaded_bytes = refl;
      error = refl;
      elapsed_ms = refl;
      session = refl;
    }

    -- Whatever snapshot went before, the snapshot that is drawn shows the item as it is: its file,
    -- state, speed, name, bytes, message and time, and its session's number and received chunks.
    pub create_upload_snapshot-Shows :
        (item : UploadItem) (previous : Option ViewItem)
        → Shows (create_upload_snapshot item previous) item
    unfolding create_upload_snapshot
    create_upload_snapshot-Shows item none = take_snapshot-Shows item
    create_upload_snapshot-Shows item (some previous) =
        if_intro (λ (v : ViewItem). Shows v item) (is_current previous item) _ _
          (is_current-Shows previous item) (λ _. take_snapshot-Shows item)
