-- ===== src/Upload/Types.antt =====
-- types/upload.ts and config/upload.ts: an upload item with its session and controller.
use gothrough.Base.{ℕ, ◌*◌, Bool, Option, List, Text, codes}
use gothrough.Messages.{Message}

-- CHUNK_SIZE, MAX_CONCURRENT_UPLOADS, MAX_CONCURRENT_FILES, PROGRESS_REFRESH_INTERVAL
abbrev pub chunk_size_fallback : ℕ
chunk_size_fallback = 5 * 1024 * 1024

abbrev pub max_concurrent_uploads : ℕ
max_concurrent_uploads = 3

abbrev pub max_concurrent_files : ℕ
max_concurrent_files = 2

abbrev pub progress_refresh_interval : ℕ
progress_refresh_interval = 100

pub data UploadState : Type 0 where
  pending initializing uploading paused completing canceling success error : UploadState

pub UploadState-discrete : Discrete UploadState
UploadState-discrete = hlevel

-- A browser's `File`. `dropped_path` is what the WeakMap `relativePaths` holds for it.
pub record File : Type 0 where
  pub name : Text
  pub size : ℕ
  pub last_modified : ℕ
  pub webkit_relative_path : Text
  pub dropped_path : Option Text

pub record UploadSession : Type 0 where
  pub session_id : Text
  pub total_chunks : ℕ
  pub chunk_size : ℕ
  pub received_chunks : ℕ
  pub final_filename : Text

-- `aborted` is `abort.signal.aborted`.
pub record UploadController : Type 0 where
  pub cancelled : Bool
  pub aborted : Bool

-- Byte counts, speeds and times are whole numbers; a Map is an association list and a Set a
-- list without repetition.
pub record UploadItem : Type 0 where
  pub file : File
  pub state : UploadState
  pub error : Message
  pub session : Option UploadSession
  pub completion_pending : Bool
  pub speed : ℕ
  pub saved_filename : Text
  pub upload_controller : Option UploadController
  pub inflight_bytes : List (ℕ × ℕ)
  pub confirmed_chunks : List ℕ
  pub confirmed_bytes : ℕ
  pub transferred_bytes : ℕ
  pub loaded_bytes : ℕ
  pub elapsed_ms : Option ℕ

-- STATE_LABELS
unfoldable pub state_labels : UploadState → Text
state_labels pending = codes "待上传"
state_labels initializing = codes "正在准备上传"
state_labels completing = codes "正在校验保存"
state_labels canceling = codes "正在取消"
state_labels uploading = codes "上传中"
state_labels paused = codes "已暂停"
state_labels success = codes "上传成功"
state_labels error = codes "上传失败"
