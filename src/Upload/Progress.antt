-- ===== src/Upload/Progress.antt =====
-- utils/upload.ts: confirmChunk and recalcLoadedBytes, with the maps of the bytes in flight.
pub mod Bounds
use gothrough.Base.{
  ℕ, ◌+◌, ◌≤◌, ◌≡◌, refl, Bool, true, false, ◌&&◌, Option, none, some, List, [], ◌∷◌, ◌++◌, length,
  contains, sum_of, min, max, if◌then◌else◌, ◌==◌, arith, Text, text_eq,
}
use gothrough.Messages.{Message}
use gothrough.Upload.Types.{
  UploadState, success, UploadState-discrete, File, UploadSession, UploadItem,
}

-- A Set keeps the order in which its members came.
unfoldable pub confirm_chunk : UploadItem → ℕ → ℕ → UploadItem
confirm_chunk item index bytes =
    if contains index item.confirmed_chunks then item else record item {
      confirmed_chunks = item.confirmed_chunks ++ (index ∷ []);
      confirmed_bytes = item.confirmed_bytes + bytes;
    }

-- Maps from chunk indices: `Map.set` and `Map.delete`.
unfoldable pub map_set : ℕ → ℕ → List (ℕ × ℕ) → List (ℕ × ℕ)
map_set k v [] = (k, v) ∷ []
map_set k v ((j, w) ∷ m) = if j == k then (k, v) ∷ m else (j, w) ∷ map_set k v m

unfoldable pub map_delete : ℕ → List (ℕ × ℕ) → List (ℕ × ℕ)
map_delete k [] = []
map_delete k ((j, w) ∷ m) = let rest = map_delete k m in if j == k then rest else (j, w) ∷ rest

abbrev pub inflight : UploadItem → ℕ
inflight item = sum_of (λ (e : ℕ × ℕ). e.1) item.inflight_bytes

-- The body of recalcLoadedBytes by the state, and by whether there is a session.
abbrev pub loaded_of : UploadState → Option UploadSession → UploadItem → ℕ
loaded_of success session item = item.file.size
loaded_of _ none item = 0
loaded_of _ (some session) item =
    min item.file.size (max item.loaded_bytes (item.confirmed_bytes + inflight item))

unfoldable pub recalc_loaded_bytes : UploadItem → UploadItem
recalc_loaded_bytes item = record item { loaded_bytes = loaded_of item.state item.session item }
