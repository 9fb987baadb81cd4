-- ===== src/Server.antt =====
-- The server's end of a chunk: the POST routes of internal/router/router.go and UploadChunk of
-- internal/handler/upload.go, up to its call of writeChunk.
pub mod Delivery
use gothrough.Base.{
  ℕ, zero, suc, ◌+◌, ◌*◌, ◌^◌, ◌-◌, Bool, Option, none, some, List, [], ◌∷◌, ◌++◌, ◌&&◌, ◌==◌, not,
  leb, ltb, every, is_empty, if◌then◌else◌, Text, text_eq, starts_with, codes,
}
use gothrough.Base.Decimal.{number_from, is_digit}

-- An `int` of the server.
pub data ℤ : Type 0 where
  pos : ℕ → ℤ
  negsuc : ℕ → ℤ

-- config.ChunkSize
abbrev pub chunk_size : ℕ
chunk_size = 8 * 1024 * 1024

-- config.MaxConcurrentChunks
abbrev pub max_concurrent_chunks : ℕ
max_concurrent_chunks = 16

-- The limit of MaxBytesReader.
abbrev pub body_limit : ℕ
body_limit = chunk_size + 1024 * 1024

abbrev pub negative : ℕ → ℤ
negative zero = pos 0
negative (suc n) = negsuc n

-- The digits of a number within `limit`.
unfoldable pub digits : ℕ → Text → Option ℕ
digits limit s =
    if not (is_empty s) && every is_digit s
    then (if leb (number_from 0 s) limit then some (number_from 0 s) else none)
    else none

abbrev pub int_of : (ℕ → ℤ) → Option ℕ → Option ℤ
int_of f none = none
int_of f (some n) = some (f n)

-- strconv.Atoi, of 64 bits: a sign, which may be missing, and digits; none is an error.
unfoldable pub atoi : Text → Option ℤ
atoi [] = none
atoi (c ∷ s) =
    if c == b'-'
    then int_of negative (digits (2 ^ 63) s)
    else if c == b'+'
    then int_of pos (digits (2 ^ 63 - 1) s)
    else int_of pos (digits (2 ^ 63 - 1) (c ∷ s))

-- The answer to a request for a chunk: an error, or what writeChunk makes of a session, an index
-- and a reader of bytes.
pub data Reply {ℓ} (Blob : Type ℓ) : Type ℓ where
  -- another handler, or none
  elsewhere : Reply Blob
  server_busy : Reply Blob
  chunk_too_large : Reply Blob
  invalid_chunk_index : Reply Blob
  missing_chunk_data : Reply Blob
  chunk_read_failed : Reply Blob
  write_chunk : Text → ℤ → Blob → Reply Blob

-- What the handler reads of a request by way of gin. The body is read under the limit of
-- MaxBytesReader; `post_form` and `query` are empty where the name is missing.
pub record Context {ℓ} (Blob : Type ℓ) : Type ℓ where
  pub path : Text
  pub content_type : Text
  pub content_length : ℕ
  pub query : Text → Text
  pub post_form : ℕ → Text → Text
  pub form_file : ℕ → Text → Option Blob
  pub request_body : ℕ → Blob

-- The handlers of POST requests under /api.
pub data PostRoute : Type 0 where
  post_login : PostRoute
  post_logout : PostRoute
  post_init : PostRoute
  post_chunk : PostRoute
  post_complete : PostRoute
  post_cancel : PostRoute
  post_image : PostRoute
  post_clipboard : PostRoute

abbrev pub routes : List (Text × PostRoute)
routes =
    (codes "/auth/login", post_login)
    ∷ (codes "/auth/logout", post_logout)
    ∷ (codes "/upload/init", post_init)
    ∷ (codes "/upload/chunk", post_chunk)
    ∷ (codes "/upload/complete", post_complete)
    ∷ (codes "/upload/cancel", post_cancel)
    ∷ (codes "/clipboard/image", post_image)
    ∷ (codes "/clipboard", post_clipboard)
    ∷ []

abbrev pub route_in : List (Text × PostRoute) → Text → Option PostRoute
route_in [] path = none
route_in ((p, r) ∷ rest) path =
    if text_eq (codes "/api" ++ p) path then some r else route_in rest path

module _ {ℓ} {Blob : Type ℓ} where
  -- From `c.FormFile` on; `opens` is whether the part can be opened.
  abbrev pub write_part : (Blob → Bool) → Text → ℤ → Option Blob → Reply Blob
  write_part opens id index none = missing_chunk_data
  write_part opens id index (some chunk) =
      if opens chunk then write_chunk id index chunk else chunk_read_failed

  -- The branch of raw bodies, from strconv.Atoi on.
  abbrev pub write_raw : Text → Option ℤ → Blob → Reply Blob
  write_raw id none body = invalid_chunk_index
  write_raw id (some index) body = write_chunk id index body

  -- The branch of forms, from strconv.Atoi on.
  abbrev pub write_form : (Blob → Bool) → Text → Option ℤ → Option Blob → Reply Blob
  write_form opens id none part = invalid_chunk_index
  write_form opens id (some index) part = write_part opens id index part

  -- UploadChunk, while `streams` other chunks are being received.
  unfoldable pub handle_chunk : (Blob → Bool) → ℕ → Context Blob → Reply Blob
  handle_chunk opens streams c =
      if not (ltb streams max_concurrent_chunks)
      then server_busy
      else if starts_with c.content_type (codes "application/octet-stream")
      then (if ltb chunk_size c.content_length
          then chunk_too_large
          else write_raw (c.query (codes "session_id")) (atoi (c.query (codes "chunk_index")))
              (c.request_body body_limit))
      else write_form opens (c.post_form body_limit (codes "session_id"))
          (atoi (c.post_form body_limit (codes "chunk_index")))
          (c.form_file body_limit (codes "chunk"))

  abbrev pub dispatch : (Blob → Bool) → ℕ → Option PostRoute → Context Blob → Reply Blob
  dispatch opens streams (some post_chunk) c = handle_chunk opens streams c
  dispatch opens streams _ c = elsewhere

  -- A POST request that the middlewares let through.
  unfoldable pub serve : (Blob → Bool) → ℕ → Context Blob → Reply Blob
  serve opens streams c = dispatch opens streams (route_in routes c.path) c
