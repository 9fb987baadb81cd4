-- ===== src/Server/Delivery.antt =====
-- uploadChunk of frontend/src/services/upload.ts against UploadChunk of
-- internal/handler/upload.go: what the client sends is what the server writes.
use gothrough.Base.{ℕ, ◌≤◌, ◌≡◌, true, none, some, List, ◌++◌, Text, starts_with, codes}
use gothrough.Upload.Requests.{
  FormValue, plain_blob, form_data, ParamValue, ChunkRequest, base_url, lookup, written,
}
use gothrough.Server.{Context}

-- What axios and the browser send for a request, and gin reads of it, as their documentation says.
pub record Wire {ℓ} (Blob : Type ℓ) : Type ℓ where
  pub size : Blob → ℕ
  pub received : ChunkRequest Blob → Context Blob
  pub sends_path : (r : ChunkRequest Blob) → (received r).path ≡ base_url ++ r.url
  -- the type that is given for a blob is sent as it is
  pub sends_header :
      (r : ChunkRequest Blob) (chunk : Blob) (value : Text)
      → r.body ≡ plain_blob chunk
      → lookup (codes "Content-Type") r.headers ≡ some value
      → (received r).content_type ≡ value
  pub sends_query :
      (r : ChunkRequest Blob) (key : Text) (value : ParamValue)
      → lookup key r.params ≡ some value
      → (received r).query key ≡ written value
  pub sends_length :
      (r : ChunkRequest Blob) (chunk : Blob)
      → r.body ≡ plain_blob chunk
      → (received r).content_length ≡ size chunk
  pub sends_body :
      (r : ChunkRequest Blob) (chunk : Blob) (limit : ℕ)
      → r.body ≡ plain_blob chunk
      → size chunk ≤ limit
      → (received r).request_body limit ≡ chunk
  -- the browser gives a form its own type where the request has none
  pub types_form :
      (r : ChunkRequest Blob) (fields : List (Text × FormValue Blob))
      → r.body ≡ form_data fields
      → lookup (codes "Content-Type") r.headers ≡ none
      → starts_with (received r).content_type (codes "multipart/form-data") ≡ true
  pub reads_field :
      (r : ChunkRequest Blob) (fields : List (Text × FormValue Blob)) (limit : ℕ) (key value : Text)
      → r.body ≡ form_data fields
      → starts_with (received r).content_type (codes "multipart/form-data") ≡ true
      → (received r).content_length ≤ limit
      → lookup key fields ≡ some (FormValue.text value)
      → (received r).post_form limit key ≡ value
  pub reads_file :
      (r : ChunkRequest Blob) (fields : List (Text × FormValue Blob)) (limit : ℕ) (key : Text)
      (value : Blob)
      → r.body ≡ form_data fields
      → starts_with (received r).content_type (codes "multipart/form-data") ≡ true
      → (received r).content_length ≤ limit
      → lookup key fields ≡ some (FormValue.blob value)
      → (received r).form_file limit key ≡ some value
