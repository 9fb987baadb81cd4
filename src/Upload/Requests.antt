-- ===== src/Upload/Requests.antt =====
-- services/upload.ts uploadChunk: the request that carries a chunk, raw or as a form.
use gothrough.Base.{ℕ, Option, none, some, List, [], ◌∷◌, if◌then◌else◌, Text, text_eq, codes}
use gothrough.Base.Decimal.{decimal}

-- `baseURL` of services/http.ts
abbrev pub base_url : Text
base_url = codes "/api"

-- The transport that was agreed on when the session was opened; older servers know none.
pub data Transport : Type 0 where
  raw : Transport

-- `Blob` is the browser's type.
pub data FormValue {ℓ} (Blob : Type ℓ) : Type ℓ where
  text : Text → FormValue Blob
  blob : Blob → FormValue Blob

pub data Body {ℓ} (Blob : Type ℓ) : Type ℓ where
  plain_blob : Blob → Body Blob
  form_data : List (Text × FormValue Blob) → Body Blob

-- The value of a parameter, which axios writes as text.
pub data ParamValue : Type 0 where
  text : Text → ParamValue
  number : ℕ → ParamValue

pub record ChunkRequest {ℓ} (Blob : Type ℓ) : Type ℓ where
  pub url : Text
  pub body : Body Blob
  pub params : List (Text × ParamValue)
  pub headers : List (Text × Text)
  pub timeout : ℕ

abbrev pub params_of : Option Transport → Text → ℕ → List (Text × ParamValue)
params_of (some raw) session_id chunk_index =
    (codes "session_id", ParamValue.text session_id)
    ∷ (codes "chunk_index", ParamValue.number chunk_index)
    ∷ []
params_of none session_id chunk_index = []

abbrev pub headers_of : Option Transport → List (Text × Text)
headers_of (some raw) = (codes "Content-Type", codes "application/octet-stream") ∷ []
headers_of none = []

abbrev pub lookup {κ} : {A : Type κ} → Text → List (Text × A) → Option A
lookup key [] = none
lookup key ((k, a) ∷ rest) = if text_eq k key then some a else lookup key rest

-- axios writes a parameter as text.
abbrev pub written : ParamValue → Text
written (ParamValue.text s) = s
written (ParamValue.number n) = decimal n

module _ {ℓ} {Blob : Type ℓ} where
  abbrev pub chunk_form : Text → ℕ → Blob → List (Text × FormValue Blob)
  chunk_form session_id chunk_index chunk =
      (codes "session_id", FormValue.text session_id)
      ∷ (codes "chunk_index", FormValue.text (decimal chunk_index))
      ∷ (codes "chunk", FormValue.blob chunk)
      ∷ []

  abbrev pub body_of : Option Transport → Text → ℕ → Blob → Body Blob
  body_of (some raw) session_id chunk_index chunk = plain_blob chunk
  body_of none session_id chunk_index chunk = form_data (chunk_form session_id chunk_index chunk)

  unfoldable pub upload_chunk : Option Transport → Text → ℕ → Blob → ChunkRequest Blob
  upload_chunk transport session_id chunk_index chunk = record {
    url = codes "/upload/chunk";
    body = body_of transport session_id chunk_index chunk;
    params = params_of transport session_id chunk_index;
    headers = headers_of transport;
    timeout = 0;
  }

  -- onUploadProgress: `event.total ?? chunk.size`
  unfoldable pub reported_total : (Blob → ℕ) → Option ℕ → Blob → ℕ
  reported_total size none chunk = size chunk
  reported_total size (some total) chunk = total
