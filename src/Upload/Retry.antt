-- ===== src/Upload/Retry.antt =====
-- utils/uploadRetry.ts uploadRetryDelay, and utils/cancellation.ts isCanceledError.
pub mod Bounds
use gothrough.Base.{
  ℕ, zero, suc, ◌-◌, ◌*◌, ◌^◌, ◌≤◌, ◌<◌, ◌≡◌, Bool, true, false, ◌&&◌, ◌||◌, not, Option, none,
  some, List, [], ◌∷◌, max, ltb, leb, if◌then◌else◌, contains, every, arith, Text, text_eq,
  starts_with, is_empty, codes, trim_start, trim_end,
}
use gothrough.Base.Decimal.{number_from, is_digit}

-- What the code reads of an error: an axios error with its code, whether axios made it for a
-- cancellation, and its response; or any other error, with its text.
pub record HttpResponse : Type 0 where
  pub status : ℕ
  -- `data.code` and `data.error`, where they are texts
  pub data_code : Option Text
  pub data_error : Option Text
  -- the length of `data.missing_chunks`, where there is one
  pub missing_chunks : Option ℕ
  -- the header `retry-after`, whatever its spelling
  pub retry_after : Option Text

pub data HttpError : Type 0 where
  axios_error : Option Text → Bool → Option HttpResponse → Text → HttpError
  other_error : Text → HttpError

-- isCanceledError
unfoldable pub is_canceled_error : HttpError → Bool
is_canceled_error (other_error m) = false
is_canceled_error (axios_error none cancel response m) = cancel
is_canceled_error (axios_error (some code) cancel response m) =
    cancel || text_eq code (codes "ERR_CANCELED")

abbrev transient_statuses : List ℕ
transient_statuses = 408 ∷ 429 ∷ 500 ∷ 502 ∷ 503 ∷ 504 ∷ []

-- `code.startsWith('STORAGE_') || code === 'HARDLINK_UNSUPPORTED'` of a code that is a text.
is_storage_code : Option Text → Bool
is_storage_code none = false
is_storage_code (some code) =
    starts_with code (codes "STORAGE_") || text_eq code (codes "HARDLINK_UNSUPPORTED")

-- `['ERR_NETWORK', 'ECONNABORTED', 'ETIMEDOUT'].includes(error.code ?? '')`
is_network_code : Option Text → Bool
is_network_code none = false
is_network_code (some code) =
    text_eq code (codes "ERR_NETWORK")
    || (text_eq code (codes "ECONNABORTED") || text_eq code (codes "ETIMEDOUT"))

-- The tests that a failure passes before any delay is computed.
unfoldable pub is_transient : Option Text → Option HttpResponse → Bool
unfolding is_storage_code is_network_code
is_transient code none = is_network_code code
is_transient code (some response) =
    not (is_storage_code response.data_code) && contains response.status transient_statuses

trim : Text → Text
unfolding trim_start trim_end
trim s = trim_end (trim_start s)

-- The least whole number that `Number` reads as Infinity.
overflow : ℕ
overflow = 2 ^ 1024 - 2 ^ 970

-- 500 * 2 ** retry
unfoldable pub backoff : ℕ → ℕ
backoff retry = 500 * 2 ^ retry

-- `Date.parse` of a text in milliseconds since 1970, with none for NaN; a date before 1970 is
-- one of 1970 here, since both lie below `now`.
module _ (date_parse : Text → Option ℕ) where
  -- The delay that a header asks for; none where it is not finite.
  header_delay : ℕ → Text → Option ℕ
  unfolding trim overflow
  header_delay now header =
      let value = trim header in
      let seconds = number_from 0 value * 1000 in
      if not (is_empty value) && every is_digit value
      then (if ltb seconds overflow then some seconds else none)
      else elim (date_parse value) [ none ↦ none | some date ↦ some (date - now) ]

  -- The answer to a header: too long a wait is no retry.
  after_header : ℕ → Option ℕ → Option ℕ
  after_header wait none = some wait
  after_header wait (some delay) = if ltb 60000 delay then none else some (max wait delay)

  -- The wait before a retry, by the header that came.
  header_wait : ℕ → ℕ → Option Text → Option ℕ
  header_wait wait now none = some wait
  header_wait wait now (some header) = after_header wait (header_delay now header)

  -- uploadRetryDelay from `const backoff` on.
  unfoldable pub retry_wait : ℕ → ℕ → Option HttpResponse → Option ℕ
  unfolding header_wait header_delay after_header
  retry_wait wait now none = some wait
  retry_wait wait now (some response) = header_wait wait now response.retry_after

  -- uploadRetryDelay: none is `null`, no retry.
  unfoldable pub upload_retry_delay : HttpError → ℕ → ℕ → Option ℕ
  upload_retry_delay (other_error m) retry now = none
  upload_retry_delay (axios_error code cancel response m) retry now =
      if leb 2 retry
      then none
      else if is_transient code response
      then retry_wait (backoff retry) now response
      else none

  pub upload_retry_delay-lt :
      (e : HttpError) (retry now d : ℕ) → upload_retry_delay e retry now ≡ some d → retry < 2
  unfolding upload_retry_delay
  upload_retry_delay-lt (other_error m) retry now d h = cc
  upload_retry_delay-lt (axios_error code cancel response m) retry now d h = ground arith
