-- ===== src/Errors.antt =====
-- services/errors.ts: what the user is told of a failure.
pub mod Grounds
use gothrough.Base.{
  ◌≡◌, refl, Bool, true, false, ◌||◌, Option, none, some, ◌++◌, is_empty, if◌then◌else◌, arith,
  Text, text_eq, codes, if_intro, ◌⊎◌, inl, inr,
}
use gothrough.Messages.{Message, plain, message, end}
use gothrough.Upload.Retry.{HttpError, axios_error, other_error, HttpResponse}

-- getErrorBody
pub get_error_body : HttpError → Option HttpResponse
get_error_body (axios_error code cancel response m) = response
get_error_body (other_error m) = none

-- errorMessage of utils/misc.ts
abbrev pub error_message : HttpError → Text
error_message (axios_error code cancel response m) = m
error_message (other_error m) = m

abbrev body_error : Option HttpResponse → Option Text
body_error none = none
body_error (some response) = response.data_error

abbrev body_code : Option HttpResponse → Option Text
body_code none = none
body_code (some response) = response.data_code

unfoldable pub api_error_message : HttpError → Text
unfolding get_error_body
api_error_message e = elim (body_error (get_error_body e)) [ none ↦ error_message e | some m ↦ m ]

abbrev key_of : Text → Text
key_of code = codes "errors." ++ code

-- `i18n.exists`, of the translation library
module _ (exists : Text → Bool) where
  -- `body?.code && i18n.exists(...)`
  known_code : Option Text → Option Text
  known_code none = none
  known_code (some code) =
      if is_empty code then none else if exists (key_of code) then some (key_of code) else none

  -- The tests of `error.code`.
  transport_key : HttpError → Option Text
  transport_key (other_error m) = none
  transport_key (axios_error none cancel response m) = none
  transport_key (axios_error (some code) cancel response m) =
      if text_eq code (codes "ERR_NETWORK")
      then some (codes "errors.network")
      else if text_eq code (codes "ECONNABORTED") || text_eq code (codes "ETIMEDOUT")
      then some (codes "errors.timeout")
      else none

  last_resort : Text → Message
  last_resort original = if exists original then message original end else plain original

  pub describe_error : Option Text → Option Text → Text → Message
  unfolding last_resort
  describe_error (some key) transport original = message key end
  describe_error none (some key) original = message key end
  describe_error none none original = last_resort original

  -- apiErrorDescriptor
  pub api_error_descriptor : HttpError → Message
  unfolding known_code transport_key
  api_error_descriptor e =
      describe_error (known_code (body_code (get_error_body e))) (transport_key e)
        (api_error_message e)
