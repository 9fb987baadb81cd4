-- ===== src/Errors/Grounds.antt =====
-- services/errors.ts apiErrorDescriptor: what a message that the user is told rests on.
use gothrough.Base.{
  ◌≡◌, refl, Bool, true, false, Option, none, some, ◌++◌, is_empty, arith, Text, text_eq,
  text_eq→eq, codes, if_intro, ◌⊎◌, inl, inr, text_eq_refl,
}
use gothrough.Messages.{Message, plain, message, end}
use gothrough.Upload.Retry.{HttpError, axios_error, other_error, HttpResponse}
use gothrough.Errors.{
  get_error_body, body_code, api_error_message, known_code, transport_key, last_resort,
  describe_error, api_error_descriptor,
}

-- The text of a failure: the server's own, or else the one that came with the failure.
pub data Says : HttpError → Text → Type 0 where
  answer :
      (code : Option Text) (cancel : Bool) (response : HttpResponse) (m text : Text)
      → response.data_error ≡ some text
      → Says (axios_error code cancel (some response) m) text
  silent :
      (code : Option Text) (cancel : Bool) (response : HttpResponse) (m : Text)
      → response.data_error ≡ none
      → Says (axios_error code cancel (some response) m) m
  unanswered :
      (code : Option Text) (cancel : Bool) (m : Text) → Says (axios_error code cancel none m) m
  other : (m : Text) → Says (other_error m) m

-- A request that failed with a code of the connection.
pub data FailedAs : HttpError → Text → Type 0 where
  failed_as :
      (code : Text) (cancel : Bool) (response : Option HttpResponse) (m text : Text)
      → code ≡ text
      → FailedAs (axios_error (some code) cancel response m) text

pub IsOffline : HttpError → Type 0
IsOffline e = FailedAs e (codes "ERR_NETWORK")

pub IsLate : HttpError → Type 0
IsLate e = FailedAs e (codes "ECONNABORTED") ⊎ FailedAs e (codes "ETIMEDOUT")

module _ (exists : Text → Bool) where
  -- The answer has a code that the dictionary knows.
  pub data Names : HttpError → Text → Type 0 where
    names :
        (code : Option Text) (cancel : Bool) (response : HttpResponse) (m server : Text)
        → response.data_code ≡ some server
        → is_empty server ≡ false
        → exists (codes "errors." ++ server) ≡ true
        → Names (axios_error code cancel (some response) m) server

  -- The message for a failure: of the server's code if the dictionary knows it; else of the failed
  -- connection or the timeout; else the failure's text, as a key where the dictionary has it.
  pub data IsGrounded (e : HttpError) : Message → Type 0 where
    known :
        (server : Text) → Names e server → IsGrounded e (message (codes "errors." ++ server) end)
    network :
        ((server : Text) → ¬ Names e server)
        → IsOffline e
        → IsGrounded e (message (codes "errors.network") end)
    timeout :
        ((server : Text) → ¬ Names e server)
        → IsLate e
        → IsGrounded e (message (codes "errors.timeout") end)
    translated :
        (text : Text)
        → ((server : Text) → ¬ Names e server)
        → ¬ IsOffline e
        → ¬ IsLate e
        → Says e text
        → exists text ≡ true
        → IsGrounded e (message text end)
    verbatim :
        (text : Text)
        → ((server : Text) → ¬ Names e server)
        → ¬ IsOffline e
        → ¬ IsLate e
        → Says e text
        → exists text ≡ false
        → IsGrounded e (plain text)

  code_known :
      (o : Option Text) (key : Text)
      → known_code exists o ≡ some key
      → (server : Text) × (o ≡ some server)
        × (is_empty server ≡ false)
        × (exists (codes "errors." ++ server) ≡ true)
        × (key ≡ codes "errors." ++ server)
  unfolding known_code
  code_known none key h = cc
  code_known (some code) key h = (code, refl, ground arith, ground arith, ground arith)

  code_unknown :
      (o : Option Text) (server : Text)
      → known_code exists o ≡ none
      → is_empty server ≡ false
      → exists (codes "errors." ++ server) ≡ true
      → ¬ (o ≡ some server)
  unfolding known_code
  code_unknown none server h filled has e = absurd (ground arith)
  code_unknown (some code) server h filled has e = absurd (ground arith)

  known_code-Names :
      (e : HttpError) (key : Text)
      → known_code exists (body_code (get_error_body e)) ≡ some key
      → (server : Text) × Names e server × (key ≡ codes "errors." ++ server)
  unfolding get_error_body known_code
  known_code-Names (other_error m) key h = cc
  known_code-Names (axios_error code cancel none m) key h = cc
  known_code-Names (axios_error code cancel (some response) m) key h =
      let (server, is, filled, has, same) = code_known response.data_code key h in
      (server, names code cancel response m server is filled has, same)

  no_names :
      (e : HttpError)
      → known_code exists (body_code (get_error_body e)) ≡ none
      → (server : Text) → ¬ Names e server
  unfolding get_error_body
  no_names _ h server (names code cancel response m _ is filled has) =
      code_unknown response.data_code server h filled has is

  transport_known :
      (e : HttpError) (key : Text)
      → transport_key exists e ≡ some key
      → (IsOffline e × (key ≡ codes "errors.network")) ⊎ (IsLate e × (key ≡ codes "errors.timeout"))
  unfolding transport_key IsOffline IsLate
  transport_known (other_error m) key h = cc
  transport_known (axios_error none cancel response m) key h = cc
  transport_known (axios_error (some code) cancel response m) key h =
      let at = failed_as code cancel response m in
      ground (
        arith,
        text_eq→eq code (codes "ERR_NETWORK"),
        text_eq→eq code (codes "ECONNABORTED"),
        text_eq→eq code (codes "ETIMEDOUT"),
        at (codes "ERR_NETWORK"),
        at (codes "ECONNABORTED"),
        at (codes "ETIMEDOUT"),
      )

  failed_code :
      (code : Text) (cancel : Bool) (response : Option HttpResponse) (m text : Text)
      → FailedAs (axios_error (some code) cancel response m) text
      → text_eq code text ≡ true
  failed_code code cancel response m text (failed_as _ _ _ _ _ e) = rw e (text_eq_refl text)

  no_transport : (e : HttpError) → transport_key exists e ≡ none → (¬ IsOffline e) × (¬ IsLate e)
  unfolding transport_key IsOffline IsLate
  no_transport (other_error m) h =
      (λ f. elim f [ ], λ f. elim f [ inl g ↦ elim g [ ] | inr g ↦ elim g [ ] ])
  no_transport (axios_error none cancel response m) h =
      (λ f. elim f [ ], λ f. elim f [ inl g ↦ elim g [ ] | inr g ↦ elim g [ ] ])
  no_transport (axios_error (some code) cancel response m) h =
      let at = failed_code code cancel response m in
      (
        λ f. absurd (ground (arith, at (codes "ERR_NETWORK") f)),
        λ f. elim f [
          | inl g ↦ absurd (ground (arith, at (codes "ECONNABORTED") g))
          | inr g ↦ absurd (ground (arith, at (codes "ETIMEDOUT") g))
        ],
      )

  api_error_message-Says : (e : HttpError) → Says e (api_error_message e)
  unfolding api_error_message get_error_body
  api_error_message-Says (other_error m) = other m
  api_error_message-Says (axios_error code cancel none m) = unanswered code cancel m
  api_error_message-Says (axios_error code cancel (some response) m) = own response.data_error refl
    where
      own :
          (o : Option Text)
          → response.data_error ≡ o
          → Says
              (axios_error code cancel (some response) m)
              (elim o [ none ↦ m | some text ↦ text ])
      own none e = silent code cancel response m e
      own (some text) e = answer code cancel response m text e

  last_resort-IsGrounded :
      (e : HttpError)
      → ((server : Text) → ¬ Names e server)
      → ¬ IsOffline e
      → ¬ IsLate e
      → IsGrounded e (last_resort exists (api_error_message e))
  unfolding last_resort
  last_resort-IsGrounded e unnamed online timely =
      let says = api_error_message-Says e in
      if_intro (IsGrounded e) (exists (api_error_message e)) _ _
        (translated (api_error_message e) unnamed online timely says)
        (verbatim (api_error_message e) unnamed online timely says)

  describe_error-IsGrounded :
      (e : HttpError) (server transport : Option Text)
      → known_code exists (body_code (get_error_body e)) ≡ server
      → transport_key exists e ≡ transport
      → IsGrounded e (describe_error exists server transport (api_error_message e))
  unfolding describe_error
  describe_error-IsGrounded e (some key) transport hs ht =
      let (server, named, same) = known_code-Names e key hs in rw same (known server named)
  describe_error-IsGrounded e none (some key) hs ht = elim (transport_known e key ht) [
    | inl (offline, same) ↦ rw same (network (no_names e hs) offline)
    | inr (late, same) ↦ rw same (timeout (no_names e hs) late)
  ]
  describe_error-IsGrounded e none none hs ht =
      let (online, timely) = no_transport e ht in
      last_resort-IsGrounded e (no_names e hs) online timely

  -- For every failure, the message is the one of the server's code if the answer has a code that
  -- the dictionary knows; otherwise it says that the connection failed or that time ran out
  -- exactly for a request that failed with the codes of these; and otherwise it is the server's
  -- text, or else the failure's own, as a key where the dictionary has it and as it came where not.
  pub api_error_descriptor-IsGrounded :
      (e : HttpError) → IsGrounded e (api_error_descriptor exists e)
  unfolding api_error_descriptor
  api_error_descriptor-IsGrounded e = describe_error-IsGrounded e _ _ refl refl
