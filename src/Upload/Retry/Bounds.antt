-- ===== src/Upload/Retry/Bounds.antt =====
-- utils/uploadRetry.ts uploadRetryDelay: which failures are tried again, and after what wait.
use gothrough.Base.{
  ℕ, zero, suc, ◌≤◌, ◌<◌, ◌≡◌, ◌⊎◌, refl, Bool, true, Option, none, some, [], ◌∷◌, ◌++◌, contains,
  arith, Text, text_eq→eq, text_eq_refl, starts_with, codes,
}
use gothrough.Upload.Retry.{
  HttpError, axios_error, other_error, HttpResponse, is_storage_code, is_network_code,
  transient_statuses, is_transient, backoff, header_delay, after_header, header_wait, retry_wait,
  upload_retry_delay,
}

-- The server's codes for a failure of its storage, which another try does not mend.
pub data IsStorage : Option Text → Type 0 where
  storage : (code rest : Text) → code ≡ codes "STORAGE_" ++ rest → IsStorage (some code)
  hardlink : (code : Text) → code ≡ codes "HARDLINK_UNSUPPORTED" → IsStorage (some code)

-- A failure that may pass by itself: a request without an answer, by the code of its failure, or an
-- answer with one of six statuses that does not speak of the storage.
pub data IsTransient : HttpError → Type 0 where
  unanswered :
      (code : Text) (cancel : Bool) (m : Text)
      → (code ≡ codes "ERR_NETWORK") ⊎ ((code ≡ codes "ECONNABORTED") ⊎ (code ≡ codes "ETIMEDOUT"))
      → IsTransient (axios_error (some code) cancel none m)
  answered_with :
      (code : Option Text) (cancel : Bool) (response : HttpResponse) (m : Text)
      → (response.status ≡ 408)
        ⊎ ((response.status ≡ 429)
            ⊎ ((response.status ≡ 500) ⊎ ((502 ≤ response.status) × (response.status ≤ 504))))
      → ¬ IsStorage response.data_code
      → IsTransient (axios_error code cancel (some response) m)

starts_with_append : (s t : Text) → starts_with (s ++ t) s ≡ true
starts_with_append [] [] = refl
starts_with_append [] (b ∷ t) = refl
starts_with_append (a ∷ s) t = ground (arith, starts_with_append s t)

is_storage_code-IsStorage : (o : Option Text) → IsStorage o → is_storage_code o ≡ true
unfolding is_storage_code
is_storage_code-IsStorage none s = elim s [ ]
is_storage_code-IsStorage (some code) (storage _ rest e) =
    rw (e, starts_with_append (codes "STORAGE_") rest) refl
is_storage_code-IsStorage (some code) (hardlink _ e) =
    rw (e, text_eq_refl (codes "HARDLINK_UNSUPPORTED")) refl

network_codes :
    (code : Text)
    → is_network_code (some code) ≡ true
    → (code ≡ codes "ERR_NETWORK") ⊎ ((code ≡ codes "ECONNABORTED") ⊎ (code ≡ codes "ETIMEDOUT"))
unfolding is_network_code
network_codes code h = ground (
  arith,
  text_eq→eq code (codes "ERR_NETWORK"),
  text_eq→eq code (codes "ECONNABORTED"),
  text_eq→eq code (codes "ETIMEDOUT"),
)

statuses :
    (n : ℕ)
    → contains n transient_statuses ≡ true
    → (n ≡ 408) ⊎ ((n ≡ 429) ⊎ ((n ≡ 500) ⊎ ((502 ≤ n) × (n ≤ 504))))
statuses n h = ground arith

is_transient-IsTransient :
    (code : Option Text) (cancel : Bool) (response : Option HttpResponse) (m : Text)
    → is_transient code response ≡ true
    → IsTransient (axios_error code cancel response m)
unfolding is_transient
is_transient-IsTransient none cancel none m h = absurd (unfold is_network_code in ground arith)
is_transient-IsTransient (some code) cancel none m h =
    unanswered code cancel m (network_codes code h)
is_transient-IsTransient code cancel (some response) m h =
    answered_with code cancel response m (statuses response.status (ground arith))
      (λ s. absurd (ground (arith, is_storage_code-IsStorage response.data_code s)))

module _ (date_parse : Text → Option ℕ) where
  after_header_bounds :
      (wait : ℕ) (o : Option ℕ) (d : ℕ)
      → wait ≤ 60000
      → after_header date_parse wait o ≡ some d
      → (wait ≤ d) × (d ≤ 60000)
  unfolding after_header
  after_header_bounds wait none d h e = ground arith
  after_header_bounds wait (some delay) d h e = ground arith

  header_wait_bounds :
      (wait now : ℕ) (o : Option Text) (d : ℕ)
      → wait ≤ 60000
      → header_wait date_parse wait now o ≡ some d
      → (wait ≤ d) × (d ≤ 60000)
  unfolding header_wait
  header_wait_bounds wait now none d h e = ground arith
  header_wait_bounds wait now (some header) d h e =
      after_header_bounds wait (header_delay date_parse now header) d h e

  retry_wait_bounds :
      (wait now : ℕ) (response : Option HttpResponse) (d : ℕ)
      → wait ≤ 60000
      → retry_wait date_parse wait now response ≡ some d
      → (wait ≤ d) × (d ≤ 60000)
  retry_wait_bounds wait now none d h e = unfold retry_wait in ground arith
  retry_wait_bounds wait now (some response) d h e =
      header_wait_bounds wait now response.retry_after d h (unfold retry_wait in e)

  backoff_small : (retry : ℕ) → retry < 2 → backoff retry ≤ 60000
  unfolding backoff
  backoff_small zero h = omega arith
  backoff_small (suc zero) h = omega arith
  backoff_small (suc (suc r)) h = absurd (omega arith)

  -- Of any failure, a retry is granted to the first two only, to one that may pass by itself, and
  -- after a wait that is at least the exponential backoff and at most a minute.
  pub upload_retry_delay_bounds :
      (e : HttpError) (retry now d : ℕ)
      → upload_retry_delay date_parse e retry now ≡ some d
      → (retry < 2) × IsTransient e × (backoff retry ≤ d) × (d ≤ 60000)
  unfolding upload_retry_delay
  upload_retry_delay_bounds (other_error m) retry now d h = cc
  upload_retry_delay_bounds (axios_error code cancel response m) retry now d h = ground (
    arith,
    backoff_small retry,
    is_transient-IsTransient code cancel response m,
    retry_wait_bounds (backoff retry) now response d,
  )
