-- ===== src/Listing/Honesty.antt =====
-- The validator that is kept is always that of the data that are shown.
use gothrough.Base.{
  ℕ, ◌≡◌, refl, sym, inl, inr, Bool, true, false, not, Option, none, some, List, if_intro, ◌==◌,
  arith, Text,
}
use mathlib.Core.Path.{subst}
use mathlib.Core.Option.{some-injective}
use gothrough.Messages.{Message}
use gothrough.Remote
use gothrough.Remote.{
  Request, Remote, Answer, RemoteEvent, or_keep, refresh, announce, open_request, cancel,
  cancel_background, is_background, initial,
}
use gothrough.Remote.Invariant
use gothrough.Remote.Acceptance.{Kept, resolves-cases, rejects-Kept}
use gothrough.Listing.{
  Response, ConditionalResult, is_sent, or_sent, is_valid_status, conditional_get, to_answer,
  Listing, sent_with, to_send, put_remote, answered, respond,
}

-- `Tagged e a` says that the server has given out `a` under the etag `e`.
module _ {ℓ} {A : Type ℓ} (Tagged : Text → A → Type 0) where
  abbrev pub IsTagged : Option Text → A → Type 0
  IsTagged none a = Unit
  IsTagged (some e) a = Tagged e a

  -- The server's part: a full answer carries its own etag, and the etag of an answer that nothing
  -- has changed belongs to all that the etag belongs to which was sent.
  pub record IsHonest (sent : Option Text) (r : Response A) : Type ℓ where
    pub full : (r.status == 304) ≡ false → IsTagged r.etag r.body
    pub unchanged :
        (r.status == 304) ≡ true
        → (a : A) (e e' : Text) → sent ≡ some e
        → r.etag ≡ some e'
        → Tagged e a
        → Tagged e' a

  -- The current request was sent with the validator that is kept, if it polls, and else with none.
  abbrev pub SentFor : Option Request → Option Text → List (ℕ × Option Text) → Type 0
  SentFor none validator sent = Unit
  SentFor (some r) validator sent = sent_with r.id sent ≡ to_send r.background validator

  pub record Inv (l : Listing A) : Type 0 where
    pub remote : Remote.Invariant.Inv l.remote
    pub tagged : IsTagged l.remote.validator l.remote.data'
    pub matched : SentFor l.remote.request l.remote.validator l.sent

  SentFor-none :
      (o : Option Request) (v : Option Text) (sent : List (ℕ × Option Text))
      → o ≡ none
      → SentFor o v sent
  SentFor-none o v sent e = rw e tt

  pub Inv-Kept :
      (l : Listing A) (s : Remote A)
      → Remote.Invariant.Inv s
      → Kept l.remote s
      → Inv l
      → Inv (put_remote l s)
  Inv-Kept l s v k h = record {
    remote = v;
    tagged =
        subst (λ w. IsTagged w s.data') (sym k.same_validator)
          (subst (IsTagged l.remote.validator) (sym k.same_data) h.tagged);
    matched = elim k.request [
      | inl same ↦
          subst (λ w. SentFor s.request w l.sent) (sym k.same_validator)
            (subst (λ o. SentFor o l.remote.validator l.sent) (sym same) h.matched)
      | inr gone ↦ SentFor-none s.request s.validator l.sent gone
    ];
  }

  unchanged_tag :
      (etag sent : Option Text) (a : A)
      → is_sent sent ≡ true
      → ((e e' : Text) → sent ≡ some e → etag ≡ some e' → Tagged e a → Tagged e' a)
      → IsTagged sent a
      → IsTagged (or_sent etag sent) a
  unchanged_tag none sent a s h t = t
  unchanged_tag (some e') none a s h t = cc
  unchanged_tag (some e') (some e) a s h t = h e e' refl refl t

  sent_of_valid :
      (sent : Option Text) (status : ℕ)
      → is_valid_status sent status ≡ true
      → (status == 304) ≡ true
      → is_sent sent ≡ true
  sent_of_valid sent status v h = ground (arith, v)

  -- An accepted answer leaves data and validator that belong together.
  conditional_get-IsTagged :
      (sent : Option Text) (r : Response A) (result : ConditionalResult A) (v : Option Text) (a : A)
      → IsHonest sent r
      → IsTagged sent a
      → conditional_get sent r ≡ some result
      → IsTagged (or_keep (to_answer result).commit v) (or_keep (to_answer result).result a)
  unfolding conditional_get to_answer
  conditional_get-IsTagged sent r result v a honest t =
      if_intro
        (λ o.
          o ≡ some result
          → IsTagged (or_keep (to_answer result).commit v) (or_keep (to_answer result).result a))
        (not (is_valid_status sent r.status)) _ _ (λ _ e. cc)
        (λ valid.
          if_intro
            (λ o.
              o ≡ some result
              → IsTagged (or_keep (to_answer result).commit v)
                  (or_keep (to_answer result).result a))
            (r.status == 304) _ _
            (λ same e.
              subst
                (λ x. IsTagged (or_keep (to_answer x).commit v) (or_keep (to_answer x).result a))
                (some-injective _ _ e)
                (unchanged_tag r.etag sent a (sent_of_valid sent r.status (ground arith) same)
                  (honest.unchanged same a) t))
            (λ fresh e.
              subst
                (λ x. IsTagged (or_keep (to_answer x).commit v) (or_keep (to_answer x).result a))
                (some-injective _ _ e) (honest.full fresh)))

  IsTagged-to_send : (b : Bool) (v : Option Text) (a : A) → IsTagged v a → IsTagged (to_send b v) a
  IsTagged-to_send true v a t = t
  IsTagged-to_send false v a t = tt

  answered-Inv :
      (l : Listing A) (id : ℕ) (r : Response A) (failure : Message)
      (o : Option (ConditionalResult A))
      → conditional_get (sent_with id l.sent) r ≡ o
      → IsHonest (sent_with id l.sent) r
      → Inv l
      → Inv (answered id failure o l)
  unfolding answered
  answered-Inv l id r failure none e honest h =
      Inv-Kept l _ (Remote.Invariant.step-Inv l.remote (RemoteEvent.rejects id failure) h.remote)
        (rejects-Kept l.remote id failure) h
  answered-Inv l id r failure (some result) e honest h =
      let a = to_answer result in
      let s = Remote.step l.remote (RemoteEvent.resolves id a) in
      let v = Remote.Invariant.step-Inv l.remote (RemoteEvent.resolves id a) h.remote in
      elim (resolves-cases l.remote id a h.remote) [
        | inl kept ↦ Inv-Kept l s v kept h
        | inr c ↦ record {
          remote = v;
          tagged =
              subst (λ w. IsTagged w s.data') (sym c.committed)
                (subst (IsTagged (or_keep a.commit l.remote.validator)) (sym c.taken) (
                  conditional_get-IsTagged (sent_with id l.sent) r result l.remote.validator
                    l.remote.data' honest
                    (subst (λ w. IsTagged w l.remote.data')
                      (sym (subst (λ q. SentFor q l.remote.validator l.sent) c.at h.matched))
                      (IsTagged-to_send c.background l.remote.validator l.remote.data' h.tagged))
                    e));
          matched = SentFor-none s.request s.validator l.sent c.released;
        }
      ]

  pub respond-Inv :
      (l : Listing A) (id : ℕ) (r : Response A) (failure : Message)
      → IsHonest (sent_with id l.sent) r
      → Inv l
      → Inv (respond id r failure l)
  unfolding respond
  respond-Inv l id r failure honest h =
      answered-Inv l id r failure (conditional_get (sent_with id l.sent) r) refl honest h
