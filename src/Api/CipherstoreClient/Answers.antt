-- ===== src/Api/CipherstoreClient/Answers.antt =====
-- api/src/cipherstore-client.ts: what a client may conclude from an answer.
use vulnseal.Prelude.{
  ℕ, ◌≤◌, ◌≡◌, refl, arith, Bool, true, false, not, Option, none, some, List, [], ◌∷◌, All, any,
  length, Result, ok, err, >>=-ok, guard, guard-ok, ok-injective, ==_iff, ◌⊎◌,
}
use mathlib.Core.Path.{subst}
use vulnseal.Shared.Hex.{Text}
use vulnseal.Shared.Environment.{Url}
use vulnseal.Shared.Crypto.{Platform, is_content_address, validate_content_digest}
use vulnseal.Api.CipherstoreClient.{
  ClientError, Fetched, Response, CipherstoreClient, AnyClient, single, replicated, acknowledge,
  acknowledged, is_retirement, request, download_text, read_ciphertext, is_ok, put_ciphertext,
  get_ciphertext, put_all, put_replicated, get_first, get_replicated, put_any, get_any, too_large,
  wrong_digest, invalid_address, retired_copy, failed_status, Method, get, put,
}

guarded : (t : Bool) (x : ClientError) → guard t x ≡ ok tt → t ≡ true
guarded true x h = refl
guarded false x h = cc

abbrev pub clients_of : AnyClient → List CipherstoreClient
clients_of (single client) = client ∷ []
clients_of (replicated clients) = clients

module _ (platform : Platform) (parse_url : Text → Option Url)
    (fetch : CipherstoreClient → Method → Text → Option Text → Fetched) where
  download_text-validates :
      (address : Text) (response : Option Response) {t : Text}
      → download_text platform parse_url fetch address response ≡ ok t
      → validate_content_digest platform t address ≡ true
  unfolding download_text
  download_text-validates address none h = cc
  download_text-validates address (some response) h =
      guard-ok (is_ok response.status) (failed_status response.status) _ h λ e₀ h₀.
        >>=-ok (read_ciphertext platform.from_utf8 response.body) _ h₀ λ text e₁ h₁.
          guard-ok (validate_content_digest platform text address) wrong_digest _ h₁ λ e₂ h₂.
            subst (λ t. validate_content_digest platform t address ≡ true) (ok-injective h₂) e₂

  request-ok {ℓ} :
      {A : Type ℓ} (method : Method) (aborted : Bool) (r : Result ClientError A) {a : A}
      → request method aborted r ≡ ok a
      → r ≡ ok a
  request-ok method true r h = cc
  request-ok method false r h = h

  get_ciphertext-validates :
      (client : CipherstoreClient) (address : Text) {t : Text}
      → get_ciphertext platform parse_url fetch client address ≡ ok t
      → validate_content_digest platform t address ≡ true
  unfolding get_ciphertext
  get_ciphertext-validates client address h =
      guard-ok (is_content_address address) invalid_address _ h λ e₀ h₀.
        let fetched = fetch client get address none in
        download_text-validates address fetched.response (request-ok get fetched.aborted _ h₀)

  get_first-validates :
      (count : ℕ) (clients : List CipherstoreClient) (address : Text) {t : Text}
      → get_first platform parse_url fetch count clients address ≡ ok t
      → validate_content_digest platform t address ≡ true
  unfolding get_first
  get_first-validates count [] address h = cc
  get_first-validates count (client ∷ clients) address {t} h =
      by_answer (get_ciphertext platform parse_url fetch client address)
        (λ u e. get_ciphertext-validates client address e)
        (λ e. get_first-validates count clients address e) h
    where
      by_answer :
          (r : Result ClientError Text)
          → ((u : Text) → r ≡ ok u → validate_content_digest platform u address ≡ true)
          → (get_first platform parse_url fetch count clients address ≡ ok t
              → validate_content_digest platform t address ≡ true)
          → elim r [
            | ok serialized ↦ ok serialized
            | err e ↦ get_first platform parse_url fetch count clients address
          ]
            ≡ ok t
          → validate_content_digest platform t address ≡ true
      by_answer (ok u) mine rest h =
          subst (λ t. validate_content_digest platform t address ≡ true) (ok-injective h)
            (mine u refl)
      by_answer (err e) mine rest h = rest h

  -- Whatever the stores send, what a client of one store or several gives out passes the digest test
  -- of the address that was asked for.
  pub get_any-validates :
      (client : AnyClient) (address : Text) {t : Text}
      → get_any platform parse_url fetch client address ≡ ok t
      → validate_content_digest platform t address ≡ true
  unfolding get_any get_replicated
  get_any-validates (single client) address h = get_ciphertext-validates client address h
  get_any-validates (replicated clients) address h =
      guard-ok (is_content_address address) invalid_address _ h
        λ e₀ h₀. get_first-validates (length clients) clients address h₀

  -- A store has said that it holds the upload: with 200 or 201, before the deadline.
  pub record IsAcknowledged (client : CipherstoreClient) (address serialized : Text) : Type 0 where
    pub matches : validate_content_digest platform serialized address ≡ true
    pub in_time : (fetch client put address (some serialized)).aborted ≡ false
    pub response : Response
    pub answered : (fetch client put address (some serialized)).response ≡ some response
    pub stored : (response.status ≡ 200) ⊎ (response.status ≡ 201)

  acknowledge-stored :
      (o : Option Response)
      → acknowledge o ≡ ok tt
      → (response : Response) × (o ≡ some response)
        × ((response.status ≡ 200) ⊎ (response.status ≡ 201))
  unfolding acknowledge
  acknowledge-stored none h = cc
  acknowledge-stored (some response) h = (response, refl, ground (arith, h))

  aborted-false {ℓ} :
      {A : Type ℓ} (method : Method) (aborted : Bool) (r : Result ClientError A) {a : A}
      → request method aborted r ≡ ok a
      → aborted ≡ false
  aborted-false method true r h = cc
  aborted-false method false r h = refl

  put_ciphertext-IsAcknowledged :
      (client : CipherstoreClient) (address serialized : Text)
      → put_ciphertext platform parse_url fetch client address serialized ≡ ok tt
      → IsAcknowledged client address serialized
  unfolding put_ciphertext
  put_ciphertext-IsAcknowledged client address serialized h = guard-ok _ too_large _ h λ e₀ h₀.
      guard-ok (validate_content_digest platform serialized address) wrong_digest _ h₀ λ e₁ h₁.
        let fetched = fetch client put address (some serialized) in
        let (response, answered, stored) =
          acknowledge-stored fetched.response (request-ok put fetched.aborted _ h₁) in
        record {
          matches = e₁;
          in_time = aborted-false put fetched.aborted _ h₁;
          response = response;
          answered = answered;
          stored = stored;
        }

  acknowledged-le :
      (results : List (Result ClientError (Unit {0}))) → acknowledged results ≤ length results
  acknowledged-le [] = omega arith
  acknowledged-le (ok u ∷ results) = omega (arith, acknowledged-le results)
  acknowledged-le (err e ∷ results) = omega (arith, acknowledged-le results)

  put_each-IsAcknowledged :
      (address serialized : Text) (clients : List CipherstoreClient)
      → acknowledged (put_all platform parse_url fetch address serialized clients)
        ≡ length (put_all platform parse_url fetch address serialized clients)
      → All (λ client. IsAcknowledged client address serialized) clients
  unfolding put_all
  put_each-IsAcknowledged address serialized [] h = tt
  put_each-IsAcknowledged address serialized (client ∷ clients) h =
      by_result (put_ciphertext platform parse_url fetch client address serialized)
        (put_ciphertext-IsAcknowledged client address serialized)
        (acknowledged-le (put_all platform parse_url fetch address serialized clients))
        (put_each-IsAcknowledged address serialized clients) h
    where
      by_result :
          (r : Result ClientError (Unit {0}))
          → (r ≡ ok tt → IsAcknowledged client address serialized)
          → acknowledged (put_all platform parse_url fetch address serialized clients)
            ≤ length (put_all platform parse_url fetch address serialized clients)
          → (acknowledged (put_all platform parse_url fetch address serialized clients)
                ≡ length (put_all platform parse_url fetch address serialized clients)
              → All (λ c. IsAcknowledged c address serialized) clients)
          → acknowledged (r ∷ put_all platform parse_url fetch address serialized clients)
            ≡ length (r ∷ put_all platform parse_url fetch address serialized clients)
          → All (λ c. IsAcknowledged c address serialized) (client ∷ clients)
      by_result (ok u) mine le rest e = (mine refl, rest (omega arith))
      by_result (err x) mine le rest e = absurd (omega arith)

  -- An upload that ends well matched its address and was acknowledged by every store of the client,
  -- each with 200 or 201 before the deadline.
  pub put_any-IsAcknowledged :
      (client : AnyClient) (address serialized : Text)
      → put_any platform parse_url fetch client address serialized ≡ ok tt
      → All (λ c. IsAcknowledged c address serialized) (clients_of client)
  unfolding put_any put_replicated
  put_any-IsAcknowledged (single client) address serialized h =
      (put_ciphertext-IsAcknowledged client address serialized h, tt)
  put_any-IsAcknowledged (replicated clients) address serialized h =
      let results = put_all platform parse_url fetch address serialized clients in
      guard-ok (not (any is_retirement results)) (retired_copy (acknowledged results)) _ h λ e₀ h₀.
        put_each-IsAcknowledged address serialized clients
          ((==_iff (acknowledged results) (length results)).0 (guarded _ _ h₀))
