-- ===== src/Cipherstore/Server/Acknowledged.antt =====
-- When cipherstore/src/server.ts acknowledges an upload.
use vulnseal.Prelude.{
  ℕ, ◌≡◌, ◌≢◌, inl, inr, refl, String, ◌∙◌, Bool, true, false, ◌&&◌, Option, none, some, Bytes,
  ◌=ᵇ◌, leb, Result, ok, err, Bool-cases, if◌then◌else◌, arith, ap,
}
use vulnseal.Shared.Hex.{Text}
use vulnseal.Cipherstore.Storage.{StorageError, CiphertextStorage, StorageLaws, PutPromise}
use vulnseal.Shared.Json.{Json}
use vulnseal.Cipherstore.Upload.{joined}
use vulnseal.Cipherstore.Server.{
  Method, get, put, preflight, other_method, Request, Response, Options, blob, stored, failure,
  json, empty, health, with_origin, ready_reply, metrics_reply, read_reply, put_reply, caught,
  error_response, store_body, upload_body, receive_blob, send_blob, prepared_blob, serve_method,
  answer_blob, retired_reply, admit_blob, handle, match_digest, is_retired, uploading,
  is_media_type,
}
use vulnseal.Cipherstore.Server.Effect.{body_facts}
use vulnseal.Cipherstore.Server.Answers.{handle_cases, error_says}

module _ {S : Type 0} (storage : CiphertextStorage S) (laws : StorageLaws S storage)
    (sha256 : Bytes → Text) (decode_utf8 : Bytes → Option Text) (parse_json : Text → Option Json)
    (options : Options) (request : Request) (s : S) where
  -- An upload is acknowledged only when its body is stored.
  Acknowledges : Response × S → Type 0
  Acknowledges x =
      (d : Text) (fresh : Bool)
      → x.0.reply ≡ stored d fresh
      → (match_digest request.url ≡ some d)
        × (laws.blob x.1 d ≡ some (joined request.body.chunks))
        × (x.0.status ≡ (if fresh then 201 else 200))

  Acknowledges-reply :
      (r : Response) (s' : S)
      → ((d : Text) (fresh : Bool) → r.reply ≢ stored d fresh)
      → Acknowledges (r, s')
  unfolding Acknowledges
  Acknowledges-reply r s' no_reply d fresh e = absurd (no_reply d fresh e)

  error-Acknowledges : (x : StorageError) (s' : S) → Acknowledges (error_response x, s')
  error-Acknowledges x s' =
      Acknowledges-reply _ s'
        (error_says storage laws sha256 decode_utf8 parse_json options request s x).1

  failure-Acknowledges :
      (status : ℕ) (text : String) (s' : S) → Acknowledges (json status (failure text), s')
  failure-Acknowledges status text s' = Acknowledges-reply _ s' (λ d fresh e. cc)

  module _ (d : Text) (at : match_digest request.url ≡ some d) where
    put-Acknowledges :
        (body : Bytes) (s₁ : S)
        → body ≡ joined request.body.chunks
        → (r : Result StorageError Bool × S) → PutPromise laws.blob d body s₁ r.1 r.0
        → Acknowledges (caught (put_reply d r))
    unfolding Acknowledges
    put-Acknowledges body s₁ joins (ok true, s') (_, after, _) = λ e fresh f.
        let same : d ≡ e = cc in
        let is : true ≡ fresh = cc in rw (← same, ← is) (at, after ∙ ap some joins, refl)
    put-Acknowledges body s₁ joins (ok false, s') (before, keeps) = λ e fresh f.
        let same : d ≡ e = cc in
        let is : false ≡ fresh = cc in
        rw (← same, ← is) (at, keeps d ∙ before ∙ ap some joins, refl)
    put-Acknowledges body s₁ joins (err x, s') keeps = error-Acknowledges x s'

    store-Acknowledges :
        (x : Result StorageError (Bytes × Bool)) (s₁ : S)
        → ((body : Bytes) → x ≡ ok (body, true) → body ≡ joined request.body.chunks)
        → Acknowledges (caught (store_body storage sha256 decode_utf8 parse_json d x s₁))
    store-Acknowledges (err x) s₁ facts = error-Acknowledges x s₁
    store-Acknowledges (ok (body, false)) s₁ facts = failure-Acknowledges _ _ s₁
    store-Acknowledges (ok (body, true)) s₁ facts =
        put-Acknowledges body s₁ (facts body refl) (storage.put d body s₁) (laws.put_says d body s₁)

    receive-Acknowledges :
        (s₁ : S)
        → Acknowledges (caught (receive_blob storage sha256 decode_utf8 parse_json d request s₁))
    unfolding receive_blob
    receive-Acknowledges s₁ = typed (is_media_type request.content_type)
      where
        typed :
            (t : Bool)
            → Acknowledges (
                caught (
                  if t
                  then store_body storage sha256 decode_utf8 parse_json d
                      (upload_body sha256 decode_utf8 parse_json d request)
                      s₁
                  else (ok (json 415 (failure "ciphertext_media_type_required")), s₁)))
        typed true =
            store-Acknowledges (upload_body sha256 decode_utf8 parse_json d request) s₁
              (λ body e. (body_facts storage laws sha256 decode_utf8 parse_json d request body e).0)
        typed false = failure-Acknowledges _ _ s₁

    read-Acknowledges :
        (intact : Bytes → Bool) (r : Result StorageError Bytes × S)
        → Acknowledges (caught (read_reply intact r))
    read-Acknowledges intact (ok body, s') = sent (intact body)
      where
        sent :
            (t : Bool)
            → Acknowledges (
              (if t then json 200 (blob body) else json 500 (failure "stored_blob_corrupted")),
              s',
            )
        sent true = Acknowledges-reply _ s' (λ e fresh f. cc)
        sent false = failure-Acknowledges _ _ s'
    read-Acknowledges intact (err x, s') = Acknowledges-reply _ _ (λ e fresh f. ground arith)

    method-Acknowledges :
        (m : Method) (s₁ : S)
        → Acknowledges (caught (serve_method storage sha256 decode_utf8 parse_json m d request s₁))
    unfolding serve_method send_blob
    method-Acknowledges get s₁ = read-Acknowledges (λ body. sha256 body =ᵇ d) (storage.read d s₁)
    method-Acknowledges put s₁ = receive-Acknowledges s₁
    method-Acknowledges preflight s₁ = Acknowledges-reply _ s₁ (λ e fresh f. cc)
    method-Acknowledges other_method s₁ = Acknowledges-reply _ s₁ (λ e fresh f. cc)

    prepared-Acknowledges :
        (r : Result StorageError (Unit {0}) × S)
        → Acknowledges (caught (prepared_blob storage sha256 decode_utf8 parse_json d request r))
    unfolding prepared_blob
    prepared-Acknowledges (err x, s₁) = error-Acknowledges x s₁
    prepared-Acknowledges (ok _, s₁) = method-Acknowledges request.method s₁

    answer-Acknowledges :
        Acknowledges (answer_blob storage sha256 decode_utf8 parse_json options d request s)
    unfolding answer_blob
    answer-Acknowledges = by_retired (is_retired options d)
      where
        prepared : Acknowledges (
            caught
              (prepared_blob storage sha256 decode_utf8 parse_json d request (storage.prepare s)))
        prepared = prepared-Acknowledges (storage.prepare s)

        hidden :
            (m : Method)
            → Acknowledges (
                retired_reply m s (
                  caught (
                    prepared_blob storage sha256 decode_utf8 parse_json d request
                      (storage.prepare s))))
        hidden get = failure-Acknowledges _ _ s
        hidden put = failure-Acknowledges _ _ s
        hidden preflight = prepared
        hidden other_method = prepared

        by_retired :
            (t : Bool)
            → Acknowledges (
                if t
                then retired_reply request.method s (
                    caught (
                      prepared_blob storage sha256 decode_utf8 parse_json d request
                        (storage.prepare s)))
                else caught (
                    prepared_blob storage sha256 decode_utf8 parse_json d request
                      (storage.prepare s)))
        by_retired true = hidden request.method
        by_retired false = prepared

  admit-Acknowledges :
      (active : ℕ) (o : Option Text)
      → match_digest request.url ≡ o
      → Acknowledges (admit_blob storage sha256 decode_utf8 parse_json options o request active s)
  unfolding admit_blob
  admit-Acknowledges active none at = failure-Acknowledges _ _ s
  admit-Acknowledges active (some d) at =
      elim (Bool-cases (uploading request.method && leb options.max_concurrent_uploads active)) [
        | inl full ↦ rw full (Acknowledges-reply _ s (λ e fresh f. cc))
        | inr free ↦ rw free (answer-Acknowledges d at)
      ]

  ready-Acknowledges :
      (r : Result StorageError (Unit {0}) × S)
      → Acknowledges (ready_reply r) × Acknowledges (metrics_reply r)
  ready-Acknowledges (ok _, s') =
      (Acknowledges-reply _ s' (λ e fresh f. cc), Acknowledges-reply _ s' (λ e fresh f. cc))
  ready-Acknowledges (err x, s') =
      (Acknowledges-reply _ s' (λ e fresh f. cc), Acknowledges-reply _ s' (λ e fresh f. cc))

  origin-Acknowledges : (x : Response × S) → Acknowledges x → Acknowledges (with_origin options x)
  unfolding Acknowledges
  origin-Acknowledges x f = f

  -- An upload is acknowledged, with 201 for a new blob and 200 for a known one, only when the
  -- storage then holds its whole body under the digest of the URL.
  pub handle_acknowledges :
      (active : ℕ) (d : Text) (fresh : Bool)
      → (handle storage sha256 decode_utf8 parse_json options request active s).0.reply
        ≡ stored d fresh
      → (match_digest request.url ≡ some d)
        × (laws.blob (handle storage sha256 decode_utf8 parse_json options request active s).1 d
            ≡ some (joined request.body.chunks))
        × ((handle storage sha256 decode_utf8 parse_json options request active s).0.status
            ≡ (if fresh then 201 else 200))
  unfolding Acknowledges
  handle_acknowledges active =
      handle_cases storage laws sha256 decode_utf8 parse_json options request s Acknowledges active
        (ready-Acknowledges (storage.check_readiness s)).1
        (ready-Acknowledges (storage.check_readiness s)).0
        (Acknowledges-reply (json 204 empty) s (λ e fresh f. cc))
        (Acknowledges-reply (json 200 health) s (λ e fresh f. cc))
        (admit-Acknowledges active (match_digest request.url) refl) origin-Acknowledges
