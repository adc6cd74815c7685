-- ===== src/Cipherstore/Server/Answers.antt =====
-- What the answers of cipherstore/src/server.ts tell a client.
use vulnseal.Prelude.{
  ℕ, ◌≡◌, ◌≢◌, ◌⊎◌, inl, inr, refl, sym, String, ◌∙◌, Bool, true, false, ◌&&◌, Option, none, some,
  Bytes, ◌=ᵇ◌, bytes_eq-to_eq, leb, Result, ok, err, Bool-cases, if◌then◌else◌, arith, ap,
}
use vulnseal.Shared.Hex.{Text}
use vulnseal.Cipherstore.Storage.{
  StorageError, CiphertextStorage, StorageLaws, SameBlobs, ReadOutcome,
}
use vulnseal.Shared.Json.{Json}
use vulnseal.Cipherstore.Server.{
  Method, get, put, preflight, other_method, Request, Response, Options, blob, stored, failure,
  json, empty, health, is_get, is_preflight, is_at, with_origin, ready_reply, metrics_reply,
  read_reply, put_reply, caught, error_response, store_body, upload_body, receive_blob, send_blob,
  prepared_blob, serve_method, answer_blob, retired_reply, admit_blob, handle, match_digest,
  is_retired, uploading, is_media_type,
}

module _ {S : Type 0} (storage : CiphertextStorage S) (laws : StorageLaws S storage)
    (sha256 : Bytes → Text) (decode_utf8 : Bytes → Option Text) (parse_json : Text → Option Json)
    (options : Options) (request : Request) (s : S) where
  -- What holds of each part of the handler holds of the handler.
  pub handle_cases :
      (Q : Response × S → Type 0) (active : ℕ)
      → Q (metrics_reply (storage.check_readiness s))
      → Q (ready_reply (storage.check_readiness s))
      → Q (json 204 empty, s)
      → Q (json 200 health, s)
      → Q (
          admit_blob storage sha256 decode_utf8 parse_json options
            (match_digest request.url)
            request
            active
            s)
      → ((x : Response × S) → Q x → Q (with_origin options x))
      → Q (handle storage sha256 decode_utf8 parse_json options request active s)
  unfolding handle
  handle_cases Q active metrics ready none_sent healthy admitted origin =
      Q-if (options.metrics_enabled && is_at request "/metrics" && is_get request.method) _ _
        metrics
        (origin _ (
          Q-if (is_preflight request.method) _ _ none_sent (
            Q-if (is_at request "/healthz" && is_get request.method) _ _ healthy
              (Q-if (is_at request "/readyz" && is_get request.method) _ _ ready admitted))))
    where
      Q-if : (t : Bool) (x y : Response × S) → Q x → Q y → Q (if t then x else y)
      Q-if true x y f g = f
      Q-if false x y f g = g

  -- A blob is sent only as the storage held it, at the digest of the URL, and with that digest.
  Sends : Response × S → Type 0
  Sends x =
      (body : Bytes)
      → x.0.reply ≡ blob body
      → (d : Text) × (match_digest request.url ≡ some d)
        × (laws.blob s d ≡ some body)
        × (sha256 body ≡ d)
        × (x.0.status ≡ 200)
        × (is_retired options d ≡ false)

  refused : (s₁ : S) → Sends (record (json 405 (failure "method_not_allowed")) { allow = true }, s₁)
  unfolding Sends
  refused s₁ b e = cc

  Sends-json : (status : ℕ) (text : String) → Sends (json status (failure text), s)
  unfolding Sends
  Sends-json status text b e = cc

  Sends-busy : Sends (record (json 503 (failure "upload_capacity_busy")) { retry_after = true }, s)
  unfolding Sends
  Sends-busy b e = cc

  pub error_says :
      (e : StorageError)
      → ((b : Bytes) → (error_response e).reply ≢ blob b)
        × ((d : Text) (fresh : Bool) → (error_response e).reply ≢ stored d fresh)
  error_says e = (λ b f. ground arith, λ d fresh f. ground arith)

  module _ (d : Text) (at : match_digest request.url ≡ some d) where
    read-Sends :
        (r : Result StorageError Bytes × S) (s₁ : S)
        → SameBlobs laws.blob s s₁
        → ReadOutcome laws.blob d s₁ r.0
        → is_retired options d ≡ false
        → Sends (caught (read_reply (λ body. sha256 body =ᵇ d) r))
    unfolding Sends
    read-Sends (ok body, s') s₁ keeps found live b e = elim (Bool-cases (sha256 body =ᵇ d)) [
      | inl intact ↦
          let same : body ≡ b = cc (rw intact at e) in
          (
            d,
            at,
            rw (← same) (sym (keeps d) ∙ found),
            rw (← same) (bytes_eq-to_eq (sha256 body) d intact),
            rw intact refl,
            live,
          )
      | inr broken ↦ absurd (cc (rw broken at e))
    ]
    read-Sends (err x, s') s₁ keeps found live b e = absurd (no_blob x b e)
      where
        no_blob :
            (x : StorageError) (b : Bytes)
            → (caught (read_reply (λ body. sha256 body =ᵇ d) (err x, s'))).0.reply ≢ blob b
        no_blob x b = λ f. ground arith

    upload-Sends :
        (s₁ : S) → Sends (caught (receive_blob storage sha256 decode_utf8 parse_json d request s₁))
    unfolding Sends receive_blob
    upload-Sends s₁ b e = absurd (typed (is_media_type request.content_type) e)
      where
        put_none : (r : Result StorageError Bool × S) → (caught (put_reply d r)).0.reply ≢ blob b
        put_none (ok fresh, _) = λ f. cc
        put_none (err x, _) = (error_says x).0 b

        none_sent :
            (x : Result StorageError (Bytes × Bool))
            → (caught (store_body storage sha256 decode_utf8 parse_json d x s₁)).0.reply ≢ blob b
        none_sent (err x) = (error_says x).0 b
        none_sent (ok (body, true)) = put_none (storage.put d body s₁)
        none_sent (ok (body, false)) = λ f. cc

        typed :
            (t : Bool)
            → (caught (
                if t
                then store_body storage sha256 decode_utf8 parse_json d
                    (upload_body sha256 decode_utf8 parse_json d request)
                    s₁
                else (ok (json 415 (failure "ciphertext_media_type_required")), s₁))).0.reply
              ≢ blob b
        typed true = none_sent (upload_body sha256 decode_utf8 parse_json d request)
        typed false = λ f. cc

    method-Sends :
        (m : Method) (s₁ : S)
        → SameBlobs laws.blob s s₁
        → (is_retired options d ≡ false) ⊎ (is_get m ≡ false)
        → Sends (caught (serve_method storage sha256 decode_utf8 parse_json m d request s₁))
    unfolding serve_method send_blob
    method-Sends get s₁ keeps (inl live) =
        read-Sends (storage.read d s₁) s₁ keeps (laws.read_says d s₁) live
    method-Sends get s₁ keeps (inr e) = cc
    method-Sends put s₁ keeps live = upload-Sends s₁
    method-Sends preflight s₁ keeps live = refused s₁
    method-Sends other_method s₁ keeps live = refused s₁

    prepared-Sends :
        (r : Result StorageError (Unit {0}) × S)
        → SameBlobs laws.blob s r.1
        → (is_retired options d ≡ false) ⊎ (is_get request.method ≡ false)
        → Sends (caught (prepared_blob storage sha256 decode_utf8 parse_json d request r))
    unfolding prepared_blob Sends
    prepared-Sends (err x, s₁) keeps live = λ b e. absurd ((error_says x).0 b e)
    prepared-Sends (ok _, s₁) keeps live = method-Sends request.method s₁ keeps live

    answer-Sends : Sends (answer_blob storage sha256 decode_utf8 parse_json options d request s)
    unfolding answer_blob
    answer-Sends = by_retired (is_retired options d) refl
      where
        prepared :
            (is_retired options d ≡ false) ⊎ (is_get request.method ≡ false)
            → Sends (
                caught (
                  prepared_blob storage sha256 decode_utf8 parse_json d request
                    (storage.prepare s)))
        prepared = prepared-Sends (storage.prepare s) (laws.prepare_keeps s)

        hidden :
            (m : Method)
            → request.method ≡ m
            → Sends (
                retired_reply m s (
                  caught (
                    prepared_blob storage sha256 decode_utf8 parse_json d request
                      (storage.prepare s))))
        hidden get is = Sends-json _ _
        hidden put is = Sends-json _ _
        hidden preflight is = prepared (inr (ap is_get is))
        hidden other_method is = prepared (inr (ap is_get is))

        by_retired :
            (t : Bool)
            → is_retired options d ≡ t
            → Sends (
                if t
                then retired_reply request.method s (
                    caught (
                      prepared_blob storage sha256 decode_utf8 parse_json d request
                        (storage.prepare s)))
                else caught (
                    prepared_blob storage sha256 decode_utf8 parse_json d request
                      (storage.prepare s)))
        by_retired true is = hidden request.method refl
        by_retired false is = prepared (inl is)

  admit-Sends :
      (active : ℕ) (o : Option Text)
      → match_digest request.url ≡ o
      → Sends (admit_blob storage sha256 decode_utf8 parse_json options o request active s)
  unfolding admit_blob
  admit-Sends active none at = Sends-json _ _
  admit-Sends active (some d) at =
      elim (Bool-cases (uploading request.method && leb options.max_concurrent_uploads active)) [
        | inl full ↦ rw full (Sends-busy)
        | inr free ↦ rw free (answer-Sends d at)
      ]

  ready-Sends :
      (r : Result StorageError (Unit {0}) × S) → Sends (ready_reply r) × Sends (metrics_reply r)
  unfolding Sends
  ready-Sends (ok _, s') = (λ b e. cc, λ b e. cc)
  ready-Sends (err x, s') = (λ b e. cc, λ b e. cc)

  fixed-Sends :
      Sends (json 204 empty, s)
      × Sends (json 200 health, s)
      × ((x : Response × S) → Sends x → Sends (with_origin options x))
  unfolding Sends
  fixed-Sends = (λ b e. cc, λ b e. cc, λ x f. f)

  -- A blob is sent only with status 200, as the storage held it, under the digest of the URL, which
  -- is the SHA-256 of what is sent and is not retired.
  pub handle_sends :
      (active : ℕ) (body : Bytes)
      → (handle storage sha256 decode_utf8 parse_json options request active s).0.reply ≡ blob body
      → (d : Text) × (match_digest request.url ≡ some d)
        × (laws.blob s d ≡ some body)
        × (sha256 body ≡ d)
        × ((handle storage sha256 decode_utf8 parse_json options request active s).0.status ≡ 200)
        × (is_retired options d ≡ false)
  unfolding Sends
  handle_sends active =
      handle_cases Sends active (ready-Sends (storage.check_readiness s)).1
        (ready-Sends (storage.check_readiness s)).0 fixed-Sends.0 fixed-Sends.1
        (admit-Sends active (match_digest request.url) refl) fixed-Sends.2
