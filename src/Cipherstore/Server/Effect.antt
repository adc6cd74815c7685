-- ===== src/Cipherstore/Server/Effect.antt =====
-- What the requests of cipherstore/src/server.ts may do to the stored blobs, over any storage that
-- keeps the promises of its interface.
use vulnseal.Prelude.{
  ℕ, ◌≤◌, ◌≡◌, ◌≢◌, ◌⊎◌, inl, inr, refl, sym, ap, ◌∙◌, Bool, true, false, ◌&&◌, Option, none, some,
  arith, Bytes, length, leb, ltb, ◌=ᵇ◌, bytes_eq-to_eq, if◌then◌else◌, Result, ok, err, >>=-ok,
  Bool-cases,
}
use vulnseal.Shared.Hex.{Text}
use vulnseal.Cipherstore.Storage.{
  StorageError, CiphertextStorage, StorageLaws, SameBlobs, PutPromise, payload_too_large, other,
}
use vulnseal.Shared.Json.{Json}
use vulnseal.Cipherstore.Envelope.{validate_envelope}
use vulnseal.Cipherstore.Upload.{Stream, read_limited, max_ciphertext_bytes, joined}
use vulnseal.Cipherstore.Upload.Limit.{read_limited_lem}
use vulnseal.Cipherstore.Server.{
  Method, get, put, preflight, other_method, Request, Response, Options, json, empty, health,
  is_get, is_preflight, serve_method, retired_reply, put_reply, read_reply, caught, store_body,
  upload_body, receive_blob, send_blob, prepared_blob, answer_blob, admit_blob, handle,
  match_digest, is_retired, is_media_type, uploading, with_origin, ready_reply, metrics_reply,
  is_at,
}

module _ {S : Type 0} (storage : CiphertextStorage S) (laws : StorageLaws S storage)
    (sha256 : Bytes → Text) (decode_utf8 : Bytes → Option Text)
    (parse_json : Text → Option Json) where
  -- A body that the server may store under a digest.
  abbrev pub Sealed : Text → Bytes → Type 0
  Sealed digest body =
      (length body ≤ max_ciphertext_bytes)
      × (validate_envelope decode_utf8 parse_json body ≡ ok tt)
      × (sha256 body ≡ digest)

  -- What a request does to the blobs: nothing, or it adds the one that it carries.
  pub data Effect (options : Options) (request : Request) (s s' : S) : Type 0 where
    unchanged : SameBlobs laws.blob s s' → Effect options request s s'
    added :
        (digest : Text)
        → match_digest request.url ≡ some digest
        → uploading request.method ≡ true
        → is_retired options digest ≡ false
        → Sealed digest (joined request.body.chunks)
        → laws.blob s digest ≡ none
        → laws.blob s' digest ≡ some (joined request.body.chunks)
        → ((d : Text) → d ≢ digest → laws.blob s' d ≡ laws.blob s d)
        → Effect options request s s'

  whole_body :
      (request : Stream) (b : Bytes)
      → read_limited request ≡ ok b
      → (b ≡ joined request.chunks) × (length b ≤ max_ciphertext_bytes)
  whole_body request b e =
      by_length (length (joined request.chunks)) refl (sym (read_limited_lem request) ∙ e)
    where
      by_length :
          (n : ℕ)
          → length (joined request.chunks) ≡ n
          → (if ltb max_ciphertext_bytes n
              then err payload_too_large
              else if request.ended
              then ok (joined request.chunks)
              else err other)
            ≡ ok b
          → (b ≡ joined request.chunks) × (length b ≤ max_ciphertext_bytes)
      by_length n is f = ground arith

  pub body_facts :
      (digest : Text) (request : Request) (body : Bytes)
      → upload_body sha256 decode_utf8 parse_json digest request ≡ ok (body, true)
      → (body ≡ joined request.body.chunks) × Sealed digest body
  unfolding upload_body
  body_facts digest request body e = >>=-ok (read_limited request.body) _ e λ b m e1.
      >>=-ok (validate_envelope decode_utf8 parse_json b) _ e1 λ _ valid e2.
        let same : b ≡ body = cc in
        let digests : (sha256 b =ᵇ digest) ≡ true = cc in
        let (joins, small) = whole_body request.body b m in
        rw (← same) (joins, (small, valid, bytes_eq-to_eq (sha256 b) digest digests))

  module _ (options : Options) (request : Request) (s₀ : S) where
    kept :
        {s s' : S} → SameBlobs laws.blob s₀ s → SameBlobs laws.blob s s' → SameBlobs laws.blob s₀ s'
    kept f g d = g d ∙ f d

    module _ (digest : Text) (at : match_digest request.url ≡ some digest)
        (live : (is_retired options digest ≡ false) ⊎ (uploading request.method ≡ false)) (s : S)
        (same : SameBlobs laws.blob s₀ s) where
      put-Effect :
          uploading request.method ≡ true
          → (body : Bytes) → body ≡ joined request.body.chunks
          → Sealed digest body
          → (r : Result StorageError Bool × S) → PutPromise laws.blob digest body s r.1 r.0
          → Effect options request s₀ (put_reply digest r).1
      put-Effect up body joins ok_body (ok true, s') (before, after, others) =
          added digest at up (elim live [ inl l ↦ l | inr n ↦ cc ]) (rw (← joins) ok_body)
            (sym (same digest) ∙ before) (rw (← joins) after) (λ d apart. others d apart ∙ same d)
      put-Effect up body joins ok_body (ok false, s') (_, keeps) = unchanged (kept same keeps)
      put-Effect up body joins ok_body (err e, s') says = elim says [
        | inl keeps ↦ unchanged (kept same keeps)
        | inr (before, after, others) ↦
            added digest at up (elim live [ inl l ↦ l | inr n ↦ cc ]) (rw (← joins) ok_body)
              (sym (same digest) ∙ before) (rw (← joins) after) (λ d apart. others d apart ∙ same d)
      ]

      store-Effect :
          uploading request.method ≡ true
          → (x : Result StorageError (Bytes × Bool))
          → ((body : Bytes)
              → x ≡ ok (body, true)
              → (body ≡ joined request.body.chunks) × Sealed digest body)
          → Effect options request s₀
              (store_body storage sha256 decode_utf8 parse_json digest x s).1
      store-Effect up (err e) facts = unchanged same
      store-Effect up (ok (body, false)) facts = unchanged same
      store-Effect up (ok (body, true)) facts =
          let (joins, ok_body) = facts body refl in
          put-Effect up body joins ok_body (storage.put digest body s) (laws.put_says digest body s)

      receive-Effect :
          uploading request.method ≡ true
          → Effect options request s₀
              (receive_blob storage sha256 decode_utf8 parse_json digest request s).1
      unfolding receive_blob
      receive-Effect up = elim (Bool-cases (is_media_type request.content_type)) [
        | inl typed ↦ rw typed (
            store-Effect up (upload_body sha256 decode_utf8 parse_json digest request)
              (body_facts digest request))
        | inr untyped ↦ rw untyped (unchanged same)
      ]

    state_of_read :
        (intact : Bytes → Bool) (r : Result StorageError Bytes × S) → (read_reply intact r).1 ≡ r.1
    state_of_read intact (ok body, s) = refl
    state_of_read intact (err e, s) = ground arith

    state_of_ready :
        (r : Result StorageError (Unit {0}) × S)
        → ((ready_reply r).1 ≡ r.1) × ((metrics_reply r).1 ≡ r.1)
    state_of_ready (ok _, s) = (refl, refl)
    state_of_ready (err e, s) = (refl, refl)

    state_of_caught : (r : Result StorageError Response × S) → (caught r).1 ≡ r.1
    state_of_caught (ok _, s) = refl
    state_of_caught (err e, s) = refl

    state_of_origin : (r : Response × S) → (with_origin options r).1 ≡ r.1
    state_of_origin (r, s) = refl

    prepared-Effect :
        (digest : Text)
        → match_digest request.url ≡ some digest
        → (is_retired options digest ≡ false) ⊎ (uploading request.method ≡ false)
        → (r : Result StorageError (Unit {0}) × S) → SameBlobs laws.blob s₀ r.1
        → Effect options request s₀
            (prepared_blob storage sha256 decode_utf8 parse_json digest request r).1
    unfolding prepared_blob serve_method send_blob
    prepared-Effect digest at live (err e, s) same = unchanged same
    prepared-Effect digest at live (ok _, s) same = by_method request.method refl
      where
        by_method :
            (m : Method)
            → request.method ≡ m
            → Effect options request s₀
                (serve_method storage sha256 decode_utf8 parse_json m digest request s).1
        by_method put is = receive-Effect digest at live s same (ap uploading is)
        by_method get is =
            rw (state_of_read (λ body. sha256 body =ᵇ digest) (storage.read digest s))
              (unchanged (kept same (laws.read_keeps digest s)))
        by_method preflight is = unchanged same
        by_method other_method is = unchanged same

    served : Text → Response × S
    served digest =
        caught
          (prepared_blob storage sha256 decode_utf8 parse_json digest request (storage.prepare s₀))

    served-Effect :
        (digest : Text)
        → match_digest request.url ≡ some digest
        → (is_retired options digest ≡ false) ⊎ (uploading request.method ≡ false)
        → Effect options request s₀ (served digest).1
    unfolding served
    served-Effect digest at live =
        rw
          (state_of_caught (
            prepared_blob storage sha256 decode_utf8 parse_json digest request
              (storage.prepare s₀)))
          (prepared-Effect digest at live (storage.prepare s₀) (laws.prepare_keeps s₀))

    answer-Effect :
        (digest : Text)
        → match_digest request.url ≡ some digest
        → Effect options request s₀
            (answer_blob storage sha256 decode_utf8 parse_json options digest request s₀).1
    unfolding answer_blob served
    answer-Effect digest at = by_retired (is_retired options digest) refl
      where
        by_method :
            (m : Method)
            → request.method ≡ m
            → Effect options request s₀ (retired_reply m s₀ (served digest)).1
        by_method put is = unchanged (λ d. refl)
        by_method get is = unchanged (λ d. refl)
        by_method preflight is = served-Effect digest at (inr (ap uploading is))
        by_method other_method is = served-Effect digest at (inr (ap uploading is))

        by_retired :
            (t : Bool)
            → is_retired options digest ≡ t
            → Effect options request s₀
                (if t then retired_reply request.method s₀ (served digest) else served digest).1
        by_retired true is = by_method request.method refl
        by_retired false is = served-Effect digest at (inl is)

    admit-Effect :
        (active : ℕ) (o : Option Text)
        → match_digest request.url ≡ o
        → Effect options request s₀
            (admit_blob storage sha256 decode_utf8 parse_json options o request active s₀).1
    unfolding admit_blob
    admit-Effect active none at = unchanged (λ d. refl)
    admit-Effect active (some digest) at =
        elim (Bool-cases (uploading request.method && leb options.max_concurrent_uploads active)) [
          | inl busy ↦ rw busy (unchanged (λ d. refl))
          | inr free ↦ rw free (answer-Effect digest at)
        ]

    ready-Effect :
        (Effect options request s₀ (ready_reply (storage.check_readiness s₀)).1)
        × (Effect options request s₀ (metrics_reply (storage.check_readiness s₀)).1)
    ready-Effect = (
      rw ((state_of_ready (storage.check_readiness s₀)).0) (unchanged (laws.ready_keeps s₀)),
      rw ((state_of_ready (storage.check_readiness s₀)).1) (unchanged (laws.ready_keeps s₀)),
    )

    -- An answer of the right effect.
    Fits : Response × S → Type 0
    Fits x = Effect options request s₀ x.1

    Fits-if : (t : Bool) (x y : Response × S) → Fits x → Fits y → Fits (if t then x else y)
    Fits-if true x y f g = f
    Fits-if false x y f g = g

    Fits-with_origin : (x : Response × S) → Fits x → Fits (with_origin options x)
    unfolding Fits
    Fits-with_origin x f = f

    Fits-parts :
        (active : ℕ)
        → Fits (metrics_reply (storage.check_readiness s₀))
          × Fits (ready_reply (storage.check_readiness s₀))
          × Fits (
              admit_blob storage sha256 decode_utf8 parse_json options
                (match_digest request.url)
                request
                active
                s₀)
          × ((r : Response) → Fits (r, s₀))
    unfolding Fits
    Fits-parts active = (
      ready-Effect.1,
      ready-Effect.0,
      admit-Effect active (match_digest request.url) refl,
      λ r. unchanged (λ d. refl),
    )

    Fits-handle :
        (active : ℕ) → Fits (handle storage sha256 decode_utf8 parse_json options request active s₀)
    unfolding handle
    Fits-handle active =
        let (metrics, ready, admitted, still) = Fits-parts active in
        Fits-if (options.metrics_enabled && is_at request "/metrics" && is_get request.method) _ _
          metrics
          (Fits-with_origin _ (
            Fits-if (is_preflight request.method) _ _ (still (json 204 empty)) (
              Fits-if (is_at request "/healthz" && is_get request.method) _ _
                (still (json 200 health))
                (Fits-if (is_at request "/readyz" && is_get request.method) _ _ ready admitted))))

    -- A request leaves the blobs as they are, or adds the one that it carries under its digest: one
    -- that is within the limit, an envelope, of that digest, at a URL that is not retired, and
    -- where no blob was before.
    pub handle-Effect :
        (active : ℕ)
        → Effect options request s₀
            (handle storage sha256 decode_utf8 parse_json options request active s₀).1
    unfolding Fits
    handle-Effect active = Fits-handle active
