-- ===== src/Cipherstore/Server.antt =====
-- cipherstore/src/server.ts: the request handler, over any storage. The hash, the UTF-8 decoder and
-- `JSON.parse` are parameters. A handler runs between two counts of the uploads in progress:
-- `handle` is given the count when the request arrives, and returns its own part of it. Requests
-- run one after the other: what may happen between two awaits of one is left out. That readiness checks in progress are shared, and the text of the metrics, are left out.
pub mod Effect
pub mod Answers
pub mod Acknowledged
pub mod Safety
use vulnseal.Prelude.{
  ℕ, ◌+◌, String, ◌≡◌, Bool, true, false, not, ◌&&◌, ◌||◌, Option, none, some, List, [], ◌∷◌, Bytes,
  map, leb, ◌==◌, ◌=ᵇ◌, if◌then◌else◌, Result, ok, err, ◌>>=◌, ◌>>◌, any,
}
use vulnseal.Contract.Types.{ascii}
use vulnseal.Shared.Hex.{Text, to_lower}
use vulnseal.Cipherstore.Storage.{
  StorageError, CiphertextStorage, Action, validate_digest, invalid_envelope, payload_too_large,
  immutable_conflict, capacity_exceeded, no_space, busy, not_found,
}
use vulnseal.Shared.Json.{Json}
use vulnseal.Shared.Envelope.{after}
use vulnseal.Cipherstore.Envelope.{validate_envelope}
use vulnseal.Cipherstore.Upload.{Stream, read_limited}

pub data Method : Type 0 where
  get : Method
  put : Method
  preflight : Method
  other_method : Method

pub record Request : Type 0 where
  pub method : Method
  pub url : Text
  pub content_type : Option Text
  pub body : Stream

-- The bodies of the answers: an error has its text.
pub data Reply : Type 0 where
  metrics : Bool → Reply
  empty : Reply
  health : Reply
  ready : Reply
  not_ready : String → Reply
  failure : String → Reply
  stored : Text → Bool → Reply
  blob : Bytes → Reply

pub record Response : Type 0 where
  pub status : ℕ
  pub reply : Reply
  pub retry_after : Bool
  pub allow : Bool
  pub origin : Option Text

pub record Options : Type 0 where
  pub retired : Option (List Text)
  pub allowed_origin : Option Text
  pub metrics_enabled : Bool
  pub max_concurrent_uploads : ℕ

abbrev pub json : ℕ → Reply → Response
json status reply = record {
  status = status;
  reply = reply;
  retry_after = false;
  allow = false;
  origin = none;
}

-- The `catch` of the handler.
abbrev pub error_response : StorageError → Response
error_response payload_too_large = json 413 (failure "payload_too_large")
error_response invalid_envelope = json 400 (failure "invalid_ciphertext_envelope")
error_response immutable_conflict = json 409 (failure "immutable_blob_conflict")
error_response busy = record (json 503 (failure "storage_temporarily_busy")) { retry_after = true }
error_response capacity_exceeded = json 507 (failure "storage_capacity_exceeded")
error_response no_space = json 507 (failure "storage_capacity_exceeded")
error_response _ = json 500 (failure "storage_unavailable")

-- Why `/readyz` says that the storage is not ready.
abbrev pub unready_text : StorageError → String
unready_text capacity_exceeded = "storage_capacity_exceeded"
unready_text no_space = "storage_capacity_exceeded"
unready_text _ = "storage_unavailable"

-- `digestPattern.exec(url)`: the digest after `/v1/blobs/sha256:`.
unfoldable pub match_digest : Text → Option Text
unfolding after validate_digest
match_digest url = elim (after (ascii "/v1/blobs/sha256:") url) [
  | none ↦ none
  | some digest ↦ elim (validate_digest digest) [ ok _ ↦ some digest | err _ ↦ none ]
]

-- `split(";")[0]`
unfoldable pub before_semicolon : Text → Text
before_semicolon [] = []
before_semicolon (c ∷ t) = let rest = before_semicolon t in if c == b';' then [] else c ∷ rest

-- White space, of the characters that a header can have.
abbrev pub is_space : ℕ → Bool
is_space c = (leb 9 c && leb c 13) || (c == 32) || (c == 160)

unfoldable pub trim_start : Text → Text
trim_start [] = []
trim_start (c ∷ t) = let rest = trim_start t in if is_space c then rest else c ∷ t

unfoldable pub trim_end : Text → Text
trim_end [] = []
trim_end (c ∷ t) = elim (trim_end t) [
  | [] ↦ if is_space c then [] else c ∷ []
  | d ∷ rest ↦ c ∷ d ∷ rest
]

abbrev pub media_type : Text
media_type = ascii "application/vnd.vulnseal.ciphertext+json"

unfoldable pub is_media_type : Option Text → Bool
unfolding before_semicolon trim_start trim_end ◌=ᵇ◌
is_media_type none = false
is_media_type (some t) = map to_lower (trim_end (trim_start (before_semicolon t))) =ᵇ media_type

unfoldable pub is_retired : Options → Text → Bool
unfolding ◌=ᵇ◌
is_retired options digest = elim options.retired [
  | none ↦ false
  | some digests ↦ any (λ d. d =ᵇ digest) digests
]

abbrev pub is_get : Method → Bool
is_get get = true
is_get _ = false

abbrev pub is_preflight : Method → Bool
is_preflight preflight = true
is_preflight _ = false

abbrev pub uploading : Method → Bool
uploading put = true
uploading _ = false

abbrev pub put_reply :
    {S : Type 0} → Text → Result StorageError Bool × S → Result StorageError Response × S
put_reply digest (ok fresh, s) = (ok (json (if fresh then 201 else 200) (stored digest fresh)), s)
put_reply digest (err e, s) = (err e, s)

-- A retired digest is hidden from the two methods that use it.
abbrev pub retired_reply : {S : Type 0} → Method → S → Response × S → Response × S
retired_reply get s served = (json 404 (failure "blob_not_found"), s)
retired_reply put s served = (json 410 (failure "blob_retired"), s)
retired_reply _ s served = served

-- The end of a GET, with `sha256(body) === digest`.
abbrev pub read_reply :
    {S : Type 0} → (Bytes → Bool) → Result StorageError Bytes × S → Result StorageError Response × S
read_reply intact (ok body, s) = (
  ok (if intact body then json 200 (blob body) else json 500 (failure "stored_blob_corrupted")),
  s,
)
read_reply intact (err not_found, s) = (ok (json 404 (failure "blob_not_found")), s)
read_reply intact (err e, s) = (err e, s)

abbrev pub caught : {S : Type 0} → Result StorageError Response × S → Response × S
caught (ok response, s) = (response, s)
caught (err e, s) = (error_response e, s)

abbrev pub ready_reply : {S : Type 0} → Result StorageError (Unit {0}) × S → Response × S
ready_reply (ok _, s) = (json 200 ready, s)
ready_reply (err e, s) = (json 503 (not_ready (unready_text e)), s)

abbrev pub metrics_reply : {S : Type 0} → Result StorageError (Unit {0}) × S → Response × S
metrics_reply (ok _, s) = (json 200 (metrics true), s)
metrics_reply (err _, s) = (json 200 (metrics false), s)

abbrev pub is_at : Request → String → Bool
is_at request path = request.url =ᵇ ascii path

-- `if (options.allowedOrigin)`: an empty text is none.
abbrev pub origin_of : Option Text → Option Text
origin_of none = none
origin_of (some []) = none
origin_of (some (c ∷ origin)) = some (c ∷ origin)

abbrev pub with_origin : {S : Type 0} → Options → Response × S → Response × S
with_origin options (r, s) = (record r { origin = origin_of options.allowed_origin }, s)

module _ (sha256 : Bytes → Text) (decode_utf8 : Bytes → Option Text)
    (parse_json : Text → Option Json) where
  -- The body of a PUT: read, held to be an envelope, and of the digest that the URL names.
  unfoldable pub upload_body : Text → Request → Result StorageError (Bytes × Bool)
  unfolding read_limited validate_envelope ◌=ᵇ◌
  upload_body digest request = do
    body ← read_limited request.body
    validate_envelope decode_utf8 parse_json body
    ok (body, sha256 body =ᵇ digest)

module _ {S : Type 0} (storage : CiphertextStorage S) (sha256 : Bytes → Text)
    (decode_utf8 : Bytes → Option Text) (parse_json : Text → Option Json) where
  abbrev pub store_body : Text → Result StorageError (Bytes × Bool) → Action S Response
  store_body digest (err e) s = (err e, s)
  store_body digest (ok (body, same)) s =
      if same
      then put_reply digest (storage.put digest body s)
      else (ok (json 422 (failure "content_digest_mismatch")), s)

  -- A PUT whose storage is prepared, from the media type on.
  unfoldable pub receive_blob : Text → Request → Action S Response
  unfolding is_media_type upload_body
  receive_blob digest request s =
      if is_media_type request.content_type
      then store_body digest (upload_body sha256 decode_utf8 parse_json digest request) s
      else (ok (json 415 (failure "ciphertext_media_type_required")), s)

  -- A GET whose storage is prepared.
  unfoldable pub send_blob : Text → Action S Response
  unfolding ◌=ᵇ◌
  send_blob digest s = read_reply (λ body. sha256 body =ᵇ digest) (storage.read digest s)

  -- A prepared storage, by the request's method.
  unfoldable pub serve_method : Method → Text → Request → Action S Response
  unfolding receive_blob send_blob
  serve_method put digest request s = receive_blob digest request s
  serve_method get digest request s = send_blob digest s
  serve_method _ digest request s =
      (ok (record (json 405 (failure "method_not_allowed")) { allow = true }), s)

  -- The `try` block after `storage.prepare`.
  unfoldable pub prepared_blob :
      Text → Request → Result StorageError (Unit {0}) × S → Result StorageError Response × S
  unfolding serve_method
  prepared_blob digest request (err e, s) = (err e, s)
  prepared_blob digest request (ok _, s) = serve_method request.method digest request s

  -- A retired digest, or the `try` block and its `catch`.
  unfoldable pub answer_blob : Options → Text → Request → S → Response × S
  unfolding is_retired prepared_blob
  answer_blob options digest request s =
      let served = caught (prepared_blob digest request (storage.prepare s)) in
      if is_retired options digest then retired_reply request.method s served else served

  -- A request at a blob's URL, past the limit on the uploads in progress.
  unfoldable pub admit_blob : Options → Option Text → Request → ℕ → S → Response × S
  unfolding answer_blob
  admit_blob options none request active s = (json 404 (failure "not_found"), s)
  admit_blob options (some digest) request active s =
      if uploading request.method && leb options.max_concurrent_uploads active
      then (record (json 503 (failure "upload_capacity_busy")) { retry_after = true }, s)
      else answer_blob options digest request s

  -- `handle`, when `active` uploads are in progress.
  unfoldable pub handle : Options → Request → ℕ → S → Response × S
  unfolding match_digest admit_blob ◌=ᵇ◌
  handle options request active s =
      if options.metrics_enabled && is_at request "/metrics" && is_get request.method
      then metrics_reply (storage.check_readiness s)
      else with_origin options (
          if is_preflight request.method
          then (json 204 empty, s)
          else if is_at request "/healthz" && is_get request.method
          then (json 200 health, s)
          else if is_at request "/readyz" && is_get request.method
          then ready_reply (storage.check_readiness s)
          else admit_blob options (match_digest request.url) request active s)
