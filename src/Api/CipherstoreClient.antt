-- ===== src/Api/CipherstoreClient.antt =====
-- api/src/cipherstore-client.ts: uploading and downloading ciphertext, at one store or at several.
-- `fetch` and the decoder of UTF-8 are parameters, with whether the deadline had passed by the time
-- an answer was dealt with.
pub mod Bodies
pub mod Answers
use vulnseal.Prelude.{
  ℕ, suc, ◌+◌, ◌-◌, ◌*◌, Bool, true, false, not, ◌&&◌, ◌||◌, Option, none, some, List, [], ◌∷◌,
  ◌++◌, map, Bytes, all, any, length, ltb, leb, ◌==◌, ◌=ᵇ◌, if◌then◌else◌, Result, ok, err, ◌>>=◌,
  ◌>>◌, guard,
}
use vulnseal.Contract.Types.{ascii}
use vulnseal.Shared.Hex.{Text}
use vulnseal.Shared.Json.{max_safe_integer}
use vulnseal.Shared.Environment.{Url, EnvironmentError, validate_cipherstore_urls}
use vulnseal.Shared.Crypto.{Platform, is_content_address, validate_content_digest}

abbrev pub default_timeout : ℕ
default_timeout = 20000

-- 5 MiB
abbrev pub max_cipherstore_bytes : ℕ
max_cipherstore_bytes = 5242880

abbrev pub first_capacity : ℕ
first_capacity = 65536

pub data Method : Type 0 where
  get : Method
  put : Method

pub data ClientError : Type 0 where
  invalid_endpoint : EnvironmentError → ClientError
  invalid_timeout : ClientError
  single_endpoint : ClientError
  too_large : ClientError
  wrong_digest : ClientError
  invalid_address : ClientError
  no_response : ClientError
  storage_full : ClientError
  storage_busy : ClientError
  retired : ClientError
  failed_status : ℕ → ClientError
  no_acknowledgment : ℕ → ClientError
  response_too_large : ClientError
  buffer_overflow : ClientError
  broken_body : ClientError
  invalid_utf8 : ClientError
  timed_out : Method → ClientError
  retired_copy : ℕ → ClientError
  incomplete : ℕ → ClientError
  no_copy : ℕ → ClientError

-- The chunks of a body that are read, and whether it ends after them; if not, the next read rejects.
pub record Body : Type 0 where
  pub chunks : List Bytes
  pub ended : Bool

pub record Response : Type 0 where
  pub status : ℕ
  pub body : Option Body

-- What came of a call of `fetch`: `none` for a rejection.
pub record Fetched : Type 0 where
  pub response : Option Response
  pub aborted : Bool

abbrev pub max : ℕ → ℕ → ℕ
max a b = if leb a b then b else a

abbrev pub min : ℕ → ℕ → ℕ
min a b = if leb a b then a else b

-- The size of the buffer once `required` bytes have to fit.
abbrev pub grown : ℕ → ℕ → ℕ
grown capacity required =
    if ltb capacity required
    then min max_cipherstore_bytes (max required (capacity * 2))
    else capacity

-- The loop of `readCiphertext`: the size of the buffer and the bytes in it.
unfoldable pub read_chunks : Bool → List Bytes → ℕ → Bytes → Result ClientError Bytes
read_chunks ended [] capacity bytes = if ended then ok bytes else err broken_body
read_chunks ended (chunk ∷ chunks) capacity bytes =
    let required = length bytes + length chunk in
    let room = grown capacity required in
    let rest = read_chunks ended chunks room (bytes ++ chunk) in
    if ltb (max_cipherstore_bytes - length bytes) (length chunk)
    then err response_too_large
    else if ltb room required
    then err buffer_overflow
    else rest

abbrev pub decoded_text : Option Text → Result ClientError Text
decoded_text none = err invalid_utf8
decoded_text (some t) = ok t

unfoldable pub read_ciphertext : (Bytes → Option Text) → Option Body → Result ClientError Text
unfolding read_chunks
read_ciphertext decode_utf8 none = ok []
read_ciphertext decode_utf8 (some body) =
    read_chunks body.ended body.chunks first_capacity [] >>= λ bytes.
    decoded_text (decode_utf8 bytes)

-- `request`: what the action came to, unless the deadline had passed.
abbrev pub request {ℓ} : {A : Type ℓ} → Method → Bool → Result ClientError A → Result ClientError A
request method aborted result = if aborted then err (timed_out method) else result

-- `response.ok`
abbrev pub is_ok : ℕ → Bool
is_ok status = leb 200 status && ltb status 300

-- The answers to an upload, in the order of the code's tests.
unfoldable pub acknowledge : Option Response → Result ClientError (Unit {0})
acknowledge none = err no_response
acknowledge (some response) = do
  guard (not (response.status == 507)) storage_full
  guard (not (response.status == 503)) storage_busy
  guard (not (response.status == 410)) retired
  guard (is_ok response.status) (failed_status response.status)
  guard ((response.status == 200) || (response.status == 201)) (no_acknowledgment response.status)

abbrev pub endpoints_of : Result EnvironmentError (List Text) → Result ClientError (List Text)
endpoints_of (ok endpoints) = ok endpoints
endpoints_of (err e) = err (invalid_endpoint e)

-- A client holds the address of its store, and its deadline in milliseconds.
pub record CipherstoreClient : Type 0 where
  pub base_url : Text
  pub timeout_ms : ℕ

pub data AnyClient : Type 0 where
  single : CipherstoreClient → AnyClient
  replicated : List CipherstoreClient → AnyClient

abbrev pub is_retirement : Result ClientError (Unit {0}) → Bool
is_retirement (err retired) = true
is_retirement _ = false

abbrev pub acknowledged : List (Result ClientError (Unit {0})) → ℕ
acknowledged [] = 0
acknowledged (ok u ∷ results) = suc (acknowledged results)
acknowledged (err e ∷ results) = acknowledged results

-- `list[0]!`
abbrev pub first_of : List Text → Text
first_of [] = []
first_of (t ∷ _) = t

-- What `verifyCipherstoreCopies` reports of one store.
pub record Copy : Type 0 where
  pub endpoint : Text
  pub verified : Bool

abbrev pub is_ok_result : Result ClientError Text → Bool
is_ok_result (ok t) = true
is_ok_result (err e) = false

module _ (platform : Platform) (parse_url : Text → Option Url) where
  -- The constructor.
  unfoldable pub new_client : Text → ℕ → Result ClientError CipherstoreClient
  new_client base_url timeout_ms = do
    endpoints ← endpoints_of (validate_cipherstore_urls parse_url (base_url ∷ []))
    guard (leb timeout_ms max_safe_integer && not (ltb timeout_ms 1 || ltb 300000 timeout_ms))
        invalid_timeout
    ok (record { base_url = first_of endpoints; timeout_ms = timeout_ms })

  unfoldable pub new_clients : List Text → ℕ → Result ClientError (List CipherstoreClient)
  unfolding new_client
  new_clients [] timeout_ms = ok []
  new_clients (endpoint ∷ endpoints) timeout_ms = do
    client ← new_client endpoint timeout_ms
    clients ← new_clients endpoints timeout_ms
    ok (client ∷ clients)

  -- The constructor of `ReplicatedCipherstoreClient`.
  unfoldable pub new_replicated : List Text → ℕ → Result ClientError (List CipherstoreClient)
  unfolding new_clients
  new_replicated urls timeout_ms = do
    endpoints ← endpoints_of (validate_cipherstore_urls parse_url urls)
    guard (not (ltb (length endpoints) 2)) single_endpoint
    new_clients endpoints timeout_ms

  unfoldable pub create_cipherstore_client : List Text → ℕ → Result ClientError AnyClient
  unfolding new_client new_replicated
  create_cipherstore_client urls timeout_ms = do
    endpoints ← endpoints_of (validate_cipherstore_urls parse_url urls)
    elim endpoints [
      | endpoint ∷ [] ↦ new_client endpoint timeout_ms >>= λ client. ok (single client)
      | several ↦ new_replicated several timeout_ms >>= λ clients. ok (replicated clients)
    ]

  -- `fetch`, of a client, a method and a content address, with the body of an upload.
  module _ (fetch : CipherstoreClient → Method → Text → Option Text → Fetched) where
    unfoldable pub put_ciphertext : CipherstoreClient → Text → Text → Result ClientError (Unit {0})
    unfolding acknowledge validate_content_digest
    put_ciphertext client address serialized = do
      guard
          (not (
            ltb max_cipherstore_bytes (length serialized)
            || ltb max_cipherstore_bytes (length (platform.utf8 serialized))))
          too_large
      guard (validate_content_digest platform serialized address) wrong_digest
      let fetched = fetch client put address (some serialized)
      request put fetched.aborted (acknowledge fetched.response)

    -- The action that `get` hands to `request`.
    unfoldable pub download_text : Text → Option Response → Result ClientError Text
    unfolding read_ciphertext validate_content_digest
    download_text address none = err no_response
    download_text address (some response) = do
      guard (is_ok response.status) (failed_status response.status)
      serialized ← read_ciphertext platform.from_utf8 response.body
      guard (validate_content_digest platform serialized address) wrong_digest
      ok serialized

    unfoldable pub get_ciphertext : CipherstoreClient → Text → Result ClientError Text
    unfolding is_content_address download_text
    get_ciphertext client address = do
      guard (is_content_address address) invalid_address
      let fetched = fetch client get address none
      request get fetched.aborted (download_text address fetched.response)

    unfoldable pub put_all :
        Text → Text → List CipherstoreClient → List (Result ClientError (Unit {0}))
    unfolding put_ciphertext
    put_all address serialized clients =
        map (λ client. put_ciphertext client address serialized) clients

    unfoldable pub put_replicated :
        List CipherstoreClient → Text → Text → Result ClientError (Unit {0})
    unfolding put_all
    put_replicated clients address serialized = do
      let results = put_all address serialized clients
      let count = acknowledged results
      guard (not (any is_retirement results)) (retired_copy count)
      guard (count == length results) (incomplete count)

    -- The loop of `get`: the first store that gives matching bytes.
    unfoldable pub get_first : ℕ → List CipherstoreClient → Text → Result ClientError Text
    unfolding get_ciphertext
    get_first count [] address = err (no_copy count)
    get_first count (client ∷ clients) address = elim (get_ciphertext client address) [
      | ok serialized ↦ ok serialized
      | err e ↦ get_first count clients address
    ]

    unfoldable pub get_replicated : List CipherstoreClient → Text → Result ClientError Text
    unfolding get_first is_content_address
    get_replicated clients address = do
      guard (is_content_address address) invalid_address
      get_first (length clients) clients address

    unfoldable pub put_any : AnyClient → Text → Text → Result ClientError (Unit {0})
    unfolding put_ciphertext put_replicated
    put_any (single client) address serialized = put_ciphertext client address serialized
    put_any (replicated clients) address serialized = put_replicated clients address serialized

    unfoldable pub get_any : AnyClient → Text → Result ClientError Text
    unfolding get_ciphertext get_replicated
    get_any (single client) address = get_ciphertext client address
    get_any (replicated clients) address = get_replicated clients address

    unfoldable pub check_copies : List Text → List CipherstoreClient → Text → List Copy
    unfolding get_ciphertext
    check_copies (endpoint ∷ endpoints) (client ∷ clients) address =
        record { endpoint = endpoint; verified = is_ok_result (get_ciphertext client address) }
        ∷ check_copies endpoints clients address
    check_copies _ _ address = []

    unfoldable pub verify_cipherstore_copies : List Text → Text → ℕ → Result ClientError (List Copy)
    unfolding is_content_address new_clients check_copies
    verify_cipherstore_copies urls address timeout_ms = do
      guard (is_content_address address) invalid_address
      endpoints ← endpoints_of (validate_cipherstore_urls parse_url urls)
      clients ← new_clients endpoints timeout_ms
      ok (check_copies endpoints clients address)
