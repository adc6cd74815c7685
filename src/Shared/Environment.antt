-- ===== src/Shared/Environment.antt =====
-- packages/shared/src/environment.ts: the settings of a build, and the list of ciphertext stores.
-- The URL parser and the `trim` of a text are parameters.
pub mod Endpoints
use vulnseal.Prelude.{
  ℕ, String, ◌≡◌, ◌≤◌, ◌<◌, refl, ap, arith, All, >>=-ok, guard-ok, ok-injective, Bool, true, false,
  not, ◌&&◌, ◌||◌, Option, none, some, List, [], ◌∷◌, ◌++◌, map, Bytes, all, any, length, ltb, leb,
  ◌==◌, ◌=ᵇ◌, if◌then◌else◌, Result, ok, err, ◌>>=◌, ◌>>◌, guard,
}
use vulnseal.Contract.Types.{ascii}
use vulnseal.Shared.Hex.{Text}
use vulnseal.Shared.Base64.{nonempty}

-- What the code reads of a parsed `URL`.
pub record Url : Type 0 where
  pub protocol : Text
  pub username : Text
  pub password : Text
  pub href : Text

pub data EnvironmentError : Type 0 where
  not_absolute : String → EnvironmentError
  wrong_protocol : String → EnvironmentError
  wrong_count : EnvironmentError
  invalid_url : EnvironmentError
  decorated : EnvironmentError
  not_distinct : EnvironmentError
  invalid_mode : EnvironmentError
  invalid_network : EnvironmentError

-- One of a list of texts.
abbrev pub among : List Text → Text → Bool
among texts t = any (λ u. u =ᵇ t) texts

-- `includes` of a character.
abbrev pub has_char : ℕ → Text → Bool
has_char c t = any (λ d. d == c) t

-- `replace(/\/$/, "")`
unfoldable pub drop_slash : Text → Text
drop_slash [] = []
drop_slash (c ∷ []) = if c == b'/' then [] else c ∷ []
drop_slash (c ∷ d ∷ t) = c ∷ drop_slash (d ∷ t)

-- `replace(/\/+$/, "")`
unfoldable pub drop_slashes : Text → Text
drop_slashes [] = []
drop_slashes (c ∷ t) = elim (drop_slashes t) [
  | [] ↦ if c == b'/' then [] else c ∷ []
  | d ∷ rest ↦ c ∷ d ∷ rest
]

-- `split(",")`
unfoldable pub split_commas : Text → List Text
split_commas [] = [] ∷ []
split_commas (c ∷ t) = elim (split_commas t) [
  | [] ↦ (c ∷ []) ∷ []
  | word ∷ words ↦ if c == b',' then [] ∷ word ∷ words else (c ∷ word) ∷ words
]

-- `new Set(texts).size === texts.length`
unfoldable pub all_distinct : List Text → Bool
unfolding ◌=ᵇ◌
all_distinct [] = true
all_distinct (t ∷ ts) = not (among ts t) && all_distinct ts

abbrev pub http_protocols : List Text
http_protocols = ascii "http:" ∷ ascii "https:" ∷ []

abbrev pub ws_protocols : List Text
ws_protocols = ascii "ws:" ∷ ascii "wss:" ∷ []

abbrev pub networks : List Text
networks =
    ascii "undeployed" ∷ ascii "local" ∷ ascii "preview" ∷ ascii "preprod" ∷ ascii "mainnet" ∷ []

-- `value ?? fallback`
abbrev pub or_else : Option Text → String → Text
or_else none fallback = ascii fallback
or_else (some t) fallback = t

-- The variables of a build, each of which may be missing.
pub record Input : Type 0 where
  pub mode : Option Text
  pub network : Option Text
  pub cipherstore_url : Option Text
  pub cipherstore_replicas : Option Text
  pub proof_server_url : Option Text
  pub indexer_http_url : Option Text
  pub indexer_ws_url : Option Text

-- `cipherstore_url` of the code is the first of `cipherstore_urls`.
pub record RuntimeEnvironment : Type 0 where
  pub mode : Text
  pub network : Text
  pub cipherstore_urls : List Text
  pub proof_server_url : Text
  pub indexer_http_url : Text
  pub indexer_ws_url : Text

module _ (parse_url : Text → Option Url) where
  unfoldable pub url : Text → String → List Text → Result EnvironmentError Text
  unfolding drop_slash ◌=ᵇ◌
  url value name protocols = elim (parse_url value) [
    | none ↦ err (not_absolute name)
    | some parsed ↦
        if among protocols parsed.protocol
        then ok (drop_slash parsed.href)
        else err (wrong_protocol name)
  ]

  -- No credentials, and no query or fragment, a bare delimiter included.
  abbrev pub is_bare : Text → Url → Bool
  is_bare result parsed = not (
      nonempty parsed.username
      || nonempty parsed.password
      || has_char b'?' result
      || has_char b'#' result)

  abbrev pub reparsed : Text → Result EnvironmentError Url
  reparsed result = elim (parse_url result) [ none ↦ err invalid_url | some parsed ↦ ok parsed ]

  unfoldable pub check_endpoint : Text → Result EnvironmentError Text
  unfolding url drop_slashes
  check_endpoint value = do
    checked ← url value "Ciphertext endpoint" http_protocols
    let result = drop_slashes checked
    parsed ← reparsed result
    guard (is_bare result parsed) decorated
    ok result

  unfoldable pub check_endpoints : List Text → Result EnvironmentError (List Text)
  unfolding check_endpoint
  check_endpoints [] = ok []
  check_endpoints (value ∷ values) = do
    endpoint ← check_endpoint value
    endpoints ← check_endpoints values
    ok (endpoint ∷ endpoints)

  unfoldable pub validate_cipherstore_urls : List Text → Result EnvironmentError (List Text)
  unfolding check_endpoints all_distinct
  validate_cipherstore_urls values = do
    guard (not (ltb (length values) 1 || ltb 3 (length values))) wrong_count
    normalized ← check_endpoints values
    guard (all_distinct normalized) not_distinct
    ok normalized

  module _ (trim : Text → Text) where
    abbrev pub replicas : Option Text → List Text
    replicas none = []
    replicas (some t) = if nonempty (trim t) then map trim (split_commas t) else []

    unfoldable pub validate_environment : Input → Result EnvironmentError RuntimeEnvironment
    unfolding validate_cipherstore_urls url split_commas ◌=ᵇ◌
    validate_environment input = do
      let mode = or_else input.mode "guided-local"
      guard ((mode =ᵇ ascii "guided-local") || (mode =ᵇ ascii "midnight")) invalid_mode
      let network = or_else input.network "undeployed"
      guard (among networks network) invalid_network
      endpoints ← validate_cipherstore_urls (
          or_else input.cipherstore_url "http://127.0.0.1:8787"
          ∷ replicas input.cipherstore_replicas)
      proof_server_url ←
          url (or_else input.proof_server_url "http://127.0.0.1:6300") "VITE_PROOF_SERVER_URL"
            http_protocols
      indexer_http_url ←
          url (or_else input.indexer_http_url "http://127.0.0.1:8088/api/v4/graphql")
            "VITE_INDEXER_HTTP_URL" http_protocols
      indexer_ws_url ←
          url (or_else input.indexer_ws_url "ws://127.0.0.1:8088/api/v4/graphql/ws")
            "VITE_INDEXER_WS_URL" ws_protocols
      ok (record {
        mode = mode;
        network = network;
        cipherstore_urls = endpoints;
        proof_server_url = proof_server_url;
        indexer_http_url = indexer_http_url;
        indexer_ws_url = indexer_ws_url;
      })
