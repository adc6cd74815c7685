-- ===== src/Shared/Crypto.antt =====
-- packages/shared/src/crypto.ts: sealing a report into an envelope, and opening it. Web Crypto, the
-- text encoder and decoder, the Unicode normalization, `trim` and the JSON functions are the
-- fields of a record.
pub mod Laws
pub mod RoundTrip
use vulnseal.Prelude.{
  ℕ, String, Bool, true, false, not, ◌&&◌, ◌||◌, Option, none, some, List, [], ◌∷◌, ◌++◌, Bytes,
  all, length, ltb, leb, ◌==◌, ◌=ᵇ◌, if◌then◌else◌, Result, ok, err, ◌>>=◌, ◌>>◌, guard,
}
use vulnseal.Contract.Types.{ascii}
use vulnseal.Shared.Hex.{Text, bytes_to_hex, is_hex, assert_bytes32, EncodingError}
use vulnseal.Shared.Base64.{bytes_to_base64url, base64url_to_bytes, Base64Error}
use vulnseal.Shared.Json.{Json, max_safe_integer}
use vulnseal.Shared.Report.{canonicalize_report, ReportError}
use vulnseal.Shared.Envelope.{
  CiphertextEnvelope, EnvelopeError, serialize_ciphertext_envelope, parse_ciphertext_envelope,
  is_program_id, after, decoded,
}

-- What the platform does: `crypto.subtle` with AES-GCM and a tag of 128 bits, whose arguments are
-- the key, the nonce, the additional data and the text.
pub record Platform : Type 0 where
  pub sha256 : Bytes → Bytes
  pub encrypt : Bytes → Bytes → Bytes → Bytes → Bytes
  pub decrypt : Bytes → Bytes → Bytes → Bytes → Option Bytes
  pub get_random_values : ℕ → Bytes
  pub utf8 : Text → Bytes
  pub from_utf8 : Bytes → Option Text
  pub nfc : Text → Text
  pub trim : Text → Text
  pub stringify : Json → Text
  pub parse_json : Text → Option Json

pub record SealedReport : Type 0 where
  pub canonical_report : Text
  pub canonical_report_digest : Bytes
  pub key : Bytes
  pub envelope : CiphertextEnvelope
  pub serialized_envelope : Text
  pub ciphertext_digest : Bytes
  pub content_address : Text

pub record CommitmentInputs : Type 0 where
  pub program_id : Bytes
  pub canonical_report_digest : Bytes
  pub report_salt : Bytes

pub data CryptoError : Type 0 where
  invalid_length : CryptoError
  invalid_program_id : CryptoError
  invalid_report : ReportError → CryptoError
  wrong_width : EncodingError → CryptoError
  wrong_iv_length : CryptoError
  malformed : EnvelopeError → CryptoError
  authentication_failed : CryptoError

abbrev pub reported {ℓ} : {A : Type ℓ} → Result ReportError A → Result CryptoError A
reported (ok a) = ok a
reported (err e) = err (invalid_report e)

abbrev pub measured {ℓ} : {A : Type ℓ} → Result EncodingError A → Result CryptoError A
measured (ok a) = ok a
measured (err e) = err (wrong_width e)

abbrev pub well_formed {ℓ} : {A : Type ℓ} → Result EnvelopeError A → Result CryptoError A
well_formed (ok a) = ok a
well_formed (err e) = err (malformed e)

-- What the `catch` of `openReport` makes of any error.
abbrev pub authentic {ℓ κ} : {E : Type ℓ} {A : Type κ} → Result E A → Result CryptoError A
authentic (ok a) = ok a
authentic (err e) = err authentication_failed

abbrev pub opened {ℓ} : {A : Type ℓ} → Option A → Result CryptoError A
opened (some a) = ok a
opened none = err authentication_failed

-- The caller's bytes, or fresh ones.
abbrev pub given_or : Result CryptoError Bytes → Option Bytes → Result CryptoError Bytes
given_or fresh none = fresh
given_or fresh (some bytes) = ok bytes

abbrev pub ciphertext_prefix : Text
ciphertext_prefix = ascii "vulnseal:ciphertext:v1:"

abbrev pub address_prefix : Text
address_prefix = ascii "sha256:"

-- `/^sha256:[0-9a-f]{64}$/`
unfoldable pub is_content_address : Text → Bool
unfolding after
is_content_address address = elim (after address_prefix address) [
  | none ↦ false
  | some digits ↦ all is_hex digits && (length digits == 64)
]

unfoldable pub prepare_commitment_inputs : CommitmentInputs → Result CryptoError CommitmentInputs
unfolding assert_bytes32
prepare_commitment_inputs inputs = do
  program_id ← measured (assert_bytes32 inputs.program_id)
  canonical_report_digest ← measured (assert_bytes32 inputs.canonical_report_digest)
  report_salt ← measured (assert_bytes32 inputs.report_salt)
  ok (record {
    program_id = program_id;
    canonical_report_digest = canonical_report_digest;
    report_salt = report_salt;
  })

module _ (platform : Platform) where
  unfoldable pub random_bytes : ℕ → Result CryptoError Bytes
  random_bytes n =
      if leb n max_safe_integer && not (ltb n 1)
      then ok (platform.get_random_values n)
      else err invalid_length

  abbrev pub content_address_of : Text → Text
  content_address_of serialized =
      address_prefix ++ bytes_to_hex (platform.sha256 (platform.utf8 serialized))

  -- The object that `sealReport` returns, from what it has computed.
  abbrev pub sealed_of : Text → Bytes → CiphertextEnvelope → SealedReport
  sealed_of canonical_report key envelope =
      let serialized = serialize_ciphertext_envelope platform.stringify envelope in
      record {
        canonical_report = canonical_report;
        canonical_report_digest = platform.sha256 (platform.utf8 canonical_report);
        key = key;
        envelope = envelope;
        serialized_envelope = serialized;
        ciphertext_digest = platform.sha256 (platform.utf8 serialized);
        content_address = content_address_of serialized;
      }

  abbrev pub envelope_of : Text → Text → Bytes → Bytes → CiphertextEnvelope
  envelope_of canonical_report program_id key iv =
      let aad = ciphertext_prefix ++ program_id in
      record {
        iv = bytes_to_base64url iv;
        aad = aad;
        ciphertext =
            bytes_to_base64url
              (platform.encrypt key iv (platform.utf8 aad) (platform.utf8 canonical_report));
      }

  unfoldable pub seal_report :
      Json → Text → Option Bytes → Option Bytes → Result CryptoError SealedReport
  unfolding canonicalize_report random_bytes assert_bytes32 bytes_to_base64url bytes_to_hex
  seal_report report program_id provided_key provided_iv = do
    guard (is_program_id program_id) invalid_program_id
    canonical_report ←
        reported (canonicalize_report platform.nfc platform.trim platform.stringify report)
    chosen ← given_or (random_bytes 32) provided_key
    key ← measured (assert_bytes32 chosen)
    iv ← given_or (random_bytes 12) provided_iv
    guard (length iv == 12) wrong_iv_length
    ok (sealed_of canonical_report key (envelope_of canonical_report program_id key iv))

  -- The body of the `try` of `openReport`.
  unfoldable pub open_envelope : CiphertextEnvelope → Bytes → Result CryptoError Json
  unfolding canonicalize_report assert_bytes32 base64url_to_bytes
  open_envelope envelope raw_key = do
    iv ← authentic (base64url_to_bytes envelope.iv)
    key ← authentic (assert_bytes32 raw_key)
    ciphertext ← authentic (base64url_to_bytes envelope.ciphertext)
    plaintext ← opened (platform.decrypt key iv (platform.utf8 envelope.aad) ciphertext)
    text ← opened (platform.from_utf8 plaintext)
    report ← opened (platform.parse_json text)
    canonical ← authentic (canonicalize_report platform.nfc platform.trim platform.stringify report)
    opened (platform.parse_json canonical)

  unfoldable pub open_report : Text → Bytes → Result CryptoError Json
  unfolding parse_ciphertext_envelope open_envelope
  open_report serialized raw_key = do
    envelope ← well_formed (parse_ciphertext_envelope platform.parse_json serialized)
    open_envelope envelope raw_key

  unfoldable pub validate_content_digest : Text → Text → Bool
  unfolding is_content_address bytes_to_hex ◌=ᵇ◌
  validate_content_digest serialized expected =
      is_content_address expected && (expected =ᵇ content_address_of serialized)
