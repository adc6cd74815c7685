-- ===== src/Shared/Envelope.antt =====
-- packages/shared/src/crypto.ts: the envelope of a sealed report as text, and the tests on it that
-- the client and the server share. `JSON.stringify` and `JSON.parse` are parameters.
use vulnseal.Prelude.{
  String, Bool, true, false, not, ◌&&◌, Option, none, some, List, [], ◌∷◌, Bytes, all, length, ltb,
  leb, ◌==◌, ◌=ᵇ◌, if◌then◌else◌, Result, ok, err, ◌>>=◌, ◌>>◌, guard,
}
use vulnseal.Contract.Types.{ascii}
use vulnseal.Shared.Hex.{Text}
use vulnseal.Shared.Base64.{base64url_to_bytes, is_base64url, nonempty, Base64Error}
use vulnseal.Shared.Json.{
  Json, Fields, number, string, array, object, no_fields, field, integer, get_field, field_keys,
  is_one, is_text, is_exactly,
}
use vulnseal.Shared.Order.{text_le}

-- One round of `sort` on texts.
unfoldable pub place : Text → List Text → List Text
unfolding text_le
place k [] = k ∷ []
place k (j ∷ ks) = if text_le k j then k ∷ j ∷ ks else j ∷ place k ks

-- `sort()`
unfoldable pub sort : List Text → List Text
unfolding place
sort [] = []
sort (k ∷ ks) = place k (sort ks)

-- Two lists of texts with one `JSON.stringify`.
unfoldable pub same_texts : List Text → List Text → Bool
unfolding ◌=ᵇ◌
same_texts [] [] = true
same_texts (s ∷ ss) (t ∷ ts) = (s =ᵇ t) && same_texts ss ts
same_texts _ _ = false

abbrev pub expected_keys : List Text
expected_keys =
    ascii "aad"
    ∷ ascii "algorithm"
    ∷ ascii "ciphertext"
    ∷ ascii "iv"
    ∷ ascii "keyDerivation"
    ∷ ascii "version"
    ∷ []

-- What is left of a text after a prefix.
unfoldable pub after : Text → Text → Option Text
after [] t = some t
after (c ∷ prefix) [] = none
after (c ∷ prefix) (d ∷ t) = if c == d then after prefix t else none

-- `/^[A-Za-z0-9_-]{1,128}$/`
abbrev pub is_program_id : Text → Bool
is_program_id t = nonempty t && leb (length t) 128 && all is_base64url t

-- `/^vulnseal:ciphertext:v1:[A-Za-z0-9_-]{1,128}$/`
unfoldable pub is_aad : Text → Bool
unfolding after
is_aad t = elim (after (ascii "vulnseal:ciphertext:v1:") t) [
  | none ↦ false
  | some rest ↦ is_program_id rest
]

-- The parts of an envelope of version 1; its algorithm and key derivation are constants.
pub record CiphertextEnvelope : Type 0 where
  pub iv : Text
  pub aad : Text
  pub ciphertext : Text

abbrev pub algorithm : String
algorithm = "AES-256-GCM"

abbrev pub key_derivation : String
key_derivation = "none-random-256-bit-key"

-- The object that `serializeCiphertextEnvelope` writes.
abbrev pub write_envelope : CiphertextEnvelope → Json
write_envelope e = object (
    field (ascii "aad") (string e.aad) (
      field (ascii "algorithm") (string (ascii algorithm)) (
        field (ascii "ciphertext") (string e.ciphertext) (
          field (ascii "iv") (string e.iv) (
            field (ascii "keyDerivation") (string (ascii key_derivation))
              (field (ascii "version") (number (integer false 1)) no_fields))))))

abbrev pub serialize_ciphertext_envelope : (Json → Text) → CiphertextEnvelope → Text
serialize_ciphertext_envelope stringify e = stringify (write_envelope e)

pub data EnvelopeError : Type 0 where
  invalid_json : EnvelopeError
  invalid_envelope : EnvelopeError
  unsupported_envelope : EnvelopeError
  invalid_encoding : Base64Error → EnvelopeError
  wrong_iv_length : EnvelopeError
  missing_tag : EnvelopeError
  unbound : EnvelopeError

abbrev pub parsed : Option Json → Result EnvelopeError Json
parsed none = err invalid_json
parsed (some value) = ok value

-- The keys of an array are its indices, never those of an envelope.
abbrev pub fields_of : Json → Result EnvelopeError Fields
fields_of (object fields) = ok fields
fields_of (array _) = err unsupported_envelope
fields_of _ = err invalid_envelope

abbrev pub text_of : Json → Result EnvelopeError Text
text_of value = elim (is_text value) [ none ↦ err unsupported_envelope | some t ↦ ok t ]

abbrev pub decoded : Result Base64Error Bytes → Result EnvelopeError Bytes
decoded (ok bytes) = ok bytes
decoded (err e) = err (invalid_encoding e)

unfoldable pub has_envelope_keys : Fields → Bool
unfolding sort same_texts
has_envelope_keys fields = same_texts (sort (field_keys fields)) expected_keys

unfoldable pub parse_ciphertext_envelope :
    (Text → Option Json) → Text → Result EnvelopeError CiphertextEnvelope
unfolding has_envelope_keys get_field base64url_to_bytes is_aad ◌=ᵇ◌
parse_ciphertext_envelope parse_json serialized = do
  value ← parsed (parse_json serialized)
  candidate ← fields_of value
  guard (has_envelope_keys candidate) unsupported_envelope
  guard (is_one (get_field (ascii "version") candidate)) unsupported_envelope
  guard (is_exactly algorithm (get_field (ascii "algorithm") candidate)) unsupported_envelope
  guard (is_exactly key_derivation (get_field (ascii "keyDerivation") candidate))
      unsupported_envelope
  aad ← text_of (get_field (ascii "aad") candidate)
  iv ← text_of (get_field (ascii "iv") candidate)
  ciphertext ← text_of (get_field (ascii "ciphertext") candidate)
  nonce ← decoded (base64url_to_bytes iv)
  guard (length nonce == 12) wrong_iv_length
  sealed ← decoded (base64url_to_bytes ciphertext)
  guard (not (ltb (length sealed) 16)) missing_tag
  guard (is_aad aad) unbound
  ok (record { iv = iv; aad = aad; ciphertext = ciphertext })
