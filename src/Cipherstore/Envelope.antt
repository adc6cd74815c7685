-- ===== src/Cipherstore/Envelope.antt =====
-- cipherstore/src/server.ts, `validateEnvelope`: what the store accepts as a sealed report. The
-- UTF-8 decoder and `JSON.parse` are parameters; `Buffer.from(text, "base64url")` is that of
-- Shared/Base64.antt, which drops what is left over of the last byte.
mod Accepted
mod Trials
use vulnseal.Prelude.{
  ℕ, String, Bool, true, false, not, ◌&&◌, ◌||◌, Option, none, some, List, [], ◌∷◌, map, Bytes, all,
  length, ltb, leb, ◌==◌, ◌=ᵇ◌, if◌then◌else◌, Result, ok, err, ◌>>=◌, ◌>>◌, guard,
}
use vulnseal.Contract.Types.{ascii}
use vulnseal.Shared.Hex.{Text}
use vulnseal.Shared.Base64.{
  sextets, octets, letter, letter_value, to_url, from_url, is_base64url, nonempty,
}
use vulnseal.Shared.Json.{Json, Fields, object, get_field, is_one, is_text, is_exactly}
use vulnseal.Shared.Envelope.{has_envelope_keys, is_aad}
use vulnseal.Cipherstore.Storage.{StorageError, invalid_envelope}

-- `decode`: base64url that is written the one way its bytes are.
unfoldable pub decode : Text → Result StorageError Bytes
unfolding octets sextets ◌=ᵇ◌
decode value = do
  guard (nonempty value && all is_base64url value) invalid_envelope
  let bytes = octets (map (λ c. letter_value (from_url c)) value)
  guard (map (λ n. to_url (letter n)) (sextets bytes) =ᵇ value) invalid_envelope
  ok bytes

abbrev pub envelope_text : Json → Result StorageError Text
envelope_text value = elim (is_text value) [ none ↦ err invalid_envelope | some t ↦ ok t ]

module _ (decode_utf8 : Bytes → Option Text) (parse_json : Text → Option Json) where
  unfoldable pub parse : Bytes → Result StorageError Json
  parse bytes = elim (decode_utf8 bytes) [
    | none ↦ err invalid_envelope
    | some t ↦ elim (parse_json t) [ none ↦ err invalid_envelope | some value ↦ ok value ]
  ]

  abbrev pub object_of : Json → Result StorageError Fields
  object_of (object fields) = ok fields
  object_of _ = err invalid_envelope

  unfoldable pub validate_envelope : Bytes → Result StorageError (Unit {0})
  unfolding parse has_envelope_keys get_field decode is_aad ◌=ᵇ◌
  validate_envelope bytes = do
    value ← parse bytes
    fields ← object_of value
    guard (has_envelope_keys fields) invalid_envelope
    guard (is_one (get_field (ascii "version") fields)) invalid_envelope
    guard (is_exactly "AES-256-GCM" (get_field (ascii "algorithm") fields)) invalid_envelope
    guard (is_exactly "none-random-256-bit-key" (get_field (ascii "keyDerivation") fields))
        invalid_envelope
    aad ← envelope_text (get_field (ascii "aad") fields)
    iv ← envelope_text (get_field (ascii "iv") fields)
    ciphertext ← envelope_text (get_field (ascii "ciphertext") fields)
    nonce ← decode iv
    guard (length nonce == 12) invalid_envelope
    sealed ← decode ciphertext
    guard (not (ltb (length sealed) 16)) invalid_envelope
    guard (is_aad aad) invalid_envelope
