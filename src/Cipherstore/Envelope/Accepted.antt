-- ===== src/Cipherstore/Envelope/Accepted.antt =====
-- packages/shared/src/crypto.ts and cipherstore/src/server.ts: what the client seals, the server
-- takes.
use vulnseal.Prelude.{
  ℕ, ◌<◌, ◌∙◌, ◌≡◌, refl, ap, true, false, Option, some, List, [], ◌∷◌, map, Bytes, All, length,
  ltb, ok, ◌≢◌, bytes_eq_refl, ◌=ᵇ◌, arith,
}
use mathlib.Core.Path.{subst}
use vulnseal.Shared.Hex.{Text, IsByte}
use vulnseal.Shared.Base64.{sextets, letter, letter_value, to_url, from_url, bytes_to_base64url}
use vulnseal.Shared.Base64.RoundTrip.{
  plain, text_of, nonempty-plain, sextets_nonempty, sextets_bound, plain-is_base64url,
  octets-sextets, letter-facts,
}
use vulnseal.Shared.Order.{text_le}
use vulnseal.Shared.Json.{Json, get_field}
use vulnseal.Shared.Envelope.{
  CiphertextEnvelope, write_envelope, has_envelope_keys, sort, same_texts, is_aad,
}
use vulnseal.Shared.Crypto.{Platform, SealedReport, seal_report, envelope_of}
use vulnseal.Shared.Crypto.Laws.{
  Reads, CipherLaws, seal_report-IsSealed, is_program_id-is_aad, le-not_ltb,
}
use vulnseal.Shared.Crypto.RoundTrip.{sealed_bytes, tagged, nonempty_bytes}
use vulnseal.Cipherstore.Envelope.{validate_envelope, parse, decode}

values-plain :
    (ns : List ℕ) → All (λ n. n < 64) ns → map (λ c. letter_value (from_url c)) (plain ns) ≡ ns
unfolding plain
values-plain [] h = refl
values-plain (n ∷ ns) h =
    let facts = letter-facts n h.0 in rw (facts.1, facts.3, values-plain ns h.1) refl

map-plain : (ns : List ℕ) → map (λ n. to_url (letter n)) ns ≡ plain ns
unfolding plain
map-plain [] = refl
map-plain (n ∷ ns) = rw (map-plain ns) refl

-- The server reads what the client wrote.
pub decode-bytes_to_base64url :
    (bs : Bytes) → bs ≢ [] → All IsByte bs → decode (bytes_to_base64url bs) ≡ ok bs
unfolding decode
decode-bytes_to_base64url bs some_byte h =
    let ns = sextets bs in
    let small = sextets_bound bs h in
    rw
      (
        text_of bs h,
        nonempty-plain ns (sextets_nonempty bs some_byte),
        plain-is_base64url ns small,
        values-plain ns small,
        octets-sextets bs h,
        map-plain ns,
        bytes_eq_refl (plain ns),
      )
      refl

module _ (decode_utf8 : Bytes → Option Text) (platform : Platform)
    (laws : CipherLaws platform) where
  parse-ok :
      (bytes : Bytes) {serialized : Text} {v : Json}
      → decode_utf8 bytes ≡ some serialized
      → platform.parse_json serialized ≡ some v
      → parse decode_utf8 platform.parse_json bytes ≡ ok v
  unfolding parse
  parse-ok bytes text reads = ground (arith, text, reads)

  validate_envelope-write_envelope :
      (bytes : Bytes) (serialized : Text) (e : CiphertextEnvelope) (nonce sealed : Bytes)
      → decode_utf8 bytes ≡ some serialized
      → platform.parse_json serialized ≡ some (write_envelope e)
      → decode e.iv ≡ ok nonce
      → length nonce ≡ 12
      → decode e.ciphertext ≡ ok sealed
      → ltb (length sealed) 16 ≡ false
      → is_aad e.aad ≡ true
      → validate_envelope decode_utf8 platform.parse_json bytes ≡ ok tt
  unfolding validate_envelope has_envelope_keys get_field ◌=ᵇ◌ sort same_texts text_le
  validate_envelope-write_envelope bytes serialized e nonce sealed text reads iv n ciphertext m
        bound =
      rw (parse-ok bytes text reads, iv, n, ciphertext, m, bound) refl

  -- The server accepts as an envelope the bytes of whatever the client sealed, where the platform
  -- reads back the envelope's JSON and the server's decoder its UTF-8.
  pub validate_envelope-seal_report :
      (report : Json) (program_id : Text) (provided_key provided_iv : Option Bytes)
      {s : SealedReport}
      → ((given : Bytes) → provided_iv ≡ some given → All IsByte given)
      → seal_report platform report program_id provided_key provided_iv ≡ ok s
      → Reads platform (write_envelope s.envelope)
      → decode_utf8 (platform.utf8 s.serialized_envelope) ≡ some s.serialized_envelope
      → validate_envelope decode_utf8 platform.parse_json (platform.utf8 s.serialized_envelope)
        ≡ ok tt
  validate_envelope-seal_report report program_id provided_key provided_iv {s} given h reads text =
      let parts =
        seal_report-IsSealed platform laws report program_id provided_key provided_iv given h in
      let sealed = sealed_bytes platform laws parts.text program_id s.key parts.iv in
      let e = envelope_of platform parts.text program_id s.key parts.iv in
      let tag = laws.encrypt_tag s.key parts.iv _ _ in
      let shown = ap (λ x. x.serialized_envelope) parts.whole in
      let named = ap (λ x. x.envelope) parts.whole in
      validate_envelope-write_envelope (platform.utf8 s.serialized_envelope) s.serialized_envelope e
        parts.iv sealed text
        (ap platform.parse_json shown ∙ subst (λ x. Reads platform (write_envelope x)) named reads)
        (decode-bytes_to_base64url parts.iv (nonempty_bytes parts.iv 11 parts.iv_width)
          parts.iv_bytes)
        parts.iv_width
        (decode-bytes_to_base64url sealed (tagged sealed tag)
          (laws.encrypt_bytes s.key parts.iv _ _))
        (le-not_ltb (length sealed) 16 tag) (is_program_id-is_aad program_id parts.program)
