-- ===== src/Shared/Crypto/RoundTrip.antt =====
-- packages/shared/src/crypto.ts: a sealed report is opened by its key, at its content address.
use vulnseal.Prelude.{
  ℕ, suc, ◌≤◌, ◌≡◌, refl, sym, ap, ◌∙◌, Bool, true, ◌&&◌, ◌↔◌, Option, some, [], ◌∷◌, ◌++◌, Bytes,
  All, length, ok, arith, ◌≢◌, bytes_eq_refl, bytes_eq_iff, ok-injective,
}
use mathlib.Core.Path.{subst}
use vulnseal.Shared.Hex.{Text, IsByte, assert_bytes32}
use vulnseal.Shared.Hex.RoundTrip.{all_hex-bytes_to_hex, length-bytes_to_hex}
use vulnseal.Shared.Base64.{bytes_to_base64url, base64url_to_bytes}
use vulnseal.Shared.Base64.RoundTrip.{base64url_to_bytes-bytes_to_base64url}
use vulnseal.Shared.Json.{Json}
use vulnseal.Shared.Report.{read_report, write_report, canonicalize_report, VulnerabilityReport}
use vulnseal.Shared.Report.Settled.{TextLaws}
use vulnseal.Shared.Report.Fixed.{settle}
use vulnseal.Shared.Report.Canonical.{canonicalize_report-settle, canonicalize_report-settled}
use vulnseal.Shared.Envelope.{
  write_envelope, serialize_ciphertext_envelope, parse_ciphertext_envelope, is_program_id, after,
}
use vulnseal.Shared.Crypto.{
  Platform, SealedReport, seal_report, open_report, open_envelope, envelope_of, ciphertext_prefix,
  is_content_address, validate_content_digest, content_address_of,
}
use vulnseal.Shared.Crypto.Laws.{
  Reads, CipherLaws, seal_report-IsSealed, parse_ciphertext_envelope-serialize,
  is_program_id-is_aad,
}

pub nonempty_bytes : (bs : Bytes) (n : ℕ) → length bs ≡ suc n → bs ≢ []
nonempty_bytes [] n h = absurd (omega arith)
nonempty_bytes (b ∷ bs) n h = λ e. cc

and_right : (a b : Bool) → (a && b) ≡ true → b ≡ true
and_right a b h = ground arith

pub tagged : (bs : Bytes) → 16 ≤ length bs → bs ≢ []
tagged [] h = absurd (omega arith)
tagged (b ∷ bs) h = λ e. cc

module _ (platform : Platform) (laws : CipherLaws platform) where
  -- The parts of a sealed envelope decode to the nonce and to what was encrypted.
  module _ (text : Text) (program_id : Text) (key iv : Bytes) where
    abbrev pub sealed_bytes : Bytes
    sealed_bytes =
        platform.encrypt key iv (platform.utf8 (ciphertext_prefix ++ program_id))
          (platform.utf8 text)

    pub iv-decodes :
        length iv ≡ 12 → All IsByte iv → base64url_to_bytes (bytes_to_base64url iv) ≡ ok iv
    iv-decodes n h = base64url_to_bytes-bytes_to_base64url iv (nonempty_bytes iv 11 n) h

    pub ciphertext-decodes : base64url_to_bytes (bytes_to_base64url sealed_bytes) ≡ ok sealed_bytes
    ciphertext-decodes =
        base64url_to_bytes-bytes_to_base64url sealed_bytes
          (tagged sealed_bytes (laws.encrypt_tag key iv _ _)) (laws.encrypt_bytes key iv _ _)

  open_envelope-envelope_of :
      (text program_id : Text) (key iv : Bytes) (c : Json)
      → length key ≡ 32
      → length iv ≡ 12
      → All IsByte iv
      → platform.from_utf8 (platform.utf8 text) ≡ some text
      → platform.parse_json text ≡ some c
      → canonicalize_report platform.nfc platform.trim platform.stringify c ≡ ok text
      → open_envelope platform (envelope_of platform text program_id key iv) key ≡ ok c
  unfolding open_envelope assert_bytes32
  open_envelope-envelope_of text program_id key iv c width n bytes decodes reads again =
      rw
        (
          iv-decodes text program_id key iv n bytes,
          width,
          ciphertext-decodes text program_id key iv,
          laws.decrypt_encrypt key iv _ _,
          decodes,
          reads,
          again,
          reads,
        )
        refl

  parse-envelope_of :
      (text program_id : Text) (key iv : Bytes)
      → length iv ≡ 12
      → All IsByte iv
      → is_program_id program_id ≡ true
      → Reads platform (write_envelope (envelope_of platform text program_id key iv))
      → parse_ciphertext_envelope platform.parse_json (
          serialize_ciphertext_envelope platform.stringify
            (envelope_of platform text program_id key iv))
        ≡ ok (envelope_of platform text program_id key iv)
  parse-envelope_of text program_id key iv n bytes program reads =
      parse_ciphertext_envelope-serialize platform (envelope_of platform text program_id key iv) iv
        (sealed_bytes text program_id key iv) reads (iv-decodes text program_id key iv n bytes) n
        (ciphertext-decodes text program_id key iv) (laws.encrypt_tag key iv _ _)
        (is_program_id-is_aad program_id program)

  -- A report that was read and sealed is opened by the key it was sealed with, and what comes out
  -- is the report as `canonicalizeReport` settled it: on a platform whose `decrypt` undoes `encrypt`,
  -- whose texts have the stated laws, and which reads back the two JSON values and the text at hand.
  pub open_report-seal_report :
      (texts : TextLaws platform.nfc platform.trim) (report : Json) (program_id : Text)
      (provided_key provided_iv : Option Bytes) {r : VulnerabilityReport} {s : SealedReport}
      → ((given : Bytes) → provided_iv ≡ some given → All IsByte given)
      → read_report platform.nfc platform.trim report ≡ ok r
      → seal_report platform report program_id provided_key provided_iv ≡ ok s
      → Reads platform (write_report (settle r))
      → Reads platform (write_envelope s.envelope)
      → platform.from_utf8 (platform.utf8 s.canonical_report) ≡ some s.canonical_report
      → open_report platform s.serialized_envelope s.key ≡ ok (write_report (settle r))
  unfolding open_report
  open_report-seal_report texts report program_id provided_key provided_iv {r} {s} bytes read h
        reads reads_envelope decodes =
      let parts =
        seal_report-IsSealed platform laws report program_id provided_key provided_iv bytes h in
      let same : parts.text ≡ platform.stringify (write_report (settle r)) = ok-injective (
        sym parts.canonical
        ∙ canonicalize_report-settle platform.nfc platform.trim texts platform.stringify report
            read) in
      let again =
        canonicalize_report-settled platform.nfc platform.trim texts platform.stringify report
          read in
      let named = ap (λ x. x.envelope) parts.whole in
      let decoded =
        subst (λ t. platform.from_utf8 (platform.utf8 t) ≡ some t)
          (ap (λ x. x.canonical_report) parts.whole) decodes in
      let parsed =
        parse-envelope_of parts.text program_id s.key parts.iv parts.iv_width parts.iv_bytes
          parts.program (subst (λ e. Reads platform (write_envelope e)) named reads_envelope) in
      let shown = ap (λ x. x.serialized_envelope) parts.whole in
      rw (shown, parsed)
        (open_envelope-envelope_of parts.text program_id s.key parts.iv (write_report (settle r))
          parts.key_width parts.iv_width parts.iv_bytes decoded
          (ap platform.parse_json same ∙ reads) (again ∙ ap ok (sym same)))

  is_content_address-content_address_of :
      (serialized : Text) → is_content_address (content_address_of platform serialized) ≡ true
  unfolding is_content_address after
  is_content_address-content_address_of serialized =
      let digest = platform.sha256 (platform.utf8 serialized) in
      rw
        (
          all_hex-bytes_to_hex digest (laws.sha256_bytes _),
          length-bytes_to_hex digest,
          laws.sha256_width (platform.utf8 serialized),
        )
        refl

  -- The digest test accepts exactly one address for a text: `sha256:` and the hexadecimal digest of
  -- its UTF-8 bytes, on a platform whose SHA-256 gives 32 bytes.
  pub validate_content_digest_iff :
      (serialized address : Text)
      → (validate_content_digest platform serialized address ≡ true)
        ↔ (address ≡ content_address_of platform serialized)
  unfolding validate_content_digest
  validate_content_digest_iff serialized address =
      let own = content_address_of platform serialized in
      (
        λ h. (bytes_eq_iff address own).0 (and_right _ _ h),
        λ e. rw (e, is_content_address-content_address_of serialized) (bytes_eq_refl own),
      )
