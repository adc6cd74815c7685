-- ===== src/Shared/Trials.antt =====
-- The theorems on canonical forms, sealing, redaction and settings, on the platform of
-- Shared/Sample.antt.
use vulnseal.Prelude.{
  ℕ, zero, suc, ◌<◌, ◌≡◌, refl, arith, true, false, Option, none, some, List, [], ◌∷◌, lookup, ◌=ᵇ◌,
  ok, ◌↔◌, replicate,
}
use vulnseal.Contract.Types.{ascii}
use vulnseal.Shared.Hex.{Text, assert_bytes32}
use vulnseal.Shared.Base64.{bytes_to_base64url, sextets, btoa, strip_padding}
use vulnseal.Shared.Order.{text_le, distinct, sort_entries}
use vulnseal.Shared.Json.{
  Json, object, array, field, no_fields, string, number, integer, item, no_items, get_field,
}
use vulnseal.Shared.Canonical.{
  normalize, normalize_object, normalize_number, assign_all, assign, precedes, index,
  canonicalize_json,
}
use vulnseal.Shared.Report.{
  read_report, write_report, canonicalize_report, read_steps, require_text, optional_text, text_at,
  get, has_no_length, read_attachments,
}
use vulnseal.Shared.Report.Fixed.{settle}
use vulnseal.Shared.Report.Canonical.{canonicalize_report-canonicalize_report}
use vulnseal.Shared.Crypto.{
  SealedReport, seal_report, sealed_of, open_report, random_bytes, validate_content_digest,
  content_address_of,
}
use vulnseal.Shared.Crypto.RoundTrip.{open_report-seal_report, validate_content_digest_iff}
use vulnseal.Shared.Redaction.{
  Value, primitive, reference, Node, bytes, Output, record_of, entry, no_entries, plain, byte_count,
  circular, redacted, redact_for_log, redact_node, redact_items, redact_entries, is_sensitive,
}
use vulnseal.Shared.Redaction as Redaction
use vulnseal.Shared.Redaction.Laws.{IsNodeBelow, redact_for_log-ok}
use vulnseal.Shared.Redaction.Clean.{is_clean, redact_for_log-clean}
use vulnseal.Shared.Environment.{
  Url, validate_cipherstore_urls, check_endpoints, check_endpoint, url, drop_slash, drop_slashes,
  all_distinct,
}
use vulnseal.Shared.Sample.{
  toy, toy_laws, toy_texts, toy_nfc, toy_trim, some_report, some_envelope, strokes,
}

-- Two objects with their fields in another order, with -0 and 0 among them.
abbrev one_way : Json
one_way =
    object (
      field (ascii "b") (number (integer true 0))
        (field (ascii "a") (string (8192 ∷ [])) no_fields))

abbrev other_way : Json
other_way = object (
    field (ascii "a") (string (8192 ∷ [])) (field (ascii "b") (number (integer false 0)) no_fields))

abbrev normal : Json
normal = object (
    field (ascii "a") (string (8194 ∷ [])) (field (ascii "b") (number (integer false 0)) no_fields))

normalized : normalize toy_nfc one_way ≡ ok normal
unfolding normalize normalize_object normalize_number assign_all assign precedes index distinct
    sort_entries text_le lookup ◌=ᵇ◌ toy_nfc
normalized = refl

abbrev pub report : Json
report = object (
    field (ascii "schemaVersion") (number (integer false 1)) (
      field (ascii "title") (string (ascii " t")) (
        field (ascii "summary") (string (ascii "s")) (
          field (ascii "affectedAsset") (string (ascii "a")) (
            field (ascii "weakness") (string (ascii "w")) (
              field (ascii "reproductionSteps") (array (item (string (ascii "one")) no_items)) (
                field (ascii "impact") (string (ascii "i")) (
                  field (ascii "suggestedRemediation") (string (ascii " ")) (
                    field (ascii "attachments") (array no_items)
                      (field (ascii "researcherContact") (string []) no_fields))))))))))

readable : read_report toy_nfc toy_trim report ≡ ok some_report
unfolding read_report read_steps require_text optional_text text_at get get_field has_no_length
    read_attachments ◌=ᵇ◌ toy_nfc toy_trim
readable = refl

canonical : canonicalize_report toy_nfc toy_trim toy.stringify report ≡ ok (1 ∷ [])
unfolding canonicalize_report canonicalize_json write_report read_report read_steps require_text
    optional_text text_at get get_field has_no_length read_attachments ◌=ᵇ◌ toy_nfc toy_trim
    normalize normalize_object normalize_number assign_all assign precedes index distinct
    sort_entries text_le lookup
canonical = refl

canonicalize_report-canonicalize_report_example :
    (c : Json) × (◌≡◌ {A = Text} (1 ∷ []) (toy.stringify c))
    × (normalize toy_nfc c ≡ ok c)
    × (canonicalize_report toy_nfc toy_trim toy.stringify c ≡ ok (1 ∷ []))
canonicalize_report-canonicalize_report_example =
    canonicalize_report-canonicalize_report toy_nfc toy_trim toy_texts toy.stringify report
      canonical

abbrev pub sealed : SealedReport
sealed = sealed_of toy (1 ∷ []) (replicate 32 0) some_envelope

pub seals : seal_report toy report (ascii "p") none none ≡ ok sealed
unfolding seal_report random_bytes assert_bytes32 bytes_to_base64url sextets btoa strip_padding
    strokes canonicalize_report canonicalize_json write_report read_report read_steps require_text
    optional_text text_at get get_field has_no_length read_attachments ◌=ᵇ◌ toy_nfc toy_trim
    normalize normalize_object normalize_number assign_all assign precedes index distinct
    sort_entries text_le lookup
seals = refl

open_report-seal_report_example :
    open_report toy (2 ∷ []) (replicate 32 0) ≡ ok (write_report (settle some_report))
unfolding write_report
open_report-seal_report_example =
    open_report-seal_report toy toy_laws toy_texts report (ascii "p") none none (λ given e. cc)
      readable seals refl refl refl

validate_content_digest_iff_example :
    (validate_content_digest toy (2 ∷ []) sealed.content_address ≡ true)
    ↔ (sealed.content_address ≡ content_address_of toy (2 ∷ []))
validate_content_digest_iff_example =
    validate_content_digest_iff toy toy_laws (2 ∷ []) sealed.content_address

-- An object with a secret, its own bytes and itself.
unfoldable heap : ℕ → Node ℕ
heap zero = Redaction.object (
    (ascii "salt", primitive 7)
    ∷ (ascii "size", primitive 8)
    ∷ (ascii "self", reference 0)
    ∷ (ascii "data", reference 1)
    ∷ [])
heap (suc i) = bytes 5

heap_closed : (i : ℕ) → i < 2 → IsNodeBelow 2 (heap i)
unfolding heap
heap_closed zero h = (tt, (tt, (omega arith, (omega arith, tt))))
heap_closed (suc i) h = tt

abbrev logged : Output ℕ
logged = record_of (
    entry (ascii "salt") redacted (
      entry (ascii "size") (plain 8)
        (entry (ascii "self") circular (entry (ascii "data") (byte_count 5) no_entries))))

logs : redact_for_log heap 3 (reference 0) [] ≡ ok (logged, 0 ∷ [])
unfolding redact_for_log redact_node redact_items redact_entries is_sensitive ◌=ᵇ◌ heap
logs = refl

redact_for_log-ok_example :
    (r : Output ℕ × List ℕ) × (redact_for_log heap 3 (reference 0) [] ≡ ok r)
redact_for_log-ok_example = redact_for_log-ok heap 2 heap_closed (reference 0) (omega arith)

redact_for_log-clean_example : is_clean logged ≡ true
redact_for_log-clean_example = redact_for_log-clean heap 3 (reference 0) [] (logged, 0 ∷ []) logs

abbrev parse_url : Text → Option Url
parse_url t = some (record { protocol = ascii "https:"; username = []; password = []; href = t })

accepts :
    validate_cipherstore_urls parse_url (ascii "https://a//" ∷ ascii "https://b" ∷ [])
    ≡ ok (ascii "https://a" ∷ ascii "https://b" ∷ [])
unfolding validate_cipherstore_urls check_endpoints check_endpoint url drop_slash drop_slashes
    all_distinct ◌=ᵇ◌
accepts = refl
