-- ===== src/Shared/Report.antt =====
-- packages/shared/src/canonicalize.ts, `canonicalizeReport`, and the report of types.ts. A report
-- comes as a JSON value, since `openReport` casts what it parsed. The Unicode normalization, the
-- `trim` of a text and `JSON.stringify` are parameters.
pub mod Settled
pub mod Fixed
pub mod Whole
pub mod Canonical
use vulnseal.Prelude.{
  ℕ, suc, String, Bool, true, false, not, ◌&&◌, ◌||◌, Option, none, some, List, [], ◌∷◌, map, all,
  length, leb, ltb, ◌==◌, ◌=ᵇ◌, if◌then◌else◌, Result, ok, err, ◌>>=◌, ◌>>◌, guard, Dict,
}
use vulnseal.Contract.Types.{ascii}
use vulnseal.Shared.Hex.{Text, to_lower, is_hex}
use vulnseal.Shared.Base64.{nonempty}
use vulnseal.Shared.Json.{
  is_one, get_field, Json, Items, Fields, undefined, null, boolean, number, string, array, object,
  no_items, item, no_fields, field, Number, integer, is_safe_integer,
}
use vulnseal.Shared.Canonical.{canonicalize_json, CanonicalError}

pub record AttachmentDigest : Type 0 where
  pub filename : Text
  pub media_type : Text
  pub size : Number
  pub sha256 : Text

-- A report of schema version 1.
pub record VulnerabilityReport : Type 0 where
  pub title : Text
  pub summary : Text
  pub affected_asset : Text
  pub weakness : Text
  pub reproduction_steps : List Text
  pub impact : Text
  pub suggested_remediation : Text
  pub attachments : List AttachmentDigest
  pub researcher_contact : Text

-- What an error names: a field, or a step by its number.
pub data Name : Type 0 where
  named : String → Name
  numbered : ℕ → Name

pub data ReportError : Type 0 where
  type_error : ReportError
  unsupported_version : ReportError
  no_steps : ReportError
  not_text : Name → ReportError
  required : Name → ReportError
  bad_size : ReportError
  bad_digest : ReportError
  not_canonical : CanonicalError → ReportError

-- `value.key`
unfoldable pub get : String → Json → Result ReportError Json
unfolding get_field
get key undefined = err type_error
get key null = err type_error
get key (object fields) = ok (get_field (ascii key) fields)
get key _ = ok undefined

abbrev pub is_zero : Json → Bool
is_zero (number (integer _ n)) = n == 0
is_zero _ = false

-- `value.length === 0`
unfoldable pub has_no_length : Json → Result ReportError Bool
unfolding get_field
has_no_length undefined = err type_error
has_no_length null = err type_error
has_no_length (string t) = ok (not (nonempty t))
has_no_length (array no_items) = ok true
has_no_length (object fields) = ok (is_zero (get_field (ascii "length") fields))
has_no_length _ = ok false

-- The receiver of `value.map`
abbrev pub as_items : Json → Result ReportError Items
as_items (array items) = ok items
as_items _ = err type_error

-- `Number.isSafeInteger(size) && size >= 0`
abbrev pub as_size : Json → Result ReportError Number
as_size (number (integer negative n)) =
    if is_safe_integer (integer negative n) && not (negative && not (n == 0))
    then ok (integer negative n)
    else err bad_size
as_size _ = err bad_size

-- `[0-9a-fA-F]{64}`
abbrev pub is_sha256 : Text → Bool
is_sha256 t = all (λ c. is_hex (to_lower c)) t && (length t == 64)

abbrev pub write_steps : List Text → Items
write_steps [] = no_items
write_steps (s ∷ steps) = item (string s) (write_steps steps)

abbrev pub write_attachment : AttachmentDigest → Json
write_attachment a = object (
    field (ascii "filename") (string a.filename) (
      field (ascii "mediaType") (string a.media_type) (
        field (ascii "sha256") (string a.sha256) (field (ascii "size") (number a.size) no_fields))))

abbrev pub write_attachments : List AttachmentDigest → Items
write_attachments [] = no_items
write_attachments (a ∷ rest) = item (write_attachment a) (write_attachments rest)

-- The object literal that `canonicalizeReport` hands to `canonicalizeJson`.
unfoldable pub write_report : VulnerabilityReport → Json
write_report r = object (
    field (ascii "affectedAsset") (string r.affected_asset) (
      field (ascii "attachments") (array (write_attachments r.attachments)) (
        field (ascii "impact") (string r.impact) (
          field (ascii "reproductionSteps") (array (write_steps r.reproduction_steps)) (
            field (ascii "researcherContact") (string r.researcher_contact) (
              field (ascii "schemaVersion") (number (integer false 1)) (
                field (ascii "suggestedRemediation") (string r.suggested_remediation) (
                  field (ascii "summary") (string r.summary) (
                    field (ascii "title") (string r.title)
                      (field (ascii "weakness") (string r.weakness) no_fields))))))))))

-- `typeof value === "string"` and the test of what is left of it by `trim`.
abbrev pub has_sha256 : (Text → Text) → Json → Bool
has_sha256 trim (string t) = is_sha256 (trim t)
has_sha256 trim _ = false

module _ (nfc trim : Text → Text) where
  unfoldable pub require_text : Name → Json → Result ReportError Text
  require_text name (string value) =
      let normalized = trim (nfc value) in
      if nonempty normalized then ok normalized else err (required name)
  require_text name _ = err (not_text name)

  -- `value.normalize("NFC").trim()`
  unfoldable pub optional_text : Json → Result ReportError Text
  optional_text (string value) = ok (trim (nfc value))
  optional_text _ = err type_error

  unfoldable pub text_at : String → Json → Result ReportError Text
  unfolding get require_text
  text_at key value = get key value >>= λ v. require_text (named key) v

  unfoldable pub read_steps : ℕ → Items → Result ReportError (List Text)
  unfolding require_text
  read_steps index no_items = ok []
  read_steps index (item v rest) = do
    s ← require_text (numbered index) v
    steps ← read_steps (suc index) rest
    ok (s ∷ steps)

  -- The body of `attachments.map`.
  unfoldable pub read_attachment : Json → Result ReportError AttachmentDigest
  unfolding get text_at require_text
  read_attachment attachment = do
    size ← get "size" attachment >>= as_size
    digest ← get "sha256" attachment
    guard (has_sha256 trim digest) bad_digest
    filename ← text_at "filename" attachment
    media_type ← text_at "mediaType" attachment
    sha256 ← require_text (named "sha256") digest
    ok (record {
      filename = filename;
      media_type = media_type;
      size = size;
      sha256 = map to_lower sha256;
    })

  unfoldable pub read_attachments : Items → Result ReportError (List AttachmentDigest)
  unfolding read_attachment
  read_attachments no_items = ok []
  read_attachments (item v rest) = do
    a ← read_attachment v
    attachments ← read_attachments rest
    ok (a ∷ attachments)

  -- The checks of `canonicalizeReport`, in the order of its code.
  unfoldable pub read_report : Json → Result ReportError VulnerabilityReport
  unfolding get has_no_length text_at read_steps read_attachments optional_text
  read_report report = do
    version ← get "schemaVersion" report
    guard (is_one version) unsupported_version
    steps ← get "reproductionSteps" report
    empty ← has_no_length steps
    guard (not empty) no_steps
    affected_asset ← text_at "affectedAsset" report
    attachments ← get "attachments" report >>= as_items >>= read_attachments
    impact ← text_at "impact" report
    reproduction_steps ← as_items steps >>= read_steps 0
    researcher_contact ← get "researcherContact" report >>= optional_text
    suggested_remediation ← get "suggestedRemediation" report >>= optional_text
    summary ← text_at "summary" report
    title ← text_at "title" report
    weakness ← text_at "weakness" report
    ok (record {
      title = title;
      summary = summary;
      affected_asset = affected_asset;
      weakness = weakness;
      reproduction_steps = reproduction_steps;
      impact = impact;
      suggested_remediation = suggested_remediation;
      attachments = attachments;
      researcher_contact = researcher_contact;
    })

  abbrev pub lift {ℓ} : {A : Type ℓ} → Result CanonicalError A → Result ReportError A
  lift (ok a) = ok a
  lift (err e) = err (not_canonical e)

  unfoldable pub canonicalize_report : (Json → Text) → Json → Result ReportError Text
  unfolding read_report write_report canonicalize_json
  canonicalize_report stringify report =
      read_report report >>= λ r. lift (canonicalize_json nfc stringify (write_report r))
