-- ===== src/Shared/Report/Canonical.antt =====
-- packages/shared/src/canonicalize.ts: the canonical text of a report that was read.
use vulnseal.Prelude.{
  ◌≡◌, refl, sym, ap, ◌∙◌, List, [], ◌∷◌, All, ◌=ᵇ◌, ok, >>=-ok, ok-injective, lookup,
}
use vulnseal.Contract.Types.{ascii}
use vulnseal.Shared.Hex.{Text}
use vulnseal.Shared.Order.{distinct, sort_entries, text_le}
use vulnseal.Shared.Json.{Json}
use vulnseal.Shared.Canonical.{
  normalize, normalize_items, normalize_object, assign_all, canonicalize_json,
}
use vulnseal.Shared.Report.{
  AttachmentDigest, VulnerabilityReport, read_report, write_attachment, write_attachments,
  write_steps, write_report, canonicalize_report,
}
use vulnseal.Shared.Report.Settled.{TextLaws, IsLine, IsDigest-IsLine}
use vulnseal.Shared.Report.Fixed.{settle, settle_attachments, settle_size, IsAttachment}
use vulnseal.Shared.Canonical.Stable.{normalize-normalize}
use vulnseal.Shared.Report.Whole.{IsReport, read_report-IsReport, IsReport-read_report}

module _ (nfc trim : Text → Text) (laws : TextLaws nfc trim) where
  normalize-attachment :
      (a : AttachmentDigest)
      → IsAttachment nfc trim laws a
      → normalize nfc (write_attachment a)
        ≡ ok (write_attachment (record a { size = settle_size a.size }))
  unfolding normalize distinct lookup sort_entries assign_all ◌=ᵇ◌ normalize_object text_le
  normalize-attachment a h =
      rw
        (
          laws.nfc_ascii (ascii "filename") refl,
          laws.nfc_ascii (ascii "mediaType") refl,
          laws.nfc_ascii (ascii "sha256") refl,
          laws.nfc_ascii (ascii "size") refl,
          h.size_whole.0,
          h.filename_line.0.1,
          h.media_type_line.0.1,
          (IsDigest-IsLine nfc trim laws a.sha256 h.sha256_digest).0.1,
        )
        refl

  normalize-attachments :
      (digests : List AttachmentDigest)
      → All (IsAttachment nfc trim laws) digests
      → normalize_items nfc (write_attachments digests)
        ≡ ok (write_attachments (settle_attachments digests))
  unfolding normalize
  normalize-attachments [] h = refl
  normalize-attachments (a ∷ digests) h =
      let (here, rest) = h in
      rw (normalize-attachment a here, normalize-attachments digests rest) refl

  normalize-steps :
      (steps : List Text)
      → All (IsLine nfc trim laws) steps
      → normalize_items nfc (write_steps steps) ≡ ok (write_steps steps)
  unfolding normalize
  normalize-steps [] h = refl
  normalize-steps (s ∷ steps) h =
      let (here, rest) = h in rw (here.0.1, normalize-steps steps rest) refl

  normalize-report :
      (r : VulnerabilityReport)
      → IsReport nfc trim laws r
      → normalize nfc (write_report r) ≡ ok (write_report (settle r))
  unfolding write_report normalize distinct lookup sort_entries assign_all ◌=ᵇ◌ normalize_object
      text_le
  normalize-report r h =
      rw
        (
          laws.nfc_ascii (ascii "affectedAsset") refl,
          laws.nfc_ascii (ascii "attachments") refl,
          laws.nfc_ascii (ascii "impact") refl,
          laws.nfc_ascii (ascii "reproductionSteps") refl,
          laws.nfc_ascii (ascii "researcherContact") refl,
          laws.nfc_ascii (ascii "schemaVersion") refl,
          laws.nfc_ascii (ascii "suggestedRemediation") refl,
          laws.nfc_ascii (ascii "summary") refl,
          laws.nfc_ascii (ascii "title") refl,
          laws.nfc_ascii (ascii "weakness") refl,
          h.affected_asset_line.0.1,
          normalize-attachments r.attachments h.attachments_whole,
          h.impact_line.0.1,
          normalize-steps r.reproduction_steps h.steps_lines,
          h.researcher_contact_loose.1,
          h.suggested_remediation_loose.1,
          h.summary_line.0.1,
          h.title_line.0.1,
          h.weakness_line.0.1,
        )
        refl

  -- A report that is read has a canonical text, that of the report's settled form.
  pub canonicalize_report-settle :
      (stringify : Json → Text) (v : Json) {r : VulnerabilityReport}
      → read_report nfc trim v ≡ ok r
      → canonicalize_report nfc trim stringify v ≡ ok (stringify (write_report (settle r)))
  unfolding canonicalize_report canonicalize_json
  canonicalize_report-settle stringify v {r} h =
      rw (h, normalize-report r (read_report-IsReport nfc trim laws v h)) refl

  pub canonicalize_report-settled :
      (stringify : Json → Text) (v : Json) {r : VulnerabilityReport}
      → read_report nfc trim v ≡ ok r
      → canonicalize_report nfc trim stringify (write_report (settle r))
        ≡ ok (stringify (write_report (settle r)))
  unfolding canonicalize_report canonicalize_json
  canonicalize_report-settled stringify v {r} h =
      let whole = read_report-IsReport nfc trim laws v h in
      rw
        (
          IsReport-read_report nfc trim laws r whole,
          normalize-normalize nfc laws.nfc_idempotent (write_report r) (normalize-report r whole),
        )
        refl

  -- The canonical text of a report is the JSON text of a value in normal form which is a report with
  -- the same canonical text, where the normalization and the `trim` of texts have the stated laws.
  pub canonicalize_report-canonicalize_report :
      (stringify : Json → Text) (v : Json) {t : Text}
      → canonicalize_report nfc trim stringify v ≡ ok t
      → (c : Json) × (t ≡ stringify c)
        × (normalize nfc c ≡ ok c)
        × (canonicalize_report nfc trim stringify c ≡ ok t)
  unfolding canonicalize_report
  canonicalize_report-canonicalize_report stringify v {t} h =
      >>=-ok (read_report nfc trim v) _ h λ r e rest.
        let whole = read_report-IsReport nfc trim laws v e in
        let same : t ≡ stringify (write_report (settle r)) =
          ok-injective (sym h ∙ canonicalize_report-settle stringify v e) in
        (
          write_report (settle r),
          same,
          normalize-normalize nfc laws.nfc_idempotent (write_report r) (normalize-report r whole),
          canonicalize_report-settled stringify v e ∙ ap ok (sym same),
        )
