-- ===== src/Shared/Report/Whole.antt =====
-- packages/shared/src/canonicalize.ts: the canonical text of a report is read back and is its own
-- canonical text.
use vulnseal.Prelude.{
  String, ◌≡◌, refl, Bool, true, false, not, List, All, ◌=ᵇ◌, ok, ◌>>=◌, >>=-ok, ok-injective,
  guard-ok, arith,
}
use mathlib.Core.Path.{subst}
use vulnseal.Shared.Hex.{Text}
use vulnseal.Shared.Json.{
  is_one, Json, undefined, null, boolean, number, string, array, object, no_items, item,
}
use vulnseal.Shared.Json.{get_field}
use vulnseal.Shared.Report.{
  AttachmentDigest, VulnerabilityReport, named, numbered, require_text, optional_text, text_at, get,
  has_no_length, as_items, read_steps, read_attachments, read_report, write_steps, write_report,
  unsupported_version, no_steps,
}
use vulnseal.Shared.Report.Settled.{
  TextLaws, IsLine, IsLoose, IsLine-require_text, optional_text-IsLoose, text_at-IsLine,
}
use vulnseal.Shared.Report.Fixed.{
  settle, IsAttachment, read_attachments-IsAttachment, IsAttachment-read_attachments,
  read_steps-IsLine, IsLine-read_steps,
}

module _ (nfc trim : Text → Text) (laws : TextLaws nfc trim) where
  abbrev pub Line : Text → Type 0
  Line = IsLine nfc trim laws

  abbrev pub Loose : Text → Type 0
  Loose = IsLoose nfc trim laws

  -- A report as it stands once it was read.
  pub record IsReport (r : VulnerabilityReport) : Type 0 where
    pub title_line : Line r.title
    pub summary_line : Line r.summary
    pub affected_asset_line : Line r.affected_asset
    pub weakness_line : Line r.weakness
    pub steps_some : has_no_length (array (write_steps r.reproduction_steps)) ≡ ok false
    pub steps_lines : All Line r.reproduction_steps
    pub impact_line : Line r.impact
    pub suggested_remediation_loose : Loose r.suggested_remediation
    pub attachments_whole : All (IsAttachment nfc trim laws) r.attachments
    pub researcher_contact_loose : Loose r.researcher_contact

  -- Steps that were not empty are not empty once they were read.
  steps_some_of :
      (v : Json) (empty : Bool) {steps : List Text}
      → has_no_length v ≡ ok empty
      → not empty ≡ true
      → (as_items v >>= read_steps nfc trim 0) ≡ ok steps
      → has_no_length (array (write_steps steps)) ≡ ok false
  unfolding has_no_length read_steps
  steps_some_of (array no_items) empty {steps} e f h = ground (arith, e, f)
  steps_some_of (array (item v xs)) empty {steps} e f h =
      >>=-ok (require_text nfc trim (numbered 0) v) _ h λ s e₀ h₁.
        >>=-ok (read_steps nfc trim 1 xs) _ h₁ λ rest e₁ h₂.
          subst (λ l. has_no_length (array (write_steps l)) ≡ ok false) (ok-injective h₂) refl
  steps_some_of undefined empty e f h = cc
  steps_some_of null empty e f h = cc
  steps_some_of (boolean b) empty e f h = cc
  steps_some_of (number n) empty e f h = cc
  steps_some_of (string t) empty e f h = cc
  steps_some_of (object fs) empty e f h = cc

  steps_lines_of :
      (v : Json) {steps : List Text}
      → (as_items v >>= read_steps nfc trim 0) ≡ ok steps
      → All Line steps
  steps_lines_of v h =
      >>=-ok (as_items v) _ h (λ xs e rest. read_steps-IsLine nfc trim laws 0 xs rest)

  get-Loose :
      (key : String) (v : Json) {t : Text} → (get key v >>= optional_text nfc trim) ≡ ok t → Loose t
  get-Loose key v h =
      >>=-ok (get key v) _ h (λ w e rest. optional_text-IsLoose nfc trim laws w rest)

  attachments_of :
      (v : Json) {digests : List AttachmentDigest}
      → (get "attachments" v >>= as_items >>= read_attachments nfc trim) ≡ ok digests
      → All (IsAttachment nfc trim laws) digests
  attachments_of v h =
      >>=-ok (get "attachments" v >>= as_items) _ h
        (λ xs e rest. read_attachments-IsAttachment nfc trim laws xs rest)

  pub read_report-IsReport :
      (v : Json) {r : VulnerabilityReport} → read_report nfc trim v ≡ ok r → IsReport r
  unfolding read_report
  read_report-IsReport v h = >>=-ok (get "schemaVersion" v) _ h λ version e₀ h₀.
      guard-ok (is_one version) unsupported_version _ h₀ λ e₁ h₁.
        >>=-ok (get "reproductionSteps" v) _ h₁ λ steps e₂ h₂.
          >>=-ok (has_no_length steps) _ h₂ λ empty e₃ h₃.
            guard-ok (not empty) no_steps _ h₃ λ e₄ h₄.
              >>=-ok (text_at nfc trim "affectedAsset" v) _ h₄ λ affected_asset e₅ h₅.
                >>=-ok (get "attachments" v >>= as_items >>= read_attachments nfc trim) _ h₅
                  λ attachments e₆ h₆. >>=-ok (text_at nfc trim "impact" v) _ h₆ λ impact e₇ h₇.
                    >>=-ok (as_items steps >>= read_steps nfc trim 0) _ h₇
                      λ reproduction_steps e₈ h₈.
                        >>=-ok (get "researcherContact" v >>= optional_text nfc trim) _ h₈
                          λ researcher_contact e₉ h₉.
                            >>=-ok (get "suggestedRemediation" v >>= optional_text nfc trim) _ h₉
                              λ suggested_remediation eₐ hₐ.
                                >>=-ok (text_at nfc trim "summary" v) _ hₐ λ summary eᵦ hᵦ.
                                  >>=-ok (text_at nfc trim "title" v) _ hᵦ λ title eᵧ hᵧ.
                                    >>=-ok (text_at nfc trim "weakness" v) _ hᵧ λ weakness eₓ hₓ.
                                      subst IsReport (ok-injective hₓ) (record {
                                        title_line = text_at-IsLine nfc trim laws "title" v eᵧ;
                                        summary_line = text_at-IsLine nfc trim laws "summary" v eᵦ;
                                        affected_asset_line =
                                            text_at-IsLine nfc trim laws "affectedAsset" v e₅;
                                        weakness_line =
                                            text_at-IsLine nfc trim laws "weakness" v eₓ;
                                        steps_some = steps_some_of steps empty e₃ e₄ e₈;
                                        steps_lines = steps_lines_of steps e₈;
                                        impact_line = text_at-IsLine nfc trim laws "impact" v e₇;
                                        suggested_remediation_loose =
                                            get-Loose "suggestedRemediation" v eₐ;
                                        attachments_whole = attachments_of v e₆;
                                        researcher_contact_loose =
                                            get-Loose "researcherContact" v e₉;
                                      })

  pub IsReport-read_report :
      (r : VulnerabilityReport)
      → IsReport r
      → read_report nfc trim (write_report (settle r)) ≡ ok (settle r)
  unfolding read_report write_report text_at get get_field ◌=ᵇ◌
  IsReport-read_report r h =
      rw
        (
          h.steps_some,
          IsLine-require_text nfc trim laws (named "affectedAsset") r.affected_asset
              h.affected_asset_line,
          IsAttachment-read_attachments nfc trim laws r.attachments h.attachments_whole,
          IsLine-require_text nfc trim laws (named "impact") r.impact h.impact_line,
          IsLine-read_steps nfc trim laws 0 r.reproduction_steps h.steps_lines,
          h.researcher_contact_loose.1,
          h.researcher_contact_loose.0,
          h.suggested_remediation_loose.1,
          h.suggested_remediation_loose.0,
          IsLine-require_text nfc trim laws (named "summary") r.summary h.summary_line,
          IsLine-require_text nfc trim laws (named "title") r.title h.title_line,
          IsLine-require_text nfc trim laws (named "weakness") r.weakness h.weakness_line,
        )
        refl
