-- ===== src/Web/Commitments/Mirror.antt =====
-- web/src/patch-comparison.ts and web/src/submission-receipt.ts: the commitments are the contract's.
use vulnseal.Prelude.{
  ◌≡◌, refl, sym, ap, ◌∙◌, arith, ◌||◌, Bytes, All, length, ◌=ᵇ◌, lookup, lookup-insert_self, some,
  ok, >>=-ok, guard-ok, bytes_eq-to_eq, ok-injective,
}
use vulnseal.Contract.Types.{
  Hash, Ledger, ReportRecord, ascii, pad32, accepted, retest_failed, ◌=ˢ◌,
}
use vulnseal.Contract.Witnesses.{PrivateState, PatchEvidence, bytes32, patch_evidence}
use vulnseal.Contract.Effects.{store_report-inv}
use vulnseal.Contract.Circuits.{
  derive_patch_commitment, derive_submission_receipt, assert_vendor, load_report, store_report,
  anchor_patch,
}
use vulnseal.Shared.Hex.{Text, IsByte, bytes_to_hex, assert_bytes32}
use vulnseal.Shared.Hex.RoundTrip.{
  all_hex-bytes_to_hex, length-bytes_to_hex, hex_to_bytes-bytes_to_hex,
}
use vulnseal.Shared.Crypto.{Platform}
use vulnseal.Cipherstore.Upload.{set_bytes}
use vulnseal.Web.Commitments.{saved_patch_commitment, submission_receipt}

patch_evidence_lem :
    (p : PrivateState) {evidence : PrivateState × PatchEvidence}
    → patch_evidence p ≡ ok evidence
    → (evidence.1 ≡ p.patch) × (length p.patch.report_id ≡ 32)
unfolding patch_evidence bytes32
patch_evidence_lem p e = ground (arith, e)

-- What an anchoring gives out is the commitment of the patch, and stands in the ledger.
anchor_patch_lem :
    (h : Hash) (id : Bytes) (p : PrivateState) (l : Ledger) {patch : Bytes} {l' : Ledger}
    → anchor_patch h id p l ≡ ok (patch, l')
    → (length id ≡ 32)
      × (patch ≡ derive_patch_commitment h id p.patch.patch_digest)
      × ((r : ReportRecord) × (lookup id l'.reports ≡ some r) × (r.patch_commitment ≡ patch))
unfolding anchor_patch
anchor_patch_lem h id p l {patch} {l'} e = >>=-ok (assert_vendor h p l) _ e λ _ owner e₁.
    >>=-ok (load_report id l) _ e₁ λ r found e₂.
      guard-ok ((r.status =ˢ accepted) || (r.status =ˢ retest_failed)) _ _ e₂ λ state e₃.
        >>=-ok (patch_evidence p) _ e₃ λ evidence read e₄.
          guard-ok (evidence.1.report_id =ᵇ id) _ _ e₄ λ bound e₅.
            >>=-ok (store_report id _ l) _ e₅ λ m wrote e₆.
              let (is_patch, long) = patch_evidence_lem p read in
              let (kept, _) = store_report-inv id _ l wrote in
              let pair = ok-injective e₆ in
              let same =
                sym (ap (λ (v : PatchEvidence). v.report_id) is_patch) ∙ bytes_eq-to_eq _ _ bound in
              (
                ap length (sym same) ∙ long,
                sym (ap (λ (x : Bytes × Ledger). x.0) pair)
                    ∙ ap
                        (λ (v : PatchEvidence).
                          derive_patch_commitment h v.report_id v.patch_digest)
                        is_patch
                    ∙ ap (λ i. derive_patch_commitment h i p.patch.patch_digest) same,
                (
                  _,
                  ap (λ (k : Ledger). lookup id k.reports)
                        (sym (ap (λ (x : Bytes × Ledger). x.1) pair) ∙ kept)
                      ∙ lookup-insert_self id _ l.reports,
                  ap (λ (x : Bytes × Ledger). x.0) pair,
                ),
              )

module _ (platform : Platform) (h : Hash) where
  saved_patch_commitment_lem :
      (id : Bytes) (text : Text)
      → platform.utf8 (ascii "vulnseal:patch:v1") ≡ ascii "vulnseal:patch:v1"
      → All IsByte id
      → length id ≡ 32
      → saved_patch_commitment platform h (bytes_to_hex id) text
        ≡ ok (bytes_to_hex (derive_patch_commitment h id (platform.sha256 (platform.utf8 text))))
  unfolding saved_patch_commitment set_bytes derive_patch_commitment pad32
  saved_patch_commitment_lem id text ascii_utf8 bytes long =
      rw
        (
          all_hex-bytes_to_hex id bytes,
          length-bytes_to_hex id,
          long,
          hex_to_bytes-bytes_to_hex id bytes,
          ascii_utf8,
        )
        refl

  pub submission_receipt_lem :
      (commitment encrypted researcher : Bytes)
      → platform.utf8 (ascii "vulnseal:submission:v1") ≡ ascii "vulnseal:submission:v1"
      → length commitment ≡ 32
      → length encrypted ≡ 32
      → length researcher ≡ 32
      → submission_receipt platform h commitment encrypted researcher
        ≡ ok (derive_submission_receipt h commitment encrypted researcher)
  unfolding submission_receipt set_bytes derive_submission_receipt pad32 assert_bytes32
  submission_receipt_lem commitment encrypted researcher ascii_utf8 a b c =
      rw (a, b, c, ascii_utf8) refl

  -- When a vendor anchored the digest of a patch, the text of that patch compares equal: the
  -- commitment of the text and the report is the one that the contract gave out, and that stands
  -- in the ledger.
  pub saved_patch_commitment-anchor_patch :
      (id : Bytes) (text : Text) (p : PrivateState) (l : Ledger) {patch : Bytes} {l' : Ledger}
      → platform.utf8 (ascii "vulnseal:patch:v1") ≡ ascii "vulnseal:patch:v1"
      → All IsByte id
      → p.patch.patch_digest ≡ platform.sha256 (platform.utf8 text)
      → anchor_patch h id p l ≡ ok (patch, l')
      → (saved_patch_commitment platform h (bytes_to_hex id) text ≡ ok (bytes_to_hex patch))
        × ((r : ReportRecord) × (lookup id l'.reports ≡ some r) × (r.patch_commitment ≡ patch))
  saved_patch_commitment-anchor_patch id text p l ascii_utf8 bytes digest e =
      let (long, same, stands) = anchor_patch_lem h id p l e in
      (
        saved_patch_commitment_lem id text ascii_utf8 bytes long
            ∙ ap (λ d. ok (bytes_to_hex (derive_patch_commitment h id d))) (sym digest)
            ∙ ap (λ d. ok (bytes_to_hex d)) (sym same),
        stands,
      )
