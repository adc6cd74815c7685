-- ===== src/Contract/Circuits.antt =====
-- The circuits of contract/src/vulnseal.compact, one function each. A circuit takes the private
-- state that its witnesses read and the ledger, and returns its result and the new ledger, or the
-- assertion that failed; a failed transaction changes nothing.
use vulnseal.Prelude.{
  ℕ, ◌+◌, ◌^◌, Bool, false, not, ◌&&◌, ◌||◌, none, some, [], ◌∷◌, Bytes, ◌=ᵇ◌, ltb, leb,
  if◌then◌else◌, lookup, member, insert, Result, ok, err, ◌>>=◌, ◌>>◌, guard,
}
use vulnseal.Contract.Types.{
  Hash, pad32, committed, triaged, accepted, rejected, patch_ready, retest_passed, retest_failed,
  payout_authorized, closed, ◌=ˢ◌, ReportRecord, Ledger, zero32, Error, not_owner, foreign_program,
  preimage_mismatch, wrong_researcher, report_missing, report_exists, bad_severity, bad_reward_tier,
  wrong_status, foreign_patch_evidence, foreign_retest_evidence, stale_patch, retest_flag_missing,
  receipt_used, sequence_overflow,
}
use vulnseal.Contract.Witnesses.{
  PrivateState, actor_secret, report_preimage, patch_evidence, retest_evidence,
}

-- The values that `Uint<64>` holds.
abbrev pub uint64_mod : ℕ
uint64_mod = 2 ^ 64

-- The constructor's arguments.
pub record ProgramArgs : Type 0 where
  pub program_id : Bytes
  pub scope_digest : Bytes
  pub response_policy_digest : Bytes
  pub response_days : ℕ
  pub reward_policy_digest : Bytes
  pub disclosure_policy_digest : Bytes
  pub disclosure_delay_days : ℕ

-- `reports.lookup` after the `member` assertion.
unfoldable pub load_report : Bytes → Ledger → Result Error ReportRecord
unfolding lookup
load_report id l = elim (lookup id l.reports) [ none ↦ err report_missing | some r ↦ ok r ]

-- `sequence = (sequence + 1) as Uint<64>`; the cast refuses a value that does not fit.
unfoldable pub bump_sequence : Ledger → Result Error Ledger
bump_sequence l =
    if ltb (l.sequence + 1) uint64_mod
    then ok (record l { sequence = l.sequence + 1 })
    else err sequence_overflow

-- `reports.insert(id, record)` and the step of `sequence`, with which every transition ends.
unfoldable pub store_report : Bytes → ReportRecord → Ledger → Result Error Ledger
unfolding bump_sequence insert
store_report id r l = bump_sequence (record l { reports = insert id r l.reports })

module _ (h : Hash) where
  unfoldable pub derive_vendor_key : Bytes → Bytes → Bytes
  derive_vendor_key program secret = h.vec (pad32 "vulnseal:vendor-key:v1" ∷ program ∷ secret ∷ [])

  unfoldable pub derive_report_commitment : Bytes → Bytes → Bytes → Bytes
  derive_report_commitment program digest salt =
      h.vec (pad32 "vulnseal:report:v1" ∷ digest ∷ salt ∷ program ∷ [])

  unfoldable pub derive_researcher_key : Bytes → Bytes → Bytes → Bytes
  derive_researcher_key program commitment secret =
      h.vec (pad32 "vulnseal:researcher-key:v1" ∷ program ∷ commitment ∷ secret ∷ [])

  unfoldable pub derive_submission_receipt : Bytes → Bytes → Bytes → Bytes
  derive_submission_receipt commitment encrypted researcher =
      h.vec (pad32 "vulnseal:submission:v1" ∷ commitment ∷ encrypted ∷ researcher ∷ [])

  unfoldable pub derive_patch_commitment : Bytes → Bytes → Bytes
  derive_patch_commitment commitment patch_digest =
      h.vec (pad32 "vulnseal:patch:v1" ∷ commitment ∷ patch_digest ∷ [])

  unfoldable pub derive_retest_commitment : Bytes → Bytes → Bytes → Bool → Bytes
  derive_retest_commitment commitment patch evidence passed =
      h.vec (pad32 "vulnseal:retest:v1" ∷ commitment ∷ patch ∷ evidence ∷ h.bool passed ∷ [])

  unfoldable pub derive_payout_receipt : Bytes → Bytes → Bytes → ℕ → Bytes
  derive_payout_receipt commitment patch retest tier =
      h.vec (pad32 "vulnseal:payout-auth:v1" ∷ commitment ∷ patch ∷ retest ∷ h.uint8 tier ∷ [])

  unfoldable pub initialize : ProgramArgs → PrivateState → Result Error Ledger
  unfolding actor_secret derive_vendor_key
  initialize a p = do
    secret ← actor_secret p
    ok (record {
      program_id = a.program_id;
      owner_key = derive_vendor_key a.program_id secret.1;
      scope_digest = a.scope_digest;
      response_policy_digest = a.response_policy_digest;
      response_days = a.response_days;
      reward_policy_digest = a.reward_policy_digest;
      disclosure_policy_digest = a.disclosure_policy_digest;
      disclosure_delay_days = a.disclosure_delay_days;
      sequence = 1;
      reports = [];
      payout_receipts = [];
    })

  unfoldable pub assert_vendor : PrivateState → Ledger → Result Error (Unit {0})
  unfolding actor_secret
  assert_vendor p l = do
    secret ← actor_secret p
    guard (l.owner_key =ᵇ derive_vendor_key l.program_id secret.1) not_owner

  unfoldable pub assert_researcher :
      PrivateState → Ledger → Bytes → ReportRecord → Result Error (Unit {0})
  unfolding actor_secret report_preimage
  assert_researcher p l id report = do
    preimage ← report_preimage p
    guard (preimage.1.program_id =ᵇ l.program_id) foreign_program
    guard
        (derive_report_commitment preimage.1.program_id preimage.1.canonical_digest preimage.1.salt
          =ᵇ id)
        preimage_mismatch
    secret ← actor_secret p
    guard (report.researcher_key =ᵇ derive_researcher_key l.program_id id secret.1) wrong_researcher

  unfoldable pub submit_report : Bytes → PrivateState → Ledger → Result Error (Bytes × Ledger)
  unfolding store_report lookup actor_secret report_preimage
  submit_report encrypted p l = do
    preimage ← report_preimage p
    guard (preimage.1.program_id =ᵇ l.program_id) foreign_program
    let id =
        derive_report_commitment preimage.1.program_id preimage.1.canonical_digest preimage.1.salt
    guard (not (member id l.reports)) report_exists
    secret ← actor_secret p
    let researcher = derive_researcher_key l.program_id id secret.1
    l' ←
        store_report id
          (record {
            commitment = id;
            ciphertext_digest = encrypted;
            researcher_key = researcher;
            submission_receipt = derive_submission_receipt id encrypted researcher;
            status = committed;
            severity = 0;
            decision_digest = zero32;
            patch_commitment = zero32;
            retest_commitment = zero32;
            retest_flag = false;
            payout_receipt = zero32;
            reward_tier = 0;
            created_sequence = l.sequence;
            updated_sequence = l.sequence;
          })
          l
    ok (id, l')

  unfoldable pub begin_triage : Bytes → PrivateState → Ledger → Result Error Ledger
  unfolding assert_vendor load_report store_report
  begin_triage id p l = do
    assert_vendor p l
    report ← load_report id l
    guard (report.status =ˢ committed) wrong_status
    store_report id (record report { status = triaged; updated_sequence = l.sequence }) l

  unfoldable pub accept_report : Bytes → ℕ → Bytes → PrivateState → Ledger → Result Error Ledger
  unfolding assert_vendor load_report store_report
  accept_report id severity decision p l = do
    assert_vendor p l
    guard (ltb 0 severity && leb severity 4) bad_severity
    report ← load_report id l
    guard (report.status =ˢ triaged) wrong_status
    store_report id
        (record report {
          status = accepted;
          severity = severity;
          decision_digest = decision;
          updated_sequence = l.sequence;
        })
        l

  unfoldable pub reject_report : Bytes → Bytes → PrivateState → Ledger → Result Error Ledger
  unfolding assert_vendor load_report store_report
  reject_report id decision p l = do
    assert_vendor p l
    report ← load_report id l
    guard (report.status =ˢ triaged) wrong_status
    store_report id
        (record report {
          status = rejected;
          severity = 0;
          decision_digest = decision;
          retest_flag = false;
          reward_tier = 0;
          updated_sequence = l.sequence;
        })
        l

  unfoldable pub anchor_patch : Bytes → PrivateState → Ledger → Result Error (Bytes × Ledger)
  unfolding assert_vendor load_report store_report patch_evidence
  anchor_patch id p l = do
    assert_vendor p l
    report ← load_report id l
    guard ((report.status =ˢ accepted) || (report.status =ˢ retest_failed)) wrong_status
    evidence ← patch_evidence p
    guard (evidence.1.report_id =ᵇ id) foreign_patch_evidence
    let patch = derive_patch_commitment evidence.1.report_id evidence.1.patch_digest
    l' ←
        store_report id
          (record report {
            status = patch_ready;
            patch_commitment = patch;
            retest_commitment = zero32;
            retest_flag = false;
            updated_sequence = l.sequence;
          })
          l
    ok (patch, l')

  unfoldable pub submit_retest :
      Bytes → Bool → PrivateState → Ledger → Result Error (Bytes × Ledger)
  unfolding assert_researcher load_report store_report retest_evidence
  submit_retest id passed p l = do
    report ← load_report id l
    guard (report.status =ˢ patch_ready) wrong_status
    assert_researcher p l id report
    evidence ← retest_evidence p
    guard (evidence.1.report_id =ᵇ id) foreign_retest_evidence
    guard (evidence.1.patch_commitment =ᵇ report.patch_commitment) stale_patch
    let retest =
        derive_retest_commitment id evidence.1.patch_commitment evidence.1.evidence_digest passed
    l' ←
        store_report id
          (record report {
            status = (if passed then retest_passed else retest_failed);
            retest_commitment = retest;
            retest_flag = passed;
            updated_sequence = l.sequence;
          })
          l
    ok (retest, l')

  unfoldable pub authorize_payout :
      Bytes → ℕ → PrivateState → Ledger → Result Error (Bytes × Ledger)
  unfolding assert_vendor load_report store_report lookup insert
  authorize_payout id tier p l = do
    assert_vendor p l
    guard (ltb 0 tier && leb tier 4) bad_reward_tier
    report ← load_report id l
    guard (report.status =ˢ retest_passed) wrong_status
    guard report.retest_flag retest_flag_missing
    let receipt = derive_payout_receipt id report.patch_commitment report.retest_commitment tier
    guard (not (member receipt l.payout_receipts)) receipt_used
    l' ←
        store_report id
          (record report {
            status = payout_authorized;
            payout_receipt = receipt;
            reward_tier = tier;
            updated_sequence = l.sequence;
          })
          (record l { payout_receipts = insert receipt tt l.payout_receipts })
    ok (receipt, l')

  unfoldable pub close_report : Bytes → PrivateState → Ledger → Result Error Ledger
  unfolding assert_vendor load_report store_report
  close_report id p l = do
    assert_vendor p l
    report ← load_report id l
    guard ((report.status =ˢ rejected) || (report.status =ˢ payout_authorized)) wrong_status
    store_report id (record report { status = closed; updated_sequence = l.sequence }) l
