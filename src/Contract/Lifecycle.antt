-- ===== src/Contract/Lifecycle.antt =====
-- The whole life of a report, as the lifecycle scripts of integration/src run it: seven
-- transactions in a row, from the sealed submission to the closed report.
use vulnseal.Prelude.{
  ℕ, ◌+◌, ◌<◌, ◌≤◌, ◌≡◌, refl, inl, inr, true, false, none, some, List, [], ◌∷◌, arith, ap, Bytes,
  lookup, insert, lookup-insert_self, length, member, Result, ok, ◌>>=◌,
}
use vulnseal.Contract.Types.{
  Hash, closed, ReportRecord, Ledger, Error, zero32, accepted, triaged, payout_authorized,
  patch_ready, retest_passed,
}
use vulnseal.Contract.Witnesses.{PrivateState}
use vulnseal.Contract.Circuits.{
  uint64_mod, derive_report_commitment, derive_researcher_key, derive_patch_commitment,
  derive_retest_commitment, derive_payout_receipt,
}
use vulnseal.Contract.Effects.{stored, IsOwner, Opens}
use vulnseal.Contract.Calls.{
  Call, submit_report, begin_triage, accept_report, anchor_patch, submit_retest, authorize_payout,
  close_report, run, ledger_of, fresh_record,
}
use vulnseal.Contract.Progress.{
  submit_report-run, begin_triage-run, accept_report-run, anchor_patch-run, submit_retest-run,
  authorize_payout-run, close_report-run,
}

-- Transactions one after the other, each from the ledger that the last one left.
unfoldable pub play : Hash → List (Call × PrivateState) → Ledger → Result Error Ledger
play h [] l = ok l
play h ((c, p) ∷ rest) l = run h c p l >>= play h rest

-- A report and its actors: the researcher's private state for the submission and for the retest,
-- the vendor's with the patch, and the public arguments.
pub record Journey : Type 0 where
  pub hash : Hash
  pub start : Ledger
  pub submitter : PrivateState
  pub vendor : PrivateState
  pub retester : PrivateState
  pub encrypted : Bytes
  pub severity : ℕ
  pub decision : Bytes
  pub tier : ℕ

abbrev pub report_id : Journey → Bytes
report_id j =
    derive_report_commitment j.hash j.submitter.report.program_id
      j.submitter.report.canonical_digest j.submitter.report.salt

abbrev pub patch_of : Journey → Bytes
patch_of j = derive_patch_commitment j.hash (report_id j) j.vendor.patch.patch_digest

abbrev pub retest_of : Journey → Bytes
retest_of j =
    derive_retest_commitment j.hash (report_id j) (patch_of j) j.retester.retest.evidence_digest
      true

abbrev pub receipt_of : Journey → Bytes
receipt_of j = derive_payout_receipt j.hash (report_id j) (patch_of j) (retest_of j) j.tier

abbrev pub journey_calls : Journey → List (Call × PrivateState)
journey_calls j =
    (submit_report j.encrypted, j.submitter)
    ∷ (begin_triage (report_id j), j.vendor)
    ∷ (accept_report (report_id j) j.severity j.decision, j.vendor)
    ∷ (anchor_patch (report_id j), j.vendor)
    ∷ (submit_retest (report_id j) true, j.retester)
    ∷ (authorize_payout (report_id j) j.tier, j.vendor)
    ∷ (close_report (report_id j), j.vendor)
    ∷ []

-- The report's record, and the ledger, after each of the seven.
module _ (j : Journey) where
  abbrev pub record_1 : ReportRecord
  record_1 =
      fresh_record j.hash (report_id j) j.encrypted
        (derive_researcher_key j.hash j.start.program_id (report_id j) j.submitter.actor_secret)
        j.start.sequence

  abbrev pub ledger_1 : Ledger
  ledger_1 = stored (report_id j) record_1 j.start

  abbrev pub record_2 : ReportRecord
  record_2 = record record_1 { status = triaged; updated_sequence = ledger_1.sequence }

  abbrev pub ledger_2 : Ledger
  ledger_2 = stored (report_id j) record_2 ledger_1

  abbrev pub record_3 : ReportRecord
  record_3 = record record_2 {
    status = accepted;
    severity = j.severity;
    decision_digest = j.decision;
    updated_sequence = ledger_2.sequence;
  }

  abbrev pub ledger_3 : Ledger
  ledger_3 = stored (report_id j) record_3 ledger_2

  abbrev pub record_4 : ReportRecord
  record_4 = record record_3 {
    status = patch_ready;
    patch_commitment = patch_of j;
    retest_commitment = zero32;
    retest_flag = false;
    updated_sequence = ledger_3.sequence;
  }

  abbrev pub ledger_4 : Ledger
  ledger_4 = stored (report_id j) record_4 ledger_3

  abbrev pub record_5 : ReportRecord
  record_5 = record record_4 {
    status = retest_passed;
    retest_commitment =
        derive_retest_commitment j.hash (report_id j) j.retester.retest.patch_commitment
          j.retester.retest.evidence_digest true;
    retest_flag = true;
    updated_sequence = ledger_4.sequence;
  }

  abbrev pub ledger_5 : Ledger
  ledger_5 = stored (report_id j) record_5 ledger_4

  abbrev pub receipt_5 : Bytes
  receipt_5 =
      derive_payout_receipt j.hash (report_id j) record_5.patch_commitment
        record_5.retest_commitment j.tier

  abbrev pub record_6 : ReportRecord
  record_6 = record record_5 {
    status = payout_authorized;
    payout_receipt = receipt_5;
    reward_tier = j.tier;
    updated_sequence = ledger_5.sequence;
  }

  abbrev pub ledger_6 : Ledger
  ledger_6 =
      stored (report_id j) record_6
        (record ledger_5 { payout_receipts = insert receipt_5 tt ledger_5.payout_receipts })

  abbrev pub record_7 : ReportRecord
  record_7 = record record_6 { status = closed; updated_sequence = ledger_6.sequence }

  abbrev pub ledger_7 : Ledger
  ledger_7 = stored (report_id j) record_7 ledger_6

-- What the actors must have prepared.
pub record IsPrepared (j : Journey) : Type 0 where
  pub opens : Opens j.hash j.submitter j.start (report_id j)
  pub known : length j.submitter.actor_secret ≡ 32
  pub absent : lookup (report_id j) j.start.reports ≡ none
  pub owner : IsOwner j.hash j.vendor j.start
  pub severity_low : 0 < j.severity
  pub severity_high : j.severity ≤ 4
  pub tier_low : 0 < j.tier
  pub tier_high : j.tier ≤ 4
  pub patched : j.vendor.patch.report_id ≡ report_id j
  pub patch_length : length j.vendor.patch.patch_digest ≡ 32
  pub same_secret : j.retester.actor_secret ≡ j.submitter.actor_secret
  pub same_report : j.retester.report ≡ j.submitter.report
  pub retested : j.retester.retest.report_id ≡ report_id j
  pub retest_patch : j.retester.retest.patch_commitment ≡ patch_of j
  pub evidence_length : length j.retester.retest.evidence_digest ≡ 32
  pub unused : member (receipt_of j) j.start.payout_receipts ≡ false
  pub fits : j.start.sequence + 7 < uint64_mod

report_id-length : (j : Journey) → length (report_id j) ≡ 32
unfolding derive_report_commitment
report_id-length j = j.hash.vec_length _

patch_of-length : (j : Journey) → length (patch_of j) ≡ 32
unfolding derive_patch_commitment
patch_of-length j = j.hash.vec_length _

module _ (j : Journey) (v : IsPrepared j) where
  same_retest : (record_5 j).retest_commitment ≡ retest_of j
  same_retest = rw v.retest_patch

  pub step_1 : run j.hash (submit_report j.encrypted) j.submitter j.start ≡ ok (ledger_1 j)
  unfolding run
  step_1 = ap ledger_of (
      submit_report-run j.hash (report_id j) j.submitter j.start (omega (arith, v.fits)) j.encrypted
        v.opens v.known v.absent)

  pub step_2 : run j.hash (begin_triage (report_id j)) j.vendor (ledger_1 j) ≡ ok (ledger_2 j)
  unfolding run
  step_2 =
      begin_triage-run j.hash (report_id j) j.vendor (ledger_1 j) (omega (arith, v.fits))
        (record_1 j) (lookup-insert_self _ _ _) v.owner refl

  pub step_3 :
      run j.hash (accept_report (report_id j) j.severity j.decision) j.vendor (ledger_2 j)
      ≡ ok (ledger_3 j)
  unfolding run
  step_3 =
      accept_report-run j.hash (report_id j) j.vendor (ledger_2 j) (omega (arith, v.fits))
        (record_2 j) (lookup-insert_self _ _ _) v.owner j.severity j.decision v.severity_low
        v.severity_high refl

  pub step_4 : run j.hash (anchor_patch (report_id j)) j.vendor (ledger_3 j) ≡ ok (ledger_4 j)
  unfolding run
  step_4 = ap ledger_of (
      anchor_patch-run j.hash (report_id j) j.vendor (ledger_3 j) (omega (arith, v.fits))
        (record_3 j) (lookup-insert_self _ _ _) v.owner (inl refl) v.patched (report_id-length j)
        v.patch_length)

  pub step_5 :
      run j.hash (submit_retest (report_id j) true) j.retester (ledger_4 j) ≡ ok (ledger_5 j)
  unfolding run
  step_5 = ap ledger_of (
      submit_retest-run j.hash (report_id j) j.retester (ledger_4 j) (omega (arith, v.fits))
        (record_4 j) (lookup-insert_self _ _ _) true refl
        (rw (v.same_report, v.same_secret) (v.opens, v.known, refl)) v.retested (report_id-length j)
        v.retest_patch (patch_of-length j) v.evidence_length)

  pub step_6 :
      run j.hash (authorize_payout (report_id j) j.tier) j.vendor (ledger_5 j) ≡ ok (ledger_6 j)
  unfolding run
  step_6 = ap ledger_of (
      authorize_payout-run j.hash (report_id j) j.vendor (ledger_5 j) (omega (arith, v.fits))
        (record_5 j) (lookup-insert_self _ _ _) v.owner j.tier v.tier_low v.tier_high refl refl
        (rw v.retest_patch v.unused))

  pub step_7 : run j.hash (close_report (report_id j)) j.vendor (ledger_6 j) ≡ ok (ledger_7 j)
  unfolding run
  step_7 =
      close_report-run j.hash (report_id j) j.vendor (ledger_6 j) (omega (arith, v.fits))
        (record_6 j) (lookup-insert_self _ _ _) v.owner (inr refl)

journey_played :
    (j : Journey) → IsPrepared j → play j.hash (journey_calls j) j.start ≡ ok (ledger_7 j)
unfolding play
journey_played j v =
    rw (step_1 j v, step_2 j v, step_3 j v, step_4 j v, step_5 j v, step_6 j v, step_7 j v)

-- If the actors have prepared what they need, all seven transactions succeed one after the other,
-- and leave the report closed, judged at the chosen severity, with the patch, the passing retest
-- of that patch, and the payout receipt for the chosen tier, which the set of receipts holds.
pub journey_ends :
    (j : Journey)
    → IsPrepared j
    → (m : Ledger) × (r : ReportRecord) × (play j.hash (journey_calls j) j.start ≡ ok m)
      × (lookup (report_id j) m.reports ≡ some r)
      × (r.status ≡ closed)
      × (r.severity ≡ j.severity)
      × (r.patch_commitment ≡ patch_of j)
      × (r.retest_commitment ≡ retest_of j)
      × (r.retest_flag ≡ true)
      × (r.reward_tier ≡ j.tier)
      × (r.payout_receipt ≡ receipt_of j)
      × (member (receipt_of j) m.payout_receipts ≡ true)
      × (m.sequence ≡ j.start.sequence + 7)
journey_ends j v = (
  ledger_7 j,
  record_7 j,
  journey_played j v,
  lookup-insert_self _ _ _,
  refl,
  refl,
  refl,
  same_retest j v,
  refl,
  refl,
  rw v.retest_patch,
  rw (v.retest_patch, lookup-insert_self),
  omega arith,
)
