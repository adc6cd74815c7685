-- ===== src/Contract/Progress.antt =====
-- When the circuits of vulnseal.compact succeed: nothing but the checks of the source stands in
-- the way of a caller with the right secrets.
use vulnseal.Prelude.{
  ℕ, ◌+◌, ◌<◌, ◌≤◌, ◌≡◌, ◌⊎◌, Bool, true, false, none, some, arith, Bytes, bytes_eq_iff, lookup,
  length, insert, member, ok, if◌then◌else◌,
}
use vulnseal.Contract.Types.{
  Hash, committed, triaged, accepted, patch_ready, retest_passed, retest_failed, payout_authorized,
  closed, ReportRecord, Ledger, zero32, rejected,
}
use vulnseal.Contract.Witnesses.{PrivateState}
use vulnseal.Contract.Circuits.{
  uint64_mod, load_report, bump_sequence, submit_report, begin_triage, accept_report, anchor_patch,
  submit_retest, authorize_payout, close_report, reject_report, derive_patch_commitment,
  derive_retest_commitment, derive_payout_receipt, derive_researcher_key,
}
use vulnseal.Contract.Effects.{
  stored, IsOwner, IsResearcher, Opens, assert_vendor-run, assert_researcher-run, store_report-run,
}
use vulnseal.Contract.Calls.{fresh_record}

load_report-run :
    (id : Bytes) (l : Ledger) (r : ReportRecord)
    → lookup id l.reports ≡ some r
    → load_report id l ≡ ok r
unfolding load_report
load_report-run id l r found = ground arith

module _ (h : Hash) (id : Bytes) (p : PrivateState) (l : Ledger)
    (fits : l.sequence + 1 < uint64_mod) where
  pub submit_report-run :
      (encrypted : Bytes)
      → Opens h p l id
      → length p.actor_secret ≡ 32
      → lookup id l.reports ≡ none
      → submit_report h encrypted p l
        ≡ ok (
          id,
          stored id
              (fresh_record h id encrypted
                (derive_researcher_key h l.program_id id p.actor_secret)
                l.sequence)
              l,
        )
  unfolding submit_report bump_sequence
  submit_report-run encrypted opens known absent =
      ground (arith, bytes_eq_iff p.report.program_id l.program_id)

  module _ (r : ReportRecord) (found : lookup id l.reports ≡ some r) where
    module _ (owner : IsOwner h p l) where
      pub begin_triage-run :
          r.status ≡ committed
          → begin_triage h id p l
            ≡ ok (stored id (record r { status = triaged; updated_sequence = l.sequence }) l)
      unfolding begin_triage
      begin_triage-run s =
          rw (assert_vendor-run h p l owner, load_report-run id l r found, s)
            (store_report-run id _ l fits)

      pub accept_report-run :
          (severity : ℕ) (decision : Bytes)
          → 0 < severity
          → severity ≤ 4
          → r.status ≡ triaged
          → accept_report h id severity decision p l
            ≡ ok (
                stored id
                  (record r {
                    status = accepted;
                    severity = severity;
                    decision_digest = decision;
                    updated_sequence = l.sequence;
                  })
                  l)
      unfolding accept_report
      accept_report-run severity decision low high s =
          ground (arith, assert_vendor-run h p l owner, load_report-run id l r found)

      pub anchor_patch-run :
          (r.status ≡ accepted) ⊎ (r.status ≡ retest_failed)
          → p.patch.report_id ≡ id
          → length id ≡ 32
          → length p.patch.patch_digest ≡ 32
          → anchor_patch h id p l
            ≡ ok (
              derive_patch_commitment h id p.patch.patch_digest,
              stored id
                  (record r {
                    status = patch_ready;
                    patch_commitment = derive_patch_commitment h id p.patch.patch_digest;
                    retest_commitment = zero32;
                    retest_flag = false;
                    updated_sequence = l.sequence;
                  })
                  l,
            )
      unfolding anchor_patch
      anchor_patch-run s same long digest = ground (
        arith,
        assert_vendor-run h p l owner,
        load_report-run id l r found,
        bytes_eq_iff p.patch.report_id id,
      )

      pub authorize_payout-run :
          (tier : ℕ)
          → 0 < tier
          → tier ≤ 4
          → r.status ≡ retest_passed
          → r.retest_flag ≡ true
          → member
              (derive_payout_receipt h id r.patch_commitment r.retest_commitment tier)
              l.payout_receipts
            ≡ false
          → authorize_payout h id tier p l
            ≡ ok (
              derive_payout_receipt h id r.patch_commitment r.retest_commitment tier,
              stored id
                  (record r {
                    status = payout_authorized;
                    payout_receipt =
                        derive_payout_receipt h id r.patch_commitment r.retest_commitment tier;
                    reward_tier = tier;
                    updated_sequence = l.sequence;
                  })
                  (record l {
                    payout_receipts =
                        insert
                          (derive_payout_receipt h id r.patch_commitment r.retest_commitment tier)
                          tt
                          l.payout_receipts;
                  }),
            )
      unfolding authorize_payout
      authorize_payout-run tier low high s flag unused =
          ground (arith, assert_vendor-run h p l owner, load_report-run id l r found)

      pub close_report-run :
          (r.status ≡ rejected) ⊎ (r.status ≡ payout_authorized)
          → close_report h id p l
            ≡ ok (stored id (record r { status = closed; updated_sequence = l.sequence }) l)
      unfolding close_report
      close_report-run s =
          ground (arith, assert_vendor-run h p l owner, load_report-run id l r found)

      pub reject_report-run :
          (decision : Bytes)
          → r.status ≡ triaged
          → reject_report h id decision p l
            ≡ ok (
                stored id
                  (record r {
                    status = rejected;
                    severity = 0;
                    decision_digest = decision;
                    retest_flag = false;
                    reward_tier = 0;
                    updated_sequence = l.sequence;
                  })
                  l)
      unfolding reject_report
      reject_report-run decision s =
          ground (arith, assert_vendor-run h p l owner, load_report-run id l r found)

    pub submit_retest-run :
        (passed : Bool)
        → r.status ≡ patch_ready
        → IsResearcher h p l id r
        → p.retest.report_id ≡ id
        → length id ≡ 32
        → p.retest.patch_commitment ≡ r.patch_commitment
        → length r.patch_commitment ≡ 32
        → length p.retest.evidence_digest ≡ 32
        → submit_retest h id passed p l
          ≡ ok (
            derive_retest_commitment h id p.retest.patch_commitment p.retest.evidence_digest passed,
            stored id
                (record r {
                  status = (if passed then retest_passed else retest_failed);
                  retest_commitment =
                      derive_retest_commitment h id p.retest.patch_commitment
                        p.retest.evidence_digest passed;
                  retest_flag = passed;
                  updated_sequence = l.sequence;
                })
                l,
          )
    unfolding submit_retest
    submit_retest-run passed s who same long current patched evidence = ground (
      arith,
      assert_researcher-run h p l id r who,
      load_report-run id l r found,
      bytes_eq_iff p.retest.report_id id,
      bytes_eq_iff p.retest.patch_commitment r.patch_commitment,
    )
