-- ===== src/Contract/Refinement.antt =====
-- Every circuit of vulnseal.compact implements the abstract life of a report: it succeeds only for
-- a caller with the right secrets, and then changes one record along one edge.
use vulnseal.Prelude.{◌≡◌, refl, some, Bytes, lookup, Result, ok, err}
use vulnseal.Contract.Types.{Hash, ReportRecord, Ledger, Error}
use vulnseal.Contract.Witnesses.{PrivateState}
use vulnseal.Contract.Circuits
use vulnseal.Contract.Circuits.{derive_report_commitment}
use vulnseal.Contract.Effects.{IsOwner, IsResearcher, Opens}
use vulnseal.Contract.Inversion.{
  submit_report-inv, begin_triage-inv, accept_report-inv, reject_report-inv, anchor_patch-inv,
  submit_retest-inv, authorize_payout-inv, close_report-inv,
}
use vulnseal.Contract.Calls.{
  Call, submit_report, begin_triage, accept_report, reject_report, anchor_patch, submit_retest,
  authorize_payout, close_report, run, ledger_of, Transition, create,
}

-- What a caller must hold for each transaction: the secret of the owner's key for the vendor's six,
-- the preimage and the secret of the report's researcher key for a retest, and a preimage that
-- names this program for a submission.
abbrev pub Authorized : Hash → Call → PrivateState → Ledger → Type 0
Authorized h (submit_report encrypted) p l =
    Opens h p l
      (derive_report_commitment h p.report.program_id p.report.canonical_digest p.report.salt)
Authorized h (submit_retest id passed) p l =
    (r : ReportRecord) × (lookup id l.reports ≡ some r) × IsResearcher h p l id r
Authorized h _ p l = IsOwner h p l

ledger_of-ok :
    (m : Result Error (Bytes × Ledger)) {l : Ledger}
    → ledger_of m ≡ ok l
    → (value : Bytes) × (m ≡ ok (value, l))
ledger_of-ok (ok (value, n)) e = (value, cc)
ledger_of-ok (err x) e = cc

submit_report_sound :
    (h : Hash) (encrypted : Bytes) (p : PrivateState) (l : Ledger) {l' : Ledger} (id : Bytes)
    → Circuits.submit_report h encrypted p l ≡ ok (id, l')
    → Authorized h (submit_report encrypted) p l × Transition h l l'
submit_report_sound h encrypted p l id e =
    let (opens, known, absent, fits, same) = submit_report-inv h encrypted p l id e in
    ((opens.0, opens.1, opens.2, opens.3, refl), create id encrypted _ absent fits same)

-- A transaction that succeeds was sent by a caller with the authority that it wants, and made one
-- transition of the abstract life of reports.
pub run_sound :
    (h : Hash) (c : Call) (p : PrivateState) (l l' : Ledger)
    → run h c p l ≡ ok l'
    → Authorized h c p l × Transition h l l'
unfolding run
run_sound h (submit_report encrypted) p l l' e =
    let (id, e') = ledger_of-ok _ e in submit_report_sound h encrypted p l id e'
run_sound h (begin_triage id) p l l' e = begin_triage-inv h id p l e
run_sound h (accept_report id severity decision) p l l' e =
    accept_report-inv h id p l severity decision e
run_sound h (reject_report id decision) p l l' e = reject_report-inv h id p l decision e
run_sound h (anchor_patch id) p l l' e =
    let (value, e') = ledger_of-ok _ e in anchor_patch-inv h id p l value e'
run_sound h (submit_retest id passed) p l l' e =
    let (value, e') = ledger_of-ok _ e in submit_retest-inv h id p l passed value e'
run_sound h (authorize_payout id tier) p l l' e =
    let (value, e') = ledger_of-ok _ e in authorize_payout-inv h id p l tier value e'
run_sound h (close_report id) p l l' e = close_report-inv h id p l e
