-- ===== src/Contract/Calls.antt =====
-- A transaction of vulnseal.compact as data: one constructor for each exported circuit, with the
-- circuit's public arguments, and the abstract life of one report that the circuits implement.
use vulnseal.Prelude.{
  ℕ, ◌+◌, ◌<◌, ◌≤◌, ◌≡◌, ◌⊎◌, Bool, false, none, some, Bytes, Dict, lookup, member, insert, Result,
  ok, ◌>>=◌, if◌then◌else◌,
}
use vulnseal.Contract.Types.{
  Hash, committed, triaged, accepted, rejected, patch_ready, retest_passed, retest_failed,
  payout_authorized, closed, ReportRecord, Ledger, zero32, Error,
}
use vulnseal.Contract.Witnesses.{PrivateState}
use vulnseal.Contract.Circuits
use vulnseal.Contract.Circuits.{
  ProgramArgs, uint64_mod, derive_patch_commitment, derive_retest_commitment, derive_payout_receipt,
  derive_researcher_key, derive_submission_receipt, initialize,
}
use vulnseal.Contract.Effects.{stored}

pub data Call : Type 0 where
  submit_report : (encrypted : Bytes) → Call
  begin_triage : (id : Bytes) → Call
  accept_report : (id : Bytes) (severity : ℕ) (decision : Bytes) → Call
  reject_report : (id : Bytes) (decision : Bytes) → Call
  anchor_patch : (id : Bytes) → Call
  submit_retest : (id : Bytes) (passed : Bool) → Call
  authorize_payout : (id : Bytes) (tier : ℕ) → Call
  close_report : (id : Bytes) → Call

-- The ledger after a circuit that also returns a value.
abbrev pub ledger_of : Result Error (Bytes × Ledger) → Result Error Ledger
ledger_of m = do x ← m; ok x.1

-- The circuit that a transaction names, applied to its caller's private state.
unfoldable pub run : Hash → Call → PrivateState → Ledger → Result Error Ledger
run h (submit_report encrypted) p l = ledger_of (Circuits.submit_report h encrypted p l)
run h (begin_triage id) p l = Circuits.begin_triage h id p l
run h (accept_report id severity decision) p l = Circuits.accept_report h id severity decision p l
run h (reject_report id decision) p l = Circuits.reject_report h id decision p l
run h (anchor_patch id) p l = ledger_of (Circuits.anchor_patch h id p l)
run h (submit_retest id passed) p l = ledger_of (Circuits.submit_retest h id passed p l)
run h (authorize_payout id tier) p l = ledger_of (Circuits.authorize_payout h id tier p l)
run h (close_report id) p l = Circuits.close_report h id p l

-- The life of one report: from the record `r` to the record `r'`, at the sequence number `now`.
pub data Edge (h : Hash) (id : Bytes) (now : ℕ) (r r' : ReportRecord) : Type 0 where
  triage :
      r.status ≡ committed
      → r' ≡ record r { status = triaged; updated_sequence = now }
      → Edge h id now r r'
  accept :
      (severity : ℕ) (decision : Bytes)
      → r.status ≡ triaged
      → 0 < severity
      → severity ≤ 4
      → r' ≡ record r {
        status = accepted;
        severity = severity;
        decision_digest = decision;
        updated_sequence = now;
      }
      → Edge h id now r r'
  reject :
      (decision : Bytes)
      → r.status ≡ triaged
      → r' ≡ record r {
        status = rejected;
        severity = 0;
        decision_digest = decision;
        retest_flag = false;
        reward_tier = 0;
        updated_sequence = now;
      }
      → Edge h id now r r'
  patch :
      (digest : Bytes)
      → (r.status ≡ accepted) ⊎ (r.status ≡ retest_failed)
      → r' ≡ record r {
        status = patch_ready;
        patch_commitment = derive_patch_commitment h id digest;
        retest_commitment = zero32;
        retest_flag = false;
        updated_sequence = now;
      }
      → Edge h id now r r'
  retest :
      (evidence : Bytes) (passed : Bool)
      → r.status ≡ patch_ready
      → r' ≡ record r {
        status = (if passed then retest_passed else retest_failed);
        retest_commitment = derive_retest_commitment h id r.patch_commitment evidence passed;
        retest_flag = passed;
        updated_sequence = now;
      }
      → Edge h id now r r'
  pay :
      (tier : ℕ)
      → r.status ≡ retest_passed
      → 0 < tier
      → tier ≤ 4
      → r' ≡ record r {
        status = payout_authorized;
        payout_receipt = derive_payout_receipt h id r.patch_commitment r.retest_commitment tier;
        reward_tier = tier;
        updated_sequence = now;
      }
      → Edge h id now r r'
  close :
      (r.status ≡ rejected) ⊎ (r.status ≡ payout_authorized)
      → r' ≡ record r { status = closed; updated_sequence = now }
      → Edge h id now r r'

-- The record that a submission creates.
abbrev pub fresh_record : Hash → Bytes → Bytes → Bytes → ℕ → ReportRecord
fresh_record h id encrypted researcher now = record {
  commitment = id;
  ciphertext_digest = encrypted;
  researcher_key = researcher;
  submission_receipt = derive_submission_receipt h id encrypted researcher;
  status = committed;
  severity = 0;
  decision_digest = zero32;
  patch_commitment = zero32;
  retest_commitment = zero32;
  retest_flag = false;
  payout_receipt = zero32;
  reward_tier = 0;
  created_sequence = now;
  updated_sequence = now;
}

-- The set of payout receipts: kept, or given the new receipt of `r'`, which it did not hold.
abbrev pub Receipted : Ledger → ReportRecord → ReportRecord → Dict (Unit {0}) → Type 0
Receipted l r r' receipts =
    (receipts ≡ l.payout_receipts) × (r'.payout_receipt ≡ r.payout_receipt)
    ⊎ (member r'.payout_receipt l.payout_receipts ≡ false)
      × (receipts ≡ insert r'.payout_receipt tt l.payout_receipts)

-- What one transaction may do to the ledger: create one record, or move one record along an edge.
-- All else stays, but for the sequence number and, in a payout, the set of receipts.
pub data Transition (h : Hash) (l l' : Ledger) : Type 0 where
  create :
      (id encrypted researcher : Bytes)
      → lookup id l.reports ≡ none
      → l.sequence + 1 < uint64_mod
      → l' ≡ stored id (fresh_record h id encrypted researcher l.sequence) l
      → Transition h l l'
  change :
      (id : Bytes) (r r' : ReportRecord) (receipts : Dict (Unit {0}))
      → lookup id l.reports ≡ some r
      → Edge h id l.sequence r r'
      → Receipted l r r' receipts
      → l.sequence + 1 < uint64_mod
      → l' ≡ stored id r' (record l { payout_receipts = receipts })
      → Transition h l l'

-- The ledgers that transactions of any callers lead to.
pub data Reach (h : Hash) (l : Ledger) : Ledger → Type 0 where
  here : Reach h l l
  next :
      {m n : Ledger} (c : Call) (p : PrivateState) → Reach h l m → run h c p m ≡ ok n → Reach h l n

-- A ledger of a deployed contract.
pub record Deployed (h : Hash) (l : Ledger) : Type 0 where
  pub args : ProgramArgs
  pub deployer : PrivateState
  pub first : Ledger
  pub deployed : initialize h args deployer ≡ ok first
  pub since : Reach h first l
