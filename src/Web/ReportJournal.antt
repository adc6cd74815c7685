-- ===== src/Web/ReportJournal.antt =====
-- web/src/report-journal.ts: the journal of the report transactions of a workspace. UTF-8 and the
-- test of a timestamp, that `Date` reads it and writes it back the same, are parameters. A saved
-- journal is a JSON value; the parts of a recovery snapshot that the journal is about are a record.
pub mod Entries
pub mod Validated
mod Trials
use vulnseal.Prelude.{
  ℕ, ◌+◌, ◌*◌, String, Bool, true, false, not, ◌&&◌, ◌||◌, Option, none, some, List, [], ◌∷◌, ◌++◌,
  Bytes, any, all, length, leb, ltb, ◌==◌, ◌=ᵇ◌, if◌then◌else◌, Result, ok, err, ◌>>=◌, ◌>>◌, guard,
}
use vulnseal.Contract.Types.{
  ReportStatus, committed, triaged, accepted, rejected, patch_ready, retest_passed, retest_failed,
  payout_authorized, closed, ◌=ˢ◌, ascii,
}
use vulnseal.Shared.Hex.{Text, is_hex}
use vulnseal.Shared.Json.{
  Json, Items, Fields, undefined, object, array, string, number, integer, item, no_items, get_field,
  field_keys,
}
use vulnseal.Shared.Keys.{has_keys}

-- The circuits that act on a report.
pub data ReportCircuit : Type 0 where
  submit_report : ReportCircuit
  begin_triage : ReportCircuit
  accept_report : ReportCircuit
  reject_report : ReportCircuit
  anchor_patch : ReportCircuit
  submit_retest : ReportCircuit
  authorize_payout : ReportCircuit
  close_report : ReportCircuit

abbrev pub circuit_code : ReportCircuit → ℕ
circuit_code submit_report = 0
circuit_code begin_triage = 1
circuit_code accept_report = 2
circuit_code reject_report = 3
circuit_code anchor_patch = 4
circuit_code submit_retest = 5
circuit_code authorize_payout = 6
circuit_code close_report = 7

pub data Outcome : Type 0 where
  unknown : Outcome
  sdk_confirmed : Outcome

pub record AttemptRequest : Type 0 where
  pub next_status : ReportStatus
  pub severity : ℕ
  pub rationale : Text
  pub patch_reference : Text
  pub retest_notes : Text

pub record ReportAttempt : Type 0 where
  pub circuit : ReportCircuit
  pub report_id : Text
  pub started_at : Text
  pub transaction_id : Option Text
  pub request : AttemptRequest
  pub outcome : Outcome

abbrev pub max_report_attempts : ℕ
max_report_attempts = 1000

abbrev pub is_unknown : Outcome → Bool
is_unknown unknown = true
is_unknown sdk_confirmed = false

pub data BlockReason : Type 0 where
  unresolved_attempt : BlockReason
  journal_full : BlockReason

unfoldable pub report_journal_block_reason : List ReportAttempt → Option BlockReason
report_journal_block_reason attempts =
    if any (λ a. is_unknown a.outcome) attempts
    then some unresolved_attempt
    else if leb max_report_attempts (length attempts)
    then some journal_full
    else none

pub record PendingReport : Type 0 where
  pub id : Text
  pub submission_started : Bool

-- What the journal is checked against: whether the mode is `midnight`, and the identifiers of the
-- pending and of the saved report.
pub record RecoverySnapshot : Type 0 where
  pub midnight : Bool
  pub contract_address : Option Text
  pub pending_report : Option PendingReport
  pub report_id : Option Text
  pub uncertain_transition : Option ReportCircuit

pub data JournalError : Type 0 where
  invalid_journal : JournalError
  invalid_fields : JournalError
  invalid_intent : JournalError
  invalid_request : JournalError
  invalid_transaction : JournalError
  unconfirmed : JournalError
  unresolved_not_last : JournalError
  pending_mismatch : JournalError
  uncertain_mismatch : JournalError

-- `validTransactionIdentifier`
abbrev pub valid_transaction_identifier : Text → Bool
valid_transaction_identifier t = all is_hex t && ((length t == 64) || (length t == 66))

abbrev pub named : Text → String → ReportCircuit → Option ReportCircuit → Option ReportCircuit
unfolding ◌=ᵇ◌
named t name c otherwise = if t =ᵇ ascii name then some c else otherwise

unfoldable pub circuit_of : Text → Option ReportCircuit
unfolding named
circuit_of t = named t "submitReport" submit_report (
    named t "beginTriage" begin_triage (
      named t "acceptReport" accept_report (
        named t "rejectReport" reject_report (
          named t "anchorPatch" anchor_patch (
            named t "submitRetest" submit_retest (
              named t "authorizePayout" authorize_payout
                (named t "closeReport" close_report none)))))))

-- `statuses[circuit].includes(nextStatus)`, with the status that it is.
abbrev pub status_named : Text → List (String × ReportStatus) → Option ReportStatus
unfolding ◌=ᵇ◌
status_named t [] = none
status_named t ((name, s) ∷ rest) = if t =ᵇ ascii name then some s else status_named t rest

abbrev pub statuses : ReportCircuit → List (String × ReportStatus)
statuses submit_report = ("COMMITTED", committed) ∷ []
statuses begin_triage = ("TRIAGED", triaged) ∷ []
statuses accept_report = ("ACCEPTED", accepted) ∷ []
statuses reject_report = ("REJECTED", rejected) ∷ []
statuses anchor_patch = ("PATCH_READY", patch_ready) ∷ []
statuses submit_retest = ("RETEST_PASSED", retest_passed) ∷ ("RETEST_FAILED", retest_failed) ∷ []
statuses authorize_payout = ("PAYOUT_AUTHORIZED", payout_authorized) ∷ []
statuses close_report = ("CLOSED", closed) ∷ []

abbrev pub or_fail : {A : Type 0} → JournalError → Option A → Result JournalError A
or_fail e none = err e
or_fail e (some a) = ok a

abbrev pub text_of : Json → Option Text
text_of (string t) = some t
text_of _ = none

abbrev pub object_of : Json → Option Fields
object_of (object fields) = some fields
object_of _ = none

abbrev pub hex_of : Json → Option Text
hex_of (string t) = if all is_hex t && (length t == 64) then some t else none
hex_of _ = none

abbrev pub circuit_named : Json → Option ReportCircuit
unfolding circuit_of
circuit_named (string t) = circuit_of t
circuit_named _ = none

abbrev pub outcome_named : Json → Option Outcome
unfolding ◌=ᵇ◌
outcome_named (string t) =
    if t =ᵇ ascii "unknown"
    then some unknown
    else if t =ᵇ ascii "sdk-confirmed"
    then some sdk_confirmed
    else none
outcome_named _ = none

abbrev pub status_of : ReportCircuit → Json → Option ReportStatus
unfolding status_named
status_of c (string t) = status_named t (statuses c)
status_of c _ = none

-- `Number.isInteger(severity) && severity >= 1 && severity <= 4`
abbrev pub severity_of : Json → Option ℕ
severity_of (number (integer negative n)) =
    if not negative && (leb 1 n && leb n 4) then some n else none
severity_of _ = none

-- The keys of an entry, which has an identifier or not.
abbrev pub entry_keys : Json → String
entry_keys undefined = "circuit,outcome,reportId,request,startedAt"
entry_keys _ = "circuit,outcome,reportId,request,startedAt,transactionId"

abbrev pub transaction_of : List Text → Json → Result JournalError (Option Text)
unfolding ◌=ᵇ◌
transaction_of identifiers undefined = ok none
transaction_of identifiers (string t) =
    if valid_transaction_identifier t && not (any (λ i. i =ᵇ t) identifiers)
    then ok (some t)
    else err invalid_transaction
transaction_of identifiers _ = err invalid_transaction

abbrev pub same_text : Option Text → Text → Bool
unfolding ◌=ᵇ◌
same_text none t = false
same_text (some s) t = s =ᵇ t

abbrev pub same_circuit : Option ReportCircuit → ReportCircuit → Bool
same_circuit none c = false
same_circuit (some d) c = circuit_code d == circuit_code c

abbrev pub pending_for : Option PendingReport → Text → Bool
unfolding ◌=ᵇ◌
pending_for none id = false
pending_for (some p) id = p.submission_started && (p.id =ᵇ id)

abbrev pub is_submission : ReportCircuit → Bool
is_submission submit_report = true
is_submission _ = false

-- What an attempt of unknown outcome needs: the last place, and the snapshot of its operation.
unfoldable pub check_unknown :
    RecoverySnapshot → Bool → ReportCircuit → Text → Result JournalError (Unit {0})
unfolding same_text pending_for
check_unknown snapshot last circuit id = do
  guard last unresolved_not_last
  if is_submission circuit
      then guard (pending_for snapshot.pending_report id) pending_mismatch
      else guard
          (same_text snapshot.report_id id && same_circuit snapshot.uncertain_transition circuit)
          uncertain_mismatch

abbrev pub check_outcome :
    RecoverySnapshot
    → Bool
    → ReportCircuit
    → Text
    → Option Text
    → Outcome
    → Result JournalError (Unit {0})
unfolding check_unknown
check_outcome snapshot last circuit id transaction unknown = check_unknown snapshot last circuit id
check_outcome snapshot last circuit id none sdk_confirmed = err unconfirmed
check_outcome snapshot last circuit id (some t) sdk_confirmed = ok tt

module _ (utf8 : Text → Bytes) (is_timestamp : Text → Bool) where
  abbrev pub note_of : Json → Option Text
  note_of (string t) = if leb (length (utf8 t)) (64 * 1024) then some t else none
  note_of _ = none

  abbrev pub timestamp_of : Json → Option Text
  timestamp_of (string t) = if is_timestamp t then some t else none
  timestamp_of _ = none

  unfoldable pub read_request : ReportCircuit → Json → Result JournalError AttemptRequest
  unfolding get_field status_of has_keys
  read_request circuit value = do
    fields ← or_fail invalid_request (object_of value)
    guard (has_keys "nextStatus,patchReference,rationale,retestNotes,severity" fields)
        invalid_request
    next_status ←
        or_fail invalid_request (status_of circuit (get_field (ascii "nextStatus") fields))
    severity ← or_fail invalid_request (severity_of (get_field (ascii "severity") fields))
    rationale ← or_fail invalid_request (note_of (get_field (ascii "rationale") fields))
    patch_reference ← or_fail invalid_request (note_of (get_field (ascii "patchReference") fields))
    retest_notes ← or_fail invalid_request (note_of (get_field (ascii "retestNotes") fields))
    ok (record {
      next_status = next_status;
      severity = severity;
      rationale = rationale;
      patch_reference = patch_reference;
      retest_notes = retest_notes;
    })

  -- One entry, with the identifiers before it, and whether it is the last.
  unfoldable pub read_attempt :
      RecoverySnapshot → List Text → Bool → Json → Result JournalError ReportAttempt
  unfolding get_field read_request circuit_named outcome_named transaction_of check_outcome has_keys
  read_attempt snapshot identifiers last value = do
    fields ← or_fail invalid_fields (object_of value)
    guard (has_keys (entry_keys (get_field (ascii "transactionId") fields)) fields) invalid_fields
    circuit ← or_fail invalid_intent (circuit_named (get_field (ascii "circuit") fields))
    id ← or_fail invalid_intent (hex_of (get_field (ascii "reportId") fields))
    started_at ← or_fail invalid_intent (timestamp_of (get_field (ascii "startedAt") fields))
    outcome ← or_fail invalid_intent (outcome_named (get_field (ascii "outcome") fields))
    request ← read_request circuit (get_field (ascii "request") fields)
    transaction ← transaction_of identifiers (get_field (ascii "transactionId") fields)
    check_outcome snapshot last circuit id transaction outcome
    ok (record {
      circuit = circuit;
      report_id = id;
      started_at = started_at;
      transaction_id = transaction;
      request = request;
      outcome = outcome;
    })

  abbrev pub add_identifier : Option Text → List Text → List Text
  add_identifier none identifiers = identifiers
  add_identifier (some t) identifiers = identifiers ++ t ∷ []

  abbrev pub is_last : Items → Bool
  is_last no_items = true
  is_last (item j rest) = false

  unfoldable pub read_attempts :
      RecoverySnapshot → List Text → Items → Result JournalError (List ReportAttempt)
  unfolding read_attempt
  read_attempts snapshot identifiers no_items = ok []
  read_attempts snapshot identifiers (item value rest) = do
    attempt ← read_attempt snapshot identifiers (is_last rest) value
    attempts ← read_attempts snapshot (add_identifier attempt.transaction_id identifiers) rest
    ok (attempt ∷ attempts)

  abbrev pub count : Items → ℕ
  count no_items = 0
  count (item j rest) = 1 + count rest

  -- A contract address that is neither null nor empty.
  abbrev pub has_address : Option Text → Bool
  has_address none = false
  has_address (some []) = false
  has_address (some (c ∷ t)) = true

  abbrev pub items_of : Json → Result JournalError Items
  items_of (array items) = ok items
  items_of _ = err invalid_journal

  unfoldable pub validate_report_journal :
      Json → RecoverySnapshot → Result JournalError (List ReportAttempt)
  unfolding read_attempts
  validate_report_journal value snapshot = do
    items ← items_of value
    guard (leb 1 (count items) && leb (count items) max_report_attempts) invalid_journal
    guard (snapshot.midnight && has_address snapshot.contract_address) invalid_journal
    read_attempts snapshot [] items
