-- ===== src/Web/ReportJournal/Trials.antt =====
-- A journal of one confirmed triage.
use vulnseal.Prelude.{
  ◌≡◌, ◌≤◌, refl, true, false, none, some, List, [], ◌∷◌, replicate, length, ok, ◌=ᵇ◌,
}
use vulnseal.Contract.Types.{triaged, ascii}
use vulnseal.Shared.Hex.{Text}
use vulnseal.Shared.Order.{text_le}
use vulnseal.Shared.Envelope.{sort}
use vulnseal.Shared.Json.{
  Json, object, array, field, no_fields, string, number, integer, item, no_items, get_field,
}
use vulnseal.Shared.Keys.{has_keys}
use vulnseal.Web.ReportJournal.{
  begin_triage, circuit_of, sdk_confirmed, ReportAttempt, RecoverySnapshot,
  report_journal_block_reason, status_named, status_of, named, circuit_named, outcome_named,
  transaction_of, same_text, pending_for, check_unknown, check_outcome, read_request, read_attempt,
  read_attempts, validate_report_journal,
}
use vulnseal.Web.ReportJournal.Validated.{IsJournal, validate_report_journal-IsJournal}

abbrev id : Text
id = replicate 64 b'0'

abbrev request_json : Json
request_json = object (
    field (ascii "nextStatus") (string (ascii "TRIAGED")) (
      field (ascii "severity") (number (integer false 2)) (
        field (ascii "rationale") (string []) (
          field (ascii "patchReference") (string [])
            (field (ascii "retestNotes") (string []) no_fields)))))

abbrev journal_json : Json
journal_json = array (
    item
      (object (
        field (ascii "circuit") (string (ascii "beginTriage")) (
          field (ascii "reportId") (string id) (
            field (ascii "startedAt") (string (ascii "now")) (
              field (ascii "transactionId") (string id) (
                field (ascii "request") request_json
                  (field (ascii "outcome") (string (ascii "sdk-confirmed")) no_fields)))))))
      no_items)

abbrev snapshot : RecoverySnapshot
snapshot = record {
  midnight = true;
  contract_address = some id;
  pending_report = none;
  report_id = none;
  uncertain_transition = none;
}

abbrev attempts : List ReportAttempt
attempts =
    record {
      circuit = begin_triage;
      report_id = id;
      started_at = ascii "now";
      transaction_id = some id;
      request = record {
        next_status = triaged;
        severity = 2;
        rationale = [];
        patch_reference = [];
        retest_notes = [];
      };
      outcome = sdk_confirmed;
    }
    ∷ []

accepted : validate_report_journal (λ t. t) (λ t. true) journal_json snapshot ≡ ok attempts
unfolding validate_report_journal read_attempts read_attempt read_request get_field circuit_of named
    circuit_named outcome_named transaction_of check_outcome check_unknown same_text pending_for
    status_named status_of has_keys sort text_le ◌=ᵇ◌
accepted = refl

free : report_journal_block_reason attempts ≡ none
unfolding report_journal_block_reason
free = refl

validate_report_journal-IsJournal_example :
    IsJournal snapshot attempts × (1 ≤ length attempts) × (length attempts ≤ 1000)
validate_report_journal-IsJournal_example =
    validate_report_journal-IsJournal (λ t. t) (λ t. true) journal_json snapshot accepted
