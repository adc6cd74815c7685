-- ===== src/Web/ReportJournal/Entries.antt =====
-- web/src/report-journal.ts: what an accepted entry of a journal is.
use vulnseal.Prelude.{
  ℕ, ◌≤◌, ◌≡◌, ◌≢◌, ap, arith, Bool, true, false, ◌&&◌, Option, none, some, List, Bytes, any, ◌=ᵇ◌,
  if◌then◌else◌, ok, >>=-ok, guard-ok, ok-injective,
}
use mathlib.Core.Path.{subst}
use vulnseal.Contract.Types.{ReportStatus, ◌=ˢ◌, ascii}
use vulnseal.Shared.Hex.{Text}
use vulnseal.Shared.Json.{Json, undefined, string, number, integer, get_field}
use vulnseal.Shared.Keys.{has_keys}
use vulnseal.Web.ReportJournal.{
  ReportCircuit, submit_report, begin_triage, accept_report, reject_report, anchor_patch,
  submit_retest, authorize_payout, close_report, Outcome, unknown, sdk_confirmed, AttemptRequest,
  ReportAttempt, RecoverySnapshot, JournalError, invalid_fields, invalid_intent, invalid_request,
  entry_keys, statuses, status_named, status_of, severity_of, or_fail, object_of, hex_of,
  circuit_named, outcome_named, transaction_of, pending_for, same_text, same_circuit, is_submission,
  check_unknown, check_outcome, note_of, timestamp_of, read_request, read_attempt,
}

or_fail-ok :
    {A : Type 0} (e : JournalError) (o : Option A) {a : A} → or_fail e o ≡ ok a → o ≡ some a
or_fail-ok e none h = cc
or_fail-ok e (some a) h = ap some (ok-injective h)

-- The status is one of those that the circuit leads to.
abbrev pub leads_to : ReportCircuit → ReportStatus → Bool
leads_to c s = any (λ p. p.1 =ˢ s) (statuses c)

status_named-leads :
    (t : Text) (c : ReportCircuit) {s : ReportStatus}
    → status_named t (statuses c) ≡ some s
    → leads_to c s ≡ true
unfolding status_named
status_named-leads t submit_report h = ground (arith, h)
status_named-leads t begin_triage h = ground (arith, h)
status_named-leads t accept_report h = ground (arith, h)
status_named-leads t reject_report h = ground (arith, h)
status_named-leads t anchor_patch h = ground (arith, h)
status_named-leads t submit_retest h = ground (arith, h)
status_named-leads t authorize_payout h = ground (arith, h)
status_named-leads t close_report h = ground (arith, h)

status_of-leads :
    (c : ReportCircuit) (value : Json) {s : ReportStatus}
    → status_of c value ≡ some s
    → leads_to c s ≡ true
unfolding status_of
status_of-leads c (string t) h = status_named-leads t c h
status_of-leads c value h = cc

severity_of-bounds : (value : Json) {n : ℕ} → severity_of value ≡ some n → (1 ≤ n) × (n ≤ 4)
severity_of-bounds (number (integer negative m)) h = ground (arith, h)
severity_of-bounds value h = cc

-- The operation of an attempt of unknown outcome is the one that the snapshot is uncertain of.
pub Uncertain : RecoverySnapshot → ReportAttempt → Type 0
Uncertain snapshot a =
    if is_submission a.circuit
    then pending_for snapshot.pending_report a.report_id ≡ true
    else (same_text snapshot.report_id a.report_id
        && same_circuit snapshot.uncertain_transition a.circuit)
      ≡ true

pub record IsAttempt (snapshot : RecoverySnapshot) (a : ReportAttempt) : Type 0 where
  pub leads : leads_to a.circuit a.request.next_status ≡ true
  pub severe : (1 ≤ a.request.severity) × (a.request.severity ≤ 4)
  pub confirmed : a.outcome ≡ sdk_confirmed → a.transaction_id ≢ none
  pub uncertain : a.outcome ≡ unknown → Uncertain snapshot a

check_unknown-Uncertain :
    (snapshot : RecoverySnapshot) (last : Bool) (a : ReportAttempt)
    → check_unknown snapshot last a.circuit a.report_id ≡ ok tt
    → (last ≡ true) × Uncertain snapshot a
unfolding check_unknown Uncertain
check_unknown-Uncertain snapshot last a h = ground (arith, h)

transaction_of-string :
    (identifiers : List Text) (u : Text) {o : Option Text}
    → transaction_of identifiers (string u) ≡ ok o
    → (any (λ i. i =ᵇ u) identifiers ≡ false) × (o ≡ some u)
unfolding transaction_of
transaction_of-string identifiers u h = ground (arith, h)

transaction_of-fresh :
    (identifiers : List Text) (value : Json) {o : Option Text}
    → transaction_of identifiers value ≡ ok o
    → (t : Text) → o ≡ some t
    → any (λ i. i =ᵇ t) identifiers ≡ false
unfolding transaction_of
transaction_of-fresh identifiers undefined h t e =
    ground (arith, ok-injective {E = JournalError} h, e)
transaction_of-fresh identifiers (string u) h t e =
    let (fresh, is) = transaction_of-string identifiers u h in
    subst (λ x. any (λ i. i =ᵇ x) identifiers ≡ false) (ground (arith, is, e)) fresh
transaction_of-fresh identifiers value h t e = cc

check_outcome-ok :
    (snapshot : RecoverySnapshot) (last : Bool) (a : ReportAttempt) (t : Option Text) (o : Outcome)
    → check_outcome snapshot last a.circuit a.report_id t o ≡ ok tt
    → (o ≡ sdk_confirmed → t ≢ none) × (o ≡ unknown → (last ≡ true) × Uncertain snapshot a)
unfolding check_outcome
check_outcome-ok snapshot last a t unknown h =
    (λ e n. cc, λ e. check_unknown-Uncertain snapshot last a h)
check_outcome-ok snapshot last a none sdk_confirmed h = cc
check_outcome-ok snapshot last a (some t) sdk_confirmed h = (λ e n. cc, λ e. cc)

-- What an entry was read as, with the identifiers before it.
unfoldable pub Read : RecoverySnapshot → List Text → Bool → ReportAttempt → Type 0
Read snapshot identifiers last a =
    IsAttempt snapshot a
    × ((t : Text) → a.transaction_id ≡ some t → any (λ i. i =ᵇ t) identifiers ≡ false)
    × (a.outcome ≡ unknown → last ≡ true)

module _ (utf8 : Text → Bytes) (is_timestamp : Text → Bool) where
  read_request-ok :
      (c : ReportCircuit) (value : Json) {r : AttemptRequest}
      → read_request utf8 is_timestamp c value ≡ ok r
      → (leads_to c r.next_status ≡ true) × (1 ≤ r.severity) × (r.severity ≤ 4)
  unfolding read_request
  read_request-ok c value h = >>=-ok (or_fail invalid_request (object_of value)) _ h λ fields e₁ h₁.
      guard-ok (has_keys "nextStatus,patchReference,rationale,retestNotes,severity" fields)
        invalid_request _ h₁
        λ keys h₂.
          >>=-ok (or_fail invalid_request (status_of c (get_field (ascii "nextStatus") fields))) _
            h₂
            λ status e₃ h₃.
              >>=-ok (or_fail invalid_request (severity_of (get_field (ascii "severity") fields))) _
                h₃
                λ n e₄ h₄.
                  >>=-ok
                    (or_fail invalid_request
                      (note_of utf8 is_timestamp (get_field (ascii "rationale") fields)))
                    _ h₄
                    λ r₁ e₅ h₅.
                      >>=-ok
                        (or_fail invalid_request
                          (note_of utf8 is_timestamp (get_field (ascii "patchReference") fields)))
                        _ h₅
                        λ r₂ e₆ h₆.
                          >>=-ok
                            (or_fail invalid_request
                              (note_of utf8 is_timestamp (get_field (ascii "retestNotes") fields)))
                            _ h₆
                            λ r₃ e₇ h₇.
                              let bounds =
                                severity_of-bounds (get_field (ascii "severity") fields) (
                                  or_fail-ok invalid_request
                                    (severity_of (get_field (ascii "severity") fields)) e₄) in
                              subst
                                (λ r.
                                  (leads_to c r.next_status ≡ true)
                                  × (1 ≤ r.severity)
                                  × (r.severity ≤ 4))
                                (ok-injective h₇)
                                (
                                  status_of-leads c (get_field (ascii "nextStatus") fields) (
                                      or_fail-ok invalid_request
                                        (status_of c (get_field (ascii "nextStatus") fields)) e₃),
                                  bounds.0,
                                  bounds.1,
                                )

  pub read_attempt-ok :
      (snapshot : RecoverySnapshot) (identifiers : List Text) (last : Bool) (value : Json)
      {a : ReportAttempt}
      → read_attempt utf8 is_timestamp snapshot identifiers last value ≡ ok a
      → Read snapshot identifiers last a
  unfolding read_attempt Read
  read_attempt-ok snapshot identifiers last value h =
      >>=-ok (or_fail invalid_fields (object_of value)) _ h λ fields e₁ h₁.
        guard-ok (has_keys (entry_keys (get_field (ascii "transactionId") fields)) fields)
          invalid_fields _ h₁
          λ keys h₂.
            >>=-ok (or_fail invalid_intent (circuit_named (get_field (ascii "circuit") fields))) _
              h₂
              λ c e₃ h₃.
                >>=-ok (or_fail invalid_intent (hex_of (get_field (ascii "reportId") fields))) _ h₃
                  λ id e₄ h₄.
                    >>=-ok
                      (or_fail invalid_intent
                        (timestamp_of utf8 is_timestamp (get_field (ascii "startedAt") fields)))
                      _ h₄
                      λ at e₅ h₅.
                        >>=-ok
                          (or_fail invalid_intent
                            (outcome_named (get_field (ascii "outcome") fields)))
                          _ h₅
                          λ o e₆ h₆.
                            >>=-ok
                              (read_request utf8 is_timestamp c
                                (get_field (ascii "request") fields))
                              _ h₆
                              λ request e₇ h₇.
                                >>=-ok
                                  (transaction_of identifiers
                                    (get_field (ascii "transactionId") fields))
                                  _ h₇
                                  λ t e₈ h₈.
                                    >>=-ok (check_outcome snapshot last c id t o) _ h₈ λ u e₉ h₉.
                                      let b : ReportAttempt = record {
                                        circuit = c;
                                        report_id = id;
                                        started_at = at;
                                        transaction_id = t;
                                        request = request;
                                        outcome = o;
                                      } in
                                      let asked =
                                        read_request-ok c (get_field (ascii "request") fields) e₇ in
                                      let (confirmed, uncertain) =
                                        check_outcome-ok snapshot last b t o e₉ in
                                      subst (Read snapshot identifiers last) (ok-injective h₉) (
                                        record {
                                          leads = asked.0;
                                          severe = (asked.1, asked.2);
                                          confirmed = confirmed;
                                          uncertain = λ e. (uncertain e).1;
                                        },
                                        transaction_of-fresh identifiers
                                            (get_field (ascii "transactionId") fields) e₈,
                                        λ e. (uncertain e).0,
                                      )
