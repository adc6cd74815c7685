-- ===== src/Web/Workflow.antt =====
-- web/src/workflow.ts: the timeline of a report; and, of web/src/recovery.ts, the transitions that a
-- history may make.
pub mod Timeline
pub mod Edges
mod Trials
use vulnseal.Prelude.{
  ℕ, zero, suc, ◌+◌, Bool, true, false, ◌&&◌, ◌==◌, Option, none, some, List, [], ◌∷◌, ◌++◌, map,
  any, if◌then◌else◌,
}
use vulnseal.Contract.Types.{
  ReportStatus, committed, triaged, accepted, rejected, patch_ready, retest_passed, retest_failed,
  payout_authorized, closed, ◌=ˢ◌,
}
use vulnseal.Api.VulnSealApi.{TransactionEvidence}

pub data Source : Type 0 where
  recovered : Source
  ledger : Source

pub record WorkflowEvent : Type 0 where
  pub status : ReportStatus
  pub evidence : Option TransactionEvidence
  pub source : Option Source

pub record TimelineEntry : Type 0 where
  pub entry : ReportStatus
  pub complete : Bool
  pub current : Bool
  pub evidence : Option TransactionEvidence
  pub source : Option Source

abbrev pub upcoming : List ReportStatus
upcoming = committed ∷ triaged ∷ accepted ∷ patch_ready ∷ retest_passed ∷ payout_authorized ∷ []

-- `upcoming.indexOf(last) + 1`
abbrev pub after_index : ReportStatus → List ReportStatus → Option ℕ
after_index s [] = none
after_index s (t ∷ rest) =
    let later = after_index s rest in
    if t =ˢ s then some 1 else elim later [ none ↦ none | some n ↦ some (n + 1) ]

-- `upcoming.slice(next)`
abbrev pub slice : ℕ → List ReportStatus → List ReportStatus
slice zero list = list
slice (suc n) [] = []
slice (suc n) (s ∷ rest) = slice n rest

abbrev pub or_zero : Option ℕ → ℕ
or_zero none = 0
or_zero (some n) = n

-- `events.at(-1)?.status`
unfoldable pub last_status : List WorkflowEvent → Option ReportStatus
last_status [] = none
last_status (e ∷ []) = some e.status
last_status (e ∷ f ∷ rest) = last_status (f ∷ rest)

abbrev pub next_index : Option ReportStatus → ℕ
next_index none = 0
next_index (some retest_failed) = 3
next_index (some s) = or_zero (after_index s upcoming)

unfoldable pub remaining : Option ReportStatus → List ReportStatus
remaining (some rejected) = []
remaining (some closed) = []
remaining last = slice (next_index last) upcoming

unfoldable pub completed : List WorkflowEvent → List TimelineEntry
completed [] = []
completed (e ∷ rest) =
    record {
      entry = e.status;
      complete = true;
      current = elim rest [ [] ↦ true | ◌∷◌ f fs ↦ false ];
      evidence = e.evidence;
      source = e.source;
    }
    ∷ completed rest

abbrev pub awaited : ReportStatus → TimelineEntry
awaited s = record { entry = s; complete = false; current = false; evidence = none; source = none }

unfoldable pub workflow_timeline : List WorkflowEvent → List TimelineEntry
unfolding completed remaining last_status
workflow_timeline events = completed events ++ map awaited (remaining (last_status events))

-- `edges`
abbrev pub edges : ReportStatus → List ReportStatus
edges committed = triaged ∷ []
edges triaged = accepted ∷ rejected ∷ []
edges accepted = patch_ready ∷ []
edges rejected = closed ∷ []
edges patch_ready = retest_passed ∷ retest_failed ∷ []
edges retest_passed = payout_authorized ∷ []
edges retest_failed = patch_ready ∷ []
edges payout_authorized = closed ∷ []
edges closed = []

-- The loop over a history of `guided-local`.
unfoldable pub follows : List ReportStatus → Bool
follows [] = true
follows (s ∷ []) = true
follows (s ∷ t ∷ rest) = any (λ u. u =ˢ t) (edges s) && follows (t ∷ rest)
