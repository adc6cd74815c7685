-- ===== src/Web/Workflow/Timeline.antt =====
-- web/src/workflow.ts: what a timeline shows.
use vulnseal.Prelude.{
  ℕ, zero, suc, ◌≡◌, refl, ap, ◌∙◌, arith, Bool, true, false, not, ◌&&◌, none, some, all, length,
  List, [], ◌∷◌, ◌++◌, map,
}
use vulnseal.Contract.Types.{
  ReportStatus, committed, triaged, accepted, rejected, patch_ready, retest_passed, retest_failed,
  payout_authorized, closed,
}
use vulnseal.Web.Workflow.{
  WorkflowEvent, TimelineEntry, last_status, remaining, completed, awaited, workflow_timeline,
  follows,
}

entries-awaited : (ss : List ReportStatus) → map (λ e. e.entry) (map awaited ss) ≡ ss
entries-awaited [] = refl
entries-awaited (s ∷ ss) = ap (λ x. s ∷ x) (entries-awaited ss)

-- The events of the report, and then what is left for it.
entries-timeline :
    (events : List WorkflowEvent) (rest : List ReportStatus)
    → map (λ e. e.entry) (completed events ++ map awaited rest) ≡ map (λ e. e.status) events ++ rest
unfolding completed
entries-timeline [] rest = entries-awaited rest
entries-timeline (e ∷ events) rest = ap (λ x. e.status ∷ x) (entries-timeline events rest)

-- What is left goes on from the last status.
remaining-follows : (s : ReportStatus) → follows (s ∷ remaining (some s)) ≡ true
unfolding follows remaining
remaining-follows committed = refl
remaining-follows triaged = refl
remaining-follows accepted = refl
remaining-follows rejected = refl
remaining-follows patch_ready = refl
remaining-follows retest_passed = refl
remaining-follows retest_failed = refl
remaining-follows payout_authorized = refl
remaining-follows closed = refl

joined :
    (events : List WorkflowEvent)
    → follows (map (λ e. e.status) events) ≡ true
    → follows (map (λ e. e.status) events ++ remaining (last_status events)) ≡ true
unfolding follows last_status remaining
joined [] h = refl
joined (e ∷ []) h = remaining-follows e.status
joined (e ∷ f ∷ rest) h = ground (arith, h, joined (f ∷ rest))

-- The event that an entry shows.
abbrev pub event_of : TimelineEntry → WorkflowEvent
event_of e = record { status = e.entry; evidence = e.evidence; source = e.source }

abbrev pub is_awaited : TimelineEntry → Bool
is_awaited e = not e.complete && (not e.current && elim e.evidence [ none ↦ true | some x ↦ false ])

-- Of so many entries, the last.
abbrev pub only_last : ℕ → List Bool
only_last zero = []
only_last (suc zero) = true ∷ []
only_last (suc (suc n)) = false ∷ only_last (suc n)

-- Entries that show the events, in their order and each with its evidence and its source, as
-- complete, the last of them as current, and then steps that are neither.
pub record IsTimeline (events : List WorkflowEvent) (entries : List TimelineEntry) : Type 0 where
  pub done : List TimelineEntry
  pub ahead : List TimelineEntry
  pub parts : entries ≡ done ++ ahead
  pub shown : map event_of done ≡ events
  pub all_complete : all (λ e. e.complete) done ≡ true
  pub last_current : map (λ e. e.current) done ≡ only_last (length events)
  pub all_awaited : all is_awaited ahead ≡ true

event_of-completed : (events : List WorkflowEvent) → map event_of (completed events) ≡ events
unfolding completed
event_of-completed [] = refl
event_of-completed (e ∷ rest) = ap (λ es. e ∷ es) (event_of-completed rest)

complete-completed : (events : List WorkflowEvent) → all (λ e. e.complete) (completed events) ≡ true
unfolding completed
complete-completed [] = refl
complete-completed (e ∷ rest) = complete-completed rest

current-completed :
    (events : List WorkflowEvent)
    → map (λ e. e.current) (completed events) ≡ only_last (length events)
unfolding completed
current-completed [] = refl
current-completed (e ∷ []) = refl
current-completed (e ∷ f ∷ rest) = ap (λ bs. false ∷ bs) (current-completed (f ∷ rest))

is_awaited-awaited : (ss : List ReportStatus) → all is_awaited (map awaited ss) ≡ true
is_awaited-awaited [] = refl
is_awaited-awaited (s ∷ ss) = is_awaited-awaited ss

workflow_timeline-IsTimeline :
    (events : List WorkflowEvent) → IsTimeline events (workflow_timeline events)
unfolding workflow_timeline
workflow_timeline-IsTimeline events = record {
  done = completed events;
  ahead = map awaited (remaining (last_status events));
  parts = refl;
  shown = event_of-completed events;
  all_complete = complete-completed events;
  last_current = current-completed events;
  all_awaited = is_awaited-awaited (remaining (last_status events));
}

-- When the events made only transitions of a report, the timeline shows them, in their order and
-- each with its evidence and its source, as complete, the last of them as current, and then steps
-- that are neither; and all that it shows makes only transitions of a report.
pub workflow_timeline-follows :
    (events : List WorkflowEvent)
    → follows (map (λ e. e.status) events) ≡ true
    → IsTimeline events (workflow_timeline events)
      × (follows (map (λ e. e.entry) (workflow_timeline events)) ≡ true)
unfolding workflow_timeline
workflow_timeline-follows events h = (
  workflow_timeline-IsTimeline events,
  ap follows (entries-timeline events (remaining (last_status events))) ∙ joined events h,
)
