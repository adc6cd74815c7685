-- ===== src/Web/Workflow/Trials.antt =====
-- The timeline of a report whose retest failed.
use vulnseal.Prelude.{◌≡◌, ◌↔◌, refl, true, none, List, [], ◌∷◌, map, any}
use vulnseal.Contract.Types.{
  ReportStatus, committed, triaged, accepted, patch_ready, retest_passed, retest_failed,
  payout_authorized, ◌=ˢ◌,
}
use vulnseal.Web.Workflow.{
  WorkflowEvent, last_status, remaining, completed, workflow_timeline, edges, follows,
}
use vulnseal.Web.Workflow.Timeline.{IsTimeline, workflow_timeline-follows}
use vulnseal.Web.Workflow.Edges.{Moves, edges-Moves}

abbrev event : ReportStatus → WorkflowEvent
event s = record { status = s; evidence = none; source = none }

abbrev failed_retest : List WorkflowEvent
failed_retest =
    event committed ∷ event triaged ∷ event accepted ∷ event patch_ready ∷ event retest_failed ∷ []

shown :
    map (λ e. e.entry) (workflow_timeline failed_retest)
    ≡ committed ∷ triaged ∷ accepted ∷ patch_ready ∷ retest_failed ∷ patch_ready ∷ retest_passed
      ∷ payout_authorized ∷ []
unfolding workflow_timeline completed remaining last_status
shown = refl

made : follows (map (λ e. e.status) failed_retest) ≡ true
unfolding follows
made = refl

workflow_timeline-follows_example :
    IsTimeline failed_retest (workflow_timeline failed_retest)
    × (follows (map (λ e. e.entry) (workflow_timeline failed_retest)) ≡ true)
workflow_timeline-follows_example = workflow_timeline-follows failed_retest made

edges-Moves_example :
    (any (λ u. u =ˢ patch_ready) (edges retest_failed) ≡ true) ↔ Moves retest_failed patch_ready
edges-Moves_example = edges-Moves retest_failed patch_ready
