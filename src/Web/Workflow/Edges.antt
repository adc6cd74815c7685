-- ===== src/Web/Workflow/Edges.antt =====
-- Three tables of the code that must agree: the stages of api/src/role-session.ts, the statuses of
-- web/src/report-journal.ts and the edges of web/src/recovery.ts.
use vulnseal.Prelude.{◌≡◌, ◌↔◌, refl, arith, true, [], any}
use vulnseal.Contract.Types.{
  ReportStatus, committed, triaged, accepted, rejected, patch_ready, retest_passed, retest_failed,
  payout_authorized, closed, ◌=ˢ◌,
}
use vulnseal.Contract.Witnesses.{ReportPreimage}
use vulnseal.Api.RoleSession as Session
use vulnseal.Api.RoleSession.{RoleCommand, stages}
use vulnseal.Web.ReportJournal.{
  ReportCircuit, submit_report, begin_triage, accept_report, reject_report, anchor_patch,
  submit_retest, authorize_payout, close_report,
}
use vulnseal.Web.ReportJournal.Entries.{leads_to}
use vulnseal.Web.Workflow.{edges}

-- The circuit that a command of a session calls.
abbrev pub kind : RoleCommand → ReportCircuit
kind (Session.submit_report report ciphertext) = submit_report
kind (Session.begin_triage id) = begin_triage
kind (Session.accept_report id severity decision) = accept_report
kind (Session.reject_report id decision) = reject_report
kind (Session.anchor_patch id patch) = anchor_patch
kind (Session.submit_retest id report patch evidence passed) = submit_retest
kind (Session.authorize_payout id tier) = authorize_payout
kind (Session.close_report id) = close_report

-- A command that a session lets pass at one status, and the journal expects to lead to another.
abbrev pub Moves : ReportStatus → ReportStatus → Type 0
Moves s t = (c : RoleCommand) × (any (λ u. u =ˢ s) (stages c) ≡ true) × (leads_to (kind c) t ≡ true)

command-edge :
    (c : RoleCommand) (s t : ReportStatus)
    → any (λ u. u =ˢ s) (stages c) ≡ true
    → leads_to (kind c) t ≡ true
    → any (λ u. u =ˢ t) (edges s) ≡ true
command-edge (Session.submit_report report ciphertext) s t at leads = ground (arith, at, leads)
command-edge (Session.begin_triage id) s t at leads = ground (arith, at, leads)
command-edge (Session.accept_report id severity decision) s t at leads = ground (arith, at, leads)
command-edge (Session.reject_report id decision) s t at leads = ground (arith, at, leads)
command-edge (Session.anchor_patch id patch) s t at leads = ground (arith, at, leads)
command-edge (Session.submit_retest id report patch evidence passed) s t at leads =
    ground (arith, at, leads)
command-edge (Session.authorize_payout id tier) s t at leads = ground (arith, at, leads)
command-edge (Session.close_report id) s t at leads = ground (arith, at, leads)

abbrev nothing : ReportPreimage
nothing = record { program_id = []; canonical_digest = []; salt = [] }

edge-Moves : (s t : ReportStatus) → any (λ u. u =ˢ t) (edges s) ≡ true → Moves s t
edge-Moves committed t h = (Session.begin_triage [], refl, ground (arith, h))
edge-Moves triaged accepted h = (Session.accept_report [] 1 [], refl, refl)
edge-Moves triaged rejected h = (Session.reject_report [] [], refl, refl)
edge-Moves triaged t h = cc
edge-Moves accepted t h = (Session.anchor_patch [] [], refl, ground (arith, h))
edge-Moves rejected t h = (Session.close_report [], refl, ground (arith, h))
edge-Moves patch_ready t h = (Session.submit_retest [] nothing [] [] true, refl, ground (arith, h))
edge-Moves retest_passed t h = (Session.authorize_payout [] 1, refl, ground (arith, h))
edge-Moves retest_failed t h = (Session.anchor_patch [] [], refl, ground (arith, h))
edge-Moves payout_authorized t h = (Session.close_report [], refl, ground (arith, h))
edge-Moves closed t h = cc

-- The transitions that a recovered history may make are those that some command of a session makes,
-- by the stages at which the session lets it pass and the statuses that the journal expects of it.
pub edges-Moves : (s t : ReportStatus) → (any (λ u. u =ˢ t) (edges s) ≡ true) ↔ Moves s t
edges-Moves s t = (edge-Moves s t, λ (c, at, leads). command-edge c s t at leads)
