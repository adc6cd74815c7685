-- ===== src/Web.antt =====
-- web/src: the logic of the browser application.
pub mod Commitments
pub mod ReportJournal
pub mod SubmissionWait
pub mod Workflow
