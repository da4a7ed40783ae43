-- ===== src/Progress.antt =====
-- internal/progress: the diary of a task. Updates with their attachments and the evidence of a location,
-- revisions, comments and accepted suggestions, and the recovery of attachments after a restart.
pub mod Types
pub mod Evidence
pub mod Store
pub mod Updates
pub mod Attachments
pub mod Recovery
pub mod Service
pub mod Submission
pub mod Create
pub mod ReviewService
pub mod Review
pub mod Outcomes
pub mod Edits
pub mod Reviewed
pub mod Diary
pub mod Lifecycle
pub mod Reconciled
pub mod Recovered
pub mod Downloads
pub mod Histories
pub mod Repeats
pub mod Fenced
pub mod Trust
mod Tests
mod DiaryTests
mod RecoveryTests
