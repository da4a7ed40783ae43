-- ===== src/Progress/Recovered.antt =====
-- A restart leaves no attachment pending.
use project_progress_registe.Base.{List}
use project_progress_registe.Text.{Text}
use project_progress_registe.Schema.{AttachmentRow}
use project_progress_registe.Progress.Types.{PendingAttachment}
use project_progress_registe.Progress.Lifecycle.{Evolves}
use project_progress_registe.Progress.Reconciled.{IsListed}

-- What is still pending is one of the items, and every attachment took a step at most.
abbrev Taken : List PendingAttachment → List AttachmentRow → List AttachmentRow → Type 0
Taken items rows rows' = IsListed items rows' × Evolves rows rows'
