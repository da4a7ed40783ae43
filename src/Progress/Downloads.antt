-- ===== src/Progress/Downloads.antt =====
-- What a download has checked, and what it gives.
use project_progress_registe.Base.{ℕ, ◌≡◌, some, List, find}
use project_progress_registe.Text.{Text}
use project_progress_registe.Schema.{Uuid, AuditRow, File, available}
use project_progress_registe.Db.{Db, ok, World, append_audit_row}
use project_progress_registe.Db.Runs.{Runs}
use project_progress_registe.Identity.Types.{User, is_admin}
use project_progress_registe.Filestore.Store.{has_file_key}
use project_progress_registe.Progress.Types.{Attachment, TaskPolicy}
use project_progress_registe.Progress.Store.{task_policy, scan_attachment}
use project_progress_registe.Progress.Service.{require_access}

-- The actor has access and sees the task; the attachment is of that update and is available; the bytes
-- are its final ones; and the download is on record.
pub record Downloaded (actor : User) (project task update id : Uuid) (w : World) (a : Attachment)
    (content : List ℕ) (w' : World) : Type 0 where
  pub allowed : require_access actor ≡ ok tt
  pub policy : TaskPolicy
  pub sees : task_policy actor.id (is_admin actor.role) project task w.tables ≡ some policy
  pub found : scan_attachment task update id w.tables ≡ some a
  pub state : a.storage_state ≡ available
  pub file : File
  pub stored : find (has_file_key a.storage_key) w.files.finals ≡ some file
  pub bytes : content ≡ file.bytes
  pub row : AuditRow
  pub audited : w'.tables ≡ append_audit_row row w.tables
  pub downloaded_by : row.event.actor_user_id ≡ actor.id
