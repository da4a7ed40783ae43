-- ===== src/Progress/Service.antt =====
-- internal/progress/service.go: what a request reads and edits. The Markdown renderer is a parameter.
use project_progress_registe.Base.{
  ℕ, ℤ, at_least, suc, not, ◌||◌, Option, String, List, [], ◌∷◌, ◌==◌, if◌then◌else◌,
}
use project_progress_registe.Text.{Text}
use project_progress_registe.Schema.{
  Uuid, no_id, uuid, tag, num, AuditContext, succeeded, denied, StorageState, pending, available,
  failed_storage,
}
use project_progress_registe.Db.{
  Db, Result, ok, err, forbidden, unauthenticated, validation, attachment_pending,
  attachment_unavailable, lift, pure, or_raise, ◌>>=◌, ◌>>◌,
}
use project_progress_registe.Identity.Types.{User, is_admin}
use project_progress_registe.Identity.Service.{append_audit, event_of}
use project_progress_registe.Projects.Service.{render_text}
use project_progress_registe.Projects.Tasks.Service.{or_denied}
use project_progress_registe.Filestore.Store.{open_final}
use project_progress_registe.Progress.Types.{Attachment, Revision, Update, validate_content}
use project_progress_registe.Progress.Store.{get_update_row, list_update_rows, get_attachment_row}
use project_progress_registe.Progress.Updates.{update_progress}
use project_progress_registe.Progress.Recovery.{caught}

unfoldable pub require_access : User → Result (Unit {0})
require_access actor =
    if not actor.enabled || actor.id == no_id
    then err unauthenticated
    else if actor.must_change_password
    then err forbidden
    else ok tt

-- The target of a denial: the update, or the task without one.
abbrev pub refused_target : Uuid → Uuid → String × Uuid
refused_target task update = if update == no_id then ("task", task) else ("progress_update", update)

-- The event that `denied` writes; `or_denied` gives ErrNotFound after it.
unfoldable pub audit_progress_denied :
    User → Uuid → Uuid → Uuid → String → AuditContext → Db (Unit {0})
audit_progress_denied actor project task update reason audit = append_audit (
    event_of "authorization.progress_denied" actor.id (refused_target task update).0
      (refused_target task update).1 denied audit
      (("project_id", uuid project) ∷ ("task_id", uuid task) ∷ ("reason", tag reason) ∷ []))

-- The event that `deniedDownload` writes.
unfoldable pub audit_download_denied :
    User → Uuid → Uuid → Uuid → Uuid → AuditContext → Db (Unit {0})
audit_download_denied actor project task update attachment audit = append_audit (
    event_of "authorization.attachment_denied" actor.id "progress_attachment" attachment denied
      audit
      (("project_id", uuid project)
        ∷ ("task_id", uuid task)
        ∷ ("progress_update_id", uuid update)
        ∷ []))

module _ (render : Text → Option Text) where
  unfoldable pub render_revision : Revision → Db Revision
  render_revision r = do
    previous ← render_text render r.previous_content_markdown
    current ← render_text render r.new_content_markdown
    pure (record r { previous_content_html = previous; new_content_html = current })

  unfoldable pub render_revisions : List Revision → Db (List Revision)
  render_revisions [] = pure []
  render_revisions (r ∷ rs) = do
    first ← render_revision r
    rest ← render_revisions rs
    pure (first ∷ rest)

  unfoldable pub render_update : Update → Db Update
  render_update update = do
    html ← render_text render update.content_markdown
    revisions ← render_revisions update.revisions
    pure (record update { content_html = html; revisions = revisions })

  unfoldable pub render_updates : List Update → Db (List Update)
  render_updates [] = pure []
  render_updates (update ∷ updates) = do
    first ← render_update update
    rest ← render_updates updates
    pure (first ∷ rest)

  unfoldable pub list_updates : User → Uuid → Uuid → AuditContext → Db (List Update)
  list_updates actor project task audit = do
    lift (require_access actor)
    updates ←
        or_denied (audit_progress_denied actor project task no_id "task_not_accessible" audit)
          (list_update_rows actor.id (is_admin actor.role) project task)
    render_updates updates

  unfoldable pub get_update : User → Uuid → Uuid → Uuid → AuditContext → Db Update
  get_update actor project task id audit = do
    lift (require_access actor)
    update ←
        or_denied (audit_progress_denied actor project task id "update_not_accessible" audit)
          (get_update_row actor.id (is_admin actor.role) project task id)
    render_update update

  unfoldable pub edit_update : User → Uuid → Uuid → Uuid → Text → ℤ → AuditContext → Db Update
  edit_update actor project task id markdown version audit = do
    lift (require_access actor)
    content ← lift (validate_content markdown)
    expected ← or_raise (at_least 1 version) (validation "expected_version")
    update ←
        or_denied
          (audit_progress_denied actor project task id "update_not_accessible_or_not_owner" audit)
          (update_progress actor.id (is_admin actor.role) project task id content expected (
            event_of "progress.updated" actor.id "progress_update" id succeeded audit (
              ("project_id", uuid project)
              ∷ ("task_id", uuid task)
              ∷ ("from_version", num expected)
              ∷ ("to_version", num (suc expected))
              ∷ [])))
    render_update update

-- Only an attachment that is available has content.
abbrev pub must_be_available : StorageState → Result (Unit {0})
must_be_available pending = err attachment_pending
must_be_available available = ok tt
must_be_available failed_storage = err attachment_unavailable

abbrev pub or_unavailable : {A : Type 0} → Result A → Result A
or_unavailable (ok a) = ok a
or_unavailable (err e) = err attachment_unavailable

-- The attachment and its bytes.
unfoldable pub download : User → Uuid → Uuid → Uuid → Uuid → AuditContext → Db (Attachment × List ℕ)
download actor project task update id audit = do
  lift (require_access actor)
  attachment ←
      or_denied (audit_download_denied actor project task update id audit)
        (get_attachment_row actor.id (is_admin actor.role) project task update id)
  lift (must_be_available attachment.storage_state)
  opened ← caught (open_final attachment.storage_key)
  content ← lift (or_unavailable opened)
  append_audit (
      event_of "attachment.downloaded" actor.id "progress_attachment" attachment.id succeeded audit
        (("project_id", uuid project)
          ∷ ("task_id", uuid task)
          ∷ ("progress_update_id", uuid update)
          ∷ []))
  pure (attachment, content)
