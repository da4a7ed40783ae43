-- ===== src/Progress/Attachments.antt =====
-- internal/progress/postgres.go: the states of an attachment. A column that is NULL cannot be scanned
-- into a `time.Time`, which is an error of the database package.
use project_progress_registe.Base.{Bool, ◌&&◌, Option, none, some, [], ◌==◌, find, update}
use project_progress_registe.Text.{Text}
use project_progress_registe.Schema.{
  Uuid, Instant, AuditEvent, AttachmentRow, StorageState, pending, available, failed_storage,
}
use project_progress_registe.Db.{
  Db, conflict, database, query, exec, attempt, gets, modify, pure, raise, or_raise, now,
  transaction, insert_audit, ◌>>=◌, ◌>>◌,
}
use project_progress_registe.Progress.Store.{is_pending}

abbrev pub has_attachment_id : Uuid → AttachmentRow → Bool
has_attachment_id id row = row.id == id

abbrev pub is_pending_of : Uuid → AttachmentRow → Bool
is_pending_of id row = row.id == id && is_pending row.storage_state

abbrev pub make_available : Instant → AttachmentRow → AttachmentRow
make_available at row = record row {
  storage_state = available;
  available_at = some at;
  failure_reason = [];
}

abbrev pub make_failed : Text → AttachmentRow → AttachmentRow
make_failed reason row = record row {
  storage_state = failed_storage;
  failure_reason = reason;
  available_at = none;
}

-- `if state == "available"`
unfoldable pub only_available : StorageState → Instant → Db Instant
only_available available at = pure at
only_available pending at = raise conflict
only_available failed_storage at = raise conflict

-- `RETURNING available_at` gave a row, or none.
unfoldable pub settle_available : Uuid → AuditEvent → Instant → Option AttachmentRow → Db Instant
settle_available id event at (some row) = do
  modify
      (λ t. record t { attachments = update (is_pending_of id) (make_available at) t.attachments })
  insert_audit event
  pure at
settle_available id event at none = do
  found ← query (λ t. find (has_attachment_id id) t.attachments)
  row ← or_raise found database
  since ← or_raise row.available_at database
  only_available row.storage_state since

unfoldable pub mark_attachment_available : Uuid → AuditEvent → Db Instant
mark_attachment_available id event = transaction do
  at ← now
  attempt database
  found ← gets (λ t. find (is_pending_of id) t.attachments)
  settle_available id event at found

unfoldable pub mark_attachment_failed : Uuid → Text → AuditEvent → Db (Unit {0})
mark_attachment_failed id reason event = transaction do
  exec
      (λ t. record t { attachments = update (is_pending_of id) (make_failed reason) t.attachments })
  insert_audit event
