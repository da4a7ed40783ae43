-- ===== src/Progress/Recovery.antt =====
-- internal/progress/service.go: what joins the file store and the database. A staged file becomes final
-- before its attachment becomes available; a restart takes this up for what is still pending.
use project_progress_registe.Base.{ℕ, ◌-◌, Bool, true, false, some, List, [], ◌∷◌, map}
use project_progress_registe.Text.{codes}
use project_progress_registe.Schema.{uuid, tag, flag, AuditContext, succeeded, failed, available}
use project_progress_registe.Db.{
  Db, Error, Result, ok, err, db, run, file_missing, attachment_pending, pure, raise, lift, branch,
  now, ◌>>=◌, ◌>>◌,
}
use project_progress_registe.Identity.Service.{event_of}
use project_progress_registe.Filestore.Store.{finalize, cleanup_orphans}
use project_progress_registe.Progress.Types.{Attachment, Update, PendingAttachment}
use project_progress_registe.Progress.Store.{is_pending, list_pending_attachments}
use project_progress_registe.Progress.Attachments.{
  mark_attachment_available, mark_attachment_failed,
}

-- A call whose error the caller looks at.
unfoldable pub caught : {A : Type 0} → Db A → Db (Result A)
caught m = db (λ w. let r = run m w in (ok r.0, r.1))

-- `return ErrAttachmentPending` on every error.
abbrev pub as_pending : {A : Type 0} → Result A → Result A
as_pending (ok a) = ok a
as_pending (err e) = err attachment_pending

unfoldable pub or_pending : {A : Type 0} → Db A → Db A
or_pending m = do r ← caught m; lift (as_pending r)

abbrev pub made_available : Attachment → ℕ → Attachment
made_available a at = record a { storage_state = available; available_at = some at }

unfoldable pub complete_pending : Update → AuditContext → Attachment → Db Attachment
complete_pending update audit a = do
  or_pending (finalize a.storage_key)
  at ← or_pending (
      mark_attachment_available a.id (
        event_of "attachment.available" update.created_by.user_id "progress_attachment" a.id
          succeeded audit (("progress_update_id", uuid update.id) ∷ [])))
  pure (made_available a at)

unfoldable pub complete_each : Update → AuditContext → List Attachment → Db (List Attachment)
complete_each update audit [] = pure []
complete_each update audit (a ∷ rest) = do
  first ← branch (is_pending a.storage_state) (complete_pending update audit a) (pure a)
  others ← complete_each update audit rest
  pure (first ∷ others)

-- The attachments of the update, with what is available now.
unfoldable pub complete_attachments : Update → AuditContext → Db Update
complete_attachments update audit = do
  attachments ← complete_each update audit update.attachments
  pure (record update { attachments = attachments })

abbrev pub startup_audit : AuditContext
startup_audit = record {
  request_id = codes "startup-reconcile";
  client_ip = codes "127.0.0.1";
  user_agent = codes "ppr-startup";
}

-- The staged bytes are gone: `errors.Is(err, os.ErrNotExist)`.
abbrev pub is_missing : Error → Bool
is_missing file_missing = true
is_missing _ = false

unfoldable pub lose_attachment : PendingAttachment → Db (Unit {0})
lose_attachment item = mark_attachment_failed item.id (codes "staged_bytes_unavailable") (
    event_of "attachment.failed" item.uploaded_by "progress_attachment" item.id failed startup_audit
      (("reason", tag "staged_bytes_unavailable") ∷ []))

unfoldable pub recover_attachment : PendingAttachment → Db (Unit {0})
recover_attachment item = do
  at ← mark_attachment_available item.id (
      event_of "attachment.available" item.uploaded_by "progress_attachment" item.id succeeded
        startup_audit (("reconciled", flag true) ∷ []))
  pure tt

unfoldable pub settle_item : PendingAttachment → Result (Unit {0}) → Db (Unit {0})
settle_item item (ok u) = recover_attachment item
settle_item item (err e) = branch (is_missing e) (lose_attachment item) (raise e)

unfoldable pub reconcile_items : List PendingAttachment → Db (Unit {0})
reconcile_items [] = pure tt
reconcile_items (item ∷ items) = do
  finalized ← caught (finalize item.storage_key)
  settle_item item finalized
  reconcile_items items

-- 24 hours. A time before the first instant is that instant: no file is older than either.
abbrev pub orphan_age : ℕ
orphan_age = 86400000000000

unfoldable pub reconcile : Db (Unit {0})
reconcile = do
  items ← list_pending_attachments
  reconcile_items items
  at ← now
  removed ←
      cleanup_orphans (map (λ (item : PendingAttachment). item.storage_key) items) (at - orphan_age)
  pure tt
