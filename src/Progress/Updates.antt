-- ===== src/Progress/Updates.antt =====
-- internal/progress/postgres.go: the statements that write diary updates and their revisions.
use project_progress_registe.Base.{
  ℕ, suc, Bool, true, false, not, ◌&&◌, ◌||◌, Option, none, some, List, [], ◌∷◌, ◌++◌, ◌==◌, find,
  any, update,
}
use project_progress_registe.Text.{Text, text_eq}
use project_progress_registe.Schema.{
  Uuid, Instant, AuditEvent, UpdateRow, AttachmentRow, RevisionRow, pending,
}
use project_progress_registe.Db.{
  Db, not_found, conflict, policy_changed, database, query, exec, attempt, gets, modify, pure,
  raise_if, or_raise, now, fresh_id, transaction, insert_audit, ◌>>=◌, ◌>>◌,
}
use project_progress_registe.Progress.Types.{Update, AttachmentPersistence, ProgressPersistence}
use project_progress_registe.Progress.Store.{
  lock_authorized_task, policy_geofence_id, evidence_geofence_id, is_update_in, load_update,
}

abbrev pub has_key : Uuid → Text → UpdateRow → Bool
has_key actor key row = row.created_by == actor && text_eq row.idempotency_key key

abbrev pub has_update_id : Uuid → UpdateRow → Bool
has_update_id id row = row.id == id

abbrev pub new_update_row : Uuid → Instant → Uuid → Uuid → ProgressPersistence → UpdateRow
new_update_row id at actor task input = record {
  id = id;
  task_id = task;
  content_markdown = input.content_markdown;
  created_by = actor;
  idempotency_key = input.idempotency_key;
  request_sha256 = input.request_sha256;
  evidence = input.evidence;
  created_at = at;
  updated_at = at;
  version = 1;
}

abbrev pub new_attachment_row : Uuid → Instant → Uuid → Uuid → AttachmentPersistence → AttachmentRow
new_attachment_row id at update actor a = record {
  id = id;
  progress_update_id = update;
  original_name = a.original_name;
  storage_key = a.storage_key;
  reported_mime = a.reported_mime;
  detected_mime = a.detected_mime;
  media_kind = a.media_kind;
  source = a.source;
  verification = a.verification;
  size_bytes = a.size_bytes;
  sha256 = a.sha256;
  browser_last_modified_at = a.browser_last_modified_at;
  uploaded_by = actor;
  storage_state = pending;
  failure_reason = [];
  created_at = at;
  available_at = none;
}

-- The identifier and the storage key are unique.
abbrev pub clashes_attachment : Uuid → Text → AttachmentRow → Bool
clashes_attachment id key row = row.id == id || text_eq row.storage_key key

unfoldable pub insert_attachments : Uuid → Uuid → List AttachmentPersistence → Db (Unit {0})
insert_attachments update actor [] = pure tt
insert_attachments update actor (a ∷ rest) = do
  id ← fresh_id
  at ← now
  attempt database
  taken ← gets (λ t. any (clashes_attachment id a.storage_key) t.attachments)
  raise_if taken database
  modify (λ t. record t {
    attachments = t.attachments ++ new_attachment_row id at update actor a ∷ [];
  })
  insert_attachments update actor rest

module _ (actor project task : Uuid) (input : ProgressPersistence) where
  -- The update that the key already names: the same request is answered with it.
  unfoldable pub reuse_update : UpdateRow → Db (Update × Bool)
  reuse_update row = do
    raise_if (not (text_eq row.request_sha256 input.request_sha256)) conflict
    loaded ← load_update project task row.id database
    pure (loaded, false)

  -- The insertion found the key taken: `ON CONFLICT DO NOTHING`, and the row is read again.
  unfoldable pub reload_update : Db (Update × Bool)
  reload_update = do
    found ← query (λ t. find (has_key actor input.idempotency_key) t.updates)
    row ← or_raise found database
    reuse_update row

  module _ (attachments : List AttachmentPersistence) (event : AuditEvent) where
    unfoldable pub insert_update : Uuid → Instant → Bool → Db (Update × Bool)
    insert_update id at true = reload_update
    insert_update id at false = do
      taken ← gets (λ t. any (has_update_id id) t.updates)
      raise_if taken database
      modify (λ t. record t { updates = t.updates ++ new_update_row id at actor task input ∷ [] })
      insert_attachments id actor attachments
      insert_audit (record event { target_id = id })
      loaded ← load_update project task id database
      pure (loaded, true)

    unfoldable pub create_or_reuse : Option UpdateRow → Db (Update × Bool)
    create_or_reuse (some row) = reuse_update row
    create_or_reuse none = do
      id ← fresh_id
      at ← now
      attempt database
      raced ← gets (λ t. any (has_key actor input.idempotency_key) t.updates)
      insert_update id at raced

    -- The flag says whether the update is new.
    unfoldable pub create_update_row : Bool → Db (Update × Bool)
    create_update_row as_admin = transaction do
      policy ← lock_authorized_task actor as_admin project task true
      raise_if (not (policy_geofence_id policy == evidence_geofence_id input.evidence))
          policy_changed
      existing ← query (λ t. find (has_key actor input.idempotency_key) t.updates)
      create_or_reuse existing

abbrev pub may_edit_update : Uuid → Bool → Uuid → Uuid → UpdateRow → Bool
may_edit_update actor as_admin task id row =
    is_update_in task id row && (as_admin || row.created_by == actor)

abbrev pub new_revision_row : Uuid → Instant → UpdateRow → Text → Uuid → RevisionRow
new_revision_row id at current content actor = record {
  id = id;
  progress_update_id = current.id;
  from_version = current.version;
  to_version = suc current.version;
  previous_content_markdown = current.content_markdown;
  new_content_markdown = content;
  edited_by = actor;
  edited_at = at;
}

abbrev pub set_content : Text → Instant → UpdateRow → UpdateRow
set_content content at row = record row {
  content_markdown = content;
  updated_at = at;
  version = suc row.version;
}

-- One revision of an update to each version.
abbrev pub clashes_revision : Uuid → UpdateRow → RevisionRow → Bool
clashes_revision id current row =
    row.id == id || (row.progress_update_id == current.id && row.to_version == suc current.version)

unfoldable pub update_progress :
    Uuid → Bool → Uuid → Uuid → Uuid → Text → ℕ → AuditEvent → Db Update
update_progress actor as_admin project task id content expected event = transaction do
  policy ← lock_authorized_task actor as_admin project task true
  found ← query (λ t. find (may_edit_update actor as_admin task id) t.updates)
  current ← or_raise found not_found
  raise_if (not (current.version == expected)) conflict
  revision ← fresh_id
  edited ← now
  attempt database
  taken ← gets (λ t. any (clashes_revision revision current) t.revisions)
  raise_if taken database
  modify (λ t. record t {
    revisions = t.revisions ++ new_revision_row revision edited current content actor ∷ [];
  })
  at ← now
  exec (λ t. record t { updates = update (has_update_id id) (set_content content at) t.updates })
  insert_audit event
  load_update project task id database
