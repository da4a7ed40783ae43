-- ===== src/Progress/Store.antt =====
-- internal/progress/postgres.go: what is read, and the check of the actor's access to a task.
use project_progress_registe.Base.{
  Bool, true, false, not, ◌&&◌, Option, none, some, List, [], ◌∷◌, map, ◌==◌, if◌then◌else◌, find,
  any, select,
}
use project_progress_registe.Schema.{
  Uuid, no_id, GeofenceSnapshot, Evidence, UserRow, ProjectRow, GeofenceRow, UpdateRow,
  AttachmentRow, RevisionRow, Tables, pending, StorageState, available, failed_storage,
}
use project_progress_registe.Db.{
  Db, Error, not_found, inactive_project, query, pure, raise_if, or_raise, transaction, ◌>>=◌, ◌>>◌,
}
use project_progress_registe.Identity.Sessions.{has_id}
use project_progress_registe.Projects.Store.{is_current_geofence}
use project_progress_registe.Projects.Tasks.Store.{is_task_in, sees_project}
use project_progress_registe.Progress.Types.{
  Actor, Attachment, Revision, Update, TaskPolicy, PendingAttachment,
}

abbrev pub to_snapshot : GeofenceRow → GeofenceSnapshot
to_snapshot row = record {
  id = row.id;
  version = row.version;
  latitude = row.latitude;
  longitude = row.longitude;
  radius_metres = row.radius_metres;
  max_accuracy_metres = row.max_accuracy_metres;
}

abbrev pub snapshot_of : Option GeofenceRow → Option GeofenceSnapshot
snapshot_of none = none
snapshot_of (some row) = some (to_snapshot row)

abbrev pub to_policy : Tables → Option ProjectRow → Option TaskPolicy
to_policy t none = none
to_policy t (some row) = some (record {
  active = row.active;
  geofence = snapshot_of (find (is_current_geofence row.id) t.geofences);
})

-- The join of a task, its project and the project's current geofence, for who may see the project.
abbrev pub task_policy : Uuid → Bool → Uuid → Uuid → Tables → Option TaskPolicy
task_policy actor as_admin project task t =
    if any (is_task_in project task) t.tasks
    then to_policy t (find (sees_project project actor as_admin t) t.projects)
    else none

unfoldable pub lock_authorized_task : Uuid → Bool → Uuid → Uuid → Bool → Db TaskPolicy
lock_authorized_task actor as_admin project task require_active = do
  found ← query (task_policy actor as_admin project task)
  policy ← or_raise found not_found
  raise_if (require_active && not policy.active) inactive_project
  pure policy

-- The same statement without the row locks, outside a transaction.
unfoldable pub get_task_policy : Uuid → Bool → Uuid → Uuid → Bool → Db TaskPolicy
get_task_policy actor as_admin project task require_active = do
  found ← query (task_policy actor as_admin project task)
  policy ← or_raise found not_found
  raise_if (require_active && not policy.active) inactive_project
  pure policy

abbrev pub geofence_id : Option GeofenceSnapshot → Uuid
geofence_id none = no_id
geofence_id (some fence) = fence.id

abbrev pub policy_geofence_id : TaskPolicy → Uuid
policy_geofence_id policy = geofence_id policy.geofence

abbrev pub evidence_geofence_id : Evidence → Uuid
evidence_geofence_id e = geofence_id e.geofence

abbrev pub to_actor : UserRow → Actor
to_actor u = record { user_id = u.id; username = u.username }

abbrev pub to_update : Uuid → UpdateRow → UserRow → Update
to_update project row creator = record {
  id = row.id;
  project_id = project;
  task_id = row.task_id;
  content_markdown = row.content_markdown;
  content_html = [];
  created_by = to_actor creator;
  evidence = row.evidence;
  attachments = [];
  revisions = [];
  created_at = row.created_at;
  updated_at = row.updated_at;
  version = row.version;
}

abbrev pub by_creator : Uuid → UpdateRow → Option UserRow → Option Update
by_creator project row none = none
by_creator project row (some creator) = some (to_update project row creator)

-- `updateProjection`, of a row whose task is in the project.
abbrev pub project_update : Uuid → Tables → Option UpdateRow → Option Update
project_update project t none = none
project_update project t (some row) = by_creator project row (find (has_id row.created_by) t.users)

abbrev pub is_update_in : Uuid → Uuid → UpdateRow → Bool
is_update_in task id row = row.task_id == task && row.id == id

abbrev pub scan_update : Uuid → Uuid → Uuid → Tables → Option Update
scan_update project task id t =
    if any (is_task_in project task) t.tasks
    then project_update project t (find (is_update_in task id) t.updates)
    else none

abbrev pub to_attachment : AttachmentRow → Attachment
to_attachment row = record {
  id = row.id;
  original_name = row.original_name;
  storage_key = row.storage_key;
  reported_mime = row.reported_mime;
  detected_mime = row.detected_mime;
  media_kind = row.media_kind;
  source = row.source;
  verification = row.verification;
  size_bytes = row.size_bytes;
  sha256 = row.sha256;
  browser_last_modified_at = row.browser_last_modified_at;
  storage_state = row.storage_state;
  failure_reason = row.failure_reason;
  created_at = row.created_at;
  available_at = row.available_at;
}

-- In table order here, by the time of creation in the source.
unfoldable pub load_attachments : Uuid → Tables → List Attachment
load_attachments update t =
    map to_attachment (select (λ row. row.progress_update_id == update) t.attachments)

abbrev pub to_revision : RevisionRow → UserRow → Revision
to_revision row editor = record {
  id = row.id;
  from_version = row.from_version;
  to_version = row.to_version;
  previous_content_markdown = row.previous_content_markdown;
  previous_content_html = [];
  new_content_markdown = row.new_content_markdown;
  new_content_html = [];
  edited_by = to_actor editor;
  edited_at = row.edited_at;
}

abbrev pub with_editors : List UserRow → List RevisionRow → List Revision
with_editors users [] = []
with_editors users (row ∷ rows) =
    let rest = with_editors users rows in
    elim (find (has_id row.edited_by) users) [
      | none ↦ rest
      | some editor ↦ to_revision row editor ∷ rest
    ]

-- By `to_version` in the source, which is table order.
unfoldable pub load_revisions : Uuid → Tables → List Revision
load_revisions update t =
    with_editors t.users (select (λ row. row.progress_update_id == update) t.revisions)

-- `loadUpdate` with its revisions; the error is what `pgx.ErrNoRows` becomes.
unfoldable pub load_update : Uuid → Uuid → Uuid → Error → Db Update
load_update project task id missing = do
  found ← query (scan_update project task id)
  base ← or_raise found missing
  attachments ← query (load_attachments id)
  revisions ← query (load_revisions id)
  pure (record base { attachments = attachments; revisions = revisions })

unfoldable pub get_update_row : Uuid → Bool → Uuid → Uuid → Uuid → Db Update
get_update_row actor as_admin project task id = transaction do
  policy ← lock_authorized_task actor as_admin project task false
  load_update project task id not_found

abbrev pub scanned : Uuid → Tables → List UpdateRow → List Update
scanned project t [] = []
scanned project t (row ∷ rows) =
    let rest = scanned project t rows in
    elim (project_update project t (some row)) [ none ↦ rest | some update ↦ update ∷ rest ]

-- The loop that loads the attachments of each update.
unfoldable pub attach_all : List Update → Db (List Update)
attach_all [] = pure []
attach_all (update ∷ updates) = do
  attachments ← query (load_attachments update.id)
  rest ← attach_all updates
  pure (record update { attachments = attachments } ∷ rest)

unfoldable pub list_update_rows : Uuid → Bool → Uuid → Uuid → Db (List Update)
list_update_rows actor as_admin project task = transaction do
  policy ← lock_authorized_task actor as_admin project task false
  updates ← query (λ t. scanned project t (select (λ row. row.task_id == task) t.updates))
  attach_all updates

abbrev pub is_attachment_of : Uuid → Uuid → AttachmentRow → Bool
is_attachment_of update id row = row.id == id && row.progress_update_id == update

-- The join of an attachment with its update, of the given task.
abbrev pub scan_attachment : Uuid → Uuid → Uuid → Tables → Option Attachment
scan_attachment task update id t =
    if any (is_update_in task update) t.updates
    then elim (find (is_attachment_of update id) t.attachments) [
      | none ↦ none
      | some row ↦ some (to_attachment row)
    ]
    else none

unfoldable pub get_attachment_row : Uuid → Bool → Uuid → Uuid → Uuid → Uuid → Db Attachment
get_attachment_row actor as_admin project task update id = transaction do
  policy ← lock_authorized_task actor as_admin project task false
  found ← query (scan_attachment task update id)
  or_raise found not_found

abbrev pub is_pending : StorageState → Bool
is_pending pending = true
is_pending available = false
is_pending failed_storage = false

abbrev pub to_pending : AttachmentRow → PendingAttachment
to_pending row = record {
  id = row.id;
  storage_key = row.storage_key;
  uploaded_by = row.uploaded_by;
}

unfoldable pub list_pending_attachments : Db (List PendingAttachment)
list_pending_attachments =
    query (λ t. map to_pending (select (λ row. is_pending row.storage_state) t.attachments))
