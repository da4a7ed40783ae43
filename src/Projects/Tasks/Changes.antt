-- ===== src/Projects/Tasks/Changes.antt =====
-- internal/projects/task_postgres.go: the statements that write tasks.
use project_progress_registe.Base.{
  suc, Bool, true, not, Option, ◌&&◌, ◌||◌, [], ◌∷◌, ◌++◌, List, ltb, ◌==◌, length, find, any,
  update,
}
use project_progress_registe.Schema.{
  Uuid, Instant, uuids, num, AuditEvent, TaskRow, TaskRevisionRow, Tables,
}
use project_progress_registe.Db.{
  Db, not_found, conflict, task_v2_required, database, query, exec, attempt, gets, modify, raise_if,
  or_raise, now, fresh_id, transaction, insert_audit, ◌>>=◌, ◌>>◌,
}
use project_progress_registe.Projects.Store.{set_detail}
use project_progress_registe.Projects.Members.{responsible_of}
use project_progress_registe.Projects.Tasks.Types.{Task, TaskPersistenceInput}
use project_progress_registe.Projects.Tasks.Store.{
  has_task_id, is_task_in, load_task, lock_authorized_project, validate_responsible_members,
  replace_task_responsibilities,
}

abbrev pub new_task_row : Uuid → Instant → Uuid → Uuid → TaskPersistenceInput → TaskRow
new_task_row id at actor project input = record {
  id = id;
  project_id = project;
  name = input.name;
  goals_markdown = input.goals_markdown;
  description_markdown = input.description_markdown;
  target_date = input.target_date;
  created_by = actor;
  created_at = at;
  updated_at = at;
  version = 1;
}

-- The row that was just written is read back; that it is missing is no `ErrNotFound`.
unfoldable pub create_task_row : Uuid → Bool → Uuid → TaskPersistenceInput → AuditEvent → Db Task
create_task_row actor as_admin project input event = transaction do
  lock_authorized_project project actor as_admin true
  responsible ← validate_responsible_members project input.responsible_user_ids
  id ← fresh_id
  at ← now
  attempt database
  taken ← gets (λ t. any (has_task_id id) t.tasks)
  raise_if taken database
  modify (λ t. record t { tasks = t.tasks ++ new_task_row id at actor project input ∷ [] })
  replace_task_responsibilities id responsible
  insert_audit
      (set_detail "responsible_user_ids" (uuids responsible) (record event { target_id = id }))
  found ← query (load_task (has_task_id id))
  or_raise found database

-- `$4::boolean OR t.created_by = $3::uuid`
abbrev pub may_edit : Uuid → Bool → Uuid → Uuid → TaskRow → Bool
may_edit actor as_admin project task row =
    is_task_in project task row && (as_admin || row.created_by == actor)

-- The task that the statement locks, and the users responsible for it.
abbrev pub seen_for_edit : Uuid → Bool → Uuid → Uuid → Tables → Option TaskRow × List Uuid
seen_for_edit actor as_admin project task t =
    (find (may_edit actor as_admin project task) t.tasks, responsible_of task t.responsibilities)

abbrev pub set_task : TaskPersistenceInput → Instant → TaskRow → TaskRow
set_task input at row = record row {
  name = input.name;
  goals_markdown = input.goals_markdown;
  description_markdown = input.description_markdown;
  target_date = input.target_date;
  updated_at = at;
  version = suc row.version;
}

abbrev pub user_edit :
    TaskRow → List Uuid → TaskPersistenceInput → List Uuid → Uuid → TaskRevisionRow
user_edit previous before input after actor = record {
  task_id = previous.id;
  from_version = previous.version;
  to_version = suc previous.version;
  previous_name = previous.name;
  previous_goals_markdown = previous.goals_markdown;
  previous_description_markdown = previous.description_markdown;
  previous_responsible_user_ids = before;
  previous_target_date = previous.target_date;
  new_name = input.name;
  new_goals_markdown = input.goals_markdown;
  new_description_markdown = input.description_markdown;
  new_responsible_user_ids = after;
  new_target_date = input.target_date;
  change_reason = "user_edit";
  edited_by = actor;
}

abbrev pub edit_event : TaskRow → List Uuid → AuditEvent → AuditEvent
edit_event previous responsible event = set_detail "responsible_user_ids" (uuids responsible) (
    set_detail "to_version" (num (suc previous.version))
      (set_detail "from_version" (num previous.version) event))

unfoldable pub update_task_row :
    Uuid → Bool → Uuid → Uuid → TaskPersistenceInput → AuditEvent → Db Task
update_task_row actor as_admin project task input event = transaction do
  lock_authorized_project project actor as_admin true
  seen ← query (seen_for_edit actor as_admin project task)
  previous ← or_raise seen.0 not_found
  raise_if (not (previous.version == input.expected_version)) conflict
  raise_if (input.legacy_singular && ltb 1 (length seen.1)) task_v2_required
  responsible ← validate_responsible_members project input.responsible_user_ids
  at ← now
  exec (λ t. record t { tasks = update (is_task_in project task) (set_task input at) t.tasks })
  replace_task_responsibilities task responsible
  exec (λ t. record t {
    task_revisions = t.task_revisions ++ user_edit previous seen.1 input responsible actor ∷ [];
  })
  insert_audit (edit_event previous responsible event)
  found ← query (load_task (has_task_id task))
  or_raise found database
