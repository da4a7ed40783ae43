-- ===== src/Projects/Tasks/Store.antt =====
-- internal/projects/task_postgres.go. The rows of a list come in the order of their lower-cased names
-- in the source, in table order here.
use project_progress_registe.Base.{
  Bool, false, not, ◌&&◌, Option, none, some, List, [], ◌∷◌, ◌++◌, map, ◌==◌, if◌then◌else◌, length,
  find, any, select, delete, contains, sort_ids,
}
use project_progress_registe.Schema.{Uuid, UserRow, ProjectRow, TaskRow, ResponsibilityRow, Tables}
use project_progress_registe.Db.{
  Db, not_found, inactive_project, invalid_responsible, query, exec, pure, raise_if, or_raise,
  transaction, ◌>>=◌, ◌>>◌,
}
use project_progress_registe.Identity.Sessions.{has_id}
use project_progress_registe.Projects.Store.{has_project_id, is_current_member, can_see}
use project_progress_registe.Projects.Members.{is_valid_member, is_responsibility}
use project_progress_registe.Projects.Tasks.Types.{ResponsibleMember, Task}

abbrev pub has_task_id : Uuid → TaskRow → Bool
has_task_id id row = row.id == id

abbrev pub is_task_in : Uuid → Uuid → TaskRow → Bool
is_task_in project task row = row.project_id == project && row.id == task

abbrev pub to_responsible : UserRow → ResponsibleMember
to_responsible u = record { user_id = u.id; username = u.username; enabled = u.enabled }

-- The members that `jsonb_agg` collects.
abbrev pub responsible_members :
    List UserRow → List ResponsibilityRow → Uuid → List ResponsibleMember
responsible_members users rows task =
    map to_responsible (select (λ u. any (is_responsibility task u.id) rows) users)

abbrev pub to_task : Tables → TaskRow → UserRow → Task
to_task t row creator = record {
  id = row.id;
  project_id = row.project_id;
  name = row.name;
  goals_markdown = row.goals_markdown;
  goals_html = [];
  description_markdown = row.description_markdown;
  description_html = [];
  created_by = record { user_id = creator.id; username = creator.username };
  responsible_members = responsible_members t.users t.responsibilities row.id;
  target_date = row.target_date;
  created_at = row.created_at;
  updated_at = row.updated_at;
  version = row.version;
}

-- The join with the creator, who must be there.
abbrev pub with_creator : Tables → TaskRow → Option UserRow → Option Task
with_creator t row none = none
with_creator t row (some creator) = some (to_task t row creator)

abbrev pub project_task : Tables → Option TaskRow → Option Task
project_task t none = none
project_task t (some row) = with_creator t row (find (has_id row.created_by) t.users)

abbrev pub project_tasks : Tables → List TaskRow → List Task
project_tasks t [] = []
project_tasks t (row ∷ rows) =
    let rest = project_tasks t rows in
    elim (project_task t (some row)) [ none ↦ rest | some task ↦ task ∷ rest ]

-- `taskProjection` with a condition on the task.
unfoldable pub load_task : (TaskRow → Bool) → Tables → Option Task
load_task test t = project_task t (find test t.tasks)

abbrev pub sees_project : Uuid → Uuid → Bool → Tables → ProjectRow → Bool
sees_project project actor as_admin t row =
    has_project_id project row && can_see actor as_admin t row

unfoldable pub lock_authorized_project : Uuid → Uuid → Bool → Bool → Db (Unit {0})
lock_authorized_project project actor as_admin require_active = do
  found ← query (λ t. find (sees_project project actor as_admin t) t.projects)
  row ← or_raise found not_found
  raise_if (require_active && not row.active) inactive_project

unfoldable pub list_task_rows : Uuid → Bool → Uuid → Db (List Task)
list_task_rows actor as_admin project = transaction do
  lock_authorized_project project actor as_admin false
  query (λ t. project_tasks t (select (λ row. row.project_id == project) t.tasks))

unfoldable pub get_task_row : Uuid → Bool → Uuid → Uuid → Db Task
get_task_row actor as_admin project task = transaction do
  lock_authorized_project project actor as_admin false
  found ← query (load_task (is_task_in project task))
  or_raise found not_found

-- An enabled member with a current membership of the project, who is among the requested.
abbrev pub is_eligible : Uuid → Tables → UserRow → Bool
is_eligible project t u = is_valid_member u && any (is_current_member project u.id) t.members

abbrev pub eligible_ids : Uuid → List Uuid → Tables → List Uuid
eligible_ids project ids t =
    sort_ids (map (λ u. u.id) (select (λ u. contains u.id ids && is_eligible project t u) t.users))

unfoldable pub validate_responsible_members : Uuid → List Uuid → Db (List Uuid)
validate_responsible_members project [] = pure []
validate_responsible_members project (id ∷ ids) = do
  validated ← query (eligible_ids project (id ∷ ids))
  raise_if (not (length validated == length (id ∷ ids))) invalid_responsible
  pure validated

-- INSERT … SELECT FROM unnest … ON CONFLICT DO NOTHING
abbrev pub add_responsibilities : Uuid → List Uuid → List ResponsibilityRow → List ResponsibilityRow
add_responsibilities task [] rows = rows
add_responsibilities task (id ∷ ids) rows = add_responsibilities task ids (
    if any (is_responsibility task id) rows
    then rows
    else rows ++ record { task_id = task; user_id = id } ∷ [])

abbrev pub is_dropped : Uuid → List Uuid → ResponsibilityRow → Bool
is_dropped task ids row = row.task_id == task && not (contains row.user_id ids)

unfoldable pub replace_task_responsibilities : Uuid → List Uuid → Db (Unit {0})
replace_task_responsibilities task ids = do
  exec (λ t. record t { responsibilities = delete (is_dropped task ids) t.responsibilities })
  exec (λ t. record t { responsibilities = add_responsibilities task ids t.responsibilities })
