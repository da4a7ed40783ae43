-- ===== src/Projects/Members.antt =====
-- internal/projects/postgres.go: the memberships of a project, and what the removal of a member does
-- to the tasks that the member was responsible for.
use project_progress_registe.Base.{
  suc, Bool, not, ◌&&◌, none, some, List, [], ◌∷◌, ◌++◌, map, ◌==◌, find, any, count, select,
  update, delete, sort_ids,
}
use project_progress_registe.Schema.{
  Uuid, no_id, Instant, num, AuditEvent, UserRow, MemberRow, TaskRow, ResponsibilityRow,
  TaskRevisionRow, Tables,
}
use project_progress_registe.Db.{
  Db, not_found, conflict, invalid_member, query, exec, attempt, database, gets, modify, pure,
  raise_if, or_raise, now, transaction, insert_audit, ◌>>=◌, ◌>>◌,
}
use project_progress_registe.Identity.Types.{is_admin}
use project_progress_registe.Identity.Sessions.{has_id}
use project_progress_registe.Projects.Types.{Member}
use project_progress_registe.Projects.Store.{
  has_project_id, is_none_at, is_current_member, lock_project, set_detail,
}

abbrev pub to_member : Instant → UserRow → Member
to_member added_at u = record {
  user_id = u.id;
  username = u.username;
  email = u.email;
  enabled = u.enabled;
  added_at = added_at;
}

-- The join of a membership with its user.
abbrev pub joined : List UserRow → List MemberRow → List Member
joined users [] = []
joined users (row ∷ rows) =
    let rest = joined users rows in
    elim (find (has_id row.user_id) users) [
      | none ↦ rest
      | some u ↦ to_member row.added_at u ∷ rest
    ]

abbrev pub is_open_member : Uuid → MemberRow → Bool
is_open_member project row = row.project_id == project && is_none_at row.removed_at

-- By username in the source, in table order here.
unfoldable pub list_member_rows : Uuid → Db (List Member)
list_member_rows project = do
  exists ← query (λ t. any (has_project_id project) t.projects)
  raise_if (not exists) not_found
  query (λ t. joined t.users (select (is_open_member project) t.members))

-- `!member.Enabled || role != "member"`
abbrev pub is_valid_member : UserRow → Bool
is_valid_member u = u.enabled && not (is_admin u.role)

abbrev pub new_member_row : Uuid → Uuid → Uuid → Instant → MemberRow
new_member_row project user by at = record {
  project_id = project;
  user_id = user;
  added_by = by;
  added_at = at;
  removed_by = no_id;
  removed_at = none;
}

unfoldable pub add_member_row : Uuid → Uuid → AuditEvent → Db Member
add_member_row project user event = transaction do
  lock_project project
  found ← query (λ t. find (has_id user) t.users)
  u ← or_raise found invalid_member
  raise_if (not (is_valid_member u)) invalid_member
  at ← now
  attempt database
  taken ← gets (λ t. any (is_current_member project user) t.members)
  raise_if taken conflict
  modify (λ t. record t {
    members = t.members ++ new_member_row project user event.actor_user_id at ∷ [];
  })
  insert_audit event
  pure (to_member at u)

abbrev pub end_membership : Uuid → Instant → MemberRow → MemberRow
end_membership by at row = record row { removed_by = by; removed_at = some at }

abbrev pub is_responsibility : Uuid → Uuid → ResponsibilityRow → Bool
is_responsibility task user row = row.task_id == task && row.user_id == user

-- The tasks of the project that the user is responsible for.
abbrev pub is_affected : Uuid → Uuid → List ResponsibilityRow → TaskRow → Bool
is_affected project user rows task =
    task.project_id == project && any (is_responsibility task.id user) rows

-- `ARRAY(SELECT tr.user_id … ORDER BY tr.user_id)`
abbrev pub responsible_of : Uuid → List ResponsibilityRow → List Uuid
responsible_of task rows =
    sort_ids (map (λ row. row.user_id) (select (λ row. row.task_id == task) rows))

abbrev pub revision_of : Uuid → Uuid → List ResponsibilityRow → TaskRow → TaskRevisionRow
revision_of user by rows task = record {
  task_id = task.id;
  from_version = task.version;
  to_version = suc task.version;
  previous_name = task.name;
  previous_goals_markdown = task.goals_markdown;
  previous_description_markdown = task.description_markdown;
  previous_responsible_user_ids = responsible_of task.id rows;
  previous_target_date = task.target_date;
  new_name = task.name;
  new_goals_markdown = task.goals_markdown;
  new_description_markdown = task.description_markdown;
  new_responsible_user_ids = delete (λ id. id == user) (responsible_of task.id rows);
  new_target_date = task.target_date;
  change_reason = "membership_removed";
  edited_by = by;
}

abbrev pub bump_task : Instant → TaskRow → TaskRow
bump_task at task = record task { updated_at = at; version = suc task.version }

-- The statement that writes a revision of every affected task and bumps its version.
unfoldable pub revise_tasks : Uuid → Uuid → Uuid → Instant → Tables → Tables
revise_tasks project user by at t = record t {
  task_revisions =
      t.task_revisions
      ++ map (revision_of user by t.responsibilities)
          (select (is_affected project user t.responsibilities) t.tasks);
  tasks = update (is_affected project user t.responsibilities) (bump_task at) t.tasks;
}

abbrev pub is_task_of : Uuid → List TaskRow → ResponsibilityRow → Bool
is_task_of project tasks row =
    any (λ task. task.id == row.task_id && task.project_id == project) tasks

unfoldable pub drop_responsibilities : Uuid → Uuid → Tables → Tables
drop_responsibilities project user t = record t {
  responsibilities =
      delete (λ row. row.user_id == user && is_task_of project t.tasks row) t.responsibilities;
}

unfoldable pub remove_member_row : Uuid → Uuid → AuditEvent → Db (Unit {0})
remove_member_row project user event = transaction do
  lock_project project
  at ← now
  attempt database
  affected ← gets (λ t. any (is_current_member project user) t.members)
  modify (λ t. record t {
    members =
        update (is_current_member project user) (end_membership event.actor_user_id at) t.members;
  })
  raise_if (not affected) not_found
  cleared ← gets (λ t. count (is_affected project user t.responsibilities) t.tasks)
  revised ← now
  exec (revise_tasks project user event.actor_user_id revised)
  exec (drop_responsibilities project user)
  insert_audit (set_detail "cleared_task_responsibility_count" (num cleared) event)
