-- ===== src/Projects/Tasks/Tests.antt =====
-- Tasks on small concrete tables.
use project_progress_registe.Base.{
  arith, ℕ, pos, at_least, ◌≡◌, refl, true, false, Option, none, some, List, [], ◌∷◌,
}
use project_progress_registe.Text.{
  Text, codes, trim_space, trim_left, trim_right, is_space, to_lower, to_lower_rune, rune_count,
  byte_len,
}
use project_progress_registe.Schema.{Uuid}
use project_progress_registe.Db.{
  World, ok, run, ◌>>=◌, ◌>>◌, raise_if, or_raise, attempt, gets, modify, query, exec, now,
  fresh_id, commit, finish, transaction, insert_audit,
}
use project_progress_registe.Identity.Types.{User, to_user}
use project_progress_registe.Identity.Accounts.{new_row}
use project_progress_registe.Identity.Tests.{no_files, no_tables, calm, bob, event, context}
use project_progress_registe.Projects.Members.{new_member_row}
use project_progress_registe.Projects.Service.{require_application_access, settle_read, render_text}
use project_progress_registe.Projects.Tests.{site_row, wall}
use project_progress_registe.Base.{sort_ids}
use project_progress_registe.Projects.Tasks.Types.{
  Task, CreateTaskV2Input, UpdateTaskV2Input, TaskPersistenceInput, null, task_uuid,
  add_responsible, collect_responsible, validate_target_date, validate_task,
}
use project_progress_registe.Projects.Tasks.Store.{
  load_task, lock_authorized_project, validate_responsible_members, replace_task_responsibilities,
}
use project_progress_registe.Projects.Tasks.Changes.{create_task_row, update_task_row}
use project_progress_registe.Projects.Tasks.Service.{
  or_denied, render_task_markdown, create_task_with, create_task_v2, update_task_with,
  update_task_v2,
}
use project_progress_registe.Projects.Tasks.Outcomes.{Created, Edited}
use project_progress_registe.Projects.Tasks.Record.{
  leave, edit, write_tasks, HasRecord, write_tasks-HasRecord,
}
use project_progress_registe.Projects.Tasks.Requests.{Accepted, validate_task-Accepted}
use project_progress_registe.Projects.Tasks.Served.{
  IsGiven, Served, create_task_v2-Created, update_task_v2-Edited,
}

abbrev bob_id : Uuid
bob_id = 0x40008000000000000002

abbrev bob_text : Text
bob_text = codes " 00000000-0000-4000-8000-000000000002"

abbrev crew : World
crew = record {
  env = calm;
  calls = 0;
  files = no_files;
  tables = record no_tables {
    users = new_row bob_id 5 bob ∷ [];
    projects = site_row ∷ [];
    members = new_member_row 7 bob_id 1 5 ∷ [];
    tasks = record wall { created_by = bob_id } ∷ [];
    responsibilities = record { task_id = 9; user_id = bob_id } ∷ [];
  };
}

abbrev bob_user : User
bob_user = to_user (new_row bob_id 5 bob)

abbrev roof : CreateTaskV2Input
roof = record {
  name = codes " roof ";
  goals_markdown = codes "dry";
  description_markdown = [];
  responsible_user_ids = bob_text ∷ [];
  target_date = none;
}

abbrev roof_checked : TaskPersistenceInput
roof_checked = record {
  name = codes "roof";
  goals_markdown = codes "dry";
  description_markdown = [];
  responsible_user_ids = bob_id ∷ [];
  target_date = [];
  expected_version = 0;
  legacy_singular = false;
}

roof_valid :
    validate_task
      (λ c. c)
      (λ s. true)
      roof.name
      roof.goals_markdown
      roof.description_markdown
      roof.responsible_user_ids
      roof.target_date
    ≡ ok roof_checked
unfolding validate_task collect_responsible add_responsible task_uuid validate_target_date
    trim_space trim_left trim_right is_space to_lower to_lower_rune rune_count byte_len sort_ids
roof_valid = refl

validate_task-Accepted_example :
    Accepted
      (λ c. c)
      roof.name
      roof.goals_markdown
      roof.description_markdown
      roof.responsible_user_ids
      roof_checked
validate_task-Accepted_example =
    validate_task-Accepted (λ c. c) (λ s. true) roof.name roof.goals_markdown
      roof.description_markdown roof.responsible_user_ids roof.target_date roof_valid

abbrev roof_task : Task
roof_task = record {
  id = 103;
  project_id = 7;
  name = codes "roof";
  goals_markdown = codes "dry";
  goals_html = codes "dry";
  description_markdown = [];
  description_html = [];
  created_by = record { user_id = bob_id; username = codes "bob" };
  responsible_members = record { user_id = bob_id; username = codes "bob"; enabled = true } ∷ [];
  target_date = [];
  created_at = 1003;
  updated_at = 1003;
  version = 1;
}

roof_created :
    (run (create_task_v2 (λ s. some s) (λ c. c) (λ s. true) bob_user 7 roof context) crew).0
    ≡ ok roof_task
unfolding create_task_v2 create_task_with require_application_access render_task_markdown
    render_text or_denied settle_read create_task_row lock_authorized_project
    validate_responsible_members replace_task_responsibilities load_task transaction finish commit
    attempt query gets exec modify raise_if or_raise now fresh_id insert_audit ◌>>=◌ ◌>>◌
    validate_task collect_responsible add_responsible task_uuid validate_target_date trim_space
    trim_left trim_right is_space to_lower to_lower_rune rune_count byte_len sort_ids
roof_created = refl

abbrev hut : UpdateTaskV2Input
hut = record {
  name = codes "hut";
  goals_markdown = [];
  description_markdown = [];
  responsible_user_ids = some [];
  target_date = null;
  expected_version = pos 1;
}

abbrev hut_task : Task
hut_task = record {
  id = 9;
  project_id = 7;
  name = codes "hut";
  goals_markdown = [];
  goals_html = [];
  description_markdown = [];
  description_html = [];
  created_by = record { user_id = bob_id; username = codes "bob" };
  responsible_members = [];
  target_date = [];
  created_at = 1;
  updated_at = 1003;
  version = 2;
}

hut_updated :
    (run (update_task_v2 (λ s. some s) (λ c. c) (λ s. true) bob_user 7 9 hut context) crew).0
    ≡ ok hut_task
unfolding update_task_v2 update_task_with require_application_access render_task_markdown
    render_text or_denied settle_read update_task_row lock_authorized_project
    validate_responsible_members replace_task_responsibilities load_task transaction finish commit
    attempt query gets exec modify raise_if or_raise now fresh_id insert_audit ◌>>=◌ ◌>>◌
    validate_task collect_responsible add_responsible task_uuid validate_target_date trim_space
    trim_left trim_right is_space to_lower to_lower_rune rune_count byte_len sort_ids
hut_updated = refl

create_task_v2-Created_example :
    (checked : TaskPersistenceInput) × (stored : Task) × Served
      (λ s. some s)
      (λ c. c)
      (λ s. true)
      bob_user
      roof.name
      roof.goals_markdown
      roof.description_markdown
      roof.responsible_user_ids
      roof.target_date
      checked
      stored
      roof_task
    × Created 7 bob_id false checked checked.responsible_user_ids crew.tables stored
        (run
          (create_task_v2 (λ s. some s) (λ c. c) (λ s. true) bob_user 7 roof context)
          crew).1.tables
create_task_v2-Created_example =
    create_task_v2-Created (λ s. some s) (λ c. c) (λ s. true) bob_user 7 context roof crew
      (refl, tt) roof_created

update_task_v2-Edited_example :
    (responsible : List Text) × (date : Option Text) × (expected : ℕ)
    × (checked : TaskPersistenceInput) × (stored : Task) × (hut.responsible_user_ids
        ≡ some responsible)
    × IsGiven hut.target_date date
    × (at_least 1 hut.expected_version ≡ some expected)
    × Served
        (λ s. some s)
        (λ c. c)
        (λ s. true)
        bob_user
        hut.name
        hut.goals_markdown
        hut.description_markdown
        responsible
        date
        checked
        stored
        hut_task
    × Edited 7 9 bob_id false
        (record checked { expected_version = expected; legacy_singular = false })
        checked.responsible_user_ids
        crew.tables
        stored
        (run
          (update_task_v2 (λ s. some s) (λ c. c) (λ s. true) bob_user 7 9 hut context)
          crew).1.tables
update_task_v2-Edited_example =
    update_task_v2-Edited (λ s. some s) (λ c. c) (λ s. true) bob_user 7 context 9 hut crew
      (refl, tt) hut_updated

-- The task has no revision yet.
kept_record : HasRecord crew.tables
kept_record = ((refl, tt), λ k. ground arith)

write_tasks-HasRecord_example :
    HasRecord
      (write_tasks
        (edit bob_id false 7 9 (record roof_checked { expected_version = 1 }) event
          ∷ leave 7 bob_id event
          ∷ [])
        crew).tables
write_tasks-HasRecord_example =
    write_tasks-HasRecord
      (edit bob_id false 7 9 (record roof_checked { expected_version = 1 }) event
        ∷ leave 7 bob_id event
        ∷ [])
      crew kept_record
