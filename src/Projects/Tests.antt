-- ===== src/Projects/Tests.antt =====
-- Projects, members and geofences on small concrete tables.
use project_progress_registe.Base.{pos, ◌≡◌, ◌≢◌, ◌⊎◌, refl, true, false, none, some, [], ◌∷◌, any}
use project_progress_registe.Text.{codes}
use project_progress_registe.Schema.{no_id, ProjectRow, TaskRow}
use project_progress_registe.Db.{
  World, ok, run, ◌>>=◌, ◌>>◌, raise_if, or_raise, attempt, gets, modify, query, exec, now,
  fresh_id, commit, finish, transaction, insert_audit,
}
use project_progress_registe.Identity.Types.{User, to_user}
use project_progress_registe.Identity.Accounts.{new_row}
use project_progress_registe.Identity.Tests.{no_files, no_tables, calm, bob, event, context}
use project_progress_registe.Projects.Types.{Project, Geofence, ReplaceGeofenceInput}
use project_progress_registe.Projects.Store.{
  Rounding, is_current_member, to_geofence, current_geofence, to_project, lock_project,
  close_current, new_geofence_row, get_project_row, replace_geofence_row,
}
use project_progress_registe.Projects.Members.{
  to_member, new_member_row, revise_tasks, drop_responsibilities, add_member_row, remove_member_row,
}
use project_progress_registe.Projects.Writes.{
  add, write, tables-write_err, ProjectChanged, update_project_row-ProjectChanged,
}
use project_progress_registe.Db.{err, conflict}
use project_progress_registe.Projects.Store.{update_project_row}
use project_progress_registe.Projects.Fences.{Replaced, replace_geofence_row-Replaced}
use project_progress_registe.Projects.Membership.{
  Added, Removed, add_member_row-Added, remove_member_row-Removed, get_project_row-visible,
  get_project_row-remove_member_row,
}
use project_progress_registe.Projects.Service.{is_project_admin, require_application_access}
use project_progress_registe.Projects.Guard.{remove, serve, IsRefused, serve-IsRefused}

abbrev pub site_row : ProjectRow
site_row = record {
  id = 7;
  name = codes "site";
  description_markdown = [];
  active = true;
  created_by = 1;
  created_at = 1;
  updated_at = 1;
  version = 1;
}

abbrev pub wall : TaskRow
wall = record {
  id = 9;
  project_id = 7;
  name = codes "wall";
  goals_markdown = [];
  description_markdown = [];
  target_date = [];
  created_by = 1;
  created_at = 1;
  updated_at = 1;
  version = 1;
}

abbrev site : World
site = record {
  env = calm;
  calls = 0;
  files = no_files;
  tables = record no_tables {
    users = new_row 2 5 bob ∷ [];
    projects = site_row ∷ [];
    tasks = wall ∷ [];
  };
}

-- The site with a member who is responsible for the task.
abbrev staffed : World
staffed = record {
  env = calm;
  calls = 0;
  files = no_files;
  tables = record site.tables {
    members = new_member_row 7 2 1 5 ∷ [];
    responsibilities = record { task_id = 9; user_id = 2 } ∷ [];
  };
}

bob_added : (run (add_member_row 7 2 event) site).0 ≡ ok (to_member 1003 (new_row 2 5 bob))
unfolding add_member_row lock_project transaction finish commit attempt query gets exec modify
    raise_if or_raise now fresh_id insert_audit ◌>>=◌ ◌>>◌
bob_added = refl

add_member_row-Added_example :
    Added 7 2 event site.tables
      (to_member 1003 (new_row 2 5 bob))
      (run (add_member_row 7 2 event) site).1.tables
add_member_row-Added_example = add_member_row-Added 7 2 event site bob_added

bob_removed : (run (remove_member_row 7 2 event) staffed).0 ≡ ok tt
unfolding remove_member_row revise_tasks drop_responsibilities lock_project transaction finish
    commit attempt query gets exec modify raise_if or_raise now fresh_id insert_audit ◌>>=◌ ◌>>◌
bob_removed = refl

remove_member_row-Removed_example :
    Removed 7 2 no_id staffed.tables (run (remove_member_row 7 2 event) staffed).1.tables
remove_member_row-Removed_example = remove_member_row-Removed 7 2 event staffed bob_removed

abbrev site_project : Project
site_project = to_project none site_row

bob_reads : (run (get_project_row 2 false 7) staffed).0 ≡ ok site_project
unfolding get_project_row attempt query gets or_raise ◌>>=◌ ◌>>◌
bob_reads = refl

get_project_row-visible_example :
    (site_project.id ≡ 7)
    × (site_project.geofence ≡ current_geofence 7 staffed.tables)
    × ((false ≡ true) ⊎ (any (is_current_member 7 2) staffed.tables.members ≡ true))
get_project_row-visible_example = get_project_row-visible 2 7 false staffed bob_reads

get_project_row-remove_member_row_example :
    (run (get_project_row 2 false 7) (run (remove_member_row 7 2 event) staffed).1).0
    ≢ ok site_project
get_project_row-remove_member_row_example =
    get_project_row-remove_member_row 7 2 event staffed
      (run (remove_member_row 7 2 event) staffed).1 bob_removed refl

abbrev exact : Rounding
exact = record { degrees = λ d. d; metres = λ d. d }

abbrev fence_input : ReplaceGeofenceInput
fence_input = record {
  latitude = 0;
  longitude = 0;
  radius_metres = 0x3ff0000000000000;
  max_accuracy_metres = 0x3ff0000000000000;
  expected_version = pos 0;
}

abbrev fence_row : Geofence
fence_row = to_geofence (new_geofence_row exact 103 7 1 fence_input no_id 1003)

fence_set : (run (replace_geofence_row exact 7 fence_input event) site).0 ≡ ok fence_row
unfolding replace_geofence_row close_current lock_project transaction finish commit attempt query
    gets exec modify raise_if now fresh_id insert_audit ◌>>=◌ ◌>>◌
fence_set = refl

replace_geofence_row-Replaced_example :
    Replaced 7 fence_input site.tables fence_row
      (run (replace_geofence_row exact 7 fence_input event) site).1.tables
replace_geofence_row-Replaced_example =
    replace_geofence_row-Replaced exact 7 fence_input event site fence_set

abbrev bob_user : User
bob_user = to_user (new_row 2 5 bob)

bob_is_plain : is_project_admin bob_user ≡ false
unfolding is_project_admin require_application_access
bob_is_plain = refl

serve-IsRefused_example :
    IsRefused 2 staffed.tables
      (run (serve (λ s. some s) exact bob_user context (remove 7 2)) staffed)
serve-IsRefused_example =
    serve-IsRefused (λ s. some s) exact bob_user context (remove 7 2) staffed bob_is_plain

bob_twice : (run (write exact (add 7 2 event)) staffed).0 ≡ err conflict
unfolding add_member_row lock_project transaction finish commit attempt query gets exec modify
    raise_if or_raise now fresh_id insert_audit ◌>>=◌ ◌>>◌
bob_twice = refl

tables-write_err_example : (run (write exact (add 7 2 event)) staffed).1.tables ≡ staffed.tables
tables-write_err_example = tables-write_err exact (add 7 2 event) staffed bob_twice

abbrev renamed : Project
renamed = record site_project {
  name = codes "yard";
  active = false;
  updated_at = 1002;
  version = 2;
}

site_renamed : (run (update_project_row 7 (codes "yard") [] false 1 event) staffed).0 ≡ ok renamed
unfolding update_project_row transaction finish commit attempt query gets exec modify raise_if
    or_raise now fresh_id insert_audit ◌>>=◌ ◌>>◌
site_renamed = refl

update_project_row-ProjectChanged_example :
    ProjectChanged 7
      (codes "yard")
      []
      false
      1
      event
      staffed.tables
      renamed
      (run (update_project_row 7 (codes "yard") [] false 1 event) staffed).1.tables
update_project_row-ProjectChanged_example =
    update_project_row-ProjectChanged 7 (codes "yard") [] false 1 event staffed site_renamed
