-- ===== src/Projects/Store.antt =====
-- internal/projects/postgres.go: projects and their geofences. PostgreSQL's rounding of a double to
-- numeric(9, 6) and numeric(10, 2) is a parameter.
use project_progress_registe.Base.{
  ℕ, is_pos_of, suc, Bool, true, false, not, ◌&&◌, ◌||◌, Option, none, some, List, [], ◌∷◌, ◌++◌,
  map, String, ◌==◌, if◌then◌else◌, find, any, select, update,
}
use project_progress_registe.Text.{Text, codes, text_eq}
use project_progress_registe.Schema.{
  Uuid, Instant, Double, Detail, text, num, AuditEvent, ProjectRow, GeofenceRow, MemberRow, Tables,
}
use project_progress_registe.Db.{
  Db, not_found, conflict, database, query, exec, attempt, gets, modify, pure, raise_if, or_raise,
  now, fresh_id, transaction, insert_audit, ◌>>=◌, ◌>>◌,
}
use project_progress_registe.Projects.Types.{
  Project, Geofence, CreateProjectInput, ReplaceGeofenceInput,
}

pub record Rounding : Type 0 where
  pub degrees : Double → Double
  pub metres : Double → Double

-- `event.Details[key] = value`
abbrev pub is_key : String → String × Detail → Bool
is_key key entry = text_eq (codes entry.0) (codes key)

abbrev pub set_detail : String → Detail → AuditEvent → AuditEvent
set_detail key value event = record event {
  details =
      if any (is_key key) event.details
      then update (is_key key) (λ _. (key, value)) event.details
      else event.details ++ (key, value) ∷ [];
}

abbrev pub is_none_at : Option Instant → Bool
is_none_at none = true
is_none_at (some at) = false

abbrev pub has_project_id : Uuid → ProjectRow → Bool
has_project_id id row = row.id == id

abbrev pub is_current_geofence : Uuid → GeofenceRow → Bool
is_current_geofence project row = row.project_id == project && is_none_at row.valid_to

abbrev pub is_current_member : Uuid → Uuid → MemberRow → Bool
is_current_member project user row =
    row.project_id == project && row.user_id == user && is_none_at row.removed_at

abbrev pub to_geofence : GeofenceRow → Geofence
to_geofence row = record {
  id = row.id;
  version = row.version;
  latitude = row.latitude;
  longitude = row.longitude;
  radius_metres = row.radius_metres;
  max_accuracy_metres = row.max_accuracy_metres;
  valid_from = row.valid_from;
}

abbrev pub geofence_of : Option GeofenceRow → Option Geofence
geofence_of none = none
geofence_of (some row) = some (to_geofence row)

abbrev pub current_geofence : Uuid → Tables → Option Geofence
current_geofence project t = geofence_of (find (is_current_geofence project) t.geofences)

abbrev pub to_project : Option Geofence → ProjectRow → Project
to_project geofence row = record {
  id = row.id;
  name = row.name;
  description_markdown = row.description_markdown;
  description_html = [];
  active = row.active;
  created_by = row.created_by;
  created_at = row.created_at;
  updated_at = row.updated_at;
  version = row.version;
  geofence = geofence;
}

-- `$2::boolean OR EXISTS (…)`
abbrev pub can_see : Uuid → Bool → Tables → ProjectRow → Bool
can_see actor is_admin t row = is_admin || any (is_current_member row.id actor) t.members

-- The rows come in the order of their lower-cased names in the source, in table order here.
unfoldable pub list_project_rows : Uuid → Bool → Db (List Project)
list_project_rows actor is_admin = query (λ t.
    map (λ row. to_project (current_geofence row.id t) row)
      (select (can_see actor is_admin t) t.projects))

unfoldable pub get_project_row : Uuid → Bool → Uuid → Db Project
get_project_row actor is_admin project = do
  found ← query (λ t. find (λ row. row.id == project && can_see actor is_admin t row) t.projects)
  row ← or_raise found not_found
  geofence ← gets (current_geofence project)
  pure (to_project geofence row)

abbrev pub new_project_row : Uuid → Instant → CreateProjectInput → Uuid → ProjectRow
new_project_row id at input creator = record {
  id = id;
  name = input.name;
  description_markdown = input.description_markdown;
  active = true;
  created_by = creator;
  created_at = at;
  updated_at = at;
  version = 1;
}

unfoldable pub create_project_row : CreateProjectInput → AuditEvent → Db Project
create_project_row input event = transaction do
  id ← fresh_id
  at ← now
  attempt database
  taken ← gets (λ t. any (has_project_id id) t.projects)
  raise_if taken database
  let row = new_project_row id at input event.actor_user_id
  modify (λ t. record t { projects = t.projects ++ row ∷ [] })
  insert_audit (set_detail "name" (text input.name) (record event { target_id = id }))
  pure (to_project none row)

abbrev pub set_project : Text → Text → Bool → Instant → ProjectRow → ProjectRow
set_project name description active at row = record row {
  name = name;
  description_markdown = description;
  active = active;
  updated_at = at;
  version = suc row.version;
}

-- `*input.Active` is an argument of its own: the service passes no nil.
unfoldable pub update_project_row : Uuid → Text → Text → Bool → ℕ → AuditEvent → Db Project
update_project_row project name description active expected event = transaction do
  found ← query (λ t. find (has_project_id project) t.projects)
  current ← or_raise found not_found
  raise_if (not (current.version == expected)) conflict
  at ← now
  exec (λ t. record t {
    projects = update (has_project_id project) (set_project name description active at) t.projects;
  })
  insert_audit event
  geofence ← query (current_geofence project)
  pure (to_project geofence (set_project name description active at current))

unfoldable pub lock_project : Uuid → Db (Unit {0})
lock_project project = do
  found ← query (λ t. any (has_project_id project) t.projects)
  raise_if (not found) not_found

abbrev pub version_of : Option GeofenceRow → ℕ
version_of none = 0
version_of (some row) = row.version

abbrev pub close_geofence : Uuid → Instant → Tables → Tables
close_geofence id at t = record t {
  geofences = update (λ row. row.id == id) (λ row. record row { valid_to = some at }) t.geofences;
}

-- `if currentID != ""`
unfoldable pub close_current : Option GeofenceRow → Instant → Db (Unit {0})
close_current none at = pure tt
close_current (some row) at = exec (close_geofence row.id at)

-- UNIQUE (project_id, version), and one current geofence of a project.
abbrev pub clashes_geofence : Uuid → Uuid → ℕ → GeofenceRow → Bool
clashes_geofence id project version row =
    row.id == id
    || (row.project_id == project && row.version == version)
    || is_current_geofence project row

module _ (r : Rounding) where
  abbrev pub new_geofence_row :
      Uuid → Uuid → ℕ → ReplaceGeofenceInput → Uuid → Instant → GeofenceRow
  new_geofence_row id project version input creator at = record {
    id = id;
    project_id = project;
    version = version;
    latitude = r.degrees input.latitude;
    longitude = r.degrees input.longitude;
    radius_metres = r.metres input.radius_metres;
    max_accuracy_metres = r.metres input.max_accuracy_metres;
    created_by = creator;
    valid_from = at;
    valid_to = none;
  }

  -- The current geofence is closed if there is one, and the next version is inserted.
  unfoldable pub replace_geofence_row : Uuid → ReplaceGeofenceInput → AuditEvent → Db Geofence
  replace_geofence_row project input event = transaction do
    lock_project project
    current ← query (λ t. find (is_current_geofence project) t.geofences)
    raise_if (not (is_pos_of (version_of current) input.expected_version)) conflict
    closed ← now
    close_current current closed
    id ← fresh_id
    at ← now
    attempt database
    taken ← gets (λ t. any (clashes_geofence id project (suc (version_of current))) t.geofences)
    raise_if taken database
    let row = new_geofence_row id project (suc (version_of current)) input event.actor_user_id at
    modify (λ t. record t { geofences = t.geofences ++ row ∷ [] })
    insert_audit (set_detail "version" (num row.version) event)
    pure (to_geofence row)
