-- ===== src/Projects/Writes.antt =====
-- The writes of the project repository: none of them is done by halves, and a project's version
-- guards its update.
use project_progress_registe.Base.{
  ℕ, suc, ◌≡◌, Bool, some, List, [], ◌∷◌, ◌++◌, ◌==◌, arith, find, update,
}
use project_progress_registe.Text.{Text}
use project_progress_registe.Schema.{Uuid, Instant, AuditEvent, AuditRow, ProjectRow, Tables}
use project_progress_registe.Db.{Error, ok, err, World, Db, run}
use project_progress_registe.Db.Steps.{
  Yields, run-Yields, pure-Yields, transaction-Yields, query->>=, or_raise->>=, raise_if->>,
  now->>=, exec->>, insert_audit->>,
}
use project_progress_registe.Identity.Ops.{discard}
use project_progress_registe.Identity.Atomic.{IsAtomic, transaction-IsAtomic, discard-IsAtomic}
use project_progress_registe.Projects.Types.{Project, CreateProjectInput, ReplaceGeofenceInput}
use project_progress_registe.Projects.Store.{
  Rounding, has_project_id, current_geofence, create_project_row, update_project_row,
  replace_geofence_row,
}
use project_progress_registe.Projects.Members.{add_member_row, remove_member_row}

pub data Write : Type 0 where
  create : CreateProjectInput → AuditEvent → Write
  change : Uuid → Text → Text → Bool → ℕ → AuditEvent → Write
  add remove : Uuid → Uuid → AuditEvent → Write
  fence : Uuid → ReplaceGeofenceInput → AuditEvent → Write

abbrev pub write : Rounding → Write → Db (Unit {0})
write r (create input event) = discard (create_project_row input event)
write r (change project name description active expected event) =
    discard (update_project_row project name description active expected event)
write r (add project user event) = discard (add_member_row project user event)
write r (remove project user event) = remove_member_row project user event
write r (fence project input event) = discard (replace_geofence_row r project input event)

write-IsAtomic : (r : Rounding) (op : Write) → IsAtomic (write r op)
unfolding create_project_row update_project_row add_member_row remove_member_row
    replace_geofence_row
write-IsAtomic r (create input event) = discard-IsAtomic _ (transaction-IsAtomic _)
write-IsAtomic r (change project name description active expected event) =
    discard-IsAtomic _ (transaction-IsAtomic _)
write-IsAtomic r (add project user event) = discard-IsAtomic _ (transaction-IsAtomic _)
write-IsAtomic r (remove project user event) = transaction-IsAtomic _
write-IsAtomic r (fence project input event) = discard-IsAtomic _ (transaction-IsAtomic _)

-- A write of the project repository that returns an error leaves every table as it was.
pub tables-write_err :
    (r : Rounding) (op : Write) (w : World) {e : Error}
    → (run (write r op) w).0 ≡ err e
    → (run (write r op) w).1.tables ≡ w.tables
tables-write_err r op w {e} h = write-IsAtomic r op w e h

pub record ProjectChanged (project : Uuid) (name description : Text) (active : Bool) (expected : ℕ)
    (event : AuditEvent) (t : Tables) (p : Project) (t' : Tables) : Type 0 where
  pub current : ProjectRow
  pub at : Instant
  pub row : AuditRow
  pub found : find (λ v. v.id == project) t.projects ≡ some current
  pub version : current.version ≡ expected
  pub audited : row.event ≡ event
  pub returned : p ≡ record {
    id = project;
    name = name;
    description_markdown = description;
    description_html = [];
    active = active;
    created_by = current.created_by;
    created_at = current.created_at;
    updated_at = at;
    version = suc expected;
    geofence = current_geofence project t;
  }
  pub tables : t' ≡ record t {
    projects =
        update
          (λ v. v.id == project)
          (λ v. record v {
            name = name;
            description_markdown = description;
            active = active;
            updated_at = at;
            version = suc v.version;
          })
          t.projects;
    audit_events = t.audit_events ++ row ∷ [];
  }

find-project :
    (project : Uuid) (rows : List ProjectRow) {current : ProjectRow}
    → find (has_project_id project) rows ≡ some current
    → current.id ≡ project
find-project project [] h = absurd (cc h)
find-project project (row ∷ rows) {current} h =
    ground (arith, h, find-project project rows {current = current})

update_project_row-Yields :
    (project : Uuid) (name description : Text) (active : Bool) (expected : ℕ) (event : AuditEvent)
    {t t' : Tables} {p : Project}
    → Yields (update_project_row project name description active expected event) t p t'
    → ProjectChanged project name description active expected event t p t'
unfolding update_project_row
update_project_row-Yields project name description active expected event {t} y =
    query->>= _ _ (transaction-Yields _ y) λ y₁. or_raise->>= _ _ _ y₁ λ current found y₂.
      raise_if->> _ _ _ y₂ λ versioned y₃. now->>= _ y₃ λ at y₄. exec->> _ _ y₄ λ y₅.
        insert_audit->> _ _ y₅ λ row audited y₆. query->>= _ _ y₆ λ y₇.
          let (returned, tables) = pure-Yields _ y₇ in
          let versioned' : current.version ≡ expected = ground (arith, versioned) in
          record {
            current = current;
            at = at;
            row = row;
            found = found;
            version = versioned';
            audited = audited;
            returned = cc (returned, find-project project t.projects found, versioned');
            tables = tables;
          }

-- A project update that returns found the project at the expected version, set its name, description
-- and standing and raised its version by one, changed nothing else but for one audit row, and returns
-- the new row with the current geofence.
pub update_project_row-ProjectChanged :
    (project : Uuid) (name description : Text) (active : Bool) (expected : ℕ) (event : AuditEvent)
    (w : World) {p : Project}
    → (run (update_project_row project name description active expected event) w).0 ≡ ok p
    → ProjectChanged project name description active expected event w.tables p
        (run (update_project_row project name description active expected event) w).1.tables
update_project_row-ProjectChanged project name description active expected event w h =
    update_project_row-Yields project name description active expected event
      (run-Yields (update_project_row project name description active expected event) w h)
