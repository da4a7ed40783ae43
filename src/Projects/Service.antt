-- ===== src/Projects/Service.antt =====
-- internal/projects/service.go: who may do what to a project. The Markdown renderer is a parameter: it
-- fails or gives HTML. The repository's rows carry no HTML.
use project_progress_registe.Base.{
  at_least, natural, suc, Bool, false, not, ◌||◌, Option, List, [], ◌∷◌, ◌==◌, if◌then◌else◌,
}
use project_progress_registe.Text.{Text}
use project_progress_registe.Schema.{
  Uuid, no_id, uuid, flag, tag, num, AuditContext, succeeded, denied,
}
use project_progress_registe.Db.{
  Db, Error, Result, ok, err, World, db, run, not_found, forbidden, password_change_required,
  unauthenticated, validation, lift, pure, raise, or_raise, branch, ◌>>=◌, ◌>>◌,
}
use project_progress_registe.Identity.Types.{User, is_admin}
use project_progress_registe.Identity.Service.{append_audit, event_of}
use project_progress_registe.Projects.Types.{
  Project, Geofence, Member, CreateProjectInput, UpdateProjectInput, ReplaceGeofenceInput,
  validate_project, validate_geofence,
}
use project_progress_registe.Projects.Store.{
  Rounding, list_project_rows, get_project_row, create_project_row, update_project_row,
  replace_geofence_row,
}
use project_progress_registe.Projects.Members.{list_member_rows, add_member_row, remove_member_row}

unfoldable pub require_application_access : User → Result (Unit {0})
require_application_access actor =
    if not actor.enabled || actor.id == no_id
    then err unauthenticated
    else if actor.must_change_password
    then err password_change_required
    else ok tt

unfoldable pub is_project_admin : User → Bool
unfolding require_application_access
is_project_admin actor = elim (require_application_access actor) [
  | ok _ ↦ is_admin actor.role
  | err _ ↦ false
]

unfoldable pub admin_refusal : User → Error
admin_refusal actor =
    if actor.must_change_password
    then password_change_required
    else if not actor.enabled || actor.id == no_id
    then unauthenticated
    else forbidden

-- `requireAdmin`: a refusal is audited first.
unfoldable pub require_project_admin : User → Uuid → AuditContext → Db (Unit {0})
require_project_admin actor target audit = branch (is_project_admin actor) (pure tt) (
    append_audit (
      event_of "authorization.project_admin_denied" actor.id "project" target denied audit
        (("reason", tag "admin_required") ∷ []))
    >> raise (admin_refusal actor))

-- `errors.Is(err, ErrNotFound)`: the audit and the refusal in place of that error, and any other
-- result as it is.
unfoldable pub settle_read : {A : Type 0} → Db (Unit {0}) → Result A × World → Result A × World
unfolding ◌>>◌
settle_read refusal (ok a, w) = (ok a, w)
settle_read refusal (err not_found, w) = run (refusal >> raise not_found) w
settle_read refusal (err e, w) = (err e, w)

module _ (render : Text → Option Text) where
  unfoldable pub render_text : Text → Db Text
  render_text source = or_raise (render source) (validation "markdown")

  unfoldable pub render_project : Project → Db Project
  render_project project = do
    html ← render_text project.description_markdown
    pure (record project { description_html = html })

  unfoldable pub render_projects : List Project → Db (List Project)
  render_projects [] = pure []
  render_projects (project ∷ projects) = do
    first ← render_project project
    rest ← render_projects projects
    pure (first ∷ rest)

  unfoldable pub list_projects : User → Db (List Project)
  list_projects actor = do
    lift (require_application_access actor)
    projects ← list_project_rows actor.id (is_admin actor.role)
    render_projects projects

  unfoldable pub get_project : User → Uuid → AuditContext → Db Project
  get_project actor project audit = do
    lift (require_application_access actor)
    found ← db (λ w.
        settle_read
          (append_audit (
            event_of "authorization.project_denied" actor.id "project" project denied audit
              (("reason", tag "not_accessible") ∷ [])))
          (run (get_project_row actor.id (is_admin actor.role) project) w))
    render_project found

  unfoldable pub create_project : User → CreateProjectInput → AuditContext → Db Project
  create_project actor input audit = do
    require_project_admin actor no_id audit
    fields ← lift (validate_project input.name input.description_markdown)
    html ← render_text fields.1
    project ←
        create_project_row (record { name = fields.0; description_markdown = fields.1 })
          (event_of "project.created" actor.id "project" no_id succeeded audit [])
    pure (record project { description_html = html })

  unfoldable pub update_project : User → Uuid → UpdateProjectInput → AuditContext → Db Project
  update_project actor target input audit = do
    require_project_admin actor target audit
    fields ← lift (validate_project input.name input.description_markdown)
    active ← or_raise input.active (validation "active")
    expected ← or_raise (at_least 1 input.expected_version) (validation "expected_version")
    html ← render_text fields.1
    project ← update_project_row target fields.0 fields.1 active expected (
        event_of "project.updated" actor.id "project" target succeeded audit
          (("active", flag active) ∷ []))
    pure (record project { description_html = html })

unfoldable pub list_members : User → Uuid → AuditContext → Db (List Member)
list_members actor project audit = do
  require_project_admin actor project audit
  list_member_rows project

unfoldable pub add_member : User → Uuid → Uuid → AuditContext → Db Member
add_member actor project user audit = do
  require_project_admin actor project audit
  add_member_row project user (
      event_of "project.membership_added" actor.id "project" project succeeded audit
        (("user_id", uuid user) ∷ []))

unfoldable pub remove_member : User → Uuid → Uuid → AuditContext → Db (Unit {0})
remove_member actor project user audit = do
  require_project_admin actor project audit
  remove_member_row project user (
      event_of "project.membership_removed" actor.id "project" project succeeded audit
        (("user_id", uuid user) ∷ []))

unfoldable pub replace_geofence :
    Rounding → User → Uuid → ReplaceGeofenceInput → AuditContext → Db Geofence
replace_geofence rounding actor project input audit = do
  require_project_admin actor project audit
  lift (validate_geofence input)
  replace_geofence_row rounding project input (
      event_of "project.geofence_updated" actor.id "project" project succeeded audit
        (("version", num (suc (natural input.expected_version))) ∷ []))
