-- ===== src/Projects/Tasks/Service.antt =====
-- internal/projects/task_service.go. The renderer, the case table of Unicode and `time.Parse` of a date
-- are parameters.
use project_progress_registe.Base.{
  ℕ, ℤ, at_least, Bool, true, false, Option, none, some, List, [], ◌∷◌, String, ◌==◌, if◌then◌else◌,
}
use project_progress_registe.Text.{Text, trim_space}
use project_progress_registe.Schema.{Uuid, no_id, uuid, tag, AuditContext, succeeded, denied}
use project_progress_registe.Db.{
  Db, Result, ok, err, run, db, validation, lift, pure, or_raise, ◌>>=◌, ◌>>◌,
}
use project_progress_registe.Identity.Types.{User, is_admin}
use project_progress_registe.Identity.Service.{append_audit, event_of}
use project_progress_registe.Projects.Service.{require_application_access, settle_read, render_text}
use project_progress_registe.Projects.Tasks.Types.{
  Task, NullableString, omitted, null, value, CreateTaskInput, CreateTaskV2Input, UpdateTaskInput,
  UpdateTaskV2Input, task_uuid, validate_task,
}
use project_progress_registe.Projects.Tasks.Store.{list_task_rows, get_task_row}
use project_progress_registe.Projects.Tasks.Changes.{create_task_row, update_task_row}

-- The target of a denial: the task, or the project without one.
abbrev pub denied_target : Uuid → Uuid → String × Uuid
denied_target project task = if task == no_id then ("project", project) else ("task", task)

-- The event that `auditTaskDenied` writes; `settle_read` gives ErrNotFound after it.
unfoldable pub audit_task_denied : User → Uuid → Uuid → AuditContext → String → Db (Unit {0})
audit_task_denied actor project task audit reason = append_audit (
    event_of "authorization.task_denied" actor.id (denied_target project task).0
      (denied_target project task).1 denied audit
      (("project_id", uuid project) ∷ ("reason", tag reason) ∷ []))

-- `errors.Is(err, ErrNotFound)` after a call of the repository.
unfoldable pub or_denied : {A : Type 0} → Db (Unit {0}) → Db A → Db A
or_denied refusal m = db (λ w. settle_read refusal (run m w))

-- `input.ResponsibleUserID`, of the first version of the interface.
unfoldable pub single_responsible : Option Text → Result (List Text)
single_responsible none = ok []
single_responsible (some raw) = elim (task_uuid (trim_space raw)) [
  | none ↦ err (validation "responsible_user_id")
  | some id ↦ ok (raw ∷ [])
]

abbrev pub present : String → NullableString → Result (Option Text)
present field omitted = err (validation field)
present field null = ok none
present field (value s) = ok (some s)

module _ (render : Text → Option Text) where
  unfoldable pub render_task_markdown : Text → Text → Db (Text × Text)
  render_task_markdown goals description = do
    goals_html ← render_text render goals
    description_html ← render_text render description
    pure (goals_html, description_html)

  unfoldable pub render_task : Task → Db Task
  render_task task = do
    html ← render_task_markdown task.goals_markdown task.description_markdown
    pure (record task { goals_html = html.0; description_html = html.1 })

  unfoldable pub render_tasks : List Task → Db (List Task)
  render_tasks [] = pure []
  render_tasks (task ∷ tasks) = do
    first ← render_task task
    rest ← render_tasks tasks
    pure (first ∷ rest)

  unfoldable pub list_tasks : User → Uuid → AuditContext → Db (List Task)
  list_tasks actor project audit = do
    lift (require_application_access actor)
    tasks ←
        or_denied (audit_task_denied actor project no_id audit "project_not_accessible")
          (list_task_rows actor.id (is_admin actor.role) project)
    render_tasks tasks

  unfoldable pub get_task : User → Uuid → Uuid → AuditContext → Db Task
  get_task actor project task audit = do
    lift (require_application_access actor)
    found ←
        or_denied (audit_task_denied actor project task audit "task_not_accessible")
          (get_task_row actor.id (is_admin actor.role) project task)
    render_task found

  module _ (lower : ℕ → ℕ) (is_date : Text → Bool) where
    -- `createTask`
    unfoldable pub create_task_with :
        User → Uuid → Text → Text → Text → List Text → Option Text → AuditContext → Db Task
    create_task_with actor project name goals description responsible date audit = do
      input ← lift (validate_task lower is_date name goals description responsible date)
      html ← render_task_markdown input.goals_markdown input.description_markdown
      task ← or_denied (audit_task_denied actor project no_id audit "project_not_accessible") (
          create_task_row actor.id (is_admin actor.role) project input (
            event_of "task.created" actor.id "task" no_id succeeded audit
              (("project_id", uuid project) ∷ [])))
      pure (record task { goals_html = html.0; description_html = html.1 })

    unfoldable pub create_task : User → Uuid → CreateTaskInput → AuditContext → Db Task
    create_task actor project input audit = do
      lift (require_application_access actor)
      responsible ← lift (single_responsible input.responsible_user_id)
      create_task_with actor project input.name input.goals_markdown input.description_markdown
          responsible input.target_date audit

    unfoldable pub create_task_v2 : User → Uuid → CreateTaskV2Input → AuditContext → Db Task
    create_task_v2 actor project input audit = do
      lift (require_application_access actor)
      create_task_with actor project input.name input.goals_markdown input.description_markdown
          input.responsible_user_ids input.target_date audit

    -- `updateTask`
    unfoldable pub update_task_with :
        User
        → Uuid
        → Uuid
        → (Text × Text × Text)
        → List Text
        → NullableString
        → ℤ
        → Bool
        → AuditContext
        → Db Task
    update_task_with actor project task (name, goals, description) responsible date version legacy
          audit =
        do
          target_date ← lift (present "target_date" date)
          input ← lift (validate_task lower is_date name goals description responsible target_date)
          expected ← or_raise (at_least 1 version) (validation "expected_version")
          html ← render_task_markdown input.goals_markdown input.description_markdown
          updated ←
              or_denied
                (audit_task_denied actor project task audit "task_not_accessible_or_not_owner")
                (update_task_row actor.id (is_admin actor.role) project task
                  (record input { expected_version = expected; legacy_singular = legacy })
                  (event_of "task.updated" actor.id "task" task succeeded audit
                    (("project_id", uuid project) ∷ [])))
          pure (record updated { goals_html = html.0; description_html = html.1 })

    unfoldable pub update_task : User → Uuid → Uuid → UpdateTaskInput → AuditContext → Db Task
    update_task actor project task input audit = do
      lift (require_application_access actor)
      given ← lift (present "responsible_user_id" input.responsible_user_id)
      responsible ← lift (single_responsible given)
      update_task_with actor project task
          (input.name, input.goals_markdown, input.description_markdown) responsible
          input.target_date input.expected_version true audit

    unfoldable pub update_task_v2 : User → Uuid → Uuid → UpdateTaskV2Input → AuditContext → Db Task
    update_task_v2 actor project task input audit = do
      lift (require_application_access actor)
      responsible ← or_raise input.responsible_user_ids (validation "responsible_user_ids")
      update_task_with actor project task
          (input.name, input.goals_markdown, input.description_markdown) responsible
          input.target_date input.expected_version false audit
