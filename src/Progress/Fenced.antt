-- ===== src/Progress/Fenced.antt =====
-- The geofence under which a diary update is filed.
use project_progress_registe.Base.{
  ◌≡◌, ◌≢◌, refl, sym, ap, ◌∙◌, if_some, Bool, true, Option, none, some, List, arith, find, any,
}
use project_progress_registe.Text.{Text}
use project_progress_registe.Schema.{
  Uuid, no_id, AuditEvent, GeofenceSnapshot, ProjectRow, GeofenceRow, Tables,
}
use project_progress_registe.Db.{World, ok, run}
use project_progress_registe.Db.Steps.{run-Yields}
use project_progress_registe.Identity.Revocation.{find-test}
use project_progress_registe.Projects.Store.{is_current_geofence}
use project_progress_registe.Projects.Tasks.Store.{is_task_in, sees_project}
use project_progress_registe.Progress.Types.{
  Update, TaskPolicy, AttachmentPersistence, ProgressPersistence,
}
use project_progress_registe.Progress.Evidence.{Floats, evaluate_evidence}
use project_progress_registe.Progress.Store.{
  task_policy, to_policy, snapshot_of, evidence_geofence_id, geofence_id,
}
use project_progress_registe.Progress.Updates.{create_update_row}
use project_progress_registe.Progress.Outcomes.{create_update_row-Yields}

to_policy_lem :
    (t : Tables) (o : Option ProjectRow) (policy : TaskPolicy)
    → to_policy t o ≡ some policy
    → (row : ProjectRow) × (o ≡ some row)
      × (policy.geofence ≡ snapshot_of (find (is_current_geofence row.id) t.geofences))
to_policy_lem t none policy h = absurd cc
to_policy_lem t (some row) policy h = (row, refl, ground (arith, h))

-- The policy of a task has the current geofence of its project.
task_policy_lem :
    (actor : Uuid) (as_admin : Bool) (project task : Uuid) (t : Tables) (policy : TaskPolicy)
    → task_policy actor as_admin project task t ≡ some policy
    → policy.geofence ≡ snapshot_of (find (is_current_geofence project) t.geofences)
task_policy_lem actor as_admin project task t policy h =
    let (row, found, fence) =
      to_policy_lem t (find (sees_project project actor as_admin t) t.projects) policy
        (if_some (any (is_task_in project task) t.tasks) _ policy h) in
    let test : sees_project project actor as_admin t row ≡ true = find-test _ t.projects found in
    let same : row.id ≡ project = ground (arith, test) in
    fence ∙ ap (λ id. snapshot_of (find (is_current_geofence id) t.geofences)) same

unlocated_lem :
    (f : Floats) (reason : Option Text) (fence : Option GeofenceSnapshot)
    → evidence_geofence_id (evaluate_evidence f none reason fence) ≡ no_id
unfolding evaluate_evidence
unlocated_lem f none fence = refl
unlocated_lem f (some reason) fence = refl

-- In a project with a current geofence no update without a reported location can be filed: its
-- evidence names no geofence, whatever reason was given, and no creation with it returns.
pub create_update_row-unlocated :
    (f : Floats) (reason : Option Text) (fence : Option GeofenceSnapshot) (current : GeofenceRow)
    (actor project task : Uuid) (input : ProgressPersistence)
    (attachments : List AttachmentPersistence) (event : AuditEvent) (as_admin : Bool) (w : World)
    (r : Update × Bool)
    → input.evidence ≡ evaluate_evidence f none reason fence
    → find (is_current_geofence project) w.tables.geofences ≡ some current
    → current.id ≢ no_id
    → (run (create_update_row actor project task input attachments event as_admin) w).0 ≢ ok r
create_update_row-unlocated f reason fence current actor project task input attachments event
      as_admin w r supplied fenced known h =
    let (policy, there, active, same, outcome) =
      create_update_row-Yields actor project task input attachments event as_admin
        (run-Yields (create_update_row actor project task input attachments event as_admin) w h) in
    let of_project = task_policy_lem actor as_admin project task w.tables policy there in
    known (
      sym (ap geofence_id of_project ∙ ap (λ o. geofence_id (snapshot_of o)) fenced)
      ∙ same
      ∙ ap evidence_geofence_id supplied
      ∙ unlocated_lem f reason fence)
