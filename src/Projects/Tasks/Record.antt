-- ===== src/Projects/Tasks/Record.antt =====
-- The writes of the tasks keep the record of their revisions.
use project_progress_registe.Base.{arith, refl, sym, ap, ◌∙◌, Bool, List, [], ◌∷◌, ◌++◌, map}
use mathlib.Core.Path.{subst}
use project_progress_registe.Schema.{Uuid, AuditEvent, TaskRow, TaskRevisionRow, Tables}
use project_progress_registe.Db.{World, Db, run}
use project_progress_registe.Db.Steps.{Yields, pure-Yields, bind-Yields}
use project_progress_registe.Identity.Ops.{discard}
use project_progress_registe.Identity.Atomic.{
  IsAtomic, IsAtomic_keeps, transaction-IsAtomic, discard-IsAtomic,
}
use project_progress_registe.Projects.Members.{
  remove_member_row, bump_task, is_affected, revision_of, responsible_of,
}
use project_progress_registe.Projects.Membership.{remove_member_row-Yields}
use project_progress_registe.Projects.Tasks.Types.{TaskPersistenceInput}
use project_progress_registe.Projects.Tasks.Store.{is_task_in}
use project_progress_registe.Projects.Tasks.Changes.{
  new_task_row, may_edit, set_task, user_edit, create_task_row, update_task_row,
}
use project_progress_registe.Projects.Tasks.Outcomes.{
  create_task_row-Yields, update_task_row-Yields,
}
use project_progress_registe.Versions.{
  IsRecorded, change-IsRecorded, append-IsRecorded, select_found,
}

pub data TaskWrite : Type 0 where
  create : Uuid → Bool → Uuid → TaskPersistenceInput → AuditEvent → TaskWrite
  edit : Uuid → Bool → Uuid → Uuid → TaskPersistenceInput → AuditEvent → TaskWrite
  leave : Uuid → Uuid → AuditEvent → TaskWrite

abbrev pub write_task : TaskWrite → Db (Unit {0})
write_task (create actor as_admin project input event) =
    discard (create_task_row actor as_admin project input event)
write_task (edit actor as_admin project task input event) =
    discard (update_task_row actor as_admin project task input event)
write_task (leave project user event) = remove_member_row project user event

write_task-IsAtomic : (op : TaskWrite) → IsAtomic (write_task op)
unfolding create_task_row update_task_row remove_member_row
write_task-IsAtomic (create actor as_admin project input event) =
    discard-IsAtomic _ (transaction-IsAtomic _)
write_task-IsAtomic (edit actor as_admin project task input event) =
    discard-IsAtomic _ (transaction-IsAtomic _)
write_task-IsAtomic (leave project user event) = transaction-IsAtomic _

abbrev pub IsTaskRecord : List TaskRow → List TaskRevisionRow → Type 0
IsTaskRecord =
    IsRecorded (λ r. r.id) (λ r. r.version) (λ r. r.task_id) (λ r. r.from_version)
      (λ r. r.to_version)

abbrev pub HasRecord : Tables → Type 0
HasRecord t = IsTaskRecord t.tasks t.task_revisions

returned_HasRecord :
    (op : TaskWrite) {t t' : Tables} → Yields (write_task op) t tt t' → HasRecord t → HasRecord t'
returned_HasRecord (create actor as_admin project input event) {t} {t'} y h =
    bind-Yields _ _ y λ p t₁ done rest.
      let (ids, whole, created) = create_task_row-Yields actor as_admin project input event done in
      let same = (pure-Yields _ rest).1 in
      subst HasRecord (sym same) (
        subst (λ v. IsTaskRecord v t₁.task_revisions) (sym created.tasks)
          (subst (IsTaskRecord _) (sym created.revisions) (
            append-IsRecorded _ _ _ _ _ t.tasks
              (new_task_row created.id created.at actor project input) t.task_revisions
              created.fresh refl h)))
returned_HasRecord (edit actor as_admin project task input event) {t} {t'} y h =
    bind-Yields _ _ y λ p t₁ done rest.
      let (ids, whole, edited) =
        update_task_row-Yields actor as_admin project task input event done in
      let one =
        select_found (λ r. r.id) task (may_edit actor as_admin project task)
          (is_task_in project task) (λ r e. ground (arith, e)) (λ r e. ground (arith, e)) t.tasks
          edited.previous h.0 edited.found in
      let before = responsible_of task t.responsibilities in
      let kept =
        change-IsRecorded _ _ _ _ _ (is_task_in project task) (set_task input edited.at)
          (λ r. user_edit r before input ids actor) (λ r. refl) (λ r. refl) (λ r. refl) (λ r. refl)
          (λ r. refl) t.tasks t.task_revisions h in
      let same = (pure-Yields _ rest).1 in
      subst HasRecord (sym same) (
        subst (λ v. IsTaskRecord v t₁.task_revisions) (sym edited.tasks)
          (subst (IsTaskRecord _)
            (ap (λ rows. t.task_revisions ++ map (λ r. user_edit r before input ids actor) rows) one
              ∙ sym edited.revisions)
            kept))
returned_HasRecord (leave project user event) {t} {t'} y h =
    let removed = remove_member_row-Yields project user event y in
    subst (λ v. IsTaskRecord v t'.task_revisions) (sym removed.tasks)
      (subst (IsTaskRecord _) (sym removed.revisions) (
        change-IsRecorded _ _ _ _ _ (is_affected project user t.responsibilities)
          (bump_task removed.revised) (revision_of user event.actor_user_id t.responsibilities)
          (λ r. refl) (λ r. refl) (λ r. refl) (λ r. refl) (λ r. refl) t.tasks t.task_revisions h))

-- Writes one after the other, whatever each of them returns.
unfoldable pub write_tasks : List TaskWrite → World → World
write_tasks [] w = w
write_tasks (op ∷ ops) w = write_tasks ops (run (write_task op) w).1

write_task-HasRecord :
    (op : TaskWrite) (w : World) → HasRecord w.tables → HasRecord (run (write_task op) w).1.tables
write_task-HasRecord op w h =
    IsAtomic_keeps (write_task op) HasRecord w (write_task-IsAtomic op)
      (λ u t' y r. returned_HasRecord op y r) h

-- Every history of task creations, task updates and member removals, whatever each returns, keeps the
-- record: task ids are distinct, and the revisions of each task, in their order, lead from version 1 to
-- its version, each from the version that the one before it left.
pub write_tasks-HasRecord :
    (ops : List TaskWrite) (w : World) → HasRecord w.tables → HasRecord (write_tasks ops w).tables
unfolding write_tasks
write_tasks-HasRecord [] w h = h
write_tasks-HasRecord (op ∷ ops) w h = write_tasks-HasRecord ops _ (write_task-HasRecord op w h)
