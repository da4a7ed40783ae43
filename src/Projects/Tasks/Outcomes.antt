-- ===== src/Projects/Tasks/Outcomes.antt =====
-- What the creation and the update of a task found and left.
use project_progress_registe.Base.{
  suc, ◌≡◌, ap, ◌∙◌, Bool, true, false, not, ◌&&◌, some, List, [], ◌∷◌, ◌++◌, arith, ltb, ◌==◌,
  if◌then◌else◌, length, find, any, update, All, contains, IsDistinct, IsAscending,
}
use mathlib.Core.Path.{subst}
use project_progress_registe.Schema.{Uuid, Instant, AuditEvent, ProjectRow, TaskRow, Tables}
use project_progress_registe.Db.{Db, ◌>>◌}
use project_progress_registe.Db.Steps.{
  Yields, transaction-Yields, query->>=, gets->>=, now->>=, fresh_id->>=, attempt->>, exec->>,
  modify->>, raise_if->>, or_raise->>=, insert_audit->>, then-Yields, raise_if-Yields,
  or_raise-Yields,
}
use project_progress_registe.Projects.Members.{is_responsibility, responsible_of}
use project_progress_registe.Projects.Tasks.Types.{Task, TaskPersistenceInput}
use project_progress_registe.Projects.Tasks.Store.{
  has_task_id, load_task, sees_project, lock_authorized_project,
}
use project_progress_registe.Projects.Tasks.Changes.{create_task_row, may_edit, update_task_row}
use project_progress_registe.Projects.Tasks.Responsible.{
  is_eligible_id, user_ids, replaced_lem, replace_task_responsibilities->>,
  validate_responsible_members->>=,
}

-- The project that the actor may see.
pub record Seen (project actor : Uuid) (as_admin require_active : Bool) (t : Tables) : Type 0 where
  pub row : ProjectRow
  pub found : find (sees_project project actor as_admin t) t.projects ≡ some row
  pub active : (require_active && not row.active) ≡ false

pub lock_authorized_project->> :
    {B C : Type 0} {b : B} {t t' : Tables} (project actor : Uuid) (as_admin require_active : Bool)
    (k : Db B)
    → Yields (lock_authorized_project project actor as_admin require_active >> k) t b t'
    → (Seen project actor as_admin require_active t → Yields k t b t' → C)
    → C
unfolding lock_authorized_project
lock_authorized_project->> {b} {t'} project actor as_admin require_active k y c =
    then-Yields _ _ y λ t₁ locking rest. query->>= _ _ locking λ y₁.
      or_raise->>= _ _ _ y₁ λ row found y₂.
        let (active, same) = raise_if-Yields _ _ y₂ in
        c (record { row = row; found = found; active = active })
          (subst (λ v. Yields k v b t') same rest)

-- The users who are responsible: the given ones for this task, and for the others those who were.
abbrev pub AreResponsible : Uuid → List Uuid → Tables → Tables → Type 0
AreResponsible task ids t t' =
    (k u : Uuid)
    → any (is_responsibility k u) t'.responsibilities
      ≡ (if k == task then contains u ids else any (is_responsibility k u) t.responsibilities)

pub record Created (project actor : Uuid) (as_admin : Bool) (input : TaskPersistenceInput)
    (ids : List Uuid) (t : Tables) (p : Task) (t' : Tables) : Type 0 where
  pub id : Uuid
  pub at : Instant
  pub seen : Seen project actor as_admin true t
  pub eligible : All (λ u. is_eligible_id project t u ≡ true) ids
  pub fresh : any (has_task_id id) t.tasks ≡ false
  pub tasks :
      t'.tasks
      ≡ t.tasks
        ++ record {
          id = id;
          project_id = project;
          name = input.name;
          goals_markdown = input.goals_markdown;
          description_markdown = input.description_markdown;
          target_date = input.target_date;
          created_by = actor;
          created_at = at;
          updated_at = at;
          version = 1;
        }
          ∷ []
  pub revisions : t'.task_revisions ≡ t.task_revisions
  pub responsible : AreResponsible id ids t t'
  pub returned : load_task (has_task_id id) t' ≡ some p

module _ (actor : Uuid) (as_admin : Bool) (project : Uuid) (input : TaskPersistenceInput)
    (event : AuditEvent) where
  pub create_task_row-Yields :
      {t t' : Tables} {p : Task}
      → Yields (create_task_row actor as_admin project input event) t p t'
      → (ids : List Uuid) × (IsDistinct (user_ids t.users)
          → IsAscending input.responsible_user_ids
          → ids ≡ input.responsible_user_ids)
        × Created project actor as_admin input ids t p t'
  unfolding create_task_row
  create_task_row-Yields {t} {t'} {p} y =
      lock_authorized_project->> _ _ _ _ _ (transaction-Yields _ y) λ seen y₁.
        validate_responsible_members->>= _ _ _ y₁ λ ids eligible whole y₂.
          fresh_id->>= _ y₂ λ id y₃. now->>= _ y₃ λ at y₄. attempt->> _ _ y₄ λ y₅.
            gets->>= _ _ y₅ λ y₆. raise_if->> _ _ _ y₆ λ fresh y₇. modify->> _ _ y₇ λ y₈.
              replace_task_responsibilities->> _ _ _ y₈ λ y₉.
                insert_audit->> _ _ y₉ λ row audited y₁₀. query->>= _ _ y₁₀ λ z.
                  let (returned, same) = or_raise-Yields _ _ z in
                  (
                    ids,
                    whole,
                    record {
                      id = id;
                      at = at;
                      seen = seen;
                      eligible = eligible;
                      fresh = fresh;
                      tasks = ap (λ (v : Tables). v.tasks) same;
                      revisions = ap (λ (v : Tables). v.task_revisions) same;
                      responsible = λ k u.
                          ap (λ (v : Tables). any (is_responsibility k u) v.responsibilities) same
                          ∙ replaced_lem id ids k u t.responsibilities;
                      returned = ap (λ (v : Tables). load_task (has_task_id id) v) same ∙ returned;
                    },
                  )

pub record Edited (project task actor : Uuid) (as_admin : Bool) (input : TaskPersistenceInput)
    (ids : List Uuid) (t : Tables) (p : Task) (t' : Tables) : Type 0 where
  pub previous : TaskRow
  pub at : Instant
  pub seen : Seen project actor as_admin true t
  pub found : find (may_edit actor as_admin project task) t.tasks ≡ some previous
  pub version : previous.version ≡ input.expected_version
  pub single :
      (input.legacy_singular && ltb 1 (length (responsible_of task t.responsibilities))) ≡ false
  pub eligible : All (λ u. is_eligible_id project t u ≡ true) ids
  pub tasks :
      t'.tasks
      ≡ update
          (λ v. v.project_id == project && v.id == task)
          (λ v. record v {
            name = input.name;
            goals_markdown = input.goals_markdown;
            description_markdown = input.description_markdown;
            target_date = input.target_date;
            updated_at = at;
            version = suc v.version;
          })
          t.tasks
  pub responsible : AreResponsible task ids t t'
  pub revisions :
      t'.task_revisions
      ≡ t.task_revisions
        ++ record {
          task_id = previous.id;
          from_version = previous.version;
          to_version = suc previous.version;
          previous_name = previous.name;
          previous_goals_markdown = previous.goals_markdown;
          previous_description_markdown = previous.description_markdown;
          previous_responsible_user_ids = responsible_of task t.responsibilities;
          previous_target_date = previous.target_date;
          new_name = input.name;
          new_goals_markdown = input.goals_markdown;
          new_description_markdown = input.description_markdown;
          new_responsible_user_ids = ids;
          new_target_date = input.target_date;
          change_reason = "user_edit";
          edited_by = actor;
        }
          ∷ []
  pub returned : load_task (has_task_id task) t' ≡ some p

module _ (actor : Uuid) (as_admin : Bool) (project task : Uuid) (input : TaskPersistenceInput)
    (event : AuditEvent) where
  pub update_task_row-Yields :
      {t t' : Tables} {p : Task}
      → Yields (update_task_row actor as_admin project task input event) t p t'
      → (ids : List Uuid) × (IsDistinct (user_ids t.users)
          → IsAscending input.responsible_user_ids
          → ids ≡ input.responsible_user_ids)
        × Edited project task actor as_admin input ids t p t'
  unfolding update_task_row
  update_task_row-Yields {t} {t'} {p} y =
      lock_authorized_project->> _ _ _ _ _ (transaction-Yields _ y) λ seen y₁.
        query->>= _ _ y₁ λ y₂. or_raise->>= _ _ _ y₂ λ previous found y₃.
          raise_if->> _ _ _ y₃ λ versioned y₄. raise_if->> _ _ _ y₄ λ single y₅.
            validate_responsible_members->>= _ _ _ y₅ λ ids eligible whole y₆. now->>= _ y₆ λ at y₇.
              exec->> _ _ y₇ λ y₈. replace_task_responsibilities->> _ _ _ y₈ λ y₉.
                exec->> _ _ y₉ λ y₁₀. insert_audit->> _ _ y₁₀ λ row audited y₁₁.
                  query->>= _ _ y₁₁ λ z.
                    let (returned, same) = or_raise-Yields _ _ z in
                    (
                      ids,
                      whole,
                      record {
                        previous = previous;
                        at = at;
                        seen = seen;
                        found = found;
                        version = ground (arith, versioned);
                        single = single;
                        eligible = eligible;
                        tasks = ap (λ (v : Tables). v.tasks) same;
                        responsible = λ k u.
                            ap (λ (v : Tables). any (is_responsibility k u) v.responsibilities) same
                            ∙ replaced_lem task ids k u t.responsibilities;
                        revisions = ap (λ (v : Tables). v.task_revisions) same;
                        returned =
                            ap (λ (v : Tables). load_task (has_task_id task) v) same ∙ returned;
                      },
                    )
