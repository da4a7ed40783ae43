-- ===== src/Projects/Tasks/Served.antt =====
-- A request to create or update a task, from the check of the actor to the rows that are stored.
use project_progress_registe.Base.{
  ℕ, at_least, ◌≡◌, sym, ap, ◌∙◌, arith, none, String, Bool, false, Option, some, List, IsDistinct,
}
use mathlib.Core.Path.{subst}
use project_progress_registe.Text.{Text}
use project_progress_registe.Schema.{Uuid, AuditContext, Tables}
use project_progress_registe.Db.{Db, Result, ok, err, World, run, not_found, raise, ◌>>=◌}
use project_progress_registe.Db.Runs.{then-Runs}
use project_progress_registe.Db.Steps.{
  Yields, run-Yields, pure-Yields, bind-Yields, or_raise->>=, lift->>=, lift->>,
}
use project_progress_registe.Identity.Types.{User, is_admin}
use project_progress_registe.Projects.Service.{require_application_access, settle_read, render_text}
use project_progress_registe.Projects.Tasks.Types.{
  Task, NullableString, omitted, null, value, CreateTaskV2Input, UpdateTaskV2Input,
  TaskPersistenceInput,
}
use project_progress_registe.Projects.Tasks.Service.{
  present, or_denied, render_task_markdown, create_task_with, create_task_v2, update_task_with,
  update_task_v2,
}
use project_progress_registe.Projects.Tasks.Outcomes.{
  Created, create_task_row-Yields, Edited, update_task_row-Yields,
}
use project_progress_registe.Projects.Tasks.Responsible.{user_ids}
use project_progress_registe.Projects.Tasks.Requests.{
  Accepted, IsDated, validate_task-IsDated, validate_task-Accepted,
}

pub settle_read_ok :
    {A : Type 0} (refusal : Db (Unit {0})) (r : Result A × World) {a : A} {w' : World}
    → settle_read refusal r ≡ (ok a, w')
    → r ≡ (ok a, w')
unfolding settle_read
settle_read_ok refusal (ok a, w) h = h
settle_read_ok refusal (err not_found, w) h =
    let (w₁, first, rest) = then-Runs refusal (raise not_found) w (record { returns = h }) in
    absurd (cc rest.returns)
settle_read_ok refusal (err e, w) h = absurd (cc h)

pub or_denied->>= :
    {A B C : Type 0} {b : B} {t t' : Tables} (refusal : Db (Unit {0})) (m : Db A) (k : A → Db B)
    → Yields (or_denied refusal m >>= k) t b t'
    → ((a : A) (t₁ : Tables) → Yields m t a t₁ → Yields (k a) t₁ b t' → C)
    → C
unfolding or_denied
or_denied->>= refusal m k y c = bind-Yields _ _ y λ a t₁ served rest.
    c a t₁
      (record {
        first = served.first;
        last = served.last;
        begins = served.begins;
        ends = served.ends;
        runs = record { returns = settle_read_ok refusal (run m served.first) served.runs.returns };
      })
      rest

render_task_markdown->>= :
    {B C : Type 0} {b : B} {t t' : Tables} (render : Text → Option Text) (goals description : Text)
    (k : Text × Text → Db B)
    → Yields (render_task_markdown render goals description >>= k) t b t'
    → ((html : Text × Text)
        → render goals ≡ some html.0
        → render description ≡ some html.1
        → Yields (k html) t b t'
        → C)
    → C
unfolding render_task_markdown render_text
render_task_markdown->>= {b} {t'} render goals description k y c =
    bind-Yields _ _ y λ html t₁ rendering rest. or_raise->>= _ _ _ rendering λ g found z₁.
      or_raise->>= _ _ _ z₁ λ d found' z₂.
        let (made, same) = pure-Yields _ z₂ in
        c html (found ∙ ap (λ (v : Text × Text). some v.0) (sym made))
          (found' ∙ ap (λ (v : Text × Text). some v.1) (sym made))
          (subst (λ v. Yields (k html) v b t') same rest)

-- The date that a JSON value asks for: it was given, as null or as a text.
abbrev pub IsGiven : NullableString → Option Text → Type 0
IsGiven omitted date = ⊥
IsGiven null date = date ≡ none
IsGiven (value raw) date = date ≡ some raw

present-IsGiven :
    (field : String) (given : NullableString) {date : Option Text}
    → present field given ≡ ok date
    → IsGiven given date
present-IsGiven field omitted h = absurd (cc h)
present-IsGiven field null h = ground (arith, h)
present-IsGiven field (value raw) h = ground (arith, h)

-- A request that was served: what it asked for is valid, and the answer is what was stored, with what
-- the renderer makes of its two texts.
pub record Served (render : Text → Option Text) (lower : ℕ → ℕ) (is_date : Text → Bool)
    (actor : User) (name goals description : Text) (responsible : List Text) (date : Option Text)
    (input : TaskPersistenceInput) (stored answer : Task) : Type 0 where
  pub allowed : require_application_access actor ≡ ok tt
  pub accepted : Accepted lower name goals description responsible input
  pub dated : IsDated is_date date input.target_date
  pub goals_rendered : render goals ≡ some answer.goals_html
  pub description_rendered : render description ≡ some answer.description_html
  pub answered :
      answer
      ≡ record stored { goals_html = answer.goals_html; description_html = answer.description_html }

Served-html :
    {render : Text → Option Text} {lower : ℕ → ℕ} {is_date : Text → Bool} {actor : User}
    {name goals description : Text} {responsible : List Text} {date : Option Text}
    {input : TaskPersistenceInput} {stored : Task} (answer : Task) (html : Text × Text)
    → require_application_access actor ≡ ok tt
    → Accepted lower name goals description responsible input
    → IsDated is_date date input.target_date
    → render input.goals_markdown ≡ some html.0
    → render input.description_markdown ≡ some html.1
    → answer ≡ record stored { goals_html = html.0; description_html = html.1 }
    → Served render lower is_date actor name goals description responsible date input stored answer
Served-html {render} {stored} answer html allowed accepted dated goals description made = record {
  allowed = allowed;
  accepted = accepted;
  dated = dated;
  goals_rendered =
      ap render (sym accepted.goals_kept) ∙ goals ∙ ap (λ (v : Task). some v.goals_html) (sym made);
  description_rendered =
      ap render (sym accepted.description_kept)
      ∙ description
      ∙ ap (λ (v : Task). some v.description_html) (sym made);
  answered =
      made
      ∙ ap
          (λ (v : Task). record stored {
            goals_html = v.goals_html;
            description_html = v.description_html;
          })
          (sym made);
}

module _ (render : Text → Option Text) (lower : ℕ → ℕ) (is_date : Text → Bool) (actor : User)
    (project : Uuid) (audit : AuditContext) where
  -- With distinct account ids, a request of the second interface version to create a task that returns
  -- came from an actor with access, was valid, and has created the task that it describes, with the
  -- requested date if there is one: in an active project that the actor sees, with exactly the
  -- requested users, who are enabled members, responsible. The answer is the stored task with what the
  -- renderer makes of the requested goals and description.
  pub create_task_v2-Created :
      (input : CreateTaskV2Input) (w : World) {answer : Task}
      → IsDistinct (user_ids w.tables.users)
      → (run (create_task_v2 render lower is_date actor project input audit) w).0 ≡ ok answer
      → (checked : TaskPersistenceInput) × (stored : Task) × Served render lower is_date actor
          input.name input.goals_markdown input.description_markdown input.responsible_user_ids
          input.target_date checked stored answer
        × Created project actor.id
            (is_admin actor.role)
            checked
            checked.responsible_user_ids
            w.tables
            stored
            (run (create_task_v2 render lower is_date actor project input audit) w).1.tables
  unfolding create_task_v2 create_task_with
  create_task_v2-Created input w {answer} distinct h =
      let after =
        (run (create_task_v2 render lower is_date actor project input audit) w).1.tables in
      let y = run-Yields (create_task_v2 render lower is_date actor project input audit) w h in
      lift->> _ _ y λ allowed y₁. lift->>= _ _ y₁ λ checked valid y₂.
        render_task_markdown->>= render _ _ _ y₂ λ html goals description y₃.
          or_denied->>= _ _ _ y₃ λ stored t₁ made rest.
            let accepted = validate_task-Accepted lower is_date _ _ _ _ _ valid in
            let (ids, whole, created) = create_task_row-Yields _ _ _ _ _ made in
            let (answered, same) = pure-Yields _ rest in
            (
              checked,
              stored,
              Served-html answer html allowed accepted
                  (validate_task-IsDated lower is_date _ _ _ _ _ valid) goals description answered,
              subst
                  (λ v.
                    Created project actor.id (is_admin actor.role) checked v w.tables stored after)
                  (whole distinct accepted.ascending)
                  (subst
                    (Created project actor.id (is_admin actor.role) checked ids w.tables stored)
                    (sym same) created),
            )

  -- With distinct account ids, a request of the second interface version to update a task that returns
  -- came from an actor with access, named the responsible users, a date or null and a positive version,
  -- was valid, and has edited the task, to the requested date if there is one, at the version that it
  -- expected, with a revision from the old task to the new one. The answer is the stored task with what
  -- the renderer makes of the requested goals and description.
  pub update_task_v2-Edited :
      (task : Uuid) (input : UpdateTaskV2Input) (w : World) {answer : Task}
      → IsDistinct (user_ids w.tables.users)
      → (run (update_task_v2 render lower is_date actor project task input audit) w).0 ≡ ok answer
      → (responsible : List Text) × (date : Option Text) × (expected : ℕ)
        × (checked : TaskPersistenceInput) × (stored : Task) × (input.responsible_user_ids
            ≡ some responsible)
        × IsGiven input.target_date date
        × (at_least 1 input.expected_version ≡ some expected)
        × Served render lower is_date actor input.name input.goals_markdown
            input.description_markdown responsible date checked stored answer
        × Edited project task actor.id
            (is_admin actor.role)
            (record checked { expected_version = expected; legacy_singular = false })
            checked.responsible_user_ids
            w.tables
            stored
            (run (update_task_v2 render lower is_date actor project task input audit) w).1.tables
  unfolding update_task_v2 update_task_with
  update_task_v2-Edited task input w {answer} distinct h =
      let after =
        (run (update_task_v2 render lower is_date actor project task input audit) w).1.tables in
      let y = run-Yields (update_task_v2 render lower is_date actor project task input audit) w h in
      lift->> _ _ y λ allowed y₁. or_raise->>= _ _ _ y₁ λ responsible given y₂.
        lift->>= _ _ y₂ λ date dated y₃. lift->>= _ _ y₃ λ checked valid y₄.
          or_raise->>= _ _ _ y₄ λ expected versioned y₅.
            render_task_markdown->>= render _ _ _ y₅ λ html goals description y₆.
              or_denied->>= _ _ _ y₆ λ stored t₁ made rest.
                let accepted = validate_task-Accepted lower is_date _ _ _ _ _ valid in
                let (ids, whole, edited) = update_task_row-Yields _ _ _ _ _ _ made in
                let (answered, same) = pure-Yields _ rest in
                let final = record checked {
                  expected_version = expected;
                  legacy_singular = false;
                } in
                (
                  responsible,
                  date,
                  expected,
                  checked,
                  stored,
                  given,
                  present-IsGiven "target_date" input.target_date dated,
                  versioned,
                  Served-html answer html allowed accepted
                      (validate_task-IsDated lower is_date _ _ _ _ _ valid) goals description
                      answered,
                  subst
                      (λ v.
                        Edited project task actor.id (is_admin actor.role) final v w.tables stored
                          after)
                      (whole distinct accepted.ascending)
                      (subst
                        (Edited project task actor.id (is_admin actor.role) final ids w.tables
                          stored)
                        (sym same) edited),
                )
