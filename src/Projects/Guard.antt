-- ===== src/Projects/Guard.antt =====
-- Project administration: the requests, and what happens to one that an administrator did not make.
use project_progress_registe.Base.{◌≡◌, ◌⊎◌, inl, inr, refl, false, Bool-cases, Option}
use project_progress_registe.Text.{Text}
use project_progress_registe.Schema.{
  Uuid, no_id, AuditContext, AuditEvent, AuditRow, denied, Tables,
}
use project_progress_registe.Db.{
  Error, database, Result, ok, err, World, Db, run, continue, raise, branch, exec, attempt, modify,
  fresh_id, now, insert_audit, append_audit_row, ◌>>=◌, ◌>>◌,
}
use project_progress_registe.Identity.Types.{User}
use project_progress_registe.Identity.Service.{append_audit}
use project_progress_registe.Identity.Ops.{discard}
use project_progress_registe.Projects.Types.{
  CreateProjectInput, UpdateProjectInput, ReplaceGeofenceInput,
}
use project_progress_registe.Projects.Store.{Rounding}
use project_progress_registe.Projects.Service.{
  is_project_admin, admin_refusal, require_project_admin, create_project, update_project,
  list_members, add_member, remove_member, replace_geofence,
}

pub data Request : Type 0 where
  create : CreateProjectInput → Request
  change : Uuid → UpdateProjectInput → Request
  members : Uuid → Request
  add remove : Uuid → Uuid → Request
  fence : Uuid → ReplaceGeofenceInput → Request

module _ (render : Text → Option Text) (rounding : Rounding) (actor : User)
    (audit : AuditContext) where
  abbrev pub serve : Request → Db (Unit {0})
  serve (create input) = discard (create_project render actor input audit)
  serve (change project input) = discard (update_project render actor project input audit)
  serve (members project) = discard (list_members actor project audit)
  serve (add project user) = discard (add_member actor project user audit)
  serve (remove project user) = remove_member actor project user audit
  serve (fence project input) = discard (replace_geofence rounding actor project input audit)

-- An error; the tables are as they were, or have one more audit row, of a denial.
abbrev pub IsRefused : {A : Type 0} → Uuid → Tables → Result A × World → Type 0
IsRefused actor t r =
    (e : Error) × (r.0 ≡ err e)
    × ((r.1.tables ≡ t)
        ⊎ ((row : AuditRow) × (row.event.outcome ≡ denied)
            × (row.event.actor_user_id ≡ actor)
            × (r.1.tables ≡ append_audit_row row t)))

continue-IsRefused :
    {A B : Type 0} (k : A → Db B) (actor : Uuid) (t : Tables) (r : Result A × World)
    → IsRefused actor t r
    → IsRefused actor t (continue k r)
continue-IsRefused k actor t (ok a, w) (e, h, rest) = cc
continue-IsRefused k actor t (err x, w) (e, h, rest) = (x, refl, rest)

bind-IsRefused :
    {A B : Type 0} (m : Db A) (k : A → Db B) (actor : Uuid) (w : World)
    → IsRefused actor w.tables (run m w)
    → IsRefused actor w.tables (run (m >>= k) w)
unfolding ◌>>=◌
bind-IsRefused m k actor w h = continue-IsRefused k actor w.tables (run m w) h

then-IsRefused :
    {B : Type 0} (m : Db (Unit {0})) (k : Db B) (actor : Uuid) (w : World)
    → IsRefused actor w.tables (run m w)
    → IsRefused actor w.tables (run (m >> k) w)
unfolding ◌>>◌
then-IsRefused m k actor w h = bind-IsRefused m (λ _. k) actor w h

refusal-IsRefused :
    (event : AuditEvent) (e : Error) (w : World)
    → event.outcome ≡ denied
    → IsRefused event.actor_user_id w.tables (run (append_audit event >> raise {A = Unit {0}} e) w)
unfolding append_audit insert_audit exec attempt modify fresh_id now ◌>>=◌ ◌>>◌
refusal-IsRefused event e w h = elim (Bool-cases (w.env.fails w.calls)) [
  | inl failed ↦ rw failed (database, refl, inl refl)
  | inr passed ↦ rw passed (
    e,
    refl,
    inr (
      record { id = w.env.ids w.calls; occurred_at = w.env.clock w.calls; event = event },
      h,
      refl,
      refl,
    ),
  )
]

gate-IsRefused :
    (actor : User) (target : Uuid) (audit : AuditContext) (w : World)
    → is_project_admin actor ≡ false
    → IsRefused actor.id w.tables (run (require_project_admin actor target audit) w)
unfolding require_project_admin branch
gate-IsRefused actor target audit w h = rw h (refusal-IsRefused _ (admin_refusal actor) w refl)

-- A request for project administration, the listing of members included, of an actor who is not an
-- enabled administrator with a password of their own is answered with an error and changes nothing but
-- the audit trail, to which at most a row of the denial is added.
pub serve-IsRefused :
    (render : Text → Option Text) (rounding : Rounding) (actor : User) (audit : AuditContext)
    (request : Request) (w : World)
    → is_project_admin actor ≡ false
    → IsRefused actor.id w.tables (run (serve render rounding actor audit request) w)
unfolding create_project update_project list_members add_member remove_member replace_geofence
serve-IsRefused render rounding actor audit (create input) w h =
    bind-IsRefused _ _ actor.id w
      (then-IsRefused _ _ actor.id w (gate-IsRefused actor no_id audit w h))
serve-IsRefused render rounding actor audit (change project input) w h =
    bind-IsRefused _ _ actor.id w
      (then-IsRefused _ _ actor.id w (gate-IsRefused actor project audit w h))
serve-IsRefused render rounding actor audit (members project) w h =
    bind-IsRefused _ _ actor.id w
      (then-IsRefused _ _ actor.id w (gate-IsRefused actor project audit w h))
serve-IsRefused render rounding actor audit (add project user) w h =
    bind-IsRefused _ _ actor.id w
      (then-IsRefused _ _ actor.id w (gate-IsRefused actor project audit w h))
serve-IsRefused render rounding actor audit (remove project user) w h =
    then-IsRefused _ _ actor.id w (gate-IsRefused actor project audit w h)
serve-IsRefused render rounding actor audit (fence project input) w h =
    bind-IsRefused _ _ actor.id w
      (then-IsRefused _ _ actor.id w (gate-IsRefused actor project audit w h))
