-- ===== src/Projects/Membership.antt =====
-- Membership: what an addition and a removal leave, and what a member sees.
use project_progress_registe.Base.{
  suc, ◌≡◌, ◌≢◌, refl, sym, ap, ◌∙◌, Bool, true, false, ◌&&◌, ◌||◌, some, List, [], ◌∷◌, ◌++◌, map,
  arith, ◌==◌, ==_refl, ◌⊎◌, find, any, count, select, update, delete,
}
use mathlib.Core.Path.{subst}
use project_progress_registe.Schema.{
  Uuid, Instant, AuditEvent, UserRow, ProjectRow, MemberRow, Tables,
}
use project_progress_registe.Db.{ok, World, run}
use project_progress_registe.Db.Steps.{
  Yields, run-Yields, pure-Yields, transaction-Yields, query->>=, gets->>=, now->>=, attempt->>,
  exec->>, modify->>, raise_if->>, or_raise->>=, insert_audit->>, insert_audit-Yields, then-Yields,
}
use project_progress_registe.Identity.Types.{is_admin}
use project_progress_registe.Identity.Sessions.{has_id}
use project_progress_registe.Identity.Revocation.{find-test}
use project_progress_registe.Projects.Types.{Project, Member}
use project_progress_registe.Projects.Store.{
  has_project_id, is_current_member, can_see, to_project, current_geofence, get_project_row,
}
use project_progress_registe.Projects.Members.{
  to_member, new_member_row, end_membership, is_affected, revision_of, revise_tasks, is_task_of,
  drop_responsibilities, add_member_row, remove_member_row,
}
use project_progress_registe.Projects.Fences.{lock_project-Yields}

pub record Added (project user : Uuid) (event : AuditEvent) (t : Tables) (m : Member) (t' : Tables)
    : Type 0 where
  pub account : UserRow
  pub at : Instant
  pub known : any (has_project_id project) t.projects ≡ true
  pub found : find (has_id user) t.users ≡ some account
  pub enabled : account.enabled ≡ true
  pub plain : is_admin account.role ≡ false
  pub members : t'.members ≡ t.members ++ new_member_row project user event.actor_user_id at ∷ []
  pub once : count (is_current_member project user) t'.members ≡ 1
  pub returned : m ≡ to_member at account

count_none :
    (p : MemberRow → Bool) (rows : List MemberRow) (row : MemberRow)
    → any p rows ≡ false
    → p row ≡ true
    → count p (rows ++ row ∷ []) ≡ 1
count_none p [] row h e = ground (arith, e)
count_none p (x ∷ rows) row h e = ground (arith, count_none p rows row)

any-end_membership :
    (project user by : Uuid) (at : Instant) (rows : List MemberRow)
    → any
        (is_current_member project user)
        (update (is_current_member project user) (end_membership by at) rows)
      ≡ false
any-end_membership project user by at [] = refl
any-end_membership project user by at (x ∷ rows) =
    ground (arith, any-end_membership project user by at rows)

any-delete : {A : Type 0} (p : A → Bool) (rows : List A) → any p (delete p rows) ≡ false
any-delete p [] = refl
any-delete p (x ∷ rows) = ground (arith, any-delete p rows)

pub record Removed (project user by : Uuid) (t t' : Tables) : Type 0 where
  pub at : Instant
  pub revised : Instant
  pub was : any (is_current_member project user) t.members ≡ true
  pub members :
      t'.members ≡ update (is_current_member project user) (end_membership by at) t.members
  pub gone : any (is_current_member project user) t'.members ≡ false
  pub tasks :
      t'.tasks
      ≡ update
          (is_affected project user t.responsibilities)
          (λ task. record task { updated_at = revised; version = suc task.version })
          t.tasks
  pub revisions :
      t'.task_revisions
      ≡ t.task_revisions
        ++ map
            (revision_of user by t.responsibilities)
            (select (is_affected project user t.responsibilities) t.tasks)
  pub released :
      any (λ row. row.user_id == user && is_task_of project t'.tasks row) t'.responsibilities
      ≡ false

module _ (project user : Uuid) (event : AuditEvent) where
  add_member_row-Yields :
      {t t' : Tables} {m : Member}
      → Yields (add_member_row project user event) t m t'
      → Added project user event t m t'
  unfolding add_member_row
  add_member_row-Yields {t} {t'} {m} y = then-Yields _ _ (transaction-Yields _ y) λ t₁ locked y₁.
      query->>= _ _ y₁ λ y₂. or_raise->>= _ _ _ y₂ λ u found y₃. raise_if->> _ _ _ y₃ λ valid y₄.
        now->>= _ y₄ λ at y₅. attempt->> _ _ y₅ λ y₆. gets->>= _ _ y₆ λ y₇.
          raise_if->> _ _ _ y₇ λ free y₈. modify->> _ _ y₈ λ y₉.
            insert_audit->> _ _ y₉ λ row audited z.
              let (known, same) = lock_project-Yields project locked in
              let (returned, tables) = pure-Yields _ z in
              let added = ap (λ (v : Tables). v.members) tables in
              let entry = new_member_row project user event.actor_user_id at in
              subst (λ v. Added project user event v m t') same
                (record {
                  account = u;
                  at = at;
                  known = ap (λ (v : Tables). any (has_project_id project) v.projects) same ∙ known;
                  found = found;
                  enabled = ground (arith, valid);
                  plain = ground (arith, valid);
                  members = added;
                  once =
                      ap (count (is_current_member project user)) added
                      ∙ count_none (is_current_member project user) t₁.members entry free
                          (ground (arith, ==_refl project, ==_refl user));
                  returned = returned;
                })

  pub remove_member_row-Yields :
      {t t' : Tables}
      → Yields (remove_member_row project user event) t tt t'
      → Removed project user event.actor_user_id t t'
  unfolding remove_member_row revise_tasks drop_responsibilities
  remove_member_row-Yields {t} {t'} y = then-Yields _ _ (transaction-Yields _ y) λ t₁ locked y₁.
      now->>= _ y₁ λ at y₂. attempt->> _ _ y₂ λ y₃. gets->>= _ _ y₃ λ y₄. modify->> _ _ y₄ λ y₅.
        raise_if->> _ _ _ y₅ λ was y₆. gets->>= _ _ y₆ λ y₇. now->>= _ y₇ λ revised y₈.
          exec->> _ _ y₈ λ y₉. exec->> _ _ y₉ λ z.
            let (row, audited, tables) = insert_audit-Yields _ z in
            let (known, same) = lock_project-Yields project locked in
            let members = ap (λ (v : Tables). v.members) tables in
            subst (λ v. Removed project user event.actor_user_id v t') same
              (record {
                at = at;
                revised = revised;
                was = ground (arith, was);
                members = members;
                gone =
                    ap (any (is_current_member project user)) members
                    ∙ any-end_membership project user event.actor_user_id at t₁.members;
                tasks = ap (λ (v : Tables). v.tasks) tables;
                revisions = ap (λ (v : Tables). v.task_revisions) tables;
                released =
                    ap
                      (λ (v : Tables).
                        any (λ row. row.user_id == user && is_task_of project v.tasks row)
                          v.responsibilities)
                      tables
                    ∙ any-delete _ t₁.responsibilities;
              })

  -- An addition of a member that returns: project and account exist, the account is enabled and no
  -- administrator's, the one new membership is the only current one of that account in the project,
  -- and every earlier membership is kept.
  pub add_member_row-Added :
      (w : World) {m : Member}
      → (run (add_member_row project user event) w).0 ≡ ok m
      → Added project user event w.tables m (run (add_member_row project user event) w).1.tables
  add_member_row-Added w h =
      add_member_row-Yields (run-Yields (add_member_row project user event) w h)

  -- A removal of a member that returns ends the current membership, writes a revision of each task of
  -- the project that the member was responsible for and raises its version by one, and leaves the
  -- member without responsibility in the project.
  pub remove_member_row-Removed :
      (w : World)
      → (run (remove_member_row project user event) w).0 ≡ ok tt
      → Removed project user event.actor_user_id w.tables
          (run (remove_member_row project user event) w).1.tables
  remove_member_row-Removed w h =
      remove_member_row-Yields (run-Yields (remove_member_row project user event) w h)

seen_row :
    (actor : Uuid) (project : Uuid) (is_admin : Bool) {t t' : Tables} {p : Project}
    → Yields (get_project_row actor is_admin project) t p t'
    → (row : ProjectRow) × (row.id ≡ project)
      × (can_see actor is_admin t row ≡ true)
      × (p ≡ to_project (current_geofence project t) row)
unfolding get_project_row
seen_row actor project is_admin {t} {t'} y = query->>= _ _ y λ y₁.
    or_raise->>= _ _ _ y₁ λ row found y₂. gets->>= _ _ y₂ λ y₃.
      let (returned, same) = pure-Yields _ y₃ in
      let test = find-test _ t.projects found in
      (row, ground (arith, test), ground (arith, test), returned)

reader : (a b : Bool) → (a || b) ≡ true → (a ≡ true) ⊎ (b ≡ true)
reader a b h = ground (arith, h)

-- A project is read only by an administrator or a current member, with its current geofence.
pub get_project_row-visible :
    (actor project : Uuid) (is_admin : Bool) (w : World) {p : Project}
    → (run (get_project_row actor is_admin project) w).0 ≡ ok p
    → (p.id ≡ project)
      × (p.geofence ≡ current_geofence project w.tables)
      × ((is_admin ≡ true) ⊎ (any (is_current_member project actor) w.tables.members ≡ true))
get_project_row-visible actor project is_admin w h =
    let (row, e, see, returned) =
      seen_row actor project is_admin (run-Yields (get_project_row actor is_admin project) w h) in
    (
      ap (λ (v : Project). v.id) returned ∙ e,
      ap (λ (v : Project). v.geofence) returned,
      reader is_admin (any (is_current_member project actor) w.tables.members)
          (ap (λ id. is_admin || any (is_current_member id actor) w.tables.members) (sym e) ∙ see),
    )

-- A member who was removed and is no administrator can no longer read the project.
pub get_project_row-remove_member_row :
    (project user : Uuid) (event : AuditEvent) (w w' : World) {p : Project}
    → (run (remove_member_row project user event) w).0 ≡ ok tt
    → w'.tables ≡ (run (remove_member_row project user event) w).1.tables
    → (run (get_project_row user false project) w').0 ≢ ok p
get_project_row-remove_member_row project user event w w' h same seen =
    let d = remove_member_row-Removed project user event w h in
    let gone = ap (λ (v : Tables). any (is_current_member project user) v.members) same ∙ d.gone in
    let (id, fence, seen_by) = get_project_row-visible user project false w' seen in
    ground (arith, gone, seen_by)
