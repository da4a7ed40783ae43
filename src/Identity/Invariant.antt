-- ===== src/Identity/Invariant.antt =====
-- What every identity transition keeps: the accounts have distinct keys, and an enabled administrator
-- is left.
use project_progress_registe.Base.{
  ◌≡◌, ◌≤◌, inl, inr, refl, sym, ap, ◌∙◌, Bool, true, false, ◌&&◌, some, List, [], ◌∷◌, ◌++◌, arith,
  leb, find, any, count, update,
}
use mathlib.Core.Path.{subst}
use project_progress_registe.Text.{Text}
use project_progress_registe.Schema.{Uuid, Instant, Role, UserRow, Tables}
use project_progress_registe.Db.{World, run}
use project_progress_registe.Db.Steps.{Yields, bind-Yields, pure-Yields}
use project_progress_registe.Identity.Types.{NewUser}
use project_progress_registe.Identity.Sessions.{has_id, is_enabled_user, revoke_sessions}
use project_progress_registe.Identity.Throttle.{ensure_throttle}
use project_progress_registe.Identity.Accounts.{
  is_enabled_admin, enabled_admins, removes_enabled_admin, set_access, set_password, clashes,
  new_row, bootstrap_input,
}
use project_progress_registe.Identity.Changes.{update_user-Updated}
use project_progress_registe.Identity.Users.{
  IsDistinct, KeepsKeys, IsDistinct-update, IsDistinct-append, count-append, count-update,
  count-update_same,
}
use project_progress_registe.Identity.Ops.{
  Op, bootstrap, create, change_access, reset, change, fail_login, open_session, close_session,
  perform, bootstrap_admin-Yields, create_user-Yields, reset_password-Yields,
  change_password-Yields, record_login_failure-Yields, create_login_session-Yields,
  revoke_session-Yields,
}
use project_progress_registe.Identity.Atomic.{IsAtomic_keeps, tables-perform_err}

abbrev pub IsSoundUsers : List UserRow → Type 0
IsSoundUsers us = IsDistinct us × (1 ≤ count is_enabled_admin us)

-- The account keys are distinct, and an enabled administrator exists.
abbrev pub IsSound : Tables → Type 0
IsSound t = IsSoundUsers t.users

IsSoundUsers-append :
    (id : Uuid) (at : Instant) (input : NewUser) (us : List UserRow)
    → any (clashes id input) us ≡ false
    → IsSoundUsers us
    → IsSoundUsers (us ++ new_row id at input ∷ [])
IsSoundUsers-append id at input us free (distinct, admins) = (
  IsDistinct-append id at input us free distinct,
  ground (arith, count-append is_enabled_admin us (new_row id at input ∷ [])),
)

-- A change of the rows that leaves their keys and their standing.
IsSoundUsers-same :
    (p : UserRow → Bool) (f : UserRow → UserRow) (us : List UserRow)
    → KeepsKeys f
    → ((u : UserRow) → is_enabled_admin (f u) ≡ is_enabled_admin u)
    → IsSoundUsers us
    → IsSoundUsers (update p f us)
IsSoundUsers-same p f us keeps same (distinct, admins) = (
  IsDistinct-update p f keeps us distinct,
  ground (arith, count-update_same is_enabled_admin p f us same),
)

-- The guard of `update_user`: only when another administrator is enabled is one removed.
IsSoundUsers-access :
    (target : Uuid) (role : Role) (enabled : Bool) (at : Instant) (us : List UserRow) (u : UserRow)
    → find (has_id target) us ≡ some u
    → (removes_enabled_admin u role enabled && leb (count is_enabled_admin us) 1) ≡ false
    → IsSoundUsers us
    → IsSoundUsers (update (has_id target) (set_access role enabled at) us)
IsSoundUsers-access target role enabled at us u found allowed (distinct, admins) = (
  IsDistinct-update (has_id target) (set_access role enabled at) (λ v. (refl, refl, refl)) us
      distinct,
  ground (
    arith,
    count-update is_enabled_admin target (set_access role enabled at) us u distinct found,
  ),
)

users-revoke :
    (user : Uuid) (at : Instant) (t : Tables) → (revoke_sessions user at t).users ≡ t.users
unfolding revoke_sessions
users-revoke user at t = refl

users-ensure :
    (digest ip : Text) (at : Instant) (t : Tables)
    → (ensure_throttle digest ip at t).users ≡ t.users
unfolding ensure_throttle
users-ensure digest ip at t = ground arith

guard :
    (t : Tables) (u : UserRow) (role : Role) (enabled : Bool)
    → (removes_enabled_admin u role enabled && leb (enabled_admins t) 1) ≡ false
    → (removes_enabled_admin u role enabled && leb (count is_enabled_admin t.users) 1) ≡ false
unfolding enabled_admins
guard t u role enabled h = h

perform-IsSound_ok :
    (op : Op) (t t' : Tables) → IsSound t → Yields (perform op) t tt t' → IsSound t'
perform-IsSound_ok (bootstrap input event) t t' s y = bind-Yields _ _ y λ u t₁ done rest.
    let (id, at, row, empty, free, made, audited, tables) =
      bootstrap_admin-Yields input event done in
    subst IsSoundUsers (sym (ap (λ (v : Tables). v.users) ((pure-Yields _ rest).1 ∙ tables)))
      (IsSoundUsers-append id at (bootstrap_input input) t.users free s)
perform-IsSound_ok (create input event) t t' s y = bind-Yields _ _ y λ u t₁ done rest.
    let (id, at, row, free, made, audited, tables) = create_user-Yields input event done in
    subst IsSoundUsers (sym (ap (λ (v : Tables). v.users) ((pure-Yields _ rest).1 ∙ tables)))
      (IsSoundUsers-append id at input t.users free s)
perform-IsSound_ok (change_access target role enabled expected event) t t' s y =
    bind-Yields _ _ y λ u t₁ done rest.
      let d = update_user-Updated target role enabled expected event done in
      subst IsSoundUsers
        (sym (
          ap (λ (v : Tables). v.users) ((pure-Yields _ rest).1 ∙ d.tables)
          ∙ users-revoke target d.revoked _))
        (IsSoundUsers-access target role enabled d.at t.users d.current d.found
          (guard t d.current role enabled d.allowed) s)
perform-IsSound_ok (reset target hash event) t t' s y = bind-Yields _ _ y λ u t₁ done rest.
    let (current, at, revoked, row, found, returned, audited, tables) =
      reset_password-Yields target hash event done in
    subst IsSoundUsers
      (sym (
        ap (λ (v : Tables). v.users) ((pure-Yields _ rest).1 ∙ tables)
        ∙ users-revoke target revoked _))
      (IsSoundUsers-same (has_id target) (set_password hash true at) t.users
        (λ v. (refl, refl, refl)) (λ v. refl) s)
perform-IsSound_ok (change user hash event) t t' s y =
    let (at, revoked, row, found, audited, tables) = change_password-Yields user hash event y in
    subst IsSoundUsers (sym (ap (λ (v : Tables). v.users) tables ∙ users-revoke user revoked _)) (
      IsSoundUsers-same (is_enabled_user user) (set_password hash false at) t.users
        (λ v. (refl, refl, refl)) (λ v. refl) s)
perform-IsSound_ok (fail_login digest ip now window maximum block event) t t' s y =
    let (old, row, found, audited, tables) =
      record_login_failure-Yields digest ip now window maximum block event y in
    subst IsSoundUsers (sym (ap (λ (v : Tables). v.users) tables ∙ users-ensure digest ip now t)) s
perform-IsSound_ok (open_session user hash expires digest ip event) t t' s y =
    let (id, at, row, free, audited, tables) =
      create_login_session-Yields user hash expires digest ip event y in
    subst IsSoundUsers (sym (ap (λ (v : Tables). v.users) tables)) (
      IsSoundUsers-same (has_id user) (λ u. record u { last_login_at = some at }) t.users
        (λ v. (refl, refl, refl)) (λ v. refl) s)
perform-IsSound_ok (close_session hash event) t t' s y =
    elim (revoke_session-Yields hash event y).1 [
      | inl (found, row, audited, tables) ↦
          subst IsSoundUsers (sym (ap (λ (v : Tables). v.users) tables)) s
      | inr (closed, tables) ↦ subst IsSoundUsers (sym (ap (λ (v : Tables). v.users) tables)) s
    ]

-- Every transition of the repository, whatever it returns, keeps the account keys distinct and an
-- enabled administrator in place.
pub perform-IsSound :
    (op : Op) (w : World) → IsSound w.tables → IsSound (run (perform op) w).1.tables
perform-IsSound op w s =
    IsAtomic_keeps (perform op) IsSound w (λ w' e. tables-perform_err op w')
      (λ u t' y h. perform-IsSound_ok op w.tables t' h y) s
