-- ===== src/Identity/Accounts.antt =====
-- internal/identity/postgres.go: accounts.
use project_progress_registe.Base.{
  ℕ, suc, Bool, true, false, not, ◌&&◌, ◌||◌, Option, none, List, [], ◌∷◌, ◌++◌, String, leb, ◌==◌,
  find, any, count, update, is_empty, length,
}
use project_progress_registe.Text.{Text, text_eq}
use project_progress_registe.Schema.{
  Uuid, no_id, Instant, Role, Detail, a_role, flag, AuditEvent, UserRow, Tables,
}
use project_progress_registe.Db.{
  Error, database, not_found, conflict, last_admin, bootstrap_unavailable, unauthenticated, Db,
  attempt, query, exec, gets, modify, pure, raise_if, or_raise, now, fresh_id, transaction,
  insert_audit, ◌>>=◌, ◌>>◌,
}
use project_progress_registe.Identity.Types.{User, to_user, NewUser, is_admin}
use project_progress_registe.Identity.Sessions.{has_id, is_enabled_user, revoke_sessions}

unfoldable pub user_count : Db ℕ
user_count = query (λ t. length t.users)

abbrev pub with_actor : Uuid → AuditEvent → AuditEvent
with_actor id event = record event { actor_user_id = id }

abbrev pub with_target : Uuid → AuditEvent → AuditEvent
with_target id event = record event { target_id = id }

abbrev pub with_details : List (String × Detail) → AuditEvent → AuditEvent
with_details details event = record event { details = event.details ++ details }

-- The primary key, and the unique indexes on `username` and on `email`.
abbrev pub clashes : Uuid → NewUser → UserRow → Bool
clashes id input u = u.id == id || text_eq u.username input.username || text_eq u.email input.email

abbrev pub new_row : Uuid → Instant → NewUser → UserRow
new_row id at input = record {
  id = id;
  username = input.username;
  email = input.email;
  password_hash = input.password_hash;
  role = input.role;
  enabled = true;
  must_change_password = input.must_change_password;
  created_by = input.created_by;
  created_at = at;
  updated_at = at;
  password_changed_at = at;
  last_login_at = none;
  version = 1;
}

-- INSERT INTO public.users … RETURNING: `clash` is what a unique violation becomes.
unfoldable pub insert_user : Error → NewUser → Db User
insert_user clash input = do
  id ← fresh_id
  at ← now
  attempt database
  taken ← gets (λ t. any (clashes id input) t.users)
  raise_if taken clash
  modify (λ t. record t { users = t.users ++ new_row id at input ∷ [] })
  pure (to_user (new_row id at input))

-- The statement leaves `created_by` and `must_change_password` to their defaults.
abbrev pub bootstrap_input : NewUser → NewUser
bootstrap_input input = record input { created_by = no_id; must_change_password = false }

unfoldable pub bootstrap_admin : NewUser → AuditEvent → Db User
bootstrap_admin input event = transaction do
  attempt database
  empty ← query (λ t. is_empty t.users)
  raise_if (not empty) bootstrap_unavailable
  user ← insert_user database (bootstrap_input input)
  insert_audit (with_target user.id (with_actor user.id event))
  pure user

abbrev pub is_identifier : Text → UserRow → Bool
is_identifier identifier u = text_eq u.username identifier || text_eq u.email identifier

-- `none` is ErrNotFound.
unfoldable pub find_user_by_identifier : Text → Db (Option UserRow)
find_user_by_identifier identifier = query (λ t. find (is_identifier identifier) t.users)

unfoldable pub create_user : NewUser → AuditEvent → Db User
create_user input event =
    transaction
      do user ← insert_user conflict input; insert_audit (with_target user.id event); pure user

abbrev pub is_enabled_admin : UserRow → Bool
is_enabled_admin u = is_admin u.role && u.enabled

-- `lockEnabledAdmins`
unfoldable pub enabled_admins : Tables → ℕ
enabled_admins t = count is_enabled_admin t.users

abbrev pub removes_enabled_admin : UserRow → Role → Bool → Bool
removes_enabled_admin u role enabled =
    u.enabled && is_admin u.role && (not enabled || not (is_admin role))

abbrev pub set_access : Role → Bool → Instant → UserRow → UserRow
set_access role enabled at u = record u {
  role = role;
  enabled = enabled;
  updated_at = at;
  version = suc u.version;
}

unfoldable pub update_user : Uuid → Role → Bool → ℕ → AuditEvent → Db User
update_user target role enabled expected event = transaction do
  admins ← query enabled_admins
  found ← query (λ t. find (has_id target) t.users)
  current ← or_raise found not_found
  raise_if (not (current.version == expected)) conflict
  raise_if (removes_enabled_admin current role enabled && leb admins 1) last_admin
  at ← now
  exec (λ t. record t { users = update (has_id target) (set_access role enabled at) t.users })
  revoked ← now
  exec (revoke_sessions target revoked)
  insert_audit (
      with_details
        (("previous_role", a_role current.role) ∷ ("previous_enabled", flag current.enabled) ∷ [])
        event)
  pure (to_user (set_access role enabled at current))

abbrev pub set_password : Text → Bool → Instant → UserRow → UserRow
set_password hash must_change at u = record u {
  password_hash = hash;
  must_change_password = must_change;
  password_changed_at = at;
  updated_at = at;
  version = suc u.version;
}

unfoldable pub reset_password : Uuid → Text → AuditEvent → Db User
reset_password target hash event = transaction do
  at ← now
  attempt database
  found ← gets (λ t. find (has_id target) t.users)
  current ← or_raise found not_found
  modify (λ t. record t { users = update (has_id target) (set_password hash true at) t.users })
  revoked ← now
  exec (revoke_sessions target revoked)
  insert_audit event
  pure (to_user (set_password hash true at current))

unfoldable pub change_password : Uuid → Text → AuditEvent → Db (Unit {0})
change_password user hash event = transaction do
  at ← now
  attempt database
  affected ← gets (λ t. any (is_enabled_user user) t.users)
  modify
      (λ t. record t { users = update (is_enabled_user user) (set_password hash false at) t.users })
  raise_if (not affected) unauthenticated
  revoked ← now
  exec (revoke_sessions user revoked)
  insert_audit event
