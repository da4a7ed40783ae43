-- ===== src/Identity/Sessions.antt =====
-- internal/identity/postgres.go: sessions.
use project_progress_registe.Base.{
  Bool, true, false, ◌&&◌, Option, none, some, [], ◌∷◌, ◌++◌, ltb, ◌==◌, find, any, update,
}
use project_progress_registe.Text.{Text, text_eq}
use project_progress_registe.Schema.{Uuid, Instant, AuditEvent, UserRow, SessionRow, Tables}
use project_progress_registe.Db.{
  Db, unauthenticated, query, exec, attempt, database, gets, modify, pure, raise_if, or_raise, now,
  fresh_id, transaction, insert_audit, branch, ◌>>=◌, ◌>>◌,
}
use project_progress_registe.Identity.Types.{Session, to_user}
use project_progress_registe.Identity.Throttle.{clear_throttle}

abbrev pub is_none : Option Instant → Bool
is_none none = true
is_none (some at) = false

abbrev pub has_id : Uuid → UserRow → Bool
has_id id u = u.id == id

abbrev pub is_enabled_user : Uuid → UserRow → Bool
is_enabled_user id u = u.id == id && u.enabled

-- UPDATE public.sessions SET revoked_at = … WHERE user_id = $1 AND revoked_at IS NULL
abbrev pub is_open_of : Uuid → SessionRow → Bool
is_open_of user s = s.user_id == user && is_none s.revoked_at

abbrev pub revoke : Instant → SessionRow → SessionRow
revoke at s = record s { revoked_at = some at }

unfoldable pub revoke_sessions : Uuid → Instant → Tables → Tables
revoke_sessions user at t = record t { sessions = update (is_open_of user) (revoke at) t.sessions }

-- The WHERE clause of `LookupSession` on a session and the users that it joins.
abbrev pub is_current : Text → Instant → Tables → SessionRow → Bool
is_current hash at t s =
    text_eq s.token_hash hash
    && is_none s.revoked_at
    && ltb at s.expires_at
    && any (is_enabled_user s.user_id) t.users

unfoldable pub find_session : Text → Instant → Tables → Option Session
find_session hash at t = elim (find (is_current hash at t) t.sessions) [
  | none ↦ none
  | some s ↦ elim (find (is_enabled_user s.user_id) t.users) [
    | none ↦ none
    | some u ↦ some (record { id = s.id; user = to_user u; expires_at = s.expires_at })
  ]
]

unfoldable pub lookup_session : Text → Instant → Db Session
lookup_session hash at = do found ← query (find_session hash at); or_raise found unauthenticated

-- The unique index on `token_hash`: a violation is an unnamed database error.
abbrev pub has_token : Text → SessionRow → Bool
has_token hash s = text_eq s.token_hash hash

abbrev pub add_session : SessionRow → Tables → Tables
add_session s t = record t { sessions = t.sessions ++ s ∷ [] }

abbrev pub set_last_login : Uuid → Instant → Tables → Tables
set_last_login user at t = record t {
  users = update (has_id user) (λ u. record u { last_login_at = some at }) t.users;
}

unfoldable pub create_login_session :
    Uuid → Text → Instant → Text → Text → AuditEvent → Db (Unit {0})
create_login_session user hash expires digest ip event = transaction do
  id ← fresh_id
  attempt database
  taken ← gets (λ t. any (has_token hash) t.sessions)
  raise_if taken database
  modify (
      add_session (record {
        id = id;
        user_id = user;
        token_hash = hash;
        expires_at = expires;
        revoked_at = none;
        created_ip = ip;
        user_agent = event.context.user_agent;
      }))
  at ← now
  exec (set_last_login user at)
  exec (clear_throttle digest ip)
  insert_audit event

abbrev pub is_open_token : Text → SessionRow → Bool
is_open_token hash s = text_eq s.token_hash hash && is_none s.revoked_at

unfoldable pub revoke_session : Text → AuditEvent → Db (Unit {0})
revoke_session hash event = transaction do
  at ← now
  attempt database
  open_session ← gets (λ t. any (is_open_token hash) t.sessions)
  modify (λ t. record t { sessions = update (is_open_token hash) (revoke at) t.sessions })
  branch open_session (insert_audit event) (pure tt)
