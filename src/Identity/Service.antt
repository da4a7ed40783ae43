-- ===== src/Identity/Service.antt =====
-- internal/identity/service.go and token.go: the identity policy over the repository. The
-- constants are the service's: durations in nanoseconds.
use project_progress_registe.Base.{
  ℕ, at_least, ◌+◌, ◌*◌, Bool, true, false, not, ◌&&◌, ◌||◌, Option, none, some, List, [], ◌∷◌,
  ◌++◌, String, ltb, ◌==◌, if◌then◌else◌, length,
}
use project_progress_registe.Text.{Text, codes, text_eq, is_blank, byte_len, trim_space}
use project_progress_registe.Platform.{Platform}
use project_progress_registe.Schema.{
  Uuid, no_id, admin, Detail, text, tag, a_role, flag, AuditContext, AuditEvent, AuditOutcome,
  succeeded, failed, denied, UserRow,
}
use project_progress_registe.Db.{
  Db, Result, ok, err, validation, unauthenticated, invalid_credentials, login_throttled,
  bootstrap_unavailable, bootstrap_denied, csrf_invalid, forbidden, not_found,
  password_change_required, random_source, attempt, lift, pure, raise, raise_if, or_raise, now,
  random_bytes, branch, insert_audit, ◌>>=◌, ◌>>◌,
}
use project_progress_registe.Identity.Types.{
  User, to_user, Session, BootstrapInput, LoginInput, LoginResult, CreateUserInput, UpdateUserInput,
  CredentialResult, is_admin, normalize_identifier, validate_role, validate_username,
  validate_email, validate_password,
}
use project_progress_registe.Identity.Context.{clean_audit_context}
use project_progress_registe.Identity.Password.{hash_password, verify_password}
use project_progress_registe.Identity.Throttle.{is_login_blocked, record_login_failure}
use project_progress_registe.Identity.Sessions.{
  lookup_session, create_login_session, revoke_session,
}
use project_progress_registe.Identity.Accounts.{
  user_count, bootstrap_admin, find_user_by_identifier, create_user, update_user, reset_password,
  change_password,
}

abbrev pub minute : ℕ
minute = 60_000_000_000

abbrev pub login_window : ℕ
login_window = 15 * minute

abbrev pub login_block : ℕ
login_block = 15 * minute

abbrev pub max_login_failures : ℕ
max_login_failures = 5

abbrev pub max_login_identifier : ℕ
max_login_identifier = 254

pub record Service : Type 0 where
  pub csrf_key : Text
  pub session_ttl : ℕ
  pub dummy_password_hash : Text
  pub bootstrap_configured : Bool
  pub bootstrap_token_hash : Text

pub record ServiceConfig : Type 0 where
  pub csrf_key : Text
  pub session_ttl : ℕ
  pub bootstrap_token : Text

abbrev pub event_of :
    String
    → Uuid
    → String
    → Uuid
    → AuditOutcome
    → AuditContext
    → List (String × Detail)
    → AuditEvent
event_of action actor target_type target outcome context details = record {
  actor_user_id = actor;
  action = action;
  target_type = target_type;
  target_id = target;
  outcome = outcome;
  context = context;
  details = details;
}

-- The one failing step of `NewService` after its checks is the dummy verifier.
module _ (p : Platform) where
  unfoldable pub new_service : ServiceConfig → Db Service
  new_service cfg = do
    raise_if (not (length cfg.csrf_key == 32)) (validation "csrf_key")
    raise_if (ltb cfg.session_ttl (15 * minute) || ltb (7 * 24 * 60 * minute) cfg.session_ttl)
        (validation "session_ttl")
    dummy ← hash_password p (codes "dummy-password-verifier-not-a-real-credential")
    pure (record {
      csrf_key = cfg.csrf_key;
      session_ttl = cfg.session_ttl;
      dummy_password_hash = dummy;
      bootstrap_configured = not (is_blank cfg.bootstrap_token);
      bootstrap_token_hash = p.sha256 cfg.bootstrap_token;
    })

  -- `secureEqual`: the digests are compared, in constant time.
  unfoldable pub secure_equal : Text → Text → Bool
  secure_equal left right = text_eq (p.sha256 left) (p.sha256 right)

  unfoldable pub identifier_hash : Text → Text
  unfolding normalize_identifier
  identifier_hash identifier = p.sha256 (normalize_identifier p identifier)

  unfoldable pub derive_csrf_token : Text → Text → Text
  derive_csrf_token key token = p.url_encode (p.hmac key (codes "ppr-csrf-v1" ++ (0 ∷ token)))

  -- The token and its digest.
  unfoldable pub new_session_token : Db (Text × Text)
  new_session_token = do
    raw ← random_bytes
    attempt random_source
    pure (p.url_encode raw, p.sha256 (p.url_encode raw))

  unfoldable pub new_temporary_password : Db Text
  new_temporary_password = do
    raw ← random_bytes
    attempt random_source
    pure (p.url_encode raw ++ codes "aA1!")

-- `Repository.AppendAudit`
unfoldable pub append_audit : AuditEvent → Db (Unit {0})
append_audit event = insert_audit event

unfoldable pub is_active_admin : User → Bool
is_active_admin actor = actor.enabled && is_admin actor.role && not actor.must_change_password

-- `requireAdmin`: a refusal is audited first.
unfoldable pub require_admin : User → AuditContext → Db (Unit {0})
require_admin actor audit = branch (is_active_admin actor) (pure tt) (
    append_audit (
      event_of "authorization.admin_users_denied" actor.id "user" no_id denied
        (clean_audit_context audit) (("reason", tag "admin_required") ∷ []))
    >> raise (if actor.must_change_password then password_change_required else forbidden))

module _ (p : Platform) (s : Service) where
  unfoldable pub bootstrap_available : Db Bool
  bootstrap_available =
      branch (not s.bootstrap_configured) (pure false) (do count ← user_count; pure (count == 0))

  unfoldable pub bootstrap_admin_account : BootstrapInput → AuditContext → Db User
  bootstrap_admin_account input audit = do
    raise_if (not s.bootstrap_configured) bootstrap_unavailable
    branch (secure_equal p (p.sha256 input.bootstrap_token) s.bootstrap_token_hash) (pure tt) (
        append_audit (
          event_of "identity.bootstrap_failed" no_id "user" no_id denied (clean_audit_context audit)
            (("reason", tag "invalid_bootstrap_token") ∷ []))
        >> raise bootstrap_denied)
    username ← lift (validate_username p input.username)
    email ← lift (validate_email p input.email)
    lift (validate_password input.password)
    hash ← hash_password p input.password
    bootstrap_admin
        (record {
          username = username;
          email = email;
          password_hash = hash;
          role = admin;
          created_by = no_id;
          must_change_password = false;
        })
        (event_of "identity.bootstrap_succeeded" no_id "user" no_id succeeded
          (clean_audit_context audit) (("role", a_role admin) ∷ []))

  unfoldable pub record_failure : Text → AuditContext → Db (Unit {0})
  record_failure digest audit = do
    at ← now
    record_login_failure digest audit.client_ip at login_window max_login_failures login_block (
        event_of "auth.login_failed" no_id "user" no_id failed audit
          (("reason", tag "invalid_credentials") ∷ ("identifier_hash", text (p.hex digest)) ∷ []))

  -- A refused login: the failure is counted and audited.
  unfoldable pub refuse_login : Text → AuditContext → Db LoginResult
  refuse_login digest audit = record_failure digest audit >> raise invalid_credentials

  unfoldable pub start_session : UserRow → Text → AuditContext → Db LoginResult
  start_session row digest audit = do
    tokens ← new_session_token p
    at ← now
    create_login_session row.id tokens.1 (at + s.session_ttl) digest audit.client_ip
        (event_of "auth.login_succeeded" row.id "user" row.id succeeded audit [])
    pure (record {
      user = to_user row;
      session_token = tokens.0;
      csrf_token = derive_csrf_token p s.csrf_key tokens.0;
      expires_at = at + s.session_ttl;
    })

  -- The digest that is checked: a dummy one if there is no such account.
  unfoldable pub hash_to_check : Option UserRow → Text
  hash_to_check none = s.dummy_password_hash
  hash_to_check (some row) = row.password_hash

  -- `findErr != nil || !matched || !record.Enabled`, and the rest of `Login`.
  unfoldable pub settle_login : Option UserRow → Bool → Text → AuditContext → Db LoginResult
  settle_login none matched digest audit = refuse_login digest audit
  settle_login (some row) matched digest audit =
      branch (not matched || not row.enabled) (refuse_login digest audit)
        (start_session row digest audit)

  unfoldable pub check_login : Text → Text → Text → AuditContext → Db LoginResult
  check_login identifier password digest audit = do
    at ← now
    blocked ← is_login_blocked digest audit.client_ip at
    branch blocked
        (append_audit (
            event_of "auth.login_throttled" no_id "user" no_id denied audit
              (("identifier_hash", text (p.hex digest)) ∷ []))
          >> raise login_throttled)
        (do
          found ← find_user_by_identifier identifier
          matched ← verify_password p (hash_to_check found) password
          settle_login found matched digest audit)

  unfoldable pub is_malformed_login : Text → Text → Bool
  is_malformed_login identifier password =
      is_blank identifier
      || ltb max_login_identifier (byte_len identifier)
      || ltb 128 (byte_len password)

  unfoldable pub login : LoginInput → AuditContext → Db LoginResult
  login input audit =
      let context = clean_audit_context audit in
      let identifier = normalize_identifier p input.identifier in
      let digest = identifier_hash p identifier in
      branch (is_malformed_login identifier input.password) (refuse_login digest context)
        (check_login identifier input.password digest context)

  unfoldable pub current_session : Text → Db Session
  current_session token = do
    raise_if (is_blank (trim_space token)) unauthenticated
    at ← now
    lookup_session (p.sha256 token) at

  unfoldable pub validate_csrf : Text → Text → Result (Unit {0})
  unfolding secure_equal derive_csrf_token
  validate_csrf token supplied =
      if is_blank supplied || not (secure_equal p (derive_csrf_token p s.csrf_key token) supplied)
      then err csrf_invalid
      else ok tt

  unfoldable pub logout : Text → User → AuditContext → Db (Unit {0})
  logout token user audit = branch (is_blank token) (pure tt) (
      revoke_session (p.sha256 token) (
        event_of "auth.logout_succeeded" user.id "user" user.id succeeded
          (clean_audit_context audit) []))

  unfoldable pub create_user_account : User → CreateUserInput → AuditContext → Db CredentialResult
  create_user_account actor input audit = do
    require_admin actor audit
    username ← lift (validate_username p input.username)
    email ← lift (validate_email p input.email)
    role ← lift (validate_role p input.role)
    temporary ← new_temporary_password p
    hash ← hash_password p temporary
    user ←
        create_user
          (record {
            username = username;
            email = email;
            password_hash = hash;
            role = role;
            created_by = actor.id;
            must_change_password = true;
          })
          (event_of "identity.user_created" actor.id "user" no_id succeeded
            (clean_audit_context audit) (("role", a_role role) ∷ []))
    pure (record { user = user; temporary_password = temporary })

  unfoldable pub update_user_account : User → Uuid → UpdateUserInput → AuditContext → Db User
  update_user_account actor target input audit = do
    require_admin actor audit
    raise_if (target == no_id) not_found
    role ← lift (validate_role p input.role)
    enabled ← or_raise input.enabled (validation "enabled")
    expected ← or_raise (at_least 1 input.expected_version) (validation "expected_version")
    update_user target role enabled expected (
        event_of "identity.user_updated" actor.id "user" target succeeded
          (clean_audit_context audit) (("role", a_role role) ∷ ("enabled", flag enabled) ∷ []))

  unfoldable pub reset_user_password : User → Uuid → AuditContext → Db CredentialResult
  reset_user_password actor target audit = do
    require_admin actor audit
    temporary ← new_temporary_password p
    hash ← hash_password p temporary
    user ← reset_password target hash (
        event_of "identity.password_reset" actor.id "user" target succeeded
          (clean_audit_context audit) [])
    pure (record { user = user; temporary_password = temporary })

  unfoldable pub change_own_password : User → Text → AuditContext → Db (Unit {0})
  change_own_password actor password audit = do
    raise_if (not actor.enabled || actor.id == no_id) unauthenticated
    lift (validate_password password)
    hash ← hash_password p password
    change_password actor.id hash (
        event_of "identity.password_changed" actor.id "user" actor.id succeeded
          (clean_audit_context audit) [])
