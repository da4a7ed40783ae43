-- ===== src/Identity/Tests.antt =====
-- The identity transitions on small concrete tables.
use project_progress_registe.Base.{
  ℕ, ◌+◌, ◌++◌, ◌<◌, ◌≡◌, ◌≤◌, ◌↔◌, ◌⊎◌, refl, true, false, none, some, [], ◌∷◌, arith, ◌==◌,
}
use project_progress_registe.Text.{
  bad_byte, rune_len, Text, codes, byte_len, rune_count, valid_string,
}
use project_progress_registe.Schema.{
  Files, no_id, admin, member, succeeded, AuditContext, AuditEvent, ThrottleRow, Tables,
}
use project_progress_registe.Db.{
  Env, World, ok, err, run, ◌>>=◌, ◌>>◌, raise_if, or_raise, attempt, gets, modify, query, exec,
  now, fresh_id, commit, finish, transaction, insert_audit, last_admin,
}
use project_progress_registe.Identity.Types.{User, Session, to_user, NewUser, validate_password}
use project_progress_registe.Identity.Context.{truncate}
use project_progress_registe.Base.{find}
use project_progress_registe.Identity.Counting.{row_or_new, record_login_failure_counts}
use project_progress_registe.Identity.Throttle.{
  is_row_blocked, is_throttle, count_failure, ensure_throttle, record_login_failure,
}
use project_progress_registe.Identity.Sessions.{revoke_sessions, find_session, create_login_session}
use project_progress_registe.Identity.Changes.{AccessChanged, update_user-changed}
use project_progress_registe.Identity.Atomic.{tables-perform_err}
use project_progress_registe.Identity.Trail.{IsLogged, perform-IsLogged}
use project_progress_registe.Identity.Revocation.{
  IsUsable, find_session-IsUsable, find_session-perform,
}
use project_progress_registe.Identity.Blocking.{
  count_failures, is_row_blocked-count_failures, is_row_blocked-few,
}
use project_progress_registe.Identity.Validation.{validate_password_iff, truncate-fits}
use project_progress_registe.Identity.Accounts.{
  new_row, insert_user, bootstrap_admin, create_user, update_user, enabled_admins, reset_password,
}
use project_progress_registe.Identity.Ops.{create, change_access, reset, open_session, perform}
use project_progress_registe.Identity.Reach.{perform_all, bootstrap_admin-IsSound_always}
use project_progress_registe.Identity.Invariant.{IsSound, perform-IsSound}

abbrev pub no_tables : Tables
no_tables = record {
  users = [];
  sessions = [];
  throttles = [];
  audit_events = [];
  projects = [];
  members = [];
  geofences = [];
  tasks = [];
  responsibilities = [];
  task_revisions = [];
  updates = [];
  attachments = [];
  revisions = [];
  comments = [];
  suggestions = [];
}

abbrev pub no_files : Files
no_files = record { staging = []; finals = [] }

abbrev pub sixteen : Text
sixteen = 1 ∷ 2 ∷ 3 ∷ 4 ∷ 5 ∷ 6 ∷ 7 ∷ 8 ∷ 1 ∷ 2 ∷ 3 ∷ 4 ∷ 5 ∷ 6 ∷ 7 ∷ 8 ∷ []

abbrev pub calm : Env
calm = record {
  fails = λ _. false;
  clock = λ n. 1000 + n;
  ids = λ n. 100 + n;
  bytes = λ _. sixteen;
}

abbrev pub new_world : World
new_world = record { env = calm; calls = 0; files = no_files; tables = no_tables }

abbrev pub context : AuditContext
context = record { request_id = []; client_ip = codes "127.0.0.1"; user_agent = [] }

abbrev pub event : AuditEvent
event = record {
  actor_user_id = no_id;
  action = "test";
  target_type = "user";
  target_id = no_id;
  outcome = succeeded;
  context = context;
  details = [];
}

abbrev pub ada : NewUser
ada = record {
  username = codes "ada";
  email = codes "ada@x.org";
  password_hash = codes "$";
  role = admin;
  created_by = no_id;
  must_change_password = false;
}

abbrev pub bob : NewUser
bob = record {
  username = codes "bob";
  email = codes "bob@x.org";
  password_hash = codes "$";
  role = member;
  created_by = 103;
  must_change_password = false;
}

abbrev pub ada_user : User
ada_user = to_user (new_row 103 1003 ada)

ada_boots : (run (bootstrap_admin ada event) new_world).0 ≡ ok ada_user
unfolding bootstrap_admin insert_user transaction finish commit attempt query gets exec modify
    raise_if now fresh_id insert_audit ◌>>=◌ ◌>>◌
ada_boots = refl

bootstrap_admin-IsSound_always_example :
    (true ≡ true)
    × IsSound
        (perform_all
          (create bob event ∷ change_access 103 member true 1 event ∷ [])
          (run (bootstrap_admin ada event) new_world).1).tables
bootstrap_admin-IsSound_always_example =
    bootstrap_admin-IsSound_always ada event
      (create bob event ∷ change_access 103 member true 1 event ∷ []) new_world refl ada_boots

abbrev pub booted : World
booted = (run (bootstrap_admin ada event) new_world).1

booted-IsSound : IsSound booted.tables
unfolding perform_all
booted-IsSound = (bootstrap_admin-IsSound_always ada event [] new_world refl ada_boots).1

perform-IsSound_example :
    IsSound (run (perform (change_access 103 member true 1 event)) booted).1.tables
perform-IsSound_example =
    perform-IsSound (change_access 103 member true 1 event) booted booted-IsSound

-- The last administrator is not demoted.
last_admin_stays : (run (perform (change_access 103 member true 1 event)) booted).0 ≡ err last_admin
unfolding update_user revoke_sessions enabled_admins or_raise bootstrap_admin insert_user
    transaction finish commit attempt query gets exec modify raise_if now fresh_id insert_audit
    ◌>>=◌ ◌>>◌
last_admin_stays = refl

tables-perform_err_example :
    (run (perform (change_access 103 member true 1 event)) booted).1.tables ≡ booted.tables
tables-perform_err_example =
    tables-perform_err (change_access 103 member true 1 event) booted last_admin_stays

bob_joins : (run (perform (create bob event)) booted).0 ≡ ok tt
unfolding create_user bootstrap_admin insert_user transaction finish commit attempt query gets exec
    modify raise_if now fresh_id insert_audit ◌>>=◌ ◌>>◌
bob_joins = refl

perform-IsLogged_example :
    IsLogged event booted.tables.audit_events
      (run (perform (create bob event)) booted).1.tables.audit_events
perform-IsLogged_example = perform-IsLogged (create bob event) booted bob_joins

abbrev ada_again : User
ada_again = record ada_user { updated_at = 1009; version = 2 }

ada_changes : (run (update_user 103 admin true 1 event) booted).0 ≡ ok ada_again
unfolding update_user revoke_sessions enabled_admins or_raise bootstrap_admin insert_user
    transaction finish commit attempt query gets exec modify raise_if now fresh_id insert_audit
    ◌>>=◌ ◌>>◌
ada_changes = refl

update_user-changed_example :
    AccessChanged 103 admin true 1 event booted.tables ada_again
      (run (update_user 103 admin true 1 event) booted).1.tables
update_user-changed_example = update_user-changed 103 admin true 1 event booted ada_changes

-- The administrator has a session, and a member whose password is reset has none.
abbrev in_use : World
in_use = perform_all (open_session 103 (codes "t") 5000 [] [] event ∷ create bob event ∷ []) booted

abbrev ada_session : Session
ada_session = record { id = 107; user = ada_user; expires_at = 5000 }

bob_id : (run (perform (reset 113 (codes "$") event)) in_use).0 ≡ ok tt
unfolding perform_all reset_password create_login_session create_user update_user revoke_sessions
    enabled_admins or_raise bootstrap_admin insert_user transaction finish commit attempt query gets
    exec modify raise_if now fresh_id insert_audit ◌>>=◌ ◌>>◌
bob_id = refl

ada_found :
    find_session (codes "t") 2000 (run (perform (reset 113 (codes "$") event)) in_use).1.tables
    ≡ some ada_session
unfolding find_session perform_all reset_password create_login_session create_user update_user
    revoke_sessions enabled_admins or_raise bootstrap_admin insert_user transaction finish commit
    attempt query gets exec modify raise_if now fresh_id insert_audit ◌>>=◌ ◌>>◌
ada_found = refl

find_session-perform_example : (103 == 113) ≡ false
find_session-perform_example =
    find_session-perform (reset 113 (codes "$") event) in_use (codes "t") 2000 refl bob_id ada_found

find_session-IsUsable_example :
    IsUsable
      (codes "t")
      2000
      (run (perform (reset 113 (codes "$") event)) in_use).1.tables
      ada_session
find_session-IsUsable_example = find_session-IsUsable (codes "t") 2000 _ ada_found

abbrev fresh_row : ThrottleRow
fresh_row = record {
  identifier_hash = [];
  client_ip = [];
  window_started_at = 10;
  failure_count = 0;
  blocked_until = none;
}

is_row_blocked-count_failures_example :
    ((count_failures 900 5 900 (14 ∷ 13 ∷ 12 ∷ 11 ∷ 10 ∷ []) fresh_row).failure_count ≡ 5)
    × (is_row_blocked (some (count_failures 900 5 900 (14 ∷ 13 ∷ 12 ∷ 11 ∷ 10 ∷ []) fresh_row)) 913
        ≡ true)
is_row_blocked-count_failures_example =
    is_row_blocked-count_failures 900 5 900 fresh_row 14 (13 ∷ 12 ∷ 11 ∷ 10 ∷ []) 913 refl
      (omega arith, (omega arith, (omega arith, (omega arith, (omega arith, tt))))) (omega arith)
      (omega arith)

is_row_blocked-few_example :
    is_row_blocked (some (count_failures 900 5 900 (12 ∷ 11 ∷ []) fresh_row)) 13 ≡ false
is_row_blocked-few_example =
    is_row_blocked-few 900 5 900 fresh_row (12 ∷ 11 ∷ []) 13 refl refl
      (omega arith, (omega arith, tt)) (omega arith)

validate_password_iff_example : (validate_password (codes "correct horse") ≡ ok tt) ↔ (
    (valid_string (codes "correct horse") ≡ true)
    × (12 ≤ rune_count (codes "correct horse"))
    × (byte_len (codes "correct horse") ≤ 128))
validate_password_iff_example = validate_password_iff (codes "correct horse")

truncate-fits_example :
    ((byte_len (codes "aé") ≤ 2) × (truncate (codes "aé") 2 ≡ codes "aé"))
    ⊎ ((2 < byte_len (codes "aé"))
        × (valid_string (truncate (codes "aé") 2) ≡ true)
        × (byte_len (truncate (codes "aé") 2) ≤ 2)
        × ((c : ℕ) × (rest : Text) × (codes "aé" ≡ truncate (codes "aé") 2 ++ c ∷ rest)
            × ((2 < byte_len (truncate (codes "aé") 2) + rune_len c) ⊎ (bad_byte ≤ c))))
truncate-fits_example = truncate-fits (codes "aé") 2

guess_recorded :
    (run (record_login_failure (codes "d") (codes "ip") 50 900 5 900 event) new_world).0 ≡ ok tt
unfolding record_login_failure ensure_throttle count_failure transaction finish commit attempt query
    gets exec modify or_raise now fresh_id insert_audit ◌>>=◌ ◌>>◌
guess_recorded = refl

record_login_failure_counts_example :
    find
      (is_throttle (codes "d") (codes "ip"))
      (run
        (record_login_failure (codes "d") (codes "ip") 50 900 5 900 event)
        new_world).1.tables.throttles
    ≡ some (
        count_failure 50 900 5 900 (
          row_or_new
            (codes "d")
            (codes "ip")
            50
            (find (is_throttle (codes "d") (codes "ip")) new_world.tables.throttles)))
record_login_failure_counts_example =
    record_login_failure_counts (codes "d") (codes "ip") 50 900 5 900 event new_world guess_recorded
