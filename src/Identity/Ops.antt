-- ===== src/Identity/Ops.antt =====
-- The transitions of the identity repository as one type, and what each has done to the tables when
-- it returns.
use project_progress_registe.Base.{
  ℕ, ◌≡◌, ap, ◌∙◌, Bool, true, false, none, some, [], ◌∷◌, ◌++◌, arith, ◌⊎◌, inl, inr, find, any,
  update, is_empty,
}
use project_progress_registe.Text.{Text}
use project_progress_registe.Schema.{
  Uuid, Instant, Role, AuditEvent, AuditRow, UserRow, SessionRow, ThrottleRow, Tables,
}
use project_progress_registe.Db.{Db, pure, conflict, database, append_audit_row, Error, ◌>>=◌}
use project_progress_registe.Db.Steps.{
  Yields, pure-Yields, transaction-Yields, bind-Yields, attempt->>, query->>=, exec->>, modify->>,
  gets->>=, raise_if->>, or_raise->>=, now->>=, fresh_id->>=, insert_audit->>, insert_audit-Yields,
  branch-Yields,
}
use project_progress_registe.Identity.Types.{User, to_user, NewUser}
use project_progress_registe.Identity.Throttle.{
  is_throttle, ensure_throttle, count_failure, write_throttle, clear_throttle, record_login_failure,
}
use project_progress_registe.Identity.Sessions.{
  has_id, is_enabled_user, is_open_token, has_token, revoke, revoke_sessions, add_session,
  set_last_login, create_login_session, revoke_session,
}
use project_progress_registe.Identity.Accounts.{
  insert_user, clashes, new_row, bootstrap_input, bootstrap_admin, create_user, update_user,
  reset_password, change_password, set_password, with_actor, with_target,
}

pub data Op : Type 0 where
  bootstrap create : NewUser → AuditEvent → Op
  change_access : Uuid → Role → Bool → ℕ → AuditEvent → Op
  reset change : Uuid → Text → AuditEvent → Op
  fail_login : Text → Text → Instant → ℕ → ℕ → ℕ → AuditEvent → Op
  open_session : Uuid → Text → Instant → Text → Text → AuditEvent → Op
  close_session : Text → AuditEvent → Op

abbrev pub discard : {A : Type 0} → Db A → Db (Unit {0})
discard m = m >>= λ _. pure tt

abbrev pub perform : Op → Db (Unit {0})
perform (bootstrap input event) = discard (bootstrap_admin input event)
perform (create input event) = discard (create_user input event)
perform (change_access target role enabled expected event) =
    discard (update_user target role enabled expected event)
perform (reset target hash event) = discard (reset_password target hash event)
perform (change user hash event) = change_password user hash event
perform (fail_login digest ip now window maximum block event) =
    record_login_failure digest ip now window maximum block event
perform (open_session user hash expires digest ip event) =
    create_login_session user hash expires digest ip event
perform (close_session hash event) = revoke_session hash event

-- Each transition that has returned: what it found, and the tables that it left.
abbrev pub with_user : Uuid → Instant → NewUser → Tables → Tables
with_user id at input t = record t { users = t.users ++ new_row id at input ∷ [] }

pub insert_user-Yields :
    (clash : Error) (input : NewUser) {t t' : Tables} {u : User}
    → Yields (insert_user clash input) t u t'
    → (id : Uuid) × (at : Instant) × (any (clashes id input) t.users ≡ false)
      × (u ≡ to_user (new_row id at input))
      × (t' ≡ with_user id at input t)
unfolding insert_user
insert_user-Yields clash input y = fresh_id->>= _ y λ id y₁. now->>= _ y₁ λ at y₂.
    attempt->> _ _ y₂ λ y₃. gets->>= _ _ y₃ λ y₄. raise_if->> _ _ _ y₄ λ free y₅.
      modify->> _ _ y₅
        λ y₆. let (returned, tables) = pure-Yields _ y₆ in (id, at, free, returned, tables)

pub bootstrap_admin-Yields :
    (input : NewUser) (event : AuditEvent) {t t' : Tables} {u : User}
    → Yields (bootstrap_admin input event) t u t'
    → (id : Uuid) × (at : Instant) × (row : AuditRow) × (is_empty t.users ≡ true)
      × (any (clashes id (bootstrap_input input)) t.users ≡ false)
      × (u ≡ to_user (new_row id at (bootstrap_input input)))
      × (row.event ≡ with_target id (with_actor id event))
      × (t' ≡ append_audit_row row (with_user id at (bootstrap_input input) t))
unfolding bootstrap_admin
bootstrap_admin-Yields input event y = attempt->> _ _ (transaction-Yields _ y) λ y₁.
    query->>= _ _ y₁ λ y₂. raise_if->> _ _ _ y₂ λ empty y₃.
      bind-Yields _ _ y₃ λ user t₁ inserted y₄. insert_audit->> _ _ y₄ λ row audited y₅.
        let (id, at, free, made, users) =
          insert_user-Yields database (bootstrap_input input) inserted in
        let (returned, tables) = pure-Yields _ y₅ in
        (
          id,
          at,
          row,
          ground (arith, empty),
          free,
          returned ∙ made,
          audited ∙ ap (λ (v : User). with_target v.id (with_actor v.id event)) made,
          tables ∙ ap (append_audit_row row) users,
        )

pub create_user-Yields :
    (input : NewUser) (event : AuditEvent) {t t' : Tables} {u : User}
    → Yields (create_user input event) t u t'
    → (id : Uuid) × (at : Instant) × (row : AuditRow) × (any (clashes id input) t.users ≡ false)
      × (u ≡ to_user (new_row id at input))
      × (row.event ≡ with_target id event)
      × (t' ≡ append_audit_row row (with_user id at input t))
unfolding create_user
create_user-Yields input event y = bind-Yields _ _ (transaction-Yields _ y) λ user t₁ inserted y₁.
    insert_audit->> _ _ y₁ λ row audited y₂.
      let (id, at, free, made, users) = insert_user-Yields conflict input inserted in
      let (returned, tables) = pure-Yields _ y₂ in
      (
        id,
        at,
        row,
        free,
        returned ∙ made,
        audited ∙ ap (λ (v : User). with_target v.id event) made,
        tables ∙ ap (append_audit_row row) users,
      )

abbrev pub with_password :
    (UserRow → Bool) → Uuid → Text → Bool → Instant → Instant → AuditRow → Tables → Tables
with_password p user hash must_change at revoked row t = append_audit_row row (
    revoke_sessions user revoked
      (record t { users = update p (set_password hash must_change at) t.users }))

pub reset_password-Yields :
    (target : Uuid) (hash : Text) (event : AuditEvent) {t t' : Tables} {u : User}
    → Yields (reset_password target hash event) t u t'
    → (current : UserRow) × (at : Instant) × (revoked : Instant) × (row : AuditRow) × (find
          (has_id target)
          t.users
        ≡ some current)
      × (u ≡ to_user (set_password hash true at current))
      × (row.event ≡ event)
      × (t' ≡ with_password (has_id target) target hash true at revoked row t)
unfolding reset_password
reset_password-Yields target hash event y = now->>= _ (transaction-Yields _ y) λ at y₁.
    attempt->> _ _ y₁ λ y₂. gets->>= _ _ y₂ λ y₃. or_raise->>= _ _ _ y₃ λ current found y₄.
      modify->> _ _ y₄ λ y₅. now->>= _ y₅ λ revoked y₆. exec->> _ _ y₆ λ y₇.
        insert_audit->> _ _ y₇ λ row audited y₈.
          let (returned, tables) = pure-Yields _ y₈ in
          (current, at, revoked, row, found, returned, audited, tables)

pub change_password-Yields :
    (user : Uuid) (hash : Text) (event : AuditEvent) {t t' : Tables}
    → Yields (change_password user hash event) t tt t'
    → (at : Instant) × (revoked : Instant) × (row : AuditRow) × (any (is_enabled_user user) t.users
        ≡ true)
      × (row.event ≡ event)
      × (t' ≡ with_password (is_enabled_user user) user hash false at revoked row t)
unfolding change_password
change_password-Yields user hash event y = now->>= _ (transaction-Yields _ y) λ at y₁.
    attempt->> _ _ y₁ λ y₂. gets->>= _ _ y₂ λ y₃. modify->> _ _ y₃ λ y₄.
      raise_if->> _ _ _ y₄ λ affected y₅. now->>= _ y₅ λ revoked y₆. exec->> _ _ y₆ λ y₇.
        let (row, audited, tables) = insert_audit-Yields event y₇ in
        (at, revoked, row, ground (arith, affected), audited, tables)

pub record_login_failure-Yields :
    (digest ip : Text) (now : Instant) (window maximum block : ℕ) (event : AuditEvent)
    {t t' : Tables}
    → Yields (record_login_failure digest ip now window maximum block event) t tt t'
    → (old : ThrottleRow) × (row : AuditRow) × (find
          (is_throttle digest ip)
          (ensure_throttle digest ip now t).throttles
        ≡ some old)
      × (row.event ≡ event)
      × (t'
          ≡ append_audit_row row (
              write_throttle digest ip
                (count_failure now window maximum block old)
                (ensure_throttle digest ip now t)))
unfolding record_login_failure
record_login_failure-Yields digest ip now window maximum block event y =
    exec->> _ _ (transaction-Yields _ y) λ y₁. query->>= _ _ y₁ λ y₂.
      or_raise->>= _ _ _ y₂ λ old found y₃. exec->> _ _ y₃ λ y₄.
        let (row, audited, tables) = insert_audit-Yields event y₄ in
        (old, row, found, audited, tables)

abbrev pub new_session : Uuid → Uuid → Text → Instant → Text → Text → SessionRow
new_session id user hash expires ip agent = record {
  id = id;
  user_id = user;
  token_hash = hash;
  expires_at = expires;
  revoked_at = none;
  created_ip = ip;
  user_agent = agent;
}

pub create_login_session-Yields :
    (user : Uuid) (hash : Text) (expires : Instant) (digest ip : Text) (event : AuditEvent)
    {t t' : Tables}
    → Yields (create_login_session user hash expires digest ip event) t tt t'
    → (id : Uuid) × (at : Instant) × (row : AuditRow) × (any (has_token hash) t.sessions ≡ false)
      × (row.event ≡ event)
      × (t'
          ≡ append_audit_row row (
              clear_throttle digest ip (
                set_last_login user at
                  (add_session (new_session id user hash expires ip event.context.user_agent) t))))
unfolding create_login_session
create_login_session-Yields user hash expires digest ip event y =
    fresh_id->>= _ (transaction-Yields _ y) λ id y₁. attempt->> _ _ y₁ λ y₂. gets->>= _ _ y₂ λ y₃.
      raise_if->> _ _ _ y₃ λ free y₄. modify->> _ _ y₄ λ y₅. now->>= _ y₅ λ at y₆.
        exec->> _ _ y₆ λ y₇. exec->> _ _ y₇ λ y₈.
          let (row, audited, tables) = insert_audit-Yields event y₈ in
          (id, at, row, free, audited, tables)

abbrev pub close_token : Text → Instant → Tables → Tables
close_token hash at t = record t { sessions = update (is_open_token hash) (revoke at) t.sessions }

pub revoke_session-Yields :
    (hash : Text) (event : AuditEvent) {t t' : Tables}
    → Yields (revoke_session hash event) t tt t'
    → (at : Instant) × (((any (is_open_token hash) t.sessions ≡ true)
          × (row : AuditRow) × (row.event ≡ event)
          × (t' ≡ append_audit_row row (close_token hash at t)))
        ⊎ ((any (is_open_token hash) t.sessions ≡ false) × (t' ≡ close_token hash at t)))
unfolding revoke_session
revoke_session-Yields hash event {t} {t'} y = now->>= _ (transaction-Yields _ y) λ at y₁.
    attempt->> _ _ y₁ λ y₂. gets->>= _ _ y₂ λ y₃. modify->> _ _ y₃ λ y₄.
      branch-Yields _ _ _ y₄
        (λ found y₅.
          let (row, audited, tables) = insert_audit-Yields event y₅ in
          (at, inl (found, row, audited, tables)))
        (λ closed y₅. (at, inr (closed, (pure-Yields _ y₅).1)))
