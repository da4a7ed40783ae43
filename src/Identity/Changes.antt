-- ===== src/Identity/Changes.antt =====
-- What each account transition has done when it returns: the row it found, and the new tables.
use project_progress_registe.Base.{
  ℕ, suc, ◌≡◌, refl, ap, ◌∙◌, inl, inr, Bool-cases, Bool, false, not, ◌&&◌, some, List, [], ◌∷◌,
  ◌++◌, arith, leb, ◌==◌, find, any, count, update,
}
use project_progress_registe.Schema.{
  Uuid, Instant, Role, AuditEvent, UserRow, Tables, AuditRow, a_role, flag,
}
use project_progress_registe.Db.{ok, World, run, append_audit_row}
use project_progress_registe.Db.Steps.{
  Yields, run-Yields, pure-Yields, transaction-Yields, query->>=, exec->>, raise_if->>,
  or_raise->>=, now->>=, insert_audit->>,
}
use project_progress_registe.Identity.Types.{User, to_user, is_admin}
use project_progress_registe.Identity.Sessions.{has_id, is_none, revoke_sessions}
use project_progress_registe.Identity.Accounts.{
  update_user, set_access, with_details, enabled_admins, removes_enabled_admin,
}

-- The tables after `update_user`.
abbrev pub updated_tables : Uuid → Role → Bool → Instant → Instant → AuditRow → Tables → Tables
updated_tables target role enabled at revoked row t = append_audit_row row (
    revoke_sessions target revoked
      (record t { users = update (has_id target) (set_access role enabled at) t.users }))

pub record Updated (target : Uuid) (role : Role) (enabled : Bool) (expected : ℕ)
    (event : AuditEvent) (t : Tables) (u : User) (t' : Tables) : Type 0 where
  pub current : UserRow
  pub at : Instant
  pub revoked : Instant
  pub row : AuditRow
  pub found : find (has_id target) t.users ≡ some current
  pub version : current.version ≡ expected
  pub allowed : (removes_enabled_admin current role enabled && leb (enabled_admins t) 1) ≡ false
  pub returned : u ≡ to_user (set_access role enabled at current)
  pub audited :
      row.event
      ≡ with_details
          (("previous_role", a_role current.role) ∷ ("previous_enabled", flag current.enabled) ∷ [])
          event
  pub tables : t' ≡ updated_tables target role enabled at revoked row t

pub update_user-Updated :
    (target : Uuid) (role : Role) (enabled : Bool) (expected : ℕ) (event : AuditEvent)
    {t t' : Tables} {u : User}
    → Yields (update_user target role enabled expected event) t u t'
    → Updated target role enabled expected event t u t'
unfolding update_user
update_user-Updated target role enabled expected event y =
    query->>= _ _ (transaction-Yields _ y) λ y₁. query->>= _ _ y₁ λ y₂.
      or_raise->>= _ _ _ y₂ λ current found y₃. raise_if->> _ _ _ y₃ λ versioned y₄.
        raise_if->> _ _ _ y₄ λ allowed y₅. now->>= _ y₅ λ at y₆. exec->> _ _ y₆ λ y₇.
          now->>= _ y₇ λ revoked y₈. exec->> _ _ y₈ λ y₉. insert_audit->> _ _ y₉ λ row audited y.
            let (returned, tables) = pure-Yields _ y in
            record {
              current = current;
              at = at;
              revoked = revoked;
              row = row;
              found = found;
              version = ground (arith, versioned);
              allowed = allowed;
              returned = returned;
              audited = audited;
              tables = tables;
            }

any-update :
    {A : Type 0} (p : A → Bool) (f : A → A) (xs : List A)
    → ((x : A) → p (f x) ≡ false)
    → any p (update p f xs) ≡ false
any-update p f [] h = refl
any-update p f (x ∷ xs) h = elim (Bool-cases (p x)) [
  | inl e ↦ rw e (rw (h x) (any-update p f xs h))
  | inr e ↦ rw e (rw e (any-update p f xs h))
]

-- What a change of access found and left.
pub record AccessChanged (target : Uuid) (role : Role) (enabled : Bool) (expected : ℕ)
    (event : AuditEvent) (t : Tables) (u : User) (t' : Tables) : Type 0 where
  pub current : UserRow
  pub at : Instant
  pub revoked : Instant
  pub row : AuditRow
  pub found : find (λ v. v.id == target) t.users ≡ some current
  pub version : current.version ≡ expected
  pub allowed :
      (is_admin current.role
        && current.enabled
        && not (is_admin role && enabled)
        && leb (count (λ v. is_admin v.role && v.enabled) t.users) 1)
      ≡ false
  pub returned : u ≡ record {
    id = target;
    username = current.username;
    email = current.email;
    role = role;
    enabled = enabled;
    must_change_password = current.must_change_password;
    created_at = current.created_at;
    updated_at = at;
    version = suc expected;
  }
  pub tables : t' ≡ record t {
    users =
        update
          (λ v. v.id == target)
          (λ v. record v {
            role = role;
            enabled = enabled;
            updated_at = at;
            version = suc v.version;
          })
          t.users;
    sessions =
        update
          (λ s. s.user_id == target && is_none s.revoked_at)
          (λ s. record s { revoked_at = some revoked })
          t.sessions;
    audit_events = t.audit_events ++ row ∷ [];
  }
  pub closed : any (λ s. s.user_id == target && is_none s.revoked_at) t'.sessions ≡ false
  pub audited : row.event ≡ record event {
    details =
        event.details
        ++ ("previous_role", a_role current.role) ∷ ("previous_enabled", flag current.enabled) ∷ [];
  }

find-id :
    (target : Uuid) (users : List UserRow) {current : UserRow}
    → find (has_id target) users ≡ some current
    → current.id ≡ target
find-id target [] h = absurd (cc h)
find-id target (u ∷ users) {current} h = ground (arith, h, find-id target users {current = current})

-- An account update that returns found the account at the expected version, did not take the last
-- enabled administrator away, changed the role, the standing, the change time and the version (by
-- one) of that account alone, ended its open sessions, of which none is left, changed no other table
-- but for one audit row, with the previous access, and returned the changed account.
pub update_user-changed :
    (target : Uuid) (role : Role) (enabled : Bool) (expected : ℕ) (event : AuditEvent) (w : World)
    {u : User}
    → (run (update_user target role enabled expected event) w).0 ≡ ok u
    → AccessChanged target role enabled expected event w.tables u
        (run (update_user target role enabled expected event) w).1.tables
unfolding revoke_sessions enabled_admins
update_user-changed target role enabled expected event w {u} h =
    let d =
      update_user-Updated target role enabled expected event
        (run-Yields (update_user target role enabled expected event) w h) in
    let same = find-id target w.tables.users d.found in
    record {
      current = d.current;
      at = d.at;
      revoked = d.revoked;
      row = d.row;
      found = d.found;
      version = d.version;
      allowed = ground (arith, d.allowed);
      returned = cc (d.returned, same, d.version);
      tables = d.tables;
      closed =
          ap (λ (v : Tables). any (λ s. s.user_id == target && is_none s.revoked_at) v.sessions)
            d.tables
          ∙ any-update (λ s. s.user_id == target && is_none s.revoked_at)
              (λ s. record s { revoked_at = some d.revoked }) w.tables.sessions (λ s. ground arith);
      audited = d.audited;
    }
