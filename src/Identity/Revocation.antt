-- ===== src/Identity/Revocation.antt =====
-- The sessions that can be used: what `LookupSession` accepts, and that a change of an account's
-- access or password ends its sessions.
use project_progress_registe.Base.{
  ◌≡◌, ◌<◌, sym, ◌∙◌, Bool, true, false, Option, none, some, List, [], ◌∷◌, arith, ◌==◌, ltb→lt,
  Option-cases, inl, inr, find, update, All,
}
use mathlib.Core.Path.{subst}
use project_progress_registe.Text.{Text}
use project_progress_registe.Text.Laws.{text_eq_iff}
use project_progress_registe.Schema.{Uuid, Instant, AuditRow, UserRow, SessionRow, Tables}
use project_progress_registe.Db.{ok, World, run, append_audit_row}
use project_progress_registe.Db.Steps.{Yields, run-Yields, bind-Yields, pure-Yields}
use project_progress_registe.Identity.Types.{Session, to_user}
use project_progress_registe.Identity.Sessions.{
  is_none, is_enabled_user, is_open_of, is_current, revoke, revoke_sessions, find_session,
}
use project_progress_registe.Identity.Changes.{update_user-Updated}
use project_progress_registe.Identity.Ops.{
  Op, bootstrap, create, change_access, reset, change, fail_login, open_session, close_session,
  perform, reset_password-Yields, change_password-Yields,
}

-- No session of the account is open.
abbrev pub HasNoSession : Uuid → Tables → Type 0
HasNoSession user t = All (λ s. is_open_of user s ≡ false) t.sessions

All-revoked :
    (user : Uuid) (at : Instant) (ss : List SessionRow)
    → All (λ s. is_open_of user s ≡ false) (update (is_open_of user) (revoke at) ss)
All-revoked user at [] = tt
All-revoked user at (s ∷ ss) = (ground arith, All-revoked user at ss)

revoke_sessions-HasNoSession :
    (user : Uuid) (at : Instant) (t : Tables) → HasNoSession user (revoke_sessions user at t)
unfolding revoke_sessions
revoke_sessions-HasNoSession user at t = All-revoked user at t.sessions

pub find-test : {A : Type 0} (p : A → Bool) (xs : List A) {x : A} → find p xs ≡ some x → p x ≡ true
find-test p [] h = cc
find-test p (y ∷ xs) {x} h = ground (arith, find-test p xs {x = x})

find-All :
    {A : Type 0} (p q : A → Bool) (xs : List A) {x : A}
    → All (λ y. q y ≡ false) xs
    → find p xs ≡ some x
    → q x ≡ false
find-All p q [] a h = cc
find-All p q (y ∷ xs) {x} (a, rest) h = ground (arith, find-All p q xs {x = x} rest)

-- The row and the account behind a session that was found.
pub record IsUsable (hash : Text) (at : Instant) (t : Tables) (s : Session) : Type 0 where
  pub row : SessionRow
  pub account : UserRow
  pub stored : find (is_current hash at t) t.sessions ≡ some row
  pub token : row.token_hash ≡ hash
  pub unrevoked : is_none row.revoked_at ≡ true
  pub unexpired : at < row.expires_at
  pub enabled : account.enabled ≡ true
  pub owner : account.id ≡ row.user_id
  pub known : find (is_enabled_user row.user_id) t.users ≡ some account
  pub session : s ≡ record { id = row.id; user = to_user account; expires_at = row.expires_at }

usable :
    (hash : Text) (at : Instant) (t : Tables) (s : Session) (row : SessionRow) (u : UserRow)
    → find (is_current hash at t) t.sessions ≡ some row
    → find (is_enabled_user row.user_id) t.users ≡ some u
    → s ≡ record { id = row.id; user = to_user u; expires_at = row.expires_at }
    → IsUsable hash at t s
usable hash at t s row u stored known session =
    let current : is_current hash at t row ≡ true = find-test _ t.sessions stored in
    let owns : is_enabled_user row.user_id u ≡ true = find-test _ t.users known in
    record {
      row = row;
      account = u;
      stored = stored;
      token = (text_eq_iff row.token_hash hash).0 (ground (arith, current));
      unrevoked = ground (arith, current);
      unexpired = ltb→lt at row.expires_at (ground (arith, current));
      enabled = ground (arith, owns);
      owner = ground (arith, owns);
      known = known;
      session = session;
    }

-- A session that a token's digest finds at a time is stored under that digest, unrevoked and
-- unexpired then, and its user is an enabled account.
pub find_session-IsUsable :
    (hash : Text) (at : Instant) (t : Tables) {s : Session}
    → find_session hash at t ≡ some s
    → IsUsable hash at t s
unfolding find_session
find_session-IsUsable hash at t {s} h =
    elim (Option-cases (find (is_current hash at t) t.sessions)) [
      | inl e ↦ ground (arith, h, e)
      | inr (row, e) ↦ elim (Option-cases (find (is_enabled_user row.user_id) t.users)) [
        | inl e' ↦ ground (arith, h, e, e')
        | inr (u, e') ↦ usable hash at t s row u e e' (ground (arith, h, e, e'))
      ]
    ]

-- The account whose sessions the transition ends.
abbrev pub ended_account : Op → Option Uuid
ended_account (change_access target role enabled expected event) = some target
ended_account (reset target hash event) = some target
ended_account (change user hash event) = some user
ended_account _ = none

closed :
    {user target : Uuid} (at : Instant) (x t' : Tables) (row : AuditRow)
    → some target ≡ some user
    → t' ≡ append_audit_row row (revoke_sessions target at x)
    → HasNoSession user t'
closed {user} {target} at x t' row e tables =
    subst (λ id. HasNoSession id t') (ground (arith, e))
      (subst (λ (v : Tables). HasNoSession target v) (sym tables)
        (revoke_sessions-HasNoSession target at x))

perform-HasNoSession :
    (op : Op) (t t' : Tables) {user : Uuid}
    → ended_account op ≡ some user
    → Yields (perform op) t tt t'
    → HasNoSession user t'
perform-HasNoSession (bootstrap input event) t t' e y = ground arith
perform-HasNoSession (create input event) t t' e y = ground arith
perform-HasNoSession (change_access target role enabled expected event) t t' e y =
    bind-Yields _ _ y λ u t₁ done rest.
      let d = update_user-Updated target role enabled expected event done in
      closed d.revoked _ t' d.row e ((pure-Yields _ rest).1 ∙ d.tables)
perform-HasNoSession (reset target hash event) t t' e y = bind-Yields _ _ y λ u t₁ done rest.
    let (current, at, revoked, row, found, returned, audited, tables) =
      reset_password-Yields target hash event done in
    closed revoked _ t' row e ((pure-Yields _ rest).1 ∙ tables)
perform-HasNoSession (change user hash event) t t' e y =
    let (at, revoked, row, found, audited, tables) = change_password-Yields user hash event y in
    closed revoked _ t' row e tables
perform-HasNoSession (fail_login digest ip now window maximum block event) t t' e y = ground arith
perform-HasNoSession (open_session user hash expires digest ip event) t t' e y = ground arith
perform-HasNoSession (close_session hash event) t t' e y = ground arith

current_open :
    (hash : Text) (at : Instant) (t : Tables) (user : Uuid) (row : SessionRow)
    → is_current hash at t row ≡ true
    → is_open_of user row ≡ false
    → (row.user_id == user) ≡ false
current_open hash at t user row c o = ground (arith, c, o)

-- Once an account's access was changed, or its password reset or changed, no token finds a session of
-- that account, at any time.
pub find_session-perform :
    (op : Op) (w : World) {user : Uuid} (hash : Text) (at : Instant) {s : Session}
    → ended_account op ≡ some user
    → (run (perform op) w).0 ≡ ok tt
    → find_session hash at (run (perform op) w).1.tables ≡ some s
    → (s.user.id == user) ≡ false
find_session-perform op w {user} hash at e h found =
    let t' = (run (perform op) w).1.tables in
    let none_open = perform-HasNoSession op w.tables t' e (run-Yields (perform op) w h) in
    let u = find_session-IsUsable hash at t' found in
    let apart : (u.row.user_id == user) ≡ false =
      current_open hash at t' user u.row (find-test _ t'.sessions u.stored)
        (find-All _ _ t'.sessions none_open u.stored) in
    ground (arith, u.session, u.owner, apart)
