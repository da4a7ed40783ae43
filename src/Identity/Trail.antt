-- ===== src/Identity/Trail.antt =====
-- The audit trail of the identity transitions.
use project_progress_registe.Base.{
  ℕ, ◌≡◌, inl, inr, refl, sym, ap, ◌∙◌, Bool, true, List, [], ◌∷◌, ◌++◌, arith, any, if◌then◌else◌,
}
use mathlib.Core.Path.{subst}
use project_progress_registe.Schema.{AuditEvent, AuditRow, Tables}
use project_progress_registe.Db.{ok, World, run, append_audit_row}
use project_progress_registe.Db.Steps.{Yields, run-Yields, bind-Yields, pure-Yields}
use project_progress_registe.Identity.Sessions.{is_open_token, revoke_sessions}
use project_progress_registe.Identity.Throttle.{ensure_throttle}
use project_progress_registe.Identity.Changes.{update_user-Updated}
use project_progress_registe.Identity.Ops.{
  Op, bootstrap, create, change_access, reset, change, fail_login, open_session, close_session,
  perform, bootstrap_admin-Yields, create_user-Yields, reset_password-Yields,
  change_password-Yields, record_login_failure-Yields, create_login_session-Yields,
  revoke_session-Yields,
}

-- The event that the transition was given.
abbrev pub event_of_op : Op → AuditEvent
event_of_op (bootstrap input event) = event
event_of_op (create input event) = event
event_of_op (change_access target role enabled expected event) = event
event_of_op (reset target hash event) = event
event_of_op (change user hash event) = event
event_of_op (fail_login digest ip now window maximum block event) = event
event_of_op (open_session user hash expires digest ip event) = event
event_of_op (close_session hash event) = event

-- Only the closing of a session that is not open is silent.
abbrev pub is_audited : Op → Tables → Bool
is_audited (close_session hash event) t = any (is_open_token hash) t.sessions
is_audited _ t = true

abbrev pub IsLogged : AuditEvent → List AuditRow → List AuditRow → Type 0
IsLogged event rows rows' =
    (row : AuditRow) × (row.event.action ≡ event.action)
    × (row.event.outcome ≡ event.outcome)
    × (row.event.context ≡ event.context)
    × (rows' ≡ rows ++ row ∷ [])

-- The last statement of a transition wrote the row.
logged :
    (t t' : Tables) (event e : AuditEvent) {x : Tables} (row : AuditRow)
    → (e.action ≡ event.action) × (e.outcome ≡ event.outcome) × (e.context ≡ event.context)
    → x.audit_events ≡ t.audit_events
    → row.event ≡ e
    → t' ≡ append_audit_row row x
    → IsLogged event t.audit_events t'.audit_events
logged t t' event e row (action, outcome, context) same written tables = (
  row,
  ap (λ (v : AuditEvent). v.action) written ∙ action,
  ap (λ (v : AuditEvent). v.outcome) written ∙ outcome,
  ap (λ (v : AuditEvent). v.context) written ∙ context,
  ap (λ (v : Tables). v.audit_events) tables ∙ ap (λ rows. rows ++ row ∷ []) same,
)

audit-revoke_sessions :
    (user : ℕ) (at : ℕ) (t : Tables) → (revoke_sessions user at t).audit_events ≡ t.audit_events
unfolding revoke_sessions
audit-revoke_sessions user at t = refl

audit-ensure :
    (digest ip : List ℕ) (at : ℕ) (t : Tables)
    → (ensure_throttle digest ip at t).audit_events ≡ t.audit_events
unfolding ensure_throttle
audit-ensure digest ip at t = ground arith

abbrev IsKept : Op → Tables → Tables → Type 0
IsKept op t t' =
    if is_audited op t
    then IsLogged (event_of_op op) t.audit_events t'.audit_events
    else (t'.audit_events ≡ t.audit_events)

perform-IsKept : (op : Op) (t t' : Tables) → Yields (perform op) t tt t' → IsKept op t t'
perform-IsKept (bootstrap input event) t t' y = bind-Yields _ _ y λ u t₁ done rest.
    let (id, at, row, empty, free, made, audited, tables) =
      bootstrap_admin-Yields input event done in
    logged t t' event _ row (refl, refl, refl) refl audited ((pure-Yields _ rest).1 ∙ tables)
perform-IsKept (create input event) t t' y = bind-Yields _ _ y λ u t₁ done rest.
    let (id, at, row, free, made, audited, tables) = create_user-Yields input event done in
    logged t t' event _ row (refl, refl, refl) refl audited ((pure-Yields _ rest).1 ∙ tables)
perform-IsKept (change_access target role enabled expected event) t t' y =
    bind-Yields _ _ y λ u t₁ done rest.
      let d = update_user-Updated target role enabled expected event done in
      logged t t' event _ d.row (refl, refl, refl) (audit-revoke_sessions target d.revoked _)
        d.audited ((pure-Yields _ rest).1 ∙ d.tables)
perform-IsKept (reset target hash event) t t' y = bind-Yields _ _ y λ u t₁ done rest.
    let (current, at, revoked, row, found, returned, audited, tables) =
      reset_password-Yields target hash event done in
    logged t t' event _ row (refl, refl, refl) (audit-revoke_sessions target revoked _) audited
      ((pure-Yields _ rest).1 ∙ tables)
perform-IsKept (change user hash event) t t' y =
    let (at, revoked, row, found, audited, tables) = change_password-Yields user hash event y in
    logged t t' event _ row (refl, refl, refl) (audit-revoke_sessions user revoked _) audited tables
perform-IsKept (fail_login digest ip now window maximum block event) t t' y =
    let (old, row, found, audited, tables) =
      record_login_failure-Yields digest ip now window maximum block event y in
    logged t t' event _ row (refl, refl, refl) (audit-ensure digest ip now t) audited tables
perform-IsKept (open_session user hash expires digest ip event) t t' y =
    let (id, at, row, free, audited, tables) =
      create_login_session-Yields user hash expires digest ip event y in
    logged t t' event _ row (refl, refl, refl) refl audited tables
perform-IsKept (close_session hash event) t t' y = elim (revoke_session-Yields hash event y).1 [
  | inl (found, row, audited, tables) ↦
      subst
        (λ b.
          if b
          then IsLogged event t.audit_events t'.audit_events
          else (t'.audit_events ≡ t.audit_events))
        (sym found) (logged t t' event _ row (refl, refl, refl) refl audited tables)
  | inr (closed, tables) ↦
      subst
        (λ b.
          if b
          then IsLogged event t.audit_events t'.audit_events
          else (t'.audit_events ≡ t.audit_events))
        (sym closed) (ap (λ (v : Tables). v.audit_events) tables)
]

-- A transition that returns appends one row to the audit trail, with the action, the outcome and the
-- request context that it was given, and changes no earlier row; closing a session that is not open
-- writes none.
pub perform-IsLogged :
    (op : Op) (w : World)
    → (run (perform op) w).0 ≡ ok tt
    → if is_audited op w.tables
      then IsLogged
          (event_of_op op)
          w.tables.audit_events
          (run (perform op) w).1.tables.audit_events
      else ((run (perform op) w).1.tables.audit_events ≡ w.tables.audit_events)
perform-IsLogged op w h = perform-IsKept op w.tables _ (run-Yields (perform op) w h)
