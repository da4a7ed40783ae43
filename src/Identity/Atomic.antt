-- ===== src/Identity/Atomic.antt =====
-- The identity transitions leave the tables alone when they report an error.
use project_progress_registe.Base.{◌≡◌, refl, sym}
use mathlib.Core.Path.{subst}
use project_progress_registe.Schema.{Tables}
use project_progress_registe.Db.{
  Error, Result, ok, err, World, Db, run, db, continue, pure, transaction, ◌>>=◌,
}
use project_progress_registe.Db.Laws.{transaction-err}
use project_progress_registe.Db.Steps.{Yields, run-Yields}
use project_progress_registe.Identity.Sessions.{create_login_session, revoke_session}
use project_progress_registe.Identity.Throttle.{record_login_failure}
use project_progress_registe.Identity.Accounts.{
  bootstrap_admin, create_user, update_user, reset_password, change_password,
}
use project_progress_registe.Identity.Ops.{
  Op, bootstrap, create, change_access, reset, change, fail_login, open_session, close_session,
  discard, perform,
}

-- The computation changes nothing when it ends in an error.
abbrev pub IsAtomic : {A : Type 0} → Db A → Type 0
IsAtomic m = (w : World) (e : Error) → (run m w).0 ≡ err e → (run m w).1.tables ≡ w.tables

pub transaction-IsAtomic : {A : Type 0} (m : Db A) → IsAtomic (transaction m)
transaction-IsAtomic m w e h = transaction-err m w h

-- What holds of the tables holds after a computation that changes nothing on an error and keeps it
-- when it returns.
pub IsAtomic_keeps {ℓ} :
    {A : Type 0} (m : Db A) (P : Tables → Type ℓ) (w : World)
    → IsAtomic m
    → ((a : A) (t' : Tables) → Yields m w.tables a t' → P w.tables → P t')
    → P w.tables
    → P (run m w).1.tables
IsAtomic_keeps {A} m P w atomic ends h =
    elim (run m w).0 as (λ r. (run m w).0 ≡ r → P (run m w).1.tables) [
      | ok a ↦ λ e. ends a _ (run-Yields m w e) h
      | err x ↦ λ e. subst P (sym (atomic w x e)) h
    ]
      refl

kept :
    {A : Type 0} {t : Tables} {e : Error} (r : Result A × World)
    → (continue (λ (_ : A). pure tt) r).0 ≡ err e
    → ((e' : Error) → r.0 ≡ err e' → r.1.tables ≡ t)
    → (continue (λ (_ : A). pure tt) r).1.tables ≡ t
kept (ok a, w) h atomic = cc
kept (err x, w) h atomic = atomic x refl

pub discard-IsAtomic : {A : Type 0} (m : Db A) → IsAtomic m → IsAtomic (discard m)
unfolding ◌>>=◌
discard-IsAtomic (db m) atomic w e h = kept (m w) h (atomic w)

perform-IsAtomic : (op : Op) → IsAtomic (perform op)
unfolding bootstrap_admin create_user update_user reset_password change_password
    record_login_failure create_login_session revoke_session
perform-IsAtomic (bootstrap input event) = discard-IsAtomic _ (transaction-IsAtomic _)
perform-IsAtomic (create input event) = discard-IsAtomic _ (transaction-IsAtomic _)
perform-IsAtomic (change_access target role enabled expected event) =
    discard-IsAtomic _ (transaction-IsAtomic _)
perform-IsAtomic (reset target hash event) = discard-IsAtomic _ (transaction-IsAtomic _)
perform-IsAtomic (change user hash event) = transaction-IsAtomic _
perform-IsAtomic (fail_login digest ip now window maximum block event) = transaction-IsAtomic _
perform-IsAtomic (open_session user hash expires digest ip event) = transaction-IsAtomic _
perform-IsAtomic (close_session hash event) = transaction-IsAtomic _

-- A transition of the repository that returns an error, a failed statement or a failed commit
-- included, leaves every table as it was.
pub tables-perform_err :
    (op : Op) (w : World) {e : Error}
    → (run (perform op) w).0 ≡ err e
    → (run (perform op) w).1.tables ≡ w.tables
tables-perform_err op w {e} h = perform-IsAtomic op w e h
