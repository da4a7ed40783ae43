-- ===== src/Db.antt =====
-- What the repositories and services run in: the tables, and an environment that answers the n-th
-- call. A call to PostgreSQL, to the random source or for a password slot may fail; the clock and
-- the generated identifiers and random bytes are the environment's too.
pub mod Laws
pub mod Runs
pub mod Steps
pub mod Unmoved
use project_progress_registe.Base.{
  ℕ, suc, Bool, true, false, Option, none, some, List, [], ◌∷◌, ◌++◌, String, if◌then◌else◌,
}
use project_progress_registe.Text.{Text}
use project_progress_registe.Schema.{Uuid, Instant, AuditEvent, AuditRow, Files, Tables}

-- The sentinel errors of the packages, a `ValidationError` by its field, and the failures of what
-- the program calls. `fmt.Errorf("…: %w", err)` keeps the error that it wraps.
pub data Error : Type 0 where
  unauthenticated invalid_credentials login_throttled bootstrap_unavailable : Error
  bootstrap_denied csrf_invalid not_found forbidden conflict last_admin : Error
  password_change_required invalid_member inactive_project invalid_responsible : Error
  task_v2_required policy_changed attachment_pending attachment_unavailable : Error
  validation : String → Error
  database random_source slot hash_format : Error
  file_too_large file_empty type_not_allowed file_missing file_system : Error

pub data Result (A : Type 0) : Type 0 where
  ok : A → Result A
  err : Error → Result A

pub record Env : Type 0 where
  pub fails : ℕ → Bool
  pub clock : ℕ → Instant
  pub ids : ℕ → Uuid
  pub bytes : ℕ → Text

pub record World : Type 0 where
  pub env : Env
  pub calls : ℕ
  pub files : Files
  pub tables : Tables

-- A computation: from a world, a result and the world that is left.
pub data Db (A : Type 0) : Type 0 where
  db : (World → Result A × World) → Db A

abbrev pub run : {A : Type 0} → Db A → World → Result A × World
run (db m) = m

module _ {A : Type 0} where
  abbrev pub pure : A → Db A
  pure a = db (λ w. (ok a, w))

  abbrev pub raise : Error → Db A
  raise e = db (λ w. (err e, w))

  abbrev pub lift : Result A → Db A
  lift r = db (λ w. (r, w))

abbrev pub continue : {A B : Type 0} → (A → Db B) → Result A × World → Result B × World
continue f (ok a, w) = run (f a) w
continue f (err e, w) = (err e, w)

-- These are shut, so that a proof takes a computation apart step by step.
infixl 5 ◌>>=◌ ◌>>◌
unfoldable pub ◌>>=◌ : {A B : Type 0} → Db A → (A → Db B) → Db B
m >>= f = db (λ w. continue f (run m w))

unfoldable pub ◌>>◌ : {A B : Type 0} → Db A → Db B → Db B
unfolding ◌>>=◌
m >> k = m >>= λ _. k

unfoldable pub raise_if : Bool → Error → Db (Unit {0})
raise_if c e = lift (if c then err e else ok tt)

unfoldable pub or_raise : {A : Type 0} → Option A → Error → Db A
or_raise none e = raise e
or_raise (some a) e = pure a

-- `if`, between two rests of a function.
unfoldable pub branch : {A : Type 0} → Bool → Db A → Db A → Db A
branch true m k = m
branch false m k = k

-- One call of something outside: it fails with the given error, or succeeds.
unfoldable pub attempt : Error → Db (Unit {0})
attempt e =
    db (λ w. (if w.env.fails w.calls then err e else ok tt, record w { calls = suc w.calls }))

-- What a statement reads and writes when its call has succeeded.
unfoldable pub gets : {A : Type 0} → (Tables → A) → Db A
gets f = db (λ w. (ok (f w.tables), w))

unfoldable pub modify : (Tables → Tables) → Db (Unit {0})
modify f = db (λ w. (ok tt, record w { tables = f w.tables }))

-- A statement: the call, and what it reads or writes.
unfoldable pub query : {A : Type 0} → (Tables → A) → Db A
unfolding attempt gets ◌>>◌
query f = attempt database >> gets f

unfoldable pub exec : (Tables → Tables) → Db (Unit {0})
unfolding attempt modify ◌>>◌
exec f = attempt database >> modify f

-- What a call of the file system reads and writes when it has succeeded.
unfoldable pub gets_files : {A : Type 0} → (Files → A) → Db A
gets_files f = db (λ w. (ok (f w.files), w))

unfoldable pub modify_files : (Files → Files) → Db (Unit {0})
modify_files f = db (λ w. (ok tt, record w { files = f w.files }))

-- The clock at the next call (`clock_timestamp()`, `time.Now`), the id of the row that this call makes,
-- and the random bytes that it reads.
unfoldable pub now : Db Instant
now = db (λ w. (ok (w.env.clock w.calls), w))

unfoldable pub fresh_id : Db Uuid
fresh_id = db (λ w. (ok (w.env.ids w.calls), w))

unfoldable pub random_bytes : Db Text
random_bytes = db (λ w. (ok (w.env.bytes w.calls), w))

abbrev pub restore : Tables → World → World
restore t w = record w { tables = t }

-- The deferred rollback of a transaction that did not reach its commit, and the commit.
unfoldable pub commit : {A : Type 0} → Tables → A → Result (Unit {0}) × World → Result A × World
commit t a (ok _, w) = (ok a, w)
commit t a (err e, w) = (err e, restore t w)

unfoldable pub finish : {A : Type 0} → Tables → Result A × World → Result A × World
unfolding attempt commit
finish t (err e, w) = (err e, restore t w)
finish t (ok a, w) = commit t a (run (attempt database) w)

-- `Begin`, the body, and `Commit` or the rollback.
unfoldable pub transaction : {A : Type 0} → Db A → Db A
unfolding attempt finish ◌>>◌
transaction m = attempt database >> db (λ w. finish w.tables (run m w))

abbrev pub append_audit_row : AuditRow → Tables → Tables
append_audit_row row t = record t { audit_events = t.audit_events ++ row ∷ [] }

-- `insertAudit`: INSERT INTO public.audit_events
unfoldable pub insert_audit : AuditEvent → Db (Unit {0})
unfolding exec fresh_id now ◌>>=◌
insert_audit event = do
  id ← fresh_id
  at ← now
  exec (append_audit_row (record { id = id; occurred_at = at; event = event }))
