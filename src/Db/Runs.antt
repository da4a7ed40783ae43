-- ===== src/Db/Runs.antt =====
-- What a run that ends well has done: each step taken apart.
use project_progress_registe.Base.{◌≡◌, refl, Bool, true, false, Option, none, some, arith}
use project_progress_registe.Schema.{Uuid, Instant, AuditEvent, AuditRow, Tables}
use project_progress_registe.Text.{Text}
use project_progress_registe.Db.{
  Error, database, Result, ok, err, World, Db, db, run, continue, pure, attempt, gets, modify, now,
  fresh_id, random_bytes, commit, query, exec, finish, transaction, insert_audit, append_audit_row,
  raise_if, or_raise, branch, ◌>>=◌, ◌>>◌, lift,
}

-- `m`, begun in `w`, returns `a` and leaves `w'`.
pub record Runs {A : Type 0} (m : Db A) (w : World) (a : A) (w' : World) : Type 0 where
  pub returns : run m w ≡ (ok a, w')

continue-eq-ok :
    {A B : Type 0} (f : A → Db B) (x : Result A × World) {b : B} {w' : World}
    → continue f x ≡ (ok b, w')
    → (a : A) × (w₁ : World) × (x ≡ (ok a, w₁)) × (run (f a) w₁ ≡ (ok b, w'))
continue-eq-ok f (ok a, w₁) h = (a, w₁, refl, h)
continue-eq-ok f (err e, w₁) h = cc

pub bind-Runs :
    {A B : Type 0} (m : Db A) (f : A → Db B) (w : World) {b : B} {w' : World}
    → Runs (m >>= f) w b w'
    → (a : A) × (w₁ : World) × Runs m w a w₁ × Runs (f a) w₁ b w'
unfolding ◌>>=◌
bind-Runs m f w h =
    let (a, w₁, first, rest) = continue-eq-ok f (run m w) h.returns in
    (a, w₁, record { returns = first }, record { returns = rest })

pub then-Runs :
    {B : Type 0} (m : Db (Unit {0})) (k : Db B) (w : World) {b : B} {w' : World}
    → Runs (m >> k) w b w'
    → (w₁ : World) × Runs m w tt w₁ × Runs k w₁ b w'
unfolding ◌>>◌
then-Runs m k w h =
    let (u, w₁, first, rest) = continue-eq-ok (λ _. k) (run m w) h.returns in
    (w₁, record { returns = first }, record { returns = rest })

pub pure-Runs :
    {A : Type 0} (a : A) (w : World) {b : A} {w' : World}
    → Runs (pure a) w b w'
    → (b ≡ a) × (w' ≡ w)
pure-Runs a w h = ground (arith, h.returns)

pub attempt-Runs :
    (e : Error) (w : World) {w' : World} → Runs (attempt e) w tt w' → w'.tables ≡ w.tables
unfolding attempt
attempt-Runs e w h = ground (arith, h.returns)

pub gets-Runs :
    {A : Type 0} (f : Tables → A) (w : World) {a : A} {w' : World}
    → Runs (gets f) w a w'
    → (a ≡ f w.tables) × (w' ≡ w)
unfolding gets
gets-Runs f w h = ground (arith, h.returns)

pub modify-Runs :
    (f : Tables → Tables) (w : World) {w' : World}
    → Runs (modify f) w tt w'
    → w'.tables ≡ f w.tables
unfolding modify
modify-Runs f w h = ground (arith, h.returns)

pub query-Runs :
    {A : Type 0} (f : Tables → A) (w : World) {a : A} {w' : World}
    → Runs (query f) w a w'
    → (a ≡ f w.tables) × (w'.tables ≡ w.tables)
unfolding query
query-Runs f w h = ground (arith, h.returns)

pub exec-Runs :
    (f : Tables → Tables) (w : World) {w' : World} → Runs (exec f) w tt w' → w'.tables ≡ f w.tables
unfolding exec
exec-Runs f w h = ground (arith, h.returns)

-- The clock that a first step reads.
pub now-Runs->>= :
    {B : Type 0} (k : Instant → Db B) (w : World) {b : B} {w' : World}
    → Runs (now >>= k) w b w'
    → Runs (k (w.env.clock w.calls)) w b w'
unfolding now ◌>>=◌
now-Runs->>= k w h = record { returns = h.returns }

-- The two ways that a branch goes.
pub branch-Runs :
    {B C : Type 0} (test : Bool) (m k : Db B) (w : World) {b : B} {w' : World}
    → Runs (branch test m k) w b w'
    → (test ≡ true → Runs m w b w' → C)
    → (test ≡ false → Runs k w b w' → C)
    → C
unfolding branch
branch-Runs true m k w h c d = c refl h
branch-Runs false m k w h c d = d refl h

pub now-Runs : (w : World) {at : Instant} {w' : World} → Runs now w at w' → w' ≡ w
unfolding now
now-Runs w h = ground (arith, h.returns)

pub fresh_id-Runs : (w : World) {id : Uuid} {w' : World} → Runs fresh_id w id w' → w' ≡ w
unfolding fresh_id
fresh_id-Runs w h = ground (arith, h.returns)

pub random_bytes-Runs : (w : World) {raw : Text} {w' : World} → Runs random_bytes w raw w' → w' ≡ w
unfolding random_bytes
random_bytes-Runs w h = ground (arith, h.returns)

pub raise_if-Runs :
    (c : Bool) (e : Error) (w : World) {w' : World}
    → Runs (raise_if c e) w tt w'
    → (c ≡ false) × (w' ≡ w)
unfolding raise_if
raise_if-Runs c e w h = ground (arith, h.returns)

pub or_raise-Runs :
    {A : Type 0} (o : Option A) (e : Error) (w : World) {a : A} {w' : World}
    → Runs (or_raise o e) w a w'
    → (o ≡ some a) × (w' ≡ w)
unfolding or_raise
or_raise-Runs none e w h = cc h.returns
or_raise-Runs (some a) e w h = ground (arith, h.returns)

pub lift-Runs :
    {A : Type 0} (r : Result A) (w : World) {a : A} {w' : World}
    → Runs (lift r) w a w'
    → (r ≡ ok a) × (w' ≡ w)
lift-Runs r w h = ground (arith, h.returns)

pub insert_audit-Runs :
    (event : AuditEvent) (w : World) {w' : World}
    → Runs (insert_audit event) w tt w'
    → (row : AuditRow) × (row.event ≡ event) × (w'.tables ≡ append_audit_row row w.tables)
unfolding insert_audit
insert_audit-Runs event w h = (
  record { id = w.env.ids w.calls; occurred_at = w.env.clock w.calls; event = event },
  refl,
  ground (arith, h.returns),
)

commit-Runs :
    {A : Type 0} (t : Tables) (a : A) (x : Result (Unit {0}) × World) {b : A} {w' : World}
    → commit t a x ≡ (ok b, w')
    → (b ≡ a) × (w' ≡ x.1)
unfolding commit
commit-Runs t a (ok _, w) h = ground arith
commit-Runs t a (err e, w) h = cc

finish-Runs :
    {A : Type 0} (t : Tables) (x : Result A × World) {a : A} {w' : World}
    → finish t x ≡ (ok a, w')
    → (w₁ : World) × (x ≡ (ok a, w₁)) × (w'.tables ≡ w₁.tables)
unfolding finish
finish-Runs t (ok a, w₁) h = (w₁, ground arith, ground arith)
finish-Runs t (err e, w₁) h = cc

-- A transaction that returns: its body has run, and its tables are kept.
pub transaction-Runs :
    {A : Type 0} (m : Db A) (w : World) {a : A} {w' : World}
    → Runs (transaction m) w a w'
    → (w₀ w₁ : World) × (w₀.tables ≡ w.tables) × Runs m w₀ a w₁ × (w'.tables ≡ w₁.tables)
unfolding transaction
transaction-Runs m w h =
    let (w₀, first, rest) =
      then-Runs (attempt database) (db (λ w. finish w.tables (run m w))) w h in
    let (w₁, body, kept) = finish-Runs w₀.tables (run m w₀) rest.returns in
    (w₀, w₁, attempt-Runs database w first, record { returns = body }, kept)
