-- ===== src/Db/Steps.antt =====
-- The computations that end well, on the tables alone: `m`, begun on the tables `t`, may return `a`
-- and leave the tables `t'`. One step of a `do` block is taken off at a time; what it found, and the
-- run of the rest, are handed to the rest of the proof.
use project_progress_registe.Base.{◌≡◌, refl, sym, ap, ◌∙◌, Bool, true, false, Option, some, arith}
use mathlib.Core.Path.{subst}
use project_progress_registe.Schema.{Uuid, Instant, AuditEvent, AuditRow, Tables}
use project_progress_registe.Text.{Text}
use project_progress_registe.Db.{
  Error, Result, ok, World, Db, run, attempt, query, exec, gets, modify, pure, raise, now, fresh_id,
  random_bytes, insert_audit, append_audit_row, raise_if, or_raise, lift, transaction, branch,
  ◌>>=◌, ◌>>◌,
}
use project_progress_registe.Db.Runs.{
  Runs, bind-Runs, then-Runs, attempt-Runs, query-Runs, exec-Runs, gets-Runs, modify-Runs, now-Runs,
  fresh_id-Runs, random_bytes-Runs, raise_if-Runs, or_raise-Runs, lift-Runs, insert_audit-Runs,
  transaction-Runs, pure-Runs,
}

pub record Yields {A : Type 0} (m : Db A) (t : Tables) (a : A) (t' : Tables) : Type 0 where
  pub first : World
  pub last : World
  pub begins : first.tables ≡ t
  pub ends : last.tables ≡ t'
  pub runs : Runs m first a last

pub Runs-Yields :
    {A : Type 0} {m : Db A} (w : World) {a : A} {w' : World}
    → Runs m w a w'
    → Yields m w.tables a w'.tables
Runs-Yields w {w'} r = record { first = w; last = w'; begins = refl; ends = refl; runs = r }

pub run-Yields :
    {A : Type 0} (m : Db A) (w : World) {a : A}
    → (run m w).0 ≡ ok a
    → Yields m w.tables a (run m w).1.tables
run-Yields m w h = record {
  first = w;
  last = (run m w).1;
  begins = refl;
  ends = refl;
  runs = record { returns = ground (arith, h) };
}

rest_of :
    {B : Type 0} {b : B} {t' : Tables} {k : Db B} {t₁ : Tables} {w₁ w' : World}
    → w₁.tables ≡ t₁
    → w'.tables ≡ t'
    → Runs k w₁ b w'
    → Yields k t₁ b t'
rest_of {w₁} {w'} e e' r = record { first = w₁; last = w'; begins = e; ends = e'; runs = r }

module _ {B : Type 0} {b : B} {t t' : Tables} where
  pub pure-Yields : (a : B) → Yields (pure a) t b t' → (b ≡ a) × (t' ≡ t)
  pure-Yields a y =
      let (value, same) = pure-Runs a y.first y.runs in
      (value, sym y.ends ∙ ap (λ (v : World). v.tables) same ∙ y.begins)

  pub transaction-Yields : (m : Db B) → Yields (transaction m) t b t' → Yields m t b t'
  transaction-Yields m y =
      let (w₀, w₁, same, body, kept) = transaction-Runs m y.first y.runs in
      rest_of (same ∙ y.begins) (sym kept ∙ y.ends) body

-- A computation that changes no table, whatever it returns.
pub tables-Yields :
    {A : Type 0} (m : Db A) {a : A} {t t' : Tables}
    → ((w : World) → (run m w).1.tables ≡ w.tables)
    → Yields m t a t'
    → t' ≡ t
tables-Yields m h y =
    sym y.ends
    ∙ sym (ap (λ (r : Result _ × World). r.1.tables) y.runs.returns)
    ∙ h y.first
    ∙ y.begins

pub query-Yields :
    {A : Type 0} (f : Tables → A) {a : A} {t t' : Tables}
    → Yields (query f) t a t'
    → (a ≡ f t) × (t' ≡ t)
query-Yields f y =
    let (value, same) = query-Runs f y.first y.runs in
    (value ∙ ap f y.begins, sym y.ends ∙ same ∙ y.begins)

pub exec-Yields : (f : Tables → Tables) {t t' : Tables} → Yields (exec f) t tt t' → t' ≡ f t
exec-Yields f y = sym y.ends ∙ exec-Runs f y.first y.runs ∙ ap f y.begins

pub raise_if-Yields :
    (test : Bool) (e : Error) {t t' : Tables}
    → Yields (raise_if test e) t tt t'
    → (test ≡ false) × (t' ≡ t)
raise_if-Yields test e y =
    let (passed, same) = raise_if-Runs test e y.first y.runs in
    (passed, sym y.ends ∙ ap (λ (v : World). v.tables) same ∙ y.begins)

pub or_raise-Yields :
    {A : Type 0} (o : Option A) (e : Error) {a : A} {t t' : Tables}
    → Yields (or_raise o e) t a t'
    → (o ≡ some a) × (t' ≡ t)
or_raise-Yields o e y =
    let (found, same) = or_raise-Runs o e y.first y.runs in
    (found, sym y.ends ∙ ap (λ (v : World). v.tables) same ∙ y.begins)

pub insert_audit-Yields :
    (event : AuditEvent) {t t' : Tables}
    → Yields (insert_audit event) t tt t'
    → (row : AuditRow) × (row.event ≡ event) × (t' ≡ append_audit_row row t)
insert_audit-Yields event {t} {t'} y =
    let (row, e, same) = insert_audit-Runs event y.first y.runs in
    (row, e, sym y.ends ∙ same ∙ ap (append_audit_row row) y.begins)

module _ {B C : Type 0} {b : B} {t t' : Tables} where
  pub attempt->> :
      (e : Error) (k : Db B) → Yields (attempt e >> k) t b t' → (Yields k t b t' → C) → C
  attempt->> e k y c =
      let (w₁, head, rest) = then-Runs (attempt e) k y.first y.runs in
      c (rest_of (attempt-Runs e y.first head ∙ y.begins) y.ends rest)

  pub exec->> :
      (f : Tables → Tables) (k : Db B) → Yields (exec f >> k) t b t' → (Yields k (f t) b t' → C) → C
  exec->> f k y c =
      let (w₁, head, rest) = then-Runs (exec f) k y.first y.runs in
      c (rest_of (exec-Runs f y.first head ∙ ap f y.begins) y.ends rest)

  pub modify->> :
      (f : Tables → Tables) (k : Db B)
      → Yields (modify f >> k) t b t'
      → (Yields k (f t) b t' → C)
      → C
  modify->> f k y c =
      let (w₁, head, rest) = then-Runs (modify f) k y.first y.runs in
      c (rest_of (modify-Runs f y.first head ∙ ap f y.begins) y.ends rest)

  pub insert_audit->> :
      (event : AuditEvent) (k : Db B)
      → Yields (insert_audit event >> k) t b t'
      → ((row : AuditRow) → row.event ≡ event → Yields k (append_audit_row row t) b t' → C)
      → C
  insert_audit->> event k y c =
      let (w₁, head, rest) = then-Runs (insert_audit event) k y.first y.runs in
      let (row, e, same) = insert_audit-Runs event y.first head in
      c row e (rest_of (same ∙ ap (append_audit_row row) y.begins) y.ends rest)

  pub raise_if->> :
      (test : Bool) (e : Error) (k : Db B)
      → Yields (raise_if test e >> k) t b t'
      → (test ≡ false → Yields k t b t' → C)
      → C
  raise_if->> test e k y c =
      let (w₁, head, rest) = then-Runs (raise_if test e) k y.first y.runs in
      let (passed, same) = raise_if-Runs test e y.first head in
      c passed (rest_of (ap (λ (v : World). v.tables) same ∙ y.begins) y.ends rest)

  -- A step that is a computation of its own.
  pub then-Yields :
      (m : Db (Unit {0})) (k : Db B)
      → Yields (m >> k) t b t'
      → ((t₁ : Tables) → Yields m t tt t₁ → Yields k t₁ b t' → C)
      → C
  then-Yields m k y c =
      let (w₁, head, rest) = then-Runs m k y.first y.runs in
      c w₁.tables
        (record { first = y.first; last = w₁; begins = y.begins; ends = refl; runs = head })
        (rest_of refl y.ends rest)

  pub bind-Yields :
      {A : Type 0} (m : Db A) (k : A → Db B)
      → Yields (m >>= k) t b t'
      → ((a : A) (t₁ : Tables) → Yields m t a t₁ → Yields (k a) t₁ b t' → C)
      → C
  bind-Yields m k y c =
      let (a, w₁, head, rest) = bind-Runs m k y.first y.runs in
      c a w₁.tables
        (record { first = y.first; last = w₁; begins = y.begins; ends = refl; runs = head })
        (rest_of refl y.ends rest)

  pub query->>= :
      {A : Type 0} (f : Tables → A) (k : A → Db B)
      → Yields (query f >>= k) t b t'
      → (Yields (k (f t)) t b t' → C)
      → C
  query->>= f k y c =
      let (a, w₁, head, rest) = bind-Runs (query f) k y.first y.runs in
      let (value, same) = query-Runs f y.first head in
      let value' : a ≡ f t = value ∙ ap f y.begins in
      c (rest_of (same ∙ y.begins) y.ends (subst (λ x. Runs (k x) w₁ b y.last) value' rest))

  pub gets->>= :
      {A : Type 0} (f : Tables → A) (k : A → Db B)
      → Yields (gets f >>= k) t b t'
      → (Yields (k (f t)) t b t' → C)
      → C
  gets->>= f k y c =
      let (a, w₁, head, rest) = bind-Runs (gets f) k y.first y.runs in
      let (value, same) = gets-Runs f y.first head in
      let value' : a ≡ f t = value ∙ ap f y.begins in
      c (
        rest_of (ap (λ (v : World). v.tables) same ∙ y.begins) y.ends
          (subst (λ x. Runs (k x) w₁ b y.last) value' rest))

  pub now->>= :
      (k : Instant → Db B)
      → Yields (now >>= k) t b t'
      → ((at : Instant) → Yields (k at) t b t' → C)
      → C
  now->>= k y c =
      let (at, w₁, head, rest) = bind-Runs now k y.first y.runs in
      c at (rest_of (ap (λ (v : World). v.tables) (now-Runs y.first head) ∙ y.begins) y.ends rest)

  pub fresh_id->>= :
      (k : Uuid → Db B)
      → Yields (fresh_id >>= k) t b t'
      → ((id : Uuid) → Yields (k id) t b t' → C)
      → C
  fresh_id->>= k y c =
      let (id, w₁, head, rest) = bind-Runs fresh_id k y.first y.runs in
      c id
        (rest_of (ap (λ (v : World). v.tables) (fresh_id-Runs y.first head) ∙ y.begins) y.ends rest)

  pub random_bytes->>= :
      (k : Text → Db B)
      → Yields (random_bytes >>= k) t b t'
      → ((raw : Text) → Yields (k raw) t b t' → C)
      → C
  random_bytes->>= k y c =
      let (raw, w₁, head, rest) = bind-Runs random_bytes k y.first y.runs in
      c raw (
        rest_of (ap (λ (v : World). v.tables) (random_bytes-Runs y.first head) ∙ y.begins) y.ends
          rest)

  pub or_raise->>= :
      {A : Type 0} (o : Option A) (e : Error) (k : A → Db B)
      → Yields (or_raise o e >>= k) t b t'
      → ((a : A) → o ≡ some a → Yields (k a) t b t' → C)
      → C
  or_raise->>= o e k y c =
      let (a, w₁, head, rest) = bind-Runs (or_raise o e) k y.first y.runs in
      let (found, same) = or_raise-Runs o e y.first head in
      c a found (rest_of (ap (λ (v : World). v.tables) same ∙ y.begins) y.ends rest)

  pub lift->>= :
      {A : Type 0} (r : Result A) (k : A → Db B)
      → Yields (lift r >>= k) t b t'
      → ((a : A) → r ≡ ok a → Yields (k a) t b t' → C)
      → C
  lift->>= r k y c =
      let (a, w₁, head, rest) = bind-Runs (lift r) k y.first y.runs in
      let (returned, same) = lift-Runs r y.first head in
      c a returned (rest_of (ap (λ (v : World). v.tables) same ∙ y.begins) y.ends rest)

  pub lift->> :
      (r : Result (Unit {0})) (k : Db B)
      → Yields (lift r >> k) t b t'
      → (r ≡ ok tt → Yields k t b t' → C)
      → C
  lift->> r k y c =
      let (w₁, head, rest) = then-Runs (lift r) k y.first y.runs in
      let (returned, same) = lift-Runs r y.first head in
      c returned (rest_of (ap (λ (v : World). v.tables) same ∙ y.begins) y.ends rest)

  -- The two ways that a branch goes.
  pub branch-Yields :
      (test : Bool) (m k : Db B)
      → Yields (branch test m k) t b t'
      → (test ≡ true → Yields m t b t' → C)
      → (test ≡ false → Yields k t b t' → C)
      → C
  unfolding branch
  branch-Yields true m k y c d = c refl y
  branch-Yields false m k y c d = d refl y

  pub raise-Yields : (e : Error) → Yields (raise e) t b t' → C
  raise-Yields e y = ground (arith, y.runs.returns)
