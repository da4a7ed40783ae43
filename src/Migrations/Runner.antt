-- ===== src/Migrations/Runner.antt =====
-- internal/migrations/migrations.go: `Up`, `Status` and `CheckCurrent` over the ledger. What a script
-- does to the schema is a parameter: it fails or gives the next schema. A call to the database may
-- fail too; the n-th does if the environment says so.
use project_progress_registe.Base.{
  ℕ, suc, ◌-◌, Bool, true, false, not, ◌&&◌, Option, none, some, List, [], ◌∷◌, ◌++◌, ◌==◌, length,
  find, any, if◌then◌else◌,
}
use project_progress_registe.Text.{Text, text_eq, trim_space}
use project_progress_registe.Migrations.Load.{Migration, has_version}

pub record LedgerRow : Type 0 where
  pub version : ℕ
  pub name : Text
  pub checksum : Text

pub data RunError : Type 0 where
  unavailable unknown_version checksum_differs script_failed : RunError

pub data Outcome (A : Type 0) : Type 0 where
  done : A → Outcome A
  failed : RunError → Outcome A

pub record Status : Type 0 where
  pub initialized : Bool
  pub applied : ℕ
  pub pending : ℕ

abbrev pub is_recorded : ℕ → List LedgerRow → Bool
is_recorded version rows = any (λ row. row.version == version) rows

-- One applied row against the embedded migrations.
unfoldable pub validate_row : List Migration → LedgerRow → Option RunError
unfolding trim_space
validate_row migrations row = elim (find (has_version row.version) migrations) [
  | none ↦ some unknown_version
  | some m ↦ if text_eq (trim_space row.checksum) m.checksum then none else some checksum_differs
]

-- The source takes the rows of a map, in no order: any error ends the check.
unfoldable pub validate_applied : List Migration → List LedgerRow → Option RunError
unfolding validate_row
validate_applied migrations [] = none
validate_applied migrations (row ∷ rows) = elim (validate_row migrations row) [
  | some e ↦ some e
  | none ↦ validate_applied migrations rows
]

-- The row of a migration.
abbrev pub row_of : Migration → LedgerRow
row_of m = record { version = m.version; name = m.name; checksum = m.checksum }

module _ {S : Type 0} (execute : Text → S → Option S) (fails : ℕ → Bool) where
  pub record Store : Type 0 where
    pub schema : S
    pub initialized : Bool
    pub ledger : List LedgerRow
    pub calls : ℕ

  abbrev pub called : Store → Store
  called s = record s { calls = suc s.calls }

  -- The script and the row, between Begin and Commit: together, or not at all.
  unfoldable pub apply_one : Migration → Store → Outcome (Unit {0}) × Store
  apply_one m s =
      if fails s.calls then (failed unavailable, called s) else elim (execute m.sql s.schema) [
        | none ↦ (failed script_failed, called s)
        | some next ↦ if fails (suc s.calls) then (failed unavailable, called (called s)) else (
          done tt,
          record s { schema = next; ledger = s.ledger ++ row_of m ∷ []; calls = suc (suc s.calls) },
        )
      ]

  -- A step that follows another one, unless that failed.
  unfoldable pub and_then :
      {A : Type 0} → (Store → Outcome A × Store) → Outcome (Unit {0}) × Store → Outcome A × Store
  and_then k (done _, s) = k s
  and_then k (failed e, s) = (failed e, s)

  unfoldable pub apply_pending : List Migration → Store → Outcome (Unit {0}) × Store
  apply_pending [] s = (done tt, s)
  apply_pending (m ∷ ms) s =
      if is_recorded m.version s.ledger
      then apply_pending ms s
      else and_then (apply_pending ms) (apply_one m s)

  abbrev pub current_status : Store → Outcome Status × Store
  current_status s =
      (done (record { initialized = true; applied = length s.ledger; pending = 0 }), s)

  -- What follows the check of the ledger: its error, or the rest is applied.
  unfoldable pub advance : Option RunError → List Migration → Store → Outcome Status × Store
  advance (some e) migrations s = (failed e, s)
  advance none migrations s = and_then current_status (apply_pending migrations s)

  -- One call takes the connection and the lock and makes the ledger's table, one reads the ledger.
  unfoldable pub up : List Migration → Store → Outcome Status × Store
  up migrations s =
      let opened : Store = record s { initialized = true; calls = suc (suc s.calls) } in
      if fails s.calls
      then (failed unavailable, called s)
      else if fails (suc s.calls)
      then (failed unavailable, opened)
      else advance (validate_applied migrations opened.ledger) migrations opened

  unfoldable pub status : List Migration → Store → Outcome Status
  unfolding validate_applied
  status migrations s =
      if fails s.calls
      then failed unavailable
      else if not s.initialized
      then done (record { initialized = false; applied = 0; pending = length migrations })
      else elim (validate_applied migrations s.ledger) [
        | some e ↦ failed e
        | none ↦ done (record {
          initialized = true;
          applied = length s.ledger;
          pending = length migrations - length s.ledger;
        })
      ]

-- `CheckCurrent` of what `Status` says.
unfoldable pub is_ready : Outcome Status → Bool
is_ready (failed e) = false
is_ready (done s) = s.initialized && s.pending == 0
