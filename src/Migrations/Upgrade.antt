-- ===== src/Migrations/Upgrade.antt =====
-- The runner: schema and ledger advance together, and a run that ends well has applied everything.
use project_progress_registe.Base.{
  ℕ, suc, ◌≡◌, ◌⊎◌, inl, inr, refl, sym, ap, ◌∙◌, if◌then◌else◌, Bool, true, false, Bool-cases,
  Option, Option-cases, none, some, List, [], ◌∷◌, ◌++◌, map, ==_refl, All, arith,
}
use mathlib.Core.Path.{subst}
use project_progress_registe.Text.{Text}
use project_progress_registe.Migrations.Load.{Migration}
use project_progress_registe.Migrations.Runner.{
  LedgerRow, RunError, Outcome, done, failed, Status, is_recorded, row_of, Store, apply_one,
  and_then, current_status, apply_pending, advance, up,
}

++_assoc_row : {A : Type 0} (r s t : List A) → (r ++ s) ++ t ≡ r ++ (s ++ t)
++_assoc_row [] s t = refl
++_assoc_row (x ∷ r) s t = ap (λ v. x ∷ v) (++_assoc_row r s t)

++_nil_row : {A : Type 0} (r : List A) → r ++ [] ≡ r
++_nil_row [] = refl
++_nil_row (x ∷ r) = ap (λ v. x ∷ v) (++_nil_row r)

-- The migrations that a ledger lacks, in their order; a version that comes twice is lacking once.
abbrev pub lacking : List LedgerRow → List Migration → List Migration
lacking rows [] = []
lacking rows (m ∷ ms) =
    let rest = lacking (rows ++ row_of m ∷ []) ms in
    let others = lacking rows ms in if is_recorded m.version rows then others else m ∷ rest

module _ {S : Type 0} (execute : Text → S → Option S) (fails : ℕ → Bool) where
  -- Scripts one after the other.
  abbrev pub execute_all : List Migration → S → Option S
  execute_all [] schema = some schema
  execute_all (m ∷ ms) schema = elim (execute m.sql schema) [
    | none ↦ none
    | some next ↦ execute_all ms next
  ]

  -- The first of the lacking migrations were applied: their scripts to the schema, and their rows to
  -- the ledger.
  abbrev pub IsAdvance : List Migration → Store execute fails → Store execute fails → Type 0
  IsAdvance migrations s s' =
      (ms later : List Migration) × (lacking s.ledger migrations ≡ ms ++ later)
      × (s'.ledger ≡ s.ledger ++ map row_of ms)
      × (execute_all ms s.schema ≡ some s'.schema)

  IsAdvance-refl :
      (migrations : List Migration) (s s' : Store execute fails)
      → s'.ledger ≡ s.ledger
      → s'.schema ≡ s.schema
      → IsAdvance migrations s s'
  IsAdvance-refl migrations s s' e e' = (
    [],
    lacking s.ledger migrations,
    refl,
    e ∙ sym (++_nil_row s.ledger),
    ap (λ v. some v) (sym e'),
  )

  lacking_known :
      (m : Migration) (ms : List Migration) (rows : List LedgerRow)
      → is_recorded m.version rows ≡ true
      → lacking rows (m ∷ ms) ≡ lacking rows ms
  lacking_known m ms rows known =
      ap (λ b. if b then lacking rows ms else m ∷ lacking (rows ++ row_of m ∷ []) ms) known

  lacking_fresh :
      (m : Migration) (ms : List Migration) (rows : List LedgerRow)
      → is_recorded m.version rows ≡ false
      → lacking rows (m ∷ ms) ≡ m ∷ lacking (rows ++ row_of m ∷ []) ms
  lacking_fresh m ms rows fresh =
      ap (λ b. if b then lacking rows ms else m ∷ lacking (rows ++ row_of m ∷ []) ms) fresh

  apply_one-cases :
      (m : Migration) (s : Store execute fails)
      → ((next : S) × (s' : Store execute fails) × (apply_one execute fails m s ≡ (done tt, s'))
          × (execute m.sql s.schema ≡ some next)
          × (s'.schema ≡ next)
          × (s'.ledger ≡ s.ledger ++ row_of m ∷ []))
        ⊎ ((e : RunError) × (s' : Store execute fails) × (apply_one execute fails m s
              ≡ (failed e, s'))
            × (s'.schema ≡ s.schema)
            × (s'.ledger ≡ s.ledger))
  unfolding apply_one
  apply_one-cases m s = elim (Bool-cases (fails s.calls)) [
    | inl begun ↦ rw begun (inr (_, _, refl, refl, refl))
    | inr begun ↦ elim (Option-cases (execute m.sql s.schema)) [
      | inl e ↦ rw begun (rw e (inr (_, _, refl, refl, refl)))
      | inr (next, e) ↦ elim (Bool-cases (fails (suc s.calls))) [
        | inl ended ↦ rw begun (rw e (rw ended (inr (_, _, refl, refl, refl))))
        | inr ended ↦ rw begun (rw e (rw ended (inl (next, _, refl, refl, refl, refl))))
      ]
    ]
  ]

  execute_all-next :
      (m : Migration) (ms : List Migration) (schema : S) {next : S}
      → execute m.sql schema ≡ some next
      → execute_all (m ∷ ms) schema ≡ execute_all ms next
  execute_all-next m ms schema e =
      ap (λ (o : Option S). elim o [ none ↦ none | some next ↦ execute_all ms next ]) e

  pending_known :
      (m : Migration) (ms : List Migration) (s : Store execute fails)
      → is_recorded m.version s.ledger ≡ true
      → apply_pending execute fails (m ∷ ms) s ≡ apply_pending execute fails ms s
  unfolding apply_pending
  pending_known m ms s known = rw known refl

  pending_fresh :
      (m : Migration) (ms : List Migration) (s : Store execute fails)
      {r : Outcome (Unit {0}) × Store execute fails}
      → is_recorded m.version s.ledger ≡ false
      → apply_one execute fails m s ≡ r
      → apply_pending execute fails (m ∷ ms) s
        ≡ and_then execute fails (apply_pending execute fails ms) r
  unfolding apply_pending
  pending_fresh m ms s fresh ran =
      rw fresh (ap (and_then execute fails (apply_pending execute fails ms)) ran)

  recorded_append :
      (version : ℕ) (rows more : List LedgerRow)
      → is_recorded version rows ≡ true
      → is_recorded version (rows ++ more) ≡ true
  recorded_append version [] more h = cc
  recorded_append version (row ∷ rows) more h = ground (arith, recorded_append version rows more)

  recorded_last :
      (m : Migration) (rows : List LedgerRow) → is_recorded m.version (rows ++ row_of m ∷ []) ≡ true
  recorded_last m [] = rw (==_refl m.version) refl
  recorded_last m (row ∷ rows) = ground (arith, recorded_last m rows)

  -- What is recorded stays so.
  IsAdvance-recorded :
      (version : ℕ) (migrations : List Migration) (s s' : Store execute fails)
      → IsAdvance migrations s s'
      → is_recorded version s.ledger ≡ true
      → is_recorded version s'.ledger ≡ true
  IsAdvance-recorded version migrations s s' (ms, later, split, rows, all) h =
      ap (is_recorded version) rows ∙ recorded_append version s.ledger (map row_of ms) h

  -- The state is an advance, in which the migrations are recorded if the result is `done`.
  abbrev pub HasApplied :
      List Migration → Store execute fails → Outcome (Unit {0}) × Store execute fails → Type 0
  HasApplied ms s r =
      IsAdvance ms s r.1 × ((r.0 ≡ done tt) → All (λ m. is_recorded m.version r.1.ledger ≡ true) ms)

  apply_pending-HasApplied :
      (ms : List Migration) (s : Store execute fails)
      → HasApplied ms s (apply_pending execute fails ms s)
  unfolding apply_pending and_then
  apply_pending-HasApplied [] s = (IsAdvance-refl [] s s refl refl, λ h. tt)
  apply_pending-HasApplied (m ∷ ms) s = elim (Bool-cases (is_recorded m.version s.ledger)) [
    | inl known ↦
        let (steps, all) = apply_pending-HasApplied ms s in
        let (ms', later, split, rows, ends) = steps in
        subst (HasApplied (m ∷ ms) s) (sym (pending_known m ms s known)) (
          (ms', later, lacking_known m ms s.ledger known ∙ split, rows, ends),
          λ h. (
            IsAdvance-recorded m.version ms s (apply_pending execute fails ms s).1 steps known,
            all h,
          ),
        )
    | inr fresh ↦ elim (apply_one-cases m s) [
      | inl (next, s', ran, e, schema, ledger) ↦
          let (steps, all) = apply_pending-HasApplied ms s' in
          let (ms', later, split, rows, ends) = steps in
          subst (HasApplied (m ∷ ms) s) (sym (pending_fresh m ms s fresh ran)) (
            (
              m ∷ ms',
              later,
              lacking_fresh m ms s.ledger fresh
                  ∙ ap (λ v. m ∷ lacking v ms) (sym ledger)
                  ∙ ap (λ v. m ∷ v) split,
              rows
                  ∙ ap (λ v. v ++ map row_of ms') ledger
                  ∙ ++_assoc_row s.ledger (row_of m ∷ []) (map row_of ms'),
              execute_all-next m ms' s.schema e ∙ ap (λ v. execute_all ms' v) (sym schema) ∙ ends,
            ),
            λ h. (
              IsAdvance-recorded m.version ms s' (apply_pending execute fails ms s').1 steps
                  (ap (is_recorded m.version) ledger ∙ recorded_last m s.ledger),
              all h,
            ),
          )
      | inr (e, s', ran, schema, ledger) ↦
          subst (HasApplied (m ∷ ms) s) (sym (pending_fresh m ms s fresh ran))
            (IsAdvance-refl (m ∷ ms) s s' ledger schema, λ h. cc)
    ]
  ]

  -- The same of `Up`, whose result says that nothing is pending.
  abbrev pub IsUpgrade :
      List Migration → Store execute fails → Outcome Status × Store execute fails → Type 0
  IsUpgrade ms s r =
      IsAdvance ms s r.1
      × ((st : Status)
          → r.0 ≡ done st
          → All (λ m. is_recorded m.version r.1.ledger ≡ true) ms × (st.pending ≡ 0))

  settle-IsUpgrade :
      (ms : List Migration) (s : Store execute fails) (r : Outcome (Unit {0}) × Store execute fails)
      → HasApplied ms s r
      → IsUpgrade ms s (and_then execute fails (current_status execute fails) r)
  unfolding and_then
  settle-IsUpgrade ms s (done u, s') (steps, all) = (steps, λ st h. (all refl, ground (arith, h)))
  settle-IsUpgrade ms s (failed e, s') (steps, all) = (steps, λ st h. cc)

  advance-IsUpgrade :
      (checked : Option RunError) (ms : List Migration) (s : Store execute fails)
      → IsUpgrade ms s (advance execute fails checked ms s)
  unfolding advance
  advance-IsUpgrade (some e) ms s = (IsAdvance-refl ms s s refl refl, λ st h. cc)
  advance-IsUpgrade none ms s = settle-IsUpgrade ms s _ (apply_pending-HasApplied ms s)

  up-IsUpgrade :
      (ms : List Migration) (s : Store execute fails) → IsUpgrade ms s (up execute fails ms s)
  unfolding up
  up-IsUpgrade ms s =
      let opened : Store execute fails = record s {
        initialized = true;
        calls = suc (suc s.calls);
      } in
      let lost_store : Store execute fails = record s { calls = suc s.calls } in
      elim (Bool-cases (fails s.calls)) [
        | inl lost ↦ rw lost (IsAdvance-refl ms s lost_store refl refl, λ st h. cc)
        | inr held ↦ elim (Bool-cases (fails (suc s.calls))) [
          | inl unread ↦ rw held (rw unread (IsAdvance-refl ms s opened refl refl, λ st h. cc))
          | inr read ↦ rw held (rw read (advance-IsUpgrade _ ms opened))
        ]
      ]

  -- Whatever it returns, `Up` has run the first ones, perhaps all or none, of the given migrations that
  -- the ledger lacks, in the given order and each once: their scripts changed the schema and their rows
  -- follow the old ones in the ledger, none without the other.
  pub up-IsAdvance :
      (migrations : List Migration) (s : Store execute fails)
      → IsAdvance migrations s (up execute fails migrations s).1
  up-IsAdvance migrations s = (up-IsUpgrade migrations s).0

  -- When `Up` returns a status, every migration is in the ledger and the status says that none is
  -- pending.
  pub up_complete :
      (migrations : List Migration) (s : Store execute fails) {st : Status}
      → (up execute fails migrations s).0 ≡ done st
      → All (λ m. is_recorded m.version (up execute fails migrations s).1.ledger ≡ true) migrations
        × (st.pending ≡ 0)
  up_complete migrations s {st} h = (up-IsUpgrade migrations s).1 st h
