-- ===== src/Db/Laws.antt =====
-- Transactions are atomic.
use project_progress_registe.Base.{◌≡◌, refl, ◌⊎◌, inl, inr, arith}
use project_progress_registe.Schema.{Tables}
use project_progress_registe.Db.{
  Error, database, Result, ok, err, World, Db, run, attempt, finish, transaction,
}

finish-err :
    {A : Type 0} (t : Tables) (r : Result A × World) {e : Error}
    → (finish t r).0 ≡ err e
    → (finish t r).1.tables ≡ t
unfolding finish
finish-err t (err x, w) h = refl
finish-err t (ok a, w) h = ground arith

-- A transaction that returns an error leaves every table as it was.
pub transaction-err :
    {A : Type 0} (m : Db A) (w : World) {e : Error}
    → (run (transaction m) w).0 ≡ err e
    → (run (transaction m) w).1.tables ≡ w.tables
unfolding transaction
transaction-err m w h = ground (arith, finish-err w.tables (run m (run (attempt database) w).1))

pub Result-cases :
    {A : Type 0} (r : Result A) → ((e : Error) × (r ≡ err e)) ⊎ ((a : A) × (r ≡ ok a))
Result-cases (err e) = inl (e, refl)
Result-cases (ok a) = inr (a, refl)
