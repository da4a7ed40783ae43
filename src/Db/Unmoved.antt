-- ===== src/Db/Unmoved.antt =====
-- The computations on the tables alone: whatever they return, the files are as they were.
use project_progress_registe.Base.{◌≡◌, refl, ◌∙◌, Bool, Option, none, some}
use project_progress_registe.Schema.{Files, Tables}
use project_progress_registe.Db.{
  Error, database, Result, ok, err, World, Db, db, run, continue, attempt, gets, commit, query,
  finish, transaction, raise_if, or_raise, ◌>>=◌, ◌>>◌,
}

abbrev pub KeepsFiles : {A : Type 0} → Db A → Type 0
KeepsFiles m = (w : World) → (run m w).1.files ≡ w.files

files-continue :
    {A B : Type 0} (f : A → Db B) (fs : Files) (r : Result A × World)
    → r.1.files ≡ fs
    → ((a : A) → KeepsFiles (f a))
    → (continue f r).1.files ≡ fs
files-continue f fs (ok a, w) h k = k a w ∙ h
files-continue f fs (err e, w) h k = h

pub bind-KeepsFiles :
    {A B : Type 0} (m : Db A) (f : A → Db B)
    → KeepsFiles m
    → ((a : A) → KeepsFiles (f a))
    → KeepsFiles (m >>= f)
unfolding ◌>>=◌
bind-KeepsFiles m f h k w = files-continue f w.files (run m w) (h w) k

pub then-KeepsFiles :
    {B : Type 0} (m : Db (Unit {0})) (k : Db B) → KeepsFiles m → KeepsFiles k → KeepsFiles (m >> k)
unfolding ◌>>◌
then-KeepsFiles m k h h' = bind-KeepsFiles m (λ _. k) h (λ _. h')

pub attempt-KeepsFiles : (e : Error) → KeepsFiles (attempt e)
unfolding attempt
attempt-KeepsFiles e w = refl

pub query-KeepsFiles : {A : Type 0} (f : Tables → A) → KeepsFiles (query f)
unfolding query gets
query-KeepsFiles f =
    then-KeepsFiles (attempt database) (gets f) (attempt-KeepsFiles database) (λ w. refl)

pub raise_if-KeepsFiles : (c : Bool) (e : Error) → KeepsFiles (raise_if c e)
unfolding raise_if
raise_if-KeepsFiles c e w = refl

pub or_raise-KeepsFiles : {A : Type 0} (o : Option A) (e : Error) → KeepsFiles (or_raise o e)
unfolding or_raise
or_raise-KeepsFiles none e w = refl
or_raise-KeepsFiles (some a) e w = refl

files-commit :
    {A : Type 0} (t : Tables) (a : A) (r : Result (Unit {0}) × World)
    → (commit t a r).1.files ≡ r.1.files
unfolding commit
files-commit t a (ok _, w) = refl
files-commit t a (err e, w) = refl

files-finish : {A : Type 0} (t : Tables) (r : Result A × World) → (finish t r).1.files ≡ r.1.files
unfolding finish
files-finish t (ok a, w) =
    files-commit t a (run (attempt database) w) ∙ attempt-KeepsFiles database w
files-finish t (err e, w) = refl

pub transaction-KeepsFiles : {A : Type 0} (m : Db A) → KeepsFiles m → KeepsFiles (transaction m)
unfolding transaction
transaction-KeepsFiles m h =
    then-KeepsFiles (attempt database) (db (λ w. finish w.tables (run m w)))
      (attempt-KeepsFiles database) (λ w. files-finish w.tables (run m w) ∙ h w)
