-- ===== src/Filestore/Finalizing.antt =====
-- The move of a staged file to its final place.
use project_progress_registe.Base.{◌≡◌, ◌⊎◌, true, false, some, find, any}
use project_progress_registe.Text.{Text}
use project_progress_registe.Schema.{File, Files}
use project_progress_registe.Db.{Error, Result, ok, err, World}
use project_progress_registe.Filestore.Store.{has_file_key, move_file}

-- The file was final already, or the staged file is final now, and gone from the staged ones.
abbrev pub Settled : Text → Files → Files → Type 0
Settled key fs fs' =
    ((any (has_file_key key) fs.finals ≡ true) × (fs' ≡ fs))
    ⊎ ((any (has_file_key key) fs.finals ≡ false)
        × (f : File) × (find (has_file_key key) fs.staging ≡ some f)
        × (fs' ≡ move_file f fs)
        × (find (has_file_key key) fs'.finals ≡ some f))

-- A result, and what it left.
abbrev pub Finalized : Text → World → Result (Unit {0}) × World → Type 0
Finalized key w r =
    (r.1.tables ≡ w.tables)
    × (((r.0 ≡ ok tt) × Settled key w.files r.1.files)
        ⊎ ((e : Error) × (r.0 ≡ err e) × (r.1.files ≡ w.files)))
