-- ===== src/Filestore/Store.antt =====
-- internal/filestore/store.go: the operations on the directories. The reading of an upload and each call
-- of the file system may fail; a file that is not there is `os.ErrNotExist`.
use project_progress_registe.Base.{
  ℕ, suc, ◌+◌, Bool, true, false, not, ◌||◌, List, [], ◌∷◌, ◌++◌, ltb, if◌then◌else◌, length, take,
  is_empty, find, any, delete,
}
use project_progress_registe.Text.{Text, text_eq, trim_space}
use project_progress_registe.Schema.{Instant, MediaKind, File, Files}
use project_progress_registe.Db.{
  Db, Result, ok, err, World, db, run, validation, random_source, file_too_large, file_empty,
  file_missing, file_system, attempt, gets_files, modify_files, lift, pure, raise, raise_if,
  or_raise, now, random_bytes, branch, ◌>>=◌, ◌>>◌,
}
use project_progress_registe.Filestore.Names.{is_storage_key, safe_display_name, classify}

pub record StagedFile : Type 0 where
  pub storage_key : Text
  pub original_name : Text
  pub reported_mime : Text
  pub detected_mime : Text
  pub media_kind : MediaKind
  pub size_bytes : ℕ
  pub sha256 : Text

abbrev pub has_file_key : Text → File → Bool
has_file_key key f = text_eq f.key key

abbrev pub add_staged : File → Files → Files
add_staged f fs = record fs { staging = fs.staging ++ f ∷ [] }

abbrev pub drop_staged : Text → Files → Files
drop_staged key fs = record fs { staging = delete (has_file_key key) fs.staging }

-- `_ = os.Remove(…)`: an error of the removal is passed over.
abbrev pub passed_over : Result (Unit {0}) × World → Result (Unit {0}) × World
passed_over r = (ok tt, r.1)

unfoldable pub remove_quietly : Text → Db (Unit {0})
remove_quietly key =
    db (λ w. passed_over (run (attempt file_system >> modify_files (drop_staged key)) w))

-- The checks after the copy; what was staged is removed when one fails.
unfoldable pub keep_or_remove : Text → Result (Unit {0}) × World → Result (Unit {0}) × World
keep_or_remove key (ok u, w) = (ok u, w)
keep_or_remove key (err e, w) = run (remove_quietly key >> raise e) w

module _ (max_bytes : ℕ) where
  -- The copy reads one byte more than the limit at most.
  unfoldable pub copy_bytes : Text → List ℕ → Db (Unit {0})
  copy_bytes key bytes = do
    attempt file_system
    at ← now
    let written = take (suc max_bytes) bytes
    modify_files (λ fs.
        add_staged (record { key = key; bytes = written; modified = at }) (drop_staged key fs))
    raise_if (ltb max_bytes (length written)) file_too_large
    raise_if (is_empty written) file_empty
    attempt file_system
    attempt file_system

  module _ (lower : ℕ → ℕ) (detect : List ℕ → Text) (sha256 : List ℕ → Text)
      (hex : Text → Text) where
    unfoldable pub random_key : Db Text
    random_key = do attempt random_source; raw ← random_bytes; pure (hex raw)

    -- `O_EXCL`: a file that is there already is not opened.
    unfoldable pub stage : List ℕ → Text → Text → Db StagedFile
    stage bytes original_name reported_mime = do
      name ← lift (safe_display_name original_name)
      attempt file_system
      raise_if (is_empty bytes) file_empty
      kind ← lift (classify lower detect name (take 512 bytes))
      key ← random_key
      attempt file_system
      at ← now
      taken ← gets_files (λ fs. any (has_file_key key) fs.staging)
      raise_if taken file_system
      modify_files (add_staged (record { key = key; bytes = []; modified = at }))
      db (λ w. keep_or_remove key (run (copy_bytes key bytes) w))
      pure (record {
        storage_key = key;
        original_name = name;
        reported_mime = trim_space reported_mime;
        detected_mime = kind.0;
        media_kind = kind.1;
        size_bytes = length bytes;
        sha256 = sha256 bytes;
      })

-- `os.Rename` of a staged file to its final place.
abbrev pub move_file : File → Files → Files
move_file f fs = record fs {
  staging = delete (has_file_key f.key) fs.staging;
  finals = fs.finals ++ f ∷ [];
}

unfoldable pub rename_staged : Text → Db (Unit {0})
rename_staged key = do
  attempt file_system
  attempt file_system
  found ← gets_files (λ fs. find (has_file_key key) fs.staging)
  f ← or_raise found file_missing
  modify_files (move_file f)

unfoldable pub finalize : Text → Db (Unit {0})
finalize key = do
  raise_if (not (is_storage_key key)) (validation "storage_key")
  attempt file_system
  final ← gets_files (λ fs. any (has_file_key key) fs.finals)
  branch final (pure tt) (rename_staged key)

unfoldable pub open_final : Text → Db (List ℕ)
open_final key = do
  raise_if (not (is_storage_key key)) (validation "storage_key")
  attempt file_system
  found ← gets_files (λ fs. find (has_file_key key) fs.finals)
  f ← or_raise found file_missing
  pure f.bytes

-- A file that is not there is no error.
unfoldable pub discard_staged : Text → Db (Unit {0})
discard_staged key = do
  raise_if (not (is_storage_key key)) (validation "storage_key")
  attempt file_system
  modify_files (drop_staged key)

abbrev pub listed : Text → List Text → Bool
listed key [] = false
listed key (k ∷ ks) = if text_eq key k then true else listed key ks

-- An orphan: no key that is to be kept, and staged before the given time.
abbrev pub is_skipped : List Text → Text → Bool
is_skipped keep key = not (is_storage_key key) || listed key keep

unfoldable pub remove_older : Instant → Text → Instant → Db ℕ
remove_older older_than key modified =
    branch (ltb modified older_than)
      (attempt file_system >> (modify_files (drop_staged key) >> pure 1)) (pure 0)

unfoldable pub cleanup_entry : List Text → Instant → File → Db ℕ
cleanup_entry keep older_than f =
    branch (is_skipped keep f.key) (pure 0)
      (attempt file_system >> remove_older older_than f.key f.modified)

unfoldable pub cleanup_entries : List Text → Instant → List File → Db ℕ
cleanup_entries keep older_than [] = pure 0
cleanup_entries keep older_than (f ∷ fs) = do
  first ← cleanup_entry keep older_than f
  rest ← cleanup_entries keep older_than fs
  pure (first + rest)

unfoldable pub cleanup_orphans : List Text → Instant → Db ℕ
cleanup_orphans keep older_than = do
  attempt file_system
  entries ← gets_files (λ fs. fs.staging)
  cleanup_entries keep older_than entries
