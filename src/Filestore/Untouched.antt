-- ===== src/Filestore/Untouched.antt =====
-- The cleanup of orphans changes no table.
use project_progress_registe.Base.{ℕ, ◌≡◌, refl, ◌∙◌, List, [], ◌∷◌}
use project_progress_registe.Text.{Text}
use project_progress_registe.Schema.{Instant, File, Tables}
use project_progress_registe.Db.{gets_files, modify_files}
use project_progress_registe.Db.Steps.{
  Yields, pure-Yields, bind-Yields, then-Yields, attempt->>, branch-Yields, tables-Yields,
}
use project_progress_registe.Filestore.Store.{
  remove_older, cleanup_entry, cleanup_entries, cleanup_orphans,
}

remove_older-Yields :
    (older_than : Instant) (key : Text) (modified : Instant) {n : ℕ} {t t' : Tables}
    → Yields (remove_older older_than key modified) t n t'
    → t' ≡ t
unfolding remove_older modify_files
remove_older-Yields older_than key modified y =
    branch-Yields _ _ _ y
      (λ old z. attempt->> _ _ z λ y₁.
        then-Yields _ _ y₁
          λ t₁ dropped rest. (pure-Yields _ rest).1 ∙ tables-Yields _ (λ w. refl) dropped)
      (λ young z. (pure-Yields _ z).1)

cleanup_entry-Yields :
    (keep : List Text) (older_than : Instant) (f : File) {n : ℕ} {t t' : Tables}
    → Yields (cleanup_entry keep older_than f) t n t'
    → t' ≡ t
unfolding cleanup_entry
cleanup_entry-Yields keep older_than f y =
    branch-Yields _ _ _ y (λ e z. (pure-Yields _ z).1)
      (λ e z. attempt->> _ _ z (remove_older-Yields older_than f.key f.modified))

cleanup_entries-Yields :
    (keep : List Text) (older_than : Instant) (fs : List File) {n : ℕ} {t t' : Tables}
    → Yields (cleanup_entries keep older_than fs) t n t'
    → t' ≡ t
unfolding cleanup_entries
cleanup_entries-Yields keep older_than [] y = (pure-Yields _ y).1
cleanup_entries-Yields keep older_than (f ∷ fs) y = bind-Yields _ _ y λ first t₁ head y₁.
    bind-Yields _ _ y₁ λ rest t₂ tail z.
      (pure-Yields _ z).1
      ∙ cleanup_entries-Yields keep older_than fs tail
      ∙ cleanup_entry-Yields keep older_than f head

pub cleanup_orphans-Yields :
    (keep : List Text) (older_than : Instant) {n : ℕ} {t t' : Tables}
    → Yields (cleanup_orphans keep older_than) t n t'
    → t' ≡ t
unfolding cleanup_orphans gets_files
cleanup_orphans-Yields keep older_than y = attempt->> _ _ y λ y₁.
    bind-Yields _ _ y₁ λ entries t₁ head tail.
      cleanup_entries-Yields keep older_than entries tail ∙ tables-Yields _ (λ w. refl) head
