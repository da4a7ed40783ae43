-- ===== src/Filestore/Keeping.antt =====
-- What the operations of the file store leave in the directories, whatever they return.
use project_progress_registe.Base.{
  ◌≡◌, refl, sym, ap, ◌∙◌, inl, inr, Bool, true, false, Bool-cases, some, List, [], ◌∷◌, arith, ltb,
  if◌then◌else◌, find, delete,
}
use mathlib.Core.Path.{subst}
use project_progress_registe.Text.{Text, text_eq}
use project_progress_registe.Text.Laws.{text_eq_iff}
use project_progress_registe.Schema.{Instant, File}
use project_progress_registe.Db.{
  Db, Error, Result, ok, err, World, run, continue, attempt, gets_files, modify_files, branch,
  file_system, ◌>>=◌, ◌>>◌,
}
use project_progress_registe.Filestore.Store.{
  has_file_key, drop_staged, listed, is_skipped, remove_older, cleanup_entry, cleanup_entries,
  cleanup_orphans,
}

-- The tables and the final files are the same, and so is what is staged under the key.
abbrev pub IsKept : Text → World → World → Type 0
IsKept key w w' =
    (w'.tables ≡ w.tables)
    × (w'.files.finals ≡ w.files.finals)
    × (find (has_file_key key) w'.files.staging ≡ find (has_file_key key) w.files.staging)

abbrev pub Keeps : {A : Type 0} → Text → Db A → Type 0
Keeps key m = (w : World) → IsKept key w (run m w).1

continue-IsKept :
    {A B : Type 0} (key : Text) (f : A → Db B) (w₀ : World) (r : Result A × World)
    → IsKept key w₀ r.1
    → ((a : A) → Keeps key (f a))
    → IsKept key w₀ (continue f r).1
continue-IsKept key f w₀ (ok a, w) (tables, finals, staged) k =
    let (tables', finals', staged') = k a w in
    (tables' ∙ tables, finals' ∙ finals, staged' ∙ staged)
continue-IsKept key f w₀ (err e, w) h k = h

bind-Keeps :
    {A B : Type 0} (key : Text) (m : Db A) (f : A → Db B)
    → Keeps key m
    → ((a : A) → Keeps key (f a))
    → Keeps key (m >>= f)
unfolding ◌>>=◌
bind-Keeps key m f h k w = continue-IsKept key f w (run m w) (h w) k

then-Keeps :
    {B : Type 0} (key : Text) (m : Db (Unit {0})) (k : Db B)
    → Keeps key m
    → Keeps key k
    → Keeps key (m >> k)
unfolding ◌>>◌
then-Keeps key m k h h' = bind-Keeps key m (λ _. k) h (λ _. h')

attempt-Keeps : (key : Text) (e : Error) → Keeps key (attempt e)
unfolding attempt
attempt-Keeps key e w = (refl, refl, refl)

find-delete :
    (key other : Text) (files : List File)
    → text_eq key other ≡ false
    → find (has_file_key key) (delete (has_file_key other) files) ≡ find (has_file_key key) files
find-delete key other [] h = refl
find-delete key other (f ∷ files) h = elim (Bool-cases (has_file_key other f)) [
  | inl e ↦
      let same : f.key ≡ other = (text_eq_iff f.key other).0 e in
      let apart : has_file_key key f ≡ false = elim (Bool-cases (text_eq f.key key)) [
        | inl k ↦
            absurd (cc (h, (text_eq_iff key other).1 (sym ((text_eq_iff f.key key).0 k) ∙ same)))
        | inr k ↦ k
      ] in
      rw e (rw apart (find-delete key other files h))
  | inr e ↦
      rw e (ap (λ o. if has_file_key key f then some f else o) (find-delete key other files h))
]

drop-Keeps :
    (key other : Text) → text_eq key other ≡ false → Keeps key (modify_files (drop_staged other))
unfolding modify_files
drop-Keeps key other h w = (refl, refl, find-delete key other w.files.staging h)

apart_lem :
    (keep : List Text) (key other : Text)
    → listed key keep ≡ true
    → listed other keep ≡ false
    → text_eq key other ≡ false
apart_lem keep key other h e = elim (Bool-cases (text_eq key other)) [
  | inl k ↦ absurd (cc (e, subst (λ v. listed v keep ≡ true) ((text_eq_iff key other).0 k) h))
  | inr k ↦ k
]

branch-Keeps :
    {A : Type 0} (key : Text) (b : Bool) (m k : Db A)
    → (b ≡ true → Keeps key m)
    → (b ≡ false → Keeps key k)
    → Keeps key (branch b m k)
unfolding branch
branch-Keeps key true m k h h' = h refl
branch-Keeps key false m k h h' = h' refl

module _ (keep : List Text) (older_than : Instant) (key : Text)
    (kept : listed key keep ≡ true) where
  entry-Keeps : (f : File) → Keeps key (cleanup_entry keep older_than f)
  unfolding cleanup_entry remove_older
  entry-Keeps f =
      branch-Keeps key (is_skipped keep f.key) _ _ (λ e w. (refl, refl, refl))
        λ e. then-Keeps key _ _ (attempt-Keeps key file_system) (
          branch-Keeps key (ltb f.modified older_than) _ _
            (λ old. then-Keeps key _ _ (attempt-Keeps key file_system) (
              then-Keeps key _ _
                (drop-Keeps key f.key (apart_lem keep key f.key kept (ground (arith, e))))
                (λ w. (refl, refl, refl))))
            (λ young w. (refl, refl, refl)))

  entries-Keeps : (fs : List File) → Keeps key (cleanup_entries keep older_than fs)
  unfolding cleanup_entries
  entries-Keeps [] = λ w. (refl, refl, refl)
  entries-Keeps (f ∷ fs) =
      bind-Keeps key _ _ (entry-Keeps f)
        λ first. bind-Keeps key _ _ (entries-Keeps fs) λ rest w. (refl, refl, refl)

  -- A cleanup of orphans, whatever it returns, leaves the tables and the final files alone, and what is
  -- staged under each key that is to be kept.
  pub cleanup_orphans-IsKept :
      (w : World) → IsKept key w (run (cleanup_orphans keep older_than) w).1
  unfolding cleanup_orphans gets_files
  cleanup_orphans-IsKept =
      then-Keeps key _ _ (attempt-Keeps key file_system)
        (bind-Keeps key _ _ (λ w. (refl, refl, refl)) entries-Keeps)
