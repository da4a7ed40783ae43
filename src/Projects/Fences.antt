-- ===== src/Projects/Fences.antt =====
-- Geofences: a replacement leaves one current geofence, the next version.
use project_progress_registe.Base.{
  ℕ, ℤ, pos, negsuc, is_pos_of, suc, ◌≡◌, refl, sym, ap, ◌∙◌, true, false, Option, none, some, List,
  [], ◌∷◌, ◌++◌, arith, ◌==◌, ==_refl, find, any, count, update,
}
use mathlib.Core.Path.{subst}
use project_progress_registe.Schema.{Uuid, Instant, AuditEvent, GeofenceRow, Tables}
use project_progress_registe.Db.{ok, World, run}
use project_progress_registe.Db.Steps.{
  Yields, run-Yields, pure-Yields, transaction-Yields, query->>=, gets->>=, now->>=, fresh_id->>=,
  attempt->>, modify->>, raise_if->>, insert_audit->>, then-Yields, exec-Yields, raise_if-Yields,
}
use project_progress_registe.Projects.Types.{Geofence, ReplaceGeofenceInput}
use project_progress_registe.Projects.Store.{
  Rounding, is_current_geofence, to_geofence, current_geofence, geofence_of, has_project_id,
  lock_project, version_of, close_current, clashes_geofence, new_geofence_row, replace_geofence_row,
}

-- The geofences once the current one, if any, is closed.
abbrev pub closed_geofences : Option GeofenceRow → Instant → List GeofenceRow → List GeofenceRow
closed_geofences none at rows = rows
closed_geofences (some old) at rows =
    update (λ row. row.id == old.id) (λ row. record row { valid_to = some at }) rows

pub record Replaced (project : Uuid) (input : ReplaceGeofenceInput) (t : Tables) (g : Geofence)
    (t' : Tables) : Type 0 where
  pub row : GeofenceRow
  pub closed : Instant
  pub known : any (has_project_id project) t.projects ≡ true
  pub expected :
      input.expected_version ≡ pos (version_of (find (is_current_geofence project) t.geofences))
  pub version : row.version ≡ suc (version_of (find (is_current_geofence project) t.geofences))
  pub geofences :
      t'.geofences
      ≡ closed_geofences (find (is_current_geofence project) t.geofences) closed t.geofences
        ++ row ∷ []
  pub only : count (is_current_geofence project) t'.geofences ≡ 1
  pub current : current_geofence project t' ≡ some g
  pub returned : g ≡ to_geofence row

close_current-Yields :
    (current : Option GeofenceRow) (at : Instant) {t t' : Tables}
    → Yields (close_current current at) t tt t'
    → t' ≡ record t { geofences = closed_geofences current at t.geofences }
unfolding close_current
close_current-Yields none at y = (pure-Yields _ y).1
close_current-Yields (some row) at y = exec-Yields _ y

pub lock_project-Yields :
    (project : Uuid) {t t' : Tables}
    → Yields (lock_project project) t tt t'
    → (any (has_project_id project) t.projects ≡ true) × (t' ≡ t)
unfolding lock_project
lock_project-Yields project y =
    query->>= _ _ y
      λ y₁. let (there, same) = raise_if-Yields _ _ y₁ in (ground (arith, there), same)

count-last :
    (project : Uuid) (rows : List GeofenceRow) (row : GeofenceRow)
    → any (is_current_geofence project) rows ≡ false
    → is_current_geofence project row ≡ true
    → count (is_current_geofence project) (rows ++ row ∷ []) ≡ 1
count-last project [] row h e = ground (arith, e)
count-last project (x ∷ rows) row h e = ground (arith, count-last project rows row)

find-last :
    (project : Uuid) (rows : List GeofenceRow) (row : GeofenceRow)
    → any (is_current_geofence project) rows ≡ false
    → is_current_geofence project row ≡ true
    → find (is_current_geofence project) (rows ++ row ∷ []) ≡ some row
find-last project [] row h e = ground (arith, e)
find-last project (x ∷ rows) row h e = ground (arith, find-last project rows row)

none_current :
    (id project : Uuid) (version : ℕ) (rows : List GeofenceRow)
    → any (clashes_geofence id project version) rows ≡ false
    → any (is_current_geofence project) rows ≡ false
none_current id project version [] h = refl
none_current id project version (x ∷ rows) h = ground (arith, none_current id project version rows)

is_pos_of_lem : (n : ℕ) (k : ℤ) → is_pos_of n k ≡ true → k ≡ pos n
is_pos_of_lem n (pos k) h = ground (arith, h)
is_pos_of_lem n (negsuc k) h = cc

module _ (r : Rounding) (project : Uuid) (input : ReplaceGeofenceInput) (event : AuditEvent) where
  replace_geofence_row-Yields :
      {t t' : Tables} {g : Geofence}
      → Yields (replace_geofence_row r project input event) t g t'
      → Replaced project input t g t'
  unfolding replace_geofence_row
  replace_geofence_row-Yields {t} {t'} {g} y =
      then-Yields _ _ (transaction-Yields _ y) λ t₁ locked y₁. query->>= _ _ y₁ λ y₂.
        raise_if->> _ _ _ y₂ λ versioned y₃. now->>= _ y₃ λ closed y₄.
          then-Yields _ _ y₄ λ t₂ closing y₅. fresh_id->>= _ y₅ λ id y₆. now->>= _ y₆ λ at y₇.
            attempt->> _ _ y₇ λ y₈. gets->>= _ _ y₈ λ y₉. raise_if->> _ _ _ y₉ λ free z₁.
              modify->> _ _ z₁ λ z₂. insert_audit->> _ _ z₂ λ audit audited z₃.
                let (known, same) = lock_project-Yields project locked in
                let closing_eq = close_current-Yields _ closed closing in
                let (returned, tables) = pure-Yields _ z₃ in
                let old = find (is_current_geofence project) t₁.geofences in
                let row =
                  new_geofence_row r id project (suc (version_of old)) input event.actor_user_id
                    at in
                let matches : input.expected_version ≡ pos (version_of old) =
                  is_pos_of_lem (version_of old) input.expected_version
                    (ground (arith, versioned)) in
                let added = ap (λ (v : Tables). v.geofences) tables in
                let open_row : is_current_geofence project row ≡ true =
                  ground (arith, ==_refl project) in
                let none_open = none_current id project (suc (version_of old)) t₂.geofences free in
                subst (λ v. Replaced project input v g t') same
                  (record {
                    row = row;
                    closed = closed;
                    known =
                        ap (λ (v : Tables). any (has_project_id project) v.projects) same ∙ known;
                    expected = matches;
                    version = refl;
                    geofences = added ∙ ap (λ (v : Tables). v.geofences ++ row ∷ []) closing_eq;
                    only =
                        ap (count (is_current_geofence project)) added
                        ∙ count-last project t₂.geofences row none_open open_row;
                    current =
                        ap (λ rows. geofence_of (find (is_current_geofence project) rows)) added
                        ∙ ap geofence_of (find-last project t₂.geofences row none_open open_row)
                        ∙ ap (λ v. some v) (sym returned);
                    returned = returned;
                  })

  -- A geofence replacement that returns: the project exists, its current geofence had the expected
  -- version (0 without one), that one alone is closed and every earlier row is kept, and the returned
  -- geofence, with the next version, is now the project's only current one.
  pub replace_geofence_row-Replaced :
      (w : World) {g : Geofence}
      → (run (replace_geofence_row r project input event) w).0 ≡ ok g
      → Replaced project input w.tables g
          (run (replace_geofence_row r project input event) w).1.tables
  replace_geofence_row-Replaced w h =
      replace_geofence_row-Yields (run-Yields (replace_geofence_row r project input event) w h)
