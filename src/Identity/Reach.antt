-- ===== src/Identity/Reach.antt =====
-- Histories of the identity repository: the first administrator, and the transitions after it.
use project_progress_registe.Base.{◌≡◌, sym, ap, ◌∙◌, true, List, [], ◌∷◌, ◌++◌, arith, is_empty}
use mathlib.Core.Path.{subst}
use project_progress_registe.Schema.{admin, AuditEvent, UserRow, Tables}
use project_progress_registe.Db.{ok, World, run}
use project_progress_registe.Db.Steps.{run-Yields}
use project_progress_registe.Identity.Types.{User, NewUser}
use project_progress_registe.Identity.Accounts.{bootstrap_admin, bootstrap_input, new_row}
use project_progress_registe.Identity.Ops.{Op, perform, bootstrap_admin-Yields}
use project_progress_registe.Identity.Invariant.{IsSound, IsSoundUsers, perform-IsSound}

-- Transitions one after the other, whatever each of them returns.
unfoldable pub perform_all : List Op → World → World
perform_all [] w = w
perform_all (op ∷ ops) w = perform_all ops (run (perform op) w).1

perform_all-IsSound :
    (ops : List Op) (w : World) → IsSound w.tables → IsSound (perform_all ops w).tables
unfolding perform_all
perform_all-IsSound [] w s = s
perform_all-IsSound (op ∷ ops) w s = perform_all-IsSound ops _ (perform-IsSound op w s)

first_row : (us : List UserRow) (u : UserRow) → is_empty us ≡ true → us ++ u ∷ [] ≡ u ∷ []
first_row us u h = ground arith

-- After the first administrator was created, which succeeds only without accounts, every history of
-- transitions keeps the account keys distinct and an enabled administrator in place.
pub bootstrap_admin-IsSound_always :
    (input : NewUser) (event : AuditEvent) (ops : List Op) (w : World) {u : User}
    → input.role ≡ admin
    → (run (bootstrap_admin input event) w).0 ≡ ok u
    → (is_empty w.tables.users ≡ true)
      × IsSound (perform_all ops (run (bootstrap_admin input event) w).1).tables
bootstrap_admin-IsSound_always input event ops w e h =
    let (id, at, row, empty, free, made, audited, tables) =
      bootstrap_admin-Yields input event (run-Yields (bootstrap_admin input event) w h) in
    let sound : IsSound (run (bootstrap_admin input event) w).1.tables =
      subst IsSoundUsers
        (sym (
          ap (λ (v : Tables). v.users) tables
          ∙ first_row w.tables.users (new_row id at (bootstrap_input input)) empty))
        ((tt, tt), ground (arith, e)) in
    (empty, perform_all-IsSound ops _ sound)
