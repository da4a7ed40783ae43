-- ===== src/Filestore/Tests.antt =====
-- The file store on small concrete directories.
use project_progress_registe.Base.{refl, [], ◌∷◌}
use project_progress_registe.Text.{Text, codes}
use project_progress_registe.Db.{World, run}
use project_progress_registe.Identity.Tests.{no_tables, calm}
use project_progress_registe.Filestore.Store.{cleanup_orphans}
use project_progress_registe.Filestore.Keeping.{IsKept, cleanup_orphans-IsKept}

abbrev pub first_key : Text
first_key = codes "00000000000000000000000000000000000000000000000000000000000000aa"

abbrev second_key : Text
second_key = codes "00000000000000000000000000000000000000000000000000000000000000bb"

abbrev pub staged_world : World
staged_world = record {
  env = calm;
  calls = 0;
  files = record {
    staging =
        record { key = first_key; bytes = 1 ∷ 2 ∷ []; modified = 5 }
        ∷ record { key = second_key; bytes = 3 ∷ []; modified = 6 }
        ∷ [];
    finals = [];
  };
  tables = no_tables;
}

abbrev after_cleanup : World
after_cleanup = (run (cleanup_orphans (first_key ∷ []) 10) staged_world).1

cleanup_orphans-IsKept_example : IsKept first_key staged_world after_cleanup
cleanup_orphans-IsKept_example =
    cleanup_orphans-IsKept (first_key ∷ []) 10 first_key refl staged_world
