-- ===== src/Migrations/Tests.antt =====
-- Migrations on small directories and ledgers.
use project_progress_registe.Base.{ℕ, ◌+◌, ◌≡◌, refl, Bool, true, false, Option, some, [], ◌∷◌, All}
use project_progress_registe.Text.{Text, codes, every, trim_space, trim_left, trim_right, is_space}
use project_progress_registe.Migrations.Load.{
  Migration, Entry, loaded, load, load_entries, sorted, and_load, read_entry, read_version,
  read_body, match_name, match_stem, strip_sql, has_sql_extension, is_digit, is_name_rune,
  decimal_from, sort_migrations, insert_migration,
}
use project_progress_registe.Migrations.Runner.{
  done, Status, Store, is_recorded, up, advance, apply_pending, apply_one, and_then,
  validate_applied,
}
use project_progress_registe.Migrations.Order.{IsAscending, IsRead, load-IsAscending}
use project_progress_registe.Migrations.Upgrade.{IsAdvance, up-IsAdvance, up_complete}

abbrev first_file : Entry
first_file = record { name = codes "000001_users.sql"; is_dir = false; body = some (codes "a") }

abbrev second_file : Entry
second_file = record { name = codes "000002_roles.sql"; is_dir = false; body = some (codes "b") }

abbrev notes : Entry
notes = record { name = codes "README.md"; is_dir = false; body = some [] }

abbrev users : Migration
users = record { version = 1; name = codes "users"; sql = codes "a"; checksum = codes "a" }

abbrev roles : Migration
roles = record { version = 2; name = codes "roles"; sql = codes "b"; checksum = codes "b" }

abbrev same_text : Text → Text
same_text s = s

files_load : load same_text (second_file ∷ notes ∷ first_file ∷ []) ≡ loaded (users ∷ roles ∷ [])
unfolding load load_entries sorted and_load read_entry read_version read_body match_name match_stem
    strip_sql has_sql_extension is_digit is_name_rune every decimal_from sort_migrations
    insert_migration trim_space trim_left trim_right is_space
files_load = refl

load-IsAscending_example :
    IsAscending (users ∷ roles ∷ []) × All (IsRead same_text) (users ∷ roles ∷ [])
load-IsAscending_example =
    load-IsAscending same_text (second_file ∷ notes ∷ first_file ∷ []) files_load

-- A schema is the number of scripts that it has had.
abbrev count_script : Text → ℕ → Option ℕ
count_script script n = some (n + 1)

abbrev steady : ℕ → Bool
steady n = false

abbrev fresh_store : Store count_script steady
fresh_store = record { schema = 0; initialized = false; ledger = []; calls = 0 }

abbrev all_applied : Status
all_applied = record { initialized = true; applied = 2; pending = 0 }

both_run : (up count_script steady (users ∷ roles ∷ []) fresh_store).0 ≡ done all_applied
unfolding up advance apply_pending apply_one and_then validate_applied
both_run = refl

up_complete_example :
    All
      (λ m.
        is_recorded m.version (up count_script steady (users ∷ roles ∷ []) fresh_store).1.ledger
        ≡ true)
      (users ∷ roles ∷ [])
    × (all_applied.pending ≡ 0)
up_complete_example = up_complete count_script steady (users ∷ roles ∷ []) fresh_store both_run

up-IsAdvance_example :
    IsAdvance count_script steady
      (users ∷ roles ∷ [])
      fresh_store
      (up count_script steady (users ∷ roles ∷ []) fresh_store).1
up-IsAdvance_example = up-IsAdvance count_script steady (users ∷ roles ∷ []) fresh_store
