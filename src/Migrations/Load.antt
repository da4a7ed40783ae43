-- ===== src/Migrations/Load.antt =====
-- internal/migrations/migrations.go: `Load`. A directory is the list of its entries, in the order that
-- the file system gives, with what reading each one gives; that the directory itself cannot be read,
-- which `Load` passes on, is left out.
use project_progress_registe.Base.{
  ℕ, ◌+◌, ◌-◌, ◌*◌, Bool, true, false, not, ◌&&◌, ◌||◌, Option, none, some, List, [], ◌∷◌, ◌++◌,
  ltb, leb, ◌==◌, if◌then◌else◌, any,
}
use project_progress_registe.Text.{Text, codes, text_eq, is_blank, trim_space, every}

pub record Migration : Type 0 where
  pub version : ℕ
  pub name : Text
  pub sql : Text
  pub checksum : Text

-- `body` is none where `fs.ReadFile` fails.
pub record Entry : Type 0 where
  pub name : Text
  pub is_dir : Bool
  pub body : Option Text

pub data LoadError : Type 0 where
  invalid_name invalid_version duplicated unreadable empty : LoadError

pub data Loaded (A : Type 0) : Type 0 where
  loaded : A → Loaded A
  failed : LoadError → Loaded A

unfoldable pub is_digit : ℕ → Bool
is_digit c = leb b'0' c && leb c b'9'

unfoldable pub is_name_rune : ℕ → Bool
unfolding is_digit
is_name_rune c = (leb b'a' c && leb c b'z') || is_digit c || c == b'_'

-- The part before `.sql` at the end, if that ends it.
unfoldable pub strip_sql : Text → Option Text
strip_sql [] = none
strip_sql (c ∷ s) =
    let rest = strip_sql s in
    if text_eq (c ∷ s) (codes ".sql")
    then some []
    else elim rest [ none ↦ none | some stem ↦ some (c ∷ stem) ]

-- `filepath.Ext(name) == ".sql"`: the last dot of the name is that of `.sql`.
unfoldable pub has_sql_extension : Text → Bool
unfolding strip_sql
has_sql_extension name = elim (strip_sql name) [ none ↦ false | some stem ↦ true ]

-- The decimal value of digits.
unfoldable pub decimal_from : ℕ → Text → ℕ
decimal_from n [] = n
decimal_from n (c ∷ s) = decimal_from (n * 10 + (c - b'0')) s

-- `^(\d{6})_([a-z0-9_]+)\.sql$`: the digits and the name.
unfoldable pub match_stem : Text → Option (Text × Text)
unfolding every is_digit is_name_rune
match_stem (a ∷ b ∷ c ∷ d ∷ e ∷ f ∷ sep ∷ first ∷ name) =
    let digits : Text = a ∷ b ∷ c ∷ d ∷ e ∷ f ∷ [] in
    if every is_digit digits && sep == b'_' && every is_name_rune (first ∷ name)
    then some (digits, first ∷ name)
    else none
match_stem _ = none

unfoldable pub match_name : Text → Option (Text × Text)
unfolding strip_sql match_stem
match_name name = elim (strip_sql name) [ none ↦ none | some stem ↦ match_stem stem ]

abbrev pub has_version : ℕ → Migration → Bool
has_version version m = m.version == version

-- Insertion in the order of versions.
unfoldable pub insert_migration : Migration → List Migration → List Migration
insert_migration m [] = m ∷ []
insert_migration m (x ∷ xs) =
    let rest = insert_migration m xs in if ltb m.version x.version then m ∷ x ∷ xs else x ∷ rest

unfoldable pub sort_migrations : List Migration → List Migration
unfolding insert_migration
sort_migrations [] = []
sort_migrations (x ∷ xs) = insert_migration x (sort_migrations xs)

unfoldable pub and_load :
    (Migration → Loaded (List Migration)) → Loaded Migration → Loaded (List Migration)
and_load k (failed e) = failed e
and_load k (loaded m) = k m

unfoldable pub sorted : Loaded (List Migration) → Loaded (List Migration)
sorted (failed e) = failed e
sorted (loaded found) = loaded (sort_migrations found)

module _ (digest : Text → Text) where
  -- The file of a version, after the migrations in `seen`.
  unfoldable pub read_body : Text → ℕ → Option Text → Loaded Migration
  unfolding trim_space
  read_body name version none = failed unreadable
  read_body name version (some body) =
      if is_blank (trim_space body)
      then failed empty
      else loaded (record { version = version; name = name; sql = body; checksum = digest body })

  unfoldable pub read_version : List Migration → Text → ℕ → Option Text → Loaded Migration
  read_version seen name version body =
      if not (ltb 0 version)
      then failed invalid_version
      else if any (has_version version) seen
      then failed duplicated
      else read_body name version body

  -- One entry whose name ends in `.sql`: its name is matched first.
  unfoldable pub read_entry : List Migration → Option (Text × Text) → Option Text → Loaded Migration
  read_entry seen none body = failed invalid_name
  read_entry seen (some (digits, name)) body = read_version seen name (decimal_from 0 digits) body

  unfoldable pub load_entries : List Migration → List Entry → Loaded (List Migration)
  load_entries seen [] = loaded seen
  load_entries seen (entry ∷ entries) =
      if entry.is_dir || not (has_sql_extension entry.name)
      then load_entries seen entries
      else and_load (λ m. load_entries (seen ++ m ∷ []) entries)
          (read_entry seen (match_name entry.name) entry.body)

  unfoldable pub load : List Entry → Loaded (List Migration)
  load entries = sorted (load_entries [] entries)
