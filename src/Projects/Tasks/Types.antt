-- ===== src/Projects/Tasks/Types.antt =====
-- internal/projects/task_types.go. An identifier that the pattern accepts is kept as its number: two
-- texts that differ in the case of their digits alone are one identifier after `strings.ToLower`, and
-- the order of the lower-case texts is that of the numbers. `time.Parse` of a date is a parameter. A
-- date that is not set is the empty text, as in `taskPersistenceInput`.
use project_progress_registe.Base.{
  ℕ, ℤ, ◌+◌, ◌-◌, ◌*◌, Bool, false, ◌&&◌, ◌||◌, Option, none, some, List, [], ◌∷◌, ◌++◌, ltb, leb,
  if◌then◌else◌, contains, sort_ids,
}
use project_progress_registe.Text.{Text, byte_len, rune_count, trim_space, to_lower}
use project_progress_registe.Schema.{Uuid, Instant}
use project_progress_registe.Db.{Result, ok, err, validation}

pub record TaskActor : Type 0 where
  pub user_id : Uuid
  pub username : Text

pub record ResponsibleMember : Type 0 where
  pub user_id : Uuid
  pub username : Text
  pub enabled : Bool

pub record Task : Type 0 where
  pub id : Uuid
  pub project_id : Uuid
  pub name : Text
  pub goals_markdown : Text
  pub goals_html : Text
  pub description_markdown : Text
  pub description_html : Text
  pub created_by : TaskActor
  pub responsible_members : List ResponsibleMember
  pub target_date : Text
  pub created_at : Instant
  pub updated_at : Instant
  pub version : ℕ

-- A required field of an update: omitted, null or a text.
pub data NullableString : Type 0 where
  omitted null : NullableString
  value : Text → NullableString

pub record CreateTaskInput : Type 0 where
  pub name : Text
  pub goals_markdown : Text
  pub description_markdown : Text
  pub responsible_user_id : Option Text
  pub target_date : Option Text

pub record UpdateTaskInput : Type 0 where
  pub name : Text
  pub goals_markdown : Text
  pub description_markdown : Text
  pub responsible_user_id : NullableString
  pub target_date : NullableString
  pub expected_version : ℤ

pub record CreateTaskV2Input : Type 0 where
  pub name : Text
  pub goals_markdown : Text
  pub description_markdown : Text
  pub responsible_user_ids : List Text
  pub target_date : Option Text

pub record UpdateTaskV2Input : Type 0 where
  pub name : Text
  pub goals_markdown : Text
  pub description_markdown : Text
  pub responsible_user_ids : Option (List Text)
  pub target_date : NullableString
  pub expected_version : ℤ

pub record TaskPersistenceInput : Type 0 where
  pub name : Text
  pub goals_markdown : Text
  pub description_markdown : Text
  pub responsible_user_ids : List Uuid
  pub target_date : Text
  pub expected_version : ℕ
  pub legacy_singular : Bool

-- The value of a hexadecimal digit.
abbrev pub hex_value : ℕ → Option ℕ
hex_value c =
    if leb b'0' c && leb c b'9'
    then some (c - b'0')
    else if leb b'a' c && leb c b'f'
    then some (c - b'a' + 10)
    else if leb b'A' c && leb c b'F'
    then some (c - b'A' + 10)
    else none

-- The places of the pattern: a hyphen, any digit, or a digit within bounds.
pub data Place : Type 0 where
  hyphen digit : Place
  between : ℕ → ℕ → Place

abbrev pub task_uuid_pattern : List Place
task_uuid_pattern =
    digit
    ∷ digit
    ∷ digit
    ∷ digit
    ∷ digit
    ∷ digit
    ∷ digit
    ∷ digit
    ∷ hyphen
    ∷ digit
    ∷ digit
    ∷ digit
    ∷ digit
    ∷ hyphen
    ∷ between 1 5
    ∷ digit
    ∷ digit
    ∷ digit
    ∷ hyphen
    ∷ between 8 11
    ∷ digit
    ∷ digit
    ∷ digit
    ∷ hyphen
    ∷ digit
    ∷ digit
    ∷ digit
    ∷ digit
    ∷ digit
    ∷ digit
    ∷ digit
    ∷ digit
    ∷ digit
    ∷ digit
    ∷ digit
    ∷ digit
    ∷ []

abbrev pub within : ℕ → ℕ → Option ℕ → Option ℕ
within low high none = none
within low high (some d) = if leb low d && leb d high then some d else none

-- The number with one more digit at its end.
abbrev pub add_digit : ℕ → Option ℕ → Option ℕ
add_digit n none = none
add_digit n (some d) = some (n * 16 + d)

abbrev pub digit_at : Place → ℕ → ℕ → Option ℕ
digit_at hyphen n c = if leb b'-' c && leb c b'-' then some n else none
digit_at digit n c = add_digit n (hex_value c)
digit_at (between low high) n c = add_digit n (within low high (hex_value c))

abbrev pub match_places : List Place → ℕ → Text → Option Uuid
match_places [] n [] = some n
match_places [] n (c ∷ s) = none
match_places (p ∷ ps) n [] = none
match_places (p ∷ ps) n (c ∷ s) = elim (digit_at p n c) [
  | none ↦ none
  | some m ↦ match_places ps m s
]

-- `taskUUIDPattern`, and the number that a text of that form stands for.
unfoldable pub task_uuid : Text → Option Uuid
task_uuid s = match_places task_uuid_pattern 0 s

-- One round of the loop over the responsible users.
unfoldable pub add_responsible : List Uuid → Option Uuid → Result (List Uuid)
add_responsible ids none = err (validation "responsible_user_ids")
add_responsible ids (some id) =
    if contains id ids then err (validation "responsible_user_ids") else ok (ids ++ id ∷ [])

module _ (lower : ℕ → ℕ) where
  unfoldable pub collect_responsible : List Uuid → List Text → Result (List Uuid)
  unfolding add_responsible task_uuid to_lower trim_space
  collect_responsible ids [] = ok ids
  collect_responsible ids (raw ∷ raws) =
      elim (add_responsible ids (task_uuid (to_lower lower (trim_space raw)))) [
        | err e ↦ err e
        | ok more ↦ collect_responsible more raws
      ]

-- `if targetDate != nil`
unfoldable pub validate_target_date : (Text → Bool) → Option Text → Result Text
unfolding trim_space
validate_target_date is_date none = ok []
validate_target_date is_date (some date) =
    if is_date (trim_space date) then ok (trim_space date) else err (validation "target_date")

abbrev pub persistence :
    Text → Text → Text → Result (List Uuid) → Result Text → Result TaskPersistenceInput
persistence name goals description (err e) date = err e
persistence name goals description (ok ids) (err e) = err e
persistence name goals description (ok ids) (ok date) = ok (record {
  name = name;
  goals_markdown = goals;
  description_markdown = description;
  responsible_user_ids = sort_ids ids;
  target_date = date;
  expected_version = 0;
  legacy_singular = false;
})

unfoldable pub validate_task :
    (ℕ → ℕ)
    → (Text → Bool)
    → Text
    → Text
    → Text
    → List Text
    → Option Text
    → Result TaskPersistenceInput
unfolding collect_responsible validate_target_date trim_space rune_count byte_len
validate_task lower is_date name goals description responsible date =
    let trimmed = trim_space name in
    if ltb (rune_count trimmed) 1 || ltb 160 (rune_count trimmed)
    then err (validation "name")
    else if ltb 20000 (byte_len goals)
    then err (validation "goals_markdown")
    else if ltb 50000 (byte_len description)
    then err (validation "description_markdown")
    else persistence trimmed goals description (collect_responsible lower [] responsible)
        (validate_target_date is_date date)
