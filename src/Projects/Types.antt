-- ===== src/Projects/Types.antt =====
-- internal/projects/types.go: projects, geofences, members, and the validation of what is written.
use project_progress_registe.Base.{
  none, some, ℕ, ℤ, at_least, Bool, ◌||◌, Option, ltb, if◌then◌else◌,
}
use project_progress_registe.Text.{Text, byte_len, rune_count, trim_space}
use project_progress_registe.Schema.{Uuid, Instant, Double}
use project_progress_registe.Db.{Result, ok, err, validation}
use project_progress_registe.Double.{is_outside}

pub record Geofence : Type 0 where
  pub id : Uuid
  pub version : ℕ
  pub latitude : Double
  pub longitude : Double
  pub radius_metres : Double
  pub max_accuracy_metres : Double
  pub valid_from : Instant

pub record Project : Type 0 where
  pub id : Uuid
  pub name : Text
  pub description_markdown : Text
  pub description_html : Text
  pub active : Bool
  pub created_by : Uuid
  pub created_at : Instant
  pub updated_at : Instant
  pub version : ℕ
  pub geofence : Option Geofence

pub record Member : Type 0 where
  pub user_id : Uuid
  pub username : Text
  pub email : Text
  pub enabled : Bool
  pub added_at : Instant

pub record CreateProjectInput : Type 0 where
  pub name : Text
  pub description_markdown : Text

pub record UpdateProjectInput : Type 0 where
  pub name : Text
  pub description_markdown : Text
  pub active : Option Bool
  pub expected_version : ℤ

pub record ReplaceGeofenceInput : Type 0 where
  pub latitude : Double
  pub longitude : Double
  pub radius_metres : Double
  pub max_accuracy_metres : Double
  pub expected_version : ℤ

unfoldable pub validate_project : Text → Text → Result (Text × Text)
unfolding trim_space rune_count byte_len
validate_project name description =
    let trimmed = trim_space name in
    if ltb (rune_count trimmed) 1 || ltb 120 (rune_count trimmed)
    then err (validation "name")
    else if ltb 20000 (byte_len description)
    then err (validation "description_markdown")
    else ok (trimmed, description)

-- The bounds -90 to 90, -180 to 180, 1 to 100000 and 0.1 to 10000, as
-- doubles.
unfoldable pub validate_geofence : ReplaceGeofenceInput → Result (Unit {0})
unfolding is_outside
validate_geofence input =
    if is_outside 0xc056800000000000 0x4056800000000000 input.latitude
    then err (validation "latitude")
    else if is_outside 0xc066800000000000 0x4066800000000000 input.longitude
    then err (validation "longitude")
    else if is_outside 0x3ff0000000000000 0x40f86a0000000000 input.radius_metres
    then err (validation "radius_metres")
    else if is_outside 0x3fb999999999999a 0x40c3880000000000 input.max_accuracy_metres
    then err (validation "max_accuracy_metres")
    else elim (at_least 0 input.expected_version) [
      | none ↦ err (validation "expected_version")
      | some expected ↦ ok tt
    ]
