-- ===== src/Progress/Types.antt =====
-- internal/progress/types.go: what the browser reports, and its validation.
use project_progress_registe.Base.{ℕ, Bool, ◌||◌, Option, none, some, List, ltb, if◌then◌else◌}
use project_progress_registe.Text.{Text, codes, text_eq, is_blank, byte_len, trim_space}
use project_progress_registe.Schema.{
  Uuid, Instant, ReportedLocation, GeofenceSnapshot, Evidence, MediaKind, Source, Verification,
  StorageState,
}
use project_progress_registe.Db.{Result, ok, err, validation}
use project_progress_registe.Double.{is_outside}

pub record Actor : Type 0 where
  pub user_id : Uuid
  pub username : Text

-- Without the trust notes and the content path, which are constant or empty, and the metadata.
pub record Attachment : Type 0 where
  pub id : Uuid
  pub original_name : Text
  pub storage_key : Text
  pub reported_mime : Text
  pub detected_mime : Text
  pub media_kind : MediaKind
  pub source : Source
  pub verification : Verification
  pub size_bytes : ℕ
  pub sha256 : Text
  pub browser_last_modified_at : Option Instant
  pub storage_state : StorageState
  pub failure_reason : Text
  pub created_at : Instant
  pub available_at : Option Instant

pub record Revision : Type 0 where
  pub id : Uuid
  pub from_version : ℕ
  pub to_version : ℕ
  pub previous_content_markdown : Text
  pub previous_content_html : Text
  pub new_content_markdown : Text
  pub new_content_html : Text
  pub edited_by : Actor
  pub edited_at : Instant

pub record Update : Type 0 where
  pub id : Uuid
  pub project_id : Uuid
  pub task_id : Uuid
  pub content_markdown : Text
  pub content_html : Text
  pub created_by : Actor
  pub evidence : Evidence
  pub attachments : List Attachment
  pub revisions : List Revision
  pub created_at : Instant
  pub updated_at : Instant
  pub version : ℕ

pub record TaskPolicy : Type 0 where
  pub active : Bool
  pub geofence : Option GeofenceSnapshot

-- What an upload hands to the repository.
pub record AttachmentPersistence : Type 0 where
  pub original_name : Text
  pub reported_mime : Text
  pub detected_mime : Text
  pub media_kind : MediaKind
  pub source : Source
  pub verification : Verification
  pub size_bytes : ℕ
  pub sha256 : Text
  pub browser_last_modified_at : Option Instant
  pub storage_key : Text

pub record ProgressPersistence : Type 0 where
  pub content_markdown : Text
  pub idempotency_key : Text
  pub request_sha256 : Text
  pub evidence : Evidence

pub record PendingAttachment : Type 0 where
  pub id : Uuid
  pub storage_key : Text
  pub uploaded_by : Uuid

unfoldable pub validate_content : Text → Result Text
unfolding trim_space byte_len
validate_content value =
    if is_blank (trim_space value) || ltb 50000 (byte_len value)
    then err (validation "content_markdown")
    else ok value

unfoldable pub is_unavailable_reason : Text → Bool
is_unavailable_reason value =
    text_eq value (codes "permission_denied")
    || text_eq value (codes "timeout")
    || text_eq value (codes "unavailable")
    || text_eq value (codes "not_supported")

-- The bounds -90 to 90, -180 to 180 and 0.1 to 100000, as doubles. The result is the reason that
-- `*unavailable` is left with.
unfoldable pub validate_location : Option ReportedLocation → Option Text → Result (Option Text)
unfolding is_outside is_unavailable_reason trim_space
validate_location (some location) (some reason) = err (validation "location")
validate_location (some location) none =
    if is_outside 0xc056800000000000 0x4056800000000000 location.latitude
    then err (validation "location.latitude")
    else if is_outside 0xc066800000000000 0x4066800000000000 location.longitude
    then err (validation "location.longitude")
    else if is_outside 0x3fb999999999999a 0x40f86a0000000000 location.accuracy_metres
    then err (validation "location.accuracy_metres")
    else ok none
validate_location none (some reason) =
    let value = trim_space reason in
    if is_unavailable_reason value
    then ok (some value)
    else err (validation "location_unavailable_reason")
validate_location none none = ok none
