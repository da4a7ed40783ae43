-- ===== src/Schema.antt =====
-- The tables of the database, as internal/migrations/sql creates them.
mod Values
pub use Values.*
use project_progress_registe.Base.{ℕ, Bool, Option, List, String}
use project_progress_registe.Text.{Text}

pub record AuditRow : Type 0 where
  pub id : Uuid
  pub occurred_at : Instant
  pub event : AuditEvent

pub record UserRow : Type 0 where
  pub id : Uuid
  pub username : Text
  pub email : Text
  pub password_hash : Text
  pub role : Role
  pub enabled : Bool
  pub must_change_password : Bool
  pub created_by : Uuid
  pub created_at : Instant
  pub updated_at : Instant
  pub password_changed_at : Instant
  pub last_login_at : Option Instant
  pub version : ℕ

pub record SessionRow : Type 0 where
  pub id : Uuid
  pub user_id : Uuid
  pub token_hash : Text
  pub expires_at : Instant
  pub revoked_at : Option Instant
  pub created_ip : Text
  pub user_agent : Text

pub record ThrottleRow : Type 0 where
  pub identifier_hash : Text
  pub client_ip : Text
  pub window_started_at : Instant
  pub failure_count : ℕ
  pub blocked_until : Option Instant

pub record ProjectRow : Type 0 where
  pub id : Uuid
  pub name : Text
  pub description_markdown : Text
  pub active : Bool
  pub created_by : Uuid
  pub created_at : Instant
  pub updated_at : Instant
  pub version : ℕ

pub record MemberRow : Type 0 where
  pub project_id : Uuid
  pub user_id : Uuid
  pub added_by : Uuid
  pub added_at : Instant
  pub removed_by : Uuid
  pub removed_at : Option Instant

pub record GeofenceRow : Type 0 where
  pub id : Uuid
  pub project_id : Uuid
  pub version : ℕ
  pub latitude : Double
  pub longitude : Double
  pub radius_metres : Double
  pub max_accuracy_metres : Double
  pub created_by : Uuid
  pub valid_from : Instant
  pub valid_to : Option Instant

pub record TaskRow : Type 0 where
  pub id : Uuid
  pub project_id : Uuid
  pub name : Text
  pub goals_markdown : Text
  pub description_markdown : Text
  pub target_date : Text
  pub created_by : Uuid
  pub created_at : Instant
  pub updated_at : Instant
  pub version : ℕ

pub record ResponsibilityRow : Type 0 where
  pub task_id : Uuid
  pub user_id : Uuid

-- Without the generated key and the time. A revision holds what the task was and what it became.
pub record TaskRevisionRow : Type 0 where
  pub task_id : Uuid
  pub from_version : ℕ
  pub to_version : ℕ
  pub previous_name : Text
  pub previous_goals_markdown : Text
  pub previous_description_markdown : Text
  pub previous_responsible_user_ids : List Uuid
  pub previous_target_date : Text
  pub new_name : Text
  pub new_goals_markdown : Text
  pub new_description_markdown : Text
  pub new_responsible_user_ids : List Uuid
  pub new_target_date : Text
  pub change_reason : String
  pub edited_by : Uuid

pub record UpdateRow : Type 0 where
  pub id : Uuid
  pub task_id : Uuid
  pub content_markdown : Text
  pub created_by : Uuid
  pub idempotency_key : Text
  pub request_sha256 : Text
  pub evidence : Evidence
  pub created_at : Instant
  pub updated_at : Instant
  pub version : ℕ

-- `embedded_metadata` is left out: the program writes an empty object.
pub record AttachmentRow : Type 0 where
  pub id : Uuid
  pub progress_update_id : Uuid
  pub original_name : Text
  pub storage_key : Text
  pub reported_mime : Text
  pub detected_mime : Text
  pub media_kind : MediaKind
  pub source : Source
  pub verification : Verification
  pub size_bytes : ℕ
  pub sha256 : Text
  pub browser_last_modified_at : Option Instant
  pub uploaded_by : Uuid
  pub storage_state : StorageState
  pub failure_reason : Text
  pub created_at : Instant
  pub available_at : Option Instant

pub record RevisionRow : Type 0 where
  pub id : Uuid
  pub progress_update_id : Uuid
  pub from_version : ℕ
  pub to_version : ℕ
  pub previous_content_markdown : Text
  pub new_content_markdown : Text
  pub edited_by : Uuid
  pub edited_at : Instant

pub record CommentRow : Type 0 where
  pub id : Uuid
  pub progress_update_id : Uuid
  pub content_markdown : Text
  pub created_by : Uuid
  pub created_at : Instant

pub record SuggestionRow : Type 0 where
  pub id : Uuid
  pub comment_id : Uuid
  pub accepted_by : Uuid
  pub accepted_at : Instant

pub record Tables : Type 0 where
  pub users : List UserRow
  pub sessions : List SessionRow
  pub throttles : List ThrottleRow
  pub audit_events : List AuditRow
  pub projects : List ProjectRow
  pub members : List MemberRow
  pub geofences : List GeofenceRow
  pub tasks : List TaskRow
  pub responsibilities : List ResponsibilityRow
  pub task_revisions : List TaskRevisionRow
  pub updates : List UpdateRow
  pub attachments : List AttachmentRow
  pub revisions : List RevisionRow
  pub comments : List CommentRow
  pub suggestions : List SuggestionRow
