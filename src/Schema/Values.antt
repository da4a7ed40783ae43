-- ===== src/Schema/Values.antt =====
-- The values of the columns. A uuid is its 128-bit value: 0, which is no version-4 uuid, stands for the
-- empty identifier of a Go zero value. An instant is a number of nanoseconds. A double is its bit
-- pattern. The evidence of a diary update is that of internal/progress/types.go.
use project_progress_registe.Base.{ℕ, Bool, Option, List, String}
use project_progress_registe.Text.{Text}

abbrev pub Uuid : Type 0
Uuid = ℕ

abbrev pub no_id : Uuid
no_id = 0

abbrev pub Instant : Type 0
Instant = ℕ

abbrev pub Double : Type 0
Double = ℕ

pub data Role : Type 0 where
  admin member : Role

-- A value of a JSON object of audit details.
pub data Detail : Type 0 where
  text : Text → Detail
  tag : String → Detail
  uuid : Uuid → Detail
  uuids : List Uuid → Detail
  num : ℕ → Detail
  flag : Bool → Detail
  a_role : Role → Detail

-- identity.AuditContext
pub record AuditContext : Type 0 where
  pub request_id : Text
  pub client_ip : Text
  pub user_agent : Text

pub data AuditOutcome : Type 0 where
  succeeded failed denied : AuditOutcome

-- An audit event as the services build it; the row adds its id and time.
pub record AuditEvent : Type 0 where
  pub actor_user_id : Uuid
  pub action : String
  pub target_type : String
  pub target_id : Uuid
  pub outcome : AuditOutcome
  pub context : AuditContext
  pub details : List (String × Detail)

pub record ReportedLocation : Type 0 where
  pub latitude : Double
  pub longitude : Double
  pub accuracy_metres : Double
  pub browser_observed_at : Option Instant

pub record GeofenceSnapshot : Type 0 where
  pub id : Uuid
  pub version : ℕ
  pub latitude : Double
  pub longitude : Double
  pub radius_metres : Double
  pub max_accuracy_metres : Double

-- The values of `LocationStatus`; each has its one `LocationReason`.
pub data LocationStatus : Type 0 where
  not_supplied unverified_unavailable unverified_no_geofence : LocationStatus
  unverified_accuracy unverified_outside verified : LocationStatus

pub record Evidence : Type 0 where
  pub location_status : LocationStatus
  pub reported_location : Option ReportedLocation
  pub location_unavailable_reason : Option Text
  pub geofence : Option GeofenceSnapshot
  pub computed_distance_metres : Option Double

-- The values of `VerificationStatus`, a `non_verified` one with what its reason says.
pub data Verification : Type 0 where
  verified_media : Verification
  not_media not_camera : Verification
  location_not_verified : LocationStatus → Verification

pub data MediaKind : Type 0 where
  image video document : MediaKind

pub data Source : Type 0 where
  camera upload : Source

pub data StorageState : Type 0 where
  pending available failed_storage : StorageState

-- A file of internal/filestore under its storage key, with its bytes.
pub record File : Type 0 where
  pub key : Text
  pub bytes : List ℕ
  pub modified : Instant

-- The directory of the files that are staged, and that of the final ones.
pub record Files : Type 0 where
  pub staging : List File
  pub finals : List File
