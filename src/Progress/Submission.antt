-- ===== src/Progress/Submission.antt =====
-- internal/progress/types.go and service.go: what the creation of a diary update is given, and the parts
-- of which it is made. A validation error's field is without the index of the file.
use project_progress_registe.Base.{
  ℕ, Bool, true, false, not, ◌&&◌, Option, none, some, List, [], ◌∷◌, map, ltb, if◌then◌else◌,
}
use project_progress_registe.Text.{Text, codes, text_eq, byte_len}
use project_progress_registe.Schema.{
  Uuid, Instant, ReportedLocation, Evidence, LocationStatus, not_supplied, unverified_unavailable,
  unverified_no_geofence, unverified_accuracy, unverified_outside, verified, MediaKind, Source,
  camera, upload, Verification, not_media,
}
use project_progress_registe.Db.{
  Db, Error, Result, ok, err, World, db, run, validation, file_too_large, file_empty,
  type_not_allowed, policy_changed, conflict, pure, raise, ◌>>=◌, ◌>>◌,
}
use project_progress_registe.Base.{String}
use project_progress_registe.Filestore.Store.{StagedFile, discard_staged}
use project_progress_registe.Progress.Types.{AttachmentPersistence}
use project_progress_registe.Progress.Evidence.{attachment_verification}
use project_progress_registe.Progress.Recovery.{caught}

pub record AttachmentDescriptor : Type 0 where
  pub source : Text
  pub browser_last_modified_at : Option Instant

pub record CreateMetadata : Type 0 where
  pub content_markdown : Text
  pub location : Option ReportedLocation
  pub location_unavailable_reason : Option Text
  pub attachments : Option (List AttachmentDescriptor)

-- `Open` is the bytes that the reader gives, or none where it is nil.
pub record UploadFile : Type 0 where
  pub original_name : Text
  pub reported_mime : Text
  pub content : Option (List ℕ)

-- What the digest of a request is taken of: an attachment without its storage key.
pub record HashAttachment : Type 0 where
  pub original_name : Text
  pub reported_mime : Text
  pub detected_mime : Text
  pub media_kind : MediaKind
  pub source : Source
  pub verification : Verification
  pub size_bytes : ℕ
  pub sha256 : Text
  pub browser_last_modified_at : Option Instant

pub record HashPayload : Type 0 where
  pub project_id : Uuid
  pub task_id : Uuid
  pub content : Text
  pub evidence : Evidence
  pub attachments : List HashAttachment

abbrev pub to_source : Text → Option Source
to_source s =
    if text_eq s (codes "camera")
    then some camera
    else if text_eq s (codes "upload")
    then some upload
    else none

-- `mapStorageError`
unfoldable pub map_storage_error : Error → Error
map_storage_error file_too_large = validation "files"
map_storage_error file_empty = validation "files"
map_storage_error type_not_allowed = validation "files"
map_storage_error e = e

abbrev pub or_mapped : Result StagedFile → Result StagedFile
or_mapped (ok file) = ok file
or_mapped (err e) = err (map_storage_error e)

unfoldable pub to_hash_attachment : AttachmentPersistence → HashAttachment
to_hash_attachment a = record {
  original_name = a.original_name;
  reported_mime = a.reported_mime;
  detected_mime = a.detected_mime;
  media_kind = a.media_kind;
  source = a.source;
  verification = a.verification;
  size_bytes = a.size_bytes;
  sha256 = a.sha256;
  browser_last_modified_at = a.browser_last_modified_at;
}

abbrev pub to_hash_payload :
    Uuid → Uuid → Text → Evidence → List AttachmentPersistence → HashPayload
to_hash_payload project task content evidence attachments = record {
  project_id = project;
  task_id = task;
  content = content;
  evidence = evidence;
  attachments = map to_hash_attachment attachments;
}

-- `_ = s.storage.DiscardStaged(…)` of each file.
unfoldable pub discard_all : List AttachmentPersistence → Db (Unit {0})
discard_all [] = pure tt
discard_all (a ∷ rest) = do ignored ← caught (discard_staged a.storage_key); discard_all rest

unfoldable pub settle_discard :
    {A : Type 0} → List AttachmentPersistence → Result A × World → Result A × World
settle_discard staged (ok a, w) = (ok a, w)
settle_discard staged (err e, w) = run (discard_all staged >> raise e) w

-- The deferred removal, for an error before the database owns the files.
unfoldable pub discarding : {A : Type 0} → List AttachmentPersistence → Db A → Db A
discarding staged m = db (λ w. settle_discard staged (run m w))

-- The verification is set before each attempt at the database.
abbrev pub to_persistence : Source → AttachmentDescriptor → StagedFile → AttachmentPersistence
to_persistence source d file = record {
  original_name = file.original_name;
  reported_mime = file.reported_mime;
  detected_mime = file.detected_mime;
  media_kind = file.media_kind;
  source = source;
  verification = not_media;
  size_bytes = file.size_bytes;
  sha256 = file.sha256;
  browser_last_modified_at = d.browser_last_modified_at;
  storage_key = file.storage_key;
}

abbrev pub set_verification : LocationStatus → AttachmentPersistence → AttachmentPersistence
set_verification status a = record a {
  verification = attachment_verification a.media_kind a.source status;
}

unfoldable pub status_name : LocationStatus → String
status_name not_supplied = "not_supplied"
status_name unverified_unavailable = "unverified_unavailable"
status_name unverified_no_geofence = "unverified_no_geofence"
status_name unverified_accuracy = "unverified_accuracy"
status_name unverified_outside = "unverified_outside"
status_name verified = "verified"

abbrev pub is_key_length : Text → Bool
is_key_length key = not (ltb (byte_len key) 16) && not (ltb 128 (byte_len key))

-- The policy has changed on both attempts: the client is told of a conflict.
abbrev pub or_conflict : {A : Type 0} → Result A → Result A
or_conflict (ok a) = ok a
or_conflict (err policy_changed) = err conflict
or_conflict (err e) = err e

abbrev pub has_location : Option ReportedLocation → Bool
has_location none = false
has_location (some location) = true
