-- ===== src/Progress/Create.antt =====
-- internal/progress/service.go: the creation of a diary update. Its files are staged first; the database
-- is asked twice at most; and then the files become final.
use project_progress_registe.Base.{
  ℕ, Bool, true, false, not, ◌&&◌, Option, List, [], ◌∷◌, ◌++◌, map, ltb, ◌==◌, length,
}
use project_progress_registe.Text.{Text, trim_space}
use project_progress_registe.Schema.{
  Uuid, no_id, uuid, tag, num, AuditContext, AuditEvent, succeeded, Evidence, ReportedLocation,
}
use project_progress_registe.Db.{
  Db, Result, err, validation, file_system, policy_changed, lift, pure, raise_if, or_raise, attempt,
  ◌>>=◌, ◌>>◌,
}
use project_progress_registe.Identity.Types.{User, is_admin}
use project_progress_registe.Identity.Service.{event_of}
use project_progress_registe.Projects.Tasks.Service.{or_denied}
use project_progress_registe.Filestore.Store.{stage}
use project_progress_registe.Progress.Types.{
  Update, TaskPolicy, AttachmentPersistence, validate_content, validate_location,
}
use project_progress_registe.Progress.Evidence.{
  Floats, is_camera, is_camera_media, evaluate_evidence,
}
use project_progress_registe.Progress.Store.{get_task_policy}
use project_progress_registe.Progress.Updates.{create_update_row}
use project_progress_registe.Progress.Recovery.{caught, complete_attachments}
use project_progress_registe.Progress.Service.{require_access, audit_progress_denied, render_update}
use project_progress_registe.Progress.Submission.{
  AttachmentDescriptor, CreateMetadata, UploadFile, HashPayload, to_source, or_mapped,
  to_hash_payload, discard_all, discarding, to_persistence, set_verification, status_name,
  is_key_length, or_conflict, has_location,
}

-- The limits, and what the program calls: the case table of Unicode, the sniffer, SHA-256 in
-- hexadecimal, the encoding of a key, the JSON of a request (none where a number has no JSON), the
-- arithmetic of doubles and the Markdown renderer.
pub record Uploads : Type 0 where
  pub max_bytes : ℕ
  pub max_files : ℕ
  pub lower : ℕ → ℕ
  pub detect : List ℕ → Text
  pub sha256 : List ℕ → Text
  pub hex : Text → Text
  pub to_json : HashPayload → Option (List ℕ)
  pub floats : Floats
  pub render : Text → Option Text

module _ (s : Uploads) where
  unfoldable pub stage_upload : AttachmentDescriptor → UploadFile → Db AttachmentPersistence
  stage_upload d file = do
    source ← or_raise (to_source d.source) (validation "attachments.source")
    bytes ← or_raise file.content (validation "files")
    attempt file_system
    result ← caught (
        stage s.max_bytes s.lower s.detect s.sha256 s.hex bytes file.original_name
          file.reported_mime)
    staged ← lift (or_mapped result)
    let a = to_persistence source d staged
    discarding (a ∷ []) (attempt file_system)
    discarding (a ∷ []) (
        raise_if (is_camera source && not (is_camera_media staged.media_kind))
          (validation "attachments.source"))
    pure a

  -- The loop over the files; `staged` are those that came before.
  unfoldable pub stage_uploads :
      List AttachmentPersistence
      → List AttachmentDescriptor
      → List UploadFile
      → Db (List AttachmentPersistence)
  stage_uploads staged [] files = pure staged
  stage_uploads staged (d ∷ ds) [] = pure staged
  stage_uploads staged (d ∷ ds) (file ∷ files) = do
    a ← discarding staged (stage_upload d file)
    stage_uploads (staged ++ a ∷ []) ds files

  unfoldable pub create_request_hash :
      Uuid → Uuid → Text → Evidence → List AttachmentPersistence → Db Text
  create_request_hash project task content evidence attachments = do
    encoded ←
        or_raise (s.to_json (to_hash_payload project task content evidence attachments))
          (validation "request")
    pure (s.sha256 encoded)

  module _ (actor : User) (project task : Uuid) (key content : Text)
      (location : Option ReportedLocation) (reason : Option Text)
      (staged : List AttachmentPersistence) (audit : AuditContext) where
    abbrev pub created_event : Evidence → AuditEvent
    created_event evidence =
        event_of "progress.created" actor.id "progress_update" no_id succeeded audit (
          ("project_id", uuid project)
          ∷ ("task_id", uuid task)
          ∷ ("attachment_count", num (length staged))
          ∷ ("location_status", tag (status_name evidence.location_status))
          ∷ [])

    -- One turn of the loop, under a policy that was read.
    unfoldable pub try_create : TaskPolicy → Db (Update × Bool)
    try_create policy = do
      let evidence = evaluate_evidence s.floats location reason policy.geofence
      let persisted = map (set_verification evidence.location_status) staged
      digest ← create_request_hash project task content evidence persisted
      create_update_row actor.id project task
          (record {
            content_markdown = content;
            idempotency_key = key;
            request_sha256 = digest;
            evidence = evidence;
          })
          persisted (created_event evidence) (is_admin actor.role)

    -- The second turn, when the policy has changed.
    unfoldable pub try_again : Result (Update × Bool) → Db (Update × Bool)
    try_again (err policy_changed) = do
      policy ← get_task_policy actor.id (is_admin actor.role) project task true
      try_create policy
    try_again r = lift r

    unfoldable pub create_twice : TaskPolicy → Db (Update × Bool)
    create_twice policy = do
      first ← caught (try_create policy)
      second ← caught (try_again first)
      lift (or_conflict second)

  abbrev pub check_uploads :
      CreateMetadata → List UploadFile → Text → Db (List AttachmentDescriptor)
  check_uploads metadata files key = do
    raise_if (not (is_key_length key)) (validation "Idempotency-Key")
    raise_if (ltb s.max_files (length files)) (validation "files")
    descriptors ← or_raise metadata.attachments (validation "attachments")
    raise_if (not (length descriptors == length files)) (validation "attachments")
    raise_if (ltb 0 (length files) && not (has_location metadata.location)) (validation "location")
    pure descriptors

  -- The files of an update that was there already are not needed.
  unfoldable pub settle_created : List AttachmentPersistence → Bool → Db (Unit {0})
  settle_created staged true = pure tt
  settle_created staged false = discard_all staged

  unfoldable pub create_update :
      User → Uuid → Uuid → Text → CreateMetadata → List UploadFile → AuditContext → Db Update
  create_update actor project task idempotency_key metadata files audit = do
    lift (require_access actor)
    content ← lift (validate_content metadata.content_markdown)
    reason ← lift (validate_location metadata.location metadata.location_unavailable_reason)
    let key = trim_space idempotency_key
    descriptors ← check_uploads metadata files key
    let refusal = audit_progress_denied actor project task no_id "task_not_accessible" audit
    policy ← or_denied refusal (get_task_policy actor.id (is_admin actor.role) project task true)
    staged ← stage_uploads [] descriptors files
    created ← discarding staged (
        or_denied refusal (
          create_twice actor project task key content metadata.location reason staged audit policy))
    settle_created staged created.1
    completed ← complete_attachments created.0 audit
    render_update s.render completed
