-- ===== src/Progress/ReviewService.antt =====
-- internal/progress/review_service.go: comments, and the suggestions that an administrator accepts. The
-- Markdown renderer is a parameter.
use project_progress_registe.Base.{Bool, true, Option, String, List, [], ◌∷◌}
use project_progress_registe.Text.{Text}
use project_progress_registe.Schema.{Uuid, no_id, uuid, tag, AuditContext, succeeded, denied}
use project_progress_registe.Db.{Db, forbidden, lift, pure, raise, branch, ◌>>=◌, ◌>>◌}
use project_progress_registe.Identity.Types.{User, is_admin}
use project_progress_registe.Identity.Service.{append_audit, event_of}
use project_progress_registe.Projects.Service.{render_text}
use project_progress_registe.Projects.Tasks.Service.{or_denied}
use project_progress_registe.Progress.Service.{require_access, audit_progress_denied}
use project_progress_registe.Progress.Review.{
  Comment, AcceptedSuggestion, validate_review_markdown, list_comment_rows, create_comment_row,
  accept_suggestion_row, list_accepted_suggestions,
}

-- The event of a refused acceptance: `admin_required`, or `comment_not_accessible` in
-- `deniedSuggestion`.
unfoldable pub audit_suggestion_denied :
    User → Uuid → Uuid → Uuid → Uuid → String → AuditContext → Db (Unit {0})
audit_suggestion_denied actor project task update comment_id reason audit = append_audit (
    event_of "authorization.suggestion_denied" actor.id "update_comment" comment_id denied audit (
      ("project_id", uuid project)
      ∷ ("task_id", uuid task)
      ∷ ("progress_update_id", uuid update)
      ∷ ("reason", tag reason)
      ∷ []))

module _ (render : Text → Option Text) where
  unfoldable pub render_comment : Comment → Db Comment
  render_comment c = do
    html ← render_text render c.content_markdown
    pure (record c { content_html = html })

  unfoldable pub render_comments : List Comment → Db (List Comment)
  render_comments [] = pure []
  render_comments (c ∷ cs) = do
    first ← render_comment c
    rest ← render_comments cs
    pure (first ∷ rest)

  unfoldable pub render_suggestion : AcceptedSuggestion → Db AcceptedSuggestion
  render_suggestion s = do
    html ← render_text render s.content_markdown
    pure (record s { content_html = html })

  unfoldable pub render_suggestions : List AcceptedSuggestion → Db (List AcceptedSuggestion)
  render_suggestions [] = pure []
  render_suggestions (s ∷ rest) = do
    first ← render_suggestion s
    others ← render_suggestions rest
    pure (first ∷ others)

  unfoldable pub list_comments : User → Uuid → Uuid → Uuid → AuditContext → Db (List Comment)
  list_comments actor project task update audit = do
    lift (require_access actor)
    comments ←
        or_denied
          (audit_progress_denied actor project task update "comment_scope_not_accessible" audit)
          (list_comment_rows actor.id (is_admin actor.role) project task update)
    render_comments comments

  unfoldable pub create_comment : User → Uuid → Uuid → Uuid → Text → AuditContext → Db Comment
  create_comment actor project task update markdown audit = do
    lift (require_access actor)
    content ← lift (validate_review_markdown "content_markdown" markdown)
    created ←
        or_denied
          (audit_progress_denied actor project task update "comment_scope_not_accessible" audit)
          (create_comment_row actor.id (is_admin actor.role) project task update content (
            event_of "comment.created" actor.id "update_comment" no_id succeeded audit (
              ("project_id", uuid project)
              ∷ ("task_id", uuid task)
              ∷ ("progress_update_id", uuid update)
              ∷ [])))
    render_comment created

  -- The flag says whether the acceptance is new.
  unfoldable pub accept_suggestion :
      User → Uuid → Uuid → Uuid → Uuid → AuditContext → Db (AcceptedSuggestion × Bool)
  accept_suggestion actor project task update comment_id audit = do
    lift (require_access actor)
    branch (is_admin actor.role) (pure tt) (
        audit_suggestion_denied actor project task update comment_id "admin_required" audit
        >> raise forbidden)
    accepted ←
        or_denied
          (audit_suggestion_denied actor project task update comment_id "comment_not_accessible"
            audit)
          (accept_suggestion_row actor.id true project task update comment_id (
            event_of "suggestion.accepted" actor.id "accepted_suggestion" no_id succeeded audit (
              ("project_id", uuid project)
              ∷ ("task_id", uuid task)
              ∷ ("progress_update_id", uuid update)
              ∷ ("comment_id", uuid comment_id)
              ∷ [])))
    rendered ← render_suggestion accepted.0
    pure (rendered, accepted.1)

  unfoldable pub list_suggestions : User → Uuid → Uuid → AuditContext → Db (List AcceptedSuggestion)
  list_suggestions actor project task audit = do
    lift (require_access actor)
    items ←
        or_denied
          (audit_progress_denied actor project task no_id "task_suggestions_not_accessible" audit)
          (list_accepted_suggestions actor.id (is_admin actor.role) project task)
    render_suggestions items
