-- ===== src/Progress/Review.antt =====
-- internal/progress/review_types.go and review_postgres.go: comments on a diary update, and the
-- suggestions among them that an administrator accepts. A list is in table order here, by time in the
-- source.
use project_progress_registe.Base.{
  Bool, true, false, not, ◌&&◌, ◌||◌, Option, none, some, String, List, [], ◌∷◌, ◌++◌, ltb, ◌==◌,
  if◌then◌else◌, find, any, select,
}
use project_progress_registe.Text.{Text, byte_len, rune_count, trim_space, is_blank}
use project_progress_registe.Schema.{
  Uuid, no_id, Instant, AuditEvent, UserRow, UpdateRow, CommentRow, SuggestionRow, Tables,
}
use project_progress_registe.Db.{
  Db, Result, ok, err, validation, not_found, database, query, attempt, gets, modify, pure,
  raise_if, or_raise, now, fresh_id, transaction, insert_audit, ◌>>=◌, ◌>>◌,
}
use project_progress_registe.Identity.Sessions.{has_id}
use project_progress_registe.Progress.Types.{Actor}
use project_progress_registe.Progress.Store.{lock_authorized_task, to_actor, is_update_in}

pub record SuggestionAcceptance : Type 0 where
  pub id : Uuid
  pub accepted_by : Actor
  pub accepted_at : Instant

pub record Comment : Type 0 where
  pub id : Uuid
  pub progress_update_id : Uuid
  pub content_markdown : Text
  pub content_html : Text
  pub created_by : Actor
  pub created_at : Instant
  pub accepted_suggestion : Option SuggestionAcceptance

pub record AcceptedSuggestion : Type 0 where
  pub id : Uuid
  pub comment_id : Uuid
  pub progress_update_id : Uuid
  pub task_id : Uuid
  pub content_markdown : Text
  pub content_html : Text
  pub comment_author : Actor
  pub commented_at : Instant
  pub accepted_by : Actor
  pub accepted_at : Instant

unfoldable pub validate_review_markdown : String → Text → Result Text
unfolding trim_space rune_count byte_len
validate_review_markdown field value =
    if is_blank (trim_space value) || ltb 10000 (rune_count value) || ltb 20000 (byte_len value)
    then err (validation field)
    else ok value

abbrev pub is_acceptance_of : Uuid → SuggestionRow → Bool
is_acceptance_of comment row = row.comment_id == comment

abbrev pub has_comment_id : Uuid → CommentRow → Bool
has_comment_id id row = row.id == id

abbrev pub has_suggestion_id : Uuid → SuggestionRow → Bool
has_suggestion_id id row = row.id == id

-- The left join with the acceptance and who accepted.
abbrev pub to_acceptance : Option SuggestionRow → Option UserRow → Option SuggestionAcceptance
to_acceptance none acceptor = none
to_acceptance (some row) none = some (record {
  id = row.id;
  accepted_by = record { user_id = no_id; username = [] };
  accepted_at = row.accepted_at;
})
to_acceptance (some row) (some u) =
    some (record { id = row.id; accepted_by = to_actor u; accepted_at = row.accepted_at })

abbrev pub acceptor_of : List UserRow → Option SuggestionRow → Option UserRow
acceptor_of users none = none
acceptor_of users (some row) = find (has_id row.accepted_by) users

abbrev pub to_comment : Tables → CommentRow → UserRow → Comment
to_comment t row author =
    let accepted = find (is_acceptance_of row.id) t.suggestions in
    record {
      id = row.id;
      progress_update_id = row.progress_update_id;
      content_markdown = row.content_markdown;
      content_html = [];
      created_by = to_actor author;
      created_at = row.created_at;
      accepted_suggestion = to_acceptance accepted (acceptor_of t.users accepted);
    }

abbrev pub with_author : Tables → CommentRow → Option UserRow → Option Comment
with_author t row none = none
with_author t row (some author) = some (to_comment t row author)

-- `commentProjection`
abbrev pub scan_comment : Tables → Option CommentRow → Option Comment
scan_comment t none = none
scan_comment t (some row) = with_author t row (find (has_id row.created_by) t.users)

abbrev pub scan_comments : Tables → List CommentRow → List Comment
scan_comments t [] = []
scan_comments t (row ∷ rows) =
    let rest = scan_comments t rows in
    elim (scan_comment t (some row)) [ none ↦ rest | some comment ↦ comment ∷ rest ]

unfoldable pub require_scoped_update : Uuid → Uuid → Db (Unit {0})
require_scoped_update task update = do
  found ← query (λ t. any (is_update_in task update) t.updates)
  raise_if (not found) not_found

unfoldable pub list_comment_rows : Uuid → Bool → Uuid → Uuid → Uuid → Db (List Comment)
list_comment_rows actor as_admin project task update = transaction do
  policy ← lock_authorized_task actor as_admin project task false
  require_scoped_update task update
  query (λ t. scan_comments t (select (λ row. row.progress_update_id == update) t.comments))

unfoldable pub create_comment_row :
    Uuid → Bool → Uuid → Uuid → Uuid → Text → AuditEvent → Db Comment
create_comment_row actor as_admin project task update content event = transaction do
  policy ← lock_authorized_task actor as_admin project task true
  require_scoped_update task update
  id ← fresh_id
  at ← now
  attempt database
  taken ← gets (λ t. any (has_comment_id id) t.comments)
  raise_if taken database
  modify (λ t. record t {
    comments =
        t.comments
        ++ record {
          id = id;
          progress_update_id = update;
          content_markdown = content;
          created_by = actor;
          created_at = at;
        }
          ∷ [];
  })
  insert_audit (record event { target_id = id })
  found ← query (λ t. scan_comment t (find (has_comment_id id) t.comments))
  or_raise found database

-- The inner joins of `acceptedSuggestionProjection`.
abbrev pub join_people :
    SuggestionRow
    → CommentRow
    → UpdateRow
    → Option UserRow
    → Option UserRow
    → Option AcceptedSuggestion
join_people s c u (some author) (some acceptor) = some (record {
  id = s.id;
  comment_id = c.id;
  progress_update_id = u.id;
  task_id = u.task_id;
  content_markdown = c.content_markdown;
  content_html = [];
  comment_author = to_actor author;
  commented_at = c.created_at;
  accepted_by = to_actor acceptor;
  accepted_at = s.accepted_at;
})
join_people s c u none acceptor = none
join_people s c u (some author) none = none

abbrev pub join_update :
    Tables → SuggestionRow → CommentRow → Option UpdateRow → Option AcceptedSuggestion
join_update t s c none = none
join_update t s c (some u) =
    join_people s c u (find (has_id c.created_by) t.users) (find (has_id s.accepted_by) t.users)

abbrev pub join_comment : Tables → SuggestionRow → Option CommentRow → Option AcceptedSuggestion
join_comment t s none = none
join_comment t s (some c) =
    join_update t s c (find (λ row. row.id == c.progress_update_id) t.updates)

unfoldable pub scan_accepted_suggestion : Tables → Option SuggestionRow → Option AcceptedSuggestion
scan_accepted_suggestion t none = none
scan_accepted_suggestion t (some s) =
    join_comment t s (find (has_comment_id s.comment_id) t.comments)

-- A comment of that update, which is one of the task.
abbrev pub is_comment_in : Uuid → Uuid → Uuid → Tables → Bool
is_comment_in task update comment t =
    any (λ c. c.id == comment && c.progress_update_id == update) t.comments
    && any (is_update_in task update) t.updates

-- The acceptance that is there, or a new one; the flag says which.
unfoldable pub find_or_accept : Uuid → Uuid → AuditEvent → Option SuggestionRow → Db (Uuid × Bool)
find_or_accept actor comment event (some row) = pure (row.id, false)
find_or_accept actor comment event none = do
  id ← fresh_id
  at ← now
  attempt database
  taken ←
      gets
        (λ t. any (λ row. has_suggestion_id id row || is_acceptance_of comment row) t.suggestions)
  raise_if taken database
  modify (λ t. record t {
    suggestions =
        t.suggestions
        ++ record { id = id; comment_id = comment; accepted_by = actor; accepted_at = at } ∷ [];
  })
  insert_audit (record event { target_id = id })
  pure (id, true)

unfoldable pub accept_suggestion_row :
    Uuid → Bool → Uuid → Uuid → Uuid → Uuid → AuditEvent → Db (AcceptedSuggestion × Bool)
accept_suggestion_row actor as_admin project task update comment event = transaction do
  policy ← lock_authorized_task actor as_admin project task true
  locked ← query (is_comment_in task update comment)
  raise_if (not locked) not_found
  existing ← query (λ t. find (is_acceptance_of comment) t.suggestions)
  settled ← find_or_accept actor comment event existing
  found ← query (λ t. scan_accepted_suggestion t (find (has_suggestion_id settled.0) t.suggestions))
  suggestion ← or_raise found database
  pure (suggestion, settled.1)

abbrev pub suggestions_of : Uuid → Tables → List SuggestionRow → List AcceptedSuggestion
suggestions_of task t [] = []
suggestions_of task t (row ∷ rows) =
    let rest = suggestions_of task t rows in
    elim (scan_accepted_suggestion t (some row)) [
      | none ↦ rest
      | some s ↦ if s.task_id == task then s ∷ rest else rest
    ]

unfoldable pub list_accepted_suggestions : Uuid → Bool → Uuid → Uuid → Db (List AcceptedSuggestion)
list_accepted_suggestions actor as_admin project task = transaction do
  policy ← lock_authorized_task actor as_admin project task false
  query (λ t. suggestions_of task t t.suggestions)
