-- ===== src/Progress/Reviewed.antt =====
-- What a comment and the acceptance of a suggestion found and left.
use project_progress_registe.Base.{
  ◌≡◌, ◌⊎◌, refl, sym, ap, ◌∙◌, inl, inr, Bool, true, false, Option, none, some, [], ◌∷◌, ◌++◌,
  arith, find, any, any-find-none,
}
use mathlib.Core.Path.{subst}
use project_progress_registe.Text.{Text}
use project_progress_registe.Schema.{Uuid, AuditEvent, AuditRow, CommentRow, SuggestionRow, Tables}
use project_progress_registe.Db.{append_audit_row}
use project_progress_registe.Db.Steps.{
  Yields, pure-Yields, transaction-Yields, query->>=, gets->>=, now->>=, fresh_id->>=, attempt->>,
  modify->>, raise_if->>, or_raise->>=, or_raise-Yields, insert_audit->>, then-Yields, bind-Yields,
  raise_if-Yields,
}
use project_progress_registe.Progress.Review.{
  Comment, AcceptedSuggestion, is_acceptance_of, has_suggestion_id, require_scoped_update,
  create_comment_row, is_comment_in, find_or_accept, accept_suggestion_row,
  scan_accepted_suggestion,
}
use project_progress_registe.Progress.Outcomes.{lock_authorized_task->>=}

-- The tables but for the audit trail and one of them are as they were.
abbrev pub Commented : Tables → Tables → Type 0
Commented t t' =
    (row : CommentRow) × (audit : AuditRow) × (t'
      ≡ append_audit_row audit (record t { comments = t.comments ++ row ∷ [] }))

require_scoped_update-Yields :
    (task update : Uuid) {t t' : Tables}
    → Yields (require_scoped_update task update) t tt t'
    → t' ≡ t
unfolding require_scoped_update
require_scoped_update-Yields task update y = query->>= _ _ y λ y₁. (raise_if-Yields _ _ y₁).1

pub create_comment_row-Yields :
    (actor : Uuid) (as_admin : Bool) (project task update : Uuid) (content : Text)
    (event : AuditEvent) {t t' : Tables} {c : Comment}
    → Yields (create_comment_row actor as_admin project task update content event) t c t'
    → Commented t t'
unfolding create_comment_row
create_comment_row-Yields actor as_admin project task update content event {t} {t'} y =
    lock_authorized_task->>= _ _ _ _ _ _ (transaction-Yields _ y) λ policy there active y₁.
      then-Yields _ _ y₁ λ t₁ scoping y₂. fresh_id->>= _ y₂ λ id y₃. now->>= _ y₃ λ at y₄.
        attempt->> _ _ y₄ λ y₅. gets->>= _ _ y₅ λ y₆. raise_if->> _ _ _ y₆ λ free y₇.
          modify->> _ _ y₇ λ y₈. insert_audit->> _ _ y₈ λ row audited y₉. query->>= _ _ y₉ λ z.
            let (found, same) = or_raise-Yields _ _ z in
            subst (λ v. Commented v t') (require_scoped_update-Yields task update scoping)
              (_, row, same)

-- A suggestion that is accepted now, the only acceptance of its comment; or one that was accepted
-- before, and nothing changed.
abbrev pub Acceptance : Uuid → Uuid → Tables → Uuid × Bool → Tables → Type 0
Acceptance actor comment t r t' =
    ((r.1 ≡ true)
      × (row : SuggestionRow) × (audit : AuditRow) × (row.id ≡ r.0)
      × (row.comment_id ≡ comment)
      × (row.accepted_by ≡ actor)
      × (any (is_acceptance_of comment) t.suggestions ≡ false)
      × (t' ≡ append_audit_row audit (record t { suggestions = t.suggestions ++ row ∷ [] })))
    ⊎ ((r.1 ≡ false)
        × (row : SuggestionRow) × (row.id ≡ r.0)
        × (find (is_acceptance_of comment) t.suggestions ≡ some row)
        × (t' ≡ t))

find_or_accept-Yields :
    (actor comment : Uuid) (event : AuditEvent) (o : Option SuggestionRow) {t t' : Tables}
    {r : Uuid × Bool}
    → o ≡ find (is_acceptance_of comment) t.suggestions
    → Yields (find_or_accept actor comment event o) t r t'
    → Acceptance actor comment t r t'
unfolding find_or_accept
find_or_accept-Yields actor comment event (some row) e y =
    let (returned, same) = pure-Yields _ y in
    inr (
      ap (λ (v : Uuid × Bool). v.1) returned,
      row,
      ap (λ (v : Uuid × Bool). v.0) (sym returned),
      sym e,
      same,
    )
find_or_accept-Yields actor comment event none {t} e y = fresh_id->>= _ y λ id y₁.
    now->>= _ y₁ λ at y₂. attempt->> _ _ y₂ λ y₃. gets->>= _ _ y₃ λ y₄.
      raise_if->> _ _ _ y₄ λ free y₅. modify->> _ _ y₅ λ y₆.
        insert_audit->> _ _ y₆ λ audit audited z.
          let (returned, same) = pure-Yields _ z in
          inl (
            ap (λ (v : Uuid × Bool). v.1) returned,
            record { id = id; comment_id = comment; accepted_by = actor; accepted_at = at },
            audit,
            ap (λ (v : Uuid × Bool). v.0) (sym returned),
            refl,
            refl,
            any-find-none (is_acceptance_of comment) t.suggestions (sym e),
            same,
          )

-- With the update whose comment it is, and what is read back.
pub accept_suggestion_row-Yields :
    (actor : Uuid) (as_admin : Bool) (project task update comment : Uuid) (event : AuditEvent)
    {t t' : Tables} {r : AcceptedSuggestion × Bool}
    → Yields (accept_suggestion_row actor as_admin project task update comment event) t r t'
    → (is_comment_in task update comment t ≡ true)
      × (id : Uuid) × Acceptance actor comment t (id, r.1) t'
      × (scan_accepted_suggestion t' (find (has_suggestion_id id) t'.suggestions) ≡ some r.0)
unfolding accept_suggestion_row
accept_suggestion_row-Yields actor as_admin project task update comment event {t} {t'} {r} y =
    lock_authorized_task->>= _ _ _ _ _ _ (transaction-Yields _ y) λ policy there active y₁.
      query->>= _ _ y₁ λ y₂. raise_if->> _ _ _ y₂ λ inside y₃. query->>= _ _ y₃ λ y₄.
        bind-Yields _ _ y₄ λ settled t₁ accepting y₅. query->>= _ _ y₅ λ y₆.
          or_raise->>= _ _ _ y₆ λ suggestion found z.
            let (returned, same) = pure-Yields _ z in
            let flag = ap (λ (v : AcceptedSuggestion × Bool). v.1) returned in
            let read = ap (λ (v : AcceptedSuggestion × Bool). v.0) returned in
            let accepted =
              find_or_accept-Yields actor comment event
                (find (is_acceptance_of comment) t.suggestions) refl accepting in
            (
              ground (arith, inside),
              settled.0,
              subst (Acceptance actor comment t (settled.0, r.1)) (sym same)
                  (subst (λ b. Acceptance actor comment t (settled.0, b) t₁) (sym flag) accepted),
              ap
                    (λ (v : Tables).
                      scan_accepted_suggestion v (find (has_suggestion_id settled.0) v.suggestions))
                    same
                  ∙ found
                  ∙ ap some (sym read),
            )
