-- ===== src/Progress/Edits.antt =====
-- What the revision of a diary update and the marking of an attachment found and left.
use project_progress_registe.Base.{
  ℕ, ◌≡◌, ◌⊎◌, refl, sym, ap, ◌∙◌, inl, inr, Bool, Option, none, some, [], ◌∷◌, ◌++◌, arith, find,
  update,
}
use mathlib.Core.Path.{subst}
use project_progress_registe.Text.{Text}
use project_progress_registe.Schema.{
  Uuid, Instant, AuditEvent, AuditRow, UpdateRow, AttachmentRow, Tables, StorageState, pending,
  available, failed_storage,
}
use project_progress_registe.Db.{append_audit_row, database}
use project_progress_registe.Db.Steps.{
  Yields, pure-Yields, transaction-Yields, query->>=, gets->>=, now->>=, fresh_id->>=, attempt->>,
  exec->>, modify->>, raise_if->>, or_raise->>=, insert_audit->>, insert_audit-Yields, raise-Yields,
}
use project_progress_registe.Progress.Types.{Update}
use project_progress_registe.Progress.Updates.{
  has_update_id, may_edit_update, new_revision_row, set_content, update_progress,
}
use project_progress_registe.Progress.Attachments.{
  has_attachment_id, is_pending_of, make_available, make_failed, only_available, settle_available,
  mark_attachment_available, mark_attachment_failed,
}
use project_progress_registe.Progress.Outcomes.{
  lock_authorized_task->>=, Loaded, load_update-Yields,
}

pub record Revised (actor : Uuid) (as_admin : Bool) (project task id : Uuid) (content : Text)
    (expected : ℕ) (t : Tables) (u : Update) (t' : Tables) : Type 0 where
  pub current : UpdateRow
  pub revision : Uuid
  pub edited : Instant
  pub at : Instant
  pub found : find (may_edit_update actor as_admin task id) t.updates ≡ some current
  pub version : current.version ≡ expected
  pub revisions :
      t'.revisions ≡ t.revisions ++ new_revision_row revision edited current content actor ∷ []
  pub updates : t'.updates ≡ update (has_update_id id) (set_content content at) t.updates
  pub attachments : t'.attachments ≡ t.attachments
  pub loaded : Loaded project task id t' u

pub update_progress-Yields :
    (actor : Uuid) (as_admin : Bool) (project task id : Uuid) (content : Text) (expected : ℕ)
    (event : AuditEvent) {t t' : Tables} {u : Update}
    → Yields (update_progress actor as_admin project task id content expected event) t u t'
    → Revised actor as_admin project task id content expected t u t'
unfolding update_progress
update_progress-Yields actor as_admin project task id content expected event {t} {t'} {u} y =
    lock_authorized_task->>= _ _ _ _ _ _ (transaction-Yields _ y) λ policy there active y₁.
      query->>= _ _ y₁ λ y₂. or_raise->>= _ _ _ y₂ λ current found y₃.
        raise_if->> _ _ _ y₃ λ version y₄. fresh_id->>= _ y₄ λ revision y₅.
          now->>= _ y₅ λ edited y₆. attempt->> _ _ y₆ λ y₇. gets->>= _ _ y₇ λ y₈.
            raise_if->> _ _ _ y₈ λ free y₉. modify->> _ _ y₉ λ y₁₀. now->>= _ y₁₀ λ at y₁₁.
              exec->> _ _ y₁₁ λ y₁₂. insert_audit->> _ _ y₁₂ λ row audited z.
                let (loaded, same) = load_update-Yields project task id database z in
                record {
                  current = current;
                  revision = revision;
                  edited = edited;
                  at = at;
                  found = found;
                  version = ground (arith, version);
                  revisions = ap (λ (v : Tables). v.revisions) same;
                  updates = ap (λ (v : Tables). v.updates) same;
                  attachments = ap (λ (v : Tables). v.attachments) same;
                  loaded = subst (λ v. Loaded project task id v u) (sym same) loaded;
                }

-- The attachment was pending and is available now, or it was available already and nothing changed.
abbrev pub Arrived : Uuid → Tables → Instant → Tables → Type 0
Arrived id t at t' =
    ((old : AttachmentRow) × (row : AuditRow) × (find (is_pending_of id) t.attachments ≡ some old)
      × (t'
          ≡ append_audit_row row (record t {
            attachments = update (is_pending_of id) (make_available at) t.attachments;
          })))
    ⊎ ((find (is_pending_of id) t.attachments ≡ none)
        × (old : AttachmentRow) × (find (has_attachment_id id) t.attachments ≡ some old)
        × (old.storage_state ≡ available)
        × (old.available_at ≡ some at)
        × (t' ≡ t))

only_available-Yields :
    (state : StorageState) (since : Instant) {t t' : Tables} {at : Instant}
    → Yields (only_available state since) t at t'
    → (state ≡ available) × (at ≡ since) × (t' ≡ t)
unfolding only_available
only_available-Yields available since y =
    let (returned, same) = pure-Yields _ y in (refl, returned, same)
only_available-Yields pending since y = raise-Yields _ y
only_available-Yields failed_storage since y = raise-Yields _ y

settle_available-Yields :
    (id : Uuid) (event : AuditEvent) (now : Instant) (o : Option AttachmentRow) {t t' : Tables}
    {at : Instant}
    → o ≡ find (is_pending_of id) t.attachments
    → Yields (settle_available id event now o) t at t'
    → Arrived id t at t'
unfolding settle_available
settle_available-Yields id event now (some old) {t} {t'} e y = modify->> _ _ y λ y₁.
    insert_audit->> _ _ y₁ λ row audited z.
      let (returned, same) = pure-Yields now z in
      inl (
        old,
        row,
        sym e,
        subst
            (λ a.
              t'
              ≡ append_audit_row row (record t {
                attachments = update (is_pending_of id) (make_available a) t.attachments;
              }))
            (sym returned) same,
      )
settle_available-Yields id event now none e y = query->>= _ _ y λ y₁.
    or_raise->>= _ _ _ y₁ λ old found y₂. or_raise->>= _ _ _ y₂ λ since dated z.
      let (state, returned, same) = only_available-Yields old.storage_state since z in
      inr (sym e, old, found, state, dated ∙ ap some (sym returned), same)

pub mark_attachment_available-Yields :
    (id : Uuid) (event : AuditEvent) {t t' : Tables} {at : Instant}
    → Yields (mark_attachment_available id event) t at t'
    → Arrived id t at t'
unfolding mark_attachment_available
mark_attachment_available-Yields id event y = now->>= _ (transaction-Yields _ y) λ at y₁.
    attempt->> _ _ y₁ λ y₂. gets->>= _ _ y₂ λ y₃. settle_available-Yields id event at _ refl y₃

pub mark_attachment_failed-Yields :
    (id : Uuid) (reason : Text) (event : AuditEvent) {t t' : Tables}
    → Yields (mark_attachment_failed id reason event) t tt t'
    → (row : AuditRow) × (t'
        ≡ append_audit_row row (record t {
          attachments = update (is_pending_of id) (make_failed reason) t.attachments;
        }))
unfolding mark_attachment_failed
mark_attachment_failed-Yields id reason event y =
    exec->> _ _ (transaction-Yields _ y)
      λ z. let (row, audited, same) = insert_audit-Yields _ z in (row, same)
