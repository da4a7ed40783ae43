-- ===== src/Progress/Diary.antt =====
-- The writes of the diary repository as one type, and what each has done to the updates, their
-- revisions and their attachments when it returned.
use project_progress_registe.Base.{
  ℕ, ◌≡◌, refl, sym, ap, inl, inr, Bool, false, none, some, List, [], ◌∷◌, ◌++◌, find, any, update,
  All,
}
use mathlib.Core.Path.{subst}
use project_progress_registe.Text.{Text}
use project_progress_registe.Schema.{
  Uuid, Instant, AuditEvent, UpdateRow, AttachmentRow, Tables, pending,
}
use project_progress_registe.Db.{World, Db, run}
use project_progress_registe.Db.Steps.{Yields, pure-Yields, bind-Yields}
use project_progress_registe.Identity.Ops.{discard}
use project_progress_registe.Identity.Atomic.{
  IsAtomic, IsAtomic_keeps, transaction-IsAtomic, discard-IsAtomic,
}
use project_progress_registe.Progress.Types.{AttachmentPersistence, ProgressPersistence}
use project_progress_registe.Progress.Updates.{
  has_key, has_update_id, may_edit_update, new_update_row, new_revision_row, set_content,
  create_update_row, update_progress,
}
use project_progress_registe.Progress.Attachments.{
  is_pending_of, make_available, make_failed, mark_attachment_available, mark_attachment_failed,
}
use project_progress_registe.Progress.Review.{create_comment_row, accept_suggestion_row}
use project_progress_registe.Progress.Outcomes.{create_update_row-Yields}
use project_progress_registe.Progress.Edits.{
  update_progress-Yields, mark_attachment_available-Yields, mark_attachment_failed-Yields,
}
use project_progress_registe.Progress.Reviewed.{
  create_comment_row-Yields, accept_suggestion_row-Yields,
}

pub data DiaryWrite : Type 0 where
  file :
      Uuid
      → Bool
      → Uuid
      → Uuid
      → ProgressPersistence
      → List AttachmentPersistence
      → AuditEvent
      → DiaryWrite
  revise : Uuid → Bool → Uuid → Uuid → Uuid → Text → ℕ → AuditEvent → DiaryWrite
  arrive : Uuid → AuditEvent → DiaryWrite
  lose : Uuid → Text → AuditEvent → DiaryWrite
  comment : Uuid → Bool → Uuid → Uuid → Uuid → Text → AuditEvent → DiaryWrite
  accept : Uuid → Bool → Uuid → Uuid → Uuid → Uuid → AuditEvent → DiaryWrite

abbrev pub write_diary : DiaryWrite → Db (Unit {0})
write_diary (file actor as_admin project task input attachments event) =
    discard (create_update_row actor project task input attachments event as_admin)
write_diary (revise actor as_admin project task id content expected event) =
    discard (update_progress actor as_admin project task id content expected event)
write_diary (arrive id event) = discard (mark_attachment_available id event)
write_diary (lose id reason event) = mark_attachment_failed id reason event
write_diary (comment actor as_admin project task id content event) =
    discard (create_comment_row actor as_admin project task id content event)
write_diary (accept actor as_admin project task id target event) =
    discard (accept_suggestion_row actor as_admin project task id target event)

pub write_diary-IsAtomic : (op : DiaryWrite) → IsAtomic (write_diary op)
unfolding create_update_row update_progress mark_attachment_available mark_attachment_failed
    create_comment_row accept_suggestion_row
write_diary-IsAtomic (file actor as_admin project task input attachments event) =
    discard-IsAtomic _ (transaction-IsAtomic _)
write_diary-IsAtomic (revise actor as_admin project task id content expected event) =
    discard-IsAtomic _ (transaction-IsAtomic _)
write_diary-IsAtomic (arrive id event) = discard-IsAtomic _ (transaction-IsAtomic _)
write_diary-IsAtomic (lose id reason event) = transaction-IsAtomic _
write_diary-IsAtomic (comment actor as_admin project task id content event) =
    discard-IsAtomic _ (transaction-IsAtomic _)
write_diary-IsAtomic (accept actor as_admin project task id target event) =
    discard-IsAtomic _ (transaction-IsAtomic _)

-- Writes one after the other, whatever each of them returns.
unfoldable pub write_diaries : List DiaryWrite → World → World
write_diaries [] w = w
write_diaries (op ∷ ops) w = write_diaries ops (run (write_diary op) w).1

pub data Change (t t' : Tables) : Type 0 where
  filed :
      (row : UpdateRow) (rows : List AttachmentRow)
      → row.version ≡ 1
      → any (has_update_id row.id) t.updates ≡ false
      → find (has_key row.created_by row.idempotency_key) t.updates ≡ none
      → All (λ r. r.storage_state ≡ pending) rows
      → t'.updates ≡ t.updates ++ row ∷ []
      → t'.attachments ≡ t.attachments ++ rows
      → t'.revisions ≡ t.revisions
      → Change t t'
  revised :
      (actor : Uuid) (as_admin : Bool) (task id : Uuid) (content : Text) (at edited : Instant)
      (revision : Uuid) (current : UpdateRow)
      → find (may_edit_update actor as_admin task id) t.updates ≡ some current
      → t'.updates ≡ update (has_update_id id) (set_content content at) t.updates
      → t'.attachments ≡ t.attachments
      → t'.revisions ≡ t.revisions ++ new_revision_row revision edited current content actor ∷ []
      → Change t t'
  arrived :
      (id : Uuid) (at : Instant)
      → t'.updates ≡ t.updates
      → t'.attachments ≡ update (is_pending_of id) (make_available at) t.attachments
      → t'.revisions ≡ t.revisions
      → Change t t'
  lost :
      (id : Uuid) (reason : Text)
      → t'.updates ≡ t.updates
      → t'.attachments ≡ update (is_pending_of id) (make_failed reason) t.attachments
      → t'.revisions ≡ t.revisions
      → Change t t'
  untouched :
      t'.updates ≡ t.updates
      → t'.attachments ≡ t.attachments
      → t'.revisions ≡ t.revisions
      → Change t t'

same_tables : {t t' : Tables} → t' ≡ t → Change t t'
same_tables e =
    untouched (ap (λ (v : Tables). v.updates) e) (ap (λ (v : Tables). v.attachments) e)
      (ap (λ (v : Tables). v.revisions) e)

discard-Yields :
    {A : Type 0} (m : Db A) {t t' : Tables} → Yields (discard m) t tt t' → (a : A) × Yields m t a t'
discard-Yields m {t} {t'} y =
    bind-Yields _ _ y
      λ a t₁ done rest. (a, subst (λ v. Yields m t a v) (sym (pure-Yields _ rest).1) done)

write_diary-Change :
    (op : DiaryWrite) {t t' : Tables} → Yields (write_diary op) t tt t' → Change t t'
write_diary-Change (file actor as_admin project task input attachments event) y =
    let (r, done) = discard-Yields _ y in
    elim (create_update_row-Yields _ _ _ _ _ _ _ done).4 [
      | inl (flag, f) ↦
          filed (new_update_row f.id f.at actor task input) f.rows refl f.fresh f.unused f.states
            f.updates f.stored f.revisions
      | inr (flag, kept) ↦ same_tables kept.tables
    ]
write_diary-Change (revise actor as_admin project task id content expected event) y =
    let (u, done) = discard-Yields _ y in
    let r = update_progress-Yields actor as_admin project task id content expected event done in
    revised actor as_admin task id content r.at r.edited r.revision r.current r.found r.updates
      r.attachments r.revisions
write_diary-Change (arrive id event) y =
    let (at, done) = discard-Yields _ y in
    elim (mark_attachment_available-Yields id event done) [
      | inl (old, row, found, e) ↦
          arrived id at (ap (λ (v : Tables). v.updates) e) (ap (λ (v : Tables). v.attachments) e)
            (ap (λ (v : Tables). v.revisions) e)
      | inr (missed, old, found, state, dated, e) ↦ same_tables e
    ]
write_diary-Change (lose id reason event) y =
    let (row, e) = mark_attachment_failed-Yields id reason event y in
    lost id reason (ap (λ (v : Tables). v.updates) e) (ap (λ (v : Tables). v.attachments) e)
      (ap (λ (v : Tables). v.revisions) e)
write_diary-Change (comment actor as_admin project task id content event) y =
    let (c, done) = discard-Yields _ y in
    let (row, audit, e) =
      create_comment_row-Yields actor as_admin project task id content event done in
    untouched (ap (λ (v : Tables). v.updates) e) (ap (λ (v : Tables). v.attachments) e)
      (ap (λ (v : Tables). v.revisions) e)
write_diary-Change (accept actor as_admin project task id target event) y =
    let (r, done) = discard-Yields _ y in
    let (inside, suggestion, accepted, found) =
      accept_suggestion_row-Yields actor as_admin project task id target event done in
    elim accepted [
      | inl (flag, row, audit, same, of_comment, by, free, e) ↦
          untouched (ap (λ (v : Tables). v.updates) e) (ap (λ (v : Tables). v.attachments) e)
            (ap (λ (v : Tables). v.revisions) e)
      | inr (flag, row, same, there, e) ↦ same_tables e
    ]

-- What every change of the tables keeps, every history keeps.
pub write_diaries-keeps {ℓ} :
    (P : Tables → Type ℓ) (ops : List DiaryWrite) (w : World)
    → ((t t' : Tables) → Change t t' → P t → P t')
    → P w.tables
    → P (write_diaries ops w).tables
unfolding write_diaries
write_diaries-keeps P [] w change h = h
write_diaries-keeps P (op ∷ ops) w change h =
    write_diaries-keeps P ops (run (write_diary op) w).1 change (
      IsAtomic_keeps (write_diary op) P w (write_diary-IsAtomic op)
        (λ u t' y. change w.tables t' (write_diary-Change op y)) h)
