-- ===== src/Progress/Histories.antt =====
-- Histories of the diary keep the record of its revisions.
use project_progress_registe.Base.{◌≡◌, refl, sym, ap, ◌∙◌, List, ◌++◌, map, arith}
use mathlib.Core.Path.{subst}
use project_progress_registe.Schema.{UpdateRow, RevisionRow, Tables}
use project_progress_registe.Db.{World}
use project_progress_registe.Versions.{
  IsRecorded, change-IsRecorded, append-IsRecorded, select_found,
}
use project_progress_registe.Progress.Updates.{
  has_update_id, may_edit_update, new_revision_row, set_content,
}
use project_progress_registe.Progress.Diary.{
  DiaryWrite, write_diaries, write_diaries-keeps, Change, filed, revised, arrived, lost, untouched,
}

abbrev pub IsDiaryRecord : List UpdateRow → List RevisionRow → Type 0
IsDiaryRecord =
    IsRecorded (λ r. r.id) (λ r. r.version) (λ r. r.progress_update_id) (λ r. r.from_version)
      (λ r. r.to_version)

abbrev pub HasDiaryRecord : Tables → Type 0
HasDiaryRecord t = IsDiaryRecord t.updates t.revisions

moved :
    (t t' : Tables)
    → t'.updates ≡ t.updates
    → t'.revisions ≡ t.revisions
    → HasDiaryRecord t
    → HasDiaryRecord t'
moved t t' updates revisions h =
    subst (λ v. IsDiaryRecord v t'.revisions) (sym updates)
      (subst (IsDiaryRecord t.updates) (sym revisions) h)

Change-HasDiaryRecord : (t t' : Tables) → Change t t' → HasDiaryRecord t → HasDiaryRecord t'
Change-HasDiaryRecord t t'
      (filed row rows version fresh unused states updates attachments revisions) h =
    subst (λ v. IsDiaryRecord v t'.revisions) (sym updates)
      (subst (IsDiaryRecord _) (sym revisions)
        (append-IsRecorded _ _ _ _ _ t.updates row t.revisions fresh version h))
Change-HasDiaryRecord t t'
      (revised actor as_admin task id content at edited revision current found updates attachments
        revisions)
      h =
    let g : UpdateRow → RevisionRow = λ r. new_revision_row revision edited r content actor in
    let one =
      select_found (λ r. r.id) id (may_edit_update actor as_admin task id) (has_update_id id)
        (λ r e. ground (arith, e)) (λ r e. ground (arith, e)) t.updates current h.0 found in
    let kept =
      change-IsRecorded _ _ _ _ _ (has_update_id id) (set_content content at) g (λ r. refl)
        (λ r. refl) (λ r. refl) (λ r. refl) (λ r. refl) t.updates t.revisions h in
    subst (λ v. IsDiaryRecord v t'.revisions) (sym updates)
      (subst (IsDiaryRecord _) (ap (λ rows. t.revisions ++ map g rows) one ∙ sym revisions) kept)
Change-HasDiaryRecord t t' (arrived id at updates attachments revisions) h =
    moved t t' updates revisions h
Change-HasDiaryRecord t t' (lost id reason updates attachments revisions) h =
    moved t t' updates revisions h
Change-HasDiaryRecord t t' (untouched updates attachments revisions) h =
    moved t t' updates revisions h

-- Every history of diary writes, whatever each returns, keeps the record: update ids are distinct, and
-- the revisions of each update, in their order, lead from version 1 to its version, each from the
-- version that the one before it left.
pub write_diaries-HasDiaryRecord :
    (ops : List DiaryWrite) (w : World)
    → HasDiaryRecord w.tables
    → HasDiaryRecord (write_diaries ops w).tables
write_diaries-HasDiaryRecord ops w h =
    write_diaries-keeps HasDiaryRecord ops w Change-HasDiaryRecord h
