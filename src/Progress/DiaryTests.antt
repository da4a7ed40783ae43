-- ===== src/Progress/DiaryTests.antt =====
-- The diary on small concrete tables.
use project_progress_registe.Base.{◌≡◌, refl, true, false, none, some, [], ◌∷◌, arith, ◌≢◌}
use project_progress_registe.Text.{codes}
use project_progress_registe.Schema.{
  GeofenceRow, document, upload, not_media, not_supplied, available,
}
use project_progress_registe.Db.{
  World, ok, run, ◌>>=◌, ◌>>◌, raise_if, or_raise, attempt, gets, modify, query, exec, now,
  fresh_id, commit, finish, transaction, insert_audit,
}
use project_progress_registe.Identity.Accounts.{new_row}
use project_progress_registe.Identity.Tests.{no_files, no_tables, calm, bob, event}
use project_progress_registe.Projects.Members.{new_member_row}
use project_progress_registe.Projects.Tests.{site_row, wall}
use project_progress_registe.Progress.Types.{Update, AttachmentPersistence, ProgressPersistence}
use project_progress_registe.Progress.Evidence.{evaluate_evidence}
use project_progress_registe.Progress.Tests.{flat}
use project_progress_registe.Progress.Store.{
  lock_authorized_task, load_update, load_attachments, load_revisions, to_attachment,
}
use project_progress_registe.Progress.Updates.{
  insert_attachments, new_attachment_row, reuse_update, insert_update, create_or_reuse,
  create_update_row,
}
use project_progress_registe.Progress.Attachments.{settle_available, mark_attachment_available}
use project_progress_registe.Progress.Diary.{file, revise, arrive, lose, write_diaries}
use project_progress_registe.Progress.Histories.{HasDiaryRecord, write_diaries-HasDiaryRecord}
use project_progress_registe.Progress.Repeats.{create_update_row-repeated}
use project_progress_registe.Progress.Fenced.{create_update_row-unlocated}

abbrev pub desk : World
desk = record {
  env = calm;
  calls = 0;
  files = no_files;
  tables = record no_tables {
    users = new_row 2 5 bob ∷ [];
    projects = site_row ∷ [];
    members = new_member_row 7 2 1 5 ∷ [];
    tasks = wall ∷ [];
  };
}

abbrev pub scan : AttachmentPersistence
scan = record {
  original_name = codes "plan.pdf";
  reported_mime = [];
  detected_mime = codes "application/pdf";
  media_kind = document;
  source = upload;
  verification = not_media;
  size_bytes = 3;
  sha256 = codes "d";
  browser_last_modified_at = none;
  storage_key = codes "k";
}

abbrev pub note : ProgressPersistence
note = record {
  content_markdown = codes "dug";
  idempotency_key = codes "key";
  request_sha256 = codes "hash";
  evidence = record {
    location_status = not_supplied;
    reported_location = none;
    location_unavailable_reason = none;
    geofence = none;
    computed_distance_metres = none;
  };
}

abbrev dug : Update
dug = record {
  id = 103;
  project_id = 7;
  task_id = 9;
  content_markdown = codes "dug";
  content_html = [];
  created_by = record { user_id = 2; username = codes "bob" };
  evidence = note.evidence;
  attachments = to_attachment (new_attachment_row 104 1004 103 2 scan) ∷ [];
  revisions = [];
  created_at = 1003;
  updated_at = 1003;
  version = 1;
}

dug_filed : (run (create_update_row 2 7 9 note (scan ∷ []) event false) desk).0 ≡ ok (dug, true)
unfolding create_update_row create_or_reuse insert_update insert_attachments lock_authorized_task
    load_update load_attachments load_revisions transaction finish commit attempt query gets exec
    modify raise_if or_raise now fresh_id insert_audit ◌>>=◌ ◌>>◌
dug_filed = refl

-- The tables once the update was filed and its attachment is there.
abbrev filed_desk : World
filed_desk = (run (create_update_row 2 7 9 note (scan ∷ []) event false) desk).1

abbrev later_desk : World
later_desk = write_diaries (arrive 104 event ∷ []) filed_desk

abbrev dug_later : Update
dug_later = record dug {
  attachments =
      record (to_attachment (new_attachment_row 104 1004 103 2 scan)) {
        storage_state = available;
        available_at = some 1011;
      }
      ∷ [];
}

dug_again : (run (create_update_row 2 7 9 note [] event false) later_desk).0 ≡ ok (dug_later, false)
unfolding create_update_row create_or_reuse insert_update insert_attachments lock_authorized_task
    load_update load_attachments load_revisions transaction finish commit attempt query gets exec
    modify raise_if or_raise now fresh_id insert_audit ◌>>=◌ ◌>>◌ write_diaries
    mark_attachment_available settle_available reuse_update
dug_again = refl

create_update_row-repeated_example :
    (false ≡ false)
    × (dug_later.id ≡ dug.id)
    × (note.request_sha256 ≡ note.request_sha256)
    × ((run (create_update_row 2 7 9 note [] event false) later_desk).1.tables ≡ later_desk.tables)
create_update_row-repeated_example =
    create_update_row-repeated 2 7 9 note (scan ∷ []) event false (arrive 104 event ∷ []) 7 9 note
      [] event false desk later_desk dug_filed refl refl dug_again

abbrev settled_desk : World
settled_desk = write_diaries (arrive 104 event ∷ lose 104 (codes "gone") event ∷ []) filed_desk

write_diaries-HasDiaryRecord_example :
    HasDiaryRecord
      (write_diaries
        (file 2 false 7 9 note (scan ∷ []) event
          ∷ revise 2 false 7 9 103 (codes "dug deep") 1 event
          ∷ [])
        desk).tables
write_diaries-HasDiaryRecord_example =
    write_diaries-HasDiaryRecord
      (file 2 false 7 9 note (scan ∷ []) event
        ∷ revise 2 false 7 9 103 (codes "dug deep") 1 event
        ∷ [])
      desk (tt, λ k. refl)

abbrev fence : GeofenceRow
fence = record {
  id = 11;
  project_id = 7;
  version = 1;
  latitude = 0;
  longitude = 0;
  radius_metres = 0x4059000000000000;
  max_accuracy_metres = 0x4034000000000000;
  created_by = 1;
  valid_from = 1;
  valid_to = none;
}

abbrev fenced_desk : World
fenced_desk = record desk { tables = record desk.tables { geofences = fence ∷ [] } }

note_plain : note.evidence ≡ evaluate_evidence flat none none none
unfolding evaluate_evidence
note_plain = refl

create_update_row-unlocated_example :
    (run (create_update_row 2 7 9 note [] event false) fenced_desk).0 ≢ ok (dug, true)
create_update_row-unlocated_example =
    create_update_row-unlocated flat none none fence 2 7 9 note [] event false fenced_desk
      (dug, true) note_plain refl (λ e. omega (arith, e))
