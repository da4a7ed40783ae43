-- ===== src/Progress/RecoveryTests.antt =====
-- A restart on small concrete tables and directories.
use project_progress_registe.Base.{true, false, [], ◌∷◌}
use project_progress_registe.Db.{World}
use project_progress_registe.Identity.Tests.{no_tables, bob}
use project_progress_registe.Identity.Types.{User, to_user}
use project_progress_registe.Identity.Accounts.{new_row}
use project_progress_registe.Schema.{AttachmentRow}
use project_progress_registe.Filestore.Tests.{first_key, staged_world}
use project_progress_registe.Progress.Updates.{new_attachment_row, new_update_row}
use project_progress_registe.Progress.Attachments.{make_available}
use project_progress_registe.Progress.DiaryTests.{scan, desk, note}
use project_progress_registe.Text.{codes}

-- The bytes of the first attachment are staged, those of the second are gone.
abbrev interrupted : World
interrupted = record staged_world {
  tables = record no_tables {
    attachments =
        new_attachment_row 31 4 8 2 (record scan { storage_key = first_key })
        ∷ new_attachment_row 32 4 8 2 (record scan {
          storage_key = codes "00000000000000000000000000000000000000000000000000000000000000cc";
        })
        ∷ [];
  };
}

abbrev reader : User
reader = record (to_user (new_row 2 5 bob)) { enabled = true; must_change_password = false }

abbrev kept_row : AttachmentRow
kept_row = make_available 6 (new_attachment_row 31 4 8 2 (record scan { storage_key = first_key }))

-- A desk where an attachment is available and its bytes are final.
abbrev shelf : World
shelf = record desk {
  files = record {
    staging = [];
    finals = record { key = first_key; bytes = 1 ∷ 2 ∷ []; modified = 5 } ∷ [];
  };
  tables = record desk.tables {
    updates = new_update_row 8 4 2 9 note ∷ [];
    attachments = kept_row ∷ [];
  };
}
