-- ===== src/Progress/Repeats.antt =====
-- A request to create a diary update that is repeated.
use project_progress_registe.Base.{
  ◌≡◌, refl, sym, ap, ◌∙◌, Bool-cases, inl, inr, Bool, true, false, Option, none, some, List, [],
  ◌∷◌, ◌++◌, arith, ==_refl, find, any, update, if◌then◌else◌, if_some,
}
use mathlib.Core.Path.{subst}
use project_progress_registe.Text.{Text}
use project_progress_registe.Schema.{Uuid, AuditEvent, UserRow, UpdateRow, Tables}
use project_progress_registe.Db.{World, ok, run}
use project_progress_registe.Db.Steps.{run-Yields}
use project_progress_registe.Text.Laws.{text_eq_iff, text_eq_refl}
use project_progress_registe.Projects.Tasks.Store.{is_task_in}
use project_progress_registe.Identity.Sessions.{has_id}
use project_progress_registe.Identity.Revocation.{find-test}
use project_progress_registe.Progress.Store.{scan_update, is_update_in, by_creator, project_update}
use project_progress_registe.Progress.Types.{Update, AttachmentPersistence, ProgressPersistence}
use project_progress_registe.Progress.Updates.{
  has_key, has_update_id, new_update_row, set_content, create_update_row,
}
use project_progress_registe.Progress.Outcomes.{Loaded, Outcome, create_update_row-Yields}
use project_progress_registe.Progress.Diary.{
  DiaryWrite, write_diaries, write_diaries-keeps, Change, filed, revised, arrived, lost, untouched,
}

-- The key of the user names the update with that identifier and that request.
abbrev pub Names : Uuid → Text → Uuid → Text → Tables → Type 0
Names actor key id request t =
    (row : UpdateRow) × (find (has_key actor key) t.updates ≡ some row)
    × (row.id ≡ id)
    × (row.request_sha256 ≡ request)

find_before :
    (p : UpdateRow → Bool) (rows more : List UpdateRow) (row : UpdateRow)
    → find p rows ≡ some row
    → find p (rows ++ more) ≡ some row
find_before p [] more row h = absurd cc
find_before p (x ∷ rows) more row h = ground (arith, h, find_before p rows more row)

find_last :
    (p : UpdateRow → Bool) (rows : List UpdateRow) (row : UpdateRow)
    → find p rows ≡ none
    → p row ≡ true
    → find p (rows ++ row ∷ []) ≡ some row
find_last p [] row h e = ground (arith, e)
find_last p (x ∷ rows) row h e = ground (arith, h, e, find_last p rows row)

-- What two rows share, a choice of them has.
whichever :
    {A : Type 0} (g : UpdateRow → A) (b : Bool) (x y : UpdateRow)
    → g x ≡ g y
    → g (if b then x else y) ≡ g y
whichever g true x y h = h
whichever g false x y h = refl

-- A change of some rows that the test does not see.
find-update :
    (p q : UpdateRow → Bool) (f : UpdateRow → UpdateRow) (rows : List UpdateRow) (row : UpdateRow)
    → ((x : UpdateRow) → p (f x) ≡ p x)
    → find p rows ≡ some row
    → find p (update q f rows) ≡ some (if q row then f row else row)
find-update p q f [] row same h = absurd cc
find-update p q f (x ∷ rows) row same h = elim (Bool-cases (p x)) [
  | inl e ↦
      let found : x ≡ row = ground (arith, h, e) in
      rw (whichever (λ y. p y) (q x) (f x) x (same x) ∙ e)
        (ap (λ r. some (if q r then f r else r)) found)
  | inr e ↦
      let rest = find-update p q f rows row same (ground (arith, h, e)) in
      elim (Bool-cases (q x)) [
        | inl chosen ↦ rw chosen (rw (same x) (rw e rest))
        | inr other ↦ rw other (rw e rest)
      ]
]

Change-Names :
    (actor : Uuid) (key : Text) (id : Uuid) (request : Text) (t t' : Tables)
    → Change t t'
    → Names actor key id request t
    → Names actor key id request t'
Change-Names actor key id request t t'
      (filed row rows version fresh unused states updates attachments revisions)
      (old, found, same, asked) =
    (
      old,
      ap (find (has_key actor key)) updates
          ∙ find_before (has_key actor key) t.updates (row ∷ []) old found,
      same,
      asked,
    )
Change-Names actor key id request t t'
      (revised editor as_admin task target content at edited revision current seen updates
        attachments revisions)
      (old, found, same, asked) =
    let after =
      find-update (has_key actor key) (has_update_id target) (set_content content at) t.updates old
        (λ x. refl) found in
    (
      (if has_update_id target old then set_content content at old else old),
      ap (find (has_key actor key)) updates ∙ after,
      whichever (λ r. r.id) (has_update_id target old) (set_content content at old) old refl ∙ same,
      whichever (λ r. r.request_sha256) (has_update_id target old) (set_content content at old) old
            refl
          ∙ asked,
    )
Change-Names actor key id request t t' (arrived target at updates attachments revisions)
      (old, found, same, asked) =
    (old, ap (find (has_key actor key)) updates ∙ found, same, asked)
Change-Names actor key id request t t' (lost target reason updates attachments revisions)
      (old, found, same, asked) =
    (old, ap (find (has_key actor key)) updates ∙ found, same, asked)
Change-Names actor key id request t t' (untouched updates attachments revisions)
      (old, found, same, asked) =
    (old, ap (find (has_key actor key)) updates ∙ found, same, asked)

by_creator_id :
    (project : Uuid) (row : UpdateRow) (o : Option UserRow) (base : Update)
    → by_creator project row o ≡ some base
    → base.id ≡ row.id
by_creator_id project row none base h = absurd cc
by_creator_id project row (some creator) base h = ground (arith, h)

project_update_id :
    (project : Uuid) (t : Tables) (o : Option UpdateRow) (base : Update)
    → project_update project t o ≡ some base
    → (row : UpdateRow) × (o ≡ some row) × (base.id ≡ row.id)
project_update_id project t none base h = absurd cc
project_update_id project t (some row) base h =
    (row, refl, by_creator_id project row (find (has_id row.created_by) t.users) base h)

scan_update_id :
    (project task id : Uuid) (t : Tables) (base : Update)
    → scan_update project task id t ≡ some base
    → base.id ≡ id
scan_update_id project task id t base h =
    let (row, found, same) =
      project_update_id project t (find (is_update_in task id) t.updates) base
        (if_some (any (is_task_in project task) t.tasks) _ base h) in
    let test : is_update_in task id row ≡ true = find-test _ t.updates found in
    same ∙ ground (arith, test)

loaded_id :
    (project task id : Uuid) (t : Tables) (u : Update) → Loaded project task id t u → u.id ≡ id
loaded_id project task id t u l =
    ap (λ (v : Update). v.id) l.whole ∙ scan_update_id project task id t l.base l.scanned

-- A creation that returned, new or repeated, leaves the key naming the update that it returned.
named_by :
    (actor project task : Uuid) (input : ProgressPersistence)
    (attachments : List AttachmentPersistence) (t t' : Tables) (r : Update × Bool)
    → Outcome actor project task input attachments t r t'
    → Names actor input.idempotency_key r.0.id input.request_sha256 t'
named_by actor project task input attachments t t' r (inl (flag, f)) =
    let row = new_update_row f.id f.at actor task input in
    (
      row,
      ap (find (has_key actor input.idempotency_key)) f.updates
          ∙ find_last (has_key actor input.idempotency_key) t.updates row f.unused
              (ground (arith, ==_refl actor, text_eq_refl input.idempotency_key)),
      sym (loaded_id project task f.id t' r.0 f.loaded),
      refl,
    )
named_by actor project task input attachments t t' r (inr (flag, k)) = (
  k.row,
  ap (λ (v : Tables). find (has_key actor input.idempotency_key) v.updates) k.tables ∙ k.found,
  sym (loaded_id project task k.row.id t r.0 k.loaded),
  (text_eq_iff k.row.request_sha256 input.request_sha256).0 k.request,
)

-- What a creation finds under a key that is taken.
repeated_by :
    (actor project task : Uuid) (input : ProgressPersistence)
    (attachments : List AttachmentPersistence) (t t' : Tables) (r : Update × Bool) (id : Uuid)
    (request : Text)
    → Names actor input.idempotency_key id request t
    → Outcome actor project task input attachments t r t'
    → (r.1 ≡ false) × (r.0.id ≡ id) × (input.request_sha256 ≡ request) × (t' ≡ t)
repeated_by actor project task input attachments t t' r id request (row, found, same, asked)
      (inl (flag, f)) =
    absurd (cc (found, f.unused))
repeated_by actor project task input attachments t t' r id request (row, found, same, asked)
      (inr (flag, k)) =
    let one : k.row ≡ row = ground (arith, found, k.found) in
    (
      flag,
      loaded_id project task k.row.id t r.0 k.loaded ∙ ap (λ (v : UpdateRow). v.id) one ∙ same,
      sym ((text_eq_iff k.row.request_sha256 input.request_sha256).0 k.request)
          ∙ ap (λ (v : UpdateRow). v.request_sha256) one
          ∙ asked,
      k.tables,
    )

-- Once the creation of an update has returned, then whatever is written to the diary after it, a
-- creation by the same user under the same key that returns is answered with that update and marked as
-- not new, was the same request by its digest, and has written nothing.
pub create_update_row-repeated :
    (actor project task : Uuid) (input : ProgressPersistence)
    (attachments : List AttachmentPersistence) (event : AuditEvent) (as_admin : Bool)
    (ops : List DiaryWrite) (project' task' : Uuid) (input' : ProgressPersistence)
    (attachments' : List AttachmentPersistence) (event' : AuditEvent) (as_admin' : Bool)
    (w w' : World) {r r' : Update × Bool}
    → (run (create_update_row actor project task input attachments event as_admin) w).0 ≡ ok r
    → w'.tables
      ≡ (write_diaries ops
          (run (create_update_row actor project task input attachments event as_admin) w).1).tables
    → input'.idempotency_key ≡ input.idempotency_key
    → (run (create_update_row actor project' task' input' attachments' event' as_admin') w').0
      ≡ ok r'
    → (r'.1 ≡ false)
      × (r'.0.id ≡ r.0.id)
      × (input'.request_sha256 ≡ input.request_sha256)
      × ((run
            (create_update_row actor project' task' input' attachments' event' as_admin')
            w').1.tables
          ≡ w'.tables)
create_update_row-repeated actor project task input attachments event as_admin ops project' task'
      input' attachments' event' as_admin' w w' {r} {r'} h same key h' =
    let first =
      create_update_row-Yields actor project task input attachments event as_admin
        (run-Yields (create_update_row actor project task input attachments event as_admin) w h) in
    let second =
      create_update_row-Yields actor project' task' input' attachments' event' as_admin' (
        run-Yields (create_update_row actor project' task' input' attachments' event' as_admin') w'
          h') in
    let named = named_by actor project task input attachments _ _ r first.4 in
    let later =
      write_diaries-keeps (Names actor input.idempotency_key r.0.id input.request_sha256) ops
        (run (create_update_row actor project task input attachments event as_admin) w).1
        (Change-Names actor input.idempotency_key r.0.id input.request_sha256) named in
    repeated_by actor project' task' input' attachments' _ _ r' r.0.id input.request_sha256
      (subst (λ v. Names actor v r.0.id input.request_sha256 w'.tables) (sym key)
        (subst (Names actor input.idempotency_key r.0.id input.request_sha256) (sym same) later))
      second.4
