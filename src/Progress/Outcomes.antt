-- ===== src/Progress/Outcomes.antt =====
-- What the writes of the diary found and left, when they returned.
use project_progress_registe.Base.{
  ◌≡◌, ◌⊎◌, refl, sym, ap, ◌∙◌, inl, inr, Bool, true, false, not, ◌&&◌, Option, none, some, List,
  [], ◌∷◌, ◌++◌, map, arith, find, any, All, any-find-none, append-nil, append_assoc,
}
use mathlib.Core.Path.{subst}
use project_progress_registe.Text.{text_eq}
use project_progress_registe.Schema.{
  Uuid, Instant, AuditEvent, UpdateRow, AttachmentRow, Tables, pending,
}
use project_progress_registe.Db.{Db, Error, database, append_audit_row, ◌>>=◌}
use project_progress_registe.Db.Steps.{
  Yields, pure-Yields, transaction-Yields, query->>=, gets->>=, now->>=, fresh_id->>=, attempt->>,
  modify->>, raise_if->>, or_raise->>=, insert_audit->>, then-Yields, bind-Yields,
}
use project_progress_registe.Progress.Types.{
  Update, TaskPolicy, AttachmentPersistence, ProgressPersistence,
}
use project_progress_registe.Progress.Store.{
  task_policy, lock_authorized_task, policy_geofence_id, evidence_geofence_id, scan_update,
  load_attachments, load_revisions, load_update,
}
use project_progress_registe.Progress.Updates.{
  has_key, has_update_id, new_update_row, new_attachment_row, insert_attachments, reuse_update,
  insert_update, create_or_reuse, create_update_row,
}

pub lock_authorized_task->>= :
    {B C : Type 0} {b : B} {t t' : Tables} (actor : Uuid) (as_admin : Bool) (project task : Uuid)
    (require_active : Bool) (k : TaskPolicy → Db B)
    → Yields (lock_authorized_task actor as_admin project task require_active >>= k) t b t'
    → ((policy : TaskPolicy)
        → task_policy actor as_admin project task t ≡ some policy
        → (require_active && not policy.active) ≡ false
        → Yields (k policy) t b t'
        → C)
    → C
unfolding lock_authorized_task
lock_authorized_task->>= {b} {t'} actor as_admin project task require_active k y c =
    bind-Yields _ _ y λ policy t₁ locking rest. query->>= _ _ locking λ y₁.
      or_raise->>= _ _ _ y₁ λ found there y₂. raise_if->> _ _ _ y₂ λ active y₃.
        let (same, kept) = pure-Yields _ y₃ in
        c policy (there ∙ ap some (sym same))
          (subst (λ p. (require_active && not p.active) ≡ false) (sym same) active)
          (subst (λ v. Yields (k policy) v b t') kept rest)

-- An update as it is read back.
pub record Loaded (project task id : Uuid) (t : Tables) (u : Update) : Type 0 where
  pub base : Update
  pub scanned : scan_update project task id t ≡ some base
  pub whole :
      u ≡ record base { attachments = load_attachments id t; revisions = load_revisions id t }

pub load_update-Yields :
    (project task id : Uuid) (missing : Error) {t t' : Tables} {u : Update}
    → Yields (load_update project task id missing) t u t'
    → Loaded project task id t u × (t' ≡ t)
unfolding load_update
load_update-Yields project task id missing y = query->>= _ _ y λ y₁.
    or_raise->>= _ _ _ y₁ λ base found y₂. query->>= _ _ y₂ λ y₃. query->>= _ _ y₃ λ y₄.
      let (returned, same) = pure-Yields _ y₄ in
      (record { base = base; scanned = found; whole = returned }, same)

insert_attachments-Yields :
    (id actor : Uuid) (attachments : List AttachmentPersistence) {t t' : Tables}
    → Yields (insert_attachments id actor attachments) t tt t'
    → (rows : List AttachmentRow) × All (λ r. r.storage_state ≡ pending) rows
      × (map (λ r. r.storage_key) rows ≡ map (λ a. a.storage_key) attachments)
      × (t' ≡ record t { attachments = t.attachments ++ rows })
unfolding insert_attachments
insert_attachments-Yields id actor [] {t} {t'} y = (
  [],
  tt,
  refl,
  (pure-Yields tt y).1
      ∙ ap (λ rows. record t { attachments = rows }) (sym (append-nil t.attachments)),
)
insert_attachments-Yields id actor (a ∷ rest) {t} {t'} y = fresh_id->>= _ y λ new y₁.
    now->>= _ y₁ λ at y₂. attempt->> _ _ y₂ λ y₃. gets->>= _ _ y₃ λ y₄.
      raise_if->> _ _ _ y₄ λ free y₅. modify->> _ _ y₅ λ y₆.
        let (rows, states, keys, tables) = insert_attachments-Yields id actor rest y₆ in
        (
          new_attachment_row new at id actor a ∷ rows,
          (refl, states),
          ap (λ ks. a.storage_key ∷ ks) keys,
          tables
              ∙ ap (λ all. record t { attachments = all })
                  (append_assoc t.attachments (new_attachment_row new at id actor a ∷ []) rows),
        )

-- A new update: the key was free, and the update and its pending attachments were appended.
pub record Filed (actor project task : Uuid) (input : ProgressPersistence)
    (attachments : List AttachmentPersistence) (t : Tables) (u : Update) (t' : Tables)
    : Type 0 where
  pub id : Uuid
  pub at : Instant
  pub rows : List AttachmentRow
  pub unused : find (has_key actor input.idempotency_key) t.updates ≡ none
  pub fresh : any (has_update_id id) t.updates ≡ false
  pub updates : t'.updates ≡ t.updates ++ new_update_row id at actor task input ∷ []
  pub states : All (λ r. r.storage_state ≡ pending) rows
  pub keys : map (λ r. r.storage_key) rows ≡ map (λ a. a.storage_key) attachments
  pub stored : t'.attachments ≡ t.attachments ++ rows
  pub revisions : t'.revisions ≡ t.revisions
  pub loaded : Loaded project task id t' u

-- A repeated request: the key named an update of the same request, which is returned, and nothing was
-- written.
pub record Reused (actor project task : Uuid) (input : ProgressPersistence) (t : Tables)
    (u : Update) (t' : Tables) : Type 0 where
  pub row : UpdateRow
  pub found : find (has_key actor input.idempotency_key) t.updates ≡ some row
  pub request : text_eq row.request_sha256 input.request_sha256 ≡ true
  pub loaded : Loaded project task row.id t u
  pub tables : t' ≡ t

abbrev pub Outcome :
    Uuid
    → Uuid
    → Uuid
    → ProgressPersistence
    → List AttachmentPersistence
    → Tables
    → Update × Bool
    → Tables
    → Type 0
Outcome actor project task input attachments t r t' =
    ((r.1 ≡ true) × Filed actor project task input attachments t r.0 t')
    ⊎ ((r.1 ≡ false) × Reused actor project task input t r.0 t')

module _ (actor project task : Uuid) (input : ProgressPersistence)
    (attachments : List AttachmentPersistence) (event : AuditEvent) where
  insert_update-Yields :
      (id : Uuid) (at : Instant) (raced : Bool) {t t' : Tables} {r : Update × Bool}
      → find (has_key actor input.idempotency_key) t.updates ≡ none
      → raced ≡ false
      → Yields (insert_update actor project task input attachments event id at raced) t r t'
      → Outcome actor project task input attachments t r t'
  unfolding insert_update
  insert_update-Yields id at true unused h y = absurd cc
  insert_update-Yields id at false {t} {t'} {r} unused h y = gets->>= _ _ y λ y₁.
      raise_if->> _ _ _ y₁ λ fresh y₂. modify->> _ _ y₂ λ y₃. then-Yields _ _ y₃ λ t₁ inserting y₄.
        insert_audit->> _ _ y₄ λ row audited y₅. bind-Yields _ _ y₅ λ u t₂ loading z.
          let (rows, states, keys, tables) =
            insert_attachments-Yields id actor attachments inserting in
          let (loaded, kept) = load_update-Yields project task id database loading in
          let (returned, same) = pure-Yields _ z in
          let final = same ∙ kept ∙ ap (append_audit_row row) tables in
          inl (
            ap (λ (v : Update × Bool). v.1) returned,
            record {
              id = id;
              at = at;
              rows = rows;
              unused = unused;
              fresh = fresh;
              updates = ap (λ (v : Tables). v.updates) final;
              states = states;
              keys = keys;
              stored = ap (λ (v : Tables). v.attachments) final;
              revisions = ap (λ (v : Tables). v.revisions) final;
              loaded =
                  subst (λ v. Loaded project task id v r.0) (sym (same ∙ kept))
                    (subst (Loaded project task id (append_audit_row row t₁))
                      (sym (ap (λ (v : Update × Bool). v.0) returned)) loaded);
            },
          )

  create_or_reuse-Yields :
      (existing : Option UpdateRow) {t t' : Tables} {r : Update × Bool}
      → existing ≡ find (has_key actor input.idempotency_key) t.updates
      → Yields (create_or_reuse actor project task input attachments event existing) t r t'
      → Outcome actor project task input attachments t r t'
  unfolding create_or_reuse reuse_update
  create_or_reuse-Yields (some row) {t} {t'} {r} e y = raise_if->> _ _ _ y λ same y₁.
      bind-Yields _ _ y₁ λ u t₁ loading z.
        let (loaded, kept) = load_update-Yields project task row.id database loading in
        let (returned, last) = pure-Yields _ z in
        inr (
          ap (λ (v : Update × Bool). v.1) returned,
          record {
            row = row;
            found = sym e;
            request = ground (arith, same);
            loaded =
                subst (Loaded project task row.id t)
                  (sym (ap (λ (v : Update × Bool). v.0) returned)) loaded;
            tables = last ∙ kept;
          },
        )
  create_or_reuse-Yields none {t} e y = fresh_id->>= _ y λ id y₁. now->>= _ y₁ λ at y₂.
      attempt->> _ _ y₂ λ y₃. gets->>= _ _ y₃ λ y₄.
        insert_update-Yields id at _ (sym e)
          (any-find-none (has_key actor input.idempotency_key) t.updates (sym e)) y₄

  -- The policy that the creation saw.
  pub create_update_row-Yields :
      (as_admin : Bool) {t t' : Tables} {r : Update × Bool}
      → Yields (create_update_row actor project task input attachments event as_admin) t r t'
      → (policy : TaskPolicy) × (task_policy actor as_admin project task t ≡ some policy)
        × (policy.active ≡ true)
        × (policy_geofence_id policy ≡ evidence_geofence_id input.evidence)
        × Outcome actor project task input attachments t r t'
  unfolding create_update_row
  create_update_row-Yields as_admin y =
      lock_authorized_task->>= _ _ _ _ _ _ (transaction-Yields _ y) λ policy there active y₁.
        raise_if->> _ _ _ y₁ λ same y₂. query->>= _ _ y₂ λ y₃. (
          policy,
          there,
          ground (arith, active),
          ground (arith, same),
          create_or_reuse-Yields _ refl y₃,
        )
