-- ===== src/Progress/Reconciled.antt =====
-- What a restart leaves of the attachments that were pending.
use project_progress_registe.Base.{
  ◌≡◌, refl, inl, inr, Bool, true, false, Bool-cases, none, List, [], ◌∷◌, arith, ◌==◌, any, find,
  update, select, map, if◌then◌else◌, All,
}
use project_progress_registe.Schema.{Uuid, AttachmentRow}
use project_progress_registe.Progress.Types.{PendingAttachment}
use project_progress_registe.Progress.Store.{is_pending, to_pending}
use project_progress_registe.Progress.Attachments.{is_pending_of}

abbrev pub is_row_pending : AttachmentRow → Bool
is_row_pending row = is_pending row.storage_state

abbrev pub names : Uuid → List PendingAttachment → Bool
names id [] = false
names id (item ∷ items) = if id == item.id then true else names id items

-- Each attachment that is pending is one of the items.
abbrev pub IsListed : List PendingAttachment → List AttachmentRow → Type 0
IsListed items rows = All (λ row. is_row_pending row ≡ true → names row.id items ≡ true) rows

IsListed-cons :
    (item : PendingAttachment) (items : List PendingAttachment) (rows : List AttachmentRow)
    → IsListed items rows
    → IsListed (item ∷ items) rows
IsListed-cons item items [] h = tt
IsListed-cons item items (row ∷ rows) (h, hs) =
    ((λ p. ground (arith, h p)), IsListed-cons item items rows hs)

IsListed-selected :
    (row : AttachmentRow) (rows : List AttachmentRow) (b : Bool)
    → is_row_pending row ≡ b
    → IsListed (map to_pending (select is_row_pending rows)) rows
    → IsListed
        (map to_pending
          (if b then row ∷ select is_row_pending rows else select is_row_pending rows))
        (row ∷ rows)
IsListed-selected row rows true e h = ((λ p. ground arith), IsListed-cons (to_pending row) _ rows h)
IsListed-selected row rows false e h = ((λ p. absurd (cc (p, e))), h)

pub IsListed-pending :
    (rows : List AttachmentRow) → IsListed (map to_pending (select is_row_pending rows)) rows
IsListed-pending [] = tt
IsListed-pending (row ∷ rows) =
    IsListed-selected row rows (is_row_pending row) refl (IsListed-pending rows)

pub IsListed-none : (rows : List AttachmentRow) → IsListed [] rows → any is_row_pending rows ≡ false
IsListed-none [] h = refl
IsListed-none (row ∷ rows) (h, hs) = elim (Bool-cases (is_row_pending row)) [
  | inl e ↦ absurd (cc (h e))
  | inr e ↦ rw e (IsListed-none rows hs)
]

pub IsListed-update :
    (item : PendingAttachment) (items : List PendingAttachment) (f : AttachmentRow → AttachmentRow)
    (rows : List AttachmentRow)
    → ((row : AttachmentRow) → is_row_pending (f row) ≡ false)
    → IsListed (item ∷ items) rows
    → IsListed items (update (is_pending_of item.id) f rows)
IsListed-update item items f [] settled h = tt
IsListed-update item items f (row ∷ rows) settled (h, hs) =
    elim (Bool-cases (is_pending_of item.id row)) [
      | inl e ↦
          rw e ((λ p. absurd (cc (p, settled row))), IsListed-update item items f rows settled hs)
      | inr e ↦
          rw e ((λ p. ground (arith, h p, p, e)), IsListed-update item items f rows settled hs)
    ]

pub IsListed-missed :
    (item : PendingAttachment) (items : List PendingAttachment) (rows : List AttachmentRow)
    → find (is_pending_of item.id) rows ≡ none
    → IsListed (item ∷ items) rows
    → IsListed items rows
IsListed-missed item items [] none_found h = tt
IsListed-missed item items (row ∷ rows) none_found (h, hs) = (
  (λ p. ground (arith, h p, p, none_found)),
  IsListed-missed item items rows (ground (arith, none_found)) hs,
)
