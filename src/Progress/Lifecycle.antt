-- ===== src/Progress/Lifecycle.antt =====
-- Attachments as a state machine: from pending to available or to failed, once, and nothing else of an
-- attachment changes.
use project_progress_registe.Base.{
  ◌≡◌, refl, sym, ap, ◌∙◌, inl, inr, Bool-cases, Bool, true, List, [], ◌∷◌, arith, update, All,
}
use mathlib.Core.Path.{subst}
use project_progress_registe.Text.{Text}
use project_progress_registe.Schema.{
  Uuid, Instant, AttachmentRow, StorageState, pending, available, failed_storage,
}
use project_progress_registe.Progress.Store.{is_pending}
use project_progress_registe.Progress.Attachments.{is_pending_of, make_available, make_failed}

-- What may happen to an attachment.
pub data Step (x y : AttachmentRow) : Type 0 where
  stays : y ≡ x → Step x y
  arrives : (at : Instant) → x.storage_state ≡ pending → y ≡ make_available at x → Step x y
  fails : (reason : Text) → x.storage_state ≡ pending → y ≡ make_failed reason x → Step x y

-- An attachment that came later was pending when it came.
abbrev pub Began : AttachmentRow → Type 0
Began y = (x : AttachmentRow) × (x.storage_state ≡ pending) × Step x y

-- Every attachment took a step, in place, and those that came are behind them.
abbrev pub Evolves : List AttachmentRow → List AttachmentRow → Type 0
Evolves [] ys = All Began ys
Evolves (x ∷ xs) [] = ⊥
Evolves (x ∷ xs) (y ∷ ys) = Step x y × Evolves xs ys

Step-trans : {x y z : AttachmentRow} → Step x y → Step y z → Step x z
Step-trans {z} (stays e) s = subst (λ v. Step v z) e s
Step-trans (arrives at h e) (stays e') = arrives at h (e' ∙ e)
Step-trans (arrives at h e) (arrives at' h' e') =
    absurd (cc (sym (ap (λ (v : AttachmentRow). v.storage_state) e) ∙ h'))
Step-trans (arrives at h e) (fails reason h' e') =
    absurd (cc (sym (ap (λ (v : AttachmentRow). v.storage_state) e) ∙ h'))
Step-trans (fails reason h e) (stays e') = fails reason h (e' ∙ e)
Step-trans (fails reason h e) (arrives at' h' e') =
    absurd (cc (sym (ap (λ (v : AttachmentRow). v.storage_state) e) ∙ h'))
Step-trans (fails reason h e) (fails reason' h' e') =
    absurd (cc (sym (ap (λ (v : AttachmentRow). v.storage_state) e) ∙ h'))

pub Evolves-refl : (xs : List AttachmentRow) → Evolves xs xs
Evolves-refl [] = tt
Evolves-refl (x ∷ xs) = (stays refl, Evolves-refl xs)

pub Evolves-update :
    (p : AttachmentRow → Bool) (f : AttachmentRow → AttachmentRow) (xs : List AttachmentRow)
    → ((x : AttachmentRow) → p x ≡ true → Step x (f x))
    → Evolves xs (update p f xs)
Evolves-update p f [] h = tt
Evolves-update p f (x ∷ xs) h = elim (Bool-cases (p x)) [
  | inl e ↦ rw e (h x e, Evolves-update p f xs h)
  | inr e ↦ rw e (stays refl, Evolves-update p f xs h)
]

pub Evolves-trans : (xs ys zs : List AttachmentRow) → Evolves xs ys → Evolves ys zs → Evolves xs zs
Evolves-trans [] [] zs h k = k
Evolves-trans [] (y ∷ ys) [] h k = absurd k
Evolves-trans [] (y ∷ ys) (z ∷ zs) ((x, began, s), h) (s', k) =
    ((x, began, Step-trans s s'), Evolves-trans [] ys zs h k)
Evolves-trans (x ∷ xs) [] zs h k = absurd h
Evolves-trans (x ∷ xs) (y ∷ ys) [] h k = absurd k
Evolves-trans (x ∷ xs) (y ∷ ys) (z ∷ zs) (s, h) (s', k) =
    (Step-trans s s', Evolves-trans xs ys zs h k)

is_pending_lem : (s : StorageState) → is_pending s ≡ true → s ≡ pending
is_pending_lem pending h = refl
is_pending_lem available h = cc
is_pending_lem failed_storage h = cc

pub is_pending_of_lem :
    (id : Uuid) (x : AttachmentRow) → is_pending_of id x ≡ true → x.storage_state ≡ pending
is_pending_of_lem id x h = is_pending_lem x.storage_state (ground (arith, h))
