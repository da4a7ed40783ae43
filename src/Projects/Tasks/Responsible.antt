-- ===== src/Projects/Tasks/Responsible.antt =====
-- The users responsible for a task: who is accepted, and what is left in the table.
use project_progress_registe.Base.{
  ◌≡◌, refl, sym, ap, ◌∙◌, Bool, true, false, not, ◌&&◌, ◌||◌, List, [], ◌∷◌, ◌++◌, map, arith,
  ◌==◌, ==_refl, ==_iff, Bool-cases, inl, inr, if◌then◌else◌, length, any, select, delete, All,
  contains, contains-sort_ids, sort_ids-IsAscending, IsDistinct, IsAscending, ascending_subset,
}
use mathlib.Core.Path.{subst}
use project_progress_registe.Schema.{Uuid, UserRow, ResponsibilityRow, Tables}
use project_progress_registe.Db.{Db, ◌>>=◌, ◌>>◌}
use project_progress_registe.Db.Steps.{
  Yields, pure-Yields, query->>=, raise_if->>, exec->>, exec-Yields, then-Yields, bind-Yields,
}
use project_progress_registe.Projects.Members.{is_responsibility}
use project_progress_registe.Projects.Tasks.Store.{
  is_eligible, eligible_ids, is_dropped, add_responsibilities, validate_responsible_members,
  replace_task_responsibilities,
}

abbrev pub is_eligible_id : Uuid → Tables → Uuid → Bool
is_eligible_id project t id = any (λ u. u.id == id && is_eligible project t u) t.users

abbrev pub user_ids : List UserRow → List Uuid
user_ids users = map (λ u. u.id) users

contains-select :
    (k : Uuid) (p : UserRow → Bool) (users : List UserRow)
    → contains k (user_ids users) ≡ false
    → contains k (user_ids (select p users)) ≡ false
contains-select k p [] h = refl
contains-select k p (u ∷ users) h = ground (arith, h, contains-select k p users)

select-IsDistinct :
    (p : UserRow → Bool) (users : List UserRow)
    → IsDistinct (user_ids users)
    → IsDistinct (user_ids (select p users))
select-IsDistinct p [] d = tt
select-IsDistinct p (u ∷ users) (h, d) = elim (Bool-cases (p u)) [
  | inl e ↦ rw e (contains-select u.id p users h, select-IsDistinct p users d)
  | inr e ↦ rw e (select-IsDistinct p users d)
]

-- An identifier that the statement selects was asked for, and is that of a user who passes the test.
selected_lem :
    (p : UserRow → Bool) (ids : List Uuid) (k : Uuid) (users : List UserRow)
    → contains k (user_ids (select (λ u. contains u.id ids && p u) users)) ≡ true
    → (contains k ids ≡ true) × (any (λ u. u.id == k && p u) users ≡ true)
selected_lem p ids k [] h = absurd cc
selected_lem p ids k (u ∷ users) h = elim (Bool-cases (k == u.id)) [
  | inl e ↦ elim (Bool-cases (contains u.id ids && p u)) [
    | inl both ↦
        let same : k ≡ u.id = (==_iff k u.id).0 e in
        (ap (λ i. contains i ids) same ∙ ground (arith, both), ground (arith, both, e))
    | inr neither ↦
        let (asked, passed) = selected_lem p ids k users (ground (arith, h, neither)) in
        (asked, ground (arith, passed))
  ]
  | inr e ↦
      let (asked, passed) = selected_lem p ids k users (ground (arith, h, e)) in
      (asked, ground (arith, passed))
]

All-contains {κ} :
    (P : Uuid → Type κ) (xs : List Uuid) → ((k : Uuid) → contains k xs ≡ true → P k) → All P xs
All-contains P [] h = tt
All-contains P (x ∷ xs) h =
    (h x (ground (arith, ==_refl x)), All-contains P xs (λ k e. h k (ground (arith, e))))

any-delete_dropped :
    (task : Uuid) (ids : List Uuid) (k u : Uuid) (rows : List ResponsibilityRow)
    → any (is_responsibility k u) (delete (is_dropped task ids) rows)
      ≡ any (is_responsibility k u) rows && not (k == task && not (contains u ids))
any-delete_dropped task ids k u [] = refl
any-delete_dropped task ids k u (row ∷ rows) = ground (arith, any-delete_dropped task ids k u rows)

any_last :
    (p : ResponsibilityRow → Bool) (rows : List ResponsibilityRow) (row : ResponsibilityRow)
    → any p (rows ++ row ∷ []) ≡ any p rows || p row
any_last p [] row = ground arith
any_last p (x ∷ rows) row = ground (arith, any_last p rows row)

any_known :
    (task id k u : Uuid) (rows : List ResponsibilityRow)
    → any (is_responsibility task id) rows ≡ true
    → (k == task && u == id) ≡ true
    → any (is_responsibility k u) rows ≡ true
any_known task id k u rows h e =
    let same_task : k ≡ task = ground (arith, e) in
    let same_user : u ≡ id = ground (arith, e) in rw same_task (rw same_user h)

absorb :
    (a c d e : Bool)
    → ((d && e) ≡ true → a ≡ true)
    → (a || d && c) ≡ (a || d && (if e then true else c))
absorb true c d e h = refl
absorb false c false e h = refl
absorb false c true true h = absurd (cc (h refl))
absorb false c true false h = refl

any-add_responsibilities :
    (task : Uuid) (ids : List Uuid) (k u : Uuid) (rows : List ResponsibilityRow)
    → any (is_responsibility k u) (add_responsibilities task ids rows)
      ≡ any (is_responsibility k u) rows || (k == task && contains u ids)
any-add_responsibilities task [] k u rows = ground arith
any-add_responsibilities task (id ∷ ids) k u rows =
    elim (Bool-cases (any (is_responsibility task id) rows)) [
      | inl e ↦
          let known = any_known task id k u rows e in
          rw e (
            any-add_responsibilities task ids k u rows
            ∙ absorb (any (is_responsibility k u) rows) (contains u ids) (k == task) (u == id)
                known)
      | inr e ↦
          let added : ResponsibilityRow = record { task_id = task; user_id = id } in
          rw e (
            any-add_responsibilities task ids k u (rows ++ added ∷ [])
            ∙ ap (λ b. b || (k == task && contains u ids))
                (any_last (is_responsibility k u) rows added)
            ∙ ground arith)
    ]

settle_lem : (a d c : Bool) → ((a && not (d && not c)) || (d && c)) ≡ (if d then c else a)
settle_lem a d c = ground arith

-- After the replacement the given users are responsible for the task, and for the other tasks those
-- who were.
pub replaced_lem :
    (task : Uuid) (ids : List Uuid) (k u : Uuid) (rows : List ResponsibilityRow)
    → any
        (is_responsibility k u)
        (add_responsibilities task ids (delete (is_dropped task ids) rows))
      ≡ (if k == task then contains u ids else any (is_responsibility k u) rows)
replaced_lem task ids k u rows =
    any-add_responsibilities task ids k u (delete (is_dropped task ids) rows)
    ∙ ap (λ b. b || (k == task && contains u ids)) (any-delete_dropped task ids k u rows)
    ∙ settle_lem (any (is_responsibility k u) rows) (k == task) (contains u ids)

-- The tables after the replacement.
abbrev pub with_responsible : Uuid → List Uuid → Tables → Tables
with_responsible task ids t = record t {
  responsibilities =
      add_responsibilities task ids (delete (is_dropped task ids) t.responsibilities);
}

replace_task_responsibilities-Yields :
    (task : Uuid) (ids : List Uuid) {t t' : Tables}
    → Yields (replace_task_responsibilities task ids) t tt t'
    → t' ≡ with_responsible task ids t
unfolding replace_task_responsibilities
replace_task_responsibilities-Yields task ids y = exec->> _ _ y λ y₁. exec-Yields _ y₁

asked_lem :
    (project : Uuid) (ids : List Uuid) (t : Tables) (k : Uuid)
    → contains k (eligible_ids project ids t) ≡ true
    → (contains k ids ≡ true) × (is_eligible_id project t k ≡ true)
asked_lem project ids t k h =
    selected_lem (is_eligible project t) ids k t.users (sym (contains-sort_ids k _) ∙ h)

-- As many eligible users as were asked for are all of them.
all_asked :
    (project : Uuid) (ids : List Uuid) (t : Tables)
    → IsDistinct (user_ids t.users)
    → IsAscending ids
    → length (eligible_ids project ids t) ≡ length ids
    → eligible_ids project ids t ≡ ids
all_asked project ids t distinct ascending same =
    (ascending_subset (eligible_ids project ids t) ids
        (sort_ids-IsAscending _ (select-IsDistinct _ t.users distinct)) ascending
        (All-contains _ _ (λ k h. (asked_lem project ids t k h).0))).1
      same

validate_responsible_members-Yields :
    (project : Uuid) (ids : List Uuid) {t t' : Tables} {validated : List Uuid}
    → Yields (validate_responsible_members project ids) t validated t'
    → (t' ≡ t)
      × All (λ id. is_eligible_id project t id ≡ true) validated
      × (IsDistinct (user_ids t.users) → IsAscending ids → validated ≡ ids)
unfolding validate_responsible_members
validate_responsible_members-Yields project [] y =
    let (returned, same) = pure-Yields _ y in
    (same, subst (All _) (sym returned) tt, λ _ _. returned)
validate_responsible_members-Yields project (id ∷ ids) {t} y = query->>= _ _ y λ y₁.
    raise_if->> _ _ _ y₁ λ same y₂.
      let (returned, kept) = pure-Yields _ y₂ in
      (
        kept,
        subst (All _) (sym returned)
            (All-contains _ _ (λ k h. (asked_lem project (id ∷ ids) t k h).1)),
        λ distinct ascending.
            returned ∙ all_asked project (id ∷ ids) t distinct ascending (ground (arith, same)),
      )

module _ {B C : Type 0} {b : B} {t t' : Tables} where
  pub replace_task_responsibilities->> :
      (task : Uuid) (ids : List Uuid) (k : Db B)
      → Yields (replace_task_responsibilities task ids >> k) t b t'
      → (Yields k (with_responsible task ids t) b t' → C)
      → C
  replace_task_responsibilities->> task ids k y c = then-Yields _ _ y λ t₁ replacing rest.
      c (
        subst (λ v. Yields k v b t') (replace_task_responsibilities-Yields task ids replacing) rest)

  pub validate_responsible_members->>= :
      (project : Uuid) (ids : List Uuid) (k : List Uuid → Db B)
      → Yields (validate_responsible_members project ids >>= k) t b t'
      → ((found : List Uuid)
          → All (λ id. is_eligible_id project t id ≡ true) found
          → (IsDistinct (user_ids t.users) → IsAscending ids → found ≡ ids)
          → Yields (k found) t b t'
          → C)
      → C
  validate_responsible_members->>= project ids k y c = bind-Yields _ _ y λ found t₁ validating rest.
      let (same, eligible, all) = validate_responsible_members-Yields project ids validating in
      c found eligible all (subst (λ v. Yields (k found) v b t') same rest)
