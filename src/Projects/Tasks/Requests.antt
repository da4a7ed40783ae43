-- ===== src/Projects/Tasks/Requests.antt =====
-- What the validation of a task accepts, and what a request to create one stores.
use project_progress_registe.Base.{
  ℕ, ◌≡◌, ◌≤◌, refl, sym, ap, ◌∙◌, Bool, true, false, ◌||◌, Option, none, some, List, [], ◌∷◌, ◌++◌,
  arith, ◌==◌, Bool-cases, inl, inr, if◌then◌else◌, any, ltb, contains, sort_ids, contains-sort_ids,
  sort_ids-IsAscending, IsDistinct, IsAscending,
}
use mathlib.Core.Path.{subst}
use project_progress_registe.Db.Laws.{Result-cases}
use project_progress_registe.Text.{Text, byte_len, rune_count, trim_space, to_lower}
use project_progress_registe.Schema.{Uuid}
use project_progress_registe.Db.{Error, Result, ok, err, validation}
use project_progress_registe.Projects.Tasks.Types.{
  TaskPersistenceInput, task_uuid, add_responsible, collect_responsible, validate_target_date,
  persistence, validate_task,
}

abbrev pub is_id : Uuid → Option Uuid → Bool
is_id k none = false
is_id k (some id) = id == k

-- The text stands for the identifier.
abbrev pub stands_for : (ℕ → ℕ) → Uuid → Text → Bool
stands_for lower k raw = is_id k (task_uuid (to_lower lower (trim_space raw)))

pub record Accepted (lower : ℕ → ℕ) (name goals description : Text) (responsible : List Text)
    (input : TaskPersistenceInput) : Type 0 where
  pub named : input.name ≡ trim_space name
  pub nonempty : 1 ≤ rune_count input.name
  pub short : rune_count input.name ≤ 160
  pub goals_kept : input.goals_markdown ≡ goals
  pub goals_short : byte_len goals ≤ 20000
  pub description_kept : input.description_markdown ≡ description
  pub description_short : byte_len description ≤ 50000
  pub ascending : IsAscending input.responsible_user_ids
  pub whole :
      (k : Uuid)
      → contains k input.responsible_user_ids ≡ any (λ raw. stands_for lower k raw) responsible

contains_last :
    (k : Uuid) (ids : List Uuid) (id : Uuid)
    → contains k (ids ++ id ∷ []) ≡ contains k ids || (id == k)
contains_last k [] id = ground arith
contains_last k (x ∷ ids) id = ground (arith, contains_last k ids id)

IsDistinct-last :
    (ids : List Uuid) (id : Uuid)
    → contains id ids ≡ false
    → IsDistinct ids
    → IsDistinct (ids ++ id ∷ [])
IsDistinct-last [] id h d = (refl, tt)
IsDistinct-last (x ∷ ids) id h (first, d) = (
  contains_last x ids id ∙ ground (arith, h, first),
  IsDistinct-last ids id (ground (arith, h)) d,
)

added :
    (ids : List Uuid) (o : Option Uuid) {more : List Uuid}
    → add_responsible ids o ≡ ok more
    → IsDistinct ids
    → IsDistinct more × ((k : Uuid) → contains k more ≡ contains k ids || is_id k o)
unfolding add_responsible
added ids none h d = absurd cc
added ids (some id) {more} h d = elim (Bool-cases (contains id ids)) [
  | inl e ↦ absurd (ground (arith, h, e))
  | inr e ↦
      let made : more ≡ ids ++ id ∷ [] = ground (arith, h, e) in
      (
        subst IsDistinct (sym made) (IsDistinct-last ids id e d),
        λ k. ap (contains k) made ∙ contains_last k ids id,
      )
]

collected :
    (lower : ℕ → ℕ) (ids : List Uuid) (raws : List Text) {out : List Uuid}
    → collect_responsible lower ids raws ≡ ok out
    → IsDistinct ids
    → IsDistinct out
      × ((k : Uuid) → contains k out ≡ contains k ids || any (λ raw. stands_for lower k raw) raws)
unfolding collect_responsible
collected lower ids [] {out} h d =
    let same : out ≡ ids = ground (arith, h) in
    (subst IsDistinct (sym same) d, λ k. ap (contains k) same ∙ ground arith)
collected lower ids (raw ∷ raws) {out} h d =
    elim (Result-cases (add_responsible ids (task_uuid (to_lower lower (trim_space raw))))) [
      | inl (e, failed) ↦ absurd (ground (arith, h, failed))
      | inr (more, one) ↦
          let (distinct, first) = added ids (task_uuid (to_lower lower (trim_space raw))) one d in
          let (ends, rest) =
            collected lower more raws {out = out} (ground (arith, h, one)) distinct in
          (ends, λ k. ground (arith, first k, rest k))
    ]

guards :
    {A : Type 0} (a b c : Bool) (e₁ e₂ e₃ : Result A) (r : Result A) {x : A}
    → (e : Error) × (e₁ ≡ err e)
    → (e : Error) × (e₂ ≡ err e)
    → (e : Error) × (e₃ ≡ err e)
    → (if a then e₁ else if b then e₂ else if c then e₃ else r) ≡ ok x
    → (a ≡ false) × (b ≡ false) × (c ≡ false) × (r ≡ ok x)
guards true b c e₁ e₂ e₃ r (e, h) k l m = absurd (cc (h, m))
guards false true c e₁ e₂ e₃ r k (e, h) l m = absurd (cc (h, m))
guards false false true e₁ e₂ e₃ r k l (e, h) m = absurd (cc (h, m))
guards false false false e₁ e₂ e₃ r k l h m = (refl, refl, refl, m)

persistence_ok :
    (name goals description : Text) (ids : Result (List Uuid)) (date : Result Text)
    {input : TaskPersistenceInput}
    → persistence name goals description ids date ≡ ok input
    → (found : List Uuid) × (ids ≡ ok found)
      × (input.name ≡ name)
      × (input.goals_markdown ≡ goals)
      × (input.description_markdown ≡ description)
      × (input.responsible_user_ids ≡ sort_ids found)
      × (date ≡ ok input.target_date)
persistence_ok name goals description (err e) date h = absurd cc
persistence_ok name goals description (ok found) (err e) h = absurd cc
persistence_ok name goals description (ok found) (ok date) h = (
  found,
  refl,
  ground (arith, h),
  ground (arith, h),
  ground (arith, h),
  ground (arith, h),
  ground (arith, h),
)

-- No date, or the requested one, trimmed, which is a date.
abbrev pub IsDated : (Text → Bool) → Option Text → Text → Type 0
IsDated is_date none target = target ≡ []
IsDated is_date (some date) target = (target ≡ trim_space date) × (is_date target ≡ true)

module _ (lower : ℕ → ℕ) (is_date : Text → Bool) where
  checked :
      (name goals description : Text) (responsible : List Text) (date : Option Text)
      {input : TaskPersistenceInput}
      → validate_task lower is_date name goals description responsible date ≡ ok input
      → ((ltb (rune_count (trim_space name)) 1 || ltb 160 (rune_count (trim_space name))) ≡ false)
        × (ltb 20000 (byte_len goals) ≡ false)
        × (ltb 50000 (byte_len description) ≡ false)
        × (persistence
              (trim_space name)
              goals
              description
              (collect_responsible lower [] responsible)
              (validate_target_date is_date date)
            ≡ ok input)
  unfolding validate_task
  checked name goals description responsible date h =
      guards (ltb (rune_count (trim_space name)) 1 || ltb 160 (rune_count (trim_space name)))
        (ltb 20000 (byte_len goals)) (ltb 50000 (byte_len description)) (err (validation "name"))
        (err (validation "goals_markdown")) (err (validation "description_markdown"))
        (persistence (trim_space name) goals description (collect_responsible lower [] responsible)
          (validate_target_date is_date date))
        (validation "name", refl) (validation "goals_markdown", refl)
        (validation "description_markdown", refl) h

  validate_target_date-IsDated :
      (date : Option Text) {target : Text}
      → validate_target_date is_date date ≡ ok target
      → IsDated is_date date target
  unfolding validate_target_date
  validate_target_date-IsDated none h = ground (arith, h)
  validate_target_date-IsDated (some d) {target} h = elim (Bool-cases (is_date (trim_space d))) [
    | inl e ↦
        let same : target ≡ trim_space d = ground (arith, e, h) in
        (same, subst (λ v. is_date v ≡ true) (sym same) e)
    | inr e ↦ absurd (ground (arith, e, h))
  ]

  -- The date of a task that is accepted is the requested one.
  pub validate_task-IsDated :
      (name goals description : Text) (responsible : List Text) (date : Option Text)
      {input : TaskPersistenceInput}
      → validate_task lower is_date name goals description responsible date ≡ ok input
      → IsDated is_date date input.target_date
  validate_task-IsDated name goals description responsible date h =
      let (lengths, fits, fits', passed) = checked name goals description responsible date h in
      let (found, collecting, named, goals_kept, description_kept, ids, dated) =
        persistence_ok (trim_space name) goals description
          (collect_responsible lower [] responsible) (validate_target_date is_date date) passed in
      validate_target_date-IsDated date dated

  -- A task that is accepted: its name is the trimmed one, of 1 to 160 characters, its goals take at
  -- most 20000 bytes and its description 50000, and the responsible users ascend strictly and are
  -- exactly those whom the given texts stand for.
  pub validate_task-Accepted :
      (name goals description : Text) (responsible : List Text) (date : Option Text)
      {input : TaskPersistenceInput}
      → validate_task lower is_date name goals description responsible date ≡ ok input
      → Accepted lower name goals description responsible input
  validate_task-Accepted name goals description responsible date {input} h =
      let trimmed = trim_space name in
      let (lengths, fits, fits', passed) = checked name goals description responsible date h in
      let (found, collecting, named, goals_kept, description_kept, ids, dated) =
        persistence_ok trimmed goals description (collect_responsible lower [] responsible)
          (validate_target_date is_date date) passed in
      let (distinct, whole) = collected lower [] responsible collecting tt in
      record {
        named = named;
        nonempty = subst (λ s. 1 ≤ rune_count s) (sym named) (ground (arith, lengths));
        short = subst (λ s. rune_count s ≤ 160) (sym named) (ground (arith, lengths));
        goals_kept = goals_kept;
        goals_short = ground (arith, fits);
        description_kept = description_kept;
        description_short = ground (arith, fits');
        ascending = subst IsAscending (sym ids) (sort_ids-IsAscending found distinct);
        whole = λ k. ap (contains k) ids ∙ contains-sort_ids k found ∙ whole k;
      }
