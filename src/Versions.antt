-- ===== src/Versions.antt =====
-- Rows with versions and the revisions that lead to them, as the tasks and the diary updates keep
-- them: a row has an identifier and a version, and a revision names its row and the versions that it
-- leads from and to.
use project_progress_registe.Base.{
  ℕ, suc, ◌≡◌, refl, sym, ap, ◌∙◌, Bool, true, false, ◌&&◌, Option, some, none, List, [], ◌∷◌, ◌++◌,
  map, arith, ◌==◌, Bool-cases, inl, inr, if◌then◌else◌, find, any, select, update, contains,
  IsDistinct,
}
use mathlib.Core.Path.{subst}

abbrev pub ids : {A : Type 0} → (A → ℕ) → List A → List ℕ
ids id rows = map id rows

module _ {A R : Type 0} (id version : A → ℕ) (owner start stop : R → ℕ) where
  -- A row that is not there is taken to be at version 1.
  abbrev pub version_at : ℕ → List A → ℕ
  version_at k [] = 1
  version_at k (row ∷ rows) = if id row == k then version row else version_at k rows

  -- The version that the revisions of a row lead to, if each follows the one before.
  abbrev pub follow : ℕ → ℕ → List R → Option ℕ
  follow k v [] = some v
  follow k v (r ∷ rs) =
      if owner r == k
      then if start r == v && stop r == suc v then follow k (suc v) rs else none
      else follow k v rs

  abbrev pub IsRecorded : List A → List R → Type 0
  IsRecorded rows revisions =
      IsDistinct (ids id rows) × ((k : ℕ) → follow k 1 revisions ≡ some (version_at k rows))

  follow_on :
      (k v u : ℕ) (xs ys : List R) → follow k v xs ≡ some u → follow k v (xs ++ ys) ≡ follow k u ys
  follow_on k v u [] ys h = ap (λ n. follow k n ys) (ground (arith, h))
  follow_on k v u (x ∷ xs) ys h =
      ground (arith, h, follow_on k (suc v) u xs ys, follow_on k v u xs ys)

  version_at_last :
      (k : ℕ) (rows : List A) (row : A)
      → any (λ r. id r == id row) rows ≡ false
      → version row ≡ 1
      → version_at k (rows ++ row ∷ []) ≡ version_at k rows
  version_at_last k [] row h e = ground (arith, e)
  version_at_last k (x ∷ rows) row h e = ground (arith, h, version_at_last k rows row)

  contains_last :
      (k : ℕ) (rows : List A) (row : A)
      → contains k (ids id rows) ≡ false
      → (id row == k) ≡ false
      → contains k (ids id (rows ++ row ∷ [])) ≡ false
  contains_last k [] row h e = ground (arith, e)
  contains_last k (x ∷ rows) row h e = ground (arith, e, h, contains_last k rows row)

  IsDistinct-last :
      (rows : List A) (row : A)
      → any (λ r. id r == id row) rows ≡ false
      → IsDistinct (ids id rows)
      → IsDistinct (ids id (rows ++ row ∷ []))
  IsDistinct-last [] row h d = (refl, tt)
  IsDistinct-last (x ∷ rows) row h (first, d) = (
    contains_last (id x) rows row first (ground (arith, h)),
    IsDistinct-last rows row (ground (arith, h)) d,
  )

  -- A row that was just made is at version 1, without revisions.
  pub append-IsRecorded :
      (rows : List A) (row : A) (revisions : List R)
      → any (λ r. id r == id row) rows ≡ false
      → version row ≡ 1
      → IsRecorded rows revisions
      → IsRecorded (rows ++ row ∷ []) revisions
  append-IsRecorded rows row revisions fresh first (distinct, followed) = (
    IsDistinct-last rows row fresh distinct,
    λ k. followed k ∙ ap some (sym (version_at_last k rows row fresh first)),
  )

  -- A change of some rows, each with its revision.
  module _ (q : A → Bool) (f : A → A) (g : A → R) (same : (r : A) → id (f r) ≡ id r)
      (next : (r : A) → version (f r) ≡ suc (version r)) (owned : (r : A) → owner (g r) ≡ id r)
      (begins : (r : A) → start (g r) ≡ version r)
      (ends : (r : A) → stop (g r) ≡ suc (version r)) where
    ids-update : (rows : List A) → ids id (update q f rows) ≡ ids id rows
    ids-update [] = refl
    ids-update (x ∷ rows) = elim (Bool-cases (q x)) [
      | inl e ↦ rw e (cc (same x, ids-update rows))
      | inr e ↦ rw e (ap (λ is. id x ∷ is) (ids-update rows))
    ]

    follow_absent :
        (k v : ℕ) (rows : List A)
        → contains k (ids id rows) ≡ false
        → follow k v (map g (select q rows)) ≡ some v
    follow_absent k v [] h = refl
    follow_absent k v (x ∷ rows) h = elim (Bool-cases (q x)) [
      | inl e ↦ rw e (rw (owned x) (ground (arith, h, follow_absent k v rows)))
      | inr e ↦ rw e (follow_absent k v rows (ground (arith, h)))
    ]

    follow_changed :
        (k : ℕ) (rows : List A)
        → IsDistinct (ids id rows)
        → follow k (version_at k rows) (map g (select q rows))
          ≡ some (version_at k (update q f rows))
    follow_changed k [] d = refl
    follow_changed k (x ∷ rows) (h, d) = elim (Bool-cases (q x)) [
      | inl e ↦ rw e (
          rw (owned x) (
            rw (begins x) (
              rw (ends x) (
                rw (same x) (
                  rw (next x) (
                    ground (
                      arith,
                      h,
                      follow_absent k (suc (version x)) rows,
                      follow_changed k rows d,
                    )))))))
      | inr e ↦ rw e (ground (arith, h, follow_absent k (version x) rows, follow_changed k rows d))
    ]

    pub change-IsRecorded :
        (rows : List A) (revisions : List R)
        → IsRecorded rows revisions
        → IsRecorded (update q f rows) (revisions ++ map g (select q rows))
    change-IsRecorded rows revisions (distinct, followed) = (
      subst IsDistinct (sym (ids-update rows)) distinct,
      λ k.
          follow_on k 1 (version_at k rows) revisions (map g (select q rows)) (followed k)
          ∙ follow_changed k rows distinct,
    )

-- A statement on one identifier, and the stricter test that found the row: with distinct
-- identifiers that row is the only one that the statement changes.
module _ {A : Type 0} (id : A → ℕ) (k : ℕ) (p q : A → Bool)
    (stricter : (r : A) → p r ≡ true → q r ≡ true) (named : (r : A) → q r ≡ true → id r ≡ k) where
  found_contains :
      (rows : List A) (row : A) → find p rows ≡ some row → contains k (ids id rows) ≡ true
  found_contains [] row h = absurd cc
  found_contains (x ∷ rows) row h = elim (Bool-cases (p x)) [
    | inl e ↦ ground (arith, named x (stricter x e))
    | inr e ↦ ground (arith, found_contains rows row (ground (arith, h, e)))
  ]

  select_absent : (rows : List A) → contains k (ids id rows) ≡ false → select q rows ≡ []
  select_absent [] h = refl
  select_absent (x ∷ rows) h = elim (Bool-cases (q x)) [
    | inl e ↦ absurd (ground (arith, h, named x e))
    | inr e ↦ rw e (select_absent rows (ground (arith, h)))
  ]

  pub select_found :
      (rows : List A) (row : A)
      → IsDistinct (ids id rows)
      → find p rows ≡ some row
      → select q rows ≡ row ∷ []
  select_found [] row d h = absurd cc
  select_found (x ∷ rows) row (first, d) h = elim (Bool-cases (p x)) [
    | inl e ↦
        let is_k : id x ≡ k = named x (stricter x e) in
        let rest = select_absent rows (subst (λ v. contains v (ids id rows) ≡ false) is_k first) in
        rw (stricter x e) (rw rest (ap (λ r. r ∷ []) (ground (arith, h, e))))
    | inr e ↦
        let later = found_contains rows row (ground (arith, h, e)) in
        elim (Bool-cases (q x)) [
          | inl chosen ↦ absurd (
              cc (first, subst (λ v. contains v (ids id rows) ≡ true) (sym (named x chosen)) later))
          | inr other ↦ rw other (select_found rows row d (ground (arith, h, e)))
        ]
  ]
