-- ===== src/Base/Sorting.antt =====
-- Sorting of identifiers, as `sort.Strings` and ORDER BY do, and lists without repetition.
use Prim.Native.Nat.{ℕ, ◌≤◌, ◌<◌}
use mathlib.Core.Path.{◌≡◌, refl, sym, ap, ◌∙◌}
use mathlib.Core.Bool.{Bool, true, false}
use mathlib.Core.Logic.{inl, inr}
use mathlib.Core.List.{List, [], ◌∷◌}
use native.Mathlib.Omega.{arith}
use project_progress_registe.Base.Tests.{leb, ◌==◌, if◌then◌else◌, Bool-cases, ==_iff}
use project_progress_registe.Base.Lists.{length, All}

abbrev pub contains : ℕ → List ℕ → Bool
contains n [] = false
contains n (x ∷ xs) = if n == x then true else contains n xs

abbrev pub insert_sorted : ℕ → List ℕ → List ℕ
insert_sorted n [] = n ∷ []
insert_sorted n (x ∷ xs) = if leb n x then n ∷ x ∷ xs else x ∷ insert_sorted n xs

unfoldable pub sort_ids : List ℕ → List ℕ
sort_ids [] = []
sort_ids (x ∷ xs) = insert_sorted x (sort_ids xs)

abbrev pub IsDistinct : List ℕ → Type 0
IsDistinct [] = Unit
IsDistinct (x ∷ xs) = (contains x xs ≡ false) × IsDistinct xs

abbrev pub IsAscending : List ℕ → Type 0
IsAscending [] = Unit
IsAscending (x ∷ xs) = All (λ y. x < y) xs × IsAscending xs

pub length-insert_sorted : (n : ℕ) (xs : List ℕ) → length (insert_sorted n xs) ≡ length (n ∷ xs)
length-insert_sorted n [] = refl
length-insert_sorted n (x ∷ xs) = ground (arith, length-insert_sorted n xs)

contains-insert_sorted :
    (k n : ℕ) (xs : List ℕ) → contains k (insert_sorted n xs) ≡ contains k (n ∷ xs)
contains-insert_sorted k n [] = refl
contains-insert_sorted k n (x ∷ xs) = ground (arith, contains-insert_sorted k n xs)

pub contains-sort_ids : (k : ℕ) (xs : List ℕ) → contains k (sort_ids xs) ≡ contains k xs
unfolding sort_ids
contains-sort_ids k [] = refl
contains-sort_ids k (x ∷ xs) =
    contains-insert_sorted k x (sort_ids xs)
    ∙ ap (λ b. if k == x then true else b) (contains-sort_ids k xs)

All-insert_sorted {κ} :
    (P : ℕ → Type κ) (n : ℕ) (xs : List ℕ) → P n → All P xs → All P (insert_sorted n xs)
All-insert_sorted P n [] h hs = (h, tt)
All-insert_sorted P n (x ∷ xs) h (hx, hs) = elim (Bool-cases (leb n x)) [
  | inl e ↦ rw e (h, (hx, hs))
  | inr e ↦ rw e (hx, All-insert_sorted P n xs h hs)
]

above_trans : (n x : ℕ) (xs : List ℕ) → n < x → All (λ y. x < y) xs → All (λ y. n < y) xs
above_trans n x [] h hs = tt
above_trans n x (y ∷ ys) h (hy, hs) = (omega arith, above_trans n x ys h hs)

insert_sorted-IsAscending :
    (n : ℕ) (xs : List ℕ)
    → contains n xs ≡ false
    → IsAscending xs
    → IsAscending (insert_sorted n xs)
insert_sorted-IsAscending n [] h a = (tt, tt)
insert_sorted-IsAscending n (x ∷ xs) h (ha, a) = elim (Bool-cases (leb n x)) [
  | inl e ↦ let lt : n < x = ground (arith, h, e) in rw e ((lt, above_trans n x xs lt ha), (ha, a))
  | inr e ↦ rw e (
    All-insert_sorted (λ y. x < y) n xs (ground (arith, e)) ha,
    insert_sorted-IsAscending n xs (ground (arith, h)) a,
  )
]

-- Sorted identifiers without repetition ascend strictly.
pub sort_ids-IsAscending : (xs : List ℕ) → IsDistinct xs → IsAscending (sort_ids xs)
unfolding sort_ids
sort_ids-IsAscending [] d = tt
sort_ids-IsAscending (x ∷ xs) (h, d) =
    insert_sorted-IsAscending x (sort_ids xs) (contains-sort_ids x xs ∙ h)
      (sort_ids-IsAscending xs d)

contains_above : (k n : ℕ) (xs : List ℕ) → contains k xs ≡ true → All (λ y. n < y) xs → n < k
contains_above k n [] h a = absurd (cc)
contains_above k n (x ∷ xs) h (hx, a) = elim (Bool-cases (k == x)) [
  | inl e ↦ ground (arith, e)
  | inr e ↦ contains_above k n xs (ground (arith, e, h)) a
]

-- What is contained in a list and above its head is contained in the tail.
tail_contains :
    (y : ℕ) (ys xs : List ℕ)
    → All (λ x. y < x) xs
    → All (λ x. contains x (y ∷ ys) ≡ true) xs
    → All (λ x. contains x ys ≡ true) xs
tail_contains y ys [] a h = tt
tail_contains y ys (x ∷ xs) (ax, a) (hx, h) = (ground (arith, ax, hx), tail_contains y ys xs a h)

-- An ascending list within an ascending list is no longer, and the same if it is as long.
pub ascending_subset :
    (xs ys : List ℕ)
    → IsAscending xs
    → IsAscending ys
    → All (λ x. contains x ys ≡ true) xs
    → (length xs ≤ length ys) × (length xs ≡ length ys → xs ≡ ys)
ascending_subset [] [] a b h = (omega arith, λ _. refl)
ascending_subset [] (y ∷ ys) a b h = (omega arith, λ e. absurd (omega (arith, e)))
ascending_subset (x ∷ xs) [] a b (hx, h) = absurd cc
ascending_subset (x ∷ xs) (y ∷ ys) (ax, a) (by, b) (hx, h) = elim (Bool-cases (x == y)) [
  | inl e ↦
      let same : x ≡ y = (==_iff x y).0 e in
      let (le, eq) = ascending_subset xs ys a b (tail_contains y ys xs (rw (sym same) ax) h) in
      (omega (arith, le), λ el. cc (same, eq (omega (arith, el))))
  | inr e ↦
      let in_tail : contains x ys ≡ true = ground (arith, e, hx) in
      let lt : y < x = contains_above x y ys in_tail by in
      let (le, eq) =
        ascending_subset (x ∷ xs) ys (ax, a) b
          (tail_contains y ys (x ∷ xs) (lt, above_trans y x xs lt ax) (hx, h)) in
      (omega (arith, le), λ el. absurd (omega (arith, el, le)))
]
