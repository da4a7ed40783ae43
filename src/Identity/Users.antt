-- ===== src/Identity/Users.antt =====
-- The rows of public.users: no two share an id, a username or an email, and the rows that a test
-- counts under an update of one of them.
use project_progress_registe.Base.{
  ℕ, ◌+◌, ◌≡◌, refl, Bool, true, false, some, List, [], ◌∷◌, ◌++◌, arith, ◌==◌, if◌then◌else◌, find,
  any, count, update, All,
}
use project_progress_registe.Text.{Text, text_eq}
use project_progress_registe.Schema.{Uuid, Instant, UserRow}
use project_progress_registe.Identity.Types.{NewUser}
use project_progress_registe.Identity.Sessions.{has_id}
use project_progress_registe.Identity.Accounts.{clashes, new_row}

abbrev pub Apart : UserRow → UserRow → Type 0
Apart u v =
    ((v.id == u.id) ≡ false)
    × (text_eq v.username u.username ≡ false)
    × (text_eq v.email u.email ≡ false)

-- No two rows share an id, a username or an email.
abbrev pub IsDistinct : List UserRow → Type 0
IsDistinct [] = Unit
IsDistinct (u ∷ us) = All (Apart u) us × IsDistinct us

-- A change that keeps the keys.
abbrev pub KeepsKeys : (UserRow → UserRow) → Type 0
KeepsKeys f =
    (u : UserRow) → ((f u).id ≡ u.id) × ((f u).username ≡ u.username) × ((f u).email ≡ u.email)

module _ (p : UserRow → Bool) (f : UserRow → UserRow) (keeps : KeepsKeys f) where
  Apart-update :
      (u : UserRow) (us : List UserRow) → All (Apart u) us → All (Apart u) (update p f us)
  Apart-update u [] h = tt
  Apart-update u (v ∷ us) (h, hs) = (ground (arith, keeps v), Apart-update u us hs)

  Apart-changed :
      (u : UserRow) (us : List UserRow) → All (Apart u) us → All (Apart (if p u then f u else u)) us
  Apart-changed u [] h = tt
  Apart-changed u (v ∷ us) (h, hs) = (ground (arith, keeps u), Apart-changed u us hs)

  pub IsDistinct-update : (us : List UserRow) → IsDistinct us → IsDistinct (update p f us)
  IsDistinct-update [] h = tt
  IsDistinct-update (u ∷ us) (h, hs) =
      (Apart-changed u (update p f us) (Apart-update u us h), IsDistinct-update us hs)

text_eq_comm : (s t : Text) → text_eq s t ≡ text_eq t s
text_eq_comm [] [] = refl
text_eq_comm [] (d ∷ t) = refl
text_eq_comm (c ∷ s) [] = refl
text_eq_comm (c ∷ s) (d ∷ t) = ground (arith, text_eq_comm s t)

module _ (id : Uuid) (at : Instant) (input : NewUser) where
  Apart-append :
      (u : UserRow) (us : List UserRow)
      → clashes id input u ≡ false
      → All (Apart u) us
      → All (Apart u) (us ++ new_row id at input ∷ [])
  Apart-append u [] c h =
      (ground (arith, text_eq_comm input.username u.username, text_eq_comm input.email u.email), tt)
  Apart-append u (v ∷ us) c (h, hs) = (h, Apart-append u us c hs)

  pub IsDistinct-append :
      (us : List UserRow)
      → any (clashes id input) us ≡ false
      → IsDistinct us
      → IsDistinct (us ++ new_row id at input ∷ [])
  IsDistinct-append [] c h = (tt, tt)
  IsDistinct-append (u ∷ us) c (h, hs) =
      (Apart-append u us (ground arith) h, IsDistinct-append us (ground arith) hs)

abbrev pub weight : Bool → ℕ
weight b = if b then 1 else 0

module _ (p : UserRow → Bool) where
  pub count-append : (us vs : List UserRow) → count p (us ++ vs) ≡ count p us + count p vs
  count-append [] vs = omega arith
  count-append (u ∷ us) vs = ground (arith, count-append us vs)

  count-update_none :
      (id : Uuid) (f : UserRow → UserRow) (us : List UserRow) (u : UserRow)
      → (u.id == id) ≡ true
      → All (Apart u) us
      → count p (update (has_id id) f us) ≡ count p us
  count-update_none id f [] u e h = refl
  count-update_none id f (v ∷ us) u e (h, hs) = ground (arith, count-update_none id f us u e hs)

  -- One row changes, so the count changes by that row.
  pub count-update :
      (id : Uuid) (f : UserRow → UserRow) (us : List UserRow) (u : UserRow)
      → IsDistinct us
      → find (has_id id) us ≡ some u
      → count p (update (has_id id) f us) + weight (p u) ≡ count p us + weight (p (f u))
  count-update id f [] u d h = cc
  count-update id f (v ∷ us) u (d, ds) h =
      ground (arith, count-update_none id f us v, count-update id f us u ds)

  -- A change that the test does not see.
  pub count-update_same :
      (q : UserRow → Bool) (f : UserRow → UserRow) (us : List UserRow)
      → ((u : UserRow) → p (f u) ≡ p u)
      → count p (update q f us) ≡ count p us
  count-update_same q f [] same = refl
  count-update_same q f (u ∷ us) same = ground (arith, same u, count-update_same q f us same)
