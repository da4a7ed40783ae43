-- ===== src/Migrations/Order.antt =====
-- `Load`: the migrations come in strictly ascending versions, with the digest of their script.
use project_progress_registe.Base.{
  ℕ, ◌≡◌, ◌<◌, refl, sym, ap, ◌∙◌, Bool, true, false, not, ◌||◌, Option, none, some, List, [], ◌∷◌,
  ◌++◌, ltb, ltb→lt, any, All, arith, Bool-cases, inl, inr, if◌then◌else◌,
}
use mathlib.Core.Path.{subst}
use project_progress_registe.Text.{Text}
use project_progress_registe.Migrations.Load.{
  Migration, Entry, Loaded, loaded, failed, has_version, match_name, decimal_from,
  has_sql_extension, insert_migration, sort_migrations, read_body, read_version, read_entry,
  and_load, load_entries, sorted, load,
}

abbrev pub IsAscending : List Migration → Type 0
IsAscending [] = Unit
IsAscending (x ∷ xs) = All (λ y. x.version < y.version) xs × IsAscending xs

abbrev HaveDistinctVersions : List Migration → Type 0
HaveDistinctVersions [] = Unit
HaveDistinctVersions (x ∷ xs) = (any (has_version x.version) xs ≡ false) × HaveDistinctVersions xs

any-insert_migration :
    (v : ℕ) (m : Migration) (xs : List Migration)
    → any (has_version v) (insert_migration m xs) ≡ any (has_version v) (m ∷ xs)
unfolding insert_migration
any-insert_migration v m [] = refl
any-insert_migration v m (x ∷ xs) = ground (arith, any-insert_migration v m xs)

any-sort_migrations :
    (v : ℕ) (xs : List Migration)
    → any (has_version v) (sort_migrations xs) ≡ any (has_version v) xs
unfolding sort_migrations
any-sort_migrations v [] = refl
any-sort_migrations v (x ∷ xs) =
    ground (arith, any-insert_migration v x (sort_migrations xs), any-sort_migrations v xs)

All-above :
    (low high : ℕ) (xs : List Migration)
    → low < high
    → All (λ y. high < y.version) xs
    → All (λ y. low < y.version) xs
All-above low high [] h a = tt
All-above low high (x ∷ xs) h (a, rest) = (omega (arith, h, a), All-above low high xs h rest)

All-insert_migration :
    (low : ℕ) (m : Migration) (xs : List Migration)
    → low < m.version
    → All (λ y. low < y.version) xs
    → All (λ y. low < y.version) (insert_migration m xs)
unfolding insert_migration
All-insert_migration low m [] h a = (h, tt)
All-insert_migration low m (x ∷ xs) h (a, rest) = elim (Bool-cases (ltb m.version x.version)) [
  | inl e ↦ rw e (h, (a, rest))
  | inr e ↦ rw e (a, All-insert_migration low m xs h rest)
]

IsAscending-insert_migration :
    (m : Migration) (xs : List Migration)
    → any (has_version m.version) xs ≡ false
    → IsAscending xs
    → IsAscending (insert_migration m xs)
unfolding insert_migration
IsAscending-insert_migration m [] d a = (tt, tt)
IsAscending-insert_migration m (x ∷ xs) d (a, rest) = elim (Bool-cases (ltb m.version x.version)) [
  | inl e ↦
      let below = ltb→lt m.version x.version e in
      rw e ((below, All-above m.version x.version xs below a), (a, rest))
  | inr e ↦ rw e (
    All-insert_migration x.version m xs (ground (arith, d, e)) a,
    IsAscending-insert_migration m xs (ground (arith, d)) rest,
  )
]

IsAscending-sort_migrations :
    (xs : List Migration) → HaveDistinctVersions xs → IsAscending (sort_migrations xs)
unfolding sort_migrations
IsAscending-sort_migrations [] d = tt
IsAscending-sort_migrations (x ∷ xs) (d, rest) =
    IsAscending-insert_migration x (sort_migrations xs) (any-sort_migrations x.version xs ∙ d)
      (IsAscending-sort_migrations xs rest)

HaveDistinctVersions-append :
    (xs : List Migration) (m : Migration)
    → any (has_version m.version) xs ≡ false
    → HaveDistinctVersions xs
    → HaveDistinctVersions (xs ++ m ∷ [])
HaveDistinctVersions-append [] m d h = (refl, tt)
HaveDistinctVersions-append (x ∷ xs) m d (e, rest) =
    (apart x xs m d e, HaveDistinctVersions-append xs m (ground (arith, d)) rest)
  where
    apart :
        (x : Migration) (xs : List Migration) (m : Migration)
        → any (has_version m.version) (x ∷ xs) ≡ false
        → any (has_version x.version) xs ≡ false
        → any (has_version x.version) (xs ++ m ∷ []) ≡ false
    apart x [] m d e = ground (arith, d)
    apart x (y ∷ ys) m d e = ground (arith, apart x ys m)

then_case : {A : Type 0} {b : Bool} (x y z : A) → b ≡ true → (if b then x else y) ≡ z → x ≡ z
then_case {b} x y z e h = ap (λ c. if c then x else y) (sym e) ∙ h

else_case : {A : Type 0} {b : Bool} (y x z : A) → b ≡ false → (if b then x else y) ≡ z → y ≡ z
else_case {b} y x z e h = ap (λ c. if c then x else y) (sym e) ∙ h

and_load_lem :
    (k : Migration → Loaded (List Migration)) (r : Loaded Migration) {found : List Migration}
    → and_load k r ≡ loaded found
    → (m : Migration) × (r ≡ loaded m) × (k m ≡ loaded found)
unfolding and_load
and_load_lem k (failed e) h = cc
and_load_lem k (loaded m) h = (m, refl, h)

module _ (digest : Text → Text) where
  -- A positive version, and the digest of the script.
  abbrev pub IsRead : Migration → Type 0
  IsRead m = (0 < m.version) × (m.checksum ≡ digest m.sql)

  abbrev AreRead : List Migration → Type 0
  AreRead ms = HaveDistinctVersions ms × All IsRead ms

  All-append_one :
      (ms : List Migration) (m : Migration) → All IsRead ms → IsRead m → All IsRead (ms ++ m ∷ [])
  All-append_one [] m a h = (h, tt)
  All-append_one (x ∷ ms) m (a, rest) h = (a, All-append_one ms m rest h)

  All-insert_one :
      (m : Migration) (ms : List Migration)
      → IsRead m
      → All IsRead ms
      → All IsRead (insert_migration m ms)
  unfolding insert_migration
  All-insert_one m [] h a = (h, tt)
  All-insert_one m (x ∷ ms) h (a, rest) = elim (Bool-cases (ltb m.version x.version)) [
    | inl e ↦ rw e (h, (a, rest))
    | inr e ↦ rw e (a, All-insert_one m ms h rest)
  ]

  All-sort_migrations : (ms : List Migration) → All IsRead ms → All IsRead (sort_migrations ms)
  unfolding sort_migrations
  All-sort_migrations [] a = tt
  All-sort_migrations (x ∷ ms) (a, rest) =
      All-insert_one x (sort_migrations ms) a (All-sort_migrations ms rest)

  read_body-IsRead :
      (name : Text) (version : ℕ) (body : Option Text) {m : Migration}
      → read_body digest name version body ≡ loaded m
      → (m.version ≡ version) × (m.checksum ≡ digest m.sql)
  unfolding read_body
  read_body-IsRead name version none h = ground (arith, h)
  read_body-IsRead name version (some body) h = ground (arith, h)

  read_version-IsRead :
      (seen : List Migration) (name : Text) (version : ℕ) (body : Option Text) {m : Migration}
      → read_version digest seen name version body ≡ loaded m
      → IsRead m × (any (has_version m.version) seen ≡ false)
  unfolding read_version
  read_version-IsRead seen name version body {m} h = elim (Bool-cases (ltb 0 version)) [
    | inl positive ↦ elim (Bool-cases (any (has_version version) seen)) [
      | inl known ↦ ground (arith, h, positive, known)
      | inr new ↦
          let (same, sum) =
            read_body-IsRead name version body {m = m} (ground (arith, h, positive, new)) in
          (
            (subst (λ v. 0 < v) (sym same) (ltb→lt 0 version positive), sum),
            ap (λ v. any (has_version v) seen) same ∙ new,
          )
    ]
    | inr none_positive ↦ ground (arith, h, none_positive)
  ]

  read_entry-IsRead :
      (seen : List Migration) (matched : Option (Text × Text)) (body : Option Text) {m : Migration}
      → read_entry digest seen matched body ≡ loaded m
      → IsRead m × (any (has_version m.version) seen ≡ false)
  unfolding read_entry
  read_entry-IsRead seen none body h = cc
  read_entry-IsRead seen (some (digits, name)) body h =
      read_version-IsRead seen name (decimal_from 0 digits) body h

  load_entries-AreRead :
      (seen : List Migration) (entries : List Entry) {found : List Migration}
      → AreRead seen
      → load_entries digest seen entries ≡ loaded found
      → AreRead found
  unfolding load_entries
  load_entries-AreRead seen [] a h = subst AreRead (ground (arith, h)) a
  load_entries-AreRead seen (entry ∷ entries) {found} a h =
      elim (Bool-cases (entry.is_dir || not (has_sql_extension entry.name))) [
        | inl skipped ↦ load_entries-AreRead seen entries a (then_case _ _ _ skipped h)
        | inr taken ↦
            let (m, got, rest) =
              and_load_lem (λ m. load_entries digest (seen ++ m ∷ []) entries) _
                (else_case _ (load_entries digest seen entries) _ taken h) in
            let (read, new) = read_entry-IsRead seen (match_name entry.name) entry.body got in
            load_entries-AreRead (seen ++ m ∷ []) entries
              (HaveDistinctVersions-append seen m new a.0, All-append_one seen m a.1 read) rest
      ]

  sorted_lem :
      (r : Loaded (List Migration)) {ms : List Migration}
      → sorted r ≡ loaded ms
      → (found : List Migration) × (r ≡ loaded found) × (ms ≡ sort_migrations found)
  unfolding sorted
  sorted_lem (failed e) h = cc
  sorted_lem (loaded found) h = (found, refl, ground (arith, h))

  -- The migrations that `Load` returns come in strictly ascending versions; each has a positive version
  -- and the digest of its script as its checksum.
  pub load-IsAscending :
      (entries : List Entry) {ms : List Migration}
      → load digest entries ≡ loaded ms
      → IsAscending ms × All IsRead ms
  unfolding load
  load-IsAscending entries h =
      let (found, got, same) = sorted_lem (load_entries digest [] entries) h in
      let (distinct, read) = load_entries-AreRead [] entries (tt, tt) got in
      (
        subst IsAscending (sym same) (IsAscending-sort_migrations found distinct),
        subst (All IsRead) (sym same) (All-sort_migrations found read),
      )
