-- ===== src/Identity/Counting.antt =====
-- A recorded login failure, in the table of throttles.
use project_progress_registe.Base.{
  ℕ, ◌≡◌, refl, sym, ap, ◌∙◌, Bool, true, false, Option, none, some, List, [], ◌∷◌, ◌++◌, arith,
  find, any, update, Option-cases, inl, inr,
}
use project_progress_registe.Text.{Text}
use project_progress_registe.Text.Laws.{text_eq_refl}
use project_progress_registe.Schema.{Instant, AuditEvent, ThrottleRow, Tables}
use project_progress_registe.Db.{ok, World, run}
use project_progress_registe.Db.Steps.{run-Yields}
use project_progress_registe.Identity.Revocation.{find-test}
use project_progress_registe.Identity.Throttle.{
  is_throttle, count_failure, ensure_throttle, record_login_failure,
}
use project_progress_registe.Identity.Ops.{record_login_failure-Yields}

find-update_self :
    (p : ThrottleRow → Bool) (row : ThrottleRow) (rows : List ThrottleRow) {old : ThrottleRow}
    → p row ≡ true
    → find p rows ≡ some old
    → find p (update p (λ _. row) rows) ≡ some row
find-update_self p row [] e h = cc
find-update_self p row (x ∷ rows) {old} e h =
    ground (arith, e, find-update_self p row rows {old = old})

is_throttle-count_failure :
    (digest ip : Text) (at window maximum block : ℕ) (row : ThrottleRow)
    → is_throttle digest ip (count_failure at window maximum block row) ≡ is_throttle digest ip row
unfolding count_failure
is_throttle-count_failure digest ip at window maximum block row = ground arith

find-none_last :
    (p : ThrottleRow → Bool) (row : ThrottleRow) (rows : List ThrottleRow)
    → find p rows ≡ none
    → p row ≡ true
    → find p (rows ++ row ∷ []) ≡ some row
find-none_last p row [] h e = ground (arith, e)
find-none_last p row (x ∷ rows) h e = ground (arith, find-none_last p row rows)

find_none_lem :
    (p : ThrottleRow → Bool) (rows : List ThrottleRow) → find p rows ≡ none → any p rows ≡ false
find_none_lem p [] h = refl
find_none_lem p (x ∷ rows) h = ground (arith, find_none_lem p rows)

find_some_lem :
    (p : ThrottleRow → Bool) (rows : List ThrottleRow) {row : ThrottleRow}
    → find p rows ≡ some row
    → any p rows ≡ true
find_some_lem p [] h = cc
find_some_lem p (x ∷ rows) {row} h = ground (arith, find_some_lem p rows {row = row})

abbrev pub new_throttle : Text → Text → Instant → ThrottleRow
new_throttle digest ip now = record {
  identifier_hash = digest;
  client_ip = ip;
  window_started_at = now;
  failure_count = 0;
  blocked_until = none;
}

-- The row of the pair, or a new one without failures.
abbrev pub row_or_new : Text → Text → Instant → Option ThrottleRow → ThrottleRow
row_or_new digest ip now none = new_throttle digest ip now
row_or_new digest ip now (some row) = row

find-ensure_throttle :
    (digest ip : Text) (now : Instant) (t : Tables)
    → find (is_throttle digest ip) (ensure_throttle digest ip now t).throttles
      ≡ some (row_or_new digest ip now (find (is_throttle digest ip) t.throttles))
unfolding ensure_throttle
find-ensure_throttle digest ip now t =
    let p = is_throttle digest ip in
    elim (Option-cases (find p t.throttles)) [
      | inl e ↦ rw (find_none_lem p t.throttles e) (
          find-none_last p (new_throttle digest ip now) t.throttles e
            (ground (arith, text_eq_refl digest, text_eq_refl ip))
          ∙ ap (λ o. some (row_or_new digest ip now o)) (sym e))
      | inr (row, e) ↦
          rw (find_some_lem p t.throttles e)
            (e ∙ ap (λ o. some (row_or_new digest ip now o)) (sym e))
    ]

some_injective : {a b : ThrottleRow} → some a ≡ some b → a ≡ b
some_injective h = ground (arith, h)

-- A login failure that is recorded is counted in the row of its identifier and address, which is made
-- if there was none.
pub record_login_failure_counts :
    (digest ip : Text) (now : Instant) (window maximum block : ℕ) (event : AuditEvent) (w : World)
    → (run (record_login_failure digest ip now window maximum block event) w).0 ≡ ok tt
    → find
        (is_throttle digest ip)
        (run (record_login_failure digest ip now window maximum block event) w).1.tables.throttles
      ≡ some (
          count_failure now window maximum block
            (row_or_new digest ip now (find (is_throttle digest ip) w.tables.throttles)))
record_login_failure_counts digest ip now window maximum block event w h =
    let p = is_throttle digest ip in
    let (old, row, found, audited, tables) =
      record_login_failure-Yields digest ip now window maximum block event
        (run-Yields (record_login_failure digest ip now window maximum block event) w h) in
    let counted : count_failure now window maximum block old
        ≡ count_failure now window maximum block
            (row_or_new digest ip now (find p w.tables.throttles)) =
      ap (count_failure now window maximum block)
        (some_injective (sym found ∙ find-ensure_throttle digest ip now w.tables)) in
    ap (λ (v : Tables). find p v.throttles) tables
    ∙ find-update_self p (count_failure now window maximum block old) _
        (is_throttle-count_failure digest ip now window maximum block old
          ∙ find-test p (ensure_throttle digest ip now w.tables).throttles found)
        found
    ∙ ap (λ v. some v) counted
