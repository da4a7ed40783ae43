-- ===== src/Identity/Blocking.antt =====
-- What the login throttle promises: failures are counted for one identifier and address, within a
-- window, and enough of them block the pair.
use project_progress_registe.Base.{
  ℕ, suc, ◌+◌, ◌≡◌, ◌<◌, ◌≤◌, refl, true, false, Option, none, some, List, [], ◌∷◌, arith, length,
  All,
}
use project_progress_registe.Schema.{Instant, ThrottleRow}
use project_progress_registe.Identity.Throttle.{
  is_after, is_row_blocked, later_block, count_failure,
}

-- Failures one after the other, the latest first.
abbrev pub count_failures : ℕ → ℕ → ℕ → List Instant → ThrottleRow → ThrottleRow
count_failures window maximum block [] row = row
count_failures window maximum block (at ∷ ats) row =
    count_failure at window maximum block (count_failures window maximum block ats row)

-- The times fall in the row's window.
abbrev pub AreInWindow : ℕ → ThrottleRow → List Instant → Type 0
AreInWindow window row ats = All (λ at. at < row.window_started_at + window) ats

module _ (window maximum block : ℕ) (row : ThrottleRow) (fresh : row.failure_count ≡ 0) where
  counted :
      (ats : List Instant)
      → AreInWindow window row ats
      → ((count_failures window maximum block ats row).window_started_at ≡ row.window_started_at)
        × ((count_failures window maximum block ats row).failure_count ≡ length ats)
  unfolding count_failure
  counted [] h = (refl, fresh)
  counted (at ∷ ats) (h, hs) = ground (arith, counted ats hs)

later_block-blocked :
    (old : Option Instant) (until at : Instant)
    → at < until
    → is_after (later_block old until) at ≡ true
unfolding later_block
later_block-blocked old until at h = ground arith

-- Failures in one window that starts with a count of zero are all counted, and once the maximum is
-- reached the row is blocked for the whole block duration after the last of them.
pub is_row_blocked-count_failures :
    (window maximum block : ℕ) (row : ThrottleRow) (last : Instant) (ats : List Instant)
    (at : Instant)
    → row.failure_count ≡ 0
    → AreInWindow window row (last ∷ ats)
    → maximum ≤ suc (length ats)
    → at < last + block
    → ((count_failures window maximum block (last ∷ ats) row).failure_count ≡ suc (length ats))
      × (is_row_blocked (some (count_failures window maximum block (last ∷ ats) row)) at ≡ true)
unfolding is_row_blocked count_failure
is_row_blocked-count_failures window maximum block row last ats at fresh (h, hs) full soon =
    let (start, count) = counted window maximum block row fresh ats hs in
    let before = count_failures window maximum block ats row in
    (
      ground (arith, start, count),
      ground (arith, start, count, later_block-blocked before.blocked_until (last + block) at soon),
    )

-- Fewer failures than the maximum in a window block nothing.
pub is_row_blocked-few :
    (window maximum block : ℕ) (row : ThrottleRow) (ats : List Instant) (at : Instant)
    → row.failure_count ≡ 0
    → row.blocked_until ≡ none
    → AreInWindow window row ats
    → length ats < maximum
    → is_row_blocked (some (count_failures window maximum block ats row)) at ≡ false
unfolding is_row_blocked count_failure
is_row_blocked-few window maximum block row [] at fresh open_row h few = ground arith
is_row_blocked-few window maximum block row (a ∷ ats) at fresh open_row (h, hs) few =
    let (start, count) = counted window maximum block row fresh ats hs in
    ground
      (arith, start, count, is_row_blocked-few window maximum block row ats at fresh open_row hs)
