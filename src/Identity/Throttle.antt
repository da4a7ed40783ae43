-- ===== src/Identity/Throttle.antt =====
-- internal/identity/postgres.go: login throttling by identifier digest and client address.
use project_progress_registe.Base.{
  ℕ, ◌+◌, Bool, false, not, ◌&&◌, Option, none, some, [], ◌∷◌, ◌++◌, ltb, leb, if◌then◌else◌, find,
  any, update, delete,
}
use project_progress_registe.Text.{Text, text_eq}
use project_progress_registe.Schema.{Instant, AuditEvent, ThrottleRow, Tables}
use project_progress_registe.Db.{
  Db, database, query, exec, or_raise, transaction, insert_audit, ◌>>=◌, ◌>>◌,
}

abbrev pub is_throttle : Text → Text → ThrottleRow → Bool
is_throttle digest ip row = text_eq row.identifier_hash digest && text_eq row.client_ip ip

-- `blocked_until > now`, false on NULL
abbrev pub is_after : Option Instant → Instant → Bool
is_after none now = false
is_after (some until) now = ltb now until

unfoldable pub is_row_blocked : Option ThrottleRow → Instant → Bool
is_row_blocked none now = false
is_row_blocked (some row) now = is_after row.blocked_until now

unfoldable pub is_login_blocked : Text → Text → Instant → Db Bool
is_login_blocked digest ip now =
    query (λ t. is_row_blocked (find (is_throttle digest ip) t.throttles) now)

-- `blockedUntil == nil || until.After(*blockedUntil)`
unfoldable pub later_block : Option Instant → Instant → Option Instant
later_block none until = some until
later_block (some old) until = if ltb old until then some until else some old

-- The new row, between the SELECT … FOR UPDATE and the UPDATE of `RecordLoginFailure`.
unfoldable pub count_failure : Instant → ℕ → ℕ → ℕ → ThrottleRow → ThrottleRow
unfolding later_block
count_failure now window maximum block row =
    let fresh : ThrottleRow =
      if not (ltb now (row.window_started_at + window))
      then record row { window_started_at = now; failure_count = 0; blocked_until = none }
      else row in
    let failures = fresh.failure_count + 1 in
    record fresh {
      failure_count = failures;
      blocked_until =
          if leb maximum failures
          then later_block fresh.blocked_until (now + block)
          else fresh.blocked_until;
    }

-- INSERT … ON CONFLICT DO NOTHING
unfoldable pub ensure_throttle : Text → Text → Instant → Tables → Tables
ensure_throttle digest ip now t = if any (is_throttle digest ip) t.throttles then t else record t {
  throttles =
      t.throttles
      ++ record {
        identifier_hash = digest;
        client_ip = ip;
        window_started_at = now;
        failure_count = 0;
        blocked_until = none;
      }
        ∷ [];
}

abbrev pub write_throttle : Text → Text → ThrottleRow → Tables → Tables
write_throttle digest ip row t = record t {
  throttles = update (is_throttle digest ip) (λ _. row) t.throttles;
}

unfoldable pub record_login_failure : Text → Text → Instant → ℕ → ℕ → ℕ → AuditEvent → Db (Unit {0})
record_login_failure digest ip now window maximum block event = transaction do
  exec (ensure_throttle digest ip now)
  found ← query (λ t. find (is_throttle digest ip) t.throttles)
  row ← or_raise found database
  exec (write_throttle digest ip (count_failure now window maximum block row))
  insert_audit event

-- DELETE FROM public.login_throttles, in `CreateLoginSession`
abbrev pub clear_throttle : Text → Text → Tables → Tables
clear_throttle digest ip t = record t { throttles = delete (is_throttle digest ip) t.throttles }
