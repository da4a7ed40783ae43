-- ===== src/Identity/Context.antt =====
-- internal/identity/service.go: `cleanAuditContext` and `truncate`.
use project_progress_registe.Base.{ℕ, ◌-◌, [], ◌∷◌, ltb, leb, if◌then◌else◌}
use project_progress_registe.Text.{Text, bad_byte, rune_len, byte_len, trim_space}
use project_progress_registe.Schema.{AuditContext}

-- `value[:maximum]`, less the bytes of a rune that the cut goes through.
unfoldable pub fit : ℕ → Text → Text
fit room [] = []
fit room (c ∷ s) = if leb (rune_len c) room then c ∷ fit (room - rune_len c) s else []

-- The loop that drops the last byte until the rest is valid UTF-8.
unfoldable pub valid_prefix : Text → Text
valid_prefix [] = []
valid_prefix (c ∷ s) = if ltb c bad_byte then c ∷ valid_prefix s else []

unfoldable pub truncate : Text → ℕ → Text
unfolding fit valid_prefix byte_len
truncate value maximum =
    if leb (byte_len value) maximum then value else valid_prefix (fit maximum value)

unfoldable pub clean_audit_context : AuditContext → AuditContext
unfolding truncate trim_space
clean_audit_context value = record {
  request_id = truncate (trim_space value.request_id) 64;
  client_ip = trim_space value.client_ip;
  user_agent = truncate (trim_space value.user_agent) 512;
}
