-- ===== src/Platform.antt =====
-- What the program calls and does not implement: Unicode's case table, address syntax, the digests
-- and the password function of Go's crypto packages, base64 and the Markdown renderer.
use project_progress_registe.Base.{ℕ, Option}
use project_progress_registe.Text.{Text}

pub record Platform : Type 0 where
  -- `unicode.ToLower` beyond ASCII
  pub lower_rune : ℕ → ℕ
  -- `mail.ParseAddress`, the address alone
  pub parse_address : Text → Option Text
  -- `sha256.Sum256`
  pub sha256 : Text → Text
  -- HMAC-SHA-256 of a key and a message
  pub hmac : Text → Text → Text
  -- `argon2.IDKey` of a password and a salt, at the program's cost parameters
  pub argon2 : Text → Text → Text
  -- `base64.RawStdEncoding` and `base64.RawURLEncoding`
  pub std_encode : Text → Text
  pub std_decode : Text → Option Text
  pub url_encode : Text → Text
  -- `fmt.Sprintf("%x", digest)`
  pub hex : Text → Text
