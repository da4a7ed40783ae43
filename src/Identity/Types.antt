-- ===== src/Identity/Types.antt =====
-- internal/identity/types.go: the account types and the validation of their fields.
use project_progress_registe.Base.{
  ℕ, ℤ, Bool, true, false, not, ◌&&◌, ◌||◌, Option, none, some, [], ◌∷◌, ltb, leb, ◌==◌,
  if◌then◌else◌,
}
use project_progress_registe.Text.{
  Text, codes, text_eq, byte_len, rune_count, valid_string, trim_space, to_lower, contains_any,
  contains_rune, every,
}
use project_progress_registe.Schema.{Uuid, Instant, Role, admin, member, UserRow}
use project_progress_registe.Db.{Result, ok, err, validation}
use project_progress_registe.Platform.{Platform}

-- The account projection used outside persistence.
pub record User : Type 0 where
  pub id : Uuid
  pub username : Text
  pub email : Text
  pub role : Role
  pub enabled : Bool
  pub must_change_password : Bool
  pub created_at : Instant
  pub updated_at : Instant
  pub version : ℕ

abbrev pub to_user : UserRow → User
to_user u = record {
  id = u.id;
  username = u.username;
  email = u.email;
  role = u.role;
  enabled = u.enabled;
  must_change_password = u.must_change_password;
  created_at = u.created_at;
  updated_at = u.updated_at;
  version = u.version;
}

pub record Session : Type 0 where
  pub id : Uuid
  pub user : User
  pub expires_at : Instant

pub record BootstrapInput : Type 0 where
  pub bootstrap_token : Text
  pub username : Text
  pub email : Text
  pub password : Text

pub record LoginInput : Type 0 where
  pub identifier : Text
  pub password : Text

pub record LoginResult : Type 0 where
  pub user : User
  pub session_token : Text
  pub csrf_token : Text
  pub expires_at : Instant

-- The validated, hashed persistence input.
pub record NewUser : Type 0 where
  pub username : Text
  pub email : Text
  pub password_hash : Text
  pub role : Role
  pub created_by : Uuid
  pub must_change_password : Bool

pub record CreateUserInput : Type 0 where
  pub username : Text
  pub email : Text
  pub role : Text

pub record UpdateUserInput : Type 0 where
  pub role : Text
  pub enabled : Option Bool
  pub expected_version : ℤ

pub record CredentialResult : Type 0 where
  pub user : User
  pub temporary_password : Text

abbrev pub is_admin : Role → Bool
is_admin admin = true
is_admin member = false

-- `^[a-z0-9][a-z0-9._-]{2,31}$`
unfoldable pub is_username_start : ℕ → Bool
is_username_start c = (leb b'a' c && leb c b'z') || (leb b'0' c && leb c b'9')

unfoldable pub is_username_rune : ℕ → Bool
unfolding is_username_start
is_username_rune c = is_username_start c || c == b'.' || c == b'_' || c == b'-'

unfoldable pub matches_username : Text → Bool
unfolding is_username_start is_username_rune every rune_count
matches_username [] = false
matches_username (c ∷ s) =
    is_username_start c && every is_username_rune s && leb 2 (rune_count s) && leb (rune_count s) 31

unfoldable pub validate_password : Text → Result (Unit {0})
unfolding valid_string rune_count byte_len
validate_password value =
    if not (valid_string value)
    then err (validation "password")
    else if ltb (rune_count value) 12
    then err (validation "password")
    else if ltb 128 (byte_len value)
    then err (validation "password")
    else ok tt

module _ (p : Platform) where
  unfoldable pub normalize_identifier : Text → Text
  unfolding trim_space to_lower
  normalize_identifier value = to_lower p.lower_rune (trim_space value)

  unfoldable pub validate_role : Text → Result Role
  unfolding trim_space to_lower
  validate_role value =
      let value' = to_lower p.lower_rune (trim_space value) in
      if text_eq value' (codes "admin")
      then ok admin
      else if text_eq value' (codes "member")
      then ok member
      else err (validation "role")

  unfoldable pub validate_username : Text → Result Text
  unfolding normalize_identifier matches_username
  validate_username value =
      let value' = normalize_identifier value in
      if matches_username value' then ok value' else err (validation "username")

  -- `parsed.Address != value`, and a value that does not parse.
  unfoldable pub is_plain_address : Text → Bool
  is_plain_address value = elim (p.parse_address value) [
    | none ↦ false
    | some address ↦ text_eq address value
  ]

  unfoldable pub validate_email : Text → Result Text
  unfolding normalize_identifier is_plain_address byte_len contains_any contains_rune
  validate_email value =
      let value' = normalize_identifier value in
      if ltb 254 (byte_len value') || contains_any value' (13 ∷ 10 ∷ [])
      then err (validation "email")
      else if not (is_plain_address value') || not (contains_rune b'@' value')
      then err (validation "email")
      else ok value'
