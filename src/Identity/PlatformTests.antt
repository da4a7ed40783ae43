-- ===== src/Identity/PlatformTests.antt =====
-- The password verifier, the validators and a login, with a small platform.
use project_progress_registe.Base.{
  ◌+◌, ◌-◌, ◌≡◌, ◌≤◌, refl, ap, true, false, some, [], ◌∷◌, ◌++◌, map, arith, length,
}
use project_progress_registe.Text.{
  Text, codes, text_eq, trim_space, trim_left, trim_right, is_space, to_lower, to_lower_rune,
  byte_len, rune_count, every,
}
use project_progress_registe.Platform.{Platform}
use project_progress_registe.Db.{
  World, ok, run, ◌>>=◌, ◌>>◌, attempt, random_bytes, transaction, finish, commit, query, gets,
  exec, modify, raise_if, now, fresh_id, insert_audit, branch,
}
use project_progress_registe.Identity.Types.{
  to_user, NewUser, LoginInput, LoginResult, validate_username, is_username_rune,
  normalize_identifier, matches_username, is_username_start,
}
use project_progress_registe.Identity.Password.{
  encode_password_hash, decode_password_hash, decode_parts, decode_part, split, split_from,
  check_decoded, hash_password, verify_password,
}
use project_progress_registe.Identity.Verifier.{
  HasNo, decode_password_hash-encode, verify_password-hash,
}
use project_progress_registe.Identity.Validation.{validate_username-ok}
use project_progress_registe.Identity.Tests.{sixteen, new_world, ada, event, context}
use project_progress_registe.Identity.Context.{clean_audit_context, truncate}
use project_progress_registe.Identity.Throttle.{is_login_blocked, is_row_blocked}
use project_progress_registe.Identity.Sessions.{create_login_session}
use project_progress_registe.Identity.Accounts.{
  new_row, insert_user, bootstrap_admin, find_user_by_identifier,
}
use project_progress_registe.Identity.Service.{
  Service, login, check_login, is_malformed_login, settle_login, start_session, new_session_token,
  hash_to_check, identifier_hash, derive_csrf_token,
}
use project_progress_registe.Identity.Access.{IsLoggedIn, login-IsLoggedIn}

abbrev shift : Text → Text
shift = map (λ c. c + 37)

abbrev unshift : Text → Text
unshift = map (λ c. c - 37)

abbrev toy_key : Text → Text → Text
toy_key password salt =
    length password ∷ 1 ∷ sixteen ++ (1 ∷ 2 ∷ 3 ∷ 4 ∷ 5 ∷ 6 ∷ 7 ∷ 8 ∷ 1 ∷ 2 ∷ 3 ∷ 4 ∷ 5 ∷ 6 ∷ [])

abbrev pub toy : Platform
toy = record {
  lower_rune = λ c. c;
  parse_address = λ s. some s;
  sha256 = λ s. s;
  hmac = λ key s. key ++ s;
  argon2 = toy_key;
  std_encode = shift;
  std_decode = λ s. some (unshift s);
  url_encode = shift;
  hex = shift;
}

unshift-shift : (bytes : Text) → unshift (shift bytes) ≡ bytes
unshift-shift [] = refl
unshift-shift (c ∷ s) = ground (arith, unshift-shift s)

shift-decodes : (bytes : Text) → toy.std_decode (toy.std_encode bytes) ≡ some bytes
shift-decodes bytes = ap (λ s. some s) (unshift-shift bytes)

shift-plain : (bytes : Text) → HasNo b'$' (shift bytes)
shift-plain [] = refl
shift-plain (c ∷ s) = ground (arith, shift-plain s)

decode_password_hash-encode_example :
    decode_password_hash toy (encode_password_hash toy sixteen (sixteen ++ sixteen))
    ≡ some (sixteen, sixteen ++ sixteen)
decode_password_hash-encode_example =
    decode_password_hash-encode toy shift-decodes shift-plain sixteen (sixteen ++ sixteen) refl refl

abbrev toy_verifier : Text
toy_verifier = encode_password_hash toy sixteen (toy_key (codes "pw") sixteen)

toy_hashes : (run (hash_password toy (codes "pw")) new_world).0 ≡ ok toy_verifier
unfolding hash_password attempt random_bytes ◌>>=◌ ◌>>◌
toy_hashes = refl

verify_password-hash_example :
    ((run (verify_password toy toy_verifier (codes "pw")) new_world).0 ≡ ok true)
    × (salt : Text) × ((run (verify_password toy toy_verifier (codes "other")) new_world).0
        ≡ ok (text_eq (toy_key (codes "other") salt) (toy_key (codes "pw") salt)))
verify_password-hash_example =
    verify_password-hash toy shift-decodes shift-plain (codes "pw") (codes "other") new_world
      new_world (λ n. refl) (λ secret salt. refl) refl toy_hashes

name_taken : validate_username toy (codes " Ada-1 ") ≡ ok (codes "ada-1")
unfolding validate_username normalize_identifier trim_space trim_left trim_right is_space to_lower
    to_lower_rune matches_username is_username_rune is_username_start every rune_count
name_taken = refl

validate_username-ok_example :
    (codes "ada-1" ≡ normalize_identifier toy (codes " Ada-1 "))
    × (3 ≤ rune_count (codes "ada-1"))
    × (rune_count (codes "ada-1") ≤ 32)
    × (every is_username_rune (codes "ada-1") ≡ true)
    × (validate_username toy (codes "ada-1") ≡ ok (codes "ada-1"))
validate_username-ok_example = validate_username-ok toy (codes " Ada-1 ") name_taken

abbrev ada_with_password : NewUser
ada_with_password = record ada { password_hash = toy_verifier }

abbrev guarded : World
guarded = (run (bootstrap_admin ada_with_password event) new_world).1

abbrev service : Service
service = record {
  csrf_key = sixteen;
  session_ttl = 900;
  dummy_password_hash = [];
  bootstrap_configured = false;
  bootstrap_token_hash = [];
}

abbrev pw_input : LoginInput
pw_input = record { identifier = codes "Ada"; password = codes "pw" }

abbrev pw_result : LoginResult
pw_result = record {
  user = to_user (new_row 103 1003 ada_with_password);
  session_token = shift sixteen;
  csrf_token = shift (sixteen ++ (codes "ppr-csrf-v1" ++ (0 ∷ shift sixteen)));
  expires_at = 1910;
}

ada_logs_in : (run (login toy service pw_input context) guarded).0 ≡ ok pw_result
unfolding login check_login is_malformed_login settle_login start_session new_session_token
    hash_to_check identifier_hash derive_csrf_token is_login_blocked is_row_blocked
    find_user_by_identifier create_login_session clean_audit_context truncate normalize_identifier
    trim_space trim_left trim_right is_space to_lower to_lower_rune byte_len verify_password
    check_decoded decode_password_hash decode_parts decode_part split split_from
    encode_password_hash bootstrap_admin insert_user transaction finish commit attempt query gets
    exec modify raise_if now fresh_id random_bytes insert_audit branch ◌>>=◌ ◌>>◌
ada_logs_in = refl

login-IsLoggedIn_example :
    IsLoggedIn toy service pw_input context
      (guarded.env.clock guarded.calls)
      guarded.tables
      pw_result
      (run (login toy service pw_input context) guarded).1.tables
login-IsLoggedIn_example = login-IsLoggedIn toy service pw_input context guarded ada_logs_in
