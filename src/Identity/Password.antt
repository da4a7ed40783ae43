-- ===== src/Identity/Password.antt =====
-- internal/identity/password.go: the encoded Argon2id verifier and its check.
use project_progress_registe.Base.{
  ℕ, Bool, not, ◌||◌, Option, none, some, List, [], ◌∷◌, ◌++◌, ◌==◌, length, if◌then◌else◌,
}
use project_progress_registe.Text.{Text, codes, text_eq}
use project_progress_registe.Platform.{Platform}
use project_progress_registe.Db.{
  Db, err, hash_format, slot, random_source, attempt, lift, pure, random_bytes, ◌>>=◌, ◌>>◌,
}

-- `strings.Split(s, sep)` at one rune: `current` is the part that is being read.
unfoldable pub split_from : ℕ → Text → Text → List Text
split_from sep current [] = current ∷ []
split_from sep current (c ∷ s) =
    let closed = current ∷ split_from sep [] s in
    let longer = split_from sep (current ++ c ∷ []) s in if c == sep then closed else longer

unfoldable pub split : ℕ → Text → List Text
unfolding split_from
split sep s = split_from sep [] s

abbrev pub version_part : Text
version_part = codes "v=19"

abbrev pub cost_part : Text
cost_part = codes "m=19456,t=2,p=1"

abbrev pub argon_salt_length : ℕ
argon_salt_length = 16

abbrev pub argon_key_length : ℕ
argon_key_length = 32

module _ (p : Platform) where
  unfoldable pub encode_password_hash : Text → Text → Text
  encode_password_hash salt key =
      codes "$argon2id$"
      ++ (version_part
          ++ (b'$' ∷ (cost_part ++ (b'$' ∷ (p.std_encode salt ++ (b'$' ∷ p.std_encode key))))))

  -- A decoded part of the right length.
  unfoldable pub decode_part : ℕ → Text → Option Text
  decode_part size part = elim (p.std_decode part) [
    | none ↦ none
    | some bytes ↦ if length bytes == size then some bytes else none
  ]

  unfoldable pub decode_parts : List Text → Option (Text × Text)
  unfolding decode_part
  decode_parts (_ ∷ kind ∷ version ∷ cost ∷ salt ∷ key ∷ []) =
      if not (text_eq kind (codes "argon2id")) || not (text_eq version version_part)
      then none
      else if not (text_eq cost cost_part)
      then none
      else elim (decode_part argon_salt_length salt) [
        | none ↦ none
        | some salt' ↦ elim (decode_part argon_key_length key) [
          | none ↦ none
          | some key' ↦ some (salt', key')
        ]
      ]
  decode_parts _ = none

  unfoldable pub decode_password_hash : Text → Option (Text × Text)
  unfolding decode_parts split
  decode_password_hash encoded = decode_parts (split b'$' encoded)

  -- `passwordHasher.Hash`: a slot, a random salt, the key.
  unfoldable pub hash_password : Text → Db Text
  hash_password password = do
    attempt slot
    salt ← random_bytes
    attempt random_source
    pure (encode_password_hash salt (p.argon2 password salt))

  unfoldable pub check_decoded : Option (Text × Text) → Text → Db Bool
  check_decoded none password = lift (err hash_format)
  check_decoded (some (salt, expected)) password = do
    attempt slot
    pure (text_eq (p.argon2 password salt) expected)

  -- `passwordHasher.Verify`
  unfoldable pub verify_password : Text → Text → Db Bool
  verify_password encoded password = check_decoded (decode_password_hash encoded) password
