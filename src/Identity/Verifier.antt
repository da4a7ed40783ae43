-- ===== src/Identity/Verifier.antt =====
-- The password verifier: what is hashed and encoded is decoded and accepted.
use project_progress_registe.Base.{
  ℕ, suc, ◌≡◌, refl, ap, ◌∙◌, true, false, some, [], ◌∷◌, ◌++◌, arith, ◌==◌, ==_refl, length, any,
}
use project_progress_registe.Text.{Text, codes, text_eq}
use project_progress_registe.Text.Laws.{text_eq_refl}
use project_progress_registe.Platform.{Platform}
use project_progress_registe.Db.{ok, World, run, attempt, random_bytes, ◌>>=◌, ◌>>◌}
use project_progress_registe.Identity.Password.{
  split_from, split, version_part, cost_part, encode_password_hash, decode_part, decode_parts,
  decode_password_hash, hash_password, verify_password, check_decoded,
}

abbrev pub HasNo : ℕ → Text → Type 0
HasNo sep s = any (λ c. c == sep) s ≡ false

++_assoc_one : (s : Text) (c : ℕ) (t : Text) → (s ++ c ∷ []) ++ t ≡ s ++ c ∷ t
++_assoc_one [] c t = refl
++_assoc_one (d ∷ s) c t = ap (λ r. d ∷ r) (++_assoc_one s c t)

++_nil : (s : Text) → s ++ [] ≡ s
++_nil [] = refl
++_nil (d ∷ s) = ap (λ r. d ∷ r) (++_nil s)

split_from-part :
    (sep : ℕ) (current part rest : Text)
    → HasNo sep part
    → split_from sep current (part ++ (sep ∷ rest)) ≡ (current ++ part) ∷ split_from sep [] rest
unfolding split_from
split_from-part sep current [] rest h = rw (==_refl sep, ++_nil current) refl
split_from-part sep current (c ∷ part) rest h =
    ground (arith, split_from-part sep (current ++ c ∷ []) part rest, ++_assoc_one current c part)

split_from-last :
    (sep : ℕ) (current part : Text)
    → HasNo sep part
    → split_from sep current part ≡ (current ++ part) ∷ []
unfolding split_from
split_from-last sep current [] h = rw (++_nil current) refl
split_from-last sep current (c ∷ part) h =
    ground (arith, split_from-last sep (current ++ c ∷ []) part, ++_assoc_one current c part)

-- What the encoding is taken to do: it decodes what it encoded, without a separator in it.
module _ (p : Platform) (decodes : (bytes : Text) → p.std_decode (p.std_encode bytes) ≡ some bytes)
    (plain : (bytes : Text) → HasNo b'$' (p.std_encode bytes)) where
  split-encode_password_hash :
      (salt key : Text)
      → split b'$' (encode_password_hash p salt key)
        ≡ []
          ∷ codes "argon2id"
          ∷ version_part
          ∷ cost_part
          ∷ p.std_encode salt
          ∷ p.std_encode key
          ∷ []
  unfolding split encode_password_hash
  split-encode_password_hash salt key =
      let keys = p.std_encode key in
      let salts = p.std_encode salt ++ (b'$' ∷ keys) in
      let costs = cost_part ++ (b'$' ∷ salts) in
      let versions = version_part ++ (b'$' ∷ costs) in
      split_from-part b'$' [] [] (codes "argon2id" ++ (b'$' ∷ versions)) refl
      ∙ ap (λ r. [] ∷ r)
          (split_from-part b'$' [] (codes "argon2id") versions refl
            ∙ ap (λ r. codes "argon2id" ∷ r)
                (split_from-part b'$' [] version_part costs refl
                  ∙ ap (λ r. version_part ∷ r)
                      (split_from-part b'$' [] cost_part salts refl
                        ∙ ap (λ r. cost_part ∷ r)
                            (split_from-part b'$' [] (p.std_encode salt) keys (plain salt)
                              ∙ ap (λ r. p.std_encode salt ∷ r)
                                  (split_from-last b'$' [] keys (plain key))))))

  decode_part-encode :
      (size : ℕ) (bytes : Text)
      → length bytes ≡ size
      → decode_part p size (p.std_encode bytes) ≡ some bytes
  unfolding decode_part
  decode_part-encode size bytes e = ground (arith, decodes bytes, e)

  -- A verifier of a 16-byte salt and a 32-byte key decodes to them, where the base64 encoding decodes
  -- what it encoded and writes no `$`.
  pub decode_password_hash-encode :
      (salt key : Text)
      → length salt ≡ 16
      → length key ≡ 32
      → decode_password_hash p (encode_password_hash p salt key) ≡ some (salt, key)
  unfolding decode_password_hash decode_parts
  decode_password_hash-encode salt key e e' =
      ap (decode_parts p) (split-encode_password_hash salt key)
      ∙ rw (decode_part-encode 16 salt e, decode_part-encode 32 key e') refl

  -- The check of a password against a verifier that was made from a salt and a key.
  verify_password-encode :
      (salt key password : Text) (w : World)
      → length salt ≡ 16
      → length key ≡ 32
      → w.env.fails w.calls ≡ false
      → (run (verify_password p (encode_password_hash p salt key) password) w).0
        ≡ ok (text_eq (p.argon2 password salt) key)
  unfolding verify_password check_decoded attempt ◌>>=◌ ◌>>◌
  verify_password-encode salt key password w e e' free =
      ap (λ o. (run (check_decoded p o password) w).0) (decode_password_hash-encode salt key e e')
      ∙ rw free refl

  hash_password-run :
      (password : Text) (w : World) {encoded : Text}
      → (run (hash_password p password) w).0 ≡ ok encoded
      → (n : ℕ) × (encoded
          ≡ encode_password_hash p (w.env.bytes n) (p.argon2 password (w.env.bytes n)))
  unfolding hash_password attempt random_bytes ◌>>=◌ ◌>>◌
  hash_password-run password w h = (suc w.calls, ground (arith, h))

  -- The password that was hashed is accepted later, whatever happened between, where the random
  -- source gives 16 bytes, the key has 32, and a password slot is free; another password is accepted
  -- only if it derives the same key.
  pub verify_password-hash :
      (password other : Text) (w w' : World) {encoded : Text}
      → ((n : ℕ) → length (w.env.bytes n) ≡ 16)
      → ((secret salt : Text) → length (p.argon2 secret salt) ≡ 32)
      → w'.env.fails w'.calls ≡ false
      → (run (hash_password p password) w).0 ≡ ok encoded
      → ((run (verify_password p encoded password) w').0 ≡ ok true)
        × (salt : Text) × ((run (verify_password p encoded other) w').0
            ≡ ok (text_eq (p.argon2 other salt) (p.argon2 password salt)))
  verify_password-hash password other w w' salts keys free h =
      let (n, made) = hash_password-run password w h in
      let salt = w.env.bytes n in
      let key = p.argon2 password salt in
      let checks = λ (secret : Text).
        ap (λ e. (run (verify_password p e secret) w').0) made
        ∙ verify_password-encode salt key secret w' (salts n) (keys password salt) free in
      (checks password ∙ ap (λ b. ok b) (text_eq_refl key), salt, checks other)
