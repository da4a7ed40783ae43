-- ===== src/Identity/Validation.antt =====
-- What the account fields satisfy once validated, and what the audit context is cut to.
use project_progress_registe.Base.{
  ℕ, ◌+◌, ◌-◌, ◌≡◌, ◌≤◌, ◌<◌, if◌then◌else◌, false, ◌↔◌, refl, sym, ap, ◌∙◌, true, [], ◌∷◌, ◌++◌,
  arith, ltb, leb, leb→le, Bool-cases, ◌⊎◌, inl, inr,
}
use mathlib.Core.Path.{subst}
use project_progress_registe.Text.{
  Text, byte_len, rune_count, rune_len, valid_string, bad_byte, to_lower, to_lower_rune, trim_space,
  trim_left, trim_right, is_space, every,
}
use project_progress_registe.Platform.{Platform}
use project_progress_registe.Db.{ok}
use project_progress_registe.Identity.Types.{
  validate_password, validate_username, matches_username, is_username_rune, is_username_start,
  normalize_identifier,
}
use project_progress_registe.Identity.Context.{fit, valid_prefix, truncate}

-- A password is accepted exactly when it is valid UTF-8 of at least 12 characters and at most 128 bytes.
pub validate_password_iff :
    (value : Text)
    → (validate_password value ≡ ok tt)
      ↔ ((valid_string value ≡ true) × (12 ≤ rune_count value) × (byte_len value ≤ 128))
unfolding validate_password
validate_password_iff value = ground arith

byte_len-fit : (room : ℕ) (s : Text) → byte_len (fit room s) ≤ room
unfolding fit byte_len
byte_len-fit room [] = omega arith
byte_len-fit room (c ∷ s) = ground (arith, byte_len-fit (room - rune_len c) s)

byte_len-valid_prefix : (s : Text) → byte_len (valid_prefix s) ≤ byte_len s
unfolding valid_prefix byte_len
byte_len-valid_prefix [] = omega arith
byte_len-valid_prefix (c ∷ s) = ground (arith, byte_len-valid_prefix s)

valid_prefix-valid : (s : Text) → valid_string (valid_prefix s) ≡ true
unfolding valid_prefix valid_string
valid_prefix-valid [] = refl
valid_prefix-valid (c ∷ s) = ground (arith, valid_prefix-valid s)

-- What stopped the cut: the next rune does not fit in the bytes, or is no valid UTF-8.
abbrev IsStopped : ℕ → Text → Text → Type 0
IsStopped room kept value =
    (c : ℕ) × (rest : Text) × (value ≡ kept ++ c ∷ rest)
    × ((room < byte_len kept + rune_len c) ⊎ (bad_byte ≤ c))

module _ (room c : ℕ) (s : Text) (fits : leb (rune_len c) room ≡ true) where
  valid_prefix-kept :
      ltb c bad_byte ≡ true
      → valid_prefix (fit room (c ∷ s)) ≡ c ∷ valid_prefix (fit (room - rune_len c) s)
  unfolding valid_prefix fit
  valid_prefix-kept k =
      rw fits (ap (λ b. if b then c ∷ valid_prefix (fit (room - rune_len c) s) else []) k)

  valid_prefix-dropped : ltb c bad_byte ≡ false → valid_prefix (fit room (c ∷ s)) ≡ []
  unfolding valid_prefix fit
  valid_prefix-dropped k =
      rw fits (ap (λ b. if b then c ∷ valid_prefix (fit (room - rune_len c) s) else []) k)

none_kept :
    (room c : ℕ) (s : Text)
    → leb (rune_len c) room ≡ false
    → IsStopped room (valid_prefix (fit room (c ∷ s))) (c ∷ s)
unfolding valid_prefix fit byte_len
none_kept room c s e = rw e (c, s, refl, inl (ground (arith, e)))

valid_prefix-IsStopped :
    (room : ℕ) (s : Text) → room < byte_len s → IsStopped room (valid_prefix (fit room s)) s
unfolding byte_len
valid_prefix-IsStopped room [] h = absurd (omega (arith, h))
valid_prefix-IsStopped room (c ∷ s) h = elim (Bool-cases (leb (rune_len c) room)) [
  | inl e ↦ elim (Bool-cases (ltb c bad_byte)) [
    | inl k ↦
        let fits : rune_len c ≤ room = leb→le (rune_len c) room e in
        let (d, rest, whole, why) =
          valid_prefix-IsStopped (room - rune_len c) s (omega (arith, h, fits)) in
        subst (λ v. IsStopped room v (c ∷ s)) (sym (valid_prefix-kept room c s e k))
          (
            d,
            rest,
            ap (λ x. c ∷ x) whole,
            elim why [ inl more ↦ inl (omega (arith, more, fits)) | inr bad ↦ inr bad ],
          )
    | inr k ↦
        subst (λ v. IsStopped room v (c ∷ s)) (sym (valid_prefix-dropped room c s e k))
          (c, s, refl, inr (ground (arith, k)))
  ]
  | inr e ↦ none_kept room c s e
]

-- A truncated value is the value itself if that fits in the given bytes. Otherwise it is valid UTF-8,
-- fits, and is the value up to the first rune that would not fit or is no valid UTF-8.
pub truncate-fits :
    (value : Text) (maximum : ℕ)
    → ((byte_len value ≤ maximum) × (truncate value maximum ≡ value))
      ⊎ ((maximum < byte_len value)
          × (valid_string (truncate value maximum) ≡ true)
          × (byte_len (truncate value maximum) ≤ maximum)
          × ((c : ℕ) × (rest : Text) × (value ≡ truncate value maximum ++ c ∷ rest)
              × ((maximum < byte_len (truncate value maximum) + rune_len c) ⊎ (bad_byte ≤ c))))
unfolding truncate
truncate-fits value maximum = elim (Bool-cases (leb (byte_len value) maximum)) [
  | inl e ↦ rw e (inl (leb→le (byte_len value) maximum e, refl))
  | inr e ↦
      let over : maximum < byte_len value = ground (arith, e) in
      rw e (
        inr (
          over,
          valid_prefix-valid (fit maximum value),
          omega (arith, byte_len-fit maximum value, byte_len-valid_prefix (fit maximum value)),
          valid_prefix-IsStopped maximum value over,
        ))
]

matches_username-bounds :
    (name : Text)
    → matches_username name ≡ true
    → (3 ≤ rune_count name) × (rune_count name ≤ 32) × (every is_username_rune name ≡ true)
unfolding matches_username rune_count every is_username_rune
matches_username-bounds [] h = ground arith
matches_username-bounds (c ∷ s) h = ground (arith, h)

-- The characters of a username are neither spaces nor upper-case letters.
trim_right-name : (s : Text) → every is_username_rune s ≡ true → trim_right s ≡ s
unfolding trim_right every is_space is_username_rune is_username_start
trim_right-name [] h = refl
trim_right-name (c ∷ s) h = ground (arith, trim_right-name s)

trim_left-name : (s : Text) → every is_username_rune s ≡ true → trim_left s ≡ s
unfolding trim_left every is_space is_username_rune is_username_start
trim_left-name [] h = refl
trim_left-name (c ∷ s) h = ground (arith, h)

to_lower-name : (lower : ℕ → ℕ) (s : Text) → every is_username_rune s ≡ true → to_lower lower s ≡ s
unfolding to_lower every to_lower_rune is_username_rune is_username_start
to_lower-name lower [] h = refl
to_lower-name lower (c ∷ s) h = ground (arith, to_lower-name lower s)

normalize_identifier-name :
    (p : Platform) (s : Text) → every is_username_rune s ≡ true → normalize_identifier p s ≡ s
unfolding normalize_identifier trim_space
normalize_identifier-name p s h =
    ap (λ x. to_lower p.lower_rune (trim_right x)) (trim_left-name s h)
    ∙ ap (to_lower p.lower_rune) (trim_right-name s h)
    ∙ to_lower-name p.lower_rune s h

-- A username that is accepted is the trimmed lower-case input, of 3 to 32 ASCII lower-case letters,
-- digits and `._-`; and it is accepted again, unchanged.
pub validate_username-ok :
    (p : Platform) (value : Text) {name : Text}
    → validate_username p value ≡ ok name
    → (name ≡ normalize_identifier p value)
      × (3 ≤ rune_count name)
      × (rune_count name ≤ 32)
      × (every is_username_rune name ≡ true)
      × (validate_username p name ≡ ok name)
unfolding validate_username
validate_username-ok p value {name} h =
    let value' = normalize_identifier p value in
    let same : name ≡ value' = ground (arith, h) in
    let matched : matches_username value' ≡ true = ground (arith, h) in
    let matched' : matches_username name ≡ true = ap matches_username same ∙ matched in
    let (low, high, runes) = matches_username-bounds name matched' in
    (same, low, high, runes, rw (normalize_identifier-name p name runes) (rw matched' refl))
