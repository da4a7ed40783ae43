-- ===== src/Text/Laws.antt =====
-- Laws of the text functions.
use project_progress_registe.Base.{◌≡◌, refl, ◌↔◌, inl, inr, true, ◌&&◌, [], ◌∷◌, arith, Bool-cases}
use project_progress_registe.Text.{Text, text_eq, is_blank, is_space, trim_left, trim_right}

pub text_eq_iff : (s t : Text) → (text_eq s t ≡ true) ↔ (s ≡ t)
text_eq_iff [] [] = (λ _. refl, λ _. refl)
text_eq_iff [] (d ∷ t) = (λ h. cc, λ h. cc)
text_eq_iff (c ∷ s) [] = (λ h. cc, λ h. cc)
text_eq_iff (c ∷ s) (d ∷ t) =
    let (to, from) = text_eq_iff s t in (λ h. ground (arith, to), λ h. ground (arith, from))

pub text_eq_refl : (s : Text) → text_eq s s ≡ true
text_eq_refl s = (text_eq_iff s s).1 refl

pub trim_left-trim_left : (s : Text) → trim_left (trim_left s) ≡ trim_left s
unfolding trim_left
trim_left-trim_left [] = refl
trim_left-trim_left (c ∷ s) = elim (Bool-cases (is_space c)) [
  | inl e ↦ rw e (trim_left-trim_left s)
  | inr e ↦ rw e (rw e)
]

pub trim_right-trim_right : (s : Text) → trim_right (trim_right s) ≡ trim_right s
unfolding trim_right
trim_right-trim_right [] = refl
trim_right-trim_right (c ∷ s) = elim (Bool-cases (is_space c && is_blank (trim_right s))) [
  | inl e ↦ rw e
  | inr e ↦ rw e (rw (trim_right-trim_right s) (rw e))
]
