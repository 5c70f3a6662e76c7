-- ===== src/Text/Laws.antt =====
-- Laws of the string functions.
use provider_infrastructure.Prelude.{
  ◌≡◌, refl, sym, ap, ◌∙◌, ◌↔◌, inl, inr, true, [], ◌∷◌, ◌++◌, some, Option-cases, reverse, arith,
}
use mathlib.Core.Option.{some-injective}
use mathlib.Core.List.{reverse-append, reverse-reverse}
use provider_infrastructure.Text.{Text, text_eq, cut_prefix, cut_suffix}

pub text_eq_iff : (s t : Text) → (text_eq s t ≡ true) ↔ (s ≡ t)
unfolding text_eq
text_eq_iff [] [] = (λ _. refl, λ _. refl)
text_eq_iff [] (b ∷ t) = ground arith
text_eq_iff (a ∷ s) [] = ground arith
text_eq_iff (a ∷ s) (b ∷ t) = ground (arith, text_eq_iff s t)

pub text_eq_refl : (s : Text) → text_eq s s ≡ true
text_eq_refl s = (text_eq_iff s s).1 refl

pub cut_prefix-append : (p s : Text) → cut_prefix (p ++ s) p ≡ some s
unfolding cut_prefix
cut_prefix-append [] s = refl
cut_prefix-append (c ∷ p) s = ground (arith, cut_prefix-append p s)

pub append-cut_prefix : (s p : Text) {rest : Text} → cut_prefix s p ≡ some rest → s ≡ p ++ rest
unfolding cut_prefix
append-cut_prefix s [] h = ground arith
append-cut_prefix [] (c ∷ p) h = cc
append-cut_prefix (d ∷ s) (c ∷ p) {rest} h = ground (arith, append-cut_prefix s p {rest = rest})

-- Cutting a suffix that was put on gives the front back.
pub cut_suffix-append : (s suffix : Text) → cut_suffix (s ++ suffix) suffix ≡ some s
unfolding cut_suffix
cut_suffix-append s suffix =
    rw (reverse-append s suffix, cut_prefix-append (reverse suffix) (reverse s), cut_suffix)
      (ap some (reverse-reverse s))

-- What a cut suffix leaves is the front of the text.
pub append-cut_suffix :
    (s suffix : Text) {front : Text} → cut_suffix s suffix ≡ some front → s ≡ front ++ suffix
unfolding cut_suffix
append-cut_suffix s suffix {front} h =
    elim (Option-cases (cut_prefix (reverse s) (reverse suffix))) [
      | inl missing ↦ absurd (ground (arith))
      | inr (rest, found) ↦
          let same : reverse rest ≡ front = some-injective _ _ (rw (found, cut_suffix) at h) in
          sym (reverse-reverse s)
          ∙ ap reverse (append-cut_prefix (reverse s) (reverse suffix) found)
          ∙ reverse-append (reverse suffix) rest
          ∙ ap (λ t. t ++ reverse (reverse suffix)) same
          ∙ ap (λ t. front ++ t) (reverse-reverse suffix)
    ]
