-- ===== src/Text/Blank.antt =====
-- A text is blank (`strings.TrimSpace(s) == ""`) exactly if all its characters are spaces.
use provider_infrastructure.Prelude.{
  ℕ, ◌≡◌, refl, ap, ◌∙◌, Bool, false, not, ◌||◌, [], ◌∷◌, ◌++◌, reverse, arith,
}
use mathlib.Core.List.{reverse-cons}
use provider_infrastructure.Text.{Text, is_empty, is_space, trim_left, trim_space}

-- A character that is no space stands in the text.
unfoldable pub has_ink : Text → Bool
has_ink [] = false
has_ink (c ∷ s) = not (is_space c) || has_ink s

has_ink-append : (s t : Text) → has_ink (s ++ t) ≡ (has_ink s || has_ink t)
unfolding has_ink
has_ink-append [] t = refl
has_ink-append (c ∷ s) t = ground (arith, has_ink-append s t)

has_ink-reverse : (s : Text) → has_ink (reverse s) ≡ has_ink s
unfolding has_ink
has_ink-reverse [] = refl
has_ink-reverse (c ∷ s) =
    ap has_ink (reverse-cons c s)
    ∙ has_ink-append (reverse s) (c ∷ [])
    ∙ ground (arith, has_ink-reverse s)

has_ink-trim_left : (s : Text) → has_ink (trim_left s) ≡ has_ink s
unfolding has_ink trim_left
has_ink-trim_left [] = refl
has_ink-trim_left (c ∷ s) = ground (arith, has_ink-trim_left s)

is_empty-trim_left : (s : Text) → is_empty (trim_left s) ≡ not (has_ink s)
unfolding has_ink trim_left
is_empty-trim_left [] = refl
is_empty-trim_left (c ∷ s) = ground (arith, is_empty-trim_left s)

is_empty-append : (s : Text) (c : ℕ) → is_empty (s ++ (c ∷ [])) ≡ false
is_empty-append [] c = refl
is_empty-append (d ∷ s) c = refl

is_empty-reverse : (s : Text) → is_empty (reverse s) ≡ is_empty s
is_empty-reverse [] = refl
is_empty-reverse (c ∷ s) = ap is_empty (reverse-cons c s) ∙ is_empty-append (reverse s) c

pub is_empty-trim_space : (s : Text) → is_empty (trim_space s) ≡ not (has_ink s)
unfolding trim_space
is_empty-trim_space s =
    is_empty-reverse (trim_left (reverse (trim_left s)))
    ∙ is_empty-trim_left (reverse (trim_left s))
    ∙ ap not (has_ink-reverse (trim_left s) ∙ has_ink-trim_left s)
