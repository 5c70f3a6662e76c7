-- ===== src/Workspace/Digest/Reading.antt =====
-- The bytes that are digested tell the files apart, where no path and no content has a zero byte
-- (`syncDigester` of dev-agent/main.go).
use provider_infrastructure.Prelude.{
  ℕ, zero, suc, ◌≡◌, refl, ap, ◌∙◌, false, List, [], ◌∷◌, ◌++◌, Option, none, some, All, map,
  reverse, ◌==◌, arith,
}
use mathlib.Core.List.{reverse_aux, reverse-reverse}
use provider_infrastructure.Text.{Text, contains_rune}
use provider_infrastructure.Workspace.Digest.{Source, utf8_rune, utf8, preimage}

-- The fields before the zero bytes are read in pairs: `path` is the first of a pair, once it is
-- read, and `acc` is what there is of a field, the last byte first.
abbrev with_file :
    List ℕ → List ℕ → Option (List (List ℕ × List ℕ)) → Option (List (List ℕ × List ℕ))
with_file path content none = none
with_file path content (some files) = some ((path, content) ∷ files)

unfoldable read_fields : Option (List ℕ) → List ℕ → List ℕ → Option (List (List ℕ × List ℕ))
read_fields none [] [] = some []
read_fields none (c ∷ acc) [] = none
read_fields (some path) acc [] = none
read_fields none acc (zero ∷ s) = read_fields (some (reverse acc)) [] s
read_fields (some path) acc (zero ∷ s) =
    let rest = read_fields none [] s in with_file path (reverse acc) rest
read_fields path acc (suc c ∷ s) = read_fields path (suc c ∷ acc) s

-- The paths and the contents that digested bytes stand for; none where they stand for none.
unfoldable pub read_preimage : List ℕ → Option (List (List ℕ × List ℕ))
unfolding read_fields
read_preimage s = read_fields none [] s

abbrev pub HasNoZero : List ℕ → Type 0
HasNoZero s = contains_rune s 0 ≡ false

HasNoZero-append : (s t : List ℕ) → HasNoZero s → HasNoZero t → HasNoZero (s ++ t)
unfolding contains_rune
HasNoZero-append [] t hs ht = ht
HasNoZero-append (c ∷ s) t hs ht = ground (arith, HasNoZero-append s t)

HasNoZero-utf8_rune : (c : ℕ) → (c == 0) ≡ false → HasNoZero (utf8_rune c)
unfolding contains_rune
HasNoZero-utf8_rune c nonzero = ground arith

HasNoZero-utf8 : (s : Text) → HasNoZero s → HasNoZero (utf8 s)
unfolding contains_rune utf8
HasNoZero-utf8 [] h = refl
HasNoZero-utf8 (c ∷ s) h =
    HasNoZero-append (utf8_rune c) (utf8 s) (HasNoZero-utf8_rune c (ground arith))
      (HasNoZero-utf8 s (ground arith))

-- A field is read up to its zero byte.
read_fields-append :
    (path : Option (List ℕ)) (acc field s : List ℕ)
    → HasNoZero field
    → read_fields path acc (field ++ (0 ∷ s)) ≡ read_fields path (reverse_aux field acc) (0 ∷ s)
unfolding contains_rune read_fields
read_fields-append path acc [] s h = refl
read_fields-append path acc (zero ∷ field) s h = cc
read_fields-append path acc (suc c ∷ field) s h =
    read_fields-append path (suc c ∷ acc) field s (ground arith)

abbrev pub encoded : Source → List ℕ × List ℕ
encoded (path, content) = (utf8 path, content)

-- The bytes that are digested give back the paths, in UTF-8, and the contents, in their order, if
-- none of them has a zero byte.
pub read-preimage :
    (files : List Source)
    → All (λ file. HasNoZero file.0 × HasNoZero file.1) files
    → read_preimage (preimage files) ≡ some (map encoded files)
unfolding read_preimage read_fields preimage
read-preimage [] free = refl
read-preimage ((path, content) ∷ files) ((path_free, content_free), free) =
    read_fields-append none [] (utf8 path) (content ++ (0 ∷ preimage files))
      (HasNoZero-utf8 path path_free)
    ∙ read_fields-append (some (reverse (reverse (utf8 path)))) [] content (preimage files)
        content_free
    ∙ ap (with_file (reverse (reverse (utf8 path))) (reverse (reverse content)))
        (read-preimage files free)
    ∙ ap (λ p. some ((p, reverse (reverse content)) ∷ map encoded files))
        (reverse-reverse (utf8 path))
    ∙ ap (λ c. some ((utf8 path, c) ∷ map encoded files)) (reverse-reverse content)
