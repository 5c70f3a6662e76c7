-- ===== src/Command/Path/Safety.antt =====
-- A cleaned path stays in the workspace and off its reserved names.
use mathlib.Core.Path.{subst}
use mathlib.Core.List.{reverse-cons}
use provider_infrastructure.Prelude.{
  ℕ, ◌≡◌, ◌⊎◌, inl, inr, refl, sym, ap, ◌∙◌, Bool, false, ◌||◌, Bool-cases, Option-cases, List, [],
  ◌∷◌, ◌++◌, none, ◌==◌, reverse, ltb, All, All-append, arith,
}
use provider_infrastructure.Text.{
  Text, codes, byte_len, text_eq, is_empty, trim_space, contains_rune, split, split_from, join,
}
use provider_infrastructure.Command.Path.{
  clean, rejected, is_abs, reduce, render, path_clean, is_reserved, check_parts, manifest_name,
  accept, has_prefix, max_work_dir_bytes, has_parent, clean_trimmed, clean_trimmed_dir,
  clean_exec_path, clean_exec_work_dir,
}

-- A component that names an entry of its directory: it is not empty, `.` or `..`, has no slash, and is
-- not reserved.
pub record IsSafe (p : Text) : Type 0 where
  pub non_empty : is_empty p ≡ false
  pub not_here : text_eq p (codes ".") ≡ false
  pub not_parent : text_eq p (codes "..") ≡ false
  pub one_name : contains_rune p b'/' ≡ false
  pub not_reserved : is_reserved p ≡ false

-- What the checks give of each component before the path is cleaned.
abbrev IsChecked : Text → Type 0
IsChecked p =
    (text_eq p (codes "..") ≡ false) × (is_reserved p ≡ false) × (contains_rune p b'/' ≡ false)

contains_rune-append :
    (s t : Text) (c : ℕ) → contains_rune (s ++ t) c ≡ (contains_rune s c || contains_rune t c)
unfolding contains_rune
contains_rune-append [] t c = refl
contains_rune-append (d ∷ s) t c = ground (arith, contains_rune-append s t c)

empty_one_name : (sep : ℕ) → contains_rune [] sep ≡ false
unfolding contains_rune
empty_one_name sep = refl

longer_one_name :
    (part : Text) (c sep : ℕ)
    → contains_rune part sep ≡ false
    → (c == sep) ≡ false
    → (contains_rune part sep || contains_rune (c ∷ []) sep) ≡ false
unfolding contains_rune
longer_one_name part c sep h k = rw (h, k) refl

split_from-one_name :
    (part s : Text) (sep : ℕ)
    → contains_rune part sep ≡ false
    → All (λ p. contains_rune p sep ≡ false) (split_from part s sep)
unfolding split_from
split_from-one_name part [] sep h = (h, tt)
split_from-one_name part (c ∷ s) sep h = elim (Bool-cases (c == sep)) [
  | inl cut ↦ rw cut (h, split_from-one_name [] s sep (empty_one_name sep))
  | inr inside ↦ rw inside (
      split_from-one_name (part ++ (c ∷ [])) s sep
        (contains_rune-append part (c ∷ []) sep ∙ longer_one_name part c sep h inside))
]

reverse-All {κ} : (P : Text → Type κ) (ps : List Text) → All P ps → All P (reverse ps)
reverse-All P [] h = tt
reverse-All P (p ∷ ps) (q, h) =
    subst (All P) (sym (reverse-cons p ps))
      (All-append P (reverse ps) (p ∷ []) (reverse-All P ps h) (q, tt))

reduce-IsSafe :
    (rooted : Bool) (kept ps : List Text)
    → All IsSafe kept
    → All IsChecked ps
    → All IsSafe (reduce rooted kept ps)
unfolding reduce
reduce-IsSafe rooted kept [] k h = reverse-All IsSafe kept k
reduce-IsSafe rooted kept (p ∷ ps) k ((parent, reserved, name), h) =
    elim (Bool-cases (is_empty p)) [
      | inl empty ↦ rw empty (reduce-IsSafe rooted kept ps k h)
      | inr given ↦ elim (Bool-cases (text_eq p (codes "."))) [
        | inl here ↦ rw (given, here) (reduce-IsSafe rooted kept ps k h)
        | inr other ↦
            rw (given, other, parent)
              (reduce-IsSafe rooted (p ∷ kept) ps
                (
                  (record {
                    non_empty = given;
                    not_here = other;
                    not_parent = parent;
                    one_name = name;
                    not_reserved = reserved;
                  }),
                  k,
                )
                h)
      ]
    ]

check_parts-none :
    (ps : List Text)
    → check_parts ps ≡ none
    → All (λ p. (text_eq p (codes "..") ≡ false) × (is_reserved p ≡ false)) ps
unfolding check_parts
check_parts-none [] h = tt
check_parts-none (p ∷ ps) h = elim (Bool-cases (text_eq p (codes ".."))) [
  | inl parent ↦ cc (rw parent at h)
  | inr other ↦ elim (Bool-cases (is_reserved p)) [
    | inl reserved ↦ cc (rw (other, reserved) at h)
    | inr allowed ↦ ((other, allowed), check_parts-none ps (rw (other, allowed) at h))
  ]
]

split-one_name : (s : Text) → All (λ p. contains_rune p b'/' ≡ false) (split s b'/')
unfolding split
split-one_name s = split_from-one_name [] s b'/' (empty_one_name b'/')

both :
    (ps : List Text)
    → All (λ p. (text_eq p (codes "..") ≡ false) × (is_reserved p ≡ false)) ps
    → All (λ p. contains_rune p b'/' ≡ false) ps
    → All IsChecked ps
both [] h k = tt
both (p ∷ ps) ((a, b), h) (c, k) = ((a, b, c), both ps h k)

-- The components of a cleaned path.
pub data IsInside (path : Text) : Type 0 where
  inside :
      (p : Text) (ps : List Text)
      → path ≡ join (p ∷ ps) b'/'
      → All IsSafe (p ∷ ps)
      → text_eq path manifest_name ≡ false
      → IsInside path

clean_injective : {s t : Text} → clean s ≡ clean t → s ≡ t
clean_injective {s} e = ap (λ r. elim r [ clean c ↦ c | rejected _ ↦ s ]) e

accept-clean :
    (s path : Text) → accept s ≡ clean path → (s ≡ path) × (text_eq s manifest_name ≡ false)
accept-clean s path h =
    elim (Bool-cases
      (text_eq s (codes ".") || text_eq s (codes "..") || has_prefix s (codes "../"))) [
        | inl escapes ↦ cc (rw escapes at h)
        | inr stays ↦ elim (Bool-cases (text_eq s manifest_name)) [
          | inl manifest ↦ cc (rw (stays, manifest) at h)
          | inr other ↦ (clean_injective (rw (stays, other) at h), other)
        ]
      ]

accept-IsInside :
    (parts : List Text) (path : Text)
    → All IsSafe parts
    → accept (render false parts) ≡ clean path
    → IsInside path
unfolding render text_eq
accept-IsInside [] path safe h = cc h
accept-IsInside (p ∷ ps) path safe h =
    let (same, other) = accept-clean (join (p ∷ ps) b'/') path h in
    inside p ps (sym same) safe (subst (λ s. text_eq s manifest_name ≡ false) same other)

relative_clean :
    (raw : Text)
    → is_abs raw ≡ false
    → path_clean raw ≡ render false (reduce false [] (split raw b'/'))
unfolding path_clean
relative_clean raw relative = rw relative refl

clean_trimmed-IsInside : (raw path : Text) → clean_trimmed raw ≡ clean path → IsInside path
clean_trimmed-IsInside raw path h =
    elim (Bool-cases (is_empty raw || contains_rune raw 0 || contains_rune raw b'\\')) [
      | inl malformed ↦ cc (rw malformed at h)
      | inr formed ↦ elim (Bool-cases (is_abs raw)) [
        | inl absolute ↦ cc (rw (formed, absolute) at h)
        | inr relative ↦ elim (Option-cases (check_parts (split raw b'/'))) [
          | inr (e, failed) ↦ cc (rw (formed, relative, failed) at h)
          | inl passed ↦
              accept-IsInside (reduce false [] (split raw b'/')) path
                (reduce-IsSafe false [] (split raw b'/') tt (
                  both (split raw b'/') (check_parts-none (split raw b'/') passed)
                    (split-one_name raw)))
                (sym (ap accept (relative_clean raw relative))
                  ∙ (rw (formed, relative, passed) at h))
        ]
      ]
    ]

-- A path that cleanExecPath accepts is one or more components joined by slashes, each of them not
-- empty, not a dot or two dots, without a slash and not reserved, and it is not the name of the
-- manifest.
pub clean_exec_path-IsInside : (raw path : Text) → clean_exec_path raw ≡ clean path → IsInside path
unfolding clean_exec_path
clean_exec_path-IsInside raw path h = clean_trimmed-IsInside (trim_space raw) path h

clean_trimmed_dir-IsInside :
    (raw path : Text) → clean_trimmed_dir raw ≡ clean path → (path ≡ codes ".") ⊎ IsInside path
clean_trimmed_dir-IsInside raw path h = elim (Bool-cases (is_empty raw)) [
  | inl empty ↦ inl (sym (clean_injective (rw empty at h)))
  | inr given ↦ elim (Bool-cases (ltb max_work_dir_bytes (byte_len raw))) [
    | inl long ↦ cc (rw (given, long) at h)
    | inr short ↦ elim (Bool-cases (text_eq (path_clean raw) (codes "."))) [
      | inr below ↦ inr (clean_exec_path-IsInside raw path (rw (given, short, below) at h))
      | inl here ↦ elim (Bool-cases (has_parent (split raw b'/'))) [
        | inl parent ↦ cc (rw (given, short, here, parent) at h)
        | inr no_parent ↦ inl (sym (clean_injective (rw (given, short, here, no_parent) at h)))
      ]
    ]
  ]
]

-- A working directory that cleanExecWorkDir accepts is the workspace itself, or one or more
-- components joined by slashes, each of them not empty, not a dot or two dots, without a slash and
-- not reserved.
pub clean_exec_work_dir-IsInside :
    (raw path : Text) → clean_exec_work_dir raw ≡ clean path → (path ≡ codes ".") ⊎ IsInside path
unfolding clean_exec_work_dir
clean_exec_work_dir-IsInside raw path h = clean_trimmed_dir-IsInside (trim_space raw) path h
