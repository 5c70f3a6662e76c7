-- ===== src/Workspace/Digest/Sorted.antt =====
-- The order in which the paths are recorded and digested (`slices.Sort` of paths in
-- dev-agent/main.go).
use provider_infrastructure.Prelude.{
  ◌≡◌, refl, ap, ◌∙◌, inl, inr, true, false, List, [], ◌∷◌, Bool-cases, arith,
}
use provider_infrastructure.Text.{Text, text_lt}
use provider_infrastructure.Workspace.Digest.{insert_path, sort_paths}

-- The order is asymmetric.
pub text_lt_asym : (s t : Text) → text_lt s t ≡ true → text_lt t s ≡ false
unfolding text_lt
text_lt_asym [] [] below = refl
text_lt_asym [] (b ∷ t) below = refl
text_lt_asym (a ∷ s) [] below = cc
text_lt_asym (a ∷ s) (b ∷ t) below = ground (arith, text_lt_asym s t)

-- No path is above the one after it.
abbrev pub FollowedBy : Text → List Text → Type 0
FollowedBy p [] = Unit
FollowedBy p (q ∷ qs) = text_lt q p ≡ false

abbrev pub IsSorted : List Text → Type 0
IsSorted [] = Unit
IsSorted (p ∷ ps) = FollowedBy p ps × IsSorted ps

insert-FollowedBy :
    (path other : Text) (paths : List Text)
    → text_lt path other ≡ false
    → FollowedBy other paths
    → FollowedBy other (insert_path path paths)
unfolding insert_path
insert-FollowedBy path other [] above follows = above
insert-FollowedBy path other (p ∷ ps) above follows = elim (Bool-cases (text_lt p path)) [
  | inl below ↦ rw (below, insert_path) follows
  | inr not_below ↦ rw (not_below, insert_path) above
]

insert-IsSorted :
    (path : Text) (paths : List Text) → IsSorted paths → IsSorted (insert_path path paths)
unfolding insert_path
insert-IsSorted path [] sorted = (tt, tt)
insert-IsSorted path (p ∷ ps) (follows, sorted) = elim (Bool-cases (text_lt p path)) [
  | inl below ↦
      rw (below, insert_path)
        (
          insert-FollowedBy path p ps (text_lt_asym p path below) follows,
          insert-IsSorted path ps sorted,
        )
  | inr not_below ↦ rw (not_below, insert_path) (not_below, (follows, sorted))
]

pub sort-IsSorted : (paths : List Text) → IsSorted (sort_paths paths)
unfolding sort_paths
sort-IsSorted [] = tt
sort-IsSorted (p ∷ ps) = insert-IsSorted p (sort_paths ps) (sort-IsSorted ps)

insert-least : (p : Text) (ps : List Text) → FollowedBy p ps → insert_path p ps ≡ p ∷ ps
unfolding insert_path
insert-least p [] follows = refl
insert-least p (q ∷ qs) follows = rw (follows, insert_path) refl

-- Sorting a sorted list changes nothing.
pub sort-sorted : (paths : List Text) → IsSorted paths → sort_paths paths ≡ paths
unfolding sort_paths
sort-sorted [] sorted = refl
sort-sorted (p ∷ ps) (follows, sorted) =
    ap (insert_path p) (sort-sorted ps sorted) ∙ insert-least p ps follows

pub sort-sort : (paths : List Text) → sort_paths (sort_paths paths) ≡ sort_paths paths
sort-sort paths = sort-sorted (sort_paths paths) (sort-IsSorted paths)
