-- ===== src/Workspace/Diff/Exact.antt =====
-- A diff names exactly the paths at which the two views differ (`diffWorkspaceFiles` of
-- dev-agent/workspace.go).
use provider_infrastructure.Prelude.{
  ◌≡◌, refl, sym, ap, ◌∙◌, inl, inr, Bool, true, false, not, ◌&&◌, ◌||◌, List, [], ◌∷◌, ◌++◌,
  Option, none, some, map, Bool-cases, arith,
}
use mathlib.Core.Path.{subst}
use mathlib.Core.Option.{some-injective}
use provider_infrastructure.Text.{Text, text_eq}
use provider_infrastructure.Text.Laws.{text_eq_iff}
use provider_infrastructure.Workspace.Digest.{insert_path, sort_paths}
use provider_infrastructure.Workspace.Bundle.{has_path}
use provider_infrastructure.Workspace.Stages.{unique}
use provider_infrastructure.Workspace.Mutate.{WorkspaceFile}
use provider_infrastructure.Workspace.Diff.{
  Version, WorkspaceChange, entries, version_at, keys, same_version, change_at, with_change,
  changes_at, diff_files,
}

has_path-insert :
    (p new : Text) (ps : List Text)
    → has_path p (insert_path new ps) ≡ (text_eq new p || has_path p ps)
unfolding has_path insert_path
has_path-insert p new [] = refl
has_path-insert p new (q ∷ ps) = ground (arith, has_path-insert p new ps)

has_path-sort : (p : Text) (ps : List Text) → has_path p (sort_paths ps) ≡ has_path p ps
unfolding has_path sort_paths
has_path-sort p [] = refl
has_path-sort p (q ∷ ps) =
    has_path-insert p q (sort_paths ps) ∙ ap (λ b. text_eq q p || b) (has_path-sort p ps)

has_path-unique : (p : Text) (ps : List Text) → has_path p (unique ps) ≡ has_path p ps
unfolding has_path unique
has_path-unique p [] = refl
has_path-unique p (q ∷ ps) = elim (Bool-cases (has_path q (unique ps))) [
  | inl twice ↦ elim (Bool-cases (text_eq q p)) [
    | inl same ↦
        let found : has_path q ps ≡ true = sym (has_path-unique q ps) ∙ twice in
        let found_p : has_path p ps ≡ true =
          subst (λ r. has_path r ps ≡ true) ((text_eq_iff q p).0 same) found in
        rw (twice, unique) (has_path-unique p ps ∙ ground (arith, found_p))
    | inr other ↦ rw (twice, unique) (has_path-unique p ps ∙ ground arith)
  ]
  | inr new ↦ rw (new, unique) (ap (λ b. text_eq q p || b) (has_path-unique p ps))
]

has_path-append :
    (p : Text) (ps qs : List Text) → has_path p (ps ++ qs) ≡ (has_path p ps || has_path p qs)
unfolding has_path
has_path-append p [] qs = refl
has_path-append p (q ∷ ps) qs = ground (arith, has_path-append p ps qs)

abbrev is_there : Option Version → Bool
is_there none = false
is_there (some v) = true

version_at-keys :
    (p : Text) (all : List (Text × Version)) → is_there (version_at p all) ≡ has_path p (keys all)
unfolding has_path version_at
version_at-keys p [] = refl
version_at-keys p ((q, v) ∷ all) = ground (arith, version_at-keys p all)

-- The digests or the sizes differ, or the path is in one view only.
abbrev pub differ : Option Version → Option Version → Bool
differ none none = false
differ none (some a) = true
differ (some b) none = true
differ (some b) (some a) = not (same_version b a)

abbrev is_change : Option WorkspaceChange → Bool
is_change none = false
is_change (some change) = true

abbrev pub changed_paths : List WorkspaceChange → List Text
changed_paths changes = map (λ change. change.path) changes

has_path-with_change :
    (p q : Text) (before after : Option Version) (rest : List WorkspaceChange)
    → has_path p (changed_paths (with_change (change_at q before after) rest))
      ≡ ((text_eq q p && is_change (change_at q before after)) || has_path p (changed_paths rest))
unfolding has_path
has_path-with_change p q none after rest = ground arith
has_path-with_change p q (some b) none rest = ground arith
has_path-with_change p q (some b) (some a) rest = ground arith

is_change-change_at :
    (p q : Text) (before after : Option Version)
    → is_change (change_at p before after) ≡ is_change (change_at q before after)
is_change-change_at p q none after = refl
is_change-change_at p q (some b) none = refl
is_change-change_at p q (some b) (some a) = ground arith

abbrev at_path : List (Text × Version) → List (Text × Version) → Text → Bool
at_path left right p = is_change (change_at p (version_at p left) (version_at p right))

has_path-changes_at :
    (p : Text) (left right : List (Text × Version)) (paths : List Text)
    → has_path p (changed_paths (changes_at left right paths))
      ≡ (has_path p paths && at_path left right p)
unfolding has_path changes_at
has_path-changes_at p left right [] = refl
has_path-changes_at p left right (q ∷ paths) =
    has_path-with_change p q (version_at q left) (version_at q right) (changes_at left right paths)
    ∙ ap (λ b. (text_eq q p && at_path left right q) || b) (has_path-changes_at p left right paths)
    ∙ here (text_eq q p) refl
  where
    here :
        (same : Bool)
        → text_eq q p ≡ same
        → ((same && at_path left right q) || (has_path p paths && at_path left right p))
          ≡ ((same || has_path p paths) && at_path left right p)
    here true is = rw (ap (at_path left right) ((text_eq_iff q p).0 is)) (ground arith)
    here false is = refl

differs_at :
    (p : Text) (before after : Option Version)
    → ((is_there before || is_there after) && is_change (change_at p before after))
      ≡ differ before after
differs_at p none none = refl
differs_at p none (some a) = refl
differs_at p (some b) none = refl
differs_at p (some b) (some a) = ground arith

-- A diff of two views names a path exactly if the views, by their cleaned paths, differ there: the
-- path is in one of them only, or the digests or the sizes differ.
pub diff_files-differ :
    (before after : List WorkspaceFile) (left right : List (Text × Version))
    (changes : List WorkspaceChange) (p : Text)
    → entries before ≡ some left
    → entries after ≡ some right
    → diff_files before after ≡ some changes
    → has_path p (changed_paths changes) ≡ differ (version_at p left) (version_at p right)
unfolding diff_files
diff_files-differ before after left right changes p is_left is_right is =
    ap (λ cs. has_path p (changed_paths cs))
      (sym (some-injective _ _ (rw (is_left, is_right) at is)))
    ∙ has_path-changes_at p left right (sort_paths (unique (keys left ++ keys right)))
    ∙ ap (λ b. b && at_path left right p)
        (has_path-sort p (unique (keys left ++ keys right))
          ∙ has_path-unique p (keys left ++ keys right)
          ∙ has_path-append p (keys left) (keys right)
          ∙ ap (λ b. b || has_path p (keys right)) (sym (version_at-keys p left))
          ∙ ap (λ b. is_there (version_at p left) || b) (sym (version_at-keys p right)))
    ∙ differs_at p (version_at p left) (version_at p right)
