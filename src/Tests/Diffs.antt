-- ===== src/Tests/Diffs.antt =====
-- The comparison of two concrete views.
use provider_infrastructure.Prelude.{◌≡◌, refl, [], ◌∷◌, none, some}
use provider_infrastructure.Text.{codes, text_eq, text_lt, trim_space, split, join, cut_prefix}
use provider_infrastructure.Command.Path.{path_clean, is_abs}
use provider_infrastructure.Workspace.Bundle.{has_path}
use provider_infrastructure.Workspace.Mutate.{WorkspaceFile}
use provider_infrastructure.Workspace.Diff.{added, modified, entries, version_at, diff_files}
use provider_infrastructure.Workspace.Diff.Exact.{changed_paths, differ, diff_files-differ}

abbrev older : WorkspaceFile
older = record { path = codes "a.txt"; content = none; size = 1; digest = codes "d1" }

abbrev newer : WorkspaceFile
newer = record { path = codes "a.txt"; content = none; size = 2; digest = codes "d2" }

abbrev other : WorkspaceFile
other = record { path = codes "b.txt"; content = none; size = 3; digest = codes "d3" }

diff_example :
    diff_files (older ∷ []) (newer ∷ other ∷ [])
    ≡ some (
        record {
          path = codes "a.txt";
          kind = modified;
          before = some (codes "d1", 1);
          after = some (codes "d2", 2);
        }
        ∷ record { path = codes "b.txt"; kind = added; before = none; after = some (codes "d3", 3) }
        ∷ [])
unfolding diff_files is_abs path_clean split join trim_space text_eq cut_prefix has_path text_lt
diff_example = refl

entries-older : entries (older ∷ []) ≡ some ((codes "a.txt", (codes "d1", 1)) ∷ [])
unfolding entries is_abs path_clean split join trim_space text_eq cut_prefix
entries-older = refl

entries-newer :
    entries (newer ∷ other ∷ [])
    ≡ some ((codes "a.txt", (codes "d2", 2)) ∷ (codes "b.txt", (codes "d3", 3)) ∷ [])
unfolding entries is_abs path_clean split join trim_space text_eq cut_prefix
entries-newer = refl

diff_files-differ_example :
    has_path (codes "b.txt") (
      changed_paths (
        record {
          path = codes "a.txt";
          kind = modified;
          before = some (codes "d1", 1);
          after = some (codes "d2", 2);
        }
        ∷ record { path = codes "b.txt"; kind = added; before = none; after = some (codes "d3", 3) }
        ∷ []))
    ≡ differ (version_at (codes "b.txt") ((codes "a.txt", (codes "d1", 1)) ∷ [])) (
        version_at
          (codes "b.txt")
          ((codes "a.txt", (codes "d2", 2)) ∷ (codes "b.txt", (codes "d3", 3)) ∷ []))
diff_files-differ_example =
    diff_files-differ (older ∷ []) (newer ∷ other ∷ []) ((codes "a.txt", (codes "d1", 1)) ∷ [])
      ((codes "a.txt", (codes "d2", 2)) ∷ (codes "b.txt", (codes "d3", 3)) ∷ []) _ (codes "b.txt")
      entries-older entries-newer diff_example
