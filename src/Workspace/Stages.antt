-- ===== src/Workspace/Stages.antt =====
-- The loops of a synchronisation over the files of the workspace (`handleSync`,
-- `restoreAuthoritativeWorkspaceFiles`, `deleteAuthoritativeWorkspaceCandidates` and
-- `stampPlainSyncManifest` of dev-agent/main.go).
pub mod Keeps
pub mod Stores
pub mod Unlinked
use provider_infrastructure.Prelude.{
  ℕ, suc, Bool, true, false, not, ◌&&◌, ◌||◌, List, [], ◌∷◌, ◌++◌, Option, none, some, any, map,
  ◌==◌, if◌then◌else◌,
}
use provider_infrastructure.Text.{Text, text_eq, cut_prefix}
use provider_infrastructure.Command.{normalize_source_digest}
use provider_infrastructure.Command.Path.{has_prefix}
use provider_infrastructure.Workspace.{
  Node, regular, Disk, Manifest, Workspace, Faults, Stat, missing, unknown, stat, Walk, safe,
  on_symlink, not_folder, unreadable, lstat, is_safe, ensure_no_symlink, is_managed_path,
}
use provider_infrastructure.Workspace.Files.{
  Removal, removed, not_there, failed, write_file, content_changed, remove_managed,
}
use provider_infrastructure.Workspace.Digest.{Source, preimage, sort_paths}
use provider_infrastructure.Workspace.Bundle.{DecodedFile, has_path, validate_from}
use provider_infrastructure.Workspace.Manifests.{write_manifest}
use provider_infrastructure.Workspace.Step.{
  Handling, ◌>>=◌, ◌>>◌, give, refuse, require, expect, workspace_now, on_disk,
}

-- The write of one file, if its bytes differ; whether they did. `blocked` is the status where a
-- symbolic link or a file is on the way. The code asks `ensureExecPathNoSymlink` twice, with a
-- flag that does not change what it says.
unfoldable pub put_file : ℕ → Faults → DecodedFile → Handling Bool
unfolding content_changed write_file
put_file blocked f file = do
  w ← workspace_now
  allowed ← require (is_safe (ensure_no_symlink f w.disk file.path)) blocked
  if content_changed f w.disk file.path file.content
      then (do
        written ← on_disk (write_file f file.path file.content)
        finished ← require written 500
        give true)
      else give false

abbrev pub with_path : Bool → Text → List Text → List Text
with_path changed path paths = if changed then path ∷ paths else paths

-- The loop that writes the files: the paths of the files that changed.
unfoldable pub put_files : ℕ → Faults → List DecodedFile → Handling (List Text)
unfolding put_file
put_files blocked f [] = give []
put_files blocked f (file ∷ files) = do
  changed ← put_file blocked f file
  paths ← put_files blocked f files
  give (with_path changed file.path paths)

-- `restoreAuthoritativeWorkspaceFiles`
unfoldable pub restore_files : (List ℕ → Bool) → Faults → List DecodedFile → Handling (Unit {0})
unfolding put_files validate_from
restore_files is_utf8 f files = do
  valid ← require (validate_from is_utf8 [] files) 500
  paths ← put_files 500 f files
  give tt

-- A set of paths, given as a list.
unfoldable pub unique : List Text → List Text
unfolding has_path
unique [] = []
unique (p ∷ ps) = let rest = unique ps in if has_path p rest then rest else p ∷ rest

-- What the loop of `deleteAuthoritativeWorkspaceCandidates` goes past: a path of the bundle and,
-- where there is a manifest, a path that it does not name.
abbrev pub is_kept : Option Manifest → List Text → Text → Bool
is_kept none incoming path = has_path path incoming
is_kept (some m) incoming path = has_path path incoming || not (has_path path m.files)

abbrev pub removal_of : Removal → Option Bool
removal_of removed = some true
removal_of not_there = some false
removal_of failed = none

unfoldable pub delete_from : Faults → Option Manifest → List Text → List Text → Handling (List Text)
unfolding remove_managed has_path
delete_from f previous incoming [] = give []
delete_from f previous incoming (path ∷ paths) = elim (is_kept previous incoming path) [
  | true ↦ delete_from f previous incoming paths
  | false ↦ (do
    removal ← on_disk (remove_managed f path)
    gone ← expect (removal_of removal) 500
    deleted ← delete_from f previous incoming paths
    give (with_path gone path deleted))
]

abbrev pub previous_files : Option Manifest → List Text
previous_files none = []
previous_files (some m) = m.files

unfoldable pub candidates : Option Manifest → List Text → List Text
unfolding sort_paths unique
candidates previous delete_paths = sort_paths (unique (previous_files previous ++ delete_paths))

-- `deleteAuthoritativeWorkspaceCandidates`
unfoldable pub delete_candidates :
    Faults → Option Manifest → List Text → List Text → Handling (List Text)
unfolding delete_from candidates
delete_candidates f previous delete_paths incoming =
    delete_from f previous incoming (candidates previous delete_paths)

-- `root.RemoveAll` of the paths one after the other, for a synchronisation that is not
-- authoritative; `remove_all` is what it does to the files, and whether it returns no error.
unfoldable pub remove_each : (Text → Disk → Disk × Bool) → List Text → Handling (Unit {0})
remove_each remove_all [] = give tt
remove_each remove_all (path ∷ paths) = do
  gone ← on_disk (remove_all path)
  finished ← require gone 500
  remove_each remove_all paths
