-- ===== src/Workspace/Files.antt =====
-- Writing and removing the files of the workspace (`writeWorkspaceFile`,
-- `workspaceFileContentChanged` and `removeManagedWorkspaceFile` of dev-agent/main.go).
pub mod Laws
use provider_infrastructure.Prelude.{
  ℕ, Bool, true, false, not, ◌&&◌, ◌||◌, List, [], ◌∷◌, Option, none, some, if◌then◌else◌,
}
use provider_infrastructure.Text.{Text, text_eq, split}
use provider_infrastructure.Workspace.{
  Node, regular, folder, symlink, socket, Disk, FileWrite, complete, untouched, torn, Faults, Stat,
  missing, unknown, stat, lstat, extend, is_safe, ensure_no_symlink, clean_workspace_path,
}

unfoldable pub set : Text → Option Node → Disk → Disk
set path entry d q = if text_eq q path then entry else d q

-- The directories above a path, the top one first.
unfoldable pub parents : Text → List Text → List Text
parents prefix [] = []
parents prefix (part ∷ []) = []
parents prefix (part ∷ next ∷ parts) =
    extend prefix part ∷ parents (extend prefix part) (next ∷ parts)

-- What `MkdirAll` does at one directory: it is there, it is made, or there is an error.
abbrev pub make_at : Bool → Text → Option Node → Disk → Disk × Bool
make_at fails path none d = if fails then (d, false) else (set path (some folder) d, true)
make_at fails path (some folder) d = (d, true)
make_at fails path (some _) d = (d, false)

unfoldable pub make_folders : Faults → List Text → Disk → Disk × Bool
unfolding set
make_folders f [] d = (d, true)
make_folders f (path ∷ paths) d =
    let (d', made) = make_at (f.mkdir_fails path) path (d path) d in
    let rest = make_folders f paths d' in if made then rest else (d', false)

abbrev pub put_bytes : FileWrite → Text → List ℕ → Disk → Disk × Bool
put_bytes complete path bytes d = (set path (some (regular bytes)) d, true)
put_bytes untouched path bytes d = (d, false)
put_bytes (torn other) path bytes d = (set path (some (regular other)) d, false)

-- `WriteFile`, where no symbolic link is on the way: a directory or a socket is not opened.
abbrev pub write_at : FileWrite → Option Node → Text → List ℕ → Disk → Disk × Bool
write_at outcome none path bytes d = put_bytes outcome path bytes d
write_at outcome (some (regular _)) path bytes d = put_bytes outcome path bytes d
write_at outcome (some _) path bytes d = (d, false)

-- `writeWorkspaceFile`: the files afterwards, and whether it returned no error.
unfoldable pub write_file : Faults → Text → List ℕ → Disk → Disk × Bool
unfolding make_folders parents set
write_file f path bytes d =
    let (d', made) = make_folders f (parents [] (split path b'/')) d in
    if made then write_at (f.write path) (d' path) path bytes d' else (d', false)

abbrev pub differs_from : Option Node → List ℕ → Bool
differs_from (some (regular current)) next = not (text_eq current next)
differs_from _ next = true

-- `workspaceFileContentChanged`; the test of the sizes is implied by that of the bytes.
unfoldable pub content_changed : Faults → Disk → Text → List ℕ → Bool
content_changed f d path next =
    f.lstat_fails path || (f.read_fails path || differs_from (d path) next)

-- How `removeManagedWorkspaceFile` ends.
pub data Removal : Type 0 where
  removed not_there failed : Removal

abbrev pub remove_at : Bool → Stat → Text → Disk → Disk × Removal
remove_at fails missing path d = (d, not_there)
remove_at fails (stat (regular _)) path d =
    if fails then (d, failed) else (set path none d, removed)
remove_at fails _ path d = (d, failed)

abbrev pub remove_clean : Faults → Option Text → Disk → Disk × Removal
remove_clean f none d = (d, failed)
remove_clean f (some path) d =
    if is_safe (ensure_no_symlink f d path)
    then remove_at (f.remove_fails path) (lstat f d path) path d
    else (d, failed)

-- `removeManagedWorkspaceFile`
unfoldable pub remove_managed : Faults → Text → Disk → Disk × Removal
unfolding set lstat ensure_no_symlink clean_workspace_path
remove_managed f raw d = remove_clean f (clean_workspace_path raw) d
