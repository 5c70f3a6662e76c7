-- ===== src/Workspace/Manifests.antt =====
-- The manifest of the workspace: `readWorkspaceManifest`, `writeWorkspaceManifest` and
-- `verifyWorkspaceManifest` of dev-agent/main.go.
use provider_infrastructure.Prelude.{
  ℕ, Bool, true, false, not, ◌&&◌, ◌||◌, List, [], ◌∷◌, Option, none, some, all, map, length, ltb,
  ◌==◌, if◌then◌else◌,
}
use provider_infrastructure.Text.{Text, codes, text_eq, is_empty, byte_len, trim_space}
use provider_infrastructure.Command.{normalize_source_digest}
use provider_infrastructure.Workspace.{
  Node, regular, symlink, ManifestWrite, saved, unopened, unrenamed, cut, Disk, Manifest,
  ManifestFile, absent, undecodable, decoded, Workspace, Faults, Stat, stat, lstat, is_safe,
  ensure_no_symlink, clean_workspace_path, is_managed_path,
}
use provider_infrastructure.Workspace.Digest.{Source, sort_paths, preimage}
use provider_infrastructure.Workspace.Bundle.{has_path}
use provider_infrastructure.Workspace.Files.{set}

-- The loop of `readWorkspaceManifest` over the files, with the paths that were seen.
unfoldable pub clean_files : List Text → List Text → Option (List Text)
unfolding clean_workspace_path is_managed_path has_path
clean_files seen [] = some []
clean_files seen (raw ∷ raws) = elim (clean_workspace_path raw) [
  | none ↦ none
  | some path ↦
      if not (is_managed_path path) || has_path path seen
      then none
      else elim (clean_files (path ∷ seen) raws) [ none ↦ none | some paths ↦ some (path ∷ paths) ]
]

abbrev pub max_pending : ℕ
max_pending = 32

abbrev pub max_command_bytes : ℕ
max_command_bytes = 4096

abbrev pub is_command : Text → Bool
is_command raw =
    not (is_empty (trim_space raw) || ltb max_command_bytes (byte_len (trim_space raw)))

abbrev pub has_revision : Manifest → Bool
has_revision m =
    not (m.source_revision == 0) && not (is_empty (normalize_source_digest m.source_digest))

abbrev pub with_files : Manifest → Option (List Text) → Option Manifest
with_files m none = none
with_files m (some paths) =
    if ltb max_pending (length m.pending_reload_commands)
      || not (all is_command m.pending_reload_commands)
    then none
    else some (record m {
      files = sort_paths paths;
      pending_reload_commands = map trim_space m.pending_reload_commands;
    })

-- What the manifest's file gives; none where the manifest is absent or is not valid, which
-- `handleSync` treats alike.
unfoldable pub read_manifest : ManifestFile → Option Manifest
unfolding clean_files
read_manifest absent = none
read_manifest undecodable = none
read_manifest (decoded m) = if has_revision m then with_files m (clean_files [] m.files) else none

-- `workspaceManifestName + ".tmp"`
abbrev pub manifest_tmp : Text
manifest_tmp = codes ".railgrid-workspace-manifest.json.tmp"

-- The write and the renaming of a temporary file that is no link.
abbrev pub save_tmp : ManifestWrite → Manifest → Workspace → Workspace × Bool
save_tmp saved m w = (record { disk = set manifest_tmp none w.disk; manifest = decoded m }, true)
save_tmp unopened m w = (w, false)
save_tmp unrenamed m w = (record w { disk = set manifest_tmp none w.disk }, false)
save_tmp (cut bytes) m w =
    (record w { disk = set manifest_tmp (some (regular bytes)) w.disk }, false)

-- What stands at the temporary file's name decides: `WriteFile` follows a link, which is then
-- renamed, and does not open a directory or a socket.
abbrev pub save_at : Faults → Option Node → Manifest → Workspace → Workspace × Bool
save_at f none m w = save_tmp f.manifest_write m w
save_at f (some (regular bytes)) m w = save_tmp f.manifest_write m w
save_at f (some symlink) m w = f.write_through m w
save_at f (some _) m w = (w, false)

-- `writeWorkspaceManifest`: it writes a temporary file in the workspace and renames it. The
-- workspace afterwards, and whether there was no error.
unfoldable pub write_manifest : Faults → Manifest → Workspace → Workspace × Bool
unfolding sort_paths set
write_manifest f m w = save_at f (w.disk manifest_tmp) (record m { files = sort_paths m.files }) w

-- A round of the loop that digests the files: the bytes of a regular file that can be read.
abbrev pub bytes_at : Bool → Stat → Option (List ℕ)
bytes_at false (stat (regular bytes)) = some bytes
bytes_at _ _ = none

unfoldable pub read_regular : Faults → Disk → Text → Option (List ℕ)
unfolding lstat ensure_no_symlink
read_regular f d path =
    if is_safe (ensure_no_symlink f d path)
    then bytes_at (f.read_fails path) (lstat f d path)
    else none

unfoldable pub read_sources : Faults → Disk → List Text → Option (List Source)
unfolding read_regular
read_sources f d [] = some []
read_sources f d (path ∷ paths) = elim (read_regular f d path) [
  | none ↦ none
  | some bytes ↦ elim (read_sources f d paths) [
    | none ↦ none
    | some files ↦ some ((path, bytes) ∷ files)
  ]
]

-- The paths of the first loop of `verifyWorkspaceManifest`.
unfoldable pub managed_paths : List Text → Option (List Text)
unfolding clean_workspace_path is_managed_path
managed_paths [] = some []
managed_paths (raw ∷ raws) = elim (clean_workspace_path raw) [
  | none ↦ none
  | some path ↦
      if not (is_managed_path path)
      then none
      else elim (managed_paths raws) [ none ↦ none | some paths ↦ some (path ∷ paths) ]
]

-- `hash` is SHA-256 in hexadecimal digits.
abbrev pub has_digest : (List ℕ → Text) → Manifest → Option (List Source) → Bool
has_digest hash m none = false
has_digest hash m (some files) =
    text_eq (normalize_source_digest m.source_digest) (hash (preimage files))

abbrev pub sources_of : Faults → Disk → Option (List Text) → Option (List Source)
sources_of f d none = none
sources_of f d (some paths) = read_sources f d (sort_paths paths)

-- `verifyWorkspaceManifest`: whether it returns no error.
unfoldable pub verify_manifest : (List ℕ → Text) → Faults → Manifest → Disk → Bool
unfolding sort_paths preimage read_sources managed_paths
verify_manifest hash f m d =
    has_revision m && has_digest hash m (sources_of f d (managed_paths m.files))
