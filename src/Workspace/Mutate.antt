-- ===== src/Workspace/Mutate.antt =====
-- The handler of `/workspace/mutate` (`handleWorkspaceMutate` of dev-agent/workspace.go).
pub mod Paths
pub mod Commits
pub mod Committed
pub mod Operations
pub mod Mutated
use provider_infrastructure.Prelude.{
  ℕ, suc, Bool, true, false, not, ◌&&◌, ◌||◌, List, [], ◌∷◌, Option, none, some, any, map, length,
  ltb, ◌==◌, if◌then◌else◌,
}
use provider_infrastructure.Text.{
  Text, codes, text_eq, text_lt, is_empty, byte_len, trim_space, to_lower, rune_lower,
  contains_rune,
}
use provider_infrastructure.Command.{normalize_source_digest}
use provider_infrastructure.Workspace.{
  Disk, Manifest, Workspace, Faults, clean_workspace_path, is_managed_path,
}
use provider_infrastructure.Workspace.Digest.{Source, utf8, preimage, sort_paths}
use provider_infrastructure.Workspace.Bundle.{DecodedFile, has_path}
use provider_infrastructure.Workspace.Manifests.{read_manifest, read_regular, verify_manifest}
use provider_infrastructure.Workspace.Step.{
  MutateResponse, Reply, refused, mutated, Handling, ◌>>=◌, give, stop, refuse, require, expect,
  workspace_now,
}
use provider_infrastructure.Workspace.Stages.{put_files, unique, delete_from}
use provider_infrastructure.Workspace.Stamp.{save_manifest, max_revision}
use provider_infrastructure.Workspace.Sync.{Libraries}
use provider_infrastructure.Workspace.Served.{reply_of}

-- `workspaceMutation`
pub record Mutation : Type 0 where
  pub operation : Text
  pub path : Text
  pub content : Text

-- `workspaceMutateRequest`
pub record MutateRequest : Type 0 where
  pub expected_revision : ℕ
  pub expected_digest : Text
  pub operations : List Mutation
  pub restart : Text

-- `workspaceFile`; `content` is none where the bytes are only on the disk.
pub record WorkspaceFile : Type 0 where
  pub path : Text
  pub content : Option (List ℕ)
  pub size : ℕ
  pub digest : Text

-- What the machine does in each part of the handler, and whether the process restarts.
pub record MutateMachine : Type 0 where
  pub opens : Bool
  pub checking : Faults
  pub reading : Faults
  pub digesting : Faults
  pub writing : Faults
  pub deleting : Faults
  pub recording : Faults
  pub restarts : Bool

abbrev pub workspace_max_files : ℕ
workspace_max_files = 512

abbrev pub workspace_max_file_bytes : ℕ
workspace_max_file_bytes = 1_048_576

abbrev pub workspace_max_operations : ℕ
workspace_max_operations = 256

-- `isWorkspaceText`
unfoldable pub is_workspace_text : Libraries → List ℕ → Bool
unfolding contains_rune
is_workspace_text lib content =
    not (ltb workspace_max_file_bytes (length content))
    && (lib.is_utf8 content && not (contains_rune content 0))

-- `classifyWorkspaceBytes`
unfoldable pub classify : Libraries → Text → List ℕ → Bool → WorkspaceFile
unfolding is_workspace_text
classify lib path content keep_opaque = record {
  path = path;
  content = if is_workspace_text lib content || keep_opaque then some content else none;
  size = length content;
  digest = lib.hash content;
}

-- `normalizeWorkspacePaths`, with the paths that were seen, before they are sorted.
unfoldable pub normalize_from : List Text → List Text → Option (List Text)
unfolding clean_workspace_path has_path
normalize_from seen [] = some []
normalize_from seen (raw ∷ raws) = elim (clean_workspace_path raw) [
  | none ↦ none
  | some path ↦ if has_path path seen then none else elim (normalize_from (path ∷ seen) raws) [
    | none ↦ none
    | some paths ↦ some (path ∷ paths)
  ]
]

abbrev pub add_file : WorkspaceFile → Option (List WorkspaceFile) → Option (List WorkspaceFile)
add_file file none = none
add_file file (some files) = some (file ∷ files)

-- The loop of `readManagedFiles`. A file above the limit of a text is hashed without its bytes,
-- which is what the classification gives.
unfoldable pub read_files : Libraries → Faults → Disk → List Text → Option (List WorkspaceFile)
unfolding read_regular classify
read_files lib f d [] = some []
read_files lib f d (path ∷ paths) =
    let rest = read_files lib f d paths in
    elim (read_regular f d path) [
      | none ↦ none
      | some bytes ↦ add_file (classify lib path bytes false) rest
    ]

abbrev pub read_sorted :
    Libraries → Faults → Disk → Option (List Text) → Option (List WorkspaceFile)
read_sorted lib f d none = none
read_sorted lib f d (some paths) = read_files lib f d (sort_paths paths)

-- `readManagedFiles`
unfoldable pub read_managed_files :
    Libraries → Faults → Disk → List Text → Option (List WorkspaceFile)
unfolding normalize_from read_files sort_paths
read_managed_files lib f d paths = read_sorted lib f d (normalize_from [] paths)

-- A map from paths to files.
unfoldable pub set_file : WorkspaceFile → List WorkspaceFile → List WorkspaceFile
unfolding text_eq
set_file new [] = new ∷ []
set_file new (file ∷ files) =
    let rest = set_file new files in if text_eq file.path new.path then new ∷ files else file ∷ rest

unfoldable pub drop_file : Text → List WorkspaceFile → List WorkspaceFile
unfolding text_eq
drop_file path [] = []
drop_file path (file ∷ files) =
    let rest = drop_file path files in if text_eq file.path path then rest else file ∷ rest

unfoldable pub insert_file : WorkspaceFile → List WorkspaceFile → List WorkspaceFile
unfolding text_lt
insert_file new [] = new ∷ []
insert_file new (file ∷ files) =
    let rest = insert_file new files in
    if text_lt file.path new.path then file ∷ rest else new ∷ file ∷ files

-- `workspaceFilesFromMap`
unfoldable pub sort_files : List WorkspaceFile → List WorkspaceFile
unfolding insert_file
sort_files [] = []
sort_files (file ∷ files) = insert_file file (sort_files files)

abbrev pub is_operation : Mutation → Text → Bool
is_operation op name = text_eq (to_lower (trim_space op.operation)) name

-- The switch on one operation, at its cleaned path.
unfoldable pub apply_operation :
    Libraries → Text → Mutation → List WorkspaceFile → Handling (List WorkspaceFile)
unfolding utf8 classify set_file drop_file
apply_operation lib path op files =
    if is_operation op (codes "write") || is_operation op (codes "upsert")
    then (do
      small ← require (not (ltb workspace_max_file_bytes (byte_len op.content))) 413
      text ← require (lib.is_utf8 (utf8 op.content) && not (contains_rune op.content 0)) 400
      give (set_file (classify lib path (utf8 op.content) true) files))
    else if is_operation op (codes "delete") || is_operation op (codes "remove")
    then give (drop_file path files)
    else refuse 400

-- The loop over the operations, with the paths that were seen.
unfoldable pub apply_operations :
    Libraries → List Text → List Mutation → List WorkspaceFile → Handling (List WorkspaceFile)
unfolding clean_workspace_path is_managed_path has_path apply_operation
apply_operations lib seen [] files = give files
apply_operations lib seen (op ∷ ops) files = do
  path ← expect (clean_workspace_path op.path) 400
  managed ← require (is_managed_path path) 400
  new ← require (not (has_path path seen)) 400
  next ← apply_operation lib path op files
  apply_operations lib (path ∷ seen) ops next

-- The bytes that are digested for a file: those in memory, or those on the disk if they have not
-- changed.
abbrev pub unchanged_bytes : Libraries → WorkspaceFile → Option (List ℕ) → Option (List ℕ)
unchanged_bytes lib file none = none
unchanged_bytes lib file (some bytes) =
    if text_eq (lib.hash bytes) file.digest && length bytes == file.size then some bytes else none
