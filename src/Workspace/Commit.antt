-- ===== src/Workspace/Commit.antt =====
-- The digest of a mutation, its write, and the handler (`handleWorkspaceMutate`,
-- `digestWorkspaceFiles` and `applyManagedContent` of dev-agent/workspace.go).
use provider_infrastructure.Prelude.{
  ℕ, suc, Bool, true, false, not, ◌&&◌, ◌||◌, List, [], ◌∷◌, Option, none, some, map, length, ltb,
  ◌==◌, if◌then◌else◌,
}
use provider_infrastructure.Text.{Text, codes, text_eq, is_empty, trim_space, rune_lower}
use provider_infrastructure.Command.{normalize_source_digest}
use provider_infrastructure.Workspace.{
  Disk, Manifest, Workspace, Faults, clean_workspace_path, is_managed_path,
}
use provider_infrastructure.Workspace.Digest.{Source, preimage, sort_paths}
use provider_infrastructure.Workspace.Bundle.{DecodedFile}
use provider_infrastructure.Workspace.Manifests.{read_manifest, read_regular, verify_manifest}
use provider_infrastructure.Workspace.Step.{
  Reply, mutated, Handling, ◌>>=◌, give, stop, require, expect, workspace_now,
}
use provider_infrastructure.Workspace.Stages.{put_files, unique, delete_from}
use provider_infrastructure.Workspace.Stamp.{save_manifest, max_revision}
use provider_infrastructure.Workspace.Sync.{Libraries}
use provider_infrastructure.Workspace.Served.{reply_of}
use provider_infrastructure.Workspace.Mutate.{
  Mutation, MutateRequest, WorkspaceFile, MutateMachine, workspace_max_files,
  workspace_max_operations, read_managed_files, sort_files, apply_operations, unchanged_bytes,
}

abbrev pub bytes_of :
    Libraries → Faults → Disk → Text → WorkspaceFile → Option (List ℕ) → Option (List ℕ)
bytes_of lib f d path file (some content) = some content
bytes_of lib f d path file none = unchanged_bytes lib file (read_regular f d path)

abbrev pub add_source : Text → Option (List ℕ) → Option (List Source) → Option (List Source)
add_source path (some bytes) (some files) = some ((path, bytes) ∷ files)
add_source path _ _ = none

-- The loop of `digestWorkspaceFiles`, over files in the order of their paths.
unfoldable pub sources_from : Libraries → Faults → Disk → List WorkspaceFile → Option (List Source)
unfolding clean_workspace_path is_managed_path read_regular text_eq
sources_from lib f d [] = some []
sources_from lib f d (file ∷ files) =
    let rest = sources_from lib f d files in
    elim (clean_workspace_path file.path) [
      | none ↦ none
      | some path ↦
          if is_managed_path path
          then add_source path (bytes_of lib f d path file file.content) rest
          else none
    ]

abbrev pub hash_sources : Libraries → Option (List Source) → Option Text
hash_sources lib none = none
hash_sources lib (some files) = some (lib.hash (preimage files))

-- `digestWorkspaceFiles`
unfoldable pub digest_files : Libraries → Faults → Disk → List WorkspaceFile → Option Text
unfolding sources_from preimage
digest_files lib f d files = hash_sources lib (sources_from lib f d files)

abbrev pub file_paths : List WorkspaceFile → List Text
file_paths files = map (λ file. file.path) files

abbrev pub written_file : WorkspaceFile → Option (List ℕ) → List DecodedFile → List DecodedFile
written_file file none rest = rest
written_file file (some content) rest =
    record { path = file.path; content = content; binary = false } ∷ rest

-- The files whose bytes are in memory, which are written.
unfoldable pub in_memory : List WorkspaceFile → List DecodedFile
in_memory [] = []
in_memory (file ∷ files) = let rest = in_memory files in written_file file file.content rest

-- The cleaned paths of `applyManagedContent`.
unfoldable pub clean_all : List Text → Option (List Text)
unfolding clean_workspace_path
clean_all [] = some []
clean_all (raw ∷ raws) = elim (clean_workspace_path raw) [
  | none ↦ none
  | some path ↦ elim (clean_all raws) [ none ↦ none | some paths ↦ some (path ∷ paths) ]
]

-- `applyManagedContent`: the paths that changed, and those that were removed.
unfoldable pub apply_managed_content :
    Faults → Faults → List WorkspaceFile → List Text → Handling (List Text × List Text)
unfolding clean_all in_memory put_files delete_from sort_paths unique
apply_managed_content writing deleting files previous = do
  cleaned ← expect (clean_all previous) 500
  changed ← put_files 500 writing (in_memory files)
  deleted ← delete_from deleting none (file_paths files) (sort_paths (unique cleaned))
  give (changed, deleted)

abbrev pub matches_evidence : MutateRequest → Manifest → Bool
matches_evidence req m =
    m.source_revision == req.expected_revision
    && text_eq (normalize_source_digest m.source_digest)
        (normalize_source_digest req.expected_digest)

abbrev pub has_evidence : MutateRequest → Bool
has_evidence req =
    not (req.expected_revision == 0) && not (is_empty (normalize_source_digest req.expected_digest))

abbrev pub is_bounded : List Mutation → Bool
is_bounded operations =
    not (length operations == 0) && not (ltb workspace_max_operations (length operations))

-- `strings.EqualFold` of the policy and `always`: `s` has a third form, the long s.
unfoldable pub fold_always : Text → Bool
unfolding rune_lower text_eq trim_space
fold_always policy =
    text_eq (map (λ c. if c == 0x17f then b's' else rune_lower c) (trim_space policy))
      (codes "always")

-- The manifest after a mutation.
abbrev pub mutated_manifest : Manifest → Text → List WorkspaceFile → Manifest
mutated_manifest m digest files = record {
  source_revision = suc m.source_revision;
  source_digest = digest;
  files = sort_paths (file_paths files);
  pending_reload_commands = [];
}

-- The write of the mutated files and of their manifest, and the reply.
unfoldable pub commit :
    MutateMachine → MutateRequest → Manifest → List WorkspaceFile → Text → Handling (Unit {0})
unfolding apply_managed_content save_manifest fold_always
commit machine req m files digest = do
  paths ← apply_managed_content machine.writing machine.deleting files m.files
  left ← require (not (m.source_revision == max_revision)) 409
  recorded ← save_manifest machine.recording (mutated_manifest m digest files)
  let restarts : Bool = fold_always req.restart
  restarted ← require (not restarts || machine.restarts) 502
  stop (
      mutated (record {
        is_unchanged = false;
        changed = paths.0;
        deleted = paths.1;
        restarted = restarts;
        source_revision = suc m.source_revision;
        source_digest = digest;
      }))

abbrev pub unchanged_reply : Manifest → Reply
unchanged_reply m = mutated (record {
  is_unchanged = true;
  changed = [];
  deleted = [];
  restarted = false;
  source_revision = m.source_revision;
  source_digest = m.source_digest;
})

-- The checks of a mutation before its operations: the manifest that it names, and its files.
unfoldable pub check_mutation :
    Libraries → MutateMachine → MutateRequest → Handling (Manifest × List WorkspaceFile)
unfolding read_manifest verify_manifest read_managed_files
check_mutation lib machine req = do
  evidence ← require (has_evidence req) 400
  bounded ← require (is_bounded req.operations) 400
  opened ← require machine.opens 500
  w ← workspace_now
  m ← expect (read_manifest w.manifest) 409
  verified ← require (verify_manifest lib.hash machine.checking m w.disk) 409
  current ← require (matches_evidence req m) 409
  files ← expect (read_managed_files lib machine.reading w.disk m.files) 409
  give (m, files)

-- The mutation of the managed files.
unfoldable pub mutate_files :
    Libraries → MutateMachine → MutateRequest → Manifest → List WorkspaceFile → Handling (Unit {0})
unfolding apply_operations sort_files digest_files commit
mutate_files lib machine req m managed = do
  files ← apply_operations lib [] req.operations managed
  few ← require (not (ltb workspace_max_files (length files))) 413
  w ← workspace_now
  digest ← expect (digest_files lib machine.digesting w.disk (sort_files files)) 409
  if text_eq digest (normalize_source_digest m.source_digest)
      then stop (unchanged_reply m)
      else commit machine req m (sort_files files) digest

unfoldable pub mutate_request : Libraries → MutateMachine → MutateRequest → Handling (Unit {0})
unfolding check_mutation mutate_files
mutate_request lib machine req = do
  checked ← check_mutation lib machine req
  mutate_files lib machine req checked.0 checked.1

unfoldable pub mutate_steps : Libraries → MutateMachine → Option MutateRequest → Handling (Unit {0})
unfolding mutate_request
mutate_steps lib machine body = do req ← expect body 400; mutate_request lib machine req

-- `handleWorkspaceMutate`, once the body is decoded; none where it is refused.
unfoldable pub handle_mutate :
    Libraries → MutateMachine → Option MutateRequest → Workspace → Workspace × Option Reply
unfolding mutate_steps
handle_mutate lib machine body w =
    let (w', outcome) = mutate_steps lib machine body w in (w', reply_of outcome)
