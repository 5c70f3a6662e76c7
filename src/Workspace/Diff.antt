-- ===== src/Workspace/Diff.antt =====
-- The comparison of two views of the workspace (`handleWorkspaceDiff`, `candidateWorkspaceFiles` and
-- `diffWorkspaceFiles` of dev-agent/workspace.go).
pub mod Exact
use provider_infrastructure.Prelude.{
  ℕ, Bool, true, false, not, ◌&&◌, ◌||◌, List, [], ◌∷◌, ◌++◌, Option, none, some, map, length, ltb,
  ◌==◌, if◌then◌else◌,
}
use provider_infrastructure.Text.{Text, text_eq, is_empty, trim_space}
use provider_infrastructure.Command.{normalize_source_digest}
use provider_infrastructure.Workspace.{
  Disk, Manifest, Workspace, Faults, clean_workspace_path, is_managed_path,
}
use provider_infrastructure.Workspace.Digest.{sort_paths}
use provider_infrastructure.Workspace.Bundle.{
  SyncFile, Decoded, ok, err, sync_max_file_bytes, decode_sync_content,
}
use provider_infrastructure.Workspace.Manifests.{read_manifest, verify_manifest}
use provider_infrastructure.Workspace.Stages.{unique}
use provider_infrastructure.Workspace.Sync.{Libraries}
use provider_infrastructure.Workspace.Mutate.{
  WorkspaceFile, workspace_max_files, is_workspace_text, classify, read_managed_files, set_file,
  drop_file, sort_files,
}
use provider_infrastructure.Workspace.Commit.{digest_files}

-- What a map from paths to files tells of a file: its digest and its size.
abbrev pub Version : Type 0
Version = Text × ℕ

pub data Kind : Type 0 where
  added deleted modified : Kind

-- `workspaceChange`
pub record WorkspaceChange : Type 0 where
  pub path : Text
  pub kind : Kind
  pub before : Option Version
  pub after : Option Version

-- The entries of a map in the order in which they are set, by the cleaned paths.
unfoldable pub entries : List WorkspaceFile → Option (List (Text × Version))
unfolding clean_workspace_path
entries [] = some []
entries (file ∷ files) =
    let rest = entries files in
    elim (clean_workspace_path file.path) [
      | none ↦ none
      | some path ↦ elim rest [
        | none ↦ none
        | some all ↦ some ((path, (file.digest, file.size)) ∷ all)
      ]
    ]

abbrev pub or_here : Option Version → Bool → Version → Option Version
or_here (some later) here version = some later
or_here none true version = some version
or_here none false version = none

-- The entry that was set last counts.
unfoldable pub version_at : Text → List (Text × Version) → Option Version
unfolding text_eq
version_at path [] = none
version_at path ((p, version) ∷ all) =
    let later = version_at path all in or_here later (text_eq p path) version

abbrev pub keys : List (Text × Version) → List Text
keys all = map (λ e. e.0) all

abbrev pub same_version : Version → Version → Bool
same_version (digest, size) (digest', size') = text_eq digest digest' && size == size'

-- The body of the loop: the change at a path, if there is one.
abbrev pub change_at : Text → Option Version → Option Version → Option WorkspaceChange
change_at path (some b) (some a) =
    if same_version b a
    then none
    else some (record { path = path; kind = modified; before = some b; after = some a })
change_at path none a = some (record { path = path; kind = added; before = none; after = a })
change_at path (some b) none =
    some (record { path = path; kind = deleted; before = some b; after = none })

abbrev pub with_change : Option WorkspaceChange → List WorkspaceChange → List WorkspaceChange
with_change none changes = changes
with_change (some change) changes = change ∷ changes

unfoldable pub changes_at :
    List (Text × Version) → List (Text × Version) → List Text → List WorkspaceChange
unfolding version_at
changes_at left right [] = []
changes_at left right (path ∷ paths) =
    let rest = changes_at left right paths in
    with_change (change_at path (version_at path left) (version_at path right)) rest

abbrev pub diff_entries :
    Option (List (Text × Version)) → Option (List (Text × Version)) → Option (List WorkspaceChange)
diff_entries (some left) (some right) =
    some (changes_at left right (sort_paths (unique (keys left ++ keys right))))
diff_entries _ _ = none

-- `diffWorkspaceFiles`
unfoldable pub diff_files : List WorkspaceFile → List WorkspaceFile → Option (List WorkspaceChange)
unfolding entries changes_at sort_paths unique
diff_files before after = diff_entries (entries before) (entries after)

-- `workspaceFileIndex`
unfoldable pub index_from : List WorkspaceFile → List WorkspaceFile → List WorkspaceFile
unfolding set_file
index_from index [] = index
index_from index (file ∷ files) = index_from (set_file file index) files

abbrev pub is_candidate : Libraries → List ℕ → Bool → Bool
is_candidate lib content true = not (ltb sync_max_file_bytes (length content))
is_candidate lib content false = is_workspace_text lib content

abbrev pub candidate_of : Libraries → Text → Decoded (List ℕ × Bool) → Option WorkspaceFile
candidate_of lib path (err e) = none
candidate_of lib path (ok (content, binary)) =
    if is_candidate lib content binary then some (classify lib path content true) else none

abbrev pub managed_path : Option Text → Option Text
managed_path none = none
managed_path (some path) = if is_managed_path path then some path else none

-- The first loop of `candidateWorkspaceFiles`.
unfoldable pub overlay_writes :
    Libraries → List SyncFile → List WorkspaceFile → Option (List WorkspaceFile)
unfolding clean_workspace_path is_managed_path decode_sync_content classify set_file
overlay_writes lib [] index = some index
overlay_writes lib (file ∷ files) index = elim (managed_path (clean_workspace_path file.path)) [
  | none ↦ none
  | some path ↦ elim (candidate_of lib path (decode_sync_content lib.decode_base64 file)) [
    | none ↦ none
    | some new ↦ overlay_writes lib files (set_file new index)
  ]
]

-- The second.
unfoldable pub overlay_deletes : List Text → List WorkspaceFile → Option (List WorkspaceFile)
unfolding clean_workspace_path drop_file
overlay_deletes [] index = some index
overlay_deletes (raw ∷ raws) index = elim (clean_workspace_path raw) [
  | none ↦ none
  | some path ↦ overlay_deletes raws (drop_file path index)
]

abbrev pub bounded_files : List WorkspaceFile → Option (List WorkspaceFile)
bounded_files index =
    if ltb workspace_max_files (length index) then none else some (sort_files index)

abbrev pub and_then {ℓ κ} : {A : Type ℓ} {B : Type κ} → Option A → (A → Option B) → Option B
and_then none f = none
and_then (some a) f = f a

-- `candidateWorkspaceFiles`
unfoldable pub candidate_files :
    Libraries → List WorkspaceFile → List SyncFile → List Text → Option (List WorkspaceFile)
unfolding index_from overlay_writes overlay_deletes sort_files
candidate_files lib current writes deletes =
    and_then (overlay_writes lib writes (index_from [] current))
      (λ index. and_then (overlay_deletes deletes index) bounded_files)

-- `workspaceDiffRequest`; files and paths are none where the request has no such field.
pub record DiffRequest : Type 0 where
  pub checkpoint_id : Text
  pub files : Option (List SyncFile)
  pub delete_paths : Option (List Text)
  pub expected_revision : ℕ
  pub expected_digest : Text

-- `workspaceDiffResponse`
pub record DiffResponse : Type 0 where
  pub base_revision : ℕ
  pub base_digest : Text
  pub source_revision : ℕ
  pub source_digest : Text
  pub changes : List WorkspaceChange

-- What the handler replies, or refuses with a status.
pub data Compared {ℓ} (A : Type ℓ) : Type ℓ where
  compared : A → Compared A
  declined : ℕ → Compared A

infixl 5 ◌>>=◌
abbrev pub ◌>>=◌ {ℓ κ} : {A : Type ℓ} {B : Type κ} → Compared A → (A → Compared B) → Compared B
compared a >>= f = f a
declined code >>= f = declined code

abbrev pub unless_none {ℓ} : {A : Type ℓ} → Option A → ℕ → Compared A
unless_none none code = declined code
unless_none (some a) code = compared a

abbrev pub unless_false : Bool → ℕ → Compared (Unit {0})
unless_false true code = compared tt
unless_false false code = declined code

-- A view to compare with: its files, its revision and its digest.
abbrev pub View : Type 0
View = List WorkspaceFile × ℕ × Text

abbrev pub has_candidate : DiffRequest → Bool
has_candidate req = is_there req.files || is_there req.delete_paths
  where
    is_there : {A : Type 0} → Option A → Bool
    is_there none = false
    is_there (some a) = true

abbrev pub or_empty {ℓ} : {A : Type ℓ} → Option (List A) → List A
or_empty none = []
or_empty (some all) = all

-- The baseline and the files that are compared with it. `load` is what `loadWorkspaceCheckpoint`
-- gives for an identifier.
unfoldable pub views :
    Libraries
    → (Text → Option View)
    → DiffRequest
    → Manifest
    → List WorkspaceFile
    → Compared (View × List WorkspaceFile)
unfolding candidate_files trim_space
views lib load req m current =
    if not (is_empty (trim_space req.checkpoint_id))
    then (do checkpoint ← unless_none (load req.checkpoint_id) 404; compared (checkpoint, current))
    else if has_candidate req
    then (do
      candidate ←
          unless_none (candidate_files lib current (or_empty req.files) (or_empty req.delete_paths))
            400
      compared ((current, m.source_revision, m.source_digest), candidate))
    else compared ((current, m.source_revision, m.source_digest), current)

-- The evidence of a diff, where it is given, is that of the manifest.
abbrev pub agrees : DiffRequest → Manifest → Bool
agrees req m =
    (req.expected_revision == 0 || req.expected_revision == m.source_revision)
    && (is_empty (trim_space req.expected_digest)
        || text_eq (normalize_source_digest req.expected_digest)
            (normalize_source_digest m.source_digest))

-- What the machine does in each part of the handler.
pub record DiffMachine : Type 0 where
  pub opens : Bool
  pub checking : Faults
  pub reading : Faults
  pub digesting : Faults

-- `handleWorkspaceDiff`, once the body is decoded; none where it is refused.
unfoldable pub handle_diff :
    Libraries
    → DiffMachine
    → (Text → Option View)
    → Option DiffRequest
    → Workspace
    → Compared DiffResponse
unfolding read_manifest verify_manifest read_managed_files views digest_files diff_files
handle_diff lib machine load body w = do
  req ← unless_none body 400
  opened ← unless_false machine.opens 500
  m ← unless_none (read_manifest w.manifest) 409
  verified ← unless_false (verify_manifest lib.hash machine.checking m w.disk) 409
  current ← unless_none (read_managed_files lib machine.reading w.disk m.files) 409
  both ← views lib load req m current
  expected ← unless_false (agrees req m) 409
  digest ← unless_none (digest_files lib machine.digesting w.disk both.1) 409
  changes ← unless_none (diff_files both.0.0 both.1) 500
  compared (record {
    base_revision = both.0.1;
    base_digest = both.0.2;
    source_revision = m.source_revision;
    source_digest = digest;
    changes = changes;
  })
