-- ===== src/Workspace/Seed.antt =====
-- The handler of `/workspace/seed` (`handleWorkspaceSeed` of dev-agent/workspace.go), which hands
-- the bundle over to `handleSync`.
use provider_infrastructure.Prelude.{
  ℕ, suc, ◌≤◌, ◌≡◌, Bool, true, false, not, ◌&&◌, List, [], Option, none, some, map, length, ltb,
  ◌==◌, Bool-cases, inl, inr, ◌⊎◌, refl, if◌then◌else◌, arith,
}
use provider_infrastructure.Text.{Text, is_empty, trim_space}
use provider_infrastructure.Workspace.{Disk, Manifest, Workspace}
use provider_infrastructure.Workspace.Digest.{digest_sources}
use provider_infrastructure.Workspace.Bundle.{
  SyncFile, DecodedFile, Decoded, ok, err, too_large, invalid, decode_sync_files, source_of,
  validate_from,
}
use provider_infrastructure.Workspace.Manifests.{read_manifest, manifest_tmp}
use provider_infrastructure.Workspace.Step.{Reply, refused}
use provider_infrastructure.Workspace.Stamp.{max_revision}
use provider_infrastructure.Workspace.Sync.{
  parsed, Request, Config, Libraries, Machine, Runtime, SyncRequest, authorize_control,
}
use provider_infrastructure.Workspace.Served.{handle_sync}
use provider_infrastructure.Workspace.Mutate.{workspace_max_files}
use provider_infrastructure.Workspace.Preflight.{IsFresh}
use provider_infrastructure.Workspace.Links.{HasNoLink, IsUnlinked, LeavesNoLink}
use provider_infrastructure.Workspace.Revisions.{
  recorded_revision, read_manifest-revision, handle_sync-revision,
}

-- `workspaceSeedRequest`
pub record SeedRequest : Type 0 where
  pub files : List SyncFile
  pub restart : Text
  pub source_revision : ℕ
  pub source_digest : Text

-- The request; the body is none where the decoder refuses it.
pub record SeedCall : Type 0 where
  pub is_post : Bool
  pub token : Text
  pub body : Option SeedRequest

-- The revision after that of the manifest, in 64 bits; 0 where there is no valid manifest.
abbrev pub revision_after : Option Manifest → ℕ
revision_after none = 0
revision_after (some m) = if m.source_revision == max_revision then 0 else suc m.source_revision

abbrev pub at_least_one : ℕ → ℕ
at_least_one revision = if revision == 0 then 1 else revision

-- The revision of a seed: the one that it names, or the next one.
unfoldable pub seed_revision : Machine → Workspace → SeedRequest → ℕ
unfolding read_manifest trim_space
seed_revision machine w req =
    if req.source_revision == 0 && is_empty (trim_space req.source_digest)
    then at_least_one (if machine.opens then revision_after (read_manifest w.manifest) else 0)
    else req.source_revision

unfoldable pub seed_digest : Libraries → SeedRequest → List DecodedFile → Text
unfolding digest_sources trim_space
seed_digest lib req files =
    if is_empty (trim_space req.source_digest)
    then digest_sources lib.hash (map source_of files)
    else req.source_digest

-- The request that is handed over.
abbrev pub seed_sync :
    Libraries → Machine → Workspace → SeedRequest → List DecodedFile → SyncRequest
seed_sync lib machine w req files = record {
  files = req.files;
  delete_paths = [];
  restart = req.restart;
  source_revision = seed_revision machine w req;
  source_digest = seed_digest lib req files;
}

abbrev pub seed_files :
    Libraries
    → Machine
    → Config
    → Runtime
    → Text
    → SeedRequest
    → Decoded (List DecodedFile)
    → Workspace
    → Workspace × Option Reply
seed_files lib machine config runtime token req (err too_large) w = (w, some (refused 413))
seed_files lib machine config runtime token req (err invalid) w = (w, some (refused 400))
seed_files lib machine config runtime token req (ok files) w =
    if validate_from lib.is_utf8 [] files
    then handle_sync lib machine config runtime
        (record {
          is_post = true;
          token = token;
          body = parsed (seed_sync lib machine w req files);
        })
        w
    else (w, some (refused 400))

abbrev pub seed_body :
    Libraries
    → Machine
    → Config
    → Runtime
    → Text
    → Option SeedRequest
    → Workspace
    → Workspace × Option Reply
seed_body lib machine config runtime token none w = (w, some (refused 400))
seed_body lib machine config runtime token (some req) w =
    if ltb workspace_max_files (length req.files)
    then (w, some (refused 413))
    else seed_files lib machine config runtime token req
        (decode_sync_files lib.decode_base64 req.files) w

-- `handleWorkspace` for a seed, and `handleWorkspaceSeed`.
unfoldable pub handle_seed :
    Libraries → Machine → Config → Runtime → SeedCall → Workspace → Workspace × Option Reply
unfolding authorize_control decode_sync_files validate_from seed_revision seed_digest handle_sync
handle_seed lib machine config runtime call w =
    if not (authorize_control config call.token)
    then (w, some (refused 401))
    else if not call.is_post
    then (w, some (refused 405))
    else seed_body lib machine config runtime call.token call.body w

module _ (lib : Libraries) (machine : Machine) (config : Config) (runtime : Runtime)
    (w : Workspace) where
  -- A handler that refuses and leaves the workspace, or hands a request over to `handle_sync`.
  abbrev IsHandedOver : Workspace × Option Reply → Type 0
  IsHandedOver result =
      ((code : ℕ) × (result ≡ (w, some (refused code))))
      ⊎ ((r : Request) × (result ≡ handle_sync lib machine config runtime r w))

  seed_files-IsHandedOver :
      (token : Text) (req : SeedRequest) (decoded : Decoded (List DecodedFile))
      → IsHandedOver (seed_files lib machine config runtime token req decoded w)
  seed_files-IsHandedOver token req (err too_large) = inl (413, refl)
  seed_files-IsHandedOver token req (err invalid) = inl (400, refl)
  seed_files-IsHandedOver token req (ok files) =
      elim (Bool-cases (validate_from lib.is_utf8 [] files)) [
        | inl valid ↦ rw (valid) (inr (_, refl))
        | inr not_valid ↦ rw (not_valid) (inl (400, refl))
      ]

  seed_body-IsHandedOver :
      (token : Text) (body : Option SeedRequest)
      → IsHandedOver (seed_body lib machine config runtime token body w)
  seed_body-IsHandedOver token none = inl (400, refl)
  seed_body-IsHandedOver token (some req) =
      elim (Bool-cases (ltb workspace_max_files (length req.files))) [
        | inl many ↦ rw (many) (inl (413, refl))
        | inr few ↦
            rw (few)
              (seed_files-IsHandedOver token req (decode_sync_files lib.decode_base64 req.files))
      ]

  handle_seed-IsHandedOver :
      (call : SeedCall) → IsHandedOver (handle_seed lib machine config runtime call w)
  unfolding handle_seed
  handle_seed-IsHandedOver call = elim (Bool-cases (authorize_control config call.token)) [
    | inr denied ↦ rw (denied) (inl (401, refl))
    | inl allowed ↦ elim (Bool-cases call.is_post) [
      | inr other ↦ rw (allowed, other) (inl (405, refl))
      | inl posted ↦ rw (allowed, posted) (seed_body-IsHandedOver call.token call.body)
    ]
  ]

  -- A seed does not lower the revision of a valid manifest, if the reload does not, where no
  -- symbolic link stands at the name of the manifest's temporary file and neither the reload nor the
  -- removal of a path puts one there.
  pub handle_seed-revision :
      (call : SeedCall) (m : Manifest)
      → read_manifest w.manifest ≡ some m
      → HasNoLink w
      → ((path : Text) (d : Disk)
          → IsUnlinked manifest_tmp d
          → IsUnlinked manifest_tmp (machine.remove_all path d).0)
      → LeavesNoLink runtime
      → ((commands : List Text) (w' : Workspace)
          → m.source_revision ≤ recorded_revision w'.manifest
          → m.source_revision ≤ recorded_revision (runtime.reload commands w').0.manifest)
      → m.source_revision
        ≤ recorded_revision (handle_seed lib machine config runtime call w).0.manifest
  handle_seed-revision call m read free removes links reload =
      elim (handle_seed-IsHandedOver call) [
        | inl (code, same) ↦ rw (same) (ground (arith, read_manifest-revision w.manifest m read))
        | inr (r, same) ↦
            rw (same)
              (handle_sync-revision lib machine config runtime r w m read free removes links reload)
      ]

-- A seed that names neither a revision nor a digest is not older than the manifest, unless the
-- revisions are exhausted.
pub seed_revision-IsFresh :
    (machine : Machine) (w : Workspace) (req : SeedRequest) (m : Manifest)
    → machine.opens ≡ true
    → read_manifest w.manifest ≡ some m
    → (m.source_revision == max_revision) ≡ false
    → (req.source_revision == 0) ≡ true
    → is_empty (trim_space req.source_digest) ≡ true
    → IsFresh (some m) (seed_revision machine w req)
unfolding seed_revision
seed_revision-IsFresh machine w req m opens read left no_revision no_digest =
    rw (opens, read, no_revision, no_digest, left) (ground arith)
