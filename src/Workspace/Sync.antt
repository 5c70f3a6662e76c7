-- ===== src/Workspace/Sync.antt =====
-- The handler of `/sync` (`handleSync` of dev-agent/main.go).
use provider_infrastructure.Prelude.{
  ℕ, Bool, true, false, not, ◌&&◌, ◌||◌, List, [], ◌∷◌, Option, none, some, map, ltb, ◌==◌,
  if◌then◌else◌,
}
use provider_infrastructure.Text.{Text, text_eq, is_empty, trim_space}
use provider_infrastructure.Command.{normalize_source_digest}
use provider_infrastructure.Workspace.{
  Disk, Manifest, Workspace, Faults, clean_workspace_path, is_managed_path,
}
use provider_infrastructure.Workspace.Digest.{digest_sources}
use provider_infrastructure.Workspace.Bundle.{
  SyncFile, DecodedFile, too_large, invalid, Decoded, ok, err, decode_sync_files, source_of,
  validate_from,
}
use provider_infrastructure.Workspace.Manifests.{read_manifest, verify_manifest}
use provider_infrastructure.Workspace.Reload.{ReloadRule, RuntimeStatus}
use provider_infrastructure.Workspace.Step.{
  SyncResponse, synced, Handling, ◌>>=◌, give, stop, refuse, require, expect, workspace_now,
}

-- `syncRequest`
pub record SyncRequest : Type 0 where
  pub files : List SyncFile
  pub delete_paths : List Text
  pub restart : Text
  pub source_revision : ℕ
  pub source_digest : Text

-- The body of the request, as the JSON decoder reads it.
pub data Body : Type 0 where
  oversized malformed : Body
  parsed : SyncRequest → Body

pub record Request : Type 0 where
  pub is_post : Bool
  pub token : Text
  pub body : Body

pub record Config : Type 0 where
  pub control_token : Text
  pub allow_insecure_control : Bool
  pub reload_rules : List ReloadRule
  pub reload_strategy : Text

-- The functions of the libraries: SHA-256 in hexadecimal digits, strict base64, `utf8.Valid` and
-- `path.Match`.
pub record Libraries : Type 0 where
  pub hash : List ℕ → Text
  pub decode_base64 : Text → Option (List ℕ)
  pub is_utf8 : List ℕ → Bool
  pub matches : Text → Text → Bool

-- The supervisor of the process: its status, what it does to the workspace when it reloads, with
-- its error, and whether the process is restarted or made to exit.
pub record Runtime : Type 0 where
  pub status : Option RuntimeStatus
  pub reload : List Text → Workspace → Workspace × Option Text
  pub restarts : Bool
  pub exits : Bool

-- What the machine does in each part of the handler.
pub record Machine : Type 0 where
  pub opens : Bool
  pub remove_all : Text → Disk → Disk × Bool
  pub checking : Faults
  pub writing : Faults
  pub deleting : Faults
  pub recording : Faults
  pub restoring : Faults
  pub recording_again : Faults
  pub deleting_again : Faults
  pub verifying : Faults
  pub clearing : Faults
  pub stamping : Faults

-- `authorizeControl`
unfoldable pub authorize_control : Config → Text → Bool
unfolding trim_space text_eq
authorize_control config token =
    if is_empty (trim_space config.control_token)
    then config.allow_insecure_control
    else text_eq token (trim_space config.control_token)

abbrev pub names_digest : SyncRequest → Bool
names_digest req = not (is_empty (trim_space req.source_digest))

abbrev pub is_authoritative : SyncRequest → Bool
is_authoritative req = not (req.source_revision == 0) || names_digest req

-- The paths to delete, cleaned; none where a path is refused.
unfoldable pub clean_deletes : Bool → List Text → Option (List Text)
unfolding clean_workspace_path is_managed_path
clean_deletes authoritative [] = some []
clean_deletes authoritative (raw ∷ raws) = elim (clean_workspace_path raw) [
  | none ↦ none
  | some path ↦
      if authoritative && not (is_managed_path path)
      then none
      else elim (clean_deletes authoritative raws) [
        | none ↦ none
        | some paths ↦ some (path ∷ paths)
      ]
]

abbrev pub unchanged : Manifest → SyncResponse
unchanged m = record {
  changed = [];
  deleted = [];
  reload_runs = [];
  restarted = false;
  reload_error = none;
  source_revision = m.source_revision;
  source_digest = m.source_digest;
}

abbrev pub nothing_pending : List Text → Bool
nothing_pending [] = true
nothing_pending (c ∷ cs) = false

-- The switch on the applied revision: it refuses an older one and another digest for the same
-- one, and replies at once if the revision is applied.
unfoldable pub against_previous :
    Libraries → Machine → SyncRequest → Text → Option Manifest → Handling (Unit {0})
unfolding verify_manifest
against_previous lib machine req digest none = give tt
against_previous lib machine req digest (some m) = do
  fresh ← require (not (ltb req.source_revision m.source_revision)) 409
  if req.source_revision == m.source_revision
      then (do
        same ← require (text_eq (normalize_source_digest m.source_digest) digest) 409
        w ← workspace_now
        if nothing_pending m.pending_reload_commands
              && verify_manifest lib.hash machine.checking m w.disk
            then stop (synced (unchanged m))
            else give tt)
      else give tt

abbrev pub decoded_files : Decoded (List DecodedFile) → Handling (List DecodedFile)
decoded_files (ok files) = give files
decoded_files (err too_large) = refuse 413
decoded_files (err invalid) = refuse 400

abbrev pub parsed_body : Body → Handling SyncRequest
parsed_body oversized = refuse 413
parsed_body malformed = refuse 400
parsed_body (parsed req) = give req

-- The request and its files, or the reply of a request that is not served.
unfoldable pub admit_sync : Libraries → Config → Request → Handling (SyncRequest × List DecodedFile)
unfolding authorize_control decode_sync_files
admit_sync lib config r = do
  post ← require r.is_post 405
  allowed ← require (authorize_control config r.token) 401
  req ← parsed_body r.body
  files ← decoded_files (decode_sync_files lib.decode_base64 req.files)
  give (req, files)

-- What a synchronisation goes on with after its checks; `deletes` are the cleaned paths.
pub record Plan : Type 0 where
  pub request : SyncRequest
  pub incoming : List DecodedFile
  pub deletes : List Text
  pub previous : Option Manifest

-- The checks of an authoritative bundle.
unfoldable pub check_bundle : Libraries → Machine → Plan → Handling (Unit {0})
unfolding validate_from digest_sources against_previous
check_bundle lib machine plan = do
  valid ← require (validate_from lib.is_utf8 [] plan.incoming) 400
  let digest = digest_sources lib.hash (map source_of plan.incoming)
  same ← require (text_eq (normalize_source_digest plan.request.source_digest) digest) 409
  against_previous lib machine plan.request digest plan.previous

-- The checks before the first write.
unfoldable pub preflight : Libraries → Machine → SyncRequest → List DecodedFile → Handling Plan
unfolding read_manifest clean_deletes check_bundle
preflight lib machine req files = do
  opened ← require machine.opens 500
  paired ←
      require (not (is_authoritative req) || (not (req.source_revision == 0) && names_digest req))
        400
  w ← workspace_now
  deletes ← expect (clean_deletes (is_authoritative req) req.delete_paths) 400
  let plan : Plan = record {
    request = req;
    incoming = files;
    deletes = deletes;
    previous = read_manifest w.manifest;
  }
  checked ← if is_authoritative req then check_bundle lib machine plan else give tt
  give plan
