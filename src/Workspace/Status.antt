-- ===== src/Workspace/Status.antt =====
-- The handler of `/status` (`handleStatus` of dev-agent/main.go), without the state of the actions.
use provider_infrastructure.Prelude.{ℕ, Bool, ◌&&◌, Option, none, some, if◌then◌else◌}
use provider_infrastructure.Text.{Text}
use provider_infrastructure.Workspace.{Disk, Manifest, Workspace, Faults}
use provider_infrastructure.Workspace.Manifests.{read_manifest, verify_manifest}
use provider_infrastructure.Workspace.Reload.{RuntimeStatus}
use provider_infrastructure.Workspace.Sync.{
  Config, Libraries, Machine, Runtime, authorize_control, nothing_pending,
}

-- The reply: an error with its status, or the status of the runtime and the revision and the digest
-- of the workspace, if they are current.
pub data StatusReply : Type 0 where
  status_error : ℕ → StatusReply
  status_of : RuntimeStatus → Option (ℕ × Text) → StatusReply

-- The revision and the digest of a manifest that has nothing pending and verifies.
abbrev pub current_source : Libraries → Faults → Disk → Option Manifest → Option (ℕ × Text)
current_source lib f d none = none
current_source lib f d (some m) =
    if nothing_pending m.pending_reload_commands && verify_manifest lib.hash f m d
    then some (m.source_revision, m.source_digest)
    else none

abbrev pub reported : Libraries → Machine → Option RuntimeStatus → Workspace → StatusReply
reported lib machine none w = status_error 502
reported lib machine (some s) w = status_of s (
    if machine.opens
    then current_source lib machine.checking w.disk (read_manifest w.manifest)
    else none)

-- `handleStatus`
unfoldable pub handle_status :
    Libraries → Machine → Config → Runtime → Bool → Text → Workspace → StatusReply
unfolding authorize_control read_manifest verify_manifest
handle_status lib machine config runtime is_get token w =
    if is_get
    then if authorize_control config token
      then reported lib machine runtime.status w
      else status_error 401
    else status_error 405
