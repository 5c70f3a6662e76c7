-- ===== src/Workspace/Served.antt =====
-- The two kinds of synchronisation, and the handler (`handleSync` of dev-agent/main.go).
use provider_infrastructure.Prelude.{
  Bool, true, false, not, ◌&&◌, List, [], ◌∷◌, ◌++◌, Option, none, some, map, if◌then◌else◌,
}
use provider_infrastructure.Text.{Text, codes, text_eq}
use provider_infrastructure.Workspace.{Manifest, Workspace}
use provider_infrastructure.Workspace.Digest.{sort_paths}
use provider_infrastructure.Workspace.Bundle.{DecodedFile}
use provider_infrastructure.Workspace.Manifests.{verify_manifest}
use provider_infrastructure.Workspace.Reload.{
  ReloadRule, match_reload_rules, merge_reload_commands, should_restart_after_sync,
}
use provider_infrastructure.Workspace.Step.{
  SyncResponse, Reply, synced, Outcome, done, stopped, Handling, ◌>>=◌, give, stop, require, expect,
  workspace_now,
}
use provider_infrastructure.Workspace.Stages.{
  put_files, restore_files, delete_candidates, remove_each,
}
use provider_infrastructure.Workspace.Stamp.{save_manifest, stamp_plain}
use provider_infrastructure.Workspace.Sync.{
  Request, Config, Libraries, Runtime, Machine, is_authoritative, nothing_pending, admit_sync, Plan,
  preflight,
}

abbrev pub paths_of : List DecodedFile → List Text
paths_of files = map (λ file. file.path) files

abbrev pub with_pending : Option Manifest → List Text → List Text
with_pending none commands = commands
with_pending (some m) commands = merge_reload_commands m.pending_reload_commands commands

-- The commands of the rules that the changed paths match, after those left from earlier.
unfoldable pub commands_of : Libraries → Config → Plan → List Text → List Text
unfolding match_reload_rules merge_reload_commands
commands_of lib config plan touched =
    with_pending plan.previous (match_reload_rules lib.matches config.reload_rules touched)

abbrev pub has_rules : List ReloadRule → Bool
has_rules [] = false
has_rules (r ∷ rs) = true

-- Whether to restart, or status 502 where the runtime's status is an error.
unfoldable pub restart_needed : Config → Runtime → Plan → List Text → List Text → Handling Bool
unfolding should_restart_after_sync
restart_needed config runtime plan commands touched =
    expect
      (should_restart_after_sync runtime.status plan.request.restart
        (not (nothing_pending commands)) (has_rules config.reload_rules) touched)
      502

-- The end of the handler: the restart, and the reply.
unfoldable pub finish_sync : Config → Runtime → Bool → SyncResponse → Handling (Unit {0})
unfolding text_eq
finish_sync config runtime false resp = stop (synced resp)
finish_sync config runtime true resp = do
  restarted ←
      if text_eq config.reload_strategy (codes "container")
      then require runtime.exits 502
      else require runtime.restarts 500
  stop (synced (record resp { restarted = true }))

abbrev pub run_reload : Runtime → List Text → Handling (Option Text)
run_reload runtime commands w = let (w', failure) = runtime.reload commands w in (w', done failure)

abbrev pub applied : Plan → List Text → Manifest
applied plan pending = record {
  source_revision = plan.request.source_revision;
  source_digest = plan.request.source_digest;
  files = sort_paths (paths_of plan.incoming);
  pending_reload_commands = pending;
}

-- After a reload of an authoritative synchronisation: the files, the manifest and the deletions
-- are put back, and the manifest is verified.
unfoldable pub converge : Libraries → Machine → Plan → List Text → Handling (Unit {0})
unfolding restore_files save_manifest delete_candidates verify_manifest
converge lib machine plan commands = do
  restored ← restore_files lib.is_utf8 machine.restoring plan.incoming
  recorded ← save_manifest machine.recording_again (applied plan commands)
  again ←
      delete_candidates machine.deleting_again plan.previous plan.deletes (paths_of plan.incoming)
  w ← workspace_now
  require (verify_manifest lib.hash machine.verifying (applied plan commands) w.disk) 500

-- The reload of an authoritative synchronisation; it ends the handler if the commands failed.
unfoldable pub reload_bundle :
    Libraries → Machine → Runtime → Plan → List Text → SyncResponse → Handling (Unit {0})
unfolding converge
reload_bundle lib machine runtime plan commands resp = do
  failure ← run_reload runtime commands
  converged ← converge lib machine plan commands
  elim failure [
    | some e ↦ stop (synced (record resp { reload_error = some e }))
    | none ↦ save_manifest machine.clearing (applied plan [])
  ]

abbrev pub response : Plan → List Text → List Text → SyncResponse
response plan changed deleted = record {
  changed = changed;
  deleted = deleted;
  reload_runs = [];
  restarted = false;
  reload_error = none;
  source_revision = plan.request.source_revision;
  source_digest = plan.request.source_digest;
}

-- The reply with the commands that are run.
abbrev pub with_runs : Bool → List Text → SyncResponse → SyncResponse
with_runs runs commands resp = if runs then record resp { reload_runs = commands } else resp

-- A synchronisation with a revision and a digest.
unfoldable pub sync_bundle : Libraries → Machine → Config → Runtime → Plan → Handling (Unit {0})
unfolding put_files delete_candidates commands_of save_manifest restart_needed reload_bundle
    finish_sync
sync_bundle lib machine config runtime plan = do
  changed ← put_files 409 machine.writing plan.incoming
  deleted ← delete_candidates machine.deleting plan.previous plan.deletes (paths_of plan.incoming)
  let commands : List Text = commands_of lib config plan (changed ++ deleted)
  recorded ← save_manifest machine.recording (applied plan commands)
  restart ← restart_needed config runtime plan commands (changed ++ deleted)
  let runs : Bool = restart && not (nothing_pending commands)
  let resp : SyncResponse = with_runs runs commands (response plan changed deleted)
  reloaded ← if runs then reload_bundle lib machine runtime plan commands resp else give tt
  finish_sync config runtime restart resp

abbrev pub with_stamp : Option Manifest → SyncResponse → SyncResponse
with_stamp none resp = resp
with_stamp (some m) resp = record resp {
  source_revision = m.source_revision;
  source_digest = m.source_digest;
}

-- The reply of a synchronisation without a revision, once its result is stamped.
unfoldable pub stamped :
    Libraries → Machine → Plan → List Text → SyncResponse → Handling SyncResponse
unfolding stamp_plain
stamped lib machine plan pending resp = do
  manifest ←
      stamp_plain lib.hash machine.stamping plan.previous (paths_of plan.incoming) plan.deletes
        pending
  give (with_stamp manifest resp)

-- Its reload, which ends the handler if the commands failed.
unfoldable pub reload_plain :
    Libraries → Machine → Runtime → Plan → List Text → SyncResponse → Handling SyncResponse
unfolding stamped
reload_plain lib machine runtime plan commands resp = do
  failure ← run_reload runtime commands
  elim failure [
    | some e ↦ (do
      kept ← stamped lib machine plan commands (record resp { reload_error = some e })
      stop (synced kept))
    | none ↦ stamped lib machine plan [] resp
  ]

-- A synchronisation without a revision.
unfoldable pub sync_plain : Libraries → Machine → Config → Runtime → Plan → Handling (Unit {0})
unfolding put_files remove_each commands_of restart_needed reload_plain stamped finish_sync
sync_plain lib machine config runtime plan = do
  changed ← put_files 409 machine.writing plan.incoming
  gone ← remove_each machine.remove_all plan.deletes
  let touched : List Text = changed ++ plan.deletes
  let commands : List Text = commands_of lib config plan touched
  restart ← restart_needed config runtime plan commands touched
  let runs : Bool = restart && not (nothing_pending commands)
  let resp : SyncResponse = with_runs runs commands (response plan changed plan.deletes)
  final ←
      if runs
      then reload_plain lib machine runtime plan commands resp
      else stamped lib machine plan commands resp
  finish_sync config runtime restart final

abbrev pub reply_of {ℓ} : {A : Type ℓ} → Outcome A → Option Reply
reply_of (done a) = none
reply_of (stopped r) = some r

unfoldable pub sync_steps : Libraries → Machine → Config → Runtime → Request → Handling (Unit {0})
unfolding admit_sync preflight sync_bundle sync_plain
sync_steps lib machine config runtime r = do
  admitted ← admit_sync lib config r
  plan ← preflight lib machine admitted.0 admitted.1
  if is_authoritative admitted.0
      then sync_bundle lib machine config runtime plan
      else sync_plain lib machine config runtime plan

-- `handleSync`: the workspace afterwards, and the reply if there is one.
unfoldable pub handle_sync :
    Libraries → Machine → Config → Runtime → Request → Workspace → Workspace × Option Reply
unfolding sync_steps
handle_sync lib machine config runtime r w =
    let (w', outcome) = sync_steps lib machine config runtime r w in (w', reply_of outcome)
