-- ===== src/Workspace/Applied.antt =====
-- What a synchronisation with a revision leaves when it succeeds (`handleSync` of
-- dev-agent/main.go).
use provider_infrastructure.Prelude.{
  ℕ, ◌≡◌, ◌≢◌, refl, sym, ◌∙◌, Bool, true, false, not, ◌&&◌, ◌++◌, List, [], Option, none, some,
  All, All-map, All-zip, if◌then◌else◌, arith,
}
use mathlib.Core.Option.{some-injective}
use provider_infrastructure.Text.{Text, text_eq}
use provider_infrastructure.Text.Laws.{text_eq_refl}
use provider_infrastructure.Workspace.{Manifest, decoded, Workspace, Faults, clean_workspace_path}
use provider_infrastructure.Workspace.Files.{remove_managed}
use provider_infrastructure.Workspace.Files.Laws.{remove_managed-other}
use provider_infrastructure.Workspace.Digest.{sort_paths}
use provider_infrastructure.Workspace.Bundle.{DecodedFile, has_path}
use provider_infrastructure.Workspace.Manifests.{write_manifest, verify_manifest, manifest_tmp}
use provider_infrastructure.Workspace.Links.{
  HasNoLink, LeavesNoLink, remove_managed-IsUnlinked, write_manifest-HasNoLink, write_manifest-done,
}
use provider_infrastructure.Workspace.Step.{
  SyncResponse, Reply, refused, synced, Ends, Triple, require, give, stop, triple-bind,
}
use provider_infrastructure.Workspace.Stages.{is_kept, delete_candidates, candidates}
use provider_infrastructure.Workspace.Stamp.{save_manifest}
use provider_infrastructure.Workspace.Stages.Keeps.{is_early, require-keeps, delete_from-keeps}
use provider_infrastructure.Workspace.Stages.Stores.{Distinct, AllStored}
use provider_infrastructure.Workspace.Stages.Unlinked.{
  Unlinked, put_files-Unlinked, restore_files-Unlinked,
}
use provider_infrastructure.Workspace.Sync.{
  Config, Libraries, Machine, Runtime, Plan, nothing_pending,
}
use provider_infrastructure.Workspace.Served.{
  paths_of, applied, response, with_runs, commands_of, converge, reload_bundle, sync_bundle,
}
use provider_infrastructure.Workspace.Handler.{NoMore, finish_sync-keeps, restart_needed-keeps}
use provider_infrastructure.Workspace.Frame.{has_path-paths_of, write_manifest-Stored}

-- The manifest is the one that is written for the plan.
abbrev pub IsRecorded : Plan → Workspace → Type 0
IsRecorded plan w =
    (pending : List Text) × (w.manifest
      ≡ decoded (record (applied plan pending) { files = sort_paths (applied plan pending).files }))

-- The workspace has the files of the plan, and its manifest.
abbrev pub IsSettled : Plan → Workspace → Type 0
IsSettled plan w = AllStored plan.incoming w × IsRecorded plan w

-- Cleaning does not change the paths of which a plan removes some.
abbrev pub AreStable : List Text → Type 0
AreStable paths = All (λ path. clean_workspace_path path ≡ some path) paths

-- A path that is removed is not the path of a file of the bundle.
removed-other :
    (path : Text) (files : List DecodedFile)
    → has_path path (paths_of files) ≡ false
    → clean_workspace_path path ≡ some path
    → All (λ file. clean_workspace_path path ≢ some file.path) files
removed-other path files unnamed stable =
    All-map files
      (λ file differs cleaned.
        cc (rw (some-injective _ _ (sym stable ∙ cleaned), text_eq_refl file.path) at differs))
      (has_path-paths_of path files unnamed)

is_kept-unnamed :
    (previous : Option Manifest) (incoming : List Text) (path : Text)
    → is_kept previous incoming path ≡ false
    → has_path path incoming ≡ false
is_kept-unnamed none incoming path goes = goes
is_kept-unnamed (some m) incoming path goes = ground arith

pub remove-AllStored :
    (f : Faults) (previous : Option Manifest) (files : List DecodedFile) (path : Text)
    (w : Workspace)
    → clean_workspace_path path ≡ some path
    → is_kept previous (paths_of files) path ≡ false
    → AllStored files w
    → AllStored files (record w { disk = (remove_managed f path w.disk).0 })
remove-AllStored f previous files path w stable goes stored =
    All-zip files (λ file other here. remove_managed-other f path file.path w.disk other ∙ here)
      (removed-other path files (is_kept-unnamed previous (paths_of files) path goes) stable) stored

pub write_manifest-AllStored :
    (f : Faults) (m : Manifest) (files : List DecodedFile) (w : Workspace)
    → All (λ file. text_eq file.path manifest_tmp ≡ false) files
    → HasNoLink w
    → AllStored files w
    → AllStored files (write_manifest f m w).0
write_manifest-AllStored f m files w apart free stored =
    All-zip files
      (λ file other here. write_manifest-Stored f m w file.path file.content other free here) apart
      stored

module _ (plan : Plan) (R : Reply → Workspace → Type 0)
    (refuses : (code : ℕ) (w : Workspace) → R (refused code) w)
    (replies : (resp : SyncResponse) (w : Workspace) → IsSettled plan w → R (synced resp) w)
    (distinct : Distinct plan.incoming) (stable : AreStable (candidates plan.previous plan.deletes))
    (free : All (λ file. text_eq file.path manifest_tmp ≡ false) plan.incoming) where
  abbrev Settled : Workspace → Type 0
  Settled = Unlinked (IsSettled plan)

  abbrev Written : Workspace → Type 0
  Written = Unlinked (AllStored plan.incoming)

  late :
      (I : Workspace → Type 0) (code : ℕ) (w : Workspace)
      → is_early code ≡ false
      → I w
      → R (refused code) w
  late I code w _ _ = refuses code w

  delete-keeps :
      (I : Workspace → Type 0) (f : Faults)
      → ((path : Text) (w : Workspace)
          → clean_workspace_path path ≡ some path
          → is_kept plan.previous (paths_of plan.incoming) path ≡ false
          → I w
          → I (record w { disk = (remove_managed f path w.disk).0 }))
      → Triple
          (Unlinked I)
          (delete_candidates f plan.previous plan.deletes (paths_of plan.incoming))
          (λ _. Unlinked I)
          R
  unfolding delete_candidates
  delete-keeps I f kept =
      delete_from-keeps (Unlinked I) R (late (Unlinked I)) f plan.previous (paths_of plan.incoming)
        (candidates plan.previous plan.deletes)
        (All-map (candidates plan.previous plan.deletes)
          (λ path unchanged w goes held. (
            remove_managed-IsUnlinked manifest_tmp f path w.disk held.0,
            kept path w unchanged goes held.1,
          ))
          stable)

  delete-AllStored :
      (f : Faults)
      → Triple
          (Unlinked (AllStored plan.incoming))
          (delete_candidates f plan.previous plan.deletes (paths_of plan.incoming))
          (λ _. Unlinked (AllStored plan.incoming))
          R
  delete-AllStored f =
      delete-keeps (AllStored plan.incoming) f (remove-AllStored f plan.previous plan.incoming)

  delete-IsSettled :
      (f : Faults)
      → Triple Settled
          (delete_candidates f plan.previous plan.deletes (paths_of plan.incoming))
          (λ _. Settled)
          R
  delete-IsSettled f = delete-keeps (IsSettled plan) f (λ path w unchanged goes settled.
      (remove-AllStored f plan.previous plan.incoming path w unchanged goes settled.0, settled.1))

  save-IsSettled :
      (f : Faults) (pending : List Text)
      → Triple Written (save_manifest f (applied plan pending)) (λ _. Settled) R
  unfolding save_manifest
  save-IsSettled f pending w (free_tmp, stored) =
      at_end (write_manifest f (applied plan pending) w).1 refl
    where
      at_end :
          (fine : Bool)
          → (write_manifest f (applied plan pending) w).1 ≡ fine
          → Ends (λ _. Settled) R (require fine 500 (write_manifest f (applied plan pending) w).0)
      at_end true written = (
        write_manifest-HasNoLink f (applied plan pending) w free_tmp,
        (
          write_manifest-AllStored f (applied plan pending) plan.incoming w free free_tmp stored,
          (pending, write_manifest-done f (applied plan pending) w free_tmp written),
        ),
      )
      at_end false failed = refuses 500 _

  converge-IsSettled :
      (lib : Libraries) (machine : Machine) (commands : List Text)
      → Triple HasNoLink (converge lib machine plan commands) (λ _. Settled) R
  unfolding converge
  converge-IsSettled lib machine commands =
      triple-bind R HasNoLink (λ _. Written) (λ _. Settled) _ _
        (restore_files-Unlinked R refuses lib.is_utf8 machine.restoring plan.incoming distinct)
        (λ _.
          triple-bind R Written (λ _. Settled) (λ _. Settled) _ _
            (save-IsSettled machine.recording_again commands)
            (λ _.
              triple-bind R Settled (λ _. Settled) (λ _. Settled) _ _
                (delete-IsSettled machine.deleting_again)
                (λ _.
                  triple-bind R Settled (λ _. Settled) (λ _. Settled) _ _ (λ w i. i)
                    (λ v.
                      require-keeps Settled R (late Settled)
                        (verify_manifest lib.hash machine.verifying (applied plan commands) v.disk)
                        500 refl))))

  ends : (resp : SyncResponse) (w : Workspace) → Settled w → R (synced resp) w
  ends resp w settled = replies resp w settled.1

  reload_bundle-IsSettled :
      (lib : Libraries) (machine : Machine) (runtime : Runtime) (commands : List Text)
      (resp : SyncResponse)
      → LeavesNoLink runtime
      → Triple HasNoLink (reload_bundle lib machine runtime plan commands resp) (λ _. Settled) R
  unfolding reload_bundle
  reload_bundle-IsSettled lib machine runtime commands resp reloads =
      triple-bind R HasNoLink (λ _. HasNoLink) (λ _. Settled) _ _ (reloads commands)
        (λ failure.
          triple-bind R HasNoLink (λ _. Settled) (λ _. Settled) _ _
            (converge-IsSettled lib machine commands) (λ _. at_failure failure))
    where
      at_failure :
          (failure : Option Text)
          → Triple Settled
              (elim failure [
                | some e ↦ stop (synced (record resp { reload_error = some e }))
                | none ↦ save_manifest machine.clearing (applied plan [])
              ])
              (λ _. Settled)
              R
      at_failure (some e) = ends (record resp { reload_error = some e })
      at_failure none = λ w settled. save-IsSettled machine.clearing [] w (settled.0, settled.1.0)

  pub sync_bundle-IsSettled :
      (lib : Libraries) (machine : Machine) (config : Config) (runtime : Runtime)
      → LeavesNoLink runtime
      → Triple HasNoLink (sync_bundle lib machine config runtime plan) NoMore R
  unfolding sync_bundle
  sync_bundle-IsSettled lib machine config runtime reloads =
      triple-bind R HasNoLink (λ _. Written) NoMore _ _
        (put_files-Unlinked R refuses 409 machine.writing plan.incoming refl distinct)
        (λ changed.
          triple-bind R Written (λ _. Written) NoMore _ _ (delete-AllStored machine.deleting)
            (λ deleted.
              let commands : List Text = commands_of lib config plan (changed ++ deleted) in
              triple-bind R Written (λ _. Settled) NoMore _ _
                (save-IsSettled machine.recording commands)
                (λ _.
                  triple-bind R Settled (λ _. Settled) NoMore _ _
                    (restart_needed-keeps Settled R (late Settled) ends config runtime plan commands
                      (changed ++ deleted))
                    (λ restart.
                      let runs : Bool = restart && not (nothing_pending commands) in
                      let resp : SyncResponse =
                        with_runs runs commands (response plan changed deleted) in
                      triple-bind R Settled (λ _. Settled) NoMore _ _ (at_runs runs commands resp)
                        (λ _.
                          finish_sync-keeps Settled R (late Settled) ends config runtime restart
                            resp)))))
    where
      at_runs :
          (runs : Bool) (commands : List Text) (resp : SyncResponse)
          → Triple Settled
              (if runs then reload_bundle lib machine runtime plan commands resp else give tt)
              (λ _. Settled)
              R
      at_runs true commands resp =
          λ w settled. reload_bundle-IsSettled lib machine runtime commands resp reloads w settled.0
      at_runs false commands resp = λ w i. i
