-- ===== src/Workspace/Handler.antt =====
-- A property of the workspace is kept by the two kinds of synchronisation (`handleSync` of
-- dev-agent/main.go) if each operation on files in them keeps it.
use provider_infrastructure.Prelude.{
  ℕ, ◌≡◌, refl, Bool, true, false, not, ◌&&◌, ◌++◌, List, [], ◌∷◌, Option, none, some, All,
  if◌then◌else◌,
}
use provider_infrastructure.Text.{Text, codes, text_eq}
use provider_infrastructure.Workspace.{Workspace, Faults}
use provider_infrastructure.Workspace.Files.{write_file, remove_managed}
use provider_infrastructure.Workspace.Digest.{Source}
use provider_infrastructure.Workspace.Manifests.{write_manifest, verify_manifest}
use provider_infrastructure.Workspace.Reload.{should_restart_after_sync}
use provider_infrastructure.Workspace.Step.{
  SyncResponse, Reply, refused, synced, Triple, ◌>>=◌, give, stop, require, triple-bind,
}
use provider_infrastructure.Workspace.Stages.{is_kept, delete_candidates, candidates}
use provider_infrastructure.Workspace.Stamp.{save_manifest, next_stamp, stamp_of}
use provider_infrastructure.Workspace.Stages.Keeps.{
  is_early, bind-keeps, require-keeps, expect-keeps, put_files-keeps, restore_files-keeps,
  delete_from-keeps, save_manifest-keeps, remove_each-keeps, stamp_plain-keeps,
}
use provider_infrastructure.Workspace.Sync.{
  Config, Libraries, Machine, Runtime, Plan, nothing_pending,
}
use provider_infrastructure.Workspace.Served.{
  paths_of, applied, response, with_runs, commands_of, has_rules, restart_needed, finish_sync,
  converge, reload_bundle, sync_bundle, stamped, reload_plain, sync_plain,
}

-- The step ends the handler.
abbrev pub NoMore {ℓ} : {A : Type ℓ} → A → Workspace → Type 0
NoMore _ _ = ⊥

pub All-always {ℓ κ} : {A : Type ℓ} (P : A → Type κ) (xs : List A) → ((x : A) → P x) → All P xs
All-always P [] h = tt
All-always P (x ∷ xs) h = (h x, All-always P xs h)

module _ (I : Workspace → Type 0) (R : Reply → Workspace → Type 0)
    (refuses : (code : ℕ) (w : Workspace) → is_early code ≡ false → I w → R (refused code) w)
    (replies : (resp : SyncResponse) (w : Workspace) → I w → R (synced resp) w) where
  pub finish_sync-keeps :
      (config : Config) (runtime : Runtime) (restart : Bool) (resp : SyncResponse)
      → Triple I (finish_sync config runtime restart resp) NoMore R
  unfolding finish_sync
  finish_sync-keeps config runtime false resp = replies resp
  finish_sync-keeps config runtime true resp =
      triple-bind R I (λ _. I) NoMore _ _
        (either (text_eq config.reload_strategy (codes "container"))) (λ _. replies _)
    where
      either :
          (test : Bool)
          → Triple I
              (if test then require runtime.exits 502 else require runtime.restarts 500)
              (λ _. I)
              R
      either true = require-keeps I R refuses runtime.exits 502 refl
      either false = require-keeps I R refuses runtime.restarts 500 refl

  pub restart_needed-keeps :
      (config : Config) (runtime : Runtime) (plan : Plan) (commands touched : List Text)
      → Triple I (restart_needed config runtime plan commands touched) (λ _. I) R
  unfolding restart_needed
  restart_needed-keeps config runtime plan commands touched =
      expect-keeps I R refuses
        (should_restart_after_sync runtime.status plan.request.restart
          (not (nothing_pending commands)) (has_rules config.reload_rules) touched)
        502 refl

  module _ (plan : Plan) (runtime : Runtime)
      (writes : (f : Faults)
        → All
            (λ file.
              (w : Workspace)
              → I w
              → I (record w { disk = (write_file f file.path file.content w.disk).0 }))
            plan.incoming)
      (deletes : (f : Faults) (path : Text) (w : Workspace)
        → is_kept plan.previous (paths_of plan.incoming) path ≡ false
        → I w
        → I (record w { disk = (remove_managed f path w.disk).0 }))
      (saves : (f : Faults) (pending : List Text) (w : Workspace)
        → I w
        → I (write_manifest f (applied plan pending) w).0)
      (reloads : (commands : List Text) (w : Workspace)
        → I w
        → I (runtime.reload commands w).0) where
    delete_candidates-keeps :
        (f : Faults)
        → Triple I
            (delete_candidates f plan.previous plan.deletes (paths_of plan.incoming))
            (λ _. I)
            R
    unfolding delete_candidates
    delete_candidates-keeps f =
        delete_from-keeps I R refuses f plan.previous (paths_of plan.incoming)
          (candidates plan.previous plan.deletes)
          (All-always _ (candidates plan.previous plan.deletes) (deletes f))

    save-keeps :
        (f : Faults) (pending : List Text)
        → Triple I (save_manifest f (applied plan pending)) (λ _. I) R
    save-keeps f pending =
        save_manifest-keeps I R refuses f (applied plan pending) (saves f pending)

    converge-keeps :
        (lib : Libraries) (machine : Machine) (commands : List Text)
        → Triple I (converge lib machine plan commands) (λ _. I) R
    unfolding converge
    converge-keeps lib machine commands =
        bind-keeps I R refuses _ _
          (restore_files-keeps I R refuses lib.is_utf8 machine.restoring plan.incoming
            (writes machine.restoring))
          (λ _. bind-keeps I R refuses _ _ (save-keeps machine.recording_again commands) (λ _.
            bind-keeps I R refuses _ _ (delete_candidates-keeps machine.deleting_again) (λ _.
              bind-keeps I R refuses _ _ (λ w i. i)
                (λ v.
                  require-keeps I R refuses
                    (verify_manifest lib.hash machine.verifying (applied plan commands) v.disk) 500
                    refl))))

    reload_bundle-keeps :
        (lib : Libraries) (machine : Machine) (commands : List Text) (resp : SyncResponse)
        → Triple I (reload_bundle lib machine runtime plan commands resp) (λ _. I) R
    unfolding reload_bundle
    reload_bundle-keeps lib machine commands resp =
        bind-keeps I R refuses _ _ (reloads commands) (λ failure.
          bind-keeps I R refuses _ _ (converge-keeps lib machine commands)
            (λ _. at_failure failure))
      where
        at_failure :
            (failure : Option Text)
            → Triple I
                (elim failure [
                  | some e ↦ stop (synced (record resp { reload_error = some e }))
                  | none ↦ save_manifest machine.clearing (applied plan [])
                ])
                (λ _. I)
                R
        at_failure (some e) = replies _
        at_failure none = save-keeps machine.clearing []

    pub sync_bundle-keeps :
        (lib : Libraries) (machine : Machine) (config : Config)
        → Triple I (sync_bundle lib machine config runtime plan) NoMore R
    unfolding sync_bundle
    sync_bundle-keeps lib machine config =
        triple-bind R I (λ _. I) NoMore _ _
          (put_files-keeps I R refuses 409 machine.writing plan.incoming refl
            (writes machine.writing))
          (λ changed.
            triple-bind R I (λ _. I) NoMore _ _ (delete_candidates-keeps machine.deleting)
              (λ deleted.
                let commands : List Text = commands_of lib config plan (changed ++ deleted) in
                triple-bind R I (λ _. I) NoMore _ _ (save-keeps machine.recording commands)
                  (λ _.
                    triple-bind R I (λ _. I) NoMore _ _
                      (restart_needed-keeps config runtime plan commands (changed ++ deleted))
                      (λ restart.
                        let runs : Bool = restart && not (nothing_pending commands) in
                        let resp : SyncResponse =
                          with_runs runs commands (response plan changed deleted) in
                        triple-bind R I (λ _. I) NoMore _ _ (at_runs runs commands resp)
                          (λ _. finish_sync-keeps config runtime restart resp)))))
      where
        at_runs :
            (runs : Bool) (commands : List Text) (resp : SyncResponse)
            → Triple I
                (if runs then reload_bundle lib machine runtime plan commands resp else give tt)
                (λ _. I)
                R
        at_runs true commands resp = reload_bundle-keeps lib machine commands resp
        at_runs false commands resp = λ w i. i

  module _ (plan : Plan) (runtime : Runtime) (machine : Machine)
      (writes : All
        (λ file.
          (w : Workspace)
          → I w
          → I (record w { disk = (write_file machine.writing file.path file.content w.disk).0 }))
        plan.incoming)
      (removes : (path : Text) (w : Workspace)
        → I w
        → I (record w { disk = (machine.remove_all path w.disk).0 }))
      (stamps : (digest : Text) (stamp : ℕ × Text) (files : List Source) (pending : List Text)
        → next_stamp plan.previous digest ≡ some stamp
        → (w : Workspace) → I w
        → I (write_manifest machine.stamping (stamp_of stamp files pending) w).0)
      (reloads : (commands : List Text) (w : Workspace)
        → I w
        → I (runtime.reload commands w).0) where
    stamped-keeps :
        (lib : Libraries) (pending : List Text) (resp : SyncResponse)
        → Triple I (stamped lib machine plan pending resp) (λ _. I) R
    unfolding stamped
    stamped-keeps lib pending resp =
        bind-keeps I R refuses _ _
          (stamp_plain-keeps I R refuses lib.hash machine.stamping plan.previous
            (paths_of plan.incoming) plan.deletes pending stamps)
          (λ _ w i. i)

    reload_plain-keeps :
        (lib : Libraries) (commands : List Text) (resp : SyncResponse)
        → Triple I (reload_plain lib machine runtime plan commands resp) (λ _. I) R
    unfolding reload_plain
    reload_plain-keeps lib commands resp = bind-keeps I R refuses _ _ (reloads commands) at_failure
      where
        at_failure :
            (failure : Option Text)
            → Triple I
                (elim failure [
                  | some e ↦ (do
                    kept ← stamped lib machine plan commands (record resp { reload_error = some e })
                    stop (synced kept))
                  | none ↦ stamped lib machine plan [] resp
                ])
                (λ _. I)
                R
        at_failure (some e) =
            bind-keeps I R refuses _ _
              (stamped-keeps lib commands (record resp { reload_error = some e })) replies
        at_failure none = stamped-keeps lib [] resp

    pub sync_plain-keeps :
        (lib : Libraries) (config : Config)
        → Triple I (sync_plain lib machine config runtime plan) NoMore R
    unfolding sync_plain
    sync_plain-keeps lib config =
        triple-bind R I (λ _. I) NoMore _ _
          (put_files-keeps I R refuses 409 machine.writing plan.incoming refl writes)
          (λ changed.
            triple-bind R I (λ _. I) NoMore _ _
              (remove_each-keeps I R refuses machine.remove_all plan.deletes removes)
              (λ _.
                let touched : List Text = changed ++ plan.deletes in
                let commands : List Text = commands_of lib config plan touched in
                triple-bind R I (λ _. I) NoMore _ _
                  (restart_needed-keeps config runtime plan commands touched)
                  (λ restart.
                    triple-bind R I (λ _. I) NoMore _ _
                      (at_runs (restart && not (nothing_pending commands)) commands _)
                      (λ final. finish_sync-keeps config runtime restart final))))
      where
        at_runs :
            (runs : Bool) (commands : List Text) (resp : SyncResponse)
            → Triple I
                (if runs
                  then reload_plain lib machine runtime plan commands resp
                  else stamped lib machine plan commands resp)
                (λ _. I)
                R
        at_runs true commands resp = reload_plain-keeps lib commands resp
        at_runs false commands resp = stamped-keeps lib commands resp
