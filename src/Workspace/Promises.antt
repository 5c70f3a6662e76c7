-- ===== src/Workspace/Promises.antt =====
-- The replies of `/sync`, what it leaves alone, and the order of its revisions (`handleSync` of
-- dev-agent/main.go).
use provider_infrastructure.Prelude.{ℕ, ◌≡◌, true, false, some}
use provider_infrastructure.Workspace.{Workspace}
use provider_infrastructure.Workspace.Step.{Reply, refused, synced, mutated}
use provider_infrastructure.Workspace.Stages.Keeps.{is_early}
use provider_infrastructure.Workspace.Sync.{Request, Config, Libraries, Machine, Runtime}
use provider_infrastructure.Workspace.Served.{handle_sync}
use provider_infrastructure.Workspace.Preflight.{Untouched}
use provider_infrastructure.Workspace.Handler.{All-always, sync_bundle-keeps, sync_plain-keeps}
use provider_infrastructure.Workspace.Contract.{Replied, Replied-some, IsRepeated, handle_sync-ends}

-- A refusal with an early status leaves the workspace.
abbrev LeavesEarly : Workspace → Reply → Workspace → Type 0
LeavesEarly w₀ (refused code) w = is_early code ≡ true → w ≡ w₀
LeavesEarly w₀ (synced resp) w = Unit
LeavesEarly w₀ (mutated resp) w = Unit

Untouched-LeavesEarly :
    (w₀ : Workspace) (current : Type 0) (reply : Reply) (w : Workspace)
    → Untouched w₀ current reply w
    → LeavesEarly w₀ reply w
Untouched-LeavesEarly w₀ current (refused code) w (same, _) = λ _. same
Untouched-LeavesEarly w₀ current (synced resp) w untouched = tt
Untouched-LeavesEarly w₀ current (mutated resp) w untouched = tt

module _ (lib : Libraries) (machine : Machine) (config : Config) (runtime : Runtime) (r : Request)
    (w₀ : Workspace) where
  leaves_early : Replied (LeavesEarly w₀) (handle_sync lib machine config runtime r w₀)
  leaves_early =
      handle_sync-ends lib machine config runtime r w₀ (LeavesEarly w₀)
        (Untouched-LeavesEarly w₀ (IsRepeated lib machine r w₀))
        (λ req files plan _ _ _ w same.
          sync_bundle-keeps (λ _. Unit) (LeavesEarly w₀) late (λ _ _ _. tt) plan runtime
            (λ f. All-always _ plan.incoming (λ _ _ _. tt)) (λ _ _ _ _ _. tt) (λ _ _ _ _. tt)
            (λ _ _ _. tt) lib machine config w tt)
        (λ req files plan _ _ _ w same.
          sync_plain-keeps (λ _. Unit) (LeavesEarly w₀) late (λ _ _ _. tt) plan runtime machine
            (All-always _ plan.incoming (λ _ _ _. tt)) (λ _ _ _. tt) (λ _ _ _ _ _ _ _. tt)
            (λ _ _ _. tt) lib config w tt)
    where
      late :
          (code : ℕ) (w : Workspace)
          → is_early code ≡ false
          → Unit {0}
          → LeavesEarly w₀ (refused code) w
      late code w not_early _ early = absurd (cc)

  -- A request that is refused with a status below 409 or with 413 leaves the workspace.
  pub handle_sync-early :
      (code : ℕ)
      → (handle_sync lib machine config runtime r w₀).1 ≡ some (refused code)
      → is_early code ≡ true
      → (handle_sync lib machine config runtime r w₀).0 ≡ w₀
  handle_sync-early code replied early =
      Replied-some (LeavesEarly w₀) (handle_sync lib machine config runtime r w₀) leaves_early
        replied early
