-- ===== src/Session/System.antt =====
-- The coordinator as a whole: requests, goroutines of `run`, synchronisations of the workspace and
-- restarts, in any order. `w.mu` makes each operation one step; the mutation lock spans several.
pub mod Order
pub mod Records
use provider_infrastructure.Prelude.{ℕ, ◌≡◌, Bool, true, false, List, [], ◌∷◌, Option, none, some}
use provider_infrastructure.Text.{Text}
use provider_infrastructure.Command.{ExecResponse}
use provider_infrastructure.Session.Disk.{Env}
use provider_infrastructure.Session.Coordinator.{
  Coordinator, Thread, Lock, free, held_by, held_by_sync, waiting, executing,
}
use provider_infrastructure.Session.Requests.{HttpRequest, serve}
use provider_infrastructure.Session.Run.{RunError, begin_run, end_run, restart}

-- A goroutine among those of the coordinator.
pub data IsThread (t : Thread) : List Thread → Type 0 where
  first : {ts : List Thread} → IsThread t (t ∷ ts)
  later : {u : Thread} {ts : List Thread} → IsThread t ts → IsThread t (u ∷ ts)

module _ (token : Text) where
  -- One step, from `w` to `w'`; a process that exited takes none but a restart.
  pub data Step (w w' : Coordinator) : Type 0 where
    request :
        (env : Env) (r : HttpRequest) → w.exited ≡ false → w' ≡ (serve token env r w).1 → Step w w'
    begin :
        (env : Env) (t : Thread)
        → w.exited ≡ false
        → IsThread t w.threads
        → t.stage ≡ waiting
        → w.lock ≡ free
        → w' ≡ begin_run env t w
        → Step w w'
    end :
        (env : Env) (t : Thread) (response : ExecResponse) (error : Option RunError)
        → w.exited ≡ false
        → IsThread t w.threads
        → t.stage ≡ executing
        → w' ≡ end_run env t response error w
        → Step w w'
    sync_begin :
        w.exited ≡ false → w.lock ≡ free → w' ≡ record w { lock = held_by_sync } → Step w w'
    sync_end : w.exited ≡ false → w.lock ≡ held_by_sync → w' ≡ record w { lock = free } → Step w w'
    restarted : (env : Env) → w' ≡ restart env w → Step w w'

  pub data Reach (w : Coordinator) : Coordinator → Type 0 where
    here : Reach w w
    next : {u v : Coordinator} → Reach w u → Step u v → Reach w v

-- A coordinator before its first request, over the directory of earlier processes.
abbrev pub IsInitial : Coordinator → Type 0
IsInitial w =
    (w.active ≡ []) × (w.threads ≡ []) × (w.lock ≡ free) × (w.next_id ≡ 0) × (w.dispatched ≡ [])
