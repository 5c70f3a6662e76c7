-- ===== src/Session/Retry.antt =====
-- A repeated start (dev-agent/exec_worker.go) does not run a command again.
use mathlib.Core.Path.{subst}
use provider_infrastructure.Prelude.{◌≤◌, ◌+◌, ◌≡◌, refl, sym, length, some}
use provider_infrastructure.Session.{ExecResult, SessionRecord, WorkerRequest}
use provider_infrastructure.Session.Disk.{Result, ok, Env, capacity, retention, read_record}
use provider_infrastructure.Session.Disk.WellFormed.{IsWellFormed}
use provider_infrastructure.Session.Disk.Sweep.{gc-fresh}
use provider_infrastructure.Session.Coordinator.{Coordinator}
use provider_infrastructure.Session.Requests.{start_session}
use provider_infrastructure.Session.Start.{
  invalid, refused, replayed, launched, start_session-outcome,
}

-- The goroutines and the numbers are those of another state.
abbrev pub HasSameRuns : Coordinator → Coordinator → Type 0
HasSameRuns v w = (v.threads ≡ w.threads) × (v.next_id ≡ w.next_id) × (v.active ≡ w.active)

at_end :
    {out out' : Result ExecResult × Coordinator} (w : Coordinator)
    → out ≡ out'
    → HasSameRuns out'.1 w
    → HasSameRuns out.1 w
at_end w e h = subst (λ (o : Result ExecResult × Coordinator). HasSameRuns o.1 w) (sym e) h

-- In a well-formed directory within the capacity, a start of a session whose record was updated
-- within the retention launches nothing.
pub start_session-no_rerun :
    (env : Env) (req : WorkerRequest) (w : Coordinator) (r : SessionRecord)
    → IsWellFormed w.dir
    → length w.dir ≤ capacity
    → read_record req.session_id w.dir ≡ ok (some r)
    → env.now ≤ r.updated_at + retention
    → HasSameRuns (start_session env req w).1 w
start_session-no_rerun env req w r formed small stored fresh =
    elim (start_session-outcome env req w) [
      | invalid p ↦ at_end w p (refl, refl, refl)
      | refused e dir l p ↦ at_end w p (refl, refl, refl)
      | replayed session_id s kept a p ↦ at_end w p (refl, refl, refl)
      | launched dir new_request new_session room e kept p ↦
          cc (new_session, gc-fresh env req.session_id w.dir r formed small stored fresh)
    ]
