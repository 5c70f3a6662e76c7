-- ===== src/Session/System/Records.antt =====
-- What holds of the record directory along every run of the coordinator.
use mathlib.Core.Path.{subst}
use provider_infrastructure.Prelude.{◌≡◌, refl, sym, ap, ◌⊎◌, inl, inr, some}
use provider_infrastructure.Text.{Text}
use provider_infrastructure.Session.{SessionRecord, Dir}
use provider_infrastructure.Session.Disk.{ok, Env, read_record}
use provider_infrastructure.Session.Disk.WellFormed.{IsWellFormed}
use provider_infrastructure.Session.Coordinator.{Coordinator}
use provider_infrastructure.Session.System.{
  Step, request, begin, end, sync_begin, sync_end, restarted, Reach, here, next,
}
use provider_infrastructure.Session.Changes.{Changes, Swept, Changes-IsWellFormed}
use provider_infrastructure.Session.Changes.Operations.{serve-Changes}
use provider_infrastructure.Session.Changes.Runs.{
  begin_run-Changes, end_run-Changes, restart-Changes,
}

along :
    {w v : Coordinator} {env : Env} {dir : Dir}
    → v ≡ w
    → Changes env dir w.dir
    → Changes env dir v.dir
along {env = env} {dir = dir} e c = subst (λ (u : Coordinator). Changes env dir u.dir) (sym e) c

module _ (token : Text) where
  -- The step reads this time; a synchronisation reads none.
  abbrev pub HasTime : {w v : Coordinator} → Step token w v → Env → Type 0
  HasTime (request env r live e) time = time ≡ env
  HasTime (begin env t live m stage lock e) time = time ≡ env
  HasTime (end env t response error live m stage e) time = time ≡ env
  HasTime (sync_begin live lock e) time = ⊥
  HasTime (sync_end live lock e) time = ⊥
  HasTime (restarted env e) time = time ≡ env

  -- A step leaves the directory or changes it at its time.
  abbrev Changed : {w v : Coordinator} → Step token w v → Type 0
  Changed {w} {v} st = (v.dir ≡ w.dir) ⊎ ((env : Env) × HasTime st env × Changes env w.dir v.dir)

  Step-Changed : {w v : Coordinator} (st : Step token w v) → IsWellFormed w.dir → Changed st
  Step-Changed {w} (request env r live e) h =
      inr (env, refl, along e (serve-Changes token env r w h))
  Step-Changed {w} (begin env t live m stage lock e) h =
      inr (env, refl, along e (begin_run-Changes env t w h))
  Step-Changed {w} (end env t response error live m stage e) h =
      inr (env, refl, along e (end_run-Changes env t response error w h))
  Step-Changed (sync_begin live lock e) h = inl (ap (λ (u : Coordinator). u.dir) e)
  Step-Changed (sync_end live lock e) h = inl (ap (λ (u : Coordinator). u.dir) e)
  Step-Changed {w} (restarted env e) h = inr (env, refl, along e (restart-Changes env w h))

  Step-IsWellFormed : {w v : Coordinator} → Step token w v → IsWellFormed w.dir → IsWellFormed v.dir
  Step-IsWellFormed st h = elim (Step-Changed st h) [
    | inl same ↦ subst IsWellFormed (sym same) h
    | inr (env, _, changes) ↦ Changes-IsWellFormed changes h
  ]

  -- Along every run from a well-formed directory the directory is well formed: no name occurs
  -- twice, and a session's file holds a record of that session.
  pub Reach-IsWellFormed :
      {w v : Coordinator} → Reach token w v → IsWellFormed w.dir → IsWellFormed v.dir
  Reach-IsWellFormed here h = h
  Reach-IsWellFormed (next rs st) h = Step-IsWellFormed st (Reach-IsWellFormed rs h)

  -- In a step of the run, from a coordinator that has the record, a sweep takes it away when it is
  -- expired, at the time that the step reads.
  pub record WasSwept (w : Coordinator) (session_id : Text) (r : SessionRecord) : Type 0 where
    pub before : Coordinator
    pub behind : Coordinator
    pub reached : Reach token w before
    pub recorded : read_record session_id before.dir ≡ ok (some r)
    pub step : Step token before behind
    pub time : Env
    pub at_time : HasTime step time
    pub sweep : Swept time before.dir behind.dir session_id r
