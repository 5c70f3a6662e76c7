-- ===== src/Workspace/Contract.antt =====
-- What `/sync` promises of its replies and of the files it does not name (`handleSync` of
-- dev-agent/main.go).
use provider_infrastructure.Prelude.{
  ◌≡◌, refl, Bool, true, false, List, Option, none, some, if◌then◌else◌,
}
use mathlib.Core.Path.{subst}
use mathlib.Core.Option.{some-injective}
use provider_infrastructure.Workspace.{Workspace}
use provider_infrastructure.Workspace.Bundle.{DecodedFile}
use provider_infrastructure.Workspace.Manifests.{read_manifest}
use provider_infrastructure.Workspace.Step.{
  Reply, Outcome, done, stopped, Ends, Triple, triple-bind, triple-map,
}
use provider_infrastructure.Workspace.Sync.{
  Request, Config, Libraries, Machine, Runtime, SyncRequest, Plan, is_authoritative, admit_sync,
  preflight,
}
use provider_infrastructure.Workspace.Served.{
  sync_bundle, sync_plain, sync_steps, handle_sync, reply_of,
}
use provider_infrastructure.Workspace.Preflight.{
  Same, Untouched, IsCurrent, IsAdmitted, IsPrepared, at-once, admit_sync-ends, preflight-ends,
}
use provider_infrastructure.Workspace.Handler.{NoMore}

-- There is a reply, and `R` holds of it and of the workspace.
abbrev pub Replied : (Reply → Workspace → Type 0) → Workspace × Option Reply → Type 0
Replied R (w, none) = ⊥
Replied R (w, some r) = R r w

pub Replied-reply_of :
    {A : Type 0} (R : Reply → Workspace → Type 0) (o : Workspace × Outcome A)
    → Ends NoMore R o
    → Replied R (o.0, reply_of o.1)
Replied-reply_of R (w, done a) e = absurd e
Replied-reply_of R (w, stopped r) e = e

-- `R` holds of the reply there is.
pub Replied-some :
    (R : Reply → Workspace → Type 0) (o : Workspace × Option Reply) {reply : Reply}
    → Replied R o
    → o.1 ≡ some reply
    → R reply o.0
Replied-some R (w, none) replied is = absurd replied
Replied-some R (w, some r) replied is = subst (λ r. R r w) (some-injective _ _ is) replied

pub some-Replied :
    (R : Reply → Workspace → Type 0) (o : Workspace × Option Reply)
    → Replied R o
    → (reply : Reply) × (o.1 ≡ some reply)
some-Replied R (w, none) replied = absurd replied
some-Replied R (w, some r) replied = (r, refl)

module _ (lib : Libraries) (machine : Machine) (r : Request) (w₀ : Workspace) where
  -- A request that is admitted names the revision of a manifest that is current.
  abbrev pub IsRepeated : Type 0
  IsRepeated =
      (req : SyncRequest) × (files : List DecodedFile) × IsAdmitted w₀ lib r (req, files)
      × IsCurrent lib machine w₀ (read_manifest w₀.manifest) req.source_revision

module _ (lib : Libraries) (machine : Machine) (config : Config) (runtime : Runtime) (r : Request)
    (w₀ : Workspace) (R : Reply → Workspace → Type 0) where
  -- The handler replies, and `R` holds of the reply if it holds where the request is refused or
  -- repeated, and where either kind of synchronisation ends.
  pub handle_sync-ends :
      ((reply : Reply) (w : Workspace)
        → Untouched w₀ (IsRepeated lib machine r w₀) reply w
        → R reply w)
      → ((req : SyncRequest) (files : List DecodedFile) (plan : Plan)
          → IsAdmitted w₀ lib r (req, files)
          → IsPrepared w₀ lib req files plan
          → is_authoritative req ≡ true
          → Triple (Same w₀) (sync_bundle lib machine config runtime plan) NoMore R)
      → ((req : SyncRequest) (files : List DecodedFile) (plan : Plan)
          → IsAdmitted w₀ lib r (req, files)
          → IsPrepared w₀ lib req files plan
          → is_authoritative req ≡ false
          → Triple (Same w₀) (sync_plain lib machine config runtime plan) NoMore R)
      → Replied R (handle_sync lib machine config runtime r w₀)
  unfolding handle_sync sync_steps
  handle_sync-ends early bundle plain =
      Replied-reply_of R (sync_steps lib machine config runtime r w₀) (steps w₀ refl)
    where
      choose :
          (test : Bool) (req : SyncRequest) (files : List DecodedFile) (plan : Plan)
          → is_authoritative req ≡ test
          → IsAdmitted w₀ lib r (req, files)
          → IsPrepared w₀ lib req files plan
          → Triple
              (Same w₀)
              (if test
                then sync_bundle lib machine config runtime plan
                else sync_plain lib machine config runtime plan)
              NoMore
              R
      choose true req files plan is admitted prepared = bundle req files plan admitted prepared is
      choose false req files plan is admitted prepared = plain req files plan admitted prepared is

      steps : Triple (Same w₀) (sync_steps lib machine config runtime r) NoMore R
      steps =
          triple-bind R (Same w₀) (λ a w. IsAdmitted w₀ lib r a × Same w₀ w) NoMore _ _
            (triple-map (Same w₀) (Same w₀) (λ a w. IsAdmitted w₀ lib r a × Same w₀ w)
              (λ a w. IsAdmitted w₀ lib r a × Same w₀ w)
              (Untouched w₀ (IsRepeated lib machine r w₀)) R (admit_sync lib config r)
              (λ w same. same) (λ _ w q. q) early
              (admit_sync-ends w₀ (IsRepeated lib machine r w₀) lib config r))
            (λ a w admitted.
              triple-bind R (Same w₀) (λ plan w. IsPrepared w₀ lib a.0 a.1 plan × Same w₀ w) NoMore
                _ _
                (triple-map (Same w₀) (Same w₀)
                  (λ plan w. IsPrepared w₀ lib a.0 a.1 plan × Same w₀ w)
                  (λ plan w. IsPrepared w₀ lib a.0 a.1 plan × Same w₀ w)
                  (Untouched w₀
                    (IsCurrent lib machine w₀ (read_manifest w₀.manifest) a.0.source_revision))
                  R (preflight lib machine a.0 a.1) (λ w same. same) (λ _ w q. q)
                  (λ reply w untouched. early reply w (
                    at-once w₀
                      (IsCurrent lib machine w₀ (read_manifest w₀.manifest) a.0.source_revision)
                      (IsRepeated lib machine r w₀) (λ current. (a.0, a.1, admitted.0, current))
                      reply w untouched))
                  (preflight-ends w₀ lib machine a.0 a.1))
                (λ plan w prepared.
                  choose (is_authoritative a.0) a.0 a.1 plan refl admitted.0 prepared.0 w
                    prepared.1)
                w admitted.1)
