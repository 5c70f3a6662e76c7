-- ===== src/Session/Owner.antt =====
-- Polling and cancelling (dev-agent/exec_worker.go): only a session's caller reaches its record.
use mathlib.Core.Path.{subst}
use provider_infrastructure.Prelude.{
  ◌≡◌, ◌≢◌, ◌⊎◌, inl, inr, true, false, Bool-cases, none, some, arith,
}
use provider_infrastructure.Text.{text_eq, is_empty}
use provider_infrastructure.Text.Laws.{text_eq_iff}
use provider_infrastructure.Session.{worker_terminal, ExecResult, SessionRecord, WorkerRequest}
use provider_infrastructure.Session.Disk.{Error, http, Result, ok, err, Env, read_record}
use provider_infrastructure.Session.Disk.Laws.{Result-cases}
use provider_infrastructure.Session.Coordinator.{Coordinator, ◌>>◌, give, persist}
use provider_infrastructure.Session.Requests.{
  bound, bound_record, poll_session, cancel_session, call_cancel, canceled_record,
}

-- The caller of a request owns a record, and the request does not name another request.
pub record Owns (req : WorkerRequest) (r : SessionRecord) : Type 0 where
  pub caller_key : r.caller_key ≡ req.caller_key
  pub request_id : (is_empty req.request_id ≡ true) ⊎ (r.request_id ≡ req.request_id)

pub data BoundOutcome (req : WorkerRequest) (w : Coordinator)
    (out : Result SessionRecord × Coordinator) : Type 0 where
  denied : (e : Error) → out ≡ (err e, w) → BoundOutcome req w out
  found :
      (r : SessionRecord)
      → read_record req.session_id w.dir ≡ ok (some r)
      → Owns req r
      → out ≡ (ok r, w)
      → BoundOutcome req w out

bound-outcome :
    (req : WorkerRequest) (w : Coordinator) (r : SessionRecord)
    → read_record req.session_id w.dir ≡ ok (some r)
    → BoundOutcome req w (bound req (some r), w)
bound-outcome req w r stored = elim (Bool-cases (text_eq r.caller_key req.caller_key)) [
  | inr other ↦ denied (http 403) (rw other)
  | inl caller ↦ elim (Bool-cases (is_empty req.request_id)) [
    | inl unnamed ↦
        found r stored
          (record { caller_key = (text_eq_iff _ _).0 caller; request_id = inl unnamed })
          (ground arith)
    | inr named ↦ elim (Bool-cases (text_eq r.request_id req.request_id)) [
      | inr other ↦ denied (http 403) (ground arith)
      | inl same ↦
          found r stored
            (record {
              caller_key = (text_eq_iff _ _).0 caller;
              request_id = inr ((text_eq_iff _ _).0 same);
            })
            (ground arith)
    ]
  ]
]

pub bound_record-outcome :
    (req : WorkerRequest) (w : Coordinator) → BoundOutcome req w (bound_record req w)
unfolding bound_record
bound_record-outcome req w = elim (Result-cases (read_record req.session_id w.dir)) [
  | inr (e, failed) ↦ denied e (ground arith)
  | inl (none, missing) ↦ denied (http 404) (ground arith)
  | inl (some r, stored) ↦ subst (BoundOutcome req w) (ground arith) (bound-outcome req w r stored)
]

-- A poll that succeeds gives the result on record for the session, whose caller is that of the
-- request and whose request is the one named, if any is.
pub poll_session-owner :
    (req : WorkerRequest) (w : Coordinator) (result : ExecResult)
    → (poll_session req w).0 ≡ ok result
    → (r : SessionRecord) × (read_record req.session_id w.dir ≡ ok (some r))
      × Owns req r
      × (r.result ≡ result)
unfolding poll_session
poll_session-owner req w result h = elim (bound_record-outcome req w) [
  | denied e p ↦ ground arith
  | found r stored owns p ↦ (r, stored, owns, ground arith)
]

pub poll_session-unchanged : (req : WorkerRequest) (w : Coordinator) → (poll_session req w).1 ≡ w
unfolding poll_session
poll_session-unchanged req w = ground (arith)

-- The ends of `cancel`: denied; the session is finished already; or its goroutine's context is
-- cancelled and its record is written as canceled, which may fail.
pub data CancelOutcome (env : Env) (req : WorkerRequest) (w : Coordinator)
    (out : Result ExecResult × Coordinator) : Type 0 where
  denied : (e : Error) → out ≡ (err e, w) → CancelOutcome env req w out
  finished :
      (r : SessionRecord)
      → read_record req.session_id w.dir ≡ ok (some r)
      → Owns req r
      → worker_terminal r.result.state ≡ true
      → out ≡ (ok r.result, w)
      → CancelOutcome env req w out
  canceled :
      (r : SessionRecord)
      → read_record req.session_id w.dir ≡ ok (some r)
      → Owns req r
      → worker_terminal r.result.state ≡ false
      → out
        ≡ (call_cancel req.session_id
              >> (persist env (canceled_record env r) >> give (canceled_record env r).result))
            w
      → CancelOutcome env req w out

-- A cancel is denied and changes nothing, gives the result of a session that finished before, or,
-- for a session of the caller that is not finished, cancels its goroutine's context and then writes
-- the canceled record.
pub cancel_session-outcome :
    (env : Env) (req : WorkerRequest) (w : Coordinator)
    → CancelOutcome env req w (cancel_session env req w)
unfolding cancel_session
cancel_session-outcome env req w = elim (bound_record-outcome req w) [
  | denied e p ↦ CancelOutcome.denied e (ground arith)
  | found r stored owns p ↦ elim (Bool-cases (worker_terminal r.result.state)) [
    | inl done ↦ finished r stored owns done (ground arith)
    | inr other ↦ canceled r stored owns other (ground arith)
  ]
]

-- A poll or a cancel of a session that is on record for another caller gets 403 and changes
-- nothing.
pub other_caller_denied :
    (env : Env) (req : WorkerRequest) (w : Coordinator) (r : SessionRecord)
    → read_record req.session_id w.dir ≡ ok (some r)
    → r.caller_key ≢ req.caller_key
    → (poll_session req w ≡ (err (http 403), w)) × (cancel_session env req w ≡ (err (http 403), w))
unfolding poll_session cancel_session
other_caller_denied env req w r stored other = (
  ground (arith, text_eq_iff r.caller_key req.caller_key),
  ground (arith, text_eq_iff r.caller_key req.caller_key),
)
