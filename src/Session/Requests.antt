-- ===== src/Session/Requests.antt =====
-- The requests to the coordinator (dev-agent/exec_worker.go): `start`, `poll`, `cancel`, and
-- `ServeHTTP`, which checks a request and runs one of them.
use provider_infrastructure.Prelude.{
  ℕ, suc, Bool, true, false, not, ◌&&◌, ◌||◌, List, [], ◌∷◌, Option, none, some, leb, ◌==◌,
  if◌then◌else◌, map,
}
use provider_infrastructure.Text.{
  Text, codes, text_eq, is_empty, trim_space, byte_len, only_lower_hex,
}
use provider_infrastructure.Command.{Invalid, validate_request}
use provider_infrastructure.Session.{
  queued, canceled, worker_terminal, ExecResult, SessionRecord, Action, start, poll, cancel,
  unknown, WorkerRequest, Dir,
}
use provider_infrastructure.Session.Disk.{
  http, Result, ok, err, Env, request_scan, count_scan, capacity, read_dir, read_record,
  count_files, find_by_request,
}
use provider_infrastructure.Session.Coordinator.{
  waiting, Thread, Coordinator, M, ◌>>=◌, ◌>>◌, give, fail, guard, on_dir, persist, collect_garbage,
}

-- The record that `start` writes.
abbrev pub queued_record : Env → WorkerRequest → SessionRecord
queued_record env req = record {
  session_id = req.session_id;
  request_id = req.request_id;
  caller_key = req.caller_key;
  fingerprint = req.fingerprint;
  result = record {
    session_id = req.session_id;
    request_id = req.request_id;
    state = queued;
    exit_code = none;
    stdout = [];
    stderr = [];
    truncated = false;
  };
  created_at = env.now;
  updated_at = env.now;
}

-- `w.active[req.SessionID] = cancel; go w.run(runCtx, req)`
unfoldable pub launch : WorkerRequest → M (Unit {0})
launch req w = (
  ok tt,
  record w {
    active = (req.session_id, w.next_id) ∷ w.active;
    threads =
        record { id = w.next_id; request = req; canceled = false; stage = waiting } ∷ w.threads;
    next_id = suc w.next_id;
  },
)

-- `recordCount`
abbrev pub record_count : Result Dir → Result ℕ
record_count (ok es) = ok (count_files es)
record_count (err e) = err e

-- The end of `start`, for a session that the directory does not know yet.
unfoldable pub admit : Env → WorkerRequest → M ExecResult
unfolding persist launch
admit env req = do
  count ← on_dir (λ dir. record_count (read_dir env count_scan dir))
  guard (not (leb capacity count)) (http 503)
  persist env (queued_record env req)
  launch req
  give (queued_record env req).result

-- `findByRequest`
abbrev pub find : Env → WorkerRequest → Dir → Result (Option SessionRecord)
find env req dir = elim (read_dir env request_scan dir) [
  | ok es ↦ find_by_request req.caller_key req.request_id dir es
  | err e ↦ err e
]

-- The answer of `start` at a record of the same session.
abbrev pub same_session : WorkerRequest → SessionRecord → M ExecResult
same_session req r =
    if not (text_eq r.caller_key req.caller_key)
    then fail (http 403)
    else if not (text_eq r.request_id req.request_id) || not (text_eq r.fingerprint req.fingerprint)
    then fail (http 409)
    else give r.result

-- The answer of `start` at a record of the same caller and request.
abbrev pub same_request : WorkerRequest → SessionRecord → M ExecResult
same_request req r =
    if not (text_eq r.fingerprint req.fingerprint) then fail (http 409) else give r.result

abbrev pub by_session : Env → WorkerRequest → Option SessionRecord → M ExecResult
by_session env req none = admit env req
by_session env req (some r) = same_session req r

abbrev pub by_request : Env → WorkerRequest → Option SessionRecord → M ExecResult
by_request env req none = do
  existing ← on_dir (read_record req.session_id)
  by_session env req existing
by_request env req (some r) = same_request req r

abbrev pub is_valid : Option Invalid → Bool
is_valid none = true
is_valid (some e) = false

unfoldable pub start_session : Env → WorkerRequest → M ExecResult
unfolding admit collect_garbage
start_session env req = do
  guard (is_valid (validate_request req.exec)) (http 400)
  collect_garbage env
  found ← on_dir (find env req)
  by_request env req found

-- `boundRecord`
abbrev pub bound : WorkerRequest → Option SessionRecord → Result SessionRecord
bound req none = err (http 404)
bound req (some r) =
    if not (text_eq r.caller_key req.caller_key)
    then err (http 403)
    else if not (is_empty req.request_id) && not (text_eq r.request_id req.request_id)
    then err (http 403)
    else ok r

unfoldable pub bound_record : WorkerRequest → M SessionRecord
bound_record req = do found ← on_dir (read_record req.session_id); on_dir (λ _. bound req found)

unfoldable pub poll_session : WorkerRequest → M ExecResult
unfolding bound_record
poll_session req = do r ← bound_record req; give r.result

-- The goroutine that `w.active` keeps for a session.
unfoldable pub active_thread : Text → List (Text × ℕ) → Option ℕ
active_thread session_id [] = none
active_thread session_id ((key, id) ∷ active) =
    if text_eq key session_id then some id else active_thread session_id active

abbrev pub cancel_thread : ℕ → Thread → Thread
cancel_thread id t = if t.id == id then record t { canceled = true } else t

abbrev pub cancel_context : Option ℕ → Coordinator → Coordinator
cancel_context none w = w
cancel_context (some id) w = record w { threads = map (cancel_thread id) w.threads }

-- `if cancel := w.active[req.SessionID]; cancel != nil { cancel() }`
unfoldable pub call_cancel : Text → M (Unit {0})
unfolding active_thread
call_cancel session_id w = (ok tt, cancel_context (active_thread session_id w.active) w)

abbrev pub canceled_record : Env → SessionRecord → SessionRecord
canceled_record env r =
    let result = r.result in
    record r { result = record result { state = canceled }; updated_at = env.now }

unfoldable pub cancel_session : Env → WorkerRequest → M ExecResult
unfolding bound_record call_cancel persist
cancel_session env req = do
  r ← bound_record req
  if worker_terminal r.result.state then give r.result else (do
    call_cancel req.session_id
    persist env (canceled_record env r)
    give (canceled_record env r).result)

abbrev is_start_identity : Action → WorkerRequest → Bool
is_start_identity start req =
    not (is_empty (trim_space req.request_id))
    && byte_len req.fingerprint == 64
    && only_lower_hex req.fingerprint
is_start_identity _ req = true

-- `validateWorkerIdentity`
unfoldable pub validate_worker_identity : WorkerRequest → Bool
validate_worker_identity req =
    byte_len req.session_id == 32
    && only_lower_hex req.session_id
    && not (is_empty (trim_space req.caller_key))
    && leb (byte_len req.caller_key) 128
    && leb (byte_len req.request_id) 128
    && is_start_identity req.action req

-- A request to `/exec` as the server sees it; `body` is `none` where the decoder refuses it, and
-- `single` tells that nothing follows the object.
pub record HttpRequest : Type 0 where
  pub path : Text
  pub method : Text
  pub control_token : Text
  pub body : Option WorkerRequest
  pub single : Bool

unfoldable pub perform : Env → Action → WorkerRequest → M ExecResult
unfolding start_session poll_session cancel_session
perform env start req = start_session env req
perform env poll req = poll_session req
perform env cancel req = cancel_session env req
perform env (unknown _) req = fail (http 400)

abbrev serve_body : Env → Bool → Option WorkerRequest → M ExecResult
serve_body env single none = fail (http 400)
serve_body env single (some req) = do
  guard single (http 400)
  guard (validate_worker_identity req) (http 400)
  perform env req.action req

-- `ServeHTTP` of the coordinator, whose control token is `token`.
unfoldable pub serve : Text → Env → HttpRequest → M ExecResult
unfolding perform validate_worker_identity
serve token env r = do
  guard (text_eq r.path (codes "/exec")) (http 404)
  guard (text_eq r.method (codes "POST")) (http 405)
  guard (text_eq r.control_token token) (http 401)
  serve_body env r.single r.body
