-- ===== src/Session/Run.antt =====
-- The goroutine of a started command and the recovery of a restarted coordinator
-- (dev-agent/exec_worker.go). `run` is cut where it waits: `begin_run` is the part up to the call of
-- the executor, `end_run` the part after it; the executor's answer is an argument.
use provider_infrastructure.Prelude.{
  ℕ, Bool, true, false, not, ◌||◌, List, [], ◌∷◌, Option, none, some, ◌==◌, if◌then◌else◌, ℤ, pos,
  to_int32,
}
use provider_infrastructure.Text.{Text, codes, text_eq}
use provider_infrastructure.Command.{ExecResponse}
use provider_infrastructure.Session.{
  State, running, succeeded, failed, timed_out, canceled, worker_terminal, ExecResult,
  SessionRecord, Entry, Dir, session_file,
}
use provider_infrastructure.Session.Disk.{
  Result, ok, err, Env, recovery_scan, read_record, write_record, gc,
}
use provider_infrastructure.Session.Coordinator.{executing, Thread, free, held_by, Coordinator}

-- The error of the executor: its text, and whether it is a cancelled context.
pub record RunError : Type 0 where
  pub message : Text
  pub is_canceled : Bool

-- `ctx.Err()` of a cancelled context.
abbrev pub context_canceled : RunError
context_canceled = record { message = codes "context canceled"; is_canceled = true }

abbrev pub exit : Coordinator → Coordinator
exit w = record w { exited = true }

delete : Text → List (Text × ℕ) → List (Text × ℕ)
delete session_id [] = []
delete session_id ((key, id) ∷ active) =
    let rest = delete session_id active in if text_eq key session_id then rest else (key, id) ∷ rest

-- `clearActive`, and `delete(w.active, sessionID)`
unfoldable pub clear_active : Text → Coordinator → Coordinator
unfolding delete
clear_active session_id w = record w { active = delete session_id w.active }

abbrev pub has_error : Option RunError → Bool
has_error none = false
has_error (some e) = true

abbrev is_canceled_error : Option RunError → Bool
is_canceled_error none = false
is_canceled_error (some e) = e.is_canceled

-- `if runErr != nil && result.Stderr == "" { result.Stderr = runErr.Error() }`
abbrev pub explain : Option RunError → Text → Text
explain none stderr = stderr
explain (some e) [] = e.message
explain (some e) (c ∷ stderr) = c ∷ stderr

abbrev is_zero : ℤ → Bool
is_zero (pos n) = n == 0
is_zero _ = false

-- The state that `workerResultFromExec` reports.
abbrev pub outcome_state : ExecResponse → Option RunError → State
outcome_state response error =
    if response.cancelled || is_canceled_error error
    then canceled
    else if response.timed_out
    then timed_out
    else if has_error error || not (is_zero response.exit_code)
    then failed
    else succeeded

-- `workerResultFromExec`
unfoldable pub worker_result_from_exec : ExecResponse → Option RunError → ExecResult
worker_result_from_exec response error = record {
  session_id = [];
  request_id = [];
  state = outcome_state response error;
  exit_code = some (to_int32 response.exit_code);
  stdout = response.stdout;
  stderr = explain error response.stderr;
  truncated = response.stdout_truncated || response.stderr_truncated;
}

-- The result that a goroutine records when its context was cancelled before it began.
abbrev pub canceled_result : ExecResult
canceled_result = record {
  session_id = [];
  request_id = [];
  state = canceled;
  exit_code = none;
  stdout = [];
  stderr = [];
  truncated = false;
}

-- The record that `finish` writes.
abbrev pub finished_record : Env → ExecResult → Option RunError → SessionRecord → SessionRecord
finished_record env result error r = record r {
  result = record result {
    session_id = r.session_id;
    request_id = r.request_id;
    stderr = explain error result.stderr;
  };
  updated_at = env.now;
}

abbrev pub exit_unless : Bool → Coordinator → Coordinator
exit_unless true w = w
exit_unless false w = exit w

-- `persistRecord` where a failure is fatal.
abbrev pub stored : Dir × Bool → Coordinator → Coordinator
stored (dir, done) w = exit_unless done (record w { dir = dir })

abbrev pub finish_at :
    Env
    → Text
    → ExecResult
    → Option RunError
    → Result (Option SessionRecord)
    → Coordinator
    → Coordinator
finish_at env session_id result error (err _) w = exit (clear_active session_id w)
finish_at env session_id result error (ok none) w = exit (clear_active session_id w)
finish_at env session_id result error (ok (some r)) w =
    if worker_terminal r.result.state
    then clear_active session_id w
    else stored (write_record env (finished_record env result error r) w.dir)
        (clear_active session_id w)

-- `finish`
unfoldable pub finish : Env → Text → ExecResult → Option RunError → Coordinator → Coordinator
unfolding clear_active
finish env session_id result error w =
    finish_at env session_id result error (read_record session_id w.dir) w

unfoldable pub without : ℕ → List Thread → List Thread
without id [] = []
without id (t ∷ ts) = let rest = without id ts in if t.id == id then rest else t ∷ rest

-- The goroutine ends, and the deferred call frees the mutation lock.
unfoldable pub leave : ℕ → Coordinator → Coordinator
unfolding without
leave id w = record w { threads = without id w.threads; lock = free }

abbrev pub running_record : Env → SessionRecord → SessionRecord
running_record env r =
    let result = r.result in
    record r { result = record result { state = running }; updated_at = env.now }

-- How `setRunning` ends.
pub data Marked : Type 0 where
  marked settled broken : Marked

abbrev pub mark_if : Bool → Marked
mark_if true = marked
mark_if false = broken

abbrev pub mark_written : Dir × Bool → Dir × Marked
mark_written (dir, done) = (dir, mark_if done)

abbrev pub mark_at : Env → Result (Option SessionRecord) → Dir → Dir × Marked
mark_at env (err _) dir = (dir, broken)
mark_at env (ok none) dir = (dir, broken)
mark_at env (ok (some r)) dir =
    if worker_terminal r.result.state
    then (dir, settled)
    else mark_written (write_record env (running_record env r) dir)

-- `setRunning`
unfoldable pub set_running : Env → Text → Dir → Dir × Marked
set_running env session_id dir = mark_at env (read_record session_id dir) dir

unfoldable pub start_executing : ℕ → List Thread → List Thread
start_executing id [] = []
start_executing id (t ∷ ts) =
    let rest = start_executing id ts in
    if t.id == id then record t { stage = executing } ∷ rest else t ∷ rest

-- The call of the executor begins; the mutation lock stays taken.
unfoldable pub dispatch : ℕ → Coordinator → Coordinator
unfolding start_executing
dispatch id w = record w {
  threads = start_executing id w.threads;
  lock = held_by id;
  dispatched = id ∷ w.dispatched;
}

abbrev pub begin_at : Thread → Dir × Marked → Coordinator → Coordinator
begin_at t (dir, broken) w = exit (clear_active t.request.session_id (record w { dir = dir }))
begin_at t (dir, settled) w =
    leave t.id (clear_active t.request.session_id (record w { dir = dir }))
begin_at t (dir, marked) w = dispatch t.id (record w { dir = dir })

-- `run`, from taking the free mutation lock to the call of the executor.
unfoldable pub begin_run : Env → Thread → Coordinator → Coordinator
unfolding finish leave set_running dispatch clear_active
begin_run env t w =
    if t.canceled
    then leave t.id (finish env t.request.session_id canceled_result (some context_canceled) w)
    else begin_at t (set_running env t.request.session_id w.dir) w

-- `run`, from the executor's answer to its end.
unfoldable pub end_run : Env → Thread → ExecResponse → Option RunError → Coordinator → Coordinator
unfolding finish leave worker_result_from_exec
end_run env t response error w =
    leave t.id (finish env t.request.session_id (worker_result_from_exec response error) error w)

-- The record that `recoverSessions` writes.
abbrev pub interrupted_record : Env → SessionRecord → SessionRecord
interrupted_record env r =
    let result = r.result in
    record r {
      result = record result {
        state = failed;
        stderr = codes "execution interrupted by coordinator restart; command was not redispatched";
      };
      updated_at = env.now;
    }

-- A round of `recoverSessions` at a session file: the directory, and whether there was no error.
abbrev pub recover_at : Env → Result (Option SessionRecord) → Dir → Dir × Bool
recover_at env (err _) dir = (dir, false)
recover_at env (ok none) dir = (dir, true)
recover_at env (ok (some r)) dir =
    if worker_terminal r.result.state
    then (dir, true)
    else write_record env (interrupted_record env r) dir

unfoldable pub recover_entry : Env → Entry → Dir → Dir × Bool
recover_entry env e dir = elim (session_file e) [
  | none ↦ (dir, true)
  | some session_id ↦ recover_at env (read_record session_id dir) dir
]

-- The loop of `recoverSessions` over the entries that were listed.
unfoldable pub recover_entries : Env → Dir → Dir → Dir × Bool
unfolding recover_entry
recover_entries env [] dir = (dir, true)
recover_entries env (e ∷ es) dir =
    let (dir', done) = recover_entry env e dir in
    let rest = recover_entries env es dir' in if done then rest else (dir', false)

-- `recoverSessions`
unfoldable pub recover_sessions : Env → Dir → Dir × Bool
unfolding recover_entries
recover_sessions env dir =
    let (dir', done) = recover_entries env dir dir in
    if env.listing_fails recovery_scan
    then (dir, false)
    else if done
    then gc env dir'
    else (dir', false)

-- `newExecCoordinator` on the directory that an earlier process left. Nothing of that process but
-- the directory survives; the numbers of the goroutines go on, and so does the log.
unfoldable pub restart : Env → Coordinator → Coordinator
unfolding recover_sessions
restart env w =
    let (dir, done) = recover_sessions env w.dir in
    record {
      dir = dir;
      active = [];
      threads = [];
      lock = free;
      next_id = w.next_id;
      dispatched = w.dispatched;
      exited = not done;
    }
