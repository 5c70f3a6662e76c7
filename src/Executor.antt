-- ===== src/Executor.antt =====
-- The server of the executor (`statelessExecutor` of dev-agent/exec_server.go): it runs one command
-- at a time, and after a cleanup that is not proven it runs none and exits.
pub mod FailStop
use provider_infrastructure.Prelude.{
  ℕ, suc, Bool, true, false, not, ◌||◌, List, [], ◌∷◌, Option, none, some, if◌then◌else◌,
}
use provider_infrastructure.Text.{Text, codes, text_eq, cut_prefix}
use provider_infrastructure.Command.{ExecRequest, ExecResponse}

-- `statelessExecutor`: its fail-stop state, the calls of `exit` that it started, and, which the
-- code does not keep, the commands that it executed.
pub record Server : Type 0 where
  pub failed : Bool
  pub exits : ℕ
  pub commands : ℕ

-- An error of `execute`: its text, and whether it is `errExecCleanupUnproven`.
pub record ExecError : Type 0 where
  pub message : Text
  pub is_cleanup : Bool

pub data Answer : Type 0 where
  completed : ExecResponse → Answer
  broken : ExecError → Answer

-- A request as the server sees it; `body` is `none` where the decoder refuses it, and `single`
-- tells that nothing follows the object.
pub record Arrival : Type 0 where
  pub path : Text
  pub method : Text
  pub body : Option ExecRequest
  pub single : Bool

abbrev pub starts_with : Text → Text → Bool
starts_with s p = elim (cut_prefix s p) [ none ↦ false | some _ ↦ true ]

-- strings.Contains
unfoldable pub contains : Text → Text → Bool
contains [] p = starts_with [] p
contains (c ∷ s) p = starts_with (c ∷ s) p || contains s p

-- The status of an error.
unfoldable pub error_status : ExecError → ℕ
unfolding contains
error_status e =
    if e.is_cleanup
    then 500
    else if contains e.message (codes "source revision")
        || contains e.message (codes "source digest")
        || contains e.message (codes "workspace manifest")
    then 409
    else 400

-- `failStop`
unfoldable pub fail_stop : Server → Server
fail_stop w = if w.failed then w else record w { failed = true; exits = suc w.exits }

abbrev pub answer_status : Answer → ℕ
answer_status (completed response) = 200
answer_status (broken e) = error_status e

abbrev pub after_answer : Answer → Server → Server
after_answer (completed response) w = w
after_answer (broken e) w = if e.is_cleanup then fail_stop w else w

abbrev pub count_command : Server → Server
count_command w = record w { commands = suc w.commands }

-- `ServeHTTP` from taking the lock on: the status and the server, where `execute` gives the answer.
unfoldable pub run_locked : Answer → Server → ℕ × Server
unfolding error_status fail_stop
run_locked answer w =
    if w.failed then (503, w) else (answer_status answer, after_answer answer (count_command w))

abbrev body_status : Bool → Option ExecRequest → Option ℕ
body_status single none = some 400
body_status single (some req) = if single then none else some 400

-- `ServeHTTP` up to the lock: the status of a refusal, or none where the request goes on.
unfoldable pub arrive : Arrival → Server → Option ℕ
arrive r w =
    if not (text_eq r.path (codes "/internal/exec"))
    then some 404
    else if not (text_eq r.method (codes "POST"))
    then some 405
    else if w.failed
    then some 503
    else body_status r.single r.body

-- The requests that passed the first part, in the order in which they take the lock.
unfoldable pub run_all : List Answer → Server → List ℕ × Server
unfolding run_locked
run_all [] w = ([], w)
run_all (answer ∷ answers) w =
    let (status, w') = run_locked answer w in
    let (statuses, w'') = run_all answers w' in (status ∷ statuses, w'')
