-- ===== src/ExecRun.antt =====
-- A synchronous command of the data plane (dataplane/exec_run.go): it starts a session and polls it
-- until it is finished or the time to wait is over; with the limits of dataplane/exec.go and
-- dataplane/persistent_executor.go. Times are nanoseconds.
pub mod Waiting
pub mod Output
pub mod Call
use provider_infrastructure.Prelude.{
  ℕ, zero, suc, ◌+◌, ◌-◌, ◌*◌, Bool, true, false, not, ◌&&◌, ◌||◌, Option, none, some, leb, min,
  if◌then◌else◌, ℤ, pos, negsuc, is_negative, is_nonpositive, exceeds,
}
use provider_infrastructure.Text.{Text, is_empty}
use provider_infrastructure.Session.{State, succeeded, failed, canceled, timed_out}

-- `ExecResult` of the data plane, less the fields that are only passed on.
pub record RunResult : Type 0 where
  pub session_id : Text
  pub state : State

-- `TemplateDataPlaneExec`; its fields are of int32.
pub record Capability : Type 0 where
  pub max_timeout_seconds : ℤ
  pub max_output_bytes : ℤ

-- `execLimits`
pub record Limits : Type 0 where
  pub timeout_seconds : ℕ
  pub output_bytes : ℕ

abbrev pub default_limits : Limits
default_limits = record { timeout_seconds = 120; output_bytes = 262_144 }

abbrev pub or_default : ℤ → ℕ → ℕ
or_default (pos zero) d = d
or_default (pos (suc n)) d = suc n
or_default (negsuc n) d = d

-- `limitsForCapability`: the limits, and whether it returned no error.
unfoldable pub limits_for_capability : Option Capability → Limits × Bool
limits_for_capability none = (default_limits, false)
limits_for_capability (some c) =
    if exceeds c.max_timeout_seconds 120 || is_negative c.max_timeout_seconds
    then (default_limits, false)
    else if exceeds c.max_output_bytes 262_144 || is_negative c.max_output_bytes
    then (default_limits, false)
    else (
      record {
        timeout_seconds = or_default c.max_timeout_seconds 120;
        output_bytes = or_default c.max_output_bytes 262_144;
      },
      true,
    )

-- `execTimeoutSeconds`, of the timeout in the request.
unfoldable pub exec_timeout_seconds : ℤ → Option Capability → ℕ
unfolding limits_for_capability
exec_timeout_seconds requested capability =
    or_default requested ((limits_for_capability capability).0).timeout_seconds

-- `execTerminalState`
abbrev pub exec_terminal_state : State → Bool
exec_terminal_state succeeded = true
exec_terminal_state failed = true
exec_terminal_state canceled = true
exec_terminal_state timed_out = true
exec_terminal_state _ = false

abbrev pub poll_initial : ℕ
poll_initial = 250_000_000

abbrev pub poll_max : ℕ
poll_max = 1_000_000_000

-- `execRunWaitBudget`
unfoldable pub wait_budget : ℕ → ℕ
wait_budget seconds = min (seconds * 1_000_000_000 + 10_000_000_000) 90_000_000_000

-- What a run meets, by rounds of its loop: how much later than its timer the next look at the clock
-- is, whether the caller went away during the wait, and the answer to the poll.
pub record World : Type 0 where
  pub lag : ℕ → ℕ
  pub gone : ℕ → Bool
  pub poll : ℕ → Option RunResult

-- The end of a run: the time, and the result, or none for an error.
pub record RunEnd : Type 0 where
  pub at : ℕ
  pub result : Option RunResult

-- `if polled.SessionID == "" { polled.SessionID = sessionID }`
abbrev pub name_session : Text → RunResult → RunResult
name_session session_id r =
    if is_empty r.session_id then record r { session_id = session_id } else r

-- A round ends the run, or goes on with the result of the poll.
pub data Round : Type 0 where
  stop : RunEnd → Round
  go_on : RunResult → Round

abbrev pub after_poll : Text → ℕ → Option RunResult → Round
after_poll session_id later none = stop (record { at = later; result = none })
after_poll session_id later (some polled) =
    if exec_terminal_state polled.state
    then stop (record { at = later; result = some (name_session session_id polled) })
    else go_on (name_session session_id polled)

-- A round from a look at the clock, `now`, to the next one, `later`.
unfoldable pub run_round : World → Text → ℕ → ℕ → ℕ → ℕ → RunResult → Round
run_round world session_id deadline round now later result =
    if leb deadline now
    then stop (record { at = now; result = some result })
    else if world.gone round
    then stop (record { at = later; result = none })
    else after_poll session_id later (world.poll round)

-- The next look at the clock: after the timer, which waits for the delay or until the deadline.
abbrev pub next_look : World → ℕ → ℕ → ℕ → ℕ → ℕ
next_look world deadline round now delay = now + min delay (deadline - now) + world.lag round

-- The loop of `runExec`; none where the fuel runs out.
unfoldable pub run_loop : World → Text → ℕ → ℕ → ℕ → ℕ → ℕ → RunResult → Option RunEnd
run_loop world session_id deadline zero round now delay result = none
run_loop world session_id deadline (suc fuel) round now delay result =
    elim (run_round world session_id deadline round now (next_look world deadline round now delay)
      result) [
        | stop ending ↦ some ending
        | go_on r ↦
            run_loop world session_id deadline fuel (suc round)
              (next_look world deadline round now delay) (min (2 * delay) poll_max) r
      ]

-- Rounds that are enough for the longest wait.
abbrev pub max_rounds : ℕ
max_rounds = 361

-- `runExec` from the answer to the start on, at the time `now`.
unfoldable pub run_exec : World → ℤ → Option Capability → ℕ → Option RunResult → Option RunEnd
unfolding run_loop wait_budget exec_timeout_seconds
run_exec world requested capability now none = some (record { at = now; result = none })
run_exec world requested capability now (some started) =
    if exec_terminal_state started.state || is_empty started.session_id
    then some (record { at = now; result = some started })
    else run_loop world started.session_id
        (now + wait_budget (exec_timeout_seconds requested capability)) max_rounds 0 now
        poll_initial started
