-- ===== src/Tests/ExecRuns.antt =====
-- A synchronous command whose session is finished at the second poll.
use provider_infrastructure.Prelude.{
  length, min, ltb, ◌||◌, ℕ, zero, suc, ◌+◌, ◌≤◌, ◌≡◌, ◌⊎◌, refl, true, false, Option, none, some,
  pos, [],
}
use provider_infrastructure.Text.{
  codes, trim_space, split, text_eq, join, trim_prefix, byte_len, hex_decodes,
}
use provider_infrastructure.Session.{running, succeeded}
use provider_infrastructure.ExecRun.{
  RunResult, World, RunEnd, exec_terminal_state, wait_budget, exec_timeout_seconds, run_exec,
  run_loop, run_round,
}
use provider_infrastructure.Command.Output.{take}
use provider_infrastructure.ExecRun.Output.{Output, bound_exec_result, bound_exec_result-length}
use provider_infrastructure.Command.{normalize_source_digest}
use provider_infrastructure.Command.Path.{is_abs, path_clean}
use provider_infrastructure.ExecRun.Call.{Call, validate_call}
use provider_infrastructure.Tests.Values.{digest}
use provider_infrastructure.ExecRun.Waiting.{run_exec-ends, run_exec-due}

abbrev started : RunResult
started = record { session_id = codes "s1"; state = running }

abbrev finished : RunResult
finished = record { session_id = codes "s1"; state = succeeded }

abbrev poll_at : ℕ → Option RunResult
poll_at zero = some (record { session_id = []; state = running })
poll_at (suc n) = some (record { session_id = []; state = succeeded })

abbrev world : World
world = record { lag = λ _. 1000; gone = λ _. false; poll = poll_at }

abbrev ending : RunEnd
ending = record { at = 750_002_000; result = some finished }

waited : run_exec world (pos 5) none 0 (some started) ≡ some ending
unfolding run_exec run_loop run_round
waited = refl

run_exec-ends_example : (e : RunEnd) × (run_exec world (pos 5) none 0 (some started) ≡ some e)
run_exec-ends_example = run_exec-ends world (pos 5) none 0 (some started)

run_exec-due_example :
    (exec_terminal_state succeeded ≡ true)
    ⊎ (0 + wait_budget (exec_timeout_seconds (pos 5) none) ≤ ending.at)
run_exec-due_example = run_exec-due world (pos 5) none 0 started finished ending refl waited refl

-- Eight bytes of output for a limit of five.
abbrev long_output : Output
long_output = record { stdout = codes "abc"; stderr = codes "defgh"; truncated = false }

bounded_output :
    bound_exec_result (pos 5) long_output
    ≡ record { stdout = codes "abc"; stderr = codes "de"; truncated = true }
unfolding bound_exec_result
bounded_output = refl

bound_exec_result-length_example :
    (length (bound_exec_result (pos 5) long_output).stdout
        + length (bound_exec_result (pos 5) long_output).stderr
      ≡ min 5 (3 + 5))
    × ((bound_exec_result (pos 5) long_output).stdout ≡ take 5 long_output.stdout)
    × ((bound_exec_result (pos 5) long_output).truncated ≡ (false || ltb 5 (3 + 5)))
bound_exec_result-length_example = bound_exec_result-length (pos 5) long_output

abbrev call : Call
call = record {
  caller_key = codes "alice";
  target = record {
    from_status = false;
    service_namespace = codes "ns1";
    service_name = codes "control";
    service_port = codes "exec";
    upstream_path = codes "/exec";
    stream = false;
    upgrade = false;
    token_secret_namespace = codes "ns1";
    token_secret_name = codes "token";
  };
  is_start = true;
  idempotency_key = codes "k1";
  runtime_namespace = codes "ns1";
  working_dir = codes "/workspace/web";
  source_revision = 7;
  source_digest = digest;
}

call_accepted : validate_call call ≡ none
unfolding validate_call trim_space path_clean split text_eq join is_abs normalize_source_digest
    trim_prefix byte_len hex_decodes
call_accepted = refl
