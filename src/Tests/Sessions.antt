-- ===== src/Tests/Sessions.antt =====
-- The properties of the coordinator, applied to the session of Tests/Values.antt.
use provider_infrastructure.Prelude.{◌≤◌, ◌≡◌, ◌≢◌, refl, inl, false, true, [], some, arith}
use provider_infrastructure.Text.{text_eq, cut_suffix}
use provider_infrastructure.Session.{
  canceled, SessionRecord, worker_terminal, lookup, put, record_name, session_file,
}
use provider_infrastructure.Session.Disk.{http, ok, err, read_record, write_record, gc}
use provider_infrastructure.Session.Disk.Sweep.{gc-fresh}
use provider_infrastructure.Session.Disk.WellFormed.{IsWellFormed}
use provider_infrastructure.Session.Requests.{
  serve, start_session, poll_session, cancel_session, canceled_record,
}
use provider_infrastructure.Session.Run.{restart, interrupted_record}
use provider_infrastructure.Session.Start.{StartOutcome, start_session-outcome}
use provider_infrastructure.Session.Owner.{Owns, poll_session-owner, other_caller_denied}
use provider_infrastructure.Session.Gate.{ServeOutcome, serve-outcome}
use provider_infrastructure.Session.Retry.{HasSameRuns, start_session-no_rerun}
use provider_infrastructure.Session.Recovery.{restart-finished}
use provider_infrastructure.Session.Cancel.{canceled_state, cancel_session-cancels}
use provider_infrastructure.Session.System.Records.{Reach-IsWellFormed}
use provider_infrastructure.Session.System.Order.{executing_count}
use provider_infrastructure.Session.System.Order.Steps.{executing_exclusive, idle_unlocked}
use provider_infrastructure.Tests.Values.{
  token, session_id, start_request, poll_request, bob_request, env_at, post, fresh, after_begin,
  after_end, running_one, finished_one, fresh-IsInitial, begin_run_step, end_run_step,
  read_record_finished, empty-IsWellFormed, after_begin-IsWellFormed, after_end-IsWellFormed,
}

executing_exclusive_example : executing_count after_begin.threads ≤ 1
executing_exclusive_example = executing_exclusive token fresh-IsInitial begin_run_step

idle_unlocked_example : executing_count after_end.threads ≡ 0
idle_unlocked_example = idle_unlocked token fresh-IsInitial end_run_step (inl refl)

Reach-IsWellFormed_example : IsWellFormed after_end.dir
Reach-IsWellFormed_example = Reach-IsWellFormed token end_run_step empty-IsWellFormed

restart_up : (restart (env_at 3000) after_begin).exited ≡ false
unfolding restart lookup record_name text_eq read_record write_record put gc session_file cut_suffix
restart_up = refl

read_record_interrupted :
    read_record session_id (restart (env_at 3000) after_begin).dir
    ≡ ok (some (interrupted_record (env_at 3000) running_one))
unfolding restart lookup record_name text_eq read_record write_record put gc session_file cut_suffix
read_record_interrupted = refl

restart-finished_example :
    (worker_terminal (interrupted_record (env_at 3000) running_one).result.state ≡ true)
    × ((restart (env_at 3000) after_begin).threads ≡ [])
    × ((restart (env_at 3000) after_begin).dispatched ≡ after_begin.dispatched)
restart-finished_example =
    restart-finished (env_at 3000) after_begin session_id
      (interrupted_record (env_at 3000) running_one) after_begin-IsWellFormed restart_up
      read_record_interrupted

start_session-outcome_example :
    StartOutcome
      (env_at 1000)
      start_request
      (gc (env_at 1000) fresh.dir).0
      fresh
      (start_session (env_at 1000) start_request fresh)
start_session-outcome_example = start_session-outcome (env_at 1000) start_request fresh

gc-fresh_example :
    read_record session_id (gc (env_at 4000) after_end.dir).0 ≡ ok (some finished_one)
gc-fresh_example =
    gc-fresh (env_at 4000) session_id after_end.dir finished_one after_end-IsWellFormed
      (omega arith) read_record_finished (omega arith)

start_session-no_rerun_example :
    HasSameRuns (start_session (env_at 4000) start_request after_end).1 after_end
start_session-no_rerun_example =
    start_session-no_rerun (env_at 4000) start_request after_end finished_one after_end-IsWellFormed
      (omega arith) read_record_finished (omega arith)

polled : (poll_session poll_request after_end).0 ≡ ok finished_one.result
unfolding poll_session read_record lookup record_name text_eq
polled = refl

poll_session-owner_example :
    (r : SessionRecord) × (read_record session_id after_end.dir ≡ ok (some r))
    × Owns poll_request r
    × (r.result ≡ finished_one.result)
poll_session-owner_example = poll_session-owner poll_request after_end finished_one.result polled

read_record_running : read_record session_id after_begin.dir ≡ ok (some running_one)
unfolding read_record lookup record_name text_eq
read_record_running = refl

cancels_running :
    (cancel_session (env_at 3000) start_request after_begin).0
    ≡ ok (canceled_record (env_at 3000) running_one).result
unfolding cancel_session read_record lookup record_name text_eq write_record put
cancels_running = refl

cancel_session-cancels_example :
    Owns start_request running_one
    × ((canceled_record (env_at 3000) running_one).result
        ≡ record running_one.result { state = canceled })
    × (read_record session_id (cancel_session (env_at 3000) start_request after_begin).1.dir
        ≡ ok (some (canceled_record (env_at 3000) running_one)))
    × ((cancel_session (env_at 3000) start_request after_begin).1
        ≡ canceled_state session_id
            (cancel_session (env_at 3000) start_request after_begin).1.dir
            after_begin)
cancel_session-cancels_example =
    cancel_session-cancels (env_at 3000) start_request after_begin running_one
      (canceled_record (env_at 3000) running_one).result after_begin-IsWellFormed
      read_record_running refl cancels_running

other_key : finished_one.caller_key ≢ bob_request.caller_key
other_key e = cc e

other_caller_denied_example :
    (poll_session bob_request after_end ≡ (err (http 403), after_end))
    × (cancel_session (env_at 4000) bob_request after_end ≡ (err (http 403), after_end))
other_caller_denied_example =
    other_caller_denied (env_at 4000) bob_request after_end finished_one read_record_finished
      other_key

serve-outcome_example :
    ServeOutcome token
      (env_at 1000)
      (post start_request)
      fresh
      (serve token (env_at 1000) (post start_request) fresh)
serve-outcome_example = serve-outcome token (env_at 1000) (post start_request) fresh
