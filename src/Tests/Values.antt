-- ===== src/Tests/Values.antt =====
-- A session from its start to its end, on concrete values.
use provider_infrastructure.Prelude.{ℕ, ◌≡◌, refl, false, true, [], ◌∷◌, none, some, pos}
use provider_infrastructure.Text.{
  Text, codes, text_eq, byte_len, only_lower_hex, trim_space, contains_rune, trim_prefix,
  hex_decodes,
}
use provider_infrastructure.Command.{
  ExecRequest, ExecResponse, validate_request, normalize_source_digest,
}
use provider_infrastructure.Session.{
  SessionRecord, session, Dir, WorkerRequest, lookup, put, record_name, start, poll, cancel,
}
use provider_infrastructure.Session.Disk.{
  Env, written, ok, read_record, gc, find_by_request, count_files, write_record,
}
use provider_infrastructure.Session.Disk.WellFormed.{IsWellFormed}
use provider_infrastructure.Session.Coordinator.{
  Coordinator, Thread, waiting, executing, free, held_by,
}
use provider_infrastructure.Session.Requests.{HttpRequest, queued_record, serve}
use provider_infrastructure.Session.Run.{
  begin_run, end_run, finished_record, worker_result_from_exec, running_record,
}
use provider_infrastructure.Session.System.{
  IsInitial, Reach, here, next, request, begin, end, first,
}
use provider_infrastructure.Session.System.Records.{Reach-IsWellFormed}

abbrev pub token : Text
token = codes "secret"

-- A SHA-256 digest in hexadecimal digits.
abbrev pub digest : Text
digest = codes "0123456789abcdef0123456789abcdef0123456789abcdef0123456789abcdef"

abbrev pub session_id : Text
session_id = codes "0123456789abcdef0123456789abcdef"

abbrev pub command : ExecRequest
command = record {
  argv = codes "go" ∷ codes "test" ∷ [];
  work_dir = [];
  timeout_ms = pos 5000;
  max_output_bytes = pos 0;
  source_revision = 7;
  source_digest = digest;
}

abbrev pub start_request : WorkerRequest
start_request = record {
  action = start;
  session_id = session_id;
  request_id = codes "r1";
  caller_key = codes "alice";
  fingerprint = digest;
  exec = command;
}

abbrev pub poll_request : WorkerRequest
poll_request = record start_request { action = poll }

abbrev pub bob_request : WorkerRequest
bob_request = record start_request { action = cancel; caller_key = codes "bob" }

-- A time with no faults.
abbrev pub env_at : ℕ → Env
env_at now = record {
  now = now;
  listing_fails = λ _. false;
  write = λ _. written;
  removal_fails = λ _. false;
}

abbrev pub post : WorkerRequest → HttpRequest
post req = record {
  path = codes "/exec";
  method = codes "POST";
  control_token = token;
  body = some req;
  single = true;
}

abbrev pub fresh : Coordinator
fresh = record {
  dir = [];
  active = [];
  threads = [];
  lock = free;
  next_id = 0;
  dispatched = [];
  exited = false;
}

abbrev pub waiting_thread : Thread
waiting_thread = record { id = 0; request = start_request; canceled = false; stage = waiting }

abbrev pub executing_thread : Thread
executing_thread = record waiting_thread { stage = executing }

abbrev pub response : ExecResponse
response = record {
  exit_code = pos 0;
  timed_out = false;
  cancelled = false;
  stdout = codes "ok";
  stderr = [];
  stdout_truncated = false;
  stderr_truncated = false;
}

abbrev pub queued_one : SessionRecord
queued_one = queued_record (env_at 1000) start_request

abbrev pub running_one : SessionRecord
running_one = running_record (env_at 2000) queued_one

abbrev pub finished_one : SessionRecord
finished_one =
    finished_record (env_at 3000) (worker_result_from_exec response none) none running_one

abbrev pub file_of : SessionRecord → Dir
file_of r =
    record { name = codes "0123456789abcdef0123456789abcdef.json"; content = session r } ∷ []

abbrev pub after_start : Coordinator
after_start = record fresh {
  dir = file_of queued_one;
  active = (session_id, 0) ∷ [];
  threads = waiting_thread ∷ [];
  next_id = 1;
}

abbrev pub after_begin : Coordinator
after_begin = record after_start {
  dir = file_of running_one;
  threads = executing_thread ∷ [];
  lock = held_by 0;
  dispatched = 0 ∷ [];
}

abbrev pub after_end : Coordinator
after_end = record after_begin {
  dir = file_of finished_one;
  active = [];
  threads = [];
  lock = free;
}

pub fresh-IsInitial : IsInitial fresh
fresh-IsInitial = (refl, refl, refl, refl, refl)

-- The accepted start writes a queued record and launches a goroutine.
served_start : after_start ≡ (serve token (env_at 1000) (post start_request) fresh).1
unfolding serve text_eq byte_len only_lower_hex trim_space validate_request contains_rune
    normalize_source_digest trim_prefix hex_decodes gc find_by_request lookup count_files
    write_record put record_name
served_start = refl

begun : after_begin ≡ begin_run (env_at 2000) waiting_thread after_start
unfolding begin_run lookup record_name text_eq read_record write_record put
begun = refl

ended : after_end ≡ end_run (env_at 3000) executing_thread response none after_begin
unfolding end_run lookup record_name text_eq read_record write_record put
ended = refl

pub begin_run_step : Reach token fresh after_begin
begin_run_step =
    next (next here (request (env_at 1000) (post start_request) refl served_start))
      (begin (env_at 2000) waiting_thread refl first refl refl begun)

pub end_run_step : Reach token fresh after_end
end_run_step =
    next begin_run_step (end (env_at 3000) executing_thread response none refl first refl ended)

pub read_record_finished : read_record session_id after_end.dir ≡ ok (some finished_one)
unfolding read_record lookup record_name text_eq
read_record_finished = refl

pub empty-IsWellFormed : IsWellFormed []
unfolding read_record lookup
empty-IsWellFormed = record { distinct = tt; filed = λ session_id r e. cc e }

pub after_begin-IsWellFormed : IsWellFormed after_begin.dir
after_begin-IsWellFormed = Reach-IsWellFormed token begin_run_step empty-IsWellFormed

pub after_end-IsWellFormed : IsWellFormed after_end.dir
after_end-IsWellFormed = Reach-IsWellFormed token end_run_step empty-IsWellFormed
