-- ===== src/Session.antt =====
-- The durable sessions of the execution coordinator (dev-agent/exec_worker.go): their records, the
-- directory that keeps them, and the coordinator's state.
pub mod Disk
pub mod Coordinator
pub mod Requests
pub mod Run
pub mod Start
pub mod Changes
pub mod Owner
pub mod Cancel
pub mod Gate
pub mod System
pub mod Retry
pub mod Recovery
use provider_infrastructure.Prelude.{
  ℕ, Bool, true, false, List, [], ◌∷◌, ◌++◌, Option, none, some, if◌then◌else◌, ℤ,
}
use provider_infrastructure.Text.{Text, text_eq, text_lt, codes, cut_suffix}
use provider_infrastructure.Command.{ExecRequest}

-- The field `state` of a result; `other` is a text that this program never writes.
pub data State : Type 0 where
  queued running succeeded failed timed_out canceled : State
  other : Text → State

-- `workerTerminal`
abbrev pub worker_terminal : State → Bool
worker_terminal succeeded = true
worker_terminal failed = true
worker_terminal timed_out = true
worker_terminal canceled = true
worker_terminal _ = false

-- `workerExecResult`
pub record ExecResult : Type 0 where
  pub session_id : Text
  pub request_id : Text
  pub state : State
  pub exit_code : Option ℤ
  pub stdout : Text
  pub stderr : Text
  pub truncated : Bool

-- `execSessionRecord`; times are nanoseconds.
pub record SessionRecord : Type 0 where
  pub session_id : Text
  pub request_id : Text
  pub caller_key : Text
  pub fingerprint : Text
  pub result : ExecResult
  pub created_at : ℕ
  pub updated_at : ℕ

-- The `action` of a request.
pub data Action : Type 0 where
  start poll cancel : Action
  unknown : Text → Action

-- `workerExecRequest`
pub record WorkerRequest : Type 0 where
  pub action : Action
  pub session_id : Text
  pub request_id : Text
  pub caller_key : Text
  pub fingerprint : Text
  pub exec : ExecRequest

-- What an entry of the record directory holds: a subdirectory, a file that decodes to a record, or a
-- file that cannot be read or decoded.
pub data Content : Type 0 where
  directory : Content
  session : SessionRecord → Content
  unreadable : Content

pub record Entry : Type 0 where
  pub name : Text
  pub content : Content

-- The directory, in the order of `os.ReadDir`.
abbrev pub Dir : Type 0
Dir = List Entry

abbrev pub is_directory : Content → Bool
is_directory directory = true
is_directory _ = false

unfoldable pub lookup : Text → Dir → Option Content
lookup name [] = none
lookup name (e ∷ dir) = if text_eq e.name name then some e.content else lookup name dir

unfoldable pub insert_entry : Entry → Dir → Dir
insert_entry e [] = e ∷ []
insert_entry e (d ∷ dir) = if text_lt e.name d.name then e ∷ d ∷ dir else d ∷ insert_entry e dir

unfoldable pub replace : Entry → Dir → Dir
replace e [] = []
replace e (d ∷ dir) = if text_eq d.name e.name then e ∷ dir else d ∷ replace e dir

-- The rename of a file to the entry's name: it takes the place of the file that has the name, or
-- its place in the order.
unfoldable pub put : Entry → Dir → Dir
unfolding insert_entry replace
put e dir = elim (lookup e.name dir) [ none ↦ insert_entry e dir | some _ ↦ replace e dir ]

unfoldable pub remove : Text → Dir → Dir
remove name [] = []
remove name (d ∷ dir) = if text_eq d.name name then dir else d ∷ remove name dir

abbrev pub json_suffix : Text
json_suffix = codes ".json"

-- `recordPath`, within the record directory.
unfoldable pub record_name : Text → Text
record_name session_id = session_id ++ json_suffix

-- The session whose record an entry may be: `!entry.IsDir()`, and the name without `.json`.
unfoldable pub session_file : Entry → Option Text
session_file e = if is_directory e.content then none else cut_suffix e.name json_suffix
