-- ===== src/ExecRun/Call.antt =====
-- The checks of a call before it is sent to the coordinator (`validatePersistentExecTarget` and
-- `validatePersistentExecCall` of dataplane/persistent_executor.go).
use provider_infrastructure.Prelude.{
  ℕ, ◌≡◌, ◌≢◌, ◌↔◌, Bool, true, false, not, ◌||◌, Option, none, some, ◌==◌, if◌then◌else◌, arith,
}
use provider_infrastructure.Text.{Text, codes, text_eq, is_empty, byte_len, trim_space, hex_decodes}
use provider_infrastructure.Command.{normalize_source_digest}
use provider_infrastructure.Command.Path.{is_abs, path_clean}
use provider_infrastructure.Resolver.{Target}

-- What the checks read of an `ExecCall`; `is_start` tells that its action is start.
pub record Call : Type 0 where
  pub caller_key : Text
  pub target : Target
  pub is_start : Bool
  pub idempotency_key : Text
  pub runtime_namespace : Text
  pub working_dir : Text
  pub source_revision : ℕ
  pub source_digest : Text

-- The errors of the two functions, in their order.
pub data CallError : Type 0 where
  no_caller no_service no_secret not_start no_namespace bad_working_dir : CallError
  no_revision bad_digest_length bad_digest : CallError

-- `validatePersistentExecTarget`
unfoldable pub validate_target : Call → Option CallError
validate_target call =
    if is_empty (trim_space call.caller_key)
    then some no_caller
    else if is_empty call.target.service_name || is_empty call.target.service_port
    then some no_service
    else if is_empty call.target.token_secret_namespace || is_empty call.target.token_secret_name
    then some no_secret
    else none

-- The checks of `validatePersistentExecCall` after those of the target.
abbrev pub validate_source : Call → Option CallError
validate_source call =
    if not call.is_start || is_empty (trim_space call.idempotency_key)
    then some not_start
    else if is_empty (trim_space call.runtime_namespace)
    then some no_namespace
    else if not (is_abs call.working_dir) || text_eq (path_clean call.working_dir) (codes "/")
    then some bad_working_dir
    else if call.source_revision == 0
    then some no_revision
    else if not (byte_len (normalize_source_digest call.source_digest) == 64)
    then some bad_digest_length
    else if not (hex_decodes (normalize_source_digest call.source_digest))
    then some bad_digest
    else none

-- `validatePersistentExecCall`
unfoldable pub validate_call : Call → Option CallError
unfolding validate_target
validate_call call = elim (validate_target call) [ none ↦ validate_source call | some e ↦ some e ]

-- The declarative reading: a start of a caller, with a key, towards a Service that a Secret guards, in a
-- namespace and a working directory below the root, on a revision and a digest of its source.
pub record IsSendable (call : Call) : Type 0 where
  pub caller : is_empty (trim_space call.caller_key) ≡ false
  pub service_name : is_empty call.target.service_name ≡ false
  pub service_port : is_empty call.target.service_port ≡ false
  pub secret_namespace : is_empty call.target.token_secret_namespace ≡ false
  pub secret_name : is_empty call.target.token_secret_name ≡ false
  pub starts : call.is_start ≡ true
  pub key : is_empty (trim_space call.idempotency_key) ≡ false
  pub namespace : is_empty (trim_space call.runtime_namespace) ≡ false
  pub absolute : is_abs call.working_dir ≡ true
  pub below_root : text_eq (path_clean call.working_dir) (codes "/") ≡ false
  pub revision : call.source_revision ≢ 0
  pub digest_length : byte_len (normalize_source_digest call.source_digest) ≡ 64
  pub digest_hex : hex_decodes (normalize_source_digest call.source_digest) ≡ true

accepted : (call : Call) → validate_call call ≡ none → IsSendable call
unfolding validate_call
accepted call h = record {
  caller = ground arith;
  service_name = ground arith;
  service_port = ground arith;
  secret_namespace = ground arith;
  secret_name = ground arith;
  starts = ground arith;
  key = ground arith;
  namespace = ground arith;
  absolute = ground arith;
  below_root = ground arith;
  revision = ground arith;
  digest_length = ground arith;
  digest_hex = ground arith;
}

complete : (call : Call) → IsSendable call → validate_call call ≡ none
unfolding validate_call
complete call s = ground (
  arith, s.caller, s.service_name, s.service_port, s.secret_namespace, s.secret_name, s.starts,
  s.key, s.namespace, s.absolute, s.below_root, s.revision, s.digest_length, s.digest_hex,
)

-- The checks pass exactly if the call is a start of a named caller with a key, towards a Service and
-- a Secret that are there, in a namespace and an absolute working directory below the root, with a
-- source revision and a digest of 64 hexadecimal digits.
pub validate_call_iff : (call : Call) → (validate_call call ≡ none) ↔ IsSendable call
validate_call_iff call = (accepted call, complete call)
