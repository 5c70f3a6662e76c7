-- ===== src/Command.antt =====
-- The command protocol of the development agent (dev-agent/exec_server.go): the request that a
-- caller sends, its validation, the effective limits, and the response.
pub mod Output
pub mod Limits
pub mod Accepted
pub mod Path
use provider_infrastructure.Prelude.{
  ℕ, ◌+◌, Bool, true, not, ◌&&◌, ◌||◌, List, [], ◌∷◌, Option, none, some, length, ltb, ◌==◌,
  if◌then◌else◌, ℤ, pos, negsuc, is_negative, is_nonpositive, exceeds, milliseconds,
}
use provider_infrastructure.Text.{
  Text, codes, is_empty, byte_len, trim_space, trim_prefix, contains_rune, hex_decodes,
}

-- `persistentExecRequest`; `int` fields are integers, and `SourceRevision` is a uint64.
pub record ExecRequest : Type 0 where
  pub argv : List Text
  pub work_dir : Text
  pub timeout_ms : ℤ
  pub max_output_bytes : ℤ
  pub source_revision : ℕ
  pub source_digest : Text

-- `execResponse`, less the fields that the coordinator does not read.
pub record ExecResponse : Type 0 where
  pub exit_code : ℤ
  pub timed_out : Bool
  pub cancelled : Bool
  pub stdout : Text
  pub stderr : Text
  pub stdout_truncated : Bool
  pub stderr_truncated : Bool

-- `execMaxTimeout` and `execDefaultTimeout`, in nanoseconds.
abbrev pub max_timeout : ℕ
max_timeout = 120_000_000_000

abbrev pub default_timeout : ℕ
default_timeout = 30_000_000_000

abbrev pub max_output : ℕ
max_output = 262_144

abbrev pub max_args : ℕ
max_args = 128

abbrev pub max_arg_bytes : ℕ
max_arg_bytes = 16_384

-- The errors of `validatePersistentExecRequest`, in its order.
pub data Invalid : Type 0 where
  no_executable too_many_args : Invalid
  arg_has_nul arg_too_large : ℕ → Invalid
  no_revision no_digest digest_not_hex bad_timeout bad_output : Invalid

-- `normalizeSourceDigest`
unfoldable pub normalize_source_digest : Text → Text
normalize_source_digest raw = trim_prefix (trim_space raw) (codes "sha256:")

-- `len(argv) == 0 || strings.TrimSpace(argv[0]) == ""`
unfoldable pub lacks_executable : List Text → Bool
lacks_executable [] = true
lacks_executable (arg ∷ args) = is_empty (trim_space arg)

-- The loop over the arguments, from the index of the first.
unfoldable pub check_args : ℕ → List Text → Option Invalid
check_args i [] = none
check_args i (arg ∷ args) =
    let rest = check_args (i + 1) args in
    if contains_rune arg 0
    then some (arg_has_nul i)
    else if ltb max_arg_bytes (byte_len arg)
    then some (arg_too_large i)
    else rest

-- `hex.DecodedLen` of the SHA-256 digest is 32, so the digest has 64 digits.
unfoldable pub check_digest : Text → Option Invalid
check_digest digest =
    if not (byte_len digest == 64)
    then some no_digest
    else if not (hex_decodes digest)
    then some digest_not_hex
    else none

abbrev pub or_else : Option Invalid → Option Invalid → Option Invalid
or_else none next = next
or_else (some e) next = some e

-- `TimeoutMS < 0 || (TimeoutMS > 0 && time.Duration(TimeoutMS)*time.Millisecond > execMaxTimeout)`
unfoldable pub bad_timeout_ms : ℤ → Bool
unfolding milliseconds
bad_timeout_ms (pos n) = ltb 0 n && exceeds (milliseconds n) max_timeout
bad_timeout_ms (negsuc n) = true

-- `validatePersistentExecRequest`
unfoldable pub validate_request : ExecRequest → Option Invalid
unfolding lacks_executable check_args check_digest bad_timeout_ms
validate_request req =
    if lacks_executable req.argv
    then some no_executable
    else if ltb max_args (length req.argv)
    then some too_many_args
    else or_else (check_args 0 req.argv) (
        if req.source_revision == 0
        then some no_revision
        else or_else (check_digest (normalize_source_digest req.source_digest)) (
            if bad_timeout_ms req.timeout_ms
            then some bad_timeout
            else if is_negative req.max_output_bytes || exceeds req.max_output_bytes max_output
            then some bad_output
            else none))

-- `boundedExecTimeout`, in nanoseconds.
unfoldable pub bounded_exec_timeout : ℤ → ℤ
unfolding milliseconds
bounded_exec_timeout (pos n) = if n == 0 then pos default_timeout else milliseconds n
bounded_exec_timeout (negsuc n) = pos default_timeout

-- `boundedExecOutput`
unfoldable pub bounded_exec_output : ℤ → ℤ
bounded_exec_output max = if is_nonpositive max then pos max_output else max
