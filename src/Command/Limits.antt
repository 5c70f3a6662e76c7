-- ===== src/Command/Limits.antt =====
-- What a validated command request satisfies.
use provider_infrastructure.Prelude.{
  ℕ, zero, suc, ◌+◌, ◌%◌, ◌*◌, ◌≤◌, ◌≡◌, ◌≢◌, ◌↔◌, refl, true, false, List, [], ◌∷◌, none, All,
  length, ℤ, pos, negsuc, is_negative, exceeds, wrap, milliseconds, arith,
}
use provider_infrastructure.Text.{Text, byte_len, contains_rune, hex_decodes}
use provider_infrastructure.Command.{
  ExecRequest, max_timeout, max_output, max_args, max_arg_bytes, normalize_source_digest,
  lacks_executable, check_args, check_digest, bad_timeout_ms, validate_request,
  bounded_exec_timeout, bounded_exec_output,
}

-- An argument that a process can take: no NUL, and at most 16 KiB.
abbrev pub IsArg : Text → Type 0
IsArg arg = (contains_rune arg 0 ≡ false) × (byte_len arg ≤ max_arg_bytes)

-- The declarative reading of the validation, less the limits.
pub record IsRunnable (req : ExecRequest) : Type 0 where
  pub names_executable : lacks_executable req.argv ≡ false
  pub few_args : length req.argv ≤ max_args
  pub args : All IsArg req.argv
  pub has_revision : req.source_revision ≢ 0
  pub digest_length : byte_len (normalize_source_digest req.source_digest) ≡ 64
  pub digest_hex : hex_decodes (normalize_source_digest req.source_digest) ≡ true

-- The limits that the validation accepts.
pub record HasLimits (req : ExecRequest) : Type 0 where
  pub timeout_ok : bad_timeout_ms req.timeout_ms ≡ false
  pub output_positive : is_negative req.max_output_bytes ≡ false
  pub output_small : exceeds req.max_output_bytes max_output ≡ false

check_args_iff : (i : ℕ) (args : List Text) → (check_args i args ≡ none) ↔ All IsArg args
unfolding check_args
check_args_iff i [] = ((λ h. tt), (λ h. refl))
check_args_iff i (arg ∷ args) = (
  (λ h. ((ground arith, ground arith), (check_args_iff (i + 1) args).0 (ground arith))),
  λ (ok, rest). ground (arith, (check_args_iff (i + 1) args).1 rest),
)

check_digest_iff :
    (digest : Text)
    → (check_digest digest ≡ none) ↔ ((byte_len digest ≡ 64) × (hex_decodes digest ≡ true))
unfolding check_digest
check_digest_iff digest = ground arith

accepted : (req : ExecRequest) → validate_request req ≡ none → IsRunnable req × HasLimits req
unfolding validate_request
accepted req h =
    let digest = (check_digest_iff (normalize_source_digest req.source_digest)).0 (ground arith) in
    (
      record {
        names_executable = ground arith;
        few_args = ground arith;
        args = (check_args_iff 0 req.argv).0 (ground arith);
        has_revision = ground arith;
        digest_length = digest.0;
        digest_hex = digest.1;
      },
      record {
        timeout_ok = ground arith;
        output_positive = ground arith;
        output_small = ground arith;
      },
    )

complete : (req : ExecRequest) → IsRunnable req × HasLimits req → validate_request req ≡ none
unfolding validate_request
complete req (run, limits) = ground (
  arith,
  run.names_executable,
  run.few_args,
  (check_args_iff 0 req.argv).1 run.args,
  run.has_revision,
  (check_digest_iff (normalize_source_digest req.source_digest)).1
      (run.digest_length, run.digest_hex),
  limits.timeout_ok,
  limits.output_positive,
  limits.output_small,
)

-- The validation is the conjunction of its tests.
pub validate_request-passes :
    (req : ExecRequest) → (validate_request req ≡ none) ↔ (IsRunnable req × HasLimits req)
validate_request-passes req = (accepted req, complete req)

bounded_timeout :
    (t : ℤ) → bad_timeout_ms t ≡ false → exceeds (bounded_exec_timeout t) max_timeout ≡ false
unfolding bad_timeout_ms bounded_exec_timeout
bounded_timeout (pos n) h = ground arith
bounded_timeout (negsuc n) h = refl

mod_below :
    (n : ℕ) → n ≤ 9_223_372_036_854 → n * 1_000_000 % 18_446_744_073_709_551_616 ≡ n * 1_000_000
mod_below n small = omega arith

milliseconds_small : (n : ℕ) → n ≤ 9_223_372_036_854 → milliseconds n ≡ pos (n * 1_000_000)
unfolding milliseconds wrap
milliseconds_small n small = let below = mod_below n small in rw below (ground arith)

bounded_output :
    (max : ℤ)
    → is_negative max ≡ false
    → exceeds max max_output ≡ false
    → (n : ℕ) × ((bounded_exec_output max ≡ pos n) × (1 ≤ n) × (n ≤ max_output))
unfolding bounded_exec_output
bounded_output (pos zero) positive small = (max_output, (refl, omega arith, omega arith))
bounded_output (pos (suc n)) positive small = (suc n, (ground arith, omega arith, ground arith))
bounded_output (negsuc n) positive small = cc

-- Where the product in nanoseconds does not overflow, a timeout in milliseconds is accepted exactly
-- if it is at most two minutes.
pub timeout_iff : (n : ℕ) → n ≤ 9_223_372_036_854 → (bad_timeout_ms (pos n) ≡ false) ↔ (n ≤ 120_000)
unfolding bad_timeout_ms
timeout_iff n small = rw (milliseconds_small n small) (ground arith)

-- A command that the validation accepts gets a timeout of at most two minutes and a limit of one
-- byte to 256 KiB for each output, also where the product in nanoseconds wraps.
pub accepted-is_bounded :
    (req : ExecRequest)
    → validate_request req ≡ none
    → (exceeds (bounded_exec_timeout req.timeout_ms) max_timeout ≡ false)
      × ((n : ℕ) × ((bounded_exec_output req.max_output_bytes ≡ pos n)
            × (1 ≤ n)
            × (n ≤ max_output)))
accepted-is_bounded req h =
    let limits = (accepted req h).1 in
    (
      bounded_timeout req.timeout_ms limits.timeout_ok,
      bounded_output req.max_output_bytes limits.output_positive limits.output_small,
    )
