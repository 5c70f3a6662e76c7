-- ===== src/Command/Accepted.antt =====
-- Which commands the validation accepts (`validatePersistentExecRequest` of
-- dev-agent/exec_server.go), in the terms of the protocol.
use provider_infrastructure.Prelude.{
  ℕ, zero, suc, ◌*◌, ◌%◌, ◌^◌, ◌≤◌, ◌≡◌, ◌≢◌, ◌↔◌, ◌⊎◌, inl, refl, sym, ◌∙◌, Bool, true, false,
  List, [], ◌∷◌, none, All, length, ℤ, pos, negsuc, is_negative, exceeds, ltb, ◌&&◌, wrap,
  milliseconds, arith,
}
use mathlib.Core.Path.{subst}
use provider_infrastructure.Text.{Text, byte_len, contains_rune, hex_decodes}
use provider_infrastructure.Text.Blank.{has_ink, is_empty-trim_space}
use provider_infrastructure.Command.{
  ExecRequest, max_timeout, max_output, normalize_source_digest, lacks_executable, bad_timeout_ms,
  validate_request,
}
use provider_infrastructure.Command.Limits.{validate_request-passes}

-- The first argument has a character that is no space.
abbrev pub NamesExecutable : List Text → Type 0
NamesExecutable argv =
    (arg : Text) × (args : List Text) × (argv ≡ arg ∷ args) × (has_ink arg ≡ true)

-- The product in nanoseconds, in 64 bits, is at most two minutes, or it is negative as an int64.
abbrev pub IsTimeout : ℤ → Type 0
IsTimeout t =
    (n : ℕ) × (t ≡ pos n)
    × ((n * 1_000_000 % 2 ^ 64 ≤ 120_000_000_000) ⊎ (2 ^ 63 ≤ n * 1_000_000 % 2 ^ 64))

abbrev pub IsOutputLimit : ℤ → Type 0
IsOutputLimit max = (n : ℕ) × (max ≡ pos n) × (n ≤ 262_144)

-- What the protocol asks of a command.
abbrev pub IsAcceptable : ExecRequest → Type 0
IsAcceptable req =
    NamesExecutable req.argv
    × (length req.argv ≤ 128)
    × All (λ arg. (contains_rune arg 0 ≡ false) × (byte_len arg ≤ 16_384)) req.argv
    × (req.source_revision ≢ 0)
    × (byte_len (normalize_source_digest req.source_digest) ≡ 64)
    × (hex_decodes (normalize_source_digest req.source_digest) ≡ true)
    × IsTimeout req.timeout_ms
    × IsOutputLimit req.max_output_bytes

lacks_executable_iff : (argv : List Text) → (lacks_executable argv ≡ false) ↔ NamesExecutable argv
unfolding lacks_executable
lacks_executable_iff [] = (λ h. cc, λ (arg, args, is, ink). cc)
lacks_executable_iff (arg ∷ args) = (
  λ h. (arg, args, refl, ground (arith, is_empty-trim_space arg)),
  λ (a, rest, is, ink).
      let same : a ≡ arg = cc in ground (arith, is_empty-trim_space arg, same, ink),
)

-- The product in nanoseconds passes.
abbrev Fits : ℕ → Type 0
Fits low = (low ≤ 120_000_000_000) ⊎ (2 ^ 63 ≤ low)

exceeds-Fits_iff :
    (n : ℕ) → (exceeds (milliseconds n) max_timeout ≡ false) ↔ Fits (n * 1_000_000 % 2 ^ 64)
unfolding milliseconds wrap
exceeds-Fits_iff n = ground arith

and_positive : (n : ℕ) (test : Bool) → (ltb 0 (suc n) && test) ≡ test
and_positive n test = ground arith

bad_timeout_ms-IsTimeout_iff : (t : ℤ) → (bad_timeout_ms t ≡ false) ↔ IsTimeout t
unfolding bad_timeout_ms
bad_timeout_ms-IsTimeout_iff (pos zero) = (λ h. (zero, refl, inl (omega arith)), λ fits. refl)
bad_timeout_ms-IsTimeout_iff (pos (suc n)) = (
  λ h. (suc n, refl, (exceeds-Fits_iff (suc n)).0 (sym (and_positive n _) ∙ h)),
  λ (m, is, fits).
      let same : m ≡ suc n = cc in
      and_positive n _
      ∙ (exceeds-Fits_iff (suc n)).1 (subst (λ k. Fits (k * 1_000_000 % 2 ^ 64)) same fits),
)
bad_timeout_ms-IsTimeout_iff (negsuc n) = (λ h. cc, λ (m, is, fits). cc)

output_iff :
    (max : ℤ) → ((is_negative max ≡ false) × (exceeds max max_output ≡ false)) ↔ IsOutputLimit max
output_iff (pos n) = (
  λ (h, k). (n, refl, ground arith),
  λ (m, is, fits). (refl, let same : m ≡ n = cc in ground arith),
)
output_iff (negsuc n) = (λ (h, k). cc, λ (m, is, fits). cc)

-- The validation accepts a command exactly if its first argument has a character that is no space,
-- it has at most 128 arguments, each of at most 16 KiB and without NUL, it names a source revision
-- and a digest of 64 hexadecimal digits, its timeout is not negative and in nanoseconds at most two
-- minutes, or wraps to a negative int64, and its output limit is not negative and at most 256 KiB.
pub validate_request_iff : (req : ExecRequest) → (validate_request req ≡ none) ↔ IsAcceptable req
validate_request_iff req = (
  λ h.
      let tests = (validate_request-passes req).0 h in
      (
        (lacks_executable_iff req.argv).0 tests.0.names_executable,
        tests.0.few_args,
        tests.0.args,
        tests.0.has_revision,
        tests.0.digest_length,
        tests.0.digest_hex,
        (bad_timeout_ms-IsTimeout_iff req.timeout_ms).0 tests.1.timeout_ok,
        (output_iff req.max_output_bytes).0 (tests.1.output_positive, tests.1.output_small),
      ),
  λ (executable, few, args, revision, digest, hex, timeout, output).
      let limits = (output_iff req.max_output_bytes).1 output in
      (validate_request-passes req).1 (
        record {
          names_executable = (lacks_executable_iff req.argv).1 executable;
          few_args = few;
          args = args;
          has_revision = revision;
          digest_length = digest;
          digest_hex = hex;
        },
        record {
          timeout_ok = (bad_timeout_ms-IsTimeout_iff req.timeout_ms).1 timeout;
          output_positive = limits.0;
          output_small = limits.1;
        },
      ),
)
