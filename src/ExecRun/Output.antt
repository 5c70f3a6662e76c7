-- ===== src/ExecRun/Output.antt =====
-- The bound on the output of a command in the data plane (`boundExecResult` of dataplane/exec.go).
use provider_infrastructure.Prelude.{
  ℕ, ◌+◌, ◌-◌, ◌≡◌, Bool, true, ◌||◌, List, [], ltb, length, min, if◌then◌else◌, ℤ, pos, negsuc,
  arith,
}
use provider_infrastructure.Command.Output.{take}
use provider_infrastructure.Command.Output.Stream.{length-take, take_all}

-- The output of an `ExecResult`, in bytes.
pub record Output : Type 0 where
  pub stdout : List ℕ
  pub stderr : List ℕ
  pub truncated : Bool

-- `if outputBytes < 0 { outputBytes = 0 }`
abbrev pub at_least_zero : ℤ → ℕ
at_least_zero (pos n) = n
at_least_zero (negsuc n) = 0

abbrev pub bound_to : ℕ → Output → Output
bound_to limit o =
    if ltb limit (length o.stdout)
    then record { stdout = take limit o.stdout; stderr = []; truncated = true }
    else if ltb (limit - length o.stdout) (length o.stderr)
    then record o { stderr = take (limit - length o.stdout) o.stderr; truncated = true }
    else o

-- `boundExecResult`
unfoldable pub bound_exec_result : ℤ → Output → Output
bound_exec_result limit o = bound_to (at_least_zero limit) o

-- The output that is kept is as long as the limit lets it, the standard output first, and it is
-- marked as truncated exactly if it was before or is longer than the limit.
pub bound_exec_result-length :
    (limit : ℤ) (o : Output)
    → (length (bound_exec_result limit o).stdout + length (bound_exec_result limit o).stderr
        ≡ min (at_least_zero limit) (length o.stdout + length o.stderr))
      × ((bound_exec_result limit o).stdout ≡ take (at_least_zero limit) o.stdout)
      × ((bound_exec_result limit o).truncated
          ≡ (o.truncated || ltb (at_least_zero limit) (length o.stdout + length o.stderr)))
unfolding bound_exec_result
bound_exec_result-length limit o = (
  ground (
    arith,
    length-take (at_least_zero limit) o.stdout,
    length-take (at_least_zero limit - length o.stdout) o.stderr,
  ),
  ground (arith, take_all (at_least_zero limit) o.stdout),
  ground arith,
)
