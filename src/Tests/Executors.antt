-- ===== src/Tests/Executors.antt =====
-- The server of the executor on concrete answers.
use provider_infrastructure.Prelude.{◌+◌, ◌≡◌, refl, false, true, List, [], ◌∷◌, any, if◌then◌else◌}
use provider_infrastructure.Text.{codes, cut_prefix}
use provider_infrastructure.Executor.{Server, Answer, completed, broken, error_status, run_all}
use provider_infrastructure.Executor.FailStop.{executed, is_unproven, run_all-executed}
use provider_infrastructure.Tests.Values.{response}

abbrev idle : Server
idle = record { failed = false; exits = 0; commands = 0 }

abbrev stopped : Server
stopped = record { failed = true; exits = 1; commands = 2 }

-- A command, one whose cleanup is not proven, and one more.
abbrev answers : List Answer
answers =
    completed response
    ∷ broken (record { message = codes "execution cleanup"; is_cleanup = true })
    ∷ completed response
    ∷ []

answered : run_all answers idle ≡ (200 ∷ 500 ∷ 503 ∷ [], stopped)
unfolding run_all
answered = refl

-- A command that names no revision gets the status of a conflict.
missing_revision :
    error_status (record { message = codes "source revision is required"; is_cleanup = false })
    ≡ 409
unfolding error_status cut_prefix
missing_revision = refl

run_all-executed_example :
    ((run_all answers idle).1.commands ≡ 0 + executed answers)
    × ((run_all answers idle).1.failed ≡ any is_unproven answers)
    × ((run_all answers idle).1.exits ≡ 0 + (if any is_unproven answers then 1 else 0))
run_all-executed_example = run_all-executed answers idle refl
