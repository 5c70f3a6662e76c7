-- ===== src/Tests/Lifecycles.antt =====
-- The properties of the life of a development instance on concrete inputs.
use provider_infrastructure.Prelude.{
  ℕ, if◌then◌else◌, ◌+◌, ◌≤◌, ◌<◌, ◌≡◌, ◌≢◌, ◌↔◌, ◌⊎◌, refl, true, false, [], ◌∷◌, Option, none,
  some, pos, arith,
}
use provider_infrastructure.Text.{Text, codes, text_eq, is_empty}
use provider_infrastructure.Lifecycle.{
  Development, int64, other, RuntimeObject, seconds, last_active, lifecycle_due, next_deadline,
  lifecycle_requeue_after,
}
use provider_infrastructure.Lifecycle.Deadlines.{
  requeue_not_late, requeue_on_time, lifecycle_due_iff,
}
use provider_infrastructure.Lifecycle.Readiness.{
  runtime, selects_runtime, desired_network_phase, runtime_network_phase, is_current,
}
use provider_infrastructure.Lifecycle.Phase.{
  HasEvidence, desired-HasEvidence, published-HasEvidence,
}

-- A stand-in for the parser of times: it knows one text.
abbrev parse_time : Text → Option ℕ
parse_time t = if text_eq t (codes "t50") then some (seconds 50) else none

-- At most a hundred seconds, and at most twenty without activity.
abbrev limited : Development
limited = record { max_lifetime_seconds = 100; idle_timeout_seconds = 20 }

-- An object that was active at fifty seconds and is ready at its second generation.
abbrev ready_object : RuntimeObject
ready_object = record {
  generation = pos 2;
  last_activity = codes "t50";
  network_phase = none;
  status = some (record {
    phase = some (codes "Ready");
    conditions =
        some (record {
          type = some (codes "Ready");
          status = some (codes "True");
          observed_generation = int64 (pos 2);
        })
        ∷ [];
    observed_generation = other;
  });
}

abbrev open_object : RuntimeObject
open_object = record ready_object { network_phase = some (codes "runtime") }

next_of_object :
    next_deadline parse_time (seconds 60) 0 limited (some ready_object) ≡ some (seconds 70)
unfolding next_deadline text_eq
next_of_object = refl

requeue_of_object :
    lifecycle_requeue_after parse_time
      (seconds 60)
      (seconds 61)
      (some 0)
      (some limited)
      (some ready_object)
      (seconds 60)
    ≡ seconds 9
unfolding lifecycle_requeue_after text_eq
requeue_of_object = refl

requeue_not_late_example :
    lifecycle_due parse_time (seconds 68) (some 0) (some limited) (some ready_object) ≡ none
requeue_not_late_example =
    requeue_not_late parse_time (seconds 60) (seconds 61) (seconds 68) 0 (seconds 60) (seconds 70)
      limited (some ready_object) next_of_object (omega arith) (omega arith) (omega arith)
      (omega (arith, requeue_of_object))

same_activity :
    last_active parse_time (seconds 70) 0 (some ready_object)
    ≡ last_active parse_time (seconds 60) 0 (some ready_object)
unfolding last_active text_eq
same_activity = refl

requeue_on_time_example :
    (seconds 61
        + lifecycle_requeue_after parse_time
            (seconds 60)
            (seconds 61)
            (some 0)
            (some limited)
            (some ready_object)
            (seconds 60)
      ≡ seconds 70)
    × (lifecycle_due parse_time (seconds 70) (some 0) (some limited) (some ready_object) ≢ none)
requeue_on_time_example =
    requeue_on_time parse_time (seconds 60) (seconds 61) 0 (seconds 60) (seconds 70) limited
      (some ready_object) next_of_object (omega arith) (omega arith) (omega arith) same_activity

reports_t50 : is_empty ready_object.last_activity ≡ false
reports_t50 = refl

parses_t50 : parse_time ready_object.last_activity ≡ some (seconds 50)
unfolding text_eq
parses_t50 = refl

lifecycle_due_iff_example :
    (lifecycle_due parse_time (seconds 70) (some 0) (some limited) (some ready_object) ≢ none) ↔ (
      ((0 < 100) × (0 + seconds 100 ≤ seconds 70))
      ⊎ ((0 < 20)
          × (0 + seconds 20 ≤ seconds 70)
          × ((seconds 70 < seconds 50) ⊎ (seconds 50 + seconds 20 ≤ seconds 70))))
lifecycle_due_iff_example =
    lifecycle_due_iff parse_time (seconds 70) 0 (seconds 50) limited ready_object reports_t50
      parses_t50

wants_runtime : desired_network_phase (some ready_object) ≡ runtime
unfolding desired_network_phase text_eq is_current
wants_runtime = refl

desired-HasEvidence_example : HasEvidence ready_object
desired-HasEvidence_example = desired-HasEvidence ready_object refl wants_runtime

publishes_runtime : runtime_network_phase (some limited) (some open_object) ≡ some runtime
unfolding runtime_network_phase text_eq is_current
publishes_runtime = refl

published-HasEvidence_example : (selects_runtime open_object ≡ true) × HasEvidence open_object
published-HasEvidence_example = published-HasEvidence limited open_object publishes_runtime
