-- ===== src/Lifecycle/Readiness.antt =====
-- The readiness of the runtime object and the network phase (controller/instance/lifecycle.go,
-- controller.go and runtime.go).
use provider_infrastructure.Prelude.{
  ℕ, ◌-◌, ◌^◌, Bool, true, false, not, ◌&&◌, ◌||◌, List, [], ◌∷◌, Option, none, some, ltb, ◌==◌,
  if◌then◌else◌, ℤ, pos, negsuc, is_nonpositive, wrap,
}
use provider_infrastructure.Text.{Text, codes}
use provider_infrastructure.Lifecycle.{
  Development, Raw, int64, int32, int, uint64, uint32, uint, float64, other, Condition, Status,
  RuntimeObject, is_text, lifecycle_requeue_after,
}

abbrev pub int_eq : ℤ → ℤ → Bool
int_eq (pos a) (pos b) = a == b
int_eq (negsuc a) (negsuc b) = a == b
int_eq _ _ = false

-- `generationValue`: the value and whether it is one.
unfoldable pub generation_value : Raw → Option ℤ
unfolding wrap
generation_value (int64 n) = some n
generation_value (int32 n) = some n
generation_value (int n) = some n
generation_value (uint64 n) = if ltb (2 ^ 63 - 1) n then none else some (pos n)
generation_value (uint32 n) = some (pos n)
generation_value (uint n) = some (wrap (2 ^ 63) (pos n))
generation_value (float64 value) = value
generation_value other = none

-- `observed, ok := generationValue(raw); ok && observed == generation`
unfoldable pub is_current : ℤ → Raw → Bool
unfolding generation_value
is_current generation raw = elim (generation_value raw) [
  | none ↦ false
  | some observed ↦ int_eq observed generation
]

abbrev pub is_ready_type : Option Condition → Bool
is_ready_type none = false
is_ready_type (some c) = is_text c.type (codes "Ready")

-- `conditionTrue(conditions, "Ready")`
unfoldable pub condition_ready : List (Option Condition) → Bool
condition_ready [] = false
condition_ready (none ∷ cs) = condition_ready cs
condition_ready (some c ∷ cs) =
    let rest = condition_ready cs in
    if is_text c.type (codes "Ready") then is_text c.status (codes "True") else rest

abbrev ready_status : Option Status → Bool
ready_status none = false
ready_status (some s) = is_text s.phase (codes "Ready") || condition_ready s.conditions

-- `runtimeReady`
unfoldable pub runtime_ready : Option RuntimeObject → Bool
unfolding condition_ready
runtime_ready none = false
runtime_ready (some obj) = ready_status obj.status

-- The loop over the conditions: whether a Ready condition was found and whether one is current;
-- `none` where the function returns false at once.
unfoldable pub scan_ready : ℤ → Bool → Bool → List (Option Condition) → Option (Bool × Bool)
scan_ready generation found current [] = some (found, current)
scan_ready generation found current (none ∷ cs) = scan_ready generation found current cs
scan_ready generation found current (some c ∷ cs) =
    let skip = scan_ready generation found current cs in
    let go_on =
      scan_ready generation true (current || is_current generation c.observed_generation) cs in
    if not (is_text c.type (codes "Ready"))
    then skip
    else if not (is_text c.status (codes "True"))
    then none
    else go_on

-- The end of `runtimeReadyForNetwork`.
abbrev pub is_ready_now : ℤ → Status → Option (Bool × Bool) → Bool
is_ready_now generation s none = false
is_ready_now generation s (some (found, current)) =
    if not (is_text s.phase (codes "Ready")) && not found
    then false
    else elim (generation_value s.observed_generation) [
      | none ↦ current
      | some observed ↦ int_eq observed generation
    ]

abbrev pub status_ready_for_network : ℤ → Option Status → Bool
status_ready_for_network generation none = false
status_ready_for_network generation (some s) =
    is_ready_now generation s (scan_ready generation false false s.conditions)

-- `runtimeReadyForNetwork`
unfoldable pub runtime_ready_for_network : Option RuntimeObject → Bool
unfolding scan_ready generation_value
runtime_ready_for_network none = false
runtime_ready_for_network (some obj) =
    if is_nonpositive obj.generation
    then false
    else status_ready_for_network obj.generation obj.status

pub data Phase : Type 0 where
  setup runtime : Phase

-- The spec selects the runtime phase.
abbrev pub selects_runtime : RuntimeObject → Bool
selects_runtime obj = is_text obj.network_phase (codes "runtime")

-- `desiredNetworkPhase`
unfoldable pub desired_network_phase : Option RuntimeObject → Phase
unfolding runtime_ready runtime_ready_for_network
desired_network_phase none = setup
desired_network_phase (some obj) =
    if selects_runtime obj
    then runtime
    else if runtime_ready (some obj) && runtime_ready_for_network (some obj)
    then runtime
    else setup

-- `runtimeNetworkPhase`, for the development of the template where it has one.
unfoldable pub runtime_network_phase : Option Development → Option RuntimeObject → Option Phase
unfolding runtime_ready_for_network
runtime_network_phase none obj = none
runtime_network_phase (some d) none = some setup
runtime_network_phase (some d) (some obj) =
    if not (selects_runtime obj) || not (runtime_ready_for_network (some obj))
    then some setup
    else some runtime

abbrev pub requeue_not_ready : ℕ
requeue_not_ready = 10_000_000_000

abbrev pub requeue_ready : ℕ
requeue_ready = 60_000_000_000

abbrev pub is_setup : Option Phase → Bool
is_setup (some runtime) = false
is_setup _ = true

abbrev pub has_development : Option Development → Bool
has_development none = false
has_development (some d) = true

-- `instanceRequeueAfter`
unfoldable pub instance_requeue_after :
    (Text → Option ℕ) → ℕ → ℕ → Option ℕ → Option Development → Option RuntimeObject → Bool → ℕ
unfolding runtime_network_phase
instance_requeue_after parse_time now clock created d obj ready =
    if has_development d && is_setup (runtime_network_phase d obj)
    then requeue_not_ready
    else if not ready
    then requeue_not_ready
    else lifecycle_requeue_after parse_time now clock created d obj requeue_ready
