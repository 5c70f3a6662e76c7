-- ===== src/Lifecycle/Phase.antt =====
-- The network phase only moves from setup to runtime, on evidence of the current generation.
use provider_infrastructure.Prelude.{
  is_nonpositive, ◌≡◌, refl, sym, ap, ◌∙◌, ◌⊎◌, inl, inr, Bool, true, false, ◌||◌, Bool-cases,
  Option-cases, Option, List, [], ◌∷◌, none, some, ℤ, arith,
}
use provider_infrastructure.Text.{codes}
use provider_infrastructure.Lifecycle.{Development, Condition, Status, RuntimeObject, is_text}
use provider_infrastructure.Lifecycle.Readiness.{
  generation_value, is_current, scan_ready, is_ready_now, status_ready_for_network,
  runtime_ready_for_network, runtime, selects_runtime, desired_network_phase, runtime_network_phase,
}

-- Once the spec selects the runtime phase, that stays the wanted phase whatever the status says.
pub phase_one_way :
    (obj : RuntimeObject) → selects_runtime obj ≡ true → desired_network_phase (some obj) ≡ runtime
unfolding desired_network_phase
phase_one_way obj h = ground arith

-- A Ready condition that reports the generation.
pub data HasCurrentReady (generation : ℤ) : List (Option Condition) → Type 0 where
  ready_here :
      {c : Condition} {cs : List (Option Condition)}
      → is_text c.type (codes "Ready") ≡ true
      → is_text c.status (codes "True") ≡ true
      → is_current generation c.observed_generation ≡ true
      → HasCurrentReady generation (some c ∷ cs)
  ready_later :
      {c : Option Condition} {cs : List (Option Condition)}
      → HasCurrentReady generation cs
      → HasCurrentReady generation (c ∷ cs)

skipped :
    (generation : ℤ) (found current : Bool) (c : Condition) (cs : List (Option Condition))
    → is_text c.type (codes "Ready") ≡ false
    → scan_ready generation found current (some c ∷ cs) ≡ scan_ready generation found current cs
unfolding scan_ready
skipped generation found current c cs other = ground arith

stopped :
    (generation : ℤ) (found current : Bool) (c : Condition) (cs : List (Option Condition))
    → is_text c.type (codes "Ready") ≡ true
    → is_text c.status (codes "True") ≡ false
    → scan_ready generation found current (some c ∷ cs) ≡ none
unfolding scan_ready
stopped generation found current c cs ready not_true = ground arith

passed :
    (generation : ℤ) (found current : Bool) (c : Condition) (cs : List (Option Condition))
    → is_text c.type (codes "Ready") ≡ true
    → is_text c.status (codes "True") ≡ true
    → scan_ready generation found current (some c ∷ cs)
      ≡ scan_ready generation true (current || is_current generation c.observed_generation) cs
unfolding scan_ready
passed generation found current c cs ready holds = ground arith

scan_end :
    (generation : ℤ) (found current found' : Bool)
    → scan_ready generation found current [] ≡ some (found', true)
    → current ≡ true
unfolding scan_ready
scan_end generation found current found' h = ground arith

scan_none :
    (generation : ℤ) (found current : Bool) (cs : List (Option Condition))
    → scan_ready generation found current cs ≡ scan_ready generation found current (none ∷ cs)
unfolding scan_ready
scan_none generation found current cs = refl

absurd_stop {ℓ} : {A : Type ℓ} → {p : Bool × Bool} → none ≡ some p → A
absurd_stop h = cc

scan_ready-current :
    (generation : ℤ) (found current found' : Bool) (cs : List (Option Condition))
    → scan_ready generation found current cs ≡ some (found', true)
    → (current ≡ true) ⊎ HasCurrentReady generation cs
scan_ready-current generation found current found' [] h =
    inl (scan_end generation found current found' h)
scan_ready-current generation found current found' (none ∷ cs) h =
    elim (scan_ready-current generation found current found' cs
      (scan_none generation found current cs ∙ h)) [
        | inl was ↦ inl was
        | inr more ↦ inr (ready_later more)
      ]
scan_ready-current generation found current found' (some c ∷ cs) h =
    elim (Bool-cases (is_text c.type (codes "Ready"))) [
      | inr other ↦
          elim (scan_ready-current generation found current found' cs
            (sym (skipped generation found current c cs other) ∙ h)) [
              | inl was ↦ inl was
              | inr more ↦ inr (ready_later more)
            ]
      | inl ready ↦ elim (Bool-cases (is_text c.status (codes "True"))) [
        | inr not_true ↦
            absurd_stop (sym (stopped generation found current c cs ready not_true) ∙ h)
        | inl holds ↦
            elim (scan_ready-current generation true
              (current || is_current generation c.observed_generation) found' cs
              (sym (passed generation found current c cs ready holds) ∙ h)) [
                | inl either ↦ elim (Bool-cases current) [
                  | inl was ↦ inl was
                  | inr not_was ↦ inr (ready_here ready holds (ground arith))
                ]
                | inr more ↦ inr (ready_later more)
              ]
      ]
    ]

-- What the status says of the generation of the object itself: the status was observed at it, or,
-- where the status gives no generation, a condition was.
pub data IsEvidence (obj : RuntimeObject) (s : Status) : Type 0 where
  observed : is_current obj.generation s.observed_generation ≡ true → IsEvidence obj s
  condition :
      generation_value s.observed_generation ≡ none
      → HasCurrentReady obj.generation s.conditions
      → IsEvidence obj s

-- The evidence that an object gives.
pub data HasEvidence (obj : RuntimeObject) : Type 0 where
  has_evidence : (s : Status) → obj.status ≡ some s → IsEvidence obj s → HasEvidence obj

from_scan :
    (obj : RuntimeObject) (s : Status) (found current : Bool)
    → scan_ready obj.generation false false s.conditions ≡ some (found, current)
    → current ≡ true
    → HasCurrentReady obj.generation s.conditions
from_scan obj s found current scan h =
    elim (scan_ready-current obj.generation false false found s.conditions
      (scan ∙ ap (λ c. some (found, c)) h)) [ inl impossible ↦ cc | inr has ↦ has ]

ready_now_current :
    (generation : ℤ) (s : Status) (found current : Bool)
    → generation_value s.observed_generation ≡ none
    → is_ready_now generation s (some (found, current)) ≡ true
    → current ≡ true
ready_now_current generation s found current absent h = ground arith

ready_now_equal :
    (generation g : ℤ) (s : Status) (found current : Bool)
    → generation_value s.observed_generation ≡ some g
    → is_ready_now generation s (some (found, current)) ≡ true
    → is_current generation s.observed_generation ≡ true
unfolding is_current
ready_now_equal generation g s found current given h = ground arith

found-IsEvidence :
    (obj : RuntimeObject) (s : Status) (found current : Bool)
    → scan_ready obj.generation false false s.conditions ≡ some (found, current)
    → is_ready_now obj.generation s (some (found, current)) ≡ true
    → IsEvidence obj s
found-IsEvidence obj s found current scan h =
    elim (Option-cases (generation_value s.observed_generation)) [
      | inl absent ↦ condition absent (
          from_scan obj s found current scan
            (ready_now_current obj.generation s found current absent h))
      | inr (g, given) ↦ observed (ready_now_equal obj.generation g s found current given h)
    ]

absurd_false {ℓ} : {A : Type ℓ} → false ≡ true → A
absurd_false h = cc

status-IsEvidence :
    (obj : RuntimeObject) (s : Status)
    → status_ready_for_network obj.generation (some s) ≡ true
    → IsEvidence obj s
status-IsEvidence obj s h =
    elim (Option-cases (scan_ready obj.generation false false s.conditions)) [
      | inl stop ↦ absurd_false (sym (ap (is_ready_now obj.generation s) stop) ∙ h)
      | inr ((found, current), scan) ↦
          found-IsEvidence obj s found current scan
            (sym (ap (is_ready_now obj.generation s) scan) ∙ h)
    ]

shown_ready :
    (obj : RuntimeObject)
    → is_nonpositive obj.generation ≡ false
    → runtime_ready_for_network (some obj) ≡ status_ready_for_network obj.generation obj.status
unfolding runtime_ready_for_network
shown_ready obj high = rw high refl

past_generation :
    (obj : RuntimeObject)
    → runtime_ready_for_network (some obj) ≡ true
    → status_ready_for_network obj.generation obj.status ≡ true
unfolding runtime_ready_for_network
past_generation obj h = elim (Bool-cases (is_nonpositive obj.generation)) [
  | inl low ↦ absurd_false (ground arith)
  | inr high ↦ sym (shown_ready obj high) ∙ h
]

-- A runtime object that the network code takes for ready gives evidence of its current generation.
pub ready-HasEvidence :
    (obj : RuntimeObject) → runtime_ready_for_network (some obj) ≡ true → HasEvidence obj
unfolding runtime_ready_for_network
ready-HasEvidence obj h = elim (Option-cases obj.status) [
  | inl absent ↦
      absurd_false
        (sym (ap (status_ready_for_network obj.generation) absent) ∙ past_generation obj h)
  | inr (s, given) ↦ has_evidence s given (
      status-IsEvidence obj s
        (sym (ap (status_ready_for_network obj.generation) given) ∙ past_generation obj h))
]

-- Where the spec of a runtime object has not selected the runtime phase, the controller asks for
-- that phase only if the object's status was observed at its generation or, with no generation in
-- the status, a true Ready condition was.
pub desired-HasEvidence :
    (obj : RuntimeObject)
    → selects_runtime obj ≡ false
    → desired_network_phase (some obj) ≡ runtime
    → HasEvidence obj
unfolding desired_network_phase
desired-HasEvidence obj unset h = ready-HasEvidence obj (ground arith)

-- The runtime phase is published only for an object whose spec selects it and whose status, or true
-- Ready condition where the status has no generation, was observed at its generation.
pub published-HasEvidence :
    (d : Development) (obj : RuntimeObject)
    → runtime_network_phase (some d) (some obj) ≡ some runtime
    → (selects_runtime obj ≡ true) × HasEvidence obj
unfolding runtime_network_phase
published-HasEvidence d obj h = (ground arith, ready-HasEvidence obj (ground arith))
