-- ===== src/Lifecycle.antt =====
-- The life of a development instance (controller/instance/lifecycle.go, the network phase of
-- controller/instance/controller.go and runtime.go): when it is deleted, when it is looked at again,
-- and when its network opens. Times are nanoseconds since an epoch before every time that occurs.
pub mod Deadlines
pub mod Readiness
pub mod Phase
use provider_infrastructure.Prelude.{
  ℕ, ◌+◌, ◌-◌, ◌*◌, ◌^◌, ◌≡◌, Bool, true, false, not, ◌&&◌, ◌||◌, List, [], ◌∷◌, Option, none, some,
  any, ltb, leb, ◌==◌, min, if◌then◌else◌, ℤ, pos, negsuc, wrap,
}
use provider_infrastructure.Text.{Text, codes, text_eq, is_empty}

-- The fields of `TemplateDevelopment` that bound a life, in seconds; 0 is no limit.
pub record Development : Type 0 where
  pub max_lifetime_seconds : ℕ
  pub idle_timeout_seconds : ℕ

-- A number as it stands in an unstructured object. A `float64` is the integer that it equals, or
-- none.
pub data Raw : Type 0 where
  int64 int32 int : ℤ → Raw
  uint64 uint32 uint : ℕ → Raw
  float64 : Option ℤ → Raw
  other : Raw

-- An entry of `status.conditions`; a field that is no string is `none`.
pub record Condition : Type 0 where
  pub type : Option Text
  pub status : Option Text
  pub observed_generation : Raw

-- `status`; an entry of the conditions that is no object is `none`.
pub record Status : Type 0 where
  pub phase : Option Text
  pub conditions : List (Option Condition)
  pub observed_generation : Raw

-- The runtime object: its generation, the annotation of the last activity (empty if absent), the
-- network phase in its spec, and its status where that is an object.
pub record RuntimeObject : Type 0 where
  pub generation : ℤ
  pub last_activity : Text
  pub network_phase : Option Text
  pub status : Option Status

abbrev pub seconds : ℕ → ℕ
seconds n = n * 1_000_000_000

-- `v == "text"` for a value that may be no string.
abbrev pub is_text : Option Text → Text → Bool
is_text none t = false
is_text (some s) t = text_eq s t

pub data Reason : Type 0 where
  sandbox_expired sandbox_idle : Reason

-- `time.Parse(time.RFC3339Nano, raw)` is `parse_time`.
module _ (parse_time : Text → Option ℕ) where
  -- `if parsed, err := …; err == nil && parsed.After(last) && !parsed.After(now) { last = parsed }`
  abbrev pub later_of : ℕ → ℕ → Option ℕ → ℕ
  later_of now created none = created
  later_of now created (some t) = if ltb created t && leb t now then t else created

  -- The time of the last activity, from the creation on.
  unfoldable pub last_active : ℕ → ℕ → Option RuntimeObject → ℕ
  last_active now created none = created
  last_active now created (some obj) =
      if is_empty obj.last_activity
      then created
      else later_of now created (parse_time obj.last_activity)

  -- `lifecycleDue`; a zero creation time and a nil development are `none`.
  unfoldable pub lifecycle_due :
      ℕ → Option ℕ → Option Development → Option RuntimeObject → Option Reason
  unfolding last_active
  lifecycle_due now created none obj = none
  lifecycle_due now none (some d) obj = none
  lifecycle_due now (some created) (some d) obj =
      if ltb 0 d.max_lifetime_seconds && leb (created + seconds d.max_lifetime_seconds) now
      then some sandbox_expired
      else if ltb 0 d.idle_timeout_seconds
          && leb (last_active now created obj + seconds d.idle_timeout_seconds) now
      then some sandbox_idle
      else none

  -- `deadline`, which is zero where there is no limit.
  abbrev pub lifetime_deadline : ℕ → Development → Option ℕ
  lifetime_deadline created d =
      if ltb 0 d.max_lifetime_seconds then some (created + seconds d.max_lifetime_seconds) else none

  abbrev pub sooner : ℕ → Option ℕ → ℕ
  sooner idle none = idle
  sooner idle (some deadline) = if ltb idle deadline then idle else deadline

  unfoldable pub next_deadline : ℕ → ℕ → Development → Option RuntimeObject → Option ℕ
  unfolding last_active
  next_deadline now created d obj =
      if ltb 0 d.idle_timeout_seconds
      then some (
          sooner (last_active now created obj + seconds d.idle_timeout_seconds)
            (lifetime_deadline created d))
      else lifetime_deadline created d

  -- `now` is the time that the caller read, `clock` the one that `time.Until` reads.
  abbrev pub wait_until : ℕ → ℕ → ℕ → Option ℕ → ℕ
  wait_until now clock fallback none = seconds 1
  wait_until now clock fallback (some deadline) =
      if leb deadline now
      then seconds 1
      else if ltb clock deadline && ltb (deadline - clock) fallback
      then deadline - clock
      else fallback

  -- `lifecycleRequeueAfter`
  unfoldable pub lifecycle_requeue_after :
      ℕ → ℕ → Option ℕ → Option Development → Option RuntimeObject → ℕ → ℕ
  unfolding next_deadline
  lifecycle_requeue_after now clock created none obj fallback = fallback
  lifecycle_requeue_after now clock none (some d) obj fallback = fallback
  lifecycle_requeue_after now clock (some created) (some d) obj fallback =
      wait_until now clock fallback (next_deadline now created d obj)
