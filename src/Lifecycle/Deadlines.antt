-- ===== src/Lifecycle/Deadlines.antt =====
-- A development instance is looked at again in time.
use provider_infrastructure.Prelude.{
  ℕ, ◌+◌, ◌≤◌, ◌<◌, ◌≡◌, ◌≢◌, ◌↔◌, ◌⊎◌, Option, none, some, false, arith,
}
use provider_infrastructure.Text.{Text, is_empty}
use provider_infrastructure.Lifecycle.{
  Development, RuntimeObject, seconds, last_active, lifecycle_due, next_deadline,
  lifecycle_requeue_after,
}

module _ (parse_time : Text → Option ℕ) where
  -- The activity that is counted is never before the creation, and never ahead of the clock unless
  -- the creation is.
  last_active-bounds :
      (now created : ℕ) (obj : Option RuntimeObject)
      → created ≤ now
      → (created ≤ last_active parse_time now created obj)
        × (last_active parse_time now created obj ≤ now)
  unfolding last_active
  last_active-bounds now created none h = (omega arith, h)
  last_active-bounds now created (some obj) h = ground arith

  -- Counted activity only grows with the clock.
  last_active_mono :
      (now later created : ℕ) (obj : Option RuntimeObject)
      → now ≤ later
      → last_active parse_time now created obj ≤ last_active parse_time later created obj
  unfolding last_active
  last_active_mono now later created none h = omega arith
  last_active_mono now later created (some obj) h = ground arith

  -- Where the next deadline is ahead of the clock, a development instance is not due at any time
  -- from the reading of the time to the end of the wait until it is looked at again, which starts
  -- at the clock.
  pub requeue_not_late :
      (now clock later created fallback deadline : ℕ) (d : Development) (obj : Option RuntimeObject)
      → next_deadline parse_time now created d obj ≡ some deadline
      → now ≤ clock
      → clock < deadline
      → now ≤ later
      → later
        < clock + lifecycle_requeue_after parse_time now clock (some created) (some d) obj fallback
      → lifecycle_due parse_time later (some created) (some d) obj ≡ none
  unfolding lifecycle_due lifecycle_requeue_after
  requeue_not_late now clock later created fallback deadline d obj next ahead open_ after before =
      ground (arith, last_active_mono now later created obj after)

  -- Where the next deadline is ahead of the clock and closer than the fallback, and no activity is
  -- counted meanwhile, the wait ends at the deadline and the instance is due then.
  pub requeue_on_time :
      (now clock created fallback deadline : ℕ) (d : Development) (obj : Option RuntimeObject)
      → next_deadline parse_time now created d obj ≡ some deadline
      → now ≤ clock
      → clock < deadline
      → deadline < clock + fallback
      → last_active parse_time deadline created obj ≡ last_active parse_time now created obj
      → (clock + lifecycle_requeue_after parse_time now clock (some created) (some d) obj fallback
          ≡ deadline)
        × (lifecycle_due parse_time deadline (some created) (some d) obj ≢ none)
  unfolding lifecycle_due lifecycle_requeue_after
  requeue_on_time now clock created fallback deadline d obj next ahead open_ near quiet =
      (ground arith, ground arith)

  -- A development instance that reports an activity is due exactly if its lifetime is limited and
  -- has passed since the creation, or its idle time is limited and has passed both since the
  -- creation and since the activity, or since the creation alone where the activity is ahead of the
  -- time.
  pub lifecycle_due_iff :
      (now created t : ℕ) (d : Development) (obj : RuntimeObject)
      → is_empty obj.last_activity ≡ false
      → parse_time obj.last_activity ≡ some t
      → (lifecycle_due parse_time now (some created) (some d) (some obj) ≢ none) ↔ (
          ((0 < d.max_lifetime_seconds) × (created + seconds d.max_lifetime_seconds ≤ now))
          ⊎ ((0 < d.idle_timeout_seconds)
              × (created + seconds d.idle_timeout_seconds ≤ now)
              × ((now < t) ⊎ (t + seconds d.idle_timeout_seconds ≤ now))))
  unfolding lifecycle_due last_active
  lifecycle_due_iff now created t d obj reports parsed = ground arith
