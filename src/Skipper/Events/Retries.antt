-- ===== src/Skipper/Events/Retries.antt =====
-- How often an event is retried, by `retry_max` of its consumer.
use nfcompose.Shared.{ℕ, suc, ◌-◌, ◌≤◌, ◌<◌, ◌≡◌, false, arith, if◌then◌else◌}
use nfcompose.Skipper.Events.{Consumer, ConsumerEvent, failed, success, is_final}
use nfcompose.Skipper.Events.Attempt.{is_given_up}
use nfcompose.Skipper.Events.Lifecycle.{Attempted, delivered, refused}

-- A limit of 0 is none. A failed event is one over the limit, and all others are within it.
pub record WithinRetries (consumer : Consumer) (event : ConsumerEvent) : Type 0 where
  pub open_within :
      0 < consumer.retry_max → is_final event.state ≡ false → event.retries ≤ consumer.retry_max
  pub success_within :
      0 < consumer.retry_max → event.state ≡ success → event.retries ≤ consumer.retry_max
  pub failed_over :
      event.state ≡ failed → (0 < consumer.retry_max) × (event.retries ≡ suc consumer.retry_max)

pub Attempted-WithinRetries :
    (consumer : Consumer) (a b : ConsumerEvent)
    → is_final a.state ≡ false
    → Attempted consumer a b
    → WithinRetries consumer a
    → WithinRetries consumer b
unfolding is_given_up
Attempted-WithinRetries consumer a b pending (delivered d) w = ground (arith, d, w)
Attempted-WithinRetries consumer a b pending (refused r) w = ground (arith, r, w)

-- The attempts that a consumer with a limit still has for an event.
unfoldable pub remaining : Consumer → ConsumerEvent → ℕ
remaining consumer event =
    if is_final event.state then 0 else suc consumer.retry_max - event.retries

pub Attempted-remaining :
    (consumer : Consumer) (a b : ConsumerEvent)
    → 0 < consumer.retry_max
    → is_final a.state ≡ false
    → WithinRetries consumer a
    → Attempted consumer a b
    → remaining consumer b < remaining consumer a
unfolding is_given_up remaining
Attempted-remaining consumer a b limited pending w (delivered d) = ground (arith, d, w)
Attempted-remaining consumer a b limited pending w (refused r) = ground (arith, r, w)
