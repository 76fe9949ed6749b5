-- ===== src/Subscription/Fallback.antt =====
-- When the fallback write of an attempt is due, across the wrap of the millisecond counter.
use esphome_ble_remote.Prelude.{ℕ, ◌+◌, ◌≤◌, ◌<◌, ◌≡◌, true, false, arith, leb}
use esphome_ble_remote.Prelude.Words.{u32}
use esphome_ble_remote.Subscription.{
  SubscriptionAttemptState, registering, registration_result, fallback_due,
}

-- An attempt that is registering, with no write of its own yet, and whose registration succeeds at
-- the time `now` has its fallback due `elapsed` milliseconds later exactly when the delay has
-- passed. The counter may wrap in between; the delay is at most 2 ^ 31, and the question is asked
-- less than 2 ^ 31 milliseconds after the delay has passed.
pub fallback_due-registration_result :
    (s : SubscriptionAttemptState) (now delay elapsed : ℕ)
    → s.stage ≡ registering
    → s.write_attempted ≡ false
    → delay ≤ 2147483648
    → elapsed < delay + 2147483648
    → fallback_due
        (registration_result s s.characteristic_handle true now delay).0
        (u32 (now + elapsed))
      ≡ leb delay elapsed
unfolding fallback_due registration_result
fallback_due-registration_result s now delay elapsed h w d e = ground arith
