-- ===== src/Subscription.antt =====
-- components/ble_client_hid/subscription_state.h: one attempt to enable a notification, from the
-- registration to the write of the client configuration descriptor (CCCD). Handles are uint16_t
-- and times are uint32_t milliseconds that wrap.
pub mod Fallback
pub mod Settle
use esphome_ble_remote.Prelude.{
  ℕ, ◌+◌, ◌-◌, ◌%◌, Bool, true, false, ◌&&◌, ◌||◌, not, ltb, ◌==◌, if◌then◌else◌,
}
use esphome_ble_remote.Prelude.Words.{u32, sub_u32}

pub data SubscriptionDecision : Type 0 where
  unmatched wait_for_cccd retry_cccd complete failed : SubscriptionDecision

pub data Stage : Type 0 where
  idle registering waiting_for_cccd : Stage

pub record SubscriptionAttemptState : Type 0 where
  pub stage : Stage
  pub characteristic_handle : ℕ
  pub cccd_handle : ℕ
  pub fallback_at_ms : ℕ
  pub write_attempted : Bool

abbrev pub is_registering : Stage → Bool
is_registering registering = true
is_registering _ = false

abbrev pub is_waiting_for_cccd : Stage → Bool
is_waiting_for_cccd waiting_for_cccd = true
is_waiting_for_cccd _ = false

unfoldable pub begin : ℕ → ℕ → SubscriptionAttemptState
begin characteristic_handle cccd_handle = record {
  stage = registering;
  characteristic_handle = characteristic_handle;
  cccd_handle = cccd_handle;
  fallback_at_ms = 0;
  write_attempted = false;
}

-- Also the state that the member initialisers give.
unfoldable pub reset : SubscriptionAttemptState
reset = record {
  stage = idle;
  characteristic_handle = 0;
  cccd_handle = 0;
  fallback_at_ms = 0;
  write_attempted = false;
}

unfoldable pub registration_result :
    SubscriptionAttemptState → ℕ → Bool → ℕ → ℕ → SubscriptionAttemptState × SubscriptionDecision
registration_result s handle success now_ms fallback_delay_ms =
    if not (is_registering s.stage) || not (handle == s.characteristic_handle)
    then (s, unmatched)
    else if not success
    then (record s { stage = idle }, failed)
    else (
      record s { stage = waiting_for_cccd; fallback_at_ms = u32 (now_ms + fallback_delay_ms) },
      wait_for_cccd,
    )

-- `static_cast<int32_t>(x) >= 0` holds of the uint32_t values below 2 ^ 31.
unfoldable pub fallback_due : SubscriptionAttemptState → ℕ → Bool
fallback_due s now_ms =
    is_waiting_for_cccd s.stage
    && not s.write_attempted
    && ltb (sub_u32 now_ms s.fallback_at_ms) 2147483648

unfoldable pub own_cccd_write_attempted : SubscriptionAttemptState → SubscriptionAttemptState
own_cccd_write_attempted s = record s { write_attempted = true }

unfoldable pub cccd_result :
    SubscriptionAttemptState → ℕ → Bool → SubscriptionAttemptState × SubscriptionDecision
cccd_result s handle success =
    if not (is_waiting_for_cccd s.stage) || not (handle == s.cccd_handle)
    then (s, unmatched)
    else if success
    then (record s { stage = idle }, complete)
    else if not s.write_attempted
    then (s, retry_cccd)
    else (record s { stage = idle }, failed)
