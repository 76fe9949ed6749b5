-- ===== src/Client/Frame.antt =====
-- What most steps of the component leave as it is (components/ble_client_hid/ble_client_hid.h).
use esphome_ble_remote.Prelude.{ℕ, Option, List, map}
use esphome_ble_remote.Buffer.{OrderedEventBuffer}
use esphome_ble_remote.Subscription.{SubscriptionAttemptState}
use esphome_ble_remote.Schema.ReportMap.{HidReportMap}
use esphome_ble_remote.Client.Gatt.{HidServiceContext}
use esphome_ble_remote.Client.Names.{SetupPhase}
use esphome_ble_remote.Client.State.{BleClientHid, PendingHidReport, SubscriptionInfo}

-- The members that the invariants of the phases, the subscriptions and the queue are about.
pub record Core : Type 0 where
  pub active_subscription : Option SubscriptionInfo
  pub subscription_state : SubscriptionAttemptState
  pub setup_phase : SetupPhase
  pub subscription_queue : List SubscriptionInfo
  pub pending_reports : List PendingHidReport
  pub pending_report_bytes : ℕ

abbrev pub core : BleClientHid → Core
core c = record {
  active_subscription = c.active_subscription;
  subscription_state = c.subscription_state;
  setup_phase = c.setup_phase;
  subscription_queue = c.subscription_queue;
  pending_reports = c.pending_reports;
  pending_report_bytes = c.pending_report_bytes;
}

-- The core, and the events that are held back.
abbrev pub kept : BleClientHid → Core × OrderedEventBuffer
kept c = (core c, c.sampled_events)

-- The report map of each HID context.
abbrev pub report_maps : List HidServiceContext → List (Option HidReportMap)
report_maps contexts = map (λ context. context.report_map) contexts

-- These, and the report maps.
abbrev pub held : BleClientHid → Core × OrderedEventBuffer × List (Option HidReportMap)
held c = (core c, c.sampled_events, report_maps c.hid_services)
