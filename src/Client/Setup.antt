-- ===== src/Client/Setup.antt =====
-- The phases of the set-up (transition_, mark_degraded_, reset_connection_state_, finalize_setup_,
-- handle_phase_timeout_ of components/ble_client_hid/ble_client_hid.cpp).
use esphome_ble_remote.Prelude.{Bool, true, false, not, none, [], ◌++◌, if◌then◌else◌}
use esphome_ble_remote.Prelude.Text.{Text, codes}
use esphome_ble_remote.Boot.{reset as boot_reset}
use esphome_ble_remote.Buffer.{clear}
use esphome_ble_remote.Subscription.{reset as subscription_reset}
use esphome_ble_remote.Client.Limits.{phase_timeout_ms}
use esphome_ble_remote.Client.Names.{
  SetupPhase, disconnected, waiting_for_discovery, reading, building_profile, registering,
  waiting_for_cccd, ready, degraded, no_hid, elapsed, phase_name,
}
use esphome_ble_remote.Client.State.{
  Platform, BleClientHid, status_set_warning, status_clear_warning, node_established,
  update_conn_params, called, perform, no_conn_params, operation_failed,
}

unfoldable pub transition : Platform → SetupPhase → BleClientHid → BleClientHid
transition p phase c = record (called c) {
  setup_phase = phase;
  phase_started_ms = p.millis c.calls;
}

unfoldable pub mark_degraded : Text → BleClientHid → BleClientHid
unfolding operation_failed
mark_degraded reason c =
    perform (status_set_warning reason) (operation_failed (record c { degraded = true }))

-- `else this->operations_failed_++`.
unfoldable pub note_failure : Bool → Text → BleClientHid → BleClientHid
unfolding mark_degraded
note_failure required reason c = if required then mark_degraded reason c else operation_failed c

unfoldable pub reset_connection_state : BleClientHid → BleClientHid
unfolding boot_reset clear subscription_reset
reset_connection_state c = record c {
  services = [];
  hid_services = [];
  read_queue = [];
  active_read = none;
  subscription_queue = [];
  active_subscription = none;
  subscription_state = subscription_reset;
  handle_report_source = λ handle. none;
  hid_report_handles = λ handle. false;
  battery_handles = λ handle. false;
  service_changed_handles = λ handle. false;
  planned_read_handles = [];
  pending_reports = [];
  pending_report_bytes = 0;
  boot_decoder = boot_reset;
  sampled_events = clear c.sampled_events;
  sampling_window_active = false;
  preferred_conn_params_valid = false;
  preferred_conn_params = no_conn_params;
  protocol_write_handles = [];
  congested = false;
  rediscovery_requested = false;
  operations_succeeded = 0;
  operations_failed = 0;
  degraded = false;
  gatt_profile_hash = [];
}

-- The parameters are requested of ESP-IDF whatever its answer, which is only logged.
unfoldable pub finalize_setup : Platform → BleClientHid → BleClientHid
unfolding transition
finalize_setup p c =
    let c1 =
      if c.preferred_conn_params_valid
      then perform (update_conn_params c.preferred_conn_params) c
      else c in
    let c2 =
      if c1.degraded
      then transition p degraded c1
      else transition p ready (perform status_clear_warning c1) in
    perform node_established c2

unfoldable pub drop_subscription : BleClientHid → BleClientHid
drop_subscription c = record c {
  active_subscription = none;
  subscription_state = subscription_reset;
}

-- The phases that wait for nothing or have ended.
unfoldable pub is_settled : SetupPhase → Bool
is_settled disconnected = true
is_settled waiting_for_discovery = true
is_settled ready = true
is_settled degraded = true
is_settled no_hid = true
is_settled _ = false

-- What is done in a phase that has taken too long.
unfoldable pub leave_phase : Platform → SetupPhase → BleClientHid → BleClientHid
unfolding transition finalize_setup drop_subscription
leave_phase p reading c =
    transition p building_profile (record c { active_read = none; read_queue = [] })
leave_phase p registering c =
    finalize_setup p (record (drop_subscription c) { subscription_queue = [] })
leave_phase p waiting_for_cccd c =
    finalize_setup p (record (drop_subscription c) { subscription_queue = [] })
leave_phase p _ c = finalize_setup p c

unfoldable pub handle_phase_timeout : Platform → BleClientHid → BleClientHid
unfolding is_settled elapsed mark_degraded phase_name leave_phase
handle_phase_timeout p c =
    if is_settled c.setup_phase
    then c
    else if not (elapsed (p.millis c.calls) c.phase_started_ms phase_timeout_ms)
    then called c
    else leave_phase p c.setup_phase
        (mark_degraded (codes "timeout in " ++ phase_name c.setup_phase) (called c))
