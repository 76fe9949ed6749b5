-- ===== src/Client/Handler.antt =====
-- The entry points: gattc_event_handler, request_rediscovery_ and loop of
-- components/ble_client_hid/ble_client_hid.cpp.
pub mod Sound
use esphome_ble_remote.Prelude.{
  ℕ, zero, suc, ◌+◌, ◌-◌, Bool, true, false, ◌&&◌, ◌||◌, not, Option, none, some, [], ◌∷◌, ltb,
  ◌==◌, if◌then◌else◌, length, get_or,
}
use esphome_ble_remote.Prelude.Words.{u64, sub_u32}
use esphome_ble_remote.Prelude.Text.{codes}
use esphome_ble_remote.Schema.Usage.{Payload}
use esphome_ble_remote.Decode.Report.{payload_length, is_invalid}
use esphome_ble_remote.Subscription.{fallback_due}
use esphome_ble_remote.Client.Limits.{max_reports_per_loop, max_processing_time_us}
use esphome_ble_remote.Client.Names.{
  SetupPhase, disconnected, waiting_for_discovery, inventory, reading, building_profile,
  writing_protocol_mode, registering, waiting_for_cccd, no_hid,
}
use esphome_ble_remote.Client.State.{
  Platform, BleClientHid, GattReadOperation, called, perform, status_set_warning, node_established,
  disconnect, request_encryption, publish_battery,
}
use esphome_ble_remote.Client.Setup.{
  transition, mark_degraded, reset_connection_state, finalize_setup, handle_phase_timeout,
}
use esphome_ble_remote.Client.Inventory.{Database, inventory_gatt_database}
use esphome_ble_remote.Client.Reads.{plan_reads, start_next_read, is_active}
use esphome_ble_remote.Client.Values.{finish_active_read, data_of}
use esphome_ble_remote.Client.Profile.{build_hid_profiles, start_protocol_mode_write}
use esphome_ble_remote.Client.Subscribe.{
  start_next_subscription, handle_registration_result, write_current_cccd, handle_cccd_result,
}
use esphome_ble_remote.Client.Queue.{Notification, enqueue_input_report}
use esphome_ble_remote.Client.Events.{format_value}
use esphome_ble_remote.Client.Sampling.{process_input_report, update_sampling_window}

-- The events that the handler acts on, with what it reads of them; an event with a null `param` or
-- of another interface is `other_evt`. `own` is the comparison of the
-- event's connection or address with the component's.
pub data GattcEvent : Type 0 where
  connect_evt disconnect_evt srvc_chg_evt : Bool → GattcEvent
  search_cmpl_evt : Bool → Bool → GattcEvent
  read_evt : Bool → ℕ → Bool → Payload → GattcEvent
  reg_for_notify_evt : ℕ → Bool → GattcEvent
  write_descr_evt : Bool → ℕ → Bool → GattcEvent
  notify_evt : Bool → Notification → GattcEvent
  congest_evt queue_full_evt : Bool → Bool → GattcEvent
  other_evt : GattcEvent

unfoldable pub request_rediscovery : BleClientHid → BleClientHid
request_rediscovery c = record c { rediscovery_requested = true }

abbrev pub is_handle_of : ℕ → Option GattReadOperation → Bool
is_handle_of handle none = false
is_handle_of handle (some operation) = operation.handle == handle

unfoldable pub on_battery : Notification → BleClientHid → BleClientHid
on_battery n c =
    if is_invalid n.value || payload_length n.value == 0
    then c
    else if c.has_battery_sensor
    then perform (publish_battery (get_or (data_of n.value) 0 0)) c
    else c

-- `log_raw_notification_` takes the sequence number.
unfoldable pub on_notification : Platform → Notification → BleClientHid → BleClientHid
unfolding request_rediscovery on_battery enqueue_input_report
on_notification p n c =
    let c1 = record c { next_seq_id = u64 (c.next_seq_id + 1) } in
    if c.service_changed_handles n.handle
    then request_rediscovery c1
    else if c.battery_handles n.handle
    then on_battery n c1
    else if c.hid_report_handles n.handle
    then enqueue_input_report p n c.next_seq_id c1
    else c1

unfoldable pub gattc_event_handler : Platform → GattcEvent → BleClientHid → BleClientHid
unfolding reset_connection_state transition mark_degraded finalize_setup finish_active_read
    handle_registration_result handle_cccd_result on_notification request_rediscovery
gattc_event_handler p (connect_evt own) c =
    if own
    then perform request_encryption (transition p waiting_for_discovery (reset_connection_state c))
    else c
gattc_event_handler p (disconnect_evt own) c =
    if own
    then transition p disconnected
        (reset_connection_state (perform (status_set_warning (codes "Disconnected")) c))
    else c
gattc_event_handler p (srvc_chg_evt own) c = if own then request_rediscovery c else c
gattc_event_handler p (search_cmpl_evt own success) c =
    if not own
    then c
    else if success
    then transition p inventory c
    else finalize_setup p (mark_degraded (codes "GATT service discovery failed") c)
gattc_event_handler p (read_evt own handle success value) c =
    if own && is_handle_of handle c.active_read then finish_active_read p success value c else c
gattc_event_handler p (reg_for_notify_evt handle success) c =
    handle_registration_result p handle success c
gattc_event_handler p (write_descr_evt own handle success) c =
    if own then handle_cccd_result p handle success c else c
gattc_event_handler p (notify_evt own n) c = if own then on_notification p n c else c
gattc_event_handler p (congest_evt own congested) c =
    if own then record c { congested = congested } else c
gattc_event_handler p (queue_full_evt own is_full) c =
    if own then record c { congested = is_full } else c
gattc_event_handler p other_evt c = c

unfoldable pub rediscover : BleClientHid → BleClientHid
rediscover c =
    if c.rediscovery_requested
    then perform disconnect (record c { rediscovery_requested = false })
    else c

unfoldable pub run_inventory : Platform → Database → BleClientHid → BleClientHid
unfolding inventory_gatt_database mark_degraded finalize_setup transition plan_reads
run_inventory p db c =
    let (c1, found) = inventory_gatt_database db c in
    if not found
    then finalize_setup p (mark_degraded (codes "GATT inventory failed") c1)
    else if length c1.hid_services == 0
    then perform node_established
        (transition p no_hid (perform (status_set_warning (codes "No HID service")) c1))
    else transition p reading (plan_reads p c1)

unfoldable pub await_cccd : Platform → BleClientHid → BleClientHid
unfolding fallback_due write_current_cccd
await_cccd p c =
    if is_active c.active_subscription
    then if fallback_due c.subscription_state (p.millis c.calls)
      then write_current_cccd p (called c)
      else called c
    else c

-- The switch on the phase.
unfoldable pub run_phase : Platform → Database → SetupPhase → BleClientHid → BleClientHid
unfolding run_inventory start_next_read build_hid_profiles start_protocol_mode_write
    start_next_subscription await_cccd
run_phase p db inventory c = run_inventory p db c
run_phase p db reading c = start_next_read p c
run_phase p db building_profile c = start_protocol_mode_write p (build_hid_profiles c)
run_phase p db writing_protocol_mode c = start_protocol_mode_write p c
run_phase p db registering c = start_next_subscription p c
run_phase p db waiting_for_cccd c = await_cccd p c
run_phase p db _ c = c

-- The loop over the queue: `left` more reports, while the time lasts.
unfoldable pub process_queue : Platform → ℕ → ℕ → BleClientHid → Option BleClientHid
unfolding process_input_report format_value
process_queue p zero started c = some c
process_queue p (suc left) started c = elim c.pending_reports [
  | [] ↦ some c
  | report ∷ rest ↦ elim (ltb (sub_u32 (p.micros c.calls) started) max_processing_time_us) [
    | false ↦ some (called c)
    | true ↦
        elim (process_input_report p report (format_value p report.payload) (record (called c) {
          pending_reports = rest;
          pending_report_bytes = c.pending_report_bytes - length report.payload;
        })) [ none ↦ none | some c1 ↦ process_queue p left started c1 ]
  ]
]

abbrev pub and_then {ℓ} : {A : Type ℓ} → Option A → (A → Option A) → Option A
and_then none f = none
and_then (some a) f = f a

-- The advertisement that `loop` logs first is a part of its own.
unfoldable pub loop : Platform → Database → BleClientHid → Option BleClientHid
unfolding rediscover run_phase handle_phase_timeout update_sampling_window process_queue
loop p db c =
    let c1 = rediscover c in
    let c2 = handle_phase_timeout p (run_phase p db c1.setup_phase c1) in
    and_then (update_sampling_window p c2) (λ c3.
      and_then (process_queue p max_reports_per_loop (p.micros c3.calls) (called c3))
        (λ c4. update_sampling_window p c4))
