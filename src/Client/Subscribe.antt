-- ===== src/Client/Subscribe.antt =====
-- The subscriptions of the set-up (plan_subscriptions_ to handle_cccd_result_ of
-- components/ble_client_hid/ble_client_hid.cpp).
pub mod Sound
use esphome_ble_remote.Prelude.{
  ℕ, ◌+◌, Bool, true, false, ◌&&◌, ◌||◌, not, Option, none, some, List, [], ◌∷◌, ◌++◌, leb, ◌==◌,
  if◌then◌else◌, length,
}
use esphome_ble_remote.Prelude.Words.{test_bit}
use esphome_ble_remote.Prelude.Text.{Text, codes}
use esphome_ble_remote.Subscription.{
  SubscriptionDecision, unmatched, wait_for_cccd, retry_cccd, complete, failed, begin,
  registration_result, own_cccd_write_attempted, cccd_result,
}
use esphome_ble_remote.Client.Uuids.{
  uuid_battery_service, uuid_battery_level, uuid_gatt_service, uuid_service_changed,
  uuid_hid_service, uuid_hid_report, uuid_boot_keyboard_input, uuid_boot_mouse_input, uuid_cccd,
}
use esphome_ble_remote.Client.Limits.{max_subscriptions, cccd_fallback_delay_ms}
use esphome_ble_remote.Client.Names.{registering, waiting_for_cccd}
use esphome_ble_remote.Client.Gatt.{
  GattServiceInfo, GattCharacteristicInfo, is_uuid16, short_uuid, find_descriptor,
}
use esphome_ble_remote.Client.State.{
  Platform, BleClientHid, SubscriptionInfo, called, perform, register_notify, write_cccd,
  insert_handle, operation_succeeded, operation_failed,
}
use esphome_ble_remote.Client.Setup.{
  transition, mark_degraded, note_failure, finalize_setup, drop_subscription,
}
use esphome_ble_remote.Client.Reads.{is_forensic, is_active}

abbrev pub is_battery : GattServiceInfo → GattCharacteristicInfo → Bool
is_battery service characteristic =
    is_uuid16 service.uuid uuid_battery_service
    && short_uuid characteristic.uuid == uuid_battery_level

abbrev pub is_service_changed : GattServiceInfo → GattCharacteristicInfo → Bool
is_service_changed service characteristic =
    is_uuid16 service.uuid uuid_gatt_service
    && short_uuid characteristic.uuid == uuid_service_changed

abbrev pub is_report_uuid : ℕ → Bool
is_report_uuid uuid =
    uuid == uuid_hid_report || uuid == uuid_boot_keyboard_input || uuid == uuid_boot_mouse_input

abbrev pub is_hid : GattServiceInfo → GattCharacteristicInfo → Bool
is_hid service characteristic =
    is_uuid16 service.uuid uuid_hid_service && is_report_uuid (short_uuid characteristic.uuid)

unfoldable pub subscription_of : GattServiceInfo → GattCharacteristicInfo → SubscriptionInfo
unfolding find_descriptor is_uuid16
subscription_of service characteristic = record {
  characteristic_handle = characteristic.handle;
  cccd_handle = elim (find_descriptor uuid_cccd characteristic.descriptors) [
    | none ↦ 0
    | some cccd ↦ cccd.handle
  ];
  service_instance = service.instance_;
  properties = characteristic.properties;
  required = is_hid service characteristic;
}

unfoldable pub wants_subscription :
    Platform → GattServiceInfo → GattCharacteristicInfo → BleClientHid → Bool
unfolding is_uuid16
wants_subscription p service characteristic c =
    (test_bit characteristic.properties p.bit_notify
      || test_bit characteristic.properties p.bit_indicate)
    && (is_battery service characteristic
        || is_service_changed service characteristic
        || is_hid service characteristic
        || is_forensic c.discovery_mode)

unfoldable pub add_subscription :
    GattServiceInfo → GattCharacteristicInfo → BleClientHid → BleClientHid
unfolding subscription_of is_uuid16
add_subscription service characteristic c = record c {
  subscription_queue = c.subscription_queue ++ subscription_of service characteristic ∷ [];
  battery_handles =
      if is_battery service characteristic
      then insert_handle characteristic.handle c.battery_handles
      else c.battery_handles;
  service_changed_handles =
      if is_service_changed service characteristic
      then insert_handle characteristic.handle c.service_changed_handles
      else c.service_changed_handles;
}

-- The `break` at the limit leaves the characteristics of this service.
unfoldable pub subscribe_characteristics :
    Platform → GattServiceInfo → List GattCharacteristicInfo → BleClientHid → BleClientHid
unfolding wants_subscription add_subscription mark_degraded
subscribe_characteristics p service [] c = c
subscribe_characteristics p service (characteristic ∷ characteristics) c =
    elim (wants_subscription p service characteristic c) [
      | false ↦ subscribe_characteristics p service characteristics c
      | true ↦ elim (leb max_subscriptions (length c.subscription_queue)) [
        | true ↦ mark_degraded (codes "subscription limit exceeded") c
        | false ↦
            subscribe_characteristics p service characteristics
              (add_subscription service characteristic c)
      ]
    ]

unfoldable pub subscribe_services : Platform → List GattServiceInfo → BleClientHid → BleClientHid
unfolding subscribe_characteristics
subscribe_services p [] c = c
subscribe_services p (service ∷ services) c =
    subscribe_services p services (subscribe_characteristics p service service.characteristics c)

unfoldable pub plan_subscriptions : Platform → BleClientHid → BleClientHid
unfolding subscribe_services
plan_subscriptions p c = subscribe_services p c.services (record c { subscription_queue = [] })

-- The subscription that is taken from the queue.
unfoldable pub start_subscription :
    Platform → SubscriptionInfo → List SubscriptionInfo → BleClientHid → BleClientHid
unfolding begin note_failure drop_subscription
start_subscription p subscription rest c =
    let c1 = record c {
      subscription_queue = rest;
      active_subscription = some subscription;
      subscription_state = begin subscription.characteristic_handle subscription.cccd_handle;
    } in
    let c2 = perform (register_notify subscription.characteristic_handle) (called c1) in
    if subscription.cccd_handle == 0
    then drop_subscription
        (note_failure subscription.required (codes "required notification has no CCCD") c1)
    else if p.register_for_notify c.calls subscription.characteristic_handle
    then c2
    else drop_subscription
        (note_failure subscription.required (codes "required notification registration failed") c2)

unfoldable pub start_next_subscription : Platform → BleClientHid → BleClientHid
unfolding start_subscription finalize_setup
start_next_subscription p c =
    if is_active c.active_subscription || c.congested then c else elim c.subscription_queue [
      | [] ↦ finalize_setup p c
      | subscription ∷ rest ↦ start_subscription p subscription rest c
    ]

-- A subscription that has failed makes way for the next.
unfoldable pub fail_subscription : Platform → Bool → Text → BleClientHid → BleClientHid
unfolding transition drop_subscription note_failure
fail_subscription p required reason c =
    transition p registering (drop_subscription (note_failure required reason c))

unfoldable pub handle_registration_result : Platform → ℕ → Bool → BleClientHid → BleClientHid
unfolding registration_result transition fail_subscription
handle_registration_result p handle success c =
    let (state, decision) =
      registration_result c.subscription_state handle success (p.millis c.calls)
        cccd_fallback_delay_ms in
    let c1 = record (called c) { subscription_state = state } in
    elim c.active_subscription [
      | none ↦ c1
      | some subscription ↦ elim decision [
        | unmatched ↦ c1
        | failed ↦
            fail_subscription p subscription.required
              (codes "required notification registration failed") c1
        | _ ↦ transition p waiting_for_cccd c1
      ]
    ]

unfoldable pub write_current_cccd : Platform → BleClientHid → BleClientHid
unfolding own_cccd_write_attempted fail_subscription
write_current_cccd p c = elim c.active_subscription [
  | none ↦ c
  | some subscription ↦
      let value = if test_bit subscription.properties p.bit_notify then 1 else 2 in
      let c1 = perform (write_cccd subscription.cccd_handle value) (
        called (record c { subscription_state = own_cccd_write_attempted c.subscription_state })) in
      if p.write_char_descr c.calls subscription.cccd_handle
      then c1
      else fail_subscription p subscription.required (codes "required CCCD write failed") c1
]

unfoldable pub handle_cccd_result : Platform → ℕ → Bool → BleClientHid → BleClientHid
unfolding cccd_result transition fail_subscription write_current_cccd drop_subscription
    operation_succeeded
handle_cccd_result p handle success c =
    let (state, decision) = cccd_result c.subscription_state handle success in
    let c1 = record c { subscription_state = state } in
    elim c.active_subscription [
      | none ↦ c1
      | some subscription ↦ elim decision [
        | unmatched ↦ c1
        | complete ↦ transition p registering (drop_subscription (operation_succeeded c1))
        | retry_cccd ↦ write_current_cccd p c1
        | _ ↦ fail_subscription p subscription.required (codes "required CCCD write failed") c1
      ]
    ]
