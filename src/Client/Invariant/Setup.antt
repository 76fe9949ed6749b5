-- ===== src/Client/Invariant/Setup.antt =====
-- The steps of the set-up keep the invariant (components/ble_client_hid/ble_client_hid.cpp).
use esphome_ble_remote.Prelude.{
  ◌≡◌, refl, ap, subst, [], ◌++◌, arith, false, ◌||◌, not, none, length, ◌==◌, inl, inr, List-cases,
}
use esphome_ble_remote.Prelude.Text.{codes}
use esphome_ble_remote.Subscription.{reset, fallback_due}
use esphome_ble_remote.Client.Limits.{phase_timeout_ms}
use esphome_ble_remote.Client.Names.{
  SetupPhase, disconnected, waiting_for_discovery, inventory, reading, building_profile,
  writing_protocol_mode, registering, waiting_for_cccd, ready, degraded, no_hid, phase_name,
  elapsed,
}
use esphome_ble_remote.Client.State.{
  Platform, BleClientHid, called, perform, disconnect, status_set_warning, node_established,
  write_protocol_mode, operation_succeeded,
}
use esphome_ble_remote.Client.Setup.{
  transition, mark_degraded, finalize_setup, drop_subscription, leave_phase, handle_phase_timeout,
  is_settled,
}
use esphome_ble_remote.Client.Inventory.{Database, inventory_gatt_database}
use esphome_ble_remote.Client.Inventory.Held.{inventory-Scans}
use esphome_ble_remote.Client.Reads.{plan_reads, start_next_read, start_read, is_active}
use esphome_ble_remote.Client.Reads.Held.{plan_reads-held, start_read-held}
use esphome_ble_remote.Client.Profile.{
  build_hid_profiles, start_protocol_mode_write, write_next, is_building, planned_writes,
  protocol_value,
}
use esphome_ble_remote.Client.Profile.Held.{build_hid_profiles-held}
use esphome_ble_remote.Client.Subscribe.{plan_subscriptions, write_current_cccd}
use esphome_ble_remote.Client.Subscribe.Sound.{is_waiting}
use esphome_ble_remote.Client.Handler.{rediscover, run_inventory, await_cccd, run_phase}
use esphome_ble_remote.Client.Invariant.{
  IsSound, kept-IsSound, held-IsSound, transition-IsSound, mark_degraded-IsSound, perform-IsSound,
  if-IsSound, finalize_setup-IsSound,
}
use esphome_ble_remote.Client.Invariant.Subscriptions.{
  plan_subscriptions-IsSound, start_next_subscription-IsSound, write_current_cccd-IsSound,
}

pub rediscover-IsSound : (c : BleClientHid) → IsSound c → IsSound (rediscover c)
unfolding rediscover
rediscover-IsSound c sound =
    let c1 = record c { rediscovery_requested = false } in
    if-IsSound c.rediscovery_requested (perform disconnect c1) c
      (held-IsSound c (perform disconnect c1) refl sound) sound

run_inventory-IsSound :
    (p : Platform) (db : Database) (c : BleClientHid) → IsSound c → IsSound (run_inventory p db c)
unfolding run_inventory
run_inventory-IsSound p db c sound =
    let c1 = (inventory_gatt_database db c).0 in
    let found = (inventory_gatt_database db c).1 in
    let (same, maps) = inventory-Scans db c in
    let sound1 = kept-IsSound c c1 same maps sound in
    let warned = perform (status_set_warning (codes "No HID service")) c1 in
    let failed = mark_degraded (codes "GATT inventory failed") c1 in
    if-IsSound (not found) (finalize_setup p failed) _
      (finalize_setup-IsSound p failed (mark_degraded-IsSound _ c1 sound1))
      (if-IsSound (length c1.hid_services == 0) _ (transition p reading (plan_reads p c1))
        (perform-IsSound node_established (transition p no_hid warned)
          (transition-IsSound p no_hid warned refl (perform-IsSound _ c1 sound1)))
        (transition-IsSound p reading (plan_reads p c1) refl
          (held-IsSound c1 (plan_reads p c1) (plan_reads-held p c1) sound1)))

start_next_read-IsSound :
    (p : Platform) (c : BleClientHid) → IsSound c → IsSound (start_next_read p c)
unfolding start_next_read
start_next_read-IsSound p c sound =
    if-IsSound (is_active c.active_read || c.congested) c _ sound (elim (List-cases c.read_queue) [
      | inl empty ↦ rw empty (transition-IsSound p building_profile c refl sound)
      | inr (operation, rest, e) ↦ rw e (
          held-IsSound c (start_read p operation rest c) (start_read-held p operation rest c) sound)
    ])

write_next-IsSound : (p : Platform) (c : BleClientHid) → IsSound c → IsSound (write_next p c)
unfolding write_next operation_succeeded
write_next-IsSound p c sound = elim (List-cases c.protocol_write_handles) [
  | inl empty ↦
      rw (write_next, empty)
        (transition-IsSound p registering (plan_subscriptions p c) refl
          (plan_subscriptions-IsSound p c sound))
  | inr (handle, rest, e) ↦
      let c1 =
        perform (write_protocol_mode handle (protocol_value c.protocol_mode_policy))
          (called (record c { protocol_write_handles = rest })) in
      let sound1 = held-IsSound c c1 refl sound in
      rw (write_next, e)
        (if-IsSound (p.write_char c.calls handle) (operation_succeeded c1) _
          (held-IsSound c1 (operation_succeeded c1) refl sound1)
          (mark_degraded-IsSound (codes "Protocol Mode write failed") c1 sound1))
]

start_protocol_mode_write-IsSound :
    (p : Platform) (c : BleClientHid) → IsSound c → IsSound (start_protocol_mode_write p c)
unfolding start_protocol_mode_write
start_protocol_mode_write-IsSound p c sound =
    let c1 = record c {
      protocol_write_handles = planned_writes c.protocol_mode_policy c.hid_services;
    } in
    write_next-IsSound p _ (
      if-IsSound (is_building c.setup_phase) (transition p writing_protocol_mode c1) c
        (transition-IsSound p writing_protocol_mode c1 refl (held-IsSound c c1 refl sound)) sound)

await_cccd-IsSound : (p : Platform) (c : BleClientHid) → IsSound c → IsSound (await_cccd p c)
unfolding await_cccd
await_cccd-IsSound p c sound =
    let sound1 = held-IsSound c (called c) refl sound in
    if-IsSound (is_active c.active_subscription) _ c
      (if-IsSound (fallback_due c.subscription_state (p.millis c.calls))
        (write_current_cccd p (called c)) (called c)
        (write_current_cccd-IsSound p (called c) sound1) sound1)
      sound

-- The step of a phase, in that phase.
pub run_phase-IsSound :
    (p : Platform) (db : Database) (phase : SetupPhase) (c : BleClientHid)
    → c.setup_phase ≡ phase
    → IsSound c
    → IsSound (run_phase p db phase c)
unfolding run_phase
run_phase-IsSound p db disconnected c e sound = sound
run_phase-IsSound p db waiting_for_discovery c e sound = sound
run_phase-IsSound p db ready c e sound = sound
run_phase-IsSound p db degraded c e sound = sound
run_phase-IsSound p db no_hid c e sound = sound
run_phase-IsSound p db inventory c e sound = run_inventory-IsSound p db c sound
run_phase-IsSound p db reading c e sound = start_next_read-IsSound p c sound
run_phase-IsSound p db building_profile c e sound =
    start_protocol_mode_write-IsSound p (build_hid_profiles c)
      (held-IsSound c (build_hid_profiles c) (build_hid_profiles-held c) sound)
run_phase-IsSound p db writing_protocol_mode c e sound = start_protocol_mode_write-IsSound p c sound
run_phase-IsSound p db registering c e sound =
    start_next_subscription-IsSound p c (ap is_waiting e) sound
run_phase-IsSound p db waiting_for_cccd c e sound = await_cccd-IsSound p c sound

-- The end of the set-up is the same from any phase.
finalize_setup-phase :
    (p : Platform) (phase : SetupPhase) (c : BleClientHid)
    → finalize_setup p (record c { setup_phase = phase }) ≡ finalize_setup p c
unfolding finalize_setup transition
finalize_setup-phase p phase c = ground arith

given_up-IsSound :
    (p : Platform) (c : BleClientHid)
    → IsSound c
    → IsSound (finalize_setup p (record (drop_subscription c) { subscription_queue = [] }))
unfolding drop_subscription reset
given_up-IsSound p c sound =
    let dropped = record (drop_subscription c) { subscription_queue = [] } in
    subst IsSound (finalize_setup-phase p registering dropped) (
      finalize_setup-IsSound p (record dropped { setup_phase = registering })
        (record {
          attempt = record { tracks = refl; waits = refl };
          queue = record {
            counted = sound.queue.counted;
            bytes = sound.queue.bytes;
            reports = sound.queue.reports;
          };
          samples = sound.samples;
          subscriptions = omega arith;
          maps = sound.maps;
        }))

leave_phase-IsSound :
    (p : Platform) (phase : SetupPhase) (c : BleClientHid)
    → IsSound c
    → IsSound (leave_phase p phase c)
unfolding leave_phase
leave_phase-IsSound p reading c sound =
    let c1 = record c { active_read = none; read_queue = [] } in
    transition-IsSound p building_profile c1 refl (held-IsSound c c1 refl sound)
leave_phase-IsSound p registering c sound = given_up-IsSound p c sound
leave_phase-IsSound p waiting_for_cccd c sound = given_up-IsSound p c sound
leave_phase-IsSound p disconnected c sound = finalize_setup-IsSound p c sound
leave_phase-IsSound p waiting_for_discovery c sound = finalize_setup-IsSound p c sound
leave_phase-IsSound p inventory c sound = finalize_setup-IsSound p c sound
leave_phase-IsSound p building_profile c sound = finalize_setup-IsSound p c sound
leave_phase-IsSound p writing_protocol_mode c sound = finalize_setup-IsSound p c sound
leave_phase-IsSound p ready c sound = finalize_setup-IsSound p c sound
leave_phase-IsSound p degraded c sound = finalize_setup-IsSound p c sound
leave_phase-IsSound p no_hid c sound = finalize_setup-IsSound p c sound

pub handle_phase_timeout-IsSound :
    (p : Platform) (c : BleClientHid) → IsSound c → IsSound (handle_phase_timeout p c)
unfolding handle_phase_timeout
handle_phase_timeout-IsSound p c sound =
    let late = mark_degraded (codes "timeout in " ++ phase_name c.setup_phase) (called c) in
    let sound1 = held-IsSound c (called c) refl sound in
    if-IsSound (is_settled c.setup_phase) c _ sound (
      if-IsSound (not (elapsed (p.millis c.calls) c.phase_started_ms phase_timeout_ms)) (called c) _
        sound1
        (leave_phase-IsSound p c.setup_phase late (mark_degraded-IsSound _ (called c) sound1)))
