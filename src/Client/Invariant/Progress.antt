-- ===== src/Client/Invariant/Progress.antt =====
-- The rank of the phases in a round of loop (components/ble_client_hid/ble_client_hid.cpp).
use esphome_ble_remote.Prelude.{
  ℕ, ◌≤◌, ◌≡◌, refl, sym, ap, ◌∙◌, Bool, true, false, not, ◌||◌, [], some, arith, inl, inr,
  if◌then◌else◌, List-cases, length, ◌==◌, eq_of_some, ◌++◌,
}
use esphome_ble_remote.Prelude.Text.{codes}
use esphome_ble_remote.Client.Limits.{phase_timeout_ms}
use esphome_ble_remote.Client.Names.{
  SetupPhase, disconnected, waiting_for_discovery, inventory, reading, building_profile,
  writing_protocol_mode, registering, waiting_for_cccd, ready, degraded, no_hid, elapsed,
  phase_name,
}
use esphome_ble_remote.Client.State.{
  Platform, BleClientHid, called, operation_succeeded, operation_failed, perform,
  status_set_warning, node_established,
}
use esphome_ble_remote.Client.Setup.{
  transition, mark_degraded, note_failure, finalize_setup, drop_subscription, leave_phase,
  handle_phase_timeout, is_settled,
}
use esphome_ble_remote.Client.Inventory.{Database, inventory_gatt_database}
use esphome_ble_remote.Client.Reads.{plan_reads, start_next_read, is_active}
use esphome_ble_remote.Client.Reads.Held.{start_read-held}
use esphome_ble_remote.Client.Profile.{
  build_hid_profiles, start_protocol_mode_write, write_next, is_building, planned_writes,
}
use esphome_ble_remote.Client.Profile.Held.{build_hid_profiles-held}
use esphome_ble_remote.Client.Subscribe.{
  start_next_subscription, start_subscription, write_current_cccd, fail_subscription,
}
use esphome_ble_remote.Client.Handler.{rediscover, run_inventory, await_cccd, run_phase, loop}
use esphome_ble_remote.Client.Invariant.Loop.{loop-Succeeds}
use esphome_ble_remote.Client.Invariant.Reach.{Reach, Reach-IsSound}

-- How far a set-up has come in a phase. The set-up alternates between the two phases of the
-- subscriptions, one subscription after the other.
abbrev pub rank : SetupPhase → ℕ
rank disconnected = 0
rank waiting_for_discovery = 1
rank inventory = 2
rank reading = 3
rank building_profile = 4
rank writing_protocol_mode = 5
rank registering = 6
rank waiting_for_cccd = 6
rank ready = 7
rank degraded = 7
rank no_hid = 7

abbrev progress : BleClientHid → ℕ
progress c = rank c.setup_phase

finalize_setup_lem : (p : Platform) (c : BleClientHid) → progress (finalize_setup p c) ≡ 7
unfolding finalize_setup transition
finalize_setup_lem p c = ground arith

if_lem :
    (test : Bool) (n : ℕ) (c d : BleClientHid)
    → n ≤ progress c
    → n ≤ progress d
    → n ≤ progress (if test then c else d)
if_lem true n c d h k = h
if_lem false n c d h k = k

finalized : (p : Platform) (n : ℕ) (c : BleClientHid) → n ≤ 7 → n ≤ progress (finalize_setup p c)
finalized p n c h = omega (arith, h, finalize_setup_lem p c)

run_inventory_lem :
    (p : Platform) (db : Database) (c : BleClientHid) → 2 ≤ progress (run_inventory p db c)
unfolding run_inventory transition
run_inventory_lem p db c =
    let c1 = (inventory_gatt_database db c).0 in
    let warned = perform (status_set_warning (codes "No HID service")) c1 in
    let failed = mark_degraded (codes "GATT inventory failed") c1 in
    if_lem (not (inventory_gatt_database db c).1) 2 (finalize_setup p failed) _
      (finalized p 2 failed (omega arith))
      (if_lem (length c1.hid_services == 0) 2
        (perform node_established (transition p no_hid warned))
        (transition p reading (plan_reads p c1)) (omega arith) (omega arith))

start_next_read_lem :
    (p : Platform) (c : BleClientHid) → c.setup_phase ≡ reading → 3 ≤ progress (start_next_read p c)
unfolding start_next_read transition
start_next_read_lem p c e =
    let now = ap rank e in
    if_lem (is_active c.active_read || c.congested) 3 c _ (omega (arith, now))
      (elim (List-cases c.read_queue) [
        | inl empty ↦ rw empty (omega arith)
        | inr (operation, rest, there) ↦
            let same = ap (λ h. rank h.0.setup_phase) (start_read-held p operation rest c) in
            rw there (omega (arith, now, same))
      ])

write_next_lem :
    (p : Platform) (c : BleClientHid) (n : ℕ)
    → n ≤ 6
    → n ≤ progress c
    → n ≤ progress (write_next p c)
unfolding write_next transition operation_succeeded mark_degraded operation_failed
write_next_lem p c n small h = elim (List-cases c.protocol_write_handles) [
  | inl empty ↦ rw (write_next, empty) (omega (arith, small))
  | inr (handle, rest, there) ↦ rw (write_next, there) (if_lem _ n _ _ h h)
]

write_lem :
    (p : Platform) (c : BleClientHid) (n : ℕ)
    → n ≤ 5
    → n ≤ progress c
    → n ≤ progress (start_protocol_mode_write p c)
unfolding start_protocol_mode_write transition
write_lem p c n small h =
    let c1 = record c {
      protocol_write_handles = planned_writes c.protocol_mode_policy c.hid_services;
    } in
    let c2 = if is_building c.setup_phase then transition p writing_protocol_mode c1 else c in
    write_next_lem p c2 n (omega (arith, small)) (
      if_lem (is_building c.setup_phase) n (transition p writing_protocol_mode c1) c
        (omega (arith, small)) h)

start_next_subscription_lem :
    (p : Platform) (c : BleClientHid) → 6 ≤ progress c → 6 ≤ progress (start_next_subscription p c)
unfolding start_next_subscription start_subscription finalize_setup transition note_failure
    mark_degraded operation_failed drop_subscription
start_next_subscription_lem p c h = ground (arith, h)

await_cccd_lem : (p : Platform) (c : BleClientHid) → 6 ≤ progress c → 6 ≤ progress (await_cccd p c)
unfolding await_cccd write_current_cccd fail_subscription transition note_failure mark_degraded
    operation_failed drop_subscription
await_cccd_lem p c h = ground (arith, h)

run_phase_lem :
    (p : Platform) (db : Database) (phase : SetupPhase) (c : BleClientHid)
    → c.setup_phase ≡ phase
    → rank phase ≤ progress (run_phase p db phase c)
unfolding run_phase
run_phase_lem p db inventory c e = run_inventory_lem p db c
run_phase_lem p db reading c e = start_next_read_lem p c e
run_phase_lem p db building_profile c e =
    let same = ap (λ h. rank h.0.setup_phase) (build_hid_profiles-held c) in
    write_lem p (build_hid_profiles c) 4 (omega arith) (omega (arith, same, ap rank e))
run_phase_lem p db writing_protocol_mode c e =
    write_lem p c 5 (omega arith) (omega (arith, ap rank e))
run_phase_lem p db registering c e = start_next_subscription_lem p c (omega (arith, ap rank e))
run_phase_lem p db waiting_for_cccd c e = await_cccd_lem p c (omega (arith, ap rank e))
run_phase_lem p db disconnected c e = omega (arith, ap rank e)
run_phase_lem p db waiting_for_discovery c e = omega (arith, ap rank e)
run_phase_lem p db ready c e = omega (arith, ap rank e)
run_phase_lem p db degraded c e = omega (arith, ap rank e)
run_phase_lem p db no_hid c e = omega (arith, ap rank e)

leave_phase_lem :
    (p : Platform) (phase : SetupPhase) (c : BleClientHid)
    → rank phase ≤ progress (leave_phase p phase c)
unfolding leave_phase transition
leave_phase_lem p reading c = omega arith
leave_phase_lem p disconnected c = finalized p 0 c (omega arith)
leave_phase_lem p waiting_for_discovery c = finalized p 1 c (omega arith)
leave_phase_lem p inventory c = finalized p 2 c (omega arith)
leave_phase_lem p building_profile c = finalized p 4 c (omega arith)
leave_phase_lem p writing_protocol_mode c = finalized p 5 c (omega arith)
leave_phase_lem p registering c =
    finalized p 6 (record (drop_subscription c) { subscription_queue = [] }) (omega arith)
leave_phase_lem p waiting_for_cccd c =
    finalized p 6 (record (drop_subscription c) { subscription_queue = [] }) (omega arith)
leave_phase_lem p ready c = finalized p 7 c (omega arith)
leave_phase_lem p degraded c = finalized p 7 c (omega arith)
leave_phase_lem p no_hid c = finalized p 7 c (omega arith)

timeout_lem : (p : Platform) (c : BleClientHid) → progress c ≤ progress (handle_phase_timeout p c)
unfolding handle_phase_timeout
timeout_lem p c = if_lem (is_settled c.setup_phase) (progress c) c _ (omega arith) (
    if_lem (not (elapsed (p.millis c.calls) c.phase_started_ms phase_timeout_ms)) (progress c)
      (called c) _ (omega arith)
      (leave_phase_lem p c.setup_phase
        (mark_degraded (codes "timeout in " ++ phase_name c.setup_phase) (called c))))

-- In every reachable state, a round of `loop` never lowers the rank of the phase. The ranks go up in
-- the order disconnected, waiting for discovery, inventory, reading, profile, protocol mode,
-- subscriptions, end. REGISTERING and WAITING_FOR_CCCD are the one rank of the subscriptions, and
-- READY, DEGRADED and NO_HID that of the end: a round may go from one to another of these.
pub loop-advances :
    (p : Platform) (db : Database) (c d : BleClientHid)
    → Reach p c
    → loop p db c ≡ some d
    → rank c.setup_phase ≤ rank d.setup_phase
unfolding rediscover
loop-advances p db c d reach e =
    let (d', e', _, same) = loop-Succeeds p db c (Reach-IsSound p c reach) in
    let one = eq_of_some d' d (sym e' ∙ e) in
    let c1 = rediscover c in
    let kept : c1.setup_phase ≡ c.setup_phase = ground arith in
    omega (
      arith,
      ap progress one,
      ap rank same,
      ap rank kept,
      run_phase_lem p db c1.setup_phase c1 refl,
      timeout_lem p (run_phase p db c1.setup_phase c1),
    )
