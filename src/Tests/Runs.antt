-- ===== src/Tests/Runs.antt =====
-- Runs of the component of components/ble_client_hid/ble_client_hid.cpp, and look-ups in the tables of
-- usage_data.cpp, at concrete inputs.
use esphome_ble_remote.Prelude.Int.{pos}
use esphome_ble_remote.Schema.Usage.{sum, passthrough, bytes, HidReportItemValue}
use esphome_ble_remote.Descriptor.Parse.{parse_report_map_data}
use esphome_ble_remote.Client.Frame.{core}
use esphome_ble_remote.Client.Maps.{MapsAreSound}
use esphome_ble_remote.Client.Values.Maps.{parsed-MapExists}
use esphome_ble_remote.Client.Inventory.{new_context}
use esphome_ble_remote.Event.{HidEvent}
use esphome_ble_remote.Client.Events.{make_hid_event}
use esphome_ble_remote.Client.Events.Total.{fired}
use esphome_ble_remote.Client.Events.Ready.{SampleIsSound, make_hid_event-IsReady}
use esphome_ble_remote.Client.Sampling.Order.{process_decoded_values-passes}
use esphome_ble_remote.Client.Sampling.Window.{held_back}
use esphome_ble_remote.Client.Invariant.Progress.{rank, loop-advances}
use esphome_ble_remote.Prelude.{◌≤◌, ◌++◌, Option, true, false, arith}
use esphome_ble_remote.Prelude.{ℕ, ◌+◌, ◌≡◌, ◌↔◌, refl, true, none, some, [], ◌∷◌, map}
use esphome_ble_remote.Prelude.Text.{codes}
use esphome_ble_remote.Schema.Usage.{exact}
use esphome_ble_remote.Subscription.{reset}
use esphome_ble_remote.Buffer.{new_buffer}
use esphome_ble_remote.Tables.{PageRecord, row}
use esphome_ble_remote.Tables.Usages.{usages}
use esphome_ble_remote.Tables.Lookup.{find_usage}
use esphome_ble_remote.Tables.Search.{IsAt}
use esphome_ble_remote.Tables.Rows.{IsPageAt, find_usage-finds}
use esphome_ble_remote.Client.Names.{disconnected}
use esphome_ble_remote.Client.State.{BleClientHid}
use esphome_ble_remote.Client.Events.Total.{Fires}
use esphome_ble_remote.Client.Events.Ready.{emptied-SampleIsSound}
use esphome_ble_remote.Client.Sampling.{process_input_report, process_decoded_values}
use esphome_ble_remote.Client.Sampling.Sound.{process_input_report-Runs}
use esphome_ble_remote.Client.Sampling.Order.{event_of, process_decoded_values-Fires}
use esphome_ble_remote.Client.Inventory.{inventory_gatt_database}
use esphome_ble_remote.Client.Inventory.Bounds.{InventoryIsSound, inventory-InventoryIsSound}
use esphome_ble_remote.Client.Handler.{gattc_event_handler, connect_evt, search_cmpl_evt, loop}
use esphome_ble_remote.Client.Invariant.{IsSound}
use esphome_ble_remote.Client.Invariant.Reach.{IsInitial, event, Reach, start, later, Reach-safe}
use esphome_ble_remote.Tests.Samples.{
  mouse_map, platform, component, wheel, waiting_report, queueing, database,
}

abbrev fresh_start : BleClientHid
fresh_start = component disconnected none reset [] 0

fresh_start-IsInitial : IsInitial fresh_start
unfolding new_buffer
fresh_start-IsInitial = record {
  phase = refl;
  subscription = refl;
  attempt = refl;
  subscriptions = refl;
  reports = refl;
  report_bytes = refl;
  events = refl;
  contexts = refl;
}

-- A connection, and the end of the discovery.
abbrev discovered : BleClientHid
discovered =
    gattc_event_handler platform (search_cmpl_evt true true)
      (gattc_event_handler platform (connect_evt true) fresh_start)

discovered-Reach : Reach platform discovered
discovered-Reach =
    later _ _ (later _ _ (start fresh_start fresh_start-IsInitial) (event (connect_evt true)))
      (event (search_cmpl_evt true true))

Reach-safe_example :
    IsSound discovered × ((d : BleClientHid) × (loop platform database discovered ≡ some d))
Reach-safe_example = Reach-safe platform discovered database discovered-Reach

-- A component that has read the report map of a mouse.
abbrev mapped : BleClientHid
mapped = record queueing {
  hid_services =
      record (new_context 0) { report_map = parse_report_map_data (bytes mouse_map) } ∷ [];
}

process_input_report-Runs_example :
    (d : BleClientHid) × (process_input_report platform waiting_report (codes "01 02 03") mapped
      ≡ some d)
    × (core d ≡ core mapped)
    × SampleIsSound d.sampled_events
    × MapsAreSound d.hid_services
unfolding new_buffer
process_input_report-Runs_example =
    process_input_report-Runs platform waiting_report (codes "01 02 03") mapped
      (emptied-SampleIsSound (new_buffer 16)) (parsed-MapExists mouse_map, tt)

process_decoded_values-Fires_example :
    Fires
      (map
        (event_of platform waiting_report (codes "01 02 03") exact queueing)
        (wheel ∷ wheel ∷ []))
      queueing
      (process_decoded_values platform waiting_report
        (codes "01 02 03")
        exact
        (wheel ∷ wheel ∷ [])
        queueing)
process_decoded_values-Fires_example =
    process_decoded_values-Fires platform waiting_report (codes "01 02 03") exact
      (wheel ∷ wheel ∷ []) queueing refl

find_usage-finds_example : (find_usage 1 0x38 ≡ some (row 0x38 "Wheel" "DV")) ↔ (
    (entry : PageRecord) × (i : ℕ) × (j : ℕ) × IsPageAt 1 i entry
    × IsAt usages
        (λ value. value.id)
        0x38
        entry.first
        (entry.first + entry.count)
        (row 0x38 "Wheel" "DV")
        j)
find_usage-finds_example = find_usage-finds 1 0x38 (row 0x38 "Wheel" "DV")

inventory-InventoryIsSound_example :
    InventoryIsSound (inventory_gatt_database database fresh_start).0
inventory-InventoryIsSound_example = inventory-InventoryIsSound database fresh_start

abbrev unwrap : Option BleClientHid → BleClientHid
unwrap none = fresh_start
unwrap (some d) = d

abbrev after_round : BleClientHid
after_round = unwrap (loop platform database discovered)

returns : loop platform database discovered ≡ some after_round
returns = let (d, e) = (Reach-safe platform discovered database discovered-Reach).1 in rw e refl

loop-advances_example : rank discovered.setup_phase ≤ rank after_round.setup_phase
loop-advances_example =
    loop-advances platform database discovered after_round discovered-Reach returns

-- A component that holds the movement of a wheel back since its first microsecond.
abbrev wheel_event : HidEvent
wheel_event = make_hid_event platform queueing waiting_report (codes "01 02 03") (some wheel) exact

abbrev holding : BleClientHid
holding = record queueing {
  event_sampling_interval_us = 1000;
  sampling_window_active = true;
  sampled_events = record {
    capacity = 16;
    pending =
        record {
          key = record { service_instance = 0; field_id = 8; report_id = 0; report_kind = 1 };
          aggregation = sum;
          value = pos 3;
          raw_value = pos 3;
          event = wheel_event;
        }
        ∷ [];
  };
}

holding-SampleIsSound : SampleIsSound holding.sampled_events
holding-SampleIsSound =
    let ready =
      make_hid_event-IsReady platform queueing waiting_report (codes "01 02 03") wheel exact in
    record {
      buffer = record {
        bounded = omega arith;
        distinct = (tt, tt);
        stamped = (ready.logged.0, tt);
      };
      ready = (ready, tt);
    }

-- A value of the discrete pages, which is passed through.
abbrev key : HidReportItemValue
key = record wheel { aggregation = passthrough }

process_decoded_values-passes_example :
    (d : BleClientHid) × (process_decoded_values platform waiting_report
        (codes "01 02 03")
        exact
        (key ∷ key ∷ [])
        holding
      ≡ some d)
    × (fired d.effects
        ≡ fired holding.effects
          ++ (held_back holding
              ++ map
                  (event_of platform waiting_report (codes "01 02 03") exact holding)
                  (key ∷ key ∷ [])))
    × (held_back d ≡ [])
    × (d.sampling_window_active ≡ false)
process_decoded_values-passes_example =
    process_decoded_values-passes platform waiting_report (codes "01 02 03") exact key (key ∷ [])
      holding refl (refl, (refl, tt)) holding-SampleIsSound
