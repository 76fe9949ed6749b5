-- ===== src/Client/Sampling.antt =====
-- From reports to events (process_input_report_ to flush_sampled_events_ of
-- components/ble_client_hid/ble_client_hid.cpp). `none` is an exception that `at` throws, or the
-- undefined behaviour of the decoder on a report map with a field id out of range.
pub mod Decoding
pub mod Sound
pub mod Window
pub mod Order
use esphome_ble_remote.Prelude.{
  ℕ, Bool, true, false, ◌&&◌, ◌||◌, not, Option, none, some, List, [], ◌∷◌, ◌==◌, if◌then◌else◌,
  length,
}
use esphome_ble_remote.Prelude.Text.{Text}
use esphome_ble_remote.Schema.Usage.{
  HidReportItemValue, HidDecodeStatus, exact, long, schema_missing, Aggregation, passthrough, bytes,
  kind_value, input,
}
use esphome_ble_remote.Event.{HidEvent}
use esphome_ble_remote.Buffer.{Contribution, accumulate, drain, drain_before, is_empty}
use esphome_ble_remote.Boot.{decode}
use esphome_ble_remote.Decode.Report.{parse, Decoded}
use esphome_ble_remote.Client.Uuids.{uuid_boot_keyboard_input, uuid_boot_mouse_input}
use esphome_ble_remote.Client.Names.{elapsed}
use esphome_ble_remote.Client.Gatt.{HidServiceContext, find_hid_context, update_hid_context}
use esphome_ble_remote.Client.State.{Platform, BleClientHid, PendingHidReport, called}
use esphome_ble_remote.Client.Events.{make_hid_event, emit_hid_event, emit_all}

abbrev pub is_passthrough : Aggregation → Bool
is_passthrough passthrough = true
is_passthrough _ = false

unfoldable pub flush_sampled_events : BleClientHid → Option BleClientHid
unfolding drain emit_all
flush_sampled_events c =
    if is_empty c.sampled_events
    then some c
    else let (buffer, events) = drain c.sampled_events in
      emit_all events (record c { sampled_events = buffer })

abbrev start_window : ℕ → BleClientHid → BleClientHid
start_window now c = record c { sampling_window_started_us = now }

abbrev close_window : BleClientHid → BleClientHid
close_window c = record c { sampling_window_active = false }

unfoldable pub update_sampling_window : Platform → BleClientHid → Option BleClientHid
unfolding elapsed flush_sampled_events
update_sampling_window p c =
    let now = p.micros c.calls in
    let c1 = called c in
    if not c.sampling_window_active || c.event_sampling_interval_us == 0
    then some c
    else if not (elapsed now c.sampling_window_started_us c.event_sampling_interval_us)
    then some c1
    else if is_empty c.sampled_events
    then some (close_window c1)
    else elim (flush_sampled_events c1) [ none ↦ none | some c2 ↦ some (start_window now c2) ]

unfoldable pub contribution :
    Platform
    → PendingHidReport
    → Text
    → HidDecodeStatus
    → HidReportItemValue
    → BleClientHid
    → Contribution
unfolding make_hid_event
contribution p report raw status v c = record {
  key = record {
    service_instance = report.source.service_instance;
    field_id = v.field_id;
    report_id = if report.source.has_report_id then report.source.report_id else 0;
    report_kind = kind_value input;
  };
  aggregation = v.aggregation;
  value = v.value;
  raw_value = v.raw_value;
  event = make_hid_event p c report raw (some v) status;
}

-- The second try, after the flush. Its result is only logged.
abbrev retry : Platform → Contribution → BleClientHid → Option BleClientHid
retry p contribution c = elim (accumulate c.sampled_events contribution) [
  | none ↦ none
  | some (buffer, done) ↦
      some (start_window (p.micros c.calls) (called (record c { sampled_events = buffer })))
]

unfoldable pub accumulate_event :
    Platform
    → PendingHidReport
    → Text
    → HidDecodeStatus
    → HidReportItemValue
    → BleClientHid
    → Option BleClientHid
unfolding contribution accumulate flush_sampled_events
accumulate_event p report raw status v c =
    elim (accumulate c.sampled_events (contribution p report raw status v c)) [
      | none ↦ none
      | some (buffer, true) ↦ some (record c { sampled_events = buffer })
      | some (buffer, false) ↦ elim (flush_sampled_events (record c { sampled_events = buffer })) [
        | none ↦ none
        | some c1 ↦ retry p (contribution p report raw status v c1) c1
      ]
    ]

-- The held back events, then the barrier.
unfoldable pub emit_barrier : HidEvent → BleClientHid → Option BleClientHid
unfolding drain_before emit_all
emit_barrier barrier c =
    let (buffer, events) = drain_before c.sampled_events barrier in
    elim (emit_all events (record c { sampled_events = buffer })) [
      | none ↦ none
      | some c1 ↦ some (close_window c1)
    ]

-- What is done with a run of values that are not passed through: held back in a window, or emitted
-- and then the start of one.
pub data RunMode : Type 0 where
  outside emitting accumulating : RunMode

-- A run that ends opens the window that its emission starts.
unfoldable pub end_run : Platform → RunMode → BleClientHid → BleClientHid
end_run p emitting c =
    start_window (p.micros c.calls) (called (record c { sampling_window_active = true }))
end_run p _ c = c

abbrev run_mode : RunMode → Bool → RunMode
run_mode outside true = accumulating
run_mode outside false = emitting
run_mode mode window = mode

abbrev run_step :
    Platform
    → PendingHidReport
    → Text
    → HidDecodeStatus
    → HidReportItemValue
    → RunMode
    → BleClientHid
    → Option BleClientHid
run_step p report raw status v accumulating c = accumulate_event p report raw status v c
run_step p report raw status v _ c =
    emit_hid_event (make_hid_event p c report raw (some v) status) c

-- The loop over the values. `mode` says whether the value before was of a run and which; a run is
-- ended by the first value that is passed through, and by the end.
unfoldable pub process_values :
    Platform
    → PendingHidReport
    → Text
    → HidDecodeStatus
    → List HidReportItemValue
    → RunMode
    → BleClientHid
    → Option BleClientHid
unfolding emit_hid_event make_hid_event emit_barrier accumulate_event end_run
process_values p report raw status [] mode c = some (end_run p mode c)
process_values p report raw status (v ∷ values) mode c = elim (c.event_sampling_interval_us == 0) [
  | true ↦ elim (emit_hid_event (make_hid_event p c report raw (some v) status) c) [
    | none ↦ none
    | some c1 ↦ process_values p report raw status values outside c1
  ]
  | false ↦ elim (is_passthrough v.aggregation) [
    | true ↦
        let c1 = end_run p mode c in
        elim (emit_barrier (make_hid_event p c1 report raw (some v) status) c1) [
          | none ↦ none
          | some c2 ↦ process_values p report raw status values outside c2
        ]
    | false ↦
        let mode1 = run_mode mode c.sampling_window_active in
        elim (run_step p report raw status v mode1 c) [
          | none ↦ none
          | some c1 ↦ process_values p report raw status values mode1 c1
        ]
  ]
]

unfoldable pub process_decoded_values :
    Platform
    → PendingHidReport
    → Text
    → HidDecodeStatus
    → List HidReportItemValue
    → BleClientHid
    → Option BleClientHid
unfolding update_sampling_window process_values
process_decoded_values p report raw status values c = elim (update_sampling_window p c) [
  | none ↦ none
  | some c1 ↦ process_values p report raw status values outside c1
]

abbrev is_whole : HidDecodeStatus → Bool
is_whole exact = true
is_whole long = true
is_whole _ = false

abbrev missing_schema : Decoded
missing_schema = record { values = []; recognized = false; status = schema_missing }

-- A report of a service that has a report map, decoded by it.
unfoldable pub decode_mapped :
    PendingHidReport → HidServiceContext → BleClientHid → Option (BleClientHid × Decoded)
unfolding parse
decode_mapped report context c = elim context.report_map [
  | none ↦ some (c, missing_schema)
  | some m ↦ elim (parse m report.source (bytes report.payload)) [
    | none ↦ none
    | some (m1, decoded) ↦ some (
      record c {
        hid_services =
            update_hid_context report.source.service_instance
              (λ context. record context { report_map = some m1 }) c.hid_services;
      },
      decoded,
    )
  ]
]

unfoldable pub decode_report : PendingHidReport → BleClientHid → Option (BleClientHid × Decoded)
unfolding decode decode_mapped
decode_report report c =
    let uuid = report.source.characteristic_uuid in
    let (boot, values, status) = decode c.boot_decoder report.source (bytes report.payload) in
    if uuid == uuid_boot_keyboard_input || uuid == uuid_boot_mouse_input
    then some (
      record c { boot_decoder = boot },
      record { values = values; recognized = is_whole status; status = status },
    )
    else elim (find_hid_context report.source.service_instance c.hid_services) [
      | none ↦ some (c, missing_schema)
      | some context ↦ decode_mapped report context c
    ]

-- A report that no decoder takes is an event of its own.
unfoldable pub unrecognized :
    Platform → PendingHidReport → Text → Decoded → BleClientHid → Option BleClientHid
unfolding make_hid_event emit_barrier
unrecognized p report raw decoded c =
    if length decoded.values == 0 && not decoded.recognized
    then emit_barrier (make_hid_event p c report raw none decoded.status) c
    else some c

unfoldable pub process_input_report :
    Platform → PendingHidReport → Text → BleClientHid → Option BleClientHid
unfolding decode_report process_decoded_values unrecognized
process_input_report p report raw c = elim (decode_report report c) [
  | none ↦ none
  | some (c1, decoded) ↦
      elim (process_decoded_values p report raw decoded.status decoded.values c1) [
        | none ↦ none
        | some c2 ↦ unrecognized p report raw decoded c2
      ]
]
