-- ===== src/Client/Queue.antt =====
-- The queue of input reports (enqueue_input_report_ of
-- components/ble_client_hid/ble_client_hid.cpp).
pub mod Bounds
use esphome_ble_remote.Prelude.{
  ℕ, ◌+◌, ◌-◌, Bool, true, false, ◌||◌, Option, none, some, List, [], ◌∷◌, ◌++◌, ltb, leb, ◌==◌,
  if◌then◌else◌, length,
}
use esphome_ble_remote.Prelude.Words.{u32}
use esphome_ble_remote.Schema.Usage.{Payload, null, bytes, HidReportSource}
use esphome_ble_remote.Decode.Report.{payload_length, is_invalid}
use esphome_ble_remote.Client.Limits.{
  max_pending_reports, max_report_payload_bytes, max_pending_report_bytes,
  overflow_warning_interval_ms,
}
use esphome_ble_remote.Client.Names.{elapsed}
use esphome_ble_remote.Client.State.{Platform, BleClientHid, PendingHidReport, called}
use esphome_ble_remote.Client.Values.{source_of, data_of}

-- A notification of the device (`gattc_notify_evt_param`).
pub record Notification : Type 0 where
  pub handle : ℕ
  pub value : Payload
  pub is_notify : Bool

-- The body of the loop: the report in front is dropped.
unfoldable pub drop_oldest :
    Platform → PendingHidReport → List PendingHidReport → BleClientHid → BleClientHid
unfolding elapsed
drop_oldest p oldest rest c =
    let now = p.millis c.calls in
    record (called c) {
      reports_dropped = u32 (c.reports_dropped + 1);
      pending_report_bytes = c.pending_report_bytes - length oldest.payload;
      pending_reports = rest;
      last_overflow_warning =
          if c.last_overflow_warning == 0
            || elapsed now c.last_overflow_warning overflow_warning_interval_ms
          then now
          else c.last_overflow_warning;
    }

-- The loop that makes room for `added` bytes, on the queue `pending` of the state.
unfoldable pub make_room : Platform → ℕ → List PendingHidReport → BleClientHid → BleClientHid
unfolding drop_oldest
make_room p added [] c = c
make_room p added (oldest ∷ rest) c =
    elim (leb max_pending_reports (length (oldest ∷ rest))
      || ltb max_pending_report_bytes (c.pending_report_bytes + added)) [
        | true ↦ make_room p added rest (drop_oldest p oldest rest c)
        | false ↦ c
      ]

abbrev pub report_source : Notification → BleClientHid → HidReportSource
report_source n c = record (source_of n.handle c) {
  characteristic_handle = n.handle;
  is_notification = n.is_notify;
  has_transport = true;
}

abbrev pub queued_report : Notification → ℕ → BleClientHid → PendingHidReport
queued_report n seq_id c = record {
  source = report_source n c;
  payload = data_of n.value;
  seq_id = seq_id;
}

unfoldable pub enqueue_input_report : Platform → Notification → ℕ → BleClientHid → BleClientHid
unfolding make_room
enqueue_input_report p n seq_id c =
    let c1 = make_room p (payload_length n.value) c.pending_reports c in
    if is_invalid n.value
    then c
    else if ltb max_report_payload_bytes (payload_length n.value)
    then c
    else record c1 {
      pending_report_bytes = c1.pending_report_bytes + length (data_of n.value);
      pending_reports = c1.pending_reports ++ queued_report n seq_id c1 ∷ [];
    }
