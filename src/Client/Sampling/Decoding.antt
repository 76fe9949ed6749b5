-- ===== src/Client/Sampling/Decoding.antt =====
-- The choice of the decoder and the report maps (process_input_report_ of
-- components/ble_client_hid/ble_client_hid.cpp).
use esphome_ble_remote.Prelude.{
  ◌≡◌, refl, ◌||◌, Option, some, Bool-cases, Option-cases, inl, inr, ◌==◌,
}
use esphome_ble_remote.Schema.Usage.{bytes}
use esphome_ble_remote.Client.State.{BleClientHid, PendingHidReport}
use esphome_ble_remote.Client.Frame.{kept}
use esphome_ble_remote.Client.Maps.{MapExists, MapsAreSound, find-MapExists, update-MapsAreSound}
use esphome_ble_remote.Decode.Defined.{FieldsExist, SameSchema-FieldsExist, parse-IsDefined}
use esphome_ble_remote.Decode.Report.{Decoded}
use esphome_ble_remote.Client.Uuids.{uuid_boot_keyboard_input, uuid_boot_mouse_input}
use esphome_ble_remote.Client.Gatt.{HidServiceContext, find_hid_context}
use esphome_ble_remote.Client.Sampling.{decode_mapped, decode_report}

-- What is decoded: the behaviour is defined, the core and the buffer are as they were, and the
-- report maps are sound.
abbrev pub Decodes : BleClientHid → Option (BleClientHid × Decoded) → Type 0
Decodes c result =
    (d : BleClientHid) × (decoded : Decoded) × (result ≡ some (d, decoded))
    × (kept d ≡ kept c)
    × MapsAreSound d.hid_services

decode_mapped-Decodes :
    (report : PendingHidReport) (context : HidServiceContext) (c : BleClientHid)
    → MapExists context.report_map
    → MapsAreSound c.hid_services
    → Decodes c (decode_mapped report context c)
unfolding decode_mapped
decode_mapped-Decodes report context c there sound = elim (Option-cases context.report_map) [
  | inl absent ↦ rw (decode_mapped, absent) (c, _, refl, refl, sound)
  | inr (m, e) ↦
      let exists : FieldsExist m = rw e at there in
      let (m1, decoded, defined, same) =
        parse-IsDefined m report.source (bytes report.payload) exists in
      rw (decode_mapped, e, defined)
        (
          _,
          decoded,
          refl,
          refl,
          update-MapsAreSound report.source.service_instance
              (λ context. record context { report_map = some m1 }) c.hid_services
              (λ context. SameSchema-FieldsExist m m1 same exists) sound,
        )
]

pub decode_report-Decodes :
    (report : PendingHidReport) (c : BleClientHid)
    → MapsAreSound c.hid_services
    → Decodes c (decode_report report c)
unfolding decode_report
decode_report-Decodes report c sound =
    let uuid = report.source.characteristic_uuid in
    elim (Bool-cases (uuid == uuid_boot_keyboard_input || uuid == uuid_boot_mouse_input)) [
      | inl boot ↦ rw (decode_report, boot) (_, _, refl, refl, sound)
      | inr mapped ↦
          elim (Option-cases (find_hid_context report.source.service_instance c.hid_services)) [
            | inl absent ↦ rw (decode_report, mapped, absent) (c, _, refl, refl, sound)
            | inr (context, there) ↦
                rw (decode_report, mapped, there)
                  (decode_mapped-Decodes report context c
                    (find-MapExists report.source.service_instance c.hid_services context there
                      sound)
                    sound)
          ]
    ]
