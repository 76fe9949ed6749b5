-- ===== src/Lib.antt =====
-- The HID component of this repository, components/ble_client_hid: a BLE central that connects to a
-- HID device, reads its GATT database and report maps, subscribes to its reports and turns them into
-- Home Assistant events.
--
-- The parts, in the order in which a report passes through the program:
--   Item: item sizes and values of a report descriptor (hid_item_value.h and the first helpers of
--   hid_parser.cpp).
--   Schema: usages, collections, fields and reports (hid_parser.h), with HIDReportMap and its look-ups.
--   Descriptor: HIDReportMap::parse_report_map_data and esp_logd_report_map (hid_parser.cpp). The three
--   local tables and the map under construction are the record Parser; each case of the switch is a
--   function on it, and `fail` is the error of a result type.
--   Decode: read_bits_, parse_input_ and parse (hid_parser.cpp) with the runtime state of each field.
--   Boot: HIDBootReportDecoder (boot_report_decoder.h and .cpp).
--   Event, Buffer: HIDEvent and OrderedEventBuffer (ordered_event_buffer.h).
--   Subscription: SubscriptionAttemptState (subscription_state.h).
--   Tables: the search, the look-ups and the tables of usage_data.cpp.
--   Client: BLEClientHID (ble_client_hid.h and .cpp): Names and Uuids hold the enumerations, names and
--   constants, Gatt the inventory's records, State the members; Inventory, Reads, Values, Profile and
--   Subscribe are the steps of the set-up and Setup its phases; Queue, Sampling and Events lead from a
--   notification to the events; Handler has gattc_event_handler and loop; Invariant has what holds in
--   every state that sequences of them reach; Advertisement is on its own.
-- Functions keep the source's names without the trailing underscore.
--
-- State is passed explicitly. What is outside of this repository is a parameter: the record Platform
-- has the clocks of ESPHome, the answers of ESP-IDF by the number of the call, SHA-256, the hexadecimal
-- printer and the address; the record Database has the GATT database.
-- Calls that change the world leave an entry in a list of effects. An exception that
-- `std::map::at` throws is a missing result, and so is the undefined behaviour of `fields_[field_id]`
-- on an id out of range; ESP_LOGD evaluates its arguments. Words keep their wrap-around where it
-- matters: times are uint32_t and counters wrap; an int64_t value is an integer whose range is a
-- hypothesis.
--
-- Bounds and fuel: the parser's loop takes one byte at least in each round, so the length of the
-- descriptor and one more rounds are enough; binary_find halves a range, so its size and one more
-- are; the walk over an advertisement takes a byte at least; the walk up the collections goes to
-- smaller indices. The loops of the inventory run on what the limits leave.
--
-- Not modelled: the text of log lines and what only logs (log_hid_schema_, dump_config,
-- gap_event_handler), the Python configuration, the table generator, HIDUsage's printing.
mod Prelude
pub mod Item
pub mod Schema
pub mod Descriptor
pub mod Decode
pub mod Event
pub mod Buffer
pub mod Boot
pub mod Subscription
pub mod Tables
pub mod Client
mod Tests
