-- ===== src/Descriptor.antt =====
-- HIDReportMap::parse_report_map_data of components/ble_client_hid/hid_parser.cpp: a HID report
-- descriptor, a list of bytes, becomes a report map or is rejected. A step of the loop returns the
-- new state of the parser, or the failure for which the source deletes the map and returns nullptr.
pub mod State
pub mod Items
pub mod Main
pub mod Parse
pub mod Fuel
pub mod Framing
pub mod Layout
pub mod Place
pub mod Preserve
pub mod Fields
pub mod Sound
