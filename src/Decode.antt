-- ===== src/Decode.antt =====
-- Decoding of input reports: read_bits_, parse_input_ and parse of HIDReportMap
-- (components/ble_client_hid/hid_parser.cpp).
pub mod Bits
pub mod Fields
pub mod Report
pub mod Arrays
pub mod Defined
pub mod Number
