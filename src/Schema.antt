-- ===== src/Schema.antt =====
-- components/ble_client_hid/hid_parser.h and the accessors of hid_parser.cpp: the schema that a HID
-- descriptor is parsed into. An int64_t that holds a logical or physical bound, or a value, is a ℤ.
pub mod Usage
pub mod Field
pub mod ReportMap
pub mod Find
