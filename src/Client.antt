-- ===== src/Client.antt =====
-- BLEClientHID (components/ble_client_hid/ble_client_hid.h and .cpp).
pub mod Uuids
pub mod Limits
pub mod Names
pub mod Gatt
pub mod State
pub mod Frame
pub mod Maps
pub mod Setup
pub mod Reads
pub mod Values
pub mod Subscribe
pub mod Profile
pub mod Events
pub mod Queue
pub mod Sampling
pub mod Inventory
pub mod Handler
pub mod Advertisement
pub mod Invariant
