-- ===== src/Client/Limits.antt =====
-- The limits of BLEClientHID (components/ble_client_hid/ble_client_hid.h).
use esphome_ble_remote.Prelude.{ℕ}

abbrev pub max_services : ℕ
max_services = 64

abbrev pub max_included_services : ℕ
max_included_services = 128

abbrev pub max_characteristics : ℕ
max_characteristics = 256

abbrev pub max_descriptors : ℕ
max_descriptors = 512

abbrev pub max_read_operations : ℕ
max_read_operations = 384

abbrev pub max_subscriptions : ℕ
max_subscriptions = 128

abbrev pub max_attribute_value_bytes : ℕ
max_attribute_value_bytes = 4096

abbrev pub max_pending_reports : ℕ
max_pending_reports = 64

abbrev pub max_report_payload_bytes : ℕ
max_report_payload_bytes = 512

abbrev pub max_pending_report_bytes : ℕ
max_pending_report_bytes = 4096

abbrev pub max_reports_per_loop : ℕ
max_reports_per_loop = 8

abbrev pub max_processing_time_us : ℕ
max_processing_time_us = 4000

abbrev pub phase_timeout_ms : ℕ
phase_timeout_ms = 15000

abbrev pub cccd_fallback_delay_ms : ℕ
cccd_fallback_delay_ms = 250

abbrev pub overflow_warning_interval_ms : ℕ
overflow_warning_interval_ms = 5000
