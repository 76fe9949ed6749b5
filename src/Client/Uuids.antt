-- ===== src/Client/Uuids.antt =====
-- The 16-bit UUIDs of components/ble_client_hid/ble_client_hid.cpp.
use esphome_ble_remote.Prelude.{ℕ, Bool, ◌||◌, ◌==◌}

abbrev pub uuid_gap_service : ℕ
uuid_gap_service = 0x1800

abbrev pub uuid_gatt_service : ℕ
uuid_gatt_service = 0x1801

abbrev pub uuid_hid_service : ℕ
uuid_hid_service = 0x1812

abbrev pub uuid_battery_service : ℕ
uuid_battery_service = 0x180F

abbrev pub uuid_device_information_service : ℕ
uuid_device_information_service = 0x180A

abbrev pub uuid_device_name : ℕ
uuid_device_name = 0x2A00

abbrev pub uuid_appearance : ℕ
uuid_appearance = 0x2A01

abbrev pub uuid_preferred_connection_parameters : ℕ
uuid_preferred_connection_parameters = 0x2A04

abbrev pub uuid_service_changed : ℕ
uuid_service_changed = 0x2A05

abbrev pub uuid_system_id : ℕ
uuid_system_id = 0x2A23

abbrev pub uuid_model_number : ℕ
uuid_model_number = 0x2A24

abbrev pub uuid_serial_number : ℕ
uuid_serial_number = 0x2A25

abbrev pub uuid_firmware_revision : ℕ
uuid_firmware_revision = 0x2A26

abbrev pub uuid_hardware_revision : ℕ
uuid_hardware_revision = 0x2A27

abbrev pub uuid_software_revision : ℕ
uuid_software_revision = 0x2A28

abbrev pub uuid_manufacturer_name : ℕ
uuid_manufacturer_name = 0x2A29

abbrev pub uuid_ieee_certification : ℕ
uuid_ieee_certification = 0x2A2A

abbrev pub uuid_battery_level : ℕ
uuid_battery_level = 0x2A19

abbrev pub uuid_pnp_id : ℕ
uuid_pnp_id = 0x2A50

abbrev pub uuid_hid_information : ℕ
uuid_hid_information = 0x2A4A

abbrev pub uuid_hid_report_map : ℕ
uuid_hid_report_map = 0x2A4B

abbrev pub uuid_hid_report : ℕ
uuid_hid_report = 0x2A4D

abbrev pub uuid_hid_protocol_mode : ℕ
uuid_hid_protocol_mode = 0x2A4E

abbrev pub uuid_boot_keyboard_input : ℕ
uuid_boot_keyboard_input = 0x2A22

abbrev pub uuid_boot_keyboard_output : ℕ
uuid_boot_keyboard_output = 0x2A32

abbrev pub uuid_boot_mouse_input : ℕ
uuid_boot_mouse_input = 0x2A33

abbrev pub uuid_database_hash : ℕ
uuid_database_hash = 0x2B2A

abbrev pub uuid_client_supported_features : ℕ
uuid_client_supported_features = 0x2B29

abbrev pub uuid_server_supported_features : ℕ
uuid_server_supported_features = 0x2B3A

abbrev pub uuid_characteristic_user_description : ℕ
uuid_characteristic_user_description = 0x2901

abbrev pub uuid_cccd : ℕ
uuid_cccd = 0x2902

abbrev pub uuid_characteristic_presentation_format : ℕ
uuid_characteristic_presentation_format = 0x2904

abbrev pub uuid_characteristic_aggregate_format : ℕ
uuid_characteristic_aggregate_format = 0x2905

abbrev pub uuid_external_report_reference : ℕ
uuid_external_report_reference = 0x2907

abbrev pub uuid_report_reference : ℕ
uuid_report_reference = 0x2908

unfoldable pub is_dis_characteristic : ℕ → Bool
is_dis_characteristic uuid =
    uuid == uuid_system_id
    || uuid == uuid_model_number
    || uuid == uuid_serial_number
    || uuid == uuid_firmware_revision
    || uuid == uuid_hardware_revision
    || uuid == uuid_software_revision
    || uuid == uuid_manufacturer_name
    || uuid == uuid_ieee_certification
    || uuid == uuid_pnp_id
