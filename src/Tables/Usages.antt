-- ===== src/Tables/Usages.antt =====
-- The table of usages (components/ble_client_hid/usage_data.cpp).
pub mod GenericDesktop
pub mod GameControls
pub mod KeyboardKeypad2
pub mod TelephonyDevice
pub mod Consumer1
pub mod Consumer2
pub mod Consumer3
pub mod Digitizers
pub mod PhysicalInputDevice
pub mod Sensors1
pub mod Sensors2
pub mod Sensors3
pub mod Sensors4
pub mod Sensors5
pub mod VesaVirtualControls
pub mod BarcodeScanner1
pub mod Scales
use esphome_ble_remote.Prelude.{List, ◌++◌}
use esphome_ble_remote.Tables.{UsageRecord}
use esphome_ble_remote.Tables.Usages.GenericDesktop.{
  generic_desktop, simulation_controls, vr_controls, sport_controls,
}
use esphome_ble_remote.Tables.Usages.GameControls.{
  game_controls, generic_device_controls, keyboard_keypad_1,
}
use esphome_ble_remote.Tables.Usages.KeyboardKeypad2.{keyboard_keypad_2, led}
use esphome_ble_remote.Tables.Usages.TelephonyDevice.{telephony_device}
use esphome_ble_remote.Tables.Usages.Consumer1.{consumer_1}
use esphome_ble_remote.Tables.Usages.Consumer2.{consumer_2}
use esphome_ble_remote.Tables.Usages.Consumer3.{consumer_3, consumer_4}
use esphome_ble_remote.Tables.Usages.Digitizers.{digitizers, haptics}
use esphome_ble_remote.Tables.Usages.PhysicalInputDevice.{
  physical_input_device, soc, eye_and_head_trackers, auxiliary_display,
}
use esphome_ble_remote.Tables.Usages.Sensors1.{sensors_1}
use esphome_ble_remote.Tables.Usages.Sensors2.{sensors_2}
use esphome_ble_remote.Tables.Usages.Sensors3.{sensors_3}
use esphome_ble_remote.Tables.Usages.Sensors4.{sensors_4}
use esphome_ble_remote.Tables.Usages.Sensors5.{
  sensors_5, medical_instrument, braille_display, lighting_and_illumination, monitor,
}
use esphome_ble_remote.Tables.Usages.VesaVirtualControls.{
  vesa_virtual_controls, power, battery_system,
}
use esphome_ble_remote.Tables.Usages.BarcodeScanner1.{barcode_scanner_1, barcode_scanner_2}
use esphome_ble_remote.Tables.Usages.Scales.{
  scales, magnetic_stripe_reader, camera_control, arcade, fido_alliance,
}

-- USAGES, in the order of its pages.
abbrev pub usages : List UsageRecord
usages =
    generic_desktop ++ simulation_controls ++ vr_controls ++ sport_controls ++ game_controls
    ++ generic_device_controls ++ keyboard_keypad_1 ++ keyboard_keypad_2 ++ led ++ telephony_device
    ++ consumer_1 ++ consumer_2 ++ consumer_3 ++ consumer_4 ++ digitizers ++ haptics
    ++ physical_input_device ++ soc ++ eye_and_head_trackers ++ auxiliary_display ++ sensors_1
    ++ sensors_2 ++ sensors_3 ++ sensors_4 ++ sensors_5 ++ medical_instrument ++ braille_display
    ++ lighting_and_illumination ++ monitor ++ vesa_virtual_controls ++ power ++ battery_system
    ++ barcode_scanner_1 ++ barcode_scanner_2 ++ scales ++ magnetic_stripe_reader ++ camera_control
    ++ arcade ++ fido_alliance
