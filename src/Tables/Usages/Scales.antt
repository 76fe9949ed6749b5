-- ===== src/Tables/Usages/Scales.antt =====
-- Rows of the table of usages (components/ble_client_hid/usage_data.cpp).
use esphome_ble_remote.Prelude.{List, [], ◌∷◌}
use esphome_ble_remote.Tables.{UsageRecord, row}

abbrev pub scales : List UsageRecord
scales =
    row 1 "Scales" "CA"
    ∷ row 32 "Scale Device" "CL"
    ∷ row 33 "Scale Class" "NAry"
    ∷ row 34 "Scale Class I Metric" "Sel"
    ∷ row 35 "Scale Class II Metric" "Sel"
    ∷ row 36 "Scale Class III Metric" "Sel"
    ∷ row 37 "Scale Class IIIL Metric" "Sel"
    ∷ row 38 "Scale Class IV Metric" "Sel"
    ∷ row 39 "Scale Class III English" "Sel"
    ∷ row 40 "Scale Class IIIL English" "Sel"
    ∷ row 41 "Scale Class IV English" "Sel"
    ∷ row 42 "Scale Class Generic" "Sel"
    ∷ row 48 "Scale Attribute Report" "CL"
    ∷ row 49 "Scale Control Report" "CL"
    ∷ row 50 "Scale Data Report" "CL"
    ∷ row 51 "Scale Status Report" "CL"
    ∷ row 52 "Scale Weight Limit Report" "CL"
    ∷ row 53 "Scale Statistics Report" "CL"
    ∷ row 64 "Data Weight" "DV"
    ∷ row 65 "Data Scaling" "DV"
    ∷ row 80 "Weight Unit" "CL"
    ∷ row 81 "Weight Unit Milligram" "Sel"
    ∷ row 82 "Weight Unit Gram" "Sel"
    ∷ row 83 "Weight Unit Kilogram" "Sel"
    ∷ row 84 "Weight Unit Carats" "Sel"
    ∷ row 85 "Weight Unit Taels" "Sel"
    ∷ row 86 "Weight Unit Grains" "Sel"
    ∷ row 87 "Weight Unit Pennyweights" "Sel"
    ∷ row 88 "Weight Unit Metric Ton" "Sel"
    ∷ row 89 "Weight Unit Avoir Ton" "Sel"
    ∷ row 90 "Weight Unit Troy Ounce" "Sel"
    ∷ row 91 "Weight Unit Ounce" "Sel"
    ∷ row 92 "Weight Unit Pound" "Sel"
    ∷ row 96 "Calibration Count" "DV"
    ∷ row 97 "Re-Zero Count" "DV"
    ∷ row 112 "Scale Status" "NAry"
    ∷ row 113 "Scale Status Fault" "Sel"
    ∷ row 114 "Scale Status Stable at Center of Zero" "Sel"
    ∷ row 115 "Scale Status In Motion" "Sel"
    ∷ row 116 "Scale Status Weight Stable" "Sel"
    ∷ row 117 "Scale Status Under Zero" "Sel"
    ∷ row 118 "Scale Status Over Weight Limit" "Sel"
    ∷ row 119 "Scale Status Requires Calibration" "Sel"
    ∷ row 120 "Scale Status Requires Rezeroing" "Sel"
    ∷ row 128 "Zero Scale" "OOC"
    ∷ row 129 "Enforced Zero Return" "OOC"
    ∷ []

abbrev pub magnetic_stripe_reader : List UsageRecord
magnetic_stripe_reader =
    row 1 "MSR Device Read-Only" "CA"
    ∷ row 17 "Track 1 Length" "DV"
    ∷ row 18 "Track 2 Length" "DV"
    ∷ row 19 "Track 3 Length" "DV"
    ∷ row 20 "Track JIS Length" "DV"
    ∷ row 32 "Track Data" "SF|DF|DV"
    ∷ row 33 "Track 1 Data" "SF|DF|DV"
    ∷ row 34 "Track 2 Data" "SF|DF|DV"
    ∷ row 35 "Track 3 Data" "SF|DF|DV"
    ∷ row 36 "Track JIS Data" "SF|DF|DV"
    ∷ []

abbrev pub camera_control : List UsageRecord
camera_control = row 32 "Camera Auto-focus" "OSC" ∷ row 33 "Camera Shutter" "OSC" ∷ []

abbrev pub arcade : List UsageRecord
arcade =
    row 1 "General Purpose IO Card" "CA"
    ∷ row 2 "Coin Door" "CA"
    ∷ row 3 "Watchdog Timer" "CA"
    ∷ row 48 "General Purpose Analog Input State" "DV"
    ∷ row 49 "General Purpose Digital Input State" "DV"
    ∷ row 50 "General Purpose Optical Input State" "DV"
    ∷ row 51 "General Purpose Digital Output State" "DV"
    ∷ row 52 "Number of Coin Doors" "DV"
    ∷ row 53 "Coin Drawer Drop Count" "DV"
    ∷ row 54 "Coin Drawer Start" "OOC"
    ∷ row 55 "Coin Drawer Service" "OOC"
    ∷ row 56 "Coin Drawer Tilt" "OOC"
    ∷ row 57 "Coin Door Test" "OOC"
    ∷ row 64 "Coin Door Lockout" "OOC"
    ∷ row 65 "Watchdog Timeout" "DV"
    ∷ row 66 "Watchdog Action" "NAry"
    ∷ row 67 "Watchdog Reboot" "Sel"
    ∷ row 68 "Watchdog Restart" "Sel"
    ∷ row 69 "Alarm Input" "DV"
    ∷ row 70 "Coin Door Counter" "OOC"
    ∷ row 71 "I/O Direction Mapping" "DV"
    ∷ row 72 "Set I/O Direction Mapping" "DV"
    ∷ row 73 "Extended Optical Input State" "DV"
    ∷ row 74 "Pin Pad Input State" "DV"
    ∷ row 75 "Pin Pad Status" "DV"
    ∷ row 76 "Pin Pad Output" "OOC"
    ∷ row 77 "Pin Pad Command" "DV"
    ∷ []

abbrev pub fido_alliance : List UsageRecord
fido_alliance =
    row 1 "U2F Authenticator Device" "CA"
    ∷ row 32 "Input Report Data" "DV"
    ∷ row 33 "Output Report Data" "DV"
    ∷ []
