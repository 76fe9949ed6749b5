-- ===== src/Tables/Usages/VesaVirtualControls.antt =====
-- Rows of the table of usages (components/ble_client_hid/usage_data.cpp).
use esphome_ble_remote.Prelude.{List, [], ◌∷◌}
use esphome_ble_remote.Tables.{UsageRecord, row}

abbrev pub vesa_virtual_controls : List UsageRecord
vesa_virtual_controls =
    row 1 "Degauss" "DV"
    ∷ row 16 "Brightness" "DV"
    ∷ row 18 "Contrast" "DV"
    ∷ row 22 "Red Video Gain" "DV"
    ∷ row 24 "Green Video Gain" "DV"
    ∷ row 26 "Blue Video Gain" "DV"
    ∷ row 28 "Focus" "DV"
    ∷ row 32 "Horizontal Position" "DV"
    ∷ row 34 "Horizontal Size" "DV"
    ∷ row 36 "Horizontal Pincushion" "DV"
    ∷ row 38 "Horizontal Pincushion Balance" "DV"
    ∷ row 40 "Horizontal Misconvergence" "DV"
    ∷ row 42 "Horizontal Linearity" "DV"
    ∷ row 44 "Horizontal Linearity Balance" "DV"
    ∷ row 48 "Vertical Position" "DV"
    ∷ row 50 "Vertical Size" "DV"
    ∷ row 52 "Vertical Pincushion" "DV"
    ∷ row 54 "Vertical Pincushion Balance" "DV"
    ∷ row 56 "Vertical Misconvergence" "DV"
    ∷ row 58 "Vertical Linearity" "DV"
    ∷ row 60 "Vertical Linearity Balance" "DV"
    ∷ row 64 "Parallelogram Distortion (Key Balance)" "DV"
    ∷ row 66 "Trapezoidal Distortion (Key)" "DV"
    ∷ row 68 "Tilt (Rotation)" "DV"
    ∷ row 70 "Top Corner Distortion Control" "DV"
    ∷ row 72 "Top Corner Distortion Balance" "DV"
    ∷ row 74 "Bottom Corner Distortion Control" "DV"
    ∷ row 76 "Bottom Corner Distortion Balance" "DV"
    ∷ row 86 "Horizontal Moiré" "DV"
    ∷ row 88 "Vertical Moiré" "DV"
    ∷ row 94 "Input Level Select" "NAry"
    ∷ row 96 "Input Source Select" "NAry"
    ∷ row 108 "Red Video Black Level" "DV"
    ∷ row 110 "Green Video Black Level" "DV"
    ∷ row 112 "Blue Video Black Level" "DV"
    ∷ row 162 "Auto Size Center" "NAry"
    ∷ row 164 "Polarity Horizontal Synchronization" "NAry"
    ∷ row 166 "Polarity Vertical Synchronization" "NAry"
    ∷ row 168 "Synchronization Type" "NAry"
    ∷ row 170 "Screen Orientation" "NAry"
    ∷ row 172 "Horizontal Frequency" "DV"
    ∷ row 174 "Vertical Frequency" "DV"
    ∷ row 176 "Settings" "NAry"
    ∷ row 202 "On Screen Display" "NAry"
    ∷ row 212 "Stereo Mode" "NAry"
    ∷ []

abbrev pub power : List UsageRecord
power =
    row 1 "iName" "SV"
    ∷ row 2 "Present Status" "CL"
    ∷ row 3 "Changed Status" "CL"
    ∷ row 4 "UPS" "CA"
    ∷ row 5 "Power Supply" "CA"
    ∷ row 16 "Battery System" "CP"
    ∷ row 17 "Battery System Id" "SV"
    ∷ row 18 "Battery" "CP"
    ∷ row 19 "Battery Id" "SV"
    ∷ row 20 "Charger" "CP"
    ∷ row 21 "Charger Id" "SV"
    ∷ row 22 "Power Converter" "CP"
    ∷ row 23 "Power Converter Id" "SV"
    ∷ row 24 "Outlet System" "CP"
    ∷ row 25 "Outlet System Id" "SV"
    ∷ row 26 "Input" "CP"
    ∷ row 27 "Input Id" "SV"
    ∷ row 28 "Output" "CP"
    ∷ row 29 "Output Id" "SV"
    ∷ row 30 "Flow" "CP"
    ∷ row 31 "Flow Id" "SV"
    ∷ row 32 "Outlet" "CP"
    ∷ row 33 "Outlet Id" "SV"
    ∷ row 34 "Gang" "CL|CP"
    ∷ row 35 "Gang Id" "SV"
    ∷ row 36 "Power Summary" "CL|CP"
    ∷ row 37 "Power Summary Id" "SV"
    ∷ row 48 "Voltage" "DV"
    ∷ row 49 "Current" "DV"
    ∷ row 50 "Frequency" "DV"
    ∷ row 51 "Apparent Power" "DV"
    ∷ row 52 "Active Power" "DV"
    ∷ row 53 "Percent Load" "DV"
    ∷ row 54 "Temperature" "DV"
    ∷ row 55 "Humidity" "DV"
    ∷ row 56 "Bad Count" "DV"
    ∷ row 64 "Config Voltage" "SV|DV"
    ∷ row 65 "Config Current" "SV|DV"
    ∷ row 66 "Config Frequency" "SV|DV"
    ∷ row 67 "Config Apparent Power" "SV|DV"
    ∷ row 68 "Config Active Power" "SV|DV"
    ∷ row 69 "Config Percent Load" "SV|DV"
    ∷ row 70 "Config Temperature" "SV|DV"
    ∷ row 71 "Config Humidity" "SV|DV"
    ∷ row 80 "Switch On Control" "DV"
    ∷ row 81 "Switch Off Control" "DV"
    ∷ row 82 "Toggle Control" "DV"
    ∷ row 83 "Low Voltage Transfer" "DV"
    ∷ row 84 "High Voltage Transfer" "DV"
    ∷ row 85 "Delay Before Reboot" "DV"
    ∷ row 86 "Delay Before Startup" "DV"
    ∷ row 87 "Delay Before Shutdown" "DV"
    ∷ row 88 "Test" "DV"
    ∷ row 89 "Module Reset" "DV"
    ∷ row 90 "Audible Alarm Control" "DV"
    ∷ row 96 "Present" "DF"
    ∷ row 97 "Good" "DF"
    ∷ row 98 "Internal Failure" "DF"
    ∷ row 99 "Voltag Out Of Range" "DF"
    ∷ row 100 "Frequency Out Of Range" "DF"
    ∷ row 101 "Overload" "DF"
    ∷ row 102 "Over Charged" "DF"
    ∷ row 103 "Over Temperature" "DF"
    ∷ row 104 "Shutdown Requested" "DF"
    ∷ row 105 "Shutdown Imminent" "DF"
    ∷ row 107 "Switch On/Off" "DF"
    ∷ row 108 "Switchable" "DF"
    ∷ row 109 "Used" "DF"
    ∷ row 110 "Boost" "DF"
    ∷ row 111 "Buck" "DF"
    ∷ row 112 "Initialized" "DF"
    ∷ row 113 "Tested" "DF"
    ∷ row 114 "Awaiting Power" "DF"
    ∷ row 115 "Communication Lost" "DF"
    ∷ row 253 "iManufacturer" "SV"
    ∷ row 254 "iProduct" "SV"
    ∷ row 255 "iSerialNumber" "SV"
    ∷ []

abbrev pub battery_system : List UsageRecord
battery_system =
    row 1 "Smart Battery Battery Mode" "CL"
    ∷ row 2 "Smart Battery Battery Status" "NAry"
    ∷ row 3 "Smart Battery Alarm Warning" "NAry"
    ∷ row 4 "Smart Battery Charger Mode" "CL"
    ∷ row 5 "Smart Battery Charger Status" "CL"
    ∷ row 6 "Smart Battery Charger Spec Info" "CL"
    ∷ row 7 "Smart Battery Selector State" "CL"
    ∷ row 8 "Smart Battery Selector Presets" "CL"
    ∷ row 9 "Smart Battery Selector Info" "CL"
    ∷ row 16 "Optional Mfg Function 1" "DV"
    ∷ row 17 "Optional Mfg Function 2" "DV"
    ∷ row 18 "Optional Mfg Function 3" "DV"
    ∷ row 19 "Optional Mfg Function 4" "DV"
    ∷ row 20 "Optional Mfg Function 5" "DV"
    ∷ row 21 "Connection To SM Bus" "DF"
    ∷ row 22 "Output Connection" "DF"
    ∷ row 23 "Charger Connection" "DF"
    ∷ row 24 "Battery Insertion" "DF"
    ∷ row 25 "Use Next" "DF"
    ∷ row 26 "OK To Use" "DF"
    ∷ row 27 "Battery Supported" "DF"
    ∷ row 28 "Selector Revision" "DF"
    ∷ row 29 "Charging Indicator" "DF"
    ∷ row 40 "Manufacturer Access" "DV"
    ∷ row 41 "Remaining Capacity Limit" "DV"
    ∷ row 42 "Remaining Time Limit" "DV"
    ∷ row 43 "At Rate" "DV"
    ∷ row 44 "Capacity Mode" "DV"
    ∷ row 45 "Broadcast To Charger" "DV"
    ∷ row 46 "Primary Battery" "DV"
    ∷ row 47 "Charge Controller" "DV"
    ∷ row 64 "Terminate Charge" "Sel"
    ∷ row 65 "Terminate Discharge" "Sel"
    ∷ row 66 "Below Remaining Capacity Limit" "Sel"
    ∷ row 67 "Remaining Time Limit Expired" "Sel"
    ∷ row 68 "Charging" "Sel"
    ∷ row 69 "Discharging" "Sel"
    ∷ row 70 "Fully Charged" "Sel"
    ∷ row 71 "Fully Discharged" "Sel"
    ∷ row 72 "Conditioning Flag" "DF"
    ∷ row 73 "At Rate OK" "DF"
    ∷ row 74 "Smart Battery Error Code" "DV"
    ∷ row 75 "Need Replacement" "DF"
    ∷ row 96 "At Rate Time To Full" "DV"
    ∷ row 97 "At Rate Time To Empty" "DV"
    ∷ row 98 "Average Current" "DV"
    ∷ row 99 "Max Error" "DV"
    ∷ row 100 "Relative State Of Charge" "DV"
    ∷ row 101 "Absolute State Of Charge" "DV"
    ∷ row 102 "Remaining Capacity" "DV"
    ∷ row 103 "Full Charge Capacity" "DV"
    ∷ row 104 "Run Time To Empty" "DV"
    ∷ row 105 "Average Time To Empty" "DV"
    ∷ row 106 "Average Time To Full" "DV"
    ∷ row 107 "Cycle Count" "DV"
    ∷ row 128 "Battery Pack Model Level" "SV"
    ∷ row 129 "Internal Charge Controller" "SF"
    ∷ row 130 "Primary Battery Support" "SF"
    ∷ row 131 "Design Capacity" "SV"
    ∷ row 132 "Specification Info" "SV"
    ∷ row 133 "Manufacture Date" "SV"
    ∷ row 134 "Serial Number" "SV"
    ∷ row 135 "iManufacturer Name" "SV"
    ∷ row 136 "iDevice Name" "SV"
    ∷ row 137 "iDevice Chemistry" "SV"
    ∷ row 138 "Manufacturer Data" "SV"
    ∷ row 139 "Rechargable" "SV"
    ∷ row 140 "Warning Capacity Limit" "SV"
    ∷ row 141 "Capacity Granularity 1" "SV"
    ∷ row 142 "Capacity Granularity 2" "SV"
    ∷ row 143 "iOEM Information" "SV"
    ∷ row 192 "Inhibit Charge" "DF"
    ∷ row 193 "Enable Polling" "DF"
    ∷ row 194 "Reset To Zero" "DF"
    ∷ row 208 "AC Present" "DV"
    ∷ row 209 "Battery Present" "DV"
    ∷ row 210 "Power Fail" "DV"
    ∷ row 211 "Alarm Inhibited" "DV"
    ∷ row 212 "Thermistor Under Range" "DV"
    ∷ row 213 "Thermistor Hot" "DV"
    ∷ row 214 "Thermistor Cold" "DV"
    ∷ row 215 "Thermistor Over Range" "DV"
    ∷ row 216 "Voltage Out Of Range" "DV"
    ∷ row 217 "Current Out Of Range" "DV"
    ∷ row 218 "Current Not Regulated" "DV"
    ∷ row 219 "Voltage Not Regulated" "DV"
    ∷ row 220 "Master Mode" "DV"
    ∷ row 240 "Charger Selector Support" "SF"
    ∷ row 241 "Charger Spec" "SV"
    ∷ row 242 "Level 2" "SF"
    ∷ row 243 "Level 3" "SF"
    ∷ []
