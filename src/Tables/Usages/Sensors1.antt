-- ===== src/Tables/Usages/Sensors1.antt =====
-- Rows of the table of usages (components/ble_client_hid/usage_data.cpp).
use esphome_ble_remote.Prelude.{List, [], ◌∷◌}
use esphome_ble_remote.Tables.{UsageRecord, row}

abbrev pub sensors_1 : List UsageRecord
sensors_1 =
    row 1 "Sensor" "CA|CP"
    ∷ row 16 "Biometric" "CA|CP"
    ∷ row 17 "Biometric: Human Presence" "CA|CP"
    ∷ row 18 "Biometric: Human Proximity" "CA|CP"
    ∷ row 19 "Biometric: Human Touch" "CA|CP"
    ∷ row 20 "Biometric: Blood Pressure" "CA|CP"
    ∷ row 21 "Biometric: Body Temperature" "CA|CP"
    ∷ row 22 "Biometric: Heart Rate" "CA|CP"
    ∷ row 23 "Biometric: Heart Rate Variability" "CA|CP"
    ∷ row 24 "Biometric: Peripheral Oxygen Saturation" "CA|CP"
    ∷ row 25 "Biometric: Respiratory Rate" "CA|CP"
    ∷ row 32 "Electrical" "CA|CP"
    ∷ row 33 "Electrical: Capacitance" "CA|CP"
    ∷ row 34 "Electrical: Current" "CA|CP"
    ∷ row 35 "Electrical: Power" "CA|CP"
    ∷ row 36 "Electrical: Inductance" "CA|CP"
    ∷ row 37 "Electrical: Resistance" "CA|CP"
    ∷ row 38 "Electrical: Voltage" "CA|CP"
    ∷ row 39 "Electrical: Potentiometer" "CA|CP"
    ∷ row 40 "Electrical: Frequency" "CA|CP"
    ∷ row 41 "Electrical: Period" "CA|CP"
    ∷ row 48 "Environmental" "CA|CP"
    ∷ row 49 "Environmental: Atmospheric Pressure" "CA|CP"
    ∷ row 50 "Environmental: Humidity" "CA|CP"
    ∷ row 51 "Environmental: Temperature" "CA|CP"
    ∷ row 52 "Environmental: Wind Direction" "CA|CP"
    ∷ row 53 "Environmental: Wind Speed" "CA|CP"
    ∷ row 54 "Environmental: Air Quality" "CA|CP"
    ∷ row 55 "Environmental: Heat Index" "CA|CP"
    ∷ row 56 "Environmental: Surface Temperature" "CA|CP"
    ∷ row 57 "Environmental: Volatile Organic Compounds" "CA|CP"
    ∷ row 58 "Environmental: Object Presence" "CA|CP"
    ∷ row 59 "Environmental: Object Proximity" "CA|CP"
    ∷ row 64 "Light" "CA|CP"
    ∷ row 65 "Light: Ambient Light" "CA|CP"
    ∷ row 66 "Light: Consumer Infrared" "CA|CP"
    ∷ row 67 "Light: Infrared Light" "CA|CP"
    ∷ row 68 "Light: Visible Light" "CA|CP"
    ∷ row 69 "Light: Ultraviolet Light" "CA|CP"
    ∷ row 80 "Location" "CA|CP"
    ∷ row 81 "Location: Broadcast" "CA|CP"
    ∷ row 82 "Location: Dead Reckoning" "CA|CP"
    ∷ row 83 "Location: GPS (Global Positioning System)" "CA|CP"
    ∷ row 84 "Location: Lookup" "CA|CP"
    ∷ row 85 "Location: Other" "CA|CP"
    ∷ row 86 "Location: Static" "CA|CP"
    ∷ row 87 "Location: Triangulation" "CA|CP"
    ∷ row 96 "Mechanical" "CA|CP"
    ∷ row 97 "Mechanical: Boolean Switch" "CA|CP"
    ∷ row 98 "Mechanical: Boolean Switch Array" "CA|CP"
    ∷ row 99 "Mechanical: Multivalue Switch" "CA|CP"
    ∷ row 100 "Mechanical: Force" "CA|CP"
    ∷ row 101 "Mechanical: Pressure" "CA|CP"
    ∷ row 102 "Mechanical: Strain" "CA|CP"
    ∷ row 103 "Mechanical: Weight" "CA|CP"
    ∷ row 104 "Mechanical: Haptic Vibrator" "CA|CP"
    ∷ row 105 "Mechanical: Hall Effect Switch" "CA|CP"
    ∷ row 112 "Motion" "CA|CP"
    ∷ row 113 "Motion: Accelerometer 1D" "CA|CP"
    ∷ row 114 "Motion: Accelerometer 2D" "CA|CP"
    ∷ row 115 "Motion: Accelerometer 3D" "CA|CP"
    ∷ row 116 "Motion: Gyrometer 1D" "CA|CP"
    ∷ row 117 "Motion: Gyrometer 2D" "CA|CP"
    ∷ row 118 "Motion: Gyrometer 3D" "CA|CP"
    ∷ row 119 "Motion: Motion Detector" "CA|CP"
    ∷ row 120 "Motion: Speedometer" "CA|CP"
    ∷ row 121 "Motion: Accelerometer" "CA|CP"
    ∷ row 122 "Motion: Gyrometer" "CA|CP"
    ∷ row 123 "Motion: Gravity Vector" "CA|CP"
    ∷ row 124 "Motion: Linear Accelerometer" "CA|CP"
    ∷ row 128 "Orientation" "CA|CP"
    ∷ row 129 "Orientation: Compass 1D" "CA|CP"
    ∷ row 130 "Orientation: Compass 2D" "CA|CP"
    ∷ row 131 "Orientation: Compass 3D" "CA|CP"
    ∷ row 132 "Orientation: Inclinometer 1D" "CA|CP"
    ∷ row 133 "Orientation: Inclinometer 2D" "CA|CP"
    ∷ row 134 "Orientation: Inclinometer 3D" "CA|CP"
    ∷ row 135 "Orientation: Distance 1D" "CA|CP"
    ∷ row 136 "Orientation: Distance 2D" "CA|CP"
    ∷ row 137 "Orientation: Distance 3D" "CA|CP"
    ∷ row 138 "Orientation: Device Orientation" "CA|CP"
    ∷ row 139 "Orientation: Compass" "CA|CP"
    ∷ row 140 "Orientation: Inclinometer" "CA|CP"
    ∷ row 141 "Orientation: Distance" "CA|CP"
    ∷ row 142 "Orientation: Relative Orientation" "CA|CP"
    ∷ row 143 "Orientation: Simple Orientation" "CA|CP"
    ∷ row 144 "Scanner" "CA|CP"
    ∷ row 145 "Scanner: Barcode" "CA|CP"
    ∷ row 146 "Scanner: RFID" "CA|CP"
    ∷ row 147 "Scanner: NFC" "CA|CP"
    ∷ row 160 "Time" "CA|CP"
    ∷ row 161 "Time: Alarm Timer" "CA|CP"
    ∷ row 162 "Time: Real Time Clock" "CA|CP"
    ∷ row 176 "Personal Activity" "CA|CP"
    ∷ row 177 "Personal Activity: Activity Detection" "CA|CP"
    ∷ row 178 "Personal Activity: Device Position" "CA|CP"
    ∷ row 179 "Personal Activity: Floor Tracker" "CA|CP"
    ∷ row 180 "Personal Activity: Pedometer" "CA|CP"
    ∷ row 181 "Personal Activity: Step Detection" "CA|CP"
    ∷ row 192 "Orientation Extended" "CA|CP"
    ∷ row 193 "Orientation Extended: Geomagnetic Orientation" "CA|CP"
    ∷ row 194 "Orientation Extended: Magnetometer" "CA|CP"
    ∷ row 208 "Gesture" "CA|CP"
    ∷ row 209 "Gesture: Chassis Flip Gesture" "CA|CP"
    ∷ row 210 "Gesture: Hinge Fold Gesture" "CA|CP"
    ∷ row 224 "Other" "CA|CP"
    ∷ row 225 "Other: Custom" "CA|CP"
    ∷ row 226 "Other: Generic" "CA|CP"
    ∷ row 227 "Other: Generic Enumerator" "CA|CP"
    ∷ row 228 "Other: Hinge Angle" "CA|CP"
    ∷ row 240 "Vendor Reserved 1" "CA|CP"
    ∷ row 241 "Vendor Reserved 2" "CA|CP"
    ∷ row 242 "Vendor Reserved 3" "CA|CP"
    ∷ row 243 "Vendor Reserved 4" "CA|CP"
    ∷ row 244 "Vendor Reserved 5" "CA|CP"
    ∷ row 245 "Vendor Reserved 6" "CA|CP"
    ∷ row 246 "Vendor Reserved 7" "CA|CP"
    ∷ row 247 "Vendor Reserved 8" "CA|CP"
    ∷ row 248 "Vendor Reserved 9" "CA|CP"
    ∷ row 249 "Vendor Reserved 10" "CA|CP"
    ∷ row 250 "Vendor Reserved 11" "CA|CP"
    ∷ row 251 "Vendor Reserved 12" "CA|CP"
    ∷ row 252 "Vendor Reserved 13" "CA|CP"
    ∷ row 253 "Vendor Reserved 14" "CA|CP"
    ∷ row 254 "Vendor Reserved 15" "CA|CP"
    ∷ row 255 "Vendor Reserved 16" "CA|CP"
    ∷ row 512 "Event" "DV"
    ∷ row 513 "Event: Sensor State" "NAry"
    ∷ row 514 "Event: Sensor Event" "NAry"
    ∷ row 768 "Property" "DV"
    ∷ row 769 "Property: Friendly Name" "SV"
    ∷ row 770 "Property: Persistent Unique ID" "DV"
    ∷ row 771 "Property: Sensor Status" "DV"
    ∷ row 772 "Property: Minimum Report Interval" "SV"
    ∷ row 773 "Property: Sensor Manufacturer" "SV"
    ∷ row 774 "Property: Sensor Model" "SV"
    ∷ row 775 "Property: Sensor Serial Number" "SV"
    ∷ row 776 "Property: Sensor Description" "SV"
    ∷ row 777 "Property: Sensor Connection Type" "NAry"
    ∷ row 778 "Property: Sensor Device Path" "DV"
    ∷ []
