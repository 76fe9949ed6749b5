-- ===== src/Tables/Usages/Sensors2.antt =====
-- Rows of the table of usages (components/ble_client_hid/usage_data.cpp).
use esphome_ble_remote.Prelude.{List, [], ◌∷◌}
use esphome_ble_remote.Tables.{UsageRecord, row}

abbrev pub sensors_2 : List UsageRecord
sensors_2 =
    row 779 "Property: Hardware Revision" "SV"
    ∷ row 780 "Property: Firmware Version" "SV"
    ∷ row 781 "Property: Release Date" "SV"
    ∷ row 782 "Property: Report Interval" "DV"
    ∷ row 783 "Property: Change Sensitivity Absolute" "DV"
    ∷ row 784 "Property: Change Sensitivity Percent of Range" "DV"
    ∷ row 785 "Property: Change Sensitivity Percent Relative" "DV"
    ∷ row 786 "Property: Accuracy" "DV"
    ∷ row 787 "Property: Resolution" "DV"
    ∷ row 788 "Property: Maximum" "DV"
    ∷ row 789 "Property: Minimum" "DV"
    ∷ row 790 "Property: Reporting State" "NAry"
    ∷ row 791 "Property: Sampling Rate" "DV"
    ∷ row 792 "Property: Response Curve" "DV"
    ∷ row 793 "Property: Power State" "NAry"
    ∷ row 794 "Property: Maximum FIFO Events" "SV"
    ∷ row 795 "Property: Report Latency" "DV"
    ∷ row 796 "Property: Flush FIFO Events" "DF"
    ∷ row 797 "Property: Maximum Power Consumption" "DV"
    ∷ row 798 "Property: Is Primary" "DF"
    ∷ row 799 "Property: Human Presence Detection Type" "NAry"
    ∷ row 1024 "Data Field: Location" "DV"
    ∷ row 1026 "Data Field: Altitude Antenna Sea Level" "SV"
    ∷ row 1027 "Data Field: Differential Reference Station ID" "SV"
    ∷ row 1028 "Data Field: Altitude Ellipsoid Error" "SV"
    ∷ row 1029 "Data Field: Altitude Ellipsoid" "SV"
    ∷ row 1030 "Data Field: Altitude Sea Level Error" "SV"
    ∷ row 1031 "Data Field: Altitude Sea Level" "SV"
    ∷ row 1032 "Data Field: Differential GPS Data Age" "SV"
    ∷ row 1033 "Data Field: Error Radius" "SV"
    ∷ row 1034 "Data Field: Fix Quality" "NAry"
    ∷ row 1035 "Data Field: Fix Type" "NAry"
    ∷ row 1036 "Data Field: Geoidal Separation" "SV"
    ∷ row 1037 "Data Field: GPS Operation Mode" "NAry"
    ∷ row 1038 "Data Field: GPS Selection Mode" "NAry"
    ∷ row 1039 "Data Field: GPS Status" "NAry"
    ∷ row 1040 "Data Field: Position Dilution of Precision" "SV"
    ∷ row 1041 "Data Field: Horizontal Dilution of Precision" "SV"
    ∷ row 1042 "Data Field: Vertical Dilution of Precision" "SV"
    ∷ row 1043 "Data Field: Latitude" "SV"
    ∷ row 1044 "Data Field: Longitude" "SV"
    ∷ row 1045 "Data Field: True Heading" "SV"
    ∷ row 1046 "Data Field: Magnetic Heading" "SV"
    ∷ row 1047 "Data Field: Magnetic Variation" "SV"
    ∷ row 1048 "Data Field: Speed" "SV"
    ∷ row 1049 "Data Field: Satellites in View" "SV"
    ∷ row 1050 "Data Field: Satellites in View Azimuth" "SV"
    ∷ row 1051 "Data Field: Satellites in View Elevation" "SV"
    ∷ row 1052 "Data Field: Satellites in View IDs" "SV"
    ∷ row 1053 "Data Field: Satellites in View PRNs" "SV"
    ∷ row 1054 "Data Field: Satellites in View S/N Ratios" "SV"
    ∷ row 1055 "Data Field: Satellites Used Count" "SV"
    ∷ row 1056 "Data Field: Satellites Used PRNs" "SV"
    ∷ row 1057 "Data Field: NMEA Sentence" "SV"
    ∷ row 1058 "Data Field: Address Line 1" "SV"
    ∷ row 1059 "Data Field: Address Line 2" "SV"
    ∷ row 1060 "Data Field: City" "SV"
    ∷ row 1061 "Data Field: State or Province" "SV"
    ∷ row 1062 "Data Field: Country or Region" "SV"
    ∷ row 1063 "Data Field: Postal Code" "SV"
    ∷ row 1066 "Property: Location" "DV"
    ∷ row 1067 "Property: Location Desired Accuracy" "NAry"
    ∷ row 1072 "Data Field: Environmental" "SV"
    ∷ row 1073 "Data Field: Atmospheric Pressure" "SV"
    ∷ row 1075 "Data Field: Relative Humidity" "SV"
    ∷ row 1076 "Data Field: Temperature" "SV"
    ∷ row 1077 "Data Field: Wind Direction" "SV"
    ∷ row 1078 "Data Field: Wind Speed" "SV"
    ∷ row 1079 "Data Field: Air Quality Index" "SV"
    ∷ row 1080 "Data Field: Equivalent CO2" "SV"
    ∷ row 1081 "Data Field: Volatile Organic Compound Concentration" "SV"
    ∷ row 1082 "Data Field: Object Presence" "SF"
    ∷ row 1083 "Data Field: Object Proximity Range" "SV"
    ∷ row 1084 "Data Field: Object Proximity Out of Range" "SF"
    ∷ row 1088 "Property: Environmental" "SV"
    ∷ row 1089 "Property: Reference Pressure" "SV"
    ∷ row 1104 "Data Field: Motion" "DV"
    ∷ row 1105 "Data Field: Motion State" "SF"
    ∷ row 1106 "Data Field: Acceleration" "SV"
    ∷ row 1107 "Data Field: Acceleration Axis X" "SV"
    ∷ row 1108 "Data Field: Acceleration Axis Y" "SV"
    ∷ row 1109 "Data Field: Acceleration Axis Z" "SV"
    ∷ row 1110 "Data Field: Angular Velocity" "SV"
    ∷ row 1111 "Data Field: Angular Velocity about X Axis" "SV"
    ∷ row 1112 "Data Field: Angular Velocity about Y Axis" "SV"
    ∷ row 1113 "Data Field: Angular Velocity about Z Axis" "SV"
    ∷ row 1114 "Data Field: Angular Position" "SV"
    ∷ row 1115 "Data Field: Angular Position about X Axis" "SV"
    ∷ row 1116 "Data Field: Angular Position about Y Axis" "SV"
    ∷ row 1117 "Data Field: Angular Position about Z Axis" "SV"
    ∷ row 1118 "Data Field: Motion Speed" "SV"
    ∷ row 1119 "Data Field: Motion Intensity" "SV"
    ∷ row 1136 "Data Field: Orientation" "DV"
    ∷ row 1137 "Data Field: Heading" "SV"
    ∷ row 1138 "Data Field: Heading X Axis" "SV"
    ∷ row 1139 "Data Field: Heading Y Axis" "SV"
    ∷ row 1140 "Data Field: Heading Z Axis" "SV"
    ∷ row 1141 "Data Field: Heading Compensated Magnetic North" "SV"
    ∷ row 1142 "Data Field: Heading Compensated True North" "SV"
    ∷ row 1143 "Data Field: Heading Magnetic North" "SV"
    ∷ row 1144 "Data Field: Heading True North" "SV"
    ∷ row 1145 "Data Field: Distance" "SV"
    ∷ row 1146 "Data Field: Distance X Axis" "SV"
    ∷ row 1147 "Data Field: Distance Y Axis" "SV"
    ∷ row 1148 "Data Field: Distance Z Axis" "SV"
    ∷ row 1149 "Data Field: Distance Out-of-Range" "SF"
    ∷ row 1150 "Data Field: Tilt" "SV"
    ∷ row 1151 "Data Field: Tilt X Axis" "SV"
    ∷ row 1152 "Data Field: Tilt Y Axis" "SV"
    ∷ row 1153 "Data Field: Tilt Z Axis" "SV"
    ∷ row 1154 "Data Field: Rotation Matrix" "SV"
    ∷ row 1155 "Data Field: Quaternion" "SV"
    ∷ row 1156 "Data Field: Magnetic Flux" "SV"
    ∷ row 1157 "Data Field: Magnetic Flux X Axis" "SV"
    ∷ row 1158 "Data Field: Magnetic Flux Y Axis" "SV"
    ∷ row 1159 "Data Field: Magnetic Flux Z Axis" "SV"
    ∷ row 1160 "Data Field: Magnetometer Accuracy" "NAry"
    ∷ row 1161 "Data Field: Simple Orientation Direction" "NAry"
    ∷ row 1168 "Data Field: Mechanical" "DV"
    ∷ row 1169 "Data Field: Boolean Switch State" "SF"
    ∷ row 1170 "Data Field: Boolean Switch Array States" "SV"
    ∷ row 1171 "Data Field: Multivalue Switch Value" "SV"
    ∷ row 1172 "Data Field: Force" "SV"
    ∷ row 1173 "Data Field: Absolute Pressure" "SV"
    ∷ row 1174 "Data Field: Gauge Pressure" "SV"
    ∷ row 1175 "Data Field: Strain" "SV"
    ∷ row 1176 "Data Field: Weight" "SV"
    ∷ row 1184 "Property: Mechanical" "DV"
    ∷ row 1185 "Property: Vibration State" "DF"
    ∷ row 1186 "Property: Forward Vibration Speed" "DV"
    ∷ row 1187 "Property: Backward Vibration Speed" "DV"
    ∷ row 1200 "Data Field: Biometric" "DV"
    ∷ row 1201 "Data Field: Human Presence" "SF"
    ∷ row 1202 "Data Field: Human Proximity Range" "SV"
    ∷ row 1203 "Data Field: Human Proximity Out of Range" "SF"
    ∷ row 1204 "Data Field: Human Touch State" "SF"
    ∷ row 1205 "Data Field: Blood Pressure" "SV"
    ∷ row 1206 "Data Field: Blood Pressure Diastolic" "SV"
    ∷ row 1207 "Data Field: Blood Pressure Systolic" "SV"
    ∷ row 1208 "Data Field: Heart Rate" "SV"
    ∷ []
