-- ===== src/Tables/Usages/Sensors4.antt =====
-- Rows of the table of usages (components/ble_client_hid/usage_data.cpp).
use esphome_ble_remote.Prelude.{List, [], ◌∷◌}
use esphome_ble_remote.Tables.{UsageRecord, row}

abbrev pub sensors_4 : List UsageRecord
sensors_4 =
    row 1476 "Property: Custom Value 4" "DV"
    ∷ row 1477 "Property: Custom Value 5" "DV"
    ∷ row 1478 "Property: Custom Value 6" "DV"
    ∷ row 1479 "Property: Custom Value 7" "DV"
    ∷ row 1480 "Property: Custom Value 8" "DV"
    ∷ row 1481 "Property: Custom Value 9" "DV"
    ∷ row 1482 "Property: Custom Value 10" "DV"
    ∷ row 1483 "Property: Custom Value 11" "DV"
    ∷ row 1484 "Property: Custom Value 12" "DV"
    ∷ row 1485 "Property: Custom Value 13" "DV"
    ∷ row 1486 "Property: Custom Value 14" "DV"
    ∷ row 1487 "Property: Custom Value 15" "DV"
    ∷ row 1488 "Property: Custom Value 16" "DV"
    ∷ row 1504 "Data Field: Hinge" "SV|DV"
    ∷ row 1505 "Data Field: Hinge Angle" "SV|DV"
    ∷ row 1520 "Data Field: Gesture Sensor" "DV"
    ∷ row 1521 "Data Field: Gesture State" "NAry"
    ∷ row 1522 "Data Field: Hinge Fold Initial Angle" "SV"
    ∷ row 1523 "Data Field: Hinge Fold Final Angle" "SV"
    ∷ row 1524 "Data Field: Hinge Fold Contributing Panel" "NAry"
    ∷ row 1525 "Data Field: Hinge Fold Type" "NAry"
    ∷ row 2048 "Sensor State: Undefined" "Sel"
    ∷ row 2049 "Sensor State: Ready" "Sel"
    ∷ row 2050 "Sensor State: Not Available" "Sel"
    ∷ row 2051 "Sensor State: No Data" "Sel"
    ∷ row 2052 "Sensor State: Initializing" "Sel"
    ∷ row 2053 "Sensor State: Access Denied" "Sel"
    ∷ row 2054 "Sensor State: Error" "Sel"
    ∷ row 2064 "Sensor Event: Unknown" "Sel"
    ∷ row 2065 "Sensor Event: State Changed" "Sel"
    ∷ row 2066 "Sensor Event: Property Changed" "Sel"
    ∷ row 2067 "Sensor Event: Data Updated" "Sel"
    ∷ row 2068 "Sensor Event: Poll Response" "Sel"
    ∷ row 2069 "Sensor Event: Change Sensitivity" "Sel"
    ∷ row 2070 "Sensor Event: Range Maximum Reached" "Sel"
    ∷ row 2071 "Sensor Event: Range Minimum Reached" "Sel"
    ∷ row 2072 "Sensor Event: High Threshold Cross Upward" "Sel"
    ∷ row 2073 "Sensor Event: High Threshold Cross Downward" "Sel"
    ∷ row 2074 "Sensor Event: Low Threshold Cross Upward" "Sel"
    ∷ row 2075 "Sensor Event: Low Threshold Cross Downward" "Sel"
    ∷ row 2076 "Sensor Event: Zero Threshold Cross Upward" "Sel"
    ∷ row 2077 "Sensor Event: Zero Threshold Cross Downward" "Sel"
    ∷ row 2078 "Sensor Event: Period Exceeded" "Sel"
    ∷ row 2079 "Sensor Event: Frequency Exceeded" "Sel"
    ∷ row 2080 "Sensor Event: Complex Trigger" "Sel"
    ∷ row 2096 "Connection Type: PC Integrated" "Sel"
    ∷ row 2097 "Connection Type: PC Attached" "Sel"
    ∷ row 2098 "Connection Type: PC External" "Sel"
    ∷ row 2112 "Reporting State: Report No Events" "Sel"
    ∷ row 2113 "Reporting State: Report All Events" "Sel"
    ∷ row 2114 "Reporting State: Report Threshold Events" "Sel"
    ∷ row 2115 "Reporting State: Wake On No Events" "Sel"
    ∷ row 2116 "Reporting State: Wake On All Events" "Sel"
    ∷ row 2117 "Reporting State: Wake On Threshold Events" "Sel"
    ∷ row 2118 "Reporting State: Anytime" "Sel"
    ∷ row 2128 "Power State: Undefined" "Sel"
    ∷ row 2129 "Power State: D0 Full Power" "Sel"
    ∷ row 2130 "Power State: D1 Low Power" "Sel"
    ∷ row 2131 "Power State: D2 Standby Power with Wakeup" "Sel"
    ∷ row 2132 "Power State: D3 Sleep with Wakeup" "Sel"
    ∷ row 2133 "Power State: D4 Power Off" "Sel"
    ∷ row 2144 "Accuracy: Default" "Sel"
    ∷ row 2145 "Accuracy: High" "Sel"
    ∷ row 2146 "Accuracy: Medium" "Sel"
    ∷ row 2147 "Accuracy: Low" "Sel"
    ∷ row 2160 "Fix Quality: No Fix" "Sel"
    ∷ row 2161 "Fix Quality: GPS" "Sel"
    ∷ row 2162 "Fix Quality: DGPS" "Sel"
    ∷ row 2176 "Fix Type: No Fix" "Sel"
    ∷ row 2177 "Fix Type: GPS SPS Mode, Fix Valid" "Sel"
    ∷ row 2178 "Fix Type: DGPS SPS Mode, Fix Valid" "Sel"
    ∷ row 2179 "Fix Type: GPS PPS Mode, Fix Valid" "Sel"
    ∷ row 2180 "Fix Type: Real Time Kinematic" "Sel"
    ∷ row 2181 "Fix Type: Float RTK" "Sel"
    ∷ row 2182 "Fix Type: Estimated (dead reckoned)" "Sel"
    ∷ row 2183 "Fix Type: Manual Input Mode" "Sel"
    ∷ row 2184 "Fix Type: Simulator Mode" "Sel"
    ∷ row 2192 "GPS Operation Mode: Manual" "Sel"
    ∷ row 2193 "GPS Operation Mode: Automatic" "Sel"
    ∷ row 2208 "GPS Selection Mode: Autonomous" "Sel"
    ∷ row 2209 "GPS Selection Mode: DGPS" "Sel"
    ∷ row 2210 "GPS Selection Mode: Estimated (dead reckoned)" "Sel"
    ∷ row 2211 "GPS Selection Mode: Manual Input" "Sel"
    ∷ row 2212 "GPS Selection Mode: Simulator" "Sel"
    ∷ row 2213 "GPS Selection Mode: Data Not Valid" "Sel"
    ∷ row 2224 "GPS Status Data: Valid" "Sel"
    ∷ row 2225 "GPS Status Data: Not Valid" "Sel"
    ∷ row 2240 "Day of Week: Sunday" "Sel"
    ∷ row 2241 "Day of Week: Monday" "Sel"
    ∷ row 2242 "Day of Week: Tuesday" "Sel"
    ∷ row 2243 "Day of Week: Wednesday" "Sel"
    ∷ row 2244 "Day of Week: Thursday" "Sel"
    ∷ row 2245 "Day of Week: Friday" "Sel"
    ∷ row 2246 "Day of Week: Saturday" "Sel"
    ∷ row 2256 "Kind: Category" "Sel"
    ∷ row 2257 "Kind: Type" "Sel"
    ∷ row 2258 "Kind: Event" "Sel"
    ∷ row 2259 "Kind: Property" "Sel"
    ∷ row 2260 "Kind: Data Field" "Sel"
    ∷ row 2272 "Magnetometer Accuracy: Low" "Sel"
    ∷ row 2273 "Magnetometer Accuracy: Medium" "Sel"
    ∷ row 2274 "Magnetometer Accuracy: High" "Sel"
    ∷ row 2288 "Simple Orientation Direction: Not Rotated" "Sel"
    ∷ row 2289 "Simple Orientation Direction: Rotated 90 Degrees CCW" "Sel"
    ∷ row 2290 "Simple Orientation Direction: Rotated 180 Degrees CCW" "Sel"
    ∷ row 2291 "Simple Orientation Direction: Rotated 270 Degrees CCW" "Sel"
    ∷ row 2292 "Simple Orientation Direction: Face Up" "Sel"
    ∷ row 2293 "Simple Orientation Direction: Face Down" "Sel"
    ∷ row 2304 "VT\\_NULL" "Sel"
    ∷ row 2305 "VT\\_BOOL" "Sel"
    ∷ row 2306 "VT\\_UI1" "Sel"
    ∷ row 2307 "VT\\_I1" "Sel"
    ∷ row 2308 "VT\\_UI2" "Sel"
    ∷ row 2309 "VT\\_I2" "Sel"
    ∷ row 2310 "VT\\_UI4" "Sel"
    ∷ row 2311 "VT\\_I4" "Sel"
    ∷ row 2312 "VT\\_UI8" "Sel"
    ∷ row 2313 "VT\\_I8" "Sel"
    ∷ row 2314 "VT\\_R4" "Sel"
    ∷ row 2315 "VT\\_R8" "Sel"
    ∷ row 2316 "VT\\_WSTR" "Sel"
    ∷ row 2317 "VT\\_STR" "Sel"
    ∷ row 2318 "VT\\_CLSID" "Sel"
    ∷ row 2319 "VT\\_VECTOR VT\\_UI1" "Sel"
    ∷ row 2320 "VT\\_F16E0" "Sel"
    ∷ row 2321 "VT\\_F16E1" "Sel"
    ∷ row 2322 "VT\\_F16E2" "Sel"
    ∷ row 2323 "VT\\_F16E3" "Sel"
    ∷ row 2324 "VT\\_F16E4" "Sel"
    ∷ row 2325 "VT\\_F16E5" "Sel"
    ∷ row 2326 "VT\\_F16E6" "Sel"
    ∷ row 2327 "VT\\_F16E7" "Sel"
    ∷ row 2328 "VT\\_F16E8" "Sel"
    ∷ row 2329 "VT\\_F16E9" "Sel"
    ∷ row 2330 "VT\\_F16EA" "Sel"
    ∷ row 2331 "VT\\_F16EB" "Sel"
    ∷ row 2332 "VT\\_F16EC" "Sel"
    ∷ row 2333 "VT\\_F16ED" "Sel"
    ∷ row 2334 "VT\\_F16EE" "Sel"
    ∷ row 2335 "VT\\_F16EF" "Sel"
    ∷ []
