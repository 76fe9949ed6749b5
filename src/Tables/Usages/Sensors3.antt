-- ===== src/Tables/Usages/Sensors3.antt =====
-- Rows of the table of usages (components/ble_client_hid/usage_data.cpp).
use esphome_ble_remote.Prelude.{List, [], ◌∷◌}
use esphome_ble_remote.Tables.{UsageRecord, row}

abbrev pub sensors_3 : List UsageRecord
sensors_3 =
    row 1209 "Data Field: Resting Heart Rate" "SV"
    ∷ row 1210 "Data Field: Heartbeat Interval" "SV"
    ∷ row 1211 "Data Field: Respiratory Rate" "SV"
    ∷ row 1212 "Data Field: SpO2" "SV"
    ∷ row 1213 "Data Field: Human Attention Detected" "MC"
    ∷ row 1214 "Data Field: Human Head Azimuth" "SV"
    ∷ row 1215 "Data Field: Human Head Altitude" "SV"
    ∷ row 1216 "Data Field: Human Head Roll" "SV"
    ∷ row 1217 "Data Field: Human Head Pitch" "SV"
    ∷ row 1218 "Data Field: Human Head Yaw" "SV"
    ∷ row 1219 "Data Field: Human Correlation Id" "SV"
    ∷ row 1232 "Data Field: Light" "DV"
    ∷ row 1233 "Data Field: Illuminance" "SV"
    ∷ row 1234 "Data Field: Color Temperature" "SV"
    ∷ row 1235 "Data Field: Chromaticity" "SV"
    ∷ row 1236 "Data Field: Chromaticity X" "SV"
    ∷ row 1237 "Data Field: Chromaticity Y" "SV"
    ∷ row 1238 "Data Field: Consumer IR Sentence Receive" "SV"
    ∷ row 1239 "Data Field: Infrared Light" "SV"
    ∷ row 1240 "Data Field: Red Light" "SV"
    ∷ row 1241 "Data Field: Green Light" "SV"
    ∷ row 1242 "Data Field: Blue Light" "SV"
    ∷ row 1243 "Data Field: Ultraviolet A Light" "SV"
    ∷ row 1244 "Data Field: Ultraviolet B Light" "SV"
    ∷ row 1245 "Data Field: Ultraviolet Index" "SV"
    ∷ row 1246 "Data Field: Near Infrared Light" "SV"
    ∷ row 1247 "Property: Light" "DV"
    ∷ row 1248 "Property: Consumer IR Sentence Send" "DV"
    ∷ row 1250 "Property: Auto Brightness Preferred" "DF"
    ∷ row 1251 "Property: Auto Color Preferred" "DF"
    ∷ row 1264 "Data Field: Scanner" "DV"
    ∷ row 1265 "Data Field: RFID Tag 40 Bit" "SV"
    ∷ row 1266 "Data Field: NFC Sentence Receive" "SV"
    ∷ row 1272 "Property: Scanner" "DV"
    ∷ row 1273 "Property: NFC Sentence Send" "SV"
    ∷ row 1280 "Data Field: Electrical" "SV"
    ∷ row 1281 "Data Field: Capacitance" "SV"
    ∷ row 1282 "Data Field: Current" "SV"
    ∷ row 1283 "Data Field: Electrical Power" "SV"
    ∷ row 1284 "Data Field: Inductance" "SV"
    ∷ row 1285 "Data Field: Resistance" "SV"
    ∷ row 1286 "Data Field: Voltage" "SV"
    ∷ row 1287 "Data Field: Frequency" "SV"
    ∷ row 1288 "Data Field: Period" "SV"
    ∷ row 1289 "Data Field: Percent of Range" "SV"
    ∷ row 1312 "Data Field: Time" "DV"
    ∷ row 1313 "Data Field: Year" "SV"
    ∷ row 1314 "Data Field: Month" "SV"
    ∷ row 1315 "Data Field: Day" "SV"
    ∷ row 1316 "Data Field: Day of Week" "NAry"
    ∷ row 1317 "Data Field: Hour" "SV"
    ∷ row 1318 "Data Field: Minute" "SV"
    ∷ row 1319 "Data Field: Second" "SV"
    ∷ row 1320 "Data Field: Millisecond" "SV"
    ∷ row 1321 "Data Field: Timestamp" "SV"
    ∷ row 1322 "Data Field: Julian Day of Year" "SV"
    ∷ row 1323 "Data Field: Time Since System Boot" "SV"
    ∷ row 1328 "Property: Time" "DV"
    ∷ row 1329 "Property: Time Zone Offset from UTC" "DV"
    ∷ row 1330 "Property: Time Zone Name" "DV"
    ∷ row 1331 "Property: Daylight Savings Time Observed" "DF"
    ∷ row 1332 "Property: Time Trim Adjustment" "DV"
    ∷ row 1333 "Property: Arm Alarm" "DF"
    ∷ row 1344 "Data Field: Custom" "DV"
    ∷ row 1345 "Data Field: Custom Usage" "SV"
    ∷ row 1346 "Data Field: Custom Boolean Array" "SV"
    ∷ row 1347 "Data Field: Custom Value" "SV"
    ∷ row 1348 "Data Field: Custom Value 1" "SV"
    ∷ row 1349 "Data Field: Custom Value 2" "SV"
    ∷ row 1350 "Data Field: Custom Value 3" "SV"
    ∷ row 1351 "Data Field: Custom Value 4" "SV"
    ∷ row 1352 "Data Field: Custom Value 5" "SV"
    ∷ row 1353 "Data Field: Custom Value 6" "SV"
    ∷ row 1354 "Data Field: Custom Value 7" "SV"
    ∷ row 1355 "Data Field: Custom Value 8" "SV"
    ∷ row 1356 "Data Field: Custom Value 9" "SV"
    ∷ row 1357 "Data Field: Custom Value 10" "SV"
    ∷ row 1358 "Data Field: Custom Value 11" "SV"
    ∷ row 1359 "Data Field: Custom Value 12" "SV"
    ∷ row 1360 "Data Field: Custom Value 13" "SV"
    ∷ row 1361 "Data Field: Custom Value 14" "SV"
    ∷ row 1362 "Data Field: Custom Value 15" "SV"
    ∷ row 1363 "Data Field: Custom Value 16" "SV"
    ∷ row 1364 "Data Field: Custom Value 17" "SV"
    ∷ row 1365 "Data Field: Custom Value 18" "SV"
    ∷ row 1366 "Data Field: Custom Value 19" "SV"
    ∷ row 1367 "Data Field: Custom Value 20" "SV"
    ∷ row 1368 "Data Field: Custom Value 21" "SV"
    ∷ row 1369 "Data Field: Custom Value 22" "SV"
    ∷ row 1370 "Data Field: Custom Value 23" "SV"
    ∷ row 1371 "Data Field: Custom Value 24" "SV"
    ∷ row 1372 "Data Field: Custom Value 25" "SV"
    ∷ row 1373 "Data Field: Custom Value 26" "SV"
    ∷ row 1374 "Data Field: Custom Value 27" "SV"
    ∷ row 1375 "Data Field: Custom Value 28" "SV"
    ∷ row 1376 "Data Field: Generic" "DV"
    ∷ row 1377 "Data Field: Generic GUID or PROPERTYKEY" "SV"
    ∷ row 1378 "Data Field: Generic Category GUID" "SV"
    ∷ row 1379 "Data Field: Generic Type GUID" "SV"
    ∷ row 1380 "Data Field: Generic Event PROPERTYKEY" "SV"
    ∷ row 1381 "Data Field: Generic Property PROPERTYKEY" "SV"
    ∷ row 1382 "Data Field: Generic Data Field PROPERTYKEY" "SV"
    ∷ row 1383 "Data Field: Generic Event" "SV"
    ∷ row 1384 "Data Field: Generic Property" "SV"
    ∷ row 1385 "Data Field: Generic Data Field" "SV"
    ∷ row 1386 "Data Field: Enumerator Table Row Index" "SV"
    ∷ row 1387 "Data Field: Enumerator Table Row Count" "SV"
    ∷ row 1388 "Data Field: Generic GUID or PROPERTYKEY kind" "NAry"
    ∷ row 1389 "Data Field: Generic GUID" "SV"
    ∷ row 1390 "Data Field: Generic PROPERTYKEY" "SV"
    ∷ row 1391 "Data Field: Generic Top Level Collection ID" "SV"
    ∷ row 1392 "Data Field: Generic Report ID" "SV"
    ∷ row 1393 "Data Field: Generic Report Item Position Index" "SV"
    ∷ row 1394 "Data Field: Generic Firmware VARTYPE" "NAry"
    ∷ row 1395 "Data Field: Generic Unit of Measure" "NAry"
    ∷ row 1396 "Data Field: Generic Unit Exponent" "NAry"
    ∷ row 1397 "Data Field: Generic Report Size" "SV"
    ∷ row 1398 "Data Field: Generic Report Count" "SV"
    ∷ row 1408 "Property: Generic" "DV"
    ∷ row 1409 "Property: Enumerator Table Row Index" "DV"
    ∷ row 1410 "Property: Enumerator Table Row Count" "SV"
    ∷ row 1424 "Data Field: Personal Activity" "DV"
    ∷ row 1425 "Data Field: Activity Type" "NAry"
    ∷ row 1426 "Data Field: Activity State" "NAry"
    ∷ row 1427 "Data Field: Device Position" "NAry"
    ∷ row 1428 "Data Field: Step Count" "SV"
    ∷ row 1429 "Data Field: Step Count Reset" "DF"
    ∷ row 1430 "Data Field: Step Duration" "SV"
    ∷ row 1431 "Data Field: Step Type" "NAry"
    ∷ row 1440 "Property: Minimum Activity Detection Interval" "DV"
    ∷ row 1441 "Property: Supported Activity Types" "NAry"
    ∷ row 1442 "Property: Subscribed Activity Types" "NAry"
    ∷ row 1443 "Property: Supported Step Types" "NAry"
    ∷ row 1444 "Property: Subscribed Step Types" "NAry"
    ∷ row 1445 "Property: Floor Height" "DV"
    ∷ row 1456 "Data Field: Custom Type ID" "SV"
    ∷ row 1472 "Property: Custom" "DV"
    ∷ row 1473 "Property: Custom Value 1" "DV"
    ∷ row 1474 "Property: Custom Value 2" "DV"
    ∷ row 1475 "Property: Custom Value 3" "DV"
    ∷ []
