-- ===== src/Tables/Usages/Sensors5.antt =====
-- Rows of the table of usages (components/ble_client_hid/usage_data.cpp).
use esphome_ble_remote.Prelude.{List, [], ◌∷◌}
use esphome_ble_remote.Tables.{UsageRecord, row}

abbrev pub sensors_5 : List UsageRecord
sensors_5 =
    row 2336 "VT\\_F32E0" "Sel"
    ∷ row 2337 "VT\\_F32E1" "Sel"
    ∷ row 2338 "VT\\_F32E2" "Sel"
    ∷ row 2339 "VT\\_F32E3" "Sel"
    ∷ row 2340 "VT\\_F32E4" "Sel"
    ∷ row 2341 "VT\\_F32E5" "Sel"
    ∷ row 2342 "VT\\_F32E6" "Sel"
    ∷ row 2343 "VT\\_F32E7" "Sel"
    ∷ row 2344 "VT\\_F32E8" "Sel"
    ∷ row 2345 "VT\\_F32E9" "Sel"
    ∷ row 2346 "VT\\_F32EA" "Sel"
    ∷ row 2347 "VT\\_F32EB" "Sel"
    ∷ row 2348 "VT\\_F32EC" "Sel"
    ∷ row 2349 "VT\\_F32ED" "Sel"
    ∷ row 2350 "VT\\_F32EE" "Sel"
    ∷ row 2351 "VT\\_F32EF" "Sel"
    ∷ row 2352 "Activity Type: Unknown" "Sel"
    ∷ row 2353 "Activity Type: Stationary" "Sel"
    ∷ row 2354 "Activity Type: Fidgeting" "Sel"
    ∷ row 2355 "Activity Type: Walking" "Sel"
    ∷ row 2356 "Activity Type: Running" "Sel"
    ∷ row 2357 "Activity Type: In Vehicle" "Sel"
    ∷ row 2358 "Activity Type: Biking" "Sel"
    ∷ row 2359 "Activity Type: Idle" "Sel"
    ∷ row 2368 "Unit: Not Specified" "Sel"
    ∷ row 2369 "Unit: Lux" "Sel"
    ∷ row 2370 "Unit: Degrees Kelvin" "Sel"
    ∷ row 2371 "Unit: Degrees Celsius" "Sel"
    ∷ row 2372 "Unit: Pascal" "Sel"
    ∷ row 2373 "Unit: Newton" "Sel"
    ∷ row 2374 "Unit: Meters/Second" "Sel"
    ∷ row 2375 "Unit: Kilogram" "Sel"
    ∷ row 2376 "Unit: Meter" "Sel"
    ∷ row 2377 "Unit: Meters/Second/Second" "Sel"
    ∷ row 2378 "Unit: Farad" "Sel"
    ∷ row 2379 "Unit: Ampere" "Sel"
    ∷ row 2380 "Unit: Watt" "Sel"
    ∷ row 2381 "Unit: Henry" "Sel"
    ∷ row 2382 "Unit: Ohm" "Sel"
    ∷ row 2383 "Unit: Volt" "Sel"
    ∷ row 2384 "Unit: Hertz" "Sel"
    ∷ row 2385 "Unit: Bar" "Sel"
    ∷ row 2386 "Unit: Degrees Anti-clockwise" "Sel"
    ∷ row 2387 "Unit: Degrees Clockwise" "Sel"
    ∷ row 2388 "Unit: Degrees" "Sel"
    ∷ row 2389 "Unit: Degrees/Second" "Sel"
    ∷ row 2390 "Unit: Degrees/Second/Second" "Sel"
    ∷ row 2391 "Unit: Knot" "Sel"
    ∷ row 2392 "Unit: Percent" "Sel"
    ∷ row 2393 "Unit: Second" "Sel"
    ∷ row 2394 "Unit: Millisecond" "Sel"
    ∷ row 2395 "Unit: G" "Sel"
    ∷ row 2396 "Unit: Bytes" "Sel"
    ∷ row 2397 "Unit: Milligauss" "Sel"
    ∷ row 2398 "Unit: Bits" "Sel"
    ∷ row 2400 "Activity State: No State Change" "Sel"
    ∷ row 2401 "Activity State: Start Activity" "Sel"
    ∷ row 2402 "Activity State: End Activity" "Sel"
    ∷ row 2416 "Exponent 0" "Sel"
    ∷ row 2417 "Exponent 1" "Sel"
    ∷ row 2418 "Exponent 2" "Sel"
    ∷ row 2419 "Exponent 3" "Sel"
    ∷ row 2420 "Exponent 4" "Sel"
    ∷ row 2421 "Exponent 5" "Sel"
    ∷ row 2422 "Exponent 6" "Sel"
    ∷ row 2423 "Exponent 7" "Sel"
    ∷ row 2424 "Exponent 8" "Sel"
    ∷ row 2425 "Exponent 9" "Sel"
    ∷ row 2426 "Exponent A" "Sel"
    ∷ row 2427 "Exponent B" "Sel"
    ∷ row 2428 "Exponent C" "Sel"
    ∷ row 2429 "Exponent D" "Sel"
    ∷ row 2430 "Exponent E" "Sel"
    ∷ row 2431 "Exponent F" "Sel"
    ∷ row 2432 "Device Position: Unknown" "Sel"
    ∷ row 2433 "Device Position: Unchanged" "Sel"
    ∷ row 2434 "Device Position: On Desk" "Sel"
    ∷ row 2435 "Device Position: In Hand" "Sel"
    ∷ row 2436 "Device Position: Moving in Bag" "Sel"
    ∷ row 2437 "Device Position: Stationary in Bag" "Sel"
    ∷ row 2448 "Step Type: Unknown" "Sel"
    ∷ row 2449 "Step Type: Walking" "Sel"
    ∷ row 2450 "Step Type: Running" "Sel"
    ∷ row 2464 "Gesture State: Unknown" "Sel"
    ∷ row 2465 "Gesture State: Started" "Sel"
    ∷ row 2466 "Gesture State: Completed" "Sel"
    ∷ row 2467 "Gesture State: Cancelled" "Sel"
    ∷ row 2480 "Hinge Fold Contributing Panel: Unknown" "Sel"
    ∷ row 2481 "Hinge Fold Contributing Panel: Panel 1" "Sel"
    ∷ row 2482 "Hinge Fold Contributing Panel: Panel 2" "Sel"
    ∷ row 2483 "Hinge Fold Contributing Panel: Both" "Sel"
    ∷ row 2484 "Hinge Fold Type: Unknown" "Sel"
    ∷ row 2485 "Hinge Fold Type: Increasing" "Sel"
    ∷ row 2486 "Hinge Fold Type: Decreasing" "Sel"
    ∷ row 2496 "Human Presence Detection Type: Vendor-Defined Non-Biometric" "Sel"
    ∷ row 2497 "Human Presence Detection Type: Vendor-Defined Biometric" "Sel"
    ∷ row 2498 "Human Presence Detection Type: Facial Biometric" "Sel"
    ∷ row 2499 "Human Presence Detection Type: Audio Biometric" "Sel"
    ∷ row 4096 "Modifier: Change Sensitivity Absolute" "US"
    ∷ row 8192 "Modifier: Maximum" "US"
    ∷ row 12288 "Modifier: Minimum" "US"
    ∷ row 16384 "Modifier: Accuracy" "US"
    ∷ row 20480 "Modifier: Resolution" "US"
    ∷ row 24576 "Modifier: Threshold High" "US"
    ∷ row 28672 "Modifier: Threshold Low" "US"
    ∷ row 32768 "Modifier: Calibration Offset" "US"
    ∷ row 36864 "Modifier: Calibration Multiplier" "US"
    ∷ row 40960 "Modifier: Report Interval" "US"
    ∷ row 45056 "Modifier: Frequency Max" "US"
    ∷ row 49152 "Modifier: Period Max" "US"
    ∷ row 53248 "Modifier: Change Sensitivity Percent of Range" "US"
    ∷ row 57344 "Modifier: Change Sensitivity Percent Relative" "US"
    ∷ row 61440 "Modifier: Vendor Reserved" "US"
    ∷ []

abbrev pub medical_instrument : List UsageRecord
medical_instrument =
    row 1 "Medical Ultrasound" "CA"
    ∷ row 32 "VCR/Acquisition" "OOC"
    ∷ row 33 "Freeze/Thaw" "OOC"
    ∷ row 34 "Clip Store" "OSC"
    ∷ row 35 "Update" "OSC"
    ∷ row 36 "Next" "OSC"
    ∷ row 37 "Save" "OSC"
    ∷ row 38 "Print" "OSC"
    ∷ row 39 "Microphone Enable" "OSC"
    ∷ row 64 "Cine" "LC"
    ∷ row 65 "Transmit Power" "LC"
    ∷ row 66 "Volume" "LC"
    ∷ row 67 "Focus" "LC"
    ∷ row 68 "Depth" "LC"
    ∷ row 96 "Soft Step - Primary" "LC"
    ∷ row 97 "Soft Step - Secondary" "LC"
    ∷ row 112 "Depth Gain Compensation" "LC"
    ∷ row 128 "Zoom Select" "OSC"
    ∷ row 129 "Zoom Adjust" "LC"
    ∷ row 130 "Spectral Doppler Mode Select" "OSC"
    ∷ row 131 "Spectral Doppler Adjust" "LC"
    ∷ row 132 "Color Doppler Mode Select" "OSC"
    ∷ row 133 "Color Doppler Adjust" "LC"
    ∷ row 134 "Motion Mode Select" "OSC"
    ∷ row 135 "Motion Mode Adjust" "LC"
    ∷ row 136 "2-D Mode Select" "OSC"
    ∷ row 137 "2-D Mode Adjust" "LC"
    ∷ row 160 "Soft Control Select" "OSC"
    ∷ row 161 "Soft Control Adjust" "LC"
    ∷ []

abbrev pub braille_display : List UsageRecord
braille_display =
    row 1 "Braille Display" "CA"
    ∷ row 2 "Braille Row" "NAry"
    ∷ row 3 "8 Dot Braille Cell" "DV"
    ∷ row 4 "6 Dot Braille Cell" "DV"
    ∷ row 5 "Number of Braille Cells" "DV"
    ∷ row 6 "Screen Reader Control" "NAry"
    ∷ row 7 "Screen Reader Identifier" "DV"
    ∷ row 250 "Router Set 1" "NAry"
    ∷ row 251 "Router Set 2" "NAry"
    ∷ row 252 "Router Set 3" "NAry"
    ∷ row 256 "Router Key" "Sel"
    ∷ row 257 "Row Router Key" "Sel"
    ∷ row 512 "Braille Buttons" "NAry"
    ∷ row 513 "Braille Keyboard Dot 1" "Sel"
    ∷ row 514 "Braille Keyboard Dot 2" "Sel"
    ∷ row 515 "Braille Keyboard Dot 3" "Sel"
    ∷ row 516 "Braille Keyboard Dot 4" "Sel"
    ∷ row 517 "Braille Keyboard Dot 5" "Sel"
    ∷ row 518 "Braille Keyboard Dot 6" "Sel"
    ∷ row 519 "Braille Keyboard Dot 7" "Sel"
    ∷ row 520 "Braille Keyboard Dot 8" "Sel"
    ∷ row 521 "Braille Keyboard Space" "Sel"
    ∷ row 522 "Braille Keyboard Left Space" "Sel"
    ∷ row 523 "Braille Keyboard Right Space" "Sel"
    ∷ row 524 "Braille Face Controls" "NAry"
    ∷ row 525 "Braille Left Controls" "NAry"
    ∷ row 526 "Braille Right Controls" "NAry"
    ∷ row 527 "Braille Top Controls" "NAry"
    ∷ row 528 "Braille Joystick Center" "Sel"
    ∷ row 529 "Braille Joystick Up" "Sel"
    ∷ row 530 "Braille Joystick Down" "Sel"
    ∷ row 531 "Braille Joystick Left" "Sel"
    ∷ row 532 "Braille Joystick Right" "Sel"
    ∷ row 533 "Braille D-Pad Center" "Sel"
    ∷ row 534 "Braille D-Pad Up" "Sel"
    ∷ row 535 "Braille D-Pad Down" "Sel"
    ∷ row 536 "Braille D-Pad Left" "Sel"
    ∷ row 537 "Braille D-Pad Right" "Sel"
    ∷ row 538 "Braille Pan Left" "Sel"
    ∷ row 539 "Braille Pan Right" "Sel"
    ∷ row 540 "Braille Rocker Up" "Sel"
    ∷ row 541 "Braille Rocker Down" "Sel"
    ∷ row 542 "Braille Rocker Press" "Sel"
    ∷ []

abbrev pub lighting_and_illumination : List UsageRecord
lighting_and_illumination =
    row 1 "LampArray" "CA"
    ∷ row 2 "LampArrayAttributesReport" "CL"
    ∷ row 3 "LampCount" "SV|DV"
    ∷ row 4 "BoundingBoxWidthInMicrometers" "SV"
    ∷ row 5 "BoundingBoxHeightInMicrometers" "SV"
    ∷ row 6 "BoundingBoxDepthInMicrometers" "SV"
    ∷ row 7 "LampArrayKind" "SV"
    ∷ row 8 "MinUpdateIntervalInMicroseconds" "SV"
    ∷ row 32 "LampAttributesRequestReport" "CL"
    ∷ row 33 "LampId" "SV|DV"
    ∷ row 34 "LampAttributesResponseReport" "CL"
    ∷ row 35 "PositionXInMicrometers" "DV"
    ∷ row 36 "PositionYInMicrometers" "DV"
    ∷ row 37 "PositionZInMicrometers" "DV"
    ∷ row 38 "LampPurposes" "DV"
    ∷ row 39 "UpdateLatencyInMicroseconds" "DV"
    ∷ row 40 "RedLevelCount" "DV"
    ∷ row 41 "GreenLevelCount" "DV"
    ∷ row 42 "BlueLevelCount" "DV"
    ∷ row 43 "IntensityLevelCount" "DV"
    ∷ row 44 "IsProgrammable" "DV"
    ∷ row 45 "InputBinding" "DV"
    ∷ row 80 "LampMultiUpdateReport" "CL"
    ∷ row 81 "RedUpdateChannel" "DV"
    ∷ row 82 "GreenUpdateChannel" "DV"
    ∷ row 83 "BlueUpdateChannel" "DV"
    ∷ row 84 "IntensityUpdateChannel" "DV"
    ∷ row 85 "LampUpdateFlags" "DV"
    ∷ row 96 "LampRangeUpdateReport" "CL"
    ∷ row 97 "LampIdStart" "DV"
    ∷ row 98 "LampIdEnd" "DV"
    ∷ row 112 "LampArrayControlReport" "CL"
    ∷ row 113 "AutonomousMode" "DV"
    ∷ []

abbrev pub monitor : List UsageRecord
monitor =
    row 1 "Monitor Control" "CA"
    ∷ row 2 "EDID Information" "SV"
    ∷ row 3 "VDIF Information" "SV"
    ∷ row 4 "VESA Version" "SV"
    ∷ []
