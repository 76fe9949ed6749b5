-- ===== src/Tables/Usages/Digitizers.antt =====
-- Rows of the table of usages (components/ble_client_hid/usage_data.cpp).
use esphome_ble_remote.Prelude.{List, [], ◌∷◌}
use esphome_ble_remote.Tables.{UsageRecord, row}

abbrev pub digitizers : List UsageRecord
digitizers =
    row 1 "Digitizer" "CA"
    ∷ row 2 "Pen" "CA"
    ∷ row 3 "Light Pen" "CA"
    ∷ row 4 "Touch Screen" "CA"
    ∷ row 5 "Touch Pad" "CA"
    ∷ row 6 "Whiteboard" "CA"
    ∷ row 7 "Coordinate Measuring Machine" "CA"
    ∷ row 8 "3D Digitizer" "CA"
    ∷ row 9 "Stereo Plotter" "CA"
    ∷ row 10 "Articulated Arm" "CA"
    ∷ row 11 "Armature" "CA"
    ∷ row 12 "Multiple Point Digitizer" "CA"
    ∷ row 13 "Free Space Wand" "CA"
    ∷ row 14 "Device Configuration" "CA"
    ∷ row 15 "Capacitive Heat Map Digitizer" "CA"
    ∷ row 32 "Stylus" "CA|CL"
    ∷ row 33 "Puck" "CL"
    ∷ row 34 "Finger" "CL"
    ∷ row 35 "Device settings" "CL"
    ∷ row 36 "Character Gesture" "CL"
    ∷ row 48 "Tip Pressure" "DV"
    ∷ row 49 "Barrel Pressure" "DV"
    ∷ row 50 "In Range" "MC"
    ∷ row 51 "Touch" "MC"
    ∷ row 52 "Untouch" "OSC"
    ∷ row 53 "Tap" "OSC"
    ∷ row 54 "Quality" "DV"
    ∷ row 55 "Data Valid" "MC"
    ∷ row 56 "Transducer Index" "DV"
    ∷ row 57 "Tablet Function Keys" "CL"
    ∷ row 58 "Program Change Keys" "CL"
    ∷ row 59 "Battery Strength" "DV"
    ∷ row 60 "Invert" "MC"
    ∷ row 61 "X Tilt" "DV"
    ∷ row 62 "Y Tilt" "DV"
    ∷ row 63 "Azimuth" "DV"
    ∷ row 64 "Altitude" "DV"
    ∷ row 65 "Twist" "DV"
    ∷ row 66 "Tip Switch" "MC"
    ∷ row 67 "Secondary Tip Switch" "MC"
    ∷ row 68 "Barrel Switch" "MC"
    ∷ row 69 "Eraser" "MC"
    ∷ row 70 "Tablet Pick" "MC"
    ∷ row 71 "Touch Valid" "MC"
    ∷ row 72 "Width" "DV"
    ∷ row 73 "Height" "DV"
    ∷ row 81 "Contact Identifier" "DV"
    ∷ row 82 "Device Mode" "DV"
    ∷ row 83 "Device Identifier" "DV|SV"
    ∷ row 84 "Contact Count" "DV"
    ∷ row 85 "Contact Count Maximum" "SV"
    ∷ row 86 "Scan Time" "DV"
    ∷ row 87 "Surface Switch" "DF"
    ∷ row 88 "Button Switch" "DF"
    ∷ row 89 "Pad Type" "SF"
    ∷ row 90 "Secondary Barrel Switch" "MC"
    ∷ row 91 "Transducer Serial Number" "SV"
    ∷ row 92 "Preferred Color" "DV"
    ∷ row 93 "Preferred Color is Locked" "MC"
    ∷ row 94 "Preferred Line Width" "DV"
    ∷ row 95 "Preferred Line Width is Locked" "MC"
    ∷ row 96 "Latency Mode" "DF"
    ∷ row 97 "Gesture Character Quality" "DV"
    ∷ row 98 "Character Gesture Data Length" "DV"
    ∷ row 99 "Character Gesture Data" "DV"
    ∷ row 100 "Gesture Character Encoding" "NAry"
    ∷ row 101 "UTF8 Character Gesture Encoding" "Sel"
    ∷ row 102 "UTF16 Little Endian Character Gesture Encoding" "Sel"
    ∷ row 103 "UTF16 Big Endian Character Gesture Encoding" "Sel"
    ∷ row 104 "UTF32 Little Endian Character Gesture Encoding" "Sel"
    ∷ row 105 "UTF32 Big Endian Character Gesture Encoding" "Sel"
    ∷ row 106 "Capacitive Heat Map Protocol Vendor ID" "SV"
    ∷ row 107 "Capacitive Heat Map Protocol Version" "SV"
    ∷ row 108 "Capacitive Heat Map Frame Data" "DV"
    ∷ row 109 "Gesture Character Enable" "DF"
    ∷ row 110 "Transducer Serial Number Part 2" "SV"
    ∷ row 111 "No Preferred Color" "DF"
    ∷ row 112 "Preferred Line Style" "NAry"
    ∷ row 113 "Preferred Line Style is Locked" "MC"
    ∷ row 114 "Ink" "Sel"
    ∷ row 115 "Pencil" "Sel"
    ∷ row 116 "Highlighter" "Sel"
    ∷ row 117 "Chisel Marker" "Sel"
    ∷ row 118 "Brush" "Sel"
    ∷ row 119 "No Preference" "Sel"
    ∷ row 128 "Digitizer Diagnostic" "CL"
    ∷ row 129 "Digitizer Error" "NAry"
    ∷ row 130 "Err Normal Status" "Sel"
    ∷ row 131 "Err Transducers Exceeded" "Sel"
    ∷ row 132 "Err Full Trans Features Unavailable" "Sel"
    ∷ row 133 "Err Charge Low" "Sel"
    ∷ row 144 "Transducer Software Info" "CL"
    ∷ row 145 "Transducer Vendor Id" "SV"
    ∷ row 146 "Transducer Product Id" "SV"
    ∷ row 147 "Device Supported Protocols" "NAry|CL"
    ∷ row 148 "Transducer Supported Protocols" "NAry|CL"
    ∷ row 149 "No Protocol" "Sel"
    ∷ row 150 "Wacom AES Protocol" "Sel"
    ∷ row 151 "USI Protocol" "Sel"
    ∷ row 152 "Microsoft Pen Protocol" "Sel"
    ∷ row 160 "Supported Report Rates" "SV|CL"
    ∷ row 161 "Report Rate" "DV"
    ∷ row 162 "Transducer Connected" "SF"
    ∷ row 163 "Switch Disabled" "Sel"
    ∷ row 164 "Switch Unimplemented" "Sel"
    ∷ row 165 "Transducer Switches" "CL"
    ∷ row 166 "Transducer Index Selector" "DV"
    ∷ row 176 "Button Press Threshold" "DV"
    ∷ []

abbrev pub haptics : List UsageRecord
haptics =
    row 1 "Simple Haptic Controller" "CA|CL"
    ∷ row 16 "Waveform List" "NAry"
    ∷ row 17 "Duration List" "NAry"
    ∷ row 32 "Auto Trigger" "DV"
    ∷ row 33 "Manual Trigger" "DV"
    ∷ row 34 "Auto Trigger Associated Control" "SV"
    ∷ row 35 "Intensity" "DV"
    ∷ row 36 "Repeat Count" "DV"
    ∷ row 37 "Retrigger Period" "DV"
    ∷ row 38 "Waveform Vendor Page" "SV"
    ∷ row 39 "Waveform Vendor ID" "SV"
    ∷ row 40 "Waveform Cutoff Time" "SV"
    ∷ row 4097 "Waveform None" "SV"
    ∷ row 4098 "Waveform Stop" "SV"
    ∷ row 4099 "Waveform Click" "SV"
    ∷ row 4100 "Waveform Buzz Continuous" "SV"
    ∷ row 4101 "Waveform Rumble Continuous" "SV"
    ∷ row 4102 "Waveform Press" "SV"
    ∷ row 4103 "Waveform Release" "SV"
    ∷ row 4104 "Waveform Hover" "SV"
    ∷ row 4105 "Waveform Success" "SV"
    ∷ row 4106 "Waveform Error" "SV"
    ∷ row 4107 "Waveform Ink Continuous" "SV"
    ∷ row 4108 "Waveform Pencil Continuous" "SV"
    ∷ row 4109 "Waveform Marker Continuous" "SV"
    ∷ row 4110 "Waveform Chisel Marker Continuous" "SV"
    ∷ row 4111 "Waveform Brush Continuous" "SV"
    ∷ row 4112 "Waveform Eraser Continuous" "SV"
    ∷ row 4113 "Waveform Sparkle Continuous" "SV"
    ∷ []
