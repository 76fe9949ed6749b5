-- ===== src/Tables/Usages/PhysicalInputDevice.antt =====
-- Rows of the table of usages (components/ble_client_hid/usage_data.cpp).
use esphome_ble_remote.Prelude.{List, [], ◌∷◌}
use esphome_ble_remote.Tables.{UsageRecord, row}

abbrev pub physical_input_device : List UsageRecord
physical_input_device =
    row 1 "Physical Input Device" "CA"
    ∷ row 32 "Normal" "DV"
    ∷ row 33 "Set Effect Report" "CL"
    ∷ row 34 "Effect Parameter Block Index" "DV"
    ∷ row 35 "Parameter Block Offset" "DV"
    ∷ row 36 "ROM Flag" "DF"
    ∷ row 37 "Effect Type" "NAry"
    ∷ row 38 "ET Constant-Force" "Sel"
    ∷ row 39 "ET Ramp" "Sel"
    ∷ row 40 "ET Custom-Force" "Sel"
    ∷ row 48 "ET Square" "Sel"
    ∷ row 49 "ET Sine" "Sel"
    ∷ row 50 "ET Triangle" "Sel"
    ∷ row 51 "ET Sawtooth Up" "Sel"
    ∷ row 52 "ET Sawtooth Down" "Sel"
    ∷ row 64 "ET Spring" "Sel"
    ∷ row 65 "ET Damper" "Sel"
    ∷ row 66 "ET Inertia" "Sel"
    ∷ row 67 "ET Friction" "Sel"
    ∷ row 80 "Duration" "DV"
    ∷ row 81 "Sample Period" "DV"
    ∷ row 82 "Gain" "DV"
    ∷ row 83 "Trigger Button" "DV"
    ∷ row 84 "Trigger Repeat Interval" "DV"
    ∷ row 85 "Axes Enable" "US"
    ∷ row 86 "Direction Enable" "DF"
    ∷ row 87 "Direction" "CL"
    ∷ row 88 "Type Specific Block Offset" "CL"
    ∷ row 89 "Block Type" "NAry"
    ∷ row 90 "Set Envelope Report" "CL|SV"
    ∷ row 91 "Attack Level" "DV"
    ∷ row 92 "Attack Time" "DV"
    ∷ row 93 "Fade Level" "DV"
    ∷ row 94 "Fade Time" "DV"
    ∷ row 95 "Set Condition Report" "CL|SV"
    ∷ row 96 "Center-Point Offset" "DV"
    ∷ row 97 "Positive Coefficient" "DV"
    ∷ row 98 "Negative Coefficient" "DV"
    ∷ row 99 "Positive Saturation" "DV"
    ∷ row 100 "Negative Saturation" "DV"
    ∷ row 101 "Dead Band" "DV"
    ∷ row 102 "Download Force Sample" "CL"
    ∷ row 103 "Isoch Custom-Force Enable" "DF"
    ∷ row 104 "Custom-Force Data Report" "CL"
    ∷ row 105 "Custom-Force Data" "DV"
    ∷ row 106 "Custom-Force Vendor Defined Data" "DV"
    ∷ row 107 "Set Custom-Force Report" "CL|SV"
    ∷ row 108 "Custom-Force Data Offset" "DV"
    ∷ row 109 "Sample Count" "DV"
    ∷ row 110 "Set Periodic Report" "CL|SV"
    ∷ row 111 "Offset" "DV"
    ∷ row 112 "Magnitude" "DV"
    ∷ row 113 "Phase" "DV"
    ∷ row 114 "Period" "DV"
    ∷ row 115 "Set Constant-Force Report" "CL|SV"
    ∷ row 116 "Set Ramp-Force Report" "CL|SV"
    ∷ row 117 "Ramp Start" "DV"
    ∷ row 118 "Ramp End" "DV"
    ∷ row 119 "Effect Operation Report" "CL"
    ∷ row 120 "Effect Operation" "NAry"
    ∷ row 121 "Op Effect Start" "Sel"
    ∷ row 122 "Op Effect Start Solo" "Sel"
    ∷ row 123 "Op Effect Stop" "Sel"
    ∷ row 124 "Loop Count" "DV"
    ∷ row 125 "Device Gain Report" "CL"
    ∷ row 126 "Device Gain" "DV"
    ∷ row 127 "Parameter Block Pools Report" "CL"
    ∷ row 128 "RAM Pool Size" "DV"
    ∷ row 129 "ROM Pool Size" "SV"
    ∷ row 130 "ROM Effect Block Count" "SV"
    ∷ row 131 "Simultaneous Effects Max" "SV"
    ∷ row 132 "Pool Alignment" "SV"
    ∷ row 133 "Parameter Block Move Report" "CL"
    ∷ row 134 "Move Source" "DV"
    ∷ row 135 "Move Destination" "DV"
    ∷ row 136 "Move Length" "DV"
    ∷ row 137 "Effect Parameter Block Load Report" "CL"
    ∷ row 139 "Effect Parameter Block Load Status" "NAry"
    ∷ row 140 "Block Load Success" "Sel"
    ∷ row 141 "Block Load Full" "Sel"
    ∷ row 142 "Block Load Error" "Sel"
    ∷ row 143 "Block Handle" "DV"
    ∷ row 144 "Effect Parameter Block Free Report" "CL"
    ∷ row 145 "Type Specific Block Handle" "CL"
    ∷ row 146 "PID State Report" "CL"
    ∷ row 148 "Effect Playing" "DF"
    ∷ row 149 "PID Device Control Report" "CL"
    ∷ row 150 "PID Device Control" "NAry"
    ∷ row 151 "DC Enable Actuators" "Sel"
    ∷ row 152 "DC Disable Actuators" "Sel"
    ∷ row 153 "DC Stop All Effects" "Sel"
    ∷ row 154 "DC Reset" "Sel"
    ∷ row 155 "DC Pause" "Sel"
    ∷ row 156 "DC Continue" "Sel"
    ∷ row 159 "Device Paused" "DF"
    ∷ row 160 "Actuators Enabled" "DF"
    ∷ row 164 "Safety Switch" "DF"
    ∷ row 165 "Actuator Override Switch" "DF"
    ∷ row 166 "Actuator Power" "OOC"
    ∷ row 167 "Start Delay" "DV"
    ∷ row 168 "Parameter Block Size" "CL"
    ∷ row 169 "Device-Managed Pool" "SF"
    ∷ row 170 "Shared Parameter Blocks" "SF"
    ∷ row 171 "Create New Effect Parameter Block Report" "CL"
    ∷ row 172 "RAM Pool Available" "DV"
    ∷ []

abbrev pub soc : List UsageRecord
soc =
    row 1 "SocControl" "CA"
    ∷ row 2 "FirmwareTransfer" "CL"
    ∷ row 3 "FirmwareFileId" "DV"
    ∷ row 4 "FileOffsetInBytes" "DV"
    ∷ row 5 "FileTransferSizeMaxInBytes" "DV"
    ∷ row 6 "FilePayload" "DV"
    ∷ row 7 "FilePayloadSizeInBytes" "DV"
    ∷ row 8 "FilePayloadContainsLastBytes" "DF"
    ∷ row 9 "FileTransferStop" "DF"
    ∷ row 10 "FileTransferTillEnd" "DF"
    ∷ []

abbrev pub eye_and_head_trackers : List UsageRecord
eye_and_head_trackers =
    row 1 "Eye Tracker" "CA"
    ∷ row 2 "Head Tracker" "CA"
    ∷ row 16 "Tracking Data" "CP"
    ∷ row 17 "Capabilities" "CL"
    ∷ row 18 "Configuration" "CL"
    ∷ row 19 "Status" "CL"
    ∷ row 20 "Control" "CL"
    ∷ row 32 "Sensor Timestamp" "DV"
    ∷ row 33 "Position X" "DV"
    ∷ row 34 "Position Y" "DV"
    ∷ row 35 "Position Z" "DV"
    ∷ row 36 "Gaze Point" "CP"
    ∷ row 37 "Left Eye Position" "CP"
    ∷ row 38 "Right Eye Position" "CP"
    ∷ row 39 "Head Position" "CP"
    ∷ row 40 "Head Direction Point" "CP"
    ∷ row 41 "Rotation about X axis" "DV"
    ∷ row 42 "Rotation about Y axis" "DV"
    ∷ row 43 "Rotation about Z axis" "DV"
    ∷ row 256 "Tracker Quality" "SV"
    ∷ row 257 "Minimum Tracking Distance" "SV"
    ∷ row 258 "Optimum Tracking Distance" "SV"
    ∷ row 259 "Maximum Tracking Distance" "SV"
    ∷ row 260 "Maximum Screen Plane Width" "SV"
    ∷ row 261 "Maximum Screen Plane Height" "SV"
    ∷ row 512 "Display Manufacturer ID" "SV"
    ∷ row 513 "Display Product ID" "SV"
    ∷ row 514 "Display Serial Number" "SV"
    ∷ row 515 "Display Manufacturer Date" "SV"
    ∷ row 516 "Calibrated Screen Width" "SV"
    ∷ row 517 "Calibrated Screen Height" "SV"
    ∷ row 768 "Sampling Frequency" "DV"
    ∷ row 769 "Configuration Status" "DV"
    ∷ row 1024 "Device Mode Request" "DV"
    ∷ []

abbrev pub auxiliary_display : List UsageRecord
auxiliary_display =
    row 1 "Alphanumeric Display" "CA"
    ∷ row 2 "Auxiliary Display" "CA"
    ∷ row 32 "Display Attributes Report" "CL"
    ∷ row 33 "ASCII Character Set" "SF"
    ∷ row 34 "Data Read Back" "SF"
    ∷ row 35 "Font Read Back" "SF"
    ∷ row 36 "Display Control Report" "CL"
    ∷ row 37 "Clear Display" "DF"
    ∷ row 38 "Display Enable" "DF"
    ∷ row 39 "Screen Saver Delay" "SV|DV"
    ∷ row 40 "Screen Saver Enable" "DF"
    ∷ row 41 "Vertical Scroll" "SF|DF"
    ∷ row 42 "Horizontal Scroll" "SF|DF"
    ∷ row 43 "Character Report" "CL"
    ∷ row 44 "Display Data" "DV"
    ∷ row 45 "Display Status" "CL"
    ∷ row 46 "Stat Not Ready" "Sel"
    ∷ row 47 "Stat Ready" "Sel"
    ∷ row 48 "Err Not a loadable character" "Sel"
    ∷ row 49 "Err Font data cannot be read" "Sel"
    ∷ row 50 "Cursor Position Report" "Sel"
    ∷ row 51 "Row" "DV"
    ∷ row 52 "Column" "DV"
    ∷ row 53 "Rows" "SV"
    ∷ row 54 "Columns" "SV"
    ∷ row 55 "Cursor Pixel Positioning" "SF"
    ∷ row 56 "Cursor Mode" "DF"
    ∷ row 57 "Cursor Enable" "DF"
    ∷ row 58 "Cursor Blink" "DF"
    ∷ row 59 "Font Report" "CL"
    ∷ row 60 "Font Data" "BufferedBytes"
    ∷ row 61 "Character Width" "SV"
    ∷ row 62 "Character Height" "SV"
    ∷ row 63 "Character Spacing Horizontal" "SV"
    ∷ row 64 "Character Spacing Vertical" "SV"
    ∷ row 65 "Unicode Character Set" "SF"
    ∷ row 66 "Font 7-Segment" "SF"
    ∷ row 67 "7-Segment Direct Map" "SF"
    ∷ row 68 "Font 14-Segment" "SF"
    ∷ row 69 "14-Segment Direct Map" "SF"
    ∷ row 70 "Display Brightness" "DV"
    ∷ row 71 "Display Contrast" "DV"
    ∷ row 72 "Character Attribute" "CL"
    ∷ row 73 "Attribute Readback" "SF"
    ∷ row 74 "Attribute Data" "DV"
    ∷ row 75 "Char Attr Enhance" "OOC"
    ∷ row 76 "Char Attr Underline" "OOC"
    ∷ row 77 "Char Attr Blink" "OOC"
    ∷ row 128 "Bitmap Size X" "SV"
    ∷ row 129 "Bitmap Size Y" "SV"
    ∷ row 130 "Max Blit Size" "SV"
    ∷ row 131 "Bit Depth Format" "SV"
    ∷ row 132 "Display Orientation" "DV"
    ∷ row 133 "Palette Report" "CL"
    ∷ row 134 "Palette Data Size" "SV"
    ∷ row 135 "Palette Data Offset" "SV"
    ∷ row 136 "Palette Data" "BufferedBytes"
    ∷ row 138 "Blit Report" "CL"
    ∷ row 139 "Blit Rectangle X1" "SV"
    ∷ row 140 "Blit Rectangle Y1" "SV"
    ∷ row 141 "Blit Rectangle X2" "SV"
    ∷ row 142 "Blit Rectangle Y2" "SV"
    ∷ row 143 "Blit Data" "BufferedBytes"
    ∷ row 144 "Soft Button" "CL"
    ∷ row 145 "Soft Button ID" "SV"
    ∷ row 146 "Soft Button Side" "SV"
    ∷ row 147 "Soft Button Offset 1" "SV"
    ∷ row 148 "Soft Button Offset 2" "SV"
    ∷ row 149 "Soft Button Report" "SV"
    ∷ row 194 "Soft Keys" "SV"
    ∷ row 204 "Display Data Extensions" "SF"
    ∷ row 207 "Character Mapping" "SV"
    ∷ row 221 "Unicode Equivalent" "SV"
    ∷ row 223 "Character Page Mapping" "SV"
    ∷ row 255 "Request Report" "DV"
    ∷ []
