-- ===== src/Tables/Usages/Consumer1.antt =====
-- Rows of the table of usages (components/ble_client_hid/usage_data.cpp).
use esphome_ble_remote.Prelude.{List, [], ◌∷◌}
use esphome_ble_remote.Tables.{UsageRecord, row}

abbrev pub consumer_1 : List UsageRecord
consumer_1 =
    row 1 "Consumer Control" "CA"
    ∷ row 2 "Numeric Key Pad" "NAry"
    ∷ row 3 "Programmable Buttons" "NAry"
    ∷ row 4 "Microphone" "CA"
    ∷ row 5 "Headphone" "CA"
    ∷ row 6 "Graphic Equalizer" "CA"
    ∷ row 7 "Keyboard Backlight" "CA"
    ∷ row 32 "+10" "OSC"
    ∷ row 33 "+100" "OSC"
    ∷ row 34 "AM/PM" "OSC"
    ∷ row 48 "Power" "OOC"
    ∷ row 49 "Reset" "OSC"
    ∷ row 50 "Sleep" "OSC"
    ∷ row 51 "Sleep After" "OSC"
    ∷ row 52 "Sleep Mode" "RTC"
    ∷ row 53 "Illumination" "OOC"
    ∷ row 54 "Function Buttons" "NAry"
    ∷ row 64 "Menu" "OOC"
    ∷ row 65 "Menu Pick" "OSC"
    ∷ row 66 "Menu Up" "OSC"
    ∷ row 67 "Menu Down" "OSC"
    ∷ row 68 "Menu Left" "OSC"
    ∷ row 69 "Menu Right" "OSC"
    ∷ row 70 "Menu Escape" "OSC"
    ∷ row 71 "Menu Value Increase" "OSC"
    ∷ row 72 "Menu Value Decrease" "OSC"
    ∷ row 96 "Data On Screen" "OOC"
    ∷ row 97 "Closed Caption" "OOC"
    ∷ row 98 "Closed Caption Select" "OSC"
    ∷ row 99 "VCR/TV" "OOC"
    ∷ row 100 "Broadcast Mode" "OSC"
    ∷ row 101 "Snapshot" "OSC"
    ∷ row 102 "Still" "OSC"
    ∷ row 103 "Picture-in-Picture Toggle" "OSC"
    ∷ row 104 "Picture-in-Picture Swap" "OSC"
    ∷ row 105 "Red Menu Button" "MC"
    ∷ row 106 "Green Menu Button" "MC"
    ∷ row 107 "Blue Menu Button" "MC"
    ∷ row 108 "Yellow Menu Button" "MC"
    ∷ row 109 "Aspect" "OSC"
    ∷ row 110 "3D Mode Select" "OSC"
    ∷ row 111 "Display Brightness Increment" "RTC"
    ∷ row 112 "Display Brightness Decrement" "RTC"
    ∷ row 113 "Display Brightness" "LC"
    ∷ row 114 "Display Backlight Toggle" "OOC"
    ∷ row 115 "Display Set Brightness to Minimum" "OSC"
    ∷ row 116 "Display Set Brightness to Maximum" "OSC"
    ∷ row 117 "Display Set Auto Brightness" "OOC"
    ∷ row 118 "Camera Access Enabled" "OOC"
    ∷ row 119 "Camera Access Disabled" "OOC"
    ∷ row 120 "Camera Access Toggle" "OOC"
    ∷ row 121 "Keyboard Brightness Increment" "OSC"
    ∷ row 122 "Keyboard Brightness Decrement" "OSC"
    ∷ row 123 "Keyboard Backlight Set Level" "LC"
    ∷ row 124 "Keyboard Backlight OOC" "OOC"
    ∷ row 125 "Keyboard Backlight Set Minimum" "OSC"
    ∷ row 126 "Keyboard Backlight Set Maximum" "OSC"
    ∷ row 127 "Keyboard Backlight Auto" "OOC"
    ∷ row 128 "Selection" "NAry"
    ∷ row 129 "Assign Selection" "OSC"
    ∷ row 130 "Mode Step" "OSC"
    ∷ row 131 "Recall Last" "OSC"
    ∷ row 132 "Enter Channel" "OSC"
    ∷ row 133 "Order Movie" "OSC"
    ∷ row 134 "Channel" "LC"
    ∷ row 135 "Media Selection" "NAry"
    ∷ row 136 "Media Select Computer" "Sel"
    ∷ row 137 "Media Select TV" "Sel"
    ∷ row 138 "Media Select WWW" "Sel"
    ∷ row 139 "Media Select DVD" "Sel"
    ∷ row 140 "Media Select Telephone" "Sel"
    ∷ row 141 "Media Select Program Guide" "Sel"
    ∷ row 142 "Media Select Video Phone" "Sel"
    ∷ row 143 "Media Select Games" "Sel"
    ∷ row 144 "Media Select Messages" "Sel"
    ∷ row 145 "Media Select CD" "Sel"
    ∷ row 146 "Media Select VCR" "Sel"
    ∷ row 147 "Media Select Tuner" "Sel"
    ∷ row 148 "Quit" "OSC"
    ∷ row 149 "Help" "OOC"
    ∷ row 150 "Media Select Tape" "Sel"
    ∷ row 151 "Media Select Cable" "Sel"
    ∷ row 152 "Media Select Satellite" "Sel"
    ∷ row 153 "Media Select Security" "Sel"
    ∷ row 154 "Media Select Home" "Sel"
    ∷ row 155 "Media Select Call" "Sel"
    ∷ row 156 "Channel Increment" "OSC"
    ∷ row 157 "Channel Decrement" "OSC"
    ∷ row 158 "Media Select SAP" "Sel"
    ∷ row 160 "VCR Plus" "OSC"
    ∷ row 161 "Once" "OSC"
    ∷ row 162 "Daily" "OSC"
    ∷ row 163 "Weekly" "OSC"
    ∷ row 164 "Monthly" "OSC"
    ∷ row 176 "Play" "OOC"
    ∷ row 177 "Pause" "OOC"
    ∷ row 178 "Record" "OOC"
    ∷ row 179 "Fast Forward" "OOC"
    ∷ row 180 "Rewind" "OOC"
    ∷ row 181 "Scan Next Track" "OSC"
    ∷ row 182 "Scan Previous Track" "OSC"
    ∷ row 183 "Stop" "OSC"
    ∷ row 184 "Eject" "OSC"
    ∷ row 185 "Random Play" "OOC"
    ∷ row 186 "Select Disc" "NAry"
    ∷ row 187 "Enter Disc" "MC"
    ∷ row 188 "Repeat" "OSC"
    ∷ row 189 "Tracking" "LC"
    ∷ row 190 "Track Normal" "OSC"
    ∷ row 191 "Slow Tracking" "LC"
    ∷ row 192 "Frame Forward" "RTC"
    ∷ row 193 "Frame Back" "RTC"
    ∷ row 194 "Mark" "OSC"
    ∷ row 195 "Clear Mark" "OSC"
    ∷ row 196 "Repeat From Mark" "OOC"
    ∷ row 197 "Return To Mark" "OSC"
    ∷ row 198 "Search Mark Forward" "OSC"
    ∷ row 199 "Search Mark Backwards" "OSC"
    ∷ row 200 "Counter Reset" "OSC"
    ∷ row 201 "Show Counter" "OSC"
    ∷ row 202 "Tracking Increment" "RTC"
    ∷ row 203 "Tracking Decrement" "RTC"
    ∷ row 204 "Stop/Eject" "OSC"
    ∷ row 205 "Play/Pause" "OSC"
    ∷ row 206 "Play/Skip" "OSC"
    ∷ row 207 "Voice Command" "OSC"
    ∷ row 208 "Invoke Capture Interface" "Sel"
    ∷ row 209 "Start or Stop Game Recording" "Sel"
    ∷ row 210 "Historical Game Capture" "Sel"
    ∷ row 211 "Capture Game Screenshot" "Sel"
    ∷ row 212 "Show or Hide Recording Indicator" "Sel"
    ∷ row 213 "Start or Stop Microphone Capture" "Sel"
    ∷ row 214 "Start or Stop Camera Capture" "Sel"
    ∷ row 215 "Start or Stop Game Broadcast" "Sel"
    ∷ row 216 "Start or Stop Voice Dictation Session" "OOC"
    ∷ row 217 "Invoke/Dismiss Emoji Picker" "OOC"
    ∷ row 224 "Volume" "LC"
    ∷ row 225 "Balance" "LC"
    ∷ row 226 "Mute" "OOC"
    ∷ row 227 "Bass" "LC"
    ∷ []
