-- ===== src/Tables/Usages/KeyboardKeypad2.antt =====
-- Rows of the table of usages (components/ble_client_hid/usage_data.cpp).
use esphome_ble_remote.Prelude.{List, [], ◌∷◌}
use esphome_ble_remote.Tables.{UsageRecord, row}

abbrev pub keyboard_keypad_2 : List UsageRecord
keyboard_keypad_2 =
    row 141 "Keyboard International7" "Sel"
    ∷ row 142 "Keyboard International8" "Sel"
    ∷ row 143 "Keyboard International9" "Sel"
    ∷ row 144 "Keyboard LANG1" "Sel"
    ∷ row 145 "Keyboard LANG2" "Sel"
    ∷ row 146 "Keyboard LANG3" "Sel"
    ∷ row 147 "Keyboard LANG4" "Sel"
    ∷ row 148 "Keyboard LANG5" "Sel"
    ∷ row 149 "Keyboard LANG6" "Sel"
    ∷ row 150 "Keyboard LANG7" "Sel"
    ∷ row 151 "Keyboard LANG8" "Sel"
    ∷ row 152 "Keyboard LANG9" "Sel"
    ∷ row 153 "Keyboard Alternate Erase" "Sel"
    ∷ row 154 "Keyboard SysReq Attention" "Sel"
    ∷ row 155 "Keyboard Cancel" "Sel"
    ∷ row 156 "Keyboard Clear" "Sel"
    ∷ row 157 "Keyboard Prior" "Sel"
    ∷ row 158 "Keyboard Return" "Sel"
    ∷ row 159 "Keyboard Separator" "Sel"
    ∷ row 160 "Keyboard Out" "Sel"
    ∷ row 161 "Keyboard Oper" "Sel"
    ∷ row 162 "Keyboard Clear Again" "Sel"
    ∷ row 163 "Keyboard CrSel Props" "Sel"
    ∷ row 164 "Keyboard ExSel" "Sel"
    ∷ row 176 "Keypad Double 0" "Sel"
    ∷ row 177 "Keypad Triple 0" "Sel"
    ∷ row 178 "Thousands Separator" "Sel"
    ∷ row 179 "Decimal Separator" "Sel"
    ∷ row 180 "Currency Unit" "Sel"
    ∷ row 181 "Currency Sub-unit" "Sel"
    ∷ row 182 "Keypad Left Bracket" "Sel"
    ∷ row 183 "Keypad Right Bracket" "Sel"
    ∷ row 184 "Keypad Left Brace" "Sel"
    ∷ row 185 "Keypad Right Brace" "Sel"
    ∷ row 186 "Keypad Tab" "Sel"
    ∷ row 187 "Keypad Backspace" "Sel"
    ∷ row 188 "Keypad A" "Sel"
    ∷ row 189 "Keypad B" "Sel"
    ∷ row 190 "Keypad C" "Sel"
    ∷ row 191 "Keypad D" "Sel"
    ∷ row 192 "Keypad E" "Sel"
    ∷ row 193 "Keypad F" "Sel"
    ∷ row 194 "Keypad XOR" "Sel"
    ∷ row 195 "Keypad Caret" "Sel"
    ∷ row 196 "Keypad Percentage" "Sel"
    ∷ row 197 "Keypad Less" "Sel"
    ∷ row 198 "Keypad Greater" "Sel"
    ∷ row 199 "Keypad Ampersand" "Sel"
    ∷ row 200 "Keypad Double Ampersand" "Sel"
    ∷ row 201 "Keypad Bar" "Sel"
    ∷ row 202 "Keypad Double Bar" "Sel"
    ∷ row 203 "Keypad Colon" "Sel"
    ∷ row 204 "Keypad Hash" "Sel"
    ∷ row 205 "Keypad Space" "Sel"
    ∷ row 206 "Keypad At" "Sel"
    ∷ row 207 "Keypad Bang" "Sel"
    ∷ row 208 "Keypad Memory Store" "Sel"
    ∷ row 209 "Keypad Memory Recall" "Sel"
    ∷ row 210 "Keypad Memory Clear" "Sel"
    ∷ row 211 "Keypad Memory Add" "Sel"
    ∷ row 212 "Keypad Memory Subtract" "Sel"
    ∷ row 213 "Keypad Memory Multiply" "Sel"
    ∷ row 214 "Keypad Memory Divide" "Sel"
    ∷ row 215 "Keypad Plus Minus" "Sel"
    ∷ row 216 "Keypad Clear" "Sel"
    ∷ row 217 "Keypad Clear Entry" "Sel"
    ∷ row 218 "Keypad Binary" "Sel"
    ∷ row 219 "Keypad Octal" "Sel"
    ∷ row 220 "Keypad Decimal" "Sel"
    ∷ row 221 "Keypad Hexadecimal" "Sel"
    ∷ row 224 "Keyboard LeftControl" "DV"
    ∷ row 225 "Keyboard LeftShift" "DV"
    ∷ row 226 "Keyboard LeftAlt" "DV"
    ∷ row 227 "Keyboard Left GUI" "DV"
    ∷ row 228 "Keyboard RightControl" "DV"
    ∷ row 229 "Keyboard RightShift" "DV"
    ∷ row 230 "Keyboard RightAlt" "DV"
    ∷ row 231 "Keyboard Right GUI" "DV"
    ∷ []

abbrev pub led : List UsageRecord
led =
    row 1 "Num Lock" "OOC"
    ∷ row 2 "Caps Lock" "OOC"
    ∷ row 3 "Scroll Lock" "OOC"
    ∷ row 4 "Compose" "OOC"
    ∷ row 5 "Kana" "OOC"
    ∷ row 6 "Power" "OOC"
    ∷ row 7 "Shift" "OOC"
    ∷ row 8 "Do Not Disturb" "OOC"
    ∷ row 9 "Mute" "OOC"
    ∷ row 10 "Tone Enable" "OOC"
    ∷ row 11 "High Cut Filter" "OOC"
    ∷ row 12 "Low Cut Filter" "OOC"
    ∷ row 13 "Equalizer Enable" "OOC"
    ∷ row 14 "Sound Field On" "OOC"
    ∷ row 15 "Surround On" "OOC"
    ∷ row 16 "Repeat" "OOC"
    ∷ row 17 "Stereo" "OOC"
    ∷ row 18 "Sampling Rate Detect" "OOC"
    ∷ row 19 "Spinning" "OOC"
    ∷ row 20 "CAV" "OOC"
    ∷ row 21 "CLV" "OOC"
    ∷ row 22 "Recording Format Detect" "OOC"
    ∷ row 23 "Off-Hook" "OOC"
    ∷ row 24 "Ring" "OOC"
    ∷ row 25 "Message Waiting" "OOC"
    ∷ row 26 "Data Mode" "OOC"
    ∷ row 27 "Battery Operation" "OOC"
    ∷ row 28 "Battery OK" "OOC"
    ∷ row 29 "Battery Low" "OOC"
    ∷ row 30 "Speaker" "OOC"
    ∷ row 31 "Headset" "OOC"
    ∷ row 32 "Hold" "OOC"
    ∷ row 33 "Microphone" "OOC"
    ∷ row 34 "Coverage" "OOC"
    ∷ row 35 "Night Mode" "OOC"
    ∷ row 36 "Send Calls" "OOC"
    ∷ row 37 "Call Pickup" "OOC"
    ∷ row 38 "Conference" "OOC"
    ∷ row 39 "Stand-by" "OOC"
    ∷ row 40 "Camera On" "OOC"
    ∷ row 41 "Camera Off" "OOC"
    ∷ row 42 "On-Line" "OOC"
    ∷ row 43 "Off-Line" "OOC"
    ∷ row 44 "Busy" "OOC"
    ∷ row 45 "Ready" "OOC"
    ∷ row 46 "Paper-Out" "OOC"
    ∷ row 47 "Paper-Jam" "OOC"
    ∷ row 48 "Remote" "OOC"
    ∷ row 49 "Forward" "OOC"
    ∷ row 50 "Reverse" "OOC"
    ∷ row 51 "Stop" "OOC"
    ∷ row 52 "Rewind" "OOC"
    ∷ row 53 "Fast Forward" "OOC"
    ∷ row 54 "Play" "OOC"
    ∷ row 55 "Pause" "OOC"
    ∷ row 56 "Record" "OOC"
    ∷ row 57 "Error" "OOC"
    ∷ row 58 "Usage Selected Indicator" "US"
    ∷ row 59 "Usage In Use Indicator" "US"
    ∷ row 60 "Usage Multi Mode Indicator" "UM"
    ∷ row 61 "Indicator On" "Sel"
    ∷ row 62 "Indicator Flash" "Sel"
    ∷ row 63 "Indicator Slow Blink" "Sel"
    ∷ row 64 "Indicator Fast Blink" "Sel"
    ∷ row 65 "Indicator Off" "Sel"
    ∷ row 66 "Flash On Time" "DV"
    ∷ row 67 "Slow Blink On Time" "DV"
    ∷ row 68 "Slow Blink Off Time" "DV"
    ∷ row 69 "Fast Blink On Time" "DV"
    ∷ row 70 "Fast Blink Off Time" "DV"
    ∷ row 71 "Usage Indicator Color" "UM"
    ∷ row 72 "Indicator Red" "Sel"
    ∷ row 73 "Indicator Green" "Sel"
    ∷ row 74 "Indicator Amber" "Sel"
    ∷ row 75 "Generic Indicator" "OOC"
    ∷ row 76 "System Suspend" "OOC"
    ∷ row 77 "External Power Connected" "OOC"
    ∷ row 78 "Indicator Blue" "Sel"
    ∷ row 79 "Indicator Orange" "Sel"
    ∷ row 80 "Good Status" "OOC"
    ∷ row 81 "Warning Status" "OOC"
    ∷ row 82 "RGB LED" "CL"
    ∷ row 83 "Red LED Channel" "DV"
    ∷ row 84 "Blue LED Channel" "DV"
    ∷ row 85 "Green LED Channel" "DV"
    ∷ row 86 "LED Intensity" "DV"
    ∷ row 87 "System Microphone Mute" "OOC"
    ∷ row 96 "Player Indicator" "NAry"
    ∷ row 97 "Player 1" "Sel"
    ∷ row 98 "Player 2" "Sel"
    ∷ row 99 "Player 3" "Sel"
    ∷ row 100 "Player 4" "Sel"
    ∷ row 101 "Player 5" "Sel"
    ∷ row 102 "Player 6" "Sel"
    ∷ row 103 "Player 7" "Sel"
    ∷ row 104 "Player 8" "Sel"
    ∷ []
