-- ===== src/Tables/Usages/TelephonyDevice.antt =====
-- Rows of the table of usages (components/ble_client_hid/usage_data.cpp).
use esphome_ble_remote.Prelude.{List, [], ◌∷◌}
use esphome_ble_remote.Tables.{UsageRecord, row}

abbrev pub telephony_device : List UsageRecord
telephony_device =
    row 1 "Phone" "CA"
    ∷ row 2 "Answering Machine" "CA"
    ∷ row 3 "Message Controls" "CL"
    ∷ row 4 "Handset" "CL"
    ∷ row 5 "Headset" "CL|CA"
    ∷ row 6 "Telephony Key Pad" "NAry"
    ∷ row 7 "Programmable Button" "NAry"
    ∷ row 32 "Hook Switch" "OOC"
    ∷ row 33 "Flash" "MC"
    ∷ row 34 "Feature" "OSC"
    ∷ row 35 "Hold" "OOC"
    ∷ row 36 "Redial" "OSC"
    ∷ row 37 "Transfer" "OSC"
    ∷ row 38 "Drop" "OSC"
    ∷ row 39 "Park" "OOC"
    ∷ row 40 "Forward Calls" "OOC"
    ∷ row 41 "Alternate Function" "MC"
    ∷ row 42 "Line" "OSC|NAry"
    ∷ row 43 "Speaker Phone" "OOC"
    ∷ row 44 "Conference" "OOC"
    ∷ row 45 "Ring Enable" "OOC"
    ∷ row 46 "Ring Select" "OSC"
    ∷ row 47 "Phone Mute" "OOC"
    ∷ row 48 "Caller ID" "MC"
    ∷ row 49 "Send" "OOC"
    ∷ row 80 "Speed Dial" "OSC"
    ∷ row 81 "Store Number" "OSC"
    ∷ row 82 "Recall Number" "OSC"
    ∷ row 83 "Phone Directory" "OOC"
    ∷ row 112 "Voice Mail" "OOC"
    ∷ row 113 "Screen Calls" "OOC"
    ∷ row 114 "Do Not Disturb" "OOC"
    ∷ row 115 "Message" "OSC"
    ∷ row 116 "Answer On/Off" "OOC"
    ∷ row 144 "Inside Dial Tone" "MC"
    ∷ row 145 "Outside Dial Tone" "MC"
    ∷ row 146 "Inside Ring Tone" "MC"
    ∷ row 147 "Outside Ring Tone" "MC"
    ∷ row 148 "Priority Ring Tone" "MC"
    ∷ row 149 "Inside Ringback" "MC"
    ∷ row 150 "Priority Ringback" "MC"
    ∷ row 151 "Line Busy Tone" "MC"
    ∷ row 152 "Reorder Tone" "MC"
    ∷ row 153 "Call Waiting Tone" "MC"
    ∷ row 154 "Confirmation Tone 1" "MC"
    ∷ row 155 "Confirmation Tone 2" "MC"
    ∷ row 156 "Tones Off" "OOC"
    ∷ row 157 "Outside Ringback" "MC"
    ∷ row 158 "Ringer" "OOC"
    ∷ row 176 "Phone Key 0" "Sel"
    ∷ row 177 "Phone Key 1" "Sel"
    ∷ row 178 "Phone Key 2" "Sel"
    ∷ row 179 "Phone Key 3" "Sel"
    ∷ row 180 "Phone Key 4" "Sel"
    ∷ row 181 "Phone Key 5" "Sel"
    ∷ row 182 "Phone Key 6" "Sel"
    ∷ row 183 "Phone Key 7" "Sel"
    ∷ row 184 "Phone Key 8" "Sel"
    ∷ row 185 "Phone Key 9" "Sel"
    ∷ row 186 "Phone Key Star" "Sel"
    ∷ row 187 "Phone Key Pound" "Sel"
    ∷ row 188 "Phone Key A" "Sel"
    ∷ row 189 "Phone Key B" "Sel"
    ∷ row 190 "Phone Key C" "Sel"
    ∷ row 191 "Phone Key D" "Sel"
    ∷ row 192 "Phone Call History Key" "Sel"
    ∷ row 193 "Phone Caller ID Key" "Sel"
    ∷ row 194 "Phone Settings Key" "Sel"
    ∷ row 240 "Host Control" "OOC"
    ∷ row 241 "Host Available" "OOC"
    ∷ row 242 "Host Call Active" "OOC"
    ∷ row 243 "Activate Handset Audio" "OOC"
    ∷ row 244 "Ring Type" "NAry"
    ∷ row 245 "Re-dialable Phone Number" "OOC"
    ∷ row 248 "Stop Ring Tone" "Sel"
    ∷ row 249 "PSTN Ring Tone" "Sel"
    ∷ row 250 "Host Ring Tone" "Sel"
    ∷ row 251 "Alert Sound Error" "Sel"
    ∷ row 252 "Alert Sound Confirm" "Sel"
    ∷ row 253 "Alert Sound Notification" "Sel"
    ∷ row 254 "Silent Ring" "Sel"
    ∷ row 264 "Email Message Waiting" "OOC"
    ∷ row 265 "Voicemail Message Waiting" "OOC"
    ∷ row 266 "Host Hold" "OOC"
    ∷ row 272 "Incoming Call History Count" "DV"
    ∷ row 273 "Outgoing Call History Count" "DV"
    ∷ row 274 "Incoming Call History" "CL"
    ∷ row 275 "Outgoing Call History" "CL"
    ∷ row 276 "Phone Locale" "DV"
    ∷ row 320 "Phone Time Second" "DV"
    ∷ row 321 "Phone Time Minute" "DV"
    ∷ row 322 "Phone Time Hour" "DV"
    ∷ row 323 "Phone Date Day" "DV"
    ∷ row 324 "Phone Date Month" "DV"
    ∷ row 325 "Phone Date Year" "DV"
    ∷ row 326 "Handset Nickname" "DV"
    ∷ row 327 "Address Book ID" "DV"
    ∷ row 330 "Call Duration" "DV"
    ∷ row 331 "Dual Mode Phone" "CA"
    ∷ []
