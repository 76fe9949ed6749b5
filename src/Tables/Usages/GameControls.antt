-- ===== src/Tables/Usages/GameControls.antt =====
-- Rows of the table of usages (components/ble_client_hid/usage_data.cpp).
use esphome_ble_remote.Prelude.{List, [], ◌∷◌}
use esphome_ble_remote.Tables.{UsageRecord, row}

abbrev pub game_controls : List UsageRecord
game_controls =
    row 1 "3D Game Controller" "CA"
    ∷ row 2 "Pinball Device" "CA"
    ∷ row 3 "Gun Device" "CA"
    ∷ row 32 "Point of View" "CP"
    ∷ row 33 "Turn Right/Left" "DV"
    ∷ row 34 "Pitch Forward/Backward" "DV"
    ∷ row 35 "Roll Right/Left" "DV"
    ∷ row 36 "Move Right/Left" "DV"
    ∷ row 37 "Move Forward/Backward" "DV"
    ∷ row 38 "Move Up/Down" "DV"
    ∷ row 39 "Lean Right/Left" "DV"
    ∷ row 40 "Lean Forward/Backward" "DV"
    ∷ row 41 "Height of POV" "DV"
    ∷ row 42 "Flipper" "MC"
    ∷ row 43 "Secondary Flipper" "MC"
    ∷ row 44 "Bump" "MC"
    ∷ row 45 "New Game" "OSC"
    ∷ row 46 "Shoot Ball" "OSC"
    ∷ row 47 "Player" "OSC"
    ∷ row 48 "Gun Bolt" "OOC"
    ∷ row 49 "Gun Clip" "OOC"
    ∷ row 50 "Gun Selector" "NAry"
    ∷ row 51 "Gun Single Shot" "Sel"
    ∷ row 52 "Gun Burst" "Sel"
    ∷ row 53 "Gun Automatic" "Sel"
    ∷ row 54 "Gun Safety" "OOC"
    ∷ row 55 "Gamepad Fire/Jump" "CL"
    ∷ row 57 "Gamepad Trigger" "CL"
    ∷ row 58 "Form-fitting Gamepad" "SF"
    ∷ []

abbrev pub generic_device_controls : List UsageRecord
generic_device_controls =
    row 1 "Background/Nonuser Controls" "CA"
    ∷ row 32 "Battery Strength" "DV"
    ∷ row 33 "Wireless Channel" "DV"
    ∷ row 34 "Wireless ID" "DV"
    ∷ row 35 "Discover Wireless Control" "OSC"
    ∷ row 36 "Security Code Character Entered" "OSC"
    ∷ row 37 "Security Code Character Erased" "OSC"
    ∷ row 38 "Security Code Cleared" "OSC"
    ∷ row 39 "Sequence ID" "DV"
    ∷ row 40 "Sequence ID Reset" "DF"
    ∷ row 41 "RF Signal Strength" "DV"
    ∷ row 42 "Software Version" "CL"
    ∷ row 43 "Protocol Version" "CL"
    ∷ row 44 "Hardware Version" "CL"
    ∷ row 45 "Major" "SV"
    ∷ row 46 "Minor" "SV"
    ∷ row 47 "Revision" "SV"
    ∷ row 48 "Handedness" "NAry"
    ∷ row 49 "Either Hand" "Sel"
    ∷ row 50 "Left Hand" "Sel"
    ∷ row 51 "Right Hand" "Sel"
    ∷ row 52 "Both Hands" "Sel"
    ∷ row 64 "Grip Pose Offset" "CP"
    ∷ row 65 "Pointer Pose Offset" "CP"
    ∷ []

abbrev pub keyboard_keypad_1 : List UsageRecord
keyboard_keypad_1 =
    row 1 "ErrorRollOver" "Sel"
    ∷ row 2 "POSTFail" "Sel"
    ∷ row 3 "ErrorUndefined" "Sel"
    ∷ row 4 "Keyboard A" "Sel"
    ∷ row 5 "Keyboard B" "Sel"
    ∷ row 6 "Keyboard C" "Sel"
    ∷ row 7 "Keyboard D" "Sel"
    ∷ row 8 "Keyboard E" "Sel"
    ∷ row 9 "Keyboard F" "Sel"
    ∷ row 10 "Keyboard G" "Sel"
    ∷ row 11 "Keyboard H" "Sel"
    ∷ row 12 "Keyboard I" "Sel"
    ∷ row 13 "Keyboard J" "Sel"
    ∷ row 14 "Keyboard K" "Sel"
    ∷ row 15 "Keyboard L" "Sel"
    ∷ row 16 "Keyboard M" "Sel"
    ∷ row 17 "Keyboard N" "Sel"
    ∷ row 18 "Keyboard O" "Sel"
    ∷ row 19 "Keyboard P" "Sel"
    ∷ row 20 "Keyboard Q" "Sel"
    ∷ row 21 "Keyboard R" "Sel"
    ∷ row 22 "Keyboard S" "Sel"
    ∷ row 23 "Keyboard T" "Sel"
    ∷ row 24 "Keyboard U" "Sel"
    ∷ row 25 "Keyboard V" "Sel"
    ∷ row 26 "Keyboard W" "Sel"
    ∷ row 27 "Keyboard X" "Sel"
    ∷ row 28 "Keyboard Y" "Sel"
    ∷ row 29 "Keyboard Z" "Sel"
    ∷ row 30 "Keyboard 1 and Bang" "Sel"
    ∷ row 31 "Keyboard 2 and At" "Sel"
    ∷ row 32 "Keyboard 3 and Hash" "Sel"
    ∷ row 33 "Keyboard 4 and Dollar" "Sel"
    ∷ row 34 "Keyboard 5 and Percent" "Sel"
    ∷ row 35 "Keyboard 6 and Caret" "Sel"
    ∷ row 36 "Keyboard 7 and Ampersand" "Sel"
    ∷ row 37 "Keyboard 8 and Star" "Sel"
    ∷ row 38 "Keyboard 9 and Left Bracket" "Sel"
    ∷ row 39 "Keyboard 0 and Right Bracket" "Sel"
    ∷ row 40 "Keyboard Return Enter" "Sel"
    ∷ row 41 "Keyboard Escape" "Sel"
    ∷ row 42 "Keyboard Delete" "Sel"
    ∷ row 43 "Keyboard Tab" "Sel"
    ∷ row 44 "Keyboard Spacebar" "Sel"
    ∷ row 45 "Keyboard Dash and Underscore" "Sel"
    ∷ row 46 "Keyboard Equals and Plus" "Sel"
    ∷ row 47 "Keyboard Left Brace" "Sel"
    ∷ row 48 "Keyboard Right Brace" "Sel"
    ∷ row 49 "Keyboard Backslash and Pipe" "Sel"
    ∷ row 50 "Keyboard Non-US Hash and Tilde" "Sel"
    ∷ row 51 "Keyboard SemiColon and Colon" "Sel"
    ∷ row 52 "Keyboard Left Apos and Double" "Sel"
    ∷ row 53 "Keyboard Grave Accent and Tilde" "Sel"
    ∷ row 54 "Keyboard Comma and LessThan" "Sel"
    ∷ row 55 "Keyboard Period and GreaterThan" "Sel"
    ∷ row 56 "Keyboard ForwardSlash and QuestionMark" "Sel"
    ∷ row 57 "Keyboard Caps Lock" "Sel"
    ∷ row 58 "Keyboard F1" "Sel"
    ∷ row 59 "Keyboard F2" "Sel"
    ∷ row 60 "Keyboard F3" "Sel"
    ∷ row 61 "Keyboard F4" "Sel"
    ∷ row 62 "Keyboard F5" "Sel"
    ∷ row 63 "Keyboard F6" "Sel"
    ∷ row 64 "Keyboard F7" "Sel"
    ∷ row 65 "Keyboard F8" "Sel"
    ∷ row 66 "Keyboard F9" "Sel"
    ∷ row 67 "Keyboard F10" "Sel"
    ∷ row 68 "Keyboard F11" "Sel"
    ∷ row 69 "Keyboard F12" "Sel"
    ∷ row 70 "Keyboard PrintScreen" "Sel"
    ∷ row 71 "Keyboard Scroll Lock" "Sel"
    ∷ row 72 "Keyboard Pause" "Sel"
    ∷ row 73 "Keyboard Insert" "Sel"
    ∷ row 74 "Keyboard Home" "Sel"
    ∷ row 75 "Keyboard PageUp" "Sel"
    ∷ row 76 "Keyboard Delete Forward" "Sel"
    ∷ row 77 "Keyboard End" "Sel"
    ∷ row 78 "Keyboard PageDown" "Sel"
    ∷ row 79 "Keyboard RightArrow" "Sel"
    ∷ row 80 "Keyboard LeftArrow" "Sel"
    ∷ row 81 "Keyboard DownArrow" "Sel"
    ∷ row 82 "Keyboard UpArrow" "Sel"
    ∷ row 83 "Keypad Num Lock and Clear" "Sel"
    ∷ row 84 "Keypad ForwardSlash" "Sel"
    ∷ row 85 "Keypad Star" "Sel"
    ∷ row 86 "Keypad Dash" "Sel"
    ∷ row 87 "Keypad Plus" "Sel"
    ∷ row 88 "Keypad ENTER" "Sel"
    ∷ row 89 "Keypad 1 and End" "Sel"
    ∷ row 90 "Keypad 2 and Down Arrow" "Sel"
    ∷ row 91 "Keypad 3 and PageDn" "Sel"
    ∷ row 92 "Keypad 4 and Left Arrow" "Sel"
    ∷ row 93 "Keypad 5" "Sel"
    ∷ row 94 "Keypad 6 and Right Arrow" "Sel"
    ∷ row 95 "Keypad 7 and Home" "Sel"
    ∷ row 96 "Keypad 8 and Up Arrow" "Sel"
    ∷ row 97 "Keypad 9 and PageUp" "Sel"
    ∷ row 98 "Keypad 0 and Insert" "Sel"
    ∷ row 99 "Keypad Period and Delete" "Sel"
    ∷ row 100 "Keyboard Non-US Backslash and Pipe" "Sel"
    ∷ row 101 "Keyboard Application" "Sel"
    ∷ row 102 "Keyboard Power" "Sel"
    ∷ row 103 "Keypad Equals" "Sel"
    ∷ row 104 "Keyboard F13" "Sel"
    ∷ row 105 "Keyboard F14" "Sel"
    ∷ row 106 "Keyboard F15" "Sel"
    ∷ row 107 "Keyboard F16" "Sel"
    ∷ row 108 "Keyboard F17" "Sel"
    ∷ row 109 "Keyboard F18" "Sel"
    ∷ row 110 "Keyboard F19" "Sel"
    ∷ row 111 "Keyboard F20" "Sel"
    ∷ row 112 "Keyboard F21" "Sel"
    ∷ row 113 "Keyboard F22" "Sel"
    ∷ row 114 "Keyboard F23" "Sel"
    ∷ row 115 "Keyboard F24" "Sel"
    ∷ row 116 "Keyboard Execute" "Sel"
    ∷ row 117 "Keyboard Help" "Sel"
    ∷ row 118 "Keyboard Menu" "Sel"
    ∷ row 119 "Keyboard Select" "Sel"
    ∷ row 120 "Keyboard Stop" "Sel"
    ∷ row 121 "Keyboard Again" "Sel"
    ∷ row 122 "Keyboard Undo" "Sel"
    ∷ row 123 "Keyboard Cut" "Sel"
    ∷ row 124 "Keyboard Copy" "Sel"
    ∷ row 125 "Keyboard Paste" "Sel"
    ∷ row 126 "Keyboard Find" "Sel"
    ∷ row 127 "Keyboard Mute" "Sel"
    ∷ row 128 "Keyboard Volume Up" "Sel"
    ∷ row 129 "Keyboard Volume Down" "Sel"
    ∷ row 130 "Keyboard Locking Caps Lock" "Sel"
    ∷ row 131 "Keyboard Locking Num Lock" "Sel"
    ∷ row 132 "Keyboard Locking Scroll Lock" "Sel"
    ∷ row 133 "Keypad Comma" "Sel"
    ∷ row 134 "Keypad Equal Sign" "Sel"
    ∷ row 135 "Keyboard International1" "Sel"
    ∷ row 136 "Keyboard International2" "Sel"
    ∷ row 137 "Keyboard International3" "Sel"
    ∷ row 138 "Keyboard International4" "Sel"
    ∷ row 139 "Keyboard International5" "Sel"
    ∷ row 140 "Keyboard International6" "Sel"
    ∷ []
