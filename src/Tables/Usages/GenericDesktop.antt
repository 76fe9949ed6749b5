-- ===== src/Tables/Usages/GenericDesktop.antt =====
-- Rows of the table of usages (components/ble_client_hid/usage_data.cpp).
use esphome_ble_remote.Prelude.{List, [], ◌∷◌}
use esphome_ble_remote.Tables.{UsageRecord, row}

abbrev pub generic_desktop : List UsageRecord
generic_desktop =
    row 1 "Pointer" "CP"
    ∷ row 2 "Mouse" "CA"
    ∷ row 4 "Joystick" "CA"
    ∷ row 5 "Gamepad" "CA"
    ∷ row 6 "Keyboard" "CA"
    ∷ row 7 "Keypad" "CA"
    ∷ row 8 "Multi-axis Controller" "CA"
    ∷ row 9 "Tablet PC System Controls" "CA"
    ∷ row 10 "Water Cooling Device" "CA"
    ∷ row 11 "Computer Chassis Device" "CA"
    ∷ row 12 "Wireless Radio Controls" "CA"
    ∷ row 13 "Portable Device Control" "CA"
    ∷ row 14 "System Multi-Axis Controller" "CA"
    ∷ row 15 "Spatial Controller" "CA"
    ∷ row 16 "Assistive Control" "CA"
    ∷ row 17 "Device Dock" "CA"
    ∷ row 18 "Dockable Device" "CA"
    ∷ row 19 "Call State Management Control" "CA"
    ∷ row 48 "X" "DV"
    ∷ row 49 "Y" "DV"
    ∷ row 50 "Z" "DV"
    ∷ row 51 "Rx" "DV"
    ∷ row 52 "Ry" "DV"
    ∷ row 53 "Rz" "DV"
    ∷ row 54 "Slider" "DV"
    ∷ row 55 "Dial" "DV"
    ∷ row 56 "Wheel" "DV"
    ∷ row 57 "Hat Switch" "DV"
    ∷ row 58 "Counted Buffer" "CL"
    ∷ row 59 "Byte Count" "DV"
    ∷ row 60 "Motion Wakeup" "OSC|DF"
    ∷ row 61 "Start" "OOC"
    ∷ row 62 "Select" "OOC"
    ∷ row 64 "Vx" "DV"
    ∷ row 65 "Vy" "DV"
    ∷ row 66 "Vz" "DV"
    ∷ row 67 "Vbrx" "DV"
    ∷ row 68 "Vbry" "DV"
    ∷ row 69 "Vbrz" "DV"
    ∷ row 70 "Vno" "DV"
    ∷ row 71 "Feature Notification" "DV|DF"
    ∷ row 72 "Resolution Multiplier" "DV"
    ∷ row 73 "Qx" "DV"
    ∷ row 74 "Qy" "DV"
    ∷ row 75 "Qz" "DV"
    ∷ row 76 "Qw" "DV"
    ∷ row 128 "System Control" "CA"
    ∷ row 129 "System Power Down" "OSC"
    ∷ row 130 "System Sleep" "OSC"
    ∷ row 131 "System Wake Up" "OSC"
    ∷ row 132 "System Context Menu" "OSC"
    ∷ row 133 "System Main Menu" "OSC"
    ∷ row 134 "System App Menu" "OSC"
    ∷ row 135 "System Menu Help" "OSC"
    ∷ row 136 "System Menu Exit" "OSC"
    ∷ row 137 "System Menu Select" "OSC"
    ∷ row 138 "System Menu Right" "RTC"
    ∷ row 139 "System Menu Left" "RTC"
    ∷ row 140 "System Menu Up" "RTC"
    ∷ row 141 "System Menu Down" "RTC"
    ∷ row 142 "System Cold Restart" "OSC"
    ∷ row 143 "System Warm Restart" "OSC"
    ∷ row 144 "D-pad Up" "OOC"
    ∷ row 145 "D-pad Down" "OOC"
    ∷ row 146 "D-pad Right" "OOC"
    ∷ row 147 "D-pad Left" "OOC"
    ∷ row 148 "Index Trigger" "MC|DV"
    ∷ row 149 "Palm Trigger" "MC|DV"
    ∷ row 150 "Thumbstick" "CP"
    ∷ row 151 "System Function Shift" "MC"
    ∷ row 152 "System Function Shift Lock" "OOC"
    ∷ row 153 "System Function Shift Lock Indicator" "DV"
    ∷ row 154 "System Dismiss Notification" "OSC"
    ∷ row 155 "System Do Not Disturb" "OOC"
    ∷ row 160 "System Dock" "OSC"
    ∷ row 161 "System Undock" "OSC"
    ∷ row 162 "System Setup" "OSC"
    ∷ row 163 "System Break" "OSC"
    ∷ row 164 "System Debugger Break" "OSC"
    ∷ row 165 "Application Break" "OSC"
    ∷ row 166 "Application Debugger Break" "OSC"
    ∷ row 167 "System Speaker Mute" "OSC"
    ∷ row 168 "System Hibernate" "OSC"
    ∷ row 169 "System Microphone Mute" "OOC"
    ∷ row 170 "System Accessibility Binding" "OOC"
    ∷ row 176 "System Display Invert" "OSC"
    ∷ row 177 "System Display Internal" "OSC"
    ∷ row 178 "System Display External" "OSC"
    ∷ row 179 "System Display Both" "OSC"
    ∷ row 180 "System Display Dual" "OSC"
    ∷ row 181 "System Display Toggle Int/Ext Mode" "OSC"
    ∷ row 182 "System Display Swap Primary/Secondary" "OSC"
    ∷ row 183 "System Display Toggle LCD Autoscale" "OSC"
    ∷ row 192 "Sensor Zone" "CL"
    ∷ row 193 "RPM" "DV"
    ∷ row 194 "Coolant Level" "DV"
    ∷ row 195 "Coolant Critical Level" "SV"
    ∷ row 196 "Coolant Pump" "US"
    ∷ row 197 "Chassis Enclosure" "CL"
    ∷ row 198 "Wireless Radio Button" "OOC"
    ∷ row 199 "Wireless Radio LED" "OOC"
    ∷ row 200 "Wireless Radio Slider Switch" "OOC"
    ∷ row 201 "System Display Rotation Lock Button" "OOC"
    ∷ row 202 "System Display Rotation Lock Slider Switch" "OOC"
    ∷ row 203 "Control Enable" "DF"
    ∷ row 208 "Dockable Device Unique ID" "DV"
    ∷ row 209 "Dockable Device Vendor ID" "DV"
    ∷ row 210 "Dockable Device Primary Usage Page" "DV"
    ∷ row 211 "Dockable Device Primary Usage ID" "DV"
    ∷ row 212 "Dockable Device Docking State" "DF"
    ∷ row 213 "Dockable Device Display Occlusion" "CL"
    ∷ row 214 "Dockable Device Object Type" "DV"
    ∷ row 224 "Call Active LED" "OOC"
    ∷ row 225 "Call Mute Toggle" "OSC"
    ∷ row 226 "Call Mute LED" "OOC"
    ∷ []

abbrev pub simulation_controls : List UsageRecord
simulation_controls =
    row 1 "Flight Simulation Device" "CA"
    ∷ row 2 "Automobile Simulation Device" "CA"
    ∷ row 3 "Tank Simulation Device" "CA"
    ∷ row 4 "Spaceship Simulation Device" "CA"
    ∷ row 5 "Submarine Simulation Device" "CA"
    ∷ row 6 "Sailing Simulation Device" "CA"
    ∷ row 7 "Motorcycle Simulation Device" "CA"
    ∷ row 8 "Sports Simulation Device" "CA"
    ∷ row 9 "Airplane Simulation Device" "CA"
    ∷ row 10 "Helicopter Simulation Device" "CA"
    ∷ row 11 "Magic Carpet Simulation Device" "CA"
    ∷ row 12 "Bicycle Simulation Device" "CA"
    ∷ row 32 "Flight Control Stick" "CA"
    ∷ row 33 "Flight Stick" "CA"
    ∷ row 34 "Cyclic Control" "CP"
    ∷ row 35 "Cyclic Trim" "CP"
    ∷ row 36 "Flight Yoke" "CA"
    ∷ row 37 "Track Control" "CP"
    ∷ row 176 "Aileron" "DV"
    ∷ row 177 "Aileron Trim" "DV"
    ∷ row 178 "Anti-Torque Control" "DV"
    ∷ row 179 "Autopilot Enable" "OOC"
    ∷ row 180 "Chaff Release" "OSC"
    ∷ row 181 "Collective Control" "DV"
    ∷ row 182 "Dive Brake" "DV"
    ∷ row 183 "Electronic Countermeasures" "OOC"
    ∷ row 184 "Elevator" "DV"
    ∷ row 185 "Elevator Trim" "DV"
    ∷ row 186 "Rudder" "DV"
    ∷ row 187 "Throttle" "DV"
    ∷ row 188 "Flight Communications" "OOC"
    ∷ row 189 "Flare Release" "OSC"
    ∷ row 190 "Landing Gear" "OOC"
    ∷ row 191 "Toe Brake" "DV"
    ∷ row 192 "Trigger" "MC"
    ∷ row 193 "Weapons Arm" "OOC"
    ∷ row 194 "Weapons Select" "OSC"
    ∷ row 195 "Wing Flaps" "DV"
    ∷ row 196 "Accelerator" "DV"
    ∷ row 197 "Brake" "DV"
    ∷ row 198 "Clutch" "DV"
    ∷ row 199 "Shifter" "DV"
    ∷ row 200 "Steering" "DV"
    ∷ row 201 "Turret Direction" "DV"
    ∷ row 202 "Barrel Elevation" "DV"
    ∷ row 203 "Dive Plane" "DV"
    ∷ row 204 "Ballast" "DV"
    ∷ row 205 "Bicycle Crank" "DV"
    ∷ row 206 "Handle Bars" "DV"
    ∷ row 207 "Front Brake" "DV"
    ∷ row 208 "Rear Brake" "DV"
    ∷ []

abbrev pub vr_controls : List UsageRecord
vr_controls =
    row 1 "Belt" "CA"
    ∷ row 2 "Body Suit" "CA"
    ∷ row 3 "Flexor" "CP"
    ∷ row 4 "Glove" "CA"
    ∷ row 5 "Head Tracker" "CP"
    ∷ row 6 "Head Mounted Display" "CA"
    ∷ row 7 "Hand Tracker" "CA"
    ∷ row 8 "Oculometer" "CA"
    ∷ row 9 "Vest" "CA"
    ∷ row 10 "Animatronic Device" "CA"
    ∷ row 32 "Stereo Enable" "OOC"
    ∷ row 33 "Display Enable" "OOC"
    ∷ []

abbrev pub sport_controls : List UsageRecord
sport_controls =
    row 1 "Baseball Bat" "CA"
    ∷ row 2 "Golf Club" "CA"
    ∷ row 3 "Rowing Machine" "CA"
    ∷ row 4 "Treadmill" "CA"
    ∷ row 48 "Oar" "DV"
    ∷ row 49 "Slope" "DV"
    ∷ row 50 "Rate" "DV"
    ∷ row 51 "Stick Speed" "DV"
    ∷ row 52 "Stick Face Angle" "DV"
    ∷ row 53 "Stick Heel/Toe" "DV"
    ∷ row 54 "Stick Follow Through" "DV"
    ∷ row 55 "Stick Tempo" "DV"
    ∷ row 56 "Stick Type" "NAry"
    ∷ row 57 "Stick Height" "DV"
    ∷ row 80 "Putter" "Sel"
    ∷ row 81 "1 Iron" "Sel"
    ∷ row 82 "2 Iron" "Sel"
    ∷ row 83 "3 Iron" "Sel"
    ∷ row 84 "4 Iron" "Sel"
    ∷ row 85 "5 Iron" "Sel"
    ∷ row 86 "6 Iron" "Sel"
    ∷ row 87 "7 Iron" "Sel"
    ∷ row 88 "8 Iron" "Sel"
    ∷ row 89 "9 Iron" "Sel"
    ∷ row 90 "10 Iron" "Sel"
    ∷ row 91 "11 Iron" "Sel"
    ∷ row 92 "Sand Wedge" "Sel"
    ∷ row 93 "Loft Wedge" "Sel"
    ∷ row 94 "Power Wedge" "Sel"
    ∷ row 95 "1 Wood" "Sel"
    ∷ row 96 "3 Wood" "Sel"
    ∷ row 97 "5 Wood" "Sel"
    ∷ row 98 "7 Wood" "Sel"
    ∷ row 99 "9 Wood" "Sel"
    ∷ []
