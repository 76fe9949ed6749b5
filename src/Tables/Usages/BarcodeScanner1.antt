-- ===== src/Tables/Usages/BarcodeScanner1.antt =====
-- Rows of the table of usages (components/ble_client_hid/usage_data.cpp).
use esphome_ble_remote.Prelude.{List, [], ◌∷◌}
use esphome_ble_remote.Tables.{UsageRecord, row}

abbrev pub barcode_scanner_1 : List UsageRecord
barcode_scanner_1 =
    row 1 "Barcode Badge Reader" "CA"
    ∷ row 2 "Barcode Scanner" "CA"
    ∷ row 3 "Dumb Bar Code Scanner" "CA"
    ∷ row 4 "Cordless Scanner Base" "CA"
    ∷ row 5 "Bar Code Scanner Cradle" "CA"
    ∷ row 16 "Attribute Report" "CL"
    ∷ row 17 "Settings Report" "CL"
    ∷ row 18 "Scanned Data Report" "CL"
    ∷ row 19 "Raw Scanned Data Report" "CL"
    ∷ row 20 "Trigger Report" "CL"
    ∷ row 21 "Status Report" "CL"
    ∷ row 22 "UPC/EAN Control Report" "CL"
    ∷ row 23 "EAN 2/3 Label Control Report" "CL"
    ∷ row 24 "Code 39 Control Report" "CL"
    ∷ row 25 "Interleaved 2 of 5 Control Report" "CL"
    ∷ row 26 "Standard 2 of 5 Control Report" "CL"
    ∷ row 27 "MSI Plessey Control Report" "CL"
    ∷ row 28 "Codabar Control Report" "CL"
    ∷ row 29 "Code 128 Control Report" "CL"
    ∷ row 30 "Misc 1D Control Report" "CL"
    ∷ row 31 "2D Control Report" "CL"
    ∷ row 48 "Aiming/Pointer Mode" "SF"
    ∷ row 49 "Bar Code Present Sensor" "SF"
    ∷ row 50 "Class 1A Laser" "SF"
    ∷ row 51 "Class 2 Laser" "SF"
    ∷ row 52 "Heater Present" "SF"
    ∷ row 53 "Contact Scanner" "SF"
    ∷ row 54 "Electronic Article Surveillance Notification" "SF"
    ∷ row 55 "Constant Electronic Article Surveillance" "SF"
    ∷ row 56 "Error Indication" "SF"
    ∷ row 57 "Fixed Beeper" "SF"
    ∷ row 58 "Good Decode Indication" "SF"
    ∷ row 59 "Hands Free Scanning" "SF"
    ∷ row 60 "Intrinsically Safe" "SF"
    ∷ row 61 "Klasse Eins Laser" "SF"
    ∷ row 62 "Long Range Scanner" "SF"
    ∷ row 63 "Mirror Speed Control" "SF"
    ∷ row 64 "Not On File Indication" "SF"
    ∷ row 65 "Programmable Beeper" "SF"
    ∷ row 66 "Triggerless" "SF"
    ∷ row 67 "Wand" "SF"
    ∷ row 68 "Water Resistant" "SF"
    ∷ row 69 "Multi-Range Scanner" "SF"
    ∷ row 70 "Proximity Sensor" "SF"
    ∷ row 77 "Fragment Decoding" "DF"
    ∷ row 78 "Scanner Read Confidence" "DV"
    ∷ row 79 "Data Prefix" "NAry"
    ∷ row 80 "Prefix AIMI" "Sel"
    ∷ row 81 "Prefix None" "Sel"
    ∷ row 82 "Prefix Proprietary" "Sel"
    ∷ row 85 "Active Time" "DV"
    ∷ row 86 "Aiming Laser Pattern" "DF"
    ∷ row 87 "Bar Code Present" "OOC"
    ∷ row 88 "Beeper State" "OOC"
    ∷ row 89 "Laser On Time" "DV"
    ∷ row 90 "Laser State" "OOC"
    ∷ row 91 "Lockout Time" "DV"
    ∷ row 92 "Motor State" "OOC"
    ∷ row 93 "Motor Timeout" "DV"
    ∷ row 94 "Power On Reset Scanner" "DF"
    ∷ row 95 "Prevent Read of Barcodes" "DF"
    ∷ row 96 "Initiate Barcode Read" "DF"
    ∷ row 97 "Trigger State" "OOC"
    ∷ row 98 "Trigger Mode" "NAry"
    ∷ row 99 "Trigger Mode Blinking Laser On" "Sel"
    ∷ row 100 "Trigger Mode Continuous Laser On" "Sel"
    ∷ row 101 "Trigger Mode Laser on while Pulled" "Sel"
    ∷ row 102 "Trigger Mode Laser stays on after release" "Sel"
    ∷ row 109 "Commit Parameters to NVM" "DF"
    ∷ row 110 "Parameter Scanning" "DF"
    ∷ row 111 "Parameters Changed" "OOC"
    ∷ row 112 "Set parameter default values" "DF"
    ∷ row 117 "Scanner In Cradle" "OOC"
    ∷ row 118 "Scanner In Range" "OOC"
    ∷ row 122 "Aim Duration" "DV"
    ∷ row 123 "Good Read Lamp Duration" "DV"
    ∷ row 124 "Good Read Lamp Intensity" "DV"
    ∷ row 125 "Good Read LED" "DF"
    ∷ row 126 "Good Read Tone Frequency" "DV"
    ∷ row 127 "Good Read Tone Length" "DV"
    ∷ row 128 "Good Read Tone Volume" "DV"
    ∷ row 130 "No Read Message" "DF"
    ∷ row 131 "Not on File Volume" "DV"
    ∷ row 132 "Powerup Beep" "DF"
    ∷ row 133 "Sound Error Beep" "DF"
    ∷ row 134 "Sound Good Read Beep" "DF"
    ∷ row 135 "Sound Not On File Beep" "DF"
    ∷ row 136 "Good Read When to Write" "NAry"
    ∷ row 137 "GRWTI After Decode" "Sel"
    ∷ row 138 "GRWTI Beep/Lamp after transmit" "Sel"
    ∷ row 139 "GRWTI No Beep/Lamp use at all" "Sel"
    ∷ row 145 "Bookland EAN" "DF"
    ∷ row 146 "Convert EAN 8 to 13 Type" "DF"
    ∷ row 147 "Convert UPC A to EAN-13" "DF"
    ∷ row 148 "Convert UPC-E to A" "DF"
    ∷ row 149 "EAN-13" "DF"
    ∷ row 150 "EAN-8" "DF"
    ∷ row 151 "EAN-99 128 Mandatory" "DF"
    ∷ row 152 "EAN-99 P5/128 Optional" "DF"
    ∷ row 153 "Enable EAN Two Label" "DF"
    ∷ row 154 "UPC/EAN" "DF"
    ∷ row 155 "UPC/EAN Coupon Code" "DF"
    ∷ row 156 "UPC/EAN Periodicals" "DV"
    ∷ row 157 "UPC-A" "DF"
    ∷ row 158 "UPC-A with 128 Mandatory" "DF"
    ∷ row 159 "UPC-A with 128 Optional" "DF"
    ∷ row 160 "UPC-A with P5 Optional" "DF"
    ∷ row 161 "UPC-E" "DF"
    ∷ row 162 "UPC-E1" "DF"
    ∷ row 169 "Periodical" "NAry"
    ∷ row 170 "Periodical Auto-Discriminate +2" "Sel"
    ∷ row 171 "Periodical Only Decode with +2" "Sel"
    ∷ row 172 "Periodical Ignore +2" "Sel"
    ∷ row 173 "Periodical Auto-Discriminate +5" "Sel"
    ∷ row 174 "Periodical Only Decode with +5" "Sel"
    ∷ row 175 "Periodical Ignore +5" "Sel"
    ∷ row 176 "Check" "NAry"
    ∷ row 177 "Check Disable Price" "Sel"
    ∷ row 178 "Check Enable 4 digit Price" "Sel"
    ∷ row 179 "Check Enable 5 digit Price" "Sel"
    ∷ row 180 "Check Enable European 4 digit Price" "Sel"
    ∷ row 181 "Check Enable European 5 digit Price" "Sel"
    ∷ row 183 "EAN Two Label" "DF"
    ∷ row 184 "EAN Three Label" "DF"
    ∷ row 185 "EAN 8 Flag Digit 1" "DV"
    ∷ row 186 "EAN 8 Flag Digit 2" "DV"
    ∷ row 187 "EAN 8 Flag Digit 3" "DV"
    ∷ row 188 "EAN 13 Flag Digit 1" "DV"
    ∷ row 189 "EAN 13 Flag Digit 2" "DV"
    ∷ row 190 "EAN 13 Flag Digit 3" "DV"
    ∷ row 191 "Add EAN 2/3 Label Definition" "DF"
    ∷ row 192 "Clear all EAN 2/3 Label Definitions" "DF"
    ∷ row 195 "Codabar" "DF"
    ∷ row 196 "Code 128" "DF"
    ∷ row 199 "Code 39" "DF"
    ∷ row 200 "Code 93" "DF"
    ∷ row 201 "Full ASCII Conversion" "DF"
    ∷ row 202 "Interleaved 2 of 5" "DF"
    ∷ row 203 "Italian Pharmacy Code" "DF"
    ∷ row 204 "MSI/Plessey" "DF"
    ∷ []

abbrev pub barcode_scanner_2 : List UsageRecord
barcode_scanner_2 =
    row 205 "Standard 2 of 5 IATA" "DF"
    ∷ row 206 "Standard 2 of 5" "DF"
    ∷ row 211 "Transmit Start/Stop" "DF"
    ∷ row 212 "Tri-Optic" "DF"
    ∷ row 213 "UCC/EAN-128" "DF"
    ∷ row 214 "Check Digit" "NAry"
    ∷ row 215 "Check Digit Disable" "Sel"
    ∷ row 216 "Check Digit Enable Interleaved 2 of 5 OPCC" "Sel"
    ∷ row 217 "Check Digit Enable Interleaved 2 of 5 USS" "Sel"
    ∷ row 218 "Check Digit Enable Standard 2 of 5 OPCC" "Sel"
    ∷ row 219 "Check Digit Enable Standard 2 of 5 USS" "Sel"
    ∷ row 220 "Check Digit Enable One MSI Plessey" "Sel"
    ∷ row 221 "Check Digit Enable Two MSI Plessey" "Sel"
    ∷ row 222 "Check Digit Codabar Enable" "Sel"
    ∷ row 223 "Check Digit Code 39 Enable" "Sel"
    ∷ row 240 "Transmit Check Digit" "NAry"
    ∷ row 241 "Disable Check Digit Transmit" "Sel"
    ∷ row 242 "Enable Check Digit Transmit" "Sel"
    ∷ row 251 "Symbology Identifier 1" "DV"
    ∷ row 252 "Symbology Identifier 2" "DV"
    ∷ row 253 "Symbology Identifier 3" "DV"
    ∷ row 254 "Decoded Data" "DV"
    ∷ row 255 "Decode Data Continued" "DF"
    ∷ row 256 "Bar Space Data" "DV"
    ∷ row 257 "Scanner Data Accuracy" "DV"
    ∷ row 258 "Raw Data Polarity" "NAry"
    ∷ row 259 "Polarity Inverted Bar Code" "Sel"
    ∷ row 260 "Polarity Normal Bar Code" "Sel"
    ∷ row 262 "Minimum Length to Decode" "DV"
    ∷ row 263 "Maximum Length to Decode" "DV"
    ∷ row 264 "Discrete Length to Decode 1" "DV"
    ∷ row 265 "Discrete Length to Decode 2" "DV"
    ∷ row 266 "Data Length Method" "NAry"
    ∷ row 267 "DL Method Read any" "Sel"
    ∷ row 268 "DL Method Check in Range" "Sel"
    ∷ row 269 "DL Method Check for Discrete" "Sel"
    ∷ row 272 "Aztec Code" "DF"
    ∷ row 273 "BC412" "DF"
    ∷ row 274 "Channel Code" "DF"
    ∷ row 275 "Code 16" "DF"
    ∷ row 276 "Code 32" "DF"
    ∷ row 277 "Code 49" "DF"
    ∷ row 278 "Code One" "DF"
    ∷ row 279 "Colorcode" "DF"
    ∷ row 280 "Data Matrix" "DF"
    ∷ row 281 "MaxiCode" "DF"
    ∷ row 282 "MicroPDF" "DF"
    ∷ row 283 "PDF-417" "DF"
    ∷ row 284 "PosiCode" "DF"
    ∷ row 285 "QR Code" "DF"
    ∷ row 286 "SuperCode" "DF"
    ∷ row 287 "UltraCode" "DF"
    ∷ row 288 "USD-5 (Slug Code)" "DF"
    ∷ row 289 "VeriCode" "DF"
    ∷ []
