-- ===== src/Tables/Usages/Consumer2.antt =====
-- Rows of the table of usages (components/ble_client_hid/usage_data.cpp).
use esphome_ble_remote.Prelude.{List, [], ◌∷◌}
use esphome_ble_remote.Tables.{UsageRecord, row}

abbrev pub consumer_2 : List UsageRecord
consumer_2 =
    row 228 "Treble" "LC"
    ∷ row 229 "Bass Boost" "OOC"
    ∷ row 230 "Surround Mode" "OSC"
    ∷ row 231 "Loudness" "OOC"
    ∷ row 232 "MPX" "OOC"
    ∷ row 233 "Volume Increment" "RTC"
    ∷ row 234 "Volume Decrement" "RTC"
    ∷ row 240 "Speed Select" "OSC"
    ∷ row 241 "Playback Speed" "NAry"
    ∷ row 242 "Standard Play" "Sel"
    ∷ row 243 "Long Play" "Sel"
    ∷ row 244 "Extended Play" "Sel"
    ∷ row 245 "Slow" "OSC"
    ∷ row 256 "Fan Enable" "OOC"
    ∷ row 257 "Fan Speed" "LC"
    ∷ row 258 "Light Enable" "OOC"
    ∷ row 259 "Light Illumination Level" "LC"
    ∷ row 260 "Climate Control Enable" "OOC"
    ∷ row 261 "Room Temperature" "LC"
    ∷ row 262 "Security Enable" "OOC"
    ∷ row 263 "Fire Alarm" "OSC"
    ∷ row 264 "Police Alarm" "OSC"
    ∷ row 265 "Proximity" "LC"
    ∷ row 266 "Motion" "OSC"
    ∷ row 267 "Duress Alarm" "OSC"
    ∷ row 268 "Holdup Alarm" "OSC"
    ∷ row 269 "Medical Alarm" "OSC"
    ∷ row 336 "Balance Right" "RTC"
    ∷ row 337 "Balance Left" "RTC"
    ∷ row 338 "Bass Increment" "RTC"
    ∷ row 339 "Bass Decrement" "RTC"
    ∷ row 340 "Treble Increment" "RTC"
    ∷ row 341 "Treble Decrement" "RTC"
    ∷ row 352 "Speaker System" "CL"
    ∷ row 353 "Channel Left" "CL"
    ∷ row 354 "Channel Right" "CL"
    ∷ row 355 "Channel Center" "CL"
    ∷ row 356 "Channel Front" "CL"
    ∷ row 357 "Channel Center Front" "CL"
    ∷ row 358 "Channel Side" "CL"
    ∷ row 359 "Channel Surround" "CL"
    ∷ row 360 "Channel Low Frequency Enhancement" "CL"
    ∷ row 361 "Channel Top" "CL"
    ∷ row 362 "Channel Unknown" "CL"
    ∷ row 368 "Sub-channel" "LC"
    ∷ row 369 "Sub-channel Increment" "OSC"
    ∷ row 370 "Sub-channel Decrement" "OSC"
    ∷ row 371 "Alternate Audio Increment" "OSC"
    ∷ row 372 "Alternate Audio Decrement" "OSC"
    ∷ row 384 "Application Launch Buttons" "NAry"
    ∷ row 385 "AL Launch Button Configuration Tool" "Sel"
    ∷ row 386 "AL Programmable Button Configuration" "Sel"
    ∷ row 387 "AL Consumer Control Configuration" "Sel"
    ∷ row 388 "AL Word Processor" "Sel"
    ∷ row 389 "AL Text Editor" "Sel"
    ∷ row 390 "AL Spreadsheet" "Sel"
    ∷ row 391 "AL Graphics Editor" "Sel"
    ∷ row 392 "AL Presentation App" "Sel"
    ∷ row 393 "AL Database App" "Sel"
    ∷ row 394 "AL Email Reader" "Sel"
    ∷ row 395 "AL Newsreader" "Sel"
    ∷ row 396 "AL Voicemail" "Sel"
    ∷ row 397 "AL Contacts/Address Book" "Sel"
    ∷ row 398 "AL Calendar/Schedule" "Sel"
    ∷ row 399 "AL Task/Project Manager" "Sel"
    ∷ row 400 "AL Log/Journal/Timecard" "Sel"
    ∷ row 401 "AL Checkbook/Finance" "Sel"
    ∷ row 402 "AL Calculator" "Sel"
    ∷ row 403 "AL A/V Capture/Playback" "Sel"
    ∷ row 404 "AL Local Machine Browser" "Sel"
    ∷ row 405 "AL LAN/WAN Browser" "Sel"
    ∷ row 406 "AL Internet Browser" "Sel"
    ∷ row 407 "AL Remote Networking/ISP Connect" "Sel"
    ∷ row 408 "AL Network Conference" "Sel"
    ∷ row 409 "AL Network Chat" "Sel"
    ∷ row 410 "AL Telephony/Dialer" "Sel"
    ∷ row 411 "AL Logon" "Sel"
    ∷ row 412 "AL Logoff" "Sel"
    ∷ row 413 "AL Logon/Logoff" "Sel"
    ∷ row 414 "AL Terminal Lock/Screensaver" "Sel"
    ∷ row 415 "AL Control Panel" "Sel"
    ∷ row 416 "AL Command Line Processor/Run" "Sel"
    ∷ row 417 "AL Process/Task Manager" "Sel"
    ∷ row 418 "AL Select Task/Application" "Sel"
    ∷ row 419 "AL Next Task/Application" "Sel"
    ∷ row 420 "AL Previous Task/Application" "Sel"
    ∷ row 421 "AL Preemptive Halt Task/Application" "Sel"
    ∷ row 422 "AL Integrated Help Center" "Sel"
    ∷ row 423 "AL Documents" "Sel"
    ∷ row 424 "AL Thesaurus" "Sel"
    ∷ row 425 "AL Dictionary" "Sel"
    ∷ row 426 "AL Desktop" "Sel"
    ∷ row 427 "AL Spell Check" "Sel"
    ∷ row 428 "AL Grammar Check" "Sel"
    ∷ row 429 "AL Wireless Status" "Sel"
    ∷ row 430 "AL Keyboard Layout" "Sel"
    ∷ row 431 "AL Virus Protection" "Sel"
    ∷ row 432 "AL Encryption" "Sel"
    ∷ row 433 "AL Screen Saver" "Sel"
    ∷ row 434 "AL Alarms" "Sel"
    ∷ row 435 "AL Clock" "Sel"
    ∷ row 436 "AL File Browser" "Sel"
    ∷ row 437 "AL Power Status" "Sel"
    ∷ row 438 "AL Image Browser" "Sel"
    ∷ row 439 "AL Audio Browser" "Sel"
    ∷ row 440 "AL Movie Browser" "Sel"
    ∷ row 441 "AL Digital Rights Manager" "Sel"
    ∷ row 442 "AL Digital Wallet" "Sel"
    ∷ row 444 "AL Instant Messaging" "Sel"
    ∷ row 445 "AL OEM Features/ Tips/Tutorial Browser" "Sel"
    ∷ row 446 "AL OEM Help" "Sel"
    ∷ row 447 "AL Online Community" "Sel"
    ∷ row 448 "AL Entertainment Content Browser" "Sel"
    ∷ row 449 "AL Online Shopping Browser" "Sel"
    ∷ row 450 "AL SmartCard Information/Help" "Sel"
    ∷ row 451 "AL Market Monitor/Finance Browser" "Sel"
    ∷ row 452 "AL Customized Corporate News Browser" "Sel"
    ∷ row 453 "AL Online Activity Browser" "Sel"
    ∷ row 454 "AL Research/Search Browser" "Sel"
    ∷ row 455 "AL Audio Player" "Sel"
    ∷ row 456 "AL Message Status" "Sel"
    ∷ row 457 "AL Contact Sync" "Sel"
    ∷ row 458 "AL Navigation" "Sel"
    ∷ row 459 "AL Context-aware Desktop Assistant" "Sel"
    ∷ row 512 "Generic GUI Application Controls" "NAry"
    ∷ row 513 "AC New" "Sel"
    ∷ row 514 "AC Open" "Sel"
    ∷ row 515 "AC Close" "Sel"
    ∷ row 516 "AC Exit" "Sel"
    ∷ row 517 "AC Maximize" "Sel"
    ∷ row 518 "AC Minimize" "Sel"
    ∷ row 519 "AC Save" "Sel"
    ∷ row 520 "AC Print" "Sel"
    ∷ row 521 "AC Properties" "Sel"
    ∷ row 538 "AC Undo" "Sel"
    ∷ row 539 "AC Copy" "Sel"
    ∷ row 540 "AC Cut" "Sel"
    ∷ row 541 "AC Paste" "Sel"
    ∷ row 542 "AC Select All" "Sel"
    ∷ row 543 "AC Find" "Sel"
    ∷ []
