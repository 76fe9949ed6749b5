-- ===== src/Tables/Usages/Consumer3.antt =====
-- Rows of the table of usages (components/ble_client_hid/usage_data.cpp).
use esphome_ble_remote.Prelude.{List, [], ◌∷◌}
use esphome_ble_remote.Tables.{UsageRecord, row}

abbrev pub consumer_3 : List UsageRecord
consumer_3 =
    row 544 "AC Find and Replace" "Sel"
    ∷ row 545 "AC Search" "Sel"
    ∷ row 546 "AC Go To" "Sel"
    ∷ row 547 "AC Home" "Sel"
    ∷ row 548 "AC Back" "Sel"
    ∷ row 549 "AC Forward" "Sel"
    ∷ row 550 "AC Stop" "Sel"
    ∷ row 551 "AC Refresh" "Sel"
    ∷ row 552 "AC Previous Link" "Sel"
    ∷ row 553 "AC Next Link" "Sel"
    ∷ row 554 "AC Bookmarks" "Sel"
    ∷ row 555 "AC History" "Sel"
    ∷ row 556 "AC Subscriptions" "Sel"
    ∷ row 557 "AC Zoom In" "Sel"
    ∷ row 558 "AC Zoom Out" "Sel"
    ∷ row 559 "AC Zoom" "LC"
    ∷ row 560 "AC Full Screen View" "Sel"
    ∷ row 561 "AC Normal View" "Sel"
    ∷ row 562 "AC View Toggle" "Sel"
    ∷ row 563 "AC Scroll Up" "Sel"
    ∷ row 564 "AC Scroll Down" "Sel"
    ∷ row 565 "AC Scroll" "LC"
    ∷ row 566 "AC Pan Left" "Sel"
    ∷ row 567 "AC Pan Right" "Sel"
    ∷ row 568 "AC Pan" "LC"
    ∷ row 569 "AC New Window" "Sel"
    ∷ row 570 "AC Tile Horizontally" "Sel"
    ∷ row 571 "AC Tile Vertically" "Sel"
    ∷ row 572 "AC Format" "Sel"
    ∷ row 573 "AC Edit" "Sel"
    ∷ row 574 "AC Bold" "Sel"
    ∷ row 575 "AC Italics" "Sel"
    ∷ row 576 "AC Underline" "Sel"
    ∷ row 577 "AC Strikethrough" "Sel"
    ∷ row 578 "AC Subscript" "Sel"
    ∷ row 579 "AC Superscript" "Sel"
    ∷ row 580 "AC All Caps" "Sel"
    ∷ row 581 "AC Rotate" "Sel"
    ∷ row 582 "AC Resize" "Sel"
    ∷ row 583 "AC Flip Horizontal" "Sel"
    ∷ row 584 "AC Flip Vertical" "Sel"
    ∷ row 585 "AC Mirror Horizontal" "Sel"
    ∷ row 586 "AC Mirror Vertical" "Sel"
    ∷ row 587 "AC Font Select" "Sel"
    ∷ row 588 "AC Font Color" "Sel"
    ∷ row 589 "AC Font Size" "Sel"
    ∷ row 590 "AC Justify Left" "Sel"
    ∷ row 591 "AC Justify Center H" "Sel"
    ∷ row 592 "AC Justify Right" "Sel"
    ∷ row 593 "AC Justify Block H" "Sel"
    ∷ row 594 "AC Justify Top" "Sel"
    ∷ row 595 "AC Justify Center V" "Sel"
    ∷ row 596 "AC Justify Bottom" "Sel"
    ∷ row 597 "AC Justify Block V" "Sel"
    ∷ row 598 "AC Indent Decrease" "Sel"
    ∷ row 599 "AC Indent Increase" "Sel"
    ∷ row 600 "AC Numbered List" "Sel"
    ∷ row 601 "AC Restart Numbering" "Sel"
    ∷ row 602 "AC Bulleted List" "Sel"
    ∷ row 603 "AC Promote" "Sel"
    ∷ row 604 "AC Demote" "Sel"
    ∷ row 605 "AC Yes" "Sel"
    ∷ row 606 "AC No" "Sel"
    ∷ row 607 "AC Cancel" "Sel"
    ∷ row 608 "AC Catalog" "Sel"
    ∷ row 609 "AC Buy/Checkout" "Sel"
    ∷ row 610 "AC Add to Cart" "Sel"
    ∷ row 611 "AC Expand" "Sel"
    ∷ row 612 "AC Expand All" "Sel"
    ∷ row 613 "AC Collapse" "Sel"
    ∷ row 614 "AC Collapse All" "Sel"
    ∷ row 615 "AC Print Preview" "Sel"
    ∷ row 616 "AC Paste Special" "Sel"
    ∷ row 617 "AC Insert Mode" "Sel"
    ∷ row 618 "AC Delete" "Sel"
    ∷ row 619 "AC Lock" "Sel"
    ∷ row 620 "AC Unlock" "Sel"
    ∷ row 621 "AC Protect" "Sel"
    ∷ row 622 "AC Unprotect" "Sel"
    ∷ row 623 "AC Attach Comment" "Sel"
    ∷ row 624 "AC Delete Comment" "Sel"
    ∷ row 625 "AC View Comment" "Sel"
    ∷ row 626 "AC Select Word" "Sel"
    ∷ row 627 "AC Select Sentence" "Sel"
    ∷ row 628 "AC Select Paragraph" "Sel"
    ∷ row 629 "AC Select Column" "Sel"
    ∷ row 630 "AC Select Row" "Sel"
    ∷ row 631 "AC Select Table" "Sel"
    ∷ row 632 "AC Select Object" "Sel"
    ∷ row 633 "AC Redo/Repeat" "Sel"
    ∷ row 634 "AC Sort" "Sel"
    ∷ row 635 "AC Sort Ascending" "Sel"
    ∷ row 636 "AC Sort Descending" "Sel"
    ∷ row 637 "AC Filter" "Sel"
    ∷ row 638 "AC Set Clock" "Sel"
    ∷ row 639 "AC View Clock" "Sel"
    ∷ row 640 "AC Select Time Zone" "Sel"
    ∷ row 641 "AC Edit Time Zones" "Sel"
    ∷ row 642 "AC Set Alarm" "Sel"
    ∷ row 643 "AC Clear Alarm" "Sel"
    ∷ row 644 "AC Snooze Alarm" "Sel"
    ∷ row 645 "AC Reset Alarm" "Sel"
    ∷ row 646 "AC Synchronize" "Sel"
    ∷ row 647 "AC Send/Receive" "Sel"
    ∷ row 648 "AC Send To" "Sel"
    ∷ row 649 "AC Reply" "Sel"
    ∷ row 650 "AC Reply All" "Sel"
    ∷ row 651 "AC Forward Msg" "Sel"
    ∷ row 652 "AC Send" "Sel"
    ∷ row 653 "AC Attach File" "Sel"
    ∷ row 654 "AC Upload" "Sel"
    ∷ row 655 "AC Download (Save Target As)" "Sel"
    ∷ row 656 "AC Set Borders" "Sel"
    ∷ row 657 "AC Insert Row" "Sel"
    ∷ row 658 "AC Insert Column" "Sel"
    ∷ row 659 "AC Insert File" "Sel"
    ∷ row 660 "AC Insert Picture" "Sel"
    ∷ row 661 "AC Insert Object" "Sel"
    ∷ row 662 "AC Insert Symbol" "Sel"
    ∷ row 663 "AC Save and Close" "Sel"
    ∷ row 664 "AC Rename" "Sel"
    ∷ row 665 "AC Merge" "Sel"
    ∷ row 666 "AC Split" "Sel"
    ∷ row 667 "AC Disribute Horizontally" "Sel"
    ∷ row 668 "AC Distribute Vertically" "Sel"
    ∷ row 669 "AC Next Keyboard Layout Select" "Sel"
    ∷ row 670 "AC Navigation Guidance" "Sel"
    ∷ row 671 "AC Desktop Show All Windows" "Sel"
    ∷ row 672 "AC Soft Key Left" "Sel"
    ∷ row 673 "AC Soft Key Right" "Sel"
    ∷ row 674 "AC Desktop Show All Applications" "Sel"
    ∷ row 688 "AC Idle Keep Alive" "Sel"
    ∷ row 704 "Extended Keyboard Attributes Collection" "CL"
    ∷ row 705 "Keyboard Form Factor" "SV"
    ∷ row 706 "Keyboard Key Type" "SV"
    ∷ row 707 "Keyboard Physical Layout" "SV"
    ∷ row 708 "Vendor-Specific Keyboard Physical Layout" "SV"
    ∷ row 709 "Keyboard IETF Language Tag Index" "SV"
    ∷ row 710 "Implemented Keyboard Input Assist Controls" "SV"
    ∷ row 711 "Keyboard Input Assist Previous" "Sel"
    ∷ []

abbrev pub consumer_4 : List UsageRecord
consumer_4 =
    row 712 "Keyboard Input Assist Next" "Sel"
    ∷ row 713 "Keyboard Input Assist Previous Group" "Sel"
    ∷ row 714 "Keyboard Input Assist Next Group" "Sel"
    ∷ row 715 "Keyboard Input Assist Accept" "Sel"
    ∷ row 716 "Keyboard Input Assist Cancel" "Sel"
    ∷ row 720 "Privacy Screen Toggle" "OOC"
    ∷ row 721 "Privacy Screen Level Decrement" "RTC"
    ∷ row 722 "Privacy Screen Level Increment" "RTC"
    ∷ row 723 "Privacy Screen Level Minimum" "OSC"
    ∷ row 724 "Privacy Screen Level Maximum" "OSC"
    ∷ row 1280 "Contact Edited" "OOC"
    ∷ row 1281 "Contact Added" "OOC"
    ∷ row 1282 "Contact Record Active" "OOC"
    ∷ row 1283 "Contact Index" "DV"
    ∷ row 1284 "Contact Nickname" "DV"
    ∷ row 1285 "Contact First Name" "DV"
    ∷ row 1286 "Contact Last Name" "DV"
    ∷ row 1287 "Contact Full Name" "DV"
    ∷ row 1288 "Contact Phone Number Personal" "DV"
    ∷ row 1289 "Contact Phone Number Business" "DV"
    ∷ row 1290 "Contact Phone Number Mobile" "DV"
    ∷ row 1291 "Contact Phone Number Pager" "DV"
    ∷ row 1292 "Contact Phone Number Fax" "DV"
    ∷ row 1293 "Contact Phone Number Other" "DV"
    ∷ row 1294 "Contact Email Personal" "DV"
    ∷ row 1295 "Contact Email Business" "DV"
    ∷ row 1296 "Contact Email Other" "DV"
    ∷ row 1297 "Contact Email Main" "DV"
    ∷ row 1298 "Contact Speed Dial Number" "DV"
    ∷ row 1299 "Contact Status Flag" "DV"
    ∷ row 1300 "Contact Misc." "DV"
    ∷ row 1301 "Keyboard Brightness Next" "OSC"
    ∷ row 1302 "Keyboard Brightness Previous" "OSC"
    ∷ row 1303 "Keyboard Backlight Level Suggestion" "SV"
    ∷ []
