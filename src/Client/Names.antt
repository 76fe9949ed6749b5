-- ===== src/Client/Names.antt =====
-- Enumerations, names and text helpers of components/ble_client_hid/ble_client_hid.h and .cpp.
pub mod Elapsed
use esphome_ble_remote.Prelude.{
  ℕ, zero, suc, ◌+◌, ◌/◌, ◌%◌, Bool, true, false, ◌&&◌, not, List, [], ◌∷◌, map, ltb, leb, ◌==◌,
  if◌then◌else◌, get_or,
}
use esphome_ble_remote.Prelude.Words.{sub_u32}
use esphome_ble_remote.Prelude.Text.{Text, codes}

pub data DiscoveryMode : Type 0 where
  standard forensic : DiscoveryMode

pub data ProtocolModePolicy : Type 0 where
  unchanged report boot : ProtocolModePolicy

pub data SetupPhase : Type 0 where
  disconnected waiting_for_discovery inventory reading building_profile writing_protocol_mode
        registering waiting_for_cccd ready degraded no_hid :
      SetupPhase

-- On uint32_t times, which wrap.
unfoldable pub elapsed : ℕ → ℕ → ℕ → Bool
elapsed now start interval = leb interval (sub_u32 now start)

unfoldable pub phase_name : SetupPhase → Text
phase_name disconnected = codes "disconnected"
phase_name waiting_for_discovery = codes "waiting_for_discovery"
phase_name inventory = codes "inventory"
phase_name reading = codes "reading"
phase_name building_profile = codes "building_profile"
phase_name writing_protocol_mode = codes "writing_protocol_mode"
phase_name registering = codes "registering"
phase_name waiting_for_cccd = codes "waiting_for_cccd"
phase_name ready = codes "ready"
phase_name degraded = codes "degraded"
phase_name no_hid = codes "no_hid"

unfoldable pub ad_type_name : ℕ → Text
ad_type_name type =
    if type == 0x01
    then codes "flags"
    else if type == 0x02
    then codes "incomplete_uuid16_list"
    else if type == 0x03
    then codes "complete_uuid16_list"
    else if type == 0x04
    then codes "incomplete_uuid32_list"
    else if type == 0x05
    then codes "complete_uuid32_list"
    else if type == 0x06
    then codes "incomplete_uuid128_list"
    else if type == 0x07
    then codes "complete_uuid128_list"
    else if type == 0x08
    then codes "short_name"
    else if type == 0x09
    then codes "complete_name"
    else if type == 0x0A
    then codes "tx_power"
    else if type == 0x16
    then codes "service_data_uuid16"
    else if type == 0x19
    then codes "appearance"
    else if type == 0x20
    then codes "service_data_uuid32"
    else if type == 0x21
    then codes "service_data_uuid128"
    else if type == 0xFF
    then codes "manufacturer_data"
    else codes "unknown"

-- `std::isprint` in the C locale holds of the bytes from 0x20 to 0x7E.
unfoldable pub printable_text : List ℕ → Text
printable_text value = map (λ c. if leb 0x20 c && leb c 0x7E then c else b'.') value

hex_alphabet : ℕ → ℕ
hex_alphabet d = if ltb d 10 then d + 48 else d + 87

-- The digits of the digest's bytes, the high one first.
unfoldable pub digest_string : List ℕ → Text
unfolding hex_alphabet
digest_string [] = []
digest_string (b ∷ digest) = hex_alphabet (b / 16) ∷ hex_alphabet (b % 16) ∷ digest_string digest
