-- ===== src/Client/Names/Elapsed.antt =====
-- elapsed of components/ble_client_hid/ble_client_hid.cpp on clocks that wrap.
use esphome_ble_remote.Prelude.{ℕ, ◌+◌, ◌<◌, ◌≡◌, arith, leb}
use esphome_ble_remote.Prelude.Words.{u32}
use esphome_ble_remote.Client.Names.{elapsed}

-- For a clock that started at a uint32_t value and advanced by less than 2 ^ 32, with the addition
-- wrapping, an interval has elapsed exactly where the advance is no less than it.
pub elapsed-wraps :
    (start advance interval : ℕ)
    → start < 4294967296
    → advance < 4294967296
    → elapsed (u32 (start + advance)) start interval ≡ leb interval advance
unfolding elapsed
elapsed-wraps start advance interval h1 h2 = grind arith
