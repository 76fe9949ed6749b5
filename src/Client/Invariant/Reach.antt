-- ===== src/Client/Invariant/Reach.antt =====
-- What holds in every state that the component reaches
-- (components/ble_client_hid/ble_client_hid.cpp).
use esphome_ble_remote.Prelude.{◌≡◌, refl, none, some, subst, sym, ◌∙◌, eq_of_some, [], arith}
use esphome_ble_remote.Buffer.{new_buffer}
use esphome_ble_remote.Subscription.{reset}
use esphome_ble_remote.Client.Names.{disconnected}
use esphome_ble_remote.Client.State.{Platform, BleClientHid}
use esphome_ble_remote.Client.Queue.Bounds.{total_bytes}
use esphome_ble_remote.Client.Events.Ready.{SampleIsSound, emptied-SampleIsSound}
use esphome_ble_remote.Client.Inventory.{Database}
use esphome_ble_remote.Client.Handler.{GattcEvent, gattc_event_handler, loop}
use esphome_ble_remote.Client.Invariant.{IsSound}
use esphome_ble_remote.Client.Invariant.Events.{gattc_event_handler-IsSound}
use esphome_ble_remote.Client.Invariant.Loop.{loop-Succeeds}

-- The members that have an initializer in the class, and no connection: the rest is as the
-- configuration sets it.
pub record IsInitial (c : BleClientHid) : Type 0 where
  pub phase : c.setup_phase ≡ disconnected
  pub subscription : c.active_subscription ≡ none
  pub attempt : c.subscription_state ≡ reset
  pub subscriptions : c.subscription_queue ≡ []
  pub reports : c.pending_reports ≡ []
  pub report_bytes : c.pending_report_bytes ≡ 0
  pub events : c.sampled_events ≡ new_buffer 16
  pub contexts : c.hid_services ≡ []

-- ESPHome calls the component from one task: an event of ESP-IDF, or a round of `loop` that
-- returns. The database may be another one each time.
pub data Step (p : Platform) (c : BleClientHid) : BleClientHid → Type 0 where
  event : (e : GattcEvent) → Step p c (gattc_event_handler p e c)
  round : (db : Database) (d : BleClientHid) → loop p db c ≡ some d → Step p c d

pub data Reach (p : Platform) : BleClientHid → Type 0 where
  start : (c : BleClientHid) → IsInitial c → Reach p c
  later : (c d : BleClientHid) → Reach p c → Step p c d → Reach p d

IsInitial-IsSound : (c : BleClientHid) → IsInitial c → IsSound c
unfolding new_buffer reset total_bytes
IsInitial-IsSound c initial = record {
  attempt = record {
    tracks = rw (initial.subscription, initial.attempt) refl;
    waits = rw initial.phase refl;
  };
  queue = record {
    counted = rw (initial.reports, initial.report_bytes) refl;
    bytes = rw initial.reports (omega arith);
    reports = rw initial.reports (omega arith);
  };
  samples = subst SampleIsSound (sym initial.events) (emptied-SampleIsSound (new_buffer 16));
  subscriptions = rw initial.subscriptions (omega arith);
  maps = rw initial.contexts tt;
}

Step-IsSound : (p : Platform) (c d : BleClientHid) → Step p c d → IsSound c → IsSound d
Step-IsSound p c _ (event e) sound = gattc_event_handler-IsSound p e c sound
Step-IsSound p c d (round db _ e) sound =
    let (d', e', sound', _) = loop-Succeeds p db c sound in
    subst IsSound (eq_of_some d' d (sym e' ∙ e)) sound'

pub Reach-IsSound : (p : Platform) (c : BleClientHid) → Reach p c → IsSound c
Reach-IsSound p c (start _ initial) = IsInitial-IsSound c initial
Reach-IsSound p c (later b _ r step) = Step-IsSound p b c step (Reach-IsSound p b r)

-- In every state that the component reaches from its initial one, by any sequence of events of
-- ESP-IDF and rounds of `loop` in any order, with any database and any answers: at most 64 reports
-- and 4096 bytes are queued and the counter of the bytes is right, at most 128 subscriptions are
-- queued, the held back events are within the buffer's capacity and have distinct keys, the attempt
-- is that of the active subscription, a phase that waits for a subscription has one, each report map
-- has the fields that its reports name, and the next round of `loop` throws no exception and reads no
-- field out of range.
pub Reach-safe :
    (p : Platform) (c : BleClientHid) (db : Database)
    → Reach p c
    → IsSound c × ((d : BleClientHid) × (loop p db c ≡ some d))
Reach-safe p c db reach =
    let sound = Reach-IsSound p c reach in
    let (d, e, _, _) = loop-Succeeds p db c sound in (sound, (d, e))
