-- ===== src/BleConnectionTracker/Connections/Peers.antt =====
-- What `reportDisconnection` of src/BLEPacket/BleConnectionTracker.cpp does to the peers.
use ble_smoke_detector.Common.{ℕ, ◌≡◌, none, some}
use ble_smoke_detector.Common.Map.{number_key, lookup, at_or_new, lookup-insert_self}
use ble_smoke_detector.Peer.{new_peer}
use ble_smoke_detector.BleConnectionTracker.{BleConnectionTracker}
use ble_smoke_detector.BleConnectionTracker.Connections.{report_disconnection}

-- Where no peer has the connection's handle for its id, a disconnection makes one: a peer without id
-- and name, under the handle.
pub report_disconnection-peers :
    (handle : ℕ) (t : BleConnectionTracker)
    → lookup handle t.peers ≡ none
    → lookup handle (report_disconnection handle t).peers ≡ some new_peer
unfolding report_disconnection at_or_new
report_disconnection-peers handle t e =
    rw (e, at_or_new) (lookup-insert_self handle new_peer t.peers)
