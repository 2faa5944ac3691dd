-- ===== src/Tests/Buffers.antt =====
-- A packet that breaks off, a digit, a disconnection, a queue, and clean-up once the time is known.
use ble_smoke_detector.Common.{
  ℕ, zero, suc, ◌+◌, ◌<◌, ◌≡◌, refl, arith, false, true, none, some, List, [], ◌∷◌, get_or, ltb,
  if◌then◌else◌,
}
use ble_smoke_detector.Common.Map.{number_key, lookup}
use ble_smoke_detector.BinaryReader.{de_hexify}
use ble_smoke_detector.BinaryWriter.{hexify}
use ble_smoke_detector.BinaryWriter.Hex.{de_hexify-hexify}
use ble_smoke_detector.TlvLoop.Termination.{Returns}
use ble_smoke_detector.Peer.{new_peer}
use ble_smoke_detector.BleConnection.{BleConnection, new_connection}
use ble_smoke_detector.BleConnectionTracker.{BleConnectionTracker, new_tracker}
use ble_smoke_detector.BleConnectionTracker.Connections.{report_disconnection}
use ble_smoke_detector.BleConnectionTracker.Connections.Peers.{report_disconnection-peers}
use ble_smoke_detector.BleConnectionTracker.Cleanup.{cleanup_stale_items}
use ble_smoke_detector.BleConnectionTracker.Cleanup.Neighbours.{
  cleanup_stale_items-available_neighbours,
}
use ble_smoke_detector.BleConnectionTracker.RawPackets.{
  handed_over, notify_raw_packet, notify_raw_packet-own, notify_raw_packet-other,
}
use ble_smoke_detector.ProtocolProcessor.{process_write}
use ble_smoke_detector.ProtocolProcessor.Termination.{process_write-total}

-- A message of version 1 that ends inside its header.
abbrev broken_off : List ℕ
broken_off = 1 ∷ 2 ∷ 3 ∷ 255 ∷ 255 ∷ []

broken_off_bytes : (i : ℕ) → get_or broken_off i 0 < 256
broken_off_bytes zero = omega arith
broken_off_bytes (suc zero) = omega arith
broken_off_bytes (suc (suc zero)) = omega arith
broken_off_bytes (suc (suc (suc zero))) = omega arith
broken_off_bytes (suc (suc (suc (suc zero)))) = omega arith
broken_off_bytes (suc (suc (suc (suc (suc i))))) = omega arith

process_write-total_example :
    Returns (process_write (λ bytes. 7) 5000000 42 new_connection 0 broken_off 5 new_tracker)
process_write-total_example =
    process_write-total (λ bytes. 7) 5000000 42 new_connection 0 broken_off 5 new_tracker
      broken_off_bytes (omega arith) (omega arith)

de_hexify-hexify_example : de_hexify (hexify 13) ≡ (if ltb 13 10 then 13 else 13 + 32)
de_hexify-hexify_example = de_hexify-hexify 13 (omega arith)

no_peer : lookup 64 new_tracker.peers ≡ none
unfolding lookup new_tracker
no_peer = refl

report_disconnection-peers_example :
    lookup 64 (report_disconnection 64 new_tracker).peers ≡ some new_peer
report_disconnection-peers_example = report_disconnection-peers 64 new_tracker no_peer

abbrev neighbour : BleConnection
neighbour = record new_connection { connected = false; last_seen_time = 9000000 }

-- Nine seconds after boot a neighbour was seen, and the time is known.
abbrev informed : BleConnectionTracker
informed = record new_tracker {
  timestamp_offset_ms = 1781273500000;
  available_neighbours = (1 ∷ [], neighbour) ∷ [];
}

cleanup_stale_items-available_neighbours_example :
    (cleanup_stale_items 9000000 informed).available_neighbours ≡ []
cleanup_stale_items-available_neighbours_example =
    cleanup_stale_items-available_neighbours 9000000 informed (omega arith) (omega arith)
      ((refl, omega arith), tt)

-- A packet for connection 64 and one for connection 65.
abbrev two_queued : BleConnectionTracker
two_queued = record new_tracker { raw_packet_to_notify = (64, 1 ∷ []) ∷ (65, 2 ∷ []) ∷ [] }

queued_for_65 : lookup 65 two_queued.raw_packet_to_notify ≡ some (2 ∷ [])
unfolding lookup
queued_for_65 = refl

notify_raw_packet-own_example :
    (notify_raw_packet (λ call. true) 65 two_queued).0 ≡ some (handed_over 65 (2 ∷ []) two_queued)
notify_raw_packet-own_example =
    notify_raw_packet-own (λ call. true) 65 (2 ∷ []) two_queued ((omega arith, tt), (tt, tt))
      queued_for_65

notify_raw_packet-other_example :
    (notify_raw_packet (λ call. true) 63 two_queued).0 ≡ some (handed_over 63 (1 ∷ []) two_queued)
notify_raw_packet-other_example =
    notify_raw_packet-other (λ call. true) 63 64 (1 ∷ []) ((65, 2 ∷ []) ∷ []) two_queued refl
      (omega arith)
