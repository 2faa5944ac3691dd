-- ===== src/BleConnectionTracker.antt =====
-- src/BLEPacket/BleConnectionTracker.h and BleConnectionTracker.cpp: everything that the node knows.
-- A pointer into a std::map is the entry's key, since the nodes of a map do not move; a `Base *` is
-- therefore a reference to a stored message, to a stored announcement or to the node's own.
-- A std::multimap over pointers is a list of pairs. The program's order of unequal pointers is that
-- of addresses; here pairs stand in the order in which they were put in.
-- `time_us_64()`, the board's id and `std::hash` are not part of this code and are arguments.
pub mod Clock
pub mod Packets
pub mod Connections
pub mod RawPackets
pub mod Sending
pub mod Linked
pub mod Cleanup
use ble_smoke_detector.Common.{ℕ, ◌==◌, Bool, true, false, Option, none, some, List, [], bytes_eq}
use ble_smoke_detector.Common.Map.{Map}
use ble_smoke_detector.Base.{Base}
use ble_smoke_detector.Peer.{Peer}
use ble_smoke_detector.Message.{Message}
use ble_smoke_detector.Announce.{Announce, new_announce}
use ble_smoke_detector.MicroMeshPreferences.{MicroMeshPreferences, new_preferences}
use ble_smoke_detector.BleConnection.{BleConnection}

-- `Base *`
pub data PacketRef : Type 0 where
  message_at : List ℕ → PacketRef
  announce_at : ℕ → PacketRef
  own_announce : PacketRef

-- Equality of two `Base *`.
unfoldable pub same_packet : PacketRef → PacketRef → Bool
unfolding bytes_eq
same_packet (message_at i) (message_at j) = bytes_eq i j
same_packet (announce_at i) (announce_at j) = i == j
same_packet own_announce own_announce = true
same_packet _ _ = false

pub record BleConnectionTracker : Type 0 where
  pub peers : Map ℕ Peer
  pub messages : Map (List ℕ) Message
  pub announces : Map ℕ Announce
  pub announce : Announce
  pub prefs : MicroMeshPreferences
  pub connections : Map ℕ BleConnection
  pub available_neighbours : Map (List ℕ) BleConnection
  pub raw_packet_to_notify : List (ℕ × List ℕ)
  pub raw_packet_to_write : List (ℕ × List ℕ)
  pub timestamp_offset_ms : ℕ
  pub handle_peer_map : Map ℕ ℕ
  pub packets_connections_sent_list : List (PacketRef × ℕ)
  pub packets_peers_sent_list : List (PacketRef × ℕ)
  pub broadcast_packets_to_send_list : List PacketRef
  pub targeted_packets_to_send_list : List (PacketRef × ℕ)

unfoldable pub new_tracker : BleConnectionTracker
unfolding new_announce new_preferences
new_tracker = record {
  peers = [];
  messages = [];
  announces = [];
  announce = new_announce;
  prefs = new_preferences;
  connections = [];
  available_neighbours = [];
  raw_packet_to_notify = [];
  raw_packet_to_write = [];
  timestamp_offset_ms = 0;
  handle_peer_map = [];
  packets_connections_sent_list = [];
  packets_peers_sent_list = [];
  broadcast_packets_to_send_list = [];
  targeted_packets_to_send_list = [];
}
