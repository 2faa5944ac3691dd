-- ===== src/BleConnectionTracker/Cleanup.antt =====
-- `cleanupStaleItems` of src/BLEPacket/BleConnectionTracker.cpp: what is older than ten minutes goes.
pub mod Dangling
pub mod Neighbours
use ble_smoke_detector.Common.{
  ℕ, ◌+◌, ◌*◌, ◌%◌, ◌^◌, Bool, true, false, ◌&&◌, ◌||◌, not, Option, none, some, ltb, keep_if,
  if◌then◌else◌,
}
use ble_smoke_detector.Common.Map.{number_key, string_key, lookup}
use ble_smoke_detector.Base.{Base}
use ble_smoke_detector.BleConnection.{BleConnection, get_timestamp_ms}
use ble_smoke_detector.BleConnectionTracker.{BleConnectionTracker, PacketRef}
use ble_smoke_detector.BleConnectionTracker.Clock.{get_time_ms}
use ble_smoke_detector.BleConnectionTracker.Packets.{base_of}

abbrev pub ten_minutes_in_ms : ℕ
ten_minutes_in_ms = 1000 * 60 * 10

-- `timestamp + ten_minutes_in_ms < now` on uint64_t.
abbrev pub is_old : ℕ → ℕ → Bool
is_old now timestamp = ltb ((timestamp + ten_minutes_in_ms) % 2 ^ 64) now

abbrev pub base_stale : ℕ → Base → Bool
base_stale now b = is_old now b.packet_timestamp_ms

-- `connection_stale`
abbrev pub connection_stale : ℕ → BleConnection → Bool
connection_stale now c = not c.connected && is_old now (get_timestamp_ms c)

-- `packet_stale`. The program would read a packet that is gone; Dangling shows that there is none.
pub packet_stale : ℕ → BleConnectionTracker → PacketRef → Bool
packet_stale now t packet = elim (base_of t packet) [ none ↦ true | some b ↦ base_stale now b ]

pub handle_stale : ℕ → BleConnectionTracker → ℕ → Bool
handle_stale now t handle = elim (lookup handle t.connections) [
  | none ↦ true
  | some c ↦ connection_stale now c
]

-- `packet_connection_stale`
pub packet_connection_stale : ℕ → BleConnectionTracker → PacketRef × ℕ → Bool
packet_connection_stale now t (packet, connection) =
    packet_stale now t packet || handle_stale now t connection

unfoldable pub cleanup_stale_items : ℕ → BleConnectionTracker → BleConnectionTracker
unfolding get_time_ms packet_stale handle_stale packet_connection_stale keep_if base_of lookup
cleanup_stale_items time_us t =
    let now = get_time_ms time_us t in
    record t {
      packets_connections_sent_list =
          keep_if (λ e. not (packet_connection_stale now t e)) t.packets_connections_sent_list;
      packets_peers_sent_list =
          keep_if (λ e. not (packet_stale now t e.0)) t.packets_peers_sent_list;
      broadcast_packets_to_send_list =
          keep_if (λ e. not (packet_stale now t e)) t.broadcast_packets_to_send_list;
      targeted_packets_to_send_list =
          keep_if (λ e. not (packet_connection_stale now t e)) t.targeted_packets_to_send_list;
      connections = keep_if (λ e. not (connection_stale now e.1)) t.connections;
      available_neighbours = keep_if (λ e. not (connection_stale now e.1)) t.available_neighbours;
      messages = keep_if (λ e. not (base_stale now e.1.base)) t.messages;
      announces = keep_if (λ e. not (base_stale now e.1.base)) t.announces;
    }
