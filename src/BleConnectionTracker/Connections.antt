-- ===== src/BleConnectionTracker/Connections.antt =====
-- Neighbours and connections in src/BLEPacket/BleConnectionTracker.cpp. Calls into the Bluetooth stack
-- (listeners, RSSI requests) change nothing here. The references that the source returns are handles.
pub mod Peers
use ble_smoke_detector.Common.{
  ℕ, ◌/◌, ◌%◌, ◌^◌, ◌==◌, Bool, true, false, ◌&&◌, ◌||◌, not, Option, none, some, List, [], ◌∷◌,
  ltb, if◌then◌else◌, map, keep_if, bytes_eq, length,
}
use ble_smoke_detector.Common.Map.{
  Map, number_key, string_key, lookup, insert, erase, at_or_new, update,
}
use ble_smoke_detector.PacketTypes.{type_announce}
use ble_smoke_detector.Base.{set_packet_timestamp}
use ble_smoke_detector.Peer.{new_peer}
use ble_smoke_detector.BinaryWriter.{write_data, write_uint8_hex16}
use ble_smoke_detector.BleConnection.{
  BleConnection, ServiceCheck, new_connection, set_ble_address, set_services, set_rssi,
  set_timestamp, set_use_coded_phy, set_connection_handle, set_connected, set_role,
  set_connect_failure, set_notification_enabled, is_repeater, is_random, hci_role_slave,
}
use ble_smoke_detector.BleConnectionTracker.{
  BleConnectionTracker, PacketRef, own_announce, same_packet,
}
use ble_smoke_detector.BleConnectionTracker.Clock.{we_have_the_time, get_time_ms}
use ble_smoke_detector.BleConnectionTracker.Packets.{base_of, enqueue_targeted_packet}

pub rssi_if_at : List ℕ → ℕ → BleConnection → BleConnection
unfolding bytes_eq
rssi_if_at bt_address rssi c = if bytes_eq c.bt_address bt_address then set_rssi rssi c else c

-- `updateRssiForActiveConnections`
unfoldable pub update_rssi_for_active_connections :
    List ℕ → ℕ → BleConnectionTracker → BleConnectionTracker
unfolding rssi_if_at
update_rssi_for_active_connections bt_address rssi t = record t {
  connections = map (λ e. (e.0, rssi_if_at bt_address rssi e.1)) t.connections;
}

-- `addAvailablePeer`, both overloads.
unfoldable pub add_available_peer :
    ℕ → List ℕ → ℕ → ServiceCheck → ℕ → Bool → BleConnectionTracker → BleConnectionTracker
unfolding update update_rssi_for_active_connections
add_available_peer time_us address address_type services rssi use_coded t =
    let refreshed = λ (c : BleConnection). set_use_coded_phy use_coded (
      set_timestamp time_us
        (set_rssi rssi (set_services services (set_ble_address address address_type c)))) in
    update_rssi_for_active_connections address rssi (record t {
      available_neighbours = update address new_connection refreshed t.available_neighbours;
    })

-- The neighbour that is known under an address becomes the connection.
unfoldable pub adopt_neighbour : ℕ → List ℕ → BleConnectionTracker → BleConnectionTracker
unfolding lookup insert erase
adopt_neighbour handle address t = elim (lookup address t.available_neighbours) [
  | none ↦ t
  | some neighbour ↦ record t {
    connections = insert handle neighbour t.connections;
    available_neighbours = erase address t.available_neighbours;
  }
]

-- `reportConnection(handle, addr, address_type)`
unfoldable pub report_connection : ℕ → ℕ → List ℕ → ℕ → BleConnectionTracker → BleConnectionTracker
unfolding adopt_neighbour update erase
report_connection time_us handle address address_type t =
    let t' = adopt_neighbour handle address t in
    let up = λ (c : BleConnection). set_timestamp time_us (
      set_ble_address address address_type (set_connected true (set_connection_handle handle c))) in
    record t' {
      connections = update handle new_connection up t'.connections;
      available_neighbours = erase address t'.available_neighbours;
    }

-- `reportConnection(handle, addr, address_type, role)`
unfoldable pub report_connection_with_role :
    ℕ → ℕ → List ℕ → ℕ → ℕ → BleConnectionTracker → BleConnectionTracker
unfolding report_connection
report_connection_with_role time_us handle address address_type role t =
    let t' = report_connection time_us handle address address_type t in
    record t' { connections = update handle new_connection (set_role role) t'.connections }

-- `reportConnectionFailure`
unfoldable pub report_connection_failure : List ℕ → ℕ → BleConnectionTracker → BleConnectionTracker
unfolding lookup insert
report_connection_failure address reason t = elim (lookup address t.available_neighbours) [
  | none ↦ t
  | some c ↦ record t {
    available_neighbours = insert address (set_connect_failure reason c) t.available_neighbours;
  }
]

-- `connection->getConnectionHandle()` through a pointer.
unfoldable pub handle_of : BleConnectionTracker → ℕ → ℕ
unfolding lookup
handle_of t connection = elim (lookup connection t.connections) [
  | none ↦ 0
  | some c ↦ c.connection_handle
]

-- The lambda `announced_to_connection` of `reportDisconnection`.
unfoldable pub announced_to_connection : BleConnectionTracker → ℕ → PacketRef × ℕ → Bool
unfolding base_of handle_of
announced_to_connection t handle (packet, connection) = elim (base_of t packet) [
  | none ↦ false
  | some b ↦
      (b.packet_type == type_announce)
      && ((b.packet_sender_id == t.announce.base.packet_sender_id)
          && (handle_of t connection == handle))
]

-- `reportDisconnection`. `peers[handle]` makes an entry under the connection's handle. The last
-- `erase_if` compares pointers with the address of the lambda's own copy and erases nothing.
unfoldable pub report_disconnection : ℕ → BleConnectionTracker → BleConnectionTracker
unfolding update at_or_new erase keep_if announced_to_connection
report_disconnection handle t =
    let down = λ (c : BleConnection). set_connected false (set_notification_enabled false c) in
    let t' = record t {
      connections = update handle new_connection down t.connections;
      peers = (at_or_new handle new_peer t.peers).1;
    } in
    record t' {
      handle_peer_map = erase handle t'.handle_peer_map;
      packets_connections_sent_list =
          keep_if (λ e. not (announced_to_connection t' handle e)) t'.packets_connections_sent_list;
      targeted_packets_to_send_list =
          keep_if (λ e. not (announced_to_connection t' handle e)) t'.targeted_packets_to_send_list;
    }

-- The test of `getConnectableNeighbours`.
abbrev pub is_connectable : BleConnectionTracker → BleConnection → Bool
is_connectable t c =
    (we_have_the_time t || is_repeater c)
    && (not c.connected && (not (is_random c) && (c.fail_reason == 0)))

-- `getConnectableNeighbours`, as keys.
unfoldable pub get_connectable_neighbours : BleConnectionTracker → List (List ℕ)
unfolding keep_if
get_connectable_neighbours t =
    map (λ e. e.0) (keep_if (λ e. is_connectable t e.1) t.available_neighbours)

-- `getActiveConnectionCount`; logging has no counterpart.
unfoldable pub get_active_connection_count : BleConnectionTracker → ℕ
unfolding keep_if
get_active_connection_count t = length (keep_if (λ e. e.1.connected) t.connections)

-- `setConnectionStarted`
unfoldable pub set_connection_started : List ℕ → BleConnectionTracker → BleConnectionTracker
unfolding erase
set_connection_started address t = record t {
  available_neighbours = erase address t.available_neighbours;
}

unfoldable pub first_at : List ℕ → Map ℕ BleConnection → Option ℕ
unfolding bytes_eq
first_at address [] = none
first_at address ((handle, c) ∷ rest) =
    if c.connected && bytes_eq c.bt_address address then some handle else first_at address rest

-- `getConnectionForAddress`
abbrev pub get_connection_for_address : List ℕ → BleConnectionTracker → Option ℕ
get_connection_for_address address t = first_at address t.connections

-- "SmokeDetector"
abbrev pub service_name : List ℕ
service_name =
    b'S' ∷ b'm' ∷ b'o' ∷ b'k' ∷ b'e' ∷ b'D' ∷ b'e' ∷ b't' ∷ b'e' ∷ b'c' ∷ b't' ∷ b'o' ∷ b'r' ∷ []

-- `setupAnnounceIfNeeded` on the Pico, for a board with this sender id.
unfoldable pub setup_announce_if_needed : ℕ → BleConnectionTracker → BleConnectionTracker
unfolding write_data write_uint8_hex16
setup_announce_if_needed sender t =
    let located = record t.announce {
      latitude_i = t.prefs.latitude_i;
      longitude_i = t.prefs.longitude_i;
      altitude = t.prefs.altitude;
    } in
    let name = write_uint8_hex16 (sender / 2 ^ 56 % 256) (
      write_uint8_hex16 (sender / 2 ^ 48 % 256)
        (write_data (b':' ∷ []) 1 (write_data service_name 13 []))) in
    if t.announce.base.packet_ttl == 3 then record t { announce = located } else record t {
      announce = record located {
        base = record located.base { packet_ttl = 3; packet_flags = 0; packet_sender_id = sender };
        name = name;
      };
    }

-- The view that `announceToConnections` filters by; `sendPackets` tests the same without the clock.
abbrev pub is_available : BleConnection → Bool
is_available c =
    c.connected && (ltb 0 c.packet_characteristic_value_handle || (c.role == hci_role_slave))

-- Some entry of the sent list is the own announcement, sent to the connection with this handle.
unfoldable pub announced_to : BleConnectionTracker → ℕ → List (PacketRef × ℕ) → Bool
unfolding same_packet handle_of
announced_to t handle [] = false
announced_to t handle ((packet, connection) ∷ rest) =
    (same_packet packet own_announce && (handle_of t connection == handle))
    || announced_to t handle rest

-- One round of the loop: stamp the announcement and queue it for the connection.
unfoldable pub announce_to : ℕ → ℕ → BleConnectionTracker → BleConnectionTracker
unfolding get_time_ms enqueue_targeted_packet
announce_to time_us handle t =
    let stamped = record t.announce {
      base = set_packet_timestamp (get_time_ms time_us t) t.announce.base;
    } in
    enqueue_targeted_packet own_announce handle (record t { announce = stamped })

-- The loop over the connections. Queueing makes no new connection for a handle that is there.
unfoldable pub announce_loop : ℕ → Map ℕ BleConnection → BleConnectionTracker → BleConnectionTracker
unfolding announce_to announced_to
announce_loop time_us [] t = t
announce_loop time_us ((key, c) ∷ rest) t = announce_loop time_us rest (
    if is_available c
      && (we_have_the_time t
          && not (announced_to t c.connection_handle t.packets_connections_sent_list))
    then announce_to time_us c.connection_handle t
    else t)

-- `announceToConnections`
unfoldable pub announce_to_connections : ℕ → ℕ → BleConnectionTracker → BleConnectionTracker
unfolding setup_announce_if_needed announce_loop
announce_to_connections time_us sender t =
    let t' = setup_announce_if_needed sender t in announce_loop time_us t'.connections t'
