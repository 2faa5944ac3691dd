-- ===== src/BleConnectionTracker/Sending.antt =====
-- Sending, in src/BLEPacket/BleConnectionTracker.cpp: what is queued as bytes for which connection.
-- The answers of the Bluetooth stack are arguments, and so is the address of a packet, by which the
-- multimaps of the source are in order. A pointer to something that is gone sends nothing here; the
-- lists of a node hold none.
pub mod Progress
pub mod Links
pub mod Queues
use ble_smoke_detector.Common.{
  ℕ, ◌==◌, Bool, true, false, ◌&&◌, ◌||◌, not, Option, none, some, List, [], ◌∷◌, ◌++◌, ltb, leb,
  if◌then◌else◌, length, any_of, keep_if, bytes_eq,
}
use ble_smoke_detector.Common.Map.{Map, number_key, string_key, lookup, insert, at_or_new}
use ble_smoke_detector.Message.{write_message}
use ble_smoke_detector.Announce.{write_announce}
use ble_smoke_detector.BleConnection.{BleConnection, new_connection, set_has_data, hci_role_slave}
use ble_smoke_detector.BleConnectionTracker.{
  BleConnectionTracker, PacketRef, message_at, announce_at, own_announce, same_packet,
}
use ble_smoke_detector.BleConnectionTracker.Packets.{base_of, have_packets_to_send}
use ble_smoke_detector.BleConnectionTracker.Connections.{handle_of, is_available}
use ble_smoke_detector.BleConnectionTracker.RawPackets.{HandedOver, lower_bound, erase_lower_bound}

-- What the stack answers to a connection's handle: a status, 0 for success.
pub record BluetoothStack : Type 0 where
  pub request_to_send_notification : ℕ → BleConnectionTracker → ℕ
  pub request_to_write_without_response : ℕ → BleConnectionTracker → ℕ

-- `packet->writePacket(packet_data)`, which also measures the packet.
unfoldable pub write_ref : PacketRef → BleConnectionTracker → List ℕ × BleConnectionTracker
unfolding write_message write_announce lookup insert
write_ref (message_at id) t = elim (lookup id t.messages) [
  | none ↦ ([], t)
  | some m ↦
      let (bytes, m') = write_message m [] in
      (bytes, record t { messages = insert id m' t.messages })
]
write_ref (announce_at id) t = elim (lookup id t.announces) [
  | none ↦ ([], t)
  | some a ↦
      let (bytes, a') = write_announce a [] in
      (bytes, record t { announces = insert id a' t.announces })
]
write_ref own_announce t =
    let (bytes, a') = write_announce t.announce [] in (bytes, record t { announce = a' })

-- `emplace` on a std::multimap: behind the entries with the same key.
unfoldable pub emplace : ℕ → List ℕ → List (ℕ × List ℕ) → List (ℕ × List ℕ)
emplace handle packet [] = (handle, packet) ∷ []
emplace handle packet ((key, other) ∷ rest) =
    let later = emplace handle packet rest in
    if ltb handle key then (handle, packet) ∷ (key, other) ∷ rest else (key, other) ∷ later

-- The first `if` of `SendPacketToConnection`.
unfoldable pub came_from : BleConnectionTracker → PacketRef → ℕ → Bool
unfolding base_of
came_from t packet handle = elim (base_of t packet) [
  | none ↦ false
  | some b ↦ ltb 0 b.sending_connection_handle && (b.sending_connection_handle == handle)
]

-- The Pico's part of `SendPacketToConnection`: the bytes are queued whatever the stack answers.
unfoldable pub queue_raw :
    BluetoothStack → ℕ → BleConnection → List ℕ → BleConnectionTracker → Bool × BleConnectionTracker
unfolding insert emplace
queue_raw stack connection c bytes t =
    let con_handle = c.connection_handle in
    let t' = record t { connections = insert connection (set_has_data true c) t.connections } in
    let notifying = record t' {
      raw_packet_to_notify = emplace con_handle bytes t'.raw_packet_to_notify;
    } in
    let writing = record t' {
      raw_packet_to_write = emplace con_handle bytes t'.raw_packet_to_write;
    } in
    if c.role == hci_role_slave
    then (stack.request_to_send_notification con_handle notifying == 0, notifying)
    else (stack.request_to_write_without_response con_handle writing == 0, writing)

-- `SendPacketToConnection` for the connection under a key.
unfoldable pub send_packet_to_connection :
    BluetoothStack → PacketRef → ℕ → BleConnectionTracker → Bool × BleConnectionTracker
unfolding lookup came_from write_ref queue_raw
send_packet_to_connection stack packet connection t = elim (lookup connection t.connections) [
  | none ↦ (false, t)
  | some c ↦
      let (bytes, t') = write_ref packet t in
      if came_from t packet c.connection_handle
      then (true, t)
      else if ltb 0 c.bt_mtu && ltb c.bt_mtu (length bytes)
      then (false, t')
      else queue_raw stack connection c bytes t'
]

abbrev pub mark_sent : PacketRef → ℕ → BleConnectionTracker → BleConnectionTracker
mark_sent packet connection t = record t {
  packets_connections_sent_list = t.packets_connections_sent_list ++ ((packet, connection) ∷ []);
}

-- The order of a std::multimap whose keys are pointers.
unfoldable pub put_in_order :
    (PacketRef → ℕ) → PacketRef × ℕ → List (PacketRef × ℕ) → List (PacketRef × ℕ)
put_in_order address e [] = e ∷ []
put_in_order address e (f ∷ rest) =
    let later = put_in_order address e rest in
    if ltb (address f.0) (address e.0) then f ∷ later else e ∷ f ∷ rest

unfoldable pub in_order : (PacketRef → ℕ) → List (PacketRef × ℕ) → List (PacketRef × ℕ)
unfolding put_in_order
in_order address [] = []
in_order address (e ∷ rest) = put_in_order address e (in_order address rest)

-- The lambda `packet_needed` of `sendPackets`.
unfoldable pub packet_needed : BleConnectionTracker → PacketRef × ℕ → Bool
unfolding same_packet handle_of
packet_needed t (packet, connection) = not (
    any_of (λ e. same_packet e.0 packet && (handle_of t e.1 == handle_of t connection))
      t.packets_connections_sent_list)

-- One round of the loop over the targeted packets, with `targeted_packets_to_remove`.
unfoldable pub send_targeted :
    BluetoothStack
    → PacketRef × ℕ
    → List PacketRef × BleConnectionTracker
    → List PacketRef × BleConnectionTracker
unfolding packet_needed send_packet_to_connection
send_targeted stack (packet, connection) (to_remove, t) =
    let (ok, t') = send_packet_to_connection stack packet connection t in
    if packet_needed t (packet, connection)
    then (if ok then (packet ∷ to_remove, mark_sent packet connection t') else (to_remove, t'))
    else (to_remove, t)

unfoldable pub targeted_loop :
    BluetoothStack
    → List (PacketRef × ℕ)
    → List PacketRef × BleConnectionTracker
    → List PacketRef × BleConnectionTracker
unfolding send_targeted
targeted_loop stack [] (to_remove, t) = (to_remove, t)
targeted_loop stack (e ∷ rest) (to_remove, t) =
    targeted_loop stack rest (send_targeted stack e (to_remove, t))

-- The part of `sendPackets` on targeted packets. What was sent to one connection is removed for all.
unfoldable pub send_all_targeted :
    BluetoothStack → (PacketRef → ℕ) → BleConnectionTracker → BleConnectionTracker
unfolding targeted_loop in_order same_packet
send_all_targeted stack address t =
    let (to_remove, t') =
      targeted_loop stack (in_order address t.targeted_packets_to_send_list) ([], t) in
    record t' {
      targeted_packets_to_send_list =
          keep_if (λ e. not (any_of (λ p. same_packet p e.0) to_remove))
            t'.targeted_packets_to_send_list;
    }

-- `!sendable`: the search goes from the first entry of the packet to the end of the multimap.
unfoldable pub found_sent : (PacketRef → ℕ) → BleConnectionTracker → PacketRef → ℕ → Bool
unfolding same_packet handle_of
found_sent address t packet handle =
    any_of (λ e. same_packet e.0 packet) t.packets_connections_sent_list
    && any_of (λ e. leb (address packet) (address e.0) && (handle_of t e.1 == handle))
        t.packets_connections_sent_list

-- One round of the loop over the connections: the packet counts as sent whatever became of it.
unfoldable pub broadcast_to :
    BluetoothStack
    → (PacketRef → ℕ)
    → PacketRef
    → ℕ × BleConnection
    → BleConnectionTracker
    → BleConnectionTracker
unfolding found_sent send_packet_to_connection
broadcast_to stack address packet (key, c) t =
    if is_available c && not (found_sent address t packet c.connection_handle)
    then mark_sent packet key (send_packet_to_connection stack packet key t).1
    else t

-- The loop over the connections. Sending changes no handle, role or state of a connection.
unfoldable pub broadcast_loop :
    BluetoothStack
    → (PacketRef → ℕ)
    → PacketRef
    → Map ℕ BleConnection
    → BleConnectionTracker
    → BleConnectionTracker
unfolding broadcast_to
broadcast_loop stack address packet [] t = t
broadcast_loop stack address packet (e ∷ rest) t =
    broadcast_loop stack address packet rest (broadcast_to stack address packet e t)

abbrev pub connections_exist : BleConnectionTracker → Bool
connections_exist t = any_of (λ e. is_available e.1) t.connections

-- The loop over the broadcast packets, which ends after the first packet that had connections to go
-- to. Without connections the inner loop does nothing for any packet.
unfoldable pub broadcast_first :
    BluetoothStack → (PacketRef → ℕ) → List PacketRef → BleConnectionTracker → BleConnectionTracker
unfolding broadcast_loop same_packet
broadcast_first stack address [] t = t
broadcast_first stack address (packet ∷ rest) t =
    let t' = broadcast_loop stack address packet t.connections t in
    if connections_exist t
    then record t' {
      broadcast_packets_to_send_list =
          keep_if (λ p. not (same_packet p packet)) t'.broadcast_packets_to_send_list;
    }
    else t

-- The part of `sendPackets` on broadcast packets.
unfoldable pub send_broadcast :
    BluetoothStack → (PacketRef → ℕ) → BleConnectionTracker → BleConnectionTracker
unfolding broadcast_first
send_broadcast stack address t = broadcast_first stack address t.broadcast_packets_to_send_list t

-- `sendPackets`
unfoldable pub send_packets :
    BluetoothStack → (PacketRef → ℕ) → BleConnectionTracker → Bool × BleConnectionTracker
unfolding send_all_targeted send_broadcast
send_packets stack address t =
    if have_packets_to_send t
    then (true, send_broadcast stack address (send_all_targeted stack address t))
    else (false, t)

-- `writeRawPacket`: its first `if`, with what is handed to the stack, success or a connection that is
-- gone being the stack's answer.
unfoldable pub write_first :
    (HandedOver → Bool) → ℕ → BleConnectionTracker → Option HandedOver × BleConnectionTracker
unfolding lower_bound erase_lower_bound at_or_new
write_first gatt_client_write handle t = elim (lower_bound handle t.raw_packet_to_write) [
  | none ↦ (none, t)
  | some found ↦
      let (c, connections) = at_or_new handle new_connection t.connections in
      let t' = record t { connections = connections } in
      let rest = erase_lower_bound handle t.raw_packet_to_write in
      let call : HandedOver = record {
        con_handle = handle;
        value_handle = c.packet_characteristic_value_handle;
        packet_data = found.1;
      } in
      (some call, if gatt_client_write call then record t' { raw_packet_to_write = rest } else t')
]

-- The second `if` of `writeRawPacket`, whose `setHasData` is called on a copy.
unfoldable pub write_again : ℕ → BleConnectionTracker → Bool × BleConnectionTracker
unfolding lower_bound at_or_new
write_again handle t = elim (lower_bound handle t.raw_packet_to_write) [
  | none ↦ (false, record t { connections = (at_or_new handle new_connection t.connections).1 })
  | some found ↦ (true, t)
]

unfoldable pub write_raw_packet :
    (HandedOver → Bool)
    → ℕ
    → BleConnectionTracker
    → Option HandedOver × (Bool × BleConnectionTracker)
unfolding write_first write_again
write_raw_packet gatt_client_write handle t =
    let (sent, t') = write_first gatt_client_write handle t in (sent, write_again handle t')

-- `reversed` of `getAnyDuplicateHandle`: the latest handle of a peer before this entry, 0 if none.
abbrev pub reversed_at : ℕ → Map ℕ ℕ → ℕ
reversed_at peer [] = 0
reversed_at peer ((p, handle) ∷ rest) = if p == peer then handle else reversed_at peer rest

-- The loop of `getAnyDuplicateHandle`, with the connections that `connections[...]` makes.
unfoldable pub duplicate_loop : Map ℕ ℕ → Map ℕ ℕ → Map ℕ BleConnection → ℕ × Map ℕ BleConnection
unfolding at_or_new
duplicate_loop [] reversed connections = (0, connections)
duplicate_loop ((handle, peer) ∷ rest) reversed connections =
    let earlier = reversed_at peer reversed in
    let (c, connections') = at_or_new earlier new_connection connections in
    let (d, connections'') = at_or_new handle new_connection connections' in
    let on = duplicate_loop rest ((peer, handle) ∷ reversed) connections in
    if earlier == 0
    then on
    else (if ltb c.last_seen_time d.last_seen_time then earlier else handle, connections'')

-- `getAnyDuplicateHandle`
unfoldable pub get_any_duplicate_handle : BleConnectionTracker → ℕ × BleConnectionTracker
unfolding duplicate_loop
get_any_duplicate_handle t =
    let (handle, connections) = duplicate_loop t.handle_peer_map [] t.connections in
    (handle, record t { connections = connections })
