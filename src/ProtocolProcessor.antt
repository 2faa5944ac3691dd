-- ===== src/ProtocolProcessor.antt =====
-- src/BLEPacket/ProtocolProcessor.h and ProtocolProcessor.cpp: what a node does with a packet that a
-- neighbour wrote. The hash of the library, the time since boot and the board's id are arguments.
-- The result is `none` only where the fuel of a packet's loop is used up.
pub mod Linked
pub mod Forwarding
pub mod Termination
use ble_smoke_detector.Common.{
  ℕ, ◌-◌, Bool, true, false, ◌||◌, Option, none, some, List, [], ◌∷◌, ◌==◌, ltb, leb, if◌then◌else◌,
}
use ble_smoke_detector.Common.Map.{number_key, lookup, insert, update}
use ble_smoke_detector.PacketTypes.{type_announce, type_message, type_micro_mesh_preferences}
use ble_smoke_detector.BinaryReader.{BinaryReader, start_at, read_uint8}
use ble_smoke_detector.Base.{Base, set_packet_ttl, set_sending_connection_handle}
use ble_smoke_detector.Peer.{Peer, new_peer, update_name, set_announce_ttl, set_connection_handle}
use ble_smoke_detector.Announce.{Announce, read_announce}
use ble_smoke_detector.Message.{Message, read_message}
use ble_smoke_detector.MicroMeshPreferences.{MicroMeshPreferences, read_preferences}
use ble_smoke_detector.BleConnection.{BleConnection}
use ble_smoke_detector.BleConnectionTracker.{BleConnectionTracker, PacketRef}
use ble_smoke_detector.BleConnectionTracker.Clock.{possibly_update_time_offset}
use ble_smoke_detector.BleConnectionTracker.Packets.{
  base_of, set_base, check_sender_in_peers, store_message_and_return_if_new,
  store_announce_and_return_if_new, enqueue_broadcast_packet_from, set_connection_handle_for_peer,
  update_preferences,
}

-- A method called through the `Peer *` of `checkSenderInPeers`; the entry is there.
unfoldable pub at_peer : ℕ → (Peer → Peer) → BleConnectionTracker → BleConnectionTracker
unfolding update
at_peer sender f t = record t { peers = update sender new_peer f t.peers }

-- The peer's best ttl so far; `announceTtl >= maxTtl` moves the route to this connection.
unfoldable pub prefer_route : ℕ → ℕ → ℕ → BleConnectionTracker → BleConnectionTracker
unfolding at_peer lookup insert
prefer_route sender ttl handle t = elim (lookup sender t.peers) [
  | none ↦ t
  | some peer ↦
      if leb peer.max_ttl ttl
      then set_connection_handle_for_peer handle sender (at_peer sender (set_announce_ttl ttl) t)
      else t
]

-- `updateOrStorePeerNameFromAnnouncement`
unfoldable pub update_or_store_peer_name_from_announcement :
    Announce → ℕ → BleConnectionTracker → BleConnectionTracker
unfolding check_sender_in_peers at_peer prefer_route
update_or_store_peer_name_from_announcement announce handle t =
    let sender = announce.base.packet_sender_id in
    prefer_route sender announce.base.packet_ttl handle (
      at_peer sender (λ p. update_name announce.name (set_connection_handle handle p))
        (check_sender_in_peers sender t))

-- `if (newTtl > 0)`: the stored packet goes on with one hop less. The int `ttl - 1` is positive where
-- the ttl is over 1.
unfoldable pub forward_stored : PacketRef → BleConnectionTracker → BleConnectionTracker
unfolding base_of set_base check_sender_in_peers enqueue_broadcast_packet_from
forward_stored packet t = elim (base_of t packet) [
  | none ↦ t
  | some b ↦
      if ltb 1 b.packet_ttl
      then enqueue_broadcast_packet_from packet b.packet_sender_id (
          check_sender_in_peers b.packet_sender_id
            (set_base packet (set_packet_ttl (b.packet_ttl - 1)) t))
      else t
]

-- `if (const auto stored = …)`
unfoldable pub forward_if_new : Option PacketRef × BleConnectionTracker → BleConnectionTracker
unfolding forward_stored
forward_if_new (none, t) = t
forward_if_new (some packet, t) = forward_stored packet t

-- `case type_message`
unfoldable pub process_message : ℕ → Message → BleConnectionTracker → BleConnectionTracker
unfolding store_message_and_return_if_new forward_if_new
process_message handle message t = forward_if_new (
    store_message_and_return_if_new
      (record message { base = set_sending_connection_handle handle message.base }) t)

-- `case type_announce`
unfoldable pub process_announce :
    (List ℕ → ℕ) → ℕ → ℕ → Announce → BleConnectionTracker → BleConnectionTracker
unfolding update_or_store_peer_name_from_announcement possibly_update_time_offset
    store_announce_and_return_if_new forward_if_new
process_announce hash time_us handle announce t =
    let sent = record announce { base = set_sending_connection_handle handle announce.base } in
    let known = update_or_store_peer_name_from_announcement sent handle t in
    forward_if_new (
      store_announce_and_return_if_new hash sent
        (possibly_update_time_offset time_us sent.base.packet_timestamp_ms known))

-- The tracker after a packet, and the preferences to save.
abbrev pub Outcome : Type 0
Outcome = Option MicroMeshPreferences × BleConnectionTracker

unfoldable pub announce_outcome :
    (List ℕ → ℕ) → ℕ → ℕ → BleConnectionTracker → Option (Announce × BinaryReader) → Option Outcome
unfolding process_announce
announce_outcome hash time_us handle t none = none
announce_outcome hash time_us handle t (some (announce, r)) =
    some (none, process_announce hash time_us handle announce t)

unfoldable pub message_outcome :
    ℕ → BleConnectionTracker → Option (Message × BinaryReader) → Option Outcome
unfolding process_message
message_outcome handle t none = none
message_outcome handle t (some (message, r)) = some (none, process_message handle message t)

unfoldable pub preferences_outcome :
    ℕ → BleConnectionTracker → Option (MicroMeshPreferences × BinaryReader) → Option Outcome
unfolding update_preferences
preferences_outcome my_sender_id t none = none
preferences_outcome my_sender_id t (some (preferences, r)) =
    some (update_preferences my_sender_id preferences true t)

-- The `switch` of `processWrite`.
unfoldable pub dispatch :
    (List ℕ → ℕ)
    → ℕ
    → ℕ
    → BleConnection
    → ℕ
    → ℕ
    → BinaryReader
    → BleConnectionTracker
    → Option Outcome
unfolding announce_outcome message_outcome preferences_outcome read_announce read_message
    read_preferences
dispatch hash time_us my_sender_id connection version type r t =
    let handle = connection.connection_handle in
    if type == type_announce
    then announce_outcome hash time_us handle t (read_announce version r)
    else if type == type_message
    then message_outcome handle t (read_message version r)
    else if type == type_micro_mesh_preferences
    then preferences_outcome my_sender_id t (read_preferences version r)
    else some (none, t)

-- `processWrite`
unfoldable pub process_write :
    (List ℕ → ℕ) → ℕ → ℕ → BleConnection → ℕ → List ℕ → ℕ → BleConnectionTracker → Option Outcome
unfolding dispatch start_at read_uint8
process_write hash time_us my_sender_id connection offset buffer buffer_size t =
    let (version, r) = read_uint8 (start_at offset buffer buffer_size) in
    let (type, r') = read_uint8 r in
    if ltb version 1 || ltb 2 version
    then some (none, t)
    else dispatch hash time_us my_sender_id connection version type r' t
