-- ===== src/BleConnectionTracker/Packets.antt =====
-- The stores of peers, messages and announcements of src/BLEPacket/BleConnectionTracker.cpp, and the
-- lists of packets to send.
pub mod Guards
use ble_smoke_detector.Common.{
  ℕ, ◌+◌, ◌%◌, ◌^◌, ◌≡◌, refl, ◌==◌, Bool, true, false, ◌&&◌, ◌||◌, not, Option, none, some, List,
  [], ◌∷◌, ◌++◌, ltb, if◌then◌else◌, is_empty, bytes_eq, arith,
}
use ble_smoke_detector.Common.Map.{
  Map, Key, number_key, string_key, lookup, insert, at_or_new, update, lookup-insert_self,
}
use ble_smoke_detector.Base.{Base}
use ble_smoke_detector.Peer.{Peer, new_peer, set_id}
use ble_smoke_detector.Message.{Message}
use ble_smoke_detector.Announce.{Announce, get_announce_hash}
use ble_smoke_detector.MicroMeshPreferences.{MicroMeshPreferences, same_preferences}
use ble_smoke_detector.BleConnection.{BleConnection, new_connection, set_connection_handle}
use ble_smoke_detector.BleConnectionTracker.{
  BleConnectionTracker, PacketRef, message_at, announce_at, own_announce, same_packet,
}

-- `*packet`; `none` is a pointer whose packet is gone.
unfoldable pub base_of : BleConnectionTracker → PacketRef → Option Base
unfolding lookup
base_of t (message_at id) = elim (lookup id t.messages) [ none ↦ none | some m ↦ some m.base ]
base_of t (announce_at id) = elim (lookup id t.announces) [ none ↦ none | some a ↦ some a.base ]
base_of t own_announce = some t.announce.base

-- A setter called through the pointer.
unfoldable pub set_base : PacketRef → (Base → Base) → BleConnectionTracker → BleConnectionTracker
unfolding lookup insert
set_base (message_at id) f t = elim (lookup id t.messages) [
  | none ↦ t
  | some m ↦ record t { messages = insert id (record m { base = f m.base }) t.messages }
]
set_base (announce_at id) f t = elim (lookup id t.announces) [
  | none ↦ t
  | some a ↦ record t { announces = insert id (record a { base = f a.base }) t.announces }
]
set_base own_announce f t = record t { announce = record t.announce { base = f t.announce.base } }

-- `connectionForConnHandle`: the pointer is the handle.
unfoldable pub connection_for_conn_handle : ℕ → BleConnectionTracker → BleConnectionTracker
unfolding lookup update
connection_for_conn_handle handle t = elim (lookup handle t.connections) [
  | some c ↦ t
  | none ↦ record t {
    connections = update handle new_connection (set_connection_handle handle) t.connections;
  }
]

-- `storeMessageAndReturnIfNew`
unfoldable pub store_message_and_return_if_new :
    Message → BleConnectionTracker → Option PacketRef × BleConnectionTracker
unfolding lookup insert
store_message_and_return_if_new message t =
    if message.base.malformed then (none, t) else elim (lookup message.message_id t.messages) [
      | some m ↦ (none, t)
      | none ↦ (
        some (message_at message.message_id),
        record t { messages = insert message.message_id message t.messages },
      )
    ]

-- The body of the outer `if`. `found` is a pointer into the map, so its name is read after the write.
unfoldable pub replace_announce :
    ℕ → Announce → Bool → BleConnectionTracker → Option PacketRef × BleConnectionTracker
unfolding lookup insert bytes_eq
replace_announce id ann found t =
    let announces = insert id ann t.announces in
    let renamed : Bool = elim (lookup id announces) [
      | none ↦ true
      | some a ↦ not (bytes_eq a.name ann.name)
    ] in
    (
      if not found || renamed then some (announce_at id) else none,
      record t { announces = announces },
    )

-- `storeAnnounceAndReturnIfNew`, with the library's hash.
unfoldable pub store_announce_and_return_if_new :
    (List ℕ → ℕ) → Announce → BleConnectionTracker → Option PacketRef × BleConnectionTracker
unfolding replace_announce
store_announce_and_return_if_new hash ann t =
    let id = get_announce_hash hash ann in
    if ann.base.malformed then (none, t) else elim (lookup id t.announces) [
      | none ↦ replace_announce id ann false t
      | some found ↦
          if ltb found.base.packet_timestamp_ms ann.base.packet_timestamp_ms
          then replace_announce id ann true t
          else (none, t)
    ]

-- `messageWithId`, `peerWithId`
abbrev pub message_with_id : List ℕ → BleConnectionTracker → Option Message
message_with_id id t = lookup id t.messages

abbrev pub peer_with_id : ℕ → BleConnectionTracker → Option Peer
peer_with_id id t = lookup id t.peers

-- `checkSenderInPeers`: the pointer is the sender's id.
unfoldable pub check_sender_in_peers : ℕ → BleConnectionTracker → BleConnectionTracker
unfolding lookup update
check_sender_in_peers sender t = elim (lookup sender t.peers) [
  | some p ↦ t
  | none ↦ record t { peers = update sender new_peer (set_id sender) t.peers }
]

-- `packet->getPacketTtl() > 0`
unfoldable pub is_alive : BleConnectionTracker → PacketRef → Bool
unfolding base_of
is_alive t packet = elim (base_of t packet) [ none ↦ false | some b ↦ ltb 0 b.packet_ttl ]

unfoldable pub is_listed : PacketRef → ℕ → List (PacketRef × ℕ) → Bool
unfolding same_packet
is_listed packet handle [] = false
is_listed packet handle ((p, h) ∷ rest) =
    (same_packet p packet && (h == handle)) || is_listed packet handle rest

-- `enqueueTargetedPacket` for the connection with this handle.
unfoldable pub enqueue_targeted_packet : PacketRef → ℕ → BleConnectionTracker → BleConnectionTracker
unfolding is_alive connection_for_conn_handle is_listed
enqueue_targeted_packet packet handle t =
    if is_alive t packet
    then (let t' = connection_for_conn_handle handle t in
        if is_listed packet handle t'.targeted_packets_to_send_list then t' else record t' {
          targeted_packets_to_send_list =
              t'.targeted_packets_to_send_list ++ ((packet, handle) ∷ []);
        })
    else t

-- `enqueueBroadcastPacket(packet)`
unfoldable pub enqueue_broadcast_packet : PacketRef → BleConnectionTracker → BleConnectionTracker
unfolding is_alive
enqueue_broadcast_packet packet t =
    if is_alive t packet
    then record t {
      broadcast_packets_to_send_list = t.broadcast_packets_to_send_list ++ (packet ∷ []);
    }
    else t

-- `enqueueBroadcastPacket(packet, from_connection, from_peer)`; the connection is not used.
unfoldable pub enqueue_broadcast_packet_from :
    PacketRef → ℕ → BleConnectionTracker → BleConnectionTracker
unfolding enqueue_broadcast_packet
enqueue_broadcast_packet_from packet from_peer t =
    enqueue_broadcast_packet packet (record t {
      packets_peers_sent_list = t.packets_peers_sent_list ++ ((packet, from_peer) ∷ []);
    })

abbrev pub have_packets_to_send : BleConnectionTracker → Bool
have_packets_to_send t =
    not (is_empty t.broadcast_packets_to_send_list && is_empty t.targeted_packets_to_send_list)

-- `setConnectionHandleForPeer`
abbrev pub set_connection_handle_for_peer : ℕ → ℕ → BleConnectionTracker → BleConnectionTracker
set_connection_handle_for_peer con_handle peer t = record t {
  handle_peer_map = insert con_handle peer t.handle_peer_map;
}

abbrev pub peer_with_connection_handle : ℕ → BleConnectionTracker → Option ℕ
peer_with_connection_handle con_handle t = lookup con_handle t.handle_peer_map

-- `updatePreferences`: the result's first part is what is handed to `savePreferencesToFlash`.
unfoldable pub update_preferences :
    ℕ
    → MicroMeshPreferences
    → Bool
    → BleConnectionTracker
    → Option MicroMeshPreferences × BleConnectionTracker
unfolding same_preferences bytes_eq
update_preferences my_sender_id preferences save t =
    if not (preferences.base.packet_recipient_id == my_sender_id)
    then (none, t)
    else if not (is_empty t.prefs.key) && not (bytes_eq t.prefs.key preferences.key)
    then (none, t)
    else if same_preferences t.prefs preferences && save
    then (none, t)
    else (if save then some preferences else none, record t { prefs = preferences })
