-- ===== src/ProtocolProcessor/Forwarding.antt =====
-- `case type_message` of `processWrite` in src/BLEPacket/ProtocolProcessor.cpp: which messages a node
-- forwards, and with what time to live.
use ble_smoke_detector.Common.{
  ℕ, ◌-◌, ◌%◌, ◌≤◌, ◌<◌, ◌≡◌, refl, ap, ◌∙◌, true, false, none, some, List, [], ◌∷◌, ◌++◌, ltb,
  lt→ltb, ltb-eq_false, Option-cases, Bool-cases, inl, inr, arith, bytes_eq,
}
use ble_smoke_detector.Common.Map.{
  string_key, number_key, lookup, insert, lookup-insert_self, lookup-insert_ne,
}
use ble_smoke_detector.Base.{Base, set_packet_ttl, set_sending_connection_handle}
use ble_smoke_detector.Message.{Message}
use ble_smoke_detector.BleConnectionTracker.{BleConnectionTracker, PacketRef, message_at}
use ble_smoke_detector.BleConnectionTracker.Packets.{
  base_of, set_base, check_sender_in_peers, is_alive, store_message_and_return_if_new,
  enqueue_broadcast_packet, enqueue_broadcast_packet_from,
}
use ble_smoke_detector.BleConnectionTracker.Linked.{Points, Keeps-same}
use ble_smoke_detector.ProtocolProcessor.{forward_stored, forward_if_new, process_message}
use ble_smoke_detector.ProtocolProcessor.Linked.{Keeps-forward_if_new}

-- The message as it is stored: it remembers the connection that it came over.
abbrev pub arrived : ℕ → Message → Message
arrived handle m = record m { base = set_sending_connection_handle handle m.base }

Points-store :
    (m : Message) (t : BleConnectionTracker)
    → m.base.malformed ≡ false
    → Points (store_message_and_return_if_new m t).1 (message_at m.message_id)
unfolding store_message_and_return_if_new
Points-store m t ok = rw ok (elim (Option-cases (lookup m.message_id t.messages)) [
  | inl e ↦ rw e (m, lookup-insert_self m.message_id m t.messages)
  | inr (found, e) ↦ rw e (found, e)
])

process_message-known :
    (handle : ℕ) (m : Message) (t : BleConnectionTracker)
    → Points t (message_at m.message_id)
    → process_message handle m t ≡ t
unfolding process_message store_message_and_return_if_new forward_if_new
process_message-known handle m t (found, e) = elim (Bool-cases m.base.malformed) [
  | inl bad ↦ rw bad refl
  | inr ok ↦ rw ok (rw e refl)
]

Points-process_message :
    (handle : ℕ) (m : Message) (t : BleConnectionTracker)
    → m.base.malformed ≡ false
    → Points (process_message handle m t) (message_at m.message_id)
unfolding process_message
Points-process_message handle m t ok =
    let found = store_message_and_return_if_new (arrived handle m) t in
    (Keeps-forward_if_new found.1 found (Keeps-same found.1)).points (message_at m.message_id)
      (Points-store (arrived handle m) t ok)

-- A well-formed message that arrives again, in any other copy and over any connection, changes nothing: it is not
-- stored and not forwarded a second time.
pub process_message-again :
    (handle handle' : ℕ) (m m' : Message) (t : BleConnectionTracker)
    → m.base.malformed ≡ false
    → m'.message_id ≡ m.message_id
    → process_message handle' m' (process_message handle m t) ≡ process_message handle m t
process_message-again handle handle' m m' t ok copy =
    process_message-known handle' m' (process_message handle m t)
      (rw copy (Points-process_message handle m t ok))

stored : ℕ → Message → BleConnectionTracker → BleConnectionTracker
stored handle m t = record t { messages = insert m.message_id (arrived handle m) t.messages }

store-new :
    (m : Message) (t : BleConnectionTracker)
    → m.base.malformed ≡ false
    → lookup m.message_id t.messages ≡ none
    → store_message_and_return_if_new m t
      ≡ (some (message_at m.message_id), record t { messages = insert m.message_id m t.messages })
unfolding store_message_and_return_if_new
store-new m t ok new = simp (ok, new, store_message_and_return_if_new)

process_message-new :
    (handle : ℕ) (m : Message) (t : BleConnectionTracker)
    → m.base.malformed ≡ false
    → lookup m.message_id t.messages ≡ none
    → process_message handle m t ≡ forward_stored (message_at m.message_id) (stored handle m t)
unfolding process_message forward_if_new stored
process_message-new handle m t ok new = ap forward_if_new (store-new (arrived handle m) t ok new)

-- The message as it goes on.
abbrev pub hopped : ℕ → Message → Message
hopped handle m =
    let sent = arrived handle m in
    record sent { base = set_packet_ttl (m.base.packet_ttl - 1) sent.base }

-- The packet's header, while the store of messages has it.
base_of-message :
    (t : BleConnectionTracker) (id : List ℕ) (m : Message)
    → lookup id t.messages ≡ some m
    → base_of t (message_at id) ≡ some m.base
unfolding base_of
base_of-message t id m e = rw (e, base_of) refl

set_base-message :
    (t : BleConnectionTracker) (id : List ℕ) (m : Message) (f : Base → Base)
    → lookup id t.messages ≡ some m
    → set_base (message_at id) f t
      ≡ record t { messages = insert id (record m { base = f m.base }) t.messages }
unfolding set_base
set_base-message t id m f e = rw (e, set_base) refl

enqueue-messages :
    (packet : PacketRef) (peer : ℕ) (t : BleConnectionTracker)
    → (enqueue_broadcast_packet_from packet peer t).messages ≡ t.messages
unfolding enqueue_broadcast_packet_from enqueue_broadcast_packet
enqueue-messages packet peer t = ground arith

check_sender-messages :
    (sender : ℕ) (t : BleConnectionTracker) → (check_sender_in_peers sender t).messages ≡ t.messages
unfolding check_sender_in_peers
check_sender-messages sender t = ground arith

check_sender-broadcast :
    (sender : ℕ) (t : BleConnectionTracker)
    → (check_sender_in_peers sender t).broadcast_packets_to_send_list
      ≡ t.broadcast_packets_to_send_list
unfolding check_sender_in_peers
check_sender-broadcast sender t = ground arith

enqueue-broadcast :
    (id : List ℕ) (peer : ℕ) (m : Message) (t : BleConnectionTracker)
    → lookup id t.messages ≡ some m
    → ltb 0 m.base.packet_ttl ≡ true
    → (enqueue_broadcast_packet_from (message_at id) peer t).broadcast_packets_to_send_list
      ≡ t.broadcast_packets_to_send_list ++ (message_at id ∷ [])
unfolding enqueue_broadcast_packet_from enqueue_broadcast_packet is_alive
enqueue-broadcast id peer m t e alive =
    let t' = record t {
      packets_peers_sent_list = t.packets_peers_sent_list ++ ((message_at id, peer) ∷ []);
    } in
    rw
      (base_of-message t' id m e, enqueue_broadcast_packet_from, enqueue_broadcast_packet, is_alive)
      (rw alive refl)

hop :
    (id : List ℕ) (m : Message) (t : BleConnectionTracker)
    → lookup id t.messages ≡ some m
    → 1 < m.base.packet_ttl
    → forward_stored (message_at id) t
      ≡ enqueue_broadcast_packet_from (message_at id) m.base.packet_sender_id (
          check_sender_in_peers m.base.packet_sender_id (record t {
            messages =
                insert id
                  (record m { base = set_packet_ttl (m.base.packet_ttl - 1) m.base })
                  t.messages;
          }))
unfolding forward_stored
hop id m t e far =
    rw (base_of-message t id m e, forward_stored)
      (rw (lt→ltb 1 m.base.packet_ttl far)
        (rw (set_base-message t id m (set_packet_ttl (m.base.packet_ttl - 1)) e) refl))

no_hop :
    (id : List ℕ) (m : Message) (t : BleConnectionTracker)
    → lookup id t.messages ≡ some m
    → m.base.packet_ttl ≤ 1
    → forward_stored (message_at id) t ≡ t
unfolding forward_stored
no_hop id m t e last =
    rw (base_of-message t id m e, forward_stored) (rw (ltb-eq_false 1 m.base.packet_ttl last) refl)

module _ (handle : ℕ) (m : Message) (t : BleConnectionTracker) where
  stored_self : lookup m.message_id (stored handle m t).messages ≡ some (arrived handle m)
  unfolding stored
  stored_self = lookup-insert_self m.message_id (arrived handle m) t.messages

  stored-broadcast :
      (stored handle m t).broadcast_packets_to_send_list ≡ t.broadcast_packets_to_send_list
  unfolding stored
  stored-broadcast = refl

  stored-other :
      (j : List ℕ)
      → bytes_eq m.message_id j ≡ false
      → lookup j (stored handle m t).messages ≡ lookup j t.messages
  unfolding stored
  stored-other j other = lookup-insert_ne j m.message_id (arrived handle m) t.messages other

lookup-enqueued :
    (j : List ℕ) (packet : PacketRef) (peer sender : ℕ) (t : BleConnectionTracker)
    → lookup j (enqueue_broadcast_packet_from packet peer (check_sender_in_peers sender t)).messages
      ≡ lookup j t.messages
lookup-enqueued j packet peer sender t =
    ap (lookup j) (
      enqueue-messages packet peer (check_sender_in_peers sender t)
      ∙ check_sender-messages sender t)

-- The ttl after a hop is one less and not 0.
hop_ttl : (ttl : ℕ) → 1 < ttl → ttl < 256 → ltb 0 ((ttl - 1) % 256) ≡ true
hop_ttl ttl far byte = ground arith

-- A new, well-formed message with a time to live over 1 is stored with one hop less and queued once
-- for broadcast, behind all that was queued before; other stored messages stay as they are.
pub process_message-forwards :
    (handle : ℕ) (m : Message) (t : BleConnectionTracker) (j : List ℕ)
    → m.base.malformed ≡ false
    → lookup m.message_id t.messages ≡ none
    → 1 < m.base.packet_ttl
    → m.base.packet_ttl < 256
    → bytes_eq m.message_id j ≡ false
    → let t' = process_message handle m t in
      (lookup m.message_id t'.messages ≡ some (hopped handle m))
      × (t'.broadcast_packets_to_send_list
          ≡ t.broadcast_packets_to_send_list ++ (message_at m.message_id ∷ []))
      × (lookup j t'.messages ≡ lookup j t.messages)
process_message-forwards handle m t j ok new far byte other =
    let id = m.message_id in
    let sender = m.base.packet_sender_id in
    let t0 = stored handle m t in
    let at0 : lookup id t0.messages ≡ some (arrived handle m) = stored_self handle m t in
    let t1 = record t0 { messages = insert id (hopped handle m) t0.messages } in
    let at1 : lookup id t1.messages ≡ some (hopped handle m) =
      lookup-insert_self id (hopped handle m) t0.messages in
    let known = check_sender_in_peers sender t1 in
    let at2 : lookup id known.messages ≡ some (hopped handle m) =
      ap (lookup id) (check_sender-messages sender t1) ∙ at1 in
    rw (process_message-new handle m t ok new) (
      rw (hop id (arrived handle m) t0 at0 far) (
        lookup-enqueued id (message_at id) sender sender t1 ∙ at1,
        enqueue-broadcast id sender (hopped handle m) known at2 (hop_ttl m.base.packet_ttl far byte)
            ∙ ap (λ l. l ++ (message_at id ∷ []))
                (check_sender-broadcast sender t1 ∙ stored-broadcast handle m t),
        lookup-enqueued j (message_at id) sender sender t1
            ∙ lookup-insert_ne j id (hopped handle m) t0.messages other
            ∙ stored-other handle m t j other,
      ))

-- On its last hop a new, well-formed message is stored as it came, and nothing is queued.
pub process_message-last_hop :
    (handle : ℕ) (m : Message) (t : BleConnectionTracker)
    → m.base.malformed ≡ false
    → lookup m.message_id t.messages ≡ none
    → m.base.packet_ttl ≤ 1
    → let t' = process_message handle m t in
      (lookup m.message_id t'.messages ≡ some (arrived handle m))
      × (t'.broadcast_packets_to_send_list ≡ t.broadcast_packets_to_send_list)
process_message-last_hop handle m t ok new last =
    let t0 = stored handle m t in
    let at0 : lookup m.message_id t0.messages ≡ some (arrived handle m) = stored_self handle m t in
    rw (process_message-new handle m t ok new)
      (rw (no_hop m.message_id (arrived handle m) t0 at0 last) (at0, stored-broadcast handle m t))
