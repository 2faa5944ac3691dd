-- ===== src/BleConnectionTracker/Linked/Stores.antt =====
-- Storing and queueing packets in src/BLEPacket/BleConnectionTracker.cpp keeps the lists linked.
use ble_smoke_detector.Common.{
  ℕ, ◌≡◌, refl, Bool, true, false, none, some, List, [], ◌∷◌, ◌++◌, ltb, All-append, Option-cases,
  Bool-cases, inl, inr,
}
use ble_smoke_detector.Common.Map.{
  number_key, string_key, lookup, insert, update, lookup-update_self,
}
use ble_smoke_detector.Base.{Base}
use ble_smoke_detector.Message.{Message}
use ble_smoke_detector.Announce.{Announce, get_announce_hash}
use ble_smoke_detector.BleConnection.{new_connection, set_connection_handle}
use ble_smoke_detector.BleConnectionTracker.{
  BleConnectionTracker, PacketRef, message_at, announce_at, own_announce,
}
use ble_smoke_detector.BleConnectionTracker.Packets.{
  base_of, set_base, connection_for_conn_handle, store_message_and_return_if_new, replace_announce,
  store_announce_and_return_if_new, check_sender_in_peers, is_alive, is_listed,
  enqueue_targeted_packet, enqueue_broadcast_packet, enqueue_broadcast_packet_from,
}
use ble_smoke_detector.BleConnectionTracker.Linked.{
  Points, Connected, PointsBoth, Keeps, Keeps-same, Keeps-trans, Keeps-grow, lookup-insert-some,
  lookup-update-some,
}

-- Any change of the rest of the state.
pub Keeps-lists :
    (t t' : BleConnectionTracker)
    → t'.messages ≡ t.messages
    → t'.announces ≡ t.announces
    → t'.connections ≡ t.connections
    → t'.packets_connections_sent_list ≡ t.packets_connections_sent_list
    → t'.packets_peers_sent_list ≡ t.packets_peers_sent_list
    → t'.broadcast_packets_to_send_list ≡ t.broadcast_packets_to_send_list
    → t'.targeted_packets_to_send_list ≡ t.targeted_packets_to_send_list
    → Keeps t t'
Keeps-lists t t' messages announces connections sent peers_sent broadcast targeted =
    Keeps-grow t t'
      (λ packet. elim packet as (λ packet. Points t packet → Points t' packet) [
        | message_at j ↦ λ h. rw messages h
        | announce_at j ↦ λ h. rw announces h
        | own_announce ↦ λ h. h
      ])
      (λ handle h. rw connections h) (λ h. rw sent h) (λ h. rw peers_sent h) (λ h. rw broadcast h)
      (λ h. rw targeted h)

-- More messages, or the same with other contents.
pub Keeps-insert_message :
    (id : List ℕ) (m : Message) (t : BleConnectionTracker)
    → Keeps t (record t { messages = insert id m t.messages })
Keeps-insert_message id m t =
    let t' = record t { messages = insert id m t.messages } in
    Keeps-grow t t'
      (λ packet. elim packet as (λ packet. Points t packet → Points t' packet) [
        | message_at j ↦ λ h. lookup-insert-some j id m t.messages h
        | announce_at j ↦ λ h. h
        | own_announce ↦ λ h. h
      ])
      (λ handle h. h) (λ h. h) (λ h. h) (λ h. h) (λ h. h)

pub Keeps-insert_announce :
    (id : ℕ) (a : Announce) (t : BleConnectionTracker)
    → Keeps t (record t { announces = insert id a t.announces })
Keeps-insert_announce id a t =
    let t' = record t { announces = insert id a t.announces } in
    Keeps-grow t t'
      (λ packet. elim packet as (λ packet. Points t packet → Points t' packet) [
        | message_at j ↦ λ h. h
        | announce_at j ↦ λ h. lookup-insert-some j id a t.announces h
        | own_announce ↦ λ h. h
      ])
      (λ handle h. h) (λ h. h) (λ h. h) (λ h. h) (λ h. h)

-- Only the store of peers, the clock or the own packets change.
pub Keeps-set_base :
    (packet : PacketRef) (f : Base → Base) (t : BleConnectionTracker)
    → Keeps t (set_base packet f t)
unfolding set_base
Keeps-set_base (message_at id) f t = elim (Option-cases (lookup id t.messages)) [
  | inl e ↦ rw (e, set_base) (Keeps-same t)
  | inr (m, e) ↦ rw (e, set_base) (Keeps-insert_message id (record m { base = f m.base }) t)
]
Keeps-set_base (announce_at id) f t = elim (Option-cases (lookup id t.announces)) [
  | inl e ↦ rw (e, set_base) (Keeps-same t)
  | inr (a, e) ↦ rw (e, set_base) (Keeps-insert_announce id (record a { base = f a.base }) t)
]
Keeps-set_base own_announce f t =
    Keeps-lists t (set_base own_announce f t) refl refl refl refl refl refl refl

pub Keeps-check_sender_in_peers :
    (sender : ℕ) (t : BleConnectionTracker) → Keeps t (check_sender_in_peers sender t)
unfolding check_sender_in_peers
Keeps-check_sender_in_peers sender t = elim (Option-cases (lookup sender t.peers)) [
  | inl e ↦ rw (e, check_sender_in_peers) (Keeps-lists t _ refl refl refl refl refl refl refl)
  | inr (p, e) ↦ rw (e, check_sender_in_peers) (Keeps-same t)
]

pub Keeps-store_message_and_return_if_new :
    (m : Message) (t : BleConnectionTracker) → Keeps t (store_message_and_return_if_new m t).1
unfolding store_message_and_return_if_new
Keeps-store_message_and_return_if_new m t = elim (Bool-cases m.base.malformed) [
  | inl bad ↦ rw bad (Keeps-same t)
  | inr ok ↦ rw ok (elim (Option-cases (lookup m.message_id t.messages)) [
    | inl e ↦ rw (e, store_message_and_return_if_new) (Keeps-insert_message m.message_id m t)
    | inr (found, e) ↦ rw (e, store_message_and_return_if_new) (Keeps-same t)
  ])
]

pub Keeps-replace_announce :
    (id : ℕ) (a : Announce) (found : Bool) (t : BleConnectionTracker)
    → Keeps t (replace_announce id a found t).1
unfolding replace_announce
Keeps-replace_announce id a found t = Keeps-insert_announce id a t

pub Keeps-store_announce_and_return_if_new :
    (hash : List ℕ → ℕ) (a : Announce) (t : BleConnectionTracker)
    → Keeps t (store_announce_and_return_if_new hash a t).1
unfolding store_announce_and_return_if_new
Keeps-store_announce_and_return_if_new hash a t = elim (Bool-cases a.base.malformed) [
  | inl bad ↦ rw bad (Keeps-same t)
  | inr ok ↦ rw ok (elim (Option-cases (lookup (get_announce_hash hash a) t.announces)) [
    | inl e ↦
        rw (e, store_announce_and_return_if_new)
          (Keeps-replace_announce (get_announce_hash hash a) a false t)
    | inr (found, e) ↦
        rw (e, store_announce_and_return_if_new)
          (elim (Bool-cases (ltb found.base.packet_timestamp_ms a.base.packet_timestamp_ms)) [
            | inl newer ↦ rw newer (Keeps-replace_announce (get_announce_hash hash a) a true t)
            | inr older ↦ rw older (Keeps-same t)
          ])
  ])
]

pub Keeps-connection_for_conn_handle :
    (handle : ℕ) (t : BleConnectionTracker) → Keeps t (connection_for_conn_handle handle t)
unfolding connection_for_conn_handle
Keeps-connection_for_conn_handle handle t = elim (Option-cases (lookup handle t.connections)) [
  | inl e ↦
      rw (e, connection_for_conn_handle)
        (Keeps-grow t _
          (λ packet. elim packet [
            | message_at j ↦ λ h. h
            | announce_at j ↦ λ h. h
            | own_announce ↦ λ h. h
          ])
          (λ k h.
            lookup-update-some k handle new_connection (set_connection_handle handle) t.connections
              h)
          (λ h. h) (λ h. h) (λ h. h) (λ h. h))
  | inr (c, e) ↦ rw (e, connection_for_conn_handle) (Keeps-same t)
]

-- A packet that has a header is there.
pub Points-base_of :
    (t : BleConnectionTracker) (packet : PacketRef) (b : Base)
    → base_of t packet ≡ some b
    → Points t packet
unfolding base_of
Points-base_of t (message_at id) b e = elim (Option-cases (lookup id t.messages)) [
  | inl gone ↦ (let q : none ≡ some b = rw (gone, base_of) at e in absurd cc)
  | inr found ↦ found
]
Points-base_of t (announce_at id) b e = elim (Option-cases (lookup id t.announces)) [
  | inl gone ↦ (let q : none ≡ some b = rw (gone, base_of) at e in absurd cc)
  | inr found ↦ found
]
Points-base_of t own_announce b e = tt

is_alive-Points :
    (t : BleConnectionTracker) (packet : PacketRef) → is_alive t packet ≡ true → Points t packet
unfolding is_alive
is_alive-Points t packet alive = elim (Option-cases (base_of t packet)) [
  | inl gone ↦ (let q : false ≡ true = rw (gone, is_alive) at alive in absurd cc)
  | inr (b, e) ↦ Points-base_of t packet b e
]

-- A handle that was looked for is the key of a connection.
Connected-connection_for_conn_handle :
    (handle : ℕ) (t : BleConnectionTracker) → Connected (connection_for_conn_handle handle t) handle
unfolding connection_for_conn_handle update
Connected-connection_for_conn_handle handle t = elim (Option-cases (lookup handle t.connections)) [
  | inl e ↦
      rw (e, connection_for_conn_handle)
        (_, lookup-update_self handle new_connection (set_connection_handle handle) t.connections)
  | inr (c, e) ↦ rw (e, connection_for_conn_handle) (c, e)
]

Keeps-append_targeted :
    (packet : PacketRef) (handle : ℕ) (t : BleConnectionTracker)
    → Points t packet
    → Connected t handle
    → Keeps t (record t {
      targeted_packets_to_send_list = t.targeted_packets_to_send_list ++ ((packet, handle) ∷ []);
    })
Keeps-append_targeted packet handle t p c =
    let t' = record t {
      targeted_packets_to_send_list = t.targeted_packets_to_send_list ++ ((packet, handle) ∷ []);
    } in
    let points : (q : PacketRef) → Points t q → Points t' q = λ q.
      elim q as (λ q. Points t q → Points t' q) [
        | message_at j ↦ λ h. h
        | announce_at j ↦ λ h. h
        | own_announce ↦ λ h. h
      ] in
    Keeps-grow t t' points (λ k h. h) (λ h. h) (λ h. h) (λ h. h)
      (λ h.
        All-append (PointsBoth t') t.targeted_packets_to_send_list ((packet, handle) ∷ []) h
          ((points packet p, c), tt))

Keeps-append_broadcast :
    (packet : PacketRef) (t : BleConnectionTracker)
    → Points t packet
    → Keeps t (record t {
      broadcast_packets_to_send_list = t.broadcast_packets_to_send_list ++ (packet ∷ []);
    })
Keeps-append_broadcast packet t p =
    let t' = record t {
      broadcast_packets_to_send_list = t.broadcast_packets_to_send_list ++ (packet ∷ []);
    } in
    let points : (q : PacketRef) → Points t q → Points t' q = λ q.
      elim q as (λ q. Points t q → Points t' q) [
        | message_at j ↦ λ h. h
        | announce_at j ↦ λ h. h
        | own_announce ↦ λ h. h
      ] in
    Keeps-grow t t' points (λ k h. h) (λ h. h) (λ h. h)
      (λ h.
        All-append (Points t') t.broadcast_packets_to_send_list (packet ∷ []) h
          (points packet p, tt))
      (λ h. h)

Keeps-append_peers_sent :
    (packet : PacketRef) (peer : ℕ) (t : BleConnectionTracker)
    → Points t packet
    → Keeps t
        (record t { packets_peers_sent_list = t.packets_peers_sent_list ++ ((packet, peer) ∷ []) })
Keeps-append_peers_sent packet peer t p =
    let t' = record t {
      packets_peers_sent_list = t.packets_peers_sent_list ++ ((packet, peer) ∷ []);
    } in
    let points : (q : PacketRef) → Points t q → Points t' q = λ q.
      elim q as (λ q. Points t q → Points t' q) [
        | message_at j ↦ λ h. h
        | announce_at j ↦ λ h. h
        | own_announce ↦ λ h. h
      ] in
    Keeps-grow t t' points (λ k h. h) (λ h. h)
      (λ h.
        All-append (λ e. Points t' e.0) t.packets_peers_sent_list ((packet, peer) ∷ []) h
          (points packet p, tt))
      (λ h. h) (λ h. h)

pub Keeps-enqueue_targeted_packet :
    (packet : PacketRef) (handle : ℕ) (t : BleConnectionTracker)
    → Keeps t (enqueue_targeted_packet packet handle t)
unfolding enqueue_targeted_packet
Keeps-enqueue_targeted_packet packet handle t =
    let t' = connection_for_conn_handle handle t in
    let first = Keeps-connection_for_conn_handle handle t in
    elim (Bool-cases (is_alive t packet)) [
      | inr dead ↦ rw (dead, enqueue_targeted_packet) (Keeps-same t)
      | inl alive ↦
          rw (alive, enqueue_targeted_packet)
            (elim (Bool-cases (is_listed packet handle t'.targeted_packets_to_send_list)) [
              | inl listed ↦ rw listed first
              | inr new ↦ rw new (
                  Keeps-trans t t' _ first (
                    Keeps-append_targeted packet handle t'
                      (first.points packet (is_alive-Points t packet alive))
                      (Connected-connection_for_conn_handle handle t)))
            ])
    ]

pub Keeps-enqueue_broadcast_packet :
    (packet : PacketRef) (t : BleConnectionTracker) → Keeps t (enqueue_broadcast_packet packet t)
unfolding enqueue_broadcast_packet
Keeps-enqueue_broadcast_packet packet t = elim (Bool-cases (is_alive t packet)) [
  | inr dead ↦ rw (dead, enqueue_broadcast_packet) (Keeps-same t)
  | inl alive ↦
      rw (alive, enqueue_broadcast_packet)
        (Keeps-append_broadcast packet t (is_alive-Points t packet alive))
]

pub Keeps-enqueue_broadcast_packet_from :
    (packet : PacketRef) (from_peer : ℕ) (t : BleConnectionTracker)
    → Points t packet
    → Keeps t (enqueue_broadcast_packet_from packet from_peer t)
unfolding enqueue_broadcast_packet_from
Keeps-enqueue_broadcast_packet_from packet from_peer t p =
    Keeps-trans t _ _ (Keeps-append_peers_sent packet from_peer t p)
      (Keeps-enqueue_broadcast_packet packet _)
