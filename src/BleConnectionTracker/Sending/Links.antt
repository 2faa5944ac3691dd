-- ===== src/BleConnectionTracker/Sending/Links.antt =====
-- Sending, in src/BLEPacket/BleConnectionTracker.cpp, keeps the lists of packets linked.
use ble_smoke_detector.Common.{
  ℕ, ◌≡◌, refl, ◌==◌, true, ◌&&◌, not, some, List, [], ◌∷◌, ltb, length, All, All-append,
  All-keep_if, Option-cases, Bool-cases, inl, inr, any_of, keep_if,
}
use ble_smoke_detector.Common.Map.{Map, number_key, string_key, lookup, insert}
use ble_smoke_detector.Message.{write_message}
use ble_smoke_detector.Announce.{write_announce}
use ble_smoke_detector.BleConnection.{BleConnection, set_has_data, hci_role_slave}
use ble_smoke_detector.BleConnectionTracker.{
  BleConnectionTracker, PacketRef, message_at, announce_at, own_announce, same_packet,
}
use ble_smoke_detector.BleConnectionTracker.Packets.{have_packets_to_send}
use ble_smoke_detector.BleConnectionTracker.Connections.{is_available}
use ble_smoke_detector.BleConnectionTracker.Linked.{
  Points, Connected, PointsBoth, IsLinked, Keeps, Keeps-same, Keeps-trans, Keeps-grow,
  lookup-insert-some, All-map,
}
use ble_smoke_detector.BleConnectionTracker.Linked.Stores.{
  Keeps-lists, Keeps-insert_message, Keeps-insert_announce,
}
use ble_smoke_detector.BleConnectionTracker.Linked.Links.{Keeps-connections, Points-same}
use ble_smoke_detector.BleConnectionTracker.Sending.{
  BluetoothStack, write_ref, came_from, queue_raw, send_packet_to_connection, mark_sent,
  put_in_order, in_order, packet_needed, send_targeted, targeted_loop, send_all_targeted,
  found_sent, broadcast_to, broadcast_loop, connections_exist, broadcast_first, send_broadcast,
  send_packets, emplace,
}

pub Keeps-write_ref :
    (packet : PacketRef) (t : BleConnectionTracker) → Keeps t (write_ref packet t).1
unfolding write_ref
Keeps-write_ref (message_at id) t = elim (Option-cases (lookup id t.messages)) [
  | inl e ↦ rw (e, write_ref) (Keeps-same t)
  | inr (m, e) ↦ rw (e, write_ref) (Keeps-insert_message id (write_message m []).1 t)
]
Keeps-write_ref (announce_at id) t = elim (Option-cases (lookup id t.announces)) [
  | inl e ↦ rw (e, write_ref) (Keeps-same t)
  | inr (a, e) ↦ rw (e, write_ref) (Keeps-insert_announce id (write_announce a []).1 t)
]
Keeps-write_ref own_announce t =
    Keeps-lists t (write_ref own_announce t).1 refl refl refl refl refl refl refl

module _ (stack : BluetoothStack) where
  Keeps-queue_raw :
      (connection : ℕ) (c : BleConnection) (bytes : List ℕ) (t : BleConnectionTracker)
      → Keeps t (queue_raw stack connection c bytes t).1
  unfolding queue_raw
  Keeps-queue_raw connection c bytes t =
      let t' = record t { connections = insert connection (set_has_data true c) t.connections } in
      let queued : Keeps t t' =
        Keeps-connections _ t.available_neighbours t
          (λ k h. lookup-insert-some k connection (set_has_data true c) t.connections h) in
      elim (Bool-cases (c.role == hci_role_slave)) [
        | inl e ↦ rw e (
            Keeps-trans t t'
              (record t' {
                raw_packet_to_notify = emplace c.connection_handle bytes t'.raw_packet_to_notify;
              })
              queued (Keeps-lists t' _ refl refl refl refl refl refl refl))
        | inr e ↦ rw e (
            Keeps-trans t t'
              (record t' {
                raw_packet_to_write = emplace c.connection_handle bytes t'.raw_packet_to_write;
              })
              queued (Keeps-lists t' _ refl refl refl refl refl refl refl))
      ]

  pub Keeps-send_packet_to_connection :
      (packet : PacketRef) (connection : ℕ) (t : BleConnectionTracker)
      → Keeps t (send_packet_to_connection stack packet connection t).1
  unfolding send_packet_to_connection
  Keeps-send_packet_to_connection packet connection t =
      elim (Option-cases (lookup connection t.connections)) [
        | inl e ↦ rw (e, send_packet_to_connection) (Keeps-same t)
        | inr (c, e) ↦
            rw (e, send_packet_to_connection)
              (elim (Bool-cases (came_from t packet c.connection_handle)) [
                | inl back ↦ rw back (Keeps-same t)
                | inr new ↦ rw new (
                    let (bytes, t') = write_ref packet t in
                    let measured = Keeps-write_ref packet t in
                    elim (Bool-cases (ltb 0 c.bt_mtu && ltb c.bt_mtu (length bytes))) [
                      | inl long ↦ rw long measured
                      | inr fits ↦ rw fits (
                          Keeps-trans t t' (queue_raw stack connection c bytes t').1 measured
                            (Keeps-queue_raw connection c bytes t'))
                    ])
              ])
      ]

Keeps-mark_sent :
    (packet : PacketRef) (connection : ℕ) (t : BleConnectionTracker)
    → PointsBoth t (packet, connection)
    → Keeps t (mark_sent packet connection t)
Keeps-mark_sent packet connection t there =
    let t' = mark_sent packet connection t in
    Keeps-grow t t' (λ p. Points-same t t' p refl refl) (λ k h. h)
      (λ h.
        All-append (PointsBoth t') t.packets_connections_sent_list ((packet, connection) ∷ []) h
          ((Points-same t t' packet refl refl there.0, there.1), tt))
      (λ h. h) (λ h. h) (λ h. h)

-- A packet is sent and marked as sent.
Keeps-send_and_mark :
    (stack : BluetoothStack) (packet : PacketRef) (connection : ℕ) (t : BleConnectionTracker)
    → PointsBoth t (packet, connection)
    → Keeps t (mark_sent packet connection (send_packet_to_connection stack packet connection t).1)
Keeps-send_and_mark stack packet connection t there =
    let t' = (send_packet_to_connection stack packet connection t).1 in
    let sent = Keeps-send_packet_to_connection stack packet connection t in
    Keeps-trans t t' (mark_sent packet connection t') sent (
      Keeps-mark_sent packet connection t'
        (sent.points packet there.0, sent.connected connection there.1))

All-put_in_order :
    (P : PacketRef × ℕ → Type 0) (address : PacketRef → ℕ) (e : PacketRef × ℕ)
    (es : List (PacketRef × ℕ))
    → P e
    → All P es
    → All P (put_in_order address e es)
unfolding put_in_order
All-put_in_order P address e [] here all = (here, tt)
All-put_in_order P address e (f ∷ rest) here (first, all) =
    elim (Bool-cases (ltb (address f.0) (address e.0))) [
      | inl later ↦ rw later (first, All-put_in_order P address e rest here all)
      | inr now ↦ rw now (here, (first, all))
    ]

All-in_order :
    (P : PacketRef × ℕ → Type 0) (address : PacketRef → ℕ) (es : List (PacketRef × ℕ))
    → All P es
    → All P (in_order address es)
unfolding in_order
All-in_order P address [] all = tt
All-in_order P address (e ∷ es) (here, all) =
    All-put_in_order P address e (in_order address es) here (All-in_order P address es all)

Keeps-send_targeted :
    (stack : BluetoothStack) (e : PacketRef × ℕ) (to_remove : List PacketRef)
    (t : BleConnectionTracker)
    → PointsBoth t e
    → Keeps t (send_targeted stack e (to_remove, t)).1
unfolding send_targeted
Keeps-send_targeted stack (packet, connection) to_remove t there =
    elim (Bool-cases (packet_needed t (packet, connection))) [
      | inl needed ↦
          rw needed (elim (Bool-cases (send_packet_to_connection stack packet connection t).0) [
            | inl ok ↦ rw ok (Keeps-send_and_mark stack packet connection t there)
            | inr busy ↦ rw busy (Keeps-send_packet_to_connection stack packet connection t)
          ])
      | inr done ↦ rw done (Keeps-same t)
    ]

Keeps-targeted_loop :
    (stack : BluetoothStack) (es : List (PacketRef × ℕ)) (to_remove : List PacketRef)
    (t : BleConnectionTracker)
    → All (PointsBoth t) es
    → Keeps t (targeted_loop stack es (to_remove, t)).1
unfolding targeted_loop
Keeps-targeted_loop stack [] to_remove t all = Keeps-same t
Keeps-targeted_loop stack (e ∷ es) to_remove t (here, all) =
    let (more, t') = send_targeted stack e (to_remove, t) in
    let sent = Keeps-send_targeted stack e to_remove t here in
    let later =
      All-map (PointsBoth t) (PointsBoth t') es
        (λ f h. (sent.points f.0 h.0, sent.connected f.1 h.1)) all in
    Keeps-trans t t' (targeted_loop stack es (more, t')).1 sent
      (Keeps-targeted_loop stack es more t' later)

Keeps-send_all_targeted :
    (stack : BluetoothStack) (address : PacketRef → ℕ) (t : BleConnectionTracker)
    → IsLinked t
    → Keeps t (send_all_targeted stack address t)
unfolding send_all_targeted
Keeps-send_all_targeted stack address t linked =
    let es = in_order address t.targeted_packets_to_send_list in
    let (to_remove, t') = targeted_loop stack es ([], t) in
    let t'' = send_all_targeted stack address t in
    let left = λ (e : PacketRef × ℕ). not (any_of (λ p. same_packet p e.0) to_remove) in
    Keeps-trans t t' t''
      (Keeps-targeted_loop stack es [] t
        (All-in_order (PointsBoth t) address t.targeted_packets_to_send_list linked.targeted))
      (Keeps-grow t' t'' (λ p. Points-same t' t'' p refl refl) (λ k h. h) (λ h. h) (λ h. h) (λ h. h)
        (λ h.
          All-keep_if (PointsBoth t'') (PointsBoth t'') left t'.targeted_packets_to_send_list
            (λ e kept p. p) h))

Keeps-broadcast_loop :
    (stack : BluetoothStack) (address : PacketRef → ℕ) (packet : PacketRef)
    (cs : Map ℕ BleConnection) (t : BleConnectionTracker)
    → Points t packet
    → All (λ e. Connected t e.0) cs
    → Keeps t (broadcast_loop stack address packet cs t)
unfolding broadcast_loop broadcast_to
Keeps-broadcast_loop stack address packet [] t there all = Keeps-same t
Keeps-broadcast_loop stack address packet ((key, c) ∷ cs) t there (here, all) =
    elim (Bool-cases (is_available c && not (found_sent address t packet c.connection_handle))) [
      | inl due ↦ rw due (
          let t' = mark_sent packet key (send_packet_to_connection stack packet key t).1 in
          let sent = Keeps-send_and_mark stack packet key t (there, here) in
          let later =
            All-map (λ (e : ℕ × BleConnection). Connected t e.0) (λ e. Connected t' e.0) cs
              (λ e. sent.connected e.0) all in
          Keeps-trans t t' (broadcast_loop stack address packet cs t') sent
            (Keeps-broadcast_loop stack address packet cs t' (sent.points packet there) later))
      | inr done ↦ rw done (Keeps-broadcast_loop stack address packet cs t there all)
    ]

-- Each key of a map is there.
keys_there : (m : Map ℕ BleConnection) → All (λ e. (c : BleConnection) × (lookup e.0 m ≡ some c)) m
unfolding lookup
keys_there [] = tt
keys_there ((k, c) ∷ m) = (
  (c, rw (number_key.same_refl k) refl),
  All-map (λ (e : ℕ × BleConnection). (c : BleConnection) × (lookup e.0 m ≡ some c))
      (λ e. (d : BleConnection) × (lookup e.0 ((k, c) ∷ m) ≡ some d)) m
      (λ e h. elim (Bool-cases (k == e.0)) [
        | inl hit ↦ (c, rw hit refl)
        | inr miss ↦ (h.0, rw miss h.1)
      ])
      (keys_there m),
)

Keeps-broadcast_first :
    (stack : BluetoothStack) (address : PacketRef → ℕ) (queue : List PacketRef)
    (t : BleConnectionTracker)
    → All (Points t) queue
    → Keeps t (broadcast_first stack address queue t)
unfolding broadcast_first
Keeps-broadcast_first stack address [] t all = Keeps-same t
Keeps-broadcast_first stack address (packet ∷ rest) t (there, all) =
    let t' = broadcast_loop stack address packet t.connections t in
    let left = λ (p : PacketRef). not (same_packet p packet) in
    let t'' = record t' {
      broadcast_packets_to_send_list = keep_if left t'.broadcast_packets_to_send_list;
    } in
    elim (Bool-cases (connections_exist t)) [
      | inl some_there ↦ rw some_there (
          Keeps-trans t t' t''
            (Keeps-broadcast_loop stack address packet t.connections t there
              (keys_there t.connections))
            (Keeps-grow t' t'' (λ p. Points-same t' t'' p refl refl) (λ k h. h) (λ h. h) (λ h. h)
              (λ h.
                All-keep_if (Points t'') (Points t'') left t'.broadcast_packets_to_send_list
                  (λ p kept q. q) h)
              (λ h. h)))
      | inr none_there ↦ rw none_there (Keeps-same t)
    ]

Keeps-send_broadcast :
    (stack : BluetoothStack) (address : PacketRef → ℕ) (t : BleConnectionTracker)
    → IsLinked t
    → Keeps t (send_broadcast stack address t)
unfolding send_broadcast
Keeps-send_broadcast stack address t linked =
    Keeps-broadcast_first stack address t.broadcast_packets_to_send_list t linked.broadcast

pub Keeps-send_packets :
    (stack : BluetoothStack) (address : PacketRef → ℕ) (t : BleConnectionTracker)
    → IsLinked t
    → Keeps t (send_packets stack address t).1
unfolding send_packets
Keeps-send_packets stack address t linked = elim (Bool-cases (have_packets_to_send t)) [
  | inl some_left ↦
      let t' = send_all_targeted stack address t in
      let targeted = Keeps-send_all_targeted stack address t linked in
      rw some_left (
        Keeps-trans t t' (send_broadcast stack address t') targeted
          (Keeps-send_broadcast stack address t' (targeted.linked linked)))
  | inr none_left ↦ rw none_left (Keeps-same t)
]
