-- ===== src/BleConnectionTracker/Sending/Progress.antt =====
-- How the queue of broadcast packets of src/BLEPacket/BleConnectionTracker.cpp shrinks as it is sent.
use ble_smoke_detector.Common.{
  ℕ, zero, suc, ◌≤◌, ◌≡◌, refl, sym, ap, ◌∙◌, arith, ◌==◌, Bool, true, false, ◌&&◌, not, Option,
  none, some, List, [], ◌∷◌, ltb, length, keep_if, is_empty, Option-cases, Bool-cases, inl, inr,
  any_of, bytes_eq_refl, ==_iff, List-cases,
}
use ble_smoke_detector.Common.Map.{Map, number_key, string_key, lookup, insert}
use ble_smoke_detector.BleConnection.{BleConnection, set_has_data, hci_role_slave}
use ble_smoke_detector.BleConnectionTracker.{
  BleConnectionTracker, PacketRef, message_at, announce_at, own_announce, same_packet,
}
use ble_smoke_detector.BleConnectionTracker.Packets.{have_packets_to_send}
use ble_smoke_detector.BleConnectionTracker.Connections.{is_available}
use ble_smoke_detector.BleConnectionTracker.Sending.{
  BluetoothStack, write_ref, came_from, queue_raw, send_packet_to_connection, mark_sent, in_order,
  packet_needed, send_targeted, targeted_loop, send_all_targeted, found_sent, broadcast_to,
  broadcast_loop, connections_exist, broadcast_first, send_broadcast, send_packets,
}

-- What sending a packet leaves: the queue of broadcasts, and that there are connections to send to.
record Leaves (t t' : BleConnectionTracker) : Type 0 where
  queue : t'.broadcast_packets_to_send_list ≡ t.broadcast_packets_to_send_list
  available : connections_exist t ≡ true → connections_exist t' ≡ true

Leaves-same : (t : BleConnectionTracker) → Leaves t t
Leaves-same t = record { queue = refl; available = λ h. h }

Leaves-trans : (t t' t'' : BleConnectionTracker) → Leaves t t' → Leaves t' t'' → Leaves t t''
Leaves-trans t t' t'' j k = record {
  queue = k.queue ∙ j.queue;
  available = λ h. k.available (j.available h);
}

-- An entry of a map that is overwritten by one which passes a test as well as it did.
any_of-insert :
    {V : Type 0} (P : V → Bool) (k : ℕ) (c v : V) (m : Map ℕ V)
    → lookup k m ≡ some c
    → P v ≡ P c
    → any_of (λ e. P e.1) m ≡ true
    → any_of (λ e. P e.1) (insert k v m) ≡ true
unfolding lookup insert
any_of-insert P k c v [] e same h = absurd cc
any_of-insert P k c v ((j, d) ∷ m) e same h = elim (Bool-cases (j == k)) [
  | inl hit ↦
      let here : some d ≡ some c = rw hit at e in
      let alike : P d ≡ P c = ap (λ (o : Option _). elim o [ none ↦ true | some x ↦ P x ]) here in
      rw hit (rw (same ∙ sym alike) h)
  | inr miss ↦
      let later : lookup k m ≡ some c = rw miss at e in
      rw miss (elim (Bool-cases (ltb k j)) [
        | inl before ↦
            rw before (elim (Bool-cases (P v)) [ inl up ↦ rw up refl | inr down ↦ rw down h ])
        | inr behind ↦ rw behind (elim (Bool-cases (P d)) [
          | inl up ↦ rw up refl
          | inr down ↦
              let rest : any_of (λ e. P e.1) m ≡ true = rw down at h in
              rw down (any_of-insert P k c v m later same rest)
        ])
      ])
]

Leaves-write_ref : (packet : PacketRef) (t : BleConnectionTracker) → Leaves t (write_ref packet t).1
unfolding write_ref
Leaves-write_ref (message_at id) t = elim (Option-cases (lookup id t.messages)) [
  | inl e ↦ rw (e, write_ref) (Leaves-same t)
  | inr (m, e) ↦ rw (e, write_ref) (record { queue = refl; available = λ h. h })
]
Leaves-write_ref (announce_at id) t = elim (Option-cases (lookup id t.announces)) [
  | inl e ↦ rw (e, write_ref) (Leaves-same t)
  | inr (a, e) ↦ rw (e, write_ref) (record { queue = refl; available = λ h. h })
]
Leaves-write_ref own_announce t = record { queue = refl; available = λ h. h }

write_ref-connections :
    (packet : PacketRef) (t : BleConnectionTracker)
    → (write_ref packet t).1.connections ≡ t.connections
unfolding write_ref
write_ref-connections (message_at id) t = elim (Option-cases (lookup id t.messages)) [
  | inl e ↦ rw (e, write_ref) refl
  | inr (m, e) ↦ rw (e, write_ref) refl
]
write_ref-connections (announce_at id) t = elim (Option-cases (lookup id t.announces)) [
  | inl e ↦ rw (e, write_ref) refl
  | inr (a, e) ↦ rw (e, write_ref) refl
]
write_ref-connections own_announce t = refl

module _ (stack : BluetoothStack) where
  Leaves-queue_raw :
      (connection : ℕ) (c : BleConnection) (bytes : List ℕ) (t : BleConnectionTracker)
      → lookup connection t.connections ≡ some c
      → Leaves t (queue_raw stack connection c bytes t).1
  unfolding queue_raw
  Leaves-queue_raw connection c bytes t e =
      let keeps =
        any_of-insert is_available connection c (set_has_data true c) t.connections e refl in
      elim (Bool-cases (c.role == hci_role_slave)) [
        | inl slave ↦ rw slave (record { queue = refl; available = keeps })
        | inr master ↦ rw master (record { queue = refl; available = keeps })
      ]

  Leaves-send_packet_to_connection :
      (packet : PacketRef) (connection : ℕ) (t : BleConnectionTracker)
      → Leaves t (send_packet_to_connection stack packet connection t).1
  unfolding send_packet_to_connection
  Leaves-send_packet_to_connection packet connection t =
      elim (Option-cases (lookup connection t.connections)) [
        | inl e ↦ rw (e, send_packet_to_connection) (Leaves-same t)
        | inr (c, e) ↦
            rw (e, send_packet_to_connection)
              (elim (Bool-cases (came_from t packet c.connection_handle)) [
                | inl back ↦ rw back (Leaves-same t)
                | inr new ↦ rw new (
                    let (bytes, t') = write_ref packet t in
                    let measured = Leaves-write_ref packet t in
                    let there : lookup connection t'.connections ≡ some c =
                      ap (lookup connection) (write_ref-connections packet t) ∙ e in
                    elim (Bool-cases (ltb 0 c.bt_mtu && ltb c.bt_mtu (length bytes))) [
                      | inl long ↦ rw long measured
                      | inr fits ↦ rw fits (
                          Leaves-trans t t' (queue_raw stack connection c bytes t').1 measured
                            (Leaves-queue_raw connection c bytes t' there))
                    ])
              ])
      ]

  Leaves-send_and_mark :
      (packet : PacketRef) (connection : ℕ) (t : BleConnectionTracker)
      → Leaves t
          (mark_sent packet connection (send_packet_to_connection stack packet connection t).1)
  Leaves-send_and_mark packet connection t =
      let sent = Leaves-send_packet_to_connection packet connection t in
      record { queue = sent.queue; available = sent.available }

  Leaves-send_targeted :
      (e : PacketRef × ℕ) (to_remove : List PacketRef) (t : BleConnectionTracker)
      → Leaves t (send_targeted stack e (to_remove, t)).1
  unfolding send_targeted
  Leaves-send_targeted (packet, connection) to_remove t =
      elim (Bool-cases (packet_needed t (packet, connection))) [
        | inl needed ↦
            rw needed (elim (Bool-cases (send_packet_to_connection stack packet connection t).0) [
              | inl ok ↦ rw ok (Leaves-send_and_mark packet connection t)
              | inr busy ↦ rw busy (Leaves-send_packet_to_connection packet connection t)
            ])
        | inr done ↦ rw done (Leaves-same t)
      ]

  Leaves-targeted_loop :
      (es : List (PacketRef × ℕ)) (to_remove : List PacketRef) (t : BleConnectionTracker)
      → Leaves t (targeted_loop stack es (to_remove, t)).1
  unfolding targeted_loop
  Leaves-targeted_loop [] to_remove t = Leaves-same t
  Leaves-targeted_loop (e ∷ es) to_remove t =
      let (more, t') = send_targeted stack e (to_remove, t) in
      Leaves-trans t t' (targeted_loop stack es (more, t')).1 (Leaves-send_targeted e to_remove t)
        (Leaves-targeted_loop es more t')

  Leaves-send_all_targeted :
      (address : PacketRef → ℕ) (t : BleConnectionTracker)
      → Leaves t (send_all_targeted stack address t)
  unfolding send_all_targeted
  Leaves-send_all_targeted address t =
      let sent = Leaves-targeted_loop (in_order address t.targeted_packets_to_send_list) [] t in
      record { queue = sent.queue; available = sent.available }

  Leaves-broadcast_loop :
      (address : PacketRef → ℕ) (packet : PacketRef) (cs : Map ℕ BleConnection)
      (t : BleConnectionTracker)
      → Leaves t (broadcast_loop stack address packet cs t)
  unfolding broadcast_loop broadcast_to
  Leaves-broadcast_loop address packet [] t = Leaves-same t
  Leaves-broadcast_loop address packet ((key, c) ∷ cs) t =
      elim (Bool-cases (is_available c && not (found_sent address t packet c.connection_handle))) [
        | inl due ↦ rw due (
            let t' = mark_sent packet key (send_packet_to_connection stack packet key t).1 in
            Leaves-trans t t' (broadcast_loop stack address packet cs t')
              (Leaves-send_and_mark packet key t) (Leaves-broadcast_loop address packet cs t'))
        | inr done ↦ rw done (Leaves-broadcast_loop address packet cs t)
      ]

-- The queue without its first packet.
abbrev pub without_first : List PacketRef → List PacketRef
without_first [] = []
without_first (packet ∷ rest) = keep_if (λ p. not (same_packet p packet)) (packet ∷ rest)

length-keep_if : (p : PacketRef → Bool) (xs : List PacketRef) → length (keep_if p xs) ≤ length xs
unfolding keep_if
length-keep_if p [] = omega arith
length-keep_if p (x ∷ xs) = elim (Bool-cases (p x)) [
  | inl e ↦ rw e (omega (arith, length-keep_if p xs))
  | inr e ↦ rw e (omega (arith, length-keep_if p xs))
]

same_packet_refl : (p : PacketRef) → same_packet p p ≡ true
unfolding same_packet
same_packet_refl (message_at id) = bytes_eq_refl id
same_packet_refl (announce_at id) = (==_iff id id).1 refl
same_packet_refl own_announce = refl

length-without_first :
    (n : ℕ) (queue : List PacketRef) → length queue ≤ suc n → length (without_first queue) ≤ n
unfolding keep_if
length-without_first n [] h = omega arith
length-without_first n (p ∷ rest) h =
    let gone : not (same_packet p p) ≡ false = ap not (same_packet_refl p) in
    rw gone (omega (arith, length-keep_if (λ q. not (same_packet q p)) rest))

broadcast_first-queue :
    (stack : BluetoothStack) (address : PacketRef → ℕ) (queue : List PacketRef)
    (t : BleConnectionTracker)
    → t.broadcast_packets_to_send_list ≡ queue
    → connections_exist t ≡ true
    → (broadcast_first stack address queue t).broadcast_packets_to_send_list ≡ without_first queue
unfolding broadcast_first
broadcast_first-queue stack address [] t e some_there = e
broadcast_first-queue stack address (packet ∷ rest) t e some_there =
    let sent = Leaves-broadcast_loop stack address packet t.connections t in
    rw some_there (ap (keep_if (λ p. not (same_packet p packet))) (sent.queue ∙ e))

broadcast_first-available :
    (stack : BluetoothStack) (address : PacketRef → ℕ) (queue : List PacketRef)
    (t : BleConnectionTracker)
    → connections_exist t ≡ true
    → connections_exist (broadcast_first stack address queue t) ≡ true
unfolding broadcast_first
broadcast_first-available stack address [] t some_there = some_there
broadcast_first-available stack address (packet ∷ rest) t some_there =
    let sent = Leaves-broadcast_loop stack address packet t.connections t in
    rw some_there (sent.available some_there)

idle-queue :
    (queue : List PacketRef) (targeted : List (PacketRef × ℕ))
    → not (is_empty queue && is_empty targeted) ≡ false
    → queue ≡ without_first queue
idle-queue [] targeted e = refl
idle-queue (p ∷ rest) targeted e = absurd cc

-- While a connection is available, a turn of `sendPackets` takes the first packet off the queue of
-- broadcasts, with all its copies, and leaves the others in their order, whatever the stack answers and
-- however long the packet is; and a connection stays available.
pub send_packets-queue :
    (stack : BluetoothStack) (address : PacketRef → ℕ) (t : BleConnectionTracker)
    → connections_exist t ≡ true
    → ((send_packets stack address t).1.broadcast_packets_to_send_list
        ≡ without_first t.broadcast_packets_to_send_list)
      × (connections_exist (send_packets stack address t).1 ≡ true)
unfolding send_packets send_broadcast
send_packets-queue stack address t some_there = elim (Bool-cases (have_packets_to_send t)) [
  | inl some_left ↦
      let t' = send_all_targeted stack address t in
      let queue = t.broadcast_packets_to_send_list in
      let targeted = Leaves-send_all_targeted stack address t in
      let there = targeted.available some_there in
      rw some_left (
        broadcast_first-queue stack address t'.broadcast_packets_to_send_list t' refl there
            ∙ ap without_first targeted.queue,
        broadcast_first-available stack address t'.broadcast_packets_to_send_list t' there,
      )
  | inr none_left ↦ rw none_left (
    idle-queue t.broadcast_packets_to_send_list t.targeted_packets_to_send_list none_left,
    some_there,
  )
]

-- The loop of the program, which sends turn after turn.
unfoldable pub send_turns :
    ℕ → BluetoothStack → (PacketRef → ℕ) → BleConnectionTracker → BleConnectionTracker
unfolding send_packets
send_turns zero stack address t = t
send_turns (suc n) stack address t = send_turns n stack address (send_packets stack address t).1

-- Where a connection is available, the queue of broadcasts is empty after as many turns of `sendPackets`
-- as it has packets, whatever the stack answers.
pub send_turns-empties :
    (n : ℕ) (stack : BluetoothStack) (address : PacketRef → ℕ) (t : BleConnectionTracker)
    → connections_exist t ≡ true
    → length t.broadcast_packets_to_send_list ≤ n
    → (send_turns n stack address t).broadcast_packets_to_send_list ≡ []
unfolding send_turns
send_turns-empties zero stack address t some_there h =
    elim (List-cases t.broadcast_packets_to_send_list) [
      | inl e ↦ e
      | inr (p, (rest, e)) ↦ let long = ap length e in absurd (omega arith)
    ]
send_turns-empties (suc n) stack address t some_there h =
    let t' = (send_packets stack address t).1 in
    let (queue, there) = send_packets-queue stack address t some_there in
    let many = ap length queue in
    let fewer = length-without_first n t.broadcast_packets_to_send_list h in
    send_turns-empties n stack address t' there (omega arith)
