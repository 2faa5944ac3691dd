-- ===== src/BleConnectionTracker/RawPackets.antt =====
-- The queue of `notifyRawPacket` in src/BLEPacket/BleConnectionTracker.cpp: packets as bytes, by the handle
-- of the connection that they are for. The queue is a std::multimap, a list in the order of its keys.
-- The answer of the Bluetooth stack, success or a connection that is gone, is an argument.
use ble_smoke_detector.Common.{
  ℕ, ◌≤◌, ◌<◌, ◌≡◌, refl, ◌==◌, arith, Bool, true, false, Option, none, some, List, [], ◌∷◌, ltb,
  ltb-eq_false, ==_iff, ap, if◌then◌else◌, All, Bool-cases, inl, inr,
}
use ble_smoke_detector.Common.Map.{number_key, lookup, at_or_new}
use ble_smoke_detector.BleConnection.{new_connection}
use ble_smoke_detector.BleConnectionTracker.{BleConnectionTracker}

-- The arguments of `att_server_notify` and `gatt_client_write_value_of_characteristic_without_response`.
pub record HandedOver : Type 0 where
  pub con_handle : ℕ
  pub value_handle : ℕ
  pub packet_data : List ℕ

-- `equal_range(handle).first`: the first entry whose key is not less, if there is one.
unfoldable pub lower_bound : ℕ → List (ℕ × List ℕ) → Option (ℕ × List ℕ)
lower_bound handle [] = none
lower_bound handle ((key, packet) ∷ rest) =
    if ltb key handle then lower_bound handle rest else some (key, packet)

-- `erase(equal_range(handle).first)`
unfoldable pub erase_lower_bound : ℕ → List (ℕ × List ℕ) → List (ℕ × List ℕ)
erase_lower_bound handle [] = []
erase_lower_bound handle ((key, packet) ∷ rest) =
    let later = erase_lower_bound handle rest in
    if ltb key handle then (key, packet) ∷ later else rest

-- The first `if`: what is handed to the stack, and the tracker.
unfoldable pub notify_first :
    (HandedOver → Bool) → ℕ → BleConnectionTracker → Option HandedOver × BleConnectionTracker
unfolding lower_bound erase_lower_bound at_or_new
notify_first att_server_notify handle t = elim (lower_bound handle t.raw_packet_to_notify) [
  | none ↦ (none, t)
  | some found ↦
      let (c, connections) = at_or_new handle new_connection t.connections in
      let t' = record t { connections = connections } in
      let call : HandedOver = record {
        con_handle = handle;
        value_handle = c.packet_characteristic_value_handle;
        packet_data = found.1;
      } in
      (
        some call,
        if att_server_notify call
            then record t' {
              raw_packet_to_notify = erase_lower_bound handle t.raw_packet_to_notify;
            }
            else t',
      )
]

-- The second `if`: whether another turn is asked for. `setHasData` is called on a copy.
unfoldable pub notify_again : ℕ → BleConnectionTracker → Bool × BleConnectionTracker
unfolding lower_bound at_or_new
notify_again handle t = elim (lower_bound handle t.raw_packet_to_notify) [
  | none ↦ (false, record t { connections = (at_or_new handle new_connection t.connections).1 })
  | some found ↦ (true, t)
]

-- `notifyRawPacket`
unfoldable pub notify_raw_packet :
    (HandedOver → Bool)
    → ℕ
    → BleConnectionTracker
    → Option HandedOver × (Bool × BleConnectionTracker)
unfolding notify_first notify_again
notify_raw_packet att_server_notify handle t =
    let (sent, t') = notify_first att_server_notify handle t in (sent, notify_again handle t')

-- The keys of a std::multimap are in order.
abbrev pub IsSorted : List (ℕ × List ℕ) → Type 0
IsSorted [] = Unit {0}
IsSorted ((key, packet) ∷ rest) = All (λ (e : ℕ × List ℕ). key ≤ e.0) rest × IsSorted rest

lookup-above :
    (handle key : ℕ) (q : List (ℕ × List ℕ))
    → handle < key
    → All (λ (e : ℕ × List ℕ). key ≤ e.0) q
    → lookup handle q ≡ none
unfolding lookup
lookup-above handle key [] above all = refl
lookup-above handle key ((k, p) ∷ rest) above (at, all) =
    let miss : (k == handle) ≡ false = ground arith in
    rw miss (lookup-above handle key rest above all)

lower_bound-lookup :
    (handle : ℕ) (q : List (ℕ × List ℕ)) (packet : List ℕ)
    → IsSorted q
    → lookup handle q ≡ some packet
    → lower_bound handle q ≡ some (handle, packet)
unfolding lower_bound lookup
lower_bound-lookup handle [] packet sorted e = absurd cc
lower_bound-lookup handle ((k, p) ∷ rest) packet (all, sorted) e = elim (Bool-cases (k == handle)) [
  | inl hit ↦
      let same : k ≡ handle = (==_iff k handle).0 hit in
      let below : ltb k handle ≡ false = ground arith in
      let here : some p ≡ some packet = rw hit at e in
      rw below (
        rw same
          (ap (λ (o : Option (List ℕ)). elim o [ none ↦ none | some x ↦ some (handle, x) ]) here))
  | inr miss ↦
      let later : lookup handle rest ≡ some packet = rw miss at e in
      elim (Bool-cases (ltb k handle)) [
        | inl below ↦ rw below (lower_bound-lookup handle rest packet sorted later)
        | inr not_below ↦
            let above : handle < k = ground arith in
            let gone = lookup-above handle k rest above all in absurd cc
      ]
]

-- The call that hands a packet over to the connection with a handle.
abbrev pub handed_over : ℕ → List ℕ → BleConnectionTracker → HandedOver
handed_over handle packet t =
    let c = (at_or_new handle new_connection t.connections).0 in
    record {
      con_handle = handle;
      value_handle = c.packet_characteristic_value_handle;
      packet_data = packet;
    }

-- What the first `if` hands over is the lower bound's packet, whatever the stack answers.
notify_first-sent :
    (att_server_notify : HandedOver → Bool) (handle key : ℕ) (packet : List ℕ)
    (t : BleConnectionTracker)
    → lower_bound handle t.raw_packet_to_notify ≡ some (key, packet)
    → (notify_first att_server_notify handle t).0 ≡ some (handed_over handle packet t)
unfolding notify_first
notify_first-sent att_server_notify handle key packet t e = rw (e, notify_first) refl

-- Where the queue, in the order of its keys, holds packets for a handle, the first of them is handed to the
-- stack, for the connection with the handle and its characteristic, whatever the stack answers.
pub notify_raw_packet-own :
    (att_server_notify : HandedOver → Bool) (handle : ℕ) (packet : List ℕ)
    (t : BleConnectionTracker)
    → IsSorted t.raw_packet_to_notify
    → lookup handle t.raw_packet_to_notify ≡ some packet
    → (notify_raw_packet att_server_notify handle t).0 ≡ some (handed_over handle packet t)
unfolding notify_raw_packet
notify_raw_packet-own att_server_notify handle packet t sorted e =
    notify_first-sent att_server_notify handle handle packet t
      (lower_bound-lookup handle t.raw_packet_to_notify packet sorted e)

-- Where the queue starts behind a handle, so that it holds nothing for it, the packet for the later handle is
-- handed to the stack under this handle, with the characteristic of this handle's connection.
pub notify_raw_packet-other :
    (att_server_notify : HandedOver → Bool) (handle key : ℕ) (packet : List ℕ)
    (rest : List (ℕ × List ℕ)) (t : BleConnectionTracker)
    → t.raw_packet_to_notify ≡ (key, packet) ∷ rest
    → handle < key
    → (notify_raw_packet att_server_notify handle t).0 ≡ some (handed_over handle packet t)
unfolding notify_raw_packet lower_bound
notify_raw_packet-other att_server_notify handle key packet rest t e later =
    let below : ltb key handle ≡ false = ltb-eq_false key handle (omega arith) in
    let bound : lower_bound handle t.raw_packet_to_notify ≡ some (key, packet) =
      rw e (rw below refl) in
    notify_first-sent att_server_notify handle key packet t bound
