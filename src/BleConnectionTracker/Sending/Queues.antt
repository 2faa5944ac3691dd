-- ===== src/BleConnectionTracker/Sending/Queues.antt =====
-- The queues of raw packets and the search for a duplicate handle, in
-- src/BLEPacket/BleConnectionTracker.cpp, keep the lists of packets linked.
use ble_smoke_detector.Common.{
  ℕ, ◌≡◌, refl, ◌==◌, Bool, some, [], ◌∷◌, Option-cases, Bool-cases, inl, inr,
}
use ble_smoke_detector.Common.Map.{Map, number_key, string_key, lookup, at_or_new}
use ble_smoke_detector.BleConnection.{BleConnection, new_connection}
use ble_smoke_detector.BleConnectionTracker.{BleConnectionTracker}
use ble_smoke_detector.BleConnectionTracker.RawPackets.{
  HandedOver, handed_over, lower_bound, erase_lower_bound, notify_first, notify_again,
  notify_raw_packet,
}
use ble_smoke_detector.BleConnectionTracker.Linked.{
  Keeps, Keeps-same, Keeps-trans, lookup-at_or_new-some,
}
use ble_smoke_detector.BleConnectionTracker.Linked.Stores.{Keeps-lists}
use ble_smoke_detector.BleConnectionTracker.Linked.Links.{Keeps-connections}
use ble_smoke_detector.BleConnectionTracker.Sending.{
  write_first, write_again, write_raw_packet, duplicate_loop, reversed_at, get_any_duplicate_handle,
}

Keeps-touched :
    (handle : ℕ) (t : BleConnectionTracker)
    → Keeps t (record t { connections = (at_or_new handle new_connection t.connections).1 })
Keeps-touched handle t =
    Keeps-connections _ t.available_neighbours t
      (λ k h. lookup-at_or_new-some k handle new_connection t.connections h)

Keeps-write_first :
    (gatt_client_write : HandedOver → Bool) (handle : ℕ) (t : BleConnectionTracker)
    → Keeps t (write_first gatt_client_write handle t).1
unfolding write_first
Keeps-write_first gatt_client_write handle t =
    elim (Option-cases (lower_bound handle t.raw_packet_to_write)) [
      | inl e ↦ rw (e, write_first) (Keeps-same t)
      | inr (found, e) ↦
          let (c, connections) = at_or_new handle new_connection t.connections in
          let t' = record t { connections = connections } in
          rw (e, write_first)
            (elim (Bool-cases (gatt_client_write (handed_over handle found.1 t))) [
              | inl done ↦ rw done (
                  Keeps-trans t t'
                    (record t' {
                      raw_packet_to_write = erase_lower_bound handle t.raw_packet_to_write;
                    })
                    (Keeps-touched handle t) (Keeps-lists t' _ refl refl refl refl refl refl refl))
              | inr busy ↦ rw busy (Keeps-touched handle t)
            ])
    ]

Keeps-write_again : (handle : ℕ) (t : BleConnectionTracker) → Keeps t (write_again handle t).1
unfolding write_again
Keeps-write_again handle t = elim (Option-cases (lower_bound handle t.raw_packet_to_write)) [
  | inl e ↦ rw (e, write_again) (Keeps-touched handle t)
  | inr (found, e) ↦ rw (e, write_again) (Keeps-same t)
]

Keeps-notify_first :
    (att_server_notify : HandedOver → Bool) (handle : ℕ) (t : BleConnectionTracker)
    → Keeps t (notify_first att_server_notify handle t).1
unfolding notify_first
Keeps-notify_first att_server_notify handle t =
    elim (Option-cases (lower_bound handle t.raw_packet_to_notify)) [
      | inl e ↦ rw (e, notify_first) (Keeps-same t)
      | inr (found, e) ↦
          let (c, connections) = at_or_new handle new_connection t.connections in
          let t' = record t { connections = connections } in
          rw (e, notify_first)
            (elim (Bool-cases (att_server_notify (handed_over handle found.1 t))) [
              | inl done ↦ rw done (
                  Keeps-trans t t'
                    (record t' {
                      raw_packet_to_notify = erase_lower_bound handle t.raw_packet_to_notify;
                    })
                    (Keeps-touched handle t) (Keeps-lists t' _ refl refl refl refl refl refl refl))
              | inr busy ↦ rw busy (Keeps-touched handle t)
            ])
    ]

Keeps-notify_again : (handle : ℕ) (t : BleConnectionTracker) → Keeps t (notify_again handle t).1
unfolding notify_again
Keeps-notify_again handle t = elim (Option-cases (lower_bound handle t.raw_packet_to_notify)) [
  | inl e ↦ rw (e, notify_again) (Keeps-touched handle t)
  | inr (found, e) ↦ rw (e, notify_again) (Keeps-same t)
]

pub Keeps-write_raw_packet :
    (gatt_client_write : HandedOver → Bool) (handle : ℕ) (t : BleConnectionTracker)
    → Keeps t (write_raw_packet gatt_client_write handle t).1.1
unfolding write_raw_packet
Keeps-write_raw_packet gatt_client_write handle t =
    let t' = (write_first gatt_client_write handle t).1 in
    Keeps-trans t t' (write_again handle t').1 (Keeps-write_first gatt_client_write handle t)
      (Keeps-write_again handle t')

pub Keeps-notify_raw_packet :
    (att_server_notify : HandedOver → Bool) (handle : ℕ) (t : BleConnectionTracker)
    → Keeps t (notify_raw_packet att_server_notify handle t).1.1
unfolding notify_raw_packet
Keeps-notify_raw_packet att_server_notify handle t =
    let t' = (notify_first att_server_notify handle t).1 in
    Keeps-trans t t' (notify_again handle t').1 (Keeps-notify_first att_server_notify handle t)
      (Keeps-notify_again handle t')

duplicate_loop-there :
    (handles reversed : Map ℕ ℕ) (m : Map ℕ BleConnection) (k : ℕ)
    → (c : BleConnection) × (lookup k m ≡ some c)
    → (c : BleConnection) × (lookup k (duplicate_loop handles reversed m).1 ≡ some c)
unfolding duplicate_loop
duplicate_loop-there [] reversed m k h = h
duplicate_loop-there ((handle, peer) ∷ rest) reversed m k h =
    let earlier = reversed_at peer reversed in
    elim (Bool-cases (earlier == 0)) [
      | inl first ↦ rw first (duplicate_loop-there rest ((peer, handle) ∷ reversed) m k h)
      | inr again ↦ rw again (
          lookup-at_or_new-some k handle new_connection (at_or_new earlier new_connection m).1
            (lookup-at_or_new-some k earlier new_connection m h))
    ]

pub Keeps-get_any_duplicate_handle :
    (t : BleConnectionTracker) → Keeps t (get_any_duplicate_handle t).1
unfolding get_any_duplicate_handle
Keeps-get_any_duplicate_handle t =
    Keeps-connections (duplicate_loop t.handle_peer_map [] t.connections).1 t.available_neighbours t
      (duplicate_loop-there t.handle_peer_map [] t.connections)
