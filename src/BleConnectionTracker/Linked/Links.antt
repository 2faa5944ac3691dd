-- ===== src/BleConnectionTracker/Linked/Links.antt =====
-- Coming and going of neighbours and connections in src/BLEPacket/BleConnectionTracker.cpp keeps the
-- lists of packets linked.
use ble_smoke_detector.Common.{
  ℕ, ◌≡◌, refl, ◌==◌, Bool, true, false, ◌&&◌, not, some, List, [], ◌∷◌, All-keep_if, map,
  Option-cases, Bool-cases, inl, inr,
}
use ble_smoke_detector.Common.Map.{Map, Key, number_key, string_key, lookup}
use ble_smoke_detector.BleConnection.{
  BleConnection, ServiceCheck, new_connection, set_connected, set_notification_enabled,
  set_timestamp, set_ble_address, set_connection_handle, set_role,
}
use ble_smoke_detector.BleConnectionTracker.{
  BleConnectionTracker, PacketRef, message_at, announce_at, own_announce,
}
use ble_smoke_detector.BleConnectionTracker.Clock.{we_have_the_time}
use ble_smoke_detector.BleConnectionTracker.Connections.{
  adopt_neighbour, report_connection, report_connection_with_role, report_disconnection,
  is_available, announced_to, announce_to, announce_loop, setup_announce_if_needed,
  announce_to_connections, add_available_peer, rssi_if_at, update_rssi_for_active_connections,
  report_connection_failure, set_connection_started,
}
use ble_smoke_detector.BleConnectionTracker.Linked.{
  Points, Connected, PointsBoth, Keeps, Keeps-same, Keeps-trans, Keeps-grow, lookup-insert-some,
  lookup-update-some,
}
use ble_smoke_detector.BleConnectionTracker.Linked.Stores.{
  Keeps-lists, Keeps-enqueue_targeted_packet,
}

pub Points-same :
    (t t' : BleConnectionTracker) (packet : PacketRef)
    → t'.messages ≡ t.messages
    → t'.announces ≡ t.announces
    → Points t packet
    → Points t' packet
Points-same t t' (message_at id) messages announces h = rw messages h
Points-same t t' (announce_at id) messages announces h = rw announces h
Points-same t t' own_announce messages announces h = tt

-- More connections, and any change of the neighbours.
pub Keeps-connections :
    (m : Map ℕ BleConnection) (n : Map (List ℕ) BleConnection) (t : BleConnectionTracker)
    → ((handle : ℕ) → Connected t handle → Connected (record t { connections = m }) handle)
    → Keeps t (record t { connections = m; available_neighbours = n })
Keeps-connections m n t more =
    let t' = record t { connections = m; available_neighbours = n } in
    Keeps-grow t t' (λ packet. Points-same t t' packet refl refl) more (λ h. h) (λ h. h) (λ h. h)
      (λ h. h)

Keeps-adopt_neighbour :
    (handle : ℕ) (address : List ℕ) (t : BleConnectionTracker)
    → Keeps t (adopt_neighbour handle address t)
unfolding adopt_neighbour
Keeps-adopt_neighbour handle address t =
    elim (Option-cases (lookup address t.available_neighbours)) [
      | inl e ↦ rw (e, adopt_neighbour) (Keeps-same t)
      | inr (c, e) ↦
          rw (e, adopt_neighbour)
            (Keeps-connections _ _ t (λ k h. lookup-insert-some k handle c t.connections h))
    ]

pub Keeps-report_connection :
    (time_us handle : ℕ) (address : List ℕ) (address_type : ℕ) (t : BleConnectionTracker)
    → Keeps t (report_connection time_us handle address address_type t)
unfolding report_connection
Keeps-report_connection time_us handle address address_type t =
    let t' = adopt_neighbour handle address t in
    let up = λ (c : BleConnection). set_timestamp time_us (
      set_ble_address address address_type (set_connected true (set_connection_handle handle c))) in
    Keeps-trans t t' _ (Keeps-adopt_neighbour handle address t) (
      Keeps-connections _ _ t'
        (λ k h. lookup-update-some k handle new_connection up t'.connections h))

pub Keeps-report_connection_with_role :
    (time_us handle : ℕ) (address : List ℕ) (address_type role : ℕ) (t : BleConnectionTracker)
    → Keeps t (report_connection_with_role time_us handle address address_type role t)
unfolding report_connection_with_role
Keeps-report_connection_with_role time_us handle address address_type role t =
    let t' = report_connection time_us handle address address_type t in
    Keeps-trans t t' _ (Keeps-report_connection time_us handle address address_type t) (
      Keeps-connections _ t'.available_neighbours t'
        (λ k h. lookup-update-some k handle new_connection (set_role role) t'.connections h))

-- Entries of the lists go, none comes.
pub Keeps-report_disconnection :
    (handle : ℕ) (t : BleConnectionTracker) → Keeps t (report_disconnection handle t)
unfolding report_disconnection
Keeps-report_disconnection handle t =
    let t' = report_disconnection handle t in
    Keeps-grow t t' (λ packet. Points-same t t' packet refl refl)
      (λ k h.
        lookup-update-some k handle new_connection
          (λ c. set_connected false (set_notification_enabled false c)) t.connections h)
      (λ h.
        All-keep_if (PointsBoth t') (PointsBoth t') _ t.packets_connections_sent_list
          (λ e kept p. p) h)
      (λ h. h) (λ h. h)
      (λ h.
        All-keep_if (PointsBoth t') (PointsBoth t') _ t.targeted_packets_to_send_list
          (λ e kept p. p) h)

Keeps-announce_to :
    (time_us handle : ℕ) (t : BleConnectionTracker) → Keeps t (announce_to time_us handle t)
unfolding announce_to
Keeps-announce_to time_us handle t =
    Keeps-trans t _ _ (Keeps-lists t _ refl refl refl refl refl refl refl)
      (Keeps-enqueue_targeted_packet own_announce handle _)

Keeps-announce_loop :
    (time_us : ℕ) (cs : Map ℕ BleConnection) (t : BleConnectionTracker)
    → Keeps t (announce_loop time_us cs t)
unfolding announce_loop
Keeps-announce_loop time_us [] t = Keeps-same t
Keeps-announce_loop time_us ((key, c) ∷ rest) t =
    elim (Bool-cases (
      is_available c
      && (we_have_the_time t
          && not (announced_to t c.connection_handle t.packets_connections_sent_list)))) [
            | inl due ↦ rw due (
                Keeps-trans t _ _ (Keeps-announce_to time_us c.connection_handle t)
                  (Keeps-announce_loop time_us rest _))
            | inr skip ↦ rw skip (Keeps-announce_loop time_us rest t)
          ]

Keeps-setup_announce_if_needed :
    (sender : ℕ) (t : BleConnectionTracker) → Keeps t (setup_announce_if_needed sender t)
unfolding setup_announce_if_needed
Keeps-setup_announce_if_needed sender t = elim (Bool-cases (t.announce.base.packet_ttl == 3)) [
  | inl known ↦ rw known (Keeps-lists t _ refl refl refl refl refl refl refl)
  | inr new ↦ rw new (Keeps-lists t _ refl refl refl refl refl refl refl)
]

pub Keeps-announce_to_connections :
    (time_us sender : ℕ) (t : BleConnectionTracker)
    → Keeps t (announce_to_connections time_us sender t)
unfolding announce_to_connections
Keeps-announce_to_connections time_us sender t =
    let t' = setup_announce_if_needed sender t in
    Keeps-trans t t' _ (Keeps-setup_announce_if_needed sender t)
      (Keeps-announce_loop time_us t'.connections t')

lookup-map-some :
    {K V : Type 0} ⦃key : Key K⦄ (f : V → V) (k : K) (m : Map K V)
    → (v : V) × (lookup k m ≡ some v)
    → (v : V) × (lookup k (map (λ e. (e.0, f e.1)) m) ≡ some v)
unfolding lookup
lookup-map-some f k [] h = h
lookup-map-some ⦃key⦄ f k ((j, v) ∷ m) h = elim (Bool-cases (key.same j k)) [
  | inl hit ↦ rw hit (f v, refl)
  | inr miss ↦ rw miss (lookup-map-some f k m (rw miss at h))
]

pub Keeps-add_available_peer :
    (time_us : ℕ) (address : List ℕ) (address_type : ℕ) (services : ServiceCheck) (rssi : ℕ)
    (use_coded : Bool) (t : BleConnectionTracker)
    → Keeps t (add_available_peer time_us address address_type services rssi use_coded t)
unfolding add_available_peer update_rssi_for_active_connections
Keeps-add_available_peer time_us address address_type services rssi use_coded t =
    let t' = add_available_peer time_us address address_type services rssi use_coded t in
    Keeps-grow t t' (λ packet. Points-same t t' packet refl refl)
      (λ k h. lookup-map-some (rssi_if_at address rssi) k t.connections h) (λ h. h) (λ h. h)
      (λ h. h) (λ h. h)

pub Keeps-report_connection_failure :
    (address : List ℕ) (reason : ℕ) (t : BleConnectionTracker)
    → Keeps t (report_connection_failure address reason t)
unfolding report_connection_failure
Keeps-report_connection_failure address reason t =
    elim (Option-cases (lookup address t.available_neighbours)) [
      | inl e ↦ rw (e, report_connection_failure) (Keeps-same t)
      | inr (c, e) ↦
          rw (e, report_connection_failure) (Keeps-lists t _ refl refl refl refl refl refl refl)
    ]

pub Keeps-set_connection_started :
    (address : List ℕ) (t : BleConnectionTracker) → Keeps t (set_connection_started address t)
unfolding set_connection_started
Keeps-set_connection_started address t = Keeps-lists t _ refl refl refl refl refl refl refl
