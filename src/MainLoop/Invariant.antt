-- ===== src/MainLoop/Invariant.antt =====
-- Whatever happens to the program of main.cpp, the lists of packets hold no dangling pointer.
use ble_smoke_detector.Common.{
  ℕ, ◌≡◌, ap, subst, ◌==◌, Bool, true, false, Option, none, some, List, if◌then◌else◌, Option-cases,
  inl, inr, length,
}
use ble_smoke_detector.Common.Map.{number_key, string_key, update}
use ble_smoke_detector.MicroMeshPreferences.{MicroMeshPreferences}
use ble_smoke_detector.BleConnection.{
  BleConnection, ServiceCheck, service_uuid_not_found, service_uuid_found,
  service_uuid_and_name_found, new_connection, can_and_need_to_discover, set_mtu, set_rssi,
}
use ble_smoke_detector.BleConnectionTracker.{BleConnectionTracker, PacketRef}
use ble_smoke_detector.BleConnectionTracker.Packets.{
  store_message_and_return_if_new, enqueue_broadcast_packet, connection_for_conn_handle,
}
use ble_smoke_detector.BleConnectionTracker.Linked.{
  Keeps, Keeps-same, Keeps-trans, lookup-update-some,
}
use ble_smoke_detector.BleConnectionTracker.Linked.Stores.{
  Keeps-store_message_and_return_if_new, Keeps-enqueue_broadcast_packet,
  Keeps-connection_for_conn_handle,
}
use ble_smoke_detector.BleConnectionTracker.Linked.Links.{
  Keeps-connections, Keeps-report_connection, Keeps-report_connection_with_role,
  Keeps-report_disconnection, Keeps-add_available_peer,
}
use ble_smoke_detector.ProtocolProcessor.{process_write}
use ble_smoke_detector.ProtocolProcessor.Linked.{Keeps-process_write}
use ble_smoke_detector.MainLoop.{Program, active, with_tracker}
use ble_smoke_detector.MainLoop.Generate.{
  queue_if_new, publish, message_of, reset_flags, generate_message_if_needed,
}
use ble_smoke_detector.MainLoop.Events.{
  Profile, Host, edit_connection, connection_at, process, configure_notification,
  att_write_callback, GattEvent, mtu, service_query_result, characteristic_query_result,
  query_complete, other_gatt_event, store_service, store_characteristic, complete_query,
  handle_gatt_client_event, handle_gatt_client_value_update_event, HciEvent, stack_is_working,
  disconnection_complete, rssi_measurement, nr_connections_changed, le_connection_complete,
  advertising_report, gap_connection_complete, other_hci_event, heard, hci_packet_handler, AttEvent,
  att_connected, att_disconnected, other_att_event, att_packet_handler,
}
use ble_smoke_detector.MainLoop.Advertising.{check_for_uuid}

-- The pointers of a program stay good.
abbrev pub Grows : Program → Program → Type 0
Grows p p' = Keeps p.connection_tracker p'.connection_tracker

pub Grows-if : (b : Bool) (p x y : Program) → Grows p x → Grows p y → Grows p (if b then x else y)
Grows-if true p x y h k = h
Grows-if false p x y h k = k

Grows-edit_connection :
    (handle : ℕ) (f : BleConnection → BleConnection) (p : Program)
    → Grows p (edit_connection handle f p)
unfolding edit_connection
Grows-edit_connection handle f p =
    let t = connection_for_conn_handle handle p.connection_tracker in
    Keeps-trans p.connection_tracker t _
      (Keeps-connection_for_conn_handle handle p.connection_tracker)
      (Keeps-connections (update handle new_connection f t.connections) t.available_neighbours t
        (λ k h. lookup-update-some k handle new_connection f t.connections h))

Grows-queue_if_new :
    (p : Program) (stored : Option PacketRef × BleConnectionTracker)
    → Keeps p.connection_tracker stored.1
    → Grows p (queue_if_new p stored)
unfolding queue_if_new
Grows-queue_if_new p (none, t) h = h
Grows-queue_if_new p (some packet, t) h =
    Keeps-trans p.connection_tracker t (enqueue_broadcast_packet packet t) h
      (Keeps-enqueue_broadcast_packet packet t)

pub Grows-generate :
    (time_us sender : ℕ) (p : Program) → Grows p (generate_message_if_needed time_us sender p)
unfolding generate_message_if_needed publish
Grows-generate time_us sender p =
    let m = message_of time_us sender p in
    Grows-if _ p (publish m (reset_flags p)) p
      (Grows-queue_if_new (reset_flags p) (store_message_and_return_if_new m p.connection_tracker)
        (Keeps-store_message_and_return_if_new m p.connection_tracker))
      (Keeps-same p.connection_tracker)

-- What a step that returned something returned.
returned :
    (X Y : Option (Option MicroMeshPreferences × Program)) (p : Program)
    → X ≡ Y
    → (elim X as (λ o. Program) [ none ↦ p | some r ↦ r.1 ])
      ≡ (elim Y as (λ o. Program) [ none ↦ p | some r ↦ r.1 ])
returned X Y p e =
    ap
      (λ (o : Option (Option MicroMeshPreferences × Program)). elim o as (λ o. Program) [
        | none ↦ p
        | some r ↦ r.1
      ])
      e

Grows-process :
    (host : Host) (handle offset : ℕ) (buffer : List ℕ) (buffer_size : ℕ) (p p' : Program)
    (saved : Option MicroMeshPreferences)
    → process host handle offset buffer buffer_size p ≡ some (saved, p')
    → Grows p p'
unfolding process
Grows-process host handle offset buffer buffer_size p p' saved e =
    let t = connection_for_conn_handle handle p.connection_tracker in
    let c = connection_at handle t in
    elim (Option-cases
      (process_write host.hash host.time_us host.my_sender_id c offset buffer buffer_size t)) [
        | inl out ↦ let e' = rw (out, process) at e in absurd cc
        | inr (outcome, found) ↦
            let e' : some (outcome.0, with_tracker outcome.1 p) ≡ some (saved, p') =
              rw (found, process) at e in
            subst (λ q. Grows p q) (returned _ _ p e')
              (Keeps-trans p.connection_tracker t outcome.1
                (Keeps-connection_for_conn_handle handle p.connection_tracker)
                (Keeps-process_write host.hash host.time_us host.my_sender_id c offset buffer
                  buffer_size t outcome.1 outcome.0 found))
      ]

-- A step that may return, and returns a program that grew.
abbrev pub ReturnsGrown : Program → Option (Option MicroMeshPreferences × Program) → Type 0
ReturnsGrown p o =
    (saved : Option MicroMeshPreferences) (p' : Program) → o ≡ some (saved, p') → Grows p p'

ReturnsGrown-some :
    (p q : Program) (saved : Option MicroMeshPreferences)
    → Grows p q
    → ReturnsGrown p (some (saved, q))
ReturnsGrown-some p q saved h saved' p' e = subst (λ r. Grows p r) (returned _ _ p e) h

ReturnsGrown-if :
    (b : Bool) (p : Program) (x y : Option (Option MicroMeshPreferences × Program))
    → ReturnsGrown p x
    → ReturnsGrown p y
    → ReturnsGrown p (if b then x else y)
ReturnsGrown-if true p x y h k = h
ReturnsGrown-if false p x y h k = k

pub Grows-att_write_callback :
    (profile : Profile) (host : Host) (connection_handle att_handle : ℕ) (transaction : Bool)
    (offset : ℕ) (buffer : List ℕ) (buffer_size : ℕ) (p : Program)
    → ReturnsGrown p (
        att_write_callback profile host connection_handle att_handle transaction offset buffer
          buffer_size p)
unfolding att_write_callback
Grows-att_write_callback profile host connection_handle att_handle transaction offset buffer
      buffer_size p =
    let p' = active p in
    ReturnsGrown-if transaction p _ _
      (ReturnsGrown-some p p' none (Keeps-same p.connection_tracker))
      (ReturnsGrown-if (att_handle == profile.client_configuration_handle) p _ _
        (ReturnsGrown-some p _ none
          (Grows-edit_connection connection_handle (configure_notification profile buffer) p'))
        (ReturnsGrown-if (att_handle == profile.value_handle) p _ _
          (λ saved q e. Grows-process host connection_handle offset buffer buffer_size p' q saved e)
          (ReturnsGrown-some p _ none
            (Keeps-connection_for_conn_handle connection_handle p.connection_tracker))))

pub Grows-value_update :
    (host : Host) (notification : Option (ℕ × List ℕ)) (p : Program)
    → ReturnsGrown p (handle_gatt_client_value_update_event host notification p)
unfolding handle_gatt_client_value_update_event
Grows-value_update host none p saved q e =
    ReturnsGrown-some p (active p) none (Keeps-same p.connection_tracker) saved q e
Grows-value_update host (some (handle, value)) p saved q e =
    Grows-process host handle 0 value (length value) (active p) q saved e

Grows-complete_query : (con_handle : ℕ) (p : Program) → Grows p (complete_query con_handle p).1
unfolding complete_query
Grows-complete_query con_handle p =
    let t = connection_for_conn_handle con_handle p.connection_tracker in
    elim (Option-cases (can_and_need_to_discover (connection_at con_handle t))) [
      | inl e ↦
          rw (e, complete_query) (Keeps-connection_for_conn_handle con_handle p.connection_tracker)
      | inr (service, e) ↦
          rw (e, complete_query) (Keeps-connection_for_conn_handle con_handle p.connection_tracker)
    ]

pub Grows-handle_gatt_client_event :
    (event : GattEvent) (p : Program) → Grows p (handle_gatt_client_event event p).1
unfolding handle_gatt_client_event
Grows-handle_gatt_client_event (mtu con_handle value) p =
    Grows-edit_connection con_handle (set_mtu value) (active p)
Grows-handle_gatt_client_event (service_query_result con_handle service) p =
    Grows-edit_connection con_handle (store_service service) (active p)
Grows-handle_gatt_client_event (characteristic_query_result con_handle characteristic) p =
    Grows-edit_connection con_handle (store_characteristic characteristic) (active p)
Grows-handle_gatt_client_event (query_complete con_handle) p =
    Grows-complete_query con_handle (active p)
Grows-handle_gatt_client_event other_gatt_event p = Keeps-same p.connection_tracker

Grows-heard :
    (time_us : ℕ) (address : List ℕ) (address_type rssi : ℕ) (services : ServiceCheck) (p : Program)
    → Grows p (heard time_us address address_type rssi services p)
unfolding heard
Grows-heard time_us address address_type rssi service_uuid_not_found p =
    Keeps-same p.connection_tracker
Grows-heard time_us address address_type rssi service_uuid_found p =
    Keeps-add_available_peer time_us address address_type service_uuid_found rssi false
      p.connection_tracker
Grows-heard time_us address address_type rssi service_uuid_and_name_found p =
    Keeps-add_available_peer time_us address address_type service_uuid_and_name_found rssi false
      p.connection_tracker

pub Grows-hci_packet_handler :
    (time_us : ℕ) (event : HciEvent) (p : Program) → Grows p (hci_packet_handler time_us event p)
unfolding hci_packet_handler
Grows-hci_packet_handler time_us stack_is_working p = Keeps-same p.connection_tracker
Grows-hci_packet_handler time_us (disconnection_complete handle) p =
    Keeps-report_disconnection handle p.connection_tracker
Grows-hci_packet_handler time_us (rssi_measurement handle rssi) p =
    Grows-edit_connection handle (set_rssi rssi) (active p)
Grows-hci_packet_handler time_us (nr_connections_changed number) p = Keeps-same p.connection_tracker
Grows-hci_packet_handler time_us (le_connection_complete handle address address_type role) p =
    Keeps-report_connection_with_role time_us handle address address_type role p.connection_tracker
Grows-hci_packet_handler time_us (advertising_report address address_type rssi elements) p =
    Grows-heard time_us address address_type rssi (check_for_uuid elements) (active p)
Grows-hci_packet_handler time_us (gap_connection_complete handle address address_type role) p =
    Keeps-report_connection_with_role time_us handle address address_type role p.connection_tracker
Grows-hci_packet_handler time_us other_hci_event p = Keeps-same p.connection_tracker

pub Grows-att_packet_handler :
    (time_us : ℕ) (event : AttEvent) (p : Program) → Grows p (att_packet_handler time_us event p)
unfolding att_packet_handler
Grows-att_packet_handler time_us (att_connected handle address address_type) p =
    Keeps-report_connection time_us handle address address_type p.connection_tracker
Grows-att_packet_handler time_us (att_disconnected handle) p =
    Keeps-report_disconnection handle p.connection_tracker
Grows-att_packet_handler time_us other_att_event p = Keeps-same p.connection_tracker
