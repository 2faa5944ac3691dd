-- ===== src/MainLoop/Events.antt =====
-- The callbacks of the Bluetooth stack in main.cpp. What the stack's getters read from an event is an
-- argument of the event's constructor; the handles of the generated profile are arguments too.
use ble_smoke_detector.Common.{
  ℕ, ◌==◌, Bool, true, false, Option, none, some, List, [], ◌∷◌, if◌then◌else◌, length,
}
use ble_smoke_detector.Common.Map.{number_key, string_key, lookup, update}
use ble_smoke_detector.MicroMeshPreferences.{MicroMeshPreferences}
use ble_smoke_detector.BleConnection.{
  BleConnection, ServiceCheck, service_uuid_not_found, Service, Characteristic, new_connection,
  set_mtu, set_rssi, set_notification_enabled, set_packet_characteristic_value_handle,
  store_handles_if_service_matches, store_handles_if_characteristic_matches,
  can_and_need_to_discover,
}
use ble_smoke_detector.BleConnectionTracker.{BleConnectionTracker}
use ble_smoke_detector.BleConnectionTracker.Packets.{connection_for_conn_handle}
use ble_smoke_detector.BleConnectionTracker.Connections.{
  report_connection, report_connection_with_role, report_disconnection, add_available_peer,
  get_connectable_neighbours, get_connection_for_address, set_connection_started,
}
use ble_smoke_detector.ProtocolProcessor.{process_write}
use ble_smoke_detector.MainLoop.{Program, active, with_tracker}
use ble_smoke_detector.MainLoop.Advertising.{AdElement, check_for_uuid}

-- The profile's handles, the value that asks for notifications, and `little_endian_read_16`.
pub record Profile : Type 0 where
  pub client_configuration_handle : ℕ
  pub value_handle : ℕ
  pub notification : ℕ
  pub little_endian_read_16 : List ℕ → ℕ

-- What `processWrite` needs to know: the hash of the library, the clock and the board's id.
pub record Host : Type 0 where
  pub hash : List ℕ → ℕ
  pub time_us : ℕ
  pub my_sender_id : ℕ

-- A setter called on `connectionForConnHandle(handle)`.
unfoldable pub edit_connection : ℕ → (BleConnection → BleConnection) → Program → Program
unfolding connection_for_conn_handle update
edit_connection handle f p =
    let t = connection_for_conn_handle handle p.connection_tracker in
    with_tracker (record t { connections = update handle new_connection f t.connections }) p

unfoldable pub connection_at : ℕ → BleConnectionTracker → BleConnection
unfolding lookup
connection_at handle t = elim (lookup handle t.connections) [ none ↦ new_connection | some c ↦ c ]

-- `processor.processWrite` on `connectionForConnHandle(handle)`, with what is to be saved.
unfoldable pub process :
    Host → ℕ → ℕ → List ℕ → ℕ → Program → Option (Option MicroMeshPreferences × Program)
unfolding connection_for_conn_handle connection_at process_write
process host handle offset buffer buffer_size p =
    let t = connection_for_conn_handle handle p.connection_tracker in
    elim (process_write host.hash host.time_us host.my_sender_id (connection_at handle t) offset
      buffer buffer_size t) [
        | none ↦ none
        | some outcome ↦ some (outcome.0, with_tracker outcome.1 p)
      ]

-- `att_read_callback`: the size that is returned.
unfoldable pub att_read_callback : Profile → ℕ → Program → ℕ × Program
att_read_callback profile att_handle p =
    (if att_handle == profile.client_configuration_handle then 2 else 0, active p)

-- The `case` of `att_write_callback` on the configuration of notifications.
unfoldable pub configure_notification : Profile → List ℕ → BleConnection → BleConnection
configure_notification profile buffer c =
    let wanted = profile.little_endian_read_16 buffer == profile.notification in
    if wanted
    then set_packet_characteristic_value_handle profile.value_handle
        (set_notification_enabled true c)
    else set_notification_enabled false c

-- `att_write_callback`; `transaction` is `transaction_mode != ATT_TRANSACTION_MODE_NONE`.
unfoldable pub att_write_callback :
    Profile
    → Host
    → ℕ
    → ℕ
    → Bool
    → ℕ
    → List ℕ
    → ℕ
    → Program
    → Option (Option MicroMeshPreferences × Program)
unfolding edit_connection process connection_for_conn_handle
att_write_callback profile host connection_handle att_handle transaction offset buffer buffer_size
      p =
    let p' = active p in
    let context = connection_for_conn_handle connection_handle p.connection_tracker in
    if transaction
    then some (none, p')
    else if att_handle == profile.client_configuration_handle
    then some (none, edit_connection connection_handle (configure_notification profile buffer) p')
    else if att_handle == profile.value_handle
    then process host connection_handle offset buffer buffer_size p'
    else some (none, with_tracker context p')

pub data GattEvent : Type 0 where
  mtu : (con_handle value : ℕ) → GattEvent
  service_query_result : (con_handle : ℕ) (service : Service) → GattEvent
  characteristic_query_result : (con_handle : ℕ) (characteristic : Characteristic) → GattEvent
  query_complete : (con_handle : ℕ) → GattEvent
  other_gatt_event : GattEvent

-- The `case` GATT_EVENT_QUERY_COMPLETE: the service whose characteristics are asked for next.
unfoldable pub complete_query : ℕ → Program → Option Service × Program
unfolding connection_for_conn_handle connection_at can_and_need_to_discover
complete_query con_handle p =
    let t = connection_for_conn_handle con_handle p.connection_tracker in
    let p' = record p {
      connection_tracker = t;
      discover_primary_services = false;
      discover_characteristics_for_service = false;
    } in
    elim (can_and_need_to_discover (connection_at con_handle t)) [
      | none ↦ (none, p')
      | some service ↦ (some service, record p' { discover_characteristics_for_service = true })
    ]

-- What is stored of a service or of a characteristic with a UUID of 128 bits.
abbrev pub store_service : Service → BleConnection → BleConnection
store_service service c =
    if service.uuid16 == 0 then store_handles_if_service_matches service c else c

abbrev pub store_characteristic : Characteristic → BleConnection → BleConnection
store_characteristic characteristic c =
    if characteristic.uuid16 == 0
    then store_handles_if_characteristic_matches characteristic c
    else c

-- `handle_gatt_client_event`
unfoldable pub handle_gatt_client_event : GattEvent → Program → Option Service × Program
unfolding edit_connection complete_query store_handles_if_service_matches
    store_handles_if_characteristic_matches
handle_gatt_client_event (mtu con_handle value) p =
    (none, edit_connection con_handle (set_mtu value) (active p))
handle_gatt_client_event (service_query_result con_handle service) p =
    (none, edit_connection con_handle (store_service service) (active p))
handle_gatt_client_event (characteristic_query_result con_handle characteristic) p =
    (none, edit_connection con_handle (store_characteristic characteristic) (active p))
handle_gatt_client_event (query_complete con_handle) p = complete_query con_handle (active p)
handle_gatt_client_event other_gatt_event p = (none, active p)

-- `handle_gatt_client_value_update_event`: a notification with its value, or another event.
unfoldable pub handle_gatt_client_value_update_event :
    Host → Option (ℕ × List ℕ) → Program → Option (Option MicroMeshPreferences × Program)
unfolding process
handle_gatt_client_value_update_event host none p = some (none, active p)
handle_gatt_client_value_update_event host (some (handle, value)) p =
    process host handle 0 value (length value) (active p)

pub data HciEvent : Type 0 where
  stack_is_working : HciEvent
  disconnection_complete : (handle : ℕ) → HciEvent
  rssi_measurement : (handle rssi : ℕ) → HciEvent
  nr_connections_changed : (number : ℕ) → HciEvent
  le_connection_complete : (handle : ℕ) (address : List ℕ) (address_type role : ℕ) → HciEvent
  advertising_report :
      (address : List ℕ) (address_type rssi : ℕ) (elements : List AdElement) → HciEvent
  gap_connection_complete : (handle : ℕ) (address : List ℕ) (address_type role : ℕ) → HciEvent
  other_hci_event : HciEvent

-- `start_scanning_for_local_nodes`
abbrev pub start_scanning_for_local_nodes : Program → Program
start_scanning_for_local_nodes p = record p { scanning = true }

-- `stop_scan_handler`
abbrev pub stop_scan_handler : Program → Program
stop_scan_handler p = record (active p) { scanning = false }

-- The `case` GAP_EVENT_ADVERTISING_REPORT.
unfoldable pub heard : ℕ → List ℕ → ℕ → ℕ → ServiceCheck → Program → Program
unfolding add_available_peer
heard time_us address address_type rssi services p = elim services [
  | service_uuid_not_found ↦ p
  | found ↦
      with_tracker
        (add_available_peer time_us address address_type found rssi false p.connection_tracker) p
]

-- `hci_packet_handler` on an event; the arrays of the advertisement are no part of the state.
unfoldable pub hci_packet_handler : ℕ → HciEvent → Program → Program
unfolding edit_connection heard check_for_uuid report_connection_with_role report_disconnection
hci_packet_handler time_us stack_is_working p = start_scanning_for_local_nodes (active p)
hci_packet_handler time_us (disconnection_complete handle) p =
    with_tracker (report_disconnection handle p.connection_tracker) (active (active p))
hci_packet_handler time_us (rssi_measurement handle rssi) p =
    edit_connection handle (set_rssi rssi) (active p)
hci_packet_handler time_us (nr_connections_changed number) p = record (active p) {
  conn_count = number;
}
hci_packet_handler time_us (le_connection_complete handle address address_type role) p =
    with_tracker
      (report_connection_with_role time_us handle address address_type role p.connection_tracker)
      (active (active p))
hci_packet_handler time_us (advertising_report address address_type rssi elements) p =
    heard time_us address address_type rssi (check_for_uuid elements) (active p)
hci_packet_handler time_us (gap_connection_complete handle address address_type role) p =
    record (active (active p)) {
      connection_tracker =
          report_connection_with_role time_us handle address address_type role p.connection_tracker;
      connection_in_progress = false;
      discover_primary_services = true;
    }
hci_packet_handler time_us other_hci_event p = active p

pub data AttEvent : Type 0 where
  att_connected : (handle : ℕ) (address : List ℕ) (address_type : ℕ) → AttEvent
  att_disconnected : (handle : ℕ) → AttEvent
  other_att_event : AttEvent

-- `att_packet_handler` on an event.
unfoldable pub att_packet_handler : ℕ → AttEvent → Program → Program
unfolding report_connection report_disconnection
att_packet_handler time_us (att_connected handle address address_type) p =
    with_tracker (report_connection time_us handle address address_type p.connection_tracker)
      (active (active p))
att_packet_handler time_us (att_disconnected handle) p =
    with_tracker (report_disconnection handle p.connection_tracker) (active (active p))
att_packet_handler time_us other_att_event p = active p

-- The part of `connect_to_first_neighbour` on a neighbour, with the connection that its address has
-- already; `gap_connect` is the stack's.
unfoldable pub connect_fresh :
    (List ℕ → ℕ → ℕ) → BleConnection → Program → Option ℕ → Bool × Program
unfolding set_connection_started
connect_fresh gap_connect neighbour p (some handle) = (false, p)
connect_fresh gap_connect neighbour p none =
    if gap_connect neighbour.bt_address neighbour.bt_address_type == 0
    then (
      true,
      record p {
        connection_tracker = set_connection_started neighbour.bt_address p.connection_tracker;
        connection_in_progress = true;
      },
    )
    else (false, p)

unfoldable pub connect_known : (List ℕ → ℕ → ℕ) → Program → Option BleConnection → Bool × Program
unfolding connect_fresh
connect_known gap_connect p none = (false, p)
connect_known gap_connect p (some neighbour) =
    connect_fresh gap_connect neighbour p
      (get_connection_for_address neighbour.bt_address p.connection_tracker)

unfoldable pub connect_first : (List ℕ → ℕ → ℕ) → Program → List (List ℕ) → Bool × Program
unfolding lookup connect_known
connect_first gap_connect p [] = (false, p)
connect_first gap_connect p (key ∷ rest) =
    connect_known gap_connect p (lookup key p.connection_tracker.available_neighbours)

-- `connect_to_first_neighbour`
unfoldable pub connect_to_first_neighbour : (List ℕ → ℕ → ℕ) → Program → Bool × Program
unfolding get_connectable_neighbours connect_first
connect_to_first_neighbour gap_connect p =
    connect_first gap_connect p (get_connectable_neighbours p.connection_tracker)
