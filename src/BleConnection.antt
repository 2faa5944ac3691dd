-- ===== src/BleConnection.antt =====
-- src/BLEPacket/BleConnection.h and BleConnection.cpp: one link, or a neighbour that may become one.
-- An address is its six bytes; an int and an int8_t are their bit patterns. The listener that the
-- Bluetooth stack keeps in the object has no counterpart.
use ble_smoke_detector.Common.{
  ℕ, ◌/◌, Bool, true, false, ◌&&◌, Option, none, some, List, [], ◌∷◌, ◌==◌, ltb, if◌then◌else◌,
  bytes_eq,
}

-- `service_uuid_check_status` by its bits.
pub data ServiceCheck : Type 0 where
  service_uuid_not_found service_uuid_found service_uuid_and_name_found : ServiceCheck

abbrev pub hci_role_master : ℕ
hci_role_master = 0

abbrev pub hci_role_slave : ℕ
hci_role_slave = 1

abbrev pub hci_role_invalid : ℕ
hci_role_invalid = 0xff

abbrev pub bd_addr_type_le_random : ℕ
bd_addr_type_le_random = 1

abbrev pub bd_addr_type_unknown : ℕ
bd_addr_type_unknown = 0xfe

abbrev pub packet_service_uuid : List ℕ
packet_service_uuid =
    0x29 ∷ 0x8c ∷ 0xfe ∷ 0xca ∷ 0xa1 ∷ 0x0d ∷ 0x49 ∷ 0xee ∷ 0x8a ∷ 0x74 ∷ 0xe5 ∷ 0x13 ∷ 0x54 ∷ 0x7f
    ∷ 0x7e ∷ 0xf7 ∷ []

abbrev pub packet_characteristic_uuid : List ℕ
packet_characteristic_uuid =
    0xa8 ∷ 0xd9 ∷ 0x91 ∷ 0x67 ∷ 0xe5 ∷ 0x8c ∷ 0x4a ∷ 0x0c ∷ 0x95 ∷ 0x65 ∷ 0xe2 ∷ 0xf1 ∷ 0xa7 ∷ 0xfb
    ∷ 0xc0 ∷ 0x5d ∷ []

pub record BleConnection : Type 0 where
  pub connection_handle : ℕ
  pub bt_address : List ℕ
  pub bt_address_type : ℕ
  pub bt_mtu : ℕ
  pub packet_service_start_group_handle : ℕ
  pub packet_service_end_group_handle : ℕ
  pub packet_characteristic_value_handle : ℕ
  pub notification_enabled : Bool
  pub has_data_to_send : Bool
  pub connected : Bool
  pub use_coded_phy : Bool
  pub fail_reason : ℕ
  pub services_found : ServiceCheck
  pub rssi : ℕ
  pub role : ℕ
  pub last_seen_time : ℕ

unfoldable pub new_connection : BleConnection
new_connection = record {
  connection_handle = 0;
  bt_address = 0 ∷ 0 ∷ 0 ∷ 0 ∷ 0 ∷ 0 ∷ [];
  bt_address_type = bd_addr_type_unknown;
  bt_mtu = 0;
  packet_service_start_group_handle = 0;
  packet_service_end_group_handle = 0;
  packet_characteristic_value_handle = 0;
  notification_enabled = false;
  has_data_to_send = false;
  connected = false;
  use_coded_phy = false;
  fail_reason = 0;
  services_found = service_uuid_found;
  rssi = 0;
  role = hci_role_invalid;
  last_seen_time = 0;
}

abbrev pub set_connection_handle : ℕ → BleConnection → BleConnection
set_connection_handle hci_con_handle c = record c { connection_handle = hci_con_handle }

abbrev pub set_notification_enabled : Bool → BleConnection → BleConnection
set_notification_enabled cond c = record c { notification_enabled = cond }

abbrev pub set_packet_characteristic_value_handle : ℕ → BleConnection → BleConnection
set_packet_characteristic_value_handle handle c = record c {
  packet_characteristic_value_handle = handle;
}

abbrev pub set_connected : Bool → BleConnection → BleConnection
set_connected cond c = record c { connected = cond }

abbrev pub set_connect_failure : ℕ → BleConnection → BleConnection
set_connect_failure reason c = record c { fail_reason = reason }

abbrev pub set_ble_address : List ℕ → ℕ → BleConnection → BleConnection
set_ble_address addr addr_type c = record c { bt_address = addr; bt_address_type = addr_type }

abbrev pub set_has_data : Bool → BleConnection → BleConnection
set_has_data has c = record c { has_data_to_send = has }

abbrev pub set_services : ServiceCheck → BleConnection → BleConnection
set_services services c = record c { services_found = services }

abbrev pub set_rssi : ℕ → BleConnection → BleConnection
set_rssi scan_rssi c = record c { rssi = scan_rssi }

abbrev pub set_timestamp : ℕ → BleConnection → BleConnection
set_timestamp value c = record c { last_seen_time = value }

abbrev pub set_mtu : ℕ → BleConnection → BleConnection
set_mtu mtu c = record c { bt_mtu = mtu }

abbrev pub set_use_coded_phy : Bool → BleConnection → BleConnection
set_use_coded_phy use_phy c = record c { use_coded_phy = use_phy }

abbrev pub set_role : ℕ → BleConnection → BleConnection
set_role the_role c = record c { role = the_role }

abbrev pub is_repeater : BleConnection → Bool
is_repeater c = elim c.services_found [ service_uuid_and_name_found ↦ true | _ ↦ false ]

abbrev pub is_random : BleConnection → Bool
is_random c = c.bt_address_type == bd_addr_type_le_random

abbrev pub get_timestamp_ms : BleConnection → ℕ
get_timestamp_ms c = c.last_seen_time / 1000

-- `gatt_client_service_t`
pub record Service : Type 0 where
  pub start_group_handle : ℕ
  pub end_group_handle : ℕ
  pub uuid16 : ℕ
  pub uuid128 : List ℕ

-- `gatt_client_characteristic_t`, the fields that are read.
pub record Characteristic : Type 0 where
  pub value_handle : ℕ
  pub uuid16 : ℕ
  pub uuid128 : List ℕ

unfoldable pub store_handles_if_service_matches : Service → BleConnection → BleConnection
unfolding bytes_eq
store_handles_if_service_matches service c =
    if bytes_eq packet_service_uuid service.uuid128
    then record c {
      packet_service_start_group_handle = service.start_group_handle;
      packet_service_end_group_handle = service.end_group_handle;
    }
    else c

unfoldable pub store_handles_if_characteristic_matches :
    Characteristic → BleConnection → BleConnection
unfolding bytes_eq
store_handles_if_characteristic_matches characteristic c =
    if bytes_eq packet_characteristic_uuid characteristic.uuid128
    then record c { packet_characteristic_value_handle = characteristic.value_handle }
    else c

-- The service to query, if there is one; the caller's `service` is then overwritten.
unfoldable pub can_and_need_to_discover : BleConnection → Option Service
can_and_need_to_discover c =
    if ltb 0 c.packet_service_start_group_handle && (c.packet_characteristic_value_handle == 0)
    then some (record {
      start_group_handle = c.packet_service_start_group_handle;
      end_group_handle = c.packet_service_end_group_handle;
      uuid16 = 0;
      uuid128 = packet_service_uuid;
    })
    else none
