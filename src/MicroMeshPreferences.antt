-- ===== src/MicroMeshPreferences.antt =====
-- src/BLEPacket/MicroMeshPreferences.h and MicroMeshPreferences.cpp: the settings of a device, which
-- go over the air and into flash as a packet.
pub mod Termination
use ble_smoke_detector.Common.{
  ℕ, ◌+◌, Bool, true, ◌&&◌, not, Option, none, some, List, [], ◌==◌, ltb, if◌then◌else◌, length,
  is_empty, bytes_eq,
}
use ble_smoke_detector.PacketTypes.{
  type_micro_mesh_preferences, tlv_micro_mesh_preferences_key, tlv_micro_mesh_preferences_ssid,
  tlv_micro_mesh_preferences_password, tlv_micro_mesh_preferences_latitude,
  tlv_micro_mesh_preferences_longitude, tlv_micro_mesh_preferences_altitude,
}
use ble_smoke_detector.BinaryReader.{
  BinaryReader, ReaderM, ◌>>=◌, pure, read_int32, read_data, read_remainder_len,
}
use ble_smoke_detector.Base.{
  Base, new_base, read_base, handle_reader_remainder, variable_length, write_packet,
  write_variable_string, write_variable_int32, set_malformed, set_payload_length, count_if,
  write_if,
}
use ble_smoke_detector.TlvLoop.{TlvClass, tlv_loop, tlv_fuel}

pub record MicroMeshPreferences : Type 0 where
  pub base : Base
  pub key : List ℕ
  pub ssid : List ℕ
  pub password : List ℕ
  pub latitude_i : ℕ
  pub longitude_i : ℕ
  pub altitude : ℕ

unfoldable pub empty_preferences : Base → MicroMeshPreferences
empty_preferences b = record {
  base = b;
  key = [];
  ssid = [];
  password = [];
  latitude_i = 0;
  longitude_i = 0;
  altitude = 0;
}

-- `MicroMeshPreferences()`
unfoldable pub new_preferences : MicroMeshPreferences
unfolding empty_preferences new_base
new_preferences = empty_preferences (new_base type_micro_mesh_preferences)

-- `operator==`: the settings alone, not the header.
unfoldable pub same_preferences : MicroMeshPreferences → MicroMeshPreferences → Bool
unfolding bytes_eq
same_preferences p other =
    bytes_eq p.key other.key
    && (bytes_eq p.ssid other.ssid
        && (bytes_eq p.password other.password
            && ((p.latitude_i == other.latitude_i)
                && ((p.longitude_i == other.longitude_i) && (p.altitude == other.altitude)))))

abbrev pub malformed_preferences : MicroMeshPreferences → MicroMeshPreferences
malformed_preferences p = record p { base = set_malformed true p.base }

-- What `getPayloadLength` adds up. At most 6 entries of 257 bytes: the uint32_t does not wrap.
unfoldable pub count_payload : MicroMeshPreferences → ℕ
count_payload p =
    count_if (not (is_empty p.key))
      (variable_length p.base tlv_micro_mesh_preferences_key (length p.key))
    + count_if (not (is_empty p.ssid))
        (variable_length p.base tlv_micro_mesh_preferences_ssid (length p.ssid))
    + count_if (not (is_empty p.password))
        (variable_length p.base tlv_micro_mesh_preferences_password (length p.password))
    + count_if (not (p.latitude_i == 0))
        (variable_length p.base tlv_micro_mesh_preferences_latitude 4)
    + count_if (not (p.longitude_i == 0))
        (variable_length p.base tlv_micro_mesh_preferences_longitude 4)
    + count_if (not (p.altitude == 0))
        (variable_length p.base tlv_micro_mesh_preferences_altitude 4)

unfoldable pub get_payload_length : MicroMeshPreferences → ℕ × MicroMeshPreferences
get_payload_length p =
    if ltb 0 p.base.payload_length
    then (p.base.payload_length, p)
    else (count_payload p, record p { base = set_payload_length (count_payload p) p.base })

unfoldable pub write_packet_payload : MicroMeshPreferences → List ℕ → List ℕ
write_packet_payload p out =
    write_if (not (p.altitude == 0))
      (write_variable_int32 tlv_micro_mesh_preferences_altitude p.altitude)
      (write_if (not (p.longitude_i == 0))
        (write_variable_int32 tlv_micro_mesh_preferences_longitude p.longitude_i)
        (write_if (not (p.latitude_i == 0))
          (write_variable_int32 tlv_micro_mesh_preferences_latitude p.latitude_i)
          (write_if (not (is_empty p.password))
            (write_variable_string tlv_micro_mesh_preferences_password p.password)
            (write_if (not (is_empty p.ssid))
              (write_variable_string tlv_micro_mesh_preferences_ssid p.ssid)
              (write_if (not (is_empty p.key))
                (write_variable_string tlv_micro_mesh_preferences_key p.key) out)))))

-- `writePacket`: the bytes, and the preferences with the length that it computed.
unfoldable pub write_preferences : MicroMeshPreferences → List ℕ → List ℕ × MicroMeshPreferences
unfolding get_payload_length write_packet
write_preferences p out =
    let (len, p') = get_payload_length p in
    (write_packet p'.base len (write_packet_payload p') out, p')

pub store_data : ℕ → MicroMeshPreferences → Option (List ℕ) → MicroMeshPreferences
store_data type p none = malformed_preferences p
store_data type p (some bytes) =
    if type == tlv_micro_mesh_preferences_key
    then record p { key = bytes }
    else if type == tlv_micro_mesh_preferences_ssid
    then record p { ssid = bytes }
    else if type == tlv_micro_mesh_preferences_password
    then record p { password = bytes }
    else p

-- An entry with an int32_t: its length must be 4.
abbrev pub read_number :
    ℕ → (ℕ → MicroMeshPreferences) → MicroMeshPreferences → ReaderM MicroMeshPreferences
read_number len store p =
    if len == 4
    then (read_int32 >>= λ value. pure (store value))
    else pure (malformed_preferences p)

-- The cases of the constructor's loop.
pub read_value : ℕ → ℕ → MicroMeshPreferences → ReaderM MicroMeshPreferences
unfolding store_data
read_value type len p =
    if type == tlv_micro_mesh_preferences_latitude
    then read_number len (λ v. record p { latitude_i = v }) p
    else if type == tlv_micro_mesh_preferences_longitude
    then read_number len (λ v. record p { longitude_i = v }) p
    else if type == tlv_micro_mesh_preferences_altitude
    then read_number len (λ v. record p { altitude = v }) p
    else read_data len >>= λ bytes. pure (store_data type p bytes)

unfoldable pub preferences_tlv : TlvClass MicroMeshPreferences
unfolding read_value get_payload_length
preferences_tlv = record {
  read_value = read_value;
  is_malformed = λ p. p.base.malformed;
  get_payload_length = get_payload_length;
}

pub read_signature :
    Option (MicroMeshPreferences × BinaryReader) → Option (MicroMeshPreferences × BinaryReader)
unfolding handle_reader_remainder
read_signature none = none
read_signature (some (p, r)) =
    let (b, r') = handle_reader_remainder p.base r in some (record p { base = b }, r')

-- `MicroMeshPreferences(version, reader)`; `none` means that the loop ran out of fuel.
unfoldable pub read_preferences : ℕ → BinaryReader → Option (MicroMeshPreferences × BinaryReader)
unfolding empty_preferences read_signature preferences_tlv
read_preferences version r =
    let (b, r') = read_base type_micro_mesh_preferences version r in
    read_signature
      (tlv_loop preferences_tlv (tlv_fuel r') (read_remainder_len r').0 (empty_preferences b) r')
