-- ===== src/Announce.antt =====
-- src/BLEPacket/Announce.h and Announce.cpp: a node's announcement of itself.
-- `writePacketPayload` writes a location under the types of a message (0x78 to 0x7a), while the
-- constructor reads it under 0x7d to 0x7f; both are as in the source.
pub mod Termination
use ble_smoke_detector.Common.{
  ℕ, zero, suc, ◌+◌, ◌*◌, ◌/◌, ◌%◌, true, ◌&&◌, not, Option, none, some, List, [], ◌∷◌, ◌++◌, ◌==◌,
  ltb, leb, if◌then◌else◌, length, min,
}
use ble_smoke_detector.PacketTypes.{
  type_announce, tlv_announce_nickname, tlv_announce_noise_public_key,
  tlv_announce_signing_public_key, tlv_announce_direct_neighbors, tlv_announce_location_latitude,
  tlv_announce_location_longitude, tlv_announce_location_altitude, tlv_message_location_latitude,
  tlv_message_location_longitude, tlv_message_location_altitude,
}
use ble_smoke_detector.BinaryReader.{
  BinaryReader, ReaderM, ◌>>=◌, pure, read_int32, read_uint64, read_data, read_remainder_len,
}
use ble_smoke_detector.BinaryWriter.{write_uint8, write_uint64, write_int32}
use ble_smoke_detector.Base.{
  Base, new_base, read_base, handle_reader_remainder, variable_length, write_packet,
  write_variable_string, write_variable_int32, write_uint64s, set_malformed, set_payload_length,
  count_if, write_if,
}
use ble_smoke_detector.TlvLoop.{TlvClass, tlv_loop, tlv_fuel}

pub record Announce : Type 0 where
  pub base : Base
  pub name : List ℕ
  pub noise_public_key : List ℕ
  pub signing_public_key : List ℕ
  pub direct_neighbors : List ℕ
  pub latitude_i : ℕ
  pub longitude_i : ℕ
  pub altitude : ℕ

unfoldable pub empty_announce : Base → Announce
empty_announce b = record {
  base = b;
  name = [];
  noise_public_key = [];
  signing_public_key = [];
  direct_neighbors = [];
  latitude_i = 0;
  longitude_i = 0;
  altitude = 0;
}

-- `Announce()`
unfoldable pub new_announce : Announce
unfolding empty_announce new_base
new_announce = empty_announce (new_base type_announce)

abbrev pub set_name : List ℕ → Announce → Announce
set_name value a = record a { name = value }

abbrev pub set_latitude_i : ℕ → Announce → Announce
set_latitude_i value a = record a { latitude_i = value }

abbrev pub set_longitude_i : ℕ → Announce → Announce
set_longitude_i value a = record a { longitude_i = value }

abbrev pub set_altitude : ℕ → Announce → Announce
set_altitude value a = record a { altitude = value }

abbrev pub malformed_announce : Announce → Announce
malformed_announce a = record a { base = set_malformed true a.base }

-- What `getPayloadLength` adds up. At most 7 entries of 257 bytes: the uint32_t does not wrap.
pub count_payload : Announce → ℕ
count_payload a =
    count_if (ltb 0 (length a.name)) (variable_length a.base tlv_announce_nickname (length a.name))
    + count_if (ltb 0 (length a.noise_public_key))
        (variable_length a.base tlv_announce_noise_public_key (length a.noise_public_key))
    + count_if (ltb 0 (length a.signing_public_key))
        (variable_length a.base tlv_announce_signing_public_key (length a.signing_public_key))
    + count_if (ltb 0 (length a.direct_neighbors))
        (variable_length a.base tlv_announce_direct_neighbors (length a.direct_neighbors))
    + count_if (not (a.latitude_i == 0)) (variable_length a.base tlv_announce_location_latitude 4)
    + count_if (not (a.longitude_i == 0)) (variable_length a.base tlv_announce_location_longitude 4)
    + count_if (not (a.altitude == 0)) (variable_length a.base tlv_announce_location_altitude 4)

unfoldable pub get_payload_length : Announce → ℕ × Announce
get_payload_length a =
    if ltb 0 a.base.payload_length
    then (a.base.payload_length, a)
    else (count_payload a, record a { base = set_payload_length (count_payload a) a.base })

-- More than 31 neighbours do not fit an entry and are not written.
pub write_neighbors : Announce → List ℕ → List ℕ
write_neighbors a out =
    if ltb 0 (length a.direct_neighbors) && leb (length a.direct_neighbors) 31
    then write_uint64s a.direct_neighbors (
        write_uint8 (min 248 (length a.direct_neighbors * 8) % 256)
          (write_uint8 tlv_announce_direct_neighbors out))
    else out

pub write_packet_payload : Announce → List ℕ → List ℕ
write_packet_payload a out =
    write_if (not (a.altitude == 0)) (write_variable_int32 tlv_message_location_altitude a.altitude)
      (write_if (not (a.longitude_i == 0))
        (write_variable_int32 tlv_message_location_longitude a.longitude_i)
        (write_if (not (a.latitude_i == 0))
          (write_variable_int32 tlv_message_location_latitude a.latitude_i)
          (write_neighbors a (
            write_if (ltb 0 (length a.signing_public_key))
              (write_variable_string tlv_announce_signing_public_key a.signing_public_key)
              (write_if (ltb 0 (length a.noise_public_key))
                (write_variable_string tlv_announce_noise_public_key a.noise_public_key)
                (write_if (ltb 0 (length a.name))
                  (write_variable_string tlv_announce_nickname a.name) out))))))

-- `writePacket`: the bytes, and the announcement with the length that it computed.
unfoldable pub write_announce : Announce → List ℕ → List ℕ × Announce
unfolding get_payload_length write_packet
write_announce a out =
    let (len, a') = get_payload_length a in
    (write_packet a'.base len (write_packet_payload a') out, a')

-- `getAnnounceHash` over the library's `std::hash<std::string>`: no timestamp and no ttl.
unfoldable pub get_announce_hash : (List ℕ → ℕ) → Announce → ℕ
get_announce_hash hash a = hash (
    write_int32 a.altitude (
      write_int32 a.longitude_i (
        write_int32 a.latitude_i (
          write_uint64 a.base.packet_recipient_id (
            write_uint64 a.base.packet_sender_id
              (write_uint8 a.base.packet_flags (write_uint8 a.base.packet_type [])))))))

-- `for (int i = 0; i < data_length; i += 8)`: the number of rounds.
abbrev pub neighbor_rounds : ℕ → ℕ
neighbor_rounds data_length = (data_length + 7) / 8

pub read_neighbors : ℕ → Announce → ReaderM Announce
read_neighbors zero a = pure a
read_neighbors (suc rounds) a = do
  neighbour ← read_uint64
  read_neighbors rounds (record a { direct_neighbors = a.direct_neighbors ++ (neighbour ∷ []) })

pub store_data : ℕ → Announce → Option (List ℕ) → Announce
store_data type a none = malformed_announce a
store_data type a (some bytes) =
    if type == tlv_announce_nickname
    then record a { name = bytes }
    else if type == tlv_announce_noise_public_key
    then record a { noise_public_key = bytes }
    else if type == tlv_announce_signing_public_key
    then record a { signing_public_key = bytes }
    else a

abbrev pub read_number : ℕ → (ℕ → Announce) → Announce → ReaderM Announce
read_number len store a =
    if len == 4 then (read_int32 >>= λ value. pure (store value)) else pure (malformed_announce a)

-- The cases of the constructor's loop.
pub read_value : ℕ → ℕ → Announce → ReaderM Announce
unfolding store_data
read_value type len a =
    if type == tlv_announce_location_latitude
    then read_number len (λ v. record a { latitude_i = v }) a
    else if type == tlv_announce_location_longitude
    then read_number len (λ v. record a { longitude_i = v }) a
    else if type == tlv_announce_location_altitude
    then read_number len (λ v. record a { altitude = v }) a
    else if type == tlv_announce_direct_neighbors
    then read_neighbors (neighbor_rounds len) a
    else read_data len >>= λ bytes. pure (store_data type a bytes)

unfoldable pub announce_tlv : TlvClass Announce
unfolding read_value get_payload_length
announce_tlv = record {
  read_value = read_value;
  is_malformed = λ a. a.base.malformed;
  get_payload_length = get_payload_length;
}

pub read_signature : Option (Announce × BinaryReader) → Option (Announce × BinaryReader)
unfolding handle_reader_remainder
read_signature none = none
read_signature (some (a, r)) =
    let (b, r') = handle_reader_remainder a.base r in some (record a { base = b }, r')

-- `Announce(version, reader)`; `none` means that the loop ran out of fuel.
unfoldable pub read_announce : ℕ → BinaryReader → Option (Announce × BinaryReader)
unfolding empty_announce read_signature announce_tlv
read_announce version r =
    let (b, r') = read_base type_announce version r in
    read_signature
      (tlv_loop announce_tlv (tlv_fuel r') (read_remainder_len r').0 (empty_announce b) r')
