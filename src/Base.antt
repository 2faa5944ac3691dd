-- ===== src/Base.antt =====
-- src/BLEPacket/Base.h and Base.cpp: the header that every packet class inherits.
-- `writePacket` calls two virtual methods; they are its arguments, given by each class.
-- A `Peer *` is the peer's key in the tracker's map.
pub mod Header
pub mod Steps
pub mod Variables
pub mod Received
use ble_smoke_detector.Common.{
  ℕ, zero, suc, ◌+◌, ◌-◌, ◌*◌, ◌/◌, ◌%◌, ◌^◌, min, bit_and, bit_or, Bool, true, false, ◌&&◌, not,
  Option, none, some, List, [], ◌∷◌, ◌++◌, ◌==◌, ltb, if◌then◌else◌, length,
}
use ble_smoke_detector.PacketTypes.{
  type_announce, tlv_announce_direct_neighbors, packet_flag_has_recipient,
  packet_flag_has_signature, packet_flag_has_route, packet_flag_from_meshtastic,
}
use ble_smoke_detector.BinaryReader.{
  BinaryReader, ReaderM, ◌>>=◌, pure, read_uint8, read_uint16, read_uint32, read_uint64, read_data,
}
use ble_smoke_detector.BinaryWriter.{
  write_uint8, write_uint16, write_uint32, write_int32, write_uint64, write_data,
}

pub record Base : Type 0 where
  pub malformed : Bool
  pub packet_version : ℕ
  pub packet_type : ℕ
  pub packet_ttl : ℕ
  pub packet_timestamp_ms : ℕ
  pub packet_flags : ℕ
  pub sending_connection_handle : ℕ
  pub payload_length : ℕ
  pub packet_sender_id : ℕ
  pub packet_recipient_id : ℕ
  pub sender_peer : Option ℕ
  pub route_list : List ℕ
  pub signature : List ℕ

-- `Base(type)`
unfoldable pub new_base : ℕ → Base
new_base type = record {
  malformed = false;
  packet_version = 1;
  packet_type = type;
  packet_ttl = 0;
  packet_timestamp_ms = 0;
  packet_flags = 0;
  sending_connection_handle = 0;
  payload_length = 0;
  packet_sender_id = 0;
  packet_recipient_id = 0;
  sender_peer = none;
  route_list = [];
  signature = [];
}

-- `Base(type, ttl, timestamp, flags, sender, recipient)`
unfoldable pub new_base_with : ℕ → ℕ → ℕ → ℕ → ℕ → ℕ → Base
unfolding new_base
new_base_with type ttl timestamp flags sender recipient = record (new_base type) {
  packet_ttl = ttl;
  packet_timestamp_ms = timestamp;
  packet_flags = flags;
  packet_sender_id = sender;
  packet_recipient_id = recipient;
}

abbrev pub has_flag : ℕ → ℕ → Bool
has_flag flags flag = not (bit_and flags flag == 0)

abbrev pub has_packet_recipient : Base → Bool
has_packet_recipient b = has_flag b.packet_flags packet_flag_has_recipient

abbrev pub has_signature : Base → Bool
has_signature b = has_flag b.packet_flags packet_flag_has_signature

abbrev pub has_packet_route : Base → Bool
has_packet_route b = has_flag b.packet_flags packet_flag_has_route

abbrev pub set_packet_ttl : ℕ → Base → Base
set_packet_ttl ttl b = record b { packet_ttl = ttl % 256 }

abbrev pub set_packet_timestamp : ℕ → Base → Base
set_packet_timestamp timestamp b = record b { packet_timestamp_ms = timestamp }

abbrev pub set_sending_connection_handle : ℕ → Base → Base
set_sending_connection_handle handle b = record b { sending_connection_handle = handle }

abbrev pub set_payload_length : ℕ → Base → Base
set_payload_length len b = record b { payload_length = len }

abbrev pub set_malformed : Bool → Base → Base
set_malformed cond b = record b { malformed = cond }

-- `packet_flags &= ~flag` keeps the other seven bits.
pub set_from_meshtastic : Bool → Base → Base
set_from_meshtastic cond b = record b {
  packet_flags =
      if cond
      then bit_or b.packet_flags packet_flag_from_meshtastic
      else bit_and b.packet_flags (255 - packet_flag_from_meshtastic);
}

-- The loop over `routeCount`.
pub read_route : ℕ → ReaderM (List ℕ)
read_route zero = pure []
read_route (suc count) = do hop_id ← read_uint64; rest ← read_route count; pure (hop_id ∷ rest)

pub read_payload_length : ℕ → ReaderM ℕ
read_payload_length version =
    if version == 1 then read_uint16 else if version == 2 then read_uint32 else pure 0

pub read_recipient : ℕ → ReaderM ℕ
read_recipient flags = if has_flag flags packet_flag_has_recipient then read_uint64 else pure 0

pub read_routes : ℕ → ℕ → ReaderM (List ℕ)
read_routes version flags =
    if (version == 2) && has_flag flags packet_flag_has_route
    then read_uint8 >>= read_route
    else pure []

-- `Base(type, version, reader)`. `packet_version` keeps its initial value.
pub read_base : ℕ → ℕ → ReaderM Base
unfolding new_base
read_base type version = do
  ttl ← read_uint8
  timestamp ← read_uint64
  flags ← read_uint8
  len ← read_payload_length version
  sender ← read_uint64
  recipient ← read_recipient flags
  routes ← read_routes version flags
  pure (record (new_base type) {
    packet_ttl = ttl;
    packet_timestamp_ms = timestamp;
    packet_flags = flags;
    payload_length = len;
    packet_sender_id = sender;
    packet_recipient_id = recipient;
    route_list = routes;
  })

abbrev pub signature_length : ℕ
signature_length = 64

pub store_signature : Base → Option (List ℕ) → Base
store_signature b (some sig_data) = record b { signature = sig_data }
store_signature b none = record b { signature = []; malformed = true }

-- `handleReaderRemainder`
unfoldable pub handle_reader_remainder : Base → ReaderM Base
handle_reader_remainder b =
    if not b.malformed && has_signature b
    then (read_data signature_length >>= λ sig. pure (store_signature b sig))
    else pure b

-- `getPacketHash` over the library's `std::hash<std::string>`.
pub get_packet_hash : (List ℕ → ℕ) → Base → ℕ
get_packet_hash hash b = hash (
    write_uint64 b.packet_recipient_id (
      write_uint64 b.packet_sender_id (
        write_uint64 b.packet_timestamp_ms
          (write_uint8 b.packet_flags (write_uint8 b.packet_type [])))))

-- The loop over `routeList`.
pub write_uint64s : List ℕ → List ℕ → List ℕ
write_uint64s [] out = out
write_uint64s (i ∷ rest) out = write_uint64s rest (write_uint64 i out)

unfoldable pub write_payload_length : Base → ℕ → List ℕ → List ℕ
write_payload_length b len out =
    if b.packet_version == 1
    then write_uint16 len out
    else if b.packet_version == 2
    then write_uint32 len out
    else out

unfoldable pub write_recipient : Base → List ℕ → List ℕ
write_recipient b out =
    if has_packet_recipient b then write_uint64 b.packet_recipient_id out else out

unfoldable pub write_routes : Base → List ℕ → List ℕ
write_routes b out =
    if (b.packet_version == 2) && has_packet_route b
    then write_uint64s b.route_list (write_uint8 (length b.route_list) out)
    else out

unfoldable pub write_signature : Base → List ℕ → List ℕ
write_signature b out =
    if has_signature b
    then write_data b.signature (length b.signature) (write_uint8 (length b.signature) out)
    else out

-- `writePacket` up to the call of `writePacketPayload`; `len` is what `getPayloadLength` returned.
unfoldable pub write_header : Base → ℕ → List ℕ → List ℕ
write_header b len out = write_routes b (
    write_recipient b (
      write_uint64 b.packet_sender_id (
        write_payload_length b len (
          write_uint8 b.packet_flags (
            write_uint64 b.packet_timestamp_ms (
              write_uint8 b.packet_ttl
                (write_uint8 b.packet_type (write_uint8 b.packet_version out))))))))

-- `writePacket`
unfoldable pub write_packet : Base → ℕ → (List ℕ → List ℕ) → List ℕ → List ℕ
write_packet b len write_packet_payload out =
    write_uint8 0 (write_signature b (write_packet_payload (write_header b len out)))

-- `variableLength`: the bytes of one type, length, value entry.
unfoldable pub variable_length : Base → ℕ → ℕ → ℕ
variable_length b type size =
    if (b.packet_type == type_announce) && (type == tlv_announce_direct_neighbors)
    then 2 + min 248 (size * 8) % 256
    else 2 + min 255 size % 256

-- `writeVariable`, an overload for each type of value.
pub write_variable_string : ℕ → List ℕ → List ℕ → List ℕ
write_variable_string type value out =
    let value_len = min 255 (length value) % 256 in
    write_data value value_len (write_uint8 value_len (write_uint8 type out))

pub write_variable_uint32 : ℕ → ℕ → List ℕ → List ℕ
write_variable_uint32 type value out = write_uint32 value (write_uint8 4 (write_uint8 type out))

pub write_variable_int32 : ℕ → ℕ → List ℕ → List ℕ
write_variable_int32 type value out = write_int32 value (write_uint8 4 (write_uint8 type out))

pub write_variable_uint8 : ℕ → ℕ → List ℕ → List ℕ
write_variable_uint8 type value out = write_uint8 value (write_uint8 1 (write_uint8 type out))

-- `if (cond) len += n;`
abbrev pub count_if : Bool → ℕ → ℕ
count_if cond n = if cond then n else 0

-- `if (cond) writeVariable(…);`
unfoldable pub write_if : Bool → (List ℕ → List ℕ) → List ℕ → List ℕ
write_if cond write out = if cond then write out else out
