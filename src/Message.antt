-- ===== src/Message.antt =====
-- src/BLEPacket/Message.h and Message.cpp: a text message.
pub mod Wire
pub mod Loop
pub mod RoundTrip
pub mod Termination
use ble_smoke_detector.Common.{
  ℕ, suc, ◌+◌, ◌-◌, Bool, true, false, ◌&&◌, not, Option, none, some, List, [], ◌∷◌, ◌==◌, ltb,
  if◌then◌else◌, length, is_empty, bit_or, bit_and,
}
use ble_smoke_detector.PacketTypes.{
  type_message, tlv_message_id, tlv_message_content, tlv_message_location_latitude,
  tlv_message_location_longitude, tlv_message_location_altitude, tlv_message_flags,
  tlv_message_reply_to_id, tlv_message_sender_nickname, tlv_message_channel_content,
  tlv_message_channel, message_flag_emoji,
}
use ble_smoke_detector.BinaryReader.{
  BinaryReader, ReaderM, ◌>>=◌, pure, read_uint8, read_int32, read_uint32, read_data,
  read_remainder_len,
}
use ble_smoke_detector.Base.{
  Base, new_base, new_base_with, read_base, handle_reader_remainder, variable_length, write_packet,
  write_variable_string, write_variable_uint32, write_variable_int32, write_variable_uint8,
  set_malformed, set_payload_length, count_if, write_if,
}
use ble_smoke_detector.TlvLoop.{TlvClass, tlv_loop, tlv_fuel}

pub record Message : Type 0 where
  pub base : Base
  pub message_id : List ℕ
  pub sender_nickname : List ℕ
  pub content : List ℕ
  pub reply_id : ℕ
  pub message_flags : ℕ
  pub sender_peer : Option ℕ
  pub channel : List ℕ
  pub latitude_i : ℕ
  pub longitude_i : ℕ
  pub altitude : ℕ

-- A message around a header, with the fields' initial values.
unfoldable pub empty_message : Base → Message
empty_message b = record {
  base = b;
  message_id = [];
  sender_nickname = [];
  content = [];
  reply_id = 0;
  message_flags = 0;
  sender_peer = none;
  channel = [];
  latitude_i = 0;
  longitude_i = 0;
  altitude = 0;
}

-- `Message(ttl, timestamp, packet_flags, sender, recipient)`
unfoldable pub new_message : ℕ → ℕ → ℕ → ℕ → ℕ → Message
unfolding empty_message new_base_with
new_message ttl timestamp flags sender recipient =
    empty_message (new_base_with type_message ttl timestamp flags sender recipient)

abbrev pub set_message_id : List ℕ → Message → Message
set_message_id string m = record m { message_id = string }

abbrev pub set_sender_nickname : List ℕ → Message → Message
set_sender_nickname string m = record m { sender_nickname = string }

-- The payload's length is computed again.
abbrev pub set_content : List ℕ → Message → Message
set_content string m = record m { content = string; base = set_payload_length 0 m.base }

abbrev pub set_channel : List ℕ → Message → Message
set_channel string m = record m { channel = string }

abbrev pub set_reply_id : ℕ → Message → Message
set_reply_id reply_to_id m = record m { reply_id = reply_to_id }

pub set_emoji : Bool → Message → Message
set_emoji cond m = record m {
  message_flags =
      if cond
      then bit_or m.message_flags message_flag_emoji
      else bit_and m.message_flags (255 - message_flag_emoji);
}

abbrev pub set_latitude_i : ℕ → Message → Message
set_latitude_i value m = record m { latitude_i = value }

abbrev pub set_longitude_i : ℕ → Message → Message
set_longitude_i value m = record m { longitude_i = value }

abbrev pub set_altitude : ℕ → Message → Message
set_altitude value m = record m { altitude = value }

abbrev pub malformed_message : Message → Message
malformed_message m = record m { base = set_malformed true m.base }

unfoldable pub text_length : Message → ℕ
text_length m =
    if not (is_empty m.channel)
    then (variable_length m.base tlv_message_channel (length m.channel)
        + count_if (not (is_empty m.content))
            (variable_length m.base tlv_message_channel_content (length m.content)))
    else count_if (not (is_empty m.content))
        (variable_length m.base tlv_message_content (length m.content))

-- What `getPayloadLength` adds up. At most 9 entries of 257 bytes: the uint32_t does not wrap.
unfoldable pub count_payload : Message → ℕ
count_payload m =
    count_if (not (is_empty m.message_id))
      (variable_length m.base tlv_message_id (length m.message_id))
    + count_if (not (is_empty m.sender_nickname))
        (variable_length m.base tlv_message_sender_nickname (length m.sender_nickname))
    + text_length m
    + count_if (ltb 0 m.message_flags) (variable_length m.base tlv_message_flags 1)
    + count_if (ltb 0 m.reply_id) (variable_length m.base tlv_message_reply_to_id 4)
    + count_if (not (m.latitude_i == 0)) (variable_length m.base tlv_message_location_latitude 4)
    + count_if (not (m.longitude_i == 0)) (variable_length m.base tlv_message_location_longitude 4)
    + count_if (not (m.altitude == 0)) (variable_length m.base tlv_message_location_altitude 4)

-- `getPayloadLength`: a length that is known is not computed again.
unfoldable pub get_payload_length : Message → ℕ × Message
get_payload_length m =
    if ltb 0 m.base.payload_length
    then (m.base.payload_length, m)
    else (count_payload m, record m { base = set_payload_length (count_payload m) m.base })

pub write_text : Message → List ℕ → List ℕ
write_text m out =
    if not (is_empty m.channel) && not (is_empty m.content)
    then write_variable_string tlv_message_channel_content m.content
        (write_variable_string tlv_message_channel m.channel out)
    else if not (is_empty m.content)
    then write_variable_string tlv_message_content m.content out
    else out

-- `writePacketPayload`
pub write_packet_payload : Message → List ℕ → List ℕ
write_packet_payload m out =
    write_if (not (m.altitude == 0)) (write_variable_int32 tlv_message_location_altitude m.altitude)
      (write_if (not (m.longitude_i == 0))
        (write_variable_int32 tlv_message_location_longitude m.longitude_i)
        (write_if (not (m.latitude_i == 0))
          (write_variable_int32 tlv_message_location_latitude m.latitude_i)
          (write_if (ltb 0 m.reply_id) (write_variable_uint32 tlv_message_reply_to_id m.reply_id) (
            write_if (ltb 0 m.message_flags)
              (write_variable_uint8 tlv_message_flags m.message_flags)
              (write_text m (
                write_if (not (is_empty m.sender_nickname))
                  (write_variable_string tlv_message_sender_nickname m.sender_nickname)
                  (write_if (not (is_empty m.message_id))
                    (write_variable_string tlv_message_id m.message_id) out)))))))

-- `writePacket` of a message: the bytes, and the message with the length that it computed.
unfoldable pub write_message : Message → List ℕ → List ℕ × Message
unfolding get_payload_length write_packet
write_message m out =
    let (len, m') = get_payload_length m in
    (write_packet m'.base len (write_packet_payload m') out, m')

-- The `switch` on an entry whose value is kept as it is.
pub store_data : ℕ → Message → Option (List ℕ) → Message
store_data type m none = malformed_message m
store_data type m (some bytes) =
    if type == tlv_message_id
    then record m { message_id = bytes }
    else if type == tlv_message_content
    then record m { content = bytes }
    else if type == tlv_message_sender_nickname
    then record m { sender_nickname = bytes }
    else if type == tlv_message_channel
    then record m { channel = bytes }
    else if type == tlv_message_channel_content
    then record m { content = bytes }
    else m

-- An entry with a number: its length must be `size`.
abbrev pub read_number : ℕ → ℕ → ReaderM ℕ → (ℕ → Message) → Message → ReaderM Message
read_number size len read store m =
    if len == size then (read >>= λ value. pure (store value)) else pure (malformed_message m)

-- The cases of the constructor's loop.
pub read_value : ℕ → ℕ → Message → ReaderM Message
unfolding store_data
read_value type len m =
    if type == tlv_message_flags
    then read_number 1 len read_uint8 (λ v. record m { message_flags = v }) m
    else if type == tlv_message_reply_to_id
    then read_number 4 len read_uint32 (λ v. record m { reply_id = v }) m
    else if type == tlv_message_location_latitude
    then read_number 4 len read_int32 (λ v. record m { latitude_i = v }) m
    else if type == tlv_message_location_longitude
    then read_number 4 len read_int32 (λ v. record m { longitude_i = v }) m
    else if type == tlv_message_location_altitude
    then read_number 4 len read_int32 (λ v. record m { altitude = v }) m
    else read_data len >>= λ bytes. pure (store_data type m bytes)

unfoldable pub message_tlv : TlvClass Message
unfolding read_value get_payload_length
message_tlv = record {
  read_value = read_value;
  is_malformed = λ m. m.base.malformed;
  get_payload_length = get_payload_length;
}

pub read_signature : Option (Message × BinaryReader) → Option (Message × BinaryReader)
unfolding handle_reader_remainder
read_signature none = none
read_signature (some (m, r)) =
    let (b, r') = handle_reader_remainder m.base r in some (record m { base = b }, r')

-- `Message(version, reader)`; `none` means that the loop ran out of fuel.
unfoldable pub read_message : ℕ → BinaryReader → Option (Message × BinaryReader)
unfolding empty_message read_signature message_tlv
read_message version r =
    let (b, r') = read_base type_message version r in
    read_signature
      (tlv_loop message_tlv (tlv_fuel r') (read_remainder_len r').0 (empty_message b) r')
