-- ===== src/Message/Termination.antt =====
-- `Message(version, reader)` of src/BLEPacket/Message.cpp ends on any bytes.
use ble_smoke_detector.Common.{ℕ, ◌+◌, ◌≤◌, ◌<◌, ◌≡◌, refl, arith, true, Option, ltb, lt→ltb, ◌==◌}
use ble_smoke_detector.PacketTypes.{
  type_message, tlv_message_flags, tlv_message_reply_to_id, tlv_message_location_latitude,
  tlv_message_location_longitude, tlv_message_location_altitude,
}
use ble_smoke_detector.BinaryReader.{
  BinaryReader, ReaderM, ◌>>=◌, pure, read_uint8, read_uint32, read_int32, read_data,
  read_remainder_len,
}
use ble_smoke_detector.BinaryReader.Steps.{
  HasBytes, HasBytes-Moves, Steps, Anything, Steps-pure, Steps-more, Steps-if, Steps-bind,
  Steps-read_uint8, Steps-read_uint32, Steps-read_int32, Steps-read_data,
}
use ble_smoke_detector.Base.{read_base}
use ble_smoke_detector.Base.Steps.{Steps-read_base}
use ble_smoke_detector.TlvLoop.Termination.{IsBounded, IsSafe, Returns, tlv_loop-total}
use ble_smoke_detector.Message.{
  Message, empty_message, malformed_message, store_data, read_number, read_value, message_tlv,
  read_signature, read_message,
}

Steps-number :
    (n size len : ℕ) (read : ReaderM ℕ) (store : ℕ → Message) (m : Message)
    → n ≤ 256
    → Steps n Anything read
    → Steps 256 Anything (read_number size len read store m)
Steps-number n size len read store m fits s =
    Steps-if Anything 256 (len == size) _ _
      (Steps-more Anything (n + 0) 256 _ (omega arith)
        (Steps-bind Anything Anything n 0 read _ s (λ v h. Steps-pure Anything (store v) tt)))
      (Steps-more Anything 0 256 _ (omega arith) (Steps-pure Anything (malformed_message m) tt))

Steps-byte : Steps 1 Anything read_uint8
Steps-byte = record {
  moves = λ r bytes room. Steps-read_uint8.moves r bytes room;
  value = λ r bytes room. tt;
}

Steps-read_value :
    (type len : ℕ) (m : Message) → len < 256 → Steps 256 Anything (read_value type len m)
unfolding read_value
Steps-read_value type len m byte =
    Steps-if Anything 256 (type == tlv_message_flags) _ _
      (Steps-number 1 1 len read_uint8 _ m (omega arith) Steps-byte)
      (Steps-if Anything 256 (type == tlv_message_reply_to_id) _ _
        (Steps-number 4 4 len read_uint32 _ m (omega arith) Steps-read_uint32)
        (Steps-if Anything 256 (type == tlv_message_location_latitude) _ _
          (Steps-number 4 4 len read_int32 _ m (omega arith) Steps-read_int32)
          (Steps-if Anything 256 (type == tlv_message_location_longitude) _ _
            (Steps-number 4 4 len read_int32 _ m (omega arith) Steps-read_int32)
            (Steps-if Anything 256 (type == tlv_message_location_altitude) _ _
              (Steps-number 4 4 len read_int32 _ m (omega arith) Steps-read_int32)
              (Steps-more Anything (len + 0) 256 _ (omega arith) (
                Steps-bind Anything Anything len 0 (read_data len) _ (Steps-read_data len)
                  (λ bytes h. Steps-pure Anything (store_data type m bytes) tt)))))))

past_end :
    (m : Message) (r : BinaryReader)
    → r.buffer_size < r.pos
    → (read_value 0 0 m r).0.base.malformed ≡ true
unfolding read_value store_data read_data ◌>>=◌ pure
past_end m r over =
    let e : ltb r.buffer_size (r.pos + 0) ≡ true = lt→ltb r.buffer_size (r.pos + 0) (omega arith) in
    rw e refl

pub message_tlv-IsBounded : IsBounded message_tlv
unfolding message_tlv
message_tlv-IsBounded = record { moves = Steps-read_value; past_end = past_end }

read_signature-Returns :
    (o : Option (Message × BinaryReader)) → Returns o → Returns (read_signature o)
unfolding read_signature
read_signature-Returns o (x, e) = rw e (_, refl)

-- On any bytes, from any position, with room for a header before the position would wrap, the
-- constructor returns a message, malformed or not.
pub read_message-total :
    (version : ℕ) (r : BinaryReader)
    → HasBytes r
    → r.buffer_size ≤ 60000
    → r.pos ≤ 60000
    → Returns (read_message version r)
unfolding read_message
read_message-total version r bytes small room =
    let header = (Steps-read_base type_message version).moves r bytes (omega arith) in
    let (b, r') = read_base type_message version r in
    let size = header.buffer_size in
    let bound = header.bounded in
    let safe : IsSafe r' = record {
      bytes = HasBytes-Moves r r' header bytes;
      small = omega arith;
    } in
    read_signature-Returns _ (
      tlv_loop-total message_tlv message_tlv-IsBounded (read_remainder_len r').0 (empty_message b)
        r' safe (omega arith))
