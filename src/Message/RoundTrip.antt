-- ===== src/Message/RoundTrip.antt =====
-- A message that is written and read again.
use ble_smoke_detector.Common.{
  ℕ, ◌≤◌, ◌<◌, ◌≡◌, refl, ap, ◌∙◌, arith, Bool, true, false, none, some, List, [], ◌∷◌, ◌++◌,
  length, ltb, not, ◌==◌, is_empty,
}
use ble_smoke_detector.PacketTypes.{
  type_message, tlv_message_id, tlv_message_content, tlv_message_location_latitude,
  tlv_message_location_longitude, tlv_message_location_altitude, tlv_message_flags,
  tlv_message_reply_to_id, tlv_message_sender_nickname, tlv_message_channel_content,
  tlv_message_channel,
}
use ble_smoke_detector.BinaryReader.{BinaryReader, start_at, read_uint8, pure}
use ble_smoke_detector.BinaryReader.Reads.{At}
use ble_smoke_detector.Base.{
  Base, has_signature, set_payload_length, variable_length, count_if, handle_reader_remainder,
}
use ble_smoke_detector.Base.Header.{IsWire, received_base, header_bytes}
use ble_smoke_detector.Base.Received.{packet_bytes, write_packet-eq, received_loop, received_packet}
use ble_smoke_detector.TlvLoop.Run.{encode_entries}
use ble_smoke_detector.Message.{
  Message, empty_message, count_payload, text_length, get_payload_length, write_packet_payload,
  write_message, message_tlv, read_signature, read_message,
}
use ble_smoke_detector.Message.Wire.{Fits, entries, write_packet_payload-eq, count_payload-eq}
use ble_smoke_detector.Message.Loop.{entries-Run}

-- A message that the wire format can carry: its fields fit, it is not signed, its length is not
-- computed yet, and its payload is not empty.
pub record IsSendable (m : Message) : Type 0 where
  pub wire : IsWire m.base
  pub fits : Fits m
  pub unsigned : has_signature m.base ≡ false
  pub fresh : m.base.payload_length ≡ 0
  pub something : 0 < count_payload m

-- What the receiver of `m` holds.
unfoldable pub received_message : Message → Message
received_message m = record m { base = received_base m.base (count_payload m); sender_peer = none }

variable_length-le : (b : Base) (t size : ℕ) → variable_length b t size ≤ 257
unfolding variable_length
variable_length-le b t size = ground arith

count_if-le : (cond : Bool) (n k : ℕ) → n ≤ k → count_if cond n ≤ k
count_if-le true n k h = h
count_if-le false n k h = omega arith

text_length-le : (m : Message) → text_length m ≤ 514
unfolding text_length
text_length-le m = ground (
  arith,
  variable_length-le m.base tlv_message_channel (length m.channel),
  variable_length-le m.base tlv_message_channel_content (length m.content),
  variable_length-le m.base tlv_message_content (length m.content),
)

count_payload-le : (m : Message) → count_payload m ≤ 2313
unfolding count_payload
count_payload-le m = omega (
  arith,
  count_if-le (not (is_empty m.message_id)) _ 257
      (variable_length-le m.base tlv_message_id (length m.message_id)),
  count_if-le (not (is_empty m.sender_nickname)) _ 257
      (variable_length-le m.base tlv_message_sender_nickname (length m.sender_nickname)),
  text_length-le m,
  count_if-le (ltb 0 m.message_flags) _ 257 (variable_length-le m.base tlv_message_flags 1),
  count_if-le (ltb 0 m.reply_id) _ 257 (variable_length-le m.base tlv_message_reply_to_id 4),
  count_if-le (not (m.latitude_i == 0)) _ 257
      (variable_length-le m.base tlv_message_location_latitude 4),
  count_if-le (not (m.longitude_i == 0)) _ 257
      (variable_length-le m.base tlv_message_location_longitude 4),
  count_if-le (not (m.altitude == 0)) _ 257
      (variable_length-le m.base tlv_message_location_altitude 4),
)

module _ (m : Message) (s : IsSendable m) where
  len : ℕ
  len = count_payload m

  -- The message with its length, as `writePacket` sees it.
  measured : Message
  unfolding len
  measured = record m { base = set_payload_length len m.base }

  measured_lem : get_payload_length m ≡ (len, measured)
  unfolding get_payload_length measured
  measured_lem = let e : m.base.payload_length ≡ 0 = s.fresh in rw e refl

  measured-Fits : Fits measured
  unfolding measured
  measured-Fits = record {
    type = s.fits.type;
    message_id = s.fits.message_id;
    sender_nickname = s.fits.sender_nickname;
    content = s.fits.content;
    channel = s.fits.channel;
    message_flags = s.fits.message_flags;
    reply_id = s.fits.reply_id;
    latitude_i = s.fits.latitude_i;
    longitude_i = s.fits.longitude_i;
    altitude = s.fits.altitude;
    spoken = s.fits.spoken;
  }

  measured-IsWire : IsWire measured.base
  unfolding measured
  measured-IsWire = record {
    version = s.wire.version;
    type = s.wire.type;
    ttl = s.wire.ttl;
    timestamp = s.wire.timestamp;
    flags = s.wire.flags;
    sender = s.wire.sender;
    recipient = s.wire.recipient;
  }

  -- The bytes of a message.
  write_message-eq :
      (out : List ℕ)
      → (write_message m out).0 ≡ out ++ packet_bytes measured.base len (entries measured)
  unfolding write_message
  write_message-eq out = rw measured_lem (
      write_packet-eq measured.base len (entries measured) (write_packet_payload measured) out
        measured-IsWire (unfold measured in s.unsigned)
        (λ o. write_packet_payload-eq measured o measured-Fits))

  counted : len ≡ length (encode_entries (entries measured))
  unfolding len measured entries
  counted = count_payload-eq m s.fits

  same_header : received_base measured.base len ≡ received_base m.base (count_payload m)
  unfolding received_base measured len
  same_header = refl

  stored : Message
  unfolding measured
  stored = record measured { base = received_base measured.base len; sender_peer = none }

  stored_lem : stored ≡ received_message m
  unfolding stored received_message len received_base
  stored_lem = refl

  signature_skipped : (q : BinaryReader) → read_signature (some (stored, q)) ≡ some (stored, q)
  unfolding read_signature handle_reader_remainder stored received_base pure
  signature_skipped q = rw s.unsigned refl

  read_behind_type :
      (r : BinaryReader) (junk : List ℕ)
      → At r
          (header_bytes measured.base len ++ (encode_entries (entries measured) ++ (0 ∷ [])))
          junk
      → (q : BinaryReader) × (read_message 1 r ≡ some (received_message m, q))
  unfolding read_message len
  read_behind_type r junk at =
      let run =
        entries-Run (received_base measured.base len) len (unfold received_base in refl)
          (unfold received_base in refl) s.something measured measured-Fits in
      let (q, e) =
        received_loop message_tlv empty_message measured.base len (entries measured) stored r junk
          measured-IsWire counted s.something (omega (arith, count_payload-le m))
          (unfold stored in run) at in
      let typed : measured.base.packet_type ≡ type_message = measured-Fits.type in
      let loop = (rw typed at e) in
      (q, ap read_signature loop ∙ signature_skipped q ∙ ap (λ d. some (d, q)) stored_lem)

  -- Any sendable message that is written and then read from the bytes, with any memory behind them,
  -- is read as version 1, as a message, and with every field that the wire format carries.
  pub read_message-write_message :
      (junk : List ℕ)
      → let bytes = (write_message m []).0 in
        let (version, r) = read_uint8 (start_at 0 (bytes ++ junk) (length bytes)) in
        let (type, r') = read_uint8 r in
        (version ≡ 1)
        × (type ≡ type_message)
        × ((q : BinaryReader) × (read_message version r' ≡ some (received_message m, q)))
  read_message-write_message junk = rw (write_message-eq []) (
      received_packet
        (λ version r. (q : BinaryReader) × (read_message version r ≡ some (received_message m, q)))
        measured.base len (entries measured) type_message measured-Fits.type
        (omega (arith, counted, count_payload-le m, small)) junk read_behind_type)
    where
      small : len ≤ 2313
      small = unfold len in count_payload-le m
