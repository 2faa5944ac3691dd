-- ===== src/Base/Header.antt =====
-- The header that `write_header` writes is the one that `read_base` reads back.
use ble_smoke_detector.Common.{
  ℕ, ◌%◌, ◌^◌, ◌<◌, ◌≡◌, refl, sym, arith, List, [], ◌∷◌, ◌++◌, if◌then◌else◌, Bool-cases, inl, inr,
}
use ble_smoke_detector.BinaryReader.Reads.{
  Reads, Reads-bind, Reads-pure, Reads-read_uint8, Reads-read_uint16, Reads-read_uint64, bytes16,
  bytes64,
}
use ble_smoke_detector.BinaryWriter.Bytes.{write_uint8-eq, write_uint16-eq, write_uint64-eq}
use ble_smoke_detector.Base.{
  Base, new_base, has_packet_recipient, read_base, read_recipient, read_payload_length, read_routes,
  write_header, write_recipient, write_payload_length, write_routes,
}
use mathlib.Core.List.{append_assoc, append-nil}

-- The fields of a packet fit their places, and it is a version 1 packet, as every packet is that the
-- constructors build.
pub record IsWire (b : Base) : Type 0 where
  pub version : b.packet_version ≡ 1
  pub type : b.packet_type < 256
  pub ttl : b.packet_ttl < 256
  pub timestamp : b.packet_timestamp_ms < 2 ^ 64
  pub flags : b.packet_flags < 256
  pub sender : b.packet_sender_id < 2 ^ 64
  pub recipient : b.packet_recipient_id < 2 ^ 64

-- The recipient that a reader of the packet sees.
abbrev pub wire_recipient : Base → ℕ
wire_recipient b = if has_packet_recipient b then b.packet_recipient_id else 0

-- What of a header goes over the wire, with `len` for the payload's length.
unfoldable pub received_base : Base → ℕ → Base
unfolding new_base
received_base b len = record (new_base b.packet_type) {
  packet_ttl = b.packet_ttl;
  packet_timestamp_ms = b.packet_timestamp_ms;
  packet_flags = b.packet_flags;
  payload_length = len;
  packet_sender_id = b.packet_sender_id;
  packet_recipient_id = wire_recipient b;
}

unfoldable pub recipient_bytes : Base → List ℕ
recipient_bytes b = if has_packet_recipient b then bytes64 b.packet_recipient_id else []

-- The bytes behind the version and the type.
abbrev pub header_bytes : Base → ℕ → List ℕ
header_bytes b len =
    (b.packet_ttl ∷ [])
    ++ (bytes64 b.packet_timestamp_ms
        ++ ((b.packet_flags ∷ [])
            ++ (bytes16 len ++ (bytes64 b.packet_sender_id ++ (recipient_bytes b ++ [])))))

Reads-read_recipient :
    (b : Base)
    → IsWire b
    → Reads (read_recipient b.packet_flags) (recipient_bytes b) (wire_recipient b)
unfolding read_recipient recipient_bytes
Reads-read_recipient b w = elim (Bool-cases (has_packet_recipient b)) [
  | inl e ↦ rw e (Reads-read_uint64 b.packet_recipient_id w.recipient)
  | inr e ↦ rw e (Reads-pure 0)
]

Reads-read_payload_length :
    (len : ℕ) → len < 2 ^ 16 → Reads (read_payload_length 1) (bytes16 len) len
unfolding read_payload_length
Reads-read_payload_length len h = Reads-read_uint16 len h

Reads-read_routes : (flags : ℕ) → Reads (read_routes 1 flags) [] []
unfolding read_routes
Reads-read_routes flags = Reads-pure []

pub Reads-read_base :
    (b : Base) (len : ℕ)
    → IsWire b
    → len < 2 ^ 16
    → Reads (read_base b.packet_type 1) (header_bytes b len) (received_base b len)
unfolding read_base received_base
Reads-read_base b len w h = Reads-bind _ (Reads-read_uint8 b.packet_ttl) (
    Reads-bind _ (Reads-read_uint64 b.packet_timestamp_ms w.timestamp) (
      Reads-bind _ (Reads-read_uint8 b.packet_flags) (
        Reads-bind _ (Reads-read_payload_length len h) (
          Reads-bind _ (Reads-read_uint64 b.packet_sender_id w.sender) (
            Reads-bind _ (Reads-read_recipient b w)
              (Reads-bind _ (Reads-read_routes b.packet_flags) (Reads-pure _)))))))

write_recipient-eq : (b : Base) (out : List ℕ) → write_recipient b out ≡ out ++ recipient_bytes b
unfolding write_recipient recipient_bytes
write_recipient-eq b out = elim (Bool-cases (has_packet_recipient b)) [
  | inl e ↦ rw e (write_uint64-eq b.packet_recipient_id out)
  | inr e ↦ rw e (sym (append-nil out))
]

write_payload_length-eq :
    (b : Base) (len : ℕ) (out : List ℕ)
    → b.packet_version ≡ 1
    → write_payload_length b len out ≡ out ++ bytes16 len
unfolding write_payload_length
write_payload_length-eq b len out e = rw e (write_uint16-eq len out)

write_routes-eq : (b : Base) (out : List ℕ) → b.packet_version ≡ 1 → write_routes b out ≡ out
unfolding write_routes
write_routes-eq b out e = rw e refl

byte_mod : (v : ℕ) → v < 256 → v % 256 ≡ v
byte_mod v h = omega arith

pub write_header-eq :
    (b : Base) (len : ℕ) (out : List ℕ)
    → IsWire b
    → write_header b len out ≡ out ++ (1 ∷ b.packet_type ∷ header_bytes b len)
unfolding write_header
write_header-eq b len out w = simp (
  write_routes-eq b _ w.version,
  write_recipient-eq,
  write_payload_length-eq b len _ w.version,
  write_uint64-eq,
  write_uint8-eq,
  byte_mod b.packet_type w.type,
  byte_mod b.packet_ttl w.ttl,
  byte_mod b.packet_flags w.flags,
  w.version,
  append-nil,
  append_assoc,
)
