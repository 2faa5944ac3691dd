-- ===== src/Base/Received.antt =====
-- A whole packet as its bytes: version, type, header, entries, and the zero padding byte.
use ble_smoke_detector.Common.{
  ℕ, suc, ◌+◌, ◌^◌, ◌≤◌, ◌<◌, ◌≡◌, refl, arith, false, some, List, [], ◌∷◌, ◌++◌, length,
  length-append,
}
use ble_smoke_detector.BinaryReader.{
  BinaryReader, start_at, advance, read_uint8, read_remainder_len,
}
use ble_smoke_detector.BinaryReader.Reads.{
  At, Reads-read_uint8, advance-At, read_remainder_len-At, bytes16, bytes64,
}
use ble_smoke_detector.BinaryWriter.Bytes.{write_uint8-eq}
use ble_smoke_detector.Base.{Base, has_signature, read_base, write_packet, write_signature}
use ble_smoke_detector.Base.Header.{
  IsWire, received_base, recipient_bytes, header_bytes, Reads-read_base, write_header-eq,
}
use ble_smoke_detector.TlvLoop.{TlvClass, tlv_loop, tlv_fuel}
use ble_smoke_detector.TlvLoop.Run.{Entry, Run, encode_entries, length-entries, tlv_loop-entries}
use mathlib.Core.List.{append_assoc}

abbrev pub packet_bytes : Base → ℕ → List Entry → List ℕ
packet_bytes b len es = 1 ∷ b.packet_type ∷ (header_bytes b len ++ (encode_entries es ++ (0 ∷ [])))

length-recipient_bytes : (b : Base) → length (recipient_bytes b) ≤ 8
unfolding recipient_bytes bytes64
length-recipient_bytes b = ground arith

pub length-header_bytes : (b : Base) (len : ℕ) → length (header_bytes b len) ≤ 28
unfolding bytes16 bytes64
length-header_bytes b len =
    omega (arith, length-append (recipient_bytes b) [], length-recipient_bytes b)

-- An unsigned packet is its header, its payload and one zero byte.
pub write_packet-eq :
    (b : Base) (len : ℕ) (es : List Entry) (payload : List ℕ → List ℕ) (out : List ℕ)
    → IsWire b
    → has_signature b ≡ false
    → ((o : List ℕ) → payload o ≡ o ++ encode_entries es)
    → write_packet b len payload out ≡ out ++ packet_bytes b len es
unfolding write_packet write_signature
write_packet-eq b len es payload out w unsigned written =
    rw unsigned (simp (write_uint8-eq, written, write_header-eq b len out w, append_assoc))

pub start-At :
    (bytes junk : List ℕ)
    → length bytes < 2 ^ 16
    → At (start_at 0 (bytes ++ junk) (length bytes)) bytes junk
unfolding start_at
start-At bytes junk h = record { fits = refl; sized = omega arith; small = h }

module _ {A : Type 0} (c : TlvClass A) (start : Base → A) (b : Base) (len : ℕ) (es : List Entry)
    (d : A) where
  -- The header and the loop of a constructor, on a reader behind the version and the type.
  pub received_loop :
      (r : BinaryReader) (junk : List ℕ)
      → IsWire b
      → len ≡ length (encode_entries es)
      → 0 < len
      → len + 1 < 2 ^ 16
      → Run c len es (start (received_base b len)) d
      → At r (header_bytes b len ++ (encode_entries es ++ (0 ∷ []))) junk
      → let (b', r') = read_base b.packet_type 1 r in
        (q : BinaryReader) × (tlv_loop c (tlv_fuel r') (read_remainder_len r').0 (start b') r'
          ≡ some (d, q))
  unfolding tlv_fuel
  received_loop r junk w counted some_bytes small run at =
      let r' = advance r (length (header_bytes b len)) in
      let behind : At r' (encode_entries es ++ (0 ∷ [])) junk =
        advance-At r (header_bytes b len) _ junk at in
      let tail : ℕ = length (encode_entries es ++ (0 ∷ [])) in
      let whole : tail ≡ len + 1 = omega (arith, length-append (encode_entries es) (0 ∷ [])) in
      rw ((Reads-read_base b len w (omega arith)).runs r _ junk at) (
        rw (read_remainder_len-At r' _ junk behind) (
          advance r' (length (encode_entries es)),
          tlv_loop-entries c len tail (suc r.buffer_size) es (start (received_base b len)) d r'
              (0 ∷ []) junk run (omega arith) whole (omega arith)
              (omega (arith, length-entries es, behind.sized, whole)) behind,
        ))

-- A reader at the start of a packet's bytes sees the version and the type, and then the header.
pub received_packet :
    (P : ℕ → BinaryReader → Type 0) (b : Base) (len : ℕ) (es : List Entry) (t : ℕ)
    → b.packet_type ≡ t
    → length (encode_entries es) ≤ 60000
    → (junk : List ℕ)
    → ((r : BinaryReader) (k : List ℕ)
        → At r (header_bytes b len ++ (encode_entries es ++ (0 ∷ []))) k
        → P 1 r)
    → let bytes = packet_bytes b len es in
      let (version, r) = read_uint8 (start_at 0 (bytes ++ junk) (length bytes)) in
      let (type, r') = read_uint8 r in (version ≡ 1) × (type ≡ t) × P version r'
received_packet P b len es t typed short junk read =
    let bytes = packet_bytes b len es in
    let body = header_bytes b len ++ (encode_entries es ++ (0 ∷ [])) in
    let r0 = start_at 0 (bytes ++ junk) (length bytes) in
    let at0 : At r0 bytes junk = start-At bytes junk (
      omega (
        arith,
        length-append (header_bytes b len) (encode_entries es ++ (0 ∷ [])),
        length-append (encode_entries es) (0 ∷ []),
        length-header_bytes b len,
      )) in
    let at1 : At (advance r0 1) (b.packet_type ∷ body) junk =
      advance-At r0 (1 ∷ []) (b.packet_type ∷ body) junk at0 in
    let at2 : At (advance (advance r0 1) 1) body junk =
      advance-At (advance r0 1) (b.packet_type ∷ []) body junk at1 in
    rw ((Reads-read_uint8 1).runs r0 (b.packet_type ∷ body) junk at0) (
      rw ((Reads-read_uint8 b.packet_type).runs (advance r0 1) body junk at1)
        (refl, typed, read (advance (advance r0 1) 1) junk at2))
