-- ===== src/Announce/Termination.antt =====
-- `Announce(version, reader)` of src/BLEPacket/Announce.cpp ends on any bytes.
use ble_smoke_detector.Common.{
  ℕ, zero, suc, ◌+◌, ◌*◌, ◌≤◌, ◌<◌, ◌≡◌, refl, arith, true, Option, ltb, lt→ltb, ◌==◌,
}
use ble_smoke_detector.PacketTypes.{
  type_announce, tlv_announce_location_latitude, tlv_announce_location_longitude,
  tlv_announce_location_altitude, tlv_announce_direct_neighbors,
}
use ble_smoke_detector.BinaryReader.{
  BinaryReader, ◌>>=◌, pure, read_int32, read_data, read_uint64, read_remainder_len,
}
use ble_smoke_detector.BinaryReader.Steps.{
  HasBytes, HasBytes-Moves, Steps, Anything, Steps-pure, Steps-more, Steps-if, Steps-bind,
  Steps-read_int32, Steps-read_data, Steps-read_uint64,
}
use ble_smoke_detector.Base.{read_base}
use ble_smoke_detector.Base.Steps.{Steps-read_base}
use ble_smoke_detector.TlvLoop.Termination.{IsBounded, IsSafe, Returns, tlv_loop-total}
use ble_smoke_detector.Announce.{
  Announce, empty_announce, malformed_announce, store_data, read_number, read_value, read_neighbors,
  neighbor_rounds, announce_tlv, read_signature, read_announce,
}

Steps-number :
    (len : ℕ) (store : ℕ → Announce) (x : Announce) → Steps 256 Anything (read_number len store x)
Steps-number len store x =
    Steps-if Anything 256 (len == 4) _ _
      (Steps-more Anything (4 + 0) 256 _ (omega arith) (
        Steps-bind Anything Anything 4 0 read_int32 _ Steps-read_int32
          (λ v h. Steps-pure Anything (store v) tt)))
      (Steps-more Anything 0 256 _ (omega arith) (Steps-pure Anything (malformed_announce x) tt))

Steps-read_neighbors :
    (rounds : ℕ) (x : Announce) → Steps (rounds * 8) Anything (read_neighbors rounds x)
unfolding read_neighbors
Steps-read_neighbors zero x = Steps-pure Anything x tt
Steps-read_neighbors (suc rounds) x =
    Steps-more Anything (8 + rounds * 8) (suc rounds * 8) _ (omega arith) (
      Steps-bind Anything Anything 8 (rounds * 8) read_uint64 _ Steps-read_uint64
        (λ v h. Steps-read_neighbors rounds _))

Steps-read_value :
    (type len : ℕ) (x : Announce) → len < 256 → Steps 256 Anything (read_value type len x)
unfolding read_value
Steps-read_value type len x byte =
    Steps-if Anything 256 (type == tlv_announce_location_latitude) _ _ (Steps-number len _ x) (
      Steps-if Anything 256 (type == tlv_announce_location_longitude) _ _ (Steps-number len _ x) (
        Steps-if Anything 256 (type == tlv_announce_location_altitude) _ _ (Steps-number len _ x) (
          Steps-if Anything 256 (type == tlv_announce_direct_neighbors) _ _
            (Steps-more Anything (neighbor_rounds len * 8) 256 _ (omega arith)
              (Steps-read_neighbors (neighbor_rounds len) x))
            (Steps-more Anything (len + 0) 256 _ (omega arith) (
              Steps-bind Anything Anything len 0 (read_data len) _ (Steps-read_data len)
                (λ bytes h. Steps-pure Anything (store_data type x bytes) tt))))))

past_end :
    (m : Announce) (r : BinaryReader)
    → r.buffer_size < r.pos
    → (read_value 0 0 m r).0.base.malformed ≡ true
unfolding read_value store_data read_data ◌>>=◌ pure
past_end m r over =
    let e : ltb r.buffer_size (r.pos + 0) ≡ true = lt→ltb r.buffer_size (r.pos + 0) (omega arith) in
    rw e refl

pub announce_tlv-IsBounded : IsBounded announce_tlv
unfolding announce_tlv
announce_tlv-IsBounded = record { moves = Steps-read_value; past_end = past_end }

read_signature-Returns :
    (o : Option (Announce × BinaryReader)) → Returns o → Returns (read_signature o)
unfolding read_signature
read_signature-Returns o (x, e) = rw e (_, refl)

-- On any bytes, from any position, with room for a header before the position would wrap, the
-- constructor returns an announcement, malformed or not.
pub read_announce-total :
    (version : ℕ) (r : BinaryReader)
    → HasBytes r
    → r.buffer_size ≤ 60000
    → r.pos ≤ 60000
    → Returns (read_announce version r)
unfolding read_announce
read_announce-total version r bytes small room =
    let header = (Steps-read_base type_announce version).moves r bytes (omega arith) in
    let (b, r') = read_base type_announce version r in
    let size = header.buffer_size in
    let bound = header.bounded in
    let safe : IsSafe r' = record {
      bytes = HasBytes-Moves r r' header bytes;
      small = omega arith;
    } in
    read_signature-Returns _ (
      tlv_loop-total announce_tlv announce_tlv-IsBounded (read_remainder_len r').0
        (empty_announce b) r' safe (omega arith))
