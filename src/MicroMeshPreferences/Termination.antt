-- ===== src/MicroMeshPreferences/Termination.antt =====
-- `MicroMeshPreferences(version, reader)` of src/BLEPacket/MicroMeshPreferences.cpp ends on any bytes.
use ble_smoke_detector.Common.{ℕ, ◌+◌, ◌≤◌, ◌<◌, ◌≡◌, refl, arith, true, Option, ltb, lt→ltb, ◌==◌}
use ble_smoke_detector.PacketTypes.{
  type_micro_mesh_preferences, tlv_micro_mesh_preferences_latitude,
  tlv_micro_mesh_preferences_longitude, tlv_micro_mesh_preferences_altitude,
}
use ble_smoke_detector.BinaryReader.{
  BinaryReader, ◌>>=◌, pure, read_int32, read_data, read_remainder_len,
}
use ble_smoke_detector.BinaryReader.Steps.{
  HasBytes, HasBytes-Moves, Steps, Anything, Steps-pure, Steps-more, Steps-if, Steps-bind,
  Steps-read_int32, Steps-read_data,
}
use ble_smoke_detector.Base.{read_base}
use ble_smoke_detector.Base.Steps.{Steps-read_base}
use ble_smoke_detector.TlvLoop.Termination.{IsBounded, IsSafe, Returns, tlv_loop-total}
use ble_smoke_detector.MicroMeshPreferences.{
  MicroMeshPreferences, empty_preferences, malformed_preferences, store_data, read_number,
  read_value, preferences_tlv, read_signature, read_preferences,
}

Steps-number :
    (len : ℕ) (store : ℕ → MicroMeshPreferences) (x : MicroMeshPreferences)
    → Steps 256 Anything (read_number len store x)
Steps-number len store x =
    Steps-if Anything 256 (len == 4) _ _
      (Steps-more Anything (4 + 0) 256 _ (omega arith) (
        Steps-bind Anything Anything 4 0 read_int32 _ Steps-read_int32
          (λ v h. Steps-pure Anything (store v) tt)))
      (Steps-more Anything 0 256 _ (omega arith) (Steps-pure Anything (malformed_preferences x) tt))

Steps-read_value :
    (type len : ℕ) (x : MicroMeshPreferences)
    → len < 256
    → Steps 256 Anything (read_value type len x)
unfolding read_value
Steps-read_value type len x byte =
    Steps-if Anything 256 (type == tlv_micro_mesh_preferences_latitude) _ _ (Steps-number len _ x) (
      Steps-if Anything 256 (type == tlv_micro_mesh_preferences_longitude) _ _
        (Steps-number len _ x)
        (Steps-if Anything 256 (type == tlv_micro_mesh_preferences_altitude) _ _
          (Steps-number len _ x)
          (Steps-more Anything (len + 0) 256 _ (omega arith) (
            Steps-bind Anything Anything len 0 (read_data len) _ (Steps-read_data len)
              (λ bytes h. Steps-pure Anything (store_data type x bytes) tt)))))

past_end :
    (m : MicroMeshPreferences) (r : BinaryReader)
    → r.buffer_size < r.pos
    → (read_value 0 0 m r).0.base.malformed ≡ true
unfolding read_value store_data read_data ◌>>=◌ pure
past_end m r over =
    let e : ltb r.buffer_size (r.pos + 0) ≡ true = lt→ltb r.buffer_size (r.pos + 0) (omega arith) in
    rw e refl

pub preferences_tlv-IsBounded : IsBounded preferences_tlv
unfolding preferences_tlv
preferences_tlv-IsBounded = record { moves = Steps-read_value; past_end = past_end }

read_signature-Returns :
    (o : Option (MicroMeshPreferences × BinaryReader)) → Returns o → Returns (read_signature o)
unfolding read_signature
read_signature-Returns o (x, e) = rw e (_, refl)

-- On any bytes, from any position, with room for a header before the position would wrap, the
-- constructor returns preferences, malformed or not.
pub read_preferences-total :
    (version : ℕ) (r : BinaryReader)
    → HasBytes r
    → r.buffer_size ≤ 60000
    → r.pos ≤ 60000
    → Returns (read_preferences version r)
unfolding read_preferences
read_preferences-total version r bytes small room =
    let header =
      (Steps-read_base type_micro_mesh_preferences version).moves r bytes (omega arith) in
    let (b, r') = read_base type_micro_mesh_preferences version r in
    let size = header.buffer_size in
    let bound = header.bounded in
    let safe : IsSafe r' = record {
      bytes = HasBytes-Moves r r' header bytes;
      small = omega arith;
    } in
    read_signature-Returns _ (
      tlv_loop-total preferences_tlv preferences_tlv-IsBounded (read_remainder_len r').0
        (empty_preferences b) r' safe (omega arith))
