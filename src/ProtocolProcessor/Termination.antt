-- ===== src/ProtocolProcessor/Termination.antt =====
-- `processWrite` of src/BLEPacket/ProtocolProcessor.cpp returns on whatever a neighbour writes.
use ble_smoke_detector.Common.{
  ℕ, ◌≤◌, ◌<◌, refl, arith, ◌||◌, Option, List, ◌==◌, ltb, get_or, Bool-cases, inl, inr,
}
use ble_smoke_detector.PacketTypes.{type_announce, type_message, type_micro_mesh_preferences}
use ble_smoke_detector.BinaryReader.{BinaryReader, start_at, read_uint8}
use ble_smoke_detector.BinaryReader.Steps.{
  Moves, HasBytes, HasBytes-Moves, Moves-trans, Steps-read_uint8,
}
use ble_smoke_detector.TlvLoop.Termination.{Returns}
use ble_smoke_detector.Announce.{Announce}
use ble_smoke_detector.Announce.Termination.{read_announce-total}
use ble_smoke_detector.Message.{Message}
use ble_smoke_detector.Message.Termination.{read_message-total}
use ble_smoke_detector.MicroMeshPreferences.{MicroMeshPreferences}
use ble_smoke_detector.MicroMeshPreferences.Termination.{read_preferences-total}
use ble_smoke_detector.BleConnection.{BleConnection}
use ble_smoke_detector.BleConnectionTracker.{BleConnectionTracker}
use ble_smoke_detector.ProtocolProcessor.{
  announce_outcome, message_outcome, preferences_outcome, dispatch, process_write,
}

module _ (hash : List ℕ → ℕ) (time_us my_sender_id : ℕ) (c : BleConnection) where
  announce_outcome-Returns :
      (t : BleConnectionTracker) (o : Option (Announce × BinaryReader))
      → Returns o
      → Returns (announce_outcome hash time_us c.connection_handle t o)
  unfolding announce_outcome
  announce_outcome-Returns t o (x, e) = rw e (_, refl)

  message_outcome-Returns :
      (t : BleConnectionTracker) (o : Option (Message × BinaryReader))
      → Returns o
      → Returns (message_outcome c.connection_handle t o)
  unfolding message_outcome
  message_outcome-Returns t o (x, e) = rw e (_, refl)

  preferences_outcome-Returns :
      (t : BleConnectionTracker) (o : Option (MicroMeshPreferences × BinaryReader))
      → Returns o
      → Returns (preferences_outcome my_sender_id t o)
  unfolding preferences_outcome
  preferences_outcome-Returns t o (x, e) = rw e (_, refl)

  dispatch-Returns :
      (version type : ℕ) (r : BinaryReader) (t : BleConnectionTracker)
      → HasBytes r
      → r.buffer_size ≤ 60000
      → r.pos ≤ 60000
      → Returns (dispatch hash time_us my_sender_id c version type r t)
  unfolding dispatch
  dispatch-Returns version type r t bytes small room = elim (Bool-cases (type == type_announce)) [
    | inl a ↦ rw a (announce_outcome-Returns t _ (read_announce-total version r bytes small room))
    | inr not_a ↦ rw not_a (elim (Bool-cases (type == type_message)) [
      | inl m ↦ rw m (message_outcome-Returns t _ (read_message-total version r bytes small room))
      | inr not_m ↦ rw not_m (elim (Bool-cases (type == type_micro_mesh_preferences)) [
        | inl p ↦
            rw p
              (preferences_outcome-Returns t _ (read_preferences-total version r bytes small room))
        | inr not_p ↦ rw not_p (_, refl)
      ])
    ])
  ]

  -- Whatever bytes a neighbour writes, of at most 60000 bytes and from an offset of at most 50000, they
  -- are processed to an end: no loop over a packet goes on for ever.
  pub process_write-total :
      (offset : ℕ) (buffer : List ℕ) (buffer_size : ℕ) (t : BleConnectionTracker)
      → ((i : ℕ) → get_or buffer i 0 < 256)
      → buffer_size ≤ 60000
      → offset ≤ 50000
      → Returns (process_write hash time_us my_sender_id c offset buffer buffer_size t)
  unfolding process_write start_at
  process_write-total offset buffer buffer_size t bytes small room =
      let r = start_at offset buffer buffer_size in
      let (version, r1) = read_uint8 r in
      let (type, r2) = read_uint8 r1 in
      let first : Moves 1 r r1 = Steps-read_uint8.moves r bytes (omega arith) in
      let bound = first.bounded in
      let bytes1 = HasBytes-Moves r r1 first bytes in
      let both : Moves 2 r r2 =
        Moves-trans 1 1 r r1 r2 first (Steps-read_uint8.moves r1 bytes1 (omega arith)) in
      let bound2 = both.bounded in
      let size = both.buffer_size in
      elim (Bool-cases (ltb version 1 || ltb 2 version)) [
        | inl unknown ↦ rw unknown (_, refl)
        | inr known ↦ rw known (
            dispatch-Returns version type r2 t (HasBytes-Moves r r2 both bytes) (omega arith)
              (omega arith))
      ]
