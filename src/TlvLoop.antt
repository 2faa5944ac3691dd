-- ===== src/TlvLoop.antt =====
-- The do-while loop over type, length, value entries that the constructors of Announce, Message and
-- MicroMeshPreferences (src/BLEPacket/Announce.cpp, Message.cpp, MicroMeshPreferences.cpp) share.
-- A class gives what differs: the chain of cases for one entry, and two methods of the packet.
-- A loop that is out of fuel answers `none`; TlvLoop/Termination shows when that cannot happen.
pub mod Run
pub mod Termination
use ble_smoke_detector.Common.{
  ℕ, zero, suc, ◌+◌, ◌-◌, ◌%◌, ◌^◌, Bool, true, false, Option, none, some, if◌then◌else◌, ltb,
}
use ble_smoke_detector.BinaryReader.{
  BinaryReader, ReaderM, ◌>>=◌, pure, read_uint8, read_remainder_len,
}

pub record TlvClass (A : Type 0) : Type 0 where
  -- The body of the loop behind the reads of `data_type` and `data_length`.
  pub read_value : ℕ → ℕ → A → ReaderM A
  pub is_malformed : A → Bool
  -- The method may store what it computes.
  pub get_payload_length : A → ℕ × A

module _ {A : Type 0} (c : TlvClass A) where
  pub tlv_round : A → ReaderM A
  tlv_round a = do
    data_type ← read_uint8
    data_length ← read_uint8
    c.read_value data_type data_length a

  -- `remainder > tail - getPayloadLength()`: the difference is a uint32_t.
  pub longer_than_payload : ℕ → ℕ → ℕ × A → Bool × A
  longer_than_payload tail remainder (len, a) = (ltb ((tail + 2 ^ 32 - len) % 2 ^ 32) remainder, a)

  -- The condition of the loop, with the packet after it.
  pub tlv_again : ℕ → A → ReaderM (Bool × A)
  tlv_again tail a = do
    remainder ← read_remainder_len
    pure (
        if c.is_malformed a
        then (false, a)
        else longer_than_payload tail remainder (c.get_payload_length a))

  -- Round the loop again, or out of it.
  pub next_round :
      (Bool × A) × BinaryReader
      → (A → BinaryReader → Option (A × BinaryReader))
      → Option (A × BinaryReader)
  next_round ((true, a), r) go_on = go_on a r
  next_round ((false, a), r) go_on = some (a, r)

  pub tlv_loop : ℕ → ℕ → A → BinaryReader → Option (A × BinaryReader)
  tlv_loop zero tail a r = none
  tlv_loop (suc fuel) tail a r =
      next_round ((tlv_round a >>= tlv_again tail) r) (tlv_loop fuel tail)

-- Every round takes two bytes at least, and the round that begins at the end of the buffer is the last.
unfoldable pub tlv_fuel : BinaryReader → ℕ
tlv_fuel r = suc (suc r.buffer_size)
