-- ===== src/BinaryWriter.antt =====
-- src/BLEPacket/BinaryWriter.h and BinaryWriter.cpp: big-endian writes to the end of a byte vector.
-- The writer holds a reference to the vector; here each write takes the vector and returns it.
-- `reserve` changes no content and has no counterpart.
pub mod Bytes
pub mod Hex
use ble_smoke_detector.Common.{
  ℕ, ◌+◌, ◌-◌, ◌/◌, ◌%◌, ◌^◌, List, [], ◌∷◌, ◌++◌, bit_and, ltb, if◌then◌else◌, take, length,
}

-- `vector.push_back(b)`
abbrev pub push_back : ℕ → List ℕ → List ℕ
push_back b vector = vector ++ (b ∷ [])

-- `static_cast<uint8_t>(value >> k)`
abbrev pub cast_byte : ℕ → ℕ → ℕ
cast_byte value k = value / 2 ^ k % 256

-- `static_cast<uint8_t>(value >> k) & 0xFF`
abbrev pub mask_byte : ℕ → ℕ → ℕ
mask_byte value k = bit_and (value / 2 ^ k % 256) 0xff

unfoldable pub write_uint8 : ℕ → List ℕ → List ℕ
write_uint8 value vector = push_back (value % 256) vector

unfoldable pub write_uint16 : ℕ → List ℕ → List ℕ
write_uint16 value vector = push_back (mask_byte value 0) (push_back (cast_byte value 8) vector)

unfoldable pub write_uint32 : ℕ → List ℕ → List ℕ
write_uint32 value vector = push_back (mask_byte value 0) (
    push_back (mask_byte value 8)
      (push_back (mask_byte value 16) (push_back (mask_byte value 24) vector)))

unfoldable pub write_int32 : ℕ → List ℕ → List ℕ
write_int32 value vector = push_back (mask_byte value 0) (
    push_back (mask_byte value 8)
      (push_back (mask_byte value 16) (push_back (mask_byte value 24) vector)))

unfoldable pub write_uint64 : ℕ → List ℕ → List ℕ
write_uint64 value vector = push_back (mask_byte value 0) (
    push_back (mask_byte value 8) (
      push_back (mask_byte value 16) (
        push_back (mask_byte value 24) (
          push_back (mask_byte value 32) (
            push_back (mask_byte value 40)
              (push_back (mask_byte value 48) (push_back (cast_byte value 56) vector)))))))

-- Both overloads; every call passes a `len` of at most the size of `bytes`.
unfoldable pub write_data : List ℕ → ℕ → List ℕ → List ℕ
write_data bytes len vector = vector ++ take len bytes

unfoldable pub hexify : ℕ → ℕ
hexify nibble = if ltb nibble 10 then nibble + b'0' else nibble + (b'a' - 10)

unfoldable pub write_uint8_hex16 : ℕ → List ℕ → List ℕ
unfolding hexify
write_uint8_hex16 value vector =
    push_back (hexify (bit_and value 0xf)) (push_back (hexify (bit_and (value / 2 ^ 4) 0xf)) vector)
