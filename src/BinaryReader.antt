-- ===== src/BinaryReader.antt =====
-- src/BLEPacket/BinaryReader.h and BinaryReader.cpp: big-endian reads from a byte buffer.
-- A read that would pass `buffer_size` returns 0 and still advances; `pos` is a uint16_t and wraps.
-- The buffer may be longer than `buffer_size` (it is memory); a list that is shorter reads as 0.
-- `int` arithmetic of the bound checks does not wrap at 16 bits, so neither does `pos + n` there.
pub mod Reads
pub mod Steps
use ble_smoke_detector.Common.{
  ℕ, zero, suc, ◌+◌, ◌-◌, ◌*◌, ◌/◌, ◌%◌, ◌^◌, Bool, true, false, Option, none, some, List, [], ◌∷◌,
  bit_or, ltb, if◌then◌else◌, get_or, take, drop,
}

pub record BinaryReader : Type 0 where
  pub offset : ℕ
  pub buffer : List ℕ
  pub buffer_size : ℕ
  pub pos : ℕ

-- A method that reads: a value and the reader after it.
abbrev pub ReaderM : Type 0 → Type 0
ReaderM A = BinaryReader → A × BinaryReader

infixl 5 ◌>>=◌
unfoldable pub ◌>>=◌ : {A B : Type 0} → ReaderM A → (A → ReaderM B) → ReaderM B
◌>>=◌ m f r = f (m r).0 (m r).1

unfoldable pub pure : {A : Type 0} → A → ReaderM A
pure a r = (a, r)

-- The constructor.
unfoldable pub start_at : ℕ → List ℕ → ℕ → BinaryReader
start_at offset buffer buffer_size = record {
  offset = offset;
  buffer = buffer;
  buffer_size = buffer_size;
  pos = offset;
}

-- `pos += n`, on a uint16_t.
abbrev pub advance : BinaryReader → ℕ → BinaryReader
advance r n = record r { pos = (r.pos + n) % 2 ^ 16 }

-- `buffer[pos + k]`
abbrev pub byte_at : BinaryReader → ℕ → ℕ
byte_at r k = get_or r.buffer (r.pos + k) 0

-- `hi << k | lo`
abbrev pub shl_or : ℕ → ℕ → ℕ → ℕ
shl_or hi k lo = bit_or (hi * 2 ^ k) lo

unfoldable pub read_uint8 : ReaderM ℕ
read_uint8 r =
    if ltb r.buffer_size (r.pos + 1) then (0, advance r 1) else (byte_at r 0, advance r 1)

unfoldable pub read_uint16 : ReaderM ℕ
read_uint16 r =
    if ltb r.buffer_size (r.pos + 2)
    then (0, advance r 2)
    else (shl_or (byte_at r 0) 8 (byte_at r 1), advance r 2)

-- The expression that read_int32 and read_uint32 share.
abbrev pub four_bytes : ℕ → ℕ → ℕ → ℕ → ℕ
four_bytes a b c d = bit_or (bit_or (bit_or (a * 2 ^ 24) (b * 2 ^ 16)) (c * 2 ^ 8)) d

-- An int32_t is its bit pattern.
unfoldable pub read_int32 : ReaderM ℕ
read_int32 r =
    if ltb r.buffer_size (r.pos + 4)
    then (0, advance r 4)
    else (four_bytes (byte_at r 0) (byte_at r 1) (byte_at r 2) (byte_at r 3), advance r 4)

unfoldable pub read_uint32 : ReaderM ℕ
read_uint32 r =
    if ltb r.buffer_size (r.pos + 4)
    then (0, advance r 4)
    else (four_bytes (byte_at r 0) (byte_at r 1) (byte_at r 2) (byte_at r 3), advance r 4)

abbrev pub eight_bytes : ℕ → ℕ → ℕ → ℕ → ℕ → ℕ → ℕ → ℕ → ℕ
eight_bytes a b c d e f g h =
    bit_or
      (bit_or
        (bit_or
          (bit_or (bit_or (bit_or (bit_or (a * 2 ^ 56) (b * 2 ^ 48)) (c * 2 ^ 40)) (d * 2 ^ 32))
            (e * 2 ^ 24))
          (f * 2 ^ 16))
        (g * 2 ^ 8))
      h

unfoldable pub read_uint64 : ReaderM ℕ
read_uint64 r = if ltb r.buffer_size (r.pos + 8) then (0, advance r 8) else (
  eight_bytes (byte_at r 0) (byte_at r 1) (byte_at r 2) (byte_at r 3) (byte_at r 4) (byte_at r 5)
      (byte_at r 6) (byte_at r 7),
  advance r 8,
)

-- `val` is an int that may be negative: 256 is added where it can be, since the result is a uint8_t.
unfoldable pub de_hexify : ℕ → ℕ
de_hexify nibble =
    if ltb (9 + 48) nibble
    then (if ltb (9 + 97) (10 + nibble)
        then (10 + nibble + 256 - 65) % 256
        else (10 + nibble + 256 - 97) % 256)
    else (nibble + 256 - 48) % 256

-- `buffer_size - pos` as a uint16_t: past the end it wraps.
unfoldable pub read_remainder_len : ReaderM ℕ
read_remainder_len r = ((r.buffer_size + 2 ^ 16 - r.pos) % 2 ^ 16, r)

-- `none` is the null pointer; otherwise the `len` bytes that the pointer is used for.
unfoldable pub read_data : ℕ → ReaderM (Option (List ℕ))
read_data len r =
    if ltb r.buffer_size (r.pos + len)
    then (none, advance r len)
    else (some (take len (drop r.pos r.buffer)), advance r len)
