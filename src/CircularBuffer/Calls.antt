-- ===== src/CircularBuffer/Calls.antt =====
-- A program that makes a ring of src/BLEPacket/CircularBuffer.h and calls it, as src/BLEPacket/Debugging.cpp
-- does: it writes strings and takes lines.
use ble_smoke_detector.Common.{ℕ, ◌≤◌, ◌<◌, ◌^◌, List}
use ble_smoke_detector.CircularBuffer.{
  CircularBuffer, new_buffer, write, write_items, clear, clear_if_empty, consume, consume_block,
  consume_block_into, consume_line, count_items,
}
use ble_smoke_detector.CircularBuffer.Invariant.{
  InRing, new_buffer-InRing, write-InRing, write_items-InRing, clear-InRing, clear_if_empty-InRing,
  consume-InRing, consume_block-InRing, consume_block_into-InRing, consume_line-InRing,
}

-- The calls of a program, one after the other. The count of the items that are written is a uint16_t.
pub data Call : CircularBuffer → CircularBuffer → Type 0 where
  writes : (b : CircularBuffer) (item : ℕ) → Call b (write b item)
  writes_all :
      (b : CircularBuffer) (items : List ℕ)
      → count_items items < 2 ^ 16
      → Call b (write_items b items)
  clears : (b : CircularBuffer) → Call b (clear b)
  clears_if_empty : (b : CircularBuffer) → Call b (clear_if_empty b)
  consumes : (b : CircularBuffer) → Call b (consume b).1
  consumes_block : (b : CircularBuffer) → Call b (consume_block b).1
  consumes_into : (size : ℕ) (b : CircularBuffer) → Call b (consume_block_into size b).1
  consumes_line : (line_size : ℕ) (b : CircularBuffer) → Call b (consume_line line_size b).1

-- The states of a program that makes a ring and calls it.
pub data Reached (size : ℕ) : CircularBuffer → Type 0 where
  made : Reached size (new_buffer size)
  called : {b b' : CircularBuffer} → Reached size b → Call b b' → Reached size b'

Call-InRing : {b b' : CircularBuffer} → Call b b' → InRing b → InRing b'
Call-InRing (writes b item) ring = write-InRing b ring item
Call-InRing (writes_all b items short) ring = write_items-InRing b ring items
Call-InRing (clears b) ring = clear-InRing b ring
Call-InRing (clears_if_empty b) ring = clear_if_empty-InRing b ring
Call-InRing (consumes b) ring = consume-InRing b ring
Call-InRing (consumes_block b) ring = consume_block-InRing b ring
Call-InRing (consumes_into size b) ring = consume_block_into-InRing b ring size
Call-InRing (consumes_line line_size b) ring = consume_line-InRing b ring line_size

-- In every state that a program reaches by any calls of a ring of two places or more, `head` and `tail` are
-- inside the ring, the array has one place more than the ring, and where `maxed` is set `head` stands on the
-- place before `tail`; strings that are written at once have fewer than 2 ^ 16 characters.
pub Reached-InRing : {size : ℕ} {b : CircularBuffer} → Reached size b → 2 ≤ size → InRing b
Reached-InRing made h = new_buffer-InRing _ h
Reached-InRing (called before call) h = Call-InRing call (Reached-InRing before h)
