-- ===== src/Tests/Ring.antt =====
-- A ring of four places at work.
use ble_smoke_detector.Common.{
  ◌+◌, ◌≤◌, ◌<◌, ◌≡◌, refl, arith, true, false, ◌&&◌, [], ◌∷◌, ◌++◌, ◌==◌, if◌then◌else◌, length,
  some, min, drop,
}
use ble_smoke_detector.CircularBuffer.{
  CircularBuffer, new_buffer, empty, write, write_items, write_loop, write_end, consume,
  consume_block, consume_block_into, find_line_end, consume_line,
}
use ble_smoke_detector.CircularBuffer.Line.{contents-consume_line}
use ble_smoke_detector.CircularBuffer.Queue.{IsRing, contents, contents-write}
use ble_smoke_detector.CircularBuffer.Invariant.{InRing}
use ble_smoke_detector.CircularBuffer.Calls.{
  Reached, made, called, writes, writes_all, consumes_line, Reached-InRing,
}
use ble_smoke_detector.CircularBuffer.Order.{
  ReachedInOrder, made, called, writes, writes_all, consumes_line, ReachedInOrder-IsRing,
}
use ble_smoke_detector.CircularBuffer.Blocks.{
  contents-consume, contents-consume_block, contents-consume_block_into,
}

-- Items 68, 65 and 66, round the end of the ring.
abbrev round_ring : CircularBuffer
round_ring = record {
  buffer = 65 ∷ 66 ∷ 0 ∷ 68 ∷ 0 ∷ [];
  fixed_size = 4;
  head = 2;
  tail = 3;
  maxed = true;
  will_clear_if_empty = false;
}

round_ring-IsRing : IsRing round_ring
round_ring-IsRing = record {
  two = omega arith;
  room = refl;
  head_in = omega arith;
  tail_in = omega arith;
  flag = refl;
}

contents-write_example : contents (write round_ring 70) ≡ (
    if (2 + 1 == 4) && (3 == 0)
    then []
    else (if true then drop 1 (contents round_ring) else contents round_ring) ++ (70 ∷ []))
contents-write_example = contents-write round_ring 70 round_ring-IsRing

-- A string is written behind an item, and a line is asked for.
abbrev used_ring : CircularBuffer
used_ring = (consume_line 2 (write_items (write (new_buffer 4) 65) (66 ∷ 10 ∷ []))).1

used_ring-Reached : Reached 4 used_ring
used_ring-Reached =
    called (called (called made (writes _ 65)) (writes_all _ (66 ∷ 10 ∷ []) (omega arith)))
      (consumes_line 2 _)

Reached-InRing_example : InRing used_ring
Reached-InRing_example = Reached-InRing used_ring-Reached (omega arith)

found_at_2 :
    let b = write_items (write (new_buffer 4) 65) (66 ∷ 10 ∷ []) in
    find_line_end (drop b.tail b.buffer) ≡ some 2
unfolding find_line_end write_items write_loop write_end write new_buffer
found_at_2 = refl

used_ring-ReachedInOrder : ReachedInOrder 4 used_ring
used_ring-ReachedInOrder =
    called (called (called made (writes _ 65)) (writes_all _ (66 ∷ 10 ∷ []) (omega arith)))
      (consumes_line 2 2 _ (omega arith) found_at_2)

ReachedInOrder-IsRing_example : IsRing used_ring
ReachedInOrder-IsRing_example = ReachedInOrder-IsRing used_ring-ReachedInOrder (omega arith)

contents-consume_example :
    contents round_ring
    ≡ (if empty round_ring then [] else (consume round_ring).0 ∷ contents (consume round_ring).1)
contents-consume_example = contents-consume round_ring round_ring-IsRing

contents-consume_block_example :
    (consume_block round_ring).0 ++ contents (consume_block round_ring).1 ≡ contents round_ring
contents-consume_block_example = contents-consume_block round_ring round_ring-IsRing

contents-consume_block_into_example :
    ((consume_block_into 2 round_ring).0 ++ contents (consume_block_into 2 round_ring).1
      ≡ contents round_ring)
    × ((length (consume_block_into 2 round_ring).0 ≤ 2)
        × (0 < 2 → empty round_ring ≡ false → 0 < length (consume_block_into 2 round_ring).0))
contents-consume_block_into_example = contents-consume_block_into round_ring round_ring-IsRing 2

-- Two letters and the end of a line, and a letter of the next one.
abbrev line_ring : CircularBuffer
line_ring = record {
  buffer = 65 ∷ 66 ∷ 10 ∷ 67 ∷ 0 ∷ 0 ∷ 0 ∷ [];
  fixed_size = 6;
  head = 4;
  tail = 0;
  maxed = false;
  will_clear_if_empty = false;
}

line_ring-IsRing : IsRing line_ring
line_ring-IsRing = record {
  two = omega arith;
  room = refl;
  head_in = omega arith;
  tail_in = omega arith;
  flag = refl;
}

line_found : find_line_end (65 ∷ 66 ∷ 10 ∷ 67 ∷ 0 ∷ 0 ∷ 0 ∷ []) ≡ some 2
unfolding find_line_end
line_found = refl

contents-consume_line_example :
    ((consume_line 20 line_ring).0 ++ contents (consume_line 20 line_ring).1 ≡ contents line_ring)
    × (length (consume_line 20 line_ring).0 ≡ min (min 20 4) 3)
contents-consume_line_example = contents-consume_line line_ring line_ring-IsRing 20 2 line_found
