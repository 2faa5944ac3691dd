-- ===== src/CircularBuffer.antt =====
-- src/BLEPacket/CircularBuffer.h: a ring of characters that the log is kept in, `CircularBuffer<char>`.
-- The array has one place more than the ring, for a terminating end item, which is 0. Positions are
-- below `fixed_size`; the count of the items written at once does not wrap for fewer than 2 ^ 16 of them.
-- One call runs at a time: the locks have no counterpart.
pub mod Slices
pub mod Queue
pub mod Invariant
pub mod Calls
pub mod Order
pub mod Blocks
pub mod Line
use ble_smoke_detector.Common.{
  ℕ, zero, suc, ◌+◌, ◌-◌, ◌%◌, min, Bool, true, false, ◌&&◌, ◌||◌, not, List, [], ◌∷◌, ◌==◌, ltb,
  leb, if◌then◌else◌, get_or, set, take, drop, replicate, Option, none, some, ◌++◌, length,
}

pub record CircularBuffer : Type 0 where
  pub buffer : List ℕ
  pub fixed_size : ℕ
  pub head : ℕ
  pub tail : ℕ
  pub maxed : Bool
  pub will_clear_if_empty : Bool

abbrev pub end_item : ℕ
end_item = 0

-- `CircularBuffer(size)`, on memory that is read as 0.
unfoldable pub new_buffer : ℕ → CircularBuffer
new_buffer size = record {
  buffer = replicate (suc size) 0;
  fixed_size = size;
  head = 0;
  tail = 0;
  maxed = false;
  will_clear_if_empty = false;
}

abbrev pub empty : CircularBuffer → Bool
empty b = b.head == b.tail

abbrev pub full : CircularBuffer → Bool
full b = b.maxed

-- `write(item)`. `head == tail - 1` on int: never where `tail` is 0.
unfoldable pub write : CircularBuffer → ℕ → CircularBuffer
write b item =
    let tail' = if b.maxed then (b.head + 2) % b.fixed_size else b.tail in
    let head' = (b.head + 1) % b.fixed_size in
    record b {
      buffer = set (set b.buffer b.head item) (b.head + 1) end_item;
      head = head';
      tail = tail';
      maxed = head' + 1 == tail';
      will_clear_if_empty = false;
    }

-- The loop of `write(items)` over the items before the end item: array, `maxed` and the last `pos`.
unfoldable pub write_loop : CircularBuffer → ℕ → List ℕ → List ℕ × (Bool × ℕ) → List ℕ × (Bool × ℕ)
write_loop b count [] (buffer, (maxed, pos)) = (buffer, (maxed, pos))
write_loop b count (item ∷ items) (buffer, (maxed, pos)) =
    let pos' = (b.head + count) % b.fixed_size in
    write_loop b (suc count) items (
      set buffer pos' item,
      (
        maxed
            || (((pos' + 1) % b.fixed_size + 1 == b.tail)
                || ((b.tail == 0) && (pos' + 1 == b.fixed_size))),
        pos',
      ),
    )

-- Behind the loop, which counted `count` items.
unfoldable pub write_end : CircularBuffer → ℕ → List ℕ × (Bool × ℕ) → CircularBuffer
write_end b count (buffer, (maxed, pos)) =
    let tail' = if maxed then (b.head + count + 1) % b.fixed_size else b.tail in
    let head' = (b.head + count) % b.fixed_size in
    record b {
      buffer = set buffer (pos + 1) end_item;
      head = head';
      tail = tail';
      maxed = head' + 1 == tail';
      will_clear_if_empty = false;
    }

abbrev pub count_items : List ℕ → ℕ
count_items [] = 0
count_items (item ∷ items) = suc (count_items items)

-- `write(items)`
unfoldable pub write_items : CircularBuffer → List ℕ → CircularBuffer
unfolding write_loop write_end
write_items b items =
    write_end b (count_items items) (write_loop b 0 items (b.buffer, (b.maxed, 0)))

unfoldable pub clear : CircularBuffer → CircularBuffer
clear b = record b { buffer = set b.buffer 0 end_item; head = 0; tail = 0; maxed = false }

unfoldable pub clear_if_empty : CircularBuffer → CircularBuffer
clear_if_empty b =
    if empty b
    then record b { head = 0; tail = 0; maxed = false; will_clear_if_empty = true }
    else record b { will_clear_if_empty = true }

-- `consume()`: `T()` where there is nothing.
unfoldable pub consume : CircularBuffer → ℕ × CircularBuffer
consume b =
    if empty b
    then (0, b)
    else (get_or b.buffer b.tail 0, record b { tail = (b.tail + 1) % b.fixed_size; maxed = false })

-- The contents reach the end of the array.
abbrev pub wraps : CircularBuffer → Bool
wraps b = leb b.head b.tail && not (empty b)

abbrev pub consumable : CircularBuffer → ℕ
consumable b = (if wraps b then b.fixed_size else b.head) - b.tail

-- `consume_block()`: the items that the pointer and the count stand for.
unfoldable pub consume_block : CircularBuffer → List ℕ × CircularBuffer
consume_block b = (
  take (consumable b) (drop b.tail b.buffer),
  record b { tail = if wraps b then 0 else b.head; maxed = false },
)

-- `consume_block(block, block_size)`: the items that are copied.
unfoldable pub consume_block_into : ℕ → CircularBuffer → List ℕ × CircularBuffer
consume_block_into block_size b =
    let will_consume = min block_size (consumable b) in
    (
      take will_consume (drop b.tail b.buffer),
      record b {
        tail =
            if ltb block_size (consumable b)
            then (b.tail + will_consume) % b.fixed_size
            else if wraps b
            then 0
            else b.head;
        maxed = false;
      },
    )

-- `strchr(…, '\n')` from some place on, by the number of items before it; it ends at an end item.
unfoldable pub find_line_end : List ℕ → Option ℕ
find_line_end [] = none
find_line_end (c ∷ rest) =
    let later = find_line_end rest in
    if c == 10
    then some 0
    else if c == end_item
    then none
    else elim later [ none ↦ none | some n ↦ some (suc n) ]

-- The end of `consume_line`: `written_out` items stand in the line, `will_consume` may follow from
-- `tail_copy` on; `limit` is the variable `consumable`.
unfoldable pub end_of_line :
    ℕ → CircularBuffer → List ℕ → ℕ → ℕ → ℕ → Option ℕ → List ℕ × CircularBuffer
end_of_line line_size b line limit will_consume tail_copy line_end =
    let line_extra : ℕ = elim line_end [
      | none ↦ will_consume
      | some n ↦ min will_consume (n + 1)
    ] in
    let written_out = length line in
    (
      line ++ take line_extra (drop tail_copy b.buffer),
      record b {
        tail =
            if leb (written_out + line_extra) limit
            then (tail_copy + line_extra) % b.fixed_size
            else if leb b.head tail_copy && not (empty b)
            then elim line_end [ none ↦ written_out + will_consume | some n ↦ line_size ]
            else b.head;
        maxed = false;
      },
    )

-- The part of `consume_line` where the whole run was taken: a line may go on at the start of the ring.
unfoldable pub rest_of_line : ℕ → CircularBuffer → List ℕ → List ℕ × CircularBuffer
unfolding find_line_end
rest_of_line line_size b line =
    let extra : ℕ =
      if wraps b
      then (elim (find_line_end b.buffer) [
        | none ↦ 0
        | some n ↦ min (line_size - length line) (n + 1)
      ])
      else 0 in
    (
      line ++ take extra b.buffer,
      record b { tail = if wraps b then extra % b.fixed_size else b.head; maxed = false },
    )

-- `consume_line(line, line_size)`: the items that are copied.
unfoldable pub consume_line : ℕ → CircularBuffer → List ℕ × CircularBuffer
unfolding find_line_end end_of_line rest_of_line
consume_line line_size b =
    let run = drop b.tail b.buffer in
    let will_consume = min line_size (consumable b) in
    let line = take will_consume run in
    let tail_copy = b.tail + will_consume in
    elim (find_line_end run) [
      | some n ↦ end_of_line line_size b [] (consumable b) will_consume b.tail (some n)
      | none ↦
          if consumable b == will_consume
          then rest_of_line line_size b line
          else end_of_line line_size b line b.head (min (line_size - will_consume) b.head) tail_copy
              (find_line_end (drop tail_copy b.buffer))
    ]
