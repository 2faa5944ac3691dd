-- ===== src/CircularBuffer/Order.antt =====
-- The calls of the ring of src/BLEPacket/CircularBuffer.h that keep its flag in step with its positions.
use ble_smoke_detector.Common.{
  [], ℕ, ◌+◌, ◌%◌, ◌^◌, min, ◌≤◌, ◌<◌, ◌≡◌, refl, arith, Bool, true, false, some, List, ◌==◌,
  ==_iff, leb, ltb, if◌then◌else◌, Bool-cases, inl, inr, drop,
}
use native.Mathlib.Nat.{mod-eq_of_lt}
use ble_smoke_detector.CircularBuffer.{
  empty, wraps, consumable, write_end, find_line_end, end_of_line, CircularBuffer, new_buffer,
  write, write_items, clear, clear_if_empty, consume, consume_block, consume_block_into,
  consume_line, count_items,
}
use ble_smoke_detector.CircularBuffer.Queue.{IsRing, mod_after}
use ble_smoke_detector.CircularBuffer.Line.{end_of_run}
use ble_smoke_detector.CircularBuffer.Invariant.{
  InRing, new_buffer-InRing, write-InRing, write_items-InRing, clear-InRing, clear_if_empty-InRing,
  consume-InRing, consume_block-InRing, consume_block_into-InRing, consume_line-InRing,
}

-- The calls but for those that take an empty block or line, and those that take a line whose end `strchr` does
-- not find from `tail` on.
pub data OrderlyCall : CircularBuffer → CircularBuffer → Type 0 where
  writes : (b : CircularBuffer) (item : ℕ) → OrderlyCall b (write b item)
  writes_all :
      (b : CircularBuffer) (items : List ℕ)
      → count_items items < 2 ^ 16
      → OrderlyCall b (write_items b items)
  clears : (b : CircularBuffer) → OrderlyCall b (clear b)
  clears_if_empty : (b : CircularBuffer) → OrderlyCall b (clear_if_empty b)
  consumes : (b : CircularBuffer) → OrderlyCall b (consume b).1
  consumes_block : (b : CircularBuffer) → OrderlyCall b (consume_block b).1
  consumes_into :
      (size : ℕ) (b : CircularBuffer) → 0 < size → OrderlyCall b (consume_block_into size b).1
  consumes_line :
      (line_size n : ℕ) (b : CircularBuffer)
      → 0 < line_size
      → find_line_end (drop b.tail b.buffer) ≡ some n
      → OrderlyCall b (consume_line line_size b).1

set_only_at : (flag : Bool) (m n : ℕ) → flag ≡ (m == n) → flag ≡ true → m ≡ n
set_only_at flag m n e set = (==_iff m n).0 (cc (e, set))

-- A ring in order is inside, and a ring inside whose flag is in step is in order.
weakened : (b : CircularBuffer) → IsRing b → InRing b
weakened b ring = record {
  two = ring.two;
  room = ring.room;
  head_in = ring.head_in;
  tail_in = ring.tail_in;
  full = set_only_at b.maxed (b.head + 1) b.tail ring.flag;
}

in_step : (b : CircularBuffer) → InRing b → b.maxed ≡ (b.head + 1 == b.tail) → IsRing b
in_step b ring flag = record {
  two = ring.two;
  room = ring.room;
  head_in = ring.head_in;
  tail_in = ring.tail_in;
  flag = flag;
}

new_buffer-IsRing : (size : ℕ) → 2 ≤ size → IsRing (new_buffer size)
unfolding new_buffer
new_buffer-IsRing size h = in_step (new_buffer size) (new_buffer-InRing size h) (ground arith)

module _ (b : CircularBuffer) (ring : IsRing b) where
  write-IsRing : (item : ℕ) → IsRing (write b item)
  unfolding write
  write-IsRing item = in_step (write b item) (write-InRing b (weakened b ring) item) refl

  write_items-IsRing : (items : List ℕ) → IsRing (write_items b items)
  unfolding write_items write_end
  write_items-IsRing items =
      in_step (write_items b items) (write_items-InRing b (weakened b ring) items) refl

  clear-IsRing : IsRing (clear b)
  unfolding clear
  clear-IsRing = in_step (clear b) (clear-InRing b (weakened b ring)) (ground arith)

  clear_if_empty-flag :
      (clear_if_empty b).maxed ≡ ((clear_if_empty b).head + 1 == (clear_if_empty b).tail)
  unfolding clear_if_empty
  clear_if_empty-flag = elim (Bool-cases (empty b)) [
    | inl none_left ↦ rw none_left (ground arith)
    | inr some_left ↦ rw some_left ring.flag
  ]

  clear_if_empty-IsRing : IsRing (clear_if_empty b)
  clear_if_empty-IsRing =
      in_step (clear_if_empty b) (clear_if_empty-InRing b (weakened b ring)) clear_if_empty-flag

  -- Where an item was taken, `tail` comes to stand at a place that `head` is not about to reach.
  apart_after : (b.head == b.tail) ≡ false → false ≡ (b.head + 1 == (b.tail + 1) % b.fixed_size)
  apart_after some_left =
      let head_in = ring.head_in in
      let tail_in = ring.tail_in in
      let next = mod_after b.fixed_size b.tail tail_in in
      rw next (elim (Bool-cases (b.tail + 1 == b.fixed_size)) [
        | inl last ↦ rw last (ground arith)
        | inr inner ↦ rw inner (ground arith)
      ])

  consume-flag : (consume b).1.maxed ≡ ((consume b).1.head + 1 == (consume b).1.tail)
  unfolding consume
  consume-flag = elim (Bool-cases (empty b)) [
    | inl none_left ↦ rw none_left ring.flag
    | inr some_left ↦ rw some_left (apart_after some_left)
  ]

  consume-IsRing : IsRing (consume b).1
  consume-IsRing = in_step (consume b).1 (consume-InRing b (weakened b ring)) consume-flag

  -- `tail` where the whole run was taken.
  consumed_flag : false ≡ (b.head + 1 == (if wraps b then 0 else b.head))
  consumed_flag = ground arith

  consume_block-IsRing : IsRing (consume_block b).1
  unfolding consume_block
  consume_block-IsRing =
      in_step (consume_block b).1 (consume_block-InRing b (weakened b ring)) consumed_flag

  -- `tail` where a part of the run was taken.
  part_flag :
      (size : ℕ)
      → 0 < size
      → size < consumable b
      → false ≡ (b.head + 1 == (b.tail + size) % b.fixed_size)
  part_flag size positive short =
      let head_in = ring.head_in in
      let e : (b.tail + size) % b.fixed_size ≡ b.tail + size =
        mod-eq_of_lt {n = b.tail + size} {m = b.fixed_size} (ground arith) in
      rw e (ground arith)

  consume_block_into-flag :
      (size : ℕ)
      → 0 < size
      → false ≡ (
          b.head + 1 == (
            if ltb size (consumable b)
            then (b.tail + min size (consumable b)) % b.fixed_size
            else if wraps b
            then 0
            else b.head))
  consume_block_into-flag size positive = elim (Bool-cases (ltb size (consumable b))) [
    | inl short ↦
        let less : size < consumable b = ground arith in
        let all : min size (consumable b) ≡ size = omega arith in
        rw short (rw all (part_flag size positive less))
    | inr whole ↦ rw whole consumed_flag
  ]

  -- A block of no places would clear the flag of a full ring.
  consume_block_into-IsRing : (size : ℕ) → 0 < size → IsRing (consume_block_into size b).1
  unfolding consume_block_into
  consume_block_into-IsRing size positive =
      in_step (consume_block_into size b).1 (consume_block_into-InRing b (weakened b ring) size)
        (consume_block_into-flag size positive)

  -- `tail` where a part of the run, or all of it, was taken.
  upto_flag :
      (n : ℕ)
      → n ≤ consumable b
      → (n ≡ 0 → b.head ≡ b.tail)
      → false ≡ (b.head + 1 == (b.tail + n) % b.fixed_size)
  upto_flag n upto something =
      let head_in = ring.head_in in
      let tail_in = ring.tail_in in
      elim (Bool-cases (n == 0)) [
        | inl nothing ↦
            let same = something ((==_iff n 0).0 nothing) in
            let e : (b.tail + n) % b.fixed_size ≡ b.tail + n =
              mod-eq_of_lt {n = b.tail + n} {m = b.fixed_size} (ground arith) in
            rw e (ground arith)
        | inr positive ↦ elim (Bool-cases (ltb n (consumable b))) [
          | inl short ↦ part_flag n (ground arith) (ground arith)
          | inr whole ↦
              let all : n ≡ consumable b = ground arith in
              rw all (rw (end_of_run b ring) consumed_flag)
        ]
      ]

  -- Nothing can be taken only where the ring is empty.
  nothing_left :
      (line_size n : ℕ)
      → 0 < line_size
      → min (min line_size (consumable b)) (n + 1) ≡ 0
      → b.head ≡ b.tail
  nothing_left line_size n positive e =
      let tail_in = ring.tail_in in let gone : consumable b ≡ 0 = omega arith in ground arith

  found_flag :
      (line_size n : ℕ)
      → 0 < line_size
      → let b' =
          (end_of_line line_size b []
            (consumable b)
            (min line_size (consumable b))
            b.tail
            (some n)).1 in
        b'.maxed ≡ (b'.head + 1 == b'.tail)
  unfolding end_of_line
  found_flag line_size n positive =
      let extra = min (min line_size (consumable b)) (n + 1) in
      let fits : leb (0 + extra) (consumable b) ≡ true = ground arith in
      rw fits (upto_flag extra (omega arith) (nothing_left line_size n positive))

  consume_line-flag :
      (line_size n : ℕ)
      → 0 < line_size
      → find_line_end (drop b.tail b.buffer) ≡ some n
      → let b' = (consume_line line_size b).1 in b'.maxed ≡ (b'.head + 1 == b'.tail)
  unfolding consume_line
  consume_line-flag line_size n positive found =
      rw (found, consume_line) (found_flag line_size n positive)

  consume_line-IsRing :
      (line_size n : ℕ)
      → 0 < line_size
      → find_line_end (drop b.tail b.buffer) ≡ some n
      → IsRing (consume_line line_size b).1
  consume_line-IsRing line_size n positive found =
      in_step (consume_line line_size b).1 (consume_line-InRing b (weakened b ring) line_size)
        (consume_line-flag line_size n positive found)

OrderlyCall-IsRing : {b b' : CircularBuffer} → OrderlyCall b b' → IsRing b → IsRing b'
OrderlyCall-IsRing (writes b item) ring = write-IsRing b ring item
OrderlyCall-IsRing (writes_all b items short) ring = write_items-IsRing b ring items
OrderlyCall-IsRing (clears b) ring = clear-IsRing b ring
OrderlyCall-IsRing (clears_if_empty b) ring = clear_if_empty-IsRing b ring
OrderlyCall-IsRing (consumes b) ring = consume-IsRing b ring
OrderlyCall-IsRing (consumes_block b) ring = consume_block-IsRing b ring
OrderlyCall-IsRing (consumes_into size b positive) ring =
    consume_block_into-IsRing b ring size positive
OrderlyCall-IsRing (consumes_line line_size n b positive found) ring =
    consume_line-IsRing b ring line_size n positive found

-- The states that orderly calls of a new ring lead to.
pub data ReachedInOrder (size : ℕ) : CircularBuffer → Type 0 where
  made : ReachedInOrder size (new_buffer size)
  called :
      {b b' : CircularBuffer} → ReachedInOrder size b → OrderlyCall b b' → ReachedInOrder size b'

-- In every state that a program reaches by calls of a ring of two places or more, where no block or line that is
-- asked for is empty and `strchr` finds the end of each line from `tail` on, the ring is in order: the positions
-- are inside, and `maxed` is set exactly where `head` stands on the place before `tail`.
pub ReachedInOrder-IsRing :
    {size : ℕ} {b : CircularBuffer} → ReachedInOrder size b → 2 ≤ size → IsRing b
ReachedInOrder-IsRing made h = new_buffer-IsRing _ h
ReachedInOrder-IsRing (called before call) h =
    OrderlyCall-IsRing call (ReachedInOrder-IsRing before h)
