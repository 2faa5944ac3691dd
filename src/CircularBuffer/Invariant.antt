-- ===== src/CircularBuffer/Invariant.antt =====
-- Every operation of src/BLEPacket/CircularBuffer.h keeps the ring's positions inside the ring.
use ble_smoke_detector.Common.{
  ℕ, zero, suc, ◌+◌, ◌-◌, ◌%◌, min, ◌≤◌, ◌<◌, ◌≡◌, refl, ap, ◌∙◌, arith, Bool, true, false, Option,
  none, some, List, [], ◌∷◌, ◌==◌, ==_iff, leb, ltb, ◌&&◌, not, if◌then◌else◌, Bool-cases,
  Option-cases, inl, inr, length, length-take, length-set, set, replicate, take, drop,
}
use native.Mathlib.Nat.{mod-lt}
use ble_smoke_detector.CircularBuffer.{
  CircularBuffer, new_buffer, empty, wraps, consumable, write, write_loop, write_end, write_items,
  clear, clear_if_empty, consume, consume_block, consume_block_into, consume_line, rest_of_line,
  end_of_line, find_line_end, count_items,
}

-- The positions are in the ring, the array has its spare place, and the flag is set only where `head` stands
-- on the place before `tail`.
pub record InRing (b : CircularBuffer) : Type 0 where
  pub two : 2 ≤ b.fixed_size
  pub room : length b.buffer ≡ b.fixed_size + 1
  pub head_in : b.head < b.fixed_size
  pub tail_in : b.tail < b.fixed_size
  pub full : b.maxed ≡ true → b.head + 1 ≡ b.tail

length-replicate : (n : ℕ) → length {A = ℕ} (replicate n 0) ≡ n
length-replicate zero = refl
length-replicate (suc n) = ap suc (length-replicate n)

-- A new ring of two places or more is in order.
pub new_buffer-InRing : (size : ℕ) → 2 ≤ size → InRing (new_buffer size)
unfolding new_buffer
new_buffer-InRing size h = record {
  two = h;
  room = omega (arith, length-replicate size);
  head_in = omega arith;
  tail_in = omega arith;
  full = λ e. absurd cc;
}

length-write_loop :
    (b : CircularBuffer) (count : ℕ) (items buffer : List ℕ) (maxed : Bool) (pos : ℕ)
    → length (write_loop b count items (buffer, (maxed, pos))).0 ≡ length buffer
unfolding write_loop
length-write_loop b count [] buffer maxed pos = refl
length-write_loop b count (item ∷ items) buffer maxed pos =
    length-write_loop b (suc count) items (set buffer ((b.head + count) % b.fixed_size) item) _ _
    ∙ length-set item ((b.head + count) % b.fixed_size) buffer

-- One of three places, each inside.
one_of :
    (c d : Bool) (x y z n : ℕ) → x < n → y < n → z < n → (if c then x else if d then y else z) < n
one_of true d x y z n h k l = h
one_of false true x y z n h k l = k
one_of false false x y z n h k l = l

found_or_not :
    (found : Option ℕ) (x y n : ℕ) → x < n → y < n → (elim found [ none ↦ x | some i ↦ y ]) < n
found_or_not none x y n h k = h
found_or_not (some i) x y n h k = k

module _ (b : CircularBuffer) (ring : InRing b) where
  at_mod : (n : ℕ) → n % b.fixed_size < b.fixed_size
  at_mod n = let two = ring.two in mod-lt n (omega arith)

  -- Where only `tail` moves and the flag is reset.
  moved : (tail : ℕ) → tail < b.fixed_size → InRing (record b { tail = tail; maxed = false })
  moved tail inside = record {
    two = ring.two;
    room = ring.room;
    head_in = ring.head_in;
    tail_in = inside;
    full = λ e. absurd cc;
  }

  pub write-InRing : (item : ℕ) → InRing (write b item)
  unfolding write
  write-InRing item = record {
    two = ring.two;
    room =
        length-set 0 (b.head + 1) (set b.buffer b.head item)
        ∙ length-set item b.head b.buffer
        ∙ ring.room;
    head_in = at_mod (b.head + 1);
    tail_in = elim (Bool-cases b.maxed) [
      | inl held ↦ rw held (at_mod (b.head + 2))
      | inr free ↦ rw free ring.tail_in
    ];
    full = λ e. (==_iff _ _).0 e;
  }

  write_end-InRing :
      (count : ℕ) (buffer : List ℕ) (maxed : Bool) (pos : ℕ)
      → length buffer ≡ length b.buffer
      → InRing (write_end b count (buffer, (maxed, pos)))
  unfolding write_end
  write_end-InRing count buffer maxed pos same = record {
    two = ring.two;
    room = length-set 0 (pos + 1) buffer ∙ same ∙ ring.room;
    head_in = at_mod (b.head + count);
    tail_in = elim (Bool-cases maxed) [
      | inl held ↦ rw held (at_mod (b.head + count + 1))
      | inr free ↦ rw free ring.tail_in
    ];
    full = λ e. (==_iff _ _).0 e;
  }

  pub write_items-InRing : (items : List ℕ) → InRing (write_items b items)
  unfolding write_items
  write_items-InRing items =
      let (buffer, (maxed, pos)) = write_loop b 0 items (b.buffer, (b.maxed, 0)) in
      write_end-InRing (count_items items) buffer maxed pos
        (length-write_loop b 0 items b.buffer b.maxed 0)

  pub clear-InRing : InRing (clear b)
  unfolding clear
  clear-InRing =
      let two = ring.two in
      record {
        two = two;
        room = length-set 0 0 b.buffer ∙ ring.room;
        head_in = omega arith;
        tail_in = omega arith;
        full = λ e. absurd cc;
      }

  pub clear_if_empty-InRing : InRing (clear_if_empty b)
  unfolding clear_if_empty
  clear_if_empty-InRing =
      let two = ring.two in
      elim (Bool-cases (empty b)) [
        | inl none_left ↦ rw none_left (record {
          two = two;
          room = ring.room;
          head_in = omega arith;
          tail_in = omega arith;
          full = λ e. absurd cc;
        })
        | inr some_left ↦ rw some_left (record {
          two = two;
          room = ring.room;
          head_in = ring.head_in;
          tail_in = ring.tail_in;
          full = ring.full;
        })
      ]

  pub consume-InRing : InRing (consume b).1
  unfolding consume
  consume-InRing = elim (Bool-cases (empty b)) [
    | inl none_left ↦ rw none_left ring
    | inr some_left ↦ rw some_left (moved ((b.tail + 1) % b.fixed_size) (at_mod (b.tail + 1)))
  ]

  -- `tail` where the whole run was taken.
  consumed_in : (if wraps b then 0 else b.head) < b.fixed_size
  consumed_in = let head_in = ring.head_in in ground arith

  pub consume_block-InRing : InRing (consume_block b).1
  unfolding consume_block
  consume_block-InRing = moved (if wraps b then 0 else b.head) consumed_in

  pub consume_block_into-InRing : (size : ℕ) → InRing (consume_block_into size b).1
  unfolding consume_block_into
  consume_block_into-InRing size =
      let head_in = ring.head_in in
      let two = ring.two in
      moved _ (
        one_of (ltb size (consumable b)) (wraps b) _ 0 b.head b.fixed_size
          (at_mod (b.tail + min size (consumable b))) (omega arith) head_in)

  -- A run of items is not longer than the ring.
  consumable_upto : consumable b ≤ b.fixed_size
  consumable_upto = let head_in = ring.head_in in ground arith

  found_in :
      (line_size n : ℕ)
      → InRing
          (end_of_line line_size b []
            (consumable b)
            (min line_size (consumable b))
            b.tail
            (some n)).1
  unfolding end_of_line
  found_in line_size n =
      let extra = min (min line_size (consumable b)) (n + 1) in
      let fits : leb (0 + extra) (consumable b) ≡ true = ground arith in
      rw fits (moved ((b.tail + extra) % b.fixed_size) (at_mod (b.tail + extra)))

  not_found_in :
      (line_size will_consume tail_copy : ℕ) (line : List ℕ) (line_end : Option ℕ)
      → line_size < b.fixed_size
      → length line + will_consume < b.fixed_size
      → InRing (end_of_line line_size b line b.head will_consume tail_copy line_end).1
  unfolding end_of_line
  not_found_in line_size will_consume tail_copy line line_end small inside =
      let head_in = ring.head_in in
      moved _ (
        one_of _ (leb b.head tail_copy && not (empty b)) _ _ b.head b.fixed_size (at_mod _)
          (found_or_not line_end _ line_size b.fixed_size inside small) head_in)

  rest_in : (line_size : ℕ) (line : List ℕ) → InRing (rest_of_line line_size b line).1
  unfolding rest_of_line
  rest_in line_size line =
      let head_in = ring.head_in in
      elim (Bool-cases (wraps b)) [
        | inl round ↦ rw round (moved _ (at_mod _))
        | inr straight ↦ rw straight (moved b.head head_in)
      ]

  -- A line of any size may be asked for.
  pub consume_line-InRing : (line_size : ℕ) → InRing (consume_line line_size b).1
  unfolding consume_line
  consume_line-InRing line_size = elim (Option-cases (find_line_end (drop b.tail b.buffer))) [
    | inr (n, found) ↦ rw (found, consume_line) (found_in line_size n)
    | inl missing ↦
        let run = drop b.tail b.buffer in
        let will_consume = min line_size (consumable b) in
        rw (missing, consume_line)
          (elim (Bool-cases (consumable b == will_consume)) [
            | inl whole ↦ rw whole (rest_in line_size (take will_consume run))
            | inr part ↦
                let upto = consumable_upto in
                let small : line_size < consumable b = ground arith in
                let taken = length-take will_consume run in
                rw part (
                  not_found_in line_size (min (line_size - will_consume) b.head)
                    (b.tail + will_consume) (take will_consume run)
                    (find_line_end (drop (b.tail + will_consume) b.buffer)) (omega arith)
                    (omega arith))
          ])
  ]
