-- ===== src/CircularBuffer/Blocks.antt =====
-- What the `consume` calls of src/BLEPacket/CircularBuffer.h take from the queue.
use ble_smoke_detector.Common.{
  ℕ, ◌+◌, ◌-◌, ◌%◌, min, ◌≤◌, ◌<◌, ◌≡◌, sym, ap, ◌∙◌, arith, false, List, [], ◌∷◌, ◌++◌, ◌==◌,
  ==_iff, ltb, if◌then◌else◌, Bool-cases, inl, inr, length, take, drop,
}
use mathlib.Core.List.{append_assoc}
use native.Mathlib.Nat.{mod-eq_of_lt}
use ble_smoke_detector.CircularBuffer.{
  CircularBuffer, empty, wraps, consumable, consume, consume_block, consume_block_into,
}
use ble_smoke_detector.CircularBuffer.Slices.{slice, slice-add, length-slice, take-drop}
use ble_smoke_detector.CircularBuffer.Queue.{IsRing, contents, span, span-low, span-high, mod_after}

module _ (b : CircularBuffer) (ring : IsRing b) where
  -- What is left of the ring where `tail` comes to stand on place `t`.
  abbrev pub left : ℕ → List ℕ
  left t = span b.buffer b.fixed_size t b.head

  -- Some of the run up to `head`, in a ring whose items do not go round.
  taken-low :
      (n : ℕ) → b.tail + n ≤ b.head → slice b.buffer b.tail n ++ left (b.tail + n) ≡ contents b
  taken-low n inside =
      let rest = b.head - (b.tail + n) in
      let e : b.head - b.tail ≡ n + rest = omega arith in
      ap (λ t. slice b.buffer b.tail n ++ t)
        (span-low b.buffer b.fixed_size (b.tail + n) b.head rest (omega arith))
      ∙ sym (slice-add b.buffer b.tail n rest)
      ∙ sym (span-low b.buffer b.fixed_size b.tail b.head (n + rest) (omega arith))

  -- Some of the run up to the end of the ring, and less than the whole of it.
  taken-high :
      (n : ℕ)
      → b.head < b.tail
      → b.tail + n < b.fixed_size
      → slice b.buffer b.tail n ++ left (b.tail + n) ≡ contents b
  taken-high n round inside =
      let rest = b.fixed_size - (b.tail + n) in
      ap (λ t. slice b.buffer b.tail n ++ t)
        (span-high b.buffer b.fixed_size (b.tail + n) b.head rest (omega arith) (omega arith))
      ∙ sym (
          append_assoc (slice b.buffer b.tail n) (slice b.buffer (b.tail + n) rest)
            (slice b.buffer 0 b.head))
      ∙ ap (λ t. t ++ slice b.buffer 0 b.head) (sym (slice-add b.buffer b.tail n rest))
      ∙ sym (span-high b.buffer b.fixed_size b.tail b.head (n + rest) round (omega arith))

  -- The whole run up to the end of the ring.
  taken-round :
      b.head < b.tail → slice b.buffer b.tail (b.fixed_size - b.tail) ++ left 0 ≡ contents b
  taken-round round =
      let tail_in = ring.tail_in in
      ap (λ t. slice b.buffer b.tail (b.fixed_size - b.tail) ++ t)
        (span-low b.buffer b.fixed_size 0 b.head b.head (omega arith))
      ∙ sym (
          span-high b.buffer b.fixed_size b.tail b.head (b.fixed_size - b.tail) round (omega arith))

  -- The run at `tail` lies in the array.
  run_in : b.tail + consumable b ≤ length b.buffer
  run_in =
      let room = ring.room in
      let head_in = ring.head_in in let tail_in = ring.tail_in in ground arith

  pub run : (n : ℕ) → n ≤ consumable b → take n (drop b.tail b.buffer) ≡ slice b.buffer b.tail n
  run n short = let inside = run_in in take-drop b.buffer b.tail n (omega arith)

  -- The whole run, and where `tail` comes to stand.
  pub taken_whole :
      slice b.buffer b.tail (consumable b) ++ left (if wraps b then 0 else b.head) ≡ contents b
  taken_whole = elim (Bool-cases (wraps b)) [
    | inl round ↦ let below : b.head < b.tail = ground arith in rw round (taken-round below)
    | inr straight ↦
        let above : b.tail ≤ b.head = ground arith in
        let e : b.tail + (b.head - b.tail) ≡ b.head = omega arith in
        rw straight (
          ap (λ t. slice b.buffer b.tail (b.head - b.tail) ++ left t) (sym e)
          ∙ taken-low (b.head - b.tail) (omega arith))
  ]

  -- Less than the whole run.
  pub taken_part :
      (n : ℕ)
      → n < consumable b
      → slice b.buffer b.tail n ++ left ((b.tail + n) % b.fixed_size) ≡ contents b
  taken_part n short =
      let head_in = ring.head_in in
      let same = mod-eq_of_lt {n = b.tail + n} {m = b.fixed_size} (ground arith) in
      rw same (elim (Bool-cases (wraps b)) [
        | inl round ↦ taken-high n (ground arith) (ground arith)
        | inr straight ↦ taken-low n (ground arith)
      ])

  -- `consume_block()` takes items from the front of the queue, in their order, and leaves the others.
  pub contents-consume_block : (consume_block b).0 ++ contents (consume_block b).1 ≡ contents b
  unfolding consume_block
  contents-consume_block =
      ap (λ t. t ++ left (if wraps b then 0 else b.head)) (run (consumable b) (omega arith))
      ∙ taken_whole

  some_run : empty b ≡ false → 0 < consumable b
  some_run some_left = let head_in = ring.head_in in let tail_in = ring.tail_in in ground arith

  -- Where a run of one item was taken, `tail` stands where the run ends.
  end_of_one : consumable b ≡ 1 → (b.tail + 1) % b.fixed_size ≡ (if wraps b then 0 else b.head)
  end_of_one one =
      let head_in = ring.head_in in
      let tail_in = ring.tail_in in rw (mod_after b.fixed_size b.tail tail_in) (ground arith)

  -- The first item of a run.
  taken_one :
      empty b ≡ false → slice b.buffer b.tail 1 ++ left ((b.tail + 1) % b.fixed_size) ≡ contents b
  taken_one some_left = elim (Bool-cases (consumable b == 1)) [
    | inl alone ↦
        let one : consumable b ≡ 1 = (==_iff (consumable b) 1).0 alone in
        ap (λ t. slice b.buffer b.tail 1 ++ left t) (end_of_one one)
        ∙ ap (λ n. slice b.buffer b.tail n ++ left (if wraps b then 0 else b.head)) (sym one)
        ∙ taken_whole
    | inr several ↦ let some_more = some_run some_left in taken_part 1 (ground arith)
  ]

  -- `consume_block(block, block_size)` takes at most `block_size` items from the front of the queue, in
  -- their order, and leaves the others; and it takes one at least where the queue and the block have
  -- room for it.
  pub contents-consume_block_into :
      (size : ℕ)
      → ((consume_block_into size b).0 ++ contents (consume_block_into size b).1 ≡ contents b)
        × ((length (consume_block_into size b).0 ≤ size)
            × (0 < size → empty b ≡ false → 0 < length (consume_block_into size b).0))
  unfolding consume_block_into
  contents-consume_block_into size =
      let n = min size (consumable b) in
      let many : length (take n (drop b.tail b.buffer)) ≡ n =
        ap length (run n (omega arith)) ∙ length-slice b.buffer b.tail n in
      (
        elim (Bool-cases (ltb size (consumable b))) [
          | inl short ↦
              let all : min size (consumable b) ≡ size = ground arith in
              rw short (
                rw all (
                  ap (λ t. t ++ left ((b.tail + size) % b.fixed_size)) (run size (ground arith))
                  ∙ taken_part size (ground arith)))
          | inr whole ↦
              let all : min size (consumable b) ≡ consumable b = ground arith in
              rw whole (
                rw all (
                  ap (λ t. t ++ left (if wraps b then 0 else b.head))
                    (run (consumable b) (omega arith))
                  ∙ taken_whole))
        ],
        (omega arith, λ positive some_left. let h = some_run some_left in omega arith),
      )

  -- `consume()` takes the first item of the queue, where there is one.
  pub contents-consume :
      contents b ≡ (if empty b then [] else (consume b).0 ∷ contents (consume b).1)
  unfolding consume slice
  contents-consume =
      let tail_in = ring.tail_in in
      let head_in = ring.head_in in
      elim (Bool-cases (empty b)) [
        | inl none ↦ rw none (span-low b.buffer b.fixed_size b.tail b.head 0 (ground arith))
        | inr some_left ↦ rw some_left (sym (taken_one some_left))
      ]
