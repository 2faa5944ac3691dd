-- ===== src/CircularBuffer/Line.antt =====
-- `consume_line` of src/BLEPacket/CircularBuffer.h.
use ble_smoke_detector.Common.{
  ℕ, ◌+◌, ◌-◌, ◌%◌, min, ◌≤◌, ◌≡◌, ap, ◌∙◌, arith, true, some, [], ◌++◌, ◌==◌, ==_iff, leb,
  if◌then◌else◌, Bool-cases, inl, inr, length, drop,
}
use native.Mathlib.Nat.{mod-eq_of_lt, mod-eq-sub-mod}
use ble_smoke_detector.CircularBuffer.{
  CircularBuffer, wraps, consumable, find_line_end, end_of_line, consume_line,
}
use ble_smoke_detector.CircularBuffer.Slices.{slice, length-slice}
use ble_smoke_detector.CircularBuffer.Queue.{IsRing, contents}
use ble_smoke_detector.CircularBuffer.Blocks.{left, run, taken_whole, taken_part}

leb_lem : {m n : ℕ} → m ≤ n → leb m n ≡ true
leb_lem h = ground arith

module _ (b : CircularBuffer) (ring : IsRing b) where
  -- Where the run ends.
  pub end_of_run : (b.tail + consumable b) % b.fixed_size ≡ (if wraps b then 0 else b.head)
  end_of_run =
      let head_in = ring.head_in in
      let tail_in = ring.tail_in in
      elim (Bool-cases (wraps b)) [
        | inl round ↦
            let e : b.tail + (b.fixed_size - b.tail) ≡ b.fixed_size = omega arith in
            rw round (
              rw e (
                omega (
                  arith,
                  mod-eq-sub-mod {n = b.fixed_size} {m = b.fixed_size} (omega arith),
                  mod-eq_of_lt {n = b.fixed_size - b.fixed_size} {m = b.fixed_size} (omega arith),
                )))
        | inr straight ↦
            let e : b.tail + (b.head - b.tail) ≡ b.head = ground arith in
            rw straight (rw e (mod-eq_of_lt {n = b.head} {m = b.fixed_size} head_in))
      ]

  -- Any part of the run, or the whole of it.
  taken_upto :
      (n : ℕ)
      → n ≤ consumable b
      → slice b.buffer b.tail n ++ left b ring ((b.tail + n) % b.fixed_size) ≡ contents b
  taken_upto n upto = elim (Bool-cases (n == consumable b)) [
    | inl all ↦
        let e : n ≡ consumable b = (==_iff n (consumable b)).0 all in
        ap (λ k. slice b.buffer b.tail k ++ left b ring ((b.tail + k) % b.fixed_size)) e
        ∙ ap (λ t. slice b.buffer b.tail (consumable b) ++ left b ring t) end_of_run
        ∙ taken_whole b ring
    | inr some_left ↦ taken_part b ring n (ground arith)
  ]

  -- The end of a line that ends in the run.
  ended :
      (line_size n : ℕ)
      → let out =
          end_of_line line_size b []
            (consumable b)
            (min line_size (consumable b))
            b.tail
            (some n) in
        (out.0 ++ contents out.1 ≡ contents b)
        × (length out.0 ≡ min (min line_size (consumable b)) (n + 1))
  unfolding end_of_line
  ended line_size n =
      let extra = min (min line_size (consumable b)) (n + 1) in
      let fits : leb (0 + extra) (consumable b) ≡ true = leb_lem (omega arith) in
      let same = run b ring extra (omega arith) in
      rw fits (
        ap (λ t. t ++ left b ring ((b.tail + extra) % b.fixed_size)) same
            ∙ taken_upto extra (omega arith),
        ap length same ∙ length-slice b.buffer b.tail extra,
      )

  -- A line that ends in the run at `tail`, or a part of it, is taken from the front of the queue, in its
  -- order, and the others are left: up to and with the end of the line, as far as the run and `line_size` go.
  pub contents-consume_line :
      (line_size n : ℕ)
      → find_line_end (drop b.tail b.buffer) ≡ some n
      → ((consume_line line_size b).0 ++ contents (consume_line line_size b).1 ≡ contents b)
        × (length (consume_line line_size b).0 ≡ min (min line_size (consumable b)) (n + 1))
  unfolding consume_line
  contents-consume_line line_size n e = rw (e, consume_line) (ended line_size n)
