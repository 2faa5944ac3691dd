-- ===== src/CircularBuffer/Queue.antt =====
-- The ring of src/BLEPacket/CircularBuffer.h as the queue of the items that it holds.
use ble_smoke_detector.Common.{
  ℕ, suc, ◌+◌, ◌-◌, ◌%◌, ◌≤◌, ◌<◌, ◌≡◌, ◌≢◌, refl, sym, ap, ◌∙◌, arith, true, false, ◌&&◌, List, [],
  ◌∷◌, ◌++◌, ◌==◌, ==_iff, leb, if◌then◌else◌, if_true, if_false, Bool-cases, inl, inr, length,
  length-set, get_or, get_or-set, set, drop,
}
use mathlib.Core.List.{append_assoc, append-nil}
use native.Mathlib.Nat.{mod-eq_of_lt, mod-eq-sub-mod}
use ble_smoke_detector.CircularBuffer.{CircularBuffer, end_item, write}
use ble_smoke_detector.CircularBuffer.Slices.{slice, slice-snoc, slice-set}

-- The positions are in the ring, the array has its spare place, and the flag is what it stands for.
pub record IsRing (b : CircularBuffer) : Type 0 where
  pub two : 2 ≤ b.fixed_size
  pub room : length b.buffer ≡ b.fixed_size + 1
  pub head_in : b.head < b.fixed_size
  pub tail_in : b.tail < b.fixed_size
  pub flag : b.maxed ≡ (b.head + 1 == b.tail)

-- The items from `tail` up to `head`, round the end of the ring.
unfoldable pub span : List ℕ → ℕ → ℕ → ℕ → List ℕ
span buffer size tail head =
    if leb tail head
    then slice buffer tail (head - tail)
    else slice buffer tail (size - tail) ++ slice buffer 0 head

abbrev pub contents : CircularBuffer → List ℕ
contents b = span b.buffer b.fixed_size b.tail b.head

pub span-low :
    (buffer : List ℕ) (size tail head n : ℕ)
    → tail + n ≡ head
    → span buffer size tail head ≡ slice buffer tail n
unfolding span
span-low buffer size tail head n e =
    let low : leb tail head ≡ true = ground arith in
    let many : head - tail ≡ n = omega arith in rw low (rw many refl)

pub span-high :
    (buffer : List ℕ) (size tail head n : ℕ)
    → head < tail
    → tail + n ≡ size
    → span buffer size tail head ≡ slice buffer tail n ++ slice buffer 0 head
unfolding span
span-high buffer size tail head n below e =
    let high : leb tail head ≡ false = ground arith in
    let many : size - tail ≡ n = omega arith in rw high (rw many refl)

-- One place on, in a ring of `size` places.
abbrev pub after : ℕ → ℕ → ℕ
after size i = if i + 1 == size then 0 else i + 1

pub mod_after : (size i : ℕ) → i < size → (i + 1) % size ≡ after size i
mod_after size i h = elim (Bool-cases (i + 1 == size)) [
  | inl last ↦
      let e : i + 1 ≡ size = (==_iff (i + 1) size).0 last in
      rw last (
        omega (
          arith,
          mod-eq-sub-mod {n = i + 1} {m = size} (omega arith),
          mod-eq_of_lt {n = i + 1 - size} {m = size} (omega arith),
        ))
  | inr inner ↦ rw inner (mod-eq_of_lt {n = i + 1} {m = size} (ground arith))
]

mod_after_two : (size i : ℕ) → i + 1 < size → (i + 2) % size ≡ after size (i + 1)
mod_after_two size i h = let e : i + 2 ≡ i + 1 + 1 = omega arith in rw e (mod_after size (i + 1) h)

module _ (b : CircularBuffer) (item : ℕ) (ring : IsRing b) where
  -- The array after a write.
  abbrev written : List ℕ
  written = set (set b.buffer b.head item) (b.head + 1) end_item

  written-slice : (i n : ℕ) → i + n ≤ b.head → slice written i n ≡ slice b.buffer i n
  written-slice i n before =
      let room = ring.room in
      let inside = ring.head_in in
      let same = length-set item b.head b.buffer in
      slice-set (set b.buffer b.head item) i n (b.head + 1) end_item (omega arith)
        (inr (omega arith))
      ∙ slice-set b.buffer i n b.head item (omega arith) (inr before)

  written_behind : (i n : ℕ) → b.head + 1 < i → slice written i n ≡ slice b.buffer i n
  written_behind i n behind =
      let room = ring.room in
      let inside = ring.head_in in
      let same = length-set item b.head b.buffer in
      slice-set (set b.buffer b.head item) i n (b.head + 1) end_item (omega arith) (inl behind)
      ∙ slice-set b.buffer i n b.head item (omega arith) (inl (omega arith))

  written_at : get_or written b.head 0 ≡ item
  written_at =
      let room = ring.room in
      let inside = ring.head_in in
      let same = length-set item b.head b.buffer in
      let miss : (b.head + 1 == b.head) ≡ false = ground arith in
      let hit : (b.head == b.head) ≡ true = ground arith in
      get_or-set end_item 0 (b.head + 1) b.head (set b.buffer b.head item) (omega arith)
      ∙ rw miss (get_or-set item 0 b.head b.head b.buffer (omega arith) ∙ rw hit refl)

  -- A run up to `head` has the new item at its end.
  written_run :
      (i n : ℕ) → i + n ≡ b.head → slice written i (suc n) ≡ slice b.buffer i n ++ (item ∷ [])
  written_run i n e =
      slice-snoc written i n
      ∙ rw e (rw written_at (ap (λ t. t ++ (item ∷ [])) (written-slice i n (omega arith))))

  -- The items from the ring's start, behind others.
  front_run :
      (front : List ℕ)
      → front ++ slice written 0 (b.head + 1) ≡ (front ++ slice b.buffer 0 b.head) ++ (item ∷ [])
  front_run front =
      let e : b.head + 1 ≡ suc b.head = omega arith in
      ap (λ k. front ++ slice written 0 k) e
      ∙ ap (λ t. front ++ t) (written_run 0 b.head (omega arith))
      ∙ sym (append_assoc front (slice b.buffer 0 b.head) (item ∷ []))

  flag_on : b.maxed ≡ true → b.head + 1 ≡ b.tail
  flag_on held = let flag = ring.flag in (==_iff (b.head + 1) b.tail).0 (sym flag ∙ held)

  flag_off : b.maxed ≡ false → b.head + 1 ≢ b.tail
  flag_off free e =
      let flag = ring.flag in
      let on : b.maxed ≡ true = flag ∙ (==_iff (b.head + 1) b.tail).1 e in cc

  write-span :
      (tail' : ℕ)
      → (if b.maxed then (b.head + 2) % b.fixed_size else b.tail) ≡ tail'
      → contents (write b item) ≡ span written b.fixed_size tail' (after b.fixed_size b.head)
  unfolding write
  write-span tail' e = rw e (rw (mod_after b.fixed_size b.head ring.head_in) refl)

  -- Room behind `head`, in a ring whose items do not go round.
  write-low :
      b.tail ≤ b.head
      → b.head + 1 < b.fixed_size
      → contents (write b item) ≡ contents b ++ (item ∷ [])
  write-low low inner =
      let free : b.maxed ≡ false = ring.flag ∙ ground arith in
      let next : after b.fixed_size b.head ≡ b.head + 1 = ground arith in
      let n = b.head - b.tail in
      write-span b.tail (rw free refl)
      ∙ rw next (
          span-low written b.fixed_size b.tail (b.head + 1) (suc n) (omega arith)
          ∙ written_run b.tail n (omega arith)
          ∙ ap (λ t. t ++ (item ∷ []))
              (sym (span-low b.buffer b.fixed_size b.tail b.head n (omega arith))))

  -- The last place of the ring, with room before `tail`.
  write-round :
      b.tail ≤ b.head
      → b.head + 1 ≡ b.fixed_size
      → 0 < b.tail
      → contents (write b item) ≡ contents b ++ (item ∷ [])
  unfolding slice
  write-round low last some_room =
      let free : b.maxed ≡ false = ring.flag ∙ ground arith in
      let next : after b.fixed_size b.head ≡ 0 = ground arith in
      let n = b.head - b.tail in
      write-span b.tail (rw free refl)
      ∙ rw next (
          span-high written b.fixed_size b.tail 0 (suc n) some_room (omega arith)
          ∙ append-nil (slice written b.tail (suc n))
          ∙ written_run b.tail n (omega arith)
          ∙ ap (λ t. t ++ (item ∷ []))
              (sym (span-low b.buffer b.fixed_size b.tail b.head n (omega arith))))

  -- The last place of the ring, and nothing was consumed of it: `head` comes to stand on `tail`.
  write-lost : b.head + 1 ≡ b.fixed_size → b.tail ≡ 0 → contents (write b item) ≡ []
  unfolding slice
  write-lost last start =
      let free : b.maxed ≡ false = ring.flag ∙ ground arith in
      let next : after b.fixed_size b.head ≡ 0 = ground arith in
      write-span b.tail (rw free refl)
      ∙ rw next (rw start (span-low written b.fixed_size 0 0 0 (omega arith)))

  -- Room between `head` and `tail`.
  write-high : b.head + 1 < b.tail → contents (write b item) ≡ contents b ++ (item ∷ [])
  write-high between =
      let inside = ring.tail_in in
      let free : b.maxed ≡ false = ring.flag ∙ ground arith in
      let next : after b.fixed_size b.head ≡ b.head + 1 = ground arith in
      let n = b.fixed_size - b.tail in
      write-span b.tail (rw free refl)
      ∙ rw next (
          span-high written b.fixed_size b.tail (b.head + 1) n between (omega arith)
          ∙ ap (λ t. t ++ slice written 0 (b.head + 1)) (written_behind b.tail n between)
          ∙ front_run (slice b.buffer b.tail n)
          ∙ ap (λ t. t ++ (item ∷ []))
              (sym (span-high b.buffer b.fixed_size b.tail b.head n (omega arith) (omega arith))))

  -- The ring is full: the oldest item goes.
  write-full : b.head + 1 ≡ b.tail → contents (write b item) ≡ drop 1 (contents b) ++ (item ∷ [])
  unfolding slice
  write-full touching =
      let inside = ring.tail_in in
      let held : b.maxed ≡ true = ring.flag ∙ ground arith in
      let next : after b.fixed_size b.head ≡ b.head + 1 = ground arith in
      let size = b.fixed_size in
      let n = size - b.tail - 1 in
      let old : contents b ≡ slice b.buffer b.tail (suc n) ++ slice b.buffer 0 b.head =
        span-high b.buffer size b.tail b.head (suc n) (omega arith) (omega arith) in
      let dropped : drop 1 (contents b) ≡ slice b.buffer (suc b.tail) n ++ slice b.buffer 0 b.head =
        ap (drop 1) old in
      let beyond : suc b.tail ≡ b.head + 1 + 1 = omega arith in
      let tail_after : (if b.maxed then (b.head + 2) % size else b.tail) ≡ after size (b.head + 1) =
        rw held (mod_after_two size b.head (omega arith)) in
      write-span (after size (b.head + 1)) tail_after
      ∙ rw next (elim (Bool-cases (b.head + 1 + 1 == size)) [
        | inl last ↦
            let none_left : n ≡ 0 = ground arith in
            rw last (
              span-low written size 0 (b.head + 1) (b.head + 1) (omega arith)
              ∙ front_run []
              ∙ ap (λ t. t ++ (item ∷ []))
                  (sym (
                    dropped
                    ∙ ap (λ k. slice b.buffer (suc b.tail) k ++ slice b.buffer 0 b.head)
                        none_left)))
        | inr inner ↦ rw inner (
            span-high written size (b.head + 1 + 1) (b.head + 1) n (omega arith) (ground arith)
            ∙ ap (λ t. t ++ slice written 0 (b.head + 1))
                (written_behind (b.head + 1 + 1) n (omega arith))
            ∙ front_run (slice b.buffer (b.head + 1 + 1) n)
            ∙ ap (λ t. t ++ (item ∷ []))
                (sym (dropped ∙ ap (λ k. slice b.buffer k n ++ slice b.buffer 0 b.head) beyond)))
      ])

  write-free :
      b.maxed ≡ false
      → ((b.head + 1 == b.fixed_size) && (b.tail == 0)) ≡ false
      → contents (write b item) ≡ contents b ++ (item ∷ [])
  write-free free fine =
      let apart = flag_off free in
      let head_in = ring.head_in in
      elim (Bool-cases (leb b.tail b.head)) [
        | inr high ↦ write-high (ground arith)
        | inl low ↦ elim (Bool-cases (b.head + 1 == b.fixed_size)) [
          | inl last ↦ write-round (ground arith) (ground arith) (ground arith)
          | inr inner ↦ write-low (ground arith) (ground arith)
        ]
      ]

  -- What a write of one item does to the queue, in every state of a ring: the item comes last, and
  -- where the ring was full the first one goes; but where the items fill the ring from its start to its
  -- end, all of them are lost, the new one too.
  pub contents-write : contents (write b item) ≡ (
      if (b.head + 1 == b.fixed_size) && (b.tail == 0)
      then []
      else (if b.maxed then drop 1 (contents b) else contents b) ++ (item ∷ []))
  contents-write =
      let lost = (b.head + 1 == b.fixed_size) && (b.tail == 0) in
      let kept = if b.maxed then drop 1 (contents b) else contents b in
      let head_in = ring.head_in in
      let tail_in = ring.tail_in in
      elim (Bool-cases lost) [
        | inl worst ↦ write-lost (ground arith) (ground arith) ∙ sym (if_true lost _ _ worst)
        | inr fine ↦
            (elim (Bool-cases b.maxed) [
              | inl held ↦
                  write-full (flag_on held)
                  ∙ ap (λ t. t ++ (item ∷ [])) (sym (if_true b.maxed _ _ held))
              | inr free ↦
                  write-free free fine
                  ∙ ap (λ t. t ++ (item ∷ [])) (sym (if_false b.maxed _ _ free))
            ])
            ∙ sym (if_false lost [] (kept ++ (item ∷ [])) fine)
      ]
