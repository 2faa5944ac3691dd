-- ===== src/TlvLoop/Termination.antt =====
-- The loop that the constructors of src/BLEPacket/Announce.cpp, Message.cpp and
-- MicroMeshPreferences.cpp share ends on every buffer: a round reads two bytes or more, and the round
-- that begins behind the end marks the packet as malformed.
use ble_smoke_detector.Common.{
  ℕ, zero, suc, ◌+◌, ◌^◌, ◌≤◌, ◌<◌, ◌≡◌, refl, ap, ◌∙◌, arith, Bool, true, false, Option, some, ltb,
  ltb→lt, Bool-cases, inl, inr,
}
use ble_smoke_detector.BinaryReader.{
  BinaryReader, ◌>>=◌, pure, advance, read_uint8, read_remainder_len,
}
use ble_smoke_detector.BinaryReader.Steps.{
  Moves, HasBytes, HasBytes-Moves, Steps, Anything, Steps-read_uint8,
}
use ble_smoke_detector.TlvLoop.{TlvClass, tlv_round, tlv_again, next_round, tlv_loop, tlv_fuel}

-- A buffer of bytes, short enough for the uint16_t position never to wrap.
pub record IsSafe (r : BinaryReader) : Type 0 where
  pub bytes : HasBytes r
  pub small : r.buffer_size + 600 ≤ 2 ^ 16

-- What the loop relies on in a class.
pub record IsBounded {A : Type 0} (c : TlvClass A) : Type 0 where
  pub moves : (type len : ℕ) (a : A) → len < 256 → Steps 256 Anything (c.read_value type len a)
  pub past_end :
      (a : A) (r : BinaryReader)
      → r.buffer_size < r.pos
      → c.is_malformed (c.read_value 0 0 a r).0 ≡ true

abbrev pub Returns : {A : Type 0} → Option A → Type 0
Returns {A} o = (x : A) × (o ≡ some x)

-- The reader behind the type and the length.
abbrev behind : BinaryReader → BinaryReader
behind r = advance (advance r 1) 1

uint8-rest : (r : BinaryReader) → (read_uint8 r).1 ≡ advance r 1
unfolding read_uint8
uint8-rest r = ground arith

uint8-end : (r : BinaryReader) → r.buffer_size < r.pos + 1 → (read_uint8 r).0 ≡ 0
unfolding read_uint8
uint8-end r h = ground arith

module _ {A : Type 0} (c : TlvClass A) where
  round-eq :
      (a : A) (r : BinaryReader)
      → tlv_round c a r ≡ c.read_value (read_uint8 r).0 (read_uint8 (advance r 1)).0 a (behind r)
  unfolding tlv_round ◌>>=◌
  round-eq a r = rw (uint8-rest r) (rw (uint8-rest (advance r 1)) refl)

  again-eq :
      (tail : ℕ) (a : A) (r : BinaryReader)
      → (b : Bool) × ((a' : A) × (tlv_again c tail a r ≡ ((b, a'), r)))
  unfolding tlv_again ◌>>=◌ pure read_remainder_len
  again-eq tail a r = (_, (_, refl))

  again-malformed :
      (tail : ℕ) (a : A) (r : BinaryReader)
      → c.is_malformed a ≡ true
      → tlv_again c tail a r ≡ ((false, a), r)
  unfolding tlv_again ◌>>=◌ pure read_remainder_len
  again-malformed tail a r e = rw e refl

  loop-eq :
      (fuel tail : ℕ) (a : A) (r : BinaryReader)
      → let (a', r') = tlv_round c a r in
        tlv_loop c (suc fuel) tail a r
        ≡ next_round c (tlv_again c tail a' r') (tlv_loop c fuel tail)
  unfolding tlv_loop ◌>>=◌
  loop-eq fuel tail a r = refl

  loop_past_end :
      IsBounded c
      → (fuel tail : ℕ) (a : A) (r : BinaryReader) → r.buffer_size < r.pos
      → r.pos + 2 < 2 ^ 16
      → Returns (tlv_loop c (suc fuel) tail a r)
  unfolding next_round
  loop_past_end bounded fuel tail a r over small =
      let a' = (c.read_value 0 0 a (behind r)).0 in
      let r' = (c.read_value 0 0 a (behind r)).1 in
      let round : tlv_round c a r ≡ (a', r') =
        round-eq a r
        ∙ ap (λ t. c.read_value t (read_uint8 (advance r 1)).0 a (behind r))
            (uint8-end r (omega arith))
        ∙ ap (λ l. c.read_value 0 l a (behind r)) (uint8-end (advance r 1) (omega arith)) in
      (
        (a', r'),
        loop-eq fuel tail a r
            ∙ ap
                (λ (s : A × BinaryReader).
                  next_round c (tlv_again c tail s.0 s.1) (tlv_loop c fuel tail))
                round
            ∙ ap (λ s. next_round c s (tlv_loop c fuel tail))
                (again-malformed tail a' r' (bounded.past_end a (behind r) (omega arith))),
      )

  next_round-Returns :
      (b : Bool) (a : A) (r : BinaryReader) (go_on : A → BinaryReader → Option (A × BinaryReader))
      → Returns (go_on a r)
      → Returns (next_round c ((b, a), r) go_on)
  unfolding next_round
  next_round-Returns true a r go_on h = h
  next_round-Returns false a r go_on h = ((a, r), refl)

  IsSafe-Moves : (r r' : BinaryReader) → Moves 256 (behind r) r' → IsSafe r → IsSafe r'
  IsSafe-Moves r r' moved safe = record {
    bytes = HasBytes-Moves (behind r) r' moved safe.bytes;
    small = (let e = moved.buffer_size in rw e safe.small);
  }

  loop_total :
      IsBounded c
      → (fuel tail : ℕ) (a : A) (r : BinaryReader) → IsSafe r
      → r.pos ≤ r.buffer_size
      → r.buffer_size + 2 ≤ fuel + r.pos
      → Returns (tlv_loop c fuel tail a r)
  loop_total bounded zero tail a r safe inside enough = absurd (omega arith)
  loop_total bounded (suc zero) tail a r safe inside enough = absurd (omega arith)
  loop_total bounded (suc (suc fuel)) tail a r safe inside enough =
      let t = (read_uint8 r).0 in
      let l = (read_uint8 (advance r 1)).0 in
      let a' = (c.read_value t l a (behind r)).0 in
      let r' = (c.read_value t l a (behind r)).1 in
      let small = safe.small in
      let moved =
        (bounded.moves t l a (Steps-read_uint8.value (advance r 1) safe.bytes (omega arith))).moves
          (behind r) safe.bytes (omega arith) in
      let (b, more) = again-eq tail a' r' in
      let (a'', again) = more in
      let step : tlv_loop c (suc (suc fuel)) tail a r
          ≡ next_round c ((b, a''), r') (tlv_loop c (suc fuel) tail) =
        loop-eq (suc fuel) tail a r
        ∙ ap
            (λ (s : A × BinaryReader).
              next_round c (tlv_again c tail s.0 s.1) (tlv_loop c (suc fuel) tail))
            (round-eq a r)
        ∙ ap (λ s. next_round c s (tlv_loop c (suc fuel) tail)) again in
      let size = moved.buffer_size in
      let forward = moved.forward in
      let bound = moved.bounded in
      let rest : Returns (tlv_loop c (suc fuel) tail a'' r') =
        elim (Bool-cases (ltb r'.buffer_size r'.pos)) [
          | inl over ↦
              loop_past_end bounded fuel tail a'' r' (ltb→lt r'.buffer_size r'.pos over)
                (omega arith)
          | inr not_over ↦
              let inside' : r'.pos ≤ r'.buffer_size = ground arith in
              loop_total bounded (suc fuel) tail a'' r' (IsSafe-Moves r r' moved safe) inside'
                (omega arith)
        ] in
      let (x, e) = next_round-Returns b a'' r' (tlv_loop c (suc fuel) tail) rest in (x, step ∙ e)

  -- On a buffer of bytes that is short enough for the position not to wrap, and from any position that
  -- does not wrap, the loop of any class that keeps its part of the interface ends within its fuel.
  pub tlv_loop-total :
      IsBounded c
      → (tail : ℕ) (a : A) (r : BinaryReader) → IsSafe r
      → r.pos + 300 ≤ 2 ^ 16
      → Returns (tlv_loop c (tlv_fuel r) tail a r)
  unfolding tlv_fuel
  tlv_loop-total bounded tail a r safe room = elim (Bool-cases (ltb r.buffer_size r.pos)) [
    | inl over ↦
        loop_past_end bounded (suc r.buffer_size) tail a r (ltb→lt r.buffer_size r.pos over)
          (omega arith)
    | inr not_over ↦
        let inside : r.pos ≤ r.buffer_size = ground arith in
        loop_total bounded (suc (suc r.buffer_size)) tail a r safe inside (omega arith)
  ]
