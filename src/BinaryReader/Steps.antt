-- ===== src/BinaryReader/Steps.antt =====
-- How far the reads of src/BLEPacket/BinaryReader.cpp go, whatever the buffer holds.
use ble_smoke_detector.Common.{
  ℕ, ◌+◌, ◌^◌, ◌≤◌, ◌<◌, ◌≡◌, refl, ◌∙◌, arith, Bool, true, false, get_or, if◌then◌else◌,
}
use ble_smoke_detector.BinaryReader.{
  BinaryReader, ReaderM, ◌>>=◌, pure, advance, read_uint8, read_uint16, read_int32, read_uint32,
  read_uint64, read_data,
}

-- What reading does to a reader: it goes on, by a bounded number of bytes.
pub record Moves (most : ℕ) (r r' : BinaryReader) : Type 0 where
  pub buffer : r'.buffer ≡ r.buffer
  pub buffer_size : r'.buffer_size ≡ r.buffer_size
  pub forward : r.pos ≤ r'.pos
  pub bounded : r'.pos ≤ r.pos + most

-- The memory of the buffer holds bytes.
abbrev pub HasBytes : BinaryReader → Type 0
HasBytes r = (i : ℕ) → get_or r.buffer i 0 < 256

pub HasBytes-Moves : {most : ℕ} (r r' : BinaryReader) → Moves most r r' → HasBytes r → HasBytes r'
HasBytes-Moves r r' moved bytes i = let e = moved.buffer in rw e (bytes i)

-- A method that reads at most so many bytes, and a value of which `P` holds.
pub record Steps {A : Type 0} (most : ℕ) (P : A → Type 0) (m : ReaderM A) : Type 0 where
  pub moves : (r : BinaryReader) → HasBytes r → r.pos + most < 2 ^ 16 → Moves most r (m r).1
  pub value : (r : BinaryReader) → HasBytes r → r.pos + most < 2 ^ 16 → P (m r).0

abbrev pub Anything : {A : Type 0} → A → Type 0
Anything a = Unit {0}

pub Moves-advance : (n : ℕ) (r : BinaryReader) → r.pos + n < 2 ^ 16 → Moves n r (advance r n)
Moves-advance n r h = record {
  buffer = refl;
  buffer_size = refl;
  forward = omega arith;
  bounded = omega arith;
}

pub Moves-more : (m n : ℕ) (r r' : BinaryReader) → m ≤ n → Moves m r r' → Moves n r r'
Moves-more m n r r' h moved =
    let bound = moved.bounded in
    record {
      buffer = moved.buffer;
      buffer_size = moved.buffer_size;
      forward = moved.forward;
      bounded = omega arith;
    }

pub Moves-trans :
    (m n : ℕ) (r r' r'' : BinaryReader) → Moves m r r' → Moves n r' r'' → Moves (m + n) r r''
Moves-trans m n r r' r'' first second =
    let f1 = first.forward in
    let f2 = second.forward in
    let b1 = first.bounded in
    let b2 = second.bounded in
    record {
      buffer = second.buffer ∙ first.buffer;
      buffer_size = second.buffer_size ∙ first.buffer_size;
      forward = omega arith;
      bounded = omega arith;
    }

module _ {A : Type 0} where
  pub Steps-pure : (P : A → Type 0) (a : A) → P a → Steps 0 P (pure a)
  unfolding pure
  Steps-pure P a h = record {
    moves = λ r bytes room. record {
      buffer = refl;
      buffer_size = refl;
      forward = omega arith;
      bounded = omega arith;
    };
    value = λ r bytes room. h;
  }

  pub Steps-more : (P : A → Type 0) (m n : ℕ) (f : ReaderM A) → m ≤ n → Steps m P f → Steps n P f
  Steps-more P m n f h s = record {
    moves = λ r bytes room. Moves-more m n r (f r).1 h (s.moves r bytes (omega arith));
    value = λ r bytes room. s.value r bytes (omega arith);
  }

  pub Steps-if :
      (P : A → Type 0) (n : ℕ) (b : Bool) (f g : ReaderM A)
      → Steps n P f
      → Steps n P g
      → Steps n P (if b then f else g)
  Steps-if P n true f g s t = s
  Steps-if P n false f g s t = t

pub Steps-bind :
    {A B : Type 0} (P : A → Type 0) (Q : B → Type 0) (m n : ℕ) (f : ReaderM A) (g : A → ReaderM B)
    → Steps m P f
    → ((a : A) → P a → Steps n Q (g a))
    → Steps (m + n) Q (f >>= g)
unfolding ◌>>=◌
Steps-bind P Q m n f g s t = record {
  moves = λ r bytes room.
      (let first = s.moves r bytes (omega arith) in
        let bound = first.bounded in
        Moves-trans m n r (f r).1 (g (f r).0 (f r).1).1 first (
          (t (f r).0 (s.value r bytes (omega arith))).moves (f r).1
            (HasBytes-Moves r (f r).1 first bytes) (omega arith)));
  value = λ r bytes room.
      (let first = s.moves r bytes (omega arith) in
        let bound = first.bounded in
        (t (f r).0 (s.value r bytes (omega arith))).value (f r).1
          (HasBytes-Moves r (f r).1 first bytes) (omega arith));
}

-- A method that always advances by the same number of bytes.
Steps-advance :
    {A : Type 0} (n : ℕ) (f : ReaderM A)
    → ((r : BinaryReader) → (f r).1 ≡ advance r n)
    → Steps n Anything f
Steps-advance n f e = record {
  moves = λ r bytes room. (let step = e r in rw step (Moves-advance n r room));
  value = λ r bytes room. tt;
}

pub Steps-read_uint8 : Steps 1 (λ v. v < 256) read_uint8
unfolding read_uint8
Steps-read_uint8 = record {
  moves = λ r bytes room.
      (let step : (read_uint8 r).1 ≡ advance r 1 = ground arith in
        rw step (Moves-advance 1 r room));
  value = λ r bytes room. ground (arith, bytes (r.pos + 0));
}

pub Steps-read_uint16 : Steps 2 Anything read_uint16
unfolding read_uint16
Steps-read_uint16 = Steps-advance 2 read_uint16 (λ r. ground arith)

pub Steps-read_int32 : Steps 4 Anything read_int32
unfolding read_int32
Steps-read_int32 = Steps-advance 4 read_int32 (λ r. ground arith)

pub Steps-read_uint32 : Steps 4 Anything read_uint32
unfolding read_uint32
Steps-read_uint32 = Steps-advance 4 read_uint32 (λ r. ground arith)

pub Steps-read_uint64 : Steps 8 Anything read_uint64
unfolding read_uint64
Steps-read_uint64 = Steps-advance 8 read_uint64 (λ r. ground arith)

pub Steps-read_data : (len : ℕ) → Steps len Anything (read_data len)
unfolding read_data
Steps-read_data len = Steps-advance len (read_data len) (λ r. ground arith)
