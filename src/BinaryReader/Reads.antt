-- ===== src/BinaryReader/Reads.antt =====
-- What a read does where the bytes are there: `Reads m bs a` for a method that takes the bytes `bs`
-- off the input and returns `a`, with a rule for each way to compose methods.
use ble_smoke_detector.Common.{
  ℕ, ◌+◌, ◌*◌, ◌/◌, ◌%◌, ◌^◌, ◌<◌, ◌≡◌, refl, sym, ap, subst, ◌∙◌, some, false, List, [], ◌∷◌, ◌++◌,
  arith, bit_or, ltb, ltb-eq_false, length, length-append, take, drop, drop-append, get_or-drop,
  take-length_append,
}
use ble_smoke_detector.Common.Bits.{bit_or_sum}
use ble_smoke_detector.BinaryReader.{
  BinaryReader, ReaderM, ◌>>=◌, pure, advance, byte_at, shl_or, four_bytes, eight_bytes, read_uint8,
  read_uint16, read_int32, read_uint32, read_uint64, read_data, read_remainder_len,
}
use mathlib.Core.List.{append_assoc, append-nil}

abbrev pub IsByte : ℕ → Type 0
IsByte b = b < 256

-- `bs` is the input that is left, up to `buffer_size`; `junk` is memory behind it.
pub record At (r : BinaryReader) (bs junk : List ℕ) : Type 0 where
  pub fits : drop r.pos r.buffer ≡ bs ++ junk
  pub sized : r.pos + length bs ≡ r.buffer_size
  pub small : r.buffer_size < 2 ^ 16

pub advance-At :
    (r : BinaryReader) (bs rest junk : List ℕ)
    → At r (bs ++ rest) junk
    → At (advance r (length bs)) rest junk
advance-At r bs rest junk h =
    let room : r.pos + length bs + length rest ≡ r.buffer_size =
      omega (arith, h.sized, length-append bs rest) in
    let stay : (r.pos + length bs) % 2 ^ 16 ≡ r.pos + length bs = omega (arith, room, h.small) in
    record {
      fits =
          rw stay
            (drop-append r.pos bs (rest ++ junk) r.buffer (h.fits ∙ append_assoc bs rest junk));
      sized = rw stay room;
      small = h.small;
    }

pub advance-advance : (r : BinaryReader) (m n : ℕ) → advance (advance r m) n ≡ advance r (m + n)
advance-advance r m n = ap (λ p. record r { pos = p }) (omega arith)

pub record Reads {A : Type 0} (m : ReaderM A) (bs : List ℕ) (a : A) : Type 0 where
  pub runs :
      (r : BinaryReader) (rest junk : List ℕ)
      → At r (bs ++ rest) junk
      → m r ≡ (a, advance r (length bs))

pub Reads-pure : {A : Type 0} (a : A) → Reads (pure a) [] a
unfolding pure
Reads-pure a = record {
  runs = λ r rest junk h. ap (λ p. (a, record r { pos = p })) (sym (here r rest junk h));
}
  where
    here : (r : BinaryReader) (rest junk : List ℕ) → At r rest junk → (r.pos + 0) % 2 ^ 16 ≡ r.pos
    here r rest junk h = omega (arith, h.sized, h.small)

pub Reads-bind :
    {A B : Type 0} {m : ReaderM A} (f : A → ReaderM B) {bs cs : List ℕ} {a : A} {b : B}
    → Reads m bs a
    → Reads (f a) cs b
    → Reads (m >>= f) (bs ++ cs) b
unfolding ◌>>=◌
Reads-bind {m = m} f {bs = bs} {cs = cs} {a = a} {b = b} hm hf = record {
  runs = λ r rest junk h.
      let here : At r (bs ++ (cs ++ rest)) junk = rw append_assoc at h in
      rw (hm.runs r (cs ++ rest) junk here) (
        hf.runs (advance r (length bs)) rest junk (advance-At r bs (cs ++ rest) junk here)
        ∙ ap (λ q. (b, q))
            (advance-advance r (length bs) (length cs)
              ∙ ap (advance r) (sym (length-append bs cs))));
}

-- A read whose value is stored.
pub Reads-store :
    {A B : Type 0} {m : ReaderM A} {bs : List ℕ} {a : A} (f : A → B)
    → Reads m bs a
    → Reads (m >>= λ x. pure (f x)) bs (f a)
Reads-store {m = m} {bs = bs} {a = a} f h =
    subst (λ l. Reads (m >>= λ x. pure (f x)) l (f a)) (append-nil bs)
      (Reads-bind _ h (Reads-pure (f a)))

-- The byte `k` places on.
byte_at-lem :
    (r : BinaryReader) (k x : ℕ) (rest : List ℕ)
    → drop (r.pos + k) r.buffer ≡ x ∷ rest
    → byte_at r k ≡ x
byte_at-lem r k x rest e = get_or-drop (r.pos + k) r.buffer 0 x rest e

At-byte :
    (r : BinaryReader) (xs : List ℕ) (x : ℕ) (rest junk : List ℕ)
    → At r (xs ++ (x ∷ rest)) junk
    → byte_at r (length xs) ≡ x
At-byte r xs x rest junk h =
    byte_at-lem r (length xs) x (rest ++ junk) (
      drop-append r.pos xs (x ∷ (rest ++ junk)) r.buffer (h.fits ∙ append_assoc xs (x ∷ rest) junk))

At-room :
    (r : BinaryReader) (bs rest junk : List ℕ)
    → At r (bs ++ rest) junk
    → ltb r.buffer_size (r.pos + length bs) ≡ false
At-room r bs rest junk h =
    ltb-eq_false r.buffer_size (r.pos + length bs) (omega (arith, h.sized, length-append bs rest))

pub Reads-read_uint8 : (b : ℕ) → Reads read_uint8 (b ∷ []) b
unfolding read_uint8
Reads-read_uint8 b = record {
  runs = λ r rest junk h.
      rw (At-room r (b ∷ []) rest junk h) (ap (λ x. (x, advance r 1)) (At-byte r [] b rest junk h));
}

-- A value by its bytes, first the highest.
two_sum : (a b : ℕ) → IsByte b → shl_or a 8 b ≡ a * 2 ^ 8 + b
two_sum a b hb = bit_or_sum 8 a (a * 2 ^ 8) b refl hb

four_sum :
    (a b c d : ℕ)
    → IsByte b
    → IsByte c
    → IsByte d
    → four_bytes a b c d ≡ a * 2 ^ 24 + b * 2 ^ 16 + c * 2 ^ 8 + d
four_sum a b c d hb hc hd = rw (bit_or_sum 24 a (a * 2 ^ 24) (b * 2 ^ 16) refl (omega arith)) (
    rw
      (bit_or_sum 16 (a * 2 ^ 8 + b) (a * 2 ^ 24 + b * 2 ^ 16) (c * 2 ^ 8) (omega arith)
        (omega arith))
      (bit_or_sum 8 (a * 2 ^ 16 + b * 2 ^ 8 + c) (a * 2 ^ 24 + b * 2 ^ 16 + c * 2 ^ 8) d
        (omega arith) hd))

upper_sum :
    (a b c d : ℕ)
    → IsByte b
    → IsByte c
    → IsByte d
    → bit_or (bit_or (bit_or (a * 2 ^ 56) (b * 2 ^ 48)) (c * 2 ^ 40)) (d * 2 ^ 32)
      ≡ (a * 2 ^ 24 + b * 2 ^ 16 + c * 2 ^ 8 + d) * 2 ^ 32
upper_sum a b c d hb hc hd = rw (bit_or_sum 56 a (a * 2 ^ 56) (b * 2 ^ 48) refl (omega arith)) (
    rw
      (bit_or_sum 48 (a * 2 ^ 8 + b) (a * 2 ^ 56 + b * 2 ^ 48) (c * 2 ^ 40) (omega arith)
        (omega arith))
      (bit_or_sum 40 (a * 2 ^ 16 + b * 2 ^ 8 + c) (a * 2 ^ 56 + b * 2 ^ 48 + c * 2 ^ 40)
          (d * 2 ^ 32) (omega arith) (omega arith)
        ∙ omega arith))

lower_sum :
    (u e f g h : ℕ)
    → IsByte e
    → IsByte f
    → IsByte g
    → IsByte h
    → bit_or (bit_or (bit_or (bit_or (u * 2 ^ 32) (e * 2 ^ 24)) (f * 2 ^ 16)) (g * 2 ^ 8)) h
      ≡ u * 2 ^ 32 + e * 2 ^ 24 + f * 2 ^ 16 + g * 2 ^ 8 + h
lower_sum u e f g h he hf hg hh =
    rw (bit_or_sum 32 u (u * 2 ^ 32) (e * 2 ^ 24) refl (omega arith)) (
      rw
        (bit_or_sum 24 (u * 2 ^ 8 + e) (u * 2 ^ 32 + e * 2 ^ 24) (f * 2 ^ 16) (omega arith)
          (omega arith))
        (rw
          (bit_or_sum 16 (u * 2 ^ 16 + e * 2 ^ 8 + f) (u * 2 ^ 32 + e * 2 ^ 24 + f * 2 ^ 16)
            (g * 2 ^ 8) (omega arith) (omega arith))
          (bit_or_sum 8 (u * 2 ^ 24 + e * 2 ^ 16 + f * 2 ^ 8 + g)
            (u * 2 ^ 32 + e * 2 ^ 24 + f * 2 ^ 16 + g * 2 ^ 8) h (omega arith) hh)))

-- The big-endian bytes of a word.
unfoldable pub bytes16 : ℕ → List ℕ
bytes16 v = (v / 2 ^ 8 % 256) ∷ (v % 256) ∷ []

unfoldable pub bytes32 : ℕ → List ℕ
bytes32 v = (v / 2 ^ 24 % 256) ∷ (v / 2 ^ 16 % 256) ∷ (v / 2 ^ 8 % 256) ∷ (v % 256) ∷ []

unfoldable pub bytes64 : ℕ → List ℕ
bytes64 v =
    (v / 2 ^ 56 % 256)
    ∷ (v / 2 ^ 48 % 256)
    ∷ (v / 2 ^ 40 % 256)
    ∷ (v / 2 ^ 32 % 256)
    ∷ (v / 2 ^ 24 % 256)
    ∷ (v / 2 ^ 16 % 256)
    ∷ (v / 2 ^ 8 % 256)
    ∷ (v % 256)
    ∷ []

mod-IsByte : (v : ℕ) → IsByte (v % 256)
mod-IsByte v = omega arith

four_value :
    (v : ℕ)
    → v < 2 ^ 32
    → v / 2 ^ 24 % 256 * 2 ^ 24 + v / 2 ^ 16 % 256 * 2 ^ 16 + v / 2 ^ 8 % 256 * 2 ^ 8 + v % 256 ≡ v
four_value v h = omega arith

upper_value :
    (v : ℕ)
    → v < 2 ^ 64
    → v / 2 ^ 56 % 256 * 2 ^ 24
        + v / 2 ^ 48 % 256 * 2 ^ 16
        + v / 2 ^ 40 % 256 * 2 ^ 8
        + v / 2 ^ 32 % 256
      ≡ v / 2 ^ 32
upper_value v h = omega arith

lower_value :
    (v : ℕ)
    → v / 2 ^ 32 * 2 ^ 32
        + v / 2 ^ 24 % 256 * 2 ^ 24
        + v / 2 ^ 16 % 256 * 2 ^ 16
        + v / 2 ^ 8 % 256 * 2 ^ 8
        + v % 256
      ≡ v
lower_value v = omega arith

pub Reads-read_uint16 : (v : ℕ) → v < 2 ^ 16 → Reads read_uint16 (bytes16 v) v
unfolding read_uint16 bytes16
Reads-read_uint16 v hv = record {
  runs = λ r rest junk h. rw (At-room r (bytes16 v) rest junk h) (
      ap (λ x. (x, advance r 2))
        (rw (At-byte r [] _ _ junk h, At-byte r ((v / 2 ^ 8 % 256) ∷ []) _ _ junk h)
          (two_sum _ (v % 256) (mod-IsByte v) ∙ omega arith)));
}

module _ (v : ℕ) (hv : v < 2 ^ 32) (r : BinaryReader) (rest junk : List ℕ)
    (h : At r (bytes32 v ++ rest) junk) where
  four_read : four_bytes (byte_at r 0) (byte_at r 1) (byte_at r 2) (byte_at r 3) ≡ v
  unfolding bytes32
  four_read =
      rw
        (
          At-byte r [] _ _ junk h,
          At-byte r ((v / 2 ^ 24 % 256) ∷ []) _ _ junk h,
          At-byte r ((v / 2 ^ 24 % 256) ∷ (v / 2 ^ 16 % 256) ∷ []) _ _ junk h,
          At-byte r ((v / 2 ^ 24 % 256) ∷ (v / 2 ^ 16 % 256) ∷ (v / 2 ^ 8 % 256) ∷ []) _ _ junk h,
        )
        (four_sum _ _ _ _ (mod-IsByte _) (mod-IsByte _) (mod-IsByte v) ∙ four_value v hv)

pub Reads-read_uint32 : (v : ℕ) → v < 2 ^ 32 → Reads read_uint32 (bytes32 v) v
unfolding read_uint32 bytes32
Reads-read_uint32 v hv = record {
  runs = λ r rest junk h.
      rw (At-room r (bytes32 v) rest junk h)
        (ap (λ x. (x, advance r 4)) (four_read v hv r rest junk h));
}

pub Reads-read_int32 : (v : ℕ) → v < 2 ^ 32 → Reads read_int32 (bytes32 v) v
unfolding read_int32 bytes32
Reads-read_int32 v hv = record {
  runs = λ r rest junk h.
      rw (At-room r (bytes32 v) rest junk h)
        (ap (λ x. (x, advance r 4)) (four_read v hv r rest junk h));
}

eight_sum :
    (v : ℕ)
    → v < 2 ^ 64
    → eight_bytes
        (v / 2 ^ 56 % 256)
        (v / 2 ^ 48 % 256)
        (v / 2 ^ 40 % 256)
        (v / 2 ^ 32 % 256)
        (v / 2 ^ 24 % 256)
        (v / 2 ^ 16 % 256)
        (v / 2 ^ 8 % 256)
        (v % 256)
      ≡ v
eight_sum v hv =
    rw
      (upper_sum (v / 2 ^ 56 % 256) _ _ _ (mod-IsByte (v / 2 ^ 48)) (mod-IsByte (v / 2 ^ 40))
        (mod-IsByte (v / 2 ^ 32)))
      (rw (upper_value v hv) (
        lower_sum (v / 2 ^ 32) _ _ _ _ (mod-IsByte (v / 2 ^ 24)) (mod-IsByte (v / 2 ^ 16))
          (mod-IsByte (v / 2 ^ 8)) (mod-IsByte v)
        ∙ lower_value v))

pub Reads-read_uint64 : (v : ℕ) → v < 2 ^ 64 → Reads read_uint64 (bytes64 v) v
unfolding read_uint64 bytes64
Reads-read_uint64 v hv = record {
  runs = λ r rest junk h. rw (At-room r (bytes64 v) rest junk h) (
      ap (λ x. (x, advance r 8))
        (rw
          (
            At-byte r [] _ _ junk h,
            At-byte r (take 1 (bytes64 v)) _ _ junk h,
            At-byte r (take 2 (bytes64 v)) _ _ junk h,
            At-byte r (take 3 (bytes64 v)) _ _ junk h,
            At-byte r (take 4 (bytes64 v)) _ _ junk h,
            At-byte r (take 5 (bytes64 v)) _ _ junk h,
            At-byte r (take 6 (bytes64 v)) _ _ junk h,
            At-byte r (take 7 (bytes64 v)) _ _ junk h,
          )
          (eight_sum v hv)));
}

pub Reads-read_data : (bs : List ℕ) → Reads (read_data (length bs)) bs (some bs)
unfolding read_data
Reads-read_data bs = record {
  runs = λ r rest junk h. rw (At-room r bs rest junk h) (
      ap (λ x. (some x, advance r (length bs)))
        (rw (h.fits ∙ append_assoc bs rest junk) (take-length_append bs (rest ++ junk))));
}

-- What `read_remainder_len` counts.
pub read_remainder_len-At :
    (r : BinaryReader) (bs junk : List ℕ) → At r bs junk → read_remainder_len r ≡ (length bs, r)
unfolding read_remainder_len
read_remainder_len-At r bs junk h = ap (λ n. (n, r)) (omega (arith, h.sized, h.small))
