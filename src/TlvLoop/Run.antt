-- ===== src/TlvLoop/Run.antt =====
-- The loop over a payload that was written entry by entry: it applies each entry once, in order, and
-- stops behind the last.
use ble_smoke_detector.Common.{
  ℕ, zero, suc, ◌+◌, ◌-◌, ◌%◌, ◌^◌, ◌≤◌, ◌<◌, ◌≡◌, refl, sym, ap, subst, ◌∙◌, arith, Bool, true,
  false, some, List, [], ◌∷◌, ◌++◌, ltb, ltb-eq_false, lt→ltb, length, length-append,
}
use ble_smoke_detector.BinaryReader.{BinaryReader, ◌>>=◌, pure, advance}
use ble_smoke_detector.BinaryReader.Reads.{
  At, Reads, Reads-bind, Reads-read_uint8, advance-At, advance-advance, read_remainder_len-At,
}
use ble_smoke_detector.TlvLoop.{
  TlvClass, tlv_round, tlv_again, tlv_loop, longer_than_payload, next_round,
}
use mathlib.Core.List.{append_assoc, append-nil}

abbrev pub Entry : Type 0
Entry = ℕ × List ℕ

abbrev pub entry_bytes : Entry → List ℕ
entry_bytes (type, value) = type ∷ length value ∷ value

unfoldable pub encode_entries : List Entry → List ℕ
encode_entries [] = []
encode_entries (e ∷ es) = entry_bytes e ++ encode_entries es

pub encode-append :
    (es fs : List Entry) → encode_entries (es ++ fs) ≡ encode_entries es ++ encode_entries fs
unfolding encode_entries
encode-append [] fs = refl
encode-append (e ∷ es) fs = rw (encode-append es fs) (sym (append_assoc (entry_bytes e) _ _))

module _ {A : Type 0} (c : TlvClass A) (len : ℕ) where
  -- One entry takes the packet from `a` to `b`, which is well formed and knows its payload's length.
  pub record Applies (e : Entry) (a b : A) : Type 0 where
    pub value : Reads (c.read_value e.0 (length e.1) a) e.1 b
    pub fine : c.is_malformed b ≡ false
    pub known : c.get_payload_length b ≡ (len, b)

  pub data Run : List Entry → A → A → Type 0 where
    stop : {a : A} → Run [] a a
    step : {e : Entry} {es : List Entry} {a b d : A} → Applies e a b → Run es b d → Run (e ∷ es) a d

  pub Run-append : {es fs : List Entry} {a b d : A} → Run es a b → Run fs b d → Run (es ++ fs) a d
  Run-append stop r = r
  Run-append (step h t) r = step h (Run-append t r)

  Reads-tlv_round : (e : Entry) (a b : A) → Applies e a b → Reads (tlv_round c a) (entry_bytes e) b
  unfolding tlv_round
  Reads-tlv_round (t, v) a b h =
      Reads-bind _ (Reads-read_uint8 t) (Reads-bind _ (Reads-read_uint8 (length v)) h.value)

  -- The loop's test with `left` still to be read, of which `rest` lies behind the payload.
  tlv_again-At :
      (tail : ℕ) (r : BinaryReader) (b : A) (left rest junk : List ℕ)
      → c.is_malformed b ≡ false
      → c.get_payload_length b ≡ (len, b)
      → At r left junk
      → tail ≡ len + length rest
      → tail < 2 ^ 16
      → tlv_again c tail b r ≡ ((ltb (length rest) (length left), b), r)
  unfolding tlv_again ◌>>=◌ pure longer_than_payload
  tlv_again-At tail r b left rest junk fine known h e small =
      let quotient : (tail + 2 ^ 32 - len) % 2 ^ 32 ≡ length rest = omega arith in
      rw (read_remainder_len-At r left junk h, fine, known)
        (ap (λ n. ((ltb n (length left), b), r)) quotient)

  module _ (tail : ℕ) (rest junk : List ℕ) (whole : tail ≡ len + length rest)
      (small : tail < 2 ^ 16) (e : Entry) {a b : A} (h : Applies e a b) (r : BinaryReader) where
    r' : BinaryReader
    r' = advance r (length (entry_bytes e))

    round_eq :
        (left : List ℕ)
        → At r (entry_bytes e ++ left) junk
        → (tlv_round c a >>= tlv_again c tail) r ≡ ((ltb (length rest) (length left), b), r')
    unfolding ◌>>=◌ r'
    round_eq left at = rw ((Reads-tlv_round e a b h).runs r left junk at) (
        tlv_again-At tail _ b left rest junk h.fine h.known
          (advance-At r (entry_bytes e) left junk at) whole small)

    last_round :
        (fuel : ℕ)
        → At r (entry_bytes e ++ rest) junk
        → tlv_loop c (suc fuel) tail a r ≡ some (b, r')
    unfolding tlv_loop next_round
    last_round fuel at =
        rw (round_eq rest at, ltb-eq_false (length rest) (length rest) (omega arith), next_round)
          refl

    inner_round :
        (fuel : ℕ) (left : List ℕ)
        → length rest < length left
        → At r (entry_bytes e ++ left) junk
        → tlv_loop c (suc fuel) tail a r ≡ tlv_loop c fuel tail b r'
    unfolding tlv_loop next_round
    inner_round fuel left more at =
        rw (round_eq left at, lt→ltb (length rest) (length left) more, next_round) refl

  -- `es` are the entries behind `e`.
  pub tlv_loop-Run :
      (tail : ℕ) (rest junk : List ℕ)
      → tail ≡ len + length rest
      → tail < 2 ^ 16
      → (e : Entry) (es : List Entry) {a b d : A} (fuel : ℕ) (r : BinaryReader) → Applies e a b
      → Run es b d
      → length es ≤ fuel
      → At r (encode_entries (e ∷ es) ++ rest) junk
      → tlv_loop c (suc fuel) tail a r ≡ some (d, advance r (length (encode_entries (e ∷ es))))
  unfolding encode_entries r'
  tlv_loop-Run tail rest junk whole small e [] {d = d} fuel r h stop room at =
      last_round tail rest junk whole small e h r fuel
        (rw (append_assoc (entry_bytes e) [] rest) at at)
      ∙ ap (λ l. some (d, advance r (length l))) (sym (append-nil (entry_bytes e)))
  tlv_loop-Run tail rest junk whole small e (f ∷ es) zero r h (step k t) room at =
      absurd (omega arith)
  tlv_loop-Run tail rest junk whole small e (f ∷ es) {b = b} {d = d} (suc fuel) r h (step k t) room
        at =
      let left = encode_entries (f ∷ es) ++ rest in
      let here : At r (entry_bytes e ++ left) junk =
        rw (append_assoc (entry_bytes e) (encode_entries (f ∷ es)) rest) at at in
      inner_round tail rest junk whole small e h r (suc fuel) left
        (omega (
          arith,
          length-append (encode_entries (f ∷ es)) rest,
          length-append (entry_bytes f) (encode_entries es),
        ))
        here
      ∙ tlv_loop-Run tail rest junk whole small f es fuel (advance r (length (entry_bytes e))) k t
          (omega arith) (advance-At r (entry_bytes e) left junk here)
      ∙ ap (λ q. some (d, q))
          (advance-advance r _ _
            ∙ ap (advance r) (sym (length-append (entry_bytes e) (encode_entries (f ∷ es)))))

-- An entry that is written only under a condition.
abbrev pub optional : Bool → Entry → List Entry
optional true e = e ∷ []
optional false e = []

pub length-entries : (es : List Entry) → length es ≤ length (encode_entries es)
unfolding encode_entries
length-entries [] = omega arith
length-entries ((t, v) ∷ es) = omega (arith, length-entries es, length-append v (encode_entries es))

-- The loop over any list of entries that is not empty.
pub tlv_loop-entries :
    {A : Type 0} (c : TlvClass A) (len tail fuel : ℕ) (es : List Entry) (a d : A) (r : BinaryReader)
    (rest junk : List ℕ)
    → Run c len es a d
    → 0 < length (encode_entries es)
    → tail ≡ len + length rest
    → tail < 2 ^ 16
    → length es ≤ fuel
    → At r (encode_entries es ++ rest) junk
    → tlv_loop c (suc fuel) tail a r ≡ some (d, advance r (length (encode_entries es)))
unfolding encode_entries
tlv_loop-entries c len tail fuel [] a d r rest junk run some_bytes whole small room at =
    absurd (omega arith)
tlv_loop-entries c len tail fuel (e ∷ es) a d r rest junk (step h t) some_bytes whole small room
      at =
    tlv_loop-Run c len tail rest junk whole small e es fuel r h t (omega arith) at

pub Run-optional :
    {A : Type 0} (c : TlvClass A) (len : ℕ) (cond : Bool) (e : Entry) (a b : A)
    → (cond ≡ true → Applies c len e a b)
    → (cond ≡ false → a ≡ b)
    → Run c len (optional cond e) a b
Run-optional c len true e a b applied skipped = step (applied refl) stop
Run-optional c len false e a b applied skipped = subst (λ d. Run c len [] a d) (skipped refl) stop
