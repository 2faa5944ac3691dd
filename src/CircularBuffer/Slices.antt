-- ===== src/CircularBuffer/Slices.antt =====
-- Runs of the array of src/BLEPacket/CircularBuffer.h.
use ble_smoke_detector.Common.{
  ℕ, zero, suc, ◌+◌, ◌≤◌, ◌<◌, ◌≡◌, refl, ap, arith, List, [], ◌∷◌, ◌++◌, ◌==◌, inl, inr, length,
  get_or, get_or-set, set, take, drop, ◌⊎◌, false,
}

-- `n` items from place `i` on.
unfoldable pub slice : List ℕ → ℕ → ℕ → List ℕ
slice buffer i zero = []
slice buffer i (suc n) = get_or buffer i 0 ∷ slice buffer (suc i) n

pub slice-add :
    (buffer : List ℕ) (i m n : ℕ)
    → slice buffer i (m + n) ≡ slice buffer i m ++ slice buffer (i + m) n
unfolding slice
slice-add buffer i zero n =
    let e : i + 0 ≡ i = omega arith in let z : 0 + n ≡ n = omega arith in rw e (rw z refl)
slice-add buffer i (suc m) n =
    let e : i + suc m ≡ suc i + m = omega arith in
    let z : suc m + n ≡ suc (m + n) = omega arith in
    rw e (rw z (ap (λ t. get_or buffer i 0 ∷ t) (slice-add buffer (suc i) m n)))

pub slice-snoc :
    (buffer : List ℕ) (i n : ℕ)
    → slice buffer i (suc n) ≡ slice buffer i n ++ (get_or buffer (i + n) 0 ∷ [])
unfolding slice
slice-snoc buffer i zero = let e : i + 0 ≡ i = omega arith in rw e refl
slice-snoc buffer i (suc n) =
    let e : i + suc n ≡ suc i + n = omega arith in
    rw e (ap (λ t. get_or buffer i 0 ∷ t) (slice-snoc buffer (suc i) n))

-- A write outside a run leaves it.
pub slice-set :
    (buffer : List ℕ) (i n j v : ℕ)
    → j < length buffer
    → (j < i) ⊎ (i + n ≤ j)
    → slice (set buffer j v) i n ≡ slice buffer i n
unfolding slice
slice-set buffer i zero j v inside apart = refl
slice-set buffer i (suc n) j v inside (inl below) =
    let miss : (j == i) ≡ false = ground arith in
    rw (get_or-set v 0 j i buffer inside) (
      rw miss (
        ap (λ t. get_or buffer i 0 ∷ t)
          (slice-set buffer (suc i) n j v inside (inl (omega arith)))))
slice-set buffer i (suc n) j v inside (inr above) =
    let miss : (j == i) ≡ false = ground arith in
    rw (get_or-set v 0 j i buffer inside) (
      rw miss (
        ap (λ t. get_or buffer i 0 ∷ t)
          (slice-set buffer (suc i) n j v inside (inr (omega arith)))))

pub length-slice : (buffer : List ℕ) (i n : ℕ) → length (slice buffer i n) ≡ n
unfolding slice
length-slice buffer i zero = refl
length-slice buffer i (suc n) = ap suc (length-slice buffer (suc i) n)

drop_get :
    (buffer : List ℕ) (i : ℕ)
    → i < length buffer
    → drop i buffer ≡ get_or buffer i 0 ∷ drop (suc i) buffer
drop_get [] i h = absurd (omega arith)
drop_get (x ∷ xs) zero h = refl
drop_get (x ∷ xs) (suc i) h = drop_get xs i (omega arith)

-- Inside the array a run is what a pointer and a count give.
pub take-drop :
    (buffer : List ℕ) (i n : ℕ) → i + n ≤ length buffer → take n (drop i buffer) ≡ slice buffer i n
unfolding slice
take-drop buffer i zero h = refl
take-drop buffer i (suc n) h =
    rw (drop_get buffer i (omega arith))
      (ap (λ t. get_or buffer i 0 ∷ t) (take-drop buffer (suc i) n (omega arith)))
