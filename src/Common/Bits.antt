-- ===== src/Common/Bits.antt =====
-- `bit_or` of values on disjoint bits, and masks on one byte, as arithmetic.
use Prim.Native.Nat.{
  ℕ, zero, suc, ◌+◌, ◌*◌, ◌/◌, ◌%◌, ◌^◌, ◌≤◌, ◌<◌, max, bit_and, bit_or, digits, bit_or-bitwise,
}
use mathlib.Core.Path.{◌≡◌, refl, ap}
use mathlib.Core.Bool.{Bool, true, ◌&&◌}
use native.Mathlib.Omega.{arith}
use native.Mathlib.Nat.{pow-suc}
use ble_smoke_detector.Common.Tests.{◌==◌, ==_iff}

-- A test that is run on every number under a bound.
passes_under : (ℕ → Bool) → ℕ → Bool
passes_under test zero = true
passes_under test (suc bound) = passes_under test bound && test bound

passed :
    (test : ℕ → Bool) (bound : ℕ)
    → passes_under test bound ≡ true
    → (v : ℕ) → v < bound
    → test v ≡ true
unfolding passes_under
passed test zero all v under = absurd (omega arith)
passed test (suc bound) all v under = ground (arith, passed test bound _ v)

-- `& 0xFF` on a byte.
masked_bytes : passes_under (λ v. bit_and v 0xff == v) 256 ≡ true
unfolding passes_under
masked_bytes = refl

pub byte_mask : (x : ℕ) → x < 256 → bit_and x 0xff ≡ x
byte_mask x small =
    (==_iff (bit_and x 0xff) x).0 (passed (λ v. bit_and v 0xff == v) 256 masked_bytes x small)

abbrev or_digits : ℕ → ℕ → ℕ → ℕ
or_digits n a b = digits (λ y. y) max n a b

-- Fuel beyond the upper operand's value is not used.
enough_digits :
    (upper : ℕ) (f g lower : ℕ)
    → upper ≤ g
    → upper ≤ f
    → or_digits f upper lower ≡ or_digits g upper lower
enough_digits (suc u) zero g lower hg hf = absurd (omega arith)
enough_digits (suc u) (suc f) zero lower hg hf = absurd (omega arith)
enough_digits (suc u) (suc f) (suc g) lower hg hf =
    omega (arith, enough_digits (suc u / 2) f g (lower / 2) (omega arith) (omega arith))
enough_digits zero (suc f) (suc g) lower hg hf = refl
enough_digits zero (suc f) zero lower hg hf = refl
enough_digits zero zero (suc g) lower hg hf = refl
enough_digits zero zero zero lower hg hf = refl

zero-bit_or : (b : ℕ) → bit_or 0 b ≡ b
zero-bit_or b = bit_or-bitwise 0 b

-- The law for the lowest digit.
bit_or_halves : (x y : ℕ) → bit_or x y ≡ bit_or (x / 2) (y / 2) * 2 + max (x % 2) (y % 2)
bit_or_halves (suc x) y =
    let whole = bit_or-bitwise (suc x) y in
    let half = bit_or-bitwise (suc x / 2) (y / 2) in
    let fuel = enough_digits (suc x / 2) x (suc x / 2) (y / 2) (omega arith) (omega arith) in
    omega (arith, fuel, half, whole)
bit_or_halves zero y = omega (arith, zero-bit_or (y / 2), zero-bit_or y)

bit_or-zero_fuel : (bound x : ℕ) → x ≤ bound → bit_or x 0 ≡ x
bit_or-zero_fuel (suc bound) (suc x) under =
    let half = bit_or-zero_fuel bound (suc x / 2) (omega arith) in
    omega (arith, half, bit_or_halves (suc x) 0)
bit_or-zero_fuel zero (suc x) under = absurd (omega arith)
bit_or-zero_fuel bound zero under = refl

halve_power : (a p q : ℕ) → q ≡ 2 * p → (a * q / 2 ≡ a * p) × (a * q % 2 ≡ 0)
halve_power a p q e = rw e (omega arith)

-- A value above bit `k` and one below it: `|` is their sum.
pub bit_or_shifted : (k a b : ℕ) → b < 2 ^ k → bit_or (a * 2 ^ k) b ≡ a * 2 ^ k + b
bit_or_shifted zero a b h =
    let e : b ≡ 0 = omega arith in
    rw e (omega (arith, bit_or-zero_fuel (a * 1) (a * 1) (omega arith)))
bit_or_shifted (suc k) a b h =
    let two : 2 ^ suc k ≡ 2 * 2 ^ k = omega (arith, pow-suc 2 k) in
    let half = halve_power a (2 ^ k) (2 ^ suc k) two in
    let low : bit_or (a * 2 ^ suc k / 2) (b / 2) ≡ a * 2 ^ k + b / 2 =
      rw half.0 (bit_or_shifted k a (b / 2) (omega (arith, two))) in
    omega (arith, bit_or_halves (a * 2 ^ suc k) b, low, half, ap (λ (t : ℕ). a * t) two)

-- The same where the upper operand is a multiple in another form.
pub bit_or_sum : (k q x y : ℕ) → x ≡ q * 2 ^ k → y < 2 ^ k → bit_or x y ≡ x + y
bit_or_sum k q x y e h = rw e (bit_or_shifted k q y h)
