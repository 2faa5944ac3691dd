-- ===== src/Common/Lists.antt =====
-- Lists measured and indexed by native numbers, under the library's names.
use Prim.Native.Nat.{ℕ, zero, suc, ◌+◌, ◌≤◌, ◌<◌, min}
use mathlib.Core.Path.{◌≡◌, refl, ap}
use mathlib.Core.Logic.{◌⊎◌, inl, inr}
use mathlib.Core.Bool.{Bool, true, false, ◌||◌}
use mathlib.Core.List.{List, [], ◌∷◌, ◌++◌}
use native.Mathlib.Omega.{arith}
use ble_smoke_detector.Common.Tests.{if◌then◌else◌, ◌==◌, Bool-cases}

module _ {ℓ} {A : Type ℓ} where
  abbrev pub length : List A → ℕ
  length [] = 0
  length (x ∷ xs) = suc (length xs)

  abbrev pub is_empty : List A → Bool
  is_empty [] = true
  is_empty (x ∷ xs) = false

  abbrev pub get_or : List A → ℕ → A → A
  get_or [] i d = d
  get_or (x ∷ xs) zero d = x
  get_or (x ∷ xs) (suc i) d = get_or xs i d

  abbrev pub take : ℕ → List A → List A
  take zero xs = []
  take (suc n) [] = []
  take (suc n) (x ∷ xs) = x ∷ take n xs

  abbrev pub drop : ℕ → List A → List A
  drop zero xs = xs
  drop (suc n) [] = []
  drop (suc n) (x ∷ xs) = drop n xs

  pub List-cases : (xs : List A) → (xs ≡ []) ⊎ ((x : A) × ((rest : List A) × (xs ≡ x ∷ rest)))
  List-cases [] = inl refl
  List-cases (x ∷ xs) = inr (x, (xs, refl))

  abbrev pub any_of : (A → Bool) → List A → Bool
  any_of p [] = false
  any_of p (x ∷ xs) = p x || any_of p xs

  abbrev pub All {κ} : (A → Type κ) → List A → Type κ
  All P [] = Unit {κ}
  All P (x ∷ xs) = P x × All P xs

  -- `std::erase_if` by its complement, and the views' `filter`.
  unfoldable pub keep_if : (A → Bool) → List A → List A
  keep_if p [] = []
  keep_if p (x ∷ xs) = if p x then x ∷ keep_if p xs else keep_if p xs

  pub length-append : (xs ys : List A) → length (xs ++ ys) ≡ length xs + length ys
  length-append [] ys = omega arith
  length-append (x ∷ xs) ys = omega (arith, length-append xs ys)

  pub length-take : (n : ℕ) (xs : List A) → length (take n xs) ≡ min n (length xs)
  length-take zero xs = omega arith
  length-take (suc n) [] = omega arith
  length-take (suc n) (x ∷ xs) = omega (arith, length-take n xs)

  pub take-length_append : (xs ys : List A) → take (length xs) (xs ++ ys) ≡ xs
  take-length_append [] ys = refl
  take-length_append (x ∷ xs) ys = ap (λ t. x ∷ t) (take-length_append xs ys)

  pub take_all : (n : ℕ) (xs : List A) → length xs ≤ n → take n xs ≡ xs
  take_all zero [] h = refl
  take_all zero (x ∷ xs) h = absurd (omega arith)
  take_all (suc n) [] h = refl
  take_all (suc n) (x ∷ xs) h = ap (λ t. x ∷ t) (take_all n xs (omega arith))

  -- What stands at position `p` of a list, from what is left there.
  pub get_or-drop :
      (p : ℕ) (xs : List A) (d x : A) (rest : List A) → drop p xs ≡ x ∷ rest → get_or xs p d ≡ x
  get_or-drop zero [] d x rest e = cc
  get_or-drop zero (y ∷ ys) d x rest e = cc
  get_or-drop (suc p) [] d x rest e = cc
  get_or-drop (suc p) (y ∷ ys) d x rest e = get_or-drop p ys d x rest e

  pub drop_next :
      (p : ℕ) (xs : List A) (x : A) (rest : List A) → drop p xs ≡ x ∷ rest → drop (suc p) xs ≡ rest
  drop_next zero [] x rest e = cc
  drop_next zero (y ∷ ys) x rest e = cc
  drop_next (suc p) [] x rest e = cc
  drop_next (suc p) (y ∷ ys) x rest e = drop_next p ys x rest e

  pub drop-append :
      (n : ℕ) (xs ys zs : List A) → drop n zs ≡ xs ++ ys → drop (n + length xs) zs ≡ ys
  drop-append n [] ys zs e = let q : n + 0 ≡ n = omega arith in rw q e
  drop-append n (x ∷ xs) ys zs e =
      let q : n + suc (length xs) ≡ suc n + length xs = omega arith in
      rw q (drop-append (suc n) xs ys zs (drop_next n zs x (xs ++ ys) e))

  pub All-append {κ} : (P : A → Type κ) (xs ys : List A) → All P xs → All P ys → All P (xs ++ ys)
  All-append P [] ys h k = k
  All-append P (x ∷ xs) ys h k = (h.0, All-append P xs ys h.1 k)

pub All-keep_if :
    {A : Type 0} (P Q : A → Type 0) (p : A → Bool) (xs : List A)
    → ((x : A) → p x ≡ true → P x → Q x)
    → All P xs
    → All Q (keep_if p xs)
unfolding keep_if
All-keep_if P Q p [] keep h = tt
All-keep_if P Q p (x ∷ xs) keep h = elim (Bool-cases (p x)) [
  | inl e ↦ rw e (keep x e h.0, All-keep_if P Q p xs keep h.1)
  | inr e ↦ rw e (All-keep_if P Q p xs keep h.1)
]

module _ {ℓ} {A : Type ℓ} where
  -- A write behind the end changes nothing.
  abbrev pub set : List A → ℕ → A → List A
  set [] i v = []
  set (x ∷ xs) zero v = v ∷ xs
  set (x ∷ xs) (suc i) v = x ∷ set xs i v

  abbrev pub replicate : ℕ → A → List A
  replicate zero x = []
  replicate (suc n) x = x ∷ replicate n x

  pub length-set : (v : A) (i : ℕ) (xs : List A) → length (set xs i v) ≡ length xs
  length-set v i [] = refl
  length-set v zero (x ∷ xs) = refl
  length-set v (suc i) (x ∷ xs) = omega (arith, length-set v i xs)

  -- What is read after a write.
  pub get_or-set :
      (v d : A) (i j : ℕ) (xs : List A)
      → i < length xs
      → get_or (set xs i v) j d ≡ (if i == j then v else get_or xs j d)
  get_or-set v d i j [] h = absurd (omega arith)
  get_or-set v d zero zero (x ∷ xs) h = refl
  get_or-set v d zero (suc j) (x ∷ xs) h = ground arith
  get_or-set v d (suc i) zero (x ∷ xs) h = ground arith
  get_or-set v d (suc i) (suc j) (x ∷ xs) h = ground (arith, get_or-set v d i j xs (omega arith))
