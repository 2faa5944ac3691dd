-- ===== src/Common/Map.antt =====
-- std::map as an association list in the order of the keys.
use mathlib.Core.Path.{◌≡◌, refl}
use mathlib.Core.Bool.{Bool, true, false, not}
use mathlib.Core.Option.{Option, none, some}
use mathlib.Core.List.{List, [], ◌∷◌}
use native.Mathlib.Omega.{arith}
use Prim.Native.Nat.{ℕ}
use ble_smoke_detector.Common.Tests.{
  if◌then◌else◌, ◌==◌, ltb, ==_iff, bytes_eq, bytes_lt, bytes_eq_refl, bytes_eq_sound,
}
use ble_smoke_detector.Common.Lists.{keep_if}

-- What a map needs of its keys. Only the order of iteration depends on `less`.
pub record Key (K : Type 0) : Type 0 where
  pub same : K → K → Bool
  pub less : K → K → Bool
  pub same_refl : (k : K) → same k k ≡ true
  pub same_sound : (j k : K) → same j k ≡ true → j ≡ k

pub number_refl : (n : ℕ) → (n == n) ≡ true
number_refl n = (==_iff n n).1 refl

pub number_sound : (m n : ℕ) → (m == n) ≡ true → m ≡ n
number_sound m n h = (==_iff m n).0 h

instance abbrev pub number_key : Key ℕ
number_key = record {
  same = λ m n. m == n;
  less = ltb;
  same_refl = number_refl;
  same_sound = number_sound;
}

instance abbrev pub string_key : Key (List ℕ)
string_key = record {
  same = bytes_eq;
  less = bytes_lt;
  same_refl = bytes_eq_refl;
  same_sound = bytes_eq_sound;
}

abbrev pub Map : Type 0 → Type 0 → Type 0
Map K V = List (K × V)

module _ {K V : Type 0} ⦃key : Key K⦄ where
  unfoldable pub lookup : K → Map K V → Option V
  lookup k [] = none
  lookup k ((j, v) ∷ m) = if key.same j k then some v else lookup k m

  unfoldable pub insert : K → V → Map K V → Map K V
  insert k v [] = (k, v) ∷ []
  insert k v ((j, w) ∷ m) =
      let rest = insert k v m in
      if key.same j k
      then (k, v) ∷ m
      else if key.less k j
      then (k, v) ∷ (j, w) ∷ m
      else (j, w) ∷ rest

  -- `map.erase(key)`
  unfoldable pub erase : K → Map K V → Map K V
  unfolding keep_if
  erase k m = keep_if (λ e. not (key.same e.0 k)) m

  -- `map[key]`, which makes a missing entry with the default value.
  unfoldable pub at_or_new : K → V → Map K V → V × Map K V
  unfolding lookup insert
  at_or_new k fresh m = elim (lookup k m) [ none ↦ (fresh, insert k fresh m) | some v ↦ (v, m) ]

  -- `map[key].f()`
  unfoldable pub update : K → V → (V → V) → Map K V → Map K V
  unfolding at_or_new
  update k fresh f m = let (v, m') = at_or_new k fresh m in insert k (f v) m'

  pub lookup-insert_self : (k : K) (v : V) (m : Map K V) → lookup k (insert k v m) ≡ some v
  unfolding lookup insert
  lookup-insert_self k v [] = rw (key.same_refl k) refl
  lookup-insert_self k v ((j, w) ∷ m) = ground (arith, key.same_refl k, lookup-insert_self k v m)

  pub lookup-insert_ne :
      (j k : K) (v : V) (m : Map K V) → key.same k j ≡ false → lookup j (insert k v m) ≡ lookup j m
  unfolding lookup insert
  lookup-insert_ne j k v [] h = rw h refl
  lookup-insert_ne j k v ((i, w) ∷ m) h =
      ground (arith, key.same_sound i k, lookup-insert_ne j k v m h)

  pub lookup-update_self :
      (k : K) (fresh : V) (f : V → V) (m : Map K V)
      → lookup k (update k fresh f m) ≡ some (f (at_or_new k fresh m).0)
  unfolding update
  lookup-update_self k fresh f m =
      lookup-insert_self k (f (at_or_new k fresh m).0) (at_or_new k fresh m).1
