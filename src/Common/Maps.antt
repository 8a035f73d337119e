-- ===== src/Common/Maps.antt =====
-- `std::map`, `std::unordered_map` and `std::set` as association lists and lists of keys.
use Prim.Native.Nat.{ℕ}
use mathlib.Core.Path.{◌≡◌, refl}
use mathlib.Core.Logic.{inl, inr}
use mathlib.Core.Bool.{Bool, true, false, ◌||◌}
use mathlib.Core.Option.{Option, none, some}
use mathlib.Core.List.{List, [], ◌∷◌}
use native.Mathlib.Omega.{arith}
use resilientdb.Common.Tests.{ltb, if◌then◌else◌, Bool-cases}
use resilientdb.Common.Equality.{Keys, ◌==◌, number_keys}

abbrev pub Map {ℓ κ} : Type ℓ → Type κ → Type (ℓ ⊔ κ)
Map K V = List (K × V)

module _ {ℓ κ} {K : Type ℓ} {V : Type κ} ⦃keys : Keys K⦄ where
  -- `m.find(key)`
  unfoldable pub lookup : K → Map K V → Option V
  lookup key [] = none
  lookup key ((first, val) ∷ more) =
      let later = lookup key more in if first == key then some val else later

  -- `m[key] = val`
  unfoldable pub insert : K → V → Map K V → Map K V
  insert key val [] = (key, val) ∷ []
  insert key val ((first, old) ∷ more) =
      let changed = insert key val more in
      if first == key then (key, val) ∷ more else (first, old) ∷ changed

  -- `m.erase(k)`
  unfoldable pub erase : K → Map K V → Map K V
  erase k [] = []
  erase k ((j, v) ∷ m) = let rest = erase k m in if j == k then rest else (j, v) ∷ rest

  pub lookup_here :
      (k j : K) (v : V) (m : Map K V) → (j == k) ≡ true → lookup k ((j, v) ∷ m) ≡ some v
  unfolding lookup
  lookup_here k j v m h = rw h refl

  pub lookup_there :
      (k j : K) (v : V) (m : Map K V) → (j == k) ≡ false → lookup k ((j, v) ∷ m) ≡ lookup k m
  unfolding lookup
  lookup_there k j v m h = rw h refl

  pub insert_here :
      (k j : K) (v w : V) (m : Map K V) → (j == k) ≡ true → insert k v ((j, w) ∷ m) ≡ (k, v) ∷ m
  unfolding insert
  insert_here k j v w m h = rw h refl

  pub insert_there :
      (k j : K) (v w : V) (m : Map K V)
      → (j == k) ≡ false
      → insert k v ((j, w) ∷ m) ≡ (j, w) ∷ insert k v m
  unfolding insert
  insert_there k j v w m h = rw h refl

  pub lookup-insert :
      (put get : K) (val : V) (m : Map K V)
      → lookup get (insert put val m) ≡ (if put == get then some val else lookup get m)
  unfolding lookup insert
  lookup-insert put get val [] = refl
  lookup-insert put get val ((first, old) ∷ more) = ground (
    arith,
    lookup-insert put get val more,
    keys.matches_iff first put,
    keys.matches_iff first get,
    keys.matches_iff put get,
  )

  pub lookup-erase :
      (k j : K) (m : Map K V) → lookup j (erase k m) ≡ (if k == j then none else lookup j m)
  unfolding lookup erase
  lookup-erase k j [] = ground arith
  lookup-erase k j ((i, w) ∷ m) =
      ground (
        arith,
        keys.matches_iff k j,
        keys.matches_iff i k,
        keys.matches_iff i j,
        lookup-erase k j m,
      )

module _ {ℓ} {K : Type ℓ} ⦃keys : Keys K⦄ where
  -- `s.find(k) != s.end()`
  unfoldable pub member : K → List K → Bool
  member k [] = false
  member k (j ∷ s) = j == k || member k s

  -- `s.insert(k)`
  unfoldable pub add : K → List K → List K
  add k s = if member k s then s else k ∷ s

  -- `s.erase(k)`
  unfoldable pub remove : K → List K → List K
  remove k [] = []
  remove k (j ∷ s) = let rest = remove k s in if j == k then rest else j ∷ rest

  pub member-add : (k j : K) (s : List K) → member j (add k s) ≡ (k == j || member j s)
  unfolding member add
  member-add k j s = elim (Bool-cases (member k s)) [
    | inl old ↦ ground (arith, keys.matches_iff k j)
    | inr new ↦ ground arith
  ]

  pub member-remove :
      (k j : K) (s : List K) → member j (remove k s) ≡ (if k == j then false else member j s)
  unfolding member remove
  member-remove k j [] = ground arith
  member-remove k j (i ∷ s) =
      ground (
        arith,
        keys.matches_iff k j,
        keys.matches_iff i k,
        keys.matches_iff i j,
        member-remove k j s,
      )

  -- No key twice.
  abbrev pub Distinct : List K → Type 0
  Distinct [] = Unit
  Distinct (k ∷ s) = (member k s ≡ false) × Distinct s

  pub add-Distinct : (k : K) (s : List K) → Distinct s → Distinct (add k s)
  unfolding add
  add-Distinct k s d = ground arith

-- `m[key] = val` where the order of the keys matters: that of a std::map over numbers.
module _ {ℓ} {V : Type ℓ} where
  unfoldable pub insert_ordered : ℕ → V → Map ℕ V → Map ℕ V
  insert_ordered key val [] = (key, val) ∷ []
  insert_ordered key val ((first, old) ∷ more) =
      let changed = insert_ordered key val more in
      if first == key
      then (key, val) ∷ more
      else if ltb key first
      then (key, val) ∷ (first, old) ∷ more
      else (first, old) ∷ changed

  pub lookup-insert_ordered :
      (put get : ℕ) (val : V) (m : Map ℕ V)
      → lookup get (insert_ordered put val m) ≡ (if put == get then some val else lookup get m)
  unfolding lookup insert_ordered
  lookup-insert_ordered put get val [] = refl
  lookup-insert_ordered put get val ((first, old) ∷ more) =
      ground (arith, lookup-insert_ordered put get val more)

pub ruleset map_laws = (lookup-insert, lookup-erase, member-add, member-remove)
