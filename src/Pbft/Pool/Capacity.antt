-- ===== src/Pbft/Pool/Capacity.antt =====
-- GetCapacity of platform/consensus/ordering/pbft/lock_free_collector_pool.cpp.
use native.Mathlib.Nat.{pow-suc, add-zero, le_antisymm}
use native.Mathlib.Decide.{dec_le}
use native.Mathlib.Numerals.{add-one}
use resilientdb.Common.{
  number_keys, ℕ, zero, suc, ◌+◌, ◌*◌, ◌^◌, ◌≤◌, ◌<◌, ◌≡◌, ◌⊎◌, leb, leb→le, Bool-cases, refl,
  subst, inl, inr, arith,
}
use resilientdb.Pbft.Pool.{capacity_from, get_capacity}

pow-add-one : (i : ℕ) → 2 ^ (i + 1) ≡ 2 ^ i * 2
pow-add-one i = rw add-one (pow-suc 2 i)

capacity_from_lem :
    (fuel i size : ℕ)
    → size < 2 ^ (i + fuel)
    → (k : ℕ) × (capacity_from fuel i size ≡ 2 ^ k)
      × (i ≤ k)
      × (k ≤ i + fuel)
      × (size < 2 ^ k)
      × ((i ≡ k) ⊎ (2 ^ k ≤ 2 * size))
unfolding capacity_from
capacity_from_lem zero i size h = (i, refl, omega arith, omega arith, rw add-zero at h, inl refl)
capacity_from_lem (suc fuel) i size h = elim (Bool-cases (leb (2 ^ i) size)) [
  | inr done ↦ (i, rw done, omega arith, omega arith, ground arith, inl refl)
  | inl more ↦
      let (k, e, lo, hi, below, small) =
        capacity_from_lem fuel (i + 1) size (subst (λ j. size < 2 ^ j) (omega arith) h) in
      (
        k,
        rw more e,
        omega arith,
        omega arith,
        below,
        inr (elim small [
          | inl e' ↦ rw (← e', pow-add-one i) (omega (arith, leb→le _ _ more))
          | inr s ↦ s
        ]),
      )
]

exponent-le : (k size : ℕ) → k ≤ 32 → 2 ^ k ≤ 2 * size → size < 2 ^ 31 → k ≤ 31
exponent-le k size hi doubled small = elim (dec_le k 31) [
  | yes below ↦ below
  | no above ↦
      absurd (omega (arith, subst (λ j. 2 ^ j ≤ 2 * size) (le_antisymm hi (omega arith)) doubled))
]

-- Below 2^31 the loop stops by its test, and the capacity is the power of two next above the size.
pub get_capacity_lem :
    (size : ℕ)
    → 0 < size
    → size < 2 ^ 31
    → (k : ℕ) × (get_capacity size ≡ 2 ^ k)
      × (k ≤ 31)
      × (size < get_capacity size)
      × (get_capacity size ≤ 2 * size)
unfolding get_capacity
get_capacity_lem size pos h =
    let (k, e, _, hi, below, small) = capacity_from_lem 32 0 size (omega arith) in
    let doubled : 2 ^ k ≤ 2 * size = elim small [ inl z ↦ rw (← z) (omega arith) | inr s ↦ s ] in
    (k, e, exponent-le k size (omega (arith, hi)) doubled h, rw e below, rw e doubled)
