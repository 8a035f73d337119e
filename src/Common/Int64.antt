-- ===== src/Common/Int64.antt =====
-- An int64_t as an integer: what a sum wraps around to in two's complement.
use resilientdb.Common.{
  ℕ, ◌+◌, ◌-◌, ◌*◌, ◌%◌, ◌/◌, ◌^◌, ◌<◌, ◌≤◌, ◌≡◌, arith, ltb, if◌then◌else◌, inl, inr, Bool-cases,
}
use resilientdb.Common.Int.{ℤ, pos, negsuc, pos_part, neg_part, eq_of_parts}

-- The bits of an integer, as a number.
unfoldable pub bits_of : ℤ → ℕ
bits_of (pos n) = n % 2 ^ 64
bits_of (negsuc n) = 2 ^ 64 - 1 - n % 2 ^ 64

unfoldable pub int64 : ℤ → ℤ
unfolding bits_of
int64 z = if ltb (bits_of z) (2 ^ 63) then pos (bits_of z) else negsuc (2 ^ 64 - 1 - bits_of z)

abbrev pub Fits : ℤ → Type 0
Fits z = (pos_part z < 2 ^ 63) × (neg_part z ≤ 2 ^ 63)

-- The two differ by a multiple of 2^64.
abbrev pub Same : ℤ → ℤ → Type 0
Same a b =
    (k : ℕ) × (j : ℕ) × (pos_part a + neg_part b + 2 ^ 64 * k
      ≡ neg_part a + pos_part b + 2 ^ 64 * j)

pub int64-Fits : (z : ℤ) → Fits (int64 z)
unfolding int64 bits_of
int64-Fits (pos n) = ground arith
int64-Fits (negsuc n) = ground arith

pub int64-Same : (z : ℤ) → Same (int64 z) z
unfolding int64 bits_of
int64-Same (pos n) = elim (Bool-cases (ltb (n % 2 ^ 64) (2 ^ 63))) [
  | inl e ↦ (n / 2 ^ 64, 0, rw e (omega arith))
  | inr e ↦ (n / 2 ^ 64 + 1, 0, rw e (ground (arith, e)))
]
int64-Same (negsuc n) = elim (Bool-cases (ltb (2 ^ 64 - 1 - n % 2 ^ 64) (2 ^ 63))) [
  | inl e ↦ (0, n / 2 ^ 64 + 1, rw e (omega arith))
  | inr e ↦ (0, n / 2 ^ 64, rw e (ground (arith, e)))
]

pub Same-eq : (a b : ℤ) → Same a b → Fits a → Fits b → a ≡ b
Same-eq a b (k, j, e) f g = eq_of_parts a b (omega arith)

pub Same-int64 : (a z : ℤ) → Same a z → Fits a → a ≡ int64 z
Same-int64 a z (k, j, e) f =
    let (k', j', e') = int64-Same z in
    Same-eq a (int64 z) (k + j', j + k', omega arith) f (int64-Fits z)
