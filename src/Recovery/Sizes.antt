-- ===== src/Recovery/Sizes.antt =====
-- A size_t of 8 bytes as Recovery writes it (platform/consensus/recovery/recovery.cpp): the bytes of
-- the machine, the lowest first.
use resilientdb.Common.{
  ℕ, zero, suc, ◌+◌, ◌*◌, ◌/◌, ◌%◌, ◌^◌, ◌<◌, ◌≡◌, refl, List, [], ◌∷◌, length, arith,
}

abbrev pub Bytes : Type 0
Bytes = List ℕ

little_endian : ℕ → ℕ → Bytes
little_endian zero n = []
little_endian (suc k) n = n % 256 ∷ little_endian k (n / 256)

unfoldable pub size_bytes : ℕ → Bytes
unfolding little_endian
size_bytes n = little_endian 8 n

-- The size that stands in the bytes.
unfoldable pub size_of : Bytes → ℕ
size_of [] = 0
size_of (b ∷ bs) = b + 256 * size_of bs

pub length-size_bytes : (n : ℕ) → length (size_bytes n) ≡ 8
unfolding size_bytes
length-size_bytes n = refl

pub size_of-size_bytes : (n : ℕ) → n < 2 ^ 64 → size_of (size_bytes n) ≡ n
unfolding size_of size_bytes
size_of-size_bytes n h = omega arith
