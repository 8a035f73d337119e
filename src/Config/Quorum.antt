-- ===== src/Config/Quorum.antt =====
-- How the quorums of platform/config/resdb_config.cpp meet.
use resilientdb.Common.{
  ltb, leb, if◌then◌else◌, length, ℕ, zero, suc, ◌+◌, ◌-◌, ◌*◌, ◌^◌, ◌≤◌, ◌<◌, min, ◌≡◌, refl, ap,
  Bool, ◌&&◌, List, [], ◌∷◌, arith,
}
use resilientdb.Config.{min_data_receive_num, min_client_receive_num}

-- The members of a set of replicas, given by its test.
abbrev pub count {ℓ} : {A : Type ℓ} → (A → Bool) → List A → ℕ
count p [] = 0
count p (x ∷ xs) = if p x then suc (count p xs) else count p xs

abbrev pub both {ℓ} : {A : Type ℓ} → (A → Bool) → (A → Bool) → A → Bool
both p q x = p x && q x

count-both {ℓ} :
    {A : Type ℓ} (p q : A → Bool) (xs : List A)
    → count p xs + count q xs ≤ length xs + count (both p q) xs
count-both p q [] = omega arith
count-both p q (x ∷ xs) = ground (arith, count-both p q xs)

-- Of 3f + 1 replicas, any two sets of GetMinDataReceiveNum replicas have at least f + 1 replicas
-- in common, so an honest one if at most f are faulty; and as many as GetMinClientReceiveNum.
pub quorums_meet {ℓ} :
    {A : Type ℓ} (f : ℕ) (replicas : List A) (p q : A → Bool)
    → length replicas ≡ 3 * f + 1
    → f < 2 ^ 30
    → min_data_receive_num (length replicas) ≤ count p replicas
    → min_data_receive_num (length replicas) ≤ count q replicas
    → (f + 1 ≤ count (both p q) replicas)
      × (min_client_receive_num (length replicas) ≤ count (both p q) replicas)
unfolding min_data_receive_num min_client_receive_num
quorums_meet f replicas p q size small hp hq = omega (arith, count-both p q replicas)

abbrev pub ids_to : ℕ → List ℕ
ids_to zero = []
ids_to (suc n) = suc n ∷ ids_to n

length-ids_to : (n : ℕ) → length (ids_to n) ≡ n
length-ids_to zero = refl
length-ids_to (suc n) = ap suc (length-ids_to n)

count-ltb : (k n : ℕ) → count (ltb k) (ids_to n) ≡ n - k
count-ltb k zero = omega arith
count-ltb k (suc n) = ground (arith, count-ltb k n)

count-leb : (k n : ℕ) → count (λ i. leb i k) (ids_to n) ≡ min n k
count-leb k zero = omega arith
count-leb k (suc n) = ground (arith, count-leb k n)

count-between : (a b n : ℕ) → count (both (ltb a) (λ i. leb i b)) (ids_to n) ≡ min n b - a
count-between a b zero = omega arith
count-between a b (suc n) = ground (arith, count-between a b n)

-- With two replicas more than 3f the quorums are too small: of the replicas 1 .. 3f + 2 the last
-- and the first GetMinDataReceiveNum ones are two quorums with only f replicas in common, and all
-- of those may be faulty.
pub quorums_too_small :
    (f : ℕ)
    → f < 2 ^ 30
    → (p : ℕ → Bool) × (q : ℕ → Bool) × (min_data_receive_num (3 * f + 2)
        ≤ count p (ids_to (3 * f + 2)))
      × (min_data_receive_num (3 * f + 2) ≤ count q (ids_to (3 * f + 2)))
      × (count (both p q) (ids_to (3 * f + 2)) ≡ f)
unfolding min_data_receive_num
quorums_too_small f small = (
  ltb (f + 1),
  λ i. leb i (2 * f + 1),
  omega (arith, count-ltb (f + 1) (3 * f + 2)),
  omega (arith, count-leb (2 * f + 1) (3 * f + 2)),
  omega (arith, count-between (f + 1) (2 * f + 1) (3 * f + 2)),
)
