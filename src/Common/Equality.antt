-- ===== src/Common/Equality.antt =====
-- The comparison of keys as an instance: machine numbers, and texts (hashes, addresses, keys).
use Prim.Native.Nat.{ℕ}
use Prim.Native.String.{String}
use mathlib.Core.Path.{◌≡◌, refl}
use mathlib.Core.Logic.{◌↔◌}
use mathlib.Core.Bool.{Bool, true}
use text.Mathlib.Text.{◌==◌ as text_test}
use text.Mathlib.TextEquality.{eq_iff}
use native.Mathlib.Omega.{arith}
use resilientdb.Common.Tests.{◌==◌ as number_test}

-- A type whose values a test of the program tells apart.
pub record Keys {ℓ} (K : Type ℓ) : Type ℓ where
  pub matches : K → K → Bool
  pub matches_iff : (j k : K) → (j ≡ k) ↔ (matches j k ≡ true)

pub text_iff : (j k : String) → (j ≡ k) ↔ (text_test j k ≡ true)
text_iff j k = ((eq_iff j k).1, (eq_iff j k).0)

pub number_iff : (j k : ℕ) → (j ≡ k) ↔ (number_test j k ≡ true)
number_iff j k = ground arith

instance abbrev pub text_keys : Keys String
text_keys = record { matches = text_test; matches_iff = text_iff }

instance abbrev pub number_keys : Keys ℕ
number_keys = record { matches = number_test; matches_iff = number_iff }

module _ {ℓ} {K : Type ℓ} ⦃keys : Keys K⦄ where
  infix 50 ◌==◌
  abbrev pub ◌==◌ : K → K → Bool
  j == k = keys.matches j k

  pub beq_self : (k : K) → (k == k) ≡ true
  beq_self k = (keys.matches_iff k k).0 refl
