-- ===== src/Common/Decimal.antt =====
-- std::to_string of a uint64_t.
use Prim.Native.String.{String, ◌++◌}
use Prim.Native.Nat.{ℕ, zero, suc, ◌/◌, ◌%◌}
use mathlib.Core.List.{[], ◌∷◌}
use resilientdb.Common.Tests.{ltb, if◌then◌else◌}
use resilientdb.Common.Lists.{get_or}

digit : ℕ → String
digit n = get_or ("0" ∷ "1" ∷ "2" ∷ "3" ∷ "4" ∷ "5" ∷ "6" ∷ "7" ∷ "8" ∷ "9" ∷ []) n ""

-- A uint64_t has at most 20 digits, so 20 rounds are enough.
decimal : ℕ → ℕ → String
unfolding digit
decimal zero n = ""
decimal (suc fuel) n =
    let more = decimal fuel (n / 10) ++ digit (n % 10) in if ltb n 10 then digit n else more

unfoldable pub to_string : ℕ → String
unfolding decimal
to_string n = decimal 20 n
