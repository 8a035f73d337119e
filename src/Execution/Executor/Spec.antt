-- ===== src/Execution/Executor/Spec.antt =====
-- What the order of execution should be, independently of the candidates' map.
use resilientdb.Common.{
  number_keys, if◌then◌else◌, ◌==◌, ℕ, zero, suc, ◌+◌, Option, none, some, List, [], ◌∷◌,
}
use resilientdb.Messages.{Request}

-- The first message with a sequence number.
abbrev pub first : ℕ → List Request → Option Request
first s [] = none
first s (m ∷ ms) = if m.seq == s then some m else first s ms

-- The messages s, s + 1, … in a row, `n` of them at most, each the first of its number, as far as
-- none is missing.
abbrev pub in_order : ℕ → ℕ → List Request → List Request
in_order zero s ms = []
in_order (suc n) s ms = elim (first s ms) [ none ↦ [] | some m ↦ m ∷ in_order n (s + 1) ms ]
