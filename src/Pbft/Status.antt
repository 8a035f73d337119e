-- ===== src/Pbft/Status.antt =====
-- enum TransactionStatue (platform/consensus/ordering/pbft/transaction_collector.h).
use resilientdb.Common.{Bool, not, ◌≡◌, true, arith}
use resilientdb.Common.Int.{ℤ, pos, negsuc, ltb_ℤ}

pub data Status : Type 0 where
  none prepare ready_prepare ready_commit ready_execute executed : Status

unfoldable pub status_value : Status → ℤ
status_value none = pos 0
status_value prepare = negsuc 998
status_value ready_prepare = pos 1
status_value ready_commit = pos 2
status_value ready_execute = pos 3
status_value executed = pos 4

-- `a <= b` on the enum's values.
unfoldable pub at_most : Status → Status → Bool
unfolding status_value
at_most a b = not (ltb_ℤ (status_value b) (status_value a))

-- `a == b`.
unfoldable pub is_status : Status → Status → Bool
is_status none none = Bool.true
is_status prepare prepare = Bool.true
is_status ready_prepare ready_prepare = Bool.true
is_status ready_commit ready_commit = Bool.true
is_status ready_execute ready_execute = Bool.true
is_status executed executed = Bool.true
is_status _ _ = Bool.false

pub is_status-eq : (a b : Status) → is_status a b ≡ true → a ≡ b
unfolding is_status
is_status-eq a b h = ground arith
