-- ===== src/Pbft/MessageManager/Assign.antt =====
-- The window of sequence numbers that AssignNextSeq grants.
use resilientdb.Common.{◌+◌, ◌^◌, ◌≤◌, ◌<◌, ◌≡◌, ◌↔◌, none, some, arith}
use resilientdb.Config.{get_max_process_txn}
use resilientdb.Pbft.MessageManager.{MessageManager, assign_next_seq}

-- Within 2^32 numbers, a number is granted exactly while no more than max_process_txn_ numbers are
-- in flight; the grant is the next number, and the counter goes up by one.
pub assign_next_seq_window :
    (m : MessageManager)
    → 0 < m.executor.next_execute_seq
    → m.executor.next_execute_seq ≤ m.next_seq
    → m.next_seq < 2 ^ 32
    → (assign_next_seq m ≡ (record m { next_seq = m.next_seq + 1 }, some m.next_seq))
      ↔ (m.next_seq + 1 ≤ m.executor.next_execute_seq + get_max_process_txn m.config)
unfolding assign_next_seq
assign_next_seq_window m started ahead small = (λ e. ground arith, λ h. ground arith)

-- Once 2^32 numbers are executed the gap is computed from a number cut to 32 bits, so no number is
-- granted any more, however few are in flight.
pub assign_next_seq_stuck :
    (m : MessageManager)
    → get_max_process_txn m.config < 2 ^ 32
    → 2 ^ 32 < m.executor.next_execute_seq
    → m.executor.next_execute_seq ≤ m.next_seq
    → m.next_seq < 2 ^ 64
    → assign_next_seq m ≡ (m, none)
unfolding assign_next_seq
assign_next_seq_stuck m limit many ahead small = ground arith
