-- ===== src/Pbft/MessageManager.antt =====
-- MessageManager (platform/consensus/ordering/pbft/message_manager.{h,cpp}): which messages are
-- valid, the next sequence number, and the way of a message to its collector.
pub mod Assign
use resilientdb.Common.{
  number_keys, ltb, if◌then◌else◌, length, ◌==◌, ℕ, zero, suc, ◌+◌, ◌-◌, ◌%◌, ◌^◌, Bool, true,
  false, not, ◌&&◌, Option, none, some, List, [], ◌∷◌, ◌++◌,
}
use resilientdb.Common.Int.{ℤ, pos}
use resilientdb.Common.Maps.{Map, lookup, insert}
use resilientdb.Messages.{RequestType, is_type, SignatureInfo, Request}
use resilientdb.Config.{ResDbConfig, min_data_receive_num, get_max_process_txn}
use resilientdb.Execution.SystemInfo.{SystemInfo}
use resilientdb.Execution.Executor
use resilientdb.Execution.Executor.{
  TransactionExecutor, get_max_pending_executed_seq, need_response,
}
use resilientdb.Pbft.Status.{Status}
use resilientdb.Pbft.Collector.{RequestInfo, Outcome, add_request, get_prepared_proof}
use resilientdb.Pbft.StatusChange.{consensus_call_back}
use resilientdb.Pbft.Pool.{CollectorPool, get_collector, set_collector, update}

-- CollectorResultCode.
pub data ResultCode : Type 0 where
  invalid ok state_changed : ResultCode

pub record MessageManager : Type 0 where
  pub config : ResDbConfig
  pub next_seq : ℕ
  pub system_info : SystemInfo
  pub executor : TransactionExecutor
  pub collector_pool : CollectorPool
  pub last_committed_time : Map ℕ ℕ
  -- the responses in queue_, oldest first, with the fields of the requests that they answer
  pub responses : List Request

-- GetCurrentPrimary.
unfoldable pub get_current_primary : MessageManager → ℕ
get_current_primary m = m.system_info.primary_id

-- SetNextSeq.
unfoldable pub set_next_seq : MessageManager → ℕ → MessageManager
set_next_seq m seq = record m { next_seq = seq }

-- `next_seq_ - max_executed_seq`, where the subtrahend is cut to a uint32_t and the difference is a
-- uint64_t.
unfoldable pub seq_gap : MessageManager → ℕ
unfolding get_max_pending_executed_seq
seq_gap m = (m.next_seq + 2 ^ 64 - get_max_pending_executed_seq m.executor % 2 ^ 32) % 2 ^ 64

-- AssignNextSeq: `none` is "Seq has been used up."
unfoldable pub assign_next_seq : MessageManager → MessageManager × Option ℕ
unfolding seq_gap get_max_process_txn
assign_next_seq m =
    if ltb (get_max_process_txn m.config) (seq_gap m)
    then (m, none)
    else (record m { next_seq = (m.next_seq + 1) % 2 ^ 64 }, some m.next_seq)

-- IsValidMsg.
unfoldable pub is_valid_msg : MessageManager → Request → Bool
unfolding is_type get_max_pending_executed_seq
is_valid_msg m request =
    if is_type request.kind RequestType.response
    then true
    else if not (request.current_view == m.system_info.view)
    then false
    else if ltb request.seq (get_max_pending_executed_seq m.executor)
    then false
    else true

-- SetLastCommittedTime and GetLastCommittedTime.
unfoldable pub set_last_committed_time : MessageManager → ℕ → ℕ → MessageManager
set_last_committed_time m proxy now = record m {
  last_committed_time = insert proxy now m.last_committed_time;
}

unfoldable pub get_last_committed_time : MessageManager → ℕ → ℕ
get_last_committed_time m proxy = elim (lookup proxy m.last_committed_time) [
  | none ↦ 0
  | some t ↦ t
]

-- executor_->Commit of what the collector hands over.
unfoldable pub commit_all : TransactionExecutor → List Request → TransactionExecutor
commit_all e [] = e
commit_all e (r ∷ rs) = commit_all (Executor.commit e r) rs

-- What AddConsensusMsg returns, from what AddRequest returned and the callback captured.
unfoldable pub result_code : ℤ → Bool → ResultCode
result_code (pos zero) received = if received then state_changed else ok
result_code (pos (suc zero)) received = if received then state_changed else ok
result_code _ received = invalid

-- `ret == 1`.
unfoldable pub is_changed : ℤ → Bool
is_changed (pos (suc zero)) = true
is_changed _ = false

-- AddConsensusMsg with the collector of the number and what its AddRequest did.
unfoldable pub take_outcome :
    MessageManager → Request → ℕ → Outcome Bool → MessageManager × ResultCode
unfolding commit_all result_code is_changed set_last_committed_time
take_outcome m request now o =
    let m' = record m {
      collector_pool = set_collector m.collector_pool request.seq o.collector;
      executor = commit_all m.executor o.to_execute;
    } in
    (
      (if is_changed o.code then set_last_committed_time m' request.proxy_id now else m'),
      result_code o.code o.captured,
    )

-- AddConsensusMsg; `now` is what GetCurrentTime returns.
unfoldable pub add_consensus_msg :
    MessageManager → SignatureInfo → Option Request → ℕ → MessageManager × ResultCode
unfolding is_valid_msg take_outcome
add_consensus_msg m signature none now = (m, invalid)
add_consensus_msg m signature (some request) now =
    if not (is_valid_msg m request)
    then (m, invalid)
    else (elim (get_collector m.collector_pool request.seq) [
      | none ↦ (m, invalid)
      | some c ↦ take_outcome m request now (
          add_request
            (consensus_call_back (min_data_receive_num (length m.config.replicas)) request.kind) c
            (some request) signature (is_type request.kind RequestType.pre_prepare) false)
    ])

-- GetPreparedProof, GetTransactionState and IsPreapared of a number; `none` is a collector out of
-- the vector.
unfoldable pub get_prepared_proof_of : MessageManager → ℕ → Option (List RequestInfo)
get_prepared_proof_of m seq = elim (get_collector m.collector_pool seq) [
  | none ↦ none
  | some c ↦ some (get_prepared_proof c)
]

unfoldable pub get_transaction_state : MessageManager → ℕ → Option Status
get_transaction_state m seq = elim (get_collector m.collector_pool seq) [
  | none ↦ none
  | some c ↦ some c.status
]

-- SendResponse; the response has the fields of the request that it takes, with the view and the
-- primary as they are now.
unfoldable pub send_response : MessageManager → Request → MessageManager
unfolding need_response
send_response m request =
    if need_response m.executor && not (request.proxy_id == 0)
    then record m {
      responses =
          m.responses
          ++ record request {
            current_view = m.system_info.view;
            primary_id = m.system_info.primary_id;
          }
            ∷ [];
    }
    else m

-- The function that the executor calls after each number that it passes: Update(seq - 1).
unfoldable pub seq_updated : MessageManager → ℕ → MessageManager
seq_updated m seq = record m { collector_pool = update m.collector_pool (seq - 1) }
