-- ===== src/Execution/Executor/Rounds.antt =====
-- The threads of TransactionExecutor that run the transactions: ExecuteMessage and
-- ExecuteMessageOutOfOrder (platform/consensus/execution/transaction_executor.cpp). The generated
-- parser of BatchUserRequest and the transaction manager's ExecuteBatch are parameters; `none` is
-- the manager's absence. What is given to post_exec_func_ is a list, oldest first.
use resilientdb.Common.{
  number_keys, text_keys, ℕ, String, Bool, true, false, not, ◌&&◌, Option, none, some, List, [],
  ◌∷◌, ◌++◌,
}
use resilientdb.Messages.{SignatureInfo, Request}
use resilientdb.Execution.DuplicateManager.{DuplicateManager, add_executed}
use resilientdb.Execution.Executor.{TransactionExecutor}

-- BatchUserRequest.
pub record Batch : Type 0 where
  pub user_requests : List String
  pub seq : ℕ
  pub hash : String
  pub proxy_id : ℕ
  pub createtime : ℕ
  pub local_id : ℕ
  pub committed_certs : List SignatureInfo

-- BatchUserResponse.
pub record BatchResponse : Type 0 where
  pub responses : List String
  pub proxy_id : ℕ
  pub createtime : ℕ
  pub local_id : ℕ
  pub hash : String

-- The executor with the manager's state and the duplicate manager, if there is one.
pub record Machine {ℓ} (S : Type ℓ) : Type ℓ where
  pub executor : TransactionExecutor
  pub state : S
  pub duplicate_manager : Option DuplicateManager
  pub posted : List (Request × BatchResponse)

-- The batch of a request, from what the parser made of its data.
unfoldable pub batch_of : Request → Batch → Batch
batch_of request batch = record batch {
  seq = request.seq;
  hash = request.hash;
  proxy_id = request.proxy_id;
  committed_certs = elim request.committed_certs [ [] ↦ batch.committed_certs | c ∷ cs ↦ c ∷ cs ];
}

-- `duplicate_manager_->AddExecuted`.
unfoldable pub note_executed : Option DuplicateManager → Batch → ℕ → Option DuplicateManager
note_executed none batch now = none
note_executed (some d) batch now = some (add_executed d batch.hash batch.seq now)

unfoldable pub response_to : Batch → List String → BatchResponse
response_to batch responses = record {
  responses = responses;
  proxy_id = batch.proxy_id;
  createtime = batch.createtime;
  local_id = batch.local_id;
  hash = batch.hash;
}

module _ {ℓ} {S : Type ℓ} (parse : String → Batch) (run_batch : S → Batch → S × List String) where
  -- `transaction_manager_->ExecuteBatch`, if it is to be called.
  unfoldable pub run_if : Bool → S → Batch → S × List String
  run_if true s batch = run_batch s batch
  run_if false s batch = (s, [])

  -- OnlyExecute.
  unfoldable pub only_execute : Machine S → Request → Machine S
  unfolding run_if batch_of
  only_execute m request = record m {
    state = (run_if m.executor.has_manager m.state (batch_of request (parse request.payload))).0;
  }

  -- Execute.
  unfoldable pub execute : Machine S → Request → Bool → ℕ → Machine S
  unfolding run_if batch_of note_executed response_to
  execute m request need_execute now =
      let batch = batch_of request (parse request.payload) in
      let (state, responses) = run_if (m.executor.has_manager && need_execute) m.state batch in
      record m {
        state = state;
        duplicate_manager = note_executed m.duplicate_manager batch now;
        posted = m.posted ++ (request, response_to batch responses) ∷ [];
      }

  -- A round of ExecuteMessage with what its queue holds.
  unfoldable pub execute_first : Machine S → List Request → ℕ → Machine S
  unfolding execute
  execute_first m [] now = m
  execute_first m (r ∷ rs) now =
      execute (record m { executor = record m.executor { execute_queue = rs } }) r
        (not (m.executor.has_manager && m.executor.is_out_of_order)) now

  unfoldable pub execute_message : Machine S → ℕ → Machine S
  unfolding execute_first
  execute_message m now = execute_first m m.executor.execute_queue now

  -- A round of ExecuteMessageOutOfOrder.
  unfoldable pub execute_ooo_first : Machine S → List Request → Machine S
  unfolding only_execute
  execute_ooo_first m [] = m
  execute_ooo_first m (r ∷ rs) =
      only_execute (record m { executor = record m.executor { ooo_queue = rs } }) r

  unfoldable pub execute_message_ooo : Machine S → Machine S
  unfolding execute_ooo_first
  execute_message_ooo m = execute_ooo_first m m.executor.ooo_queue

  -- Rounds of ExecuteMessage, one for each time.
  unfoldable pub execute_rounds : Machine S → List ℕ → Machine S
  unfolding execute_message
  execute_rounds m [] = m
  execute_rounds m (now ∷ times) = execute_rounds (execute_message m now) times
