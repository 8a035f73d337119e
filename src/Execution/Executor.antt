-- ===== src/Execution/Executor.antt =====
-- TransactionExecutor (platform/consensus/execution/transaction_executor.{h,cpp}): committed
-- requests are put in the order of their sequence numbers and executed. A queue is a list, oldest
-- first; the thread that orders them is the function `order`, one round of its loop, and the threads
-- that run the transactions are in Executor/Rounds. The statistics are left out.
pub mod Spec
pub mod Ordering
pub mod Refinement
pub mod Rounds
pub mod Agreement
use resilientdb.Common.{
  number_keys, ltb, if◌then◌else◌, ◌==◌, ℕ, ◌+◌, ◌-◌, Bool, not, ◌&&◌, ◌||◌, List, [], ◌∷◌, ◌++◌,
}
use resilientdb.Common.Maps.{Map}
use resilientdb.Messages.{Request}

pub record TransactionExecutor : Type 0 where
  pub next_execute_seq : ℕ
  pub candidates : Map ℕ Request
  pub commit_queue : List Request
  pub execute_queue : List Request
  pub ooo_queue : List Request
  -- whether there is a transaction_manager_, IsOutOfOrder() and NeedResponse()
  pub has_manager : Bool
  pub is_out_of_order : Bool
  pub manager_responds : Bool
  -- the arguments with which seq_update_notify_func_ was called
  pub notified : List ℕ

-- The constructor; `needs` is transaction_manager_->NeedResponse().
unfoldable pub new_executor : Bool → Bool → Bool → TransactionExecutor
new_executor has_manager is_out_of_order needs = record {
  next_execute_seq = 1;
  candidates = [];
  commit_queue = [];
  execute_queue = [];
  ooo_queue = [];
  has_manager = has_manager;
  is_out_of_order = is_out_of_order;
  manager_responds = needs;
  notified = [];
}

-- GetMaxPendingExecutedSeq.
unfoldable pub get_max_pending_executed_seq : TransactionExecutor → ℕ
get_max_pending_executed_seq e = e.next_execute_seq - 1

-- NeedResponse.
unfoldable pub need_response : TransactionExecutor → Bool
need_response e = not e.has_manager || e.manager_responds

-- Commit.
unfoldable pub commit : TransactionExecutor → Request → TransactionExecutor
commit e message =
    if e.has_manager && e.is_out_of_order
    then record e {
      ooo_queue = e.ooo_queue ++ message ∷ [];
      commit_queue = e.commit_queue ++ message ∷ [];
    }
    else record e { commit_queue = e.commit_queue ++ message ∷ [] }

-- `candidates_.insert`: in the order of the keys; a key that is there keeps its message.
unfoldable pub insert_candidate : ℕ → Request → Map ℕ Request → Map ℕ Request
insert_candidate k m [] = (k, m) ∷ []
insert_candidate k m ((j, x) ∷ c) =
    if ltb k j
    then (k, m) ∷ (j, x) ∷ c
    else if k == j
    then (j, x) ∷ c
    else (j, x) ∷ insert_candidate k m c

-- AddNewData.
unfoldable pub add_new_data : TransactionExecutor → Request → TransactionExecutor
unfolding insert_candidate
add_new_data e message = record e { candidates = insert_candidate message.seq message e.candidates }

-- The inner loop of OrderMessage with GetNextData, from the smallest candidate on: what is still a
-- candidate, the next sequence number, the queue and the notifications.
unfoldable pub drain :
    Map ℕ Request → ℕ → List Request → List ℕ → Map ℕ Request × ℕ × List Request × List ℕ
drain [] next queue notes = ([], next, queue, notes)
drain ((k, m) ∷ c) next queue notes =
    let more = drain c (next + 1) (queue ++ m ∷ []) (notes ++ (next + 1) ∷ []) in
    if k == next then more else ((k, m) ∷ c, next, queue, notes)

unfoldable pub drain_all : TransactionExecutor → TransactionExecutor
unfolding drain
drain_all e =
    let (c, next, queue, notes) =
      drain e.candidates e.next_execute_seq e.execute_queue e.notified in
    record e { candidates = c; next_execute_seq = next; execute_queue = queue; notified = notes }

-- One message in a round of OrderMessage: an old one is passed over, with no look at the candidates.
unfoldable pub order_message : TransactionExecutor → Request → TransactionExecutor
unfolding add_new_data drain_all
order_message e message =
    if ltb message.seq e.next_execute_seq then e else drain_all (add_new_data e message)

-- One round of OrderMessage, whether Pop returns a message or not.
unfoldable pub order : TransactionExecutor → TransactionExecutor
unfolding order_message drain_all
order e = elim e.commit_queue [
  | [] ↦ drain_all e
  | m ∷ ms ↦ order_message (record e { commit_queue = ms }) m
]

-- The messages of the commit queue, one round each.
unfoldable pub order_messages : TransactionExecutor → List Request → TransactionExecutor
order_messages e [] = e
order_messages e (m ∷ ms) = order_messages (order_message e m) ms
