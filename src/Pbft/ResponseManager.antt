-- ===== src/Pbft/ResponseManager.antt =====
-- ResponseManager (platform/consensus/ordering/pbft/response_manager.{h,cpp}): the batches of client
-- requests, and the responses of the replicas. ParseFromString of a BatchUserResponse is a
-- parameter; the latency is left out. A channel to a client is a number, and sending to it
-- succeeds.
pub mod Counting
pub mod Answers
pub mod Payload
pub mod Batching
use mathlib.Core.Option
use resilientdb.Common.Maps.{Map, erase}
use resilientdb.Pbft.MessageManager.{state_changed, ok, invalid, ResultCode}
use resilientdb.Messages.{success, failure, Request, RequestType, SignatureInfo}
use resilientdb.Pbft.Status.{Status}
use resilientdb.Execution.SystemInfo.{SystemInfo}
use resilientdb.Pbft.Pool.{new_pool, set_collector, get_collector, CollectorPool, update}
use resilientdb.Common.Int.{pos, ℤ, ◌-ℤ◌, negsuc}
use resilientdb.Execution.Executor.Rounds.{BatchResponse}
use resilientdb.Common.{
  text_keys, false, ◌∷◌, some, Bool, Option, String, ℕ, List, leb, if◌then◌else◌, length, zero, suc,
  true, not, none, [], ◌++◌,
}
use resilientdb.Config.{
  get_max_process_txn, ResDbConfig, min_client_receive_num, performance_running,
}
use resilientdb.Pbft.Collector.{
  Context, Outcome, CallBack, add_request, fetch_context_list, set_context_list,
}

-- What ResponseManager is: the request of a hash is null once GetTimeOutRequest has moved it out.
pub record ResponseManager : Type 0 where
  pub config : ResDbConfig
  pub collector_pool : CollectorPool
  pub context_pool : CollectorPool
  pub system_info : SystemInfo
  pub local_id : ℕ
  pub send_num : ℤ
  pub timeout_length : ℕ
  pub waiting_response_batches : Map String (Option Request)
  pub client_timeout_min_heap : List (String × ℕ)
  -- What the clients were sent.
  pub to_clients : List (ℕ × String)
  -- What went to the replicas; `none` is a broadcast.
  pub to_replicas : List (Option ℕ × Request)

-- The constructor, without the threads.
unfoldable pub new_response_manager : ResDbConfig → SystemInfo → ResponseManager
unfolding get_max_process_txn new_pool
new_response_manager config system_info = record {
  config = config;
  collector_pool = new_pool (get_max_process_txn config) false false;
  context_pool = new_pool (get_max_process_txn config) false false;
  system_info = system_info;
  local_id = 1;
  send_num = pos 0;
  timeout_length = 5000000;
  waiting_response_batches = [];
  client_timeout_min_heap = [];
  to_clients = [];
  to_replicas = [];
}

-- GetPrimary.
unfoldable pub get_primary : ResponseManager → ℕ
get_primary m = m.system_info.primary_id

-- The case of a response in MayConsensusChangeStatus: the new status, and whether it changed.
unfoldable pub may_execute : ℕ → ℕ → Status → Status × Bool
may_execute quorum received Status.none =
    if leb quorum received then (Status.executed, true) else (Status.none, false)
may_execute quorum received status = (status, false)

-- MayConsensusChangeStatus.
unfoldable pub may_change_status : ℕ → RequestType → ℕ → Status → Status × Bool
unfolding may_execute
may_change_status quorum RequestType.response received status = may_execute quorum received status
may_change_status quorum _ received status = (status, false)

-- The callback of AddResponseMsg, with that of ProcessResponseMsg: it keeps the request.
unfoldable pub response_call_back : ℕ → RequestType → CallBack (Option Request)
unfolding may_change_status
response_call_back quorum kind request received status force kept =
    let (status', moved) = may_change_status quorum kind received status in
    (status', if moved then some request else kept)

-- AddContextList; `failure` stands for a collector out of the vector.
unfoldable pub add_context_list : ResponseManager → List Context → ℕ → ResponseManager × ℤ
add_context_list m contexts id = elim (get_collector m.context_pool id) [
  | none ↦ (m, failure)
  | some c ↦
      let (c', code) = set_context_list c id contexts in
      (record m { context_pool = set_collector m.context_pool id c' }, code)
]

-- FetchContextList.
unfoldable pub fetch_contexts : ResponseManager → ℕ → ResponseManager × List Context
fetch_contexts m id = elim (get_collector m.context_pool id) [
  | none ↦ (m, [])
  | some c ↦
      let (c', contexts) = fetch_context_list c id in
      (record m { context_pool = update (set_collector m.context_pool id c') id }, contexts)
]

-- RemoveWaitingResponseRequest.
unfoldable pub remove_waiting_response_request : ResponseManager → String → ResponseManager
remove_waiting_response_request m hash =
    if m.config.config_data.enable_viewchange
    then record m { waiting_response_batches = erase hash m.waiting_response_batches }
    else m

-- The loop of SendResponseToClient; `none` is a response past the end of the list.
unfoldable pub answers : List Context → List String → Option (List (ℕ × String))
answers [] responses = some []
answers (context ∷ contexts) [] = elim context.client [
  | none ↦ answers contexts []
  | some client ↦ none
]
answers (context ∷ contexts) (response ∷ responses) =
    let rest = answers contexts responses in
    elim context.client [
      | none ↦ rest
      | some client ↦ Option.map (λ more. (client, response) ∷ more) rest
    ]

-- SendResponseToClient, once the contexts are there.
unfoldable pub answer_clients :
    ResponseManager × List Context → BatchResponse → Option ResponseManager
unfolding answers
answer_clients (m, contexts) batch = elim (answers contexts batch.responses) [
  | none ↦ none
  | some sent ↦ some (record m { to_clients = m.to_clients ++ sent })
]

-- SendResponseToClient; `none` is a read out of the responses.
unfoldable pub send_response_to_client : ResponseManager → BatchResponse → Option ResponseManager
unfolding answer_clients fetch_contexts
send_response_to_client m batch =
    let m' = record m { send_num = m.send_num -ℤ pos 1 } in
    if performance_running m.config
    then some m'
    else answer_clients (fetch_contexts m' batch.local_id) batch

-- `ret == 0` and `ret == -2`.
unfoldable pub is_zero : ℤ → Bool
is_zero (pos zero) = true
is_zero _ = false

unfoldable pub is_minus_two : ℤ → Bool
is_minus_two (negsuc (suc zero)) = true
is_minus_two _ = false

-- AddResponseMsg, past AddRequest: the manager, the code and the response that is complete.
unfoldable pub take_response :
    ResponseManager
    → String
    → ℕ
    → Outcome (Option Request)
    → ResponseManager × ResultCode × Option Request
unfolding remove_waiting_response_request is_zero
take_response m hash seq o =
    let m' = record m { collector_pool = set_collector m.collector_pool seq o.collector } in
    if not (is_zero o.code) then (m', invalid, none) else elim o.captured [
      | none ↦ (m', ok, none)
      | some r ↦
          let m'' = record m' { collector_pool = update m'.collector_pool seq } in
          (remove_waiting_response_request m'' hash, state_changed, some r)
    ]

module _ (parse : String → Option BatchResponse) where
  -- AddResponseMsg of a request that is not null.
  unfoldable pub add_response_msg :
      ResponseManager → SignatureInfo → Request → ResponseManager × ResultCode × Option Request
  unfolding take_response remove_waiting_response_request response_call_back
  add_response_msg m signature request = elim (parse request.payload) [
    | none ↦ (remove_waiting_response_request m request.hash, invalid, none)
    | some batch ↦ elim (get_collector m.collector_pool batch.local_id) [
      | none ↦ (m, invalid, none)
      | some c ↦ take_response m request.hash batch.local_id (
          add_request
            (response_call_back (min_client_receive_num (length m.config.replicas)) request.kind) c
            (some (record request { seq = batch.local_id })) signature false none)
    ]
  ]

  -- What ProcessResponseMsg does with what AddResponseMsg gives.
  unfoldable pub after_response :
      ResponseManager × ResultCode × Option Request → Option (ResponseManager × ℤ)
  unfolding send_response_to_client
  after_response (m, invalid, kept) = some (m, failure)
  after_response (m, ok, kept) = some (m, success)
  after_response (m, state_changed, none) = some (m, success)
  after_response (m, state_changed, some response) = elim (parse response.payload) [
    | none ↦ some (m, success)
    | some batch ↦ Option.map (λ m'. (m', success)) (send_response_to_client m batch)
  ]

  -- ProcessResponseMsg; `none` is a read out of the responses.
  unfoldable pub process_response_msg :
      ResponseManager → SignatureInfo → Request → Option (ResponseManager × ℤ)
  unfolding add_response_msg after_response is_minus_two
  process_response_msg m signature request =
      if is_minus_two request.ret
      then some (record m { send_num = m.send_num -ℤ pos 1 }, success)
      else after_response (add_response_msg m signature request)
