-- ===== src/Pbft/ResponseManager/Batching.antt =====
-- The requests of the clients in ResponseManager, with their timeouts
-- (platform/consensus/ordering/pbft/response_manager.cpp). SerializeToString of a BatchUserRequest,
-- CalculateHash and SignMessage are parameters; `now` is what GetCurrentTime returns. The rounds of
-- the two threads are calls; a round that only waits is left out.
use resilientdb.Config.{get_max_process_txn, performance_running}
use resilientdb.Common.Maps.{insert, lookup}
use resilientdb.Common.Int.{pos, ℤ, ◌+ℤ◌, ltb_ℤ}
use resilientdb.Common.{
  true, false, none, text_keys, [], ltb, some, ◌++◌, ◌+◌, Bool, Option, ◌∷◌, List, String, ℕ,
  if◌then◌else◌, length, ◌%◌, ◌^◌, not,
}
use resilientdb.Messages.{
  failure, default_request, RequestType, new_request, SignatureInfo, Request, success,
}
use resilientdb.Pbft.Collector.{Context}
use resilientdb.Pbft.ResponseManager.{ResponseManager, add_context_list, get_primary, is_zero}

-- ResponseManager::QueueItem.
pub record QueueItem : Type 0 where
  pub context : Context
  pub user_request : Request

-- BatchUserRequest::UserRequest.
pub record UserRequest : Type 0 where
  pub request : Request
  pub signature : SignatureInfo
  pub id : ℕ

-- BatchUserRequest, as DoBatch fills it.
pub record UserBatch : Type 0 where
  pub user_requests : List UserRequest
  pub local_id : ℕ
  pub createtime : ℕ

-- NewUserRequest; the flag is `need_response()`.
unfoldable pub new_user_request : List QueueItem → Context → Request → Bool → List QueueItem
new_user_request queue context request needed =
    queue
    ++ record {
      context = if needed then context else record context { client = none };
      user_request = request;
    }
      ∷ []

-- The loop of DoBatch, with the index.
unfoldable pub user_requests_from : ℕ → List QueueItem → List UserRequest
user_requests_from i [] = []
user_requests_from i (item ∷ items) =
    record { request = item.user_request; signature = item.context.signature; id = i }
    ∷ user_requests_from (i + 1) items

unfoldable pub contexts_of : List QueueItem → List Context
contexts_of [] = []
contexts_of (item ∷ items) = item.context ∷ contexts_of items

-- AddWaitingResponseRequest: `insert` of std::map keeps the value of a key that is there.
unfoldable pub add_waiting_response_request : ResponseManager → Request → ℕ → ResponseManager
add_waiting_response_request m request now =
    if m.config.config_data.enable_viewchange
    then record m {
      client_timeout_min_heap =
          m.client_timeout_min_heap ++ (request.hash, (now + m.timeout_length) % 2 ^ 64) ∷ [];
      waiting_response_batches = elim (lookup request.hash m.waiting_response_batches) [
        | none ↦ insert request.hash (some request) m.waiting_response_batches
        | some old ↦ m.waiting_response_batches
      ];
    }
    else m

-- The batch has its number, and its contexts are kept under it, except in a performance run.
unfoldable pub number_batch : ResponseManager → List Context → ResponseManager × ℕ × ℤ
unfolding add_context_list
number_batch m contexts =
    if performance_running m.config
    then (m, 0, success)
    else (let m' = record m { local_id = (m.local_id + 1) % 2 ^ 64 } in
        let (m'', code) = add_context_list m' contexts m.local_id in (m'', m.local_id, code))

module _ (print : UserBatch → String) (calculate_hash : String → String)
    (verifier : Option (String → Option SignatureInfo)) where
  -- `data_signature`, where there is a verifier; `none` is a message that it does not sign.
  unfoldable pub sign_batch : Request → String → Option Request
  sign_batch request text = elim verifier [
    | none ↦ some request
    | some sign ↦ elim (sign text) [
      | none ↦ none
      | some signature ↦ some (record request { data_signature = some signature })
    ]
  ]

  -- DoBatch, past AddContextList.
  unfoldable pub send_batch : ResponseManager → UserBatch → ℕ → ResponseManager × ℤ
  unfolding sign_batch add_waiting_response_request get_primary new_request
  send_batch m batch now =
      let text = print batch in
      let self = m.config.self_info.id in
      elim (sign_batch (new_request RequestType.new_txns default_request self) text) [
        | none ↦ (m, failure)
        | some signed ↦
            let request = record signed {
              payload = text;
              hash = calculate_hash text;
              proxy_id = self;
            } in
            let m' = record m {
              to_replicas = m.to_replicas ++ (some (get_primary m), request) ∷ [];
              send_num = m.send_num +ℤ pos 1;
            } in
            (add_waiting_response_request m' request now, success)
      ]

  -- DoBatch.
  unfoldable pub do_batch : ResponseManager → List QueueItem → ℕ → ResponseManager × ℤ
  unfolding number_batch send_batch user_requests_from contexts_of is_zero
  do_batch m items now =
      let (m', id, code) = number_batch m (contexts_of items) in
      if not (is_zero code)
      then (m', code)
      else send_batch m'
          (record { user_requests = user_requests_from 0 items; local_id = id; createtime = now })
          now

  -- What a round of BatchProposeMsg does with its batch: the batch is empty after it, whatever
  -- DoBatch returns, so the loop over it that answers the clients never runs.
  unfoldable pub propose_batch :
      ResponseManager → List QueueItem → ℕ → ResponseManager × List QueueItem
  unfolding do_batch
  propose_batch m [] now = (m, [])
  propose_batch m (item ∷ items) now = ((do_batch m (item ∷ items) now).0, [])

  -- A round of BatchProposeMsg, with the batch so far and what Pop gave.
  unfoldable pub batch_propose_msg :
      ResponseManager → List QueueItem → Option QueueItem → ℕ → ResponseManager × List QueueItem
  unfolding propose_batch
  batch_propose_msg m items popped now =
      let size = m.config.config_data.client_batch_num in
      if ltb_ℤ (pos (get_max_process_txn m.config)) m.send_num
      then (m, items)
      else if not (ltb (length items) size)
      then propose_batch m items now
      else elim popped [
        | none ↦ propose_batch m items now
        | some item ↦
            let items' = items ++ item ∷ [] in
            if ltb (length items') size then (m, items') else propose_batch m items' now
      ]

-- CheckTimeOut.
unfoldable pub check_time_out : ResponseManager → String → Bool
check_time_out m hash = elim (lookup hash m.waiting_response_batches) [
  | none ↦ false
  | some r ↦ true
]

-- The broadcast of a request that got no response, with what stands in the map: GetTimeOutRequest
-- moves the request out and leaves the key.
unfoldable pub broadcast_waiting :
    ResponseManager → String → Option (Option Request) → ResponseManager
broadcast_waiting m hash none = m
broadcast_waiting m hash (some none) = m
broadcast_waiting m hash (some (some request)) = record m {
  waiting_response_batches = insert hash none m.waiting_response_batches;
  to_replicas = m.to_replicas ++ (none, request) ∷ [];
}

-- The entry on top of the heap, the earliest, and the others.
unfoldable pub pop_earliest : String × ℕ → List (String × ℕ) → (String × ℕ) × List (String × ℕ)
pop_earliest top [] = (top, [])
pop_earliest (hash, time) ((hash', time') ∷ more) =
    let is_earlier = ltb time' time in
    let (best, rest) = pop_earliest (if is_earlier then (hash', time') else (hash, time)) more in
    (best, (if is_earlier then (hash, time) else (hash', time')) ∷ rest)

-- A round of MonitoringClientTimeOut, once the time of the entry on top has come.
unfoldable pub monitor_client_timeout : ResponseManager → ResponseManager
unfolding pop_earliest broadcast_waiting check_time_out
monitor_client_timeout m = elim m.client_timeout_min_heap [
  | [] ↦ m
  | top ∷ more ↦
      let ((hash, time), rest) = pop_earliest top more in
      let m' = record m { client_timeout_min_heap = rest } in
      if check_time_out m' hash
      then broadcast_waiting m' hash (lookup hash m'.waiting_response_batches)
      else m'
]
